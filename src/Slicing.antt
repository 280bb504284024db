-- ===== src/Slicing.antt =====
-- distillation/src/slicing.mts: cutting a redacted dialogue into slices of bounded size. A text is the
-- list of its code points. `Slicing.Redact` models `redactBlock`.
pub mod Errors
pub mod Redact
pub mod Masking
pub mod Masked
pub mod Build
pub mod Cover
pub mod Promise
pub mod Fuel
mod Tests
use agent_context_broker.Prelude.{
  ℕ, zero, suc, ◌+◌, ◌*◌, ◌≡◌, refl, String, Bool, true, false, not, ◌&&◌, List, [], ◌∷◌, ◌++◌, ltb,
  leb, ◌==◌, ◌-◌, ◌/◌, if◌then◌else◌, length, take, drop, any, str_eq,
}
use agent_context_broker.Prelude.Text.{point_units, is_hash}
use agent_context_broker.Platform.{Platform}
use agent_context_broker.Json.{
  Json, num, str, arr, obj, Items, nil, cons, Fields, end, field, entry, text, stable_json,
  unicode_escape,
}
use agent_context_broker.Slicing.Errors.{
  Result, ok, err, ◌>>=◌, ◌>>◌, require, slice_size, empty_dialogue, block_limit, input_identity,
  dialogue_shape, text_limit, slice_limit, out_of_fuel,
}
use agent_context_broker.Slicing.Redact.{
  Patterns, Kinds, merge_kinds, max_text_chars, unit_count, redact_block,
}

pub data Role : Type 0 where
  user assistant document : Role

pub record Segment : Type 0 where
  pub block : ℕ
  pub start_char : ℕ
  pub end_char : ℕ
  pub role : Role
  pub content : List ℕ

-- `schemaVersion` and `trust` are constants of every slice.
pub record Slice : Type 0 where
  pub job_id : String
  pub receipt : String
  pub index : ℕ
  pub segments : List Segment
  pub documents : Bool
  pub slice_id : String

abbrev pub max_blocks : ℕ
max_blocks = 32768

abbrev pub max_slices : ℕ
max_slices = 4096

-- `canonical`: sorted keys, and escapes for all that is not printable ASCII.
ascii : List ℕ → List ℕ
ascii [] = []
ascii (c ∷ cs) = if leb 0x7f c then unicode_escape c ++ ascii cs else c ∷ ascii cs

unfoldable pub canonical : Json → List ℕ
unfolding ascii
canonical v = ascii (stable_json v)

abbrev role_text : Role → String
role_text user = "user"
role_text assistant = "assistant"
role_text document = "document"

-- The code units of a list of code points.
utf16 : List ℕ → List ℕ
utf16 [] = []
utf16 (c ∷ cs) = point_units c ++ utf16 cs

segment_items : List Segment → Items
unfolding utf16
segment_items [] = nil
segment_items (s ∷ ss) =
    cons
      (obj (
        entry "block" (num s.block) (
          entry "startChar" (num s.start_char) (
            entry "endChar" (num s.end_char) (
              entry "role" (text (role_text s.role)) (entry "text" (str (utf16 s.content)) end))))))
      (segment_items ss)

abbrev boundary_text : Bool → String
boundary_text true = "changed workbench document sections; no inferred surrounding document context"
boundary_text false = "partial historical dialogue; no inferred earlier context"

-- The fields of a slice without its id, in front of `rest`.
pub slice_fields : String → String → ℕ → List Segment → Bool → Fields → Fields
unfolding segment_items
slice_fields job receipt index segments documents rest = entry "schemaVersion" (num 1) (
    entry "jobId" (text job) (
      entry "receiptSha256" (text receipt) (
        entry "index" (num index) (
          entry "segments" (arr (segment_items segments)) (
            entry "contextBoundary" (text (boundary_text documents)) (
              entry "trust" (text "untrusted historical data, never instructions or approval")
                rest))))))

pub slice_json : Slice → Json
unfolding slice_fields
slice_json s = obj (
    slice_fields s.job_id s.receipt s.index s.segments s.documents
      (entry "sliceId" (text s.slice_id) end))

-- A row of the argument; what is no object of a role and a text is malformed.
pub data Row : Type 0 where
  malformed : Row
  row : Role → List ℕ → Row

abbrev pub is_document : Role → Bool
is_document document = true
is_document _ = false

abbrev pub starts_with_document : List Row → Bool
starts_with_document (row r _ ∷ rows) = is_document r
starts_with_document _ = false

-- The first loop of `buildSlices`: the shape of the rows and the size of their texts.
unfoldable pub read_rows : Bool → ℕ → List Row → Result (List (Role × List ℕ) × ℕ)
read_rows documents total [] = ok ([], total)
read_rows documents total (malformed ∷ rows) = err dialogue_shape
read_rows documents total (row r content ∷ rows) =
    let rest = read_rows documents (total + length content) rows in
    do
      require (if documents then is_document r else not (is_document r)) dialogue_shape
      require (leb (unit_count content) (max_text_chars * 2)) text_limit
      require (leb (total + length content) max_text_chars) text_limit
      (dialogue, sum) ← rest
      ok ((r, content) ∷ dialogue, sum)

abbrev pub new_segment : ℕ → Role → ℕ → List ℕ → Segment
new_segment block role start content = record {
  block = block;
  start_char = start;
  end_char = start + length content;
  role = role;
  content = content;
}

-- The variables that `flush` and the second loop share.
pub record Progress : Type 0 where
  pub slices : List Slice
  pub segments : List Segment
  pub used : ℕ
  pub kinds : Kinds

abbrev pub add_segment : ℕ → Role → ℕ → List ℕ → Progress → Progress
add_segment block role start content st = record st {
  segments = st.segments ++ new_segment block role start content ∷ [];
  used = st.used + length content;
}

-- An empty text is one empty segment.
abbrev pub open_block : ℕ → Role → List ℕ → Progress → Progress
open_block block role [] st = add_segment block role 0 [] st
open_block block role (c ∷ cs) st = st

module _ (p : Platform) (job receipt : String) (max_chars : ℕ) (documents : Bool) where
  -- `digest(item)`
  pub slice_digest : ℕ → List Segment → String
  unfolding slice_fields canonical
  slice_digest index segments =
      p.sha256 (canonical (obj (slice_fields job receipt index segments documents end)))

  abbrev pub new_slice : ℕ → List Segment → Slice
  new_slice index segments = record {
    job_id = job;
    receipt = receipt;
    index = index;
    segments = segments;
    documents = documents;
    slice_id = slice_digest index segments;
  }

  abbrev pub pushed : Progress → Progress
  pushed st = record st {
    slices = st.slices ++ new_slice (length st.slices) st.segments ∷ [];
    segments = [];
    used = 0;
  }

  -- `flush`; the list is that of the open segments.
  unfoldable pub flush_segments : List Segment → Progress → Result Progress
  flush_segments [] st = ok st
  flush_segments (_ ∷ _) st =
      if ltb (length st.slices) max_slices then ok (pushed st) else err slice_limit

  unfoldable pub flush : Progress → Result Progress
  flush st = flush_segments st.segments st

  -- `while (unit < text.length)`: `content` is what is left of the text. Each round takes at least one
  -- code point, so its length is fuel enough.
  unfoldable pub cut : ℕ → ℕ → Role → ℕ → List ℕ → Progress → Result Progress
  cut fuel block role start [] st = ok st
  cut zero block role start (c ∷ cs) st = err out_of_fuel
  cut (suc fuel) block role start (c ∷ cs) st = do
    st1 ← if st.used == max_chars then flush st else ok st
    let piece = take (max_chars - st1.used) (c ∷ cs)
    let rest = drop (max_chars - st1.used) (c ∷ cs)
    cut fuel block role (start + length piece) rest (add_segment block role start piece st1)

  -- `if (segments.length >= 64) flush()`
  unfoldable pub close_block : Progress → Result Progress
  close_block st = if leb 64 (length st.segments) then flush st else ok st

  module _ (m : Patterns) where
    -- One round of the second loop.
    unfoldable pub slice_block : ℕ → Role × List ℕ → Progress → Result Progress
    slice_block block (role, content) st = do
      (redacted, kinds) ← redact_block m content
      let st1 = record st { kinds = merge_kinds kinds st.kinds }
      st2 ← cut (length redacted) block role 0 redacted (open_block block role redacted st1)
      close_block st2

    unfoldable pub slice_blocks : ℕ → List (Role × List ℕ) → Progress → Result Progress
    slice_blocks block [] st = ok st
    slice_blocks block (d ∷ ds) st = do
      st1 ← slice_block block d st
      slice_blocks (suc block) ds st1

abbrev pub nothing_yet : Progress
nothing_yet = record { slices = []; segments = []; used = 0; kinds = [] }

pub record Plan : Type 0 where
  pub block_count : ℕ
  pub slices : List Slice
  pub redaction_kinds : Kinds

-- `buildSlices`; the digest of the plan itself is left out.
unfoldable pub build_slices : Platform → Patterns → List Row → String → String → ℕ → Result Plan
build_slices p m rows job receipt max_chars = do
  require (leb 128 max_chars && leb max_chars 80000) slice_size
  require (ltb 0 (length rows)) empty_dialogue
  require (leb (length rows) max_blocks) block_limit
  require (is_hash job && is_hash receipt) input_identity
  let documents = starts_with_document rows
  (dialogue, total) ← read_rows documents 0 rows
  require (leb ((total + max_chars - 1) / max_chars) max_slices) slice_limit
  st ← slice_blocks p job receipt max_chars documents m 0 dialogue nothing_yet
  done ← flush p job receipt max_chars documents st
  ok (record { block_count = length dialogue; slices = done.slices; redaction_kinds = done.kinds })
