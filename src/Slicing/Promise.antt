-- ===== src/Slicing/Promise.antt =====
-- `buildSlices` as a whole: its slices are bounded and numbered and hold every block of the dialogue,
-- redacted, in order and without a gap.
use mathlib.Core.List.{append-nil}
use agent_context_broker.Prelude.{
  subst, length-map, map, All, ◌*◌, ℕ, ◌+◌, ◌-◌, ◌/◌, ◌≤◌, ◌≡◌, refl, sym, ap, ◌∙◌, String, Bool,
  not, ◌&&◌, List, [], ◌∷◌, ◌++◌, ltb, leb, if◌then◌else◌, length, arith,
}
use agent_context_broker.Prelude.Text.{is_hash}
use agent_context_broker.Platform.{Platform}
use agent_context_broker.Slicing.{
  Role, Progress, Row, read_rows, starts_with_document, flush, slice_blocks, nothing_yet, Plan,
  build_slices, max_slices, max_blocks, row, malformed, is_document,
}
use agent_context_broker.Slicing.Errors.{
  bind-ok, require-ok, ok, slice_size, empty_dialogue, block_limit, input_identity, slice_limit,
  dialogue_shape, text_limit,
}
use agent_context_broker.Slicing.Redact.{Patterns, unit_count, max_text_chars}
use agent_context_broker.Slicing.Build.{segments_of, IsNumbered, flush-Keeps}
use agent_context_broker.Slicing.Cover.{IsCover, IsOpen-nothing_yet, slice_blocks-IsCover}

-- The guards of `build_slices`, and what the loops return.
pub record HasBuilt (p : Platform) (m : Patterns) (rows : List Row) (job receipt : String)
    (max_chars : ℕ) (plan : Plan) : Type 0 where
  pub sum : ℕ
  pub dialogue : List (Role × List ℕ)
  pub looped : Progress
  pub finished : Progress
  pub size : (128 ≤ max_chars) × (max_chars ≤ 80000)
  pub read : read_rows (starts_with_document rows) 0 rows ≡ ok (dialogue, sum)
  pub loop :
      slice_blocks p job receipt max_chars (starts_with_document rows) m 0 dialogue nothing_yet
      ≡ ok looped
  pub last : flush p job receipt max_chars (starts_with_document rows) looped ≡ ok finished
  pub same : plan ≡ record {
    block_count = length dialogue;
    slices = finished.slices;
    redaction_kinds = finished.kinds;
  }

build_slices-HasBuilt :
    (p : Platform) (m : Patterns) (rows : List Row) (job receipt : String) (max_chars : ℕ)
    (plan : Plan)
    → build_slices p m rows job receipt max_chars ≡ ok plan
    → HasBuilt p m rows job receipt max_chars plan
unfolding build_slices
build_slices-HasBuilt p m rows job receipt max_chars plan e =
    let (size, e1) = require-ok (leb 128 max_chars && leb max_chars 80000) slice_size _ plan e in
    let (_, e2) = require-ok (ltb 0 (length rows)) empty_dialogue _ plan e1 in
    let (_, e3) = require-ok (leb (length rows) max_blocks) block_limit _ plan e2 in
    let (_, e4) = require-ok (is_hash job && is_hash receipt) input_identity _ plan e3 in
    let documents = starts_with_document rows in
    let ((dialogue, sum), read, e5) = bind-ok (read_rows documents 0 rows) _ plan e4 in
    let (_, e6) =
      require-ok (leb ((sum + max_chars - 1) / max_chars) max_slices) slice_limit _ plan e5 in
    let (looped, loop, e7) =
      bind-ok (slice_blocks p job receipt max_chars documents m 0 dialogue nothing_yet) _ plan e6 in
    let (finished, last, e8) = bind-ok (flush p job receipt max_chars documents looped) _ plan e7 in
    record {
      sum = sum;
      dialogue = dialogue;
      looped = looped;
      finished = finished;
      size = (ground arith, ground arith);
      read = read;
      loop = loop;
      last = last;
      same = ground arith;
    }

abbrev pub row_of : Role × List ℕ → Row
row_of (role, content) = row role content

-- The rows of an input that was read: all of them documents, or none.
pub read_rows-rows :
    (documents : Bool) (sum end : ℕ) (rows : List Row) (dialogue : List (Role × List ℕ))
    → read_rows documents sum rows ≡ ok (dialogue, end)
    → (rows ≡ map row_of dialogue) × All (λ d. is_document d.0 ≡ documents) dialogue
unfolding read_rows
read_rows-rows documents sum end [] dialogue e =
    let same : dialogue ≡ [] = ground arith in rw same (refl, tt)
read_rows-rows documents sum end (malformed ∷ rows) dialogue e = cc
read_rows-rows documents sum end (row role content ∷ rows) dialogue e =
    let (one_kind, e1) =
      require-ok (if documents then is_document role else not (is_document role)) dialogue_shape _ _
        e in
    let (_, e2) = require-ok (leb (unit_count content) (max_text_chars * 2)) text_limit _ _ e1 in
    let (_, e3) = require-ok (leb (sum + length content) max_text_chars) text_limit _ _ e2 in
    let ((rest, end1), read, e4) =
      bind-ok (read_rows documents (sum + length content) rows) _ _ e3 in
    let (ih, kinds) = read_rows-rows documents (sum + length content) end1 rows rest read in
    let same : dialogue ≡ (role, content) ∷ rest = ground arith in
    rw same (ap (λ more. row role content ∷ more) ih, (ground arith, kinds))

-- What a plan promises of its rows.
pub record IsPlanFor (p : Platform) (m : Patterns) (rows : List Row) (job receipt : String)
    (max_chars : ℕ) (plan : Plan) : Type 0 where
  pub dialogue : List (Role × List ℕ)
  pub all_rows : rows ≡ map row_of dialogue
  pub one_kind : All (λ d. is_document d.0 ≡ starts_with_document rows) dialogue
  pub counted : plan.block_count ≡ length rows
  pub few : length plan.slices ≤ max_slices
  pub numbered : IsNumbered p job receipt max_chars (starts_with_document rows) 0 plan.slices
  pub cover : IsCover m 0 dialogue (segments_of plan.slices)

-- A plan that `buildSlices` returns was made of rows that are all documents or all dialogue. It has at
-- most 4096 slices, each with its number and its own digest, of 1 to 64 segments and at most `max_chars`
-- code points in all; and its segments, in order, hold every row as the redaction left it, none of it
-- twice and without a gap.
pub build_slices-IsPlanFor :
    (p : Platform) (m : Patterns) (rows : List Row) (job receipt : String) (max_chars : ℕ)
    (plan : Plan)
    → build_slices p m rows job receipt max_chars ≡ ok plan
    → IsPlanFor p m rows job receipt max_chars plan
build_slices-IsPlanFor p m rows job receipt max_chars plan e =
    let b = build_slices-HasBuilt p m rows job receipt max_chars plan e in
    let documents = starts_with_document rows in
    let start = IsOpen-nothing_yet p job receipt max_chars documents in
    let (is_open, more, added, cover) =
      slice_blocks-IsCover p job receipt max_chars documents m 0 b.dialogue nothing_yet b.looped
        (omega (arith, b.size)) start b.loop in
    let (kept, none_open) =
      flush-Keeps p job receipt max_chars documents b.looped b.finished is_open.progress b.last in
    let (all_rows, one_kind) = read_rows-rows documents 0 b.sum rows b.dialogue b.read in
    let whole : segments_of b.finished.slices ≡ more =
      sym (append-nil (segments_of b.finished.slices))
      ∙ ap (λ left. segments_of b.finished.slices ++ left) (sym none_open)
      ∙ kept.same
      ∙ added in
    let made : plan.slices ≡ b.finished.slices = ap (λ x. x.slices) b.same in
    record {
      dialogue = b.dialogue;
      all_rows = all_rows;
      one_kind = one_kind;
      counted =
          omega (
            arith,
            ap (λ x. x.block_count) b.same,
            ap length all_rows,
            length-map row_of b.dialogue,
          );
      few = rw made kept.progress.bounded;
      numbered =
          subst (IsNumbered p job receipt max_chars documents 0) (sym made) kept.progress.numbered;
      cover = subst (IsCover m 0 b.dialogue) (sym (ap segments_of made ∙ whole)) cover;
    }
