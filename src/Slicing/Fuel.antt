-- ===== src/Slicing/Fuel.antt =====
-- The loops of `buildSlices` come to an end: the fuel of the model never runs out.
use agent_context_broker.Prelude.{
  ℕ, zero, suc, ◌+◌, ◌-◌, ◌*◌, ◌/◌, ◌≤◌, ◌<◌, ◌≡◌, ◌≢◌, refl, String, Bool, true, false, not, ◌&&◌,
  List, [], ◌∷◌, ltb, leb, ◌==◌, if◌then◌else◌, length, take, drop, length-take, length-drop,
  Bool-cases, arith, inl, inr, ◌⊎◌,
}
use agent_context_broker.Prelude.Text.{is_hash}
use agent_context_broker.Platform.{Platform}
use agent_context_broker.Slicing.{
  Role, Progress, Row, read_rows, starts_with_document, flush, flush_segments, add_segment, cut,
  open_block, close_block, slice_block, slice_blocks, is_document, nothing_yet, build_slices,
  max_slices, max_blocks, row, malformed,
}
use agent_context_broker.Slicing.Errors.{
  Result, ok, err, SliceError, require, ◌>>=◌, ◌>>◌, out_of_fuel, slice_size, empty_dialogue,
  block_limit, input_identity, slice_limit, dialogue_shape, text_limit,
}
use agent_context_broker.Slicing.Redact.{
  Patterns, redact_block, merge_kinds, unit_count, max_text_chars,
}
use agent_context_broker.Slicing.Build.{InProgress, top_of_loop, used_up, add_segment-InProgress}
use agent_context_broker.Slicing.Cover.{
  IsOpen, slice_block-HasBlock, IsOpen-nothing_yet, IsOpen-kinds,
}

abbrev Finishes : {A : Type 0} → Result A → Type 0
Finishes r = r ≢ err out_of_fuel

bind-Finishes :
    {A B : Type 0} (m : Result A) (f : A → Result B)
    → Finishes m
    → ((a : A) → m ≡ ok a → Finishes (f a))
    → Finishes (m >>= f)
bind-Finishes (ok a) f done next = next a refl
bind-Finishes (err e) f done next = λ same. done (ground arith)

require-Finishes :
    {B : Type 0} (test : Bool) (e : SliceError) (k : Result B)
    → e ≢ out_of_fuel
    → Finishes k
    → Finishes (require test e >> k)
require-Finishes true e k other done = done
require-Finishes false e k other done = λ same. other (ground arith)

read_rows-Finishes :
    (documents : Bool) (sum : ℕ) (rows : List Row) → Finishes (read_rows documents sum rows)
unfolding read_rows
read_rows-Finishes documents sum [] = ground arith
read_rows-Finishes documents sum (malformed ∷ rows) = ground arith
read_rows-Finishes documents sum (row role content ∷ rows) =
    require-Finishes (if documents then is_document role else not (is_document role)) dialogue_shape
      _ (ground arith)
      (require-Finishes (leb (unit_count content) (max_text_chars * 2)) text_limit _ (ground arith)
        (require-Finishes (leb (sum + length content) max_text_chars) text_limit _ (ground arith) (
          bind-Finishes (read_rows documents (sum + length content) rows) _
            (read_rows-Finishes documents (sum + length content) rows) (λ a same. ground arith))))

redact_block-Finishes : (m : Patterns) (content : List ℕ) → Finishes (redact_block m content)
unfolding redact_block
redact_block-Finishes m content = ground arith

module _ (p : Platform) (job receipt : String) (max_chars : ℕ) (documents : Bool) where
  flush-Finishes : (st : Progress) → Finishes (flush p job receipt max_chars documents st)
  unfolding flush flush_segments
  flush-Finishes st = ground arith

  close_block-Finishes :
      (st : Progress) → Finishes (close_block p job receipt max_chars documents st)
  unfolding close_block flush flush_segments
  close_block-Finishes st = ground arith

  top_of_loop-Finishes :
      (st : Progress)
      → Finishes
          (if st.used == max_chars then flush p job receipt max_chars documents st else ok st)
  unfolding flush flush_segments
  top_of_loop-Finishes st = ground arith

  cut-Finishes :
      (fuel block start : ℕ) (role : Role) (content : List ℕ) (st : Progress)
      → 0 < max_chars
      → InProgress p job receipt max_chars documents st
      → (content ≡ []) ⊎ ((length st.segments < 64) ⊎ (st.used ≡ max_chars))
      → length content ≤ fuel
      → Finishes (cut p job receipt max_chars documents fuel block role start content st)
  unfolding cut
  cut-Finishes fuel block start role [] st pos k spare enough = ground arith
  cut-Finishes zero block start role (c ∷ cs) st pos k spare enough = omega arith
  cut-Finishes (suc fuel) block start role (c ∷ cs) st pos k spare enough =
      bind-Finishes
        (if st.used == max_chars then flush p job receipt max_chars documents st else ok st) _
        (top_of_loop-Finishes st)
        (λ mid at_top.
          let (ready, kept) =
            top_of_loop p job receipt max_chars documents st mid pos k
              (elim spare [ inr t ↦ t | inl ne ↦ cc ]) at_top in
          let n = max_chars - mid.used in
          let piece = take n (c ∷ cs) in
          let fits : mid.used + length piece ≤ max_chars =
            omega (arith, length-take n (c ∷ cs), ready.room) in
          let less : length (drop n (c ∷ cs)) ≤ fuel =
            omega (arith, length-drop n (c ∷ cs), ready.room, enough) in
          cut-Finishes fuel block (start + length piece) role (drop n (c ∷ cs))
            (add_segment block role start piece mid) pos
            (add_segment-InProgress p job receipt max_chars documents block start role piece mid
              ready.progress ready.spare fits)
            (used_up p job receipt max_chars documents block start role (c ∷ cs) mid ready) less)

  open_block-Finishes :
      (block : ℕ) (role : Role) (content : List ℕ) (st : Progress)
      → 0 < max_chars
      → IsOpen p job receipt max_chars documents st
      → Finishes (
          cut p job receipt max_chars documents
            (length content)
            block
            role
            0
            content
            (open_block block role content st))
  unfolding cut
  open_block-Finishes block role [] st pos k = ground arith
  open_block-Finishes block role (c ∷ cs) st pos k =
      cut-Finishes (length (c ∷ cs)) block 0 role (c ∷ cs) st pos k.progress (inr (inl k.spare))
        (omega arith)

  slice_block-Finishes :
      (m : Patterns) (block : ℕ) (role : Role) (content : List ℕ) (st : Progress)
      → 0 < max_chars
      → IsOpen p job receipt max_chars documents st
      → Finishes (slice_block p job receipt max_chars documents m block (role, content) st)
  unfolding slice_block
  slice_block-Finishes m block role content st pos k =
      bind-Finishes (redact_block m content) _ (redact_block-Finishes m content) (λ masked same.
        let st1 = record st { kinds = merge_kinds masked.1 st.kinds } in
        bind-Finishes
          (cut p job receipt max_chars documents (length masked.0) block role 0 masked.0
            (open_block block role masked.0 st1))
          _
          (open_block-Finishes block role masked.0 st1 pos
            (IsOpen-kinds p job receipt max_chars documents st (merge_kinds masked.1 st.kinds) k))
          (λ mid same1. close_block-Finishes mid))

  slice_blocks-Finishes :
      (m : Patterns) (block : ℕ) (dialogue : List (Role × List ℕ)) (st : Progress)
      → 0 < max_chars
      → IsOpen p job receipt max_chars documents st
      → Finishes (slice_blocks p job receipt max_chars documents m block dialogue st)
  unfolding slice_blocks
  slice_blocks-Finishes m block [] st pos k = ground arith
  slice_blocks-Finishes m block ((role, content) ∷ dialogue) st pos k =
      bind-Finishes (slice_block p job receipt max_chars documents m block (role, content) st) _
        (slice_block-Finishes m block role content st pos k)
        (λ mid same.
          slice_blocks-Finishes m (suc block) dialogue mid pos
            (slice_block-HasBlock p job receipt max_chars documents m block role content st mid pos
              k same).is_open)

-- `buildSlices` always comes to an end: no input makes the model's loops run out of fuel.
pub build_slices-Finishes :
    (p : Platform) (m : Patterns) (rows : List Row) (job receipt : String) (max_chars : ℕ)
    → build_slices p m rows job receipt max_chars ≢ err out_of_fuel
unfolding build_slices
build_slices-Finishes p m rows job receipt max_chars = elim (Bool-cases (leb 128 max_chars)) [
  | inr too_small ↦ rw too_small (ground arith)
  | inl in_range ↦
      let documents = starts_with_document rows in
      require-Finishes (leb 128 max_chars && leb max_chars 80000) slice_size _ (ground arith) (
        require-Finishes (ltb 0 (length rows)) empty_dialogue _ (ground arith) (
          require-Finishes (leb (length rows) max_blocks) block_limit _ (ground arith) (
            require-Finishes (is_hash job && is_hash receipt) input_identity _ (ground arith) (
              bind-Finishes (read_rows documents 0 rows) _ (read_rows-Finishes documents 0 rows)
                (λ (dialogue, sum) read.
                  require-Finishes (leb ((sum + max_chars - 1) / max_chars) max_slices) slice_limit
                    _ (ground arith)
                    (bind-Finishes
                      (slice_blocks p job receipt max_chars documents m 0 dialogue nothing_yet) _
                      (slice_blocks-Finishes p job receipt max_chars documents m 0 dialogue
                        nothing_yet (ground arith)
                        (IsOpen-nothing_yet p job receipt max_chars documents))
                      (λ st loop.
                        bind-Finishes (flush p job receipt max_chars documents st) _
                          (flush-Finishes p job receipt max_chars documents st)
                          (λ finished last. ground arith))))))))
]
