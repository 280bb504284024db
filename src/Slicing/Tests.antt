-- ===== src/Slicing/Tests.antt =====
-- `buildSlices` at a small dialogue: one expression, for a secret of one sign, and slices of 128 code points.
use agent_context_broker.Prelude.{
  ℕ, ◌+◌, ◌≤◌, length, true, ◌⊎◌, zero, suc, ◌≡◌, ◌≢◌, refl, false, String, List, [], ◌∷◌, any,
  ◌==◌, if◌then◌else◌, arith,
}
use agent_context_broker.Prelude.Text.{units}
use agent_context_broker.Platform.Sample.{sample_platform}
use agent_context_broker.Slicing.{
  Row, row, user, assistant, Plan, new_segment, new_slice, build_slices, read_rows, flush,
  flush_segments, cut, close_block, slice_block, slice_blocks,
}
use agent_context_broker.Slicing.Errors.{offset_drift, ok, err, out_of_fuel}
use agent_context_broker.Slicing.Redact.{
  Match, paint, paint_labelled, redaction_kinds_of, Patterns, redact_block, merge_kinds,
}
use agent_context_broker.Slicing.Masking.{point_at, passes, fits}
use agent_context_broker.Slicing.Masked.{
  IsInside, is_covered, is_mask, redact_block-masks, redact_block-offset_drift,
}
use agent_context_broker.Slicing.Promise.{IsPlanFor, build_slices-IsPlanFor}
use agent_context_broker.Slicing.Fuel.{build_slices-Finishes}

-- The places of `#`, from the `i`th on.
abbrev hashes : ℕ → List ℕ → List Match
hashes i [] = []
hashes i (c ∷ cs) =
    if c == b'#' then record { start = i; size = 1 } ∷ hashes (suc i) cs else hashes (suc i) cs

-- Every `#` is a secret.
abbrev patterns : Patterns
patterns = record {
  quoted = λ content. [];
  begins = λ content. [];
  ends = λ content. [];
  labelled = ("hash", hashes 0) ∷ [];
  token = λ content. [];
  leaks = λ content. any (λ c. c == b'#') content;
}

hashes-fits :
    (i n : ℕ) (content : List ℕ) → i + length content ≤ n → fits n (hashes i content) ≡ true
hashes-fits i n [] h = refl
hashes-fits i n (c ∷ cs) h = ground (arith, hashes-fits (suc i) n cs)

patterns-IsInside : IsInside patterns
patterns-IsInside = record {
  quoted = λ content. refl;
  labelled = λ content. rw (hashes-fits 0 (length content) content (omega arith));
  token = λ content. refl;
}

abbrev repeat : ℕ → List ℕ
repeat zero = []
repeat (suc n) = b'a' ∷ repeat n

abbrev rows : List Row
rows = row user (units "key #") ∷ row assistant [] ∷ row user (repeat 130) ∷ []

abbrev zeros : String
zeros = "0000000000000000000000000000000000000000000000000000000000000000"

-- 5 code points, none, and 123 of the third text; then its other 7.
abbrev plan : Plan
plan = record {
  block_count = 3;
  slices =
      new_slice sample_platform zeros zeros 128 false 0 (
        new_segment 0 user 0 (units "key [")
        ∷ new_segment 1 assistant 0 []
        ∷ new_segment 2 user 0 (repeat 123)
        ∷ [])
      ∷ new_slice sample_platform zeros zeros 128 false 1 (new_segment 2 user 123 (repeat 7) ∷ [])
      ∷ [];
  redaction_kinds = ("hash", 1) ∷ [];
}

plan_built : build_slices sample_platform patterns rows zeros zeros 128 ≡ ok plan
unfolding build_slices read_rows redact_block flush flush_segments cut close_block slice_block
    slice_blocks merge_kinds paint paint_labelled redaction_kinds_of
plan_built = refl

build_slices-IsPlanFor_example : IsPlanFor sample_platform patterns rows zeros zeros 128 plan
build_slices-IsPlanFor_example =
    build_slices-IsPlanFor sample_platform patterns rows zeros zeros 128 plan plan_built

build_slices-Finishes_example :
    build_slices sample_platform patterns rows zeros zeros 128 ≢ err out_of_fuel
build_slices-Finishes_example = build_slices-Finishes sample_platform patterns rows zeros zeros 128

key_redacted : redact_block patterns (units "key #") ≡ ok (units "key [", ("hash", 1) ∷ [])
unfolding redact_block paint paint_labelled redaction_kinds_of
key_redacted = refl

redact_block-masks_example :
    ((is_covered patterns (units "key #") 4 ≡ true)
      × (passes (is_mask patterns.labelled) (point_at 4 (units "key [")) ≡ true))
    ⊎ ((is_covered patterns (units "key #") 4 ≡ false)
        × (point_at 4 (units "key [") ≡ point_at 4 (units "key #")))
redact_block-masks_example =
    redact_block-masks patterns patterns-IsInside (units "key #") (units "key [") (("hash", 1) ∷ [])
      4 key_redacted

redact_block-offset_drift_example : redact_block patterns (units "key #") ≢ err offset_drift
redact_block-offset_drift_example =
    redact_block-offset_drift patterns (units "key #") patterns-IsInside
