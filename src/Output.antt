-- ===== src/Output.antt =====
-- distillation/src/output.mts: what a run of a model may report on a slice. Texts are lists of code points.
pub mod Validation
mod Tests
use agent_context_broker.Prelude.{
  ℕ, zero, suc, ◌-◌, ◌^◌, String, Bool, true, false, not, ◌&&◌, ◌||◌, List, [], ◌∷◌, ◌++◌, map, ltb,
  leb, ◌==◌, if◌then◌else◌, length, all, any, str_eq,
}
use agent_context_broker.Prelude.Text.{is_hash, is_space}
use agent_context_broker.Slicing.{Role, Segment, Slice, is_document}

pub record Span : Type 0 where
  pub block : ℕ
  pub start_char : ℕ
  pub end_char : ℕ

pub data ObservationKind : Type 0 where
  decision constraint correction failure verification open_question : ObservationKind

pub record Observation : Type 0 where
  pub kind : ObservationKind
  pub summary : List ℕ
  pub source_refs : List Span

pub record ModelOutput : Type 0 where
  pub slice_id : String
  pub observations : List Observation

-- `has_findings` is the disposition `findings`.
pub record Output : Type 0 where
  pub slice_id : String
  pub coverage : List Span
  pub has_findings : Bool
  pub observations : List Observation

pub data OutputError : Type 0 where
  bad_slice bad_output output_identity output_coverage output_disposition output_privacy
        ref_outside_slice :
      OutputError

abbrev pub max_index : ℕ
max_index = 2 ^ 53 - 1

-- `IndexSchema` on the numbers of a span.
unfoldable pub span_schema : Span → Bool
span_schema s = leb s.block max_index && leb s.start_char max_index && leb s.end_char max_index

abbrev pub span_of : Segment → Span
span_of s = record { block = s.block; start_char = s.start_char; end_char = s.end_char }

abbrev pub same_side : Bool → Bool → Bool
same_side true b = b
same_side false b = not b

unfoldable pub segment_schema : Bool → Segment → Bool
segment_schema documents s =
    span_schema (span_of s)
    && same_side documents (is_document s.role)
    && leb s.start_char s.end_char
    && length s.content == s.end_char - s.start_char

-- `SliceSchema.parse`
unfoldable pub slice_schema : Slice → Bool
slice_schema s =
    is_hash s.job_id
    && is_hash s.receipt
    && leb s.index max_index
    && is_hash s.slice_id
    && leb 1 (length s.segments)
    && leb (length s.segments) 32768
    && all (segment_schema s.documents) s.segments

trim_front : List ℕ → List ℕ
trim_front [] = []
trim_front (c ∷ cs) = let rest = trim_front cs in if is_space c then rest else c ∷ cs

backwards : List ℕ → List ℕ → List ℕ
backwards acc [] = acc
backwards acc (c ∷ cs) = backwards (c ∷ acc) cs

-- `[...value.trim()].length`
unfoldable pub trimmed_size : List ℕ → ℕ
unfolding trim_front backwards
trimmed_size v = length (trim_front (backwards [] (trim_front v)))

unfoldable pub observation_schema : Observation → Bool
unfolding trimmed_size
observation_schema o =
    ltb 0 (trimmed_size o.summary)
    && leb (trimmed_size o.summary) 2000
    && leb 1 (length o.source_refs)
    && leb (length o.source_refs) 16
    && all span_schema o.source_refs

-- `ModelOutputSchema.parse`
unfoldable pub model_schema : String → List Observation → Bool
unfolding observation_schema
model_schema slice_id observations =
    is_hash slice_id && leb (length observations) 50 && all observation_schema observations

-- `OutputSchema.parse`
unfoldable pub output_schema : Output → Bool
output_schema o =
    model_schema o.slice_id o.observations
    && leb (length o.coverage) 32768
    && all span_schema o.coverage

abbrev pub same_span : Span → Span → Bool
same_span a b = a.block == b.block && a.start_char == b.start_char && a.end_char == b.end_char

-- The coverage names the segments, one by one.
abbrev pub covers : List Span → List Segment → Bool
covers [] [] = true
covers (c ∷ cs) (s ∷ ss) = same_span c (span_of s) && covers cs ss
covers _ _ = false

abbrev pub is_nonempty : List Observation → Bool
is_nonempty [] = false
is_nonempty (o ∷ os) = true

abbrev pub is_inside : Span → Segment → Bool
is_inside ref s =
    ref.block == s.block && leb s.start_char ref.start_char && leb ref.end_char s.end_char

abbrev pub ref_valid : List Segment → Span → Bool
ref_valid segments ref = ltb ref.start_char ref.end_char && any (is_inside ref) segments

pub data Result (A : Type 0) : Type 0 where
  ok : A → Result A
  err : OutputError → Result A

module _ (sensitive : List ℕ → Bool) where
  abbrev pub observation_valid : List Segment → Observation → Bool
  observation_valid segments o = not (sensitive o.summary) && all (ref_valid segments) o.source_refs

  -- The loop over the observations; `sensitive` is whether one of `SensitivePatterns` matches.
  unfoldable pub check_observations : List Segment → Output → List Observation → Result Output
  check_observations segments out [] = ok out
  check_observations segments out (o ∷ os) =
      let rest = check_observations segments out os in
      if sensitive o.summary
      then err output_privacy
      else if all (ref_valid segments) o.source_refs
      then rest
      else err ref_outside_slice

  -- `validateOutput`; the constants that it adds to the result are left out.
  unfoldable pub validate_output : Output → Slice → Result Output
  validate_output out slice =
      if not (slice_schema slice)
      then err bad_slice
      else if not (output_schema out)
      then err bad_output
      else if not (str_eq out.slice_id slice.slice_id)
      then err output_identity
      else if not (covers out.coverage slice.segments)
      then err output_coverage
      else if not (same_side out.has_findings (is_nonempty out.observations))
      then err output_disposition
      else check_observations slice.segments out out.observations

abbrev pub completed : ModelOutput → Slice → Output
completed m slice = record {
  slice_id = m.slice_id;
  coverage = map span_of slice.segments;
  has_findings = is_nonempty m.observations;
  observations = m.observations;
}

-- `withRunnerCoverage`
unfoldable pub with_runner_coverage : ModelOutput → Slice → Result Output
with_runner_coverage m slice =
    if not (slice_schema slice)
    then err bad_slice
    else if model_schema m.slice_id m.observations
    then ok (completed m slice)
    else err bad_output
