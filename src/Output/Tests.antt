-- ===== src/Output/Tests.antt =====
-- A report with one observation on a slice of one segment.
use agent_context_broker.Prelude.{ℕ, ◌≡◌, refl, String, Bool, false, List, [], ◌∷◌, any, ◌==◌}
use agent_context_broker.Prelude.Text.{units, is_space}
use agent_context_broker.Slicing.{Slice, new_segment, user}
use agent_context_broker.Output.{
  ModelOutput, decision, ok, completed, with_runner_coverage, validate_output, slice_schema,
  model_schema, output_schema, segment_schema, span_schema, check_observations, trimmed_size,
  observation_schema,
}
use agent_context_broker.Output.Validation.{
  IsAdmitted, validate_output-IsAdmitted, with_runner_coverage-validate_output,
}

abbrev zeros : String
zeros = "0000000000000000000000000000000000000000000000000000000000000000"

abbrev slice : Slice
slice = record {
  job_id = zeros;
  receipt = zeros;
  index = 0;
  segments = new_segment 0 user 0 (units "use the log") ∷ [];
  documents = false;
  slice_id = zeros;
}

abbrev said : ModelOutput
said = record {
  slice_id = zeros;
  observations =
      record {
        kind = decision;
        summary = units "the log is used";
        source_refs = record { block = 0; start_char = 0; end_char = 7 } ∷ [];
      }
      ∷ [];
}

abbrev sensitive : List ℕ → Bool
sensitive summary = any (λ c. c == 0x1b) summary

completed_made : with_runner_coverage said slice ≡ ok (completed said slice)
unfolding with_runner_coverage slice_schema model_schema segment_schema span_schema
    observation_schema trimmed_size is_space
completed_made = refl

with_runner_coverage-validate_output_example :
    validate_output sensitive (completed said slice) slice ≡ ok (completed said slice)
with_runner_coverage-validate_output_example =
    with_runner_coverage-validate_output sensitive said slice (completed said slice) completed_made
      refl refl

validated : validate_output sensitive (completed said slice) slice ≡ ok (completed said slice)
unfolding validate_output slice_schema output_schema model_schema segment_schema span_schema
    observation_schema trimmed_size is_space check_observations
validated = refl

validate_output-IsAdmitted_example :
    IsAdmitted sensitive (completed said slice) slice (completed said slice)
validate_output-IsAdmitted_example =
    validate_output-IsAdmitted sensitive (completed said slice) slice (completed said slice)
      validated
