-- ===== src/ReadModel/Tests.antt =====
-- The theorems on the read model at a concrete store.
use agent_context_broker.Prelude.{
  ◌≡◌, refl, ap, String, Bool, true, false, none, some, [], ◌∷◌, All,
}
use agent_context_broker.Prelude.Text.{units}
use agent_context_broker.Platform.Sample.{sample_platform}
use agent_context_broker.Json.{text_lt}
use agent_context_broker.EventStore.Event.{build_event, stored_input}
use agent_context_broker.EventStore.Files.{expected_head}
use agent_context_broker.EventStore.Verify.{Verified}
use agent_context_broker.EventStore.Synced.{verify_store_synced}
use agent_context_broker.EventStore.Tests.{
  claim, first, written_events, written_store, written_store-IsSynced,
}
use agent_context_broker.ReadModel.Graph.{node_for, projection}
use agent_context_broker.ReadModel.{
  OutputFiles, missing, Manifest, projected, manifest_of, write_projection, project_store,
  project_read_model,
}
use agent_context_broker.ReadModel.Again.{project_read_model-again}
use agent_context_broker.ReadModel.Closed.{Unique, Ends, projection-IsClosed}
use agent_context_broker.ReadModel.Latest.{find_node, latest, projection-latest}

abbrev below : String → String → Bool
below s t = text_lt (units s) (units t)

abbrev no_output : OutputFiles
no_output = record { nodes = none; edges = none; indexes = none; manifest_file = missing }

abbrev read_events : Verified
read_events = record { events = written_events; tip = expected_head sample_platform written_events }

abbrev first_manifest : Manifest
first_manifest =
    manifest_of sample_platform below read_events (projection sample_platform below written_events)

abbrev projected_output : OutputFiles
projected_output = (project_read_model sample_platform below false true written_store no_output).1

first_projection :
    (project_read_model sample_platform below false true written_store no_output).0
    ≡ projected false first_manifest
unfolding project_read_model write_projection
first_projection =
    ap (λ v. (project_store sample_platform below no_output v).0)
      (verify_store_synced sample_platform written_events written_store written_store-IsSynced)

project_read_model-again_example :
    project_read_model sample_platform below false true written_store projected_output
    ≡ (projected true first_manifest, projected_output)
project_read_model-again_example =
    project_read_model-again sample_platform below false true written_store no_output false
      first_manifest first_projection

projection-IsClosed_example :
    Unique (projection sample_platform below written_events).nodes
    × All
        (Ends (projection sample_platform below written_events).nodes)
        (projection sample_platform below written_events).edges
projection-IsClosed_example = projection-IsClosed sample_platform below written_events

subject_of_first : latest claim.subject_ref (first ∷ []) ≡ some first
unfolding build_event stored_input
subject_of_first = refl

projection-latest_example :
    find_node claim.subject_ref (projection sample_platform below (first ∷ [])).nodes
    ≡ some (node_for sample_platform below claim.subject_ref first)
projection-latest_example =
    projection-latest sample_platform below (first ∷ []) claim.subject_ref first subject_of_first
