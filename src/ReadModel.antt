-- ===== src/ReadModel.antt =====
-- `projectReadModel` of src/read-model.mts: a graph of the events, written beside the event store.
pub mod Graph
pub mod Closed
pub mod Again
pub mod Latest
mod Tests
use agent_context_broker.Prelude.{
  ℕ, ◌+◌, ◌==◌, ◌≡◌, String, Bool, true, false, not, ◌&&◌, Option, none, some, List, [], ◌∷◌, ◌++◌,
  map, if◌then◌else◌, length, str_eq,
}
use agent_context_broker.Prelude.Text.{units}
use agent_context_broker.Platform.{Platform}
use agent_context_broker.Json.{Json, num, arr, obj, Fields, end, text, texts, entry, stable_json}
use agent_context_broker.Json.Pretty.{pretty}
use agent_context_broker.EventStore.Event.{Event, text_or_null}
use agent_context_broker.EventStore.Validate.{EventError, unreadable}
use agent_context_broker.EventStore.Files as Files
use agent_context_broker.EventStore.Files.{Store, last}
use agent_context_broker.EventStore.Verify.{Verified, verify_store}
use agent_context_broker.ReadModel.Graph.{Node, Edge, Index, Indexes, Projection, projection}

pub record Manifest : Type 0 where
  pub source_sequence : ℕ
  pub source_event_id : Option String
  pub source_head_hash : String
  pub projected_through_at : Option String
  pub node_count : ℕ
  pub edge_count : ℕ
  pub nodes_hash : String
  pub edges_hash : String
  pub indexes_hash : String
  pub projection_hash : String

-- `manifest.json`; `no_manifest` for JSON without the fields of one.
pub data ManifestFile : Type 0 where
  missing no_json no_manifest : ManifestFile
  manifest : Manifest → ManifestFile

-- The directory of the read model, each file as its text.
pub record OutputFiles : Type 0 where
  pub nodes : Option (List ℕ)
  pub edges : Option (List ℕ)
  pub indexes : Option (List ℕ)
  pub manifest_file : ManifestFile

pub data ReadModelError : Type 0 where
  not_executing bad_manifest : ReadModelError
  store_failed : EventError → ReadModelError

-- What the call gives: nothing in isolation, or the manifest and whether it was there already.
pub data Outcome : Type 0 where
  isolated : Outcome
  projected : (unchanged : Bool) → Manifest → Outcome
  failed : ReadModelError → Outcome

abbrev pub node_json : Node → Json
node_json n = obj (
    entry "schemaVersion" (num 1) (
      entry "id" (text n.id) (
        entry "kind" (text n.kind) (
          entry "status" (text n.status) (
            entry "freshness" (text n.freshness) (
              entry "provider" (text n.provider) (
                entry "sensitivity" (text n.sensitivity) (
                  entry "latestSequence" (num n.latest_sequence) (
                    entry "latestEventId" (text n.latest_event_id)
                      (entry "attributesHash" (text n.attributes_hash) end))))))))))

abbrev pub edge_json : Edge → Json
edge_json e = obj (
    entry "schemaVersion" (num 1) (
      entry "id" (text e.id) (
        entry "from" (text e.source) (
          entry "to" (text e.target) (
            entry "kind" (text e.kind)
              (entry "sequence" (num e.sequence) (entry "eventId" (text e.event_id) end)))))))

-- `contentLines`: each line and its line feed.
unfoldable pub content_lines : List Json → List ℕ
content_lines [] = []
content_lines (v ∷ vs) = stable_json v ++ 10 ∷ content_lines vs

abbrev index_fields : Index → Fields
index_fields [] = end
index_fields ((k, vs) ∷ rest) = entry k (arr (texts vs)) (index_fields rest)

abbrev pub indexes_json : Indexes → Json
indexes_json ix = obj (
    entry "provider" (obj (index_fields ix.provider)) (
      entry "status" (obj (index_fields ix.status))
        (entry "freshness" (obj (index_fields ix.freshness)) end)))

module _ (p : Platform) (below : String → String → Bool) where
  abbrev pub file_matches : Option (List ℕ) → String → Bool
  file_matches none hash = false
  file_matches (some t) hash = str_eq (p.sha256 t) hash

  -- `verifiedExisting`, of a manifest that is there.
  unfoldable pub verified_existing : OutputFiles → Manifest → Bool
  verified_existing out m =
      file_matches out.nodes m.nodes_hash
      && file_matches out.edges m.edges_hash
      && file_matches out.indexes m.indexes_hash

  abbrev manifest_core : Manifest → Json
  manifest_core m = obj (
      entry "schemaVersion" (num 1) (
        entry "sourceSequence" (num m.source_sequence) (
          entry "sourceEventId" (text_or_null m.source_event_id) (
            entry "sourceHeadHash" (text m.source_head_hash) (
              entry "projectedThroughAt" (text_or_null m.projected_through_at) (
                entry "nodeCount" (num m.node_count) (
                  entry "edgeCount" (num m.edge_count) (
                    entry "nodesHash" (text m.nodes_hash) (
                      entry "edgesHash" (text m.edges_hash)
                        (entry "indexesHash" (text m.indexes_hash) end))))))))))

  abbrev recorded_at : Option Event → Option String
  recorded_at none = none
  recorded_at (some e) = some e.recorded_at

  abbrev pub nodes_text : Projection → List ℕ
  nodes_text g = content_lines (map node_json g.nodes)

  abbrev pub edges_text : Projection → List ℕ
  edges_text g = content_lines (map edge_json g.edges)

  abbrev pub indexes_text : Projection → List ℕ
  indexes_text g = pretty 0 (indexes_json g.indexes) ++ 10 ∷ []

  abbrev pub core_of : Verified → Projection → Manifest
  core_of v g = record {
    source_sequence = v.tip.sequence;
    source_event_id = v.tip.event_id;
    source_head_hash = v.tip.head_hash;
    projected_through_at = recorded_at (last v.events);
    node_count = length g.nodes;
    edge_count = length g.edges;
    nodes_hash = p.sha256 (nodes_text g);
    edges_hash = p.sha256 (edges_text g);
    indexes_hash = p.sha256 (indexes_text g);
    projection_hash = "";
  }

  -- The manifest, with the hash of all its other fields.
  unfoldable pub manifest_of : Verified → Projection → Manifest
  manifest_of v g =
      let core = core_of v g in
      record {
        source_sequence = core.source_sequence;
        source_event_id = core.source_event_id;
        source_head_hash = core.source_head_hash;
        projected_through_at = core.projected_through_at;
        node_count = core.node_count;
        edge_count = core.edge_count;
        nodes_hash = core.nodes_hash;
        edges_hash = core.edges_hash;
        indexes_hash = core.indexes_hash;
        projection_hash = p.sha256 (stable_json (manifest_core core));
      }

  abbrev pub written_output : Verified → Projection → OutputFiles
  written_output v g = record {
    nodes = some (nodes_text g);
    edges = some (edges_text g);
    indexes = some (indexes_text g);
    manifest_file = manifest (manifest_of v g);
  }

  -- The four writes, in their order.
  unfoldable pub write_projection : Verified → Outcome × OutputFiles
  write_projection v =
      let g = projection p below v.events in (projected false (manifest_of v g), written_output v g)

  abbrev pub is_current : Verified → OutputFiles → Manifest → Bool
  is_current v out m = str_eq m.source_head_hash v.tip.head_hash && verified_existing out m

  abbrev pub project_over : Verified → OutputFiles → ManifestFile → Outcome × OutputFiles
  project_over v out no_json = (failed bad_manifest, out)
  project_over v out (manifest m) =
      if is_current v out m then (projected true m, out) else write_projection v
  project_over v out _ = write_projection v

  abbrev pub project_store : OutputFiles → Files.Result Verified → Outcome × OutputFiles
  project_store out (Files.err e) = (failed (store_failed e), out)
  project_store out (Files.ok v) = project_over v out out.manifest_file

  -- `projectReadModel`, with `execute: true` and a root or without.
  unfoldable pub project_read_model :
      (strict_isolation execute : Bool) → Store → OutputFiles → Outcome × OutputFiles
  project_read_model true execute st out = (isolated, out)
  project_read_model false false st out = (failed not_executing, out)
  project_read_model false true st out = project_store out (verify_store p st)
