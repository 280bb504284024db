-- ===== src/ReadModel/Graph.antt =====
-- The projection of the events to nodes, edges and indexes of src/read-model.mts.
use Prim.Native.Char.{code}
use agent_context_broker.Prelude.{
  ℕ, zero, suc, ◌==◌, String, Bool, Option, none, some, List, [], ◌∷◌, ◌++◌, if◌then◌else◌, any,
  contains, str_eq,
}
use agent_context_broker.Platform.{Platform}
use agent_context_broker.Json.{num, obj, end, text, entry, stable_json}
use agent_context_broker.EventStore.Event.{Event, number_or_null, sort_texts}

pub record Node : Type 0 where
  pub id : String
  pub kind : String
  pub status : String
  pub freshness : String
  pub provider : String
  pub sensitivity : String
  pub latest_sequence : ℕ
  pub latest_event_id : String
  pub attributes_hash : String

pub record Edge : Type 0 where
  pub id : String
  pub source : String
  pub target : String
  pub kind : String
  pub sequence : ℕ
  pub event_id : String

-- `STATUS_BY_EVENT`
abbrev pub statuses : List (String × String)
statuses =
    ("source.inventoryed", "observed")
    ∷ ("thread.delta", "observed")
    ∷ ("claim.proposed", "pending")
    ∷ ("claim.accepted", "accepted")
    ∷ ("claim.rejected", "rejected")
    ∷ ("claim.superseded", "superseded")
    ∷ ("snapshot.published", "published")
    ∷ ("correction.proposed", "pending")
    ∷ ("correction.accepted", "accepted")
    ∷ ("correction.rejected", "rejected")
    ∷ ("usage.observed", "observed")
    ∷ ("peer-progress.published", "live-unverified")
    ∷ ("read-model.projected", "observed")
    ∷ []

-- Every valid event has one of the types; the last clause is not reached.
abbrev pub look_up : String → List (String × String) → String
look_up k [] = ""
look_up k ((j, v) ∷ rest) = let later = look_up k rest in if str_eq j k then v else later

-- `reference.slice('acb://'.length)`
abbrev pub slice_from : ℕ → String → String
slice_from zero s = s
slice_from (suc n) String.[] = String.[]
slice_from (suc n) (String.◌∷◌ c s) = slice_from n s

-- `.split('/')[0]`
abbrev pub before_slash : String → String
before_slash String.[] = String.[]
before_slash (String.◌∷◌ c s) =
    let rest = before_slash s in if code c == b'/' then String.[] else String.◌∷◌ c rest

unfoldable pub kind_of : String → String
kind_of reference = before_slash (slice_from 6 reference)

-- `nodes.has(id)`
abbrev pub has_node : String → List Node → Bool
has_node id nodes = any (λ n. str_eq n.id id) nodes

-- `nodes.set(node.id, node)`: a key that is there keeps its place.
abbrev pub set_node : Node → List Node → List Node
set_node n [] = n ∷ []
set_node n (m ∷ ms) = let rest = set_node n ms in if str_eq m.id n.id then n ∷ ms else m ∷ rest

pub record Graph : Type 0 where
  pub nodes : List Node
  pub edges : List Edge

-- `index[key]`, a list of ids for each key.
abbrev pub Index : Type 0
Index = List (String × List String)

-- `addIndex`
abbrev pub add_index : String → String → Index → Index
add_index k v [] = (k, v ∷ []) ∷ []
add_index k v ((j, vs) ∷ rest) =
    let later = add_index k v rest in
    if str_eq j k then (j, if contains v vs then vs else vs ++ v ∷ []) ∷ rest else (j, vs) ∷ later

abbrev pub sort_ids : Index → Index
sort_ids [] = []
sort_ids ((k, vs) ∷ rest) = (k, sort_texts vs) ∷ sort_ids rest

pub record Indexes : Type 0 where
  pub provider : Index
  pub status : Index
  pub freshness : Index

abbrev pub index_node : Indexes → Node → Indexes
index_node ix n = record {
  provider = add_index n.provider n.id ix.provider;
  status = add_index n.status n.id ix.status;
  freshness = add_index n.freshness n.id ix.freshness;
}

abbrev pub index_nodes : Indexes → List Node → Indexes
index_nodes ix [] = ix
index_nodes ix (n ∷ ns) = index_nodes (index_node ix n) ns

abbrev pub sorted_indexes : List Node → Indexes
sorted_indexes ns =
    let ix = index_nodes (record { provider = []; status = []; freshness = [] }) ns in
    record {
      provider = sort_ids ix.provider;
      status = sort_ids ix.status;
      freshness = sort_ids ix.freshness;
    }

-- A stable sort by a key: an element goes in front of the first that its key lies below.
abbrev pub insert_by {ℓ} :
    {A : Type ℓ} → (String → String → Bool) → (A → String) → A → List A → List A
insert_by lt key x [] = x ∷ []
insert_by lt key x (y ∷ ys) =
    let rest = insert_by lt key x ys in if lt (key y) (key x) then y ∷ rest else x ∷ y ∷ ys

unfoldable pub sort_by {ℓ} :
    {A : Type ℓ} → (String → String → Bool) → (A → String) → List A → List A
sort_by lt key [] = []
sort_by lt key (x ∷ xs) = insert_by lt key x (sort_by lt key xs)

pub record Projection : Type 0 where
  pub nodes : List Node
  pub edges : List Edge
  pub indexes : Indexes

-- `below` is what `left.localeCompare(right) < 0` says.
module _ (p : Platform) (below : String → String → Bool) where
  -- `nodeFor`
  unfoldable pub node_for : String → Event → Node
  node_for reference e = record {
    id = reference;
    kind = kind_of reference;
    status = look_up e.input.event_type statuses;
    freshness = e.input.freshness.status;
    provider = e.input.provider;
    sensitivity = e.input.sensitivity;
    latest_sequence = e.sequence;
    latest_event_id = e.event_id;
    attributes_hash = p.sha256 (
        stable_json (
          obj (
            entry "eventType" (text e.input.event_type) (
              entry "confidence" (number_or_null e.input.confidence) (
                entry "approvalState" (text e.input.approval_state) (
                  entry "redactionResult" (text e.input.redaction_result)
                    (entry "payloadHash" (text e.payload_hash) end)))))));
  }

  -- `referenceNode`
  unfoldable pub reference_node : String → Event → Node
  reference_node reference e = record {
    id = reference;
    kind = kind_of reference;
    status = "observed";
    freshness = "unknown";
    provider = e.input.provider;
    sensitivity = e.input.sensitivity;
    latest_sequence = e.sequence;
    latest_event_id = e.event_id;
    attributes_hash = p.sha256 (stable_json (obj (entry "reference" (text reference) end)));
  }

  -- `edge`
  unfoldable pub edge : String → String → String → Event → Edge
  edge source target kind e = record {
    id = p.sha256 (
        stable_json (
          obj (
            entry "from" (text source) (
              entry "to" (text target) (
                entry "kind" (text kind)
                  (entry "sequence" (num e.sequence) (entry "eventId" (text e.event_id) end)))))));
    source = source;
    target = target;
    kind = kind;
    sequence = e.sequence;
    event_id = e.event_id;
  }

  -- A reference of an event: a node for it, if it has none, and an edge to it.
  abbrev pub refer : String → Event → String → Graph → Graph
  refer kind e reference g = record {
    nodes =
        if has_node reference g.nodes then g.nodes else g.nodes ++ reference_node reference e ∷ [];
    edges = g.edges ++ edge e.input.subject_ref reference kind e ∷ [];
  }

  abbrev pub refer_all : String → Event → List String → Graph → Graph
  refer_all kind e [] g = g
  refer_all kind e (r ∷ rs) g = refer_all kind e rs (refer kind e r g)

  -- `if (event.replacesRef)`: a reference is not empty.
  abbrev pub replaced : Option String → List String
  replaced none = []
  replaced (some r) = r ∷ []

  -- One round of the loop over the events.
  unfoldable pub project_event : Event → Graph → Graph
  project_event e g =
      let noted : Graph = record {
        nodes = set_node (node_for e.input.subject_ref e) g.nodes;
        edges = g.edges;
      } in
      refer_all "replaces" e (replaced e.input.replaces_ref) (
        refer_all "evidenced-by" e e.input.evidence_refs
          (refer_all "sourced-from" e e.input.source_refs noted))

  abbrev pub project_events : List Event → Graph → Graph
  project_events [] g = g
  project_events (e ∷ es) g = project_events es (project_event e g)

  -- `projection`
  unfoldable pub projection : List Event → Projection
  projection es =
      let g = project_events es (record { nodes = []; edges = [] }) in
      let nodes = sort_by below (λ n. n.id) g.nodes in
      record {
        nodes = nodes;
        edges = sort_by below (λ e. e.id) g.edges;
        indexes = sorted_indexes nodes;
      }
