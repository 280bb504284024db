-- ===== src/EventStore/Event.antt =====
-- The events of src/event-store.mjs as values, and `buildEvent`. What the shape checks on the
-- fields of an object demand is the type of the record here.
use agent_context_broker.Prelude.{ℕ, String, Bool, Option, none, some, List, [], ◌∷◌, if◌then◌else◌}
use agent_context_broker.Prelude.Text.{units}
use agent_context_broker.Platform.{Platform}
use agent_context_broker.Json.{
  Json, null, num, decimal, arr, obj, Fields, end, text, texts, entry, text_lt, stable_fields,
  stable_json,
}

-- A text with the instant that `Date.parse` gives it; `none` for `NaN`.
pub record Time : Type 0 where
  pub text : String
  pub instant : Option ℕ

-- A number: its text, and whether it lies between 0 and 1.
pub record Number : Type 0 where
  pub digits : String
  pub is_fraction : Bool

pub record Scope : Type 0 where
  pub kind : String
  pub key_hash : String

pub record Freshness : Type 0 where
  pub status : String
  pub verified_at : Option Time
  pub expires_at : Option Time
  pub source_head_hash : Option String
  pub policy : String

-- What the callers give: the fields of `INPUT_FIELDS`.
pub record EventInput : Type 0 where
  pub idempotency_key : String
  pub event_type : String
  pub occurred_at : Time
  pub provider : String
  pub scope : Scope
  pub task_key_hash : Option String
  pub thread_key : Option String
  pub source_refs : List String
  pub subject_ref : String
  pub replaces_ref : Option String
  pub evidence_refs : List String
  pub confidence : Option Number
  pub freshness : Freshness
  pub sensitivity : String
  pub redaction_result : String
  pub approval_state : String
  pub payload : Fields

-- The fields of `EVENT_FIELDS`: those of the input, and what the store adds.
pub record Event : Type 0 where
  pub schema_version : ℕ
  pub event_id : String
  pub sequence : ℕ
  pub recorded_at : String
  pub input : EventInput
  pub payload_hash : String
  pub previous_event_hash : Option String

abbrev pub text_or_null : Option String → Json
text_or_null none = null
text_or_null (some s) = text s

abbrev time_or_null : Option Time → Json
time_or_null none = null
time_or_null (some t) = text t.text

abbrev pub number_or_null : Option Number → Json
number_or_null none = null
number_or_null (some n) = decimal (units n.digits)

abbrev pub scope_json : Scope → Json
scope_json s = obj (entry "kind" (text s.kind) (entry "keyHash" (text s.key_hash) end))

freshness_json : Freshness → Json
freshness_json f = obj (
    entry "status" (text f.status) (
      entry "verifiedAt" (time_or_null f.verified_at) (
        entry "expiresAt" (time_or_null f.expires_at) (
          entry "sourceHeadHash" (text_or_null f.source_head_hash)
            (entry "policy" (text f.policy) end)))))

-- The fields of an event but `eventId`, `eventCore`.
unfoldable pub event_core : Event → Json
unfolding freshness_json
event_core e = obj (
    entry "schemaVersion" (num e.schema_version) (
      entry "idempotencyKey" (text e.input.idempotency_key) (
        entry "sequence" (num e.sequence) (
          entry "eventType" (text e.input.event_type) (
            entry "occurredAt" (text e.input.occurred_at.text) (
              entry "recordedAt" (text e.recorded_at) (
                entry "provider" (text e.input.provider) (
                  entry "scope" (scope_json e.input.scope) (
                    entry "taskKeyHash" (text_or_null e.input.task_key_hash) (
                      entry "threadKey" (text_or_null e.input.thread_key) (
                        entry "sourceRefs" (arr (texts e.input.source_refs)) (
                          entry "subjectRef" (text e.input.subject_ref) (
                            entry "replacesRef" (text_or_null e.input.replaces_ref) (
                              entry "evidenceRefs" (arr (texts e.input.evidence_refs)) (
                                entry "confidence" (number_or_null e.input.confidence) (
                                  entry "freshness" (freshness_json e.input.freshness) (
                                    entry "sensitivity" (text e.input.sensitivity) (
                                      entry "redactionResult" (text e.input.redaction_result) (
                                        entry "approvalState" (text e.input.approval_state) (
                                          entry "payload" (obj e.input.payload) (
                                            entry "payloadHash" (text e.payload_hash) (
                                              entry "previousEventHash"
                                                (text_or_null e.previous_event_hash)
                                                end))))))))))))))))))))))

-- `[...refs].sort()`
abbrev pub insert_text : String → List String → List String
insert_text s [] = s ∷ []
insert_text s (t ∷ ts) =
    let rest = insert_text s ts in if text_lt (units t) (units s) then t ∷ rest else s ∷ t ∷ ts

unfoldable pub sort_texts : List String → List String
sort_texts [] = []
sort_texts (s ∷ ss) = insert_text s (sort_texts ss)

module _ (p : Platform) where
  -- `new Date(time).toISOString()`, for a time that parses; its text parses to the same instant.
  abbrev pub iso_time : Time → Time
  iso_time t = elim t.instant [ none ↦ t | some n ↦ record { text = p.to_iso n; instant = some n } ]

  -- `sha256(stableJson(payload))`
  unfoldable pub payload_digest : Fields → String
  payload_digest fs = p.sha256 (stable_json (obj fs))

  -- `sha256(stableJson(eventCore(event)))`
  unfoldable pub event_digest : Event → String
  event_digest e = p.sha256 (stable_json (event_core e))

  -- The input as it is stored.
  unfoldable pub stored_input : EventInput → EventInput
  stored_input i = record {
    idempotency_key = i.idempotency_key;
    event_type = i.event_type;
    occurred_at = iso_time i.occurred_at;
    provider = i.provider;
    scope = i.scope;
    task_key_hash = i.task_key_hash;
    thread_key = i.thread_key;
    source_refs = sort_texts i.source_refs;
    subject_ref = i.subject_ref;
    replaces_ref = i.replaces_ref;
    evidence_refs = sort_texts i.evidence_refs;
    confidence = i.confidence;
    freshness = i.freshness;
    sensitivity = i.sensitivity;
    redaction_result = i.redaction_result;
    approval_state = i.approval_state;
    payload = stable_fields i.payload;
  }

  abbrev pub with_id : String → Event → Event
  with_id id e = record {
    schema_version = e.schema_version;
    event_id = id;
    sequence = e.sequence;
    recorded_at = e.recorded_at;
    input = e.input;
    payload_hash = e.payload_hash;
    previous_event_hash = e.previous_event_hash;
  }

  abbrev pub unnamed : EventInput → ℕ → Option String → String → Event
  unnamed i sequence previous recorded_at = record {
    schema_version = 1;
    event_id = "";
    sequence = sequence;
    recorded_at = recorded_at;
    input = stored_input i;
    payload_hash = payload_digest i.payload;
    previous_event_hash = previous;
  }

  -- The digest does not read the id.
  unfoldable pub build_event : EventInput → ℕ → Option String → String → Event
  build_event i sequence previous recorded_at =
      let core = unnamed i sequence previous recorded_at in with_id (event_digest core) core
