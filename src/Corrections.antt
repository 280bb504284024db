-- ===== src/Corrections.antt =====
-- `proposeCorrection` and `decideCorrection` of src/corrections.mts, over the event store: a correction
-- is proposed with the revision that it is made for, and is decided once.
pub mod Once
pub mod Valid
pub mod Decisions
pub mod Accept
pub mod Observed
mod Tests
use agent_context_broker.Prelude.{
  ℕ, ◌+◌, ◌≡◌, String, Bool, true, false, not, ◌&&◌, ◌||◌, Option, none, some, List, [], ◌∷◌, ltb,
  leb, ◌==◌, if◌then◌else◌, length, all, contains, find, keep, str_eq,
}
use agent_context_broker.Prelude.Text.{units, is_hash, is_lower_hex, text_append}
use agent_context_broker.Platform.{Platform}
use agent_context_broker.Json.{
  Json, null, str, arr, nil, obj, Fields, end, field, text, entry, stable_json,
}
use agent_context_broker.Json.Access.{same_text, get_field}
use agent_context_broker.EventStore.Event.{
  Time, Number, Scope, EventInput, Event, text_or_null, scope_json, iso_time,
}
use agent_context_broker.EventStore.Validate.{
  EventError, is_reference, valid_date, valid_reference_list, null_or, valid_scope,
}
use agent_context_broker.EventStore.Files.{Store}
use agent_context_broker.EventStore.Files as Files
use agent_context_broker.EventStore.Verify.{Verified, verify_store}
use agent_context_broker.EventStore.Append.{Appended, append_broker_event}

pub record Proposal : Type 0 where
  pub schema_version : ℕ
  pub proposal_key : String
  pub target_ref : String
  pub target_revision_hash : String
  pub correction_kind : String
  pub disposition : String
  pub replacement_hash : Option String
  pub evidence_refs : List String
  pub confidence : Number
  pub scope : Scope
  pub requested_by : String
  pub approval_class : String
  pub sensitivity : String
  pub occurred_at : Time

pub record Decision : Type 0 where
  pub schema_version : ℕ
  pub correction_ref : String
  pub expected_proposal_event_id : String
  pub decision : String
  pub observed_revision_hash : String
  pub evidence_refs : List String
  pub decided_by : String
  pub occurred_at : Time

pub data CorrectionError : Type 0 where
  not_executing invalid_proposal invalid_decision proposal_mismatch already_decided
        revision_mismatch :
      CorrectionError
  store_failed : EventError → CorrectionError

pub data Result {ℓ} (A : Type ℓ) : Type ℓ where
  ok : A → Result A
  err : CorrectionError → Result A

-- `if (!test) throw`
abbrev pub require : (test : Bool) → (thrown : CorrectionError) → Result (Unit {0})
require false thrown = err thrown
require true thrown = ok tt

-- What comes behind a step that may throw.
infixl 5 ◌>>=◌
abbrev pub ◌>>=◌ {ℓ κ} : {A : Type ℓ} → {B : Type κ} → Result A → (A → Result B) → Result B
err thrown >>= next = err thrown
ok a >>= next = next a

-- The same for a check, which has no value.
infixl 5 ◌>>◌
abbrev pub ◌>>◌ {κ} : {B : Type κ} → (check : Result (Unit {0})) → Result B → Result B
check >> next = check >>= λ u. next

-- What the event store throws passes through.
abbrev pub of_store {ℓ} : {A : Type ℓ} → Files.Result A → Result A
of_store (Files.ok a) = ok a
of_store (Files.err e) = err (store_failed e)

-- `validRefs`
unfoldable pub valid_refs : List String → Bool
valid_refs refs = ltb 0 (length refs) && valid_reference_list refs

abbrev pub deciders : List String
deciders = "codex" ∷ "claude-code" ∷ []

abbrev pub is_some {ℓ} : {A : Type ℓ} → Option A → Bool
is_some none = false
is_some (some _) = true

-- `!(disposition !== 'withdraw' && replacementHash === null)`
abbrev pub is_withdrawal_or_replaced : Proposal → Bool
is_withdrawal_or_replaced p = str_eq p.disposition "withdraw" || is_some p.replacement_hash

abbrev pub correction_kinds : List String
correction_kinds = "finding" ∷ "guidance" ∷ "claim" ∷ []

abbrev pub dispositions : List String
dispositions = "replace" ∷ "withdraw" ∷ "refresh" ∷ []

abbrev pub approval_classes : List String
approval_classes = "auto-private" ∷ "owner-validated" ∷ "explicit" ∷ []

-- `validateProposal`
unfoldable pub valid_proposal : Proposal → Bool
valid_proposal p =
    p.schema_version == 1
    && is_hash p.proposal_key
    && is_reference p.target_ref
    && is_hash p.target_revision_hash
    && contains p.correction_kind correction_kinds
    && contains p.disposition dispositions
    && null_or is_hash p.replacement_hash
    && is_withdrawal_or_replaced p
    && valid_refs p.evidence_refs
    && p.confidence.is_fraction
    && valid_scope p.scope
    && contains p.requested_by deciders
    && contains p.approval_class approval_classes
    && contains p.sensitivity ("shared" ∷ "private" ∷ [])
    && valid_date p.occurred_at
    && (not (str_eq p.approval_class "auto-private") || str_eq p.sensitivity "private")

-- `/^acb:\/\/correction\/[a-f0-9]{64}$/u`
abbrev pub after_prefix : List ℕ → List ℕ → Bool
after_prefix [] cs = length cs == 64 && all is_lower_hex cs
after_prefix (a ∷ as') [] = false
after_prefix (a ∷ as') (c ∷ cs) = a == c && after_prefix as' cs

unfoldable pub is_correction_ref : String → Bool
is_correction_ref s = after_prefix (units "acb://correction/") (units s)

-- `validateDecision`
unfoldable pub valid_decision : Decision → Bool
valid_decision d =
    d.schema_version == 1
    && is_correction_ref d.correction_ref
    && is_hash d.expected_proposal_event_id
    && contains d.decision ("accept" ∷ "reject" ∷ [])
    && is_hash d.observed_revision_hash
    && valid_refs d.evidence_refs
    && contains d.decided_by deciders
    && valid_date d.occurred_at

-- `hash === payload.key`
abbrev pub is_text : String → Option Json → Bool
is_text s (some (str cs)) = same_text cs (units s)
is_text s _ = false

-- A property that is `undefined`: `validPayload` refuses it, as it refuses an array.
abbrev pub value_of : Option Json → Json
value_of none = arr nil
value_of (some v) = v

module _ (p : Platform) where
  -- `proposalId`
  unfoldable pub proposal_id : Proposal → String
  proposal_id c = p.sha256 (
      stable_json (
        obj (
          entry "proposalKey" (text c.proposal_key) (
            entry "targetRef" (text c.target_ref) (
              entry "targetRevisionHash" (text c.target_revision_hash) (
                entry "correctionKind" (text c.correction_kind) (
                  entry "disposition" (text c.disposition) (
                    entry "replacementHash" (text_or_null c.replacement_hash)
                      (entry "scope" (scope_json c.scope) end)))))))))

  abbrev pub correction_ref_of : Proposal → String
  correction_ref_of c = text_append "acb://correction/" (proposal_id c)

  -- `proposalEvent`
  unfoldable pub proposal_event : Proposal → EventInput
  proposal_event c = record {
    idempotency_key = c.proposal_key;
    event_type = "correction.proposed";
    occurred_at = iso_time p c.occurred_at;
    provider = c.requested_by;
    scope = c.scope;
    task_key_hash = none;
    thread_key = none;
    source_refs = [];
    subject_ref = correction_ref_of c;
    replaces_ref = some c.target_ref;
    evidence_refs = c.evidence_refs;
    confidence = some c.confidence;
    freshness = record {
      status = "current";
      verified_at = some (iso_time p c.occurred_at);
      expires_at = none;
      source_head_hash = some c.target_revision_hash;
      policy = "correction-cas";
    };
    sensitivity = c.sensitivity;
    redaction_result = "clean";
    approval_state = "pending";
    payload = entry "correctionKind" (text c.correction_kind) (
        entry "disposition" (text c.disposition) (
          entry "targetRevisionHash" (text c.target_revision_hash) (
            entry "replacementHash" (text_or_null c.replacement_hash)
              (entry "approvalClass" (text c.approval_class) end))));
  }

  abbrev pub is_terminal : Event → Bool
  is_terminal e = contains e.input.event_type ("correction.accepted" ∷ "correction.rejected" ∷ [])

  abbrev pub related : String → List Event → List Event
  related ref es = keep (λ e. str_eq e.input.subject_ref ref) es

  abbrev pub proposed : List Event → Option Event
  proposed es = find (λ e. str_eq e.input.event_type "correction.proposed") es

  abbrev pub not_terminal : Event → Option Event → Result Event
  not_terminal e none = ok e
  not_terminal e (some _) = err already_decided

  abbrev pub expected_proposal : Decision → Option Event → Option Event → Result Event
  expected_proposal d none terminal = err proposal_mismatch
  expected_proposal d (some e) terminal =
      if str_eq e.event_id d.expected_proposal_event_id
      then not_terminal e terminal
      else err proposal_mismatch

  -- `findProposal`, once the events are read.
  unfoldable pub proposal_in : Decision → List Event → Result Event
  proposal_in d es =
      let those = related d.correction_ref es in
      expected_proposal d (proposed those) (find is_terminal those)

  -- `findProposal`
  unfoldable pub find_proposal : Decision → Store → Result Event
  find_proposal d st = of_store (verify_store p st) >>= λ v. proposal_in d v.events

  abbrev pub is_accept : Decision → Bool
  is_accept d = str_eq d.decision "accept"

  -- The hash that the decision must have observed.
  abbrev pub expected_hash : Decision → Event → Option Json
  expected_hash d e =
      if is_accept d
      then get_field (units "replacementHash") e.input.payload
      else get_field (units "targetRevisionHash") e.input.payload

  -- `planCorrectionDecision`: the event of the proposal.
  unfoldable pub plan_correction_decision : Decision → Store → Result Event
  plan_correction_decision d st = do
    require (valid_decision d) invalid_decision
    e ← find_proposal d st
    require (is_text d.observed_revision_hash (expected_hash d e)) revision_mismatch
    ok e

  unfoldable pub decision_key : Decision → String
  decision_key d = p.sha256 (
      stable_json (
        obj (
          entry "correctionRef" (text d.correction_ref) (
            entry "expectedProposalEventId" (text d.expected_proposal_event_id) (
              entry "decision" (text d.decision)
                (entry "observedRevisionHash" (text d.observed_revision_hash) end))))))

  -- The event of `decideCorrection`.
  unfoldable pub decision_event : Decision → Event → EventInput
  decision_event d e = record {
    idempotency_key = decision_key d;
    event_type = if is_accept d then "correction.accepted" else "correction.rejected";
    occurred_at = iso_time p d.occurred_at;
    provider = d.decided_by;
    scope = e.input.scope;
    task_key_hash = e.input.task_key_hash;
    thread_key = e.input.thread_key;
    source_refs = [];
    subject_ref = d.correction_ref;
    replaces_ref = e.input.replaces_ref;
    evidence_refs = d.evidence_refs;
    confidence = e.input.confidence;
    freshness = record {
      status = "current";
      verified_at = some (iso_time p d.occurred_at);
      expires_at = none;
      source_head_hash = some d.observed_revision_hash;
      policy = "correction-cas";
    };
    sensitivity = e.input.sensitivity;
    redaction_result = "clean";
    approval_state = if is_accept d then "approved" else "rejected";
    payload = entry "decision" (text d.decision) (
        entry "proposalEventId" (text e.event_id) (
          entry "targetRevisionHash"
            (value_of (get_field (units "targetRevisionHash") e.input.payload))
            (entry "observedRevisionHash" (text d.observed_revision_hash) end)));
  }

  abbrev pub appended : Files.Result Appended × Store → Result Appended × Store
  appended (r, st) = (of_store r, st)

  abbrev pub propose_checked :
      (locked : Bool) → ℕ → Proposal → Store → Result (Unit {0}) → Result Appended × Store
  propose_checked locked now c st (err e) = (err e, st)
  propose_checked locked now c st (ok _) =
      appended (append_broker_event p true locked now (proposal_event c) st)

  -- `proposeCorrection`; the correction's reference and the proposal's id are those of the event.
  unfoldable pub propose_correction :
      (execute locked : Bool) → ℕ → Proposal → Store → Result Appended × Store
  propose_correction execute locked now c st =
      propose_checked locked now c st
        (require execute not_executing >> require (valid_proposal c) invalid_proposal)

  abbrev pub decide_found :
      (locked : Bool) → ℕ → Decision → Store → Result Event → Result Appended × Store
  decide_found locked now d st (err e) = (err e, st)
  decide_found locked now d st (ok e) =
      appended (append_broker_event p true locked now (decision_event d e) st)

  -- `decideCorrection`. It reads the files twice before it has the lock, and appends under it: the
  -- three stores are one if nobody else writes.
  unfoldable pub decide_correction :
      (execute locked : Bool) → ℕ → Decision → (first second st : Store) → Result Appended × Store
  decide_correction execute locked now d first second st = decide_found locked now d st (
      require execute not_executing
      >> (plan_correction_decision d first >>= λ _. find_proposal d second))
