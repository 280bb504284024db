-- ===== src/EventStore/Validate.antt =====
-- `validateEventInput` of src/event-store.mjs and the tests that it calls.
use agent_context_broker.Prelude.{
  ℕ, ◌+◌, String, Bool, true, false, not, ◌&&◌, ◌||◌, Option, none, some, List, [], ◌∷◌, leb, ◌==◌,
  if◌then◌else◌, length, all, contains,
}
use agent_context_broker.Prelude.Text.{units, is_lower, is_digit, is_lower_hex, is_hash}
use agent_context_broker.Json.{Json, null, bool, num, decimal, str, Fields, end, field}
use agent_context_broker.EventStore.Event.{Time, Scope, Freshness, EventInput}

abbrev pub all_hex : List ℕ → Bool
all_hex cs = length cs == 64 && all is_lower_hex cs

abbrev is_upper : ℕ → Bool
is_upper c = leb b'A' c && leb c b'Z'

-- A first character of one kind and at most `n` others of another.
abbrev begins : (ℕ → Bool) → (ℕ → Bool) → ℕ → List ℕ → Bool
begins p q n [] = false
begins p q n (c ∷ cs) = p c && leb (length cs) n && all q cs

-- `[a-z0-9-]*\/[a-f0-9]{64}$` of `REFERENCE`
unfoldable pub reference_tail : List ℕ → Bool
reference_tail [] = false
reference_tail (c ∷ cs) =
    let rest = reference_tail cs in
    if c == b'/' then all_hex cs else (is_lower c || is_digit c || c == b'-') && rest

abbrev pub reference_kind : List ℕ → Bool
reference_kind [] = false
reference_kind (c ∷ cs) = is_lower c && reference_tail cs

abbrev pub after : List ℕ → (List ℕ → Bool) → List ℕ → Bool
after [] test cs = test cs
after (a ∷ as') test [] = false
after (a ∷ as') test (c ∷ cs) = a == c && after as' test cs

-- `REFERENCE`
unfoldable pub is_reference : String → Bool
unfolding reference_tail
is_reference s = after (units "acb://") reference_kind (units s)

-- `SAFE_KEY`
abbrev pub safe_key : List ℕ → Bool
safe_key cs =
    begins (λ c. is_lower c || is_upper c) (λ c. is_lower c || is_upper c || is_digit c) 63 cs

-- `SAFE_TOKEN`
abbrev pub safe_token : List ℕ → Bool
safe_token cs =
    begins (λ c. is_lower c || is_digit c)
      (λ c.
        is_lower c || is_digit c || c == b'.' || c == b'_' || c == b':' || c == b'/' || c == b'-')
      127 cs

-- `/^[a-z][a-z0-9.-]{0,63}$/u`
unfoldable pub policy_name : String → Bool
policy_name s =
    begins is_lower (λ c. is_lower c || is_digit c || c == b'.' || c == b'-') 63 (units s)

abbrev pub event_types : List String
event_types =
    "source.inventoryed" ∷ "thread.delta" ∷ "claim.proposed" ∷ "claim.accepted" ∷ "claim.rejected"
    ∷ "claim.superseded" ∷ "snapshot.published" ∷ "correction.proposed" ∷ "correction.accepted"
    ∷ "correction.rejected" ∷ "usage.observed" ∷ "read-model.projected" ∷ "peer-progress.published"
    ∷ []

abbrev pub providers : List String
providers = "system" ∷ "codex" ∷ "claude-code" ∷ []

abbrev pub scope_kinds : List String
scope_kinds = "global" ∷ "project" ∷ "workstream" ∷ "ticket" ∷ "merge-request" ∷ []

unfoldable pub valid_date : Time → Bool
valid_date t = elim t.instant [ none ↦ false | some _ ↦ true ]

abbrev pub null_or {ℓ} : {A : Type ℓ} → (A → Bool) → Option A → Bool
null_or test none = true
null_or test (some a) = test a

-- `new Set(value).size === value.length`
unfoldable pub distinct : List String → Bool
distinct [] = true
distinct (s ∷ ss) = not (contains s ss) && distinct ss

unfoldable pub valid_reference_list : List String → Bool
valid_reference_list refs = distinct refs && all is_reference refs

-- `Object.keys(value).length`
abbrev pub field_count : Fields → ℕ
field_count end = 0
field_count (field _ _ fs) = 1 + field_count fs

unfoldable pub safe_value : Json → Bool
safe_value null = true
safe_value (bool _) = true
safe_value (num _) = true
safe_value (decimal _) = true
safe_value (str cs) = all_hex cs || safe_token cs
safe_value _ = false

unfoldable pub safe_fields : Fields → Bool
safe_fields end = true
safe_fields (field k v fs) = safe_key k && safe_value v && safe_fields fs

unfoldable pub valid_payload : Fields → Bool
valid_payload fs = leb (field_count fs) 32 && safe_fields fs

pub data EventError : Type 0 where
  bad_identity bad_scope bad_relation bad_reference bad_confidence bad_freshness bad_policy :
      EventError
  chain_failed duplicate_sequence duplicate_key head_missing head_failed store_changed : EventError
  unreadable busy not_executing no_events repeated_key index_inconsistent : EventError

unfoldable pub valid_identity : EventInput → Bool
valid_identity e =
    is_hash e.idempotency_key
    && contains e.event_type event_types
    && valid_date e.occurred_at
    && contains e.provider providers

unfoldable pub valid_scope : Scope → Bool
valid_scope s = contains s.kind scope_kinds && is_hash s.key_hash

unfoldable pub valid_references : EventInput → Bool
valid_references e =
    valid_reference_list e.source_refs
    && is_reference e.subject_ref
    && null_or is_reference e.replaces_ref
    && valid_reference_list e.evidence_refs

unfoldable pub valid_freshness : Freshness → Bool
unfolding policy_name
valid_freshness f =
    contains f.status ("current" ∷ "stale" ∷ "expired" ∷ "unknown" ∷ [])
    && null_or valid_date f.verified_at
    && null_or valid_date f.expires_at
    && null_or is_hash f.source_head_hash
    && policy_name f.policy

unfoldable pub valid_policy : EventInput → Bool
valid_policy e =
    contains e.sensitivity ("shared" ∷ "private" ∷ [])
    && contains e.redaction_result ("clean" ∷ "suppressed" ∷ [])
    && contains e.approval_state ("not-required" ∷ "pending" ∷ "approved" ∷ "rejected" ∷ [])
    && valid_payload e.payload

-- The first check that fails.
unfoldable pub validate_event_input : EventInput → Option EventError
validate_event_input e =
    if not (valid_identity e)
    then some bad_identity
    else if not (valid_scope e.scope)
    then some bad_scope
    else if not (null_or is_hash e.task_key_hash && null_or is_hash e.thread_key)
    then some bad_relation
    else if not (valid_references e)
    then some bad_reference
    else if not (null_or (λ n. n.is_fraction) e.confidence)
    then some bad_confidence
    else if not (valid_freshness e.freshness)
    then some bad_freshness
    else if not (valid_policy e)
    then some bad_policy
    else none
