-- ===== src/EventStore/Tests.antt =====
-- The theorems on the event store at concrete stores.
use agent_context_broker.Prelude.{
  ℕ, ◌-◌, ◌≡◌, refl, String, true, false, none, some, List, [], ◌∷◌, ◌++◌, map, length, drop, ltb,
  inr, arith,
}
use agent_context_broker.Platform.Sample.{sample_platform}
use agent_context_broker.Json.{num, end, entry, text}
use agent_context_broker.EventStore.Event.{EventInput, Event, build_event, stored_input}
use agent_context_broker.EventStore.Validate.{
  validate_event_input, valid_identity, valid_scope, valid_references, valid_freshness,
  valid_policy, valid_date, valid_reference_list, distinct, is_reference, reference_tail,
  policy_name, valid_payload, safe_fields, safe_value, duplicate_key, store_changed,
}
use agent_context_broker.EventStore.Files.{
  Store, missing, ok, err, record_file, expected_head, binding, Binding,
}
use agent_context_broker.EventStore.Verify.{
  verify_store, verify_event_tail, tail_count, still, head_error,
}
use agent_context_broker.EventStore.Append.{append_broker_events, check_arguments, Appended}
use agent_context_broker.EventStore.HeadRepair.{repair_event_head}
use agent_context_broker.EventStore.Build.{build_event-IsLink}
use agent_context_broker.EventStore.Synced.{IsSynced, head_of, verify_store_synced}
use agent_context_broker.EventStore.Log.{log_all}
use agent_context_broker.EventStore.Refine.{append_broker_events-refines}
use agent_context_broker.EventStore.Batches.{
  Batch, append_batches, log_batches, append_batches-refines, append_each,
  append_broker_events-each,
}
use agent_context_broker.EventStore.Repair.{IsTorn, repair_event_head-torn}
use agent_context_broker.EventStore.Quarantine.{IsRepeating, repair_event_head-repeating}
use agent_context_broker.EventStore.Readers.{
  IsAccepted, verify_store-IsAccepted, verify_event_tail-suffix,
}

abbrev pub hash_a : String
hash_a = "aaaaaaaaaaaaaaaaaaaaaaaaaaaaaaaaaaaaaaaaaaaaaaaaaaaaaaaaaaaaaaaa"

abbrev pub hash_b : String
hash_b = "bbbbbbbbbbbbbbbbbbbbbbbbbbbbbbbbbbbbbbbbbbbbbbbbbbbbbbbbbbbbbbbb"

abbrev input_with : String → EventInput
input_with key = record {
  idempotency_key = key;
  event_type = "claim.proposed";
  occurred_at = record { text = "t"; instant = some 7 };
  provider = "codex";
  scope = record { kind = "project"; key_hash = hash_a };
  task_key_hash = none;
  thread_key = some hash_b;
  source_refs = [];
  subject_ref = "acb://claim/aaaaaaaaaaaaaaaaaaaaaaaaaaaaaaaaaaaaaaaaaaaaaaaaaaaaaaaaaaaaaaaa";
  replaces_ref = none;
  evidence_refs = [];
  confidence = some (record { digits = "0.5"; is_fraction = true });
  freshness = record {
    status = "current";
    verified_at = none;
    expires_at = none;
    source_head_hash = none;
    policy = "cas";
  };
  sensitivity = "shared";
  redaction_result = "clean";
  approval_state = "pending";
  payload = entry "state" (text "done") (entry "count" (num 3) end);
}

abbrev pub claim : EventInput
claim = input_with hash_a

abbrev other_claim : EventInput
other_claim = input_with hash_b

claim_valid : validate_event_input claim ≡ none
unfolding validate_event_input valid_identity valid_scope valid_references valid_freshness
    valid_policy valid_date valid_reference_list distinct is_reference reference_tail policy_name
    valid_payload safe_fields safe_value
claim_valid = refl

other_claim_valid : validate_event_input other_claim ≡ none
unfolding validate_event_input valid_identity valid_scope valid_references valid_freshness
    valid_policy valid_date valid_reference_list distinct is_reference reference_tail policy_name
    valid_payload safe_fields safe_value
other_claim_valid = refl

abbrev pub new_store : Store
new_store = record {
  records = [];
  head_file = missing;
  index = none;
  index_binding = binding (some hash_a) 4;
  quarantine = [];
}

pub new_store-IsSynced : IsSynced sample_platform [] new_store
unfolding expected_head
new_store-IsSynced = record {
  files = refl;
  chain = tt;
  unrepeated = tt;
  bound = omega arith;
  head_now = refl;
  fits = inr refl;
}

append_broker_events-refines_example :
    ((append_broker_events sample_platform true true 5 (claim ∷ other_claim ∷ []) new_store).0
      ≡ ok (log_all sample_platform (sample_platform.to_iso 5) (claim ∷ other_claim ∷ []) []).0)
    × IsSynced sample_platform
        (log_all sample_platform (sample_platform.to_iso 5) (claim ∷ other_claim ∷ []) []).1
        (append_broker_events sample_platform true true 5 (claim ∷ other_claim ∷ []) new_store).1
append_broker_events-refines_example =
    append_broker_events-refines sample_platform 5 claim (other_claim ∷ []) [] new_store
      new_store-IsSynced (claim_valid, (other_claim_valid, tt)) refl (omega arith)

abbrev batch : ℕ → EventInput → Batch
batch now i = record { now = now; first = i; others = [] }

abbrev batches : List Batch
batches = batch 5 claim ∷ batch 6 other_claim ∷ batch 7 claim ∷ []

append_batches-refines_example :
    ((append_batches sample_platform batches new_store).0
      ≡ (log_batches sample_platform batches []).0)
    × (verify_store sample_platform (append_batches sample_platform batches new_store).1
        ≡ ok (record {
          events = (log_batches sample_platform batches []).1;
          tip = expected_head sample_platform (log_batches sample_platform batches []).1;
        }))
append_batches-refines_example =
    append_batches-refines sample_platform batches [] new_store new_store-IsSynced
      (
        record { valid = (claim_valid, tt); apart = refl },
        (
          record { valid = (other_claim_valid, tt); apart = refl },
          (record { valid = (claim_valid, tt); apart = refl }, tt),
        ),
      )
      (omega arith)

append_broker_events-each_example :
    ((rs : List Appended) × ((append_broker_events sample_platform true true 5
          (claim ∷ other_claim ∷ [])
          new_store).0
        ≡ ok rs)
      × ((append_each sample_platform 5 (claim ∷ other_claim ∷ []) new_store).0 ≡ map ok rs))
    × (verify_store sample_platform
          (append_broker_events sample_platform true true 5 (claim ∷ other_claim ∷ []) new_store).1
        ≡ verify_store sample_platform
            (append_each sample_platform 5 (claim ∷ other_claim ∷ []) new_store).1)
append_broker_events-each_example =
    append_broker_events-each sample_platform 5 claim (other_claim ∷ []) [] new_store
      new_store-IsSynced (claim_valid, (other_claim_valid, tt)) refl (omega arith)

abbrev pub first : Event
first = build_event sample_platform claim 1 none "t5"

abbrev again : Event
again = build_event sample_platform claim 2 (some first.event_id) "t6"

abbrev torn_store : Store
torn_store = record {
  records = map record_file (first ∷ []);
  head_file = missing;
  index = none;
  index_binding = Binding.missing;
  quarantine = [];
}

torn_store-IsTorn : IsTorn sample_platform [] first [] torn_store
torn_store-IsTorn = record {
  files = refl;
  chain = (build_event-IsLink sample_platform claim 1 none "t5" claim_valid, tt);
  unrepeated = (refl, tt);
  bound = omega arith;
  head_before = refl;
}

arguments_good : check_arguments true true (other_claim ∷ []) ≡ ok tt
unfolding check_arguments
arguments_good = rw other_claim_valid refl

repair_event_head-torn_example :
    (verify_store sample_platform torn_store ≡ err (head_error (head_of sample_platform [])))
    × (append_broker_events sample_platform true true 9 (other_claim ∷ []) torn_store
        ≡ (err store_changed, torn_store))
    × ((repair_event_head sample_platform true true false torn_store).0
        ≡ ok (record {
          tip = expected_head sample_platform (first ∷ []);
          event_count = 1;
          quarantined = [];
        }))
    × IsSynced sample_platform
        (first ∷ [])
        (repair_event_head sample_platform true true false torn_store).1
repair_event_head-torn_example =
    repair_event_head-torn sample_platform 9 other_claim [] false [] first [] torn_store
      torn_store-IsTorn arguments_good

abbrev repeating_store : Store
repeating_store = record {
  records = map record_file (first ∷ again ∷ []);
  head_file = missing;
  index = none;
  index_binding = Binding.missing;
  quarantine = [];
}

repeating_store-IsRepeating : IsRepeating sample_platform (first ∷ []) again [] repeating_store
repeating_store-IsRepeating = record {
  files = refl;
  chain = (
    build_event-IsLink sample_platform claim 1 none "t5" claim_valid,
    (build_event-IsLink sample_platform claim 2 (some first.event_id) "t6" claim_valid, tt),
  );
  unrepeated = (refl, tt);
  repeated = unfold build_event stored_input in refl;
  bound = omega arith;
}

repair_event_head-repeating_example :
    (verify_store sample_platform repeating_store ≡ err duplicate_key)
    × (repair_event_head sample_platform true true false repeating_store
        ≡ (err duplicate_key, repeating_store))
    × ((repair_event_head sample_platform true true true repeating_store).0
        ≡ ok (record {
          tip = expected_head sample_platform (first ∷ []);
          event_count = 1;
          quarantined = map record_file (again ∷ []);
        }))
    × ((repair_event_head sample_platform true true true repeating_store).1.quarantine
        ≡ [] ++ map record_file (again ∷ []))
    × IsSynced sample_platform
        (first ∷ [])
        (repair_event_head sample_platform true true true repeating_store).1
repair_event_head-repeating_example =
    repair_event_head-repeating sample_platform (first ∷ []) again [] repeating_store
      repeating_store-IsRepeating

abbrev pub written_store : Store
written_store = (append_broker_events sample_platform true true 5 (claim ∷ []) new_store).1

abbrev pub written_events : List Event
written_events = (log_all sample_platform (sample_platform.to_iso 5) (claim ∷ []) []).1

pub written_store-IsSynced : IsSynced sample_platform written_events written_store
written_store-IsSynced =
    (append_broker_events-refines sample_platform 5 claim [] [] new_store new_store-IsSynced
      (claim_valid, tt) refl (omega arith)).1

verify_store-IsAccepted_example :
    IsAccepted sample_platform written_store
      (record { events = written_events; tip = expected_head sample_platform written_events })
verify_store-IsAccepted_example =
    verify_store-IsAccepted sample_platform written_store
      (record { events = written_events; tip = expected_head sample_platform written_events })
      (verify_store_synced sample_platform written_events written_store written_store-IsSynced)

verify_event_tail-suffix_example :
    (verify_store sample_platform written_store
      ≡ ok (record { events = written_events; tip = expected_head sample_platform written_events }))
    × (verify_event_tail sample_platform (tail_count none) 3 (λ _. still written_store true)
        ≡ ok (record {
          events = drop (length written_events - tail_count none) written_events;
          tip = expected_head sample_platform written_events;
          truncated = ltb 0 (length written_events - tail_count none);
        }))
verify_event_tail-suffix_example =
    verify_event_tail-suffix sample_platform none true written_events written_store
      written_store-IsSynced
