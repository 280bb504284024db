-- ===== src/EventStore/Append.antt =====
-- `planBrokerEvent`, `appendBrokerEvents` and `appendBrokerEvent` of src/event-store.mjs. What a call throws leaves the files as they were when it threw.
use agent_context_broker.Prelude.{
  ℕ, suc, String, Bool, true, false, not, ◌||◌, Option, none, some, List, [], ◌∷◌, ◌++◌, ◌==◌,
  if◌then◌else◌, length, contains, str_eq,
}
use agent_context_broker.Platform.{Platform}
use agent_context_broker.EventStore.Event.{Event, EventInput, build_event}
use agent_context_broker.EventStore.Validate.{
  EventError, validate_event_input, busy, not_executing, no_events, repeated_key,
  index_inconsistent,
}
use agent_context_broker.EventStore.Files.{
  Result, ok, err, ◌>>◌, Head, head, Store, last, expected_head, with_head, write_event_record,
}
use agent_context_broker.EventStore.Verify.{require, check_input, verify_event_tip}
use agent_context_broker.EventStore.Index.{
  Entry, get_entry, tip_id, rebuild_idempotency_index, read_idempotency_index,
  append_idempotency_entries, read_event_by_sequence,
}

pub record Plan : Type 0 where
  pub event_type : String
  pub idempotency_key : String
  pub subject_ref : String

-- `planBrokerEvent`
unfoldable pub plan_broker_event : EventInput → Result Plan
plan_broker_event e = do
  check_input (validate_event_input e)
  ok (record {
    event_type = e.event_type;
    idempotency_key = e.idempotency_key;
    subject_ref = e.subject_ref;
  })

-- An event of the result, with `idempotentReplay`.
pub record Appended : Type 0 where
  pub event : Event
  pub replay : Bool

abbrev pub replayed : Event → Appended
replayed e = record { event = e; replay = true }

abbrev pub added : Event → Appended
added e = record { event = e; replay = false }

-- The variables of the loop over the inputs, and the files.
pub record Progress : Type 0 where
  pub store : Store
  pub sequence : ℕ
  pub previous : Option String
  pub results : List Appended
  pub appended : List Event

-- A round of the loop, or the whole call: what it gives, and the files that it leaves.
pub data Run {ℓ} (A : Type ℓ) : Type ℓ where
  done : A → Run A
  thrown : EventError → Store → Run A

infixl 5 ◌▸◌
abbrev pub ◌▸◌ {ℓ κ} : {A : Type ℓ} {B : Type κ} → Run A → (A → Run B) → Run B
done a ▸ f = f a
thrown e st ▸ f = thrown e st

abbrev pub lift {ℓ} : {A : Type ℓ} → Store → Result A → Run A
lift st (ok a) = done a
lift st (err e) = thrown e st

-- A result with files, as a run.
abbrev pub run_of {ℓ} : {A : Type ℓ} → Result A × Store → Run (A × Store)
run_of (ok a, st) = done (a, st)
run_of (err e, st) = thrown e st

abbrev pub result_of {ℓ} : {A : Type ℓ} → Store → Run (A × Store) → Result A × Store
result_of st (done (a, t)) = (ok a, t)
result_of st (thrown e t) = (err e, t)

abbrev pub push_replay : Event → Progress → Progress
push_replay e s = record {
  store = s.store;
  sequence = s.sequence;
  previous = s.previous;
  results = s.results ++ replayed e ∷ [];
  appended = s.appended;
}

abbrev pub push_event : Event → Progress → Progress
push_event e s = record {
  store = write_event_record e s.store;
  sequence = suc s.sequence;
  previous = some e.event_id;
  results = s.results ++ added e ∷ [];
  appended = s.appended ++ e ∷ [];
}

abbrev with_store : Store → Progress → Progress
with_store st s = record {
  store = st;
  sequence = s.sequence;
  previous = s.previous;
  results = s.results;
  appended = s.appended;
}

-- `event && event.idempotencyKey === input.idempotencyKey`
abbrev pub carries : String → Option Event → Option Event
carries key none = none
carries key (some e) = if str_eq e.input.idempotency_key key then some e else none

abbrev pub validate_all : List EventInput → Result (Unit {0})
validate_all [] = ok tt
validate_all (i ∷ is) = check_input (validate_event_input i) >> validate_all is

-- The loop with the set `seen`.
abbrev pub repeats : List String → List EventInput → Bool
repeats seen [] = false
repeats seen (i ∷ is) = contains i.idempotency_key seen || repeats (i.idempotency_key ∷ seen) is

abbrev pub begin : Head → Store → Progress
begin h st = record {
  store = st;
  sequence = h.sequence;
  previous = h.event_id;
  results = [];
  appended = [];
}

-- What is checked before the lock is taken, and that it is.
unfoldable pub check_arguments : (execute locked : Bool) → List EventInput → Result (Unit {0})
check_arguments execute locked inputs = do
  require execute not_executing
  require (not (length inputs == 0)) no_events
  validate_all inputs
  require (not (repeats [] inputs)) repeated_key
  require locked busy

module _ (p : Platform) where
  -- A new record.
  unfoldable pub append_input : String → EventInput → Progress → Progress
  append_input recorded_at input s =
      push_event (build_event p input (suc s.sequence) s.previous recorded_at) s

  -- The record that a rebuilt index names has the key, or the call fails.
  abbrev replay_or_fail : Progress → Option Event → Run Progress
  replay_or_fail s (some e) = done (push_replay e s)
  replay_or_fail s none = thrown index_inconsistent s.store

  abbrev recover : String → EventInput → Progress → Option ℕ → Run Progress
  recover recorded_at input s none = done (append_input recorded_at input s)
  recover recorded_at input s (some n) = lift s.store (read_event_by_sequence s.store n) ▸ λ found.
      replay_or_fail s (carries input.idempotency_key found)

  abbrev pub replay_or_recover : String → EventInput → Progress → Option Event → Run Progress
  replay_or_recover recorded_at input s (some e) = done (push_replay e s)
  replay_or_recover recorded_at input s none = run_of (rebuild_idempotency_index s.store) ▸ λ r.
      recover recorded_at input (with_store r.1 s) (get_entry input.idempotency_key r.0)

  abbrev pub place_input : String → EventInput → Progress → Option ℕ → Run Progress
  place_input recorded_at input s none = done (append_input recorded_at input s)
  place_input recorded_at input s (some n) =
      lift s.store (read_event_by_sequence s.store n) ▸ λ found.
      replay_or_recover recorded_at input s (carries input.idempotency_key found)

  -- One round of the loop over the inputs.
  unfoldable pub take_input : String → List Entry → EventInput → Progress → Run Progress
  take_input recorded_at index input s =
      place_input recorded_at input s (get_entry input.idempotency_key index)

  unfoldable pub take_inputs : String → List Entry → List EventInput → Progress → Run Progress
  take_inputs recorded_at index [] s = done s
  take_inputs recorded_at index (i ∷ is) s =
      take_input recorded_at index i s ▸ λ t. take_inputs recorded_at index is t

  abbrev pub publish_events : Progress → List Event → Store
  publish_events s [] = s.store
  publish_events s (e ∷ es) =
      append_idempotency_entries (e ∷ es) (tip_id (last (e ∷ es))) s.sequence
        (with_head (head (expected_head p (e ∷ es))) s.store)

  -- The head and the index, behind the loop.
  unfoldable pub publish : Progress → List Appended × Store
  publish s = (s.results, publish_events s s.appended)

  -- The action under the lock.
  unfoldable pub append_locked : ℕ → List EventInput → Store → Run (List Appended × Store)
  append_locked now inputs st = lift st (verify_event_tip p st) ▸ λ h.
      run_of (read_idempotency_index st h) ▸ λ r.
      take_inputs (p.to_iso now) r.0 inputs (begin h r.1) ▸ λ s. done (publish s)

  -- `execute` holds if the options have `execute: true` and a root, `locked` if the lock is taken.
  unfoldable pub append_broker_events :
      (execute locked : Bool) → ℕ → List EventInput → Store → Result (List Appended) × Store
  append_broker_events execute locked now inputs st =
      result_of st
        (lift st (check_arguments execute locked inputs) ▸ λ u. append_locked now inputs st)

  abbrev pub first_result : Result (List Appended) × Store → Result Appended × Store
  first_result (ok (a ∷ as'), st) = (ok a, st)
  first_result (ok [], st) = (err no_events, st)
  first_result (err e, st) = (err e, st)

  unfoldable pub append_broker_event :
      (execute locked : Bool) → ℕ → EventInput → Store → Result Appended × Store
  append_broker_event execute locked now input st =
      first_result (append_broker_events execute locked now (input ∷ []) st)
