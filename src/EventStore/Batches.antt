-- ===== src/EventStore/Batches.antt =====
-- Several calls of `appendBrokerEvents` of src/event-store.mjs, one after the other.
use agent_context_broker.Prelude.{
  ℕ, suc, ◌+◌, ◌≤◌, ◌≡◌, refl, sym, ap, subst, ◌∙◌, true, false, none, List, [], ◌∷◌, map, arith,
  length,
}
use agent_context_broker.Platform.{Platform}
use agent_context_broker.EventStore.Event.{Event, EventInput}
use agent_context_broker.EventStore.Validate.{validate_event_input}
use agent_context_broker.EventStore.Files.{Result, ok, Store, expected_head, max_sequence}
use agent_context_broker.EventStore.Verify.{verify_store}
use agent_context_broker.EventStore.Append.{
  Appended, repeats, append_broker_events, append_broker_event, first_result,
}
use agent_context_broker.EventStore.Synced.{IsSynced, verify_store_synced}
use agent_context_broker.EventStore.Log.{log_one, log_all, log_all-length, AllValid}
use agent_context_broker.EventStore.Refine.{append_broker_events_lem, append_broker_events-refines}

pub record Batch : Type 0 where
  pub now : ℕ
  pub first : EventInput
  pub others : List EventInput

abbrev pub inputs : Batch → List EventInput
inputs b = b.first ∷ b.others

-- A batch that `appendBrokerEvents` does not refuse.
pub record IsGood (b : Batch) : Type 0 where
  pub valid : AllValid (inputs b)
  pub apart : repeats [] (inputs b) ≡ false

abbrev pub AllGood : List Batch → Type 0
AllGood [] = Unit
AllGood (b ∷ bs) = IsGood b × AllGood bs

abbrev pub input_count : List Batch → ℕ
input_count [] = 0
input_count (b ∷ bs) = length (inputs b) + input_count bs

module _ (p : Platform) where
  -- What the calls give, and the files behind the last one.
  abbrev pub append_batches : List Batch → Store → List (Result (List Appended)) × Store
  append_batches [] st = ([], st)
  append_batches (b ∷ bs) st =
      let (r, t) = append_broker_events p true true b.now (inputs b) st in
      let (rs, u) = append_batches bs t in (r ∷ rs, u)

  -- The same on the list.
  abbrev pub log_batches : List Batch → List Event → List (Result (List Appended)) × List Event
  log_batches [] es = ([], es)
  log_batches (b ∷ bs) es =
      let (r, ds) = log_all p (p.to_iso b.now) (inputs b) es in
      let (rs, fs) = log_batches bs ds in (ok r ∷ rs, fs)

  append_batches_lem :
      (bs : List Batch) (es : List Event) (st : Store)
      → IsSynced p es st
      → AllGood bs
      → length es + input_count bs ≤ max_sequence
      → ((append_batches bs st).0 ≡ (log_batches bs es).0)
        × IsSynced p (log_batches bs es).1 (append_batches bs st).1
  append_batches_lem [] es st s g h = (refl, s)
  append_batches_lem (b ∷ bs) es st s g h =
      let (t, run, synced) =
        append_broker_events_lem p b.now b.first b.others es st s g.0.valid g.0.apart
          (omega (arith, h)) in
      let size = log_all-length p (p.to_iso b.now) (inputs b) es in
      let ds = (log_all p (p.to_iso b.now) (inputs b) es).1 in
      let (same, after) = append_batches_lem bs ds t synced g.1 (omega (arith, h, size)) in
      (
        ap (λ x. x.0 ∷ (append_batches bs x.1).0) run
            ∙ ap (λ rs. ok (log_all p (p.to_iso b.now) (inputs b) es).0 ∷ rs) same,
        subst (λ x. IsSynced p (log_batches bs ds).1 (append_batches bs x.1).1) (sym run) after,
      )

  -- One call of `appendBrokerEvent` for each input.
  abbrev pub append_each : ℕ → List EventInput → Store → List (Result Appended) × Store
  append_each now [] st = ([], st)
  append_each now (i ∷ is) st =
      let (r, t) = append_broker_event p true true now i st in
      let (rs, u) = append_each now is t in (r ∷ rs, u)

  pub append_broker_event_lem :
      (now : ℕ) (i : EventInput) (es : List Event) (st : Store)
      → IsSynced p es st
      → validate_event_input i ≡ none
      → suc (length es) ≤ max_sequence
      → (t : Store) × (append_broker_event p true true now i st
          ≡ (ok (log_one p (p.to_iso now) i es).0, t))
        × IsSynced p (log_one p (p.to_iso now) i es).1 t
  unfolding append_broker_event
  append_broker_event_lem now i es st s v h =
      let (t, run, synced) =
        append_broker_events_lem p now i [] es st s (v, tt) refl (omega (arith, h)) in
      (t, ap (first_result p) run, synced)

  append_each_lem :
      (now : ℕ) (is : List EventInput) (es : List Event) (st : Store)
      → IsSynced p es st
      → AllValid is
      → length es + length is ≤ max_sequence
      → ((append_each now is st).0 ≡ map ok (log_all p (p.to_iso now) is es).0)
        × IsSynced p (log_all p (p.to_iso now) is es).1 (append_each now is st).1
  append_each_lem now [] es st s v h = (refl, s)
  append_each_lem now (i ∷ is) es st s v h =
      let (t, run, synced) = append_broker_event_lem now i es st s v.0 (omega (arith, h)) in
      let (r, ds) = log_one p (p.to_iso now) i es in
      let size : length ds ≤ suc (length es) =
        omega (arith, log_all-length p (p.to_iso now) (i ∷ []) es) in
      let (same, after) = append_each_lem now is ds t synced v.1 (omega (arith, h, size)) in
      (
        ap (λ x. x.0 ∷ (append_each now is x.1).0) run ∙ ap (λ rs. ok r ∷ rs) same,
        subst (λ x. IsSynced p (log_all p (p.to_iso now) is ds).1 (append_each now is x.1).1)
            (sym run) after,
      )

-- A run of batches on a store in step with a list gives what the list gives for each, and the reader
-- then accepts the store with the events of the list, if the sequences keep to twelve digits.
pub append_batches-refines :
    (p : Platform) (bs : List Batch) (es : List Event) (st : Store)
    → IsSynced p es st
    → AllGood bs
    → length es + input_count bs ≤ max_sequence
    → ((append_batches p bs st).0 ≡ (log_batches p bs es).0)
      × (verify_store p (append_batches p bs st).1
          ≡ ok (record {
            events = (log_batches p bs es).1;
            tip = expected_head p (log_batches p bs es).1;
          }))
append_batches-refines p bs es st s g h =
    let (same, synced) = append_batches_lem p bs es st s g h in
    (same, verify_store_synced p (log_batches p bs es).1 (append_batches p bs st).1 synced)

-- A batch gives the results that one call for each of its inputs gives, at the same instant, and the
-- reader finds the same events and the same head behind both.
pub append_broker_events-each :
    (p : Platform) (now : ℕ) (i : EventInput) (is : List EventInput) (es : List Event) (st : Store)
    → IsSynced p es st
    → AllValid (i ∷ is)
    → repeats [] (i ∷ is) ≡ false
    → length es + length (i ∷ is) ≤ max_sequence
    → ((rs : List Appended) × ((append_broker_events p true true now (i ∷ is) st).0 ≡ ok rs)
        × ((append_each p now (i ∷ is) st).0 ≡ map ok rs))
      × (verify_store p (append_broker_events p true true now (i ∷ is) st).1
          ≡ verify_store p (append_each p now (i ∷ is) st).1)
append_broker_events-each p now i is es st s v r h =
    let (batch, synced) = append_broker_events-refines p now i is es st s v r h in
    let (each, synced_too) = append_each_lem p now (i ∷ is) es st s v h in
    let es2 = (log_all p (p.to_iso now) (i ∷ is) es).1 in
    (
      ((log_all p (p.to_iso now) (i ∷ is) es).0, batch, each),
      verify_store_synced p es2 _ synced ∙ sym (verify_store_synced p es2 _ synced_too),
    )
