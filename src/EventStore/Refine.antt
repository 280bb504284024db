-- ===== src/EventStore/Refine.antt =====
-- `appendBrokerEvents` of src/event-store.mjs on files does what its contract says of a list.
use mathlib.Core.List.{append-nil, map-append}
use agent_context_broker.Prelude.{
  ℕ, suc, ◌+◌, ◌≤◌, ◌==◌, ◌≡◌, refl, sym, ap, subst, ◌∙◌, true, false, none, some, List, [], ◌∷◌,
  ◌++◌, map, arith, inl, length,
}
use agent_context_broker.Platform.{Platform}
use agent_context_broker.EventStore.Event.{Event, EventInput}
use agent_context_broker.EventStore.Files.{
  ok, record_file, Store, head, expected_head, last, max_sequence,
}
use agent_context_broker.EventStore.Index.{index_row, indexed, append_idempotency_entries}
use agent_context_broker.EventStore.Append.{
  Progress, done, result_of, check_arguments, begin, publish, publish_events, append_locked,
  validate_all, repeats, append_broker_events,
}
use agent_context_broker.EventStore.Chain.{Chain, Unrepeated}
use agent_context_broker.EventStore.Listing.{tip_id-last, tip}
use agent_context_broker.EventStore.Lookup.{
  expected_head-sequence, expected_head-event_id, read_idempotency_index_lem,
}
use agent_context_broker.EventStore.Synced.{
  IsSynced, head_of, record_files_synced, verify_event_tip_synced,
}
use agent_context_broker.EventStore.Log.{
  log_all, log_all-Unrepeated, AllValid, Apart, IsGoing, log_all-length, take_inputs_lem,
}

last-append {ℓ} :
    {A : Type ℓ} (xs : List A) (y : A) (ys : List A) → last (xs ++ y ∷ ys) ≡ last (y ∷ ys)
last-append [] y ys = refl
last-append (x ∷ []) y ys = refl
last-append (x ∷ z ∷ xs) y ys = last-append (z ∷ xs) y ys

module _ (p : Platform) where
  expected_head-append :
      (es : List Event) (d : Event) (ds : List Event)
      → expected_head p (es ++ d ∷ ds) ≡ expected_head p (d ∷ ds)
  unfolding expected_head
  expected_head-append es d ds = rw (last-append es d ds) refl

  head_of-append :
      (es : List Event) (d : Event) (ds : List Event)
      → head_of p (es ++ d ∷ ds) ≡ head (expected_head p (d ∷ ds))
  head_of-append [] d ds = refl
  head_of-append (e ∷ es) d ds = ap head (expected_head-append (e ∷ es) d ds)

  begin-IsGoing :
      (es : List Event) (st : Store)
      → IsSynced p es st
      → IsGoing p es (indexed es st) (begin (expected_head p es) (indexed es st))
  begin-IsGoing es st s =
      let whole = sym (append-nil es) in
      record {
        files = rw (append-nil es) (rw s.files refl);
        chain = subst (Chain p 1 none) whole s.chain;
        counted = expected_head-sequence p es s.chain ∙ ap length whole;
        linked = expected_head-event_id p es ∙ sym (tip_id-last es) ∙ ap (tip none) whole;
      }

  publish_events-IsSynced :
      (old ds : List Event) (st : Store) (t : Progress)
      → t.appended ≡ ds
      → IsSynced p old st
      → IsGoing p old (indexed old st) t
      → Unrepeated [] (old ++ ds)
      → length (old ++ ds) ≤ max_sequence
      → IsSynced p (old ++ ds) (publish_events p t ds)
  unfolding append_idempotency_entries
  publish_events-IsSynced old [] st t same s g u b =
      let whole : old ++ t.appended ≡ old ++ [] = ap (λ ds. old ++ ds) same in
      record {
        files = rw g.files (ap (map record_file) whole);
        chain = subst (Chain p 1 none) whole g.chain;
        unrepeated = u;
        bound = b;
        head_now = rw g.files (s.head_now ∙ ap (head_of p) (sym (append-nil old)));
        fits = inl (rw g.files (ap (λ es. some (map index_row es)) (sym (append-nil old))));
      }
  publish_events-IsSynced old (d ∷ ds) st t same s g u b =
      let whole : old ++ t.appended ≡ old ++ d ∷ ds = ap (λ ds. old ++ ds) same in
      record {
        files = rw g.files (ap (map record_file) whole);
        chain = subst (Chain p 1 none) whole g.chain;
        unrepeated = u;
        bound = b;
        head_now = sym (head_of-append old d ds);
        fits = inl (rw g.files (ap some (sym (map-append index_row old (d ∷ ds)))));
      }

  Apart-nil : (is : List EventInput) → Apart p is []
  Apart-nil [] = tt
  Apart-nil (i ∷ is) = (refl, Apart-nil is)

  -- The action under the lock.
  append_locked_lem :
      (now : ℕ) (is : List EventInput) (es : List Event) (st : Store)
      → IsSynced p es st
      → AllValid is
      → repeats [] is ≡ false
      → length es + length is ≤ max_sequence
      → (t : Store) × (append_locked p now is st ≡ done ((log_all p (p.to_iso now) is es).0, t))
        × IsSynced p (log_all p (p.to_iso now) is es).1 t
  unfolding append_locked publish
  append_locked_lem now is es st s v r b =
      let at = p.to_iso now in
      let base = indexed es st in
      let whole = append-nil es in
      let room : length (es ++ []) + length is ≤ max_sequence = rw whole b in
      let (t, run, results, all, going) =
        take_inputs_lem p es base at [] is (begin (expected_head p es) base) s.chain s.unrepeated
          room v r (Apart-nil is) (begin-IsGoing es st s) in
      let events = all ∙ ap (λ es. (log_all p at is es).1) whole in
      let size = log_all-length p at is es in
      let synced =
        publish_events-IsSynced es t.appended st t refl s going
          (rw events (log_all-Unrepeated p at is es s.unrepeated))
          (rw events (omega (arith, size, b))) in
      (
        publish_events p t t.appended,
        rw (verify_event_tip_synced p es st s) (
            rw (read_idempotency_index_lem p es st s.chain (record_files_synced p es st s) s.fits) (
              rw run (
                ap (λ rs. done (rs, publish_events p t t.appended))
                  (results ∙ ap (λ es. (log_all p at is es).0) whole)))),
        subst (λ es. IsSynced p es (publish_events p t t.appended)) events synced,
      )

validate_all-ok : (is : List EventInput) → AllValid is → validate_all is ≡ ok tt
validate_all-ok [] v = refl
validate_all-ok (i ∷ is) v = rw v.0 (validate_all-ok is v.1)

check_arguments-ok :
    (i : EventInput) (is : List EventInput)
    → AllValid (i ∷ is)
    → repeats [] (i ∷ is) ≡ false
    → check_arguments true true (i ∷ is) ≡ ok tt
unfolding check_arguments
check_arguments-ok i is v r =
    let filled : (suc (length is) == 0) ≡ false = ground arith in
    rw filled (rw (validate_all-ok (i ∷ is) v) (rw r refl))

module _ (p : Platform) where
  pub append_broker_events_lem :
      (now : ℕ) (i : EventInput) (is : List EventInput) (es : List Event) (st : Store)
      → IsSynced p es st
      → AllValid (i ∷ is)
      → repeats [] (i ∷ is) ≡ false
      → length es + length (i ∷ is) ≤ max_sequence
      → (t : Store) × (append_broker_events p true true now (i ∷ is) st
          ≡ (ok (log_all p (p.to_iso now) (i ∷ is) es).0, t))
        × IsSynced p (log_all p (p.to_iso now) (i ∷ is) es).1 t
  unfolding append_broker_events
  append_broker_events_lem now i is es st s v r b =
      let (t, run, synced) = append_locked_lem p now (i ∷ is) es st s v r b in
      (t, rw (check_arguments-ok i is v r) (ap (result_of st) run), synced)

-- On a store in step with a list of events, what `appendBrokerEvents` gives for a batch of valid
-- inputs of different keys is what the list gives, replays included, and it leaves a store in step
-- with the longer list, if its sequences do not pass twelve digits. In step means that the records are a
-- chain without repeated keys, the head names the newest, and the index file has the rows of the records
-- or a binding that does not name their tip.
pub append_broker_events-refines :
    (p : Platform) (now : ℕ) (i : EventInput) (is : List EventInput) (es : List Event) (st : Store)
    → IsSynced p es st
    → AllValid (i ∷ is)
    → repeats [] (i ∷ is) ≡ false
    → length es + length (i ∷ is) ≤ max_sequence
    → ((append_broker_events p true true now (i ∷ is) st).0
        ≡ ok (log_all p (p.to_iso now) (i ∷ is) es).0)
      × IsSynced p
          (log_all p (p.to_iso now) (i ∷ is) es).1
          (append_broker_events p true true now (i ∷ is) st).1
append_broker_events-refines p now i is es st s v r b =
    let (t, same, synced) = append_broker_events_lem p now i is es st s v r b in
    (
      ap (λ x. x.0) same,
      subst (λ x. IsSynced p (log_all p (p.to_iso now) (i ∷ is) es).1 x.1) (sym same) synced,
    )
