-- ===== src/EventStore/Quarantine.antt =====
-- `repairEventHead` of src/event-store.mjs on a chain that holds a key twice.
use mathlib.Core.List.{append_assoc, append-nil}
use agent_context_broker.Prelude.{
  ℕ, suc, ◌+◌, ◌≤◌, ◌<◌, ◌==◌, ◌≡◌, refl, sym, ap, subst, ◌∙◌, String, Bool, true, false, not,
  Option, none, some, List, [], ◌∷◌, ◌++◌, map, arith, eq_iff, length, length-append, drop,
  contains, keep, any,
}
use agent_context_broker.Platform.{Platform}
use agent_context_broker.EventStore.Event.{Event}
use agent_context_broker.EventStore.Validate.{duplicate_key}
use agent_context_broker.EventStore.Files.{
  ok, err, RecordFile, record_file, record_files, Store, expected_head, max_sequence, same_name,
}
use agent_context_broker.EventStore.Verify.{
  verify_records, verify_event_records, attempt_store, verify_event_store, verify_store,
}
use agent_context_broker.EventStore.HeadRepair.{
  read_chain, move_out, repair_event_head, repair_files, repair_found, finish_repair,
}
use agent_context_broker.EventStore.Chain.{Chain, Unrepeated, read_link_of_IsLink}
use agent_context_broker.EventStore.Listing.{tip, map-drop, record_files_of_Chain, Chain-split}
use agent_context_broker.EventStore.Synced.{IsSynced}
use agent_context_broker.EventStore.Repair.{IsIntact, finish_repair_lem}

drop-append {ℓ} : {A : Type ℓ} (xs ys : List A) → drop (length xs) (xs ++ ys) ≡ ys
drop-append [] ys = refl
drop-append (x ∷ xs) ys = drop-append xs ys

keys_of : List Event → List String
keys_of es = map (λ e. e.input.idempotency_key) es

module _ (p : Platform) where
  -- The first key that repeats is that of `d`.
  pub record IsRepeating (es : List Event) (d : Event) (ds : List Event) (st : Store) : Type 0 where
    pub files : st.records ≡ map record_file (es ++ d ∷ ds)
    pub chain : Chain p 1 none (es ++ d ∷ ds)
    pub unrepeated : Unrepeated [] es
    pub repeated : contains d.input.idempotency_key (map (λ e. e.input.idempotency_key) es) ≡ true
    pub bound : length (es ++ d ∷ ds) ≤ max_sequence

  keys-append :
      (k a : String) (keys : List String) (es : List Event)
      → contains k (keys ++ a ∷ map (λ e. e.input.idempotency_key) es)
        ≡ contains k ((keys ++ a ∷ []) ++ map (λ e. e.input.idempotency_key) es)
  keys-append k a keys es = ap (contains k) (sym (append_assoc keys (a ∷ []) _))

  read_chain_repeating :
      (es : List Event) (d : Event) (ds : List Event) (n : ℕ) (previous : Option String)
      (keys : List String)
      → Chain p n previous (es ++ d ∷ ds)
      → Unrepeated keys es
      → contains d.input.idempotency_key (keys ++ map (λ e. e.input.idempotency_key) es) ≡ true
      → read_chain p (map record_file (es ++ d ∷ ds)) n previous keys ≡ ok (es, true)
  unfolding read_chain
  read_chain_repeating [] d ds n previous keys c u r =
      let there : contains d.input.idempotency_key keys ≡ true = rw (append-nil keys) at r in
      rw (read_link_of_IsLink p n previous d c.0, there) refl
  read_chain_repeating (e ∷ es) d ds n previous keys c u r =
      rw (read_link_of_IsLink p n previous e c.0, u.0)
        (rw
          (read_chain_repeating es d ds (suc n) (some e.event_id)
            (keys ++ e.input.idempotency_key ∷ []) c.1 u.1
            (sym (keys-append d.input.idempotency_key e.input.idempotency_key keys es) ∙ r))
          refl)

  verify_records_repeating :
      (es : List Event) (d : Event) (ds : List Event) (n : ℕ) (previous : Option String)
      (keys : List String)
      → Chain p n previous (es ++ d ∷ ds)
      → Unrepeated keys es
      → contains d.input.idempotency_key (keys ++ map (λ e. e.input.idempotency_key) es) ≡ true
      → verify_records p (map record_file (es ++ d ∷ ds)) n previous keys ≡ err duplicate_key
  unfolding verify_records
  verify_records_repeating [] d ds n previous keys c u r =
      let there : contains d.input.idempotency_key keys ≡ true = rw (append-nil keys) at r in
      rw (read_link_of_IsLink p n previous d c.0, there) refl
  verify_records_repeating (e ∷ es) d ds n previous keys c u r =
      rw (read_link_of_IsLink p n previous e c.0, u.0)
        (rw
          (verify_records_repeating es d ds (suc n) (some e.event_id)
            (keys ++ e.input.idempotency_key ∷ []) c.1 u.1
            (sym (keys-append d.input.idempotency_key e.input.idempotency_key keys es) ∙ r))
          refl)

  any-same_name-later :
      (f : RecordFile) (n : ℕ) (previous : Option String) (ds : List Event)
      → Chain p n previous ds
      → f.sequence < n
      → any (same_name f) (map record_file ds) ≡ false
  any-same_name-later f n previous [] c h = refl
  any-same_name-later f n previous (d ∷ ds) c h =
      let placed = c.0.placed in
      let other : (f.sequence == d.sequence) ≡ false = ground arith in
      rw other (any-same_name-later f (suc n) (some d.event_id) ds c.1 (omega (arith, h)))

  any-same_name-here :
      (e : Event) (fs gs : List RecordFile)
      → any (same_name (record_file e)) (fs ++ record_file e ∷ gs) ≡ true
  any-same_name-here e [] gs = ground (arith, eq_iff e.event_id e.event_id)
  any-same_name-here e (f ∷ fs) gs = ground (arith, any-same_name-here e fs gs)

  keep-moved :
      (front : List RecordFile) (ds : List Event)
      → keep (λ f. not (any (same_name f) (front ++ map record_file ds))) (map record_file ds) ≡ []
  keep-moved front [] = refl
  keep-moved front (d ∷ ds) =
      let here = any-same_name-here d front (map record_file ds) in
      let shift = append_assoc front (record_file d ∷ []) (map record_file ds) in
      rw here (
        subst (λ fs. keep (λ f. not (any (same_name f) fs)) (map record_file ds) ≡ []) shift
          (keep-moved (front ++ record_file d ∷ []) ds))

  keep-before :
      (es ds : List Event) (n : ℕ) (previous : Option String) (m : ℕ) (link : Option String)
      → Chain p n previous es
      → Chain p m link ds
      → n + length es ≤ m
      → keep (λ f. not (any (same_name f) (map record_file ds))) (map record_file (es ++ ds))
        ≡ map record_file es
  keep-before [] ds n previous m link c k h = keep-moved [] ds
  keep-before (e ∷ es) ds n previous m link c k h =
      let placed = c.0.placed in
      let apart = any-same_name-later (record_file e) m link ds k (omega (arith, placed, h)) in
      rw apart (
        ap (λ fs. record_file e ∷ fs)
          (keep-before es ds (suc n) (some e.event_id) m link c.1 k (omega (arith, h))))

  quarantined-IsIntact :
      (es : List Event) (d : Event) (ds : List Event) (st : Store)
      → IsRepeating es d ds st
      → IsIntact p es (move_out (map record_file (d ∷ ds)) st)
  quarantined-IsIntact es d ds st r =
      let parts = Chain-split p 1 none es (d ∷ ds) r.chain in
      let size = length-append es (d ∷ ds) in
      let bound = r.bound in
      record {
        files = rw r.files (
            keep-before es (d ∷ ds) 1 none (1 + length es) (tip none es) parts.0 parts.1
              (omega arith));
        chain = parts.0;
        unrepeated = r.unrepeated;
        bound = omega (arith, size, bound);
      }

  repair_repeating :
      (truncate : Bool) (es : List Event) (d : Event) (ds : List Event) (st : Store)
      → IsRepeating es d ds st
      → repair_event_head p true true truncate st
        ≡ repair_found p truncate (map record_file (es ++ d ∷ ds)) st (ok (es, true))
  unfolding repair_event_head
  repair_repeating truncate es d ds st r =
      let all = map record_file (es ++ d ∷ ds) in
      let files =
        ap record_files r.files ∙ record_files_of_Chain p (es ++ d ∷ ds) r.chain r.bound in
      ap (repair_files p truncate st) files
      ∙ ap (repair_found p truncate all st)
          (read_chain_repeating es d ds 1 none [] r.chain r.unrepeated r.repeated)

  moved_files :
      (es : List Event) (d : Event) (ds : List Event)
      → drop (length es) (map record_file (es ++ d ∷ ds)) ≡ map record_file (d ∷ ds)
  moved_files es d ds =
      map-drop record_file (length es) (es ++ d ∷ ds)
      ∙ ap (map record_file) (drop-append es (d ∷ ds))

  verify_store_repeating :
      (es : List Event) (d : Event) (ds : List Event) (st : Store)
      → IsRepeating es d ds st
      → verify_store p st ≡ err duplicate_key
  unfolding verify_store verify_event_store attempt_store verify_event_records
  verify_store_repeating es d ds st r =
      let files =
        ap record_files r.files ∙ record_files_of_Chain p (es ++ d ∷ ds) r.chain r.bound in
      rw files
        (rw (verify_records_repeating es d ds 1 none [] r.chain r.unrepeated r.repeated) refl)

-- A chain with a key that stands in it twice is refused, and `repairEventHead` refuses it too and
-- changes nothing, unless it is told to truncate: then it moves the first record that repeats a key
-- and all behind it into the quarantine and leaves a store in step with the events in front.
pub repair_event_head-repeating :
    (p : Platform) (es : List Event) (d : Event) (ds : List Event) (st : Store)
    → IsRepeating p es d ds st
    → (verify_store p st ≡ err duplicate_key)
      × (repair_event_head p true true false st ≡ (err duplicate_key, st))
      × ((repair_event_head p true true true st).0
          ≡ ok (record {
            tip = expected_head p es;
            event_count = length es;
            quarantined = map record_file (d ∷ ds);
          }))
      × ((repair_event_head p true true true st).1.quarantine
          ≡ st.quarantine ++ map record_file (d ∷ ds))
      × IsSynced p es (repair_event_head p true true true st).1
repair_event_head-repeating p es d ds st r =
    let moved = map record_file (d ∷ ds) in
    let (same, synced) =
      finish_repair_lem p st.head_file es moved (move_out moved st)
        (quarantined-IsIntact p es d ds st r) in
    let run =
      repair_repeating p true es d ds st r
      ∙ ap (λ fs. finish_repair p st.head_file es fs (move_out fs st)) (moved_files p es d ds)
      ∙ same in
    (
      verify_store_repeating p es d ds st r,
      repair_repeating p false es d ds st r,
      ap (λ x. x.0) run,
      ap (λ x. x.1.quarantine) run,
      subst (λ x. IsSynced p es x.1) (sym run) synced,
    )
