-- ===== src/EventStore/Repair.antt =====
-- `repairEventHead` of src/event-store.mjs, and what a writer that stops leaves.
use agent_context_broker.Prelude.{
  ℕ, suc, ◌-◌, ◌≤◌, ◌≡◌, ◌≢◌, refl, sym, ap, subst, ◌∙◌, String, Bool, true, false, Option, none,
  some, List, [], ◌∷◌, ◌++◌, map, arith, inl, length, length-append, drop, ltb, length-map,
}
use agent_context_broker.Platform.{Platform}
use agent_context_broker.EventStore.Event.{Event, EventInput}
use agent_context_broker.EventStore.Validate.{store_changed}
use agent_context_broker.EventStore.Files.{
  ok, err, RecordFile, record_file, record_files, Store, HeadFile, same_head, expected_head,
  max_sequence, with_head,
}
use agent_context_broker.EventStore.Verify.{
  Reading, still, judge_store, judge_tail, head_error, read_tail, read_from, attempt_tail,
  verify_event_tail, verify_event_tip, attempt_store, verify_event_store, verify_store,
}
use agent_context_broker.EventStore.Index.{indexed}
use agent_context_broker.EventStore.Append.{check_arguments, append_locked, append_broker_events}
use agent_context_broker.EventStore.HeadRepair.{
  read_chain, Repaired, repair_event_head, repair_files, repair_found, finished, finish_repair,
  head_for,
}
use agent_context_broker.EventStore.Chain.{Chain, Unrepeated, read_link_of_IsLink}
use agent_context_broker.EventStore.Listing.{record_files_of_Chain, Chain-split}
use agent_context_broker.EventStore.Lookup.{expected_head-sequence, rebuild_lem}
use agent_context_broker.EventStore.Synced.{
  IsSynced, head_of, verified, settle-still, verify_event_records_synced, read_from_lem,
  expected_head-drop,
}

module _ (p : Platform) where
  -- The records of a chain whose head is still that of the events in front.
  pub record IsTorn (es : List Event) (d : Event) (ds : List Event) (st : Store) : Type 0 where
    pub files : st.records ≡ map record_file (es ++ d ∷ ds)
    pub chain : Chain p 1 none (es ++ d ∷ ds)
    pub unrepeated : Unrepeated [] (es ++ d ∷ ds)
    pub bound : length (es ++ d ∷ ds) ≤ max_sequence
    pub head_before : st.head_file ≡ head_of p es

  same_head-length :
      (es fs : List Event)
      → Chain p 1 none es
      → Chain p 1 none fs
      → length es ≢ length fs
      → same_head (expected_head p es) (expected_head p fs) ≡ false
  unfolding same_head
  same_head-length es fs c d ne =
      let m = expected_head-sequence p es c in
      let n = expected_head-sequence p fs d in
      let apart : (expected_head p es).sequence ≢ (expected_head p fs).sequence =
        λ e. ne (sym m ∙ e ∙ n) in
      ground arith

  torn-length : (es : List Event) (d : Event) (ds : List Event) → length es ≢ length (es ++ d ∷ ds)
  torn-length es d ds e = omega (arith, length-append es (d ∷ ds), e)

  judge_tail_torn :
      (es : List Event) (d : Event) (ds : List Event) (truncated : Bool) (k : ℕ)
      → Chain p 1 none (es ++ d ∷ ds)
      → suc k ≤ length (es ++ d ∷ ds)
      → judge_tail p (head_of p es) true truncated (drop k (es ++ d ∷ ds)) ≡ ok none
  judge_tail_torn [] d ds truncated k c h = refl
  judge_tail_torn (e ∷ es) d ds truncated k c h =
      let parts = Chain-split p 1 none (e ∷ es) (d ∷ ds) c in
      let other : same_head (expected_head p (e ∷ es)) (expected_head p (drop k (e ∷ es ++ d ∷ ds)))
          ≡ false =
        rw (expected_head-drop p k (e ∷ es ++ d ∷ ds) h)
          (same_head-length (e ∷ es) (e ∷ es ++ d ∷ ds) parts.0 c (torn-length (e ∷ es) d ds)) in
      rw other refl

  judge_store_torn :
      (es : List Event) (d : Event) (ds : List Event)
      → Chain p 1 none (es ++ d ∷ ds)
      → judge_store p (head_of p es) false (verified p (es ++ d ∷ ds))
        ≡ err (head_error (head_of p es))
  judge_store_torn [] d ds c = ground arith
  judge_store_torn (e ∷ es) d ds c =
      let parts = Chain-split p 1 none (e ∷ es) (d ∷ ds) c in
      rw (same_head-length (e ∷ es) (e ∷ es ++ d ∷ ds) parts.0 c (torn-length (e ∷ es) d ds)) refl

  read_tail-nonempty :
      (count : ℕ) (r : Reading) (fs : List RecordFile)
      → 1 ≤ length fs
      → read_tail p count r fs ≡ read_from p (length fs - count) r fs
  read_tail-nonempty count r [] h = absurd (omega (arith, h))
  read_tail-nonempty count r (f ∷ fs) h = refl

  attempt_tail_torn :
      (es : List Event) (d : Event) (ds : List Event) (st : Store)
      → IsTorn es d ds st
      → attempt_tail p 1 (still st true) ≡ ok none
  unfolding attempt_tail
  attempt_tail_torn es d ds st t =
      let all = es ++ d ∷ ds in
      let files = ap record_files t.files ∙ record_files_of_Chain p all t.chain t.bound in
      let size = length-map record_file all in
      let more = length-append es (d ∷ ds) in
      let some_there : 1 ≤ length (map record_file all) = omega (arith, size, more) in
      let k = length (map record_file all) - 1 in
      let within : suc k ≤ length all = omega (arith, size, more) in
      rw files (
        read_tail-nonempty 1 (still st true) (map record_file all) some_there
        ∙ read_from_lem p k all st true (omega (arith, within)) t.chain
        ∙ settle-still p es st true (λ h. judge_tail p h true (ltb 0 k) (drop k all)) t.head_before
        ∙ judge_tail_torn es d ds (ltb 0 k) k t.chain within)

  verify_event_tip_torn :
      (es : List Event) (d : Event) (ds : List Event) (st : Store)
      → IsTorn es d ds st
      → verify_event_tip p st ≡ err store_changed
  unfolding verify_event_tip verify_event_tail
  verify_event_tip_torn es d ds st t = let stuck = attempt_tail_torn es d ds st t in rw stuck refl

  verify_store_torn :
      (es : List Event) (d : Event) (ds : List Event) (st : Store)
      → IsTorn es d ds st
      → verify_store p st ≡ err (head_error (head_of p es))
  unfolding verify_store verify_event_store attempt_store
  verify_store_torn es d ds st t =
      let all = es ++ d ∷ ds in
      let files = ap record_files t.files ∙ record_files_of_Chain p all t.chain t.bound in
      let judged =
        settle-still p es st false (λ h. judge_store p h false (verified p all)) t.head_before
        ∙ judge_store_torn es d ds t.chain in
      rw (verify_event_records_synced p all st.records files t.chain t.unrepeated) (rw judged refl)

  read_chain_of_Chain :
      (es : List Event) (n : ℕ) (previous : Option String) (keys : List String)
      → Chain p n previous es
      → Unrepeated keys es
      → read_chain p (map record_file es) n previous keys ≡ ok (es, false)
  unfolding read_chain
  read_chain_of_Chain [] n previous keys c u = refl
  read_chain_of_Chain (e ∷ es) n previous keys c u =
      rw (read_link_of_IsLink p n previous e c.0, u.0)
        (rw
          (read_chain_of_Chain es (suc n) (some e.event_id) (keys ++ e.input.idempotency_key ∷ [])
            c.1 u.1)
          refl)

  -- The files, the chain and the keys of a store in step, whatever its head and its index.
  pub record IsIntact (es : List Event) (st : Store) : Type 0 where
    pub files : st.records ≡ map record_file es
    pub chain : Chain p 1 none es
    pub unrepeated : Unrepeated [] es
    pub bound : length es ≤ max_sequence

  abbrev pub report : List Event → List RecordFile → Repaired
  report es moved = record {
    tip = expected_head p es;
    event_count = length es;
    quarantined = moved;
  }

  head_for-head_of : (es : List Event) → head_for p es ≡ head_of p es
  head_for-head_of [] = refl
  head_for-head_of (e ∷ es) = refl

  pub finish_repair_lem :
      (existing : HeadFile) (es : List Event) (moved : List RecordFile) (st : Store)
      → IsIntact es st
      → (finish_repair p existing es moved st
          ≡ (ok (report es moved), indexed es (with_head (head_for p es) st)))
        × IsSynced p es (indexed es (with_head (head_for p es) st))
  finish_repair_lem existing es moved st s =
      let files = ap record_files s.files ∙ record_files_of_Chain p es s.chain s.bound in
      let built = rebuild_lem es (with_head (head_for p es) st) files in
      (
        ap (finished p existing es moved) built,
        record {
          files = s.files;
          chain = s.chain;
          unrepeated = s.unrepeated;
          bound = s.bound;
          head_now = head_for-head_of es;
          fits = inl refl;
        },
      )

  repair_intact :
      (truncate : Bool) (es : List Event) (st : Store)
      → IsIntact es st
      → (repair_event_head p true true truncate st
          ≡ (ok (report es []), indexed es (with_head (head_for p es) st)))
        × IsSynced p es (indexed es (with_head (head_for p es) st))
  unfolding repair_event_head
  repair_intact truncate es st s =
      let files = ap record_files s.files ∙ record_files_of_Chain p es s.chain s.bound in
      let read = read_chain_of_Chain es 1 none [] s.chain s.unrepeated in
      let (same, synced) = finish_repair_lem st.head_file es [] st s in
      (
        ap (repair_files p truncate st) files
            ∙ ap (repair_found p truncate (map record_file es) st) read
            ∙ same,
        synced,
      )

-- A writer that stops between the records of a batch and the head: the reader refuses the store, and
-- so does every append, which reports that the store has changed; `repairEventHead` accepts every
-- record that was written, and the reader accepts what it leaves.
pub repair_event_head-torn :
    (p : Platform) (now : ℕ) (i : EventInput) (is : List EventInput) (truncate : Bool)
    (es : List Event) (d : Event) (ds : List Event) (st : Store)
    → IsTorn p es d ds st
    → check_arguments true true (i ∷ is) ≡ ok tt
    → (verify_store p st ≡ err (head_error (head_of p es)))
      × (append_broker_events p true true now (i ∷ is) st ≡ (err store_changed, st))
      × ((repair_event_head p true true truncate st).0
          ≡ ok (record {
            tip = expected_head p (es ++ d ∷ ds);
            event_count = length (es ++ d ∷ ds);
            quarantined = [];
          }))
      × IsSynced p (es ++ d ∷ ds) (repair_event_head p true true truncate st).1
unfolding append_broker_events append_locked
repair_event_head-torn p now i is truncate es d ds st t args =
    let whole : IsIntact p (es ++ d ∷ ds) st = record {
      files = t.files;
      chain = t.chain;
      unrepeated = t.unrepeated;
      bound = t.bound;
    } in
    let (same, synced) = repair_intact p truncate (es ++ d ∷ ds) st whole in
    (
      verify_store_torn p es d ds st t,
      rw (args, verify_event_tip_torn p es d ds st t) refl,
      ap (λ x. x.0) same,
      subst (λ x. IsSynced p (es ++ d ∷ ds) x.1) (sym same) synced,
    )
