-- ===== src/EventStore/Synced.antt =====
-- Stores that are in step: what the readers of src/event-store.mjs make of them.
use agent_context_broker.Prelude.{
  ℕ, suc, ◌+◌, ◌-◌, ◌≤◌, ◌≡◌, refl, sym, ap, subst, ◌∙◌, Bool, true, false, Option, none, some,
  List, [], ◌∷◌, map, arith, eq_iff, length, ltb, take, drop, length-take, take-append-drop,
  length-map,
}
use agent_context_broker.Platform.{Platform}
use agent_context_broker.EventStore.Event.{Event}
use agent_context_broker.EventStore.Files.{
  Result, ok, RecordFile, record_file, record_files, Head, HeadFile, missing, no_json, no_head,
  head, Store, expected_head, same_head, max_sequence,
}
use agent_context_broker.EventStore.Verify.{
  Verified, Tail, still, same_file, settle, judge_store, judge_tail, read_tail, read_from,
  verify_event_records, attempt_store, verify_event_store, verify_store, attempt_tail,
  verify_event_tail, verify_event_tip, verify_links,
}
use agent_context_broker.EventStore.Chain.{
  Chain, Unrepeated, same_option_refl, verify_records_of_Chain, verify_links_of_Chain,
}
use agent_context_broker.EventStore.Listing.{
  tip, record_files_of_Chain, Chain-split, anchor_of_files, map-take, map-drop, last-drop,
}
use agent_context_broker.EventStore.Lookup.{Fits}

same_head_refl : (h : Head) → same_head h h ≡ true
unfolding same_head
same_head_refl h = ground (
  arith,
  same_option_refl h.event_id,
  same_option_refl h.previous_event_hash,
  same_option_refl h.recorded_at,
  eq_iff h.head_hash h.head_hash,
)

pub same_file_refl : (h : HeadFile) → same_file h h ≡ true
same_file_refl missing = refl
same_file_refl no_json = refl
same_file_refl no_head = refl
same_file_refl (head h) = same_head_refl h

module _ (p : Platform) where
  -- There is no head before the first event.
  abbrev pub head_of : List Event → HeadFile
  head_of [] = missing
  head_of (e ∷ es) = head (expected_head p (e ∷ es))

  -- A store is in step with its events: the records are a chain without a key that repeats, the head names
  -- the newest of them, and the index file has their rows or a binding that does not name their tip.
  pub record IsSynced (es : List Event) (st : Store) : Type 0 where
    pub files : st.records ≡ map record_file es
    pub chain : Chain p 1 none es
    pub unrepeated : Unrepeated [] es
    pub bound : length es ≤ max_sequence
    pub head_now : st.head_file ≡ head_of es
    pub fits : Fits p es st

  pub record_files_synced :
      (es : List Event) (st : Store)
      → IsSynced es st
      → record_files st.records ≡ ok (map record_file es)
  record_files_synced es st s = ap record_files s.files ∙ record_files_of_Chain p es s.chain s.bound

  abbrev pub verified : List Event → Verified
  verified es = record { events = es; tip = expected_head p es }

  pub verify_event_records_synced :
      (es : List Event) (fs : List RecordFile)
      → record_files fs ≡ ok (map record_file es)
      → Chain p 1 none es
      → Unrepeated [] es
      → verify_event_records p fs ≡ ok (verified es)
  unfolding verify_event_records
  verify_event_records_synced es fs files c u =
      rw files (rw (verify_records_of_Chain p es 1 none [] c u) refl)

  judge_store_synced :
      (es : List Event) (locked : Bool)
      → judge_store p (head_of es) locked (verified es) ≡ ok (some (verified es))
  judge_store_synced [] locked = refl
  judge_store_synced (e ∷ es) locked = rw (same_head_refl (expected_head p (e ∷ es))) refl

  -- What is read while nobody writes is judged.
  pub settle-still {ℓ} :
      {A : Type ℓ} (es : List Event) (st : Store) (locked : Bool)
      (next : HeadFile → Result (Option A))
      → st.head_file ≡ head_of es
      → settle (still st locked) next ≡ next (head_of es)
  settle-still [] st locked next h = rw h refl
  settle-still (e ∷ es) st locked next h =
      rw h (rw (same_head_refl (expected_head p (e ∷ es))) refl)

  attempt_store_synced :
      (es : List Event) (st : Store) (locked : Bool)
      → IsSynced es st
      → attempt_store p (still st locked) ≡ ok (some (verified es))
  unfolding attempt_store
  attempt_store_synced es st locked s =
      rw
        (verify_event_records_synced es st.records (record_files_synced es st s) s.chain
          s.unrepeated)
        (settle-still es st locked (λ h. judge_store p h locked (verified es)) s.head_now
          ∙ judge_store_synced es locked)

  pub verify_store_synced :
      (es : List Event) (st : Store)
      → IsSynced es st
      → verify_store p st ≡ ok (record { events = es; tip = expected_head p es })
  unfolding verify_store verify_event_store
  verify_store_synced es st s = rw (attempt_store_synced es st false s) refl

  -- What `verifyEventTail` gives of a store in step.
  abbrev pub tail_of : ℕ → List Event → Tail
  tail_of count es = record {
    events = drop (length es - count) es;
    tip = expected_head p es;
    truncated = ltb 0 (length es - count);
  }

  verify_links_dropped :
      (k : ℕ) (es : List Event)
      → Chain p 1 none es
      → k ≤ length es
      → verify_links p (drop k (map record_file es)) (suc k) (tip none (take k es)) ≡ ok (drop k es)
  verify_links_dropped k es c h =
      let parts =
        Chain-split p 1 none (take k es) (drop k es)
          (subst (λ es. Chain p 1 none es) (sym (take-append-drop k es)) c) in
      let start : 1 + length (take k es) ≡ suc k = omega (arith, length-take k es) in
      rw (map-drop record_file k es) (
        verify_links_of_Chain p (drop k es) (suc k) (tip none (take k es))
          (subst (λ n. Chain p n (tip none (take k es)) (drop k es)) start parts.1))

  pub expected_head-drop :
      (k : ℕ) (es : List Event)
      → suc k ≤ length es
      → expected_head p (drop k es) ≡ expected_head p es
  unfolding expected_head
  expected_head-drop k es h = rw (last-drop k es (omega (arith, h))) refl

  tail_from : ℕ → List Event → Tail
  tail_from k es = record { events = drop k es; tip = expected_head p es; truncated = ltb 0 k }

  judge_tail_synced :
      (k : ℕ) (es : List Event) (locked : Bool)
      → suc k ≤ length es
      → judge_tail p (head_of es) locked (ltb 0 k) (drop k es) ≡ ok (some (tail_from k es))
  unfolding tail_from
  judge_tail_synced k [] locked h = absurd (omega (arith, h))
  judge_tail_synced k (e ∷ es) locked h =
      let same : same_head (expected_head p (e ∷ es)) (expected_head p (drop k (e ∷ es))) ≡ true =
        subst (λ x. same_head (expected_head p (e ∷ es)) x ≡ true)
          (sym (expected_head-drop k (e ∷ es) h)) (same_head_refl (expected_head p (e ∷ es))) in
      rw same refl

  -- The links of the tail hold, and the head is judged.
  pub read_from_lem :
      (k : ℕ) (es : List Event) (st : Store) (locked : Bool)
      → k ≤ length es
      → Chain p 1 none es
      → read_from p k (still st locked) (map record_file es)
        ≡ settle (still st locked) (λ h. judge_tail p h locked (ltb 0 k) (drop k es))
  unfolding read_from
  read_from_lem k es st locked h c =
      rw (map-take record_file k es, anchor_of_files p (take k es))
        (rw (verify_links_dropped k es c h) refl)

  read_from_synced :
      (k : ℕ) (es : List Event) (st : Store) (locked : Bool)
      → suc k ≤ length es
      → Chain p 1 none es
      → st.head_file ≡ head_of es
      → read_from p k (still st locked) (map record_file es) ≡ ok (some (tail_from k es))
  read_from_synced k es st locked h c now =
      read_from_lem k es st locked (omega (arith, h)) c
      ∙ settle-still es st locked (λ f. judge_tail p f locked (ltb 0 k) (drop k es)) now
      ∙ judge_tail_synced k es locked h

  read_tail_synced :
      (count : ℕ) (es : List Event) (st : Store) (locked : Bool)
      → 1 ≤ count
      → Chain p 1 none es
      → st.head_file ≡ head_of es
      → read_tail p count (still st locked) (map record_file es) ≡ ok (some (tail_of count es))
  unfolding tail_from
  read_tail_synced count [] st locked h c now =
      let nothing : 0 - count ≡ 0 = omega arith in rw (nothing, now) refl
  read_tail_synced count (e ∷ es) st locked h c now =
      let size = length-map record_file es in
      let within : suc (suc (length es) - count) ≤ suc (length es) = omega (arith, h) in
      rw size (read_from_synced (suc (length es) - count) (e ∷ es) st locked within c now)

  attempt_tail_synced :
      (count : ℕ) (es : List Event) (st : Store) (locked : Bool)
      → 1 ≤ count
      → IsSynced es st
      → attempt_tail p count (still st locked) ≡ ok (some (tail_of count es))
  unfolding attempt_tail
  attempt_tail_synced count es st locked h s =
      rw (record_files_synced es st s) (read_tail_synced count es st locked h s.chain s.head_now)

  pub verify_event_tail_synced :
      (count n : ℕ) (es : List Event) (st : Store) (locked : Bool)
      → 1 ≤ count
      → IsSynced es st
      → verify_event_tail p count (suc n) (λ _. still st locked) ≡ ok (tail_of count es)
  unfolding verify_event_tail
  verify_event_tail_synced count n es st locked h s =
      rw (attempt_tail_synced count es st locked h s) refl

  pub verify_event_tip_synced :
      (es : List Event) (st : Store)
      → IsSynced es st
      → verify_event_tip p st ≡ ok (expected_head p es)
  unfolding verify_event_tip
  verify_event_tip_synced es st s =
      rw (verify_event_tail_synced 1 2 es st true (omega arith) s) refl
