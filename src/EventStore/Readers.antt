-- ===== src/EventStore/Readers.antt =====
-- What `verifyEventStore` and `verifyEventTail` of src/event-store.mjs say of the files.
use agent_context_broker.Prelude.{
  ℕ, zero, suc, ◌-◌, ◌≤◌, ◌==◌, ◌≡◌, refl, ap, subst, ◌∙◌, Bool, true, false, Option, none, some,
  List, [], ◌∷◌, map, arith, eq_iff, Bool-cases, Option-cases, inl, inr, ◌⊎◌, length, drop, ltb,
}
use agent_context_broker.Platform.{Platform}
use agent_context_broker.EventStore.Event.{Event}
use agent_context_broker.EventStore.Files.{
  Result, ok, ◌>>=◌, RecordFile, record_file, record_files, Head, HeadFile, head, missing, no_json,
  no_head, Store, expected_head, same_head,
}
use agent_context_broker.EventStore.Verify.{
  Verified, Reading, still, settle, parse_head, agrees_or_new, judge_store, verify_event_records,
  verify_records, attempt_store, verify_event_store, verify_store, verify_event_tail, tail_count,
}
use agent_context_broker.EventStore.Chain.{
  Chain, Unrepeated, bind-ok, same_option_iff, verify_records-Chain,
}
use agent_context_broker.EventStore.Synced.{
  same_file_refl, IsSynced, verify_store_synced, verify_event_tail_synced,
}

same_head_iff : (h k : Head) → same_head h k ≡ true → h ≡ k
unfolding same_head
same_head_iff h k e =
    let number : h.sequence ≡ k.sequence = ground arith in
    let id = same_option_iff h.event_id k.event_id (ground arith) in
    let previous = same_option_iff h.previous_event_hash k.previous_event_hash (ground arith) in
    let at = same_option_iff h.recorded_at k.recorded_at (ground arith) in
    let hash : h.head_hash ≡ k.head_hash = ground (arith, eq_iff h.head_hash k.head_hash) in cc

length-nil {ℓ} : {A : Type ℓ} (xs : List A) → (length xs == 0) ≡ true → xs ≡ []
length-nil [] e = refl
length-nil (x ∷ xs) e = absurd (ground arith)

ok-injective {ℓ} : {A : Type ℓ} (a b : A) → Result.ok a ≡ ok b → a ≡ b
ok-injective a b e = ground arith

parse_head-ok {ℓ} :
    {A : Type ℓ} (h : HeadFile) (next : HeadFile → Result A) (a : A)
    → parse_head h >>= next ≡ ok a
    → next h ≡ ok a
parse_head-ok missing next a e = e
parse_head-ok no_json next a e = cc
parse_head-ok no_head next a e = e
parse_head-ok (head h) next a e = e

tail_count-positive : (count : Option ℕ) → 1 ≤ tail_count count
unfolding tail_count
tail_count-positive none = omega arith
tail_count-positive (some n) = ground arith

module _ (p : Platform) where
  -- The listed records are a chain of events, no key of which repeats, and the head names the newest
  -- of them; there is no head only if there is no event.
  pub record IsAccepted (st : Store) (v : Verified) : Type 0 where
    pub files : record_files st.records ≡ ok (map record_file v.events)
    pub chain : Chain p 1 none v.events
    pub unrepeated : Unrepeated [] v.events
    pub tip_now : v.tip ≡ expected_head p v.events
    pub head_now : ((st.head_file ≡ missing) × (v.events ≡ [])) ⊎ (st.head_file ≡ head v.tip)

  agrees-head :
      (h : HeadFile) (v : Verified)
      → agrees_or_new p h v ≡ true
      → ((h ≡ missing) × (v.events ≡ [])) ⊎ (h ≡ head v.tip)
  agrees-head missing v e = inl (refl, length-nil v.events e)
  agrees-head no_json v e = cc
  agrees-head no_head v e = cc
  agrees-head (head h) v e = inr (ap head (same_head_iff h v.tip e))

  judge_store-ok :
      (h : HeadFile) (v w : Verified)
      → judge_store p h false v ≡ ok (some w)
      → (v ≡ w) × (agrees_or_new p h v ≡ true)
  judge_store-ok h v w e = elim (Bool-cases (agrees_or_new p h v)) [
    | inl good ↦ (ground (arith, good), good)
    | inr bad ↦ absurd (ground (arith, bad))
  ]

  settle-ok :
      (st : Store) (v w : Verified)
      → settle (still st false) (λ h. judge_store p h false v) ≡ ok (some w)
      → judge_store p st.head_file false v ≡ ok (some w)
  settle-ok st v w e =
      parse_head-ok st.head_file (λ h. judge_store p h false v) (some w)
        (rw (same_file_refl st.head_file) at e)

  verify_event_store-ok :
      (n : ℕ) (r : Reading) (v : Verified)
      → verify_event_store p n (λ _. r) ≡ ok v
      → attempt_store p r ≡ ok (some v)
  unfolding verify_event_store
  verify_event_store-ok zero r v e = cc
  verify_event_store-ok (suc n) r v e =
      let (found, attempt, rest) = bind-ok (attempt_store p r) _ v e in
      elim (Option-cases found) [
        | inl nothing ↦ verify_event_store-ok n r v (rw nothing at rest)
        | inr (w, there) ↦
            let same : some w ≡ some v = ap some (ok-injective w v (rw there at rest)) in
            attempt ∙ ap ok (there ∙ same)
      ]

  verify_event_records-ok :
      (fs : List RecordFile) (v : Verified)
      → verify_event_records p fs ≡ ok v
      → (record_files fs ≡ ok (map record_file v.events))
        × Chain p 1 none v.events
        × Unrepeated [] v.events
        × (v.tip ≡ expected_head p v.events)
  unfolding verify_event_records
  verify_event_records-ok fs v e =
      let (paths, listed, e1) = bind-ok (record_files fs) _ v e in
      let (es, read, e2) = bind-ok (verify_records p paths 1 none []) _ v e1 in
      let (files, chain, unrepeated) = verify_records-Chain p paths 1 none [] es read in
      let same = ok-injective _ v e2 in
      subst
        (λ v.
          (record_files fs ≡ ok (map record_file v.events))
          × Chain p 1 none v.events
          × Unrepeated [] v.events
          × (v.tip ≡ expected_head p v.events))
        same (listed ∙ ap ok files, chain, unrepeated, refl)

-- If nobody writes, what `verifyEventStore` accepts is a chain of valid events from the first on, each
-- with the digests of its own fields and the id of the one before, numbered without a gap, with no key
-- twice; no other record is listed, and the head is that of the last event.
pub verify_store-IsAccepted :
    (p : Platform) (st : Store) (v : Verified) → verify_store p st ≡ ok v → IsAccepted p st v
unfolding verify_store attempt_store
verify_store-IsAccepted p st v e =
    let attempt = verify_event_store-ok p 3 (still st false) v e in
    let (w, read, judged) = bind-ok (verify_event_records p st.records) _ (some v) attempt in
    let (same, good) = judge_store-ok p st.head_file w v (settle-ok p st w v judged) in
    let (files, chain, unrepeated, tip_now) = verify_event_records-ok p st.records w read in
    subst (IsAccepted p st) same (record {
      files = files;
      chain = chain;
      unrepeated = unrepeated;
      tip_now = tip_now;
      head_now = agrees-head p st.head_file w good;
    })

-- On a store in step, `verifyEventTail` gives the newest events of those that `verifyEventStore` gives,
-- as many as it is asked for or 512, with the same head, and says whether some are left out; also while
-- the lock is held.
pub verify_event_tail-suffix :
    (p : Platform) (count : Option ℕ) (locked : Bool) (es : List Event) (st : Store)
    → IsSynced p es st
    → (verify_store p st ≡ ok (record { events = es; tip = expected_head p es }))
      × (verify_event_tail p (tail_count count) 3 (λ _. still st locked)
          ≡ ok (record {
            events = drop (length es - tail_count count) es;
            tip = expected_head p es;
            truncated = ltb 0 (length es - tail_count count);
          }))
verify_event_tail-suffix p count locked es st s = (
  verify_store_synced p es st s,
  verify_event_tail_synced p (tail_count count) 2 es st locked (tail_count-positive count) s,
)
