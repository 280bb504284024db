-- ===== src/Corrections/Once.antt =====
-- What a decision of src/corrections.mts has read, and that a correction is decided once.
use agent_context_broker.Prelude.{
  ℕ, suc, ◌≤◌, ◌≡◌, refl, sym, ap, subst, ◌∙◌, String, Bool, true, false, Option, none, some, List,
  [], ◌∷◌, ◌++◌, arith, eq_iff, Bool-cases, Option-cases, inl, inr, ◌⊎◌, length, find, str_eq,
}
use agent_context_broker.Platform.{Platform}
use agent_context_broker.EventStore.Event.{Event, EventInput, build_event, stored_input}
use agent_context_broker.EventStore.Validate.{EventError, validate_event_input, busy}
use agent_context_broker.EventStore.Files.{Store, max_sequence, expected_head}
use agent_context_broker.EventStore.Files as Files
use agent_context_broker.EventStore.Append.{
  Appended, append_broker_event, append_broker_events, check_arguments,
}
use agent_context_broker.EventStore.Listing.{tip}
use agent_context_broker.EventStore.Synced.{IsSynced, verify_store_synced}
use agent_context_broker.EventStore.Lookup.{find_key}
use agent_context_broker.EventStore.Log.{log_one, log_found}
use agent_context_broker.EventStore.Batches.{append_broker_event_lem}
use agent_context_broker.Corrections.{
  Decision, CorrectionError, invalid_decision, proposal_mismatch, already_decided,
  revision_mismatch, Result, ok, err, ◌>>=◌, ◌>>◌, require, valid_decision, is_text, is_terminal,
  is_accept, related, proposed, expected_proposal, proposal_in, find_proposal, expected_hash,
  plan_correction_decision, decision_event, appended, decide_found, decide_correction,
}

bind-ok {ℓ κ} :
    {A : Type ℓ} {B : Type κ} (m : Result A) (f : A → Result B) (b : B)
    → m >>= f ≡ ok b
    → (a : A) × (m ≡ ok a) × (f a ≡ ok b)
bind-ok (ok a) f b e = (a, refl, e)
bind-ok (err x) f b e = cc

require-ok {ℓ} :
    {B : Type ℓ} (test : Bool) (e : CorrectionError) (k : Result B) (b : B)
    → require test e >> k ≡ ok b
    → (test ≡ true) × (k ≡ ok b)
require-ok true e k b same = (refl, same)
require-ok false e k b same = cc

module _ (p : Platform) where
  pub find_proposal_synced :
      (d : Decision) (es : List Event) (st : Store)
      → IsSynced p es st
      → find_proposal p d st ≡ proposal_in p d es
  unfolding find_proposal
  find_proposal_synced d es st s = rw (verify_store_synced p es st s) refl

  -- The decision found its proposal, undecided, and has observed the revision that it stands for.
  pub record IsPlanned (d : Decision) (es : List Event) (e : Event) : Type 0 where
    pub valid : valid_decision d ≡ true
    pub found : proposal_in p d es ≡ ok e
    pub observed : is_text d.observed_revision_hash (expected_hash p d e) ≡ true

  plan-IsPlanned :
      (d : Decision) (es : List Event) (st : Store) (e : Event)
      → IsSynced p es st
      → plan_correction_decision p d st ≡ ok e
      → IsPlanned d es e
  unfolding plan_correction_decision
  plan-IsPlanned d es st e s h =
      let (valid, h1) = require-ok (valid_decision d) invalid_decision _ e h in
      let (f, found, h2) = bind-ok (find_proposal p d st) _ e h1 in
      let (observed, h3) =
        require-ok (is_text d.observed_revision_hash (expected_hash p d f)) revision_mismatch (ok f)
          e h2 in
      let same : f ≡ e = ground arith in
      subst (IsPlanned d es) same (record {
        valid = valid;
        found = sym (find_proposal_synced d es st s) ∙ found;
        observed = observed;
      })

  -- The two reads agree while nobody writes.
  found-IsPlanned :
      (d : Decision) (es : List Event) (st : Store) (e : Event)
      → IsSynced p es st
      → plan_correction_decision p d st >>= (λ _. find_proposal p d st) ≡ ok e
      → IsPlanned d es e
  found-IsPlanned d es st e s h =
      let (f, planned, again) = bind-ok (plan_correction_decision p d st) _ e h in
      let plan = plan-IsPlanned d es st f s planned in
      let first = plan.found in
      let second = sym (find_proposal_synced d es st s) ∙ again in
      let same : f ≡ e = ground arith in subst (IsPlanned d es) same plan

  append_invalid :
      (locked : Bool) (now : ℕ) (i : EventInput) (st : Store) (x : EventError)
      → validate_event_input i ≡ some x
      → append_broker_event p true locked now i st ≡ (Files.err x, st)
  unfolding append_broker_event append_broker_events check_arguments
  append_invalid locked now i st x h = rw h refl

  append_busy :
      (now : ℕ) (i : EventInput) (st : Store)
      → validate_event_input i ≡ none
      → append_broker_event p true false now i st ≡ (Files.err busy, st)
  unfolding append_broker_event append_broker_events check_arguments
  append_busy now i st h = rw h refl

  append_valid-ok :
      (locked : Bool) (now : ℕ) (i : EventInput) (es : List Event) (st : Store) (r : Appended)
      → IsSynced p es st
      → suc (length es) ≤ max_sequence
      → validate_event_input i ≡ none
      → (appended p (append_broker_event p true locked now i st)).0 ≡ ok r
      → (r ≡ (log_one p (p.to_iso now) i es).0)
        × IsSynced p
            (log_one p (p.to_iso now) i es).1
            (appended p (append_broker_event p true locked now i st)).1
  append_valid-ok false now i es st r s h v e = cc (rw (append_busy now i st v) at e)
  append_valid-ok true now i es st r s h v e =
      let (t, run, synced) = append_broker_event_lem p now i es st s v h in
      let ran = ap (λ x. (appended p x).0) run in
      let same : r ≡ (log_one p (p.to_iso now) i es).0 = ground (arith, sym e ∙ ran) in
      (
        same,
        subst (λ x. IsSynced p (log_one p (p.to_iso now) i es).1 (appended p x).1) (sym run) synced,
      )

  -- What is appended to a store in step was valid, and the lock was taken.
  append-ok :
      (locked : Bool) (now : ℕ) (i : EventInput) (es : List Event) (st : Store) (r : Appended)
      → IsSynced p es st
      → suc (length es) ≤ max_sequence
      → (appended p (append_broker_event p true locked now i st)).0 ≡ ok r
      → (r ≡ (log_one p (p.to_iso now) i es).0)
        × IsSynced p
            (log_one p (p.to_iso now) i es).1
            (appended p (append_broker_event p true locked now i st)).1
  append-ok locked now i es st r s h e = elim (Option-cases (validate_event_input i)) [
    | inr (x, bad) ↦ cc (rw (append_invalid locked now i st x bad) at e)
    | inl good ↦ append_valid-ok locked now i es st r s h good e
  ]

  -- A decision that succeeds: what it has read, and what it leaves.
  pub record IsDecided (now : ℕ) (d : Decision) (es : List Event) (r : Appended) (t : Store)
      : Type 0 where
    pub proposal : Event
    pub planned : IsPlanned d es proposal
    pub result : r ≡ (log_one p (p.to_iso now) (decision_event p d proposal) es).0
    pub synced : IsSynced p (log_one p (p.to_iso now) (decision_event p d proposal) es).1 t

  decide_found-IsDecided :
      (locked : Bool) (now : ℕ) (d : Decision) (es : List Event) (st : Store) (r : Appended)
      (o : Result Event)
      → ((e : Event) → o ≡ ok e → IsPlanned d es e)
      → IsSynced p es st
      → suc (length es) ≤ max_sequence
      → (decide_found p locked now d st o).0 ≡ ok r
      → IsDecided now d es r (decide_found p locked now d st o).1
  decide_found-IsDecided locked now d es st r (err x) plan s h e = cc
  decide_found-IsDecided locked now d es st r (ok f) plan s h e =
      let (result, synced) = append-ok locked now (decision_event p d f) es st r s h e in
      record { proposal = f; planned = plan f refl; result = result; synced = synced }

  -- What the code has found, by its own tests, and what it has appended.
  pub decide_correction-IsDecided :
      (locked : Bool) (now : ℕ) (d : Decision) (es : List Event) (st : Store) (r : Appended)
      → IsSynced p es st
      → suc (length es) ≤ max_sequence
      → (decide_correction p true locked now d st st st).0 ≡ ok r
      → IsDecided now d es r (decide_correction p true locked now d st st st).1
  unfolding decide_correction
  decide_correction-IsDecided locked now d es st r s h e =
      decide_found-IsDecided locked now d es st r
        (plan_correction_decision p d st >>= λ _. find_proposal p d st)
        (λ f. found-IsPlanned d es st f s) s h e

  -- The errors of a decision that comes too late, or was none.
  abbrev pub IsRefused : Result Appended → Type 0
  IsRefused r =
      (r ≡ err invalid_decision) ⊎ ((r ≡ err proposal_mismatch) ⊎ (r ≡ err already_decided))

  -- Some event behind `es` ends the correction.
  pub related-append :
      (ref : String) (es ds : List Event)
      → related p ref (es ++ ds) ≡ related p ref es ++ related p ref ds
  related-append ref [] ds = refl
  related-append ref (e ∷ es) ds = ground (arith, related-append ref es ds)

  find-snoc :
      {A : Type 0} (test : A → Bool) (xs : List A) (x : A)
      → test x ≡ true
      → (y : A) × (find test (xs ++ x ∷ []) ≡ some y)
  find-snoc test [] x h = (x, rw h refl)
  find-snoc test (y ∷ xs) x h = elim (Bool-cases (test y)) [
    | inl here ↦ (y, rw here refl)
    | inr other ↦ let (z, there) = find-snoc test xs x h in (z, rw other there)
  ]

  decision_event-terminal :
      (d : Decision) (e : Event) (n : ℕ) (previous : Option String) (at : String)
      → is_terminal p (build_event p (decision_event p d e) n previous at) ≡ true
  unfolding build_event stored_input decision_event
  decision_event-terminal d e n previous at = elim (Bool-cases (is_accept p d)) [
    | inl yes_ ↦ rw yes_ refl
    | inr no_ ↦ rw no_ refl
  ]

  decision_event-subject :
      (d : Decision) (e : Event) (n : ℕ) (previous : Option String) (at : String)
      → (build_event p (decision_event p d e) n previous at).input.subject_ref ≡ d.correction_ref
  unfolding build_event stored_input decision_event
  decision_event-subject d e n previous at = refl

  log_found-fresh :
      (at : String) (i : EventInput) (es : List Event) (o : Option Event)
      → (log_found p at i es o).0.replay ≡ false
      → (log_found p at i es o).1 ≡ es ++ build_event p i (suc (length es)) (tip none es) at ∷ []
  log_found-fresh at i es none h = refl
  log_found-fresh at i es (some e) h = cc

  pub log_one-fresh :
      (at : String) (i : EventInput) (es : List Event)
      → (log_one p at i es).0.replay ≡ false
      → (log_one p at i es).1 ≡ es ++ build_event p i (suc (length es)) (tip none es) at ∷ []
  unfolding log_one
  log_one-fresh at i es h = log_found-fresh at i es (find_key i.idempotency_key es) h

  decided-terminal :
      (now : ℕ) (d : Decision) (es : List Event) (r : Appended) (t : Store)
      → (x : IsDecided now d es r t) → r.replay ≡ false
      → (f : Event) × (find (is_terminal p) (
            related p d.correction_ref
              (log_one p (p.to_iso now) (decision_event p d x.proposal) es).1)
          ≡ some f)
  decided-terminal now d es r t x fresh =
      let at = p.to_iso now in
      let e = build_event p (decision_event p d x.proposal) (suc (length es)) (tip none es) at in
      let grown = log_one-fresh at (decision_event p d x.proposal) es (rw x.result at fresh) in
      let about : str_eq e.input.subject_ref d.correction_ref ≡ true = ground (
        arith,
        eq_iff e.input.subject_ref d.correction_ref,
        decision_event-subject d x.proposal (suc (length es)) (tip none es) at,
      ) in
      let (f, found) =
        find-snoc (is_terminal p) (related p d.correction_ref es) e
          (decision_event-terminal d x.proposal (suc (length es)) (tip none es) at) in
      let last_related : related p d.correction_ref (e ∷ []) ≡ e ∷ [] = rw about refl in
      (f, rw grown (rw (related-append d.correction_ref es (e ∷ [])) (rw last_related found)))

  expected_proposal-terminal :
      (d : Decision) (o : Option Event) (f : Event)
      → (expected_proposal p d o (some f) ≡ err proposal_mismatch)
        ⊎ (expected_proposal p d o (some f) ≡ err already_decided)
  expected_proposal-terminal d none f = inl refl
  expected_proposal-terminal d (some e) f =
      elim (Bool-cases (str_eq e.event_id d.expected_proposal_event_id)) [
        | inl same ↦ inr (rw same refl)
        | inr other ↦ inl (rw other refl)
      ]

  proposal_in-terminal :
      (d : Decision) (es : List Event) (f : Event)
      → find (is_terminal p) (related p d.correction_ref es) ≡ some f
      → (proposal_in p d es ≡ err proposal_mismatch) ⊎ (proposal_in p d es ≡ err already_decided)
  unfolding proposal_in
  proposal_in-terminal d es f h =
      rw h (expected_proposal-terminal d (proposed p (related p d.correction_ref es)) f)

  plan-refused :
      (d : Decision) (st : Store) (x : CorrectionError)
      → find_proposal p d st ≡ err x
      → (plan_correction_decision p d st ≡ err invalid_decision)
        ⊎ (plan_correction_decision p d st ≡ err x)
  unfolding plan_correction_decision
  plan-refused d st x h = elim (Bool-cases (valid_decision d)) [
    | inl good ↦ inr (rw good (rw h refl))
    | inr bad ↦ inl (rw bad refl)
  ]

  pub decide-err :
      (locked : Bool) (now : ℕ) (d : Decision) (st : Store) (x : CorrectionError)
      → plan_correction_decision p d st ≡ err x
      → decide_correction p true locked now d st st st ≡ (err x, st)
  unfolding decide_correction
  decide-err locked now d st x h = rw h refl

  -- A correction that some event has ended is not decided again.
  decide-terminal :
      (locked : Bool) (now : ℕ) (d : Decision) (es : List Event) (st : Store) (f : Event)
      → IsSynced p es st
      → find (is_terminal p) (related p d.correction_ref es) ≡ some f
      → ((decide_correction p true locked now d st st st).1 ≡ st)
        × IsRefused (decide_correction p true locked now d st st st).0
  decide-terminal locked now d es st f s h =
      let read = find_proposal_synced d es st s in
      let refuse : (x : CorrectionError)
          → IsRefused (err x)
          → plan_correction_decision p d st ≡ err x
          → ((decide_correction p true locked now d st st st).1 ≡ st)
            × IsRefused (decide_correction p true locked now d st st st).0 =
        λ x why e. (
          ap (λ y. y.1) (decide-err locked now d st x e),
          subst (λ y. IsRefused y.0) (sym (decide-err locked now d st x e)) why,
        ) in
      elim (proposal_in-terminal d es f h) [
        | inl mismatch ↦ elim (plan-refused d st proposal_mismatch (read ∙ mismatch)) [
          | inl e ↦ refuse invalid_decision (inl refl) e
          | inr e ↦ refuse proposal_mismatch (inr (inl refl)) e
        ]
        | inr ended ↦ elim (plan-refused d st already_decided (read ∙ ended)) [
          | inl e ↦ refuse invalid_decision (inl refl) e
          | inr e ↦ refuse already_decided (inr (inr refl)) e
        ]
      ]

-- After a decision that succeeds, while nobody else writes between its reads and its append, and that
-- is no replay, every other decision on the same correction is refused as invalid, as one for another
-- proposal, or as one that comes too late, and changes nothing.
pub decide_correction-once :
    (p : Platform) (locked locked2 : Bool) (now now2 : ℕ) (d d2 : Decision) (es : List Event)
    (st : Store) (r : Appended)
    → IsSynced p es st
    → suc (length es) ≤ max_sequence
    → (decide_correction p true locked now d st st st).0 ≡ ok r
    → r.replay ≡ false
    → d2.correction_ref ≡ d.correction_ref
    → let t = (decide_correction p true locked now d st st st).1 in
      ((decide_correction p true locked2 now2 d2 t t t).1 ≡ t)
      × IsRefused p (decide_correction p true locked2 now2 d2 t t t).0
decide_correction-once p locked locked2 now now2 d d2 es st r s h e fresh same =
    let x = decide_correction-IsDecided p locked now d es st r s h e in
    let (f, ended) =
      decided-terminal p now d es r (decide_correction p true locked now d st st st).1 x fresh in
    decide-terminal p locked2 now2 d2
      (log_one p (p.to_iso now) (decision_event p d x.proposal) es).1
      (decide_correction p true locked now d st st st).1 f x.synced (rw same ended)
