-- ===== src/Corrections/Observed.antt =====
-- What a decision that succeeds needs of the events of the store, said of the events themselves.
use agent_context_broker.Prelude.{
  ℕ, suc, ◌≤◌, ◌≡◌, refl, ap, subst, String, Bool, true, false, Option, none, some, List, [], ◌∷◌,
  ◌++◌, arith, eq_iff, Bool-cases, Option-cases, inl, inr, ◌⊎◌, All, length, find, contains, str_eq,
}
use agent_context_broker.Prelude.Text.{units}
use agent_context_broker.Platform.{Platform}
use agent_context_broker.Json.{Json, str, text}
use agent_context_broker.Json.Access.{get_field, same_text}
use agent_context_broker.EventStore.Event.{Event}
use agent_context_broker.EventStore.Files.{Store, max_sequence}
use agent_context_broker.EventStore.Append.{Appended}
use agent_context_broker.EventStore.Synced.{IsSynced}
use agent_context_broker.EventStore.Log.{log_one}
use agent_context_broker.Corrections.{
  Decision, ok, is_text, is_terminal, related, proposed, expected_proposal, proposal_in,
  expected_hash, decision_event, decide_correction,
}
use agent_context_broker.Corrections.Once.{IsPlanned, decide_correction-IsDecided}

abbrev pub IsAmong : Event → List Event → Type 0
IsAmong e es = (front back : List Event) × (es ≡ front ++ e ∷ back)

-- The event does not end the correction.
abbrev pub IsOpenFor : String → Event → Type 0
IsOpenFor ref e =
    str_eq e.input.subject_ref ref ≡ true
    → contains e.input.event_type ("correction.accepted" ∷ "correction.rejected" ∷ []) ≡ false

-- The decision has observed what the proposal has under the key.
abbrev pub Shows : Event → String → Decision → Type 0
Shows e key d = get_field (units key) e.input.payload ≡ some (text d.observed_revision_hash)

-- The event proposes the correction of the decision, under the id that it expects, and nothing has ended
-- it; what the decision has observed is the replacement if it accepts, or else the target's revision.
pub record IsPending (d : Decision) (es : List Event) (e : Event) : Type 0 where
  pub among : IsAmong e es
  pub proposes : e.input.event_type ≡ "correction.proposed"
  pub about : e.input.subject_ref ≡ d.correction_ref
  pub expected : e.event_id ≡ d.expected_proposal_event_id
  pub undecided : All (IsOpenFor d.correction_ref) es
  pub observed :
      ((d.decision ≡ "accept") × Shows e "replacementHash" d)
      ⊎ ((str_eq d.decision "accept" ≡ false) × Shows e "targetRevisionHash" d)

same_text_eq : (a b : List ℕ) → same_text a b ≡ true → a ≡ b
same_text_eq [] [] h = refl
same_text_eq [] (y ∷ b) h = cc
same_text_eq (x ∷ a) [] h = cc
same_text_eq (x ∷ a) (y ∷ b) h = ground (arith, same_text_eq a b)

is_text-some : (s : String) (o : Option Json) → is_text s o ≡ true → o ≡ some (text s)
is_text-some s (some (str cs)) h = ap (λ x. some (str x)) (same_text_eq cs (units s) h)
is_text-some s none h = cc
is_text-some s (some _) h = cc

module _ (p : Platform) where
  find-related :
      (test : Event → Bool) (ref : String) (es : List Event) (e : Event)
      → find test (related p ref es) ≡ some e
      → IsAmong e es × (e.input.subject_ref ≡ ref) × (test e ≡ true)
  find-related test ref [] e h = cc
  find-related test ref (f ∷ es) e h =
      let later : find test (related p ref es) ≡ some e
          → IsAmong e (f ∷ es) × (e.input.subject_ref ≡ ref) × (test e ≡ true) =
        λ g.
          let ((front, back, split), about, passes) = find-related test ref es e g in
          ((f ∷ front, back, ap (λ x. f ∷ x) split), about, passes) in
      elim (Bool-cases (str_eq f.input.subject_ref ref)) [
        | inr other ↦ later (rw other at h)
        | inl mine ↦ elim (Bool-cases (test f)) [
          | inr fails ↦ later (rw (mine, fails) at h)
          | inl passes ↦
              let same : f ≡ e = cc (rw (mine, passes) at h) in
              (
                ([], es, ap (λ x. x ∷ es) same),
                subst (λ x. x.input.subject_ref ≡ ref) same
                    ((eq_iff f.input.subject_ref ref).0 mine),
                subst (λ x. test x ≡ true) same passes,
              )
        ]
      ]

  none-related :
      (ref : String) (es : List Event)
      → find (is_terminal p) (related p ref es) ≡ none
      → All (IsOpenFor ref) es
  none-related ref [] h = tt
  none-related ref (f ∷ es) h = elim (Bool-cases (str_eq f.input.subject_ref ref)) [
    | inr other ↦ (λ mine. cc (mine, other), none-related ref es (rw other at h))
    | inl mine ↦ elim (Bool-cases (is_terminal p f)) [
      | inl ended ↦ cc (rw (mine, ended) at h)
      | inr goes_on ↦ (λ again. goes_on, none-related ref es (rw (mine, goes_on) at h))
    ]
  ]

  expected_proposal-ok :
      (d : Decision) (o t : Option Event) (e : Event)
      → expected_proposal p d o t ≡ ok e
      → (o ≡ some e) × (e.event_id ≡ d.expected_proposal_event_id) × (t ≡ none)
  expected_proposal-ok d none t e h = cc
  expected_proposal-ok d (some f) t e h =
      elim (Bool-cases (str_eq f.event_id d.expected_proposal_event_id)) [
        | inr other ↦ cc (rw other at h)
        | inl id ↦ elim (Option-cases t) [
          | inr (x, ended) ↦ cc (rw (id, ended) at h)
          | inl undecided ↦
              let same : f ≡ e = cc (rw (id, undecided) at h) in
              (
                ap some same,
                subst (λ x. x.event_id ≡ d.expected_proposal_event_id) same
                    ((eq_iff f.event_id d.expected_proposal_event_id).0 id),
                undecided,
              )
        ]
      ]

  observed_cases :
      (d : Decision) (e : Event)
      → is_text d.observed_revision_hash (expected_hash p d e) ≡ true
      → ((d.decision ≡ "accept") × Shows e "replacementHash" d)
        ⊎ ((str_eq d.decision "accept" ≡ false) × Shows e "targetRevisionHash" d)
  observed_cases d e h = elim (Bool-cases (str_eq d.decision "accept")) [
    | inl accepts ↦ inl (
      (eq_iff d.decision "accept").0 accepts,
      is_text-some d.observed_revision_hash _ (rw accepts at h),
    )
    | inr rejects ↦ inr (rejects, is_text-some d.observed_revision_hash _ (rw rejects at h))
  ]

  planned-IsPending :
      (d : Decision) (es : List Event) (e : Event) → IsPlanned p d es e → IsPending d es e
  unfolding proposal_in
  planned-IsPending d es e x =
      let (found, expected, undecided) =
        expected_proposal-ok d (proposed p (related p d.correction_ref es))
          (find (is_terminal p) (related p d.correction_ref es)) e x.found in
      let (among, about, proposes) = find-related _ d.correction_ref es e found in
      record {
        among = among;
        proposes = (eq_iff e.input.event_type "correction.proposed").0 proposes;
        about = about;
        expected = expected;
        undecided = none-related d.correction_ref es undecided;
        observed = observed_cases d e x.observed;
      }

-- A decision that succeeds, while nobody else writes: some event of the store proposes its correction
-- under the id that it expects, none accepts or rejects that correction, and the decision has observed the
-- replacement if it accepts, or else the target's revision. The store is then in step with the list that
-- has the decision's event, behind the others if its key is new.
pub decide_correction-IsPending :
    (p : Platform) (locked : Bool) (now : ℕ) (d : Decision) (es : List Event) (st : Store)
    (r : Appended)
    → IsSynced p es st
    → suc (length es) ≤ max_sequence
    → (decide_correction p true locked now d st st st).0 ≡ ok r
    → (e : Event) × IsPending d es e
      × (r ≡ (log_one p (p.to_iso now) (decision_event p d e) es).0)
      × IsSynced p
          (log_one p (p.to_iso now) (decision_event p d e) es).1
          (decide_correction p true locked now d st st st).1
decide_correction-IsPending p locked now d es st r s h e =
    let x = decide_correction-IsDecided p locked now d es st r s h e in
    (x.proposal, planned-IsPending p d es x.proposal x.planned, x.result, x.synced)
