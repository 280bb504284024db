-- ===== src/Corrections/Decisions.antt =====
-- A valid decision of src/corrections.mts on a pending proposal succeeds.
use agent_context_broker.Prelude.{
  ℕ, ◌≡◌, refl, ◌∙◌, String, Bool, true, ◌&&◌, none, some, List, [], ◌∷◌, ◌++◌, arith, Bool-cases,
  inl, inr, contains, ◌==◌, all,
}
use agent_context_broker.Prelude.Text.{units, is_hash, is_lower}
use agent_context_broker.Platform.{Platform}
use agent_context_broker.Json.{Json}
use agent_context_broker.EventStore.Event.{Event}
use agent_context_broker.EventStore.Validate.{
  validate_event_input, valid_identity, valid_references, valid_freshness, valid_policy, valid_date,
  valid_payload, safe_fields, safe_value, is_reference, reference_tail, reference_kind, after,
  policy_name, valid_reference_list, distinct, null_or,
}
use agent_context_broker.EventStore.Build.{valid_date-iso_time}
use agent_context_broker.Json.Access.{get_field}
use agent_context_broker.Corrections.{
  Decision, valid_decision, valid_refs, is_correction_ref, after_prefix, deciders, decision_event,
  decision_key, is_accept,
}
use agent_context_broker.Corrections.Valid.{
  IsInput, IsInput-valid, and-split, safe_text, hash-safe, contains-all, decider-provider,
  valid_refs-list,
}

-- `correction/` and a digest is a kind and a digest.
tail-after_prefix :
    (as' cs : List ℕ)
    → all is_lower as' ≡ true
    → after_prefix (as' ++ b'/' ∷ []) cs ≡ true
    → reference_tail cs ≡ true
unfolding reference_tail
tail-after_prefix [] [] low h = cc
tail-after_prefix [] (c ∷ cs) low h = ground arith
tail-after_prefix (a ∷ as') [] low h = cc
tail-after_prefix (a ∷ as') (c ∷ cs) low h = ground (arith, tail-after_prefix as' cs)

kind-after_prefix :
    (cs : List ℕ) → after_prefix (units "correction/") cs ≡ true → reference_kind cs ≡ true
kind-after_prefix [] h = cc
kind-after_prefix (c ∷ cs) h =
    let (first, rest) = and-split (b'c' == c) _ h in
    let low : is_lower c ≡ true = ground arith in
    rw low (tail-after_prefix (units "orrection") cs refl rest)

after-after_prefix :
    (xs ys cs : List ℕ) (test : List ℕ → Bool)
    → ((ds : List ℕ) → after_prefix ys ds ≡ true → test ds ≡ true)
    → after_prefix (xs ++ ys) cs ≡ true
    → after xs test cs ≡ true
after-after_prefix [] ys cs test t h = t cs h
after-after_prefix (x ∷ xs) ys [] test t h = cc
after-after_prefix (x ∷ xs) ys (c ∷ cs) test t h =
    let (first, rest) = and-split (x == c) _ h in rw first (after-after_prefix xs ys cs test t rest)

correction_ref-reference : (s : String) → is_correction_ref s ≡ true → is_reference s ≡ true
unfolding is_correction_ref is_reference
correction_ref-reference s h =
    after-after_prefix (units "acb://") (units "correction/") (units s) reference_kind
      kind-after_prefix h

-- What `validateDecision` has checked.
pub record IsDecision (d : Decision) : Type 0 where
  pub about : is_correction_ref d.correction_ref ≡ true
  pub named : is_hash d.expected_proposal_event_id ≡ true
  pub verdict : contains d.decision ("accept" ∷ "reject" ∷ []) ≡ true
  pub observed : is_hash d.observed_revision_hash ≡ true
  pub evidence : valid_refs d.evidence_refs ≡ true
  pub decider : contains d.decided_by deciders ≡ true
  pub dated : valid_date d.occurred_at ≡ true

pub valid_decision-IsDecision : (d : Decision) → valid_decision d ≡ true → IsDecision d
unfolding valid_decision
valid_decision-IsDecision d h =
    let (h7, dated) = and-split _ _ h in
    let (h6, decider) = and-split _ _ h7 in
    let (h5, evidence) = and-split _ _ h6 in
    let (h4, observed) = and-split _ _ h5 in
    let (h3, verdict) = and-split _ _ h4 in
    let (h2, named) = and-split _ _ h3 in
    let (version, about) = and-split _ _ h2 in
    record {
      about = about;
      named = named;
      verdict = verdict;
      observed = observed;
      evidence = evidence;
      decider = decider;
      dated = dated;
    }

module _ (p : Platform) (hashes : (t : List ℕ) → is_hash (p.sha256 t) ≡ true) where
  decision_event-identity :
      (d : Decision) (e : Event) → IsDecision d → valid_identity (decision_event p d e) ≡ true
  unfolding decision_event valid_identity
  decision_event-identity d e v =
      let date = valid_date-iso_time p d.occurred_at ∙ v.dated in
      let provider = decider-provider d.decided_by v.decider in
      let key : is_hash (decision_key p d) ≡ true = unfold decision_key in hashes _ in
      elim (Bool-cases (is_accept p d)) [
        | inl accepts ↦ rw (accepts, key, date, provider) refl
        | inr rejects ↦ rw (rejects, key, date, provider) refl
      ]

  decision_event-references :
      (d : Decision) (e : Event)
      → IsDecision d
      → IsInput e.input
      → valid_references (decision_event p d e) ≡ true
  unfolding decision_event valid_references
  decision_event-references d e v i =
      let refs = valid_refs-list d.evidence_refs v.evidence in
      let none_there : valid_reference_list [] ≡ true =
        unfold valid_reference_list distinct in refl in
      let subject = correction_ref-reference d.correction_ref v.about in
      let (rest, evidence) =
        and-split _ (valid_reference_list e.input.evidence_refs) i.references in
      let (front, replaces) =
        and-split (valid_reference_list e.input.source_refs && is_reference e.input.subject_ref)
          (null_or is_reference e.input.replaces_ref) rest in
      rw (none_there, subject, replaces, refs) refl

  decision_event-freshness :
      (d : Decision) (e : Event)
      → IsDecision d
      → valid_freshness (decision_event p d e).freshness ≡ true
  unfolding decision_event valid_freshness policy_name
  decision_event-freshness d e v =
      let date = valid_date-iso_time p d.occurred_at ∙ v.dated in
      let head = v.observed in ground (arith, date, head)

  decision_event-policy :
      (d : Decision) (e : Event) (w : Json)
      → IsDecision d
      → IsInput e.input
      → is_hash e.event_id ≡ true
      → get_field (units "targetRevisionHash") e.input.payload ≡ some w
      → safe_value w ≡ true
      → valid_policy (decision_event p d e) ≡ true
  unfolding decision_event valid_policy valid_payload safe_fields
  decision_event-policy d e w v i named there safe =
      let verdict =
        contains-all safe_text d.decision ("accept" ∷ "reject" ∷ []) (unfold safe_value in refl)
          v.verdict in
      let id = hash-safe e.event_id named in
      let observed = hash-safe d.observed_revision_hash v.observed in
      let (rest, payload) = and-split _ (valid_payload e.input.payload) i.policy in
      let (rest2, approval) =
        and-split _
          (contains e.input.approval_state
            ("not-required" ∷ "pending" ∷ "approved" ∷ "rejected" ∷ []))
          rest in
      let (sensitive, clean) =
        and-split (contains e.input.sensitivity ("shared" ∷ "private" ∷ []))
          (contains e.input.redaction_result ("clean" ∷ "suppressed" ∷ [])) rest2 in
      elim (Bool-cases (is_accept p d)) [
        | inl accepts ↦ rw (accepts, there) (ground (arith, verdict, id, observed, sensitive, safe))
        | inr rejects ↦ rw (rejects, there) (ground (arith, verdict, id, observed, sensitive, safe))
      ]

  -- The event of a valid decision is a valid input, if the proposal's is and has a revision.
  pub decision_event-valid :
      (d : Decision) (e : Event) (w : Json)
      → IsDecision d
      → IsInput e.input
      → is_hash e.event_id ≡ true
      → get_field (units "targetRevisionHash") e.input.payload ≡ some w
      → safe_value w ≡ true
      → validate_event_input (decision_event p d e) ≡ none
  decision_event-valid d e w v i named there safe = IsInput-valid (decision_event p d e) (record {
    identity = decision_event-identity d e v;
    scoped = unfold decision_event in i.scoped;
    task = unfold decision_event in i.task;
    thread = unfold decision_event in i.thread;
    references = decision_event-references d e v i;
    weighed = unfold decision_event in i.weighed;
    fresh = decision_event-freshness d e v;
    policy = decision_event-policy d e w v i named there safe;
  })
