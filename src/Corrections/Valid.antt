-- ===== src/Corrections/Valid.antt =====
-- The events that src/corrections.mts makes of valid proposals and decisions are valid inputs of the
-- event store.
use agent_context_broker.Prelude.{
  ℕ, ◌≡◌, refl, subst, ◌∙◌, String, Bool, true, false, not, ◌&&◌, Option, none, some, List, [], ◌∷◌,
  arith, eq_iff, Bool-cases, inl, inr, contains, str_eq, all, if◌then◌else◌,
}
use agent_context_broker.Prelude.Text.{is_hash}
use agent_context_broker.Platform.{Platform}
use agent_context_broker.Json.{text}
use agent_context_broker.EventStore.Event.{EventInput, text_or_null}
use agent_context_broker.EventStore.Validate.{
  EventError, validate_event_input, valid_identity, valid_scope, valid_references, valid_freshness,
  valid_policy, valid_date, valid_payload, safe_fields, safe_value, providers, is_reference,
  reference_tail, policy_name, valid_reference_list, distinct, null_or,
}
use agent_context_broker.EventStore.Build.{valid_date-iso_time}
use agent_context_broker.Corrections.{
  Proposal, valid_proposal, valid_refs, deciders, correction_kinds, dispositions, approval_classes,
  proposal_id, correction_ref_of, proposal_event,
}

pub decider-provider : (s : String) → contains s deciders ≡ true → contains s providers ≡ true
decider-provider s h = ground arith

pub contains-all :
    (test : String → Bool) (s : String) (ss : List String)
    → all test ss ≡ true
    → contains s ss ≡ true
    → test s ≡ true
contains-all test s [] a h = cc
contains-all test s (t ∷ ss) a h = elim (Bool-cases (str_eq t s)) [
  | inl e ↦
      let same : t ≡ s = ground (arith, eq_iff t s, e) in
      let here : test t ≡ true = ground arith in subst (λ s. test s ≡ true) same here
  | inr n ↦ contains-all test s ss (ground arith) (ground (arith, n))
]

abbrev pub safe_text : String → Bool
safe_text s = safe_value (text s)

pub hash-safe : (s : String) → is_hash s ≡ true → safe_text s ≡ true
unfolding safe_value
hash-safe s h = rw h refl

pub and-split : (a b : Bool) → (a && b) ≡ true → (a ≡ true) × (b ≡ true)
and-split true b h = (refl, h)
and-split false b h = cc

-- What `validateEventInput` checks.
pub record IsInput (i : EventInput) : Type 0 where
  pub identity : valid_identity i ≡ true
  pub scoped : valid_scope i.scope ≡ true
  pub task : null_or is_hash i.task_key_hash ≡ true
  pub thread : null_or is_hash i.thread_key ≡ true
  pub references : valid_references i ≡ true
  pub weighed : null_or (λ n. n.is_fraction) i.confidence ≡ true
  pub fresh : valid_freshness i.freshness ≡ true
  pub policy : valid_policy i ≡ true

pub IsInput-valid : (i : EventInput) → IsInput i → validate_event_input i ≡ none
unfolding validate_event_input
IsInput-valid i v =
    rw (v.identity, v.scoped, v.task, v.thread, v.references, v.weighed, v.fresh, v.policy) refl

guard-none :
    (test : Bool) (x : EventError) (rest : Option EventError)
    → (if not test then some x else rest) ≡ none
    → (test ≡ true) × (rest ≡ none)
guard-none true x rest h = (refl, h)
guard-none false x rest h = cc

pub valid-IsInput : (i : EventInput) → validate_event_input i ≡ none → IsInput i
unfolding validate_event_input
valid-IsInput i h =
    let (identity, h1) = guard-none _ _ _ h in
    let (scoped, h2) = guard-none _ _ _ h1 in
    let (related, h3) = guard-none _ _ _ h2 in
    let (task, thread) = and-split _ _ related in
    let (references, h4) = guard-none _ _ _ h3 in
    let (weighed, h5) = guard-none _ _ _ h4 in
    let (fresh, h6) = guard-none _ _ _ h5 in
    let (policy, h7) = guard-none _ _ _ h6 in
    record {
      identity = identity;
      scoped = scoped;
      task = task;
      thread = thread;
      references = references;
      weighed = weighed;
      fresh = fresh;
      policy = policy;
    }

-- What `validateProposal` has checked.
pub record IsProposal (c : Proposal) : Type 0 where
  pub key : is_hash c.proposal_key ≡ true
  pub target : is_reference c.target_ref ≡ true
  pub revision : is_hash c.target_revision_hash ≡ true
  pub kind : contains c.correction_kind correction_kinds ≡ true
  pub disposed : contains c.disposition dispositions ≡ true
  pub replaced : null_or is_hash c.replacement_hash ≡ true
  pub evidence : valid_refs c.evidence_refs ≡ true
  pub weighed : c.confidence.is_fraction ≡ true
  pub scoped : valid_scope c.scope ≡ true
  pub requested : contains c.requested_by deciders ≡ true
  pub class : contains c.approval_class approval_classes ≡ true
  pub sensitive : contains c.sensitivity ("shared" ∷ "private" ∷ []) ≡ true
  pub dated : valid_date c.occurred_at ≡ true

pub valid_proposal-IsProposal : (c : Proposal) → valid_proposal c ≡ true → IsProposal c
unfolding valid_proposal
valid_proposal-IsProposal c h =
    let (h14, private) = and-split _ _ h in
    let (h13, dated) = and-split _ _ h14 in
    let (h12, sensitive) = and-split _ _ h13 in
    let (h11, class) = and-split _ _ h12 in
    let (h10, requested) = and-split _ _ h11 in
    let (h9, scoped) = and-split _ _ h10 in
    let (h8, weighed) = and-split _ _ h9 in
    let (h7, evidence) = and-split _ _ h8 in
    let (h6, coherent) = and-split _ _ h7 in
    let (h5, replaced) = and-split _ _ h6 in
    let (h4, disposed) = and-split _ _ h5 in
    let (h3, kind) = and-split _ _ h4 in
    let (h2, revision) = and-split _ _ h3 in
    let (h1, target) = and-split _ _ h2 in
    let (version, key) = and-split _ _ h1 in
    record {
      key = key;
      target = target;
      revision = revision;
      kind = kind;
      disposed = disposed;
      replaced = replaced;
      evidence = evidence;
      weighed = weighed;
      scoped = scoped;
      requested = requested;
      class = class;
      sensitive = sensitive;
      dated = dated;
    }

replacement-safe :
    (o : Option String) → null_or is_hash o ≡ true → safe_value (text_or_null o) ≡ true
unfolding safe_value
replacement-safe none h = refl
replacement-safe (some s) h = hash-safe s h

pub valid_refs-list :
    (refs : List String) → valid_refs refs ≡ true → valid_reference_list refs ≡ true
unfolding valid_refs
valid_refs-list refs h = (and-split _ _ h).1

module _ (p : Platform) (hashes : (t : List ℕ) → is_hash (p.sha256 t) ≡ true) where
  -- The reference of a correction is a reference.
  correction_ref-valid : (c : Proposal) → is_reference (correction_ref_of p c) ≡ true
  unfolding is_reference reference_tail proposal_id
  correction_ref-valid c = hashes _

  proposal_event-identity :
      (c : Proposal) → IsProposal c → valid_identity (proposal_event p c) ≡ true
  unfolding proposal_event valid_identity
  proposal_event-identity c v =
      let date = valid_date-iso_time p c.occurred_at ∙ v.dated in
      let provider = decider-provider c.requested_by v.requested in
      let key = v.key in ground (arith, date, provider, key)

  proposal_event-references :
      (c : Proposal) → IsProposal c → valid_references (proposal_event p c) ≡ true
  unfolding proposal_event valid_references
  proposal_event-references c v =
      let refs = valid_refs-list c.evidence_refs v.evidence in
      let none_there : valid_reference_list [] ≡ true =
        unfold valid_reference_list distinct in refl in
      let subject = correction_ref-valid c in
      let target = v.target in rw (none_there, subject, target, refs) refl

  proposal_event-freshness :
      (c : Proposal) → IsProposal c → valid_freshness (proposal_event p c).freshness ≡ true
  unfolding proposal_event valid_freshness policy_name
  proposal_event-freshness c v =
      let date = valid_date-iso_time p c.occurred_at ∙ v.dated in
      let head = v.revision in ground (arith, date, head)

  proposal_event-policy : (c : Proposal) → IsProposal c → valid_policy (proposal_event p c) ≡ true
  unfolding proposal_event valid_policy valid_payload safe_fields
  proposal_event-policy c v =
      let kind =
        contains-all safe_text c.correction_kind correction_kinds (unfold safe_value in refl)
          v.kind in
      let disposed =
        contains-all safe_text c.disposition dispositions (unfold safe_value in refl) v.disposed in
      let class =
        contains-all safe_text c.approval_class approval_classes (unfold safe_value in refl)
          v.class in
      let revision = hash-safe c.target_revision_hash v.revision in
      let replacement = replacement-safe c.replacement_hash v.replaced in
      let sensitive = v.sensitive in
      ground (arith, kind, disposed, class, revision, replacement, sensitive)

  -- The event of a valid proposal is a valid input, if the digests are 64 hexadecimal digits.
  pub proposal_event-valid :
      (c : Proposal) → valid_proposal c ≡ true → validate_event_input (proposal_event p c) ≡ none
  proposal_event-valid c h =
      let v = valid_proposal-IsProposal c h in
      IsInput-valid (proposal_event p c) (record {
        identity = proposal_event-identity c v;
        scoped = unfold proposal_event in v.scoped;
        task = unfold proposal_event in refl;
        thread = unfold proposal_event in refl;
        references = proposal_event-references c v;
        weighed = unfold proposal_event in v.weighed;
        fresh = proposal_event-freshness c v;
        policy = proposal_event-policy c v;
      })
