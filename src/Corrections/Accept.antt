-- ===== src/Corrections/Accept.antt =====
-- A correction of src/corrections.mts that is proposed and then decided.
use agent_context_broker.Prelude.{
  ℕ, suc, ◌≤◌, ◌≡◌, refl, ap, subst, ◌∙◌, String, Bool, true, false, none, some, List, [], ◌∷◌,
  ◌++◌, arith, eq_iff, inl, inr, ◌⊎◌, str_eq, length, length-append, Option, Option-cases,
  Bool-cases, find,
}
use agent_context_broker.Prelude.Text.{units, is_hash}
use agent_context_broker.Platform.{Platform}
use agent_context_broker.Json.{
  null, text, stable_fields, insert_field, stable_value, key_lt, is_index, number_lt,
}
use agent_context_broker.EventStore.Event.{
  Event, EventInput, build_event, stored_input, event_digest,
}
use agent_context_broker.EventStore.Validate.{validate_event_input}
use agent_context_broker.EventStore.Files.{Store, max_sequence}
use agent_context_broker.EventStore.Files as Files
use agent_context_broker.EventStore.Append.{Appended, added}
use agent_context_broker.EventStore.Build.{build_event-IsLink}
use agent_context_broker.EventStore.Listing.{tip}
use agent_context_broker.EventStore.Synced.{IsSynced}
use agent_context_broker.EventStore.Lookup.{find_key}
use agent_context_broker.EventStore.Log.{log_one, log_found}
use agent_context_broker.EventStore.Batches.{append_broker_event_lem}
use agent_context_broker.Json.Access.{get_field, same_text}
use agent_context_broker.Corrections.{
  Proposal, Decision, CorrectionError, proposal_mismatch, already_decided, invalid_decision,
  is_terminal, expected_proposal, revision_mismatch, ok, err, valid_proposal, valid_decision,
  is_correction_ref, proposal_id, correction_ref_of, proposal_event, is_text, expected_hash,
  related, proposal_in, plan_correction_decision, decision_event, appended, propose_correction,
  decide_correction,
}
use agent_context_broker.Corrections.Valid.{
  proposal_event-valid, valid-IsInput, hash-safe, valid_proposal-IsProposal,
}
use agent_context_broker.Corrections.Decisions.{valid_decision-IsDecision, decision_event-valid}
use agent_context_broker.Corrections.Once.{find_proposal_synced, related-append, decide-err}

-- The decision has observed the hash that its verdict asks for.
abbrev pub Observes : Proposal → Decision → Type 0
Observes c d =
    ((str_eq d.decision "accept" ≡ true) × (c.replacement_hash ≡ some d.observed_revision_hash))
    ⊎ ((str_eq d.decision "accept" ≡ false) × (c.target_revision_hash ≡ d.observed_revision_hash))

same_text_refl : (cs : List ℕ) → same_text cs cs ≡ true
same_text_refl [] = refl
same_text_refl (c ∷ cs) = ground (arith, same_text_refl cs)

module _ (p : Platform) where
  -- The event of a proposal, behind the events of a list.
  abbrev pub proposal_behind : Proposal → ℕ → List Event → Event
  proposal_behind c now es =
      build_event p (proposal_event p c) (suc (length es)) (tip none es) (p.to_iso now)

  target_field :
      (c : Proposal) (now : ℕ) (es : List Event)
      → get_field (units "targetRevisionHash") (proposal_behind c now es).input.payload
        ≡ some (text c.target_revision_hash)
  unfolding get_field build_event stored_input proposal_event stable_fields insert_field key_lt
      is_index number_lt stable_value
  target_field c now es = refl

  replacement_field :
      (c : Proposal) (now : ℕ) (es : List Event) (h : String)
      → c.replacement_hash ≡ some h
      → get_field (units "replacementHash") (proposal_behind c now es).input.payload ≡ some (text h)
  unfolding get_field build_event stored_input proposal_event stable_fields insert_field key_lt
      is_index number_lt stable_value
  replacement_field c now es h e = rw e refl

  pub observed-is_text :
      (c : Proposal) (d : Decision) (now : ℕ) (es : List Event)
      → Observes c d
      → is_text d.observed_revision_hash (expected_hash p d (proposal_behind c now es)) ≡ true
  observed-is_text c d now es (inl (accepts, same)) = rw accepts (
      rw (replacement_field c now es d.observed_revision_hash same)
        (same_text_refl (units d.observed_revision_hash)))
  observed-is_text c d now es (inr (rejects, same)) =
      rw rejects
        (rw (target_field c now es) (rw same (same_text_refl (units d.observed_revision_hash))))

  proposal_behind-subject :
      (c : Proposal) (now : ℕ) (es : List Event)
      → (proposal_behind c now es).input.subject_ref ≡ correction_ref_of p c
  unfolding build_event stored_input proposal_event
  proposal_behind-subject c now es = refl

  proposal_behind-type :
      (c : Proposal) (now : ℕ) (es : List Event)
      → (proposal_behind c now es).input.event_type ≡ "correction.proposed"
  unfolding build_event stored_input proposal_event
  proposal_behind-type c now es = refl

  pub proposal_in-behind :
      (c : Proposal) (d : Decision) (now : ℕ) (es : List Event)
      → related p (correction_ref_of p c) es ≡ []
      → d.correction_ref ≡ correction_ref_of p c
      → d.expected_proposal_event_id ≡ (proposal_behind c now es).event_id
      → proposal_in p d (es ++ proposal_behind c now es ∷ []) ≡ ok (proposal_behind c now es)
  unfolding proposal_in
  proposal_in-behind c d now es none_yet about named =
      let e = proposal_behind c now es in
      let ref = correction_ref_of p c in
      let mine : str_eq e.input.subject_ref ref ≡ true =
        ground (arith, eq_iff e.input.subject_ref ref, proposal_behind-subject c now es) in
      let those : related p d.correction_ref (es ++ e ∷ []) ≡ e ∷ [] =
        rw about (related-append p ref es (e ∷ []) ∙ rw (none_yet, mine) refl) in
      let id : str_eq e.event_id d.expected_proposal_event_id ≡ true =
        ground (arith, eq_iff e.event_id d.expected_proposal_event_id, named) in
      rw (those, proposal_behind-type c now es) (rw id refl)

  pub log_one-new :
      (at : String) (i : EventInput) (es : List Event)
      → find_key i.idempotency_key es ≡ none
      → log_one p at i es ≡ (
        added (build_event p i (suc (length es)) (tip none es) at),
        es ++ build_event p i (suc (length es)) (tip none es) at ∷ [],
      )
  unfolding log_one
  log_one-new at i es h = ap (log_found p at i es) h

  -- A valid proposal with a new key is recorded as proposed.
  pub propose_new :
      (c : Proposal) (now : ℕ) (es : List Event) (st : Store)
      → ((t : List ℕ) → is_hash (p.sha256 t) ≡ true)
      → valid_proposal c ≡ true
      → IsSynced p es st
      → suc (length es) ≤ max_sequence
      → find_key c.proposal_key es ≡ none
      → (t : Store) × (propose_correction p true true now c st
          ≡ (ok (added (proposal_behind c now es)), t))
        × IsSynced p (es ++ proposal_behind c now es ∷ []) t
  unfolding propose_correction
  propose_new c now es st hashes v s h new =
      let good = proposal_event-valid p hashes c v in
      let (t, run, synced) = append_broker_event_lem p now (proposal_event p c) es st s good h in
      let key : (proposal_event p c).idempotency_key ≡ c.proposal_key =
        unfold proposal_event in refl in
      let grown =
        log_one-new (p.to_iso now) (proposal_event p c) es (ap (λ k. find_key k es) key ∙ new) in
      (
        t,
        rw v (ap (appended p) (run ∙ ap (λ x. (Files.ok x.0, t)) grown)),
        subst (λ x. IsSynced p x.1 t) grown synced,
      )

  -- What a decision on it names.
  pub proposal_behind-names :
      (c : Proposal) (now : ℕ) (es : List Event)
      → ((t : List ℕ) → is_hash (p.sha256 t) ≡ true)
      → (is_correction_ref (correction_ref_of p c) ≡ true)
        × (is_hash (proposal_behind c now es).event_id ≡ true)
  unfolding is_correction_ref proposal_id build_event event_digest
  proposal_behind-names c now es hashes = (hashes _, hashes _)

  pub proposal_behind-decidable :
      (c : Proposal) (d : Decision) (now : ℕ) (es : List Event)
      → ((t : List ℕ) → is_hash (p.sha256 t) ≡ true)
      → valid_proposal c ≡ true
      → valid_decision d ≡ true
      → validate_event_input (decision_event p d (proposal_behind c now es)) ≡ none
  proposal_behind-decidable c d now es hashes v w =
      let link =
        build_event-IsLink p (proposal_event p c) (suc (length es)) (tip none es) (p.to_iso now)
          (proposal_event-valid p hashes c v) in
      let id = (proposal_behind-names c now es hashes).1 in
      decision_event-valid p hashes d (proposal_behind c now es) (text c.target_revision_hash)
        (valid_decision-IsDecision d w) (valid-IsInput _ link.valid) id (target_field c now es)
        (hash-safe c.target_revision_hash (valid_proposal-IsProposal c v).revision)

  pub decide_pending :
      (now : ℕ) (d : Decision) (e : Event) (es : List Event) (t : Store)
      → IsSynced p es t
      → suc (length es) ≤ max_sequence
      → valid_decision d ≡ true
      → proposal_in p d es ≡ ok e
      → is_text d.observed_revision_hash (expected_hash p d e) ≡ true
      → validate_event_input (decision_event p d e) ≡ none
      → (u : Store) × (decide_correction p true true now d t t t
          ≡ (ok (log_one p (p.to_iso now) (decision_event p d e) es).0, u))
        × IsSynced p (log_one p (p.to_iso now) (decision_event p d e) es).1 u
  unfolding decide_correction plan_correction_decision
  decide_pending now d e es t s h w found observed good =
      let read = find_proposal_synced p d es t s ∙ found in
      let (u, run, synced) = append_broker_event_lem p now (decision_event p d e) es t s good h in
      (u, rw (w, read) (rw observed (ap (appended p) run)), synced)

  replacement_missing :
      (c : Proposal) (now : ℕ) (es : List Event)
      → c.replacement_hash ≡ none
      → get_field (units "replacementHash") (proposal_behind c now es).input.payload ≡ some null
  unfolding get_field build_event stored_input proposal_event stable_fields insert_field key_lt
      is_index number_lt stable_value
  replacement_missing c now es e = rw e refl

  expected_proposal-cases :
      (d : Decision) (e : Event) (o : Option Event)
      → (expected_proposal p d (some e) o ≡ ok e)
        ⊎ ((x : CorrectionError) × (expected_proposal p d (some e) o ≡ err x))
  expected_proposal-cases d e o =
      elim (Bool-cases (str_eq e.event_id d.expected_proposal_event_id)) [
        | inr other ↦ inr (proposal_mismatch, rw other refl)
        | inl same ↦ elim (Option-cases o) [
          | inl undecided ↦ inl (rw (same, undecided) refl)
          | inr (f, ended) ↦ inr (already_decided, rw (same, ended) refl)
        ]
      ]

  -- Whatever comes behind the first proposal of a correction, it stays the one that is found.
  proposal_in-later :
      (c : Proposal) (d : Decision) (now : ℕ) (es later : List Event)
      → related p (correction_ref_of p c) es ≡ []
      → d.correction_ref ≡ correction_ref_of p c
      → let e = proposal_behind c now es in
        (proposal_in p d (es ++ e ∷ later) ≡ ok e)
        ⊎ ((x : CorrectionError) × (proposal_in p d (es ++ e ∷ later) ≡ err x))
  unfolding proposal_in build_event stored_input proposal_event
  proposal_in-later c d now es later none_yet about =
      let e = proposal_behind c now es in
      let ref = correction_ref_of p c in
      let mine : str_eq e.input.subject_ref ref ≡ true =
        ground (arith, eq_iff e.input.subject_ref ref, proposal_behind-subject c now es) in
      let those : related p d.correction_ref (es ++ e ∷ later) ≡ e ∷ related p ref later =
        rw about (related-append p ref es (e ∷ later) ∙ rw (none_yet, mine) refl) in
      rw (those, proposal_behind-type c now es)
        (expected_proposal-cases d e (find (is_terminal p) (related p ref later)))

  plan_withdrawal :
      (now : ℕ) (c : Proposal) (d : Decision) (es later : List Event) (u : Store)
      → IsSynced p (es ++ proposal_behind c now es ∷ later) u
      → related p (correction_ref_of p c) es ≡ []
      → d.correction_ref ≡ correction_ref_of p c
      → c.replacement_hash ≡ none
      → str_eq d.decision "accept" ≡ true
      → (x : CorrectionError) × (plan_correction_decision p d u ≡ err x)
  unfolding plan_correction_decision
  plan_withdrawal now c d es later u s unknown about bare accepts =
      let e = proposal_behind c now es in
      let read = find_proposal_synced p d (es ++ e ∷ later) u s in
      let missed : is_text d.observed_revision_hash (expected_hash p d e) ≡ false =
        rw accepts (rw (replacement_missing c now es bare) refl) in
      elim (Bool-cases (valid_decision d)) [
        | inr bad ↦ (invalid_decision, rw bad refl)
        | inl good ↦ elim (proposal_in-later c d now es later unknown about) [
          | inl found ↦ (revision_mismatch, rw (good, read ∙ found) (rw missed refl))
          | inr (x, fails) ↦ (x, rw (good, read ∙ fails) refl)
        ]
      ]

-- If the digests are 64 hexadecimal digits: a withdrawal that is proposed without a replacement, of a
-- correction that the store knows nothing about, is recorded. On every store in step with a list of events
-- that has this proposal behind the same events, and any others behind it, no decision accepts the
-- correction: each is refused with an error and changes nothing.
pub decide_correction-withdrawal :
    (p : Platform) (locked : Bool) (now now2 : ℕ) (c : Proposal) (d : Decision)
    (es later : List Event) (st u : Store)
    → ((t : List ℕ) → is_hash (p.sha256 t) ≡ true)
    → valid_proposal c ≡ true
    → IsSynced p es st
    → suc (length es) ≤ max_sequence
    → find_key c.proposal_key es ≡ none
    → related p (correction_ref_of p c) es ≡ []
    → IsSynced p (es ++ proposal_behind p c now es ∷ later) u
    → d.correction_ref ≡ correction_ref_of p c
    → c.replacement_hash ≡ none
    → str_eq d.decision "accept" ≡ true
    → ((propose_correction p true true now c st).0 ≡ ok (added (proposal_behind p c now es)))
      × ((x : CorrectionError) × (decide_correction p true locked now2 d u u u ≡ (err x, u)))
decide_correction-withdrawal p locked now now2 c d es later st u hashes v s h new unknown s2 about
      bare accepts =
    let (t, run, synced) = propose_new p c now es st hashes v s h new in
    let (x, refused) = plan_withdrawal p now c d es later u s2 unknown about bare accepts in
    (ap (λ y. y.0) run, (x, decide-err p locked now2 d u x refused))

-- If the digests are 64 hexadecimal digits: a valid proposal with a new key, of a correction that the
-- store knows nothing about, is recorded; and a valid decision that names it, and that has observed the
-- replacement if it accepts or the target's revision if it does not, then succeeds.
pub decide_correction-proposed :
    (p : Platform) (now now2 : ℕ) (c : Proposal) (d : Decision) (es : List Event) (st : Store)
    → ((t : List ℕ) → is_hash (p.sha256 t) ≡ true)
    → valid_proposal c ≡ true
    → IsSynced p es st
    → suc (suc (length es)) ≤ max_sequence
    → find_key c.proposal_key es ≡ none
    → related p (correction_ref_of p c) es ≡ []
    → valid_decision d ≡ true
    → d.correction_ref ≡ correction_ref_of p c
    → d.expected_proposal_event_id ≡ (proposal_behind p c now es).event_id
    → Observes c d
    → (t : Store) × (propose_correction p true true now c st
        ≡ (ok (added (proposal_behind p c now es)), t))
      × ((r : Appended) × ((decide_correction p true true now2 d t t t).0 ≡ ok r))
decide_correction-proposed p now now2 c d es st hashes v s h new unknown w about named observes =
    let e = proposal_behind p c now es in
    let (t, run, synced) = propose_new p c now es st hashes v s (omega (arith, h)) new in
    let size = length-append es (e ∷ []) in
    let (u, decided, after) =
      decide_pending p now2 d e (es ++ e ∷ []) t synced (omega (arith, size, h)) w
        (proposal_in-behind p c d now es unknown about named)
        (observed-is_text p c d now es observes)
        (proposal_behind-decidable p c d now es hashes v w) in
    (
      t,
      run,
      ((log_one p (p.to_iso now2) (decision_event p d e) (es ++ e ∷ [])).0, ap (λ x. x.0) decided),
    )
