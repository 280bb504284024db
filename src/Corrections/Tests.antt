-- ===== src/Corrections/Tests.antt =====
-- The theorems on corrections at a concrete store.
use agent_context_broker.Prelude.{
  ◌≡◌, refl, ap, String, true, false, Option, none, some, [], ◌∷◌, arith, inl,
}
use agent_context_broker.Prelude.Text.{is_hash}
use agent_context_broker.Platform.Sample.{
  sample_platform, sample_platform-hash, sample_platform-apart,
}
use agent_context_broker.EventStore.Event.{Event, build_event, stored_input}
use agent_context_broker.EventStore.Validate.{
  is_reference, reference_tail, valid_scope, valid_date, valid_reference_list, distinct,
}
use agent_context_broker.EventStore.Files.{Store}
use agent_context_broker.EventStore.Append.{Appended, added}
use agent_context_broker.EventStore.Tests.{hash_a, hash_b, new_store, new_store-IsSynced}
use agent_context_broker.EventStore.Synced.{IsSynced}
use agent_context_broker.EventStore.Lookup.{find_key}
use agent_context_broker.EventStore.Log.{log_one}
use agent_context_broker.Corrections.Observed.{IsPending, decide_correction-IsPending}
use agent_context_broker.Corrections.Once.{IsRefused, decide_correction-once}
use agent_context_broker.Corrections.{
  CorrectionError, decision_event, decision_key, proposal_event, Proposal, Decision, ok, err,
  valid_proposal, valid_decision, valid_refs, is_correction_ref, correction_ref_of,
  propose_correction, decide_correction,
}
use agent_context_broker.Corrections.Accept.{
  proposal_behind, proposal_behind-names, Observes, log_one-new, propose_new, decide_pending,
  proposal_in-behind, observed-is_text, proposal_behind-decidable, decide_correction-proposed,
  decide_correction-withdrawal,
}

abbrev proposal : Option String → Proposal
proposal replacement = record {
  schema_version = 1;
  proposal_key = hash_a;
  target_ref = "acb://claim/aaaaaaaaaaaaaaaaaaaaaaaaaaaaaaaaaaaaaaaaaaaaaaaaaaaaaaaaaaaaaaaa";
  target_revision_hash = hash_a;
  correction_kind = "claim";
  disposition = "withdraw";
  replacement_hash = replacement;
  evidence_refs = "acb://log/bbbbbbbbbbbbbbbbbbbbbbbbbbbbbbbbbbbbbbbbbbbbbbbbbbbbbbbbbbbbbbbb" ∷ [];
  confidence = record { digits = "0.9"; is_fraction = true };
  scope = record { kind = "project"; key_hash = hash_b };
  requested_by = "codex";
  approval_class = "explicit";
  sensitivity = "shared";
  occurred_at = record { text = "t"; instant = some 7 };
}

abbrev proposal_event_of : Option String → Event
proposal_event_of replacement = proposal_behind sample_platform (proposal replacement) 5 []

abbrev decision_on : String → String → Decision
decision_on ref id = record {
  schema_version = 1;
  correction_ref = ref;
  expected_proposal_event_id = id;
  decision = "accept";
  observed_revision_hash = hash_b;
  evidence_refs = "acb://log/bbbbbbbbbbbbbbbbbbbbbbbbbbbbbbbbbbbbbbbbbbbbbbbbbbbbbbbbbbbbbbbb" ∷ [];
  decided_by = "claude-code";
  occurred_at = record { text = "t"; instant = some 9 };
}

abbrev decision : Option String → Decision
decision replacement =
    decision_on (correction_ref_of sample_platform (proposal replacement))
      (proposal_event_of replacement).event_id

replacing_valid : valid_proposal (proposal (some hash_b)) ≡ true
unfolding valid_proposal valid_refs is_reference reference_tail valid_scope valid_date
    valid_reference_list distinct
replacing_valid = refl

withdrawal_valid : valid_proposal (proposal none) ≡ true
unfolding valid_proposal valid_refs is_reference reference_tail valid_scope valid_date
    valid_reference_list distinct
withdrawal_valid = refl

evidence_good :
    valid_refs ("acb://log/bbbbbbbbbbbbbbbbbbbbbbbbbbbbbbbbbbbbbbbbbbbbbbbbbbbbbbbbbbbbbbbb" ∷ [])
    ≡ true
unfolding valid_refs is_reference reference_tail valid_reference_list distinct
evidence_good = refl

decision_on-valid :
    (ref id : String)
    → is_correction_ref ref ≡ true
    → is_hash id ≡ true
    → valid_decision (decision_on ref id) ≡ true
unfolding valid_decision valid_date
decision_on-valid ref id about named = rw (about, named, evidence_good) refl

decision_valid : (replacement : Option String) → valid_decision (decision replacement) ≡ true
decision_valid replacement =
    let (about, named) =
      proposal_behind-names sample_platform (proposal replacement) 5 [] sample_platform-hash in
    decision_on-valid (correction_ref_of sample_platform (proposal replacement))
      (proposal_event_of replacement).event_id about named

replacing_observed : Observes (proposal (some hash_b)) (decision (some hash_b))
replacing_observed = inl (refl, refl)

decide_correction-proposed_example :
    (t : Store) × (propose_correction sample_platform true true 5 (proposal (some hash_b)) new_store
      ≡ (ok (added (proposal_event_of (some hash_b))), t))
    × ((r : Appended) × ((decide_correction sample_platform true true 6
            (decision (some hash_b))
            t
            t
            t).0
          ≡ ok r))
decide_correction-proposed_example =
    decide_correction-proposed sample_platform 5 6 (proposal (some hash_b)) (decision (some hash_b))
      [] new_store sample_platform-hash replacing_valid new_store-IsSynced (omega arith) refl refl
      (decision_valid (some hash_b)) refl refl replacing_observed

-- The store that the proposal of a withdrawal leaves.
abbrev withdrawn : Store
withdrawn =
    (propose_new sample_platform (proposal none) 5 [] new_store sample_platform-hash
      withdrawal_valid new_store-IsSynced (omega arith) refl).0

withdrawn-IsSynced : IsSynced sample_platform (proposal_event_of none ∷ []) withdrawn
withdrawn-IsSynced =
    (propose_new sample_platform (proposal none) 5 [] new_store sample_platform-hash
      withdrawal_valid new_store-IsSynced (omega arith) refl).2

decide_correction-withdrawal_example :
    ((propose_correction sample_platform true true 5 (proposal none) new_store).0
      ≡ ok (added (proposal_event_of none)))
    × ((x : CorrectionError) × (decide_correction sample_platform true true 6
            (decision none)
            withdrawn
            withdrawn
            withdrawn
          ≡ (err x, withdrawn)))
decide_correction-withdrawal_example =
    decide_correction-withdrawal sample_platform true 5 6 (proposal none) (decision none) [] []
      new_store withdrawn sample_platform-hash withdrawal_valid new_store-IsSynced (omega arith)
      refl refl withdrawn-IsSynced refl refl refl

abbrev pending : Store
pending =
    (propose_new sample_platform (proposal (some hash_b)) 5 [] new_store sample_platform-hash
      replacing_valid new_store-IsSynced (omega arith) refl).0

pending-IsSynced : IsSynced sample_platform (proposal_event_of (some hash_b) ∷ []) pending
pending-IsSynced =
    (propose_new sample_platform (proposal (some hash_b)) 5 [] new_store sample_platform-hash
      replacing_valid new_store-IsSynced (omega arith) refl).2

abbrev decided : Appended
decided =
    (log_one sample_platform (sample_platform.to_iso 6)
      (decision_event sample_platform (decision (some hash_b)) (proposal_event_of (some hash_b)))
      (proposal_event_of (some hash_b) ∷ [])).0

decided_now :
    (decide_correction sample_platform true true 6
      (decision (some hash_b))
      pending
      pending
      pending).0
    ≡ ok decided
decided_now =
    let (u, run, synced) =
      decide_pending sample_platform 6 (decision (some hash_b)) (proposal_event_of (some hash_b))
        (proposal_event_of (some hash_b) ∷ []) pending pending-IsSynced (omega arith)
        (decision_valid (some hash_b))
        (proposal_in-behind sample_platform (proposal (some hash_b)) (decision (some hash_b)) 5 []
          refl refl refl)
        (observed-is_text sample_platform (proposal (some hash_b)) (decision (some hash_b)) 5 []
          replacing_observed)
        (proposal_behind-decidable sample_platform (proposal (some hash_b)) (decision (some hash_b))
          5 [] sample_platform-hash replacing_valid (decision_valid (some hash_b))) in
    ap (λ x. x.0) run

new_key :
    (d : Decision) (e : Event)
    → e.input.idempotency_key ≡ hash_a
    → find_key (decision_event sample_platform d e).idempotency_key (e ∷ []) ≡ none
unfolding decision_event decision_key
new_key d e same = rw same (rw (sample_platform-apart _ _) refl)

proposal_key_of :
    (replacement : Option String) → (proposal_event_of replacement).input.idempotency_key ≡ hash_a
unfolding build_event stored_input proposal_event
proposal_key_of replacement = refl

decided_fresh : decided.replay ≡ false
decided_fresh =
    ap (λ x. x.0.replay)
      (log_one-new sample_platform (sample_platform.to_iso 6)
        (decision_event sample_platform (decision (some hash_b)) (proposal_event_of (some hash_b)))
        (proposal_event_of (some hash_b) ∷ [])
        (new_key (decision (some hash_b)) (proposal_event_of (some hash_b))
          (proposal_key_of (some hash_b))))

abbrev decided_store : Store
decided_store =
    (decide_correction sample_platform true true 6 (decision (some hash_b)) pending pending
      pending).1

decide_correction-once_example :
    ((decide_correction sample_platform true true 7
        (decision (some hash_b))
        decided_store
        decided_store
        decided_store).1
      ≡ decided_store)
    × IsRefused sample_platform
        (decide_correction sample_platform true true 7
          (decision (some hash_b))
          decided_store
          decided_store
          decided_store).0
decide_correction-once_example =
    decide_correction-once sample_platform true true 6 7 (decision (some hash_b))
      (decision (some hash_b)) (proposal_event_of (some hash_b) ∷ []) pending decided
      pending-IsSynced (omega arith) decided_now decided_fresh refl

decide_correction-IsPending_example :
    (e : Event) × IsPending (decision (some hash_b)) (proposal_event_of (some hash_b) ∷ []) e
    × (decided
        ≡ (log_one sample_platform
            (sample_platform.to_iso 6)
            (decision_event sample_platform (decision (some hash_b)) e)
            (proposal_event_of (some hash_b) ∷ [])).0)
    × IsSynced sample_platform
        (log_one sample_platform
          (sample_platform.to_iso 6)
          (decision_event sample_platform (decision (some hash_b)) e)
          (proposal_event_of (some hash_b) ∷ [])).1
        decided_store
decide_correction-IsPending_example =
    decide_correction-IsPending sample_platform true 6 (decision (some hash_b))
      (proposal_event_of (some hash_b) ∷ []) pending decided pending-IsSynced (omega arith)
      decided_now
