-- ===== src/Emergency/Using.antt =====
-- What `emergencyUse` promises on every outcome.
use agent_context_broker.Prelude.{
  ℕ, ◌≡◌, refl, subst, ◌∙◌, String, true, false, some, List, [], ◌∷◌, ◌++◌, str_eq, eq_iff, any,
  contains, All, Bool-cases, inl, inr, ◌⊎◌,
}
use agent_context_broker.Platform.{Platform}
use agent_context_broker.Emergency.Record.{Opened, RecordData, used, Command, record_schema}
use agent_context_broker.Emergency.Ledger.{
  LedgerRecord, Store, Warning, accepted, verify_store, ok, err, bad_record, inactive_grant, admits,
  entry_for, append_unlocked,
}
use agent_context_broker.Emergency.Ledger.Append.{append_unlocked-verify}
use agent_context_broker.Emergency.Ledger.Scan.{opened_ids}
use agent_context_broker.Emergency.Grants.{open_from, open_grants}
use agent_context_broker.Emergency.Invariant.{IsKnown, open_grants-append}
use agent_context_broker.Emergency.Evaluate.{accepted-IsSound}
use agent_context_broker.Emergency.Commands.{◌▸◌, ▸-ok}
use agent_context_broker.Emergency.Use.{Metadata, use_record, is_active, use_locked, emergency_use}

active_listed :
    (now : ℕ) (id : String) (ids : List String) (gs : List Opened)
    → All (IsKnown ids) gs
    → any (is_active now id) gs ≡ true
    → contains id ids ≡ true
active_listed now id ids [] a e = cc
active_listed now id ids (g ∷ gs) a e = elim (Bool-cases (str_eq g.grant_id id)) [
  | inl same ↦ subst (λ k. contains k ids ≡ true) ((eq_iff g.grant_id id).0 same) a.0.listed
  | inr other ↦ active_listed now id ids gs a.1 (rw other at e)
]

module _ (p : Platform) (now : ℕ) (g : Opened) (command : Command) (m : Metadata)
    (rs : List LedgerRecord) (ws : List Warning) (st : Store)
    (e : verify_store p st ≡ accepted rs ws) where
  abbrev used_data : RecordData
  used_data = used (use_record p now g command m)

  use_inactive :
      any (is_active now g.grant_id) (open_grants rs) ≡ false
      → emergency_use p now true (some g) command m st ≡ (err inactive_grant, st)
  unfolding emergency_use use_locked
  use_inactive n = rw (e, n)

  use_active :
      any (is_active now g.grant_id) (open_grants rs) ≡ true
      → emergency_use p now true (some g) command m st
        ≡ (append_unlocked p used_data st ▸ λ _ st1. (ok tt, st1))
  unfolding emergency_use use_locked
  use_active a = rw (e, a)

  use_malformed :
      record_schema used_data ≡ false → append_unlocked p used_data st ≡ (err bad_record, st)
  unfolding append_unlocked
  use_malformed n = rw n

  used_admitted :
      any (is_active now g.grant_id) (open_grants rs) ≡ true
      → admits (opened_ids rs) used_data ≡ true
  unfolding admits use_record
  used_admitted a =
      active_listed now g.grant_id (opened_ids rs) (open_grants rs)
        (accepted-IsSound p rs ws st e).known a

  used_running :
      (r : LedgerRecord) → r.content ≡ used_data → open_grants (rs ++ r ∷ []) ≡ open_grants rs
  unfolding open_from
  used_running r c = rw (open_grants-append, c)

  -- A use that is recorded.
  pub record Records : Type 0 where
    pub written : LedgerRecord
    pub content_is : written.content ≡ used_data
    pub returns : (emergency_use p now true (some g) command m st).0 ≡ ok tt
    pub accepts :
        verify_store p (emergency_use p now true (some g) command m st).1
        ≡ accepted (rs ++ written ∷ []) []
    pub running : open_grants (rs ++ written ∷ []) ≡ open_grants rs

  use_recorded :
      any (is_active now g.grant_id) (open_grants rs) ≡ true
      → record_schema used_data ≡ true
      → Records
  use_recorded a shaped =
      let (appends, verifies) =
        append_unlocked-verify p used_data st rs ws e shaped (used_admitted a) in
      let r = entry_for p rs used_data in
      let all =
        use_active a ∙ ▸-ok (append_unlocked p used_data st) (λ _ st1. (ok tt, st1)) r appends in
      record {
        written = r;
        content_is = refl;
        returns = rw all;
        accepts = rw all verifies;
        running = used_running r refl;
      }

-- On an accepted ledger, with the lock, `emergencyUse` does one of three things. If no open grant with
-- the grant's id runs, it fails and writes nothing; if one runs and the record that it would write has
-- not the schema's shape, it fails and writes nothing; else it appends the record of the use, and leaves
-- an accepted ledger with the same open grants.
pub emergency_use-records :
    (p : Platform) (now : ℕ) (g : Opened) (command : Command) (m : Metadata)
    (rs : List LedgerRecord) (ws : List Warning) (st : Store)
    (e : verify_store p st ≡ accepted rs ws)
    → ((any (is_active now g.grant_id) (open_grants rs) ≡ false)
        × (emergency_use p now true (some g) command m st ≡ (err inactive_grant, st)))
      ⊎ ((any (is_active now g.grant_id) (open_grants rs) ≡ true)
          × (record_schema (used (use_record p now g command m)) ≡ false)
          × (emergency_use p now true (some g) command m st ≡ (err bad_record, st)))
      ⊎ ((any (is_active now g.grant_id) (open_grants rs) ≡ true)
          × (record_schema (used (use_record p now g command m)) ≡ true)
          × Records p now g command m rs ws st e)
emergency_use-records p now g command m rs ws st e =
    elim (Bool-cases (any (is_active now g.grant_id) (open_grants rs))) [
      | inr none_runs ↦ inl (none_runs, use_inactive p now g command m rs ws st e none_runs)
      | inl runs ↦ elim (Bool-cases (record_schema (used (use_record p now g command m)))) [
        | inl shaped ↦
            inr (inr (runs, shaped, use_recorded p now g command m rs ws st e runs shaped))
        | inr not_shaped ↦ inr (
            inl (
              runs,
              not_shaped,
              use_active p now g command m rs ws st e runs
                  ∙ rw (use_malformed p now g command m rs ws st e not_shaped),
            ))
      ]
    ]
