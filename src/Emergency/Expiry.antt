-- ===== src/Emergency/Expiry.antt =====
-- Closing the expired grants: the loop that `evaluateEmergency` and `openEmergency` share.
use mathlib.Core.List.{append-nil, append_assoc}
use agent_context_broker.Prelude.{
  ℕ, ◌≡◌, refl, sym, ap, ◌∙◌, Bool, true, not, List, [], ◌∷◌, ◌++◌, str_eq, keep, any, All, arith,
  Bool-cases, inl, inr,
}
use agent_context_broker.Platform.{Platform}
use agent_context_broker.Emergency.Record.{Opened, record_schema}
use agent_context_broker.Emergency.Ledger.{
  LedgerRecord, Store, Warning, accepted, admits, verify_store, ok, entry_for, append_unlocked,
}
use agent_context_broker.Emergency.Ledger.Scan.{opened_ids, opened_ids-append}
use agent_context_broker.Emergency.Ledger.Append.{append_unlocked-verify}
use agent_context_broker.Emergency.Grants.{drop_grant, open_from, is_expired}
use agent_context_broker.Emergency.Invariant.{IsKnown}
use agent_context_broker.Emergency.Commands.{expiry, close_expired, ▸-ok}

abbrev same_id : Opened → Opened → Bool
same_id h e = str_eq h.grant_id e.grant_id

-- The grants whose ids no grant of `es` has.
abbrev pub without : List Opened → List Opened → List Opened
without es hs = keep (λ h. not (any (same_id h) es)) hs

without-nil : (hs : List Opened) → without [] hs ≡ hs
without-nil [] = refl
without-nil (h ∷ hs) = ap (λ l. h ∷ l) (without-nil hs)

without-cons :
    (e : Opened) (es hs : List Opened)
    → without es (keep (λ h. not (same_id h e)) hs) ≡ without (e ∷ es) hs
without-cons e es [] = refl
without-cons e es (h ∷ hs) = ground (arith, without-cons e es hs)

module _ (p : Platform) (now : ℕ) where
  -- What the loop over `gs` has done to a store that holds `rs`.
  pub record IsClosed (rs : List LedgerRecord) (gs : List Opened) (st : Store) : Type 0 where
    pub more : List LedgerRecord
    pub warnings : List Warning
    pub done : (close_expired p now gs st).0 ≡ ok tt
    pub accepts : verify_store p (close_expired p now gs st).1 ≡ accepted (rs ++ more) warnings
    pub same_ids : opened_ids more ≡ []
    pub leaves : (hs : List Opened) → open_from hs more ≡ without (keep (is_expired now) gs) hs

  closing_admitted :
      (rs : List LedgerRecord) (g : Opened)
      → IsKnown (opened_ids rs) g
      → (record_schema (expiry p now g) ≡ true) × (admits (opened_ids rs) (expiry p now g) ≡ true)
  unfolding record_schema admits
  closing_admitted rs g k = (k.shaped, k.listed)

  pub close_expired-IsClosed :
      (gs : List Opened) (st : Store) (rs : List LedgerRecord) (ws : List Warning)
      → verify_store p st ≡ accepted rs ws
      → All (IsKnown (opened_ids rs)) gs
      → IsClosed rs gs st
  unfolding close_expired open_from
  close_expired-IsClosed [] st rs ws e a = record {
    more = [];
    warnings = ws;
    done = refl;
    accepts = rw append-nil e;
    same_ids = refl;
    leaves = λ hs. sym (without-nil hs);
  }
  close_expired-IsClosed (g ∷ gs) st rs ws e a = elim (Bool-cases (is_expired now g)) [
    | inl over ↦
        let (shaped, admitted) = closing_admitted rs g a.0 in
        let (appends, verifies) =
          append_unlocked-verify p (expiry p now g) st rs ws e shaped admitted in
        let r = entry_for p rs (expiry p now g) in
        let same : opened_ids (rs ++ r ∷ []) ≡ opened_ids rs =
          simp (opened_ids-append, append-nil) in
        let st1 = (append_unlocked p (expiry p now g) st).1 in
        let step : close_expired p now (g ∷ gs) st ≡ close_expired p now gs st1 =
          rw over (▸-ok (append_unlocked p (expiry p now g) st) _ r appends) in
        let ih = close_expired-IsClosed gs st1 (rs ++ r ∷ []) [] verifies (rw same a.1) in
        record {
          more = r ∷ ih.more;
          warnings = ih.warnings;
          done = rw step ih.done;
          accepts = rw step (rw append_assoc at ih.accepts);
          same_ids = ih.same_ids;
          leaves = λ hs.
              rw over (
                ih.leaves (drop_grant g.grant_id hs)
                ∙ without-cons g (keep (is_expired now) gs) hs);
        }
    | inr runs ↦
        let ih = close_expired-IsClosed gs st rs ws e a.1 in
        record {
          more = ih.more;
          warnings = ih.warnings;
          done = rw runs ih.done;
          accepts = rw runs ih.accepts;
          same_ids = ih.same_ids;
          leaves = λ hs. rw runs (ih.leaves hs);
        }
  ]
