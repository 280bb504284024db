-- ===== src/Emergency/Closing.antt =====
-- Closing a grant and recording its use, on every outcome of `closeEmergency` and `emergencyUse`.
use agent_context_broker.Prelude.{
  ◌≡◌, refl, sym, ap, subst, ◌∙◌, Bool, true, false, not, none, some, List, [], ◌∷◌, ◌++◌, str_eq,
  eq_iff, keep, find, All, arith, Bool-cases, Option-cases, inl, inr, ◌⊎◌,
}
use text.Mathlib.TextPositions.{eq_refl}
use agent_context_broker.Platform.{Platform}
use agent_context_broker.Emergency.Record.{Provider, Opened, closed, CloseReason, record_schema}
use agent_context_broker.Emergency.Open.{given}
use agent_context_broker.Emergency.Ledger.{
  LedgerRecord, Store, Warning, accepted, verify_store, ok, admits, entry_for, append_unlocked,
}
use agent_context_broker.Emergency.Ledger.Append.{append_unlocked-verify}
use agent_context_broker.Emergency.Ledger.Scan.{opened_ids}
use agent_context_broker.Emergency.Grants.{
  drop_grant, open_from, open_grants, same_provider, provider_grant,
}
use agent_context_broker.Emergency.Grants.Track.{
  IsSingle, open_grants-IsSingle, same_provider_iff, find_some,
}
use agent_context_broker.Emergency.Invariant.{IsKnown, IsDistinct, All-impl, open_grants-append}
use agent_context_broker.Emergency.Evaluate.{accepted-IsSound}
use agent_context_broker.Emergency.Commands.{
  CloseOptions, close_reason, closing, close_found, close_checked, close_locked, close_emergency,
  appended, no_grant, ▸-ok,
}

All-kept : (f : Opened → Bool) (gs : List Opened) → All (λ h. f h ≡ true) gs → keep f gs ≡ gs
All-kept f [] a = refl
All-kept f (g ∷ gs) a = ground (arith, All-kept f gs a.1)

-- Closing the one grant of a provider is dropping the provider.
drop_grant-provider :
    (q : Provider) (gs : List Opened) (g : Opened)
    → IsSingle gs
    → IsDistinct gs
    → provider_grant q gs ≡ some g
    → drop_grant g.grant_id gs ≡ keep (λ h. not (same_provider h.provider q)) gs
unfolding provider_grant drop_grant
drop_grant-provider q [] g s d e = refl
drop_grant-provider q (h ∷ hs) g s d e = elim (Bool-cases (same_provider h.provider q)) [
  | inl mine ↦
      let same : h ≡ g = ground arith in
      let others : All (λ k. same_provider k.provider q ≡ false) hs =
        rw ((same_provider_iff h.provider q).0 mine) at s.0 in
      subst
        (λ (k : Opened).
          keep (λ h. not (str_eq h.grant_id k.grant_id)) (h ∷ hs)
          ≡ keep (λ h. not (same_provider h.provider q)) (h ∷ hs))
        same
        (rw (mine, eq_refl h.grant_id)
          (All-kept _ hs (All-impl hs (λ k n. ap not n) d.0)
            ∙ sym (All-kept _ hs (All-impl hs (λ k n. ap not n) others))))
  | inr theirs ↦
      let found : find (λ k. same_provider k.provider q) hs ≡ some g = ground arith in
      let differ : str_eq g.grant_id h.grant_id ≡ false =
        find_some (λ k. same_provider k.provider q) (λ k. str_eq k.grant_id h.grant_id ≡ false) hs g
          d.0 found in
      ground (
        arith,
        eq_iff g.grant_id h.grant_id,
        eq_iff h.grant_id g.grant_id,
        drop_grant-provider q hs g s.1 d.1 found,
      )
]

module _ (p : Platform) (o : CloseOptions) (q : Provider) (reason : CloseReason)
    (rs : List LedgerRecord) (ws : List Warning) (st : Store)
    (e : verify_store p st ≡ accepted rs ws) where
  close_emergency_lem :
      o.provider ≡ given q
      → close_reason o.reason ≡ some reason
      → o.execute ≡ true
      → o.lockable ≡ true
      → close_emergency p o st ≡ close_found p o reason (provider_grant q (open_grants rs)) st
  unfolding close_emergency close_checked close_locked
  close_emergency_lem eq er x l = simp (eq, er, x, l, e)

  closing_admitted :
      (g : Opened)
      → IsKnown (opened_ids rs) g
      → (record_schema (closed (closing p o reason g)) ≡ true)
        × (admits (opened_ids rs) (closed (closing p o reason g)) ≡ true)
  unfolding record_schema admits
  closing_admitted g k = (k.shaped, k.listed)

  provider-IsKnown :
      (g : Opened) → provider_grant q (open_grants rs) ≡ some g → IsKnown (opened_ids rs) g
  unfolding provider_grant
  provider-IsKnown g f =
      find_some _ (IsKnown (opened_ids rs)) (open_grants rs) g (accepted-IsSound p rs ws st e).known
        f

  close_found-none :
      provider_grant q (open_grants rs) ≡ none
      → close_found p o reason (provider_grant q (open_grants rs)) st ≡ (ok no_grant, st)
  unfolding close_found
  close_found-none n = rw n

  close_found-some :
      (g : Opened) (r : LedgerRecord)
      → provider_grant q (open_grants rs) ≡ some g
      → o.execute ≡ true
      → (append_unlocked p (closed (closing p o reason g)) st).0 ≡ ok r
      → close_found p o reason (provider_grant q (open_grants rs)) st
        ≡ (ok (appended r), (append_unlocked p (closed (closing p o reason g)) st).1)
  unfolding close_found
  close_found-some g r f x a =
      rw f (simp x (▸-ok (append_unlocked p (closed (closing p o reason g)) st) _ r a))

  closed_running :
      (g : Opened) (r : LedgerRecord)
      → provider_grant q (open_grants rs) ≡ some g
      → r.content ≡ closed (closing p o reason g)
      → open_grants (rs ++ r ∷ []) ≡ keep (λ h. not (same_provider h.provider q)) (open_grants rs)
  unfolding open_from
  closed_running g r f c =
      rw (open_grants-append, c)
        (drop_grant-provider q (open_grants rs) g (open_grants-IsSingle rs)
          (accepted-IsSound p rs ws st e).distinct f)

module _ (p : Platform) (o : CloseOptions) (q : Provider) (reason : CloseReason)
    (rs : List LedgerRecord) (st : Store) (g : Opened) where
  -- The grant `g` of the provider is closed.
  pub record Closes : Type 0 where
    pub written : LedgerRecord
    pub content_is : written.content ≡ closed (closing p o reason g)
    pub returns : (close_emergency p o st).0 ≡ ok (appended written)
    pub accepts : verify_store p (close_emergency p o st).1 ≡ accepted (rs ++ written ∷ []) []
    pub running :
        open_grants (rs ++ written ∷ [])
        ≡ keep (λ h. not (same_provider h.provider q)) (open_grants rs)

-- On an accepted ledger, an executing `closeEmergency` that gets the lock, with a provider and a reason
-- that it supports: if the provider has no open grant it changes nothing; if it has one, it appends
-- the record that closes it, and leaves an accepted ledger in which the provider has no open grant
-- and those of other providers are as before.
pub close_emergency-closes :
    (p : Platform) (o : CloseOptions) (q : Provider) (reason : CloseReason) (rs : List LedgerRecord)
    (ws : List Warning) (st : Store)
    → verify_store p st ≡ accepted rs ws
    → o.provider ≡ given q
    → close_reason o.reason ≡ some reason
    → o.execute ≡ true
    → o.lockable ≡ true
    → ((provider_grant q (open_grants rs) ≡ none) × (close_emergency p o st ≡ (ok no_grant, st)))
      ⊎ ((g : Opened) × (provider_grant q (open_grants rs) ≡ some g) × Closes p o q reason rs st g)
close_emergency-closes p o q reason rs ws st e eq er x l =
    let step = close_emergency_lem p o q reason rs ws st e eq er x l in
    elim (Option-cases (provider_grant q (open_grants rs))) [
      | inl n ↦ inl (n, step ∙ close_found-none p o q reason rs ws st e n)
      | inr (g, f) ↦
          let (shaped, admitted) =
            closing_admitted p o q reason rs ws st e g
              (provider-IsKnown p o q reason rs ws st e g f) in
          let d = closed (closing p o reason g) in
          let (appends, verifies) = append_unlocked-verify p d st rs ws e shaped admitted in
          let r = entry_for p rs d in
          let all = step ∙ close_found-some p o q reason rs ws st e g r f x appends in
          inr (
            g,
            f,
            record {
              written = r;
              content_is = refl;
              returns = rw all;
              accepts = rw all verifies;
              running = closed_running p o q reason rs ws st e g r f refl;
            },
          )
    ]
