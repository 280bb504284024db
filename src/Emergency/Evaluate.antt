-- ===== src/Emergency/Evaluate.antt =====
-- What `evaluateEmergency` promises: the grant that it reports, and the expired grants that it closes.
use agent_context_broker.Prelude.{
  ℕ, ◌≡◌, ◌<◌, refl, sym, ap, ◌∙◌, Bool, true, false, not, ◌&&◌, none, some, List, [], ◌∷◌, ◌++◌,
  ◌⊎◌, str_eq, eq_iff, keep, any, All, arith, Bool-cases, inl, inr,
}
use text.Mathlib.TextPositions.{eq_refl}
use agent_context_broker.Platform.{Platform}
use agent_context_broker.Emergency.Record.{Provider, Opened}
use agent_context_broker.Emergency.Ledger.{
  LedgerRecord, Store, Warning, Verified, accepted, verify_store, Result, ok, err,
}
use agent_context_broker.Emergency.Ledger.Append.{verify-Holds}
use agent_context_broker.Emergency.Ledger.Scan.{opened_ids}
use agent_context_broker.Emergency.Grants.{
  open_grants, is_expired, same_provider, active_grant, provider_grant,
}
use agent_context_broker.Emergency.Grants.Track.{
  IsOpen, open_grants_iff, same_provider_iff, IsSingle, open_grants-IsSingle,
}
use agent_context_broker.Emergency.Invariant.{
  IsDistinct, IsSound, Chain-IsSound, open_grants-append, All-impl,
}
use agent_context_broker.Emergency.Expiry.{without, close_expired-IsClosed}
use agent_context_broker.Emergency.Commands.{
  EvaluateOptions, granted, evaluated, close_expired, expire_grants, evaluate_store,
}

pub accepted-IsSound :
    (p : Platform) (rs : List LedgerRecord) (ws : List Warning) (st : Store)
    → verify_store p st ≡ accepted rs ws
    → IsSound (opened_ids rs) (open_grants rs)
accepted-IsSound p rs ws st e = Chain-IsSound rs (verify-Holds p rs ws st e).chain

-- Among grants of different ids, those whose id no expired grant has are those that run.
pub keep-cong :
    (f g : Opened → Bool) (hs : List Opened) → All (λ h. f h ≡ g h) hs → keep f hs ≡ keep g hs
keep-cong f g [] a = refl
keep-cong f g (h ∷ hs) a = ground (arith, keep-cong f g hs a.1)

module _ (now : ℕ) where
  others_differ :
      (g : Opened) (gs : List Opened)
      → All (λ h. str_eq h.grant_id g.grant_id ≡ false) gs
      → any (λ e. str_eq g.grant_id e.grant_id) (keep (is_expired now) gs) ≡ false
  others_differ g [] a = refl
  others_differ g (h ∷ hs) a =
      ground
        (arith, others_differ g hs a.1, eq_iff h.grant_id g.grant_id, eq_iff g.grant_id h.grant_id)

  -- Some expired grant of `gs` has the id of `h` exactly if `h` is expired.
  abbrev IsMarked : List Opened → Opened → Type 0
  IsMarked gs h =
      any (λ e. str_eq h.grant_id e.grant_id) (keep (is_expired now) gs) ≡ is_expired now h

  IsMarked-cons :
      (g h : Opened) (gs : List Opened)
      → str_eq h.grant_id g.grant_id ≡ false
      → IsMarked gs h
      → IsMarked (g ∷ gs) h
  IsMarked-cons g h gs e m = elim (Bool-cases (is_expired now g)) [
    | inl over ↦ rw (over, e) m
    | inr runs ↦ rw runs m
  ]

  IsMarked-head :
      (g : Opened) (gs : List Opened)
      → All (λ h. str_eq h.grant_id g.grant_id ≡ false) gs
      → IsMarked (g ∷ gs) g
  IsMarked-head g gs a = elim (Bool-cases (is_expired now g)) [
    | inl over ↦ rw (over, eq_refl g.grant_id)
    | inr runs ↦ rw runs (others_differ g gs a)
  ]

  All-IsMarked : (gs : List Opened) → IsDistinct gs → All (IsMarked gs) gs
  All-IsMarked [] d = tt
  All-IsMarked (g ∷ gs) d = (IsMarked-head g gs d.0, both gs (All-IsMarked gs d.1) d.0)
    where
      both :
          (hs : List Opened)
          → All (IsMarked gs) hs
          → All (λ h. str_eq h.grant_id g.grant_id ≡ false) hs
          → All (IsMarked (g ∷ gs)) hs
      both [] m a = tt
      both (h ∷ hs) m a = (IsMarked-cons g h gs a.0 m.0, both hs m.1 a.1)

  pub without-expired :
      (gs : List Opened)
      → IsDistinct gs
      → without (keep (is_expired now) gs) gs ≡ keep (λ g. not (is_expired now g)) gs
  without-expired gs d = keep-cong _ _ gs (All-impl gs (λ h e. ap not e) (All-IsMarked gs d))

  active_grant-keep :
      (provider : Provider) (gs : List Opened)
      → active_grant provider now (keep (λ g. not (is_expired now g)) gs)
        ≡ active_grant provider now gs
  unfolding active_grant
  active_grant-keep provider [] = refl
  active_grant-keep provider (g ∷ gs) = ground (arith, active_grant-keep provider gs)

  -- What the loop under the lock has made of an accepted store.
  pub record IsSwept (p : Platform) (rs : List LedgerRecord) (st : Store) : Type 0 where
    pub records : List LedgerRecord
    pub warnings : List Warning
    pub done : (expire_grants p now st).0 ≡ ok tt
    pub accepts : verify_store p (expire_grants p now st).1 ≡ accepted records warnings
    pub running : open_grants records ≡ keep (λ g. not (is_expired now g)) (open_grants rs)

  pub expire_grants-IsSwept :
      (p : Platform) (rs : List LedgerRecord) (ws : List Warning) (st : Store)
      → verify_store p st ≡ accepted rs ws
      → IsSwept p rs st
  unfolding expire_grants
  expire_grants-IsSwept p rs ws st e =
      let sound = accepted-IsSound p rs ws st e in
      let c = close_expired-IsClosed p now (open_grants rs) st rs ws e sound.known in
      let same : expire_grants p now st ≡ close_expired p now (open_grants rs) st = rw e in
      record {
        records = rs ++ c.more;
        warnings = c.warnings;
        done = rw same c.done;
        accepts = rw same c.accepts;
        running =
            open_grants-append rs c.more
            ∙ c.leaves (open_grants rs)
            ∙ without-expired (open_grants rs) sound.distinct;
      }

module _ (p : Platform) (o : EvaluateOptions) where
  granted_swept :
      (rs ss : List LedgerRecord) (ws vs : List Warning)
      → open_grants ss ≡ keep (λ g. not (is_expired o.now g)) (open_grants rs)
      → granted p o (accepted ss vs) ≡ granted p o (accepted rs ws)
  granted_swept rs ss ws vs e = rw e (active_grant-keep o.now o.provider (open_grants rs))

  evaluated-ok :
      (ws : List Warning) (m : Result (Unit {0}) × Store)
      → m.0 ≡ ok tt
      → evaluated p o ws m ≡ (
        record {
          grant = granted p o (verify_store p m.1);
          warnings = ws;
          valid = (verify_store p m.1).valid;
        },
        m.1,
      )
  evaluated-ok ws (ok tt, st) e = refl
  evaluated-ok ws (err f, st) e = cc

  keep-running :
      (gs : List Opened)
      → any (is_expired o.now) gs ≡ false
      → keep (λ g. not (is_expired o.now g)) gs ≡ gs
  keep-running [] e = refl
  keep-running (g ∷ gs) e = ground (arith, keep-running gs)

  -- What `evaluateEmergency` makes of a store that holds the records `rs`.
  pub record Evaluates (rs : List LedgerRecord) (st : Store) : Type 0 where
    pub grant_is : (evaluate_store p o st).0.grant ≡ active_grant o.provider o.now (open_grants rs)
    pub valid_is : (evaluate_store p o st).0.valid ≡ true
    pub records : List LedgerRecord
    pub warnings : List Warning
    pub accepts : verify_store p (evaluate_store p o st).1 ≡ accepted records warnings
    pub effect :
        ((o.execute ≡ true)
          × (o.lockable ≡ true)
          × (open_grants records ≡ keep (λ g. not (is_expired o.now g)) (open_grants rs)))
        ⊎ (((o.execute ≡ false) ⊎ (o.lockable ≡ false)) × ((evaluate_store p o st).1 ≡ st))

  -- Whether the call may write.
  may_write :
      ((o.execute ≡ true) × (o.lockable ≡ true)) ⊎ ((o.execute ≡ false) ⊎ (o.lockable ≡ false))
  may_write = ground arith

  module _ (rs : List LedgerRecord) (ws : List Warning) (st : Store)
      (e : verify_store p st ≡ accepted rs ws) where
    -- Nothing is written: no grant is expired, or the command only reads.
    Evaluates-quietly :
        (o.execute && any (is_expired o.now) (open_grants rs)) ≡ false → Evaluates rs st
    unfolding evaluate_store
    Evaluates-quietly quiet = record {
      grant_is = rw (e, quiet);
      valid_is = rw (e, quiet);
      records = rs;
      warnings = ws;
      accepts = rw (e, quiet) e;
      effect = elim may_write [
        | inl (x, l) ↦ inl (x, l, sym (keep-running (open_grants rs) (ground arith)))
        | inr reads ↦ inr (reads, rw (e, quiet))
      ];
    }

    Evaluates-locked_out :
        (o.execute && any (is_expired o.now) (open_grants rs)) ≡ true
        → o.lockable ≡ false
        → Evaluates rs st
    unfolding evaluate_store
    Evaluates-locked_out due out = record {
      grant_is = rw (e, due, out) (rw e);
      valid_is = rw (e, due, out) (rw e);
      records = rs;
      warnings = ws;
      accepts = rw (e, due, out) e;
      effect = inr (inr out, rw (e, due, out));
    }

    Evaluates-sweeping :
        (o.execute && any (is_expired o.now) (open_grants rs)) ≡ true
        → o.lockable ≡ true
        → Evaluates rs st
    unfolding evaluate_store
    Evaluates-sweeping due lock =
        let s = expire_grants-IsSwept o.now p rs ws st e in
        let step : evaluate_store p o st ≡ (
          record {
            grant = granted p o (accepted s.records s.warnings);
            warnings = ws;
            valid = true;
          },
          (expire_grants p o.now st).1,
        ) =
          rw (e, due, lock) (evaluated-ok ws (expire_grants p o.now st) s.done ∙ rw s.accepts) in
        record {
          grant_is = rw step (granted_swept rs s.records ws s.warnings s.running);
          valid_is = rw step;
          records = s.records;
          warnings = s.warnings;
          accepts = rw step s.accepts;
          effect = inl (ground arith, lock, s.running);
        }

-- On an accepted ledger `evaluateEmergency` reports the grant that runs for the provider, whether or
-- not it executes and gets the lock, and leaves an accepted ledger. With the lock, an executing call
-- leaves open exactly the grants that have not expired; a call that does not execute, or does not get
-- the lock, leaves the store as it was.
pub evaluate_store-Evaluates :
    (p : Platform) (o : EvaluateOptions) (rs : List LedgerRecord) (ws : List Warning) (st : Store)
    → verify_store p st ≡ accepted rs ws
    → Evaluates p o rs st
evaluate_store-Evaluates p o rs ws st e =
    elim (Bool-cases (o.execute && any (is_expired o.now) (open_grants rs))) [
      | inr quiet ↦ Evaluates-quietly p o rs ws st e quiet
      | inl due ↦ elim (Bool-cases o.lockable) [
        | inl lock ↦ Evaluates-sweeping p o rs ws st e due lock
        | inr out ↦ Evaluates-locked_out p o rs ws st e due out
      ]
    ]

active_none :
    (q : Provider) (now : ℕ) (gs : List Opened)
    → All (λ h. same_provider h.provider q ≡ false) gs
    → active_grant q now gs ≡ none
unfolding active_grant
active_none q now [] a = refl
active_none q now (h ∷ hs) a = ground (arith, active_none q now hs a.1)

pub active-IsSingle :
    (q : Provider) (now : ℕ) (gs : List Opened)
    → IsSingle gs
    → (g : Opened) → active_grant q now gs ≡ some g
    → (provider_grant q gs ≡ some g) × (now < g.expires_at.instant)
unfolding active_grant provider_grant
active-IsSingle q now [] s g e = cc
active-IsSingle q now (h ∷ hs) s g e = elim (Bool-cases (same_provider h.provider q)) [
  | inl mine ↦
      let none_left : active_grant q now hs ≡ none =
        active_none q now hs (rw ((same_provider_iff h.provider q).0 mine) at s.0) in
      ground (arith, none_left)
  | inr theirs ↦ ground (arith, active-IsSingle q now hs s.1 g)
]

pub verified_eta : (v : Verified) → v.valid ≡ true → v ≡ accepted v.records v.warnings
verified_eta v e = λ i. record { valid = e i; records = v.records; warnings = v.warnings }

evaluate_store_refused :
    (p : Platform) (o : EvaluateOptions) (st : Store)
    → (verify_store p st).valid ≡ false
    → (evaluate_store p o st).0.grant ≡ none
unfolding evaluate_store
evaluate_store_refused p o st e = ground arith

-- A grant that `evaluateEmergency` reports is the last one that was opened for the provider, nothing
-- has closed it, and it has not expired; from a ledger that is not accepted it reports none.
pub evaluate_store-grant :
    (p : Platform) (o : EvaluateOptions) (st : Store) (g : Opened)
    → (evaluate_store p o st).0.grant ≡ some g
    → IsOpen o.provider g (verify_store p st).records
      × (o.now < g.expires_at.instant)
      × ((verify_store p st).valid ≡ true)
evaluate_store-grant p o st g e = elim (Bool-cases (verify_store p st).valid) [
  | inr refused ↦ cc (evaluate_store_refused p o st refused)
  | inl valid ↦
      let v = verify_store p st in
      let same = evaluate_store-Evaluates p o v.records v.warnings st (verified_eta v valid) in
      let (found, later) =
        active-IsSingle o.provider o.now (open_grants v.records) (open_grants-IsSingle v.records) g
          (sym same.grant_is ∙ e) in
      ((open_grants_iff o.provider g v.records).0 found, later, valid)
]
