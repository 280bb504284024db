-- ===== src/Emergency/Lifecycle.antt =====
-- Opening a grant, on every outcome of `openEmergency`.
use mathlib.Core.List.{append-nil}
use agent_context_broker.Prelude.{
  ℕ, ◌≡◌, ◌<◌, refl, ap, ◌∙◌, String, Bool, true, false, not, Option, none, some, List, [], ◌∷◌,
  ◌++◌, length, keep, any, all, contains, All, arith,
}
use agent_context_broker.Prelude.Text.{units, is_space}
use agent_context_broker.Platform.{Platform, Stamp}
use agent_context_broker.Emergency.Record.{
  Provider, Window, Opened, opened, is_identifier, is_control, optional, reason_matches,
  record_schema,
}
use agent_context_broker.Emergency.Open.{
  Argument, given, is_supported, window_argument, reason_valid, until_valid, validate_open,
  opened_valid,
}
use agent_context_broker.Emergency.Ledger.{
  LedgerRecord, Store, Warning, invalid, accepted, verify_store, ok, admits, entry_for,
  append_unlocked, known_or_absent,
}
use agent_context_broker.Emergency.Ledger.Append.{
  verify-Holds, append_unlocked-verify, append_unlocked_lem, verify_rejected,
}
use agent_context_broker.Emergency.Ledger.Scan.{opened_ids, opened_ids-append}
use agent_context_broker.Emergency.Grants.{
  set_grant, open_from, open_grants, is_expired, active_grant,
}
use agent_context_broker.Emergency.Grants.Track.{find_some}
use agent_context_broker.Emergency.Invariant.{IsKnown, open_grants-append}
use agent_context_broker.Emergency.Evaluate.{accepted-IsSound, without-expired}
use agent_context_broker.Emergency.Expiry.{IsClosed, close_expired-IsClosed}
use agent_context_broker.Emergency.Commands.{
  OpenOptions, given_value, or_default, argument_or, opening, build_from, build_open, open_locked,
  open_emergency, appended, close_expired, ▸-ok,
}

-- A reason that `validateOpen` passes has the schema's shape.
all-not : (f : ℕ → Bool) (xs : List ℕ) → any f xs ≡ false → all (λ c. not (f c)) xs ≡ true
all-not f [] e = refl
all-not f (x ∷ xs) e = ground (arith, all-not f xs)

any-length : (f : ℕ → Bool) (xs : List ℕ) → any f xs ≡ true → 0 < length xs
any-length f [] e = cc
any-length f (x ∷ xs) e = omega arith

reason_valid-matches : (s : String) → reason_valid (given s) ≡ true → reason_matches s ≡ true
unfolding reason_valid reason_matches
reason_valid-matches s e =
    ground (arith, all-not is_control (units s), any-length (λ c. not (is_space c)) (units s))

window_supported : (w : Option Window) → is_supported (window_argument w) ≡ true
window_supported none = refl
window_supported (some w) = refl

record_valid :
    (p : Platform) (o : OpenOptions) (q : Provider) (reason : String) (until : Stamp)
    (prior : Option Opened)
    → validate_open o.input o.now ≡ true
    → o.input.reason ≡ given reason
    → o.input.until ≡ given until
    → opened_valid (opening p o q reason until prior) ≡ true
unfolding validate_open opened_valid until_valid
record_valid p o q reason until prior v er eu =
    let r : reason_valid (given reason) ≡ true = ground arith in
    let u : until_valid (given until) o.now ≡ true = ground arith in
    rw (r, u, window_supported (given_value o.input.window))

pub build_from-eq-ok :
    (p : Platform) (o : OpenOptions) (rs : List LedgerRecord) (g : Opened) (a : Argument Provider)
    (b : Argument String) (c : Argument Stamp)
    → build_from p o rs a b c ≡ ok g
    → (q : Provider) × (reason : String) × (until : Stamp) × (a ≡ given q)
      × (b ≡ given reason)
      × (c ≡ given until)
      × (g ≡ opening p o q reason until (active_grant q o.now (open_grants rs)))
unfolding build_from
build_from-eq-ok p o rs g (given q) (given reason) (given until) e =
    (q, reason, until, refl, refl, refl, ground arith)
build_from-eq-ok p o rs g _ _ _ e = cc

prior_known :
    (ids : List String) (gs : List Opened) (q : Provider) (now : ℕ) (prior : Option Opened)
    → All (IsKnown ids) gs
    → active_grant q now gs ≡ prior
    → (optional is_identifier (argument_or (λ (g : Opened). some g.grant_id) none prior) ≡ true)
      × (known_or_absent ids (argument_or (λ (g : Opened). some g.grant_id) none prior) ≡ true)
unfolding active_grant
prior_known ids gs q now none a e = (refl, refl)
prior_known ids gs q now (some g) a e =
    let k : IsKnown ids g = find_some _ (IsKnown ids) gs g a e in (k.shaped, k.listed)

-- What `build` has established when it returns a record.
pub record IsBuilt (ids : List String) (g : Opened) : Type 0 where
  pub shaped : record_schema (opened g) ≡ true
  pub valid : opened_valid g ≡ true
  pub known_prior : known_or_absent ids g.supersedes ≡ true

abbrev pub new_id : OpenOptions → String
new_id o = or_default o.fresh_id o.grant_id

build_open-IsBuilt :
    (p : Platform) (o : OpenOptions) (rs : List LedgerRecord) (ws : List Warning) (g : Opened)
    → All (IsKnown (opened_ids rs)) (open_grants rs)
    → validate_open o.input o.now ≡ true
    → is_identifier (new_id o) ≡ true
    → build_open p o (accepted rs ws) ≡ ok g
    → IsBuilt (opened_ids rs) g × (g.grant_id ≡ new_id o)
unfolding build_open record_schema
build_open-IsBuilt p o rs ws g a v ident b =
    let (q, reason, until, eq, er, eu, same) =
      build_from-eq-ok p o rs g o.input.provider o.input.reason o.input.until b in
    let (shaped, known) =
      prior_known (opened_ids rs) (open_grants rs) q o.now (active_grant q o.now (open_grants rs)) a
        refl in
    let reason_ok : reason_matches reason ≡ true =
      reason_valid-matches reason (unfold validate_open in ground arith) in
    rw same (
      record {
        shaped = rw (ident, reason_ok) shaped;
        valid = record_valid p o q reason until _ v er eu;
        known_prior = known;
      },
      refl,
    )

module _ (p : Platform) (o : OpenOptions) (rs : List LedgerRecord) (ws : List Warning) (st : Store)
    (g : Opened) where
  -- What an executing `openEmergency` has made of a store that holds `rs`.
  pub record Opens : Type 0 where
    pub written : LedgerRecord
    pub returns : (open_emergency p o st).0 ≡ ok (appended written)
    pub content_is : written.content ≡ opened g
    pub records : List LedgerRecord
    pub accepts : verify_store p (open_emergency p o st).1 ≡ accepted records []
    pub running :
        open_grants records ≡ set_grant g (keep (λ h. not (is_expired o.now h)) (open_grants rs))

module _ (p : Platform) (o : OpenOptions) (rs : List LedgerRecord) (ws : List Warning) (st : Store)
    (g : Opened) (e : verify_store p st ≡ accepted rs ws)
    (b : build_open p o (accepted rs ws) ≡ ok g) where
  -- The store once the expired grants are closed.
  swept_store : Store
  swept_store = (close_expired p o.now (open_grants rs) st).1

  closes : IsClosed p o.now rs (open_grants rs) st
  closes =
      close_expired-IsClosed p o.now (open_grants rs) st rs ws e
        (accepted-IsSound p rs ws st e).known

  swept_ids : opened_ids (rs ++ closes.more) ≡ opened_ids rs
  swept_ids = simp (opened_ids-append, closes.same_ids, append-nil)

  open_locked_lem :
      (r : LedgerRecord)
      → (append_unlocked p (opened g) swept_store).0 ≡ ok r
      → open_locked p o st ≡ (ok (appended r), (append_unlocked p (opened g) swept_store).1)
  unfolding open_locked swept_store
  open_locked_lem r a =
      ▸-ok (build_open p o (verify_store p st), st) _ g (rw e b)
      ∙ rw e (
          ▸-ok (close_expired p o.now (open_grants rs) st) _ tt closes.done
          ∙ ▸-ok (append_unlocked p (opened g) (close_expired p o.now (open_grants rs) st).1) _ r a)

  open_admitted :
      IsBuilt (opened_ids rs) g
      → contains g.grant_id (opened_ids rs) ≡ false
      → admits (opened_ids (rs ++ closes.more)) (opened g) ≡ true
  unfolding admits
  open_admitted k fresh = rw (swept_ids, k.valid, fresh, k.known_prior)

  open_emergency_lem :
      validate_open o.input o.now ≡ true
      → o.execute ≡ true
      → o.lockable ≡ true
      → open_emergency p o st ≡ open_locked p o st
  unfolding open_emergency
  open_emergency_lem v x l = simp (v, x, l)

  swept_accepts : verify_store p swept_store ≡ accepted (rs ++ closes.more) closes.warnings
  unfolding swept_store
  swept_accepts = closes.accepts

  opened_running :
      (r : LedgerRecord)
      → r.content ≡ opened g
      → open_grants ((rs ++ closes.more) ++ r ∷ [])
        ≡ set_grant g (keep (λ h. not (is_expired o.now h)) (open_grants rs))
  unfolding open_from
  opened_running r c =
      rw (open_grants-append, open_grants-append, c, closes.leaves)
        (ap (set_grant g)
          (without-expired o.now (open_grants rs) (accepted-IsSound p rs ws st e).distinct))

  opens :
      validate_open o.input o.now ≡ true
      → o.execute ≡ true
      → o.lockable ≡ true
      → IsBuilt (opened_ids rs) g
      → contains g.grant_id (opened_ids rs) ≡ false
      → Opens p o rs ws st g
  opens v x l k fresh =
      let (appends, verifies) =
        append_unlocked-verify p (opened g) swept_store (rs ++ closes.more) closes.warnings
          swept_accepts k.shaped (open_admitted k fresh) in
      let r = entry_for p (rs ++ closes.more) (opened g) in
      let step : open_emergency p o st
          ≡ (ok (appended r), (append_unlocked p (opened g) swept_store).1) =
        open_emergency_lem v x l ∙ open_locked_lem r appends in
      record {
        written = r;
        returns = rw step;
        content_is = refl;
        records = (rs ++ closes.more) ++ r ∷ [];
        accepts = rw step verifies;
        running = opened_running r refl;
      }

-- On an accepted ledger, with an input that `validateOpen` passes, an id of the schema's shape that no
-- record has opened, and a prior grant that the new one extends if there is one, an executing
-- `openEmergency` that gets the lock appends the new grant, and leaves an accepted ledger in which
-- the open grants are those that had not expired, with the new one in its provider's place.
pub open_emergency-Opens :
    (p : Platform) (o : OpenOptions) (rs : List LedgerRecord) (ws : List Warning) (st : Store)
    (g : Opened)
    → verify_store p st ≡ accepted rs ws
    → validate_open o.input o.now ≡ true
    → is_identifier (new_id o) ≡ true
    → contains (new_id o) (opened_ids rs) ≡ false
    → build_open p o (accepted rs ws) ≡ ok g
    → o.execute ≡ true
    → o.lockable ≡ true
    → Opens p o rs ws st g
open_emergency-Opens p o rs ws st g e v ident fresh b x l =
    let (built, same) =
      build_open-IsBuilt p o rs ws g (accepted-IsSound p rs ws st e).known v ident b in
    opens p o rs ws st g e b v x l built (rw same fresh)

-- If a record of the ledger has opened the id before, the same call still returns the new grant, and
-- the ledger that it leaves is refused.
pub open_emergency-reused :
    (p : Platform) (o : OpenOptions) (rs : List LedgerRecord) (ws : List Warning) (st : Store)
    (g : Opened)
    → verify_store p st ≡ accepted rs ws
    → validate_open o.input o.now ≡ true
    → is_identifier (new_id o) ≡ true
    → contains (new_id o) (opened_ids rs) ≡ true
    → build_open p o (accepted rs ws) ≡ ok g
    → o.execute ≡ true
    → o.lockable ≡ true
    → ((r : LedgerRecord) × ((open_emergency p o st).0 ≡ ok (appended r)) × (r.content ≡ opened g))
      × (verify_store p (open_emergency p o st).1 ≡ invalid)
unfolding admits
open_emergency-reused p o rs ws st g e v ident reused b x l =
    let (built, same) =
      build_open-IsBuilt p o rs ws g (accepted-IsSound p rs ws st e).known v ident b in
    let c = closes p o rs ws st g e b in
    let accepts = swept_accepts p o rs ws st g e b in
    let swept = swept_store p o rs ws st g e b in
    let r = entry_for p (rs ++ c.more) (opened g) in
    let appends =
      append_unlocked_lem p (opened g) swept (rs ++ c.more) c.warnings accepts built.shaped in
    let step : open_emergency p o st ≡ (ok (appended r), (append_unlocked p (opened g) swept).1) =
      open_emergency_lem p o rs ws st g e b v x l
      ∙ open_locked_lem p o rs ws st g e b r (rw appends) in
    (
      (r, rw step, refl),
      rw (step, appends)
          (verify_rejected p (rs ++ c.more) (opened g) swept _
            (verify-Holds p (rs ++ c.more) c.warnings swept accepts)
            (rw (swept_ids p o rs ws st g e b, same, reused) (ground arith))),
    )
