-- ===== src/Emergency/Commands.antt =====
-- The commands on the ledger: `evaluateEmergency`, `openEmergency`, `closeEmergency` and
-- `emergencyUse` of src/emergency.mts. A command is a function of the store to its result and the
-- store that it leaves; `lockable` says whether `withEmergencyLock` gets the lock before its
-- deadline, and what runs under the lock runs alone.
use agent_context_broker.Prelude.{
  ℕ, ◌≡◌, ap, arith, String, Bool, true, false, not, ◌&&◌, Option, none, some, List, [], ◌∷◌, ◌++◌,
  leb, if◌then◌else◌, any,
}
use agent_context_broker.Platform.{Platform, Stamp, stamp}
use agent_context_broker.Emergency.Record.{
  Provider, Trigger, Opener, CloseReason, Opened, Closed, RecordData, opened, closed, expired,
  primary_restored, cli,
}
use agent_context_broker.Emergency.Open.{Argument, absent, given, OpenInput, validate_open}
use agent_context_broker.Emergency.Ledger.{
  LedgerRecord, Store, Warning, append_failed, Verified, verify_store, invalid_ledger,
  invalid_grant, not_extended, invalid_close, busy, Result, ok, err, append_unlocked,
}
use agent_context_broker.Emergency.Grants.{open_grants, is_expired, active_grant, provider_grant}

-- A command that goes on from the store that a call leaves, unless the call throws.
infixl 5 ◌▸◌
abbrev pub ◌▸◌ :
    {A B : Type 0} → Result A × Store → (A → Store → Result B × Store) → Result B × Store
◌▸◌ (ok a, st) f = f a st
◌▸◌ (err e, st) f = (err e, st)

pub ▸-ok :
    {A B : Type 0} (m : Result A × Store) (f : A → Store → Result B × Store) (a : A)
    → m.0 ≡ ok a
    → (m ▸ f) ≡ f a m.1
▸-ok (ok b, st) f a e = ap (λ c. f c st) (ground arith)
▸-ok (err c, st) f a e = cc

-- `withEmergencyLock`
abbrev pub with_lock : {A : Type 0} → Bool → (Store → Result A × Store) → Store → Result A × Store
with_lock true action st = action st
with_lock false action st = (err busy, st)

abbrev pub or_default {ℓ} : {A : Type ℓ} → A → Option A → A
or_default d none = d
or_default d (some a) = a

module _ (p : Platform) where
  -- The record that closes an expired grant.
  abbrev pub expiry : ℕ → Opened → RecordData
  expiry now g =
      closed (record { grant_id = g.grant_id; closed_at = stamp p now; reason = expired })

  -- `for (const grant of openGrants(...)) if (expired) appendUnlocked(...)`
  unfoldable pub close_expired : ℕ → List Opened → Store → Result (Unit {0}) × Store
  close_expired now [] st = (ok tt, st)
  close_expired now (g ∷ gs) st =
      let closing = append_unlocked p (expiry now g) st ▸ λ _ st'. close_expired now gs st' in
      let passing = close_expired now gs st in if is_expired now g then closing else passing

  -- What `evaluateEmergency` does under the lock.
  unfoldable pub expire_grants : ℕ → Store → Result (Unit {0}) × Store
  expire_grants now st =
      let fresh = verify_store p st in
      if fresh.valid
      then close_expired now (open_grants fresh.records) st
      else (err invalid_ledger, st)

pub record EvaluateOptions : Type 0 where
  pub provider : Provider
  pub now : ℕ
  pub execute : Bool
  pub lockable : Bool

pub record Evaluation : Type 0 where
  pub grant : Option Opened
  pub warnings : List Warning
  pub valid : Bool

module _ (p : Platform) where
  abbrev pub granted : EvaluateOptions → Verified → Option Opened
  granted o v = if v.valid then active_grant o.provider o.now (open_grants v.records) else none

  abbrev pub evaluated :
      EvaluateOptions → List Warning → Result (Unit {0}) × Store → Evaluation × Store
  evaluated o ws (ok _, st) =
      let v = verify_store p st in
      (record { grant = granted o v; warnings = ws; valid = v.valid }, st)
  evaluated o ws (err _, st) =
      let v = verify_store p st in
      (
        record {
          grant = granted o v;
          warnings = (ws ++ append_failed ∷ []) ++ v.warnings;
          valid = v.valid;
        },
        st,
      )

  -- `evaluateEmergency` at a home that is not null.
  unfoldable pub evaluate_store : EvaluateOptions → Store → Evaluation × Store
  evaluate_store o st =
      let v = verify_store p st in
      if v.valid && o.execute && any (is_expired o.now) (open_grants v.records)
      then evaluated o v.warnings (with_lock o.lockable (expire_grants p o.now) st)
      else (record { grant = granted o v; warnings = v.warnings; valid = v.valid }, st)

  -- `evaluateEmergency`
  unfoldable pub evaluate_emergency : EvaluateOptions → Option Store → Evaluation × Option Store
  unfolding evaluate_store
  evaluate_emergency o none = (record { grant = none; warnings = []; valid = true }, none)
  evaluate_emergency o (some st) = let (e, st') = evaluate_store o st in (e, some st')

pub record OpenOptions : Type 0 where
  pub input : OpenInput
  pub grant_id : Option String
  -- what `randomUUID` returns
  pub fresh_id : String
  pub opened_by : Option Opener
  pub now : ℕ
  pub execute : Bool
  pub lockable : Bool

-- A command that does not execute returns what it would write.
pub data Reply (A : Type 0) : Type 0 where
  planned : A → Reply A
  appended : LedgerRecord → Reply A
  no_grant : Reply A

abbrev pub argument_or {ℓ} : {A B : Type ℓ} → (A → B) → B → Option A → B
argument_or f d none = d
argument_or f d (some a) = f a

abbrev pub given_value : {A : Type 0} → Argument A → Option A
given_value (given a) = some a
given_value _ = none

module _ (p : Platform) where
  abbrev pub opening : OpenOptions → Provider → String → Stamp → Option Opened → Opened
  opening o provider reason until prior = record {
    grant_id = or_default o.fresh_id o.grant_id;
    provider = provider;
    trigger = or_default Trigger.manual (given_value o.input.trigger);
    reason = reason;
    window = given_value o.input.window;
    opened_at = stamp p o.now;
    expires_at = stamp p until.instant;
    opened_by = or_default cli o.opened_by;
    supersedes = argument_or (λ (g : Opened). some g.grant_id) none prior;
  }

  -- `prior && Date.parse(options.until) <= Date.parse(prior.expiresAt)`
  abbrev extends_not : Stamp → Option Opened → Bool
  extends_not until none = false
  extends_not until (some g) = leb until.instant g.expires_at.instant

  -- After `validateOpen` these three are given.
  unfoldable pub build_from :
      OpenOptions
      → List LedgerRecord
      → Argument Provider
      → Argument String
      → Argument Stamp
      → Result Opened
  build_from o rs (given provider) (given reason) (given until) =
      let prior = active_grant provider o.now (open_grants rs) in
      if extends_not until prior
      then err not_extended
      else ok (opening o provider reason until prior)
  build_from o rs _ _ _ = err invalid_grant

  -- The function `build` of `openEmergency`.
  unfoldable pub build_open : OpenOptions → Verified → Result Opened
  build_open o v =
      if not v.valid
      then err invalid_ledger
      else build_from o v.records o.input.provider o.input.reason o.input.until

  -- The action of `openEmergency` under the lock.
  unfoldable pub open_locked : OpenOptions → Store → Result (Reply Opened) × Store
  open_locked o st = ((build_open o (verify_store p st), st)) ▸ λ g st1.
      close_expired p o.now (open_grants (verify_store p st1).records) st1 ▸ λ _ st2.
      append_unlocked p (opened g) st2 ▸ λ r st3. (ok (appended r), st3)

  -- `openEmergency`
  unfoldable pub open_emergency : OpenOptions → Store → Result (Reply Opened) × Store
  open_emergency o st =
      if not (validate_open o.input o.now)
      then (err invalid_grant, st)
      else if o.execute
      then with_lock o.lockable (open_locked o) st
      else (build_open o (verify_store p st), st) ▸ λ g st1. (ok (planned g), st1)

pub record CloseOptions : Type 0 where
  pub provider : Argument Provider
  pub reason : Argument CloseReason
  pub now : ℕ
  pub execute : Bool
  pub lockable : Bool

-- `options.reason ?? 'manual'`, where it is one of the two reasons that the command admits.
abbrev pub close_reason : Argument CloseReason → Option CloseReason
close_reason absent = some CloseReason.manual
close_reason (given CloseReason.manual) = some CloseReason.manual
close_reason (given primary_restored) = some primary_restored
close_reason _ = none

module _ (p : Platform) where
  abbrev pub closing : CloseOptions → CloseReason → Opened → Closed
  closing o reason g = record { grant_id = g.grant_id; closed_at = stamp p o.now; reason = reason }

  -- What `close` does with the grant that it finds.
  unfoldable pub close_found :
      CloseOptions → CloseReason → Option Opened → Store → Result (Reply Closed) × Store
  close_found o reason none st = (ok no_grant, st)
  close_found o reason (some g) st =
      if o.execute
      then (append_unlocked p (closed (closing o reason g)) st ▸ λ r st1. (ok (appended r), st1))
      else (ok (planned (closing o reason g)), st)

  -- The function `close` of `closeEmergency`.
  unfoldable pub close_locked :
      CloseOptions → Provider → CloseReason → Store → Result (Reply Closed) × Store
  close_locked o provider reason st =
      let v = verify_store p st in
      if not v.valid
      then (err invalid_ledger, st)
      else close_found o reason (provider_grant provider (open_grants v.records)) st

  -- After the checks on the provider and the reason.
  unfoldable pub close_checked :
      CloseOptions → Option Provider → Option CloseReason → Store → Result (Reply Closed) × Store
  close_checked o (some provider) (some reason) st =
      if o.execute
      then with_lock o.lockable (close_locked o provider reason) st
      else close_locked o provider reason st
  close_checked o _ _ st = (err invalid_close, st)

  -- `closeEmergency`
  unfoldable pub close_emergency : CloseOptions → Store → Result (Reply Closed) × Store
  close_emergency o st = close_checked o (given_value o.provider) (close_reason o.reason) st
