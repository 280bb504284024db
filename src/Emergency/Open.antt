-- ===== src/Emergency/Open.antt =====
-- `validateOpen` of src/emergency.mts: what a request for a grant must satisfy.
use agent_context_broker.Prelude.{
  ℕ, ◌+◌, ◌-◌, ◌*◌, String, Bool, true, false, not, ◌&&◌, Option, none, some, ltb, leb, length, any,
}
use agent_context_broker.Prelude.Text.{units, is_space}
use agent_context_broker.Platform.{Stamp}
use agent_context_broker.Emergency.Record.{Provider, Trigger, Window, Opened, is_control}

-- An argument that the command line or an embedding caller passes: `undefined` (or `null`, where
-- that is taken for it), a value, or something of another kind.
pub data Argument (A : Type 0) : Type 0 where
  absent : Argument A
  given : A → Argument A
  unsupported : Argument A

-- `until` is given when `timestamp.safeParse` accepts it.
pub record OpenInput : Type 0 where
  pub provider : Argument Provider
  pub reason : Argument String
  pub until : Argument Stamp
  pub trigger : Argument Trigger
  pub window : Argument Window

abbrev pub max_duration : ℕ
max_duration = (7 * 24 + 1) * 3600000

abbrev pub is_given : {A : Type 0} → Argument A → Bool
is_given (given a) = true
is_given _ = false

abbrev pub is_supported : {A : Type 0} → Argument A → Bool
is_supported unsupported = false
is_supported _ = true

unfoldable pub reason_valid : Argument String → Bool
reason_valid (given s) =
    any (λ c. not (is_space c)) (units s)
    && leb (length (units s)) 500
    && not (any is_control (units s))
reason_valid _ = false

unfoldable pub until_valid : Argument Stamp → ℕ → Bool
until_valid (given s) now = ltb now s.instant && leb (s.instant - now) max_duration
until_valid _ now = false

-- `validateOpen`; false where it throws.
unfoldable pub validate_open : OpenInput → ℕ → Bool
validate_open input now =
    is_given input.provider
    && reason_valid input.reason
    && until_valid input.until now
    && is_supported input.trigger
    && is_supported input.window

abbrev pub window_argument : Option Window → Argument Window
window_argument none = absent
window_argument (some w) = given w

-- The call of `validateOpen` on a record of the ledger.
unfoldable pub opened_valid : Opened → Bool
opened_valid r =
    validate_open
      (record {
        provider = given r.provider;
        reason = given r.reason;
        until = given r.expires_at;
        trigger = given r.trigger;
        window = window_argument r.window;
      })
      r.opened_at.instant
