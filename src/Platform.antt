-- ===== src/Platform.antt =====
-- What the program takes from Node.js and does not implement: `createHash('sha256')` with a hex
-- digest, and `Date.prototype.toISOString`. A timestamp in a record is a text with the instant, in
-- milliseconds since 1970, that `Date.parse` gives it.
pub mod Sample
use agent_context_broker.Prelude.{ℕ, String, List}

pub record Platform : Type 0 where
  pub sha256 : List ℕ → String
  pub to_iso : ℕ → String

pub record Stamp : Type 0 where
  pub text : String
  pub instant : ℕ

abbrev pub stamp : Platform → ℕ → Stamp
stamp p now = record { text = p.to_iso now; instant = now }
