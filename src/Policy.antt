-- ===== src/Policy.antt =====
-- src/provider-policy.mjs: what a provider may read and publish. Texts are lists of code points.
pub mod Glob
pub mod Bounds
pub mod Declared
pub mod Document
pub mod Entries
pub mod Parse
pub mod Permission
pub mod Publishable
pub mod Summary
mod DocumentTests
mod Tests
use agent_context_broker.Prelude.{
  ℕ, zero, suc, ◌≡◌, refl, String, Bool, true, false, not, ◌&&◌, ◌||◌, Option, none, some, List, [],
  ◌∷◌, ltb, leb, ◌==◌, if◌then◌else◌, length, all, any, contains, str_eq,
}
use agent_context_broker.Emergency.Record.{Provider, Opened}
use agent_context_broker.Emergency.Grants.{same_provider}

pub data ScopeKind : Type 0 where
  global project workstream ticket merge_request : ScopeKind

abbrev pub same_kind : ScopeKind → ScopeKind → Bool
same_kind global global = true
same_kind project project = true
same_kind workstream workstream = true
same_kind ticket ticket = true
same_kind merge_request merge_request = true
same_kind _ _ = false

-- A pattern of `PATTERN`: `*` or a kind, a colon, and a glob.
pub record Pattern : Type 0 where
  pub kind : Option ScopeKind
  pub glob : List ℕ

-- A scope with one of `SCOPE_KINDS` and a text for its key.
pub record Scope : Type 0 where
  pub kind : ScopeKind
  pub key : List ℕ

pub record Rules : Type 0 where
  pub allow : Option (List Pattern)
  pub deny : Option (List Pattern)

pub data Sensitivity : Type 0 where
  shared private restricted : Sensitivity

pub data Evidence : Type 0 where
  canonical_artifact observed_tool_result agent_handoff : Evidence

-- A sensitivity as `SENSITIVITY_RANK` reads it: one with a rank, or any other value, for which it gives no
-- number.
pub data Grade : Type 0 where
  ranked : Sensitivity → Grade
  unranked : Grade

-- The class of evidence of an item: one of `EVIDENCE_CLASSES`, or any other value.
pub data EvidenceClass : Type 0 where
  known : Evidence → EvidenceClass
  unknown : EvidenceClass

pub record PublishRules : Type 0 where
  pub rules : Rules
  pub max_sensitivity : Option Grade
  pub evidence_classes : Option (List Evidence)

-- `team_shared`: `sources.teamShared` is `allow`. The default project may be missing, or none.
pub record Entry : Type 0 where
  pub strict_isolation : Bool
  pub team_shared : Bool
  pub max_context_bytes : ℕ
  pub default_project : Option (Option (List ℕ))
  pub read : Option Rules
  pub publish : Option PublishRules

-- The entries of a loaded policy. The grant is the one that `evaluateEmergency` reports.
pub record Policy : Type 0 where
  pub codex_entry : Option Entry
  pub claude_code_entry : Option Entry

abbrev is_present {ℓ} : {A : Type ℓ} → Option A → Bool
is_present none = false
is_present (some a) = true

abbrev pub own_entry : Policy → Provider → Option Entry
own_entry p Provider.codex = p.codex_entry
own_entry p Provider.claude_code = p.claude_code_entry

abbrev pub is_lifted : Option Opened → Provider → Bool
is_lifted none q = false
is_lifted (some g) q = same_provider g.provider q

-- `policyEntry`
unfoldable pub policy_entry : Policy → Option Opened → Provider → Option Entry
policy_entry p grant q = if is_lifted grant q then none else own_entry p q

abbrev restricts : Option Entry → Bool
restricts none = false
restricts (some e) = is_present e.read

-- `readRestricted`
unfoldable pub read_restricted : Policy → Option Opened → Provider → Bool
read_restricted p grant q = restricts (policy_entry p grant q)

abbrev entry_shares : Option Entry → Bool
entry_shares none = false
entry_shares (some e) = not e.strict_isolation && e.team_shared

-- `teamSharedReadable`
unfoldable pub team_shared_readable : Policy → Option Opened → Provider → Bool
team_shared_readable p grant q = is_lifted grant q || entry_shares (policy_entry p grant q)

abbrev pub rank : Sensitivity → ℕ
rank shared = 0
rank private = 1
rank restricted = 2

abbrev pub same_evidence : Evidence → Evidence → Bool
same_evidence canonical_artifact canonical_artifact = true
same_evidence observed_tool_result observed_tool_result = true
same_evidence agent_handoff agent_handoff = true
same_evidence _ _ = false

-- A sensitivity that is null counts as missing.
pub record Item : Type 0 where
  pub sensitivity : Option Grade
  pub evidence_class : Option EvidenceClass

pub data Refusal : Type 0 where
  isolated scope_denied sensitivity_denied evidence_denied : Refusal

-- `SENSITIVITY_RANK[item.sensitivity ?? 'shared'] > limit`; what is no number is not greater.
abbrev pub exceeds : ℕ → Option Grade → Bool
exceeds limit none = ltb limit (rank shared)
exceeds limit (some (ranked s)) = ltb limit (rank s)
exceeds limit (some unranked) = false

-- Nothing is greater than what is no number.
abbrev pub too_sensitive : Option Grade → Item → Bool
too_sensitive none i = false
too_sensitive (some unranked) i = false
too_sensitive (some (ranked m)) i = exceeds (rank m) i.sensitivity

abbrev pub evidence_refused : List Evidence → Option EvidenceClass → Bool
evidence_refused es none = false
evidence_refused es (some unknown) = true
evidence_refused es (some (known e)) = not (any (same_evidence e) es)

abbrev pub wrong_evidence : Option (List Evidence) → Item → Bool
wrong_evidence none i = false
wrong_evidence (some es) i = evidence_refused es i.evidence_class

-- The loop over the items; `none` where nothing is refused.
unfoldable pub refused_item : PublishRules → List Item → Option Refusal
refused_item r [] = none
refused_item r (i ∷ is) =
    let rest = refused_item r is in
    if too_sensitive r.max_sensitivity i
    then some sensitivity_denied
    else if wrong_evidence r.evidence_classes i
    then some evidence_denied
    else rest

abbrev pub scope_rules : Option PublishRules → Option Rules
scope_rules none = none
scope_rules (some r) = some r.rules

abbrev pub items_refused : Option PublishRules → List Item → Option Refusal
items_refused none is = none
items_refused (some r) is = refused_item r is

-- `.` of an expression with the flag `u` matches all but these.
abbrev pub ends_line : ℕ → Bool
ends_line c = c == 10 || c == 13 || c == 0x2028 || c == 0x2029

abbrev pub skip : (List ℕ → Bool) → List ℕ → Bool
skip k [] = k []
skip k (c ∷ cs) = k (c ∷ cs) || (not (ends_line c) && skip k cs)

module _ (fold : ℕ → ℕ) where
  abbrev pub one : ℕ → (List ℕ → Bool) → List ℕ → Bool
  one c k [] = false
  one c k (d ∷ ds) = fold c == fold d && k ds

  -- `globMatch`; `fold` is the case folding of the flags `iu`.
  unfoldable pub glob_match : List ℕ → List ℕ → Bool
  glob_match [] [] = true
  glob_match [] (d ∷ ds) = false
  glob_match (c ∷ cs) v = if c == b'*' then skip (glob_match cs) v else one c (glob_match cs) v

  abbrev pub kind_matches : Option ScopeKind → ScopeKind → Bool
  kind_matches none k = true
  kind_matches (some j) k = same_kind j k

  abbrev pub pattern_matches : Scope → Pattern → Bool
  pattern_matches s p = kind_matches p.kind s.kind && glob_match p.glob s.key

  -- `matches`
  abbrev pub matches : Option (List Pattern) → Scope → Bool
  matches none s = false
  matches (some ps) s = any (pattern_matches s) ps

  abbrev pub allow_matches : Option (List Pattern) → Scope → Bool
  allow_matches none s = true
  allow_matches (some ps) s = matches (some ps) s

  abbrev pub allowed_scope : Rules → Scope → Bool
  allowed_scope r s = if matches r.deny s then false else allow_matches r.allow s

  -- `allowed`; `none` for a scope of another shape.
  unfoldable pub allowed : Option Rules → Option Scope → Bool
  allowed none s = true
  allowed (some r) none = false
  allowed (some r) (some s) = allowed_scope r s

  abbrev pub entry_readable : Option Entry → Option Scope → Bool
  entry_readable none s = true
  entry_readable (some e) s = allowed e.read s

  -- `scopeReadable`
  unfoldable pub scope_readable : Policy → Option Opened → Provider → Option Scope → Bool
  scope_readable p grant q s = entry_readable (policy_entry p grant q) s

  abbrev pub entry_refusal : Option Entry → Option Scope → List Item → Option Refusal
  entry_refusal none s is = none
  entry_refusal (some e) s is =
      if e.strict_isolation
      then some isolated
      else if allowed (scope_rules e.publish) s
      then items_refused e.publish is
      else some scope_denied

  -- `assertPublishable`: the failure that it throws, or none.
  unfoldable pub publish_refusal :
      Policy → Option Opened → Provider → Option Scope → List Item → Option Refusal
  publish_refusal p grant q s is = entry_refusal (policy_entry p grant q) s is
