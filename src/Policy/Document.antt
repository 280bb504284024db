-- ===== src/Policy/Document.antt =====
-- `rules`, `entry` and `parseProviderPolicy` of src/provider-policy.mjs, over the parts of
-- Policy.Parse.
use agent_context_broker.Prelude.{
  ℕ, String, Bool, true, false, ◌&&◌, ◌||◌, Option, none, some, List, [], ◌∷◌, leb, ◌==◌,
  if◌then◌else◌, length, all,
}
use agent_context_broker.Prelude.Text.{units, is_lower, is_digit}
use agent_context_broker.Platform.{Platform}
use agent_context_broker.Emergency.Record.{Provider}
use agent_context_broker.Json.{Json, null, bool, num, str, obj, Fields}
use agent_context_broker.Json.Access.{get_field, has_only}
use agent_context_broker.Policy.{Rules, PublishRules, Entry, Policy}
use agent_context_broker.Policy.Parse.{
  ◌>>=◌, accept, is_named, patterns, parse_ceiling, evidence_classes_of,
}

abbrev pub of_key : String → Fields → Option Json
of_key k fs = get_field (units k) fs

abbrev pub read_fields : List String
read_fields = "allow" ∷ "deny" ∷ []

-- `rules` with `READ_FIELDS`
unfoldable pub read_rules : Option Json → Option (Option Rules)
read_rules none = some none
read_rules (some (obj fs)) = accept (has_only read_fields fs) (do
  allow ← patterns (of_key "allow" fs)
  deny ← patterns (of_key "deny" fs)
  some (some (record { allow = allow; deny = deny })))
read_rules (some _) = none

abbrev pub publish_fields : List String
publish_fields = "allow" ∷ "deny" ∷ "maxSensitivity" ∷ "evidenceClasses" ∷ []

-- `rules` with `PUBLISH_FIELDS`
unfoldable pub publish_rules : Option Json → Option (Option PublishRules)
publish_rules none = some none
publish_rules (some (obj fs)) = accept (has_only publish_fields fs) (do
  allow ← patterns (of_key "allow" fs)
  deny ← patterns (of_key "deny" fs)
  ceiling ← parse_ceiling (of_key "maxSensitivity" fs)
  classes ← evidence_classes_of (of_key "evidenceClasses" fs)
  some (
      some (record {
        rules = record { allow = allow; deny = deny };
        max_sensitivity = ceiling;
        evidence_classes = classes;
      })))
publish_rules (some _) = none

-- `value.strictIsolation === true`
abbrev pub isolation_flag : Option Json → Option Bool
isolation_flag none = some false
isolation_flag (some (bool b)) = some b
isolation_flag (some _) = none

-- `allow` or `deny`, and `deny` where nothing is said.
abbrev source_allowed : Option Json → Option Bool
source_allowed none = some false
source_allowed (some (str t)) =
    if is_named t "allow" then some true else if is_named t "deny" then some false else none
source_allowed (some _) = none

abbrev pub sources_allowed : Option Json → Option Bool
sources_allowed none = some false
sources_allowed (some (obj fs)) =
    accept (has_only ("teamShared" ∷ []) fs) (source_allowed (of_key "teamShared" fs))
sources_allowed (some _) = none

-- A `decimal` is no integer between 0 and 65536.
abbrev pub context_bytes : Option Json → Option ℕ
context_bytes none = some 2048
context_bytes (some (num n)) = accept (leb n 65536) (some n)
context_bytes (some _) = none

abbrev pub team_shared_bytes : Option Json → Option ℕ
team_shared_bytes none = some 2048
team_shared_bytes (some (obj fs)) =
    accept (has_only ("maxContextBytes" ∷ []) fs) (context_bytes (of_key "maxContextBytes" fs))
team_shared_bytes (some _) = none

abbrev is_alphanumeric : ℕ → Bool
is_alphanumeric c = is_lower c || leb b'A' c && leb c b'Z' || is_digit c

abbrev is_key_unit : ℕ → Bool
is_key_unit c = is_alphanumeric c || c == b'.' || c == b'_' || c == b'-'

-- `/^[A-Za-z0-9][A-Za-z0-9._-]{0,95}$/u`
abbrev is_project_key : List ℕ → Bool
is_project_key [] = false
is_project_key (c ∷ cs) = is_alphanumeric c && leb (length cs) 95 && all is_key_unit cs

abbrev pub project_of : Option Json → Option (Option (Option (List ℕ)))
project_of none = some none
project_of (some null) = some (some none)
project_of (some (str t)) = accept (is_project_key t) (some (some (some t)))
project_of (some _) = none

abbrev pub entry_fields : List String
entry_fields =
    "strictIsolation" ∷ "defaultProject" ∷ "read" ∷ "publish" ∷ "sources" ∷ "teamShared" ∷ []

-- `entry`
unfoldable pub entry_of : Fields → Option Entry
entry_of fs = accept (has_only entry_fields fs) (do
  bytes ← team_shared_bytes (of_key "teamShared" fs)
  shares ← sources_allowed (of_key "sources" fs)
  isolated ← isolation_flag (of_key "strictIsolation" fs)
  default ← project_of (of_key "defaultProject" fs)
  read ← read_rules (of_key "read" fs)
  publish ← publish_rules (of_key "publish" fs)
  some (record {
    strict_isolation = isolated;
    team_shared = shares;
    max_context_bytes = bytes;
    default_project = default;
    read = read;
    publish = publish;
  }))

-- The entry of a provider, which the document may not have.
abbrev pub provider_entry : Option Json → Option (Option Entry)
provider_entry none = some none
provider_entry (some (obj fs)) = do e ← entry_of fs; some (some e)
provider_entry (some _) = none

-- `schemaVersion` is 1.
pub record ParsedPolicy : Type 0 where
  pub sha256 : String
  pub policy : Policy

abbrev pub provider_key : Provider → String
provider_key Provider.codex = "codex"
provider_key Provider.claude_code = "claude-code"

abbrev pub provider_names : List String
provider_names = provider_key Provider.codex ∷ provider_key Provider.claude_code ∷ []

unfoldable pub parse_providers : Fields → Option Policy
parse_providers ps = accept (has_only provider_names ps) (do
  codex ← provider_entry (of_key (provider_key Provider.codex) ps)
  claude_code ← provider_entry (of_key (provider_key Provider.claude_code) ps)
  some (record { codex_entry = codex; claude_code_entry = claude_code }))

abbrev is_one : Option Json → Bool
is_one (some (num n)) = n == 1
is_one _ = false

abbrev pub is_policy_document : Fields → Bool
is_policy_document fs =
    is_one (of_key "schemaVersion" fs) && has_only ("schemaVersion" ∷ "providers" ∷ []) fs

abbrev pub providers_of : Option Json → Option Policy
providers_of (some (obj ps)) = parse_providers ps
providers_of _ = none

unfoldable pub parse_document : Json → Option Policy
parse_document (obj fs) = accept (is_policy_document fs) (providers_of (of_key "providers" fs))
parse_document _ = none

module _ (json_parse : List ℕ → Option Json) (p : Platform) where
  -- `parseProviderPolicy`
  unfoldable pub parse_provider_policy : List ℕ → Option ParsedPolicy
  parse_provider_policy text = do
    document ← json_parse text
    policy ← parse_document document
    some (record { sha256 = p.sha256 text; policy = policy })
