-- ===== src/Policy/Summary.antt =====
-- `describeProviderPolicy` of src/provider-policy.mjs: what the doctor shows of a policy, counts in place
-- of patterns. `none` stands for `all`, `any` and `unrestricted`.
use agent_context_broker.Prelude.{ℕ, String, Bool, Option, none, some, List, length}
use agent_context_broker.Policy.{Grade, Rules, PublishRules, Entry, Policy}

pub data ProjectState : Type 0 where
  inherited_project no_project set_project : ProjectState

pub record RulesSummary : Type 0 where
  pub allow : Option ℕ
  pub deny : ℕ

pub record PublishSummary : Type 0 where
  pub rules : RulesSummary
  pub max_sensitivity : Option Grade
  pub evidence_classes : Option ℕ

pub record EntrySummary : Type 0 where
  pub strict_isolation : Bool
  pub team_shared : Bool
  pub default_project : ProjectState
  pub read : Option RulesSummary
  pub publish : Option PublishSummary

-- The digest is missing where a ledger of grants exists and no policy file.
pub data Summary : Type 0 where
  absent : Summary
  loaded : (sha256 : Option String) → (codex claude_code : Option EntrySummary) → Summary

abbrev size_of {ℓ} : {A : Type ℓ} → Option (List A) → Option ℕ
size_of none = none
size_of (some xs) = some (length xs)

abbrev size_or_zero {ℓ} : {A : Type ℓ} → Option (List A) → ℕ
size_or_zero none = 0
size_or_zero (some xs) = length xs

abbrev rules_summary : Rules → RulesSummary
rules_summary r = record { allow = size_of r.allow; deny = size_or_zero r.deny }

abbrev read_summary : Option Rules → Option RulesSummary
read_summary none = none
read_summary (some r) = some (rules_summary r)

abbrev publish_summary : Option PublishRules → Option PublishSummary
publish_summary none = none
publish_summary (some r) = some (record {
  rules = rules_summary r.rules;
  max_sensitivity = r.max_sensitivity;
  evidence_classes = size_of r.evidence_classes;
})

abbrev project_state : Option (Option (List ℕ)) → ProjectState
project_state none = inherited_project
project_state (some none) = no_project
project_state (some (some key)) = set_project

abbrev entry_summary : Option Entry → Option EntrySummary
entry_summary none = none
entry_summary (some e) = some (record {
  strict_isolation = e.strict_isolation;
  team_shared = e.team_shared;
  default_project = project_state e.default_project;
  read = read_summary e.read;
  publish = publish_summary e.publish;
})

-- The argument is null, or a policy with its digest.
unfoldable pub describe_provider_policy : Option (Option String × Policy) → Summary
describe_provider_policy none = absent
describe_provider_policy (some (sha256, p)) =
    loaded sha256 (entry_summary p.codex_entry) (entry_summary p.claude_code_entry)
