-- ===== src/Policy/DocumentTests.antt =====
-- A document that isolates one provider, and bounds the other by a ceiling that every object inherits.
use agent_context_broker.Prelude.{
  ℕ, ◌≡◌, refl, true, false, Option, none, some, List, [], ◌∷◌, if◌then◌else◌,
}
use agent_context_broker.Prelude.Text.{units, is_space}
use agent_context_broker.Platform.Sample.{sample_platform}
use agent_context_broker.Emergency.Record.{Provider}
use agent_context_broker.Json.{
  Json, bool, num, decimal, obj, arr, Fields, end, entry, text, texts, is_high, is_low,
}
use agent_context_broker.Json.Access.{same_text, get_field}
use agent_context_broker.Policy.{
  Entry, project, unranked, Item, ranked, restricted, isolated, own_entry, publish_refusal,
  policy_entry, refused_item, allowed, team_shared_readable,
}
use agent_context_broker.Policy.Parse.{
  split_colon, kind_named, item_texts, parse_pattern, parse_patterns, patterns, parse_ceiling,
  property_name, ceiling_named, evidence_classes_of,
}
use agent_context_broker.Policy.Document.{
  read_rules, publish_rules, entry_of, ParsedPolicy, parse_providers, parse_document,
  parse_provider_policy,
}
use agent_context_broker.Policy.Summary.{loaded, no_project, describe_provider_policy}
use agent_context_broker.Policy.Bounds.{IsBounded, parse_provider_policy-IsBounded}
use agent_context_broker.Policy.Declared.{parse_provider_policy-isolated}

abbrev alone : Fields
alone = entry "strictIsolation" (bool true) (
    entry "read" (obj (entry "allow" (arr (texts ("project:app-*" ∷ "project:app-*" ∷ []))) end))
      end)

abbrev open_entry : Fields
open_entry = entry "publish" (obj (entry "maxSensitivity" (text "constructor") end)) end

abbrev provider_part : Fields
provider_part = entry "codex" (obj alone) (entry "claude-code" (obj open_entry) end)

abbrev document : Fields
document = entry "schemaVersion" (num 1) (entry "providers" (obj provider_part) end)

abbrev policy_text : List ℕ
policy_text = units "the policy"

-- Reads the one text.
abbrev json_parse : List ℕ → Option Json
json_parse t = if same_text t policy_text then some (obj document) else none

abbrev parsed : ParsedPolicy
parsed = record {
  sha256 = sample_platform.sha256 policy_text;
  policy = record {
    codex_entry = some (record {
      strict_isolation = true;
      team_shared = false;
      max_context_bytes = 2048;
      default_project = none;
      read = some (record {
        allow = some (record { kind = some project; glob = units "app-*" } ∷ []);
        deny = none;
      });
      publish = none;
    });
    claude_code_entry = some (record {
      strict_isolation = false;
      team_shared = false;
      max_context_bytes = 2048;
      default_project = none;
      read = none;
      publish = some (record {
        rules = record { allow = none; deny = none };
        max_sensitivity = some unranked;
        evidence_classes = none;
      });
    });
  };
}

accepted : parse_provider_policy json_parse sample_platform policy_text ≡ some parsed
unfolding parse_provider_policy parse_document parse_providers entry_of read_rules publish_rules
    get_field patterns item_texts parse_patterns parse_pattern split_colon kind_named parse_ceiling
    property_name ceiling_named evidence_classes_of is_high is_low is_space
accepted = refl

-- Of a decimal number there is no integer to allow.
fraction_refused :
    parse_document (
      obj (
        entry "schemaVersion" (num 1) (
          entry "providers"
            (obj (
              entry "codex"
                (obj (
                  entry "teamShared"
                    (obj (entry "maxContextBytes" (decimal (units "1.5")) end))
                    end))
                end))
            end)))
    ≡ none
unfolding parse_document parse_providers entry_of get_field
fraction_refused = refl

abbrev secret : List Item
secret = record { sensitivity = some (ranked restricted); evidence_class = none } ∷ []

-- The unranked ceiling lets the highest sensitivity pass.
inherited_ceiling :
    publish_refusal
      (λ c. c)
      parsed.policy
      none
      Provider.claude_code
      (some (record { kind = project; key = units "app" }))
      secret
    ≡ none
unfolding publish_refusal policy_entry refused_item allowed
inherited_ceiling = refl

parse_provider_policy-IsBounded_example : IsBounded (own_entry parsed.policy Provider.codex)
parse_provider_policy-IsBounded_example =
    parse_provider_policy-IsBounded json_parse sample_platform policy_text parsed Provider.codex
      accepted

parse_provider_policy-isolated_example :
    (publish_refusal (λ c. c) parsed.policy none Provider.codex none secret ≡ some isolated)
    × (team_shared_readable parsed.policy none Provider.codex ≡ false)
unfolding get_field
parse_provider_policy-isolated_example =
    parse_provider_policy-isolated json_parse sample_platform policy_text parsed (λ c. c)
      Provider.codex none secret document provider_part alone accepted refl refl refl refl

-- A policy without a file, which a ledger of grants gives.
abbrev counted : Entry
counted = record {
  strict_isolation = false;
  team_shared = true;
  max_context_bytes = 2048;
  default_project = some none;
  read = some (record {
    allow = none;
    deny = some (record { kind = some project; glob = units "app-*" } ∷ []);
  });
  publish = none;
}

counted_summary :
    describe_provider_policy
      (some (none, record { codex_entry = some counted; claude_code_entry = none }))
    ≡ loaded none
        (some (record {
          strict_isolation = false;
          team_shared = true;
          default_project = no_project;
          read = some (record { allow = none; deny = 1 });
          publish = none;
        }))
        none
unfolding describe_provider_policy
counted_summary = refl
