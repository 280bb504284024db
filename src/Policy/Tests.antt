-- ===== src/Policy/Tests.antt =====
-- A policy that isolates one provider and lets the other publish to its projects but one.
use agent_context_broker.Prelude.{
  ℕ, ◌≡◌, ◌↔◌, ◌<◌, refl, true, false, List, [], ◌∷◌, none, some, leb, ◌&&◌, ◌+◌, if◌then◌else◌,
}
use agent_context_broker.Prelude.Text.{units}
use agent_context_broker.Platform.Sample.{sample_platform}
use agent_context_broker.Emergency.Record.{Provider, Opened}
use agent_context_broker.Emergency.Ledger.{verify_store}
use agent_context_broker.Emergency.Grants.Track.{IsOpen}
use agent_context_broker.Emergency.Commands.{evaluate_store}
use agent_context_broker.Emergency.Tests.{one_grant, early_options, early_grant}
use agent_context_broker.Policy.{
  Scope, project, Rules, Policy, Item, shared, ranked, allowed, glob_match, policy_entry,
  publish_refusal,
}
use agent_context_broker.Policy.Permission.{
  IsDenied, IsAdmitted, allowed_iff, publish_refusal-isolated,
}
use agent_context_broker.Policy.Publishable.{IsPublishable, publish_refusal_iff}

-- Case folding of ASCII.
abbrev fold : ℕ → ℕ
fold c = if leb b'A' c && leb c b'Z' then c + 32 else c

abbrev rules : Rules
rules = record {
  allow = some (record { kind = some project; glob = units "app-*" } ∷ []);
  deny = some (record { kind = none; glob = units "*secret" } ∷ []);
}

abbrev app : Scope
app = record { kind = project; key = units "App-one" }

abbrev policy : Policy
policy = record {
  codex_entry = some (record {
    strict_isolation = true;
    team_shared = false;
    max_context_bytes = 2048;
    default_project = none;
    read = none;
    publish = none;
  });
  claude_code_entry = some (record {
    strict_isolation = false;
    team_shared = false;
    max_context_bytes = 2048;
    default_project = none;
    read = some rules;
    publish =
        some (record {
          rules = rules;
          max_sensitivity = some (ranked shared);
          evidence_classes = none;
        });
  });
}

abbrev items : List Item
items = record { sensitivity = none; evidence_class = none } ∷ []

allowed_iff_example :
    (allowed fold (some rules) (some app) ≡ true)
    ↔ ((IsDenied fold app rules.deny → ⊥) × IsAdmitted fold app rules.allow)
allowed_iff_example = allowed_iff fold rules app

app-allowed : allowed fold (some rules) (some app) ≡ true
unfolding allowed glob_match
app-allowed = refl

publish_refusal_iff_example :
    (publish_refusal fold policy none Provider.claude_code (some app) items ≡ none)
    ↔ IsPublishable fold policy none Provider.claude_code (some app) items
publish_refusal_iff_example =
    publish_refusal_iff fold policy none Provider.claude_code (some app) items

lifted :
    publish_refusal fold policy
      (evaluate_store sample_platform early_options one_grant).0.grant
      Provider.codex
      (some app)
      items
    ≡ none
unfolding publish_refusal policy_entry
lifted = rw early_grant

publish_refusal-isolated_example :
    (g : Opened) × IsOpen Provider.codex g (verify_store sample_platform one_grant).records
    × (2000 < g.expires_at.instant)
    × ((verify_store sample_platform one_grant).valid ≡ true)
publish_refusal-isolated_example =
    publish_refusal-isolated sample_platform early_options one_grant fold policy
      (record {
        strict_isolation = true;
        team_shared = false;
        max_context_bytes = 2048;
        default_project = none;
        read = none;
        publish = none;
      })
      (some app) items refl refl lifted
