-- ===== src/Policy/Declared.antt =====
-- From the text of a policy to what it refuses: a provider that the document isolates, and no grant
-- lifts, publishes nothing and does not read the shared source.
use agent_context_broker.Prelude.{ℕ, ◌≡◌, refl, sym, ◌∙◌, ap, true, false, Option, none, some, List}
use agent_context_broker.Platform.{Platform}
use agent_context_broker.Emergency.Record.{Provider}
use agent_context_broker.Json.{Json, bool, obj, Fields}
use agent_context_broker.Json.Access.{has_only}
use agent_context_broker.Policy.{
  Scope, Entry, Policy, Item, isolated, own_entry, policy_entry, publish_refusal,
  team_shared_readable,
}
use agent_context_broker.Policy.Document.{
  of_key, provider_key, read_rules, publish_rules, team_shared_bytes, sources_allowed,
  isolation_flag, project_of, entry_of, provider_entry, ParsedPolicy, entry_fields,
  parse_provider_policy,
}
use agent_context_broker.Policy.Entries.{
  Yields, some-Yields, bind-Yields, accept-Yields, parse_provider_policy-entry,
}

abbrev IsIsolated : Option Entry → Type 0
IsIsolated none = ⊥
IsIsolated (some e) = e.strict_isolation ≡ true

abbrev IsIsolatedEntry : Entry → Type 0
IsIsolatedEntry e = e.strict_isolation ≡ true

entry_of-IsIsolated :
    (fs : Fields)
    → of_key "strictIsolation" fs ≡ some (bool true)
    → Yields IsIsolatedEntry (entry_of fs)
unfolding entry_of
entry_of-IsIsolated fs flag = accept-Yields IsIsolatedEntry (has_only entry_fields fs) _ λ known.
    bind-Yields IsIsolatedEntry (team_shared_bytes (of_key "teamShared" fs)) _ λ bytes b.
      bind-Yields IsIsolatedEntry (sources_allowed (of_key "sources" fs)) _ λ shares s.
        bind-Yields IsIsolatedEntry (isolation_flag (of_key "strictIsolation" fs)) _ λ alone i.
          bind-Yields IsIsolatedEntry (project_of (of_key "defaultProject" fs)) _ λ default d.
            bind-Yields IsIsolatedEntry (read_rules (of_key "read" fs)) _ λ read r.
              bind-Yields IsIsolatedEntry (publish_rules (of_key "publish" fs)) _
                λ publish p. some-Yields IsIsolatedEntry _ (cc (rw flag at i))

provider_entry-IsIsolated :
    (fs : Fields)
    → of_key "strictIsolation" fs ≡ some (bool true)
    → Yields IsIsolated (provider_entry (some (obj fs)))
provider_entry-IsIsolated fs flag =
    bind-Yields IsIsolated (entry_of fs) _
      λ e read. some-Yields IsIsolated (some e) (entry_of-IsIsolated fs flag e read)

obj-inj : {fs gs : Fields} → some (obj fs) ≡ some (obj gs) → fs ≡ gs
obj-inj h = cc

own_entry-IsIsolated :
    (o : Option Json) (es : Fields) (e : Option Entry)
    → o ≡ some (obj es)
    → of_key "strictIsolation" es ≡ some (bool true)
    → provider_entry o ≡ some e
    → IsIsolated e
own_entry-IsIsolated o es e same flag h = provider_entry-IsIsolated es flag e (rw same at h)

refused :
    (fold : ℕ → ℕ) (c : Policy) (q : Provider) (e : Option Entry) (s : Option Scope)
    (is : List Item)
    → own_entry c q ≡ e
    → IsIsolated e
    → (publish_refusal fold c none q s is ≡ some isolated) × (team_shared_readable c none q ≡ false)
unfolding publish_refusal policy_entry team_shared_readable
refused fold c q none s is own alone = elim alone [ ]
refused fold c q (some e) s is own alone = rw (own, alone) (refl, refl)

-- If the text of a policy, which the parse accepts, sets the isolation of a provider, and no grant runs,
-- then `assertPublishable` refuses whatever the provider publishes, and it may not read the shared source.
pub parse_provider_policy-isolated :
    (json_parse : List ℕ → Option Json) (p : Platform) (text : List ℕ) (parsed : ParsedPolicy)
    (fold : ℕ → ℕ) (q : Provider) (s : Option Scope) (is : List Item) (fs ps es : Fields)
    → parse_provider_policy json_parse p text ≡ some parsed
    → json_parse text ≡ some (obj fs)
    → of_key "providers" fs ≡ some (obj ps)
    → of_key (provider_key q) ps ≡ some (obj es)
    → of_key "strictIsolation" es ≡ some (bool true)
    → (publish_refusal fold parsed.policy none q s is ≡ some isolated)
      × (team_shared_readable parsed.policy none q ≡ false)
parse_provider_policy-isolated json_parse p text parsed fold q s is fs ps es h read found own flag =
    let (gs, rs, read', found', own') = parse_provider_policy-entry json_parse p text q parsed h in
    let same_fs : fs ≡ gs = obj-inj (sym read ∙ read') in
    let same_ps : ps ≡ rs = obj-inj (sym found ∙ ap (of_key "providers") same_fs ∙ found') in
    refused fold parsed.policy q (own_entry parsed.policy q) s is refl (
      own_entry-IsIsolated (of_key (provider_key q) rs) es (own_entry parsed.policy q)
        (sym (ap (of_key (provider_key q)) same_ps) ∙ own) flag own')
