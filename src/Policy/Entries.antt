-- ===== src/Policy/Entries.antt =====
-- Where the entries of a parsed policy come from, and how a property passes through the steps of a parse.
use mathlib.Core.Option.{some-injective}
use agent_context_broker.Prelude.{
  ℕ, ◌≡◌, refl, ◌∙◌, ap, subst, Bool, true, false, Option, none, some, List,
}
use agent_context_broker.Platform.{Platform}
use agent_context_broker.Emergency.Record.{Provider}
use agent_context_broker.Json.{Json, obj, Fields}
use agent_context_broker.Json.Access.{has_only}
use agent_context_broker.Policy.{Entry, Policy, own_entry}
use agent_context_broker.Policy.Parse.{◌>>=◌, accept}
use agent_context_broker.Policy.Document.{
  of_key, provider_key, provider_entry, providers_of, ParsedPolicy, provider_names,
  is_policy_document, parse_providers, parse_document, parse_provider_policy,
}

-- Whatever the part gives has the property.
abbrev pub Yields {ℓ κ} : {A : Type ℓ} → (A → Type κ) → Option A → Type (ℓ ⊔ κ)
Yields {A} P o = (a : A) → o ≡ some a → P a

pub some-Yields {ℓ κ} : {A : Type ℓ} (P : A → Type κ) (a : A) → P a → Yields P (some a)
some-Yields P a h b e = subst P (some-injective a b e) h

pub bind-Yields {ℓ μ κ} :
    {A : Type ℓ} {B : Type μ} (P : B → Type κ) (o : Option A) (f : A → Option B)
    → ((a : A) → o ≡ some a → Yields P (f a))
    → Yields P (o >>= f)
bind-Yields P none f h b e = cc
bind-Yields P (some a) f h b e = h a refl b e

pub accept-Yields {ℓ κ} :
    {A : Type ℓ} (P : A → Type κ) (test : Bool) (o : Option A)
    → (test ≡ true → Yields P o)
    → Yields P (accept test o)
accept-Yields P false o h b e = cc
accept-Yields P true o h b e = h refl b e

-- What the parse of the providers gives each of them.
abbrev IsParsed : Fields → Provider → Policy → Type 0
IsParsed ps q c = provider_entry (of_key (provider_key q) ps) ≡ some (own_entry c q)

pick :
    (ps : Fields) (q : Provider) (a b : Option Entry)
    → provider_entry (of_key (provider_key Provider.codex) ps) ≡ some a
    → provider_entry (of_key (provider_key Provider.claude_code) ps) ≡ some b
    → IsParsed ps q (record { codex_entry = a; claude_code_entry = b })
pick ps Provider.codex a b ha hb = ha
pick ps Provider.claude_code a b ha hb = hb

parse_providers-IsParsed :
    (ps : Fields) (q : Provider) → Yields (IsParsed ps q) (parse_providers ps)
unfolding parse_providers
parse_providers-IsParsed ps q =
    accept-Yields (IsParsed ps q) (has_only provider_names ps) _ λ known.
      bind-Yields (IsParsed ps q) (provider_entry (of_key (provider_key Provider.codex) ps)) _
        λ a ha.
          bind-Yields (IsParsed ps q)
            (provider_entry (of_key (provider_key Provider.claude_code) ps)) _
            λ b hb. some-Yields (IsParsed ps q) _ (pick ps q a b ha hb)

abbrev IsProvided : Option Json → Provider → Policy → Type 0
IsProvided o q c = (ps : Fields) × (o ≡ some (obj ps)) × IsParsed ps q c

providers_of-IsProvided :
    (o : Option Json) (q : Provider) → Yields (IsProvided o q) (providers_of o)
providers_of-IsProvided (some (obj ps)) q = λ c h. (ps, refl, parse_providers-IsParsed ps q c h)
providers_of-IsProvided _ q = λ c h. cc

abbrev IsDocument : Json → Provider → Policy → Type 0
IsDocument document q c =
    (fs : Fields) × (document ≡ obj fs) × IsProvided (of_key "providers" fs) q c

parse_document-IsDocument :
    (document : Json) (q : Provider) → Yields (IsDocument document q) (parse_document document)
unfolding parse_document
parse_document-IsDocument (obj fs) q =
    accept-Yields (IsDocument (obj fs) q) (is_policy_document fs) _
      λ known c h. (fs, refl, providers_of-IsProvided (of_key "providers" fs) q c h)
parse_document-IsDocument _ q = λ c h. cc

-- A parsed policy comes from an object with an object of providers, and has for each provider the entry
-- that is parsed from its property there.
pub parse_provider_policy-entry :
    (json_parse : List ℕ → Option Json) (p : Platform) (text : List ℕ) (q : Provider)
    (parsed : ParsedPolicy)
    → parse_provider_policy json_parse p text ≡ some parsed
    → (fs ps : Fields) × (json_parse text ≡ some (obj fs))
      × (of_key "providers" fs ≡ some (obj ps))
      × (provider_entry (of_key (provider_key q) ps) ≡ some (own_entry parsed.policy q))
unfolding parse_provider_policy
parse_provider_policy-entry json_parse p text q parsed h =
    let P = λ (d : ParsedPolicy).
      (fs ps : Fields) × (json_parse text ≡ some (obj fs))
      × (of_key "providers" fs ≡ some (obj ps))
      × (provider_entry (of_key (provider_key q) ps) ≡ some (own_entry d.policy q)) in
    (bind-Yields P (json_parse text) _ λ document read.
        bind-Yields P (parse_document document) _ λ c accepted.
          let (fs, same, (ps, found, own)) = parse_document-IsDocument document q c accepted in
          some-Yields P _ (fs, ps, read ∙ ap some same, found, own))
      parsed h
