-- ===== src/Policy/Bounds.antt =====
-- What every policy satisfies that the parse accepts: its lists are short, and its globs hold no space.
use agent_context_broker.Prelude.{
  ℕ, suc, ◌≡◌, ◌≤◌, refl, ap, Bool, true, not, Option, none, some, List, [], ◌∷◌, arith, length,
  keep, All, leb, leb→le,
}
use agent_context_broker.Platform.{Platform}
use agent_context_broker.Emergency.Record.{Provider}
use agent_context_broker.Json.{Json, num, str, arr, obj, Items, nil, cons, Fields}
use agent_context_broker.Json.Access.{same_text, has_only, items_length}
use agent_context_broker.Policy.{Pattern, Rules, PublishRules, Entry, own_entry}
use agent_context_broker.Policy.Parse.{
  split_colon, kind_named, points, is_glob, parse_pattern, parse_patterns, item_texts,
  distinct_texts, patterns, parse_ceiling, evidence_classes_of,
}
use agent_context_broker.Policy.Document.{
  of_key, provider_key, read_rules, publish_rules, context_bytes, team_shared_bytes,
  sources_allowed, isolation_flag, project_of, entry_of, provider_entry, ParsedPolicy, read_fields,
  publish_fields, entry_fields, parse_provider_policy,
}
use agent_context_broker.Policy.Entries.{
  Yields, some-Yields, bind-Yields, accept-Yields, parse_provider_policy-entry,
}

abbrev pub IsGlob : Pattern → Type 0
IsGlob q = is_glob q.glob ≡ true

parse_pattern-IsGlob : (t : List ℕ) → Yields IsGlob (parse_pattern t)
unfolding parse_pattern
parse_pattern-IsGlob t = bind-Yields IsGlob (split_colon t) _ λ (before, behind) split.
    bind-Yields IsGlob (kind_named before) _ λ kind named.
      accept-Yields IsGlob (is_glob (points behind)) _ λ fits. some-Yields IsGlob _ fits

abbrev IsRead : List (List ℕ) → List Pattern → Type 0
IsRead ts ps = (length ps ≡ length ts) × All IsGlob ps

parse_patterns-IsRead : (ts : List (List ℕ)) → Yields (IsRead ts) (parse_patterns ts)
unfolding parse_patterns
parse_patterns-IsRead [] = some-Yields (IsRead []) [] (refl, tt)
parse_patterns-IsRead (t ∷ ts) = bind-Yields (IsRead (t ∷ ts)) (parse_pattern t) _ λ q first.
    bind-Yields (IsRead (t ∷ ts)) (parse_patterns ts) _ λ qs others.
      let (size, globs) = parse_patterns-IsRead ts qs others in
      some-Yields (IsRead (t ∷ ts)) (q ∷ qs) (ap suc size, (parse_pattern-IsGlob t q first, globs))

length-keep {ℓ} : {A : Type ℓ} (p : A → Bool) (xs : List A) → length (keep p xs) ≤ length xs
length-keep p [] = omega arith
length-keep p (x ∷ xs) = let ih = length-keep p xs in ground arith

length-distinct_texts : (ts : List (List ℕ)) → length (distinct_texts ts) ≤ length ts
length-distinct_texts [] = omega arith
length-distinct_texts (t ∷ ts) =
    omega
      (arith, length-distinct_texts ts, length-keep (λ u. not (same_text t u)) (distinct_texts ts))

length-item_texts : (xs : Items) → Yields (λ ts. length ts ≡ items_length xs) (item_texts xs)
unfolding item_texts
length-item_texts nil = some-Yields (λ ts. length ts ≡ 0) [] refl
length-item_texts (cons (str t) xs) =
    bind-Yields (λ ts. length ts ≡ suc (items_length xs)) (item_texts xs) _
      λ us others.
        some-Yields (λ ts. length ts ≡ suc (items_length xs)) (t ∷ us)
          (ap suc (length-item_texts xs us others))
length-item_texts (cons _ xs) = λ ts h. cc

abbrev pub IsShort : Option (List Pattern) → Type 0
IsShort none = Unit
IsShort (some ps) = (length ps ≤ 256) × All IsGlob ps

patterns-IsShort : (o : Option Json) → Yields IsShort (patterns o)
unfolding patterns
patterns-IsShort none = some-Yields IsShort none tt
patterns-IsShort (some (arr xs)) = accept-Yields IsShort (leb (items_length xs) 256) _ λ small.
    bind-Yields IsShort (item_texts xs) _ λ ts read.
      bind-Yields IsShort (parse_patterns (distinct_texts ts)) _ λ ps parsed.
        let (size, globs) = parse_patterns-IsRead (distinct_texts ts) ps parsed in
        let fewer = length-distinct_texts ts in
        let all_read = length-item_texts xs ts read in
        let bound = leb→le (items_length xs) 256 small in
        some-Yields IsShort (some ps) (omega arith, globs)
patterns-IsShort (some _) = λ ps h. cc

abbrev pub IsShortRules : Option Rules → Type 0
IsShortRules none = Unit
IsShortRules (some r) = IsShort r.allow × IsShort r.deny

abbrev pub IsShortPublish : Option PublishRules → Type 0
IsShortPublish none = Unit
IsShortPublish (some r) = IsShort r.rules.allow × IsShort r.rules.deny

-- The lists of an entry are short, and the bytes of context that it allows are limited.
abbrev pub IsBounded : Option Entry → Type 0
IsBounded none = Unit
IsBounded (some e) = (e.max_context_bytes ≤ 65536) × IsShortRules e.read × IsShortPublish e.publish

read_rules-IsShort : (o : Option Json) → Yields IsShortRules (read_rules o)
unfolding read_rules
read_rules-IsShort none = some-Yields IsShortRules none tt
read_rules-IsShort (some (obj fs)) = accept-Yields IsShortRules (has_only read_fields fs) _ λ known.
    bind-Yields IsShortRules (patterns (of_key "allow" fs)) _ λ allow a.
      bind-Yields IsShortRules (patterns (of_key "deny" fs)) _
        λ deny d. some-Yields IsShortRules _ (patterns-IsShort _ allow a, patterns-IsShort _ deny d)
read_rules-IsShort (some _) = λ r h. cc

publish_rules-IsShort : (o : Option Json) → Yields IsShortPublish (publish_rules o)
unfolding publish_rules
publish_rules-IsShort none = some-Yields IsShortPublish none tt
publish_rules-IsShort (some (obj fs)) =
    accept-Yields IsShortPublish (has_only publish_fields fs) _ λ known.
      bind-Yields IsShortPublish (patterns (of_key "allow" fs)) _ λ allow a.
        bind-Yields IsShortPublish (patterns (of_key "deny" fs)) _ λ deny d.
          bind-Yields IsShortPublish (parse_ceiling (of_key "maxSensitivity" fs)) _ λ ceiling c.
            bind-Yields IsShortPublish (evidence_classes_of (of_key "evidenceClasses" fs)) _
              λ classes e.
                some-Yields IsShortPublish _ (patterns-IsShort _ allow a, patterns-IsShort _ deny d)
publish_rules-IsShort (some _) = λ r h. cc

abbrev IsSmall : ℕ → Type 0
IsSmall n = n ≤ 65536

context_bytes-IsSmall : (o : Option Json) → Yields IsSmall (context_bytes o)
context_bytes-IsSmall none = some-Yields IsSmall 2048 (omega arith)
context_bytes-IsSmall (some (num m)) =
    accept-Yields IsSmall (leb m 65536) _ λ small. some-Yields IsSmall m (leb→le m 65536 small)
context_bytes-IsSmall (some _) = λ n h. cc

team_shared_bytes-IsSmall : (o : Option Json) → Yields IsSmall (team_shared_bytes o)
team_shared_bytes-IsSmall none = some-Yields IsSmall 2048 (omega arith)
team_shared_bytes-IsSmall (some (obj fs)) =
    accept-Yields IsSmall (has_only ("maxContextBytes" ∷ []) fs) _
      λ known. context_bytes-IsSmall (of_key "maxContextBytes" fs)
team_shared_bytes-IsSmall (some _) = λ n h. cc

abbrev IsBoundedEntry : Entry → Type 0
IsBoundedEntry e = IsBounded (some e)

entry_of-IsBounded : (fs : Fields) → Yields IsBoundedEntry (entry_of fs)
unfolding entry_of
entry_of-IsBounded fs = accept-Yields IsBoundedEntry (has_only entry_fields fs) _ λ known.
    bind-Yields IsBoundedEntry (team_shared_bytes (of_key "teamShared" fs)) _ λ bytes b.
      bind-Yields IsBoundedEntry (sources_allowed (of_key "sources" fs)) _ λ shares s.
        bind-Yields IsBoundedEntry (isolation_flag (of_key "strictIsolation" fs)) _ λ isolated i.
          bind-Yields IsBoundedEntry (project_of (of_key "defaultProject" fs)) _ λ default d.
            bind-Yields IsBoundedEntry (read_rules (of_key "read" fs)) _ λ read r.
              bind-Yields IsBoundedEntry (publish_rules (of_key "publish" fs)) _ λ publish p.
                some-Yields IsBoundedEntry _ (
                  team_shared_bytes-IsSmall (of_key "teamShared" fs) bytes b,
                  read_rules-IsShort _ read r,
                  publish_rules-IsShort _ publish p,
                )

provider_entry-IsBounded : (o : Option Json) → Yields IsBounded (provider_entry o)
provider_entry-IsBounded none = some-Yields IsBounded none tt
provider_entry-IsBounded (some (obj fs)) =
    bind-Yields IsBounded (entry_of fs) _
      λ e read. some-Yields IsBounded (some e) (entry_of-IsBounded fs e read)
provider_entry-IsBounded (some _) = λ e h. cc

-- In every policy that the parse accepts, an entry of a provider allows at most 65536 bytes of shared
-- context, and each list of patterns that it allows or denies holds at most 256, each with a glob of 1 to
-- 200 code points, none of which is a space or NUL.
pub parse_provider_policy-IsBounded :
    (json_parse : List ℕ → Option Json) (p : Platform) (text : List ℕ) (parsed : ParsedPolicy)
    (q : Provider)
    → parse_provider_policy json_parse p text ≡ some parsed
    → IsBounded (own_entry parsed.policy q)
parse_provider_policy-IsBounded json_parse p text parsed q h =
    let (fs, ps, read, found, own) = parse_provider_policy-entry json_parse p text q parsed h in
    provider_entry-IsBounded (of_key (provider_key q) ps) (own_entry parsed.policy q) own
