-- ===== src/Policy/Parse.antt =====
-- `parseProviderPolicy` of src/provider-policy.mjs. `JSON.parse` is a parameter, which gives an object
-- each key once. All that is refused is refused with one error, `none` here; `Option (Option A)` is an
-- accepted property that may be missing.
use agent_context_broker.Prelude.{
  ℕ, ◌+◌, ◌-◌, ◌*◌, String, Bool, true, false, not, ◌&&◌, ◌||◌, Option, none, some, List, [], ◌∷◌,
  leb, ◌==◌, if◌then◌else◌, length, all, any, keep,
}
use agent_context_broker.Prelude.Text.{units, is_space}
use agent_context_broker.Json.{Json, str, arr, Items, nil, cons, is_high, is_low}
use agent_context_broker.Json.Access.{same_text, items_length}
use agent_context_broker.Policy.{
  ScopeKind, global, project, workstream, ticket, merge_request, Pattern, shared, private,
  restricted, Evidence, canonical_artifact, observed_tool_result, agent_handoff, Grade, ranked,
  unranked,
}

-- A part that is refused refuses the whole document.
infixl 5 ◌>>=◌
abbrev pub ◌>>=◌ {ℓ κ} :
    {A : Type ℓ} {B : Type κ} (part : Option A) (use_of : A → Option B) → Option B
none >>= use_of = none
some a >>= use_of = use_of a

-- `if (!test) throw invalid()`
abbrev pub accept {ℓ} : {A : Type ℓ} → Bool → Option A → Option A
accept false a = none
accept true a = a

-- The code points of a text, as the flag `u` reads it.
abbrev merge : ℕ → List ℕ → List ℕ
merge c [] = c ∷ []
merge c (d ∷ ds) =
    if is_high c && is_low d
    then (0x10000 + (c - 0xd800) * 0x400 + (d - 0xdc00)) ∷ ds
    else c ∷ d ∷ ds

abbrev pub points : List ℕ → List ℕ
points [] = []
points (c ∷ cs) = merge c (points cs)

abbrev pub is_named : List ℕ → String → Bool
is_named t s = same_text t (units s)

-- What stands before and behind the first colon.
unfoldable pub split_colon : List ℕ → Option (List ℕ × List ℕ)
split_colon [] = none
split_colon (c ∷ cs) =
    let rest = split_colon cs in
    if c == b':' then some ([], cs) else do (before, behind) ← rest; some (c ∷ before, behind)

unfoldable pub kind_named : List ℕ → Option (Option ScopeKind)
kind_named t =
    if is_named t "*"
    then some none
    else if is_named t "global"
    then some (some global)
    else if is_named t "project"
    then some (some project)
    else if is_named t "workstream"
    then some (some workstream)
    else if is_named t "ticket"
    then some (some ticket)
    else if is_named t "merge-request"
    then some (some merge_request)
    else none

-- `[^\s\0]{1,200}`
abbrev pub is_glob : List ℕ → Bool
is_glob g = leb 1 (length g) && leb (length g) 200 && all (λ c. not (is_space c || c == 0)) g

-- A text that `PATTERN` matches.
unfoldable pub parse_pattern : List ℕ → Option Pattern
unfolding split_colon kind_named
parse_pattern t = do
  (before, behind) ← split_colon t
  kind ← kind_named before
  accept (is_glob (points behind)) (some (record { kind = kind; glob = points behind }))

unfoldable pub parse_patterns : List (List ℕ) → Option (List Pattern)
parse_patterns [] = some []
parse_patterns (t ∷ ts) = do
  pattern_of ← parse_pattern t
  rest ← parse_patterns ts
  some (pattern_of ∷ rest)

-- The texts of an array that holds nothing else.
unfoldable pub item_texts : Items → Option (List (List ℕ))
item_texts nil = some []
item_texts (cons (str t) xs) = do rest ← item_texts xs; some (t ∷ rest)
item_texts (cons _ xs) = none

-- `[...new Set(texts)]`
abbrev pub distinct_texts : List (List ℕ) → List (List ℕ)
distinct_texts [] = []
distinct_texts (t ∷ ts) = t ∷ keep (λ u. not (same_text t u)) (distinct_texts ts)

-- `patterns`
unfoldable pub patterns : Option Json → Option (Option (List Pattern))
unfolding item_texts
patterns none = some none
patterns (some (arr xs)) =
    accept (leb (items_length xs) 256)
      (do ts ← item_texts xs; ps ← parse_patterns (distinct_texts ts); some (some ps))
patterns (some _) = none

-- The texts of a ceiling as a key: an array of one element gives that of the element. No other value
-- gives the name of a rank or of what every object inherits.
unfoldable pub property_name : Json → Option (List ℕ)
property_name (str t) = some t
property_name (arr (cons v nil)) = property_name v
property_name _ = none

abbrev object_names : List String
object_names =
    "constructor" ∷ "toString" ∷ "toLocaleString" ∷ "valueOf" ∷ "hasOwnProperty" ∷ "isPrototypeOf"
    ∷ "propertyIsEnumerable" ∷ "__proto__" ∷ "__defineGetter__" ∷ "__defineSetter__"
    ∷ "__lookupGetter__" ∷ "__lookupSetter__" ∷ []

-- `name in SENSITIVITY_RANK`
unfoldable pub ceiling_named : List ℕ → Option Grade
ceiling_named t =
    if is_named t "shared"
    then some (ranked shared)
    else if is_named t "private"
    then some (ranked private)
    else if is_named t "restricted"
    then some (ranked restricted)
    else if any (is_named t) object_names
    then some unranked
    else none

unfoldable pub parse_ceiling : Option Json → Option (Option Grade)
unfolding property_name ceiling_named
parse_ceiling none = some none
parse_ceiling (some v) = do
  name ← property_name v
  ceiling ← ceiling_named name
  some (some ceiling)

unfoldable pub evidence_named : List ℕ → Option Evidence
evidence_named t =
    if is_named t "canonical-artifact"
    then some canonical_artifact
    else if is_named t "observed-tool-result"
    then some observed_tool_result
    else if is_named t "agent-handoff"
    then some agent_handoff
    else none

parse_classes : List (List ℕ) → Option (List Evidence)
unfolding evidence_named
parse_classes [] = some []
parse_classes (t ∷ ts) = do
  class_of ← evidence_named t
  rest ← parse_classes ts
  some (class_of ∷ rest)

unfoldable pub evidence_classes_of : Option Json → Option (Option (List Evidence))
unfolding item_texts parse_classes
evidence_classes_of none = some none
evidence_classes_of (some (arr xs)) = do
  ts ← item_texts xs
  es ← parse_classes (distinct_texts ts)
  some (some es)
evidence_classes_of (some _) = none
