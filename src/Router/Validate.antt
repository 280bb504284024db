-- ===== src/Router/Validate.antt =====
-- `validateProfile` of src/context-router.mts: the profiles of a document.
use agent_context_broker.Prelude.{
  ℕ, ◌≡◌, refl, String, Bool, true, false, not, ◌&&◌, ◌||◌, Option, none, some, List, [], ◌∷◌, ltb,
  leb, ◌==◌, if◌then◌else◌, length, all, contains, str_eq,
}
use agent_context_broker.Prelude.Text.{units, is_lower, is_digit}

-- An id: a text, or an array that `RegExp.prototype.test` reads as that text.
pub data ProfileId : Type 0 where
  text_id : String → ProfileId
  array_id : String → ProfileId

-- A profile as it stands in the document; `none` for a field that is missing or of another kind.
pub record RawProfile : Type 0 where
  pub unknown_field : Bool
  pub id : Option ProfileId
  pub description : Option String
  pub task_kinds : Option (List (Option String))
  pub keywords : Option (List (Option String))
  pub claim_types : Option (List (Option String))
  pub cross_provider : Option Bool
  pub max_snapshots : Option ℕ
  pub max_claims : Option ℕ
  pub max_value_bytes : Option ℕ
  pub max_context_bytes : Option ℕ

pub data RawItem : Type 0 where
  no_object : RawItem
  object : RawProfile → RawItem

pub record Profile : Type 0 where
  pub id : ProfileId
  pub description : String
  pub task_kinds : List String
  pub keywords : List String
  pub claim_types : List String
  pub cross_provider : Bool
  pub max_snapshots : ℕ
  pub max_claims : ℕ
  pub max_value_bytes : ℕ
  pub max_context_bytes : ℕ

pub data RouterError : Type 0 where
  bad_shape bad_profile not_isolating duplicate_profile shared_task_kind missing_profiles
        bad_document unknown_profile :
      RouterError

pub data Result {ℓ} (A : Type ℓ) : Type ℓ where
  ok : A → Result A
  err : RouterError → Result A

infixl 5 ◌>>=◌
abbrev pub ◌>>=◌ {ℓ κ} : {A : Type ℓ} {B : Type κ} → Result A → (A → Result B) → Result B
ok a >>= f = f a
err e >>= f = err e

pub bind-ok {ℓ κ} :
    {A : Type ℓ} {B : Type κ} (m : Result A) (f : A → Result B) (b : B)
    → m >>= f ≡ ok b
    → (a : A) × (m ≡ ok a) × (f a ≡ ok b)
bind-ok (ok a) f b e = (a, refl, e)
bind-ok (err x) f b e = cc

abbrev pub guard : Bool → RouterError → Result (Unit {0})
guard true e = ok tt
guard false e = err e

pub guard-ok : (test : Bool) (e : RouterError) (u : Unit {0}) → guard test e ≡ ok u → test ≡ true
guard-ok true e u same = refl
guard-ok false e u same = cc

abbrev pub or_error {ℓ} : {A : Type ℓ} → RouterError → Option A → Result A
or_error e none = err e
or_error e (some a) = ok a

abbrev pub key_of : ProfileId → String
key_of (text_id s) = s
key_of (array_id s) = s

-- `/^[a-z][a-z0-9-]{0,63}$/u`
id_text_matches : List ℕ → Bool
id_text_matches [] = false
id_text_matches (c ∷ cs) =
    is_lower c && leb (length cs) 63 && all (λ d. is_lower d || is_digit d || d == b'-') cs

-- `id === 'strict-isolation'`
abbrev pub is_strict : ProfileId → Bool
is_strict (text_id s) = str_eq s "strict-isolation"
is_strict (array_id s) = false

-- `every` item is a text that is not empty.
texts_of : List (Option String) → Option (List String)
texts_of [] = some []
texts_of (none ∷ items) = none
texts_of (some s ∷ items) =
    let rest = texts_of items in
    if str_eq s "" then none else elim rest [ none ↦ none | some ss ↦ some (s ∷ ss) ]

abbrev pub unique : List String → Bool
unique [] = true
unique (s ∷ ss) = not (contains s ss) && unique ss

abbrev kept_texts : Bool → Option (List String) → Option (List String)
kept_texts allow_empty none = none
kept_texts allow_empty (some ss) =
    if (allow_empty || ltb 0 (length ss)) && unique ss then some ss else none

-- `stringArray`
string_array : Bool → Option (List (Option String)) → Option (List String)
unfolding texts_of
string_array allow_empty none = none
string_array allow_empty (some items) = kept_texts allow_empty (texts_of items)

-- `boundedInteger`
bounded_integer : ℕ → ℕ → Option ℕ → Option ℕ
bounded_integer low high none = none
bounded_integer low high (some n) = if leb low n && leb n high then some n else none

checked {ℓ} : {A : Type ℓ} → (A → Bool) → Option A → Option A
checked test none = none
checked test (some a) = if test a then some a else none

is_claim_type : String → Bool
is_claim_type s = contains s ("fact" ∷ "decision" ∷ "procedure" ∷ "risk" ∷ "result" ∷ [])

-- The second condition of `validateProfile`.
unfoldable pub read_profile : RawProfile → Result Profile
unfolding id_text_matches string_array bounded_integer checked is_claim_type
read_profile r = do
  id ← or_error bad_profile (checked (λ i. id_text_matches (units (key_of i))) r.id)
  description ← or_error bad_profile (checked (λ s. not (str_eq s "")) r.description)
  task_kinds ← or_error bad_profile (string_array false r.task_kinds)
  keywords ← or_error bad_profile (string_array true r.keywords)
  claim_types ← or_error bad_profile (checked (all is_claim_type) (string_array true r.claim_types))
  cross_provider ← or_error bad_profile r.cross_provider
  max_snapshots ← or_error bad_profile (bounded_integer 0 20 r.max_snapshots)
  max_claims ← or_error bad_profile (bounded_integer 0 100 r.max_claims)
  max_value_bytes ← or_error bad_profile (bounded_integer 0 65536 r.max_value_bytes)
  max_context_bytes ← or_error bad_profile (bounded_integer 256 65536 r.max_context_bytes)
  ok (record {
    id = id;
    description = description;
    task_kinds = task_kinds;
    keywords = keywords;
    claim_types = claim_types;
    cross_provider = cross_provider;
    max_snapshots = max_snapshots;
    max_claims = max_claims;
    max_value_bytes = max_value_bytes;
    max_context_bytes = max_context_bytes;
  })

-- No claim of the broker passes a profile of these limits.
abbrev pub is_isolating : Profile → Bool
is_isolating p =
    not p.cross_provider && p.max_snapshots == 0 && p.max_claims == 0 && p.max_value_bytes == 0

abbrev check_strict : Profile → Result Profile
check_strict p = if is_strict p.id && not (is_isolating p) then err not_isolating else ok p

-- `validateProfile`
unfoldable pub validate_profile : RawItem → Result Profile
validate_profile no_object = err bad_shape
validate_profile (object r) =
    if r.unknown_field then err bad_shape else (read_profile r >>= λ p. check_strict p)
