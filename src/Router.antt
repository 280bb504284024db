-- ===== src/Router.antt =====
-- src/context-router.mts: the context profiles of a document, and the route of a task to one of them.
pub mod Validate
pub mod Owners
pub mod Isolation
mod Tests
use agent_context_broker.Prelude.{
  ℕ, zero, suc, ◌≡◌, ◌≢◌, refl, arith, String, Bool, true, false, not, ◌&&◌, ◌||◌, Option, none,
  some, List, [], ◌∷◌, ltb, leb, ◌==◌, if◌then◌else◌, length, all, any, contains, str_eq,
}
use agent_context_broker.Prelude.Text.{units, is_lower, is_digit, is_space}
use Prim.Native.Char.{code}
use agent_context_broker.Router.Validate.{
  Result, Profile, ProfileId, RawItem, array_id, bad_document, duplicate_profile, err, guard,
  is_strict, key_of, missing_profiles, object, ok, shared_task_kind, text_id, unknown_profile,
  validate_profile, ◌>>=◌,
}

-- `ids.has(profile.id)` and `ids.add(profile.id)`; a set finds an array only if it is the same object.
abbrev pub has_id : List String → ProfileId → Bool
has_id ids (text_id s) = contains s ids
has_id ids (array_id s) = false

abbrev pub add_id : List String → ProfileId → List String
add_id ids (text_id s) = s ∷ ids
add_id ids (array_id s) = ids

-- The loop over `profile.taskKinds`.
unfoldable pub own_kinds : List String → List String → Result (List String)
own_kinds owned [] = ok owned
own_kinds owned (k ∷ ks) =
    let rest = own_kinds (k ∷ owned) ks in if contains k owned then err shared_task_kind else rest

-- The loop over `document.profiles`, and the ids that are texts.
unfoldable pub read_profiles :
    List String → List String → List RawItem → Result (List Profile × List String)
read_profiles ids owned [] = ok ([], ids)
read_profiles ids owned (item ∷ items) = do
  p ← validate_profile item
  _ ← guard (not (has_id ids p.id)) duplicate_profile
  owned1 ← own_kinds owned p.task_kinds
  (ps, ids1) ← read_profiles (add_id ids p.id) owned1 items
  ok (p ∷ ps, ids1)

abbrev pub Profiles : Type 0
Profiles = List (String × Profile)

-- `Object.fromEntries`: a key that is there keeps its place. No id reads as an array index.
unfoldable pub put : String → Profile → Profiles → Profiles
put k p [] = (k, p) ∷ []
put k p ((j, q) ∷ es) = if str_eq j k then (j, p) ∷ es else (j, q) ∷ put k p es

unfoldable pub put_all : List Profile → Profiles → Profiles
put_all [] es = es
put_all (p ∷ ps) es = put_all ps (put (key_of p.id) p es)

-- `loadContextProfiles`; `none` for a document of another shape.
unfoldable pub load_context_profiles : Option (List RawItem) → Result Profiles
load_context_profiles none = err bad_document
load_context_profiles (some items) = do
  (ps, ids) ← read_profiles [] [] items
  _ ← guard (contains "strict-isolation" ids && contains "custom-project" ids) missing_profiles
  ok (put_all ps [])

-- `profiles[key]`: a profile, or what every object has from its prototype.
pub data Selected : Type 0 where
  profile : Profile → Selected
  inherited : Selected
  no_profile : Selected

unfoldable pub is_inherited : String → Bool
is_inherited k = contains k (
    "constructor" ∷ "hasOwnProperty" ∷ "isPrototypeOf" ∷ "propertyIsEnumerable" ∷ "toLocaleString"
    ∷ "toString" ∷ "valueOf" ∷ "__defineGetter__" ∷ "__defineSetter__" ∷ "__lookupGetter__"
    ∷ "__lookupSetter__" ∷ "__proto__" ∷ [])

-- A key that is no profile's.
unfoldable pub other_member : Bool → Selected
other_member true = inherited
other_member false = no_profile

unfoldable pub select : String → Profiles → Selected
select k [] = other_member (is_inherited k)
select k ((j, p) ∷ es) = if str_eq j k then profile p else select k es

other_member-cases : (b : Bool) (p : Profile) → other_member b ≢ profile p
unfolding other_member
other_member-cases true p = ground arith
other_member-cases false p = ground arith

pub select-nil : (k : String) (p : Profile) → select k [] ≢ profile p
unfolding select
select-nil k p = other_member-cases (is_inherited k) p

-- `Object.values(profiles).find(profile => profile.taskKinds.includes(taskKind))`
unfoldable pub find_owner : String → Profiles → Option Profile
find_owner k [] = none
find_owner k ((j, p) ∷ es) = if contains k p.task_kinds then some p else find_owner k es

pub data Reason : Type 0 where
  strict_isolation_requested explicit_profile task_kind project_scope_fallback unscoped_unrouted :
      Reason

pub record Route : Type 0 where
  pub should_query : Bool
  pub selected : Selected
  pub reason : Reason

-- `normalized_kind` is `String(input.taskKind ?? '').trim().toLowerCase()`.
pub record RouteInput : Type 0 where
  pub strict_isolation : Bool
  pub profile_id : Option String
  pub normalized_kind : String
  pub project_scope : Bool

abbrev pub explicit_route : Selected → Result Route
explicit_route (profile p) = ok (record {
  should_query = not (is_strict p.id);
  selected = profile p;
  reason = explicit_profile;
})
explicit_route inherited =
    ok (record { should_query = true; selected = inherited; reason = explicit_profile })
explicit_route no_profile = err unknown_profile

abbrev pub fallback_route : Bool → Profiles → Route
fallback_route true es = record {
  should_query = true;
  selected = select "custom-project" es;
  reason = project_scope_fallback;
}
fallback_route false es = record {
  should_query = false;
  selected = no_profile;
  reason = unscoped_unrouted;
}

abbrev pub owner_route : Bool → Option Profile → Profiles → Route
owner_route scoped (some p) es = record {
  should_query = not (is_strict p.id);
  selected = profile p;
  reason = task_kind;
}
owner_route scoped none es = fallback_route scoped es

abbrev pub kind_route : RouteInput → Profiles → Route
kind_route i es =
    if str_eq i.normalized_kind ""
    then fallback_route i.project_scope es
    else owner_route i.project_scope (find_owner i.normalized_kind es) es

abbrev pub explicit_or_kind : RouteInput → Option String → Profiles → Result Route
explicit_or_kind i none es = ok (kind_route i es)
explicit_or_kind i (some k) es =
    if str_eq k "" then ok (kind_route i es) else explicit_route (select k es)

-- `routeContextProfile`
unfoldable pub route_context_profile : RouteInput → Profiles → Result Route
route_context_profile i es =
    if i.strict_isolation
    then ok (record {
      should_query = false;
      selected = select "strict-isolation" es;
      reason = strict_isolation_requested;
    })
    else explicit_or_kind i i.profile_id es
