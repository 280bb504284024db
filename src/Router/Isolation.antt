-- ===== src/Router/Isolation.antt =====
-- Isolation in the routes of `routeContextProfile`: a request for it always wins, and no other route that
-- queries leads to the profile `strict-isolation`.
use agent_context_broker.Prelude.{
  ◌≡◌, refl, sym, ap, ◌∙◌, subst, String, Bool, true, false, not, ◌&&◌, Option, none, some, List,
  [], ◌∷◌, contains, str_eq, eq_iff, arith, Bool-cases, inl, inr, ◌⊎◌, All,
}
use agent_context_broker.Router.{
  has_id, add_id, own_kinds, read_profiles, Profiles, put, put_all, load_context_profiles, Selected,
  select, select-nil, profile, inherited, no_profile, find_owner, explicit_route, fallback_route,
  owner_route, kind_route, explicit_or_kind, Route, RouteInput, strict_isolation_requested,
  route_context_profile,
}
use agent_context_broker.Router.Validate.{
  ProfileId, text_id, array_id, Profile, RawItem, no_object, object, ok, bind-ok, guard,
  read_profile, validate_profile, is_strict, is_isolating, key_of, duplicate_profile,
}
use agent_context_broker.Router.Owners.{load_context_profiles-ok}

-- What is known of a profile that stands under the key `j`.
pub record IsSafe (j : String) (p : Profile) : Type 0 where
  pub keyed : key_of p.id ≡ j
  pub isolating : (is_strict p.id && not (is_isolating p)) ≡ false

abbrev pub IsSafeTable : Profiles → Type 0
IsSafeTable es = All (λ (e : String × Profile). IsSafe e.0 e.1) es

validate_profile-ok :
    (item : RawItem) (p : Profile)
    → validate_profile item ≡ ok p
    → (is_strict p.id && not (is_isolating p)) ≡ false
unfolding validate_profile read_profile
validate_profile-ok no_object p e = cc
validate_profile-ok (object r) p e = elim (Bool-cases r.unknown_field) [
  | inl unknown ↦ cc (rw unknown at e)
  | inr known ↦
      let (q, read, checks) = bind-ok (read_profile r) _ p (rw known at e) in
      elim (Bool-cases (is_strict q.id && not (is_isolating q))) [
        | inl bad ↦ cc (rw bad at checks)
        | inr good ↦
            let same : ok q ≡ ok p = rw good at checks in
            let equal : q ≡ p = cc in
            subst (λ x. (is_strict x.id && not (is_isolating x)) ≡ false) equal good
      ]
]

read_profiles-safe :
    (ids owned : List String) (items : List RawItem) (ps : List Profile) (ids1 : List String)
    → read_profiles ids owned items ≡ ok (ps, ids1)
    → All (λ p. IsSafe (key_of p.id) p) ps
unfolding read_profiles
read_profiles-safe ids owned [] ps ids1 e =
    let none_read : ps ≡ [] = ground arith in rw none_read tt
read_profiles-safe ids owned (item ∷ items) ps ids1 e =
    let (p, valid, e1) = bind-ok (validate_profile item) _ _ e in
    let (u, fresh, e2) = bind-ok (guard (not (has_id ids p.id)) duplicate_profile) _ _ e1 in
    let (owned1, owns, e3) = bind-ok (own_kinds owned p.task_kinds) _ _ e2 in
    let ((rest, ids2), read, e4) = bind-ok (read_profiles (add_id ids p.id) owned1 items) _ _ e3 in
    let same : ps ≡ p ∷ rest = ground arith in
    rw same (
      record { keyed = refl; isolating = validate_profile-ok item p valid },
      read_profiles-safe (add_id ids p.id) owned1 items rest ids2 read,
    )

put-safe :
    (j : String) (p : Profile) (es : Profiles)
    → IsSafe j p
    → IsSafeTable es
    → IsSafeTable (put j p es)
unfolding put
put-safe j p [] s a = (s, tt)
put-safe j p ((i, q) ∷ es) s a = elim (Bool-cases (str_eq i j)) [
  | inl here ↦
      let same : j ≡ i = sym ((eq_iff i j).0 here) in rw here (subst (λ k. IsSafe k p) same s, a.1)
  | inr later ↦ rw later (a.0, put-safe j p es s a.1)
]

put_all-safe :
    (ps : List Profile) (es : Profiles)
    → All (λ p. IsSafe (key_of p.id) p) ps
    → IsSafeTable es
    → IsSafeTable (put_all ps es)
unfolding put_all
put_all-safe [] es s a = a
put_all-safe (p ∷ ps) es s a =
    put_all-safe ps (put (key_of p.id) p es) s.1 (put-safe (key_of p.id) p es s.0 a)

select-safe :
    (j : String) (p : Profile) (es : Profiles)
    → IsSafeTable es
    → select j es ≡ profile p
    → IsSafe j p
unfolding select
select-safe j p [] a e = elim (select-nil j p e) [ ]
select-safe j p ((i, q) ∷ es) a e = elim (Bool-cases (str_eq i j)) [
  | inl here ↦
      let same : profile q ≡ profile p = rw here at e in
      let equal : q ≡ p = cc in
      subst (λ k. IsSafe k p) ((eq_iff i j).0 here) (subst (IsSafe i) equal a.0)
  | inr later ↦ select-safe j p es a.1 (rw later at e)
]

abbrev is_profile : Selected → Bool
is_profile (profile p) = true
is_profile _ = false

select-put : (j : String) (p : Profile) (es : Profiles) → is_profile (select j (put j p es)) ≡ true
unfolding select put
select-put j p [] = rw ((eq_iff j j).1 refl)
select-put j p ((i, q) ∷ es) = elim (Bool-cases (str_eq i j)) [
  | inl here ↦ rw (here, here)
  | inr later ↦ rw (later, later) (select-put j p es)
]

select-put_other :
    (k j : String) (p : Profile) (es : Profiles)
    → is_profile (select k es) ≡ true
    → is_profile (select k (put j p es)) ≡ true
unfolding select put
select-put_other k j p [] h = elim (Bool-cases (str_eq j k)) [
  | inl here ↦ rw here
  | inr other ↦ rw other h
]
select-put_other k j p ((i, q) ∷ es) h = elim (Bool-cases (str_eq i k)) [
  | inl here ↦ elim (Bool-cases (str_eq i j)) [
    | inl same ↦ rw (same, here)
    | inr differs ↦ rw (differs, here)
  ]
  | inr other ↦ elim (Bool-cases (str_eq i j)) [
    | inl same ↦ rw (same, other) (rw other at h)
    | inr differs ↦ rw (differs, other) (select-put_other k j p es (rw other at h))
  ]
]

-- The table has a profile for every id that is a text.
added :
    (s : String) (ids : List String) (i : ProfileId) (p : Profile) (es : Profiles)
    → (contains s ids ≡ true → is_profile (select s es) ≡ true)
    → contains s (add_id ids i) ≡ true
    → is_profile (select s (put (key_of i) p es)) ≡ true
added s ids (text_id t) p es h c = elim (Bool-cases (str_eq t s)) [
  | inl same ↦
      subst (λ k. is_profile (select s (put k p es)) ≡ true) (sym ((eq_iff t s).0 same))
        (select-put s p es)
  | inr differs ↦ select-put_other s t p es (h (rw differs at c))
]
added s ids (array_id t) p es h c = select-put_other s t p es (h c)

read_profiles-present :
    (s : String) (ids owned : List String) (items : List RawItem) (ps : List Profile)
    (ids1 : List String) (es : Profiles)
    → read_profiles ids owned items ≡ ok (ps, ids1)
    → (contains s ids ≡ true → is_profile (select s es) ≡ true)
    → contains s ids1 ≡ true
    → is_profile (select s (put_all ps es)) ≡ true
unfolding read_profiles put_all
read_profiles-present s ids owned [] ps ids1 es e h c =
    let none_read : ps ≡ [] = ground arith in
    let same : ids ≡ ids1 = ground arith in rw none_read (h (rw same c))
read_profiles-present s ids owned (item ∷ items) ps ids1 es e h c =
    let (p, valid, e1) = bind-ok (validate_profile item) _ _ e in
    let (u, fresh, e2) = bind-ok (guard (not (has_id ids p.id)) duplicate_profile) _ _ e1 in
    let (owned1, owns, e3) = bind-ok (own_kinds owned p.task_kinds) _ _ e2 in
    let ((rest, ids2), read, e4) = bind-ok (read_profiles (add_id ids p.id) owned1 items) _ _ e3 in
    let same : ps ≡ p ∷ rest = ground arith in
    let ids_same : ids2 ≡ ids1 = ground arith in
    rw same (
      read_profiles-present s (add_id ids p.id) owned1 items rest ids2 (put (key_of p.id) p es) read
        (added s ids p.id p es h) (rw ids_same c))

is_profile-some : (x : Selected) → is_profile x ≡ true → (p : Profile) × (x ≡ profile p)
is_profile-some (profile p) e = (p, refl)
is_profile-some inherited e = cc
is_profile-some no_profile e = cc

-- The loaded profiles.
pub record IsLoaded (es : Profiles) : Type 0 where
  pub safe : IsSafeTable es
  pub strict :
      (p : Profile) × (select "strict-isolation" es ≡ profile p) × IsSafe "strict-isolation" p
  pub project : (p : Profile) × (select "custom-project" es ≡ profile p) × IsSafe "custom-project" p

load_context_profiles-IsLoaded :
    (items : List RawItem) (es : Profiles)
    → load_context_profiles (some items) ≡ ok es
    → IsLoaded es
load_context_profiles-IsLoaded items es e =
    let (ps, ids, read, has, same) = load_context_profiles-ok items es e in
    let safe = put_all-safe ps [] (read_profiles-safe [] [] items ps ids read) tt in
    let strict = is_profile-some _ (
      read_profiles-present "strict-isolation" [] [] items ps ids [] read (λ c. cc)
        (ground arith)) in
    let project = is_profile-some _ (
      read_profiles-present "custom-project" [] [] items ps ids [] read (λ c. cc) (ground arith)) in
    rw same (record {
      safe = safe;
      strict = (
        strict.0,
        strict.1,
        select-safe "strict-isolation" strict.0 (put_all ps []) safe strict.1,
      );
      project = (
        project.0,
        project.1,
        select-safe "custom-project" project.0 (put_all ps []) safe project.1,
      );
    })

abbrev pub selects_strict : Selected → Bool
selects_strict (profile p) = is_strict p.id
selects_strict _ = false

project_not_strict : (i : ProfileId) → key_of i ≡ "custom-project" → is_strict i ≡ false
project_not_strict (text_id t) e = rw e
project_not_strict (array_id t) e = refl

explicit_quiet :
    (x : Selected) (r : Route)
    → explicit_route x ≡ ok r
    → (r.should_query && selects_strict r.selected) ≡ false
explicit_quiet (profile p) r e = ground arith
explicit_quiet inherited r e = ground arith
explicit_quiet no_profile r e = cc

fallback_quiet :
    (scoped : Bool) (es : Profiles)
    → IsLoaded es
    → let r = fallback_route scoped es in (r.should_query && selects_strict r.selected) ≡ false
fallback_quiet true es l =
    let (p, found, safe) = l.project in rw found (project_not_strict p.id safe.keyed)
fallback_quiet false es l = refl

owner_quiet :
    (scoped : Bool) (o : Option Profile) (es : Profiles)
    → IsLoaded es
    → let r = owner_route scoped o es in (r.should_query && selects_strict r.selected) ≡ false
owner_quiet scoped (some p) es l = ground arith
owner_quiet scoped none es l = fallback_quiet scoped es l

kind_quiet :
    (i : RouteInput) (es : Profiles)
    → IsLoaded es
    → let r = kind_route i es in (r.should_query && selects_strict r.selected) ≡ false
kind_quiet i es l = elim (Bool-cases (str_eq i.normalized_kind "")) [
  | inl no_kind ↦ rw no_kind (fallback_quiet i.project_scope es l)
  | inr kind ↦ rw kind (owner_quiet i.project_scope (find_owner i.normalized_kind es) es l)
]

kind_ok_quiet :
    (i : RouteInput) (es : Profiles) (r : Route)
    → IsLoaded es
    → ok (kind_route i es) ≡ ok r
    → (r.should_query && selects_strict r.selected) ≡ false
kind_ok_quiet i es r l e =
    let same : kind_route i es ≡ r = cc in
    subst (λ x. (x.should_query && selects_strict x.selected) ≡ false) same (kind_quiet i es l)

explicit_or_kind_quiet :
    (i : RouteInput) (id : Option String) (es : Profiles) (r : Route)
    → IsLoaded es
    → explicit_or_kind i id es ≡ ok r
    → (r.should_query && selects_strict r.selected) ≡ false
explicit_or_kind_quiet i none es r l e = kind_ok_quiet i es r l e
explicit_or_kind_quiet i (some k) es r l e = elim (Bool-cases (str_eq k "")) [
  | inl no_id ↦ kind_ok_quiet i es r l (rw no_id at e)
  | inr named ↦ explicit_quiet (select k es) r (rw named at e)
]

-- Among profiles that `loadContextProfiles` has read, a route is one of two. If isolation is requested,
-- whatever else is, the route does not query, and it names the profile under `strict-isolation`, which
-- admits nothing of the broker if its id is a text. If not, a route that queries names no profile whose id
-- is the text `strict-isolation`; nothing is said of an id that is an array of that text.
pub route_context_profile-isolates :
    (items : List RawItem) (es : Profiles) (i : RouteInput) (r : Route)
    → load_context_profiles (some items) ≡ ok es
    → route_context_profile i es ≡ ok r
    → ((i.strict_isolation ≡ true)
        × (r.should_query ≡ false)
        × (p : Profile) × (r.selected ≡ profile p)
        × IsSafe "strict-isolation" p)
      ⊎ ((i.strict_isolation ≡ false) × ((r.should_query && selects_strict r.selected) ≡ false))
unfolding route_context_profile
route_context_profile-isolates items es i r loaded e =
    let l = load_context_profiles-IsLoaded items es loaded in
    elim (Bool-cases i.strict_isolation) [
      | inl isolated ↦
          let (p, found, safe) = l.strict in
          let chosen : Route = record {
            should_query = false;
            selected = select "strict-isolation" es;
            reason = strict_isolation_requested;
          } in
          let step : ok chosen ≡ ok r = rw isolated at e in
          let same : chosen ≡ r = cc in
          inl (
            isolated,
            ap (λ x. x.should_query) (sym same),
            p,
            ap (λ x. x.selected) (sym same) ∙ found,
            safe,
          )
      | inr shared ↦ inr (shared, explicit_or_kind_quiet i i.profile_id es r l (rw shared at e))
    ]
