-- ===== src/Router/Owners.antt =====
-- Every task kind has one owner: the profile that `routeContextProfile` finds for a kind does not depend
-- on the order of the document.
use agent_context_broker.Prelude.{
  subst, ℕ, ◌+◌, ◌≤◌, ◌≡◌, String, true, false, not, ◌&&◌, some, List, [], ◌∷◌, if◌then◌else◌,
  contains, str_eq, eq_iff, arith, Bool-cases, inl, inr,
}
use agent_context_broker.Router.{
  has_id, add_id, own_kinds, read_profiles, Profiles, put, put_all, load_context_profiles, select,
  select-nil, profile, find_owner,
}
use agent_context_broker.Router.Validate.{
  Profile, RawItem, ok, bind-ok, guard, guard-ok, validate_profile, key_of, duplicate_profile,
  missing_profiles,
}

-- 1 for a kind that is listed.
abbrev pub listed : String → List String → ℕ
listed k ks = if contains k ks then 1 else 0

-- The number of profiles that own a kind.
abbrev pub owners : String → List Profile → ℕ
owners k [] = 0
owners k (p ∷ ps) = listed k p.task_kinds + owners k ps

abbrev pub owners_in : String → Profiles → ℕ
owners_in k [] = 0
owners_in k ((j, p) ∷ es) = listed k p.task_kinds + owners_in k es

listed_le : (k : String) (ks : List String) → listed k ks ≤ 1
listed_le k ks = ground arith

-- What the loop over the task kinds of one profile has added.
own_kinds-ok :
    (k : String) (owned kinds owned1 : List String)
    → own_kinds owned kinds ≡ ok owned1
    → listed k owned1 ≡ listed k kinds + listed k owned
unfolding own_kinds
own_kinds-ok k owned [] owned1 e =
    let same : owned ≡ owned1 = ground arith in rw (← same) (omega arith)
own_kinds-ok k owned (j ∷ ks) owned1 e =
    let free : contains j owned ≡ false = ground arith in
    let rest : own_kinds (j ∷ owned) ks ≡ ok owned1 = ground arith in
    let ih = own_kinds-ok k (j ∷ owned) ks owned1 rest in
    elim (Bool-cases (str_eq j k)) [
      | inl same ↦
          let equal : j ≡ k = (eq_iff j k).0 same in
          let absent : listed k owned ≡ 0 = rw (subst (λ i. contains i owned ≡ false) equal free) in
          let gone : listed k (j ∷ owned) ≡ 1 = rw same in
          let head : listed k (j ∷ ks) ≡ 1 = rw same in
          omega (arith, ih, gone, head, absent, listed_le k owned1)
      | inr other ↦
          let kept : listed k (j ∷ owned) ≡ listed k owned = rw other in
          let head : listed k (j ∷ ks) ≡ listed k ks = rw other in omega (arith, ih, kept, head)
    ]

read_profiles-owners :
    (k : String) (ids owned : List String) (items : List RawItem) (ps : List Profile)
    (ids1 : List String)
    → read_profiles ids owned items ≡ ok (ps, ids1)
    → owners k ps + listed k owned ≤ 1
unfolding read_profiles
read_profiles-owners k ids owned [] ps ids1 e =
    let none_read : ps ≡ [] = ground arith in rw none_read (omega (arith, listed_le k owned))
read_profiles-owners k ids owned (item ∷ items) ps ids1 e =
    let (p, valid, e1) = bind-ok (validate_profile item) _ _ e in
    let (u, fresh, e2) = bind-ok (guard (not (has_id ids p.id)) duplicate_profile) _ _ e1 in
    let (owned1, owns, e3) = bind-ok (own_kinds owned p.task_kinds) _ _ e2 in
    let ((rest, ids2), read, e4) = bind-ok (read_profiles (add_id ids p.id) owned1 items) _ _ e3 in
    let same : ps ≡ p ∷ rest = ground arith in
    rw same (
      omega (
        arith,
        own_kinds-ok k owned p.task_kinds owned1 owns,
        read_profiles-owners k (add_id ids p.id) owned1 items rest ids2 read,
      ))

put-owners :
    (k j : String) (p : Profile) (es : Profiles)
    → owners_in k (put j p es) ≤ listed k p.task_kinds + owners_in k es
unfolding put
put-owners k j p [] = omega arith
put-owners k j p ((i, q) ∷ es) = ground (arith, put-owners k j p es)

put_all-owners :
    (k : String) (ps : List Profile) (es : Profiles)
    → owners_in k (put_all ps es) ≤ owners k ps + owners_in k es
unfolding put_all
put_all-owners k [] es = omega arith
put_all-owners k (p ∷ ps) es =
    omega (arith, put_all-owners k ps (put (key_of p.id) p es), put-owners k (key_of p.id) p es)

-- What `loadContextProfiles` has read.
pub load_context_profiles-ok :
    (items : List RawItem) (es : Profiles)
    → load_context_profiles (some items) ≡ ok es
    → (ps : List Profile) × (ids : List String) × (read_profiles [] [] items ≡ ok (ps, ids))
      × ((contains "strict-isolation" ids && contains "custom-project" ids) ≡ true)
      × (es ≡ put_all ps [])
unfolding load_context_profiles
load_context_profiles-ok items es e =
    let ((ps, ids), read, e1) = bind-ok (read_profiles [] [] items) _ _ e in
    let (u, has, e2) =
      bind-ok
        (guard (contains "strict-isolation" ids && contains "custom-project" ids) missing_profiles)
        _ _ e1 in
    (ps, ids, read, guard-ok _ _ u has, ground arith)

select-owners :
    (k j : String) (p : Profile) (es : Profiles)
    → select j es ≡ profile p
    → contains k p.task_kinds ≡ true
    → 1 ≤ owners_in k es
unfolding select
select-owners k j p [] e h = elim (select-nil j p e) [ ]
select-owners k j p ((i, q) ∷ es) e h = elim (Bool-cases (str_eq i j)) [
  | inl here ↦
      let same : profile q ≡ profile p = rw here at e in
      let equal : q ≡ p = cc in rw equal (rw h (omega arith))
  | inr later ↦ omega (arith, select-owners k j p es (rw later at e) h)
]

one_not_two : 2 ≤ 1 → ⊥
one_not_two never = omega (arith, never)

find_owner-select :
    (k j : String) (p : Profile) (es : Profiles)
    → owners_in k es ≤ 1
    → select j es ≡ profile p
    → contains k p.task_kinds ≡ true
    → find_owner k es ≡ some p
unfolding select find_owner
find_owner-select k j p [] one e h = elim (select-nil j p e) [ ]
find_owner-select k j p ((i, q) ∷ es) one e h = elim (Bool-cases (str_eq i j)) [
  | inl here ↦
      let same : profile q ≡ profile p = rw here at e in let equal : q ≡ p = cc in rw equal (rw h)
  | inr later ↦
      let found = select-owners k j p es (rw later at e) h in
      let ih = find_owner-select k j p es (omega arith) (rw later at e) h in
      let absent : contains k q.task_kinds ≡ false = elim (Bool-cases (contains k q.task_kinds)) [
        | inr lacks ↦ lacks
        | inl owns ↦
            let both : listed k q.task_kinds ≡ 1 = rw owns in
            let never : 2 ≤ 1 = omega (arith, both, found, one) in elim (one_not_two never) [ ]
      ] in
      rw absent ih
]

-- In profiles that `loadContextProfiles` has read, the search of `routeContextProfile` for a task kind finds
-- the one profile that lists it, wherever that stands.
pub load_context_profiles-find_owner :
    (items : List RawItem) (es : Profiles) (k j : String) (p : Profile)
    → load_context_profiles (some items) ≡ ok es
    → select j es ≡ profile p
    → contains k p.task_kinds ≡ true
    → find_owner k es ≡ some p
load_context_profiles-find_owner items es k j p e s h =
    let (ps, ids, read, has, same) = load_context_profiles-ok items es e in
    find_owner-select k j p es
      (rw same
        (omega (arith, put_all-owners k ps [], read_profiles-owners k [] [] items ps ids read)))
      s h
