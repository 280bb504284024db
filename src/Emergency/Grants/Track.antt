-- ===== src/Emergency/Grants/Track.antt =====
-- `openGrants` seen from one provider: the last grant opened for it, while no record closes it.
use agent_context_broker.Prelude.{
  ◌≡◌, ◌≢◌, refl, ap, subst, ◌⊎◌, ◌∙◌, ◌↔◌, String, Bool, true, false, not, Option, none, some,
  List, [], ◌∷◌, ◌++◌, str_eq, eq_iff, find, keep, if◌then◌else◌, All, arith, Bool-cases, inl, inr,
}
use agent_context_broker.Emergency.Record.{
  Provider, codex, claude_code, Opened, RecordData, opened, closed, used,
}
use agent_context_broker.Emergency.Ledger.{LedgerRecord}
use agent_context_broker.Emergency.Grants.{
  same_provider, set_grant, drop_grant, note_record, open_from, open_grants, provider_grant,
}

-- One provider has one grant.
abbrev pub IsSingle : List Opened → Type 0
IsSingle [] = Unit
IsSingle (g ∷ gs) = All (λ h. same_provider h.provider g.provider ≡ false) gs × IsSingle gs

pub same_provider_iff : (a b : Provider) → (same_provider a b ≡ true) ↔ (a ≡ b)
same_provider_iff codex codex = ground arith
same_provider_iff codex claude_code = ground arith
same_provider_iff claude_code codex = ground arith
same_provider_iff claude_code claude_code = ground arith

same_provider_sym : (a b : Provider) → same_provider a b ≡ false → same_provider b a ≡ false
same_provider_sym a b h = ground (arith, same_provider_iff a b, same_provider_iff b a)

All-set_grant :
    (p : Provider) (g : Opened) (gs : List Opened)
    → same_provider g.provider p ≡ false
    → All (λ h. same_provider h.provider p ≡ false) gs
    → All (λ h. same_provider h.provider p ≡ false) (set_grant g gs)
unfolding set_grant
All-set_grant p g [] e a = (e, tt)
All-set_grant p g (h ∷ hs) e a = ground (arith, All-set_grant p g hs e a.1)

set_grant-IsSingle : (g : Opened) (gs : List Opened) → IsSingle gs → IsSingle (set_grant g gs)
unfolding set_grant
set_grant-IsSingle g [] s = (tt, tt)
set_grant-IsSingle g (h ∷ hs) s = elim (Bool-cases (same_provider h.provider g.provider)) [
  | inl same ↦ rw same (rw ((same_provider_iff h.provider g.provider).0 same) at s.0, s.1)
  | inr other ↦
      rw other (
        All-set_grant h.provider g hs (same_provider_sym _ _ other) s.0,
        set_grant-IsSingle g hs s.1,
      )
]

All-keep {ℓ} :
    (P : Opened → Type ℓ) (f : Opened → Bool) (gs : List Opened) → All P gs → All P (keep f gs)
All-keep P f [] a = tt
All-keep P f (g ∷ gs) a = ground (arith, All-keep P f gs a.1)

keep-IsSingle : (f : Opened → Bool) (gs : List Opened) → IsSingle gs → IsSingle (keep f gs)
keep-IsSingle f [] s = tt
keep-IsSingle f (g ∷ gs) s = elim (Bool-cases (f g)) [
  | inl kept ↦ rw kept (All-keep _ f gs s.0, keep-IsSingle f gs s.1)
  | inr gone ↦ rw gone (keep-IsSingle f gs s.1)
]

-- What one record does to the grant of the provider `p`.
abbrev track_record : Provider → Option Opened → RecordData → Option Opened
track_record p o (opened g) = if same_provider g.provider p then some g else o
track_record p none (closed c) = none
track_record p (some g) (closed c) = if str_eq g.grant_id c.grant_id then none else some g
track_record p o (used u) = o

abbrev track : Provider → Option Opened → List LedgerRecord → Option Opened
track p o [] = o
track p o (r ∷ rs) = track p (track_record p o r.content) rs

provider_grant-set_grant :
    (p : Provider) (g : Opened) (gs : List Opened)
    → provider_grant p (set_grant g gs)
      ≡ (if same_provider g.provider p then some g else provider_grant p gs)
unfolding provider_grant set_grant
provider_grant-set_grant p g [] = refl
provider_grant-set_grant p g (h ∷ hs) = ground (
  arith,
  provider_grant-set_grant p g hs,
  same_provider_iff h.provider g.provider,
  same_provider_iff h.provider p,
  same_provider_iff g.provider p,
)

pub find_some :
    (f : Opened → Bool) (P : Opened → Type 0) (gs : List Opened) (g : Opened)
    → All P gs
    → find f gs ≡ some g
    → P g
find_some f P [] g a e = cc
find_some f P (h ∷ hs) g a e = elim (Bool-cases (f h)) [
  | inl here ↦ let same : h ≡ g = ground arith in subst P same a.0
  | inr later ↦ find_some f P hs g a.1 (ground arith)
]

find-none : (f : Opened → Bool) (gs : List Opened) → All (λ h. f h ≡ false) gs → find f gs ≡ none
find-none f [] a = refl
find-none f (g ∷ gs) a = ground (arith, find-none f gs a.1)

find-keep-none :
    (f k : Opened → Bool) (gs : List Opened) → All (λ h. f h ≡ false) gs → find f (keep k gs) ≡ none
find-keep-none f k gs a = find-none f (keep k gs) (All-keep _ k gs a)

provider_grant-drop_grant :
    (p : Provider) (id : String) (gs : List Opened)
    → IsSingle gs
    → provider_grant p (drop_grant id gs) ≡ elim (provider_grant p gs) [
      | none ↦ none
      | some g ↦ if str_eq g.grant_id id then none else some g
    ]
unfolding provider_grant drop_grant
provider_grant-drop_grant p id [] s = refl
provider_grant-drop_grant p id (g ∷ gs) s = elim (Bool-cases (same_provider g.provider p)) [
  | inl mine ↦
      let others : All (λ h. same_provider h.provider p ≡ false) gs =
        rw ((same_provider_iff g.provider p).0 mine) at s.0 in
      ground (
        arith,
        find-keep-none (λ h. same_provider h.provider p) (λ h. not (str_eq h.grant_id id)) gs
            others,
      )
  | inr theirs ↦ ground (arith, provider_grant-drop_grant p id gs s.1)
]

note_record-IsSingle :
    (gs : List Opened) (d : RecordData) → IsSingle gs → IsSingle (note_record gs d)
note_record-IsSingle gs (opened g) s = set_grant-IsSingle g gs s
note_record-IsSingle gs (closed c) s = unfold drop_grant in keep-IsSingle _ gs s
note_record-IsSingle gs (used u) s = s

provider_grant-note_record :
    (p : Provider) (gs : List Opened) (d : RecordData)
    → IsSingle gs
    → provider_grant p (note_record gs d) ≡ track_record p (provider_grant p gs) d
provider_grant-note_record p gs (opened g) s = provider_grant-set_grant p g gs
provider_grant-note_record p gs (closed c) s =
    provider_grant-drop_grant p c.grant_id gs s ∙ ground arith
provider_grant-note_record p gs (used u) s = refl

open_from-IsSingle :
    (gs : List Opened) (rs : List LedgerRecord) → IsSingle gs → IsSingle (open_from gs rs)
unfolding open_from
open_from-IsSingle gs [] s = s
open_from-IsSingle gs (r ∷ rs) s =
    open_from-IsSingle (note_record gs r.content) rs (note_record-IsSingle gs r.content s)

pub open_grants-IsSingle : (rs : List LedgerRecord) → IsSingle (open_grants rs)
unfolding open_grants
open_grants-IsSingle rs = open_from-IsSingle [] rs tt

provider_grant-open_from :
    (p : Provider) (gs : List Opened) (rs : List LedgerRecord)
    → IsSingle gs
    → provider_grant p (open_from gs rs) ≡ track p (provider_grant p gs) rs
unfolding open_from
provider_grant-open_from p gs [] s = refl
provider_grant-open_from p gs (r ∷ rs) s =
    provider_grant-open_from p (note_record gs r.content) rs (note_record-IsSingle gs r.content s)
    ∙ rw (provider_grant-note_record p gs r.content s)

-- A record that leaves the grant `g` of the provider `p` open.
abbrev pub Leaves : Provider → Opened → RecordData → Type 0
Leaves p g (opened h) = same_provider h.provider p ≡ false
Leaves p g (closed c) = g.grant_id ≢ c.grant_id
Leaves p g (used u) = Unit

-- `g` was opened for `p`, and what follows leaves it open.
pub record IsOpen (p : Provider) (g : Opened) (rs : List LedgerRecord) : Type 0 where
  pub before : List LedgerRecord
  pub opening : LedgerRecord
  pub after : List LedgerRecord
  pub split : rs ≡ before ++ opening ∷ after
  pub opens : opening.content ≡ opened g
  pub mine : g.provider ≡ p
  pub left : All (λ r. Leaves p g r.content) after

track_record-Leaves :
    (p : Provider) (g : Opened) (d : RecordData) → Leaves p g d → track_record p (some g) d ≡ some g
track_record-Leaves p g (opened h) l = ground arith
track_record-Leaves p g (closed c) l = ground (arith, eq_iff g.grant_id c.grant_id)
track_record-Leaves p g (used u) l = refl

track-Leaves :
    (p : Provider) (g : Opened) (rs : List LedgerRecord)
    → All (λ r. Leaves p g r.content) rs
    → track p (some g) rs ≡ some g
track-Leaves p g [] a = refl
track-Leaves p g (r ∷ rs) a = rw (track_record-Leaves p g r.content a.0) (track-Leaves p g rs a.1)

track-append :
    (p : Provider) (o : Option Opened) (rs ss : List LedgerRecord)
    → track p o (rs ++ ss) ≡ track p (track p o rs) ss
track-append p o [] ss = refl
track-append p o (r ∷ rs) ss = track-append p (track_record p o r.content) rs ss

track_of_IsOpen :
    (p : Provider) (g : Opened) (rs : List LedgerRecord) → IsOpen p g rs → track p none rs ≡ some g
track_of_IsOpen p g rs i =
    rw (i.split, track-append, i.opens, (same_provider_iff g.provider p).1 i.mine)
      (track-Leaves p g i.after i.left)

IsOpen-cons :
    (p : Provider) (g : Opened) (r : LedgerRecord) (rs : List LedgerRecord)
    → IsOpen p g rs
    → IsOpen p g (r ∷ rs)
IsOpen-cons p g r rs i = record {
  before = r ∷ i.before;
  opening = i.opening;
  after = i.after;
  split = ap (λ l. r ∷ l) i.split;
  opens = i.opens;
  mine = i.mine;
  left = i.left;
}

track_record-eq-some :
    (p : Provider) (g : Opened) (o : Option Opened) (d : RecordData)
    → track_record p o d ≡ some g
    → ((o ≡ some g) × Leaves p g d) ⊎ ((d ≡ opened g) × (g.provider ≡ p))
track_record-eq-some p g o (opened h) e = elim (Bool-cases (same_provider h.provider p)) [
  | inl mine ↦
      let same : h ≡ g = ground arith in
      inr (ap opened same, rw (← same) ((same_provider_iff h.provider p).0 mine))
  | inr theirs ↦ inl (ground arith, theirs)
]
track_record-eq-some p g none (closed c) e = cc
track_record-eq-some p g (some h) (closed c) e =
    inl (ground arith, ground (arith, eq_iff h.grant_id c.grant_id))
track_record-eq-some p g o (used u) e = inl (e, tt)

track-eq-some :
    (p : Provider) (g : Opened) (o : Option Opened) (rs : List LedgerRecord)
    → track p o rs ≡ some g
    → ((o ≡ some g) × All (λ r. Leaves p g r.content) rs) ⊎ IsOpen p g rs
track-eq-some p g o [] e = inl (e, tt)
track-eq-some p g o (r ∷ rs) e = elim (track-eq-some p g (track_record p o r.content) rs e) [
  | inr i ↦ inr (IsOpen-cons p g r rs i)
  | inl (now, later) ↦ elim (track_record-eq-some p g o r.content now) [
    | inl (before, leaves) ↦ inl (before, (leaves, later))
    | inr (opens, mine) ↦ inr (record {
      before = [];
      opening = r;
      after = rs;
      split = refl;
      opens = opens;
      mine = mine;
      left = later;
    })
  ]
]

track-IsOpen :
    (p : Provider) (g : Opened) (rs : List LedgerRecord) → track p none rs ≡ some g → IsOpen p g rs
track-IsOpen p g rs e = elim (track-eq-some p g none rs e) [ inl (impossible, _) ↦ cc | inr i ↦ i ]

pub provider_grant-open_grants :
    (p : Provider) (rs : List LedgerRecord) → provider_grant p (open_grants rs) ≡ track p none rs
unfolding open_grants
provider_grant-open_grants p rs =
    provider_grant-open_from p [] rs tt ∙ (unfold provider_grant in refl)

-- The grant that `openGrants` keeps for a provider is the last one that a record opened for it, if
-- no record after that closes its id; and if a record opens a grant for the provider, and none after
-- it closes its id or opens another for the provider, `openGrants` keeps it.
pub open_grants_iff :
    (p : Provider) (g : Opened) (rs : List LedgerRecord)
    → (provider_grant p (open_grants rs) ≡ some g) ↔ IsOpen p g rs
open_grants_iff p g rs =
    rw (provider_grant-open_grants p rs) (track-IsOpen p g rs, track_of_IsOpen p g rs)
