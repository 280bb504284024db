-- ===== src/Emergency/Invariant.antt =====
-- What holds of the open grants after the records of an accepted ledger: their ids are those of
-- records, have the schema's shape, and differ.
use mathlib.Core.List.{append-nil}
use agent_context_broker.Prelude.{
  ◌≡◌, refl, String, Bool, true, false, List, [], ◌∷◌, ◌++◌, str_eq, eq_iff, keep, contains, All,
  arith, Bool-cases, inl, inr,
}
use agent_context_broker.Platform.{Platform}
use agent_context_broker.Emergency.Record.{
  Opened, RecordData, opened, closed, used, is_identifier, record_schema,
}
use agent_context_broker.Emergency.Ledger.{LedgerRecord, admits, add_grant}
use agent_context_broker.Emergency.Ledger.Scan.{
  opened_ids, opened_ids-append, Chain, chain_nil, chain_snoc,
}
use agent_context_broker.Emergency.Grants.{
  set_grant, drop_grant, note_record, open_from, open_grants,
}

pub open_from-append :
    (gs : List Opened) (rs ss : List LedgerRecord)
    → open_from gs (rs ++ ss) ≡ open_from (open_from gs rs) ss
unfolding open_from
open_from-append gs [] ss = refl
open_from-append gs (r ∷ rs) ss = open_from-append (note_record gs r.content) rs ss

pub open_grants-append :
    (rs ss : List LedgerRecord) → open_grants (rs ++ ss) ≡ open_from (open_grants rs) ss
unfolding open_grants
open_grants-append rs ss = open_from-append [] rs ss

-- The open grant is one that a record of the ledger opened.
pub record IsKnown (ids : List String) (g : Opened) : Type 0 where
  pub shaped : is_identifier g.grant_id ≡ true
  pub listed : contains g.grant_id ids ≡ true

abbrev pub IsDistinct : List Opened → Type 0
IsDistinct [] = Unit
IsDistinct (g ∷ gs) = All (λ h. str_eq h.grant_id g.grant_id ≡ false) gs × IsDistinct gs

contains-append :
    (id : String) (xs ys : List String) → contains id xs ≡ true → contains id (xs ++ ys) ≡ true
contains-append id [] ys h = cc
contains-append id (x ∷ xs) ys h = ground (arith, contains-append id xs ys)

contains-snoc : (id : String) (xs : List String) → contains id (xs ++ id ∷ []) ≡ true
contains-snoc id [] = ground (arith, eq_iff id id)
contains-snoc id (x ∷ xs) = ground (arith, contains-snoc id xs)

pub All-impl {ℓ κ} :
    {P : Opened → Type ℓ} {Q : Opened → Type κ} (gs : List Opened)
    → ((g : Opened) → P g → Q g)
    → All P gs
    → All Q gs
All-impl [] f a = tt
All-impl (g ∷ gs) f a = (f g a.0, All-impl gs f a.1)

All-set_grant {ℓ} :
    (P : Opened → Type ℓ) (g : Opened) (gs : List Opened) → P g → All P gs → All P (set_grant g gs)
unfolding set_grant
All-set_grant P g [] h a = (h, tt)
All-set_grant P g (k ∷ ks) h a = ground (arith, All-set_grant P g ks h a.1)

pub All-keep {ℓ} :
    (P : Opened → Type ℓ) (f : Opened → Bool) (gs : List Opened) → All P gs → All P (keep f gs)
All-keep P f [] a = tt
All-keep P f (g ∷ gs) a = ground (arith, All-keep P f gs a.1)

str_eq_sym :
    (g h : Opened) → str_eq g.grant_id h.grant_id ≡ false → str_eq h.grant_id g.grant_id ≡ false
str_eq_sym g h e = ground (arith, eq_iff g.grant_id h.grant_id, eq_iff h.grant_id g.grant_id)

set_grant-IsDistinct :
    (g : Opened) (gs : List Opened)
    → All (λ h. str_eq h.grant_id g.grant_id ≡ false) gs
    → IsDistinct gs
    → IsDistinct (set_grant g gs)
unfolding set_grant
set_grant-IsDistinct g [] a d = (tt, tt)
set_grant-IsDistinct g (h ∷ hs) a d =
    let rest : All (λ k. str_eq k.grant_id h.grant_id ≡ false) (set_grant g hs) =
      All-set_grant _ g hs (str_eq_sym h g a.0) d.0 in
    ground (arith, rest, set_grant-IsDistinct g hs a.1 d.1)

keep-IsDistinct : (f : Opened → Bool) (gs : List Opened) → IsDistinct gs → IsDistinct (keep f gs)
keep-IsDistinct f [] d = tt
keep-IsDistinct f (g ∷ gs) d = elim (Bool-cases (f g)) [
  | inl kept ↦ rw kept (All-keep _ f gs d.0, keep-IsDistinct f gs d.1)
  | inr gone ↦ rw gone (keep-IsDistinct f gs d.1)
]

pub record IsSound (ids : List String) (gs : List Opened) : Type 0 where
  pub known : All (IsKnown ids) gs
  pub distinct : IsDistinct gs

pub IsKnown-append : (ids more : List String) (g : Opened) → IsKnown ids g → IsKnown (ids ++ more) g
IsKnown-append ids more g k = record {
  shaped = k.shaped;
  listed = contains-append g.grant_id ids more k.listed;
}

-- An id that is not listed differs from those that are.
not_listed :
    (ids : List String) (g h : Opened)
    → contains g.grant_id ids ≡ false
    → IsKnown ids h
    → str_eq h.grant_id g.grant_id ≡ false
not_listed ids g h n k = ground (arith, eq_iff h.grant_id g.grant_id)

note_record-IsSound :
    (ids : List String) (gs : List Opened) (d : RecordData)
    → record_schema d ≡ true
    → admits ids d ≡ true
    → IsSound ids gs
    → IsSound (ids ++ add_grant [] d) (note_record gs d)
unfolding record_schema admits drop_grant
note_record-IsSound ids gs (opened g) shaped admitted s = record {
  known =
      All-set_grant _ g gs (record { shaped = ground arith; listed = contains-snoc g.grant_id ids })
        (All-impl gs (IsKnown-append ids (g.grant_id ∷ [])) s.known);
  distinct =
      set_grant-IsDistinct g gs (All-impl gs (λ h. not_listed ids g h (ground arith)) s.known)
        s.distinct;
}
note_record-IsSound ids gs (closed c) shaped admitted s = record {
  known = All-keep _ _ gs (All-impl gs (IsKnown-append ids []) s.known);
  distinct = keep-IsDistinct _ gs s.distinct;
}
note_record-IsSound ids gs (used u) shaped admitted s = record {
  known = All-impl gs (IsKnown-append ids []) s.known;
  distinct = s.distinct;
}

-- The open grants of an accepted ledger are known, and have different ids.
pub Chain-IsSound :
    {p : Platform} (rs : List LedgerRecord) → Chain p rs → IsSound (opened_ids rs) (open_grants rs)
unfolding open_grants
Chain-IsSound rs chain_nil = record { known = tt; distinct = tt }
Chain-IsSound rs (chain_snoc ss r c a) =
    let s : IsSound (opened_ids ss ++ add_grant [] r.content)
        (note_record (open_grants ss) r.content) =
      note_record-IsSound (opened_ids ss) (open_grants ss) r.content a.shaped a.admitted
        (Chain-IsSound ss c) in
    rw (opened_ids-append, append-nil, open_grants-append) (unfold open_from in s)
