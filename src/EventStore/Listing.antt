-- ===== src/EventStore/Listing.antt =====
-- The record files of a chain: `recordFiles` of src/event-store.mjs lists them all, and a new record
-- comes behind them.
use agent_context_broker.Prelude.{
  ℕ, zero, suc, ◌+◌, ◌≤◌, ◌<◌, ◌==◌, ◌≡◌, refl, ap, subst, String, true, false, Option, none, some,
  List, [], ◌∷◌, ◌++◌, map, arith, Option-cases, inl, inr, length, take, drop, leb, keep, ltb,
}
use agent_context_broker.Platform.{Platform}
use agent_context_broker.EventStore.Event.{Event}
use agent_context_broker.EventStore.Files.{
  ok, record_file, record_files, is_listed, has_duplicates, max_sequence, put_file, last,
  read_record,
}
use agent_context_broker.EventStore.Verify.{anchor, id_of}
use agent_context_broker.EventStore.Index.{tip_id}
use agent_context_broker.EventStore.Chain.{Chain}

-- The id that the next event links to.
abbrev pub tip : Option String → List Event → Option String
tip previous [] = previous
tip previous (e ∷ es) = tip (some e.event_id) es

pub last-snoc {ℓ} : {A : Type ℓ} (xs : List A) (x : A) → last (xs ++ x ∷ []) ≡ some x
last-snoc [] x = refl
last-snoc (y ∷ []) x = refl
last-snoc (y ∷ z ∷ xs) x = last-snoc (z ∷ xs) x

abbrev map_option {ℓ κ} : {A : Type ℓ} {B : Type κ} → (A → B) → Option A → Option B
map_option f none = none
map_option f (some a) = some (f a)

last-map {ℓ κ} :
    {A : Type ℓ} {B : Type κ} (f : A → B) (xs : List A) → last (map f xs) ≡ map_option f (last xs)
last-map f [] = refl
last-map f (x ∷ []) = refl
last-map f (x ∷ y ∷ xs) = last-map f (y ∷ xs)

pub tip-last :
    (previous : Option String) (e : Event) (es : List Event)
    → tip previous (e ∷ es) ≡ tip_id (last (e ∷ es))
tip-last previous e [] = refl
tip-last previous e (d ∷ es) = tip-last (some e.event_id) d es

pub tip_id-last : (es : List Event) → tip none es ≡ tip_id (last es)
tip_id-last [] = refl
tip_id-last (e ∷ es) = tip-last none e es

pub tip-append :
    (previous : Option String) (es ds : List Event)
    → tip previous (es ++ ds) ≡ tip (tip previous es) ds
tip-append previous [] ds = refl
tip-append previous (e ∷ es) ds = tip-append (some e.event_id) es ds

module _ (p : Platform) where
  pub Chain-append :
      (n : ℕ) (previous : Option String) (es ds : List Event)
      → Chain p n previous es
      → Chain p (n + length es) (tip previous es) ds
      → Chain p n previous (es ++ ds)
  Chain-append n previous [] ds c d = subst (λ m. Chain p m previous ds) (omega arith) d
  Chain-append n previous (e ∷ es) ds c d = (
    c.0,
    Chain-append (suc n) (some e.event_id) es ds c.1
        (subst (λ m. Chain p m (tip (some e.event_id) es) ds) (omega arith) d),
  )

  pub Chain-split :
      (n : ℕ) (previous : Option String) (es ds : List Event)
      → Chain p n previous (es ++ ds)
      → Chain p n previous es × Chain p (n + length es) (tip previous es) ds
  Chain-split n previous [] ds c = (tt, subst (λ m. Chain p m previous ds) (omega arith) c)
  Chain-split n previous (e ∷ es) ds c =
      let (front, back) = Chain-split (suc n) (some e.event_id) es ds c.1 in
      ((c.0, front), subst (λ m. Chain p m (tip (some e.event_id) es) ds) (omega arith) back)

  keep-is_listed :
      (n : ℕ) (previous : Option String) (es : List Event)
      → Chain p n previous es
      → n + length es ≤ 1 + max_sequence
      → keep is_listed (map record_file es) ≡ map record_file es
  keep-is_listed n previous [] c h = refl
  keep-is_listed n previous (e ∷ es) c h =
      let listed : leb e.sequence max_sequence ≡ true = rw c.0.placed (ground arith) in
      rw (listed, keep-is_listed (suc n) (some e.event_id) es c.1 (omega arith)) refl

  has_duplicates-false :
      (n : ℕ) (previous : Option String) (es : List Event)
      → Chain p n previous es
      → has_duplicates (map record_file es) ≡ false
  has_duplicates-false n previous [] c = refl
  has_duplicates-false n previous (e ∷ []) c = refl
  has_duplicates-false n previous (e ∷ d ∷ es) c =
      let rest = has_duplicates-false (suc n) (some e.event_id) (d ∷ es) c.1 in
      let first = c.0.placed in let second = c.1.0.placed in ground arith

  -- `recordFiles` lists the files of a chain, in its order.
  pub record_files_of_Chain :
      (es : List Event)
      → Chain p 1 none es
      → length es ≤ max_sequence
      → record_files (map record_file es) ≡ ok (map record_file es)
  unfolding record_files
  record_files_of_Chain es c h =
      rw (keep-is_listed 1 none es c (omega arith), has_duplicates-false 1 none es c) refl

  -- A record behind the last one is the last file.
  pub put_file-snoc :
      (n : ℕ) (previous : Option String) (es : List Event) (e : Event)
      → Chain p n previous es
      → n + length es ≤ e.sequence
      → put_file (record_file e) (map record_file es) ≡ map record_file (es ++ e ∷ [])
  unfolding put_file
  put_file-snoc n previous [] e c h = refl
  put_file-snoc n previous (d ∷ es) e c h =
      let placed = c.0.placed in
      let other : (e.sequence == d.sequence) ≡ false = ground arith in
      let later : ltb d.sequence e.sequence ≡ true = ground arith in
      let rest = put_file-snoc (suc n) (some d.event_id) es e c.1 (omega arith) in
      ground (arith, other, later, rest)

  last-files :
      (es : List Event) → anchor p (map record_file es) ≡ id_of p (map_option record_file (last es))
  unfolding anchor
  last-files es = ap (id_of p) (last-map record_file es)

  pub anchor_of_files : (es : List Event) → anchor p (map record_file es) ≡ ok (tip none es)
  unfolding read_record
  anchor_of_files es = elim (Option-cases (last es)) [
    | inl e ↦ rw (last-files es, tip_id-last es, e) refl
    | inr (d, e) ↦ rw (last-files es, tip_id-last es, e) refl
  ]

pub map-take {ℓ κ} :
    {A : Type ℓ} {B : Type κ} (f : A → B) (n : ℕ) (xs : List A)
    → take n (map f xs) ≡ map f (take n xs)
map-take f zero xs = refl
map-take f (suc n) [] = refl
map-take f (suc n) (x ∷ xs) = ap (λ ys. f x ∷ ys) (map-take f n xs)

pub map-drop {ℓ κ} :
    {A : Type ℓ} {B : Type κ} (f : A → B) (n : ℕ) (xs : List A)
    → drop n (map f xs) ≡ map f (drop n xs)
map-drop f zero xs = refl
map-drop f (suc n) [] = refl
map-drop f (suc n) (x ∷ xs) = map-drop f n xs

pub last-drop {ℓ} : {A : Type ℓ} (n : ℕ) (xs : List A) → n < length xs → last (drop n xs) ≡ last xs
last-drop zero xs h = refl
last-drop (suc n) [] h = absurd (omega arith)
last-drop (suc n) (x ∷ []) h = absurd (omega arith)
last-drop (suc n) (x ∷ y ∷ xs) h = last-drop n (y ∷ xs) (omega arith)
