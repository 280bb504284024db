-- ===== src/Slicing/Masking.antt =====
-- What `redactBlock` overwrites: exactly the places that a match covers.
use agent_context_broker.Prelude.{
  ℕ, zero, suc, ◌+◌, ◌≡◌, ◌≢◌, ◌<◌, ◌≤◌, refl, ap, ◌∙◌, Bool, true, false, ◌&&◌, List, [], ◌∷◌, ltb,
  leb, ◌==◌, length, any, all, Option, none, some, arith, Bool-cases, inl, inr, ◌⊎◌,
}
use agent_context_broker.Slicing.Redact.{Match, star, set_at, paint, paint_all}

-- The code point at a place.
abbrev pub point_at : ℕ → List ℕ → Option ℕ
point_at i [] = none
point_at zero (x ∷ xs) = some x
point_at (suc i) (x ∷ xs) = point_at i xs

abbrev pub passes : (ℕ → Bool) → Option ℕ → Bool
passes t none = false
passes t (some c) = t c

abbrev pub covers : ℕ → List Match → Bool
covers j ms = any (λ m. leb m.start j && ltb j (m.start + m.size)) ms

-- Matches that lie in a text of the length `n`.
abbrev pub fits : ℕ → List Match → Bool
fits n ms = all (λ m. leb (m.start + m.size) n) ms

length-set_at : (i c : ℕ) (xs : List ℕ) → i < length xs → length (set_at i c xs) ≡ length xs
length-set_at i c [] h = omega arith
length-set_at zero c (x ∷ xs) h = refl
length-set_at (suc i) c (x ∷ xs) h = ap suc (length-set_at i c xs (omega arith))

set_at_here : (i c : ℕ) (xs : List ℕ) → i < length xs → point_at i (set_at i c xs) ≡ some c
set_at_here i c [] h = ground arith
set_at_here zero c (x ∷ xs) h = refl
set_at_here (suc i) c (x ∷ xs) h = set_at_here i c xs (omega arith)

set_at_other :
    (i j c : ℕ) (xs : List ℕ) → i < length xs → j ≢ i → point_at j (set_at i c xs) ≡ point_at j xs
set_at_other i j c [] h ne = ground arith
set_at_other zero zero c (x ∷ xs) h ne = ground arith
set_at_other zero (suc j) c (x ∷ xs) h ne = refl
set_at_other (suc i) zero c (x ∷ xs) h ne = refl
set_at_other (suc i) (suc j) c (x ∷ xs) h ne =
    set_at_other i j c xs (omega arith) (λ e. ne (ap suc e))

module _ (t : ℕ → Bool) (starred : t star ≡ true) where
  set_at_keeps :
      (i j c : ℕ) (xs : List ℕ)
      → t c ≡ true
      → i < length xs
      → passes t (point_at j xs) ≡ true
      → passes t (point_at j (set_at i c xs)) ≡ true
  set_at_keeps i j c [] k h e = ground arith
  set_at_keeps zero zero c (x ∷ xs) k h e = k
  set_at_keeps zero (suc j) c (x ∷ xs) k h e = e
  set_at_keeps (suc i) zero c (x ∷ xs) k h e = e
  set_at_keeps (suc i) (suc j) c (x ∷ xs) k h e = set_at_keeps i j c xs k (omega arith) e

length-paint :
    (n i : ℕ) (label out : List ℕ) → i + n ≤ length out → length (paint n i label out) ≡ length out
unfolding paint
length-paint zero i label out h = refl
length-paint (suc n) i [] out h =
    let same = length-set_at i star out (omega arith) in
    length-paint n (suc i) [] (set_at i star out) (omega (arith, same, h)) ∙ same
length-paint (suc n) i (l ∷ label) out h =
    let same = length-set_at i l out (omega arith) in
    length-paint n (suc i) label (set_at i l out) (omega (arith, same, h)) ∙ same

paint_outside :
    (n i j : ℕ) (label out : List ℕ)
    → i + n ≤ length out
    → (j < i) ⊎ (i + n ≤ j)
    → point_at j (paint n i label out) ≡ point_at j out
unfolding paint
paint_outside zero i j label out h o = refl
paint_outside (suc n) i j [] out h o =
    let same = length-set_at i star out (omega arith) in
    paint_outside n (suc i) j [] (set_at i star out) (omega (arith, same, h)) (ground arith)
    ∙ set_at_other i j star out (omega arith) (ground arith)
paint_outside (suc n) i j (l ∷ label) out h o =
    let same = length-set_at i l out (omega arith) in
    paint_outside n (suc i) j label (set_at i l out) (omega (arith, same, h)) (ground arith)
    ∙ set_at_other i j l out (omega arith) (ground arith)

module _ (t : ℕ → Bool) (starred : t star ≡ true) where
  paint_keeps :
      (n i j : ℕ) (label out : List ℕ)
      → all t label ≡ true
      → i + n ≤ length out
      → passes t (point_at j out) ≡ true
      → passes t (point_at j (paint n i label out)) ≡ true
  unfolding paint
  paint_keeps zero i j label out a h e = e
  paint_keeps (suc n) i j [] out a h e =
      paint_keeps n (suc i) j [] (set_at i star out) a
        (omega (arith, length-set_at i star out (omega arith), h))
        (set_at_keeps t starred i j star out starred (omega arith) e)
  paint_keeps (suc n) i j (l ∷ label) out a h e =
      paint_keeps n (suc i) j label (set_at i l out) (ground arith)
        (omega (arith, length-set_at i l out (omega arith), h))
        (set_at_keeps t starred i j l out (ground arith) (omega arith) e)

  paint_step :
      (n i j c : ℕ) (label out : List ℕ)
      → t c ≡ true
      → all t label ≡ true
      → i + suc n ≤ length out
      → i ≤ j
      → j < i + suc n
      → (all t label ≡ true
          → suc i + n ≤ length (set_at i c out)
          → suc i ≤ j
          → j < suc i + n
          → passes t (point_at j (paint n (suc i) label (set_at i c out))) ≡ true)
      → passes t (point_at j (paint n (suc i) label (set_at i c out))) ≡ true
  paint_step n i j c label out k a h b d later =
      let room : suc i + n ≤ length (set_at i c out) =
        omega (arith, length-set_at i c out (omega arith), h) in
      elim (Bool-cases (j == i)) [
        | inr other ↦ later a room (ground arith) (ground arith)
        | inl here ↦
            let same : j ≡ i = ground arith in
            paint_keeps n (suc i) j label (set_at i c out) a room
              (rw (same, set_at_here i c out (omega arith)) k)
      ]

  paint_inside :
      (n i j : ℕ) (label out : List ℕ)
      → all t label ≡ true
      → i + n ≤ length out
      → i ≤ j
      → j < i + n
      → passes t (point_at j (paint n i label out)) ≡ true
  unfolding paint
  paint_inside zero i j label out a h b c = ground arith
  paint_inside (suc n) i j [] out a h b c =
      paint_step n i j star [] out starred a h b c (paint_inside n (suc i) j [] (set_at i star out))
  paint_inside (suc n) i j (l ∷ label) out a h b c =
      paint_step n i j l label out (ground arith) (ground arith) h b c
        (paint_inside n (suc i) j label (set_at i l out))

  pub paint_all_keeps :
      (j : ℕ) (label : List ℕ) (ms : List Match) (out : List ℕ)
      → all t label ≡ true
      → fits (length out) ms ≡ true
      → passes t (point_at j out) ≡ true
      → passes t (point_at j (paint_all label ms out)) ≡ true
  paint_all_keeps j label [] out a f e = e
  paint_all_keeps j label (m ∷ ms) out a f e =
      let same = length-paint m.size m.start label out (ground arith) in
      paint_all_keeps j label ms (paint m.size m.start label out) a (rw same (ground arith))
        (paint_keeps m.size m.start j label out a (ground arith) e)

  pub paint_all_inside :
      (j : ℕ) (label : List ℕ) (ms : List Match) (out : List ℕ)
      → all t label ≡ true
      → fits (length out) ms ≡ true
      → covers j ms ≡ true
      → passes t (point_at j (paint_all label ms out)) ≡ true
  paint_all_inside j label [] out a f c = cc
  paint_all_inside j label (m ∷ ms) out a f c =
      let same = length-paint m.size m.start label out (ground arith) in
      let rest : fits (length (paint m.size m.start label out)) ms ≡ true =
        rw same (ground arith) in
      elim (Bool-cases (leb m.start j && ltb j (m.start + m.size))) [
        | inl here ↦
            paint_all_keeps j label ms (paint m.size m.start label out) a rest (
              paint_inside m.size m.start j label out a (ground arith) (ground arith)
                (ground arith))
        | inr later ↦
            paint_all_inside j label ms (paint m.size m.start label out) a rest (rw later at c)
      ]

pub length-paint_all :
    (label : List ℕ) (ms : List Match) (out : List ℕ)
    → fits (length out) ms ≡ true
    → length (paint_all label ms out) ≡ length out
length-paint_all label [] out f = refl
length-paint_all label (m ∷ ms) out f =
    let same = length-paint m.size m.start label out (ground arith) in
    length-paint_all label ms (paint m.size m.start label out) (rw same (ground arith)) ∙ same

pub paint_all_outside :
    (j : ℕ) (label : List ℕ) (ms : List Match) (out : List ℕ)
    → fits (length out) ms ≡ true
    → covers j ms ≡ false
    → point_at j (paint_all label ms out) ≡ point_at j out
paint_all_outside j label [] out f c = refl
paint_all_outside j label (m ∷ ms) out f c =
    let same = length-paint m.size m.start label out (ground arith) in
    paint_all_outside j label ms (paint m.size m.start label out) (rw same (ground arith))
      (ground arith)
    ∙ paint_outside m.size m.start j label out (ground arith) (ground arith)
