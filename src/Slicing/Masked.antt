-- ===== src/Slicing/Masked.antt =====
-- `redactBlock` as a whole: what it returns at a place that a match covers, and at one that none covers.
use agent_context_broker.Prelude.{
  ℕ, ◌≡◌, ◌≢◌, refl, sym, ◌∙◌, String, Bool, true, false, ◌||◌, List, [], ◌∷◌, ◌==◌, length, any,
  all, arith, Bool-cases, inl, inr, ◌⊎◌,
}
use agent_context_broker.Slicing.Errors.{ok, err, offset_drift}
use agent_context_broker.Slicing.Redact.{
  Matcher, Patterns, Kinds, star, paint_all, label_of, paint_labelled, hide_quoted, hide_labelled,
  hide_token, redact_block,
}
use agent_context_broker.Slicing.Masking.{
  point_at, passes, covers, fits, paint_all_keeps, paint_all_inside, length-paint_all,
  paint_all_outside,
}

abbrev pub Labelled : Type 0
Labelled = List (String × Matcher)

-- A star, or a code point of some label.
abbrev pub is_mask : Labelled → ℕ → Bool
is_mask ps c = c == star || any (λ (q : String × Matcher). any (λ l. l == c) (label_of q.0)) ps

abbrev pub covers_labelled : ℕ → List ℕ → Labelled → Bool
covers_labelled j masked ps = any (λ (q : String × Matcher). covers j (q.1 masked)) ps

-- What a regular expression does: it matches inside the text.
pub record IsInside (p : Patterns) : Type 0 where
  pub quoted : (text : List ℕ) → fits (length text) (p.quoted text) ≡ true
  pub labelled :
      (text : List ℕ)
      → all (λ (q : String × Matcher). fits (length text) (q.1 text)) p.labelled ≡ true
  pub token : (text : List ℕ) → fits (length text) (p.token text) ≡ true

all_of :
    (t : ℕ → Bool) (xs : List ℕ)
    → ((c : ℕ) → any (λ l. l == c) xs ≡ true → t c ≡ true)
    → all t xs ≡ true
all_of t [] h = refl
all_of t (x ∷ xs) h =
    let here : t x ≡ true = h x (ground arith) in
    let rest : all t xs ≡ true = all_of t xs (λ c e. h c (ground arith)) in rw (here, rest)

labels_pass :
    (t : ℕ → Bool) (qs : Labelled)
    → ((c : ℕ)
        → any (λ (q : String × Matcher). any (λ l. l == c) (label_of q.0)) qs ≡ true
        → t c ≡ true)
    → all (λ (q : String × Matcher). all t (label_of q.0)) qs ≡ true
labels_pass t [] h = refl
labels_pass t ((kind, matcher) ∷ qs) h =
    let here : all t (label_of kind) ≡ true = all_of t (label_of kind) (λ c e. h c (rw e)) in
    let rest : all (λ (q : String × Matcher). all t (label_of q.0)) qs ≡ true =
      labels_pass t qs (λ c e. h c (ground arith)) in
    rw (here, rest)

length-paint_labelled :
    (masked : List ℕ) (ps : Labelled) (out : List ℕ)
    → length masked ≡ length out
    → all (λ (q : String × Matcher). fits (length masked) (q.1 masked)) ps ≡ true
    → length (paint_labelled masked ps out) ≡ length out
unfolding paint_labelled
length-paint_labelled masked [] out same f = refl
length-paint_labelled masked ((kind, matcher) ∷ ps) out same f =
    let one = length-paint_all (label_of kind) (matcher masked) out (rw (← same) (ground arith)) in
    length-paint_labelled masked ps (paint_all (label_of kind) (matcher masked) out)
      (same ∙ sym one) (ground arith)
    ∙ one

module _ (t : ℕ → Bool) (starred : t star ≡ true) where
  labelled_keeps :
      (j : ℕ) (masked : List ℕ) (ps : Labelled) (out : List ℕ)
      → all (λ (q : String × Matcher). all t (label_of q.0)) ps ≡ true
      → length masked ≡ length out
      → all (λ (q : String × Matcher). fits (length masked) (q.1 masked)) ps ≡ true
      → passes t (point_at j out) ≡ true
      → passes t (point_at j (paint_labelled masked ps out)) ≡ true
  unfolding paint_labelled
  labelled_keeps j masked [] out a same f e = e
  labelled_keeps j masked ((kind, matcher) ∷ ps) out a same f e =
      let inside : fits (length out) (matcher masked) ≡ true = rw (← same) (ground arith) in
      let one = length-paint_all (label_of kind) (matcher masked) out inside in
      labelled_keeps j masked ps (paint_all (label_of kind) (matcher masked) out) (ground arith)
        (same ∙ sym one) (ground arith)
        (paint_all_keeps t starred j (label_of kind) (matcher masked) out (ground arith) inside e)

  labelled_inside :
      (j : ℕ) (masked : List ℕ) (ps : Labelled) (out : List ℕ)
      → all (λ (q : String × Matcher). all t (label_of q.0)) ps ≡ true
      → length masked ≡ length out
      → all (λ (q : String × Matcher). fits (length masked) (q.1 masked)) ps ≡ true
      → covers_labelled j masked ps ≡ true
      → passes t (point_at j (paint_labelled masked ps out)) ≡ true
  unfolding paint_labelled
  labelled_inside j masked [] out a same f c = cc
  labelled_inside j masked ((kind, matcher) ∷ ps) out a same f c =
      let inside : fits (length out) (matcher masked) ≡ true = rw (← same) (ground arith) in
      let next = paint_all (label_of kind) (matcher masked) out in
      let one : length masked ≡ length next =
        same ∙ sym (length-paint_all (label_of kind) (matcher masked) out inside) in
      elim (Bool-cases (covers j (matcher masked))) [
        | inl here ↦ labelled_keeps j masked ps next (ground arith) one (ground arith) (
            paint_all_inside t starred j (label_of kind) (matcher masked) out (ground arith) inside
              here)
        | inr later ↦
            labelled_inside j masked ps next (ground arith) one (ground arith) (rw later at c)
      ]

labelled_outside :
    (j : ℕ) (masked : List ℕ) (ps : Labelled) (out : List ℕ)
    → length masked ≡ length out
    → all (λ (q : String × Matcher). fits (length masked) (q.1 masked)) ps ≡ true
    → covers_labelled j masked ps ≡ false
    → point_at j (paint_labelled masked ps out) ≡ point_at j out
unfolding paint_labelled
labelled_outside j masked [] out same f c = refl
labelled_outside j masked ((kind, matcher) ∷ ps) out same f c =
    let inside : fits (length out) (matcher masked) ≡ true = rw (← same) (ground arith) in
    let one = length-paint_all (label_of kind) (matcher masked) out inside in
    labelled_outside j masked ps (paint_all (label_of kind) (matcher masked) out) (same ∙ sym one)
      (ground arith) (ground arith)
    ∙ paint_all_outside j (label_of kind) (matcher masked) out inside (ground arith)

-- Some expression matches over the place `j`: `QUOTED` the text, one of `PATTERNS` what that left, or
-- `TOKEN` what those left.
abbrev pub is_covered : Patterns → List ℕ → ℕ → Bool
is_covered p value j =
    covers j (p.quoted value)
    || covers_labelled j (hide_quoted p value) p.labelled
    || covers j (p.token (hide_labelled p (hide_quoted p value)))

first_left : (a b c : Bool) → (a || b || c) ≡ true → b ≡ false → c ≡ false → a ≡ true
first_left true b c e eb ec = refl
first_left false b c e eb ec = ground arith

none_left : (a b c : Bool) → (a || b || c) ≡ false → (a ≡ false) × (b ≡ false) × (c ≡ false)
none_left true b c e = ground arith
none_left false false c e = (refl, refl, e)
none_left false true c e = ground arith

module _ (p : Patterns) (inside : IsInside p) (value : List ℕ) where
  length-hide_quoted : length (hide_quoted p value) ≡ length value
  length-hide_quoted = length-paint_all [] (p.quoted value) value (inside.quoted value)

  length-hide_labelled :
      length (hide_labelled p (hide_quoted p value)) ≡ length (hide_quoted p value)
  length-hide_labelled =
      length-paint_labelled (hide_quoted p value) p.labelled (hide_quoted p value) refl
        (inside.labelled (hide_quoted p value))

  length-hidden : length (hide_token p (hide_labelled p (hide_quoted p value))) ≡ length value
  length-hidden =
      length-paint_all [] _ _ (inside.token (hide_labelled p (hide_quoted p value)))
      ∙ length-hide_labelled
      ∙ length-hide_quoted

  labels_ok :
      all (λ (q : String × Matcher). all (is_mask p.labelled) (label_of q.0)) p.labelled ≡ true
  labels_ok = labels_pass (is_mask p.labelled) p.labelled (λ c e. ground arith)

  hidden_inside :
      (j : ℕ)
      → is_covered p value j ≡ true
      → passes
          (is_mask p.labelled)
          (point_at j (hide_token p (hide_labelled p (hide_quoted p value))))
        ≡ true
  hidden_inside j c =
      let masked = hide_quoted p value in
      let out = hide_labelled p masked in
      let t = is_mask p.labelled in
      let in_masked = inside.labelled masked in
      elim (Bool-cases (covers j (p.token out))) [
        | inl last ↦ paint_all_inside t refl j [] (p.token out) out refl (inside.token out) last
        | inr not_last ↦
            paint_all_keeps t refl j [] (p.token out) out refl (inside.token out)
              (elim (Bool-cases (covers_labelled j masked p.labelled)) [
                | inl second ↦
                    labelled_inside t refl j masked p.labelled masked labels_ok refl in_masked
                      second
                | inr not_second ↦
                    labelled_keeps t refl j masked p.labelled masked labels_ok refl in_masked (
                      paint_all_inside t refl j [] (p.quoted value) value refl (inside.quoted value)
                        (first_left (covers j (p.quoted value)) _ _ c not_second not_last))
              ])
      ]

  hidden_outside :
      (j : ℕ)
      → is_covered p value j ≡ false
      → point_at j (hide_token p (hide_labelled p (hide_quoted p value))) ≡ point_at j value
  hidden_outside j c =
      let masked = hide_quoted p value in
      let out = hide_labelled p masked in
      let (not_first, not_second, not_last) = none_left (covers j (p.quoted value)) _ _ c in
      paint_all_outside j [] (p.token out) out (inside.token out) not_last
      ∙ labelled_outside j masked p.labelled masked refl (inside.labelled masked) not_second
      ∙ paint_all_outside j [] (p.quoted value) value (inside.quoted value) not_first

redact_block-text :
    (p : Patterns) (value text : List ℕ) (kinds : Kinds)
    → redact_block p value ≡ ok (text, kinds)
    → text ≡ hide_token p (hide_labelled p (hide_quoted p value))
unfolding redact_block
redact_block-text p value text kinds e = ground arith

-- If the expressions match inside their texts, then at every place of a text that `redactBlock` returns:
-- if an expression matched over the place, it holds a star or a code point of a label; if none did, it
-- holds what it held before.
pub redact_block-masks :
    (p : Patterns) (inside : IsInside p) (value text : List ℕ) (kinds : Kinds) (j : ℕ)
    → redact_block p value ≡ ok (text, kinds)
    → ((is_covered p value j ≡ true) × (passes (is_mask p.labelled) (point_at j text) ≡ true))
      ⊎ ((is_covered p value j ≡ false) × (point_at j text ≡ point_at j value))
redact_block-masks p inside value text kinds j e =
    let same = redact_block-text p value text kinds e in
    elim (Bool-cases (is_covered p value j)) [
      | inl c ↦ inl (c, rw same (hidden_inside p inside value j c))
      | inr c ↦ inr (c, rw same (hidden_outside p inside value j c))
    ]

-- If the expressions match inside their texts, `redactBlock` never fails with `redaction-offset-drift`:
-- what it overwrites keeps its length.
pub redact_block-offset_drift :
    (p : Patterns) (value : List ℕ) → IsInside p → redact_block p value ≢ err offset_drift
unfolding redact_block
redact_block-offset_drift p value inside =
    let same = length-hidden p inside value in rw same (ground arith)
