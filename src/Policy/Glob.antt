-- ===== src/Policy/Glob.antt =====
-- `globMatch` decides the relation of patterns with stars to texts.
use agent_context_broker.Prelude.{
  ℕ, ◌≡◌, ◌≢◌, ◌↔◌, refl, subst, Bool, true, false, not, ◌&&◌, List, [], ◌∷◌, ◌==◌, arith,
  Bool-cases, inl, inr,
}
use agent_context_broker.Policy.{ends_line, skip, one, glob_match}

module _ (fold : ℕ → ℕ) where
  -- A star stands for any text without the end of a line, any other sign for itself in either case.
  pub data IsMatch : List ℕ → List ℕ → Type 0 where
    done : IsMatch [] []
    sign :
        (c d : ℕ) (cs ds : List ℕ)
        → c ≢ b'*'
        → fold c ≡ fold d
        → IsMatch cs ds
        → IsMatch (c ∷ cs) (d ∷ ds)
    star_none : (cs ds : List ℕ) → IsMatch cs ds → IsMatch (b'*' ∷ cs) ds
    star_more :
        (cs ds : List ℕ) (d : ℕ)
        → ends_line d ≡ false
        → IsMatch (b'*' ∷ cs) ds
        → IsMatch (b'*' ∷ cs) (d ∷ ds)

  skip-IsMatch :
      (cs v : List ℕ)
      → ((w : List ℕ) → glob_match fold cs w ≡ true → IsMatch cs w)
      → skip (glob_match fold cs) v ≡ true
      → IsMatch (b'*' ∷ cs) v
  skip-IsMatch cs [] f e = star_none cs [] (f [] e)
  skip-IsMatch cs (d ∷ ds) f e = elim (Bool-cases (glob_match fold cs (d ∷ ds))) [
    | inl now ↦ star_none cs (d ∷ ds) (f (d ∷ ds) now)
    | inr later ↦
        let rest : (not (ends_line d) && skip (glob_match fold cs) ds) ≡ true = rw later at e in
        star_more cs ds d (ground arith) (skip-IsMatch cs ds f (ground arith))
  ]

  one-IsMatch :
      (c : ℕ) (cs v : List ℕ)
      → c ≢ b'*'
      → ((w : List ℕ) → glob_match fold cs w ≡ true → IsMatch cs w)
      → one fold c (glob_match fold cs) v ≡ true
      → IsMatch (c ∷ cs) v
  one-IsMatch c cs [] ne f e = cc
  one-IsMatch c cs (d ∷ ds) ne f e = sign c d cs ds ne (ground arith) (f ds (ground arith))

  skip_now : (k : List ℕ → Bool) (v : List ℕ) → k v ≡ true → skip k v ≡ true
  skip_now k [] e = e
  skip_now k (d ∷ ds) e = rw e

  skip_later :
      (k : List ℕ → Bool) (d : ℕ) (ds : List ℕ)
      → ends_line d ≡ false
      → skip k ds ≡ true
      → skip k (d ∷ ds) ≡ true
  skip_later k d ds e h = elim (Bool-cases (k (d ∷ ds))) [
    | inl now ↦ rw now
    | inr later ↦ rw (later, e, h)
  ]

  glob_match-IsMatch : (cs v : List ℕ) → glob_match fold cs v ≡ true → IsMatch cs v
  unfolding glob_match
  glob_match-IsMatch [] [] e = done
  glob_match-IsMatch [] (d ∷ ds) e = cc
  glob_match-IsMatch (c ∷ cs) v e = elim (Bool-cases (c == b'*')) [
    | inl star ↦
        let same : b'*' ≡ c = ground arith in
        subst (λ x. IsMatch (x ∷ cs) v) same
          (skip-IsMatch cs v (glob_match-IsMatch cs) (rw star at e))
    | inr other ↦ one-IsMatch c cs v (ground arith) (glob_match-IsMatch cs) (rw other at e)
  ]

  IsMatch-glob_match : {cs v : List ℕ} → IsMatch cs v → glob_match fold cs v ≡ true
  unfolding glob_match
  IsMatch-glob_match done = refl
  IsMatch-glob_match (sign c d cs ds ne same m) =
      let other : (c == b'*') ≡ false = ground arith in
      let ih = IsMatch-glob_match m in rw (other, ih) (ground arith)
  IsMatch-glob_match (star_none cs ds m) = skip_now (glob_match fold cs) ds (IsMatch-glob_match m)
  IsMatch-glob_match (star_more cs ds d e m) =
      let ih : skip (glob_match fold cs) ds ≡ true = IsMatch-glob_match m in
      skip_later (glob_match fold cs) d ds e ih

pub glob_match_iff :
    (fold : ℕ → ℕ) (pattern text : List ℕ)
    → (glob_match fold pattern text ≡ true) ↔ IsMatch fold pattern text
glob_match_iff fold pattern text = (glob_match-IsMatch fold pattern text, IsMatch-glob_match fold)
