-- ===== src/Slicing/Build.antt =====
-- The second loop of `buildSlices`: sizes, numbering, and what the segments hold.
use mathlib.Core.List.{append-nil, append_assoc}
use native.Mathlib.Nat.{zero-add}
use agent_context_broker.Prelude.{
  ℕ, zero, suc, ◌+◌, ◌-◌, ◌≤◌, ◌<◌, ◌≡◌, refl, sym, ap, ◌∙◌, String, Bool, List, [], ◌∷◌, ◌++◌,
  ◌==◌, if◌then◌else◌, length, length-append, take, drop, take-append-drop, length-take, drop-cases,
  arith, Bool-cases, inl, inr, ◌⊎◌,
}
use agent_context_broker.Platform.{Platform}
use agent_context_broker.Slicing.{
  Role, Segment, Slice, Progress, new_segment, new_slice, pushed, flush_segments, flush,
  add_segment, cut, max_slices,
}
use agent_context_broker.Slicing.Errors.{bind-ok, ok}

-- The number of code points in the segments.
abbrev pub total : List Segment → ℕ
total [] = 0
total (s ∷ ss) = length s.content + total ss

abbrev pub segments_of : List Slice → List Segment
segments_of [] = []
segments_of (s ∷ ss) = s.segments ++ segments_of ss

-- All the segments that the loop has made.
abbrev pub pieces : Progress → List Segment
pieces st = segments_of st.slices ++ st.segments

-- The segments cut `text`, from the offset `start`, into consecutive pieces.
abbrev pub Cuts : ℕ → Role → ℕ → List ℕ → List Segment → Type 0
Cuts block role start text [] = text ≡ []
Cuts block role start text (s ∷ ss) =
    (rest : List ℕ) × (text ≡ s.content ++ rest)
    × (s.block ≡ block)
    × (s.role ≡ role)
    × (s.start_char ≡ start)
    × (s.end_char ≡ start + length s.content)
    × Cuts block role s.end_char rest ss

total-append : (ss ts : List Segment) → total (ss ++ ts) ≡ total ss + total ts
total-append [] ts = omega arith
total-append (s ∷ ss) ts = omega (arith, total-append ss ts)

segments_of-append :
    (ss ts : List Slice) → segments_of (ss ++ ts) ≡ segments_of ss ++ segments_of ts
segments_of-append [] ts = refl
segments_of-append (s ∷ ss) ts = simp (segments_of-append ss ts, append_assoc)

module _ (p : Platform) (job receipt : String) (max_chars : ℕ) (documents : Bool) where
  -- Slices numbered from `n`, each with its own digest, of 1 to 64 segments and at most `max_chars`
  -- code points.
  abbrev pub IsNumbered : ℕ → List Slice → Type 0
  IsNumbered n [] = Unit
  IsNumbered n (s ∷ ss) =
      (s ≡ new_slice p job receipt max_chars documents n s.segments)
      × (0 < length s.segments)
      × (length s.segments ≤ 64)
      × (total s.segments ≤ max_chars)
      × IsNumbered (suc n) ss

  IsNumbered-snoc :
      (n : ℕ) (ss : List Slice) (segments : List Segment)
      → IsNumbered n ss
      → 0 < length segments
      → length segments ≤ 64
      → total segments ≤ max_chars
      → IsNumbered n
          (ss ++ new_slice p job receipt max_chars documents (n + length ss) segments ∷ [])
  IsNumbered-snoc n [] segments k a b c =
      (ap (λ i. new_slice p job receipt max_chars documents i segments) (omega arith), a, b, c, tt)
  IsNumbered-snoc n (s ∷ ss) segments k a b c =
      let shift : n + suc (length ss) ≡ suc n + length ss = omega arith in
      (k.0, k.1, k.2, k.3, rw shift (IsNumbered-snoc (suc n) ss segments k.4 a b c))

  -- The invariant of the loop.
  pub record InProgress (st : Progress) : Type 0 where
    pub used_is : st.used ≡ total st.segments
    pub within : st.used ≤ max_chars
    pub few : length st.segments ≤ 64
    pub numbered : IsNumbered 0 st.slices
    pub bounded : length st.slices ≤ max_slices

  -- A step that keeps all segments.
  pub record Keeps (st st1 : Progress) : Type 0 where
    pub progress : InProgress st1
    pub same : pieces st1 ≡ pieces st

  pushed-Keeps :
      (st : Progress)
      → InProgress st
      → 0 < length st.segments
      → length st.slices < max_slices
      → Keeps st (pushed p job receipt max_chars documents st)
  pushed-Keeps st k some_left room = record {
    progress = record {
      used_is = refl;
      within = omega arith;
      few = omega arith;
      numbered =
          rw (zero-add (length st.slices)) at
            (IsNumbered-snoc 0 st.slices st.segments k.numbered some_left k.few (omega arith));
      bounded = omega (
        arith,
        length-append st.slices
            (new_slice p job receipt max_chars documents (length st.slices) st.segments ∷ []),
      );
    };
    same = simp (segments_of-append, append-nil);
  }

  flush-cases :
      (segments : List Segment) (st st1 : Progress)
      → flush_segments p job receipt max_chars documents segments st ≡ ok st1
      → ((segments ≡ []) × (st1 ≡ st))
        ⊎ ((0 < length segments)
            × (length st.slices < max_slices)
            × (st1 ≡ pushed p job receipt max_chars documents st))
  unfolding flush_segments
  flush-cases [] st st1 e = inl (refl, ground arith)
  flush-cases (s ∷ ss) st st1 e = inr (omega arith, ground arith, ground arith)

  pub flush-Keeps :
      (st st1 : Progress)
      → InProgress st
      → flush p job receipt max_chars documents st ≡ ok st1
      → Keeps st st1 × (st1.segments ≡ [])
  unfolding flush
  flush-Keeps st st1 k e = elim (flush-cases st.segments st st1 e) [
    | inl (none_open, same) ↦ (rw same (record { progress = k; same = refl }), rw same none_open)
    | inr (some_left, room, same) ↦ (rw same (pushed-Keeps st k some_left room), rw same)
  ]

  -- A store of segments to which one more can be added.
  pub record IsReady (st : Progress) : Type 0 where
    pub progress : InProgress st
    pub spare : length st.segments < 64
    pub room : st.used < max_chars

  pub add_segment-InProgress :
      (block start : ℕ) (role : Role) (content : List ℕ) (st : Progress)
      → InProgress st
      → length st.segments < 64
      → st.used + length content ≤ max_chars
      → InProgress (add_segment block role start content st)
  add_segment-InProgress block start role content st k spare fits = record {
    used_is = omega (arith, total-append st.segments (new_segment block role start content ∷ []));
    within = fits;
    few = omega (arith, length-append st.segments (new_segment block role start content ∷ []));
    numbered = k.numbered;
    bounded = k.bounded;
  }

  pub pieces-add_segment :
      (block start : ℕ) (role : Role) (content : List ℕ) (st : Progress)
      → pieces (add_segment block role start content st)
        ≡ pieces st ++ new_segment block role start content ∷ []
  pieces-add_segment block start role content st =
      sym (
        append_assoc (segments_of st.slices) st.segments
          (new_segment block role start content ∷ []))

  -- At the top of the inner loop: a full slice is closed before the next piece.
  pub top_of_loop :
      (st st1 : Progress)
      → 0 < max_chars
      → InProgress st
      → (length st.segments < 64) ⊎ (st.used ≡ max_chars)
      → (if st.used == max_chars then flush p job receipt max_chars documents st else ok st)
        ≡ ok st1
      → IsReady st1 × (pieces st1 ≡ pieces st)
  top_of_loop st st1 pos k spare e = elim (Bool-cases (st.used == max_chars)) [
    | inl full ↦
        let (kept, none_open) = flush-Keeps st st1 k (rw full at e) in
        (
          record {
            progress = kept.progress;
            spare = rw none_open (omega arith);
            room = omega (arith, ap total none_open, kept.progress.used_is);
          },
          kept.same,
        )
    | inr free ↦
        let same : st ≡ st1 = ground arith in
        rw (← same) (record { progress = k; spare = ground arith; room = ground arith }, refl)
  ]

  -- What the inner loop has made of a text.
  pub record HasCut (block : ℕ) (role : Role) (start : ℕ) (text : List ℕ) (st st1 : Progress)
      : Type 0 where
    pub progress : InProgress st1
    pub more : List Segment
    pub added : pieces st1 ≡ pieces st ++ more
    pub cuts : Cuts block role start text more
    pub nonempty : (text ≡ []) ⊎ (0 < length more)

  HasCut-cons :
      (block start : ℕ) (role : Role) (piece rest text : List ℕ) (st mid st1 : Progress)
      → pieces mid ≡ pieces st
      → piece ++ rest ≡ text
      → HasCut block role (start + length piece) rest (add_segment block role start piece mid) st1
      → HasCut block role start text st st1
  HasCut-cons block start role piece rest text st mid st1 kept parts k = record {
    progress = k.progress;
    more = new_segment block role start piece ∷ k.more;
    added =
        k.added
        ∙ ap (λ front. front ++ k.more) (pieces-add_segment block start role piece mid)
        ∙ append_assoc (pieces mid) (new_segment block role start piece ∷ []) k.more
        ∙ ap (λ front. front ++ new_segment block role start piece ∷ k.more) kept;
    cuts = (rest, sym parts, refl, refl, refl, refl, k.cuts);
    nonempty = inr (omega arith);
  }

  -- A piece uses up the text or fills the slice.
  pub used_up :
      (block start : ℕ) (role : Role) (text : List ℕ) (st : Progress)
      → IsReady st
      → let next = add_segment block role start (take (max_chars - st.used) text) st in
        (drop (max_chars - st.used) text ≡ [])
        ⊎ (length next.segments < 64)
        ⊎ (next.used ≡ max_chars)
  used_up block start role text st k = elim (drop-cases (max_chars - st.used) text) [
    | inl done ↦ inl done
    | inr size ↦ inr (inr (omega (arith, size, k.room)))
  ]

  pub cut-HasCut :
      (fuel block start : ℕ) (role : Role) (text : List ℕ) (st st1 : Progress)
      → 0 < max_chars
      → InProgress st
      → (text ≡ []) ⊎ ((length st.segments < 64) ⊎ (st.used ≡ max_chars))
      → cut p job receipt max_chars documents fuel block role start text st ≡ ok st1
      → HasCut block role start text st st1
  unfolding cut
  cut-HasCut fuel block start role [] st st1 pos k spare e =
      let same : st ≡ st1 = ground arith in
      record {
        progress = rw (← same) k;
        more = [];
        added = rw (append-nil (pieces st)) (rw same);
        cuts = refl;
        nonempty = inl refl;
      }
  cut-HasCut zero block start role (c ∷ cs) st st1 pos k spare e = cc
  cut-HasCut (suc fuel) block start role (c ∷ cs) st st1 pos k spare e =
      let (mid, at_top, tail) =
        bind-ok (if st.used == max_chars then flush p job receipt max_chars documents st else ok st)
          _ st1 e in
      let (ready, kept) =
        top_of_loop st mid pos k (elim spare [ inr t ↦ t | inl ne ↦ cc ]) at_top in
      let piece = take (max_chars - mid.used) (c ∷ cs) in
      let rest = drop (max_chars - mid.used) (c ∷ cs) in
      let fits : mid.used + length piece ≤ max_chars =
        omega (arith, length-take (max_chars - mid.used) (c ∷ cs), ready.room) in
      HasCut-cons block start role piece rest (c ∷ cs) st mid st1 kept
        (take-append-drop (max_chars - mid.used) (c ∷ cs))
        (cut-HasCut fuel block (start + length piece) role rest
          (add_segment block role start piece mid) st1 pos
          (add_segment-InProgress block start role piece mid ready.progress ready.spare fits)
          (used_up block start role (c ∷ cs) mid ready) tail)
