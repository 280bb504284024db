-- ===== src/Slicing/Cover.antt =====
-- The second loop of `buildSlices`, block by block: the segments hold the dialogue.
use mathlib.Core.List.{append-nil, append_assoc}
use agent_context_broker.Prelude.{
  ℕ, suc, ◌<◌, ◌≡◌, refl, ap, ◌∙◌, String, Bool, List, [], ◌∷◌, ◌++◌, leb, length, arith,
  Bool-cases, inl, inr,
}
use agent_context_broker.Platform.{Platform}
use agent_context_broker.Slicing.{
  Role, Segment, Progress, new_segment, add_segment, cut, open_block, close_block, slice_block,
  slice_blocks, nothing_yet,
}
use agent_context_broker.Slicing.Errors.{bind-ok, ok}
use agent_context_broker.Slicing.Redact.{Patterns, Kinds, redact_block, merge_kinds}
use agent_context_broker.Slicing.Build.{
  pieces, Cuts, InProgress, flush-Keeps, add_segment-InProgress, pieces-add_segment, cut-HasCut,
}

-- The segments hold the dialogue from the block numbered `block`: each block as the redaction left it,
-- as long as it was, cut into one or more consecutive pieces.
abbrev pub IsCover : Patterns → ℕ → List (Role × List ℕ) → List Segment → Type 0
IsCover m block [] segments = segments ≡ []
IsCover m block ((role, content) ∷ dialogue) segments =
    (redacted : List ℕ) × (kinds : Kinds) × (front : List Segment) × (back : List Segment)
    × (redact_block m content ≡ ok (redacted, kinds))
    × (length redacted ≡ length content)
    × (segments ≡ front ++ back)
    × (0 < length front)
    × Cuts block role 0 redacted front
    × IsCover m (suc block) dialogue back

redact_block-length :
    (m : Patterns) (content redacted : List ℕ) (kinds : Kinds)
    → redact_block m content ≡ ok (redacted, kinds)
    → length redacted ≡ length content
unfolding redact_block
redact_block-length m content redacted kinds e = ground arith

module _ (p : Platform) (job receipt : String) (max_chars : ℕ) (documents : Bool) where
  -- Between two blocks.
  pub record IsOpen (st : Progress) : Type 0 where
    pub progress : InProgress p job receipt max_chars documents st
    pub spare : length st.segments < 64

  pub IsOpen-nothing_yet : IsOpen nothing_yet
  IsOpen-nothing_yet = record {
    progress = record {
      used_is = refl;
      within = omega arith;
      few = omega arith;
      numbered = tt;
      bounded = omega arith;
    };
    spare = omega arith;
  }

  pub IsOpen-kinds :
      (st : Progress) (kinds : Kinds) → IsOpen st → IsOpen (record st { kinds = kinds })
  IsOpen-kinds st kinds k = record {
    progress = record {
      used_is = k.progress.used_is;
      within = k.progress.within;
      few = k.progress.few;
      numbered = k.progress.numbered;
      bounded = k.progress.bounded;
    };
    spare = k.spare;
  }

  pub close_block-IsOpen :
      (st st1 : Progress)
      → InProgress p job receipt max_chars documents st
      → close_block p job receipt max_chars documents st ≡ ok st1
      → IsOpen st1 × (pieces st1 ≡ pieces st)
  unfolding close_block
  close_block-IsOpen st st1 k e = elim (Bool-cases (leb 64 (length st.segments))) [
    | inl many ↦
        let (kept, none_open) =
          flush-Keeps p job receipt max_chars documents st st1 k (rw many at e) in
        (record { progress = kept.progress; spare = rw none_open (omega arith) }, kept.same)
    | inr few ↦
        let same : st ≡ st1 = ground arith in
        rw (← same) (record { progress = k; spare = ground arith }, refl)
  ]

  -- One block: what it adds to the segments.
  pub record HasBlock (m : Patterns) (block : ℕ) (role : Role) (content : List ℕ)
      (st st1 : Progress) : Type 0 where
    pub is_open : IsOpen st1
    pub redacted : List ℕ
    pub kinds : Kinds
    pub more : List Segment
    pub masked : redact_block m content ≡ ok (redacted, kinds)
    pub added : pieces st1 ≡ pieces st ++ more
    pub nonempty : 0 < length more
    pub cuts : Cuts block role 0 redacted more

  open_block-HasCut :
      (block : ℕ) (role : Role) (text : List ℕ) (st st1 : Progress)
      → 0 < max_chars
      → IsOpen st
      → cut p job receipt max_chars documents
          (length text)
          block
          role
          0
          text
          (open_block block role text st)
        ≡ ok st1
      → InProgress p job receipt max_chars documents st1
        × (more : List Segment) × (pieces st1 ≡ pieces st ++ more)
        × (0 < length more)
        × Cuts block role 0 text more
  unfolding cut
  open_block-HasCut block role [] st st1 pos k e =
      let next = add_segment block role 0 [] st in
      let same : next ≡ st1 = ground arith in
      rw (← same) (
        add_segment-InProgress p job receipt max_chars documents block 0 role [] st k.progress
            k.spare (omega (arith, k.progress.within)),
        new_segment block role 0 [] ∷ [],
        pieces-add_segment p job receipt max_chars documents block 0 role [] st,
        omega arith,
        ([], refl, refl, refl, refl, refl, refl),
      )
  open_block-HasCut block role (c ∷ cs) st st1 pos k e =
      let done =
        cut-HasCut p job receipt max_chars documents (length (c ∷ cs)) block 0 role (c ∷ cs) st st1
          pos k.progress (inr (inl k.spare)) e in
      (
        done.progress,
        done.more,
        done.added,
        elim done.nonempty [ inl ne ↦ cc | inr some_made ↦ some_made ],
        done.cuts,
      )

  pub slice_block-HasBlock :
      (m : Patterns) (block : ℕ) (role : Role) (content : List ℕ) (st st1 : Progress)
      → 0 < max_chars
      → IsOpen st
      → slice_block p job receipt max_chars documents m block (role, content) st ≡ ok st1
      → HasBlock m block role content st st1
  unfolding slice_block
  slice_block-HasBlock m block role content st st1 pos k e =
      let ((redacted, kinds), masked, e1) = bind-ok (redact_block m content) _ st1 e in
      let st0 = record st { kinds = merge_kinds kinds st.kinds } in
      let (mid, e2, e3) =
        bind-ok
          (cut p job receipt max_chars documents (length redacted) block role 0 redacted
            (open_block block role redacted st0))
          (close_block p job receipt max_chars documents) st1 e1 in
      let open0 = IsOpen-kinds st (merge_kinds kinds st.kinds) k in
      let (progress, more, added, nonempty, cuts) =
        open_block-HasCut block role redacted st0 mid pos open0 e2 in
      let (is_open, kept) = close_block-IsOpen mid st1 progress e3 in
      record {
        is_open = is_open;
        redacted = redacted;
        kinds = kinds;
        more = more;
        masked = masked;
        added = kept ∙ added;
        nonempty = nonempty;
        cuts = cuts;
      }

  pub slice_blocks-IsCover :
      (m : Patterns) (block : ℕ) (dialogue : List (Role × List ℕ)) (st st1 : Progress)
      → 0 < max_chars
      → IsOpen st
      → slice_blocks p job receipt max_chars documents m block dialogue st ≡ ok st1
      → IsOpen st1
        × (more : List Segment) × (pieces st1 ≡ pieces st ++ more)
        × IsCover m block dialogue more
  unfolding slice_blocks
  slice_blocks-IsCover m block [] st st1 pos k e =
      let same : st ≡ st1 = ground arith in
      (rw (← same) k, [], rw (append-nil (pieces st)) (rw same), refl)
  slice_blocks-IsCover m block ((role, content) ∷ dialogue) st st1 pos k e =
      let (mid, e1, e2) =
        bind-ok (slice_block p job receipt max_chars documents m block (role, content) st)
          (slice_blocks p job receipt max_chars documents m (suc block) dialogue) st1 e in
      let first = slice_block-HasBlock m block role content st mid pos k e1 in
      let (is_open, more, added, cover) =
        slice_blocks-IsCover m (suc block) dialogue mid st1 pos first.is_open e2 in
      (
        is_open,
        first.more ++ more,
        added ∙ ap (λ front. front ++ more) first.added ∙ append_assoc (pieces st) first.more more,
        (
          first.redacted,
          first.kinds,
          first.more,
          more,
          first.masked,
          redact_block-length m content first.redacted first.kinds first.masked,
          refl,
          first.nonempty,
          first.cuts,
          cover,
        ),
      )
