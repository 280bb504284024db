-- ===== src/Output/Validation.antt =====
-- `validateOutput` admits a report only on what the slice holds, and `withRunnerCoverage` makes one that it
-- admits.
use agent_context_broker.Prelude.{
  subst, ℕ, ◌≤◌, ◌<◌, ◌≡◌, refl, sym, ap₂, Bool, true, false, List, [], ◌∷◌, map, leb, length,
  length-map, all, any, All, str_eq, eq_iff, arith, Bool-cases, inl, inr,
}
use agent_context_broker.Slicing.{Segment, Slice}
use agent_context_broker.Output.{
  Span, Observation, ModelOutput, Output, ok, span_schema, span_of, segment_schema, slice_schema,
  model_schema, output_schema, same_span, same_side, covers, is_nonempty, is_inside, ref_valid,
  observation_valid, check_observations, validate_output, completed, with_runner_coverage,
}

-- A reference to a part of a segment of the slice.
pub data IsWithin (ref : Span) : List Segment → Type 0 where
  within_here :
      (s : Segment) (ss : List Segment)
      → ref.block ≡ s.block
      → s.start_char ≤ ref.start_char
      → ref.end_char ≤ s.end_char
      → IsWithin ref (s ∷ ss)
  within_later : (s : Segment) (ss : List Segment) → IsWithin ref ss → IsWithin ref (s ∷ ss)

abbrev pub IsGrounded : List Segment → Span → Type 0
IsGrounded segments ref = (ref.start_char < ref.end_char) × IsWithin ref segments

any-IsWithin : (ref : Span) (ss : List Segment) → any (is_inside ref) ss ≡ true → IsWithin ref ss
any-IsWithin ref [] e = cc
any-IsWithin ref (s ∷ ss) e = elim (Bool-cases (is_inside ref s)) [
  | inl here ↦ within_here s ss (ground arith) (ground arith) (ground arith)
  | inr later ↦ within_later s ss (any-IsWithin ref ss (rw later at e))
]

refs-IsGrounded :
    (segments : List Segment) (refs : List Span)
    → all (ref_valid segments) refs ≡ true
    → All (IsGrounded segments) refs
refs-IsGrounded segments [] e = tt
refs-IsGrounded segments (ref ∷ refs) e =
    let here : any (is_inside ref) segments ≡ true = ground arith in
    ((ground arith, any-IsWithin ref segments here), refs-IsGrounded segments refs (ground arith))

covers-eq : (cs : List Span) (ss : List Segment) → covers cs ss ≡ true → cs ≡ map span_of ss
covers-eq [] [] e = refl
covers-eq [] (s ∷ ss) e = cc
covers-eq (c ∷ cs) [] e = cc
covers-eq (c ∷ cs) (s ∷ ss) e =
    let same : c ≡ span_of s = same_span-eq c (span_of s) (ground arith) in
    ap₂ (λ x xs. x ∷ xs) same (covers-eq cs ss (ground arith))
  where
    same_span-eq : (a b : Span) → same_span a b ≡ true → a ≡ b
    same_span-eq a b h = ground arith

covers-map : (ss : List Segment) → covers (map span_of ss) ss ≡ true
covers-map [] = refl
covers-map (s ∷ ss) = ground (arith, covers-map ss)

module _ (sensitive : List ℕ → Bool) where
  abbrev pub IsFit : List Segment → Observation → Type 0
  IsFit segments o = (sensitive o.summary ≡ false) × All (IsGrounded segments) o.source_refs

  check_observations-ok :
      (segments : List Segment) (out r : Output) (os : List Observation)
      → check_observations sensitive segments out os ≡ ok r
      → (r ≡ out) × All (IsFit segments) os
  unfolding check_observations
  check_observations-ok segments out r [] e = (ground arith, tt)
  check_observations-ok segments out r (o ∷ os) e = elim (Bool-cases (sensitive o.summary)) [
    | inl secret ↦ cc (rw secret at e)
    | inr clean ↦ elim (Bool-cases (all (ref_valid segments) o.source_refs)) [
      | inr outside ↦ cc (rw (clean, outside) at e)
      | inl inside ↦
          let (same, rest) = check_observations-ok segments out r os (rw (clean, inside) at e) in
          (same, ((clean, refs-IsGrounded segments o.source_refs inside), rest))
    ]
  ]

  check_observations-valid :
      (segments : List Segment) (out : Output) (os : List Observation)
      → all (observation_valid sensitive segments) os ≡ true
      → check_observations sensitive segments out os ≡ ok out
  unfolding check_observations
  check_observations-valid segments out [] e = refl
  check_observations-valid segments out (o ∷ os) e =
      let clean : sensitive o.summary ≡ false = ground arith in
      let inside : all (ref_valid segments) o.source_refs ≡ true = ground arith in
      rw (clean, inside) (check_observations-valid segments out os (ground arith))

segments-spans :
    (documents : Bool) (ss : List Segment)
    → all (segment_schema documents) ss ≡ true
    → all span_schema (map span_of ss) ≡ true
unfolding segment_schema
segments-spans documents [] e = refl
segments-spans documents (s ∷ ss) e =
    let here : span_schema (span_of s) ≡ true = ground arith in
    rw here (segments-spans documents ss (ground arith))

same_side-eq : (a b : Bool) → same_side a b ≡ true → a ≡ b
same_side-eq true b e = sym e
same_side-eq false true e = cc
same_side-eq false false e = refl

same_side_refl : (b : Bool) → same_side b b ≡ true
same_side_refl true = refl
same_side_refl false = refl

completed_schema :
    (m : ModelOutput) (slice : Slice)
    → slice_schema slice ≡ true
    → model_schema m.slice_id m.observations ≡ true
    → output_schema (completed m slice) ≡ true
unfolding slice_schema output_schema
completed_schema m slice shaped said =
    let parts : all (segment_schema slice.documents) slice.segments ≡ true = ground arith in
    let spans = segments-spans slice.documents slice.segments parts in
    let few : leb (length slice.segments) 32768 ≡ true = ground arith in
    rw (said, spans, length-map span_of slice.segments, few)

-- What an admitted report satisfies.
pub record IsAdmitted (sensitive : List ℕ → Bool) (out : Output) (slice : Slice) (r : Output)
    : Type 0 where
  pub result_is : r ≡ out
  pub identity : out.slice_id ≡ slice.slice_id
  pub coverage_is : out.coverage ≡ map span_of slice.segments
  pub disposition_is : out.has_findings ≡ is_nonempty out.observations
  pub fit : All (IsFit sensitive slice.segments) out.observations

-- A report that `validateOutput` admits is on the slice with its id, covers its segments and nothing else,
-- calls itself `findings` exactly if it has observations, and each of its observations matches no pattern
-- of a secret and refers only to parts, not empty, of segments of the slice.
pub validate_output-IsAdmitted :
    (sensitive : List ℕ → Bool) (out : Output) (slice : Slice) (r : Output)
    → validate_output sensitive out slice ≡ ok r
    → IsAdmitted sensitive out slice r
unfolding validate_output
validate_output-IsAdmitted sensitive out slice r e = elim (Bool-cases (slice_schema slice)) [
  | inr a ↦ cc (rw a at e)
  | inl a ↦ elim (Bool-cases (output_schema out)) [
    | inr b ↦ cc (rw (a, b) at e)
    | inl b ↦ elim (Bool-cases (str_eq out.slice_id slice.slice_id)) [
      | inr c ↦ cc (rw (a, b, c) at e)
      | inl c ↦ elim (Bool-cases (covers out.coverage slice.segments)) [
        | inr d ↦ cc (rw (a, b, c, d) at e)
        | inl d ↦ elim (Bool-cases (same_side out.has_findings (is_nonempty out.observations))) [
          | inr f ↦ cc (rw (a, b, c, d, f) at e)
          | inl f ↦
              let (same, fit) =
                check_observations-ok sensitive slice.segments out r out.observations
                  (rw (a, b, c, d, f) at e) in
              record {
                result_is = same;
                identity = (eq_iff out.slice_id slice.slice_id).0 c;
                coverage_is = covers-eq out.coverage slice.segments d;
                disposition_is = same_side-eq out.has_findings (is_nonempty out.observations) f;
                fit = fit;
              }
        ]
      ]
    ]
  ]
]

-- What `withRunnerCoverage` makes of a model's output on the slice of its id is admitted by
-- `validateOutput`, if each observation matches no pattern of a secret and refers to parts of the slice:
-- it never fails by its shape, its coverage or its disposition.
pub with_runner_coverage-validate_output :
    (sensitive : List ℕ → Bool) (m : ModelOutput) (slice : Slice) (out : Output)
    → with_runner_coverage m slice ≡ ok out
    → m.slice_id ≡ slice.slice_id
    → all (observation_valid sensitive slice.segments) m.observations ≡ true
    → validate_output sensitive out slice ≡ ok out
unfolding validate_output with_runner_coverage
with_runner_coverage-validate_output sensitive m slice out e identity fine =
    elim (Bool-cases (slice_schema slice)) [
      | inr a ↦ cc (rw a at e)
      | inl a ↦ elim (Bool-cases (model_schema m.slice_id m.observations)) [
        | inr b ↦ cc (rw (a, b) at e)
        | inl b ↦
            let made : ok (completed m slice) ≡ ok out = rw (a, b) at e in
            let same : completed m slice ≡ out = cc in
            subst (λ x. validate_output sensitive x slice ≡ ok x) same
              (rw
                (
                  a,
                  completed_schema m slice a b,
                  (eq_iff m.slice_id slice.slice_id).1 identity,
                  covers-map slice.segments,
                  same_side_refl (is_nonempty m.observations),
                )
                (check_observations-valid sensitive slice.segments (completed m slice)
                  m.observations fine))
      ]
    ]
