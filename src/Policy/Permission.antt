-- ===== src/Policy/Permission.antt =====
-- What the rules of a policy permit: a rule that denies wins, and isolation is lifted only by a grant that
-- runs.
use agent_context_broker.Prelude.{
  ℕ, ◌≡◌, ◌↔◌, ◌<◌, refl, true, List, [], ◌∷◌, Option, none, some, any, arith, Bool-cases, inl, inr,
  Option-cases,
}
use agent_context_broker.Platform.{Platform}
use agent_context_broker.Emergency.Record.{Opened}
use agent_context_broker.Emergency.Ledger.{Store, verify_store}
use agent_context_broker.Emergency.Grants.Track.{IsOpen}
use agent_context_broker.Emergency.Commands.{EvaluateOptions, evaluate_store}
use agent_context_broker.Emergency.Evaluate.{evaluate_store-grant}
use agent_context_broker.Policy.{
  Pattern, Scope, Rules, Entry, Policy, Item, kind_matches, pattern_matches, matches, allowed,
  policy_entry, own_entry, publish_refusal, allow_matches,
}
use agent_context_broker.Policy.Glob.{IsMatch, glob_match_iff}

module _ (fold : ℕ → ℕ) where
  -- Some pattern of the list stands for the scope.
  pub data IsNamed (s : Scope) : List Pattern → Type 0 where
    named_here :
        (p : Pattern) (ps : List Pattern)
        → kind_matches fold p.kind s.kind ≡ true
        → IsMatch fold p.glob s.key
        → IsNamed s (p ∷ ps)
    named_later : (p : Pattern) (ps : List Pattern) → IsNamed s ps → IsNamed s (p ∷ ps)

  matches-IsNamed :
      (s : Scope) (ps : List Pattern) → any (pattern_matches fold s) ps ≡ true → IsNamed s ps
  matches-IsNamed s [] e = cc
  matches-IsNamed s (p ∷ ps) e = elim (Bool-cases (pattern_matches fold s p)) [
    | inl here ↦
        named_here p ps (ground arith) ((glob_match_iff fold p.glob s.key).0 (ground arith))
    | inr later ↦ named_later p ps (matches-IsNamed s ps (rw later at e))
  ]

  IsNamed-matches :
      (s : Scope) (ps : List Pattern) → IsNamed s ps → any (pattern_matches fold s) ps ≡ true
  IsNamed-matches s _ (named_here p ps k m) =
      let g = (glob_match_iff fold p.glob s.key).1 m in rw (k, g)
  IsNamed-matches s _ (named_later p ps n) = let ih = IsNamed-matches s ps n in ground arith

  abbrev pub IsDenied : Scope → Option (List Pattern) → Type 0
  IsDenied s none = ⊥
  IsDenied s (some ps) = IsNamed s ps

  abbrev pub IsAdmitted : Scope → Option (List Pattern) → Type 0
  IsAdmitted s none = Unit
  IsAdmitted s (some ps) = IsNamed s ps

  IsDenied-iff : (s : Scope) (o : Option (List Pattern)) → (matches fold o s ≡ true) ↔ IsDenied s o
  IsDenied-iff s none = (λ e. cc, λ d. elim d [ ])
  IsDenied-iff s (some ps) = (matches-IsNamed s ps, IsNamed-matches s ps)

  IsAdmitted-iff :
      (s : Scope) (o : Option (List Pattern)) → (allow_matches fold o s ≡ true) ↔ IsAdmitted s o
  IsAdmitted-iff s none = (λ e. tt, λ d. refl)
  IsAdmitted-iff s (some ps) = (matches-IsNamed s ps, IsNamed-matches s ps)

-- Rules allow a scope exactly if no pattern that they deny stands for it and, if they list what they
-- allow, one of those patterns does: a rule that denies wins over one that allows.
pub allowed_iff :
    (fold : ℕ → ℕ) (r : Rules) (s : Scope)
    → (allowed fold (some r) (some s) ≡ true)
      ↔ ((IsDenied fold s r.deny → ⊥) × IsAdmitted fold s r.allow)
unfolding allowed
allowed_iff fold r s = (
  λ e. elim (Bool-cases (matches fold r.deny s)) [
    | inl denied ↦ cc (rw denied at e)
    | inr free ↦ (
      λ d. cc ((IsDenied-iff fold s r.deny).1 d, free),
      (IsAdmitted-iff fold s r.allow).0 (rw free at e),
    )
  ],
  λ (free, admitted). elim (Bool-cases (matches fold r.deny s)) [
    | inl denied ↦ elim (free ((IsDenied-iff fold s r.deny).0 denied)) [ ]
    | inr open_scope ↦ rw open_scope ((IsAdmitted-iff fold s r.allow).1 admitted)
  ],
)

-- If a provider that its entry isolates may publish under the grant that `evaluateEmergency` reports, then
-- the ledger is accepted, and a record of it opened a grant for the provider that nothing has closed and
-- that has not expired.
pub publish_refusal-isolated :
    (p : Platform) (o : EvaluateOptions) (st : Store) (fold : ℕ → ℕ) (policy : Policy) (e : Entry)
    (s : Option Scope) (is : List Item)
    → own_entry policy o.provider ≡ some e
    → e.strict_isolation ≡ true
    → publish_refusal fold policy (evaluate_store p o st).0.grant o.provider s is ≡ none
    → (g : Opened) × IsOpen o.provider g (verify_store p st).records
      × (o.now < g.expires_at.instant)
      × ((verify_store p st).valid ≡ true)
unfolding publish_refusal policy_entry
publish_refusal-isolated p o st fold policy e s is own alone h =
    elim (Option-cases (evaluate_store p o st).0.grant) [
      | inl no_grant ↦ cc (rw (no_grant, own, alone) at h)
      | inr (g, found) ↦
          let (running, later, valid) = evaluate_store-grant p o st g found in
          (g, running, later, valid)
    ]
