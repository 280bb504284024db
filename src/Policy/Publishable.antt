-- ===== src/Policy/Publishable.antt =====
-- What `assertPublishable` of src/provider-policy.mjs lets a provider publish, said without its tests.
use agent_context_broker.Prelude.{
  ℕ, ◌≡◌, ◌↔◌, refl, true, false, List, [], ◌∷◌, Option, none, some, any, All, arith, Bool-cases,
  inl, inr, ◌⊎◌, Option-cases, subst,
}
use agent_context_broker.Emergency.Record.{Provider, Opened}
use agent_context_broker.Policy.{
  Scope, Sensitivity, shared, private, restricted, Grade, ranked, unranked, Evidence,
  canonical_artifact, observed_tool_result, agent_handoff, EvidenceClass, known, unknown,
  PublishRules, Entry, Policy, Item, rank, exceeds, too_sensitive, same_evidence, evidence_refused,
  wrong_evidence, allowed, policy_entry, entry_refusal, publish_refusal, refused_item, scope_rules,
  items_refused,
}
use agent_context_broker.Policy.Permission.{IsDenied, IsAdmitted, allowed_iff}

-- A sensitivity does not pass another: `shared` is the lowest, `restricted` the highest.
pub data IsWithin : Sensitivity → Sensitivity → Type 0 where
  shared_within : (m : Sensitivity) → IsWithin shared m
  private_within : IsWithin private private
  private_below : IsWithin private restricted
  restricted_within : IsWithin restricted restricted

-- A limit without a rank limits nothing, and an item without one passes every limit.
abbrev pub IsMild : Option Grade → Option Grade → Type 0
IsMild none s = Unit
IsMild (some unranked) s = Unit
IsMild (some (ranked m)) none = Unit
IsMild (some (ranked m)) (some unranked) = Unit
IsMild (some (ranked m)) (some (ranked s)) = IsWithin s m

pub data IsListed (e : Evidence) : List Evidence → Type 0 where
  listed_here : (es : List Evidence) → IsListed e (e ∷ es)
  listed_later : (d : Evidence) (es : List Evidence) → IsListed e es → IsListed e (d ∷ es)

-- Where classes are listed, an item has one of them or none at all.
abbrev pub IsAttested : Option (List Evidence) → Option EvidenceClass → Type 0
IsAttested none c = Unit
IsAttested (some es) none = Unit
IsAttested (some es) (some unknown) = ⊥
IsAttested (some es) (some (known e)) = IsListed e es

abbrev pub IsPassed : Option PublishRules → Item → Type 0
IsPassed none i = Unit
IsPassed (some r) i =
    IsMild r.max_sensitivity i.sensitivity × IsAttested r.evidence_classes i.evidence_class

-- The scope has a kind and a key, no denied pattern names it, and an allowed one does if there are any.
abbrev pub IsInScope : (ℕ → ℕ) → Option PublishRules → Option Scope → Type 0
IsInScope fold none s = Unit
IsInScope fold (some r) none = ⊥
IsInScope fold (some r) (some s) =
    (IsDenied fold s r.rules.deny → ⊥) × IsAdmitted fold s r.rules.allow

module _ (fold : ℕ → ℕ) (policy : Policy) (grant : Option Opened) (q : Provider) (s : Option Scope)
    (is : List Item) where
  -- The provider is bound by no entry, or by one that lets all of this pass.
  abbrev pub IsPublishable : Type 0
  IsPublishable =
      (policy_entry policy grant q ≡ none)
      ⊎ ((e : Entry) × (policy_entry policy grant q ≡ some e)
          × (e.strict_isolation ≡ false)
          × IsInScope fold e.publish s
          × All (IsPassed e.publish) is)

IsWithin-iff : (s m : Sensitivity) → (exceeds (rank m) (some (ranked s)) ≡ false) ↔ IsWithin s m
IsWithin-iff shared shared = (λ e. shared_within shared, λ w. refl)
IsWithin-iff shared private = (λ e. shared_within private, λ w. refl)
IsWithin-iff shared restricted = (λ e. shared_within restricted, λ w. refl)
IsWithin-iff private shared = (λ e. cc, λ w. elim w [ ])
IsWithin-iff private private = (λ e. private_within, λ w. refl)
IsWithin-iff private restricted = (λ e. private_below, λ w. refl)
IsWithin-iff restricted shared = (λ e. cc, λ w. elim w [ ])
IsWithin-iff restricted private = (λ e. cc, λ w. elim w [ ])
IsWithin-iff restricted restricted = (λ e. restricted_within, λ w. refl)

IsMild-iff : (m : Option Grade) (i : Item) → (too_sensitive m i ≡ false) ↔ IsMild m i.sensitivity
IsMild-iff none i = (λ e. tt, λ w. refl)
IsMild-iff (some unranked) i = (λ e. tt, λ w. refl)
IsMild-iff (some (ranked m)) i = mild_ranked m i.sensitivity
  where
    mild_ranked :
        (m : Sensitivity) (o : Option Grade)
        → (exceeds (rank m) o ≡ false) ↔ IsMild (some (ranked m)) o
    mild_ranked shared none = (λ e. tt, λ w. refl)
    mild_ranked private none = (λ e. tt, λ w. refl)
    mild_ranked restricted none = (λ e. tt, λ w. refl)
    mild_ranked m (some unranked) = (λ e. tt, λ w. refl)
    mild_ranked m (some (ranked s)) = IsWithin-iff s m

same_evidence_eq : (d e : Evidence) → same_evidence d e ≡ true → d ≡ e
same_evidence_eq canonical_artifact canonical_artifact h = refl
same_evidence_eq observed_tool_result observed_tool_result h = refl
same_evidence_eq agent_handoff agent_handoff h = refl
same_evidence_eq canonical_artifact observed_tool_result h = cc
same_evidence_eq canonical_artifact agent_handoff h = cc
same_evidence_eq observed_tool_result canonical_artifact h = cc
same_evidence_eq observed_tool_result agent_handoff h = cc
same_evidence_eq agent_handoff canonical_artifact h = cc
same_evidence_eq agent_handoff observed_tool_result h = cc

same_evidence_refl : (e : Evidence) → same_evidence e e ≡ true
same_evidence_refl canonical_artifact = refl
same_evidence_refl observed_tool_result = refl
same_evidence_refl agent_handoff = refl

any-IsListed : (e : Evidence) (es : List Evidence) → any (same_evidence e) es ≡ true → IsListed e es
any-IsListed e [] h = cc
any-IsListed e (d ∷ es) h = elim (Bool-cases (same_evidence e d)) [
  | inl here ↦ subst (λ x. IsListed e (x ∷ es)) (same_evidence_eq e d here) (listed_here es)
  | inr other ↦ listed_later d es (any-IsListed e es (rw other at h))
]

IsListed-any : (e : Evidence) (es : List Evidence) → IsListed e es → any (same_evidence e) es ≡ true
IsListed-any e _ (listed_here es) = rw (same_evidence_refl e) refl
IsListed-any e _ (listed_later d es l) = let ih = IsListed-any e es l in ground arith

IsAttested-iff :
    (o : Option (List Evidence)) (i : Item)
    → (wrong_evidence o i ≡ false) ↔ IsAttested o i.evidence_class
IsAttested-iff none i = (λ e. tt, λ w. refl)
IsAttested-iff (some es) i = attested_class i.evidence_class
  where
    attested_class :
        (c : Option EvidenceClass) → (evidence_refused es c ≡ false) ↔ IsAttested (some es) c
    attested_class none = (λ e. tt, λ w. refl)
    attested_class (some unknown) = (λ e. cc, λ w. elim w [ ])
    attested_class (some (known e)) = (
      λ h. any-IsListed e es (ground arith),
      λ l. let there = IsListed-any e es l in rw there refl,
    )

refused_item_iff :
    (r : PublishRules) (is : List Item) → (refused_item r is ≡ none) ↔ All (IsPassed (some r)) is
unfolding refused_item
refused_item_iff r [] = (λ e. tt, λ e. refl)
refused_item_iff r (i ∷ is) =
    let ih = refused_item_iff r is in
    let (mild, mild_back) = IsMild-iff r.max_sensitivity i in
    let (attested, attested_back) = IsAttested-iff r.evidence_classes i in
    (
      λ e. elim (Bool-cases (too_sensitive r.max_sensitivity i)) [
        | inl high ↦ cc (rw high at e)
        | inr low ↦ elim (Bool-cases (wrong_evidence r.evidence_classes i)) [
          | inl wrong ↦ cc (rw (low, wrong) at e)
          | inr right ↦ ((mild low, attested right), ih.0 (rw (low, right) at e))
        ]
      ],
      λ ((low, right), rest). rw (mild_back low, attested_back right) (ih.1 rest),
    )

items_refused_iff :
    (o : Option PublishRules) (is : List Item) → (items_refused o is ≡ none) ↔ All (IsPassed o) is
items_refused_iff none is = (λ e. all_pass is, λ e. refl)
  where
    all_pass : (js : List Item) → All (IsPassed none) js
    all_pass [] = tt
    all_pass (j ∷ js) = (tt, all_pass js)
items_refused_iff (some r) is = refused_item_iff r is

IsInScope-iff :
    (fold : ℕ → ℕ) (o : Option PublishRules) (s : Option Scope)
    → (allowed fold (scope_rules o) s ≡ true) ↔ IsInScope fold o s
unfolding allowed
IsInScope-iff fold none s = (λ e. tt, λ e. refl)
IsInScope-iff fold (some r) none = (λ e. cc, λ e. elim e [ ])
IsInScope-iff fold (some r) (some s) = allowed_iff fold r.rules s

entry_refusal-none :
    (fold : ℕ → ℕ) (e : Entry) (s : Option Scope) (is : List Item)
    → entry_refusal fold (some e) s is ≡ none
    → (e.strict_isolation ≡ false) × IsInScope fold e.publish s × All (IsPassed e.publish) is
entry_refusal-none fold e s is h = elim (Bool-cases e.strict_isolation) [
  | inl alone ↦ cc (rw alone at h)
  | inr open_entry ↦ elim (Bool-cases (allowed fold (scope_rules e.publish) s)) [
    | inl in_scope ↦ (
      open_entry,
      (IsInScope-iff fold e.publish s).0 in_scope,
      (items_refused_iff e.publish is).0 (rw (open_entry, in_scope) at h),
    )
    | inr out ↦ cc (rw (open_entry, out) at h)
  ]
]

-- `assertPublishable` throws nothing exactly if no entry binds the provider, or its entry does not
-- isolate it, no pattern that it denies names the scope and one that it allows does if it lists any, and
-- each item has a sensitivity within its limit and a class of evidence that it lists, if it has a limit and
-- a list. An item whose sensitivity is none of the three, or missing, passes every limit, and a limit that is
-- none of the three limits nothing.
pub publish_refusal_iff :
    (fold : ℕ → ℕ) (policy : Policy) (grant : Option Opened) (q : Provider) (s : Option Scope)
    (is : List Item)
    → (publish_refusal fold policy grant q s is ≡ none) ↔ IsPublishable fold policy grant q s is
unfolding publish_refusal
publish_refusal_iff fold policy grant q s is = (
  λ h. elim (Option-cases (policy_entry policy grant q)) [
    | inl free ↦ inl free
    | inr (e, bound) ↦
        let (open_entry, in_scope, fine) = entry_refusal-none fold e s is (rw bound at h) in
        inr (e, bound, open_entry, in_scope, fine)
  ],
  λ p. elim p [
    | inl free ↦ rw free
    | inr (e, bound, open_entry, in_scope, fine) ↦
        rw (bound, open_entry, (IsInScope-iff fold e.publish s).1 in_scope)
          ((items_refused_iff e.publish is).1 fine)
  ],
)
