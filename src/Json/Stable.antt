-- ===== src/Json/Stable.antt =====
-- `stableValue` forgets the order in which the fields of an object were set.
use mathlib.Core.Path.{ap₂}
use agent_context_broker.Prelude.{ℕ, ◌≡◌, refl, ◌≢◌, ap, ◌∙◌, List, Bool-cases, inl, inr}
use agent_context_broker.Json.{
  Json, null, arr, obj, Items, nil, cons, Fields, end, field, key_lt, insert_field, stable_value,
  stable_items, stable_fields, stable_json,
}
use agent_context_broker.Json.Order.{key_lt_irrefl, insert_field_comm}

-- Equal up to the order of fields of different keys, at any depth.
mutual
  pub data SameJson : Json → Json → Type 0 where
    same : (v : Json) → SameJson v v
    same_arr : {xs ys : Items} → SameItems xs ys → SameJson (arr xs) (arr ys)
    same_obj : {fs gs : Fields} → SameFields fs gs → SameJson (obj fs) (obj gs)

  pub data SameItems : Items → Items → Type 0 where
    same_nil : SameItems nil nil
    same_cons :
        {x y : Json} {xs ys : Items}
        → SameJson x y
        → SameItems xs ys
        → SameItems (cons x xs) (cons y ys)

  pub data SameFields : Fields → Fields → Type 0 where
    same_end : SameFields end end
    same_field :
        {v w : Json} {fs gs : Fields} (k : List ℕ)
        → SameJson v w
        → SameFields fs gs
        → SameFields (field k v fs) (field k w gs)
    swapped :
        (k j : List ℕ) (v w : Json) (fs : Fields)
        → k ≢ j
        → SameFields (field k v (field j w fs)) (field j w (field k v fs))
    trans : {fs gs hs : Fields} → SameFields fs gs → SameFields gs hs → SameFields fs hs

mutual
  unfolding stable_value

  stable_value-same : {v w : Json} → SameJson v w → stable_value v ≡ stable_value w
  stable_value-same (same v) = refl
  stable_value-same (same_arr s) = ap arr (stable_items-same s)
  stable_value-same (same_obj s) = ap obj (stable_fields-same s)

  stable_items-same : {xs ys : Items} → SameItems xs ys → stable_items xs ≡ stable_items ys
  stable_items-same same_nil = refl
  stable_items-same (same_cons s t) = ap₂ cons (stable_value-same s) (stable_items-same t)

  stable_fields-same : {fs gs : Fields} → SameFields fs gs → stable_fields fs ≡ stable_fields gs
  stable_fields-same same_end = refl
  stable_fields-same (same_field k s t) =
      ap₂ (insert_field k) (stable_value-same s) (stable_fields-same t)
  stable_fields-same (swapped k j v w fs ne) =
      insert_field_comm k j (stable_value v) (stable_value w) (stable_fields fs) ne
  stable_fields-same (trans s t) = stable_fields-same s ∙ stable_fields-same t

-- Values that differ in the order of their fields alone, at any depth, have one `stableJson` text.
pub stable_json-same : (v w : Json) → SameJson v w → stable_json v ≡ stable_json w
unfolding stable_json
stable_json-same v w s = rw (stable_value-same s)

-- Inserting a field and sorting after that is sorting first.
stable_fields-insert_field :
    (k : List ℕ) (v : Json) (fs : Fields)
    → stable_fields (insert_field k v fs) ≡ insert_field k (stable_value v) (stable_fields fs)
unfolding stable_fields insert_field
stable_fields-insert_field k v end = refl
stable_fields-insert_field k v (field j w fs) = elim (Bool-cases (key_lt j k)) [
  | inl below ↦
      rw (below, stable_fields-insert_field k v fs)
        (insert_field_comm j k (stable_value w) (stable_value v) (stable_fields fs)
          (λ e. cc (key_lt_irrefl k, e, below)))
  | inr above ↦ rw above
]

mutual
  unfolding stable_value

  stable_value_again : (v : Json) → stable_value (stable_value v) ≡ stable_value v
  stable_value_again null = refl
  stable_value_again (arr xs) = ap arr (stable_items_again xs)
  stable_value_again (obj fs) = ap obj (stable_fields_again fs)
  stable_value_again _ = refl

  stable_items_again : (xs : Items) → stable_items (stable_items xs) ≡ stable_items xs
  stable_items_again nil = refl
  stable_items_again (cons x xs) = ap₂ cons (stable_value_again x) (stable_items_again xs)

  pub stable_fields_again : (fs : Fields) → stable_fields (stable_fields fs) ≡ stable_fields fs
  stable_fields_again end = refl
  stable_fields_again (field k v fs) =
      stable_fields-insert_field k (stable_value v) (stable_fields fs)
      ∙ ap₂ (insert_field k) (stable_value_again v) (stable_fields_again fs)
