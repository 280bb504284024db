-- ===== src/Json/Access.antt =====
-- The properties of an object, and the texts and the length of an array.
use agent_context_broker.Prelude.{
  ℕ, suc, String, Bool, true, false, ◌&&◌, Option, none, some, List, [], ◌∷◌, ◌==◌, if◌then◌else◌,
  any,
}
use agent_context_broker.Prelude.Text.{units}
use agent_context_broker.Json.{Json, Items, nil, cons, Fields, end, field}

abbrev pub same_text : List ℕ → List ℕ → Bool
same_text [] [] = true
same_text (a ∷ as') (b ∷ bs) = a == b && same_text as' bs
same_text _ _ = false

-- `object.key`; `none` for `undefined`.
unfoldable pub get_field : List ℕ → Fields → Option Json
get_field k end = none
get_field k (field j v fs) = let rest = get_field k fs in if same_text j k then some v else rest

-- `Object.keys(object)` are all among the names.
abbrev pub has_only : List String → Fields → Bool
has_only names end = true
has_only names (field k v fs) = any (λ n. same_text k (units n)) names && has_only names fs

abbrev pub items_length : Items → ℕ
items_length nil = 0
items_length (cons v xs) = suc (items_length xs)
