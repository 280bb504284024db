-- ===== src/Json/Pretty.antt =====
-- `JSON.stringify(value, null, 2)`: each element on a line of its own, two spaces deeper.
use agent_context_broker.Prelude.{ℕ, zero, suc, ◌+◌, List, [], ◌∷◌, ◌++◌}
use agent_context_broker.Prelude.Text.{units}
use agent_context_broker.Json.{Json, str, arr, obj, Items, nil, cons, Fields, end, field, stringify}

spaces : ℕ → List ℕ
spaces zero = []
spaces (suc n) = b' ' ∷ spaces n

line_break : ℕ → List ℕ
unfolding spaces
line_break depth = 10 ∷ spaces depth

unfoldable mutual
  unfolding line_break

  pub pretty : ℕ → Json → List ℕ
  pretty depth (arr nil) = units "[]"
  pretty depth (arr (cons x xs)) =
      b'[' ∷ (pretty_items (2 + depth) [] (cons x xs) ++ line_break depth ++ b']' ∷ [])
  pretty depth (obj end) = units "{}"
  pretty depth (obj (field k v fs)) =
      b'{' ∷ (pretty_fields (2 + depth) [] (field k v fs) ++ line_break depth ++ b'}' ∷ [])
  pretty depth v = stringify v

  pub pretty_items : ℕ → List ℕ → Items → List ℕ
  pretty_items depth sep nil = []
  pretty_items depth sep (cons x xs) =
      sep ++ (line_break depth ++ (pretty depth x ++ pretty_items depth (b',' ∷ []) xs))

  pub pretty_fields : ℕ → List ℕ → Fields → List ℕ
  pretty_fields depth sep end = []
  pretty_fields depth sep (field k v fs) =
      sep
      ++ (line_break depth
          ++ (stringify (str k)
              ++ (b':' ∷ b' ' ∷ (pretty depth v ++ pretty_fields depth (b',' ∷ []) fs))))
