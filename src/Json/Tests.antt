-- ===== src/Json/Tests.antt =====
-- Runs of `stableJson`, and the theorems of the module above at concrete values.
use agent_context_broker.Prelude.{◌≡◌, refl, arith}
use agent_context_broker.Prelude.Text.{units}
use agent_context_broker.Json.{
  Json, null, num, arr, obj, nil, cons, end, text, entry, stable_json, insert_field, stable_value,
  insert_field, key_lt, is_index, number_lt,
}
use agent_context_broker.Json.Stable.{same_obj, swapped, stable_json-same}

abbrev sample : Json
sample = obj (entry "b" (num 120) (entry "a" (arr (cons null (cons (text "x\"\n") nil))) end))

stable_json-sample : stable_json sample ≡ units "{\"a\":[null,\"x\\\"\\n\"],\"b\":120}"
unfolding stable_json insert_field key_lt is_index number_lt
stable_json-sample = refl

abbrev swapped_sample : Json
swapped_sample =
    obj (entry "a" (arr (cons null (cons (text "x\"\n") nil))) (entry "b" (num 120) end))

stable_json-same_example : stable_json sample ≡ stable_json swapped_sample
stable_json-same_example = stable_json-same sample swapped_sample (
    same_obj (
      swapped (units "b") (units "a") (num 120) (arr (cons null (cons (text "x\"\n") nil))) end
        (ground arith)))

-- Array indices come first, as numbers.
indices_first :
    stable_value (obj (entry "10" null (entry "a" null (entry "9" null (entry "01" null end)))))
    ≡ obj (entry "9" null (entry "10" null (entry "01" null (entry "a" null end))))
unfolding stable_value insert_field key_lt is_index number_lt
indices_first = refl
