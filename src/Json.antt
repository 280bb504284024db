-- ===== src/Json.antt =====
-- JSON values, and `stableValue` and `stableJson` of src/event-store.mjs. A text is the list of its
-- UTF-16 code units. A number is a natural number, or a `decimal` by the text that JavaScript gives it.
pub mod Access
mod Order
pub mod Pretty
pub mod Stable
pub mod Tests
use agent_context_broker.Prelude.{
  ℕ, zero, suc, ◌+◌, ◌-◌, ◌*◌, ◌/◌, ◌%◌, String, Bool, true, false, not, ◌&&◌, ◌||◌, List, [], ◌∷◌,
  ◌++◌, ltb, leb, length, all, ◌==◌, if◌then◌else◌,
}
use agent_context_broker.Prelude.Text.{units, is_digit}

mutual
  pub data Json : Type 0 where
    null : Json
    bool : Bool → Json
    num : ℕ → Json
    decimal : List ℕ → Json
    str : List ℕ → Json
    arr : Items → Json
    obj : Fields → Json

  pub data Items : Type 0 where
    nil : Items
    cons : Json → Items → Items

  pub data Fields : Type 0 where
    end : Fields
    field : List ℕ → Json → Fields → Fields

-- `a < b` on strings, as `Array.prototype.sort` compares them.
abbrev pub text_lt : List ℕ → List ℕ → Bool
text_lt _ [] = false
text_lt [] (_ ∷ _) = true
text_lt (a ∷ as') (b ∷ bs) = ltb a b || a == b && text_lt as' bs

-- The number that a text of digits writes.
abbrev value_from : ℕ → List ℕ → ℕ
value_from n [] = n
value_from n (c ∷ cs) = value_from (10 * n + (c - b'0')) cs

abbrev is_decimal : List ℕ → Bool
is_decimal [] = false
is_decimal (c ∷ []) = is_digit c
is_decimal (c ∷ cs) = is_digit c && not (c == b'0') && all is_digit cs

-- A key that is an array index: a number below 2^32 - 1 without a leading zero.
unfoldable pub is_index : List ℕ → Bool
is_index k = is_decimal k && leb (length k) 10 && ltb (value_from 0 k) 0xffffffff

-- Numbers without leading zeros are in the order of their lengths, and then of their digits.
unfoldable pub number_lt : List ℕ → List ℕ → Bool
number_lt a b = ltb (length a) (length b) || length a == length b && text_lt a b

abbrev pub index_first : (index_a index_b numbers texts : Bool) → Bool
index_first true true numbers texts = numbers
index_first true false numbers texts = true
index_first false true numbers texts = false
index_first false false numbers texts = texts

-- The order in which JavaScript enumerates keys that are inserted sorted: the array indices as
-- numbers, then the others as strings.
unfoldable pub key_lt : List ℕ → List ℕ → Bool
key_lt a b = index_first (is_index a) (is_index b) (number_lt a b) (text_lt a b)

-- One step of sorting the entries by their keys.
unfoldable pub insert_field : List ℕ → Json → Fields → Fields
insert_field k v end = field k v end
insert_field k v (field j w fs) =
    if key_lt j k then field j w (insert_field k v fs) else field k v (field j w fs)

unfoldable mutual
  pub stable_value : Json → Json
  stable_value (arr xs) = arr (stable_items xs)
  stable_value (obj fs) = obj (stable_fields fs)
  stable_value v = v

  pub stable_items : Items → Items
  stable_items nil = nil
  stable_items (cons x xs) = cons (stable_value x) (stable_items xs)

  pub stable_fields : Fields → Fields
  stable_fields end = end
  stable_fields (field k v fs) = insert_field k (stable_value v) (stable_fields fs)

-- The decimal digits of a number; as many rounds as the number suffice.
digits_from : ℕ → ℕ → List ℕ → List ℕ
digits_from zero n acc = acc
digits_from (suc fuel) n acc =
    let rest = digits_from fuel (n / 10) ((b'0' + n % 10) ∷ acc) in
    if ltb n 10 then (b'0' + n) ∷ acc else rest

show_number : ℕ → List ℕ
unfolding digits_from
show_number n = digits_from (suc n) n []

unfoldable pub hex_digit : ℕ → ℕ
hex_digit d = if ltb d 10 then b'0' + d else 87 + d

unfoldable pub unicode_escape : ℕ → List ℕ
unfolding hex_digit
unicode_escape c =
    b'\\'
    ∷ b'u'
    ∷ hex_digit (c / 4096)
    ∷ hex_digit (c / 256 % 16)
    ∷ hex_digit (c / 16 % 16)
    ∷ hex_digit (c % 16)
    ∷ []

short_escape : ℕ → List ℕ
short_escape c = b'\\' ∷ c ∷ []

escape_unit : ℕ → List ℕ
unfolding unicode_escape short_escape
escape_unit c =
    if c == b'"' || c == b'\\'
    then short_escape c
    else if c == 8
    then short_escape b'b'
    else if c == 9
    then short_escape b't'
    else if c == 10
    then short_escape b'n'
    else if c == 12
    then short_escape b'f'
    else if c == 13
    then short_escape b'r'
    else if ltb c 32
    then unicode_escape c
    else c ∷ []

unfoldable pub is_high : ℕ → Bool
is_high c = leb 0xd800 c && leb c 0xdbff

unfoldable pub is_low : ℕ → Bool
is_low c = leb 0xdc00 c && leb c 0xdfff

-- A surrogate that stands alone is escaped.
escape : List ℕ → List ℕ
unfolding escape_unit is_high is_low
escape [] = []
escape (c ∷ []) = if is_high c || is_low c then unicode_escape c else escape_unit c
escape (c ∷ d ∷ cs) =
    let pair = c ∷ d ∷ escape cs in
    let rest = escape (d ∷ cs) in
    if is_high c && is_low d
    then pair
    else if is_high c || is_low c
    then unicode_escape c ++ rest
    else escape_unit c ++ rest

quote : List ℕ → List ℕ
unfolding escape
quote s = b'"' ∷ (escape s ++ b'"' ∷ [])

-- `JSON.stringify` with no spaces. The separator goes before each element but the first.
unfoldable mutual
  unfolding show_number quote

  pub stringify : Json → List ℕ
  stringify null = units "null"
  stringify (bool true) = units "true"
  stringify (bool false) = units "false"
  stringify (num n) = show_number n
  stringify (decimal t) = t
  stringify (str s) = quote s
  stringify (arr xs) = b'[' ∷ (stringify_items [] xs ++ b']' ∷ [])
  stringify (obj fs) = b'{' ∷ (stringify_fields [] fs ++ b'}' ∷ [])

  pub stringify_items : List ℕ → Items → List ℕ
  stringify_items sep nil = []
  stringify_items sep (cons x xs) = sep ++ (stringify x ++ stringify_items (b',' ∷ []) xs)

  pub stringify_fields : List ℕ → Fields → List ℕ
  stringify_fields sep end = []
  stringify_fields sep (field k v fs) =
      sep ++ (quote k ++ (b':' ∷ (stringify v ++ stringify_fields (b',' ∷ []) fs)))

unfoldable pub stable_json : Json → List ℕ
unfolding stable_value stringify
stable_json v = stringify (stable_value v)

-- Shorthand for objects with literal keys.
abbrev pub entry : String → Json → Fields → Fields
entry k v fs = field (units k) v fs

abbrev pub text : String → Json
text s = str (units s)

abbrev pub texts : List String → Items
texts [] = nil
texts (s ∷ ss) = cons (text s) (texts ss)
