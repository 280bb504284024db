-- ===== src/Json/Order.antt =====
-- The order of keys, array indices first, and insertion into a list of fields.
use agent_context_broker.Prelude.{ℕ, ◌≡◌, refl, ◌≢◌, Bool, true, false, List, [], ◌∷◌, arith}
use agent_context_broker.Json.{
  Json, Fields, end, field, text_lt, number_lt, is_index, index_first, key_lt, insert_field,
}

text_lt_irrefl : (a : List ℕ) → text_lt a a ≡ false
text_lt_irrefl [] = refl
text_lt_irrefl (x ∷ a) = ground (arith, text_lt_irrefl a)

text_lt_asym : (a b : List ℕ) → text_lt a b ≡ true → text_lt b a ≡ false
text_lt_asym a [] h = cc
text_lt_asym [] (y ∷ b) h = refl
text_lt_asym (x ∷ a) (y ∷ b) h = ground (arith, text_lt_asym a b)

-- What is not above `a` lies below all that `a` lies below.
text_lt_weak : (a b c : List ℕ) → text_lt a b ≡ false → text_lt a c ≡ true → text_lt b c ≡ true
text_lt_weak a b [] h k = cc
text_lt_weak a [] (z ∷ c) h k = refl
text_lt_weak [] (y ∷ b) (z ∷ c) h k = cc
text_lt_weak (x ∷ a) (y ∷ b) (z ∷ c) h k = ground (arith, text_lt_weak a b c)

text_lt_total : (a b : List ℕ) → text_lt a b ≡ false → text_lt b a ≡ false → a ≡ b
text_lt_total [] [] h k = refl
text_lt_total [] (y ∷ b) h k = cc
text_lt_total (x ∷ a) [] h k = cc
text_lt_total (x ∷ a) (y ∷ b) h k = ground (arith, text_lt_total a b)

number_lt_irrefl : (a : List ℕ) → number_lt a a ≡ false
unfolding number_lt
number_lt_irrefl a = ground (arith, text_lt_irrefl a)

number_lt_asym : (a b : List ℕ) → number_lt a b ≡ true → number_lt b a ≡ false
unfolding number_lt
number_lt_asym a b h = ground (arith, text_lt_asym a b)

number_lt_weak :
    (a b c : List ℕ) → number_lt a b ≡ false → number_lt a c ≡ true → number_lt b c ≡ true
unfolding number_lt
number_lt_weak a b c h k = ground (arith, text_lt_weak a b c)

number_lt_total : (a b : List ℕ) → number_lt a b ≡ false → number_lt b a ≡ false → a ≡ b
unfolding number_lt
number_lt_total a b h k = ground (arith, text_lt_total a b)

pub key_lt_irrefl : (a : List ℕ) → key_lt a a ≡ false
unfolding key_lt
key_lt_irrefl a = ground (arith, text_lt_irrefl a, number_lt_irrefl a)

pub key_lt_asym : (a b : List ℕ) → key_lt a b ≡ true → key_lt b a ≡ false
unfolding key_lt
key_lt_asym a b h = ground (arith, text_lt_asym a b, number_lt_asym a b)

index_first_weak :
    (x y z : Bool) {n m k t u v : Bool}
    → (n ≡ false → m ≡ true → k ≡ true)
    → (t ≡ false → u ≡ true → v ≡ true)
    → index_first x y n t ≡ false
    → index_first x z m u ≡ true
    → index_first y z k v ≡ true
index_first_weak true true true f g h e = f h e
index_first_weak true true false f g h e = refl
index_first_weak true false z f g h e = cc
index_first_weak false true true f g h e = cc
index_first_weak false true false f g h e = refl
index_first_weak false false true f g h e = cc
index_first_weak false false false f g h e = g h e

-- What is not above `a` lies below all that `a` lies below.
pub key_lt_weak : (a b c : List ℕ) → key_lt a b ≡ false → key_lt a c ≡ true → key_lt b c ≡ true
unfolding key_lt
key_lt_weak a b c h k =
    index_first_weak (is_index a) (is_index b) (is_index c) (number_lt_weak a b c)
      (text_lt_weak a b c) h k

pub key_lt_total : (a b : List ℕ) → key_lt a b ≡ false → key_lt b a ≡ false → a ≡ b
unfolding key_lt
key_lt_total a b h k = ground (arith, text_lt_total a b, number_lt_total a b)

pub insert_field_comm :
    (k j : List ℕ) (v w : Json) (fs : Fields)
    → k ≢ j
    → insert_field k v (insert_field j w fs) ≡ insert_field j w (insert_field k v fs)
unfolding insert_field
insert_field_comm k j v w end ne =
    ground (arith, key_lt_asym k j, key_lt_asym j k, key_lt_total k j)
insert_field_comm k j v w (field i u fs) ne = ground (
  arith,
  key_lt_asym k j,
  key_lt_asym j k,
  key_lt_total k j,
  key_lt_weak i k j,
  key_lt_weak i j k,
  insert_field_comm k j v w fs ne,
)
