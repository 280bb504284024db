-- ===== src/Slicing/Errors.antt =====
-- `requireValue` of distillation/src/slicing.mts: a condition that is not met throws a code.
use agent_context_broker.Prelude.{◌≡◌, refl, Bool, true, false}

pub data SliceError : Type 0 where
  slice_size empty_dialogue block_limit input_identity dialogue_shape text_limit slice_limit
        residual offset_drift slice_shape source_mismatch out_of_fuel :
      SliceError

pub data Result {ℓ} (A : Type ℓ) : Type ℓ where
  ok : A → Result A
  err : SliceError → Result A

infixl 5 ◌>>=◌ ◌>>◌
abbrev pub ◌>>=◌ {ℓ κ} : {A : Type ℓ} {B : Type κ} → Result A → (A → Result B) → Result B
ok a >>= f = f a
err e >>= f = err e

pub bind-ok {ℓ κ} :
    {A : Type ℓ} {B : Type κ} (m : Result A) (f : A → Result B) (b : B)
    → m >>= f ≡ ok b
    → (a : A) × (m ≡ ok a) × (f a ≡ ok b)
bind-ok (ok a) f b e = (a, refl, e)
bind-ok (err x) f b e = cc

abbrev pub ◌>>◌ {ℓ} : {B : Type ℓ} → Result (Unit {0}) → Result B → Result B
m >> k = m >>= λ _. k

-- `requireValue`
abbrev pub require : Bool → SliceError → Result (Unit {0})
require true e = ok tt
require false e = err e

pub require-ok {ℓ} :
    {B : Type ℓ} (test : Bool) (e : SliceError) (k : Result B) (b : B)
    → require test e >> k ≡ ok b
    → (test ≡ true) × (k ≡ ok b)
require-ok true e k b same = (refl, same)
require-ok false e k b same = cc
