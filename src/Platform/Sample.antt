-- ===== src/Platform/Sample.antt =====
-- A concrete platform for the tests: a checksum in place of SHA-256, and one instant's text.
use agent_context_broker.Prelude.{
  ℕ, zero, suc, ◌+◌, ◌*◌, ◌/◌, ◌%◌, ◌==◌, String, List, [], ◌∷◌, if◌then◌else◌,
}
use agent_context_broker.Prelude.{
  ◌≡◌, ◌≢◌, refl, ap, arith, eq_iff, true, false, str_eq, length, all, Bool-cases, inl, inr,
}
use Prim.Native.Char.{code}
use agent_context_broker.Prelude.Text.{units, is_hash, is_lower_hex}
use agent_context_broker.Platform.{Platform}

abbrev checksum : ℕ → List ℕ → ℕ
checksum acc [] = acc
checksum acc (c ∷ cs) = checksum ((acc * 31 + c) % 65521) cs

abbrev bits : ℕ → ℕ → String
bits zero n = ""
bits (suc k) n =
    let rest = bits k (n / 2) in if n % 2 == 0 then String.◌∷◌ "0" rest else String.◌∷◌ "1" rest

abbrev pub sample_platform : Platform
sample_platform = record {
  sha256 = λ t. bits 64 (checksum 7 t);
  to_iso = λ n. "2026-01-01T00:00:00.000Z";
}

bits-hex :
    (k n : ℕ) → (length (units (bits k n)) ≡ k) × (all is_lower_hex (units (bits k n)) ≡ true)
bits-hex zero n = (refl, refl)
bits-hex (suc k) n =
    let (size, hex) = bits-hex k (n / 2) in
    elim (Bool-cases (n % 2 == 0)) [
      | inl even ↦ rw even (ap suc size, hex)
      | inr odd ↦ rw odd (ap suc size, hex)
    ]

-- Its digests look as SHA-256's do.
pub sample_platform-hash : (t : List ℕ) → is_hash (sample_platform.sha256 t) ≡ true
sample_platform-hash t = let (size, hex) = bits-hex 64 (checksum 7 t) in rw (size, hex) refl

first_unit : String → ℕ
first_unit String.[] = 0
first_unit (String.◌∷◌ c s) = code c

apart-first_unit : (s t : String) → first_unit s ≢ first_unit t → str_eq s t ≡ false
apart-first_unit s t ne = elim (Bool-cases (str_eq s t)) [
  | inl e ↦ let same : s ≡ t = ground (arith, eq_iff s t, e) in absurd (ne (ap first_unit same))
  | inr e ↦ e
]

bits-apart : (k n : ℕ) (a : String) → str_eq (String.◌∷◌ "a" a) (bits (suc k) n) ≡ false
unfolding first_unit
bits-apart k n a = elim (Bool-cases (n % 2 == 0)) [
  | inl even ↦ rw even (
      apart-first_unit (String.◌∷◌ "a" a) (String.◌∷◌ "0" (bits k (n / 2))) (λ e. omega (arith, e)))
  | inr odd ↦ rw odd (
      apart-first_unit (String.◌∷◌ "a" a) (String.◌∷◌ "1" (bits k (n / 2))) (λ e. omega (arith, e)))
]

-- Its digests begin with a digit.
pub sample_platform-apart :
    (a : String) (t : List ℕ) → str_eq (String.◌∷◌ "a" a) (sample_platform.sha256 t) ≡ false
sample_platform-apart a t = bits-apart 63 (checksum 7 t) a
