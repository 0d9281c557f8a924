-- ===== src/Prelude/Decimal.antt =====
-- A number is read back from its decimal text, which holds digits and nothing else.
use Prim.Native.Nat.{ℕ, zero, suc, ◌+◌, ◌/◌, ◌%◌, ◌<◌}
use mathlib.Core.Path.{◌≡◌, refl}
use mathlib.Core.Logic.{inl, inr}
use mathlib.Core.Bool.{true}
use mathlib.Core.List.{[], ◌∷◌}
use native.Mathlib.Omega.{arith}
use radicalbit_ai_gateway.Prelude.Tests.{ltb, Bool-cases}
use radicalbit_ai_gateway.Prelude.Lists.{All}
use radicalbit_ai_gateway.Prelude.Texts.{Text, is_digit, digits_onto, decimal, read_onto}

abbrev pub IsDigit : ℕ → Type 0
IsDigit c = is_digit c ≡ true

below_ten : (n : ℕ) → n < 10 → IsDigit (b'0' + n)
below_ten n h = ground arith

digits_onto-IsDigit :
    (fuel n : ℕ) (out : Text) → All IsDigit out → All IsDigit (digits_onto fuel n out)
unfolding digits_onto
digits_onto-IsDigit zero n out h = h
digits_onto-IsDigit (suc fuel) n out h = elim (Bool-cases (ltb n 10)) [
  | inl small ↦ rw small (below_ten n (ground arith), h)
  | inr large ↦ rw large (
      digits_onto-IsDigit fuel (n / 10) ((b'0' + n % 10) ∷ out)
        (below_ten (n % 10) (omega arith), h))
]

pub decimal-IsDigit : (n : ℕ) → All IsDigit (decimal n)
unfolding decimal
decimal-IsDigit n = digits_onto-IsDigit (suc n) n [] tt

read-digits_onto :
    (fuel n : ℕ) (out : Text) → n < fuel → read_onto 0 (digits_onto fuel n out) ≡ read_onto n out
unfolding digits_onto read_onto
read-digits_onto zero n out h = elim h [ ]
read-digits_onto (suc fuel) n out h =
    ground (arith, read-digits_onto fuel (n / 10) ((b'0' + n % 10) ∷ out))

pub read-decimal : (n : ℕ) → read_onto 0 (decimal n) ≡ n
unfolding decimal read_onto
read-decimal n = read-digits_onto (suc n) n [] (omega arith)

digits_onto-cons :
    (fuel n c : ℕ) (out : Text) → (d : ℕ) × (s : Text) × (digits_onto fuel n (c ∷ out) ≡ d ∷ s)
unfolding digits_onto
digits_onto-cons zero n c out = (c, out, refl)
digits_onto-cons (suc fuel) n c out = elim (Bool-cases (ltb n 10)) [
  | inl small ↦ (b'0' + n, c ∷ out, ground arith)
  | inr large ↦
      let (d, s, e) = digits_onto-cons fuel (n / 10) (b'0' + n % 10) (c ∷ out) in
      (d, s, ground arith)
]

pub decimal-cons : (n : ℕ) → (d : ℕ) × (s : Text) × (decimal n ≡ d ∷ s)
unfolding decimal
decimal-cons n = elim (Bool-cases (ltb n 10)) [
  | inl small ↦ (b'0' + n, [], ground arith)
  | inr large ↦
      let (d, s, e) = digits_onto-cons n (n / 10) (b'0' + n % 10) [] in (d, s, ground arith)
]
