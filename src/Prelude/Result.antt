-- ===== src/Prelude/Result.antt =====
-- A value, or the error that was raised in its place.
use mathlib.Core.Path.{◌≡◌, refl}
use mathlib.Core.Option.{Option, none, some}

pub data Result {ℓ} (E A : Type ℓ) : Type ℓ where
  err : E → Result E A
  ok : A → Result E A

abbrev pub or_err {ℓ} : {E A : Type ℓ} → E → Option A → Result E A
or_err raised none = err raised
or_err raised (some found) = ok found

infixl 10 ◌>>=◌ ◌>>◌
-- An error skips what follows.
abbrev pub ◌>>=◌ {ℓ} : {E A B : Type ℓ} → Result E A → (A → Result E B) → Result E B
err raised >>= next = err raised
ok value >>= next = next value

abbrev pub ◌>>◌ : {E B : Type 0} → Result E (Unit {0}) → Result E B → Result E B
first >> second = first >>= λ done. second

module _ {ℓ} {E A B : Type ℓ} where
  -- A chain that returned has passed its first step.
  pub >>=-eq-ok :
      (step : Result E A) (next : A → Result E B) {last : B}
      → (step >>= next) ≡ ok last
      → (value : A) × (step ≡ ok value) × (next value ≡ ok last)
  >>=-eq-ok (err raised) next e = cc
  >>=-eq-ok (ok value) next e = (value, refl, e)
