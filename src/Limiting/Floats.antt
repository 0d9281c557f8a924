-- ===== src/Limiting/Floats.antt =====
-- Floating point as the limits use it: Python's `float` is not described further, and no statement
-- depends on what its operations return.
use radicalbit_ai_gateway.Prelude.{ℕ, Bool}

pub record Floats : Type 1 where
  pub Float : Type 0
  -- `float(n)`
  pub of_int : ℕ → Float
  pub times : Float → Float → Float
  -- `a / b` of two integers
  pub true_div : ℕ → ℕ → Float
  -- `int(x)` and `round(x)` of a number that is not negative
  pub trunc : Float → ℕ
  pub round : Float → ℕ
  pub le : Float → Float → Bool
  pub is_zero : Float → Bool
