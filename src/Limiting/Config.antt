-- ===== src/Limiting/Config.antt =====
-- models/limiting.py: the limits of a route's configuration and their validation. Validators run in
-- the order in which pydantic runs them; of several errors the first is kept. Integers are not
-- negative: a negative window is not modelled, except where `normalize_limit_window` refuses it.
pub mod Allowed
pub mod Normal
use radicalbit_ai_gateway.Prelude.{
  ℕ, zero, suc, ◌+◌, ◌*◌, Bool, true, false, not, ◌||◌, ◌&&◌, Option, none, some, List, [], ◌∷◌,
  ◌++◌, Text, any, leb, ltb, ◌==◌, if◌then◌else◌,
}
use radicalbit_ai_gateway.Prelude.Result.{Result, ok, err, ◌>>=◌, ◌>>◌}
use radicalbit_ai_gateway.Limiter.Window.{
  WindowError, WindowSize, of_seconds, of_text, parse_window, format_window, window_size_seconds,
}
use radicalbit_ai_gateway.Limiting.Event.{budget_multiplier}
use radicalbit_ai_gateway.Limiting.Floats.{Floats}

unfoldable pub aligned_fixed_window_allowed_seconds : List ℕ
aligned_fixed_window_allowed_seconds =
    60 ∷ 300 ∷ 600 ∷ 900 ∷ 1800 ∷ 3600 ∷ 7200 ∷ 10800 ∷ 14400 ∷ 21600 ∷ 28800 ∷ 43200 ∷ 86400 ∷ []

pub data LimitingAlgorithmType : Type 0 where
  fixed_window aligned_fixed_window : LimitingAlgorithmType

unfoldable pub limit_window_allowed_seconds : LimitingAlgorithmType → List ℕ
unfolding aligned_fixed_window_allowed_seconds
limit_window_allowed_seconds aligned_fixed_window = aligned_fixed_window_allowed_seconds
limit_window_allowed_seconds fixed_window =
    aligned_fixed_window_allowed_seconds ++ (604800 ∷ 2592000 ∷ [])

-- `n in allowed`
abbrev pub contains : List ℕ → ℕ → Bool
contains allowed n = any (λ s. s == n) allowed

pub data ConfigError : Type 0 where
  window : WindowError → ConfigError
  not_whole not_positive not_allowed : ConfigError
  out_of_range several_maxima maximum_not_set : ConfigError

abbrev pub from_window : {A : Type 0} → Result WindowError A → Result ConfigError A
from_window (ok a) = ok a
from_window (err e) = err (window e)

abbrev pub require : Bool → ConfigError → Result ConfigError (Unit {0})
require true e = ok tt
require false e = err e

-- The `float | str` that a credential's or project's window comes as: a text, a whole number, a
-- negative whole number, or a value that is no whole number (or a `bool`).
pub data WindowValue : Type 0 where
  in_words : Text → WindowValue
  whole : ℕ → WindowValue
  negative : ℕ → WindowValue
  no_integer : WindowValue

-- The window's seconds, and the check that they are more than 0.
window_value_seconds : WindowValue → Result ConfigError ℕ
window_value_seconds (in_words s) = do
  n ← from_window (parse_window s)
  require (ltb 0 n) not_positive
  ok n
window_value_seconds (whole n) = require (ltb 0 n) not_positive >> ok n
window_value_seconds (negative n) = err not_positive
window_value_seconds no_integer = err not_whole

check_allowed : Option LimitingAlgorithmType → ℕ → Text → Result ConfigError Text
check_allowed none window_seconds window_size = ok window_size
check_allowed (some algorithm) window_seconds window_size =
    require (contains (limit_window_allowed_seconds algorithm) window_seconds) not_allowed
    >> ok window_size

unfoldable pub normalize_limit_window :
    WindowValue → Option LimitingAlgorithmType → Result ConfigError Text
unfolding window_value_seconds check_allowed
normalize_limit_window value algorithm = do
  window_seconds ← window_value_seconds value
  window_size ← from_window (format_window window_seconds)
  check_allowed algorithm window_seconds window_size

aligned_window_allowed : LimitingAlgorithmType → ℕ → Result ConfigError (Unit {0})
aligned_window_allowed fixed_window window_seconds = ok tt
aligned_window_allowed aligned_fixed_window window_seconds =
    require (contains aligned_fixed_window_allowed_seconds window_seconds) not_allowed

module _ (F : Floats) where
  open F use {Float, of_int, times, trunc, le, is_zero}

  pub record Limiting : Type 0 where
    pub algorithm : LimitingAlgorithmType
    pub window_size : WindowSize
    pub max_requests : Option ℕ
    pub max_tokens : Option ℕ
    pub max_budget : Option Float
    pub max_duration_seconds : Option Float

  -- `int(x * BUDGET_MULTIPLIER)`
  abbrev pub in_units : Float → ℕ
  in_units x = trunc (times x (of_int budget_multiplier))

  unfoldable pub max_budget_in_units : Limiting → Option ℕ
  max_budget_in_units config = elim (config.max_budget) [
    | none ↦ none
    | some budget ↦ some (in_units budget)
  ]

  abbrev one_if : {A : Type 0} → Option A → ℕ
  one_if none = 0
  one_if (some a) = 1

  abbrev holds : {A : Type 0} → (A → Bool) → Option A → Bool
  holds test none = true
  holds test (some a) = test a

  -- The fields' own bounds: `ge=1` and `ge=0.0`.
  check_ranges : Limiting → Result ConfigError (Unit {0})
  check_ranges config = do
    require (holds (leb 1) config.max_requests) out_of_range
    require (holds (leb 1) config.max_tokens) out_of_range
    require (holds (le (of_int 0)) config.max_budget) out_of_range
    require (holds (le (of_int 1)) config.max_duration_seconds) out_of_range

  only_one_max_field : Limiting → Result ConfigError (Unit {0})
  only_one_max_field config =
      require
        (leb
          (one_if config.max_requests
            + one_if config.max_tokens
            + one_if config.max_budget
            + one_if config.max_duration_seconds)
          1)
        several_maxima

  -- The construction of a `Limiting`. The window is read twice, by `is_window_size_parsable` and, if
  -- aligned, by `validate_aligned_fixed_window_size`; once is enough here.
  unfoldable pub validate_limiting : Limiting → Result ConfigError Limiting
  unfolding check_ranges only_one_max_field aligned_window_allowed
  validate_limiting config = do
    window_seconds ← from_window (window_size_seconds config.window_size)
    check_ranges config
    only_one_max_field config
    aligned_window_allowed config.algorithm window_seconds
    ok config

  -- `not config.max_requests`
  abbrev is_set : Option ℕ → Bool
  is_set none = false
  is_set (some n) = not (n == 0)

  abbrev is_given : {A : Type 0} → Option A → Bool
  is_given none = false
  is_given (some a) = true

  abbrev is_set_float : Option Float → Bool
  is_set_float none = false
  is_set_float (some x) = not (is_zero x)

  unfoldable pub validate_rate_limiting : Limiting → Result ConfigError Limiting
  unfolding validate_limiting
  validate_rate_limiting config = do
    valid ← validate_limiting config
    require (is_set valid.max_requests) maximum_not_set
    ok valid

  -- `input` or `output` of a `TokenLimiting`
  unfoldable pub validate_token_side : Limiting → Result ConfigError Limiting
  unfolding validate_limiting
  validate_token_side config = do
    valid ← validate_limiting config
    require (is_set valid.max_tokens) maximum_not_set
    ok valid

  unfoldable pub validate_budget_limiting : Limiting → Result ConfigError Limiting
  unfolding validate_limiting
  validate_budget_limiting config = do
    valid ← validate_limiting config
    require (is_given valid.max_budget) maximum_not_set
    ok valid

  unfoldable pub validate_duration_limiting : Limiting → Result ConfigError Limiting
  unfolding validate_limiting
  validate_duration_limiting config = do
    valid ← validate_limiting config
    require (is_set_float valid.max_duration_seconds) maximum_not_set
    ok valid

-- `if not maximum: raise ValueError`
unfoldable pub set_maximum : Option ℕ → Result ConfigError ℕ
set_maximum none = err maximum_not_set
set_maximum (some n) = if n == 0 then err maximum_not_set else ok n
