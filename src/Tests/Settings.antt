-- ===== src/Tests/Settings.antt =====
-- The configuration of limits at concrete inputs.
use radicalbit_ai_gateway.Prelude.{ℕ, ◌<◌, ◌≡◌, refl, none, some, [], text, decimal, text_eq}
use radicalbit_ai_gateway.Prelude.Result.{ok}
use radicalbit_ai_gateway.Limiter.Machine.{read_clock}
use radicalbit_ai_gateway.Limiter.Window.{
  of_seconds, match_window, strip, in_unit, parse_window, format_in, canonical_units, format_window,
  window_size_seconds,
}
use radicalbit_ai_gateway.Limiter.Base.{aligned, calculate_window_boundary}
use radicalbit_ai_gateway.Limiting.Config.{
  aligned_fixed_window, in_words, normalize_limit_window, Limiting, validate_limiting,
  aligned_fixed_window_allowed_seconds,
}
use radicalbit_ai_gateway.Limiting.Config.Normal.{IsAllowed, normalize_limit_window-canonical}
use radicalbit_ai_gateway.Limiting.Config.Allowed.{validated_aligned_midnight}
use radicalbit_ai_gateway.Tests.{ticking, whole_numbers, machine_with}

normalized : normalize_limit_window (in_words (text "60 minutes")) none ≡ ok (text "1 hour")
unfolding normalize_limit_window parse_window match_window strip in_unit text_eq format_window
    format_in canonical_units decimal
normalized = refl

normalize_limit_window-canonical_example :
    (n : ℕ) × (0 < n)
    × (format_window n ≡ ok (text "1 hour"))
    × (parse_window (text "1 hour") ≡ ok n)
    × IsAllowed none n
    × (normalize_limit_window (in_words (text "1 hour")) none ≡ ok (text "1 hour"))
normalize_limit_window-canonical_example =
    normalize_limit_window-canonical none (in_words (text "60 minutes")) (text "1 hour") normalized

abbrev five_minutes : Limiting whole_numbers
five_minutes = record {
  algorithm = aligned_fixed_window;
  window_size = of_seconds 300;
  max_requests = some 10;
  max_tokens = none;
  max_budget = none;
  max_duration_seconds = none;
}

five_minutes_valid : validate_limiting whole_numbers five_minutes ≡ ok five_minutes
unfolding validate_limiting window_size_seconds aligned_fixed_window_allowed_seconds
five_minutes_valid = refl

validated_aligned_midnight_example :
    (0 < 300)
    × ((calculate_window_boundary ticking aligned 300
          (record (machine_with []) { clock = 86399 })).0.0
        ≡ (calculate_window_boundary ticking aligned 300
            (record (machine_with []) { clock = 86399 })).1.clock)
unfolding window_size_seconds calculate_window_boundary read_clock
validated_aligned_midnight_example =
    validated_aligned_midnight whole_numbers ticking (record (machine_with []) { clock = 86399 })
      five_minutes 300 refl five_minutes_valid refl refl
