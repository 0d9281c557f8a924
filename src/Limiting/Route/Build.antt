-- ===== src/Limiting/Route/Build.antt =====
-- The constructors of limiting/rate_limiter.py, token_limiter.py, budget_limiting.py and
-- duration_limiter.py, by what they set.
use radicalbit_ai_gateway.Prelude.{ℕ, Option, none, some, Text, if◌then◌else◌}
use radicalbit_ai_gateway.Prelude.Result.{Result, ok, err, ◌>>=◌}
use radicalbit_ai_gateway.Limiter.Window.{
  ScenarioType, request_rate, token_input, token_output, budget, audio_duration, WindowConfig,
  from_parts,
}
use radicalbit_ai_gateway.Limiting.Floats.{Floats}
use radicalbit_ai_gateway.Limiting.Config.{
  ConfigError, maximum_not_set, Limiting, from_window, set_maximum, max_budget_in_units,
}
use radicalbit_ai_gateway.Limiting.Room.{Active, class_of}
use radicalbit_ai_gateway.Limiting.Route.{RouteLimiter, TokenLimiter}

module _ (F : Floats) (project_uuid route_name : Text) where
  open F use {Float, round, is_zero}

  item_with : Limiting F → ScenarioType → ℕ → Result ConfigError WindowConfig
  item_with config scenario_type limit =
      from_window (from_parts limit config.window_size project_uuid route_name scenario_type)

  -- `_create_item` of `RequestRateLimiter`
  unfoldable pub create_rate_item : Limiting F → Result ConfigError WindowConfig
  unfolding item_with set_maximum from_parts
  create_rate_item config = do
    limit ← set_maximum config.max_requests
    item_with config request_rate limit

  -- `_create_item` of `TokenLimiter`
  unfoldable pub create_token_item : ScenarioType → Limiting F → Result ConfigError WindowConfig
  unfolding item_with set_maximum from_parts
  create_token_item scenario_type config = do
    limit ← set_maximum config.max_tokens
    item_with config scenario_type limit

  set_budget : Option ℕ → Result ConfigError ℕ
  set_budget none = err maximum_not_set
  set_budget (some units) = ok units

  -- `_create_item` of `BudgetLimiter`: a budget of 0 counts as set.
  unfoldable pub create_budget_item : Limiting F → Result ConfigError WindowConfig
  unfolding item_with set_budget max_budget_in_units from_parts
  create_budget_item config = do
    limit ← set_budget (max_budget_in_units F config)
    item_with config budget limit

  set_duration : Option Float → Result ConfigError ℕ
  set_duration none = err maximum_not_set
  set_duration (some seconds) = if is_zero seconds then err maximum_not_set else ok (round seconds)

  -- `_create_item` of `DurationLimiter`
  unfoldable pub create_duration_item : Limiting F → Result ConfigError WindowConfig
  unfolding item_with set_duration from_parts
  create_duration_item config = do
    limit ← set_duration config.max_duration_seconds
    item_with config audio_duration limit

  -- `limiter` and `item` of a constructor: both, if there is a configuration.
  unfoldable pub activate :
      (Limiting F → Result ConfigError WindowConfig)
      → Option (Limiting F)
      → Result ConfigError (Option Active)
  unfolding class_of
  activate create_item none = ok none
  activate create_item (some config) = do
    item ← create_item config
    ok (some (record { limiter = class_of config.algorithm; item = item }))

  route_limiter :
      (Limiting F → Result ConfigError WindowConfig)
      → Option (Limiting F)
      → Result ConfigError RouteLimiter
  unfolding activate
  route_limiter create_item config = do
    active ← activate create_item config
    ok (record { route_name = route_name; active = active })

  unfoldable pub build_rate_limiter : Option (Limiting F) → Result ConfigError RouteLimiter
  unfolding route_limiter create_rate_item
  build_rate_limiter = route_limiter create_rate_item

  unfoldable pub build_budget_limiter : Option (Limiting F) → Result ConfigError RouteLimiter
  unfolding route_limiter create_budget_item
  build_budget_limiter = route_limiter create_budget_item

  unfoldable pub build_duration_limiter : Option (Limiting F) → Result ConfigError RouteLimiter
  unfolding route_limiter create_duration_item
  build_duration_limiter = route_limiter create_duration_item

  unfoldable pub build_token_limiter :
      Option (Limiting F) → Option (Limiting F) → Result ConfigError TokenLimiter
  unfolding activate create_token_item
  build_token_limiter input_config output_config = do
    input ← activate (create_token_item token_input) input_config
    output ← activate (create_token_item token_output) output_config
    ok (record { route_name = route_name; input = input; output = output })
