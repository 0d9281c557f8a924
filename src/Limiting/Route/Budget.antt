-- ===== src/Limiting/Route/Budget.antt =====
-- limiting/budget_limiting.py: what a route spends in each window, in billionths of a dollar.
pub mod Spend
use radicalbit_ai_gateway.Prelude.{ℕ, Option, none, some, List}
use radicalbit_ai_gateway.Limiter.Machine.{Env}
use radicalbit_ai_gateway.Limiter.Storage.{Storage}
use radicalbit_ai_gateway.Limiter.Base.{WindowStats, get_window_stats}
use radicalbit_ai_gateway.Limiting.Floats.{Floats}
use radicalbit_ai_gateway.Limiting.World.{
  RequestIdentity, LimitEventPayload, LimitError, budget_limit_exceeded, budget_limit, route, Exec,
  ◌>>=◌, pure, skip, lift,
}
use radicalbit_ai_gateway.Limiting.Room.{
  Caller, identity_of, Active, block_event, check_room, refuse,
}
use radicalbit_ai_gateway.Limiting.Event.{budget_multiplier, consume_and_emit_thresholds}
use radicalbit_ai_gateway.Limiting.Route.{RouteLimiter}

-- `int(quantity * cost * BUDGET_MULTIPLIER)`
abbrev pub cost_in_units : (F : Floats) → F.Float → F.Float → ℕ
cost_in_units F quantity cost =
    F.trunc (F.times (F.times quantity cost) (F.of_int budget_multiplier))

abbrev pub budget_event : RouteLimiter → Active → Caller → WindowStats → LimitEventPayload
budget_event self a caller stats =
    block_event budget_limit route (identity_of caller self.route_name) a.item stats

abbrev pub budget_error : WindowStats → LimitError
budget_error stats = budget_limit_exceeded stats.remaining_time

module _ {S : Type 0} (env : Env) (storage : Storage S) where
  check_active : RouteLimiter → Caller → Option Active → Exec S (Unit {0})
  check_active self caller none = skip
  check_active self caller (some a) =
      check_room env storage a 1 (λ stats.
        refuse (budget_event self a caller stats) none self.route_name (budget_error stats))

  unfoldable pub check_budget : RouteLimiter → Caller → Exec S (Unit {0})
  unfolding check_active
  check_budget self caller = check_active self caller self.active

  remaining_of : Option Active → Exec S ℕ
  remaining_of none = pure 0
  remaining_of (some a) = do
    stats ← lift (get_window_stats env storage a.limiter a.item)
    pure stats.remaining

  unfoldable pub get_total_current_usage : RouteLimiter → Exec S ℕ
  unfolding remaining_of
  get_total_current_usage self = remaining_of self.active

module _ {S : Type 0} (env : Env) (storage : Storage S) (alert_threshold_percentages : List ℕ) where
  count_active : Option Active → ℕ → RequestIdentity → Exec S (Unit {0})
  count_active none cost identity = skip
  count_active (some a) cost identity =
      consume_and_emit_thresholds env storage alert_threshold_percentages a.limiter a.item cost
        route identity

  -- `_count`
  unfoldable pub count_cost : RouteLimiter → ℕ → RequestIdentity → Exec S (Unit {0})
  unfolding count_active
  count_cost self cost identity = count_active self.active cost identity

  module _ (F : Floats) where
    open F use {Float, of_int}

    unfoldable pub count_input : RouteLimiter → ℕ → Float → RequestIdentity → Exec S (Unit {0})
    count_input self token_count input_cost_per_token identity =
        count_cost self (cost_in_units F (of_int token_count) input_cost_per_token) identity

    unfoldable pub count_output : RouteLimiter → ℕ → Float → RequestIdentity → Exec S (Unit {0})
    count_output self token_count output_cost_per_token identity =
        count_cost self (cost_in_units F (of_int token_count) output_cost_per_token) identity

    unfoldable pub count_duration :
        RouteLimiter → Float → Float → RequestIdentity → Exec S (Unit {0})
    count_duration self seconds cost_per_second identity =
        count_cost self (cost_in_units F seconds cost_per_second) identity
