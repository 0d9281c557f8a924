-- ===== src/Limiting/Route/Rate.antt =====
-- limiting/rate_limiter.py: the requests to a route in each window.
pub mod Cap
pub mod Flight
pub mod Exact
use radicalbit_ai_gateway.Prelude.{ℕ, Option, none, some, List, Text}
use radicalbit_ai_gateway.Limiter.Machine.{Env}
use radicalbit_ai_gateway.Limiter.Storage.{Storage}
use radicalbit_ai_gateway.Limiter.Base.{WindowStats}
use radicalbit_ai_gateway.Limiting.World.{
  RequestIdentity, LimitEventPayload, LimitError, request_rate_limit_exceeded, rate_limit, route,
  rate_limiting, Exec, ◌>>◌, ◌>>=◌, skip,
}
use radicalbit_ai_gateway.Limiting.Room.{
  Caller, identity_of, Active, block_event, check_room, refuse,
}
use radicalbit_ai_gateway.Limiting.Event.{consume_and_emit_thresholds}
use radicalbit_ai_gateway.Limiting.Route.{RouteLimiter}

abbrev pub rate_event : RouteLimiter → Active → Caller → WindowStats → LimitEventPayload
rate_event self a caller stats =
    block_event rate_limit route (identity_of caller self.route_name) a.item stats

abbrev pub rate_error : RouteLimiter → WindowStats → LimitError
rate_error self stats = request_rate_limit_exceeded stats.remaining_time self.route_name

module _ {S : Type 0} (env : Env) (storage : Storage S) where
  check_active : RouteLimiter → Caller → Option Active → Exec S (Unit {0})
  check_active self caller none = skip
  check_active self caller (some a) = check_room env storage a 1 (λ stats.
      refuse (rate_event self a caller stats) (some rate_limiting) self.route_name
        (rate_error self stats))

  -- `_check_request`
  unfoldable pub check_request : RouteLimiter → Caller → Exec S (Unit {0})
  unfolding check_active
  check_request self caller = check_active self caller self.active

module _ {S : Type 0} (env : Env) (storage : Storage S) (alert_threshold_percentages : List ℕ) where
  count_active : Option Active → RequestIdentity → Exec S (Unit {0})
  count_active none identity = skip
  count_active (some a) identity =
      consume_and_emit_thresholds env storage alert_threshold_percentages a.limiter a.item 1 route
        identity

  -- `_count_request`
  unfoldable pub count_request : RouteLimiter → RequestIdentity → Exec S (Unit {0})
  unfolding count_active
  count_request self identity = count_active self.active identity

  unfoldable pub check_and_count_request : RouteLimiter → Caller → Exec S (Unit {0})
  check_and_count_request self caller =
      check_request env storage self caller
      >> count_request self (identity_of caller self.route_name)
