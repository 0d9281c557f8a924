-- ===== src/Limiting/Route.antt =====
-- The limits of a route, one class each. A limiter's object holds its route's name and, where the
-- route configures the limit, the limiter and the window, which its constructor sets together. The
-- backend that the constructor chooses, the same for the whole life of the object, is a parameter
-- of the methods.
pub mod Build
pub mod Rate
pub mod Token
pub mod Budget
pub mod Duration
use radicalbit_ai_gateway.Prelude.{Option, Text}
use radicalbit_ai_gateway.Limiting.Room.{Active}

-- `RequestRateLimiter`, `BudgetLimiter` and `DurationLimiter`
pub record RouteLimiter : Type 0 where
  pub route_name : Text
  pub active : Option Active

-- `TokenLimiter`
pub record TokenLimiter : Type 0 where
  pub route_name : Text
  pub input : Option Active
  pub output : Option Active
