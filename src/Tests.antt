-- ===== src/Tests.antt =====
-- Concrete inputs, on which the theorems are applied: an in-memory backend at second 1000, a clock
-- that moves a second at each reading, and floating point read as whole numbers.
mod Counters
mod Routes
mod Windows
mod Verdicts
mod Owners
mod Settings
mod Alerts
mod Models
use radicalbit_ai_gateway.Prelude.{
  ℕ, ◌+◌, ◌*◌, ◌/◌, ◌≡◌, refl, Option, none, some, List, [], ◌∷◌, Text, text, leb, ◌==◌,
}
use radicalbit_ai_gateway.Prelude.Dict.{Dict}
use radicalbit_ai_gateway.Limiter.Machine.{Env, Machine}
use radicalbit_ai_gateway.Limiter.Storage.{Storage, Entry, IsBackend}
use radicalbit_ai_gateway.Limiter.Storage.InMemory.{in_memory}
use radicalbit_ai_gateway.Limiter.Storage.InMemory.Laws.{in_memory-IsBackend}
use radicalbit_ai_gateway.Limiter.Window.{ScenarioType, request_rate, WindowConfig}
use radicalbit_ai_gateway.Limiter.Base.{LimiterClass, fixed, aligned, build_key}
use radicalbit_ai_gateway.Limiting.Floats.{Floats}
use radicalbit_ai_gateway.Limiting.World.{World}
use radicalbit_ai_gateway.Limiting.Room.{Caller, Active}
use radicalbit_ai_gateway.Limiting.Route.{RouteLimiter}

abbrev ticking : Env
ticking = record { delay = λ n. 1; uuid4 = λ n. n ∷ [] }

abbrev backend : Storage (Dict Entry)
backend = in_memory ticking

abbrev backend_law : IsBackend backend
backend_law = in_memory-IsBackend ticking

abbrev whole_numbers : Floats
whole_numbers = record {
  Float = ℕ;
  of_int = λ n. n;
  times = λ x y. x * y;
  true_div = λ a b. a / b;
  trunc = λ x. x;
  round = λ x. x;
  le = leb;
  is_zero = λ x. x == 0;
}

abbrev two_a_minute : WindowConfig
two_a_minute = record {
  limit = 2;
  window_seconds = 60;
  project_uuid = text "p";
  route_name = text "r:1";
  scenario_type = request_rate;
}

abbrev by_minute : Active
by_minute = record { limiter = fixed; item = two_a_minute }

abbrev by_hour : Active
by_hour = record {
  limiter = aligned;
  item = record two_a_minute { limit = 50; window_seconds = 3600 };
}

abbrev limited_route : RouteLimiter
limited_route = record { route_name = text "r:1"; active = some by_minute }

abbrev someone : Caller
someone = record {
  request_uuid = text "q";
  api_key_uuid = text "k";
  group_uuid = text "g";
  api_key_name = text "key";
  group_name = text "group";
  project_uuid = text "p";
  project_name = text "project";
}

abbrev machine_with : Dict Entry → Machine (Dict Entry)
machine_with store = record { store = store; clock = 1000; reads = 0; issued = 0 }

abbrev world_with : Dict Entry → World (Dict Entry)
world_with store = record { machine = machine_with store; events = []; metrics = [] }

-- One hit in a window that ends at second 1100.
abbrev one_hit : Entry
one_hit = record { value = 1; expires_at = 1100; window_id = text "w"; window_start = 1000 }
