-- ===== src/Limiting/Room.antt =====
-- What the checks of all the limiting classes share: a test of one window, and the refusal of a
-- request with an event, a telemetry counter and an exception.
pub mod Verdict
use radicalbit_ai_gateway.Prelude.{ℕ, Bool, true, false, Option, none, some, List, [], ◌∷◌, Text}
use radicalbit_ai_gateway.Limiter.Machine.{Env}
use radicalbit_ai_gateway.Limiter.Storage.{Storage}
use radicalbit_ai_gateway.Limiter.Window.{WindowConfig}
use radicalbit_ai_gateway.Limiter.Base.{
  LimiterClass, fixed, aligned, WindowStats, test, get_window_stats,
}
use radicalbit_ai_gateway.Limiting.World.{
  RequestIdentity, EventType, LimitScope, LimitEventPayload, LimitError, Counter, Exec, ◌>>=◌, ◌>>◌,
  skip, raise, lift, emit_event, add_metric,
}
use radicalbit_ai_gateway.Limiting.Config.{
  LimitingAlgorithmType, fixed_window, aligned_fixed_window,
}
use radicalbit_ai_gateway.Limiting.Event.{limit_fields}

-- Who calls, as the checks take it: the arguments of `check_request` and its like.
pub record Caller : Type 0 where
  pub request_uuid : Text
  pub api_key_uuid : Text
  pub group_uuid : Text
  pub api_key_name : Text
  pub group_name : Text
  pub project_uuid : Text
  pub project_name : Text

abbrev pub identity_of : Caller → Text → RequestIdentity
identity_of c route_name = record {
  request_uuid = c.request_uuid;
  route_name = route_name;
  api_key_uuid = c.api_key_uuid;
  api_key_name = c.api_key_name;
  group_uuid = c.group_uuid;
  group_name = c.group_name;
  project_uuid = c.project_uuid;
  project_name = c.project_name;
}

-- A limiter and its window: the attributes `limiter` and `item`, which are set together.
pub record Active : Type 0 where
  pub limiter : LimiterClass
  pub item : WindowConfig

unfoldable pub class_of : LimitingAlgorithmType → LimiterClass
class_of aligned_fixed_window = aligned
class_of fixed_window = fixed

-- The event of a refusal: it names no threshold.
unfoldable pub block_event :
    EventType → LimitScope → RequestIdentity → WindowConfig → WindowStats → LimitEventPayload
unfolding limit_fields
block_event event_type scope identity window stats = record {
  identity = identity;
  event_type = event_type;
  value = 1;
  threshold_percentage = none;
  limit = limit_fields scope window stats;
}

module _ {S : Type 0} (env : Env) (storage : Storage S) where
  unless : Bool → Exec S (Unit {0}) → Exec S (Unit {0})
  unless true refusal = skip
  unless false refusal = refusal

  -- `if not await limiter.test(item, cost): state = await limiter.get_window_stats(item); …`
  unfoldable pub check_room : Active → ℕ → (WindowStats → Exec S (Unit {0})) → Exec S (Unit {0})
  unfolding unless
  check_room a cost refuse = do
    allowed ← lift (test env storage a.limiter a.item cost)
    unless allowed (lift (get_window_stats env storage a.limiter a.item) >>= refuse)

-- The increments of a telemetry counter, where the class has one.
abbrev pub count_refusal : {S : Type 0} → Option Counter → Text → Exec S (Unit {0})
count_refusal none route_name = skip
count_refusal (some counter) route_name = add_metric counter route_name

unfoldable pub refuse :
    {S : Type 0} → LimitEventPayload → Option Counter → Text → LimitError → Exec S (Unit {0})
refuse event counter route_name error =
    emit_event event >> (count_refusal counter route_name >> raise error)
