-- ===== src/Limiting/Event.antt =====
-- limiting/limit_event.py: a hit on a window, and the thresholds that it crosses.
pub mod Thresholds
pub mod Hits
use radicalbit_ai_gateway.Prelude.{
  ℕ, zero, suc, ◌+◌, ◌*◌, Bool, true, false, ◌&&◌, Option, none, some, List, [], ◌∷◌, ltb, leb,
  if◌then◌else◌,
}
use radicalbit_ai_gateway.Limiter.Machine.{Env}
use radicalbit_ai_gateway.Limiter.Storage.{Storage}
use radicalbit_ai_gateway.Limiter.Window.{
  ScenarioType, request_rate, token_input, token_output, budget, audio_duration, scenario_value,
  WindowConfig,
}
use radicalbit_ai_gateway.Limiter.Base.{
  LimiterClass, WindowStats, Consumption, consume, get_window_stats,
}
use radicalbit_ai_gateway.Limiting.World.{
  RequestIdentity, EventType, limit_threshold, LimitScope, Amount, LimitFields, LimitEventPayload,
  Exec, ◌>>=◌, ◌>>◌, pure, skip, lift, emit_event,
}

abbrev pub budget_multiplier : ℕ
budget_multiplier = 1_000_000_000

abbrev divisor_of : ScenarioType → ℕ
divisor_of budget = budget_multiplier
divisor_of _ = 1

unfoldable pub limit_fields : LimitScope → WindowConfig → WindowStats → LimitFields
unfolding scenario_value
limit_fields scope window stats =
    let divisor = divisor_of window.scenario_type in
    record {
      limit_scope = scope;
      category = scenario_value window.scenario_type;
      window_seconds = window.window_seconds;
      maximum = record { units = window.limit; divisor = divisor };
      consumption = record { units = stats.consumed; divisor = divisor };
      reset_time = stats.reset_time;
      window_id = stats.window_id;
    }

-- `previous * 100 < pct * maximum <= consumed * 100` with `previous = consumed - cost`. The integers
-- of the code may be negative, so that `cost` is added on the other side here.
unfoldable pub crosses : ℕ → ℕ → ℕ → ℕ → Bool
crosses consumed cost maximum pct =
    ltb (consumed * 100) (pct * maximum + cost * 100) && leb (pct * maximum) (consumed * 100)

-- `sorted`
unfoldable pub insert_sorted : ℕ → List ℕ → List ℕ
insert_sorted x [] = x ∷ []
insert_sorted x (y ∷ ys) = if leb x y then x ∷ y ∷ ys else y ∷ insert_sorted x ys

unfoldable pub crossed_percentages : ℕ → ℕ → ℕ → List ℕ → List ℕ
unfolding crosses insert_sorted
crossed_percentages consumed cost maximum [] = []
crossed_percentages consumed cost maximum (pct ∷ percentages) =
    let rest = crossed_percentages consumed cost maximum percentages in
    if crosses consumed cost maximum pct then insert_sorted pct rest else rest

unfoldable pub threshold_event :
    LimitScope → WindowConfig → RequestIdentity → WindowStats → ℕ → LimitEventPayload
unfolding limit_fields
threshold_event scope window identity stats percentage = record {
  identity = identity;
  event_type = limit_threshold;
  value = 1;
  threshold_percentage = some percentage;
  limit = limit_fields scope window stats;
}

module _ {S : Type 0} (env : Env) (storage : Storage S) (alert_threshold_percentages : List ℕ) where
  -- The loop over the crossed percentages.
  unfoldable pub emit_all : (ℕ → LimitEventPayload) → List ℕ → Exec S (Unit {0})
  emit_all event [] = skip
  emit_all event (percentage ∷ crossed) = emit_event (event percentage) >> emit_all event crossed

  unfoldable pub emit_crossed :
      LimiterClass
      → WindowConfig
      → LimitScope
      → RequestIdentity
      → Consumption
      → List ℕ
      → Exec S (Unit {0})
  emit_crossed limiter window scope identity consumption [] = skip
  emit_crossed limiter window scope identity consumption (percentage ∷ crossed) = do
    stats ← lift (get_window_stats env storage limiter window)
    let told = record stats { consumed = consumption.value; window_id = some consumption.window_id }
    emit_all (threshold_event scope window identity told) (percentage ∷ crossed)

  unfoldable pub consume_and_emit_thresholds :
      LimiterClass → WindowConfig → ℕ → LimitScope → RequestIdentity → Exec S (Unit {0})
  consume_and_emit_thresholds limiter window cost scope identity = do
    consumption ← lift (consume env storage limiter window cost)
    emit_crossed limiter window scope identity consumption
        (crossed_percentages consumption.value cost window.limit alert_threshold_percentages)
