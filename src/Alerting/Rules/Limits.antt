-- ===== src/Alerting/Rules/Limits.antt =====
-- alerting/alert_dispatch.py with limiting/limit_event.py: what the dispatcher makes of the events that
-- the limiting classes queue.
use radicalbit_ai_gateway.Prelude.{ℕ, ◌≡◌, refl, none, some, Text, text_eq}
use radicalbit_ai_gateway.Limiter.Window.{
  ScenarioType, request_rate, token_input, token_output, budget, audio_duration, scenario_value,
  WindowConfig,
}
use radicalbit_ai_gateway.Limiter.Base.{WindowStats}
use radicalbit_ai_gateway.Limiting.World.{RequestIdentity, EventType, LimitScope}
use radicalbit_ai_gateway.Limiting.Event.{limit_fields}
use radicalbit_ai_gateway.Limiting.Event as Event
use radicalbit_ai_gateway.Limiting.Room.{block_event}
use radicalbit_ai_gateway.Alerting.Names.{
  category_of, category_by_scenario, window_name, exceeded_event, threshold_event,
  parse_limit_event,
}
use radicalbit_ai_gateway.Alerting.Names.RoundTrip.{parse_limit_event-names}
use radicalbit_ai_gateway.Alerting.Rules.{limit_event, alert_event, limit_key, in_scope}

category_by_scenario-scenario_value :
    (s : ScenarioType) → category_by_scenario (scenario_value s) ≡ some (category_of s)
unfolding category_by_scenario scenario_value category_of text_eq
category_by_scenario-scenario_value request_rate = refl
category_by_scenario-scenario_value token_input = refl
category_by_scenario-scenario_value token_output = refl
category_by_scenario-scenario_value budget = refl
category_by_scenario-scenario_value audio_duration = refl

module _ (scope : LimitScope) (window : WindowConfig) (identity : RequestIdentity)
    (stats : WindowStats) where
  blocked :
      (event_type : EventType) (name : Text)
      → exceeded_event (category_of window.scenario_type) window.window_seconds ≡ some name
      → alert_event (limit_event (block_event event_type scope identity window stats))
        ≡ some (record { key = name; scope = scope })
  unfolding alert_event block_event limit_fields limit_key in_scope
  blocked event_type name e =
      rw (alert_event, category_by_scenario-scenario_value window.scenario_type, limit_key, e) refl

  crossed :
      (percentage : ℕ) (name : Text)
      → threshold_event (category_of window.scenario_type) percentage window.window_seconds
        ≡ some name
      → alert_event (limit_event (Event.threshold_event scope window identity stats percentage))
        ≡ some (record { key = name; scope = scope })
  unfolding alert_event Event.threshold_event limit_fields limit_key in_scope
  crossed percentage name e =
      rw (alert_event, category_by_scenario-scenario_value window.scenario_type, limit_key, e) refl

  -- The events that the limiting classes queue for a limit, at a refusal and at a threshold, are
  -- both alertable in the scope of the limit, under names from which the category of the limit's
  -- scenario, the name of its window and the percentage, or none for a refusal, are read back.
  pub limit_events_named :
      (event_type : EventType) (percentage : ℕ)
      → (w : Text) × (exceeded : Text) × (threshold : Text) × (window_name window.window_seconds
          ≡ some w)
        × (alert_event (limit_event (block_event event_type scope identity window stats))
            ≡ some (record { key = exceeded; scope = scope }))
        × (alert_event (limit_event (Event.threshold_event scope window identity stats percentage))
            ≡ some (record { key = threshold; scope = scope }))
        × (parse_limit_event exceeded
            ≡ some (record {
              category = category_of window.scenario_type;
              window = w;
              percentage = none;
            }))
        × (parse_limit_event threshold
            ≡ some (record {
              category = category_of window.scenario_type;
              window = w;
              percentage = some percentage;
            }))
  limit_events_named event_type percentage =
      let (w, exceeded, threshold, named, e, t, back, again) =
        parse_limit_event-names (category_of window.scenario_type) percentage
          window.window_seconds in
      (
        w,
        exceeded,
        threshold,
        named,
        blocked event_type exceeded e,
        crossed percentage threshold t,
        back,
        again,
      )
