-- ===== src/Alerting/Dispatch.antt =====
-- alerting/alert_dispatch.py: `AlertDispatcher.dispatch` and `close_windows`.
pub mod Sends
pub mod Once
pub mod Counts
pub mod Closing
pub mod Life
pub mod Encoding
use radicalbit_ai_gateway.Prelude.{
  ℕ, ◌+◌, ◌-◌, ◌*◌, ◌/◌, Bool, true, false, not, ◌||◌, Option, none, some, List, [], ◌∷◌, ◌++◌,
  Text, text, text_eq, decimal, ◌==◌, if◌then◌else◌,
}
use radicalbit_ai_gateway.Limiter.Window.{strip}
use radicalbit_ai_gateway.Limiter.Machine.{Env, Machine, read_clock}
use radicalbit_ai_gateway.Limiting.World.{
  RequestIdentity, LimitScope, route, project, credential, Amount, LimitEventPayload,
}
use radicalbit_ai_gateway.Alerting.Store.{AlertStore}
use radicalbit_ai_gateway.Alerting.Rules.{
  AlertRuleTimeAggregation, instant, window, limit_window, AlertRuleWindowSize, five_minutes,
  fifteen_minutes, one_hour, six_hours, one_day, lenient, scopes, scope_value, time_aggregations,
  window_sizes, size_value, AlertRule, Loaded, recipients_of, column_eq, get_enabled_route_rules,
  get_enabled_project_rules, get_enabled_credential_rules, get_by_uuid, EventPayload, limit_event,
  guardrail_event, fallback_event, other_event, identity_of, AlertEvent, alert_event, target_of,
  instant_details, lower,
}
use radicalbit_ai_gateway.Alerting.World.{
  Alert, Body, sent, failed, World, Act, ◌>>=◌, ◌>>◌, pure, raise, skip, lift, caught, send_email,
  emit_alert,
}
use radicalbit_ai_gateway.Alerting.Handlers.{
  window_seconds, window_grace_seconds, limit_window_margin_seconds, Window, Encoded, containing,
  window_end, counter_key, closed_key, Dispatcher, window_or_reset, limit_claim_key, encode,
  decoded, decode, now, limit_details, alert_of, send_to, send, send_instant, send_claimed,
  send_once, send_once_per_limit_window, register, count_in, size_of, count_in_window,
}

module _ {S : Type 0} (d : Dispatcher S) where
  -- `_candidate_rules`
  unfoldable pub candidate_rules : LimitScope → RequestIdentity → List AlertRule
  unfolding get_enabled_route_rules get_enabled_project_rules get_enabled_credential_rules
  candidate_rules route identity =
      if text_eq identity.project_uuid []
      then []
      else get_enabled_route_rules d.table identity.project_uuid identity.route_name
  candidate_rules project identity =
      if text_eq identity.project_uuid []
      then []
      else get_enabled_project_rules d.table identity.project_uuid
  candidate_rules credential identity = elim (d.parse_uuid identity.api_key_uuid) [
    | none ↦ []
    | some uuid ↦ get_enabled_credential_rules d.table uuid
  ]

  -- The handler of an aggregation; a rule with another aggregation is passed over.
  unfoldable pub handle :
      Option AlertRuleTimeAggregation → AlertRule → AlertEvent → EventPayload → Act S (Unit {0})
  unfolding send_instant count_in_window send_once_per_limit_window
  handle none rule matched event = skip
  handle (some instant) rule matched event = send_instant d rule matched event
  handle (some window) rule matched event = count_in_window d rule matched event
  handle (some limit_window) rule matched event = send_once_per_limit_window d rule matched event

  unfoldable pub watches : AlertRule → AlertEvent → Bool
  unfolding lower strip
  watches rule matched = text_eq (lower (strip rule.event)) matched.key

  unfoldable pub dispatch_to : List AlertRule → AlertEvent → EventPayload → Act S (Unit {0})
  unfolding watches handle lenient time_aggregations
  dispatch_to [] matched event = skip
  dispatch_to (rule ∷ rules) matched event =
      let rest = dispatch_to rules matched event in
      if watches rule matched
      then (handle (lenient time_aggregations rule.time_aggregation) rule matched event >> rest)
      else rest

  unfoldable pub dispatch : EventPayload → Act S (Unit {0})
  unfolding alert_event candidate_rules dispatch_to
  dispatch event = elim (alert_event event) [
    | none ↦ skip
    | some matched ↦ dispatch_to (candidate_rules matched.scope (identity_of event)) matched event
  ]

  unfoldable pub send_closed : Window → ℕ → AlertRule → Option LimitScope → Act S (Unit {0})
  unfolding send window_end
  send_closed w count rule none = raise
  send_closed w count rule (some scope) =
      send d rule (record { key = rule.event; scope = scope }) w.target (window_end w)
        ((text "Events", decimal count)
          ∷ (text "Window", d.format_time w.start ++ (text " → " ++ d.format_time (window_end w)))
          ∷ [])
        count (some w.start) (some (window_end w))

  -- Whether a rule still closes the window.
  unfoldable pub on_window : Window → AlertRule → Bool
  unfolding column_eq size_value
  on_window w rule = not (
      not rule.enabled
      || (not (text_eq rule.time_aggregation (text "window"))
          || not (column_eq rule.window_size (size_value w.size))))

  unfoldable pub close_for : Window → ℕ → Option AlertRule → Act S (Unit {0})
  unfolding on_window send_closed lenient scopes
  close_for w count none = skip
  close_for w count (some rule) =
      if on_window w rule then send_closed w count rule (lenient scopes rule.scope) else skip

  unfoldable pub close_by : Window → ℕ → Option Text → Act S (Unit {0})
  unfolding close_for get_by_uuid
  close_by w count none = raise
  close_by w count (some uuid) = close_for w count (get_by_uuid d.table uuid)

  unfoldable pub close_counted : Window → ℕ → Act S (Unit {0})
  unfolding close_by
  close_counted w count = if count == 0 then skip else close_by w count (d.parse_uuid w.rule_uuid)

  unfoldable pub close_claimed : Window → Bool → Act S (Unit {0})
  unfolding close_counted counter_key
  close_claimed w false = skip
  close_claimed w true = do count ← lift (d.store.take (counter_key w)); close_counted w count

  -- `_close_window`
  unfoldable pub close_window : Window → Act S (Unit {0})
  unfolding close_claimed closed_key window_seconds
  close_window w = do
    claimed ← lift (d.store.claim (closed_key w) (window_seconds w.size + window_grace_seconds))
    close_claimed w claimed

  unfoldable pub close_decoded : Option Window → Act S (Unit {0})
  unfolding close_window
  close_decoded none = raise
  close_decoded (some w) = close_window w

  unfoldable pub close_all : List Text → Act S (Unit {0})
  unfolding close_decoded decode caught
  close_all [] = skip
  close_all (member ∷ members) = do
    found ← lift (d.store.close_window member)
    caught (close_decoded (decode d member))
    close_all members

  -- `close_windows`
  unfoldable pub close_windows : Act S (Unit {0})
  unfolding now close_all
  close_windows = do at ← now d; members ← lift (d.store.windows_due at); close_all members
