-- ===== src/Alerting/Handlers.antt =====
-- alerting/alert_dispatch.py: `_Window` and the handlers of the time aggregations. A time is a count of
-- whole seconds since 1970.
use radicalbit_ai_gateway.Prelude.{
  ℕ, ◌+◌, ◌-◌, ◌*◌, ◌/◌, Bool, true, false, Option, none, some, List, [], ◌∷◌, ◌++◌, Text, text,
  decimal, if◌then◌else◌,
}
use radicalbit_ai_gateway.Limiter.Machine.{Env, read_clock}
use radicalbit_ai_gateway.Limiting.World.{Amount, LimitEventPayload}
use radicalbit_ai_gateway.Alerting.Store.{AlertStore}
use radicalbit_ai_gateway.Alerting.Rules.{
  AlertRuleWindowSize, five_minutes, fifteen_minutes, one_hour, six_hours, one_day, lenient,
  scope_value, window_sizes, size_value, AlertRule, Loaded, recipients_of, EventPayload,
  limit_event, guardrail_event, fallback_event, other_event, identity_of, AlertEvent, target_of,
  instant_details,
}
use radicalbit_ai_gateway.Alerting.World.{
  Alert, sent, failed, Act, ◌>>=◌, raise, skip, lift, send_email, emit_alert,
}

unfoldable pub window_seconds : AlertRuleWindowSize → ℕ
window_seconds five_minutes = 300
window_seconds fifteen_minutes = 900
window_seconds one_hour = 3600
window_seconds six_hours = 21600
window_seconds one_day = 86400

-- `_WINDOW_GRACE_SECONDS` and `_LIMIT_WINDOW_MARGIN_SECONDS`
abbrev pub window_grace_seconds : ℕ
window_grace_seconds = 3600

abbrev pub limit_window_margin_seconds : ℕ
limit_window_margin_seconds = 3600

-- `_Window`
pub record Window : Type 0 where
  pub rule_uuid : Text
  pub size : AlertRuleWindowSize
  pub start : ℕ
  pub target : Text

-- The object that `encode` gives to `json.dumps`.
pub record Encoded : Type 0 where
  pub rule : Text
  pub size : Text
  pub start : ℕ
  pub target : Text

-- `_Window.containing`
unfoldable pub containing : Text → AlertRuleWindowSize → ℕ → Text → Window
unfolding window_seconds
containing rule_uuid size at target = record {
  rule_uuid = rule_uuid;
  size = size;
  start = at / window_seconds size * window_seconds size;
  target = target;
}

unfoldable pub window_end : Window → ℕ
unfolding window_seconds
window_end w = w.start + window_seconds w.size

unfoldable pub counter_key : Window → Text
unfolding size_value
counter_key w =
    text "alert:window:"
    ++ (w.rule_uuid ++ (text ":" ++ (size_value w.size ++ (text ":" ++ decimal w.start))))

unfoldable pub closed_key : Window → Text
unfolding counter_key
closed_key w = counter_key w ++ text ":closed"

-- What the dispatcher is given, and the libraries that it calls.
pub record Dispatcher (S : Type 0) : Type 0 where
  pub env : Env
  pub store : AlertStore S
  -- the rows of the table of rules
  pub table : List AlertRule
  -- whether the SMTP server takes the n-th message
  pub delivers : ℕ → Bool
  -- `json.loads` and `split` on the recipients of a rule
  pub loads : Text → Loaded
  pub split_parts : Text → List Text
  -- `json.dumps` and `json.loads` on a window
  pub dumps : Encoded → Text
  pub loads_window : Text → Option Encoded
  -- `str(UUID(s))`
  pub parse_uuid : Text → Option Text
  -- `strftime(_TIME_FORMAT)` and `_format_quantity`
  pub format_time : ℕ → Text
  pub format_quantity : Amount → Text

-- `event.window_id or str(event.reset_time)`
unfoldable pub window_or_reset : Option Text → ℕ → Text
window_or_reset none reset_time = decimal reset_time
window_or_reset (some []) reset_time = decimal reset_time
window_or_reset (some (c ∷ s)) reset_time = c ∷ s

unfoldable pub limit_claim_key : AlertRule → LimitEventPayload → Text
unfolding window_or_reset
limit_claim_key rule event =
    text "alert:limit:"
    ++ (rule.uuid ++ (text ":" ++ window_or_reset event.limit.window_id event.limit.reset_time))

module _ {S : Type 0} (d : Dispatcher S) where
  unfoldable pub encode : Window → Text
  unfolding size_value
  encode w =
      d.dumps (record {
        rule = w.rule_uuid;
        size = size_value w.size;
        start = w.start;
        target = w.target;
      })

  unfoldable pub decoded : Option Encoded → Option Window
  unfolding lenient window_sizes
  decoded none = none
  decoded (some e) = elim (lenient window_sizes e.size) [
    | none ↦ none
    | some size ↦
        some (record { rule_uuid = e.rule; size = size; start = e.start; target = e.target })
  ]

  unfoldable pub decode : Text → Option Window
  unfolding decoded
  decode member = decoded (d.loads_window member)

  -- `self._store.now()`
  unfoldable pub now : Act S ℕ
  unfolding read_clock
  now = lift (read_clock d.env)

  percentage_details : Option ℕ → List (Text × Text)
  percentage_details none = []
  percentage_details (some p) = (text "Threshold", decimal p ++ text "%") ∷ []

  -- `_limit_details`
  unfoldable pub limit_details : LimitEventPayload → List (Text × Text)
  unfolding percentage_details
  limit_details event =
      (text "Consumption", d.format_quantity event.limit.consumption)
      ∷ (text "Maximum", d.format_quantity event.limit.maximum)
      ∷ (percentage_details event.threshold_percentage
          ++ ((text "Reset time", d.format_time event.limit.reset_time) ∷ []))

  -- What `_send` passes to `emit_alert`, once it knows whether the message was taken.
  abbrev pub alert_of : AlertRule → AlertEvent → ℕ → Option ℕ → Option ℕ → Bool → Alert
  alert_of rule matched count window_start window_end delivered = record {
    rule_uuid = rule.uuid;
    rule_name = rule.name;
    scope = scope_value matched.scope;
    project_uuid = rule.project;
    route_name = rule.route;
    credential_uuid = rule.credential_uuid;
    event = matched.key;
    aggregation = rule.time_aggregation;
    status = if delivered then sent else failed;
    count = count;
    window_start = window_start;
    window_end = window_end;
  }

  unfoldable pub send_to :
      AlertRule
      → AlertEvent
      → Text
      → ℕ
      → List (Text × Text)
      → ℕ
      → Option ℕ
      → Option ℕ
      → Option (List Text)
      → Act S (Unit {0})
  unfolding send_email scope_value
  send_to rule matched target time details count window_start window_end none = raise
  send_to rule matched target time details count window_start window_end (some recipients) = do
    delivered ←
        send_email d.delivers recipients
          (text "[Alert] "
            ++ (rule.name ++ (text ": " ++ (matched.key ++ (text " on " ++ target)))))
          (record {
            rule_name = rule.name;
            description = rule.description;
            scope = scope_value matched.scope;
            target = target;
            event = matched.key;
            time = time;
            details = details;
          })
    emit_alert (alert_of rule matched count window_start window_end delivered)

  -- `_send`
  unfoldable pub send :
      AlertRule
      → AlertEvent
      → Text
      → ℕ
      → List (Text × Text)
      → ℕ
      → Option ℕ
      → Option ℕ
      → Act S (Unit {0})
  unfolding send_to recipients_of
  send rule matched target time details count window_start window_end =
      send_to rule matched target time details count window_start window_end
        (recipients_of d.loads d.split_parts rule)

  -- `_send_instant`
  unfoldable pub send_instant : AlertRule → AlertEvent → EventPayload → Act S (Unit {0})
  unfolding now send target_of instant_details
  send_instant rule matched event = do
    time ← now
    send rule matched (target_of matched.scope (identity_of event)) time (instant_details event) 1
        none none

  unfoldable pub send_claimed : AlertRule → AlertEvent → LimitEventPayload → Bool → Act S (Unit {0})
  unfolding now send target_of limit_details
  send_claimed rule matched event false = skip
  send_claimed rule matched event true = do
    time ← now
    send rule matched (target_of matched.scope event.identity) time (limit_details event) 1
        (some (event.limit.reset_time - event.limit.window_seconds)) (some event.limit.reset_time)

  -- `_send_once_per_limit_window` of a limit's event. The start of the window is at least 0.
  unfoldable pub send_once : AlertRule → AlertEvent → LimitEventPayload → Act S (Unit {0})
  unfolding now send_claimed limit_claim_key
  send_once rule matched event = do
    time ← now
    claimed ← lift (
        d.store.claim (limit_claim_key rule event)
          ((event.limit.reset_time - time) + limit_window_margin_seconds))
    send_claimed rule matched event claimed

  unfoldable pub send_once_per_limit_window :
      AlertRule → AlertEvent → EventPayload → Act S (Unit {0})
  unfolding send_once
  send_once_per_limit_window rule matched (limit_event event) = send_once rule matched event
  send_once_per_limit_window rule matched (guardrail_event identity name type place behavior) = skip
  send_once_per_limit_window rule matched (fallback_event identity target fallback) = skip
  send_once_per_limit_window rule matched (other_event identity) = skip

  unfoldable pub register : Window → Act S (Unit {0})
  unfolding counter_key window_end encode
  register w = do
    count ← lift (d.store.increment (counter_key w) (window_seconds w.size + window_grace_seconds))
    lift (d.store.open_window (encode w) (window_end w))

  unfoldable pub count_in : AlertRule → AlertRuleWindowSize → Text → Act S (Unit {0})
  unfolding now containing register
  count_in rule size target = do at ← now; register (containing rule.uuid size at target)

  -- `AlertRuleWindowSize(rule.window_size)`
  unfoldable pub size_of : Option Text → Option AlertRuleWindowSize
  unfolding lenient window_sizes
  size_of none = none
  size_of (some s) = lenient window_sizes s

  -- `_count_in_window`
  unfoldable pub count_in_window : AlertRule → AlertEvent → EventPayload → Act S (Unit {0})
  unfolding size_of count_in target_of
  count_in_window rule matched event = elim (size_of rule.window_size) [
    | none ↦ skip
    | some size ↦ count_in rule size (target_of matched.scope (identity_of event))
  ]
