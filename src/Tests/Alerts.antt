-- ===== src/Tests/Alerts.antt =====
-- The buffer of events and the alerts at concrete inputs: a rule on the five minutes from second 900,
-- and one on the windows of a limit.
use radicalbit_ai_gateway.Prelude.{
  ℕ, ◌+◌, ◌≤◌, ◌≡◌, refl, Bool, true, false, none, some, [], ◌∷◌, Text, text, text_eq, arith,
  length, decimal, ◌==◌,
}
use radicalbit_ai_gateway.Prelude.Dict.{lookup, insert, remove}
use radicalbit_ai_gateway.Limiter.Machine.{Env, read_clock}
use radicalbit_ai_gateway.Limiting.World.{RequestIdentity, route, LimitEventPayload, budget_limit}
use radicalbit_ai_gateway.Alerting.Names.{
  rate_limit, exceeded_event, threshold_event, parse_limit_event, window_name,
}
use radicalbit_ai_gateway.Alerting.Names.RoundTrip.{parse_limit_event-names}
use radicalbit_ai_gateway.Alerting.Store.{Claims}
use radicalbit_ai_gateway.Alerting.Store.InProcess.{
  AlertData, in_process, claim, increment, take, open_window,
}
use radicalbit_ai_gateway.Alerting.Store.InProcess.Laws.{
  in_process-IsAlertStore, values_of, claim-Claims,
}
use radicalbit_ai_gateway.Alerting.Rules.{
  AlertRule, AlertEvent, limit_event, five_minutes, malformed, recipients_of, get_by_uuid, lenient,
  scopes,
}
use radicalbit_ai_gateway.Alerting.Rules.{alert_event}
use radicalbit_ai_gateway.Alerting.Rules.Limits.{limit_events_named}
use radicalbit_ai_gateway.Alerting.Names.{category_of}
use radicalbit_ai_gateway.Limiter.Base.{WindowStats}
use radicalbit_ai_gateway.Limiting.Event as Event
use radicalbit_ai_gateway.Limiting.Room.{block_event}
use radicalbit_ai_gateway.Tests.{two_a_minute}
use radicalbit_ai_gateway.Alerting.World.{World}
use radicalbit_ai_gateway.Alerting.Handlers.{
  Dispatcher, Window, containing, limit_claim_key, size_of, window_end, send_once, now,
  count_in_window, counter_key, closed_key,
}
use radicalbit_ai_gateway.Alerting.Dispatch.{close_window, on_window}
use radicalbit_ai_gateway.Alerting.Dispatch.Once.{
  send_each, at_most_one_per_limit_window, exactly_one_per_limit_window,
}
use radicalbit_ai_gateway.Alerting.Dispatch.Closing.{Alerts, window_alert}
use radicalbit_ai_gateway.Alerting.Dispatch.Life.{count_each, window_alerts_once}
use radicalbit_ai_gateway.Events.Buffer.{CeleryBuffer, add_locked}
use radicalbit_ai_gateway.Events.Buffer.Sequential.{
  Delivery, add, on_timer, flush, close, contents, calls_in_order,
}
use radicalbit_ai_gateway.Events.Buffer.Threads.{
  System, Run, Step, locked, nothing_lost, held, total,
}
use radicalbit_ai_gateway.Tests.{ticking}

abbrev rule : AlertRule
rule = record {
  uuid = text "u";
  name = text "n";
  description = none;
  scope = text "route";
  project = some (text "p");
  route = some (text "r");
  credential_uuid = none;
  event = text "budget_limit-exceeded-1h";
  time_aggregation = text "window";
  window_size = some (text "5m");
  channel = text "email";
  recipients = text "a@b.c";
  enabled = true;
  deleted = false;
}

abbrev caller : RequestIdentity
caller = record {
  request_uuid = text "q";
  route_name = text "r";
  api_key_uuid = text "k";
  api_key_name = text "key";
  group_uuid = text "g";
  group_name = text "group";
  project_uuid = text "p";
  project_name = text "project";
}

abbrev over_budget : LimitEventPayload
over_budget = record {
  identity = caller;
  event_type = budget_limit;
  value = 1;
  threshold_percentage = none;
  limit = record {
    limit_scope = route;
    category = text "budget";
    window_seconds = 3600;
    maximum = record { units = 10; divisor = 1 };
    consumption = record { units = 10; divisor = 1 };
    reset_time = 3600;
    window_id = some (text "w");
  };
}

abbrev matched : AlertEvent
matched = record { key = text "budget_limit-exceeded-1h"; scope = route }

-- The windows are not read back in these examples.
abbrev dispatcher : Dispatcher AlertData
dispatcher = record {
  env = ticking;
  store = in_process ticking;
  table = rule ∷ [];
  delivers = λ n. true;
  loads = λ s. malformed;
  split_parts = λ s. s ∷ [];
  dumps = λ e. e.start ∷ [];
  loads_window = λ s. none;
  parse_uuid = λ s. some s;
  format_time = decimal;
  format_quantity = λ a. decimal a.units;
}

abbrev start : World AlertData
start = record {
  machine = record {
    store = record { values = []; open_windows = [] };
    clock = 1000;
    reads = 0;
    issued = 0;
  };
  mails = [];
  messages = 0;
  alerts = [];
}

claim-Claims_example :
    Claims values_of (text "k") 60 start.machine (claim ticking (text "k") 60 start.machine)
claim-Claims_example = claim-Claims ticking (text "k") start.machine 60

-- A limit's window that is open for hours, and a clock that moves 1500 seconds at each reading.
abbrev slow : Env
slow = record { delay = λ n. 1500; uuid4 = λ n. n ∷ [] }

abbrev hours_left : LimitEventPayload
hours_left = record over_budget { limit = record over_budget.limit { reset_time = 9000 } }

abbrev slow_dispatcher : Dispatcher AlertData
slow_dispatcher = record dispatcher { env = slow; store = in_process slow }

exactly_one_per_limit_window_example :
    length
      (send_each slow_dispatcher rule
        ((matched, hours_left) ∷ ((matched, hours_left) ∷ []))
        start).alerts
    ≡ 1
unfolding send_each send_once now read_clock claim recipients_of limit_claim_key lookup insert
    text_eq
exactly_one_per_limit_window_example =
    exactly_one_per_limit_window slow_dispatcher rule (some (text "w")) 9000
      (in_process-IsAlertStore slow) (text "a@b.c" ∷ []) refl matched hours_left
      ((matched, hours_left) ∷ []) start ((refl, refl), ((refl, refl), tt)) (λ t h. refl)
      (omega arith)

at_most_one_per_limit_window_example :
    length
      (send_each slow_dispatcher rule
        ((matched, hours_left) ∷ ((matched, hours_left) ∷ []))
        start).alerts
    ≤ 1
unfolding send_each send_once now read_clock claim recipients_of limit_claim_key lookup insert
    text_eq
at_most_one_per_limit_window_example =
    at_most_one_per_limit_window slow_dispatcher rule (some (text "w")) 9000
      (in_process-IsAlertStore slow) (text "a@b.c" ∷ []) refl
      ((matched, hours_left) ∷ ((matched, hours_left) ∷ [])) start
      ((refl, refl), ((refl, refl), tt)) (omega arith)

abbrev window_of_rule : Window
window_of_rule = containing (text "u") five_minutes 1000 (text "t")

rule_alerts :
    Alerts dispatcher
      (in_process-IsAlertStore ticking)
      window_of_rule
      rule
      route
      (text "a@b.c" ∷ [])
unfolding containing get_by_uuid text_eq on_window lenient scopes recipients_of
rule_alerts = record {
  uuid = text "u";
  parsed = refl;
  found = refl;
  on = refl;
  scoped = refl;
  readable = refl;
}

window_alerts_once_example :
    (close_window dispatcher window_of_rule
      (close_window dispatcher window_of_rule (
        count_each dispatcher rule
          ((matched, limit_event over_budget) ∷ ((matched, limit_event over_budget) ∷ []))
          start)).1).1.alerts
    ≡ window_alert dispatcher
        (in_process-IsAlertStore ticking)
        window_of_rule
        rule
        route
        (text "a@b.c" ∷ [])
        rule_alerts
        2
        0
      ∷ []
unfolding count_each count_in_window containing read_clock lookup insert close_window get_by_uuid
    text_eq on_window lenient scopes recipients_of size_of window_end counter_key closed_key
    increment take claim open_window decimal remove
window_alerts_once_example =
    window_alerts_once dispatcher (in_process-IsAlertStore ticking) rule five_minutes 1000
      (text "t") refl route (text "a@b.c" ∷ []) (matched, limit_event over_budget)
      ((matched, limit_event over_budget) ∷ []) start rule_alerts (λ t a b. refl) (λ t a. refl)
      (omega arith) (omega arith) (omega arith)

abbrev one_waiting : CeleryBuffer ℕ
one_waiting = record { buffer = 5 ∷ []; timer = true; closed = false; batch_size = 2 }

-- A broker that takes the first batch only.
abbrev flaky : ℕ → Bool
flaky n = n == 0

abbrev delivery : Delivery ℕ
delivery = record { state = one_waiting; sent = []; attempts = 1 }

calls_in_order_example :
    (contents flaky (add flaky 7 delivery) ≡ 5 ∷ 7 ∷ [])
    × (contents flaky (on_timer flaky delivery) ≡ 5 ∷ [])
    × (contents flaky (flush flaky delivery) ≡ 5 ∷ [])
    × (contents flaky (close flaky delivery) ≡ 5 ∷ [])
calls_in_order_example = calls_in_order flaky 7 delivery

abbrev quiet : System ℕ
quiet = record { state = one_waiting; entering = []; firing = 0; in_flight = []; sent = [] }

abbrev entered : System ℕ
entered = record quiet { entering = 7 ∷ [] }

abbrev appended : System ℕ
appended = locked (record entered { entering = [] }) (add_locked 7 one_waiting)

abbrev one_added : Run quiet (7 ∷ []) appended
one_added = Run.next (Run.next Run.start (Step.enter 7 refl)) (Step.append [] 7 [] refl)

nothing_lost_example : held (λ x. x) appended ≡ held (λ x. x) quiet + total (λ x. x) (7 ∷ [])
nothing_lost_example = nothing_lost (λ x. x) one_added

parse_limit_event-names_example :
    (w : Text) × (exceeded : Text) × (threshold : Text) × (window_name 3600 ≡ some w)
    × (exceeded_event rate_limit 3600 ≡ some exceeded)
    × (threshold_event rate_limit 80 3600 ≡ some threshold)
    × (parse_limit_event exceeded
        ≡ some (record { category = rate_limit; window = w; percentage = none }))
    × (parse_limit_event threshold
        ≡ some (record { category = rate_limit; window = w; percentage = some 80 }))
parse_limit_event-names_example = parse_limit_event-names rate_limit 80 3600

abbrev no_stats : WindowStats
no_stats = record {
  remaining = 0;
  reset_time = 1020;
  window_id = none;
  remaining_time = 20;
  consumed = 2;
}

limit_events_named_example :
    (w : Text) × (exceeded : Text) × (threshold : Text) × (window_name 60 ≡ some w)
    × (alert_event (limit_event (block_event budget_limit route caller two_a_minute no_stats))
        ≡ some (record { key = exceeded; scope = route }))
    × (alert_event (limit_event (Event.threshold_event route two_a_minute caller no_stats 80))
        ≡ some (record { key = threshold; scope = route }))
    × (parse_limit_event exceeded
        ≡ some (record { category = rate_limit; window = w; percentage = none }))
    × (parse_limit_event threshold
        ≡ some (record { category = rate_limit; window = w; percentage = some 80 }))
unfolding category_of
limit_events_named_example = limit_events_named route two_a_minute caller no_stats budget_limit 80
