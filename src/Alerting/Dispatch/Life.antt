-- ===== src/Alerting/Dispatch/Life.antt =====
-- alerting/alert_dispatch.py: the life of one window, from its first event to the alert.
use radicalbit_ai_gateway.Prelude.{
  ℕ, suc, ◌+◌, ◌≤◌, ◌<◌, ◌≡◌, refl, ap, ◌∙◌, some, List, [], ◌∷◌, ◌++◌, Text, arith, length,
}
use radicalbit_ai_gateway.Limiting.World.{LimitScope}
use radicalbit_ai_gateway.Alerting.Store.{IsAlertStore}
use radicalbit_ai_gateway.Alerting.Rules.{AlertRule, AlertRuleWindowSize, AlertEvent, EventPayload}
use radicalbit_ai_gateway.Alerting.World.{World}
use radicalbit_ai_gateway.Alerting.Handlers.{
  Dispatcher, Window, containing, window_end, count_in_window, size_of, window_grace_seconds,
}
use radicalbit_ai_gateway.Alerting.Dispatch.{close_window}
use radicalbit_ai_gateway.Alerting.Dispatch.Counts.{
  Counted, Unclosed, count_lem, count_in_window-clock,
}
use radicalbit_ai_gateway.Alerting.Dispatch.Closing.{Alerts, window_alert, close_twice}

-- The events of a rule on windows, one after another.
unfoldable pub count_each :
    {S : Type 0} → Dispatcher S → AlertRule → List (AlertEvent × EventPayload) → World S → World S
unfolding count_in_window
count_each d rule [] w = w
count_each d rule ((matched, event) ∷ events) w =
    count_each d rule events (count_in_window d rule matched event w).1

none_more : (n : ℕ) → n ≡ 0 + n
none_more n = omega arith

module _ {S : Type 0} (d : Dispatcher S) (law : IsAlertStore d.store) (rule : AlertRule)
    (size : AlertRuleWindowSize) (at : ℕ) (target : Text) where
  abbrev win : Window
  win = containing rule.uuid size at target

  record Total (n : ℕ) (w r : World S) : Type 0 where
    later : w.clock ≤ r.clock
    counted : Counted d law win n r
    unclosed : Unclosed d law win r
    alerts : r.alerts ≡ w.alerts

  module _ (sized : size_of d rule.window_size ≡ some size) where
    count_each-clock :
        (events : List (AlertEvent × EventPayload)) (w : World S)
        → w.clock ≤ (count_each d rule events w).clock
    unfolding count_each
    count_each-clock [] w = omega arith
    count_each-clock ((matched, event) ∷ events) w = omega (
      arith,
      count_in_window-clock d law rule size at target w matched event sized,
      count_each-clock events (count_in_window d rule matched event w).1,
    )

    count_each-Total :
        (n : ℕ) (events : List (AlertEvent × EventPayload)) (w : World S)
        → Counted d law win n w
        → Unclosed d law win w
        → win.start ≤ w.clock
        → (count_each d rule events w).clock < window_end win
        → Total (length events + n) w (count_each d rule events w)
    unfolding count_each
    count_each-Total n [] w counted unclosed started before = record {
      later = omega arith;
      counted = λ t a b. counted t a b ∙ none_more n;
      unclosed = unclosed;
      alerts = refl;
    }
    count_each-Total n ((matched, event) ∷ events) w counted unclosed started before =
        let w2 = (count_in_window d rule matched event w).1 in
        let one =
          count_lem d law rule size at target n w matched event sized counted unclosed started
            (omega (arith, before, count_each-clock events w2)) in
        let rest =
          count_each-Total (suc n) events w2 one.counted one.unclosed
            (omega (arith, started, one.later)) before in
        let sum : length events + suc n ≡ suc (length events) + n = omega arith in
        record {
          later = omega (arith, one.later, rest.later);
          counted = λ t a b. rest.counted t a b ∙ sum;
          unclosed = rest.unclosed;
          alerts = rest.alerts ∙ one.alerts;
        }

    -- A tumbling window of a rule that is still enabled on it, not closed before and with nothing
    -- counted yet, gets one alert, with the number of its events, when the events, one at least,
    -- are counted before its end and it is closed twice within the grace: the first closing sends
    -- it and the second sends nothing.
    pub window_alerts_once :
        (scope : LimitScope) (rs : List Text) (p : AlertEvent × EventPayload)
        (events : List (AlertEvent × EventPayload)) (w : World S)
        (h : Alerts d law win rule scope rs)
        → Counted d law win 0 w
        → Unclosed d law win w
        → win.start ≤ w.clock
        → (count_each d rule (p ∷ events) w).clock < window_end win
        → (close_window d win (close_window d win (count_each d rule (p ∷ events) w)).1).1.clock
          < window_end win + window_grace_seconds
        → (close_window d win (close_window d win (count_each d rule (p ∷ events) w)).1).1.alerts
          ≡ w.alerts
            ++ (window_alert d law win rule scope rs h
                  (length (p ∷ events))
                  (count_each d rule (p ∷ events) w).messages
                ∷ [])
    window_alerts_once scope rs p events w h counted unclosed started before after =
        let r = count_each d rule (p ∷ events) w in
        let total = count_each-Total 0 (p ∷ events) w counted unclosed started before in
        let number : length (p ∷ events) + 0 ≡ length (p ∷ events) = omega arith in
        close_twice d law win rule scope rs h (length events) r
          (λ t a b. total.counted t a b ∙ number) total.unclosed
          (omega (arith, started, total.later)) after
        ∙ ap
            (λ l.
              l ++ (window_alert d law win rule scope rs h (length (p ∷ events)) r.messages ∷ []))
            total.alerts
