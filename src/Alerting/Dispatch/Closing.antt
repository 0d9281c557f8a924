-- ===== src/Alerting/Dispatch/Closing.antt =====
-- alerting/alert_dispatch.py: `_close_window` of a window that counted events.
use radicalbit_ai_gateway.Prelude.{
  ℕ, zero, suc, ◌+◌, ◌≤◌, ◌<◌, ◌≡◌, refl, ap, ◌∙◌, Bool, true, false, some, List, [], ◌∷◌, ◌++◌,
  Text, arith,
}
use radicalbit_ai_gateway.Limiting.World.{LimitScope}
use radicalbit_ai_gateway.Alerting.Store.{IsAlertStore, Claims, Takes, live, is_none, or_zero}
use radicalbit_ai_gateway.Alerting.Rules.{AlertRule, recipients_of, get_by_uuid, lenient, scopes}
use radicalbit_ai_gateway.Alerting.World.{Alert, World}
use radicalbit_ai_gateway.Alerting.Handlers.{
  Dispatcher, Window, window_seconds, window_end, counter_key, closed_key, alert_of,
  window_grace_seconds,
}
use radicalbit_ai_gateway.Alerting.Dispatch.{
  close_window, close_claimed, close_counted, close_by, close_for, send_closed, on_window,
}
use radicalbit_ai_gateway.Alerting.Dispatch.Counts.{
  Counted, Unclosed, Closed, counter-closed, closed-counter, live_until, not_zero,
}
use radicalbit_ai_gateway.Alerting.Dispatch.Sends.{send-machine, send-alerts, taken}

module _ {S : Type 0} (d : Dispatcher S) (law : IsAlertStore d.store) (win : Window) where
  -- The rule is still in the table, enabled and on this window, and can be read.
  pub record Alerts (rule : AlertRule) (scope : LimitScope) (rs : List Text) : Type 0 where
    pub uuid : Text
    pub parsed : d.parse_uuid win.rule_uuid ≡ some uuid
    pub found : get_by_uuid d.table uuid ≡ some rule
    pub on : on_window d win rule ≡ true
    pub scoped : lenient scopes rule.scope ≡ some scope
    pub readable : recipients_of d.loads d.split_parts rule ≡ some rs

  module _ (rule : AlertRule) (scope : LimitScope) (rs : List Text) (h : Alerts rule scope rs) where
    -- The alert of a window with `n` events.
    abbrev pub window_alert : ℕ → ℕ → Alert
    window_alert n messages =
        alert_of d rule (record { key = rule.event; scope = scope }) n (some win.start)
          (some (window_end win)) (taken d.delivers rs messages)

    close_counted-machine :
        (count : ℕ) (w : World S) → (close_counted d win count w).1.machine ≡ w.machine
    unfolding close_counted close_by close_for send_closed
    close_counted-machine zero w = refl
    close_counted-machine (suc n) w =
        rw (not_zero n, h.parsed, h.found, h.on, h.scoped)
          (send-machine d rule rs h.readable _ _ _ _ (suc n) _ _ w)

    close_counted-alerts :
        (count n : ℕ) (w : World S)
        → count ≡ suc n
        → (close_counted d win count w).1.alerts
          ≡ w.alerts ++ (window_alert (suc n) w.messages ∷ [])
    unfolding close_counted close_by close_for send_closed
    close_counted-alerts count n w e =
        rw (e, not_zero n, h.parsed, h.found, h.on, h.scoped)
          (send-alerts d rule rs h.readable _ _ _ _ (suc n) _ _ w)

    close_claimed-clock : (b : Bool) (w : World S) → w.clock ≤ (close_claimed d win b w).1.clock
    unfolding close_claimed
    close_claimed-clock false w = omega arith
    close_claimed-clock true w =
        let law_c = law.take_lem (counter_key win) w.machine in
        let c = d.store.take (counter_key win) w.machine in
        let same = close_counted-machine c.0 (record w { machine = c.1 }) in
        omega (arith, law_c.started, law_c.later, ap (λ m. m.clock) same)

    close_claimed-mark :
        (b : Bool) (w : World S) (t : ℕ)
        → (close_claimed d win b w).1.clock ≤ t
        → live t (law.values (close_claimed d win b w).1.store (closed_key win))
          ≡ live t (law.values w.store (closed_key win))
    unfolding close_claimed
    close_claimed-mark false w t a = refl
    close_claimed-mark true w t a =
        let c = d.store.take (counter_key win) w.machine in
        let law_c = law.take_lem (counter_key win) w.machine in
        let same = close_counted-machine c.0 (record w { machine = c.1 }) in
        ap (λ m. live t (law.values m.store (closed_key win))) same
        ∙ law_c.others t (closed_key win) (omega (arith, a, ap (λ m. m.clock) same))
            (counter-closed win)

    close_claimed-skips :
        (b : Bool) (w : World S) → b ≡ false → (close_claimed d win b w).1.alerts ≡ w.alerts
    unfolding close_claimed
    close_claimed-skips false w e = refl
    close_claimed-skips true w e = cc

    close_claimed-alerts :
        (b : Bool) (n : ℕ) (w : World S)
        → b ≡ true
        → Counted d law win (suc n) w
        → (close_claimed d win b w).1.clock < window_end win + window_grace_seconds
        → (close_claimed d win b w).1.alerts ≡ w.alerts ++ (window_alert (suc n) w.messages ∷ [])
    unfolding close_claimed
    close_claimed-alerts false n w e counted before = cc
    close_claimed-alerts true n w e counted before =
        let c = d.store.take (counter_key win) w.machine in
        let law_c : Takes law.values (counter_key win) w.machine c =
          law.take_lem (counter_key win) w.machine in
        let w2 : World S = record w { machine = c.1 } in
        close_counted-alerts c.0 n w2 (
          law_c.reply
          ∙ counted law_c.at law_c.started (
              omega (arith, law_c.later, before, ap (λ m. m.clock) (close_counted-machine c.0 w2))))

    -- A window that counted events and has not been closed gets one alert, with their number.
    pub close_window-alerts :
        (n : ℕ) (w : World S)
        → Counted d law win (suc n) w
        → Unclosed d law win w
        → (close_window d win w).1.clock < window_end win + window_grace_seconds
        → (close_window d win w).1.alerts ≡ w.alerts ++ (window_alert (suc n) w.messages ∷ [])
    unfolding close_window
    close_window-alerts n w counted unclosed before =
        let ttl = window_seconds win.size + window_grace_seconds in
        let c = d.store.claim (closed_key win) ttl w.machine in
        let law_c : Claims law.values (closed_key win) ttl w.machine c =
          law.claim_lem (closed_key win) ttl w.machine in
        let w2 : World S = record w { machine = c.1 } in
        close_claimed-alerts c.0 n w2 (law_c.reply ∙ unclosed law_c.at law_c.started)
          (λ t a b.
            ap or_zero (law_c.others t (counter_key win) a (closed-counter win))
            ∙ counted t (omega (arith, a, law_c.started, law_c.later)) b)
          before

    -- The mark of a closed window outlives the window.
    close_window-Closed :
        (until : ℕ) (w : World S)
        → until ≤ w.clock + window_seconds win.size + window_grace_seconds
        → Unclosed d law win w
        → Closed d law win until (close_window d win w).1
    unfolding close_window
    close_window-Closed until w near unclosed t a b =
        let ttl = window_seconds win.size + window_grace_seconds in
        let c = d.store.claim (closed_key win) ttl w.machine in
        let law_c : Claims law.values (closed_key win) ttl w.machine c =
          law.claim_lem (closed_key win) ttl w.machine in
        let w2 : World S = record w { machine = c.1 } in
        let after = close_claimed-clock c.0 w2 in
        ap is_none (
          close_claimed-mark c.0 w2 t a
          ∙ law_c.taken (law_c.reply ∙ unclosed law_c.at law_c.started) t (omega (arith, a, after)))
        ∙ live_until t (c.1.clock + ttl) (omega (arith, near, b, law_c.started, law_c.later))

    -- A closed window gets no further alert.
    close_window-Closed-alerts :
        (until : ℕ) (w : World S)
        → Closed d law win until w
        → (close_window d win w).1.clock < until
        → (close_window d win w).1.alerts ≡ w.alerts
    unfolding close_window
    close_window-Closed-alerts until w closed before =
        let ttl = window_seconds win.size + window_grace_seconds in
        let c = d.store.claim (closed_key win) ttl w.machine in
        let law_c : Claims law.values (closed_key win) ttl w.machine c =
          law.claim_lem (closed_key win) ttl w.machine in
        let w2 : World S = record w { machine = c.1 } in
        close_claimed-skips c.0 w2 (
          law_c.reply
          ∙ closed law_c.at law_c.started
              (omega (arith, law_c.later, close_claimed-clock c.0 w2, before)))

    close_window-clock : (w : World S) → w.clock ≤ (close_window d win w).1.clock
    unfolding close_window
    close_window-clock w =
        let ttl = window_seconds win.size + window_grace_seconds in
        let c = d.store.claim (closed_key win) ttl w.machine in
        let law_c = law.claim_lem (closed_key win) ttl w.machine in
        omega
          (arith, law_c.started, law_c.later, close_claimed-clock c.0 (record w { machine = c.1 }))

    -- Closing a window with events twice sends its alert once.
    pub close_twice :
        (n : ℕ) (w : World S)
        → Counted d law win (suc n) w
        → Unclosed d law win w
        → win.start ≤ w.clock
        → (close_window d win (close_window d win w).1).1.clock
          < window_end win + window_grace_seconds
        → (close_window d win (close_window d win w).1).1.alerts
          ≡ w.alerts ++ (window_alert (suc n) w.messages ∷ [])
    close_twice n w counted unclosed started before =
        let w2 = (close_window d win w).1 in
        let end = window_end win + window_grace_seconds in
        close_window-Closed-alerts end w2
          (close_window-Closed end w (unfold window_end in omega (arith, started)) unclosed) before
        ∙ close_window-alerts n w counted unclosed (omega (arith, before, close_window-clock w2))
