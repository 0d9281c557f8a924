-- ===== src/Alerting/Dispatch/Once.antt =====
-- alerting/alert_dispatch.py: `_send_once_per_limit_window`, over any sequence of events of one window.
use radicalbit_ai_gateway.Prelude.{
  ℕ, suc, ◌+◌, ◌-◌, ◌≤◌, ◌<◌, ◌≡◌, refl, ap, ◌∙◌, Bool, true, false, Option, none, some, List, [],
  ◌∷◌, ◌++◌, Text, text, text_eq, decimal, arith, length, All, if◌then◌else◌, Bool-cases, inl, inr,
}
use radicalbit_ai_gateway.Limiting.World.{LimitEventPayload}
use radicalbit_ai_gateway.Limiter.Machine.{read_clock}
use radicalbit_ai_gateway.Alerting.Store.{IsAlertStore, Claims, live, is_none}
use radicalbit_ai_gateway.Alerting.Rules.{AlertRule, AlertEvent, recipients_of}
use radicalbit_ai_gateway.Alerting.World.{World}
use radicalbit_ai_gateway.Alerting.Handlers.{
  Dispatcher, send_once, limit_claim_key, window_or_reset, limit_window_margin_seconds, now,
}
use radicalbit_ai_gateway.Alerting.Dispatch.Sends.{
  send_claimed-store, send_claimed-clock, send_claimed-alerts,
}

-- What a claim names a window by: its identifier, or the time of its reset if it has none.
abbrev named_by : Option Text → ℕ → Text
named_by none reset_time = decimal reset_time
named_by (some id) reset_time = if text_eq id [] then decimal reset_time else id

window_or_reset-named_by :
    (window_id : Option Text) (reset_time : ℕ)
    → window_or_reset window_id reset_time ≡ named_by window_id reset_time
unfolding window_or_reset text_eq
window_or_reset-named_by none reset_time = refl
window_or_reset-named_by (some []) reset_time = refl
window_or_reset-named_by (some (c ∷ id)) reset_time = refl

module _ {S : Type 0} (d : Dispatcher S) (rule : AlertRule) where
  -- The events of a rule, one after another.
  unfoldable pub send_each : List (AlertEvent × LimitEventPayload) → World S → World S
  unfolding send_once
  send_each [] w = w
  send_each ((matched, event) ∷ events) w = send_each events (send_once d rule matched event w).1

  -- A window of the limit, as its events name it: by the limiter's identifier, where it had a window
  -- open, and by the time of its reset.
  module _ (window_id : Option Text) (reset_time : ℕ) where
    abbrev pub OfWindow : List (AlertEvent × LimitEventPayload) → Type 0
    OfWindow events =
        All (λ p. (p.1.limit.window_id ≡ window_id) × (p.1.limit.reset_time ≡ reset_time)) events

    -- An hour after the window's reset, or after a time if that is later.
    abbrev pub hour_after : ℕ → ℕ
    hour_after start = start + (reset_time - start) + 3600

    module _ (law : IsAlertStore d.store) where
      -- The rule's claim on the window.
      abbrev claim_key : Text
      claim_key = text "alert:limit:" ++ (rule.uuid ++ (text ":" ++ named_by window_id reset_time))

      -- The window counts as claimed until a time.
      abbrev pub Held : ℕ → World S → Type 0
      Held until w =
          (t : ℕ)
          → w.clock ≤ t
          → t < until
          → is_none (live t (law.values w.store claim_key)) ≡ false

      -- The window is not claimed, and no claim on it is waiting to expire.
      abbrev pub Free : World S → Type 0
      Free w = (t : ℕ) → w.clock ≤ t → is_none (live t (law.values w.store claim_key)) ≡ true

      claim_key-same :
          (event : LimitEventPayload)
          → event.limit.window_id ≡ window_id
          → event.limit.reset_time ≡ reset_time
          → limit_claim_key rule event ≡ claim_key
      unfolding limit_claim_key
      claim_key-same event e h = rw (e, h, window_or_reset-named_by window_id reset_time) refl

      module _ (rs : List Text) (e : recipients_of d.loads d.split_parts rule ≡ some rs) where
        -- What one event does: it claims the window, and sends an alert, exactly when the claim is
        -- not live.
        record Step (until : ℕ) (w : World S) (r : World S) : Type 0 where
          claimed : Bool
          later : w.clock ≤ r.clock
          alerts : length r.alerts ≡ length w.alerts + (if claimed then 1 else 0)
          refused : Held until w → r.clock < until → claimed ≡ false
          fresh : Free w → claimed ≡ true
          held : claimed ≡ true → until ≤ hour_after w.clock → Held until r
          kept : Held until w → claimed ≡ false → Held until r

        live_until :
            (t expires_at : ℕ)
            → t < expires_at
            → is_none (live t (some (record { value = 1; expires_at = expires_at }))) ≡ false
        live_until t expires_at h = ground arith

        step_lem :
            (until : ℕ) (w : World S) (matched : AlertEvent) (event : LimitEventPayload)
            → (event.limit.window_id ≡ window_id) × (event.limit.reset_time ≡ reset_time)
            → Step until w (send_once d rule matched event w).1
        unfolding send_once now read_clock
        step_lem until w matched event (same_id, same_reset) =
            let same = claim_key-same event same_id same_reset in
            let m = (read_clock d.env w.machine).1 in
            let ttl = (event.limit.reset_time - m.clock) + limit_window_margin_seconds in
            let c = d.store.claim claim_key ttl m in
            let law_c : Claims law.values claim_key ttl m c = law.claim_lem claim_key ttl m in
            let w2 : World S = record w { machine = c.1 } in
            let after = send_claimed-clock d rule rs e matched event c.0 w2 in
            let stored = send_claimed-store d rule rs e matched event c.0 w2 in
            rw same (record {
              claimed = c.0;
              later = omega (arith, law_c.started, law_c.later, after);
              alerts = send_claimed-alerts d rule rs e matched event c.0 w2;
              refused = λ h before.
                  law_c.reply
                  ∙ h law_c.at (omega (arith, law_c.started))
                      (omega (arith, law_c.later, after, before));
              fresh = λ h. law_c.reply ∙ h law_c.at (omega (arith, law_c.started));
              held = λ y u t a b. rw stored (
                  rw (law_c.taken y t (omega (arith, after, a)))
                    (live_until t _ (omega (arith, u, b, same_reset, law_c.started, law_c.later))));
              kept = λ h n t a b. rw stored (
                  rw (law_c.refused n t (omega (arith, after, a)))
                    (h t (omega (arith, law_c.started, law_c.later, after, a)) b));
            })

        later_each :
            (events : List (AlertEvent × LimitEventPayload)) (w : World S)
            → OfWindow events
            → w.clock ≤ (send_each events w).clock
        unfolding send_each
        later_each [] w all = omega arith
        later_each ((matched, event) ∷ events) w (same, all) =
            let next = (send_once d rule matched event w).1 in
            omega (arith, (step_lem 0 w matched event same).later, later_each events next all)

        silent_while_held :
            (until : ℕ) (events : List (AlertEvent × LimitEventPayload)) (w : World S)
            → OfWindow events
            → Held until w
            → (send_each events w).clock < until
            → length (send_each events w).alerts ≡ length w.alerts
        unfolding send_each
        silent_while_held until [] w all h before = refl
        silent_while_held until ((matched, event) ∷ events) w (same, all) h before =
            let next = (send_once d rule matched event w).1 in
            let step = step_lem until w matched event same in
            let end = later_each events next all in
            let n : step.claimed ≡ false = step.refused h (omega (arith, before, end)) in
            omega (
              arith,
              silent_while_held until events next all (step.kept h n) before,
              step.alerts,
              ap {B = ℕ} (λ b. if b then 1 else 0) n,
            )

        at_most_one_until :
            (until : ℕ) (events : List (AlertEvent × LimitEventPayload)) (w : World S)
            → OfWindow events
            → until ≤ hour_after w.clock
            → (send_each events w).clock < until
            → length (send_each events w).alerts ≤ suc (length w.alerts)
        unfolding send_each
        at_most_one_until until [] w all near before = omega arith
        at_most_one_until until ((matched, event) ∷ events) w (same, all) near before =
            let next = (send_once d rule matched event w).1 in
            let step = step_lem until w matched event same in
            elim (Bool-cases step.claimed) [
              | inl y ↦ omega (
                arith,
                silent_while_held until events next all (step.held y near) before,
                step.alerts,
                ap {B = ℕ} (λ b. if b then 1 else 0) y,
              )
              | inr n ↦ omega (
                arith,
                at_most_one_until until events next all (omega (arith, near, step.later)) before,
                step.alerts,
                ap {B = ℕ} (λ b. if b then 1 else 0) n,
              )
            ]

        -- Of the events of one limit window, which have its identifier and its reset time, at most
        -- one sends an alert of a rule whose recipients can be read, however many there are and
        -- whatever the store holds, if it keeps its laws and all are handled less than an hour
        -- after the window's reset, or after the start of the first where that is later.
        pub at_most_one_per_limit_window :
            (events : List (AlertEvent × LimitEventPayload)) (w : World S)
            → OfWindow events
            → (send_each events w).clock < hour_after w.clock
            → length (send_each events w).alerts ≤ suc (length w.alerts)
        at_most_one_per_limit_window events w all before =
            at_most_one_until (hour_after w.clock) events w all (omega arith) before

        -- A limit window that has no claim gets exactly one alert from a rule whose recipients can
        -- be read, however many events follow the first, over any store that keeps its laws: events
        -- with the window's identifier and reset time, all handled less than an hour after the
        -- window's reset, or after the start of the first where that is later.
        pub exactly_one_per_limit_window :
            (matched : AlertEvent) (event : LimitEventPayload)
            (events : List (AlertEvent × LimitEventPayload)) (w : World S)
            → OfWindow ((matched, event) ∷ events)
            → Free w
            → (send_each ((matched, event) ∷ events) w).clock < hour_after w.clock
            → length (send_each ((matched, event) ∷ events) w).alerts ≡ suc (length w.alerts)
        unfolding send_each
        exactly_one_per_limit_window matched event events w (same, all) free before =
            let until = hour_after w.clock in
            let next = (send_once d rule matched event w).1 in
            let step = step_lem until w matched event same in
            let y : step.claimed ≡ true = step.fresh free in
            omega (
              arith,
              silent_while_held until events next all (step.held y (omega arith)) before,
              step.alerts,
              ap {B = ℕ} (λ b. if b then 1 else 0) y,
            )
