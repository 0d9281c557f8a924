-- ===== src/Alerting/Dispatch/Counts.antt =====
-- alerting/alert_dispatch.py: `_count_in_window` and `_close_window`, over the life of one window.
use mathlib.Core.Path.{subst}
use radicalbit_ai_gateway.Prelude.{
  ℕ, suc, ◌+◌, ◌≤◌, ◌<◌, ◌≡◌, refl, sym, ap, ◌∙◌, true, false, some, [], ◌∷◌, ◌++◌, Text, text_eq,
  arith, ◌==◌,
}
use radicalbit_ai_gateway.Limiter.Machine.{read_clock}
use radicalbit_ai_gateway.Limiter.Base.Windows.{floor_unique}
use radicalbit_ai_gateway.Alerting.Store.{IsAlertStore, Adds, live, is_none, or_zero}
use radicalbit_ai_gateway.Alerting.Rules.{
  AlertRule, AlertRuleWindowSize, AlertEvent, EventPayload, target_of, identity_of, five_minutes,
  fifteen_minutes, one_hour, six_hours, one_day,
}
use radicalbit_ai_gateway.Alerting.World.{World}
use radicalbit_ai_gateway.Alerting.Handlers.{
  Dispatcher, Window, containing, count_in, count_in_window, size_of, register, window_seconds,
  window_end, counter_key, closed_key, encode, now, window_grace_seconds,
}

-- A text is not equal to itself with more behind it.
shorter : (s t : Text) (c : ℕ) → text_eq s (s ++ (c ∷ t)) ≡ false
unfolding text_eq
shorter [] t c = refl
shorter (d ∷ s) t c = ground (arith, shorter s t c)

pub counter-closed : (w : Window) → text_eq (counter_key w) (closed_key w) ≡ false
unfolding closed_key
counter-closed w = shorter (counter_key w) _ _

positive : (size : AlertRuleWindowSize) → 0 < window_seconds size
unfolding window_seconds
positive five_minutes = omega arith
positive fifteen_minutes = omega arith
positive one_hour = omega arith
positive six_hours = omega arith
positive one_day = omega arith

longer : (s t : Text) (c : ℕ) → text_eq (s ++ (c ∷ t)) s ≡ false
unfolding text_eq
longer [] t c = refl
longer (d ∷ s) t c = ground (arith, longer s t c)

pub closed-counter : (w : Window) → text_eq (closed_key w) (counter_key w) ≡ false
unfolding closed_key
closed-counter w = longer (counter_key w) _ _

pub live_until :
    (t expires_at : ℕ)
    → t < expires_at
    → is_none (live t (some (record { value = 1; expires_at = expires_at }))) ≡ false
live_until t expires_at h = ground arith

pub not_zero : (n : ℕ) → (suc n == 0) ≡ false
not_zero n = ground arith

module _ {S : Type 0} (d : Dispatcher S) (law : IsAlertStore d.store) (win : Window) where
  pub register-clock : (v : Window) (w : World S) → w.clock ≤ (register d v w).1.clock
  unfolding register
  register-clock v w =
      let ttl = window_seconds v.size + window_grace_seconds in
      let c = d.store.increment (counter_key v) ttl w.machine in
      let law_c = law.increment_lem (counter_key v) ttl w.machine in
      omega
        (arith, law_c.started, law_c.later, law.open_window-clock (encode d v) (window_end v) c.1)

  -- The window's counter stands at `n` until the grace after its end is over.
  abbrev pub Counted : ℕ → World S → Type 0
  Counted n w =
      (t : ℕ)
      → w.clock ≤ t
      → t < window_end win + window_grace_seconds
      → or_zero (live t (law.values w.store (counter_key win))) ≡ n

  -- No replica has closed the window.
  abbrev pub Unclosed : World S → Type 0
  Unclosed w = (t : ℕ) → w.clock ≤ t → is_none (live t (law.values w.store (closed_key win))) ≡ true

  -- The window is closed until a time.
  abbrev pub Closed : ℕ → World S → Type 0
  Closed until w =
      (t : ℕ)
      → w.clock ≤ t
      → t < until
      → is_none (live t (law.values w.store (closed_key win))) ≡ false

  or_zero_until :
      (t n expires_at : ℕ)
      → t < expires_at
      → or_zero (live t (some (record { value = n; expires_at = expires_at }))) ≡ n
  or_zero_until t n expires_at h = ground arith

  pub record Counting (n : ℕ) (w r : World S) : Type 0 where
    pub later : w.clock ≤ r.clock
    pub counted : Counted (suc n) r
    pub unclosed : Unclosed r
    pub alerts : r.alerts ≡ w.alerts

  register_lem :
      (n : ℕ) (w : World S) (target : Text)
      → Counted n w
      → Unclosed w
      → win.start ≤ w.clock
      → (register d (record win { target = target }) w).1.clock < window_end win
      → Counting n w (register d (record win { target = target }) w).1
  unfolding register window_end counter_key closed_key
  register_lem n w target counted unclosed started before =
      let key = counter_key win in
      let ttl = window_seconds win.size + window_grace_seconds in
      let c = d.store.increment key ttl w.machine in
      let law_c : Adds law.values key ttl w.machine c = law.increment_lem key ttl w.machine in
      let same =
        law.open_window-clock (encode d (record win { target = target })) (window_end win) c.1 in
      let values =
        law.open_window-values (encode d (record win { target = target })) (window_end win) c.1 in
      let reply : c.0 ≡ suc n =
        law_c.reply
        ∙ ap suc (counted law_c.at law_c.started (omega (arith, law_c.later, same, before))) in
      record {
        later = omega (arith, law_c.started, law_c.later, same);
        counted = λ t a b. rw (values key) (
            rw (law_c.effect t (omega (arith, a, same))) (
              or_zero_until t c.0 _ (omega (arith, a, b, started, law_c.started, law_c.later))
              ∙ reply));
        unclosed = λ t a. rw (values (closed_key win)) (
            rw (law_c.others t (closed_key win) (omega (arith, a, same)) (counter-closed win))
              (unclosed t (omega (arith, a, same, law_c.started, law_c.later))));
        alerts = refl;
      }

module _ {S : Type 0} (d : Dispatcher S) (law : IsAlertStore d.store) where
  module _ (rule : AlertRule) (size : AlertRuleWindowSize) (at : ℕ) (target : Text) where
    abbrev the_window : Window
    the_window = containing rule.uuid size at target

    count_in_lem :
        (n : ℕ) (w : World S) (other : Text)
        → Counted d law the_window n w
        → Unclosed d law the_window w
        → the_window.start ≤ w.clock
        → (count_in d rule size other w).1.clock < window_end the_window
        → Counting d law the_window n w (count_in d rule size other w).1
    unfolding count_in now read_clock containing window_end
    count_in_lem n w other counted unclosed started before =
        let m = (read_clock d.env w.machine).1 in
        let w2 : World S = record w { machine = m } in
        let v = containing rule.uuid size m.clock other in
        let same : v.start ≡ the_window.start =
          floor_unique at m.clock (window_seconds size) (positive size) (omega (arith, started))
            (omega (arith, before, register-clock d law the_window v w2)) in
        let path : v ≡ record the_window { target = other } =
          ap (λ (s : ℕ). record the_window { target = other; start = s }) same in
        let result =
          register_lem d law the_window n w2 other (λ t a b. counted t (omega (arith, a)) b)
            (λ t a. unclosed t (omega (arith, a))) (omega (arith, started)) in
        let moved : Counting d law the_window n w2 (register d v w2).1 =
          subst
            (λ x.
              (register d x w2).1.clock < window_end the_window
              → Counting d law the_window n w2 (register d x w2).1)
            (sym path) result before in
        record {
          later = omega (arith, moved.later);
          counted = moved.counted;
          unclosed = moved.unclosed;
          alerts = moved.alerts;
        }

    pub count_lem :
        (n : ℕ) (w : World S) (matched : AlertEvent) (event : EventPayload)
        → size_of d rule.window_size ≡ some size
        → Counted d law the_window n w
        → Unclosed d law the_window w
        → the_window.start ≤ w.clock
        → (count_in_window d rule matched event w).1.clock < window_end the_window
        → Counting d law the_window n w (count_in_window d rule matched event w).1
    unfolding count_in_window
    count_lem n w matched event e =
        rw (count_in_window, e) (count_in_lem n w (target_of matched.scope (identity_of event)))

    count_in-clock : (w : World S) (other : Text) → w.clock ≤ (count_in d rule size other w).1.clock
    unfolding count_in now read_clock
    count_in-clock w other =
        let m = (read_clock d.env w.machine).1 in
        let w2 : World S = record w { machine = m } in
        omega (arith, register-clock d law the_window (containing rule.uuid size m.clock other) w2)

    pub count_in_window-clock :
        (w : World S) (matched : AlertEvent) (event : EventPayload)
        → size_of d rule.window_size ≡ some size
        → w.clock ≤ (count_in_window d rule matched event w).1.clock
    unfolding count_in_window
    count_in_window-clock w matched event e =
        rw (count_in_window, e) (count_in-clock w (target_of matched.scope (identity_of event)))
