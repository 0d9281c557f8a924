-- ===== src/Alerting/Dispatch/Sends.antt =====
-- alerting/alert_dispatch.py: what `_send` does to the world.
use radicalbit_ai_gateway.Prelude.{
  ℕ, ◌+◌, ◌≤◌, ◌≡◌, refl, ap, Bool, true, false, Option, some, List, [], ◌∷◌, ◌++◌, Text, arith,
  length, length-append, if◌then◌else◌,
}
use radicalbit_ai_gateway.Limiting.World.{LimitEventPayload}
use radicalbit_ai_gateway.Limiter.Machine.{read_clock}
use radicalbit_ai_gateway.Alerting.Rules.{AlertRule, AlertEvent, recipients_of}
use radicalbit_ai_gateway.Alerting.World.{World, send_email}
use radicalbit_ai_gateway.Alerting.Handlers.{Dispatcher, send, send_to, send_claimed, alert_of, now}

-- Whether `send_email` returns true for the n-th message.
abbrev pub taken : (ℕ → Bool) → List Text → ℕ → Bool
taken delivers [] n = false
taken delivers (r ∷ rs) n = delivers n

module _ {S : Type 0} (d : Dispatcher S) (rule : AlertRule) (rs : List Text) where
  send_to-machine :
      (rs : List Text) (matched : AlertEvent) (target : Text) (time : ℕ)
      (details : List (Text × Text)) (count : ℕ) (start finish : Option ℕ) (w : World S)
      → (send_to d rule matched target time details count start finish (some rs) w).1.machine
        ≡ w.machine
  unfolding send_to send_email
  send_to-machine [] matched target time details count start finish w = refl
  send_to-machine (r ∷ rs) matched target time details count start finish w = refl

  send_to-alerts :
      (rs : List Text) (matched : AlertEvent) (target : Text) (time : ℕ)
      (details : List (Text × Text)) (count : ℕ) (start finish : Option ℕ) (w : World S)
      → (send_to d rule matched target time details count start finish (some rs) w).1.alerts
        ≡ w.alerts
          ++ (alert_of d rule matched count start finish (taken d.delivers rs w.messages) ∷ [])
  unfolding send_to send_email
  send_to-alerts [] matched target time details count start finish w = refl
  send_to-alerts (r ∷ rs) matched target time details count start finish w = refl

  module _ (e : recipients_of d.loads d.split_parts rule ≡ some rs) where
    -- A message changes nothing in the alert store and takes no time on its clock.
    pub send-machine :
        (matched : AlertEvent) (target : Text) (time : ℕ) (details : List (Text × Text)) (count : ℕ)
        (start finish : Option ℕ) (w : World S)
        → (send d rule matched target time details count start finish w).1.machine ≡ w.machine
    unfolding send
    send-machine matched target time details count start finish w =
        rw e (send_to-machine rs matched target time details count start finish w)

    -- One alert is recorded, whether or not the server takes the message.
    pub send-alerts :
        (matched : AlertEvent) (target : Text) (time : ℕ) (details : List (Text × Text)) (count : ℕ)
        (start finish : Option ℕ) (w : World S)
        → (send d rule matched target time details count start finish w).1.alerts
          ≡ w.alerts
            ++ (alert_of d rule matched count start finish (taken d.delivers rs w.messages) ∷ [])
    unfolding send
    send-alerts matched target time details count start finish w =
        rw e (send_to-alerts rs matched target time details count start finish w)

    pub send_claimed-store :
        (matched : AlertEvent) (event : LimitEventPayload) (b : Bool) (w : World S)
        → (send_claimed d rule matched event b w).1.store ≡ w.store
    unfolding send_claimed now read_clock
    send_claimed-store matched event false w = refl
    send_claimed-store matched event true w = ap (λ m. m.store) (send-machine matched _ _ _ _ _ _ _)

    pub send_claimed-clock :
        (matched : AlertEvent) (event : LimitEventPayload) (b : Bool) (w : World S)
        → w.clock ≤ (send_claimed d rule matched event b w).1.clock
    unfolding send_claimed now read_clock
    send_claimed-clock matched event false w = omega arith
    send_claimed-clock matched event true w =
        omega (arith, ap (λ m. m.clock) (send-machine matched _ _ _ _ _ _ _))

    pub send_claimed-alerts :
        (matched : AlertEvent) (event : LimitEventPayload) (b : Bool) (w : World S)
        → length (send_claimed d rule matched event b w).1.alerts
          ≡ length w.alerts + (if b then 1 else 0)
    unfolding send_claimed now read_clock
    send_claimed-alerts matched event false w = omega arith
    send_claimed-alerts matched event true w =
        omega (arith, ap length (send-alerts matched _ _ _ _ _ _ _), length-append {0})
