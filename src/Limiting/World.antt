-- ===== src/Limiting/World.antt =====
-- The world in which the limiting classes act: the machine of the limiters, the events that
-- `emit_event` has queued and the increments of the telemetry counters, oldest first. A method may
-- raise, and what it did before stays done.
use radicalbit_ai_gateway.Prelude.{ℕ, Option, List, [], ◌∷◌, ◌++◌, Text}
use radicalbit_ai_gateway.Prelude.Result.{Result, ok, err}
use radicalbit_ai_gateway.Limiter.Machine.{Machine, Op}

-- models/request_identity.py
pub record RequestIdentity : Type 0 where
  pub request_uuid : Text
  pub route_name : Text
  pub api_key_uuid : Text
  pub api_key_name : Text
  pub group_uuid : Text
  pub group_name : Text
  pub project_uuid : Text
  pub project_name : Text

-- models/event_type.py, the types that a `LimitEventPayload` may have
pub data EventType : Type 0 where
  rate_limit token_input_limit token_output_limit audio_duration_limit budget_limit : EventType
  credential_rate_limit credential_token_input_limit credential_token_output_limit : EventType
  credential_budget_limit project_budget_limit limit_threshold : EventType

pub data LimitScope : Type 0 where
  route project credential : LimitScope

-- The quotient `units / divisor`, which the code takes in floating point.
pub record Amount : Type 0 where
  pub units : ℕ
  pub divisor : ℕ

-- What `limit_fields` returns.
pub record LimitFields : Type 0 where
  pub limit_scope : LimitScope
  pub category : Text
  pub window_seconds : ℕ
  pub maximum : Amount
  pub consumption : Amount
  pub reset_time : ℕ
  pub window_id : Option Text

-- models/event_payload.py
pub record LimitEventPayload : Type 0 where
  pub identity : RequestIdentity
  pub event_type : EventType
  pub value : ℕ
  pub threshold_percentage : Option ℕ
  pub limit : LimitFields

-- The counters of metrics/define_metrics.py that a refusal increments.
pub data Counter : Type 0 where
  rate_limiting token_input_limiting token_output_limiting audio_duration_limiting : Counter

-- The exceptions of utils/exceptions.py that a refusal raises. Of the message they keep the seconds
-- after which to retry, and of the rest the parameter that the response names.
pub data LimitError : Type 0 where
  request_rate_limit_exceeded : ℕ → Text → LimitError
  audio_duration_limit_exceeded : ℕ → Text → LimitError
  input_token_limit_exceeded : ℕ → LimitError
  output_token_limit_exceeded : ℕ → LimitError
  budget_limit_exceeded : ℕ → LimitError

pub record World (S : Type 0) : Type 0 where
  pub machine : Machine S
  pub open machine use *
  pub events : List LimitEventPayload
  -- each increment with its `route_name` attribute
  pub metrics : List (Counter × Text)

abbrev pub Exec : Type 0 → Type 0 → Type 0
Exec S A = World S → Result LimitError A × World S

abbrev pub continue : {S A B : Type 0} → Result LimitError A → (A → Exec S B) → Exec S B
continue (ok a) f w = f a w
continue (err e) f w = (err e, w)

infixl 10 ◌>>=◌ ◌>>◌
abbrev pub ◌>>=◌ : {S A B : Type 0} → Exec S A → (A → Exec S B) → Exec S B
◌>>=◌ m f w = let (r, w') = m w in continue r f w'

abbrev pub ◌>>◌ : {S B : Type 0} → Exec S (Unit {0}) → Exec S B → Exec S B
m >> next = m >>= λ _. next

abbrev pub pure : {S A : Type 0} → A → Exec S A
pure a w = (ok a, w)

abbrev pub skip : {S : Type 0} → Exec S (Unit {0})
skip = pure tt

abbrev pub raise : {S A : Type 0} → LimitError → Exec S A
raise e w = (err e, w)

-- An operation of a limiter raises nothing.
abbrev pub lift : {S A : Type 0} → Op S A → Exec S A
lift op w = let (a, m) = op w.machine in (ok a, record w { machine = m })

abbrev pub emit_event : {S : Type 0} → LimitEventPayload → Exec S (Unit {0})
emit_event e w = (ok tt, record w { events = w.events ++ (e ∷ []) })

abbrev pub add_metric : {S : Type 0} → Counter → Text → Exec S (Unit {0})
add_metric c route_name w = (ok tt, record w { metrics = w.metrics ++ ((c, route_name) ∷ []) })
