-- ===== src/Limiting/Route/Token.antt =====
-- limiting/token_limiter.py: the input and output tokens of a route in each window. `count_tokens`
-- of utils/token_encoding.py, which asks the model's tokenizer, is a parameter.
pub mod Verdicts
use radicalbit_ai_gateway.Prelude.{ℕ, Option, none, some, List, Text}
use radicalbit_ai_gateway.Limiter.Machine.{Env}
use radicalbit_ai_gateway.Limiter.Storage.{Storage}
use radicalbit_ai_gateway.Limiter.Base.{WindowStats}
use radicalbit_ai_gateway.Limiting.World.{
  RequestIdentity, LimitEventPayload, LimitError, input_token_limit_exceeded,
  output_token_limit_exceeded, EventType, token_input_limit, token_output_limit, Counter,
  token_input_limiting, token_output_limiting, route, Exec, skip,
}
use radicalbit_ai_gateway.Limiting.Room.{
  Caller, identity_of, Active, block_event, check_room, refuse,
}
use radicalbit_ai_gateway.Limiting.Event.{consume_and_emit_thresholds}
use radicalbit_ai_gateway.Limiting.Route.{TokenLimiter}

abbrev pub token_event :
    EventType → TokenLimiter → Active → Caller → WindowStats → LimitEventPayload
token_event event_type self a caller stats =
    block_event event_type route (identity_of caller self.route_name) a.item stats

module _ {S : Type 0} (env : Env) (storage : Storage S) where
  check_side :
      EventType
      → Counter
      → (ℕ → LimitError)
      → TokenLimiter
      → Caller
      → ℕ
      → Option Active
      → Exec S (Unit {0})
  check_side event_type counter error self caller cost none = skip
  check_side event_type counter error self caller cost (some a) =
      check_room env storage a cost (λ stats.
        refuse (token_event event_type self a caller stats) (some counter) self.route_name
          (error stats.remaining_time))

  -- `_check_input_cost`
  unfoldable pub check_input_cost : TokenLimiter → Caller → ℕ → Exec S (Unit {0})
  unfolding check_side
  check_input_cost self caller tokens =
      check_side token_input_limit token_input_limiting input_token_limit_exceeded self caller
        tokens self.input

  unfoldable pub check_input :
      (Text → Text → ℕ) → TokenLimiter → Caller → Text → Text → Exec S (Unit {0})
  check_input count_tokens self caller prompt model_string =
      check_input_cost self caller (count_tokens prompt model_string)

  unfoldable pub check_input_room : TokenLimiter → Caller → Exec S (Unit {0})
  check_input_room self caller = check_input_cost self caller 1

  unfoldable pub check_output : TokenLimiter → Caller → Exec S (Unit {0})
  unfolding check_side
  check_output self caller =
      check_side token_output_limit token_output_limiting output_token_limit_exceeded self caller 1
        self.output

module _ {S : Type 0} (env : Env) (storage : Storage S) (alert_threshold_percentages : List ℕ) where
  count_side : Option Active → ℕ → RequestIdentity → Exec S (Unit {0})
  count_side none tokens identity = skip
  count_side (some a) tokens identity =
      consume_and_emit_thresholds env storage alert_threshold_percentages a.limiter a.item tokens
        route identity

  unfoldable pub count_input : TokenLimiter → ℕ → RequestIdentity → Exec S (Unit {0})
  unfolding count_side
  count_input self prompt_tokens identity = count_side self.input prompt_tokens identity

  unfoldable pub count_output : TokenLimiter → ℕ → RequestIdentity → Exec S (Unit {0})
  unfolding count_side
  count_output self token_count identity = count_side self.output token_count identity
