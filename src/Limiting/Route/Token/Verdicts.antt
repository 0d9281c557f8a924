-- ===== src/Limiting/Route/Token/Verdicts.antt =====
-- limiting/token_limiter.py: what the checks decide.
use radicalbit_ai_gateway.Prelude.{ℕ, ◌≡◌, refl, Option, none, some, Text}
use radicalbit_ai_gateway.Prelude.Result.{Result, ok}
use radicalbit_ai_gateway.Limiter.Machine.{Env}
use radicalbit_ai_gateway.Limiter.Storage.{Storage, IsBackend}
use radicalbit_ai_gateway.Limiting.World.{
  LimitError, input_token_limit_exceeded, output_token_limit_exceeded, EventType, token_input_limit,
  token_output_limit, Counter, token_input_limiting, token_output_limiting, World,
}
use radicalbit_ai_gateway.Limiting.Room.{Caller, Active}
use radicalbit_ai_gateway.Limiting.Room.Verdict.{Verdict, counter_of, check_room-Verdict}
use radicalbit_ai_gateway.Limiting.Route.{TokenLimiter}
use radicalbit_ai_gateway.Limiting.Route.Token.{
  token_event, check_side, check_input_cost, check_input, check_input_room, check_output,
}

module _ {S : Type 0} (env : Env) (storage : Storage S) (law : IsBackend storage)
    (self : TokenLimiter) (caller : Caller) where
  -- The verdict of one direction's check: it stands for its window, or passes if there is none.
  abbrev pub Side :
      EventType
      → Counter
      → (ℕ → LimitError)
      → ℕ
      → Option Active
      → World S
      → Result LimitError (Unit {0}) × World S
      → Type 0
  Side event_type counter error cost none w r = r ≡ (ok tt, w)
  Side event_type counter error cost (some a) w r =
      Verdict law a cost (token_event event_type self a caller)
        (counter_of (some counter) self.route_name) (λ stats. error stats.remaining_time) w r

  check_side-Side :
      (event_type : EventType) (counter : Counter) (error : ℕ → LimitError) (cost : ℕ)
      (side : Option Active) (w : World S)
      → Side event_type counter error cost side w
          (check_side env storage event_type counter error self caller cost side w)
  unfolding check_side
  check_side-Side event_type counter error cost none w = refl
  check_side-Side event_type counter error cost (some a) w =
      check_room-Verdict env storage law a cost (token_event event_type self a caller)
        (some counter) self.route_name (λ stats. error stats.remaining_time) w

  abbrev pub Input : ℕ → World S → Result LimitError (Unit {0}) × World S → Type 0
  Input cost =
      Side token_input_limit token_input_limiting input_token_limit_exceeded cost self.input

  abbrev pub Output : World S → Result LimitError (Unit {0}) × World S → Type 0
  Output = Side token_output_limit token_output_limiting output_token_limit_exceeded 1 self.output

  -- The checks of a route's tokens pass, with no trace, exactly where the direction's window has
  -- room: for the tokens of the prompt, for one input token where the prompt is not known, and for
  -- one output token. Otherwise they refuse with one event of the direction's type, its telemetry
  -- counter and its exception. They change no counter, and an unlimited direction leaves the world
  -- as it is.
  pub token_checks-Side :
      (count_tokens : Text → Text → ℕ) (prompt model_string : Text) (w : World S)
      → Input
          (count_tokens prompt model_string)
          w
          (check_input env storage count_tokens self caller prompt model_string w)
        × Input 1 w (check_input_room env storage self caller w)
        × Output w (check_output env storage self caller w)
  unfolding check_input check_input_room check_input_cost check_output
  token_checks-Side count_tokens prompt model_string w = (
    check_side-Side token_input_limit token_input_limiting input_token_limit_exceeded
        (count_tokens prompt model_string) self.input w,
    check_side-Side token_input_limit token_input_limiting input_token_limit_exceeded 1 self.input
        w,
    check_side-Side token_output_limit token_output_limiting output_token_limit_exceeded 1
        self.output w,
  )
