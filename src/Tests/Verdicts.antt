-- ===== src/Tests/Verdicts.antt =====
-- The checks, and a hit, at concrete inputs.
use radicalbit_ai_gateway.Prelude.{ℕ, none, some, [], ◌∷◌, Text, text}
use radicalbit_ai_gateway.Limiting.World.{rate_limiting, project}
use radicalbit_ai_gateway.Limiting.Event.Hits.{Hit, consume_and_emit_thresholds-Hit}
use radicalbit_ai_gateway.Limiting.Room.{identity_of, check_room, refuse}
use radicalbit_ai_gateway.Limiting.Room.Verdict.{Verdict, counter_of, check_room-Verdict}
use radicalbit_ai_gateway.Limiting.Route.{TokenLimiter}
use radicalbit_ai_gateway.Limiting.Route.Rate.{rate_event, rate_error}
use radicalbit_ai_gateway.Limiting.Route.Token.{check_input, check_input_room, check_output}
use radicalbit_ai_gateway.Limiting.Route.Token.Verdicts.{Input, Output, token_checks-Side}
use radicalbit_ai_gateway.Limiting.Entries.{first_exceeded, if_exceeded}
use radicalbit_ai_gateway.Limiting.Entries.Verdict.{Decision, refuse_for, check_entries-Decision}
use radicalbit_ai_gateway.Limiting.World.{◌>>=◌}
use radicalbit_ai_gateway.Tests.{
  ticking, backend, backend_law, by_minute, by_hour, limited_route, someone, world_with,
}

consume_and_emit_thresholds-Hit_example :
    Hit ticking backend backend_law
      (50 ∷ 100 ∷ [])
      by_minute.limiter
      by_minute.item
      1
      project
      (identity_of someone (text "r"))
      (world_with [])
consume_and_emit_thresholds-Hit_example =
    consume_and_emit_thresholds-Hit ticking backend backend_law (50 ∷ 100 ∷ []) by_minute.limiter
      by_minute.item 1 project (identity_of someone (text "r")) (world_with [])

check_room-Verdict_example :
    Verdict backend_law by_minute 3
      (rate_event limited_route by_minute someone)
      (counter_of (some rate_limiting) (text "r"))
      (rate_error limited_route)
      (world_with [])
      (check_room ticking backend by_minute 3
        (λ stats.
          refuse
            (rate_event limited_route by_minute someone stats)
            (some rate_limiting)
            (text "r")
            (rate_error limited_route stats))
        (world_with []))
check_room-Verdict_example =
    check_room-Verdict ticking backend backend_law by_minute 3
      (rate_event limited_route by_minute someone) (some rate_limiting) (text "r")
      (rate_error limited_route) (world_with [])

check_entries-Decision_example :
    Decision backend_law 3
      (λ a. rate_event limited_route a someone)
      (counter_of none (text "r"))
      (rate_error limited_route)
      (world_with [])
      (by_hour ∷ by_minute ∷ [])
      ((first_exceeded ticking backend 3 (by_hour ∷ by_minute ∷ [])
          >>= if_exceeded (
              refuse_for ticking backend backend_law 3
                (λ a. rate_event limited_route a someone)
                none
                (text "r")
                (rate_error limited_route)))
        (world_with []))
check_entries-Decision_example =
    check_entries-Decision ticking backend backend_law 3 (λ a. rate_event limited_route a someone)
      none (text "r") (rate_error limited_route) (by_hour ∷ by_minute ∷ []) (world_with [])

abbrev token_route : TokenLimiter
token_route = record { route_name = text "r"; input = some by_minute; output = none }

abbrev count_characters : Text → Text → ℕ
count_characters prompt model_string = 7

token_checks-Side_example :
    Input ticking backend backend_law token_route someone 7 (world_with []) (
      check_input ticking backend count_characters token_route someone
        (text "hello w")
        (text "m")
        (world_with []))
    × Input ticking backend backend_law token_route someone 1
        (world_with [])
        (check_input_room ticking backend token_route someone (world_with []))
    × Output ticking backend backend_law token_route someone
        (world_with [])
        (check_output ticking backend token_route someone (world_with []))
token_checks-Side_example =
    token_checks-Side ticking backend backend_law token_route someone count_characters
      (text "hello w") (text "m") (world_with [])
