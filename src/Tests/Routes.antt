-- ===== src/Tests/Routes.antt =====
-- The limits of a route at concrete inputs.
use radicalbit_ai_gateway.Prelude.{Option, List, ◌≤◌, ℕ, refl, some, [], ◌∷◌, Text, text, arith}
use radicalbit_ai_gateway.Prelude.Dict.{Dict, lookup}
use radicalbit_ai_gateway.Limiter.Base.{build_key}
use radicalbit_ai_gateway.Limiter.Base.Counting.{counted}
use radicalbit_ai_gateway.Limiter.Storage.{Entry}
use radicalbit_ai_gateway.Limiting.World.{World}
use radicalbit_ai_gateway.Limiting.Route.Rate.Cap.{serve, serve_capped}
use radicalbit_ai_gateway.Limiting.Route.Budget.Spend.{
  Usage, request, input_tokens, output_tokens, spending_capped,
}
use radicalbit_ai_gateway.Limiting.Route.Duration.Cap.{duration_capped}
use radicalbit_ai_gateway.Limiting.Route.Duration.{check_and_count_duration}
use radicalbit_ai_gateway.Tests.{
  ticking, backend, backend_law, whole_numbers, by_minute, limited_route, someone, world_with,
}

abbrev its_key : Text
its_key = build_key by_minute.limiter by_minute.item

nothing_counted : (n : ℕ) → counted backend_law.cells 1000 [] its_key ≤ n
unfolding lookup
nothing_counted n = omega arith

abbrev three_served : World (Dict Entry)
three_served =
    serve ticking backend backend_law (50 ∷ []) limited_route by_minute refl
      (someone ∷ someone ∷ someone ∷ []) (world_with [])

serve_capped_example : counted backend_law.cells three_served.clock three_served.store its_key ≤ 2
serve_capped_example =
    serve_capped ticking backend backend_law (50 ∷ []) limited_route by_minute refl
      (someone ∷ someone ∷ someone ∷ []) (world_with []) (nothing_counted 2)

abbrev usage :
    List (Usage ticking backend backend_law limited_route by_minute refl [] whole_numbers)
usage = input_tokens 1 1 ∷ output_tokens 2 1 ∷ []

abbrev one_spent : World (Dict Entry)
one_spent =
    request ticking backend backend_law limited_route by_minute refl [] whole_numbers someone usage
      (world_with [])

spending_capped_example :
    counted backend_law.cells one_spent.clock one_spent.store its_key ≤ 3_000_000_001
spending_capped_example =
    spending_capped ticking backend backend_law limited_route by_minute refl [] whole_numbers
      someone usage 3_000_000_001 (world_with []) (omega arith) (nothing_counted 3_000_000_001)

abbrev two_seconds : Text → Option (ℕ × ℕ)
two_seconds bytes = some (16000, 8000)

abbrev one_transcribed : World (Dict Entry)
one_transcribed =
    (check_and_count_duration whole_numbers two_seconds ticking backend [] limited_route someone
      (text "RIFF") (world_with [])).1

duration_capped_example :
    counted backend_law.cells one_transcribed.clock one_transcribed.store its_key ≤ 2
duration_capped_example =
    duration_capped whole_numbers two_seconds ticking backend backend_law [] limited_route by_minute
      refl someone (text "RIFF") (world_with []) (nothing_counted 2)
