-- ===== src/Tests/Windows.antt =====
-- Requests in an open window, and requests that overlap, at concrete inputs.
use Prim.Native.Nat.{min}
use radicalbit_ai_gateway.Prelude.{
  ◌≤◌, ◌+◌, ◌-◌, ◌<◌, ◌≡◌, refl, List, [], ◌∷◌, arith, length, text_eq, text_eq_refl, decimal,
}
use radicalbit_ai_gateway.Prelude.Dict.{Dict, lookup, insert, remove}
use radicalbit_ai_gateway.Limiter.Machine.{read_clock, draw_uuid}
use radicalbit_ai_gateway.Limiter.Storage.{Entry}
use radicalbit_ai_gateway.Limiter.Storage.InMemory.{
  get_valid_entry, get, get_ttl, get_window_id, increment,
}
use radicalbit_ai_gateway.Limiter.Window.{scenario_value}
use radicalbit_ai_gateway.Limiter.Base.{
  build_key, window_type, calculate_window_boundary, test, consume, get_window_stats,
}
use radicalbit_ai_gateway.Limiter.Base.Counting.{counted, grown}
use radicalbit_ai_gateway.Limiting.World.{World}
use radicalbit_ai_gateway.Limiting.Event.{
  consume_and_emit_thresholds, emit_crossed, crossed_percentages,
}
use radicalbit_ai_gateway.Limiting.Room.{Caller, check_room, refuse}
use radicalbit_ai_gateway.Limiting.Route.Rate.{
  check_request, count_request, check_and_count_request,
}
use radicalbit_ai_gateway.Limiting.Route.Rate.Exact.{Open, serve, admitted, admitted_exactly}
use radicalbit_ai_gateway.Limiting.Route.Rate.Flight.{
  Flight, check, Run, start, next, overlap_capped,
}
use radicalbit_ai_gateway.Tests.{
  ticking, backend, backend_law, by_minute, limited_route, someone, world_with, one_hit,
}

abbrev open_world : World (Dict Entry)
open_world = world_with ((build_key by_minute.limiter by_minute.item, one_hit) ∷ [])

still-Open : Open ticking backend backend_law [] limited_route by_minute refl one_hit open_world
unfolding lookup
still-Open t p q = rw (text_eq_refl (build_key by_minute.limiter by_minute.item)) (ground arith)

abbrev callers : List Caller
callers = someone ∷ someone ∷ []

ends_in_time :
    (serve ticking backend backend_law [] limited_route by_minute refl callers open_world).clock
    < 1100
unfolding check_and_count_request check_request count_request check_room test
    consume_and_emit_thresholds consume emit_crossed crossed_percentages get get_valid_entry
    increment lookup insert remove build_key window_type scenario_value decimal text_eq read_clock
    draw_uuid calculate_window_boundary get_window_stats get_ttl get_window_id refuse
ends_in_time = omega arith

admitted_exactly_example :
    (admitted ticking backend backend_law [] limited_route by_minute refl callers open_world
      ≡ min (length callers) (by_minute.item.limit - one_hit.value))
    × Open ticking backend backend_law [] limited_route by_minute refl
        (grown one_hit
          (admitted ticking backend backend_law [] limited_route by_minute refl callers open_world))
        (serve ticking backend backend_law [] limited_route by_minute refl callers open_world)
admitted_exactly_example =
    admitted_exactly ticking backend backend_law [] limited_route by_minute refl callers one_hit
      open_world still-Open ends_in_time

abbrev at_rest : Flight (Dict Entry)
at_rest = record { world = world_with []; pending = 0 }

abbrev under_way : Flight (Dict Entry)
under_way = record {
  world = (check_request ticking backend limited_route someone (world_with [])).1;
  pending = 1;
}

one_check : Run ticking backend [] limited_route 1 at_rest under_way
unfolding check_request check_room test get get_valid_entry lookup
one_check = next start (check someone (omega arith) refl)

nothing_under_way :
    counted backend_law.cells at_rest.world.clock at_rest.world.store
        (build_key by_minute.limiter by_minute.item)
      + at_rest.pending
    ≤ by_minute.item.limit + 1
unfolding lookup
nothing_under_way = omega arith

overlap_capped_example :
    counted backend_law.cells under_way.world.clock under_way.world.store
        (build_key by_minute.limiter by_minute.item)
      + under_way.pending
    ≤ by_minute.item.limit + 1
overlap_capped_example =
    overlap_capped ticking backend [] limited_route 1 backend_law by_minute refl {f = at_rest}
      {g = under_way} one_check nothing_under_way
