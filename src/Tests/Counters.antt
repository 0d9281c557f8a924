-- ===== src/Tests/Counters.antt =====
-- The limiters, their keys and windows, and the configuration at concrete inputs.
use radicalbit_ai_gateway.Prelude.{
  ℕ, ◌+◌, ◌-◌, ◌%◌, ◌≤◌, ◌<◌, ◌≡◌, ◌≢◌, refl, some, [], ◌∷◌, Text, arith, text_eq, text_eq_refl,
  decimal,
}
use radicalbit_ai_gateway.Prelude.Result.{ok}
use radicalbit_ai_gateway.Prelude.Dict.{lookup}
use radicalbit_ai_gateway.Limiter.Machine.{read_clock}
use radicalbit_ai_gateway.Limiter.Storage.{Entry, live, Increments}
use radicalbit_ai_gateway.Limiter.Storage.InMemory.{
  get, get_ttl, get_window_id, get_valid_entry, increment,
}
use radicalbit_ai_gateway.Limiter.Storage.InMemory.Laws.{cells_of, increment-Increments}
use radicalbit_ai_gateway.Limiter.Window.{scenario_value, format_window, parse_window}
use radicalbit_ai_gateway.Limiter.Window.RoundTrip.{parse-format_window}
use radicalbit_ai_gateway.Limiter.Base.{
  fixed, aligned, build_key, window_type, consume, get_window_stats,
}
use radicalbit_ai_gateway.Limiter.Base.Keys.{IsSegment, build_key-injective}
use radicalbit_ai_gateway.Limiter.Base.Windows.{aligned_bounds, boundary}
use radicalbit_ai_gateway.Limiter.Base.Counting.{counted, grown, consume_lem}
use radicalbit_ai_gateway.Limiter.Base.Stats.{stats_in, get_window_stats-live}
use radicalbit_ai_gateway.Limiting.Route.Budget.{get_total_current_usage}
use radicalbit_ai_gateway.Limiting.Route.Budget.Spend.{get_total_current_usage-remaining}
use radicalbit_ai_gateway.Tests.{
  limited_route, by_minute, world_with, ticking, backend, backend_law, two_a_minute, machine_with,
  one_hit,
}

abbrev key : Text
key = build_key fixed two_a_minute

parse-format_window_example : (s : Text) × (format_window 5400 ≡ ok s) × (parse_window s ≡ ok 5400)
parse-format_window_example = parse-format_window 5400

plain : IsSegment two_a_minute.project_uuid
plain = ((λ e. omega (arith, e)), tt)

same_key :
    (m n : ℕ)
    → build_key fixed (record two_a_minute { limit = m })
      ≡ build_key fixed (record two_a_minute { limit = n })
unfolding build_key
same_key m n = refl

build_key-injective_example :
    (fixed ≡ fixed)
    × (two_a_minute.project_uuid ≡ two_a_minute.project_uuid)
    × (two_a_minute.route_name ≡ two_a_minute.route_name)
    × (two_a_minute.scenario_type ≡ two_a_minute.scenario_type)
    × (two_a_minute.window_seconds ≡ two_a_minute.window_seconds)
build_key-injective_example =
    build_key-injective fixed fixed two_a_minute (record two_a_minute { limit = 7 }) plain plain
      (same_key 2 7)

increment-Increments_example :
    Increments cells_of key 1 60 1000
      (machine_with ((key, one_hit) ∷ []))
      (increment ticking key 1 60 1000 (machine_with ((key, one_hit) ∷ [])))
increment-Increments_example =
    increment-Increments ticking key (machine_with ((key, one_hit) ∷ [])) 1 60 1000

aligned_bounds_example :
    ((boundary ticking 60 aligned (machine_with [])).0.0 % 60 ≡ 0)
    × ((boundary ticking 60 aligned (machine_with [])).0.0
        ≤ (boundary ticking 60 aligned (machine_with [])).1.clock)
    × ((boundary ticking 60 aligned (machine_with [])).1.clock
        < (boundary ticking 60 aligned (machine_with [])).0.0 + 60)
    × ((boundary ticking 60 aligned (machine_with [])).1.clock
          + (boundary ticking 60 aligned (machine_with [])).0.1
        ≡ (boundary ticking 60 aligned (machine_with [])).0.0 + 60)
    × (0 < (boundary ticking 60 aligned (machine_with [])).0.1)
    × ((boundary ticking 60 aligned (machine_with [])).0.1 ≤ 60)
aligned_bounds_example = aligned_bounds ticking 60 (machine_with []) (omega arith)

consume_lem_example :
    ((consume ticking backend fixed two_a_minute 1 (machine_with [])).0.value
      ≡ counted cells_of
          (consume ticking backend fixed two_a_minute 1 (machine_with [])).1.clock
          []
          key
        + 1)
    × (1000 ≤ (consume ticking backend fixed two_a_minute 1 (machine_with [])).1.clock)
    × ((t : ℕ)
        → (consume ticking backend fixed two_a_minute 1 (machine_with [])).1.clock ≤ t
        → counted cells_of t
            (consume ticking backend fixed two_a_minute 1 (machine_with [])).1.store
            key
          ≤ (consume ticking backend fixed two_a_minute 1 (machine_with [])).0.value)
    × ((t : ℕ) (j : Text)
        → (consume ticking backend fixed two_a_minute 1 (machine_with [])).1.clock ≤ t
        → key ≢ j
        → live t
            (cells_of (consume ticking backend fixed two_a_minute 1 (machine_with [])).1.store j)
          ≡ live t (cells_of [] j))
    × ((e : Entry) (t : ℕ)
        → live
            (consume ticking backend fixed two_a_minute 1 (machine_with [])).1.clock
            (cells_of [] key)
          ≡ some e
        → (consume ticking backend fixed two_a_minute 1 (machine_with [])).1.clock ≤ t
        → live t
            (cells_of (consume ticking backend fixed two_a_minute 1 (machine_with [])).1.store key)
          ≡ live t (some (grown e 1)))
consume_lem_example = consume_lem ticking backend backend_law fixed two_a_minute 1 (machine_with [])

held : cells_of ((key, one_hit) ∷ []) key ≡ some one_hit
unfolding lookup
held = rw (text_eq_refl key)

in_time :
    (get_window_stats ticking backend fixed two_a_minute
      (machine_with ((key, one_hit) ∷ []))).1.clock
    < 1100
unfolding get_window_stats get get_ttl get_window_id get_valid_entry lookup read_clock text_eq
    build_key window_type scenario_value decimal
in_time = omega arith

get_window_stats-live_example :
    (get_window_stats ticking backend fixed two_a_minute (machine_with ((key, one_hit) ∷ []))).0
    ≡ stats_in two_a_minute
        (get_window_stats ticking backend fixed two_a_minute
          (machine_with ((key, one_hit) ∷ []))).1.clock
        one_hit
get_window_stats-live_example =
    get_window_stats-live ticking backend backend_law fixed two_a_minute one_hit
      (machine_with ((key, one_hit) ∷ [])) held in_time

get_total_current_usage-remaining_example :
    (get_total_current_usage ticking backend limited_route (world_with ((key, one_hit) ∷ []))).0
    ≡ ok (2 - 1)
get_total_current_usage-remaining_example =
    get_total_current_usage-remaining ticking backend backend_law limited_route by_minute refl
      one_hit (world_with ((key, one_hit) ∷ [])) held in_time
