-- ===== src/Limiter/Base.antt =====
-- limiter/base.py, limiter/fixed_window.py and limiter/fixed_aligned.py: the two limiters over any
-- backend. The subclass is a parameter, on which the methods that it overrides match.
pub mod Keys
pub mod Windows
pub mod Counting
pub mod Stats
use radicalbit_ai_gateway.Prelude.{
  ℕ, ◌+◌, ◌-◌, ◌*◌, ◌/◌, Bool, Option, none, some, ◌++◌, Text, text, decimal, leb,
}
use radicalbit_ai_gateway.Limiter.Machine.{Env, Machine, Op, ◌>>=◌, pure, read_clock}
use radicalbit_ai_gateway.Limiter.Storage.{Storage}
use radicalbit_ai_gateway.Limiter.Window.{WindowConfig, scenario_value}

-- `FixedWindowLimiter` and `AlignedFixedWindowLimiter`
pub data LimiterClass : Type 0 where
  fixed aligned : LimiterClass

pub record WindowStats : Type 0 where
  pub remaining : ℕ
  pub reset_time : ℕ
  pub window_id : Option Text
  pub remaining_time : ℕ
  pub consumed : ℕ

pub record Consumption : Type 0 where
  pub value : ℕ
  pub window_id : Text

unfoldable pub window_type : LimiterClass → Text
window_type fixed = text "fixed"
window_type aligned = text "aligned"

unfoldable pub build_key : LimiterClass → WindowConfig → Text
unfolding window_type scenario_value decimal
build_key cls config =
    text "limiter:"
    ++ (config.project_uuid
        ++ (text ":"
            ++ (config.route_name
                ++ (text ":"
                    ++ (scenario_value config.scenario_type
                        ++ (text ":"
                            ++ (window_type cls
                                ++ (text ":" ++ decimal config.window_seconds))))))))

module _ {S : Type 0} (env : Env) where
  -- The window's start, and the seconds for which a counter that starts now lives. An aligned
  -- window has a positive length: `Limiting` refuses any other.
  unfoldable pub calculate_window_boundary : LimiterClass → ℕ → Op S (ℕ × ℕ)
  unfolding read_clock
  calculate_window_boundary fixed window_seconds = do
    now ← read_clock env
    pure (now, window_seconds)
  calculate_window_boundary aligned window_seconds = do
    now ← read_clock env
    let window_start = (now / window_seconds) * window_seconds
    let window_end = window_start + window_seconds
    pure (window_start, window_end - now)

  unfoldable pub empty_stats : LimiterClass → WindowConfig → Op S WindowStats
  unfolding calculate_window_boundary read_clock
  empty_stats fixed item = do
    now ← read_clock env
    pure (record {
      remaining = item.limit;
      reset_time = now + item.window_seconds;
      window_id = none;
      remaining_time = item.window_seconds;
      consumed = 0;
    })
  empty_stats aligned item = do
    (window_start, _) ← calculate_window_boundary aligned item.window_seconds
    let reset_time = window_start + item.window_seconds
    current_time ← read_clock env
    pure (record {
      remaining = item.limit;
      reset_time = reset_time;
      window_id = none;
      remaining_time = reset_time - current_time;
      consumed = 0;
    })

abbrev within : ℕ → ℕ → Option ℕ → Bool
within limit cost none = leb cost limit
within limit cost (some current) = leb (current + cost) limit

module _ {S : Type 0} (env : Env) (storage : Storage S) (cls : LimiterClass) where
  unfoldable pub test : WindowConfig → ℕ → Op S Bool
  test item cost = do
    current ← storage.get (build_key cls item)
    pure (within item.limit cost current)

  unfoldable pub consume : WindowConfig → ℕ → Op S Consumption
  consume item cost = do
    (window_start, ttl_remaining) ← calculate_window_boundary env cls item.window_seconds
    (value, window_id) ← storage.increment (build_key cls item) cost ttl_remaining window_start
    pure (record { value = value; window_id = window_id })

  unfoldable pub hit : WindowConfig → ℕ → Op S Bool
  unfolding consume
  hit item cost = do consumption ← consume item cost; pure (leb consumption.value item.limit)

  -- The rest of `get_window_stats` once the counter and then its expiry are read.
  unfoldable pub stats_until : WindowConfig → ℕ → Option ℕ → Op S WindowStats
  stats_until item current none = empty_stats env cls item
  stats_until item current (some ttl) = do
    window_id ← storage.get_window_id (build_key cls item)
    current_time ← read_clock env
    pure (record {
      remaining = item.limit - current;
      reset_time = ttl;
      window_id = window_id;
      remaining_time = ttl - current_time;
      consumed = current;
    })

  unfoldable pub stats_of : WindowConfig → Option ℕ → Op S WindowStats
  unfolding stats_until
  stats_of item none = empty_stats env cls item
  stats_of item (some current) = do
    ttl ← storage.get_ttl (build_key cls item)
    stats_until item current ttl

  unfoldable pub get_window_stats : WindowConfig → Op S WindowStats
  unfolding stats_of stats_until
  get_window_stats item = do current ← storage.get (build_key cls item); stats_of item current
