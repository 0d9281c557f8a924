-- ===== src/Limiter/Base/Windows.antt =====
-- limiter/fixed_window.py and limiter/fixed_aligned.py: the windows' boundaries.
use native.Mathlib.Nat.{div-add-mod', mod-lt, mul-mod_left}
use radicalbit_ai_gateway.Prelude.{ℕ, ◌+◌, ◌*◌, ◌/◌, ◌%◌, ◌≤◌, ◌<◌, ◌≡◌, ap, arith}
use radicalbit_ai_gateway.Limiter.Machine.{Env, Machine}
use radicalbit_ai_gateway.Limiter.Base.{LimiterClass, aligned, calculate_window_boundary}

floor_bounds : (n w : ℕ) → 0 < w → ((n / w) * w % w ≡ 0) × ((n / w) * w ≤ n) × (n < (n / w) * w + w)
floor_bounds n w h = (
  mul-mod_left (n / w) w,
  omega (arith, div-add-mod' n w),
  omega (arith, div-add-mod' n w, mod-lt n h),
)

-- The multiple of `w` just below is one and the same for all numbers up to the next one.
pub floor_unique :
    (n k w : ℕ) → 0 < w → (n / w) * w ≤ k → k < (n / w) * w + w → (k / w) * w ≡ (n / w) * w
floor_unique n k w h lo hi = ap (λ q. q * w) (grind arith)

module _ {S : Type 0} (env : Env) (w : ℕ) where
  abbrev pub boundary : LimiterClass → Machine S → (ℕ × ℕ) × Machine S
  boundary cls = calculate_window_boundary env cls w

  -- An aligned window of positive length starts at a multiple of its length, holds the current
  -- second, and ends exactly when the counter's time to live, which is positive and at most the
  -- window, is over.
  pub aligned_bounds :
      (m : Machine S)
      → 0 < w
      → ((boundary aligned m).0.0 % w ≡ 0)
        × ((boundary aligned m).0.0 ≤ (boundary aligned m).1.clock)
        × ((boundary aligned m).1.clock < (boundary aligned m).0.0 + w)
        × ((boundary aligned m).1.clock + (boundary aligned m).0.1 ≡ (boundary aligned m).0.0 + w)
        × (0 < (boundary aligned m).0.1)
        × ((boundary aligned m).0.1 ≤ w)
  unfolding calculate_window_boundary
  aligned_bounds m h =
      let now = m.clock + env.delay m.reads in
      let (divides, below, above) = floor_bounds now w h in
      (divides, below, above, omega arith, omega arith, omega arith)

  -- All seconds of an aligned window of positive length have the same start.
  pub aligned_start_unique :
      (m k : Machine S)
      → 0 < w
      → (boundary aligned m).0.0 ≤ (boundary aligned k).1.clock
      → (boundary aligned k).1.clock < (boundary aligned m).0.0 + w
      → (boundary aligned k).0.0 ≡ (boundary aligned m).0.0
  unfolding calculate_window_boundary
  aligned_start_unique m k h lo hi =
      floor_unique (m.clock + env.delay m.reads) (k.clock + env.delay k.reads) w h lo hi
