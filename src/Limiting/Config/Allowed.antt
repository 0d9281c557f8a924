-- ===== src/Limiting/Config/Allowed.antt =====
-- models/limiting.py: what a validated limit guarantees of its window.
use mathlib.Core.Path.{subst}
use native.Mathlib.Nat.{dvd_trans, dvd_of_mod-eq-zero, mod-eq-zero_of_dvd, div-add-mod'}
use radicalbit_ai_gateway.Prelude.{
  ℕ, ◌+◌, ◌*◌, ◌/◌, ◌%◌, ◌<◌, ◌≡◌, refl, true, List, [], ◌∷◌, arith, All, Bool-cases, inl, inr,
  ◌==◌, ==_iff,
}
use radicalbit_ai_gateway.Prelude.Result.{ok, >>=-eq-ok, ◌>>=◌, ◌>>◌}
use radicalbit_ai_gateway.Limiter.Machine.{Env, Machine}
use radicalbit_ai_gateway.Limiter.Window.{window_size_seconds}
use radicalbit_ai_gateway.Limiter.Base.{aligned, calculate_window_boundary}
use radicalbit_ai_gateway.Limiting.Floats.{Floats}
use radicalbit_ai_gateway.Limiting.Config.Normal.{from_window-ok}
use radicalbit_ai_gateway.Limiting.Config.{
  aligned_fixed_window, aligned_fixed_window_allowed_seconds, contains, from_window, Limiting,
  check_ranges, only_one_max_field, aligned_window_allowed, validate_limiting,
}

contains-All :
    (P : ℕ → Type 0) (allowed : List ℕ) (n : ℕ) → All P allowed → contains allowed n ≡ true → P n
contains-All P [] n h e = cc
contains-All P (s ∷ allowed) n h e = elim (Bool-cases (s == n)) [
  | inl here ↦ subst P ((==_iff s n).0 here) h.0
  | inr other ↦ contains-All P allowed n h.1 (rw other at e)
]

abbrev day : ℕ
day = 86400

allowed_divide : All (λ s. (0 < s) × (day % s ≡ 0)) aligned_fixed_window_allowed_seconds
unfolding aligned_fixed_window_allowed_seconds
allowed_divide = omega arith

-- A multiple of a multiple is its own floor.
floor_of_multiple : (n w d : ℕ) → d % w ≡ 0 → n % d ≡ 0 → (n / w) * w ≡ n
floor_of_multiple n w d p q =
    let r = mod-eq-zero_of_dvd w (dvd_trans w (dvd_of_mod-eq-zero w p) (dvd_of_mod-eq-zero d q)) in
    omega (arith, div-add-mod' n w, r)

midnight_start :
    {S : Type 0} (env : Env) (m : Machine S) (n : ℕ)
    → day % n ≡ 0
    → (calculate_window_boundary env aligned n m).1.clock % day ≡ 0
    → (calculate_window_boundary env aligned n m).0.0
      ≡ (calculate_window_boundary env aligned n m).1.clock
unfolding calculate_window_boundary
midnight_start env m n divides midnight =
    floor_of_multiple (m.clock + env.delay m.reads) n day divides midnight

module _ (F : Floats) where
  stages :
      (config : Limiting F)
      → validate_limiting F config ≡ (
          from_window (window_size_seconds config.window_size) >>= λ n.
          check_ranges F config
          >> (only_one_max_field F config
              >> (aligned_window_allowed config.algorithm n >> ok config)))
  unfolding validate_limiting
  stages config = refl

  validated :
      (config : Limiting F) {valid : Limiting F}
      → validate_limiting F config ≡ ok valid
      → (n : ℕ) × (valid ≡ config)
        × (window_size_seconds config.window_size ≡ ok n)
        × (aligned_window_allowed config.algorithm n ≡ ok tt)
  validated config e =
      let (n, en, r) =
        >>=-eq-ok (from_window (window_size_seconds config.window_size)) _ (rw stages at e) in
      let (_, _, s) = >>=-eq-ok (check_ranges F config) _ r in
      let (_, _, t) = >>=-eq-ok (only_one_max_field F config) _ s in
      let (_, allowed, last) = >>=-eq-ok (aligned_window_allowed config.algorithm n) _ t in
      (n, cc, from_window-ok _ en, allowed)

  aligned_allowed :
      (n : ℕ)
      → aligned_window_allowed aligned_fixed_window n ≡ ok tt
      → contains aligned_fixed_window_allowed_seconds n ≡ true
  unfolding aligned_window_allowed
  aligned_allowed n e = elim (Bool-cases (contains aligned_fixed_window_allowed_seconds n)) [
    | inl allowed ↦ allowed
    | inr refused ↦ (let e' = rw refused at e in cc)
  ]

  -- A validated aligned limit has a window of positive length that divides a day: where the clock
  -- reads midnight a window starts, whatever the length.
  pub validated_aligned_midnight :
      {S : Type 0} (env : Env) (m : Machine S) (config : Limiting F) {valid : Limiting F} (n : ℕ)
      → config.algorithm ≡ aligned_fixed_window
      → validate_limiting F config ≡ ok valid
      → window_size_seconds config.window_size ≡ ok n
      → (calculate_window_boundary env aligned n m).1.clock % day ≡ 0
      → (0 < n)
        × ((calculate_window_boundary env aligned n m).0.0
            ≡ (calculate_window_boundary env aligned n m).1.clock)
  validated_aligned_midnight env m config n kind e en midnight =
      let (k, _, ek, allowed) = validated config e in
      let same : k ≡ n = cc in
      let (positive, divides) =
        contains-All (λ s. (0 < s) × (day % s ≡ 0)) aligned_fixed_window_allowed_seconds n
          allowed_divide (aligned_allowed n (rw (← same, ← kind) allowed)) in
      (positive, midnight_start env m n divides midnight)
