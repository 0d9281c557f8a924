-- ===== src/Alerting/Store/InProcess/Laws.antt =====
-- alerting/alert_store.py: the dictionaries against what the dispatcher relies on.
use radicalbit_ai_gateway.Prelude.{
  ℕ, suc, ◌+◌, ◌≡◌, refl, Option, none, some, Text, text_eq, arith, text_eq_iff, if◌then◌else◌,
}
use radicalbit_ai_gateway.Prelude.Dict.{lookup, insert, remove, lookup-insert, lookup-remove}
use radicalbit_ai_gateway.Limiter.Machine.{Env, Machine, read_clock}
use radicalbit_ai_gateway.Alerting.Store.{
  Value, live, Values, Claims, Adds, Takes, IsAlertStore, or_zero,
}
use radicalbit_ai_gateway.Alerting.Store.InProcess.{
  AlertData, live_value, live_entry, set_value, claim, claim_if, put_values, increment, take,
  open_window, close_window, in_process,
}

abbrev pub values_of : AlertData → Values
values_of s k = lookup k s.values

abbrev pub opened_of : AlertData → Text → Option ℕ
opened_of s w = lookup w s.open_windows

module _ (env : Env) (k : Text) (m : Machine AlertData) where
  -- the first and the second reading of the clock
  abbrev first : ℕ
  first = m.clock + env.delay m.reads

  abbrev second : ℕ
  second = first + env.delay (m.reads + 1)

  -- What `set_value` leaves at a key, after `_live` found no entry, or one that it dropped.
  lookup-fresh :
      (j : Text) (v : Value)
      → lookup j (insert k v m.store.values)
        ≡ (if text_eq k j then some v else lookup j m.store.values)
  lookup-fresh j v = lookup-insert k j v m.store.values

  lookup-anew :
      (j : Text) (v : Value)
      → lookup j (insert k v (remove k m.store.values))
        ≡ (if text_eq k j then some v else lookup j m.store.values)
  lookup-anew j v =
      ground
        (arith, lookup-insert k j v (remove k m.store.values), lookup-remove k j m.store.values)

  -- A claim is granted exactly when the key was not live; from then on the key is live until its
  -- time to live is over if the claim was granted, and as before if not, and every other key is
  -- live as before.
  pub claim-Claims :
      (ttl_seconds : ℕ) → Claims values_of k ttl_seconds m (claim env k ttl_seconds m)
  unfolding claim claim_if live_value live_entry set_value put_values read_clock
  claim-Claims ttl_seconds =
      let now : ℕ = m.clock + env.delay m.reads in
      let v : ℕ → Value = λ at. record { value = 1; expires_at = at + ttl_seconds } in
      record {
        at = now;
        started = ground arith;
        later = ground arith;
        reply = ground arith;
        taken = λ e t h.
            ground (arith, text_eq_iff k k, lookup-fresh k (v first), lookup-anew k (v second));
        refused = λ e t h. ground arith;
        others = λ t j h n. ground (
          arith,
          lookup-fresh j (v first),
          lookup-anew j (v second),
          lookup-remove k j m.store.values,
        );
      }

  -- An increment adds one to what is live.
  pub increment-Adds :
      (ttl_seconds : ℕ) → Adds values_of k ttl_seconds m (increment env k ttl_seconds m)
  unfolding increment live_value live_entry set_value put_values read_clock
  increment-Adds ttl_seconds =
      let now : ℕ = m.clock + env.delay m.reads in
      let v : ℕ → ℕ → Value = λ n at. record { value = n; expires_at = at + ttl_seconds } in
      let held = or_zero (live now (lookup k m.store.values)) in
      record {
        at = now;
        started = ground arith;
        later = ground arith;
        reply = ground arith;
        effect = λ t h. ground (
          arith,
          text_eq_iff k k,
          lookup-fresh k (v (suc held) first),
          lookup-fresh k (v (suc held) second),
          lookup-anew k (v 1 second),
        );
        others = λ t j h n. ground (
          arith,
          lookup-fresh j (v (suc held) first),
          lookup-fresh j (v (suc held) second),
          lookup-anew j (v 1 second),
          lookup-remove k j m.store.values,
        );
      }

  -- `take` removes the key.
  pub take-Takes : Takes values_of k m (take env k m)
  unfolding take live_value live_entry put_values read_clock
  take-Takes = record {
    at = (take env k m).1.clock;
    started = ground arith;
    later = ground arith;
    reply = ground arith;
    effect = λ t h. ground (
      arith,
      text_eq_iff k k,
      lookup-remove k k m.store.values,
      lookup-remove k k (remove k m.store.values),
    );
    others = λ t j h n.
        ground
          (arith, lookup-remove k j m.store.values, lookup-remove k j (remove k m.store.values));
  }

module _ (env : Env) (w : Text) (m : Machine AlertData) where
  pub open-values :
      (closes_at : ℕ) (j : Text)
      → values_of (open_window env w closes_at m).1.store j ≡ values_of m.store j
  unfolding open_window
  open-values closes_at j = refl

  pub open-clock : (closes_at : ℕ) → (open_window env w closes_at m).1.clock ≡ m.clock
  unfolding open_window
  open-clock closes_at = refl

  pub open-opened :
      (closes_at : ℕ) (j : Text)
      → opened_of (open_window env w closes_at m).1.store j
        ≡ (if text_eq w j then some closes_at else opened_of m.store j)
  unfolding open_window
  open-opened closes_at j = lookup-insert w j closes_at m.store.open_windows

  pub close-opened :
      (j : Text)
      → opened_of (close_window env w m).1.store j
        ≡ (if text_eq w j then none else opened_of m.store j)
  unfolding close_window
  close-opened j = lookup-remove w j m.store.open_windows

  pub close-values : (j : Text) → values_of (close_window env w m).1.store j ≡ values_of m.store j
  unfolding close_window
  close-values j = refl

  pub close-clock : (close_window env w m).1.clock ≡ m.clock
  unfolding close_window
  close-clock = refl

-- The dictionaries are a store.
abbrev pub in_process-IsAlertStore : (env : Env) → IsAlertStore (in_process env)
in_process-IsAlertStore env = record {
  values = values_of;
  opened = opened_of;
  claim_lem = λ k ttl m. claim-Claims env k m ttl;
  increment_lem = λ k ttl m. increment-Adds env k m ttl;
  take_lem = take-Takes env;
  open_window-values = λ w at m j. open-values env w m at j;
  open_window-clock = λ w at m. open-clock env w m at;
  open_window-opened = λ w at m j. open-opened env w m at j;
  close_window-opened = close-opened env;
  close_window-values = close-values env;
  close_window-clock = close-clock env;
}
