-- ===== src/Alerting/Store/InProcess.antt =====
-- alerting/alert_store.py: `InProcessAlertStore`, with two dictionaries. Every method holds the lock
-- for its whole body. Times are whole seconds.
pub mod Laws
use radicalbit_ai_gateway.Prelude.{
  ℕ, suc, ◌+◌, Bool, true, false, Option, none, some, List, [], ◌∷◌, Text, leb, if◌then◌else◌,
}
use radicalbit_ai_gateway.Prelude.Dict.{Dict, lookup, insert, remove}
use radicalbit_ai_gateway.Limiter.Machine.{
  Env, Machine, Op, ◌>>=◌, ◌>>◌, pure, read_clock, get_store, put_store,
}
use radicalbit_ai_gateway.Alerting.Store.{AlertStore, Value, or_zero}

pub record AlertData : Type 0 where
  pub values : Dict Value
  pub open_windows : Dict ℕ

module _ (env : Env) where
  unfoldable pub put_values : Dict Value → Op AlertData (Unit {0})
  put_values values m = (tt, record m { store = record m.store { values = values } })

  unfoldable pub live_entry : Text → Option Value → Op AlertData (Option ℕ)
  unfolding put_values
  live_entry key none = pure none
  live_entry key (some entry) = do
    now ← read_clock env
    stored ← get_store
    if leb entry.expires_at now
        then (put_values (remove key stored.values) >> pure none)
        else pure (some entry.value)

  -- `_live`
  unfoldable pub live_value : Text → Op AlertData (Option ℕ)
  unfolding live_entry read_clock lookup
  live_value key = do stored ← get_store; live_entry key (lookup key stored.values)

  -- `self._values[key] = (value, self._expiry(ttl_seconds))`
  unfoldable pub set_value : Text → ℕ → ℕ → Op AlertData (Unit {0})
  unfolding put_values read_clock
  set_value key value ttl_seconds = do
    now ← read_clock env
    stored ← get_store
    put_values (insert key (record { value = value; expires_at = now + ttl_seconds }) stored.values)

  unfoldable pub claim_if : Text → ℕ → Option ℕ → Op AlertData Bool
  unfolding set_value
  claim_if key ttl_seconds (some value) = pure false
  claim_if key ttl_seconds none = set_value key 1 ttl_seconds >> pure true

  unfoldable pub claim : Text → ℕ → Op AlertData Bool
  unfolding live_value claim_if
  claim key ttl_seconds = do found ← live_value key; claim_if key ttl_seconds found

  unfoldable pub increment : Text → ℕ → Op AlertData ℕ
  unfolding live_value set_value
  increment key ttl_seconds = do
    found ← live_value key
    set_value key (suc (or_zero found)) ttl_seconds
    pure (suc (or_zero found))

  unfoldable pub take : Text → Op AlertData ℕ
  unfolding live_value put_values
  take key = do
    found ← live_value key
    stored ← get_store
    put_values (remove key stored.values)
    pure (or_zero found)

  unfoldable pub open_window : Text → ℕ → Op AlertData (Unit {0})
  open_window window closes_at = do
    stored ← get_store
    put_store (record stored { open_windows = insert window closes_at stored.open_windows })

  unfoldable pub due : ℕ → Dict ℕ → List Text
  due now [] = []
  due now ((window, closes) ∷ windows) =
      let rest = due now windows in if leb closes now then window ∷ rest else rest

  unfoldable pub windows_due : ℕ → Op AlertData (List Text)
  unfolding due
  windows_due now = do stored ← get_store; pure (due now stored.open_windows)

  unfoldable pub was_open : Option ℕ → Bool
  was_open none = false
  was_open (some closes) = true

  unfoldable pub close_window : Text → Op AlertData Bool
  unfolding was_open lookup
  close_window window = do
    stored ← get_store
    put_store (record stored { open_windows = remove window stored.open_windows })
    pure (was_open (lookup window stored.open_windows))

  -- `InProcessAlertStore` as a store.
  abbrev pub in_process : AlertStore AlertData
  in_process = record {
    claim = claim;
    increment = increment;
    take = take;
    open_window = open_window;
    windows_due = windows_due;
    close_window = close_window;
  }
