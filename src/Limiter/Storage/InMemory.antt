-- ===== src/Limiter/Storage/InMemory.antt =====
-- limiter/storage/memory.py: `InMemoryStorage`, a dictionary of counters. An expired entry is dropped
-- when it is read. Every method holds the lock for its whole body.
pub mod Laws
use mathlib.Core.Option
use radicalbit_ai_gateway.Prelude.{ℕ, ◌+◌, Option, none, some, Text, leb, if◌then◌else◌}
use radicalbit_ai_gateway.Prelude.Dict.{Dict, lookup, insert, remove}
use radicalbit_ai_gateway.Limiter.Machine.{
  Env, Machine, Op, ◌>>=◌, ◌>>◌, pure, read_clock, draw_uuid, get_store, put_store,
}
use radicalbit_ai_gateway.Limiter.Storage.{Storage, Entry}

module _ (env : Env) where
  drop_expired : Text → Option Entry → Op (Dict Entry) (Option Entry)
  drop_expired key none = pure none
  drop_expired key (some entry) = do
    now ← read_clock env
    stored ← get_store
    if leb entry.expires_at now
        then (put_store (remove key stored) >> pure none)
        else pure (some entry)

  unfoldable pub get_valid_entry : Text → Op (Dict Entry) (Option Entry)
  unfolding drop_expired read_clock lookup
  get_valid_entry key = do stored ← get_store; drop_expired key (lookup key stored)

  unfoldable pub get : Text → Op (Dict Entry) (Option ℕ)
  unfolding get_valid_entry
  get key = do entry ← get_valid_entry key; pure (Option.map (λ e. e.value) entry)

  unfoldable pub get_ttl : Text → Op (Dict Entry) (Option ℕ)
  unfolding get_valid_entry
  get_ttl key = do entry ← get_valid_entry key; pure (Option.map (λ e. e.expires_at) entry)

  unfoldable pub get_window_id : Text → Op (Dict Entry) (Option Text)
  unfolding get_valid_entry
  get_window_id key = do entry ← get_valid_entry key; pure (Option.map (λ e. e.window_id) entry)

  -- `self._data[key] = entry`
  store_entry : Text → Entry → Op (Dict Entry) (ℕ × Text)
  store_entry key entry = do
    stored ← get_store
    put_store (insert key entry stored)
    pure (entry.value, entry.window_id)

  fresh_window : Text → ℕ → ℕ → ℕ → Op (Dict Entry) (ℕ × Text)
  unfolding store_entry draw_uuid
  fresh_window key amount expires_at window_start = do
    window_id ← draw_uuid env
    store_entry key (record {
      value = amount;
      expires_at = expires_at;
      window_id = window_id;
      window_start = window_start;
    })

  increment_entry : Text → ℕ → ℕ → ℕ → ℕ → Option Entry → Op (Dict Entry) (ℕ × Text)
  unfolding store_entry fresh_window
  increment_entry key amount ttl_seconds window_start now none =
      fresh_window key amount (now + ttl_seconds) window_start
  increment_entry key amount ttl_seconds window_start now (some entry) =
      if leb entry.expires_at now
      then fresh_window key amount (now + ttl_seconds) window_start
      else store_entry key (record entry { value = entry.value + amount })

  unfoldable pub increment : Text → ℕ → ℕ → ℕ → Op (Dict Entry) (ℕ × Text)
  unfolding increment_entry read_clock lookup
  increment key amount ttl_seconds window_start = do
    now ← read_clock env
    stored ← get_store
    increment_entry key amount ttl_seconds window_start now (lookup key stored)

  unfoldable pub delete : Text → Op (Dict Entry) (Unit {0})
  delete key = do stored ← get_store; put_store (remove key stored)

  -- `InMemoryStorage` as a backend.
  abbrev pub in_memory : Storage (Dict Entry)
  in_memory = record {
    get = get;
    get_ttl = get_ttl;
    get_window_id = get_window_id;
    increment = increment;
    delete = delete;
  }
