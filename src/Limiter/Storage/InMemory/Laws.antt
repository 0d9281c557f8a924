-- ===== src/Limiter/Storage/InMemory/Laws.antt =====
-- limiter/storage/memory.py: the laws of a backend hold of the dictionary.
use mathlib.Core.Option
use radicalbit_ai_gateway.Prelude.{ℕ, ◌+◌, ap, ◌≡◌, Text, arith, text_eq_iff, ◌≤◌}
use radicalbit_ai_gateway.Prelude.Dict.{Dict, lookup, lookup-insert, lookup-remove}
use radicalbit_ai_gateway.Limiter.Machine.{Env, Machine}
use radicalbit_ai_gateway.Limiter.Storage.{
  Entry, live, bump, Cells, SameCells, Reads, Increments, Deletes, IsBackend,
}
use radicalbit_ai_gateway.Limiter.Storage.InMemory.{
  get_valid_entry, get, get_ttl, get_window_id, increment, delete, in_memory,
}

abbrev pub cells_of : Dict Entry → Cells
cells_of d k = lookup k d

module _ (env : Env) (k : Text) (m : Machine (Dict Entry)) where
  valid-later : m.clock ≤ (get_valid_entry env k m).1.clock
  unfolding get_valid_entry
  valid-later = ground arith

  valid-same :
      SameCells
        (get_valid_entry env k m).1.clock
        (cells_of (get_valid_entry env k m).1.store)
        (cells_of m.store)
  unfolding get_valid_entry
  valid-same t j h = ground (arith, lookup-remove k j m.store, text_eq_iff k j)

  valid-reply :
      (get_valid_entry env k m).0 ≡ live (get_valid_entry env k m).1.clock (lookup k m.store)
  unfolding get_valid_entry
  valid-reply = ground arith

  field-Reads :
      {A : Type 0} (field : Entry → A)
      → Reads cells_of field k m
          (Option.map field (get_valid_entry env k m).0, (get_valid_entry env k m).1)
  field-Reads field = record {
    later = valid-later;
    reply = ap (Option.map field) valid-reply;
    same = valid-same;
  }

  pub get-Reads : Reads cells_of (λ e. e.value) k m (get env k m)
  get-Reads = unfold get in field-Reads (λ e. e.value)

  pub get_ttl-Reads : Reads cells_of (λ e. e.expires_at) k m (get_ttl env k m)
  get_ttl-Reads = unfold get_ttl in field-Reads (λ e. e.expires_at)

  pub get_window_id-Reads : Reads cells_of (λ e. e.window_id) k m (get_window_id env k m)
  get_window_id-Reads = unfold get_window_id in field-Reads (λ e. e.window_id)

  -- An increment adds to the counter if its window is open, keeping the window, and starts a window
  -- anew otherwise; it returns the counter and the window's identifier and changes no other
  -- counter.
  pub increment-Increments :
      (amount ttl_seconds window_start : ℕ)
      → Increments cells_of k amount ttl_seconds window_start m
          (increment env k amount ttl_seconds window_start m)
  unfolding increment
  increment-Increments amount ttl_seconds window_start = record {
    window_id = env.uuid4 m.issued;
    later = ground arith;
    reply = ground arith;
    effect = λ t j h.
        let now = m.clock + env.delay m.reads in
        ground (
          arith,
          lookup-insert k j
              (bump now amount ttl_seconds window_start (env.uuid4 m.issued)
                (live now (lookup k m.store)))
              m.store,
        );
  }

  -- A deletion leaves the key without a counter and changes no other counter.
  pub delete-Deletes : Deletes cells_of k m (delete env k m)
  unfolding delete
  delete-Deletes = record {
    later = ground arith;
    effect = λ t j h. ground (arith, lookup-remove k j m.store);
  }

-- The dictionary is a backend.
abbrev pub in_memory-IsBackend : (env : Env) → IsBackend (in_memory env)
in_memory-IsBackend env = record {
  cells = cells_of;
  get_lem = get-Reads env;
  get_ttl_lem = get_ttl-Reads env;
  get_window_id_lem = get_window_id-Reads env;
  increment_lem = λ k amount ttl_seconds window_start m.
      increment-Increments env k m amount ttl_seconds window_start;
  delete_lem = delete-Deletes env;
}
