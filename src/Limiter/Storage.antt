-- ===== src/Limiter/Storage.antt =====
-- limiter/storage/base.py: the interface of a counter backend, and what a limiter relies on. The
-- backend's data stands for a cell for each key; a cell whose time is over counts for nothing,
-- whether the backend has dropped it or not.
pub mod InMemory
use mathlib.Core.Option
use radicalbit_ai_gateway.Prelude.{
  ℕ, ◌+◌, ◌≤◌, ◌≡◌, Option, none, some, Text, text_eq, leb, if◌then◌else◌,
}
use radicalbit_ai_gateway.Limiter.Machine.{Machine, Op}

pub record Storage (S : Type 0) : Type 0 where
  pub get : Text → Op S (Option ℕ)
  pub get_ttl : Text → Op S (Option ℕ)
  pub get_window_id : Text → Op S (Option Text)
  -- key, amount, ttl_seconds, window_start
  pub increment : Text → ℕ → ℕ → ℕ → Op S (ℕ × Text)
  pub delete : Text → Op S (Unit {0})

-- A counter in its window.
pub record Entry : Type 0 where
  pub value : ℕ
  pub expires_at : ℕ
  pub window_id : Text
  pub window_start : ℕ

-- The cell as it counts at a time.
abbrev pub live : ℕ → Option Entry → Option Entry
live now none = none
live now (some e) = if leb e.expires_at now then none else some e

abbrev pub value_of : Option Entry → ℕ
value_of none = 0
value_of (some e) = e.value

-- The cell after an increment at time `now`: a live one keeps its window, any other starts anew.
abbrev pub bump : ℕ → ℕ → ℕ → ℕ → Text → Option Entry → Entry
bump now amount ttl_seconds window_start window_id none = record {
  value = amount;
  expires_at = now + ttl_seconds;
  window_id = window_id;
  window_start = window_start;
}
bump now amount ttl_seconds window_start window_id (some e) = record e { value = e.value + amount }

abbrev pub Cells : Type 0
Cells = Text → Option Entry

-- From time `now` on, the two hold the same counters.
abbrev pub SameCells : ℕ → Cells → Cells → Type 0
SameCells now a b = (t : ℕ) (j : Text) → now ≤ t → live t (a j) ≡ live t (b j)

abbrev pub set_cell : Text → Option Entry → Cells → Cells
set_cell k c cells j = if text_eq k j then c else cells j

module _ {S : Type 0} (cells : S → Cells) where
  -- A read of the key's cell: it changes no counter.
  pub record Reads {A : Type 0} (field : Entry → A) (k : Text) (m : Machine S)
      (r : Option A × Machine S) : Type 0 where
    pub later : m.clock ≤ r.1.clock
    pub reply : r.0 ≡ Option.map field (live r.1.clock (cells m.store k))
    pub same : SameCells r.1.clock (cells r.1.store) (cells m.store)

  abbrev bumped : Text → ℕ → ℕ → ℕ → Text → Machine S → ℕ → Entry
  bumped k amount ttl_seconds window_start window_id m now =
      bump now amount ttl_seconds window_start window_id (live now (cells m.store k))

  -- One hit on the key's cell: it changes no other counter.
  pub record Increments (k : Text) (amount ttl_seconds window_start : ℕ) (m : Machine S)
      (r : (ℕ × Text) × Machine S) : Type 0 where
    pub window_id : Text
    pub later : m.clock ≤ r.1.clock
    pub reply : r.0 ≡ (
      (bumped k amount ttl_seconds window_start window_id m r.1.clock).value,
      (bumped k amount ttl_seconds window_start window_id m r.1.clock).window_id,
    )
    pub effect : SameCells r.1.clock (cells r.1.store) (
        set_cell k
          (some (bumped k amount ttl_seconds window_start window_id m r.1.clock))
          (cells m.store))

  pub record Deletes (k : Text) (m : Machine S) (r : Unit {0} × Machine S) : Type 0 where
    pub later : m.clock ≤ r.1.clock
    pub effect : SameCells r.1.clock (cells r.1.store) (set_cell k none (cells m.store))

-- What a limiter relies on. `cells` is what the backend's data stands for.
pub record IsBackend {S : Type 0} (s : Storage S) : Type 0 where
  pub cells : S → Cells
  pub get_lem : (k : Text) (m : Machine S) → Reads cells (λ e. e.value) k m (s.get k m)
  pub get_ttl_lem : (k : Text) (m : Machine S) → Reads cells (λ e. e.expires_at) k m (s.get_ttl k m)
  pub get_window_id_lem :
      (k : Text) (m : Machine S) → Reads cells (λ e. e.window_id) k m (s.get_window_id k m)
  pub increment_lem :
      (k : Text) (amount ttl_seconds window_start : ℕ) (m : Machine S)
      → Increments cells k amount ttl_seconds window_start m
          (s.increment k amount ttl_seconds window_start m)
  pub delete_lem : (k : Text) (m : Machine S) → Deletes cells k m (s.delete k m)
