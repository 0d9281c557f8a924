-- ===== src/Limiter/Base/Counting.antt =====
-- limiter/base.py: what `test`, `consume`, `hit` and `get_window_stats` compute over any backend that
-- keeps its laws.
use mathlib.Core.Option
use radicalbit_ai_gateway.Prelude.{
  ℕ, ◌+◌, ◌≤◌, ◌≡◌, ◌≢◌, refl, ap, ◌∙◌, Bool, Option, none, some, Text, arith, text_eq_refl,
  text_eq_iff, leb,
}
use radicalbit_ai_gateway.Limiter.Machine.{Env, Machine}
use radicalbit_ai_gateway.Limiter.Storage.{
  Storage, Entry, live, value_of, bump, Cells, set_cell, SameCells, IsBackend, Increments,
}
use radicalbit_ai_gateway.Limiter.Window.{WindowConfig}
use radicalbit_ai_gateway.Limiter.Base.{
  LimiterClass, fixed, aligned, Consumption, build_key, within, calculate_window_boundary, test,
  consume,
}

bump-value :
    (now amount ttl_seconds window_start : ℕ) (window_id : Text) (c : Option Entry)
    → (bump now amount ttl_seconds window_start window_id c).value ≡ value_of c + amount
bump-value now amount ttl_seconds window_start window_id none = omega arith
bump-value now amount ttl_seconds window_start window_id (some e) = refl

live-value-le : (t : ℕ) (e : Entry) → value_of (live t (some e)) ≤ e.value
live-value-le t e = ground arith

-- The counter of a window after a hit in it.
abbrev pub grown : Entry → ℕ → Entry
grown e cost = record e { value = e.value + cost }

pub set_cell_self : (k : Text) (c : Option Entry) (cells : Cells) → set_cell k c cells k ≡ c
set_cell_self k c cells = rw (text_eq_refl k)

pub set_cell_ne :
    (k j : Text) (c : Option Entry) (cells : Cells) → k ≢ j → set_cell k c cells j ≡ cells j
set_cell_ne k j c cells ne = ground (arith, text_eq_iff k j)

module _ {S : Type 0} (cells : S → Cells) where
  -- The counter of a key as it counts at a time.
  abbrev pub counted : ℕ → S → Text → ℕ
  counted now s k = value_of (live now (cells s k))

  -- One hit, by its counters.
  Increments-counted :
      (k : Text) (amount ttl_seconds window_start : ℕ) (m : Machine S) (r : (ℕ × Text) × Machine S)
      → Increments cells k amount ttl_seconds window_start m r
      → (r.0.0 ≡ counted r.1.clock m.store k + amount)
        × ((t : ℕ) → r.1.clock ≤ t → counted t r.1.store k ≤ r.0.0)
        × ((t : ℕ) (j : Text)
            → r.1.clock ≤ t
            → k ≢ j
            → live t (cells r.1.store j) ≡ live t (cells m.store j))
        × ((e : Entry) (t : ℕ)
            → live r.1.clock (cells m.store k) ≡ some e
            → r.1.clock ≤ t
            → live t (cells r.1.store k) ≡ live t (some (grown e amount)))
  Increments-counted k amount ttl_seconds window_start m r h = (
    value ∙ bump-value r.1.clock amount ttl_seconds window_start h.window_id _,
    (λ t later.
        rw (h.effect t k later, set_cell_self k (some e) (cells m.store), value)
          (live-value-le t e)),
    (λ t j later ne.
        h.effect t j later ∙ ap (live t) (set_cell_ne k j (some e) (cells m.store) ne)),
    (λ e' t here later.
        h.effect t k later
        ∙ (ap (live t) (set_cell_self k (some e) (cells m.store))
            ∙ ap (λ c. live t (some (bump r.1.clock amount ttl_seconds window_start h.window_id c)))
                here)),
  )
    where
      e : Entry
      e =
          bump r.1.clock amount ttl_seconds window_start h.window_id
            (live r.1.clock (cells m.store k))

      value : r.0.0 ≡ e.value
      value = ap (λ p. p.0) h.reply

module _ {S : Type 0} (env : Env) where
  pub boundary-store :
      (cls : LimiterClass) (w : ℕ) (m : Machine S)
      → (calculate_window_boundary env cls w m).1.store ≡ m.store
  unfolding calculate_window_boundary
  boundary-store fixed w m = refl
  boundary-store aligned w m = refl

  pub boundary-later :
      (cls : LimiterClass) (w : ℕ) (m : Machine S)
      → m.clock ≤ (calculate_window_boundary env cls w m).1.clock
  unfolding calculate_window_boundary
  boundary-later fixed w m = omega arith
  boundary-later aligned w m = omega arith

module _ {S : Type 0} (env : Env) (storage : Storage S) (law : IsBackend storage) where
  abbrev count : ℕ → S → Text → ℕ
  count = counted law.cells

  module _ (cls : LimiterClass) (item : WindowConfig) where
    abbrev key : Text
    key = build_key cls item

    within_value :
        (limit cost : ℕ) (c : Option Entry)
        → within limit cost (Option.map (λ e. e.value) c) ≡ leb (value_of c + cost) limit
    within_value limit cost none = ground arith
    within_value limit cost (some e) = refl

    module _ (cost : ℕ) (m : Machine S) where
      abbrev tested : Bool × Machine S
      tested = test env storage cls item cost m

      -- `test` says whether the counter, as it counts when the clock is read, leaves room for the
      -- cost; it changes no counter.
      pub test_lem :
          (tested.0 ≡ leb (count tested.1.clock m.store key + cost) item.limit)
          × (m.clock ≤ tested.1.clock)
          × SameCells tested.1.clock (law.cells tested.1.store) (law.cells m.store)
      unfolding test
      test_lem =
          let r = law.get_lem key m in
          (ap (within item.limit cost) r.reply ∙ within_value item.limit cost _, r.later, r.same)

      abbrev consumed : Consumption × Machine S
      consumed = consume env storage cls item cost m

      -- `consume` adds the cost to the counter as it counts when the backend reads the clock, and
      -- returns the sum; no other counter changes, this one counts for no more than the sum from
      -- then on, and if its window was open it stays the same window.
      pub consume_lem :
          (consumed.0.value ≡ count consumed.1.clock m.store key + cost)
          × (m.clock ≤ consumed.1.clock)
          × ((t : ℕ) → consumed.1.clock ≤ t → count t consumed.1.store key ≤ consumed.0.value)
          × ((t : ℕ) (j : Text)
              → consumed.1.clock ≤ t
              → key ≢ j
              → live t (law.cells consumed.1.store j) ≡ live t (law.cells m.store j))
          × ((e : Entry) (t : ℕ)
              → live consumed.1.clock (law.cells m.store key) ≡ some e
              → consumed.1.clock ≤ t
              → live t (law.cells consumed.1.store key) ≡ live t (some (grown e cost)))
      consume_lem =
          let b = calculate_window_boundary env cls item.window_seconds m in
          let r = storage.increment key cost b.0.1 b.0.0 b.1 in
          let law_of = law.increment_lem key cost b.0.1 b.0.0 b.1 in
          let same = boundary-store env cls item.window_seconds m in
          let (value, own, others, open_window) =
            Increments-counted law.cells key cost b.0.1 b.0.0 b.1 r law_of in
          unfold consume in
          (
            value ∙ ap (λ (s : S). counted law.cells r.1.clock s key + cost) same,
            omega (arith, law_of.later, boundary-later env cls item.window_seconds m),
            own,
            (λ t j h ne. others t j h ne ∙ ap (λ (s : S). live t (law.cells s j)) same),
            (λ e t here.
                open_window e t (ap (λ (s : S). live r.1.clock (law.cells s key)) same ∙ here)),
          )
