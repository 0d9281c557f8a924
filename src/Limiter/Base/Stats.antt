-- ===== src/Limiter/Base/Stats.antt =====
-- limiter/base.py, `get_window_stats`, over any backend that keeps its laws.
use mathlib.Core.Option
use radicalbit_ai_gateway.Prelude.{
  ℕ, ◌-◌, ◌≤◌, ◌<◌, ◌≡◌, refl, ap, ◌∙◌, Option, none, some, Text, arith,
}
use radicalbit_ai_gateway.Limiter.Machine.{Env, Machine, read_clock}
use radicalbit_ai_gateway.Limiter.Storage.{Storage, Entry, live, SameCells, IsBackend, Reads}
use radicalbit_ai_gateway.Limiter.Window.{WindowConfig}
use radicalbit_ai_gateway.Limiter.Base.{
  LimiterClass, fixed, aligned, WindowStats, build_key, empty_stats, stats_until, stats_of,
  get_window_stats,
}

-- What the counter in the cell says of its window.
abbrev pub stats_in : WindowConfig → ℕ → Entry → WindowStats
stats_in item now e = record {
  remaining = item.limit - e.value;
  reset_time = e.expires_at;
  window_id = some e.window_id;
  remaining_time = e.expires_at - now;
  consumed = e.value;
}

module _ {S : Type 0} (env : Env) where
  empty_stats-keeps :
      (cls : LimiterClass) (item : WindowConfig) (m : Machine S)
      → (m.clock ≤ (empty_stats env cls item m).1.clock)
        × ((empty_stats env cls item m).1.store ≡ m.store)
        × ((empty_stats env cls item m).0.remaining
            ≡ item.limit - (empty_stats env cls item m).0.consumed)
  unfolding empty_stats
  empty_stats-keeps fixed item m = (omega arith, refl, omega arith)
  empty_stats-keeps aligned item m = (omega arith, refl, omega arith)

module _ {S : Type 0} (env : Env) (storage : Storage S) (law : IsBackend storage)
    (cls : LimiterClass) (item : WindowConfig) where
  -- What every stage of `get_window_stats` keeps.
  abbrev Keeps : Machine S → WindowStats × Machine S → Type 0
  Keeps m r =
      (m.clock ≤ r.1.clock)
      × SameCells r.1.clock (law.cells r.1.store) (law.cells m.store)
      × (r.0.remaining ≡ item.limit - r.0.consumed)

  Keeps-empty : (m : Machine S) → Keeps m (empty_stats env cls item m)
  Keeps-empty m =
      let (later, same, full) = empty_stats-keeps env cls item m in
      (later, (λ t j h. ap (λ (s : S). live t (law.cells s j)) same), full)

  Keeps-after :
      {A : Type 0} {field : Entry → A} (k : Text) (m : Machine S) (r : Option A × Machine S)
      (s : WindowStats × Machine S)
      → Reads law.cells field k m r
      → Keeps r.1 s
      → Keeps m s
  Keeps-after k m r s h (later, same, full) =
      (omega (arith, h.later), (λ t j p. same t j p ∙ h.same t j (omega arith)), full)

  Keeps-until :
      (current : ℕ) (ttl : Option ℕ) (m : Machine S)
      → Keeps m (stats_until env storage cls item current ttl m)
  unfolding stats_until read_clock
  Keeps-until current none m = Keeps-empty m
  Keeps-until current (some ttl) m =
      let h = law.get_window_id_lem (build_key cls item) m in
      (omega (arith, h.later), (λ t j p. h.same t j (omega arith)), refl)

  Keeps-of :
      (current : Option ℕ) (m : Machine S) → Keeps m (stats_of env storage cls item current m)
  unfolding stats_of
  Keeps-of none m = Keeps-empty m
  Keeps-of (some current) m =
      let k = build_key cls item in
      let r = storage.get_ttl k m in
      Keeps-after k m r (stats_until env storage cls item current r.0 r.1) (law.get_ttl_lem k m)
        (Keeps-until current r.0 r.1)

  module _ (m : Machine S) where
    abbrev stats : WindowStats × Machine S
    stats = get_window_stats env storage cls item m

    -- Whatever the counter does meanwhile, the statistics change no counter, and what they say
    -- remains is the limit less what they say is consumed, or nothing.
    pub get_window_stats-Keeps :
        (m.clock ≤ stats.1.clock)
        × SameCells stats.1.clock (law.cells stats.1.store) (law.cells m.store)
        × (stats.0.remaining ≡ item.limit - stats.0.consumed)
    unfolding get_window_stats
    get_window_stats-Keeps =
        let k = build_key cls item in
        let r = storage.get k m in
        Keeps-after k m r (stats_of env storage cls item r.0 r.1) (law.get_lem k m)
          (Keeps-of r.0 r.1)

live_until : (t : ℕ) (e : Entry) → t < e.expires_at → live t (some e) ≡ some e
live_until t e h = ground arith

module _ {S : Type 0} (env : Env) (storage : Storage S) (law : IsBackend storage)
    (cls : LimiterClass) (item : WindowConfig) (e : Entry) where
  -- A read of the cell before its time is over.
  read_live :
      {A : Type 0} {field : Entry → A} (k : Text) (m : Machine S) (r : Option A × Machine S)
      → Reads law.cells field k m r
      → live r.1.clock (law.cells m.store k) ≡ some e
      → r.0 ≡ some (field e)
  read_live {field = field} k m r h l = h.reply ∙ ap (Option.map field) l

  -- The cell holds the counter for as long as its window lasts.
  abbrev LiveFrom : Machine S → Type 0
  LiveFrom m =
      (t : ℕ)
      → m.clock ≤ t
      → t < e.expires_at
      → live t (law.cells m.store (build_key cls item)) ≡ some e

  LiveFrom-after :
      {A : Type 0} {field : Entry → A} (m : Machine S) (r : Option A × Machine S)
      → Reads law.cells field (build_key cls item) m r
      → LiveFrom m
      → LiveFrom r.1
  LiveFrom-after m r h l t p q = h.same t (build_key cls item) p ∙ l t (omega (arith, h.later)) q

  -- The statistics are those of the counter as the last reading of the clock finds it.
  abbrev Tells : WindowStats × Machine S → Type 0
  Tells r = r.1.clock < e.expires_at → r.0 ≡ stats_in item r.1.clock e

  stats_until-live :
      (m : Machine S)
      → LiveFrom m
      → Tells (stats_until env storage cls item e.value (some e.expires_at) m)
  unfolding stats_until read_clock
  stats_until-live m l before =
      let k = build_key cls item in
      let h = law.get_window_id_lem k m in
      let found : (storage.get_window_id k m).0 ≡ some e.window_id =
        read_live k m (storage.get_window_id k m) h (l _ h.later (omega arith)) in
      rw found

  stats_of-live :
      (m : Machine S) → LiveFrom m → Tells (stats_of env storage cls item (some e.value) m)
  unfolding stats_of
  stats_of-live m l before =
      let k = build_key cls item in
      let h = law.get_ttl_lem k m in
      let r = storage.get_ttl k m in
      let (later, _, _) = Keeps-until env storage law cls item e.value r.0 r.1 in
      let found : r.0 ≡ some e.expires_at =
        read_live k m r h (l _ h.later (omega (arith, later))) in
      rw found (stats_until-live r.1 (LiveFrom-after m r h l) (rw found at before))

  -- While a window is open from the first to the last reading of the clock, its statistics are
  -- exactly its counter's: the room that is left, the second of the reset and the seconds to it,
  -- the window's identifier and what was consumed.
  pub get_window_stats-live :
      (m : Machine S)
      → law.cells m.store (build_key cls item) ≡ some e
      → (get_window_stats env storage cls item m).1.clock < e.expires_at
      → (get_window_stats env storage cls item m).0
        ≡ stats_in item (get_window_stats env storage cls item m).1.clock e
  unfolding get_window_stats
  get_window_stats-live m cell before =
      let k = build_key cls item in
      let h = law.get_lem k m in
      let r = storage.get k m in
      let (later, _, _) = Keeps-of env storage law cls item r.0 r.1 in
      let l : LiveFrom m = λ t p q. ap (live t) cell ∙ live_until t e q in
      let found : r.0 ≡ some e.value = read_live k m r h (l _ h.later (omega (arith, later))) in
      rw found (stats_of-live r.1 (LiveFrom-after m r h l) (rw found at before))
