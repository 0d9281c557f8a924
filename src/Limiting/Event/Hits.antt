-- ===== src/Limiting/Event/Hits.antt =====
-- limiting/limit_event.py, `consume_and_emit_thresholds`: one hit, and the events that it queues.
use mathlib.Core.List.{append-nil, append_assoc}
use radicalbit_ai_gateway.Prelude.{
  ℕ, ◌+◌, ◌≤◌, ◌≡◌, ◌≢◌, refl, ap, ◌∙◌, none, some, List, [], ◌∷◌, ◌++◌, map, Text, arith,
}
use radicalbit_ai_gateway.Prelude.Result.{Result, ok}
use radicalbit_ai_gateway.Limiter.Machine.{Env}
use radicalbit_ai_gateway.Limiter.Storage.{Storage, Entry, live, value_of, SameCells, IsBackend}
use radicalbit_ai_gateway.Limiter.Window.{WindowConfig}
use radicalbit_ai_gateway.Limiter.Base.{
  LimiterClass, WindowStats, Consumption, build_key, consume, get_window_stats,
}
use radicalbit_ai_gateway.Limiter.Base.Counting.{counted, grown, consume_lem}
use radicalbit_ai_gateway.Limiter.Base.Stats.{get_window_stats-Keeps}
use radicalbit_ai_gateway.Limiting.World.{
  RequestIdentity, LimitScope, LimitEventPayload, LimitError, World,
}
use radicalbit_ai_gateway.Limiting.Event.{
  threshold_event, crossed_percentages, emit_all, emit_crossed, consume_and_emit_thresholds,
}

module _ {S : Type 0} (env : Env) (storage : Storage S) (law : IsBackend storage)
    (percentages : List ℕ) where
  emit_all_lem :
      (event : ℕ → LimitEventPayload) (crossed : List ℕ) (w : World S)
      → emit_all env storage percentages event crossed w
        ≡ (ok tt, record w { events = w.events ++ map event crossed })
  unfolding emit_all
  emit_all_lem event [] w = rw append-nil
  emit_all_lem event (p ∷ crossed) w =
      emit_all_lem event crossed (record w { events = w.events ++ (event p ∷ []) })
      ∙ ap (λ (l : List LimitEventPayload). (ok tt, record w { events = l }))
          (append_assoc w.events (event p ∷ []) (map event crossed))

  -- Events for the percentages are queued, and no counter changes.
  record Emits (scope : LimitScope) (window : WindowConfig) (identity : RequestIdentity) (value : ℕ)
      (crossed : List ℕ) (w : World S) (r : Result LimitError (Unit {0}) × World S) : Type 0 where
    returns : r.0 ≡ ok tt
    told : WindowStats
    consumed : told.consumed ≡ value
    queued : r.1.events ≡ w.events ++ map (threshold_event scope window identity told) crossed
    metrics : r.1.metrics ≡ w.metrics
    later : w.clock ≤ r.1.clock
    same : SameCells r.1.clock (law.cells r.1.store) (law.cells w.store)

  emit_crossed-Emits :
      (limiter : LimiterClass) (window : WindowConfig) (scope : LimitScope)
      (identity : RequestIdentity) (c : Consumption) (crossed : List ℕ) (w : World S)
      → Emits scope window identity c.value crossed w
          (emit_crossed env storage percentages limiter window scope identity c crossed w)
  unfolding emit_crossed
  emit_crossed-Emits limiter window scope identity c [] w = record {
    returns = refl;
    told = record {
      remaining = 0;
      reset_time = 0;
      window_id = none;
      remaining_time = 0;
      consumed = c.value;
    };
    consumed = refl;
    queued = rw append-nil;
    metrics = refl;
    later = omega arith;
    same = λ t j h. refl;
  }
  emit_crossed-Emits limiter window scope identity c (p ∷ crossed) w =
      let read = get_window_stats env storage limiter window w.machine in
      let (later, same, _) = get_window_stats-Keeps env storage law limiter window w.machine in
      let stats = read.0 in
      let told : WindowStats = record stats { consumed = c.value; window_id = some c.window_id } in
      let event = threshold_event scope window identity told in
      rw (emit_all_lem event (p ∷ crossed) (record w { machine = read.1 })) (record {
        returns = refl;
        told = told;
        consumed = refl;
        queued = refl;
        metrics = refl;
        later = later;
        same = same;
      })

  module _ (limiter : LimiterClass) (window : WindowConfig) (cost : ℕ) (scope : LimitScope)
      (identity : RequestIdentity) (w : World S) where
    abbrev key : Text
    key = build_key limiter window

    abbrev hit : Result LimitError (Unit {0}) × World S
    hit = consume_and_emit_thresholds env storage percentages limiter window cost scope identity w

    -- The hit's effect: the counter's new value, as it stood when the hit was counted, and the
    -- events for the percentages that the hit took it across.
    pub record Hit : Type 0 where
      pub returns : hit.0 ≡ ok tt
      pub at : ℕ
      pub started : w.clock ≤ at
      pub later : at ≤ hit.1.clock
      pub own :
          (t : ℕ)
          → hit.1.clock ≤ t
          → counted law.cells t hit.1.store key ≤ counted law.cells at w.store key + cost
      pub others :
          (t : ℕ) (j : Text)
          → hit.1.clock ≤ t
          → key ≢ j
          → live t (law.cells hit.1.store j) ≡ live t (law.cells w.store j)
      pub grows :
          (e : Entry) (t : ℕ)
          → live at (law.cells w.store key) ≡ some e
          → hit.1.clock ≤ t
          → live t (law.cells hit.1.store key) ≡ live t (some (grown e cost))
      pub told : WindowStats
      pub consumed : told.consumed ≡ counted law.cells at w.store key + cost
      pub queued :
          hit.1.events
          ≡ w.events
            ++ map
                (threshold_event scope window identity told)
                (crossed_percentages told.consumed cost window.limit percentages)
      pub metrics : hit.1.metrics ≡ w.metrics

    -- A hit never raises. It adds its cost to its own counter alone, in the window that is open if
    -- one is, and queues an event for exactly the percentages that the addition crosses, which
    -- carries the counter after it.
    pub consume_and_emit_thresholds-Hit : Hit
    unfolding consume_and_emit_thresholds
    consume_and_emit_thresholds-Hit =
        let c = consume env storage limiter window cost w.machine in
        let (value, later, own, others, grows) =
          consume_lem env storage law limiter window cost w.machine in
        let crossed = crossed_percentages c.0.value cost window.limit percentages in
        let e =
          emit_crossed-Emits limiter window scope identity c.0 crossed
            (record w { machine = c.1 }) in
        record {
          returns = e.returns;
          at = c.1.clock;
          started = later;
          later = e.later;
          own = λ t h.
              let same : counted law.cells t hit.1.store key ≡ counted law.cells t c.1.store key =
                ap value_of (e.same t key h) in
              let bound = own t (omega (arith, e.later)) in omega (arith, same, bound, value);
          others = λ t j h ne. e.same t j h ∙ others t j (omega (arith, e.later)) ne;
          grows = λ x t here h. e.same t key h ∙ grows x t here (omega (arith, e.later));
          told = e.told;
          consumed = e.consumed ∙ value;
          queued = rw e.consumed e.queued;
          metrics = e.metrics;
        }
