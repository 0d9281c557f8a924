-- ===== src/Limiting/Room/Verdict.antt =====
-- The two outcomes of a check, over any backend that keeps its laws.
use mathlib.Core.List.{append-nil}
use radicalbit_ai_gateway.Prelude.{
  ℕ, ◌+◌, ◌≤◌, ◌<◌, ◌≡◌, refl, sym, ◌∙◌, inl, inr, Option, none, some, List, [], ◌∷◌, ◌++◌, Text,
  arith, leb→le, leb→gt, Bool-cases,
}
use radicalbit_ai_gateway.Prelude.Result.{Result, ok, err}
use radicalbit_ai_gateway.Limiter.Machine.{Env}
use radicalbit_ai_gateway.Limiter.Storage.{Storage, SameCells, IsBackend}
use radicalbit_ai_gateway.Limiter.Base.{WindowStats, build_key, test, get_window_stats}
use radicalbit_ai_gateway.Limiter.Base.Counting.{counted, test_lem}
use radicalbit_ai_gateway.Limiter.Base.Stats.{get_window_stats-Keeps}
use radicalbit_ai_gateway.Limiting.World.{LimitEventPayload, LimitError, Counter, World}
use radicalbit_ai_gateway.Limiting.Room.{Active, check_room, refuse}

abbrev pub counter_of : Option Counter → Text → List (Counter × Text)
counter_of none route_name = []
counter_of (some counter) route_name = (counter, route_name) ∷ []

module _ {S : Type 0} {storage : Storage S} (law : IsBackend storage) where
  -- Nothing that a later test can see has changed.
  pub record Unchanged (w w' : World S) : Type 0 where
    pub later : w.clock ≤ w'.clock
    pub same : SameCells w'.clock (law.cells w'.store) (law.cells w.store)

  -- The outcome of a check by what the counter leaves at the time `at` of its test.
  pub data Verdict (a : Active) (cost : ℕ) (event : WindowStats → LimitEventPayload)
      (counter : List (Counter × Text)) (error : WindowStats → LimitError) (w : World S)
      : Result LimitError (Unit {0}) × World S → Type 0 where
    allowed :
        (at : ℕ) (w' : World S)
        → w.clock ≤ at
        → counted law.cells at w.store (build_key a.limiter a.item) + cost ≤ a.item.limit
        → at ≤ w'.clock
        → Unchanged w w'
        → w'.events ≡ w.events
        → w'.metrics ≡ w.metrics
        → Verdict a cost event counter error w (ok tt, w')
    refused :
        (at : ℕ) (w' : World S) (stats : WindowStats)
        → w.clock ≤ at
        → a.item.limit < counted law.cells at w.store (build_key a.limiter a.item) + cost
        → at ≤ w'.clock
        → Unchanged w w'
        → w'.events ≡ w.events ++ (event stats ∷ [])
        → w'.metrics ≡ w.metrics ++ counter
        → Verdict a cost event counter error w (err (error stats), w')

module _ {S : Type 0} (env : Env) (storage : Storage S) (law : IsBackend storage) where
  module _ (a : Active) (cost : ℕ) (event : WindowStats → LimitEventPayload)
      (counter : Option Counter) (route_name : Text) (error : WindowStats → LimitError) where
    pub refuse_lem :
        (c : Option Counter) (stats : WindowStats) (w : World S)
        → refuse (event stats) c route_name (error stats) w ≡ (
          err (error stats),
          record w {
            events = w.events ++ (event stats ∷ []);
            metrics = w.metrics ++ counter_of c route_name;
          },
        )
    unfolding refuse
    refuse_lem none stats w = rw append-nil
    refuse_lem (some c) stats w = refl

    -- A check lets the request pass, with no trace, or refuses it with one event, one increment of
    -- the class's telemetry counter and its exception; it changes no counter either way.
    pub check_room-Verdict :
        (w : World S)
        → Verdict law a cost event (counter_of counter route_name) error w (
            check_room env storage a cost
              (λ stats. refuse (event stats) counter route_name (error stats))
              w)
    unfolding check_room
    check_room-Verdict w =
        let t = test env storage a.limiter a.item cost w.machine in
        let (reply, later, same) = test_lem env storage law a.limiter a.item cost w.machine in
        let s = get_window_stats env storage a.limiter a.item t.1 in
        let (later', same', _) = get_window_stats-Keeps env storage law a.limiter a.item t.1 in
        elim (Bool-cases t.0) [
          | inl room ↦ rw room (
              allowed t.1.clock (record w { machine = t.1 }) later (leb→le _ _ (sym reply ∙ room))
                (omega arith) (record { later = later; same = same }) refl refl)
          | inr full ↦ rw full (
              rw (refuse_lem counter s.0 (record w { machine = s.1 })) (
                refused t.1.clock
                  (record w {
                    machine = s.1;
                    events = w.events ++ (event s.0 ∷ []);
                    metrics = w.metrics ++ counter_of counter route_name;
                  })
                  s.0 later (leb→gt _ _ (sym reply ∙ full)) later'
                  (record {
                    later = omega (arith, later, later');
                    same = λ u j h. same' u j h ∙ same u j (omega (arith, later'));
                  })
                  refl refl))
        ]
