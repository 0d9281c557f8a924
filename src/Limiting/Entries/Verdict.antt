-- ===== src/Limiting/Entries/Verdict.antt =====
-- The two outcomes of a check of several windows.
use radicalbit_ai_gateway.Prelude.{
  ℕ, ◌+◌, ◌≤◌, ◌<◌, ◌≡◌, refl, sym, ap, ◌∙◌, inl, inr, Option, none, some, List, [], ◌∷◌, ◌++◌,
  Text, arith, leb→le, leb→gt, Bool-cases, All,
}
use radicalbit_ai_gateway.Prelude.Result.{Result, ok, err}
use radicalbit_ai_gateway.Limiter.Machine.{Env}
use radicalbit_ai_gateway.Limiter.Storage.{Storage, value_of, IsBackend}
use radicalbit_ai_gateway.Limiter.Base.{WindowStats, build_key, test, get_window_stats}
use radicalbit_ai_gateway.Limiter.Base.Counting.{counted, test_lem}
use radicalbit_ai_gateway.Limiter.Base.Stats.{get_window_stats-Keeps}
use radicalbit_ai_gateway.Limiting.World.{
  LimitEventPayload, LimitError, Counter, World, Exec, ◌>>=◌, continue,
}
use radicalbit_ai_gateway.Limiting.Room.{Active, refuse}
use radicalbit_ai_gateway.Limiting.Room.Verdict.{Unchanged, counter_of, refuse_lem}
use radicalbit_ai_gateway.Limiting.Entries.{Exceeded, stop_or_go, first_exceeded, if_exceeded}

module _ {S : Type 0} {storage : Storage S} (law : IsBackend storage) where
  -- At some time of the check the window had room for the cost.
  pub record Roomy (cost : ℕ) (w w' : World S) (a : Active) : Type 0 where
    pub at : ℕ
    pub started : w.clock ≤ at
    pub ended : at ≤ w'.clock
    pub room : counted law.cells at w.store (build_key a.limiter a.item) + cost ≤ a.item.limit

  -- At some time of the check the window had no room for the cost.
  pub record Full (cost : ℕ) (w w' : World S) (a : Active) : Type 0 where
    pub at : ℕ
    pub started : w.clock ≤ at
    pub ended : at ≤ w'.clock
    pub full : a.item.limit < counted law.cells at w.store (build_key a.limiter a.item) + cost

  -- The first window without room, after those that have it.
  pub data Outcome (cost : ℕ) (w : World S)
      : List Active → Result LimitError Exceeded × World S → Type 0 where
    passed :
        (entries : List Active) (w' : World S)
        → All (Roomy cost w w') entries
        → Unchanged law w w'
        → w'.events ≡ w.events
        → w'.metrics ≡ w.metrics
        → Outcome cost w entries (ok none, w')
    exceeded :
        (before : List Active) (a : Active) (after : List Active) (stats : WindowStats)
        (w' : World S)
        → All (Roomy cost w w') before
        → Full cost w w' a
        → Unchanged law w w'
        → w'.events ≡ w.events
        → w'.metrics ≡ w.metrics
        → Outcome cost w (before ++ (a ∷ after)) (ok (some (a, stats)), w')

  -- A check that began when only the clock had moved.
  Roomy-earlier :
      (cost : ℕ) (w v w' : World S) (a : Active)
      → Unchanged law w v
      → Roomy cost v w' a
      → Roomy cost w w' a
  Roomy-earlier cost w v w' a same r = record {
    at = r.at;
    started = omega (arith, same.later, r.started);
    ended = r.ended;
    room =
        let e = ap value_of (same.same r.at (build_key a.limiter a.item) r.started) in
        omega (arith, e, r.room);
  }

  Full-earlier :
      (cost : ℕ) (w v w' : World S) (a : Active)
      → Unchanged law w v
      → Full cost v w' a
      → Full cost w w' a
  Full-earlier cost w v w' a same r = record {
    at = r.at;
    started = omega (arith, same.later, r.started);
    ended = r.ended;
    full =
        let e = ap value_of (same.same r.at (build_key a.limiter a.item) r.started) in
        omega (arith, e, r.full);
  }

  All-earlier :
      (cost : ℕ) (w v w' : World S) (l : List Active)
      → Unchanged law w v
      → All (Roomy cost v w') l
      → All (Roomy cost w w') l
  All-earlier cost w v w' [] same h = tt
  All-earlier cost w v w' (a ∷ l) same (r, h) =
      (Roomy-earlier cost w v w' a same r, All-earlier cost w v w' l same h)

  Unchanged-trans : (w v u : World S) → Unchanged law w v → Unchanged law v u → Unchanged law w u
  Unchanged-trans w v u p q = record {
    later = omega (arith, p.later, q.later);
    same = λ t j h. q.same t j h ∙ p.same t j (omega (arith, q.later));
  }

  -- A window with room, and the check of the rest from where its test left off.
  step :
      (cost : ℕ) (w v : World S) (a : Active) (entries : List Active)
      (r : Result LimitError Exceeded × World S)
      → Unchanged law w v
      → v.events ≡ w.events
      → v.metrics ≡ w.metrics
      → counted law.cells v.clock w.store (build_key a.limiter a.item) + cost ≤ a.item.limit
      → Outcome cost v entries r
      → Outcome cost w (a ∷ entries) r
  step cost w v a entries r same e m room (passed _ w' roomy rest e' m') =
      passed (a ∷ entries) w'
        (
          record { at = v.clock; started = same.later; ended = rest.later; room = room },
          All-earlier cost w v w' entries same roomy,
        )
        (Unchanged-trans w v w' same rest) (e' ∙ e) (m' ∙ m)
  step cost w v a entries r same e m room (exceeded before b after stats w' roomy full rest e' m') =
      exceeded (a ∷ before) b after stats w'
        (
          record { at = v.clock; started = same.later; ended = rest.later; room = room },
          All-earlier cost w v w' before same roomy,
        )
        (Full-earlier cost w v w' b same full) (Unchanged-trans w v w' same rest) (e' ∙ e) (m' ∙ m)

module _ {S : Type 0} (env : Env) (storage : Storage S) (law : IsBackend storage) where
  -- The check of several windows finds the first one without room for the cost, in the order in
  -- which they were configured, or none if each had room when it was tested. Either way it changes
  -- no counter and queues nothing.
  pub first_exceeded-Outcome :
      (cost : ℕ) (entries : List Active) (w : World S)
      → Outcome law cost w entries (first_exceeded env storage cost entries w)
  unfolding first_exceeded stop_or_go
  first_exceeded-Outcome cost [] w =
      passed [] w tt (record { later = omega arith; same = λ t j h. refl }) refl refl
  first_exceeded-Outcome cost (a ∷ entries) w =
      let t = test env storage a.limiter a.item cost w.machine in
      let (reply, later, same) = test_lem env storage law a.limiter a.item cost w.machine in
      let s = get_window_stats env storage a.limiter a.item t.1 in
      let (later', same', _) = get_window_stats-Keeps env storage law a.limiter a.item t.1 in
      let v : World S = record w { machine = t.1 } in
      let u : World S = record w { machine = s.1 } in
      elim (Bool-cases t.0) [
        | inl room ↦ rw room (
            step law cost w v a entries (first_exceeded env storage cost entries v)
              (record { later = later; same = same }) refl refl (leb→le _ _ (sym reply ∙ room))
              (first_exceeded-Outcome cost entries v))
        | inr full ↦ rw full (
            exceeded [] a entries s.0 u tt
              (record {
                at = t.1.clock;
                started = later;
                ended = later';
                full = leb→gt _ _ (sym reply ∙ full);
              })
              (record {
                later = omega (arith, later, later');
                same = λ x j h. same' x j h ∙ same x j (omega (arith, later'));
              })
              refl refl)
      ]

module _ {S : Type 0} {storage : Storage S} (law : IsBackend storage) where
  -- The outcome of a check that refuses for the first window without room.
  pub data Decision (cost : ℕ) (event : Active → WindowStats → LimitEventPayload)
      (counter : List (Counter × Text)) (error : WindowStats → LimitError) (w : World S)
      : List Active → Result LimitError (Unit {0}) × World S → Type 0 where
    accepts :
        (entries : List Active) (w' : World S)
        → All (Roomy law cost w w') entries
        → Unchanged law w w'
        → w'.events ≡ w.events
        → w'.metrics ≡ w.metrics
        → Decision cost event counter error w entries (ok tt, w')
    rejects :
        (before : List Active) (a : Active) (after : List Active) (stats : WindowStats)
        (w' : World S)
        → All (Roomy law cost w w') before
        → Full law cost w w' a
        → Unchanged law w w'
        → w'.events ≡ w.events ++ (event a stats ∷ [])
        → w'.metrics ≡ w.metrics ++ counter
        → Decision cost event counter error w (before ++ (a ∷ after)) (err (error stats), w')

module _ {S : Type 0} (env : Env) (storage : Storage S) (law : IsBackend storage) (cost : ℕ)
    (event : Active → WindowStats → LimitEventPayload) (counter : Option Counter)
    (route_name : Text) (error : WindowStats → LimitError) where
  abbrev pub refuse_for : Active → WindowStats → Exec S (Unit {0})
  refuse_for entry stats = refuse (event entry stats) counter route_name (error stats)

  All-moved :
      (w v u : World S) (l : List Active)
      → v.clock ≤ u.clock
      → All (Roomy law cost w v) l
      → All (Roomy law cost w u) l
  All-moved w v u [] h x = tt
  All-moved w v u (a ∷ l) h (r, x) = (
    record { at = r.at; started = r.started; ended = omega (arith, h, r.ended); room = r.room },
    All-moved w v u l h x,
  )

  decide :
      (w : World S) (entries : List Active) (r : Result LimitError Exceeded × World S)
      → Outcome law cost w entries r
      → Decision law cost event
          (counter_of counter route_name)
          error
          w
          entries
          (continue r.0 (if_exceeded refuse_for) r.1)
  unfolding if_exceeded
  decide w entries r (passed _ w' roomy same e m) = accepts entries w' roomy same e m
  decide w entries r (exceeded before a after stats w' roomy full same e m) =
      let u : World S = record w' {
        events = w'.events ++ (event a stats ∷ []);
        metrics = w'.metrics ++ counter_of counter route_name;
      } in
      rw (refuse_lem env storage law a cost (event a) counter route_name error counter stats w') (
        rejects before a after stats u (All-moved w w' u before (omega arith) roomy)
          (record { at = full.at; started = full.started; ended = full.ended; full = full.full })
          (record { later = same.later; same = same.same }) (ap (λ l. l ++ (event a stats ∷ [])) e)
          (ap (λ l. l ++ counter_of counter route_name) m))

  -- A check of several windows accepts the request, with no trace, if each window had room when it
  -- was tested, and refuses it for the first window without room, with one event for that window,
  -- the telemetry counter and its exception; it changes no counter either way.
  pub check_entries-Decision :
      (entries : List Active) (w : World S)
      → Decision law cost event
          (counter_of counter route_name)
          error
          w
          entries
          ((first_exceeded env storage cost entries >>= if_exceeded refuse_for) w)
  check_entries-Decision entries w =
      let r = first_exceeded env storage cost entries w in
      decide w entries r (first_exceeded-Outcome env storage law cost entries w)
