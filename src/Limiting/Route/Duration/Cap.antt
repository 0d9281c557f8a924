-- ===== src/Limiting/Route/Duration/Cap.antt =====
-- limiting/duration_limiter.py: the transcribed seconds stay within the limit.
use mathlib.Core.Path.{subst}
use radicalbit_ai_gateway.Prelude.{ℕ, ◌≤◌, ◌≡◌, sym, ap, Option, none, some, List, arith}
use radicalbit_ai_gateway.Prelude.Result.{Result}
use radicalbit_ai_gateway.Limiter.Machine.{Env}
use radicalbit_ai_gateway.Limiter.Storage.{Storage, value_of, IsBackend}
use radicalbit_ai_gateway.Limiter.Base.{build_key}
use radicalbit_ai_gateway.Limiter.Base.Counting.{counted}
use radicalbit_ai_gateway.Limiting.Floats.{Floats}
use radicalbit_ai_gateway.Limiting.World.{
  LimitError, audio_duration_limiting, World, route, continue,
}
use radicalbit_ai_gateway.Limiting.Room.{Caller, identity_of, Active, check_room, refuse}
use radicalbit_ai_gateway.Limiting.Room.Verdict.{
  Verdict, allowed, refused, counter_of, check_room-Verdict,
}
use radicalbit_ai_gateway.Limiting.Event.{consume_and_emit_thresholds}
use radicalbit_ai_gateway.Limiting.Event.Hits.{consume_and_emit_thresholds-Hit}
use radicalbit_ai_gateway.Limiting.Route.{RouteLimiter}
use radicalbit_ai_gateway.Limiting.Route.Rate.Cap.{counted-falls}
use radicalbit_ai_gateway.Limiting.Route.Duration.{
  duration_event, duration_error, estimate_audio_duration_seconds, check_and_count, by_estimate,
  by_active, check_and_count_duration,
}

module _ (F : Floats) {Bytes : Type 0} (wave_header : Bytes → Option (ℕ × ℕ)) {S : Type 0}
    (env : Env) (storage : Storage S) (law : IsBackend storage) (percentages : List ℕ)
    (self : RouteLimiter) (a : Active) (set : self.active ≡ some a) where
  abbrev pub InLimit : World S → Type 0
  InLimit w =
      (t : ℕ)
      → w.clock ≤ t
      → counted law.cells t w.store (build_key a.limiter a.item) ≤ a.item.limit

  after_check :
      (caller : Caller) (cost : ℕ) (w : World S) (r : Result LimitError (Unit {0}) × World S)
      → InLimit w
      → Verdict law a cost
          (duration_event self a caller)
          (counter_of (some audio_duration_limiting) self.route_name)
          (duration_error self)
          w
          r
      → InLimit
          (continue r.0
            (λ _.
              consume_and_emit_thresholds env storage percentages a.limiter a.item cost route
                (identity_of caller self.route_name))
            r.1).1
  after_check caller cost w r h (allowed at w' later room before unchanged _ _) = λ t p.
      let key = build_key a.limiter a.item in
      let hit =
        consume_and_emit_thresholds-Hit env storage law percentages a.limiter a.item cost route
          (identity_of caller self.route_name) w' in
      let same = ap value_of (unchanged.same hit.at key hit.started) in
      let falls =
        counted-falls at hit.at (law.cells w.store key) (omega (arith, before, hit.started)) in
      omega (arith, hit.own t p, same, falls, room)
  after_check caller cost w r h (refused at w' stats later full before unchanged _ _) = λ t p.
      let same = ap value_of (unchanged.same t (build_key a.limiter a.item) p) in
      omega (arith, same, h t (omega (arith, unchanged.later)))

  by_estimate-InLimit :
      (caller : Caller) (estimate : Option F.Float) (w : World S)
      → InLimit w
      → InLimit (by_estimate F wave_header env storage percentages self caller a estimate w).1
  unfolding by_estimate check_and_count
  by_estimate-InLimit caller none w h = h
  by_estimate-InLimit caller (some seconds) w h =
      let cost = F.round seconds in
      after_check caller cost w
        (check_room env storage a cost
          (λ stats.
            refuse (duration_event self a caller stats) (some audio_duration_limiting)
              self.route_name (duration_error self stats))
          w)
        h
        (check_room-Verdict env storage law a cost (duration_event self a caller)
          (some audio_duration_limiting) self.route_name (duration_error self) w)

  pub check_and_count_duration-InLimit :
      (caller : Caller) (audio_bytes : Bytes) (w : World S)
      → InLimit w
      → InLimit
          (check_and_count_duration F wave_header env storage percentages self caller audio_bytes
            w).1
  unfolding check_and_count_duration by_active
  check_and_count_duration-InLimit caller audio_bytes w h =
      subst
        (λ o.
          InLimit (by_active F wave_header env storage percentages self caller audio_bytes o w).1)
        (sym set)
        (by_estimate-InLimit caller (estimate_audio_duration_seconds F wave_header audio_bytes) w h)

  -- A request with audio, which is checked and counted by its rounded length, leaves the window's
  -- seconds within the limit if they were so before, whether the request is refused or not and
  -- whether or not its length can be read.
  pub duration_capped :
      (caller : Caller) (audio_bytes : Bytes) (w : World S)
      → counted law.cells w.clock w.store (build_key a.limiter a.item) ≤ a.item.limit
      → counted law.cells
          (check_and_count_duration F wave_header env storage percentages self caller audio_bytes
            w).1.clock
          (check_and_count_duration F wave_header env storage percentages self caller audio_bytes
            w).1.store
          (build_key a.limiter a.item)
        ≤ a.item.limit
  duration_capped caller audio_bytes w h =
      let v =
        (check_and_count_duration F wave_header env storage percentages self caller audio_bytes
          w).1 in
      let key = build_key a.limiter a.item in
      check_and_count_duration-InLimit caller audio_bytes w
        (λ t p.
          let falls = counted-falls w.clock t (law.cells w.store key) p in omega (arith, falls, h))
        v.clock (omega arith)
