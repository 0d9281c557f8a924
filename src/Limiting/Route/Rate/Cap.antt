-- ===== src/Limiting/Route/Rate/Cap.antt =====
-- limiting/rate_limiter.py: requests that come one after the other never pass the limit.
use mathlib.Core.Path.{subst}
use radicalbit_ai_gateway.Prelude.{
  ℕ, ◌+◌, ◌≤◌, ◌≡◌, sym, ap, Option, none, some, List, [], ◌∷◌, arith,
}
use radicalbit_ai_gateway.Prelude.Result.{Result}
use radicalbit_ai_gateway.Limiter.Machine.{Env}
use radicalbit_ai_gateway.Limiter.Storage.{Storage, Entry, live, value_of, IsBackend}
use radicalbit_ai_gateway.Limiter.Base.{build_key}
use radicalbit_ai_gateway.Limiter.Base.Counting.{counted}
use radicalbit_ai_gateway.Limiting.World.{
  LimitError, World, RequestIdentity, LimitScope, route, continue, rate_limiting,
}
use radicalbit_ai_gateway.Limiting.Room.{Caller, Active, identity_of}
use radicalbit_ai_gateway.Limiting.Room.Verdict.{
  Verdict, allowed, refused, counter_of, check_room-Verdict,
}
use radicalbit_ai_gateway.Limiting.Event.Hits.{consume_and_emit_thresholds-Hit}
use radicalbit_ai_gateway.Limiting.Event.{consume_and_emit_thresholds}
use radicalbit_ai_gateway.Limiting.Route.{RouteLimiter}
use radicalbit_ai_gateway.Limiting.Route.Rate.{
  rate_event, rate_error, check_active, check_request, count_request, check_and_count_request,
}

-- A counter counts for less and less.
pub counted-falls : (t u : ℕ) (c : Option Entry) → t ≤ u → value_of (live u c) ≤ value_of (live t c)
counted-falls t u none h = omega arith
counted-falls t u (some e) h = ground arith

module _ {S : Type 0} (env : Env) (storage : Storage S) (law : IsBackend storage)
    (percentages : List ℕ) (self : RouteLimiter) (a : Active) (set : self.active ≡ some a) where
  -- From now on the counter is not above `n`.
  abbrev pub Within : ℕ → World S → Type 0
  Within n w = (t : ℕ) → w.clock ≤ t → counted law.cells t w.store (build_key a.limiter a.item) ≤ n

  pub check_request-Verdict :
      (caller : Caller) (w : World S)
      → Verdict law a 1
          (rate_event self a caller)
          (counter_of (some rate_limiting) self.route_name)
          (rate_error self)
          w
          (check_request env storage self caller w)
  unfolding check_request
  check_request-Verdict caller w =
      subst
        (λ o.
          Verdict law a 1 (rate_event self a caller)
            (counter_of (some rate_limiting) self.route_name) (rate_error self) w
            (check_active env storage self caller o w))
        (sym set)
        (check_room-Verdict env storage law a 1 (rate_event self a caller) (some rate_limiting)
          self.route_name (rate_error self) w)

  -- After a hit the counter counts for no more than it did at some time before it, and the cost.
  pub Hit-Within :
      (n cost : ℕ) (scope : LimitScope) (identity : RequestIdentity) (w : World S)
      → ((t : ℕ)
          → w.clock ≤ t
          → counted law.cells t w.store (build_key a.limiter a.item) + cost ≤ n)
      → Within n
          (consume_and_emit_thresholds env storage percentages a.limiter a.item cost scope identity
            w).1
  Hit-Within n cost scope identity w room t later =
      let h =
        consume_and_emit_thresholds-Hit env storage law percentages a.limiter a.item cost scope
          identity w in
      omega (arith, h.own t later, room h.at h.started)

  pub count_request-Within :
      (n : ℕ) (identity : RequestIdentity) (w : World S)
      → ((t : ℕ) → w.clock ≤ t → counted law.cells t w.store (build_key a.limiter a.item) + 1 ≤ n)
      → Within n (count_request env storage percentages self identity w).1
  unfolding count_request
  count_request-Within n identity w room = rw set (Hit-Within n 1 route identity w room)

  -- The check and the count after it, by the verdict of the check.
  after_check :
      (caller : Caller) (w : World S) (r : Result LimitError (Unit {0}) × World S)
      → Within a.item.limit w
      → Verdict law a 1
          (rate_event self a caller)
          (counter_of (some rate_limiting) self.route_name)
          (rate_error self)
          w
          r
      → Within a.item.limit
          (continue r.0
            (λ _. count_request env storage percentages self (identity_of caller self.route_name))
            r.1).1
  after_check caller w r h (allowed at w' later room before unchanged _ _) =
      let key = build_key a.limiter a.item in
      count_request-Within a.item.limit (identity_of caller self.route_name) w' λ t p.
        let same = ap value_of (unchanged.same t key p) in
        let falls = counted-falls at t (law.cells w.store key) (omega arith) in
        omega (arith, same, falls, room)
  after_check caller w r h (refused at w' stats later full before unchanged _ _) = λ t p.
      let same = ap value_of (unchanged.same t (build_key a.limiter a.item) p) in
      omega (arith, same, h t (omega (arith, unchanged.later)))

  check_and_count_request-Within :
      (caller : Caller) (w : World S)
      → Within a.item.limit w
      → Within a.item.limit (check_and_count_request env storage percentages self caller w).1
  unfolding check_and_count_request
  check_and_count_request-Within caller w h =
      after_check caller w (check_request env storage self caller w) h
        (check_request-Verdict caller w)

  -- Requests that are served one after the other, each whether or not those before it raised.
  abbrev pub serve : List Caller → World S → World S
  serve [] w = w
  serve (caller ∷ callers) w =
      serve callers (check_and_count_request env storage percentages self caller w).1

  pub serve-Within :
      (callers : List Caller) (w : World S)
      → Within a.item.limit w
      → Within a.item.limit (serve callers w)
  serve-Within [] w h = h
  serve-Within (caller ∷ callers) w h =
      serve-Within callers (check_and_count_request env storage percentages self caller w).1
        (check_and_count_request-Within caller w h)

  -- From a counter within the limit, however many requests come one after the other and however
  -- long each takes, the counter is never above the limit.
  pub serve_capped :
      (callers : List Caller) (w : World S)
      → counted law.cells w.clock w.store (build_key a.limiter a.item) ≤ a.item.limit
      → counted law.cells
          (serve callers w).clock
          (serve callers w).store
          (build_key a.limiter a.item)
        ≤ a.item.limit
  serve_capped callers w h =
      let v = serve callers w in
      let key = build_key a.limiter a.item in
      serve-Within callers w
        (λ t p.
          let falls = counted-falls w.clock t (law.cells w.store key) p in omega (arith, falls, h))
        v.clock (omega arith)
