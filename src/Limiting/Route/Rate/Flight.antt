-- ===== src/Limiting/Route/Rate/Flight.antt =====
-- limiting/rate_limiter.py: requests that overlap. A check and the count after it are two steps, and
-- those of other requests may come between them.
use radicalbit_ai_gateway.Prelude.{ℕ, ◌+◌, ◌-◌, ◌≤◌, ◌≡◌, ap, some, List, arith}
use radicalbit_ai_gateway.Prelude.Result.{Result, ok, err}
use radicalbit_ai_gateway.Limiter.Machine.{Env}
use radicalbit_ai_gateway.Limiter.Storage.{Storage, value_of, IsBackend}
use radicalbit_ai_gateway.Limiter.Base.{build_key}
use radicalbit_ai_gateway.Limiter.Base.Counting.{counted}
use radicalbit_ai_gateway.Limiting.World.{LimitError, World, RequestIdentity, rate_limiting}
use radicalbit_ai_gateway.Limiting.Room.{Caller, Active}
use radicalbit_ai_gateway.Limiting.Room.Verdict.{Verdict, allowed, refused, counter_of}
use radicalbit_ai_gateway.Limiting.Route.{RouteLimiter}
use radicalbit_ai_gateway.Limiting.Route.Rate.{rate_event, rate_error, check_request, count_request}
use radicalbit_ai_gateway.Limiting.Route.Rate.Cap.{
  check_request-Verdict, count_request-Within, counted-falls as falls_of,
}

-- The world, and the number of requests that passed their check and are not counted yet.
pub record Flight (S : Type 0) : Type 0 where
  pub world : World S
  pub pending : ℕ

module _ {S : Type 0} (env : Env) (storage : Storage S) (percentages : List ℕ) (self : RouteLimiter)
    (spare : ℕ) where
  abbrev checked : Caller → World S → Result LimitError (Unit {0}) × World S
  checked caller = check_request env storage self caller

  -- At most `spare` other requests are between their check and their count when one is checked.
  pub data Step (f : Flight S) : Flight S → Type 0 where
    check :
        (caller : Caller)
        → f.pending ≤ spare
        → (checked caller f.world).0 ≡ ok tt
        → Step f (record { world = (checked caller f.world).1; pending = f.pending + 1 })
    reject :
        (caller : Caller) (e : LimitError)
        → (checked caller f.world).0 ≡ err e
        → Step f (record { world = (checked caller f.world).1; pending = f.pending })
    count :
        (identity : RequestIdentity) (n : ℕ)
        → f.pending ≡ n + 1
        → Step f (record {
          world = (count_request env storage percentages self identity f.world).1;
          pending = n;
        })

  pub data Run (f : Flight S) : Flight S → Type 0 where
    start : Run f f
    next : {g h : Flight S} → Run f g → Step g h → Run f h

  module _ (law : IsBackend storage) (a : Active) (set : self.active ≡ some a) where
    -- The counter, with what is about to be added to it, is above the limit by no more than `spare`.
    abbrev pub Bounded : Flight S → Type 0
    Bounded f =
        (t : ℕ)
        → f.world.clock ≤ t
        → counted law.cells t f.world.store (build_key a.limiter a.item) + f.pending
          ≤ a.item.limit + spare

    abbrev Judged : Caller → World S → Result LimitError (Unit {0}) × World S → Type 0
    Judged caller w r =
        Verdict law a 1 (rate_event self a caller) (counter_of (some rate_limiting) self.route_name)
          (rate_error self) w r

    check-Bounded :
        (caller : Caller) (f : Flight S) (r : Result LimitError (Unit {0}) × World S)
        → f.pending ≤ spare
        → Judged caller f.world r
        → r.0 ≡ ok tt
        → Bounded (record { world = r.1; pending = f.pending + 1 })
    check-Bounded caller f r few (allowed at w' later room before unchanged _ _) e = λ t p.
        let key = build_key a.limiter a.item in
        let same = ap value_of (unchanged.same t key p) in
        let falls = falls_of at t (law.cells f.world.store key) (omega arith) in
        omega (arith, same, falls, room)
    check-Bounded caller f r few (refused at w' stats later full before unchanged _ _) e = cc

    reject-Bounded :
        (caller : Caller) (f : Flight S) (r : Result LimitError (Unit {0}) × World S)
        → Bounded f
        → Judged caller f.world r
        → Bounded (record { world = r.1; pending = f.pending })
    reject-Bounded caller f r h (allowed at w' later room before unchanged _ _) = λ t p.
        let same = ap value_of (unchanged.same t (build_key a.limiter a.item) p) in
        omega (arith, same, h t (omega (arith, unchanged.later)))
    reject-Bounded caller f r h (refused at w' stats later full before unchanged _ _) = λ t p.
        let same = ap value_of (unchanged.same t (build_key a.limiter a.item) p) in
        omega (arith, same, h t (omega (arith, unchanged.later)))

    Step-Bounded : {f g : Flight S} → Step f g → Bounded f → Bounded g
    Step-Bounded {f} (check caller few e) h =
        check-Bounded caller f (checked caller f.world) few
          (check_request-Verdict env storage law percentages self a set caller f.world) e
    Step-Bounded {f} (reject caller x e) h =
        reject-Bounded caller f (checked caller f.world) h
          (check_request-Verdict env storage law percentages self a set caller f.world)
    Step-Bounded {f} (count identity n e) h = λ t p.
        let counts =
          count_request-Within env storage law percentages self a set (a.item.limit + spare - n)
            identity f.world (λ u q. omega (arith, h u q)) in
        omega (arith, counts t p, h f.world.clock (omega arith), e)

    pub Run-Bounded : {f g : Flight S} → Bounded f → Run f g → Bounded g
    Run-Bounded h start = h
    Run-Bounded h (next r s) = Step-Bounded s (Run-Bounded h r)

    -- Whatever the order in which the checks and counts of overlapping requests come, the counter
    -- and the requests under way together stay within the limit and the number of requests that may
    -- be under way beside another, if they start within it.
    pub overlap_capped :
        {f g : Flight S}
        → Run f g
        → counted law.cells f.world.clock f.world.store (build_key a.limiter a.item) + f.pending
          ≤ a.item.limit + spare
        → counted law.cells g.world.clock g.world.store (build_key a.limiter a.item) + g.pending
          ≤ a.item.limit + spare
    overlap_capped {f} {g} run h =
        let key = build_key a.limiter a.item in
        Run-Bounded
          (λ t p.
            let falls = falls_of f.world.clock t (law.cells f.world.store key) p in
            omega (arith, falls, h))
          run g.world.clock (omega arith)
