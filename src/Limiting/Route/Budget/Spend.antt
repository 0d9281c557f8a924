-- ===== src/Limiting/Route/Budget/Spend.antt =====
-- limiting/budget_limiting.py: what a check decides, and how far the spending of a route may go.
use mathlib.Core.Path.{subst}
use radicalbit_ai_gateway.Prelude.{
  ℕ, ◌+◌, ◌-◌, ◌<◌, ◌≤◌, ◌≡◌, refl, sym, ap, none, some, List, [], ◌∷◌, arith,
}
use radicalbit_ai_gateway.Prelude.Result.{Result, ok}
use radicalbit_ai_gateway.Limiter.Machine.{Env}
use radicalbit_ai_gateway.Limiter.Storage.{Storage, Entry, value_of, IsBackend}
use radicalbit_ai_gateway.Limiter.Base.Stats.{get_window_stats-live}
use radicalbit_ai_gateway.Limiter.Base.{WindowStats, build_key, get_window_stats}
use radicalbit_ai_gateway.Limiter.Base.Counting.{counted}
use radicalbit_ai_gateway.Limiting.Floats.{Floats}
use radicalbit_ai_gateway.Limiting.World.{LimitError, World, Exec, route, continue}
use radicalbit_ai_gateway.Limiting.Room.{Caller, identity_of, Active}
use radicalbit_ai_gateway.Limiting.Room.Verdict.{Verdict, allowed, refused, check_room-Verdict}
use radicalbit_ai_gateway.Limiting.Event.{consume_and_emit_thresholds}
use radicalbit_ai_gateway.Limiting.Event.Hits.{consume_and_emit_thresholds-Hit}
use radicalbit_ai_gateway.Limiting.Route.{RouteLimiter}
use radicalbit_ai_gateway.Limiting.Route.Rate.Cap.{counted-falls}
use radicalbit_ai_gateway.Limiting.Route.Budget.{
  cost_in_units, budget_event, budget_error, check_active, check_budget, count_active, count_cost,
  count_input, count_output, count_duration, get_total_current_usage, remaining_of,
}

module _ {S : Type 0} (env : Env) (storage : Storage S) (law : IsBackend storage)
    (self : RouteLimiter) (a : Active) (set : self.active ≡ some a) where
  -- The budget check of a route with a budget lets the request pass, with no trace, exactly where
  -- the spent amount is below the limit, and otherwise refuses it with one event and no telemetry
  -- counter; it changes no counter either way.
  pub check_budget-Verdict :
      (caller : Caller) (w : World S)
      → Verdict law a 1
          (budget_event self a caller)
          []
          budget_error
          w
          (check_budget env storage self caller w)
  unfolding check_budget check_active
  check_budget-Verdict caller w =
      subst
        (λ o.
          Verdict law a 1 (budget_event self a caller) [] budget_error w
            (check_active env storage self caller o w))
        (sym set)
        (check_room-Verdict env storage law a 1 (budget_event self a caller) none self.route_name
          budget_error w)

  -- While a window is open, `get_total_current_usage` returns what the budget has left in it, not
  -- what is used.
  pub get_total_current_usage-remaining :
      (e : Entry) (w : World S)
      → law.cells w.store (build_key a.limiter a.item) ≡ some e
      → (get_window_stats env storage a.limiter a.item w.machine).1.clock < e.expires_at
      → (get_total_current_usage env storage self w).0 ≡ ok (a.item.limit - e.value)
  unfolding get_total_current_usage remaining_of
  get_total_current_usage-remaining e w cell in_time =
      subst (λ o. (remaining_of env storage o w).0 ≡ ok (a.item.limit - e.value)) (sym set)
        (ap (λ (stats : WindowStats). ok stats.remaining)
          (get_window_stats-live env storage law a.limiter a.item e w.machine cell in_time))

  module _ (percentages : List ℕ) (F : Floats) where
    open F use {Float, of_int}

    -- From now on no more than `n` units are spent in the window.
    abbrev pub Spent : ℕ → World S → Type 0
    Spent n w = (t : ℕ) → w.clock ≤ t → counted law.cells t w.store (build_key a.limiter a.item) ≤ n

    -- What a request uses: tokens or seconds, each with its price.
    pub data Usage : Type 0 where
      input_tokens output_tokens : ℕ → Float → Usage
      duration : Float → Float → Usage

    abbrev pub units_of : Usage → ℕ
    units_of (input_tokens n price) = cost_in_units F (of_int n) price
    units_of (output_tokens n price) = cost_in_units F (of_int n) price
    units_of (duration seconds price) = cost_in_units F seconds price

    abbrev pub total : List Usage → ℕ
    total [] = 0
    total (u ∷ us) = units_of u + total us

    abbrev pub count : Caller → Usage → Exec S (Unit {0})
    count caller (input_tokens n price) =
        count_input env storage percentages F self n price (identity_of caller self.route_name)
    count caller (output_tokens n price) =
        count_output env storage percentages F self n price (identity_of caller self.route_name)
    count caller (duration seconds price) =
        count_duration env storage percentages F self seconds price
          (identity_of caller self.route_name)

    abbrev pub count_all : Caller → List Usage → World S → World S
    count_all caller [] w = w
    count_all caller (u ∷ us) w = count_all caller us (count caller u w).1

    count-hit :
        (caller : Caller) (u : Usage) (w : World S)
        → count caller u w
          ≡ consume_and_emit_thresholds env storage percentages a.limiter a.item
              (units_of u)
              route
              (identity_of caller self.route_name)
              w
    unfolding count_input count_output count_duration count_cost count_active
    count-hit caller (input_tokens n price) w = rw set refl
    count-hit caller (output_tokens n price) w = rw set refl
    count-hit caller (duration seconds price) w = rw set refl

    count_all-Spent :
        (caller : Caller) (us : List Usage) (n : ℕ) (w : World S)
        → ((t : ℕ)
            → w.clock ≤ t
            → counted law.cells t w.store (build_key a.limiter a.item) + total us ≤ n)
        → Spent n (count_all caller us w)
    count_all-Spent caller [] n w room = λ t later. omega (arith, room t later)
    count_all-Spent caller (u ∷ us) n w room =
        let h =
          consume_and_emit_thresholds-Hit env storage law percentages a.limiter a.item (units_of u)
            route (identity_of caller self.route_name) w in
        count_all-Spent caller us n (count caller u w).1 (
          subst
            (λ v.
              (t : ℕ)
              → v.1.clock ≤ t
              → counted law.cells t v.1.store (build_key a.limiter a.item) + total us ≤ n)
            (sym (count-hit caller u w)) (λ t p. omega (arith, h.own t p, room h.at h.started)))

    -- A request: the budget check and, unless it raises, the count of what the request uses.
    abbrev pub request : Caller → List Usage → World S → World S
    request caller us w =
        let r = check_budget env storage self caller w in
        (continue r.0 (λ _ v. (ok tt, count_all caller us v)) r.1).1

    after_check :
        (caller : Caller) (us : List Usage) (n : ℕ) (w : World S)
        (r : Result LimitError (Unit {0}) × World S)
        → a.item.limit + total us ≤ n + 1
        → Spent n w
        → Verdict law a 1 (budget_event self a caller) [] budget_error w r
        → Spent n (continue r.0 (λ _ v. (ok tt, count_all caller us v)) r.1).1
    after_check caller us n w r small h (allowed at w' later room before unchanged _ _) =
        let key = build_key a.limiter a.item in
        count_all-Spent caller us n w' λ t p.
          let same = ap value_of (unchanged.same t key p) in
          let falls = counted-falls at t (law.cells w.store key) (omega (arith, before)) in
          omega (arith, same, falls, room, small)
    after_check caller us n w r small h (refused at w' stats later full before unchanged _ _) =
        λ t p.
          let same = ap value_of (unchanged.same t (build_key a.limiter a.item) p) in
          omega (arith, same, h t (omega (arith, unchanged.later)))

    pub request-Spent :
        (caller : Caller) (us : List Usage) (n : ℕ) (w : World S)
        → a.item.limit + total us ≤ n + 1
        → Spent n w
        → Spent n (request caller us w)
    request-Spent caller us n w small h =
        after_check caller us n w (check_budget env storage self caller w) small h
          (check_budget-Verdict caller w)

    -- Let n be at least the limit and a request's own cost together, less one unit. If the spent
    -- amount is at most n, so it is after the request, which counts all that it uses if its budget
    -- check passes, however long that takes, and nothing if it refuses.
    pub spending_capped :
        (caller : Caller) (us : List Usage) (n : ℕ) (w : World S)
        → a.item.limit + total us ≤ n + 1
        → counted law.cells w.clock w.store (build_key a.limiter a.item) ≤ n
        → counted law.cells
            (request caller us w).clock
            (request caller us w).store
            (build_key a.limiter a.item)
          ≤ n
    spending_capped caller us n w small h =
        let v = request caller us w in
        let key = build_key a.limiter a.item in
        request-Spent caller us n w small
          (λ t p.
            let falls = counted-falls w.clock t (law.cells w.store key) p in
            omega (arith, falls, h))
          v.clock (omega arith)
