-- ===== src/Limiting/Route/Rate/Exact.antt =====
-- limiting/rate_limiter.py: how many requests one open window admits.
use mathlib.Core.Path.{subst}
use Prim.Native.Nat.{min}
use native.Mathlib.Nat.{add-zero, add_assoc}
use radicalbit_ai_gateway.Prelude.{
  ℕ, suc, ◌+◌, ◌-◌, ◌≤◌, ◌<◌, ◌≡◌, sym, ap, ◌∙◌, some, List, [], ◌∷◌, Text, arith, length,
  if◌then◌else◌, lt→ltb, le→ltb, ltb,
}
use radicalbit_ai_gateway.Prelude.Result.{Result, ok, err}
use radicalbit_ai_gateway.Limiter.Machine.{Env}
use radicalbit_ai_gateway.Limiter.Storage.{Storage, Entry, live, value_of, IsBackend}
use radicalbit_ai_gateway.Limiter.Base.{build_key}
use radicalbit_ai_gateway.Limiter.Base.Counting.{grown}
use radicalbit_ai_gateway.Limiting.World.{
  LimitError, World, RequestIdentity, rate_limiting, route, continue,
}
use radicalbit_ai_gateway.Limiting.Room.{Caller, Active, identity_of}
use radicalbit_ai_gateway.Limiting.Room.Verdict.{Verdict, allowed, refused, counter_of}
use radicalbit_ai_gateway.Limiting.Event.Hits.{consume_and_emit_thresholds-Hit}
use radicalbit_ai_gateway.Limiting.Route.{RouteLimiter}
use radicalbit_ai_gateway.Limiting.Route.Rate.{
  rate_event, rate_error, check_request, count_active, count_request, check_and_count_request,
}
use radicalbit_ai_gateway.Limiting.Route.Rate.Cap.{check_request-Verdict}

-- 1 for a call that returned.
abbrev pub one_if_ok : {A : Type 0} → Result LimitError A → ℕ
one_if_ok (ok a) = 1
one_if_ok (err e) = 0

grown-zero : (e : Entry) → grown e 0 ≡ e
grown-zero e = ap (λ v. record e { value = v }) (add-zero e.value)

grown-add : (e : Entry) (m n : ℕ) → grown (grown e m) n ≡ grown e (m + n)
grown-add e m n = ap (λ v. record e { value = v }) (add_assoc e.value m n)

-- One more request, admitted if there is room, and those after it.
counted_in :
    (n one more value limit : ℕ)
    → one ≡ (if ltb value limit then 1 else 0)
    → more ≡ min n (limit - (value + one))
    → one + more ≡ min (suc n) (limit - value)
counted_in n one more value limit h k = ground arith

module _ {S : Type 0} (env : Env) (storage : Storage S) (law : IsBackend storage)
    (percentages : List ℕ) (self : RouteLimiter) (a : Active) (set : self.active ≡ some a) where
  abbrev key : Text
  key = build_key a.limiter a.item

  -- The window is open, and its counter is `e`, until it expires.
  abbrev pub Open : Entry → World S → Type 0
  Open e w = (t : ℕ) → w.clock ≤ t → t < e.expires_at → live t (law.cells w.store key) ≡ some e

  live_before : (t : ℕ) (e : Entry) → t < e.expires_at → live t (some e) ≡ some e
  live_before t e h = ground arith

  -- The outcome of a request in an open window whose counter is `e`.
  record Outcome (e : Entry) (w : World S) (r : Result LimitError (Unit {0}) × World S)
      : Type 0 where
    later : w.clock ≤ r.1.clock
    admits : one_if_ok r.0 ≡ (if ltb e.value a.item.limit then 1 else 0)
    window : Open (grown e (one_if_ok r.0)) r.1

  counts :
      (e : Entry) (identity : RequestIdentity) (w : World S)
      → Open e w
      → e.value < a.item.limit
      → (count_request env storage percentages self identity w).1.clock < e.expires_at
      → Outcome e w (count_request env storage percentages self identity w)
  unfolding count_request
  counts e identity w o room before =
      subst
        (λ x.
          ((count_active env storage percentages x identity w).1.clock < e.expires_at)
          → Outcome e w (count_active env storage percentages x identity w))
        (sym set)
        (λ before.
          let h =
            consume_and_emit_thresholds-Hit env storage law percentages a.limiter a.item 1 route
              identity w in
          record {
            later = omega (arith, h.started, h.later);
            admits = rw h.returns (rw (lt→ltb _ _ room));
            window = λ t p q. rw h.returns (
                h.grows e t (o h.at h.started (omega (arith, h.later))) p
                ∙ live_before t (grown e 1) q);
          })
        before

  count_later :
      (identity : RequestIdentity) (w : World S)
      → w.clock ≤ (count_request env storage percentages self identity w).1.clock
  unfolding count_request
  count_later identity w =
      subst (λ x. w.clock ≤ (count_active env storage percentages x identity w).1.clock) (sym set)
        (let h =
            consume_and_emit_thresholds-Hit env storage law percentages a.limiter a.item 1 route
              identity w in
          omega (arith, h.started, h.later))

  abbrev then_count :
      Caller → Result LimitError (Unit {0}) × World S → Result LimitError (Unit {0}) × World S
  then_count caller r =
      continue r.0
        (λ _. count_request env storage percentages self (identity_of caller self.route_name)) r.1

  after_check :
      (caller : Caller) (e : Entry) (w : World S) (r : Result LimitError (Unit {0}) × World S)
      → Open e w
      → Verdict law a 1
          (rate_event self a caller)
          (counter_of (some rate_limiting) self.route_name)
          (rate_error self)
          w
          r
      → (then_count caller r).1.clock < e.expires_at
      → Outcome e w (then_count caller r)
  after_check caller e w r o (allowed at w' later room before unchanged _ _) end =
      let identity = identity_of caller self.route_name in
      let open_at = ap value_of (o at later (omega (arith, count_later identity w'))) in
      let o' : Open e w' = λ t p q. unchanged.same t key p ∙ o t (omega arith) q in
      let c = counts e identity w' o' (omega (arith, room, open_at)) end in
      record {
        later = omega (arith, c.later, unchanged.later);
        admits = c.admits;
        window = c.window;
      }
  after_check caller e w r o (refused at w' stats later full before unchanged _ _) end =
      let open_at = ap value_of (o at later (omega arith)) in
      record {
        later = unchanged.later;
        admits = rw (le→ltb e.value a.item.limit (omega (arith, full, open_at)));
        window = λ t p q.
            unchanged.same t key p
            ∙ (o t (omega (arith, unchanged.later)) q ∙ ap some (sym (grown-zero e)));
      }

  request_later :
      (caller : Caller) (w : World S) (r : Result LimitError (Unit {0}) × World S)
      → Verdict law a 1
          (rate_event self a caller)
          (counter_of (some rate_limiting) self.route_name)
          (rate_error self)
          w
          r
      → w.clock ≤ (then_count caller r).1.clock
  request_later caller w r (allowed at w' later room before unchanged _ _) =
      omega (arith, unchanged.later, count_later (identity_of caller self.route_name) w')
  request_later caller w r (refused at w' stats later full before unchanged _ _) = unchanged.later

  abbrev pub request : Caller → World S → Result LimitError (Unit {0}) × World S
  request caller w = check_and_count_request env storage percentages self caller w

  request-later : (caller : Caller) (w : World S) → w.clock ≤ (request caller w).1.clock
  unfolding check_and_count_request
  request-later caller w =
      request_later caller w (check_request env storage self caller w)
        (check_request-Verdict env storage law percentages self a set caller w)

  request-Outcome :
      (caller : Caller) (e : Entry) (w : World S)
      → Open e w
      → (request caller w).1.clock < e.expires_at
      → Outcome e w (request caller w)
  unfolding check_and_count_request
  request-Outcome caller e w o =
      after_check caller e w (check_request env storage self caller w) o
        (check_request-Verdict env storage law percentages self a set caller w)

  abbrev pub serve : List Caller → World S → World S
  serve [] w = w
  serve (caller ∷ callers) w = serve callers (request caller w).1

  -- How many of the requests are admitted.
  abbrev pub admitted : List Caller → World S → ℕ
  admitted [] w = 0
  admitted (caller ∷ callers) w =
      one_if_ok (request caller w).0 + admitted callers (request caller w).1

  serve_later : (callers : List Caller) (w : World S) → w.clock ≤ (serve callers w).clock
  serve_later [] w = omega arith
  serve_later (caller ∷ callers) w =
      omega (arith, request-later caller w, serve_later callers (request caller w).1)

  -- Of requests that are served one after the other while a window is open, exactly as many are
  -- admitted as the window has room for, and each of these adds one to the counter.
  pub admitted_exactly :
      (callers : List Caller) (e : Entry) (w : World S)
      → Open e w
      → (serve callers w).clock < e.expires_at
      → (admitted callers w ≡ min (length callers) (a.item.limit - e.value))
        × Open (grown e (admitted callers w)) (serve callers w)
  admitted_exactly [] e w o end = (omega arith, (λ t p q. o t p q ∙ ap some (sym (grown-zero e))))
  admitted_exactly (caller ∷ callers) e w o end =
      let r = request caller w in
      let c = request-Outcome caller e w o (omega (arith, serve_later callers r.1)) in
      let (n, o') = admitted_exactly callers (grown e (one_if_ok r.0)) r.1 c.window end in
      (
        counted_in (length callers) (one_if_ok r.0) (admitted callers r.1) e.value a.item.limit
            c.admits n,
        λ t p q. o' t p q ∙ ap some (grown-add e (one_if_ok r.0) (admitted callers r.1)),
      )
