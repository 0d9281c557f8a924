-- ===== src/Limiting/Entries/Counts.antt =====
-- The counting of a request in several windows.
use mathlib.Core.Path.{subst}
use radicalbit_ai_gateway.Prelude.{
  ℕ, ◌+◌, ◌≤◌, ◌≡◌, ◌≢◌, refl, sym, ap, List, [], ◌∷◌, ◌++◌, Text, arith, All,
}
use radicalbit_ai_gateway.Prelude.Result.{Result, ok}
use radicalbit_ai_gateway.Limiter.Machine.{Env}
use radicalbit_ai_gateway.Limiter.Storage.{Storage, value_of, IsBackend}
use radicalbit_ai_gateway.Limiter.Base.{build_key}
use radicalbit_ai_gateway.Limiter.Base.Counting.{counted}
use radicalbit_ai_gateway.Limiting.World.{LimitError, World, RequestIdentity, LimitScope, continue}
use radicalbit_ai_gateway.Limiting.Room.{Active}
use radicalbit_ai_gateway.Limiting.Event.{consume_and_emit_thresholds}
use radicalbit_ai_gateway.Limiting.Event.Hits.{consume_and_emit_thresholds-Hit}
use radicalbit_ai_gateway.Limiting.Entries.{hit_all}

abbrev pub key_of : Active → Text
key_of a = build_key a.limiter a.item

module _ {S : Type 0} (env : Env) (storage : Storage S) (law : IsBackend storage)
    (percentages : List ℕ) (scope : LimitScope) (cost : ℕ) (identity : RequestIdentity) where
  -- From now on the counter of a key is not above `n`.
  abbrev pub AtMost : Text → ℕ → World S → Type 0
  AtMost key n w = (t : ℕ) → w.clock ≤ t → counted law.cells t w.store key ≤ n

  -- The hits of several windows: they never raise, and a counter grows by their cost at most once
  -- for each entry with its key.
  pub record Hits (entries : List Active) (w : World S) (r : Result LimitError (Unit {0}) × World S)
      : Type 0 where
    pub returns : r.0 ≡ ok tt
    pub later : w.clock ≤ r.1.clock
    pub untouched :
        (key : Text) (n : ℕ) → All (λ b. key_of b ≢ key) entries → AtMost key n w → AtMost key n r.1

  pub hit_all-Hits :
      (entries : List Active) (w : World S)
      → Hits entries w (hit_all env storage percentages scope cost identity entries w)
  unfolding hit_all
  hit_all-Hits [] w = record {
    returns = refl;
    later = omega arith;
    untouched = λ key n h least. least;
  }
  hit_all-Hits (a ∷ entries) w =
      let h =
        consume_and_emit_thresholds-Hit env storage law percentages a.limiter a.item cost scope
          identity w in
      let v =
        (consume_and_emit_thresholds env storage percentages a.limiter a.item cost scope identity
          w).1 in
      let rest = hit_all-Hits entries v in
      subst
        (λ r.
          Hits (a ∷ entries) w
            (continue r (λ _. hit_all env storage percentages scope cost identity entries) v))
        (sym h.returns)
        (record {
          returns = rest.returns;
          later = omega (arith, rest.later, h.later, h.started);
          untouched = λ key n (ne, others) least. rest.untouched key n others λ t p.
              let e = ap value_of (h.others t key p ne) in
              let bound = least t (omega (arith, p, h.later, h.started)) in omega (arith, e, bound);
        })

  -- A counter that has room for one more cost is within the limit after the hits, if a single entry
  -- counts in it, wherever that entry stands.
  pub hit_all-AtMost :
      (before : List Active) (a : Active) (after : List Active) (n : ℕ) (w : World S)
      → All (λ b. key_of b ≢ key_of a) before
      → All (λ b. key_of b ≢ key_of a) after
      → ((t : ℕ) → w.clock ≤ t → counted law.cells t w.store (key_of a) + cost ≤ n)
      → AtMost
          (key_of a)
          n
          (hit_all env storage percentages scope cost identity (before ++ (a ∷ after)) w).1
  unfolding hit_all
  hit_all-AtMost [] a after n w hb ha room =
      let h =
        consume_and_emit_thresholds-Hit env storage law percentages a.limiter a.item cost scope
          identity w in
      let v =
        (consume_and_emit_thresholds env storage percentages a.limiter a.item cost scope identity
          w).1 in
      subst
        (λ r.
          AtMost (key_of a) n
            (continue r (λ _. hit_all env storage percentages scope cost identity after) v).1)
        (sym h.returns)
        ((hit_all-Hits after v).untouched (key_of a) n ha λ t p.
          let bound = h.own t p in let here = room h.at h.started in omega (arith, bound, here))
  hit_all-AtMost (b ∷ before) a after n w (ne, hb) ha room =
      let h =
        consume_and_emit_thresholds-Hit env storage law percentages b.limiter b.item cost scope
          identity w in
      let v =
        (consume_and_emit_thresholds env storage percentages b.limiter b.item cost scope identity
          w).1 in
      subst
        (λ r.
          AtMost (key_of a) n
            (continue r
              (λ _. hit_all env storage percentages scope cost identity (before ++ (a ∷ after)))
              v).1)
        (sym h.returns)
        (hit_all-AtMost before a after n v hb ha λ t p.
          let e = ap value_of (h.others t (key_of a) p ne) in
          let here = room t (omega (arith, p, h.later, h.started)) in omega (arith, e, here))
