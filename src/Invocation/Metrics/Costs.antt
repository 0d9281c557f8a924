-- ===== src/Invocation/Metrics/Costs.antt =====
-- invocation/model_invoker.py: what the events of one invocation cost together.
use radicalbit_ai_gateway.Prelude.{
  ℕ, zero, suc, ◌+◌, ◌*◌, ◌≡◌, refl, Bool, true, false, Option, none, some, List, [], ◌∷◌, ◌++◌,
  Text, text, arith, if◌then◌else◌,
}
use radicalbit_ai_gateway.Prelude.Dict.{Dict, lookup}
use radicalbit_ai_gateway.Invocation.Metrics.{
  Prices, Where, input, output, cached, cached_creation, cached_creation_1h, price_of, compute_cost,
  MetricEvent, model_invocation, input_tokens, output_tokens, fallback_used, Counts, input_entry,
  output_entry, fallback_entry, record_metrics,
}

abbrev pub cost_of : MetricEvent → ℕ
cost_of (model_invocation model_id cache_type) = 0
cost_of (input_tokens model_id value cost cache_type is_cached_tokens) = cost
cost_of (output_tokens model_id value cost cache_type) = cost
cost_of (fallback_used target fallback) = 0

abbrev pub total_cost : List MetricEvent → ℕ
total_cost [] = 0
total_cost (e ∷ es) = cost_of e + total_cost es

total_cost-append : (a b : List MetricEvent) → total_cost (a ++ b) ≡ total_cost a + total_cost b
total_cost-append [] b = omega arith
total_cost-append (e ∷ a) b = omega (arith, total_cost-append a b)

abbrev pub or_zero : Option ℕ → ℕ
or_zero none = 0
or_zero (some n) = n

module _ (prices : Dict Prices) (model_id : Text) (p : Prices)
    (priced : lookup model_id prices ≡ some p) where
  cost_lem : (n : ℕ) (place : Where) → compute_cost prices n place model_id ≡ n * price_of place p
  unfolding compute_cost
  cost_lem n place = rw (compute_cost, priced) refl

  input_entry-cost :
      (c : Option ℕ) (place : Where) (cache_type : Option Text) (is_cached skip : Bool)
      → total_cost (input_entry prices model_id c place cache_type is_cached skip)
        ≡ or_zero c * price_of place p
  unfolding input_entry
  input_entry-cost none place cache_type is_cached skip = omega arith
  input_entry-cost (some zero) place cache_type is_cached true = omega arith
  input_entry-cost (some zero) place cache_type is_cached false = omega (arith, cost_lem 0 place)
  input_entry-cost (some (suc n)) place cache_type is_cached true =
      ground (arith, cost_lem (suc n) place)
  input_entry-cost (some (suc n)) place cache_type is_cached false =
      omega (arith, cost_lem (suc n) place)

  output_entry-cost :
      (c : Option ℕ) (cache_type : Option Text)
      → total_cost (output_entry prices model_id c cache_type) ≡ or_zero c * price_of output p
  unfolding output_entry
  output_entry-cost none cache_type = omega arith
  output_entry-cost (some n) cache_type = omega (arith, cost_lem n output)

  fallback_entry-cost :
      (target : Text) (b : Bool) → total_cost (fallback_entry prices model_id target b) ≡ 0
  unfolding fallback_entry
  fallback_entry-cost target true = refl
  fallback_entry-cost target false = refl

  -- The events of an invocation of a model with prices cost, together, each kind of token at its
  -- own price: leaving out the counts that are zero loses nothing, and nothing is counted twice.
  pub record_metrics-cost :
      (target : Text) (c : Counts) (fallback_triggered is_semantic_search : Bool)
      → total_cost (record_metrics prices model_id target c fallback_triggered is_semantic_search)
        ≡ or_zero c.token_input_count * p.input_cost_per_token
          + or_zero c.cached_token_count * p.input_cached_cost_per_token
          + or_zero c.cache_creation_5m_token_count * p.input_cache_creation_5m_cost_per_token
          + or_zero c.cache_creation_1h_token_count * p.input_cache_creation_1h_cost_per_token
          + or_zero c.token_output_count * p.output_cost_per_token
  unfolding record_metrics price_of
  record_metrics-cost target c fallback_triggered is_semantic_search =
      let ct : Option Text = if is_semantic_search then some (text "semantic") else none in
      let e = λ (x : Option ℕ) (w : Where) (t : Option Text) (b : Bool).
        input_entry prices model_id x w t b b in
      let f = fallback_entry prices model_id target fallback_triggered in
      let o = output_entry prices model_id c.token_output_count ct in
      let h =
        e c.cache_creation_1h_token_count cached_creation_1h (some (text "creation_1h")) true in
      let m = e c.cache_creation_5m_token_count cached_creation (some (text "creation")) true in
      let r = e c.cached_token_count cached (some (text "read")) true in
      let i = e c.token_input_count input ct false in
      omega (
        arith,
        total_cost-append i (r ++ (m ++ (h ++ (o ++ f)))),
        total_cost-append r (m ++ (h ++ (o ++ f))),
        total_cost-append m (h ++ (o ++ f)),
        total_cost-append h (o ++ f),
        total_cost-append o f,
        input_entry-cost c.token_input_count input ct false false,
        input_entry-cost c.cached_token_count cached (some (text "read")) true true,
        input_entry-cost c.cache_creation_5m_token_count cached_creation (some (text "creation"))
            true true,
        input_entry-cost c.cache_creation_1h_token_count cached_creation_1h
            (some (text "creation_1h")) true true,
        output_entry-cost c.token_output_count ct,
        fallback_entry-cost target fallback_triggered,
      )
