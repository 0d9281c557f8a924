-- ===== src/Invocation/Metrics.antt =====
-- services/cost_service.py and `_record_metrics` of invocation/model_invoker.py. A price is a whole
-- number of a unit small enough for all prices, and products are exact. The identity of the request,
-- which each event carries unchanged, the telemetry and the flags of judges and routers are left out.
pub mod Costs
use radicalbit_ai_gateway.Prelude.{
  ℕ, ◌+◌, ◌*◌, Bool, true, false, not, ◌||◌, Option, none, some, List, [], ◌∷◌, ◌++◌, Text, text,
  ltb, if◌then◌else◌,
}
use radicalbit_ai_gateway.Prelude.Dict.{Dict, lookup, insert}

-- The prices of a model, as `_extract_model_costs` collects them.
pub record Prices : Type 0 where
  pub input_cost_per_token : ℕ
  pub output_cost_per_token : ℕ
  pub input_cached_cost_per_token : ℕ
  pub input_cache_creation_5m_cost_per_token : ℕ
  pub input_cache_creation_1h_cost_per_token : ℕ
  pub input_cost_per_second : ℕ
  pub input_cost_per_audio_token : ℕ

pub record PricedModel : Type 0 where
  pub model_id : Text
  pub prices : Prices

unfoldable pub add_model_costs : Dict Prices → List PricedModel → Dict Prices
unfolding insert
add_model_costs results [] = results
add_model_costs results (m ∷ ms) = add_model_costs (insert m.model_id m.prices results) ms

-- `_extract_model_costs`, of the models of each kind
unfoldable pub extract_model_costs :
    (chat embedding transcription decision : List PricedModel) → Dict Prices
unfolding add_model_costs
extract_model_costs chat embedding transcription decision =
    add_model_costs
      (add_model_costs (add_model_costs (add_model_costs [] chat) embedding) transcription) decision

-- The cases of `where`.
pub data Where : Type 0 where
  input output cached cached_creation cached_creation_1h duration audio : Where

unfoldable pub price_of : Where → Prices → ℕ
price_of input p = p.input_cost_per_token
price_of output p = p.output_cost_per_token
price_of cached p = p.input_cached_cost_per_token
price_of cached_creation p = p.input_cache_creation_5m_cost_per_token
price_of cached_creation_1h p = p.input_cache_creation_1h_cost_per_token
price_of duration p = p.input_cost_per_second
price_of audio p = p.input_cost_per_audio_token

-- `compute_cost`. A model without prices costs nothing.
unfoldable pub compute_cost : Dict Prices → ℕ → Where → Text → ℕ
unfolding price_of lookup
compute_cost prices token_processed place model_id = elim (lookup model_id prices) [
  | none ↦ 0
  | some p ↦ token_processed * price_of place p
]

pub data MetricEvent : Type 0 where
  model_invocation : (model_id : Text) (cache_type : Option Text) → MetricEvent
  input_tokens :
      (model_id : Text) (value cost : ℕ) (cache_type : Option Text) (is_cached_tokens : Bool)
      → MetricEvent
  output_tokens : (model_id : Text) (value cost : ℕ) (cache_type : Option Text) → MetricEvent
  fallback_used : (target fallback : Text) → MetricEvent

pub record Counts : Type 0 where
  pub token_input_count : Option ℕ
  pub token_output_count : Option ℕ
  pub cached_token_count : Option ℕ
  pub cache_creation_5m_token_count : Option ℕ
  pub cache_creation_1h_token_count : Option ℕ

module _ (prices : Dict Prices) (model_id : Text) where
  -- An entry of `input_token_entries`: count, cost_where, event_cache_type, is_cached_tokens,
  -- skip_if_zero.
  unfoldable pub input_entry : Option ℕ → Where → Option Text → Bool → Bool → List MetricEvent
  unfolding compute_cost
  input_entry none place cache_type is_cached skip_if_zero = []
  input_entry (some count) place cache_type is_cached skip_if_zero =
      if not skip_if_zero || ltb 0 count
      then input_tokens model_id count (compute_cost prices count place model_id) cache_type
          is_cached
        ∷ []
      else []

  unfoldable pub output_entry : Option ℕ → Option Text → List MetricEvent
  unfolding compute_cost
  output_entry none cache_type = []
  output_entry (some count) cache_type =
      output_tokens model_id count (compute_cost prices count output model_id) cache_type ∷ []

  unfoldable pub fallback_entry : Text → Bool → List MetricEvent
  fallback_entry target_model_id fallback_triggered =
      if fallback_triggered then fallback_used target_model_id model_id ∷ [] else []

  -- The events that `_record_metrics` emits, in order.
  unfoldable pub record_metrics : Text → Counts → Bool → Bool → List MetricEvent
  unfolding input_entry output_entry fallback_entry
  record_metrics target_model_id c fallback_triggered is_semantic_search =
      let cache_type = if is_semantic_search then some (text "semantic") else none in
      model_invocation model_id cache_type
      ∷ (input_entry c.token_input_count input cache_type false false
          ++ (input_entry c.cached_token_count cached (some (text "read")) true true
              ++ (input_entry c.cache_creation_5m_token_count cached_creation
                    (some (text "creation")) true true
                  ++ (input_entry c.cache_creation_1h_token_count cached_creation_1h
                        (some (text "creation_1h")) true true
                      ++ (output_entry c.token_output_count cache_type
                          ++ fallback_entry target_model_id fallback_triggered)))))
