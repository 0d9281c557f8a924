-- ===== src/Tests/Models.antt =====
-- The models of a route, their fallbacks and the router at concrete inputs: the first model's calls
-- fail, and the second model stands in for it.
use radicalbit_ai_gateway.Prelude.{
  arith, ℕ, ◌+◌, ◌*◌, ◌≡◌, refl, true, false, Option, none, some, List, [], ◌∷◌, Text, text,
  text_eq, leb, if◌then◌else◌,
}
use radicalbit_ai_gateway.Prelude.Dict.{Dict, lookup}
use radicalbit_ai_gateway.Prelude.Result.{ok}
use radicalbit_ai_gateway.Invocation.Registry.{Model, Fallback, Registered}
use radicalbit_ai_gateway.Invocation.Fallbacks.{
  Providers, Calls, execute_with_fallbacks, normalize_kwargs_for_model,
}
use radicalbit_ai_gateway.Invocation.Fallbacks.Attempts.{Outcome, execute_with_fallbacks-Outcome}
use radicalbit_ai_gateway.Invocation.Stream.{Streams, Chunk, stream, stream_fallback}
use radicalbit_ai_gateway.Invocation.Stream.History.{attempt, later_attempts}
use radicalbit_ai_gateway.Invocation.Stream.Delivery.{Accounted, stream-Accounted}
use radicalbit_ai_gateway.Invocation.Stream.Success.{Available, stream-replies}
use radicalbit_ai_gateway.Invocation.Metrics.{Prices, Counts, record_metrics}
use radicalbit_ai_gateway.Invocation.Metrics.Costs.{total_cost, record_metrics-cost}
use radicalbit_ai_gateway.Routing.{
  Router, OutputMappingEntry, TokenLengthConditions, gte, lte, token_length, conditions_entry,
}
use radicalbit_ai_gateway.Routing.Conditions.{highest_below, lowest_above, or_else}
use radicalbit_ai_gateway.Routing.Bounds.{conditions_entry-bounds}

abbrev first_model : Model
first_model = record { model_id = text "a"; model = text "openai/x" }

abbrev second_model : Model
second_model = record { model_id = text "b"; model = text "anthropic/y" }

-- A runnable is the model's identifier.
abbrev build : Model → Option Text
build m = some m.model_id

abbrev models : List Model
models = first_model ∷ second_model ∷ []

abbrev stand_ins : List Fallback
stand_ins = record { target = text "a"; fallbacks = text "b" ∷ [] } ∷ []

abbrev entry : Registered Text
entry = record {
  model = first_model;
  primary = text "a";
  fallbacks = (second_model, text "b") ∷ [];
}

abbrev other_entry : Registered Text
other_entry = record { model = second_model; primary = text "b"; fallbacks = [] }

abbrev model_map : Dict (Registered Text)
model_map = (text "a", entry) ∷ (text "b", other_entry) ∷ []

abbrev providers : Providers Text ℕ Text
providers = record {
  bind_tools = λ r. some r;
  ainvoke = λ n r kwargs. if text_eq r (text "a") then none else some (text "hello");
}

abbrev nothing_called : Calls
nothing_called = record { count = 0; models = [] }

execute_with_fallbacks-Outcome_example :
    Outcome providers true [] false
      ((first_model, text "a") ∷ (second_model, text "b") ∷ [])
      nothing_called
      (execute_with_fallbacks providers model_map true (text "a") [] nothing_called)
unfolding lookup text_eq
execute_with_fallbacks-Outcome_example =
    execute_with_fallbacks-Outcome providers true [] model_map (text "a") entry (text "a")
      nothing_called refl refl

abbrev a_chunk : Chunk Text
a_chunk = record {
  content = text "hel";
  usage_metadata =
      some (record { input_tokens = some 5; output_tokens = some 2; input_token_details = none });
  cached_tokens = none;
}

-- The first model breaks off after a chunk.
abbrev streams : Streams Text ℕ Text
streams = record {
  bind_tools = λ r. some r;
  astream = λ n r kwargs. (a_chunk ∷ [], text_eq r (text "b"));
}

stream-Accounted_example :
    Accounted
      (text "a")
      (attempt streams true [] first_model (text "a") 0).0
      (later_attempts streams true [] entry (attempt streams true [] first_model (text "a") 0))
      (stream streams true [] model_map (text "a") 0)
unfolding lookup text_eq
stream-Accounted_example =
    stream-Accounted streams true [] model_map (text "a") 0 entry (text "a") refl refl

second-Available : Available streams true [] second_model (text "b")
unfolding stream_fallback text_eq normalize_kwargs_for_model
second-Available s = refl

stream-replies_example : (stream streams true [] model_map (text "a") 0).reply ≡ ok tt
unfolding lookup text_eq
stream-replies_example =
    stream-replies streams true [] model_map (text "a") 0 entry (text "a") [] second_model
      (text "b") [] refl refl refl second-Available

abbrev prices : Prices
prices = record {
  input_cost_per_token = 2;
  output_cost_per_token = 6;
  input_cached_cost_per_token = 1;
  input_cache_creation_5m_cost_per_token = 3;
  input_cache_creation_1h_cost_per_token = 4;
  input_cost_per_second = 0;
  input_cost_per_audio_token = 0;
}

abbrev counts : Counts
counts = record {
  token_input_count = some 10;
  token_output_count = some 7;
  cached_token_count = some 0;
  cache_creation_5m_token_count = none;
  cache_creation_1h_token_count = some 5;
}

record_metrics-cost_example :
    total_cost (record_metrics ((text "a", prices) ∷ []) (text "a") (text "a") counts false false)
    ≡ 10 * 2 + 0 * 1 + 0 * 3 + 5 * 4 + 7 * 6
unfolding lookup text_eq
record_metrics-cost_example =
    record_metrics-cost ((text "a", prices) ∷ []) (text "a") prices refl (text "a") counts false
      false

abbrev mapping : List (OutputMappingEntry TokenLengthConditions)
mapping =
    record { model_id = text "a"; conditions = gte 10 }
    ∷ record { model_id = text "b"; conditions = gte 100 }
    ∷ record { model_id = text "c"; conditions = lte 200 }
    ∷ []

abbrev router : Router ℕ
router = record {
  config = record { default_model_id = text "a"; rule = token_length mapping };
  models_by_id = (text "a", first_model) ∷ [];
  count_tokens = λ s m. 150;
  cron_validate = λ s. false;
  remaining_budget = none;
  usage_ratio = λ a b. a;
  ratio_le = leb;
}

conditions_entry-bounds_example :
    conditions_entry router mapping 150
    ≡ or_else (highest_below 150 mapping) (lowest_above 150 mapping)
conditions_entry-bounds_example = conditions_entry-bounds router mapping 150 (omega arith)
