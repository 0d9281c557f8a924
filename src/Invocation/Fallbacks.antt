-- ===== src/Invocation/Fallbacks.antt =====
-- invocation/chat_model_invoker.py: `_normalize_kwargs_for_model` and `_execute_with_fallbacks`. Calling
-- a provider and binding tools are parameters, which may raise; a call that returns gives a message.
pub mod Attempts
use radicalbit_ai_gateway.Prelude.{
  ℕ, ◌+◌, Bool, true, false, ◌&&◌, Option, none, some, List, [], ◌∷◌, ◌++◌, Text, text, text_eq,
  if◌then◌else◌, ◌==◌,
}
use radicalbit_ai_gateway.Prelude.Dict.{Dict, lookup, insert, remove}
use radicalbit_ai_gateway.Prelude.Result.{Result, ok, err}
use radicalbit_ai_gateway.Invocation.Registry.{Model, Registered}

-- `model_str.split('/', 1)[0]`, or nothing without a slash
split_provider : Text → Text → Option (Text × Text)
split_provider before [] = none
split_provider before (c ∷ s) =
    let rest = split_provider (before ++ (c ∷ [])) s in if c == b'/' then some (before, s) else rest

both : Option (Text × Text) → Option (Text × Text)
both none = none
both (some ([], model)) = none
both (some (c ∷ provider, [])) = none
both (some (c ∷ provider, d ∷ model)) = some (c ∷ provider, d ∷ model)

-- utils/parse_provider_and_model.py, which raises where this is `none`
unfoldable pub parse_provider_and_model : Text → Option (Text × Text)
unfolding split_provider both
parse_provider_and_model s = both (split_provider [] s)

-- The parameter's name for a provider.
unfoldable pub tokens_param : Text → Text
unfolding text_eq
tokens_param provider =
    if text_eq provider (text "google-genai")
    then text "max_output_tokens"
    else if text_eq provider (text "anthropic")
    then text "max_tokens"
    else text "max_completion_tokens"

module _ {V : Type 0} where
  put : Text → Option V → Dict V → Dict V
  unfolding insert
  put key none kwargs = kwargs
  put key (some value) kwargs = insert key value kwargs

  unfoldable pub normalize_for : Text → Dict V → Dict V
  unfolding put tokens_param lookup remove text_eq
  normalize_for provider kwargs =
      let key = text "max_completion_tokens" in
      let renamed = put (tokens_param provider) (lookup key kwargs) (remove key kwargs) in
      if text_eq provider (text "anthropic")
      then remove (text "original_stream_options") (remove (text "stream_options") renamed)
      else renamed

  -- `_normalize_kwargs_for_model`, which raises where the model's name has no provider
  unfoldable pub normalize_kwargs_for_model : Model → Dict V → Option (Dict V)
  unfolding parse_provider_and_model normalize_for
  normalize_kwargs_for_model model kwargs = elim (parse_provider_and_model model.model) [
    | none ↦ none
    | some (provider, name) ↦ some (normalize_for provider kwargs)
  ]

pub data ModelInvokerError : Type 0 where
  -- the model is not defined
  bad_request : ModelInvokerError
  -- all models failed
  internal_error : ModelInvokerError
  -- what `bind_tools` of the primary model raised
  not_bound : ModelInvokerError

-- The providers: `bind_tools` with the tools of the request, and the n-th call of `ainvoke`.
pub record Providers (R V M : Type 0) : Type 0 where
  pub bind_tools : R → Option R
  pub ainvoke : ℕ → R → Dict V → Option M

-- The calls made so far, each with the model's identifier.
pub record Calls : Type 0 where
  pub count : ℕ
  pub models : List Text

module _ {R V M : Type 0} (p : Providers R V M) where
  -- `tools and tool_choice`
  abbrev pub bound : Bool → R → Option R
  bound tools r = if tools then p.bind_tools r else some r

  call_with : Model → R → Option (Dict V) → Calls → Option M × Calls
  call_with model r none calls = (none, calls)
  call_with model r (some kwargs) calls = (
    p.ainvoke calls.count r kwargs,
    record { count = calls.count + 1; models = calls.models ++ (model.model_id ∷ []) },
  )

  -- `await chat_model.ainvoke(input=messages, **…)`
  unfoldable pub call : Model → R → Dict V → Calls → Option M × Calls
  unfolding call_with normalize_kwargs_for_model
  call model r kwargs = call_with model r (normalize_kwargs_for_model model kwargs)

  -- The body of the loop's `try`.
  unfoldable pub try_fallback : Bool → Dict V → Model → R → Calls → Option M × Calls
  unfolding call
  try_fallback tools kwargs model r calls = elim (bound tools r) [
    | none ↦ (none, calls)
    | some b ↦ call model b kwargs calls
  ]

  -- The loop over the fallbacks.
  unfoldable pub try_fallbacks :
      Bool → Dict V → List (Model × R) → Calls → Result ModelInvokerError (M × Model × Bool) × Calls
  unfolding try_fallback
  try_fallbacks tools kwargs [] calls = (err internal_error, calls)
  try_fallbacks tools kwargs ((model, r) ∷ fallbacks) calls =
      let (result, calls') = try_fallback tools kwargs model r calls in
      elim result [
        | some message ↦ (ok (message, model, true), calls')
        | none ↦ try_fallbacks tools kwargs fallbacks calls'
      ]

  unfoldable pub run_primary :
      Bool → Dict V → Registered R → R → Calls → Result ModelInvokerError (M × Model × Bool) × Calls
  unfolding call try_fallbacks
  run_primary tools kwargs entry r calls =
      let (result, calls') = call entry.model r kwargs calls in
      elim result [
        | some message ↦ (ok (message, entry.model, false), calls')
        | none ↦ try_fallbacks tools kwargs entry.fallbacks calls'
      ]

  unfoldable pub execute_entry :
      Bool
      → Dict V
      → Option (Registered R)
      → Calls
      → Result ModelInvokerError (M × Model × Bool) × Calls
  unfolding run_primary
  execute_entry tools kwargs none calls = (err bad_request, calls)
  execute_entry tools kwargs (some entry) calls = elim (bound tools entry.primary) [
    | none ↦ (err not_bound, calls)
    | some r ↦ run_primary tools kwargs entry r calls
  ]

  -- `_execute_with_fallbacks`
  unfoldable pub execute_with_fallbacks :
      Dict (Registered R)
      → Bool
      → Text
      → Dict V
      → Calls
      → Result ModelInvokerError (M × Model × Bool) × Calls
  unfolding execute_entry lookup
  execute_with_fallbacks model_map tools model_id kwargs =
      execute_entry tools kwargs (lookup model_id model_map)
