-- ===== src/Invocation/Stream.antt =====
-- invocation/chat_model_invoker.py: `_extract_cache_token_counts`, `_stream_with_metrics` and `stream`,
-- for a client that reads to the end. Streaming from a provider is a parameter: the chunks that it
-- yields, and whether it ends or raises after them. Counts of tokens are not negative; a count of
-- input tokens that the cached ones exceed stands for 0, which is recorded the same way.
pub mod History
pub mod Delivery
pub mod Success
use radicalbit_ai_gateway.Prelude.{
  ℕ, ◌+◌, ◌-◌, Bool, true, false, not, Option, none, some, List, [], ◌∷◌, ◌++◌, Text, ltb, ◌==◌,
  if◌then◌else◌,
}
use radicalbit_ai_gateway.Prelude.Dict.{Dict, lookup}
use radicalbit_ai_gateway.Prelude.Result.{Result, ok, err}
use radicalbit_ai_gateway.Invocation.Registry.{Model, Registered}
use radicalbit_ai_gateway.Invocation.Fallbacks.{
  ModelInvokerError, bad_request, internal_error, not_bound, normalize_kwargs_for_model,
}

-- `input_token_details` of the usage
pub record InputTokenDetails : Type 0 where
  pub cache_read : Option ℕ
  pub ephemeral_5m_input_tokens : Option ℕ
  pub ephemeral_1h_input_tokens : Option ℕ
  pub cache_creation : Option ℕ

-- A `usage_metadata` that is not empty.
pub record Usage : Type 0 where
  pub input_tokens : Option ℕ
  pub output_tokens : Option ℕ
  pub input_token_details : Option InputTokenDetails

pub record Chunk (C : Type 0) : Type 0 where
  pub content : C
  pub usage_metadata : Option Usage
  -- `response_metadata['token_usage']['prompt_tokens_details']['cached_tokens']`, where it is there
  pub cached_tokens : Option ℕ

abbrev pub or_zero : Option ℕ → ℕ
or_zero none = 0
or_zero (some n) = n

-- A value that is true in Python.
abbrev pub truthy : Option ℕ → Option ℕ
truthy none = none
truthy (some n) = if n == 0 then none else some n

abbrev pub or_else : Option ℕ → Option ℕ → Option ℕ
or_else none other = other
or_else (some n) other = some n

-- The counts of tokens read from the cache, and written to it for five minutes and for an hour.
pub record CacheCounts : Type 0 where
  pub cached : Option ℕ
  pub creation_5m : Option ℕ
  pub creation_1h : Option ℕ

-- The granular counts where there is one, and the total otherwise.
creation_counts : Option ℕ → Option ℕ → Option ℕ → Option ℕ × Option ℕ
creation_counts (some a) one_hour total = (some a, one_hour)
creation_counts none (some b) total = (none, some b)
creation_counts none none total = (total, none)

details_counts : Option InputTokenDetails → CacheCounts
unfolding creation_counts
details_counts none = record { cached = none; creation_5m = none; creation_1h = none }
details_counts (some d) =
    let (five, hour) =
      creation_counts (truthy d.ephemeral_5m_input_tokens) (truthy d.ephemeral_1h_input_tokens)
        (truthy d.cache_creation) in
    record { cached = truthy d.cache_read; creation_5m = five; creation_1h = hour }

-- `_extract_cache_token_counts` of a chunk with usage
unfoldable pub extract_cache_token_counts : Usage → Option ℕ → CacheCounts
unfolding details_counts
extract_cache_token_counts usage cached_tokens =
    let counts = details_counts usage.input_token_details in
    record counts { cached = or_else counts.cached cached_tokens }

pub record Stats : Type 0 where
  pub token_input_count : ℕ
  pub token_output_count : ℕ
  pub cached_token_count : ℕ
  pub cache_creation_5m_token_count : ℕ
  pub cache_creation_1h_token_count : ℕ

abbrev pub no_stats : Stats
no_stats = record {
  token_input_count = 0;
  token_output_count = 0;
  cached_token_count = 0;
  cache_creation_5m_token_count = 0;
  cache_creation_1h_token_count = 0;
}

abbrev pub given : Option ℕ → ℕ → ℕ
given none old = old
given (some n) old = n

unfoldable pub with_usage : Usage → CacheCounts → Stats → Stats
with_usage usage counts stats =
    let cached = given counts.cached stats.cached_token_count in
    let five = given counts.creation_5m stats.cache_creation_5m_token_count in
    let hour = given counts.creation_1h stats.cache_creation_1h_token_count in
    let input_tokens = or_zero usage.input_tokens in
    record {
      token_input_count =
          if input_tokens == 0
          then stats.token_input_count
          else input_tokens - cached - five - hour;
      token_output_count = stats.token_output_count + or_zero usage.output_tokens;
      cached_token_count = cached;
      cache_creation_5m_token_count = five;
      cache_creation_1h_token_count = hour;
    }

-- What `_stream_with_metrics` does to the statistics before it yields a chunk.
unfoldable pub update_stats : {C : Type 0} → Chunk C → Stats → Stats
unfolding with_usage extract_cache_token_counts
update_stats chunk stats = elim chunk.usage_metadata [
  | none ↦ stats
  | some usage ↦ with_usage usage (extract_cache_token_counts usage chunk.cached_tokens) stats
]

unfoldable pub update_all : {C : Type 0} → List (Chunk C) → Stats → Stats
unfolding update_stats
update_all [] stats = stats
update_all (chunk ∷ chunks) stats = update_all chunks (update_stats chunk stats)

-- What `stream` passes to `_record_metrics`.
pub record Recorded : Type 0 where
  pub model : Model
  pub target_model_id : Text
  pub token_input_count : Option ℕ
  pub token_output_count : Option ℕ
  pub cached_token_count : Option ℕ
  pub cache_creation_5m_token_count : Option ℕ
  pub cache_creation_1h_token_count : Option ℕ
  pub fallback_triggered : Bool

-- `n if n > 0 else None`
abbrev pub if_positive : ℕ → Option ℕ
if_positive n = if ltb 0 n then some n else none

abbrev pub recorded : Model → Text → Stats → Bool → Recorded
recorded model target_model_id stats fallback_triggered = record {
  model = model;
  target_model_id = target_model_id;
  token_input_count = if_positive stats.token_input_count;
  token_output_count = if_positive stats.token_output_count;
  cached_token_count = if_positive stats.cached_token_count;
  cache_creation_5m_token_count = if_positive stats.cache_creation_5m_token_count;
  cache_creation_1h_token_count = if_positive stats.cache_creation_1h_token_count;
  fallback_triggered = fallback_triggered;
}

-- The providers: `bind_tools` with the tools of the request, and the n-th call of `astream`.
pub record Streams (R V C : Type 0) : Type 0 where
  pub bind_tools : R → Option R
  pub astream : ℕ → R → Dict V → List (Chunk C) × Bool

-- The calls made so far, the chunks that the client has received, the statistics and
-- `model_invoked`.
pub record Streaming (C : Type 0) : Type 0 where
  pub count : ℕ
  pub received : List (Chunk C)
  pub stats : Stats
  pub model_invoked : Model

-- What a request leaves: what was raised, the chunks received, and the calls of `_record_metrics`.
pub record Streamed (C : Type 0) : Type 0 where
  pub reply : Result ModelInvokerError (Unit {0})
  pub count : ℕ
  pub received : List (Chunk C)
  pub metrics : List Recorded

module _ {R V C : Type 0} (p : Streams R V C) (tools : Bool) (kwargs : Dict V) where
  -- `tools and tool_choice`
  abbrev pub bound : R → Option R
  bound r = if tools then p.bind_tools r else some r

  -- `async for chunk in self._stream_with_metrics(…): yield chunk`, and whether it ended
  unfoldable pub run_stream : R → Dict V → Streaming C → Bool × Streaming C
  unfolding update_all
  run_stream r normalized s =
      let (chunks, ended) = p.astream s.count r normalized in
      (
        ended,
        record s {
          count = s.count + 1;
          received = s.received ++ chunks;
          stats = update_all chunks s.stats;
        },
      )

  unfoldable pub stream_normalized : R → Option (Dict V) → Streaming C → Bool × Streaming C
  unfolding run_stream
  stream_normalized r none s = (false, s)
  stream_normalized r (some normalized) s = run_stream r normalized s

  -- The stream of a model, where its parameters can be normalized.
  unfoldable pub stream_model : Model → R → Streaming C → Bool × Streaming C
  unfolding stream_normalized normalize_kwargs_for_model
  stream_model model r = stream_normalized r (normalize_kwargs_for_model model kwargs)

  unfoldable pub stream_bound : Model → Option R → Streaming C → Bool × Streaming C
  unfolding stream_model
  stream_bound model none s = (false, s)
  stream_bound model (some b) s =
      stream_model model b (record s { stats = no_stats; model_invoked = model })

  -- One round of the loop over the fallbacks: bind, reset the statistics, stream.
  unfoldable pub stream_fallback : Model → R → Streaming C → Bool × Streaming C
  unfolding stream_bound
  stream_fallback model r = stream_bound model (bound r)

  -- The loop, and whether a fallback succeeded.
  unfoldable pub stream_fallbacks : List (Model × R) → Streaming C → Bool × Streaming C
  unfolding stream_fallback
  stream_fallbacks [] s = (false, s)
  stream_fallbacks ((model, r) ∷ fallbacks) s =
      let (ended, s') = stream_fallback model r s in
      let rest = stream_fallbacks fallbacks s' in if ended then (true, s') else rest

  -- `finally: self._record_metrics(…)`
  abbrev pub finish : Text → Result ModelInvokerError (Unit {0}) → Bool → Streaming C → Streamed C
  finish model_id reply fallback_triggered s = record {
    reply = reply;
    count = s.count;
    received = s.received;
    metrics = recorded s.model_invoked model_id s.stats fallback_triggered ∷ [];
  }

  unfoldable pub after_fallbacks : Text → Bool × Streaming C → Streamed C
  after_fallbacks model_id (true, s) = finish model_id (ok tt) true s
  after_fallbacks model_id (false, s) = finish model_id (err internal_error) false s

  unfoldable pub after_primary : Text → List (Model × R) → Bool × Streaming C → Streamed C
  unfolding after_fallbacks stream_fallbacks
  after_primary model_id fallbacks (true, s) = finish model_id (ok tt) false s
  after_primary model_id fallbacks (false, s) =
      after_fallbacks model_id (stream_fallbacks fallbacks s)

  -- Raised before the `try`: nothing is recorded.
  abbrev pub refused : ModelInvokerError → ℕ → Streamed C
  refused error count = record { reply = err error; count = count; received = []; metrics = [] }

  unfoldable pub stream_entry : Text → ℕ → Option (Registered R) → Streamed C
  unfolding after_primary stream_model
  stream_entry model_id count none = refused bad_request count
  stream_entry model_id count (some entry) = elim (bound entry.primary) [
    | none ↦ refused not_bound count
    | some r ↦ after_primary model_id entry.fallbacks (
        stream_model entry.model r
          (record { count = count; received = []; stats = no_stats; model_invoked = entry.model }))
  ]

  -- `stream`, after a number of calls
  unfoldable pub stream : Dict (Registered R) → Text → ℕ → Streamed C
  unfolding stream_entry lookup
  stream model_map model_id count = stream_entry model_id count (lookup model_id model_map)
