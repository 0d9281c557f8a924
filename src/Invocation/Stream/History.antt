-- ===== src/Invocation/Stream/History.antt =====
-- invocation/chat_model_invoker.py: the attempts that a stream makes, computed without statistics or a
-- list of chunks that changes, for comparison with `stream`.
use radicalbit_ai_gateway.Prelude.{
  ℕ, suc, Bool, true, false, Option, none, some, List, [], ◌∷◌, ◌++◌, if◌then◌else◌,
}
use radicalbit_ai_gateway.Prelude.Dict.{Dict}
use radicalbit_ai_gateway.Invocation.Registry.{Model, Registered}
use radicalbit_ai_gateway.Invocation.Fallbacks.{normalize_kwargs_for_model}
use radicalbit_ai_gateway.Invocation.Stream.{Chunk, Streams, bound}

-- An attempt: the model, what it yielded, and whether its stream ended.
pub record Attempt (C : Type 0) : Type 0 where
  pub model : Model
  pub chunks : List (Chunk C)
  pub ended : Bool

module _ {R V C : Type 0} (p : Streams R V C) (tools : Bool) (kwargs : Dict V) where
  unfoldable pub started : Model → R → ℕ → Option (Dict V) → Attempt C × ℕ
  started model r n none = (record { model = model; chunks = []; ended = false }, n)
  started model r n (some normalized) =
      let (chunks, ended) = p.astream n r normalized in
      (record { model = model; chunks = chunks; ended = ended }, suc n)

  -- The attempt that begins after `n` calls, and the calls after it. There is no call, and no chunk,
  -- where the parameters cannot be normalized.
  unfoldable pub attempt : Model → R → ℕ → Attempt C × ℕ
  unfolding started
  attempt model r n = started model r n (normalize_kwargs_for_model model kwargs)

  -- The attempts of the fallbacks, up to the first that ends. One whose tools cannot be bound is
  -- passed over.
  unfoldable pub fallback_attempts : List (Model × R) → ℕ → List (Attempt C)
  unfolding attempt
  fallback_attempts [] n = []
  fallback_attempts ((model, r) ∷ fallbacks) n = elim (bound p tools kwargs r) [
    | none ↦ fallback_attempts fallbacks n
    | some b ↦
        let rest = fallback_attempts fallbacks (attempt model b n).1 in
        (attempt model b n).0 ∷ (if (attempt model b n).0.ended then [] else rest)
  ]

  -- The attempts after that of the model itself.
  unfoldable pub later_attempts : Registered R → Attempt C × ℕ → List (Attempt C)
  unfolding fallback_attempts
  later_attempts entry (first, n) = if first.ended then [] else fallback_attempts entry.fallbacks n

module _ {C : Type 0} where
  abbrev pub last_of : Attempt C → List (Attempt C) → Attempt C
  last_of a [] = a
  last_of a (b ∷ attempts) = last_of b attempts

  abbrev pub all_chunks : List (Attempt C) → List (Chunk C)
  all_chunks [] = []
  all_chunks (a ∷ attempts) = a.chunks ++ all_chunks attempts

  abbrev pub is_cons : List (Attempt C) → Bool
  is_cons [] = false
  is_cons (a ∷ attempts) = true
