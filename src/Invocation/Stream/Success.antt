-- ===== src/Invocation/Stream/Success.antt =====
-- invocation/chat_model_invoker.py: when `stream` succeeds.
use radicalbit_ai_gateway.Prelude.{
  ℕ, ◌≡◌, refl, ap, ◌∙◌, Bool, true, false, some, List, [], ◌∷◌, ◌++◌, Text, if◌then◌else◌,
}
use radicalbit_ai_gateway.Prelude.Dict.{Dict, lookup}
use radicalbit_ai_gateway.Prelude.Result.{ok}
use radicalbit_ai_gateway.Invocation.Registry.{Model, Registered}
use radicalbit_ai_gateway.Invocation.Stream.{
  Streams, Streaming, bound, stream_fallback, stream_fallbacks, after_fallbacks, after_primary,
  stream_entry, stream,
}

either-ends :
    {C : Type 0} (b : Bool) (s : Streaming C) (t : Bool × Streaming C)
    → t.0 ≡ true
    → (if b then (true, s) else t).0 ≡ true
either-ends true s t h = refl
either-ends false s t h = h

module _ {R V C : Type 0} (p : Streams R V C) (tools : Bool) (kwargs : Dict V) where
  -- The stream of the fallback ends whenever it is started.
  abbrev pub Available : Model → R → Type 0
  Available model r = (s : Streaming C) → (stream_fallback p tools kwargs model r s).0 ≡ true

  stream_fallbacks-ends :
      (others : List (Model × R)) (model : Model) (r : R) (rest : List (Model × R))
      (s : Streaming C)
      → Available model r
      → (stream_fallbacks p tools kwargs (others ++ ((model, r) ∷ rest)) s).0 ≡ true
  unfolding stream_fallbacks
  stream_fallbacks-ends [] model r rest s h = rw (h s) refl
  stream_fallbacks-ends ((m, q) ∷ others) model r rest s h =
      let next = stream_fallback p tools kwargs m q s in
      either-ends next.0 next.1 _ (stream_fallbacks-ends others model r rest next.1 h)

  after_fallbacks-replies :
      (model_id : Text) (t : Bool × Streaming C)
      → t.0 ≡ true
      → (after_fallbacks p tools kwargs model_id t).reply ≡ ok tt
  unfolding after_fallbacks
  after_fallbacks-replies model_id (true, s) h = refl
  after_fallbacks-replies model_id (false, s) h = cc

  after_primary-replies :
      (model_id : Text) (fallbacks : List (Model × R)) (t : Bool × Streaming C)
      → ((s : Streaming C) → (stream_fallbacks p tools kwargs fallbacks s).0 ≡ true)
      → (after_primary p tools kwargs model_id fallbacks t).reply ≡ ok tt
  unfolding after_primary
  after_primary-replies model_id fallbacks (true, s) h = refl
  after_primary-replies model_id fallbacks (false, s) h =
      after_fallbacks-replies model_id (stream_fallbacks p tools kwargs fallbacks s) (h s)

  -- A fallback whose stream always ends is enough for the stream of a defined model whose tools can
  -- be bound to succeed, whatever the model itself and the other fallbacks do.
  pub stream-replies :
      (model_map : Dict (Registered R)) (model_id : Text) (count : ℕ) (entry : Registered R) (b : R)
      (others : List (Model × R)) (model : Model) (r : R) (rest : List (Model × R))
      → lookup model_id model_map ≡ some entry
      → bound p tools kwargs entry.primary ≡ some b
      → entry.fallbacks ≡ others ++ ((model, r) ∷ rest)
      → Available model r
      → (stream p tools kwargs model_map model_id count).reply ≡ ok tt
  unfolding stream stream_entry
  stream-replies model_map model_id count entry b others model r rest found binds split h =
      rw (found, stream_entry, binds)
        (after_primary-replies model_id entry.fallbacks _ (λ s.
          ap (λ l. (stream_fallbacks p tools kwargs l s).0) split
          ∙ stream_fallbacks-ends others model r rest s h))
