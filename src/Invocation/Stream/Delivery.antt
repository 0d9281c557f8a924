-- ===== src/Invocation/Stream/Delivery.antt =====
-- invocation/chat_model_invoker.py: what a stream delivers against what it records.
use mathlib.Core.List.{append-nil, append_assoc}
use mathlib.Core.Path.{subst}
use radicalbit_ai_gateway.Prelude.{
  ℕ, ◌≡◌, refl, sym, ap, ◌∙◌, Bool, true, false, ◌&&◌, Option, none, some, List, [], ◌∷◌, ◌++◌,
  Text, if◌then◌else◌, arith,
}
use radicalbit_ai_gateway.Prelude.Dict.{Dict, lookup}
use radicalbit_ai_gateway.Prelude.Result.{ok, err}
use radicalbit_ai_gateway.Invocation.Registry.{Model, Registered}
use radicalbit_ai_gateway.Invocation.Fallbacks.{internal_error, normalize_kwargs_for_model}
use radicalbit_ai_gateway.Invocation.Stream.{
  Chunk, no_stats, update_all, recorded, Streams, Streaming, Streamed, bound, run_stream,
  stream_model, stream_fallback, stream_fallbacks, stream_normalized, stream_bound, after_fallbacks,
  after_primary, stream_entry, stream,
}
use radicalbit_ai_gateway.Invocation.Stream.History.{
  Attempt, started, attempt, fallback_attempts, later_attempts, last_of, all_chunks, is_cons,
}

-- What a request leaves, by the attempts that it made: the client has all their chunks, in order; one
-- record counts the chunks of the last attempt alone, for its model, and says that a fallback was
-- used if the last attempt ended and was not the first; and the request succeeds if the last attempt
-- ended.
pub record Accounted {C : Type 0} (model_id : Text) (first : Attempt C) (later : List (Attempt C))
    (r : Streamed C) : Type 0 where
  pub received : r.received ≡ all_chunks (first ∷ later)
  pub counted :
      r.metrics
      ≡ recorded
          (last_of first later).model
          model_id
          (update_all (last_of first later).chunks no_stats)
          ((last_of first later).ended && is_cons later)
        ∷ []
  pub reply : r.reply ≡ (if (last_of first later).ended then ok tt else err internal_error)

-- A state of the stream after an attempt.
record After {C : Type 0} (before : List (Chunk C)) (a : Attempt C) (t : Bool × Streaming C)
    : Type 0 where
  ended : t.0 ≡ a.ended
  received : t.1.received ≡ before ++ a.chunks
  stats : t.1.stats ≡ update_all a.chunks no_stats
  model : t.1.model_invoked ≡ a.model

-- A state after several attempts, of which the first had left `before` and its own chunks.
record Follows {C : Type 0} (before : List (Chunk C)) (a : Attempt C) (later : List (Attempt C))
    (t : Bool × Streaming C) : Type 0 where
  ended : t.0 ≡ (last_of a later).ended
  received : t.1.received ≡ before ++ all_chunks later
  stats : t.1.stats ≡ update_all (last_of a later).chunks no_stats
  model : t.1.model_invoked ≡ (last_of a later).model
  triggered : t.0 ≡ ((last_of a later).ended && is_cons later)

and_true : (b : Bool) → b ≡ (b && true)
and_true true = refl
and_true false = refl

and_false : (b : Bool) → (b && false) ≡ false
and_false true = refl
and_false false = refl

-- An attempt, and what follows it if it breaks off.
joined :
    {C : Type 0} (before : List (Chunk C)) (a x : Attempt C) (b f : Bool) (s : Streaming C)
    (rest : Bool × Streaming C) (later : List (Attempt C))
    → x.ended ≡ f
    → After before x (b, s)
    → (b ≡ false → Follows s.received x later rest)
    → Follows before a (x ∷ (if f then [] else later)) (if b then (true, s) else rest)
joined before a x true true s rest later e h next = record {
  ended = h.ended;
  received = h.received ∙ ap (λ l. before ++ l) (sym (append-nil x.chunks));
  stats = h.stats;
  model = h.model;
  triggered = h.ended ∙ and_true x.ended;
}
joined before a x false false s rest later e h next =
    let n = next refl in
    record {
      ended = n.ended;
      received =
          n.received
          ∙ ap (λ l. l ++ all_chunks later) h.received
          ∙ append_assoc before x.chunks (all_chunks later);
      stats = n.stats;
      model = n.model;
      triggered = n.ended ∙ and_true (last_of x later).ended;
    }
joined before a x true false s rest later e h next = cc (h.ended, e)
joined before a x false true s rest later e h next = cc (h.ended, e)

module _ {R V C : Type 0} (p : Streams R V C) (tools : Bool) (kwargs : Dict V) where
  started-After :
      (model : Model) (r : R) (o : Option (Dict V)) (s : Streaming C)
      → s.stats ≡ no_stats
      → s.model_invoked ≡ model
      → After s.received
          (started p tools kwargs model r s.count o).0
          (stream_normalized p tools kwargs r o s)
  unfolding started stream_normalized run_stream update_all
  started-After model r none s fresh invoked = record {
    ended = refl;
    received = sym (append-nil _);
    stats = fresh;
    model = invoked;
  }
  started-After model r (some normalized) s fresh invoked = record {
    ended = refl;
    received = refl;
    stats = ap (update_all (p.astream s.count r normalized).0) fresh;
    model = invoked;
  }

  started-count :
      (model : Model) (r : R) (o : Option (Dict V)) (s : Streaming C)
      → (stream_normalized p tools kwargs r o s).1.count
        ≡ (started p tools kwargs model r s.count o).1
  unfolding started stream_normalized run_stream
  started-count model r none s = refl
  started-count model r (some normalized) s = omega arith

  stream_model-After :
      (model : Model) (r : R) (s : Streaming C)
      → s.stats ≡ no_stats
      → s.model_invoked ≡ model
      → After s.received
          (attempt p tools kwargs model r s.count).0
          (stream_model p tools kwargs model r s)
  unfolding attempt stream_model
  stream_model-After model r s = started-After model r (normalize_kwargs_for_model model kwargs) s

  stream_model-count :
      (model : Model) (r : R) (s : Streaming C)
      → (stream_model p tools kwargs model r s).1.count ≡ (attempt p tools kwargs model r s.count).1
  unfolding attempt stream_model
  stream_model-count model r s = started-count model r (normalize_kwargs_for_model model kwargs) s

  -- The fallbacks `fs`, from any state after an attempt that broke off.
  abbrev AllFollow : List (Model × R) → Type 0
  AllFollow fs =
      (s : Streaming C) (a : Attempt C)
      → s.stats ≡ update_all a.chunks no_stats
      → s.model_invoked ≡ a.model
      → a.ended ≡ false
      → Follows s.received a (fallback_attempts p tools kwargs fs s.count)
          (stream_fallbacks p tools kwargs fs s)

  after_model-Follows :
      (model : Model) (b : R) (fs : List (Model × R)) (s : Streaming C) (a : Attempt C)
      → AllFollow fs
      → s.stats ≡ no_stats
      → s.model_invoked ≡ model
      → (let (x, n) = attempt p tools kwargs model b s.count in
          let (ended, s') = stream_model p tools kwargs model b s in
          Follows s.received a
            (x ∷ (if x.ended then [] else fallback_attempts p tools kwargs fs n))
            (if ended then (true, s') else stream_fallbacks p tools kwargs fs s'))
  after_model-Follows model b fs s a all fresh invoked =
      let x = (attempt p tools kwargs model b s.count).0 in
      let t = stream_model p tools kwargs model b s in
      let h = stream_model-After model b s fresh invoked in
      joined s.received a x t.0 x.ended t.1 (stream_fallbacks p tools kwargs fs t.1)
        (fallback_attempts p tools kwargs fs (attempt p tools kwargs model b s.count).1) refl h
        (λ n.
          subst
            (λ m.
              Follows t.1.received x (fallback_attempts p tools kwargs fs m)
                (stream_fallbacks p tools kwargs fs t.1))
            (stream_model-count model b s) (all t.1 x h.stats h.model (sym h.ended ∙ n)))

  bound-Follows :
      (model : Model) (o : Option R) (fs : List (Model × R)) (s : Streaming C) (a : Attempt C)
      → AllFollow fs
      → s.stats ≡ update_all a.chunks no_stats
      → s.model_invoked ≡ a.model
      → a.ended ≡ false
      → (let (ended, s') = stream_bound p tools kwargs model o s in
          Follows s.received a
            (elim o [
              | none ↦ fallback_attempts p tools kwargs fs s.count
              | some b ↦
                  (attempt p tools kwargs model b s.count).0
                  ∷ (if (attempt p tools kwargs model b s.count).0.ended
                      then []
                      else fallback_attempts p tools kwargs fs
                          (attempt p tools kwargs model b s.count).1)
            ])
            (if ended then (true, s') else stream_fallbacks p tools kwargs fs s'))
  unfolding stream_bound
  bound-Follows model none fs s a all stats invoked broken = all s a stats invoked broken
  bound-Follows model (some b) fs s a all stats invoked broken =
      after_model-Follows model b fs (record s { stats = no_stats; model_invoked = model }) a all
        refl refl

  stream_fallbacks-Follows : (fs : List (Model × R)) → AllFollow fs
  unfolding stream_fallbacks stream_fallback fallback_attempts
  stream_fallbacks-Follows [] s a stats invoked broken = record {
    ended = sym broken;
    received = sym (append-nil _);
    stats = stats;
    model = invoked;
    triggered = ap (λ b. b && false) (sym broken);
  }
  stream_fallbacks-Follows ((model, r) ∷ fs) s a stats invoked broken =
      bound-Follows model (bound p tools kwargs r) fs s a (stream_fallbacks-Follows fs) stats
        invoked broken

  after_fallbacks-Accounted :
      (model_id : Text) (a : Attempt C) (later : List (Attempt C)) (t : Bool × Streaming C)
      → Follows a.chunks a later t
      → Accounted model_id a later (after_fallbacks p tools kwargs model_id t)
  unfolding after_fallbacks
  after_fallbacks-Accounted model_id a later (true, s) h = record {
    received = h.received;
    counted = cc (h.stats, h.model, h.triggered);
    reply = rw (sym h.ended) refl;
  }
  after_fallbacks-Accounted model_id a later (false, s) h = record {
    received = h.received;
    counted = cc (h.stats, h.model, h.triggered);
    reply = rw (sym h.ended) refl;
  }

  after_primary-Accounted :
      (model_id : Text) (entry : Registered R) (a : Attempt C) (n : ℕ) (f : Bool)
      (t : Bool × Streaming C)
      → a.ended ≡ f
      → t.1.count ≡ n
      → After [] a t
      → Accounted model_id a
          (if f then [] else fallback_attempts p tools kwargs entry.fallbacks n)
          (after_primary p tools kwargs model_id entry.fallbacks t)
  unfolding after_primary
  after_primary-Accounted model_id entry a n true (true, s) e c h = record {
    received = h.received ∙ sym (append-nil a.chunks);
    counted = cc (h.stats, h.model, and_false a.ended);
    reply = rw e refl;
  }
  after_primary-Accounted model_id entry a n false (false, s) e c h =
      after_fallbacks-Accounted model_id a _ (stream_fallbacks p tools kwargs entry.fallbacks s) (
        subst
          (λ m.
            Follows a.chunks a (fallback_attempts p tools kwargs entry.fallbacks m)
              (stream_fallbacks p tools kwargs entry.fallbacks s))
          c
          (subst
            (λ l.
              Follows l a (fallback_attempts p tools kwargs entry.fallbacks s.count)
                (stream_fallbacks p tools kwargs entry.fallbacks s))
            h.received (stream_fallbacks-Follows entry.fallbacks s a h.stats h.model e)))
  after_primary-Accounted model_id entry a n true (false, s) e c h = cc (h.ended, e)
  after_primary-Accounted model_id entry a n false (true, s) e c h = cc (h.ended, e)

  -- Whatever fails, a stream of a defined model whose tools can be bound makes the first attempt
  -- and those of the fallbacks after it, of which the client receives all chunks in order. It
  -- leaves one record, with the counts of the last attempt's chunks alone and its model, flagged as
  -- a fallback exactly if that attempt ended and was not the first; the stream succeeds exactly if
  -- the last attempt ended.
  pub stream-Accounted :
      (model_map : Dict (Registered R)) (model_id : Text) (count : ℕ) (entry : Registered R) (r : R)
      → lookup model_id model_map ≡ some entry
      → bound p tools kwargs entry.primary ≡ some r
      → Accounted model_id
          (attempt p tools kwargs entry.model r count).0
          (later_attempts p tools kwargs entry (attempt p tools kwargs entry.model r count))
          (stream p tools kwargs model_map model_id count)
  unfolding stream stream_entry later_attempts
  stream-Accounted model_map model_id count entry r found binds =
      let start : Streaming C = record {
        count = count;
        received = [];
        stats = no_stats;
        model_invoked = entry.model;
      } in
      let x = attempt p tools kwargs entry.model r count in
      rw (found, stream_entry, binds)
        (after_primary-Accounted model_id entry x.0 x.1 x.0.ended
          (stream_model p tools kwargs entry.model r start) refl
          (stream_model-count entry.model r start)
          (stream_model-After entry.model r start refl refl))
