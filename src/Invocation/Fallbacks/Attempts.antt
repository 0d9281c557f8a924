-- ===== src/Invocation/Fallbacks/Attempts.antt =====
-- invocation/chat_model_invoker.py: the attempts of `_execute_with_fallbacks`, and which answer it gives.
use mathlib.Core.Path.{subst}
use radicalbit_ai_gateway.Prelude.{
  ◌≡◌, refl, ap, ◌∙◌, ◌⊎◌, inl, inr, Bool, true, false, ◌||◌, Option, none, some, List, [], ◌∷◌,
  ◌++◌, Text,
}
use radicalbit_ai_gateway.Prelude.Dict.{Dict, lookup}
use radicalbit_ai_gateway.Prelude.Result.{Result, ok, err}
use radicalbit_ai_gateway.Invocation.Registry.{Model, Registered}
use radicalbit_ai_gateway.Invocation.Fallbacks.{
  Providers, Calls, ModelInvokerError, internal_error, bound, call, try_fallback, try_fallbacks,
  run_primary, execute_entry, execute_with_fallbacks,
}

abbrev pub is_cons : {A : Type 0} → List A → Bool
is_cons [] = false
is_cons (x ∷ xs) = true

or_true : (b : Bool) → true ≡ (b || true)
or_true true = refl
or_true false = refl

or_false : (b : Bool) → b ≡ (b || false)
or_false true = refl
or_false false = refl

module _ {R V M : Type 0} (p : Providers R V M) (tools : Bool) (kwargs : Dict V) where
  -- The attempts fail one after another, from one state of the providers to another.
  abbrev pub AllFail : List (Model × R) → Calls → Calls → Type 0
  AllFail [] before after = before ≡ after
  AllFail ((model, r) ∷ attempts) before after =
      ((try_fallback p tools kwargs model r before).0 ≡ none)
      × AllFail attempts (try_fallback p tools kwargs model r before).1 after

  -- The first attempt that succeeds, after those that failed.
  pub record Succeeds (flag : Bool) (attempts : List (Model × R)) (calls : Calls)
      (result : Result ModelInvokerError (M × Model × Bool) × Calls) : Type 0 where
    pub failed : List (Model × R)
    pub model : Model
    pub runnable : R
    pub rest : List (Model × R)
    pub between : Calls
    pub message : M
    pub split : attempts ≡ failed ++ ((model, runnable) ∷ rest)
    pub failing : AllFail failed calls between
    pub succeeding : (try_fallback p tools kwargs model runnable between).0 ≡ some message
    pub reply : result.0 ≡ ok (message, model, flag || is_cons failed)
    pub after : result.1 ≡ (try_fallback p tools kwargs model runnable between).1

  -- All attempts fail.
  pub record Fails (attempts : List (Model × R)) (calls : Calls)
      (result : Result ModelInvokerError (M × Model × Bool) × Calls) : Type 0 where
    pub failing : AllFail attempts calls result.1
    pub reply : result.0 ≡ err internal_error

  -- `flag` says that a fallback was used before these attempts.
  abbrev pub Outcome :
      Bool → List (Model × R) → Calls → Result ModelInvokerError (M × Model × Bool) × Calls → Type 0
  Outcome flag attempts calls result =
      Succeeds flag attempts calls result ⊎ Fails attempts calls result

  later :
      (flag : Bool) (model : Model) (r : R) (attempts : List (Model × R)) (calls : Calls)
      (result : Result ModelInvokerError (M × Model × Bool) × Calls)
      → (try_fallback p tools kwargs model r calls).0 ≡ none
      → Outcome true attempts (try_fallback p tools kwargs model r calls).1 result
      → Outcome flag ((model, r) ∷ attempts) calls result
  later flag model r attempts calls result e (inl s) = inl (record {
    failed = (model, r) ∷ s.failed;
    model = s.model;
    runnable = s.runnable;
    rest = s.rest;
    between = s.between;
    message = s.message;
    split = ap (λ l. (model, r) ∷ l) s.split;
    failing = (e, s.failing);
    succeeding = s.succeeding;
    reply = s.reply ∙ ap (λ b. ok (s.message, s.model, b)) (or_true flag);
    after = s.after;
  })
  later flag model r attempts calls result e (inr f) =
      inr (record { failing = (e, f.failing); reply = f.reply })

  -- One attempt, and what follows when it fails.
  attempt :
      (flag : Bool) (model : Model) (r : R) (attempts : List (Model × R)) (calls : Calls)
      (o : Option M) (result : Result ModelInvokerError (M × Model × Bool) × Calls)
      → (try_fallback p tools kwargs model r calls).0 ≡ o
      → Outcome true attempts (try_fallback p tools kwargs model r calls).1 result
      → Outcome flag ((model, r) ∷ attempts) calls (elim o [
        | some message ↦ (ok (message, model, flag), (try_fallback p tools kwargs model r calls).1)
        | none ↦ result
      ])
  attempt flag model r attempts calls (some message) result e outcome = inl (record {
    failed = [];
    model = model;
    runnable = r;
    rest = attempts;
    between = calls;
    message = message;
    split = refl;
    failing = refl;
    succeeding = e;
    reply = ap (λ b. ok (message, model, b)) (or_false flag);
    after = refl;
  })
  attempt flag model r attempts calls none result e outcome =
      later flag model r attempts calls result e outcome

  try_fallbacks-Outcome :
      (attempts : List (Model × R)) (calls : Calls)
      → Outcome true attempts calls (try_fallbacks p tools kwargs attempts calls)
  unfolding try_fallbacks
  try_fallbacks-Outcome [] calls = inr (record { failing = refl; reply = refl })
  try_fallbacks-Outcome ((model, r) ∷ attempts) calls =
      attempt true model r attempts calls _ _ refl
        (try_fallbacks-Outcome attempts (try_fallback p tools kwargs model r calls).1)

  try_fallback-call :
      (model : Model) (q r : R) (calls : Calls)
      → bound p tools q ≡ some r
      → try_fallback p tools kwargs model q calls ≡ call p model r kwargs calls
  unfolding try_fallback
  try_fallback-call model q r calls e = rw (try_fallback, e) refl

  run_primary-Outcome :
      (entry : Registered R) (r : R) (calls : Calls)
      → bound p tools entry.primary ≡ some r
      → Outcome false
          ((entry.model, entry.primary) ∷ entry.fallbacks)
          calls
          (run_primary p tools kwargs entry r calls)
  unfolding run_primary
  run_primary-Outcome entry r calls e =
      subst
        (λ (t : Option M × Calls).
          Outcome false ((entry.model, entry.primary) ∷ entry.fallbacks) calls (elim t.0 [
            | some message ↦ (ok (message, entry.model, false), t.1)
            | none ↦ try_fallbacks p tools kwargs entry.fallbacks t.1
          ]))
        (try_fallback-call entry.model entry.primary r calls e)
        (attempt false entry.model entry.primary entry.fallbacks calls _ _ refl (
          try_fallbacks-Outcome entry.fallbacks
            (try_fallback p tools kwargs entry.model entry.primary calls).1))

  -- A request for a defined model whose tools can be bound gets the answer of the first attempt
  -- that succeeds, of the model and then its fallbacks in order, with the model that gave it and
  -- whether that was a fallback, and no attempt is made after it; if no attempt succeeds, all are
  -- made and it fails with an internal error.
  pub execute_with_fallbacks-Outcome :
      (model_map : Dict (Registered R)) (model_id : Text) (entry : Registered R) (r : R)
      (calls : Calls)
      → lookup model_id model_map ≡ some entry
      → bound p tools entry.primary ≡ some r
      → Outcome false
          ((entry.model, entry.primary) ∷ entry.fallbacks)
          calls
          (execute_with_fallbacks p model_map tools model_id kwargs calls)
  unfolding execute_with_fallbacks execute_entry
  execute_with_fallbacks-Outcome model_map model_id entry r calls found binds =
      rw (found, execute_entry, binds) (run_primary-Outcome entry r calls binds)
