-- ===== src/Invocation/Registry.antt =====
-- invocation/model_invoker.py: `_initialize_models`. A runnable is what `build_fn` returns for a model;
-- building is a parameter that may raise.
pub mod Lookup
pub mod Table
use radicalbit_ai_gateway.Prelude.{Option, none, some, List, [], ◌∷◌, ◌++◌, Text, map}
use radicalbit_ai_gateway.Prelude.Dict.{Dict, lookup, insert}

-- models/model.py, the fields that are used here
pub record Model : Type 0 where
  pub model_id : Text
  pub model : Text

-- models/fallback.py
pub record Fallback : Type 0 where
  pub target : Text
  pub fallbacks : List Text

-- An entry of `model_map`.
pub record Registered (R : Type 0) : Type 0 where
  pub model : Model
  pub primary : R
  pub fallbacks : List (Model × R)

-- `{m.model_id: m for m in models}`, onto a dictionary
unfoldable pub models_lookup_onto : Dict Model → List Model → Dict Model
unfolding insert
models_lookup_onto found [] = found
models_lookup_onto found (m ∷ ms) = models_lookup_onto (insert m.model_id m found) ms

unfoldable pub models_lookup : List Model → Dict Model
unfolding models_lookup_onto
models_lookup = models_lookup_onto []

abbrev pub or_empty : {A : Type 0} → Option (List A) → List A
or_empty none = []
or_empty (some xs) = xs

-- `fallback_lookup.setdefault(f.target, []).extend(f.fallbacks)` for each fallback
unfoldable pub fallback_lookup_onto : Dict (List Text) → List Fallback → Dict (List Text)
unfolding lookup insert
fallback_lookup_onto table [] = table
fallback_lookup_onto table (f ∷ fs) =
    fallback_lookup_onto (insert f.target (or_empty (lookup f.target table) ++ f.fallbacks) table)
      fs

unfoldable pub fallback_lookup : List Fallback → Dict (List Text)
unfolding fallback_lookup_onto
fallback_lookup = fallback_lookup_onto []

module _ {R : Type 0} (build : Model → Option R) where
  with_runnable : Model → Option R → List (Model × R) → List (Model × R)
  with_runnable m none rest = rest
  with_runnable m (some r) rest = (m, r) ∷ rest

  add_fallback : Option Model → List (Model × R) → List (Model × R)
  unfolding with_runnable
  add_fallback none rest = rest
  add_fallback (some m) rest = with_runnable m (build m) rest

  -- The fallback models that are known and can be built.
  unfoldable pub build_fallbacks : Dict Model → List Text → List (Model × R)
  unfolding add_fallback lookup
  build_fallbacks found [] = []
  build_fallbacks found (id ∷ ids) = add_fallback (lookup id found) (build_fallbacks found ids)

  unfoldable pub register :
      Model
      → List (Model × R)
      → Option R
      → Option (Dict (Registered R))
      → Option (Dict (Registered R))
  unfolding insert
  register m fallbacks none table = none
  register m fallbacks (some r) none = none
  register m fallbacks (some r) (some table) =
      some (insert m.model_id (record { model = m; primary = r; fallbacks = fallbacks }) table)

  -- The loop over the models that are left, onto the table so far. A primary model that cannot be
  -- built raises.
  unfoldable pub register_onto :
      Dict Model
      → Dict (List Text)
      → Option (Dict (Registered R))
      → List Model
      → Option (Dict (Registered R))
  unfolding register build_fallbacks lookup
  register_onto found fallbacks table [] = table
  register_onto found fallbacks table (m ∷ ms) =
      register_onto found fallbacks
        (register m (build_fallbacks found (or_empty (lookup m.model_id fallbacks))) (build m)
          table)
        ms

  -- `_initialize_models`
  unfoldable pub initialize_models : List Model → List Fallback → Option (Dict (Registered R))
  unfolding models_lookup fallback_lookup register_onto
  initialize_models models fallbacks =
      register_onto (models_lookup models) (fallback_lookup fallbacks) (some []) models
