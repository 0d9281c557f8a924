-- ===== src/Invocation/Registry/Table.antt =====
-- invocation/model_invoker.py: the table of models against the configuration.
use mathlib.Core.Path.{subst}
use radicalbit_ai_gateway.Prelude.{
  ◌≡◌, refl, sym, ap, ◌∙◌, Option, none, some, Bool, true, false, List, Text, text_eq, text_eq_iff,
  arith, Bool-cases, inl, inr,
}
use radicalbit_ai_gateway.Prelude.Dict.{Dict, lookup, insert, lookup-insert}
use radicalbit_ai_gateway.Invocation.Registry.{
  Model, Fallback, Registered, models_lookup, register, or_empty, fallback_lookup, build_fallbacks,
}
use radicalbit_ai_gateway.Invocation.Registry.Lookup.{configured, fallback_lookup-configured}

abbrev pub is_some : {A : Type 0} → Option A → Bool
is_some none = false
is_some (some x) = true

module _ {R : Type 0} (build : Model → Option R) (models : List Model)
    (fallbacks : List Fallback) where
  -- An entry holds a model with this identifier, what was built for it, and the configured fallbacks
  -- that are known and could be built.
  pub record IsRegistered (id : Text) (e : Registered R) : Type 0 where
    pub named : e.model.model_id ≡ id
    pub built : build e.model ≡ some e.primary
    pub replaced :
        e.fallbacks ≡ build_fallbacks build (models_lookup models) (configured id fallbacks)

  abbrev pub AllRegistered : Option (Dict (Registered R)) → Type 0
  AllRegistered none = Unit
  AllRegistered (some table) =
      (id : Text) (e : Registered R) → lookup id table ≡ some e → IsRegistered id e

  inserted :
      (id : Text) (e : Registered R) (table : Dict (Registered R))
      → IsRegistered id e
      → AllRegistered (some table)
      → AllRegistered (some (insert id e table))
  inserted id e table good all j e' found =
      let split = sym (lookup-insert id j e table) ∙ found in
      elim (Bool-cases (text_eq id j)) [
        | inl same ↦
            let equal : e ≡ e' = ground arith in
            subst (λ k. IsRegistered k e') ((text_eq_iff id j).0 same)
              (subst (IsRegistered id) equal good)
        | inr other ↦ all j e' (ground arith)
      ]

  registered :
      (m : Model) (r : Option R)
      → build m ≡ r
      → (table : Option (Dict (Registered R))) → AllRegistered table
      → AllRegistered (
          register build m
            (build_fallbacks build
              (models_lookup models)
              (or_empty (lookup m.model_id (fallback_lookup fallbacks))))
            r
            table)
  unfolding register
  registered m none e table all = tt
  registered m (some r) e none all = tt
  registered m (some r) e (some table) all =
      inserted m.model_id _ table
        (record {
          named = refl;
          built = e;
          replaced =
              ap (build_fallbacks build (models_lookup models))
                (fallback_lookup-configured m.model_id fallbacks);
        })
        all

  -- The table, if nothing was raised, has an entry for the identifier.
  abbrev pub HasIn : Text → Option (Dict (Registered R)) → Type 0
  HasIn id none = Unit
  HasIn id (some table) = is_some (lookup id table) ≡ true

  abbrev next :
      Dict Model
      → Dict (List Text)
      → Option (Dict (Registered R))
      → Model
      → Option (Dict (Registered R))
  next found fallbacks table m =
      register build m (build_fallbacks build found (or_empty (lookup m.model_id fallbacks)))
        (build m) table

  -- The entry of an identifier.
  pub record HasEntry (table : Dict (Registered R)) (id : Text) : Type 0 where
    pub entry : Registered R
    pub found : lookup id table ≡ some entry
    pub registered : IsRegistered id entry
