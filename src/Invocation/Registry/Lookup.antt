-- ===== src/Invocation/Registry/Lookup.antt =====
-- invocation/model_invoker.py: the table of fallbacks against the configuration.
use mathlib.Core.List.{append_assoc, append-nil}
use radicalbit_ai_gateway.Prelude.{
  ◌≡◌, refl, sym, ◌∙◌, List, [], ◌∷◌, ◌++◌, Text, text_eq, text_eq_iff, if◌then◌else◌, Bool-cases,
  inl, inr,
}
use radicalbit_ai_gateway.Prelude.Dict.{Dict, lookup, insert, lookup-insert}
use radicalbit_ai_gateway.Invocation.Registry.{
  Fallback, or_empty, fallback_lookup_onto, fallback_lookup,
}

-- What the configuration names as the fallbacks of a target: those of each of its entries, in order.
unfoldable pub configured : Text → List Fallback → List Text
configured target [] = []
configured target (f ∷ fs) =
    (if text_eq f.target target then f.fallbacks else []) ++ configured target fs

extended :
    (target : Text) (table : Dict (List Text)) (f : Fallback) (rest : List Text)
    → or_empty
          (lookup target (insert f.target (or_empty (lookup f.target table) ++ f.fallbacks) table))
        ++ rest
      ≡ or_empty (lookup target table)
        ++ ((if text_eq f.target target then f.fallbacks else []) ++ rest)
extended target table f rest =
    let next = or_empty (lookup f.target table) ++ f.fallbacks in
    rw (lookup-insert f.target target next table) (elim (Bool-cases (text_eq f.target target)) [
      | inl same ↦
          rw (same, (text_eq_iff f.target target).0 same)
            (append_assoc (or_empty (lookup target table)) f.fallbacks rest)
      | inr other ↦ rw other refl
    ])

fallback_lookup_onto-configured :
    (target : Text) (table : Dict (List Text)) (fs : List Fallback)
    → or_empty (lookup target (fallback_lookup_onto table fs))
      ≡ or_empty (lookup target table) ++ configured target fs
unfolding fallback_lookup_onto configured
fallback_lookup_onto-configured target table [] = sym (append-nil _)
fallback_lookup_onto-configured target table (f ∷ fs) =
    let next = or_empty (lookup f.target table) ++ f.fallbacks in
    fallback_lookup_onto-configured target (insert f.target next table) fs
    ∙ extended target table f (configured target fs)

pub fallback_lookup-configured :
    (target : Text) (fs : List Fallback)
    → or_empty (lookup target (fallback_lookup fs)) ≡ configured target fs
unfolding fallback_lookup lookup
fallback_lookup-configured target fs = fallback_lookup_onto-configured target [] fs
