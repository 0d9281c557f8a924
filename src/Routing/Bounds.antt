-- ===== src/Routing/Bounds.antt =====
-- routing/deterministic_router.py: which entry `_apply_conditions_rule` selects, by the bounds that the
-- entries have.
use radicalbit_ai_gateway.Prelude.{
  ℕ, ◌<◌, ◌≡◌, refl, ◌∙◌, Bool, true, false, Option, none, some, List, [], ◌∷◌, arith, leb,
  if◌then◌else◌, Bool-cases, inl, inr,
}
use radicalbit_ai_gateway.Routing.{
  key_le, condition_sort_key, matches, conditions_entry, Router, TokenLengthConditions, gte, lte,
  between,
}
use radicalbit_ai_gateway.Routing.Order.{better, greatest_match, conditions_entry-greatest}
use radicalbit_ai_gateway.Routing.Conditions.{
  bounded_below, bound_of, holds, Entry, higher, lower, highest_below, lowest_above, or_else,
  key_of, le_below, le_above, below_le_above, above_le_below, condition_sort_key-key_of,
  matches-holds,
}

-- An entry that was found with a bound below, and one with a bound above.
abbrev Below : Option Entry → Type 0
Below none = Unit
Below (some y) = bounded_below y.conditions ≡ true

abbrev Above : Option Entry → Type 0
Above none = Unit
Above (some y) = (bounded_below y.conditions ≡ false) × (0 < bound_of y.conditions)

bound_positive :
    (tokens : ℕ) (c : TokenLengthConditions)
    → 0 < tokens
    → holds tokens c ≡ true
    → bounded_below c ≡ false
    → 0 < bound_of c
bound_positive tokens (gte n) p h g = cc
bound_positive tokens (lte n) p h g = ground arith
bound_positive tokens (between l u) p h g = cc

abbrev keyed : Entry → Option Entry → Option Entry
keyed x o = better key_le condition_sort_key x o

keyed-le :
    (x y : Entry) (b : Bool)
    → key_le (key_of y.conditions) (key_of x.conditions) ≡ b
    → keyed x (some y) ≡ (if b then some x else some y)
keyed-le x y b e = rw (condition_sort_key-key_of x, condition_sort_key-key_of y, e) refl

some_first :
    (b : Bool) (x y : Entry) (l : Option Entry)
    → (if b then some x else some y) ≡ or_else (if b then some x else some y) l
some_first true x y l = refl
some_first false x y l = refl

-- Of an entry with a bound below and what was found behind it.
keyed-higher :
    (x : Entry) (h l : Option Entry)
    → bounded_below x.conditions ≡ true
    → Below h
    → Above l
    → keyed x (or_else h l) ≡ or_else (higher x h) l
keyed-higher x none none g p q = refl
keyed-higher x none (some y) g p q =
    keyed-le x y true (above_le_below y.conditions x.conditions q.0 g)
keyed-higher x (some y) l g p q =
    keyed-le x y _ (le_below y.conditions x.conditions p g)
    ∙ some_first (leb (bound_of y.conditions) (bound_of x.conditions)) x y l

-- Of one with a bound above.
keyed-lower :
    (x : Entry) (h l : Option Entry)
    → bounded_below x.conditions ≡ false
    → 0 < bound_of x.conditions
    → Below h
    → Above l
    → keyed x (or_else h l) ≡ or_else h (lower x l)
keyed-lower x none none g b p q = refl
keyed-lower x none (some y) g b p q = keyed-le x y _ (le_above y.conditions x.conditions q.0 g)
keyed-lower x (some y) l g b p q =
    keyed-le x y false (below_le_above y.conditions x.conditions p g b)

higher-Below :
    (x : Entry) (o : Option Entry)
    → bounded_below x.conditions ≡ true
    → Below o
    → Below (higher x o)
higher-Below x none g p = g
higher-Below x (some y) g p =
    elim (Bool-cases (leb (bound_of y.conditions) (bound_of x.conditions))) [
      | inl t ↦ rw t g
      | inr f ↦ rw f p
    ]

lower-Above : (x : Entry) (o : Option Entry) → Above (some x) → Above o → Above (lower x o)
lower-Above x none g p = g
lower-Above x (some y) g p =
    elim (Bool-cases (leb (bound_of x.conditions) (bound_of y.conditions))) [
      | inl t ↦ rw t g
      | inr f ↦ rw f p
    ]

highest_below-Below : (tokens : ℕ) (xs : List Entry) → Below (highest_below tokens xs)
unfolding highest_below
highest_below-Below tokens [] = tt
highest_below-Below tokens (x ∷ xs) =
    let rest = highest_below-Below tokens xs in
    elim (Bool-cases (holds tokens x.conditions)) [
      | inl t ↦ elim (Bool-cases (bounded_below x.conditions)) [
        | inl b ↦ rw (t, b) (higher-Below x (highest_below tokens xs) b rest)
        | inr b ↦ rw (t, b) rest
      ]
      | inr f ↦ rw f rest
    ]

lowest_above-Above : (tokens : ℕ) (xs : List Entry) → 0 < tokens → Above (lowest_above tokens xs)
unfolding lowest_above
lowest_above-Above tokens [] p = tt
lowest_above-Above tokens (x ∷ xs) p =
    let rest = lowest_above-Above tokens xs p in
    elim (Bool-cases (holds tokens x.conditions)) [
      | inl t ↦ elim (Bool-cases (bounded_below x.conditions)) [
        | inl b ↦ rw (t, b) rest
        | inr b ↦
            let bound = bound_positive tokens x.conditions p t b in
            rw (t, b) (lower-Above x (lowest_above tokens xs) (b, bound) rest)
      ]
      | inr f ↦ rw f rest
    ]

greatest_match-bounds :
    (tokens : ℕ) (xs : List Entry)
    → 0 < tokens
    → greatest_match key_le condition_sort_key (matches tokens) xs
      ≡ or_else (highest_below tokens xs) (lowest_above tokens xs)
unfolding greatest_match highest_below lowest_above
greatest_match-bounds tokens [] p = refl
greatest_match-bounds tokens (x ∷ xs) p =
    let rest = greatest_match-bounds tokens xs p in
    let below = highest_below-Below tokens xs in
    let above = lowest_above-Above tokens xs p in
    elim (Bool-cases (holds tokens x.conditions)) [
      | inl t ↦ elim (Bool-cases (bounded_below x.conditions)) [
        | inl b ↦
            rw (matches-holds tokens x, t, b, rest)
              (keyed-higher x (highest_below tokens xs) (lowest_above tokens xs) b below above)
        | inr b ↦
            let bound = bound_positive tokens x.conditions p t b in
            rw (matches-holds tokens x, t, b, rest)
              (keyed-lower x (highest_below tokens xs) (lowest_above tokens xs) b bound below above)
      ]
      | inr f ↦ rw (matches-holds tokens x, f) rest
    ]

-- For one token at least, the rule on the number of tokens selects, of the entries whose condition
-- holds, the one with the greatest bound below; where none of them has a bound below, the one with
-- the least bound above; the first on a tie, and none if no condition holds.
pub conditions_entry-bounds :
    {F : Type 0} (r : Router F) (mapping : List Entry) (token_count : ℕ)
    → 0 < token_count
    → conditions_entry r mapping token_count
      ≡ or_else (highest_below token_count mapping) (lowest_above token_count mapping)
conditions_entry-bounds r mapping token_count p =
    conditions_entry-greatest r mapping token_count ∙ greatest_match-bounds token_count mapping p
