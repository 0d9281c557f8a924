-- ===== src/Routing/Conditions.antt =====
-- routing/deterministic_router.py: the conditions on a number of tokens by their bounds, without the
-- keys of the sorting, and the keys against the bounds.
use radicalbit_ai_gateway.Prelude.{
  ℕ, ◌<◌, ◌≡◌, refl, Bool, true, false, ◌&&◌, not, Option, none, some, List, [], ◌∷◌, arith, leb,
  if◌then◌else◌,
}
use radicalbit_ai_gateway.Routing.{
  SortKey, up, down, key_le, condition_sort_key, matches, OutputMappingEntry, TokenLengthConditions,
  gte, lte, between,
}

-- The bound below of a condition, and whether it has one; the bound above of the others.
abbrev pub bounded_below : TokenLengthConditions → Bool
bounded_below (gte n) = true
bounded_below (lte n) = false
bounded_below (between low high) = true

abbrev pub bound_of : TokenLengthConditions → ℕ
bound_of (gte n) = n
bound_of (lte n) = n
bound_of (between low high) = low

-- Whether a condition holds of a number of tokens.
abbrev pub holds : ℕ → TokenLengthConditions → Bool
holds tokens (gte n) = leb n tokens
holds tokens (lte n) = leb tokens n
holds tokens (between low high) = leb low tokens && leb tokens high

abbrev pub Entry : Type 0
Entry = OutputMappingEntry TokenLengthConditions

-- The entry to keep of two that hold: the one with the greater bound below, the former on a tie, …
abbrev pub higher : Entry → Option Entry → Option Entry
higher x none = some x
higher x (some y) = if leb (bound_of y.conditions) (bound_of x.conditions) then some x else some y

-- … or that with the lesser bound above.
abbrev pub lower : Entry → Option Entry → Option Entry
lower x none = some x
lower x (some y) = if leb (bound_of x.conditions) (bound_of y.conditions) then some x else some y

-- The entry that holds with the greatest bound below.
unfoldable pub highest_below : ℕ → List Entry → Option Entry
highest_below tokens [] = none
highest_below tokens (x ∷ xs) =
    let rest = highest_below tokens xs in
    if holds tokens x.conditions && bounded_below x.conditions then higher x rest else rest

-- The entry that holds with the least bound above, of those without a bound below.
unfoldable pub lowest_above : ℕ → List Entry → Option Entry
lowest_above tokens [] = none
lowest_above tokens (x ∷ xs) =
    let rest = lowest_above tokens xs in
    if holds tokens x.conditions && not (bounded_below x.conditions) then lower x rest else rest

abbrev pub or_else : Option Entry → Option Entry → Option Entry
or_else none other = other
or_else (some x) other = some x

-- The key of a condition.
abbrev pub key_of : TokenLengthConditions → SortKey
key_of (gte n) = up n
key_of (lte n) = down n
key_of (between low high) = up low

pub le_below :
    (a b : TokenLengthConditions)
    → bounded_below a ≡ true
    → bounded_below b ≡ true
    → key_le (key_of a) (key_of b) ≡ leb (bound_of a) (bound_of b)
unfolding key_le
le_below (gte n) (gte m) h g = refl
le_below (gte n) (between l u) h g = refl
le_below (between l u) (gte m) h g = refl
le_below (between l u) (between k v) h g = refl
le_below (lte n) b h g = cc
le_below (gte n) (lte m) h g = cc
le_below (between l u) (lte m) h g = cc

pub le_above :
    (a b : TokenLengthConditions)
    → bounded_below a ≡ false
    → bounded_below b ≡ false
    → key_le (key_of a) (key_of b) ≡ leb (bound_of b) (bound_of a)
unfolding key_le
le_above (lte n) (lte m) h g = refl
le_above (gte n) b h g = cc
le_above (between l u) b h g = cc
le_above (lte n) (gte m) h g = cc
le_above (lte n) (between l u) h g = cc

pub below_le_above :
    (a b : TokenLengthConditions)
    → bounded_below a ≡ true
    → bounded_below b ≡ false
    → 0 < bound_of b
    → key_le (key_of a) (key_of b) ≡ false
unfolding key_le
below_le_above (gte n) (lte m) h g p = ground arith
below_le_above (between l u) (lte m) h g p = ground arith
below_le_above (lte n) b h g p = cc
below_le_above (gte n) (gte m) h g p = cc
below_le_above (gte n) (between l u) h g p = cc
below_le_above (between l u) (gte m) h g p = cc
below_le_above (between l u) (between k v) h g p = cc

pub above_le_below :
    (a b : TokenLengthConditions)
    → bounded_below a ≡ false
    → bounded_below b ≡ true
    → key_le (key_of a) (key_of b) ≡ true
unfolding key_le
above_le_below (lte n) (gte m) h g = refl
above_le_below (lte n) (between l u) h g = refl
above_le_below (gte n) b h g = cc
above_le_below (between l u) b h g = cc
above_le_below (lte n) (lte m) h g = cc

key_of-cases :
    (c : TokenLengthConditions)
    → (elim c [ gte n ↦ up n | lte n ↦ down n | between low high ↦ up low ]) ≡ key_of c
key_of-cases (gte n) = refl
key_of-cases (lte n) = refl
key_of-cases (between low high) = refl

pub condition_sort_key-key_of : (x : Entry) → condition_sort_key x ≡ key_of x.conditions
unfolding condition_sort_key
condition_sort_key-key_of x = key_of-cases x.conditions

holds-cases :
    (tokens : ℕ) (c : TokenLengthConditions)
    → (elim c [
      | gte n ↦ leb n tokens
      | lte n ↦ leb tokens n
      | between low high ↦ leb low tokens && leb tokens high
    ])
      ≡ holds tokens c
holds-cases tokens (gte n) = refl
holds-cases tokens (lte n) = refl
holds-cases tokens (between low high) = refl

pub matches-holds : (tokens : ℕ) (x : Entry) → matches tokens x ≡ holds tokens x.conditions
unfolding matches
matches-holds tokens x = holds-cases tokens x.conditions
