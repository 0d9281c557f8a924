-- ===== src/Routing/Order.antt =====
-- routing/deterministic_router.py: sorting by a key and taking the first match, against a selection
-- that does not sort.
use mathlib.Core.Path.{subst}
use radicalbit_ai_gateway.Prelude.{
  ℕ, ◌≡◌, refl, sym, ap, ◌∙◌, Bool, true, false, Option, none, some, List, [], ◌∷◌, arith, All,
  if◌then◌else◌, Bool-cases, inl, inr,
}
use radicalbit_ai_gateway.Routing.{
  first_match, place, sort_descending, SortKey, up, down, key_le, condition_sort_key, matches,
  conditions_entry, budget_entry, Router, OutputMappingEntry, TokenLengthConditions,
}

-- Any two keys can be compared, and comparisons chain.
pub record IsTotal {K : Type 0} (le : K → K → Bool) : Type 0 where
  pub total : (a b : K) → le a b ≡ false → le b a ≡ true
  pub chain : (a b c : K) → le a b ≡ true → le b c ≡ true → le a c ≡ true

module _ {A K : Type 0} (le : K → K → Bool) (key : A → K) where
  -- The better of an entry and what was found behind it: the one with the greater key, and the
  -- former of two with the same key.
  abbrev pub better : A → Option A → Option A
  better x none = some x
  better x (some y) = if le (key y) (key x) then some x else some y

  -- The entry with the greatest key among those that a test accepts, the first of them if it is
  -- shared.
  unfoldable pub greatest_match : (A → Bool) → List A → Option A
  greatest_match test [] = none
  greatest_match test (x ∷ xs) =
      let rest = greatest_match test xs in if test x then better x rest else rest

  abbrev Sorted : List A → Type 0
  Sorted [] = Unit
  Sorted (z ∷ zs) = All (λ y. le (key y) (key z) ≡ true) zs × Sorted zs

  first_match-All :
      (P : A → Type 0) (test : A → Bool) (xs : List A) (y : A)
      → All P xs
      → first_match test xs ≡ some y
      → P y
  unfolding first_match
  first_match-All P test [] y all e = cc
  first_match-All P test (x ∷ xs) y (h, all) e = elim (Bool-cases (test x)) [
    | inl t ↦ subst P (ground arith) h
    | inr f ↦ first_match-All P test xs y all (ground arith)
  ]

  module _ (law : IsTotal le) where
    place-All : (P : A → Type 0) (x : A) (ys : List A) → P x → All P ys → All P (place le key x ys)
    unfolding place
    place-All P x [] h all = (h, tt)
    place-All P x (y ∷ ys) h (g, all) = elim (Bool-cases (le (key y) (key x))) [
      | inl t ↦ rw t (h, (g, all))
      | inr f ↦ rw f (g, place-All P x ys h all)
    ]

    chained :
        (x y : A) (ys : List A)
        → le (key y) (key x) ≡ true
        → All (λ z. le (key z) (key y) ≡ true) ys
        → All (λ z. le (key z) (key x) ≡ true) ys
    chained x y [] h all = tt
    chained x y (z ∷ ys) h (g, all) = (law.chain (key z) (key y) (key x) g h, chained x y ys h all)

    place-Sorted : (x : A) (ys : List A) → Sorted ys → Sorted (place le key x ys)
    unfolding place
    place-Sorted x [] h = (tt, tt)
    place-Sorted x (y ∷ ys) (all, h) = elim (Bool-cases (le (key y) (key x))) [
      | inl t ↦ rw t ((t, chained x y ys t all), (all, h))
      | inr f ↦ rw f (
        place-All (λ z. le (key z) (key y) ≡ true) x ys (law.total (key y) (key x) f) all,
        place-Sorted x ys h,
      )
    ]

    sort_descending-Sorted : (xs : List A) → Sorted (sort_descending le key xs)
    unfolding sort_descending
    sort_descending-Sorted [] = tt
    sort_descending-Sorted (x ∷ xs) =
        place-Sorted x (sort_descending le key xs) (sort_descending-Sorted xs)

    -- An entry that no match exceeds is better than the match.
    better-above :
        (x : A) (o : Option A)
        → ((y : A) → o ≡ some y → le (key y) (key x) ≡ true)
        → better x o ≡ some x
    better-above x none h = refl
    better-above x (some y) h = rw (h y refl) refl

    better-below : (x z : A) → le (key z) (key x) ≡ false → some z ≡ better x (some z)
    better-below x z h = rw h refl

    either_order :
        (a b : Bool) (x y : A) (o : Option A)
        → le (key y) (key x) ≡ false
        → (if b then some y else (if a then better x o else o))
          ≡ (if a then better x (if b then some y else o) else (if b then some y else o))
    either_order true true x y o h = better-below x y h
    either_order true false x y o h = refl
    either_order false true x y o h = refl
    either_order false false x y o h = refl

    first_match-place :
        (test : A → Bool) (x : A) (ys : List A)
        → Sorted ys
        → first_match test (place le key x ys)
          ≡ (if test x then better x (first_match test ys) else first_match test ys)
    unfolding place first_match
    first_match-place test x [] h = refl
    first_match-place test x (y ∷ ys) (all, h) = elim (Bool-cases (le (key y) (key x))) [
      | inl t ↦
          let above : All (λ z. le (key z) (key x) ≡ true) (y ∷ ys) = (t, chained x y ys t all) in
          let found =
            better-above x (first_match test (y ∷ ys))
              (λ z e. first_match-All (λ z. le (key z) (key x) ≡ true) test (y ∷ ys) z above e) in
          rw t (ap (λ o. if test x then o else first_match test (y ∷ ys)) (sym found))
      | inr f ↦ rw f (
          ap (λ o. if test y then some y else o) (first_match-place test x ys h)
          ∙ either_order (test x) (test y) x y (first_match test ys) f)
    ]

    -- Sorting and taking the first match selects the match with the greatest key.
    pub first_match-sort_descending :
        (test : A → Bool) (xs : List A)
        → first_match test (sort_descending le key xs) ≡ greatest_match test xs
    unfolding sort_descending greatest_match first_match
    first_match-sort_descending test [] = refl
    first_match-sort_descending test (x ∷ xs) =
        first_match-place test x (sort_descending le key xs) (sort_descending-Sorted xs)
        ∙ ap (λ o. if test x then better x o else o) (first_match-sort_descending test xs)

key_le-total : (a b : SortKey) → key_le a b ≡ false → key_le b a ≡ true
unfolding key_le
key_le-total (up a) (up b) h = ground arith
key_le-total (up a) (down b) h = refl
key_le-total (down a) (up b) h = cc
key_le-total (down a) (down b) h = ground arith

key_le-chain : (a b c : SortKey) → key_le a b ≡ true → key_le b c ≡ true → key_le a c ≡ true
unfolding key_le
key_le-chain (up a) (up b) (up c) h g = ground arith
key_le-chain (up a) (up b) (down c) h g = ground arith
key_le-chain (up a) (down b) (up c) h g = ground arith
key_le-chain (up a) (down b) (down c) h g = ground arith
key_le-chain (down a) (up b) (up c) h g = refl
key_le-chain (down a) (up b) (down c) h g = ground arith
key_le-chain (down a) (down b) (up c) h g = refl
key_le-chain (down a) (down b) (down c) h g = ground arith

key_le-IsTotal : IsTotal key_le
key_le-IsTotal = record { total = key_le-total; chain = key_le-chain }

module _ {F : Type 0} (r : Router F) where
  -- Of the conditions on a number of tokens, sorting and taking the first match selects the entry
  -- with the greatest key among those that match, the first of them on a tie, and none if none
  -- matches; the key of an upper bound is its negative.
  pub conditions_entry-greatest :
      (mapping : List (OutputMappingEntry TokenLengthConditions)) (token_count : ℕ)
      → conditions_entry r mapping token_count
        ≡ greatest_match key_le condition_sort_key (matches token_count) mapping
  unfolding conditions_entry
  conditions_entry-greatest mapping token_count =
      first_match-sort_descending key_le condition_sort_key key_le-IsTotal (matches token_count)
        mapping

  -- If any two ratios can be compared and comparisons chain, the budget rule selects the entry with
  -- the greatest threshold among those that the ratio has reached, the first of them on a tie, and
  -- none if it has reached none.
  pub budget_entry-greatest :
      (law : IsTotal r.ratio_le) (mapping : List (OutputMappingEntry F)) (ratio : F)
      → budget_entry r mapping ratio
        ≡ greatest_match r.ratio_le
            (λ entry. entry.conditions)
            (λ entry. r.ratio_le entry.conditions ratio)
            mapping
  unfolding budget_entry
  budget_entry-greatest law mapping ratio =
      first_match-sort_descending r.ratio_le (λ entry. entry.conditions) law
        (λ entry. r.ratio_le entry.conditions ratio) mapping
