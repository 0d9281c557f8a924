-- ===== src/Limiting/Event/Thresholds.antt =====
-- limiting/limit_event.py, `crossed_percentages`, over the hits of one window.
use radicalbit_ai_gateway.Prelude.{
  ℕ, ◌+◌, ◌≤◌, List, [], ◌∷◌, arith, ◌==◌, if◌then◌else◌, inl, inr, Bool-cases,
}
use radicalbit_ai_gateway.Limiting.Event.{crosses, insert_sorted, crossed_percentages}

abbrev pub occurrences : ℕ → List ℕ → ℕ
occurrences p [] = 0
occurrences p (q ∷ qs) = (if q == p then 1 else 0) + occurrences p qs

abbrev pub sum : List ℕ → ℕ
sum [] = 0
sum (c ∷ costs) = c + sum costs

-- No element is below the one before it.
abbrev pub IsSorted : List ℕ → Type 0
IsSorted [] = Unit
IsSorted (x ∷ []) = Unit
IsSorted (x ∷ y ∷ ys) = (x ≤ y) × IsSorted (y ∷ ys)

insert_sorted-IsSorted : (x : ℕ) (ys : List ℕ) → IsSorted ys → IsSorted (insert_sorted x ys)
unfolding insert_sorted
insert_sorted-IsSorted x [] h = tt
insert_sorted-IsSorted x (y ∷ []) h = ground arith
insert_sorted-IsSorted x (y ∷ z ∷ ys) h = ground (arith, insert_sorted-IsSorted x (z ∷ ys) h.1)

module _ (maximum : ℕ) where
  -- The crossed percentages come in ascending order.
  pub crossed_percentages-IsSorted :
      (consumed cost : ℕ) (percentages : List ℕ)
      → IsSorted (crossed_percentages consumed cost maximum percentages)
  unfolding crossed_percentages
  crossed_percentages-IsSorted consumed cost [] = tt
  crossed_percentages-IsSorted consumed cost (q ∷ qs) =
      elim (Bool-cases (crosses consumed cost maximum q)) [
        | inl crossed ↦
            rw crossed (insert_sorted-IsSorted q _ (crossed_percentages-IsSorted consumed cost qs))
        | inr below ↦ rw below (crossed_percentages-IsSorted consumed cost qs)
      ]

  -- How often `p` is reported by hits of the given costs on a counter that stands at `start`.
  abbrev pub reports : ℕ → List ℕ → List ℕ → ℕ → ℕ
  reports start [] percentages p = 0
  reports start (cost ∷ costs) percentages p =
      occurrences p (crossed_percentages (start + cost) cost maximum percentages)
      + reports (start + cost) costs percentages p
