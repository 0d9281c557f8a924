-- ===== src/Alerting/Names/RoundTrip.antt =====
-- alerting/limit_event_names.py: a name is read back as what it was written for.
use mathlib.Core.Path.{subst}
use radicalbit_ai_gateway.Prelude.{
  ℕ, ◌/◌, ◌%◌, ◌≡◌, refl, sym, ap, ◌∙◌, inl, inr, false, none, some, List, [], ◌∷◌, ◌++◌, Text,
  text, text_eq, All, IsDigit, is_digit, decimal, read_onto, decimal-IsDigit, decimal-cons,
  read-decimal, ◌==◌, Bool-cases, arith,
}
use radicalbit_ai_gateway.Limiter.Window.{span_digits}
use radicalbit_ai_gateway.Alerting.Names.{
  LimitCategory, rate_limit, token_input_limit, token_output_limit, budget_limit,
  audio_duration_limit, category_name, all_categories, window_units, window_name_in, window_name,
  exceeded_event, threshold_event, LimitEventName, strip_prefix, match_unit, with_digits,
  match_window_name, named, after_percentage, match_threshold, match_event, match_rest, or_else,
  match_category, parse_limit_event,
}

strip_prefix-append : (p s : Text) → strip_prefix p (p ++ s) ≡ some s
unfolding strip_prefix
strip_prefix-append [] s = refl
strip_prefix-append (c ∷ p) s = ground (arith, strip_prefix-append p s)

-- A text that a letter opens.
abbrev IsWord : Text → Type 0
IsWord [] = ⊥
IsWord (c ∷ s) = is_digit c ≡ false

span_digits-append : (s t : Text) → All IsDigit s → IsWord t → span_digits (s ++ t) ≡ (s, t)
unfolding span_digits
span_digits-append [] [] h w = absurd w
span_digits-append [] (c ∷ t) h w = rw w
span_digits-append (d ∷ s) t h w = rw (span_digits-append s t h.1 w, h.0)

record IsUnit (u : Text) (size : ℕ) : Type 0 where
  letter : IsWord u
  found : match_unit window_units u ≡ some u

units-IsUnit : All (λ e. IsUnit e.0 e.1) window_units
unfolding window_units match_unit text_eq
units-IsUnit = (
  record { letter = refl; found = refl },
  (
    record { letter = refl; found = refl },
    (
      record { letter = refl; found = refl },
      (
        record { letter = refl; found = refl },
        (record { letter = refl; found = refl }, (record { letter = refl; found = refl }, tt)),
      ),
    ),
  ),
)

match_window_name-decimal :
    (k : ℕ) (u : Text) {size : ℕ}
    → IsUnit u size
    → match_window_name (decimal k ++ u) ≡ some (decimal k ++ u)
unfolding match_window_name with_digits
match_window_name-decimal k u h =
    let (d, ds, e) = decimal-cons k in
    rw (span_digits-append (decimal k) u (decimal-IsDigit k) h.letter, h.found, e)

window_name_in-matches :
    (units : List (Text × ℕ)) (n : ℕ) (w : Text)
    → All (λ e. IsUnit e.0 e.1) units
    → window_name_in units n ≡ some w
    → match_window_name w ≡ some w
unfolding window_name_in
window_name_in-matches [] n w h e = cc
window_name_in-matches ((u, size) ∷ units) n w h e = elim (Bool-cases ((n % size) == 0)) [
  | inl divides ↦
      let e' : some (decimal (n / size) ++ u) ≡ some w = rw divides at e in
      let same : decimal (n / size) ++ u ≡ w = cc in
      rw (← same) (match_window_name-decimal (n / size) u h.0)
  | inr other ↦ window_name_in-matches units n w h.1 (rw other at e)
]

window_name-matches : (n : ℕ) (w : Text) → window_name n ≡ some w → match_window_name w ≡ some w
unfolding window_name
window_name-matches n w e = window_name_in-matches window_units n w units-IsUnit e

-- The first of the categories that the text has.
match_category_lem :
    (c : LimitCategory) (s : Text) {m : LimitEventName}
    → match_rest c (some s) ≡ some m
    → match_category all_categories (category_name c ++ (b'-' ∷ s)) ≡ some m
unfolding match_category all_categories category_name strip_prefix or_else
match_category_lem rate_limit s h = rw h
match_category_lem token_input_limit s h = rw h
match_category_lem token_output_limit s h = rw h
match_category_lem budget_limit s h = rw h
match_category_lem audio_duration_limit s h = rw h

match_rest_event :
    (c : LimitCategory) (s : Text)
    → match_rest c (some s) ≡ match_event c (strip_prefix (text "exceeded-") s) s
unfolding match_rest
match_rest_event c s = refl

match_exceeded :
    (c : LimitCategory) (w : Text)
    → match_window_name w ≡ some w
    → match_rest c (some (text "exceeded-" ++ w))
      ≡ some (record { category = c; window = w; percentage = none })
unfolding match_event named
match_exceeded c w h =
    match_rest_event c (text "exceeded-" ++ w)
    ∙ (ap (λ o. match_event c o (text "exceeded-" ++ w)) (strip_prefix-append (text "exceeded-") w)
        ∙ ap (named c none) h)

digit_no_exceeded : (d : ℕ) (s : Text) → IsDigit d → strip_prefix (text "exceeded-") (d ∷ s) ≡ none
unfolding strip_prefix
digit_no_exceeded d s h = ground arith

decimal_no_exceeded : (p : ℕ) (s : Text) → strip_prefix (text "exceeded-") (decimal p ++ s) ≡ none
decimal_no_exceeded p s =
    let (d, ds, e) = decimal-cons p in
    let digits : All IsDigit (d ∷ ds) = subst (All IsDigit) e (decimal-IsDigit p) in
    rw e (digit_no_exceeded d (ds ++ s) digits.0)

after_percentage_lem :
    (c : LimitCategory) (p : ℕ) (w : Text)
    → match_window_name w ≡ some w
    → after_percentage c (decimal p) (some w)
      ≡ some (record { category = c; window = w; percentage = some p })
unfolding after_percentage named
after_percentage_lem c p w h =
    let (d, ds, e) = decimal-cons p in
    let value : read_onto 0 (d ∷ ds) ≡ p = ap (read_onto 0) (sym e) ∙ read-decimal p in
    rw (e, h, value)

match_threshold_lem :
    (c : LimitCategory) (p : ℕ) (w : Text)
    → match_window_name w ≡ some w
    → match_threshold c (decimal p ++ (text "pct-" ++ w))
      ≡ some (record { category = c; window = w; percentage = some p })
unfolding match_threshold
match_threshold_lem c p w h =
    ap (λ (r : Text × Text). after_percentage c r.0 (strip_prefix (text "pct-") r.1))
      (span_digits-append (decimal p) (text "pct-" ++ w) (decimal-IsDigit p) refl)
    ∙ (ap (after_percentage c (decimal p)) (strip_prefix-append (text "pct-") w)
        ∙ after_percentage_lem c p w h)

match_percentage :
    (c : LimitCategory) (p : ℕ) (w : Text)
    → match_window_name w ≡ some w
    → match_rest c (some (decimal p ++ (text "pct-" ++ w)))
      ≡ some (record { category = c; window = w; percentage = some p })
unfolding match_event
match_percentage c p w h =
    let rest = decimal p ++ (text "pct-" ++ w) in
    match_rest_event c rest
    ∙ (ap (λ o. match_event c o rest) (decimal_no_exceeded p (text "pct-" ++ w))
        ∙ match_threshold_lem c p w h)

window_name_in_total :
    (units : List (Text × ℕ)) (n : ℕ)
    → (w : Text) × (window_name_in (units ++ ((text "s", 1) ∷ [])) n ≡ some w)
unfolding window_name_in
window_name_in_total [] n = (decimal (n / 1) ++ text "s", ground arith)
window_name_in_total ((u, size) ∷ units) n = elim (Bool-cases ((n % size) == 0)) [
  | inl divides ↦ (decimal (n / size) ++ u, rw divides)
  | inr other ↦ let (w, e) = window_name_in_total units n in (w, rw other e)
]

window_name_total : (n : ℕ) → (w : Text) × (window_name n ≡ some w)
unfolding window_name window_units
window_name_total n =
    window_name_in_total
      ((text "mo", 2592000)
        ∷ (text "w", 604800)
        ∷ (text "d", 86400)
        ∷ (text "h", 3600)
        ∷ (text "m", 60)
        ∷ [])
      n

-- Every limit has a name for its refusals and one for each threshold, and both are read back: the
-- category, the window's name and the percentage, or none for a refusal.
pub parse_limit_event-names :
    (c : LimitCategory) (p n : ℕ)
    → (w : Text) × (exceeded : Text) × (threshold : Text) × (window_name n ≡ some w)
      × (exceeded_event c n ≡ some exceeded)
      × (threshold_event c p n ≡ some threshold)
      × (parse_limit_event exceeded ≡ some (record { category = c; window = w; percentage = none }))
      × (parse_limit_event threshold
          ≡ some (record { category = c; window = w; percentage = some p }))
unfolding exceeded_event threshold_event parse_limit_event
parse_limit_event-names c p n =
    let (w, e) = window_name_total n in
    let h = window_name-matches n w e in
    (
      w,
      category_name c ++ (text "-exceeded-" ++ w),
      category_name c ++ (text "-" ++ (decimal p ++ (text "pct-" ++ w))),
      e,
      rw (exceeded_event, e) refl,
      rw (threshold_event, e) refl,
      match_category_lem c (text "exceeded-" ++ w) (match_exceeded c w h),
      match_category_lem c (decimal p ++ (text "pct-" ++ w)) (match_percentage c p w h),
    )
