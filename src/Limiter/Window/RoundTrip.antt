-- ===== src/Limiter/Window/RoundTrip.antt =====
-- limiter/window_config.py: `parse_window` on a text of the form that `format_window` writes.
use radicalbit_ai_gateway.Prelude.{
  ℕ, ◌*◌, ◌/◌, ◌%◌, ◌≡◌, refl, ap, ◌∙◌, true, false, some, List, [], ◌∷◌, ◌++◌, arith, Text, All,
  IsDigit, decimal, read_onto, ◌==◌, decimal-IsDigit, decimal-cons, read-decimal, text_eq, inl, inr,
  Bool-cases,
}
use radicalbit_ai_gateway.Prelude.Dict.{lookup}
use radicalbit_ai_gateway.Prelude.Result.{Result, ok, or_err, ◌>>=◌}
use radicalbit_ai_gateway.Limiter.Window.{
  invalid_format, is_space, lower, lstrip, strip_onto, rstrip, strip, span_digits, all_word,
  match_groups, match_window, in_unit, parse_window, time_units, canonical_units, with_count,
  format_in, format_window,
}

abbrev IsSolid : ℕ → Type 0
IsSolid c = is_space c ≡ false

strip_onto_solid : (c : ℕ) (s : Text) → IsSolid c → strip_onto c s ≡ c ∷ s
strip_onto_solid c [] h = ground arith
strip_onto_solid c (d ∷ s) h = refl

rstrip-append : (s t : Text) → All IsSolid s → rstrip t ≡ t → rstrip (s ++ t) ≡ s ++ t
unfolding rstrip
rstrip-append [] t h e = e
rstrip-append (c ∷ s) t h e = rw (rstrip-append s t h.1 e) (strip_onto_solid c (s ++ t) h.0)

digits-IsSolid : (s : Text) → All IsDigit s → All IsSolid s
digits-IsSolid [] h = tt
digits-IsSolid (c ∷ s) h = (let d = h.0 in ground arith, digits-IsSolid s h.1)

span-digits-append : (s t : Text) → All IsDigit s → span_digits (s ++ (b' ' ∷ t)) ≡ (s, b' ' ∷ t)
unfolding span_digits
span-digits-append [] t h = refl
span-digits-append (c ∷ s) t h = rw (span-digits-append s t h.1, h.0)

abbrev IsFilled : Text → Type 0
IsFilled [] = ⊥
IsFilled (c ∷ s) = Unit

-- What the parser needs to know of a unit's name: it is a word, and it stands for `seconds`.
record IsUnit (unit : Text) (seconds : ℕ) : Type 0 where
  solid : lstrip unit ≡ unit
  trimmed : rstrip (b' ' ∷ unit) ≡ b' ' ∷ unit
  word : all_word unit ≡ true
  filled : IsFilled unit
  known : lookup (lower unit) time_units ≡ some seconds

match_groups_unit :
    (d : ℕ) (s : Text) (unit : Text) {seconds : ℕ}
    → IsUnit unit seconds
    → match_groups (d ∷ s) (b' ' ∷ unit) unit ≡ some (d ∷ s, unit)
unfolding match_groups
match_groups_unit d s [] h = absurd h.filled
match_groups_unit d s (u ∷ unit) h = rw h.word

lstrip_solid : (c : ℕ) (s : Text) → IsSolid c → lstrip (c ∷ s) ≡ c ∷ s
unfolding lstrip
lstrip_solid c s h = rw h

lstrip_space : (s : Text) → lstrip (b' ' ∷ s) ≡ lstrip s
unfolding lstrip
lstrip_space s = refl

strip-digits-unit :
    (d : ℕ) (s : Text) (unit : Text) {seconds : ℕ}
    → All IsSolid (d ∷ s)
    → IsUnit unit seconds
    → strip ((d ∷ s) ++ (b' ' ∷ unit)) ≡ (d ∷ s) ++ (b' ' ∷ unit)
strip-digits-unit d s unit solid h =
    unfold strip in
    rw (lstrip_solid d (s ++ (b' ' ∷ unit)) solid.0)
      (rstrip-append (d ∷ s) (b' ' ∷ unit) solid h.trimmed)

match-window-unit :
    (d : ℕ) (s : Text) (unit : Text) {seconds : ℕ}
    → All IsDigit (d ∷ s)
    → IsUnit unit seconds
    → match_window ((d ∷ s) ++ (b' ' ∷ unit)) ≡ some (d ∷ s, unit)
match-window-unit d s unit digits h =
    unfold match_window in
    rw (span-digits-append (d ∷ s) unit digits, lstrip_space unit, h.solid)
      (match_groups_unit d s unit h)

parse_window_stages :
    (s : Text) → parse_window s ≡ (or_err invalid_format (match_window (strip s)) >>= in_unit)
unfolding parse_window
parse_window_stages s = refl

in_unit_known :
    (period unit : Text) {seconds : ℕ}
    → lookup (lower unit) time_units ≡ some seconds
    → in_unit (period, unit) ≡ ok (read_onto 0 period * seconds)
in_unit_known period unit known = unfold in_unit in rw known

-- A count and a unit's name, with a space between them.
parse_window-unit :
    (d : ℕ) (s : Text) (unit : Text) {seconds : ℕ}
    → All IsDigit (d ∷ s)
    → IsUnit unit seconds
    → parse_window ((d ∷ s) ++ (b' ' ∷ unit)) ≡ ok (read_onto 0 (d ∷ s) * seconds)
parse_window-unit d s unit digits h =
    rw
      (
        parse_window_stages,
        strip-digits-unit d s unit (digits-IsSolid (d ∷ s) digits) h,
        match-window-unit d s unit digits h,
      )
      (in_unit_known (d ∷ s) unit h.known)

parse-decimal-unit :
    (n : ℕ) (unit : Text) {seconds : ℕ}
    → IsUnit unit seconds
    → parse_window (decimal n ++ (b' ' ∷ unit)) ≡ ok (n * seconds)
parse-decimal-unit n unit {seconds} h =
    let (d, s, e) = decimal-cons n in
    let digits : All IsDigit (d ∷ s) = rw e at (decimal-IsDigit n) in
    let value : read_onto 0 (d ∷ s) ≡ n = rw e at (read-decimal n) in
    rw e (rw value at (parse_window-unit d s unit digits h))

-- A unit of the table, whose singular and plural both stand for its length.
record IsEntry (e : Text × ℕ) : Type 0 where
  singular : IsUnit e.0 e.1
  plural : IsUnit (e.0 ++ (b's' ∷ [])) e.1

parse-with_count :
    (n : ℕ) (unit : Text) (seconds : ℕ)
    → IsEntry (unit, seconds)
    → parse_window (with_count n unit) ≡ ok (n * seconds)
parse-with_count n unit seconds h = elim (Bool-cases (n == 1)) [
  | inl one ↦ rw one (parse-decimal-unit n unit h.singular)
  | inr many ↦ rw many (parse-decimal-unit n (unit ++ (b's' ∷ [])) h.plural)
]

ok-injective : {E A : Type 0} {a b : A} → ◌≡◌ {A = Result E A} (ok a) (ok b) → a ≡ b
ok-injective e = cc

exact : (n d : ℕ) → ((n % d) == 0) ≡ true → (n / d) * d ≡ n
exact n d h = grind arith

parse-format_in :
    (units : List (Text × ℕ)) (n : ℕ) {s : Text}
    → All IsEntry units
    → format_in units n ≡ ok s
    → parse_window s ≡ ok n
unfolding format_in
parse-format_in [] n h e = cc
parse-format_in ((unit, seconds) ∷ units) n h e = elim (Bool-cases ((n % seconds) == 0)) [
  | inl divides ↦
      rw (← ok-injective (rw divides at e))
        (parse-with_count (n / seconds) unit seconds h.0 ∙ ap ok (exact n seconds divides))
  | inr other ↦ parse-format_in units n h.1 (rw other at e)
]

canonical_entries : All IsEntry canonical_units
unfolding canonical_units lstrip rstrip all_word lower lookup time_units text_eq
canonical_entries = (
  record { singular = unit refl refl refl refl; plural = unit refl refl refl refl },
  (
    record { singular = unit refl refl refl refl; plural = unit refl refl refl refl },
    (
      record { singular = unit refl refl refl refl; plural = unit refl refl refl refl },
      (
        record { singular = unit refl refl refl refl; plural = unit refl refl refl refl },
        (
          record { singular = unit refl refl refl refl; plural = unit refl refl refl refl },
          (record { singular = unit refl refl refl refl; plural = unit refl refl refl refl }, tt),
        ),
      ),
    ),
  ),
)
  where
    unit :
        {c : ℕ} {s : Text} {seconds : ℕ}
        → lstrip (c ∷ s) ≡ c ∷ s
        → rstrip (b' ' ∷ (c ∷ s)) ≡ b' ' ∷ (c ∷ s)
        → all_word (c ∷ s) ≡ true
        → lookup (lower (c ∷ s)) time_units ≡ some seconds
        → IsUnit (c ∷ s) seconds
    unit p q r t = record { solid = p; trimmed = q; word = r; filled = tt; known = t }

-- Some unit of the list divides every number.
abbrev HasSecond : List (Text × ℕ) → Type 0
HasSecond [] = ⊥
HasSecond (e ∷ []) = e.1 ≡ 1
HasSecond (e ∷ f ∷ units) = HasSecond (f ∷ units)

format_in_total :
    (units : List (Text × ℕ)) (n : ℕ) → HasSecond units → (s : Text) × (format_in units n ≡ ok s)
unfolding format_in
format_in_total [] n h = absurd h
format_in_total ((u, k) ∷ []) n h = (with_count (n / k) u, ground arith)
format_in_total ((u, k) ∷ f ∷ units) n h = elim (Bool-cases ((n % k) == 0)) [
  | inl divides ↦ (with_count (n / k) u, rw divides)
  | inr other ↦ let (s, e) = format_in_total (f ∷ units) n h in (s, rw other e)
]

format_window_by : (n : ℕ) → format_window n ≡ format_in canonical_units n
unfolding format_window
format_window_by n = refl

second_last : HasSecond canonical_units
unfolding canonical_units
second_last = refl

-- Every number of seconds has a text, and `parse_window` reads that text as the number.
pub parse-format_window : (n : ℕ) → (s : Text) × (format_window n ≡ ok s) × (parse_window s ≡ ok n)
parse-format_window n =
    let (s, e) = format_in_total canonical_units n second_last in
    (s, format_window_by n ∙ e, parse-format_in canonical_units n canonical_entries e)
