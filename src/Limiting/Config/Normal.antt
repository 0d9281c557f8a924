-- ===== src/Limiting/Config/Normal.antt =====
-- models/limiting.py, `normalize_limit_window`: one text for each window.
use radicalbit_ai_gateway.Prelude.{
  ℕ, ◌<◌, ◌≡◌, refl, ap, ◌∙◌, true, Option, none, some, Text, arith, Bool-cases, inl, inr, lt→ltb,
}
use radicalbit_ai_gateway.Prelude.Result.{Result, ok, err, >>=-eq-ok, ◌>>=◌}
use radicalbit_ai_gateway.Limiter.Window.{WindowError, parse_window, format_window}
use radicalbit_ai_gateway.Limiter.Window.RoundTrip.{parse-format_window}
use radicalbit_ai_gateway.Limiting.Config.{
  LimitingAlgorithmType, limit_window_allowed_seconds, contains, from_window, WindowValue, in_words,
  whole, window_value_seconds, check_allowed, normalize_limit_window,
}

-- The window may have this length under the algorithm, if that is known.
abbrev pub IsAllowed : Option LimitingAlgorithmType → ℕ → Type 0
IsAllowed none n = Unit
IsAllowed (some a) n = contains (limit_window_allowed_seconds a) n ≡ true

format_of : (n : ℕ) (s : Text) → format_window n ≡ ok s → parse_window s ≡ ok n
format_of n s e = let (t, f, p) = parse-format_window n in cc

pub from_window-ok :
    {A : Type 0} (r : Result WindowError A) {a : A} → from_window r ≡ ok a → r ≡ ok a
from_window-ok (ok b) e = cc
from_window-ok (err x) e = cc

positive_seconds : (v : WindowValue) (n : ℕ) → window_value_seconds v ≡ ok n → 0 < n
unfolding window_value_seconds
positive_seconds (in_words s) n e = ground arith
positive_seconds (whole k) n e = ground arith
positive_seconds v n e = cc

seconds_in_words :
    (s : Text) (n : ℕ) → 0 < n → parse_window s ≡ ok n → window_value_seconds (in_words s) ≡ ok n
unfolding window_value_seconds
seconds_in_words s n h e = rw (e, lt→ltb 0 n h)

module _ (algorithm : Option LimitingAlgorithmType) where
  checked :
      (a : Option LimitingAlgorithmType) (n : ℕ) (t : Text) {s : Text}
      → check_allowed a n t ≡ ok s
      → (t ≡ s) × IsAllowed a n
  unfolding check_allowed
  checked none n t e = (cc, tt)
  checked (some a) n t e = elim (Bool-cases (contains (limit_window_allowed_seconds a) n)) [
    | inl allowed ↦ (let e' = rw allowed at e in cc, allowed)
    | inr refused ↦ (let e' = rw refused at e in cc, let e' = rw refused at e in cc)
  ]

  normalize_stages :
      (v : WindowValue)
      → normalize_limit_window v algorithm ≡ (
          window_value_seconds v >>= λ n.
          from_window (format_window n) >>= λ t. check_allowed algorithm n t)
  unfolding normalize_limit_window
  normalize_stages v = refl

  -- An accepted window comes back in one text for its length, the one that `format_window` writes:
  -- a positive length that the algorithm allows. That text is accepted as it stands.
  pub normalize_limit_window-canonical :
      (v : WindowValue) (s : Text)
      → normalize_limit_window v algorithm ≡ ok s
      → (n : ℕ) × (0 < n)
        × (format_window n ≡ ok s)
        × (parse_window s ≡ ok n)
        × IsAllowed algorithm n
        × (normalize_limit_window (in_words s) algorithm ≡ ok s)
  normalize_limit_window-canonical v s e =
      let (n, en, rest) = >>=-eq-ok (window_value_seconds v) _ (rw normalize_stages at e) in
      let (t, et, last) = >>=-eq-ok (from_window (format_window n)) _ rest in
      let (same, allowed) = checked algorithm n t last in
      let written : format_window n ≡ ok s = from_window-ok _ et ∙ ap ok same in
      let back = format_of n s written in
      let pos = positive_seconds v n en in
      (
        n,
        pos,
        written,
        back,
        allowed,
        normalize_stages (in_words s) ∙ rw (seconds_in_words s n pos back, et) (last),
      )
