-- ===== src/Limiter/Window.antt =====
-- limiter/window_config.py: window sizes as texts and as seconds, and the configuration of a window.
-- Texts are ASCII here: `\d`, `\s` and `\w` also match characters of other scripts, which no unit's
-- name has, so that such a text is refused there too unless its digits or spaces are of that kind.
pub mod RoundTrip
use radicalbit_ai_gateway.Prelude.{
  ℕ, ◌+◌, ◌*◌, ◌/◌, ◌%◌, ◌≡◌, refl, Bool, true, false, ◌&&◌, ◌||◌, Option, none, some, List, [],
  ◌∷◌, ◌++◌, Text, text, leb, ◌==◌, if◌then◌else◌, is_digit, decimal, read_onto,
}
use radicalbit_ai_gateway.Prelude.Dict.{Dict, lookup}
use radicalbit_ai_gateway.Prelude.Result.{Result, ok, err, or_err, ◌>>=◌}

pub data ScenarioType : Type 0 where
  request_rate token_input token_output budget audio_duration : ScenarioType

-- `.value` of the enum
unfoldable pub scenario_value : ScenarioType → Text
scenario_value request_rate = text "request_rate"
scenario_value token_input = text "token_input"
scenario_value token_output = text "token_output"
scenario_value budget = text "budget"
scenario_value audio_duration = text "audio_duration"

abbrev pub second : ℕ
second = 1

abbrev pub minute : ℕ
minute = 60 * second

abbrev pub hour : ℕ
hour = 60 * minute

abbrev pub day : ℕ
day = 24 * hour

abbrev pub week : ℕ
week = 7 * day

abbrev pub month : ℕ
month = 30 * day

unfoldable pub time_units : Dict ℕ
time_units =
    (text "second", second)
    ∷ (text "seconds", second)
    ∷ (text "minute", minute)
    ∷ (text "minutes", minute)
    ∷ (text "hour", hour)
    ∷ (text "hours", hour)
    ∷ (text "day", day)
    ∷ (text "days", day)
    ∷ (text "week", week)
    ∷ (text "weeks", week)
    ∷ (text "month", month)
    ∷ (text "months", month)
    ∷ []

-- `\s`, which is also what `strip` removes
abbrev pub is_space : ℕ → Bool
is_space c = c == b' ' || (leb 9 c && leb c 13 || leb 28 c && leb c 31)

-- `\w`
abbrev pub is_word : ℕ → Bool
is_word c = is_digit c || (leb b'a' c && leb c b'z' || (leb b'A' c && leb c b'Z' || c == b'_'))

abbrev to_lower : ℕ → ℕ
to_lower c = if leb b'A' c && leb c b'Z' then c + 32 else c

unfoldable pub lower : Text → Text
lower [] = []
lower (c ∷ s) = to_lower c ∷ lower s

unfoldable pub lstrip : Text → Text
lstrip [] = []
lstrip (c ∷ s) = let rest = lstrip s in if is_space c then rest else c ∷ s

abbrev strip_onto : ℕ → Text → Text
strip_onto c [] = if is_space c then [] else c ∷ []
strip_onto c (d ∷ s) = c ∷ d ∷ s

unfoldable pub rstrip : Text → Text
rstrip [] = []
rstrip (c ∷ s) = strip_onto c (rstrip s)

unfoldable pub strip : Text → Text
unfolding lstrip rstrip
strip s = rstrip (lstrip s)

-- The digits at the head of a text, and what follows them.
unfoldable pub span_digits : Text → Text × Text
span_digits [] = ([], [])
span_digits (c ∷ s) =
    let (ds, rest) = span_digits s in if is_digit c then (c ∷ ds, rest) else ([], c ∷ s)

unfoldable pub all_word : Text → Bool
all_word [] = true
all_word (c ∷ s) = is_word c && all_word s

-- All but the last character, and the last, where a digit is left for each group.
split_last : ℕ → Text → Option (Text × Text)
split_last c [] = none
split_last c (d ∷ []) = some (c ∷ [], d ∷ [])
split_last c (d ∷ e ∷ s) = elim (split_last d (e ∷ s)) [
  | none ↦ none
  | some (front, end) ↦ some (c ∷ front, end)
]

-- The groups of `^(\d+)\s*(\w+)$` in a text that does not end in whitespace, by the digits at its
-- head, what follows them, and that without its spaces. If nothing follows the digits, the pattern
-- gives the last of them to its second group.
match_groups : Text → Text → Text → Option (Text × Text)
match_groups [] rest unit = none
match_groups (d ∷ ds) [] unit = split_last d ds
match_groups (d ∷ ds) (c ∷ rest) [] = none
match_groups (d ∷ ds) (c ∷ rest) (u ∷ unit) =
    if all_word (u ∷ unit) then some (d ∷ ds, u ∷ unit) else none

unfoldable pub match_window : Text → Option (Text × Text)
unfolding match_groups split_last span_digits all_word lstrip
match_window s = let (ds, rest) = span_digits s in match_groups ds rest (lstrip rest)

-- The two messages of `ValueError`, and the one of `format_window`.
pub data WindowError : Type 0 where
  invalid_format unknown_unit no_unit : WindowError

unfoldable pub in_unit : Text × Text → Result WindowError ℕ
unfolding lower time_units lookup read_onto
in_unit (period, unit) = do
  seconds ← or_err unknown_unit (lookup (lower unit) time_units)
  ok (read_onto 0 period * seconds)

unfoldable pub parse_window : Text → Result WindowError ℕ
unfolding match_window strip in_unit
parse_window s = do groups ← or_err invalid_format (match_window (strip s)); in_unit groups

-- Largest first.
unfoldable pub canonical_units : List (Text × ℕ)
canonical_units =
    (text "month", month)
    ∷ (text "week", week)
    ∷ (text "day", day)
    ∷ (text "hour", hour)
    ∷ (text "minute", minute)
    ∷ (text "second", second)
    ∷ []

abbrev pub with_count : ℕ → Text → Text
with_count count unit =
    if count == 1
    then decimal count ++ (b' ' ∷ unit)
    else decimal count ++ (b' ' ∷ (unit ++ (b's' ∷ [])))

-- The loop of `format_window`.
unfoldable pub format_in : List (Text × ℕ) → ℕ → Result WindowError Text
format_in [] window_seconds = err no_unit
format_in ((unit, seconds) ∷ units) window_seconds =
    if (window_seconds % seconds) == 0
    then ok (with_count (window_seconds / seconds) unit)
    else format_in units window_seconds

unfoldable pub format_window : ℕ → Result WindowError Text
unfolding format_in canonical_units
format_window = format_in canonical_units

pub record WindowConfig : Type 0 where
  pub limit : ℕ
  pub window_seconds : ℕ
  pub project_uuid : Text
  pub route_name : Text
  pub scenario_type : ScenarioType

-- A window size as configurations hold it: `int | str`.
pub data WindowSize : Type 0 where
  of_seconds : ℕ → WindowSize
  of_text : Text → WindowSize

-- `parse_window(window) if isinstance(window, str) else window`
unfoldable pub window_size_seconds : WindowSize → Result WindowError ℕ
window_size_seconds (of_seconds n) = ok n
window_size_seconds (of_text s) = parse_window s

unfoldable pub from_parts :
    ℕ → WindowSize → Text → Text → ScenarioType → Result WindowError WindowConfig
unfolding window_size_seconds
from_parts limit window project_uuid route_name scenario_type = do
  window_seconds ← window_size_seconds window
  ok (record {
    limit = limit;
    window_seconds = window_seconds;
    project_uuid = project_uuid;
    route_name = route_name;
    scenario_type = scenario_type;
  })
