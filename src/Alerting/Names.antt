-- ===== src/Alerting/Names.antt =====
-- alerting/limit_event_names.py: the names of the events of a limit. Texts are ASCII here: `\d` also
-- matches digits of other scripts.
pub mod RoundTrip
use radicalbit_ai_gateway.Prelude.{
  ℕ, ◌*◌, ◌/◌, ◌%◌, Bool, true, false, Option, none, some, List, [], ◌∷◌, ◌++◌, Text, text, text_eq,
  decimal, read_onto, ◌==◌, if◌then◌else◌,
}
use radicalbit_ai_gateway.Limiter.Window.{
  ScenarioType, request_rate, token_input, token_output, budget, audio_duration, scenario_value,
  span_digits,
}

-- The keys of `CATEGORY_LABELS`.
pub data LimitCategory : Type 0 where
  rate_limit token_input_limit token_output_limit budget_limit audio_duration_limit : LimitCategory

unfoldable pub category_name : LimitCategory → Text
category_name rate_limit = text "rate_limit"
category_name token_input_limit = text "token_input_limit"
category_name token_output_limit = text "token_output_limit"
category_name budget_limit = text "budget_limit"
category_name audio_duration_limit = text "audio_duration_limit"

unfoldable pub all_categories : List LimitCategory
all_categories =
    rate_limit ∷ token_input_limit ∷ token_output_limit ∷ budget_limit ∷ audio_duration_limit ∷ []

-- `CATEGORY_BY_SCENARIO`
unfoldable pub category_of : ScenarioType → LimitCategory
category_of request_rate = rate_limit
category_of token_input = token_input_limit
category_of token_output = token_output_limit
category_of budget = budget_limit
category_of audio_duration = audio_duration_limit

-- `CATEGORY_BY_SCENARIO.get`
unfoldable pub category_by_scenario : Text → Option LimitCategory
unfolding scenario_value
category_by_scenario s =
    if text_eq (scenario_value request_rate) s
    then some rate_limit
    else if text_eq (scenario_value token_input) s
    then some token_input_limit
    else if text_eq (scenario_value token_output) s
    then some token_output_limit
    else if text_eq (scenario_value budget) s
    then some budget_limit
    else if text_eq (scenario_value audio_duration) s
    then some audio_duration_limit
    else none

-- `_UNITS`, largest first
unfoldable pub window_units : List (Text × ℕ)
window_units =
    (text "mo", 2592000)
    ∷ (text "w", 604800)
    ∷ (text "d", 86400)
    ∷ (text "h", 3600)
    ∷ (text "m", 60)
    ∷ (text "s", 1)
    ∷ []

unfoldable pub window_name_in : List (Text × ℕ) → ℕ → Option Text
window_name_in [] seconds = none
window_name_in ((unit, size) ∷ units) seconds =
    if (seconds % size) == 0
    then some (decimal (seconds / size) ++ unit)
    else window_name_in units seconds

-- `window_name`, which raises if no unit divides the seconds.
unfoldable pub window_name : ℕ → Option Text
unfolding window_name_in window_units
window_name = window_name_in window_units

unfoldable pub exceeded_event : LimitCategory → ℕ → Option Text
unfolding window_name category_name
exceeded_event category window_seconds = elim (window_name window_seconds) [
  | none ↦ none
  | some window ↦ some (category_name category ++ (text "-exceeded-" ++ window))
]

unfoldable pub threshold_event : LimitCategory → ℕ → ℕ → Option Text
unfolding window_name category_name
threshold_event category percentage window_seconds = elim (window_name window_seconds) [
  | none ↦ none
  | some window ↦
      some (category_name category ++ (text "-" ++ (decimal percentage ++ (text "pct-" ++ window))))
]

pub record LimitEventName : Type 0 where
  pub category : LimitCategory
  pub window : Text
  pub percentage : Option ℕ

unfoldable pub strip_prefix : Text → Text → Option Text
strip_prefix [] s = some s
strip_prefix (c ∷ p) [] = none
strip_prefix (c ∷ p) (d ∷ s) = let rest = strip_prefix p s in if c == d then rest else none

-- `(?:mo|w|d|h|m|s)$`, which also matches before a newline at the end.
unfoldable pub match_unit : List (Text × ℕ) → Text → Option Text
unfolding text_eq
match_unit [] s = none
match_unit ((unit, size) ∷ units) s =
    let rest = match_unit units s in
    if text_eq unit s then some unit else if text_eq (unit ++ (10 ∷ [])) s then some unit else rest

with_digits : Text → Option Text → Option Text
with_digits [] unit = none
with_digits (d ∷ ds) none = none
with_digits (d ∷ ds) (some unit) = some ((d ∷ ds) ++ unit)

-- `(?P<window>\d+(?:mo|w|d|h|m|s))$`
unfoldable pub match_window_name : Text → Option Text
unfolding with_digits span_digits match_unit window_units
match_window_name s =
    let (ds, rest) = span_digits s in with_digits ds (match_unit window_units rest)

named : LimitCategory → Option ℕ → Option Text → Option LimitEventName
named category percentage none = none
named category percentage (some window) =
    some (record { category = category; window = window; percentage = percentage })

after_percentage : LimitCategory → Text → Option Text → Option LimitEventName
unfolding named match_window_name
after_percentage category [] rest = none
after_percentage category (d ∷ ds) none = none
after_percentage category (d ∷ ds) (some rest) =
    named category (some (read_onto 0 (d ∷ ds))) (match_window_name rest)

-- What follows the category and a dash: a percentage, …
match_threshold : LimitCategory → Text → Option LimitEventName
unfolding after_percentage strip_prefix span_digits
match_threshold category s =
    let (ds, rest) = span_digits s in after_percentage category ds (strip_prefix (text "pct-") rest)

-- … or `exceeded`. No text starts with both.
match_event : LimitCategory → Option Text → Text → Option LimitEventName
unfolding named match_window_name match_threshold
match_event category none s = match_threshold category s
match_event category (some rest) s = named category none (match_window_name rest)

match_rest : LimitCategory → Option Text → Option LimitEventName
unfolding match_event strip_prefix
match_rest category none = none
match_rest category (some s) = match_event category (strip_prefix (text "exceeded-") s) s

or_else : Option LimitEventName → Option LimitEventName → Option LimitEventName
or_else (some m) other = some m
or_else none other = other

-- The alternatives of the category, in turn.
match_category : List LimitCategory → Text → Option LimitEventName
unfolding or_else match_rest strip_prefix category_name
match_category [] event = none
match_category (category ∷ categories) event =
    or_else (match_rest category (strip_prefix (category_name category ++ text "-") event))
      (match_category categories event)

unfoldable pub parse_limit_event : Text → Option LimitEventName
unfolding match_category all_categories
parse_limit_event = match_category all_categories
