-- ===== src/Routing.antt =====
-- routing/deterministic_router.py: `DeterministicRouter`, on a configuration that models/routing.py has
-- validated. A message is its role and the text that `stringify_message_content` gives; letters are
-- ASCII. Counting tokens, matching a cron expression at the current time, and the ratios of a budget,
-- which the code takes in floating point, are parameters. A model that is not in `models_by_id` raises
-- a KeyError, which is `none` here.
pub mod Order
pub mod Conditions
pub mod Bounds
use radicalbit_ai_gateway.Prelude.{
  ℕ, ◌+◌, ◌-◌, Bool, true, false, ◌&&◌, ◌||◌, Option, none, some, List, [], ◌∷◌, ◌++◌, Text, text,
  text_eq, leb, ◌==◌, if◌then◌else◌, any,
}
use radicalbit_ai_gateway.Prelude.Dict.{Dict, lookup}
use radicalbit_ai_gateway.Limiter.Window.{strip}
use radicalbit_ai_gateway.Alerting.Rules.{lower}
use radicalbit_ai_gateway.Invocation.Registry.{Model}

pub record Message : Type 0 where
  pub is_human : Bool
  pub content : Text

-- `TokenLengthConditions`, of which exactly one is set
pub data TokenLengthConditions : Type 0 where
  gte lte : ℕ → TokenLengthConditions
  between : ℕ → ℕ → TokenLengthConditions

pub record OutputMappingEntry (C : Type 0) : Type 0 where
  pub model_id : Text
  pub conditions : C

-- The rule with the output mapping; `F` are the thresholds.
pub data Rule (F : Type 0) : Type 0 where
  keyword : List (OutputMappingEntry (List Text)) → Rule F
  token_length : List (OutputMappingEntry TokenLengthConditions) → Rule F
  context_length : List (OutputMappingEntry TokenLengthConditions) → Rule F
  time : List (OutputMappingEntry (List Text)) → Rule F
  budget : List (OutputMappingEntry F) → Rule F

pub record DeterministicRoutingConfig (F : Type 0) : Type 0 where
  pub default_model_id : Text
  pub rule : Rule F

abbrev pub not_empty : Text → Bool
not_empty [] = false
not_empty (c ∷ s) = true

-- `last_human_text` of routing/common.py, from the texts found so far
unfoldable pub last_human_onto : Option Text → List Message → Option Text
last_human_onto found [] = found
last_human_onto found (m ∷ ms) =
    last_human_onto (if m.is_human && not_empty m.content then some m.content else found) ms

unfoldable pub last_human_text : List Message → Option Text
unfolding last_human_onto
last_human_text = last_human_onto none

-- `' '.join(parts)` of the texts that are not empty
unfoldable pub join_parts : Text → List Message → Text
join_parts out [] = out
join_parts out (m ∷ ms) =
    join_parts
      (if not_empty m.content
        then (if not_empty out then out ++ (32 ∷ m.content) else m.content)
        else out)
      ms

-- utils/build_user_content.py
unfoldable pub build_user_content : List Message → Text
unfolding join_parts strip
build_user_content messages = strip (join_parts [] messages)

starts_with : Text → Text → Bool
starts_with [] s = true
starts_with (c ∷ p) [] = false
starts_with (c ∷ p) (d ∷ s) = c == d && starts_with p s

-- `pattern in s`
unfoldable pub contains : Text → Text → Bool
unfolding starts_with
contains pattern [] = starts_with pattern []
contains pattern (c ∷ s) = starts_with pattern (c ∷ s) || contains pattern s

-- The first entry that a test accepts.
unfoldable pub first_match : {A : Type 0} → (A → Bool) → List A → Option A
first_match test [] = none
first_match test (x ∷ xs) = if test x then some x else first_match test xs

-- `sorted(…, key=key, reverse=True)`, which keeps the order of entries with the same key
module _ {A K : Type 0} (le : K → K → Bool) (key : A → K) where
  unfoldable pub place : A → List A → List A
  place x [] = x ∷ []
  place x (y ∷ ys) = let rest = place x ys in if le (key y) (key x) then x ∷ (y ∷ ys) else y ∷ rest

  unfoldable pub sort_descending : List A → List A
  unfolding place
  sort_descending [] = []
  sort_descending (x ∷ xs) = place x (sort_descending xs)

-- A key of `_condition_sort_key`: `up n` is n, `down n` is -n.
pub data SortKey : Type 0 where
  up down : ℕ → SortKey

unfoldable pub key_le : SortKey → SortKey → Bool
key_le (up a) (up b) = leb a b
key_le (up a) (down b) = a == 0 && b == 0
key_le (down a) (up b) = true
key_le (down a) (down b) = leb b a

-- `_condition_sort_key`
unfoldable pub condition_sort_key : OutputMappingEntry TokenLengthConditions → SortKey
condition_sort_key entry = elim entry.conditions [
  | gte n ↦ up n
  | lte n ↦ down n
  | between low high ↦ up low
]

unfoldable pub matches : ℕ → OutputMappingEntry TokenLengthConditions → Bool
matches token_count entry = elim entry.conditions [
  | gte n ↦ leb n token_count
  | lte n ↦ leb token_count n
  | between low high ↦ leb low token_count && leb token_count high
]

-- What the router is given.
pub record Router (F : Type 0) : Type 0 where
  pub config : DeterministicRoutingConfig F
  pub models_by_id : Dict Model
  -- `count_tokens(text, model)`
  pub count_tokens : Text → Text → ℕ
  -- `Cron(expression).validate(now)`, at the current time
  pub cron_validate : Text → Bool
  -- what remains of the budget, and the budget, where there is a budget limiter
  pub remaining_budget : Option (ℕ × ℕ)
  -- `1 - remaining / max_budget`, and `<=`
  pub usage_ratio : ℕ → ℕ → F
  pub ratio_le : F → F → Bool

module _ {F : Type 0} (r : Router F) where
  unfoldable pub default_model : Option Model
  unfolding lookup
  default_model = lookup r.config.default_model_id r.models_by_id

  -- The model of the entry found, and the default model otherwise.
  unfoldable pub model_or_default : {C : Type 0} → Option (OutputMappingEntry C) → Option Model
  unfolding default_model lookup
  model_or_default none = default_model
  model_or_default (some entry) = lookup entry.model_id r.models_by_id

  -- `_apply_keyword_rule`
  unfoldable pub apply_keyword_rule :
      List (OutputMappingEntry (List Text)) → List Message → Option Model
  unfolding last_human_text first_match contains lower model_or_default
  apply_keyword_rule mapping messages = elim (last_human_text messages) [
    | none ↦ default_model
    | some last_text ↦ model_or_default (
        first_match (λ entry. any (λ k. contains (lower k) (lower last_text)) entry.conditions)
          mapping)
  ]

  -- The entry that `_apply_conditions_rule` selects for a number of tokens.
  unfoldable pub conditions_entry :
      List (OutputMappingEntry TokenLengthConditions)
      → ℕ
      → Option (OutputMappingEntry TokenLengthConditions)
  unfolding first_match sort_descending key_le condition_sort_key matches
  conditions_entry mapping token_count =
      first_match (matches token_count) (sort_descending key_le condition_sort_key mapping)

  -- `_apply_conditions_rule`
  unfoldable pub apply_conditions_rule :
      List (OutputMappingEntry TokenLengthConditions) → Text → Option Model
  unfolding default_model conditions_entry model_or_default
  apply_conditions_rule mapping s = elim default_model [
    | none ↦ none
    | some default ↦ model_or_default (conditions_entry mapping (r.count_tokens s default.model))
  ]

  -- `_apply_token_length_rule`
  unfoldable pub apply_token_length_rule :
      List (OutputMappingEntry TokenLengthConditions) → List Message → Option Model
  unfolding last_human_text apply_conditions_rule
  apply_token_length_rule mapping messages = elim (last_human_text messages) [
    | none ↦ default_model
    | some last_text ↦ apply_conditions_rule mapping last_text
  ]

  -- `_apply_context_length_rule`
  unfoldable pub apply_context_length_rule :
      List (OutputMappingEntry TokenLengthConditions) → List Message → Option Model
  unfolding build_user_content apply_conditions_rule
  apply_context_length_rule mapping messages =
      if not_empty (build_user_content messages)
      then apply_conditions_rule mapping (build_user_content messages)
      else default_model

  -- `_apply_time_rule`
  unfoldable pub apply_time_rule : List (OutputMappingEntry (List Text)) → Option Model
  unfolding first_match model_or_default
  apply_time_rule mapping =
      model_or_default (first_match (λ entry. any r.cron_validate entry.conditions) mapping)

  -- The entry that `_apply_budget_rule` selects for a ratio.
  unfoldable pub budget_entry : List (OutputMappingEntry F) → F → Option (OutputMappingEntry F)
  unfolding first_match sort_descending
  budget_entry mapping ratio =
      first_match (λ entry. r.ratio_le entry.conditions ratio)
        (sort_descending r.ratio_le (λ entry. entry.conditions) mapping)

  -- `_apply_budget_rule`
  unfoldable pub apply_budget_rule : List (OutputMappingEntry F) → Option Model
  unfolding default_model budget_entry model_or_default
  apply_budget_rule mapping = elim r.remaining_budget [
    | none ↦ default_model
    | some (remaining, max_budget) ↦
        if max_budget == 0
        then default_model
        else model_or_default (budget_entry mapping (r.usage_ratio remaining max_budget))
  ]

  unfoldable pub select_by : Rule F → List Message → Option Model
  unfolding apply_keyword_rule apply_token_length_rule apply_context_length_rule apply_time_rule
      apply_budget_rule
  select_by (keyword mapping) messages = apply_keyword_rule mapping messages
  select_by (token_length mapping) messages = apply_token_length_rule mapping messages
  select_by (context_length mapping) messages = apply_context_length_rule mapping messages
  select_by (time mapping) messages = apply_time_rule mapping
  select_by (budget mapping) messages = apply_budget_rule mapping

  -- `select_model`
  unfoldable pub select_model : List Message → Option Model
  unfolding select_by
  select_model = select_by r.config.rule
