-- ===== src/Limiting/Project.antt =====
-- limiting/project_budget_limiter.py: the budget limits of a project. A limiter is built for each
-- request, from the rows that the project's DAO returns, which is a parameter. The backend is a
-- parameter of the methods, as in Credential.antt.
pub mod Build
pub mod Decide
pub mod Clear
use radicalbit_ai_gateway.Prelude.{
  ℕ, Bool, true, false, Option, none, some, List, [], ◌∷◌, Text, text,
}
use radicalbit_ai_gateway.Limiter.Machine.{Env, Machine, Op}
use radicalbit_ai_gateway.Limiter.Storage.{Storage}
use radicalbit_ai_gateway.Limiter.Base.{WindowStats, build_key}
use radicalbit_ai_gateway.Limiting.Floats.{Floats}
use radicalbit_ai_gateway.Limiting.World.{
  RequestIdentity, LimitEventPayload, LimitError, budget_limit_exceeded, project_budget_limit,
  project, Exec, ◌>>=◌, skip,
}
use radicalbit_ai_gateway.Limiting.Event.{budget_multiplier}
use radicalbit_ai_gateway.Limiting.Config.{LimitingAlgorithmType}
use radicalbit_ai_gateway.Limiting.Room.{Active, class_of, block_event, refuse}
use radicalbit_ai_gateway.Limiting.Entries.{first_exceeded, if_exceeded, hit_all}
use radicalbit_ai_gateway.Limiting.Credential.Clear.{class_named}
use radicalbit_ai_gateway.Limiting.Route.Budget.{cost_in_units}

pub record ProjectBudgetLimiter : Type 0 where
  pub project_uuid : Text
  pub project_name : Text
  pub entries : List Active

-- The arguments of `check_budget`.
pub record ProjectCall : Type 0 where
  pub request_uuid : Text
  pub api_key_uuid : Text
  pub api_key_name : Text
  pub group_uuid : Text
  pub group_name : Text
  pub route_name : Text

unfoldable pub project_event :
    ProjectBudgetLimiter → ProjectCall → Active → WindowStats → LimitEventPayload
unfolding block_event
project_event self call entry stats =
    block_event project_budget_limit project
      (record {
        request_uuid = call.request_uuid;
        route_name = call.route_name;
        api_key_uuid = call.api_key_uuid;
        api_key_name = call.api_key_name;
        group_uuid = call.group_uuid;
        group_name = call.group_name;
        project_uuid = self.project_uuid;
        project_name = self.project_name;
      })
      entry.item stats

abbrev pub project_error : WindowStats → LimitError
project_error stats = budget_limit_exceeded stats.remaining_time

module _ {S : Type 0} (env : Env) (storage : Storage S) where
  unless_empty : List Active → Exec S (Unit {0}) → Exec S (Unit {0})
  unless_empty [] body = skip
  unless_empty (entry ∷ entries) body = body

  check_entries : ProjectBudgetLimiter → ProjectCall → List Active → Exec S (Unit {0})
  unfolding first_exceeded if_exceeded refuse project_event
  check_entries self call entries =
      first_exceeded env storage 1 entries
      >>= if_exceeded λ entry stats.
        refuse (project_event self call entry stats) none call.route_name (project_error stats)

  unfoldable pub check_budget : ProjectBudgetLimiter → ProjectCall → Exec S (Unit {0})
  unfolding unless_empty check_entries
  check_budget self call = unless_empty self.entries (check_entries self call self.entries)

module _ {S : Type 0} (env : Env) (storage : Storage S) (alert_threshold_percentages : List ℕ) where
  -- `_hit`
  unfoldable pub hit : ProjectBudgetLimiter → ℕ → RequestIdentity → Exec S (Unit {0})
  unfolding hit_all
  hit self cost identity =
      hit_all env storage alert_threshold_percentages project cost identity self.entries

  module _ (F : Floats) where
    open F use {Float, of_int}

    unfoldable pub count_input :
        ProjectBudgetLimiter → ℕ → Float → RequestIdentity → Exec S (Unit {0})
    unfolding hit
    count_input self token_count input_cost_per_token identity =
        hit self (cost_in_units F (of_int token_count) input_cost_per_token) identity

    unfoldable pub count_output :
        ProjectBudgetLimiter → ℕ → Float → RequestIdentity → Exec S (Unit {0})
    unfolding hit
    count_output self token_count output_cost_per_token identity =
        hit self (cost_in_units F (of_int token_count) output_cost_per_token) identity

    unfoldable pub count_duration :
        ProjectBudgetLimiter → Float → Float → RequestIdentity → Exec S (Unit {0})
    unfolding hit
    count_duration self seconds cost_per_second identity =
        hit self (cost_in_units F seconds cost_per_second) identity
