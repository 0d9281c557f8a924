-- ===== src/Tests/Owners.antt =====
-- The limits of credentials and projects at concrete inputs.
use radicalbit_ai_gateway.Prelude.{
  ◌≤◌, ℕ, ◌≡◌, ◌≢◌, refl, [], ◌∷◌, ◌++◌, Text, text, arith, decimal, text_eq, All,
}
use radicalbit_ai_gateway.Prelude.Result.{ok}
use radicalbit_ai_gateway.Prelude.Dict.{lookup}
use radicalbit_ai_gateway.Limiter.Window.{
  scenario_value, match_window, strip, in_unit, parse_window, window_size_seconds, from_parts,
}
use radicalbit_ai_gateway.Limiter.Base.{aligned, build_key, window_type}
use radicalbit_ai_gateway.Limiter.Base.Counting.{counted}
use radicalbit_ai_gateway.Limiter.Storage.{Entry}
use radicalbit_ai_gateway.Limiting.World.{World}
use radicalbit_ai_gateway.Prelude.Dict.{Dict}
use radicalbit_ai_gateway.Limiting.Config.{aligned_fixed_window}
use radicalbit_ai_gateway.Limiting.Room.{Active}
use radicalbit_ai_gateway.Limiting.Entries.Counts.{key_of}
use radicalbit_ai_gateway.Limiting.Credential.{
  rate, input, output, spending, scenario_of, CredentialLimiter, CredentialLimitOut, entries_of,
  append_entry, build_entry, add_entries, credential_limiter,
}
use radicalbit_ai_gateway.Limiting.Credential.Build.{
  of_category, build_all, credential_limiter-of_category,
}
use radicalbit_ai_gateway.Limiting.Credential.Clear.{
  algorithm_value, clear_limit_counter, Cleared, clear_limit_counter-Cleared,
}
use radicalbit_ai_gateway.Limiting.Credential.Checks.Empty.{empty_store_accepts}
use radicalbit_ai_gateway.Limiting.Credential.Checks.{
  check_category, Call, check_input_tokens, check_input_room, check_output_tokens, check_budget,
  check_and_count_request,
}
use radicalbit_ai_gateway.Limiting.Credential.Checks.Decide.{Decides, checks-Decide, rates_capped}
use radicalbit_ai_gateway.Limiting.Project.{ProjectBudgetLimiter, ProjectCall}
use radicalbit_ai_gateway.Limiting.Project as Owner
use radicalbit_ai_gateway.Limiting.Project.Build.{ProjectBudgetLimitOut, build_project_entry}
use radicalbit_ai_gateway.Tests.{
  ticking, backend, backend_law, whole_numbers, by_minute, by_hour, machine_with, world_with,
  one_hit,
}

abbrev a_credential : CredentialLimiter
a_credential = record {
  credential_uuid = text "k";
  credential_name = text "key";
  entries = (rate, by_hour ∷ by_minute ∷ []) ∷ (input, by_minute ∷ []) ∷ [];
}

abbrev a_call : Call
a_call = record {
  request_uuid = text "q";
  group_uuid = text "g";
  group_name = text "group";
  route_name = text "r:1";
  project_uuid = text "p";
  project_name = text "project";
}

abbrev seven : Text → Text → ℕ
seven prompt model_string = 7

checks-Decide_example :
    Decides ticking backend backend_law a_credential a_call input 7 (world_with []) (
      check_input_tokens ticking backend seven a_credential
        (text "hello w")
        (text "m")
        a_call
        (world_with []))
    × Decides ticking backend backend_law a_credential a_call input 1
        (world_with [])
        (check_input_room ticking backend a_credential a_call (world_with []))
    × Decides ticking backend backend_law a_credential a_call output 1
        (world_with [])
        (check_output_tokens ticking backend a_credential a_call (world_with []))
    × Decides ticking backend backend_law a_credential a_call spending 1
        (world_with [])
        (check_budget ticking backend a_credential a_call (world_with []))
checks-Decide_example =
    checks-Decide ticking backend backend_law a_credential a_call seven (text "hello w") (text "m")
      (world_with [])

own_rates : entries_of rate a_credential.entries ≡ (by_hour ∷ []) ++ (by_minute ∷ [])
unfolding entries_of
own_rates = refl

two_keys : key_of by_hour ≢ key_of by_minute
unfolding build_key window_type scenario_value decimal
two_keys = λ e. grind arith

nothing_yet : counted backend_law.cells 1000 [] (key_of by_minute) ≤ 2
unfolding lookup
nothing_yet = omega arith

abbrev one_checked : World (Dict Entry)
one_checked = (check_and_count_request ticking backend [] a_credential a_call (world_with [])).1

rates_capped_example :
    counted backend_law.cells one_checked.clock one_checked.store (key_of by_minute) ≤ 2
rates_capped_example =
    rates_capped ticking backend backend_law a_credential a_call [] (by_hour ∷ []) by_minute []
      own_rates (two_keys, tt) tt (world_with []) nothing_yet

no_counter : (t : ℕ) (k : Text) → counted backend_law.cells t [] k ≡ 0
unfolding lookup
no_counter t k = refl

two_fit : All (λ a. 2 ≤ a.item.limit) (entries_of rate a_credential.entries)
unfolding entries_of
two_fit = (omega arith, (omega arith, tt))

empty_store_accepts_example :
    ((check_category ticking backend a_credential rate 2 a_call (world_with [])).0 ≡ ok tt)
    × ((check_category ticking backend a_credential rate 2 a_call (world_with [])).1.events ≡ [])
empty_store_accepts_example =
    empty_store_accepts ticking backend backend_law a_credential a_call rate 2 (world_with [])
      no_counter two_fit

abbrev a_limit : CredentialLimitOut whole_numbers
a_limit = record {
  category = input;
  algorithm = aligned_fixed_window;
  window_size = text "1 hour";
  value = 90;
}

abbrev its_entry : Active
its_entry = record {
  limiter = aligned;
  item = record {
    limit = 90;
    window_seconds = 3600;
    project_uuid = text "k";
    route_name = text "*";
    scenario_type = scenario_of input;
  };
}

an_hour : parse_window (text "1 hour") ≡ ok 3600
unfolding parse_window match_window strip in_unit text_eq
an_hour = refl

built : build_entry whole_numbers (text "k") a_limit ≡ ok its_entry
unfolding build_entry from_parts window_size_seconds
built = rw an_hour refl

clear_limit_counter-Cleared_example :
    Cleared backend_law (key_of its_entry) (machine_with ((key_of its_entry, one_hit) ∷ [])) (
      clear_limit_counter backend
        (text "k")
        (scenario_value (scenario_of input))
        (algorithm_value aligned_fixed_window)
        (text "1 hour")
        (machine_with ((key_of its_entry, one_hit) ∷ [])))
clear_limit_counter-Cleared_example =
    clear_limit_counter-Cleared backend backend_law whole_numbers (text "k") a_limit its_entry
      (machine_with ((key_of its_entry, one_hit) ∷ [])) built

abbrev with_limit : CredentialLimiter
with_limit = record {
  credential_uuid = text "k";
  credential_name = text "key";
  entries = (input, its_entry ∷ []) ∷ [];
}

with_limit_built :
    credential_limiter whole_numbers (text "k") (text "key") (a_limit ∷ []) ≡ ok with_limit
unfolding credential_limiter add_entries append_entry
with_limit_built = rw built refl

credential_limiter-of_category_example :
    build_all whole_numbers (text "k") (of_category whole_numbers (text "k") input (a_limit ∷ []))
    ≡ ok (entries_of input with_limit.entries)
credential_limiter-of_category_example =
    credential_limiter-of_category whole_numbers (text "k") (text "key") (a_limit ∷ []) with_limit
      with_limit_built input

abbrev a_project : ProjectBudgetLimiter
a_project = record {
  project_uuid = text "p";
  project_name = text "project";
  entries = by_hour ∷ by_minute ∷ [];
}

abbrev project_call : ProjectCall
project_call = record {
  request_uuid = text "q";
  api_key_uuid = text "k";
  api_key_name = text "key";
  group_uuid = text "g";
  group_name = text "group";
  route_name = text "r:1";
}

abbrev project_limit : ProjectBudgetLimitOut whole_numbers
project_limit = record { algorithm = aligned_fixed_window; window_size = text "1 hour"; value = 3 }

abbrev project_entry : Active
project_entry = record {
  limiter = aligned;
  item = record {
    limit = 3_000_000_000;
    window_seconds = 3600;
    project_uuid = text "p";
    route_name = text "*";
    scenario_type = scenario_of spending;
  };
}

project_built : build_project_entry whole_numbers (text "p") project_limit ≡ ok project_entry
unfolding build_project_entry from_parts window_size_seconds scenario_of
project_built = rw an_hour refl
