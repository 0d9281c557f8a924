-- ===== src/Limiting/Credential/Checks.antt =====
-- limiting/credential_limiter.py: the checks and the counts of a request. `count_tokens` of
-- utils/token_encoding.py, which asks the model's tokenizer, is a parameter.
pub mod Decide
pub mod Empty
use radicalbit_ai_gateway.Prelude.{ℕ, Bool, true, false, Option, none, some, List, [], ◌∷◌, Text}
use radicalbit_ai_gateway.Limiter.Machine.{Env}
use radicalbit_ai_gateway.Limiter.Storage.{Storage}
use radicalbit_ai_gateway.Limiter.Base.{WindowStats}
use radicalbit_ai_gateway.Limiting.Floats.{Floats}
use radicalbit_ai_gateway.Limiting.World.{
  RequestIdentity, LimitEventPayload, LimitError, request_rate_limit_exceeded,
  input_token_limit_exceeded, output_token_limit_exceeded, budget_limit_exceeded, EventType,
  credential_rate_limit, credential_token_input_limit, credential_token_output_limit,
  credential_budget_limit, Counter, rate_limiting, token_input_limiting, token_output_limiting,
  credential, Exec, ◌>>=◌, ◌>>◌, skip,
}
use radicalbit_ai_gateway.Limiting.Room.{Active, block_event, refuse}
use radicalbit_ai_gateway.Limiting.Entries.{first_exceeded, if_exceeded, hit_all}
use radicalbit_ai_gateway.Limiting.Route.Budget.{cost_in_units}
use radicalbit_ai_gateway.Limiting.Credential.{
  Category, rate, input, output, spending, entries_of, has_category, CredentialLimiter,
}

-- The arguments that the checks share.
pub record Call : Type 0 where
  pub request_uuid : Text
  pub group_uuid : Text
  pub group_name : Text
  pub route_name : Text
  pub project_uuid : Text
  pub project_name : Text

abbrev pub identity_of_call : CredentialLimiter → Call → RequestIdentity
identity_of_call self call = record {
  request_uuid = call.request_uuid;
  route_name = call.route_name;
  api_key_uuid = self.credential_uuid;
  api_key_name = self.credential_name;
  group_uuid = call.group_uuid;
  group_name = call.group_name;
  project_uuid = call.project_uuid;
  project_name = call.project_name;
}

-- `_CATEGORY_EVENT_TYPE`
unfoldable pub category_event_type : Category → EventType
category_event_type rate = credential_rate_limit
category_event_type input = credential_token_input_limit
category_event_type output = credential_token_output_limit
category_event_type spending = credential_budget_limit

-- The event that `_emit_block_event` emits.
unfoldable pub credential_event :
    CredentialLimiter → Category → Call → Active → WindowStats → LimitEventPayload
unfolding category_event_type block_event
credential_event self category call entry stats =
    block_event (category_event_type category) credential (identity_of_call self call) entry.item
      stats

-- The exception and the telemetry counter of each category's refusal.
unfoldable pub credential_error : Category → Call → WindowStats → LimitError
credential_error rate call stats = request_rate_limit_exceeded stats.remaining_time call.route_name
credential_error input call stats = input_token_limit_exceeded stats.remaining_time
credential_error output call stats = output_token_limit_exceeded stats.remaining_time
credential_error spending call stats = budget_limit_exceeded stats.remaining_time

unfoldable pub credential_counter : Category → Option Counter
credential_counter rate = some rate_limiting
credential_counter input = some token_input_limiting
credential_counter output = some token_output_limiting
credential_counter spending = none

module _ {S : Type 0} where
  only_with : Bool → Exec S (Unit {0}) → Exec S (Unit {0})
  only_with true body = body
  only_with false body = skip

module _ {S : Type 0} (env : Env) (storage : Storage S) where
  -- `exceeded = await self._first_exceeded(…)`, and the refusal if it is not none.
  unfoldable pub check_category : CredentialLimiter → Category → ℕ → Call → Exec S (Unit {0})
  unfolding first_exceeded if_exceeded refuse credential_event credential_error credential_counter
  check_category self category cost call =
      first_exceeded env storage cost (entries_of category self.entries)
      >>= if_exceeded λ entry stats.
        refuse (credential_event self category call entry stats) (credential_counter category)
          call.route_name (credential_error category call stats)

  -- `_check_input_cost`
  unfoldable pub check_input_cost : CredentialLimiter → ℕ → Call → Exec S (Unit {0})
  check_input_cost self tokens call = check_category self input tokens call

  unfoldable pub check_input_tokens :
      (Text → Text → ℕ) → CredentialLimiter → Text → Text → Call → Exec S (Unit {0})
  unfolding only_with check_input_cost
  check_input_tokens count_tokens self prompt model_string call =
      only_with (has_category input self.entries)
        (check_input_cost self (count_tokens prompt model_string) call)

  unfoldable pub check_input_room : CredentialLimiter → Call → Exec S (Unit {0})
  unfolding only_with check_input_cost
  check_input_room self call =
      only_with (has_category input self.entries) (check_input_cost self 1 call)

  unfoldable pub check_output_tokens : CredentialLimiter → Call → Exec S (Unit {0})
  unfolding only_with
  check_output_tokens self call =
      only_with (has_category output self.entries) (check_category self output 1 call)

  unfoldable pub check_budget : CredentialLimiter → Call → Exec S (Unit {0})
  unfolding only_with
  check_budget self call =
      only_with (has_category spending self.entries) (check_category self spending 1 call)

module _ {S : Type 0} (env : Env) (storage : Storage S) (alert_threshold_percentages : List ℕ) where
  -- `_hit`
  unfoldable pub hit : CredentialLimiter → Category → ℕ → RequestIdentity → Exec S (Unit {0})
  unfolding hit_all
  hit self category cost identity =
      hit_all env storage alert_threshold_percentages credential cost identity
        (entries_of category self.entries)

  unfoldable pub check_and_count_request : CredentialLimiter → Call → Exec S (Unit {0})
  unfolding only_with hit
  check_and_count_request self call =
      only_with (has_category rate self.entries) (
        check_category env storage self rate 1 call >> hit self rate 1 (identity_of_call self call))

  unfoldable pub count_input_tokens : CredentialLimiter → ℕ → RequestIdentity → Exec S (Unit {0})
  unfolding hit
  count_input_tokens self tokens identity = hit self input tokens identity

  unfoldable pub count_output_tokens : CredentialLimiter → ℕ → RequestIdentity → Exec S (Unit {0})
  unfolding hit
  count_output_tokens self tokens identity = hit self output tokens identity

  module _ (F : Floats) where
    open F use {Float, of_int}

    unfoldable pub count_budget_input :
        CredentialLimiter → ℕ → Float → RequestIdentity → Exec S (Unit {0})
    unfolding hit
    count_budget_input self token_count input_cost_per_token identity =
        hit self spending (cost_in_units F (of_int token_count) input_cost_per_token) identity

    unfoldable pub count_budget_output :
        CredentialLimiter → ℕ → Float → RequestIdentity → Exec S (Unit {0})
    unfolding hit
    count_budget_output self token_count output_cost_per_token identity =
        hit self spending (cost_in_units F (of_int token_count) output_cost_per_token) identity

    unfoldable pub count_budget_duration :
        CredentialLimiter → Float → Float → RequestIdentity → Exec S (Unit {0})
    unfolding hit
    count_budget_duration self seconds cost_per_second identity =
        hit self spending (cost_in_units F seconds cost_per_second) identity
