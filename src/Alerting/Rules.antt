-- ===== src/Alerting/Rules.antt =====
-- models/alert_rule_dto.py, db/dao/alert_rule_dao.py and the functions of alerting/alert_dispatch.py
-- that name an event and its target. Letters are ASCII. The table of rules is the list of its rows, in
-- the order in which the database returns them, and no row changes while an operation runs.
pub mod Limits
use radicalbit_ai_gateway.Prelude.{
  ℕ, ◌+◌, ◌-◌, Bool, true, false, ◌&&◌, ◌||◌, not, Option, none, some, List, [], ◌∷◌, ◌++◌, Text,
  text, text_eq, leb, if◌then◌else◌,
}
use radicalbit_ai_gateway.Limiting.World.{
  RequestIdentity, LimitScope, route, project, credential, LimitEventPayload,
}
use radicalbit_ai_gateway.Alerting.Names.{
  LimitCategory, category_by_scenario, exceeded_event, threshold_event,
}

abbrev pub lower_letter : ℕ → ℕ
lower_letter c = if leb b'A' c && leb c b'Z' then c + 32 else c

abbrev pub upper_letter : ℕ → ℕ
upper_letter c = if leb b'a' c && leb c b'z' then c - 32 else c

unfoldable pub lower : Text → Text
lower [] = []
lower (c ∷ s) = lower_letter c ∷ lower s

unfoldable pub upper : Text → Text
upper [] = []
upper (c ∷ s) = upper_letter c ∷ upper s

pub data AlertRuleTimeAggregation : Type 0 where
  instant window limit_window : AlertRuleTimeAggregation

pub data AlertRuleWindowSize : Type 0 where
  five_minutes fifteen_minutes one_hour six_hours one_day : AlertRuleWindowSize

pub data AlertRuleChannel : Type 0 where
  email : AlertRuleChannel

-- A member with its value and its name.
pub record Member (A : Type 0) : Type 0 where
  pub member : A
  pub value : Text
  pub name : Text

module _ {A : Type 0} where
  -- Looking a value up, as `Enum` does before it asks `_missing_`.
  unfoldable pub by_value : Text → List (Member A) → Option A
  by_value s [] = none
  by_value s (m ∷ ms) = if text_eq m.value s then some m.member else by_value s ms

  -- `_LenientEnum._missing_`
  unfoldable pub missing : Text → List (Member A) → Option A
  unfolding lower upper
  missing s [] = none
  missing s (m ∷ ms) =
      if text_eq m.value (lower s) || text_eq m.name (upper s) then some m.member else missing s ms

  or_missing : Option A → Option A → Option A
  or_missing (some a) other = some a
  or_missing none other = other

  -- A call of a `_LenientEnum` class, which raises a ValueError where this is `none`.
  unfoldable pub lenient : List (Member A) → Text → Option A
  unfolding by_value missing or_missing
  lenient ms s = or_missing (by_value s ms) (missing s ms)

unfoldable pub scopes : List (Member LimitScope)
scopes =
    record { member = route; value = text "route"; name = text "ROUTE" }
    ∷ record { member = project; value = text "project"; name = text "PROJECT" }
    ∷ record { member = credential; value = text "credential"; name = text "CREDENTIAL" }
    ∷ []

unfoldable pub scope_value : LimitScope → Text
scope_value route = text "route"
scope_value project = text "project"
scope_value credential = text "credential"

unfoldable pub time_aggregations : List (Member AlertRuleTimeAggregation)
time_aggregations =
    record { member = instant; value = text "instant"; name = text "INSTANT" }
    ∷ record { member = window; value = text "window"; name = text "WINDOW" }
    ∷ record { member = limit_window; value = text "limit_window"; name = text "LIMIT_WINDOW" }
    ∷ []

unfoldable pub window_sizes : List (Member AlertRuleWindowSize)
window_sizes =
    record { member = five_minutes; value = text "5m"; name = text "FIVE_MINUTES" }
    ∷ record { member = fifteen_minutes; value = text "15m"; name = text "FIFTEEN_MINUTES" }
    ∷ record { member = one_hour; value = text "1h"; name = text "ONE_HOUR" }
    ∷ record { member = six_hours; value = text "6h"; name = text "SIX_HOURS" }
    ∷ record { member = one_day; value = text "24h"; name = text "ONE_DAY" }
    ∷ []

unfoldable pub size_value : AlertRuleWindowSize → Text
size_value five_minutes = text "5m"
size_value fifteen_minutes = text "15m"
size_value one_hour = text "1h"
size_value six_hours = text "6h"
size_value one_day = text "24h"

unfoldable pub channels : List (Member AlertRuleChannel)
channels = record { member = email; value = text "email"; name = text "EMAIL" } ∷ []

-- A row of the table. A uuid is its canonical text.
pub record AlertRule : Type 0 where
  pub uuid : Text
  pub name : Text
  pub description : Option Text
  pub scope : Text
  pub project : Option Text
  pub route : Option Text
  pub credential_uuid : Option Text
  pub event : Text
  pub time_aggregation : Text
  pub window_size : Option Text
  pub channel : Text
  pub recipients : Text
  pub enabled : Bool
  pub deleted : Bool

-- What `json.loads` makes of the recipients: it raises, or returns a list of texts or another value,
-- which the model of the response refuses.
pub data Loaded : Type 0 where
  malformed : Loaded
  texts : List Text → Loaded
  other_value : Loaded

-- `X(value) if value else default`, whether it raises nothing
unfoldable pub acceptable : {A : Type 0} → List (Member A) → Text → Bool
unfolding lenient
acceptable ms [] = true
acceptable ms (c ∷ s) = elim (lenient ms (c ∷ s)) [ none ↦ false | some a ↦ true ]

unfoldable pub acceptable_size : Option Text → Bool
unfolding acceptable window_sizes
acceptable_size none = true
acceptable_size (some s) = acceptable window_sizes s

-- The library functions of the recipients: `json.loads`, and `r.strip()` for each part of
-- `split(',')`.
module _ (loads : Text → Loaded) (split_parts : Text → List Text) where
  unfoldable pub parsed_recipients : Text → Option (List Text)
  parsed_recipients [] = some []
  parsed_recipients (c ∷ s) = elim (loads (c ∷ s)) [
    | malformed ↦ some (split_parts (c ∷ s))
    | texts rs ↦ some rs
    | other_value ↦ none
  ]

  -- `AlertRuleOut.from_alert_rule(rule).recipients`
  unfoldable pub recipients_of : AlertRule → Option (List Text)
  unfolding parsed_recipients acceptable acceptable_size scopes time_aggregations channels
  recipients_of rule =
      if acceptable scopes rule.scope
        && (acceptable time_aggregations rule.time_aggregation
            && (acceptable_size rule.window_size && acceptable channels rule.channel))
      then parsed_recipients rule.recipients
      else none

-- Whether a nullable column equals a value.
unfoldable pub column_eq : Option Text → Text → Bool
unfolding text_eq
column_eq none s = false
column_eq (some t) s = text_eq t s

unfoldable pub select : {A : Type 0} → (A → Bool) → List A → List A
select p [] = []
select p (x ∷ xs) = if p x then x ∷ select p xs else select p xs

unfoldable pub first : {A : Type 0} → List A → Option A
first [] = none
first (x ∷ xs) = some x

-- `_get_enabled`
unfoldable pub get_enabled : (AlertRule → Bool) → List AlertRule → List AlertRule
unfolding select
get_enabled condition = select (λ r. condition r && (r.enabled && not r.deleted))

unfoldable pub get_enabled_route_rules : List AlertRule → Text → Text → List AlertRule
unfolding get_enabled column_eq
get_enabled_route_rules table project_uuid route_name =
    get_enabled
      (λ r.
        text_eq r.scope (text "route")
        && (column_eq r.project project_uuid && column_eq r.route route_name))
      table

unfoldable pub get_enabled_project_rules : List AlertRule → Text → List AlertRule
unfolding get_enabled column_eq
get_enabled_project_rules table project_uuid =
    get_enabled (λ r. text_eq r.scope (text "project") && column_eq r.project project_uuid) table

unfoldable pub get_enabled_credential_rules : List AlertRule → Text → List AlertRule
unfolding get_enabled column_eq
get_enabled_credential_rules table credential_uuid =
    get_enabled
      (λ r. text_eq r.scope (text "credential") && column_eq r.credential_uuid credential_uuid)
      table

unfoldable pub get_by_uuid : List AlertRule → Text → Option AlertRule
unfolding select first
get_by_uuid table uuid = first (select (λ r. text_eq r.uuid uuid && not r.deleted) table)

-- The payloads of models/event_payload.py that the dispatcher tells apart.
pub data EventPayload : Type 0 where
  guardrail_event : RequestIdentity → (name type place behavior : Text) → EventPayload
  fallback_event : RequestIdentity → (target fallback : Text) → EventPayload
  limit_event : LimitEventPayload → EventPayload
  other_event : RequestIdentity → EventPayload

abbrev pub identity_of : EventPayload → RequestIdentity
identity_of (guardrail_event identity name type place behavior) = identity
identity_of (fallback_event identity target fallback) = identity
identity_of (limit_event limit) = limit.identity
identity_of (other_event identity) = identity

pub record AlertEvent : Type 0 where
  pub key : Text
  pub scope : LimitScope

unfoldable pub limit_key : LimitCategory → ℕ → Option ℕ → Option Text
unfolding exceeded_event threshold_event
limit_key category window_seconds none = exceeded_event category window_seconds
limit_key category window_seconds (some percentage) =
    threshold_event category percentage window_seconds

unfoldable pub in_scope : LimitScope → Option Text → Option AlertEvent
in_scope scope none = none
in_scope scope (some key) = some (record { key = key; scope = scope })

-- `alert_event`. Every window has a name, so that it raises nothing: seconds divide all.
unfoldable pub alert_event : EventPayload → Option AlertEvent
unfolding lower category_by_scenario limit_key in_scope
alert_event (guardrail_event identity name type place behavior) =
    some
      (record { key = lower (text "guardrail-" ++ (place ++ (text "-" ++ name))); scope = route })
alert_event (fallback_event identity target fallback) =
    some (record { key = text "fallback-triggered"; scope = route })
alert_event (limit_event event) = elim (category_by_scenario event.limit.category) [
  | none ↦ none
  | some category ↦
      in_scope event.limit.limit_scope
        (limit_key category event.limit.window_seconds event.threshold_percentage)
]
alert_event (other_event identity) = none

-- `_target`
unfoldable pub target_of : LimitScope → RequestIdentity → Text
target_of route identity = identity.project_name ++ (text " / " ++ identity.route_name)
target_of project identity = identity.project_name
target_of credential identity = identity.api_key_name

more_details : EventPayload → List (Text × Text)
more_details (guardrail_event identity name type place behavior) =
    (text "Guardrail type", type) ∷ (text "Guardrail behaviour", behavior) ∷ []
more_details (fallback_event identity target fallback) =
    (text "Fallback", target ++ (text " → " ++ fallback)) ∷ []
more_details (limit_event event) = []
more_details (other_event identity) = []

-- `_instant_details`
unfoldable pub instant_details : EventPayload → List (Text × Text)
unfolding more_details
instant_details event =
    (text "Credential", (identity_of event).api_key_name)
    ∷ (text "Group", (identity_of event).group_name)
    ∷ more_details event
