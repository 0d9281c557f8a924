-- ===== src/Limiting/Credential.antt =====
-- limiting/credential_limiter.py: the limits of the credential that calls, one list of windows for
-- each category. A limiter is built for each request. The backend is a parameter of its methods:
-- the Redis server, or an in-memory store, which the constructor makes anew and leaves empty.
pub mod Build
pub mod Checks
pub mod Clear
use radicalbit_ai_gateway.Prelude.{
  ℕ, ◌≡◌, Bool, true, false, Option, none, some, List, [], ◌∷◌, ◌++◌, Text, text, if◌then◌else◌,
}
use radicalbit_ai_gateway.Prelude.Result.{Result, ok, err, ◌>>=◌}
use radicalbit_ai_gateway.Limiter.Window.{
  ScenarioType, request_rate, token_input, token_output, budget, WindowError, WindowConfig, of_text,
  from_parts,
}
use radicalbit_ai_gateway.Limiting.Floats.{Floats}
use radicalbit_ai_gateway.Limiting.Event.{budget_multiplier}
use radicalbit_ai_gateway.Limiting.Config.{LimitingAlgorithmType}
use radicalbit_ai_gateway.Limiting.Room.{Active, class_of}

-- `CredentialLimitCategory`
pub data Category : Type 0 where
  rate input output spending : Category

-- `ScenarioType(category.value)`
unfoldable pub scenario_of : Category → ScenarioType
scenario_of rate = request_rate
scenario_of input = token_input
scenario_of output = token_output
scenario_of spending = budget

unfoldable pub same_category : Category → Category → Bool
same_category rate rate = true
same_category input input = true
same_category output output = true
same_category spending spending = true
same_category _ _ = false

-- `_entries`: the categories in the order in which they first occur.
abbrev pub Entries : Type 0
Entries = List (Category × List Active)

-- `_entries.get(category, [])`
unfoldable pub entries_of : Category → Entries → List Active
unfolding same_category
entries_of c [] = []
entries_of c ((d, l) ∷ m) = if same_category d c then l else entries_of c m

-- `category in _entries`
unfoldable pub has_category : Category → Entries → Bool
unfolding same_category
has_category c [] = false
has_category c ((d, l) ∷ m) = if same_category d c then true else has_category c m

-- `_entries.setdefault(category, []).append(entry)`
unfoldable pub append_entry : Category → Active → Entries → Entries
unfolding same_category
append_entry c a [] = (c, a ∷ []) ∷ []
append_entry c a ((d, l) ∷ m) =
    if same_category d c then (d, l ++ (a ∷ [])) ∷ m else (d, l) ∷ append_entry c a m

pub record CredentialLimiter : Type 0 where
  pub credential_uuid : Text
  pub credential_name : Text
  pub entries : Entries

module _ (F : Floats) where
  open F use {Float, of_int, times, trunc}

  -- The fields of a `CredentialLimitOut` that the limiter reads.
  pub record CredentialLimitOut : Type 0 where
    pub category : Category
    pub algorithm : LimitingAlgorithmType
    pub window_size : Text
    pub value : Float

  -- `window_limit`
  pub limit_of : Category → Float → ℕ
  limit_of spending value = trunc (times value (of_int budget_multiplier))
  limit_of _ value = trunc value

  -- `_build_entry`
  unfoldable pub build_entry : Text → CredentialLimitOut → Result WindowError Active
  unfolding limit_of from_parts scenario_of class_of
  build_entry credential_uuid limit = do
    window ←
        from_parts (limit_of limit.category limit.value) (of_text limit.window_size) credential_uuid
          (text "*") (scenario_of limit.category)
    ok (record { limiter = class_of limit.algorithm; item = window })

  -- The loop of the constructor.
  unfoldable pub add_entries : Text → List CredentialLimitOut → Entries → Result WindowError Entries
  add_entries credential_uuid [] entries = ok entries
  add_entries credential_uuid (limit ∷ limits) entries = do
    entry ← build_entry credential_uuid limit
    add_entries credential_uuid limits (append_entry limit.category entry entries)

  unfoldable pub credential_limiter :
      Text → Text → List CredentialLimitOut → Result WindowError CredentialLimiter
  credential_limiter credential_uuid credential_name limits = do
    entries ← add_entries credential_uuid limits []
    ok (record {
      credential_uuid = credential_uuid;
      credential_name = credential_name;
      entries = entries;
    })
