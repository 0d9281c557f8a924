-- ===== src/Limiting/Credential/Clear.antt =====
-- `clear_limit_counter` of limiting/credential_limiter.py.
use mathlib.Core.Path.{subst}
use radicalbit_ai_gateway.Prelude.{
  ℕ, ◌≤◌, ◌≡◌, ◌≢◌, refl, sym, ap, ◌∙◌, Option, none, some, Text, text, text_eq, if◌then◌else◌,
}
use radicalbit_ai_gateway.Prelude.Result.{Result, ok, err, or_err, ◌>>=◌, >>=-eq-ok}
use radicalbit_ai_gateway.Limiter.Machine.{Machine, Op}
use radicalbit_ai_gateway.Limiter.Storage.{Storage, live, value_of, IsBackend}
use radicalbit_ai_gateway.Limiter.Window.{
  ScenarioType, request_rate, token_input, token_output, budget, audio_duration, scenario_value,
  WindowError, WindowConfig, WindowSize, of_text, window_size_seconds, from_parts,
}
use radicalbit_ai_gateway.Limiter.Base.{LimiterClass, build_key}
use radicalbit_ai_gateway.Limiter.Base.Counting.{counted, set_cell_self, set_cell_ne}
use radicalbit_ai_gateway.Limiting.Floats.{Floats}
use radicalbit_ai_gateway.Limiting.Config.{
  LimitingAlgorithmType, fixed_window, aligned_fixed_window,
}
use radicalbit_ai_gateway.Limiting.Room.{Active, class_of}
use radicalbit_ai_gateway.Limiting.Entries.Counts.{key_of}
use radicalbit_ai_gateway.Limiting.Credential.{
  Category, rate, input, output, spending, scenario_of, CredentialLimitOut, limit_of, build_entry,
}

-- The `ValueError` of an unknown category, or of the window.
pub data ClearError : Type 0 where
  unknown_category : ClearError
  bad_window : WindowError → ClearError

-- `ScenarioType(category)`
unfoldable pub scenario_named : Text → Option ScenarioType
unfolding scenario_value
scenario_named s =
    if text_eq (scenario_value request_rate) s
    then some request_rate
    else if text_eq (scenario_value token_input) s
    then some token_input
    else if text_eq (scenario_value token_output) s
    then some token_output
    else if text_eq (scenario_value budget) s
    then some budget
    else if text_eq (scenario_value audio_duration) s
    then some audio_duration
    else none

-- `.value` of the algorithms
unfoldable pub algorithm_value : LimitingAlgorithmType → Text
algorithm_value fixed_window = text "FIXED_WINDOW"
algorithm_value aligned_fixed_window = text "ALIGNED_FIXED_WINDOW"

-- `limiter_cls`
unfoldable pub class_named : Text → LimiterClass
unfolding class_of algorithm_value
class_named algorithm =
    if text_eq algorithm (algorithm_value aligned_fixed_window)
    then class_of aligned_fixed_window
    else class_of fixed_window

abbrev pub window_or_error : Result WindowError WindowConfig → Result ClearError WindowConfig
window_or_error (ok item) = ok item
window_or_error (err e) = err (bad_window e)

unfoldable pub cleared_window : Text → Text → Text → Result ClearError WindowConfig
unfolding scenario_named from_parts
cleared_window credential_uuid category window_size = do
  scenario_type ← or_err unknown_category (scenario_named category)
  window_or_error (from_parts 0 (of_text window_size) credential_uuid (text "*") scenario_type)

module _ {S : Type 0} (storage : Storage S) where
  unfoldable pub delete_window :
      LimiterClass → Result ClearError WindowConfig → Op S (Result ClearError (Unit {0}))
  delete_window cls (ok item) m =
      let (done, m') = storage.delete (build_key cls item) m in (ok done, m')
  delete_window cls (err e) m = (err e, m)

  unfoldable pub clear_limit_counter :
      Text → Text → Text → Text → Op S (Result ClearError (Unit {0}))
  unfolding delete_window cleared_window class_named
  clear_limit_counter credential_uuid category algorithm window_size =
      delete_window (class_named algorithm) (cleared_window credential_uuid category window_size)

scenario_named_lem :
    (c : Category) → scenario_named (scenario_value (scenario_of c)) ≡ some (scenario_of c)
unfolding scenario_named scenario_value scenario_of text_eq
scenario_named_lem rate = refl
scenario_named_lem input = refl
scenario_named_lem output = refl
scenario_named_lem spending = refl

pub class_named_lem : (a : LimitingAlgorithmType) → class_named (algorithm_value a) ≡ class_of a
unfolding class_named algorithm_value class_of text_eq
class_named_lem fixed_window = refl
class_named_lem aligned_fixed_window = refl

-- A window's key does not depend on its limit.
pub window_of_limit :
    (n : ℕ) (size : WindowSize) (owner route_name : Text) (scenario_type : ScenarioType)
    (item : WindowConfig)
    → from_parts n size owner route_name scenario_type ≡ ok item
    → (item' : WindowConfig) × (from_parts 0 size owner route_name scenario_type ≡ ok item')
      × ((cls : LimiterClass) → build_key cls item' ≡ build_key cls item)
unfolding from_parts build_key
window_of_limit n size owner route_name scenario_type item h =
    let (seconds, size_ok, e) = >>=-eq-ok (window_size_seconds size) _ h in
    let with_limit : ℕ → WindowConfig = λ limit. record {
      limit = limit;
      window_seconds = seconds;
      project_uuid = owner;
      route_name = route_name;
      scenario_type = scenario_type;
    } in
    let same : with_limit n ≡ item = cc in
    let with_seconds : ℕ → WindowConfig = λ n. record {
      limit = 0;
      window_seconds = n;
      project_uuid = owner;
      route_name = route_name;
      scenario_type = scenario_type;
    } in
    (
      with_limit 0,
      ap (λ (r : Result WindowError ℕ). r >>= λ n. ok (with_seconds n)) size_ok,
      λ cls. ap (build_key cls) same,
    )

module _ {S : Type 0} {storage : Storage S} (law : IsBackend storage) where
  -- A window's counter starts anew, and the others stay.
  pub record Cleared (key : Text) (m : Machine S) (r : Result ClearError (Unit {0}) × Machine S)
      : Type 0 where
    pub returns : r.0 ≡ ok tt
    pub own : (t : ℕ) → r.1.clock ≤ t → counted law.cells t r.1.store key ≡ 0
    pub others :
        (t : ℕ) (j : Text)
        → r.1.clock ≤ t
        → key ≢ j
        → live t (law.cells r.1.store j) ≡ live t (law.cells m.store j)

module _ {S : Type 0} (storage : Storage S) (law : IsBackend storage) where
  pub delete_window-Cleared :
      (cls : LimiterClass) (item : WindowConfig) (m : Machine S)
      → Cleared law (build_key cls item) m (delete_window storage cls (ok item) m)
  unfolding delete_window
  delete_window-Cleared cls item m =
      let key = build_key cls item in
      let d = law.delete_lem key m in
      record {
        returns = refl;
        own = λ t h.
            ap value_of
              (d.effect t key h ∙ ap (live t) (set_cell_self key none (law.cells m.store)));
        others = λ t j h ne.
            d.effect t j h ∙ ap (live t) (set_cell_ne key j none (law.cells m.store) ne);
      }

  module _ (F : Floats) where
    -- Clearing with the texts of a limit that the credential has starts its counter anew, whatever
    -- the limit's value is, and leaves the counter of every other key.
    pub clear_limit_counter-Cleared :
        (credential_uuid : Text) (limit : CredentialLimitOut F) (a : Active) (m : Machine S)
        → build_entry F credential_uuid limit ≡ ok a
        → Cleared law (key_of a) m (
            clear_limit_counter storage credential_uuid
              (scenario_value (scenario_of limit.category))
              (algorithm_value limit.algorithm)
              limit.window_size
              m)
    unfolding clear_limit_counter cleared_window build_entry
    clear_limit_counter-Cleared credential_uuid limit a m h =
        let size = of_text limit.window_size in
        let scenario_type = scenario_of limit.category in
        let cls = class_of limit.algorithm in
        let (window, built, e) =
          >>=-eq-ok
            (from_parts (limit_of F limit.category limit.value) size credential_uuid (text "*")
              scenario_type)
            (λ x. ok (record { limiter = cls; item = x })) h in
        let (item, cleared, key) =
          window_of_limit (limit_of F limit.category limit.value) size credential_uuid (text "*")
            scenario_type window built in
        let entry : record { limiter = cls; item = window } ≡ a = cc in
        let same : key_of a ≡ build_key cls item = sym (key cls ∙ ap key_of entry) in
        rw (scenario_named_lem limit.category, class_named_lem limit.algorithm, cleared)
          (subst (λ k. Cleared law k m (delete_window storage cls (ok item) m)) (sym same)
            (delete_window-Cleared cls item m))
