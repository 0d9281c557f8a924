-- ===== src/Limiting/Project/Clear.antt =====
-- `clear_project_budget_limit_counter` of limiting/project_budget_limiter.py.
use mathlib.Core.Path.{subst}
use radicalbit_ai_gateway.Prelude.{◌≡◌, sym, ap, ◌∙◌, Text, text}
use radicalbit_ai_gateway.Prelude.Result.{Result, ok, >>=-eq-ok}
use radicalbit_ai_gateway.Limiter.Machine.{Machine, Op}
use radicalbit_ai_gateway.Limiter.Storage.{Storage, IsBackend}
use radicalbit_ai_gateway.Limiter.Window.{budget, of_text, from_parts}
use radicalbit_ai_gateway.Limiter.Base.{build_key}
use radicalbit_ai_gateway.Limiting.Floats.{Floats}
use radicalbit_ai_gateway.Limiting.Event.{budget_multiplier}
use radicalbit_ai_gateway.Limiting.Room.{Active, class_of}
use radicalbit_ai_gateway.Limiting.Entries.Counts.{key_of}
use radicalbit_ai_gateway.Limiting.Credential.Clear.{
  ClearError, class_named, class_named_lem, algorithm_value, window_or_error, delete_window,
  window_of_limit, Cleared, delete_window-Cleared,
}
use radicalbit_ai_gateway.Limiting.Project.Build.{ProjectBudgetLimitOut, build_project_entry}

module _ {S : Type 0} (storage : Storage S) where
  unfoldable pub clear_project_budget_limit_counter :
      Text → Text → Text → Op S (Result ClearError (Unit {0}))
  unfolding class_named from_parts delete_window
  clear_project_budget_limit_counter project_uuid algorithm window_size =
      delete_window storage (class_named algorithm)
        (window_or_error (from_parts 0 (of_text window_size) project_uuid (text "*") budget))

  module _ (law : IsBackend storage) (F : Floats) where
    open F use {of_int, times, trunc}

    -- Clearing with the texts of a limit that the project has starts its counter anew, whatever the
    -- limit's value is, and leaves the counter of every other key.
    pub clear_project_budget_limit_counter-Cleared :
        (project_uuid : Text) (limit : ProjectBudgetLimitOut F) (a : Active) (m : Machine S)
        → build_project_entry F project_uuid limit ≡ ok a
        → Cleared law (key_of a) m (
            clear_project_budget_limit_counter project_uuid
              (algorithm_value limit.algorithm)
              limit.window_size
              m)
    unfolding clear_project_budget_limit_counter build_project_entry
    clear_project_budget_limit_counter-Cleared project_uuid limit a m h =
        let size = of_text limit.window_size in
        let n = trunc (times limit.value (of_int budget_multiplier)) in
        let cls = class_of limit.algorithm in
        let (window, built, e) =
          >>=-eq-ok (from_parts n size project_uuid (text "*") budget)
            (λ x. ok (record { limiter = cls; item = x })) h in
        let (item, cleared, key) =
          window_of_limit n size project_uuid (text "*") budget window built in
        let entry : record { limiter = cls; item = window } ≡ a = cc in
        let same : key_of a ≡ build_key cls item = sym (key cls ∙ ap key_of entry) in
        rw (class_named_lem limit.algorithm, cleared)
          (subst (λ k. Cleared law k m (delete_window storage cls (ok item) m)) (sym same)
            (delete_window-Cleared storage law cls item m))
