-- ===== src/Limiting/Project/Build.antt =====
-- limiting/project_budget_limiter.py: the constructor, and `load_project_budget_limiter`.
use radicalbit_ai_gateway.Prelude.{Option, none, some, List, [], ◌∷◌, Text, text}
use radicalbit_ai_gateway.Prelude.Result.{Result, ok, ◌>>=◌}
use radicalbit_ai_gateway.Limiter.Window.{budget, WindowError, of_text, from_parts}
use radicalbit_ai_gateway.Limiting.Floats.{Floats}
use radicalbit_ai_gateway.Limiting.Event.{budget_multiplier}
use radicalbit_ai_gateway.Limiting.Config.{LimitingAlgorithmType}
use radicalbit_ai_gateway.Limiting.Room.{Active, class_of}
use radicalbit_ai_gateway.Limiting.Project.{ProjectBudgetLimiter}

module _ (F : Floats) where
  open F use {Float, of_int, times, trunc}

  -- The fields of a `ProjectBudgetLimitOut` that the limiter reads.
  pub record ProjectBudgetLimitOut : Type 0 where
    pub algorithm : LimitingAlgorithmType
    pub window_size : Text
    pub value : Float

  -- `_build_entry`
  unfoldable pub build_project_entry : Text → ProjectBudgetLimitOut → Result WindowError Active
  unfolding from_parts class_of
  build_project_entry project_uuid limit = do
    window ←
        from_parts (trunc (times limit.value (of_int budget_multiplier)))
          (of_text limit.window_size) project_uuid (text "*") budget
    ok (record { limiter = class_of limit.algorithm; item = window })

  -- The loop of the constructor.
  unfoldable pub build_project_entries :
      Text → List ProjectBudgetLimitOut → Result WindowError (List Active)
  build_project_entries project_uuid [] = ok []
  build_project_entries project_uuid (limit ∷ limits) = do
    entry ← build_project_entry project_uuid limit
    entries ← build_project_entries project_uuid limits
    ok (entry ∷ entries)

  unfoldable pub project_limiter :
      Text → Text → List ProjectBudgetLimitOut → Result WindowError ProjectBudgetLimiter
  project_limiter project_uuid project_name limits = do
    entries ← build_project_entries project_uuid limits
    ok (record { project_uuid = project_uuid; project_name = project_name; entries = entries })

  if_limits :
      Text → Text → List ProjectBudgetLimitOut → Result WindowError (Option ProjectBudgetLimiter)
  if_limits project_uuid project_name [] = ok none
  if_limits project_uuid project_name (limit ∷ limits) = do
    self ← project_limiter project_uuid project_name (limit ∷ limits)
    ok (some self)

  -- `get_by_project_uuid` stands for the DAO's method on the UUID that the text names, with the rows
  -- as the limiter takes them; a text that names none, for which `UUID` raises, is left out.
  unfoldable pub load_project_budget_limiter :
      (Text → List ProjectBudgetLimitOut)
      → Text
      → Text
      → Result WindowError (Option ProjectBudgetLimiter)
  unfolding if_limits
  load_project_budget_limiter get_by_project_uuid [] project_name = ok none
  load_project_budget_limiter get_by_project_uuid (c ∷ cs) project_name =
      if_limits (c ∷ cs) project_name (get_by_project_uuid (c ∷ cs))
