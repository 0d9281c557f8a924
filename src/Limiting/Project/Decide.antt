-- ===== src/Limiting/Project/Decide.antt =====
-- limiting/project_budget_limiter.py: what a check decides.
use radicalbit_ai_gateway.Limiter.Storage.{Storage}
use radicalbit_ai_gateway.Limiting.World.{World}
