-- ===== src/Limiting/Entries.antt =====
-- What limiting/credential_limiter.py and limiting/project_budget_limiter.py share: several windows
-- that a request has to pass, all tested before any is counted. Of a `_LimitEntry` it keeps the
-- limiter and the window; the configured limit is read for the text of messages only.
pub mod Verdict
pub mod Counts
use radicalbit_ai_gateway.Prelude.{ℕ, Bool, true, false, Option, none, some, List, [], ◌∷◌}
use radicalbit_ai_gateway.Limiter.Machine.{Env}
use radicalbit_ai_gateway.Limiter.Storage.{Storage}
use radicalbit_ai_gateway.Limiter.Base.{WindowStats, test, get_window_stats}
use radicalbit_ai_gateway.Limiting.World.{
  RequestIdentity, LimitScope, Exec, ◌>>=◌, ◌>>◌, pure, skip, lift,
}
use radicalbit_ai_gateway.Limiting.Room.{Active}
use radicalbit_ai_gateway.Limiting.Event.{consume_and_emit_thresholds}

abbrev pub Exceeded : Type 0
Exceeded = Option (Active × WindowStats)

module _ {S : Type 0} (env : Env) (storage : Storage S) where
  stop_or_go : Bool → Active → Exec S Exceeded → Exec S Exceeded
  stop_or_go true entry rest = rest
  stop_or_go false entry rest = do
    stats ← lift (get_window_stats env storage entry.limiter entry.item)
    pure (some (entry, stats))

  -- `_first_exceeded`
  unfoldable pub first_exceeded : ℕ → List Active → Exec S Exceeded
  unfolding stop_or_go
  first_exceeded cost [] = pure none
  first_exceeded cost (entry ∷ entries) = do
    allowed ← lift (test env storage entry.limiter entry.item cost)
    stop_or_go allowed entry (first_exceeded cost entries)

-- `if exceeded is not None: entry, stats = exceeded; …`
unfoldable pub if_exceeded :
    {S : Type 0} → (Active → WindowStats → Exec S (Unit {0})) → Exceeded → Exec S (Unit {0})
if_exceeded refuse none = skip
if_exceeded refuse (some (entry, stats)) = refuse entry stats

module _ {S : Type 0} (env : Env) (storage : Storage S) (alert_threshold_percentages : List ℕ) where
  -- `_hit`
  unfoldable pub hit_all : LimitScope → ℕ → RequestIdentity → List Active → Exec S (Unit {0})
  hit_all scope cost identity [] = skip
  hit_all scope cost identity (entry ∷ entries) =
      consume_and_emit_thresholds env storage alert_threshold_percentages entry.limiter entry.item
        cost scope identity
      >> hit_all scope cost identity entries
