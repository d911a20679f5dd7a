-- ===== src/Health/Owner.antt =====
-- The row of health.go between two starts: its owner alone changes it.
use index_01_hook.Base.{ℕ, Bool, some, List, [], ◌∷◌, if◌then◌else◌}
use index_01_hook.Base.Int.{ℤ}
use index_01_hook.Base.Text.{Text, text_eq, trim_space}
use index_01_hook.Health.{
  Provider, WorkerHealth, HealthResult, recorded, refused, worker_cycle_completed, worker_stopped,
  record_provider_latency,
}

-- The updates of the row that start no worker and no cycle.
pub data HealthUpdate : Type 0 where
  completes : (now : ℕ) (owner : Text) (failed : Bool) → HealthUpdate
  stops : (now : ℕ) (owner : Text) → HealthUpdate
  observes :
      (now : ℕ) (owner : Text) (provider : Provider) (duration : ℤ) (failed : Bool) → HealthUpdate

abbrev pub updater : HealthUpdate → Text
updater (completes now owner failed) = owner
updater (stops now owner) = owner
updater (observes now owner provider duration failed) = owner

abbrev pub update : HealthUpdate → WorkerHealth → HealthResult
update (completes now owner failed) row = worker_cycle_completed (some row) now owner failed
update (stops now owner) row = worker_stopped (some row) now owner
update (observes now owner provider duration failed) row =
    record_provider_latency (some row) now owner provider duration failed

-- A refused update leaves the row.
abbrev pub row_after : WorkerHealth → HealthResult → WorkerHealth
row_after row (recorded new) = new
row_after row (refused e) = row

unfoldable pub updates : List HealthUpdate → WorkerHealth → WorkerHealth
unfolding worker_cycle_completed worker_stopped record_provider_latency
updates [] row = row
updates (u ∷ us) row = updates us (row_after row (update u row))

-- The updates by the worker of this name.
unfoldable pub updates_by : Text → List HealthUpdate → List HealthUpdate
unfolding text_eq trim_space
updates_by name [] = []
updates_by name (u ∷ us) =
    let rest = updates_by name us in
    if text_eq name (trim_space (updater u)) then u ∷ rest else rest
