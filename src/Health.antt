-- ===== src/Health.antt =====
-- health.go: the row that a worker keeps of itself, and the report that is derived from it and from
-- the queue.
pub mod Stamp
pub mod Report
pub mod Owner
pub mod Sound
mod Tests
use index_01_hook.Base.{ℕ, ◌/◌, ◌*◌, Bool, true, false, Option, none, some, if◌then◌else◌}
use index_01_hook.Base.Int.{ℤ, pos, negsuc}
use index_01_hook.Base.Text.{Text, text_eq, is_blank, trim_space}

pub data Provider : Type 0 where
  deepseek ticktick typesafe unlisted_provider : Provider

pub data WorkerState : Type 0 where
  running stopped : WorkerState

-- The three columns of a provider.
pub record Latency : Type 0 where
  pub last_latency_ms : Option ℕ
  pub last_observed_at : Option ℕ
  pub last_failed : Bool

-- The row of `worker_health`; the table has one row at most.
pub record WorkerHealth : Type 0 where
  pub owner : Text
  pub state : WorkerState
  pub started_at : ℕ
  pub heartbeat_at : ℕ
  pub last_cycle_started_at : Option ℕ
  pub last_cycle_completed_at : Option ℕ
  pub last_cycle_failed : Bool
  pub deepseek_latency : Latency
  pub ticktick_latency : Latency
  pub typesafe_latency : Latency

pub data HealthError : Type 0 where
  owner_required provider_invalid row_missing : HealthError

-- What a statement leaves in the table, or why it fails; a failure leaves the table as it was.
pub data HealthResult : Type 0 where
  recorded : WorkerHealth → HealthResult
  refused : HealthError → HealthResult

abbrev pub no_latency : Latency
no_latency = record { last_latency_ms = none; last_observed_at = none; last_failed = false }

abbrev pub fresh_row : Text → ℕ → WorkerHealth
fresh_row owner now = record {
  owner = owner;
  state = running;
  started_at = now;
  heartbeat_at = now;
  last_cycle_started_at = none;
  last_cycle_completed_at = none;
  last_cycle_failed = false;
  deepseek_latency = no_latency;
  ticktick_latency = no_latency;
  typesafe_latency = no_latency;
}

-- `WorkerStarted`: the conflict clause sets every column that the insertion sets.
unfoldable pub worker_started : Option WorkerHealth → ℕ → Text → HealthResult
unfolding trim_space
worker_started h now owner =
    if is_blank (trim_space owner)
    then refused owner_required
    else recorded (fresh_row (trim_space owner) now)

abbrev pub cycle_row : Option WorkerHealth → Text → ℕ → WorkerHealth
cycle_row none owner now = record (fresh_row owner now) { last_cycle_started_at = some now }
cycle_row (some row) owner now = record row {
  owner = owner;
  state = running;
  heartbeat_at = now;
  last_cycle_started_at = some now;
}

unfoldable pub worker_cycle_started : Option WorkerHealth → ℕ → Text → HealthResult
unfolding trim_space
worker_cycle_started h now owner =
    if is_blank (trim_space owner)
    then refused owner_required
    else recorded (cycle_row h (trim_space owner) now)

-- `UPDATE worker_health SET … WHERE singleton = 1 AND owner = ?`, and `requireHealthRow`.
unfoldable pub update_owned :
    Option WorkerHealth → Text → (WorkerHealth → WorkerHealth) → HealthResult
unfolding text_eq trim_space
update_owned none owner f = refused row_missing
update_owned (some row) owner f =
    if text_eq row.owner (trim_space owner) then recorded (f row) else refused row_missing

unfoldable pub worker_cycle_completed : Option WorkerHealth → ℕ → Text → Bool → HealthResult
unfolding update_owned
worker_cycle_completed h now owner failed = update_owned h owner (λ row. record row {
  heartbeat_at = now;
  last_cycle_completed_at = some now;
  last_cycle_failed = failed;
})

unfoldable pub worker_stopped : Option WorkerHealth → ℕ → Text → HealthResult
unfolding update_owned
worker_stopped h now owner =
    update_owned h owner (λ row. record row { state = stopped; heartbeat_at = now })

-- `duration.Milliseconds()` of a duration that is raised to 0.
abbrev pub milliseconds : ℤ → ℕ
milliseconds (pos d) = d / 1_000_000
milliseconds (negsuc d) = 0

abbrev pub observed : ℤ → ℕ → Bool → Latency
observed duration now failed = record {
  last_latency_ms = some (milliseconds duration);
  last_observed_at = some now;
  last_failed = failed;
}

unfoldable pub record_provider_latency :
    Option WorkerHealth → ℕ → Text → Provider → ℤ → Bool → HealthResult
unfolding update_owned
record_provider_latency h now owner deepseek duration failed =
    update_owned h owner (λ row. record row { deepseek_latency = observed duration now failed })
record_provider_latency h now owner ticktick duration failed =
    update_owned h owner (λ row. record row { ticktick_latency = observed duration now failed })
record_provider_latency h now owner typesafe duration failed =
    update_owned h owner (λ row. record row { typesafe_latency = observed duration now failed })
record_provider_latency h now owner unlisted_provider duration failed = refused provider_invalid
