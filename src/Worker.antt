-- ===== src/Worker.antt =====
-- worker.go: what a worker asks of the providers and does to the store with their answers.
pub mod Retry
pub mod Setup
pub mod Provider
pub mod Verifier
pub mod Delivery
pub mod Extraction
pub mod Cycle
mod Tests
use index_01_hook.Base.{ℕ, List, Option}
use index_01_hook.Base.Int.{ℤ}
use index_01_hook.Queue.Types.{Text}

-- `WorkerConfig`, as far as NewWorker lets it pass, without its verifiers, its logger and its
-- routing evidence; durations are numbers of nanoseconds.
pub record WorkerConfig : Type 0 where
  pub owner : Text
  pub time_zone : Text
  pub lease_duration : ℕ
  pub poll_interval : ℕ
  pub retry_base : ℕ
  pub retry_maximum : ℕ
  pub extraction_max_attempts : ℕ
  pub delivery_max_attempts : ℕ
  pub reconcile_max_attempts : ℕ
  pub project_aliases : List Text
  -- the random source, which the worker does not trust
  pub jitter : ℕ → ℤ
