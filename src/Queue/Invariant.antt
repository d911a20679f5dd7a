-- ===== src/Queue/Invariant.antt =====
-- What holds of the queue's tables between two operations; validateQueueInvariants of
-- database_security.go tests a part of it at every health check.
pub mod Jobs
pub mod Tasks
pub mod Keeps
use index_01_hook.Base.{ℕ, ◌≤◌, ◌≡◌, Bool, true, false, not, ◌&&◌, List, [], ◌==◌, is_some, All}
use index_01_hook.Base.Rows.{any_row, count_rows}
use index_01_hook.Queue.Types.{
  QueueState, pending, leased, retry, frozen, completed, in_review, Workflow, received, extracting,
  extracted, creating, retry_wait, blocked_auth, needs_review, dead_letter, complete, ExtractionJob,
  Attempt, DeliveryTask, Store,
}
use index_01_hook.Queue.Schema.{is_leased, is_completed, is_settled, is_terminal}
use index_01_hook.Queue.Ledger.{Ledger}

-- The WHERE NOT (…) of the two queries of validateQueueInvariants.
abbrev pub job_states_agree : QueueState → Workflow → Bool
job_states_agree pending received = true
job_states_agree leased extracting = true
job_states_agree retry retry_wait = true
job_states_agree frozen extracted = true
job_states_agree completed complete = true
job_states_agree in_review blocked_auth = true
job_states_agree in_review needs_review = true
job_states_agree in_review dead_letter = true
job_states_agree _ _ = false

abbrev pub task_states_agree : QueueState → Workflow → Bool
task_states_agree pending extracted = true
task_states_agree leased creating = true
task_states_agree retry retry_wait = true
task_states_agree completed complete = true
task_states_agree in_review blocked_auth = true
task_states_agree in_review needs_review = true
task_states_agree in_review dead_letter = true
task_states_agree _ _ = false

-- `true` where validateQueueInvariants returns nil.
unfoldable pub validate_queue_invariants : Store → Bool
unfolding count_rows
validate_queue_invariants s =
    count_rows (λ (j : ExtractionJob). not (job_states_agree j.state j.workflow_state))
        s.extraction_jobs
      == 0
    && count_rows (λ (t : DeliveryTask). not (task_states_agree t.state t.workflow_state))
        s.delivery_tasks
      == 0

pub record JobInv (j : ExtractionJob) : Type 0 where
  pub agrees : job_states_agree j.state j.workflow_state ≡ true
  pub lease_held : is_some j.lease ≡ is_leased j.state
  pub cycle_within : j.cycle_attempt_count ≤ j.attempt_count
  pub completion : is_some j.completed_at ≡ is_completed j.state

pub record TaskInv (t : DeliveryTask) : Type 0 where
  pub agrees : task_states_agree t.state t.workflow_state ≡ true
  pub lease_held : is_some t.lease ≡ is_leased t.state
  pub cycle_within : t.cycle_attempt_count ≤ t.attempt_count
  pub completion : is_some t.completed_at ≡ is_completed t.state
  pub delivered : is_some t.tick_tick_task_id ≡ is_completed t.state

-- A delivery task belongs to a recording whose extraction is frozen or complete.
abbrev pub settled_for : ℕ → ExtractionJob → Bool
settled_for rid j = j.recording_id == rid && is_settled j.state

abbrev pub Settled : List ExtractionJob → DeliveryTask → Type 0
Settled jobs t = any_row (settled_for t.recording_id) jobs ≡ true

abbrev pub JobLedger : List ExtractionJob → List Attempt → Type 0
JobLedger =
    Ledger (λ (j : ExtractionJob). j.recording_id) (λ (j : ExtractionJob). j.attempt_count)
      (λ (j : ExtractionJob). is_leased j.state)

abbrev pub TaskLedger : List DeliveryTask → List Attempt → Type 0
TaskLedger =
    Ledger (λ (t : DeliveryTask). t.id) (λ (t : DeliveryTask). t.attempt_count)
      (λ (t : DeliveryTask). is_leased t.state)

pub record QueueInv (jobs : List ExtractionJob) (job_attempts : List Attempt)
    (tasks : List DeliveryTask) (task_attempts : List Attempt) : Type 0 where
  pub job_rows : All JobInv jobs
  pub job_ledger : JobLedger jobs job_attempts
  pub task_rows : All TaskInv tasks
  pub task_ledger : TaskLedger tasks task_attempts
  pub settled : All (Settled jobs) tasks

abbrev pub Inv : Store → Type 0
Inv s = QueueInv s.extraction_jobs s.extraction_attempts s.delivery_tasks s.delivery_attempts
