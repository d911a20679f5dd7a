-- ===== src/Queue/Delivery.antt =====
-- The delivery queue of queue.go: claim, complete, retry, review, block and manual retry.
pub mod Finish
pub mod Claim
pub mod Complete
pub mod Restart
use index_01_hook.Base.{
  ℕ, ◌+◌, Bool, true, false, not, ◌&&◌, ◌||◌, Option, none, some, List, leb, ◌==◌, if◌then◌else◌,
}
use index_01_hook.Base.Rows.{any_row, find_row, count_rows, first_row}
use index_01_hook.Base.Text.{Text, text_eq, is_blank, trim_space}
use index_01_hook.Queue.Types.{
  Outcome, retryable, authentication, configuration, malformed, ambiguous, review, created,
  reconciled, QueueState, pending, leased, retry, completed, in_review, Workflow, extracted,
  creating, retry_wait, needs_review, complete, Recording, ExtractionJob, Attempt, DeliveryTask,
  DeliveryClaim, DeliveryCompletion, Store, unix_milli, from_seconds,
}
use index_01_hook.Queue.Schema.{
  invalid_argument, lease_lost, manual_retry_not_allowed, Result, ok, err, ◌>>=◌, is_leased,
  is_waiting, is_completed, is_terminal, is_ambiguous, valid_outcome, is_success, delivery_outcome,
  update_jobs, update_tasks, insert_attempt,
}
use index_01_hook.Queue.Evaluation.{
  recording_by_id, capture_evaluation_delivery, record_shadow_outcome,
}
use index_01_hook.Queue.Frozen.{safe_provider_identifier}
use index_01_hook.Queue.Extraction.{
  lease_expired, leased_by, or_lease_lost, of_recording, erase_transcription, has_recording,
}

abbrev pub claimable_task : ℕ → DeliveryTask → Bool
claimable_task now t =
    (is_waiting t.state && leb t.next_attempt_at_ms (unix_milli now))
    || (is_leased t.state && lease_expired t.lease now)

abbrev pub next_attempt : DeliveryTask → ℕ
next_attempt t = t.next_attempt_at_ms

abbrev pub task_key : DeliveryTask → ℕ
task_key t = t.id

abbrev pub qualifies : Store → ℕ → DeliveryTask → Bool
qualifies s now t = claimable_task now t && has_recording t.recording_id s.recordings

-- The SELECT of ClaimDelivery.
unfoldable pub select_task : Store → ℕ → Option DeliveryTask
select_task s now = first_row next_attempt task_key (qualifies s now) s.delivery_tasks

-- The SET of ClaimDelivery.
abbrev pub lease_task : ℕ → Text → ℕ → ℕ → ℕ → DeliveryTask → DeliveryTask
lease_task now owner duration attempt cycle t = record t {
  state = leased;
  workflow_state = creating;
  attempt_count = attempt;
  cycle_attempt_count = cycle;
  lease = some (record { owner = owner; expires_at_ms = unix_milli (now + duration) });
  updated_at = now;
}

abbrev pub claimed_task : ℕ → ℕ → DeliveryTask → Bool
claimed_task id now t = t.id == id && claimable_task now t

abbrev read_due : Option ℕ → Option ℕ
read_due none = none
read_due (some s) = some (from_seconds s)

abbrev pub delivery_claim : DeliveryTask → Recording → DeliveryClaim
delivery_claim t r = record {
  id = t.id;
  recording_id = t.recording_id;
  recording_hash = r.payload_fingerprint;
  task_index = t.task_index;
  kind = t.kind;
  title = t.title;
  notes = t.notes;
  due = read_due t.due_at;
  all_day = t.all_day;
  priority = t.priority;
  tags = t.tags;
  project_alias = t.project_alias;
  marker = t.marker;
  attempt_number = t.attempt_count + 1;
  cycle_attempt_number = t.cycle_attempt_count + 1;
  last_classification = t.last_classification;
  reconcile_attempt_count = t.reconcile_attempt_count;
  recovered_lease = is_leased t.state;
}

unfoldable pub claim_task :
    Store → ℕ → Text → ℕ → DeliveryTask → Recording → Result (Store × Option DeliveryClaim)
claim_task s now owner duration t r = do
  tasks ←
      update_tasks (claimed_task t.id now)
        (lease_task now owner duration (t.attempt_count + 1) (t.cycle_attempt_count + 1))
        s.delivery_tasks
  if not (count_rows (claimed_task t.id now) s.delivery_tasks == 1)
      then err lease_lost
      else ok (record s { delivery_tasks = tasks }, some (delivery_claim t r))

abbrev pub claim_found_task :
    Store → ℕ → Text → ℕ → DeliveryTask → Option Recording → Result (Store × Option DeliveryClaim)
claim_found_task s now owner duration t none = ok (s, none)
claim_found_task s now owner duration t (some r) = claim_task s now owner duration t r

unfoldable pub claim_selected_task :
    Store → ℕ → Text → ℕ → Option DeliveryTask → Result (Store × Option DeliveryClaim)
claim_selected_task s now owner duration none = ok (s, none)
claim_selected_task s now owner duration (some t) =
    claim_found_task s now owner duration t (recording_by_id t.recording_id s.recordings)

unfoldable pub claim_delivery : Store → ℕ → Text → ℕ → Result (Store × Option DeliveryClaim)
claim_delivery s now owner duration =
    if is_blank (trim_space owner) || duration == 0
    then err invalid_argument
    else claim_selected_task s now (trim_space owner) duration (select_task s now)

-- The fence of a delivery: leased, to this owner, and not expired.
abbrev pub active_task : ℕ → Text → ℕ → DeliveryTask → Bool
active_task id owner now t = t.id == id && is_leased t.state && leased_by owner t.lease now

unfoldable pub active_delivery_lease : Store → ℕ → Text → ℕ → Option DeliveryTask
unfolding find_row text_eq trim_space
active_delivery_lease s id owner now =
    find_row (active_task id (trim_space owner) now) s.delivery_tasks

abbrev pub delivery_attempt : ℕ → ℕ → Outcome → ℕ → Attempt
delivery_attempt id n c now = record {
  of = id;
  attempt_number = n;
  classification = c;
  created_at = now;
}

abbrev pub of_task : ℕ → DeliveryTask → Bool
of_task id t = t.id == id

-- The SET of finishDeliveryAttempt.
abbrev pub finish_task : QueueState → Workflow → ℕ → Outcome → ℕ → ℕ → DeliveryTask → DeliveryTask
finish_task state workflow retry_at c increment now t = record t {
  state = state;
  workflow_state = workflow;
  next_attempt_at_ms = unix_milli retry_at;
  lease = none;
  last_classification = some c;
  reconcile_attempt_count = t.reconcile_attempt_count + increment;
  updated_at = now;
}

unfoldable pub finish_delivery_attempt :
    Store → ℕ → ℕ → Text → Outcome → QueueState → Workflow → ℕ → Bool → Result Store
finish_delivery_attempt s now id owner c state workflow retry_at increment = do
  t ← or_lease_lost (active_delivery_lease s id owner now)
  attempts ←
      insert_attempt delivery_outcome (delivery_attempt id t.attempt_count c now)
        s.delivery_attempts
  tasks ←
      update_tasks (of_task id)
        (finish_task state workflow retry_at c (if increment then 1 else 0) now) s.delivery_tasks
  ok (
      record_shadow_outcome c t.recording_id id now
        (record s { delivery_attempts = attempts; delivery_tasks = tasks }))

unfoldable pub retry_delivery : Store → ℕ → ℕ → Text → Outcome → ℕ → Result Store
retry_delivery s now id owner c retry_at =
    if not (valid_outcome c) || is_success c
    then err invalid_argument
    else finish_delivery_attempt s now id owner c retry retry_wait retry_at false

unfoldable pub retry_delivery_reconciliation : Store → ℕ → ℕ → Text → ℕ → Result Store
retry_delivery_reconciliation s now id owner retry_at =
    finish_delivery_attempt s now id owner ambiguous retry retry_wait retry_at true

unfoldable pub review_delivery : Store → ℕ → ℕ → ℕ → Text → Outcome → Result Store
review_delivery s later now id owner c =
    if not (valid_outcome c) || is_success c
    then err invalid_argument
    else finish_delivery_attempt s now id owner c in_review needs_review later false

abbrev pub blocks_delivery : Outcome → Bool
blocks_delivery retryable = true
blocks_delivery authentication = true
blocks_delivery configuration = true
blocks_delivery malformed = true
blocks_delivery ambiguous = true
blocks_delivery review = true
blocks_delivery _ = false

-- `later` is the second reading of the clock, for the next attempt.
unfoldable pub block_delivery : Store → ℕ → ℕ → ℕ → Text → Outcome → Workflow → Result Store
block_delivery s later now id owner c workflow =
    if not (blocks_delivery c) || not (is_terminal workflow)
    then err invalid_argument
    else finish_delivery_attempt s now id owner c in_review workflow later false

-- The SET of CompleteDelivery.
abbrev pub complete_task : DeliveryCompletion → ℕ → DeliveryTask → DeliveryTask
complete_task d now t = record t {
  state = completed;
  workflow_state = complete;
  lease = none;
  last_classification = some d.classification;
  tick_tick_task_id = some (trim_space d.tick_tick_task_id);
  tick_tick_project_id = some (trim_space d.tick_tick_project_id);
  updated_at = now;
  completed_at = some now;
}

abbrev pub complete_job : ℕ → ExtractionJob → ExtractionJob
complete_job now j = record j {
  state = completed;
  workflow_state = complete;
  completed_at = some now;
  updated_at = now;
}

-- `SELECT count(*) FROM delivery_tasks WHERE recording_id = ? AND state != 'completed'`.
unfoldable pub remaining_deliveries : ℕ → List DeliveryTask → ℕ
unfolding count_rows
remaining_deliveries rid =
    count_rows (λ (t : DeliveryTask). t.recording_id == rid && not (is_completed t.state))

-- The end of a recording whose last delivery completed.
unfoldable pub complete_recording : ℕ → ℕ → Store → Result Store
complete_recording rid now s =
    if remaining_deliveries rid s.delivery_tasks == 0
    then (do
      jobs ← update_jobs (of_recording rid) (complete_job now) s.extraction_jobs
      ok (record s { recordings = erase_transcription rid s.recordings; extraction_jobs = jobs }))
    else ok s

abbrev pub is_delivered : Outcome → Bool
is_delivered created = true
is_delivered reconciled = true
is_delivered _ = false

unfoldable pub complete_delivery : Store → ℕ → DeliveryCompletion → Result Store
complete_delivery s now d =
    if not (is_delivered d.classification)
      || not (safe_provider_identifier d.tick_tick_task_id)
      || not (safe_provider_identifier d.tick_tick_project_id)
    then err invalid_argument
    else do
      t ← or_lease_lost (active_delivery_lease s d.task_id d.lease_owner now)
      attempts ←
          insert_attempt delivery_outcome
            (delivery_attempt d.task_id t.attempt_count d.classification now) s.delivery_attempts
      tasks ← update_tasks (of_task d.task_id) (complete_task d now) s.delivery_tasks
      complete_recording t.recording_id now (
          capture_evaluation_delivery
            (record_shadow_outcome d.classification t.recording_id d.task_id now
              (record s { delivery_attempts = attempts; delivery_tasks = tasks }))
            d.task_id now)

abbrev pub keep_ambiguous : Option Outcome → Option Outcome
keep_ambiguous c = if is_ambiguous c then c else none

-- RetryDeliveryByID.
abbrev pub restart_task : ℕ → DeliveryTask → DeliveryTask
restart_task now t = record t {
  state = pending;
  workflow_state = extracted;
  cycle_attempt_count = 0;
  reconcile_attempt_count = 0;
  next_attempt_at_ms = unix_milli now;
  lease = none;
  last_classification = keep_ambiguous t.last_classification;
  updated_at = now;
  completed_at = none;
}

abbrev pub restartable_task : ℕ → DeliveryTask → Bool
restartable_task id t = t.id == id && is_terminal t.workflow_state

unfoldable pub retry_delivery_by_id : Store → ℕ → ℕ → Result Store
retry_delivery_by_id s now id = do
  tasks ← update_tasks (restartable_task id) (restart_task now) s.delivery_tasks
  if not (count_rows (restartable_task id) s.delivery_tasks == 1)
      then err manual_retry_not_allowed
      else ok (record s { delivery_tasks = tasks })
