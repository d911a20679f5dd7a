-- ===== src/Health/Tests.antt =====
-- The theorems on health.go at one worker and one recording, and the report when it is late.
use index_01_hook.Base.{List, ◌*◌, ◌≡◌, refl, true, false, none, some, [], ◌∷◌, All}
use index_01_hook.Base.Int.{pos}
use index_01_hook.Base.Rows.{find_row, any_row, count_rows, next_id}
use index_01_hook.Base.Text.{text_eq, is_space, trim_space}
use index_01_hook.Queue.Types.{ExtractionJob, DeliveryTask}
use index_01_hook.Queue.Intake.{upsert_recording, insert_job, is_queued, queue_job, save_recording}
use index_01_hook.Queue.Evaluation.{capture_recording, capture_found, capture_evaluation_input}
use index_01_hook.Queue.Tests.{minute, worker, second_worker, saved}
use index_01_hook.Health.{deepseek, ticktick, WorkerHealth, recorded, fresh_row, worker_started}
use index_01_hook.Health.Stamp.{fraction_text, stamp_before, first_stamp}
use index_01_hook.Health.Report.{
  worker_stale, queue_delayed, operational_status, queue_status, health_reasons, latest_recording,
  sum_received, active_created, active_jobs_created, active_tasks_created, count_state,
}
use index_01_hook.Health.Owner.{HealthUpdate, completes, stops, observes, updates_by}
use index_01_hook.Health.Sound.{Alive, Prompt, operational_status-ok}

abbrev started : WorkerHealth
started = fresh_row worker minute

started_is : worker_started none minute worker ≡ recorded started
unfolding worker_started trim_space is_space
started_is = refl

-- A second worker's stop and latency come between the owner's updates.
abbrev mixed : List HealthUpdate
mixed =
    completes (2 * minute) worker true
    ∷ stops (2 * minute) second_worker
    ∷ observes (3 * minute) second_worker ticktick (pos 5) true
    ∷ observes (3 * minute) worker deepseek (pos 7_000_000) false
    ∷ []

owner_updates :
    updates_by worker mixed
    ≡ completes (2 * minute) worker true
      ∷ observes (3 * minute) worker deepseek (pos 7_000_000) false
      ∷ []
unfolding updates_by text_eq trim_space is_space
owner_updates = refl

quiet_is : (operational_status (some started) saved (2 * minute)).degraded ≡ false
unfolding operational_status queue_status health_reasons latest_recording sum_received
    active_created active_jobs_created active_tasks_created count_state first_stamp stamp_before
    fraction_text count_rows find_row any_row next_id text_eq upsert_recording insert_job is_queued
    queue_job save_recording capture_recording capture_found capture_evaluation_input trim_space
quiet_is = refl

late_is :
    (operational_status (some started) saved (20 * minute)).reasons
    ≡ worker_stale ∷ queue_delayed ∷ []
unfolding operational_status queue_status health_reasons latest_recording sum_received
    active_created active_jobs_created active_tasks_created count_state first_stamp stamp_before
    fraction_text count_rows find_row any_row next_id text_eq upsert_recording insert_job is_queued
    queue_job save_recording capture_recording capture_found capture_evaluation_input trim_space
late_is = refl

operational_status-ok_example :
    Alive (some started) (2 * minute)
    × All
        (λ (j : ExtractionJob). Prompt (2 * minute) j.workflow_state j.created_at)
        saved.extraction_jobs
    × All
        (λ (t : DeliveryTask). Prompt (2 * minute) t.workflow_state t.created_at)
        saved.delivery_tasks
operational_status-ok_example = operational_status-ok (some started) saved (2 * minute) quiet_is

-- Within one second the text of a later instant may come first.
half_second_first : stamp_before 1_500_000_000 1_000_000_000 ≡ true
unfolding stamp_before fraction_text
half_second_first = refl
