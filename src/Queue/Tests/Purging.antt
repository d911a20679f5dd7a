-- ===== src/Queue/Tests/Purging.antt =====
-- The theorems on retention.go at a store with a delivered, a waiting and a leased recording.
use mathlib.Core.List.{Memᴰ}
use index_01_hook.Base.{◌+◌, true, All}
use index_01_hook.Queue.Types.{DeliveryTask}
use index_01_hook.Queue.Retention.{job_in_use, task_in_use}
use index_01_hook.Base.{◌*◌, ◌-◌, ◌≡◌, refl, some, [], ◌∷◌, length}
use index_01_hook.Base.Rows.{find_row, any_row, count_rows, delete_rows}
use index_01_hook.Queue.Types.{Store}
use index_01_hook.Queue.Schema.{ok}
use index_01_hook.Queue.Invariant.{Inv}
use index_01_hook.Queue.Extraction.{active_extraction}
use index_01_hook.Queue.Delivery.{active_delivery_lease}
use index_01_hook.Queue.Retention.{expired, purged, purge, purge_expired_recordings}
use index_01_hook.Queue.Retention.Kept.{
  purge_expired_recordings-Inv, purge_expired_recordings-active_extraction,
  purge_expired_recordings-active_delivery_lease,
}
use index_01_hook.Queue.Tests.{minute, worker, second_worker}
use index_01_hook.Base.{arith}
use index_01_hook.Base.Text.{text_eq}
use index_01_hook.Queue.Types.{completed, complete, ExtractionJob}
use index_01_hook.Queue.Tests.Delivering.{frozen_job}
use index_01_hook.Queue.Tests.Mixed.{leased_job, third_task, waiting_job, mixed_store}

abbrev rejected_job : ExtractionJob
rejected_job = record waiting_job {
  state = completed;
  workflow_state = complete;
  completed_at = some (2 * minute);
}

-- The second recording is over; the others have deliveries or a lease.
abbrev aged_store : Store
aged_store = record mixed_store { extraction_jobs = frozen_job ∷ rejected_job ∷ leased_job ∷ [] }

aged_store-Inv : Inv aged_store
unfolding any_row
aged_store-Inv = record {
  job_rows = (
    record { agrees = refl; lease_held = refl; cycle_within = omega arith; completion = refl },
    (
      record { agrees = refl; lease_held = refl; cycle_within = omega arith; completion = refl },
      (
        record { agrees = refl; lease_held = refl; cycle_within = omega arith; completion = refl },
        tt,
      ),
    ),
  );
  job_ledger = record {
    ids = (((λ e. omega arith), ((λ e. omega arith), tt)), (((λ e. omega arith), tt), (tt, tt)));
    counted =
        ((tt, (λ e. omega arith)), ((tt, (λ e. ground arith)), ((tt, (λ e. omega arith)), tt)));
    owned = tt;
  };
  task_rows = (
    record {
      agrees = refl;
      lease_held = refl;
      cycle_within = omega arith;
      completion = refl;
      delivered = refl;
    },
    (
      record {
        agrees = refl;
        lease_held = refl;
        cycle_within = omega arith;
        completion = refl;
        delivered = refl;
      },
      (
        record {
          agrees = refl;
          lease_held = refl;
          cycle_within = omega arith;
          completion = refl;
          delivered = refl;
        },
        tt,
      ),
    ),
  );
  task_ledger = record {
    ids = (((λ e. omega arith), ((λ e. omega arith), tt)), (((λ e. omega arith), tt), (tt, tt)));
    counted =
        ((tt, (λ e. omega arith)), ((tt, (λ e. ground arith)), ((tt, (λ e. omega arith)), tt)));
    owned = tt;
  };
  settled = (refl, (refl, (refl, tt)));
}

-- A cutoff that every row is older than.
abbrev purged_store : Store
purged_store = purge aged_store (300 * minute - minute)

purged_is : purge_expired_recordings aged_store (300 * minute) minute ≡ ok (purged_store, 1)
unfolding purge_expired_recordings expired count_rows find_row any_row
purged_is = refl

two_stay : length purged_store.recordings ≡ 2
unfolding purge purged delete_rows expired find_row any_row
two_stay = refl

aged_job_is : active_extraction aged_store 3 second_worker 1 (3 * minute) ≡ some leased_job
unfolding active_extraction find_row text_eq
aged_job_is = refl

aged_task_is : active_delivery_lease aged_store 3 worker (3 * minute) ≡ some third_task
unfolding active_delivery_lease find_row text_eq
aged_task_is = refl

purge_expired_recordings-Inv_example :
    Inv purged_store
    × All
        (λ (j : ExtractionJob).
          job_in_use j.workflow_state ≡ true → Memᴰ j purged_store.extraction_jobs)
        aged_store.extraction_jobs
    × All
        (λ (d : DeliveryTask).
          task_in_use d.workflow_state ≡ true → Memᴰ d purged_store.delivery_tasks)
        aged_store.delivery_tasks
    × (length purged_store.recordings + 1 ≡ length aged_store.recordings)
purge_expired_recordings-Inv_example =
    purge_expired_recordings-Inv aged_store purged_store (300 * minute) minute 1 aged_store-Inv
      purged_is

purge_expired_recordings-active_extraction_example :
    active_extraction purged_store 3 second_worker 1 (3 * minute) ≡ some leased_job
purge_expired_recordings-active_extraction_example =
    purge_expired_recordings-active_extraction aged_store purged_store (300 * minute) minute 1
      aged_store-Inv purged_is 3 second_worker 1 (3 * minute) leased_job aged_job_is

purge_expired_recordings-active_delivery_lease_example :
    active_delivery_lease purged_store 3 worker (3 * minute) ≡ some third_task
purge_expired_recordings-active_delivery_lease_example =
    purge_expired_recordings-active_delivery_lease aged_store purged_store (300 * minute) minute 1
      aged_store-Inv purged_is 3 worker (3 * minute) third_task aged_task_is
