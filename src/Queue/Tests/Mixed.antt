-- ===== src/Queue/Tests/Mixed.antt =====
-- A store with rows in several states: a settled, a waiting and a leased job, and a delivered, a
-- waiting and a leased task.
use index_01_hook.Base.{ℕ, ◌≡◌, ◌*◌, refl, false, none, some, [], ◌∷◌, arith, Option}
use index_01_hook.Base.Text.{
  text_eq, byte_length, is_space, trim_space, lower_rune, to_lower, rune_length, codes,
}
use index_01_hook.Base.Rows.{find_row, any_row, count_rows, update_rows, first_row, next_id}
use index_01_hook.Application.Policy.{
  valid_priority, seen_before, tags_from, normalize_tags, validate_item,
}
use index_01_hook.Application.Identity.{
  decode_hex, new_item_identity, format_marker, tick_tick_marker,
}
use index_01_hook.Application.Identity.Decimal.{print_ℕ}
use index_01_hook.Queue.Schema.{
  valid_outcome, allowed_transition, update_jobs, update_tasks, insert_attempt,
}
use index_01_hook.Queue.Evaluation.{
  capture_recording, capture_found, capture_evaluation_input, capture_evaluation_extraction,
  capture_evaluation_delivery, record_shadow_outcome,
}
use index_01_hook.Queue.Frozen.{
  all_identifier, safe_provider_identifier, frozen_items, items_valid, tasks_valid,
  validate_frozen_extraction,
}
use index_01_hook.Queue.Intake.{upsert_recording, insert_job, is_queued, queue_job, save_recording}
use index_01_hook.Queue.Extraction.{
  select_job, claim_job, claim_selected, claim_extraction, active_extraction,
  finish_extraction_attempt, retry_extraction, erase_transcription, complete_rejected_extraction,
}
use index_01_hook.Queue.Freeze.{insert_extraction, insert_task, insert_items, freeze_extraction}
use index_01_hook.Queue.Delivery.{
  select_task, claim_task, claim_selected_task, claim_delivery, active_delivery_lease,
  remaining_deliveries, complete_recording, complete_delivery,
}
use index_01_hook.Queue.Types.{
  Store, Recording, ExtractionJob, DeliveryTask, ExtractionClaim, DeliveryClaim, pending, leased,
  received, extracting, extracted, empty_store,
}
use index_01_hook.Queue.Schema.{Result, ok}
use index_01_hook.Queue.Invariant.{Inv}
use index_01_hook.Queue.Tests.{minute, worker, second_worker, store_of, job_claim}
use index_01_hook.Queue.Tests.Delivering.{spoken, frozen_job, leased_task, delivered_task}

abbrev pub recording_no : ℕ → Recording
recording_no n = record spoken { id = n; payload_fingerprint = n ∷ [] }

abbrev pub waiting_job : ExtractionJob
waiting_job = record frozen_job {
  recording_id = 2;
  state = pending;
  workflow_state = received;
  attempt_count = 0;
  cycle_attempt_count = 0;
}

abbrev pub leased_job : ExtractionJob
leased_job = record frozen_job {
  recording_id = 3;
  state = leased;
  workflow_state = extracting;
  lease = some (record { owner = second_worker; expires_at_ms = 240_000 });
}

abbrev pub waiting_task : DeliveryTask
waiting_task = record leased_task {
  id = 2;
  task_index = 1;
  marker = codes "m2";
  state = pending;
  workflow_state = extracted;
  attempt_count = 0;
  cycle_attempt_count = 0;
  lease = none;
}

abbrev pub third_task : DeliveryTask
third_task = record leased_task { id = 3; task_index = 2; marker = codes "m3" }

abbrev pub mixed_store : Store
mixed_store = record empty_store {
  recordings = recording_no 1 ∷ recording_no 2 ∷ recording_no 3 ∷ [];
  extraction_jobs = frozen_job ∷ waiting_job ∷ leased_job ∷ [];
  delivery_tasks = delivered_task ∷ waiting_task ∷ third_task ∷ [];
}

abbrev pub no_task : DeliveryClaim
no_task = record {
  id = 0;
  recording_id = 0;
  recording_hash = [];
  task_index = 0;
  kind = leased_task.kind;
  title = [];
  notes = [];
  due = none;
  all_day = false;
  priority = leased_task.priority;
  tags = [];
  project_alias = [];
  marker = [];
  attempt_number = 0;
  cycle_attempt_number = 0;
  last_classification = none;
  reconcile_attempt_count = 0;
  recovered_lease = false;
}

abbrev pub task_claim : Result (Store × Option DeliveryClaim) → DeliveryClaim
task_claim (ok (s, some k)) = k
task_claim _ = no_task

abbrev pub job_taken : Store
job_taken = store_of (claim_extraction mixed_store (3 * minute) worker minute)

abbrev pub taken_job : ExtractionClaim
taken_job = job_claim (claim_extraction mixed_store (3 * minute) worker minute)

abbrev pub task_taken : Store
task_taken = store_of (claim_delivery mixed_store (3 * minute) worker minute)

abbrev pub taken_task : DeliveryClaim
taken_task = task_claim (claim_delivery mixed_store (3 * minute) worker minute)

pub job_taken_is :
    claim_extraction mixed_store (3 * minute) worker minute ≡ ok (job_taken, some taken_job)
unfolding claim_extraction trim_space claim_selected select_job first_row any_row find_row claim_job
    update_jobs count_rows
job_taken_is = refl

pub task_taken_is :
    claim_delivery mixed_store (3 * minute) worker minute ≡ ok (task_taken, some taken_task)
unfolding claim_delivery trim_space claim_selected_task select_task first_row any_row find_row
    claim_task update_tasks count_rows
task_taken_is = refl

pub mixed_store-Inv : Inv mixed_store
unfolding any_row
mixed_store-Inv = record {
  job_rows = (
    record { agrees = refl; lease_held = refl; cycle_within = omega arith; completion = refl },
    (
      record { agrees = refl; lease_held = refl; cycle_within = omega arith; completion = refl },
      (
        record { agrees = refl; lease_held = refl; cycle_within = omega arith; completion = refl },
        tt,
      ),
    ),
  );
  job_ledger = record {
    ids = (((λ e. omega arith), ((λ e. omega arith), tt)), (((λ e. omega arith), tt), (tt, tt)));
    counted =
        ((tt, (λ e. omega arith)), ((tt, (λ e. ground arith)), ((tt, (λ e. omega arith)), tt)));
    owned = tt;
  };
  task_rows = (
    record {
      agrees = refl;
      lease_held = refl;
      cycle_within = omega arith;
      completion = refl;
      delivered = refl;
    },
    (
      record {
        agrees = refl;
        lease_held = refl;
        cycle_within = omega arith;
        completion = refl;
        delivered = refl;
      },
      (
        record {
          agrees = refl;
          lease_held = refl;
          cycle_within = omega arith;
          completion = refl;
          delivered = refl;
        },
        tt,
      ),
    ),
  );
  task_ledger = record {
    ids = (((λ e. omega arith), ((λ e. omega arith), tt)), (((λ e. omega arith), tt), (tt, tt)));
    counted =
        ((tt, (λ e. omega arith)), ((tt, (λ e. ground arith)), ((tt, (λ e. omega arith)), tt)));
    owned = tt;
  };
  settled = (refl, (refl, (refl, tt)));
}

pub third_job_is : active_extraction mixed_store 3 second_worker 1 (3 * minute) ≡ some leased_job
unfolding text_eq byte_length is_space trim_space lower_rune to_lower rune_length find_row any_row
    count_rows update_rows first_row next_id valid_priority seen_before tags_from normalize_tags
    validate_item decode_hex new_item_identity format_marker tick_tick_marker print_ℕ valid_outcome
    allowed_transition update_jobs update_tasks insert_attempt capture_recording capture_found
    capture_evaluation_input capture_evaluation_extraction capture_evaluation_delivery
    record_shadow_outcome all_identifier safe_provider_identifier frozen_items items_valid
    tasks_valid validate_frozen_extraction upsert_recording insert_job is_queued queue_job
    save_recording select_job claim_job claim_selected claim_extraction active_extraction
    finish_extraction_attempt retry_extraction erase_transcription complete_rejected_extraction
    insert_extraction insert_task insert_items freeze_extraction select_task claim_task
    claim_selected_task claim_delivery active_delivery_lease remaining_deliveries complete_recording
    complete_delivery
third_job_is = refl

pub third_task_is : active_delivery_lease mixed_store 3 worker (3 * minute) ≡ some third_task
unfolding text_eq byte_length is_space trim_space lower_rune to_lower rune_length find_row any_row
    count_rows update_rows first_row next_id valid_priority seen_before tags_from normalize_tags
    validate_item decode_hex new_item_identity format_marker tick_tick_marker print_ℕ valid_outcome
    allowed_transition update_jobs update_tasks insert_attempt capture_recording capture_found
    capture_evaluation_input capture_evaluation_extraction capture_evaluation_delivery
    record_shadow_outcome all_identifier safe_provider_identifier frozen_items items_valid
    tasks_valid validate_frozen_extraction upsert_recording insert_job is_queued queue_job
    save_recording select_job claim_job claim_selected claim_extraction active_extraction
    finish_extraction_attempt retry_extraction erase_transcription complete_rejected_extraction
    insert_extraction insert_task insert_items freeze_extraction select_task claim_task
    claim_selected_task claim_delivery active_delivery_lease remaining_deliveries complete_recording
    complete_delivery
third_task_is = refl
