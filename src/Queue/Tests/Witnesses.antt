-- ===== src/Queue/Tests/Witnesses.antt =====
-- The theorems on the queue at the stores of Queue/Tests.antt.
use index_01_hook.Base.{
  ◌*◌, ◌<◌, ◌≡◌, ◌≢◌, refl, true, false, ◌||◌, none, some, List, [], ◌∷◌, ◌++◌, ◌==◌, All, ◌⊎◌,
}
use mathlib.Core.List.{Memᴰ}
use index_01_hook.Base.Text.{
  text_eq, byte_length, is_space, trim_space, lower_rune, to_lower, rune_length, is_blank, codes,
}
use index_01_hook.Base.Rows.{
  find_row, any_row, count_rows, update_rows, first_row, next_id, NoLater,
}
use index_01_hook.Application.Policy.{
  valid_priority, seen_before, tags_from, normalize_tags, validate_item,
}
use index_01_hook.Application.Identity.{
  decode_hex, new_item_identity, format_marker, tick_tick_marker,
}
use index_01_hook.Application.Identity.Decimal.{print_ℕ}
use index_01_hook.Queue.Schema.{
  valid_outcome, allowed_transition, update_jobs, update_tasks, insert_attempt,
}
use index_01_hook.Queue.Evaluation.{
  capture_recording, capture_found, capture_evaluation_input, capture_evaluation_extraction,
  capture_evaluation_delivery, record_shadow_outcome, recording_by_id,
}
use index_01_hook.Queue.Frozen.{
  all_identifier, safe_provider_identifier, frozen_items, items_valid, tasks_valid,
  validate_frozen_extraction,
}
use index_01_hook.Queue.Intake.{upsert_recording, insert_job, is_queued, queue_job, save_recording}
use index_01_hook.Queue.Extraction.{
  select_job, claim_job, claim_selected, claim_extraction, active_extraction,
  finish_extraction_attempt, retry_extraction, erase_transcription, complete_rejected_extraction,
}
use index_01_hook.Queue.Freeze.{insert_extraction, insert_task, insert_items, freeze_extraction}
use index_01_hook.Queue.Delivery.{
  select_task, claim_task, claim_selected_task, claim_delivery, active_delivery_lease,
  remaining_deliveries, complete_recording, complete_delivery,
}
use index_01_hook.Queue.Types.{
  Store, retryable, ambiguous, retry, retry_wait, Recording, ExtractionJob, DeliveryTask,
}
use index_01_hook.Queue.Schema.{ok}
use index_01_hook.Queue.Invariant.{settled_for, validate_queue_invariants}
use index_01_hook.Queue.Invariant.Keeps.{Keeps}
use index_01_hook.Queue.Extraction.{qualifies, next_attempt, recording_key}
use index_01_hook.Queue.Extraction.Erase.{Erased}
use index_01_hook.Queue.Extraction.Claim.{
  claim_extraction_lem, claim_extraction-exclusive, claimed_jobs, claim_of,
}
use index_01_hook.Queue.Extraction.Finish.{finish_extraction_attempt-active, finished}
use index_01_hook.Queue.Extraction.Restart.{complete_rejected_extraction-Keeps}
use index_01_hook.Queue.Freeze.Inv.{freeze_extraction-tasks}
use index_01_hook.Queue.Freeze.Tasks.{TasksOf}
use index_01_hook.Queue.Delivery.{complete_task, of_task, finish_delivery_attempt}
use index_01_hook.Queue.Delivery.Claim.{claim_delivery-exclusive}
use index_01_hook.Queue.Delivery.Finish.{finish_delivery_attempt-active, finished as ended}
use index_01_hook.Queue.Delivery.Complete.{complete_delivery_lem, bad_completion, completed_for}
use index_01_hook.Queue.Step.{start}
use index_01_hook.Queue.Step.Runs.{initial-Inv, Steps-Keeps}
use index_01_hook.Queue.Step.Health.{validate_queue_invariants-reached}
use index_01_hook.Queue.Step.Fences.{claim_extraction-settled, active_extraction-settled}
use index_01_hook.Queue.Step.Stale.{active_extraction-stale, claim_extraction-numbers}
use index_01_hook.Queue.Step.Delivered.{
  delivered_as, delivered-stays, claim_delivery-delivered, active_delivery_lease-delivered,
}
use index_01_hook.Queue.Tests.{
  same_rune, empty, store_in, minute, worker, second_worker, saved, claimed, claim, claimed_again,
  claim_again, extracted_milk, settled_store, claimed_is, claimed_again_is, settled_is, to_saved,
  to_settled, reached-Inv,
}
use index_01_hook.Queue.Tests.Mixed.{
  leased_job, third_task, mixed_store, job_taken, taken_job, task_taken, taken_task, job_taken_is,
  task_taken_is, mixed_store-Inv, third_job_is, third_task_is,
}
use index_01_hook.Queue.Tests.Delivering.{
  frozen_job, leased_task, leased_store, delivered_store, completion, leased_store-Inv,
  delivered_store-Inv,
}

abbrev first_job : List ExtractionJob → ExtractionJob
first_job [] = frozen_job
first_job (j ∷ jobs) = j

abbrev held_job : ExtractionJob
held_job = first_job claimed.extraction_jobs

same_recording : claim_again.recording_id ≡ claim.recording_id
unfolding text_eq byte_length is_space trim_space lower_rune to_lower rune_length find_row any_row
    count_rows update_rows first_row next_id valid_priority seen_before tags_from normalize_tags
    validate_item decode_hex new_item_identity format_marker tick_tick_marker print_ℕ valid_outcome
    allowed_transition update_jobs update_tasks insert_attempt capture_recording capture_found
    capture_evaluation_input capture_evaluation_extraction capture_evaluation_delivery
    record_shadow_outcome all_identifier safe_provider_identifier frozen_items items_valid
    tasks_valid validate_frozen_extraction upsert_recording insert_job is_queued queue_job
    save_recording select_job claim_job claim_selected claim_extraction active_extraction
    finish_extraction_attempt retry_extraction erase_transcription complete_rejected_extraction
    insert_extraction insert_task insert_items freeze_extraction select_task claim_task
    claim_selected_task claim_delivery active_delivery_lease remaining_deliveries complete_recording
    complete_delivery
same_recording = refl

held_is : active_extraction claimed 1 worker 1 (2 * minute) ≡ some held_job
unfolding text_eq byte_length is_space trim_space lower_rune to_lower rune_length find_row any_row
    count_rows update_rows first_row next_id valid_priority seen_before tags_from normalize_tags
    validate_item decode_hex new_item_identity format_marker tick_tick_marker print_ℕ valid_outcome
    allowed_transition update_jobs update_tasks insert_attempt capture_recording capture_found
    capture_evaluation_input capture_evaluation_extraction capture_evaluation_delivery
    record_shadow_outcome all_identifier safe_provider_identifier frozen_items items_valid
    tasks_valid validate_frozen_extraction upsert_recording insert_job is_queued queue_job
    save_recording select_job claim_job claim_selected claim_extraction active_extraction
    finish_extraction_attempt retry_extraction erase_transcription complete_rejected_extraction
    insert_extraction insert_task insert_items freeze_extraction select_task claim_task
    claim_selected_task claim_delivery active_delivery_lease remaining_deliveries complete_recording
    complete_delivery
held_is = refl

good_completion : bad_completion completion ≡ false
unfolding text_eq byte_length is_space trim_space lower_rune to_lower rune_length find_row any_row
    count_rows update_rows first_row next_id valid_priority seen_before tags_from normalize_tags
    validate_item decode_hex new_item_identity format_marker tick_tick_marker print_ℕ valid_outcome
    allowed_transition update_jobs update_tasks insert_attempt capture_recording capture_found
    capture_evaluation_input capture_evaluation_extraction capture_evaluation_delivery
    record_shadow_outcome all_identifier safe_provider_identifier frozen_items items_valid
    tasks_valid validate_frozen_extraction upsert_recording insert_job is_queued queue_job
    save_recording select_job claim_job claim_selected claim_extraction active_extraction
    finish_extraction_attempt retry_extraction erase_transcription complete_rejected_extraction
    insert_extraction insert_task insert_items freeze_extraction select_task claim_task
    claim_selected_task claim_delivery active_delivery_lease remaining_deliveries complete_recording
    complete_delivery
good_completion = refl

leased_is : active_delivery_lease leased_store 1 worker (3 * minute) ≡ some leased_task
unfolding text_eq byte_length is_space trim_space lower_rune to_lower rune_length find_row any_row
    count_rows update_rows first_row next_id valid_priority seen_before tags_from normalize_tags
    validate_item decode_hex new_item_identity format_marker tick_tick_marker print_ℕ valid_outcome
    allowed_transition update_jobs update_tasks insert_attempt capture_recording capture_found
    capture_evaluation_input capture_evaluation_extraction capture_evaluation_delivery
    record_shadow_outcome all_identifier safe_provider_identifier frozen_items items_valid
    tasks_valid validate_frozen_extraction upsert_recording insert_job is_queued queue_job
    save_recording select_job claim_job claim_selected claim_extraction active_extraction
    finish_extraction_attempt retry_extraction erase_transcription complete_rejected_extraction
    insert_extraction insert_task insert_items freeze_extraction select_task claim_task
    claim_selected_task claim_delivery active_delivery_lease remaining_deliveries complete_recording
    complete_delivery
leased_is = refl

active_extraction-stale_example :
    active_extraction claimed_again claim.recording_id worker claim.attempt_number (4 * minute)
    ≡ none
active_extraction-stale_example =
    active_extraction-stale same_rune saved claimed claimed claimed_again (2 * minute) (4 * minute)
      worker second_worker minute minute claim claim_again (reached-Inv saved to_saved) claimed_is
      start claimed_again_is same_recording claimed_again start worker (4 * minute)

claim_extraction-numbers_example : claim.attempt_number < claim_again.attempt_number
claim_extraction-numbers_example =
    claim_extraction-numbers same_rune saved claimed claimed claimed_again (2 * minute) (4 * minute)
      worker second_worker minute minute claim claim_again (reached-Inv saved to_saved) claimed_is
      start claimed_again_is same_recording

delivered_is : any_row (delivered_as 1 (codes "m1")) delivered_store.delivery_tasks ≡ true
unfolding text_eq byte_length is_space trim_space lower_rune to_lower rune_length find_row any_row
    count_rows update_rows first_row next_id valid_priority seen_before tags_from normalize_tags
    validate_item decode_hex new_item_identity format_marker tick_tick_marker print_ℕ valid_outcome
    allowed_transition update_jobs update_tasks insert_attempt capture_recording capture_found
    capture_evaluation_input capture_evaluation_extraction capture_evaluation_delivery
    record_shadow_outcome all_identifier safe_provider_identifier frozen_items items_valid
    tasks_valid validate_frozen_extraction upsert_recording insert_job is_queued queue_job
    save_recording select_job claim_job claim_selected claim_extraction active_extraction
    finish_extraction_attempt retry_extraction erase_transcription complete_rejected_extraction
    insert_extraction insert_task insert_items freeze_extraction select_task claim_task
    claim_selected_task claim_delivery active_delivery_lease remaining_deliveries complete_recording
    complete_delivery
delivered_is = refl

delivered-stays_example :
    any_row (delivered_as 1 (codes "m1")) delivered_store.delivery_tasks ≡ true
delivered-stays_example =
    delivered-stays same_rune delivered_store delivered_store 1 (codes "m1") delivered_store-Inv
      delivered_is start

active_delivery_lease-delivered_example :
    active_delivery_lease delivered_store 1 worker (3 * minute) ≡ none
active_delivery_lease-delivered_example =
    active_delivery_lease-delivered same_rune delivered_store delivered_store 1 (codes "m1")
      delivered_store-Inv delivered_is start worker (3 * minute)

complete_delivery_lem_example :
    (u : Store) × (complete_delivery leased_store (3 * minute) completion ≡ ok u)
    × Keeps leased_store u
    × (u.delivery_tasks
        ≡ update_rows
            (of_task 1)
            (complete_task completion (3 * minute))
            leased_store.delivery_tasks)
    × (((remaining_deliveries 1 u.delivery_tasks ≡ 0)
          × All (Erased 1) u.recordings
          × (any_row (completed_for 1) u.extraction_jobs ≡ true))
        ⊎ ((remaining_deliveries 1 u.delivery_tasks ≢ 0)
            × (u.recordings ≡ leased_store.recordings)
            × (u.extraction_jobs ≡ leased_store.extraction_jobs)))
complete_delivery_lem_example =
    complete_delivery_lem leased_store (3 * minute) completion leased_task leased_store-Inv
      leased_is good_completion

freeze_extraction-tasks_example :
    (r : Recording) × (new : List DeliveryTask) × (recording_by_id 1 claimed_again.recordings
      ≡ some r)
    × (settled_store.delivery_tasks ≡ claimed_again.delivery_tasks ++ new)
    × TasksOf same_rune 1 (4 * minute) r.payload_fingerprint 0 (frozen_items extracted_milk) new
    × (settled_store.delivery_attempts ≡ claimed_again.delivery_attempts)
freeze_extraction-tasks_example =
    freeze_extraction-tasks same_rune claimed_again settled_store (4 * minute) 1 second_worker 2
      extracted_milk settled_is

named_is : (is_blank (trim_space worker) || minute == 0) ≡ false
unfolding text_eq byte_length is_space trim_space lower_rune to_lower rune_length find_row any_row
    count_rows update_rows first_row next_id valid_priority seen_before tags_from normalize_tags
    validate_item decode_hex new_item_identity format_marker tick_tick_marker print_ℕ valid_outcome
    allowed_transition update_jobs update_tasks insert_attempt capture_recording capture_found
    capture_evaluation_input capture_evaluation_extraction capture_evaluation_delivery
    record_shadow_outcome all_identifier safe_provider_identifier frozen_items items_valid
    tasks_valid validate_frozen_extraction upsert_recording insert_job is_queued queue_job
    save_recording select_job claim_job claim_selected claim_extraction active_extraction
    finish_extraction_attempt retry_extraction erase_transcription complete_rejected_extraction
    insert_extraction insert_task insert_items freeze_extraction select_task claim_task
    claim_selected_task claim_delivery active_delivery_lease remaining_deliveries complete_recording
    complete_delivery
named_is = refl

claim_extraction_lem_example :
    (All (λ x. qualifies saved (2 * minute) x ≡ false) saved.extraction_jobs
      × (claim_extraction saved (2 * minute) worker minute ≡ ok (saved, none)))
    ⊎ ((j : ExtractionJob) × (r : Recording) × Memᴰ j saved.extraction_jobs
        × (qualifies saved (2 * minute) j ≡ true)
        × All
            (λ x. qualifies saved (2 * minute) x ≡ true → NoLater next_attempt recording_key j x)
            saved.extraction_jobs
        × (recording_by_id j.recording_id saved.recordings ≡ some r)
        × (claim_extraction saved (2 * minute) worker minute
            ≡ ok (
              record saved {
                extraction_jobs =
                    claimed_jobs (2 * minute) (trim_space worker) minute j saved.extraction_jobs;
              },
              some (claim_of j r),
            )))
claim_extraction_lem_example =
    claim_extraction_lem saved (2 * minute) worker minute (reached-Inv saved to_saved) named_is

validate_queue_invariants-reached_example : validate_queue_invariants settled_store ≡ true
validate_queue_invariants-reached_example =
    validate_queue_invariants-reached same_rune 0 settled_store to_settled

Steps-Keeps_example : Keeps empty settled_store
Steps-Keeps_example = Steps-Keeps same_rune empty settled_store (initial-Inv 0) to_settled

settled_is_1 : any_row (settled_for 1) mixed_store.extraction_jobs ≡ true
unfolding text_eq byte_length is_space trim_space lower_rune to_lower rune_length find_row any_row
    count_rows update_rows first_row next_id valid_priority seen_before tags_from normalize_tags
    validate_item decode_hex new_item_identity format_marker tick_tick_marker print_ℕ valid_outcome
    allowed_transition update_jobs update_tasks insert_attempt capture_recording capture_found
    capture_evaluation_input capture_evaluation_extraction capture_evaluation_delivery
    record_shadow_outcome all_identifier safe_provider_identifier frozen_items items_valid
    tasks_valid validate_frozen_extraction upsert_recording insert_job is_queued queue_job
    save_recording select_job claim_job claim_selected claim_extraction active_extraction
    finish_extraction_attempt retry_extraction erase_transcription complete_rejected_extraction
    insert_extraction insert_task insert_items freeze_extraction select_task claim_task
    claim_selected_task claim_delivery active_delivery_lease remaining_deliveries complete_recording
    complete_delivery
settled_is_1 = refl

delivered_is_1 : any_row (delivered_as 1 (codes "m1")) mixed_store.delivery_tasks ≡ true
unfolding text_eq byte_length is_space trim_space lower_rune to_lower rune_length find_row any_row
    count_rows update_rows first_row next_id valid_priority seen_before tags_from normalize_tags
    validate_item decode_hex new_item_identity format_marker tick_tick_marker print_ℕ valid_outcome
    allowed_transition update_jobs update_tasks insert_attempt capture_recording capture_found
    capture_evaluation_input capture_evaluation_extraction capture_evaluation_delivery
    record_shadow_outcome all_identifier safe_provider_identifier frozen_items items_valid
    tasks_valid validate_frozen_extraction upsert_recording insert_job is_queued queue_job
    save_recording select_job claim_job claim_selected claim_extraction active_extraction
    finish_extraction_attempt retry_extraction erase_transcription complete_rejected_extraction
    insert_extraction insert_task insert_items freeze_extraction select_task claim_task
    claim_selected_task claim_delivery active_delivery_lease remaining_deliveries complete_recording
    complete_delivery
delivered_is_1 = refl

claim_extraction-settled_example : taken_job.recording_id ≢ 1
claim_extraction-settled_example =
    claim_extraction-settled same_rune mixed_store mixed_store job_taken 1 mixed_store-Inv
      settled_is_1 start (3 * minute) worker minute taken_job job_taken_is

active_extraction-settled_example : active_extraction mixed_store 1 worker 1 minute ≡ none
active_extraction-settled_example =
    active_extraction-settled same_rune mixed_store mixed_store mixed_store 1 mixed_store-Inv
      settled_is_1 start worker 1 minute

claim_delivery-delivered_example : taken_task.id ≢ 1
claim_delivery-delivered_example =
    claim_delivery-delivered same_rune mixed_store mixed_store 1 (codes "m1") mixed_store-Inv
      delivered_is_1 start task_taken (3 * minute) worker minute taken_task task_taken_is

claim_extraction-exclusive_example : taken_job.recording_id ≢ 3
claim_extraction-exclusive_example =
    claim_extraction-exclusive mixed_store job_taken (3 * minute) worker minute mixed_store-Inv 3
      second_worker 1 leased_job taken_job third_job_is job_taken_is

claim_delivery-exclusive_example : taken_task.id ≢ 3
claim_delivery-exclusive_example =
    claim_delivery-exclusive mixed_store task_taken (3 * minute) worker minute mixed_store-Inv 3
      worker third_task taken_task third_task_is task_taken_is

finish_extraction_attempt-active_example :
    finish_extraction_attempt mixed_store
      (3 * minute)
      3
      second_worker
      1
      retryable
      retry
      retry_wait
      (9 * minute)
    ≡ ok (finished mixed_store (3 * minute) 3 1 retryable retry retry_wait (9 * minute))
finish_extraction_attempt-active_example =
    finish_extraction_attempt-active mixed_store (3 * minute) 3 second_worker 1 leased_job
      mixed_store-Inv third_job_is retryable retry retry_wait (9 * minute) refl refl

finish_delivery_attempt-active_example :
    finish_delivery_attempt mixed_store
      (3 * minute)
      3
      worker
      ambiguous
      retry
      retry_wait
      (9 * minute)
      true
    ≡ ok (ended mixed_store (3 * minute) 3 third_task ambiguous retry retry_wait (9 * minute) true)
finish_delivery_attempt-active_example =
    finish_delivery_attempt-active mixed_store (3 * minute) 3 worker third_task mixed_store-Inv
      third_task_is ambiguous retry retry_wait (9 * minute) true refl refl

abbrev rejected : Store → Store
rejected s = store_in (complete_rejected_extraction s (3 * minute) 3 second_worker 1)

rejected_is :
    complete_rejected_extraction mixed_store (3 * minute) 3 second_worker 1
    ≡ ok (rejected mixed_store)
unfolding text_eq byte_length is_space trim_space lower_rune to_lower rune_length find_row any_row
    count_rows update_rows first_row next_id valid_priority seen_before tags_from normalize_tags
    validate_item decode_hex new_item_identity format_marker tick_tick_marker print_ℕ valid_outcome
    allowed_transition update_jobs update_tasks insert_attempt capture_recording capture_found
    capture_evaluation_input capture_evaluation_extraction capture_evaluation_delivery
    record_shadow_outcome all_identifier safe_provider_identifier frozen_items items_valid
    tasks_valid validate_frozen_extraction upsert_recording insert_job is_queued queue_job
    save_recording select_job claim_job claim_selected claim_extraction active_extraction
    finish_extraction_attempt retry_extraction erase_transcription complete_rejected_extraction
    insert_extraction insert_task insert_items freeze_extraction select_task claim_task
    claim_selected_task claim_delivery active_delivery_lease remaining_deliveries complete_recording
    complete_delivery
rejected_is = refl

complete_rejected_extraction-Keeps_example :
    Keeps mixed_store (rejected mixed_store) × All (Erased 3) (rejected mixed_store).recordings
complete_rejected_extraction-Keeps_example =
    complete_rejected_extraction-Keeps mixed_store (rejected mixed_store) (3 * minute) 3
      second_worker 1 mixed_store-Inv rejected_is
