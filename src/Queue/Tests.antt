-- ===== src/Queue/Tests.antt =====
-- A run of the queue, for the tests: a recording is saved, claimed, claimed again when the lease has
-- run out, and frozen into one task. Queue/Tests/Delivering.antt starts from such a store.
pub mod Delivering
pub mod Mixed
pub mod Witnesses
pub mod Purging
pub mod Saving
pub mod Shadows
use index_01_hook.Base.{ℕ, ◌≡◌, refl, Bool, true, false, Option, none, some, List, [], ◌∷◌, ◌*◌}
use index_01_hook.Base.Int.{pos}
use index_01_hook.Base.Text.{
  text_eq, byte_length, is_space, trim_space, lower_rune, to_lower, rune_length, codes,
}
use index_01_hook.Base.Rows.{find_row, any_row, count_rows, update_rows, first_row, next_id}
use index_01_hook.Application.Policy.{
  valid_priority, seen_before, tags_from, normalize_tags, validate_item,
}
use index_01_hook.Application.Identity.{
  decode_hex, new_item_identity, format_marker, tick_tick_marker,
}
use index_01_hook.Application.Identity.Decimal.{print_ℕ}
use index_01_hook.Queue.Schema.{
  valid_outcome, allowed_transition, update_jobs, update_tasks, insert_attempt,
}
use index_01_hook.Queue.Evaluation.{
  capture_recording, capture_found, capture_evaluation_input, capture_evaluation_extraction,
  capture_evaluation_delivery, record_shadow_outcome,
}
use index_01_hook.Queue.Frozen.{
  all_identifier, safe_provider_identifier, frozen_items, items_valid, tasks_valid,
  validate_frozen_extraction,
}
use index_01_hook.Queue.Intake.{upsert_recording, insert_job, is_queued, queue_job, save_recording}
use index_01_hook.Queue.Extraction.{
  select_job, claim_job, claim_selected, claim_extraction, active_extraction,
  finish_extraction_attempt, retry_extraction, erase_transcription, complete_rejected_extraction,
}
use index_01_hook.Queue.Freeze.{insert_extraction, insert_task, insert_items, freeze_extraction}
use index_01_hook.Queue.Delivery.{
  select_task, claim_task, claim_selected_task, claim_delivery, active_delivery_lease,
  remaining_deliveries, complete_recording, complete_delivery,
}
use index_01_hook.Application.Item.{task, Item}
use index_01_hook.Queue.Types.{
  Text, Store, Recording, ExtractionJob, DeliveryTask, ExtractionClaim, DeliveryClaim,
  FrozenExtraction, DeliveryCompletion, created,
}
use index_01_hook.Queue.Schema.{Result, ok, err}
use index_01_hook.Queue.Intake.{RecordingInput, Receipt}
use index_01_hook.Queue.Invariant.{Inv}
use index_01_hook.Queue.Step.{
  Step, Steps, start, then_step, saves, claims_extraction, freezes, claims_delivery,
  completes_delivery,
}
use index_01_hook.Queue.Step.Runs.{initial, initial-Inv, Steps-Keeps}

-- Letters of ASCII alone.
abbrev pub same_rune : ℕ → ℕ
same_rune c = c

abbrev pub empty : Store
empty = initial 0

abbrev pub store_of {ℓ} : {A : Type ℓ} → Result (Store × A) → Store
store_of (ok (s, a)) = s
store_of (err e) = empty

abbrev pub store_in : Result Store → Store
store_in (ok s) = s
store_in (err e) = empty

abbrev pub no_job : ExtractionClaim
no_job = record {
  recording_id = 0;
  recording_hash = [];
  transcription = [];
  attempt_number = 0;
  cycle_attempt_number = 0;
}

abbrev pub job_claim : Result (Store × Option ExtractionClaim) → ExtractionClaim
job_claim (ok (s, some k)) = k
job_claim _ = no_job

abbrev pub minute : ℕ
minute = 60_000_000_000

abbrev pub worker : Text
worker = codes "worker"

abbrev pub second_worker : Text
second_worker = codes "second"

abbrev pub input : RecordingInput
input = record {
  recorded_at_millis = pos 1000;
  client = codes "watch";
  trigger = codes "button";
  transcription = codes "buy milk";
  audio_filename = [];
  audio_byte_count = 0;
  fingerprint = codes "aaaaaaaaaaaaaaaaaaaaaaaaaaaaaaaaaaaaaaaaaaaaaaaaaaaaaaaaaaaaaaaa";
}

abbrev pub saved : Store
saved = store_of (save_recording empty minute input)

abbrev pub claimed : Store
claimed = store_of (claim_extraction saved (2 * minute) worker minute)

abbrev pub claim : ExtractionClaim
claim = job_claim (claim_extraction saved (2 * minute) worker minute)

abbrev pub claimed_again : Store
claimed_again = store_of (claim_extraction claimed (4 * minute) second_worker minute)

abbrev pub claim_again : ExtractionClaim
claim_again = job_claim (claim_extraction claimed (4 * minute) second_worker minute)

abbrev pub milk : Item
milk = record {
  kind = task;
  title = codes " Buy milk ";
  content = [];
  due = none;
  all_day = false;
  priority = pos 0;
  tags = codes "shop" ∷ codes "shop" ∷ [];
  project_alias = [];
}

abbrev pub extracted_milk : FrozenExtraction
extracted_milk = record {
  provider = codes "deepseek";
  model = codes "chat";
  provider_response_id = [];
  verifications = [];
  items = milk ∷ [];
  tasks = [];
}

abbrev pub settled_store : Store
settled_store =
    store_in
      (freeze_extraction same_rune claimed_again (4 * minute) 1 second_worker 2 extracted_milk)

pub saved_is :
    save_recording empty minute input
    ≡ ok (saved, record { id = 1; duplicate = false; queued = true })
unfolding save_recording trim_space queue_job upsert_recording find_row capture_evaluation_input
    next_id is_queued insert_job
saved_is = refl

pub claimed_is : claim_extraction saved (2 * minute) worker minute ≡ ok (claimed, some claim)
unfolding claim_extraction trim_space claim_selected select_job first_row save_recording queue_job
    upsert_recording find_row capture_evaluation_input insert_job next_id claim_job update_jobs
    count_rows
claimed_is = refl

pub claimed_again_is :
    claim_extraction claimed (4 * minute) second_worker minute
    ≡ ok (claimed_again, some claim_again)
unfolding claim_extraction trim_space claim_selected select_job first_row save_recording queue_job
    upsert_recording find_row capture_evaluation_input insert_job next_id claim_job update_jobs
    count_rows
claimed_again_is = refl

pub settled_is :
    freeze_extraction same_rune claimed_again (4 * minute) 1 second_worker 2 extracted_milk
    ≡ ok settled_store
unfolding text_eq byte_length is_space trim_space lower_rune to_lower rune_length find_row any_row
    count_rows update_rows first_row next_id valid_priority seen_before tags_from normalize_tags
    validate_item decode_hex new_item_identity format_marker tick_tick_marker print_ℕ valid_outcome
    allowed_transition update_jobs update_tasks insert_attempt capture_recording capture_found
    capture_evaluation_input capture_evaluation_extraction capture_evaluation_delivery
    record_shadow_outcome all_identifier safe_provider_identifier frozen_items items_valid
    tasks_valid validate_frozen_extraction upsert_recording insert_job is_queued queue_job
    save_recording select_job claim_job claim_selected claim_extraction active_extraction
    finish_extraction_attempt retry_extraction erase_transcription complete_rejected_extraction
    insert_extraction insert_task insert_items freeze_extraction select_task claim_task
    claim_selected_task claim_delivery active_delivery_lease remaining_deliveries complete_recording
    complete_delivery
settled_is = refl

pub to_saved : Steps same_rune empty saved
to_saved = then_step empty saved start (saves minute input _ saved_is)

pub to_claimed : Steps same_rune empty claimed
to_claimed =
    then_step saved claimed to_saved
      (claims_extraction (2 * minute) worker minute (some claim) claimed_is)

pub to_claimed_again : Steps same_rune empty claimed_again
to_claimed_again =
    then_step claimed claimed_again to_claimed
      (claims_extraction (4 * minute) second_worker minute (some claim_again) claimed_again_is)

pub to_settled : Steps same_rune empty settled_store
to_settled =
    then_step claimed_again settled_store to_claimed_again
      (freezes (4 * minute) 1 second_worker 2 extracted_milk settled_is)

pub reached-Inv : (s : Store) → Steps same_rune empty s → Inv s
reached-Inv s run = (Steps-Keeps same_rune empty s (initial-Inv 0) run).inv
