-- ===== src/Worker/Tests.antt =====
-- The theorems on the worker, at one configuration and one provider.
pub mod Running
use index_01_hook.Base.{
  ◌*◌, ◌+◌, ◌-◌, ◌/◌, ◌^◌, ◌≤◌, ◌≡◌, refl, true, false, ◌||◌, none, some, [], ◌∷◌, length, All,
  arith, min,
}
use index_01_hook.Base.Int.{pos}
use index_01_hook.Base.Text.{codes, is_space, trim_space, byte_length, rune_length}
use index_01_hook.Application.Item.{Item, task}
use index_01_hook.Application.Failure.{
  FailureKind, Failure, Cause, cause, no_cause, also, sources, first_ambiguous, first_of, or_else,
  failure_of, failure_of-sources,
}
use index_01_hook.Queue.Types.{DeliveryClaim, ExtractionClaim}
use index_01_hook.Queue.Schema.{is_ambiguous}
use index_01_hook.Queue.Frozen.{safe_provider_identifier, all_identifier}
use index_01_hook.Queue.Tests.{minute, worker, second_worker}
use index_01_hook.Queue.Tests.Mixed.{
  mixed_store, mixed_store-Inv, third_task, leased_job, third_task_is, third_job_is,
}
use index_01_hook.Worker.{WorkerConfig}
use index_01_hook.Worker.Retry.{backoff_delay, retry_at, backoff_delay-min, retry_at-bounds}
use index_01_hook.Worker.Provider.{answered, failed, confirmed, DeliveryProvider, is_create}
use index_01_hook.Worker.Verifier.{TypeSafeErrorKind, Check, checked, accept, Verdict}
use index_01_hook.Worker.Delivery.{
  Clock, process_delivery, reconcile_delivery, reconciliation_input,
}
use index_01_hook.Worker.Delivery.Laws.{
  Ends, SafeAnswers, free_delivery, settled_delivery, process_delivery-calls, process_delivery-Ends,
  reconcile_delivery-Ends,
}
use index_01_hook.Worker.Extraction.{
  verified, verify_items, exhausted, handle_extraction_error, handle_verification_error,
}
use index_01_hook.Worker.Extraction.Laws.{
  Decides, accepted, verify_items-decided, handle_extraction_error-Ends,
  handle_verification_error-Ends, Ends as JobEnds,
}

abbrev pub config : WorkerConfig
config = record {
  owner = worker;
  time_zone = codes "UTC";
  lease_duration = minute;
  poll_interval = 5;
  retry_base = 30;
  retry_maximum = 1800;
  extraction_max_attempts = 3;
  delivery_max_attempts = 3;
  reconcile_max_attempts = 3;
  project_aliases = [];
  jitter = λ limit. pos limit;
}

abbrev second_config : WorkerConfig
second_config = record config { owner = second_worker }

abbrev pub clock : Clock
clock = record { retry_now = 3 * minute; now = 3 * minute; later = 3 * minute }

abbrev pub delivery : DeliveryClaim
delivery = record {
  id = 3;
  recording_id = 1;
  recording_hash = codes "f1";
  task_index = 2;
  kind = task;
  title = codes "Buy milk";
  notes = [];
  due = none;
  all_day = false;
  priority = pos 0;
  tags = [];
  project_alias = [];
  marker = codes "m3";
  attempt_number = 1;
  cycle_attempt_number = 1;
  last_classification = none;
  reconcile_attempt_count = 0;
  recovered_lease = true;
}

abbrev pub extraction : ExtractionClaim
extraction = record {
  recording_id = 3;
  recording_hash = codes "f1";
  transcription = codes "buy milk";
  attempt_number = 1;
  cycle_attempt_number = 1;
}

abbrev refused_write : Failure
refused_write = record {
  kind = FailureKind.ambiguous_write;
  operation = codes "create";
  status_code = 0;
  reason = [];
}

abbrev late : Failure
late = record refused_write { kind = FailureKind.retryable }

abbrev joined : Cause
joined =
    cause (some late)
      (also (cause none (also (cause (some refused_write) no_cause) no_cause)) no_cause)

abbrev pub provider : DeliveryProvider
provider = record {
  create_task = λ project_alias input. failed joined;
  create_note = λ input. answered (record { id = codes "n1"; project_id = codes "p1" });
  reconcile_item = λ input.
      answered (record { status = confirmed; task_id = codes "t1"; project_id = codes "p1" });
}

provider-SafeAnswers :
    SafeAnswers config clock delivery mixed_store third_task mixed_store-Inv third_task_is provider
unfolding safe_provider_identifier all_identifier trim_space is_space byte_length rune_length
provider-SafeAnswers = record {
  tasks = λ project_alias input. refl;
  notes = λ input. refl;
  items = λ input. refl;
}

process_delivery-calls_example :
    let calls = (process_delivery config clock delivery mixed_store provider).0 in
    (length calls ≤ 1)
    × ((delivery.recovered_lease || is_ambiguous delivery.last_classification) ≡ true
        → All (λ c. is_create c ≡ false) calls)
process_delivery-calls_example = process_delivery-calls config clock delivery mixed_store provider

process_delivery-Ends_example :
    Ends config clock delivery mixed_store third_task mixed_store-Inv third_task_is
      (free_delivery 3)
      (process_delivery config clock delivery mixed_store provider).1
process_delivery-Ends_example =
    process_delivery-Ends config clock delivery mixed_store third_task mixed_store-Inv third_task_is
      provider provider-SafeAnswers

reconcile_delivery-Ends_example :
    Ends config clock delivery mixed_store third_task mixed_store-Inv third_task_is
      (settled_delivery 3)
      (reconcile_delivery config clock delivery mixed_store provider).1
reconcile_delivery-Ends_example =
    reconcile_delivery-Ends config clock delivery mixed_store third_task mixed_store-Inv
      third_task_is provider refl
      (provider-SafeAnswers.items (reconciliation_input config clock delivery mixed_store))

handle_extraction_error-Ends_example :
    JobEnds second_config clock extraction mixed_store leased_job mixed_store-Inv third_job_is
      (exhausted second_config clock extraction)
      (handle_extraction_error second_config clock extraction mixed_store FailureKind.retryable)
handle_extraction_error-Ends_example =
    handle_extraction_error-Ends second_config clock extraction mixed_store leased_job
      mixed_store-Inv third_job_is FailureKind.retryable

handle_verification_error-Ends_example :
    JobEnds second_config clock extraction mixed_store leased_job mixed_store-Inv third_job_is
      (exhausted second_config clock extraction)
      (handle_verification_error second_config clock extraction mixed_store
        TypeSafeErrorKind.terminal)
handle_verification_error-Ends_example =
    handle_verification_error-Ends second_config clock extraction mixed_store leased_job
      mixed_store-Inv third_job_is TypeSafeErrorKind.terminal

abbrev pub milk : Item
milk = record {
  kind = task;
  title = codes "Buy milk";
  content = [];
  due = none;
  all_day = false;
  priority = pos 0;
  tags = [];
  project_alias = [];
}

abbrev urgent : Item
urgent = record milk { priority = pos 5 }

abbrev pub verdict : Item → Verdict
verdict item = record { decision = accept; item = item; evidence = codes "e" }

abbrev verify : Item → Check Verdict
verify item = checked (verdict item)

both_are :
    verify_items verify (milk ∷ urgent ∷ [])
    ≡ verified (milk ∷ urgent ∷ []) (codes "e" ∷ codes "e" ∷ []) false
unfolding verify_items
both_are = refl

verify_items-decided_example :
    All (λ item. Decides (verify item)) (milk ∷ urgent ∷ [])
    × (milk ∷ urgent ∷ [] ≡ accepted verify (milk ∷ urgent ∷ []))
    × (length (codes "e" ∷ codes "e" ∷ []) ≡ length (milk ∷ urgent ∷ []))
verify_items-decided_example =
    verify_items-decided verify (milk ∷ urgent ∷ []) (milk ∷ urgent ∷ [])
      (codes "e" ∷ codes "e" ∷ []) both_are

backoff_delay-min_example : backoff_delay 30 1800 5 ≡ min 1800 (30 * 2 ^ (5 - 1))
backoff_delay-min_example = backoff_delay-min 30 1800 5 (omega arith)

retry_at-bounds_example :
    let delay = min 1800 (30 * 2 ^ (5 - 1)) in
    (minute + delay ≤ retry_at config minute 5)
    × (retry_at config minute 5 ≤ minute + delay + delay / 4)
    × (retry_at config minute 5 ≤ minute + 1800)
retry_at-bounds_example = retry_at-bounds config minute 5 (omega arith)

failure_of-sources_example :
    failure_of joined ≡ or_else (first_ambiguous (sources joined)) (first_of (sources joined))
failure_of-sources_example = failure_of-sources joined
