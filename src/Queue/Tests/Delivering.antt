-- ===== src/Queue/Tests/Delivering.antt =====
-- A store whose one task is leased, and the store after its delivery.
use index_01_hook.Base.{◌*◌, refl, false, none, some, [], ◌∷◌, arith}
use index_01_hook.Base.Int.{pos}
use index_01_hook.Base.Rows.{any_row}
use index_01_hook.Base.Text.{codes}
use index_01_hook.Application.Item.{task}
use index_01_hook.Queue.Types.{
  Store, Recording, ExtractionJob, DeliveryTask, DeliveryCompletion, success, created, frozen,
  extracted, leased, creating, completed, complete, empty_store,
}
use index_01_hook.Queue.Invariant.{Inv}
use index_01_hook.Queue.Tests.{minute, worker}

abbrev pub spoken : Recording
spoken = record {
  id = 1;
  recorded_at_ms = pos 1000;
  client = codes "watch";
  trigger = codes "button";
  transcription = codes "buy milk";
  audio_filename = [];
  audio_byte_count = 0;
  payload_fingerprint = codes "f1";
  receive_count = 1;
  first_received_at = minute;
  last_received_at = minute;
  evaluation_expires_at_ms = none;
}

abbrev pub frozen_job : ExtractionJob
frozen_job = record {
  recording_id = 1;
  state = frozen;
  workflow_state = extracted;
  attempt_count = 1;
  cycle_attempt_count = 1;
  next_attempt_at_ms = 60_000;
  lease = none;
  last_classification = some success;
  created_at = minute;
  updated_at = 2 * minute;
  completed_at = none;
  verification = none;
}

abbrev pub leased_task : DeliveryTask
leased_task = record {
  id = 1;
  recording_id = 1;
  task_index = 0;
  kind = task;
  title = codes "Buy milk";
  notes = [];
  due_at = none;
  all_day = false;
  priority = pos 0;
  tags = [];
  project_alias = [];
  marker = codes "m1";
  state = leased;
  workflow_state = creating;
  attempt_count = 1;
  cycle_attempt_count = 1;
  reconcile_attempt_count = 0;
  next_attempt_at_ms = 120_000;
  lease = some (record { owner = worker; expires_at_ms = 240_000 });
  last_classification = none;
  tick_tick_task_id = none;
  tick_tick_project_id = none;
  created_at = 2 * minute;
  updated_at = 3 * minute;
  completed_at = none;
}

abbrev pub delivered_task : DeliveryTask
delivered_task = record leased_task {
  state = completed;
  workflow_state = complete;
  lease = none;
  last_classification = some created;
  tick_tick_task_id = some (codes "t1");
  tick_tick_project_id = some (codes "p1");
  completed_at = some (3 * minute);
}

abbrev pub leased_store : Store
leased_store = record empty_store {
  recordings = spoken ∷ [];
  extraction_jobs = frozen_job ∷ [];
  delivery_tasks = leased_task ∷ [];
}

abbrev pub delivered_store : Store
delivered_store = record leased_store { delivery_tasks = delivered_task ∷ [] }

abbrev pub completion : DeliveryCompletion
completion = record {
  task_id = 1;
  lease_owner = worker;
  classification = created;
  tick_tick_task_id = codes "t1";
  tick_tick_project_id = codes "p1";
}

pub leased_store-Inv : Inv leased_store
unfolding any_row
leased_store-Inv = record {
  job_rows = (
    record { agrees = refl; lease_held = refl; cycle_within = omega arith; completion = refl },
    tt,
  );
  job_ledger = record { ids = (tt, tt); counted = ((tt, (λ e. omega arith)), tt); owned = tt };
  task_rows = (
    record {
      agrees = refl;
      lease_held = refl;
      cycle_within = omega arith;
      completion = refl;
      delivered = refl;
    },
    tt,
  );
  task_ledger = record { ids = (tt, tt); counted = ((tt, (λ e. omega arith)), tt); owned = tt };
  settled = (refl, tt);
}

pub delivered_store-Inv : Inv delivered_store
unfolding any_row
delivered_store-Inv = record {
  job_rows = leased_store-Inv.job_rows;
  job_ledger = leased_store-Inv.job_ledger;
  task_rows = (
    record {
      agrees = refl;
      lease_held = refl;
      cycle_within = omega arith;
      completion = refl;
      delivered = refl;
    },
    tt,
  );
  task_ledger = record { ids = (tt, tt); counted = ((tt, (λ e. omega arith)), tt); owned = tt };
  settled = (refl, tt);
}
