-- ===== src/Queue/Freeze.antt =====
-- FreezeExtraction of queue.go: an extraction becomes the delivery tasks of its items.
pub mod Facts
pub mod Tasks
pub mod Inv
use index_01_hook.Base.{
  ℕ, ◌+◌, Bool, true, false, not, ◌&&◌, ◌||◌, Option, none, some, List, [], ◌∷◌, ◌++◌, ltb, ◌==◌,
  length, if◌then◌else◌,
}
use index_01_hook.Base.Int.{pos}
use index_01_hook.Base.Rows.{any_row, next_id}
use index_01_hook.Base.Text.{Text, text_eq, trim_space}
use index_01_hook.Application.Item.{Item}
use index_01_hook.Application.Policy.{max_items, normalize_tags, valid_priority, is_known_kind}
use index_01_hook.Application.Identity.{tick_tick_marker}
use index_01_hook.Queue.Types.{
  success, pending, frozen, completed, extracted, complete, ExtractionJob, Extraction, DeliveryTask,
  FrozenExtraction, Store, unix_milli, unix_seconds,
}
use index_01_hook.Queue.Schema.{
  invalid_extraction, already_frozen, constraint, invalid_marker, Result, ok, err, ◌>>=◌,
  extraction_outcome, update_jobs, insert_attempt,
}
use index_01_hook.Queue.Evaluation.{recording_by_id, capture_evaluation_extraction}
use index_01_hook.Queue.Frozen.{frozen_items, validate_frozen_extraction}
use index_01_hook.Queue.Extraction.{
  active_extraction, extraction_attempt, erase_transcription, or_lease_lost, of_recording,
}

-- The INSERT into `extractions`: UNIQUE(recording_id) DO NOTHING, then `requireOneRow`.
unfoldable pub insert_extraction :
    ℕ → ℕ → FrozenExtraction → ℕ → List Extraction → Result (List Extraction)
unfolding any_row trim_space
insert_extraction rid now x count extractions =
    if ltb max_items count
    then err constraint
    else if any_row (λ (e : Extraction). e.recording_id == rid) extractions
    then err already_frozen
    else ok (
        extractions
        ++ (record {
          recording_id = rid;
          provider = trim_space x.provider;
          model = trim_space x.model;
          provider_response_id = trim_space x.provider_response_id;
          task_count = count;
          created_at = now;
        }
            ∷ []))

abbrev truncate_due : Option ℕ → Option ℕ
truncate_due none = none
truncate_due (some due) = some (unix_seconds due)

-- `tags, _ := normalizeTickTickTags(item.Tags)`.
abbrev tags_or_none : Option (List Text) → List Text
tags_or_none none = []
tags_or_none (some ts) = ts

abbrev pub task_of_item : ℕ → ℕ → ℕ → Text → ℕ → Item → DeliveryTask
task_of_item id rid now marker index item = record {
  id = id;
  recording_id = rid;
  task_index = index;
  kind = item.kind;
  title = trim_space item.title;
  notes = item.content;
  due_at = truncate_due item.due;
  all_day = item.all_day;
  priority = item.priority;
  tags = tags_or_none (normalize_tags item.tags);
  project_alias = trim_space item.project_alias;
  marker = marker;
  state = pending;
  workflow_state = extracted;
  attempt_count = 0;
  cycle_attempt_count = 0;
  reconcile_attempt_count = 0;
  next_attempt_at_ms = unix_milli now;
  lease = none;
  last_classification = none;
  tick_tick_task_id = none;
  tick_tick_project_id = none;
  created_at = now;
  updated_at = now;
  completed_at = none;
}

-- The CHECKs and UNIQUE constraints of `delivery_tasks` for a row.
abbrev pub conflicts : DeliveryTask → DeliveryTask → Bool
conflicts t u =
    text_eq u.marker t.marker || (u.recording_id == t.recording_id && u.task_index == t.task_index)

unfoldable pub insert_task : DeliveryTask → List DeliveryTask → Result (List DeliveryTask)
unfolding any_row text_eq valid_priority
insert_task t tasks =
    if not (valid_priority t.priority) || not (is_known_kind t.kind) || any_row (conflicts t) tasks
    then err constraint
    else ok (tasks ++ (t ∷ []))

abbrev or_invalid_marker : Option Text → Result Text
or_invalid_marker none = err invalid_marker
or_invalid_marker (some m) = ok m

module _ (fold : ℕ → ℕ) where
  -- The loop over the items, from `index` on.
  unfoldable pub insert_items :
      ℕ → ℕ → Text → ℕ → List Item → List DeliveryTask → Result (List DeliveryTask)
  unfolding insert_task tick_tick_marker normalize_tags trim_space next_id
  insert_items rid now hash index [] tasks = ok tasks
  insert_items rid now hash index (item ∷ items) tasks =
      or_invalid_marker (tick_tick_marker fold hash (pos index)) >>= λ marker.
      insert_task
        (task_of_item (next_id (λ (t : DeliveryTask). t.id) tasks) rid now marker index item) tasks
      >>= λ tasks'. insert_items rid now hash (index + 1) items tasks'

abbrev no_items : List Item → Bool
no_items [] = true
no_items (i ∷ is) = false

-- The SET of FreezeExtraction, with the two ends of an extraction.
abbrev pub freeze_job : Bool → ℕ → ExtractionJob → ExtractionJob
freeze_job empty now j = record j {
  state = if empty then completed else frozen;
  workflow_state = if empty then complete else extracted;
  lease = none;
  last_classification = some success;
  updated_at = now;
  completed_at = if empty then some now else none;
}

module _ (fold : ℕ → ℕ) where
  unfoldable pub freeze_extraction : Store → ℕ → ℕ → Text → ℕ → FrozenExtraction → Result Store
  freeze_extraction s now rid owner attempt x =
      let items = frozen_items x in
      if not (validate_frozen_extraction x) then err invalid_extraction else do
        j ← or_lease_lost (active_extraction s rid owner attempt now)
        r ← or_lease_lost (recording_by_id rid s.recordings)
        extractions ← insert_extraction rid now x (length items) s.extractions
        t ← capture_evaluation_extraction (record s { extractions = extractions }) rid x now
        tasks ← insert_items fold rid now r.payload_fingerprint 0 items t.delivery_tasks
        attempts ←
            insert_attempt extraction_outcome (extraction_attempt rid j.attempt_count success now)
              t.extraction_attempts
        jobs ← update_jobs (of_recording rid) (freeze_job (no_items items) now) t.extraction_jobs
        ok (record t {
          recordings =
              if no_items items then erase_transcription rid t.recordings else t.recordings;
          delivery_tasks = tasks;
          extraction_attempts = attempts;
          extraction_jobs = jobs;
        })
