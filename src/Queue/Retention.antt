-- ===== src/Queue/Retention.antt =====
-- retention.go: what is deleted when it has aged. Foreign keys are on and cascade, so the rows that
-- belong to a deleted row go with it. `rtrim(…, 'Z')` makes the order of the texts that of instants.
pub mod Kept
use index_01_hook.Base.{
  ℕ, ◌-◌, Bool, true, false, not, ◌&&◌, ◌||◌, Option, none, some, List, ltb, leb, ◌==◌,
  if◌then◌else◌,
}
use index_01_hook.Base.Rows.{find_row, any_row, count_rows, delete_rows}
use index_01_hook.Base.Text.{text_eq}
use index_01_hook.Queue.Types.{
  Workflow, received, extracting, extracted, creating, retry_wait, Store, Recording, ExtractionJob,
  Extraction, Attempt, DeliveryTask, EvaluationEvidence, EvaluationDelivery, ShadowRow, unix_milli,
}
use index_01_hook.Queue.Schema.{Result, ok, err, invalid_argument}

-- The states of an extraction that is not over.
abbrev pub job_in_use : Workflow → Bool
job_in_use received = true
job_in_use extracting = true
job_in_use retry_wait = true
job_in_use _ = false

abbrev pub task_in_use : Workflow → Bool
task_in_use extracted = true
task_in_use creating = true
task_in_use retry_wait = true
task_in_use _ = false

-- A delivery of the recording that is not over, or that changed at the cutoff or later.
abbrev pub holds_recording : ℕ → ℕ → DeliveryTask → Bool
holds_recording cutoff rid t =
    t.recording_id == rid && (task_in_use t.workflow_state || leb cutoff t.updated_at)

abbrev pub job_over : ℕ → List DeliveryTask → ℕ → Option ExtractionJob → Bool
job_over cutoff tasks rid none = true
job_over cutoff tasks rid (some j) =
    not (job_in_use j.workflow_state)
    && ltb j.updated_at cutoff
    && not (any_row (holds_recording cutoff rid) tasks)

-- The WHERE of the deletion; `recording_id` is the key of the jobs, so the join gives one row.
unfoldable pub expired : Store → ℕ → Recording → Bool
unfolding find_row any_row
expired s cutoff r =
    ltb r.last_received_at cutoff
    && job_over cutoff s.delivery_tasks r.id
        (find_row (λ (j : ExtractionJob). j.recording_id == r.id) s.extraction_jobs)

-- The recording of this id is deleted.
unfoldable pub purged : Store → ℕ → ℕ → Bool
unfolding any_row expired
purged s cutoff rid = any_row (λ (r : Recording). r.id == rid && expired s cutoff r) s.recordings

abbrev pub purged_task : Store → ℕ → ℕ → DeliveryTask → Bool
purged_task s cutoff id t = t.id == id && purged s cutoff t.recording_id

unfoldable pub purge : Store → ℕ → Store
unfolding any_row delete_rows expired purged
purge s cutoff = record s {
  recordings = delete_rows (expired s cutoff) s.recordings;
  extraction_jobs =
      delete_rows (λ (j : ExtractionJob). purged s cutoff j.recording_id) s.extraction_jobs;
  extractions = delete_rows (λ (x : Extraction). purged s cutoff x.recording_id) s.extractions;
  extraction_attempts = delete_rows (λ (a : Attempt). purged s cutoff a.of) s.extraction_attempts;
  delivery_tasks =
      delete_rows (λ (t : DeliveryTask). purged s cutoff t.recording_id) s.delivery_tasks;
  delivery_attempts =
      delete_rows (λ (a : Attempt). any_row (purged_task s cutoff a.of) s.delivery_tasks)
        s.delivery_attempts;
}

-- `PurgeExpiredRecordings`; 0 stands for every retention that is not positive.
unfoldable pub purge_expired_recordings : Store → ℕ → ℕ → Result (Store × ℕ)
unfolding purge count_rows
purge_expired_recordings s now retention =
    if retention == 0
    then err invalid_argument
    else ok (purge s (now - retention), count_rows (expired s (now - retention)) s.recordings)

abbrev pub evidence_expired : ℕ → EvaluationEvidence → Bool
evidence_expired now e = leb e.expires_at_ms (unix_milli now)

unfoldable pub evidence_purged : Store → ℕ → List ℕ → Bool
unfolding any_row text_eq
evidence_purged s now fingerprint =
    any_row
      (λ (e : EvaluationEvidence).
        text_eq e.recording_fingerprint fingerprint && evidence_expired now e)
      s.evaluation_evidence

-- `PurgeExpiredEvaluationEvidence`, with the rows that belong to the evidence.
unfoldable pub purge_expired_evaluation_evidence : Store → ℕ → Store × ℕ
unfolding delete_rows count_rows evidence_purged
purge_expired_evaluation_evidence s now = (
  record s {
    evaluation_evidence = delete_rows (evidence_expired now) s.evaluation_evidence;
    evaluation_deliveries =
        delete_rows (λ (d : EvaluationDelivery). evidence_purged s now d.recording_fingerprint)
          s.evaluation_deliveries;
    shadow_verifications =
        delete_rows (λ (v : ShadowRow). evidence_purged s now v.recording_fingerprint)
          s.shadow_verifications;
  },
  count_rows (evidence_expired now) s.evaluation_evidence,
)
