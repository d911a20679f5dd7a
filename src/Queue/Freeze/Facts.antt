-- ===== src/Queue/Freeze/Facts.antt =====
-- What a successful FreezeExtraction has done to each table.
use index_01_hook.Base.{
  ℕ, ◌≡◌, refl, Bool, true, false, not, some, List, [], ◌∷◌, ◌++◌, subst, length, if◌then◌else◌,
  All,
}
use index_01_hook.Base.Rows.{update_rows}
use index_01_hook.Base.Text.{Text}
use index_01_hook.Queue.Types.{
  success, Recording, ExtractionJob, Attempt, Extraction, DeliveryTask, FrozenExtraction, Store,
}
use index_01_hook.Queue.Schema.{
  invalid_extraction, ok, >>=-eq-ok, guard-eq-ok, ok-injective, extraction_outcome, update_jobs,
  insert_attempt, update_jobs-eq-ok, insert_attempt-eq-ok,
}
use index_01_hook.Queue.Evaluation.{recording_by_id, capture_evaluation_extraction}
use index_01_hook.Queue.Evaluation.SameQueue.{SameQueue, capture_evaluation_extraction-SameQueue}
use index_01_hook.Queue.Frozen.{frozen_items, validate_frozen_extraction}
use index_01_hook.Queue.Extraction.{
  active_extraction, extraction_attempt, erase_transcription, or_lease_lost, or_lease_lost-eq-ok,
  of_recording,
}
use index_01_hook.Queue.Extraction.Erase.{Erased, erase_transcription-Erased}
use index_01_hook.Queue.Freeze.{
  no_items, insert_items, freeze_job, freeze_extraction, insert_extraction,
}

pub record Froze (fold : ℕ → ℕ) (s t : Store) (now rid : ℕ) (owner : Text) (attempt : ℕ)
    (x : FrozenExtraction) : Type 0 where
  pub valid : validate_frozen_extraction x ≡ true
  pub job : ExtractionJob
  pub recording : Recording
  pub found : active_extraction s rid owner attempt now ≡ some job
  pub recorded : recording_by_id rid s.recordings ≡ some recording
  pub extracted_once :
      insert_extraction rid now x (length (frozen_items x)) s.extractions ≡ ok t.extractions
  pub delivered :
      insert_items fold rid now recording.payload_fingerprint 0 (frozen_items x) s.delivery_tasks
      ≡ ok t.delivery_tasks
  pub logged :
      t.extraction_attempts
      ≡ s.extraction_attempts ++ (extraction_attempt rid job.attempt_count success now ∷ [])
  pub settled :
      t.extraction_jobs
      ≡ update_rows
          (of_recording rid)
          (freeze_job (no_items (frozen_items x)) now)
          s.extraction_jobs
  pub erased : no_items (frozen_items x) ≡ true → All (Erased rid) t.recordings
  pub untouched : t.delivery_attempts ≡ s.delivery_attempts

not-true : (b : Bool) → not b ≡ false → b ≡ true
not-true true h = refl
not-true false h = cc

module _ (fold : ℕ → ℕ) (s t : Store) (now rid : ℕ) (owner : Text) (attempt : ℕ)
    (x : FrozenExtraction) where
  abbrev frozen_store : Store → List DeliveryTask → List Attempt → List ExtractionJob → Store
  frozen_store u tasks attempts jobs = record u {
    recordings =
        if no_items (frozen_items x) then erase_transcription rid u.recordings else u.recordings;
    delivery_tasks = tasks;
    extraction_attempts = attempts;
    extraction_jobs = jobs;
  }

  -- The last statements of the transaction, under what the first ones have found.
  frozen_store-Froze :
      (j : ExtractionJob) (r : Recording) (extractions : List Extraction) (u : Store)
      (tasks : List DeliveryTask) (attempts : List Attempt) (jobs : List ExtractionJob)
      → validate_frozen_extraction x ≡ true
      → or_lease_lost (active_extraction s rid owner attempt now) ≡ ok j
      → or_lease_lost (recording_by_id rid s.recordings) ≡ ok r
      → insert_extraction rid now x (length (frozen_items x)) s.extractions ≡ ok extractions
      → SameQueue (record s { extractions = extractions }) u
      → insert_items fold rid now r.payload_fingerprint 0 (frozen_items x) u.delivery_tasks
        ≡ ok tasks
      → insert_attempt extraction_outcome
          (extraction_attempt rid j.attempt_count success now)
          u.extraction_attempts
        ≡ ok attempts
      → update_jobs
          (of_recording rid)
          (freeze_job (no_items (frozen_items x)) now)
          u.extraction_jobs
        ≡ ok jobs
      → Froze fold s (frozen_store u tasks attempts jobs) now rid owner attempt x
  frozen_store-Froze j r extractions u tasks attempts jobs valid e1 e2 e3 same e5 e6 e7 = record {
    valid = valid;
    job = j;
    recording = r;
    found = or_lease_lost-eq-ok _ j e1;
    recorded = or_lease_lost-eq-ok _ r e2;
    extracted_once = rw same.extracted e3;
    delivered = rw same.tasks at e5;
    logged = insert_attempt-eq-ok _ _ _ _ (rw same.attempts at e6);
    settled = update_jobs-eq-ok _ _ _ _ (rw same.jobs at e7);
    erased = λ empty. rw empty (erase_transcription-Erased rid u.recordings);
    untouched = same.task_attempts;
  }

  pub freeze_extraction-Froze :
      freeze_extraction fold s now rid owner attempt x ≡ ok t
      → Froze fold s t now rid owner attempt x
  unfolding freeze_extraction
  freeze_extraction-Froze h =
      let (passed, h1) = guard-eq-ok _ invalid_extraction _ h in
      let (j, e1, h2) =
        >>=-eq-ok (or_lease_lost (active_extraction s rid owner attempt now)) _ h1 in
      let (r, e2, h3) = >>=-eq-ok (or_lease_lost (recording_by_id rid s.recordings)) _ h2 in
      let (extractions, e3, h4) =
        >>=-eq-ok (insert_extraction rid now x (length (frozen_items x)) s.extractions) _ h3 in
      let (u, e4, h5) =
        >>=-eq-ok (capture_evaluation_extraction (record s { extractions = extractions }) rid x now)
          _ h4 in
      let (tasks, e5, h6) =
        >>=-eq-ok
          (insert_items fold rid now r.payload_fingerprint 0 (frozen_items x) u.delivery_tasks) _
          h5 in
      let (attempts, e6, h7) =
        >>=-eq-ok
          (insert_attempt extraction_outcome (extraction_attempt rid j.attempt_count success now)
            u.extraction_attempts)
          _ h6 in
      let (jobs, e7, h8) =
        >>=-eq-ok
          (update_jobs (of_recording rid) (freeze_job (no_items (frozen_items x)) now)
            u.extraction_jobs)
          _ h7 in
      subst (λ v. Froze fold s v now rid owner attempt x) (ok-injective h8)
        (frozen_store-Froze j r extractions u tasks attempts jobs (not-true _ passed) e1 e2 e3
          (capture_evaluation_extraction-SameQueue _ rid x now u e4) e5 e6 e7)
