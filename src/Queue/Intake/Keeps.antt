-- ===== src/Queue/Intake/Keeps.antt =====
-- SaveRecording keeps the queue's invariant.
use index_01_hook.Base.{
  ℕ, ◌≡◌, ◌≢◌, refl, ap, subst, Bool, true, false, List, [], ◌∷◌, ◌++◌, arith, All, Bool-cases, inl,
  inr, ◌==◌, if◌then◌else◌,
}
use index_01_hook.Base.Rows.{any_row}
use index_01_hook.Base.Text.{is_blank, trim_space}
use index_01_hook.Base.Advance.{Advance-append}
use index_01_hook.Queue.Types.{ExtractionJob, Store}
use index_01_hook.Queue.Schema.{ok, >>=-eq-ok, ok-injective}
use index_01_hook.Queue.Evaluation.{capture_evaluation_input}
use index_01_hook.Queue.Evaluation.SameQueue.{capture_evaluation_input-SameQueue}
use index_01_hook.Queue.Invariant.{Inv}
use index_01_hook.Queue.Invariant.Jobs.{recording_key, job_snoc-QueueInv}
use index_01_hook.Queue.Invariant.Keeps.{
  Keeps, Keeps-refl, untouched-Keeps, Inv-tables, job_forward, job_forward_refl, same_tasks,
}
use index_01_hook.Queue.Intake.{
  RecordingInput, Receipt, insert_job, new_job, job_of, queue_job, upsert_recording, save_recording,
}

absent :
    (rid : ℕ) (jobs : List ExtractionJob)
    → any_row (job_of rid) jobs ≡ false
    → All (λ r. recording_key r ≢ rid) jobs
unfolding any_row
absent rid [] h = tt
absent rid (j ∷ jobs) h = ((λ e. ground arith), absent rid jobs (ground arith))

-- A store whose jobs are those of `s` and, where it had none, one of the recording.
insert_job-Keeps :
    (s t : Store) (rid now : ℕ)
    → Inv s
    → t.extraction_jobs ≡ insert_job rid now s.extraction_jobs
    → t.extraction_attempts ≡ s.extraction_attempts
    → t.delivery_tasks ≡ s.delivery_tasks
    → t.delivery_attempts ≡ s.delivery_attempts
    → Keeps s t
unfolding insert_job
insert_job-Keeps s t rid now h e1 e2 e3 e4 =
    elim (Bool-cases (any_row (job_of rid) s.extraction_jobs)) [
      | inl there ↦ untouched-Keeps s t h (rw there at e1) e2 e3 e4
      | inr missing ↦
          let appended : t.extraction_jobs ≡ s.extraction_jobs ++ (new_job rid now ∷ []) =
            rw missing at e1 in
          record {
            inv =
                Inv-tables s t h
                  (job_snoc-QueueInv (new_job rid now) h (absent rid s.extraction_jobs missing)
                    (record {
                      agrees = refl;
                      lease_held = refl;
                      cycle_within = omega arith;
                      completion = refl;
                    })
                    refl)
                  appended e2 e3 e4;
            jobs = rw appended (
                Advance-append recording_key job_forward job_forward_refl s.extraction_jobs
                  (new_job rid now ∷ []));
            tasks = same_tasks s t h e3;
          }
    ]

queue_job-Keeps :
    (s t : Store) (rid count now : ℕ) → Inv s → queue_job rid count now s ≡ ok t → Keeps s t
unfolding queue_job
queue_job-Keeps s t rid count now h e = elim (Bool-cases (count == 1)) [
  | inl first ↦
      let (u, captured, done) = >>=-eq-ok (capture_evaluation_input s rid now) _ (rw first at e) in
      let same = capture_evaluation_input-SameQueue s rid now u captured in
      subst (Keeps s) (ok-injective done) (
        insert_job-Keeps s _ rid now h (ap (insert_job rid now) same.jobs) same.attempts same.tasks
          same.task_attempts)
  | inr again ↦
      subst (Keeps s) (ok-injective (rw again at e))
        (insert_job-Keeps s _ rid now h refl refl refl refl)
]

dispatch-Keeps :
    (s t : Store) (silent : Bool) (rid count now : ℕ)
    → Inv s
    → (if silent then ok s else queue_job rid count now s) ≡ ok t
    → Keeps s t
dispatch-Keeps s t true rid count now h e = subst (Keeps s) (ok-injective e) (Keeps-refl s h)
dispatch-Keeps s t false rid count now h e = queue_job-Keeps s t rid count now h e

-- Whatever is received, a save keeps the queue's invariant.
pub save_recording-Keeps :
    (s t : Store) (now : ℕ) (input : RecordingInput) (receipt : Receipt)
    → Inv s
    → save_recording s now input ≡ ok (t, receipt)
    → Keeps s t
unfolding save_recording
save_recording-Keeps s t now input receipt h e =
    let (recordings, (id, receive_count)) = upsert_recording now input s.recordings in
    let saved = record s { recordings = recordings } in
    let (u, dispatched, done) =
      >>=-eq-ok
        (if is_blank (trim_space input.transcription)
          then ok saved
          else queue_job id receive_count now saved)
        _ e in
    let keeps =
      dispatch-Keeps saved u (is_blank (trim_space input.transcription)) id receive_count now h
        dispatched in
    subst (Keeps s) (ap (λ a. a.0) (ok-injective done))
      (record { inv = keeps.inv; jobs = keeps.jobs; tasks = keeps.tasks })
