-- ===== src/Queue/Extraction/Restart.antt =====
-- The other changes of a job: CompleteRejectedExtraction, SaveExtractionVerification and
-- RetryRecordingByID.
use index_01_hook.Base.{
  ℕ, ◌<◌, ◌≡◌, refl, sym, subst, ◌∙◌, true, some, List, arith, All, inl, inr, Bool-cases,
}
use index_01_hook.Base.Keys.{mem-All, count_rows-mem, counted-one}
use index_01_hook.Base.Text.{Text, trim_space}
use index_01_hook.Queue.Types.{review, ExtractionJob, Evidence, Store}
use index_01_hook.Queue.Schema.{
  lease_lost, manual_retry_not_allowed, ok, is_leased, is_terminal, allowed_transition,
  extraction_outcome, insert_attempt, update_jobs, guard-eq-ok, >>=-eq-ok, ok-injective,
  update_jobs-eq-ok, insert_attempt-eq-ok,
}
use index_01_hook.Queue.Invariant.{JobInv, Inv}
use index_01_hook.Queue.Invariant.Jobs.{JobChange}
use index_01_hook.Queue.Invariant.Keeps.{Keeps, Keeps-refl, job_update-Keeps, job_finish-Keeps}
use index_01_hook.Queue.Extraction.{
  active_extraction, active_job, extraction_attempt, of_recording, or_lease_lost,
  or_lease_lost-eq-ok, no_evidence, save_extraction_verification, reject_job,
  complete_rejected_extraction, restart_job, restartable_job, retry_recording_by_id,
}
use index_01_hook.Queue.Extraction.Erase.{Erased, erase_transcription-Erased}
use index_01_hook.Queue.Extraction.Finish.{
  active_extraction-Active, active_job-facts, leased-extracting, of_recording-names,
}

reject-change :
    (now : ℕ) (j : ExtractionJob)
    → is_leased j.state ≡ true
    → JobInv j
    → JobChange (reject_job now) j
unfolding allowed_transition
reject-change now j held h = record {
  same_recording = λ r. refl;
  legal = rw (leased-extracting j h held);
  sound = λ old. record {
    agrees = refl;
    lease_held = refl;
    cycle_within = old.cycle_within;
    completion = refl;
  };
  grows = ground arith;
  counts = omega arith;
  positive = λ e. ground arith;
  settles = λ e. refl;
}

-- Completing a rejected extraction, where it succeeds in a store that satisfies the invariant,
-- keeps the invariant and erases what was said in the recording.
pub complete_rejected_extraction-Keeps :
    (s t : Store) (now rid : ℕ) (owner : Text) (attempt : ℕ)
    → Inv s
    → complete_rejected_extraction s now rid owner attempt ≡ ok t
    → Keeps s t × All (Erased rid) t.recordings
unfolding complete_rejected_extraction
complete_rejected_extraction-Keeps s t now rid owner attempt h e =
    let (j, e1, h1) = >>=-eq-ok (or_lease_lost (active_extraction s rid owner attempt now)) _ e in
    let (attempts, e2, h2) =
      >>=-eq-ok
        (insert_attempt extraction_outcome (extraction_attempt rid j.attempt_count review now)
          s.extraction_attempts)
        _ h1 in
    let (jobs, e3, h3) =
      >>=-eq-ok (update_jobs (of_recording rid) (reject_job now) s.extraction_jobs) _ h2 in
    let active = active_extraction-Active s rid owner attempt now j (or_lease_lost-eq-ok _ j e1) in
    (
      subst (Keeps s) (ok-injective h3) (
          job_finish-Keeps s _ h (of_recording rid) (reject_job now) j active.member
            (of_recording-names rid j active.same_recording)
            (reject-change now j active.is_held
              (mem-All JobInv s.extraction_jobs j h.job_rows active.member))
            (extraction_attempt rid j.attempt_count review now) (sym active.same_recording) refl
            (let q = active.same_recording in ground arith) active.is_held refl refl
            (update_jobs-eq-ok _ _ _ _ e3) (insert_attempt-eq-ok _ _ _ _ e2) refl refl),
      subst (λ (v : Store). All (Erased rid) v.recordings) (ok-injective h3)
          (erase_transcription-Erased rid s.recordings),
    )

evidence-change :
    (evidence : List Evidence) (j : ExtractionJob)
    → JobInv j
    → is_leased j.state ≡ true
    → 0 < j.attempt_count
    → JobChange (λ (r : ExtractionJob). record r { verification = some evidence }) j
unfolding allowed_transition
evidence-change evidence j h held positive = record {
  same_recording = λ r. refl;
  legal = rw (leased-extracting j h held);
  sound = λ old. record {
    agrees = old.agrees;
    lease_held = old.lease_held;
    cycle_within = old.cycle_within;
    completion = old.completion;
  };
  grows = omega arith;
  counts = omega arith;
  positive = λ e. positive;
  settles = λ e. e;
}

-- The evidence of an active claim is saved on its job.
pub save_extraction_verification-Keeps :
    (s t : Store) (now rid : ℕ) (owner : Text) (attempt : ℕ) (evidence : List Evidence)
    → Inv s
    → save_extraction_verification s now rid owner attempt evidence ≡ ok t
    → Keeps s t
unfolding save_extraction_verification
save_extraction_verification-Keeps s t now rid owner attempt evidence h e =
    elim (Bool-cases (no_evidence evidence)) [
      | inl q ↦ subst (Keeps s) (ok-injective (rw q at e)) (Keeps-refl s h)
      | inr q ↦
          let matches = active_job rid (trim_space owner) attempt now in
          let (passed, done) = guard-eq-ok _ lease_lost _ (rw q at e) in
          let (j, m, hit) = count_rows-mem matches s.extraction_jobs (counted-one _ passed) in
          let (named, held, _, _) = active_job-facts rid (trim_space owner) attempt now j hit in
          subst (Keeps s) (ok-injective done) (
            job_update-Keeps s _ h matches _ j m
              (λ r r_hit.
                (active_job-facts rid (trim_space owner) attempt now r r_hit).0 ∙ sym named)
              (evidence-change evidence j (mem-All JobInv s.extraction_jobs j h.job_rows m) held
                ((mem-All _ s.extraction_jobs j h.job_ledger.counted m).1 held))
              refl refl refl refl)
    ]

restart-change :
    (now : ℕ) (j : ExtractionJob)
    → JobInv j
    → is_terminal j.workflow_state ≡ true
    → JobChange (restart_job now) j
unfolding allowed_transition
restart-change now j h over = record {
  same_recording = λ r. refl;
  legal = ground arith;
  sound = λ old. record {
    agrees = refl;
    lease_held = refl;
    cycle_within = omega arith;
    completion = refl;
  };
  grows = omega arith;
  counts = omega arith;
  positive = λ e. ground arith;
  settles = λ e. let q = h.agrees in ground arith;
}

restartable_job-names :
    (rid : ℕ) (j : ExtractionJob)
    → restartable_job rid j ≡ true
    → (j.recording_id ≡ rid) × (is_terminal j.workflow_state ≡ true)
restartable_job-names rid j hit = (ground arith, ground arith)

-- A manual retry.
pub retry_recording_by_id-Keeps :
    (s t : Store) (now rid : ℕ) → Inv s → retry_recording_by_id s now rid ≡ ok t → Keeps s t
unfolding retry_recording_by_id
retry_recording_by_id-Keeps s t now rid h e =
    let (jobs, e1, h1) =
      >>=-eq-ok (update_jobs (restartable_job rid) (restart_job now) s.extraction_jobs) _ e in
    let (passed, h2) = guard-eq-ok _ manual_retry_not_allowed _ h1 in
    let (j, m, hit) =
      count_rows-mem (restartable_job rid) s.extraction_jobs (counted-one _ passed) in
    let (named, over) = restartable_job-names rid j hit in
    subst (Keeps s) (ok-injective h2) (
      job_update-Keeps s _ h (restartable_job rid) (restart_job now) j m
        (λ r q. (restartable_job-names rid r q).0 ∙ sym named)
        (restart-change now j (mem-All JobInv s.extraction_jobs j h.job_rows m) over)
        (update_jobs-eq-ok _ _ _ _ e1) refl refl refl)
