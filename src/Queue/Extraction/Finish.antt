-- ===== src/Queue/Extraction/Finish.antt =====
-- The end of an extraction attempt: finishExtractionAttempt and the operations that call it.
use mathlib.Core.List.{Memᴰ}
use index_01_hook.Base.{
  ℕ, ◌≡◌, refl, sym, subst, Bool, true, false, not, ◌||◌, none, some, [], ◌∷◌, ◌++◌, arith,
  Option-cases, inl, inr,
}
use index_01_hook.Base.Rows.{update_rows, find_row-sat}
use index_01_hook.Base.Keys.{mem-All, find_row-mem}
use index_01_hook.Base.Text.{Text, trim_space}
use index_01_hook.Queue.Types.{
  extraction, Outcome, QueueState, retry, in_review, Workflow, extracting, retry_wait, needs_review,
  ExtractionJob, Store,
}
use index_01_hook.Queue.Schema.{
  invalid_argument, lease_lost, ok, err, is_leased, is_completed, is_terminal, valid_outcome,
  is_success, extraction_outcome, allowed_transition, insert_attempt, guard-eq-ok,
}
use index_01_hook.Queue.Ledger.{insert_attempt-held}
use index_01_hook.Queue.Invariant.{JobInv, job_states_agree, Inv}
use index_01_hook.Queue.Invariant.Jobs.{JobChange, recording_key, update_jobs-one}
use index_01_hook.Queue.Invariant.Keeps.{Keeps, job_finish-Keeps}
use index_01_hook.Queue.Extraction.{
  active_extraction, active_job, leased_by, of_recording, extraction_attempt, finish_job,
  blocks_extraction, finish_extraction_attempt, retry_extraction, review_extraction,
  block_extraction,
}

-- What the fence has checked of the job that it found.
pub record Active (s : Store) (rid : ℕ) (owner : Text) (attempt now : ℕ) (j : ExtractionJob)
    : Type 0 where
  pub member : Memᴰ j s.extraction_jobs
  pub same_recording : j.recording_id ≡ rid
  pub is_held : is_leased j.state ≡ true
  pub same_attempt : j.attempt_count ≡ attempt
  pub in_time : leased_by (trim_space owner) j.lease now ≡ true

pub active_job-facts :
    (rid : ℕ) (owner : Text) (attempt now : ℕ) (j : ExtractionJob)
    → active_job rid owner attempt now j ≡ true
    → (j.recording_id ≡ rid)
      × (is_leased j.state ≡ true)
      × (j.attempt_count ≡ attempt)
      × (leased_by owner j.lease now ≡ true)
active_job-facts rid owner attempt now j h =
    (ground arith, ground arith, ground arith, ground arith)

pub active_extraction-Active :
    (s : Store) (rid : ℕ) (owner : Text) (attempt now : ℕ) (j : ExtractionJob)
    → active_extraction s rid owner attempt now ≡ some j
    → Active s rid owner attempt now j
unfolding active_extraction
active_extraction-Active s rid owner attempt now j h =
    let facts =
      active_job-facts rid (trim_space owner) attempt now j
        (find_row-sat _ s.extraction_jobs j h) in
    record {
      member = find_row-mem _ s.extraction_jobs j h;
      same_recording = facts.0;
      is_held = facts.1;
      same_attempt = facts.2;
      in_time = facts.3;
    }

-- The two ends that an attempt may have.
abbrev pub ends_attempt : QueueState → Workflow → Bool
ends_attempt retry retry_wait = true
ends_attempt in_review workflow = is_terminal workflow
ends_attempt _ _ = false

pub leased-extracting :
    (j : ExtractionJob) → JobInv j → is_leased j.state ≡ true → j.workflow_state ≡ extracting
leased-extracting j h held = ground arith

ends_facts :
    (state : QueueState) (workflow : Workflow)
    → ends_attempt state workflow ≡ true
    → (allowed_transition extraction extracting workflow ≡ true)
      × (job_states_agree state workflow ≡ true)
      × (is_leased state ≡ false)
      × (is_completed state ≡ false)
unfolding allowed_transition
ends_facts state workflow h = (ground arith, ground arith, ground arith, ground arith)

finish-change :
    (state : QueueState) (workflow : Workflow) (retry_at now : ℕ) (c : Outcome) (j : ExtractionJob)
    → ends_attempt state workflow ≡ true
    → is_leased j.state ≡ true
    → JobInv j
    → JobChange (finish_job state workflow retry_at c now) j
finish-change state workflow retry_at now c j ends held h =
    let facts = ends_facts state workflow ends in
    record {
      same_recording = λ r. refl;
      legal = rw (leased-extracting j h held) facts.0;
      sound = λ old. record {
        agrees = facts.1;
        lease_held = sym facts.2;
        cycle_within = old.cycle_within;
        completion = ground arith;
      };
      grows = rw facts.2 (omega arith);
      counts = omega arith;
      positive = λ e. ground arith;
      settles = λ e. ground arith;
    }

pub of_recording-names :
    (rid : ℕ) (j : ExtractionJob)
    → j.recording_id ≡ rid
    → (r : ExtractionJob) → of_recording rid r ≡ true
    → recording_key r ≡ recording_key j
of_recording-names rid j e r h = ground arith

abbrev pub finished : Store → ℕ → ℕ → ℕ → Outcome → QueueState → Workflow → ℕ → Store
finished s now rid attempt c state workflow retry_at = record s {
  extraction_attempts = s.extraction_attempts ++ (extraction_attempt rid attempt c now ∷ []);
  extraction_jobs =
      update_rows (of_recording rid) (finish_job state workflow retry_at c now) s.extraction_jobs;
}

module _ (s : Store) (now rid : ℕ) (owner : Text) (attempt : ℕ) (j : ExtractionJob) (h : Inv s)
    (found : active_extraction s rid owner attempt now ≡ some j) where
  active : Active s rid owner attempt now j
  active = active_extraction-Active s rid owner attempt now j found

  active-JobInv : JobInv j
  active-JobInv = mem-All JobInv s.extraction_jobs j h.job_rows active.member

  -- In a store that satisfies the invariant, an attempt under an active claim ends as the caller
  -- asks, with a classification that extractions allow and an end state that belongs to its
  -- workflow state: no constraint and no trigger stops it.
  pub finish_extraction_attempt-active :
      (c : Outcome) (state : QueueState) (workflow : Workflow) (retry_at : ℕ)
      → extraction_outcome c ≡ true
      → ends_attempt state workflow ≡ true
      → finish_extraction_attempt s now rid owner attempt c state workflow retry_at
        ≡ ok (finished s now rid attempt c state workflow retry_at)
  unfolding finish_extraction_attempt
  finish_extraction_attempt-active c state workflow retry_at checked ends =
      let inserted : insert_attempt extraction_outcome
            (extraction_attempt rid j.attempt_count c now) s.extraction_attempts
          ≡ ok (s.extraction_attempts ++ (extraction_attempt rid attempt c now ∷ [])) =
        rw (← active.same_recording, ← active.same_attempt)
          (insert_attempt-held _ _ _ extraction_outcome c now j s.extraction_jobs
            s.extraction_attempts h.job_ledger active.member active.is_held checked) in
      rw (
        found,
        inserted,
        update_jobs-one (of_recording rid) (finish_job state workflow retry_at c now) j h.job_ledger
            active.member (of_recording-names rid j active.same_recording)
            (finish-change state workflow retry_at now c j ends active.is_held active-JobInv).legal,
      )

  pub finished-Keeps :
      (c : Outcome) (state : QueueState) (workflow : Workflow) (retry_at : ℕ)
      → ends_attempt state workflow ≡ true
      → Keeps s (finished s now rid attempt c state workflow retry_at)
  finished-Keeps c state workflow retry_at ends =
      job_finish-Keeps s _ h (of_recording rid) (finish_job state workflow retry_at c now) j
        active.member (of_recording-names rid j active.same_recording)
        (finish-change state workflow retry_at now c j ends active.is_held active-JobInv)
        (extraction_attempt rid attempt c now) (sym active.same_recording) (sym active.same_attempt)
        (let e = active.same_recording in ground arith) active.is_held
        (ends_facts state workflow ends).2 refl refl refl refl refl

-- Without an active claim nothing ends.
pub finish_extraction_attempt-inactive :
    (s : Store) (now rid : ℕ) (owner : Text) (attempt : ℕ) (c : Outcome) (state : QueueState)
    (workflow : Workflow) (retry_at : ℕ)
    → active_extraction s rid owner attempt now ≡ none
    → finish_extraction_attempt s now rid owner attempt c state workflow retry_at ≡ err lease_lost
unfolding finish_extraction_attempt
finish_extraction_attempt-inactive s now rid owner attempt c state workflow retry_at gone = rw gone

failure_checked :
    (c : Outcome) → (not (valid_outcome c) || is_success c) ≡ false → extraction_outcome c ≡ true
unfolding valid_outcome
failure_checked c h = ground arith

block_checked :
    (c : Outcome) (w : Workflow)
    → (not (blocks_extraction c) || not (is_terminal w)) ≡ false
    → (extraction_outcome c ≡ true) × (is_terminal w ≡ true)
block_checked c w h = (ground arith, ground arith)

-- A retried, reviewed or blocked attempt is an active claim that ended.
module _ (s t : Store) (now rid : ℕ) (owner : Text) (attempt : ℕ) (h : Inv s) where
  finish_extraction_attempt-Keeps :
      (c : Outcome) (state : QueueState) (workflow : Workflow) (retry_at : ℕ)
      → extraction_outcome c ≡ true
      → ends_attempt state workflow ≡ true
      → finish_extraction_attempt s now rid owner attempt c state workflow retry_at ≡ ok t
      → Keeps s t
  finish_extraction_attempt-Keeps c state workflow retry_at checked ends e =
      elim (Option-cases (active_extraction s rid owner attempt now)) [
        | inl gone ↦ absurd (lost gone)
        | inr (j, found) ↦
            let done =
              finish_extraction_attempt-active s now rid owner attempt j h found c state workflow
                retry_at checked ends in
            let same : finished s now rid attempt c state workflow retry_at ≡ t = cc in
            subst (Keeps s) same
              (finished-Keeps s now rid owner attempt j h found c state workflow retry_at ends)
      ]
    where
      lost : active_extraction s rid owner attempt now ≡ none → ⊥
      lost gone =
          let refused =
            finish_extraction_attempt-inactive s now rid owner attempt c state workflow retry_at
              gone in
          cc

  pub retry_extraction-Keeps :
      (c : Outcome) (retry_at : ℕ)
      → retry_extraction s now rid owner attempt c retry_at ≡ ok t
      → Keeps s t
  unfolding retry_extraction
  retry_extraction-Keeps c retry_at e =
      let (passed, done) = guard-eq-ok _ invalid_argument _ e in
      finish_extraction_attempt-Keeps c retry retry_wait retry_at (failure_checked c passed) refl
        done

  pub review_extraction-Keeps :
      (later : ℕ) (c : Outcome)
      → review_extraction s later now rid owner attempt c ≡ ok t
      → Keeps s t
  unfolding review_extraction
  review_extraction-Keeps later c e =
      let (passed, done) = guard-eq-ok _ invalid_argument _ e in
      finish_extraction_attempt-Keeps c in_review needs_review later (failure_checked c passed) refl
        done

  pub block_extraction-Keeps :
      (later : ℕ) (c : Outcome) (workflow : Workflow)
      → block_extraction s later now rid owner attempt c workflow ≡ ok t
      → Keeps s t
  unfolding block_extraction
  block_extraction-Keeps later c workflow e =
      let (passed, done) = guard-eq-ok _ invalid_argument _ e in
      finish_extraction_attempt-Keeps c in_review workflow later (block_checked c workflow passed).0
        (block_checked c workflow passed).1 done
