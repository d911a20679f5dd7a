-- ===== src/Queue/Invariant/Jobs.antt =====
-- Changes of one extraction job: the trigger lets them pass and the invariant holds after them.
use mathlib.Core.List.{Memᴰ}
use index_01_hook.Base.{
  ℕ, ◌+◌, ◌≤◌, ◌<◌, ◌≡◌, Bool, true, false, not, List, [], ◌∷◌, ◌++◌, arith, All, All-mono,
  All-append, ◌≢◌, ◌∙◌,
}
use index_01_hook.Base.Rows.{any_row, update_rows, any_row-append}
use index_01_hook.Base.Keys.{Names, update_rows-one, any_row-one, only_row}
use index_01_hook.Queue.Types.{extraction, ExtractionJob, Attempt, DeliveryTask}
use index_01_hook.Queue.Schema.{ok, update_jobs, allowed_transition, is_leased, is_settled}
use index_01_hook.Queue.Ledger.{slack, Ledger-update, Ledger-finish, Ledger-snoc}
use index_01_hook.Queue.Invariant.{JobInv, Settled, settled_for, JobLedger, QueueInv}

-- A change of job `j` that keeps the invariant.
pub record JobChange (f : ExtractionJob → ExtractionJob) (j : ExtractionJob) : Type 0 where
  pub same_recording : (r : ExtractionJob) → (f r).recording_id ≡ r.recording_id
  pub legal : allowed_transition extraction j.workflow_state (f j).workflow_state ≡ true
  pub sound : JobInv j → JobInv (f j)
  pub grows :
      j.attempt_count + slack (is_leased (f j).state)
      ≤ (f j).attempt_count + slack (is_leased j.state)
  pub counts : j.attempt_count ≤ (f j).attempt_count
  pub positive : is_leased (f j).state ≡ true → 0 < (f j).attempt_count
  pub settles : is_settled j.state ≡ true → is_settled (f j).state ≡ true

abbrev pub recording_key : ExtractionJob → ℕ
recording_key j = j.recording_id

module _ (p : ExtractionJob → Bool) (f : ExtractionJob → ExtractionJob) (j : ExtractionJob) where
  -- The trigger does not fire.
  pub update_jobs-one :
      {jobs : List ExtractionJob} {attempts : List Attempt}
      → JobLedger jobs attempts
      → Memᴰ j jobs
      → Names recording_key p j
      → allowed_transition extraction j.workflow_state (f j).workflow_state ≡ true
      → update_jobs p f jobs ≡ ok (update_rows p f jobs)
  unfolding update_jobs
  update_jobs-one {jobs} ledger m names legal = rw (
      any_row-one recording_key p j
        (λ r. not (allowed_transition extraction r.workflow_state (f r).workflow_state)) jobs
        ledger.ids m names (rw legal))

  Settled-update :
      (rid : ℕ) (jobs : List ExtractionJob)
      → ((r : ExtractionJob) → (f r).recording_id ≡ r.recording_id)
      → All (λ r. p r ≡ true → is_settled r.state ≡ true → is_settled (f r).state ≡ true) jobs
      → any_row (settled_for rid) jobs ≡ true
      → any_row (settled_for rid) (update_rows p f jobs) ≡ true
  unfolding any_row update_rows
  Settled-update rid [] same keep h = h
  Settled-update rid (x ∷ xs) same keep h =
      ground (arith, same x, keep.0, Settled-update rid xs same keep.1)

  settles_rows :
      (jobs : List ExtractionJob) {attempts : List Attempt}
      → JobLedger jobs attempts
      → Memᴰ j jobs
      → Names recording_key p j
      → JobChange f j
      → All (λ r. p r ≡ true → is_settled r.state ≡ true → is_settled (f r).state ≡ true) jobs
  settles_rows jobs ledger m names change =
      All-mono (λ r. r.recording_id ≡ j.recording_id → r ≡ j)
        (λ r. p r ≡ true → is_settled r.state ≡ true → is_settled (f r).state ≡ true) jobs
        (λ r only hit old.
          let e : r ≡ j = only (names r hit) in rw e (change.settles (rw e at old)))
        (only_row recording_key jobs j ledger.ids m)

  Settled-rows :
      (jobs : List ExtractionJob) (tasks : List DeliveryTask) {attempts : List Attempt}
      → JobLedger jobs attempts
      → Memᴰ j jobs
      → Names recording_key p j
      → JobChange f j
      → All (Settled jobs) tasks
      → All (Settled (update_rows p f jobs)) tasks
  Settled-rows jobs tasks ledger m names change h =
      All-mono (Settled jobs) (Settled (update_rows p f jobs)) tasks
        (λ t old.
          Settled-update t.recording_id jobs change.same_recording
            (settles_rows jobs ledger m names change) old)
        h

  -- A change that records no attempt.
  pub job_update-QueueInv :
      {jobs : List ExtractionJob} {attempts : List Attempt} {tasks : List DeliveryTask}
      {task_attempts : List Attempt}
      → QueueInv jobs attempts tasks task_attempts
      → Memᴰ j jobs
      → Names recording_key p j
      → JobChange f j
      → QueueInv (update_rows p f jobs) attempts tasks task_attempts
  job_update-QueueInv {jobs} {attempts} {tasks} h m names change = record {
    job_rows =
        update_rows-one recording_key p j JobInv f jobs h.job_ledger.ids m names change.sound
          h.job_rows;
    job_ledger =
        Ledger-update _ _ _ p f j jobs attempts change.same_recording m names change.grows
          change.positive h.job_ledger;
    task_rows = h.task_rows;
    task_ledger = h.task_ledger;
    settled = Settled-rows jobs tasks h.job_ledger m names change h.settled;
  }

  -- The end of an attempt, which is recorded.
  pub job_finish-QueueInv :
      {jobs : List ExtractionJob} {attempts : List Attempt} {tasks : List DeliveryTask}
      {task_attempts : List Attempt} (a : Attempt)
      → QueueInv jobs attempts tasks task_attempts
      → Memᴰ j jobs
      → Names recording_key p j
      → JobChange f j
      → a.of ≡ j.recording_id
      → a.attempt_number ≡ j.attempt_count
      → p j ≡ true
      → is_leased j.state ≡ true
      → is_leased (f j).state ≡ false
      → (f j).attempt_count ≡ j.attempt_count
      → QueueInv (update_rows p f jobs) (attempts ++ (a ∷ [])) tasks task_attempts
  job_finish-QueueInv {jobs} {attempts} {tasks} a h m names change of number hit held free kept =
      record {
        job_rows =
            update_rows-one recording_key p j JobInv f jobs h.job_ledger.ids m names change.sound
              h.job_rows;
        job_ledger =
            Ledger-finish _ _ _ p f a j jobs attempts change.same_recording m names of number hit
              held free kept h.job_ledger;
        task_rows = h.task_rows;
        task_ledger = h.task_ledger;
        settled = Settled-rows jobs tasks h.job_ledger m names change h.settled;
      }

-- A new job, for a recording that has none.
pub job_snoc-QueueInv :
    {jobs : List ExtractionJob} {attempts : List Attempt} {tasks : List DeliveryTask}
    {task_attempts : List Attempt} (j : ExtractionJob)
    → QueueInv jobs attempts tasks task_attempts
    → All (λ r. recording_key r ≢ recording_key j) jobs
    → JobInv j
    → is_leased j.state ≡ false
    → QueueInv (jobs ++ (j ∷ [])) attempts tasks task_attempts
job_snoc-QueueInv {jobs} {attempts} {tasks} j h away sound free = record {
  job_rows = All-append JobInv jobs (j ∷ []) h.job_rows (sound, tt);
  job_ledger = Ledger-snoc _ _ _ j jobs attempts away free h.job_ledger;
  task_rows = h.task_rows;
  task_ledger = h.task_ledger;
  settled =
      All-mono (Settled jobs) (Settled (jobs ++ (j ∷ []))) tasks
        (λ t old. any_row-append (settled_for t.recording_id) jobs (j ∷ []) ∙ (rw old)) h.settled;
}
