-- ===== src/Queue/Invariant/Tasks.antt =====
-- Changes of one delivery task: the trigger lets them pass and the invariant holds after them.
use mathlib.Core.List.{Memᴰ}
use index_01_hook.Base.{
  ℕ, ◌+◌, ◌≤◌, ◌<◌, ◌≡◌, sym, subst, Bool, true, false, not, List, [], ◌∷◌, ◌++◌, ◌≢◌, All,
  All-append,
}
use index_01_hook.Base.Rows.{any_row, update_rows}
use index_01_hook.Base.Keys.{Names, update_rows-one, update_rows-both, any_row-one}
use index_01_hook.Queue.Types.{delivery, ExtractionJob, Attempt, DeliveryTask}
use index_01_hook.Queue.Schema.{ok, update_tasks, allowed_transition, is_leased, is_completed}
use index_01_hook.Queue.Ledger.{slack, Ledger-update, Ledger-finish, Ledger-snoc}
use index_01_hook.Queue.Invariant.{TaskInv, Settled, settled_for, TaskLedger, QueueInv}

-- A change of task `t` that keeps the invariant.
pub record TaskChange (f : DeliveryTask → DeliveryTask) (t : DeliveryTask) : Type 0 where
  pub same_id : (r : DeliveryTask) → (f r).id ≡ r.id
  pub same_recording : (r : DeliveryTask) → (f r).recording_id ≡ r.recording_id
  pub legal : allowed_transition delivery t.workflow_state (f t).workflow_state ≡ true
  pub sound : TaskInv t → TaskInv (f t)
  pub grows :
      t.attempt_count + slack (is_leased (f t).state)
      ≤ (f t).attempt_count + slack (is_leased t.state)
  pub counts : t.attempt_count ≤ (f t).attempt_count
  pub same_marker : (f t).marker ≡ t.marker
  pub completes : is_completed t.state ≡ true → is_completed (f t).state ≡ true
  pub positive : is_leased (f t).state ≡ true → 0 < (f t).attempt_count

abbrev pub task_key : DeliveryTask → ℕ
task_key t = t.id

module _ (p : DeliveryTask → Bool) (f : DeliveryTask → DeliveryTask) (t : DeliveryTask) where
  -- The trigger does not fire.
  pub update_tasks-one :
      {tasks : List DeliveryTask} {attempts : List Attempt}
      → TaskLedger tasks attempts
      → Memᴰ t tasks
      → Names task_key p t
      → allowed_transition delivery t.workflow_state (f t).workflow_state ≡ true
      → update_tasks p f tasks ≡ ok (update_rows p f tasks)
  unfolding update_tasks
  update_tasks-one {tasks} ledger m names legal = rw (
      any_row-one task_key p t
        (λ r. not (allowed_transition delivery r.workflow_state (f r).workflow_state)) tasks
        ledger.ids m names (rw legal))

  Settled-tasks :
      (jobs : List ExtractionJob) (tasks : List DeliveryTask)
      → ((r : DeliveryTask) → (f r).recording_id ≡ r.recording_id)
      → All (Settled jobs) tasks
      → All (Settled jobs) (update_rows p f tasks)
  Settled-tasks jobs tasks same h =
      update_rows-both (Settled jobs) (Settled jobs) p f tasks
        (λ r old _. subst (λ k. any_row (settled_for k) jobs ≡ true) (sym (same r)) old)
        (λ r old _. old) h

  -- A change that records no attempt.
  pub task_update-QueueInv :
      {jobs : List ExtractionJob} {attempts : List Attempt} {tasks : List DeliveryTask}
      {task_attempts : List Attempt}
      → QueueInv jobs attempts tasks task_attempts
      → Memᴰ t tasks
      → Names task_key p t
      → TaskChange f t
      → QueueInv jobs attempts (update_rows p f tasks) task_attempts
  task_update-QueueInv {jobs} {tasks = tasks} {task_attempts} h m names change = record {
    job_rows = h.job_rows;
    job_ledger = h.job_ledger;
    task_rows =
        update_rows-one task_key p t TaskInv f tasks h.task_ledger.ids m names change.sound
          h.task_rows;
    task_ledger =
        Ledger-update _ _ _ p f t tasks task_attempts change.same_id m names change.grows
          change.positive h.task_ledger;
    settled = Settled-tasks jobs tasks change.same_recording h.settled;
  }

  -- The end of an attempt, which is recorded.
  pub task_finish-QueueInv :
      {jobs : List ExtractionJob} {attempts : List Attempt} {tasks : List DeliveryTask}
      {task_attempts : List Attempt} (a : Attempt)
      → QueueInv jobs attempts tasks task_attempts
      → Memᴰ t tasks
      → Names task_key p t
      → TaskChange f t
      → a.of ≡ t.id
      → a.attempt_number ≡ t.attempt_count
      → p t ≡ true
      → is_leased t.state ≡ true
      → is_leased (f t).state ≡ false
      → (f t).attempt_count ≡ t.attempt_count
      → QueueInv jobs attempts (update_rows p f tasks) (task_attempts ++ (a ∷ []))
  task_finish-QueueInv {jobs} {tasks = tasks} {task_attempts} a h m names change of number hit held
        free kept =
      record {
        job_rows = h.job_rows;
        job_ledger = h.job_ledger;
        task_rows =
            update_rows-one task_key p t TaskInv f tasks h.task_ledger.ids m names change.sound
              h.task_rows;
        task_ledger =
            Ledger-finish _ _ _ p f a t tasks task_attempts change.same_id m names of number hit
              held free kept h.task_ledger;
        settled = Settled-tasks jobs tasks change.same_recording h.settled;
      }

-- A new task, whose id no row has.
pub task_snoc-QueueInv :
    {jobs : List ExtractionJob} {attempts : List Attempt} {tasks : List DeliveryTask}
    {task_attempts : List Attempt} (t : DeliveryTask)
    → QueueInv jobs attempts tasks task_attempts
    → All (λ r. task_key r ≢ task_key t) tasks
    → TaskInv t
    → is_leased t.state ≡ false
    → Settled jobs t
    → QueueInv jobs attempts (tasks ++ (t ∷ [])) task_attempts
task_snoc-QueueInv {jobs} {tasks = tasks} {task_attempts} t h away sound free settled = record {
  job_rows = h.job_rows;
  job_ledger = h.job_ledger;
  task_rows = All-append TaskInv tasks (t ∷ []) h.task_rows (sound, tt);
  task_ledger = Ledger-snoc _ _ _ t tasks task_attempts away free h.task_ledger;
  settled = All-append (Settled jobs) tasks (t ∷ []) h.settled (settled, tt);
}
