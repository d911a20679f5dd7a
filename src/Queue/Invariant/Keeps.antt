-- ===== src/Queue/Invariant/Keeps.antt =====
-- What every operation on the queues keeps: the invariant, and that no row goes backwards.
use mathlib.Core.List.{Memᴰ}
use index_01_hook.Base.{ℕ, ◌≡◌, Bool, true, false, not, ◌&&◌, ◌||◌, List, [], ◌∷◌, ◌++◌, arith, leb}
use index_01_hook.Base.Text.{Text, text_eq, text_eq_refl, text_eq_iff}
use index_01_hook.Base.Rows.{update_rows}
use index_01_hook.Base.Keys.{Names}
use index_01_hook.Base.Advance.{Advance, Advance-refl, Advance-update, Advance-trans}
use index_01_hook.Queue.Types.{ExtractionJob, Attempt, DeliveryTask, Store}
use index_01_hook.Queue.Schema.{is_leased, is_settled, is_completed}
use index_01_hook.Queue.Invariant.{QueueInv, Inv}
use index_01_hook.Queue.Invariant.Jobs.{
  JobChange, recording_key, job_update-QueueInv, job_finish-QueueInv,
}
use index_01_hook.Queue.Invariant.Tasks.{
  TaskChange, task_key, task_update-QueueInv, task_finish-QueueInv,
}

-- A job's attempts do not shrink, and a settled job stays settled.
abbrev pub job_forward : ExtractionJob → ExtractionJob → Bool
job_forward x y =
    leb x.attempt_count y.attempt_count && (not (is_settled x.state) || is_settled y.state)

-- A task keeps its marker, its attempts do not shrink, and a completed task stays completed.
abbrev pub task_forward : DeliveryTask → DeliveryTask → Bool
task_forward x y =
    text_eq x.marker y.marker
    && leb x.attempt_count y.attempt_count
    && (not (is_completed x.state) || is_completed y.state)

abbrev pub JobsForward : List ExtractionJob → List ExtractionJob → Type 0
JobsForward = Advance recording_key job_forward

abbrev pub TasksForward : List DeliveryTask → List DeliveryTask → Type 0
TasksForward = Advance task_key task_forward

pub job_forward_refl : (x : ExtractionJob) → job_forward x x ≡ true
job_forward_refl x = ground arith

pub task_forward_refl : (x : DeliveryTask) → task_forward x x ≡ true
task_forward_refl x = let e = text_eq_refl x.marker in ground arith

job_forward_trans :
    (x y z : ExtractionJob)
    → job_forward x y ≡ true
    → job_forward y z ≡ true
    → job_forward x z ≡ true
job_forward_trans x y z a b = ground arith

marker_trans : (s t u : Text) → text_eq s t ≡ true → text_eq t u ≡ true → text_eq s u ≡ true
marker_trans s t u a b = rw ((text_eq_iff s t).0 a) b

counts_trans :
    (c1 c2 c3 : Bool) (n1 n2 n3 : ℕ)
    → leb n1 n2 ≡ true
    → (not c1 || c2) ≡ true
    → leb n2 n3 ≡ true
    → (not c2 || c3) ≡ true
    → (leb n1 n3 ≡ true) × ((not c1 || c3) ≡ true)
counts_trans c1 c2 c3 n1 n2 n3 a b c d = (ground arith, ground arith)

task_forward-parts :
    (x y : DeliveryTask)
    → task_forward x y ≡ true
    → (text_eq x.marker y.marker ≡ true)
      × (leb x.attempt_count y.attempt_count ≡ true)
      × ((not (is_completed x.state) || is_completed y.state) ≡ true)
task_forward-parts x y h = (ground arith, ground arith, ground arith)

task_forward_trans :
    (x y z : DeliveryTask)
    → task_forward x y ≡ true
    → task_forward y z ≡ true
    → task_forward x z ≡ true
task_forward_trans x y z a b =
    let (m, n, c) = task_forward-parts x y a in
    let (m', n', c') = task_forward-parts y z b in
    let marker = marker_trans x.marker y.marker z.marker m m' in
    let (counts, completes) =
      counts_trans (is_completed x.state) (is_completed y.state) (is_completed z.state)
        x.attempt_count y.attempt_count z.attempt_count n c n' c' in
    rw (marker, counts, completes)

pub record Keeps (s t : Store) : Type 0 where
  pub inv : Inv t
  pub jobs : JobsForward s.extraction_jobs t.extraction_jobs
  pub tasks : TasksForward s.delivery_tasks t.delivery_tasks

pub Keeps-refl : (s : Store) → Inv s → Keeps s s
Keeps-refl s h = record {
  inv = h;
  jobs = Advance-refl recording_key job_forward job_forward_refl s.extraction_jobs;
  tasks = Advance-refl task_key task_forward task_forward_refl s.delivery_tasks;
}

JobChange-forward :
    (f : ExtractionJob → ExtractionJob) (j : ExtractionJob)
    → JobChange f j
    → job_forward j (f j) ≡ true
JobChange-forward f j change =
    let counts = change.counts in let settles = change.settles in ground arith

TaskChange-forward :
    (f : DeliveryTask → DeliveryTask) (t : DeliveryTask)
    → TaskChange f t
    → task_forward t (f t) ≡ true
TaskChange-forward f t change =
    let counts = change.counts in
    let completes = change.completes in
    let marker : text_eq t.marker (f t).marker ≡ true =
      rw change.same_marker (text_eq_refl t.marker) in
    ground arith

module _ (s t : Store) (h : Inv s) where
  -- The invariant of a store whose tables are known.
  pub Inv-tables :
      {jobs : List ExtractionJob} {attempts : List Attempt} {tasks : List DeliveryTask}
      {task_attempts : List Attempt}
      → QueueInv jobs attempts tasks task_attempts
      → t.extraction_jobs ≡ jobs
      → t.extraction_attempts ≡ attempts
      → t.delivery_tasks ≡ tasks
      → t.delivery_attempts ≡ task_attempts
      → Inv t
  Inv-tables known e1 e2 e3 e4 = rw (e1, e2, e3, e4) known

  pub same_tasks :
      t.delivery_tasks ≡ s.delivery_tasks → TasksForward s.delivery_tasks t.delivery_tasks
  same_tasks e = rw e (Advance-refl task_key task_forward task_forward_refl s.delivery_tasks)

  same_jobs :
      t.extraction_jobs ≡ s.extraction_jobs → JobsForward s.extraction_jobs t.extraction_jobs
  same_jobs e = rw e (Advance-refl recording_key job_forward job_forward_refl s.extraction_jobs)

  -- An operation that writes none of the four tables.
  pub untouched-Keeps :
      t.extraction_jobs ≡ s.extraction_jobs
      → t.extraction_attempts ≡ s.extraction_attempts
      → t.delivery_tasks ≡ s.delivery_tasks
      → t.delivery_attempts ≡ s.delivery_attempts
      → Keeps s t
  untouched-Keeps e1 e2 e3 e4 = record {
    inv = Inv-tables h e1 e2 e3 e4;
    jobs = same_jobs e1;
    tasks = same_tasks e3;
  }

  module _ (p : ExtractionJob → Bool) (f : ExtractionJob → ExtractionJob) (j : ExtractionJob)
      (m : Memᴰ j s.extraction_jobs) (names : Names recording_key p j)
      (change : JobChange f j) where
    pub jobs_forward : JobsForward s.extraction_jobs (update_rows p f s.extraction_jobs)
    jobs_forward =
        Advance-update recording_key job_forward p f j s.extraction_jobs h.job_ledger.ids m names
          change.same_recording job_forward_refl (JobChange-forward f j change)

    pub job_update-Keeps :
        t.extraction_jobs ≡ update_rows p f s.extraction_jobs
        → t.extraction_attempts ≡ s.extraction_attempts
        → t.delivery_tasks ≡ s.delivery_tasks
        → t.delivery_attempts ≡ s.delivery_attempts
        → Keeps s t
    job_update-Keeps e1 e2 e3 e4 = record {
      inv = Inv-tables (job_update-QueueInv p f j h m names change) e1 e2 e3 e4;
      jobs = rw e1 jobs_forward;
      tasks = same_tasks e3;
    }

    pub job_finish-Keeps :
        (a : Attempt)
        → a.of ≡ j.recording_id
        → a.attempt_number ≡ j.attempt_count
        → p j ≡ true
        → is_leased j.state ≡ true
        → is_leased (f j).state ≡ false
        → (f j).attempt_count ≡ j.attempt_count
        → t.extraction_jobs ≡ update_rows p f s.extraction_jobs
        → t.extraction_attempts ≡ s.extraction_attempts ++ (a ∷ [])
        → t.delivery_tasks ≡ s.delivery_tasks
        → t.delivery_attempts ≡ s.delivery_attempts
        → Keeps s t
    job_finish-Keeps a of number hit held free kept e1 e2 e3 e4 = record {
      inv =
          Inv-tables (job_finish-QueueInv p f j a h m names change of number hit held free kept) e1
            e2 e3 e4;
      jobs = rw e1 jobs_forward;
      tasks = same_tasks e3;
    }

  module _ (p : DeliveryTask → Bool) (f : DeliveryTask → DeliveryTask) (d : DeliveryTask)
      (m : Memᴰ d s.delivery_tasks) (names : Names task_key p d) (change : TaskChange f d) where
    pub tasks_forward : TasksForward s.delivery_tasks (update_rows p f s.delivery_tasks)
    tasks_forward =
        Advance-update task_key task_forward p f d s.delivery_tasks h.task_ledger.ids m names
          change.same_id task_forward_refl (TaskChange-forward f d change)

    pub task_update-Keeps :
        t.extraction_jobs ≡ s.extraction_jobs
        → t.extraction_attempts ≡ s.extraction_attempts
        → t.delivery_tasks ≡ update_rows p f s.delivery_tasks
        → t.delivery_attempts ≡ s.delivery_attempts
        → Keeps s t
    task_update-Keeps e1 e2 e3 e4 = record {
      inv = Inv-tables (task_update-QueueInv p f d h m names change) e1 e2 e3 e4;
      jobs = same_jobs e1;
      tasks = rw e3 tasks_forward;
    }

    pub task_finish-Keeps :
        (a : Attempt)
        → a.of ≡ d.id
        → a.attempt_number ≡ d.attempt_count
        → p d ≡ true
        → is_leased d.state ≡ true
        → is_leased (f d).state ≡ false
        → (f d).attempt_count ≡ d.attempt_count
        → t.extraction_jobs ≡ s.extraction_jobs
        → t.extraction_attempts ≡ s.extraction_attempts
        → t.delivery_tasks ≡ update_rows p f s.delivery_tasks
        → t.delivery_attempts ≡ s.delivery_attempts ++ (a ∷ [])
        → Keeps s t
    task_finish-Keeps a of number hit held free kept e1 e2 e3 e4 = record {
      inv =
          Inv-tables (task_finish-QueueInv p f d a h m names change of number hit held free kept) e1
            e2 e3 e4;
      jobs = same_jobs e1;
      tasks = rw e3 tasks_forward;
    }

pub Keeps-trans : (s t u : Store) → Keeps s t → Keeps t u → Keeps s u
Keeps-trans s t u h k = record {
  inv = k.inv;
  jobs =
      Advance-trans recording_key job_forward job_forward_trans s.extraction_jobs t.extraction_jobs
        u.extraction_jobs h.jobs k.jobs;
  tasks =
      Advance-trans task_key task_forward task_forward_trans s.delivery_tasks t.delivery_tasks
        u.delivery_tasks h.tasks k.tasks;
}
