-- ===== src/Queue/Freeze/Inv.antt =====
-- FreezeExtraction keeps the invariant.
use index_01_hook.Base.{
  ℕ, ◌+◌, ◌<◌, ◌≢◌, ◌≡◌, refl, sym, subst, true, false, Bool, some, List, [], ◌∷◌, ◌++◌, arith, All,
  All-mono, Bool-cases, inl, inr,
}
use index_01_hook.Base.Int.{pos}
use index_01_hook.Base.Rows.{next_id, next_id-above, any_row, update_rows}
use index_01_hook.Base.Keys.{mem-All, any_row-update_rows}
use index_01_hook.Base.Text.{Text}
use index_01_hook.Application.Item.{Item}
use index_01_hook.Application.Identity.{tick_tick_marker}
use index_01_hook.Queue.Types.{
  success, Recording, ExtractionJob, Attempt, DeliveryTask, FrozenExtraction, Store,
}
use index_01_hook.Queue.Schema.{ok, >>=-eq-ok, ok-injective, is_leased, allowed_transition}
use index_01_hook.Queue.Invariant.{QueueInv, Inv, JobInv, TaskInv, settled_for}
use index_01_hook.Queue.Invariant.Jobs.{JobChange, job_finish-QueueInv}
use index_01_hook.Queue.Invariant.Keeps.{
  Keeps, JobsForward, TasksForward, jobs_forward, task_forward, task_forward_refl,
}
use index_01_hook.Base.Advance.{Advance-append}
use index_01_hook.Queue.Evaluation.{recording_by_id}
use index_01_hook.Queue.Freeze.Tasks.{TasksOf, insert_items-TasksOf, insert_task-eq-ok}
use index_01_hook.Queue.Invariant.Tasks.{task_key, task_snoc-QueueInv}
use index_01_hook.Queue.Extraction.{extraction_attempt, of_recording}
use index_01_hook.Queue.Extraction.Finish.{
  active_extraction-Active, leased-extracting, of_recording-names,
}
use index_01_hook.Queue.Freeze.{
  no_items, insert_items, insert_task, task_of_item, freeze_job, freeze_extraction,
  or_invalid_marker,
}
use index_01_hook.Queue.Frozen.{frozen_items}
use index_01_hook.Queue.Freeze.Facts.{Froze, freeze_extraction-Froze}

task_of_item-TaskInv :
    (id rid now : ℕ) (marker : Text) (index : ℕ) (item : Item)
    → TaskInv (task_of_item id rid now marker index item)
task_of_item-TaskInv id rid now marker index item = record {
  agrees = refl;
  lease_held = refl;
  cycle_within = omega arith;
  completion = refl;
  delivered = refl;
}

module _ (fold : ℕ → ℕ) (rid now : ℕ) (hash : Text) {jobs : List ExtractionJob}
    {attempts task_attempts : List Attempt} (settled : any_row (settled_for rid) jobs ≡ true) where
  pub insert_items-QueueInv :
      (index : ℕ) (items : List Item) (tasks tasks' : List DeliveryTask)
      → QueueInv jobs attempts tasks task_attempts
      → insert_items fold rid now hash index items tasks ≡ ok tasks'
      → QueueInv jobs attempts tasks' task_attempts
  unfolding insert_items
  insert_items-QueueInv index [] tasks tasks' h e =
      subst (λ ts. QueueInv jobs attempts ts task_attempts) (ok-injective e) h
  insert_items-QueueInv index (item ∷ items) tasks tasks' h e =
      let (marker, _, e1) =
        >>=-eq-ok (or_invalid_marker (tick_tick_marker fold hash (pos index))) _ e in
      let t = task_of_item (next_id task_key tasks) rid now marker index item in
      let (more, e2, e3) = >>=-eq-ok (insert_task t tasks) _ e1 in
      insert_items-QueueInv (index + 1) items more tasks'
        (subst (λ ts. QueueInv jobs attempts ts task_attempts)
          (sym (insert_task-eq-ok t tasks more e2))
          (task_snoc-QueueInv t h (next_id-away tasks)
            (task_of_item-TaskInv _ rid now marker index item) refl settled))
        e3
    where
      next_id-away : (ts : List DeliveryTask) → All (λ r. task_key r ≢ next_id task_key ts) ts
      next_id-away ts =
          All-mono (λ r. task_key r < next_id task_key ts) (λ r. task_key r ≢ next_id task_key ts)
            ts (λ r below same. omega arith) (next_id-above task_key ts)

freeze-change :
    (empty : Bool) (now : ℕ) (j : ExtractionJob)
    → is_leased j.state ≡ true
    → JobInv j
    → JobChange (freeze_job empty now) j
unfolding allowed_transition
freeze-change empty now j held h = elim (Bool-cases empty) [
  | inl e ↦ record {
    same_recording = λ r. refl;
    legal = rw (leased-extracting j h held, e);
    sound = λ old. record {
      agrees = rw e;
      lease_held = rw e;
      cycle_within = old.cycle_within;
      completion = rw e;
    };
    grows = ground arith;
    counts = omega arith;
    positive = λ q. ground arith;
    settles = λ q. ground arith;
  }
  | inr e ↦ record {
    same_recording = λ r. refl;
    legal = rw (leased-extracting j h held, e);
    sound = λ old. record {
      agrees = rw e;
      lease_held = rw e;
      cycle_within = old.cycle_within;
      completion = rw e;
    };
    grows = ground arith;
    counts = omega arith;
    positive = λ q. ground arith;
    settles = λ q. ground arith;
  }
]

freeze_job-free :
    (empty : Bool) (now : ℕ) (j : ExtractionJob) → is_leased (freeze_job empty now j).state ≡ false
freeze_job-free true now j = refl
freeze_job-free false now j = refl

freeze_job-settled :
    (empty : Bool) (now rid : ℕ) (j : ExtractionJob)
    → j.recording_id ≡ rid
    → settled_for rid (freeze_job empty now j) ≡ true
freeze_job-settled true now rid j e = ground arith
freeze_job-settled false now rid j e = ground arith

module _ (fold : ℕ → ℕ) (s t : Store) (now rid : ℕ) (owner : Text) (attempt : ℕ)
    (x : FrozenExtraction) where
  frozen-Inv : Inv s → Froze fold s t now rid owner attempt x → Inv t
  frozen-Inv h froze =
      let j = froze.job in
      let active = active_extraction-Active s rid owner attempt now j froze.found in
      let f = freeze_job (no_items (frozen_items x)) now in
      let hit : of_recording rid j ≡ true = let e = active.same_recording in ground arith in
      let jobs : QueueInv (update_rows (of_recording rid) f s.extraction_jobs)
          (s.extraction_attempts ++ (extraction_attempt rid j.attempt_count success now ∷ []))
          s.delivery_tasks s.delivery_attempts =
        job_finish-QueueInv (of_recording rid) f j
          (extraction_attempt rid j.attempt_count success now) h active.member
          (of_recording-names rid j active.same_recording)
          (freeze-change (no_items (frozen_items x)) now j active.is_held
            (mem-All JobInv s.extraction_jobs j h.job_rows active.member))
          (sym active.same_recording) refl hit active.is_held
          (freeze_job-free (no_items (frozen_items x)) now j) refl in
      subst (λ log. QueueInv t.extraction_jobs t.extraction_attempts t.delivery_tasks log)
        (sym froze.untouched)
        (subst (λ js. QueueInv js t.extraction_attempts t.delivery_tasks s.delivery_attempts)
          (sym froze.settled)
          (subst
            (λ log.
              QueueInv (update_rows (of_recording rid) f s.extraction_jobs) log t.delivery_tasks
                s.delivery_attempts)
            (sym froze.logged)
            (insert_items-QueueInv fold rid now froze.recording.payload_fingerprint
              (any_row-update_rows (of_recording rid) (settled_for rid) f j s.extraction_jobs
                active.member hit
                (freeze_job-settled (no_items (frozen_items x)) now rid j active.same_recording))
              0 (frozen_items x) s.delivery_tasks t.delivery_tasks jobs froze.delivered)))

  frozen-jobs :
      Inv s
      → Froze fold s t now rid owner attempt x
      → JobsForward s.extraction_jobs t.extraction_jobs
  frozen-jobs h froze =
      let j = froze.job in
      let active = active_extraction-Active s rid owner attempt now j froze.found in
      subst (JobsForward s.extraction_jobs) (sym froze.settled) (
        jobs_forward s s h (of_recording rid) _ j active.member
          (of_recording-names rid j active.same_recording)
          (freeze-change (no_items (frozen_items x)) now j active.is_held
            (mem-All JobInv s.extraction_jobs j h.job_rows active.member)))

  frozen-tasks :
      Froze fold s t now rid owner attempt x → TasksForward s.delivery_tasks t.delivery_tasks
  frozen-tasks froze =
      let (new, appended, _) =
        insert_items-TasksOf fold rid now froze.recording.payload_fingerprint 0 (frozen_items x)
          s.delivery_tasks t.delivery_tasks froze.delivered in
      subst (TasksForward s.delivery_tasks) (sym appended)
        (Advance-append task_key task_forward task_forward_refl s.delivery_tasks new)

  pub freeze_extraction-Keeps :
      Inv s → freeze_extraction fold s now rid owner attempt x ≡ ok t → Keeps s t
  freeze_extraction-Keeps h e =
      let froze = freeze_extraction-Froze fold s t now rid owner attempt x e in
      record { inv = frozen-Inv h froze; jobs = frozen-jobs h froze; tasks = frozen-tasks froze }

  -- A freeze that succeeds, in a store that satisfies the invariant, appends one task for each
  -- item, in the items' order and under the marker of its index, and leaves the delivery attempts
  -- as they are.
  pub freeze_extraction-tasks :
      freeze_extraction fold s now rid owner attempt x ≡ ok t
      → (r : Recording) × (new : List DeliveryTask) × (recording_by_id rid s.recordings ≡ some r)
        × (t.delivery_tasks ≡ s.delivery_tasks ++ new)
        × TasksOf fold rid now r.payload_fingerprint 0 (frozen_items x) new
        × (t.delivery_attempts ≡ s.delivery_attempts)
  freeze_extraction-tasks e =
      let froze = freeze_extraction-Froze fold s t now rid owner attempt x e in
      let (new, appended, matched) =
        insert_items-TasksOf fold rid now froze.recording.payload_fingerprint 0 (frozen_items x)
          s.delivery_tasks t.delivery_tasks froze.delivered in
      (froze.recording, new, froze.recorded, appended, matched, froze.untouched)
