-- ===== src/Queue/Delivery/Complete.antt =====
-- CompleteDelivery: the task, and the recording whose last task it was.
use index_01_hook.Base.{
  ℕ, ◌≡◌, ◌≢◌, refl, sym, ap, subst, ◌∙◌, Bool, true, false, not, ◌||◌, ◌&&◌, some, [], ◌∷◌, ◌++◌,
  arith, Bool-cases, inl, inr, ◌==◌, All, ◌⊎◌,
}
use index_01_hook.Base.Rows.{any_row, update_rows, find_row-sat, any_row-find}
use index_01_hook.Base.Keys.{mem-All, find_row-mem, any_row-update_rows}
use index_01_hook.Queue.Types.{ExtractionJob, DeliveryTask, DeliveryCompletion, Store}
use index_01_hook.Queue.Schema.{
  invalid_argument, ok, is_leased, is_completed, is_settled, delivery_outcome, allowed_transition,
  insert_attempt, guard-eq-ok, >>=-eq-ok, ok-injective,
}
use index_01_hook.Queue.Ledger.{insert_attempt-held}
use index_01_hook.Queue.Evaluation.{record_shadow_outcome, capture_evaluation_delivery}
use index_01_hook.Queue.Evaluation.SameQueue.{
  record_shadow_outcome-SameQueue, capture_evaluation_delivery-SameQueue,
  record_shadow_outcome-recordings, capture_evaluation_delivery-recordings,
}
use index_01_hook.Queue.Frozen.{safe_provider_identifier}
use index_01_hook.Queue.Invariant.{JobInv, TaskInv, Inv, settled_for}
use index_01_hook.Queue.Invariant.Jobs.{JobChange, update_jobs-one}
use index_01_hook.Queue.Invariant.Tasks.{TaskChange, task_key, update_tasks-one}
use index_01_hook.Queue.Invariant.Keeps.{
  Keeps, Keeps-refl, Keeps-trans, job_update-Keeps, task_finish-Keeps,
}
use index_01_hook.Queue.Extraction.{
  of_recording, erase_transcription, or_lease_lost, or_lease_lost-eq-ok,
}
use index_01_hook.Queue.Extraction.Erase.{Erased, erase_transcription-Erased}
use index_01_hook.Queue.Extraction.Finish.{of_recording-names}
use index_01_hook.Queue.Delivery.{
  active_delivery_lease, of_task, delivery_attempt, complete_task, complete_job,
  remaining_deliveries, complete_recording, is_delivered, complete_delivery,
}
use index_01_hook.Queue.Delivery.Finish.{
  Active, active_delivery_lease-Active, leased-creating, of_task-names,
}

-- The job of the recording has completed.
abbrev pub completed_for : ℕ → ExtractionJob → Bool
completed_for rid j = j.recording_id == rid && is_completed j.state

complete_job-change :
    (now : ℕ) (j : ExtractionJob)
    → is_settled j.state ≡ true
    → JobInv j
    → JobChange (complete_job now) j
unfolding allowed_transition
complete_job-change now j settled h =
    let agrees = h.agrees in
    let held = h.lease_held in
    record {
      same_recording = λ r. refl;
      legal = ground arith;
      sound = λ old. record {
        agrees = refl;
        lease_held = ground arith;
        cycle_within = old.cycle_within;
        completion = refl;
      };
      grows = ground arith;
      counts = omega arith;
      positive = λ e. ground arith;
      settles = λ e. refl;
    }

settled_for-facts :
    (rid : ℕ) (j : ExtractionJob)
    → settled_for rid j ≡ true
    → (j.recording_id ≡ rid) × (is_settled j.state ≡ true) × (of_recording rid j ≡ true)
settled_for-facts rid j h = (ground arith, ground arith, ground arith)

-- How a completed delivery leaves its recording.
abbrev pub Leaves : ℕ → Store → Store → Type 0
Leaves rid s t =
    ((remaining_deliveries rid s.delivery_tasks ≡ 0)
      × All (Erased rid) t.recordings
      × (any_row (completed_for rid) t.extraction_jobs ≡ true))
    ⊎ ((remaining_deliveries rid s.delivery_tasks ≢ 0) × (t ≡ s))

-- The end of a recording succeeds where its extraction has settled.
pub complete_recording_lem :
    (s : Store) (rid now : ℕ)
    → Inv s
    → any_row (settled_for rid) s.extraction_jobs ≡ true
    → (t : Store) × (complete_recording rid now s ≡ ok t)
      × Keeps s t
      × (t.delivery_tasks ≡ s.delivery_tasks)
      × Leaves rid s t
unfolding complete_recording
complete_recording_lem s rid now h settled =
    elim (Bool-cases (remaining_deliveries rid s.delivery_tasks == 0)) [
      | inr more ↦ (s, rw more, Keeps-refl s h, refl, inr ((λ e. ground arith), refl))
      | inl last ↦
          let (j, found) = any_row-find (settled_for rid) s.extraction_jobs settled in
          let m = find_row-mem (settled_for rid) s.extraction_jobs j found in
          let (named, over, hit) =
            settled_for-facts rid j (find_row-sat (settled_for rid) s.extraction_jobs j found) in
          let change =
            complete_job-change now j over (mem-All JobInv s.extraction_jobs j h.job_rows m) in
          let names = of_recording-names rid j named in
          let t : Store = record s {
            recordings = erase_transcription rid s.recordings;
            extraction_jobs = update_rows (of_recording rid) (complete_job now) s.extraction_jobs;
          } in
          (
            t,
            rw (
              last,
              update_jobs-one (of_recording rid) (complete_job now) j h.job_ledger m names
                  change.legal,
            ),
            job_update-Keeps s t h (of_recording rid) (complete_job now) j m names change refl refl
                refl refl,
            refl,
            inl (
              (ground arith),
              erase_transcription-Erased rid s.recordings,
              any_row-update_rows (of_recording rid) (completed_for rid) (complete_job now) j
                  s.extraction_jobs m hit (ground arith),
            ),
          )
    ]

complete_task-change :
    (d : DeliveryCompletion) (now : ℕ) (t : DeliveryTask)
    → is_leased t.state ≡ true
    → TaskInv t
    → TaskChange (complete_task d now) t
unfolding allowed_transition
complete_task-change d now t held h = record {
  same_id = λ r. refl;
  same_recording = λ r. refl;
  legal = rw (leased-creating t h held);
  sound = λ old. record {
    agrees = refl;
    lease_held = refl;
    cycle_within = old.cycle_within;
    completion = refl;
    delivered = refl;
  };
  grows = ground arith;
  counts = omega arith;
  same_marker = refl;
  completes = λ e. refl;
  positive = λ e. ground arith;
}

-- The refusals of CompleteDelivery's arguments.
abbrev pub bad_completion : DeliveryCompletion → Bool
bad_completion d =
    not (is_delivered d.classification)
    || not (safe_provider_identifier d.tick_tick_task_id)
    || not (safe_provider_identifier d.tick_tick_project_id)

-- The store before the recording is looked at.
abbrev pub delivered : Store → ℕ → DeliveryCompletion → DeliveryTask → Store
delivered s now d t =
    capture_evaluation_delivery
      (record_shadow_outcome d.classification t.recording_id d.task_id now (record s {
        delivery_attempts =
            s.delivery_attempts
            ++ (delivery_attempt d.task_id t.attempt_count d.classification now ∷ []);
        delivery_tasks = update_rows (of_task d.task_id) (complete_task d now) s.delivery_tasks;
      }))
      d.task_id now

module _ (s : Store) (now : ℕ) (d : DeliveryCompletion) (t : DeliveryTask) (h : Inv s)
    (found : active_delivery_lease s d.task_id d.lease_owner now ≡ some t) where
  active : Active s d.task_id d.lease_owner now t
  active = active_delivery_lease-Active s d.task_id d.lease_owner now t found

  change : TaskChange (complete_task d now) t
  change =
      complete_task-change d now t active.is_held
        (mem-All TaskInv s.delivery_tasks t h.task_rows active.member)

  names : (r : DeliveryTask) → of_task d.task_id r ≡ true → task_key r ≡ task_key t
  names = of_task-names d.task_id t active.same_id

  delivered-Keeps : Keeps s (delivered s now d t)
  delivered-Keeps =
      let shadow =
        record_shadow_outcome-SameQueue d.classification t.recording_id d.task_id now _ in
      let same = capture_evaluation_delivery-SameQueue _ d.task_id now in
      task_finish-Keeps s (delivered s now d t) h (of_task d.task_id) (complete_task d now) t
        active.member names change (delivery_attempt d.task_id t.attempt_count d.classification now)
        (sym active.same_id) refl (let e = active.same_id in ground arith) active.is_held refl refl
        (same.jobs ∙ shadow.jobs) (same.attempts ∙ shadow.attempts) (same.tasks ∙ shadow.tasks)
        (same.task_attempts ∙ shadow.task_attempts)

  complete_delivery-active :
      bad_completion d ≡ false
      → complete_delivery s now d ≡ complete_recording t.recording_id now (delivered s now d t)
  unfolding complete_delivery
  complete_delivery-active good =
      let inserted : insert_attempt delivery_outcome
            (delivery_attempt d.task_id t.attempt_count d.classification now) s.delivery_attempts
          ≡ ok (
              s.delivery_attempts
              ++ (delivery_attempt d.task_id t.attempt_count d.classification now ∷ [])) =
        rw (← active.same_id) (
          insert_attempt-held _ _ _ delivery_outcome d.classification now t s.delivery_tasks
            s.delivery_attempts h.task_ledger active.member active.is_held
            (delivered_checked d good)) in
      rw (
        good,
        found,
        inserted,
        update_tasks-one (of_task d.task_id) (complete_task d now) t h.task_ledger active.member
            names change.legal,
      )
    where
      delivered_checked :
          (c : DeliveryCompletion)
          → bad_completion c ≡ false
          → delivery_outcome c.classification ≡ true
      delivered_checked c ok_c = ground arith

  settled_recording :
      any_row (settled_for t.recording_id) (delivered s now d t).extraction_jobs ≡ true
  settled_recording =
      let shadow =
        record_shadow_outcome-SameQueue d.classification t.recording_id d.task_id now _ in
      let same = capture_evaluation_delivery-SameQueue _ d.task_id now in
      subst (λ jobs. any_row (settled_for t.recording_id) jobs ≡ true)
        (sym (same.jobs ∙ shadow.jobs)) (mem-All _ s.delivery_tasks t h.settled active.member)

  delivered-tasks :
      (delivered s now d t).delivery_tasks
      ≡ update_rows (of_task d.task_id) (complete_task d now) s.delivery_tasks
  delivered-tasks =
      let shadow =
        record_shadow_outcome-SameQueue d.classification t.recording_id d.task_id now _ in
      let same = capture_evaluation_delivery-SameQueue _ d.task_id now in same.tasks ∙ shadow.tasks

  -- In a store that satisfies the invariant, a well-formed completion under an active lease is
  -- accepted and keeps the invariant, and completes its task; it erases the transcription and
  -- leaves the recording's extraction completed where no delivery of the recording is left, and
  -- changes no recording and no extraction job where one is.
  pub complete_delivery_lem :
      bad_completion d ≡ false
      → (u : Store) × (complete_delivery s now d ≡ ok u)
        × Keeps s u
        × (u.delivery_tasks
            ≡ update_rows (of_task d.task_id) (complete_task d now) s.delivery_tasks)
        × (((remaining_deliveries t.recording_id u.delivery_tasks ≡ 0)
              × All (Erased t.recording_id) u.recordings
              × (any_row (completed_for t.recording_id) u.extraction_jobs ≡ true))
            ⊎ ((remaining_deliveries t.recording_id u.delivery_tasks ≢ 0)
                × (u.recordings ≡ s.recordings)
                × (u.extraction_jobs ≡ s.extraction_jobs)))
  complete_delivery_lem good =
      let (u, done, keeps, tasks, leaves) =
        complete_recording_lem (delivered s now d t) t.recording_id now delivered-Keeps.inv
          settled_recording in
      (
        u,
        complete_delivery-active good ∙ done,
        Keeps-trans s (delivered s now d t) u delivered-Keeps keeps,
        tasks ∙ delivered-tasks,
        ends u tasks leaves,
      )
    where
      ends :
          (u : Store)
          → u.delivery_tasks ≡ (delivered s now d t).delivery_tasks
          → Leaves t.recording_id (delivered s now d t) u
          → ((remaining_deliveries t.recording_id u.delivery_tasks ≡ 0)
              × All (Erased t.recording_id) u.recordings
              × (any_row (completed_for t.recording_id) u.extraction_jobs ≡ true))
            ⊎ ((remaining_deliveries t.recording_id u.delivery_tasks ≢ 0)
                × (u.recordings ≡ s.recordings)
                × (u.extraction_jobs ≡ s.extraction_jobs))
      ends u tasks (inl (last, erased, over)) = inl (rw tasks last, erased, over)
      ends u tasks (inr (more, same)) =
          let shadow =
            record_shadow_outcome-SameQueue d.classification t.recording_id d.task_id now _ in
          let captured = capture_evaluation_delivery-SameQueue _ d.task_id now in
          inr (
            rw tasks more,
            ap (λ (v : Store). v.recordings) same
                ∙ capture_evaluation_delivery-recordings _ d.task_id now
                ∙ record_shadow_outcome-recordings d.classification t.recording_id d.task_id now _,
            ap (λ (v : Store). v.extraction_jobs) same ∙ captured.jobs ∙ shadow.jobs,
          )

  -- The same of a completion that has succeeded.
  complete_delivery-active-Keeps :
      (u : Store) → bad_completion d ≡ false → complete_delivery s now d ≡ ok u → Keeps s u
  complete_delivery-active-Keeps u good e =
      let (v, done, keeps, _, _) = complete_delivery_lem good in
      subst (Keeps s) (ok-injective (sym done ∙ e)) keeps

complete_delivery-valid :
    (s u : Store) (now : ℕ) (d : DeliveryCompletion)
    → complete_delivery s now d ≡ ok u
    → (bad_completion d ≡ false)
      × ((t : DeliveryTask) × (active_delivery_lease s d.task_id d.lease_owner now ≡ some t))
unfolding complete_delivery
complete_delivery-valid s u now d e =
    let (good, rest) = guard-eq-ok _ invalid_argument _ e in
    let (t, held, _) =
      >>=-eq-ok (or_lease_lost (active_delivery_lease s d.task_id d.lease_owner now)) _ rest in
    (good, (t, or_lease_lost-eq-ok _ t held))

pub complete_delivery-Keeps :
    (s u : Store) (now : ℕ) (d : DeliveryCompletion)
    → Inv s
    → complete_delivery s now d ≡ ok u
    → Keeps s u
complete_delivery-Keeps s u now d h e =
    let (good, (t, found)) = complete_delivery-valid s u now d e in
    complete_delivery-active-Keeps s now d t h found u good e
