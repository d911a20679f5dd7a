-- ===== src/Queue/Retention/Kept.antt =====
-- What a purge of retention.go leaves: the queue's invariant, and every lease that is held.
use mathlib.Core.List.{Memᴰ}
use index_01_hook.Base.{
  All, length, ◌+◌, ℕ, ◌-◌, ◌≡◌, refl, sym, ap, ◌∙◌, subst, Bool, true, false, some, List, [], ◌∷◌,
  arith, ==_iff, ◌==◌, All-mono, All-zip, Bool-cases, inl, inr,
}
use index_01_hook.Base.Rows.{
  count_rows, find_row, any_row, delete_rows, find_row-sat, any_row-find, any_row_of_mem,
}
use index_01_hook.Base.Keys.{mem-All, find_row-mem, only_row}
use index_01_hook.Base.Delete.{
  delete_rows-All, delete_rows-kept, find_row-delete_rows, any_row-delete_rows,
  Distinct-delete_rows, mem-delete_rows, length-delete_rows,
}
use index_01_hook.Base.Advance.{All-of_mem}
use index_01_hook.Base.Text.{Text}
use index_01_hook.Queue.Types.{
  Workflow, QueueState, Store, Recording, ExtractionJob, Attempt, DeliveryTask,
}
use index_01_hook.Queue.Schema.{ok, invalid_argument, guard-eq-ok, ok-injective, is_leased}
use index_01_hook.Queue.Ledger.{Ledger, Counted, Owned, Bounded}
use index_01_hook.Queue.Invariant.{
  Inv, JobInv, TaskInv, Settled, settled_for, job_states_agree, task_states_agree,
}
use index_01_hook.Queue.Invariant.Jobs.{recording_key}
use index_01_hook.Queue.Extraction.{active_extraction}
use index_01_hook.Queue.Extraction.Finish.{active_extraction-Active}
use index_01_hook.Queue.Delivery.{active_delivery_lease}
use index_01_hook.Queue.Delivery.Finish.{active_delivery_lease-Active}
use index_01_hook.Queue.Retention.{
  job_in_use, task_in_use, holds_recording, expired, purged, purged_task, purge,
  purge_expired_recordings,
}

any_row-never {ℓ} :
    {A : Type ℓ} (p : A → Bool) (rows : List A) → ((r : A) → p r ≡ false) → any_row p rows ≡ false
unfolding any_row
any_row-never p [] h = refl
any_row-never p (r ∷ rows) h = rw (h r) (any_row-never p rows h)

any_row-miss {ℓ} :
    {A : Type ℓ} (p : A → Bool) (rows : List A) (r : A)
    → any_row p rows ≡ false
    → Memᴰ r rows
    → p r ≡ false
any_row-miss p rows r h m = elim (Bool-cases (p r)) [
  | inl e ↦ let k = any_row_of_mem p rows r m e in cc
  | inr e ↦ e
]

-- Rows and attempts that are deleted together leave a ledger.
module _ {ℓ} {A : Type ℓ} (key count : A → ℕ) (held : A → Bool) (q : A → Bool)
    (gone : Attempt → Bool) (rows : List A) (attempts : List Attempt) where
  Ledger-delete_rows :
      ((a : Attempt) (r : A) → gone a ≡ false → Memᴰ r rows → key r ≡ a.of → q r ≡ false)
      → Ledger key count held rows attempts
      → Ledger key count held (delete_rows q rows) (delete_rows gone attempts)
  Ledger-delete_rows apart h = record {
    ids = Distinct-delete_rows key q rows h.ids;
    counted =
        All-mono (Counted key count held attempts)
          (Counted key count held (delete_rows gone attempts)) (delete_rows q rows)
          (λ r c. (delete_rows-All (Bounded key count held r) gone attempts c.0, c.1))
          (delete_rows-All (Counted key count held attempts) q rows h.counted);
    owned =
        All-zip (Owned key count held rows) (λ a. gone a ≡ false)
          (Owned key count held (delete_rows q rows)) (delete_rows gone attempts)
          (λ a o stays.
            any_row-delete_rows (λ r. key r == a.of) q rows
              (λ r m named. apart a r stays m ((==_iff (key r) a.of).0 named)) o)
          (delete_rows-All (Owned key count held rows) gone attempts h.owned)
          (delete_rows-kept gone attempts);
  }

-- The purge of a store at a cutoff.
module _ (s : Store) (cutoff : ℕ) (h : Inv s) where
  purged-task_attempts :
      (a : Attempt) (t : DeliveryTask)
      → any_row (purged_task s cutoff a.of) s.delivery_tasks ≡ false
      → Memᴰ t s.delivery_tasks
      → t.id ≡ a.of
      → purged s cutoff t.recording_id ≡ false
  purged-task_attempts a t none_purged m named =
      let miss = any_row-miss (purged_task s cutoff a.of) s.delivery_tasks t none_purged m in
      let is_id : (t.id == a.of) ≡ true = (==_iff t.id a.of).1 named in rw is_id at miss

  -- A purge keeps the invariant.
  pub purge-Inv : Inv (purge s cutoff)
  unfolding purge
  purge-Inv = record {
    job_rows =
        delete_rows-All JobInv (λ (j : ExtractionJob). purged s cutoff j.recording_id)
          s.extraction_jobs h.job_rows;
    job_ledger =
        Ledger-delete_rows (λ (j : ExtractionJob). j.recording_id)
          (λ (j : ExtractionJob). j.attempt_count) (λ (j : ExtractionJob). is_leased j.state)
          (λ (j : ExtractionJob). purged s cutoff j.recording_id)
          (λ (a : Attempt). purged s cutoff a.of) s.extraction_jobs s.extraction_attempts
          (λ a j stays m named. rw named stays) h.job_ledger;
    task_rows =
        delete_rows-All TaskInv (λ (t : DeliveryTask). purged s cutoff t.recording_id)
          s.delivery_tasks h.task_rows;
    task_ledger =
        Ledger-delete_rows (λ (t : DeliveryTask). t.id) (λ (t : DeliveryTask). t.attempt_count)
          (λ (t : DeliveryTask). is_leased t.state)
          (λ (t : DeliveryTask). purged s cutoff t.recording_id)
          (λ (a : Attempt). any_row (purged_task s cutoff a.of) s.delivery_tasks) s.delivery_tasks
          s.delivery_attempts (λ a t stays m named. purged-task_attempts a t stays m named)
          h.task_ledger;
    settled =
        All-zip (Settled s.extraction_jobs)
          (λ (t : DeliveryTask). purged s cutoff t.recording_id ≡ false)
          (Settled
            (delete_rows (λ (j : ExtractionJob). purged s cutoff j.recording_id) s.extraction_jobs))
          (delete_rows (λ (t : DeliveryTask). purged s cutoff t.recording_id) s.delivery_tasks)
          (λ t owner stays.
            any_row-delete_rows (settled_for t.recording_id)
              (λ (j : ExtractionJob). purged s cutoff j.recording_id) s.extraction_jobs
              (λ j m hit.
                let named : j.recording_id ≡ t.recording_id = ground arith in rw named stays)
              owner)
          (delete_rows-All (Settled s.extraction_jobs)
            (λ (t : DeliveryTask). purged s cutoff t.recording_id) s.delivery_tasks h.settled)
          (delete_rows-kept (λ (t : DeliveryTask). purged s cutoff t.recording_id)
            s.delivery_tasks);
  }

  -- The job that the join of the deletion gives to a recording.
  joined_job :
      (r : Recording) (j : ExtractionJob)
      → Memᴰ j s.extraction_jobs
      → j.recording_id ≡ r.id
      → find_row (λ (i : ExtractionJob). i.recording_id == r.id) s.extraction_jobs ≡ some j
  joined_job r j m named =
      let hit : (j.recording_id == r.id) ≡ true = (==_iff j.recording_id r.id).1 named in
      let (i, found) =
        any_row-find (λ (i : ExtractionJob). i.recording_id == r.id) s.extraction_jobs
          (any_row_of_mem (λ (i : ExtractionJob). i.recording_id == r.id) s.extraction_jobs j m
            hit) in
      let same : i.recording_id ≡ r.id =
        (==_iff i.recording_id r.id).0 (
          find_row-sat (λ (i : ExtractionJob). i.recording_id == r.id) s.extraction_jobs i found) in
      let one : i ≡ j =
        mem-All (λ x. x.recording_id ≡ j.recording_id → x ≡ j) s.extraction_jobs i
          (only_row recording_key s.extraction_jobs j h.job_ledger.ids m)
          (find_row-mem (λ (i : ExtractionJob). i.recording_id == r.id) s.extraction_jobs i found)
          (same ∙ sym named) in
      found ∙ ap some one

  not_purged :
      (rid : ℕ)
      → ((r : Recording) → r.id ≡ rid → expired s cutoff r ≡ false)
      → purged s cutoff rid ≡ false
  unfolding purged
  not_purged rid stays = any_row-never _ s.recordings (λ r. elim (Bool-cases (r.id == rid)) [
    | inl e ↦ rw (e, stays r ((==_iff r.id rid).0 e))
    | inr e ↦ rw e
  ])

  job_in_use-not_purged :
      (j : ExtractionJob)
      → Memᴰ j s.extraction_jobs
      → job_in_use j.workflow_state ≡ true
      → purged s cutoff j.recording_id ≡ false
  unfolding expired
  job_in_use-not_purged j m used =
      not_purged j.recording_id (λ r named. rw (joined_job r j m (sym named), used) (ground arith))

  task_in_use-not_purged :
      (t : DeliveryTask)
      → Memᴰ t s.delivery_tasks
      → task_in_use t.workflow_state ≡ true
      → purged s cutoff t.recording_id ≡ false
  unfolding expired
  task_in_use-not_purged t m used =
      let (i, found) =
        any_row-find (settled_for t.recording_id) s.extraction_jobs
          (mem-All (Settled s.extraction_jobs) s.delivery_tasks t h.settled m) in
      let hit = find_row-sat (settled_for t.recording_id) s.extraction_jobs i found in
      let owner : i.recording_id ≡ t.recording_id = ground arith in
      let member = find_row-mem (settled_for t.recording_id) s.extraction_jobs i found in
      not_purged t.recording_id (λ r named.
        let holds : holds_recording cutoff r.id t ≡ true =
          rw ((==_iff t.recording_id r.id).1 (sym named), used) in
        let shown = any_row_of_mem (holds_recording cutoff r.id) s.delivery_tasks t m holds in
        rw (joined_job r i member (owner ∙ sym named), shown) (ground arith))

leased_job-in_use :
    (j : ExtractionJob) → JobInv j → is_leased j.state ≡ true → job_in_use j.workflow_state ≡ true
leased_job-in_use j v held = let agrees = v.agrees in by_state j.state j.workflow_state held agrees
  where
    by_state :
        (state : QueueState) (w : Workflow)
        → is_leased state ≡ true
        → job_states_agree state w ≡ true
        → job_in_use w ≡ true
    by_state state w a b = ground arith

leased_task-in_use :
    (t : DeliveryTask) → TaskInv t → is_leased t.state ≡ true → task_in_use t.workflow_state ≡ true
leased_task-in_use t v held = let agrees = v.agrees in by_state t.state t.workflow_state held agrees
  where
    by_state :
        (state : QueueState) (w : Workflow)
        → is_leased state ≡ true
        → task_states_agree state w ≡ true
        → task_in_use w ≡ true
    by_state state w a b = ground arith

module _ (s t : Store) (now retention n : ℕ) (h : Inv s)
    (purge_done : purge_expired_recordings s now retention ≡ ok (t, n)) where
  purge_is : purge s (now - retention) ≡ t
  unfolding purge_expired_recordings
  purge_is = ap (λ r. r.0) (ok-injective (guard-eq-ok _ invalid_argument _ purge_done).1)

  purge_counts : count_rows (expired s (now - retention)) s.recordings ≡ n
  unfolding purge_expired_recordings
  purge_counts = ap (λ r. r.1) (ok-injective (guard-eq-ok _ invalid_argument _ purge_done).1)

  -- A purge of old recordings, in a store that satisfies the invariant, keeps the invariant and
  -- every extraction job and delivery that is not over, and the count that it returns is that of
  -- the recordings that are gone.
  pub purge_expired_recordings-Inv :
      Inv t
      × All
          (λ (j : ExtractionJob). job_in_use j.workflow_state ≡ true → Memᴰ j t.extraction_jobs)
          s.extraction_jobs
      × All
          (λ (d : DeliveryTask). task_in_use d.workflow_state ≡ true → Memᴰ d t.delivery_tasks)
          s.delivery_tasks
      × (length t.recordings + n ≡ length s.recordings)
  unfolding purge
  purge_expired_recordings-Inv =
      subst
        (λ u.
          Inv u
          × All
              (λ (j : ExtractionJob). job_in_use j.workflow_state ≡ true → Memᴰ j u.extraction_jobs)
              s.extraction_jobs
          × All
              (λ (d : DeliveryTask). task_in_use d.workflow_state ≡ true → Memᴰ d u.delivery_tasks)
              s.delivery_tasks
          × (length u.recordings + n ≡ length s.recordings))
        purge_is
        (
          purge-Inv s (now - retention) h,
          All-of_mem _ s.extraction_jobs (λ j m used.
              mem-delete_rows _ s.extraction_jobs j m
                (job_in_use-not_purged s (now - retention) h j m used)),
          All-of_mem _ s.delivery_tasks (λ d m used.
              mem-delete_rows _ s.delivery_tasks d m
                (task_in_use-not_purged s (now - retention) h d m used)),
          rw (sym purge_counts) (length-delete_rows (expired s (now - retention)) s.recordings),
        )

  -- A purge of old recordings, in a store that satisfies the invariant, takes no lease away: an
  -- attempt that is active for a holder at an instant is active afterwards, with the same job.
  pub purge_expired_recordings-active_extraction :
      (rid : ℕ) (holder : Text) (attempt at : ℕ) (j : ExtractionJob)
      → active_extraction s rid holder attempt at ≡ some j
      → active_extraction t rid holder attempt at ≡ some j
  unfolding active_extraction purge
  purge_expired_recordings-active_extraction rid holder attempt at j held =
      let fence = active_extraction-Active s rid holder attempt at j held in
      let used =
        leased_job-in_use j (mem-All JobInv s.extraction_jobs j h.job_rows fence.member)
          fence.is_held in
      subst (λ u. active_extraction u rid holder attempt at ≡ some j) purge_is
        (find_row-delete_rows _ (λ (i : ExtractionJob). purged s (now - retention) i.recording_id)
          s.extraction_jobs j held
          (job_in_use-not_purged s (now - retention) h j fence.member used))

  -- A purge of old recordings, in a store that satisfies the invariant, takes no delivery's lease
  -- away: one that is active for a holder at an instant is active afterwards, with the same task.
  pub purge_expired_recordings-active_delivery_lease :
      (id : ℕ) (holder : Text) (at : ℕ) (d : DeliveryTask)
      → active_delivery_lease s id holder at ≡ some d
      → active_delivery_lease t id holder at ≡ some d
  unfolding active_delivery_lease purge
  purge_expired_recordings-active_delivery_lease id holder at d held =
      let fence = active_delivery_lease-Active s id holder at d held in
      let used =
        leased_task-in_use d (mem-All TaskInv s.delivery_tasks d h.task_rows fence.member)
          fence.is_held in
      subst (λ u. active_delivery_lease u id holder at ≡ some d) purge_is
        (find_row-delete_rows _ (λ (i : DeliveryTask). purged s (now - retention) i.recording_id)
          s.delivery_tasks d held
          (task_in_use-not_purged s (now - retention) h d fence.member used))
