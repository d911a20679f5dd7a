-- ===== src/Health/Sound.antt =====
-- What a report of health.go that is not degraded says of the worker and of the queue's rows.
use index_01_hook.Base.{
  ℕ, ◌+◌, ◌-◌, ◌/◌, ◌≤◌, ◌<◌, ◌≡◌, refl, Bool, true, false, ◌||◌, Option, none, some, List, [], ◌∷◌,
  ◌++◌, ltb, arith, All, All-mono, Bool-cases, inl, inr, All-zip,
}
use index_01_hook.Base.Rows.{count_rows}
use index_01_hook.Queue.Types.{Workflow, Store, ExtractionJob, DeliveryTask, unix_seconds}
use index_01_hook.Health.{WorkerHealth, WorkerState, running, stopped}
use index_01_hook.Health.Stamp.{first_stamp}
use index_01_hook.Health.Stamp.Seconds.{first_stamp-seconds, first_stamp-some}
use index_01_hook.Health.Report.{
  QueueStatus, latency_of, reported, worker_cycle_failed, queue_delayed, review_needed,
  dead_lettered, worker_stale, seconds, worker_stale_after, queue_delayed_after_seconds, Reason,
  has_reasons, reason_if, worker_reason, worker_status, WorkerStatus, is_active, in_blocked_auth,
  in_needs_review, in_dead_letter, active_jobs_created, active_tasks_created, active_created,
  count_state, age_seconds, queue_status, health_reasons, operational_status, LatencyStatus,
}

has_reasons-append :
    (a b : List Reason)
    → has_reasons (a ++ b) ≡ false
    → (has_reasons a ≡ false) × (has_reasons b ≡ false)
has_reasons-append [] b h = (refl, h)
has_reasons-append (r ∷ a) b h = cc

reason_if-false : (b : Bool) (r : Reason) → has_reasons (reason_if b r) ≡ false → b ≡ false
reason_if-false true r h = cc
reason_if-false false r h = refl

count_rows-zero {ℓ} :
    {A : Type ℓ} (p : A → Bool) (rows : List A)
    → count_rows p rows ≡ 0
    → All (λ r. p r ≡ false) rows
unfolding count_rows
count_rows-zero p [] h = tt
count_rows-zero p (r ∷ rows) h = elim (Bool-cases (p r)) [
  | inl e ↦ absurd (let k : 1 + count_rows p rows ≡ 0 = rw e at h in omega arith)
  | inr e ↦
      (e, count_rows-zero p rows (let k : 0 + count_rows p rows ≡ 0 = rw e at h in omega arith))
]

active_jobs_created-All :
    (Q : ℕ → Type 0) (jobs : List ExtractionJob)
    → All Q (active_jobs_created jobs)
    → All (λ (j : ExtractionJob). is_active j.workflow_state ≡ true → Q j.created_at) jobs
unfolding active_jobs_created
active_jobs_created-All Q [] h = tt
active_jobs_created-All Q (j ∷ jobs) h = elim (Bool-cases (is_active j.workflow_state)) [
  | inl e ↦
      let both : All Q (j.created_at ∷ active_jobs_created jobs) = rw e at h in
      ((λ _. both.0), active_jobs_created-All Q jobs both.1)
  | inr e ↦ ((λ t. cc), active_jobs_created-All Q jobs (rw e at h))
]

active_tasks_created-All :
    (Q : ℕ → Type 0) (tasks : List DeliveryTask)
    → All Q (active_tasks_created tasks)
    → All (λ (t : DeliveryTask). is_active t.workflow_state ≡ true → Q t.created_at) tasks
unfolding active_tasks_created
active_tasks_created-All Q [] h = tt
active_tasks_created-All Q (t ∷ tasks) h = elim (Bool-cases (is_active t.workflow_state)) [
  | inl e ↦
      let both : All Q (t.created_at ∷ active_tasks_created tasks) = rw e at h in
      ((λ _. both.0), active_tasks_created-All Q tasks both.1)
  | inr e ↦ ((λ a. cc), active_tasks_created-All Q tasks (rw e at h))
]

-- A row that is not complete waits for no operator, and was created less than 902 seconds ago.
abbrev pub in_trouble : Workflow → Bool
in_trouble w = in_blocked_auth w || in_needs_review w || in_dead_letter w

abbrev pub Prompt : ℕ → Workflow → ℕ → Type 0
Prompt now w created_at =
    (in_trouble w ≡ false) × (is_active w ≡ true → now < created_at + seconds 902)

-- The age that is reported is less than two seconds short of the age of any row.
age_seconds-All :
    (now : ℕ) (xs : List ℕ)
    → age_seconds now (first_stamp xs) ≤ queue_delayed_after_seconds
    → All (λ x. now < x + seconds 902) xs
age_seconds-All now xs h = elim (first_stamp-some xs) [
  | inl e ↦ rw e tt
  | inr (m, e) ↦
      let young : (now - m) / 1_000_000_000 ≤ 900 = rw e at h in
      All-mono (λ x. unix_seconds m ≤ unix_seconds x) (λ x. now < x + seconds 902) xs
        (λ x k. omega arith) (first_stamp-seconds xs m e)
]

ltb_zero-false : (n : ℕ) → ltb 0 n ≡ false → n ≡ 0
ltb_zero-false n h = ground arith

count_state-zero :
    (p : Workflow → Bool) (s : Store)
    → ltb 0 (count_state p s) ≡ false
    → All (λ (j : ExtractionJob). p j.workflow_state ≡ false) s.extraction_jobs
      × All (λ (t : DeliveryTask). p t.workflow_state ≡ false) s.delivery_tasks
unfolding count_state
count_state-zero p s h =
    let none_left = ltb_zero-false _ h in
    (
      count_rows-zero (λ (j : ExtractionJob). p j.workflow_state) s.extraction_jobs (omega arith),
      count_rows-zero (λ (t : DeliveryTask). p t.workflow_state) s.delivery_tasks (omega arith),
    )

module _ (w : WorkerStatus) (q : QueueStatus) (d t y : LatencyStatus) (now : ℕ)
    (quiet : has_reasons (health_reasons w q d t y now) ≡ false) where
  -- None of the reasons holds.
  health_reasons-none :
      (has_reasons (worker_reason w w.state) ≡ false)
      × (w.last_cycle_failed ≡ false)
      × (ltb queue_delayed_after_seconds q.oldest_active_age_seconds ≡ false)
      × (ltb 0 q.blocked_authentication ≡ false)
      × (ltb 0 q.needs_review_count ≡ false)
      × (ltb 0 q.dead_letters ≡ false)
  unfolding health_reasons
  health_reasons-none =
      let (worker, r1) = has_reasons-append (worker_reason w w.state) _ quiet in
      let (cycle, r2) =
        has_reasons-append (reason_if w.last_cycle_failed worker_cycle_failed) _ r1 in
      let (delay, r3) =
        has_reasons-append
          (reason_if (ltb queue_delayed_after_seconds q.oldest_active_age_seconds) queue_delayed) _
          r2 in
      let (blocked, r4) =
        has_reasons-append
          (reason_if (ltb 0 q.blocked_authentication) Reason.blocked_authentication) _ r3 in
      let (review, r5) =
        has_reasons-append (reason_if (ltb 0 q.needs_review_count) review_needed) _ r4 in
      let (dead, _) = has_reasons-append (reason_if (ltb 0 q.dead_letters) dead_lettered) _ r5 in
      (
        worker,
        reason_if-false _ worker_cycle_failed cycle,
        reason_if-false _ queue_delayed delay,
        reason_if-false _ Reason.blocked_authentication blocked,
        reason_if-false _ review_needed review,
        reason_if-false _ dead_lettered dead,
      )

running_state :
    (w : WorkerStatus) (state : WorkerState)
    → has_reasons (worker_reason w (reported state)) ≡ false
    → (state ≡ running) × (w.stale ≡ false)
running_state w stopped h = cc
running_state w running h = (refl, reason_if-false w.stale worker_stale h)

-- The worker runs, was heard of in the last two minutes, and its last cycle did not fail.
abbrev pub Alive : Option WorkerHealth → ℕ → Type 0
Alive h now =
    (row : WorkerHealth) × (h ≡ some row)
    × (row.state ≡ running)
    × (now ≤ row.heartbeat_at + worker_stale_after)
    × (row.last_cycle_failed ≡ false)

alive :
    (h : Option WorkerHealth) (now : ℕ)
    → has_reasons (worker_reason (worker_status h now) (worker_status h now).state) ≡ false
    → (worker_status h now).last_cycle_failed ≡ false
    → Alive h now
alive none now quiet cycle = cc
alive (some row) now quiet cycle =
    let (runs, fresh) = running_state (worker_status (some row) now) row.state quiet in
    (row, refl, runs, ground arith, cycle)

All-split : (Q : ℕ → Type 0) (xs ys : List ℕ) → All Q (xs ++ ys) → All Q xs × All Q ys
All-split Q [] ys h = (tt, h)
All-split Q (x ∷ xs) ys h = let (a, b) = All-split Q xs ys h.1 in ((h.0, a), b)

untroubled :
    (w : Workflow)
    → in_blocked_auth w ≡ false
    → in_needs_review w ≡ false
    → in_dead_letter w ≡ false
    → in_trouble w ≡ false
untroubled w a b c = rw (a, b, c)

not_delayed : (n : ℕ) → ltb queue_delayed_after_seconds n ≡ false → n ≤ queue_delayed_after_seconds
not_delayed n h = ground arith

module _ {A : Type 0} (state : A → Workflow) (created : A → ℕ) (now : ℕ) (rows : List A) where
  All-in_time :
      All (λ r. in_blocked_auth (state r) ≡ false) rows
      → All (λ r. in_needs_review (state r) ≡ false) rows
      → All (λ r. in_dead_letter (state r) ≡ false) rows
      → All (λ r. is_active (state r) ≡ true → now < created r + seconds 902) rows
      → All (λ r. Prompt now (state r) (created r)) rows
  All-in_time a b c young =
      All-zip (λ r. in_trouble (state r) ≡ false)
        (λ r. is_active (state r) ≡ true → now < created r + seconds 902)
        (λ r. Prompt now (state r) (created r)) rows (λ r x y. (x, y))
        (All-zip (λ r. in_blocked_auth (state r) ≡ false)
          (λ r. (in_needs_review (state r) ≡ false) × (in_dead_letter (state r) ≡ false))
          (λ r. in_trouble (state r) ≡ false) rows (λ r x y. untroubled (state r) x y.0 y.1) a
          (All-zip (λ r. in_needs_review (state r) ≡ false) (λ r. in_dead_letter (state r) ≡ false)
            (λ r. (in_needs_review (state r) ≡ false) × (in_dead_letter (state r) ≡ false)) rows
            (λ r x y. (x, y)) b c))
        young

queue_status-Prompt :
    (s : Store) (now : ℕ)
    → ltb queue_delayed_after_seconds (queue_status s now).oldest_active_age_seconds ≡ false
    → ltb 0 (queue_status s now).blocked_authentication ≡ false
    → ltb 0 (queue_status s now).needs_review_count ≡ false
    → ltb 0 (queue_status s now).dead_letters ≡ false
    → All (λ (j : ExtractionJob). Prompt now j.workflow_state j.created_at) s.extraction_jobs
      × All (λ (t : DeliveryTask). Prompt now t.workflow_state t.created_at) s.delivery_tasks
unfolding queue_status active_created
queue_status-Prompt s now delay blocked review dead =
    let (blocked_jobs, blocked_tasks) = count_state-zero in_blocked_auth s blocked in
    let (review_jobs, review_tasks) = count_state-zero in_needs_review s review in
    let (dead_jobs, dead_tasks) = count_state-zero in_dead_letter s dead in
    let (young_jobs, young_tasks) =
      All-split (λ x. now < x + seconds 902) (active_jobs_created s.extraction_jobs)
        (active_tasks_created s.delivery_tasks)
        (age_seconds-All now (active_created s) (not_delayed _ delay)) in
    (
      All-in_time (λ (j : ExtractionJob). j.workflow_state) (λ j. j.created_at) now
          s.extraction_jobs blocked_jobs review_jobs dead_jobs
          (active_jobs_created-All (λ x. now < x + seconds 902) s.extraction_jobs young_jobs),
      All-in_time (λ (t : DeliveryTask). t.workflow_state) (λ t. t.created_at) now s.delivery_tasks
          blocked_tasks review_tasks dead_tasks
          (active_tasks_created-All (λ x. now < x + seconds 902) s.delivery_tasks young_tasks),
    )

-- A report that is not degraded means: the worker runs, was heard of in the last two minutes and
-- its last cycle did not fail; no job and no task is blocked, in review or dead; and each job and
-- task that is not complete was created less than 902 seconds ago.
pub operational_status-ok :
    (h : Option WorkerHealth) (s : Store) (now : ℕ)
    → (operational_status h s now).degraded ≡ false
    → Alive h now
      × All (λ (j : ExtractionJob). Prompt now j.workflow_state j.created_at) s.extraction_jobs
      × All (λ (t : DeliveryTask). Prompt now t.workflow_state t.created_at) s.delivery_tasks
unfolding operational_status
operational_status-ok h s now quiet =
    let (worker, cycle, delay, blocked, review, dead) =
      health_reasons-none (worker_status h now) (queue_status s now)
        (latency_of (λ (r : WorkerHealth). r.deepseek_latency) h)
        (latency_of (λ (r : WorkerHealth). r.ticktick_latency) h)
        (latency_of (λ (r : WorkerHealth). r.typesafe_latency) h) now quiet in
    let (jobs, tasks) = queue_status-Prompt s now delay blocked review dead in
    (alive h now worker cycle, jobs, tasks)
