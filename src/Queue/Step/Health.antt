-- ===== src/Queue/Step/Health.antt =====
-- Every state that the queue reaches passes its health check.
use index_01_hook.Base.{ℕ, ◌≡◌, refl, Bool, true, not, List, [], ◌∷◌, arith, All, All-mono}
use index_01_hook.Base.Rows.{count_rows}
use index_01_hook.Queue.Types.{ExtractionJob, DeliveryTask, Store}
use index_01_hook.Queue.Invariant.{
  Inv, JobInv, TaskInv, job_states_agree, task_states_agree, validate_queue_invariants,
}
use index_01_hook.Queue.Step.{Steps}
use index_01_hook.Queue.Step.Runs.{initial, initial-Inv, Steps-Keeps}

none-counted {ℓ} :
    {A : Type ℓ} (good : A → Bool) (rows : List A)
    → All (λ r. good r ≡ true) rows
    → count_rows (λ r. not (good r)) rows ≡ 0
unfolding count_rows
none-counted good [] h = refl
none-counted good (r ∷ rows) h = ground (arith, h.0, none-counted good rows h.1)

Inv-healthy : (s : Store) → Inv s → validate_queue_invariants s ≡ true
unfolding validate_queue_invariants
Inv-healthy s h =
    let jobs =
      none-counted (λ (j : ExtractionJob). job_states_agree j.state j.workflow_state)
        s.extraction_jobs (All-mono JobInv _ s.extraction_jobs (λ j inv. inv.agrees) h.job_rows) in
    let tasks =
      none-counted (λ (t : DeliveryTask). task_states_agree t.state t.workflow_state)
        s.delivery_tasks (All-mono TaskInv _ s.delivery_tasks (λ t inv. inv.agrees) h.task_rows) in
    rw (jobs, tasks)

-- After every run of the queue from an empty store, validateQueueInvariants finds no row at fault.
pub validate_queue_invariants-reached :
    (fold : ℕ → ℕ) (retention : ℕ) (s : Store)
    → Steps fold (initial retention) s
    → validate_queue_invariants s ≡ true
validate_queue_invariants-reached fold retention s run =
    Inv-healthy s (Steps-Keeps fold (initial retention) s (initial-Inv retention) run).inv
