-- ===== src/Queue/Delivery/Restart.antt =====
-- RetryDeliveryByID.
use index_01_hook.Base.{ℕ, ◌≡◌, refl, sym, subst, ◌∙◌, true, arith}
use index_01_hook.Base.Keys.{mem-All, count_rows-mem, counted-one}
use index_01_hook.Queue.Types.{DeliveryTask, Store}
use index_01_hook.Queue.Schema.{
  manual_retry_not_allowed, ok, is_terminal, allowed_transition, guard-eq-ok, >>=-eq-ok,
  ok-injective, update_tasks, update_tasks-eq-ok,
}
use index_01_hook.Queue.Invariant.{TaskInv, Inv}
use index_01_hook.Queue.Invariant.Tasks.{TaskChange}
use index_01_hook.Queue.Invariant.Keeps.{Keeps, task_update-Keeps}
use index_01_hook.Queue.Delivery.{restart_task, restartable_task, retry_delivery_by_id}

restart-change :
    (now : ℕ) (t : DeliveryTask)
    → TaskInv t
    → is_terminal t.workflow_state ≡ true
    → TaskChange (restart_task now) t
unfolding allowed_transition
restart-change now t h over =
    let agrees = h.agrees in
    record {
      same_id = λ r. refl;
      same_recording = λ r. refl;
      legal = ground arith;
      sound = λ old. record {
        agrees = refl;
        lease_held = refl;
        cycle_within = omega arith;
        completion = refl;
        delivered = let d = old.delivered in ground arith;
      };
      grows = omega arith;
      counts = omega arith;
      same_marker = refl;
      completes = λ e. ground arith;
      positive = λ e. ground arith;
    }

restartable_task-facts :
    (id : ℕ) (t : DeliveryTask)
    → restartable_task id t ≡ true
    → (t.id ≡ id) × (is_terminal t.workflow_state ≡ true)
restartable_task-facts id t hit = (ground arith, ground arith)

-- A manual retry.
pub retry_delivery_by_id-Keeps :
    (s u : Store) (now id : ℕ) → Inv s → retry_delivery_by_id s now id ≡ ok u → Keeps s u
unfolding retry_delivery_by_id
retry_delivery_by_id-Keeps s u now id h e =
    let (tasks, e1, h1) =
      >>=-eq-ok (update_tasks (restartable_task id) (restart_task now) s.delivery_tasks) _ e in
    let (passed, h2) = guard-eq-ok _ manual_retry_not_allowed _ h1 in
    let (t, m, hit) =
      count_rows-mem (restartable_task id) s.delivery_tasks (counted-one _ passed) in
    let (named, over) = restartable_task-facts id t hit in
    subst (Keeps s) (ok-injective h2) (
      task_update-Keeps s _ h (restartable_task id) (restart_task now) t m
        (λ r q. (restartable_task-facts id r q).0 ∙ sym named)
        (restart-change now t (mem-All TaskInv s.delivery_tasks t h.task_rows m) over) refl refl
        (update_tasks-eq-ok _ _ _ _ e1) refl)
