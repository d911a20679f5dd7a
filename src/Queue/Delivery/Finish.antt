-- ===== src/Queue/Delivery/Finish.antt =====
-- The end of a delivery attempt: finishDeliveryAttempt and the operations that call it.
use mathlib.Core.List.{Memᴰ}
use index_01_hook.Base.{
  ℕ, ◌≡◌, refl, sym, subst, Bool, true, false, not, ◌||◌, none, some, [], ◌∷◌, ◌++◌, arith,
  if◌then◌else◌, Option-cases, inl, inr,
}
use index_01_hook.Base.Rows.{update_rows, find_row-sat}
use index_01_hook.Base.Keys.{mem-All, find_row-mem}
use index_01_hook.Base.Text.{Text, trim_space}
use index_01_hook.Queue.Types.{
  delivery, Outcome, QueueState, retry, in_review, Workflow, creating, retry_wait, needs_review,
  DeliveryTask, Store, ambiguous,
}
use index_01_hook.Queue.Schema.{
  invalid_argument, lease_lost, ok, err, is_leased, is_completed, is_terminal, valid_outcome,
  is_success, delivery_outcome, allowed_transition, insert_attempt, guard-eq-ok,
}
use index_01_hook.Queue.Ledger.{insert_attempt-held}
use index_01_hook.Queue.Evaluation.{record_shadow_outcome}
use index_01_hook.Queue.Evaluation.SameQueue.{record_shadow_outcome-SameQueue}
use index_01_hook.Queue.Invariant.{TaskInv, task_states_agree, Inv}
use index_01_hook.Queue.Invariant.Tasks.{TaskChange, task_key, update_tasks-one}
use index_01_hook.Queue.Invariant.Keeps.{Keeps, task_finish-Keeps}
use index_01_hook.Queue.Extraction.{leased_by}
use index_01_hook.Queue.Extraction.Finish.{ends_attempt}
use index_01_hook.Queue.Delivery.{
  active_delivery_lease, active_task, of_task, delivery_attempt, finish_task, blocks_delivery,
  finish_delivery_attempt, retry_delivery, retry_delivery_reconciliation, review_delivery,
  block_delivery,
}

-- What the fence has checked of the task that it found.
pub record Active (s : Store) (id : ℕ) (owner : Text) (now : ℕ) (t : DeliveryTask) : Type 0 where
  pub member : Memᴰ t s.delivery_tasks
  pub same_id : t.id ≡ id
  pub is_held : is_leased t.state ≡ true
  pub in_time : leased_by (trim_space owner) t.lease now ≡ true

active_task-facts :
    (id : ℕ) (owner : Text) (now : ℕ) (t : DeliveryTask)
    → active_task id owner now t ≡ true
    → (t.id ≡ id) × (is_leased t.state ≡ true) × (leased_by owner t.lease now ≡ true)
active_task-facts id owner now t h = (ground arith, ground arith, ground arith)

pub active_delivery_lease-Active :
    (s : Store) (id : ℕ) (owner : Text) (now : ℕ) (t : DeliveryTask)
    → active_delivery_lease s id owner now ≡ some t
    → Active s id owner now t
unfolding active_delivery_lease
active_delivery_lease-Active s id owner now t h =
    let facts =
      active_task-facts id (trim_space owner) now t (find_row-sat _ s.delivery_tasks t h) in
    record {
      member = find_row-mem _ s.delivery_tasks t h;
      same_id = facts.0;
      is_held = facts.1;
      in_time = facts.2;
    }

pub leased-creating :
    (t : DeliveryTask) → TaskInv t → is_leased t.state ≡ true → t.workflow_state ≡ creating
leased-creating t h held = ground arith

ends_facts :
    (state : QueueState) (workflow : Workflow)
    → ends_attempt state workflow ≡ true
    → (allowed_transition delivery creating workflow ≡ true)
      × (task_states_agree state workflow ≡ true)
      × (is_leased state ≡ false)
      × (is_completed state ≡ false)
unfolding allowed_transition
ends_facts state workflow h = (ground arith, ground arith, ground arith, ground arith)

finish-change :
    (state : QueueState) (workflow : Workflow) (retry_at increment now : ℕ) (c : Outcome)
    (t : DeliveryTask)
    → ends_attempt state workflow ≡ true
    → is_leased t.state ≡ true
    → TaskInv t
    → TaskChange (finish_task state workflow retry_at c increment now) t
finish-change state workflow retry_at increment now c t ends held h =
    let facts = ends_facts state workflow ends in
    record {
      same_id = λ r. refl;
      same_recording = λ r. refl;
      legal = rw (leased-creating t h held) facts.0;
      sound = λ old. record {
        agrees = facts.1;
        lease_held = sym facts.2;
        cycle_within = old.cycle_within;
        completion = ground arith;
        delivered = ground arith;
      };
      grows = rw facts.2 (omega arith);
      counts = omega arith;
      same_marker = refl;
      completes = λ e. ground arith;
      positive = λ e. ground arith;
    }

pub of_task-names :
    (id : ℕ) (t : DeliveryTask)
    → t.id ≡ id
    → (r : DeliveryTask) → of_task id r ≡ true
    → task_key r ≡ task_key t
of_task-names id t e r h = ground arith

abbrev pub finished :
    Store → ℕ → ℕ → DeliveryTask → Outcome → QueueState → Workflow → ℕ → Bool → Store
finished s now id t c state workflow retry_at increment =
    record_shadow_outcome c t.recording_id id now (record s {
      delivery_attempts = s.delivery_attempts ++ (delivery_attempt id t.attempt_count c now ∷ []);
      delivery_tasks =
          update_rows (of_task id)
            (finish_task state workflow retry_at c (if increment then 1 else 0) now)
            s.delivery_tasks;
    })

module _ (s : Store) (now id : ℕ) (owner : Text) (t : DeliveryTask) (h : Inv s)
    (found : active_delivery_lease s id owner now ≡ some t) where
  active : Active s id owner now t
  active = active_delivery_lease-Active s id owner now t found

  active-TaskInv : TaskInv t
  active-TaskInv = mem-All TaskInv s.delivery_tasks t h.task_rows active.member

  -- In a store that satisfies the invariant, an attempt under an active lease ends as the caller
  -- asks, with a classification that deliveries allow and an end state that belongs to its
  -- workflow state: no constraint and no trigger stops it.
  pub finish_delivery_attempt-active :
      (c : Outcome) (state : QueueState) (workflow : Workflow) (retry_at : ℕ) (increment : Bool)
      → delivery_outcome c ≡ true
      → ends_attempt state workflow ≡ true
      → finish_delivery_attempt s now id owner c state workflow retry_at increment
        ≡ ok (finished s now id t c state workflow retry_at increment)
  unfolding finish_delivery_attempt
  finish_delivery_attempt-active c state workflow retry_at increment checked ends =
      let inserted : insert_attempt delivery_outcome (delivery_attempt id t.attempt_count c now)
            s.delivery_attempts
          ≡ ok (s.delivery_attempts ++ (delivery_attempt id t.attempt_count c now ∷ [])) =
        rw (← active.same_id) (
          insert_attempt-held _ _ _ delivery_outcome c now t s.delivery_tasks s.delivery_attempts
            h.task_ledger active.member active.is_held checked) in
      rw (
        found,
        inserted,
        update_tasks-one (of_task id)
            (finish_task state workflow retry_at c (if increment then 1 else 0) now) t h.task_ledger
            active.member (of_task-names id t active.same_id)
            (finish-change state workflow retry_at (if increment then 1 else 0) now c t ends
              active.is_held active-TaskInv).legal,
      )

  pub finished-Keeps :
      (c : Outcome) (state : QueueState) (workflow : Workflow) (retry_at : ℕ) (increment : Bool)
      → ends_attempt state workflow ≡ true
      → Keeps s (finished s now id t c state workflow retry_at increment)
  finished-Keeps c state workflow retry_at increment ends =
      let same = record_shadow_outcome-SameQueue c t.recording_id id now _ in
      task_finish-Keeps s (finished s now id t c state workflow retry_at increment) h (of_task id)
        (finish_task state workflow retry_at c (if increment then 1 else 0) now) t active.member
        (of_task-names id t active.same_id)
        (finish-change state workflow retry_at (if increment then 1 else 0) now c t ends
          active.is_held active-TaskInv)
        (delivery_attempt id t.attempt_count c now) (sym active.same_id) refl
        (let e = active.same_id in ground arith) active.is_held (ends_facts state workflow ends).2
        refl same.jobs same.attempts same.tasks same.task_attempts

-- Without an active lease nothing ends.
pub finish_delivery_attempt-inactive :
    (s : Store) (now id : ℕ) (owner : Text) (c : Outcome) (state : QueueState) (workflow : Workflow)
    (retry_at : ℕ) (increment : Bool)
    → active_delivery_lease s id owner now ≡ none
    → finish_delivery_attempt s now id owner c state workflow retry_at increment ≡ err lease_lost
unfolding finish_delivery_attempt
finish_delivery_attempt-inactive s now id owner c state workflow retry_at increment gone = rw gone

failure_checked :
    (c : Outcome) → (not (valid_outcome c) || is_success c) ≡ false → delivery_outcome c ≡ true
unfolding valid_outcome
failure_checked c h = ground arith

block_checked :
    (c : Outcome) (w : Workflow)
    → (not (blocks_delivery c) || not (is_terminal w)) ≡ false
    → (delivery_outcome c ≡ true) × (is_terminal w ≡ true)
block_checked c w h = (ground arith, ground arith)

-- A retried, reviewed or blocked attempt is an active lease that ended.
module _ (s u : Store) (now id : ℕ) (owner : Text) (h : Inv s) where
  finish_delivery_attempt-Keeps :
      (c : Outcome) (state : QueueState) (workflow : Workflow) (retry_at : ℕ) (increment : Bool)
      → delivery_outcome c ≡ true
      → ends_attempt state workflow ≡ true
      → finish_delivery_attempt s now id owner c state workflow retry_at increment ≡ ok u
      → Keeps s u
  finish_delivery_attempt-Keeps c state workflow retry_at increment checked ends e =
      elim (Option-cases (active_delivery_lease s id owner now)) [
        | inl gone ↦ absurd (lost gone)
        | inr (t, found) ↦
            let done =
              finish_delivery_attempt-active s now id owner t h found c state workflow retry_at
                increment checked ends in
            let same : finished s now id t c state workflow retry_at increment ≡ u = cc in
            subst (Keeps s) same
              (finished-Keeps s now id owner t h found c state workflow retry_at increment ends)
      ]
    where
      lost : active_delivery_lease s id owner now ≡ none → ⊥
      lost gone =
          let refused =
            finish_delivery_attempt-inactive s now id owner c state workflow retry_at increment
              gone in
          cc

  pub retry_delivery-Keeps :
      (c : Outcome) (retry_at : ℕ) → retry_delivery s now id owner c retry_at ≡ ok u → Keeps s u
  unfolding retry_delivery
  retry_delivery-Keeps c retry_at e =
      let (passed, done) = guard-eq-ok _ invalid_argument _ e in
      finish_delivery_attempt-Keeps c retry retry_wait retry_at false (failure_checked c passed)
        refl done

  pub retry_delivery_reconciliation-Keeps :
      (retry_at : ℕ) → retry_delivery_reconciliation s now id owner retry_at ≡ ok u → Keeps s u
  unfolding retry_delivery_reconciliation
  retry_delivery_reconciliation-Keeps retry_at e =
      finish_delivery_attempt-Keeps ambiguous retry retry_wait retry_at true refl refl e

  pub review_delivery-Keeps :
      (later : ℕ) (c : Outcome) → review_delivery s later now id owner c ≡ ok u → Keeps s u
  unfolding review_delivery
  review_delivery-Keeps later c e =
      let (passed, done) = guard-eq-ok _ invalid_argument _ e in
      finish_delivery_attempt-Keeps c in_review needs_review later false (failure_checked c passed)
        refl done

  pub block_delivery-Keeps :
      (later : ℕ) (c : Outcome) (workflow : Workflow)
      → block_delivery s later now id owner c workflow ≡ ok u
      → Keeps s u
  unfolding block_delivery
  block_delivery-Keeps later c workflow e =
      let (passed, done) = guard-eq-ok _ invalid_argument _ e in
      finish_delivery_attempt-Keeps c in_review workflow later false
        (block_checked c workflow passed).0 (block_checked c workflow passed).1 done
