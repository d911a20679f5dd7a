-- ===== src/Queue/Delivery/Claim.antt =====
-- ClaimDelivery: which task is claimed, what the claim does, and what an active claim excludes.
use mathlib.Core.List.{Memᴰ}
use index_01_hook.Base.{
  ℕ, ◌+◌, ◌≡◌, refl, sym, ap, subst, ◌∙◌, ◌≢◌, true, false, ◌||◌, Option, none, some, List, arith,
  ◌==◌, Option-cases, inl, inr, &&_true, All, ◌⊎◌,
}
use index_01_hook.Base.Rows.{
  update_rows, first_row-sat, first_row-mem, first_row-least, first_row-none, NoLater, any_row-find,
}
use index_01_hook.Base.Keys.{mem-All, only_row, count_rows-one}
use index_01_hook.Base.Text.{Text, trim_space, is_blank}
use index_01_hook.Queue.Types.{Recording, DeliveryTask, Store, DeliveryClaim}
use index_01_hook.Queue.Schema.{
  invalid_argument, ok, is_leased, allowed_transition, guard-eq-ok, ok-injective, ok_some-injective,
}
use index_01_hook.Queue.Evaluation.{recording_by_id}
use index_01_hook.Queue.Invariant.{TaskInv, Inv}
use index_01_hook.Queue.Invariant.Tasks.{TaskChange, update_tasks-one}
use index_01_hook.Queue.Invariant.Keeps.{Keeps, Keeps-refl, task_update-Keeps}
use index_01_hook.Queue.Extraction.{has_recording, leased_by}
use index_01_hook.Queue.Delivery.{
  delivery_claim, claimable_task, next_attempt, task_key, qualifies, select_task, lease_task,
  claimed_task, claim_task, claim_selected_task, claim_delivery, active_delivery_lease,
}
use index_01_hook.Queue.Delivery.Finish.{active_delivery_lease-Active}

-- What the SELECT has checked of the job that it picked.
pub record Selected (s : Store) (now : ℕ) (j : DeliveryTask) : Type 0 where
  pub member : Memᴰ j s.delivery_tasks
  pub claimable : claimable_task now j ≡ true
  pub recorded : has_recording j.recording_id s.recordings ≡ true

pub select_task-Selected :
    (s : Store) (now : ℕ) (j : DeliveryTask) → select_task s now ≡ some j → Selected s now j
unfolding select_task
select_task-Selected s now j h =
    let both =
      &&_true (claimable_task now j) (has_recording j.recording_id s.recordings)
        (first_row-sat next_attempt task_key (qualifies s now) s.delivery_tasks j h) in
    record {
      member = first_row-mem next_attempt task_key (qualifies s now) s.delivery_tasks j h;
      claimable = both.0;
      recorded = both.1;
    }

claim-change :
    (now : ℕ) (owner : Text) (duration : ℕ) (j : DeliveryTask)
    → claimable_task now j ≡ true
    → TaskInv j
    → TaskChange (lease_task now owner duration (j.attempt_count + 1) (j.cycle_attempt_count + 1)) j
unfolding allowed_transition
claim-change now owner duration j can h = record {
  same_id = λ r. refl;
  same_recording = λ r. refl;
  legal = ground arith;
  sound = λ old. record {
    agrees = refl;
    lease_held = refl;
    cycle_within = omega arith;
    completion = ground arith;
    delivered = ground arith;
  };
  grows = ground arith;
  counts = omega arith;
  positive = λ e. omega arith;
  same_marker = refl;
  completes = λ e. ground arith;
}

abbrev pub claimed_tasks : ℕ → Text → ℕ → DeliveryTask → List DeliveryTask → List DeliveryTask
claimed_tasks now owner duration j =
    update_rows (claimed_task j.id now)
      (lease_task now owner duration (j.attempt_count + 1) (j.cycle_attempt_count + 1))

claimed_task-names :
    (now : ℕ) (j r : DeliveryTask) → claimed_task j.id now r ≡ true → task_key r ≡ task_key j
claimed_task-names now j r h = ground arith

module _ (s : Store) (now : ℕ) (owner : Text) (duration : ℕ) (j : DeliveryTask) (h : Inv s)
    (picked : select_task s now ≡ some j) where
  selected : Selected s now j
  selected = select_task-Selected s now j picked

  change :
      TaskChange
        (lease_task now
          (trim_space owner)
          duration
          (j.attempt_count + 1)
          (j.cycle_attempt_count + 1))
        j
  change =
      claim-change now (trim_space owner) duration j selected.claimable
        (mem-All TaskInv s.delivery_tasks j h.task_rows selected.member)

  -- A job that qualifies is claimed: no trigger and no lost row stops the claim.
  pub claim_delivery-selected :
      (is_blank (trim_space owner) || duration == 0) ≡ false
      → (r : Recording) × (recording_by_id j.recording_id s.recordings ≡ some r)
        × (claim_delivery s now owner duration
            ≡ ok (
              record s {
                delivery_tasks = claimed_tasks now (trim_space owner) duration j s.delivery_tasks;
              },
              some (delivery_claim j r),
            ))
  unfolding claim_delivery claim_selected_task claim_task
  claim_delivery-selected valid =
      let (r, found) =
        any_row-find (λ (q : Recording). q.id == j.recording_id) s.recordings selected.recorded in
      let once =
        count_rows-one task_key (claimed_task j.id now) j s.delivery_tasks h.task_ledger.ids
          selected.member (claimed_task-names now j) (let c = selected.claimable in ground arith) in
      (
        r,
        found,
        rw (
          valid,
          picked,
          found,
          update_tasks-one (claimed_task j.id now)
              (lease_task now (trim_space owner) duration (j.attempt_count + 1)
                (j.cycle_attempt_count + 1))
              j h.task_ledger selected.member (claimed_task-names now j) change.legal,
          once,
        ),
      )

  claimed-Keeps : Keeps s (record s {
    delivery_tasks = claimed_tasks now (trim_space owner) duration j s.delivery_tasks;
  })
  claimed-Keeps =
      task_update-Keeps s _ h (claimed_task j.id now) _ j selected.member (claimed_task-names now j)
        change refl refl refl refl

claim_delivery-nothing :
    (s : Store) (now : ℕ) (owner : Text) (duration : ℕ)
    → (is_blank (trim_space owner) || duration == 0) ≡ false
    → select_task s now ≡ none
    → claim_delivery s now owner duration ≡ ok (s, none)
unfolding claim_delivery claim_selected_task
claim_delivery-nothing s now owner duration valid nothing = rw (valid, nothing)

claim_delivery-valid :
    (s : Store) (now : ℕ) (owner : Text) (duration : ℕ) {a : Store × Option DeliveryClaim}
    → claim_delivery s now owner duration ≡ ok a
    → (is_blank (trim_space owner) || duration == 0) ≡ false
unfolding claim_delivery
claim_delivery-valid s now owner duration e = (guard-eq-ok _ invalid_argument _ e).0

-- The claim in full, under a named owner and a positive duration: where no job qualifies nothing
-- changes and nothing is claimed; otherwise the claim is the qualifying job that stands first by
-- next attempt and recording, its two counts grow by one and it is leased until the duration ends.
pub claim_delivery_lem :
    (s : Store) (now : ℕ) (owner : Text) (duration : ℕ)
    → Inv s
    → (is_blank (trim_space owner) || duration == 0) ≡ false
    → (All (λ x. qualifies s now x ≡ false) s.delivery_tasks
        × (claim_delivery s now owner duration ≡ ok (s, none)))
      ⊎ ((j : DeliveryTask) × (r : Recording) × Memᴰ j s.delivery_tasks
          × (qualifies s now j ≡ true)
          × All (λ x. qualifies s now x ≡ true → NoLater next_attempt task_key j x) s.delivery_tasks
          × (recording_by_id j.recording_id s.recordings ≡ some r)
          × (claim_delivery s now owner duration
              ≡ ok (
                record s {
                  delivery_tasks = claimed_tasks now (trim_space owner) duration j s.delivery_tasks;
                },
                some (delivery_claim j r),
              )))
unfolding select_task
claim_delivery_lem s now owner duration h valid = elim (Option-cases (select_task s now)) [
  | inl nothing ↦ inl (
    first_row-none next_attempt task_key (qualifies s now) s.delivery_tasks nothing,
    claim_delivery-nothing s now owner duration valid nothing,
  )
  | inr (j, picked) ↦
      let (r, found, claimed) = claim_delivery-selected s now owner duration j h picked valid in
      inr (
        j,
        r,
        first_row-mem next_attempt task_key (qualifies s now) s.delivery_tasks j picked,
        first_row-sat next_attempt task_key (qualifies s now) s.delivery_tasks j picked,
        first_row-least next_attempt task_key (qualifies s now) s.delivery_tasks j picked,
        found,
        claimed,
      )
]

active-not-claimable :
    (now : ℕ) (owner : Text) (j : DeliveryTask)
    → is_leased j.state ≡ true
    → leased_by owner j.lease now ≡ true
    → claimable_task now j ≡ true
    → ⊥
active-not-claimable now owner j held in_time can = ground arith

module _ (s t : Store) (now : ℕ) (owner : Text) (duration : ℕ) (h : Inv s) where
  -- A claim that returns a recording returns the job that the SELECT picked.
  pub claim_delivery-picked :
      (k : DeliveryClaim)
      → claim_delivery s now owner duration ≡ ok (t, some k)
      → (j : DeliveryTask) × (select_task s now ≡ some j)
        × (k.id ≡ j.id)
        × (k.attempt_number ≡ j.attempt_count + 1)
        × (t ≡ record s {
          delivery_tasks = claimed_tasks now (trim_space owner) duration j s.delivery_tasks;
        })
  claim_delivery-picked k e = elim (Option-cases (select_task s now)) [
    | inl nothing ↦
        let valid = claim_delivery-valid s now owner duration e in
        let none_left = claim_delivery-nothing s now owner duration valid nothing in cc
    | inr (j, picked) ↦
        let valid = claim_delivery-valid s now owner duration e in
        let (r, found, claimed) = claim_delivery-selected s now owner duration j h picked valid in
        let (same_store, same_claim) = ok_some-injective (sym claimed ∙ e) in
        (
          j,
          picked,
          sym (ap (λ (c : DeliveryClaim). c.id) same_claim),
          sym (ap (λ (c : DeliveryClaim). c.attempt_number) same_claim),
          sym same_store,
        )
  ]

  -- A claim keeps the invariant, whether or not there was a job to claim.
  pub claim_delivery-Keeps :
      (o : Option DeliveryClaim) → claim_delivery s now owner duration ≡ ok (t, o) → Keeps s t
  claim_delivery-Keeps none e = elim (Option-cases (select_task s now)) [
    | inl nothing ↦
        let valid = claim_delivery-valid s now owner duration e in
        let unchanged = claim_delivery-nothing s now owner duration valid nothing in
        let same : s ≡ t = ap (λ a. a.0) (ok-injective (sym unchanged ∙ e)) in
        subst (Keeps s) same (Keeps-refl s h)
    | inr (j, picked) ↦
        let valid = claim_delivery-valid s now owner duration e in
        let (r, found, claimed) = claim_delivery-selected s now owner duration j h picked valid in
        cc
  ]
  claim_delivery-Keeps (some k) e =
      let (j, picked, _, _, same) = claim_delivery-picked k e in
      subst (Keeps s) (sym same) (claimed-Keeps s now owner duration j h picked)

  -- In a store that satisfies the invariant, while a lease of a task is active no claim at that
  -- instant, by whatever owner, returns that task.
  pub claim_delivery-exclusive :
      (id : ℕ) (holder : Text) (j : DeliveryTask) (k : DeliveryClaim)
      → active_delivery_lease s id holder now ≡ some j
      → claim_delivery s now owner duration ≡ ok (t, some k)
      → k.id ≢ id
  claim_delivery-exclusive id holder j k held e clash =
      let (i, picked, named, _, _) = claim_delivery-picked k e in
      let found = select_task-Selected s now i picked in
      let fence = active_delivery_lease-Active s id holder now j held in
      let one : i ≡ j =
        mem-All (λ r. r.id ≡ j.id → r ≡ j) s.delivery_tasks i
          (only_row task_key s.delivery_tasks j h.task_ledger.ids fence.member) found.member
          (sym named ∙ clash ∙ sym fence.same_id) in
      active-not-claimable now (trim_space holder) j fence.is_held fence.in_time
        (subst (λ r. claimable_task now r ≡ true) one found.claimable)
