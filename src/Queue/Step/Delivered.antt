-- ===== src/Queue/Step/Delivered.antt =====
-- A completed delivery stays completed, under one marker.
use mathlib.Core.List.{Memᴰ}
use index_01_hook.Base.{
  ℕ, ◌≡◌, ◌≢◌, sym, subst, ◌∙◌, Bool, true, none, some, List, arith, ◌&&◌, Option-cases, inl, inr,
  ◌==◌,
}
use index_01_hook.Base.Rows.{any_row, any_row-find, find_row-sat, any_row_of_mem}
use index_01_hook.Base.Keys.{mem-All, find_row-mem, only_row}
use index_01_hook.Base.Advance.{follows}
use index_01_hook.Base.Text.{text_eq, text_eq_iff}
use index_01_hook.Queue.Types.{Text, DeliveryTask, Store, DeliveryClaim}
use index_01_hook.Queue.Schema.{ok, is_leased, is_completed}
use index_01_hook.Queue.Invariant.{Inv}
use index_01_hook.Queue.Invariant.Tasks.{task_key}
use index_01_hook.Queue.Invariant.Keeps.{TasksForward, task_forward}
use index_01_hook.Queue.Delivery.{active_delivery_lease, claim_delivery, claimable_task}
use index_01_hook.Queue.Delivery.Claim.{claim_delivery-picked, select_task-Selected}
use index_01_hook.Queue.Delivery.Finish.{active_delivery_lease-Active}
use index_01_hook.Queue.Step.{Steps}
use index_01_hook.Queue.Step.Runs.{Steps-Keeps}

-- The task of this id and marker has been delivered.
abbrev pub delivered_as : ℕ → Text → DeliveryTask → Bool
delivered_as id marker t = t.id == id && text_eq t.marker marker && is_completed t.state

delivered_as-parts :
    (id : ℕ) (marker : Text) (t : DeliveryTask)
    → delivered_as id marker t ≡ true
    → (t.id ≡ id) × (text_eq t.marker marker ≡ true) × (is_completed t.state ≡ true)
delivered_as-parts id marker t h = (ground arith, ground arith, ground arith)

follows-parts :
    (t u : DeliveryTask)
    → follows task_key task_forward t u ≡ true
    → is_completed t.state ≡ true
    → (u.id ≡ t.id) × (text_eq t.marker u.marker ≡ true) × (is_completed u.state ≡ true)
follows-parts t u h over = (ground arith, ground arith, ground arith)

delivered_as-follows :
    (id : ℕ) (marker : Text) (t u : DeliveryTask)
    → delivered_as id marker t ≡ true
    → follows task_key task_forward t u ≡ true
    → delivered_as id marker u ≡ true
delivered_as-follows id marker t u a b =
    let (named, marked, over) = delivered_as-parts id marker t a in
    let (same, kept, done) = follows-parts t u b over in
    let is_id : (u.id == id) ≡ true = rw (same, named) (ground arith) in
    rw (is_id, sym ((text_eq_iff t.marker u.marker).0 kept), marked, done)

delivered_as-forward :
    (id : ℕ) (marker : Text) (tasks tasks' : List DeliveryTask)
    → TasksForward tasks tasks'
    → any_row (delivered_as id marker) tasks ≡ true
    → any_row (delivered_as id marker) tasks' ≡ true
delivered_as-forward id marker tasks tasks' forward h =
    let (t, found) = any_row-find (delivered_as id marker) tasks h in
    let next =
      mem-All (λ x. any_row (follows task_key task_forward x) tasks' ≡ true) tasks t forward
        (find_row-mem (delivered_as id marker) tasks t found) in
    let (u, there) = any_row-find (follows task_key task_forward t) tasks' next in
    any_row_of_mem (delivered_as id marker) tasks' u
      (find_row-mem (follows task_key task_forward t) tasks' u there)
      (delivered_as-follows id marker t u (find_row-sat (delivered_as id marker) tasks t found)
        (find_row-sat (follows task_key task_forward t) tasks' u there))

-- The task of a delivered id is the delivered one.
delivered-task :
    (s : Store) (id : ℕ) (marker : Text) (t : DeliveryTask)
    → Inv s
    → any_row (delivered_as id marker) s.delivery_tasks ≡ true
    → Memᴰ t s.delivery_tasks
    → t.id ≡ id
    → is_completed t.state ≡ true
delivered-task s id marker t h there m named =
    let (i, found) = any_row-find (delivered_as id marker) s.delivery_tasks there in
    let (same, _, over) =
      delivered_as-parts id marker i
        (find_row-sat (delivered_as id marker) s.delivery_tasks i found) in
    let one : i ≡ t =
      mem-All (λ r. r.id ≡ t.id → r ≡ t) s.delivery_tasks i
        (only_row task_key s.delivery_tasks t h.task_ledger.ids m)
        (find_row-mem (delivered_as id marker) s.delivery_tasks i found) (same ∙ sym named) in
    subst (λ (r : DeliveryTask). is_completed r.state ≡ true) one over

module _ (fold : ℕ → ℕ) (s t : Store) (id : ℕ) (marker : Text) (h : Inv s)
    (delivered : any_row (delivered_as id marker) s.delivery_tasks ≡ true)
    (run : Steps fold s t) where
  -- A task that is completed in a store that satisfies the invariant is there after every run,
  -- completed and under the marker it had.
  pub delivered-stays : any_row (delivered_as id marker) t.delivery_tasks ≡ true
  delivered-stays =
      delivered_as-forward id marker s.delivery_tasks t.delivery_tasks
        (Steps-Keeps fold s t h run).tasks delivered

  -- Once a task is completed in a store that satisfies the invariant, no claim after any run
  -- returns it.
  pub claim_delivery-delivered :
      (u : Store) (now : ℕ) (owner : Text) (duration : ℕ) (k : DeliveryClaim)
      → claim_delivery t now owner duration ≡ ok (u, some k)
      → k.id ≢ id
  claim_delivery-delivered u now owner duration k e clash =
      let inv = (Steps-Keeps fold s t h run).inv in
      let (j, picked, named, _, _) = claim_delivery-picked t u now owner duration inv k e in
      let found = select_task-Selected t now j picked in
      not-claimable j now found.claimable
        (delivered-task t id marker j inv delivered-stays found.member (sym named ∙ clash))
    where
      not-claimable :
          (j : DeliveryTask) (at : ℕ) → claimable_task at j ≡ true → is_completed j.state ≡ true → ⊥
      not-claimable j at can over = ground arith

  -- Once a task is completed in a store that satisfies the invariant, no lease on it is active
  -- after any run, for any owner and at any instant.
  pub active_delivery_lease-delivered :
      (owner : Text) (now : ℕ) → active_delivery_lease t id owner now ≡ none
  active_delivery_lease-delivered owner now =
      elim (Option-cases (active_delivery_lease t id owner now)) [
        | inl gone ↦ gone
        | inr (j, found) ↦
            let inv = (Steps-Keeps fold s t h run).inv in
            let active = active_delivery_lease-Active t id owner now j found in
            absurd (
              not-both j active.is_held
                (delivered-task t id marker j inv delivered-stays active.member active.same_id))
      ]
    where
      not-both : (j : DeliveryTask) → is_leased j.state ≡ true → is_completed j.state ≡ true → ⊥
      not-both j held over = ground arith
