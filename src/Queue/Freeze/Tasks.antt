-- ===== src/Queue/Freeze/Tasks.antt =====
-- The delivery tasks that FreezeExtraction makes of an extraction's items.
use mathlib.Core.List.{append-nil, append_assoc}
use index_01_hook.Base.{ℕ, ◌+◌, ◌≡◌, refl, sym, ◌∙◌, ap, Option, some, none, List, [], ◌∷◌, ◌++◌}
use index_01_hook.Base.Int.{pos}
use index_01_hook.Base.Rows.{next_id}
use index_01_hook.Base.Text.{Text}
use index_01_hook.Application.Item.{Item}
use index_01_hook.Application.Identity.{tick_tick_marker}
use index_01_hook.Queue.Types.{DeliveryTask}
use index_01_hook.Queue.Schema.{constraint, ok, >>=-eq-ok, guard-eq-ok, ok-injective}
use index_01_hook.Queue.Invariant.Tasks.{task_key}
use index_01_hook.Queue.Freeze.{insert_items, insert_task, task_of_item, or_invalid_marker}

-- One task for each item, in order: the item's, at its index, under the marker of that index.
abbrev pub TasksOf : (ℕ → ℕ) → ℕ → ℕ → Text → ℕ → List Item → List DeliveryTask → Type 0
TasksOf fold rid now hash index [] [] = Unit
TasksOf fold rid now hash index (item ∷ items) (t ∷ ts) =
    (tick_tick_marker fold hash (pos index) ≡ some t.marker)
    × (t ≡ task_of_item t.id rid now t.marker index item)
    × TasksOf fold rid now hash (index + 1) items ts
TasksOf fold rid now hash index [] (t ∷ ts) = ⊥
TasksOf fold rid now hash index (item ∷ items) [] = ⊥

pub insert_task-eq-ok :
    (t : DeliveryTask) (tasks tasks' : List DeliveryTask)
    → insert_task t tasks ≡ ok tasks'
    → tasks' ≡ tasks ++ (t ∷ [])
unfolding insert_task
insert_task-eq-ok t tasks tasks' h = sym (ok-injective (guard-eq-ok _ constraint _ h).1)

or_invalid_marker-eq-ok : (o : Option Text) (m : Text) → or_invalid_marker o ≡ ok m → o ≡ some m
or_invalid_marker-eq-ok none m h = cc
or_invalid_marker-eq-ok (some n) m h = ap some (ok-injective h)

module _ (fold : ℕ → ℕ) (rid now : ℕ) (hash : Text) where
  -- The insertions append the tasks of the items, and touch no other row.
  pub insert_items-TasksOf :
      (index : ℕ) (items : List Item) (tasks tasks' : List DeliveryTask)
      → insert_items fold rid now hash index items tasks ≡ ok tasks'
      → (new : List DeliveryTask) × (tasks' ≡ tasks ++ new)
        × TasksOf fold rid now hash index items new
  unfolding insert_items
  insert_items-TasksOf index [] tasks tasks' e = ([], sym (append-nil tasks ∙ ok-injective e), tt)
  insert_items-TasksOf index (item ∷ items) tasks tasks' e =
      let (marker, e0, e1) =
        >>=-eq-ok (or_invalid_marker (tick_tick_marker fold hash (pos index))) _ e in
      let t = task_of_item (next_id task_key tasks) rid now marker index item in
      let (more, e2, e3) = >>=-eq-ok (insert_task t tasks) _ e1 in
      let (new, appended, matched) = insert_items-TasksOf (index + 1) items more tasks' e3 in
      (
        t ∷ new,
        appended
            ∙ ap (λ ts. ts ++ new) (insert_task-eq-ok t tasks more e2)
            ∙ append_assoc tasks (t ∷ []) new,
        (or_invalid_marker-eq-ok _ marker e0, refl, matched),
      )
