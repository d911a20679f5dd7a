-- ===== src/TickTick/Scan/Confirmed.antt =====
-- What a confirmed reconciliation has seen.
use mathlib.Core.List.{Memᴰ}
use index_01_hook.Base.{
  ℕ, zero, suc, ◌+◌, ◌≡◌, refl, sym, ap, subst, ◌∙◌, Bool, true, false, not, ◌||◌, Option, none,
  some, List, [], ◌∷◌, ◌++◌, arith, ltb, if◌then◌else◌, Bool-cases, inl, inr,
}
use index_01_hook.Base.Rows.{count_rows}
use index_01_hook.Base.Text.{Text, is_blank, trim_space, byte_length}
use index_01_hook.Application.Failure.{FailureKind, retryable, malformed, configuration}
use index_01_hook.Application.Policy.{max_title_bytes}
use index_01_hook.Worker.Provider.{ReconciliationInput, confirmed, doubtful}
use index_01_hook.TickTick.{classify_status}
use index_01_hook.TickTick.Marker.{valid_tick_tick_marker}
use index_01_hook.TickTick.Scan.{
  RemoteTask, Listing, listed, list_failed, ProjectData, tasks_of, no_data, not_requested, not_sent,
  refused, not_decoded, TickTickService, is_original, carries, Matches, match_task, scan_tasks,
  Scanned, scanned, scan_in_review, scan_failed, with_data, scan_projects, passes_on,
  ReconcileResult, reconciled_with, not_reconciled, judge, conclude, no_matches, scan_listing,
  candidates, reconcile_item, kind_refused, expected_content, max_remote_content_bytes,
}

-- The tasks that the service shows in a project.
abbrev pub shown : ProjectData → List RemoteTask
shown (tasks_of tasks) = tasks
shown _ = []

abbrev pub all_shown : TickTickService → List Text → List RemoteTask
all_shown service [] = []
all_shown service (project ∷ projects) =
    shown (service.project_data project) ++ all_shown service projects

-- A match is an item that was shown, carries the marker, and is the original.
abbrev pub Found : ReconciliationInput → List RemoteTask → Option (Text × Text) → Type 0
Found input tasks none = Unit
Found input tasks (some match) =
    (remote : RemoteTask) × Memᴰ remote tasks
    × (carries input remote ≡ true)
    × (is_original input remote ≡ true)
    × (match.0 ≡ trim_space remote.id)

Found-more :
    (input : ReconciliationInput) (tasks more : List RemoteTask) (o : Option (Text × Text))
    → ((r : RemoteTask) → Memᴰ r tasks → Memᴰ r more)
    → Found input tasks o
    → Found input more o
Found-more input tasks more none wider f = tt
Found-more input tasks more (some match) wider (remote, m, marked, same, id) =
    (remote, wider remote m, marked, same, id)

mem-append-left :
    (r : RemoteTask) (tasks more : List RemoteTask) → Memᴰ r tasks → Memᴰ r (tasks ++ more)
mem-append-left r (t ∷ tasks) more (Memᴰ.head e) = Memᴰ.head e
mem-append-left r (t ∷ tasks) more (Memᴰ.tail m) = Memᴰ.tail (mem-append-left r tasks more m)
mem-append-left r [] more m = elim m [ ]

mem-append-right :
    (r : RemoteTask) (tasks more : List RemoteTask) → Memᴰ r more → Memᴰ r (tasks ++ more)
mem-append-right r [] more m = m
mem-append-right r (t ∷ tasks) more m = Memᴰ.tail (mem-append-right r tasks more m)

count-append :
    (p : RemoteTask → Bool) (tasks more : List RemoteTask)
    → count_rows p (tasks ++ more) ≡ count_rows p tasks + count_rows p more
unfolding count_rows
count-append p [] more = omega arith
count-append p (t ∷ tasks) more = rw (count-append p tasks more) (omega arith)

module _ (input : ReconciliationInput) (project : Text) where
  match_task-Found :
      (seen : List RemoteTask) (remote : RemoteTask) (m : Matches)
      → Memᴰ remote seen
      → carries input remote ≡ true
      → Found input seen m.matched
      → Found input seen (match_task input project remote m).matched
  match_task-Found seen remote m there marked found = elim (Bool-cases (is_original input remote)) [
    | inl e ↦ rw e (remote, there, marked, e, refl)
    | inr e ↦ rw e found
  ]

  scan_tasks-step :
      (b : Bool) (remote : RemoteTask) (tasks : List RemoteTask) (m : Matches)
      → carries input remote ≡ b
      → scan_tasks input project (remote ∷ tasks) m
        ≡ scan_tasks input project tasks (if b then match_task input project remote m else m)
  unfolding scan_tasks
  scan_tasks-step b remote tasks m e =
      ap (λ c. scan_tasks input project tasks (if c then match_task input project remote m else m))
        e

  count-step :
      (b : Bool) (remote : RemoteTask) (tasks : List RemoteTask)
      → carries input remote ≡ b
      → count_rows (carries input) (remote ∷ tasks)
        ≡ (if b then 1 else 0) + count_rows (carries input) tasks
  unfolding count_rows
  count-step b remote tasks e = ap (λ c. (if c then 1 else 0) + count_rows (carries input) tasks) e

  scan_nothing :
      (seen : List RemoteTask) (m : Matches)
      → Found input seen m.matched
      → ((scan_tasks input project [] m).marker_matches
          ≡ m.marker_matches + count_rows (carries input) [])
        × Found input seen (scan_tasks input project [] m).matched
  unfolding scan_tasks count_rows
  scan_nothing seen m found = (omega arith, found)

  -- The scan of a project counts its marked items, and only matches what it shows.
  scan_tasks_lem :
      (tasks seen : List RemoteTask) (m : Matches)
      → ((r : RemoteTask) → Memᴰ r tasks → Memᴰ r seen)
      → Found input seen m.matched
      → ((scan_tasks input project tasks m).marker_matches
          ≡ m.marker_matches + count_rows (carries input) tasks)
        × Found input seen (scan_tasks input project tasks m).matched
  scan_tasks_lem [] seen m within found = scan_nothing seen m found
  scan_tasks_lem (remote ∷ tasks) seen m within found = elim (Bool-cases (carries input remote)) [
    | inl marked ↦
        let (counted, still) =
          scan_tasks_lem tasks seen (match_task input project remote m)
            (λ r at. within r (Memᴰ.tail at))
            (match_task-Found seen remote m (within remote (Memᴰ.head refl)) marked found) in
        rw (scan_tasks-step true remote tasks m marked, count-step true remote tasks marked)
          (counted ∙ omega arith, still)
    | inr other ↦
        let (counted, still) =
          scan_tasks_lem tasks seen m (λ r at. within r (Memᴰ.tail at)) found in
        rw (scan_tasks-step false remote tasks m other, count-step false remote tasks other)
          (counted ∙ omega arith, still)
  ]

with_data-scanned :
    (answer : ProjectData) (f : List RemoteTask → Scanned) (out : Matches)
    → with_data answer f ≡ scanned out
    → f (shown answer) ≡ scanned out
with_data-scanned (tasks_of tasks) f out e = e
with_data-scanned no_data f out e = cc
with_data-scanned not_requested f out e = cc
with_data-scanned not_sent f out e = cc
with_data-scanned (refused status) f out e =
    elim (Bool-cases (passes_on (classify_status status))) [
      | inl q ↦ let stop : scan_failed (classify_status status) ≡ scanned out = rw q at e in cc
      | inr q ↦ let stop : scan_in_review ≡ scanned out = rw q at e in cc
    ]
with_data-scanned (not_decoded true) f out e = cc
with_data-scanned (not_decoded false) f out e = cc

scanned-injective : (m n : Matches) → scanned m ≡ scanned n → m ≡ n
scanned-injective m n e = cc

-- A scan that ends has counted the marked items of all the projects.
scan_projects_lem :
    (service : TickTickService) (input : ReconciliationInput) (projects : List Text)
    (seen : List RemoteTask) (m out : Matches)
    → ((r : RemoteTask) → Memᴰ r (all_shown service projects) → Memᴰ r seen)
    → Found input seen m.matched
    → scan_projects service input projects m ≡ scanned out
    → (out.marker_matches
        ≡ m.marker_matches + count_rows (carries input) (all_shown service projects))
      × Found input seen out.matched
unfolding scan_projects count_rows
scan_projects_lem service input [] seen m out within found e =
    let same = scanned-injective m out e in rw (sym same) (count_nothing m, found)
  where
    count_nothing :
        (k : Matches) → k.marker_matches ≡ k.marker_matches + count_rows (carries input) []
    count_nothing k = omega arith
scan_projects_lem service input (project ∷ projects) seen m out within found e =
    let tasks = shown (service.project_data project) in
    let rest = with_data-scanned (service.project_data project) _ out e in
    let (counted, still) =
      scan_tasks_lem input project tasks seen m
        (λ r at. within r (mem-append-left r tasks (all_shown service projects) at)) found in
    let (total, last) =
      scan_projects_lem service input projects seen (scan_tasks input project tasks m) out
        (λ r at. within r (mem-append-right r tasks (all_shown service projects) at)) still rest in
    (
      total
          ∙ (rw (counted, count-append (carries input) tasks (all_shown service projects))
              (omega arith)),
      last,
    )

passed :
    (b : Bool) (kind : FailureKind) (r : ReconcileResult) (id project : Text)
    → (if b then not_reconciled kind else r) ≡ reconciled_with confirmed id project
    → r ≡ reconciled_with confirmed id project
passed true kind r id project e = cc
passed false kind r id project e = e

not_reviewed :
    (b : Bool) (r : ReconcileResult) (id project : Text)
    → (if b then reconciled_with doubtful [] [] else r) ≡ reconciled_with confirmed id project
    → r ≡ reconciled_with confirmed id project
not_reviewed true r id project e = cc
not_reviewed false r id project e = e

reconciled_with-injective :
    (a b c d : Text)
    → reconciled_with confirmed a b ≡ reconciled_with confirmed c d
    → (a ≡ c) × (b ≡ d)
reconciled_with-injective a b c d e = (cc, cc)

judge-confirmed :
    (n : ℕ) (matched : Option (Text × Text)) (id project : Text)
    → judge n matched ≡ reconciled_with confirmed id project
    → (n ≡ 1) × (matched ≡ some (id, project))
judge-confirmed zero matched id project e = cc
judge-confirmed (suc zero) none id project e = cc
judge-confirmed (suc zero) (some (i, p)) id project e =
    let same = not_reviewed (is_blank i) (reconciled_with confirmed i p) id project e in
    let (first, second) = reconciled_with-injective i p id project same in
    (refl, (λ k. some (first k, second k)))
judge-confirmed (suc (suc n)) matched id project e = cc

-- One visible item carries the marker, and it is the original.
abbrev pub Confirms : TickTickService → ReconciliationInput → Text → List Text → Type 0
Confirms service input id ids =
    let tasks = all_shown service (candidates input.kind ids) in
    (count_rows (carries input) tasks ≡ 1)
    × ((remote : RemoteTask) × Memᴰ remote tasks
        × (carries input remote ≡ true)
        × (is_original input remote ≡ true)
        × (id ≡ trim_space remote.id))

conclude-confirmed :
    (service : TickTickService) (input : ReconciliationInput) (ids : List Text) (id project : Text)
    (ended : Bool) (out : Scanned)
    → scan_projects service input (candidates input.kind ids) no_matches ≡ out
    → conclude ended out ≡ reconciled_with confirmed id project
    → Confirms service input id ids
conclude-confirmed service input ids id project ended scan_in_review made e = cc
conclude-confirmed service input ids id project ended (scan_failed kind) made e = cc
conclude-confirmed service input ids id project ended (scanned out) made e =
    let (one, match) =
      judge-confirmed out.marker_matches out.matched id project (passed ended _ _ id project e) in
    let (total, found) =
      scan_projects_lem service input (candidates input.kind ids)
        (all_shown service (candidates input.kind ids)) no_matches out (λ r at. at) tt made in
    let total_is : 0 + count_rows (carries input) (all_shown service (candidates input.kind ids))
        ≡ count_rows (carries input) (all_shown service (candidates input.kind ids)) =
      omega arith in
    let (remote, there, marked, original, same) =
      subst (Found input (all_shown service (candidates input.kind ids))) match found in
    (sym total_is ∙ sym total ∙ one, (remote, there, marked, original, same))

scan_listing-confirmed :
    (service : TickTickService) (input : ReconciliationInput) (listing : Listing)
    (id project : Text)
    → scan_listing service input listing ≡ reconciled_with confirmed id project
    → (ids : List Text) × (listing ≡ listed ids) × Confirms service input id ids
unfolding scan_listing
scan_listing-confirmed service input (list_failed ended kind) id project e =
    let rest = passed ended retryable _ id project e in
    let stop = passed (passes_on kind) kind _ id project rest in cc
scan_listing-confirmed service input (listed ids) id project e = (
  ids,
  refl,
  conclude-confirmed service input ids id project service.ended _ refl
      (not_reviewed _ _ id project e),
)

-- A reconciliation is confirmed only where the projects were listed and exactly one item of all
-- the visible projects carries the marker; that item has the kind, the title and the content that
-- were to be created, and the identifier that is returned.
pub reconcile_item-confirmed :
    (fold : ℕ → ℕ) (service : TickTickService) (input : ReconciliationInput) (id project : Text)
    → reconcile_item fold service input ≡ reconciled_with confirmed id project
    → (ids : List Text) × (service.projects ≡ listed ids) × Confirms service input id ids
unfolding reconcile_item
reconcile_item-confirmed fold service input id project e =
    scan_listing-confirmed service input service.projects id project (
      passed (ltb max_remote_content_bytes (byte_length (expected_content input))) malformed _ id
        project
        (passed
          (is_blank (trim_space input.title)
            || ltb max_title_bytes (byte_length (trim_space input.title)))
          malformed _ id project
          (passed (not (valid_tick_tick_marker fold input.marker)) malformed _ id project (
            passed (kind_refused input.kind (trim_space input.project_alias)) configuration _ id
              project e))))
