-- ===== src/TickTick/Scan.antt =====
-- ReconcileItem of ticktick.go: the search of the visible projects for the one item of a marker.
pub mod Confirmed
use index_01_hook.Base.{
  ℕ, zero, suc, ◌+◌, ◌-◌, ◌*◌, Bool, true, false, not, ◌&&◌, ◌||◌, Option, none, some, List, [],
  ◌∷◌, ◌++◌, leb, ltb, ◌==◌, if◌then◌else◌, length, map,
}
use index_01_hook.Base.Rows.{any_row}
use index_01_hook.Base.Text.{Text, codes, text_eq, is_blank, trim_space, byte_length}
use index_01_hook.Application.Item.{ItemKind, task, note, other}
use index_01_hook.Application.Failure.{
  FailureKind, authentication, configuration, retryable, malformed,
}
use index_01_hook.Application.Policy.{max_title_bytes}
use index_01_hook.Queue.Frozen.{safe_provider_identifier}
use index_01_hook.Worker.Provider.{
  ReconciliationInput, ReconciliationStatus, confirmed, unconfirmed, doubtful,
}
use index_01_hook.TickTick.{classify_status}
use index_01_hook.TickTick.Marker.{valid_tick_tick_marker, has_exact_marker_line}

-- `tickTickTaskResponse`, as far as it is read.
pub record RemoteTask : Type 0 where
  pub id : Text
  pub kind : Text
  pub title : Text
  pub content : Text

-- The answer to the list of projects; a failure comes with whether the context has ended.
pub data Listing : Type 0 where
  listed : List Text → Listing
  list_failed : Bool → FailureKind → Listing

-- The answer to a project's data. `no_data` is a body without tasks; a body that does not decode
-- comes with whether the context has ended.
pub data ProjectData : Type 0 where
  tasks_of : List RemoteTask → ProjectData
  no_data not_requested not_sent : ProjectData
  refused : ℕ → ProjectData
  not_decoded : Bool → ProjectData

pub record TickTickService : Type 0 where
  pub projects : Listing
  pub project_data : Text → ProjectData
  pub ended : Bool

abbrev pub max_reconcile_projects : ℕ
max_reconcile_projects = 100

abbrev pub max_remote_content_bytes : ℕ
max_remote_content_bytes = 64 * 1024

abbrev inbox : Text
inbox = codes "inbox"

abbrev is_dot : ℕ → Bool
is_dot c = c == b'.'

unfoldable has_two_dots : Text → Bool
has_two_dots [] = false
has_two_dots (c ∷ []) = false
has_two_dots (c ∷ d ∷ s) = (is_dot c && is_dot d) || has_two_dots (d ∷ s)

unfoldable safe_project_id : Text → Bool
unfolding safe_provider_identifier text_eq trim_space any_row has_two_dots
safe_project_id id =
    safe_provider_identifier id
    && text_eq id (trim_space id)
    && not (any_row (λ c. c == b'/' || c == 92) id)
    && not (has_two_dots id)
    && not (text_eq id (codes "."))

-- The loop over the projects: every id is safe, and none comes twice.
unfoldable pub safe_ids : List Text → List Text → Bool
unfolding safe_project_id any_row text_eq
safe_ids seen [] = true
safe_ids seen (id ∷ ids) =
    safe_project_id id && not (any_row (text_eq id) seen) && safe_ids (id ∷ seen) ids

unfoldable pub candidates : ItemKind → List Text → List Text
unfolding any_row text_eq
candidates task ids = if any_row (text_eq inbox) ids then ids else ids ++ (inbox ∷ [])
candidates _ ids = ids

abbrev upper : ℕ → ℕ
upper c = if leb b'a' c && leb c b'z' then c - 32 else c

-- `strings.EqualFold` with a word of ASCII letters other than K and S.
unfoldable equal_fold : Text → Text → Bool
unfolding text_eq
equal_fold s word = text_eq (map upper s) word

unfoldable pub kind_matches : ItemKind → Text → Bool
unfolding equal_fold
kind_matches task kind = equal_fold kind (codes "TEXT")
kind_matches note kind = equal_fold kind (codes "NOTE")
kind_matches other kind = false

abbrev pub expected_content : ReconciliationInput → Text
expected_content input = input.marker ++ (10 ∷ 10 ∷ input.content)

-- The task is the item that was to be created.
unfoldable pub is_original : ReconciliationInput → RemoteTask → Bool
unfolding kind_matches text_eq trim_space safe_provider_identifier
is_original input remote =
    kind_matches input.kind remote.kind
    && text_eq (trim_space remote.title) (trim_space input.title)
    && text_eq remote.content (expected_content input)
    && safe_provider_identifier remote.id

abbrev pub carries : ReconciliationInput → RemoteTask → Bool
carries input remote = has_exact_marker_line remote.content input.marker

-- `markerMatches`, and the last match's task and project.
pub record Matches : Type 0 where
  pub marker_matches : ℕ
  pub matched : Option (Text × Text)

abbrev pub match_task : ReconciliationInput → Text → RemoteTask → Matches → Matches
match_task input project remote m = record {
  marker_matches = m.marker_matches + 1;
  matched = if is_original input remote then some (trim_space remote.id, project) else m.matched;
}

unfoldable pub scan_tasks : ReconciliationInput → Text → List RemoteTask → Matches → Matches
scan_tasks input project [] m = m
scan_tasks input project (remote ∷ tasks) m =
    scan_tasks input project tasks
      (if carries input remote then match_task input project remote m else m)

pub data Scanned : Type 0 where
  scanned : Matches → Scanned
  scan_in_review : Scanned
  scan_failed : FailureKind → Scanned

abbrev pub passes_on : FailureKind → Bool
passes_on retryable = true
passes_on authentication = true
passes_on _ = false

abbrev by_kind : FailureKind → Scanned
by_kind kind = if passes_on kind then scan_failed kind else scan_in_review

abbrev pub with_data : ProjectData → (List RemoteTask → Scanned) → Scanned
with_data (tasks_of tasks) f = f tasks
with_data no_data f = scan_in_review
with_data not_requested f = scan_in_review
with_data not_sent f = scan_failed retryable
with_data (refused status) f = by_kind (classify_status status)
with_data (not_decoded ended) f = if ended then scan_failed retryable else scan_in_review

unfoldable pub scan_projects : TickTickService → ReconciliationInput → List Text → Matches → Scanned
scan_projects service input [] m = scanned m
scan_projects service input (project ∷ projects) m =
    with_data (service.project_data project)
      (λ tasks. scan_projects service input projects (scan_tasks input project tasks m))

pub data ReconcileResult : Type 0 where
  reconciled_with : ReconciliationStatus → Text → Text → ReconcileResult
  not_reconciled : FailureKind → ReconcileResult

abbrev pub in_review : ReconcileResult
in_review = reconciled_with doubtful [] []

-- The last switch: `matchedID != ""` holds of every match.
abbrev pub judge : ℕ → Option (Text × Text) → ReconcileResult
judge zero matched = reconciled_with unconfirmed [] []
judge (suc zero) none = in_review
judge (suc zero) (some (id, project)) =
    if is_blank id then in_review else reconciled_with confirmed id project
judge (suc (suc n)) matched = in_review

abbrev pub conclude : Bool → Scanned → ReconcileResult
conclude ended scan_in_review = in_review
conclude ended (scan_failed kind) = not_reconciled kind
conclude ended (scanned m) =
    if ended then not_reconciled retryable else judge m.marker_matches m.matched

abbrev pub no_matches : Matches
no_matches = record { marker_matches = 0; matched = none }

unfoldable pub scan_listing : TickTickService → ReconciliationInput → Listing → ReconcileResult
scan_listing service input (list_failed ended kind) =
    if ended
    then not_reconciled retryable
    else if passes_on kind
    then not_reconciled kind
    else in_review
scan_listing service input (listed ids) =
    if ltb max_reconcile_projects (length ids) || not (safe_ids [] ids)
    then in_review
    else conclude service.ended (scan_projects service input (candidates input.kind ids) no_matches)

abbrev pub kind_refused : ItemKind → Text → Bool
kind_refused task project_alias = false
kind_refused note project_alias = not (is_blank project_alias)
kind_refused other project_alias = true

-- `ReconcileItem`.
unfoldable pub reconcile_item : (ℕ → ℕ) → TickTickService → ReconciliationInput → ReconcileResult
reconcile_item fold service input =
    let title = trim_space input.title in
    if kind_refused input.kind (trim_space input.project_alias)
    then not_reconciled configuration
    else if not (valid_tick_tick_marker fold input.marker)
    then not_reconciled malformed
    else if is_blank title || ltb max_title_bytes (byte_length title)
    then not_reconciled malformed
    else if ltb max_remote_content_bytes (byte_length (expected_content input))
    then not_reconciled malformed
    else scan_listing service input service.projects
