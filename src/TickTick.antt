-- ===== src/TickTick.antt =====
-- ticktick.go: routing, the classes of a status, and ReconcileItem's scan of the visible projects.
-- What the TickTick service answers is a parameter.
pub mod Scan
pub mod Marker
mod Tests
use index_01_hook.Base.{
  ℕ, Bool, true, false, not, ◌&&◌, ◌||◌, Option, none, some, List, [], ◌∷◌, leb, ◌==◌,
  if◌then◌else◌,
}
use index_01_hook.Base.Text.{Text, text_eq, is_blank, trim_space, to_lower}
use index_01_hook.Application.Item.{ItemKind, task, note, other}
use index_01_hook.Application.Failure.{
  FailureKind, authentication, configuration, retryable, malformed, ambiguous_write,
}

-- `TickTickRouter`; the map of aliases is an association list.
pub record TickTickRouter : Type 0 where
  pub default_project_id : Text
  pub note_project_id : Text
  pub aliases : List (Text × Text)

pub data Route : Type 0 where
  routed : Text → Route
  not_routed : FailureKind → Route

unfoldable pub lookup : Text → List (Text × Text) → Option Text
unfolding text_eq
lookup key [] = none
lookup key (entry ∷ entries) = if text_eq entry.0 key then some entry.1 else lookup key entries

abbrev pub route_of : Option Text → Route
route_of none = not_routed configuration
route_of (some project) = routed project

module _ (fold : ℕ → ℕ) (router : TickTickRouter) where
  -- `ResolveProject`.
  unfoldable pub resolve_project : Text → Route
  unfolding lookup trim_space to_lower
  resolve_project project_alias =
      let key = to_lower fold (trim_space project_alias) in
      if is_blank key
      then routed router.default_project_id
      else route_of (lookup key router.aliases)

  -- `ResolveItemProject`.
  unfoldable pub resolve_item_project : ItemKind → Text → Route
  unfolding resolve_project trim_space
  resolve_item_project task project_alias = resolve_project project_alias
  resolve_item_project note project_alias =
      if not (is_blank (trim_space project_alias))
      then not_routed configuration
      else if is_blank (trim_space router.note_project_id)
      then not_routed configuration
      else routed router.note_project_id
  resolve_item_project other project_alias = not_routed configuration

-- `classifyTickTickStatus`: the kind of its error.
unfoldable pub classify_status : ℕ → FailureKind
classify_status status =
    if status == 401 || status == 403
    then authentication
    else if status == 404
    then configuration
    else if status == 408 || status == 425 || status == 409 || status == 429 || leb 500 status
    then retryable
    else malformed

abbrev in_doubt : FailureKind → FailureKind
in_doubt retryable = ambiguous_write
in_doubt kind = kind

-- `classifyTickTickCreateStatus`: a create that may have happened is ambiguous.
unfoldable pub classify_create_status : ℕ → FailureKind
unfolding classify_status
classify_create_status status = in_doubt (classify_status status)
