-- ===== src/Application/Policy.antt =====
-- internal/application/item_policy.go: limits, tags, aliases and the frozen item contract.
use index_01_hook.Base.{
  ℕ, ◌*◌, Bool, true, false, not, ◌&&◌, ◌||◌, Option, none, some, List, [], ◌∷◌, ltb, ◌==◌, length,
  is_some, if◌then◌else◌,
}
use index_01_hook.Base.Int.{ℤ, pos, negsuc}
use index_01_hook.Base.Rows.{any_row}
use index_01_hook.Base.Text.{Text, text_eq, is_blank, byte_length, trim_space, to_lower}
use index_01_hook.Application.Item.{ItemKind, task, note, other, Item}

abbrev pub max_items : ℕ
max_items = 10

abbrev pub max_title_bytes : ℕ
max_title_bytes = 500

abbrev pub max_content_bytes : ℕ
max_content_bytes = 32 * 1024

abbrev pub max_alias_bytes : ℕ
max_alias_bytes = 100

abbrev pub max_tags : ℕ
max_tags = 10

abbrev pub max_tag_bytes : ℕ
max_tag_bytes = 100

unfoldable pub valid_priority : ℤ → Bool
valid_priority (pos p) = p == 0 || p == 1 || p == 3 || p == 5
valid_priority (negsuc p) = false

-- The keys of the map `seen`.
unfoldable pub seen_before : Text → List Text → Bool
unfolding any_row text_eq
seen_before t seen = any_row (text_eq t) seen

abbrev pub valid_tag : Text → Bool
valid_tag tag = not (is_blank tag || ltb max_tag_bytes (byte_length tag))

-- The loop of `NormalizeTags`, over the tags left and the set `seen`; the result comes in order.
unfoldable pub tags_from : List Text → List Text → Option (List Text)
unfolding seen_before trim_space byte_length
tags_from seen [] = some []
tags_from seen (raw ∷ rest) =
    let tag = trim_space raw in
    let again = tags_from seen rest in
    let more = tags_from (tag ∷ seen) rest in
    if valid_tag tag
    then (if seen_before tag seen
        then again
        else elim more [ none ↦ none | some ts ↦ some (tag ∷ ts) ])
    else none

-- `none` is the error: too many tags, or an invalid tag.
unfoldable pub normalize_tags : List Text → Option (List Text)
unfolding tags_from
normalize_tags tags = if ltb max_tags (length tags) then none else tags_from [] tags

-- `sort.Strings`: the byte order of UTF-8 is the order of code points.
unfoldable pub text_le : Text → Text → Bool
text_le [] t = true
text_le (a ∷ s) [] = false
text_le (a ∷ s) (b ∷ t) = ltb a b || (a == b && text_le s t)

unfoldable pub insert_sorted : Text → List Text → List Text
unfolding text_le
insert_sorted t [] = t ∷ []
insert_sorted t (u ∷ us) = if text_le t u then t ∷ u ∷ us else u ∷ insert_sorted t us

unfoldable pub sort_strings : List Text → List Text
unfolding insert_sorted
sort_strings [] = []
sort_strings (t ∷ ts) = insert_sorted t (sort_strings ts)

abbrev pub forbidden_in_alias : ℕ → Bool
forbidden_in_alias c = c == 13 || c == 10 || c == 0

abbrev pub valid_alias : Text → Bool
valid_alias alias =
    not (
      is_blank alias || ltb max_alias_bytes (byte_length alias) || any_row forbidden_in_alias alias)

module _ (fold : ℕ → ℕ) where
  abbrev pub canonical_alias : Text → Text
  canonical_alias value = to_lower fold (trim_space value)

  unfoldable pub aliases_from : List Text → List Text → Option (List Text)
  unfolding seen_before trim_space to_lower byte_length
  aliases_from seen [] = some []
  aliases_from seen (value ∷ rest) =
      let alias = canonical_alias value in
      let again = aliases_from seen rest in
      let more = aliases_from (alias ∷ seen) rest in
      if valid_alias alias
      then (if seen_before alias seen
          then again
          else elim more [ none ↦ none | some ts ↦ some (alias ∷ ts) ])
      else none

  unfoldable pub normalize_aliases : List Text → Option (List Text)
  unfolding aliases_from sort_strings
  normalize_aliases values = elim (aliases_from [] values) [
    | none ↦ none
    | some aliases ↦ some (sort_strings aliases)
  ]

-- The refusals of `ValidateItem`, one for each message.
pub data ItemError : Type 0 where
  kind_invalid title_invalid content_too_large note_has_task_fields all_day_without_due : ItemError
  priority_invalid tags_invalid alias_too_large : ItemError

abbrev pub valid_title : Text → Bool
valid_title title =
    let t = trim_space title in not (is_blank t || ltb max_title_bytes (byte_length t))

abbrev no_tags : List Text → Bool
no_tags [] = true
no_tags (t ∷ ts) = false

abbrev is_zero : ℤ → Bool
is_zero (pos p) = p == 0
is_zero (negsuc p) = false

abbrev validate_note : Item → Option ItemError
validate_note item =
    if is_some item.due
      || item.all_day
      || not (is_zero item.priority)
      || not (no_tags item.tags)
      || not (is_blank item.project_alias)
    then some note_has_task_fields
    else none

-- The checks that a task shares with a legacy task of the queue.
abbrev pub validate_task_fields : Option ℕ → Bool → ℤ → List Text → Text → Option ItemError
validate_task_fields due all_day priority tags project_alias =
    if not (is_some due) && all_day
    then some all_day_without_due
    else if not (valid_priority priority)
    then some priority_invalid
    else if not (is_some (normalize_tags tags))
    then some tags_invalid
    else if ltb max_alias_bytes (byte_length (trim_space project_alias))
    then some alias_too_large
    else none

abbrev validate_kind : ItemKind → Item → Option ItemError
validate_kind task item =
    validate_task_fields item.due item.all_day item.priority item.tags item.project_alias
validate_kind note item = validate_note item
validate_kind other item = some kind_invalid

abbrev pub is_known_kind : ItemKind → Bool
is_known_kind other = false
is_known_kind _ = true

-- `none` is success.
unfoldable pub validate_item : Item → Option ItemError
unfolding valid_priority normalize_tags byte_length trim_space
validate_item item =
    if not (is_known_kind item.kind)
    then some kind_invalid
    else if not (valid_title item.title)
    then some title_invalid
    else if ltb max_content_bytes (byte_length item.content)
    then some content_too_large
    else validate_kind item.kind item
