-- ===== src/Queue/Frozen.antt =====
-- What FreezeExtraction accepts: validateFrozenExtraction, frozenItems and safeProviderIdentifier.
use index_01_hook.Base.{
  ℕ, Bool, true, false, not, ◌&&◌, ◌||◌, List, [], ◌∷◌, map, ltb, leb, ◌==◌, length, is_some,
  if◌then◌else◌,
}
use index_01_hook.Base.Text.{Text, is_blank, byte_length, trim_space}
use index_01_hook.Application.Item.{Item, task}
use index_01_hook.Application.Policy.{
  max_items, max_content_bytes, valid_title, validate_item, validate_task_fields, valid_priority,
  normalize_tags,
}
use index_01_hook.Queue.Types.{QueuedTask, FrozenExtraction}

abbrev pub max_provider_id_bytes : ℕ
max_provider_id_bytes = 256

-- A letter, a digit or one of `-_.:/`.
abbrev pub identifier_rune : ℕ → Bool
identifier_rune c =
    (leb b'a' c && leb c b'z')
    || (leb b'A' c && leb c b'Z')
    || (leb b'0' c && leb c b'9')
    || c == b'-'
    || c == b'_'
    || c == b'.'
    || c == b':'
    || c == b'/'

unfoldable pub all_identifier : List ℕ → Bool
all_identifier [] = true
all_identifier (c ∷ s) = identifier_rune c && all_identifier s

unfoldable pub safe_provider_identifier : Text → Bool
unfolding all_identifier byte_length trim_space
safe_provider_identifier value =
    let trimmed = trim_space value in
    not (is_blank trimmed || ltb max_provider_id_bytes (byte_length trimmed))
    && all_identifier trimmed

abbrev is_empty {ℓ} : {A : Type ℓ} → List A → Bool
is_empty [] = true
is_empty (x ∷ xs) = false

abbrev pub item_of_task : QueuedTask → Item
item_of_task t = record {
  kind = task;
  title = t.title;
  content = t.notes;
  due = t.due;
  all_day = t.all_day;
  priority = t.priority;
  tags = t.tags;
  project_alias = t.project_alias;
}

unfoldable pub frozen_items : FrozenExtraction → List Item
frozen_items x =
    if not (is_empty x.items) || is_empty x.tasks then x.items else map item_of_task x.tasks

unfoldable pub items_valid : List Item → Bool
unfolding validate_item
items_valid [] = true
items_valid (i ∷ is) = not (is_some (validate_item i)) && items_valid is

abbrev queued_task_valid : QueuedTask → Bool
queued_task_valid t =
    valid_title t.title
    && leb (byte_length t.notes) max_content_bytes
    && not (is_some (validate_task_fields t.due t.all_day t.priority t.tags t.project_alias))

unfoldable pub tasks_valid : List QueuedTask → Bool
unfolding valid_priority normalize_tags byte_length trim_space
tasks_valid [] = true
tasks_valid (t ∷ ts) = queued_task_valid t && tasks_valid ts

-- `validateFrozenExtraction`: true where it returns nil.
unfoldable pub validate_frozen_extraction : FrozenExtraction → Bool
unfolding safe_provider_identifier frozen_items items_valid tasks_valid
validate_frozen_extraction x =
    safe_provider_identifier x.provider
    && safe_provider_identifier x.model
    && (is_blank x.provider_response_id || safe_provider_identifier x.provider_response_id)
    && (is_empty x.items || is_empty x.tasks)
    && leb (length (frozen_items x)) max_items
    && items_valid x.items
    && tasks_valid x.tasks
