-- ===== src/Application/Item.antt =====
-- internal/application/items.go: the ordered item that extraction, storage and delivery share.
use index_01_hook.Base.{ℕ, Bool, Option, List}
use index_01_hook.Base.Int.{ℤ}
use index_01_hook.Base.Text.{Text}

-- `ItemKind` is a string with two valid values; `other` stands for every other string.
pub data ItemKind : Type 0 where
  task note other : ItemKind

-- An instant is a number of nanoseconds from a fixed origin that lies before all of them.
pub record Item : Type 0 where
  pub kind : ItemKind
  pub title : Text
  pub content : Text
  pub due : Option ℕ
  pub all_day : Bool
  pub priority : ℤ
  pub tags : List Text
  pub project_alias : Text
