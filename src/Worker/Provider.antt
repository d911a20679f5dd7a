-- ===== src/Worker/Provider.antt =====
-- The providers of worker.go, as the answers that they give.
use index_01_hook.Base.{ℕ, Bool, true, false, Option, none, some, List, if◌then◌else◌}
use index_01_hook.Base.Int.{ℤ}
use index_01_hook.Application.Item.{ItemKind}
use index_01_hook.Application.Failure.{
  Cause, Failure, FailureKind, malformed, unclassified, failure_of, is_valid,
}
use index_01_hook.Queue.Types.{Text}

pub data Answer {ℓ} (A : Type ℓ) : Type ℓ where
  answered : A → Answer A
  failed : Cause → Answer A

-- `TickTickTaskInput`, `TickTickNoteInput` and `TickTickReconciliationInput`.
pub record TaskInput : Type 0 where
  pub title : Text
  pub content : Text
  pub recording_hash : Text
  pub task_index : ℕ
  pub priority : ℤ
  pub tags : List Text
  pub due : Option ℕ
  pub all_day : Bool
  pub time_zone : Text

pub record NoteInput : Type 0 where
  pub title : Text
  pub content : Text
  pub recording_hash : Text
  pub task_index : ℕ

pub record ReconciliationInput : Type 0 where
  pub kind : ItemKind
  pub project_alias : Text
  pub marker : Text
  pub title : Text
  pub content : Text

-- `TickTickCreatedTask`.
pub record Created : Type 0 where
  pub id : Text
  pub project_id : Text

-- `unlisted` stands for every other status.
pub data ReconciliationStatus : Type 0 where
  confirmed unconfirmed doubtful unlisted : ReconciliationStatus

pub record Reconciliation : Type 0 where
  pub status : ReconciliationStatus
  pub task_id : Text
  pub project_id : Text

pub record DeliveryProvider : Type 0 where
  pub create_task : Text → TaskInput → Answer Created
  pub create_note : NoteInput → Answer Created
  pub reconcile_item : ReconciliationInput → Answer Reconciliation

-- What has been asked of the provider.
pub data Call : Type 0 where
  task_created : Text → TaskInput → Call
  note_created : NoteInput → Call
  item_reconciled : ReconciliationInput → Call

abbrev pub is_create : Call → Bool
is_create (item_reconciled i) = false
is_create _ = true

abbrev kind_of : Option Failure → FailureKind
kind_of none = malformed
kind_of (some f) = if is_valid f.kind then f.kind else unclassified

-- `classifyTickTickError` and `classifyDeepSeekError`, which are the same function.
unfoldable pub classify_error : Cause → FailureKind
unfolding failure_of
classify_error e = kind_of (failure_of e)
