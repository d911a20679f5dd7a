-- ===== src/Queue/Types.antt =====
-- The rows of the SQLite tables (migrations/*.sql) and the values that queue.go exchanges.
-- An instant is a number of nanoseconds; a column `…_ms` holds `UnixMilli` of one, and a text
-- column such as `updated_at` holds the instant that its RFC 3339 text stands for.
use index_01_hook.Base.{ℕ, ◌/◌, ◌*◌, Bool, Option, List, []}
use index_01_hook.Base.Int.{ℤ}
use index_01_hook.Base.Text.{Text}
use index_01_hook.Application.Item.{ItemKind, Item}
pub use index_01_hook.Base.Text.{Text}

-- `OutcomeClassification` is a string with nine valid values; `unknown` stands for every other.
pub data Outcome : Type 0 where
  success retryable authentication configuration malformed ambiguous review created : Outcome
  reconciled unknown : Outcome

-- The column `state` of both queues; only a recording's job is ever `frozen`.
pub data QueueState : Type 0 where
  pending leased retry frozen completed in_review : QueueState

-- The column `workflow_state` of both queues.
pub data Workflow : Type 0 where
  received extracting extracted creating retry_wait : Workflow
  blocked_auth needs_review dead_letter complete : Workflow

pub data Domain : Type 0 where
  extraction delivery : Domain

-- `lease_owner` and `lease_expires_at_ms`: a CHECK of both tables makes them NULL together.
pub record Lease : Type 0 where
  pub owner : Text
  pub expires_at_ms : ℕ

pub record Recording : Type 0 where
  pub id : ℕ
  pub recorded_at_ms : ℤ
  pub client : Text
  pub trigger : Text
  pub transcription : Text
  pub audio_filename : Text
  pub audio_byte_count : ℕ
  pub payload_fingerprint : Text
  pub receive_count : ℕ
  pub first_received_at : ℕ
  pub last_received_at : ℕ
  pub evaluation_expires_at_ms : Option ℕ

-- `TypeSafeVerificationEvidence`, as the text that `json.Marshal` makes of it.
abbrev pub Evidence : Type 0
Evidence = Text

pub record ExtractionJob : Type 0 where
  pub recording_id : ℕ
  pub state : QueueState
  pub workflow_state : Workflow
  pub attempt_count : ℕ
  pub cycle_attempt_count : ℕ
  pub next_attempt_at_ms : ℕ
  pub lease : Option Lease
  pub last_classification : Option Outcome
  pub created_at : ℕ
  pub updated_at : ℕ
  pub completed_at : Option ℕ
  pub verification : Option (List Evidence)

pub record Extraction : Type 0 where
  pub recording_id : ℕ
  pub provider : Text
  pub model : Text
  pub provider_response_id : Text
  pub task_count : ℕ
  pub created_at : ℕ

-- A row of `extraction_attempts` or `delivery_attempts`; `of` is the job's or the task's id.
pub record Attempt : Type 0 where
  pub of : ℕ
  pub attempt_number : ℕ
  pub classification : Outcome
  pub created_at : ℕ

pub record DeliveryTask : Type 0 where
  pub id : ℕ
  pub recording_id : ℕ
  pub task_index : ℕ
  pub kind : ItemKind
  pub title : Text
  pub notes : Text
  -- `due_at` keeps whole seconds
  pub due_at : Option ℕ
  pub all_day : Bool
  pub priority : ℤ
  pub tags : List Text
  pub project_alias : Text
  pub marker : Text
  pub state : QueueState
  pub workflow_state : Workflow
  pub attempt_count : ℕ
  pub cycle_attempt_count : ℕ
  pub reconcile_attempt_count : ℕ
  pub next_attempt_at_ms : ℕ
  pub lease : Option Lease
  pub last_classification : Option Outcome
  pub tick_tick_task_id : Option Text
  pub tick_tick_project_id : Option Text
  pub created_at : ℕ
  pub updated_at : ℕ
  pub completed_at : Option ℕ

pub record QueuedTask : Type 0 where
  pub title : Text
  pub notes : Text
  pub due : Option ℕ
  pub all_day : Bool
  pub priority : ℤ
  pub tags : List Text
  pub project_alias : Text

pub record FrozenExtraction : Type 0 where
  pub provider : Text
  pub model : Text
  pub provider_response_id : Text
  pub verifications : List Evidence
  pub items : List Item
  pub tasks : List QueuedTask

-- `evaluation_evidence`; the encoded extraction is kept as the value that was encoded.
pub record EvaluationEvidence : Type 0 where
  pub recording_fingerprint : Text
  pub transcript : Text
  pub recorded_at_ms : ℤ
  pub captured_at_ms : ℕ
  pub expires_at_ms : ℕ
  pub extraction : Option FrozenExtraction

pub record EvaluationDelivery : Type 0 where
  pub recording_fingerprint : Text
  pub item_index : ℕ
  pub task_id : Text
  pub project_id : Text
  pub item_kind : ItemKind
  pub title : Text

-- `outcome` of a shadow verification: "queued", "completed" where a completed task has no
-- classification, or a classification.
pub data ShadowOutcome : Type 0 where
  shadow_queued shadow_completed : ShadowOutcome
  classified : Outcome → ShadowOutcome

-- `typesafe_shadow_verifications`, as far as the queue writes it.
pub record ShadowRow : Type 0 where
  pub recording_fingerprint : Text
  pub item_index : ℕ
  pub outcome : ShadowOutcome
  pub expires_at_ms : ℕ

-- `Store`: the tables, and the retention of evaluation evidence in nanoseconds (0 is off).
pub record Store : Type 0 where
  pub evaluation_retention : ℕ
  pub recordings : List Recording
  pub extraction_jobs : List ExtractionJob
  pub extractions : List Extraction
  pub extraction_attempts : List Attempt
  pub delivery_tasks : List DeliveryTask
  pub delivery_attempts : List Attempt
  pub evaluation_evidence : List EvaluationEvidence
  pub evaluation_deliveries : List EvaluationDelivery
  pub shadow_verifications : List ShadowRow

pub record ExtractionClaim : Type 0 where
  pub recording_id : ℕ
  pub recording_hash : Text
  pub transcription : Text
  pub attempt_number : ℕ
  pub cycle_attempt_number : ℕ

pub record DeliveryClaim : Type 0 where
  pub id : ℕ
  pub recording_id : ℕ
  pub recording_hash : Text
  pub task_index : ℕ
  pub kind : ItemKind
  pub title : Text
  pub notes : Text
  pub due : Option ℕ
  pub all_day : Bool
  pub priority : ℤ
  pub tags : List Text
  pub project_alias : Text
  pub marker : Text
  pub attempt_number : ℕ
  pub cycle_attempt_number : ℕ
  pub last_classification : Option Outcome
  pub reconcile_attempt_count : ℕ
  pub recovered_lease : Bool

pub record DeliveryCompletion : Type 0 where
  pub task_id : ℕ
  pub lease_owner : Text
  pub classification : Outcome
  pub tick_tick_task_id : Text
  pub tick_tick_project_id : Text

abbrev pub unix_milli : ℕ → ℕ
unix_milli instant = instant / 1_000_000

abbrev pub unix_seconds : ℕ → ℕ
unix_seconds instant = instant / 1_000_000_000

abbrev pub from_seconds : ℕ → ℕ
from_seconds s = s * 1_000_000_000

abbrev pub empty_store : Store
empty_store = record {
  evaluation_retention = 0;
  recordings = [];
  extraction_jobs = [];
  extractions = [];
  extraction_attempts = [];
  delivery_tasks = [];
  delivery_attempts = [];
  evaluation_evidence = [];
  evaluation_deliveries = [];
  shadow_verifications = [];
}
