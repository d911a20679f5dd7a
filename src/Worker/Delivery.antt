-- ===== src/Worker/Delivery.antt =====
-- processDelivery of worker.go and what it calls.
pub mod Laws
use index_01_hook.Base.{
  ℕ, ◌+◌, Bool, true, false, ◌||◌, Option, none, some, List, [], ◌∷◌, leb, if◌then◌else◌,
}
use index_01_hook.Base.Text.{Text, is_blank, trim_space}
use index_01_hook.Application.Item.{ItemKind, task, note, other}
use index_01_hook.Application.Failure.{FailureKind, Cause}
use index_01_hook.Queue.Types.{
  Outcome, authentication, configuration, retryable, malformed, ambiguous, review, created,
  reconciled, Workflow, blocked_auth, needs_review, dead_letter, Store, DeliveryClaim,
  DeliveryCompletion,
}
use index_01_hook.Queue.Schema.{Result, is_ambiguous}
use index_01_hook.Queue.Delivery.{
  block_delivery, retry_delivery, retry_delivery_reconciliation, complete_delivery,
}
use index_01_hook.Worker.{WorkerConfig}
use index_01_hook.Worker.Retry.{retry_at}
use index_01_hook.Worker.Provider.{
  Answer, answered, failed, TaskInput, NoteInput, ReconciliationInput, Created, Reconciliation,
  ReconciliationStatus, confirmed, unconfirmed, doubtful, unlisted, DeliveryProvider, Call,
  task_created, note_created, item_reconciled, classify_error,
}

-- The readings of the clock: for the next attempt, for the transaction, and in its arguments.
pub record Clock : Type 0 where
  pub retry_now : ℕ
  pub now : ℕ
  pub later : ℕ

module _ (config : WorkerConfig) (clock : Clock) (claim : DeliveryClaim) (s : Store) where
  abbrev pub block : Outcome → Workflow → Result Store
  block c workflow = block_delivery s clock.later clock.now claim.id config.owner c workflow

  abbrev pub complete : Outcome → Text → Text → Result Store
  complete c task_id project_id = complete_delivery s clock.now (record {
    task_id = claim.id;
    lease_owner = config.owner;
    classification = c;
    tick_tick_task_id = task_id;
    tick_tick_project_id = project_id;
  })

  abbrev pub retry_ambiguous : Result Store
  retry_ambiguous =
      retry_delivery s clock.now claim.id config.owner ambiguous
        (retry_at config clock.retry_now claim.cycle_attempt_number)

  unfoldable pub handle_delivery_error : FailureKind → Result Store
  handle_delivery_error FailureKind.authentication = block authentication blocked_auth
  handle_delivery_error FailureKind.configuration = block configuration needs_review
  handle_delivery_error FailureKind.malformed = block malformed dead_letter
  handle_delivery_error FailureKind.ambiguous_write = retry_ambiguous
  handle_delivery_error FailureKind.retryable =
      if leb config.delivery_max_attempts claim.cycle_attempt_number
      then block retryable dead_letter
      else retry_delivery s clock.now claim.id config.owner retryable
          (retry_at config clock.retry_now claim.cycle_attempt_number)
  handle_delivery_error _ = block malformed dead_letter

  abbrev pub retry_reconciliation : Result Store
  retry_reconciliation =
      if leb config.reconcile_max_attempts (claim.reconcile_attempt_count + 1)
      then block ambiguous needs_review
      else retry_delivery_reconciliation s clock.now claim.id config.owner
          (retry_at config clock.retry_now (claim.reconcile_attempt_count + 1))

  unfoldable pub handle_reconciliation_error : FailureKind → Result Store
  handle_reconciliation_error FailureKind.authentication = block ambiguous blocked_auth
  handle_reconciliation_error FailureKind.configuration = block ambiguous needs_review
  handle_reconciliation_error FailureKind.malformed = block ambiguous needs_review
  handle_reconciliation_error FailureKind.retryable = retry_reconciliation
  handle_reconciliation_error FailureKind.ambiguous_write = retry_reconciliation
  handle_reconciliation_error _ = block review needs_review

  unfoldable pub reconciled_as : Reconciliation → ReconciliationStatus → Result Store
  unfolding trim_space
  reconciled_as r confirmed =
      if is_blank (trim_space r.task_id) || is_blank (trim_space r.project_id)
      then block ambiguous needs_review
      else complete reconciled r.task_id r.project_id
  reconciled_as r doubtful = block ambiguous needs_review
  reconciled_as r unconfirmed = block ambiguous needs_review
  reconciled_as r unlisted = block malformed dead_letter

  unfoldable pub after_reconciliation : Answer Reconciliation → Result Store
  unfolding handle_reconciliation_error reconciled_as classify_error
  after_reconciliation (answered r) = reconciled_as r r.status
  after_reconciliation (failed e) = handle_reconciliation_error (classify_error e)

  unfoldable pub after_create : Answer Created → Result Store
  unfolding handle_delivery_error classify_error
  after_create (answered c) = complete created c.id c.project_id
  after_create (failed e) = handle_delivery_error (classify_error e)

  abbrev pub reconciliation_input : ReconciliationInput
  reconciliation_input = record {
    kind = claim.kind;
    project_alias = claim.project_alias;
    marker = claim.marker;
    title = claim.title;
    content = claim.notes;
  }

  abbrev pub task_input : TaskInput
  task_input = record {
    title = claim.title;
    content = claim.notes;
    recording_hash = claim.recording_hash;
    task_index = claim.task_index;
    priority = claim.priority;
    tags = claim.tags;
    due = claim.due;
    all_day = claim.all_day;
    time_zone = config.time_zone;
  }

  abbrev pub note_input : NoteInput
  note_input = record {
    title = claim.title;
    content = claim.notes;
    recording_hash = claim.recording_hash;
    task_index = claim.task_index;
  }

  module _ (provider : DeliveryProvider) where
    -- `reconcileDelivery`: one call, and never a create.
    unfoldable pub reconcile_delivery : List Call × Result Store
    reconcile_delivery = (
      item_reconciled reconciliation_input ∷ [],
      after_reconciliation (provider.reconcile_item reconciliation_input),
    )

    abbrev pub process_kind : ItemKind → Bool → List Call × Result Store
    process_kind other in_doubt = ([], block malformed dead_letter)
    process_kind task true = reconcile_delivery
    process_kind note true = reconcile_delivery
    process_kind task false = (
      task_created claim.project_alias task_input ∷ [],
      after_create (provider.create_task claim.project_alias task_input),
    )
    process_kind note false =
        (note_created note_input ∷ [], after_create (provider.create_note note_input))

    -- `processDelivery`, with the calls that it makes.
    unfoldable pub process_delivery : List Call × Result Store
    process_delivery =
        process_kind claim.kind (claim.recovered_lease || is_ambiguous claim.last_classification)
