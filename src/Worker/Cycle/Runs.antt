-- ===== src/Worker/Cycle/Runs.antt =====
-- A worker of worker.go refines the queue's step relation: what it does to the store is a run.
use index_01_hook.Base.{
  ℕ, ◌≡◌, refl, Bool, true, false, Option, none, some, List, [], ◌∷◌, ◌||◌, leb, ◌+◌,
}
use index_01_hook.Base.Text.{Text, is_blank, trim_space}
use index_01_hook.Application.Item.{ItemKind, task, note, other}
use index_01_hook.Application.Failure.{FailureKind}
use index_01_hook.Queue.Types.{Outcome, Workflow, Store, ExtractionClaim, DeliveryClaim}
use index_01_hook.Queue.Schema.{Result, ok, err, is_ambiguous}
use index_01_hook.Queue.Extraction.{claim_extraction}
use index_01_hook.Queue.Delivery.{claim_delivery}
use index_01_hook.Queue.Step.{
  Steps, start, then_step, claims_extraction, claims_delivery, completes_delivery, retries_delivery,
  retries_reconciliation, blocks_delivery_at,
}
use index_01_hook.Health.{HealthResult, recorded, refused, worker_started}
use index_01_hook.Worker.{WorkerConfig}
use index_01_hook.Worker.Provider.{
  Answer, answered, failed, Created, Reconciliation, ReconciliationStatus, confirmed, unconfirmed,
  doubtful, unlisted, DeliveryProvider, classify_error,
}
use index_01_hook.Worker.Delivery.{
  Clock, block, complete, process_delivery, process_kind, handle_delivery_error,
  handle_reconciliation_error, retry_reconciliation, reconciled_as, after_reconciliation,
  after_create, reconcile_delivery,
}
use index_01_hook.Worker.Cycle.{
  CycleInput, System, deliver, extract_or_deliver, cycle, run_once, run_cycles, run_started, run,
}
use index_01_hook.Worker.Cycle.Refines.{
  IsStep, Steps-trans, kept-Steps, if-IsStep, extraction_left-Steps,
}

module _ (fold : ℕ → ℕ) (config : WorkerConfig) (clock : Clock) (claim : DeliveryClaim)
    (s : Store) where
  block-IsStep : (c : Outcome) (w : Workflow) → IsStep fold s (block config clock claim s c w)
  block-IsStep c w t e = blocks_delivery_at clock.later clock.now _ _ c w e

  complete-IsStep :
      (c : Outcome) (task_id project_id : Text)
      → IsStep fold s (complete config clock claim s c task_id project_id)
  complete-IsStep c task_id project_id t e = completes_delivery clock.now _ e

  handle_delivery_error-IsStep :
      (kind : FailureKind) → IsStep fold s (handle_delivery_error config clock claim s kind)
  unfolding handle_delivery_error
  handle_delivery_error-IsStep FailureKind.authentication = block-IsStep _ _
  handle_delivery_error-IsStep FailureKind.configuration = block-IsStep _ _
  handle_delivery_error-IsStep FailureKind.malformed = block-IsStep _ _
  handle_delivery_error-IsStep FailureKind.ambiguous_write =
      λ t e. retries_delivery clock.now _ _ _ _ e
  handle_delivery_error-IsStep FailureKind.retryable =
      if-IsStep fold s (leb config.delivery_max_attempts claim.cycle_attempt_number) _ _
        (block-IsStep _ _) (λ t e. retries_delivery clock.now _ _ _ _ e)
  handle_delivery_error-IsStep FailureKind.review_required = block-IsStep _ _
  handle_delivery_error-IsStep FailureKind.terminal = block-IsStep _ _
  handle_delivery_error-IsStep FailureKind.unclassified = block-IsStep _ _

  retry_reconciliation-IsStep : IsStep fold s (retry_reconciliation config clock claim s)
  retry_reconciliation-IsStep =
      if-IsStep fold s (leb config.reconcile_max_attempts (claim.reconcile_attempt_count + 1)) _ _
        (block-IsStep _ _) (λ t e. retries_reconciliation clock.now _ _ _ e)

  handle_reconciliation_error-IsStep :
      (kind : FailureKind) → IsStep fold s (handle_reconciliation_error config clock claim s kind)
  unfolding handle_reconciliation_error
  handle_reconciliation_error-IsStep FailureKind.authentication = block-IsStep _ _
  handle_reconciliation_error-IsStep FailureKind.configuration = block-IsStep _ _
  handle_reconciliation_error-IsStep FailureKind.malformed = block-IsStep _ _
  handle_reconciliation_error-IsStep FailureKind.ambiguous_write = retry_reconciliation-IsStep
  handle_reconciliation_error-IsStep FailureKind.retryable = retry_reconciliation-IsStep
  handle_reconciliation_error-IsStep FailureKind.review_required = block-IsStep _ _
  handle_reconciliation_error-IsStep FailureKind.terminal = block-IsStep _ _
  handle_reconciliation_error-IsStep FailureKind.unclassified = block-IsStep _ _

  reconciled_as-IsStep :
      (r : Reconciliation) (status : ReconciliationStatus)
      → IsStep fold s (reconciled_as config clock claim s r status)
  unfolding reconciled_as
  reconciled_as-IsStep r confirmed =
      if-IsStep fold s (is_blank (trim_space r.task_id) || is_blank (trim_space r.project_id)) _ _
        (block-IsStep _ _) (complete-IsStep _ _ _)
  reconciled_as-IsStep r doubtful = block-IsStep _ _
  reconciled_as-IsStep r unconfirmed = block-IsStep _ _
  reconciled_as-IsStep r unlisted = block-IsStep _ _

  after_reconciliation-IsStep :
      (a : Answer Reconciliation) → IsStep fold s (after_reconciliation config clock claim s a)
  unfolding after_reconciliation
  after_reconciliation-IsStep (answered r) = reconciled_as-IsStep r r.status
  after_reconciliation-IsStep (failed e) = handle_reconciliation_error-IsStep (classify_error e)

  after_create-IsStep : (a : Answer Created) → IsStep fold s (after_create config clock claim s a)
  unfolding after_create
  after_create-IsStep (answered c) = complete-IsStep _ _ _
  after_create-IsStep (failed e) = handle_delivery_error-IsStep (classify_error e)

  process_delivery-IsStep :
      (provider : DeliveryProvider)
      → IsStep fold s (process_delivery config clock claim s provider).1
  unfolding process_delivery reconcile_delivery
  process_delivery-IsStep provider =
      by_kind claim.kind (claim.recovered_lease || is_ambiguous claim.last_classification)
    where
      by_kind :
          (kind : ItemKind) (in_doubt : Bool)
          → IsStep fold s (process_kind config clock claim s provider kind in_doubt).1
      by_kind other in_doubt = block-IsStep _ _
      by_kind task true = after_reconciliation-IsStep _
      by_kind note true = after_reconciliation-IsStep _
      by_kind task false = after_create-IsStep _
      by_kind note false = after_create-IsStep _

module _ (fold : ℕ → ℕ) (config : WorkerConfig) (input : CycleInput) (s : Store) where
  deliver-Steps :
      (r : Result (Store × Option DeliveryClaim))
      → claim_delivery s input.delivery_claimed_at config.owner config.lease_duration ≡ r
      → Steps fold s (deliver fold config input s r).store
  deliver-Steps (err e) h = start
  deliver-Steps (ok (t, none)) h = then_step s t start (claims_delivery _ _ _ none h)
  deliver-Steps (ok (t, some claim)) h =
      Steps-trans fold s t _ (then_step s t start (claims_delivery _ _ _ (some claim) h)) (
        kept-Steps fold t _
          (process_delivery-IsStep fold config input.clock claim t input.delivery))

module _ (fold : ℕ → ℕ) (config : WorkerConfig) (input : CycleInput) (s : Store) where
  extract_or_deliver-Steps :
      (r : Result (Store × Option ExtractionClaim))
      → claim_extraction s input.extraction_claimed_at config.owner config.lease_duration ≡ r
      → Steps fold s (extract_or_deliver fold config input s r).store
  extract_or_deliver-Steps (err e) h = start
  extract_or_deliver-Steps (ok (t, none)) h =
      Steps-trans fold s t _ (then_step s t start (claims_extraction _ _ _ none h))
        (deliver-Steps fold config input t _ refl)
  extract_or_deliver-Steps (ok (t, some claim)) h =
      Steps-trans fold s t _ (then_step s t start (claims_extraction _ _ _ (some claim) h)) (
        extraction_left-Steps fold config input.clock input.after_verification claim t
          input.extraction)

  cycle-Steps : Steps fold s (cycle fold config input s).store
  unfolding cycle
  cycle-Steps = extract_or_deliver-Steps _ refl

run_once-Steps :
    (fold : ℕ → ℕ) (config : WorkerConfig) (input : CycleInput) (sys : System)
    → Steps fold sys.queue (run_once fold config input sys).queue
unfolding run_once
run_once-Steps fold config input sys = cycle-Steps fold config input sys.queue

run_cycles-Steps :
    (fold : ℕ → ℕ) (config : WorkerConfig) (inputs : List CycleInput) (sys : System)
    → Steps fold sys.queue (run_cycles fold config inputs sys).queue
unfolding run_cycles
run_cycles-Steps fold config [] sys = start
run_cycles-Steps fold config (input ∷ inputs) sys =
    Steps-trans fold sys.queue (run_once fold config input sys).queue _
      (run_once-Steps fold config input sys)
      (run_cycles-Steps fold config inputs (run_once fold config input sys))

run_started-Steps :
    (fold : ℕ → ℕ) (config : WorkerConfig) (stopped_at : ℕ) (inputs : List CycleInput)
    (sys : System) (r : HealthResult)
    → Steps fold sys.queue (run_started fold config stopped_at inputs sys r).queue
run_started-Steps fold config stopped_at inputs sys (refused e) = start
run_started-Steps fold config stopped_at inputs sys (recorded row) =
    run_cycles-Steps fold config inputs (record sys { health = some row })

-- Whatever the configuration, clock and providers of a worker that has no shadow verifier, and
-- wherever its cycles fail, what Run does to the store over any number of cycles is a run of the
-- queue's steps.
pub run-Steps :
    (fold : ℕ → ℕ) (config : WorkerConfig) (started_at stopped_at : ℕ) (inputs : List CycleInput)
    (sys : System)
    → Steps fold sys.queue (run fold config started_at stopped_at inputs sys).queue
unfolding run
run-Steps fold config started_at stopped_at inputs sys =
    run_started-Steps fold config stopped_at inputs sys
      (worker_started sys.health started_at config.owner)
