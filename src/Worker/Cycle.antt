-- ===== src/Worker/Cycle.antt =====
-- RunOnce and Run of worker.go: one claim and its processing, between the two entries in the health
-- row, for a worker that has no shadow verifier. What a failed processing has committed stays.
pub mod Refines
pub mod Runs
pub mod Idle
use index_01_hook.Base.{
  ℕ, suc, ◌+◌, Bool, true, false, Option, none, some, List, [], ◌∷◌, ◌++◌, map, if◌then◌else◌, not,
  ◌&&◌,
}
use index_01_hook.Base.Int.{ℤ}
use index_01_hook.Base.Text.{Text}
use index_01_hook.Application.Item.{Item}
use index_01_hook.Queue.Types.{
  retryable, review, Store, ExtractionClaim, DeliveryClaim, FrozenExtraction, Evidence,
}
use index_01_hook.Queue.Schema.{Result, ok, err}
use index_01_hook.Queue.Extraction.{claim_extraction, save_extraction_verification}
use index_01_hook.Queue.Delivery.{claim_delivery}
use index_01_hook.Health.{
  Provider, deepseek, ticktick, typesafe, WorkerHealth, HealthResult, recorded, refused,
  worker_started, worker_cycle_started, worker_cycle_completed, worker_stopped,
  record_provider_latency,
}
use index_01_hook.Worker.{WorkerConfig}
use index_01_hook.Worker.Provider.{
  Answer, answered, failed, DeliveryProvider, Call, task_created, note_created, item_reconciled,
}
use index_01_hook.Worker.Verifier.{
  Check, checked, check_failed, classify_type_safe_error, is_retryable, Verdict,
  ExtractionProviders,
}
use index_01_hook.Worker.Delivery.{Clock, process_delivery}
use index_01_hook.Worker.Extraction.{
  Verified, verified, stopped, verify_items, no_item, send_to_review, try_again, exhausted,
  handle_extraction_error, handle_verification_error, freeze, decide, process_extraction,
}
use index_01_hook.Worker.Provider.{classify_error}

-- The store after a transaction.
abbrev pub kept : Store → Result Store → Store
kept s (ok t) = t
kept s (err e) = s

-- The store after a transaction and, where it commits, a second one.
abbrev pub kept_then : Store → Result Store → (Store → Result Store) → Store
kept_then s (ok t) next = kept t (next t)
kept_then s (err e) next = s

abbrev pub is_err {ℓ} : {A : Type ℓ} → Result A → Bool
is_err (ok a) = false
is_err (err e) = true

-- What processExtraction leaves in the store, also where it fails.
module _ (fold : ℕ → ℕ) (config : WorkerConfig) (clock after : Clock) (claim : ExtractionClaim)
    (s : Store) where
  abbrev pub verification_left : FrozenExtraction → Verified → Store
  verification_left x (stopped kind) = kept s (handle_verification_error config clock claim s kind)
  verification_left x (verified items evidence doubtful) =
      kept_then s
        (save_extraction_verification s clock.now claim.recording_id config.owner
          claim.attempt_number evidence)
        (decide fold config after claim x items evidence doubtful)

  abbrev pub verifier_left :
      FrozenExtraction → Option (Text → Item → List Text → Check Verdict) → Store
  verifier_left x none = kept s (freeze fold config clock claim s x)
  verifier_left x (some verify) =
      if no_item x.items
      then kept s (freeze fold config clock claim s x)
      else verification_left x
          (verify_items (λ item. verify claim.transcription item config.project_aliases) x.items)

  abbrev pub extract_left : ExtractionProviders → Answer FrozenExtraction → Store
  extract_left providers (answered x) = verifier_left x providers.verifier
  extract_left providers (failed e) =
      kept s (handle_extraction_error config clock claim s (classify_error e))

  abbrev pub screen_left : ExtractionProviders → Check Bool → Store
  screen_left providers (check_failed kind) =
      if is_retryable (classify_type_safe_error kind) && not (exhausted config clock claim)
      then kept s (try_again config clock claim s)
      else kept s (send_to_review config clock claim s review)
  screen_left providers (checked injected) =
      if injected
      then kept s (send_to_review config clock claim s review)
      else extract_left providers (providers.extract claim.transcription config.project_aliases)

  unfoldable pub extraction_left : ExtractionProviders → Store
  unfolding verify_items handle_extraction_error handle_verification_error classify_error
  extraction_left providers = elim providers.screener [
    | none ↦ extract_left providers (providers.extract claim.transcription config.project_aliases)
    | some screen ↦ screen_left providers (screen claim.transcription)
  ]

-- A latency that is recorded: of which provider, and whether its call failed.
abbrev pub Observation : Type 0
Observation = Provider × Bool

abbrev pub check_fails {ℓ} : {A : Type ℓ} → Check A → Bool
check_fails (checked a) = false
check_fails (check_failed kind) = true

abbrev pub answer_fails {ℓ} : {A : Type ℓ} → Answer A → Bool
answer_fails (answered a) = false
answer_fails (failed e) = true

-- The loop over the items stops at the first failure.
unfoldable pub verify_observations : (Item → Check Verdict) → List Item → List Observation
verify_observations verify [] = []
verify_observations verify (item ∷ items) =
    let rest = verify_observations verify items in
    (typesafe, check_fails (verify item)) ∷ (if check_fails (verify item) then [] else rest)

abbrev pub verifier_observations :
    List Text
    → Text
    → FrozenExtraction
    → Option (Text → Item → List Text → Check Verdict)
    → List Observation
verifier_observations aliases transcription x none = []
verifier_observations aliases transcription x (some verify) =
    verify_observations (λ item. verify transcription item aliases) x.items

abbrev pub extract_observations :
    List Text → Text → ExtractionProviders → Answer FrozenExtraction → List Observation
extract_observations aliases transcription providers (failed e) = (deepseek, true) ∷ []
extract_observations aliases transcription providers (answered x) =
    (deepseek, false) ∷ verifier_observations aliases transcription x providers.verifier

abbrev pub screen_observations :
    List Text → Text → ExtractionProviders → Check Bool → List Observation
screen_observations aliases transcription providers (check_failed kind) = (typesafe, true) ∷ []
screen_observations aliases transcription providers (checked true) = (typesafe, false) ∷ []
screen_observations aliases transcription providers (checked false) =
    (typesafe, false)
    ∷ extract_observations aliases transcription providers (providers.extract transcription aliases)

-- The latencies that processExtraction records, in order.
unfoldable pub extraction_observations : List Text → Text → ExtractionProviders → List Observation
unfolding verify_observations
extraction_observations aliases transcription providers = elim providers.screener [
  | none ↦
      extract_observations aliases transcription providers (providers.extract transcription aliases)
  | some screen ↦ screen_observations aliases transcription providers (screen transcription)
]

abbrev pub call_fails : DeliveryProvider → Call → Bool
call_fails provider (task_created project_alias input) =
    answer_fails (provider.create_task project_alias input)
call_fails provider (note_created input) = answer_fails (provider.create_note input)
call_fails provider (item_reconciled input) = answer_fails (provider.reconcile_item input)

abbrev pub delivery_observations : DeliveryProvider → List Call → List Observation
delivery_observations provider calls = map (λ c. (ticktick, call_fails provider c)) calls

-- What the environment gives to one cycle: the readings of the clock, the answers, and how long
-- each call took and when that was recorded.
pub record CycleInput : Type 0 where
  pub started_at : ℕ
  pub extraction_claimed_at : ℕ
  pub delivery_claimed_at : ℕ
  pub clock : Clock
  -- the readings once a verification is saved
  pub after_verification : Clock
  pub completed_at : ℕ
  pub took : ℕ → ℤ
  pub recorded_at : ℕ → ℕ
  pub extraction : ExtractionProviders
  pub delivery : DeliveryProvider

pub record System : Type 0 where
  pub queue : Store
  pub health : Option WorkerHealth

-- What a cycle did: whether there was work, whether it failed, the store, and the latencies.
pub record Cycle : Type 0 where
  pub worked : Bool
  pub cycle_failed : Bool
  pub store : Store
  pub observations : List Observation

-- A failed update of the health row is logged, and leaves the row.
abbrev pub keep_row : Option WorkerHealth → HealthResult → Option WorkerHealth
keep_row h (recorded row) = some row
keep_row h (refused e) = h

module _ (fold : ℕ → ℕ) (config : WorkerConfig) (input : CycleInput) where
  abbrev pub deliver : Store → Result (Store × Option DeliveryClaim) → Cycle
  deliver s (err e) = record { worked = false; cycle_failed = true; store = s; observations = [] }
  deliver s (ok (t, none)) = record {
    worked = false;
    cycle_failed = false;
    store = t;
    observations = [];
  }
  deliver s (ok (t, some claim)) =
      let processed = process_delivery config input.clock claim t input.delivery in
      record {
        worked = true;
        cycle_failed = is_err processed.1;
        store = kept t processed.1;
        observations = delivery_observations input.delivery processed.0;
      }

  abbrev pub extract_or_deliver : Store → Result (Store × Option ExtractionClaim) → Cycle
  extract_or_deliver s (err e) = record {
    worked = false;
    cycle_failed = true;
    store = s;
    observations = [];
  }
  extract_or_deliver s (ok (t, none)) =
      deliver t (claim_delivery t input.delivery_claimed_at config.owner config.lease_duration)
  extract_or_deliver s (ok (t, some claim)) = record {
    worked = true;
    cycle_failed = is_err (
        process_extraction fold config input.clock input.after_verification claim t
          input.extraction);
    store =
        extraction_left fold config input.clock input.after_verification claim t input.extraction;
    observations =
        extraction_observations config.project_aliases claim.transcription input.extraction;
  }

  unfoldable pub cycle : Store → Cycle
  unfolding process_delivery process_extraction extraction_left extraction_observations
      claim_extraction claim_delivery
  cycle s =
      extract_or_deliver s
        (claim_extraction s input.extraction_claimed_at config.owner config.lease_duration)

  -- `recordProviderLatency` for each call, the n-th first.
  unfoldable pub record_latencies : ℕ → List Observation → Option WorkerHealth → Option WorkerHealth
  unfolding record_provider_latency
  record_latencies n [] h = h
  record_latencies n ((provider, fails) ∷ rest) h = record_latencies (suc n) rest (
      keep_row h (
        record_provider_latency h (input.recorded_at n) config.owner provider (input.took n) fails))

  -- `RunOnce`, without the result that it returns.
  unfoldable pub run_once : System → System
  unfolding cycle record_latencies worker_cycle_started worker_cycle_completed
  run_once sys =
      let started =
        keep_row sys.health (worker_cycle_started sys.health input.started_at config.owner) in
      let c = cycle sys.queue in
      let observed = record_latencies 0 c.observations started in
      record {
        queue = c.store;
        health =
            keep_row observed
              (worker_cycle_completed observed input.completed_at config.owner c.cycle_failed);
      }

-- The loop of `Run` until the context ends: the cycles that it gets to.
unfoldable pub run_cycles : (ℕ → ℕ) → WorkerConfig → List CycleInput → System → System
unfolding run_once
run_cycles fold config [] sys = sys
run_cycles fold config (input ∷ inputs) sys =
    run_cycles fold config inputs (run_once fold config input sys)

abbrev pub run_started :
    (ℕ → ℕ) → WorkerConfig → ℕ → List CycleInput → System → HealthResult → System
run_started fold config stopped_at inputs sys (refused e) = sys
run_started fold config stopped_at inputs sys (recorded row) =
    let last = run_cycles fold config inputs (record sys { health = some row }) in
    record last {
      health = keep_row last.health (worker_stopped last.health stopped_at config.owner);
    }

-- `Run`, of a context that has not ended: it starts the health row or fails, and stops the row when
-- it ends.
unfoldable pub run : (ℕ → ℕ) → WorkerConfig → ℕ → ℕ → List CycleInput → System → System
unfolding run_cycles worker_started worker_stopped
run fold config started_at stopped_at inputs sys =
    run_started fold config stopped_at inputs sys
      (worker_started sys.health started_at config.owner)
