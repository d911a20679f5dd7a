-- ===== src/Worker/Extraction.antt =====
-- processExtraction of worker.go, for a worker that has no shadow verifier.
pub mod Laws
use index_01_hook.Base.{
  ℕ, Bool, true, false, not, ◌&&◌, ◌||◌, Option, none, some, List, [], ◌∷◌, ◌++◌, leb, ltb,
  if◌then◌else◌,
}
use index_01_hook.Base.Text.{Text}
use index_01_hook.Application.Item.{Item}
use index_01_hook.Application.Failure.{FailureKind, Cause}
use index_01_hook.Queue.Types.{
  Outcome, authentication, retryable, malformed, review, Workflow, blocked_auth, needs_review,
  dead_letter, Store, ExtractionClaim, FrozenExtraction, Evidence,
}
use index_01_hook.Queue.Schema.{Result, ok, ◌>>=◌}
use index_01_hook.Queue.Extraction.{
  retry_extraction, review_extraction, block_extraction, save_extraction_verification,
  complete_rejected_extraction,
}
use index_01_hook.Queue.Freeze.{freeze_extraction}
use index_01_hook.Worker.{WorkerConfig}
use index_01_hook.Worker.Retry.{retry_at}
use index_01_hook.Worker.Provider.{Answer, answered, failed, classify_error}
use index_01_hook.Worker.Delivery.{Clock}
use index_01_hook.Worker.Verifier.{
  TypeSafeErrorKind, Check, checked, check_failed, classify_type_safe_error, is_retryable,
  VerificationDecision, accept, doubt, reject, undecided, Verdict, ExtractionProviders,
}

-- The loop over the items: what was accepted, the evidence, and whether an item needs review; or
-- the error at which it stopped.
pub data Verified : Type 0 where
  verified : List Item → List Evidence → Bool → Verified
  stopped : TypeSafeErrorKind → Verified

abbrev pub accepted_item : VerificationDecision → Item → List Item
accepted_item accept item = item ∷ []
accepted_item _ item = []

abbrev pub asks_review : VerificationDecision → Bool
asks_review doubt = true
asks_review undecided = true
asks_review _ = false

abbrev pub verified_first : Check Verdict → Verified → Verified
verified_first (check_failed kind) rest = stopped (classify_type_safe_error kind)
verified_first (checked v) (stopped kind) = stopped kind
verified_first (checked v) (verified items evidence doubtful) =
    verified (accepted_item v.decision v.item ++ items) (v.evidence ∷ evidence)
      (asks_review v.decision || doubtful)

unfoldable pub verify_items : (Item → Check Verdict) → List Item → Verified
verify_items verify [] = verified [] [] false
verify_items verify (item ∷ items) = verified_first (verify item) (verify_items verify items)

abbrev pub no_item : List Item → Bool
no_item [] = true
no_item (i ∷ is) = false

module _ (config : WorkerConfig) (clock : Clock) (claim : ExtractionClaim) where
  abbrev pub block : Store → Outcome → Workflow → Result Store
  block s c workflow =
      block_extraction s clock.later clock.now claim.recording_id config.owner claim.attempt_number
        c workflow

  abbrev pub send_to_review : Store → Outcome → Result Store
  send_to_review s c =
      review_extraction s clock.later clock.now claim.recording_id config.owner claim.attempt_number
        c

  abbrev pub try_again : Store → Result Store
  try_again s =
      retry_extraction s clock.now claim.recording_id config.owner claim.attempt_number retryable
        (retry_at config clock.retry_now claim.cycle_attempt_number)

  -- The attempts of this cycle are used up.
  abbrev pub exhausted : Bool
  exhausted = leb config.extraction_max_attempts claim.cycle_attempt_number

  unfoldable pub handle_extraction_error : Store → FailureKind → Result Store
  handle_extraction_error s FailureKind.authentication = block s authentication blocked_auth
  handle_extraction_error s FailureKind.review_required = block s review needs_review
  handle_extraction_error s FailureKind.malformed = block s malformed dead_letter
  handle_extraction_error s FailureKind.terminal = block s malformed dead_letter
  handle_extraction_error s FailureKind.retryable =
      if exhausted then block s retryable dead_letter else try_again s
  handle_extraction_error s _ = block s malformed dead_letter

  -- A verification that failed with a retryable error, or with another.
  unfoldable pub handle_verification_error : Store → TypeSafeErrorKind → Result Store
  handle_verification_error s kind =
      if is_retryable kind
      then (if exhausted then send_to_review s retryable else try_again s)
      else send_to_review s review

module _ (fold : ℕ → ℕ) (config : WorkerConfig) (clock : Clock) (claim : ExtractionClaim) where
  abbrev pub freeze : Store → FrozenExtraction → Result Store
  freeze s x =
      freeze_extraction fold s clock.now claim.recording_id config.owner claim.attempt_number x

  abbrev pub decide : FrozenExtraction → List Item → List Evidence → Bool → Store → Result Store
  decide x items evidence doubtful s =
      if doubtful
      then send_to_review config clock claim s review
      else if no_item items
      then complete_rejected_extraction s clock.now claim.recording_id config.owner
          claim.attempt_number
      else freeze s (record x { items = items; verifications = evidence })

-- `after` has the readings of the clock once the verification is saved.
module _ (fold : ℕ → ℕ) (config : WorkerConfig) (clock after : Clock)
    (claim : ExtractionClaim) where
  unfoldable pub after_verification : Store → FrozenExtraction → Verified → Result Store
  unfolding handle_verification_error
  after_verification s x (stopped kind) = handle_verification_error config clock claim s kind
  after_verification s x (verified items evidence doubtful) =
      save_extraction_verification s clock.now claim.recording_id config.owner claim.attempt_number
        evidence
      >>= decide fold config after claim x items evidence doubtful

  unfoldable pub verify_extraction :
      Store → FrozenExtraction → Option (Text → Item → List Text → Check Verdict) → Result Store
  unfolding verify_items after_verification
  verify_extraction s x none = freeze fold config clock claim s x
  verify_extraction s x (some verify) =
      if no_item x.items
      then freeze fold config clock claim s x
      else after_verification s x
          (verify_items (λ item. verify claim.transcription item config.project_aliases) x.items)

  unfoldable pub after_extract :
      Store → ExtractionProviders → Answer FrozenExtraction → Result Store
  unfolding handle_extraction_error verify_extraction classify_error
  after_extract s providers (answered x) = verify_extraction s x providers.verifier
  after_extract s providers (failed e) =
      handle_extraction_error config clock claim s (classify_error e)

  abbrev pub extract : Store → ExtractionProviders → Result Store
  extract s providers =
      after_extract s providers (providers.extract claim.transcription config.project_aliases)

  -- What the screen of the transcription says, where there is one.
  unfoldable pub screened : Store → ExtractionProviders → Check Bool → Result Store
  unfolding after_extract
  screened s providers (check_failed kind) =
      if is_retryable (classify_type_safe_error kind) && not (exhausted config clock claim)
      then try_again config clock claim s
      else send_to_review config clock claim s review
  screened s providers (checked injected) =
      if injected then send_to_review config clock claim s review else extract s providers

  -- `processExtraction`.
  unfoldable pub process_extraction : Store → ExtractionProviders → Result Store
  unfolding after_extract screened
  process_extraction s providers = elim providers.screener [
    | none ↦ extract s providers
    | some screen ↦ screened s providers (screen claim.transcription)
  ]
