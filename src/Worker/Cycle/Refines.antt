-- ===== src/Worker/Cycle/Refines.antt =====
-- What processExtraction of worker.go leaves in the store is a run of the queue's steps.
use index_01_hook.Base.{ℕ, ◌≡◌, refl, Bool, true, false, Option, none, some, List, if◌then◌else◌}
use index_01_hook.Base.Text.{Text}
use index_01_hook.Application.Item.{Item}
use index_01_hook.Application.Failure.{FailureKind}
use index_01_hook.Queue.Types.{
  Outcome, Workflow, retryable, Store, ExtractionClaim, FrozenExtraction, Evidence,
}
use index_01_hook.Queue.Schema.{Result, ok, err}
use index_01_hook.Queue.Step.{
  Step, Steps, start, then_step, verifies, freezes, rejects, retries_extraction, reviews_extraction,
  blocks_extraction_at,
}
use index_01_hook.Worker.{WorkerConfig}
use index_01_hook.Worker.Provider.{Answer, answered, failed, classify_error}
use index_01_hook.Worker.Verifier.{
  Check, checked, check_failed, TypeSafeErrorKind, is_retryable, Verdict, ExtractionProviders,
}
use index_01_hook.Worker.Delivery.{Clock}
use index_01_hook.Worker.Extraction as Extraction
use index_01_hook.Worker.Extraction.{
  Verified, verified, stopped, verify_items, no_item, send_to_review, try_again, exhausted,
  handle_extraction_error, handle_verification_error, freeze, decide, process_extraction,
}
use index_01_hook.Worker.Cycle.{
  kept, kept_then, verification_left, verifier_left, extract_left, screen_left, extraction_left,
}

module _ (fold : ℕ → ℕ) where
  pub Steps-trans : (s t u : Store) → Steps fold s t → Steps fold t u → Steps fold s u
  Steps-trans s t u a start = a
  Steps-trans s t u a (then_step v _ b step) = then_step v u (Steps-trans s t v a b) step

  -- A transaction that is a step where it commits.
  abbrev pub IsStep : Store → Result Store → Type 0
  IsStep s r = (t : Store) → r ≡ ok t → Step fold s t

  pub kept-Steps : (s : Store) (r : Result Store) → IsStep s r → Steps fold s (kept s r)
  kept-Steps s (ok t) step = then_step s t start (step t refl)
  kept-Steps s (err e) step = start

  kept_then-Steps :
      (s : Store) (r : Result Store) (next : Store → Result Store)
      → IsStep s r
      → ((t : Store) → IsStep t (next t))
      → Steps fold s (kept_then s r next)
  kept_then-Steps s (ok t) next step more =
      Steps-trans s t (kept t (next t)) (then_step s t start (step t refl))
        (kept-Steps t (next t) (more t))
  kept_then-Steps s (err e) next step more = start

  pub if-IsStep :
      (s : Store) (b : Bool) (x y : Result Store)
      → IsStep s x
      → IsStep s y
      → IsStep s (if b then x else y)
  if-IsStep s true x y a b = a
  if-IsStep s false x y a b = b

  pub if-Steps :
      (s : Store) (b : Bool) (x y : Store)
      → Steps fold s x
      → Steps fold s y
      → Steps fold s (if b then x else y)
  if-Steps s true x y a b = a
  if-Steps s false x y a b = b

  module _ (config : WorkerConfig) (clock : Clock) (claim : ExtractionClaim) where
    block-IsStep :
        (s : Store) (c : Outcome) (w : Workflow)
        → IsStep s (Extraction.block config clock claim s c w)
    block-IsStep s c w t e = blocks_extraction_at clock.later clock.now _ _ _ c w e

    send_to_review-IsStep :
        (s : Store) (c : Outcome) → IsStep s (send_to_review config clock claim s c)
    send_to_review-IsStep s c t e = reviews_extraction clock.later clock.now _ _ _ c e

    try_again-IsStep : (s : Store) → IsStep s (try_again config clock claim s)
    try_again-IsStep s t e = retries_extraction clock.now _ _ _ retryable _ e

    freeze-IsStep :
        (s : Store) (x : FrozenExtraction) → IsStep s (freeze fold config clock claim s x)
    freeze-IsStep s x t e = freezes clock.now _ _ _ x e

    handle_extraction_error-IsStep :
        (s : Store) (kind : FailureKind)
        → IsStep s (handle_extraction_error config clock claim s kind)
    unfolding handle_extraction_error
    handle_extraction_error-IsStep s FailureKind.authentication = block-IsStep s _ _
    handle_extraction_error-IsStep s FailureKind.review_required = block-IsStep s _ _
    handle_extraction_error-IsStep s FailureKind.malformed = block-IsStep s _ _
    handle_extraction_error-IsStep s FailureKind.terminal = block-IsStep s _ _
    handle_extraction_error-IsStep s FailureKind.retryable =
        if-IsStep s (exhausted config clock claim) _ _ (block-IsStep s _ _) (try_again-IsStep s)
    handle_extraction_error-IsStep s FailureKind.configuration = block-IsStep s _ _
    handle_extraction_error-IsStep s FailureKind.ambiguous_write = block-IsStep s _ _
    handle_extraction_error-IsStep s FailureKind.unclassified = block-IsStep s _ _

    handle_verification_error-IsStep :
        (s : Store) (kind : TypeSafeErrorKind)
        → IsStep s (handle_verification_error config clock claim s kind)
    unfolding handle_verification_error
    handle_verification_error-IsStep s kind =
        if-IsStep s (is_retryable kind) _ _
          (if-IsStep s (exhausted config clock claim) _ _ (send_to_review-IsStep s _)
            (try_again-IsStep s))
          (send_to_review-IsStep s _)

    decide-IsStep :
        (x : FrozenExtraction) (items : List Item) (evidence : List Evidence) (doubtful : Bool)
        (s : Store)
        → IsStep s (decide fold config clock claim x items evidence doubtful s)
    decide-IsStep x items evidence doubtful s =
        if-IsStep s doubtful _ _ (send_to_review-IsStep s _)
          (if-IsStep s (no_item items) _ _ (λ t e. rejects clock.now _ _ _ e) (freeze-IsStep s _))

  module _ (config : WorkerConfig) (clock after : Clock) (claim : ExtractionClaim) (s : Store) where
    verification_left-Steps :
        (x : FrozenExtraction) (v : Verified)
        → Steps fold s (verification_left fold config clock after claim s x v)
    verification_left-Steps x (stopped kind) =
        kept-Steps s _ (handle_verification_error-IsStep config clock claim s kind)
    verification_left-Steps x (verified items evidence doubtful) =
        kept_then-Steps s _ _ (λ t e. verifies clock.now _ _ _ evidence e)
          (decide-IsStep config after claim x items evidence doubtful)

    verifier_left-Steps :
        (x : FrozenExtraction) (verifier : Option (Text → Item → List Text → Check Verdict))
        → Steps fold s (verifier_left fold config clock after claim s x verifier)
    verifier_left-Steps x none = kept-Steps s _ (freeze-IsStep config clock claim s x)
    verifier_left-Steps x (some verify) =
        if-Steps s (no_item x.items) _ _ (kept-Steps s _ (freeze-IsStep config clock claim s x))
          (verification_left-Steps x _)

    extract_left-Steps :
        (providers : ExtractionProviders) (a : Answer FrozenExtraction)
        → Steps fold s (extract_left fold config clock after claim s providers a)
    extract_left-Steps providers (answered x) = verifier_left-Steps x providers.verifier
    extract_left-Steps providers (failed e) =
        kept-Steps s _ (handle_extraction_error-IsStep config clock claim s (classify_error e))

    screen_left-Steps :
        (providers : ExtractionProviders) (a : Check Bool)
        → Steps fold s (screen_left fold config clock after claim s providers a)
    screen_left-Steps providers (check_failed kind) =
        if-Steps s _ _ _ (kept-Steps s _ (try_again-IsStep config clock claim s))
          (kept-Steps s _ (send_to_review-IsStep config clock claim s _))
    screen_left-Steps providers (checked injected) =
        if-Steps s injected _ _ (kept-Steps s _ (send_to_review-IsStep config clock claim s _))
          (extract_left-Steps providers _)

    pub extraction_left-Steps :
        (providers : ExtractionProviders)
        → Steps fold s (extraction_left fold config clock after claim s providers)
    unfolding extraction_left
    extraction_left-Steps providers =
        elim providers.screener
          as (λ screener. Steps fold s (elim screener [
            | none ↦
                extract_left fold config clock after claim s providers
                  (providers.extract claim.transcription config.project_aliases)
            | some screen ↦
                screen_left fold config clock after claim s providers (screen claim.transcription)
          ])) [
            | none ↦ extract_left-Steps providers _
            | some screen ↦ screen_left-Steps providers _
          ]
