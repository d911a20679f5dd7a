-- ===== src/Queue/Step.antt =====
-- The operations of queue.go and store.go, and SaveShadowVerifications of evaluation_evidence.go, as
-- the steps of one store, and its runs. The workers, the shadow verifier, the
-- webhook and the operator's retries change the queue by these transactions. The purges of
-- retention.go delete rows and are no steps.
pub mod Runs
pub mod Health
pub mod Fences
pub mod Stale
pub mod Delivered
use index_01_hook.Base.{ℕ, ◌≡◌, Option, List}
use index_01_hook.Queue.Types.{
  Text, Outcome, Workflow, Evidence, FrozenExtraction, Store, ExtractionClaim, DeliveryClaim,
  DeliveryCompletion,
}
use index_01_hook.Queue.Schema.{ok}
use index_01_hook.Queue.Intake.{RecordingInput, Receipt, save_recording}
use index_01_hook.Queue.Extraction.{
  claim_extraction, save_extraction_verification, complete_rejected_extraction, retry_extraction,
  review_extraction, block_extraction, retry_recording_by_id,
}
use index_01_hook.Queue.Evaluation.Shadow.{ShadowVerification, save_shadow_verifications}
use index_01_hook.Queue.Freeze.{freeze_extraction}
use index_01_hook.Queue.Delivery.{
  claim_delivery, complete_delivery, retry_delivery, retry_delivery_reconciliation, review_delivery,
  block_delivery, retry_delivery_by_id,
}

-- A committed transaction; an operation that fails leaves the store as it was.
pub data Step (fold : ℕ → ℕ) (s t : Store) : Type 0 where
  saves :
      (now : ℕ) (input : RecordingInput) (receipt : Receipt)
      → save_recording s now input ≡ ok (t, receipt)
      → Step fold s t
  claims_extraction :
      (now : ℕ) (owner : Text) (duration : ℕ) (k : Option ExtractionClaim)
      → claim_extraction s now owner duration ≡ ok (t, k)
      → Step fold s t
  verifies :
      (now rid : ℕ) (owner : Text) (attempt : ℕ) (evidence : List Evidence)
      → save_extraction_verification s now rid owner attempt evidence ≡ ok t
      → Step fold s t
  freezes :
      (now rid : ℕ) (owner : Text) (attempt : ℕ) (x : FrozenExtraction)
      → freeze_extraction fold s now rid owner attempt x ≡ ok t
      → Step fold s t
  rejects :
      (now rid : ℕ) (owner : Text) (attempt : ℕ)
      → complete_rejected_extraction s now rid owner attempt ≡ ok t
      → Step fold s t
  retries_extraction :
      (now rid : ℕ) (owner : Text) (attempt : ℕ) (c : Outcome) (retry_at : ℕ)
      → retry_extraction s now rid owner attempt c retry_at ≡ ok t
      → Step fold s t
  reviews_extraction :
      (later now rid : ℕ) (owner : Text) (attempt : ℕ) (c : Outcome)
      → review_extraction s later now rid owner attempt c ≡ ok t
      → Step fold s t
  blocks_extraction_at :
      (later now rid : ℕ) (owner : Text) (attempt : ℕ) (c : Outcome) (workflow : Workflow)
      → block_extraction s later now rid owner attempt c workflow ≡ ok t
      → Step fold s t
  restarts_recording : (now rid : ℕ) → retry_recording_by_id s now rid ≡ ok t → Step fold s t
  claims_delivery :
      (now : ℕ) (owner : Text) (duration : ℕ) (k : Option DeliveryClaim)
      → claim_delivery s now owner duration ≡ ok (t, k)
      → Step fold s t
  completes_delivery :
      (now : ℕ) (d : DeliveryCompletion) → complete_delivery s now d ≡ ok t → Step fold s t
  retries_delivery :
      (now id : ℕ) (owner : Text) (c : Outcome) (retry_at : ℕ)
      → retry_delivery s now id owner c retry_at ≡ ok t
      → Step fold s t
  retries_reconciliation :
      (now id : ℕ) (owner : Text) (retry_at : ℕ)
      → retry_delivery_reconciliation s now id owner retry_at ≡ ok t
      → Step fold s t
  reviews_delivery :
      (later now id : ℕ) (owner : Text) (c : Outcome)
      → review_delivery s later now id owner c ≡ ok t
      → Step fold s t
  blocks_delivery_at :
      (later now id : ℕ) (owner : Text) (c : Outcome) (workflow : Workflow)
      → block_delivery s later now id owner c workflow ≡ ok t
      → Step fold s t
  saves_shadow :
      (now rid : ℕ) (results : List ShadowVerification)
      → save_shadow_verifications s now rid results ≡ ok t
      → Step fold s t
  restarts_delivery : (now id : ℕ) → retry_delivery_by_id s now id ≡ ok t → Step fold s t

pub data Steps (fold : ℕ → ℕ) (s : Store) : Store → Type 0 where
  start : Steps fold s s
  then_step : (t u : Store) → Steps fold s t → Step fold t u → Steps fold s u
