-- ===== src/Queue/Step/Runs.antt =====
-- What every run of the queue keeps.
use index_01_hook.Base.{ℕ}
use index_01_hook.Queue.Types.{Store, empty_store}
use index_01_hook.Queue.Invariant.{Inv}
use index_01_hook.Queue.Invariant.Keeps.{Keeps, Keeps-refl, Keeps-trans, untouched-Keeps}
use index_01_hook.Queue.Intake.Keeps.{save_recording-Keeps}
use index_01_hook.Queue.Extraction.Claim.{claim_extraction-Keeps}
use index_01_hook.Queue.Extraction.Finish.{
  retry_extraction-Keeps, review_extraction-Keeps, block_extraction-Keeps,
}
use index_01_hook.Queue.Extraction.Restart.{
  complete_rejected_extraction-Keeps, save_extraction_verification-Keeps,
  retry_recording_by_id-Keeps,
}
use index_01_hook.Queue.Evaluation.Shadow.{save_shadow_verifications-SameQueue}
use index_01_hook.Queue.Freeze.Inv.{freeze_extraction-Keeps}
use index_01_hook.Queue.Delivery.Claim.{claim_delivery-Keeps}
use index_01_hook.Queue.Delivery.Finish.{
  retry_delivery-Keeps, retry_delivery_reconciliation-Keeps, review_delivery-Keeps,
  block_delivery-Keeps,
}
use index_01_hook.Queue.Delivery.Complete.{complete_delivery-Keeps}
use index_01_hook.Queue.Delivery.Restart.{retry_delivery_by_id-Keeps}
use index_01_hook.Queue.Step.{
  Step, saves, claims_extraction, verifies, freezes, rejects, retries_extraction,
  reviews_extraction, blocks_extraction_at, restarts_recording, claims_delivery, completes_delivery,
  retries_delivery, retries_reconciliation, reviews_delivery, blocks_delivery_at, restarts_delivery,
  saves_shadow, Steps, start, then_step,
}

-- The store that the migrations make, under a retention of evaluation evidence.
abbrev pub initial : ℕ → Store
initial retention = record empty_store { evaluation_retention = retention }

pub initial-Inv : (retention : ℕ) → Inv (initial retention)
initial-Inv retention = record {
  job_rows = tt;
  job_ledger = record { ids = tt; counted = tt; owned = tt };
  task_rows = tt;
  task_ledger = record { ids = tt; counted = tt; owned = tt };
  settled = tt;
}

module _ (fold : ℕ → ℕ) where
  -- Every operation keeps the invariant, and lets no row go backwards.
  pub Step-Keeps : (s t : Store) → Inv s → Step fold s t → Keeps s t
  Step-Keeps s t h (saves _ _ _ e) = save_recording-Keeps s t _ _ _ h e
  Step-Keeps s t h (claims_extraction _ _ _ _ e) = claim_extraction-Keeps s t _ _ _ h _ e
  Step-Keeps s t h (verifies _ _ _ _ _ e) = save_extraction_verification-Keeps s t _ _ _ _ _ h e
  Step-Keeps s t h (freezes _ _ _ _ _ e) = freeze_extraction-Keeps fold s t _ _ _ _ _ h e
  Step-Keeps s t h (rejects _ _ _ _ e) = (complete_rejected_extraction-Keeps s t _ _ _ _ h e).0
  Step-Keeps s t h (retries_extraction _ _ _ _ _ _ e) = retry_extraction-Keeps s t _ _ _ _ h _ _ e
  Step-Keeps s t h (reviews_extraction _ _ _ _ _ _ e) = review_extraction-Keeps s t _ _ _ _ h _ _ e
  Step-Keeps s t h (blocks_extraction_at _ _ _ _ _ _ _ e) =
      block_extraction-Keeps s t _ _ _ _ h _ _ _ e
  Step-Keeps s t h (restarts_recording _ _ e) = retry_recording_by_id-Keeps s t _ _ h e
  Step-Keeps s t h (claims_delivery _ _ _ _ e) = claim_delivery-Keeps s t _ _ _ h _ e
  Step-Keeps s t h (completes_delivery _ _ e) = complete_delivery-Keeps s t _ _ h e
  Step-Keeps s t h (retries_delivery _ _ _ _ _ e) = retry_delivery-Keeps s t _ _ _ h _ _ e
  Step-Keeps s t h (retries_reconciliation _ _ _ _ e) =
      retry_delivery_reconciliation-Keeps s t _ _ _ h _ e
  Step-Keeps s t h (reviews_delivery _ _ _ _ _ e) = review_delivery-Keeps s t _ _ _ h _ _ e
  Step-Keeps s t h (blocks_delivery_at _ _ _ _ _ _ e) = block_delivery-Keeps s t _ _ _ h _ _ _ e
  Step-Keeps s t h (saves_shadow _ _ _ e) =
      let same = save_shadow_verifications-SameQueue s t _ _ _ e in
      untouched-Keeps s t h same.jobs same.attempts same.tasks same.task_attempts
  Step-Keeps s t h (restarts_delivery _ _ e) = retry_delivery_by_id-Keeps s t _ _ h e

  -- Every run from a store that satisfies the invariant keeps it, and lets no job and no task go
  -- backwards.
  pub Steps-Keeps : (s t : Store) → Inv s → Steps fold s t → Keeps s t
  Steps-Keeps s t h start = Keeps-refl s h
  Steps-Keeps s u h (then_step t _ run step) =
      let before = Steps-Keeps s t h run in
      Keeps-trans s t u before (Step-Keeps t u before.inv step)
