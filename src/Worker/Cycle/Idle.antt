-- ===== src/Worker/Cycle/Idle.antt =====
-- When RunOnce of worker.go works: exactly where a job or a task qualifies for a claim.
use index_01_hook.Base.{ℕ, ◌≡◌, true, false, ◌||◌, ◌==◌, ◌⊎◌, inl, inr, All, arith}
use index_01_hook.Base.Rows.{any_row, any_row_of_mem}
use index_01_hook.Base.Text.{is_blank, trim_space}
use index_01_hook.Queue.Types.{Store, ExtractionJob, DeliveryTask}
use index_01_hook.Queue.Invariant.{Inv}
use index_01_hook.Queue.Extraction as Jobs
use index_01_hook.Queue.Delivery as Tasks
use index_01_hook.Queue.Extraction.Claim.{claim_extraction_lem}
use index_01_hook.Queue.Delivery.Claim.{claim_delivery_lem}
use index_01_hook.Worker.{WorkerConfig}
use index_01_hook.Worker.Setup.{IsSound}
use index_01_hook.Worker.Cycle.{CycleInput, cycle}

accepted :
    (config : WorkerConfig)
    → IsSound config
    → (is_blank (trim_space config.owner) || config.lease_duration == 0) ≡ false
accepted config sound =
    let given = sound.owner_given in
    let lease = sound.lease in rw (sound.owner_trimmed, given) (ground arith)

module _ (input : CycleInput) (s : Store) where
  -- There is nothing to claim.
  abbrev pub Nothing : Type 0
  Nothing =
      All (λ (j : ExtractionJob). Jobs.qualifies s input.extraction_claimed_at j ≡ false)
        s.extraction_jobs
      × All (λ (t : DeliveryTask). Tasks.qualifies s input.delivery_claimed_at t ≡ false)
          s.delivery_tasks

  -- There is a job or a task to claim.
  abbrev pub Something : Type 0
  Something =
      (any_row (Jobs.qualifies s input.extraction_claimed_at) s.extraction_jobs ≡ true)
      ⊎ (any_row (Tasks.qualifies s input.delivery_claimed_at) s.delivery_tasks ≡ true)

module _ (fold : ℕ → ℕ) (config : WorkerConfig) (input : CycleInput) (s : Store) (h : Inv s)
    (sound : IsSound config) where
  -- In a store that satisfies the invariant, a cycle of a worker with a sound configuration either
  -- finds no job and no task that qualifies, and then does not fail, reports no work and leaves the
  -- store, or finds one, and then reports work.
  pub cycle_work :
      (Nothing input s
        × ((cycle fold config input s).worked ≡ false)
        × ((cycle fold config input s).cycle_failed ≡ false)
        × ((cycle fold config input s).store ≡ s))
      ⊎ (Something input s × ((cycle fold config input s).worked ≡ true))
  unfolding cycle
  cycle_work =
      elim (claim_extraction_lem s input.extraction_claimed_at config.owner config.lease_duration h
        (accepted config sound)) [
          | inr (j, r, m, q, _, _, claimed) ↦
              inr (inl (any_row_of_mem _ s.extraction_jobs j m q), rw claimed)
          | inl (no_job, nothing) ↦
              elim (claim_delivery_lem s input.delivery_claimed_at config.owner
                config.lease_duration h (accepted config sound)) [
                  | inr (t, r, m, q, _, _, claimed) ↦
                      inr (inr (any_row_of_mem _ s.delivery_tasks t m q), rw (nothing, claimed))
                  | inl (no_task, idle) ↦ inl (
                    (no_job, no_task),
                    rw (nothing, idle),
                    rw (nothing, idle),
                    rw (nothing, idle),
                  )
                ]
        ]
