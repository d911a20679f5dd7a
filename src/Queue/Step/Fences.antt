-- ===== src/Queue/Step/Fences.antt =====
-- What a claim is protected from along a run: claims that are settled, and claims that are stale.
use mathlib.Core.List.{Memᴰ}
use index_01_hook.Base.{
  ℕ, ◌≡◌, ◌≢◌, sym, subst, ◌∙◌, true, none, some, List, arith, Option-cases, inl, inr,
}
use index_01_hook.Base.Rows.{any_row, any_row-find, find_row-sat, any_row_of_mem}
use index_01_hook.Base.Keys.{mem-All, find_row-mem, only_row}
use index_01_hook.Base.Advance.{follows}
use index_01_hook.Queue.Types.{Text, ExtractionJob, Store, ExtractionClaim}
use index_01_hook.Queue.Schema.{ok, is_leased, is_settled}
use index_01_hook.Queue.Invariant.{Inv, settled_for}
use index_01_hook.Queue.Invariant.Jobs.{recording_key}
use index_01_hook.Queue.Invariant.Keeps.{JobsForward, job_forward}
use index_01_hook.Queue.Extraction.{active_extraction, claim_extraction, claimable_job}
use index_01_hook.Queue.Extraction.Claim.{claim_extraction-picked, select_job-Selected}
use index_01_hook.Queue.Extraction.Finish.{active_extraction-Active}
use index_01_hook.Queue.Step.{Steps}
use index_01_hook.Queue.Step.Runs.{Steps-Keeps}

settled-follows :
    (rid : ℕ) (j k : ExtractionJob)
    → settled_for rid j ≡ true
    → follows recording_key job_forward j k ≡ true
    → settled_for rid k ≡ true
settled-follows rid j k a b = ground arith

settled-forward :
    (rid : ℕ) (jobs jobs' : List ExtractionJob)
    → JobsForward jobs jobs'
    → any_row (settled_for rid) jobs ≡ true
    → any_row (settled_for rid) jobs' ≡ true
settled-forward rid jobs jobs' forward h =
    let (j, found) = any_row-find (settled_for rid) jobs h in
    let next =
      mem-All (λ x. any_row (follows recording_key job_forward x) jobs' ≡ true) jobs j forward
        (find_row-mem (settled_for rid) jobs j found) in
    let (k, there) = any_row-find (follows recording_key job_forward j) jobs' next in
    any_row_of_mem (settled_for rid) jobs' k
      (find_row-mem (follows recording_key job_forward j) jobs' k there)
      (settled-follows rid j k (find_row-sat (settled_for rid) jobs j found)
        (find_row-sat (follows recording_key job_forward j) jobs' k there))

-- The job of a settled recording is the settled one.
settled-job :
    (s : Store) (rid : ℕ) (j : ExtractionJob)
    → Inv s
    → any_row (settled_for rid) s.extraction_jobs ≡ true
    → Memᴰ j s.extraction_jobs
    → j.recording_id ≡ rid
    → is_settled j.state ≡ true
settled-job s rid j h settled m named =
    let (i, found) = any_row-find (settled_for rid) s.extraction_jobs settled in
    let (same, over) = facts i (find_row-sat (settled_for rid) s.extraction_jobs i found) in
    let one : i ≡ j =
      mem-All (λ r. r.recording_id ≡ j.recording_id → r ≡ j) s.extraction_jobs i
        (only_row recording_key s.extraction_jobs j h.job_ledger.ids m)
        (find_row-mem (settled_for rid) s.extraction_jobs i found) (same ∙ sym named) in
    subst (λ (r : ExtractionJob). is_settled r.state ≡ true) one over
  where
    facts :
        (i : ExtractionJob)
        → settled_for rid i ≡ true
        → (i.recording_id ≡ rid) × (is_settled i.state ≡ true)
    facts i hit = (ground arith, ground arith)

module _ (fold : ℕ → ℕ) (s t u : Store) (rid : ℕ) (h : Inv s)
    (settled : any_row (settled_for rid) s.extraction_jobs ≡ true) (run : Steps fold s t) where
  still : any_row (settled_for rid) t.extraction_jobs ≡ true
  still =
      settled-forward rid s.extraction_jobs t.extraction_jobs (Steps-Keeps fold s t h run).jobs
        settled

  -- Once an extraction is frozen or completed, in a store that satisfies the invariant, no claim
  -- after any run returns its recording.
  pub claim_extraction-settled :
      (now : ℕ) (owner : Text) (duration : ℕ) (k : ExtractionClaim)
      → claim_extraction t now owner duration ≡ ok (u, some k)
      → k.recording_id ≢ rid
  claim_extraction-settled now owner duration k e clash =
      let inv = (Steps-Keeps fold s t h run).inv in
      let (j, picked, named, _, _) = claim_extraction-picked t u now owner duration inv k e in
      let found = select_job-Selected t now j picked in
      not-claimable j now found.claimable
        (settled-job t rid j inv still found.member (sym named ∙ clash))
    where
      not-claimable :
          (j : ExtractionJob) (at : ℕ) → claimable_job at j ≡ true → is_settled j.state ≡ true → ⊥
      not-claimable j at can over = ground arith

  -- Once an extraction is frozen or completed, in a store that satisfies the invariant, none of
  -- its attempts is active after any run.
  pub active_extraction-settled :
      (owner : Text) (attempt now : ℕ) → active_extraction t rid owner attempt now ≡ none
  active_extraction-settled owner attempt now =
      elim (Option-cases (active_extraction t rid owner attempt now)) [
        | inl gone ↦ gone
        | inr (j, found) ↦
            let inv = (Steps-Keeps fold s t h run).inv in
            let active = active_extraction-Active t rid owner attempt now j found in
            absurd (
              not-both j active.is_held
                (settled-job t rid j inv still active.member active.same_recording))
      ]
    where
      not-both : (j : ExtractionJob) → is_leased j.state ≡ true → is_settled j.state ≡ true → ⊥
      not-both j held over = ground arith
