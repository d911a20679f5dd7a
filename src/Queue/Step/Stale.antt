-- ===== src/Queue/Step/Stale.antt =====
-- The attempt number of a claim as a fencing token: a later claim of the recording shuts it out.
use mathlib.Core.List.{Memᴰ}
use index_01_hook.Base.{
  ℕ, ◌<◌, ◌≤◌, ◌+◌, ◌≡◌, sym, subst, ◌∙◌, Bool, true, none, some, List, arith, ◌&&◌, Option-cases,
  inl, inr, ◌==◌, leb,
}
use index_01_hook.Base.Rows.{any_row, any_row-find, find_row-sat, any_row_of_mem}
use index_01_hook.Base.Keys.{mem-All, find_row-mem, only_row, any_row-update_rows}
use index_01_hook.Base.Advance.{follows}
use index_01_hook.Base.Text.{trim_space}
use index_01_hook.Queue.Types.{Text, ExtractionJob, Store, ExtractionClaim}
use index_01_hook.Queue.Schema.{ok}
use index_01_hook.Queue.Invariant.{Inv}
use index_01_hook.Queue.Invariant.Jobs.{recording_key}
use index_01_hook.Queue.Invariant.Keeps.{JobsForward, job_forward}
use index_01_hook.Queue.Extraction.{active_extraction, claim_extraction, claimed_row, lease_job}
use index_01_hook.Queue.Extraction.Claim.{
  claim_extraction-picked, select_job-Selected, claim_extraction-Keeps,
}
use index_01_hook.Queue.Extraction.Finish.{active_extraction-Active}
use index_01_hook.Queue.Step.{Steps}
use index_01_hook.Queue.Step.Runs.{Steps-Keeps}

-- The job of the recording has had so many attempts.
abbrev reached : ℕ → ℕ → ExtractionJob → Bool
reached rid n j = j.recording_id == rid && leb n j.attempt_count

reached-facts :
    (rid n : ℕ) (j : ExtractionJob)
    → reached rid n j ≡ true
    → (j.recording_id ≡ rid) × (n ≤ j.attempt_count)
reached-facts rid n j h = (ground arith, ground arith)

reached-follows :
    (rid n : ℕ) (j k : ExtractionJob)
    → reached rid n j ≡ true
    → follows recording_key job_forward j k ≡ true
    → reached rid n k ≡ true
reached-follows rid n j k a b = ground arith

reached-forward :
    (rid n : ℕ) (jobs jobs' : List ExtractionJob)
    → JobsForward jobs jobs'
    → any_row (reached rid n) jobs ≡ true
    → any_row (reached rid n) jobs' ≡ true
reached-forward rid n jobs jobs' forward h =
    let (j, found) = any_row-find (reached rid n) jobs h in
    let next =
      mem-All (λ x. any_row (follows recording_key job_forward x) jobs' ≡ true) jobs j forward
        (find_row-mem (reached rid n) jobs j found) in
    let (k, there) = any_row-find (follows recording_key job_forward j) jobs' next in
    any_row_of_mem (reached rid n) jobs' k
      (find_row-mem (follows recording_key job_forward j) jobs' k there)
      (reached-follows rid n j k (find_row-sat (reached rid n) jobs j found)
        (find_row-sat (follows recording_key job_forward j) jobs' k there))

-- The attempts of the one job of a recording.
reached-job :
    (s : Store) (rid n : ℕ) (j : ExtractionJob)
    → Inv s
    → any_row (reached rid n) s.extraction_jobs ≡ true
    → Memᴰ j s.extraction_jobs
    → j.recording_id ≡ rid
    → n ≤ j.attempt_count
reached-job s rid n j h there m named =
    let (i, found) = any_row-find (reached rid n) s.extraction_jobs there in
    let (same, enough) =
      reached-facts rid n i (find_row-sat (reached rid n) s.extraction_jobs i found) in
    let one : i ≡ j =
      mem-All (λ r. r.recording_id ≡ j.recording_id → r ≡ j) s.extraction_jobs i
        (only_row recording_key s.extraction_jobs j h.job_ledger.ids m)
        (find_row-mem (reached rid n) s.extraction_jobs i found) (same ∙ sym named) in
    subst (λ (r : ExtractionJob). n ≤ r.attempt_count) one enough

claim-reached :
    (s t : Store) (now : ℕ) (owner : Text) (duration : ℕ) (k : ExtractionClaim)
    → Inv s
    → claim_extraction s now owner duration ≡ ok (t, some k)
    → any_row (reached k.recording_id k.attempt_number) t.extraction_jobs ≡ true
claim-reached s t now owner duration k h e =
    let (j, picked, named, number, made) = claim_extraction-picked s t now owner duration h k e in
    let found = select_job-Selected s now j picked in
    subst
      (λ (v : Store). any_row (reached k.recording_id k.attempt_number) v.extraction_jobs ≡ true)
      (sym made)
      (any_row-update_rows (claimed_row j.recording_id now)
        (reached k.recording_id k.attempt_number)
        (lease_job now (trim_space owner) duration (j.attempt_count + 1)
          (j.cycle_attempt_count + 1))
        j s.extraction_jobs found.member (let c = found.claimable in ground arith) (ground arith))

module _ (fold : ℕ → ℕ) (s t u v : Store) (now later : ℕ) (owner owner' : Text)
    (duration duration' : ℕ) (k k' : ExtractionClaim) (h : Inv s)
    (claimed : claim_extraction s now owner duration ≡ ok (t, some k)) (run : Steps fold t u)
    (reclaimed : claim_extraction u later owner' duration' ≡ ok (v, some k'))
    (same : k'.recording_id ≡ k.recording_id) where
  t-Inv : Inv t
  t-Inv = (claim_extraction-Keeps s t now owner duration h (some k) claimed).inv

  u-Inv : Inv u
  u-Inv = (Steps-Keeps fold t u t-Inv run).inv

  -- From a store that satisfies the invariant, two claims of one recording with any run between
  -- them carry attempt numbers that grow.
  pub claim_extraction-numbers : k.attempt_number < k'.attempt_number
  claim_extraction-numbers =
      let (j, picked, named, number, _) =
        claim_extraction-picked u v later owner' duration' u-Inv k' reclaimed in
      let found = select_job-Selected u later j picked in
      let before =
        reached-job u k.recording_id k.attempt_number j u-Inv
          (reached-forward k.recording_id k.attempt_number t.extraction_jobs u.extraction_jobs
            (Steps-Keeps fold t u t-Inv run).jobs
            (claim-reached s t now owner duration k h claimed))
          found.member (sym named ∙ same) in
      rw number (omega arith)

  -- From a store that satisfies the invariant a recording is claimed, a run follows, and the
  -- recording is claimed again: after any further run the first claim's attempt number is active
  -- for no holder and at no instant.
  pub active_extraction-stale :
      (w : Store)
      → Steps fold v w
      → (holder : Text) (at : ℕ)
      → active_extraction w k.recording_id holder k.attempt_number at ≡ none
  active_extraction-stale w after holder at =
      elim (Option-cases (active_extraction w k.recording_id holder k.attempt_number at)) [
        | inl gone ↦ gone
        | inr (j, found) ↦
            let v_keeps =
              claim_extraction-Keeps u v later owner' duration' u-Inv (some k') reclaimed in
            let w_keeps = Steps-Keeps fold v w v_keeps.inv after in
            let active =
              active_extraction-Active w k.recording_id holder k.attempt_number at j found in
            let enough =
              reached-job w k'.recording_id k'.attempt_number j w_keeps.inv
                (reached-forward k'.recording_id k'.attempt_number v.extraction_jobs
                  w.extraction_jobs w_keeps.jobs
                  (claim-reached u v later owner' duration' k' u-Inv reclaimed))
                active.member (active.same_recording ∙ sym same) in
            let number = active.same_attempt in
            let grows = claim_extraction-numbers in absurd (ground arith)
      ]
