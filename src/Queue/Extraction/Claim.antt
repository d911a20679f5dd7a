-- ===== src/Queue/Extraction/Claim.antt =====
-- ClaimExtraction: which job is claimed, what the claim does, and what an active claim excludes.
use mathlib.Core.List.{Memᴰ}
use index_01_hook.Base.{
  ℕ, ◌+◌, ◌≡◌, refl, sym, ap, subst, ◌∙◌, ◌≢◌, true, false, ◌||◌, Option, none, some, List, arith,
  ◌==◌, Option-cases, inl, inr, &&_true, All, ◌⊎◌,
}
use index_01_hook.Base.Rows.{
  update_rows, first_row-sat, first_row-mem, first_row-least, first_row-none, NoLater, any_row-find,
}
use index_01_hook.Base.Keys.{mem-All, only_row, count_rows-one}
use index_01_hook.Base.Text.{Text, trim_space, is_blank}
use index_01_hook.Queue.Types.{Recording, ExtractionJob, Store, ExtractionClaim}
use index_01_hook.Queue.Schema.{
  invalid_argument, ok, is_leased, allowed_transition, guard-eq-ok, ok-injective, ok_some-injective,
}
use index_01_hook.Queue.Evaluation.{recording_by_id}
use index_01_hook.Queue.Invariant.{JobInv, Inv}
use index_01_hook.Queue.Invariant.Jobs.{JobChange, update_jobs-one}
use index_01_hook.Queue.Invariant.Keeps.{Keeps, Keeps-refl, job_update-Keeps}
use index_01_hook.Queue.Extraction.{
  claimable_job, has_recording, next_attempt, recording_key, qualifies, select_job, lease_job,
  claimed_row, claim_job, claim_selected, claim_extraction, active_extraction, leased_by,
}
use index_01_hook.Queue.Extraction.Finish.{active_extraction-Active}

-- What the SELECT has checked of the job that it picked.
pub record Selected (s : Store) (now : ℕ) (j : ExtractionJob) : Type 0 where
  pub member : Memᴰ j s.extraction_jobs
  pub claimable : claimable_job now j ≡ true
  pub recorded : has_recording j.recording_id s.recordings ≡ true

pub select_job-Selected :
    (s : Store) (now : ℕ) (j : ExtractionJob) → select_job s now ≡ some j → Selected s now j
unfolding select_job
select_job-Selected s now j h =
    let both =
      &&_true (claimable_job now j) (has_recording j.recording_id s.recordings)
        (first_row-sat next_attempt recording_key (qualifies s now) s.extraction_jobs j h) in
    record {
      member = first_row-mem next_attempt recording_key (qualifies s now) s.extraction_jobs j h;
      claimable = both.0;
      recorded = both.1;
    }

claim-change :
    (now : ℕ) (owner : Text) (duration : ℕ) (j : ExtractionJob)
    → claimable_job now j ≡ true
    → JobInv j
    → JobChange (lease_job now owner duration (j.attempt_count + 1) (j.cycle_attempt_count + 1)) j
unfolding allowed_transition
claim-change now owner duration j can h = record {
  same_recording = λ r. refl;
  legal = ground arith;
  sound = λ old. record {
    agrees = refl;
    lease_held = refl;
    cycle_within = omega arith;
    completion = ground arith;
  };
  grows = ground arith;
  counts = omega arith;
  positive = λ e. omega arith;
  settles = λ e. ground arith;
}

abbrev pub claimed_jobs : ℕ → Text → ℕ → ExtractionJob → List ExtractionJob → List ExtractionJob
claimed_jobs now owner duration j =
    update_rows (claimed_row j.recording_id now)
      (lease_job now owner duration (j.attempt_count + 1) (j.cycle_attempt_count + 1))

abbrev pub claim_of : ExtractionJob → Recording → ExtractionClaim
claim_of j r = record {
  recording_id = j.recording_id;
  recording_hash = r.payload_fingerprint;
  transcription = r.transcription;
  attempt_number = j.attempt_count + 1;
  cycle_attempt_number = j.cycle_attempt_count + 1;
}

claimed_row-names :
    (now : ℕ) (j r : ExtractionJob)
    → claimed_row j.recording_id now r ≡ true
    → recording_key r ≡ recording_key j
claimed_row-names now j r h = ground arith

module _ (s : Store) (now : ℕ) (owner : Text) (duration : ℕ) (j : ExtractionJob) (h : Inv s)
    (picked : select_job s now ≡ some j) where
  selected : Selected s now j
  selected = select_job-Selected s now j picked

  change :
      JobChange
        (lease_job now
          (trim_space owner)
          duration
          (j.attempt_count + 1)
          (j.cycle_attempt_count + 1))
        j
  change =
      claim-change now (trim_space owner) duration j selected.claimable
        (mem-All JobInv s.extraction_jobs j h.job_rows selected.member)

  -- A job that qualifies is claimed: no trigger and no lost row stops the claim.
  pub claim_extraction-selected :
      (is_blank (trim_space owner) || duration == 0) ≡ false
      → (r : Recording) × (recording_by_id j.recording_id s.recordings ≡ some r)
        × (claim_extraction s now owner duration
            ≡ ok (
              record s {
                extraction_jobs = claimed_jobs now (trim_space owner) duration j s.extraction_jobs;
              },
              some (claim_of j r),
            ))
  unfolding claim_extraction claim_selected claim_job
  claim_extraction-selected valid =
      let (r, found) =
        any_row-find (λ (q : Recording). q.id == j.recording_id) s.recordings selected.recorded in
      let once =
        count_rows-one recording_key (claimed_row j.recording_id now) j s.extraction_jobs
          h.job_ledger.ids selected.member (claimed_row-names now j)
          (let c = selected.claimable in ground arith) in
      (
        r,
        found,
        rw (
          valid,
          picked,
          found,
          update_jobs-one (claimed_row j.recording_id now)
              (lease_job now (trim_space owner) duration (j.attempt_count + 1)
                (j.cycle_attempt_count + 1))
              j h.job_ledger selected.member (claimed_row-names now j) change.legal,
          once,
        ),
      )

  claimed-Keeps : Keeps s (record s {
    extraction_jobs = claimed_jobs now (trim_space owner) duration j s.extraction_jobs;
  })
  claimed-Keeps =
      job_update-Keeps s _ h (claimed_row j.recording_id now) _ j selected.member
        (claimed_row-names now j) change refl refl refl refl

claim_extraction-nothing :
    (s : Store) (now : ℕ) (owner : Text) (duration : ℕ)
    → (is_blank (trim_space owner) || duration == 0) ≡ false
    → select_job s now ≡ none
    → claim_extraction s now owner duration ≡ ok (s, none)
unfolding claim_extraction claim_selected
claim_extraction-nothing s now owner duration valid nothing = rw (valid, nothing)

claim_extraction-valid :
    (s : Store) (now : ℕ) (owner : Text) (duration : ℕ) {a : Store × Option ExtractionClaim}
    → claim_extraction s now owner duration ≡ ok a
    → (is_blank (trim_space owner) || duration == 0) ≡ false
unfolding claim_extraction
claim_extraction-valid s now owner duration e = (guard-eq-ok _ invalid_argument _ e).0

-- Under a named owner and a positive duration, in a store that satisfies the invariant: where no
-- job qualifies nothing changes and nothing is claimed; otherwise the claim is the qualifying job
-- that stands first by next attempt and recording, and only the job rows change, as claimed_jobs
-- says.
pub claim_extraction_lem :
    (s : Store) (now : ℕ) (owner : Text) (duration : ℕ)
    → Inv s
    → (is_blank (trim_space owner) || duration == 0) ≡ false
    → (All (λ x. qualifies s now x ≡ false) s.extraction_jobs
        × (claim_extraction s now owner duration ≡ ok (s, none)))
      ⊎ ((j : ExtractionJob) × (r : Recording) × Memᴰ j s.extraction_jobs
          × (qualifies s now j ≡ true)
          × All
              (λ x. qualifies s now x ≡ true → NoLater next_attempt recording_key j x)
              s.extraction_jobs
          × (recording_by_id j.recording_id s.recordings ≡ some r)
          × (claim_extraction s now owner duration
              ≡ ok (
                record s {
                  extraction_jobs =
                      claimed_jobs now (trim_space owner) duration j s.extraction_jobs;
                },
                some (claim_of j r),
              )))
unfolding select_job
claim_extraction_lem s now owner duration h valid = elim (Option-cases (select_job s now)) [
  | inl nothing ↦ inl (
    first_row-none next_attempt recording_key (qualifies s now) s.extraction_jobs nothing,
    claim_extraction-nothing s now owner duration valid nothing,
  )
  | inr (j, picked) ↦
      let (r, found, claimed) = claim_extraction-selected s now owner duration j h picked valid in
      inr (
        j,
        r,
        first_row-mem next_attempt recording_key (qualifies s now) s.extraction_jobs j picked,
        first_row-sat next_attempt recording_key (qualifies s now) s.extraction_jobs j picked,
        first_row-least next_attempt recording_key (qualifies s now) s.extraction_jobs j picked,
        found,
        claimed,
      )
]

active-not-claimable :
    (now : ℕ) (owner : Text) (j : ExtractionJob)
    → is_leased j.state ≡ true
    → leased_by owner j.lease now ≡ true
    → claimable_job now j ≡ true
    → ⊥
active-not-claimable now owner j held in_time can = ground arith

module _ (s t : Store) (now : ℕ) (owner : Text) (duration : ℕ) (h : Inv s) where
  -- A claim that returns a recording returns the job that the SELECT picked.
  pub claim_extraction-picked :
      (k : ExtractionClaim)
      → claim_extraction s now owner duration ≡ ok (t, some k)
      → (j : ExtractionJob) × (select_job s now ≡ some j)
        × (k.recording_id ≡ j.recording_id)
        × (k.attempt_number ≡ j.attempt_count + 1)
        × (t ≡ record s {
          extraction_jobs = claimed_jobs now (trim_space owner) duration j s.extraction_jobs;
        })
  claim_extraction-picked k e = elim (Option-cases (select_job s now)) [
    | inl nothing ↦
        let valid = claim_extraction-valid s now owner duration e in
        let none_left = claim_extraction-nothing s now owner duration valid nothing in cc
    | inr (j, picked) ↦
        let valid = claim_extraction-valid s now owner duration e in
        let (r, found, claimed) = claim_extraction-selected s now owner duration j h picked valid in
        let (same_store, same_claim) = ok_some-injective (sym claimed ∙ e) in
        (
          j,
          picked,
          sym (ap (λ (c : ExtractionClaim). c.recording_id) same_claim),
          sym (ap (λ (c : ExtractionClaim). c.attempt_number) same_claim),
          sym same_store,
        )
  ]

  -- A claim keeps the invariant, whether or not there was a job to claim.
  pub claim_extraction-Keeps :
      (o : Option ExtractionClaim) → claim_extraction s now owner duration ≡ ok (t, o) → Keeps s t
  claim_extraction-Keeps none e = elim (Option-cases (select_job s now)) [
    | inl nothing ↦
        let valid = claim_extraction-valid s now owner duration e in
        let unchanged = claim_extraction-nothing s now owner duration valid nothing in
        let same : s ≡ t = ap (λ a. a.0) (ok-injective (sym unchanged ∙ e)) in
        subst (Keeps s) same (Keeps-refl s h)
    | inr (j, picked) ↦
        let valid = claim_extraction-valid s now owner duration e in
        let (r, found, claimed) = claim_extraction-selected s now owner duration j h picked valid in
        cc
  ]
  claim_extraction-Keeps (some k) e =
      let (j, picked, _, _, same) = claim_extraction-picked k e in
      subst (Keeps s) (sym same) (claimed-Keeps s now owner duration j h picked)

  -- In a store that satisfies the invariant, while a claim of a recording is active no claim at
  -- that instant, by whatever owner, returns that recording.
  pub claim_extraction-exclusive :
      (rid : ℕ) (holder : Text) (attempt : ℕ) (j : ExtractionJob) (k : ExtractionClaim)
      → active_extraction s rid holder attempt now ≡ some j
      → claim_extraction s now owner duration ≡ ok (t, some k)
      → k.recording_id ≢ rid
  claim_extraction-exclusive rid holder attempt j k held e clash =
      let (i, picked, named, _, _) = claim_extraction-picked k e in
      let found = select_job-Selected s now i picked in
      let fence = active_extraction-Active s rid holder attempt now j held in
      let one : i ≡ j =
        mem-All (λ r. r.recording_id ≡ j.recording_id → r ≡ j) s.extraction_jobs i
          (only_row recording_key s.extraction_jobs j h.job_ledger.ids fence.member) found.member
          (sym named ∙ clash ∙ sym fence.same_recording) in
      active-not-claimable now (trim_space holder) j fence.is_held fence.in_time
        (subst (λ r. claimable_job now r ≡ true) one found.claimable)
