-- ===== src/Queue/Extraction.antt =====
-- The extraction queue of queue.go: claim, freeze, retry, review, block, reject and manual retry.
pub mod Finish
pub mod Claim
pub mod Erase
pub mod Restart
use index_01_hook.Base.{
  ℕ, ◌+◌, ◌≡◌, ap, Bool, true, false, not, ◌&&◌, ◌||◌, Option, none, some, List, [], ◌∷◌, ltb, leb,
  ◌==◌, if◌then◌else◌,
}
use index_01_hook.Base.Rows.{any_row, find_row, count_rows, update_rows, first_row}
use index_01_hook.Base.Text.{Text, text_eq, is_blank, trim_space}
use index_01_hook.Queue.Types.{
  Outcome, retryable, authentication, configuration, malformed, review, QueueState, pending, leased,
  retry, completed, in_review, Workflow, received, extracting, retry_wait, needs_review, complete,
  Lease, Recording, Evidence, ExtractionJob, Attempt, Store, ExtractionClaim, unix_milli,
}
use index_01_hook.Queue.Schema.{
  invalid_argument, lease_lost, manual_retry_not_allowed, Result, ok, err, ◌>>=◌, is_leased,
  is_waiting, is_terminal, valid_outcome, is_success, extraction_outcome, update_jobs,
  insert_attempt, ok-injective,
}
use index_01_hook.Queue.Evaluation.{recording_by_id}

abbrev pub lease_expired : Option Lease → ℕ → Bool
lease_expired none now = false
lease_expired (some l) now = leb l.expires_at_ms (unix_milli now)

abbrev pub claimable_job : ℕ → ExtractionJob → Bool
claimable_job now j =
    (is_waiting j.state && leb j.next_attempt_at_ms (unix_milli now))
    || (is_leased j.state && lease_expired j.lease now)

-- `JOIN recordings r ON r.id = j.recording_id`.
abbrev pub has_recording : ℕ → List Recording → Bool
has_recording rid = any_row (λ (r : Recording). r.id == rid)

abbrev pub next_attempt : ExtractionJob → ℕ
next_attempt j = j.next_attempt_at_ms

abbrev pub recording_key : ExtractionJob → ℕ
recording_key j = j.recording_id

abbrev pub qualifies : Store → ℕ → ExtractionJob → Bool
qualifies s now j = claimable_job now j && has_recording j.recording_id s.recordings

-- The SELECT of ClaimExtraction.
unfoldable pub select_job : Store → ℕ → Option ExtractionJob
select_job s now = first_row next_attempt recording_key (qualifies s now) s.extraction_jobs

-- The SET of ClaimExtraction.
abbrev pub lease_job : ℕ → Text → ℕ → ℕ → ℕ → ExtractionJob → ExtractionJob
lease_job now owner duration attempt cycle j = record j {
  state = leased;
  workflow_state = extracting;
  attempt_count = attempt;
  cycle_attempt_count = cycle;
  lease = some (record { owner = owner; expires_at_ms = unix_milli (now + duration) });
  updated_at = now;
}

abbrev pub claimed_row : ℕ → ℕ → ExtractionJob → Bool
claimed_row rid now j = j.recording_id == rid && claimable_job now j

-- The UPDATE of one row under `requireOneRow`.
unfoldable pub claim_job :
    Store → ℕ → Text → ℕ → ExtractionJob → Recording → Result (Store × Option ExtractionClaim)
claim_job s now owner duration j r = do
  jobs ←
      update_jobs (claimed_row j.recording_id now)
        (lease_job now owner duration (j.attempt_count + 1) (j.cycle_attempt_count + 1))
        s.extraction_jobs
  if not (count_rows (claimed_row j.recording_id now) s.extraction_jobs == 1)
      then err lease_lost
      else ok (
        record s { extraction_jobs = jobs },
        some (record {
          recording_id = j.recording_id;
          recording_hash = r.payload_fingerprint;
          transcription = r.transcription;
          attempt_number = j.attempt_count + 1;
          cycle_attempt_number = j.cycle_attempt_count + 1;
        }),
      )

abbrev pub claim_found :
    Store
    → ℕ
    → Text
    → ℕ
    → ExtractionJob
    → Option Recording
    → Result (Store × Option ExtractionClaim)
claim_found s now owner duration j none = ok (s, none)
claim_found s now owner duration j (some r) = claim_job s now owner duration j r

unfoldable pub claim_selected :
    Store → ℕ → Text → ℕ → Option ExtractionJob → Result (Store × Option ExtractionClaim)
claim_selected s now owner duration none = ok (s, none)
claim_selected s now owner duration (some j) =
    claim_found s now owner duration j (recording_by_id j.recording_id s.recordings)

-- A lease duration that is not positive is refused; 0 stands for those that are negative too.
unfoldable pub claim_extraction : Store → ℕ → Text → ℕ → Result (Store × Option ExtractionClaim)
claim_extraction s now owner duration =
    if is_blank (trim_space owner) || duration == 0
    then err invalid_argument
    else claim_selected s now (trim_space owner) duration (select_job s now)

abbrev pub leased_by : Text → Option Lease → ℕ → Bool
leased_by owner none now = false
leased_by owner (some l) now = text_eq l.owner owner && ltb (unix_milli now) l.expires_at_ms

-- The fence of every write of a claim: leased, to this owner, for this attempt, and not expired.
abbrev pub active_job : ℕ → Text → ℕ → ℕ → ExtractionJob → Bool
active_job rid owner attempt now j =
    j.recording_id == rid
    && is_leased j.state
    && j.attempt_count == attempt
    && leased_by owner j.lease now

unfoldable pub active_extraction : Store → ℕ → Text → ℕ → ℕ → Option ExtractionJob
unfolding find_row text_eq trim_space
active_extraction s rid owner attempt now =
    find_row (active_job rid (trim_space owner) attempt now) s.extraction_jobs

abbrev pub or_lease_lost {ℓ} : {A : Type ℓ} → Option A → Result A
or_lease_lost none = err lease_lost
or_lease_lost (some a) = ok a

pub or_lease_lost-eq-ok {ℓ} :
    {A : Type ℓ} (o : Option A) (a : A) → or_lease_lost o ≡ ok a → o ≡ some a
or_lease_lost-eq-ok none a h = cc
or_lease_lost-eq-ok (some b) a h = ap some (ok-injective h)

abbrev pub of_recording : ℕ → ExtractionJob → Bool
of_recording rid j = j.recording_id == rid

abbrev pub extraction_attempt : ℕ → ℕ → Outcome → ℕ → Attempt
extraction_attempt rid n c now = record {
  of = rid;
  attempt_number = n;
  classification = c;
  created_at = now;
}

-- The SET of finishExtractionAttempt.
abbrev pub finish_job : QueueState → Workflow → ℕ → Outcome → ℕ → ExtractionJob → ExtractionJob
finish_job state workflow retry_at c now j = record j {
  state = state;
  workflow_state = workflow;
  next_attempt_at_ms = unix_milli retry_at;
  lease = none;
  last_classification = some c;
  updated_at = now;
}

unfoldable pub finish_extraction_attempt :
    Store → ℕ → ℕ → Text → ℕ → Outcome → QueueState → Workflow → ℕ → Result Store
finish_extraction_attempt s now rid owner attempt c state workflow retry_at = do
  j ← or_lease_lost (active_extraction s rid owner attempt now)
  attempts ←
      insert_attempt extraction_outcome (extraction_attempt rid j.attempt_count c now)
        s.extraction_attempts
  jobs ← update_jobs (of_recording rid) (finish_job state workflow retry_at c now) s.extraction_jobs
  ok (record s { extraction_attempts = attempts; extraction_jobs = jobs })

unfoldable pub retry_extraction : Store → ℕ → ℕ → Text → ℕ → Outcome → ℕ → Result Store
retry_extraction s now rid owner attempt c retry_at =
    if not (valid_outcome c) || is_success c
    then err invalid_argument
    else finish_extraction_attempt s now rid owner attempt c retry retry_wait retry_at

-- `s.now()` is read again for the next attempt: `later`.
unfoldable pub review_extraction : Store → ℕ → ℕ → ℕ → Text → ℕ → Outcome → Result Store
review_extraction s later now rid owner attempt c =
    if not (valid_outcome c) || is_success c
    then err invalid_argument
    else finish_extraction_attempt s now rid owner attempt c in_review needs_review later

abbrev pub blocks_extraction : Outcome → Bool
blocks_extraction retryable = true
blocks_extraction authentication = true
blocks_extraction configuration = true
blocks_extraction malformed = true
blocks_extraction review = true
blocks_extraction _ = false

unfoldable pub block_extraction : Store → ℕ → ℕ → ℕ → Text → ℕ → Outcome → Workflow → Result Store
block_extraction s later now rid owner attempt c workflow =
    if not (blocks_extraction c) || not (is_terminal workflow)
    then err invalid_argument
    else finish_extraction_attempt s now rid owner attempt c in_review workflow later

abbrev no_evidence : List Evidence → Bool
no_evidence [] = true
no_evidence (e ∷ es) = false

unfoldable pub save_extraction_verification :
    Store → ℕ → ℕ → Text → ℕ → List Evidence → Result Store
save_extraction_verification s now rid owner attempt evidence =
    let matches = active_job rid (trim_space owner) attempt now in
    if no_evidence evidence
    then ok s
    else if not (count_rows matches s.extraction_jobs == 1)
    then err lease_lost
    else ok (record s {
      extraction_jobs =
          update_rows matches (λ (j : ExtractionJob). record j { verification = some evidence })
            s.extraction_jobs;
    })

-- `UPDATE recordings SET transcription = ''`.
unfoldable pub erase_transcription : ℕ → List Recording → List Recording
unfolding update_rows
erase_transcription rid =
    update_rows (λ (r : Recording). r.id == rid)
      (λ (r : Recording). record r { transcription = [] })

abbrev pub reject_job : ℕ → ExtractionJob → ExtractionJob
reject_job now j = record j {
  state = completed;
  workflow_state = complete;
  next_attempt_at_ms = unix_milli now;
  lease = none;
  last_classification = some review;
  updated_at = now;
  completed_at = some now;
}

unfoldable pub complete_rejected_extraction : Store → ℕ → ℕ → Text → ℕ → Result Store
complete_rejected_extraction s now rid owner attempt = do
  j ← or_lease_lost (active_extraction s rid owner attempt now)
  attempts ←
      insert_attempt extraction_outcome (extraction_attempt rid j.attempt_count review now)
        s.extraction_attempts
  jobs ← update_jobs (of_recording rid) (reject_job now) s.extraction_jobs
  ok (record s {
    extraction_attempts = attempts;
    recordings = erase_transcription rid s.recordings;
    extraction_jobs = jobs;
  })

-- RetryRecordingByID.
abbrev pub restart_job : ℕ → ExtractionJob → ExtractionJob
restart_job now j = record j {
  state = pending;
  workflow_state = received;
  cycle_attempt_count = 0;
  next_attempt_at_ms = unix_milli now;
  lease = none;
  last_classification = none;
  updated_at = now;
  completed_at = none;
}

abbrev pub restartable_job : ℕ → ExtractionJob → Bool
restartable_job rid j = j.recording_id == rid && is_terminal j.workflow_state

unfoldable pub retry_recording_by_id : Store → ℕ → ℕ → Result Store
retry_recording_by_id s now rid = do
  jobs ← update_jobs (restartable_job rid) (restart_job now) s.extraction_jobs
  if not (count_rows (restartable_job rid) s.extraction_jobs == 1)
      then err manual_retry_not_allowed
      else ok (record s { extraction_jobs = jobs })
