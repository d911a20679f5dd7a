-- ===== src/Worker/Extraction/Laws.antt =====
-- What a worker does with a claimed extraction that does not become tasks, and what verification keeps.
use index_01_hook.Base.{
  ℕ, ◌≡◌, refl, sym, ◌∙◌, ap, Bool, true, false, not, ◌||◌, ◌&&◌, some, List, [], ◌∷◌, ◌++◌, arith,
  length, All, ◌+◌, Bool-cases, inl, inr, ◌==◌,
}
use index_01_hook.Base.Rows.{any_row}
use index_01_hook.Base.Keys.{any_row-update_rows}
use index_01_hook.Application.Item.{Item}
use index_01_hook.Application.Failure.{FailureKind}
use index_01_hook.Queue.Types.{
  Outcome, authentication, retryable, malformed, review, QueueState, in_review, retry, Workflow,
  blocked_auth, needs_review, dead_letter, retry_wait, Store, ExtractionJob, ExtractionClaim,
  Evidence,
}
use index_01_hook.Queue.Schema.{
  Result, ok, is_leased, is_terminal, is_success, valid_outcome, extraction_outcome,
}
use index_01_hook.Queue.Invariant.{Inv}
use index_01_hook.Queue.Invariant.Keeps.{Keeps}
use index_01_hook.Queue.Extraction.{
  active_extraction, of_recording, finish_job, finish_extraction_attempt, retry_extraction,
  review_extraction, block_extraction, blocks_extraction,
}
use index_01_hook.Queue.Extraction.Finish.{
  ends_attempt, finished, finished-Keeps, finish_extraction_attempt-active,
  active_extraction-Active,
}
use index_01_hook.Queue.Intake.{is_reviewed}
use index_01_hook.Worker.{WorkerConfig}
use index_01_hook.Worker.Retry.{retry_at}
use index_01_hook.Worker.Verifier.{
  TypeSafeErrorKind, Check, checked, check_failed, is_retryable, Verdict,
}
use index_01_hook.Worker.Delivery.{Clock}
use index_01_hook.Worker.Extraction.{
  Verified, verified, stopped, verified_first, verify_items, accepted_item, asks_review, block,
  send_to_review, try_again, exhausted, handle_extraction_error, handle_verification_error,
}

-- The job holds no lease, and is in review where the attempts of its cycle are used up.
abbrev pub ended_job : Bool → ℕ → ExtractionJob → Bool
ended_job spent rid j =
    j.recording_id == rid && not (is_leased j.state) && (not spent || is_reviewed j.state)

module _ (config : WorkerConfig) (clock : Clock) (claim : ExtractionClaim) (s : Store)
    (j : ExtractionJob) (h : Inv s)
    (held : active_extraction s claim.recording_id config.owner claim.attempt_number clock.now
      ≡ some j) where
  -- The attempt ended: the store went on, and the job was let go.
  abbrev pub Ends : Bool → Result Store → Type 0
  Ends spent r =
      (u : Store) × (r ≡ ok u)
      × Keeps s u
      × (any_row (ended_job spent claim.recording_id) u.extraction_jobs ≡ true)

  finished-Ends :
      (spent : Bool) (c : Outcome) (state : QueueState) (workflow : Workflow) (at : ℕ)
      → extraction_outcome c ≡ true
      → ends_attempt state workflow ≡ true
      → (not spent || is_reviewed state) ≡ true
      → is_leased state ≡ false
      → Ends spent (
          finish_extraction_attempt s clock.now claim.recording_id config.owner claim.attempt_number
            c state workflow at)
  finished-Ends spent c state workflow at fits ends kept free =
      let active =
        active_extraction-Active s claim.recording_id config.owner claim.attempt_number clock.now j
          held in
      (
        finished s clock.now claim.recording_id claim.attempt_number c state workflow at,
        finish_extraction_attempt-active s clock.now claim.recording_id config.owner
            claim.attempt_number j h held c state workflow at fits ends,
        finished-Keeps s clock.now claim.recording_id config.owner claim.attempt_number j h held c
            state workflow at ends,
        any_row-update_rows (of_recording claim.recording_id) (ended_job spent claim.recording_id)
            (finish_job state workflow at c clock.now) j s.extraction_jobs active.member
            (let e = active.same_recording in ground arith)
            (ended spent active.same_recording kept),
      )
    where
      ended :
          (b : Bool)
          → j.recording_id ≡ claim.recording_id
          → (not b || is_reviewed state) ≡ true
          → ended_job b claim.recording_id (finish_job state workflow at c clock.now j) ≡ true
      ended b e q =
          let named : (j.recording_id == claim.recording_id) ≡ true = ground arith in
          rw (named, free, q)

  reviewed : (b : Bool) → (not b || true) ≡ true
  reviewed true = refl
  reviewed false = refl

  blocked :
      (spent : Bool) (c : Outcome) (workflow : Workflow)
      → blocks_extraction c ≡ true
      → extraction_outcome c ≡ true
      → is_terminal workflow ≡ true
      → Ends spent (block config clock claim s c workflow)
  unfolding block_extraction
  blocked spent c workflow blocks fits over =
      let (u, done, keeps, there) =
        finished-Ends spent c in_review workflow clock.later fits over (reviewed _) refl in
      (u, rw (blocks, over) done, keeps, there)

  sent_to_review :
      (spent : Bool) (c : Outcome)
      → (not (valid_outcome c) || is_success c) ≡ false
      → extraction_outcome c ≡ true
      → Ends spent (send_to_review config clock claim s c)
  unfolding review_extraction
  sent_to_review spent c passed fits =
      let (u, done, keeps, there) =
        finished-Ends spent c in_review needs_review clock.later fits refl (reviewed _) refl in
      (u, rw passed done, keeps, there)

  tried_again : Ends false (try_again config clock claim s)
  unfolding retry_extraction valid_outcome
  tried_again =
      finished-Ends false retryable retry retry_wait
        (retry_at config clock.retry_now claim.cycle_attempt_number) refl refl refl refl

  -- In a store that satisfies the invariant, however an extraction fails under its active claim,
  -- its attempt ends: the store accepts the end, keeps its invariant, and has the job without a
  -- lease, in review where the cycle's attempts are used up.
  pub handle_extraction_error-Ends :
      (kind : FailureKind)
      → Ends (exhausted config clock claim) (handle_extraction_error config clock claim s kind)
  unfolding handle_extraction_error
  handle_extraction_error-Ends FailureKind.authentication =
      blocked _ authentication blocked_auth refl refl refl
  handle_extraction_error-Ends FailureKind.review_required =
      blocked _ review needs_review refl refl refl
  handle_extraction_error-Ends FailureKind.malformed =
      blocked _ malformed dead_letter refl refl refl
  handle_extraction_error-Ends FailureKind.terminal = blocked _ malformed dead_letter refl refl refl
  handle_extraction_error-Ends FailureKind.retryable =
      elim (Bool-cases (exhausted config clock claim)) [
        | inl spent ↦ rw spent (blocked true retryable dead_letter refl refl refl)
        | inr more ↦ rw more tried_again
      ]
  handle_extraction_error-Ends FailureKind.configuration =
      blocked _ malformed dead_letter refl refl refl
  handle_extraction_error-Ends FailureKind.ambiguous_write =
      blocked _ malformed dead_letter refl refl refl
  handle_extraction_error-Ends FailureKind.unclassified =
      blocked _ malformed dead_letter refl refl refl

  -- In a store that satisfies the invariant, however a verification fails under its active claim,
  -- the attempt ends: the store accepts the end, keeps its invariant, and has the job without a
  -- lease, in review where the cycle's attempts are used up.
  pub handle_verification_error-Ends :
      (kind : TypeSafeErrorKind)
      → Ends (exhausted config clock claim) (handle_verification_error config clock claim s kind)
  unfolding handle_verification_error valid_outcome
  handle_verification_error-Ends kind = elim (Bool-cases (is_retryable kind)) [
    | inr other ↦ rw other (sent_to_review _ review refl refl)
    | inl again ↦ elim (Bool-cases (exhausted config clock claim)) [
      | inl spent ↦ rw (again, spent) (sent_to_review true retryable refl refl)
      | inr more ↦ rw (again, more) tried_again
    ]
  ]

-- The verdict on an item, where the verifier gave one.
abbrev pub accepts : Check Verdict → List Item
accepts (check_failed kind) = []
accepts (checked v) = accepted_item v.decision v.item

abbrev pub Decides : Check Verdict → Type 0
Decides (check_failed kind) = ⊥
Decides (checked v) = asks_review v.decision ≡ false

abbrev pub accepted : (Item → Check Verdict) → List Item → List Item
accepted verify [] = []
accepted verify (item ∷ items) = accepts (verify item) ++ accepted verify items

verified-injective :
    (items kept : List Item) (es fs : List Evidence) (c d : Bool)
    → verified items es c ≡ verified kept fs d
    → (items ≡ kept) × (es ≡ fs) × (c ≡ d)
verified-injective items kept es fs c d e = (cc, cc, cc)

verified_first-inversion :
    (c : Check Verdict) (rest : Verified) (items : List Item) (evidence : List Evidence)
    → verified_first c rest ≡ verified items evidence false
    → (more : List Item) × (proofs : List Evidence) × (rest ≡ verified more proofs false)
      × Decides c
      × (items ≡ accepts c ++ more)
      × (length evidence ≡ length proofs + 1)
verified_first-inversion (check_failed kind) rest items evidence e = cc
verified_first-inversion (checked v) (stopped kind) items evidence e = cc
verified_first-inversion (checked v) (verified more proofs doubtful) items evidence e =
    let (kept, proven, decided) =
      verified-injective (accepted_item v.decision v.item ++ more) items (v.evidence ∷ proofs)
        evidence (asks_review v.decision || doubtful) false e in
    let (asked, doubted) = neither (asks_review v.decision) doubtful decided in
    (
      more,
      proofs,
      ap (verified more proofs) doubted,
      asked,
      sym kept,
      ap length (sym proven) ∙ (let n = length proofs in omega arith),
    )
  where
    neither : (a b : Bool) → (a || b) ≡ false → (a ≡ false) × (b ≡ false)
    neither a b q = (ground arith, ground arith)

-- Where the loop over the items reports no doubt, every item had a verdict that asks for no
-- review, what is kept is the accepted items in order, and there is one piece of evidence for each
-- item.
pub verify_items-decided :
    (verify : Item → Check Verdict) (items kept : List Item) (evidence : List Evidence)
    → verify_items verify items ≡ verified kept evidence false
    → All (λ item. Decides (verify item)) items
      × (kept ≡ accepted verify items)
      × (length evidence ≡ length items)
unfolding verify_items
verify_items-decided verify [] kept evidence e =
    let (kept_is, evidence_is, _) = verified-injective [] kept [] evidence false false e in
    (tt, sym kept_is, ap length (sym evidence_is))
verify_items-decided verify (item ∷ items) kept evidence e =
    let (more, proofs, rest, decided, kept_is, count) =
      verified_first-inversion (verify item) (verify_items verify items) kept evidence e in
    let (all_decided, more_is, counted) = verify_items-decided verify items more proofs rest in
    ((decided, all_decided), (rw (kept_is, more_is)), (rw (count, counted) (omega arith)))
