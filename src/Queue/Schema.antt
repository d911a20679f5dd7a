-- ===== src/Queue/Schema.antt =====
-- Tests on states and outcomes, and the statements that the schema's constraints and triggers guard.
use index_01_hook.Base.{
  ℕ, ◌≡◌, refl, sym, Bool, true, false, not, ◌&&◌, ◌||◌, Option, some, List, [], ◌∷◌, ◌++◌, ◌==◌,
  if◌then◌else◌,
}
use index_01_hook.Base.Rows.{any_row, update_rows}
use index_01_hook.Queue.Types.{
  Outcome, success, ambiguous, created, reconciled, unknown, QueueState, pending, leased, retry,
  frozen, completed, Workflow, received, extracting, extracted, creating, retry_wait, blocked_auth,
  needs_review, dead_letter, complete, Domain, extraction, delivery, Attempt, ExtractionJob,
  DeliveryTask,
}

-- What an operation refuses with. A refused operation rolls its transaction back.
pub data StoreError : Type 0 where
  invalid_argument invalid_extraction no_rows lease_lost already_frozen : StoreError
  manual_retry_not_allowed constraint illegal_transition invalid_marker : StoreError

-- A refusal carries its reason, anything else the value read or the rows written.
pub data Result {ℓ} (Value : Type ℓ) : Type ℓ where
  err : (reason : StoreError) → Result Value
  ok : (value : Value) → Result Value

abbrev pub is_leased : QueueState → Bool
is_leased leased = true
is_leased _ = false

abbrev pub is_waiting : QueueState → Bool
is_waiting pending = true
is_waiting retry = true
is_waiting _ = false

abbrev pub is_completed : QueueState → Bool
is_completed completed = true
is_completed _ = false

abbrev pub is_settled : QueueState → Bool
is_settled frozen = true
is_settled completed = true
is_settled _ = false

-- The states that end a cycle and that an operator may retry.
abbrev pub is_terminal : Workflow → Bool
is_terminal blocked_auth = true
is_terminal needs_review = true
is_terminal dead_letter = true
is_terminal _ = false

abbrev pub is_ambiguous : Option Outcome → Bool
is_ambiguous (some ambiguous) = true
is_ambiguous _ = false

-- Statements in sequence: the first refusal ends the transaction.
abbrev pub ◌>>=◌ {ℓ κ} :
    {Value : Type ℓ} {Next : Type κ} → Result Value → (Value → Result Next) → Result Next

infixl 10 ◌>>=◌
err reason >>= _ = err reason
ok value >>= next = next value

-- `validOutcome`.
unfoldable pub valid_outcome : Outcome → Bool
valid_outcome unknown = false
valid_outcome _ = true

-- `classification == OutcomeSuccess || … OutcomeCreated || … OutcomeReconciled`.
abbrev pub is_success : Outcome → Bool
is_success success = true
is_success created = true
is_success reconciled = true
is_success _ = false

-- The CHECK on `extraction_jobs.last_classification` and `extraction_attempts.classification`.
abbrev pub extraction_outcome : Outcome → Bool
extraction_outcome created = false
extraction_outcome reconciled = false
extraction_outcome unknown = false
extraction_outcome _ = true

-- The CHECK on the classifications of deliveries.
abbrev pub delivery_outcome : Outcome → Bool
delivery_outcome success = false
delivery_outcome unknown = false
delivery_outcome _ = true

-- The table `workflow_transitions`, with the states that stay as they are.
unfoldable pub allowed_transition : Domain → Workflow → Workflow → Bool
allowed_transition extraction received extracting = true
allowed_transition extraction retry_wait extracting = true
allowed_transition extraction extracting extracted = true
allowed_transition extraction extracting retry_wait = true
allowed_transition extraction extracting blocked_auth = true
allowed_transition extraction extracting needs_review = true
allowed_transition extraction extracting dead_letter = true
allowed_transition extraction extracting complete = true
allowed_transition extraction blocked_auth received = true
allowed_transition extraction needs_review received = true
allowed_transition extraction dead_letter received = true
allowed_transition extraction extracted complete = true
allowed_transition delivery extracted creating = true
allowed_transition delivery retry_wait creating = true
allowed_transition delivery creating retry_wait = true
allowed_transition delivery creating blocked_auth = true
allowed_transition delivery creating needs_review = true
allowed_transition delivery creating dead_letter = true
allowed_transition delivery creating complete = true
allowed_transition delivery blocked_auth extracted = true
allowed_transition delivery needs_review extracted = true
allowed_transition delivery dead_letter extracted = true
allowed_transition domain received received = true
allowed_transition domain extracting extracting = true
allowed_transition domain extracted extracted = true
allowed_transition domain creating creating = true
allowed_transition domain retry_wait retry_wait = true
allowed_transition domain blocked_auth blocked_auth = true
allowed_transition domain needs_review needs_review = true
allowed_transition domain dead_letter dead_letter = true
allowed_transition domain complete complete = true
allowed_transition _ _ _ = false

-- An UPDATE that sets `workflow_state`: the trigger aborts it where a row's change is not allowed.
unfoldable pub update_jobs :
    (ExtractionJob → Bool)
    → (ExtractionJob → ExtractionJob)
    → List ExtractionJob
    → Result (List ExtractionJob)
unfolding any_row update_rows allowed_transition
update_jobs p f jobs =
    if any_row
      (λ j. p j && not (allowed_transition extraction j.workflow_state (f j).workflow_state)) jobs
    then err illegal_transition
    else ok (update_rows p f jobs)

unfoldable pub update_tasks :
    (DeliveryTask → Bool)
    → (DeliveryTask → DeliveryTask)
    → List DeliveryTask
    → Result (List DeliveryTask)
unfolding any_row update_rows allowed_transition
update_tasks p f tasks =
    if any_row (λ t. p t && not (allowed_transition delivery t.workflow_state (f t).workflow_state))
      tasks
    then err illegal_transition
    else ok (update_rows p f tasks)

abbrev same_attempt : ℕ → ℕ → Attempt → Bool
same_attempt of number a = a.of == of && a.attempt_number == number

-- An INSERT into an attempts table: `attempt_number > 0`, the CHECK on the classification, and
-- UNIQUE(of, attempt_number).
unfoldable pub insert_attempt : (Outcome → Bool) → Attempt → List Attempt → Result (List Attempt)
unfolding any_row
insert_attempt checked a attempts =
    if a.attempt_number == 0
      || not (checked a.classification)
      || any_row (same_attempt a.of a.attempt_number) attempts
    then err constraint
    else ok (attempts ++ (a ∷ []))

-- What a committed sequence read on its way.
pub >>=-eq-ok {ℓ κ} :
    {Value : Type ℓ} {Next : Type κ} (first : Result Value) (next : Value → Result Next)
    {last : Next}
    → (first >>= next) ≡ ok last
    → (value : Value) × (first ≡ ok value) × (next value ≡ ok last)
>>=-eq-ok (err reason) next committed = cc
>>=-eq-ok (ok value) next committed = (value, refl, committed)

-- A success has passed its guard.
pub guard-eq-ok {ℓ} :
    {A : Type ℓ} (b : Bool) (e : StoreError) (m : Result A) {a : A}
    → (if b then err e else m) ≡ ok a
    → (b ≡ false) × (m ≡ ok a)
guard-eq-ok true e m h = cc
guard-eq-ok false e m h = (refl, h)

pub ok_some-injective {ℓ κ} :
    {A : Type ℓ} {B : Type κ} {a c : A} {b d : B}
    → ◌≡◌ {A = Result (A × Option B)} (ok (a, some b)) (ok (c, some d))
    → (a ≡ c) × (b ≡ d)
ok_some-injective h = (cc, cc)

pub ok-injective {ℓ} : {A : Type ℓ} {a b : A} → ok a ≡ ok b → a ≡ b
ok-injective h = cc

-- Inversions of successful statements.
pub update_jobs-eq-ok :
    (p : ExtractionJob → Bool) (f : ExtractionJob → ExtractionJob) (jobs jobs' : List ExtractionJob)
    → update_jobs p f jobs ≡ ok jobs'
    → jobs' ≡ update_rows p f jobs
unfolding update_jobs
update_jobs-eq-ok p f jobs jobs' h = sym (ok-injective (guard-eq-ok _ illegal_transition _ h).1)

pub update_tasks-eq-ok :
    (p : DeliveryTask → Bool) (f : DeliveryTask → DeliveryTask) (tasks tasks' : List DeliveryTask)
    → update_tasks p f tasks ≡ ok tasks'
    → tasks' ≡ update_rows p f tasks
unfolding update_tasks
update_tasks-eq-ok p f tasks tasks' h = sym (ok-injective (guard-eq-ok _ illegal_transition _ h).1)

pub insert_attempt-eq-ok :
    (checked : Outcome → Bool) (a : Attempt) (attempts attempts' : List Attempt)
    → insert_attempt checked a attempts ≡ ok attempts'
    → attempts' ≡ attempts ++ (a ∷ [])
unfolding insert_attempt
insert_attempt-eq-ok checked a attempts attempts' h =
    sym (ok-injective (guard-eq-ok _ constraint _ h).1)
