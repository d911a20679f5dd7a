-- ===== src/Worker/Delivery/Laws.antt =====
-- What a worker does with a claimed delivery, whatever the provider answers.
use index_01_hook.Base.{
  ℕ, ◌+◌, ◌≤◌, ◌≡◌, refl, sym, subst, Bool, true, false, not, ◌||◌, ◌&&◌, some, arith, leb, length,
  All, if◌then◌else◌, Bool-cases, inl, inr, ◌==◌, &&_true,
}
use index_01_hook.Base.Rows.{any_row, any_row-find, find_row-sat, any_row_of_mem}
use index_01_hook.Base.Keys.{any_row-update_rows, find_row-mem}
use index_01_hook.Base.Text.{Text, is_blank, trim_space}
use index_01_hook.Application.Item.{ItemKind, task, note, other}
use index_01_hook.Application.Failure.{FailureKind}
use index_01_hook.Queue.Types.{
  Outcome, authentication, configuration, retryable, malformed, ambiguous, review, created,
  reconciled, QueueState, in_review, retry, Workflow, blocked_auth, needs_review, dead_letter,
  retry_wait, Store, DeliveryTask, DeliveryClaim, DeliveryCompletion,
}
use index_01_hook.Queue.Schema.{
  Result, ok, is_ambiguous, is_leased, is_completed, is_terminal, delivery_outcome, valid_outcome,
  is_success,
}
use index_01_hook.Queue.Frozen.{safe_provider_identifier}
use index_01_hook.Queue.Evaluation.SameQueue.{record_shadow_outcome-SameQueue}
use index_01_hook.Queue.Invariant.{Inv}
use index_01_hook.Queue.Invariant.Keeps.{Keeps}
use index_01_hook.Queue.Delivery.{
  active_delivery_lease, block_delivery, retry_delivery, retry_delivery_reconciliation, of_task,
  finish_task, complete_task, is_delivered, blocks_delivery, finish_delivery_attempt,
}
use index_01_hook.Queue.Extraction.Finish.{ends_attempt}
use index_01_hook.Queue.Delivery.Finish.{
  finish_delivery_attempt-active, finished, finished-Keeps, active_delivery_lease-Active,
}
use index_01_hook.Queue.Delivery.Complete.{complete_delivery_lem}
use index_01_hook.Worker.{WorkerConfig}
use index_01_hook.Worker.Provider.{
  Answer, answered, failed, Created, TaskInput, NoteInput, ReconciliationInput, Reconciliation,
  ReconciliationStatus, confirmed, unconfirmed, doubtful, unlisted, DeliveryProvider, is_create,
  classify_error,
}
use index_01_hook.Worker.Delivery.{
  Clock, block, complete, handle_delivery_error, handle_reconciliation_error, reconciled_as,
  after_reconciliation, after_create, process_delivery, process_kind, reconcile_delivery,
  retry_reconciliation, reconciliation_input,
}

-- A processed delivery makes at most one call of the provider, and where its lease was recovered
-- or its last classification is ambiguous no call is a create.
pub process_delivery-calls :
    (config : WorkerConfig) (clock : Clock) (claim : DeliveryClaim) (s : Store)
    (provider : DeliveryProvider)
    → let calls = (process_delivery config clock claim s provider).0 in
      (length calls ≤ 1)
      × ((claim.recovered_lease || is_ambiguous claim.last_classification) ≡ true
          → All (λ c. is_create c ≡ false) calls)
unfolding process_delivery reconcile_delivery
process_delivery-calls config clock claim s provider =
    calls_of claim.kind (claim.recovered_lease || is_ambiguous claim.last_classification)
  where
    calls_of :
        (kind : ItemKind) (in_doubt : Bool)
        → let calls = (process_kind config clock claim s provider kind in_doubt).0 in
          (length calls ≤ 1) × (in_doubt ≡ true → All (λ c. is_create c ≡ false) calls)
    calls_of other in_doubt = (omega arith, (λ _. tt))
    calls_of task true = (omega arith, (λ _. (refl, tt)))
    calls_of note true = (omega arith, (λ _. (refl, tt)))
    calls_of task false = (omega arith, (λ e. cc))
    calls_of note false = (omega arith, (λ e. cc))

-- The task holds no lease.
abbrev pub free_delivery : ℕ → DeliveryTask → Bool
free_delivery id t = t.id == id && not (is_leased t.state)

-- The task holds no lease, and is completed or on record as ambiguous.
abbrev pub settled_delivery : ℕ → DeliveryTask → Bool
settled_delivery id t =
    t.id == id
    && not (is_leased t.state)
    && (is_completed t.state || is_ambiguous t.last_classification)

module _ (config : WorkerConfig) (clock : Clock) (claim : DeliveryClaim) (s : Store)
    (t : DeliveryTask) (h : Inv s)
    (held : active_delivery_lease s claim.id config.owner clock.now ≡ some t) where
  named : t.id ≡ claim.id
  named = (active_delivery_lease-Active s claim.id config.owner clock.now t held).same_id

  -- The attempt ended: the store went on, and has a task of which `q` holds.
  abbrev pub Ends : (DeliveryTask → Bool) → Result Store → Type 0
  Ends q r = (u : Store) × (r ≡ ok u) × Keeps s u × (any_row q u.delivery_tasks ≡ true)

  finished-Ends :
      (q : DeliveryTask → Bool) (c : Outcome) (state : QueueState) (workflow : Workflow) (at : ℕ)
      (increment : Bool)
      → delivery_outcome c ≡ true
      → ends_attempt state workflow ≡ true
      → q (finish_task state workflow at c (if increment then 1 else 0) clock.now t) ≡ true
      → Ends q
          (finish_delivery_attempt s clock.now claim.id config.owner c state workflow at increment)
  finished-Ends q c state workflow at increment checked ends made =
      let active = active_delivery_lease-Active s claim.id config.owner clock.now t held in
      (
        finished s clock.now claim.id t c state workflow at increment,
        finish_delivery_attempt-active s clock.now claim.id config.owner t h held c state workflow
            at increment checked ends,
        finished-Keeps s clock.now claim.id config.owner t h held c state workflow at increment
            ends,
        subst (λ tasks. any_row q tasks ≡ true)
            (sym (record_shadow_outcome-SameQueue c t.recording_id claim.id clock.now _).tasks)
            (any_row-update_rows (of_task claim.id) q
              (finish_task state workflow at c (if increment then 1 else 0) clock.now) t
              s.delivery_tasks active.member (let e = active.same_id in ground arith) made),
      )

  block-Ends :
      (q : DeliveryTask → Bool) (c : Outcome) (workflow : Workflow)
      → blocks_delivery c ≡ true
      → is_terminal workflow ≡ true
      → q (finish_task in_review workflow clock.later c 0 clock.now t) ≡ true
      → Ends q (block config clock claim s c workflow)
  unfolding block_delivery
  block-Ends q c workflow blocks over made =
      let (u, done, keeps, there) =
        finished-Ends q c in_review workflow clock.later false (checked c blocks) over made in
      (u, rw (blocks, over) done, keeps, there)
    where
      checked : (o : Outcome) → blocks_delivery o ≡ true → delivery_outcome o ≡ true
      checked o e = ground arith

  complete-Ends :
      (c : Outcome) (task_id project_id : Text)
      → is_delivered c ≡ true
      → safe_provider_identifier task_id ≡ true
      → safe_provider_identifier project_id ≡ true
      → Ends (settled_delivery claim.id) (complete config clock claim s c task_id project_id)
  complete-Ends c task_id project_id delivered safe_task safe_project =
      let d : DeliveryCompletion = record {
        task_id = claim.id;
        lease_owner = config.owner;
        classification = c;
        tick_tick_task_id = task_id;
        tick_tick_project_id = project_id;
      } in
      let active = active_delivery_lease-Active s claim.id config.owner clock.now t held in
      let (u, done, keeps, tasks, _) =
        complete_delivery_lem s clock.now d t h held (rw (delivered, safe_task, safe_project)) in
      (
        u,
        done,
        keeps,
        subst (λ rows. any_row (settled_delivery claim.id) rows ≡ true) (sym tasks)
            (any_row-update_rows (of_task claim.id) (settled_delivery claim.id)
              (complete_task d clock.now) t s.delivery_tasks active.member
              (let e = active.same_id in ground arith) (let e = active.same_id in ground arith)),
      )

  -- Reconciliation that the provider answers with a listed status, or fails in one of the kinds
  -- that TickTick's adapter has.
  abbrev listed_kind : FailureKind → Bool
  listed_kind FailureKind.authentication = true
  listed_kind FailureKind.configuration = true
  listed_kind FailureKind.malformed = true
  listed_kind FailureKind.retryable = true
  listed_kind FailureKind.ambiguous_write = true
  listed_kind _ = false

  in_doubt-Ends :
      (workflow : Workflow)
      → is_terminal workflow ≡ true
      → Ends (settled_delivery claim.id) (block config clock claim s ambiguous workflow)
  in_doubt-Ends workflow over =
      block-Ends (settled_delivery claim.id) ambiguous workflow refl over
        (let e = named in ground arith)

  retried-Ends :
      (at : ℕ)
      → Ends
          (settled_delivery claim.id)
          (retry_delivery_reconciliation s clock.now claim.id config.owner at)
  unfolding retry_delivery_reconciliation
  retried-Ends at =
      finished-Ends (settled_delivery claim.id) ambiguous retry retry_wait at true refl refl
        (let e = named in ground arith)

  retry_reconciliation-Ends :
      Ends (settled_delivery claim.id) (retry_reconciliation config clock claim s)
  retry_reconciliation-Ends =
      elim (Bool-cases (leb config.reconcile_max_attempts (claim.reconcile_attempt_count + 1))) [
        | inl last ↦ rw last (in_doubt-Ends needs_review refl)
        | inr more ↦ rw more (retried-Ends _)
      ]

  handle_reconciliation_error-Ends :
      (kind : FailureKind)
      → listed_kind kind ≡ true
      → Ends (settled_delivery claim.id) (handle_reconciliation_error config clock claim s kind)
  unfolding handle_reconciliation_error
  handle_reconciliation_error-Ends FailureKind.authentication e = in_doubt-Ends blocked_auth refl
  handle_reconciliation_error-Ends FailureKind.configuration e = in_doubt-Ends needs_review refl
  handle_reconciliation_error-Ends FailureKind.malformed e = in_doubt-Ends needs_review refl
  handle_reconciliation_error-Ends FailureKind.retryable e = retry_reconciliation-Ends
  handle_reconciliation_error-Ends FailureKind.ambiguous_write e = retry_reconciliation-Ends
  handle_reconciliation_error-Ends FailureKind.review_required e = cc
  handle_reconciliation_error-Ends FailureKind.terminal e = cc
  handle_reconciliation_error-Ends FailureKind.unclassified e = cc

  abbrev listed_status : ReconciliationStatus → Bool
  listed_status unlisted = false
  listed_status _ = true

  abbrev listed_answer : Answer Reconciliation → Bool
  listed_answer (answered r) = listed_status r.status
  listed_answer (failed e) = listed_kind (classify_error e)

  -- The identifiers that a completion stores are ones that it accepts.
  abbrev safe_answer : Answer Reconciliation → Bool
  safe_answer (answered r) =
      is_blank (trim_space r.task_id)
      || is_blank (trim_space r.project_id)
      || (safe_provider_identifier r.task_id && safe_provider_identifier r.project_id)
  safe_answer (failed e) = true

  reconciled_as-Ends :
      (r : Reconciliation) (status : ReconciliationStatus)
      → listed_status status ≡ true
      → safe_answer (answered r) ≡ true
      → Ends (settled_delivery claim.id) (reconciled_as config clock claim s r status)
  unfolding reconciled_as
  reconciled_as-Ends r confirmed e safe =
      elim (Bool-cases (is_blank (trim_space r.task_id) || is_blank (trim_space r.project_id))) [
        | inl blank ↦ rw blank (in_doubt-Ends needs_review refl)
        | inr given ↦
            let both = &&_true _ _ (
              either_safe (is_blank (trim_space r.task_id)) (is_blank (trim_space r.project_id)) _
                given safe) in
            rw given (complete-Ends reconciled r.task_id r.project_id refl both.0 both.1)
      ]
    where
      either_safe : (a b c : Bool) → (a || b) ≡ false → (a || b || c) ≡ true → c ≡ true
      either_safe a b c x y = ground arith
  reconciled_as-Ends r doubtful e safe = in_doubt-Ends needs_review refl
  reconciled_as-Ends r unconfirmed e safe = in_doubt-Ends needs_review refl
  reconciled_as-Ends r unlisted e safe = cc

  after_reconciliation-Ends :
      (a : Answer Reconciliation)
      → listed_answer a ≡ true
      → safe_answer a ≡ true
      → Ends (settled_delivery claim.id) (after_reconciliation config clock claim s a)
  unfolding after_reconciliation
  after_reconciliation-Ends (answered r) listed safe = reconciled_as-Ends r r.status listed safe
  after_reconciliation-Ends (failed e) listed safe =
      handle_reconciliation_error-Ends (classify_error e) listed

  -- In a store that satisfies the invariant, a reconciliation under an active lease, answered with
  -- a listed status and acceptable identifiers or with a failure of the adapter's kinds, ends its
  -- attempt and leaves the task without a lease, completed or on record as ambiguous.
  pub reconcile_delivery-Ends :
      (provider : DeliveryProvider)
      → let answer = provider.reconcile_item (reconciliation_input config clock claim s) in
        listed_answer answer ≡ true
        → safe_answer answer ≡ true
        → Ends (settled_delivery claim.id) (reconcile_delivery config clock claim s provider).1
  unfolding reconcile_delivery
  reconcile_delivery-Ends provider listed safe = after_reconciliation-Ends _ listed safe

  Ends-mono :
      (p q : DeliveryTask → Bool) (r : Result Store)
      → ((d : DeliveryTask) → p d ≡ true → q d ≡ true)
      → Ends p r
      → Ends q r
  Ends-mono p q r weaker (u, done, keeps, there) =
      let (d, found) = any_row-find p u.delivery_tasks there in
      (
        u,
        done,
        keeps,
        any_row_of_mem q u.delivery_tasks d (find_row-mem p u.delivery_tasks d found)
            (weaker d (find_row-sat p u.delivery_tasks d found)),
      )

  settled-free :
      (r : Result Store) → Ends (settled_delivery claim.id) r → Ends (free_delivery claim.id) r
  settled-free r =
      Ends-mono (settled_delivery claim.id) (free_delivery claim.id) r (λ d e. ground arith)

  blocked :
      (c : Outcome) (workflow : Workflow)
      → blocks_delivery c ≡ true
      → is_terminal workflow ≡ true
      → Ends (free_delivery claim.id) (block config clock claim s c workflow)
  blocked c workflow blocks over =
      block-Ends (free_delivery claim.id) c workflow blocks over (let e = named in ground arith)

  retried :
      (c : Outcome) (at : ℕ)
      → (not (valid_outcome c) || is_success c) ≡ false
      → delivery_outcome c ≡ true
      → Ends (free_delivery claim.id) (retry_delivery s clock.now claim.id config.owner c at)
  unfolding retry_delivery
  retried c at passed checked =
      let (u, done, keeps, there) =
        finished-Ends (free_delivery claim.id) c retry retry_wait at false checked refl
          (let e = named in ground arith) in
      (u, rw passed done, keeps, there)

  handle_delivery_error-Ends :
      (kind : FailureKind)
      → Ends (free_delivery claim.id) (handle_delivery_error config clock claim s kind)
  unfolding handle_delivery_error valid_outcome
  handle_delivery_error-Ends FailureKind.authentication =
      blocked authentication blocked_auth refl refl
  handle_delivery_error-Ends FailureKind.configuration =
      blocked configuration needs_review refl refl
  handle_delivery_error-Ends FailureKind.malformed = blocked malformed dead_letter refl refl
  handle_delivery_error-Ends FailureKind.ambiguous_write = retried ambiguous _ refl refl
  handle_delivery_error-Ends FailureKind.retryable =
      elim (Bool-cases (leb config.delivery_max_attempts claim.cycle_attempt_number)) [
        | inl last ↦ rw last (blocked retryable dead_letter refl refl)
        | inr more ↦ rw more (retried retryable _ refl refl)
      ]
  handle_delivery_error-Ends FailureKind.review_required = blocked malformed dead_letter refl refl
  handle_delivery_error-Ends FailureKind.terminal = blocked malformed dead_letter refl refl
  handle_delivery_error-Ends FailureKind.unclassified = blocked malformed dead_letter refl refl

  abbrev safe_created : Answer Created → Bool
  safe_created (answered c) = safe_provider_identifier c.id && safe_provider_identifier c.project_id
  safe_created (failed e) = true

  after_create-Ends :
      (a : Answer Created)
      → safe_created a ≡ true
      → Ends (free_delivery claim.id) (after_create config clock claim s a)
  unfolding after_create
  after_create-Ends (answered c) safe =
      let both =
        &&_true (safe_provider_identifier c.id) (safe_provider_identifier c.project_id) safe in
      settled-free _ (complete-Ends created c.id c.project_id refl both.0 both.1)
  after_create-Ends (failed e) safe = handle_delivery_error-Ends (classify_error e)

  handled :
      (kind : FailureKind)
      → Ends (free_delivery claim.id) (handle_reconciliation_error config clock claim s kind)
  unfolding handle_reconciliation_error
  handled FailureKind.review_required = blocked review needs_review refl refl
  handled FailureKind.terminal = blocked review needs_review refl refl
  handled FailureKind.unclassified = blocked review needs_review refl refl
  handled FailureKind.authentication = settled-free _ (in_doubt-Ends blocked_auth refl)
  handled FailureKind.configuration = settled-free _ (in_doubt-Ends needs_review refl)
  handled FailureKind.malformed = settled-free _ (in_doubt-Ends needs_review refl)
  handled FailureKind.retryable = settled-free _ retry_reconciliation-Ends
  handled FailureKind.ambiguous_write = settled-free _ retry_reconciliation-Ends

  reconciled_free :
      (a : Answer Reconciliation)
      → safe_answer a ≡ true
      → Ends (free_delivery claim.id) (after_reconciliation config clock claim s a)
  unfolding after_reconciliation reconciled_as
  reconciled_free (failed e) safe = handled (classify_error e)
  reconciled_free (answered r) safe = by_status r.status
    where
      by_status :
          (status : ReconciliationStatus)
          → Ends (free_delivery claim.id) (reconciled_as config clock claim s r status)
      by_status unlisted = blocked malformed dead_letter refl refl
      by_status confirmed = settled-free _ (reconciled_as-Ends r confirmed refl safe)
      by_status doubtful = settled-free _ (in_doubt-Ends needs_review refl)
      by_status unconfirmed = settled-free _ (in_doubt-Ends needs_review refl)

  -- The provider gives identifiers that the store accepts.
  pub record SafeAnswers (provider : DeliveryProvider) : Type 0 where
    pub tasks :
        (project_alias : Text) (input : TaskInput)
        → safe_created (provider.create_task project_alias input) ≡ true
    pub notes : (input : NoteInput) → safe_created (provider.create_note input) ≡ true
    pub items : (input : ReconciliationInput) → safe_answer (provider.reconcile_item input) ≡ true

  -- In a store that satisfies the invariant, a delivery processed under its active lease, with a
  -- provider whose identifiers the store accepts and whatever else it answers, ends its attempt:
  -- the store accepts the result, keeps its invariant, and has the task without a lease.
  pub process_delivery-Ends :
      (provider : DeliveryProvider)
      → SafeAnswers provider
      → Ends (free_delivery claim.id) (process_delivery config clock claim s provider).1
  unfolding process_delivery reconcile_delivery
  process_delivery-Ends provider safe =
      by_kind claim.kind (claim.recovered_lease || is_ambiguous claim.last_classification)
    where
      by_kind :
          (kind : ItemKind) (in_doubt : Bool)
          → Ends
              (free_delivery claim.id)
              (process_kind config clock claim s provider kind in_doubt).1
      by_kind other in_doubt = blocked malformed dead_letter refl refl
      by_kind task true = reconciled_free _ (safe.items _)
      by_kind note true = reconciled_free _ (safe.items _)
      by_kind task false = after_create-Ends _ (safe.tasks _ _)
      by_kind note false = after_create-Ends _ (safe.notes _)
