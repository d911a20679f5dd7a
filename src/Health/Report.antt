-- ===== src/Health/Report.antt =====
-- OperationalStatus of health.go and the reasons for which it is degraded.
use index_01_hook.Base.{
  ℕ, ◌+◌, ◌-◌, ◌/◌, ◌*◌, Bool, true, false, not, ◌&&◌, ◌||◌, Option, none, some, List, [], ◌∷◌,
  ◌++◌, ltb, leb, if◌then◌else◌, length,
}
use index_01_hook.Base.Rows.{count_rows}
use index_01_hook.Queue.Types.{
  Workflow, retry_wait, blocked_auth, needs_review, dead_letter, complete, Store, Recording,
  ExtractionJob, DeliveryTask,
}
use index_01_hook.Health.{WorkerHealth, WorkerState, running, stopped, Latency, no_latency}
use index_01_hook.Health.Stamp.{stamp_before, first_stamp}

-- Durations in nanoseconds.
abbrev pub seconds : ℕ → ℕ
seconds n = n * 1_000_000_000

abbrev pub worker_stale_after : ℕ
worker_stale_after = seconds 120

abbrev pub queue_delayed_after_seconds : ℕ
queue_delayed_after_seconds = 900

abbrev pub provider_slow_after_ms : ℕ
provider_slow_after_ms = 25_000

abbrev pub provider_slow_recover_after : ℕ
provider_slow_recover_after = seconds 300

pub record IntakeStatus : Type 0 where
  pub retained_unique_recordings : ℕ
  pub retained_receive_count : ℕ
  pub last_received_at : Option ℕ
  pub last_duplicate : Bool
  pub last_response_status : Option ℕ

pub data ReportedState : Type 0 where
  missing_worker : ReportedState
  reported : WorkerState → ReportedState

pub record WorkerStatus : Type 0 where
  pub state : ReportedState
  pub stale : Bool
  pub started_at : Option ℕ
  pub heartbeat_at : Option ℕ
  pub last_cycle_started_at : Option ℕ
  pub last_cycle_completed_at : Option ℕ
  pub last_cycle_failed : Bool

pub record QueueStatus : Type 0 where
  pub active : ℕ
  pub oldest_active_age_seconds : ℕ
  pub retries : ℕ
  pub blocked_authentication : ℕ
  pub needs_review_count : ℕ
  pub dead_letters : ℕ

pub record LatencyStatus : Type 0 where
  pub last_latency_milliseconds : ℕ
  pub last_observed_at : Option ℕ
  pub last_failed : Bool

pub data Reason : Type 0 where
  worker_missing worker_stopped worker_stale worker_cycle_failed queue_delayed : Reason
  blocked_authentication review_needed dead_lettered : Reason
  deepseek_slow ticktick_slow typesafe_slow : Reason

pub record OperationalStatus : Type 0 where
  pub degraded : Bool
  pub checked_at : ℕ
  pub reasons : List Reason
  pub intake : IntakeStatus
  pub worker : WorkerStatus
  pub queue : QueueStatus
  pub deepseek : LatencyStatus
  pub ticktick : LatencyStatus
  pub typesafe : LatencyStatus

abbrev pub missing_status : WorkerStatus
missing_status = record {
  state = missing_worker;
  stale = false;
  started_at = none;
  heartbeat_at = none;
  last_cycle_started_at = none;
  last_cycle_completed_at = none;
  last_cycle_failed = false;
}

abbrev pub worker_status : Option WorkerHealth → ℕ → WorkerStatus
worker_status none now = missing_status
worker_status (some h) now = record {
  state = reported h.state;
  stale = ltb (h.heartbeat_at + worker_stale_after) now;
  started_at = some h.started_at;
  heartbeat_at = some h.heartbeat_at;
  last_cycle_started_at = h.last_cycle_started_at;
  last_cycle_completed_at = h.last_cycle_completed_at;
  last_cycle_failed = h.last_cycle_failed;
}

abbrev or_zero : Option ℕ → ℕ
or_zero none = 0
or_zero (some n) = n

-- `providerLatencyStatus`.
abbrev pub provider_latency_status : Latency → LatencyStatus
provider_latency_status l = record {
  last_latency_milliseconds = or_zero l.last_latency_ms;
  last_observed_at = l.last_observed_at;
  last_failed = l.last_failed;
}

abbrev pub latency_of : (WorkerHealth → Latency) → Option WorkerHealth → LatencyStatus
latency_of column none = provider_latency_status no_latency
latency_of column (some h) = provider_latency_status (column h)

-- The row that is last by the text of `last_received_at` and then by `id`.
abbrev received_after : Recording → Recording → Bool
received_after a b =
    stamp_before b.last_received_at a.last_received_at
    || (not (stamp_before a.last_received_at b.last_received_at) && ltb b.id a.id)

abbrev later_received : Recording → Option Recording → Recording
later_received r none = r
later_received r (some q) = if received_after q r then q else r

unfoldable pub latest_recording : List Recording → Option Recording
unfolding stamp_before
latest_recording [] = none
latest_recording (r ∷ rs) = some (later_received r (latest_recording rs))

unfoldable pub sum_received : List Recording → ℕ
sum_received [] = 0
sum_received (r ∷ rs) = r.receive_count + sum_received rs

abbrev intake_status : Option Recording → List Recording → IntakeStatus
intake_status none rows = record {
  retained_unique_recordings = length rows;
  retained_receive_count = sum_received rows;
  last_received_at = none;
  last_duplicate = false;
  last_response_status = none;
}
intake_status (some r) rows = record {
  retained_unique_recordings = length rows;
  retained_receive_count = sum_received rows;
  last_received_at = some r.last_received_at;
  last_duplicate = ltb 1 r.receive_count;
  last_response_status = some (if ltb 1 r.receive_count then 200 else 202);
}

abbrev pub is_active : Workflow → Bool
is_active complete = false
is_active _ = true

-- `created_at` of the rows of `active_queue`.
unfoldable pub active_jobs_created : List ExtractionJob → List ℕ
active_jobs_created [] = []
active_jobs_created (j ∷ js) =
    let rest = active_jobs_created js in
    if is_active j.workflow_state then j.created_at ∷ rest else rest

unfoldable pub active_tasks_created : List DeliveryTask → List ℕ
active_tasks_created [] = []
active_tasks_created (t ∷ ts) =
    let rest = active_tasks_created ts in
    if is_active t.workflow_state then t.created_at ∷ rest else rest

unfoldable pub active_created : Store → List ℕ
unfolding active_jobs_created active_tasks_created
active_created s = active_jobs_created s.extraction_jobs ++ active_tasks_created s.delivery_tasks

abbrev pub in_retry_wait : Workflow → Bool
in_retry_wait retry_wait = true
in_retry_wait _ = false

abbrev pub in_blocked_auth : Workflow → Bool
in_blocked_auth blocked_auth = true
in_blocked_auth _ = false

abbrev pub in_needs_review : Workflow → Bool
in_needs_review needs_review = true
in_needs_review _ = false

abbrev pub in_dead_letter : Workflow → Bool
in_dead_letter dead_letter = true
in_dead_letter _ = false

-- The rows of both queues in a state.
unfoldable pub count_state : (Workflow → Bool) → Store → ℕ
unfolding count_rows
count_state p s =
    count_rows (λ (j : ExtractionJob). p j.workflow_state) s.extraction_jobs
    + count_rows (λ (t : DeliveryTask). p t.workflow_state) s.delivery_tasks

-- Whole seconds, and none for an instant that lies ahead.
abbrev pub age_seconds : ℕ → Option ℕ → ℕ
age_seconds now none = 0
age_seconds now (some oldest) = (now - oldest) / 1_000_000_000

unfoldable pub queue_status : Store → ℕ → QueueStatus
unfolding first_stamp active_created count_state
queue_status s now = record {
  active = length (active_created s);
  oldest_active_age_seconds = age_seconds now (first_stamp (active_created s));
  retries = count_state in_retry_wait s;
  blocked_authentication = count_state in_blocked_auth s;
  needs_review_count = count_state in_needs_review s;
  dead_letters = count_state in_dead_letter s;
}

abbrev fresh_observation : ℕ → Option ℕ → Bool
fresh_observation now none = false
fresh_observation now (some at) = leb at now && leb now (at + provider_slow_recover_after)

-- `providerSlowDegraded`.
abbrev pub provider_slow_degraded : LatencyStatus → ℕ → Bool
provider_slow_degraded l now =
    ltb provider_slow_after_ms l.last_latency_milliseconds
    && fresh_observation now l.last_observed_at

abbrev pub reason_if : Bool → Reason → List Reason
reason_if true r = r ∷ []
reason_if false r = []

abbrev pub worker_reason : WorkerStatus → ReportedState → List Reason
worker_reason w missing_worker = worker_missing ∷ []
worker_reason w (reported stopped) = worker_stopped ∷ []
worker_reason w (reported running) = reason_if w.stale worker_stale

-- `healthReasons`.
unfoldable pub health_reasons :
    WorkerStatus → QueueStatus → LatencyStatus → LatencyStatus → LatencyStatus → ℕ → List Reason
health_reasons w q deepseek ticktick typesafe checked_at =
    worker_reason w w.state
    ++ (reason_if w.last_cycle_failed worker_cycle_failed
        ++ (reason_if (ltb queue_delayed_after_seconds q.oldest_active_age_seconds) queue_delayed
            ++ (reason_if (ltb 0 q.blocked_authentication) Reason.blocked_authentication
                ++ (reason_if (ltb 0 q.needs_review_count) review_needed
                    ++ (reason_if (ltb 0 q.dead_letters) dead_lettered
                        ++ (reason_if (provider_slow_degraded deepseek checked_at) deepseek_slow
                            ++ (reason_if (provider_slow_degraded ticktick checked_at) ticktick_slow
                                ++ reason_if (provider_slow_degraded typesafe checked_at)
                                    typesafe_slow)))))))

abbrev pub has_reasons : List Reason → Bool
has_reasons [] = false
has_reasons (r ∷ rs) = true

-- `OperationalStatus`; its errors are those of the database alone.
unfoldable pub operational_status : Option WorkerHealth → Store → ℕ → OperationalStatus
unfolding queue_status health_reasons latest_recording sum_received
operational_status h s now =
    let w = worker_status h now in
    let q = queue_status s now in
    let deepseek = latency_of (λ (r : WorkerHealth). r.deepseek_latency) h in
    let ticktick = latency_of (λ (r : WorkerHealth). r.ticktick_latency) h in
    let typesafe = latency_of (λ (r : WorkerHealth). r.typesafe_latency) h in
    let reasons = health_reasons w q deepseek ticktick typesafe now in
    record {
      degraded = has_reasons reasons;
      checked_at = now;
      reasons = reasons;
      intake = intake_status (latest_recording s.recordings) s.recordings;
      worker = w;
      queue = q;
      deepseek = deepseek;
      ticktick = ticktick;
      typesafe = typesafe;
    }
