-- ===== src/Queue/Intake.antt =====
-- SaveRecording of store.go: one row for each fingerprint, and one extraction job for its text.
pub mod Keeps
pub mod Payloads
pub mod Again
use index_01_hook.Base.{
  ℕ, ◌+◌, Bool, true, false, not, ◌&&◌, ◌||◌, Option, none, some, List, [], ◌∷◌, ◌++◌, ltb, ◌==◌,
  if◌then◌else◌,
}
use index_01_hook.Base.Int.{ℤ}
use index_01_hook.Base.Rows.{any_row, find_row, update_rows, next_id}
use index_01_hook.Base.Text.{Text, text_eq, is_blank, trim_space}
use index_01_hook.Queue.Types.{
  pending, in_review, QueueState, received, Recording, ExtractionJob, Store, unix_milli,
}
use index_01_hook.Queue.Schema.{Result, ok, ◌>>=◌, is_completed}
use index_01_hook.Queue.Evaluation.{capture_evaluation_input}

pub record RecordingInput : Type 0 where
  pub recorded_at_millis : ℤ
  pub client : Text
  pub trigger : Text
  pub transcription : Text
  pub audio_filename : Text
  pub audio_byte_count : ℕ
  pub fingerprint : Text

pub record Receipt : Type 0 where
  pub id : ℕ
  pub duplicate : Bool
  pub queued : Bool

abbrev pub has_payload : Text → Recording → Bool
has_payload f r = text_eq r.payload_fingerprint f

abbrev pub new_recording : ℕ → ℕ → RecordingInput → Recording
new_recording id now input = record {
  id = id;
  recorded_at_ms = input.recorded_at_millis;
  client = input.client;
  trigger = input.trigger;
  transcription = input.transcription;
  audio_filename = input.audio_filename;
  audio_byte_count = input.audio_byte_count;
  payload_fingerprint = input.fingerprint;
  receive_count = 1;
  first_received_at = now;
  last_received_at = now;
  evaluation_expires_at_ms = none;
}

abbrev pub receive_again : ℕ → Recording → Recording
receive_again now r = record r { receive_count = r.receive_count + 1; last_received_at = now }

abbrev pub upsert_found :
    ℕ → RecordingInput → List Recording → Option Recording → List Recording × (ℕ × ℕ)
upsert_found now input recordings none =
    let id = next_id (λ (r : Recording). r.id) recordings in
    (recordings ++ (new_recording id now input ∷ []), (id, 1))
upsert_found now input recordings (some r) = (
  update_rows (has_payload input.fingerprint) (receive_again now) recordings,
  (r.id, r.receive_count + 1),
)

-- INSERT … ON CONFLICT(payload_fingerprint) DO UPDATE … RETURNING id, receive_count.
unfoldable pub upsert_recording : ℕ → RecordingInput → List Recording → List Recording × (ℕ × ℕ)
upsert_recording now input recordings =
    upsert_found now input recordings (find_row (has_payload input.fingerprint) recordings)

abbrev pub job_of : ℕ → ExtractionJob → Bool
job_of rid j = j.recording_id == rid

abbrev pub new_job : ℕ → ℕ → ExtractionJob
new_job rid now = record {
  recording_id = rid;
  state = pending;
  workflow_state = received;
  attempt_count = 0;
  cycle_attempt_count = 0;
  next_attempt_at_ms = unix_milli now;
  lease = none;
  last_classification = none;
  created_at = now;
  updated_at = now;
  completed_at = none;
  verification = none;
}

-- INSERT … ON CONFLICT(recording_id) DO NOTHING.
unfoldable pub insert_job : ℕ → ℕ → List ExtractionJob → List ExtractionJob
unfolding any_row
insert_job rid now jobs = if any_row (job_of rid) jobs then jobs else jobs ++ (new_job rid now ∷ [])

abbrev pub is_reviewed : QueueState → Bool
is_reviewed in_review = true
is_reviewed _ = false

-- The job of a recording is there and has neither completed nor gone to review.
unfoldable pub is_queued : ℕ → List ExtractionJob → Bool
unfolding any_row
is_queued rid =
    any_row
      (λ (j : ExtractionJob). job_of rid j && not (is_completed j.state || is_reviewed j.state))

-- The dispatch of a recording that has text.
unfoldable pub queue_job : ℕ → ℕ → ℕ → Store → Result Store
queue_job id receive_count now s =
    if receive_count == 1
    then (do
      t ← capture_evaluation_input s id now
      ok (record t { extraction_jobs = insert_job id now t.extraction_jobs }))
    else ok (record s { extraction_jobs = insert_job id now s.extraction_jobs })

unfoldable pub save_recording : Store → ℕ → RecordingInput → Result (Store × Receipt)
save_recording s now input =
    let (recordings, (id, receive_count)) = upsert_recording now input s.recordings in
    let saved = record s { recordings = recordings } in
    do
      t ←
          (if is_blank (trim_space input.transcription)
            then ok saved
            else queue_job id receive_count now saved)
      ok (
        t,
        record {
          id = id;
          duplicate = ltb 1 receive_count;
          queued = is_queued id t.extraction_jobs;
        },
      )
