-- ===== src/Queue/Evaluation.antt =====
-- The part of evaluation_evidence.go that the queue's transactions call: the capture of evidence.
pub mod SameQueue
pub mod Recordings
pub mod Shadow
use index_01_hook.Base.{
  ℕ, ◌+◌, ◌*◌, Bool, true, false, not, ◌&&◌, Option, none, some, List, [], ◌∷◌, ◌++◌, ltb, ◌==◌,
  if◌then◌else◌,
}
use index_01_hook.Base.Rows.{any_row, find_row, update_rows}
use index_01_hook.Base.Text.{Text, text_eq, is_blank}
use index_01_hook.Queue.Types.{
  Outcome, Recording, EvaluationEvidence, EvaluationDelivery, FrozenExtraction, DeliveryTask,
  classified, ShadowRow, Store, unix_milli,
}
use index_01_hook.Queue.Schema.{Result, ok, err, no_rows, constraint, ◌>>=◌, is_completed}

-- `time.UnixMilli(deadline)` as an instant.
abbrev instant_of_millis : ℕ → ℕ
instant_of_millis ms = ms * 1_000_000

abbrev pub recording_by_id : ℕ → List Recording → Option Recording
recording_by_id rid = find_row (λ r. r.id == rid)

abbrev has_fingerprint : Text → EvaluationEvidence → Bool
has_fingerprint f e = text_eq e.recording_fingerprint f

-- The INSERT … ON CONFLICT DO NOTHING, with CHECK (expires_at_ms > captured_at_ms).
unfoldable pub insert_evidence : EvaluationEvidence → Store → Result Store
unfolding any_row text_eq
insert_evidence e s =
    if not (ltb e.captured_at_ms e.expires_at_ms)
    then err constraint
    else if any_row (has_fingerprint e.recording_fingerprint) s.evaluation_evidence
    then ok s
    else ok (record s { evaluation_evidence = s.evaluation_evidence ++ (e ∷ []) })

-- The evidence of a recording whose deadline is known.
unfoldable pub capture_until : Recording → ℕ → ℕ → Store → Result Store
unfolding insert_evidence
capture_until r now deadline s =
    if ltb now (instant_of_millis deadline)
    then insert_evidence
        (record {
          recording_fingerprint = r.payload_fingerprint;
          transcript = r.transcription;
          recorded_at_ms = r.recorded_at_ms;
          captured_at_ms = unix_milli r.first_received_at;
          expires_at_ms = deadline;
          extraction = none;
        })
        s
    else ok s

-- The first deadline of a recording is kept.
unfoldable pub capture_recording : Recording → Option ℕ → ℕ → Store → Result Store
unfolding capture_until update_rows
capture_recording r (some deadline) now s = capture_until r now deadline s
capture_recording r none now s =
    let deadline = unix_milli (r.first_received_at + s.evaluation_retention) in
    let recordings =
      update_rows (λ (q : Recording). q.id == r.id)
        (λ (q : Recording). record q { evaluation_expires_at_ms = some deadline }) s.recordings in
    capture_until r now deadline (record s { recordings = recordings })

unfoldable pub capture_found : Option Recording → ℕ → Store → Result Store
capture_found none now s = err no_rows
capture_found (some r) now s =
    if is_blank r.transcription then ok s else capture_recording r r.evaluation_expires_at_ms now s

-- `captureEvaluationInput`.
unfoldable pub capture_evaluation_input : Store → ℕ → ℕ → Result Store
capture_evaluation_input s rid now =
    if s.evaluation_retention == 0
    then ok s
    else capture_found (recording_by_id rid s.recordings) now s

abbrev pub live_evidence : Text → ℕ → EvaluationEvidence → Bool
live_evidence fingerprint now e =
    text_eq e.recording_fingerprint fingerprint && ltb (unix_milli now) e.expires_at_ms

abbrev no_extraction : EvaluationEvidence → Bool
no_extraction e = elim e.extraction [ none ↦ true | some x ↦ false ]

-- The subquery of a recording's fingerprint is NULL where there is none, and then no row matches.
set_extraction :
    Option Recording → ℕ → FrozenExtraction → List EvaluationEvidence → List EvaluationEvidence
unfolding update_rows text_eq
set_extraction none now x rows = rows
set_extraction (some r) now x rows =
    update_rows (λ e. live_evidence r.payload_fingerprint now e && no_extraction e)
      (λ e. record e { extraction = some x }) rows

-- `captureEvaluationExtraction`.
unfoldable pub capture_evaluation_extraction : Store → ℕ → FrozenExtraction → ℕ → Result Store
unfolding set_extraction
capture_evaluation_extraction s rid x now = if s.evaluation_retention == 0 then ok s else do
  t ← capture_evaluation_input s rid now
  ok (record t {
    evaluation_evidence =
        set_extraction (recording_by_id rid t.recordings) now x t.evaluation_evidence;
  })

abbrev or_empty : Option Text → Text
or_empty none = []
or_empty (some t) = t

-- The join of a completed task with its recording and its live evidence, ON CONFLICT DO NOTHING.
capture_task : DeliveryTask → Recording → ℕ → Store → Store
unfolding any_row text_eq
capture_task d r now s =
    if is_completed d.state
      && any_row (live_evidence r.payload_fingerprint now) s.evaluation_evidence
      && not (
          any_row
            (λ (e : EvaluationDelivery).
              text_eq e.recording_fingerprint r.payload_fingerprint && e.item_index == d.task_index)
            s.evaluation_deliveries)
    then record s {
      evaluation_deliveries =
          s.evaluation_deliveries
          ++ (record {
            recording_fingerprint = r.payload_fingerprint;
            item_index = d.task_index;
            task_id = or_empty d.tick_tick_task_id;
            project_id = or_empty d.tick_tick_project_id;
            item_kind = d.kind;
            title = d.title;
          }
              ∷ []);
    }
    else s

-- `captureEvaluationDelivery`.
unfoldable pub capture_evaluation_delivery : Store → ℕ → ℕ → Store
unfolding capture_task find_row
capture_evaluation_delivery s task_id now =
    if s.evaluation_retention == 0
    then s
    else elim (find_row (λ (d : DeliveryTask). d.id == task_id) s.delivery_tasks) [
      | none ↦ s
      | some d ↦ elim (recording_by_id d.recording_id s.recordings) [
        | none ↦ s
        | some r ↦ capture_task d r now s
      ]
    ]

-- The UPDATE of the shadow rows of a task that has an outcome.
unfoldable pub record_shadow_outcome : Outcome → ℕ → ℕ → ℕ → Store → Store
unfolding find_row update_rows text_eq
record_shadow_outcome outcome rid task_id now s = elim (recording_by_id rid s.recordings) [
  | none ↦ s
  | some r ↦ elim (find_row (λ (d : DeliveryTask). d.id == task_id) s.delivery_tasks) [
    | none ↦ s
    | some d ↦ record s {
      shadow_verifications =
          update_rows
            (λ (v : ShadowRow).
              text_eq v.recording_fingerprint r.payload_fingerprint
              && v.item_index == d.task_index
              && ltb (unix_milli now) v.expires_at_ms)
            (λ (v : ShadowRow). record v { outcome = classified outcome }) s.shadow_verifications;
    }
  ]
]
