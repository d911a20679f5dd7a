-- ===== src/Queue/Evaluation/SameQueue.antt =====
-- The capture of evidence leaves the queue's tables alone.
use index_01_hook.Base.{ℕ, ◌≡◌, refl, subst, Option, none, some, ◌==◌, Bool-cases, inl, inr, arith}
use index_01_hook.Base.Text.{is_blank}
use index_01_hook.Queue.Types.{FrozenExtraction, Recording, EvaluationEvidence, Store, Outcome}
use index_01_hook.Queue.Schema.{ok, >>=-eq-ok, ok-injective}
use index_01_hook.Queue.Evaluation.{
  insert_evidence, capture_until, capture_recording, capture_evaluation_input,
  capture_evaluation_extraction, capture_evaluation_delivery, record_shadow_outcome,
  recording_by_id, capture_found,
}

-- The queue's tables of two states are the same.
pub record SameQueue (s t : Store) : Type 0 where
  pub jobs : t.extraction_jobs ≡ s.extraction_jobs
  pub attempts : t.extraction_attempts ≡ s.extraction_attempts
  pub tasks : t.delivery_tasks ≡ s.delivery_tasks
  pub task_attempts : t.delivery_attempts ≡ s.delivery_attempts
  pub extracted : t.extractions ≡ s.extractions

SameQueue-refl : (s : Store) → SameQueue s s
SameQueue-refl s = record {
  jobs = refl;
  attempts = refl;
  tasks = refl;
  task_attempts = refl;
  extracted = refl;
}

insert_evidence-SameQueue :
    (e : EvaluationEvidence) (s t : Store) → insert_evidence e s ≡ ok t → SameQueue s t
unfolding insert_evidence
insert_evidence-SameQueue e s t h = record {
  jobs = ground arith;
  attempts = ground arith;
  tasks = ground arith;
  task_attempts = ground arith;
  extracted = ground arith;
}

capture_until-SameQueue :
    (r : Recording) (now deadline : ℕ) (s t : Store)
    → capture_until r now deadline s ≡ ok t
    → SameQueue s t
unfolding capture_until
capture_until-SameQueue r now deadline s t h = record {
  jobs = ground arith;
  attempts = ground arith;
  tasks = ground arith;
  task_attempts = ground arith;
  extracted = ground arith;
}

capture_recording-SameQueue :
    (r : Recording) (o : Option ℕ) (now : ℕ) (s t : Store)
    → capture_recording r o now s ≡ ok t
    → SameQueue s t
unfolding capture_recording
capture_recording-SameQueue r (some deadline) now s t h =
    capture_until-SameQueue r now deadline s t h
capture_recording-SameQueue r none now s t h =
    let same = capture_until-SameQueue r now _ _ t h in
    record {
      jobs = same.jobs;
      attempts = same.attempts;
      tasks = same.tasks;
      task_attempts = same.task_attempts;
      extracted = same.extracted;
    }

capture_found-SameQueue :
    (o : Option Recording) (now : ℕ) (s t : Store) → capture_found o now s ≡ ok t → SameQueue s t
unfolding capture_found
capture_found-SameQueue none now s t h = cc
capture_found-SameQueue (some r) now s t h = elim (Bool-cases (is_blank r.transcription)) [
  | inl e ↦ subst (SameQueue s) (ok-injective (rw e at h)) (SameQueue-refl s)
  | inr e ↦ capture_recording-SameQueue r r.evaluation_expires_at_ms now s t (rw e at h)
]

pub capture_evaluation_input-SameQueue :
    (s : Store) (rid now : ℕ) (t : Store)
    → capture_evaluation_input s rid now ≡ ok t
    → SameQueue s t
unfolding capture_evaluation_input
capture_evaluation_input-SameQueue s rid now t h = elim (Bool-cases (s.evaluation_retention == 0)) [
  | inl e ↦ subst (SameQueue s) (ok-injective (rw e at h)) (SameQueue-refl s)
  | inr e ↦ capture_found-SameQueue (recording_by_id rid s.recordings) now s t (rw e at h)
]

pub capture_evaluation_extraction-SameQueue :
    (s : Store) (rid : ℕ) (x : FrozenExtraction) (now : ℕ) (t : Store)
    → capture_evaluation_extraction s rid x now ≡ ok t
    → SameQueue s t
unfolding capture_evaluation_extraction
capture_evaluation_extraction-SameQueue s rid x now t h =
    elim (Bool-cases (s.evaluation_retention == 0)) [
      | inl e ↦ subst (SameQueue s) (ok-injective (rw e at h)) (SameQueue-refl s)
      | inr e ↦
          let (u, captured, done) = >>=-eq-ok (capture_evaluation_input s rid now) _ (rw e at h) in
          let same = capture_evaluation_input-SameQueue s rid now u captured in
          subst (SameQueue s) (ok-injective done) (record {
            jobs = same.jobs;
            attempts = same.attempts;
            tasks = same.tasks;
            task_attempts = same.task_attempts;
            extracted = same.extracted;
          })
    ]

pub record_shadow_outcome-SameQueue :
    (c : Outcome) (rid task_id now : ℕ) (s : Store)
    → SameQueue s (record_shadow_outcome c rid task_id now s)
unfolding record_shadow_outcome
record_shadow_outcome-SameQueue c rid task_id now s = record {
  jobs = ground arith;
  attempts = ground arith;
  tasks = ground arith;
  task_attempts = ground arith;
  extracted = ground arith;
}

pub capture_evaluation_delivery-SameQueue :
    (s : Store) (task_id now : ℕ) → SameQueue s (capture_evaluation_delivery s task_id now)
unfolding capture_evaluation_delivery
capture_evaluation_delivery-SameQueue s task_id now = record {
  jobs = ground arith;
  attempts = ground arith;
  tasks = ground arith;
  task_attempts = ground arith;
  extracted = ground arith;
}

pub record_shadow_outcome-recordings :
    (c : Outcome) (rid task_id now : ℕ) (s : Store)
    → (record_shadow_outcome c rid task_id now s).recordings ≡ s.recordings
unfolding record_shadow_outcome
record_shadow_outcome-recordings c rid task_id now s = ground arith

pub capture_evaluation_delivery-recordings :
    (s : Store) (task_id now : ℕ)
    → (capture_evaluation_delivery s task_id now).recordings ≡ s.recordings
unfolding capture_evaluation_delivery
capture_evaluation_delivery-recordings s task_id now = ground arith
