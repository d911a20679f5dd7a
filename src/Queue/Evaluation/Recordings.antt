-- ===== src/Queue/Evaluation/Recordings.antt =====
-- The capture of evidence changes the deadline of a recording and nothing else of it.
use index_01_hook.Base.{
  ℕ, ◌≡◌, sym, subst, Bool, Option, none, some, List, ◌==◌, Bool-cases, inl, inr, arith,
}
use index_01_hook.Base.Rows.{update_rows}
use index_01_hook.Base.Text.{is_blank}
use index_01_hook.Queue.Types.{Recording, EvaluationEvidence, Store}
use index_01_hook.Queue.Schema.{ok, ok-injective}
use index_01_hook.Queue.Evaluation.{
  insert_evidence, capture_until, capture_recording, capture_evaluation_input, recording_by_id,
  capture_found,
}

abbrev pub set_deadline : ℕ → Recording → Recording
set_deadline deadline r = record r { evaluation_expires_at_ms = some deadline }

insert_evidence-recordings :
    (e : EvaluationEvidence) (s t : Store)
    → insert_evidence e s ≡ ok t
    → t.recordings ≡ s.recordings
unfolding insert_evidence
insert_evidence-recordings e s t h = ground arith

capture_until-recordings :
    (r : Recording) (now deadline : ℕ) (s t : Store)
    → capture_until r now deadline s ≡ ok t
    → t.recordings ≡ s.recordings
unfolding capture_until
capture_until-recordings r now deadline s t h = ground arith

module _ (P : List Recording → Type 0) (s t : Store) (now : ℕ) (as_before : P s.recordings)
    (dated : (q : Recording → Bool) (deadline : ℕ)
      → P (update_rows q (set_deadline deadline) s.recordings)) where
  capture_recording-recordings :
      (r : Recording) (o : Option ℕ) → capture_recording r o now s ≡ ok t → P t.recordings
  unfolding capture_recording
  capture_recording-recordings r (some deadline) h =
      subst P (sym (capture_until-recordings r now deadline s t h)) as_before
  capture_recording-recordings r none h =
      subst P (sym (capture_until-recordings r now _ _ t h)) (dated _ _)

  capture_found-recordings : (o : Option Recording) → capture_found o now s ≡ ok t → P t.recordings
  unfolding capture_found
  capture_found-recordings none h = cc
  capture_found-recordings (some r) h = elim (Bool-cases (is_blank r.transcription)) [
    | inl e ↦ subst (λ u. P u.recordings) (ok-injective (rw e at h)) as_before
    | inr e ↦ capture_recording-recordings r r.evaluation_expires_at_ms (rw e at h)
  ]

  -- What holds of the recordings, and of them with whatever deadlines, holds after a capture.
  pub capture_evaluation_input-recordings :
      (rid : ℕ) → capture_evaluation_input s rid now ≡ ok t → P t.recordings
  unfolding capture_evaluation_input
  capture_evaluation_input-recordings rid h = elim (Bool-cases (s.evaluation_retention == 0)) [
    | inl e ↦ subst (λ u. P u.recordings) (ok-injective (rw e at h)) as_before
    | inr e ↦ capture_found-recordings (recording_by_id rid s.recordings) (rw e at h)
  ]
