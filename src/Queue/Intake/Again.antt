-- ===== src/Queue/Intake/Again.antt =====
-- SaveRecording keeps one recording for each payload, and is repeated without effect on the queue.
use index_01_hook.Base.{
  ℕ, ◌≡◌, refl, ap, subst, Bool, true, false, List, Bool-cases, inl, inr, ◌==◌, if◌then◌else◌,
}
use index_01_hook.Base.Rows.{update_rows}
use index_01_hook.Base.Text.{is_blank, trim_space}
use index_01_hook.Queue.Types.{Recording, Store}
use index_01_hook.Queue.Schema.{ok, >>=-eq-ok, ok-injective}
use index_01_hook.Queue.Evaluation.{capture_evaluation_input}
use index_01_hook.Queue.Evaluation.Recordings.{set_deadline, capture_evaluation_input-recordings}
use index_01_hook.Queue.Intake.{
  RecordingInput, Receipt, queue_job, upsert_recording, save_recording,
}
use index_01_hook.Queue.Intake.Payloads.{
  UniquePayloads, count-update_rows, upsert_recording-UniquePayloads,
}

module _ (P : List Recording → Type 0) (s t : Store) (id count now : ℕ) (as_before : P s.recordings)
    (dated : (q : Recording → Bool) (deadline : ℕ)
      → P (update_rows q (set_deadline deadline) s.recordings)) where
  queue_job-recordings : queue_job id count now s ≡ ok t → P t.recordings
  unfolding queue_job
  queue_job-recordings e = elim (Bool-cases (count == 1)) [
    | inl first ↦
        let (u, captured, done) = >>=-eq-ok (capture_evaluation_input s id now) _ (rw first at e) in
        subst (λ x. P x.recordings) (ok-injective done)
          (capture_evaluation_input-recordings P s u now as_before dated id captured)
    | inr again ↦ subst (λ x. P x.recordings) (ok-injective (rw again at e)) as_before
  ]

  dispatch-recordings :
      (silent : Bool) → (if silent then ok s else queue_job id count now s) ≡ ok t → P t.recordings
  dispatch-recordings true e = subst (λ x. P x.recordings) (ok-injective e) as_before
  dispatch-recordings false e = queue_job-recordings e

module _ (s t : Store) (now : ℕ) (input : RecordingInput) (receipt : Receipt)
    (saved : save_recording s now input ≡ ok (t, receipt)) where
  save_recording-recordings :
      (P : List Recording → Type 0)
      → P (upsert_recording now input s.recordings).0
      → ((q : Recording → Bool) (deadline : ℕ)
          → P (update_rows q (set_deadline deadline) (upsert_recording now input s.recordings).0))
      → P t.recordings
  unfolding save_recording
  save_recording-recordings P as_before dated =
      let (recordings, (id, receive_count)) = upsert_recording now input s.recordings in
      let (u, dispatched, done) =
        >>=-eq-ok
          (if is_blank (trim_space input.transcription)
            then ok (record s { recordings = recordings })
            else queue_job id receive_count now (record s { recordings = recordings }))
          _ saved in
      subst (λ (x : Store). P x.recordings) (ap (λ a. a.0) (ok-injective done))
        (dispatch-recordings P (record s { recordings = recordings }) u id receive_count now
          as_before dated (is_blank (trim_space input.transcription)) dispatched)

  -- Where each payload has at most one recording, a save that succeeds keeps that so.
  pub save_recording-UniquePayloads : UniquePayloads s.recordings → UniquePayloads t.recordings
  save_recording-UniquePayloads unique =
      let after = upsert_recording-UniquePayloads now input s.recordings unique in
      save_recording-recordings UniquePayloads after (λ q deadline f.
        rw
          (count-update_rows f q (set_deadline deadline) (λ r. refl)
            (upsert_recording now input s.recordings).0)
          (after f))
