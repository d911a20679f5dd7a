-- ===== src/Queue/Evaluation/Shadow.antt =====
-- SaveShadowVerifications of evaluation_evidence.go; of a row the columns that ShadowRow has.
use index_01_hook.Base.{
  ℕ, ◌≡◌, refl, ◌∙◌, subst, Bool, true, false, ◌&&◌, ◌||◌, Option, none, some, List, [], ◌∷◌, ◌++◌,
  ◌==◌, if◌then◌else◌, Bool-cases, inl, inr,
}
use index_01_hook.Base.Int.{ℤ, pos, negsuc}
use index_01_hook.Base.Rows.{any_row, find_row, update_rows}
use index_01_hook.Base.Text.{Text, text_eq, is_blank, trim_space}
use index_01_hook.Queue.Types.{
  Outcome, created, reconciled, review, completed, in_review, QueueState, ShadowOutcome,
  shadow_queued, shadow_completed, classified, ShadowRow, DeliveryTask, EvaluationEvidence,
  Recording, Store,
}
use index_01_hook.Queue.Schema.{
  Result, ok, err, no_rows, constraint, invalid_argument, ◌>>=◌, >>=-eq-ok, ok-injective,
  guard-eq-ok,
}
use index_01_hook.Queue.Evaluation.{recording_by_id, live_evidence}
use index_01_hook.Queue.Evaluation.SameQueue.{SameQueue}

pub record ShadowVerification : Type 0 where
  pub item_index : ℤ
  pub decision : Text
  pub prompt_version : Text
  pub latency_milliseconds : ℤ
  pub input_tokens : ℤ

abbrev pub is_negative : ℤ → Bool
is_negative (pos n) = false
is_negative (negsuc n) = true

abbrev pub index_of : ℤ → ℕ
index_of (pos n) = n
index_of (negsuc n) = 0

abbrev pub classified_or : ShadowOutcome → Option Outcome → ShadowOutcome
classified_or other none = other
classified_or other (some c) = classified c

abbrev pub delivery_outcome : QueueState → Option Outcome → ShadowOutcome
delivery_outcome completed c = classified_or shadow_completed c
delivery_outcome in_review c = classified_or (classified review) c
delivery_outcome _ c = shadow_queued

-- An outcome of a delivery that was made stays.
abbrev pub kept_outcome : ShadowOutcome → ShadowOutcome → ShadowOutcome
kept_outcome (classified created) new = classified created
kept_outcome (classified reconciled) new = classified reconciled
kept_outcome shadow_completed new = shadow_completed
kept_outcome _ new = new

abbrev pub of_item : Text → ℕ → ShadowRow → Bool
of_item fingerprint index v = text_eq v.recording_fingerprint fingerprint && v.item_index == index

-- INSERT … ON CONFLICT DO UPDATE, which leaves the expiry of a row that is there.
unfoldable pub upsert_shadow : Text → ℕ → ShadowOutcome → ℕ → List ShadowRow → List ShadowRow
unfolding any_row update_rows text_eq
upsert_shadow fingerprint index outcome expires rows =
    if any_row (of_item fingerprint index) rows
    then update_rows (of_item fingerprint index)
        (λ (v : ShadowRow). record v { outcome = kept_outcome v.outcome outcome }) rows
    else rows
      ++ (record {
        recording_fingerprint = fingerprint;
        item_index = index;
        outcome = outcome;
        expires_at_ms = expires;
      }
          ∷ [])

abbrev pub of_index : ℕ → ℕ → DeliveryTask → Bool
of_index rid index d = d.recording_id == rid && d.task_index == index

module _ (fingerprint : Text) (expires rid : ℕ) where
  abbrev pub save_outcome : ShadowVerification → Store → Option DeliveryTask → Result Store
  save_outcome v s none = err no_rows
  save_outcome v s (some d) =
      if is_negative v.latency_milliseconds || is_negative v.input_tokens
      then err constraint
      else ok (record s {
        shadow_verifications =
            upsert_shadow fingerprint (index_of v.item_index)
              (delivery_outcome d.state d.last_classification) expires s.shadow_verifications;
      })

  abbrev pub save_shadow : ShadowVerification → Store → Result Store
  save_shadow v s =
      if is_negative v.item_index
        || is_blank (trim_space v.decision)
        || is_blank (trim_space v.prompt_version)
      then err invalid_argument
      else save_outcome v s (find_row (of_index rid (index_of v.item_index)) s.delivery_tasks)

  -- The loop over the results.
  unfoldable pub save_shadows : List ShadowVerification → Store → Result Store
  unfolding find_row trim_space upsert_shadow
  save_shadows [] s = ok s
  save_shadows (v ∷ vs) s = save_shadow v s >>= save_shadows vs

abbrev pub save_for_evidence :
    ℕ → ℕ → List ShadowVerification → Store → Recording → Option EvaluationEvidence → Result Store
save_for_evidence now rid results s r none = ok s
save_for_evidence now rid results s r (some e) =
    save_shadows r.payload_fingerprint e.expires_at_ms rid results s

abbrev pub save_for_recording :
    ℕ → ℕ → List ShadowVerification → Store → Option Recording → Result Store
save_for_recording now rid results s none = ok s
save_for_recording now rid results s (some r) =
    save_for_evidence now rid results s r
      (find_row (live_evidence r.payload_fingerprint now) s.evaluation_evidence)

abbrev pub is_empty : List ShadowVerification → Bool
is_empty [] = true
is_empty (v ∷ vs) = false

-- `SaveShadowVerifications`.
unfoldable pub save_shadow_verifications : Store → ℕ → ℕ → List ShadowVerification → Result Store
unfolding find_row text_eq save_shadows
save_shadow_verifications s now rid results =
    if is_empty results || s.evaluation_retention == 0
    then ok s
    else save_for_recording now rid results s (recording_by_id rid s.recordings)

SameQueue-same : (s : Store) → SameQueue s s
SameQueue-same s = record {
  jobs = refl;
  attempts = refl;
  tasks = refl;
  task_attempts = refl;
  extracted = refl;
}

SameQueue-trans : (s t u : Store) → SameQueue s t → SameQueue t u → SameQueue s u
SameQueue-trans s t u a b = record {
  jobs = b.jobs ∙ a.jobs;
  attempts = b.attempts ∙ a.attempts;
  tasks = b.tasks ∙ a.tasks;
  task_attempts = b.task_attempts ∙ a.task_attempts;
  extracted = b.extracted ∙ a.extracted;
}

module _ (fingerprint : Text) (expires rid : ℕ) where
  save_outcome-SameQueue :
      (v : ShadowVerification) (s t : Store) (o : Option DeliveryTask)
      → save_outcome fingerprint expires rid v s o ≡ ok t
      → SameQueue s t
  save_outcome-SameQueue v s t none h = cc
  save_outcome-SameQueue v s t (some d) h =
      let (_, done) =
        guard-eq-ok (is_negative v.latency_milliseconds || is_negative v.input_tokens) constraint _
          h in
      subst (SameQueue s) (ok-injective done) (record {
        jobs = refl;
        attempts = refl;
        tasks = refl;
        task_attempts = refl;
        extracted = refl;
      })

  save_shadows-SameQueue :
      (vs : List ShadowVerification) (s t : Store)
      → save_shadows fingerprint expires rid vs s ≡ ok t
      → SameQueue s t
  unfolding save_shadows
  save_shadows-SameQueue [] s t h = subst (SameQueue s) (ok-injective h) (SameQueue-same s)
  save_shadows-SameQueue (v ∷ vs) s t h =
      let (u, first, rest) = >>=-eq-ok (save_shadow fingerprint expires rid v s) _ h in
      let (_, saved) = guard-eq-ok _ invalid_argument _ first in
      SameQueue-trans s u t (save_outcome-SameQueue v s u _ saved)
        (save_shadows-SameQueue vs u t rest)

save_for_recording-SameQueue :
    (now rid : ℕ) (results : List ShadowVerification) (s t : Store) (o : Option Recording)
    → save_for_recording now rid results s o ≡ ok t
    → SameQueue s t
save_for_recording-SameQueue now rid results s t none h =
    subst (SameQueue s) (ok-injective h) (SameQueue-same s)
save_for_recording-SameQueue now rid results s t (some r) h = by_evidence _ h
  where
    by_evidence :
        (e : Option EvaluationEvidence)
        → save_for_evidence now rid results s r e ≡ ok t
        → SameQueue s t
    by_evidence none k = subst (SameQueue s) (ok-injective k) (SameQueue-same s)
    by_evidence (some e) k = save_shadows-SameQueue _ _ rid results s t k

-- Shadow results leave the queue's tables alone.
pub save_shadow_verifications-SameQueue :
    (s t : Store) (now rid : ℕ) (results : List ShadowVerification)
    → save_shadow_verifications s now rid results ≡ ok t
    → SameQueue s t
unfolding save_shadow_verifications
save_shadow_verifications-SameQueue s t now rid results h =
    elim (Bool-cases (is_empty results || s.evaluation_retention == 0)) [
      | inl off ↦ subst (SameQueue s) (ok-injective (rw off at h)) (SameQueue-same s)
      | inr on ↦ save_for_recording-SameQueue now rid results s t _ (rw on at h)
    ]
