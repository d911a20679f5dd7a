-- ===== src/Queue/Intake/Payloads.antt =====
-- The recordings of a payload: at most one, and found after it was received.
use index_01_hook.Base.{
  ℕ, ◌+◌, ◌≤◌, ◌<◌, ◌≡◌, refl, sym, subst, Bool, true, false, none, some, List, [], ◌∷◌, ◌++◌,
  arith, Bool-cases, Option-cases, inl, inr, ◌==◌, ltb, if◌then◌else◌,
}
use index_01_hook.Base.Rows.{next_id, find_row, count_rows, update_rows, find_row-sat}
use index_01_hook.Base.Text.{Text, text_eq, text_eq_iff, text_eq_refl, is_blank, trim_space}
use index_01_hook.Queue.Types.{Recording, Store}
use index_01_hook.Queue.Schema.{ok}
use index_01_hook.Queue.Evaluation.Recordings.{set_deadline}
use index_01_hook.Queue.Intake.{
  RecordingInput, has_payload, new_recording, receive_again, insert_job, queue_job, is_queued,
  upsert_recording, save_recording,
}

-- No two rows have one payload.
abbrev pub UniquePayloads : List Recording → Type 0
UniquePayloads rows = (f : Text) → count_rows (has_payload f) rows ≤ 1

abbrev recording_id : Recording → ℕ
recording_id r = r.id

pub count-update_rows :
    (f : Text) (p : Recording → Bool) (g : Recording → Recording)
    → ((r : Recording) → (g r).payload_fingerprint ≡ r.payload_fingerprint)
    → (rows : List Recording)
    → count_rows (has_payload f) (update_rows p g rows) ≡ count_rows (has_payload f) rows
unfolding count_rows update_rows
count-update_rows f p g same [] = refl
count-update_rows f p g same (r ∷ rows) = elim (Bool-cases (p r)) [
  | inl e ↦ rw (e, same r, count-update_rows f p g same rows)
  | inr e ↦ rw (e, count-update_rows f p g same rows)
]

count-snoc :
    (p : Recording → Bool) (rows : List Recording) (r : Recording)
    → count_rows p (rows ++ (r ∷ [])) ≡ count_rows p rows + (if p r then 1 else 0)
unfolding count_rows
count-snoc p [] r = omega arith
count-snoc p (x ∷ rows) r = rw (count-snoc p rows r) (omega arith)

none-counted :
    (p : Recording → Bool) (rows : List Recording) → find_row p rows ≡ none → count_rows p rows ≡ 0
unfolding find_row count_rows
none-counted p [] h = refl
none-counted p (r ∷ rows) h = elim (Bool-cases (p r)) [
  | inl e ↦ let found : some r ≡ none = rw e at h in cc
  | inr e ↦ rw (e, none-counted p rows (rw e at h))
]

pub upsert_recording-UniquePayloads :
    (now : ℕ) (input : RecordingInput) (rows : List Recording)
    → UniquePayloads rows
    → UniquePayloads (upsert_recording now input rows).0
unfolding upsert_recording
upsert_recording-UniquePayloads now input rows h f =
    elim (Option-cases (find_row (has_payload input.fingerprint) rows)) [
      | inr (r, found) ↦
          rw
            (
              found,
              count-update_rows f (has_payload input.fingerprint) (receive_again now) (λ r. refl)
                  rows,
            )
            (h f)
      | inl fresh ↦
          rw
            (
              fresh,
              count-snoc (has_payload f) rows (new_recording (next_id recording_id rows) now input),
            )
            (elim (Bool-cases (text_eq input.fingerprint f)) [
              | inl same ↦
                  let f_is : input.fingerprint ≡ f = (text_eq_iff input.fingerprint f).0 same in
                  rw (same, sym f_is, none-counted (has_payload input.fingerprint) rows fresh)
                    (omega arith)
              | inr other ↦ rw other (let old = h f in omega arith)
            ])
    ]

-- A payload that is stored with a positive count is received again.
pub save_recording-duplicate :
    (s : Store) (now : ℕ) (input : RecordingInput) (r : Recording)
    → find_row (has_payload input.fingerprint) s.recordings ≡ some r
    → 0 < r.receive_count
    → let jobs =
        if is_blank (trim_space input.transcription)
        then s.extraction_jobs
        else insert_job r.id now s.extraction_jobs in
      save_recording s now input
      ≡ ok (
        record s {
          recordings = update_rows (has_payload input.fingerprint) (receive_again now) s.recordings;
          extraction_jobs = jobs;
        },
        record { id = r.id; duplicate = true; queued = is_queued r.id jobs },
      )
unfolding save_recording upsert_recording queue_job
save_recording-duplicate s now input r found received =
    let again : ltb 1 (r.receive_count + 1) ≡ true = ground arith in
    let not_first : (r.receive_count + 1 == 1) ≡ false = ground arith in
    elim (Bool-cases (is_blank (trim_space input.transcription))) [
      | inl silent ↦ rw (found, silent, again)
      | inr spoken ↦ rw (found, spoken, not_first, again)
    ]

-- The payload is found under this id, with a positive count.
abbrev pub Stored : Text → ℕ → List Recording → Type 0
Stored f id rows =
    (r : Recording) × (find_row (has_payload f) rows ≡ some r) × (r.id ≡ id) × (0 < r.receive_count)

find-update_rows :
    (f : Text) (p : Recording → Bool) (g : Recording → Recording)
    → ((r : Recording) → (g r).payload_fingerprint ≡ r.payload_fingerprint)
    → (rows : List Recording) (r : Recording) → find_row (has_payload f) rows ≡ some r
    → find_row (has_payload f) (update_rows p g rows) ≡ some (if p r then g r else r)
unfolding find_row update_rows
find-update_rows f p g same [] r h = cc
find-update_rows f p g same (x ∷ rows) r h = elim (Bool-cases (text_eq x.payload_fingerprint f)) [
  | inl e ↦
      let k : some x ≡ some r = rw e at h in
      let x_is : x ≡ r = cc in
      subst
        (λ y. find_row (has_payload f) (update_rows p g (x ∷ rows)) ≡ some (if p y then g y else y))
        x_is (elim (Bool-cases (p x)) [ inl q ↦ rw (q, same x, e) | inr q ↦ rw (q, e) ])
  | inr e ↦
      let rest = find-update_rows f p g same rows r (rw e at h) in
      elim (Bool-cases (p x)) [ inl q ↦ rw (q, same x, e) rest | inr q ↦ rw (q, e) rest ]
]

pub Stored-set_deadline :
    (f : Text) (id : ℕ) (rows : List Recording) (p : Recording → Bool) (deadline : ℕ)
    → Stored f id rows
    → Stored f id (update_rows p (set_deadline deadline) rows)
Stored-set_deadline f id rows p deadline (r, found, named, counted) = (
  if p r then set_deadline deadline r else r,
  find-update_rows f p (set_deadline deadline) (λ x. refl) rows r found,
  elim (Bool-cases (p r)) [ inl e ↦ rw e named | inr e ↦ rw e named ],
  elim (Bool-cases (p r)) [ inl e ↦ rw e counted | inr e ↦ rw e counted ],
)

find-snoc :
    (p : Recording → Bool) (rows : List Recording) (r : Recording)
    → find_row p rows ≡ none
    → p r ≡ true
    → find_row p (rows ++ (r ∷ [])) ≡ some r
unfolding find_row
find-snoc p [] r h k = rw k
find-snoc p (x ∷ rows) r h k = elim (Bool-cases (p x)) [
  | inl e ↦ let found : some x ≡ none = rw e at h in cc
  | inr e ↦ rw e (find-snoc p rows r (rw e at h) k)
]

pub upsert_recording-Stored :
    (now : ℕ) (input : RecordingInput) (rows : List Recording)
    → Stored input.fingerprint
        (upsert_recording now input rows).1.0
        (upsert_recording now input rows).0
unfolding upsert_recording
upsert_recording-Stored now input rows =
    elim (Option-cases (find_row (has_payload input.fingerprint) rows)) [
      | inr (r, found) ↦
          let hit = find_row-sat (has_payload input.fingerprint) rows r found in
          let again =
            find-update_rows input.fingerprint (has_payload input.fingerprint) (receive_again now)
              (λ x. refl) rows r found in
          rw found (receive_again now r, rw hit at again, refl, omega arith)
      | inl fresh ↦
          let new = new_recording (next_id recording_id rows) now input in
          rw fresh (
            new,
            find-snoc (has_payload input.fingerprint) rows new fresh
                (text_eq_refl input.fingerprint),
            refl,
            omega arith,
          )
    ]
