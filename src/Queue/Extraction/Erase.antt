-- ===== src/Queue/Extraction/Erase.antt =====
-- The erasure of a transcription, which ends the work on a recording.
use index_01_hook.Base.{ℕ, ◌≡◌, [], ◌∷◌, List, All, arith, ◌==◌, Bool-cases, inl, inr, refl}
use index_01_hook.Base.Rows.{update_rows}
use index_01_hook.Queue.Types.{Recording}
use index_01_hook.Queue.Extraction.{erase_transcription}

abbrev pub Erased : ℕ → Recording → Type 0
Erased rid r = r.id ≡ rid → r.transcription ≡ []

pub erase_transcription-Erased :
    (rid : ℕ) (rows : List Recording) → All (Erased rid) (erase_transcription rid rows)
unfolding erase_transcription update_rows
erase_transcription-Erased rid [] = tt
erase_transcription-Erased rid (r ∷ rows) = elim (Bool-cases (r.id == rid)) [
  | inl e ↦ rw e ((λ _. refl), erase_transcription-Erased rid rows)
  | inr e ↦ rw e ((λ same. ground arith), erase_transcription-Erased rid rows)
]
