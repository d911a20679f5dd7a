-- ===== src/Queue/Tests/Shadows.antt =====
-- SaveShadowVerifications for the first item of a delivered recording, before and after.
use index_01_hook.Base.{◌*◌, ◌≡◌, refl, none, [], ◌∷◌}
use index_01_hook.Base.Int.{pos, negsuc}
use index_01_hook.Base.Rows.{find_row, any_row, update_rows}
use index_01_hook.Base.Text.{codes, text_eq, is_space, trim_space}
use index_01_hook.Queue.Types.{Store, EvaluationEvidence, ShadowRow, classified, created}
use index_01_hook.Queue.Schema.{ok, err, constraint}
use index_01_hook.Queue.Evaluation.Shadow.{
  ShadowVerification, upsert_shadow, save_shadows, save_shadow_verifications,
}
use index_01_hook.Queue.Tests.{minute}
use index_01_hook.Queue.Tests.Mixed.{mixed_store}

abbrev evidence : EvaluationEvidence
evidence = record {
  recording_fingerprint = 1 ∷ [];
  transcript = codes "buy milk";
  recorded_at_ms = pos 0;
  captured_at_ms = 0;
  expires_at_ms = 600_000;
  extraction = none;
}

abbrev evaluated_store : Store
evaluated_store = record mixed_store {
  evaluation_retention = 10 * minute;
  evaluation_evidence = evidence ∷ [];
}

abbrev shadow : ShadowVerification
shadow = record {
  item_index = pos 0;
  decision = codes "accept";
  prompt_version = codes "v1";
  latency_milliseconds = pos 5;
  input_tokens = pos 7;
}

abbrev row : ShadowRow
row = record {
  recording_fingerprint = 1 ∷ [];
  item_index = 0;
  outcome = classified created;
  expires_at_ms = 600_000;
}

takes_the_outcome :
    save_shadow_verifications evaluated_store (3 * minute) 1 (shadow ∷ shadow ∷ [])
    ≡ ok (record evaluated_store { shadow_verifications = row ∷ [] })
unfolding save_shadow_verifications save_shadows upsert_shadow find_row any_row update_rows text_eq
    trim_space is_space
takes_the_outcome = refl

no_negative_latency :
    save_shadow_verifications evaluated_store
      (3 * minute)
      1
      (record shadow { latency_milliseconds = negsuc 0 } ∷ [])
    ≡ err constraint
unfolding save_shadow_verifications save_shadows upsert_shadow find_row any_row update_rows text_eq
    trim_space is_space
no_negative_latency = refl

nothing_when_expired :
    save_shadow_verifications evaluated_store (10 * minute) 1 (shadow ∷ []) ≡ ok evaluated_store
unfolding save_shadow_verifications save_shadows upsert_shadow find_row any_row update_rows text_eq
    trim_space is_space
nothing_when_expired = refl
