-- ===== src/Worker/Verifier.antt =====
-- The verifier of typesafe_verification.go, as the answers that it gives to a worker.
use index_01_hook.Base.{Bool, true, false, Option, none, some, List}
use index_01_hook.Application.Item.{Item}
use index_01_hook.Queue.Types.{Text, Evidence, FrozenExtraction}
use index_01_hook.Worker.Provider.{Answer}

-- `TypeSafeErrorKind`.
pub data TypeSafeErrorKind : Type 0 where
  authentication retryable malformed terminal : TypeSafeErrorKind

-- A verifier's answer; its error may or may not be a `TypeSafeError`.
pub data Check {ℓ} (A : Type ℓ) : Type ℓ where
  checked : A → Check A
  check_failed : Option TypeSafeErrorKind → Check A

-- `classifyTypeSafeError`.
abbrev pub classify_type_safe_error : Option TypeSafeErrorKind → TypeSafeErrorKind
classify_type_safe_error none = TypeSafeErrorKind.malformed
classify_type_safe_error (some kind) = kind

abbrev pub is_retryable : TypeSafeErrorKind → Bool
is_retryable TypeSafeErrorKind.retryable = true
is_retryable _ = false

-- `VerificationDecision`; `undecided` stands for every other.
pub data VerificationDecision : Type 0 where
  accept doubt reject undecided : VerificationDecision

pub record Verdict : Type 0 where
  pub decision : VerificationDecision
  pub item : Item
  pub evidence : Evidence

pub record ExtractionProviders : Type 0 where
  -- a verifier that screens too, or none
  pub screener : Option (Text → Check Bool)
  pub verifier : Option (Text → Item → List Text → Check Verdict)
  pub extract : Text → List Text → Answer FrozenExtraction
