-- ===== src/TypeSafe/Verify.antt =====
-- typeSafeVerifier of typesafe_verification.go: the questions on an item and the decision on it.
use index_01_hook.Base.{
  ℕ, Bool, true, false, not, ◌&&◌, ◌||◌, Option, none, some, List, [], ◌∷◌, ◌++◌, ltb,
  if◌then◌else◌, map, ◌*◌,
}
use index_01_hook.Base.Rows.{any_row}
use index_01_hook.Base.Text.{Text, codes, text_eq, is_blank, trim_space, byte_length, to_lower}
use index_01_hook.Application.Item.{Item}
use index_01_hook.Application.Policy.{sort_strings}
use index_01_hook.Worker.Verifier.{
  Check, checked, check_failed, TypeSafeErrorKind, malformed, VerificationDecision, accept, doubt,
  reject,
}
use index_01_hook.TypeSafe.{
  QuestionKind, noul, choice, Question, TypeSafeAnswer, Answers, TypeSafeResponse, Evaluation,
  evaluated, evaluation_failed, lookup_answer,
}

pub record VerificationThresholds (F : Type 0) : Type 0 where
  pub accept_support : F
  pub reject_support : F
  pub injection_review : F
  pub alias_confidence : F

-- The reasons that are recorded, one for each text.
pub data Reason : Type 0 where
  prompt_injection item_not_supported route_uncertain : Reason
  unsupported uncertain : Text → Reason

pub record VerificationResult (F : Type 0) : Type 0 where
  pub decision : VerificationDecision
  pub item : Item
  pub reason : Option Reason
  pub evidence : Option (TypeSafeResponse F)

pub data Verification (F : Type 0) : Type 0 where
  verified_as : VerificationResult F → Verification F
  not_verified : TypeSafeErrorKind → Verification F

-- What the questions on an item are asked about.
pub record VerificationState : Type 0 where
  pub transcription : Text
  pub candidate : Item
  pub project_aliases : List (Text × Text)

pub data EvaluationState : Type 0 where
  of_candidate : VerificationState → EvaluationState
  of_transcription : Text → EvaluationState

-- `typeSafeVerifier`; the client is its Evaluate, where there is a client. A description that the
-- map has not is blank.
pub record TypeSafeVerifier (F : Type 0) : Type 0 where
  pub enabled : Bool
  pub client : Option (EvaluationState → List (Text × Question) → Evaluation F)
  pub alias_descriptions : Text → Text
  pub thresholds : VerificationThresholds F

abbrev pub max_input_bytes : ℕ
max_input_bytes = 64 * 1024

abbrev noul_question : Text → Text × Question
noul_question id = (
  id,
  record {
    kind = noul;
    has_instructions = true;
    criteria = some (codes "true" ∷ codes "false" ∷ []);
  },
)

abbrev pub injection_key : Text
injection_key = codes "injection_detected"

abbrev pub item_key : Text
item_key = codes "item_present"

abbrev pub route_key : Text
route_key = codes "route_alias"

abbrev pub no_match : Text
no_match = codes "no_match"

abbrev pub support_keys : List Text
support_keys =
    codes "kind_supported"
    ∷ codes "title_supported"
    ∷ codes "content_supported"
    ∷ codes "date_supported"
    ∷ codes "priority_supported"
    ∷ codes "tags_supported"
    ∷ codes "route_supported"
    ∷ []

abbrev route_question : List (Text × Text) → List (Text × Question)
route_question [] = []
route_question (a ∷ rest) =
    (
      route_key,
      record {
        kind = choice;
        has_instructions = true;
        criteria = some (no_match ∷ map (λ (x : Text × Text). x.0) (a ∷ rest));
      },
    )
    ∷ []

-- `verificationQuestions`.
unfoldable pub verification_questions : List (Text × Text) → List (Text × Question)
verification_questions aliases =
    map noul_question (injection_key ∷ item_key ∷ support_keys) ++ route_question aliases

-- The one question of Screen.
abbrev pub screen_questions : List (Text × Question)
screen_questions = noul_question injection_key ∷ []

abbrev pub noul_of : {F : Type 0} → Option (TypeSafeAnswer F) → Option F
noul_of none = none
noul_of (some a) = a.noul_value

-- The aliases that have a description, by their names in order.
unfoldable pub alias_state : (ℕ → ℕ) → (Text → Text) → List Text → List (Text × Text)
unfolding trim_space to_lower
alias_state fold descriptions [] = []
alias_state fold descriptions (name ∷ names) =
    let description = trim_space (descriptions (to_lower fold name)) in
    let rest = alias_state fold descriptions names in
    if is_blank description then rest else (to_lower fold name, description) ∷ rest

-- A decision with its reason.
abbrev pub Judgment : Type 0
Judgment = VerificationDecision × Option Reason

module _ {F : Type 0} (lt : F → F → Bool) (hundredths : ℕ → F) where
  abbrev pub default_thresholds : VerificationThresholds F
  default_thresholds = record {
    accept_support = hundredths 90;
    reject_support = hundredths 20;
    injection_review = hundredths 50;
    alias_confidence = hundredths 80;
  }

  -- `AcceptSupport == 0`.
  abbrev pub used_thresholds : VerificationThresholds F → VerificationThresholds F
  used_thresholds t =
      if not (lt t.accept_support (hundredths 0)) && not (lt (hundredths 0) t.accept_support)
      then default_thresholds
      else t

  abbrev pub at_least : F → Option F → Bool
  at_least limit none = false
  at_least limit (some x) = not (lt x limit)

  abbrev pub below : F → Option F → Bool
  below limit none = false
  below limit (some x) = lt x limit

  module _ (t : VerificationThresholds F) (answers : Answers F) where
    abbrev pub noul_at : Text → Option F
    noul_at key = noul_of (lookup_answer key answers)

    abbrev pub injected : Bool
    injected = at_least t.injection_review (noul_at injection_key)

    -- One round of the loop over the supports: `none` is the missing answer, and a rejection ends
    -- the loop.
    abbrev pub support_round :
        Text → Option F → Judgment → (Judgment → Option Judgment) → Option Judgment
    support_round key none j next = none
    support_round key (some x) j next =
        if lt x t.reject_support
        then some (reject, some (unsupported key))
        else next (if lt x t.accept_support then (doubt, some (uncertain key)) else j)

    -- The loop where no injection was detected.
    unfoldable pub supports : List Text → Judgment → Option Judgment
    unfolding lookup_answer
    supports [] j = some j
    supports (key ∷ keys) j = support_round key (noul_at key) j (λ k. supports keys k)

    abbrev pub is_answered : Text → Bool
    is_answered key = elim (noul_at key) [ none ↦ false | some x ↦ true ]

    -- The loop where an injection was detected only looks for missing answers.
    unfoldable pub all_answered : List Text → Bool
    unfolding lookup_answer
    all_answered [] = true
    all_answered (key ∷ keys) = is_answered key && all_answered keys

    abbrev pub item_checked : Option Judgment → Option Judgment
    item_checked none = none
    item_checked (some j) =
        some (
          if below t.reject_support (noul_at item_key)
          then (reject, some item_not_supported)
          else j)

    -- The decision before the route.
    unfoldable pub supported : Option Judgment
    unfolding lookup_answer supports all_answered
    supported =
        if injected
        then (if all_answered support_keys then some (doubt, some prompt_injection) else none)
        else item_checked (supports support_keys (accept, none))

    abbrev pub route_doubt : Judgment → Judgment
    route_doubt (accept, reason) = (doubt, some route_uncertain)
    route_doubt (decision, reason) = (decision, reason)

    abbrev pub is_reject : VerificationDecision → Bool
    is_reject reject = true
    is_reject _ = false

    abbrev pub route_by_choice : (ℕ → ℕ) → Judgment → Item → Text → F → Judgment × Item
    route_by_choice fold j item chosen confidence =
        if text_eq chosen no_match
        then (j, record item { project_alias = [] })
        else if lt confidence t.alias_confidence
        then (route_doubt j, item)
        else (j, record item { project_alias = to_lower fold chosen })

    abbrev pub route_decided : (ℕ → ℕ) → Judgment → Item → Text → F → Judgment × Item
    route_decided fold j item chosen confidence =
        if is_reject j.0 then (j, item) else route_by_choice fold j item chosen confidence

    abbrev pub is_choice : QuestionKind → Bool
    is_choice choice = true
    is_choice _ = false

    abbrev pub allowed_route : (ℕ → ℕ) → List Text → Text → Bool
    allowed_route fold names chosen =
        any_row (λ name. text_eq name (to_lower fold chosen)) (no_match ∷ map (to_lower fold) names)

    abbrev pub route_answer :
        (ℕ → ℕ) → List Text → Judgment → Item → Text → Option F → Option (Judgment × Item)
    route_answer fold names j item chosen none = none
    route_answer fold names j item chosen (some confidence) =
        if allowed_route fold names chosen
        then some (route_decided fold j item chosen confidence)
        else none

    abbrev pub route_given :
        (ℕ → ℕ) → List Text → Judgment → Item → Option (TypeSafeAnswer F) → Option (Judgment × Item)
    route_given fold names j item none = none
    route_given fold names j item (some a) =
        if is_choice a.kind then route_answer fold names j item a.chosen a.confidence else none

    -- The route, where a route was asked for; `none` is an invalid answer.
    unfoldable pub routed :
        (ℕ → ℕ) → List Text → List (Text × Text) → Item → Judgment → Option (Judgment × Item)
    unfolding lookup_answer any_row text_eq to_lower
    routed fold names [] item j = some (j, item)
    routed fold names (a ∷ rest) item j =
        route_given fold names j item (lookup_answer route_key answers)

    abbrev pub routed_judgment :
        (ℕ → ℕ) → List Text → List (Text × Text) → Item → Option Judgment → Option (Judgment × Item)
    routed_judgment fold names aliases item none = none
    routed_judgment fold names aliases item (some j) = routed fold names aliases item j

    unfoldable pub judged :
        (ℕ → ℕ) → List Text → List (Text × Text) → Item → Option (Judgment × Item)
    unfolding supported routed
    judged fold names aliases item = routed_judgment fold names aliases item supported

  abbrev pub result_of : TypeSafeResponse F → Option (Judgment × Item) → Verification F
  result_of r none = not_verified malformed
  result_of r (some (j, item)) =
      verified_as (record { decision = j.0; item = item; reason = j.1; evidence = some r })

  module _ (fold : ℕ → ℕ) (v : TypeSafeVerifier F) where
    abbrev pub after_evaluation :
        List Text → List (Text × Text) → Item → Evaluation F → Verification F
    after_evaluation names aliases item (evaluation_failed kind) = not_verified kind
    after_evaluation names aliases item (evaluated r) =
        result_of r (judged (used_thresholds v.thresholds) r.answers fold names aliases item)

    abbrev pub ask :
        (EvaluationState → List (Text × Question) → Evaluation F)
        → Text
        → Item
        → List Text
        → List (Text × Text)
        → Verification F
    ask client transcript item names aliases = after_evaluation names aliases item (
        client
          (of_candidate
            (record { transcription = transcript; candidate = item; project_aliases = aliases }))
          (verification_questions aliases))

    abbrev pub verify_enabled :
        (EvaluationState → List (Text × Question) → Evaluation F)
        → Text
        → Item
        → List Text
        → Verification F
    verify_enabled client transcript item aliases =
        if is_blank (trim_space transcript) || ltb max_input_bytes (byte_length transcript)
        then not_verified malformed
        else ask client transcript item (sort_strings aliases)
            (alias_state fold v.alias_descriptions (sort_strings aliases))

    abbrev pub not_asked : Item → Verification F
    not_asked item =
        verified_as (record { decision = accept; item = item; reason = none; evidence = none })

    abbrev pub verify_by :
        Option (EvaluationState → List (Text × Question) → Evaluation F)
        → Text
        → Item
        → List Text
        → Verification F
    verify_by none transcript item aliases = not_asked item
    verify_by (some client) transcript item aliases =
        if v.enabled then verify_enabled client transcript item aliases else not_asked item

    -- `Verify`.
    unfoldable pub verify : Text → Item → List Text → Verification F
    unfolding judged alias_state verification_questions trim_space byte_length sort_strings
    verify transcript item aliases = verify_by v.client transcript item aliases

    abbrev pub screened : Evaluation F → Check Bool
    screened (evaluation_failed kind) = check_failed (some kind)
    screened (evaluated r) = checked (
        at_least (default_thresholds).injection_review
          (noul_of (lookup_answer injection_key r.answers)))

    abbrev pub screen_by :
        Option (EvaluationState → List (Text × Question) → Evaluation F) → Text → Check Bool
    screen_by none transcript = checked false
    screen_by (some client) transcript =
        if v.enabled
        then screened (client (of_transcription transcript) screen_questions)
        else checked false

    -- `Screen`.
    unfoldable pub screen : Text → Check Bool
    unfolding lookup_answer
    screen transcript = screen_by v.client transcript
