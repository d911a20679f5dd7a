-- ===== src/TypeSafe.antt =====
-- typesafe.go: what is asked of the TypeSafe service, and which of its answers count as one. A
-- probability is of a type `F` with its order: the numbers of a JSON body, which has no NaN. The
-- sending of a request is a parameter.
pub mod Verify
pub mod Decision
mod Tests
use index_01_hook.Base.{
  ℕ, ◌+◌, Bool, true, false, not, ◌&&◌, ◌||◌, Option, none, some, List, [], ◌∷◌, ltb, leb, ◌==◌,
  if◌then◌else◌, length, is_some,
}
use index_01_hook.Base.Rows.{find_row, any_row}
use index_01_hook.Base.Text.{Text, text_eq, is_blank, byte_length}
use index_01_hook.Worker.Verifier.{
  TypeSafeErrorKind, authentication, retryable, malformed, terminal,
}

-- `Type` of a question or an answer; `other` stands for every other string.
pub data QuestionKind : Type 0 where
  noul choice score other : QuestionKind

-- `criteria` are the keys of the map, where there are criteria.
pub record Question : Type 0 where
  pub kind : QuestionKind
  pub has_instructions : Bool
  pub criteria : Option (List Text)

pub record TypeSafeAnswer (F : Type 0) : Type 0 where
  pub kind : QuestionKind
  pub noul_value : Option F
  pub chosen : Text
  pub score_value : Option F
  pub probabilities : List (Text × F)
  pub confidence : Option F

-- A map, as the list of its entries.
abbrev pub Answers : Type 0 → Type 0
Answers F = List (Text × TypeSafeAnswer F)

pub record TypeSafeResponse (F : Type 0) : Type 0 where
  pub model : Text
  pub answers : Answers F
  pub input_tokens : ℕ
  pub output_tokens : ℕ

-- What comes of sending the request: it is not built or too large, it is not answered, it is
-- answered with another status than 200, with a body that does not decode, or with a response.
pub data Reply (F : Type 0) : Type 0 where
  not_built no_answer undecodable : Reply F
  refused_status : ℕ → Reply F
  response : TypeSafeResponse F → Reply F

pub data Evaluation (F : Type 0) : Type 0 where
  evaluated : TypeSafeResponse F → Evaluation F
  evaluation_failed : TypeSafeErrorKind → Evaluation F

abbrev pub max_questions : ℕ
max_questions = 32

abbrev identifier_rune : ℕ → Bool
identifier_rune c =
    (leb b'a' c && leb c b'z')
    || (leb b'A' c && leb c b'Z')
    || (leb b'0' c && leb c b'9')
    || c == b'_'
    || c == b'-'

unfoldable pub safe_question_identifier : Text → Bool
unfolding any_row byte_length
safe_question_identifier value =
    not (is_blank value)
    && not (ltb 64 (byte_length value))
    && not (any_row (λ c. not (identifier_rune c)) value)

-- `classifyTypeSafeStatus`.
unfoldable pub classify_type_safe_status : ℕ → TypeSafeErrorKind
classify_type_safe_status status =
    if status == 401 || status == 403
    then authentication
    else if status == 408 || status == 425 || status == 429 || status == 529 || leb 500 status
    then retryable
    else terminal

abbrev pub same_kind : QuestionKind → QuestionKind → Bool
same_kind noul noul = true
same_kind choice choice = true
same_kind score score = true
same_kind other other = true
same_kind _ _ = false

abbrev pub valid_question : Text × Question → Bool
valid_question (id, q) = safe_question_identifier id && q.has_instructions && elim q.kind [
  | noul ↦ true
  | choice ↦ is_some q.criteria
  | score ↦ is_some q.criteria
  | other ↦ false
]

module _ {F : Type 0} where
  unfoldable pub lookup_answer : Text → Answers F → Option (TypeSafeAnswer F)
  unfolding text_eq
  lookup_answer key [] = none
  lookup_answer key ((k, a) ∷ rest) =
      let later = lookup_answer key rest in if text_eq k key then some a else later

  unfoldable pub has_key : Text → List (Text × F) → Bool
  unfolding any_row text_eq
  has_key key entries = any_row (λ (e : Text × F). text_eq e.0 key) entries

module _ {F : Type 0} (lt : F → F → Bool) (hundredths : ℕ → F) where
  -- `validProbability`.
  abbrev pub valid_probability : F → Bool
  valid_probability p = not (lt p (hundredths 0)) && not (lt (hundredths 100) p)

  abbrev pub valid_optional : Option F → Bool
  valid_optional none = false
  valid_optional (some p) = valid_probability p

  abbrev pub allowed_choice : Option (List Text) → Text → Bool
  allowed_choice none chosen = false
  allowed_choice (some keys) chosen = any_row (λ k. text_eq k chosen) keys

  abbrev pub valid_entries : List (Text × F) → Bool
  valid_entries [] = false
  valid_entries (e ∷ es) =
      not (any_row (λ (x : Text × F). is_blank x.0 || not (valid_probability x.1)) (e ∷ es))

  abbrev pub valid_by_kind : Option (List Text) → TypeSafeAnswer F → QuestionKind → Bool
  valid_by_kind criteria a noul = valid_optional a.noul_value
  valid_by_kind criteria a choice =
      not (is_blank a.chosen)
      && valid_optional a.confidence
      && valid_entries a.probabilities
      && has_key a.chosen a.probabilities
      && allowed_choice criteria a.chosen
  valid_by_kind criteria a score =
      is_some a.score_value && valid_optional a.confidence && valid_entries a.probabilities
  valid_by_kind criteria a other = false

  -- `validTypeSafeAnswer`.
  unfoldable pub valid_type_safe_answer : Question → TypeSafeAnswer F → Bool
  unfolding any_row text_eq has_key
  valid_type_safe_answer q a = same_kind a.kind q.kind && valid_by_kind q.criteria a q.kind

  abbrev pub answered_well : Answers F → Text × Question → Bool
  answered_well answers (id, q) = elim (lookup_answer id answers) [
    | none ↦ false
    | some a ↦ valid_type_safe_answer q a
  ]

  abbrev pub valid_questions : List (Text × Question) → Bool
  valid_questions questions =
      not (length questions == 0)
      && not (ltb max_questions (length questions))
      && not (any_row (λ q. not (valid_question q)) questions)

  abbrev pub complete_response : Text → List (Text × Question) → TypeSafeResponse F → Bool
  complete_response model questions r =
      text_eq r.model model
      && length r.answers == length questions
      && not (any_row (λ q. not (answered_well r.answers q)) questions)

  abbrev pub evaluate_reply : Text → List (Text × Question) → Reply F → Evaluation F
  evaluate_reply model questions not_built = evaluation_failed malformed
  evaluate_reply model questions no_answer = evaluation_failed retryable
  evaluate_reply model questions undecodable = evaluation_failed malformed
  evaluate_reply model questions (refused_status status) =
      evaluation_failed (classify_type_safe_status status)
  evaluate_reply model questions (response r) =
      if complete_response model questions r then evaluated r else evaluation_failed malformed

  -- `Evaluate` of a configured client.
  unfoldable pub evaluate :
      Text → (List (Text × Question) → Reply F) → List (Text × Question) → Evaluation F
  unfolding any_row text_eq safe_question_identifier classify_type_safe_status lookup_answer
      valid_type_safe_answer
  evaluate model send questions =
      if valid_questions questions
      then evaluate_reply model questions (send questions)
      else evaluation_failed malformed
