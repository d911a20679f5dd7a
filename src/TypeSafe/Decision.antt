-- ===== src/TypeSafe/Decision.antt =====
-- What an acceptance by the verifier of typesafe_verification.go rests on.
pub mod Supports
pub mod Routes
use index_01_hook.Base.{
  ltb, ℕ, ◌≡◌, refl, sym, ap, ◌∙◌, Bool, true, false, ◌||◌, Option, none, some, List, [], ◌∷◌, All,
  Bool-cases, inl, inr, ◌⊎◌, if◌then◌else◌,
}
use index_01_hook.Base.Text.{Text, text_eq, to_lower, is_blank, trim_space, byte_length}
use index_01_hook.Application.Item.{Item}
use index_01_hook.Application.Policy.{sort_strings}
use index_01_hook.Worker.Verifier.{
  malformed, VerificationDecision, accept, doubt, reject, undecided,
}
use index_01_hook.TypeSafe.{
  TypeSafeAnswer, Answers, TypeSafeResponse, Evaluation, evaluated, evaluation_failed, Question,
  lookup_answer,
}
use index_01_hook.TypeSafe.Verify.{
  VerificationThresholds, Reason, prompt_injection, item_not_supported, route_uncertain, no_match,
  unsupported, uncertain, VerificationResult, Verification, verified_as, not_verified,
  EvaluationState, max_input_bytes, alias_state, not_asked, TypeSafeVerifier, item_key, route_key,
  support_keys, Judgment, used_thresholds, below, noul_at, injected, support_round, supports,
  all_answered, item_checked, supported, route_by_choice, route_decided, route_answer, route_given,
  routed, routed_judgment, judged, result_of, after_evaluation, verify, verify_by, is_choice,
  allowed_route,
}
use index_01_hook.TypeSafe.Decision.Supports.{some-injective, Accepted}
use index_01_hook.TypeSafe.Decision.Routes.{Routed, judged-accept}

pair-eq {ℓ κ} :
    {A : Type ℓ} {B : Type κ} {a c : A} {b d : B} → a ≡ c → b ≡ d → ◌≡◌ {A = A × B} (a, b) (c, d)
pair-eq h k = cc

verified_as-injective :
    {F : Type 0} {a b : VerificationResult F} → verified_as a ≡ verified_as b → a ≡ b
verified_as-injective h = cc

module _ {F : Type 0} (lt : F → F → Bool) (hundredths : ℕ → F) (fold : ℕ → ℕ)
    (v : TypeSafeVerifier F) (item : Item) (r : VerificationResult F) (e : TypeSafeResponse F)
    (names : List Text) (aliases : List (Text × Text)) where
  -- What an acceptance that names its evidence says of the answers.
  abbrev pub Grounded : Type 0
  Grounded =
      Accepted lt hundredths (used_thresholds lt hundredths v.thresholds) e.answers
      × Routed lt hundredths (used_thresholds lt hundredths v.thresholds) e.answers fold names item
          r.item r.reason aliases

module _ {F : Type 0} (lt : F → F → Bool) (hundredths : ℕ → F) (fold : ℕ → ℕ)
    (v : TypeSafeVerifier F) (item : Item) (r : VerificationResult F) (e : TypeSafeResponse F)
    (accepted : r.decision ≡ accept) (asked : r.evidence ≡ some e) where
  result_of-accept :
      (names : List Text) (aliases : List (Text × Text)) (found : TypeSafeResponse F)
      (o : Option (Judgment × Item))
      → judged lt hundredths
          (used_thresholds lt hundredths v.thresholds)
          found.answers
          fold
          names
          aliases
          item
        ≡ o
      → result_of lt hundredths found o ≡ verified_as r
      → Grounded lt hundredths fold v item r e names aliases
  result_of-accept names aliases found none h k = cc
  result_of-accept names aliases found (some ((d, reason), item')) h k =
      let q = verified_as-injective k in
      let same : found ≡ e = some-injective (ap (λ x. x.evidence) q ∙ asked) in
      let decision : d ≡ accept = ap (λ x. x.decision) q ∙ accepted in
      let why : reason ≡ r.reason = ap (λ x. x.reason) q in
      let routed_to : item' ≡ r.item = ap (λ x. x.item) q in
      judged-accept lt hundredths (used_thresholds lt hundredths v.thresholds) e.answers fold names
        item r.item r.reason aliases
        (ap
            (λ (x : TypeSafeResponse F).
              judged lt hundredths (used_thresholds lt hundredths v.thresholds) x.answers fold names
                aliases item)
            (sym same)
          ∙ h
          ∙ ap some (pair-eq (pair-eq decision why) routed_to))

  after_evaluation-accept :
      (names : List Text) (aliases : List (Text × Text)) (o : Evaluation F)
      → after_evaluation lt hundredths fold v names aliases item o ≡ verified_as r
      → Grounded lt hundredths fold v item r e names aliases
  after_evaluation-accept names aliases (evaluation_failed kind) h = cc
  after_evaluation-accept names aliases (evaluated found) h =
      result_of-accept names aliases found _ refl h

  verify_by-accept :
      (client : Option (EvaluationState → List (Text × Question) → Evaluation F))
      (transcript : Text) (names : List Text)
      → verify_by lt hundredths fold v client transcript item names ≡ verified_as r
      → Grounded lt hundredths fold v item r e
          (sort_strings names)
          (alias_state fold v.alias_descriptions (sort_strings names))
  verify_by-accept none transcript names h =
      let unasked : none ≡ some e = ap (λ x. x.evidence) (verified_as-injective h) ∙ asked in cc
  verify_by-accept (some client) transcript names h = elim (Bool-cases v.enabled) [
    | inl on ↦
        elim (Bool-cases
          (is_blank (trim_space transcript) || ltb max_input_bytes (byte_length transcript))) [
            | inl b ↦
                let k : ◌≡◌ {A = Verification F} (not_verified malformed) (verified_as r) =
                  rw (on, b) at h in
                cc
            | inr b ↦
                after_evaluation-accept (sort_strings names)
                  (alias_state fold v.alias_descriptions (sort_strings names)) _ (rw (on, b) at h)
          ]
    | inr off ↦
        let k : ◌≡◌ {A = Verification F} (not_asked lt hundredths fold v item) (verified_as r) =
          rw off at h in
        let unasked : none ≡ some e = ap (λ x. x.evidence) (verified_as-injective k) ∙ asked in cc
  ]

  -- Where Verify accepts an item and names the evidence, no injection was detected, every support
  -- was answered and lies below neither limit, the item was not found absent, and the item's route
  -- is as it was where no alias has a description; else it is erased where the route's answer is
  -- that none matches, and otherwise the answered alias, which is confident enough.
  pub verify-accept :
      (transcript : Text) (names : List Text)
      → verify lt hundredths fold v transcript item names ≡ verified_as r
      → Grounded lt hundredths fold v item r e
          (sort_strings names)
          (alias_state fold v.alias_descriptions (sort_strings names))
  unfolding verify
  verify-accept transcript names h = verify_by-accept v.client transcript names h
