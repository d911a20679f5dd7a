-- ===== src/TypeSafe/Decision/Routes.antt =====
-- The route of an item that Verify accepts.
use index_01_hook.Base.{
  ℕ, ◌≡◌, refl, sym, ap, ◌∙◌, Bool, true, false, Option, none, some, List, [], ◌∷◌, Bool-cases, inl,
  inr, ◌⊎◌,
}
use index_01_hook.Base.Text.{Text, text_eq, to_lower}
use index_01_hook.Application.Item.{Item}
use index_01_hook.Worker.Verifier.{VerificationDecision, accept, doubt, reject, undecided}
use index_01_hook.TypeSafe.{TypeSafeAnswer, Answers, lookup_answer}
use index_01_hook.TypeSafe.Verify.{
  VerificationThresholds, Reason, route_uncertain, no_match, route_key, Judgment, route_by_choice,
  route_decided, route_answer, route_given, routed, routed_judgment, judged, is_choice,
  allowed_route,
}
use index_01_hook.TypeSafe.Decision.Supports.{some-injective, Accepted, supported-accept}

pair-first {ℓ κ} :
    {A : Type ℓ} {B : Type κ} {a c : A} {b d : B} → ◌≡◌ {A = A × B} (a, b) (c, d) → a ≡ c
pair-first h = ap (λ p. p.0) h

pair-second {ℓ κ} :
    {A : Type ℓ} {B : Type κ} {a c : A} {b d : B} → ◌≡◌ {A = A × B} (a, b) (c, d) → b ≡ d
pair-second h = ap (λ p. p.1) h

module _ {F : Type 0} (lt : F → F → Bool) (hundredths : ℕ → F) (t : VerificationThresholds F)
    (answers : Answers F) (fold : ℕ → ℕ) (names : List Text) (item item' : Item)
    (last : Option Reason) where
  -- The route that was chosen: none where the answer is that none matches, else the alias of the
  -- answer, which is confident enough.
  abbrev pub RouteOf : Text → F → Type 0
  RouteOf chosen confidence =
      ((text_eq chosen no_match ≡ true) × (item' ≡ record item { project_alias = [] }))
      ⊎ ((text_eq chosen no_match ≡ false)
          × (lt confidence t.alias_confidence ≡ false)
          × (item' ≡ record item { project_alias = to_lower fold chosen }))

  route_by_choice-doubt :
      (reason : Option Reason) (chosen : Text) (confidence : F)
      → (route_by_choice lt hundredths t answers fold (doubt, reason) item chosen confidence).0.0
        ≡ doubt
  route_by_choice-doubt reason chosen confidence = elim (Bool-cases (text_eq chosen no_match)) [
    | inl e ↦ rw e
    | inr e ↦ elim (Bool-cases (lt confidence t.alias_confidence)) [
      | inl f ↦ rw (e, f)
      | inr f ↦ rw (e, f)
    ]
  ]

  route_by_choice-undecided :
      (reason : Option Reason) (chosen : Text) (confidence : F)
      → (route_by_choice lt hundredths t answers fold
          (undecided, reason)
          item
          chosen
          confidence).0.0
        ≡ undecided
  route_by_choice-undecided reason chosen confidence = elim (Bool-cases (text_eq chosen no_match)) [
    | inl e ↦ rw e
    | inr e ↦ elim (Bool-cases (lt confidence t.alias_confidence)) [
      | inl f ↦ rw (e, f)
      | inr f ↦ rw (e, f)
    ]
  ]

  route_decided-accept :
      (decision : VerificationDecision) (reason : Option Reason) (chosen : Text) (confidence : F)
      → ◌≡◌ {A = Judgment × Item}
          (route_decided lt hundredths t answers fold (decision, reason) item chosen confidence)
          ((accept, last), item')
      → (decision ≡ accept) × RouteOf chosen confidence
  route_decided-accept reject reason chosen confidence h =
      let d : reject ≡ accept = pair-first (pair-first h) in cc
  route_decided-accept accept reason chosen confidence h =
      elim (Bool-cases (text_eq chosen no_match)) [
        | inl e ↦
            let k : ◌≡◌ {A = Judgment × Item} ((accept, reason), record item { project_alias = [] })
                ((accept, last), item') =
              rw e at h in
            (refl, inl (e, sym (pair-second k)))
        | inr e ↦ elim (Bool-cases (lt confidence t.alias_confidence)) [
          | inl f ↦
              let k : ◌≡◌ {A = Judgment × Item} ((doubt, some route_uncertain), item)
                  ((accept, last), item') =
                rw (e, f) at h in
              let d : doubt ≡ accept = pair-first (pair-first k) in cc
          | inr f ↦
              let k : ◌≡◌ {A = Judgment × Item}
                  ((accept, reason), record item { project_alias = to_lower fold chosen })
                  ((accept, last), item') =
                rw (e, f) at h in
              (refl, inr (e, f, sym (pair-second k)))
        ]
      ]
  route_decided-accept doubt reason chosen confidence h =
      let d : doubt ≡ accept =
        sym (route_by_choice-doubt reason chosen confidence)
        ∙ ap (λ (p : Judgment × Item). p.0.0) h in
      cc
  route_decided-accept undecided reason chosen confidence h =
      let d : undecided ≡ accept =
        sym (route_by_choice-undecided reason chosen confidence)
        ∙ ap (λ (p : Judgment × Item). p.0.0) h in
      cc

  -- The item keeps its route where no alias has a description; otherwise the answer to the route
  -- chooses one.
  abbrev pub Routed : List (Text × Text) → Type 0
  Routed [] = item' ≡ item
  Routed (a ∷ rest) =
      (answer : TypeSafeAnswer F) × (confidence : F) × (lookup_answer route_key answers
        ≡ some answer)
      × (answer.confidence ≡ some confidence)
      × (allowed_route lt hundredths t answers fold names answer.chosen ≡ true)
      × RouteOf answer.chosen confidence

  route_answer-accept :
      (decision : VerificationDecision) (reason : Option Reason) (chosen : Text) (o : Option F)
      → route_answer lt hundredths t answers fold names (decision, reason) item chosen o
        ≡ some ((accept, last), item')
      → (decision ≡ accept)
        × ((confidence : F) × (o ≡ some confidence)
            × (allowed_route lt hundredths t answers fold names chosen ≡ true)
            × RouteOf chosen confidence)
  route_answer-accept decision reason chosen none h = cc
  route_answer-accept decision reason chosen (some confidence) h =
      elim (Bool-cases (allowed_route lt hundredths t answers fold names chosen)) [
        | inl e ↦
            let (d, route) =
              route_decided-accept decision reason chosen confidence (some-injective (rw e at h)) in
            (d, (confidence, refl, e, route))
        | inr e ↦
            let k : ◌≡◌ {A = Option (Judgment × Item)} none (some ((accept, last), item')) =
              rw e at h in
            cc
      ]

  route_given-accept :
      (decision : VerificationDecision) (reason : Option Reason) (a : Text × Text)
      (rest : List (Text × Text)) (o : Option (TypeSafeAnswer F))
      → lookup_answer route_key answers ≡ o
      → route_given lt hundredths t answers fold names (decision, reason) item o
        ≡ some ((accept, last), item')
      → (decision ≡ accept) × Routed (a ∷ rest)
  route_given-accept decision reason a rest none found h = cc
  route_given-accept decision reason a rest (some answer) found h =
      elim (Bool-cases (is_choice lt hundredths t answers answer.kind)) [
        | inl e ↦
            let (d, (confidence, given, allowed, route)) =
              route_answer-accept decision reason answer.chosen answer.confidence (rw e at h) in
            (d, (answer, confidence, found, given, allowed, route))
        | inr e ↦
            let k : ◌≡◌ {A = Option (Judgment × Item)} none (some ((accept, last), item')) =
              rw e at h in
            cc
      ]

  routed-accept :
      (decision : VerificationDecision) (reason : Option Reason) (aliases : List (Text × Text))
      → routed lt hundredths t answers fold names aliases item (decision, reason)
        ≡ some ((accept, last), item')
      → (decision ≡ accept) × Routed aliases
  unfolding routed
  routed-accept decision reason [] h =
      let k : ◌≡◌ {A = Judgment × Item} ((decision, reason), item) ((accept, last), item') =
        some-injective h in
      (pair-first (pair-first k), sym (pair-second k))
  routed-accept decision reason (a ∷ rest) h =
      route_given-accept decision reason a rest (lookup_answer route_key answers) refl h

  routed_judgment-accept :
      (aliases : List (Text × Text)) (o : Option Judgment)
      → routed_judgment lt hundredths t answers fold names aliases item o
        ≡ some ((accept, last), item')
      → (reason : Option Reason) × (o ≡ some (accept, reason)) × Routed aliases
  routed_judgment-accept aliases none h = cc
  routed_judgment-accept aliases (some (decision, reason)) h =
      let (d, route) = routed-accept decision reason aliases h in
      (reason, ap (λ x. some (x, reason)) d, route)

  -- A judgment that accepts was accepted before its route, and has one of the routes.
  pub judged-accept :
      (aliases : List (Text × Text))
      → judged lt hundredths t answers fold names aliases item ≡ some ((accept, last), item')
      → Accepted lt hundredths t answers × Routed aliases
  unfolding judged
  judged-accept aliases h =
      let (reason, before, route) = routed_judgment-accept aliases _ h in
      (supported-accept lt hundredths t answers reason before, route)
