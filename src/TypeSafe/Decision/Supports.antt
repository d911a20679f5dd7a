-- ===== src/TypeSafe/Decision/Supports.antt =====
-- What the supports and the item's presence say where Verify accepts.
use index_01_hook.Base.{
  ℕ, ◌≡◌, refl, ap, Bool, true, false, Option, none, some, List, [], ◌∷◌, All, Bool-cases, inl, inr,
  if◌then◌else◌,
}
use index_01_hook.Base.Text.{Text}
use index_01_hook.Worker.Verifier.{VerificationDecision, accept, doubt, reject}
use index_01_hook.TypeSafe.{Answers}
use index_01_hook.TypeSafe.Verify.{
  VerificationThresholds, Reason, prompt_injection, item_not_supported, unsupported, uncertain,
  item_key, support_keys, Judgment, below, noul_at, injected, support_round, supports, all_answered,
  item_checked, supported,
}

pub some-injective {ℓ} : {A : Type ℓ} {a b : A} → some a ≡ some b → a ≡ b
some-injective h = cc

decided :
    (d : VerificationDecision) (reason last : Option Reason)
    → ◌≡◌ {A = Option Judgment} (some (d, reason)) (some (accept, last))
    → d ≡ accept
decided d reason last h = ap (λ (j : Judgment). j.0) (some-injective h)

module _ {F : Type 0} (lt : F → F → Bool) (hundredths : ℕ → F) (t : VerificationThresholds F)
    (answers : Answers F) where
  -- The answer is there, and lies below neither of the two limits.
  abbrev pub Supported : Text → Type 0
  Supported key =
      (x : F) × (noul_at lt hundredths t answers key ≡ some x)
      × (lt x t.reject_support ≡ false)
      × (lt x t.accept_support ≡ false)

  round-accept :
      (key : Text) (o : Option F) (j : Judgment) (next : Judgment → Option Judgment)
      (last : Option Reason)
      → support_round lt hundredths t answers key o j next ≡ some (accept, last)
      → (x : F) × (o ≡ some x)
        × (lt x t.reject_support ≡ false)
        × (next (if lt x t.accept_support then (doubt, some (uncertain key)) else j)
            ≡ some (accept, last))
  round-accept key none j next last h = cc
  round-accept key (some x) j next last h = elim (Bool-cases (lt x t.reject_support)) [
    | inl e ↦
        let d : reject ≡ accept = decided reject (some (unsupported key)) last (rw e at h) in cc
    | inr e ↦ (x, refl, e, rw e at h)
  ]

  supports-accept :
      (keys : List Text) (decision : VerificationDecision) (reason last : Option Reason)
      → supports lt hundredths t answers keys (decision, reason) ≡ some (accept, last)
      → (decision ≡ accept) × All Supported keys
  unfolding supports
  supports-accept [] decision reason last h = (decided decision reason last h, tt)
  supports-accept (key ∷ keys) decision reason last h =
      let (x, found, enough, rest) =
        round-accept key (noul_at lt hundredths t answers key) (decision, reason) _ last h in
      elim (Bool-cases (lt x t.accept_support)) [
        | inl e ↦
            let (d, _) = supports-accept keys doubt (some (uncertain key)) last (rw e at rest) in cc
        | inr e ↦
            let (d, more) = supports-accept keys decision reason last (rw e at rest) in
            (d, ((x, found, enough, e), more))
      ]

  -- Nothing spoke against the item before its route.
  abbrev pub Accepted : Type 0
  Accepted =
      (injected lt hundredths t answers ≡ false)
      × All Supported support_keys
      × (below lt hundredths t.reject_support (noul_at lt hundredths t answers item_key) ≡ false)

  item_checked-accept :
      (o : Option Judgment) (last : Option Reason)
      → item_checked lt hundredths t answers o ≡ some (accept, last)
      → (below lt hundredths t.reject_support (noul_at lt hundredths t answers item_key) ≡ false)
        × (o ≡ some (accept, last))
  item_checked-accept none last h = cc
  item_checked-accept (some j) last h =
      elim (Bool-cases
        (below lt hundredths t.reject_support (noul_at lt hundredths t answers item_key))) [
          | inl e ↦
              let d : reject ≡ accept = decided reject (some item_not_supported) last (rw e at h) in
              cc
          | inr e ↦ (e, rw e at h)
        ]

  pub supported-accept :
      (last : Option Reason) → supported lt hundredths t answers ≡ some (accept, last) → Accepted
  unfolding supported
  supported-accept last h = elim (Bool-cases (injected lt hundredths t answers)) [
    | inl e ↦ absurd (doubted (all_answered lt hundredths t answers support_keys) (rw e at h))
    | inr e ↦
        let (present, j) = item_checked-accept _ last (rw e at h) in
        (e, (supports-accept support_keys accept none last j).1, present)
  ]
    where
      doubted :
          (b : Bool)
          → ◌≡◌ {A = Option Judgment}
              (if b then some (doubt, some prompt_injection) else none)
              (some (accept, last))
          → ⊥
      doubted true k = let d : doubt ≡ accept = decided doubt (some prompt_injection) last k in cc
      doubted false k = cc
