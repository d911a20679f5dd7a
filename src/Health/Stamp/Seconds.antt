-- ===== src/Health/Stamp/Seconds.antt =====
-- The order of the timestamps' texts is that of their seconds.
use index_01_hook.Base.{
  ℕ, ◌≤◌, ◌≡◌, refl, ap, true, false, some, List, [], ◌∷◌, arith, All, All-mono, Bool-cases, inl,
  inr, ◌⊎◌,
}
use index_01_hook.Queue.Types.{unix_seconds}
use index_01_hook.Health.Stamp.{stamp_before, first_stamp, earlier_stamp}

-- The first text of a column lies in no later second than any other.
stamp_before-seconds : (a b : ℕ) → stamp_before a b ≡ true → unix_seconds a ≤ unix_seconds b
unfolding stamp_before
stamp_before-seconds a b h = ground arith

not_stamp_before-seconds : (a b : ℕ) → stamp_before a b ≡ false → unix_seconds b ≤ unix_seconds a
unfolding stamp_before
not_stamp_before-seconds a b h = ground arith

earlier_stamp-seconds :
    (a b : ℕ)
    → (unix_seconds (earlier_stamp a (some b)) ≤ unix_seconds a)
      × (unix_seconds (earlier_stamp a (some b)) ≤ unix_seconds b)
earlier_stamp-seconds a b = elim (Bool-cases (stamp_before b a)) [
  | inl e ↦ let k = stamp_before-seconds b a e in rw e (k, omega arith)
  | inr e ↦ let k = not_stamp_before-seconds b a e in rw e (omega arith, k)
]

some-eq : {a b : ℕ} → some a ≡ some b → a ≡ b
some-eq h = cc

pub first_stamp-seconds :
    (xs : List ℕ) (m : ℕ) → first_stamp xs ≡ some m → All (λ x. unix_seconds m ≤ unix_seconds x) xs
unfolding first_stamp
first_stamp-seconds [] m h = tt
first_stamp-seconds (x ∷ []) m h = let e : x ≡ m = cc in (omega (arith, ap unix_seconds e), tt)
first_stamp-seconds (x ∷ y ∷ ys) m h =
    let n = earlier_stamp y (first_stamp ys) in
    let e : unix_seconds (earlier_stamp x (some n)) ≡ unix_seconds m =
      ap unix_seconds (some-eq h) in
    let (k, l) = earlier_stamp-seconds x n in
    (
      omega arith,
      All-mono (λ z. unix_seconds n ≤ unix_seconds z) (λ z. unix_seconds m ≤ unix_seconds z)
          (y ∷ ys) (λ z o. omega arith) (first_stamp-seconds (y ∷ ys) n refl),
    )

pub first_stamp-some : (xs : List ℕ) → (xs ≡ []) ⊎ ((m : ℕ) × (first_stamp xs ≡ some m))
unfolding first_stamp
first_stamp-some [] = inl refl
first_stamp-some (x ∷ xs) = inr (earlier_stamp x (first_stamp xs), refl)
