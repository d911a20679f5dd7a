-- ===== src/Base/Keys.antt =====
-- Tables with a primary key: a statement that names a key touches one row.
use Prim.Native.Nat.{ℕ}
use mathlib.Core.Path.{◌≡◌, refl, sym, ap, subst, ◌∙◌}
use mathlib.Core.Logic.{◌≢◌, inl, inr}
use mathlib.Core.Bool.{Bool, true, false, not, ◌&&◌}
use mathlib.Core.Option.{some}
use mathlib.Core.List.{List, [], ◌∷◌, ◌++◌, Memᴰ}
use native.Mathlib.Omega.{arith}
use index_01_hook.Base.Tests.{Bool-cases, ◌==◌}
use index_01_hook.Base.Lists.{All, All-mono, All-append}
use index_01_hook.Base.Rows.{find_row, any_row, count_rows, update_rows}

-- No two rows have one key.
abbrev pub Distinct {ℓ} : {A : Type ℓ} → (A → ℕ) → List A → Type 0
Distinct key [] = Unit
Distinct key (x ∷ xs) = All (λ y. key x ≢ key y) xs × Distinct key xs

module _ {ℓ} {A : Type ℓ} where
  pub mem-All {κ} : (P : A → Type κ) (rows : List A) (r : A) → All P rows → Memᴰ r rows → P r
  mem-All P [] r h m = elim m [ ]
  mem-All P (x ∷ xs) r h (Memᴰ.head e) = subst P (sym e) h.0
  mem-All P (x ∷ xs) r h (Memᴰ.tail m) = mem-All P xs r h.1 m

  pub find_row-mem : (p : A → Bool) (rows : List A) (r : A) → find_row p rows ≡ some r → Memᴰ r rows
  unfolding find_row
  find_row-mem p [] r h = cc
  find_row-mem p (x ∷ xs) r h = elim (Bool-cases (p x)) [
    | inl e ↦ Memᴰ.head (cc (e, h))
    | inr e ↦ Memᴰ.tail (find_row-mem p xs r (rw e at h))
  ]

module _ {ℓ} {A : Type ℓ} (key : A → ℕ) where
  -- The only row with the key of a member is that member.
  pub only_row :
      (rows : List A) (j : A)
      → Distinct key rows
      → Memᴰ j rows
      → All (λ r. key r ≡ key j → r ≡ j) rows
  only_row [] j d m = tt
  only_row (x ∷ xs) j d (Memᴰ.head e) = (
    (λ _. sym e),
    All-mono (λ y. key x ≢ key y) (λ r. key r ≡ key j → r ≡ j) xs
        (λ r away same. absurd (away (cc (e, same)))) d.0,
  )
  only_row (x ∷ xs) j d (Memᴰ.tail m) =
      ((λ same. absurd (mem-All (λ y. key x ≢ key y) xs j d.0 m same)), only_row xs j d.1 m)

  away-update_rows :
      (p : A → Bool) (f : A → A) (k : ℕ) (rows : List A)
      → ((r : A) → key (f r) ≡ key r)
      → All (λ y. k ≢ key y) rows
      → All (λ y. k ≢ key y) (update_rows p f rows)
  unfolding update_rows
  away-update_rows p f k [] same h = tt
  away-update_rows p f k (x ∷ xs) same h = elim (Bool-cases (p x)) [
    | inl e ↦ rw e ((λ q. h.0 (q ∙ same x)), away-update_rows p f k xs same h.1)
    | inr e ↦ rw e (h.0, away-update_rows p f k xs same h.1)
  ]

  -- An update that keeps the keys keeps them distinct.
  pub Distinct-update_rows :
      (p : A → Bool) (f : A → A) (rows : List A)
      → ((r : A) → key (f r) ≡ key r)
      → Distinct key rows
      → Distinct key (update_rows p f rows)
  unfolding update_rows
  Distinct-update_rows p f [] same h = tt
  Distinct-update_rows p f (x ∷ xs) same h = elim (Bool-cases (p x)) [
    | inl e ↦
        rw (e, same x)
          (away-update_rows p f (key x) xs same h.0, Distinct-update_rows p f xs same h.1)
    | inr e ↦ rw e (away-update_rows p f (key x) xs same h.0, Distinct-update_rows p f xs same h.1)
  ]

  pub Distinct-snoc :
      (rows : List A) (j : A)
      → All (λ r. key r ≢ key j) rows
      → Distinct key rows
      → Distinct key (rows ++ (j ∷ []))
  Distinct-snoc [] j away d = (tt, tt)
  Distinct-snoc (x ∷ xs) j away d =
      (All-append (λ y. key x ≢ key y) xs (j ∷ []) d.0 (away.0, tt), Distinct-snoc xs j away.1 d.1)

module _ {ℓ} {A : Type ℓ} where
  count_rows-none :
      (p : A → Bool) (rows : List A) → All (λ r. p r ≡ false) rows → count_rows p rows ≡ 0
  unfolding count_rows
  count_rows-none p [] h = refl
  count_rows-none p (x ∷ xs) h = ground (arith, count_rows-none p xs h.1)

  any_row-none :
      (p : A → Bool) (rows : List A) → All (λ r. p r ≡ false) rows → any_row p rows ≡ false
  unfolding any_row
  any_row-none p [] h = refl
  any_row-none p (x ∷ xs) h = ground (arith, any_row-none p xs h.1)

module _ {ℓ κ} {A : Type ℓ} (P : A → Type κ) (U : A → Type ℓ) where
  update_rows-only :
      (p : A → Bool) (f : A → A) (rows : List A)
      → ((r : A) → P r → U r → p r ≡ true → P (f r))
      → All P rows
      → All U rows
      → All P (update_rows p f rows)
  unfolding update_rows
  update_rows-only p f [] keep h u = tt
  update_rows-only p f (x ∷ xs) keep h u = elim (Bool-cases (p x)) [
    | inl e ↦ rw e (keep x h.0 u.0 e, update_rows-only p f xs keep h.1 u.1)
    | inr e ↦ rw e (h.0, update_rows-only p f xs keep h.1 u.1)
  ]

module _ {ℓ} {A : Type ℓ} (key : A → ℕ) (p : A → Bool) (j : A) where
  -- The statement can only touch rows with the key of `j`.
  abbrev pub Names : Type ℓ
  Names = (r : A) → p r ≡ true → key r ≡ key j

  -- A statement that names the key of `j` counts one row.
  pub count_rows-one :
      (rows : List A) → Distinct key rows → Memᴰ j rows → Names → p j ≡ true → count_rows p rows ≡ 1
  unfolding count_rows
  count_rows-one [] d m names hit = elim m [ ]
  count_rows-one (x ∷ xs) d (Memᴰ.head e) names hit = ground (
    arith,
    ap p e,
    count_rows-none p xs (
        All-mono (λ y. key x ≢ key y) (λ r. p r ≡ false) xs
          (λ r away. elim (Bool-cases (p r)) [
            | inl q ↦ absurd (away (sym (names r q ∙ ap key e)))
            | inr q ↦ q
          ])
          d.0),
  )
  count_rows-one (x ∷ xs) d (Memᴰ.tail m) names hit = elim (Bool-cases (p x)) [
    | inl q ↦ absurd (mem-All (λ y. key x ≢ key y) xs j d.0 m (names x q))
    | inr q ↦ rw q (ground (arith, count_rows-one xs d.1 m names hit))
  ]

  -- No other row makes the statement fail.
  pub any_row-one :
      (bad : A → Bool) (rows : List A)
      → Distinct key rows
      → Memᴰ j rows
      → Names
      → bad j ≡ false
      → any_row (λ r. p r && bad r) rows ≡ false
  any_row-one bad rows d m names good =
      any_row-none (λ r. p r && bad r) rows
        (All-mono (λ r. key r ≡ key j → r ≡ j) (λ r. (p r && bad r) ≡ false) rows
          (λ r only. elim (Bool-cases (p r)) [
            | inl q ↦ rw (q, only (names r q)) good
            | inr q ↦ rw q
          ])
          (only_row key rows j d m))

  -- An update that names the key of `j` changes `j` alone.
  pub update_rows-one {κ} :
      (P : A → Type κ) (f : A → A) (rows : List A)
      → Distinct key rows
      → Memᴰ j rows
      → Names
      → (P j → P (f j))
      → All P rows
      → All P (update_rows p f rows)
  update_rows-one P f rows d m names keep h =
      update_rows-only P (λ r. key r ≡ key j → r ≡ j) p f rows
        (λ r old only q.
          let same : r ≡ j = only (names r q) in
          subst (λ t. P (f t)) (sym same) (keep (subst P same old)))
        h (only_row key rows j d m)

module _ {ℓ κ μ} {A : Type ℓ} (P : A → Type κ) (Q : A → Type μ) where
  -- What an update makes of every row, touched or not.
  pub update_rows-both :
      (p : A → Bool) (f : A → A) (rows : List A)
      → ((r : A) → P r → p r ≡ true → Q (f r))
      → ((r : A) → P r → p r ≡ false → Q r)
      → All P rows
      → All Q (update_rows p f rows)
  unfolding update_rows
  update_rows-both p f [] hit miss h = tt
  update_rows-both p f (x ∷ xs) hit miss h = elim (Bool-cases (p x)) [
    | inl e ↦ rw e (hit x h.0 e, update_rows-both p f xs hit miss h.1)
    | inr e ↦ rw e (miss x h.0 e, update_rows-both p f xs hit miss h.1)
  ]

-- What an update made of a member is there.
pub any_row-update_rows {ℓ} :
    {A : Type ℓ} (p q : A → Bool) (f : A → A) (j : A) (rows : List A)
    → Memᴰ j rows
    → p j ≡ true
    → q (f j) ≡ true
    → any_row q (update_rows p f rows) ≡ true
unfolding any_row update_rows
any_row-update_rows p q f j [] m hit made = elim m [ ]
any_row-update_rows p q f j (x ∷ xs) (Memᴰ.head e) hit made =
    let e1 : p x ≡ true = rw (sym e) hit in let e2 : q (f x) ≡ true = rw (sym e) made in rw (e1, e2)
any_row-update_rows p q f j (x ∷ xs) (Memᴰ.tail m) hit made =
    let rest = any_row-update_rows p q f j xs m hit made in ground arith

-- A statement that counts a row has a row to count.
pub count_rows-mem {ℓ} :
    {A : Type ℓ} (p : A → Bool) (rows : List A)
    → count_rows p rows ≢ 0
    → (j : A) × Memᴰ j rows × (p j ≡ true)
unfolding count_rows
count_rows-mem p [] some_row = absurd (some_row refl)
count_rows-mem p (x ∷ xs) some_row = elim (Bool-cases (p x)) [
  | inl e ↦ (x, Memᴰ.head refl, e)
  | inr e ↦
      let (j, m, hit) = count_rows-mem p xs (λ none_left. some_row (ground arith)) in
      (j, Memᴰ.tail m, hit)
]

pub counted-one : (n : ℕ) → not (n == 1) ≡ false → n ≢ 0
counted-one n h e = ground arith
