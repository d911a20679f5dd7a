-- ===== src/Base/Rows.antt =====
-- Tables as lists of rows, with the statements that the program's SQL is made of.
use Prim.Native.Nat.{ℕ, ◌+◌, ◌≤◌, ◌<◌, max}
use mathlib.Core.Path.{◌≡◌, refl, sym, ap, subst}
use mathlib.Core.Logic.{◌≢◌, ◌⊎◌, inl, inr}
use mathlib.Core.Bool.{Bool, true, false, ◌&&◌, ◌||◌}
use mathlib.Core.Option.{Option, none, some}
use mathlib.Core.List.{List, [], ◌∷◌, ◌++◌, Memᴰ}
use native.Mathlib.Omega.{arith}
use index_01_hook.Base.Tests.{ltb, ◌==◌, if◌then◌else◌, Bool-cases, Option-cases}
use index_01_hook.Base.Lists.{All, All-mono}

module _ {ℓ} {A : Type ℓ} where
  -- `SELECT … WHERE p` of at most one row.
  unfoldable pub find_row : (A → Bool) → List A → Option A
  find_row p [] = none
  find_row p (r ∷ rs) = if p r then some r else find_row p rs

  -- `SELECT EXISTS(SELECT 1 … WHERE p)`.
  unfoldable pub any_row : (A → Bool) → List A → Bool
  any_row p [] = false
  any_row p (r ∷ rs) = p r || any_row p rs

  -- `SELECT count(*) … WHERE p`.
  unfoldable pub count_rows : (A → Bool) → List A → ℕ
  count_rows p [] = 0
  count_rows p (r ∷ rs) = (if p r then 1 else 0) + count_rows p rs

  -- `UPDATE … SET f WHERE p`.
  unfoldable pub update_rows : (A → Bool) → (A → A) → List A → List A
  update_rows p f [] = []
  update_rows p f (r ∷ rs) = (if p r then f r else r) ∷ update_rows p f rs

  -- `DELETE … WHERE p`.
  unfoldable pub delete_rows : (A → Bool) → List A → List A
  delete_rows p [] = []
  delete_rows p (r ∷ rs) = let rest = delete_rows p rs in if p r then rest else r ∷ rest

  abbrev comes_before : (A → ℕ) → (A → ℕ) → A → A → Bool
  comes_before key id x y = ltb (key x) (key y) || (key x == key y && ltb (id x) (id y))

  abbrev pick_first : (A → ℕ) → (A → ℕ) → A → Option A → Option A
  pick_first key id x none = some x
  pick_first key id x (some y) = if comes_before key id y x then some y else some x

  -- `SELECT … WHERE p ORDER BY key, id LIMIT 1`.
  unfoldable pub first_row : (A → ℕ) → (A → ℕ) → (A → Bool) → List A → Option A
  first_row key id p [] = none
  first_row key id p (r ∷ rs) =
      let rest = first_row key id p rs in if p r then pick_first key id r rest else rest

module _ {ℓ} {A : Type ℓ} where
  pub find_row-sat : (p : A → Bool) (rs : List A) (r : A) → find_row p rs ≡ some r → p r ≡ true
  unfolding find_row
  find_row-sat p [] r h = cc
  find_row-sat p (x ∷ rs) r h = ground (arith, find_row-sat p rs r)

  pub any_row-append :
      (p : A → Bool) (xs ys : List A) → any_row p (xs ++ ys) ≡ (any_row p xs || any_row p ys)
  unfolding any_row
  any_row-append p [] ys = refl
  any_row-append p (x ∷ xs) ys = ground (arith, any_row-append p xs ys)

  pub first_row-sat :
      (key id : A → ℕ) (p : A → Bool) (rs : List A) (r : A)
      → first_row key id p rs ≡ some r
      → p r ≡ true
  unfolding first_row
  first_row-sat key id p [] r h = cc
  first_row-sat key id p (x ∷ rs) r h = ground (arith, first_row-sat key id p rs r)

  pick_first-ne-none : (key id : A → ℕ) (x : A) (o : Option A) → pick_first key id x o ≢ none
  pick_first-ne-none key id x none h = cc
  pick_first-ne-none key id x (some y) h = ground arith

  pick_first-cases :
      (key id : A → ℕ) (x : A) (o : Option A) (r : A)
      → pick_first key id x o ≡ some r
      → (x ≡ r) ⊎ (o ≡ some r)
  pick_first-cases key id x none r h = ground arith
  pick_first-cases key id x (some y) r h = ground arith

  first_row-cases :
      (key id : A → ℕ) (p : A → Bool) (x : A) (rs : List A) (r : A)
      → first_row key id p (x ∷ rs) ≡ some r
      → (x ≡ r) ⊎ (first_row key id p rs ≡ some r)
  unfolding first_row
  first_row-cases key id p x rs r h = elim (Bool-cases (p x)) [
    | inl e ↦ pick_first-cases key id x (first_row key id p rs) r (rw e at h)
    | inr e ↦ inr (rw e at h)
  ]

  pub first_row-none :
      (key id : A → ℕ) (p : A → Bool) (rs : List A)
      → first_row key id p rs ≡ none
      → All (λ r. p r ≡ false) rs
  unfolding first_row
  first_row-none key id p [] h = tt
  first_row-none key id p (x ∷ rs) h = elim (Bool-cases (p x)) [
    | inl e ↦ absurd (pick_first-ne-none key id x (first_row key id p rs) (rw e at h))
    | inr e ↦ (e, first_row-none key id p rs (rw e at h))
  ]

  pub first_row-mem :
      (key id : A → ℕ) (p : A → Bool) (rs : List A) (r : A)
      → first_row key id p rs ≡ some r
      → Memᴰ r rs
  unfolding first_row
  first_row-mem key id p [] r h = cc
  first_row-mem key id p (x ∷ rs) r h = elim (first_row-cases key id p x rs r h) [
    | inl e ↦ Memᴰ.head (sym e)
    | inr e ↦ Memᴰ.tail (first_row-mem key id p rs r e)
  ]

  -- `r` stands before `x`, or is no later, in the order of the two keys.
  abbrev pub NoLater : (A → ℕ) → (A → ℕ) → A → A → Type 0
  NoLater key id r x = (key r < key x) ⊎ ((key r ≡ key x) × (id r ≤ id x))

  pick_first-least :
      (key id : A → ℕ) (x y : A) (r : A)
      → pick_first key id x (some y) ≡ some r
      → NoLater key id r x × NoLater key id r y
  pick_first-least key id x y r h = ground arith

  NoLater-trans :
      (key id : A → ℕ) (x y z : A) → NoLater key id x y → NoLater key id y z → NoLater key id x z
  NoLater-trans key id x y z h k = ground arith

  -- No other row that qualifies stands before the row that is picked.
  pub first_row-least :
      (key id : A → ℕ) (p : A → Bool) (rs : List A) (r : A)
      → first_row key id p rs ≡ some r
      → All (λ x. p x ≡ true → NoLater key id r x) rs
  unfolding first_row
  first_row-least key id p [] r h = tt
  first_row-least key id p (x ∷ rs) r h = elim (Bool-cases (p x)) [
    | inr e ↦ ((λ t. cc), first_row-least key id p rs r (rw e at h))
    | inl e ↦ elim (Option-cases (first_row key id p rs)) [
      | inl n ↦ (
        (λ t. ground arith),
        All-mono (λ x. p x ≡ false) (λ x. p x ≡ true → NoLater key id r x) rs (λ y f t. cc)
            (first_row-none key id p rs n),
      )
      | inr (y, s) ↦
          let both = pick_first-least key id x y r (rw (e, s) at h) in
          (
            (λ t. both.0),
            All-mono (λ z. p z ≡ true → NoLater key id y z) (λ z. p z ≡ true → NoLater key id r z)
                rs (λ z f t. NoLater-trans key id r y z both.1 (f t))
                (first_row-least key id p rs y s),
          )
    ]
  ]

module _ {ℓ κ} {A : Type ℓ} (P : A → Type κ) where
  pub update_rows-All :
      (p : A → Bool) (f : A → A) (rs : List A)
      → ((r : A) → P r → p r ≡ true → P (f r))
      → All P rs
      → All P (update_rows p f rs)
  unfolding update_rows
  update_rows-All p f [] keep h = tt
  update_rows-All p f (r ∷ rs) keep h = elim (Bool-cases (p r)) [
    | inl e ↦ rw e (keep r h.0 e, update_rows-All p f rs keep h.1)
    | inr e ↦ rw e (h.0, update_rows-All p f rs keep h.1)
  ]

  pub find_row-All : (p : A → Bool) (rs : List A) (r : A) → All P rs → find_row p rs ≡ some r → P r
  unfolding find_row
  find_row-All p [] r h e = cc
  find_row-All p (x ∷ rs) r h e = elim (Bool-cases (p x)) [
    | inl t ↦ subst P (cc t) h.0
    | inr t ↦ find_row-All p rs r h.1 (rw t at e)
  ]

  pub first_row-All :
      (key id : A → ℕ) (p : A → Bool) (rs : List A) (r : A)
      → All P rs
      → first_row key id p rs ≡ some r
      → P r
  unfolding first_row
  first_row-All key id p [] r h e = cc
  first_row-All key id p (x ∷ rs) r h e = elim (first_row-cases key id p x rs r e) [
    | inl q ↦ subst P q h.0
    | inr q ↦ first_row-All key id p rs r h.1 q
  ]

module _ {ℓ} {A : Type ℓ} where
  -- The id that SQLite gives a new row of an `INTEGER PRIMARY KEY`: one above the largest.
  unfoldable pub next_id : (A → ℕ) → List A → ℕ
  next_id id [] = 1
  next_id id (r ∷ rs) = max (id r + 1) (next_id id rs)

  pub next_id-above : (id : A → ℕ) (rs : List A) → All (λ r. id r < next_id id rs) rs
  unfolding next_id
  next_id-above id [] = tt
  next_id-above id (r ∷ rs) = (
    omega arith,
    All-mono (λ x. id x < next_id id rs) (λ x. id x < max (id r + 1) (next_id id rs)) rs
        (λ x h. omega arith) (next_id-above id rs),
  )

module _ {ℓ} {A : Type ℓ} where
  -- What exists is found.
  pub any_row-find :
      (p : A → Bool) (rs : List A) → any_row p rs ≡ true → (r : A) × (find_row p rs ≡ some r)
  unfolding any_row find_row
  any_row-find p [] h = cc
  any_row-find p (x ∷ rs) h = elim (Bool-cases (p x)) [
    | inl e ↦ (x, rw e)
    | inr e ↦ rw e (any_row-find p rs (rw e at h))
  ]

  pub any_row_of_mem :
      (p : A → Bool) (rs : List A) (r : A) → Memᴰ r rs → p r ≡ true → any_row p rs ≡ true
  unfolding any_row
  any_row_of_mem p [] r m h = elim m [ ]
  any_row_of_mem p (x ∷ rs) r (Memᴰ.head e) h = ground (arith, ap p e)
  any_row_of_mem p (x ∷ rs) r (Memᴰ.tail m) h = ground (arith, any_row_of_mem p rs r m h)
