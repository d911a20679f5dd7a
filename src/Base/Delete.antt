-- ===== src/Base/Delete.antt =====
-- Statements that delete rows: what is left, and what is found as before.
use Prim.Native.Nat.{ℕ, ◌+◌}
use mathlib.Core.Path.{◌≡◌, refl, sym}
use mathlib.Core.Logic.{◌≢◌, inl, inr}
use mathlib.Core.Bool.{Bool, true, false}
use mathlib.Core.Option.{some}
use mathlib.Core.List.{List, [], ◌∷◌, Memᴰ}
use native.Mathlib.Omega.{arith}
use index_01_hook.Base.Tests.{Bool-cases}
use index_01_hook.Base.Lists.{All, length}
use index_01_hook.Base.Rows.{
  find_row, any_row, count_rows, delete_rows, any_row-find, find_row-sat, any_row_of_mem,
}
use index_01_hook.Base.Keys.{Distinct, find_row-mem}

module _ {ℓ κ} {A : Type ℓ} (P : A → Type κ) where
  pub delete_rows-All : (q : A → Bool) (rows : List A) → All P rows → All P (delete_rows q rows)
  unfolding delete_rows
  delete_rows-All q [] h = tt
  delete_rows-All q (r ∷ rows) h = elim (Bool-cases (q r)) [
    | inl e ↦ rw e (delete_rows-All q rows h.1)
    | inr e ↦ rw e (h.0, delete_rows-All q rows h.1)
  ]

module _ {ℓ} {A : Type ℓ} where
  pub delete_rows-kept :
      (q : A → Bool) (rows : List A) → All (λ r. q r ≡ false) (delete_rows q rows)
  unfolding delete_rows
  delete_rows-kept q [] = tt
  delete_rows-kept q (r ∷ rows) = elim (Bool-cases (q r)) [
    | inl e ↦ rw e (delete_rows-kept q rows)
    | inr e ↦ rw e (e, delete_rows-kept q rows)
  ]

  -- A row that is not deleted is found as before.
  pub find_row-delete_rows :
      (p q : A → Bool) (rows : List A) (r : A)
      → find_row p rows ≡ some r
      → q r ≡ false
      → find_row p (delete_rows q rows) ≡ some r
  unfolding find_row delete_rows
  find_row-delete_rows p q [] r h k = cc
  find_row-delete_rows p q (x ∷ rows) r h k = elim (Bool-cases (p x)) [
    | inl e ↦
        let same : some x ≡ some r = rw e at h in let stays : q x ≡ false = cc in rw (stays, e) same
    | inr e ↦
        let rest = find_row-delete_rows p q rows r (rw e at h) k in
        elim (Bool-cases (q x)) [ inl d ↦ rw d rest | inr d ↦ rw (d, e) rest ]
  ]

  -- What exists still exists where none of the rows that show it is deleted.
  pub any_row-delete_rows :
      (p q : A → Bool) (rows : List A)
      → ((r : A) → Memᴰ r rows → p r ≡ true → q r ≡ false)
      → any_row p rows ≡ true
      → any_row p (delete_rows q rows) ≡ true
  any_row-delete_rows p q rows keep h =
      let (r, found) = any_row-find p rows h in
      let hit = find_row-sat p rows r found in
      let stays =
        find_row-delete_rows p q rows r found (keep r (find_row-mem p rows r found) hit) in
      any_row_of_mem p (delete_rows q rows) r (find_row-mem p (delete_rows q rows) r stays) hit

  pub Distinct-delete_rows :
      (key : A → ℕ) (q : A → Bool) (rows : List A)
      → Distinct key rows
      → Distinct key (delete_rows q rows)
  unfolding delete_rows
  Distinct-delete_rows key q [] h = tt
  Distinct-delete_rows key q (x ∷ rows) h = elim (Bool-cases (q x)) [
    | inl e ↦ rw e (Distinct-delete_rows key q rows h.1)
    | inr e ↦
        rw e (delete_rows-All (λ y. key x ≢ key y) q rows h.0, Distinct-delete_rows key q rows h.1)
  ]

  pub mem-delete_rows :
      (q : A → Bool) (rows : List A) (r : A)
      → Memᴰ r rows
      → q r ≡ false
      → Memᴰ r (delete_rows q rows)
  unfolding delete_rows
  mem-delete_rows q [] r m h = elim m [ ]
  mem-delete_rows q (x ∷ rows) r (Memᴰ.head e) h =
      let stays : q x ≡ false = rw (sym e) h in rw stays (Memᴰ.head e)
  mem-delete_rows q (x ∷ rows) r (Memᴰ.tail m) h = elim (Bool-cases (q x)) [
    | inl e ↦ rw e (mem-delete_rows q rows r m h)
    | inr e ↦ rw e (Memᴰ.tail (mem-delete_rows q rows r m h))
  ]

  pub length-delete_rows :
      (q : A → Bool) (rows : List A) → length (delete_rows q rows) + count_rows q rows ≡ length rows
  unfolding delete_rows count_rows
  length-delete_rows q [] = refl
  length-delete_rows q (x ∷ rows) = elim (Bool-cases (q x)) [
    | inl e ↦ let rest = length-delete_rows q rows in rw e (omega arith)
    | inr e ↦ let rest = length-delete_rows q rows in rw e (omega arith)
  ]
