-- ===== src/Base/Advance.antt =====
-- Tables that only move forward: every row is still there, related to what it was.
use Prim.Native.Nat.{ℕ}
use mathlib.Core.Path.{◌≡◌, refl, sym, subst, ◌∙◌}
use mathlib.Core.Logic.{inl, inr}
use mathlib.Core.Bool.{Bool, true, false, ◌&&◌}
use mathlib.Core.List.{List, [], ◌∷◌, ◌++◌, Memᴰ}
use native.Mathlib.Omega.{arith}
use index_01_hook.Base.Tests.{◌==◌, Bool-cases, &&_true}
use index_01_hook.Base.Lists.{All, All-mono}
use index_01_hook.Base.Rows.{
  any_row, update_rows, any_row-append, any_row-find, find_row-sat, any_row_of_mem,
}
use index_01_hook.Base.Keys.{Distinct, Names, mem-All, find_row-mem, only_row, any_row-update_rows}

pub All-of_mem {ℓ κ} :
    {A : Type ℓ} (P : A → Type κ) (rows : List A) → ((x : A) → Memᴰ x rows → P x) → All P rows
All-of_mem P [] h = tt
All-of_mem P (x ∷ rows) h = (h x (Memᴰ.head refl), All-of_mem P rows (λ y m. h y (Memᴰ.tail m)))

-- A row that a statement misses stays.
mem-update_rows {ℓ} :
    {A : Type ℓ} (p : A → Bool) (f : A → A) (rows : List A) (x : A)
    → Memᴰ x rows
    → p x ≡ false
    → Memᴰ x (update_rows p f rows)
unfolding update_rows
mem-update_rows p f [] x m miss = elim m [ ]
mem-update_rows p f (y ∷ ys) x (Memᴰ.head e) miss =
    let at_y : p y ≡ false = rw (sym e) miss in rw at_y (Memᴰ.head e)
mem-update_rows p f (y ∷ ys) x (Memᴰ.tail m) miss = Memᴰ.tail (mem-update_rows p f ys x m miss)

module _ {ℓ} {A : Type ℓ} (key : A → ℕ) (rel : A → A → Bool) where
  abbrev pub follows : A → A → Bool
  follows x y = key y == key x && rel x y

  -- Every row of the first table is followed by one of the second.
  abbrev pub Advance : List A → List A → Type 0
  Advance rows rows' = All (λ x. any_row (follows x) rows' ≡ true) rows

  pub Advance-refl : ((x : A) → rel x x ≡ true) → (rows : List A) → Advance rows rows
  Advance-refl self rows =
      All-of_mem _ rows (λ x m. any_row_of_mem (follows x) rows x m (follows-self x))
    where
      follows-self : (x : A) → follows x x ≡ true
      follows-self x = let e = self x in ground arith

  pub Advance-append :
      ((x : A) → rel x x ≡ true) → (rows more : List A) → Advance rows (rows ++ more)
  Advance-append self rows more =
      All-mono (λ x. any_row (follows x) rows ≡ true)
        (λ x. any_row (follows x) (rows ++ more) ≡ true) rows
        (λ x h. any_row-append (follows x) rows more ∙ (rw h)) (Advance-refl self rows)

  pub Advance-trans :
      ((x y z : A) → rel x y ≡ true → rel y z ≡ true → rel x z ≡ true)
      → (rows rows' rows'' : List A) → Advance rows rows'
      → Advance rows' rows''
      → Advance rows rows''
  Advance-trans trans rows rows' rows'' h h' =
      All-mono (λ x. any_row (follows x) rows' ≡ true) (λ x. any_row (follows x) rows'' ≡ true) rows
        (λ x found.
          let (y, at_y) = any_row-find (follows x) rows' found in
          let (z, at_z) = any_row-find (follows y) rows'' (
            mem-All (λ w. any_row (follows w) rows'' ≡ true) rows' y h'
              (find_row-mem (follows x) rows' y at_y)) in
          any_row_of_mem (follows x) rows'' z (find_row-mem (follows y) rows'' z at_z) (
            joined x y z (find_row-sat (follows x) rows' y at_y)
              (find_row-sat (follows y) rows'' z at_z)))
        h
    where
      joined : (x y z : A) → follows x y ≡ true → follows y z ≡ true → follows x z ≡ true
      joined x y z a b =
          let r =
            trans x y z (&&_true (key y == key x) (rel x y) a).1
              (&&_true (key z == key y) (rel y z) b).1 in
          ground arith

  -- A statement that changes one row, and makes of it one that follows it.
  pub Advance-update :
      (p : A → Bool) (f : A → A) (j : A) (rows : List A)
      → Distinct key rows
      → Memᴰ j rows
      → Names key p j
      → ((r : A) → key (f r) ≡ key r)
      → ((x : A) → rel x x ≡ true)
      → rel j (f j) ≡ true
      → Advance rows (update_rows p f rows)
  Advance-update p f j rows d m names same self moved = All-of_mem _ rows (λ x at.
      elim (Bool-cases (p x)) [
        | inl e ↦
            let one : x ≡ j =
              mem-All (λ r. key r ≡ key j → r ≡ j) rows x (only_row key rows j d m) at
                (names x e) in
            any_row-update_rows p (follows x) f x rows at e
              (made x (same x) (subst (λ r. rel r (f r) ≡ true) (sym one) moved))
        | inr e ↦
            any_row_of_mem (follows x) (update_rows p f rows) x (mem-update_rows p f rows x at e)
              (made_self x (self x))
      ])
    where
      made : (x : A) → key (f x) ≡ key x → rel x (f x) ≡ true → follows x (f x) ≡ true
      made x a b = ground arith

      made_self : (x : A) → rel x x ≡ true → follows x x ≡ true
      made_self x a = ground arith
