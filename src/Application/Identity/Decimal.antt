-- ===== src/Application/Identity/Decimal.antt =====
-- The decimal text of a number, as `%d` prints it and `strconv.Atoi` reads it.
use index_01_hook.Base.{
  ℕ, zero, suc, ◌+◌, ◌-◌, ◌*◌, ◌/◌, ◌%◌, ◌<◌, ◌≡◌, refl, sym, ◌∙◌, ap, inl, inr, ◌&&◌, false,
  Option, none, some, [], ◌∷◌, ◌++◌, arith, ltb, leb, if◌then◌else◌, Bool-cases,
}
use index_01_hook.Base.Text.{Text, is_blank}
use mathlib.Core.List.{append_assoc}

print_from : ℕ → ℕ → Text
print_from zero n = []
print_from (suc fuel) n =
    if ltb n 10 then (48 + n) ∷ [] else print_from fuel (n / 10) ++ ((48 + n % 10) ∷ [])

unfoldable pub print_ℕ : ℕ → Text
unfolding print_from
print_ℕ n = print_from (n + 1) n

-- `none` at a character that is no digit.
unfoldable pub read_from : ℕ → Text → Option ℕ
read_from acc [] = some acc
read_from acc (c ∷ s) =
    let rest = read_from (acc * 10 + (c - 48)) s in if leb 48 c && leb c 57 then rest else none

read_from-digit :
    (n d m : ℕ) (s : Text) → d < 10 → n * 10 + d ≡ m → read_from n ((48 + d) ∷ s) ≡ read_from m s
unfolding read_from
read_from-digit n d m s small e =
    let value : n * 10 + (48 + d - 48) ≡ m = omega arith in rw value (ground arith)

read_from-print_from :
    (fuel n : ℕ) (s : Text) → n < fuel → read_from 0 (print_from fuel n ++ s) ≡ read_from n s
unfolding print_from
read_from-print_from zero n s h = absurd (omega arith)
read_from-print_from (suc fuel) n s h = elim (Bool-cases (ltb n 10)) [
  | inl small ↦ rw small (read_from-digit 0 n n s (ground arith) (omega arith))
  | inr big ↦
      rw (big, append_assoc)
        (read_from-print_from fuel (n / 10) ((48 + n % 10) ∷ s) (ground arith)
          ∙ read_from-digit (n / 10) (n % 10) n s (omega arith) (omega arith))
]

-- Reading what was printed gives the number back.
pub read-print : (n : ℕ) → read_from 0 (print_ℕ n ++ []) ≡ some n
unfolding print_ℕ read_from
read-print n = read_from-print_from (n + 1) n [] (omega arith)

pub print_ℕ-injective : (m n : ℕ) → print_ℕ m ≡ print_ℕ n → m ≡ n
print_ℕ-injective m n h =
    let e : some m ≡ some n =
      sym (read-print m) ∙ ap (λ t. read_from 0 (t ++ [])) h ∙ read-print n in
    cc

last_is_blank : (s : Text) (c : ℕ) → is_blank (s ++ (c ∷ [])) ≡ false
last_is_blank [] c = refl
last_is_blank (d ∷ s) c = refl

print_from-is_blank : (fuel n : ℕ) → is_blank (print_from (suc fuel) n) ≡ false
unfolding print_from
print_from-is_blank fuel n = elim (Bool-cases (ltb n 10)) [
  | inl small ↦ rw small
  | inr big ↦ rw big (last_is_blank (print_from fuel (n / 10)) (48 + n % 10))
]

pub print_ℕ-is_blank : (n : ℕ) → is_blank (print_ℕ n) ≡ false
unfolding print_ℕ
print_ℕ-is_blank n = let e : n + 1 ≡ suc n = omega arith in rw e (print_from-is_blank n n)

print_example : print_ℕ 1207 ≡ b'1' ∷ b'2' ∷ b'0' ∷ b'7' ∷ []
unfolding print_ℕ
print_example = refl
