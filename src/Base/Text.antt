-- ===== src/Base/Text.antt =====
-- Go strings, as lists of code points, with the functions of `strings` that the program calls.
-- Their `len` is the length of the UTF-8 encoding.
use Prim.Native.Char.{code}
use Prim.Native.Nat.{ℕ, ◌+◌}
use Prim.Native.String.{String}
use mathlib.Core.Path.{◌≡◌, refl}
use mathlib.Core.Logic.{◌↔◌, inl, inr}
use mathlib.Core.Bool.{Bool, true, false, not, ◌&&◌, ◌||◌}
use mathlib.Core.List.{List, [], ◌∷◌, ◌++◌}
use native.Mathlib.Omega.{arith}
use index_01_hook.Base.Tests.{ltb, leb, ◌==◌, if◌then◌else◌, Bool-cases}

abbrev pub Text : Type 0
Text = List ℕ

-- The code points of a literal.
abbrev pub codes : String → Text
codes String.[] = []
codes (String.◌∷◌ c s) = code c ∷ codes s

unfoldable pub text_eq : Text → Text → Bool
text_eq [] [] = true
text_eq (a ∷ s) (b ∷ t) = (a == b) && text_eq s t
text_eq _ _ = false

pub text_eq_iff : (s t : Text) → (text_eq s t ≡ true) ↔ (s ≡ t)
unfolding text_eq
text_eq_iff [] [] = ground arith
text_eq_iff (a ∷ s) (b ∷ t) = ground (arith, text_eq_iff s t)
text_eq_iff [] (b ∷ t) = ground arith
text_eq_iff (a ∷ s) [] = ground arith

pub text_eq_refl : (s : Text) → text_eq s s ≡ true
text_eq_refl s = (text_eq_iff s s).1 refl

abbrev pub is_blank : Text → Bool
is_blank [] = true
is_blank (c ∷ s) = false

-- The bytes of a code point in UTF-8, and `len` of a string.
unfoldable pub rune_length : ℕ → ℕ
rune_length c = if ltb c 0x80 then 1 else if ltb c 0x800 then 2 else if ltb c 0x10000 then 3 else 4

unfoldable pub byte_length : Text → ℕ
unfolding rune_length
byte_length [] = 0
byte_length (c ∷ s) = rune_length c + byte_length s

-- `unicode.IsSpace`.
unfoldable pub is_space : ℕ → Bool
is_space c =
    (leb 9 c && leb c 13)
    || c == 32
    || c == 0x85
    || c == 0xa0
    || c == 0x1680
    || (leb 0x2000 c && leb c 0x200a)
    || c == 0x2028
    || c == 0x2029
    || c == 0x202f
    || c == 0x205f
    || c == 0x3000

trim_left : Text → Text
trim_left [] = []
trim_left (c ∷ s) = if is_space c then trim_left s else c ∷ s

abbrev keep_right : ℕ → Text → Text
keep_right c [] = if is_space c then [] else c ∷ []
keep_right c (d ∷ s) = c ∷ d ∷ s

trim_right : Text → Text
trim_right [] = []
trim_right (c ∷ s) = keep_right c (trim_right s)

-- `strings.TrimSpace`.
unfoldable pub trim_space : Text → Text
unfolding trim_left trim_right is_space
trim_space s = trim_right (trim_left s)

keep_right-trim_right :
    (c : ℕ) (s : Text) → trim_right s ≡ s → trim_right (keep_right c s) ≡ keep_right c s
unfolding trim_right
keep_right-trim_right c [] h = ground arith
keep_right-trim_right c (d ∷ s) h = rw h

trim_right_idem : (s : Text) → trim_right (trim_right s) ≡ trim_right s
unfolding trim_right
trim_right_idem [] = refl
trim_right_idem (c ∷ s) = keep_right-trim_right c (trim_right s) (trim_right_idem s)

trim_left-keep_right :
    (c : ℕ) (s : Text) → is_space c ≡ false → trim_left (keep_right c s) ≡ keep_right c s
unfolding trim_left
trim_left-keep_right c [] h = ground arith
trim_left-keep_right c (d ∷ s) h = rw h

trim_left-trim_right_left :
    (s : Text) → trim_left (trim_right (trim_left s)) ≡ trim_right (trim_left s)
unfolding trim_left trim_right
trim_left-trim_right_left [] = refl
trim_left-trim_right_left (c ∷ s) = elim (Bool-cases (is_space c)) [
  | inl e ↦ rw e (trim_left-trim_right_left s)
  | inr e ↦ rw e (trim_left-keep_right c (trim_right s) e)
]

-- Trimming twice is trimming once.
pub trim_space_idem : (s : Text) → trim_space (trim_space s) ≡ trim_space s
unfolding trim_space
trim_space_idem s = rw (trim_left-trim_right_left s) (trim_right_idem (trim_left s))

-- A text without spaces.
unfoldable pub is_solid : Text → Bool
is_solid [] = true
is_solid (c ∷ s) = not (is_space c) && is_solid s

trim_right-is_solid : (s : Text) → is_solid s ≡ true → trim_right s ≡ s
unfolding is_solid trim_right
trim_right-is_solid [] h = refl
trim_right-is_solid (c ∷ []) h = elim (Bool-cases (is_space c)) [
  | inl e ↦ absurd (ground arith)
  | inr e ↦ rw e
]
trim_right-is_solid (c ∷ d ∷ s) h = rw (trim_right-is_solid (d ∷ s) (ground arith))

pub trim_space-is_solid : (s : Text) → is_solid s ≡ true → trim_space s ≡ s
unfolding is_solid trim_space trim_left
trim_space-is_solid [] h = trim_right-is_solid [] h
trim_space-is_solid (c ∷ s) h =
    let e : is_space c ≡ false = ground arith in rw e (trim_right-is_solid (c ∷ s) h)

pub is_solid-append :
    (s t : Text) → is_solid s ≡ true → is_solid t ≡ true → is_solid (s ++ t) ≡ true
unfolding is_solid
is_solid-append [] t a b = b
is_solid-append (c ∷ s) t a b = let rest = is_solid-append s t (ground arith) b in ground arith

pub trim_space_nil : trim_space [] ≡ []
unfolding trim_space
trim_space_nil = refl

-- `strings.ToLower`. Go's table of lower-case letters beyond ASCII is the parameter `fold`.
module _ (fold : ℕ → ℕ) where
  unfoldable pub lower_rune : ℕ → ℕ
  lower_rune c = if leb b'A' c && leb c b'Z' then c + 32 else if ltb c 128 then c else fold c

  unfoldable pub to_lower : Text → Text
  unfolding lower_rune
  to_lower [] = []
  to_lower (c ∷ s) = lower_rune c ∷ to_lower s

-- What the program relies on of that table: lowering is stable and keeps spaces apart from letters.
pub record IsCaseTable (fold : ℕ → ℕ) : Type 0 where
  pub stable : (c : ℕ) → lower_rune fold (lower_rune fold c) ≡ lower_rune fold c
  pub spaces : (c : ℕ) → is_space (lower_rune fold c) ≡ is_space c

module _ (fold : ℕ → ℕ) (table : IsCaseTable fold) where
  pub to_lower_idem : (s : Text) → to_lower fold (to_lower fold s) ≡ to_lower fold s
  unfolding to_lower
  to_lower_idem [] = refl
  to_lower_idem (c ∷ s) = cc (table.stable c, to_lower_idem s)

  trim_left-to_lower : (s : Text) → trim_left (to_lower fold s) ≡ to_lower fold (trim_left s)
  unfolding trim_left to_lower
  trim_left-to_lower [] = refl
  trim_left-to_lower (c ∷ s) = elim (Bool-cases (is_space c)) [
    | inl e ↦ rw (table.spaces c, e) (trim_left-to_lower s)
    | inr e ↦ rw (table.spaces c, e)
  ]

  keep_right-to_lower :
      (c : ℕ) (s : Text)
      → keep_right (lower_rune fold c) (to_lower fold s) ≡ to_lower fold (keep_right c s)
  unfolding to_lower
  keep_right-to_lower c [] = elim (Bool-cases (is_space c)) [
    | inl e ↦ rw (table.spaces c, e)
    | inr e ↦ rw (table.spaces c, e)
  ]
  keep_right-to_lower c (d ∷ s) = refl

  trim_right-to_lower : (s : Text) → trim_right (to_lower fold s) ≡ to_lower fold (trim_right s)
  unfolding trim_right to_lower
  trim_right-to_lower [] = refl
  trim_right-to_lower (c ∷ s) = rw (trim_right-to_lower s) (keep_right-to_lower c (trim_right s))

  -- Trimming and lowering commute.
  pub trim_space-to_lower : (s : Text) → trim_space (to_lower fold s) ≡ to_lower fold (trim_space s)
  unfolding trim_space
  trim_space-to_lower s = rw (trim_left-to_lower s) (trim_right-to_lower (trim_left s))

trim_example : trim_space (codes "  a b ") ≡ codes "a b"
unfolding trim_space
trim_example = refl
