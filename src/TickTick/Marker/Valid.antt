-- ===== src/TickTick/Marker/Valid.antt =====
-- validTickTickMarker of ticktick.go on the markers that tickTickMarker makes.
use mathlib.Core.List.{append-nil, append_assoc}
use index_01_hook.Base.{
  ℕ, ◌+◌, ◌-◌, ◌*◌, ◌<◌, ◌^◌, ◌≡◌, refl, sym, subst, ◌∙◌, ap, inl, inr, Bool, true, false, ◌&&◌,
  ◌||◌, Option, none, some, List, [], ◌∷◌, ◌++◌, arith, ◌==◌, leb, ltb, length, Bool-cases, ◌⊎◌,
}
use index_01_hook.Base.Int.{pos}
use index_01_hook.Base.Rows.{any_row}
use index_01_hook.Base.Text.{
  Text, codes, is_space, is_solid, is_solid-append, trim_space-is_solid, is_blank, trim_space,
  byte_length, rune_length, to_lower, lower_rune, text_eq, text_eq_refl,
}
use index_01_hook.Application.Identity.Markers.{
  has_32_bytes-some, marker_of-some, new_item_identity-made, new_item_identity-length,
  new_item_identity-index,
}
use index_01_hook.Application.Identity.Decimal.{print_ℕ-is_blank, print_ℕ, read_from, read-print}
use index_01_hook.Application.Identity.{
  ItemIdentity, hex_value, decode_hex, join_digits, new_item_identity, format_marker,
  tick_tick_marker, has_32_bytes,
}
use index_01_hook.TickTick.Marker.{
  positive, split_at, strip_prefix, strip_bracket, digits, atoi, valid_tick_tick_marker, has_frame,
  has_body, has_two_parts, is_canonical,
}

-- Letters and digits of a hexadecimal text.
abbrev is_hex : ℕ → Bool
is_hex c = (leb 48 c && leb c 57) || (leb 97 c && leb c 102) || (leb 65 c && leb c 70)

unfoldable all_hex : Text → Bool
all_hex [] = true
all_hex (c ∷ s) = is_hex c && all_hex s

is_hex-solid : (c : ℕ) → is_hex c ≡ true → is_space c ≡ false
unfolding is_space
is_hex-solid c h = ground arith

all_hex-is_solid : (s : Text) → all_hex s ≡ true → is_solid s ≡ true
unfolding all_hex is_solid
all_hex-is_solid [] h = refl
all_hex-is_solid (c ∷ s) h =
    let e = is_hex-solid c (ground arith) in rw e (all_hex-is_solid s (ground arith))

not_line : (c : ℕ) → is_space c ≡ false → (c == 13 || c == 10) ≡ false
unfolding is_space
not_line c h = elim (Bool-cases (c == 13 || c == 10)) [
  | inl e ↦ absurd (apart c (ground arith) h)
  | inr e ↦ e
]
  where
    apart : (c : ℕ) → (c ≡ 13) ⊎ (c ≡ 10) → is_space c ≡ false → ⊥
    apart c (inl e) h = let k : is_space 13 ≡ false = ap is_space (sym e) ∙ h in cc
    apart c (inr e) h = let k : is_space 10 ≡ false = ap is_space (sym e) ∙ h in cc

is_solid-lines : (s : Text) → is_solid s ≡ true → any_row (λ c. c == 13 || c == 10) s ≡ false
unfolding is_solid any_row
is_solid-lines [] h = refl
is_solid-lines (c ∷ s) h =
    let line = not_line c (ground arith) in rw (line, is_solid-lines s (ground arith))

split_at-one : (s : Text) → all_hex s ≡ true → split_at 58 s ≡ s ∷ []
unfolding all_hex split_at
split_at-one [] h = refl
split_at-one (c ∷ s) h =
    let e : (c == 58) ≡ false = ground arith in rw (e, split_at-one s (ground arith))

split_at-two : (s t : Text) → all_hex s ≡ true → split_at 58 (s ++ (58 ∷ t)) ≡ s ∷ split_at 58 t
unfolding all_hex split_at
split_at-two [] t h = refl
split_at-two (c ∷ s) t h =
    let e : (c == 58) ≡ false = ground arith in rw (e, split_at-two s t (ground arith))

strip_bracket-last : (s : Text) → strip_bracket (s ++ (93 ∷ [])) ≡ some s
unfolding strip_bracket
strip_bracket-last [] = refl
strip_bracket-last (c ∷ []) = refl
strip_bracket-last (c ∷ d ∷ s) = rw (strip_bracket-last (d ∷ s))

-- What is read as a number is made of digits.
digits-all_hex : (acc : ℕ) (s : Text) (n : ℕ) → digits acc s ≡ some n → all_hex s ≡ true
unfolding digits all_hex
digits-all_hex acc [] n h = refl
digits-all_hex acc (c ∷ s) n h = elim (Bool-cases (leb 48 c && leb c 57)) [
  | inl e ↦
      let rest = digits-all_hex (acc * 10 + (c - 48)) s n (rw e at h) in
      let first : is_hex c ≡ true = ground arith in rw (first, rest)
  | inr e ↦ absurd (let k : ◌≡◌ {A = Option ℕ} none (some n) = rw e at h in cc)
]

digits-read_from : (acc : ℕ) (s : Text) → digits acc s ≡ read_from acc s
unfolding digits read_from
digits-read_from acc [] = refl
digits-read_from acc (c ∷ s) = rw (digits-read_from (acc * 10 + (c - 48)) s)

digits-print : (n : ℕ) → digits 0 (print_ℕ n) ≡ some n
digits-print n =
    digits-read_from 0 (print_ℕ n) ∙ ap (read_from 0) (sym (append-nil (print_ℕ n))) ∙ read-print n

digits-first :
    (acc c : ℕ) (s : Text) (n : ℕ) → digits acc (c ∷ s) ≡ some n → (leb 48 c && leb c 57) ≡ true
unfolding digits
digits-first acc c s n h = elim (Bool-cases (leb 48 c && leb c 57)) [
  | inl e ↦ e
  | inr e ↦ absurd (let k : ◌≡◌ {A = Option ℕ} none (some n) = rw e at h in cc)
]

unsigned :
    (c : ℕ) (s : Text) → (leb 48 c && leb c 57) ≡ true → atoi (c ∷ s) ≡ positive (digits 0 (c ∷ s))
unfolding atoi
unsigned c s digit =
    let minus : (c == 45) ≡ false = ground arith in
    let plus : (c == 43) ≡ false = ground arith in rw (minus, plus)

atoi-digits :
    (s : Text) (n : ℕ)
    → is_blank s ≡ false
    → n < 2 ^ 63
    → digits 0 s ≡ some n
    → atoi s ≡ some (pos n)
atoi-digits [] n full small h = cc
atoi-digits (c ∷ s) n full small h =
    let fits : ltb n (2 ^ 63) ≡ true = ground arith in
    unsigned c s (digits-first 0 c s n h) ∙ ap positive h ∙ rw fits

-- A text that is decoded is hexadecimal.
join_digits-parts :
    (a b : Option ℕ) (rest : Option (List ℕ)) (bytes : List ℕ)
    → join_digits a b rest ≡ some bytes
    → (x y : ℕ) × (tail : List ℕ) × (a ≡ some x) × (b ≡ some y) × (rest ≡ some tail)
join_digits-parts (some x) (some y) (some tail) bytes h = (x, y, tail, refl, refl, refl)
join_digits-parts none b rest bytes h = cc
join_digits-parts (some a) none rest bytes h = cc
join_digits-parts (some a) (some b) none bytes h = cc

hex_value-is_hex : (c x : ℕ) → hex_value c ≡ some x → is_hex c ≡ true
hex_value-is_hex c x h = ground arith

decode_hex-all_hex : (s : Text) (bytes : List ℕ) → decode_hex s ≡ some bytes → all_hex s ≡ true
unfolding decode_hex all_hex
decode_hex-all_hex [] bytes h = refl
decode_hex-all_hex (a ∷ []) bytes h = cc
decode_hex-all_hex (a ∷ b ∷ s) bytes h =
    let (x, y, tail, first, second, read) =
      join_digits-parts (hex_value a) (hex_value b) (decode_hex s) bytes h in
    let front = hex_value-is_hex a x first in
    let back = hex_value-is_hex b y second in rw (front, back, decode_hex-all_hex s tail read)

all_hex-byte_length : (s : Text) → all_hex s ≡ true → byte_length s ≡ length s
unfolding all_hex byte_length rune_length
all_hex-byte_length [] h = refl
all_hex-byte_length (c ∷ s) h =
    let rest = all_hex-byte_length s (ground arith) in
    let short : ltb c 128 ≡ true = ground arith in rw (short, rest) (omega arith)

open_solid : is_solid (codes "[index01:") ≡ true
unfolding is_solid is_space
open_solid = refl

colon_solid : is_solid (58 ∷ []) ≡ true
unfolding is_solid is_space
colon_solid = refl

close_solid : is_solid (93 ∷ []) ≡ true
unfolding is_solid is_space
close_solid = refl

module _ (fold : ℕ → ℕ) (x : ItemIdentity) (read : has_32_bytes (decode_hex x.fingerprint) ≡ true)
    (long : length x.fingerprint ≡ 64) (lowered : to_lower fold x.fingerprint ≡ x.fingerprint)
    (small : x.index < 2 ^ 63) where
  hex : all_hex x.fingerprint ≡ true
  hex =
      let (bytes, is_some, _) = has_32_bytes-some (decode_hex x.fingerprint) read in
      decode_hex-all_hex x.fingerprint bytes is_some

  number : all_hex (print_ℕ x.index) ≡ true
  number = digits-all_hex 0 (print_ℕ x.index) x.index (digits-print x.index)

  canonical : tick_tick_marker fold x.fingerprint (pos x.index) ≡ some (format_marker x)
  unfolding tick_tick_marker new_item_identity
  canonical =
      let trimmed = trim_space-is_solid x.fingerprint (all_hex-is_solid x.fingerprint hex) in
      let bytes = all_hex-byte_length x.fingerprint hex ∙ long in rw (trimmed, bytes, lowered, read)

  abbrev inner : Text
  inner = x.fingerprint ++ (58 ∷ print_ℕ x.index)

  prefixed :
      strip_prefix (codes "[index01:") (format_marker x)
      ≡ some (x.fingerprint ++ (58 ∷ (print_ℕ x.index ++ (93 ∷ []))))
  unfolding format_marker strip_prefix
  prefixed = refl

  bracketed : strip_bracket (x.fingerprint ++ (58 ∷ (print_ℕ x.index ++ (93 ∷ [])))) ≡ some inner
  bracketed =
      ap strip_bracket (sym (append_assoc x.fingerprint (58 ∷ print_ℕ x.index) (93 ∷ [])))
      ∙ strip_bracket-last inner

  parts : split_at 58 inner ≡ x.fingerprint ∷ print_ℕ x.index ∷ []
  parts =
      split_at-two x.fingerprint (print_ℕ x.index) hex
      ∙ ap (λ rest. x.fingerprint ∷ rest) (split_at-one (print_ℕ x.index) number)

  index_read : atoi (print_ℕ x.index) ≡ some (pos x.index)
  index_read =
      atoi-digits (print_ℕ x.index) x.index (print_ℕ-is_blank x.index) small (digits-print x.index)

  solid : is_solid (format_marker x) ≡ true
  unfolding format_marker
  solid = is_solid-append (codes "[index01:") _ open_solid (
      is_solid-append x.fingerprint _ (all_hex-is_solid x.fingerprint hex) (
        is_solid-append (58 ∷ []) _ colon_solid (
          is_solid-append (print_ℕ x.index) (93 ∷ []) (all_hex-is_solid (print_ℕ x.index) number)
            close_solid)))

  full : is_blank (format_marker x) ≡ false
  unfolding format_marker
  full = refl

  framed :
      has_frame fold (format_marker x) (strip_prefix (codes "[index01:") (format_marker x)) ≡ true
  framed =
      ap (has_frame fold (format_marker x)) prefixed
      ∙ ap (has_body fold (format_marker x)) bracketed
      ∙ ap (has_two_parts fold (format_marker x)) parts
      ∙ ap (is_canonical fold (format_marker x) x.fingerprint) index_read
      ∙ rw (is_canonical, canonical) (text_eq_refl (format_marker x))

  format_marker-valid : valid_tick_tick_marker fold (format_marker x) ≡ true
  unfolding valid_tick_tick_marker
  format_marker-valid =
      let trimmed : text_eq (trim_space (format_marker x)) (format_marker x) ≡ true =
        rw (trim_space-is_solid (format_marker x) solid) (text_eq_refl (format_marker x)) in
      rw (full, trimmed, is_solid-lines (format_marker x) solid) framed

to_lower-stable :
    (fold : ℕ → ℕ)
    → ((c : ℕ) → lower_rune fold (lower_rune fold c) ≡ lower_rune fold c)
    → (s : Text) → to_lower fold (to_lower fold s) ≡ to_lower fold s
unfolding to_lower
to_lower-stable fold stable [] = refl
to_lower-stable fold stable (c ∷ s) = cc (stable c, to_lower-stable fold stable s)

-- Where lowering a letter twice is lowering it once, validTickTickMarker accepts every marker that
-- tickTickMarker makes under an index below 2 ^ 63.
pub tick_tick_marker-valid :
    (fold : ℕ → ℕ) (hash : Text) (i : ℕ) (m : Text)
    → ((c : ℕ) → lower_rune fold (lower_rune fold c) ≡ lower_rune fold c)
    → i < 2 ^ 63
    → tick_tick_marker fold hash (pos i) ≡ some m
    → valid_tick_tick_marker fold m ≡ true
unfolding tick_tick_marker
tick_tick_marker-valid fold hash i m stable small h =
    let (x, made, marked) = marker_of-some _ m h in
    let (named, read) = new_item_identity-made fold hash (pos i) x made in
    let lowered = ap (to_lower fold) (sym named) ∙ to_lower-stable fold stable _ ∙ named in
    let below = subst (λ n. n < 2 ^ 63) (sym (new_item_identity-index fold hash i x made)) small in
    subst (λ t. valid_tick_tick_marker fold t ≡ true) marked
      (format_marker-valid fold x read (new_item_identity-length fold hash (pos i) x made) lowered
        below)
