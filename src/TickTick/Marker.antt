-- ===== src/TickTick/Marker.antt =====
-- validTickTickMarker and hasExactMarkerLine of ticktick.go.
pub mod Valid
use index_01_hook.Base.{
  ℕ, zero, suc, ◌+◌, ◌-◌, ◌*◌, ◌^◌, Bool, false, not, ◌&&◌, ◌||◌, Option, none, some, List, [], ◌∷◌,
  leb, ltb, ◌==◌, if◌then◌else◌,
}
use index_01_hook.Base.Int.{ℤ, pos, negsuc}
use index_01_hook.Base.Rows.{any_row}
use index_01_hook.Base.Text.{Text, codes, text_eq, is_blank, trim_space}
use index_01_hook.Application.Identity.{tick_tick_marker}

-- `strings.Split` at one character: never empty.
abbrev pub add_first : ℕ → List Text → List Text
add_first c [] = (c ∷ []) ∷ []
add_first c (part ∷ parts) = (c ∷ part) ∷ parts

unfoldable pub split_at : ℕ → Text → List Text
split_at sep [] = [] ∷ []
split_at sep (c ∷ s) = let rest = split_at sep s in if c == sep then [] ∷ rest else add_first c rest

-- `strings.TrimSuffix(line, "\r")`.
unfoldable pub trim_return : Text → Text
trim_return [] = []
trim_return (c ∷ []) = if c == 13 then [] else c ∷ []
trim_return (c ∷ d ∷ s) = c ∷ trim_return (d ∷ s)

unfoldable pub has_exact_marker_line : Text → Text → Bool
unfolding any_row split_at trim_return text_eq
has_exact_marker_line content marker =
    any_row (λ line. text_eq (trim_return line) marker) (split_at 10 content)

-- `strings.TrimPrefix` and `strings.TrimSuffix`, where they apply.
unfoldable pub strip_prefix : Text → Text → Option Text
strip_prefix [] s = some s
strip_prefix (c ∷ p) [] = none
strip_prefix (c ∷ p) (d ∷ s) = let rest = strip_prefix p s in if c == d then rest else none

abbrev pub map_cons : ℕ → Option Text → Option Text
map_cons c none = none
map_cons c (some s) = some (c ∷ s)

unfoldable pub strip_bracket : Text → Option Text
strip_bracket [] = none
strip_bracket (c ∷ []) = if c == b']' then some [] else none
strip_bracket (c ∷ d ∷ s) = map_cons c (strip_bracket (d ∷ s))

unfoldable pub digits : ℕ → Text → Option ℕ
digits value [] = some value
digits value (c ∷ s) =
    let rest = digits (value * 10 + (c - 48)) s in if leb b'0' c && leb c b'9' then rest else none

abbrev pub whole : Text → Option ℕ
whole [] = none
whole (c ∷ s) = digits 0 (c ∷ s)

abbrev pub positive : Option ℕ → Option ℤ
positive none = none
positive (some n) = if ltb n (2 ^ 63) then some (pos n) else none

abbrev negative : Option ℕ → Option ℤ
negative none = none
negative (some zero) = some (pos 0)
negative (some (suc n)) = if ltb n (2 ^ 63) then some (negsuc n) else none

-- `strconv.Atoi`.
unfoldable pub atoi : Text → Option ℤ
unfolding digits
atoi [] = none
atoi (c ∷ s) =
    if c == b'-'
    then negative (whole s)
    else if c == b'+'
    then positive (whole s)
    else positive (whole (c ∷ s))

module _ (fold : ℕ → ℕ) where
  abbrev pub is_canonical : Text → Text → Option ℤ → Bool
  is_canonical marker hash none = false
  is_canonical marker hash (some index) = elim (tick_tick_marker fold hash index) [
    | none ↦ false
    | some canonical ↦ text_eq canonical marker
  ]

  abbrev pub has_two_parts : Text → List Text → Bool
  has_two_parts marker (hash ∷ index ∷ []) = is_canonical marker hash (atoi index)
  has_two_parts marker _ = false

  abbrev pub has_body : Text → Option Text → Bool
  has_body marker none = false
  has_body marker (some inner) = has_two_parts marker (split_at b':' inner)

  abbrev pub has_frame : Text → Option Text → Bool
  has_frame marker none = false
  has_frame marker (some inner) = has_body marker (strip_bracket inner)

  -- `validTickTickMarker`.
  unfoldable pub valid_tick_tick_marker : Text → Bool
  unfolding any_row text_eq trim_space strip_prefix strip_bracket split_at atoi tick_tick_marker
  valid_tick_tick_marker marker =
      not (is_blank marker)
      && text_eq (trim_space marker) marker
      && not (any_row (λ c. c == 13 || c == 10) marker)
      && has_frame marker (strip_prefix (codes "[index01:") marker)
