-- ===== src/Application/Identity.antt =====
-- internal/application/identity.go, and the marker of ticktick.go that encodes an identity.
pub mod Decimal
pub mod Markers
use index_01_hook.Base.{
  ℕ, ◌+◌, ◌-◌, ◌*◌, Bool, true, false, not, ◌&&◌, ◌||◌, Option, none, some, List, [], ◌∷◌, ◌++◌,
  leb, ◌==◌, length, if◌then◌else◌,
}
use index_01_hook.Base.Int.{ℤ, pos, negsuc}
use index_01_hook.Base.Text.{Text, codes, byte_length, trim_space, to_lower}
use Decimal.{print_ℕ}

-- `index` is not negative once an identity is made.
pub record ItemIdentity : Type 0 where
  pub fingerprint : Text
  pub index : ℕ

pub data IdentityError : Type 0 where
  fingerprint_invalid index_invalid : IdentityError

pub data IdentityResult : Type 0 where
  identity : ItemIdentity → IdentityResult
  refused : IdentityError → IdentityResult

abbrev pub hex_value : ℕ → Option ℕ
hex_value c =
    if leb b'0' c && leb c b'9'
    then some (c - 48)
    else if leb b'a' c && leb c b'f'
    then some (c - 87)
    else if leb b'A' c && leb c b'F'
    then some (c - 55)
    else none

abbrev pub join_digits : Option ℕ → Option ℕ → Option (List ℕ) → Option (List ℕ)
join_digits (some a) (some b) (some rest) = some ((a * 16 + b) ∷ rest)
join_digits _ _ _ = none

-- `hex.DecodeString`: an odd length or a character that is no digit is an error.
unfoldable pub decode_hex : Text → Option (List ℕ)
decode_hex [] = some []
decode_hex (a ∷ []) = none
decode_hex (a ∷ b ∷ s) = join_digits (hex_value a) (hex_value b) (decode_hex s)

abbrev pub has_32_bytes : Option (List ℕ) → Bool
has_32_bytes none = false
has_32_bytes (some bytes) = length bytes == 32

abbrev pub with_index : Text → ℤ → IdentityResult
with_index fingerprint (pos i) = identity (record { fingerprint = fingerprint; index = i })
with_index fingerprint (negsuc i) = refused index_invalid

module _ (fold : ℕ → ℕ) where
  unfoldable pub new_item_identity : Text → ℤ → IdentityResult
  unfolding decode_hex byte_length trim_space to_lower
  new_item_identity fingerprint index =
      let trimmed = trim_space fingerprint in
      if not (byte_length trimmed == 64)
      then refused fingerprint_invalid
      else if not (has_32_bytes (decode_hex (to_lower fold trimmed)))
      then refused fingerprint_invalid
      else with_index (to_lower fold trimmed) index

-- `fmt.Sprintf("[index01:%s:%d]", …)`.
unfoldable pub format_marker : ItemIdentity → Text
unfolding print_ℕ
format_marker i = codes "[index01:" ++ (i.fingerprint ++ (b':' ∷ (print_ℕ i.index ++ (b']' ∷ []))))

abbrev pub marker_of : IdentityResult → Option Text
marker_of (identity i) = some (format_marker i)
marker_of (refused e) = none

-- `tickTickMarker`; `none` is its malformed error.
unfoldable pub tick_tick_marker : (ℕ → ℕ) → Text → ℤ → Option Text
unfolding new_item_identity format_marker
tick_tick_marker fold hash index = marker_of (new_item_identity fold hash index)
