-- ===== src/Application/Identity/Markers.antt =====
-- What a marker of ticktick.go says of the identity of internal/application/identity.go.
use index_01_hook.Base.{
  ℕ, suc, ◌+◌, ◌*◌, ◌≡◌, refl, sym, subst, ◌∙◌, ap, Bool, true, false, not, Option, none, some,
  List, [], ◌∷◌, ◌++◌, arith, length, length-append, if◌then◌else◌,
}
use index_01_hook.Base.Int.{ℤ, pos, negsuc}
use index_01_hook.Base.Text.{Text, codes, trim_space, to_lower}
use index_01_hook.Application.Identity.{
  ItemIdentity, IdentityResult, identity, refused, IdentityError, fingerprint_invalid, hex_value,
  decode_hex, new_item_identity, format_marker, tick_tick_marker, join_digits, has_32_bytes,
  with_index, marker_of,
}
use index_01_hook.Application.Identity.Decimal.{print_ℕ-injective}

append-injective : (s t u v : Text) → length s ≡ length t → s ++ u ≡ t ++ v → (s ≡ t) × (u ≡ v)
append-injective [] [] u v same h = (refl, h)
append-injective (a ∷ s) (b ∷ t) u v same h =
    let (front, back) = append-injective s t u v (omega arith) cc in
    let first : a ≡ b = cc in (cc, back)
append-injective [] (b ∷ t) u v same h = absurd (omega arith)
append-injective (a ∷ s) [] u v same h = absurd (omega arith)

append_last-injective : (c : ℕ) (s t : Text) → s ++ (c ∷ []) ≡ t ++ (c ∷ []) → s ≡ t
append_last-injective c s t h =
    let lengths = sym (length-append s (c ∷ [])) ∙ ap length h ∙ length-append t (c ∷ []) in
    (append-injective s t (c ∷ []) (c ∷ []) (omega arith) h).0

join_digits-length :
    (a b : Option ℕ) (rest : Option (List ℕ)) (bytes : List ℕ)
    → join_digits a b rest ≡ some bytes
    → (tail : List ℕ) × (rest ≡ some tail) × (length bytes ≡ suc (length tail))
join_digits-length (some a) (some b) (some tail) bytes h =
    let e : ((a * 16 + b) ∷ tail) ≡ bytes = cc in (tail, refl, sym (ap length e))
join_digits-length none b rest bytes h = cc
join_digits-length (some a) none rest bytes h = cc
join_digits-length (some a) (some b) none bytes h = cc

-- Each byte takes two digits.
decode_hex-length :
    (s : Text) (bytes : List ℕ) → decode_hex s ≡ some bytes → length s ≡ 2 * length bytes
unfolding decode_hex
decode_hex-length [] bytes h = let e : [] ≡ bytes = cc in ap (λ b. 2 * length b) e
decode_hex-length (a ∷ []) bytes h = cc
decode_hex-length (a ∷ b ∷ s) bytes h =
    let (tail, read, longer) =
      join_digits-length (hex_value a) (hex_value b) (decode_hex s) bytes h in
    let rest = decode_hex-length s tail read in omega arith

pub has_32_bytes-some :
    (read : Option (List ℕ))
    → has_32_bytes read ≡ true
    → (bytes : List ℕ) × (read ≡ some bytes) × (length bytes ≡ 32)
has_32_bytes-some none h = cc
has_32_bytes-some (some bytes) h = (bytes, refl, ground arith)

not-false : (b : Bool) → not b ≡ false → b ≡ true
not-false true h = refl
not-false false h = cc

passed :
    (b : Bool) (e : IdentityError) (r : IdentityResult) {x : ItemIdentity}
    → (if b then refused e else r) ≡ identity x
    → (b ≡ false) × (r ≡ identity x)
passed true e r h = cc
passed false e r h = (refl, h)

with_index-identity :
    (hash : Text) (i : ℤ) (x : ItemIdentity) → with_index hash i ≡ identity x → hash ≡ x.fingerprint
with_index-identity hash (pos i) x h =
    let e : record { fingerprint = hash; index = i } ≡ x = cc in ap (λ y. y.fingerprint) e
with_index-identity hash (negsuc i) x h = cc

with_index-index :
    (hash : Text) (i : ℕ) (x : ItemIdentity) → with_index hash (pos i) ≡ identity x → x.index ≡ i
with_index-index hash i x h =
    let e : record { fingerprint = hash; index = i } ≡ x = cc in sym (ap (λ y. y.index) e)

identity-eq : (x y : ItemIdentity) → x.fingerprint ≡ y.fingerprint → x.index ≡ y.index → x ≡ y
identity-eq x y a b = cc

pub marker_of-some :
    (r : IdentityResult) (m : Text)
    → marker_of r ≡ some m
    → (x : ItemIdentity) × (r ≡ identity x) × (format_marker x ≡ m)
marker_of-some (identity x) m h = (x, refl, cc)
marker_of-some (refused e) m h = cc

-- Markers of fingerprints of one length tell their identities apart.
format_marker-injective :
    (x y : ItemIdentity)
    → length x.fingerprint ≡ length y.fingerprint
    → format_marker x ≡ format_marker y
    → x ≡ y
unfolding format_marker
format_marker-injective x y same h =
    let bodies = (append-injective (codes "[index01:") (codes "[index01:") _ _ refl h).1 in
    let (hashes, tails) = append-injective x.fingerprint y.fingerprint _ _ same bodies in
    let numbers = (append-injective (b':' ∷ []) (b':' ∷ []) _ _ refl tails).1 in
    identity-eq x y hashes
      (print_ℕ-injective x.index y.index (append_last-injective b']' _ _ numbers))

module _ (fold : ℕ → ℕ) where
  -- The fingerprint of an identity that is made is the hash, trimmed and in lower case, and stands
  -- for 32 bytes.
  pub new_item_identity-made :
      (hash : Text) (i : ℤ) (x : ItemIdentity)
      → new_item_identity fold hash i ≡ identity x
      → (to_lower fold (trim_space hash) ≡ x.fingerprint)
        × (has_32_bytes (decode_hex x.fingerprint) ≡ true)
  unfolding new_item_identity
  new_item_identity-made hash i x h =
      let (_, read) = passed _ fingerprint_invalid _ h in
      let (decoded, made) = passed _ fingerprint_invalid _ read in
      let named = with_index-identity (to_lower fold (trim_space hash)) i x made in
      (named, subst (λ t. has_32_bytes (decode_hex t) ≡ true) named (not-false _ decoded))

  pub new_item_identity-index :
      (hash : Text) (i : ℕ) (x : ItemIdentity)
      → new_item_identity fold hash (pos i) ≡ identity x
      → x.index ≡ i
  unfolding new_item_identity
  new_item_identity-index hash i x h =
      let (_, read) = passed _ fingerprint_invalid _ h in
      let (_, made) = passed _ fingerprint_invalid _ read in
      with_index-index (to_lower fold (trim_space hash)) i x made

  pub new_item_identity-length :
      (hash : Text) (i : ℤ) (x : ItemIdentity)
      → new_item_identity fold hash i ≡ identity x
      → length x.fingerprint ≡ 64
  new_item_identity-length hash i x h =
      let read = (new_item_identity-made hash i x h).1 in
      let (bytes, is_some, enough) = has_32_bytes-some (decode_hex x.fingerprint) read in
      decode_hex-length x.fingerprint bytes is_some ∙ ap (λ n. 2 * n) enough

  -- Two deliveries that are given the same marker have the same identity: the fingerprint, trimmed
  -- and in lower case, and the index.
  pub tick_tick_marker-injective :
      (hash hash' : Text) (i i' : ℤ) (m : Text)
      → tick_tick_marker fold hash i ≡ some m
      → tick_tick_marker fold hash' i' ≡ some m
      → (x : ItemIdentity) × (new_item_identity fold hash i ≡ identity x)
        × (new_item_identity fold hash' i' ≡ identity x)
  unfolding tick_tick_marker
  tick_tick_marker-injective hash hash' i i' m a b =
      let (x, made, marked) = marker_of-some _ m a in
      let (y, made', marked') = marker_of-some _ m b in
      let lengths =
        new_item_identity-length hash i x made ∙ sym (new_item_identity-length hash' i' y made') in
      let same = format_marker-injective x y lengths (marked ∙ sym marked') in
      (x, made, rw same made')
