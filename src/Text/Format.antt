-- ===== src/Text/Format.antt =====
-- Numbers, digests and UUIDs as text: `%d`, `encoding/hex`, and the test of a UUID.
use mathlib.Core.Option.{map}
use edge_guard.Base.{
  ℕ, zero, suc, ◌+◌, ◌-◌, ◌*◌, ◌/◌, ◌%◌, ℤ, pos, negsuc, Bool, true, false, ◌&&◌, Option, none,
  some, [], ◌∷◌, ltb, leb, ◌==◌, length, if◌then◌else◌, ◌≡◌, refl,
}
use edge_guard.Text.{Text, codes}

-- one more digit than `n` has is fuel enough
digits_from : ℕ → ℕ → Text → Text
digits_from zero n acc = acc
digits_from (suc fuel) n acc =
    let more = digits_from fuel (n / 10) ((48 + n % 10) ∷ acc) in
    if ltb n 10 then (48 + n) ∷ acc else more

unfoldable pub decimal : ℤ → Text
unfolding digits_from
decimal (pos n) = digits_from (suc n) n []
decimal (negsuc n) = b'-' ∷ digits_from (suc (suc n)) (suc n) []

abbrev pub hex_digit : ℕ → ℕ
hex_digit d = if ltb d 10 then 48 + d else 87 + d

unfoldable pub hex_encode : Text → Text
hex_encode [] = []
hex_encode (b ∷ bytes) = hex_digit (b / 16) ∷ hex_digit (b % 16) ∷ hex_encode bytes

abbrev pub hex_value : ℕ → Option ℕ
hex_value c =
    if leb b'0' c && leb c b'9'
    then some (c - 48)
    else if leb b'a' c && leb c b'f'
    then some (c - 87)
    else if leb b'A' c && leb c b'F'
    then some (c - 55)
    else none

-- `hex.DecodeString`; `none` is an error
unfoldable pub hex_decode : Text → Option Text
hex_decode [] = some []
hex_decode (a ∷ []) = none
hex_decode (a ∷ b ∷ s) =
    let rest = hex_decode s in
    elim (hex_value a) [
      | none ↦ none
      | some high ↦ elim (hex_value b) [
        | none ↦ none
        | some low ↦ map (λ s. (16 * high + low) ∷ s) rest
      ]
    ]

-- `strings.ReplaceAll(s, c, "")` for one ASCII character
unfoldable pub remove : ℕ → Text → Text
remove c [] = []
remove c (b ∷ s) = let rest = remove c s in if b == c then rest else b ∷ rest

-- `s[i]`, which the program only reads within the text
abbrev byte_at : Text → ℕ → ℕ
byte_at [] _ = 0
byte_at (c ∷ s) zero = c
byte_at (c ∷ s) (suc i) = byte_at s i

abbrev pub is_some {ℓ} : {A : Type ℓ} → Option A → Bool
is_some none = false
is_some (some _) = true

-- The test of a UUID that internal/platform/events/gateway_access.go and
-- internal/analytics/usecase/query_stats.go write out.
unfoldable pub is_canonical_uuid : Text → Bool
unfolding remove hex_decode
is_canonical_uuid value =
    length value == 36
    && byte_at value 8 == b'-'
    && byte_at value 13 == b'-'
    && byte_at value 18 == b'-'
    && byte_at value 23 == b'-'
    && length (remove b'-' value) == 32
    && is_some (hex_decode (remove b'-' value))

decimal_test : decimal (pos 1200) ≡ codes "1200"
unfolding decimal
decimal_test = refl

hex_test : hex_encode (0 ∷ 171 ∷ []) ≡ codes "00ab"
unfolding hex_encode
hex_test = refl
