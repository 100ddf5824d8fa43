-- ===== src/Text.antt =====
-- Go strings as sequences of bytes, and the functions of Go's package `strings` that the program
-- calls. The laws are in the children.
pub mod Equal
pub mod Trim
pub mod Prefix
pub mod Format
pub mod Visible
use Prim.Native.Char.{code}
use mathlib.Core.List.{reverse}
use edge_guard.Base.{
  ℕ, zero, suc, String, Bool, true, false, ◌&&◌, ◌||◌, List, [], ◌∷◌, ◌++◌, length, drop, ltb, leb,
  ◌==◌, if◌then◌else◌, map, ◌+◌, ◌-◌, ◌≡◌, refl,
}

abbrev pub Text : Type 0
Text = List ℕ

-- A literal of the source. All literals of the program are ASCII.
abbrev pub codes : String → Text
codes String.[] = []
codes (String.◌∷◌ c s) = code c ∷ codes s

infix 50 ◌≟◌
-- `a == b`
unfoldable pub ◌≟◌ : Text → Text → Bool
[] ≟ [] = true
[] ≟ (_ ∷ _) = false
(_ ∷ _) ≟ [] = false
(a ∷ s) ≟ (b ∷ t) = a == b && s ≟ t

-- membership in a set of texts
unfoldable pub contains : Text → List Text → Bool
contains s [] = false
contains s (t ∷ ts) = t ≟ s || contains s ts

-- `strings.HasPrefix(s, prefix)`
unfoldable pub has_prefix : Text → Text → Bool
has_prefix _ [] = true
has_prefix [] (_ ∷ _) = false
has_prefix (a ∷ s) (b ∷ p) = a == b && has_prefix s p

-- `strings.HasSuffix(s, suffix)`
unfoldable pub has_suffix : Text → Text → Bool
unfolding has_prefix
has_suffix s suffix = has_prefix (reverse s) (reverse suffix)

-- `strings.TrimPrefix(s, prefix)`
unfoldable pub trim_prefix : Text → Text → Text
unfolding has_prefix
trim_prefix s p = if has_prefix s p then drop (length p) s else s

-- Drops leading bytes as long as `width` says that the text starts with a character to drop of that
-- many bytes; the first argument counts the bytes of a character that are still to go.
unfoldable pub strip : (Text → ℕ) → ℕ → Text → Text
strip width _ [] = []
strip width (suc k) (c ∷ s) = strip width k s
strip width zero (c ∷ s) = elim (width (c ∷ s)) [ zero ↦ c ∷ s | suc k ↦ strip width k s ]

-- `unicode.IsSpace` on the code points below 128
abbrev is_ascii_space : ℕ → Bool
is_ascii_space c = c == 32 || (leb 9 c && leb c 13)

-- U+0085 and U+00A0 in UTF-8
abbrev is_space_2 : ℕ → ℕ → Bool
is_space_2 a b = a == 0xC2 && (b == 0x85 || b == 0xA0)

-- U+1680, U+2000 to U+200A, U+2028, U+2029, U+202F, U+205F and U+3000 in UTF-8
abbrev is_space_3 : ℕ → ℕ → ℕ → Bool
is_space_3 a b c =
    a == 0xE1 && b == 0x9A && c == 0x80
    || a == 0xE2 && b == 0x80 && (leb 0x80 c && leb c 0x8A || c == 0xA8 || c == 0xA9 || c == 0xAF)
    || a == 0xE2 && b == 0x81 && c == 0x9F
    || a == 0xE3 && b == 0x80 && c == 0x80

-- The number of bytes of the white space with which the text starts.
unfoldable pub leading_space : Text → ℕ
leading_space [] = 0
leading_space (a ∷ []) = if is_ascii_space a then 1 else 0
leading_space (a ∷ b ∷ []) = if is_ascii_space a then 1 else if is_space_2 a b then 2 else 0
leading_space (a ∷ b ∷ c ∷ _) =
    if is_ascii_space a then 1 else if is_space_2 a b then 2 else if is_space_3 a b c then 3 else 0

-- The same of a text that is read backwards.
unfoldable pub trailing_space : Text → ℕ
trailing_space [] = 0
trailing_space (a ∷ []) = if is_ascii_space a then 1 else 0
trailing_space (a ∷ b ∷ []) = if is_ascii_space a then 1 else if is_space_2 b a then 2 else 0
trailing_space (a ∷ b ∷ c ∷ _) =
    if is_ascii_space a then 1 else if is_space_2 b a then 2 else if is_space_3 c b a then 3 else 0

unfoldable pub trim_left_space : Text → Text
unfolding strip leading_space
trim_left_space s = strip leading_space 0 s

unfoldable pub trim_right_space : Text → Text
unfolding strip trailing_space
trim_right_space s = reverse (strip trailing_space 0 (reverse s))

-- `strings.TrimSpace(s)`
unfoldable pub trim_space : Text → Text
unfolding trim_left_space trim_right_space
trim_space s = trim_right_space (trim_left_space s)

abbrev one_byte : ℕ → Text → ℕ
one_byte c [] = 0
one_byte c (a ∷ _) = if a == c then 1 else 0

-- `strings.TrimRight(s, c)` for a cutset of one ASCII character
unfoldable pub trim_right : Text → ℕ → Text
unfolding strip
trim_right s c = reverse (strip (one_byte c) 0 (reverse s))

abbrev is_ascii : Text → Bool
is_ascii [] = true
is_ascii (c ∷ s) = ltb c 128 && is_ascii s

abbrev upper_byte : ℕ → ℕ
upper_byte c = if leb b'a' c && leb c b'z' then c - 32 else c

abbrev lower_byte : ℕ → ℕ
lower_byte c = if leb b'A' c && leb c b'Z' then c + 32 else c

-- `strings.ToUpper` and `strings.ToLower`: bytewise on ASCII; on other texts by the case tables of
-- Unicode, which are a parameter.
unfoldable pub to_upper : (Text → Text) → Text → Text
to_upper unicode s = if is_ascii s then map upper_byte s else unicode s

unfoldable pub to_lower : (Text → Text) → Text → Text
to_lower unicode s = if is_ascii s then map lower_byte s else unicode s

trim_space_test : trim_space (codes "  a b\n ") ≡ codes "a b"
unfolding trim_space
trim_space_test = refl
