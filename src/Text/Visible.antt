-- ===== src/Text/Visible.antt =====
-- Texts of visible ASCII characters, such as hexadecimal digits: trimming leaves them as they are.
use mathlib.Core.List.{reverse, reverse-cons}
use edge_guard.Base.{
  ℕ, ◌≡◌, refl, ap, ◌∙◌, ◌≤◌, ◌<◌, ◌/◌, ◌%◌, ◌+◌, ◌*◌, some, [], ◌∷◌, arith, All, All-append,
}
use edge_guard.Text.{
  Text, leading_space, trailing_space, trim_left_space, trim_right_space, trim_space,
}
use edge_guard.Text.Trim.{trim_left_space_fixed, trim_right_space_fixed}
use edge_guard.Text.Format.{hex_encode, hex_decode, hex_digit, hex_value}

-- the printable characters of ASCII but the space
abbrev pub IsVisible : ℕ → Type 0
IsVisible c = (33 ≤ c) × (c < 127)

abbrev pub IsByte : ℕ → Type 0
IsByte b = b < 256

leading_visible : (s : Text) → All IsVisible s → leading_space s ≡ 0
unfolding leading_space
leading_visible [] h = refl
leading_visible (a ∷ []) h = ground arith
leading_visible (a ∷ b ∷ []) h = ground arith
leading_visible (a ∷ b ∷ c ∷ s) h = ground arith

trailing_visible : (s : Text) → All IsVisible s → trailing_space s ≡ 0
unfolding trailing_space
trailing_visible [] h = refl
trailing_visible (a ∷ []) h = ground arith
trailing_visible (a ∷ b ∷ []) h = ground arith
trailing_visible (a ∷ b ∷ c ∷ s) h = ground arith

All-reverse : (s : Text) → All IsVisible s → All IsVisible (reverse s)
All-reverse [] h = tt
All-reverse (c ∷ s) (v, h) =
    rw (reverse-cons c s) (All-append IsVisible (reverse s) (c ∷ []) (All-reverse s h) (v, tt))

pub trim_space_visible : (s : Text) → All IsVisible s → trim_space s ≡ s
unfolding trim_space
trim_space_visible s h =
    let left : trim_left_space s ≡ s = trim_left_space_fixed s (leading_visible s h) in
    ap trim_right_space left
    ∙ trim_right_space_fixed s (trailing_visible (reverse s) (All-reverse s h))

digit-IsVisible : (d : ℕ) → d < 16 → IsVisible (hex_digit d)
digit-IsVisible d h = (ground arith, ground arith)

pub hex_encode-IsVisible : (s : Text) → All IsByte s → All IsVisible (hex_encode s)
unfolding hex_encode
hex_encode-IsVisible [] h = tt
hex_encode-IsVisible (b ∷ s) (small, h) = (
  digit-IsVisible (b / 16) (omega arith),
  (digit-IsVisible (b % 16) (omega arith), hex_encode-IsVisible s h),
)

digit_value : (d : ℕ) → d < 16 → hex_value (hex_digit d) ≡ some d
digit_value d h = ground arith

decode_pair :
    (a b high low : ℕ) (s t : Text)
    → hex_value a ≡ some high
    → hex_value b ≡ some low
    → hex_decode s ≡ some t
    → hex_decode (a ∷ b ∷ s) ≡ some ((16 * high + low) ∷ t)
unfolding hex_decode
decode_pair a b high low s t h l r = rw (hex_decode, h, l, r) refl

-- Decoding gives back the bytes that were encoded.
pub hex_decode-hex_encode : (s : Text) → All IsByte s → hex_decode (hex_encode s) ≡ some s
unfolding hex_encode
hex_decode-hex_encode [] h = unfold hex_decode in refl
hex_decode-hex_encode (b ∷ s) (small, h) =
    let whole : 16 * (b / 16) + b % 16 ≡ b = omega arith in
    decode_pair _ _ (b / 16) (b % 16) (hex_encode s) s (digit_value (b / 16) (omega arith))
      (digit_value (b % 16) (omega arith)) (hex_decode-hex_encode s h)
    ∙ ap (λ c. some (c ∷ s)) whole
