-- ===== src/Text/Trim.antt =====
-- What is left after trimming.
use mathlib.Core.List.{reverse, reverse-reverse, reverse-append}
use edge_guard.Base.{ℕ, zero, suc, ◌≡◌, refl, sym, ap, ◌∙◌, ◌⊎◌, inl, inr, [], ◌∷◌, ◌++◌, arith}
use edge_guard.Text.{
  Text, strip, leading_space, trailing_space, trim_left_space, trim_right_space, trim_space,
}

ℕ-cases : (n : ℕ) → (n ≡ 0) ⊎ ((k : ℕ) × (n ≡ suc k))
ℕ-cases zero = inl refl
ℕ-cases (suc k) = inr (k, refl)

module _ (width : Text → ℕ) where
  strip-stops : width [] ≡ 0 → (k : ℕ) (s : Text) → width (strip width k s) ≡ 0
  unfolding strip
  strip-stops base zero [] = base
  strip-stops base (suc k) [] = base
  strip-stops base (suc k) (c ∷ s) = strip-stops base k s
  strip-stops base zero (c ∷ s) = elim (ℕ-cases (width (c ∷ s))) [
    | inl e ↦ rw (e, strip) e
    | inr (k, e) ↦ rw (e, strip) (strip-stops base k s)
  ]

  strip-fixed : (s : Text) → width s ≡ 0 → strip width 0 s ≡ s
  unfolding strip
  strip-fixed [] h = refl
  strip-fixed (c ∷ s) h = rw (h, strip)

  strip-suffix : (k : ℕ) (s : Text) → (p : Text) × (s ≡ p ++ strip width k s)
  unfolding strip
  strip-suffix zero [] = ([], refl)
  strip-suffix (suc k) [] = ([], refl)
  strip-suffix (suc k) (c ∷ s) = let (p, e) = strip-suffix k s in (c ∷ p, ap (λ t. c ∷ t) e)
  strip-suffix zero (c ∷ s) = elim (ℕ-cases (width (c ∷ s))) [
    | inl e ↦ ([], rw (e, strip))
    | inr (k, e) ↦ let (p, ih) = strip-suffix k s in (c ∷ p, rw (e, strip) (ap (λ t. c ∷ t) ih))
  ]

leading_space-append : (p q : Text) → leading_space (p ++ q) ≡ 0 → leading_space p ≡ 0
unfolding leading_space
leading_space-append [] q h = refl
leading_space-append (a ∷ []) [] h = h
leading_space-append (a ∷ []) (b ∷ []) h = ground arith
leading_space-append (a ∷ []) (b ∷ c ∷ q) h = ground arith
leading_space-append (a ∷ b ∷ []) [] h = h
leading_space-append (a ∷ b ∷ []) (c ∷ q) h = ground arith
leading_space-append (a ∷ b ∷ c ∷ p) q h = h

trim_right_space-prefix : (s : Text) → (q : Text) × (s ≡ trim_right_space s ++ q)
unfolding trim_right_space
trim_right_space-prefix s =
    let (p, e) = strip-suffix trailing_space 0 (reverse s) in
    (reverse p, sym (reverse-reverse s) ∙ ap reverse e ∙ reverse-append p _)

leading_space-trim : (s : Text) → leading_space (trim_space s) ≡ 0
unfolding trim_space
leading_space-trim s =
    let (q, e) = trim_right_space-prefix (trim_left_space s) in
    leading_space-append (trim_space s) q
      (rw (← e) (unfold trim_left_space in strip-stops leading_space refl 0 s))

trim_right_space_idem : (s : Text) → trim_right_space (trim_right_space s) ≡ trim_right_space s
unfolding trim_right_space
trim_right_space_idem s =
    let r = strip trailing_space 0 (reverse s) in
    let fixed : strip trailing_space 0 (reverse (reverse r)) ≡ r =
      rw (reverse-reverse r)
        (strip-fixed trailing_space r (strip-stops trailing_space refl 0 (reverse s))) in
    ap reverse fixed

pub trim_left_space_fixed : (s : Text) → leading_space s ≡ 0 → trim_left_space s ≡ s
unfolding trim_left_space
trim_left_space_fixed s h = strip-fixed leading_space s h

pub trim_right_space_fixed : (s : Text) → trailing_space (reverse s) ≡ 0 → trim_right_space s ≡ s
unfolding trim_right_space
trim_right_space_fixed s h =
    ap reverse (strip-fixed trailing_space (reverse s) h) ∙ reverse-reverse s

trim_space_parts : (s : Text) → trim_space s ≡ trim_right_space (trim_left_space s)
unfolding trim_space
trim_space_parts s = refl

-- Trimming white space a second time changes nothing.
pub trim_space-trim_space : (s : Text) → trim_space (trim_space s) ≡ trim_space s
trim_space-trim_space s =
    trim_space_parts (trim_space s)
    ∙ ap trim_right_space (trim_left_space_fixed (trim_space s) (leading_space-trim s))
    ∙ ap trim_right_space (trim_space_parts s)
    ∙ trim_right_space_idem (trim_left_space s)
    ∙ sym (trim_space_parts s)
