-- ===== src/Text/Equal.antt =====
-- Equality of texts.
use edge_guard.Base.{◌≡◌, refl, true, ◌↔◌, [], ◌∷◌, arith}
use edge_guard.Text.{Text, ◌≟◌}

pub ≟_iff : (s t : Text) → ((s ≟ t) ≡ true) ↔ (s ≡ t)
unfolding ◌≟◌
≟_iff [] [] = ground arith
≟_iff [] (b ∷ t) = ground arith
≟_iff (a ∷ s) [] = ground arith
≟_iff (a ∷ s) (b ∷ t) = ground (arith, ≟_iff s t)

pub ≟_refl : (s : Text) → (s ≟ s) ≡ true
≟_refl s = (≟_iff s s).1 refl
