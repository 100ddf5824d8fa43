-- ===== src/Text/Prefix.antt =====
-- Prefixes of texts.
use edge_guard.Base.{◌≡◌, refl, true, [], ◌∷◌, ◌++◌, arith, length, drop, drop-append}
use edge_guard.Text.{Text, has_prefix, trim_prefix}

pub has_prefix_sound : (s p : Text) → has_prefix s p ≡ true → s ≡ p ++ drop (length p) s
unfolding has_prefix
has_prefix_sound [] [] h = refl
has_prefix_sound (a ∷ s) [] h = refl
has_prefix_sound [] (b ∷ p) h = ground arith
has_prefix_sound (a ∷ s) (b ∷ p) h = ground (arith, has_prefix_sound s p)

pub has_prefix-append : (p t : Text) → has_prefix (p ++ t) p ≡ true
unfolding has_prefix
has_prefix-append [] [] = refl
has_prefix-append [] (a ∷ t) = refl
has_prefix-append (b ∷ p) t = ground (arith, has_prefix-append p t)

pub trim_prefix-append : (p t : Text) → trim_prefix (p ++ t) p ≡ t
unfolding trim_prefix
trim_prefix-append p t = rw (has_prefix-append p t) (drop-append p t)
