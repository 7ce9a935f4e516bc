-- ===== src/Text/Equality.antt =====
-- Equality of texts decides the path.
use boot_control.Prelude.{true, ◌∷◌, ◌≡◌, ◌↔◌, refl, arith}
use boot_control.Text.{Text, text_eq}

pub text_eq_iff : (s t : Text) → (text_eq s t ≡ true) ↔ (s ≡ t)
unfolding text_eq
text_eq_iff (x ∷ s) (y ∷ t) = ground (arith, text_eq_iff s t)
text_eq_iff _ _ = ground arith

pub text_eq_refl : (s : Text) → text_eq s s ≡ true
text_eq_refl s = (text_eq_iff s s).1 refl
