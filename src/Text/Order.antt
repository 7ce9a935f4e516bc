-- ===== src/Text/Order.antt =====
-- The order of texts is strict, and what is not below is a total order the other way.
use boot_control.Prelude.{true, false, ◌≡◌, [], ◌∷◌, refl, arith, ◌||◌}
use boot_control.Text.{Text, text_lt}

pub text_lt_asymm : (s t : Text) → text_lt s t ≡ true → text_lt t s ≡ false
unfolding text_lt
text_lt_asymm [] [] h = refl
text_lt_asymm [] (y ∷ t) h = refl
text_lt_asymm (x ∷ s) [] h = cc
text_lt_asymm (x ∷ s) (y ∷ t) h = ground (arith, text_lt_asymm s t)

-- What lies between is above the one or below the other.
pub text_lt_between : (s t u : Text) → text_lt s u ≡ true → (text_lt s t || text_lt t u) ≡ true
unfolding text_lt
text_lt_between [] t [] h = cc
text_lt_between (x ∷ s) t [] h = cc
text_lt_between [] [] (z ∷ u) h = refl
text_lt_between [] (y ∷ t) (z ∷ u) h = refl
text_lt_between (x ∷ s) [] (z ∷ u) h = ground arith
text_lt_between (x ∷ s) (y ∷ t) (z ∷ u) h = ground (arith, text_lt_between s t u)
