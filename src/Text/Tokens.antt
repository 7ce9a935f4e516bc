-- ===== src/Text/Tokens.antt =====
-- The first word of a line, with its ends trimmed or not.
use boot_control.Prelude.{ℕ, true, false, some, [], ◌∷◌, ◌++◌, ◌≡◌, refl, arith, All}
use boot_control.Text.{
  Text, codes, is_whitespace, is_empty, trim_start_by, trim_end_by, trim_start, trim_end, trim,
  starts_with, splitn_2,
}
use boot_control.Text.Lines.{chomp}

return_is_whitespace : is_whitespace b'\r' ≡ true
unfolding is_whitespace
return_is_whitespace = refl

trim_end-chomp : (s : Text) → trim_end (chomp s) ≡ trim_end s
unfolding trim_end_by
trim_end-chomp [] = refl
trim_end-chomp (c ∷ []) = ground (arith, return_is_whitespace)
trim_end-chomp (c ∷ d ∷ s) = ground (arith, trim_end-chomp (d ∷ s))

-- A carriage return at the end is trimmed away in any case.
pub trim-chomp : (s : Text) → trim (chomp s) ≡ trim s
unfolding trim_start_by trim_end_by
trim-chomp [] = refl
trim-chomp (c ∷ []) = ground (arith, return_is_whitespace)
trim-chomp (c ∷ d ∷ s) = ground (arith, trim-chomp (d ∷ s), trim_end-chomp (d ∷ s))

pub splitn_2-trim_end :
    (s : Text) → (splitn_2 is_whitespace (trim_end s)).0 ≡ (splitn_2 is_whitespace s).0
unfolding trim_end_by splitn_2
splitn_2-trim_end [] = refl
splitn_2-trim_end (c ∷ s) = ground (arith, splitn_2-trim_end s)

hash_is_dark : is_whitespace b'#' ≡ false
unfolding is_whitespace
hash_is_dark = refl

pub starts_with-trim_end :
    (s : Text) → starts_with (codes "#") (trim_end s) ≡ starts_with (codes "#") s
unfolding trim_end_by starts_with codes
starts_with-trim_end [] = refl
starts_with-trim_end (c ∷ s) = ground (arith, hash_is_dark)

pub is_empty-trim : (s : Text) → is_empty (trim s) ≡ is_empty (trim_start s)
unfolding trim_start_by trim_end_by
is_empty-trim [] = refl
is_empty-trim (c ∷ s) = ground (arith, is_empty-trim s)

-- A word, white space and the rest.
pub splitn_2-word :
    (w rest : Text) (c : ℕ)
    → All (λ (d : ℕ). is_whitespace d ≡ false) w
    → is_whitespace c ≡ true
    → splitn_2 is_whitespace (w ++ (c ∷ rest)) ≡ (w, some rest)
unfolding splitn_2
splitn_2-word [] rest c h white = ground (arith, white)
splitn_2-word (d ∷ w) rest c h white = ground (arith, splitn_2-word w rest c h.1 white, h.0)
