-- ===== src/Snapshots/Modes.antt =====
-- crates/daemon/src/snapshot.rs: the mode of a file as four octal digits, and back.
use boot_control.Prelude.{
  ℕ, ◌+◌, ◌-◌, ◌*◌, ◌/◌, ◌%◌, ◌<◌, ◌≤◌, suc, zero, ◌≡◌, [], ◌∷◌, true, refl, length, arith, ◌∙◌,
  ◌==◌, Bool-cases, inl, inr, ap, sym,
}
use boot_control.Text.{Text}
use boot_control.Text.Numbers.{digits_from, decimal_digit, pad_zeros}
use boot_control.Snapshots.{octal4}
use boot_control.Snapshots.Restore.{all_octal, from_octal}

from_octal-digit :
    (n : ℕ) (acc : Text) → from_octal (n / 8) (decimal_digit (n % 8) ∷ acc) ≡ from_octal n acc
unfolding from_octal
from_octal-digit n acc = ap (λ (k : ℕ). from_octal k acc) (omega arith)

abbrev octal_digits : ℕ → ℕ → Text → Text
octal_digits = digits_from 8 decimal_digit

from_octal-digits :
    (fuel n : ℕ) (acc : Text) → n < fuel → from_octal 0 (octal_digits fuel n acc) ≡ from_octal n acc
unfolding digits_from
from_octal-digits zero n acc f = elim f [ ]
from_octal-digits (suc fuel) n acc f = elim (Bool-cases (n / 8 == 0)) [
  | inl small ↦
      let e : n / 8 ≡ 0 = ground arith in
      rw small (
        ap (λ (k : ℕ). from_octal k (decimal_digit (n % 8) ∷ acc)) (sym e) ∙ from_octal-digit n acc)
  | inr large ↦ rw large (from_octal-digits fuel (n / 8) _ (ground arith) ∙ from_octal-digit n acc)
]

all_octal-digits :
    (fuel n : ℕ) (acc : Text) → all_octal acc ≡ true → all_octal (octal_digits fuel n acc) ≡ true
unfolding digits_from all_octal
all_octal-digits zero n acc h = h
all_octal-digits (suc fuel) n acc h =
    let here : all_octal (decimal_digit (n % 8) ∷ acc) ≡ true = ground (arith, h) in
    ground (arith, all_octal-digits fuel (n / 8) (decimal_digit (n % 8) ∷ acc) here, here)

abbrev pow8 : ℕ → ℕ
pow8 zero = 1
pow8 (suc k) = 8 * pow8 k

length-digits :
    (k fuel n : ℕ) (acc : Text)
    → n < pow8 (suc k)
    → length (octal_digits fuel n acc) ≤ suc k + length acc
unfolding digits_from
length-digits k zero n acc h = omega arith
length-digits zero (suc fuel) n acc h = ground arith
length-digits (suc k) (suc fuel) n acc h =
    let below : n / 8 < pow8 (suc k) = omega (arith, h) in
    ground (arith, length-digits k fuel (n / 8) (decimal_digit (n % 8) ∷ acc) below)

pad_zeros_lem :
    (k : ℕ) (s : Text)
    → (length (pad_zeros k s) ≡ k + length s)
      × (all_octal (pad_zeros k s) ≡ all_octal s)
      × (from_octal 0 (pad_zeros k s) ≡ from_octal 0 s)
unfolding pad_zeros all_octal from_octal
pad_zeros_lem zero s = (omega arith, refl, refl)
pad_zeros_lem (suc k) s = let h = pad_zeros_lem k s in (omega (arith, h.0), h.1, h.2)

-- A mode is four octal digits, which are read as the mode.
pub octal4_lem :
    (n : ℕ)
    → n < 4096
    → (length (octal4 n) ≡ 4) × (all_octal (octal4 n) ≡ true) × (from_octal 0 (octal4 n) ≡ n)
unfolding octal4
octal4_lem n h =
    let s = octal_digits (suc n) n [] in
    let pad = pad_zeros_lem (4 - length s) s in
    let short : length s ≤ 4 = length-digits 3 (suc n) n [] h in
    (
      omega (arith, pad.0, short),
      pad.1 ∙ all_octal-digits (suc n) n [] (unfold all_octal in refl),
      pad.2 ∙ (from_octal-digits (suc n) n [] (omega arith) ∙ unfold from_octal in refl),
    )
