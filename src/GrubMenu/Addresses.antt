-- ===== src/GrubMenu/Addresses.antt =====
-- crates/core/src/grub_cfg.rs: the path of an entry as a list of indices, and the order of the
-- indices in which the parser gives them out.
use boot_control.Prelude.{
  ℕ, zero, suc, ◌+◌, ◌-◌, ◌*◌, ◌/◌, ◌%◌, ◌<◌, ◌≡◌, ◌⊎◌, inl, inr, refl, sym, ap, ◌∙◌, arith,
  Bool-cases, List, [], ◌∷◌, ◌++◌, append_assoc, append-nil, ◌==◌, if◌then◌else◌,
}
use boot_control.Text.{Text}
use boot_control.Text.Numbers.{digits_from, decimal_digit, display}
use boot_control.GrubMenu.{SubmenuFrame, path_prefix}

-- The numbers between the `>` of a path.
unfoldable pub address_from : ℕ → Text → List ℕ
address_from n [] = n ∷ []
address_from n (c ∷ cs) =
    let next = address_from 0 cs in
    let more = address_from (n * 10 + (c - b'0')) cs in if c == b'>' then n ∷ next else more

abbrev pub address : Text → List ℕ
address = address_from 0

address_from-digit :
    (n : ℕ) (rest : Text)
    → address_from (n / 10) (decimal_digit (n % 10) ∷ rest) ≡ address_from n rest
unfolding address_from
address_from-digit n rest =
    let e : n / 10 * 10 + (decimal_digit (n % 10) - b'0') ≡ n = omega arith in ground arith

address-digits_from :
    (fuel n : ℕ) (rest : Text)
    → n < fuel
    → address (digits_from 10 decimal_digit fuel n rest) ≡ address_from n rest
unfolding digits_from
address-digits_from zero n rest f = elim f [ ]
address-digits_from (suc fuel) n rest f = elim (Bool-cases (n / 10 == 0)) [
  | inl small ↦ rw small (start n rest (ground arith))
  | inr large ↦
      rw large (address-digits_from fuel (n / 10) _ (ground arith) ∙ address_from-digit n rest)
]
  where
    start :
        (n : ℕ) (rest : Text)
        → n / 10 ≡ 0
        → address (decimal_digit (n % 10) ∷ rest) ≡ address_from n rest
    start n rest e =
        ap (λ (k : ℕ). address_from k (decimal_digit (n % 10) ∷ rest)) (sym e)
        ∙ address_from-digit n rest

digits_from-append :
    (fuel n : ℕ) (acc rest : Text)
    → digits_from 10 decimal_digit fuel n acc ++ rest
      ≡ digits_from 10 decimal_digit fuel n (acc ++ rest)
unfolding digits_from
digits_from-append zero n acc rest = refl
digits_from-append (suc fuel) n acc rest =
    ground (arith, digits_from-append fuel (n / 10) (decimal_digit (n % 10) ∷ acc) rest)

-- A number that is printed in front of a text is read back.
address-display : (n : ℕ) (rest : Text) → address (display n ++ rest) ≡ address_from n rest
unfolding display
address-display n rest =
    ap address (digits_from-append (suc n) n [] rest)
    ∙ address-digits_from (suc n) n rest (omega arith)

-- The indices of the open submenus, outermost first.
abbrev pub indices : List SubmenuFrame → List ℕ
indices [] = []
indices (frame ∷ frames) = indices frames ++ (frame.index ∷ [])

address-path_prefix :
    (frames : List SubmenuFrame) (rest : Text)
    → address (path_prefix frames ++ rest) ≡ indices frames ++ address rest
unfolding path_prefix address_from
address-path_prefix [] rest = refl
address-path_prefix (frame ∷ frames) rest =
    rw (append_assoc, address-path_prefix frames)
      (rw (append_assoc, address-display frame.index) (rw append_assoc refl))

address-number : (n : ℕ) → address (display n) ≡ n ∷ []
unfolding address_from
address-number n = ap address (sym (append-nil (display n))) ∙ address-display n []

-- The path of the next entry is the address that its place gives.
pub address-path :
    (frames : List SubmenuFrame) (index : ℕ)
    → address (path_prefix frames ++ display index) ≡ indices frames ++ (index ∷ [])
address-path frames index =
    address-path_prefix frames (display index)
    ∙ ap (λ (l : List ℕ). indices frames ++ l) (address-number index)

-- The order of addresses: an entry stands before the entries below it.
abbrev pub Before : List ℕ → List ℕ → Type 0
Before [] [] = ⊥
Before [] (y ∷ ys) = Unit
Before (x ∷ xs) [] = ⊥
Before (x ∷ xs) (y ∷ ys) = (x < y) ⊎ ((x ≡ y) × Before xs ys)

pub Before-trans : (xs ys zs : List ℕ) → Before xs ys → Before ys zs → Before xs zs
Before-trans [] [] zs h k = absurd h
Before-trans [] (y ∷ ys) [] h k = k
Before-trans [] (y ∷ ys) (z ∷ zs) h k = tt
Before-trans (x ∷ xs) [] zs h k = absurd h
Before-trans (x ∷ xs) (y ∷ ys) [] h k = k
Before-trans (x ∷ xs) (y ∷ ys) (z ∷ zs) h k = ground (arith, Before-trans xs ys zs)

pub Before-irrefl : (xs : List ℕ) → ¬ Before xs xs
Before-irrefl [] h = h
Before-irrefl (x ∷ xs) (inl h) = omega (arith, h)
Before-irrefl (x ∷ xs) (inr h) = Before-irrefl xs h.1

pub Before-append : (p xs ys : List ℕ) → Before xs ys → Before (p ++ xs) (p ++ ys)
Before-append [] xs ys h = h
Before-append (n ∷ p) xs ys h = inr (refl, Before-append p xs ys h)
