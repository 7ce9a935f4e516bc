-- ===== src/Text/Numbers.antt =====
-- `Display` of the unsigned integers, the hexadecimal formats of `format!`, and
-- `str::parse::<u32>`.
use boot_control.Prelude.{
  ℕ, zero, suc, ◌+◌, ◌-◌, ◌*◌, ◌/◌, ◌%◌, ◌<◌, ◌&&◌, Option, none, some, [], ◌∷◌, ◌≡◌, refl, arith,
  ltb, leb, ◌==◌, if◌then◌else◌, length, Bool-cases, inl, inr, sym, ap, ◌∙◌, ◌≢◌, Bool, true, false,
}
use boot_control.Text.{Text, codes}

-- The digits of `n` in the base, in front of `acc`. The fuel `suc n` is enough, since the value
-- falls with each digit.
unfoldable pub digits_from : ℕ → (ℕ → ℕ) → ℕ → ℕ → Text → Text
digits_from base digit zero n acc = acc
digits_from base digit (suc fuel) n acc =
    let rest = digits_from base digit fuel (n / base) (digit (n % base) ∷ acc) in
    if n / base == 0 then digit (n % base) ∷ acc else rest

abbrev pub decimal_digit : ℕ → ℕ
decimal_digit d = b'0' + d

-- `{}`
unfoldable pub display : ℕ → Text
unfolding digits_from
display n = digits_from 10 decimal_digit (suc n) n []

-- `bool::to_string`
abbrev pub bool_text : Bool → Text
bool_text true = codes "true"
bool_text false = codes "false"

unfoldable pub upper_hex_digit : ℕ → ℕ
upper_hex_digit d = if ltb d 10 then b'0' + d else b'A' + (d - 10)

unfoldable pub pad_zeros : ℕ → Text → Text
pad_zeros zero s = s
pad_zeros (suc n) s = b'0' ∷ pad_zeros n s

-- `{:04X}`
unfoldable pub upper_hex4 : ℕ → Text
unfolding digits_from upper_hex_digit pad_zeros
upper_hex4 n = let s = digits_from 16 upper_hex_digit (suc n) n [] in pad_zeros (4 - length s) s

abbrev pub u32_limit : ℕ
u32_limit = 4294967296

-- The loop of `from_str_radix(10)`, with its checked arithmetic.
unfoldable pub parse_digits : ℕ → Text → Option ℕ
parse_digits acc [] = some acc
parse_digits acc (c ∷ cs) =
    let next = acc * 10 + (c - b'0') in
    let rest = parse_digits next cs in
    if leb b'0' c && leb c b'9' && ltb next u32_limit then rest else none

-- `parse::<u32>`: one `+` may stand in front of the digits.
unfoldable pub parse_u32 : Text → Option ℕ
unfolding parse_digits
parse_u32 [] = none
parse_u32 (c ∷ []) = if c == b'+' then none else parse_digits 0 (c ∷ [])
parse_u32 (c ∷ d ∷ cs) = parse_digits 0 (if c == b'+' then d ∷ cs else c ∷ d ∷ cs)

parse_digits-digit :
    (n : ℕ) (acc : Text)
    → n < u32_limit
    → parse_digits (n / 10) (decimal_digit (n % 10) ∷ acc) ≡ parse_digits n acc
unfolding parse_digits
parse_digits-digit n acc h =
    let e : n / 10 * 10 + (decimal_digit (n % 10) - b'0') ≡ n = omega arith in ground arith

start_digit :
    (n : ℕ) (acc : Text)
    → n < u32_limit
    → n / 10 ≡ 0
    → parse_digits 0 (decimal_digit (n % 10) ∷ acc) ≡ parse_digits n acc
start_digit n acc h e =
    ap (λ (k : ℕ). parse_digits k (decimal_digit (n % 10) ∷ acc)) (sym e)
    ∙ parse_digits-digit n acc h

parse_digits-digits_from :
    (fuel n : ℕ) (acc : Text)
    → n < fuel
    → n < u32_limit
    → parse_digits 0 (digits_from 10 decimal_digit fuel n acc) ≡ parse_digits n acc
unfolding digits_from
parse_digits-digits_from zero n acc f h = elim f [ ]
parse_digits-digits_from (suc fuel) n acc f h = elim (Bool-cases (n / 10 == 0)) [
  | inl small ↦ rw small (start_digit n acc h (ground arith))
  | inr large ↦ rw large (
      parse_digits-digits_from fuel (n / 10) _ (ground arith) (ground arith)
      ∙ parse_digits-digit n acc h)
]

digits_from-ne-nil :
    (fuel n : ℕ) (acc : Text) → 0 < fuel → digits_from 10 decimal_digit fuel n acc ≢ []
unfolding digits_from
digits_from-ne-nil zero n acc h = elim h [ ]
digits_from-ne-nil (suc zero) n acc h = ground arith
digits_from-ne-nil (suc (suc fuel)) n acc h =
    ground (arith, digits_from-ne-nil (suc fuel) (n / 10) (decimal_digit (n % 10) ∷ acc))

parse_u32-digits : (s : Text) (n : ℕ) → s ≢ [] → parse_digits 0 s ≡ some n → parse_u32 s ≡ some n
unfolding parse_u32
parse_u32-digits [] n ne h = absurd (ne refl)
parse_u32-digits (c ∷ []) n ne h = ground arith
parse_u32-digits (c ∷ d ∷ cs) n ne h = ground arith

-- What is printed is read back, for every u32.
pub parse_u32-display : (n : ℕ) → n < u32_limit → parse_u32 (display n) ≡ some n
unfolding display
parse_u32-display n h =
    parse_u32-digits _ n (digits_from-ne-nil (suc n) n [] (omega arith))
      (parse_digits-digits_from (suc n) n [] (omega arith) h ∙ unfold parse_digits in refl)

-- What `parse::<u32>` returns fits in 32 bits.
parse_digits-lt :
    (s : Text) (acc : ℕ) {n : ℕ} → acc < u32_limit → parse_digits acc s ≡ some n → n < u32_limit
unfolding parse_digits
parse_digits-lt [] acc h e = ground arith
parse_digits-lt (c ∷ cs) acc {n} h e =
    ground (arith, parse_digits-lt cs (acc * 10 + (c - b'0')) {n = n})

pub parse_u32-lt : (s : Text) {n : ℕ} → parse_u32 s ≡ some n → n < u32_limit
unfolding parse_u32
parse_u32-lt [] e = cc
parse_u32-lt (c ∷ []) {n} e = ground (arith, parse_digits-lt (c ∷ []) 0 {n = n})
parse_u32-lt (c ∷ d ∷ cs) e =
    parse_digits-lt (if c == b'+' then d ∷ cs else c ∷ d ∷ cs) 0 (omega arith) e
