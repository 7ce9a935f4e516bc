-- ===== src/Uefi/Entries.antt =====
-- crates/core/src/uefi_vars.rs: a `Boot####` variable is read as it was written.
use boot_control.Prelude.{
  ℕ, ◌+◌, ◌-◌, ◌*◌, ◌/◌, ◌%◌, ◌≤◌, ◌<◌, ◌≡◌, ◌⊎◌, refl, arith, List, [], ◌∷◌, ◌++◌, All,
  if◌then◌else◌, ltb,
}
use boot_control.Text.{Text}
use boot_control.Error.{ok}
use boot_control.Uefi.{
  Bytes, has_bit, u16_from_le_bytes, u16_to_le_bytes, u32_from_le_bytes, encode_boot_order,
  from_utf16_lossy, description_units, parse_boot_entry,
}
use boot_control.Uefi.Payloads.{IsByte, IsU16}

-- A Unicode scalar value that is not the terminator.
abbrev pub IsDescriptionChar : ℕ → Type 0
IsDescriptionChar c = (0 < c) × ((c < 0xd800) ⊎ ((0xe000 ≤ c) × (c < 0x110000)))

-- The UTF-16 units of a text.
abbrev pub encode_utf16 : Text → List ℕ
encode_utf16 [] = []
encode_utf16 (c ∷ cs) =
    if ltb c 0x10000
    then c ∷ encode_utf16 cs
    else (0xd800 + (c - 0x10000) / 0x400) ∷ (0xdc00 + (c - 0x10000) % 0x400) ∷ encode_utf16 cs

lone_unit :
    (u : ℕ) (units : List ℕ)
    → (u < 0xd800) ⊎ (0xe000 ≤ u)
    → from_utf16_lossy (u ∷ units) ≡ u ∷ from_utf16_lossy units
unfolding from_utf16_lossy
lone_unit u [] h = ground arith
lone_unit u (v ∷ units) h = ground arith

surrogate_pair :
    (n : ℕ) (units : List ℕ)
    → n < 0x100000
    → from_utf16_lossy ((0xd800 + n / 0x400) ∷ (0xdc00 + n % 0x400) ∷ units)
      ≡ (0x10000 + n) ∷ from_utf16_lossy units
unfolding from_utf16_lossy
surrogate_pair n units h = ground arith

from_utf16_lossy-encode_utf16 :
    (text : Text) → All IsDescriptionChar text → from_utf16_lossy (encode_utf16 text) ≡ text
from_utf16_lossy-encode_utf16 [] h = unfold from_utf16_lossy in refl
from_utf16_lossy-encode_utf16 (c ∷ cs) h = ground (
  arith,
  lone_unit c (encode_utf16 cs),
  surrogate_pair (c - 0x10000) (encode_utf16 cs),
  from_utf16_lossy-encode_utf16 cs h.1,
)

-- A unit that is not the terminator.
abbrev IsUnit : ℕ → Type 0
IsUnit u = (0 < u) × IsU16 u

encode_utf16-IsUnit : (text : Text) → All IsDescriptionChar text → All IsUnit (encode_utf16 text)
encode_utf16-IsUnit [] h = tt
encode_utf16-IsUnit (c ∷ cs) h = ground (arith, encode_utf16-IsUnit cs h.1)

-- The units in front of the terminator are collected, whatever follows it.
description_units_lem :
    (index : ℕ) (units : List ℕ) (tail : Bytes)
    → All IsUnit units
    → description_units index (encode_boot_order units ++ (0 ∷ 0 ∷ tail)) ≡ ok units
unfolding description_units encode_boot_order u16_to_le_bytes u16_from_le_bytes
description_units_lem index [] tail h = refl
description_units_lem index (u ∷ units) tail h =
    let back : u % 256 + 256 * (u / 256 % 256) ≡ u = omega (arith, h.0.1) in
    ground (arith, back, h.0.0, description_units_lem index units tail h.1)

low_bits :
    (a b c d : ℕ)
    → IsByte a
    → (has_bit (u32_from_le_bytes a b c d) 0x01 ≡ has_bit a 0x01)
      × (has_bit (u32_from_le_bytes a b c d) 0x08 ≡ has_bit a 0x08)
unfolding has_bit u32_from_le_bytes
low_bits a b c d byte =
    let e : (a + 256 * b + 65536 * c + 16777216 * d) / 1 % 2 ≡ a / 1 % 2 = omega (arith, byte) in
    let f : (a + 256 * b + 65536 * c + 16777216 * d) / 8 % 2 ≡ a / 8 % 2 = omega (arith, byte) in
    (rw e refl, rw f refl)

-- A load option whose description is a text without NUL, in UTF-16 with its terminator, is read as an
-- entry with that description, active by bit 0 of the first byte and hidden by bit 3, whatever the
-- device path and the optional data behind the description are.
pub parse_boot_entry_lem :
    (index a b c d e f : ℕ) (text : Text) (tail : Bytes)
    → IsByte a
    → All IsDescriptionChar text
    → parse_boot_entry index
        (a ∷ b ∷ c ∷ d ∷ e ∷ f ∷ (encode_boot_order (encode_utf16 text) ++ (0 ∷ 0 ∷ tail)))
      ≡ ok (record {
        index = index;
        active = has_bit a 0x01;
        hidden = has_bit a 0x08;
        description = text;
      })
unfolding parse_boot_entry
parse_boot_entry_lem index a b c d e f text tail byte chars =
    rw
      (
        description_units_lem index (encode_utf16 text) tail (encode_utf16-IsUnit text chars),
        from_utf16_lossy-encode_utf16 text chars,
        (low_bits a b c d byte).0,
        (low_bits a b c d byte).1,
      )
      refl
