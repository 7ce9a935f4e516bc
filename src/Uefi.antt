-- ===== src/Uefi.antt =====
-- crates/core/src/uefi_vars.rs: the payloads of UEFI variables, read and written.
pub mod Payloads
pub mod Order
pub mod Sorting
pub mod BootOrder
pub mod Moves
pub mod Entries
use boot_control.Prelude.{
  ℕ, zero, suc, ◌+◌, ◌-◌, ◌*◌, ◌/◌, ◌%◌, Bool, true, false, ◌&&◌, ◌||◌, List, [], ◌∷◌, ◌++◌, ltb,
  leb, ◌==◌, if◌then◌else◌, length,
}
use boot_control.Text.{Text, codes}
use boot_control.Text.Numbers.{display, upper_hex4}
use boot_control.Error.{BootControlError, malformed_value, Result, ok, err, ◌>>=◌}

abbrev pub Bytes : Type 0
Bytes = List ℕ

pub record EfiAttributes : Type 0 where
  pub non_volatile : Bool
  pub bootservice_access : Bool
  pub runtime_access : Bool
  pub hardware_error_record : Bool
  pub authenticated_write_access : Bool
  pub time_based_authenticated_write_access : Bool
  pub append_write : Bool

-- `raw & mask != 0`, where the mask is one bit.
unfoldable pub has_bit : ℕ → ℕ → Bool
has_bit raw mask = raw / mask % 2 == 1

unfoldable pub from_u32 : ℕ → EfiAttributes
from_u32 raw = record {
  non_volatile = has_bit raw 0x01;
  bootservice_access = has_bit raw 0x02;
  runtime_access = has_bit raw 0x04;
  hardware_error_record = has_bit raw 0x08;
  authenticated_write_access = has_bit raw 0x10;
  time_based_authenticated_write_access = has_bit raw 0x20;
  append_write = has_bit raw 0x40;
}

-- `a | b` on numbers of so many bits.
unfoldable pub bit_or : ℕ → ℕ → ℕ → ℕ
bit_or zero a b = 0
bit_or (suc bits) a b =
    (if a % 2 == 1 || b % 2 == 1 then 1 else 0) + 2 * bit_or bits (a / 2) (b / 2)

abbrev pub or32 : ℕ → ℕ → ℕ
or32 = bit_or 32

unfoldable pub to_u32 : EfiAttributes → ℕ
to_u32 attrs =
    or32
      (or32
        (or32
          (or32
            (or32
              (or32 (if attrs.non_volatile then 0x01 else 0)
                (if attrs.bootservice_access then 0x02 else 0))
              (if attrs.runtime_access then 0x04 else 0))
            (if attrs.hardware_error_record then 0x08 else 0))
          (if attrs.authenticated_write_access then 0x10 else 0))
        (if attrs.time_based_authenticated_write_access then 0x20 else 0))
      (if attrs.append_write then 0x40 else 0)

pub record EfiBootEntry : Type 0 where
  pub index : ℕ
  pub active : Bool
  pub hidden : Bool
  pub description : Text

-- `u16::from_le_bytes`, `u16::to_le_bytes`, `u32::from_le_bytes`.
unfoldable pub u16_from_le_bytes : ℕ → ℕ → ℕ
u16_from_le_bytes low high = low + 256 * high

unfoldable pub u16_to_le_bytes : ℕ → Bytes
u16_to_le_bytes n = n % 256 ∷ n / 256 % 256 ∷ []

unfoldable pub u32_from_le_bytes : ℕ → ℕ → ℕ → ℕ → ℕ
u32_from_le_bytes a b c d = a + 256 * b + 65536 * c + 16777216 * d

-- `as_chunks::<2>().0`, each chunk decoded: a last byte alone is dropped.
unfoldable pub decode_chunks : Bytes → List ℕ
decode_chunks [] = []
decode_chunks (a ∷ []) = []
decode_chunks (a ∷ b ∷ bytes) = u16_from_le_bytes a b ∷ decode_chunks bytes

unfoldable pub parse_boot_order : Bytes → Result (List ℕ)
parse_boot_order payload =
    if length payload % 2 == 0
    then ok (decode_chunks payload)
    else err (
        malformed_value (codes "BootOrder") (
          codes "payload length " ++ (display (length payload) ++ codes " is not a multiple of 2")))

unfoldable pub encode_boot_order : List ℕ → Bytes
encode_boot_order [] = []
encode_boot_order (i ∷ indices) = u16_to_le_bytes i ++ encode_boot_order indices

unfoldable pub parse_single_u16_var : Text → Bytes → Result ℕ
parse_single_u16_var name (a ∷ b ∷ []) = ok (u16_from_le_bytes a b)
parse_single_u16_var name payload = err (
    malformed_value name (
      name
      ++ (codes " payload length "
          ++ (display (length payload) ++ codes " ≠ 2 (expected single u16)"))))

unfoldable pub encode_single_u16_var : ℕ → Bytes
encode_single_u16_var index = u16_to_le_bytes index

abbrev pub is_high_surrogate : ℕ → Bool
is_high_surrogate u = leb 0xd800 u && ltb u 0xdc00

abbrev pub is_low_surrogate : ℕ → Bool
is_low_surrogate u = leb 0xdc00 u && ltb u 0xe000

abbrev replacement_character : ℕ
replacement_character = 0xfffd

-- `String::from_utf16_lossy`: a lone surrogate becomes U+FFFD.
unfoldable pub from_utf16_lossy : List ℕ → Text
from_utf16_lossy [] = []
from_utf16_lossy (u ∷ []) =
    (if is_high_surrogate u || is_low_surrogate u then replacement_character else u) ∷ []
from_utf16_lossy (u ∷ v ∷ units) =
    let pair = from_utf16_lossy units in
    let rest = from_utf16_lossy (v ∷ units) in
    if is_high_surrogate u && is_low_surrogate v
    then (0x10000 + (u - 0xd800) * 0x400 + (v - 0xdc00)) ∷ pair
    else (if is_high_surrogate u || is_low_surrogate u then replacement_character else u) ∷ rest

unfoldable pub boot_name : ℕ → Text
boot_name index = codes "Boot" ++ upper_hex4 index

-- The loop that collects the units in front of the terminator.
unfoldable pub description_units : ℕ → Bytes → Result (List ℕ)
description_units index (a ∷ b ∷ bytes) =
    let rest = description_units index bytes in
    let unit = u16_from_le_bytes a b in
    if unit == 0 then ok [] else (rest >>= λ units. ok (unit ∷ units))
description_units index bytes = err (
    malformed_value (boot_name index)
      (codes "description has no null terminator before end of payload"))

abbrev pub boot_entry : ℕ → ℕ → List ℕ → EfiBootEntry
boot_entry index attrs units = record {
  index = index;
  active = has_bit attrs 0x01;
  hidden = has_bit attrs 0x08;
  description = from_utf16_lossy units;
}

unfoldable pub parse_boot_entry : ℕ → Bytes → Result EfiBootEntry
parse_boot_entry index (a ∷ b ∷ c ∷ d ∷ e ∷ f ∷ bytes) = description_units index bytes >>= λ units.
    ok (boot_entry index (u32_from_le_bytes a b c d) units)
parse_boot_entry index payload = err (
    malformed_value (boot_name index) (
      codes "payload length " ++ (display (length payload) ++ codes " is below the 6-byte header")))
