-- ===== src/Tests/Uefi.antt =====
-- UEFI variables over a backend that keeps them in a list.
use boot_control.Uefi.Entries.{encode_utf16, parse_boot_entry_lem}
use boot_control.Prelude.{ℕ, ◌%◌, true, List, [], ◌∷◌, ◌≡◌, ◌↔◌, refl, arith, All, ◌++◌}
use boot_control.Text.{codes, text_eq, Text}
use boot_control.Error.{esp_scan_failed, ok, ok_or}
use boot_control.Map.{TextMap, lookup, insert}
use boot_control.Uefi.{
  Bytes, from_u32, to_u32, parse_boot_order, encode_boot_order, decode_chunks, u16_from_le_bytes,
  parse_boot_entry, has_bit, description_units, u32_from_le_bytes, from_utf16_lossy,
}
use boot_control.Uefi.Payloads.{IsU16, parse_boot_order_iff, attributes-round_trip}
use boot_control.Uefi.Order.{
  UefiVars, boot_order_name, current_order, set_boot_order, set_boot_next, move_boot_order_entry,
  check_new_order, first_duplicate, lists_eq, sort_unstable, insert_sorted, moved_order, remove_at,
  insert_at,
}
use boot_control.Uefi.BootOrder.{OrderOutcome, set_boot_order-OrderOutcome}
use boot_control.Uefi.Moves.{
  MoveOutcome, move_boot_order_entry-MoveOutcome, NextOutcome, set_boot_next-NextOutcome,
}

abbrev Nvram : Type 0
Nvram = TextMap Bytes

abbrev vars : UefiVars Nvram
vars = record {
  read_global = λ name s. ok_or (esp_scan_failed name) (lookup name s);
  write_global = λ name payload attrs s. (ok tt, insert name payload s);
  delete_global = λ name s. (ok tt, insert name [] s);
}

abbrev nvram : Nvram
nvram = (boot_order_name, 1 ∷ 0 ∷ 0 ∷ 0 ∷ 7 ∷ 0 ∷ []) ∷ []

abbrev reordered : List ℕ
reordered = 7 ∷ 1 ∷ 0 ∷ []

runs-move_boot_order_entry : (move_boot_order_entry vars 2 0 nvram).0 ≡ ok reordered
unfolding set_boot_order current_order check_new_order first_duplicate lists_eq sort_unstable
    insert_sorted parse_boot_order decode_chunks u16_from_le_bytes lookup codes text_eq
    move_boot_order_entry moved_order remove_at insert_at
runs-move_boot_order_entry = refl

reads-boot_entry :
    parse_boot_entry 5 (9 ∷ 0 ∷ 0 ∷ 0 ∷ 0 ∷ 0 ∷ 66 ∷ 0 ∷ 61 ∷ 216 ∷ 0 ∷ 222 ∷ 0 ∷ 0 ∷ [])
    ≡ ok (record { index = 5; active = true; hidden = true; description = b'B' ∷ 0x1f600 ∷ [] })
unfolding parse_boot_entry description_units u16_from_le_bytes has_bit u32_from_le_bytes
    from_utf16_lossy
reads-boot_entry = refl

parse_boot_order_iff_example :
    (parse_boot_order (1 ∷ 0 ∷ 0 ∷ 2 ∷ []) ≡ ok (1 ∷ 512 ∷ []))
    ↔ (All IsU16 (1 ∷ 512 ∷ []) × (1 ∷ 0 ∷ 0 ∷ 2 ∷ [] ≡ encode_boot_order (1 ∷ 512 ∷ [])))
parse_boot_order_iff_example =
    parse_boot_order_iff (1 ∷ 0 ∷ 0 ∷ 2 ∷ []) (1 ∷ 512 ∷ [])
      (omega arith, (omega arith, (omega arith, (omega arith, tt))))

attributes-round_trip_example :
    (from_u32 (to_u32 (from_u32 0x27)) ≡ from_u32 0x27) × (to_u32 (from_u32 0xa7) ≡ 0xa7 % 128)
attributes-round_trip_example = attributes-round_trip (from_u32 0x27) 0xa7

set_boot_order-OrderOutcome_example :
    OrderOutcome vars reordered nvram (set_boot_order vars reordered nvram)
set_boot_order-OrderOutcome_example = set_boot_order-OrderOutcome vars reordered nvram

move_boot_order_entry-MoveOutcome_example :
    MoveOutcome vars 2 9 nvram (move_boot_order_entry vars 2 9 nvram)
move_boot_order_entry-MoveOutcome_example = move_boot_order_entry-MoveOutcome vars 2 9 nvram

set_boot_next-NextOutcome_example : NextOutcome vars 7 true nvram (set_boot_next vars 7 true nvram)
set_boot_next-NextOutcome_example = set_boot_next-NextOutcome vars 7 true nvram

abbrev description : Text
description = b'B' ∷ 0x1f600 ∷ []

parse_boot_entry_lem_example :
    parse_boot_entry 5
      (9 ∷ 0 ∷ 0 ∷ 0 ∷ 0 ∷ 0 ∷ (encode_boot_order (encode_utf16 description) ++ (0 ∷ 0 ∷ 7 ∷ [])))
    ≡ ok (record {
      index = 5;
      active = has_bit 9 0x01;
      hidden = has_bit 9 0x08;
      description = description;
    })
parse_boot_entry_lem_example =
    parse_boot_entry_lem 5 9 0 0 0 0 0 description (7 ∷ []) (omega arith) (ground arith)
