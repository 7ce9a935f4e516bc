-- ===== src/Uefi/BootOrder.antt =====
-- crates/core/src/uefi_vars.rs: what `set_boot_order`, `move_boot_order_entry` and `set_boot_next`
-- do on every branch, over any backend.
use mathlib.Core.List.{Permᴰ}
use boot_control.Prelude.{ℕ, ◌≡◌, inl, inr, refl, arith, List, [], Bool-cases, Option-cases}
use boot_control.Error.{BootControlError, Result, ok, err, Result-cases}
use boot_control.Uefi.{from_u32, encode_boot_order, encode_single_u16_var}
use boot_control.Uefi.Order.{
  UefiVars, first_duplicate, sort_unstable, lists_eq, boot_order_name, boot_next_name,
  duplicate_error, permutation_error, check_new_order, current_order, set_boot_order,
}
use boot_control.Uefi.Sorting.{sorted_copies_iff, Distinct, first_duplicate-Distinct}

-- The verdict of the checks on a new order.
pub data OrderVerdict (current new_order : List ℕ) : Result (Unit {0}) → Type 0 where
  accepted : Permᴰ current new_order → Distinct new_order → OrderVerdict current new_order (ok tt)
  duplicate :
      (idx : ℕ) → ¬ Distinct new_order → OrderVerdict current new_order (err (duplicate_error idx))
  not_permutation :
      ¬ Permᴰ current new_order
      → Distinct new_order
      → OrderVerdict current new_order (err (permutation_error new_order current))

pub check_new_order-OrderVerdict :
    (current new_order : List ℕ)
    → OrderVerdict current new_order (check_new_order current new_order)
unfolding check_new_order
check_new_order-OrderVerdict current new_order =
    elim (Option-cases (first_duplicate [] new_order)) [
      | inr (idx, found) ↦
          rw found (duplicate idx (λ d. ground (arith, (first_duplicate-Distinct new_order).1 d)))
      | inl unique ↦
          elim (Bool-cases (lists_eq (sort_unstable current) (sort_unstable new_order))) [
            | inl same ↦
                rw (unique, same)
                  (accepted ((sorted_copies_iff current new_order).0 same)
                    ((first_duplicate-Distinct new_order).0 unique))
            | inr differ ↦
                rw (unique, differ)
                  (not_permutation (λ p. ground (arith, (sorted_copies_iff current new_order).1 p))
                    ((first_duplicate-Distinct new_order).0 unique))
          ]
    ]

module _ {ℓ} {S : Type ℓ} (vars : UefiVars S) where
  abbrev pub write_order : List ℕ → S → Result (Unit {0}) × S
  write_order order = vars.write_global boot_order_name (encode_boot_order order) (from_u32 0x07)

  abbrev pub write_next : ℕ → S → Result (Unit {0}) × S
  write_next index = vars.write_global boot_next_name (encode_single_u16_var index) (from_u32 0x07)

  -- What `set_boot_order` may do.
  pub data OrderOutcome (new_order : List ℕ) (s : S) : Result (Unit {0}) × S → Type ℓ where
    unreadable :
        (e : BootControlError) → current_order vars s ≡ err e → OrderOutcome new_order s (err e, s)
    refused :
        (current : List ℕ) (e : BootControlError)
        → current_order vars s ≡ ok current
        → OrderVerdict current new_order (err e)
        → OrderOutcome new_order s (err e, s)
    written :
        (current : List ℕ)
        → current_order vars s ≡ ok current
        → Permᴰ current new_order
        → Distinct new_order
        → OrderOutcome new_order s (write_order new_order s)

  set_boot_order-checked :
      (new_order current : List ℕ) (s : S)
      → current_order vars s ≡ ok current
      → (verdict : Result (Unit {0})) → check_new_order current new_order ≡ verdict
      → OrderVerdict current new_order verdict
      → OrderOutcome new_order s (set_boot_order vars new_order s)
  unfolding set_boot_order
  set_boot_order-checked new_order current s h _ e (accepted p d) =
      rw (set_boot_order, h, e) (written current h p d)
  set_boot_order-checked new_order current s h _ e (duplicate idx n) =
      rw (set_boot_order, h, e) (refused current _ h (duplicate idx n))
  set_boot_order-checked new_order current s h _ e (not_permutation n d) =
      rw (set_boot_order, h, e) (refused current _ h (not_permutation n d))

  -- `set_boot_order` either leaves the variables alone and fails, because the current order cannot
  -- be read, the new one repeats an index, or it is not a permutation of the current one; or the new
  -- order is a permutation without repetition, and it writes exactly that order.
  pub set_boot_order-OrderOutcome :
      (new_order : List ℕ) (s : S) → OrderOutcome new_order s (set_boot_order vars new_order s)
  unfolding set_boot_order
  set_boot_order-OrderOutcome new_order s = elim (Result-cases (current_order vars s)) [
    | inl (current, h) ↦
        set_boot_order-checked new_order current s h _ refl
          (check_new_order-OrderVerdict current new_order)
    | inr (e, h) ↦ rw (set_boot_order, h) (unreadable e h)
  ]
