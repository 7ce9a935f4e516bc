-- ===== src/Uefi/Order.antt =====
-- crates/core/src/uefi_vars.rs: what changes BootNext and BootOrder, over any backend.
use boot_control.Prelude.{
  ℕ, zero, suc, ◌-◌, min, Bool, true, false, ◌&&◌, ◌||◌, List, [], ◌∷◌, ◌++◌, leb, ◌==◌,
  if◌then◌else◌, length, get_elem?, Option, none, some,
}
use boot_control.Text.{Text, codes}
use boot_control.Text.Numbers.{display, upper_hex4}
use boot_control.Error.{BootControlError, key_not_found, malformed_value, Result, ok, err, ◌>>=◌}
use boot_control.Uefi.{
  Bytes, EfiAttributes, from_u32, parse_boot_order, encode_boot_order, encode_single_u16_var,
  boot_name,
}

-- The traits `UefiVarReader` and `UefiVarWriter`, over the state of the firmware's variables. A
-- write may fail, and may then leave any state.
pub record UefiVars {ℓ} (S : Type ℓ) : Type ℓ where
  pub read_global : Text → S → Result Bytes
  pub write_global : Text → Bytes → EfiAttributes → S → Result (Unit {0}) × S
  pub delete_global : Text → S → Result (Unit {0}) × S

-- `?` in an operation on the variables: an error returns with the state as it is.
abbrev pub checked {ℓ κ} :
    {S : Type ℓ} {A : Type κ} {B : Type κ} → Result A → S → (A → Result B × S) → Result B × S
checked (ok a) s k = k a
checked (err e) s k = (err e, s)

abbrev pub contains_index : ℕ → List ℕ → Bool
contains_index i [] = false
contains_index i (j ∷ js) = (i == j) || contains_index i js

-- The loop over `new_order` with the set `seen`: the first index met twice.
unfoldable pub first_duplicate : List ℕ → List ℕ → Option ℕ
first_duplicate seen [] = none
first_duplicate seen (idx ∷ order) =
    let rest = first_duplicate (idx ∷ seen) order in
    if contains_index idx seen then some idx else rest

-- `sort_unstable` on numbers.
unfoldable pub insert_sorted : ℕ → List ℕ → List ℕ
insert_sorted n [] = n ∷ []
insert_sorted n (m ∷ ms) = let rest = insert_sorted n ms in if leb n m then n ∷ m ∷ ms else m ∷ rest

unfoldable pub sort_unstable : List ℕ → List ℕ
sort_unstable [] = []
sort_unstable (n ∷ ns) = insert_sorted n (sort_unstable ns)

-- `Vec::remove` and `Vec::insert`, at positions in range.
unfoldable pub remove_at : ℕ → List ℕ → List ℕ
remove_at i [] = []
remove_at zero (x ∷ xs) = xs
remove_at (suc i) (x ∷ xs) = x ∷ remove_at i xs

unfoldable pub insert_at : ℕ → ℕ → List ℕ → List ℕ
insert_at zero y xs = y ∷ xs
insert_at (suc i) y [] = y ∷ []
insert_at (suc i) y (x ∷ xs) = x ∷ insert_at i y xs

-- `{:?}` of a slice of numbers.
unfoldable pub debug_items : List ℕ → Text
debug_items [] = codes "]"
debug_items (n ∷ []) = display n ++ codes "]"
debug_items (n ∷ m ∷ ns) = display n ++ (codes ", " ++ debug_items (m ∷ ns))

abbrev pub debug_list : List ℕ → Text
debug_list ns = codes "[" ++ debug_items ns

abbrev pub boot_order_name : Text
boot_order_name = codes "BootOrder"

abbrev pub boot_next_name : Text
boot_next_name = codes "BootNext"

abbrev pub duplicate_error : ℕ → BootControlError
duplicate_error idx =
    malformed_value boot_order_name
      (codes "duplicate index Boot" ++ (upper_hex4 idx ++ codes " in new order"))

abbrev pub permutation_error : List ℕ → List ℕ → BootControlError
permutation_error new_order current = malformed_value boot_order_name (
    codes "new order "
    ++ (debug_list new_order
        ++ (codes " is not a permutation of current "
            ++ (debug_list current ++ codes " (add/remove is a separate operation)"))))

unfoldable pub lists_eq : List ℕ → List ℕ → Bool
lists_eq [] [] = true
lists_eq (x ∷ xs) (y ∷ ys) = (x == y) && lists_eq xs ys
lists_eq _ _ = false

abbrev refuse_duplicate : Option ℕ → Result (Unit {0})
refuse_duplicate none = ok tt
refuse_duplicate (some idx) = err (duplicate_error idx)

-- The checks of `set_boot_order` against the current order.
unfoldable pub check_new_order : List ℕ → List ℕ → Result (Unit {0})
check_new_order current new_order = refuse_duplicate (first_duplicate [] new_order) >>= λ _.
    if lists_eq (sort_unstable current) (sort_unstable new_order)
    then ok tt
    else err (permutation_error new_order current)

-- The order after the move: `to_position` is clamped, `from_position` is not.
abbrev entry_moved : ℕ → ℕ → List ℕ → Option ℕ → Result (List ℕ)
entry_moved from_position to_position order none =
    err (key_not_found (codes "BootOrder[" ++ (display from_position ++ codes "]")))
entry_moved from_position to_position order (some entry) =
    ok (insert_at (min to_position (length order - 1)) entry (remove_at from_position order))

unfoldable pub moved_order : ℕ → ℕ → List ℕ → Result (List ℕ)
moved_order from_position to_position order =
    entry_moved from_position to_position order (get_elem? order from_position)

module _ {ℓ} {S : Type ℓ} (vars : UefiVars S) where
  unfoldable pub current_order : S → Result (List ℕ)
  current_order s = vars.read_global boot_order_name s >>= parse_boot_order

  -- `if !order.contains(&index) { return Err(..) }`, when the order is to be enforced.
  unfoldable pub check_boot_next : ℕ → Bool → S → Result (Unit {0})
  check_boot_next index true s = current_order s >>= λ order.
      if contains_index index order then ok tt else err (key_not_found (boot_name index))
  check_boot_next index false s = ok tt

  unfoldable pub set_boot_next : ℕ → Bool → S → Result (Unit {0}) × S
  set_boot_next index enforce_order s =
      checked (check_boot_next index enforce_order s) s
        λ _. vars.write_global boot_next_name (encode_single_u16_var index) (from_u32 0x07) s

  unfoldable pub clear_boot_next : S → Result (Unit {0}) × S
  clear_boot_next s = vars.delete_global boot_next_name s

  unfoldable pub set_boot_order : List ℕ → S → Result (Unit {0}) × S
  set_boot_order new_order s = checked (current_order s) s λ current.
      checked (check_new_order current new_order) s
        λ _. vars.write_global boot_order_name (encode_boot_order new_order) (from_u32 0x07) s

  unfoldable pub move_boot_order_entry : ℕ → ℕ → S → Result (List ℕ) × S
  move_boot_order_entry from_position to_position s = checked (current_order s) s λ current.
      checked (moved_order from_position to_position current) s
        λ order. let written = set_boot_order order s in ((written.0 >>= λ _. ok order), written.1)
