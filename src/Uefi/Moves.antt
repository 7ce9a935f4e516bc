-- ===== src/Uefi/Moves.antt =====
-- crates/core/src/uefi_vars.rs: what moving an entry and choosing the next boot do.
use mathlib.Core.List.{Permᴰ}
use boot_control.Prelude.{
  ℕ, zero, suc, ◌-◌, ◌≤◌, ◌<◌, min, ◌≡◌, ◌≢◌, ◌⊎◌, inl, inr, refl, sym, ◌∙◌, arith, Bool, true,
  false, List, [], ◌∷◌, ◌==◌, Bool-cases, length, get_elem?, none, some, All, ◌++◌,
}
use boot_control.Text.{codes}
use boot_control.Text.Numbers.{display}
use boot_control.Error.{BootControlError, key_not_found, Result, ok, err, ◌>>=◌, Result-cases}
use boot_control.Uefi.{boot_name}
use boot_control.Uefi.Order.{
  UefiVars, contains_index, remove_at, insert_at, duplicate_error, check_new_order, current_order,
  check_boot_next, set_boot_next, set_boot_order, moved_order, move_boot_order_entry,
}
use boot_control.Uefi.Sorting.{
  Distinct, Permᴰ-Distinct, moved-Permᴰ, length-remove_at, insert_at_lem,
}
use boot_control.Uefi.BootOrder.{
  OrderVerdict, accepted, duplicate, not_permutation, check_new_order-OrderVerdict, write_order,
  write_next,
}

-- The second order is the first one with the entry at `from` taken to `to`, the last position at
-- most; the others keep their order.
abbrev pub Moved : ℕ → ℕ → List ℕ → List ℕ → Type 0
Moved from to current order =
    let place = min to (length current - 1) in
    (get_elem? order place ≡ get_elem? current from)
    × (remove_at place order ≡ remove_at from current)

get_elem?-lt : (xs : List ℕ) (i : ℕ) → i < length xs → (x : ℕ) × (get_elem? xs i ≡ some x)
get_elem?-lt [] i h = absurd (omega (arith, h))
get_elem?-lt (x ∷ xs) zero h = (x, refl)
get_elem?-lt (x ∷ xs) (suc i) h = get_elem?-lt xs i (omega (arith, h))

get_elem?-ge : (xs : List ℕ) (i : ℕ) → length xs ≤ i → get_elem? xs i ≡ none
get_elem?-ge [] i h = refl
get_elem?-ge (x ∷ xs) zero h = absurd (omega (arith, h))
get_elem?-ge (x ∷ xs) (suc i) h = get_elem?-ge xs i (omega (arith, h))

contains_index_iff :
    (i : ℕ) (xs : List ℕ)
    → ((contains_index i xs ≡ true) × ((k : ℕ) × (get_elem? xs k ≡ some i)))
      ⊎ ((contains_index i xs ≡ false) × All (λ (j : ℕ). i ≢ j) xs)
contains_index_iff i [] = inr (refl, tt)
contains_index_iff i (j ∷ js) = elim (Bool-cases (i == j)) [
  | inl here ↦ inl (ground arith, (0, ground arith))
  | inr other ↦ elim (contains_index_iff i js) [
    | inl (c, (k, e)) ↦ inl (ground arith, (suc k, e))
    | inr (c, a) ↦ inr (ground arith, (ground arith, a))
  ]
]

insert_at-Moved :
    (from to y : ℕ) (current : List ℕ)
    → get_elem? current from ≡ some y
    → Moved from to current (insert_at (min to (length current - 1)) y (remove_at from current))
insert_at-Moved from to y current h =
    let size = length-remove_at from y current h in
    let placed =
      insert_at_lem (min to (length current - 1)) y (remove_at from current)
        (omega (arith, size)) in
    (placed.0 ∙ sym h, placed.1)

-- The error of a position that is past the end.
abbrev pub no_position : ℕ → BootControlError
no_position from = key_not_found (codes "BootOrder[" ++ (display from ++ codes "]"))

-- What the move makes of the current order, before it is written.
data Move (from to : ℕ) (current : List ℕ) : Result (List ℕ) → Type 0 where
  out_of_range : length current ≤ from → Move from to current (err (no_position from))
  in_range :
      (order : List ℕ)
      → from < length current
      → Moved from to current order
      → Permᴰ current order
      → Move from to current (ok order)

Nat-cases : (m n : ℕ) → (m < n) ⊎ (n ≤ m)
Nat-cases m n = omega arith

moved_order-Move :
    (from to : ℕ) (current : List ℕ) → Move from to current (moved_order from to current)
unfolding moved_order
moved_order-Move from to current = elim (Nat-cases from (length current)) [
  | inl inside ↦
      let found = get_elem?-lt current from inside in
      rw (found.1) (
        in_range _ inside (insert_at-Moved from to found.0 current found.1)
          (moved-Permᴰ from _ found.0 current found.1))
  | inr outside ↦ rw (get_elem?-ge current from outside) (out_of_range outside)
]

module _ {ℓ} {S : Type ℓ} (vars : UefiVars S) where
  -- What `move_boot_order_entry` may do.
  pub data MoveOutcome (from to : ℕ) (s : S) : Result (List ℕ) × S → Type ℓ where
    no_order :
        (e : BootControlError) → current_order vars s ≡ err e → MoveOutcome from to s (err e, s)
    past_end :
        (current : List ℕ)
        → current_order vars s ≡ ok current
        → length current ≤ from
        → MoveOutcome from to s (err (no_position from), s)
    repeated :
        (current : List ℕ) (idx : ℕ)
        → current_order vars s ≡ ok current
        → ¬ Distinct current
        → MoveOutcome from to s (err (duplicate_error idx), s)
    moved :
        (current order : List ℕ)
        → current_order vars s ≡ ok current
        → from < length current
        → Moved from to current order
        → Permᴰ current order
        → Distinct order
        → MoveOutcome from to s
            (((write_order vars order s).0 >>= λ _. ok order), (write_order vars order s).1)

  checked-MoveOutcome :
      (from to : ℕ) (current order : List ℕ) (s : S)
      → current_order vars s ≡ ok current
      → moved_order from to current ≡ ok order
      → from < length current
      → Moved from to current order
      → Permᴰ current order
      → (verdict : Result (Unit {0})) → check_new_order current order ≡ verdict
      → OrderVerdict current order verdict
      → MoveOutcome from to s (move_boot_order_entry vars from to s)
  unfolding move_boot_order_entry set_boot_order
  checked-MoveOutcome from to current order s c m f k p _ e (accepted q d) =
      rw (c, m, e) (moved current order c f k p d)
  checked-MoveOutcome from to current order s c m f k p _ e (duplicate idx n) =
      rw (c, m, e) (repeated current idx c (λ d. n (Permᴰ-Distinct p d)))
  checked-MoveOutcome from to current order s c m f k p _ e (not_permutation n d) = absurd (n p)

  placed-MoveOutcome :
      (from to : ℕ) (current : List ℕ) (s : S)
      → current_order vars s ≡ ok current
      → (r : Result (List ℕ)) → moved_order from to current ≡ r
      → Move from to current r
      → MoveOutcome from to s (move_boot_order_entry vars from to s)
  unfolding move_boot_order_entry
  placed-MoveOutcome from to current s c _ m (out_of_range f) = rw (c, m) (past_end current c f)
  placed-MoveOutcome from to current s c _ m (in_range order f k p) =
      checked-MoveOutcome from to current order s c m f k p _ refl
        (check_new_order-OrderVerdict current order)

  -- Moving an entry fails and changes nothing when the order cannot be read, `from` is past its end
  -- or it repeats an index. In every other case it writes the order in which that entry stands at
  -- `to`, or at the last position when `to` is past it, and the others keep their order among
  -- themselves; it returns that order unless the write fails.
  pub move_boot_order_entry-MoveOutcome :
      (from to : ℕ) (s : S) → MoveOutcome from to s (move_boot_order_entry vars from to s)
  unfolding move_boot_order_entry
  move_boot_order_entry-MoveOutcome from to s = elim (Result-cases (current_order vars s)) [
    | inl (current, c) ↦
        placed-MoveOutcome from to current s c _ refl (moved_order-Move from to current)
    | inr (e, c) ↦ rw c (no_order e c)
  ]

  -- What `set_boot_next` may do.
  pub data NextOutcome (index : ℕ) (enforce_order : Bool) (s : S)
      : Result (Unit {0}) × S → Type ℓ where
    unlisted :
        (order : List ℕ)
        → enforce_order ≡ true
        → current_order vars s ≡ ok order
        → All (λ (j : ℕ). index ≢ j) order
        → NextOutcome index enforce_order s (err (key_not_found (boot_name index)), s)
    no_order :
        (e : BootControlError)
        → enforce_order ≡ true
        → current_order vars s ≡ err e
        → NextOutcome index enforce_order s (err e, s)
    listed :
        (order : List ℕ) (k : ℕ)
        → enforce_order ≡ true
        → current_order vars s ≡ ok order
        → get_elem? order k ≡ some index
        → NextOutcome index enforce_order s (write_next vars index s)
    unchecked : enforce_order ≡ false → NextOutcome index enforce_order s (write_next vars index s)

  enforced-NextOutcome :
      (index : ℕ) (s : S) → NextOutcome index true s (set_boot_next vars index true s)
  unfolding check_boot_next set_boot_next
  enforced-NextOutcome index s = elim (Result-cases (current_order vars s)) [
    | inl (order, c) ↦ elim (contains_index_iff index order) [
      | inl (here, (k, e)) ↦ rw (c, here) (listed order k refl c e)
      | inr (missing, none_of) ↦ rw (c, missing) (unlisted order refl c none_of)
    ]
    | inr (e, c) ↦ rw c (no_order e refl c)
  ]

  -- With the order enforced, `set_boot_next` writes exactly the indices that the current order
  -- lists, and refuses the others, or every index when the order cannot be read, with nothing
  -- changed; without it, it always writes.
  pub set_boot_next-NextOutcome :
      (index : ℕ) (enforce_order : Bool) (s : S)
      → NextOutcome index enforce_order s (set_boot_next vars index enforce_order s)
  unfolding check_boot_next set_boot_next
  set_boot_next-NextOutcome index true s = enforced-NextOutcome index s
  set_boot_next-NextOutcome index false s = unchecked refl
