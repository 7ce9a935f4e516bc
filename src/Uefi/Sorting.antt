-- ===== src/Uefi/Sorting.antt =====
-- crates/core/src/uefi_vars.rs: the sorted copies are equal exactly when one order permutes the
-- other, and moving an entry permutes.
use mathlib.Core.List.{Permᴰ}
use mathlib.Core.List.Permᴰ
use boot_control.Prelude.{
  ℕ, zero, suc, ◌≤◌, ◌≡◌, ◌≢◌, ◌↔◌, inl, inr, refl, sym, ap, subst, ◌∙◌, arith, true, false, List,
  [], ◌∷◌, leb, Bool-cases, length, get_elem?, none, some, All, subst₂,
}
use boot_control.Uefi.Order.{
  insert_sorted, sort_unstable, remove_at, insert_at, lists_eq, contains_index, first_duplicate,
}

insert_sorted-Permᴰ : (n : ℕ) (ns : List ℕ) → Permᴰ (n ∷ ns) (insert_sorted n ns)
unfolding insert_sorted
insert_sorted-Permᴰ n [] = Permᴰ.cons refl Permᴰ.nil
insert_sorted-Permᴰ n (m ∷ ms) = elim (Bool-cases (leb n m)) [
  | inl here ↦ rw here (Permᴰ.refl (n ∷ m ∷ ms))
  | inr later ↦
      rw later (Permᴰ.trans (Permᴰ.swap refl refl) (Permᴰ.cons refl (insert_sorted-Permᴰ n ms)))
]

sort_unstable-Permᴰ : (ns : List ℕ) → Permᴰ ns (sort_unstable ns)
unfolding sort_unstable
sort_unstable-Permᴰ [] = Permᴰ.nil
sort_unstable-Permᴰ (n ∷ ns) =
    Permᴰ.trans (Permᴰ.cons refl (sort_unstable-Permᴰ ns))
      (insert_sorted-Permᴰ n (sort_unstable ns))

insert_sorted_comm :
    (a b : ℕ) (ns : List ℕ)
    → insert_sorted a (insert_sorted b ns) ≡ insert_sorted b (insert_sorted a ns)
unfolding insert_sorted
insert_sorted_comm a b [] = ground arith
insert_sorted_comm a b (m ∷ ms) = ground (arith, insert_sorted_comm a b ms)

Permᴰ-sort_unstable : {xs ys : List ℕ} → Permᴰ xs ys → sort_unstable xs ≡ sort_unstable ys
unfolding sort_unstable
Permᴰ-sort_unstable Permᴰ.nil = refl
Permᴰ-sort_unstable (Permᴰ.cons e p) = rw (e, Permᴰ-sort_unstable p) refl
Permᴰ-sort_unstable (Permᴰ.swap {l = l} e f) = rw (e, f) (insert_sorted_comm _ _ (sort_unstable l))
Permᴰ-sort_unstable (Permᴰ.trans p q) = Permᴰ-sort_unstable p ∙ Permᴰ-sort_unstable q

lists_eq_iff : (xs ys : List ℕ) → (lists_eq xs ys ≡ true) ↔ (xs ≡ ys)
unfolding lists_eq
lists_eq_iff [] [] = (λ _. refl, λ _. refl)
lists_eq_iff [] (y ∷ ys) = (λ h. ground arith, λ h. cc)
lists_eq_iff (x ∷ xs) [] = (λ h. ground arith, λ h. cc)
lists_eq_iff (x ∷ xs) (y ∷ ys) =
    (λ h. ground (arith, lists_eq_iff xs ys), λ h. ground (arith, lists_eq_iff xs ys))

-- The test on the sorted copies decides whether the orders are permutations of each other.
pub sorted_copies_iff :
    (xs ys : List ℕ) → (lists_eq (sort_unstable xs) (sort_unstable ys) ≡ true) ↔ Permᴰ xs ys
sorted_copies_iff xs ys = (
  λ h. Permᴰ.trans (sort_unstable-Permᴰ xs) (
      subst (λ (zs : List ℕ). Permᴰ zs ys) (sym ((lists_eq_iff _ _).0 h))
        (Permᴰ.symm (sort_unstable-Permᴰ ys))),
  λ p. (lists_eq_iff _ _).1 (Permᴰ-sort_unstable p),
)

-- No index occurs twice.
unfoldable pub Distinct : List ℕ → Type 0
Distinct [] = Unit
Distinct (n ∷ ns) = All (λ (m : ℕ). n ≢ m) ns × Distinct ns

abbrev Unseen : List ℕ → List ℕ → Type 0
Unseen seen = All (λ (n : ℕ). contains_index n seen ≡ false)

Unseen-cons :
    (seen : List ℕ) (n : ℕ) (ns : List ℕ)
    → Unseen (n ∷ seen) ns ↔ (All (λ (m : ℕ). n ≢ m) ns × Unseen seen ns)
Unseen-cons seen n [] = (λ _. (tt, tt), λ _. tt)
Unseen-cons seen n (m ∷ ms) =
    (λ h. ground (arith, Unseen-cons seen n ms), λ h. ground (arith, Unseen-cons seen n ms))

-- The loop with the set of indices seen so far.
first_duplicate_iff :
    (seen ns : List ℕ) → (first_duplicate seen ns ≡ none) ↔ (Unseen seen ns × Distinct ns)
unfolding first_duplicate Distinct
first_duplicate_iff seen [] = (λ _. (tt, tt), λ _. refl)
first_duplicate_iff seen (n ∷ ns) = (
  λ h. ground (arith, first_duplicate_iff (n ∷ seen) ns, Unseen-cons seen n ns),
  λ h. ground (arith, first_duplicate_iff (n ∷ seen) ns, Unseen-cons seen n ns),
)

none_seen : (ns : List ℕ) → Unseen [] ns
none_seen [] = tt
none_seen (n ∷ ns) = (refl, none_seen ns)

pub first_duplicate-Distinct : (ns : List ℕ) → (first_duplicate [] ns ≡ none) ↔ Distinct ns
first_duplicate-Distinct ns =
    let h = first_duplicate_iff [] ns in (λ e. (h.0 e).1, λ d. h.1 (none_seen ns, d))

Permᴰ-All : (P : ℕ → Type 0) {xs ys : List ℕ} → Permᴰ xs ys → All P xs → All P ys
Permᴰ-All P Permᴰ.nil h = tt
Permᴰ-All P (Permᴰ.cons e p) h = (subst P e h.0, Permᴰ-All P p h.1)
Permᴰ-All P (Permᴰ.swap e f) h = (subst P f h.1.0, (subst P e h.0, h.1.1))
Permᴰ-All P (Permᴰ.trans p q) h = Permᴰ-All P q (Permᴰ-All P p h)

swap-Distinct : (a b : ℕ) (l : List ℕ) → Distinct (a ∷ b ∷ l) → Distinct (b ∷ a ∷ l)
unfolding Distinct
swap-Distinct a b l h = ((λ k. h.0.0 (sym k), h.1.0), (h.0.1, h.1.1))

pub Permᴰ-Distinct : {xs ys : List ℕ} → Permᴰ xs ys → Distinct xs → Distinct ys
unfolding Distinct
Permᴰ-Distinct Permᴰ.nil h = tt
Permᴰ-Distinct (Permᴰ.cons {a} {b} {l₂ = l} e p) h = (
  subst (λ (c : ℕ). All (λ (m : ℕ). c ≢ m) l) e (Permᴰ-All (λ (m : ℕ). a ≢ m) p h.0),
  Permᴰ-Distinct p h.1,
)
Permᴰ-Distinct (Permᴰ.swap {l = l} e f) h =
    subst₂ (λ (b a : ℕ). Distinct (b ∷ a ∷ l)) f e (swap-Distinct _ _ l h)
Permᴰ-Distinct (Permᴰ.trans p q) h = Permᴰ-Distinct q (Permᴰ-Distinct p h)

remove_at-Permᴰ : (i y : ℕ) (xs : List ℕ) → get_elem? xs i ≡ some y → Permᴰ xs (y ∷ remove_at i xs)
unfolding remove_at
remove_at-Permᴰ i y [] h = ground arith
remove_at-Permᴰ zero y (x ∷ xs) h = Permᴰ.cons (ground arith) (Permᴰ.refl xs)
remove_at-Permᴰ (suc i) y (x ∷ xs) h =
    Permᴰ.trans (Permᴰ.cons refl (remove_at-Permᴰ i y xs h)) (Permᴰ.swap refl refl)

insert_at-Permᴰ : (i y : ℕ) (xs : List ℕ) → Permᴰ (y ∷ xs) (insert_at i y xs)
unfolding insert_at
insert_at-Permᴰ zero y xs = Permᴰ.refl (y ∷ xs)
insert_at-Permᴰ (suc i) y [] = Permᴰ.refl (y ∷ [])
insert_at-Permᴰ (suc i) y (x ∷ xs) =
    Permᴰ.trans (Permᴰ.swap refl refl) (Permᴰ.cons refl (insert_at-Permᴰ i y xs))

pub moved-Permᴰ :
    (from to y : ℕ) (xs : List ℕ)
    → get_elem? xs from ≡ some y
    → Permᴰ xs (insert_at to y (remove_at from xs))
moved-Permᴰ from to y xs h =
    Permᴰ.trans (remove_at-Permᴰ from y xs h) (insert_at-Permᴰ to y (remove_at from xs))

pub length-remove_at :
    (i y : ℕ) (xs : List ℕ) → get_elem? xs i ≡ some y → suc (length (remove_at i xs)) ≡ length xs
unfolding remove_at
length-remove_at i y [] h = ground arith
length-remove_at zero y (x ∷ xs) h = refl
length-remove_at (suc i) y (x ∷ xs) h = omega (arith, length-remove_at i y xs h)

-- An item inserted in range stands there, and without it the list is as before.
pub insert_at_lem :
    (i y : ℕ) (xs : List ℕ)
    → i ≤ length xs
    → (get_elem? (insert_at i y xs) i ≡ some y) × (remove_at i (insert_at i y xs) ≡ xs)
unfolding insert_at remove_at
insert_at_lem zero y xs h = (refl, refl)
insert_at_lem (suc i) y [] h = absurd (omega arith)
insert_at_lem (suc i) y (x ∷ xs) h =
    let rest = insert_at_lem i y xs (omega arith) in (rest.0, ap (λ (zs : List ℕ). x ∷ zs) rest.1)
