-- ===== src/GrubManager/Change.antt =====
-- crates/daemon/src/grub_manager.rs, step 6: a change as a whole, and a list of changes.
use boot_control.Prelude.{
  ℕ, zero, suc, Bool, false, Option, none, some, List, [], ◌∷◌, ◌≡◌, ◌≢◌, refl, arith, All,
  if◌then◌else◌, Bool-cases, Option-cases, inl, inr,
}
use boot_control.Text.{Text, text_eq}
use boot_control.Text.Equality.{text_eq_iff, text_eq_refl}
use boot_control.Grub.{parse_line}
use boot_control.Grub.Lines.{IsShellName}
use boot_control.Grub.Config.{assigned, effective, or_later}
use boot_control.GrubManager.Line.{IsPlainValue, parse_line-build_assignment_line}
use boot_control.GrubManager.Edit.{
  not_assigned, other_not_assigned, effective-concat, effective-set_line, effective-set_line_other,
}
use boot_control.GrubManager.{
  is_assignment_for_key, rposition, set_line, place_line, apply_change, apply_changes,
  build_assignment_line,
}
use boot_control.GrubManager.GoodLine.{IsGoodLine, built-IsGoodLine, place_line-All}

module _ (key value : Text) (name : IsShellName key) (plain : IsPlainValue value) where
  abbrev new_line : Text
  new_line = build_assignment_line key value

  abbrev test : Text → Bool
  test l = is_assignment_for_key l key

  new_line-assigned :
      (j : Text) → assigned j (parse_line new_line) ≡ (if text_eq key j then some value else none)
  new_line-assigned j = rw (parse_line-build_assignment_line key value name plain) refl

  place_line_self :
      (ls : List Text) (o : Option ℕ)
      → rposition test ls ≡ o
      → effective key (place_line ls new_line o) ≡ some value
  unfolding apply_change
  place_line_self ls none e =
      ground (arith, effective-concat key ls new_line, new_line-assigned key, text_eq_refl key)
  place_line_self ls (some i) e =
      effective-set_line key test (not_assigned key) ls i new_line value e
        (ground (arith, new_line-assigned key, text_eq_refl key))

  place_line_other :
      (j : Text) (ls : List Text) (o : Option ℕ)
      → text_eq key j ≡ false
      → rposition test ls ≡ o
      → effective j (place_line ls new_line o) ≡ effective j ls
  unfolding apply_change
  place_line_other j ls none ne e =
      ground (arith, effective-concat j ls new_line, new_line-assigned j)
  place_line_other j ls (some i) ne e =
      effective-set_line_other j test (λ l. other_not_assigned key j l name ne) ls i new_line e
        (ground (arith, new_line-assigned j))

  -- A change gives its key the new value and leaves the value of every other key.
  pub effective-apply_change :
      (j : Text) (ls : List Text)
      → effective j (apply_change ls (key, value))
        ≡ (if text_eq key j then some value else effective j ls)
  unfolding apply_change
  effective-apply_change j ls = elim (Bool-cases (text_eq key j)) [
    | inl same ↦ rw same (rw (← (text_eq_iff key j).0 same) (place_line_self ls _ refl))
    | inr ne ↦ rw ne (place_line_other j ls _ ne refl)
  ]

-- A change of a key to a plain value.
abbrev pub IsPlainChange : Text × Text → Type 0
IsPlainChange c = IsShellName c.0 × IsPlainValue c.1

pub apply_change-good :
    (ls : List Text) (c : Text × Text)
    → All IsGoodLine ls
    → IsPlainChange c
    → All IsGoodLine (apply_change ls c)
unfolding apply_change
apply_change-good ls (key, value) h (name, plain) =
    place_line-All IsGoodLine ls _ _ h (built-IsGoodLine key value name plain)

pub apply_changes-good :
    (ls : List Text) (cs : List (Text × Text))
    → All IsGoodLine ls
    → All IsPlainChange cs
    → All IsGoodLine (apply_changes ls cs)
unfolding apply_changes
apply_changes-good ls [] h p = h
apply_changes-good ls (c ∷ cs) h p =
    apply_changes-good (apply_change ls c) cs (apply_change-good ls c h p.0) p.1

-- The value that the last change of a key gives it.
abbrev pub value_of : Text → List (Text × Text) → Option Text
value_of j [] = none
value_of j (c ∷ cs) = or_later (value_of j cs) (if text_eq c.0 j then some c.1 else none)

pub effective-apply_changes :
    (j : Text) (ls : List Text) (cs : List (Text × Text))
    → All IsPlainChange cs
    → effective j (apply_changes ls cs) ≡ or_later (value_of j cs) (effective j ls)
unfolding apply_changes
effective-apply_changes j ls [] p = refl
effective-apply_changes j ls ((k, v) ∷ cs) p = ground (
  arith,
  effective-apply_changes j (apply_change ls (k, v)) cs p.1,
  effective-apply_change k v p.0.0 p.0.1 j ls,
)

set_line-ne : (l : Text) (ls : List Text) (i : ℕ) (new : Text) → set_line (l ∷ ls) i new ≢ []
unfolding set_line
set_line-ne l ls zero new e = cc
set_line-ne l ls (suc i) new e = cc

place_line-ne :
    (ls : List Text) (test : Text → Bool) (new : Text) → place_line ls new (rposition test ls) ≢ []
unfolding apply_change rposition
place_line-ne [] test new e = cc
place_line-ne (l ∷ ls) test new e = elim (Option-cases (rposition test (l ∷ ls))) [
  | inl nothing ↦ cc (rw nothing at e)
  | inr (i, found) ↦ set_line-ne l ls i new (rw found at e)
]

pub apply_changes-ne :
    (ls : List Text) (cs : List (Text × Text)) → ls ≢ [] → apply_changes ls cs ≢ []
unfolding apply_changes apply_change
apply_changes-ne ls [] h = h
apply_changes-ne ls ((k, v) ∷ cs) h =
    apply_changes-ne (apply_change ls (k, v)) cs (place_line-ne ls _ _)

pub apply_change-ne : (ls : List Text) (c : Text × Text) → apply_change ls c ≢ []
unfolding apply_change
apply_change-ne ls (k, v) = place_line-ne ls _ _
