-- ===== src/GrubManager/Lockout.antt =====
-- crates/daemon/src/grub_manager.rs with crates/core/src/grub.rs: which values leave a file that
-- the parser still accepts. `set_grub_value` does not ask for one.
use boot_control.Prelude.{
  ℕ, zero, suc, Option, none, some, List, [], ◌∷◌, ◌++◌, ◌≡◌, ◌≢◌, ◌↔◌, refl, ◌∙◌, arith, All, map,
  Bool, true, false, Bool-cases, inl, inr, ◌||◌,
}
use boot_control.Text.{Text, codes, lines, last?, contains, is_empty}
use boot_control.Text.Lines.{NoNewline, chomp, lines-join, lines-NoNewline}
use boot_control.Error.{ok}
use boot_control.Grub.{GrubConfig, parse_grub_config}
use boot_control.Grub.Lines.{IsShellName, IsHarmless, IsSafeLine, assign}
use boot_control.Grub.Assignments.{assignment-IsHarmless}
use boot_control.Grub.Safety.{parse_grub_config_accepts}
use boot_control.GrubManager.{
  apply_change, apply_changes, new_content, build_assignment_line, set_line, place_line, rposition,
  last_of,
}
use boot_control.GrubManager.Line.{quoted, quoted-IsHarmless_iff}
use boot_control.GrubManager.GoodLine.{built-NoNewline, built-kept, place_line-All}
use boot_control.GrubManager.Change.{apply_change-ne}
use boot_control.GrubManager.ReadBack.{IsUnix, reads_config}

-- A line that is written and read back as it stands.
abbrev IsWhole : Text → Type 0
IsWhole l = NoNewline l × (chomp l ≡ l)

whole-lines : (ls : List Text) → All IsWhole ls → All NoNewline ls × (map chomp ls ≡ ls)
whole-lines [] h = (tt, refl)
whole-lines (l ∷ ls) h =
    ((h.0.0, (whole-lines ls h.1).0), ground (arith, (whole-lines ls h.1).1, h.0.1))

lines-new_content : (ls : List Text) → ls ≢ [] → All IsWhole ls → lines (new_content ls) ≡ ls
unfolding new_content
lines-new_content [] ne h = absurd (ne refl)
lines-new_content (l ∷ ls) ne h =
    let (one, same) = whole-lines (l ∷ ls) h in lines-join l ls one ∙ same

content-IsWhole :
    (ls : List Text) → All NoNewline ls → All (λ (l : Text). chomp l ≡ l) ls → All IsWhole ls
content-IsWhole [] n k = tt
content-IsWhole (l ∷ ls) n k = ((n.0, k.0), content-IsWhole ls n.1 k.1)

last-All : (P : Text → Type 0) (ls : List Text) (new : Text) → All P (ls ++ (new ∷ [])) → P new
last-All P [] new h = h.0
last-All P (l ∷ ls) new h = last-All P ls new h.1

later_index :
    (test : Text → Bool) (l : Text) (ls : List Text) (i : ℕ)
    → rposition test (l ∷ ls) ≡ some (suc i)
    → rposition test ls ≡ some i
unfolding rposition
later_index test l ls i e = go (rposition test ls) (test l) e
  where
    go : (o : Option ℕ) (b : Bool) → last_of o b ≡ some (suc i) → o ≡ some i
    go none true e = ground arith
    go none false e = ground arith
    go (some j) b e = ground arith

set_line-new :
    (P : Text → Type 0) (test : Text → Bool) (ls : List Text) (i : ℕ) (new : Text)
    → rposition test ls ≡ some i
    → All P (set_line ls i new)
    → P new
unfolding rposition set_line
set_line-new P test [] i new e h = cc
set_line-new P test (l ∷ ls) zero new e h = h.0
set_line-new P test (l ∷ ls) (suc i) new e h =
    set_line-new P test ls i new (later_index test l ls i e) h.1

place_line-new :
    (P : Text → Type 0) (test : Text → Bool) (ls : List Text) (new : Text) (o : Option ℕ)
    → rposition test ls ≡ o
    → All P (place_line ls new o)
    → P new
unfolding apply_change
place_line-new P test ls new none e h = last-All P ls new h
place_line-new P test ls new (some i) e h = set_line-new P test ls i new e h

module _ (key value : Text) (name : IsShellName key) (other : key ≢ codes "GRUB_DISTRIBUTOR") where
  built-IsHarmless : IsSafeLine (build_assignment_line key value) → IsHarmless value
  unfolding build_assignment_line
  built-IsHarmless safe =
      elim (Bool-cases
        (contains (b' ' ∷ []) value || contains (b'\t' ∷ []) value || is_empty value)) [
          | inl spaces ↦
              (quoted-IsHarmless_iff value).0
                (assignment-IsHarmless key (quoted value) name (λ u. other u.0) (rw spaces at safe))
          | inr bare ↦ assignment-IsHarmless key value name (λ u. other u.0) (rw bare at safe)
        ]

  harmless-built : IsHarmless value → IsSafeLine (build_assignment_line key value)
  unfolding build_assignment_line
  harmless-built harmless =
      elim (Bool-cases
        (contains (b' ' ∷ []) value || contains (b'\t' ∷ []) value || is_empty value)) [
          | inl spaces ↦
              rw spaces (
                assign key (quoted value) refl name
                  (inl ((quoted-IsHarmless_iff value).1 harmless)))
          | inr bare ↦ rw bare (assign key value refl name (inl harmless))
        ]

  changed-safe :
      (ls : List Text)
      → All IsSafeLine ls
      → (All IsSafeLine (apply_change ls (key, value)) ↔ IsHarmless value)
  unfolding apply_change
  changed-safe ls safe = (
    λ h. built-IsHarmless (place_line-new IsSafeLine _ ls _ _ refl h),
    λ h. place_line-All IsSafeLine ls _ _ safe (harmless-built h),
  )

  module _ (one_line : NoNewline value) (no_return : last? value ≢ some b'\r') where
    changed-lines :
        (ls : List Text)
        → All IsWhole ls
        → lines (new_content (apply_change ls (key, value))) ≡ apply_change ls (key, value)
    changed-lines ls whole = lines-new_content _ (apply_change-ne ls (key, value)) (
        unfold apply_change in
        place_line-All IsWhole ls _ _ whole
          (built-NoNewline key value name one_line, built-kept key value no_return))

    changed-accepted :
        (ls : List Text)
        → All IsSafeLine ls
        → All IsWhole ls
        → ((config' : GrubConfig) × (parse_grub_config (new_content (apply_change ls (key, value)))
              ≡ ok config'))
          ↔ IsHarmless value
    changed-accepted ls safe whole =
        let accepts = parse_grub_config_accepts (new_content (apply_change ls (key, value))) in
        let e = changed-lines ls whole in
        (
          λ p. (changed-safe ls safe).0 (rw e at (accepts.0 p)),
          λ h. accepts.1 (rw e ((changed-safe ls safe).1 h)),
        )

    -- Where the parser accepts a file none of whose lines ends in a carriage return, and a key other
    -- than GRUB_DISTRIBUTOR that is a shell name is changed to a value of one line that does not end
    -- in a carriage return, the parser accepts the file that is written exactly when no trigger
    -- occurs in the value.
    pub changed_file_accepted_iff :
        (content : Text) (config : GrubConfig)
        → parse_grub_config content ≡ ok config
        → IsUnix content
        → ((config' : GrubConfig) × (parse_grub_config
                (new_content (apply_changes config.lines ((key, value) ∷ [])))
              ≡ ok config'))
          ↔ IsHarmless value
    unfolding apply_changes
    changed_file_accepted_iff content config parsed unix =
        rw ((reads_config content config parsed).0) (
          changed-accepted (lines content) ((parse_grub_config_accepts content).0 (config, parsed))
            (content-IsWhole (lines content) (lines-NoNewline content) unix))
