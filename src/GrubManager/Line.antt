-- ===== src/GrubManager/Line.antt =====
-- crates/daemon/src/grub_manager.rs: `build_assignment_line` writes a line that the parser of
-- crates/core/src/grub.rs reads back.
use boot_control.Prelude.{
  ℕ, true, false, some, List, [], ◌∷◌, ◌++◌, ◌≡◌, ◌≢◌, refl, sym, ap, ◌∙◌, arith, All, Bool-cases,
  inl, inr, ◌||◌, ◌↔◌,
}
use boot_control.Text.{Text, codes, starts_with, contains, last?, is_empty}
use boot_control.Text.Lines.{NoNewline}
use boot_control.Text.Search.{Occurs, contains-Occurs, Occurs-contains, contains_cons}
use boot_control.Text.Trim.{last?-concat, last?-All, trim_end_matches-last}
use boot_control.Grub.{
  bash_triggers, ubuntu_os_release_distributor, assignment, parse_line, extract_value, unquote,
  drop_last,
}
use boot_control.Grub.Lines.{IsShellName, IsHarmless, IsUbuntuDistributor}
use boot_control.Grub.Assignments.{parse_line-assignment}
use boot_control.GrubManager.{build_assignment_line}

abbrev pub quoted : Text → Text
quoted s = b'"' ∷ (s ++ (b'"' ∷ []))

-- A value that survives being written and read: nothing executable, one line, and no quotes or
-- carriage return that reading would strip.
pub record IsPlainValue (value : Text) : Type 0 where
  pub harmless : IsHarmless value
  pub one_line : NoNewline value
  pub no_return : last? value ≢ some b'\r'
  pub not_quoted : (inner : Text) → value ≢ quoted inner

drop_last-concat : (s : Text) (c : ℕ) → drop_last (s ++ (c ∷ [])) ≡ s
unfolding drop_last
drop_last-concat [] c = refl
drop_last-concat (d ∷ []) c = refl
drop_last-concat (d ∷ e ∷ s) c = ap (◌∷◌ d) (drop_last-concat (e ∷ s) c)

drop_last-last : (s : Text) (c : ℕ) → last? s ≡ some c → s ≡ drop_last s ++ (c ∷ [])
unfolding drop_last
drop_last-last [] c h = cc
drop_last-last (d ∷ []) c h = ground arith
drop_last-last (d ∷ e ∷ s) c h = ap (◌∷◌ d) (drop_last-last (e ∷ s) c h)

unquote-quoted : (s : Text) → unquote (quoted s) ≡ s
unfolding unquote
unquote-quoted [] = unfold drop_last in refl
unquote-quoted (c ∷ s) = ground (arith, last?-concat (c ∷ s) b'"', drop_last-concat (c ∷ s) b'"')

unquote-plain : (s : Text) → ((inner : Text) → s ≢ quoted inner) → unquote s ≡ s
unfolding unquote
unquote-plain [] h = refl
unquote-plain (c ∷ []) h = refl
unquote-plain (c ∷ d ∷ cs) h = ground (arith, h (drop_last (d ∷ cs)), drop_last-last (d ∷ cs) b'"')

extract_value-unquote :
    (s : Text) → last? s ≢ some b'\n' → last? s ≢ some b'\r' → extract_value s ≡ unquote s
unfolding extract_value
extract_value-unquote s n r =
    rw (trim_end_matches-last b'\n' s n) (rw (trim_end_matches-last b'\r' s r) refl)

last?-quoted : (s : Text) → last? (quoted s) ≡ some b'"'
last?-quoted s = last?-concat (b'"' ∷ s) b'"'

pub extract_value-quoted : (s : Text) → extract_value (quoted s) ≡ s
extract_value-quoted s =
    extract_value-unquote (quoted s) (λ e. ground (arith, last?-quoted s))
      (λ e. ground (arith, last?-quoted s))
    ∙ unquote-quoted s

pub extract_value-plain : (s : Text) → IsPlainValue s → extract_value s ≡ s
extract_value-plain s h =
    extract_value-unquote s (last?-All b'\n' s h.one_line) h.no_return
    ∙ unquote-plain s h.not_quoted

-- A needle that quotes cannot be part of.
record IsNeedle (n : Text) : Type 0 where
  filled : n ≢ []
  no_quote : All (λ (c : ℕ). c ≢ b'"') n

starts_with-concat :
    (n s : Text) → All (λ (c : ℕ). c ≢ b'"') n → starts_with n (s ++ (b'"' ∷ [])) ≡ starts_with n s
unfolding starts_with
starts_with-concat [] s h = refl
starts_with-concat (c ∷ n) [] h = ground arith
starts_with-concat (c ∷ n) (d ∷ s) h = ground (arith, starts_with-concat n s h.1)

starts_with-nil : (n : Text) → IsNeedle n → starts_with n [] ≡ false
unfolding starts_with
starts_with-nil [] h = absurd (h.filled refl)
starts_with-nil (c ∷ n) h = refl

starts_with-quote : (n s : Text) → IsNeedle n → starts_with n (b'"' ∷ s) ≡ false
unfolding starts_with
starts_with-quote [] s h = absurd (h.filled refl)
starts_with-quote (c ∷ n) s h = ground (arith, h.no_quote)

contains-concat : (n s : Text) → IsNeedle n → contains n (s ++ (b'"' ∷ [])) ≡ contains n s
unfolding contains
contains-concat n [] h = ground (arith, starts_with-quote n [] h, starts_with-nil n h)
contains-concat n (c ∷ s) h =
    ground (arith, starts_with-concat n (c ∷ s) h.no_quote, contains-concat n s h)

contains-quoted : (n s : Text) → IsNeedle n → contains n (quoted s) ≡ contains n s
contains-quoted n s h = ground (
  arith,
  contains_cons n b'"' (s ++ (b'"' ∷ [])),
  starts_with-quote n (s ++ (b'"' ∷ [])) h,
  contains-concat n s h,
)

quoted-Occurs :
    (ts : List (Text × Text)) (s : Text)
    → All (λ (t : Text × Text). IsNeedle t.0) ts
    → All (λ (t : Text × Text). ¬ Occurs t.0 s) ts
    → All (λ (t : Text × Text). ¬ Occurs t.0 (quoted s)) ts
quoted-Occurs [] s n h = tt
quoted-Occurs (t ∷ ts) s n h = (
  λ o. h.0 (contains-Occurs t.0 s (sym (contains-quoted t.0 s n.0) ∙ Occurs-contains o)),
  quoted-Occurs ts s n.1 h.1,
)

triggers_are_needles : All (λ (t : Text × Text). IsNeedle t.0) bash_triggers
unfolding codes
triggers_are_needles = ground arith

quoted-IsHarmless : (s : Text) → IsHarmless s → IsHarmless (quoted s)
quoted-IsHarmless s h = quoted-Occurs bash_triggers s triggers_are_needles h

quoted-Occurs_back :
    (ts : List (Text × Text)) (s : Text)
    → All (λ (t : Text × Text). IsNeedle t.0) ts
    → All (λ (t : Text × Text). ¬ Occurs t.0 (quoted s)) ts
    → All (λ (t : Text × Text). ¬ Occurs t.0 s) ts
quoted-Occurs_back [] s n h = tt
quoted-Occurs_back (t ∷ ts) s n h = (
  λ o. h.0 (contains-Occurs t.0 (quoted s) (contains-quoted t.0 s n.0 ∙ Occurs-contains o)),
  quoted-Occurs_back ts s n.1 h.1,
)

-- A value is as harmless in quotes as without.
pub quoted-IsHarmless_iff : (s : Text) → IsHarmless (quoted s) ↔ IsHarmless s
quoted-IsHarmless_iff s =
    (quoted-Occurs_back bash_triggers s triggers_are_needles, quoted-IsHarmless s)

ubuntu_contains : contains (codes "`") ubuntu_os_release_distributor ≡ true
unfolding codes contains starts_with
ubuntu_contains = refl

pub IsHarmless-not_ubuntu : (k v : Text) → IsHarmless v → ¬ IsUbuntuDistributor k v
IsHarmless-not_ubuntu k v h u =
    h.1.0 (rw (u.1) (contains-Occurs (codes "`") ubuntu_os_release_distributor ubuntu_contains))

-- The line that is written for a shell name and a plain value is read back as the same key and
-- value.
pub parse_line-build_assignment_line :
    (key value : Text)
    → IsShellName key
    → IsPlainValue value
    → parse_line (build_assignment_line key value) ≡ assignment key value
unfolding build_assignment_line
parse_line-build_assignment_line key value name plain =
    elim (Bool-cases
      (contains (b' ' ∷ []) value || contains (b'\t' ∷ []) value || is_empty value)) [
        | inl spaces ↦ rw spaces (
            parse_line-assignment key (quoted value) name (quoted-IsHarmless value plain.harmless)
              (IsHarmless-not_ubuntu key (quoted value) (quoted-IsHarmless value plain.harmless))
            ∙ ap (assignment key) (extract_value-quoted value))
        | inr bare ↦ rw bare (
            parse_line-assignment key value name plain.harmless
              (IsHarmless-not_ubuntu key value plain.harmless)
            ∙ ap (assignment key) (extract_value-plain value plain))
      ]
