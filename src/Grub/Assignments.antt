-- ===== src/Grub/Assignments.antt =====
-- crates/core/src/grub.rs, one line: how an assignment is read, and what is known of a line that is
-- read as one.
use boot_control.Prelude.{
  ℕ, false, Option, none, some, [], ◌∷◌, ◌++◌, ◌≡◌, ◌≢◌, inl, inr, refl, arith, Bool-cases, ◌&&◌,
}
use boot_control.Text.{
  Text, codes, trim, trim_start, starts_with, text_eq, is_empty, split_once, is_whitespace,
  trim_start_by, trim_end_by,
}
use boot_control.Text.Search.{split_once-IsFirstSplit, split_once-append}
use boot_control.Grub.{
  ubuntu_os_release_distributor, assignment, parse_split, accept_value, is_valid_key,
  not_assignment, parse_line, extract_value,
}
use boot_control.Grub.Lines.{
  IsShellName, IsLetter, IsHarmless, IsUbuntuDistributor, is_valid_key_iff, IsShellName-ne-equals,
  parse_split-harmless, IsSafeLine, IsSafeLine-parse_line, parse_split-IsHarmless,
}

pub letter-not-whitespace : (c : ℕ) → IsLetter c → (is_whitespace c ≡ false) × (c ≢ b'#')
unfolding is_whitespace
letter-not-whitespace c h = (ground arith, ground arith)

begins_with_letter :
    (c : ℕ) (cs : Text)
    → IsLetter c
    → (is_empty (trim (c ∷ cs)) ≡ false) × (starts_with (b'#' ∷ []) (trim_start (c ∷ cs)) ≡ false)
unfolding trim_start_by trim_end_by starts_with
begins_with_letter c cs h =
    let (dark, no_hash) = letter-not-whitespace c h in
    (rw dark (rw dark refl), rw dark (ground arith))

-- How a line that starts with a shell name and `=` is classified.
pub parse_line-assignment :
    (k v : Text)
    → IsShellName k
    → IsHarmless v
    → ¬ IsUbuntuDistributor k v
    → parse_line (k ++ (b'=' ∷ v)) ≡ assignment k (extract_value v)
unfolding parse_line
parse_line-assignment [] v name harmless other = elim name [ ]
parse_line-assignment (c ∷ cs) v name harmless other =
    let (filled, no_hash) = begins_with_letter c (cs ++ (b'=' ∷ v)) name.0 in
    rw (filled, no_hash)
      (rw (split_once-append b'=' (c ∷ cs) v (IsShellName-ne-equals (c ∷ cs) name))
        (parse_split-harmless _ (c ∷ cs) v name harmless other))

accept_value-key :
    (k v : Text) (o : Option Text) (key value : Text)
    → accept_value k v o ≡ assignment key value
    → k ≡ key
unfolding parse_split
accept_value-key k v (some o) key value e = cc
accept_value-key k v none key value e = cc

parse_split-key :
    (l k v key value : Text)
    → parse_split l (some (k, v)) ≡ assignment key value
    → (k ≡ key) × IsShellName k
unfolding parse_split not_assignment
parse_split-key l k v key value e = elim (Bool-cases (is_valid_key k)) [
  | inr invalid ↦ absurd (cc (rw invalid at e))
  | inl valid ↦
      let e' = rw valid at e in
      (
        (elim (Bool-cases
            (text_eq k (codes "GRUB_DISTRIBUTOR") && text_eq v ubuntu_os_release_distributor)) [
              | inl ubuntu ↦ cc (rw ubuntu at e')
              | inr other ↦ accept_value-key k v _ key value (rw other at e')
            ]),
        (is_valid_key_iff k).0 valid,
      )
]

split-splits :
    (l : Text) (o : Option (Text × Text)) (key value : Text)
    → split_once b'=' l ≡ o
    → parse_split l o ≡ assignment key value
    → (raw : Text) × (l ≡ key ++ (b'=' ∷ raw)) × IsShellName key
unfolding parse_split not_assignment
split-splits l none key value s e = absurd (cc e)
split-splits l (some (k, v)) key value s e =
    let (same, name) = parse_split-key l k v key value e in
    (v, rw (← same) ((split_once-IsFirstSplit b'=' l k v s).splits), rw (← same) name)

-- A line that is read as an assignment starts with its key and `=`.
pub parse_line-splits :
    (l key value : Text)
    → parse_line l ≡ assignment key value
    → (raw : Text) × (l ≡ key ++ (b'=' ∷ raw)) × IsShellName key
unfolding parse_line
parse_line-splits l key value e = elim (Bool-cases (is_empty (trim l))) [
  | inl nothing ↦ absurd (cc (rw nothing at e))
  | inr more ↦ elim (Bool-cases (starts_with (b'#' ∷ []) (trim_start l))) [
    | inl h ↦ absurd (cc (rw (more, h) at e))
    | inr no_hash ↦ split-splits l _ key value refl (rw (more, no_hash) at e)
  ]
]

-- A line that starts with a shell name and `=` is accepted only with a harmless value, but for
-- Ubuntu's own line.
pub assignment-IsHarmless :
    (k v : Text)
    → IsShellName k
    → ¬ IsUbuntuDistributor k v
    → IsSafeLine (k ++ (b'=' ∷ v))
    → IsHarmless v
unfolding parse_line
assignment-IsHarmless [] v name other safe = elim name [ ]
assignment-IsHarmless (c ∷ cs) v name other safe =
    let (filled, no_hash) = begins_with_letter c (cs ++ (b'=' ∷ v)) name.0 in
    let accepted = rw (filled, no_hash) at (IsSafeLine-parse_line _ safe) in
    parse_split-IsHarmless _ (c ∷ cs) v name other
      (rw (split_once-append b'=' (c ∷ cs) v (IsShellName-ne-equals (c ∷ cs) name)) at accepted)
