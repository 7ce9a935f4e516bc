-- ===== src/GrubManager/Edit.antt =====
-- crates/daemon/src/grub_manager.rs, step 6: what replacing the last assignment of a key, or adding
-- one, does to the values of all keys.
use boot_control.Prelude.{
  ℕ, zero, suc, Bool, true, false, none, some, List, [], ◌∷◌, ◌++◌, ◌≡◌, refl, arith, append_assoc,
}
use boot_control.Text.{Text, trim_start, starts_with, text_eq, split_once, is_whitespace}
use boot_control.Text.Equality.{text_eq_iff}
use boot_control.Text.Search.{starts_with_splits, starts_with-append, split_once-append}
use boot_control.Text.Trim.{trim_start_by-cons}
use boot_control.Grub.{LineKind, blank, comment, assignment, bash_construct, parse_line}
use boot_control.Grub.Lines.{IsShellName, IsShellName-ne-equals}
use boot_control.Grub.Assignments.{letter-not-whitespace, parse_line-splits}
use boot_control.Grub.Config.{assigned, effective, or_later}
use boot_control.GrubManager.{is_assignment_for_key, rposition, set_line}

trim_start-name : (k rest : Text) → IsShellName k → trim_start (k ++ rest) ≡ k ++ rest
trim_start-name [] rest h = elim h [ ]
trim_start-name (c ∷ k) rest h =
    trim_start_by-cons is_whitespace c (k ++ rest) (letter-not-whitespace c h.0).0

-- A line that assigns a key passes the test for that key.
assigns-is_assignment :
    (key : Text) (l v : Text) → parse_line l ≡ assignment key v → is_assignment_for_key l key ≡ true
unfolding is_assignment_for_key
assigns-is_assignment key l v e =
    let (raw, splits, name) = parse_line-splits l key v e in
    rw splits (
      rw (trim_start-name key (b'=' ∷ raw) name)
        (rw (← append_assoc key (b'=' ∷ []) raw) (starts_with-append (key ++ (b'=' ∷ [])) raw)))

is_assignment_key :
    (key j : Text) (l v : Text)
    → IsShellName key
    → is_assignment_for_key l key ≡ true
    → parse_line l ≡ assignment j v
    → key ≡ j
unfolding is_assignment_for_key
is_assignment_key key j l v key_name test e =
    let (raw, splits, name) = parse_line-splits l j v e in
    let starts : starts_with (key ++ (b'=' ∷ [])) l ≡ true =
      rw splits (rw (splits, trim_start-name j (b'=' ∷ raw) name) at test) in
    let (rest, again) = starts_with_splits (key ++ (b'=' ∷ [])) l starts in
    let by_key : split_once b'=' l ≡ some (key, rest) =
      rw again
        (rw append_assoc (split_once-append b'=' key rest (IsShellName-ne-equals key key_name))) in
    let by_j : split_once b'=' l ≡ some (j, raw) =
      rw splits (split_once-append b'=' j raw (IsShellName-ne-equals j name)) in
    cc

-- A line that fails the test for a key does not assign it.
pub not_assigned :
    (key l : Text) → is_assignment_for_key l key ≡ false → assigned key (parse_line l) ≡ none
not_assigned key l h = go (parse_line l) refl
  where
    go : (kind : LineKind) → parse_line l ≡ kind → assigned key kind ≡ none
    go blank e = refl
    go comment e = refl
    go (bash_construct o) e = refl
    go (assignment k v) e = ground (arith, text_eq_iff k key, assigns-is_assignment k l v e)

-- A line that passes it assigns no other key.
pub other_not_assigned :
    (key j l : Text)
    → IsShellName key
    → text_eq key j ≡ false
    → is_assignment_for_key l key ≡ true
    → assigned j (parse_line l) ≡ none
other_not_assigned key j l name ne h = go (parse_line l) refl
  where
    go : (kind : LineKind) → parse_line l ≡ kind → assigned j kind ≡ none
    go blank e = refl
    go comment e = refl
    go (bash_construct o) e = refl
    go (assignment k v) e =
        ground (arith, text_eq_iff k j, text_eq_iff key j, is_assignment_key key k l v name h e)

pub effective-concat :
    (j : Text) (ls : List Text) (l : Text)
    → effective j (ls ++ (l ∷ [])) ≡ or_later (assigned j (parse_line l)) (effective j ls)
unfolding effective
effective-concat j [] l = ground arith
effective-concat j (k ∷ ls) l = ground (arith, effective-concat j ls l)

module _ (key : Text) (test : Text → Bool)
    (untested : (l : Text) → test l ≡ false → assigned key (parse_line l) ≡ none) where
  -- No line passes the test: the key has no value.
  pub effective-none : (ls : List Text) → rposition test ls ≡ none → effective key ls ≡ none
  unfolding effective rposition
  effective-none [] h = refl
  effective-none (l ∷ ls) h = ground (arith, effective-none ls, untested l)

  pub effective-set_line :
      (ls : List Text) (i : ℕ) (new v : Text)
      → rposition test ls ≡ some i
      → assigned key (parse_line new) ≡ some v
      → effective key (set_line ls i new) ≡ some v
  unfolding effective rposition set_line
  effective-set_line [] i new v h a = cc
  effective-set_line (l ∷ ls) zero new v h a = ground (arith, effective-none ls)
  effective-set_line (l ∷ ls) (suc i) new v h a = ground (arith, effective-set_line ls i new v)

module _ (j : Text) (test : Text → Bool)
    (tested : (l : Text) → test l ≡ true → assigned j (parse_line l) ≡ none) where
  -- Replacing a line that does not assign `j` by another such line keeps its value.
  pub effective-set_line_other :
      (ls : List Text) (i : ℕ) (new : Text)
      → rposition test ls ≡ some i
      → assigned j (parse_line new) ≡ none
      → effective j (set_line ls i new) ≡ effective j ls
  unfolding effective rposition set_line
  effective-set_line_other [] i new h a = cc
  effective-set_line_other (l ∷ ls) zero new h a = ground (arith, tested l)
  effective-set_line_other (l ∷ ls) (suc i) new h a =
      ground (arith, effective-set_line_other ls i new)
