-- ===== src/Grub/Lines.antt =====
-- crates/core/src/grub.rs, one line: which lines `parse_line` accepts, said without its tests.
use boot_control.Prelude.{
  ℕ, true, Option, none, some, List, [], ◌∷◌, ◌++◌, ◌≡◌, ◌≢◌, ◌⊎◌, inl, inr, refl, ◌≤◌, ◌↔◌, arith,
  All, Bool-cases, Option-cases, ◌==◌, ◌||◌, ◌&&◌,
}
use boot_control.Text.{
  Text, codes, trim, trim_start, starts_with, contains, text_eq, is_empty, split_once,
}
use boot_control.Text.Equality.{text_eq_iff}
use boot_control.Text.Search.{
  Occurs, contains-Occurs, contains-false, starts_with_splits, starts_with-append,
  split_once-IsFirstSplit, split_once-append,
}
use boot_control.Grub.{
  bash_triggers, ubuntu_os_release_distributor, first_trigger, LineKind, blank, comment, assignment,
  bash_construct, parse_split, accept_value, is_valid_key, all_chars, detect_dangerous_value,
  not_assignment, parse_line, extract_value, is_ascii_alphanumeric,
}

-- A character that may begin a shell name.
abbrev pub IsLetter : ℕ → Type 0
IsLetter c = ((b'a' ≤ c) × (c ≤ b'z')) ⊎ (((b'A' ≤ c) × (c ≤ b'Z')) ⊎ (c ≡ b'_'))

abbrev pub IsNameChar : ℕ → Type 0
IsNameChar c = IsLetter c ⊎ ((b'0' ≤ c) × (c ≤ b'9'))

-- `[A-Za-z_][A-Za-z0-9_]*`
abbrev pub IsShellName : Text → Type 0
IsShellName [] = ⊥
IsShellName (c ∷ cs) = IsLetter c × All IsNameChar cs

-- No trigger occurs in the value.
abbrev pub IsHarmless : Text → Type 0
IsHarmless value = All (λ (t : Text × Text). ¬ Occurs t.0 value) bash_triggers

abbrev pub IsUbuntuDistributor : Text → Text → Type 0
IsUbuntuDistributor key value =
    (key ≡ codes "GRUB_DISTRIBUTOR") × (value ≡ ubuntu_os_release_distributor)

-- A line that is blank, a comment, or an assignment whose value has no trigger in it. It may still
-- be Bash that executes, as in `X=1; reboot`.
pub data IsSafeLine (l : Text) : Type 0 where
  white : trim l ≡ [] → IsSafeLine l
  hash : (rest : Text) → trim_start l ≡ b'#' ∷ rest → IsSafeLine l
  assign :
      (key value : Text)
      → l ≡ key ++ (b'=' ∷ value)
      → IsShellName key
      → IsHarmless value ⊎ IsUbuntuDistributor key value
      → IsSafeLine l

abbrev pub IsAccepted : LineKind → Type 0
IsAccepted blank = Unit
IsAccepted comment = Unit
IsAccepted (assignment _ _) = Unit
IsAccepted (bash_construct _) = ⊥

all_chars-All :
    (cs : Text)
    → (all_chars (λ c. is_ascii_alphanumeric c || c == b'_') cs ≡ true) ↔ All IsNameChar cs
unfolding all_chars
all_chars-All [] = (λ _. tt, λ _. refl)
all_chars-All (c ∷ cs) =
    (λ h. ground (arith, all_chars-All cs), λ h. ground (arith, all_chars-All cs))

pub is_valid_key_iff : (key : Text) → (is_valid_key key ≡ true) ↔ IsShellName key
unfolding is_valid_key
is_valid_key_iff [] = (λ h. cc, λ h. elim h [ ])
is_valid_key_iff (c ∷ cs) =
    (λ h. ground (arith, all_chars-All cs), λ h. ground (arith, all_chars-All cs))

first_trigger-none :
    (ts : List (Text × Text)) (v : Text)
    → first_trigger ts v ≡ none
    → All (λ (t : Text × Text). ¬ Occurs t.0 v) ts
unfolding first_trigger
first_trigger-none [] v h = tt
first_trigger-none ((needle, desc) ∷ ts) v h = elim (Bool-cases (contains needle v)) [
  | inl found ↦ absurd (ground arith)
  | inr absent ↦ (contains-false absent, first_trigger-none ts v (ground arith))
]

first_trigger-harmless :
    (ts : List (Text × Text)) (v : Text)
    → All (λ (t : Text × Text). ¬ Occurs t.0 v) ts
    → first_trigger ts v ≡ none
unfolding first_trigger
first_trigger-harmless [] v h = refl
first_trigger-harmless ((needle, desc) ∷ ts) v h = elim (Bool-cases (contains needle v)) [
  | inl found ↦ absurd (h.0 (contains-Occurs needle v found))
  | inr absent ↦ ground (arith, first_trigger-harmless ts v h.1)
]

pub detect_dangerous_value_iff : (v : Text) → (detect_dangerous_value v ≡ none) ↔ IsHarmless v
unfolding detect_dangerous_value
detect_dangerous_value_iff v =
    (first_trigger-none bash_triggers v, first_trigger-harmless bash_triggers v)

is_ubuntu_iff :
    (k v : Text)
    → ((text_eq k (codes "GRUB_DISTRIBUTOR") && text_eq v ubuntu_os_release_distributor) ≡ true)
      ↔ IsUbuntuDistributor k v
is_ubuntu_iff k v = (
  λ h. ground (
    arith,
    text_eq_iff k (codes "GRUB_DISTRIBUTOR"),
    text_eq_iff v ubuntu_os_release_distributor,
  ),
  λ h. ground (
    arith,
    text_eq_iff k (codes "GRUB_DISTRIBUTOR"),
    text_eq_iff v ubuntu_os_release_distributor,
  ),
)

accept_value-IsHarmless :
    (k v : Text) → IsAccepted (accept_value k v (detect_dangerous_value v)) → IsHarmless v
unfolding parse_split
accept_value-IsHarmless k v a = elim (Option-cases (detect_dangerous_value v)) [
  | inl nothing ↦ (detect_dangerous_value_iff v).0 nothing
  | inr (offender, found) ↦ absurd (rw found at a)
]

parse_split-IsSafeLine :
    (l : Text) (o : Option (Text × Text))
    → split_once b'=' l ≡ o
    → IsAccepted (parse_split l o)
    → IsSafeLine l
unfolding parse_split not_assignment
parse_split-IsSafeLine l none e a = absurd a
parse_split-IsSafeLine l (some (k, v)) e a = elim (Bool-cases (is_valid_key k)) [
  | inr invalid ↦ absurd (rw invalid at a)
  | inl valid ↦
      let a' = rw valid at a in
      let name = (is_valid_key_iff k).0 valid in
      let splits = (split_once-IsFirstSplit b'=' l k v e).splits in
      elim (Bool-cases
        (text_eq k (codes "GRUB_DISTRIBUTOR") && text_eq v ubuntu_os_release_distributor)) [
          | inl ubuntu ↦ assign k v splits name (inr ((is_ubuntu_iff k v).0 ubuntu))
          | inr other ↦ assign k v splits name (inl (accept_value-IsHarmless k v (rw other at a')))
        ]
]

-- What is accepted under a shell name is harmless, or Ubuntu's own line.
pub parse_split-IsHarmless :
    (l k v : Text)
    → IsShellName k
    → ¬ IsUbuntuDistributor k v
    → IsAccepted (parse_split l (some (k, v)))
    → IsHarmless v
unfolding parse_split not_assignment
parse_split-IsHarmless l k v name other a =
    let named = rw ((is_valid_key_iff k).1 name) at a in
    elim (Bool-cases
      (text_eq k (codes "GRUB_DISTRIBUTOR") && text_eq v ubuntu_os_release_distributor)) [
        | inl ubuntu ↦ absurd (other ((is_ubuntu_iff k v).0 ubuntu))
        | inr no_ubuntu ↦ accept_value-IsHarmless k v (rw no_ubuntu at named)
      ]

-- What `parse_line` accepts is safe.
pub parse_line-IsSafeLine : (l : Text) → IsAccepted (parse_line l) → IsSafeLine l
unfolding parse_line
parse_line-IsSafeLine l a = elim (Bool-cases (is_empty (trim l))) [
  | inl e ↦ white (ground arith)
  | inr more ↦ elim (Bool-cases (starts_with (b'#' ∷ []) (trim_start l))) [
    | inl h ↦ let (rest, e) = starts_with_splits (b'#' ∷ []) (trim_start l) h in hash rest e
    | inr no_hash ↦ parse_split-IsSafeLine l _ refl (rw (more, no_hash) at a)
  ]
]

letter-ne-equals : (c : ℕ) → IsNameChar c → c ≢ b'='
letter-ne-equals c h = ground arith

names-ne-equals : (cs : Text) → All IsNameChar cs → All (λ (c : ℕ). c ≢ b'=') cs
names-ne-equals [] h = tt
names-ne-equals (c ∷ cs) h = (letter-ne-equals c h.0, names-ne-equals cs h.1)

pub IsShellName-ne-equals : (k : Text) → IsShellName k → All (λ (c : ℕ). c ≢ b'=') k
IsShellName-ne-equals [] h = tt
IsShellName-ne-equals (c ∷ cs) h = (letter-ne-equals c (inl h.0), names-ne-equals cs h.1)

-- An assignment whose value is harmless is read as its key and the unquoted value.
pub parse_split-harmless :
    (l k v : Text)
    → IsShellName k
    → IsHarmless v
    → ¬ IsUbuntuDistributor k v
    → parse_split l (some (k, v)) ≡ assignment k (extract_value v)
unfolding parse_split
parse_split-harmless l k v name harmless other = ground (
  arith,
  (is_valid_key_iff k).1 name,
  (detect_dangerous_value_iff v).1 harmless,
  other,
  is_ubuntu_iff k v,
)

parse_split-ubuntu :
    (l k v : Text)
    → IsShellName k
    → IsUbuntuDistributor k v
    → parse_split l (some (k, v)) ≡ assignment k v
unfolding parse_split
parse_split-ubuntu l k v name ubuntu =
    rw ((is_valid_key_iff k).1 name, (is_ubuntu_iff k v).1 ubuntu)

parse_split-IsAccepted :
    (l k v : Text)
    → IsShellName k
    → IsHarmless v ⊎ IsUbuntuDistributor k v
    → IsAccepted (parse_split l (some (k, v)))
parse_split-IsAccepted l k v name (inr ubuntu) = rw (parse_split-ubuntu l k v name ubuntu) tt
parse_split-IsAccepted l k v name (inl harmless) =
    elim (Bool-cases
      (text_eq k (codes "GRUB_DISTRIBUTOR") && text_eq v ubuntu_os_release_distributor)) [
        | inl yes' ↦ rw (parse_split-ubuntu l k v name ((is_ubuntu_iff k v).0 yes')) tt
        | inr no' ↦
            rw
              (parse_split-harmless l k v name harmless
                (λ u. ground (arith, (is_ubuntu_iff k v).1 u)))
              tt
      ]

split-IsAccepted :
    (l k v : Text)
    → l ≡ k ++ (b'=' ∷ v)
    → IsShellName k
    → IsHarmless v ⊎ IsUbuntuDistributor k v
    → IsAccepted (parse_split l (split_once b'=' l))
split-IsAccepted l k v e name safe =
    let split : split_once b'=' l ≡ some (k, v) =
      rw e (split_once-append b'=' k v (IsShellName-ne-equals k name)) in
    rw split (parse_split-IsAccepted l k v name safe)

-- A line is accepted where it is blank, a comment, or accepted as an assignment.
parse_line-IsAccepted :
    (l : Text)
    → ((is_empty (trim l) ≡ true)
        ⊎ ((starts_with (b'#' ∷ []) (trim_start l) ≡ true)
            ⊎ IsAccepted (parse_split l (split_once b'=' l))))
    → IsAccepted (parse_line l)
unfolding parse_line
parse_line-IsAccepted l h = elim (Bool-cases (is_empty (trim l))) [
  | inl e ↦ rw e tt
  | inr more ↦ elim (Bool-cases (starts_with (b'#' ∷ []) (trim_start l))) [
    | inl h ↦ rw (more, h) tt
    | inr no_hash ↦ rw (more, no_hash) (elim h [ inl e ↦ cc | inr (inl e) ↦ cc | inr (inr a) ↦ a ])
  ]
]

-- Every safe line is accepted.
pub IsSafeLine-parse_line : (l : Text) → IsSafeLine l → IsAccepted (parse_line l)
IsSafeLine-parse_line l (white e) = parse_line-IsAccepted l (inl (rw e refl))
IsSafeLine-parse_line l (hash rest e) =
    parse_line-IsAccepted l (inr (inl (rw e (starts_with-append (b'#' ∷ []) rest))))
IsSafeLine-parse_line l (assign k v e name safe) =
    parse_line-IsAccepted l (inr (inr (split-IsAccepted l k v e name safe)))
