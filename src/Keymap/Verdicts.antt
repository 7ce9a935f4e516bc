-- ===== src/Keymap/Verdicts.antt =====
-- crates/core/src/luks_keymap.rs: when a keymap is accepted.
use boot_control.Prelude.{
  ℕ, ◌≤◌, Bool, true, Option, none, some, [], ◌∷◌, ◌≡◌, ◌≢◌, ◌⊎◌, ◌↔◌, refl, arith, All, ap, subst,
  ◌∙◌, ◌++◌, List, false, Bool-cases, Option-cases, inl, inr,
}
use boot_control.Text.{
  Text, codes, lines, trim, trim_start, trim_start_matches, trim_end_matches, starts_with,
  strip_prefix,
}
use boot_control.Error.{ok}
use boot_control.Grub.{all_chars}
use boot_control.Keymap.{
  into_result, extract_keymap, is_keymap_char, is_valid_keymap_name, verdict_of,
  validate_vconsole_keymap, keymap_in, clean_value,
}

-- `[A-Za-z0-9_.-]`
abbrev pub IsKeymapChar : ℕ → Type 0
IsKeymapChar c =
    ((b'a' ≤ c) × (c ≤ b'z'))
    ⊎ (((b'A' ≤ c) × (c ≤ b'Z'))
        ⊎ (((b'0' ≤ c) × (c ≤ b'9')) ⊎ ((c ≡ b'-') ⊎ ((c ≡ b'_') ⊎ (c ≡ b'.')))))

keymap_chars_iff : (s : Text) → (all_chars is_keymap_char s ≡ true) ↔ All IsKeymapChar s
unfolding all_chars is_keymap_char
keymap_chars_iff [] = (λ _. tt, λ _. refl)
keymap_chars_iff (c ∷ cs) =
    (λ h. ground (arith, keymap_chars_iff cs), λ h. ground (arith, keymap_chars_iff cs))

is_valid_keymap_name_iff :
    (s : Text) → (is_valid_keymap_name s ≡ true) ↔ ((s ≢ []) × All IsKeymapChar s)
unfolding is_valid_keymap_name
is_valid_keymap_name_iff [] = (λ h. cc, λ h. absurd (h.0 refl))
is_valid_keymap_name_iff (c ∷ cs) =
    (λ h. (λ e. cc, (keymap_chars_iff (c ∷ cs)).0 h), λ h. (keymap_chars_iff (c ∷ cs)).1 h.1)

-- The value that the file sets is a keymap name, and it resolves.
abbrev IsUsable : (Text → Bool) → Text → Option Text → Type 0
IsUsable resolve keymap found =
    (found ≡ some keymap) × ((keymap ≢ []) × (All IsKeymapChar keymap × (resolve keymap ≡ true)))

resolved-IsUsable :
    (resolve : Text → Bool) (c : ℕ) (cs keymap : Text)
    → into_result (verdict_of resolve (some (c ∷ cs))) ≡ ok keymap
    → IsUsable resolve keymap (some (c ∷ cs))
unfolding verdict_of into_result
resolved-IsUsable resolve c cs keymap h =
    let facts : (c ∷ cs ≡ keymap)
        × ((is_valid_keymap_name (c ∷ cs) ≡ true) × (resolve (c ∷ cs) ≡ true)) =
      ground arith in
    let name = (is_valid_keymap_name_iff (c ∷ cs)).0 facts.1.0 in
    (
      ap some facts.0,
      subst (λ (k : Text). (k ≢ []) × (All IsKeymapChar k × (resolve k ≡ true))) facts.0
          (name.0, (name.1, facts.1.1)),
    )

usable-resolved :
    (resolve : Text → Bool) (raw keymap : Text)
    → IsUsable resolve keymap (some raw)
    → into_result (verdict_of resolve (some raw)) ≡ ok keymap
unfolding verdict_of into_result
usable-resolved resolve raw [] h = absurd (h.1.0 refl)
usable-resolved resolve raw (c ∷ cs) h =
    let e : raw ≡ c ∷ cs = cc (h.0) in
    rw e (rw ((is_valid_keymap_name_iff (c ∷ cs)).1 (h.1.0, h.1.1.0), h.1.1.1) refl)

verdict_of-resolved :
    (resolve : Text → Bool) (o : Option Text) (keymap : Text)
    → (into_result (verdict_of resolve o) ≡ ok keymap) ↔ IsUsable resolve keymap o
unfolding verdict_of into_result
verdict_of-resolved resolve none keymap = (λ h. cc, λ h. cc)
verdict_of-resolved resolve (some []) keymap = (λ h. cc, λ h. absurd (h.1.0 (cc (h.0))))
verdict_of-resolved resolve (some (c ∷ cs)) keymap =
    (resolved-IsUsable resolve c cs keymap, λ h. usable-resolved resolve (c ∷ cs) keymap h)

-- The line sets KEYMAP to a text, behind white space.
abbrev pub Sets : Text → Text → Type 0
Sets line raw = trim_start line ≡ codes "KEYMAP=" ++ raw

-- The first line that sets KEYMAP sets it to the text, with white space, double quotes and single
-- quotes around it.
pub record IsFirstSetting (ls : List Text) (keymap : Text) : Type 0 where
  pub before : List Text
  pub line : Text
  pub after : List Text
  pub raw : Text
  pub split : ls ≡ before ++ (line ∷ after)
  pub unset : All (λ (l : Text). ¬ ((r : Text) × Sets l r)) before
  pub sets : Sets line raw
  pub value :
      trim_end_matches b'\''
        (trim_start_matches b'\'' (trim_end_matches b'"' (trim_start_matches b'"' (trim raw))))
      ≡ keymap

strip_prefix-some : (p s r : Text) → strip_prefix p s ≡ some r → s ≡ p ++ r
unfolding strip_prefix
strip_prefix-some [] s r h = cc h
strip_prefix-some (x ∷ p) [] r h = cc
strip_prefix-some (x ∷ p) (y ∷ s) r h = ground (arith, strip_prefix-some p s r)

strip_prefix-append : (p r : Text) → strip_prefix p (p ++ r) ≡ some r
unfolding strip_prefix
strip_prefix-append [] r = refl
strip_prefix-append (x ∷ p) r = ground (arith, strip_prefix-append p r)

-- A comment sets nothing.
Sets-no_comment : (l r : Text) → Sets l r → starts_with (b'#' ∷ []) (trim_start l) ≡ false
unfolding starts_with codes
Sets-no_comment l r h = rw h refl

unset_line :
    (l : Text) → strip_prefix (codes "KEYMAP=") (trim_start l) ≡ none → ¬ ((r : Text) × Sets l r)
unset_line l h (r, s) =
    cc (h, ap (strip_prefix (codes "KEYMAP=")) s, strip_prefix-append (codes "KEYMAP=") r)

comment_line :
    (l : Text) → starts_with (b'#' ∷ []) (trim_start l) ≡ true → ¬ ((r : Text) × Sets l r)
comment_line l h (r, s) = cc (h, Sets-no_comment l r s)

skipped :
    (l : Text) (ls : List Text) (keymap : Text)
    → ¬ ((r : Text) × Sets l r)
    → IsFirstSetting ls keymap
    → IsFirstSetting (l ∷ ls) keymap
skipped l ls keymap other f = record {
  before = l ∷ f.before;
  line = f.line;
  after = f.after;
  raw = f.raw;
  split = ap (λ (rest : List Text). l ∷ rest) f.split;
  unset = (other, f.unset);
  sets = f.sets;
  value = f.value;
}

keymap_in-IsFirstSetting :
    (ls : List Text) (keymap : Text) → keymap_in ls ≡ some keymap → IsFirstSetting ls keymap
unfolding keymap_in clean_value
keymap_in-IsFirstSetting [] keymap h = cc
keymap_in-IsFirstSetting (l ∷ ls) keymap h =
    elim (Bool-cases (starts_with (b'#' ∷ []) (trim_start l))) [
      | inl comment ↦
          skipped l ls keymap (comment_line l comment)
            (keymap_in-IsFirstSetting ls keymap (rw comment at h))
      | inr other ↦ elim (Option-cases (strip_prefix (codes "KEYMAP=") (trim_start l))) [
        | inl none' ↦
            skipped l ls keymap (unset_line l none')
              (keymap_in-IsFirstSetting ls keymap (rw (other, none') at h))
        | inr (raw, found) ↦
            let e : some _ ≡ some keymap = rw (other, found) at h in
            record {
              before = [];
              line = l;
              after = ls;
              raw = raw;
              split = refl;
              unset = tt;
              sets = strip_prefix-some (codes "KEYMAP=") (trim_start l) raw found;
              value = cc e;
            }
      ]
    ]

IsFirstSetting-keymap_in :
    (before : List Text) (line raw : Text) (after : List Text)
    → All (λ (l : Text). ¬ ((r : Text) × Sets l r)) before
    → Sets line raw
    → keymap_in (before ++ (line ∷ after)) ≡ some (clean_value raw)
unfolding keymap_in
IsFirstSetting-keymap_in [] line raw after unset s =
    rw (Sets-no_comment line raw s) (rw s (rw (strip_prefix-append (codes "KEYMAP=") raw) refl))
IsFirstSetting-keymap_in (l ∷ before) line raw after unset s =
    let rest = IsFirstSetting-keymap_in before line raw after unset.1 s in
    elim (Bool-cases (starts_with (b'#' ∷ []) (trim_start l))) [
      | inl comment ↦ rw comment rest
      | inr other ↦ elim (Option-cases (strip_prefix (codes "KEYMAP=") (trim_start l))) [
        | inl none' ↦ rw other (rw none' rest)
        | inr (r, found) ↦
            absurd (unset.0 (r, strip_prefix-some (codes "KEYMAP=") (trim_start l) r found))
      ]
    ]

IsFirstSetting-iff :
    (conf keymap : Text) → (extract_keymap conf ≡ some keymap) ↔ IsFirstSetting (lines conf) keymap
unfolding extract_keymap clean_value
IsFirstSetting-iff conf keymap = (
  keymap_in-IsFirstSetting (lines conf) keymap,
  λ f.
      rw (f.split)
        (IsFirstSetting-keymap_in f.before f.line f.raw f.after f.unset f.sets ∙ ap some f.value),
)

-- The check passes with a keymap exactly when the first line of the file that sets KEYMAP sets it to
-- that keymap, it is not empty, all its characters are legal in a keymap name, and it resolves.
pub validate_vconsole_keymap_iff :
    (conf : Text) (resolve : Text → Bool) (keymap : Text)
    → (into_result (validate_vconsole_keymap conf resolve) ≡ ok keymap) ↔ (
        IsFirstSetting (lines conf) keymap
        × ((keymap ≢ []) × (All IsKeymapChar keymap × (resolve keymap ≡ true))))
unfolding validate_vconsole_keymap
validate_vconsole_keymap_iff conf resolve keymap =
    let verdict = verdict_of-resolved resolve (extract_keymap conf) keymap in
    let first = IsFirstSetting-iff conf keymap in
    (λ h. (first.0 (verdict.0 h).0, (verdict.0 h).1), λ h. verdict.1 (first.1 h.0, h.1))
