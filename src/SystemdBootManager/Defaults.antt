-- ===== src/SystemdBootManager/Defaults.antt =====
-- crates/daemon/src/systemd_boot_manager.rs: a default that was set is the default that is read.
use boot_control.Prelude.{
  ℕ, true, false, some, List, [], ◌∷◌, ◌++◌, map, ◌≡◌, refl, ap, sym, ◌∙◌, arith, All, Bool-cases,
  inl, inr, ◌||◌, All-append,
}
use boot_control.Text.{
  Text, codes, is_whitespace, is_empty, trim, trim_start, trim_end, trim_start_by, starts_with,
  lines, join, last?, to_lowercase, is_ascii, ascii_lower,
}
use boot_control.Text.Equality.{text_eq_refl}
use boot_control.Text.Lines.{NoNewline, chomp, lines-join, lines-NoNewline}
use boot_control.Text.Trim.{trim_start_by-cons, trim_end_by-last, last?-append}
use boot_control.Text.Tokens.{
  trim-chomp, splitn_2-trim_end, starts_with-trim_end, is_empty-trim, splitn_2-word,
}
use boot_control.SystemdBootManager.{default_in, has_key, update_lines, update_or_append_key}

-- A text that stands on one line and has no white space at its ends.
pub record IsSetting (id : Text) : Type 0 where
  pub first : ℕ
  pub rest : Text
  pub filled : id ≡ first ∷ rest
  pub dark_start : is_whitespace first ≡ false
  pub dark_end : (c : ℕ) → last? id ≡ some c → is_whitespace c ≡ false
  pub one_line : NoNewline id

abbrev pub default_key : Text
default_key = codes "default"

abbrev pub default_line : Text → Text
default_line id = default_key ++ (b' ' ∷ id)

blank : is_whitespace b' ' ≡ true
unfolding is_whitespace
blank = refl

default_key-dark : All (λ (c : ℕ). is_whitespace c ≡ false) default_key
unfolding codes is_whitespace
default_key-dark = ground arith

default_key-NoNewline : NoNewline default_key
unfolding codes
default_key-NoNewline = ground arith

lower_default : (unicode : Text → Text) → to_lowercase unicode default_key ≡ default_key
unfolding to_lowercase is_ascii ascii_lower codes
lower_default unicode = refl

trim_start-setting : (id : Text) → IsSetting id → trim_start id ≡ id
trim_start-setting id is =
    rw is.filled (trim_start_by-cons is_whitespace is.first is.rest is.dark_start)

last-default_line : (id : Text) → IsSetting id → last? (default_line id) ≡ last? id
last-default_line id is = rw is.filled (last?-append default_key b' ' (is.first ∷ is.rest))

trim_start-default_line : (id : Text) → trim_start (default_line id) ≡ default_line id
unfolding codes is_whitespace trim_start_by
trim_start-default_line id = refl

trim-default_line : (id : Text) → IsSetting id → trim (default_line id) ≡ default_line id
trim-default_line id is =
    ap trim_end (trim_start-default_line id)
    ∙ trim_end_by-last is_whitespace (default_line id)
        (λ c e. is.dark_end c (sym (last-default_line id is) ∙ e))

default_line-kept :
    (id : Text) → (starts_with (codes "#") (default_line id) || is_empty (default_line id)) ≡ false
unfolding codes starts_with
default_line-kept id = refl

module _ (unicode : Text → Text) where
  -- A line that is not the one to replace does not tell the default.
  skipped_line :
      (line : Text) (ls : List Text)
      → has_key unicode default_key line ≡ false
      → default_in unicode (chomp line ∷ ls) ≡ default_in unicode ls
  unfolding default_in has_key
  skipped_line line ls h =
      rw
        (
          trim-chomp line,
          starts_with-trim_end (trim_start line),
          is_empty-trim line,
          splitn_2-trim_end (trim_start line),
        )
        (ground (arith, h))

  default_line-read :
      (id : Text) (ls : List Text)
      → IsSetting id
      → default_in unicode (chomp (default_line id) ∷ ls) ≡ id
  unfolding default_in
  default_line-read id ls is =
      rw
        (
          trim-chomp (default_line id),
          trim-default_line id is,
          splitn_2-word default_key id b' ' default_key-dark blank,
          default_line-kept id,
          lower_default unicode,
          text_eq_refl default_key,
        )
        (trim_start-setting id is)

  default_in-update :
      (id : Text) (ls : List Text)
      → IsSetting id
      → default_in unicode (map chomp (update_lines unicode default_key (default_line id) ls)) ≡ id
  unfolding update_lines
  default_in-update id [] is = default_line-read id [] is
  default_in-update id (line ∷ ls) is = elim (Bool-cases (has_key unicode default_key line)) [
    | inl found ↦ rw found (default_line-read id (map chomp ls) is)
    | inr other ↦ rw other (skipped_line line _ other ∙ default_in-update id ls is)
  ]

  update_lines-NoNewline :
      (key new_line : Text) (ls : List Text)
      → NoNewline new_line
      → All NoNewline ls
      → All NoNewline (update_lines unicode key new_line ls)
  unfolding update_lines
  update_lines-NoNewline key new_line [] h hs = (h, tt)
  update_lines-NoNewline key new_line (l ∷ ls) h hs = elim (Bool-cases (has_key unicode key l)) [
    | inl found ↦ rw found (h, hs.1)
    | inr other ↦ rw other (hs.0, update_lines-NoNewline key new_line ls h hs.1)
  ]

  lines-update :
      (key new_line : Text) (ls : List Text)
      → All NoNewline (update_lines unicode key new_line ls)
      → lines (join (b'\n' ∷ []) (update_lines unicode key new_line ls) ++ (b'\n' ∷ []))
        ≡ map chomp (update_lines unicode key new_line ls)
  unfolding update_lines
  lines-update key new_line [] h = lines-join new_line [] h
  lines-update key new_line (l ∷ ls) h = elim (Bool-cases (has_key unicode key l)) [
    | inl found ↦ rw found (lines-join new_line ls (rw found at h))
    | inr other ↦ rw other (lines-join l _ (rw other at h))
  ]

  default_line-NoNewline : (id : Text) → NoNewline id → NoNewline (default_line id)
  default_line-NoNewline id h =
      All-append _ default_key (b' ' ∷ id) default_key-NoNewline ((λ e. cc), h)

  -- The default that a changed loader.conf tells is the one that was set, whatever it held.
  pub default_in-update_or_append_key :
      (content id : Text)
      → IsSetting id
      → default_in unicode (lines (update_or_append_key unicode content (codes "default") id)) ≡ id
  unfolding update_or_append_key
  default_in-update_or_append_key content id is =
      rw
        (lines-update default_key (default_line id) (lines content) (
          update_lines-NoNewline default_key (default_line id) (lines content)
            (default_line-NoNewline id is.one_line) (lines-NoNewline content)))
        (default_in-update id (lines content) is)

  -- A new loader.conf with the default alone.
  pub default_in-new :
      (id : Text) → IsSetting id → default_in unicode (lines (default_line id ++ (b'\n' ∷ []))) ≡ id
  unfolding join
  default_in-new id is =
      rw (lines-join (default_line id) [] (default_line-NoNewline id is.one_line, tt))
        (default_line-read id [] is)
