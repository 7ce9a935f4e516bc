-- ===== src/SystemdBoot.antt =====
-- crates/core/src/backends/systemd_boot.rs: the loader entries of systemd-boot. `unicode` is the
-- lower case of a text that is not ASCII.
use boot_control.Prelude.{
  ℕ, zero, suc, Bool, ◌||◌, Option, none, some, List, [], ◌∷◌, ◌++◌, if◌then◌else◌,
}
use boot_control.Text.{
  Text, codes, trim, trim_start, is_empty, is_whitespace, lines, join, starts_with, text_eq,
  text_lt, splitn_2, to_lowercase,
}
use boot_control.Text.Numbers.{display}
use boot_control.Error.{malformed_value, Result, ok, err, ◌>>=◌}
use boot_control.Hash.{compute_etag}

pub record LoaderEntry : Type 0 where
  pub title : Option Text
  pub linux : Option Text
  pub initrd : Option Text
  pub options : Option Text
  pub machine_id : Option Text
  pub extra : List (Text × Text)
  pub preserved_lines : List (ℕ × Text)

-- `LoaderEntry::new`
abbrev pub no_entry : LoaderEntry
no_entry = record {
  title = none;
  linux = none;
  initrd = none;
  options = none;
  machine_id = none;
  extra = [];
  preserved_lines = [];
}

-- A blank line or a comment.
unfoldable pub is_preserved : Text → Bool
is_preserved line = let trimmed = trim line in is_empty trimmed || starts_with (codes "#") trimmed

-- `match key.as_str()`
unfoldable pub set_field : Text → Text → LoaderEntry → LoaderEntry
set_field key value entry =
    if text_eq key (codes "title")
    then record entry { title = some value }
    else if text_eq key (codes "linux")
    then record entry { linux = some value }
    else if text_eq key (codes "initrd")
    then record entry { initrd = some value }
    else if text_eq key (codes "options")
    then record entry { options = some value }
    else if text_eq key (codes "machine-id")
    then record entry { machine_id = some value }
    else record entry { extra = entry.extra ++ ((key, value) ∷ []) }

module _ (unicode : Text → Text) where
  -- A key with its value, or none where nothing separates them.
  unfoldable pub key_value : Text → Text × Option Text
  key_value line =
      let (key, rest) = splitn_2 is_whitespace (trim line) in (to_lowercase unicode key, rest)

  abbrev no_separator : ℕ → Text → Text
  no_separator line_index key =
      codes "line " ++ (display line_index ++ codes ": no separator between key and value")

  abbrev add_field : ℕ → LoaderEntry → Text × Option Text → Result LoaderEntry
  add_field line_index entry (key, none) = err (malformed_value key (no_separator line_index key))
  add_field line_index entry (key, some value) = ok (set_field key (trim_start value) entry)

  -- The body of the loop over the lines.
  unfoldable pub entry_line : ℕ → Text → LoaderEntry → Result LoaderEntry
  entry_line line_index line entry =
      if is_preserved line
      then ok
          (record entry { preserved_lines = entry.preserved_lines ++ ((line_index, line) ∷ []) })
      else add_field line_index entry (key_value line)

  unfoldable pub entry_lines : ℕ → List Text → LoaderEntry → Result LoaderEntry
  entry_lines line_index [] entry = ok entry
  entry_lines line_index (line ∷ ls) entry =
      entry_line line_index line entry >>= λ entry'. entry_lines (suc line_index) ls entry'

  unfoldable pub parse_loader_entry : Text → Result LoaderEntry
  parse_loader_entry content =
      if is_empty (trim content)
      then err (malformed_value (codes "loader_entry") (codes "file is empty"))
      else entry_lines 0 (lines content) no_entry

abbrev pub field_line : Text → Option Text → List Text
field_line key none = []
field_line key (some value) = (key ++ value) ∷ []

unfoldable pub extra_lines : List (Text × Text) → List Text
extra_lines [] = []
extra_lines ((k, v) ∷ extra) = (k ++ (b' ' ∷ v)) ∷ extra_lines extra

-- `lines.insert(idx.min(lines.len()), raw)`
unfoldable pub insert_line : ℕ → Text → List Text → List Text
insert_line zero raw ls = raw ∷ ls
insert_line (suc idx) raw [] = raw ∷ []
insert_line (suc idx) raw (l ∷ ls) = l ∷ insert_line idx raw ls

-- The loop over the preserved lines.
unfoldable pub reinsert : List (ℕ × Text) → List Text → List Text
reinsert [] ls = ls
reinsert ((idx, raw) ∷ preserved) ls = reinsert preserved (insert_line idx raw ls)

unfoldable pub field_lines : LoaderEntry → List Text
field_lines entry =
    field_line (codes "title   ") entry.title
    ++ (field_line (codes "linux   ") entry.linux
        ++ (field_line (codes "initrd  ") entry.initrd
            ++ (field_line (codes "options ") entry.options
                ++ (field_line (codes "machine-id ") entry.machine_id ++ extra_lines entry.extra))))

unfoldable pub serialize_loader_entry : LoaderEntry → Text
serialize_loader_entry entry =
    join (b'\n' ∷ []) (reinsert entry.preserved_lines (field_lines entry)) ++ (b'\n' ∷ [])

-- `sort_by` on the names: of equal names, the one that came first.
unfoldable pub insert_digest : Text × Text → List (Text × Text) → List (Text × Text)
insert_digest a [] = a ∷ []
insert_digest (name, d) ((other, e) ∷ rest) =
    let behind = insert_digest (name, d) rest in
    if text_lt other name then (other, e) ∷ behind else (name, d) ∷ (other, e) ∷ rest

unfoldable pub sort_digests : List (Text × Text) → List (Text × Text)
sort_digests [] = []
sort_digests (a ∷ rest) = insert_digest a (sort_digests rest)

unfoldable pub combined : List (Text × Text) → Text
combined [] = []
combined ((name, d) ∷ rest) = (name ++ (b':' ∷ (d ++ (b'\n' ∷ [])))) ++ combined rest

unfoldable pub compute_directory_etag : (Text → Text) → List (Text × Text) → Text
compute_directory_etag digest file_digests =
    compute_etag digest (combined (sort_digests file_digests))
