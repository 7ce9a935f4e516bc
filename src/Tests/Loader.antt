-- ===== src/Tests/Loader.antt =====
-- Loader entries of systemd-boot at concrete contents.
use boot_control.Prelude.{true, false, none, some, [], ◌∷◌, ◌≡◌, refl, arith}
use boot_control.Text.{
  Text, codes, is_whitespace, lines, join, starts_with, text_eq, splitn_2, trim_start_by,
  trim_end_by, to_lowercase, is_ascii, ascii_lower, strip_suffix,
}
use boot_control.Error.{ok}
use boot_control.Store.{FilePath, World, path_eq}
use boot_control.SystemdBoot.{
  no_entry, is_preserved, set_field, key_value, entry_line, entry_lines, parse_loader_entry,
  extra_lines, insert_line, reinsert, field_lines, serialize_loader_entry,
}
use boot_control.SystemdBootManager.{
  has_key, update_lines, update_or_append_key, is_entry_default, trim_suffixes, set_loader_default,
  entry_path,
}
use boot_control.SystemdBootManager.Defaults.{IsSetting}
use boot_control.SystemdBootManager.SetDefault.{DefaultOutcome, set_loader_default-DefaultOutcome}
use boot_control.Tests.Manager.{path, world}

abbrev plain : Text → Text
plain s = s

abbrev conf : Text
conf = codes "timeout 3\nDefault arch\n# end\n"

updates :
    update_or_append_key plain conf (codes "default") (codes "fedora")
    ≡ codes "timeout 3\ndefault fedora\n# end\n"
unfolding update_or_append_key update_lines has_key lines join codes starts_with splitn_2
    is_whitespace trim_start_by to_lowercase is_ascii ascii_lower text_eq
updates = refl

defaults :
    (is_entry_default (codes "arch") (codes " arch.conf ") ≡ true)
    × (is_entry_default (codes "arch") (codes "arc") ≡ false)
unfolding is_entry_default codes text_eq trim_start_by trim_end_by is_whitespace trim_suffixes
    strip_suffix
defaults = (refl, refl)

abbrev entry_text : Text
entry_text = codes "# mine\ntitle Arch\ninitrd /ucode.img\ninitrd /linux.img\nsort-key a\n"

-- The first of two initrd lines is lost.
reprinted :
    (parse_loader_entry plain entry_text
      ≡ ok (record no_entry {
        title = some (codes "Arch");
        initrd = some (codes "/linux.img");
        extra = (codes "sort-key", codes "a") ∷ [];
        preserved_lines = (0, codes "# mine") ∷ [];
      }))
    × (serialize_loader_entry (record no_entry {
      title = some (codes "Arch");
      initrd = some (codes "/linux.img");
      extra = (codes "sort-key", codes "a") ∷ [];
      preserved_lines = (0, codes "# mine") ∷ [];
    })
        ≡ codes "# mine\ntitle   Arch\ninitrd  /linux.img\nsort-key a\n")
unfolding parse_loader_entry entry_lines entry_line is_preserved key_value set_field lines join
    codes starts_with splitn_2 is_whitespace trim_start_by trim_end_by to_lowercase is_ascii
    ascii_lower text_eq serialize_loader_entry field_lines extra_lines reinsert insert_line
reprinted = (refl, refl)

fedora-IsSetting : IsSetting (codes "fedora")
unfolding codes is_whitespace
fedora-IsSetting = record {
  first = b'f';
  rest = codes "edora";
  filled = refl;
  dark_start = refl;
  dark_end = λ c e. ground arith;
  one_line = ground arith;
}

set_loader_default-DefaultOutcome_example :
    DefaultOutcome plain plain plain path
      (codes "fedora")
      conf
      (world conf false)
      (set_loader_default plain plain plain path (codes "fedora") conf (world conf false))
set_loader_default-DefaultOutcome_example =
    set_loader_default-DefaultOutcome plain plain plain path (codes "fedora") conf
      (world conf false) fedora-IsSetting

abbrev entries_dir : FilePath
entries_dir = codes "loader" ∷ []

abbrev arch_world : World
arch_world = record (world [] false) {
  files = λ p. elim (path_eq p (entry_path entries_dir (codes "arch"))) [
    | true ↦ some entry_text
    | false ↦ none
  ];
}
