-- ===== src/Tests/Menu.antt =====
-- The generated menu at a concrete grub.cfg.
use boot_control.GrubMenu.Paths.{DistinctPaths, parse_menu_entries-DistinctPaths}
use boot_control.Prelude.{true, false, none, some, [], ◌∷◌, ◌≡◌, refl, List, if◌then◌else◌}
use boot_control.Text.{
  Text, codes, lines, is_whitespace, trim_start_by, trim_end_by, starts_with, text_eq,
}
use boot_control.Text.Numbers.{digits_from, display}
use boot_control.Error.{ok}
use boot_control.GrubMenu.{
  GrubMenuEntry, parse_menu_entries, menu_line, menu_lines, add_entry, menu_braces, opaque_braces,
  path_prefix, close_menu,
}
use boot_control.GrubMenu.Tokens.{
  parse_menu_line, tokenize_menu_line, scan, scan_in, flush, push, mark_quoted, read_token,
  read_tokens, parts_of, unquoted_braces, braces_from,
}
use boot_control.Store.Keeps.{KeepsAt-lift}
use boot_control.GrubDefault.{set_grub_default_with_prewrite}
use boot_control.GrubDefault.Selection.{DefaultOutcome, set_grub_default-DefaultOutcome}
use boot_control.Store.{World, path_eq}
use boot_control.Tests.Manager.{
  path, file, failsafe, grub_cfg, world, sys, no_prewrite, other, tmp_other,
}

abbrev menu : Text
menu =
    codes
      "menuentry 'Linux' $menuentry_id_option 'linux' {\n if x; then {\n }\n}\nsubmenu \"More\" {\n menuentry 'Old' {\n }\n}\n"

abbrev item : Text → Text → GrubMenuEntry
item title path = record { title = title; id = none; path = path; depth = 0; is_submenu = false }

abbrev menu_entries : List GrubMenuEntry
menu_entries =
    record (item (codes "Linux") (codes "0")) { id = some (codes "linux") }
    ∷ record (item (codes "More") (codes "1")) { is_submenu = true }
    ∷ record (item (codes "Old") (codes "1>0")) { depth = 1 }
    ∷ []

reads-menu : parse_menu_entries menu ≡ ok menu_entries
unfolding parse_menu_entries menu_line menu_lines codes lines trim_end_by trim_start_by
    is_whitespace starts_with text_eq boot_control.Text.words_from parse_menu_line
    tokenize_menu_line scan_in read_token add_entry opaque_braces unquoted_braces menu_braces
    boot_control.GrubMenu.menu_brace path_prefix display braces_from flush mark_quoted parts_of push
    read_tokens scan close_menu digits_from
reads-menu = refl

-- A configuration and its menu.
abbrev both : World
both = record (world file false) {
  files = λ p. if path_eq p path then some file else if path_eq p grub_cfg then some menu else none;
}

set_grub_default-DefaultOutcome_example :
    let (r, w') =
      set_grub_default_with_prewrite sys path grub_cfg
        (codes "1>0")
        menu
        file
        failsafe
        no_prewrite
        both in
    DefaultOutcome sys path grub_cfg failsafe
      (codes "1>0")
      menu
      file
      no_prewrite
      both
      (both.files path)
      r
      (w'.files path)
set_grub_default-DefaultOutcome_example =
    set_grub_default-DefaultOutcome sys path grub_cfg failsafe (codes "1>0") menu file no_prewrite
      both (λ _ _ _. refl) (λ _. KeepsAt-lift path (ok tt)) other tmp_other

parse_menu_entries-DistinctPaths_example : DistinctPaths menu_entries
parse_menu_entries-DistinctPaths_example =
    parse_menu_entries-DistinctPaths menu menu_entries reads-menu
