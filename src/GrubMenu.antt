-- ===== src/GrubMenu.antt =====
-- crates/core/src/grub_cfg.rs: the parser of the generated grub.cfg, which lists its menu entries.
-- The stack of open submenus is kept innermost first.
pub mod Tokens
pub mod Addresses
pub mod Paths
use boot_control.Prelude.{
  ℕ, zero, suc, ◌+◌, ◌-◌, Bool, true, false, not, ◌&&◌, ◌||◌, Option, none, some, List, [], ◌∷◌,
  ◌++◌, ltb, ◌==◌, if◌then◌else◌, length,
}
use boot_control.Text.{
  Text, codes, is_whitespace, lines, trim, split_whitespace, starts_with, is_empty, text_eq,
}
use boot_control.Text.Numbers.{display}
use boot_control.Error.{BootControlError, malformed_value, Result, ok, err, ◌>>=◌}
use boot_control.GrubMenu.Tokens.{malformed, MenuLineParts, parse_menu_line, unquoted_braces}

pub record GrubMenuEntry : Type 0 where
  pub title : Text
  pub id : Option Text
  pub path : Text
  pub depth : ℕ
  pub is_submenu : Bool

-- An open submenu: its own index, and that of its next child.
pub record SubmenuFrame : Type 0 where
  pub index : ℕ
  pub next_child : ℕ

pub record MenuState : Type 0 where
  pub entries : List GrubMenuEntry
  pub submenus : List SubmenuFrame
  pub top_next_child : ℕ
  pub opaque_depth : ℕ

-- The braces of a line inside a block whose content is ignored: the depth after them. The depth
-- is above 0 where 1 is taken off.
unfoldable pub opaque_braces : ℕ → List ℕ → ℕ
opaque_braces depth [] = depth
opaque_braces depth (brace ∷ braces) = elim (brace == b'{') [
  | true ↦ opaque_braces (depth + 1) braces
  | false ↦ elim (depth - 1 == 0) [ true ↦ 0 | false ↦ opaque_braces (depth - 1) braces ]
]

abbrev pop : List SubmenuFrame → List SubmenuFrame
pop [] = []
pop (_ ∷ frames) = frames

-- One brace of a line at menu level that is no menu item.
unfoldable pub menu_brace : MenuState → ℕ → MenuState
menu_brace s brace =
    if brace == b'{'
    then record s { opaque_depth = s.opaque_depth + 1 }
    else if ltb 0 s.opaque_depth
    then record s { opaque_depth = s.opaque_depth - 1 }
    else record s { submenus = pop s.submenus }

unfoldable pub menu_braces : MenuState → List ℕ → MenuState
menu_braces s [] = s
menu_braces s (brace ∷ braces) = menu_braces (menu_brace s brace) braces

-- `index>` for each open submenu, outermost first.
unfoldable pub path_prefix : List SubmenuFrame → Text
path_prefix [] = []
path_prefix (frame ∷ frames) = path_prefix frames ++ (display frame.index ++ (b'>' ∷ []))

abbrev next_index : MenuState → List SubmenuFrame → ℕ
next_index s [] = s.top_next_child
next_index s (parent ∷ _) = parent.next_child

bump_parent : MenuState → List SubmenuFrame → MenuState
bump_parent s [] = record s { top_next_child = s.top_next_child + 1 }
bump_parent s (parent ∷ frames) = record s {
  submenus = record parent { next_child = parent.next_child + 1 } ∷ frames;
}

open_body : MenuState → ℕ → Bool → ℕ → MenuState
open_body s index is_submenu body_depth =
    if ltb 0 body_depth
    then (if is_submenu
        then record s { submenus = record { index = index; next_child = 0 } ∷ s.submenus }
        else record s { opaque_depth = body_depth })
    else s

-- A `menuentry` or `submenu` line whose parts were read.
unfoldable pub add_entry : MenuState → Bool → MenuLineParts → MenuState
unfolding bump_parent open_body
add_entry s is_submenu parts =
    let index = next_index s s.submenus in
    let entry : GrubMenuEntry = record {
      title = parts.title;
      id = parts.id;
      path = path_prefix s.submenus ++ display index;
      depth = length s.submenus;
      is_submenu = is_submenu;
    } in
    let s' = bump_parent s s.submenus in
    open_body (record s' { entries = s'.entries ++ (entry ∷ []) }) index is_submenu parts.body_depth

abbrev first_word : List Text → Text
first_word [] = []
first_word (w ∷ _) = w

-- A line that is neither blank nor a comment, outside of ignored blocks.
menu_level_line : MenuState → Text → Text → Result MenuState
menu_level_line s trimmed first =
    if text_eq first (codes "menuentry") || text_eq first (codes "submenu")
    then (parse_menu_line trimmed >>= λ parts.
        ok (add_entry s (text_eq first (codes "submenu")) parts))
    else ok (menu_braces s (unquoted_braces trimmed))

unfoldable pub menu_line : MenuState → Text → Result MenuState
unfolding menu_level_line
menu_line s line =
    let trimmed = trim line in
    if is_empty trimmed || starts_with (b'#' ∷ []) trimmed
    then ok s
    else if ltb 0 s.opaque_depth
    then ok (record s { opaque_depth = opaque_braces s.opaque_depth (unquoted_braces trimmed) })
    else menu_level_line s trimmed (first_word (split_whitespace trimmed))

unfoldable pub menu_lines : MenuState → List Text → Result MenuState
menu_lines s [] = ok s
menu_lines s (l ∷ ls) = menu_line s l >>= λ s'. menu_lines s' ls

abbrev pub no_menu : MenuState
no_menu = record { entries = []; submenus = []; top_next_child = 0; opaque_depth = 0 }

abbrev no_frames : List SubmenuFrame → Bool
no_frames [] = true
no_frames (_ ∷ _) = false

unfoldable pub close_menu : MenuState → Result (List GrubMenuEntry)
close_menu s =
    if ltb 0 s.opaque_depth || not (no_frames s.submenus)
    then err (malformed (codes "unexpected end of file: unclosed '{' block"))
    else ok s.entries

unfoldable pub parse_menu_entries : Text → Result (List GrubMenuEntry)
unfolding menu_lines close_menu
parse_menu_entries cfg = menu_lines no_menu (lines cfg) >>= close_menu
