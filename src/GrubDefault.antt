-- ===== src/GrubDefault.antt =====
-- crates/daemon/src/grub_manager.rs: choosing the default entry from the generated menu.
pub mod Selection
use boot_control.Prelude.{
  Bool, true, false, not, Option, none, some, List, [], ◌∷◌, ◌++◌, if◌then◌else◌,
}
use boot_control.Text.{Text, codes, text_eq}
use boot_control.Error.{
  BootControlError, state_mismatch, malformed_value, esp_scan_failed, Result, ok, err,
}
use boot_control.Hash.{compute_etag}
use boot_control.Store.{FilePath, World, System, Io, ◌>>=◌, ◌>>◌, pure, lift, read_to_string}
use boot_control.GrubMenu.{GrubMenuEntry, parse_menu_entries}
use boot_control.GrubManager.{LockedGrubState, set_grub_value_with_prewrite}

-- `entries.iter().find(|entry| entry.path == selected_path)`
unfoldable pub find_path : Text → List GrubMenuEntry → Option GrubMenuEntry
find_path selected [] = none
find_path selected (entry ∷ entries) =
    if text_eq entry.path selected then some entry else find_path selected entries

selection_error : Text → Text → Result (Unit {0})
selection_error selected_path what = err (
    malformed_value (codes "GRUB_DEFAULT")
      (codes "menu path " ++ (selected_path ++ (codes " " ++ what))))

unfoldable pub selection_of : Text → Option GrubMenuEntry → Result (Unit {0})
unfolding selection_error
selection_of selected_path none = selection_error selected_path (codes "does not exist")
selection_of selected_path (some entry) =
    if not entry.is_submenu
    then ok tt
    else selection_error selected_path (codes "identifies a submenu")

-- The check of the ETag of the menu.
unfoldable pub fresh_menu : (Text → Text) → Text → Text → Result (List GrubMenuEntry)
fresh_menu digest menu_etag content =
    if not (text_eq (compute_etag digest content) menu_etag)
    then err (state_mismatch menu_etag (compute_etag digest content))
    else parse_menu_entries content

module _ (sys : System) where
  unfoldable pub list_menu_entries : FilePath → Io (List GrubMenuEntry × Text)
  list_menu_entries grub_cfg_path = do
    content ← read_to_string esp_scan_failed grub_cfg_path
    entries ← lift (parse_menu_entries content)
    pure (entries, compute_etag sys.digest content)

  unfoldable pub validate_menu_selection : FilePath → Text → Text → Io (Unit {0})
  validate_menu_selection menu_path selected_path menu_etag = do
    content ← read_to_string esp_scan_failed menu_path
    entries ← lift (fresh_menu sys.digest menu_etag content)
    lift (selection_of selected_path (find_path selected_path entries))

  -- The closure that runs under the lock.
  unfoldable pub validate_then :
      FilePath → Text → Text → (LockedGrubState → Io (Unit {0})) → LockedGrubState → Io (Unit {0})
  validate_then menu_path selected_path menu_etag prewrite locked = do
    validate_menu_selection menu_path selected_path menu_etag
    prewrite locked

  unfoldable pub set_grub_default_with_prewrite :
      FilePath
      → FilePath
      → Text
      → Text
      → Text
      → FilePath
      → (LockedGrubState → Io (Unit {0}))
      → Io (Unit {0})
  set_grub_default_with_prewrite config_path menu_path selected_path menu_etag config_etag
        failsafe_cfg prewrite =
      set_grub_value_with_prewrite sys config_path (codes "GRUB_DEFAULT") selected_path config_etag
        failsafe_cfg menu_path (validate_then menu_path selected_path menu_etag prewrite)

  unfoldable pub set_grub_default :
      FilePath → FilePath → Text → Text → Text → FilePath → Io (Unit {0})
  unfolding set_grub_default_with_prewrite
  set_grub_default config_path menu_path selected_path menu_etag config_etag failsafe_cfg =
      set_grub_default_with_prewrite config_path menu_path selected_path menu_etag config_etag
        failsafe_cfg (λ _. pure tt)
