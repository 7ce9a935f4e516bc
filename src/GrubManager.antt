-- ===== src/GrubManager.antt =====
-- crates/daemon/src/grub_manager.rs: reading and changing /etc/default/grub. The lock that a change
-- takes is released when it returns, so it is seen here only as a test of `busy`; between the lock
-- and the rename no other process writes the file.
pub mod Line
pub mod Edit
pub mod GoodLine
pub mod Change
pub mod Atomic
pub mod Refusals
pub mod Success
pub mod Lockout
pub mod ReadBack
pub mod Settings
use boot_control.Prelude.{
  ℕ, zero, suc, ◌+◌, ◌-◌, ◌%◌, Bool, true, false, not, ◌||◌, Option, none, some, List, [], ◌∷◌,
  ◌++◌, if◌then◌else◌, length,
}
use boot_control.Text.{Text, codes, trim_start, is_empty, starts_with, contains, text_eq, join}
use boot_control.Text.Numbers.{display, digits_from, decimal_digit, pad_zeros, bool_text}
use boot_control.Error.{
  BootControlError, state_mismatch, malformed_value, esp_scan_failed, concurrent_modification,
  Result, ok, err,
}
use boot_control.Hash.{compute_etag, verify_etag}
use boot_control.Map.{TextMap}
use boot_control.Grub.{GrubConfig, parse_grub_config}
use boot_control.GrubSettings.{GrubSettings, as_str, parse_grub_settings, validate_grub_settings}
use boot_control.Store.{
  FilePath, display_path, file_name, parent, Call, open_rw, lock, metadata, sync, World, System, Io,
  ◌>>=◌, ◌>>◌, pure, lift, attempt, read_to_string, create_file, write_all, rename_file,
}
use boot_control.Failsafe.{refresh_failsafe_entry, or_default}
use boot_control.GrubRebuild.{run_grub_mkconfig}

unfoldable pub build_tmp_path : FilePath → FilePath
build_tmp_path target =
    or_default (codes "etc" ∷ codes "default" ∷ []) (parent target)
    ++ ((or_default (codes "grub") (file_name target) ++ codes ".bootcontrol.tmp") ∷ [])

unfoldable pub is_assignment_for_key : Text → Text → Bool
is_assignment_for_key line key = starts_with (key ++ (b'=' ∷ [])) (trim_start line)

unfoldable pub build_assignment_line : Text → Text → Text
build_assignment_line key value =
    if contains (b' ' ∷ []) value || contains (b'\t' ∷ []) value || is_empty value
    then key ++ (b'=' ∷ b'"' ∷ (value ++ (b'"' ∷ [])))
    else key ++ (b'=' ∷ value)

abbrev one_more : Option ℕ → Option ℕ
one_more none = none
one_more (some i) = some (suc i)

abbrev last_of : Option ℕ → Bool → Option ℕ
last_of none true = some 0
last_of none false = none
last_of (some i) here = some (suc i)

-- `iter().rposition(..)`: the index of the last line that assigns the key.
unfoldable pub rposition : (Text → Bool) → List Text → Option ℕ
rposition test [] = none
rposition test (l ∷ ls) = last_of (rposition test ls) (test l)

-- `config.lines[index] = new_line`
unfoldable pub set_line : List Text → ℕ → Text → List Text
set_line [] index new_line = []
set_line (l ∷ ls) zero new_line = new_line ∷ ls
set_line (l ∷ ls) (suc index) new_line = l ∷ set_line ls index new_line

pub place_line : List Text → Text → Option ℕ → List Text
place_line ls new_line (some index) = set_line ls index new_line
place_line ls new_line none = ls ++ (new_line ∷ [])

-- The body of the loop over the changes. The map is not read again, so only the lines are kept.
unfoldable pub apply_change : List Text → Text × Text → List Text
unfolding place_line
apply_change ls (key, value) =
    place_line ls (build_assignment_line key value)
      (rposition (λ line. is_assignment_for_key line key) ls)

unfoldable pub apply_changes : List Text → List (Text × Text) → List Text
apply_changes ls [] = ls
apply_changes ls (change ∷ changes) = apply_changes (apply_change ls change) changes

abbrev newline : Text
newline = b'\n' ∷ []

unfoldable pub new_content : List Text → Text
new_content ls = join newline ls ++ newline

abbrev failed : Text → Text → BootControlError
failed context e = esp_scan_failed (context ++ e)

unfoldable pub write_file_atomically : FilePath → FilePath → List Text → Io (Unit {0})
unfolding new_content
write_file_atomically tmp_path target ls = do
  create_file (failed (codes "temp file creation failed: ")) tmp_path
  write_all (failed (codes "temp file write failed: ")) tmp_path (new_content ls)
  attempt (failed (codes "fsync failed: ")) (sync tmp_path)
  rename_file (failed (codes "atomic rename failed: ")) tmp_path target

-- What `prewrite` is given.
pub record LockedGrubState : Type 0 where
  pub bytes : Text
  pub mode : Text

-- `{:04o}` of the permission bits
unfoldable pub octal4 : ℕ → Text
octal4 n = let s = digits_from 8 decimal_digit (suc n) n [] in pad_zeros (4 - length s) s

-- `Flock::lock` without blocking.
unfoldable pub take_lock : FilePath → Io (Unit {0})
take_lock path w =
    if w.busy path
    then (err (concurrent_modification (display_path path)), w)
    else attempt (λ e. esp_scan_failed (codes "flock error: " ++ e)) (lock path) w

-- Step 4, and the parser.
unfoldable pub checked_config : (Text → Text) → Text → Text → Result GrubConfig
checked_config digest etag content =
    if not (verify_etag digest etag content)
    then err (state_mismatch etag (compute_etag digest content))
    else parse_grub_config content

locked_mode : FilePath → Io Text
locked_mode path w =
    (attempt (failed (codes "failed to read locked GRUB file metadata: ")) (metadata path)
        >> pure (octal4 (w.mode path % 4096)))
      w

module _ (sys : System) where
  unfoldable pub set_grub_values_with_prewrite :
      FilePath
      → List (Text × Text)
      → Text
      → FilePath
      → FilePath
      → (LockedGrubState → Io (Unit {0}))
      → Io (Unit {0})
  unfolding take_lock locked_mode
  set_grub_values_with_prewrite path changes etag failsafe_cfg grub_cfg_path prewrite = do
    attempt esp_scan_failed (open_rw path)
    take_lock path
    content ← read_to_string esp_scan_failed path
    config ← lift (checked_config sys.digest etag content)
    mode ← locked_mode path
    prewrite (record { bytes = content; mode = mode })
    write_file_atomically (build_tmp_path path) path (apply_changes config.lines changes)
    refresh_failsafe_entry failsafe_cfg
    run_grub_mkconfig sys grub_cfg_path

  unfoldable pub set_grub_value_with_prewrite :
      FilePath
      → Text
      → Text
      → Text
      → FilePath
      → FilePath
      → (LockedGrubState → Io (Unit {0}))
      → Io (Unit {0})
  set_grub_value_with_prewrite path key value =
      set_grub_values_with_prewrite path ((key, value) ∷ [])

  unfoldable pub set_grub_value :
      FilePath → Text → Text → Text → FilePath → FilePath → Io (Unit {0})
  unfolding set_grub_value_with_prewrite
  set_grub_value path key value etag failsafe_cfg grub_cfg_path =
      set_grub_value_with_prewrite path key value etag failsafe_cfg grub_cfg_path (λ _. pure tt)

  unfoldable pub read_grub_config : FilePath → Io (TextMap Text × Text)
  read_grub_config path = do
    content ← read_to_string esp_scan_failed path
    config ← lift (parse_grub_config content)
    pure (config.map, compute_etag sys.digest content)

  unfoldable pub read_grub_settings : FilePath → Io (GrubSettings × Text)
  read_grub_settings path = do
    content ← read_to_string esp_scan_failed path
    settings ← lift (parse_grub_settings content)
    pure (settings, compute_etag sys.digest content)

  unfoldable pub fetch_etag : FilePath → Io Text
  fetch_etag path = do
    content ← read_to_string esp_scan_failed path
    pure (compute_etag sys.digest content)

-- The four changes of `set_grub_settings_with_prewrite`.
abbrev pub settings_changes : GrubSettings → List (Text × Text)
settings_changes settings =
    (codes "GRUB_TIMEOUT", display settings.timeout_seconds)
    ∷ (codes "GRUB_TIMEOUT_STYLE", as_str settings.timeout_style)
    ∷ (codes "GRUB_DISABLE_OS_PROBER", bool_text (not settings.detect_other_os))
    ∷ (codes "GRUB_DISABLE_RECOVERY", bool_text (not settings.generate_recovery_entries))
    ∷ []

module _ (sys : System) where
  unfoldable pub set_grub_settings_with_prewrite :
      FilePath
      → GrubSettings
      → Text
      → FilePath
      → FilePath
      → (LockedGrubState → Io (Unit {0}))
      → Io (Unit {0})
  set_grub_settings_with_prewrite path settings etag failsafe_cfg grub_cfg_path prewrite = do
    lift (validate_grub_settings settings)
    set_grub_values_with_prewrite sys path (settings_changes settings) etag failsafe_cfg
        grub_cfg_path prewrite

  unfoldable pub set_grub_settings :
      FilePath → GrubSettings → Text → FilePath → FilePath → Io (Unit {0})
  unfolding set_grub_settings_with_prewrite
  set_grub_settings path settings etag failsafe_cfg grub_cfg_path =
      set_grub_settings_with_prewrite path settings etag failsafe_cfg grub_cfg_path (λ _. pure tt)
