-- ===== src/UkiManager.antt =====
-- crates/daemon/src/uki_manager.rs: changing /etc/kernel/cmdline. The `tempfile` crate is seen as the
-- name that it chooses; it takes its file away when an error drops it.
pub mod Atomic
pub mod Params
use boot_control.Prelude.{not, Option, none, some, List, [], ◌∷◌, ◌++◌, if◌then◌else◌}
use boot_control.Text.{Text, codes}
use boot_control.Error.{BootControlError, state_mismatch, esp_scan_failed, Result, ok, err}
use boot_control.Hash.{compute_etag, verify_etag}
use boot_control.Cmdline.{parse_cmdline, add_param, remove_param, validate_kernel_param}
use boot_control.Failsafe.{or_default}
use boot_control.GrubManager.{take_lock}
use boot_control.Store.{
  FilePath, parent, create, remove, open_rw, metadata, sync, World, System, Io, ◌>>=◌, ◌>>◌, pure,
  lift, attempt, read_to_string, write_all, rename_file, set_permissions, update, update_mode,
}

abbrev failed : Text → Text → BootControlError
failed context e = esp_scan_failed (context ++ e)

-- Step 4.
unfoldable pub check_cmdline_etag : (Text → Text) → Text → Text → Result (Unit {0})
check_cmdline_etag digest expected_etag content =
    if not (verify_etag digest expected_etag content)
    then err (state_mismatch expected_etag (compute_etag digest content))
    else ok tt

-- `NamedTempFile::drop`: the file is removed, if the system lets it.
unfoldable pub drop_temp : FilePath → World → World
drop_temp tmp w = elim (w.fault (remove tmp)) [
  | none ↦ record w { files = update w.files tmp none }
  | some e ↦ w
]

abbrev dropping : FilePath → Result (Unit {0}) → World → Result (Unit {0}) × World
dropping tmp (ok u) w = (ok u, w)
dropping tmp (err e) w = (err e, drop_temp tmp w)

-- A program that owns the temporary file.
unfoldable pub with_temp : FilePath → Io (Unit {0}) → Io (Unit {0})
with_temp tmp m w = let (r, w') = m w in dropping tmp r w'

-- Step 6, from the mode on.
unfoldable pub write_temp : FilePath → FilePath → Text → Io (Unit {0})
write_temp path tmp new_content w =
    (do
      attempt (failed (codes "read cmdline metadata failed: ")) (metadata path)
      set_permissions (failed (codes "set tmp file mode failed: ")) tmp (w.mode path)
      write_all (failed (codes "write tmp file failed: ")) tmp new_content
      attempt (failed (codes "fsync failed: ")) (sync tmp)
      rename_file (failed (codes "atomic rename failed: ")) tmp path)
      w

-- A new and empty file, for its owner alone (0600).
abbrev pub with_new : FilePath → World → World
with_new tmp w = record w {
  files = update w.files tmp (some []);
  mode = update_mode w.mode tmp 384;
}

module _ (sys : System) (tmp_name : World → Text) where
  -- The name that `tempfile` chooses in a directory.
  abbrev pub tmp_path : FilePath → World → FilePath
  tmp_path dir w = dir ++ ((codes ".cmdline.bootcontrol." ++ tmp_name w) ∷ [])

  unfoldable pub create_cmdline_temp : FilePath → Io FilePath
  create_cmdline_temp dir w = elim (w.fault (create (tmp_path dir w))) [
    | none ↦ (ok (tmp_path dir w), with_new (tmp_path dir w) w)
    | some e ↦ (err (esp_scan_failed (codes "create unique tmp file failed: " ++ e)), w)
  ]

  unfoldable pub atomic_cmdline_update : FilePath → Text → (Text → Result Text) → Io (Unit {0})
  atomic_cmdline_update path expected_etag transform = do
    attempt (failed (codes "open failed: ")) (open_rw path)
    take_lock path
    content ← read_to_string (failed (codes "read error: ")) path
    lift (check_cmdline_etag sys.digest expected_etag content)
    new_content ← lift (transform content)
    tmp ← create_cmdline_temp (or_default (codes "etc" ∷ codes "kernel" ∷ []) (parent path))
    with_temp tmp (write_temp path tmp new_content)

  unfoldable pub add_kernel_param : FilePath → Text → Text → Io (Unit {0})
  add_kernel_param path param expected_etag = do
    lift (validate_kernel_param param)
    atomic_cmdline_update path expected_etag (λ content. add_param content param)

  unfoldable pub remove_kernel_param : FilePath → Text → Text → Io (Unit {0})
  remove_kernel_param path param expected_etag =
      atomic_cmdline_update path expected_etag (λ content. remove_param content param)

  unfoldable pub read_kernel_cmdline : FilePath → Io (List Text × Text)
  read_kernel_cmdline path = do
    content ← read_to_string (failed (codes "cannot read kernel cmdline: ")) path
    pure (parse_cmdline content, compute_etag sys.digest content)

  unfoldable pub fetch_cmdline_etag : FilePath → Io Text
  fetch_cmdline_etag path = do
    content ← read_to_string (failed (codes "cannot read kernel cmdline for ETag: ")) path
    pure (compute_etag sys.digest content)
