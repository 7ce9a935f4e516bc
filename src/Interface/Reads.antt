-- ===== src/Interface/Reads.antt =====
-- crates/daemon/src/interface.rs: the methods that only read. The JSON of what they return is the
-- argument `wire`; the listing of the loader entries' directory is `listing`.
use boot_control.Prelude.{ℕ, Bool, ◌||◌, ◌++◌, List, [], ◌∷◌}
use boot_control.Text.{Text, codes, text_eq, trim}
use boot_control.Error.{ResultOf, ok, err}
use boot_control.Map.{TextMap}
use boot_control.DbusError.{DaemonErrorName, DaemonError, snapshot_to_daemon_error}
use boot_control.GrubDefault.{list_menu_entries}
use boot_control.GrubManager
use boot_control.GrubManager.{fetch_etag}
use boot_control.GrubMenu.{GrubMenuEntry}
use boot_control.GrubSettings.{as_str}
use boot_control.Snapshots.{SnapshotInfo}
use boot_control.Snapshots.Retention.{list}
use boot_control.SystemdBoot.{LoaderEntry}
use boot_control.SystemdBootManager.{
  EntryRecord, read_all_entries, read_entry, read_loader_conf_default, fetch_loader_conf_etag,
}
use boot_control.Store.{FilePath, World, ◌>>=◌, lift, pure}
use boot_control.Interface.{Manager, Host, Handler, failing, map_err, or_daemon}

-- A snapshot as the client sees it.
pub record SnapshotInfoDto : Type 0 where
  pub id : Text
  pub op : Text
  pub ts : Text
  pub audit_job_id : Text

-- `serde_json::to_string` of the rows; a menu entry's and a record's have the fields that they have.
pub record Wire : Type 0 where
  pub menu : List GrubMenuEntry → ResultOf Text Text
  pub entries : List EntryRecord → ResultOf Text Text
  pub entry : EntryRecord → ResultOf Text Text
  pub snapshots : List SnapshotInfoDto → ResultOf Text Text

unfoldable pub not_serialized : DaemonErrorName → Text → DaemonError
not_serialized name e = record { name = name; message = codes "serialization error: " ++ e }

unfoldable pub snapshot_dtos : List SnapshotInfo → List SnapshotInfoDto
snapshot_dtos [] = []
snapshot_dtos (s ∷ snaps) =
    record { id = s.id; op = s.op; ts = s.ts; audit_job_id = s.audit_job_id } ∷ snapshot_dtos snaps

-- `unwrap_or_default`
abbrev text_or_default : {E : Type 0} → ResultOf E Text → Text
text_or_default (ok t) = t
text_or_default (err _) = []

-- The record that `read_loader_entry` makes of an entry.
unfoldable pub entry_row : Text → Text → LoaderEntry → Text → EntryRecord
entry_row id default_id entry etag = record {
  id = id;
  title = entry.title;
  linux = entry.linux;
  initrd = entry.initrd;
  options = entry.options;
  machine_id = entry.machine_id;
  etag = etag;
  is_default = text_eq (trim default_id) id || text_eq (trim default_id) (id ++ codes ".conf");
}

module _ (host : Host) (manager : Manager) (wire : Wire)
    (listing : FilePath → World → ResultOf Text (List Text)) where
  unfoldable pub read_config : Handler (TextMap Text × Text)
  read_config = or_daemon (GrubManager.read_grub_config host.sys manager.grub_path)

  unfoldable pub read_settings : Handler (ℕ × Text × Bool × Bool × Text)
  read_settings = do
    read ← or_daemon (GrubManager.read_grub_settings host.sys manager.grub_path)
    let settings = read.0
    pure (
      settings.timeout_seconds,
      as_str settings.timeout_style,
      settings.detect_other_os,
      settings.generate_recovery_entries,
      read.1,
    )

  unfoldable pub get_etag : Handler Text
  get_etag = or_daemon (fetch_etag host.sys manager.grub_path)

  unfoldable pub list_grub_entries : Handler (Text × Text)
  list_grub_entries = do
    read ← or_daemon (list_menu_entries host.sys manager.grub_cfg_path)
    json ← lift (map_err (not_serialized DaemonErrorName.esp_scan_failed) (wire.menu read.0))
    pure (json, read.1)

  unfoldable pub list_loader_entries : Handler Text
  list_loader_entries = do
    records ← or_daemon (
        read_all_entries host.unicode host.sys.digest host.debug listing manager.loader_entries_dir
          manager.loader_conf_path)
    lift (map_err (not_serialized DaemonErrorName.esp_scan_failed) (wire.entries records))

  unfoldable pub read_loader_entry : Text → Handler (Text × Text)
  read_loader_entry id = do
    read ←
        or_daemon (read_entry host.unicode host.sys.digest host.debug manager.loader_entries_dir id)
    λ w.
        let default_id =
          text_or_default (read_loader_conf_default host.unicode manager.loader_conf_path w).0 in
        (lift (
              map_err (not_serialized DaemonErrorName.esp_scan_failed)
                (wire.entry (entry_row id default_id read.0 read.1)))
            >>= λ json. pure (json, read.1))
          w

  unfoldable pub get_loader_conf_etag : Handler Text
  get_loader_conf_etag =
      or_daemon
        (fetch_loader_conf_etag host.unicode host.sys.digest host.debug manager.loader_conf_path)

  unfoldable pub list_snapshots : Handler Text
  list_snapshots = do
    snaps ← failing (snapshot_to_daemon_error host.debug) (list host.json manager.snapshot_root)
    lift (
        map_err (not_serialized DaemonErrorName.snapshot_failed)
          (wire.snapshots (snapshot_dtos snaps)))
