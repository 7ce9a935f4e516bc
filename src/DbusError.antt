-- ===== src/DbusError.antt =====
-- crates/daemon/src/dbus_error.rs, and the texts of crates/daemon/src/snapshot.rs: the errors that
-- cross the D-Bus. `debug` is the format `{:?}` of a string.
use boot_control.Prelude.{◌++◌}
use boot_control.Text.{Text, codes}
use boot_control.Text.Numbers.{display}
use boot_control.Error.{BootControlError, display_error}
use boot_control.Store.{display_path}
use boot_control.Snapshots.{SnapshotError}

-- The name of an error on the bus.
pub data DaemonErrorName : Type 0 where
  state_mismatch key_not_found malformed_value complex_bash_detected polkit_denied : DaemonErrorName
  esp_scan_failed security_policy_violation concurrent_modification tool_not_found : DaemonErrorName
  nvram_backup_failed mok_key_not_found signing_failed key_generation_failed : DaemonErrorName
  nvram_write_failed immutable_distro_detected snapshot_not_found snapshot_corrupt : DaemonErrorName
  snapshot_failed : DaemonErrorName

-- Every error has a message.
pub record DaemonError : Type 0 where
  pub name : DaemonErrorName
  pub message : Text

unfoldable pub name_of : BootControlError → DaemonErrorName
name_of (BootControlError.state_mismatch _ _) = DaemonErrorName.state_mismatch
name_of (BootControlError.key_not_found _) = DaemonErrorName.key_not_found
name_of (BootControlError.malformed_value _ _) = DaemonErrorName.malformed_value
name_of (BootControlError.complex_bash_detected _) = DaemonErrorName.complex_bash_detected
name_of BootControlError.polkit_denied = DaemonErrorName.polkit_denied
name_of (BootControlError.esp_scan_failed _) = DaemonErrorName.esp_scan_failed
name_of (BootControlError.security_policy_violation _) = DaemonErrorName.security_policy_violation
name_of (BootControlError.concurrent_modification _) = DaemonErrorName.concurrent_modification
name_of (BootControlError.tool_not_found _) = DaemonErrorName.tool_not_found
name_of (BootControlError.nvram_backup_failed _) = DaemonErrorName.nvram_backup_failed
name_of (BootControlError.mok_key_not_found _) = DaemonErrorName.mok_key_not_found
name_of (BootControlError.signing_failed _) = DaemonErrorName.signing_failed
name_of (BootControlError.key_generation_failed _) = DaemonErrorName.key_generation_failed
name_of (BootControlError.nvram_write_failed _) = DaemonErrorName.nvram_write_failed
name_of (BootControlError.immutable_distro_detected _) = DaemonErrorName.immutable_distro_detected

unfoldable pub to_daemon_error : BootControlError → DaemonError
to_daemon_error e = record { name = name_of e; message = display_error e }

unfoldable pub snapshot_name_of : SnapshotError → DaemonErrorName
snapshot_name_of (SnapshotError.not_found _) = DaemonErrorName.snapshot_not_found
snapshot_name_of (SnapshotError.schema_upgrade_required _) = DaemonErrorName.snapshot_corrupt
snapshot_name_of (SnapshotError.serde _) = DaemonErrorName.snapshot_corrupt
snapshot_name_of (SnapshotError.corrupt _) = DaemonErrorName.snapshot_corrupt
snapshot_name_of (SnapshotError.concurrent_modification _) = DaemonErrorName.concurrent_modification
snapshot_name_of (SnapshotError.state_mismatch _ _) = DaemonErrorName.state_mismatch
snapshot_name_of (SnapshotError.io _) = DaemonErrorName.snapshot_failed
snapshot_name_of (SnapshotError.invalid_id _) = DaemonErrorName.snapshot_failed
snapshot_name_of (SnapshotError.unmanaged_target _) = DaemonErrorName.snapshot_failed

module _ (debug : Text → Text) where
  -- `Display for SnapshotError`
  unfoldable pub display_snapshot_error : SnapshotError → Text
  display_snapshot_error (SnapshotError.io e) = codes "snapshot io error: " ++ e
  display_snapshot_error (SnapshotError.serde e) = codes "snapshot manifest parse error: " ++ e
  display_snapshot_error (SnapshotError.not_found id) = codes "snapshot not found: " ++ id
  display_snapshot_error (SnapshotError.schema_upgrade_required v) =
      codes "snapshot schema_version " ++ (display v ++ codes " not supported by this daemon")
  display_snapshot_error (SnapshotError.invalid_id id) =
      codes "invalid snapshot id "
      ++ (debug id
          ++ codes ": must be a single directory name, without path separators, '.' or '..'")
  display_snapshot_error (SnapshotError.unmanaged_target p) =
      codes "snapshot manifest targets " ++ (p ++ codes ", which is not a path this daemon manages")
  display_snapshot_error (SnapshotError.concurrent_modification path) =
      codes "snapshot restore target is locked by another writer: " ++ display_path path
  display_snapshot_error (SnapshotError.state_mismatch expected actual) =
      codes "snapshot restore ETag mismatch: expected "
      ++ (expected ++ (codes ", actual " ++ actual))
  display_snapshot_error (SnapshotError.corrupt reason) =
      codes "snapshot integrity check failed: " ++ reason

  unfoldable pub snapshot_to_daemon_error : SnapshotError → DaemonError
  snapshot_to_daemon_error e = record {
    name = snapshot_name_of e;
    message = display_snapshot_error e;
  }
