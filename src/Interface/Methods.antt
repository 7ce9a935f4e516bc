-- ===== src/Interface/Methods.antt =====
-- crates/daemon/src/interface.rs: the other methods that write, and what the reads return.
use boot_control.Prelude.{ℕ, true, Option, none, some, List, [], ◌∷◌, ◌++◌, if◌then◌else◌}
use boot_control.Text.{Text, codes, starts_with}
use boot_control.Error.{BootControlError, immutable_distro_detected, Result, ResultOf, ok, err}
use boot_control.Audit.{Phase, AuditEvent, restore_snapshot_id}
use boot_control.DbusError.{DaemonError, to_daemon_error, snapshot_to_daemon_error}
use boot_control.Host.{ImmutableDistro, display_distro}
use boot_control.Polkit
use boot_control.GrubRebuild.{run_grub_mkconfig}
use boot_control.RpmOstree.{kargs_append, kargs_delete, kargs_read}
use boot_control.Snapshots.Restore.{restore}
use boot_control.SystemdBootManager.{set_loader_default, rename_loader_entry}
use boot_control.UkiManager.{add_kernel_param, remove_kernel_param, read_kernel_cmdline}
use boot_control.Uefi.{Bytes, parse_boot_order, parse_single_u16_var}
use boot_control.Uefi.Order.{
  set_boot_order, set_boot_next, clear_boot_next, boot_order_name, boot_next_name,
}
use boot_control.Store.{FilePath, display_path, World, Io, ◌>>=◌, lift}
use boot_control.Interface.{
  Manager, Host, Caller, Handler, map_err, failing, or_daemon, new_job_id, authorized,
  authorize_write, probe_distro, managed_paths, emit, stderr_tail, exit_code,
}

-- `root.join(id).display()`: an absolute `id` takes the place of the root.
abbrev shown_join : FilePath → Text → Text
shown_join root id = if starts_with (codes "/") id then id else display_path root ++ (b'/' ∷ id)

unfoldable pub restore_event :
    FilePath → Text → ℕ → Text → Text → Phase → Option ℕ → Text → AuditEvent
restore_event root id caller_uid expected_etag job_id phase exit message = record {
  message_id = restore_snapshot_id;
  operation = codes "restore_snapshot";
  phase = phase;
  target_paths = shown_join root id ∷ [];
  etag_before = some expected_etag;
  etag_after = none;
  snapshot_id = some id;
  exit_code = exit;
  caller_uid = caller_uid;
  polkit_action = Polkit.restore_snapshot;
  job_id = job_id;
  stderr_tail = message;
}

-- The choice by the kind of host: rpm-ostree, another that is refused, or a host to write on.
unfoldable pub dispatch :
    Option ImmutableDistro → Io (Unit {0}) → Io (Unit {0}) → Handler (Unit {0})
dispatch none delegate write = or_daemon write
dispatch (some ImmutableDistro.rpm_ostree) delegate write = or_daemon delegate
dispatch (some other) delegate write =
    lift (err (to_daemon_error (immutable_distro_detected (display_distro other))))

module _ (host : Host) (manager : Manager) where
  -- From the job's id to the end of `restore_snapshot`.
  unfoldable pub audited_restore : Text → ℕ → Text → Handler (Unit {0})
  audited_restore id caller_uid expected_etag w =
      let job_id = new_job_id (host.nanos w) host.pid in
      let event = restore_event manager.snapshot_root id caller_uid expected_etag job_id in
      let (result, w') =
        failing (snapshot_to_daemon_error host.debug)
          (restore host.pid host.sys.digest host.debug host.json manager.snapshot_root id
            (managed_paths manager) expected_etag)
          (emit (event Phase.started none []) w) in
      let tail = stderr_tail host.display_error result in
      (result, emit (event Phase.completed (some (exit_code result)) tail) w')

abbrev some_ok : {E A : Type 0} → ResultOf E A → ResultOf E (Option A)
some_ok (ok a) = ok (some a)
some_ok (err e) = err e

-- The answer of `get_boot_next`, none for -1.
unfoldable pub boot_next_of : Result Bytes → ResultOf DaemonError (Option ℕ)
boot_next_of (ok payload) =
    some_ok (map_err to_daemon_error (parse_single_u16_var boot_next_name payload))
boot_next_of (err (BootControlError.esp_scan_failed _)) = ok none
boot_next_of (err e) = err (to_daemon_error e)

module _ (host : Host) (caller : Caller) (manager : Manager) where
  unfoldable pub rebuild_grub_config : Handler (Unit {0})
  rebuild_grub_config = do
    caller_uid ← authorize_write host caller Polkit.rewrite_grub
    or_daemon (run_grub_mkconfig host.sys manager.grub_cfg_path)

  unfoldable pub set_default_entry : Text → Text → Handler (Unit {0})
  set_default_entry id etag = do
    caller_uid ← authorize_write host caller Polkit.write_bootloader
    or_daemon (
        set_loader_default host.unicode host.sys.digest host.debug manager.loader_conf_path id etag)

  unfoldable pub rename_entry : Text → Text → Text → Handler (Unit {0})
  rename_entry id new_title etag = do
    caller_uid ← authorize_write host caller Polkit.write_bootloader
    or_daemon (
        rename_loader_entry host.unicode host.sys.digest host.debug manager.loader_entries_dir id
          new_title etag)

  unfoldable pub add_param_request : Text → Text → Handler (Unit {0})
  add_param_request param etag = do
    caller_uid ← authorized host caller Polkit.rewrite_grub
    λ w.
        dispatch (probe_distro host w) (kargs_append host.sys param etag)
          (add_kernel_param host.sys host.tmp_name manager.kernel_cmdline_path param etag) w

  unfoldable pub remove_param_request : Text → Text → Handler (Unit {0})
  remove_param_request param etag = do
    caller_uid ← authorized host caller Polkit.rewrite_grub
    λ w.
        dispatch (probe_distro host w) (kargs_delete host.sys param etag)
          (remove_kernel_param host.sys host.tmp_name manager.kernel_cmdline_path param etag) w

  unfoldable pub restore_request : Text → Text → Handler (Unit {0})
  restore_request id expected_etag = do
    caller_uid ← authorize_write host caller Polkit.restore_snapshot
    audited_restore host manager id caller_uid expected_etag

  unfoldable pub set_order_request : List ℕ → Handler (Unit {0})
  set_order_request new_order = do
    caller_uid ← authorize_write host caller Polkit.write_bootloader
    or_daemon (set_boot_order host.vars new_order)

  unfoldable pub set_next_request : ℕ → Handler (Unit {0})
  set_next_request index = do
    caller_uid ← authorize_write host caller Polkit.write_bootloader
    or_daemon (set_boot_next host.vars index true)

  unfoldable pub clear_next_request : Handler (Unit {0})
  clear_next_request = do
    caller_uid ← authorize_write host caller Polkit.write_bootloader
    or_daemon (clear_boot_next host.vars)

  unfoldable pub read_cmdline : Handler (List Text × Text)
  read_cmdline w = elim (probe_distro host w) [
    | some ImmutableDistro.rpm_ostree ↦ or_daemon (kargs_read host.sys) w
    | _ ↦ or_daemon (read_kernel_cmdline host.sys host.tmp_name manager.kernel_cmdline_path) w
  ]

  unfoldable pub get_boot_order : World → ResultOf DaemonError (List ℕ)
  get_boot_order w = elim (host.vars.read_global boot_order_name w) [
    | ok payload ↦ map_err to_daemon_error (parse_boot_order payload)
    | err e ↦ err (to_daemon_error e)
  ]

  unfoldable pub get_boot_next : World → ResultOf DaemonError (Option ℕ)
  get_boot_next w = boot_next_of (host.vars.read_global boot_next_name w)
