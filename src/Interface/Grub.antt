-- ===== src/Interface/Grub.antt =====
-- crates/daemon/src/interface.rs: the methods that change the GRUB configuration, with the snapshot
-- that each takes under the lock and its audit trail.
use boot_control.Prelude.{ℕ, Bool, Option, none, some, List, [], ◌∷◌, ◌++◌, if◌then◌else◌}
use boot_control.Text.{Text, codes, text_eq}
use boot_control.Error.{BootControlError, malformed_value, esp_scan_failed, Result, ok, err}
use boot_control.Audit.{Phase, AuditEvent, set_grub_value_id}
use boot_control.DbusError.{display_snapshot_error}
use boot_control.Polkit.{rewrite_grub}
use boot_control.Security.{validate_grub_payload}
use boot_control.Snapshots.{
  SnapshotError, SnapshotInfo, SnapshotRequest, create_with_captured_files,
}
use boot_control.GrubSettings.{GrubTimeoutStyle, GrubSettings, validate_grub_settings}
use boot_control.GrubManager.{
  LockedGrubState, settings_changes, set_grub_value_with_prewrite, set_grub_settings_with_prewrite,
}
use boot_control.GrubDefault.{set_grub_default_with_prewrite}
use boot_control.Store.{FilePath, display_path, Io, ◌>>=◌, ◌>>◌, lift, pure}
use boot_control.Interface.{
  Manager, Host, Caller, Handler, failing, or_daemon, new_job_id, authorize_rewrite_request, emit,
  stderr_tail, exit_code,
}

-- The events of one call: they differ in the phase, the snapshot, the exit code and the message.
unfoldable pub grub_event :
    FilePath → Text → ℕ → Text → Text → Phase → Option Text → Option ℕ → Text → AuditEvent
grub_event grub_path op caller_uid etag job_id phase snapshot_id exit message = record {
  message_id = set_grub_value_id;
  operation = op;
  phase = phase;
  target_paths = display_path grub_path ∷ [];
  etag_before = some etag;
  etag_after = none;
  snapshot_id = snapshot_id;
  exit_code = exit;
  caller_uid = caller_uid;
  polkit_action = rewrite_grub;
  job_id = job_id;
  stderr_tail = message;
}

abbrev pub snapshot_failed : (Text → Text) → SnapshotError → BootControlError
snapshot_failed debug e =
    esp_scan_failed (codes "snapshot failed: " ++ display_snapshot_error debug e)

-- The timeout style that a text names.
unfoldable pub timeout_style_of : Text → Result GrubTimeoutStyle
timeout_style_of s =
    if text_eq s (codes "menu")
    then ok GrubTimeoutStyle.menu
    else if text_eq s (codes "countdown")
    then ok GrubTimeoutStyle.countdown
    else if text_eq s (codes "hidden")
    then ok GrubTimeoutStyle.hidden
    else err (
        malformed_value (codes "GRUB_TIMEOUT_STYLE")
          (codes "unsupported timeout style '" ++ (s ++ codes "'")))

-- The loop over the payloads.
unfoldable pub check_payloads : List (Text × Text) → Io (Unit {0})
check_payloads [] = pure tt
check_payloads (p ∷ ps) = lift (validate_grub_payload p.0 p.1) >> check_payloads ps

module _ (host : Host) (manager : Manager) where
  unfoldable pub snapshot_request : Text → ℕ → Text → Text → SnapshotRequest
  snapshot_request op caller_uid etag job_id = record {
    root = manager.snapshot_root;
    op = op;
    polkit_action = rewrite_grub;
    caller_uid = caller_uid;
    etag_before = etag;
    files = manager.grub_path ∷ [];
    audit_job_id = job_id;
  }

  -- The end of the closure: `snapshot_id = Some(..)`, and the event.
  unfoldable pub note_snapshot : Text → ℕ → Text → Text → Text → Io (Unit {0})
  note_snapshot op caller_uid etag job_id id w =
      let event =
        grub_event manager.grub_path op caller_uid etag job_id Phase.snapshot_taken (some id) none
          [] in
      (ok tt, emit event (record w { shared = some id }))

  -- The start of the closure: the snapshot of the locked bytes.
  unfoldable pub take_snapshot : Text → ℕ → Text → Text → LockedGrubState → Io SnapshotInfo
  take_snapshot op caller_uid etag job_id locked = failing (snapshot_failed host.debug) (
      create_with_captured_files host.sys.digest host.json
        (snapshot_request op caller_uid etag job_id)
        (record { path = manager.grub_path; bytes = locked.bytes; mode = locked.mode } ∷ []))

  -- The closure that runs under the lock.
  unfoldable pub snapshot_before : Text → ℕ → Text → Text → LockedGrubState → Io (Unit {0})
  snapshot_before op caller_uid etag job_id locked = do
    info ← take_snapshot op caller_uid etag job_id locked
    note_snapshot op caller_uid etag job_id info.id

  -- From the job's id to the end of the method, around the manager's operation.
  unfoldable pub audited :
      Text → ℕ → Text → ((LockedGrubState → Io (Unit {0})) → Io (Unit {0})) → Handler (Unit {0})
  audited op caller_uid etag write w =
      let job_id = new_job_id (host.nanos w) host.pid in
      let event = grub_event manager.grub_path op caller_uid etag job_id in
      let started = record (emit (event Phase.started none none []) w) { shared = none } in
      let (result, w') = or_daemon (write (snapshot_before op caller_uid etag job_id)) started in
      let tail = stderr_tail host.display_error result in
      (result, emit (event Phase.completed w'.shared (some (exit_code result)) tail) w')

module _ (host : Host) (caller : Caller) (manager : Manager) where
  unfoldable pub set_grub_value : Text → Text → Text → Handler (Unit {0})
  set_grub_value key value etag = do
    caller_uid ← authorize_rewrite_request host caller
    or_daemon (lift (validate_grub_payload key value))
    audited host manager (codes "set_grub_value") caller_uid etag (
        set_grub_value_with_prewrite host.sys manager.grub_path key value etag
          manager.failsafe_cfg_path manager.grub_cfg_path)

  unfoldable pub set_grub_default : Text → Text → Text → Handler (Unit {0})
  set_grub_default selected_path menu_etag config_etag = do
    caller_uid ← authorize_rewrite_request host caller
    or_daemon (lift (validate_grub_payload (codes "GRUB_DEFAULT") selected_path))
    audited host manager (codes "set_grub_default") caller_uid config_etag (
        set_grub_default_with_prewrite host.sys manager.grub_path manager.grub_cfg_path
          selected_path menu_etag config_etag manager.failsafe_cfg_path)

  abbrev settings_from : ℕ → GrubTimeoutStyle → Bool → Bool → GrubSettings
  settings_from timeout_seconds style detect_other_os generate_recovery_entries = record {
    timeout_seconds = timeout_seconds;
    timeout_style = style;
    detect_other_os = detect_other_os;
    generate_recovery_entries = generate_recovery_entries;
  }

  unfoldable pub set_grub_settings : ℕ → Text → Bool → Bool → Text → Handler (Unit {0})
  set_grub_settings timeout_seconds timeout_style detect_other_os generate_recovery_entries etag =
      do
        caller_uid ← authorize_rewrite_request host caller
        style ← or_daemon (lift (timeout_style_of timeout_style))
        let settings = settings_from timeout_seconds style detect_other_os generate_recovery_entries
        or_daemon (lift (validate_grub_settings settings))
        or_daemon (check_payloads (settings_changes settings))
        audited host manager (codes "set_grub_settings") caller_uid etag (
            set_grub_settings_with_prewrite host.sys manager.grub_path settings etag
              manager.failsafe_cfg_path manager.grub_cfg_path)
