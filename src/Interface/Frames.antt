-- ===== src/Interface/Frames.antt =====
-- What the methods of the bus leave alone: authorizing a caller, and taking a snapshot.
use boot_control.Prelude.{ℕ, false, List, [], ◌∷◌, ◌≡◌, ◌≢◌, refl}
use boot_control.Text.{Text, codes}
use boot_control.Error.{ok, ok_or}
use boot_control.GrubManager.{LockedGrubState}
use boot_control.Polkit.{rewrite_grub}
use boot_control.Snapshots.{
  SnapshotRequest, CapturedFile, create_with_captured_files, create_captured_at, write_captured,
}
use boot_control.Snapshots.Steps.{path_starts_with-join}
use boot_control.Store.{FilePath, lift}
use boot_control.Store.Beneath.{
  path_starts_with-longer, beneath-ne, KeepsAt-create_dir_all, KeepsAt-make_dir, KeepsAt-write_file,
}
use boot_control.Store.Observes.{Observes, Observes-bind, Observes-lift}
use boot_control.Store.Keeps.{KeepsAt, KeepsAt-lift, KeepsAt-bind}
use boot_control.Store.Paths.{join_name}
use boot_control.Store.Trees.{path_starts_with}
use boot_control.Interface.{
  Manager, Host, Caller, denied, resolve_bus_name, or_daemon, resolve_uid, authorize,
  require_writable_host, authorized, authorize_write, authorize_rewrite_request, emit,
}
use boot_control.Interface.Grub.{snapshot_request, take_snapshot, note_snapshot, snapshot_before}

module _ (host : Host) (caller : Caller) where
  resolve_uid-Observes : Observes (resolve_uid caller)
  unfolding resolve_uid
  resolve_uid-Observes =
      Observes-bind (lift (ok_or (denied (codes "missing sender in D-Bus message")) caller.sender))
        _ (Observes-lift _) λ _. Observes-lift _

  authorized-Observes : (action : Text) → Observes (authorized host caller action)
  unfolding authorized authorize
  authorized-Observes action = Observes-bind (resolve_uid caller) _ resolve_uid-Observes λ uid.
      Observes-bind (lift (resolve_bus_name caller)) _ (Observes-lift _) λ name.
        Observes-bind (or_daemon (authorize host name action)) _ (record { same = λ w. refl })
          λ _. Observes-lift (ok uid)

  pub authorize-Observes : Observes (authorize_rewrite_request host caller)
  unfolding authorize_rewrite_request authorize_write require_writable_host
  authorize-Observes =
      Observes-bind (authorized host caller rewrite_grub) _ (authorized-Observes rewrite_grub)
        λ uid.
          Observes-bind (or_daemon (require_writable_host host)) _ (record { same = λ w. refl })
            λ _. Observes-lift (ok uid)

module _ (host : Host) (manager : Manager)
    (outside : path_starts_with manager.grub_path manager.snapshot_root ≡ false) where
  abbrev grub : FilePath
  grub = manager.grub_path

  within : (id name : Text) → join_name (join_name manager.snapshot_root id) name ≢ grub
  within id name =
      beneath-ne _ grub manager.snapshot_root
        (path_starts_with-longer (join_name manager.snapshot_root id) manager.snapshot_root name
          (path_starts_with-join manager.snapshot_root id))
        outside

  write_captured-KeepsAt :
      (id : Text) (files : List CapturedFile)
      → KeepsAt grub
          (write_captured host.sys.digest host.json (join_name manager.snapshot_root id) files)
  unfolding write_captured
  write_captured-KeepsAt id [] = KeepsAt-lift grub (ok [])
  write_captured-KeepsAt id (file ∷ files) =
      KeepsAt-bind grub _ _ (KeepsAt-write_file grub _ _ file.bytes (within id _))
        λ _. KeepsAt-bind grub _ _ (write_captured-KeepsAt id files) λ _. KeepsAt-lift grub _

  create_captured_at-KeepsAt :
      (req : SnapshotRequest) (captured : List CapturedFile) (ts : Text)
      → req.root ≡ manager.snapshot_root
      → KeepsAt grub (create_captured_at host.sys.digest host.json req captured ts)
  unfolding create_captured_at
  create_captured_at-KeepsAt req captured ts e = rw e (
      KeepsAt-bind grub _ _ (KeepsAt-lift grub _) λ _.
        KeepsAt-bind grub _ _ (KeepsAt-create_dir_all grub _ _) λ _.
          KeepsAt-bind grub _ _ (KeepsAt-make_dir grub _ _) λ _.
            KeepsAt-bind grub _ _ (write_captured-KeepsAt _ captured) λ _.
              KeepsAt-bind grub _ _ (KeepsAt-lift grub _) λ _.
                KeepsAt-bind grub _ _ (KeepsAt-write_file grub _ _ _ (within _ _))
                  λ _. KeepsAt-lift grub _)

  take_snapshot-KeepsAt :
      (op : Text) (caller_uid : ℕ) (etag job_id : Text) (locked : LockedGrubState)
      → KeepsAt grub (take_snapshot host manager op caller_uid etag job_id locked)
  unfolding take_snapshot snapshot_request create_with_captured_files
  take_snapshot-KeepsAt op caller_uid etag job_id locked =
      let captured : List CapturedFile =
        record { path = grub; bytes = locked.bytes; mode = locked.mode } ∷ [] in
      record {
        at = λ w.
            (create_captured_at-KeepsAt (snapshot_request host manager op caller_uid etag job_id)
                captured (w.now) refl).at
              w;
      }

  pub snapshot_before-KeepsAt :
      (op : Text) (caller_uid : ℕ) (etag job_id : Text) (locked : LockedGrubState)
      → KeepsAt grub (snapshot_before host manager op caller_uid etag job_id locked)
  unfolding snapshot_before note_snapshot emit
  snapshot_before-KeepsAt op caller_uid etag job_id locked =
      KeepsAt-bind grub (take_snapshot host manager op caller_uid etag job_id locked)
        (λ info. note_snapshot host manager op caller_uid etag job_id info.id)
        (take_snapshot-KeepsAt op caller_uid etag job_id locked) λ info. record { at = λ w. refl }
