-- ===== src/Interface/Held.antt =====
-- The snapshot that a method takes before its change, and what the rest of the method leaves of it.
use boot_control.Prelude.{sym, Option, ℕ, true, false, List, [], ◌∷◌, some, ◌≡◌, ◌≢◌, refl, ◌∙◌}
use boot_control.Text.{Text, codes}
use boot_control.Error.{ResultOf, ok, err}
use boot_control.Failsafe
use boot_control.GrubManager.{LockedGrubState, build_tmp_path, write_file_atomically}
use boot_control.GrubManager.Atomic.{write_then, refreshed, refreshed-KeepsAt}
use boot_control.GrubRebuild.{ToolsKeep}
use boot_control.Hash.{compute_etag}
use boot_control.Polkit.{rewrite_grub}
use boot_control.Snapshots.{
  SnapshotManifest, SnapshotInfo, CapturedFile, flatten_path, create_with_captured_files,
  manifest_of, manifest_file, snapshot_id,
}
use boot_control.Snapshots.Steps.{path_starts_with-join}
use boot_control.Store.{FilePath, display_path, World}
use boot_control.Store.Beneath.{path_starts_with-longer, beneath-ne}
use boot_control.Store.Keeps.{
  KeepsAt-bind, KeepsAt-create, KeepsAt-write, KeepsAt-attempt, KeepsAt-rename,
}
use boot_control.Store.Paths.{join_name}
use boot_control.Store.Trees.{path_starts_with}
use boot_control.Interface.{Manager, Host, map_err, emit}
use boot_control.Interface.Grub.{
  snapshot_request, take_snapshot, note_snapshot, snapshot_before, snapshot_failed,
}
use boot_control.Interface.Taken.{create_captured_at-IsTaken, bind-succeeds}

-- The paths of the daemon do not get in each other's way, and the tools that it runs keep to theirs.
pub record IsApart (host : Host) (manager : Manager) : Type 0 where
  pub grub_outside : path_starts_with manager.grub_path manager.snapshot_root ≡ false
  pub tmp_outside :
      path_starts_with (build_tmp_path manager.grub_path) manager.snapshot_root ≡ false
  pub failsafe_outside : path_starts_with manager.failsafe_cfg_path manager.snapshot_root ≡ false
  pub failsafe_tmp_outside :
      path_starts_with (Failsafe.build_tmp_path manager.failsafe_cfg_path) manager.snapshot_root
      ≡ false
  pub failsafe_other : manager.failsafe_cfg_path ≢ manager.grub_path
  pub failsafe_tmp_other : Failsafe.build_tmp_path manager.failsafe_cfg_path ≢ manager.grub_path
  pub copy_name : flatten_path (display_path manager.grub_path) ≢ codes "manifest.json"
  pub tools_grub : ToolsKeep host.sys manager.grub_path
  pub tools_snapshots :
      (p : FilePath) → path_starts_with p manager.snapshot_root ≡ true → ToolsKeep host.sys p

pub map_err-ok :
    {E F A : Type 0} (f : E → F) (r : ResultOf E A) {a : A} → map_err f r ≡ ok a → r ≡ ok a
map_err-ok f (ok b) e = cc
map_err-ok f (err x) e = cc

module _ (host : Host) (manager : Manager) where
  abbrev grub : FilePath
  grub = manager.grub_path

  abbrev file_in : Text → Text → FilePath
  file_in id name = join_name (join_name manager.snapshot_root id) name

  -- Beneath the root of the snapshots, files hold a copy of the content, and a manifest that names
  -- the operation, the action, the caller's user, the ETag, and the copy with its digest and mode.
  pub record IsSnapshot (op : Text) (caller_uid : ℕ) (etag content mode : Text)
      (files : FilePath → Option Text) : Type 0 where
    pub id : Text
    pub copy : files (file_in id (flatten_path (display_path grub))) ≡ some content
    pub manifest : SnapshotManifest
    pub text : Text
    pub encoded : host.json.to_vec_pretty manifest ≡ ok text
    pub told : files (file_in id (codes "manifest.json")) ≡ some text
    pub for_op : manifest.op ≡ op
    pub for_action : manifest.polkit_action ≡ rewrite_grub
    pub for_uid : manifest.caller_uid ≡ caller_uid
    pub for_etag : manifest.etag_before ≡ etag
    pub lists :
        manifest.files
        ≡ record {
          path = display_path grub;
          sha256 = compute_etag host.sys.digest content;
          mode = mode;
        }
          ∷ []

  beneath : (id name : Text) → path_starts_with (file_in id name) manager.snapshot_root ≡ true
  beneath id name =
      path_starts_with-longer (join_name manager.snapshot_root id) manager.snapshot_root name
        (path_starts_with-join manager.snapshot_root id)

  pub IsSnapshot-kept :
      {op : Text} {caller_uid : ℕ} {etag content mode : Text}
      {files files' : FilePath → Option Text}
      → ((p : FilePath) → path_starts_with p manager.snapshot_root ≡ true → files' p ≡ files p)
      → IsSnapshot op caller_uid etag content mode files
      → IsSnapshot op caller_uid etag content mode files'
  IsSnapshot-kept kept s = record {
    id = s.id;
    copy = kept _ (beneath s.id _) ∙ s.copy;
    manifest = s.manifest;
    text = s.text;
    encoded = s.encoded;
    told = kept _ (beneath s.id _) ∙ s.told;
    for_op = s.for_op;
    for_action = s.for_action;
    for_uid = s.for_uid;
    for_etag = s.for_etag;
    lists = s.lists;
  }

  module _ (apart : IsApart host manager) (op : Text) (caller_uid : ℕ) (etag job_id : Text)
      (s : LockedGrubState) where
    abbrev captured : CapturedFile
    captured = record { path = grub; bytes = s.bytes; mode = s.mode }

    take_snapshot-IsSnapshot :
        (w : World) {info : SnapshotInfo}
        → (take_snapshot host manager op caller_uid etag job_id s w).0 ≡ ok info
        → IsSnapshot op caller_uid etag s.bytes s.mode
            (take_snapshot host manager op caller_uid etag job_id s w).1.files
    unfolding take_snapshot create_with_captured_files snapshot_request manifest_of manifest_file
    take_snapshot-IsSnapshot w h =
        let req = snapshot_request host manager op caller_uid etag job_id in
        let taken =
          create_captured_at-IsTaken host.sys.digest host.json req captured (w.now) apart.copy_name
            w (map_err-ok (snapshot_failed host.debug) _ h) in
        record {
          id = snapshot_id host.sys.digest host.json req (w.now);
          copy = taken.captured;
          manifest =
              manifest_of host.sys.digest host.json req (w.now)
                (manifest_file host.sys.digest host.json captured ∷ []);
          text = taken.text;
          encoded = taken.encoded;
          told = taken.told;
          for_op = refl;
          for_action = refl;
          for_uid = refl;
          for_etag = refl;
          lists = refl;
        }

    pub snapshot_before-IsSnapshot :
        (w : World) {u : Unit {0}}
        → (snapshot_before host manager op caller_uid etag job_id s w).0 ≡ ok u
        → IsSnapshot op caller_uid etag s.bytes s.mode
            (snapshot_before host manager op caller_uid etag job_id s w).1.files
    unfolding snapshot_before note_snapshot emit
    snapshot_before-IsSnapshot w h =
        bind-succeeds (λ out. IsSnapshot op caller_uid etag s.bytes s.mode out.1.files)
          (take_snapshot host manager op caller_uid etag job_id s)
          (λ info. note_snapshot host manager op caller_uid etag job_id info.id) w h
          λ info taken _. take_snapshot-IsSnapshot w taken

  -- Neither the write nor what follows it touches a snapshot.
  pub write_then-kept :
      IsApart host manager
      → (ls : List Text) (w : World) (p : FilePath)
      → path_starts_with p manager.snapshot_root ≡ true
      → (write_then host.sys grub manager.failsafe_cfg_path manager.grub_cfg_path ls w).1.files p
        ≡ w.files p
  unfolding write_file_atomically
  write_then-kept apart ls w p inside =
      let root = manager.snapshot_root in
      let tmp_ne : build_tmp_path grub ≢ p =
        λ e. beneath-ne p _ root inside apart.tmp_outside (sym e) in
      let grub_ne : grub ≢ p = λ e. beneath-ne p _ root inside apart.grub_outside (sym e) in
      let failsafe_ne : manager.failsafe_cfg_path ≢ p =
        λ e. beneath-ne p _ root inside apart.failsafe_outside (sym e) in
      let failsafe_tmp_ne : Failsafe.build_tmp_path manager.failsafe_cfg_path ≢ p =
        λ e. beneath-ne p _ root inside apart.failsafe_tmp_outside (sym e) in
      (KeepsAt-bind p (write_file_atomically (build_tmp_path grub) grub ls)
          (λ _. refreshed host.sys grub manager.failsafe_cfg_path manager.grub_cfg_path)
          (KeepsAt-bind p _ _ (KeepsAt-create p _ _ tmp_ne) λ _.
            KeepsAt-bind p _ _ (KeepsAt-write p _ _ _ tmp_ne) λ _.
              KeepsAt-bind p _ _ (KeepsAt-attempt p _ _) λ _. KeepsAt-rename p _ _ _ tmp_ne grub_ne)
          λ _.
            refreshed-KeepsAt host.sys grub manager.failsafe_cfg_path manager.grub_cfg_path p
              (apart.tools_snapshots p inside) failsafe_ne failsafe_tmp_ne).at
        w
