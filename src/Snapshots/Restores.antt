-- ===== src/Snapshots/Restores.antt =====
-- crates/daemon/src/snapshot.rs: where no call fails, a restore brings back what `create` captured.
use boot_control.Snapshots.Steps.{
  path_starts_with-join, target-p, is_managed_target-Calm, lock_targets-Calm, check_primary-Calm,
  restore_all-Calm, tmp_of,
}
use boot_control.Snapshots.Captures.{
  request, manifest, manifest_path, captured_path, captured_file, IsCaptured, create_at-Calm,
  snap_dir,
}
use boot_control.Prelude.{ℕ, ◌%◌, ◌≡◌, ◌≢◌, List, ◌∷◌, true, false, some, none, All, arith, ◌∙◌}
use boot_control.Text.{Text, codes}
use boot_control.Text.Equality.{text_eq_refl}
use boot_control.Error.{ok, ResultOf}
use boot_control.Hash.{compute_etag}
use boot_control.Store.{FilePath, World, display_path, read_to_string, read}
use boot_control.Store.Trees.{path_exists, path_starts_with}
use boot_control.Store.Calm.{Calm}
use boot_control.Snapshots.{
  SnapshotManifest, Json, flatten_path, manifest_of, snapshot_id, create_at, manifest_file,
  SnapshotError, SnapshotInfo,
}
use boot_control.Snapshots.Restore.{
  is_plain_component, starts_with_any, check_targets, target_of, targets_of, sort_paths,
  insert_path, repeats, verified, replacement_of, replacements_of, first_file, supported,
  read_manifest, restore,
}
use boot_control.Snapshots.Modes.{octal4_lem}
use boot_control.Store.ShownPaths.{IsName}

module _ (pid : ℕ) (digest debug : Text → Text) (json : Json) (root : FilePath) (op action : Text)
    (uid : ℕ) (etag job ts : Text) (x : Text) (xs : FilePath) (names : All IsName (x ∷ xs)) where
  -- The path of names.
  abbrev target : FilePath
  target = x ∷ xs

  -- `create` of this file.
  abbrev pub create_one : World → ResultOf SnapshotError SnapshotInfo × World
  create_one = create_at digest json (request digest json root op action uid etag job target ts) ts

  abbrev pub id_one : Text
  id_one = snapshot_id digest json (request digest json root op action uid etag job target ts) ts

  abbrev pub manifest_one : Text → World → SnapshotManifest
  manifest_one = manifest digest json root op action uid etag job target ts

  target_of-listed :
      (content : Text) (w : World)
      → target_of (
          manifest_file digest json
            (captured_file digest json root op action uid etag job target ts content w))
        ≡ target
  unfolding target_of manifest_file
  target_of-listed content w = target-p x xs names

  -- The snapshot's files, as `create` left them.
  abbrev Snapshotted : Text → Text → World → World → Type 0
  Snapshotted = IsCaptured digest json root op action uid etag job target ts

  restore-captured :
      (content text current now : Text) (allowed : List FilePath) (w v : World)
      → Calm v
      → Snapshotted content text w v
      → json.from_slice text ≡ ok (manifest_one content w)
      → is_plain_component id_one ≡ true
      → starts_with_any target allowed ≡ true
      → ((q : FilePath) → v.symlink q ≡ false)
      → v.busy target ≡ false
      → v.files target ≡ some current
      → now ≡ compute_etag digest current
      → path_exists v (tmp_of pid target) ≡ false
      → let out = restore pid digest debug json root id_one allowed now v in
        (out.0 ≡ ok tt)
        × (out.1.files target ≡ some content)
        × (out.1.mode target ≡ w.mode target % 4096)
  unfolding restore read_manifest supported check_targets first_file targets_of sort_paths
      insert_path repeats replacements_of replacement_of verified manifest_of manifest_file
      read_to_string
  restore-captured content text current now allowed w v calm is parsed plain_id within plain free
        holds fresh unused =
      let octal = octal4_lem (w.mode target % 4096) (omega arith) in
      rw
        (
          plain_id,
          is.listed,
          calm (read (manifest_path digest json root op action uid etag job target ts)),
          parsed,
          is_managed_target-Calm x xs names v calm allowed within plain,
          target_of-listed content w,
          lock_targets-Calm x xs names v calm current holds free (plain target),
          check_primary-Calm x xs names v calm digest debug now current holds fresh,
          calm (read (captured_path digest json root op action uid etag job target ts)),
          is.captured,
          text_eq_refl (compute_etag digest content),
          octal.0,
          octal.1,
          octal.2,
        )
        (restore_all-Calm x xs names v calm pid content (w.mode target % 4096) current holds plain
          unused)

  -- The directory of the snapshot.
  abbrev pub dir_one : FilePath
  dir_one = snap_dir digest json root op action uid etag job target ts

  -- If no call fails, no other process holds the file, no path is a symbolic link and the name
  -- of the temporary file is free, then a file that was captured into a new snapshot is restored, as long as nothing
  -- in the snapshot was changed: whatever the file holds by then, if the given ETag is that of its
  -- content, the restore succeeds, and the file holds the captured content and has the captured mode.
  -- The path consists of names and is managed, its flat name is not the manifest's, and the JSON of its
  -- manifest is read as the manifest.
  pub restore-create :
      (content text current now : Text) (allowed : List FilePath) (w v : World)
      → json.to_vec_pretty (manifest_one content w) ≡ ok text
      → json.from_slice text ≡ ok (manifest_one content w)
      → Calm w
      → w.files target ≡ some content
      → w.files root ≡ none
      → path_exists w dir_one ≡ false
      → flatten_path (display_path target) ≢ codes "manifest.json"
      → is_plain_component id_one ≡ true
      → starts_with_any target allowed ≡ true
      → Calm v
      → ((q : FilePath) → path_starts_with q dir_one ≡ true → v.files q ≡ (create_one w).1.files q)
      → ((q : FilePath) → v.symlink q ≡ false)
      → v.busy target ≡ false
      → v.files target ≡ some current
      → now ≡ compute_etag digest current
      → path_exists v (tmp_of pid target) ≡ false
      → let out = restore pid digest debug json root id_one allowed now v in
        (out.0 ≡ ok tt)
        × (out.1.files target ≡ some content)
        × (out.1.mode target ≡ w.mode target % 4096)
  restore-create content text current now allowed w v printed parsed calm holds no_file fresh flat
        plain_id within calm' same plain free holds' etag_fresh unused =
      let is =
        (create_at-Calm digest json root op action uid etag job target ts content text w calm holds
          printed no_file fresh flat).1 in
      restore-captured content text current now allowed w v calm'
        (record {
          captured = same _ (path_starts_with-join dir_one _) ∙ is.captured;
          listed = same _ (path_starts_with-join dir_one _) ∙ is.listed;
          printed = printed;
        })
        parsed plain_id within plain free holds' etag_fresh unused
