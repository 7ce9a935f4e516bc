-- ===== src/Snapshots.antt =====
-- crates/daemon/src/snapshot.rs: copies of files with a manifest, taken before a write. The JSON of
-- serde is the argument `json`; a timestamp of chrono is seen as its text in RFC 3339.
pub mod Restore
pub mod Retention
pub mod Managed
pub mod Checks
pub mod Contained
pub mod Outcome
pub mod Captures
pub mod Modes
pub mod Steps
pub mod Restores
pub mod Kept
pub mod Listing
pub mod Reaping
use boot_control.Prelude.{
  ℕ, Bool, true, false, not, ◌&&◌, ◌||◌, ◌-◌, ◌%◌, none, some, List, [], ◌∷◌, ◌++◌, length, ◌==◌,
  if◌then◌else◌, suc,
}
use boot_control.Text.{Text, codes, trim_start_matches, replace_char, take}
use boot_control.Text.Numbers.{digits_from, decimal_digit, pad_zeros}
use boot_control.Error.{ResultOf, ok, err}
use boot_control.Hash.{compute_etag}
use boot_control.Store.{
  FilePath, path_eq, display_path, World, IoOf, ◌>>=◌, ◌>>◌, read, metadata, attempt,
  read_to_string, pure, lift,
}
use boot_control.Store.Paths.{join_name}
use boot_control.Store.Trees.{make_dir, create_dir_all, write_file}

pub data SnapshotError : Type 0 where
  io serde : Text → SnapshotError
  not_found : Text → SnapshotError
  schema_upgrade_required : ℕ → SnapshotError
  invalid_id : Text → SnapshotError
  unmanaged_target : Text → SnapshotError
  concurrent_modification : FilePath → SnapshotError
  state_mismatch : Text → Text → SnapshotError
  corrupt : Text → SnapshotError

abbrev pub Snap : Type 0 → Type 0
Snap A = IoOf SnapshotError A

abbrev pub schema_version_supported : ℕ
schema_version_supported = 1

pub record ManifestFile : Type 0 where
  pub path : Text
  pub sha256 : Text
  pub mode : Text

pub record ManifestEfivar : Type 0 where
  pub name : Text
  pub sha256 : Text

pub record SnapshotManifest : Type 0 where
  pub schema_version : ℕ
  pub ts : Text
  pub op : Text
  pub polkit_action : Text
  pub caller_uid : ℕ
  pub etag_before : Text
  pub files : List ManifestFile
  pub efivars : List ManifestEfivar
  pub audit_job_id : Text

pub record SnapshotInfo : Type 0 where
  pub id : Text
  pub op : Text
  pub ts : Text
  pub audit_job_id : Text
  pub manifest_path : FilePath

pub record SnapshotRequest : Type 0 where
  pub root : FilePath
  pub op : Text
  pub polkit_action : Text
  pub caller_uid : ℕ
  pub etag_before : Text
  pub files : List FilePath
  pub audit_job_id : Text

pub record CapturedFile : Type 0 where
  pub path : FilePath
  pub bytes : Text
  pub mode : Text

-- `serde_json::to_vec_pretty` and `serde_json::from_slice`, with the message of a failure.
pub record Json : Type 0 where
  pub to_vec_pretty : SnapshotManifest → ResultOf Text Text
  pub from_slice : Text → ResultOf Text SnapshotManifest

abbrev pub or_serde : {A : Type 0} → ResultOf Text A → ResultOf SnapshotError A
or_serde (ok a) = ok a
or_serde (err e) = err (serde e)

unfoldable pub flatten_path : Text → Text
flatten_path p = replace_char b'/' (codes "__") (trim_start_matches b'/' p)

-- `{:04o}`
unfoldable pub octal4 : ℕ → Text
octal4 n = let s = digits_from 8 decimal_digit (suc n) n [] in pad_zeros (4 - length s) s

unfoldable pub file_mode_octal : FilePath → Snap Text
file_mode_octal p w = (attempt io (metadata p) >> pure (octal4 (w.mode p % 4096))) w

-- One step of the loop over the files of `create_at`.
unfoldable pub capture : FilePath → Snap CapturedFile
capture path = do
  bytes ← read_to_string io path
  mode ← file_mode_octal path
  pure (record { path = path; bytes = bytes; mode = mode })

unfoldable pub capture_all : List FilePath → Snap (List CapturedFile)
capture_all [] = pure []
capture_all (path ∷ paths) = do file ← capture path; files ← capture_all paths; pure (file ∷ files)

-- `zip(..).any(|(file, requested)| file.path != *requested)`
unfoldable pub other_path : List CapturedFile → List FilePath → Bool
other_path (file ∷ files) (requested ∷ paths) =
    not (path_eq file.path requested) || other_path files paths
other_path _ _ = false

unfoldable pub matches_request :
    SnapshotRequest → List CapturedFile → ResultOf SnapshotError (Unit {0})
matches_request req captured =
    if not (length captured == length req.files) || other_path captured req.files
    then err (corrupt (codes "captured files do not match the snapshot request"))
    else ok tt

module _ (digest : Text → Text) (json : Json) where
  unfoldable pub snapshot_id : SnapshotRequest → Text → Text
  snapshot_id req ts =
      let job_hash = compute_etag digest req.audit_job_id in
      replace_char b':' [] ts ++ (b'-' ∷ (req.op ++ (b'-' ∷ take 16 job_hash)))

  unfoldable pub manifest_file : CapturedFile → ManifestFile
  manifest_file file = record {
    path = display_path file.path;
    sha256 = compute_etag digest file.bytes;
    mode = file.mode;
  }

  -- The loop that copies the captured files.
  unfoldable pub write_captured : FilePath → List CapturedFile → Snap (List ManifestFile)
  write_captured snap_dir [] = pure []
  write_captured snap_dir (file ∷ files) = do
    write_file io (join_name snap_dir (flatten_path (display_path file.path))) file.bytes
    manifest_files ← write_captured snap_dir files
    pure (manifest_file file ∷ manifest_files)

  unfoldable pub manifest_of : SnapshotRequest → Text → List ManifestFile → SnapshotManifest
  manifest_of req ts manifest_files = record {
    schema_version = schema_version_supported;
    ts = ts;
    op = req.op;
    polkit_action = req.polkit_action;
    caller_uid = req.caller_uid;
    etag_before = req.etag_before;
    files = manifest_files;
    efivars = [];
    audit_job_id = req.audit_job_id;
  }

  unfoldable pub create_captured_at : SnapshotRequest → List CapturedFile → Text → Snap SnapshotInfo
  create_captured_at req captured ts = do
    lift (matches_request req captured)
    let id = snapshot_id req ts
    let snap_dir = join_name req.root id
    create_dir_all io req.root
    make_dir io snap_dir
    manifest_files ← write_captured snap_dir captured
    let manifest_path = join_name snap_dir (codes "manifest.json")
    text ← lift (or_serde (json.to_vec_pretty (manifest_of req ts manifest_files)))
    write_file io manifest_path text
    pure (record {
      id = id;
      op = req.op;
      ts = ts;
      audit_job_id = req.audit_job_id;
      manifest_path = manifest_path;
    })

  unfoldable pub create_at : SnapshotRequest → Text → Snap SnapshotInfo
  create_at req ts = do captured ← capture_all req.files; create_captured_at req captured ts

  unfoldable pub create : SnapshotRequest → Snap SnapshotInfo
  create req w = create_at req (w.now) w

  unfoldable pub create_with_captured_files :
      SnapshotRequest → List CapturedFile → Snap SnapshotInfo
  create_with_captured_files req captured w = create_captured_at req captured (w.now) w
