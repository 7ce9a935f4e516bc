-- ===== src/Snapshots/Restore.antt =====
-- crates/daemon/src/snapshot.rs: `restore`, with the checks of the id and of the targets.
use boot_control.Prelude.{
  ℕ, suc, Bool, true, false, not, ◌+◌, ◌-◌, ◌*◌, ◌&&◌, ◌||◌, Option, none, some, List, [], ◌∷◌,
  ◌++◌, length, leb, ◌==◌, if◌then◌else◌, ltb,
}
use boot_control.Text.{Text, codes, is_empty, has_char, text_eq, text_lt}
use boot_control.Text.Numbers.{display}
use boot_control.Error.{ResultOf, ok, err}
use boot_control.Hash.{compute_etag, verify_etag}
use boot_control.Store.{
  FilePath, path_eq, display_path, file_name, parent, World, ◌>>=◌, ◌>>◌, open_rw, lock, seek, sync,
  lstat, attempt, read_to_string, write_all, set_permissions, rename_file, pure, lift, fail_if,
  no_such_file,
}
use boot_control.Store.Paths.{join_name}
use boot_control.Store.Trees.{
  is_file, path_starts_with, ancestors, create_new, remove_file, contains_path,
}
use boot_control.Store.Components.{Component, normal, components, is_absolute, has_dots, normals}
use boot_control.Snapshots.{
  SnapshotError, io, not_found, schema_upgrade_required, invalid_id, unmanaged_target,
  concurrent_modification, state_mismatch, corrupt, Snap, schema_version_supported, ManifestFile,
  SnapshotManifest, Json, or_serde, flatten_path,
}

-- One component, and a normal one.
abbrev one_normal : List Component → Bool
one_normal (normal _ ∷ []) = true
one_normal _ = false

unfoldable pub is_plain_component : Text → Bool
is_plain_component id =
    if is_empty id || has_char b'/' id || has_char b'\\' id
    then false
    else one_normal (components id)

unfoldable pub starts_with_any : FilePath → List FilePath → Bool
starts_with_any target [] = false
starts_with_any target (a ∷ allowed) = path_starts_with target a || starts_with_any target allowed

-- The loop over the ancestors; one that is not there is passed over.
unfoldable pub no_symlink : List FilePath → Snap Bool
no_symlink [] = pure true
no_symlink (a ∷ rest) =
    attempt io (lstat a) >> λ w. if w.symlink a then (ok false, w) else no_symlink rest w

unfoldable pub is_managed_target : List Component → List FilePath → Snap Bool
is_managed_target target allowed =
    if not (is_absolute target) || has_dots target || not (starts_with_any (normals target) allowed)
    then pure false
    else no_symlink (ancestors (normals target))

abbrev pub refuse_unless : Bool → SnapshotError → ResultOf SnapshotError (Unit {0})
refuse_unless true e = ok tt
refuse_unless false e = err e

-- The loop that validates every target.
unfoldable pub check_targets : List FilePath → List ManifestFile → Snap (Unit {0})
check_targets allowed [] = pure tt
check_targets allowed (f ∷ files) = do
  let target = components f.path
  managed ← is_managed_target target allowed
  lift (refuse_unless managed (unmanaged_target f.path))
  check_targets allowed files

unfoldable pub target_of : ManifestFile → FilePath
target_of f = normals (components f.path)

unfoldable pub targets_of : List ManifestFile → List FilePath
targets_of [] = []
targets_of (f ∷ files) = target_of f ∷ targets_of files

-- Paths are ordered by their components.
unfoldable pub path_lt : FilePath → FilePath → Bool
path_lt [] [] = false
path_lt [] (y ∷ ys) = true
path_lt (x ∷ xs) [] = false
path_lt (x ∷ xs) (y ∷ ys) =
    let rest = path_lt xs ys in if text_lt x y then true else if text_eq x y then rest else false

unfoldable pub insert_path : FilePath → List FilePath → List FilePath
insert_path p [] = p ∷ []
insert_path p (q ∷ qs) = let rest = insert_path p qs in if path_lt q p then q ∷ rest else p ∷ q ∷ qs

-- `targets.sort()`
unfoldable pub sort_paths : List FilePath → List FilePath
sort_paths [] = []
sort_paths (p ∷ ps) = insert_path p (sort_paths ps)

-- `targets.windows(2).any(|pair| pair[0] == pair[1])`
unfoldable pub repeats : List FilePath → Bool
repeats (p ∷ q ∷ qs) = path_eq p q || repeats (q ∷ qs)
repeats _ = false

abbrev too_many_links : Text
too_many_links = codes "Too many levels of symbolic links (os error 40)"

-- `open` of a file that must be there, with `O_NOFOLLOW`.
unfoldable pub open_target : FilePath → Snap (Unit {0})
open_target target w =
    fail_if io (w.fault (open_rw target))
      (λ v.
        if v.symlink target
        then (err (io too_many_links), v)
        else if is_file v target
        then (ok tt, v)
        else (err (io no_such_file), v))
      w

unfoldable pub lock_target : FilePath → Snap (Unit {0})
lock_target target w =
    if w.busy target then (err (concurrent_modification target), w) else attempt io (lock target) w

-- The loop that locks every target.
unfoldable pub lock_targets : List FilePath → Snap (Unit {0})
lock_targets [] = pure tt
lock_targets (target ∷ targets) = do open_target target; lock_target target; lock_targets targets

unfoldable pub all_octal : Text → Bool
all_octal [] = true
all_octal (c ∷ cs) = leb b'0' c && leb c b'7' && all_octal cs

-- `u32::from_str_radix(mode, 8)` on octal digits; four of them do not overflow.
unfoldable pub from_octal : ℕ → Text → ℕ
from_octal acc [] = acc
from_octal acc (c ∷ cs) = from_octal (acc * 8 + (c - b'0')) cs

pub record Replacement : Type 0 where
  pub target : FilePath
  pub bytes : Text
  pub mode : ℕ

unfoldable pub first_file : List ManifestFile → ResultOf SnapshotError ManifestFile
first_file [] = err (corrupt (codes "manifest contains no files"))
first_file (f ∷ _) = ok f

-- A manifest of a version that is supported.
unfoldable pub supported : SnapshotManifest → ResultOf SnapshotError SnapshotManifest
supported manifest =
    if ltb schema_version_supported manifest.schema_version
    then err (schema_upgrade_required manifest.schema_version)
    else ok manifest

unfoldable pub read_manifest : Json → Text → FilePath → Snap SnapshotManifest
read_manifest json id manifest_path w =
    if not (is_file w manifest_path)
    then (err (not_found id), w)
    else (do
      bytes ← read_to_string io manifest_path
      manifest ← lift (or_serde (json.from_slice bytes))
      lift (supported manifest))
        w

-- `debug` is the format `{:?}` of a string.
module _ (digest debug : Text → Text) where
  -- The primary target is among the locked ones and has the ETag.
  unfoldable pub check_primary : FilePath → List FilePath → Text → Snap (Unit {0})
  check_primary primary locked expected_etag = do
    lift
        (refuse_unless (contains_path primary locked) (corrupt (codes "primary target is missing")))
    attempt io (seek primary)
    current ← read_to_string io primary
    lift (
        refuse_unless (verify_etag digest expected_etag current)
          (state_mismatch expected_etag (compute_etag digest current)))

  unfoldable pub bad_sha : FilePath → Text → Text → SnapshotError
  bad_sha captured actual_sha sha256 = corrupt (
      codes "captured file "
      ++ (display_path captured
          ++ (codes " has SHA-256 " ++ (actual_sha ++ (codes ", expected " ++ sha256)))))

  unfoldable pub bad_mode : Text → FilePath → SnapshotError
  bad_mode mode target =
      corrupt (codes "invalid mode " ++ (debug mode ++ (codes " for " ++ display_path target)))

  -- The checks of one captured payload.
  unfoldable pub verified : FilePath → ManifestFile → Text → ResultOf SnapshotError Replacement
  verified captured f captured_bytes =
      let actual_sha = compute_etag digest captured_bytes in
      if not (text_eq actual_sha f.sha256)
      then err (bad_sha captured actual_sha f.sha256)
      else if not (length f.mode == 4) || not (all_octal f.mode)
      then err (bad_mode f.mode (target_of f))
      else ok (record { target = target_of f; bytes = captured_bytes; mode = from_octal 0 f.mode })

  -- One step of the loop that verifies the captured payloads.
  unfoldable pub replacement_of : FilePath → ManifestFile → Snap Replacement
  replacement_of snap_dir f = do
    let captured = join_name snap_dir (flatten_path f.path)
    captured_bytes ← read_to_string io captured
    lift (verified captured f captured_bytes)

  unfoldable pub replacements_of : FilePath → List ManifestFile → Snap (List Replacement)
  replacements_of snap_dir [] = pure []
  replacements_of snap_dir (f ∷ files) = do
    r ← replacement_of snap_dir f
    rs ← replacements_of snap_dir files
    pure (r ∷ rs)

abbrev or_corrupt : {A : Type 0} → Text → FilePath → Option A → ResultOf SnapshotError A
or_corrupt what target none = err (corrupt (what ++ display_path target))
or_corrupt what target (some a) = ok a

-- What is left of the temporary file when writing it fails.
abbrev pub dropping :
    FilePath → ResultOf SnapshotError (Unit {0}) × World → ResultOf SnapshotError (Unit {0}) × World
dropping tmp_path (ok u, w) = (ok u, w)
dropping tmp_path (err e, w) = (err e, remove_file tmp_path w)

-- The closure of `atomic_restore_file`.
unfoldable pub write_replacement : FilePath → FilePath → FilePath → Text → ℕ → Snap (Unit {0})
write_replacement dir tmp_path target bytes mode = do
  create_new io tmp_path
  write_all io tmp_path bytes
  set_permissions io tmp_path mode
  attempt io (sync tmp_path)
  rename_file io tmp_path target
  attempt io (sync dir)

module _ (pid : ℕ) where
  unfoldable pub restore_tmp_path : FilePath → Text → ℕ → FilePath
  restore_tmp_path dir filename index = join_name dir (
      b'.'
      ∷ (filename
          ++ (codes ".bootcontrol-restore-"
              ++ (display pid ++ (b'-' ∷ (display index ++ codes ".tmp"))))))

  unfoldable pub atomic_restore_file : Replacement → ℕ → Snap (Unit {0})
  atomic_restore_file r index = do
    dir ← lift (or_corrupt (codes "restore target has no parent: ") r.target (parent r.target))
    filename ←
        lift (or_corrupt (codes "restore target has no filename: ") r.target (file_name r.target))
    let tmp_path = restore_tmp_path dir filename index
    λ w. dropping tmp_path (write_replacement dir tmp_path r.target r.bytes r.mode w)

  unfoldable pub restore_all : ℕ → List Replacement → Snap (Unit {0})
  restore_all index [] = pure tt
  restore_all index (r ∷ rs) = atomic_restore_file r index >> restore_all (suc index) rs

  module _ (digest debug : Text → Text) (json : Json) where
    unfoldable pub restore : FilePath → Text → List FilePath → Text → Snap (Unit {0})
    restore root id allowed expected_etag = do
      lift (refuse_unless (is_plain_component id) (invalid_id id))
      let snap_dir = join_name root id
      manifest ← read_manifest json id (join_name snap_dir (codes "manifest.json"))
      first ← lift (first_file manifest.files)
      check_targets allowed manifest.files
      let targets = sort_paths (targets_of manifest.files)
      lift (
          refuse_unless (not (repeats targets))
            (corrupt (codes "manifest repeats a restore target")))
      lock_targets targets
      check_primary digest debug (target_of first) targets expected_etag
      replacements ← replacements_of digest debug snap_dir manifest.files
      restore_all 0 replacements
