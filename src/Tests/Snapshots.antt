-- ===== src/Tests/Snapshots.antt =====
-- Snapshots in concrete worlds.
use boot_control.Text.Equality.{text_eq_iff}
use boot_control.Prelude.{
  ℕ, true, false, none, some, [], ◌∷◌, ◌%◌, ◌≡◌, ◌≢◌, refl, arith, if◌then◌else◌, All, sym, ap, ◌∙◌,
}
use boot_control.Text.{
  Text, codes, replace_char, take, trim_start_by, split_on, text_eq, has_char, text_lt,
}
use boot_control.Error.{ok, err}
use boot_control.Hash.{compute_etag}
use boot_control.Store.{FilePath, World, path_eq, display_path, file_name, parent, read_to_string}
use boot_control.Store.Paths.{file_name-join}
use boot_control.Store.Trees.{contains_path, path_starts_with, remove_dir_all}
use boot_control.Store.Components.{components, pieces, first_piece}
use boot_control.Store.ShownPaths.{IsName}
use boot_control.Snapshots.{
  SnapshotManifest, Json, flatten_path, snapshot_id, manifest_file, manifest_of,
}
use boot_control.Snapshots.Restore.{is_plain_component, starts_with_any, restore, restore_tmp_path}
use boot_control.Snapshots.Retention.{
  reap, as_i64, prune_listed, prune_before, list, child_names, read_dir, read_infos, read_info,
  newest_first, insert_info, to_delete, remove_snapshots, info_of,
}
use boot_control.Snapshots.Contained.{NotTemp}
use boot_control.Snapshots.Outcome.{RestoreOutcome, restore-RestoreOutcome}
use boot_control.Snapshots.Restores.{manifest_one, create_one, dir_one, id_one, restore-create}
use boot_control.Tests.Manager.{path, world}

abbrev root : FilePath
root = codes "snapshots" ∷ []

abbrev old : Text
old = codes "GRUB_TIMEOUT=5\n"

abbrev new : Text
new = codes "GRUB_TIMEOUT=10\n"

abbrev digest : Text → Text
digest content = content

-- A JSON that has one manifest only.
abbrev no_json : Json
no_json = record { to_vec_pretty = λ _. ok []; from_slice = λ _. err [] }

abbrev today : Text
today = codes "2026-04-17T20:00:00Z"

differ : (s t : Text) → text_eq s t ≡ false → s ≢ t
differ s t h e = ground (arith, text_eq_iff s t)

flat_name : flatten_path (display_path path) ≢ codes "manifest.json"
unfolding codes flatten_path display_path replace_char trim_start_by text_eq
flat_name = differ _ _ refl

name_lem :
    (x : Text) → x ≢ [] → x ≢ codes "." → x ≢ codes ".." → All (λ (c : ℕ). c ≢ b'/') x → IsName x
name_lem x filled dot dots whole = record { filled = filled; dot = dot; dots = dots; whole = whole }

path-IsName : All IsName path
unfolding codes
path-IsName = (
  name_lem _ (λ e. cc) (λ e. cc) (λ e. cc) (ground arith),
  (
    name_lem _ (λ e. cc) (λ e. cc) (λ e. cc) (ground arith),
    (name_lem _ (λ e. cc) (λ e. cc) (λ e. cc) (ground arith), tt),
  ),
)

abbrev manifest : World → SnapshotManifest
manifest =
    manifest_one 7 digest digest no_json root (codes "rewrite_grub") [] 1000 [] (codes "job") today
      (codes "etc") (codes "default" ∷ codes "grub" ∷ []) path-IsName old

abbrev json : Json
json = record {
  to_vec_pretty = λ _. ok (codes "{}");
  from_slice = λ _. ok (manifest (world old false));
}

is_plain_component_checks :
    (is_plain_component (codes "2026-rewrite_grub") ≡ true)
    × (is_plain_component (codes "..") ≡ false)
    × (is_plain_component (codes "/tmp/evil") ≡ false)
    × (is_plain_component (codes "snap/") ≡ false)
unfolding is_plain_component codes has_char components pieces first_piece split_on text_eq
is_plain_component_checks = (refl, refl, refl, refl)

-- The daemon's own write came between, and the snapshot is as it was.
abbrev dir : FilePath
dir =
    dir_one 7 digest digest json root (codes "rewrite_grub") [] 1000 [] (codes "job") today
      (codes "etc") (codes "default" ∷ codes "grub" ∷ []) path-IsName

abbrev created : World
created =
    (create_one 7 digest digest json root (codes "rewrite_grub") [] 1000 [] (codes "job") today
      (codes "etc") (codes "default" ∷ codes "grub" ∷ []) path-IsName (world old false)).1

abbrev changed : World
changed = record (world new false) {
  files = λ q. if path_starts_with q dir then created.files q else (world new false).files q;
}

abbrev id : Text
id =
    id_one 7 digest digest json root (codes "rewrite_grub") [] 1000 [] (codes "job") today
      (codes "etc") (codes "default" ∷ codes "grub" ∷ []) path-IsName

own_etag : new ≡ compute_etag digest new
unfolding compute_etag
own_etag = refl

restore-create_example :
    let out = restore 7 digest digest json root id (path ∷ []) new changed in
    (out.0 ≡ ok tt) × (out.1.files path ≡ some old) × (out.1.mode path ≡ 420 % 4096)
unfolding codes snapshot_id manifest_file flatten_path starts_with_any path_eq text_eq
    path_starts_with contains_path replace_char take is_plain_component has_char components pieces
    first_piece split_on trim_start_by display_path compute_etag restore_tmp_path manifest_of parent
restore-create_example =
    restore-create 7 digest digest json root (codes "rewrite_grub") [] 1000 [] (codes "job") today
      (codes "etc") (codes "default" ∷ codes "grub" ∷ []) path-IsName old (codes "{}") new new
      (path ∷ []) (world old false) changed refl refl (λ _. refl) refl refl refl flat_name refl refl
      (λ _. refl) (λ q h. rw h refl) (λ _. refl) refl refl own_etag refl

grub-no_tmp : (rest : Text) → some (codes "grub") ≢ some (b'.' ∷ rest)
unfolding codes
grub-no_tmp rest e = cc

path-NotTemp : NotTemp 7 path
unfolding restore_tmp_path
path-NotTemp d name index e =
    let last : file_name path ≡ some (codes "grub") = unfold file_name in refl in
    grub-no_tmp _ (sym last ∙ (ap file_name (sym e) ∙ file_name-join d _))

-- A restore that succeeds.
restore-RestoreOutcome_example :
    RestoreOutcome 7 digest digest json root id
      (path ∷ [])
      new
      path
      changed
      (restore 7 digest digest json root id (path ∷ []) new changed)
restore-RestoreOutcome_example =
    restore-RestoreOutcome 7 digest digest json root id (path ∷ []) new path changed path-NotTemp

-- One old snapshot.
abbrev aged : FilePath
aged = codes "snapshots" ∷ codes "a" ∷ codes "manifest.json" ∷ []

abbrev later : World
later = record (world old false) {
  files = λ q. if path_eq q aged then some (codes "{}") else none;
  dirs = root ∷ (codes "snapshots" ∷ codes "a" ∷ []) ∷ [];
  days_before = λ _. some (codes "2026-05-30T20:00:00Z");
}

reaps : (reap json root 0 30 later).0 ≡ some (ok 1)
unfolding codes reap as_i64 prune_listed prune_before list child_names read_dir read_infos read_info
    newest_first insert_info to_delete remove_snapshots text_lt path_eq text_eq contains_path parent
    file_name read_to_string info_of manifest_of remove_dir_all
reaps = refl
