-- ===== src/Snapshots/Retention.antt =====
-- crates/daemon/src/snapshot.rs: `list` and `reap`.
use boot_control.Prelude.{
  ℕ, suc, ◌-◌, ◌^◌, ℤ, pos, negsuc, true, false, not, ◌&&◌, Option, none, some, List, [], ◌∷◌,
  length, leb, ltb, if◌then◌else◌,
}
use boot_control.Text.{Text, codes, text_lt}
use boot_control.Error.{ResultOf, ok, err}
use boot_control.Store.{
  FilePath, World, path_eq, file_name, parent, ◌>>=◌, ◌>>◌, list_dir, read_to_string, pure, lift,
  fail_if,
}
use boot_control.Store.Paths.{join_name}
use boot_control.Store.Trees.{is_file, is_dir, path_exists, remove_dir_all}
use boot_control.Snapshots.{
  SnapshotError, io, schema_upgrade_required, Snap, schema_version_supported, SnapshotManifest,
  SnapshotInfo, Json, or_serde,
}

-- The directories in a directory, by their names. What else is in it, `list` passes over.
unfoldable pub child_names : FilePath → List FilePath → List Text
child_names root [] = []
child_names root (d ∷ dirs) =
    let rest = child_names root dirs in
    elim (parent d) [
      | none ↦ rest
      | some p ↦ elim (path_eq p root) [
        | false ↦ rest
        | true ↦ elim (file_name d) [ none ↦ rest | some name ↦ name ∷ rest ]
      ]
    ]

-- `fs::read_dir`
unfoldable pub read_dir : FilePath → Snap (List Text)
read_dir root w =
    fail_if io (w.fault (list_dir root))
      (λ v.
        if is_dir v root
        then (ok (child_names root v.dirs), v)
        else (err (io (codes "Not a directory (os error 20)")), v))
      w

module _ (json : Json) where
  unfoldable pub info_of : FilePath → Text → SnapshotManifest → SnapshotInfo
  info_of manifest_path id manifest = record {
    id = id;
    op = manifest.op;
    ts = manifest.ts;
    audit_job_id = manifest.audit_job_id;
    manifest_path = manifest_path;
  }

  -- A directory with a manifest that can be read.
  unfoldable pub read_info : FilePath → Text → Snap SnapshotInfo
  read_info root id = do
    let manifest_path = join_name (join_name root id) (codes "manifest.json")
    bytes ← read_to_string io manifest_path
    manifest ← lift (or_serde (json.from_slice bytes))
    lift (
        if ltb schema_version_supported manifest.schema_version
        then err (schema_upgrade_required manifest.schema_version)
        else ok (info_of manifest_path id manifest))

  abbrev pub prepend_info : Snap SnapshotInfo → Snap (List SnapshotInfo) → Snap (List SnapshotInfo)
  prepend_info first rest = first >>= λ info. rest >>= λ infos. pure (info ∷ infos)

  -- The loop over the entries of the root.
  unfoldable pub read_infos : FilePath → List Text → Snap (List SnapshotInfo)
  read_infos root [] w = (ok [], w)
  read_infos root (id ∷ ids) w =
      let rest = read_infos root ids in
      if is_file w (join_name (join_name root id) (codes "manifest.json"))
      then prepend_info (read_info root id) rest w
      else rest w

  -- The newer one first; of equal times, the one that came first.
  unfoldable pub insert_info : SnapshotInfo → List SnapshotInfo → List SnapshotInfo
  insert_info a [] = a ∷ []
  insert_info a (b ∷ bs) =
      let rest = insert_info a bs in if text_lt a.ts b.ts then b ∷ rest else a ∷ b ∷ bs

  unfoldable pub newest_first : List SnapshotInfo → List SnapshotInfo
  newest_first [] = []
  newest_first (a ∷ rest) = insert_info a (newest_first rest)

  unfoldable pub list : FilePath → Snap (List SnapshotInfo)
  list root w =
      if not (path_exists w root)
      then (ok [], w)
      else (do ids ← read_dir root; infos ← read_infos root ids; pure (newest_first infos)) w

-- The loop that collects the ids, from position `i` on.
unfoldable pub to_delete : ℕ → Text → ℕ → List SnapshotInfo → List Text
to_delete keep_count cutoff i [] = []
to_delete keep_count cutoff i (s ∷ snapshots) =
    let rest = to_delete keep_count cutoff (suc i) snapshots in
    if leb keep_count i && text_lt s.ts cutoff then s.id ∷ rest else rest

unfoldable pub remove_snapshots : FilePath → List Text → Snap (Unit {0})
remove_snapshots root [] = pure tt
remove_snapshots root (id ∷ ids) =
    remove_dir_all io (join_name root id) >> remove_snapshots root ids

-- `keep_days as i64`, for a `u64`
unfoldable pub as_i64 : ℕ → ℤ
as_i64 n = if ltb n (2 ^ 63) then pos n else negsuc (2 ^ 64 - 1 - n)

-- A call that may panic, which `none` stands for.
abbrev pub Panicking : Type 0 → Type 0
Panicking A = World → Option (ResultOf SnapshotError A) × World

abbrev pub returned :
    {A : Type 0} → ResultOf SnapshotError A × World → Option (ResultOf SnapshotError A) × World
returned (r, w) = (some r, w)

-- What follows the subtraction of the days, which panics where there is no such time.
unfoldable pub prune_before : FilePath → ℕ → List SnapshotInfo → Option Text → Panicking ℕ
prune_before root keep_count snapshots none w = (none, w)
prune_before root keep_count snapshots (some cutoff) w =
    let ids = to_delete keep_count cutoff 0 snapshots in
    returned ((remove_snapshots root ids >> pure (length ids)) w)

unfoldable pub prune_listed :
    FilePath
    → ℕ
    → ℕ
    → ResultOf SnapshotError (List SnapshotInfo) × World
    → Option (ResultOf SnapshotError ℕ) × World
prune_listed root keep_count keep_days (err e, w) = (some (err e), w)
prune_listed root keep_count keep_days (ok snapshots, w) =
    if leb (length snapshots) keep_count
    then (some (ok 0), w)
    else prune_before root keep_count snapshots (w.days_before (as_i64 keep_days)) w

unfoldable pub reap : Json → FilePath → ℕ → ℕ → Panicking ℕ
reap json root keep_count keep_days w = prune_listed root keep_count keep_days (list json root w)
