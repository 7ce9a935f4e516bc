-- ===== src/Snapshots/Captures.antt =====
-- crates/daemon/src/snapshot.rs: where no call fails, what `create` writes for one file.
use boot_control.Prelude.{
  ℕ, ◌+◌, ◌%◌, ◌≤◌, suc, ◌≡◌, ◌≢◌, List, [], ◌∷◌, ◌++◌, false, some, none, refl, All, All-append,
  length, length-append, arith, ◌∙◌, subst, ap, sym,
}
use boot_control.Text.{Text, codes}
use boot_control.Error.{ok}
use boot_control.Store.{
  FilePath, World, path_eq, display_path, attempt, read_to_string, create_file, write_all, read,
  metadata, create_dir, create, write, update, file_name,
}
use boot_control.Store.Paths.{join_name, path_eq_refl, path_eq_ne, file_name-join}
use boot_control.Store.Trees.{
  contains_path, add_missing, ancestors, ancestors_on, make_dir, create_dir_all, write_file,
  path_exists,
}
use boot_control.Store.Calm.{Calm}
use boot_control.Snapshots.{
  SnapshotManifest, SnapshotRequest, CapturedFile, Json, flatten_path, octal4, file_mode_octal,
  capture, capture_all, other_path, matches_request, snapshot_id, manifest_file, write_captured,
  manifest_of, create_captured_at, create_at, io, SnapshotError,
}

-- No ancestor is longer than the path.
ancestors_on-short :
    (done xs : FilePath)
    → All (λ (q : FilePath). length q ≤ length done + length xs) (ancestors_on done xs)
unfolding ancestors_on
ancestors_on-short done [] = tt
ancestors_on-short done (x ∷ xs) =
    let e = length-append done (x ∷ []) in
    All-append _ (ancestors_on (done ++ (x ∷ [])) xs) _
      (subst (λ (n : ℕ). All (λ (q : FilePath). length q ≤ n) (ancestors_on (done ++ (x ∷ [])) xs))
        (omega arith) (ancestors_on-short (done ++ (x ∷ [])) xs))
      (omega arith, tt)

contains-longer :
    (q : FilePath) (ps ds : List FilePath) (n : ℕ)
    → All (λ (p : FilePath). length p ≤ n) ps
    → suc n ≤ length q
    → contains_path q ds ≡ false
    → contains_path q (add_missing ps ds) ≡ false
unfolding contains_path add_missing
contains-longer q [] ds n h longer absent = absent
contains-longer q (p ∷ ps) ds n h longer absent =
    let different : path_eq p q ≡ false =
      path_eq_ne p q (λ e. omega (arith, h.0, longer, ap length e)) in
    ground (arith, contains-longer q ps ds n h.1 longer absent)

join_name-injective : (d : FilePath) (x y : Text) → join_name d x ≡ join_name d y → x ≡ y
join_name-injective d x y e =
    let same : some x ≡ some y = sym (file_name-join d x) ∙ (ap file_name e ∙ file_name-join d y) in
    cc

module _ (digest : Text → Text) (json : Json) (root : FilePath) (op action : Text) (uid : ℕ)
    (etag job : Text) (p : FilePath) (ts : Text) where
  abbrev pub request : SnapshotRequest
  request = record {
    root = root;
    op = op;
    polkit_action = action;
    caller_uid = uid;
    etag_before = etag;
    files = p ∷ [];
    audit_job_id = job;
  }

  abbrev pub snap_dir : FilePath
  snap_dir = join_name root (snapshot_id digest json request ts)

  abbrev pub manifest_path : FilePath
  manifest_path = join_name snap_dir (codes "manifest.json")

  abbrev pub captured_path : FilePath
  captured_path = join_name snap_dir (flatten_path (display_path p))

  abbrev pub captured_file : Text → World → CapturedFile
  captured_file content w = record { path = p; bytes = content; mode = octal4 (w.mode p % 4096) }

  abbrev pub manifest : Text → World → SnapshotManifest
  manifest content w =
      manifest_of digest json request ts (manifest_file digest json (captured_file content w) ∷ [])

  capture_all-Calm :
      (content : Text) (w : World)
      → Calm w
      → w.files p ≡ some content
      → capture_all (p ∷ []) w ≡ (ok (captured_file content w ∷ []), w)
  unfolding capture_all capture file_mode_octal attempt read_to_string
  capture_all-Calm content w calm holds = rw (calm (read p), holds, calm (metadata p)) refl

  still_fresh :
      (w : World)
      → path_exists w snap_dir ≡ false
      → path_exists (record w { dirs = add_missing (ancestors root) w.dirs }) snap_dir ≡ false
  still_fresh w fresh =
      let absent : contains_path snap_dir w.dirs ≡ false = ground arith in
      let longer = length-append root (snapshot_id digest json request ts ∷ []) in
      let e =
        contains-longer snap_dir (ancestors root) w.dirs (0 + length root)
          (ancestors_on-short [] root) (omega arith) absent in
      ground arith

  write_file-Calm :
      (q : FilePath) (text : Text) (w : World)
      → Calm w
      → write_file {E = SnapshotError} io q text w
        ≡ (ok tt, record w { files = update (update w.files q (some [])) q (some text) })
  unfolding write_file create_file write_all
  write_file-Calm q text w calm = rw (calm (create q), write_all, calm (write q)) refl

  -- What stands in the files of the snapshot, and no other file is changed.
  pub record IsCaptured (content text : Text) (w v : World) : Type 0 where
    pub captured : v.files captured_path ≡ some content
    pub listed : v.files manifest_path ≡ some text
    pub printed : json.to_vec_pretty (manifest content w) ≡ ok text

  pub create_at-Calm :
      (content text : Text) (w : World)
      → Calm w
      → w.files p ≡ some content
      → json.to_vec_pretty (manifest content w) ≡ ok text
      → w.files root ≡ none
      → path_exists w snap_dir ≡ false
      → flatten_path (display_path p) ≢ codes "manifest.json"
      → ((create_at digest json request ts w).0
          ≡ ok (record {
            id = snapshot_id digest json request ts;
            op = op;
            ts = ts;
            audit_job_id = job;
            manifest_path = manifest_path;
          }))
        × IsCaptured content text w (create_at digest json request ts w).1
  unfolding create_at create_captured_at matches_request other_path write_captured make_dir
      create_dir_all
  create_at-Calm content text w calm holds printed no_file fresh flat =
      let w' = record w { dirs = snap_dir ∷ add_missing (ancestors root) w.dirs } in
      let w'' = record w' {
        files = update (update w.files captured_path (some [])) captured_path (some content);
      } in
      rw
        (
          capture_all-Calm content w calm holds,
          path_eq_refl p,
          calm (create_dir root),
          no_file,
          calm (create_dir snap_dir),
          still_fresh w fresh,
          write_file-Calm captured_path content w' calm,
          printed,
          write_file-Calm manifest_path text w'' calm,
        )
        (
          refl,
          record {
            captured =
                rw (path_eq_ne manifest_path captured_path ne, path_eq_refl captured_path) refl;
            listed = rw (path_eq_refl manifest_path) refl;
            printed = printed;
          },
        )
    where
      ne : manifest_path ≢ captured_path
      ne e = flat (sym (join_name-injective snap_dir _ _ e))
