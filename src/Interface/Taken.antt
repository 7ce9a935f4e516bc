-- ===== src/Interface/Taken.antt =====
-- What the snapshot of a changed file leaves in the file system.
use boot_control.Prelude.{List, [], ◌∷◌, some, ◌≡◌, ◌≢◌, refl, sym, ◌∙◌, ap, subst, arith}
use boot_control.Text.{Text, codes}
use boot_control.Error.{ResultOf, ok, err}
use boot_control.Snapshots.{
  SnapshotError, SnapshotManifest, ManifestFile, SnapshotRequest, SnapshotInfo, CapturedFile, Json,
  flatten_path, matches_request, manifest_of, manifest_file, write_captured, create_captured_at,
  or_serde, io, snapshot_id,
}
use boot_control.Store.{
  FilePath, display_path, file_name, World, IoOf, ◌>>=◌, continue, lift, pure, create_file,
  write_all,
}
use boot_control.Store.Beneath.{KeepsAt-write_file}
use boot_control.Store.Paths.{join_name, path_eq_refl, file_name-join}
use boot_control.Store.Trees.{create_dir_all, make_dir, write_file}

-- What holds of a chain that succeeds, when its first step does and the rest behind it.
module _ {E A B : Type 0} (P : ResultOf E B × World → Type 0) where
  continue-succeeds :
      (r : ResultOf E A) (f : A → IoOf E B) (v : World) {b : B}
      → (continue r f v).0 ≡ ok b
      → ((a : A) → r ≡ ok a → (f a v).0 ≡ ok b → P (f a v))
      → P (continue r f v)
  continue-succeeds (ok a) f v h next = next a refl h
  continue-succeeds (err e) f v h next = cc

  pub bind-succeeds :
      (m : IoOf E A) (f : A → IoOf E B) (w : World) {b : B}
      → ((m >>= f) w).0 ≡ ok b
      → ((a : A) → (m w).0 ≡ ok a → (f a (m w).1).0 ≡ ok b → P (f a (m w).1))
      → P ((m >>= f) w)
  bind-succeeds m f w h next = continue-succeeds (m w).0 f (m w).1 h next

write_file-holds :
    {E : Type 0} (wrap : Text → E) (p : FilePath) (content : Text) (w : World) {u : Unit {0}}
    → (write_file wrap p content w).0 ≡ ok u
    → (write_file wrap p content w).1.files p ≡ some content
unfolding write_file create_file write_all
write_file-holds wrap p content w h = ground (arith, path_eq_refl p)

module _ (digest : Text → Text) (json : Json) (req : SnapshotRequest) (file : CapturedFile)
    (ts : Text) where
  abbrev snap_dir : FilePath
  snap_dir = join_name req.root (snapshot_id digest json req ts)

  abbrev copy : FilePath
  copy = join_name snap_dir (flatten_path (display_path file.path))

  abbrev manifest_path : FilePath
  manifest_path = join_name snap_dir (codes "manifest.json")

  abbrev manifest : SnapshotManifest
  manifest = manifest_of digest json req ts (manifest_file digest json file ∷ [])

  pub record IsTaken (out : ResultOf SnapshotError SnapshotInfo × World) : Type 0 where
    pub text : Text
    pub encoded : json.to_vec_pretty manifest ≡ ok text
    pub told : out.1.files manifest_path ≡ some text
    pub captured : out.1.files copy ≡ some file.bytes

  or_serde-ok : (r : ResultOf Text Text) {t : Text} → or_serde r ≡ ok t → r ≡ ok t
  or_serde-ok (ok x) h = cc
  or_serde-ok (err e) h = cc

  copy_ne : flatten_path (display_path file.path) ≢ codes "manifest.json" → manifest_path ≢ copy
  copy_ne ne e =
      let last : some (codes "manifest.json") ≡ some (flatten_path (display_path file.path)) =
        sym (file_name-join snap_dir _) ∙ (ap file_name e ∙ file_name-join snap_dir _) in
      ne (ground arith)

  -- The result that a snapshot gives.
  abbrev info : SnapshotInfo
  info = record {
    id = snapshot_id digest json req ts;
    op = req.op;
    ts = ts;
    audit_job_id = req.audit_job_id;
    manifest_path = manifest_path;
  }

  abbrev write_manifest : List ManifestFile → IoOf SnapshotError SnapshotInfo
  write_manifest files =
      lift (or_serde (json.to_vec_pretty (manifest_of digest json req ts files))) >>= λ text.
      write_file io manifest_path text >>= λ _. pure info

  write_manifest-IsTaken :
      flatten_path (display_path file.path) ≢ codes "manifest.json"
      → (v : World) → v.files copy ≡ some file.bytes
      → {i : SnapshotInfo} → (write_manifest (manifest_file digest json file ∷ []) v).0 ≡ ok i
      → IsTaken (write_manifest (manifest_file digest json file ∷ []) v)
  write_manifest-IsTaken ne v captured h =
      bind-succeeds IsTaken (lift (or_serde (json.to_vec_pretty manifest)))
        (λ text. write_file io manifest_path text >>= λ _. pure info) v h
        λ text encoded h'.
          bind-succeeds IsTaken (write_file io manifest_path text) (λ _. pure info) v h'
            λ u written _. record {
              text = text;
              encoded = or_serde-ok _ encoded;
              told = write_file-holds io manifest_path text v written;
              captured =
                  (KeepsAt-write_file copy io manifest_path text (copy_ne ne)).at v ∙ captured;
            }

  abbrev copy_then : IoOf SnapshotError SnapshotInfo
  copy_then = write_captured digest json snap_dir (file ∷ []) >>= write_manifest

  write_captured-holds :
      (v : World) {files : List ManifestFile}
      → (write_captured digest json snap_dir (file ∷ []) v).0 ≡ ok files
      → (files ≡ manifest_file digest json file ∷ [])
        × ((write_captured digest json snap_dir (file ∷ []) v).1.files copy ≡ some file.bytes)
  unfolding write_captured
  write_captured-holds v {files} h =
      let P : ResultOf SnapshotError (List ManifestFile) × World → Type 0 = λ out.
        out.0 ≡ ok files
        → (files ≡ manifest_file digest json file ∷ []) × (out.1.files copy ≡ some file.bytes) in
      bind-succeeds P (write_file io copy file.bytes)
        (λ _. pure (manifest_file digest json file ∷ [])) v h
        (λ u written _ same. (ground (arith, same), write_file-holds io copy file.bytes v written))
        h

  copy_then-IsTaken :
      flatten_path (display_path file.path) ≢ codes "manifest.json"
      → (v : World) {i : SnapshotInfo} → (copy_then v).0 ≡ ok i
      → IsTaken (copy_then v)
  copy_then-IsTaken ne v {i} h =
      bind-succeeds IsTaken (write_captured digest json snap_dir (file ∷ [])) write_manifest v h
        λ files made h'.
          let (same, captured) = write_captured-holds v made in
          let v' = (write_captured digest json snap_dir (file ∷ []) v).1 in
          subst
            (λ (fs : List ManifestFile).
              (write_manifest fs v').0 ≡ ok i → IsTaken (write_manifest fs v'))
            (sym same) (λ g. write_manifest-IsTaken ne v' captured g) h'

  -- A snapshot of one file that succeeds holds the content of the file, beside its manifest.
  pub create_captured_at-IsTaken :
      flatten_path (display_path file.path) ≢ codes "manifest.json"
      → (w : World) {i : SnapshotInfo}
      → (create_captured_at digest json req (file ∷ []) ts w).0 ≡ ok i
      → IsTaken (create_captured_at digest json req (file ∷ []) ts w)
  unfolding create_captured_at
  create_captured_at-IsTaken ne w h =
      bind-succeeds IsTaken (lift (matches_request req (file ∷ [])))
        (λ _. create_dir_all io req.root >>= λ _. make_dir io snap_dir >>= λ _. copy_then) w h
        λ _ _ h₁.
          bind-succeeds IsTaken (create_dir_all io req.root)
            (λ _. make_dir io snap_dir >>= λ _. copy_then) w h₁
            λ _ _ h₂.
              bind-succeeds IsTaken (make_dir io snap_dir) (λ _. copy_then)
                (create_dir_all io req.root w).1 h₂ λ _ _ h₃. copy_then-IsTaken ne _ h₃
