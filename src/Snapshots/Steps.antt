-- ===== src/Snapshots/Steps.antt =====
-- crates/daemon/src/snapshot.rs: the steps of a restore where no call fails.
use boot_control.Failsafe.{or_default}
use boot_control.Prelude.{ℕ, ◌≡◌, ◌≢◌, List, [], ◌∷◌, true, false, some, refl, All, arith}
use boot_control.Text.{Text}
use boot_control.Text.Equality.{text_eq_refl}
use boot_control.Error.{ok}
use boot_control.Hash.{compute_etag, verify_etag_iff}
use boot_control.Store.{
  FilePath, World, display_path, parent, file_name, attempt, read_to_string, write_all,
  set_permissions, rename_file, read, open_rw, lock, seek, lstat, create, write, set_mode, sync,
  rename,
}
use boot_control.Store.Paths.{join_name, path_eq_refl, path_eq_ne}
use boot_control.Store.Trees.{path_exists, contains_path, ancestors, create_new, path_starts_with}
use boot_control.Store.Components.{components, normals, has_dots}
use boot_control.Store.Calm.{Calm}
use boot_control.Snapshots.Restore.{
  starts_with_any, no_symlink, is_managed_target, open_target, lock_target, lock_targets,
  check_primary, restore_tmp_path, write_replacement, atomic_restore_file, restore_all,
}
use boot_control.Store.ShownPaths.{IsName, components-display, normals-map, has_dots-map}

pub path_starts_with-join :
    (d : FilePath) (name : Text) → path_starts_with (join_name d name) d ≡ true
unfolding path_starts_with
path_starts_with-join [] name = refl
path_starts_with-join (y ∷ d) name = ground (arith, text_eq_refl y, path_starts_with-join d name)

pub split_last :
    (x : Text) (xs : FilePath)
    → (d : FilePath) × (n : Text) × (parent (x ∷ xs) ≡ some d) × (file_name (x ∷ xs) ≡ some n)
unfolding parent file_name
split_last x [] = ([], x, refl, refl)
split_last x (y ∷ ys) = let (d, n, e, f) = split_last y ys in (x ∷ d, n, rw e refl, f)

no_symlink-Calm :
    (ps : List FilePath) (w : World)
    → Calm w
    → ((q : FilePath) → w.symlink q ≡ false)
    → no_symlink ps w ≡ (ok true, w)
unfolding no_symlink attempt
no_symlink-Calm [] w calm plain = refl
no_symlink-Calm (p ∷ ps) w calm plain =
    rw (calm (lstat p), plain p) (no_symlink-Calm ps w calm plain)

pub target-p :
    (x : Text) (xs : FilePath)
    → All IsName (x ∷ xs)
    → normals (components (display_path (x ∷ xs))) ≡ x ∷ xs
unfolding normals
target-p x xs names = rw (components-display x xs names) (normals-map (x ∷ xs))

-- The temporary file of the first replacement.
abbrev pub tmp_of : ℕ → FilePath → FilePath
tmp_of pid p = restore_tmp_path pid (or_default [] (parent p)) (or_default [] (file_name p)) 0

-- A path of names, and the world that holds it.
module _ (x : Text) (xs : FilePath) (names : All IsName (x ∷ xs)) (w : World) (calm : Calm w) where
  abbrev p : FilePath
  p = x ∷ xs

  pub is_managed_target-Calm :
      (allowed : List FilePath)
      → starts_with_any p allowed ≡ true
      → ((q : FilePath) → w.symlink q ≡ false)
      → is_managed_target (components (display_path p)) allowed w ≡ (ok true, w)
  unfolding is_managed_target has_dots normals
  is_managed_target-Calm allowed within plain =
      rw (components-display x xs names, has_dots-map xs, normals-map xs, within)
        (no_symlink-Calm (ancestors p) w calm plain)

  pub lock_targets-Calm :
      (current : Text)
      → w.files p ≡ some current
      → w.busy p ≡ false
      → w.symlink p ≡ false
      → lock_targets (p ∷ []) w ≡ (ok tt, w)
  unfolding lock_targets open_target lock_target attempt
  lock_targets-Calm current holds free plain =
      rw (calm (open_rw p), plain, holds, free, calm (lock p)) refl

  pub check_primary-Calm :
      (digest debug : Text → Text) (etag current : Text)
      → w.files p ≡ some current
      → etag ≡ compute_etag digest current
      → check_primary digest debug p (p ∷ []) etag w ≡ (ok tt, w)
  unfolding check_primary contains_path attempt read_to_string
  check_primary-Calm digest debug etag current holds fresh =
      rw
        (
          path_eq_refl p,
          calm (seek p),
          calm (read p),
          holds,
          (verify_etag_iff digest etag current).1 fresh,
        )
        refl

  pub restore_all-Calm :
      (pid : ℕ) (bytes : Text) (mode : ℕ) (current : Text)
      → w.files p ≡ some current
      → ((q : FilePath) → w.symlink q ≡ false)
      → path_exists w (tmp_of pid p) ≡ false
      → let out = restore_all pid 0 (record { target = p; bytes = bytes; mode = mode } ∷ []) w in
        (out.0 ≡ ok tt) × (out.1.files p ≡ some bytes) × (out.1.mode p ≡ mode)
  unfolding restore_all atomic_restore_file write_replacement create_new write_all set_permissions
      attempt rename_file
  restore_all-Calm pid bytes mode current holds plain unused =
      let (d, n, has_dir, has_name) = split_last x xs in
      let tmp = restore_tmp_path pid d n 0 in
      let unused' : path_exists w tmp ≡ false = rw (has_dir, has_name) at unused in
      let ne : tmp ≢ p = λ e. ground (arith, unused') in
      rw
        (
          has_dir,
          has_name,
          calm (create tmp),
          unused',
          plain tmp,
          calm (write tmp),
          calm (set_mode tmp),
          calm (sync tmp),
          calm (rename tmp),
          calm (sync d),
        )
        (
          refl,
          rw (path_eq_ne tmp p ne, path_eq_refl p, path_eq_refl tmp) refl,
          rw (path_eq_refl p, path_eq_refl tmp) refl,
        )
