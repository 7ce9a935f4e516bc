-- ===== src/Snapshots/Outcome.antt =====
-- crates/daemon/src/snapshot.rs: what a restore leaves behind, whichever call fails.
use mathlib.Core.List.{Memᴰ}
use boot_control.Prelude.{
  ℕ, ◌≡◌, ◌⊎◌, inl, refl, List, not, some, ◌∙◌, inr, ap, Option-cases, All, arith,
}
use boot_control.Text.{Text, codes}
use boot_control.Error.{ResultOf, ok, err, Result-cases}
use boot_control.Store.{FilePath, World, lift, ◌>>=◌, ◌>>◌, read_to_string, IoOf}
use boot_control.Store.Paths.{join_name}
use boot_control.Store.Observes.{Observes-lift, bind-observed, Observes}
use boot_control.Snapshots.{
  SnapshotError, SnapshotManifest, ManifestFile, Json, corrupt, invalid_id,
}
use boot_control.Snapshots.Restore.{
  is_plain_component, target_of, targets_of, sort_paths, repeats, lock_targets, check_primary,
  replacements_of, restore_all, first_file, read_manifest, restore, supported, Replacement,
  refuse_unless,
}
use boot_control.Snapshots.Managed.{IsManaged, check_targets-Observes, check_targets-IsManaged}
use boot_control.Snapshots.Checks.{
  lock_targets-Observes, read_manifest-Observes, IsReplacement, check_primary-Observes,
  replacements_of-Observes, replacements_of-IsReplacement, replacements_of-covers,
}
use boot_control.Snapshots.Contained.{NotTemp, Wrote, restore_all-AllSteps, AllSteps}

-- The manifest of the snapshot, as the file holds it.
pub record IsManifest (json : Json) (path : FilePath) (w : World) (manifest : SnapshotManifest)
    : Type 0 where
  pub text : Text
  pub read : w.files path ≡ some text
  pub parsed : json.from_slice text ≡ ok manifest

read_manifest-IsManifest :
    (json : Json) (id : Text) (path : FilePath) (w : World) {m : SnapshotManifest}
    → (read_manifest json id path w).0 ≡ ok m
    → IsManifest json path w m
unfolding read_manifest supported read_to_string
read_manifest-IsManifest json id path w {m} h = elim (Option-cases (w.files path)) [
  | inl missing ↦ ground arith
  | inr (text, holds) ↦ record {
    text = text;
    read = holds;
    parsed = elim (Result-cases (json.from_slice text)) [
      | inl (m', good) ↦
          let e : m' ≡ m = ground arith in good ∙ ap (λ (x : SnapshotManifest). ok x) e
      | inr (e, bad) ↦ ground arith
    ];
  }
]

module _ (pid : ℕ) (digest debug : Text → Text) (json : Json) (root : FilePath) (id : Text)
    (allowed : List FilePath) (etag : Text) (p : FilePath) where
  abbrev dir : FilePath
  dir = join_name root id

  abbrev manifest_path : FilePath
  manifest_path = join_name dir (codes "manifest.json")

  -- The file at `p` is as it was, or holds captured bytes of the snapshot.
  abbrev SameOrRestored : World → SnapshotManifest → World → Type 0
  SameOrRestored w m w' =
      (w'.files p ≡ w.files p) ⊎ Wrote (IsReplacement digest dir w allowed m.files) p w'

  unfoldable pub RestoreOutcome : World → ResultOf SnapshotError (Unit {0}) × World → Type 0
  RestoreOutcome w (ok _, w') =
      (m : SnapshotManifest) × IsManifest json manifest_path w m
      × SameOrRestored w m w'
      × ((f : ManifestFile)
          → Memᴰ f m.files
          → target_of f ≡ p
          → Wrote (IsReplacement digest dir w allowed m.files) p w')
  RestoreOutcome w (err _, w') =
      (w'.files p ≡ w.files p)
      ⊎ ((m : SnapshotManifest) × IsManifest json manifest_path w m × SameOrRestored w m w')

  unchanged : (w : World) (e : SnapshotError) → RestoreOutcome w (err e, w)
  unfolding RestoreOutcome
  unchanged w e = inl refl

  -- A step that changes nothing, and what comes behind it.
  after_check :
      {A : Type 0} (m : IoOf SnapshotError A) (f : A → IoOf SnapshotError (Unit {0})) (w : World)
      → Observes m
      → ((a : A) → (m w).0 ≡ ok a → RestoreOutcome w (f a w))
      → RestoreOutcome w ((m >>= f) w)
  after_check m f w o rest = bind-observed (RestoreOutcome w) m f w o (λ e _. unchanged w e) rest

  replaced_lem :
      (m : SnapshotManifest) (w : World)
      → IsManifest json manifest_path w m
      → All (λ (f : ManifestFile). IsManaged allowed w f.path) m.files
      → NotTemp pid p
      → (rs : List Replacement) → (replacements_of digest debug dir m.files w).0 ≡ ok rs
      → RestoreOutcome w (restore_all pid 0 rs w)
  unfolding RestoreOutcome
  replaced_lem m w is managed not_tmp rs made = outcome_of (restore_all pid 0 rs w) (
      restore_all-AllSteps pid (IsReplacement digest dir w allowed m.files) p not_tmp 0 rs w
        (replacements_of-IsReplacement digest debug allowed dir w m.files managed made))
    where
      outcome_of :
          (out : ResultOf SnapshotError (Unit {0}) × World)
          → AllSteps pid (IsReplacement digest dir w allowed m.files) p not_tmp rs w out
          → RestoreOutcome w out
      outcome_of (err e, w') steps = inr (m, is, steps.0)
      outcome_of (ok u, w') steps = (
        m,
        is,
        steps.0,
        λ f listed e.
            let (r, mr, t) = replacements_of-covers digest debug dir w m.files made f listed in
            steps.1 refl r mr (t ∙ e),
      )

  -- The steps behind the check of the targets.
  after_targets :
      (m : SnapshotManifest) (first : ManifestFile) (w : World)
      → IsManifest json manifest_path w m
      → All (λ (f : ManifestFile). IsManaged allowed w f.path) m.files
      → NotTemp pid p
      → RestoreOutcome w (
          (do
            let targets = sort_paths (targets_of m.files)
            lift (
                refuse_unless
                  (not (repeats targets))
                  (corrupt (codes "manifest repeats a restore target")))
            lock_targets targets
            check_primary digest debug (target_of first) targets etag
            replacements ← replacements_of digest debug dir m.files
            restore_all pid 0 replacements)
            w)
  after_targets m first w is managed not_tmp =
      let targets = sort_paths (targets_of m.files) in
      after_check _ _ w
        (Observes-lift (
          refuse_unless (not (repeats targets))
            (corrupt (codes "manifest repeats a restore target"))))
        λ _ _. after_check _ _ w (lock_targets-Observes targets) λ _ _.
          after_check _ _ w (check_primary-Observes digest debug (target_of first) targets etag)
            λ _ _.
              after_check _ _ w (replacements_of-Observes digest debug dir m.files)
                λ rs made. replaced_lem m w is managed not_tmp rs made

  -- If no temporary file of the restore has the path, then a restore, whichever call fails, leaves
  -- the file there as it was, or with the bytes that the snapshot captured of it: an entry of the
  -- manifest names the path, which is absolute, has no dots and no symbolic link on it, and lies in a
  -- managed path, and the bytes have the digest of the entry. When it
  -- succeeds, every path that the manifest names has such bytes.
  pub restore-RestoreOutcome :
      (w : World)
      → NotTemp pid p
      → RestoreOutcome w (restore pid digest debug json root id allowed etag w)
  unfolding restore
  restore-RestoreOutcome w not_tmp =
      after_check _ _ w (Observes-lift (refuse_unless (is_plain_component id) (invalid_id id)))
        λ _ _. after_check _ _ w (read_manifest-Observes json id manifest_path) λ m got.
          after_check _ _ w (Observes-lift (first_file m.files)) λ first _.
            after_check _ _ w (check_targets-Observes allowed m.files) λ _ checked.
              after_targets m first w (read_manifest-IsManifest json id manifest_path w got)
                (check_targets-IsManaged allowed m.files w checked) not_tmp
