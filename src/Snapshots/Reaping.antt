-- ===== src/Snapshots/Reaping.antt =====
-- crates/daemon/src/snapshot.rs: what `reap` leaves, whichever call fails.
use mathlib.Core.List.{Memᴰ}
use mathlib.Core.List.Memᴰ
use boot_control.Prelude.{ℕ, pos, ◌≡◌, ◌⊎◌, List, true, Option, none, some}
use boot_control.Text.{Text}
use boot_control.Error.{ResultOf, ok, err}
use boot_control.Store.{FilePath, World}
use boot_control.Store.Paths.{join_name}
use boot_control.Store.Trees.{path_starts_with}
use boot_control.Snapshots.{SnapshotError, SnapshotInfo, Json}
use boot_control.Snapshots.Retention.{list}
use boot_control.Snapshots.Kept.{IsNewestFirst, IsExpired}

module _ (root p : FilePath) where
  -- The path lies in one of the directories of these snapshots.
  abbrev InSome : List Text → Type 0
  InSome ids = (id : Text) × Memᴰ id ids × (path_starts_with p (join_name root id) ≡ true)

  -- What removing the directories does at `p`.
  abbrev Removal : List Text → World → ResultOf SnapshotError (Unit {0}) × World → Type 0
  Removal ids w out =
      ((out.1.files p ≡ w.files p) ⊎ InSome ids)
      × (out.0 ≡ ok tt → InSome ids → out.1.files p ≡ none)
      × (w.files p ≡ none → out.1.files p ≡ none)

module _ (json : Json) (root : FilePath) (keep_count keep_days : ℕ) (p : FilePath) where
  -- The path lies in the directory of a snapshot that is older than the last `keep_days` days.
  abbrev InExpired : World → List SnapshotInfo → Type 0
  InExpired w infos =
      (cutoff : Text) × (w.days_before (pos keep_days) ≡ some cutoff)
      × (id : Text) × IsExpired keep_count cutoff infos id
      × (path_starts_with p (join_name root id) ≡ true)

  abbrev IsListed : World → List SnapshotInfo → Type 0
  IsListed w infos = ((list json root w).0 ≡ ok infos) × IsNewestFirst infos

  unfoldable pub ReapOutcome : World → Option (ResultOf SnapshotError ℕ) × World → Type 0
  ReapOutcome w (some (ok n), w') =
      (infos : List SnapshotInfo) × IsListed w infos
      × ((w'.files p ≡ w.files p) ⊎ InExpired w infos)
      × (InExpired w infos → w'.files p ≡ none)
  ReapOutcome w (some (err _), w') =
      (w'.files p ≡ w.files p)
      ⊎ ((infos : List SnapshotInfo) × IsListed w infos × InExpired w infos)
  ReapOutcome w (none, w') = (w'.files p ≡ w.files p) × (w.days_before (pos keep_days) ≡ none)
