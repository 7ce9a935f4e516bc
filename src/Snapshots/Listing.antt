-- ===== src/Snapshots/Listing.antt =====
-- crates/daemon/src/snapshot.rs: a listing changes nothing and is sorted.
use boot_control.Prelude.{◌≡◌, inl, inr, List, [], ◌∷◌, refl, arith, Bool-cases, subst}
use boot_control.Text.{Text}
use boot_control.Error.{ok}
use boot_control.Store.{FilePath, World, read_to_string, ◌>>=◌, pure}
use boot_control.Store.Trees.{path_exists}
use boot_control.Store.Observes.{Observes, Observes-lift, Observes-bind, bind-ok}
use boot_control.Snapshots.{SnapshotInfo, Json, Snap}
use boot_control.Snapshots.Retention.{
  read_info, read_infos, newest_first, list, prepend_info, read_dir,
}
use boot_control.Snapshots.Kept.{IsNewestFirst, newest_first-IsNewestFirst}

module _ (json : Json) (root : FilePath) where
  read_info-Observes : (id : Text) → Observes (read_info json root id)
  unfolding read_info read_to_string
  read_info-Observes id = record { same = λ w. ground arith }

  prepend_info-Observes :
      (first : Snap SnapshotInfo) (rest : Snap (List SnapshotInfo))
      → Observes first
      → Observes rest
      → Observes (prepend_info json first rest)
  prepend_info-Observes first rest of or =
      Observes-bind first _ of
        λ info. Observes-bind rest _ or λ infos. Observes-lift (ok (info ∷ infos))

  read_infos-Observes : (ids : List Text) → Observes (read_infos json root ids)
  unfolding read_infos
  read_infos-Observes [] = record { same = λ w. refl }
  read_infos-Observes (id ∷ ids) =
      let rest = read_infos-Observes ids in
      let here = prepend_info-Observes _ _ (read_info-Observes id) rest in
      record { same = λ w. ground (arith, rest.same w, here.same w) }

  read_dir-Observes : Observes (read_dir root)
  unfolding read_dir
  read_dir-Observes = record { same = λ w. ground arith }

  abbrev list_there : Snap (List SnapshotInfo)
  list_there =
      read_dir root >>= λ ids. read_infos json root ids >>= λ infos. pure (newest_first json infos)

  list_there-Observes : Observes list_there
  list_there-Observes = Observes-bind _ _ read_dir-Observes λ ids.
      Observes-bind _ _ (read_infos-Observes ids)
        λ infos. Observes-lift (ok (newest_first json infos))

  pub list-Observes : Observes (list json root)
  unfolding list
  list-Observes = record { same = λ w. ground (arith, list_there-Observes.same w) }

  list_there-IsNewestFirst :
      (w : World) {infos : List SnapshotInfo} → (list_there w).0 ≡ ok infos → IsNewestFirst infos
  list_there-IsNewestFirst w {infos} h =
      let (ids, _, h1) = bind-ok _ _ w read_dir-Observes h in
      let (found, _, h2) = bind-ok _ _ w (read_infos-Observes ids) h1 in
      let e : newest_first json found ≡ infos = ground arith in
      subst IsNewestFirst e (newest_first-IsNewestFirst json found)

  pub list-IsNewestFirst :
      (w : World) {infos : List SnapshotInfo}
      → (list json root w).0 ≡ ok infos
      → IsNewestFirst infos
  unfolding list IsNewestFirst
  list-IsNewestFirst w {infos} h = elim (Bool-cases (path_exists w root)) [
    | inl there ↦ list_there-IsNewestFirst w (rw there at h)
    | inr missing ↦
        let e : [] ≡ infos = (let h' = rw missing at h in ground arith) in subst IsNewestFirst e tt
  ]
