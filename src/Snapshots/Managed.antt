-- ===== src/Snapshots/Managed.antt =====
-- crates/daemon/src/snapshot.rs: the targets that `restore` may write to, by `is_managed_target`.
use boot_control.Store.Trees.{ancestors, path_starts_with}
use mathlib.Core.List.{Memᴰ}
use boot_control.Prelude.{
  ◌≢◌, ◌++◌, Bool, true, false, ◌≡◌, List, [], ◌∷◌, refl, All, arith, Bool-cases, inl, inr,
}
use boot_control.Text.{Text}
use boot_control.Text.Equality.{text_eq_iff}
use boot_control.Error.{ok}
use boot_control.Store.{FilePath, World, lstat}
use boot_control.Store.Observes.{Observes, Observes-lift, Observes-attempt, Observes-bind, bind-ok}
use boot_control.Store.Components.{
  Component, root_dir, cur_dir, parent_dir, normal, components, normals, is_absolute, has_dots,
}
use boot_control.Snapshots.{SnapshotError, io, ManifestFile}
use boot_control.Snapshots.Restore.{
  starts_with_any, no_symlink, is_managed_target, check_targets, target_of, refuse_unless,
}

no_symlink-Observes : (ps : List FilePath) → Observes (no_symlink ps)
unfolding no_symlink
no_symlink-Observes [] = Observes-lift (ok true)
no_symlink-Observes (a ∷ rest) =
    Observes-bind _ _ (Observes-attempt io (lstat a))
      λ _. record { same = λ w. ground (arith, (no_symlink-Observes rest).same w) }

is_managed_target-Observes :
    (target : List Component) (allowed : List FilePath)
    → Observes (is_managed_target target allowed)
unfolding is_managed_target
is_managed_target-Observes target allowed = record {
  same = λ w. ground (arith, (no_symlink-Observes (ancestors (normals target))).same w);
}

pub check_targets-Observes :
    (allowed : List FilePath) (files : List ManifestFile) → Observes (check_targets allowed files)
unfolding check_targets
check_targets-Observes allowed [] = Observes-lift (ok tt)
check_targets-Observes allowed (f ∷ files) =
    Observes-bind _ _ (is_managed_target-Observes (components f.path) allowed)
      λ managed. Observes-bind _ _ (Observes-lift _) λ _. check_targets-Observes allowed files

refuse_unless-ok : (b : Bool) (e : SnapshotError) → refuse_unless b e ≡ ok tt → b ≡ true
refuse_unless-ok true e h = refl
refuse_unless-ok false e h = cc

-- A component that is no dot and no two dots.
abbrev pub IsNoDot : Component → Type 0
IsNoDot c = (c ≢ cur_dir) × (c ≢ parent_dir)

-- The path is absolute, has no dots, goes into one of the managed paths, and neither it nor a
-- directory on the way to it is a symbolic link.
pub record IsManaged (allowed : List FilePath) (w : World) (path : Text) : Type 0 where
  pub rest : List Component
  pub absolute : components path ≡ root_dir ∷ rest
  pub no_dots : All IsNoDot (components path)
  pub base : FilePath
  pub listed : Memᴰ base allowed
  pub below : FilePath
  pub inside : normals (components path) ≡ base ++ below
  pub no_links : All (λ (a : FilePath). w.symlink a ≡ false) (ancestors (normals (components path)))

path_starts_with-splits :
    (p base : FilePath) → path_starts_with p base ≡ true → (below : FilePath) × (p ≡ base ++ below)
unfolding path_starts_with
path_starts_with-splits p [] h = (p, refl)
path_starts_with-splits [] (b ∷ bs) h = cc
path_starts_with-splits (x ∷ xs) (b ∷ bs) h =
    let (below, e) = path_starts_with-splits xs bs (ground arith) in
    let same : b ≡ x = ground (arith, text_eq_iff b x) in (below, cc (e, same))

starts_with_any-Memᴰ :
    (p : FilePath) (allowed : List FilePath)
    → starts_with_any p allowed ≡ true
    → (base : FilePath) × Memᴰ base allowed × ((below : FilePath) × (p ≡ base ++ below))
unfolding starts_with_any
starts_with_any-Memᴰ p [] h = cc
starts_with_any-Memᴰ p (a ∷ allowed) h = elim (Bool-cases (path_starts_with p a)) [
  | inl here ↦ (a, Memᴰ.head refl, path_starts_with-splits p a here)
  | inr other ↦
      let (base, listed, below) = starts_with_any-Memᴰ p allowed (ground arith) in
      (base, Memᴰ.tail listed, below)
]

has_dots-IsNoDot : (cs : List Component) → has_dots cs ≡ false → All IsNoDot cs
unfolding has_dots
has_dots-IsNoDot [] h = tt
has_dots-IsNoDot (root_dir ∷ cs) h = ((λ e. cc, λ e. cc), has_dots-IsNoDot cs h)
has_dots-IsNoDot (cur_dir ∷ cs) h = cc
has_dots-IsNoDot (parent_dir ∷ cs) h = cc
has_dots-IsNoDot (normal x ∷ cs) h = ((λ e. cc, λ e. cc), has_dots-IsNoDot cs h)

is_absolute-root :
    (cs : List Component) → is_absolute cs ≡ true → (rest : List Component) × (cs ≡ root_dir ∷ rest)
is_absolute-root [] h = cc
is_absolute-root (root_dir ∷ cs) h = (cs, refl)
is_absolute-root (cur_dir ∷ cs) h = cc
is_absolute-root (parent_dir ∷ cs) h = cc
is_absolute-root (normal x ∷ cs) h = cc

no_symlink-All :
    (ps : List FilePath) (w : World)
    → (no_symlink ps w).0 ≡ ok true
    → All (λ (a : FilePath). w.symlink a ≡ false) ps
unfolding no_symlink
no_symlink-All [] w h = tt
no_symlink-All (a ∷ rest) w h =
    let (u, seen, k) = bind-ok _ _ w (Observes-attempt io (lstat a)) h in
    elim (Bool-cases (w.symlink a)) [
      | inl link ↦ ground arith
      | inr none' ↦ (none', no_symlink-All rest w (rw none' at k))
    ]

is_managed_target-IsManaged :
    (path : Text) (allowed : List FilePath) (w : World)
    → (is_managed_target (components path) allowed w).0 ≡ ok true
    → IsManaged allowed w path
unfolding is_managed_target
is_managed_target-IsManaged path allowed w h =
    let cs = components path in
    elim (Bool-cases (is_absolute cs)) [
      | inr relative ↦ absurd (ground arith)
      | inl absolute ↦ elim (Bool-cases (has_dots cs)) [
        | inl dots ↦ absurd (ground arith)
        | inr plain ↦ elim (Bool-cases (starts_with_any (normals cs) allowed)) [
          | inr outside ↦ absurd (ground arith)
          | inl inside ↦
              let (rest, e) = is_absolute-root cs absolute in
              let (base, listed, (below, split)) =
                starts_with_any-Memᴰ (normals cs) allowed inside in
              record {
                rest = rest;
                absolute = e;
                no_dots = has_dots-IsNoDot cs plain;
                base = base;
                listed = listed;
                below = below;
                inside = split;
                no_links =
                    no_symlink-All (ancestors (normals cs)) w (rw (absolute, plain, inside) at h);
              }
        ]
      ]
    ]

pub check_targets-IsManaged :
    (allowed : List FilePath) (files : List ManifestFile) (w : World)
    → (check_targets allowed files w).0 ≡ ok tt
    → All (λ (f : ManifestFile). IsManaged allowed w f.path) files
unfolding check_targets target_of
check_targets-IsManaged allowed [] w h = tt
check_targets-IsManaged allowed (f ∷ files) w h =
    let (managed, m, k) =
      bind-ok _ _ w (is_managed_target-Observes (components f.path) allowed) h in
    let (u, r, rest) = bind-ok _ _ w (Observes-lift _) k in
    let yes : managed ≡ true = refuse_unless-ok managed _ r in
    (
      is_managed_target-IsManaged f.path allowed w (ground arith),
      check_targets-IsManaged allowed files w rest,
    )
