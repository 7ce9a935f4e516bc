-- ===== src/Snapshots/Contained.antt =====
-- crates/daemon/src/snapshot.rs: a restore changes managed files only, and only into captured bytes
-- that pass their check.
use mathlib.Core.List.{Memᴰ}
use mathlib.Core.List.Memᴰ
use boot_control.Prelude.{
  ℕ, suc, ◌≡◌, ◌≢◌, ◌⊎◌, inl, inr, List, [], ◌∷◌, some, refl, ◌∙◌, All, arith, Bool-cases,
  Option-cases, subst, ap, sym,
}
use boot_control.Text.{Text}
use boot_control.Error.{ResultOf, ok, err}
use boot_control.Store.{
  FilePath, World, path_eq, parent, file_name, attempt, write_all, set_permissions, rename_file,
  continue,
}
use boot_control.Store.Paths.{path_eq_iff, path_eq_ne, path_eq_refl}
use boot_control.Store.Trees.{create_new, remove_file}
use boot_control.Snapshots.{SnapshotError}
use boot_control.Snapshots.Restore.{
  Replacement, dropping, restore_tmp_path, write_replacement, atomic_restore_file, restore_all,
}

module _ (dir tmp target : FilePath) (bytes : Text) (mode : ℕ) (w : World) where
  abbrev replaced : ResultOf SnapshotError (Unit {0}) × World
  replaced = dropping tmp (write_replacement dir tmp target bytes mode w)

  replaced-other : (p : FilePath) → tmp ≢ p → target ≢ p → replaced.1.files p ≡ w.files p
  unfolding write_replacement create_new write_all set_permissions attempt rename_file remove_file
  replaced-other p ne ne' = ground (arith, path_eq_ne tmp p ne, path_eq_ne target p ne')

  replaced-target :
      tmp ≢ target
      → (replaced.1.files target ≡ w.files target) ⊎ (replaced.1.files target ≡ some bytes)
  unfolding write_replacement create_new write_all set_permissions attempt rename_file remove_file
  replaced-target ne =
      ground (arith, path_eq_ne tmp target ne, path_eq_refl target, path_eq_refl tmp)

  replaced-ok : tmp ≢ target → replaced.0 ≡ ok tt → replaced.1.files target ≡ some bytes
  unfolding write_replacement create_new write_all set_permissions attempt rename_file remove_file
  replaced-ok ne h = ground (arith, path_eq_ne tmp target ne, path_eq_refl target, path_eq_refl tmp)

-- A path that no temporary file of a restore has.
abbrev pub NotTemp : ℕ → FilePath → Type 0
NotTemp pid p = (dir : FilePath) (name : Text) (index : ℕ) → restore_tmp_path pid dir name index ≢ p

-- One of the replacements was written to `p`.
pub record Wrote (P : Replacement → Type 0) (p : FilePath) (w : World) : Type 0 where
  pub replacement : Replacement
  pub chosen : P replacement
  pub target : replacement.target ≡ p
  pub written : w.files p ≡ some replacement.bytes

module _ (pid : ℕ) (P : Replacement → Type 0) (p : FilePath) (not_tmp : NotTemp pid p) where
  -- What one replacement does at `p`.
  Step : Replacement → World → ResultOf SnapshotError (Unit {0}) × World → Type 0
  Step r w out =
      ((out.1.files p ≡ w.files p) ⊎ ((r.target ≡ p) × (out.1.files p ≡ some r.bytes)))
      × (out.0 ≡ ok tt → r.target ≡ p → out.1.files p ≡ some r.bytes)

  replaced-Step :
      (r : Replacement) (dir tmp : FilePath) (w : World)
      → tmp ≢ p
      → Step r w (dropping tmp (write_replacement dir tmp r.target r.bytes r.mode w))
  unfolding Step
  replaced-Step r dir tmp w ne =
      let out = replaced dir tmp r.target r.bytes r.mode w in
      elim (Bool-cases (path_eq r.target p)) [
        | inl same ↦
            let e = (path_eq_iff r.target p).0 same in
            let ne' : tmp ≢ r.target = λ e'. ne (e' ∙ e) in
            subst
              (λ (q : FilePath).
                ((out.1.files q ≡ w.files q) ⊎ ((r.target ≡ p) × (out.1.files q ≡ some r.bytes)))
                × (out.0 ≡ ok tt → r.target ≡ p → out.1.files q ≡ some r.bytes))
              e
              (
                elim (replaced-target dir tmp r.target r.bytes r.mode w ne') [
                  | inl old ↦ inl old
                  | inr new ↦ inr (e, new)
                ],
                λ h _. replaced-ok dir tmp r.target r.bytes r.mode w ne' h,
              )
        | inr other ↦
            let ne' : r.target ≢ p = λ e. ground (arith, path_eq_iff r.target p) in
            (inl (replaced-other dir tmp r.target r.bytes r.mode w p ne ne'), λ h e. absurd (ne' e))
      ]

  atomic_restore_file-Step :
      (r : Replacement) (index : ℕ) (w : World) → Step r w (atomic_restore_file pid r index w)
  unfolding atomic_restore_file Step
  atomic_restore_file-Step r index w = elim (Option-cases (parent r.target)) [
    | inl rootless ↦ rw rootless (inl refl, λ h. cc)
    | inr (dir, has_dir) ↦ elim (Option-cases (file_name r.target)) [
      | inl nameless ↦ rw (has_dir, nameless) (inl refl, λ h. cc)
      | inr (name, has_name) ↦
          rw (has_dir, has_name) (replaced-Step r dir _ w (not_tmp dir name index))
    ]
  ]

  -- What a run of replacements does at `p`.
  abbrev pub AllSteps :
      List Replacement → World → ResultOf SnapshotError (Unit {0}) × World → Type 0
  AllSteps rs w out =
      ((out.1.files p ≡ w.files p) ⊎ Wrote P p out.1)
      × (out.0 ≡ ok tt → (r : Replacement) → Memᴰ r rs → r.target ≡ p → Wrote P p out.1)

  wrote :
      (r : Replacement) (w : World) → P r → r.target ≡ p → w.files p ≡ some r.bytes → Wrote P p w
  wrote r w h e written = record { replacement = r; chosen = h; target = e; written = written }

  -- The replacements behind the first one.
  after_step :
      (r : Replacement) (rs : List Replacement) (w v : World)
      (out : ResultOf SnapshotError (Unit {0}) × World)
      → P r
      → ((v.files p ≡ w.files p) ⊎ ((r.target ≡ p) × (v.files p ≡ some r.bytes)))
      → (r.target ≡ p → v.files p ≡ some r.bytes)
      → AllSteps rs v out
      → AllSteps (r ∷ rs) w out
  after_step r rs w v out chosen step done (inl same, all_done) = (
    elim step [
      | inl old ↦ inl (same ∙ old)
      | inr (e, new) ↦ inr (wrote r out.1 chosen e (same ∙ new))
    ],
    λ h s m e. elim (Memᴰ.cases_cons m) [
      | inl here ↦
          let target : r.target ≡ p = ap (λ (x : Replacement). x.target) (sym here) ∙ e in
          wrote r out.1 chosen target (same ∙ done target)
      | inr later ↦ all_done h s later e
    ],
  )
  after_step r rs w v out chosen step done (inr new, all_done) = (inr new, λ h s m e. new)

  next_steps :
      (index : ℕ) (r : Replacement) (rs : List Replacement) (w : World)
      (out : ResultOf SnapshotError (Unit {0}) × World)
      → P r
      → Step r w out
      → ((v : World) → AllSteps rs v (restore_all pid (suc index) rs v))
      → AllSteps (r ∷ rs) w (continue out.0 (λ _. restore_all pid (suc index) rs) out.1)
  unfolding Step
  next_steps index r rs w (ok u, v) chosen step rest =
      after_step r rs w v _ chosen step.0 (step.1 refl) (rest v)
  next_steps index r rs w (err e, v) chosen step rest =
      (elim step.0 [ inl same ↦ inl same | inr (t, new) ↦ inr (wrote r v chosen t new) ], λ k. cc)

  pub restore_all-AllSteps :
      (index : ℕ) (rs : List Replacement) (w : World)
      → All P rs
      → AllSteps rs w (restore_all pid index rs w)
  unfolding restore_all
  restore_all-AllSteps index [] w h = (inl refl, λ _ r m e. absurd (Memᴰ.not-nil m))
  restore_all-AllSteps index (r ∷ rs) w h =
      next_steps index r rs w _ h.0 (atomic_restore_file-Step r index w)
        λ v. restore_all-AllSteps (suc index) rs v h.1
