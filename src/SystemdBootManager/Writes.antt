-- ===== src/SystemdBootManager/Writes.antt =====
-- crates/daemon/src/systemd_boot_manager.rs: a write is all or nothing, and checks the ETag of a file
-- that is there.
use boot_control.Prelude.{
  Option, none, some, ◌≡◌, ◌≢◌, ◌⊎◌, inl, inr, refl, arith, ◌∙◌, [], Bool-cases, sym, ap, ◌++◌, ◌∷◌,
  if◌then◌else◌,
}
use boot_control.Text.{Text, codes}
use boot_control.Error.{Result, ok, err}
use boot_control.Hash.{compute_etag, verify_etag_iff}
use boot_control.Store.{
  FilePath, World, attempt, create_file, write_all, rename_file, open_rw, Io, file_name,
}
use boot_control.Store.Paths.{path_eq_ne, path_eq_refl, file_name-join}
use boot_control.Store.Trees.{path_exists}
use boot_control.Store.Observes.{
  Observes, Observes-lift, Observes-attempt, Observes-read, Observes-bind, bind-ok, bind-observed,
  read_to_string-ok,
}
use boot_control.Failsafe.{or_default}
use boot_control.GrubManager.Atomic.{suffix-ne}
use boot_control.UkiManager.Atomic.{take_lock-Observes}
use boot_control.SystemdBootManager.{
  build_tmp_path, write_atomically, check_etag, check_existing, atomic_write_with_etag,
}

longer_name :
    (name : Option Text) → name ≢ some (or_default (codes "entry") name ++ codes ".bootcontrol.tmp")
longer_name none e = cc
longer_name (some name) e = ground (arith, suffix-ne name)

-- The temporary file is not the file itself.
pub build_tmp_path-ne : (path : FilePath) → build_tmp_path path ≢ path
unfolding build_tmp_path
build_tmp_path-ne path e = longer_name (file_name path) (sym (ap file_name e) ∙ file_name-join _ _)

-- A file that is there has the ETag, unless the given one is empty.
abbrev pub IsFresh : (Text → Text) → Text → Option Text → Type 0
IsFresh digest etag none = Unit
IsFresh digest etag (some content) = (etag ≡ []) ⊎ (etag ≡ compute_etag digest content)

-- The file holds the new content, or it is as it was.
abbrev pub WriteOutcome :
    (Text → Text) → Text → FilePath → Text → World → Result (Unit {0}) × World → Type 0
WriteOutcome digest etag path new w (ok _, w') =
    IsFresh digest etag (w.files path) × (w'.files path ≡ some new)
WriteOutcome digest etag path new w (err _, w') = w'.files path ≡ w.files path

write_atomically-WriteOutcome :
    (digest : Text → Text) (etag new : Text) (path tmp : FilePath) (w : World)
    → tmp ≢ path
    → IsFresh digest etag (w.files path)
    → WriteOutcome digest etag path new w (write_atomically tmp path new w)
unfolding write_atomically attempt create_file write_all rename_file
write_atomically-WriteOutcome digest etag new path tmp w ne fresh =
    ground (arith, path_eq_ne tmp path ne, path_eq_refl path, path_eq_refl tmp, fresh)

module _ (unicode digest debug : Text → Text) where
  check_etag-fresh :
      (etag content : Text)
      → check_etag unicode digest debug etag content ≡ ok tt
      → (etag ≡ []) ⊎ (etag ≡ compute_etag digest content)
  unfolding check_etag
  check_etag-fresh [] content h = inl refl
  check_etag-fresh (c ∷ etag) content h = ground (arith, verify_etag_iff digest (c ∷ etag) content)

module _ (unicode digest debug : Text → Text) (path : FilePath) (etag : Text) where
  check_existing-Observes : Observes (check_existing unicode digest debug path etag)
  unfolding check_existing
  check_existing-Observes = Observes-bind _ _ (Observes-attempt _ (open_rw path)) λ _.
      Observes-bind _ _ (take_lock-Observes path) λ _.
        Observes-bind _ _ (Observes-read _ path)
          λ content. Observes-lift (check_etag unicode digest debug etag content)

  check_existing-IsFresh :
      (w : World)
      → (check_existing unicode digest debug path etag w).0 ≡ ok tt
      → IsFresh digest etag (w.files path)
  unfolding check_existing
  check_existing-IsFresh w h =
      let (_, _, h1) = bind-ok _ _ w (Observes-attempt _ (open_rw path)) h in
      let (_, _, h2) = bind-ok _ _ w (take_lock-Observes path) h1 in
      let (content, got, h3) = bind-ok _ _ w (Observes-read _ path) h2 in
      let holds = read_to_string-ok _ path w content got in
      rw holds (check_etag-fresh unicode digest debug etag content h3)

  abbrev first_check : Io (Unit {0})
  first_check w =
      if path_exists w path then check_existing unicode digest debug path etag w else (ok tt, w)

  first_check-Observes : Observes first_check
  first_check-Observes = record { same = λ w. ground (arith, check_existing-Observes.same w) }

  first_check-IsFresh : (w : World) → (first_check w).0 ≡ ok tt → IsFresh digest etag (w.files path)
  first_check-IsFresh w h = elim (Bool-cases (path_exists w path)) [
    | inl there ↦ check_existing-IsFresh w (rw there at h)
    | inr missing ↦ let none_there : w.files path ≡ none = ground arith in rw none_there tt
  ]

  -- Whichever call fails, a write succeeds, and the file holds the new content and, if it was there,
  -- held one with the given ETag, or the given ETag is empty; or it fails and the file is as it was.
  pub atomic_write_with_etag-WriteOutcome :
      (new : Text) (w : World)
      → WriteOutcome digest etag path new w
          (atomic_write_with_etag unicode digest debug path new etag w)
  unfolding atomic_write_with_etag
  atomic_write_with_etag-WriteOutcome new w =
      bind-observed (WriteOutcome digest etag path new w) first_check _ w first_check-Observes
        (λ e _. refl)
        λ _ checked.
          write_atomically-WriteOutcome digest etag new path (build_tmp_path path) w
            (build_tmp_path-ne path) (first_check-IsFresh w checked)
