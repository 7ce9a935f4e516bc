-- ===== src/UkiManager/Atomic.antt =====
-- crates/daemon/src/uki_manager.rs: an update of /etc/kernel/cmdline is all or nothing, and keeps
-- the mode of the file.
use boot_control.Store.Calm.{Calm}
use boot_control.Prelude.{
  Option, none, some, [], ◌∷◌, ◌≡◌, ◌≢◌, refl, ◌∙◌, arith, inl, inr, Option-cases, false,
}
use boot_control.Text.{Text, codes}
use boot_control.Error.{Result, ok, err, ◌>>=◌ as ◌>>=ᵣ◌, Result-cases}
use boot_control.Hash.{compute_etag, verify_etag_iff}
use boot_control.Store.{
  FilePath, parent, World, System, Io, open_rw, attempt, read_to_string, write_all, rename_file,
  set_permissions, lift, create, ◌>>=◌, metadata, set_mode, write, sync, rename, lock, read,
}
use boot_control.Store.Paths.{path_eq_ne, path_eq_refl}
use boot_control.Store.Observes.{
  Observes, Observes-lift, Observes-attempt, Observes-read, bind-observed, read_to_string-ok,
}
use boot_control.Failsafe.{or_default}
use boot_control.GrubManager.{take_lock}
use boot_control.UkiManager.{
  with_new, check_cmdline_etag, drop_temp, with_temp, write_temp, tmp_path, create_cmdline_temp,
  atomic_cmdline_update,
}

pub take_lock-Observes : (path : FilePath) → Observes (take_lock path)
unfolding take_lock attempt
take_lock-Observes path = record { same = λ w. ground arith }

-- What the file holds after the temporary file was written or given up; its mode is the old one.
abbrev Placed : FilePath → Text → World → Result (Unit {0}) × World → Type 0
Placed path new w (ok _, w') = (w'.files path ≡ some new) × (w'.mode path ≡ w.mode path)
Placed path new w (err _, w') = (w'.files path ≡ w.files path) × (w'.mode path ≡ w.mode path)

with_temp-Placed :
    (path tmp : FilePath) (new : Text) (w : World)
    → tmp ≢ path
    → Placed path new w (with_temp tmp (write_temp path tmp new) w)
unfolding with_temp write_temp drop_temp attempt set_permissions write_all rename_file
with_temp-Placed path tmp new w ne =
    ground (arith, path_eq_ne tmp path ne, path_eq_refl path, path_eq_refl tmp)

-- The file held a content with the ETag, and holds what the change makes of it.
pub record IsUpdated (digest : Text → Text) (etag : Text) (transform : Text → Result Text)
    (old now : Option Text) : Type 0 where
  pub content : Text
  pub new_content : Text
  pub read : old ≡ some content
  pub fresh : etag ≡ compute_etag digest content
  pub made : transform content ≡ ok new_content
  pub written : now ≡ some new_content

abbrev pub UpdateOutcome :
    (Text → Text)
    → Text
    → (Text → Result Text)
    → FilePath
    → World
    → Result (Unit {0}) × World
    → Type 0
UpdateOutcome digest etag transform path w (ok _, w') =
    IsUpdated digest etag transform (w.files path) (w'.files path) × (w'.mode path ≡ w.mode path)
UpdateOutcome digest etag transform path w (err _, w') =
    (w'.files path ≡ w.files path) × (w'.mode path ≡ w.mode path)

check_cmdline_etag-fresh :
    (digest : Text → Text) (etag content : Text)
    → check_cmdline_etag digest etag content ≡ ok tt
    → etag ≡ compute_etag digest content
unfolding check_cmdline_etag
check_cmdline_etag-fresh digest etag content h = ground (arith, verify_etag_iff digest etag content)

module _ (sys : System) (tmp_name : World → Text) (path : FilePath) (etag : Text)
    (transform : Text → Result Text) where
  abbrev dir : FilePath
  dir = or_default (codes "etc" ∷ codes "kernel" ∷ []) (parent path)

  abbrev Holds : World → Result (Unit {0}) × World → Type 0
  Holds w = UpdateOutcome sys.digest etag transform path w

  abbrev pub tmp_of : World → FilePath
  tmp_of w = tmp_path sys tmp_name dir w

  Placed-Holds :
      (content new : Text) (w v : World) (out : Result (Unit {0}) × World)
      → w.files path ≡ some content
      → etag ≡ compute_etag sys.digest content
      → transform content ≡ ok new
      → v.files path ≡ w.files path
      → v.mode path ≡ w.mode path
      → Placed path new v out
      → Holds w out
  Placed-Holds content new w v (ok _, w') holds fresh made files mode p = (
    record {
      content = content;
      new_content = new;
      read = holds;
      fresh = fresh;
      made = made;
      written = p.0;
    },
    p.1 ∙ mode,
  )
  Placed-Holds content new w v (err _, w') holds fresh made files mode p = (p.0 ∙ files, p.1 ∙ mode)

  place-Holds :
      (content new : Text) (w : World)
      → tmp_of w ≢ path
      → w.files path ≡ some content
      → etag ≡ compute_etag sys.digest content
      → transform content ≡ ok new
      → Holds w (
          (create_cmdline_temp sys tmp_name dir >>= λ tmp. with_temp tmp (write_temp path tmp new))
            w)
  unfolding create_cmdline_temp
  place-Holds content new w ne holds fresh made =
      elim (Option-cases (w.fault (create (tmp_of w)))) [
        | inl works ↦
            rw (create_cmdline_temp, works)
              (Placed-Holds content new w (with_new (tmp_of w) w) _ holds fresh made
                (rw (path_eq_ne (tmp_of w) path ne) refl) (rw (path_eq_ne (tmp_of w) path ne) refl)
                (with_temp-Placed path (tmp_of w) new (with_new (tmp_of w) w) ne))
        | inr (e, fails) ↦ rw (create_cmdline_temp, fails) (refl, refl)
      ]

  -- If the temporary file is given a name that no file has, then an update of the command line,
  -- whichever call fails, either succeeds, and the file holds what the change makes of a content that
  -- had the ETag, or fails and leaves its content; the mode of the file stays.
  pub atomic_cmdline_update-UpdateOutcome :
      (w : World)
      → w.files (tmp_of w) ≡ none
      → UpdateOutcome sys.digest etag transform path w
          (atomic_cmdline_update sys tmp_name path etag transform w)
  unfolding atomic_cmdline_update
  atomic_cmdline_update-UpdateOutcome w unused =
      bind-observed (Holds w) _ _ w (Observes-attempt _ (open_rw path)) (λ e h. (refl, refl))
        λ _ _.
          bind-observed (Holds w) _ _ w (take_lock-Observes path) (λ e h. (refl, refl))
            λ _ _.
              bind-observed (Holds w) _ _ w (Observes-read _ path) (λ e h. (refl, refl))
                λ content got.
                  bind-observed (Holds w) _ _ w (Observes-lift _) (λ e h. (refl, refl))
                    λ _ checked.
                      bind-observed (Holds w) _ _ w (Observes-lift (transform content))
                        (λ e h. (refl, refl))
                        λ new made.
                          let holds = read_to_string-ok _ path w content got in
                          place-Holds content new w (λ e. cc (unused, holds, e)) holds
                            (check_cmdline_etag-fresh sys.digest etag content checked) made

  with_temp-Calm :
      (tmp : FilePath) (new : Text) (w : World)
      → Calm w
      → (with_temp tmp (write_temp path tmp new) w).0 ≡ ok tt
  unfolding with_temp write_temp attempt set_permissions write_all rename_file
  with_temp-Calm tmp new w calm = ground (
    arith,
    calm (metadata path),
    calm (set_mode tmp),
    calm (write tmp),
    calm (sync tmp),
    calm (rename tmp),
  )

  abbrev change : Text → Io (Unit {0})
  change content = lift (transform content) >>= λ new_content.
      create_cmdline_temp sys tmp_name dir >>= λ tmp.
      with_temp tmp (write_temp path tmp new_content)

  changed-Calm :
      (content : Text) (w : World)
      → Calm w
      → (change content w).0 ≡ (transform content >>=ᵣ λ _. ok tt)
  unfolding create_cmdline_temp
  changed-Calm content w calm = elim (Result-cases (transform content)) [
    | inl (new, made) ↦
        rw (made, create_cmdline_temp, calm (create (tmp_of w)))
          (with_temp-Calm (tmp_of w) new (with_new (tmp_of w) w) calm)
    | inr (e, fails) ↦ rw fails refl
  ]

  -- If no call fails, nobody else holds the lock and the ETag is that of the content, then an update
  -- of the command line succeeds when the change does, and otherwise returns its error.
  pub atomic_cmdline_update_lem :
      (content : Text) (w : World)
      → Calm w
      → w.busy path ≡ false
      → w.files path ≡ some content
      → etag ≡ compute_etag sys.digest content
      → (atomic_cmdline_update sys tmp_name path etag transform w).0
        ≡ (transform content >>=ᵣ λ _. ok tt)
  unfolding atomic_cmdline_update attempt take_lock read_to_string check_cmdline_etag
      create_cmdline_temp
  atomic_cmdline_update_lem content w calm free holds fresh =
      rw
        (
          calm (open_rw path),
          free,
          calm (lock path),
          calm (read path),
          holds,
          (verify_etag_iff sys.digest etag content).1 fresh,
        )
        (changed-Calm content w calm)
