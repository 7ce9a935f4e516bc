-- ===== src/GrubManager/Refusals.antt =====
-- crates/daemon/src/grub_manager.rs: the changes that are refused before anything is written.
use boot_control.Prelude.{false, none, some, List, ◌≡◌, ◌≢◌, refl, arith}
use boot_control.Text.{Text}
use boot_control.Error.{BootControlError, state_mismatch, err}
use boot_control.Hash.{compute_etag, verify_etag, verify_etag_iff}
use boot_control.Store.{FilePath, open_rw, lock, read, World, System, Io, attempt, read_to_string}
use boot_control.GrubManager.{
  LockedGrubState, take_lock, checked_config, set_grub_values_with_prewrite,
}

-- The calls up to the check of the ETag go well, and read this content.
pub record ReadsLocked (path : FilePath) (content : Text) (w : World) : Type 0 where
  pub opened : w.fault (open_rw path) ≡ none
  pub unlocked : w.busy path ≡ false
  pub locked : w.fault (lock path) ≡ none
  pub readable : w.fault (read path) ≡ none
  pub holds : w.files path ≡ some content

verify_etag-false :
    (digest : Text → Text) (etag content : Text)
    → etag ≢ compute_etag digest content
    → verify_etag digest etag content ≡ false
verify_etag-false digest etag content ne = ground (arith, verify_etag_iff digest etag content)

module _ (sys : System) (path failsafe_cfg grub_cfg_path : FilePath) (changes : List (Text × Text))
    (etag : Text) (prewrite : LockedGrubState → Io (Unit {0})) where
  abbrev change : Io (Unit {0})
  change = set_grub_values_with_prewrite sys path changes etag failsafe_cfg grub_cfg_path prewrite

  refused :
      (content : Text) (e : BootControlError) (w : World)
      → ReadsLocked path content w
      → checked_config sys.digest etag content ≡ err e
      → change w ≡ (err e, w)
  unfolding set_grub_values_with_prewrite attempt take_lock read_to_string
  refused content e w r h =
      rw (r.opened) (rw (r.unlocked) (rw (r.locked) (rw (r.readable) (rw (r.holds) (rw h refl)))))

  -- Where the file can be opened, locked and read, an ETag that is not that of its content makes the
  -- change fail with `StateMismatch`, which names both, and nothing in the system changes.
  pub set_grub_values_stale :
      (content : Text) (w : World)
      → ReadsLocked path content w
      → etag ≢ compute_etag sys.digest content
      → change w ≡ (err (state_mismatch etag (compute_etag sys.digest content)), w)
  set_grub_values_stale content w r ne =
      refused content _ w r
        (unfold checked_config in rw (verify_etag-false sys.digest etag content ne) refl)
