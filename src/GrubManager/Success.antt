-- ===== src/GrubManager/Success.antt =====
-- crates/daemon/src/grub_manager.rs: a change succeeds where nothing fails.
use boot_control.Failsafe.Writes.{refresh_failsafe_entry-Returns}
use boot_control.Prelude.{Option, some, List, ◌≡◌, ◌≢◌, refl, sym, ◌∙◌, arith, false, ap}
use boot_control.Text.{Text}
use boot_control.Error.{Result, ok, err}
use boot_control.Hash.{compute_etag, verify_etag_iff}
use boot_control.Grub.{GrubConfig, parse_grub_config}
use boot_control.Store.{
  FilePath, World, System, Io, ◌>>◌, attempt, read_to_string, open_rw, lock, read, metadata,
}
use boot_control.Store.Calm.{
  Calm, Returns, Returns-bind, Returns-attempt, Returns-create, Returns-write, Returns-rename,
}
use boot_control.Store.Keeps.{KeepsAt}
use boot_control.Failsafe.{refresh_failsafe_entry, build_tmp_path as failsafe_tmp_path}
use boot_control.GrubRebuild.{
  run_grub_mkconfig, ToolsKeep, MkconfigWorks, run_grub_mkconfig-Returns,
}
use boot_control.GrubManager.{
  build_tmp_path, apply_changes, new_content, write_file_atomically, LockedGrubState, take_lock,
  locked_mode, checked_config, set_grub_values_with_prewrite,
}
use boot_control.GrubManager.Atomic.{Outcome, IsReplaced, set_grub_values-Outcome}

write_file_atomically-Returns :
    (tmp target : FilePath) (ls : List Text) → Returns (write_file_atomically tmp target ls) tt
unfolding write_file_atomically
write_file_atomically-Returns tmp target ls = Returns-bind _ _ tt tt (Returns-create _ tmp) (
    Returns-bind _ _ tt tt (Returns-write _ tmp (new_content ls))
      (Returns-bind _ _ tt tt (Returns-attempt _ _) (Returns-rename _ tmp target)))

module _ (sys : System) (path failsafe_cfg grub_cfg_path : FilePath) (changes : List (Text × Text))
    (prewrite : LockedGrubState → Io (Unit {0})) (mkconfig : MkconfigWorks sys grub_cfg_path)
    (approves : (s : LockedGrubState) → Returns (prewrite s) tt) where
  after_checks :
      (s : LockedGrubState) (ls : List Text)
      → Returns
          (prewrite s
            >> (write_file_atomically (build_tmp_path path) path ls
                >> (refresh_failsafe_entry failsafe_cfg >> run_grub_mkconfig sys grub_cfg_path)))
          tt
  after_checks s ls = Returns-bind _ _ tt tt (approves s) (
      Returns-bind _ _ tt tt (write_file_atomically-Returns _ path ls) (
        Returns-bind _ _ tt tt (refresh_failsafe_entry-Returns failsafe_cfg)
          (run_grub_mkconfig-Returns sys grub_cfg_path mkconfig)))

  returns-ok :
      (content : Text) (config : GrubConfig) (w : World)
      → Calm w
      → w.busy path ≡ false
      → w.files path ≡ some content
      → parse_grub_config content ≡ ok config
      → let etag = compute_etag sys.digest content in
        (set_grub_values_with_prewrite sys path changes etag failsafe_cfg grub_cfg_path prewrite
          w).0
        ≡ ok tt
  unfolding set_grub_values_with_prewrite attempt take_lock read_to_string locked_mode
      checked_config
  returns-ok content config w calm free holds parsed =
      rw
        (
          calm (open_rw path),
          free,
          calm (lock path),
          calm (read path),
          holds,
          (verify_etag_iff sys.digest _ content).1 refl,
          parsed,
          calm (metadata path),
        )
        ((after_checks _ (apply_changes config.lines changes)).run w calm).0

  Outcome-IsReplaced :
      {etag : Text} {w : World} {old now : Option Text} (r : Result (Unit {0}))
      → r ≡ ok tt
      → Outcome sys.digest changes etag prewrite w old r now
      → IsReplaced sys.digest changes etag prewrite w old now
  Outcome-IsReplaced (ok _) e h = h
  Outcome-IsReplaced (err _) e h = cc

  replaced-content :
      (content : Text) (config : GrubConfig) {etag : Text} {w : World} {old now : Option Text}
      → old ≡ some content
      → parse_grub_config content ≡ ok config
      → IsReplaced sys.digest changes etag prewrite w old now
      → now ≡ some (new_content (apply_changes config.lines changes))
  replaced-content content config holds parsed r =
      let same : content ≡ r.content = ground (arith, r.checked.read, holds) in
      let again : ok config ≡ ok r.config =
        sym parsed ∙ (ap parse_grub_config same ∙ r.checked.parsed) in
      let configs : config ≡ r.config = ground arith in
      r.written
      ∙ ap (λ (c : GrubConfig). some (new_content (apply_changes c.lines changes))) (sym configs)

  module _ (tools : ToolsKeep sys path)
      (snapshot : (s : LockedGrubState) → KeepsAt path (prewrite s)) (other : failsafe_cfg ≢ path)
      (tmp_other : failsafe_tmp_path failsafe_cfg ≢ path) where
    -- If no call fails, nobody else holds the lock, the parser accepts the file, the ETag is that of
    -- its content, `prewrite` succeeds and grub-mkconfig exits with 0, and if these two leave the
    -- file alone and the failsafe entry is elsewhere, then the change succeeds, and the file holds
    -- the lines changed.
    pub set_grub_values_succeeds :
        (content : Text) (config : GrubConfig) (w : World)
        → Calm w
        → w.busy path ≡ false
        → w.files path ≡ some content
        → parse_grub_config content ≡ ok config
        → let (r, w') =
            set_grub_values_with_prewrite sys path changes
              (compute_etag sys.digest content)
              failsafe_cfg
              grub_cfg_path
              prewrite
              w in
          (r ≡ ok tt) × (w'.files path ≡ some (new_content (apply_changes config.lines changes)))
    set_grub_values_succeeds content config w calm free holds parsed =
        let succeeded = returns-ok content config w calm free holds parsed in
        let etag = compute_etag sys.digest content in
        let outcome =
          set_grub_values-Outcome sys path failsafe_cfg grub_cfg_path changes etag prewrite tools
            snapshot other tmp_other w in
        (
          succeeded,
          replaced-content content config holds parsed (Outcome-IsReplaced _ succeeded outcome),
        )
