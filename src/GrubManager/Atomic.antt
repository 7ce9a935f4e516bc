-- ===== src/GrubManager/Atomic.antt =====
-- crates/daemon/src/grub_manager.rs: a change of the GRUB configuration is all or nothing.
use boot_control.Store.Observes.{
  read_to_string-ok, Observes, Observes-attempt, Observes-lift, Observes-read, bind-observed,
}
use boot_control.Prelude.{
  Option, none, some, List, ◌++◌, ◌≡◌, ◌≢◌, ◌⊎◌, inl, inr, refl, sym, ◌∙◌, arith, length,
  length-append, ap,
}
use boot_control.Text.{Text, codes}
use boot_control.Error.{BootControlError, Result, ok, err}
use boot_control.Hash.{compute_etag, verify_etag_iff}
use boot_control.Grub.{GrubConfig, parse_grub_config}
use boot_control.Store.{
  FilePath, file_name, World, System, Io, ◌>>◌, attempt, create_file, write_all, rename_file,
  continue,
}
use boot_control.Store.Paths.{path_eq_ne, path_eq_refl, file_name-join}
use boot_control.Store.Keeps.{KeepsAt, KeepsAt-bind, bind-result}
use boot_control.Failsafe.{or_default, build_tmp_path as failsafe_tmp_path}
use boot_control.Failsafe.{refresh_failsafe_entry}
use boot_control.Failsafe.Writes.{refresh_failsafe_entry-KeepsAt}
use boot_control.GrubRebuild.{run_grub_mkconfig, ToolsKeep, run_grub_mkconfig-KeepsAt}
use boot_control.GrubManager.{
  build_tmp_path, apply_changes, new_content, write_file_atomically, LockedGrubState, take_lock,
  locked_mode, checked_config, set_grub_values_with_prewrite,
}

pub suffix-ne : (name : Text) → name ++ codes ".bootcontrol.tmp" ≢ name
unfolding codes
suffix-ne name e = absurd (
    omega (arith, ap (λ (s : Text). length s) e, length-append {0} name (codes ".bootcontrol.tmp")))

longer_name :
    (name : Option Text) → name ≢ some (or_default (codes "grub") name ++ codes ".bootcontrol.tmp")
longer_name none e = cc
longer_name (some name) e = ground (arith, suffix-ne name)

-- The temporary file is not the file itself.
pub build_tmp_path-ne : (path : FilePath) → build_tmp_path path ≢ path
unfolding build_tmp_path
build_tmp_path-ne path e = longer_name (file_name path) (sym (ap file_name e) ∙ file_name-join _ _)

-- What the write leaves: the new content, or on an error the old one.
abbrev Written : Option Text → Text → Result (Unit {0}) → Option Text → Type 0
Written old new (ok _) content = content ≡ some new
Written old new (err _) content = content ≡ old

write_file_atomically-Written :
    (tmp target : FilePath) (ls : List Text) (w : World) (old : Option Text)
    → tmp ≢ target
    → w.files target ≡ old
    → let (r, w') = write_file_atomically tmp target ls w in
      Written old (new_content ls) r (w'.files target)
unfolding write_file_atomically create_file write_all attempt rename_file
write_file_atomically-Written tmp target ls w old ne e =
    ground (arith, path_eq_ne tmp target ne, path_eq_refl target, path_eq_refl tmp)

-- What has been found out when the write begins: the content under the lock has the ETag, the
-- parser accepts it, and `prewrite`, given it in the world of the call, succeeded.
pub record IsChecked (digest : Text → Text) (etag : Text)
    (prewrite : LockedGrubState → Io (Unit {0})) (w : World) (old : Option Text) (content : Text)
    (config : GrubConfig) : Type 0 where
  pub read : old ≡ some content
  pub fresh : etag ≡ compute_etag digest content
  pub parsed : parse_grub_config content ≡ ok config
  pub mode : Text
  pub approved : (prewrite (record { bytes = content; mode = mode }) w).0 ≡ ok tt

-- The file holds the changed lines of a file that was checked.
pub record IsReplaced (digest : Text → Text) (changes : List (Text × Text)) (etag : Text)
    (prewrite : LockedGrubState → Io (Unit {0})) (w : World) (old now : Option Text) : Type 0 where
  pub content : Text
  pub config : GrubConfig
  pub checked : IsChecked digest etag prewrite w old content config
  pub written : now ≡ some (new_content (apply_changes config.lines changes))

-- On success the file is replaced; on an error it is replaced or as it was.
abbrev pub Outcome :
    (Text → Text)
    → List (Text × Text)
    → Text
    → (LockedGrubState → Io (Unit {0}))
    → World
    → Option Text
    → Result (Unit {0})
    → Option Text
    → Type 0
Outcome digest changes etag prewrite w old (ok _) now =
    IsReplaced digest changes etag prewrite w old now
Outcome digest changes etag prewrite w old (err _) now =
    (now ≡ old) ⊎ IsReplaced digest changes etag prewrite w old now

checked_config-ok :
    (digest : Text → Text) (etag content : Text) (config : GrubConfig)
    → checked_config digest etag content ≡ ok config
    → (etag ≡ compute_etag digest content) × (parse_grub_config content ≡ ok config)
unfolding checked_config
checked_config-ok digest etag content config h = ground (arith, verify_etag_iff digest etag content)

take_lock-Observes : (path : FilePath) → Observes (take_lock path)
unfolding take_lock attempt
take_lock-Observes path = record { same = λ w. ground arith }

locked_mode-Observes : (path : FilePath) → Observes (locked_mode path)
unfolding locked_mode attempt
locked_mode-Observes path = record { same = λ w. ground arith }

-- The file after the write and what follows it: new, or on an error new or old.
abbrev pub Effect : Option Text → Text → Result (Unit {0}) → Option Text → Type 0
Effect old new (ok _) now = now ≡ some new
Effect old new (err _) now = (now ≡ old) ⊎ (now ≡ some new)

new-Effect :
    (old : Option Text) (new : Text) (r : Result (Unit {0})) {now : Option Text}
    → now ≡ some new
    → Effect old new r now
new-Effect old new (ok _) e = e
new-Effect old new (err _) e = inr e

-- After the rename nothing touches the file, and before it the file is as it was.
Written-Effect :
    (path : FilePath) (tail : Io (Unit {0})) (old : Option Text) (new : Text)
    → KeepsAt path tail
    → (r : Result (Unit {0})) (w : World) → Written old new r (w.files path)
    → let (r', w') = continue r (λ _. tail) w in Effect old new r' (w'.files path)
Written-Effect path tail old new keep (err e) w written = inl written
Written-Effect path tail old new keep (ok _) w written =
    new-Effect old new (tail w).0 (keep.at w ∙ written)

module _ (sys : System) (path failsafe_cfg grub_cfg_path : FilePath) where
  -- What follows the write.
  abbrev pub refreshed : Io (Unit {0})
  refreshed = refresh_failsafe_entry failsafe_cfg >> run_grub_mkconfig sys grub_cfg_path

  abbrev pub write_then : List Text → Io (Unit {0})
  write_then ls = write_file_atomically (build_tmp_path path) path ls >> refreshed

  pub refreshed-KeepsAt :
      (p : FilePath)
      → ToolsKeep sys p
      → failsafe_cfg ≢ p
      → failsafe_tmp_path failsafe_cfg ≢ p
      → KeepsAt p refreshed
  refreshed-KeepsAt p tools other tmp_other =
      KeepsAt-bind p _ _ (refresh_failsafe_entry-KeepsAt p failsafe_cfg other tmp_other)
        λ _. run_grub_mkconfig-KeepsAt sys p grub_cfg_path tools

  pub write_then-Effect :
      (ls : List Text) (old : Option Text) (v : World)
      → KeepsAt path refreshed
      → v.files path ≡ old
      → Effect old (new_content ls) (write_then ls v).0 ((write_then ls v).1.files path)
  write_then-Effect ls old v keep same =
      Written-Effect path refreshed old (new_content ls) keep
        (write_file_atomically (build_tmp_path path) path ls v).0
        (write_file_atomically (build_tmp_path path) path ls v).1
        (write_file_atomically-Written (build_tmp_path path) path ls v old (build_tmp_path-ne path)
          same)

  module _ (changes : List (Text × Text)) (etag : Text) (prewrite : LockedGrubState → Io (Unit {0}))
      (w : World) where
    -- A call is refused in the world that it met, or `prewrite` runs in it, and the write behind.
    pub data Runs : Result (Unit {0}) × World → Type 0 where
      refused : (why : BootControlError) → Runs (err why, w)
      ran :
          (content : Text) (config : GrubConfig) (mode : Text)
          → w.files path ≡ some content
          → etag ≡ compute_etag sys.digest content
          → parse_grub_config content ≡ ok config
          → Runs (
              (prewrite (record { bytes = content; mode = mode })
                  >> write_then (apply_changes config.lines changes))
                w)

    pub set_grub_values-Runs :
        Runs (
          set_grub_values_with_prewrite sys path changes etag failsafe_cfg grub_cfg_path prewrite w)
    unfolding set_grub_values_with_prewrite
    set_grub_values-Runs =
        bind-observed Runs _ _ w (Observes-attempt _ _) (λ e _. Runs.refused e)
          λ _ _.
            bind-observed Runs _ _ w (take_lock-Observes path) (λ e _. Runs.refused e)
              λ _ _.
                bind-observed Runs _ _ w (Observes-read _ path) (λ e _. Runs.refused e)
                  λ content got.
                    bind-observed Runs _ _ w
                      (Observes-lift (checked_config sys.digest etag content))
                      (λ e _. Runs.refused e)
                      λ config checked.
                        bind-observed Runs _ _ w (locked_mode-Observes path) (λ e _. Runs.refused e)
                          λ mode _.
                            let (fresh, parsed) =
                              checked_config-ok sys.digest etag content config checked in
                            Runs.ran content config mode (read_to_string-ok _ path w content got)
                              fresh parsed

    Effect-Outcome :
        (content : Text) (config : GrubConfig)
        → IsChecked sys.digest etag prewrite w (w.files path) content config
        → (r : Result (Unit {0})) (now : Option Text)
        → Effect (w.files path) (new_content (apply_changes config.lines changes)) r now
        → Outcome sys.digest changes etag prewrite w (w.files path) r now
    Effect-Outcome content config checked (ok _) now e = record {
      content = content;
      config = config;
      checked = checked;
      written = e;
    }
    Effect-Outcome content config checked (err _) now (inl same) = inl same
    Effect-Outcome content config checked (err _) now (inr e) =
        inr (record { content = content; config = config; checked = checked; written = e })

    Runs-Outcome :
        KeepsAt path refreshed
        → ((s : LockedGrubState) → KeepsAt path (prewrite s))
        → (out : Result (Unit {0}) × World) → Runs out
        → Outcome sys.digest changes etag prewrite w (w.files path) out.0 (out.1.files path)
    Runs-Outcome keep snapshot _ (Runs.refused why) = inl refl
    Runs-Outcome keep snapshot _ (Runs.ran content config mode read fresh parsed) =
        bind-result path (Outcome sys.digest changes etag prewrite w (w.files path))
          (prewrite (record { bytes = content; mode = mode }))
          (λ _. write_then (apply_changes config.lines changes)) w (snapshot _) (λ e. inl refl)
          λ _ v approved same.
            Effect-Outcome content config
              (record {
                read = read;
                fresh = fresh;
                parsed = parsed;
                mode = mode;
                approved = approved;
              })
              _ _
              (write_then-Effect (apply_changes config.lines changes) (w.files path) v keep same)

module _ (sys : System) (path failsafe_cfg grub_cfg_path : FilePath) (changes : List (Text × Text))
    (etag : Text) (prewrite : LockedGrubState → Io (Unit {0})) (tools : ToolsKeep sys path)
    (snapshot : (s : LockedGrubState) → KeepsAt path (prewrite s)) (other : failsafe_cfg ≢ path)
    (tmp_other : failsafe_tmp_path failsafe_cfg ≢ path) where
  -- If the tools that are run and `prewrite` leave the GRUB configuration alone, and the failsafe
  -- entry and its temporary file are other files, then a change of the configuration, whichever call
  -- fails, leaves the old file or the changed one and nothing between. It is changed only if the ETag
  -- was that of the content read, the parser accepted it and `prewrite` succeeded on it in the world of the call, and it is
  -- changed whenever the call succeeds.
  pub set_grub_values-Outcome :
      (w : World)
      → let (r, w') =
          set_grub_values_with_prewrite sys path changes etag failsafe_cfg grub_cfg_path prewrite
            w in
        Outcome sys.digest changes etag prewrite w (w.files path) r (w'.files path)
  set_grub_values-Outcome w =
      Runs-Outcome sys path failsafe_cfg grub_cfg_path changes etag prewrite w
        (refreshed-KeepsAt sys path failsafe_cfg grub_cfg_path path tools other tmp_other) snapshot
        _ (set_grub_values-Runs sys path failsafe_cfg grub_cfg_path changes etag prewrite w)
