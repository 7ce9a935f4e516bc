-- ===== src/Interface/Covered.antt =====
-- The snapshot that covers a change of the GRUB configuration.
use boot_control.Prelude.{ℕ, Option, none, some, List, [], ◌∷◌, ◌≡◌, ◌⊎◌, inl, inr, refl}
use boot_control.Text.{Text, codes}
use boot_control.Error.{Result, ResultOf, ok, err}
use boot_control.Audit.{Phase}
use boot_control.DbusError.{DaemonError, to_daemon_error}
use boot_control.Grub.{GrubConfig, parse_grub_config}
use boot_control.GrubManager.{
  LockedGrubState, apply_changes, new_content, set_grub_value_with_prewrite,
  set_grub_values_with_prewrite,
}
use boot_control.GrubManager.Atomic.{
  Effect, Runs, set_grub_values-Runs, write_then, write_then-Effect, refreshed-KeepsAt,
}
use boot_control.Hash.{compute_etag}
use boot_control.Security.{validate_grub_payload}
use boot_control.Store.{FilePath, World, lift}
use boot_control.Store.Observes.{Observes-lift, bind-observed, bind-cases}
use boot_control.Interface.{
  Manager, Host, Caller, map_err, or_daemon, authorize_rewrite_request, emit, new_job_id,
}
use boot_control.Interface.Frames.{authorize-Observes, snapshot_before-KeepsAt}
use boot_control.Interface.Grub.{grub_event, snapshot_before, audited, set_grub_value}
use boot_control.Interface.Held.{
  IsApart, IsSnapshot, IsSnapshot-kept, snapshot_before-IsSnapshot, write_then-kept,
}

-- All the files of a world.
abbrev pub Files : Type 0
Files = FilePath → Option Text

module _ (host : Host) (manager : Manager) where
  abbrev grub : FilePath
  grub = manager.grub_path

  -- The file holds the changed lines of a content that had the ETag and that the parser accepts, and
  -- a snapshot of exactly that content is there, for this operation and the caller's user.
  pub record IsCovered (op : Text) (who : ResultOf DaemonError ℕ) (etag : Text)
      (changes : List (Text × Text)) (old now : Files) : Type 0 where
    pub caller_uid : ℕ
    pub asked : who ≡ ok caller_uid
    pub content : Text
    pub config : GrubConfig
    pub read : old grub ≡ some content
    pub fresh : etag ≡ compute_etag host.sys.digest content
    pub parsed : parse_grub_config content ≡ ok config
    pub written : now grub ≡ some (new_content (apply_changes config.lines changes))
    pub mode : Text
    pub snapshot : IsSnapshot host manager op caller_uid etag content mode now

  -- On success the change is covered; on an error it is covered or the file is as it was.
  abbrev pub CoveredOutcome :
      Text
      → ResultOf DaemonError ℕ
      → Text
      → List (Text × Text)
      → Files
      → ResultOf DaemonError (Unit {0})
      → Files
      → Type 0
  CoveredOutcome op who etag changes old (ok _) now = IsCovered op who etag changes old now
  CoveredOutcome op who etag changes old (err _) now =
      (now grub ≡ old grub) ⊎ IsCovered op who etag changes old now

  module _ (apart : IsApart host manager) (op : Text) (who : ResultOf DaemonError ℕ)
      (caller_uid : ℕ) (asked : who ≡ ok caller_uid) (etag : Text)
      (changes : List (Text × Text)) where
    Effect-CoveredOutcome :
        (old now : Files) (content mode : Text) (config : GrubConfig)
        → old grub ≡ some content
        → etag ≡ compute_etag host.sys.digest content
        → parse_grub_config content ≡ ok config
        → IsSnapshot host manager op caller_uid etag content mode now
        → (r : Result (Unit {0}))
        → Effect (old grub) (new_content (apply_changes config.lines changes)) r (now grub)
        → CoveredOutcome op who etag changes old (map_err to_daemon_error r) now
    Effect-CoveredOutcome old now content mode config read fresh parsed snapshot r effect =
        go r effect
      where
        covered :
            now grub ≡ some (new_content (apply_changes config.lines changes))
            → IsCovered op who etag changes old now
        covered written = record {
          caller_uid = caller_uid;
          asked = asked;
          content = content;
          config = config;
          read = read;
          fresh = fresh;
          parsed = parsed;
          written = written;
          mode = mode;
          snapshot = snapshot;
        }

        go :
            (r : Result (Unit {0}))
            → Effect (old grub) (new_content (apply_changes config.lines changes)) r (now grub)
            → CoveredOutcome op who etag changes old (map_err to_daemon_error r) now
        go (ok _) e = covered e
        go (err _) (inl same) = inl same
        go (err _) (inr e) = inr (covered e)

    Runs-CoveredOutcome :
        (job_id : Text) (w : World) (out : Result (Unit {0}) × World)
        → Runs host.sys grub manager.failsafe_cfg_path manager.grub_cfg_path changes etag
            (snapshot_before host manager op caller_uid etag job_id)
            w
            out
        → CoveredOutcome op who etag changes w.files (map_err to_daemon_error out.0) out.1.files
    Runs-CoveredOutcome job_id w _ (Runs.refused why) = inl refl
    Runs-CoveredOutcome job_id w _ (Runs.ran content config mode read fresh parsed) =
        let s : LockedGrubState = record { bytes = content; mode = mode } in
        let ls = apply_changes config.lines changes in
        let before = snapshot_before host manager op caller_uid etag job_id s in
        let keeps =
          (snapshot_before-KeepsAt host manager apart.grub_outside op caller_uid etag job_id s).at
            w in
        bind-cases
          (λ out.
            CoveredOutcome op who etag changes w.files (map_err to_daemon_error out.0) out.1.files)
          before (λ _. write_then host.sys grub manager.failsafe_cfg_path manager.grub_cfg_path ls)
          w (λ e _. inl keeps)
          λ u approved.
            let v = (before w).1 in
            let out =
              write_then host.sys grub manager.failsafe_cfg_path manager.grub_cfg_path ls v in
            Effect-CoveredOutcome w.files out.1.files content mode config read fresh parsed
              (IsSnapshot-kept host manager (write_then-kept host manager apart ls v) (
                snapshot_before-IsSnapshot host manager apart op caller_uid etag job_id s w
                  approved))
              out.0
              (write_then-Effect host.sys grub manager.failsafe_cfg_path manager.grub_cfg_path ls
                (w.files grub) v
                (refreshed-KeepsAt host.sys grub manager.failsafe_cfg_path manager.grub_cfg_path
                  grub apart.tools_grub apart.failsafe_other apart.failsafe_tmp_other)
                keeps)

    pub audited-CoveredOutcome :
        (w : World)
        → let (r, w') =
            audited host manager op caller_uid etag
              (set_grub_values_with_prewrite host.sys grub changes etag manager.failsafe_cfg_path
                manager.grub_cfg_path)
              w in
          CoveredOutcome op who etag changes w.files r w'.files
    unfolding audited emit
    audited-CoveredOutcome w =
        let job_id = new_job_id (host.nanos w) host.pid in
        let event = grub_event grub op caller_uid etag job_id in
        let started = record (emit (event Phase.started none none []) w) { shared = none } in
        Runs-CoveredOutcome job_id started _ (
          set_grub_values-Runs host.sys grub manager.failsafe_cfg_path manager.grub_cfg_path changes
            etag (snapshot_before host manager op caller_uid etag job_id) started)

  -- Setting a key over the bus, whichever call fails, when the daemon's files are not beneath the
  -- snapshots, the failsafe entry and its temporary file are not the GRUB configuration, and the
  -- tools that are run leave that and the snapshots alone. The configuration is as it was, or it
  -- holds the change of a content that had the ETag and that the parser accepts, and then the file
  -- system holds a snapshot of exactly that content, with a manifest that names the operation and
  -- the user that polkit allowed; on success it is changed.
  pub set_grub_value-CoveredOutcome :
      IsApart host manager
      → (caller : Caller) (key value etag : Text) (w : World)
      → let (r, w') = set_grub_value host caller manager key value etag w in
        CoveredOutcome
          (codes "set_grub_value")
          (authorize_rewrite_request host caller w).0
          etag
          ((key, value) ∷ [])
          w.files
          r
          w'.files
  unfolding set_grub_value set_grub_value_with_prewrite
  set_grub_value-CoveredOutcome apart caller key value etag w =
      let who = (authorize_rewrite_request host caller w).0 in
      let changes = (key, value) ∷ [] in
      let P : ResultOf DaemonError (Unit {0}) × World → Type 0 =
        λ out. CoveredOutcome (codes "set_grub_value") who etag changes w.files out.0 out.1.files in
      bind-observed P (authorize_rewrite_request host caller) _ w (authorize-Observes host caller)
        (λ e _. inl refl)
        λ uid asked.
          bind-observed P (or_daemon (lift (validate_grub_payload key value))) _ w
            (Observes-lift (map_err to_daemon_error (validate_grub_payload key value)))
            (λ e _. inl refl)
            λ _ _.
              audited-CoveredOutcome apart (codes "set_grub_value") who uid asked etag changes w
