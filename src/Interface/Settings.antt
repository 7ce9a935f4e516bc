-- ===== src/Interface/Settings.antt =====
-- The snapshot that covers a change of all the GRUB settings.
use boot_control.Prelude.{
  ℕ, Bool, Bool-cases, List, [], ◌∷◌, ◌≡◌, ◌⊎◌, inl, inr, refl, ◌∙◌, ap, arith,
}
use boot_control.Text.{Text, codes, text_eq}
use boot_control.Text.Equality.{text_eq_iff}
use boot_control.Error.{ResultOf, ok, err, ok-injective}
use boot_control.DbusError.{DaemonError, to_daemon_error}
use boot_control.GrubSettings.{GrubSettings, GrubTimeoutStyle, as_str, validate_grub_settings}
use boot_control.GrubManager.{
  LockedGrubState, settings_changes, set_grub_values_with_prewrite, set_grub_settings_with_prewrite,
}
use boot_control.Security.{validate_grub_payload}
use boot_control.Store.{FilePath, World, Io, ◌>>◌, lift}
use boot_control.Store.Observes.{Observes, Observes-lift, Observes-bind, bind-observed}
use boot_control.Interface.{Manager, Host, Caller, or_daemon, map_err, authorize_rewrite_request}
use boot_control.Interface.Grub.{timeout_style_of, check_payloads, audited, set_grub_settings}
use boot_control.Interface.Frames.{authorize-Observes}
use boot_control.Interface.Held.{IsApart, map_err-ok}
use boot_control.Interface.Covered.{Files, CoveredOutcome, audited-CoveredOutcome}

timeout_style_of-as_str :
    (s : Text) (style : GrubTimeoutStyle) → timeout_style_of s ≡ ok style → s ≡ as_str style
unfolding timeout_style_of as_str
timeout_style_of-as_str s style h = elim (Bool-cases (text_eq s (codes "menu"))) [
  | inl menu' ↦
      let e : GrubTimeoutStyle.menu ≡ style = ok-injective (rw menu' at h) in
      (text_eq_iff s (codes "menu")).0 menu' ∙ ap as_str e
  | inr n ↦ elim (Bool-cases (text_eq s (codes "countdown"))) [
    | inl countdown' ↦
        let e : GrubTimeoutStyle.countdown ≡ style = ok-injective (rw (n, countdown') at h) in
        (text_eq_iff s (codes "countdown")).0 countdown' ∙ ap as_str e
    | inr m ↦ elim (Bool-cases (text_eq s (codes "hidden"))) [
      | inl hidden' ↦
          let e : GrubTimeoutStyle.hidden ≡ style = ok-injective (rw (n, m, hidden') at h) in
          (text_eq_iff s (codes "hidden")).0 hidden' ∙ ap as_str e
      | inr k ↦ ground arith
    ]
  ]
]

check_payloads-Observes : (payloads : List (Text × Text)) → Observes (check_payloads payloads)
unfolding check_payloads
check_payloads-Observes [] = Observes-lift (ok tt)
check_payloads-Observes (c ∷ cs) =
    Observes-bind (lift (validate_grub_payload c.0 c.1)) (λ _. check_payloads cs) (Observes-lift _)
      λ _. check_payloads-Observes cs

module _ (host : Host) (manager : Manager) where
  abbrev grub : FilePath
  grub = manager.grub_path

  with_prewrite-valid_at :
      (settings : GrubSettings) (etag : Text) {u : Unit {0}}
      → validate_grub_settings settings ≡ ok u
      → (prewrite : LockedGrubState → Io (Unit {0})) (w : World)
      → set_grub_settings_with_prewrite host.sys grub settings etag manager.failsafe_cfg_path
          manager.grub_cfg_path prewrite w
        ≡ set_grub_values_with_prewrite host.sys grub
            (settings_changes settings)
            etag
            manager.failsafe_cfg_path
            manager.grub_cfg_path
            prewrite
            w
  unfolding set_grub_settings_with_prewrite
  with_prewrite-valid_at settings etag e prewrite w = rw e refl

  with_prewrite-valid :
      (settings : GrubSettings) (etag : Text) {u : Unit {0}}
      → validate_grub_settings settings ≡ ok u
      → set_grub_settings_with_prewrite host.sys grub settings etag manager.failsafe_cfg_path
          manager.grub_cfg_path
        ≡ set_grub_values_with_prewrite host.sys grub
            (settings_changes settings)
            etag
            manager.failsafe_cfg_path
            manager.grub_cfg_path
  with_prewrite-valid settings etag e =
      λ i prewrite w. with_prewrite-valid_at settings etag e prewrite w i

  -- No style has the text of the request, and nothing happened; or one has, and the change of the
  -- settings is covered.
  abbrev pub SettingsOutcome :
      ResultOf DaemonError ℕ
      → Text
      → (GrubTimeoutStyle → GrubSettings)
      → Text
      → Files
      → ResultOf DaemonError (Unit {0})
      → Files
      → Type 0
  SettingsOutcome who style_text settings etag old r now =
      ((why : DaemonError) × (r ≡ err why) × (now ≡ old))
      ⊎ ((style : GrubTimeoutStyle) × (style_text ≡ as_str style)
          × CoveredOutcome host manager (codes "set_grub_settings") who etag
              (settings_changes (settings style)) old r now)

  -- The checks of the settings, and then the change.
  validated-CoveredOutcome :
      IsApart host manager
      → (who : ResultOf DaemonError ℕ) (caller_uid : ℕ) → who ≡ ok caller_uid
      → (etag : Text) (settings : GrubSettings) (w : World)
      → let changes = settings_changes settings in
        let (r, w') =
          (or_daemon (lift (validate_grub_settings settings))
              >> (or_daemon (check_payloads changes)
                  >> audited host manager (codes "set_grub_settings") caller_uid etag (
                      set_grub_settings_with_prewrite host.sys grub settings etag
                        manager.failsafe_cfg_path manager.grub_cfg_path)))
            w in
        CoveredOutcome host manager (codes "set_grub_settings") who etag changes w.files r w'.files
  validated-CoveredOutcome apart who caller_uid asked etag settings w =
      let changes = settings_changes settings in
      let P : ResultOf DaemonError (Unit {0}) × World → Type 0 = λ out.
        CoveredOutcome host manager (codes "set_grub_settings") who etag changes w.files out.0
          out.1.files in
      bind-observed P (or_daemon (lift (validate_grub_settings settings))) _ w
        (Observes-lift (map_err to_daemon_error (validate_grub_settings settings)))
        (λ e _. inl refl)
        λ u valid.
          bind-observed P (or_daemon (check_payloads changes)) _ w
            (record { same = λ v. (check_payloads-Observes changes).same v }) (λ e _. inl refl)
            λ _ _. rw (with_prewrite-valid settings etag (map_err-ok to_daemon_error _ valid)) (
              audited-CoveredOutcome host manager apart (codes "set_grub_settings") who caller_uid
                asked etag changes w)

  -- Setting all the GRUB settings over the bus, whichever call fails, when the daemon's files are not
  -- beneath the snapshots, the failsafe entry and its temporary file are not the GRUB configuration,
  -- and the tools that are run leave that and the snapshots alone. The call fails and no file is
  -- changed, or the text of the timeout style is that of one of the three styles, and the
  -- configuration is as it was, or holds all four changes of a content that had the ETag and that
  -- the parser accepts, and then the file system holds a snapshot of exactly that content, with a
  -- manifest that names the operation and the user that polkit allowed; on success it is changed.
  pub set_grub_settings-SettingsOutcome :
      IsApart host manager
      → (caller : Caller) (timeout_seconds : ℕ) (style_text : Text) (detect recovery : Bool)
        (etag : Text) (w : World)
      → let (r, w') =
          set_grub_settings host caller manager timeout_seconds style_text detect recovery etag w in
        SettingsOutcome
          (authorize_rewrite_request host caller w).0
          style_text
          (λ style. record {
            timeout_seconds = timeout_seconds;
            timeout_style = style;
            detect_other_os = detect;
            generate_recovery_entries = recovery;
          })
          etag
          w.files
          r
          w'.files
  unfolding set_grub_settings
  set_grub_settings-SettingsOutcome apart caller timeout_seconds style_text detect recovery etag w =
      let who = (authorize_rewrite_request host caller w).0 in
      let settings : GrubTimeoutStyle → GrubSettings = λ style. record {
        timeout_seconds = timeout_seconds;
        timeout_style = style;
        detect_other_os = detect;
        generate_recovery_entries = recovery;
      } in
      let P : ResultOf DaemonError (Unit {0}) × World → Type 0 =
        λ out. SettingsOutcome who style_text settings etag w.files out.0 out.1.files in
      bind-observed P (authorize_rewrite_request host caller) _ w (authorize-Observes host caller)
        (λ e _. inl (e, refl, refl))
        λ uid asked.
          bind-observed P (or_daemon (lift (timeout_style_of style_text))) _ w
            (Observes-lift (map_err to_daemon_error (timeout_style_of style_text)))
            (λ e _. inl (e, refl, refl))
            λ style named. inr (
              style,
              timeout_style_of-as_str style_text style (map_err-ok to_daemon_error _ named),
              validated-CoveredOutcome apart who uid asked etag (settings style) w,
            )
