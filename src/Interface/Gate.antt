-- ===== src/Interface/Gate.antt =====
-- crates/daemon/src/interface.rs: what a request passes before it acts, polkit first and then the
-- kind of the host.
use boot_control.Prelude.{
  ℕ, Bool, true, false, none, some, Option, Option-cases, Bool-cases, ◌≡◌, ◌⊎◌, inl, inr, refl,
  ◌++◌,
}
use boot_control.Text.{Text, codes, text_eq}
use boot_control.Error.{
  polkit_denied, immutable_distro_detected, display_error, ResultOf, ok, err, Result-cases,
}
use boot_control.DbusError.{DaemonError, to_daemon_error, name_of}
use boot_control.Host.{ImmutableDistro, display_distro}
use boot_control.Polkit
use boot_control.Polkit.{contains_text, known_actions, authorize_with_polkit}
use boot_control.Store.{World, Io, ◌>>=◌}
use boot_control.Interface.{
  Manager, Host, Caller, Handler, denied, resolve_uid, resolve_bus_name, authorize, probe_distro,
  require_writable_host, authorized, authorize_write, authorize_rewrite_request,
}
use boot_control.Interface.Grub.{set_grub_value, set_grub_default, set_grub_settings}
use boot_control.Interface.Methods.{
  dispatch, rebuild_grub_config, set_default_entry, rename_entry, add_param_request,
  remove_param_request, restore_request, set_order_request, set_next_request, clear_next_request,
}
use boot_control.Interface.Requests.{Request, action_of, is_delegated, serves, handle}

unserved : (distro : ImmutableDistro) → serves false (some distro) ≡ false
unserved ImmutableDistro.ostree = refl
unserved ImmutableDistro.rpm_ostree = refl
unserved ImmutableDistro.steam_os = refl
unserved ImmutableDistro.nix_os = refl
unserved ImmutableDistro.vanilla_os = refl

module _ (host : Host) (caller : Caller) where
  -- The bus knows the caller's user, and polkit allows it the action.
  pub record IsAuthorized (action : Text) (w : World) : Type 0 where
    pub sender : Text
    pub caller_uid : ℕ
    pub sent : caller.sender ≡ some sender
    pub proxied : caller.no_proxy ≡ none
    pub resolved : caller.unix_user sender ≡ ok caller_uid
    pub allowed : host.authority sender action w ≡ true

  -- A request is refused in the world that it met, or it may act.
  pub data GateOutcome (action : Text) (delegated : Bool) (w : World)
      : ResultOf DaemonError (Unit {0}) × World → Type 0 where
    refused :
        (message : Text)
        → ¬ IsAuthorized action w
        → GateOutcome action delegated w (err (denied message), w)
    unsupported :
        (distro : ImmutableDistro)
        → IsAuthorized action w
        → probe_distro host w ≡ some distro
        → serves delegated (some distro) ≡ false
        → GateOutcome action delegated w
            (err (to_daemon_error (immutable_distro_detected (display_distro distro))), w)
    served :
        (out : ResultOf DaemonError (Unit {0}) × World)
        → IsAuthorized action w
        → serves delegated (probe_distro host w) ≡ true
        → GateOutcome action delegated w out

  authorized-cases :
      (action : Text) (w : World)
      → contains_text action known_actions ≡ true
      → ((uid : ℕ) × (authorized host caller action w ≡ (ok uid, w)) × IsAuthorized action w)
        ⊎ ((message : Text) × (authorized host caller action w ≡ (err (denied message), w))
            × ¬ IsAuthorized action w)
  unfolding authorized resolve_uid resolve_bus_name authorize authorize_with_polkit denied
      to_daemon_error name_of
  authorized-cases action w known = elim (Option-cases caller.sender) [
    | inl e ↦ inr (codes "missing sender in D-Bus message", rw e refl, λ a. cc (e, a.sent))
    | inr (sender, e) ↦ elim (Option-cases caller.no_proxy) [
      | inr (m, e₁) ↦
          inr (
            codes "failed to create D-Bus proxy: " ++ m,
            rw e (rw e₁ refl),
            λ a. cc (e₁, a.proxied),
          )
      | inl e₁ ↦ elim (Result-cases (caller.unix_user sender)) [
        | inr (m, e₂) ↦ inr (
          codes "failed to resolve caller UID: " ++ m,
          rw e (rw e₁ (rw e₂ refl)),
          λ a. cc (e, e₂, a.sent, a.resolved),
        )
        | inl (uid, e₂) ↦ elim (Bool-cases (host.authority sender action w)) [
          | inl e₃ ↦ inl (
            uid,
            rw e (rw e₁ (rw e₂ (rw known (rw e₃ refl)))),
            record {
              sender = sender;
              caller_uid = uid;
              sent = e;
              proxied = e₁;
              resolved = e₂;
              allowed = e₃;
            },
          )
          | inr e₃ ↦ inr (
            display_error polkit_denied,
            rw e (rw e₁ (rw e₂ (rw known (rw e₃ refl)))),
            λ a. cc (e, e₃, a.sent, a.allowed),
          )
        ]
      ]
    ]
  ]

  -- A method that is authorized and then goes on by the kind of host.
  authorized-GateOutcome :
      (action : Text) (delegated : Bool) (w : World) (next : ℕ → Handler (Unit {0}))
      → contains_text action known_actions ≡ true
      → ((uid : ℕ) → IsAuthorized action w → GateOutcome action delegated w (next uid w))
      → GateOutcome action delegated w ((authorized host caller action >>= next) w)
  authorized-GateOutcome action delegated w next known go = elim (authorized-cases action w known) [
    | inl (uid, e, a) ↦ rw e (go uid a)
    | inr (message, e, barred) ↦ rw e (GateOutcome.refused message barred)
  ]

  authorize_write-GateOutcome :
      (action : Text) (w : World) (next : ℕ → Handler (Unit {0}))
      → contains_text action known_actions ≡ true
      → GateOutcome action false w ((authorize_write host caller action >>= next) w)
  unfolding authorize_write require_writable_host
  authorize_write-GateOutcome action w next known = elim (authorized-cases action w known) [
    | inr (message, e, barred) ↦ rw e (GateOutcome.refused message barred)
    | inl (uid, e, a) ↦ elim (Option-cases (probe_distro host w)) [
      | inl e₁ ↦ rw e (rw e₁ (GateOutcome.served _ a (rw e₁ refl)))
      | inr (distro, e₁) ↦ rw e (rw e₁ (GateOutcome.unsupported distro a e₁ (unserved distro)))
    ]
  ]

  dispatch-GateOutcome :
      (action : Text) (w : World) (delegate write : Io (Unit {0})) (found : Option ImmutableDistro)
      → probe_distro host w ≡ found
      → IsAuthorized action w
      → GateOutcome action true w (dispatch found delegate write w)
  unfolding dispatch
  dispatch-GateOutcome action w delegate write none e a = GateOutcome.served _ a (rw e refl)
  dispatch-GateOutcome action w delegate write (some ImmutableDistro.rpm_ostree) e a =
      GateOutcome.served _ a (rw e refl)
  dispatch-GateOutcome action w delegate write (some ImmutableDistro.ostree) e a =
      GateOutcome.unsupported ImmutableDistro.ostree a e refl
  dispatch-GateOutcome action w delegate write (some ImmutableDistro.steam_os) e a =
      GateOutcome.unsupported ImmutableDistro.steam_os a e refl
  dispatch-GateOutcome action w delegate write (some ImmutableDistro.nix_os) e a =
      GateOutcome.unsupported ImmutableDistro.nix_os a e refl
  dispatch-GateOutcome action w delegate write (some ImmutableDistro.vanilla_os) e a =
      GateOutcome.unsupported ImmutableDistro.vanilla_os a e refl

  module _ (manager : Manager) where
    -- Every request of a client, that is a call of a method of the bus that writes other than
    -- `BackupNvram` and `SignAndEnrollUki`, whatever the state of the system: it is refused with
    -- `PolkitDenied`, in a world that is exactly as it was, unless the bus names a sender and its
    -- user and polkit allows that sender the action of the request; if it is allowed, but the host
    -- is immutable and the request is not one that rpm-ostree serves on it, it is refused with
    -- `ImmutableDistroDetected`, again in an unchanged world. Only otherwise does it act.
    pub handle-GateOutcome :
        (request : Request) (w : World)
        → GateOutcome
            (action_of request)
            (is_delegated request)
            w
            (handle host caller manager request w)
    unfolding handle action_of is_delegated set_grub_value set_grub_default set_grub_settings
        rebuild_grub_config set_default_entry rename_entry add_param_request remove_param_request
        restore_request set_order_request set_next_request clear_next_request
        authorize_rewrite_request contains_text text_eq codes
    handle-GateOutcome (Request.grub_settings _ _ _ _ _) w =
        authorize_write-GateOutcome Polkit.rewrite_grub w _ refl
    handle-GateOutcome (Request.grub_value _ _ _) w =
        authorize_write-GateOutcome Polkit.rewrite_grub w _ refl
    handle-GateOutcome (Request.grub_default _ _ _) w =
        authorize_write-GateOutcome Polkit.rewrite_grub w _ refl
    handle-GateOutcome Request.grub_rebuild w =
        authorize_write-GateOutcome Polkit.rewrite_grub w _ refl
    handle-GateOutcome (Request.loader_default _ _) w =
        authorize_write-GateOutcome Polkit.write_bootloader w _ refl
    handle-GateOutcome (Request.loader_rename _ _ _) w =
        authorize_write-GateOutcome Polkit.write_bootloader w _ refl
    handle-GateOutcome (Request.order_set _) w =
        authorize_write-GateOutcome Polkit.write_bootloader w _ refl
    handle-GateOutcome (Request.next_set _) w =
        authorize_write-GateOutcome Polkit.write_bootloader w _ refl
    handle-GateOutcome Request.next_cleared w =
        authorize_write-GateOutcome Polkit.write_bootloader w _ refl
    handle-GateOutcome (Request.snapshot_restored _ _) w =
        authorize_write-GateOutcome Polkit.restore_snapshot w _ refl
    handle-GateOutcome (Request.param_added _ _) w =
        authorized-GateOutcome Polkit.rewrite_grub true w _ refl
          λ uid a. dispatch-GateOutcome _ w _ _ (probe_distro host w) refl a
    handle-GateOutcome (Request.param_removed _ _) w =
        authorized-GateOutcome Polkit.rewrite_grub true w _ refl
          λ uid a. dispatch-GateOutcome _ w _ _ (probe_distro host w) refl a
