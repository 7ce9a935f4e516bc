-- ===== src/Tests/Interface.antt =====
-- The bus at concrete requests.
use boot_control.Prelude.{arith, true, false, none, some, [], ◌∷◌, ◌≡◌, refl}
use boot_control.Text.{codes, text_eq}
use boot_control.Text.Numbers.{digits_from, display}
use boot_control.Error.{ok, err, polkit_denied}
use boot_control.Polkit
use boot_control.Polkit.{contains_text, known_actions, authorize_with_polkit}
use boot_control.Host.{detect_immutable_distro}
use boot_control.Host.Probe.{probe_immutable_distro, indicators, id_is, read_os_release_id}
use boot_control.Store.{World, path_eq, read_to_string}
use boot_control.Store.Trees.{path_starts_with}
use boot_control.Uefi.Order.{UefiVars}
use boot_control.Interface.{
  Manager, Host, Caller, resolve_uid, resolve_bus_name, authorize, authorized, authorize_write,
  authorize_rewrite_request, require_writable_host, probe_distro, new_job_id,
}
use boot_control.Interface.Grub.{set_grub_value, set_grub_settings}
use boot_control.Interface.Settings.{SettingsOutcome, set_grub_settings-SettingsOutcome}
use boot_control.Interface.Held.{IsApart}
use boot_control.Failsafe
use boot_control.GrubManager.{build_tmp_path}
use boot_control.Snapshots.{flatten_path}
use boot_control.Text.Equality.{text_eq_iff}
use boot_control.Text.{replace_char, trim_start_by}
use boot_control.Store.{parent, file_name, display_path}
use boot_control.Interface.Requests.{Request, action_of, is_delegated, handle}
use boot_control.Interface.Gate.{GateOutcome, handle-GateOutcome}
use boot_control.Interface.Covered.{CoveredOutcome, set_grub_value-CoveredOutcome}
use boot_control.Tests.Manager.{path, file, failsafe, grub_cfg, sys, world, other, tmp_other}
use boot_control.Snapshots.{Json}

abbrev json : Json
json = record { to_vec_pretty = λ _. ok (codes "{}"); from_slice = λ _. err [] }

abbrev vars : UefiVars World
vars = record {
  read_global = λ name w. err polkit_denied;
  write_global = λ name payload attrs w. (err polkit_denied, w);
  delete_global = λ name w. (err polkit_denied, w);
}

-- Polkit knows one caller, and allows it to change the GRUB configuration only.
abbrev host : Host
host = record {
  sys = sys;
  authority = λ sender action _. text_eq action Polkit.rewrite_grub;
  distro_override = none;
  vars = vars;
  json = json;
  pid = 42;
  nanos = λ _. 255;
  tmp_name = λ _. codes "x7Yz";
  unicode = λ s. s;
  debug = λ s. s;
  display_error = λ e. e.message;
}

abbrev caller : Caller
caller = record { sender = some (codes ":1.7"); no_proxy = none; unix_user = λ _. ok 1000 }

abbrev manager : Manager
manager = record {
  grub_path = path;
  failsafe_cfg_path = failsafe;
  grub_cfg_path = grub_cfg;
  loader_entries_dir = codes "boot" ∷ codes "loader" ∷ codes "entries" ∷ [];
  loader_conf_path = codes "boot" ∷ codes "loader" ∷ codes "loader.conf" ∷ [];
  kernel_cmdline_path = codes "etc" ∷ codes "kernel" ∷ codes "cmdline" ∷ [];
  snapshot_root = codes "var" ∷ codes "lib" ∷ codes "bootcontrol" ∷ codes "snapshots" ∷ [];
}

job_id_of_a_run : new_job_id 255 42 ≡ codes "ff-42"
unfolding new_job_id codes digits_from display
job_id_of_a_run = refl

authorizes : (authorize_rewrite_request host caller (world file false)).0 ≡ ok 1000
unfolding authorize_rewrite_request authorize_write authorized resolve_uid resolve_bus_name
    authorize authorize_with_polkit contains_text text_eq codes require_writable_host probe_distro
    probe_immutable_distro detect_immutable_distro indicators id_is read_os_release_id
    read_to_string path_eq
authorizes = refl

handle-GateOutcome_example :
    GateOutcome host caller
      (action_of (Request.loader_default (codes "arch") []))
      (is_delegated (Request.loader_default (codes "arch") []))
      (world file false)
      (handle host caller manager (Request.loader_default (codes "arch") []) (world file false))
handle-GateOutcome_example =
    handle-GateOutcome host caller manager (Request.loader_default (codes "arch") [])
      (world file false)

apart : IsApart host manager
unfolding path_starts_with text_eq codes build_tmp_path Failsafe.build_tmp_path parent file_name
    flatten_path display_path replace_char trim_start_by
apart = record {
  grub_outside = refl;
  tmp_outside = refl;
  failsafe_outside = refl;
  failsafe_tmp_outside = refl;
  failsafe_other = other;
  failsafe_tmp_other = tmp_other;
  copy_name =
      λ e. ground (arith, text_eq_iff (flatten_path (display_path path)) (codes "manifest.json"));
  tools_grub = λ _ _ _. refl;
  tools_snapshots = λ _ _ _ _ _. refl;
}

set_grub_value-CoveredOutcome_example :
    let (r, w') =
      set_grub_value host caller manager
        (codes "GRUB_TIMEOUT")
        (codes "10")
        file
        (world file false) in
    CoveredOutcome host manager
      (codes "set_grub_value")
      (authorize_rewrite_request host caller (world file false)).0
      file
      ((codes "GRUB_TIMEOUT", codes "10") ∷ [])
      (world file false).files
      r
      w'.files
set_grub_value-CoveredOutcome_example =
    set_grub_value-CoveredOutcome host manager apart caller (codes "GRUB_TIMEOUT") (codes "10") file
      (world file false)

set_grub_settings-SettingsOutcome_example :
    let (r, w') =
      set_grub_settings host caller manager 10
        (codes "hidden")
        true
        false
        file
        (world file false) in
    SettingsOutcome host manager
      (authorize_rewrite_request host caller (world file false)).0
      (codes "hidden")
      (λ style. record {
        timeout_seconds = 10;
        timeout_style = style;
        detect_other_os = true;
        generate_recovery_entries = false;
      })
      file
      (world file false).files
      r
      w'.files
set_grub_settings-SettingsOutcome_example =
    set_grub_settings-SettingsOutcome host manager apart caller 10 (codes "hidden") true false file
      (world file false)
