-- ===== src/Interface.antt =====
-- crates/daemon/src/interface.rs: the object on the D-Bus, and what its methods share. The values
-- from outside of the repository, and the efivarfs reader, are the fields of `Host`; what a message
-- brings with it are those of `Caller`.
pub mod Grub
pub mod Reads
pub mod Requests
pub mod Gate
pub mod Frames
pub mod Taken
pub mod Held
pub mod Covered
pub mod Settings
pub mod Methods
use boot_control.Prelude.{
  ℕ, suc, Bool, Option, none, some, List, [], ◌∷◌, ◌++◌, if◌then◌else◌, ltb, ◌+◌, ◌==◌,
}
use boot_control.Text.{Text, codes, starts_with}
use boot_control.Text.Numbers.{digits_from, display}
use boot_control.Error.{
  BootControlError, polkit_denied, esp_scan_failed, immutable_distro_detected, Result, ResultOf, ok,
  err, ok_or,
}
use boot_control.Audit.{Phase, AuditEvent}
use boot_control.DbusError.{DaemonErrorName, DaemonError, to_daemon_error, display_snapshot_error}
use boot_control.Host.{ImmutableDistro, display_distro}
use boot_control.Host.Probe.{probe_immutable_distro}
use boot_control.Polkit.{Authority, authorize_with_polkit, rewrite_grub}
use boot_control.Snapshots.{
  Json, SnapshotInfo, SnapshotRequest, CapturedFile, create_with_captured_files,
}
use boot_control.GrubManager.{LockedGrubState}
use boot_control.Store.{FilePath, display_path, World, System, Io, IoOf, ◌>>=◌, ◌>>◌, lift, pure}
use boot_control.Uefi.Order.{UefiVars}

-- The paths of `GrubManager` in interface.rs.
pub record Manager : Type 0 where
  pub grub_path : FilePath
  pub failsafe_cfg_path : FilePath
  pub grub_cfg_path : FilePath
  pub loader_entries_dir : FilePath
  pub loader_conf_path : FilePath
  pub kernel_cmdline_path : FilePath
  pub snapshot_root : FilePath

pub record Host : Type 0 where
  pub sys : System
  pub authority : Authority
  pub distro_override : Option Text
  pub vars : UefiVars World
  pub json : Json
  pub pid : ℕ
  pub nanos : World → ℕ  -- since the epoch
  pub tmp_name : World → Text
  pub unicode : Text → Text
  pub debug : Text → Text
  pub display_error : DaemonError → Text

-- The sender in the header, the failure of making a proxy of the bus, and the bus's table of users.
pub record Caller : Type 0 where
  pub sender : Option Text
  pub no_proxy : Option Text
  pub unix_user : Text → ResultOf Text ℕ

abbrev pub Handler : Type 0 → Type 0
Handler A = IoOf DaemonError A

abbrev pub map_err : {E F A : Type 0} → (E → F) → ResultOf E A → ResultOf F A
map_err f (ok a) = ok a
map_err f (err e) = err (f e)

-- `.map_err(f)` after an operation
abbrev pub failing : {E F A : Type 0} → (E → F) → IoOf E A → IoOf F A
failing f m w = (map_err f (m w).0, (m w).1)

abbrev pub or_daemon : {A : Type 0} → Io A → Handler A
or_daemon m = failing to_daemon_error m

unfoldable pub denied : Text → DaemonError
denied message = record { name = DaemonErrorName.polkit_denied; message = message }

unfoldable pub resolve_bus_name : Caller → ResultOf DaemonError Text
resolve_bus_name caller = ok_or (denied (codes "missing sender in D-Bus message")) caller.sender

abbrev with_proxy : {A : Type 0} → Option Text → ResultOf DaemonError A → ResultOf DaemonError A
with_proxy none next = next
with_proxy (some e) next = err (denied (codes "failed to create D-Bus proxy: " ++ e))

unfoldable pub resolve_uid : Caller → Handler ℕ
resolve_uid caller = do
  sender ← lift (ok_or (denied (codes "missing sender in D-Bus message")) caller.sender)
  lift (
      with_proxy caller.no_proxy (
        map_err (λ e. denied (codes "failed to resolve caller UID: " ++ e))
          (caller.unix_user sender)))

abbrev hex_digit : ℕ → ℕ
hex_digit d = if ltb d 10 then d + b'0' else d + 87

-- `format!("{:x}-{}", ns, pid)`
unfoldable pub new_job_id : ℕ → ℕ → Text
new_job_id ns pid = digits_from 16 hex_digit (suc ns) ns [] ++ (b'-' ∷ display pid)

-- The method calls that `authorize` and `probe_distro` make.
module _ (host : Host) where
  unfoldable pub authorize : Text → Text → Io (Unit {0})
  authorize sender action w = (authorize_with_polkit host.authority sender action w, w)

  unfoldable pub probe_distro : World → Option ImmutableDistro
  probe_distro w = probe_immutable_distro host.sys host.distro_override w

  abbrev pub writable : Option ImmutableDistro → Result (Unit {0})
  writable (some distro) = err (immutable_distro_detected (display_distro distro))
  writable none = ok tt

  unfoldable pub require_writable_host : Io (Unit {0})
  require_writable_host w = (writable (probe_distro w), w)

module _ (host : Host) (caller : Caller) where
  -- The first lines of the methods that write.
  unfoldable pub authorized : Text → Handler ℕ
  authorized action = do
    caller_uid ← resolve_uid caller
    name ← lift (resolve_bus_name caller)
    or_daemon (authorize host name action)
    pure caller_uid

  unfoldable pub authorize_write : Text → Handler ℕ
  authorize_write action = do
    caller_uid ← authorized action
    or_daemon (require_writable_host host)
    pure caller_uid

  unfoldable pub authorize_rewrite_request : Handler ℕ
  authorize_rewrite_request = authorize_write rewrite_grub

unfoldable pub managed_paths : Manager → List FilePath
managed_paths m =
    m.grub_path ∷ m.failsafe_cfg_path ∷ m.grub_cfg_path ∷ m.loader_entries_dir ∷ m.loader_conf_path
    ∷ m.kernel_cmdline_path ∷ []

-- `audit::emit`
unfoldable pub emit : AuditEvent → World → World
emit event w = record w { journal = w.journal ++ (event ∷ []) }

-- The message of an error, and the exit code, in the last event.
abbrev pub stderr_tail : {A : Type 0} → (DaemonError → Text) → ResultOf DaemonError A → Text
stderr_tail show (ok _) = []
stderr_tail show (err e) = show e

abbrev pub exit_code : {A : Type 0} → ResultOf DaemonError A → ℕ
exit_code (ok _) = 0
exit_code (err _) = 1
