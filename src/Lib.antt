-- ===== src/Lib.antt =====
-- A verification library for BootControl, the daemon and the libraries that change how a Linux
-- machine boots. It models the parsers and the managers of GRUB's configuration, with the checks
-- that guard them, the kernel command line of unified kernel images, the loader entries of
-- systemd-boot, the UEFI variables that hold the boot order, snapshots, and the methods of the D-Bus
-- that clients call.
--
-- The parts and how they interact. A client names a key or settings and the ETag of the file that
-- it was shown. The GRUB manager opens /etc/default/grub, takes its lock, reads it, compares the
-- ETag, parses it, and only then writes a temporary file and renames it over the old one; then it
-- refreshes the failsafe entry and runs grub-mkconfig. Setting the default entry does the same,
-- and first checks the choice against the generated menu. The boot order is changed through two
-- traits that a backend implements. The UKI manager changes /etc/kernel/cmdline in the same way as
-- the GRUB manager its file, with a temporary file of a new name. Clients reach the managers over
-- the D-Bus. A method that writes (all are modelled but BackupNvram and
-- SignAndEnrollUki) first resolves the caller, asks polkit and refuses an immutable
-- host; one that changes the GRUB configuration takes a snapshot of the locked content before the
-- write and leaves audit events around it. A restore brings a snapshot back, and pruning removes it
-- when it is old.
--
-- Which file models which part:
--   Grub            crates/core/src/grub.rs: parse_line, parse_grub_config, get_value
--   GrubSettings    crates/core/src/grub_settings.rs: parse_grub_settings, validate_grub_settings
--   GrubMenu        crates/core/src/grub_cfg.rs: parse_menu_entries, and in Tokens one line of it
--   GrubManager     crates/daemon/src/grub_manager.rs: set_grub_value, set_grub_settings, the reads
--   GrubDefault     crates/daemon/src/grub_manager.rs: list_menu_entries, set_grub_default
--   GrubRebuild     crates/daemon/src/grub_rebuild.rs: run_grub_mkconfig
--   Failsafe        crates/daemon/src/failsafe.rs: refresh_failsafe_entry and what it detects
--   Hash            crates/core/src/hash.rs: compute_etag, verify_etag
--   Security        crates/core/src/security.rs: the blacklist and the escaping of log texts
--   Keymap          crates/core/src/luks_keymap.rs: validate_vconsole_keymap
--   Uefi            crates/core/src/uefi_vars.rs: payloads; in Order, BootNext and BootOrder
--   Cmdline         crates/core/src/backends/uki.rs: add_param, remove_param
--   UkiManager      crates/daemon/src/uki_manager.rs: atomic_cmdline_update and its callers
--   Snapshots       crates/daemon/src/snapshot.rs: create; in Restore, restore; in Retention, list, reap
--   SystemdBoot     crates/core/src/backends/systemd_boot.rs: parse_loader_entry, serialize_loader_entry
--   SystemdBootManager  crates/daemon/src/systemd_boot_manager.rs: loader entries and loader.conf
--   Host            crates/core/src/immutable_distro.rs and prober.rs: the kind of host; in Probe,
--                   crates/daemon/src/immutable_distro.rs: the markers of the running host
--   RpmOstree       crates/daemon/src/rpm_ostree.rs: kargs_read, kargs_append, kargs_delete
--   Interface       crates/daemon/src/interface.rs: the gate of the methods that write; in Grub,
--                   the changes of the GRUB configuration; in Methods, the others that write; in
--                   Reads, those that read; in Requests, these writes as one type of requests
--   Polkit          crates/daemon/src/polkit.rs: authorize_with_polkit
--   Audit           crates/daemon/src/audit.rs: the events
--   DbusError       crates/daemon/src/dbus_error.rs: to_daemon_error, snapshot_to_daemon_error
--   Error           crates/core/src/error.rs: BootControlError
-- Text, Map, Store and Prelude are shared: the operations of Rust's str, HashMap, the world of
-- files with the calls that the managers make, and lists and tests. A component's child modules
-- hold its proofs, named for what they prove. Tests holds runs at concrete inputs.
--
-- How the code is modelled. A text is the list of its Unicode scalar values, and a file holds a
-- text: bytes that are not UTF-8 are left out. A u16 or u32 is a native number, with its bound as
-- a hypothesis where it matters. An operation on files is a function from a world to a result and
-- the world after it; a fault of the world says for each call whether it fails, a write that fails
-- leaves any torn content, and the lock is seen as whether another process holds it. Loops over
-- lines and characters are structural recursions. The only fuel is that of the digits of a number
-- n, which is n + 1: each digit takes away at least one, and that of removing a suffix again and
-- again, which is the length of the text.
--
-- Parameters: the JSON of a snapshot's manifest and of what the bus returns, the debug format of a
-- string, the digest (SHA-256 in hexadecimal), the search of PATH, the run of a tool, polkit's
-- answer, the bus's table of users, the display of an error of the bus, the process's id and
-- clock, the search of the keymap directories, the lower case of a text that is not ASCII, the
-- listing of a directory of loader entries, the name of a new temporary file, and the backend of
-- the UEFI variables. What the theorems need of them is among their hypotheses: that the tools
-- leave /etc/default/grub and the snapshots alone, and that the name of a new temporary file is no
-- file's. A time that cannot be told makes the pruning of snapshots panic, which is a result of its
-- own.
--
-- Not modelled: the methods of the D-Bus interface that sign or back up variables, Secure Boot,
-- the initramfs drivers, the efivarfs backend, the client, and the command line, terminal and
-- graphical interfaces. Logging is left out as well.
mod Prelude
pub mod Text
pub mod Error
pub mod Map
pub mod Hash
pub mod Security
pub mod Keymap
pub mod Store
pub mod Failsafe
pub mod GrubRebuild
pub mod GrubMenu
pub mod GrubManager
pub mod GrubDefault
pub mod Grub
pub mod GrubSettings
pub mod Uefi
pub mod Cmdline
pub mod UkiManager
pub mod Host
pub mod Snapshots
pub mod SystemdBoot
pub mod SystemdBootManager
pub mod Audit
pub mod DbusError
pub mod RpmOstree
pub mod Polkit
pub mod Interface
mod Tests
