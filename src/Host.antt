-- ===== src/Host.antt =====
-- crates/core/src/immutable_distro.rs and crates/core/src/prober.rs: what kind of host the daemon
-- runs on, from the markers that were found.
pub mod Markers
pub mod Probe
use boot_control.Prelude.{Bool, ◌&&◌, ◌||◌, Option, none, some, if◌then◌else◌}
use boot_control.Text.{Text, codes}

pub data ImmutableDistro : Type 0 where
  ostree rpm_ostree steam_os nix_os vanilla_os : ImmutableDistro

-- `Display for ImmutableDistro`
unfoldable pub display_distro : ImmutableDistro → Text
display_distro ostree = codes "ostree"
display_distro rpm_ostree = codes "rpm-ostree"
display_distro steam_os = codes "steamos"
display_distro nix_os = codes "nixos"
display_distro vanilla_os = codes "vanilla-os"

pub record DistroIndicators : Type 0 where
  pub ostree_booted_marker : Bool
  pub ostree_sysroot_exists : Bool
  pub rpm_ostree_available : Bool
  pub steamos_marker : Bool
  pub nixos_marker : Bool
  pub vanillaos_marker : Bool

unfoldable pub detect_immutable_distro : DistroIndicators → Option ImmutableDistro
detect_immutable_distro ind =
    if ind.ostree_booted_marker && ind.rpm_ostree_available
    then some rpm_ostree
    else if ind.ostree_booted_marker || ind.ostree_sysroot_exists
    then some ostree
    else if ind.steamos_marker
    then some steam_os
    else if ind.nixos_marker
    then some nix_os
    else if ind.vanillaos_marker
    then some vanilla_os
    else none

pub data DetectedBootloader : Type 0 where
  systemd_boot grub unknown : DetectedBootloader

-- `Display for DetectedBootloader`
unfoldable pub display_bootloader : DetectedBootloader → Text
display_bootloader systemd_boot = codes "systemd-boot"
display_bootloader grub = codes "grub"
display_bootloader unknown = codes "unknown"

unfoldable pub detect_bootloader : Bool → Bool → Bool → DetectedBootloader
detect_bootloader loader_conf_exists systemd_efi_exists grub_default_exists =
    if loader_conf_exists then systemd_boot else if grub_default_exists then grub else unknown
