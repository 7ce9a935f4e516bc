-- ===== src/Tests/Host.antt =====
-- Hosts with concrete markers.
use boot_control.Prelude.{true, false, some, ◌≡◌, ◌↔◌, refl}
use boot_control.Host.{
  ImmutableDistro, rpm_ostree, DistroIndicators, detect_immutable_distro, detect_bootloader, grub,
}
use boot_control.Host.Markers.{IsMarked, detect_immutable_distro_iff}

-- A desktop booted from ostree, with the tool.
abbrev silverblue : DistroIndicators
silverblue = record {
  ostree_booted_marker = true;
  ostree_sysroot_exists = true;
  rpm_ostree_available = true;
  steamos_marker = false;
  nixos_marker = false;
  vanillaos_marker = false;
}

detects-silverblue : detect_immutable_distro silverblue ≡ some rpm_ostree
unfolding detect_immutable_distro
detects-silverblue = refl

detects-grub : detect_bootloader false true true ≡ grub
unfolding detect_bootloader
detects-grub = refl

detect_immutable_distro_iff_example :
    (((distro : ImmutableDistro) × (detect_immutable_distro silverblue ≡ some distro))
      ↔ IsMarked silverblue)
    × ((detect_immutable_distro silverblue ≡ some rpm_ostree)
        ↔ ((silverblue.ostree_booted_marker ≡ true) × (silverblue.rpm_ostree_available ≡ true)))
detect_immutable_distro_iff_example = detect_immutable_distro_iff silverblue
