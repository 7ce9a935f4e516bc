-- ===== src/Host/Markers.antt =====
-- crates/core/src/immutable_distro.rs: when a host counts as one that may be written.
use boot_control.Prelude.{true, none, some, ◌≡◌, ◌↔◌, ◌⊎◌, inl, inr, arith, Option-cases, ◌≢◌}
use boot_control.Host.{ImmutableDistro, rpm_ostree, DistroIndicators, detect_immutable_distro}

-- One of the five markers of an immutable host is there.
abbrev pub IsMarked : DistroIndicators → Type 0
IsMarked ind =
    (ind.ostree_booted_marker ≡ true)
    ⊎ ((ind.ostree_sysroot_exists ≡ true)
        ⊎ ((ind.steamos_marker ≡ true)
            ⊎ ((ind.nixos_marker ≡ true) ⊎ (ind.vanillaos_marker ≡ true))))

unmarked : (ind : DistroIndicators) → IsMarked ind → detect_immutable_distro ind ≢ none
unfolding detect_immutable_distro
unmarked ind h e = ground arith

marked :
    (ind : DistroIndicators) (distro : ImmutableDistro)
    → detect_immutable_distro ind ≡ some distro
    → IsMarked ind
unfolding detect_immutable_distro
marked ind distro e = ground arith

-- A host counts as immutable exactly when one of the five markers is there, whether or not the
-- rpm-ostree tool is; that tool only tells rpm-ostree from plain ostree on a host booted from one.
pub detect_immutable_distro_iff :
    (ind : DistroIndicators)
    → (((distro : ImmutableDistro) × (detect_immutable_distro ind ≡ some distro)) ↔ IsMarked ind)
      × ((detect_immutable_distro ind ≡ some rpm_ostree)
          ↔ ((ind.ostree_booted_marker ≡ true) × (ind.rpm_ostree_available ≡ true)))
unfolding detect_immutable_distro
detect_immutable_distro_iff ind = (
  (
    λ h. marked ind h.0 h.1,
    λ h. elim (Option-cases (detect_immutable_distro ind)) [
      | inl nothing ↦ absurd (unmarked ind h nothing)
      | inr found ↦ found
    ],
  ),
  (λ h. ground arith, λ h. ground arith),
)
