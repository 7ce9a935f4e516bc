-- ===== src/Host/Probe.antt =====
-- crates/daemon/src/immutable_distro.rs: the markers of the running host. The variable of the
-- environment that overrides them is the argument `override`.
use boot_control.Prelude.{
  ℕ, Bool, true, false, not, ◌||◌, Option, none, some, List, [], ◌∷◌, if◌then◌else◌,
}
use boot_control.Text.{
  Text, codes, text_eq, is_empty, lines, strip_prefix, trim, trim_start_matches, trim_end_matches,
  ascii_lower,
}
use boot_control.Error.{ResultOf, ok, err}
use boot_control.Host.{ImmutableDistro, DistroIndicators, detect_immutable_distro}
use boot_control.Store.{FilePath, World, System, read_to_string}

abbrev trim_matches : ℕ → Text → Text
trim_matches c s = trim_end_matches c (trim_start_matches c s)

-- The loop over the lines of os-release.
unfoldable pub id_of_lines : List Text → Option Text
id_of_lines [] = none
id_of_lines (line ∷ rest) = elim (strip_prefix (codes "ID=") line) [
  | some value ↦ some (ascii_lower (trim_matches 39 (trim_matches b'"' (trim value))))
  | none ↦ id_of_lines rest
]

abbrev id_of_content : ResultOf Text Text → Option Text
id_of_content (ok content) = id_of_lines (lines content)
id_of_content (err _) = none

unfoldable pub read_os_release_id : FilePath → World → Option Text
read_os_release_id path w = id_of_content (read_to_string (λ e. e) path w).0

-- `os_id.as_deref().map(|id| needle.contains(&id)).unwrap_or(false)`
unfoldable pub id_is : Option Text → List Text → Bool
id_is none needle = false
id_is (some id) [] = false
id_is (some id) (x ∷ xs) = text_eq x id || id_is (some id) xs

-- The tags that the override understands.
unfoldable pub distro_of_tag : Text → Option ImmutableDistro
distro_of_tag tag =
    if text_eq tag (codes "rpm-ostree")
    then some ImmutableDistro.rpm_ostree
    else if text_eq tag (codes "ostree")
    then some ImmutableDistro.ostree
    else if text_eq tag (codes "steamos")
    then some ImmutableDistro.steam_os
    else if text_eq tag (codes "nixos")
    then some ImmutableDistro.nix_os
    else if text_eq tag (codes "vanilla-os")
    then some ImmutableDistro.vanilla_os
    else none

abbrev is_found : Option Text → Bool
is_found none = false
is_found (some _) = true

module _ (sys : System) where
  unfoldable pub indicators : World → DistroIndicators
  indicators w =
      let os_id = read_os_release_id (codes "etc" ∷ codes "os-release" ∷ []) w in
      record {
        ostree_booted_marker = w.exists (codes "/run/ostree-booted");
        ostree_sysroot_exists = w.exists (codes "/sysroot/ostree/deploy");
        rpm_ostree_available = is_found (sys.which (codes "rpm-ostree"));
        steamos_marker =
            w.exists (codes "/etc/steamos-release")
            || id_is os_id (codes "steamos" ∷ codes "holo" ∷ []);
        nixos_marker = w.exists (codes "/etc/NIXOS") || id_is os_id (codes "nixos" ∷ []);
        vanillaos_marker = id_is os_id (codes "vanilla" ∷ codes "vanilla-os" ∷ []);
      }

  unfoldable pub probe_immutable_distro : Option Text → World → Option ImmutableDistro
  probe_immutable_distro none w = detect_immutable_distro (indicators w)
  probe_immutable_distro (some tag) w =
      if not (is_empty tag) then distro_of_tag tag else detect_immutable_distro (indicators w)
