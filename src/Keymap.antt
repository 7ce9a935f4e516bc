-- ===== src/Keymap.antt =====
-- crates/core/src/luks_keymap.rs: whether /etc/vconsole.conf gives the LUKS prompt a usable keymap.
pub mod Verdicts
use boot_control.Prelude.{
  ℕ, Bool, true, false, not, ◌&&◌, ◌||◌, Option, none, some, List, [], ◌∷◌, ◌++◌, ◌==◌,
  if◌then◌else◌,
}
use boot_control.Text.{
  Text, codes, lines, trim, trim_start, trim_start_matches, trim_end_matches, starts_with,
  strip_prefix, is_empty,
}
use boot_control.Error.{security_policy_violation, Result, ok, err}
use boot_control.Grub.{is_ascii_alphanumeric, all_chars}

pub data KeymapVerdict : Type 0 where
  resolved : Text → KeymapVerdict  -- `Ok`
  missing : KeymapVerdict
  malformed : Text → KeymapVerdict
  unresolved_name : Text → KeymapVerdict

-- `KeymapVerdict::into_result`
unfoldable pub into_result : KeymapVerdict → Result Text
into_result (resolved keymap) = ok keymap
into_result missing = err (
    security_policy_violation (
      codes
        "/etc/vconsole.conf has no KEYMAP= setting; the LUKS prompt would fall back to the kernel default and may not match the user's actual layout"))
into_result (malformed value) = err (
    security_policy_violation (
      codes "KEYMAP="
      ++ (value
          ++ codes
              " in /etc/vconsole.conf contains characters that are not legal in a keymap name; fix the value before rebuilding the initramfs")))
into_result (unresolved_name keymap) = err (
    security_policy_violation (
      codes "KEYMAP="
      ++ (keymap
          ++ codes
              " in /etc/vconsole.conf does not resolve to any .map file under the kbd data dirs; the LUKS prompt would fall back to `us`")))

-- `trim_matches(c)`
abbrev trim_matches : ℕ → Text → Text
trim_matches c s = trim_end_matches c (trim_start_matches c s)

unfoldable pub clean_value : Text → Text
clean_value value = trim_matches b'\'' (trim_matches b'"' (trim value))

-- The loop of `extract_keymap`: the first line that sets KEYMAP decides.
unfoldable pub keymap_in : List Text → Option Text
unfolding clean_value
keymap_in [] = none
keymap_in (l ∷ ls) =
    if starts_with (b'#' ∷ []) (trim_start l)
    then keymap_in ls
    else elim (strip_prefix (codes "KEYMAP=") (trim_start l)) [
      | some value ↦ some (clean_value value)
      | none ↦ keymap_in ls
    ]

unfoldable pub extract_keymap : Text → Option Text
unfolding keymap_in
extract_keymap content = keymap_in (lines content)

unfoldable pub is_keymap_char : ℕ → Bool
is_keymap_char c = is_ascii_alphanumeric c || c == b'-' || c == b'_' || c == b'.'

unfoldable pub is_valid_keymap_name : Text → Bool
unfolding all_chars
is_valid_keymap_name name = not (is_empty name) && all_chars is_keymap_char name

-- `resolve_keymap` is the caller's search of the kbd data directories.
unfoldable pub verdict_of : (Text → Bool) → Option Text → KeymapVerdict
verdict_of resolve_keymap none = missing
verdict_of resolve_keymap (some raw) =
    if is_empty raw
    then missing
    else if not (is_valid_keymap_name raw)
    then malformed raw
    else if resolve_keymap raw
    then resolved raw
    else unresolved_name raw

unfoldable pub validate_vconsole_keymap : Text → (Text → Bool) → KeymapVerdict
unfolding verdict_of
validate_vconsole_keymap vconsole_conf resolve_keymap =
    verdict_of resolve_keymap (extract_keymap vconsole_conf)
