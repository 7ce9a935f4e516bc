-- ===== src/Security.antt =====
-- crates/core/src/security.rs: the blacklist of kernel parameters, and escaping for terminals and
-- logs. crates/daemon/src/sanitize.rs passes `validate_grub_payload` on as `check_payload`.
pub mod Blacklist
pub mod Escape
use boot_control.Prelude.{
  ℕ, suc, ◌+◌, ◌-◌, Bool, true, false, not, ◌&&◌, ◌||◌, Option, none, some, List, [], ◌∷◌, ◌++◌,
  leb, ltb, ◌==◌, if◌then◌else◌,
}
use boot_control.Text.{Text, codes, contains}
use boot_control.Text.Numbers.{digits_from}
use boot_control.Error.{security_policy_violation, Result, ok, err}

-- `KERNEL_CMDLINE_BLACKLIST`
abbrev pub kernel_cmdline_blacklist : List Text
kernel_cmdline_blacklist =
    codes "init="
    ∷ codes "selinux=0"
    ∷ codes "apparmor=0"
    ∷ codes "systemd.unit="
    ∷ codes "rd.break"
    ∷ codes "single"
    ∷ codes "emergency"
    ∷ []

-- `iter().find(|pattern| haystack.contains(pattern))`
unfoldable pub find_pattern : List Text → Text → Option Text
find_pattern [] haystack = none
find_pattern (pattern' ∷ patterns) haystack =
    if contains pattern' haystack then some pattern' else find_pattern patterns haystack

unfoldable pub first_blacklisted_match : Text → Option Text
first_blacklisted_match haystack = find_pattern kernel_cmdline_blacklist haystack

param_violation : Text → Text → Result (Unit {0})
param_violation param pattern' = err (
    security_policy_violation (
      codes "kernel parameter '"
      ++ (param ++ (codes "' contains blacklisted pattern '" ++ (pattern' ++ codes "'")))))

unfoldable pub validate_kernel_param_str : Text → Result (Unit {0})
unfolding param_violation
validate_kernel_param_str param = elim (first_blacklisted_match param) [
  | some pattern' ↦ param_violation param pattern'
  | none ↦ ok tt
]

unfoldable pub key_violation : Text → Text → Result (Unit {0})
key_violation key pattern' = err (
    security_policy_violation (
      codes "key '"
      ++ (key ++ (codes "' contains blacklisted pattern '" ++ (pattern' ++ codes "'")))))

unfoldable pub value_violation : Text → Text → Result (Unit {0})
value_violation key pattern' = err (
    security_policy_violation (
      codes "value for key '"
      ++ (key ++ (codes "' contains blacklisted pattern '" ++ (pattern' ++ codes "'")))))

unfoldable pub validate_grub_payload : Text → Text → Result (Unit {0})
validate_grub_payload key value = elim (first_blacklisted_match key) [
  | some pattern' ↦ key_violation key pattern'
  | none ↦ elim (first_blacklisted_match value) [
    | some pattern' ↦ value_violation key pattern'
    | none ↦ ok tt
  ]
]

-- `char::is_control`
abbrev pub is_control : ℕ → Bool
is_control c = ltb c 0x20 || leb 0x7f c && ltb c 0xa0

unfoldable pub needs_escaping : ℕ → Bool
needs_escaping c = is_control c && not (c == b'\t')

abbrev pub lower_hex_digit : ℕ → ℕ
lower_hex_digit d = if ltb d 10 then b'0' + d else b'a' + (d - 10)

-- `char::escape_debug`, for the control characters that it is called with.
unfoldable pub escape_debug : ℕ → Text
unfolding digits_from
escape_debug c =
    if c == 0
    then b'\\' ∷ b'0' ∷ []
    else if c == b'\n'
    then b'\\' ∷ b'n' ∷ []
    else if c == b'\r'
    then b'\\' ∷ b'r' ∷ []
    else b'\\' ∷ b'u' ∷ b'{' ∷ (digits_from 16 lower_hex_digit (suc c) c [] ++ (b'}' ∷ []))

unfoldable pub any_char : (ℕ → Bool) → Text → Bool
any_char p [] = false
any_char p (c ∷ cs) = p c || any_char p cs

-- The loop that builds the escaped text.
unfoldable pub escape_onto : Text → Text → Text
escape_onto out [] = out
escape_onto out (c ∷ cs) =
    escape_onto (out ++ (if needs_escaping c then escape_debug c else c ∷ [])) cs

unfoldable pub escape_control_chars : Text → Text
unfolding any_char escape_onto
escape_control_chars s = if not (any_char needs_escaping s) then s else escape_onto [] s
