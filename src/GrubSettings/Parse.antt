-- ===== src/GrubSettings/Parse.antt =====
-- crates/core/src/grub_settings.rs: what the parser of the settings returns.
use boot_control.Prelude.{ℕ, ◌≤◌, Bool, true, false, not, Option, none, some, ◌≡◌, refl, arith}
use boot_control.Text.{Text, codes, text_eq}
use boot_control.Text.Numbers.{display, parse_u32-display, bool_text}
use boot_control.Error.{ok, bind-eq-ok}
use boot_control.Map.{lookup}
use boot_control.Grub.{parse_grub_config}
use boot_control.GrubSettings.{
  max_timeout_seconds, GrubTimeoutStyle, menu, countdown, hidden, as_str, GrubSettings,
  validate_grub_settings, parse_timeout, parse_optional_bool, timeout_or_default, parse_style,
  settings_of, parse_grub_settings,
}

parse_timeout-le : (value : Text) (t : ℕ) → parse_timeout value ≡ ok t → t ≤ max_timeout_seconds
unfolding parse_timeout
parse_timeout-le value t h = ground arith

timeout_or_default-le :
    (o : Option Text) (t : ℕ) → timeout_or_default o ≡ ok t → t ≤ max_timeout_seconds
unfolding timeout_or_default
timeout_or_default-le none t h = ground arith
timeout_or_default-le (some value) t h = parse_timeout-le value t h

settings_of-valid :
    (map : Text → Option Text) (s : GrubSettings)
    → settings_of map ≡ ok s
    → s.timeout_seconds ≤ max_timeout_seconds
unfolding settings_of
settings_of-valid map s h =
    let (t, is_t, rest) = bind-eq-ok (timeout_or_default (map (codes "GRUB_TIMEOUT"))) _ h in
    let (style, _, rest') = bind-eq-ok (parse_style (map (codes "GRUB_TIMEOUT_STYLE"))) _ rest in
    let (probe, _, rest'') =
      bind-eq-ok (parse_optional_bool (map (codes "GRUB_DISABLE_OS_PROBER")) _) _ rest' in
    let (recovery, _, last) =
      bind-eq-ok (parse_optional_bool (map (codes "GRUB_DISABLE_RECOVERY")) _) _ rest'' in
    ground (arith, timeout_or_default-le (map (codes "GRUB_TIMEOUT")) t)

-- Settings that were parsed pass the validation that a write of them makes.
pub parse_grub_settings-valid :
    (input : Text) (s : GrubSettings)
    → parse_grub_settings input ≡ ok s
    → validate_grub_settings s ≡ ok tt
unfolding parse_grub_settings validate_grub_settings
parse_grub_settings-valid input s h =
    let (config, _, rest) = bind-eq-ok (parse_grub_config input) _ h in
    ground (arith, settings_of-valid (λ key. lookup key config.map) s rest)

parse_timeout-display : (t : ℕ) → t ≤ max_timeout_seconds → parse_timeout (display t) ≡ ok t
unfolding parse_timeout
parse_timeout-display t h = rw (parse_u32-display t (omega arith)) (ground arith)

parse_style-as_str : (s : GrubTimeoutStyle) → parse_style (some (as_str s)) ≡ ok s
unfolding parse_style as_str codes text_eq
parse_style-as_str menu = refl
parse_style-as_str countdown = refl
parse_style-as_str hidden = refl

parse_optional_bool-value :
    (b : Bool) (key : Text) → parse_optional_bool (some (bool_text b)) key ≡ ok b
unfolding parse_optional_bool codes text_eq
parse_optional_bool-value true key = refl
parse_optional_bool-value false key = refl

not-not : (b : Bool) → not (not b) ≡ b
not-not true = refl
not-not false = refl

-- A map that holds the four texts of some settings is read as those settings.
pub settings_of-texts :
    (map : Text → Option Text) (s : GrubSettings)
    → s.timeout_seconds ≤ max_timeout_seconds
    → map (codes "GRUB_TIMEOUT") ≡ some (display s.timeout_seconds)
    → map (codes "GRUB_TIMEOUT_STYLE") ≡ some (as_str s.timeout_style)
    → map (codes "GRUB_DISABLE_OS_PROBER") ≡ some (bool_text (not s.detect_other_os))
    → map (codes "GRUB_DISABLE_RECOVERY") ≡ some (bool_text (not s.generate_recovery_entries))
    → settings_of map ≡ ok s
unfolding settings_of timeout_or_default
settings_of-texts map s h t style probe recovery =
    rw (t, style, probe, recovery)
      (rw (parse_timeout-display s.timeout_seconds h) (
        rw (parse_style-as_str s.timeout_style) (
          rw (parse_optional_bool-value (not s.detect_other_os)) (
            rw (parse_optional_bool-value (not s.generate_recovery_entries))
              (rw (not-not s.detect_other_os, not-not s.generate_recovery_entries) refl)))))
