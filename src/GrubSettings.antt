-- ===== src/GrubSettings.antt =====
-- crates/core/src/grub_settings.rs: the typed view of the settings that the program edits.
pub mod Parse
use boot_control.Prelude.{
  ℕ, Bool, true, false, not, Option, none, some, ◌++◌, leb, ltb, if◌then◌else◌,
}
use boot_control.Text.{Text, codes, text_eq}
use boot_control.Text.Numbers.{display, parse_u32}
use boot_control.Error.{malformed_value, Result, ok, err, ◌>>=◌, ok_or}
use boot_control.Map.{lookup}
use boot_control.Grub.{GrubConfig, parse_grub_config}

abbrev pub max_timeout_seconds : ℕ
max_timeout_seconds = 1000000

pub data GrubTimeoutStyle : Type 0 where
  menu countdown hidden : GrubTimeoutStyle

-- `GrubTimeoutStyle::as_str`
unfoldable pub as_str : GrubTimeoutStyle → Text
as_str menu = codes "menu"
as_str countdown = codes "countdown"
as_str hidden = codes "hidden"

pub record GrubSettings : Type 0 where
  pub timeout_seconds : ℕ  -- u32
  pub timeout_style : GrubTimeoutStyle
  pub detect_other_os : Bool
  pub generate_recovery_entries : Bool

unfoldable pub timeout_reason : Text
timeout_reason = codes "expected an integer from 0 to " ++ display max_timeout_seconds

unfoldable pub validate_grub_settings : GrubSettings → Result (Unit {0})
validate_grub_settings settings =
    if ltb max_timeout_seconds settings.timeout_seconds
    then err (malformed_value (codes "GRUB_TIMEOUT") timeout_reason)
    else ok tt

filter_timeout : Option ℕ → Option ℕ
filter_timeout none = none
filter_timeout (some timeout) = if leb timeout max_timeout_seconds then some timeout else none

unfoldable pub parse_timeout : Text → Result ℕ
unfolding filter_timeout
parse_timeout value =
    ok_or (malformed_value (codes "GRUB_TIMEOUT") timeout_reason) (filter_timeout (parse_u32 value))

unfoldable pub parse_optional_bool : Option Text → Text → Result Bool
parse_optional_bool none key = ok false
parse_optional_bool (some other) key =
    if text_eq other (codes "false")
    then ok false
    else if text_eq other (codes "true")
    then ok true
    else err (malformed_value key (codes "expected true or false, found '" ++ (other ++ codes "'")))

-- The `match` on `GRUB_TIMEOUT`.
unfoldable pub timeout_or_default : Option Text → Result ℕ
timeout_or_default (some value) = parse_timeout value
timeout_or_default none = ok 5

-- The `match` on `GRUB_TIMEOUT_STYLE`.
unfoldable pub parse_style : Option Text → Result GrubTimeoutStyle
parse_style none = ok menu
parse_style (some value) =
    if text_eq value (codes "menu")
    then ok menu
    else if text_eq value (codes "countdown")
    then ok countdown
    else if text_eq value (codes "hidden")
    then ok hidden
    else err (
        malformed_value (codes "GRUB_TIMEOUT_STYLE")
          (codes "unsupported timeout style '" ++ (value ++ codes "'")))

-- The rest of `parse_grub_settings`, on the map of the parsed file.
unfoldable pub settings_of : (Text → Option Text) → Result GrubSettings
settings_of map = do
  timeout_seconds ← timeout_or_default (map (codes "GRUB_TIMEOUT"))
  timeout_style ← parse_style (map (codes "GRUB_TIMEOUT_STYLE"))
  disable_os_prober ←
      parse_optional_bool (map (codes "GRUB_DISABLE_OS_PROBER")) (codes "GRUB_DISABLE_OS_PROBER")
  disable_recovery ←
      parse_optional_bool (map (codes "GRUB_DISABLE_RECOVERY")) (codes "GRUB_DISABLE_RECOVERY")
  ok (record {
    timeout_seconds = timeout_seconds;
    timeout_style = timeout_style;
    detect_other_os = not disable_os_prober;
    generate_recovery_entries = not disable_recovery;
  })

unfoldable pub parse_grub_settings : Text → Result GrubSettings
unfolding settings_of
parse_grub_settings input = do
  config ← parse_grub_config input
  settings_of (λ key. lookup key config.map)
