-- ===== src/Tests/Grub.antt =====
-- The parser of /etc/default/grub at concrete files.
use boot_control.Prelude.{true, ◌≡◌, ◌↔◌, refl, All}
use boot_control.Text.{
  Text, codes, lines, is_whitespace, trim_start_by, trim_end_by, starts_with, contains, split_once,
  text_eq,
}
use boot_control.Error.{complex_bash_detected, ok, err}
use boot_control.Map.{lookup, insert}
use boot_control.Text.Numbers.{parse_u32}
use boot_control.Grub.{
  GrubConfig, empty_config, parse_line, parse_grub_config, get_value, is_valid_key,
  detect_dangerous_value, extract_value, not_assignment, find_bash_construct,
}
use boot_control.Grub.Lines.{IsSafeLine}
use boot_control.Grub.Config.{
  Parses, first_offender, value_or_error, parse_grub_config-Parses, get_value_lem,
}
use boot_control.Grub.Safety.{parse_grub_config_accepts}
use boot_control.GrubSettings.{
  GrubSettings, menu, parse_grub_settings, validate_grub_settings, timeout_or_default, parse_style,
  parse_optional_bool, parse_timeout,
}
use boot_control.GrubSettings.Parse.{parse_grub_settings-valid}

abbrev file : Text
file = codes "# boot\nGRUB_TIMEOUT=5\n\nGRUB_CMDLINE=\"quiet splash\"\nGRUB_TIMEOUT=9\n"

abbrev evil : Text
evil = codes "GRUB_TIMEOUT=5\nexport X\nGRUB_X=$(id)\n"

get-file : get_value file (codes "GRUB_TIMEOUT") ≡ ok (codes "9")
unfolding codes lines get_value parse_grub_config parse_line is_whitespace trim_start_by trim_end_by
    starts_with split_once is_valid_key text_eq detect_dangerous_value contains extract_value lookup
    insert not_assignment find_bash_construct
get-file = refl

get-quoted : get_value file (codes "GRUB_CMDLINE") ≡ ok (codes "quiet splash")
unfolding codes lines get_value parse_grub_config parse_line is_whitespace trim_start_by trim_end_by
    starts_with split_once is_valid_key text_eq detect_dangerous_value contains extract_value lookup
    insert not_assignment find_bash_construct
get-quoted = refl

get-evil :
    get_value evil (codes "GRUB_TIMEOUT") ≡ err (complex_bash_detected (codes "export-keyword"))
unfolding codes lines get_value parse_grub_config parse_line is_whitespace trim_start_by trim_end_by
    starts_with split_once is_valid_key text_eq detect_dangerous_value contains extract_value lookup
    insert not_assignment find_bash_construct
get-evil = refl

parse_grub_config_accepts_example :
    ((config : GrubConfig) × (parse_grub_config file ≡ ok config)) ↔ All IsSafeLine (lines file)
parse_grub_config_accepts_example = parse_grub_config_accepts file

parse_grub_config-Parses_example :
    Parses empty_config (lines evil) (first_offender (lines evil)) (parse_grub_config evil)
parse_grub_config-Parses_example = parse_grub_config-Parses evil

get_value_lem_example :
    get_value file (codes "GRUB_TIMEOUT")
    ≡ value_or_error (codes "GRUB_TIMEOUT") (lines file) (first_offender (lines file))
get_value_lem_example = get_value_lem file (codes "GRUB_TIMEOUT")

abbrev read_settings : GrubSettings
read_settings = record {
  timeout_seconds = 9;
  timeout_style = menu;
  detect_other_os = true;
  generate_recovery_entries = true;
}

parse-file : parse_grub_settings file ≡ ok read_settings
unfolding codes lines get_value parse_grub_config parse_line is_whitespace trim_start_by trim_end_by
    starts_with split_once is_valid_key text_eq detect_dangerous_value contains extract_value lookup
    insert not_assignment find_bash_construct parse_grub_settings timeout_or_default parse_style
    parse_optional_bool parse_timeout parse_u32
parse-file = refl

parse_grub_settings-valid_example : validate_grub_settings read_settings ≡ ok tt
parse_grub_settings-valid_example = parse_grub_settings-valid file read_settings parse-file
