-- ===== src/Tests/Manager.antt =====
-- Changes of /etc/default/grub in concrete worlds.
use boot_control.Store.Calm.{Returns-pure}
use boot_control.GrubRebuild.{MkconfigWorks}
use boot_control.GrubManager.Success.{set_grub_values_succeeds}
use boot_control.GrubManager.Lockout.{changed_file_accepted_iff}
use boot_control.Grub.Lines.{IsShellName, detect_dangerous_value_iff, IsHarmless}
use boot_control.Prelude.{
  Bool, true, false, none, some, List, [], ◌∷◌, ◌≡◌, ◌≢◌, refl, arith, if◌then◌else◌, ◌↔◌,
}
use boot_control.Text.{
  Text, codes, lines, is_whitespace, trim_start_by, trim_end_by, starts_with, contains, split_once,
  text_eq,
}
use boot_control.Error.{state_mismatch, ok, err}
use boot_control.Map.{lookup, insert}
use boot_control.Hash.{compute_etag, verify_etag, verify_etag_iff}
use boot_control.Store.{FilePath, path_eq, World, System, Io, exited, pure, parent, file_name}
use boot_control.Store.Paths.{path_eq_iff}
use boot_control.Store.Keeps.{KeepsAt, KeepsAt-lift}
use boot_control.Failsafe
use boot_control.Failsafe.{refresh_failsafe_entry}
use boot_control.Failsafe.Writes.{refresh_failsafe_entry-KeepsAt}
use boot_control.Grub.{
  GrubConfig, assignment, parse_line, parse_grub_config, is_valid_key, detect_dangerous_value,
  extract_value, not_assignment, find_bash_construct,
}
use boot_control.Grub.Config.{or_later}
use boot_control.GrubSettings.{GrubSettings, hidden, parse_grub_settings}
use boot_control.GrubManager.{
  LockedGrubState, apply_changes, new_content, settings_changes, build_assignment_line,
  set_grub_values_with_prewrite,
}
use boot_control.GrubManager.Line.{IsPlainValue, parse_line-build_assignment_line}
use boot_control.GrubManager.Change.{value_of}
use boot_control.GrubManager.ReadBack.{apply_changes-read_back, IsUnix}
use boot_control.GrubManager.Settings.{settings-read_back, plain_chars-IsPlainValue}
use boot_control.GrubManager.Atomic.{Outcome, set_grub_values-Outcome}
use boot_control.GrubManager.Refusals.{set_grub_values_stale}

abbrev pub file : Text
file = codes "# boot\nGRUB_TIMEOUT=5\n"

abbrev parsed_file : GrubConfig
parsed_file = record {
  lines = codes "# boot" ∷ codes "GRUB_TIMEOUT=5" ∷ [];
  map = (codes "GRUB_TIMEOUT", codes "5") ∷ [];
}

abbrev evil : Text
evil = codes "X=$(id)\n"

abbrev pub path : FilePath
path = codes "etc" ∷ codes "default" ∷ codes "grub" ∷ []

abbrev pub failsafe : FilePath
failsafe = codes "etc" ∷ codes "bootcontrol" ∷ codes "failsafe.cfg" ∷ []

abbrev pub grub_cfg : FilePath
grub_cfg = codes "boot" ∷ codes "grub" ∷ codes "grub.cfg" ∷ []

abbrev pub world : Text → Bool → World
world content held = record {
  files = λ p. if path_eq p path then some content else none;
  mode = λ _. 420;
  busy = λ _. held;
  fault = λ _. none;
  torn = λ _. [];
  clock = codes "2026-04-17T20:00:00+00:00";
  exists = λ _. false;
  boot_dir = none;
  by_uuid = none;
  dirs = [];
  symlink = λ _. false;
  now = codes "2026-04-17T20:00:00Z";
  days_before = λ _. some (codes "2026-04-17T20:00:00Z");
  spared = λ _. false;
  journal = [];
  shared = none;
}

-- A digest that tells nothing but emptiness is enough for a run.
abbrev pub sys : System
sys = record {
  digest = λ content. content;
  which = λ name. some name;
  spawn = λ _ _ w. (exited (record { code = some 0; stdout = []; stderr = [] }), w);
}

abbrev changes : List (Text × Text)
changes = (codes "GRUB_TIMEOUT", codes "10") ∷ (codes "GRUB_TITLE", codes "my os") ∷ []

abbrev pub no_prewrite : LockedGrubState → Io (Unit {0})
no_prewrite _ = pure tt

pub other : failsafe ≢ path
unfolding path_eq text_eq codes
other e = cc ((path_eq_iff failsafe path).1 e)

pub tmp_other : Failsafe.build_tmp_path failsafe ≢ path
unfolding path_eq text_eq codes Failsafe.build_tmp_path parent file_name
tmp_other e = cc ((path_eq_iff (Failsafe.build_tmp_path failsafe) path).1 e)

set_grub_values-Outcome_example :
    let (r, w') =
      set_grub_values_with_prewrite sys path changes file failsafe grub_cfg no_prewrite
        (world file false) in
    Outcome sys.digest changes file no_prewrite
      (world file false)
      ((world file false).files path)
      r
      (w'.files path)
set_grub_values-Outcome_example =
    set_grub_values-Outcome sys path failsafe grub_cfg changes file no_prewrite (λ _ _ _. refl)
      (λ _. KeepsAt-lift path (ok tt)) other tmp_other (world file false)

refresh_failsafe_entry-KeepsAt_example : KeepsAt path (refresh_failsafe_entry failsafe)
refresh_failsafe_entry-KeepsAt_example =
    refresh_failsafe_entry-KeepsAt path failsafe other tmp_other

holds : (content : Text) (held : Bool) → (world content held).files path ≡ some content
unfolding path_eq text_eq codes
holds content held = refl

stale_etag : [] ≢ compute_etag sys.digest file
unfolding compute_etag codes
stale_etag e = cc

set_grub_values_stale_example :
    set_grub_values_with_prewrite sys path changes [] failsafe grub_cfg no_prewrite
      (world file false)
    ≡ (err (state_mismatch [] (compute_etag sys.digest file)), world file false)
set_grub_values_stale_example =
    set_grub_values_stale sys path failsafe grub_cfg changes [] no_prewrite file (world file false)
      (record {
        opened = refl;
        unlocked = refl;
        locked = refl;
        readable = refl;
        holds = holds file false;
      })
      stale_etag

own_etag : (content : Text) → content ≡ compute_etag sys.digest content
unfolding compute_etag
own_etag content = refl

parse-file : parse_grub_config file ≡ ok parsed_file
unfolding codes lines parse_grub_config parse_line is_whitespace trim_start_by trim_end_by
    starts_with split_once is_valid_key text_eq detect_dangerous_value contains extract_value lookup
    insert not_assignment find_bash_construct
parse-file = refl

file-IsUnix : IsUnix file
unfolding codes lines
file-IsUnix = (refl, (refl, tt))

safe_title : detect_dangerous_value (codes "my os") ≡ none
unfolding codes detect_dangerous_value contains starts_with
safe_title = refl

title-IsPlainValue : IsPlainValue (codes "my os")
unfolding codes
title-IsPlainValue = record {
  harmless = (detect_dangerous_value_iff (codes "my os")).0 safe_title;
  one_line = ground arith;
  no_return = λ e. ground arith;
  not_quoted = λ inner e. ground arith;
}

ten-IsPlainValue : IsPlainValue (codes "10")
unfolding codes
ten-IsPlainValue = plain_chars-IsPlainValue (codes "10") (ground arith)

names : IsShellName (codes "GRUB_TIMEOUT") × IsShellName (codes "GRUB_TITLE")
unfolding codes
names = (ground arith, ground arith)

parse_line-build_assignment_line_example :
    parse_line (build_assignment_line (codes "GRUB_TITLE") (codes "my os"))
    ≡ assignment (codes "GRUB_TITLE") (codes "my os")
parse_line-build_assignment_line_example =
    parse_line-build_assignment_line (codes "GRUB_TITLE") (codes "my os") names.1 title-IsPlainValue

apply_changes-read_back_example :
    (config' : GrubConfig) × (parse_grub_config
        (new_content (apply_changes parsed_file.lines changes))
      ≡ ok config')
    × ((j : Text) → lookup j config'.map ≡ or_later (value_of j changes) (lookup j parsed_file.map))
apply_changes-read_back_example =
    apply_changes-read_back file parsed_file changes parse-file file-IsUnix
      ((names.0, ten-IsPlainValue), ((names.1, title-IsPlainValue), tt)) (λ e. cc)

abbrev new_settings : GrubSettings
new_settings = record {
  timeout_seconds = 30;
  timeout_style = hidden;
  detect_other_os = true;
  generate_recovery_entries = false;
}

settings-read_back_example :
    parse_grub_settings
      (new_content (apply_changes parsed_file.lines (settings_changes new_settings)))
    ≡ ok new_settings
settings-read_back_example =
    settings-read_back file parsed_file new_settings parse-file file-IsUnix (omega arith)

verify_etag_iff_example :
    (verify_etag sys.digest evil file ≡ true) ↔ (evil ≡ compute_etag sys.digest file)
verify_etag_iff_example = verify_etag_iff sys.digest evil file

changed_file_accepted_iff_example :
    ((config' : GrubConfig) × (parse_grub_config
          (new_content (apply_changes parsed_file.lines ((codes "GRUB_TITLE", codes "a|b") ∷ [])))
        ≡ ok config'))
    ↔ IsHarmless (codes "a|b")
unfolding codes
changed_file_accepted_iff_example =
    changed_file_accepted_iff (codes "GRUB_TITLE") (codes "a|b") (names.1) (λ e. cc) (ground arith)
      (λ e. ground arith) file parsed_file parse-file file-IsUnix

mkconfig-MkconfigWorks : MkconfigWorks sys grub_cfg
mkconfig-MkconfigWorks = record {
  binary = codes "grub-mkconfig";
  found = refl;
  stdout = [];
  stderr = [];
  exits = λ _. refl;
  calm = λ _ calm. calm;
}

set_grub_values_succeeds_example :
    let (r, w') =
      set_grub_values_with_prewrite sys path changes
        (compute_etag sys.digest file)
        failsafe
        grub_cfg
        no_prewrite
        (world file false) in
    (r ≡ ok tt) × (w'.files path ≡ some (new_content (apply_changes parsed_file.lines changes)))
set_grub_values_succeeds_example =
    set_grub_values_succeeds sys path failsafe grub_cfg changes no_prewrite mkconfig-MkconfigWorks
      (λ _. Returns-pure tt) (λ _ _ _. refl) (λ _. KeepsAt-lift path (ok tt)) other tmp_other file
      parsed_file (world file false) (λ _. refl) refl (holds file false) parse-file
