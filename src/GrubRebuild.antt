-- ===== src/GrubRebuild.antt =====
-- crates/daemon/src/grub_rebuild.rs: running grub-mkconfig.
use boot_control.Store.Calm.{Calm, Returns}
use boot_control.Store.Keeps.{KeepsAt}
use boot_control.Prelude.{ℕ, zero, suc, Option, none, some, [], ◌∷◌, ◌++◌, List, ◌≡◌, refl}
use boot_control.Text.{Text, codes}
use boot_control.Text.Numbers.{display}
use boot_control.Error.{esp_scan_failed, Result, ok, err}
use boot_control.Store.{
  FilePath, display_path, Output, Spawned, spawn_failed, exited, System, Io, World,
}

abbrev or_which : Option Text → Option Text → Option Text
or_which none later = later
or_which (some binary) later = some binary

abbrev exit_code : Option ℕ → Text
exit_code (some code) = display code
exit_code none = codes "signal"

mkconfig_failed : Output → Result (Unit {0})
mkconfig_failed output = err (
    esp_scan_failed (
      codes "grub-mkconfig failed (exit "
      ++ (exit_code output.code ++ (codes "): " ++ output.stderr))))

-- `output.status.success()`: the exit code is 0.
mkconfig_status : Output → Option ℕ → Result (Unit {0})
mkconfig_status output (some zero) = ok tt
mkconfig_status output (some (suc code)) = mkconfig_failed output
mkconfig_status output none = mkconfig_failed output

mkconfig_result : Text → Spawned → Result (Unit {0})
mkconfig_result binary (spawn_failed e) =
    err (esp_scan_failed (codes "failed to spawn " ++ (binary ++ (codes ": " ++ e))))
mkconfig_result binary (exited output) = mkconfig_status output output.code

run_binary : System → FilePath → Option Text → Io (Unit {0})
run_binary sys output_path none w = (
  err (esp_scan_failed (codes "grub-mkconfig not found; install grub-common or grub2-common")),
  w,
)
run_binary sys output_path (some binary) w =
    let (spawned, w') = sys.spawn binary (codes "-o" ∷ display_path output_path ∷ []) w in
    (mkconfig_result binary spawned, w')

unfoldable pub run_grub_mkconfig : System → FilePath → Io (Unit {0})
unfolding run_binary mkconfig_result mkconfig_status mkconfig_failed
run_grub_mkconfig sys output_path =
    run_binary sys output_path
      (or_which (sys.which (codes "grub-mkconfig")) (sys.which (codes "grub2-mkconfig")))

module _ (sys : System) (path : FilePath) where
  -- The tools that are run leave the file alone.
  abbrev pub ToolsKeep : Type 0
  ToolsKeep =
      (binary : Text) (args : List Text) (w : World)
      → (sys.spawn binary args w).1.files path ≡ w.files path

  run_binary-KeepsAt :
      (output : FilePath) (binary : Option Text)
      → ToolsKeep
      → KeepsAt path (run_binary sys output binary)
  unfolding run_grub_mkconfig
  run_binary-KeepsAt output none keep = record { at = λ w. refl }
  run_binary-KeepsAt output (some binary) keep = record {
    at = λ w. keep binary (codes "-o" ∷ display_path output ∷ []) w;
  }

  pub run_grub_mkconfig-KeepsAt :
      (output : FilePath) → ToolsKeep → KeepsAt path (run_grub_mkconfig sys output)
  unfolding run_grub_mkconfig
  run_grub_mkconfig-KeepsAt output keep = run_binary-KeepsAt output _ keep

-- grub-mkconfig, under one of its names, is found, exits with code 0, and makes no call fail later.
pub record MkconfigWorks (sys : System) (output : FilePath) : Type 0 where
  pub binary : Text
  pub found :
      or_which (sys.which (codes "grub-mkconfig")) (sys.which (codes "grub2-mkconfig"))
      ≡ some binary
  pub stdout : Text
  pub stderr : Text
  pub exits :
      (w : World)
      → (sys.spawn binary (codes "-o" ∷ display_path output ∷ []) w).0
        ≡ exited (record { code = some 0; stdout = stdout; stderr = stderr })
  pub calm :
      (w : World) → Calm w → Calm (sys.spawn binary (codes "-o" ∷ display_path output ∷ []) w).1

pub run_grub_mkconfig-Returns :
    (sys : System) (output : FilePath)
    → MkconfigWorks sys output
    → Returns (run_grub_mkconfig sys output) tt
unfolding run_grub_mkconfig
run_grub_mkconfig-Returns sys output h = record {
  run = λ w calm. rw (h.found) (rw (h.exits w) (refl, h.calm w calm));
}
