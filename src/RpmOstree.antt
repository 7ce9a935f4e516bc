-- ===== src/RpmOstree.antt =====
-- crates/daemon/src/rpm_ostree.rs: the kernel arguments of a host that rpm-ostree manages.
use boot_control.Prelude.{ℕ, Bool, true, false, some, List, [], ◌∷◌, ◌++◌, if◌then◌else◌}
use boot_control.Text.{Text, codes, text_eq}
use boot_control.Error.{state_mismatch, tool_not_found, esp_scan_failed, Result, ok, err}
use boot_control.Hash.{compute_etag}
use boot_control.Cmdline.{parse_cmdline, validate_kernel_param}
use boot_control.Store.{System, Io, Output, Spawned, spawn_failed, exited, ◌>>=◌, ◌>>◌, lift, pure}

-- `output.status.success()`
abbrev success : Output → Bool
success output = elim output.code [ some ℕ.zero ↦ true | _ ↦ false ]

-- The stdout of a command that succeeds.
unfoldable pub command_output : Text → Spawned → Result Text
command_output what (spawn_failed e) =
    err (tool_not_found (codes "rpm-ostree (spawn failed: " ++ (e ++ codes ")")))
command_output what (exited output) =
    if success output
    then ok output.stdout
    else err
        (esp_scan_failed (codes "`rpm-ostree " ++ (what ++ (codes "` failed: " ++ output.stderr))))

unfoldable pub etag_check : Text → Text → Result (Unit {0})
etag_check expected current =
    if text_eq expected current then ok tt else err (state_mismatch expected current)

module _ (sys : System) where
  unfoldable pub rpm_ostree_run : Text → List Text → Io Text
  rpm_ostree_run what args w =
      let (spawned, w') = sys.spawn (codes "rpm-ostree") args w in (command_output what spawned, w')

  unfoldable pub kargs_read : Io (List Text × Text)
  kargs_read = do
    stdout ← rpm_ostree_run (codes "kargs") (codes "kargs" ∷ [])
    pure (parse_cmdline stdout, compute_etag sys.digest stdout)

  unfoldable pub kargs_append : Text → Text → Io (Unit {0})
  kargs_append param expected_etag = do
    lift (validate_kernel_param param)
    current ← kargs_read
    lift (etag_check expected_etag current.1)
    let flag = codes "--append=" ++ param
    rpm_ostree_run (codes "kargs " ++ flag) (codes "kargs" ∷ flag ∷ []) >>= λ _. pure tt

  unfoldable pub kargs_delete : Text → Text → Io (Unit {0})
  kargs_delete param expected_etag = do
    current ← kargs_read
    lift (etag_check expected_etag current.1)
    let flag = codes "--delete=" ++ param
    rpm_ostree_run (codes "kargs " ++ flag) (codes "kargs" ∷ flag ∷ []) >>= λ _. pure tt
