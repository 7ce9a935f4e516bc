-- ===== src/Failsafe.antt =====
-- crates/daemon/src/failsafe.rs: the failsafe GRUB entry, written after each change. What the
-- system tells of kernels, images and devices is read from the `World`.
pub mod Writes
use boot_control.Prelude.{
  ℕ, Bool, true, false, not, Option, none, some, List, [], ◌∷◌, ◌++◌, ltb, if◌then◌else◌, get_elem?,
}
use boot_control.Text.{Text, codes, lines, split_whitespace, starts_with, strip_prefix, text_eq}
use boot_control.Error.{BootControlError, esp_scan_failed, Result, ok, err, ok_or}
use boot_control.Store.{
  FilePath, display_path, file_name, parent, Call, create_dir, sync, World, BootFile, Io, ◌>>=◌,
  ◌>>◌, pure, lift, attempt, read_to_string, create_file, write_all, rename_file,
}

pub record KernelInfo : Type 0 where
  pub version : Text
  pub vmlinuz : Text

unfoldable pub parse_proc_version : Text → Option Text
parse_proc_version content = get_elem? (split_whitespace content) 2

abbrev newer : Option ℕ → Option (ℕ × Text) → Bool
newer none best = false
newer (some mtime) none = true
newer (some mtime) (some (t, _)) = ltb t mtime

abbrev replace_best : BootFile → Option (ℕ × Text) → Option (ℕ × Text)
replace_best file best = elim file.mtime [
  | none ↦ best
  | some mtime ↦ if newer file.mtime best then some (mtime, file.name) else best
]

-- The loop over /boot: the newest file whose name starts with `vmlinuz-`, the first of equals.
unfoldable pub newest_kernel : Option (ℕ × Text) → List BootFile → Option (ℕ × Text)
newest_kernel best [] = best
newest_kernel best (file ∷ files) =
    newest_kernel
      (if not (starts_with (codes "vmlinuz-") file.name) then best else replace_best file best)
      files

kernel_of_name : Text → Result KernelInfo
kernel_of_name name = elim (strip_prefix (codes "vmlinuz-") name) [
  | none ↦ err (esp_scan_failed (codes "cannot extract version from /boot/" ++ name))
  | some version ↦ ok (record { version = version; vmlinuz = codes "/boot/" ++ name })
]

kernel_of_best : Option (ℕ × Text) → Result KernelInfo
kernel_of_best none = err (esp_scan_failed (codes "no vmlinuz-* found in /boot"))
kernel_of_best (some (_, name)) = kernel_of_name name

-- The listing fails with the system's message, which is not modelled here.
unfoldable pub scan_boot_for_newest_kernel : World → Result KernelInfo
unfolding newest_kernel kernel_of_best kernel_of_name
scan_boot_for_newest_kernel w = elim w.boot_dir [
  | none ↦ err (esp_scan_failed (codes "cannot read /boot"))
  | some entries ↦ kernel_of_best (newest_kernel none entries)
]

abbrev proc_version : FilePath
proc_version = codes "proc" ∷ codes "version" ∷ []

abbrev unknown_kernel : KernelInfo
unknown_kernel = record { version = codes "unknown"; vmlinuz = codes "/boot/vmlinuz-unknown" }

abbrev ok_version : Result Text → Option Text
ok_version (ok content) = parse_proc_version content
ok_version (err _) = none

-- /proc/version, or else the newest kernel in /boot, or else a placeholder: it never fails.
unfoldable pub detect_running_kernel : World → KernelInfo
unfolding parse_proc_version scan_boot_for_newest_kernel read_to_string
detect_running_kernel w = elim (ok_version (read_to_string esp_scan_failed proc_version w).0) [
  | some version ↦ record { version = version; vmlinuz = codes "/boot/vmlinuz-" ++ version }
  | none ↦ elim (scan_boot_for_newest_kernel w) [ ok info ↦ info | err _ ↦ unknown_kernel ]
]

-- The first of the two candidates that exists.
unfoldable pub detect_initrd : World → Text → Option Text
detect_initrd w version =
    let debian = codes "/boot/initrd.img-" ++ version in
    let fedora = codes "/boot/initramfs-" ++ (version ++ codes ".img") in
    if w.exists debian then some debian else if w.exists fedora then some fedora else none

abbrev slash : Text
slash = b'/' ∷ []

-- The loop of `parse_root_device`; a line with fewer than two fields ends it with no result.
unfoldable pub root_device_in : List Text → Option Text
root_device_in [] = none
root_device_in (line ∷ rest) = elim (split_whitespace line) [
  | [] ↦ none
  | device ∷ fields ↦ elim fields [
    | [] ↦ none
    | mountpoint ∷ _ ↦ if text_eq mountpoint slash then some device else root_device_in rest
  ]
]

unfoldable pub parse_root_device : Text → Option Text
unfolding root_device_in
parse_root_device mounts = root_device_in (lines mounts)

-- The loop over /dev/disk/by-uuid.
unfoldable pub uuid_of : Text → List (Text × Option Text) → Option Text
uuid_of device [] = none
uuid_of device ((uuid, none) ∷ rest) = uuid_of device rest
uuid_of device ((uuid, some target) ∷ rest) =
    if text_eq target device then some (codes "UUID=" ++ uuid) else uuid_of device rest

abbrev or_device : Text → Option Text → Text
or_device device none = device
or_device device (some uuid) = uuid

abbrev ok_mounts : Result Text → Option Text
ok_mounts (ok content) = parse_root_device content
ok_mounts (err _) = none

unfoldable pub try_detect_root_uuid : World → Option Text
unfolding parse_root_device read_to_string uuid_of
try_detect_root_uuid w =
    elim (ok_mounts (read_to_string esp_scan_failed (codes "proc" ∷ codes "mounts" ∷ []) w).0) [
      | none ↦ none
      | some root_dev ↦ elim w.by_uuid [
        | none ↦ some root_dev
        | some entries ↦ some (or_device root_dev (uuid_of root_dev entries))
      ]
    ]

unfoldable pub detect_root_uuid : World → Text
unfolding try_detect_root_uuid
detect_root_uuid w = elim (try_detect_root_uuid w) [ some found ↦ found | none ↦ codes "/dev/sda1" ]

abbrev initrd_line : Option Text → Text
initrd_line none = []
initrd_line (some p) = codes "    initrd  " ++ (p ++ codes "\n")

unfoldable pub build_failsafe_snippet : KernelInfo → Option Text → Text → Text → Text
build_failsafe_snippet kernel initrd root timestamp =
    codes "# BootControl Failsafe Entry — auto-generated, do not edit manually\n# Generated: "
    ++ (timestamp
        ++ (codes "\nmenuentry \"Linux (Failsafe — BootControl)\" --class linux {\n"
            ++ (codes "    load_video\n    insmod gzio\n    insmod part_gpt\n    insmod ext2\n"
                ++ (codes "    linux   "
                    ++ (kernel.vmlinuz
                        ++ (codes " root="
                            ++ (root
                                ++ (codes " ro\n" ++ (initrd_line initrd ++ codes "}\n")))))))))

abbrev pub or_default {ℓ} : {A : Type ℓ} → A → Option A → A
or_default d none = d
or_default d (some a) = a

unfoldable pub build_tmp_path : FilePath → FilePath
build_tmp_path target =
    or_default (codes "etc" ∷ codes "bootcontrol" ∷ []) (parent target)
    ++ ((or_default (codes "failsafe.cfg") (file_name target) ++ codes ".tmp") ∷ [])

abbrev scan_failed : Text → Text → BootControlError
scan_failed context e = esp_scan_failed (context ++ e)

create_parent : Option FilePath → Io (Unit {0})
create_parent none = pure tt
create_parent (some dir) =
    attempt (scan_failed (codes "cannot create directory " ++ (display_path dir ++ codes ": ")))
      (create_dir dir)

unfoldable pub write_failsafe_content : FilePath → Text → Io (Unit {0})
unfolding create_parent
write_failsafe_content cfg_path content = do
  create_parent (parent cfg_path)
  let tmp_path = build_tmp_path cfg_path
  create_file
      (scan_failed (codes "cannot create tmp file " ++ (display_path tmp_path ++ codes ": ")))
      tmp_path
  write_all (scan_failed (codes "write to tmp file failed: ")) tmp_path content
  attempt (scan_failed (codes "fsync failed on failsafe tmp: ")) (sync tmp_path)
  rename_file (scan_failed (codes "atomic rename failed: ")) tmp_path cfg_path

unfoldable pub refresh_failsafe_entry : FilePath → Io (Unit {0})
refresh_failsafe_entry cfg_path w =
    let kernel = detect_running_kernel w in
    let initrd = detect_initrd w kernel.version in
    let root = detect_root_uuid w in
    write_failsafe_content cfg_path (build_failsafe_snippet kernel initrd root w.clock) w
