-- ===== src/Cmdline.antt =====
-- crates/core/src/backends/uki.rs: the kernel command line in /etc/kernel/cmdline.
pub mod Changes
use boot_control.Prelude.{Bool, true, false, not, ◌||◌, List, [], ◌∷◌, ◌++◌, if◌then◌else◌}
use boot_control.Text.{Text, text_eq, split_whitespace, join}
use boot_control.Error.{key_not_found, Result, ok, err, ◌>>=◌, ◌>>◌}
use boot_control.Security.{validate_kernel_param_str}

-- `validate_kernel_param`, under the name that `uki.rs` gives it.
abbrev pub validate_kernel_param : Text → Result (Unit {0})
validate_kernel_param = validate_kernel_param_str

unfoldable pub parse_cmdline : Text → List Text
parse_cmdline content = split_whitespace content

unfoldable pub serialize_cmdline : List Text → Text
serialize_cmdline params = join (b' ' ∷ []) params ++ (b'\n' ∷ [])

-- `params.iter().any(|p| p == param)`
unfoldable pub has_param : Text → List Text → Bool
has_param param [] = false
has_param param (p ∷ params) = text_eq p param || has_param param params

-- `filter(|p| p != param)`
unfoldable pub without_param : Text → List Text → List Text
without_param param [] = []
without_param param (p ∷ params) =
    let rest = without_param param params in if not (text_eq p param) then p ∷ rest else rest

abbrev pub with_param : Text → List Text → List Text
with_param param params = if has_param param params then params else params ++ (param ∷ [])

unfoldable pub add_param : Text → Text → Result Text
add_param content param =
    validate_kernel_param param >> ok (serialize_cmdline (with_param param (parse_cmdline content)))

unfoldable pub remove_param : Text → Text → Result Text
remove_param content param =
    if not (has_param param (parse_cmdline content))
    then err (key_not_found param)
    else ok (serialize_cmdline (without_param param (parse_cmdline content)))
