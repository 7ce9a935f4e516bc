-- ===== src/Tests/Core.antt =====
-- The blacklist, the log filter and the keymap check at concrete texts.
use boot_control.Prelude.{Bool, true, [], ◌∷◌, ◌≡◌, ◌≢◌, ◌↔◌, All}
use boot_control.Text.{Text, codes, lines}
use boot_control.Error.{ok}
use boot_control.Security.{validate_grub_payload, escape_control_chars}
use boot_control.Security.Blacklist.{IsClean, validate_grub_payload_iff}
use boot_control.Security.Escape.{IsShown, escape_control_chars-IsShown}
use boot_control.Keymap.{into_result, validate_vconsole_keymap}
use boot_control.Keymap.Verdicts.{IsFirstSetting, IsKeymapChar, validate_vconsole_keymap_iff}

abbrev key : Text
key = codes "GRUB_CMDLINE_LINUX"

abbrev payload : Text
payload = codes "quiet init=/bin/sh"

validate_grub_payload_iff_example :
    (validate_grub_payload key payload ≡ ok tt) ↔ (IsClean key × IsClean payload)
validate_grub_payload_iff_example = validate_grub_payload_iff key payload

escape_control_chars-IsShown_example :
    All IsShown (escape_control_chars (b'a' ∷ 10 ∷ []))
    × (All IsShown (b'a' ∷ 10 ∷ []) → escape_control_chars (b'a' ∷ 10 ∷ []) ≡ b'a' ∷ 10 ∷ [])
escape_control_chars-IsShown_example = escape_control_chars-IsShown (b'a' ∷ 10 ∷ [])

abbrev conf : Text
conf = codes "FONT=eurlatgr\nKEYMAP=\"pl\"\n"

abbrev any_keymap : Text → Bool
any_keymap _ = true

validate_vconsole_keymap_iff_example :
    (into_result (validate_vconsole_keymap conf any_keymap) ≡ ok (codes "pl")) ↔ (
      IsFirstSetting (lines conf) (codes "pl")
      × ((codes "pl" ≢ []) × (All IsKeymapChar (codes "pl") × (any_keymap (codes "pl") ≡ true))))
validate_vconsole_keymap_iff_example = validate_vconsole_keymap_iff conf any_keymap (codes "pl")
