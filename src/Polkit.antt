-- ===== src/Polkit.antt =====
-- crates/daemon/src/polkit.rs: the actions, and asking the authority of polkit about a caller.
use boot_control.Prelude.{Bool, false, not, ◌||◌, List, [], ◌∷◌, if◌then◌else◌}
use boot_control.Text.{Text, codes, text_eq}
use boot_control.Error.{polkit_denied, Result, ok, err}
use boot_control.Store.{World}

abbrev pub rewrite_grub : Text
rewrite_grub = codes "org.bootcontrol.rewrite-grub"

abbrev pub write_bootloader : Text
write_bootloader = codes "org.bootcontrol.write-bootloader"

abbrev pub enroll_mok : Text
enroll_mok = codes "org.bootcontrol.enroll-mok"

abbrev pub restore_snapshot : Text
restore_snapshot = codes "org.bootcontrol.restore-snapshot"

abbrev pub known_actions : List Text
known_actions = rewrite_grub ∷ write_bootloader ∷ enroll_mok ∷ restore_snapshot ∷ []

unfoldable pub contains_text : Text → List Text → Bool
contains_text x [] = false
contains_text x (y ∷ ys) = text_eq x y || contains_text x ys

-- `is_authorized` of the answer to the caller's bus name and an action; false when a step fails.
abbrev pub Authority : Type 0
Authority = Text → Text → World → Bool

unfoldable pub authorize_with_polkit : Authority → Text → Text → World → Result (Unit {0})
authorize_with_polkit authority caller_bus_name action w =
    if not (contains_text action known_actions)
    then err polkit_denied
    else if authority caller_bus_name action w
    then ok tt
    else err polkit_denied
