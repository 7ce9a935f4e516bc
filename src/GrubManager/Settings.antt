-- ===== src/GrubManager/Settings.antt =====
-- crates/daemon/src/grub_manager.rs, `set_grub_settings`: the settings written are the settings read.
use boot_control.Prelude.{
  ℕ, zero, suc, ◌/◌, ◌≤◌, Bool, true, false, not, some, List, [], ◌∷◌, ◌++◌, ◌≡◌, ◌≢◌, ◌⊎◌, inl,
  inr, refl, arith, All, Bool-cases, ◌==◌, subst,
}
use boot_control.Text.{Text, codes, text_eq}
use boot_control.Text.Numbers.{display, digits_from, decimal_digit, bool_text}
use boot_control.Text.Search.{Occurs}
use boot_control.Text.Trim.{last?-All}
use boot_control.Error.{ok}
use boot_control.Map.{lookup}
use boot_control.Grub.{GrubConfig, bash_triggers, parse_grub_config}
use boot_control.Grub.Lines.{IsShellName}
use boot_control.GrubSettings.{
  GrubSettings, GrubTimeoutStyle, menu, countdown, hidden, as_str, max_timeout_seconds,
  parse_grub_settings,
}
use boot_control.GrubSettings.Parse.{settings_of-texts}
use boot_control.GrubManager.Line.{IsPlainValue, quoted}
use boot_control.GrubManager.Change.{IsPlainChange, value_of}
use boot_control.GrubManager.ReadBack.{IsUnix, apply_changes-read_back}
use boot_control.GrubManager.{apply_changes, new_content, settings_changes}

abbrev IsPlainChar : ℕ → Type 0
IsPlainChar c = ((b'0' ≤ c) × (c ≤ b'9')) ⊎ ((b'a' ≤ c) × (c ≤ b'z'))

All-of-append : (P : ℕ → Type 0) (xs ys : Text) → All P (xs ++ ys) → All P xs × All P ys
All-of-append P [] ys h = (tt, h)
All-of-append P (x ∷ xs) ys h = let (hx, hy) = All-of-append P xs ys h.1 in ((h.0, hx), hy)

Occurs-All : (P : ℕ → Type 0) (n v : Text) → Occurs n v → All P v → All P n
Occurs-All P n v o h =
    (All-of-append P n o.after (All-of-append P o.before (n ++ o.after) (rw (o.splits) at h)).1).0

no_trigger : (v : Text) (n : Text) → All IsPlainChar v → ¬ All IsPlainChar n → ¬ Occurs n v
no_trigger v n h bad o = bad (Occurs-All IsPlainChar n v o h)

triggers_not_plain : All (λ (t : Text × Text). ¬ All IsPlainChar t.0) bash_triggers
unfolding codes
triggers_not_plain = (
  λ p. ground arith,
  (λ p. ground arith, (λ p. ground arith, (λ p. ground arith, (λ p. ground arith, tt)))),
)

no_triggers :
    (ts : List (Text × Text)) (v : Text)
    → All IsPlainChar v
    → All (λ (t : Text × Text). ¬ All IsPlainChar t.0) ts
    → All (λ (t : Text × Text). ¬ Occurs t.0 v) ts
no_triggers [] v h bad = tt
no_triggers (t ∷ ts) v h bad = (no_trigger v t.0 h bad.0, no_triggers ts v h bad.1)

plain-ne : (k : ℕ) (v : Text) → ¬ IsPlainChar k → All IsPlainChar v → All (λ (c : ℕ). c ≢ k) v
plain-ne k [] bad h = tt
plain-ne k (c ∷ cs) bad h = ((λ e. bad (subst IsPlainChar e h.0)), plain-ne k cs bad h.1)

not_quote_first : (v inner : Text) → All IsPlainChar v → v ≢ quoted inner
not_quote_first [] inner h e = cc
not_quote_first (c ∷ cs) inner h e = ground (arith, h.0)

-- A text of digits and small letters is a plain value.
pub plain_chars-IsPlainValue : (v : Text) → All IsPlainChar v → IsPlainValue v
plain_chars-IsPlainValue v h = record {
  harmless = no_triggers bash_triggers v h triggers_not_plain;
  one_line = plain-ne b'\n' v (λ p. ground arith) h;
  no_return = last?-All b'\r' v (plain-ne b'\r' v (λ p. ground arith) h);
  not_quoted = λ inner. not_quote_first v inner h;
}

digits_from-plain :
    (fuel n : ℕ) (acc : Text)
    → All IsPlainChar acc
    → All IsPlainChar (digits_from 10 decimal_digit fuel n acc)
unfolding digits_from
digits_from-plain zero n acc h = h
digits_from-plain (suc fuel) n acc h = elim (Bool-cases (n / 10 == 0)) [
  | inl small ↦ rw small (ground arith, h)
  | inr large ↦ rw large (digits_from-plain fuel (n / 10) _ (ground arith, h))
]

display-plain : (n : ℕ) → All IsPlainChar (display n)
unfolding display
display-plain n = digits_from-plain (suc n) n [] tt

as_str-plain : (s : GrubTimeoutStyle) → All IsPlainChar (as_str s)
unfolding as_str codes
as_str-plain menu = ground arith
as_str-plain countdown = ground arith
as_str-plain hidden = ground arith

bool_text-plain : (b : Bool) → All IsPlainChar (bool_text b)
unfolding codes
bool_text-plain true = ground arith
bool_text-plain false = ground arith

key_names :
    IsShellName (codes "GRUB_TIMEOUT")
    × (IsShellName (codes "GRUB_TIMEOUT_STYLE")
        × (IsShellName (codes "GRUB_DISABLE_OS_PROBER")
            × IsShellName (codes "GRUB_DISABLE_RECOVERY")))
unfolding codes
key_names = (ground arith, (ground arith, (ground arith, ground arith)))

settings_changes-IsPlainChange : (s : GrubSettings) → All IsPlainChange (settings_changes s)
settings_changes-IsPlainChange s = (
  (key_names.0, plain_chars-IsPlainValue _ (display-plain s.timeout_seconds)),
  (
    (key_names.1.0, plain_chars-IsPlainValue _ (as_str-plain s.timeout_style)),
    (
      (key_names.1.1.0, plain_chars-IsPlainValue _ (bool_text-plain (not s.detect_other_os))),
      (
        (
          key_names.1.1.1,
          plain_chars-IsPlainValue _ (bool_text-plain (not s.generate_recovery_entries)),
        ),
        tt,
      ),
    ),
  ),
)

values_of_changes :
    (s : GrubSettings)
    → (value_of (codes "GRUB_TIMEOUT") (settings_changes s) ≡ some (display s.timeout_seconds))
      × (value_of (codes "GRUB_TIMEOUT_STYLE") (settings_changes s) ≡ some (as_str s.timeout_style))
      × (value_of (codes "GRUB_DISABLE_OS_PROBER") (settings_changes s)
          ≡ some (bool_text (not s.detect_other_os)))
      × (value_of (codes "GRUB_DISABLE_RECOVERY") (settings_changes s)
          ≡ some (bool_text (not s.generate_recovery_entries)))
unfolding codes text_eq
values_of_changes s = (refl, refl, refl, refl)

-- Where the parser accepts a file none of whose lines ends in a carriage return, parsing the file
-- changed to settings whose timeout is within the bound gives those settings back, whatever the file
-- assigned before.
pub settings-read_back :
    (content : Text) (config : GrubConfig) (s : GrubSettings)
    → parse_grub_config content ≡ ok config
    → IsUnix content
    → s.timeout_seconds ≤ max_timeout_seconds
    → parse_grub_settings (new_content (apply_changes config.lines (settings_changes s))) ≡ ok s
unfolding parse_grub_settings
settings-read_back content config s parsed unix h =
    let (config', again, looked) =
      apply_changes-read_back content config (settings_changes s) parsed unix
        (settings_changes-IsPlainChange s) (λ e. cc) in
    let v = values_of_changes s in
    rw again (
      settings_of-texts (λ key. lookup key config'.map) s h
        (rw (looked (codes "GRUB_TIMEOUT")) (rw (v.0) refl))
        (rw (looked (codes "GRUB_TIMEOUT_STYLE")) (rw (v.1) refl))
        (rw (looked (codes "GRUB_DISABLE_OS_PROBER")) (rw (v.2) refl))
        (rw (looked (codes "GRUB_DISABLE_RECOVERY")) (rw (v.3) refl)))
