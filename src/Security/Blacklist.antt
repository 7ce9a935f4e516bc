-- ===== src/Security/Blacklist.antt =====
-- crates/core/src/security.rs: what the blacklist lets through.
use boot_control.Prelude.{none, List, [], ◌∷◌, ◌≡◌, ◌↔◌, refl, arith, All, Bool-cases, inl, inr}
use boot_control.Text.{Text, contains}
use boot_control.Text.Search.{Occurs, contains-Occurs, contains-false}
use boot_control.Error.{ok}
use boot_control.Security.{
  kernel_cmdline_blacklist, find_pattern, first_blacklisted_match, validate_kernel_param_str,
  validate_grub_payload, key_violation, value_violation,
}

-- No blacklisted pattern occurs in the text.
abbrev pub IsClean : Text → Type 0
IsClean s = All (λ (p : Text). ¬ Occurs p s) kernel_cmdline_blacklist

find_pattern-none :
    (ps : List Text) (s : Text) → find_pattern ps s ≡ none → All (λ (p : Text). ¬ Occurs p s) ps
unfolding find_pattern
find_pattern-none [] s h = tt
find_pattern-none (p ∷ ps) s h = elim (Bool-cases (contains p s)) [
  | inl found ↦ absurd (ground arith)
  | inr absent ↦ (contains-false absent, find_pattern-none ps s (ground arith))
]

clean-find_pattern :
    (ps : List Text) (s : Text) → All (λ (p : Text). ¬ Occurs p s) ps → find_pattern ps s ≡ none
unfolding find_pattern
clean-find_pattern [] s h = refl
clean-find_pattern (p ∷ ps) s h = elim (Bool-cases (contains p s)) [
  | inl found ↦ absurd (h.0 (contains-Occurs p s found))
  | inr absent ↦ ground (arith, clean-find_pattern ps s h.1)
]

first_blacklisted_match_iff : (s : Text) → (first_blacklisted_match s ≡ none) ↔ IsClean s
unfolding first_blacklisted_match
first_blacklisted_match_iff s =
    (find_pattern-none kernel_cmdline_blacklist s, clean-find_pattern kernel_cmdline_blacklist s)

payload_cases :
    (key value : Text)
    → (validate_grub_payload key value ≡ ok tt)
      ↔ ((first_blacklisted_match key ≡ none) × (first_blacklisted_match value ≡ none))
unfolding validate_grub_payload key_violation value_violation
payload_cases key value = (λ h. ground arith, λ h. ground arith)

-- A payload passes exactly when no blacklisted pattern occurs in its key or its value.
pub validate_grub_payload_iff :
    (key value : Text) → (validate_grub_payload key value ≡ ok tt) ↔ (IsClean key × IsClean value)
validate_grub_payload_iff key value = (
  λ h.
      let (k, v) = (payload_cases key value).0 h in
      ((first_blacklisted_match_iff key).0 k, (first_blacklisted_match_iff value).0 v),
  λ h.
      (payload_cases key value).1
        ((first_blacklisted_match_iff key).1 h.0, (first_blacklisted_match_iff value).1 h.1),
)

param_cases :
    (param : Text)
    → (validate_kernel_param_str param ≡ ok tt) ↔ (first_blacklisted_match param ≡ none)
unfolding validate_kernel_param_str
param_cases param = (λ h. ground arith, λ h. ground arith)

-- A kernel parameter passes exactly when no blacklisted pattern occurs in it.
pub validate_kernel_param_str_iff :
    (param : Text) → (validate_kernel_param_str param ≡ ok tt) ↔ IsClean param
validate_kernel_param_str_iff param = (
  λ h. (first_blacklisted_match_iff param).0 ((param_cases param).0 h),
  λ h. (param_cases param).1 ((first_blacklisted_match_iff param).1 h),
)
