-- ===== src/Cmdline/Changes.antt =====
-- crates/core/src/backends/uki.rs: a change of the command line changes the one parameter.
use boot_control.Prelude.{
  true, false, Bool-cases, List, [], ◌∷◌, ◌++◌, ◌≡◌, ◌≢◌, ◌⊎◌, inl, inr, refl, arith, All,
  All-append,
}
use boot_control.Text.{Text, text_eq, join, words_from, is_whitespace}
use boot_control.Text.Equality.{text_eq_iff}
use boot_control.Text.Words.{IsWord, split_whitespace-join, split_whitespace-IsWord}
use boot_control.Error.{key_not_found, Result, ok, err, Result-cases}
use boot_control.Security.{validate_kernel_param_str}
use boot_control.Security.Blacklist.{IsClean, validate_kernel_param_str_iff}
use boot_control.Cmdline.{
  parse_cmdline, serialize_cmdline, has_param, without_param, with_param, add_param, remove_param,
}

-- Parameters that are words are read back as they were written.
pub parse_cmdline-serialize_cmdline :
    (params : List Text) → All IsWord params → parse_cmdline (serialize_cmdline params) ≡ params
unfolding parse_cmdline serialize_cmdline
parse_cmdline-serialize_cmdline [] h = unfold join words_from is_whitespace in refl
parse_cmdline-serialize_cmdline (p ∷ params) h = split_whitespace-join p params h

without_param-IsWord :
    (param : Text) (params : List Text)
    → All IsWord params
    → All IsWord (without_param param params)
unfolding without_param
without_param-IsWord param [] h = tt
without_param-IsWord param (p ∷ params) h =
    ground (arith, without_param-IsWord param params h.1, h.0)

-- The second list is the first one without the parameter.
pub data Removed (param : Text) : List Text → List Text → Type 0 where
  none_left : Removed param [] []
  dropped :
      {p : Text} {ps qs : List Text} → p ≡ param → Removed param ps qs → Removed param (p ∷ ps) qs
  kept :
      {p : Text} {ps qs : List Text}
      → p ≢ param
      → Removed param ps qs
      → Removed param (p ∷ ps) (p ∷ qs)

without_param-Removed :
    (param : Text) (params : List Text) → Removed param params (without_param param params)
unfolding without_param
without_param-Removed param [] = none_left
without_param-Removed param (p ∷ params) = elim (Bool-cases (text_eq p param)) [
  | inl same ↦ rw same (dropped ((text_eq_iff p param).0 same) (without_param-Removed param params))
  | inr other ↦
      rw other
        (kept (λ e. ground (arith, (text_eq_iff p param).1 e)) (without_param-Removed param params))
]

-- The parameter is in none of the places.
abbrev pub Absent : Text → List Text → Type 0
Absent param = All (λ (p : Text). p ≢ param)

has_param_cases :
    (param : Text) (params : List Text)
    → ((has_param param params ≡ true) × ¬ Absent param params)
      ⊎ ((has_param param params ≡ false) × Absent param params)
unfolding has_param
has_param_cases param [] = inr (refl, tt)
has_param_cases param (p ∷ params) = elim (Bool-cases (text_eq p param)) [
  | inl same ↦ inl (rw same refl, λ a. a.0 ((text_eq_iff p param).0 same))
  | inr other ↦ elim (has_param_cases param params) [
    | inl (h, n) ↦ inl (rw (other, h) refl, λ a. n a.1)
    | inr (h, a) ↦ inr (rw (other, h) refl, (λ e. ground (arith, (text_eq_iff p param).1 e), a))
  ]
]

-- What adding a parameter to the parameters of a command line may give.
abbrev pub AddOutcome : Text → List Text → Result Text → Type 0
AddOutcome param params (err _) = ¬ IsClean param
AddOutcome param params (ok content) =
    IsClean param
    × ((¬ Absent param params × (parse_cmdline content ≡ params))
        ⊎ (Absent param params × (parse_cmdline content ≡ params ++ (param ∷ []))))

-- What removing one may give.
abbrev pub RemoveOutcome : Text → List Text → Result Text → Type 0
RemoveOutcome param params (err e) = (e ≡ key_not_found param) × Absent param params
RemoveOutcome param params (ok content) =
    ¬ Absent param params × Removed param params (parse_cmdline content)

parse_cmdline-IsWord : (content : Text) → All IsWord (parse_cmdline content)
unfolding parse_cmdline
parse_cmdline-IsWord content = split_whitespace-IsWord content

with_param-AddOutcome :
    (param : Text) (params : List Text)
    → IsWord param
    → All IsWord params
    → IsClean param
    → AddOutcome param params (ok (serialize_cmdline (with_param param params)))
with_param-AddOutcome param params word words clean = elim (has_param_cases param params) [
  | inl (h, n) ↦ rw h (clean, inl (n, parse_cmdline-serialize_cmdline params words))
  | inr (h, a) ↦ rw h (
    clean,
    inr (
      a,
      parse_cmdline-serialize_cmdline (params ++ (param ∷ []))
          (All-append IsWord params (param ∷ []) words (word, tt)),
    ),
  )
]

-- Adding a parameter that is one word fails exactly when a blacklisted pattern occurs in it;
-- otherwise the new command line has the old parameters, with the new one behind them unless it was
-- among them.
pub add_param-AddOutcome :
    (content param : Text)
    → IsWord param
    → AddOutcome param (parse_cmdline content) (add_param content param)
unfolding add_param
add_param-AddOutcome content param word = elim (Result-cases (validate_kernel_param_str param)) [
  | inl (u, valid) ↦ rw valid (
      with_param-AddOutcome param _ word (parse_cmdline-IsWord content)
        ((validate_kernel_param_str_iff param).0 valid))
  | inr (e, invalid) ↦ rw invalid (λ clean. cc ((validate_kernel_param_str_iff param).1 clean))
]

-- Removing a parameter fails with `KeyNotFound` exactly when the command line does not have it;
-- otherwise the new command line has the other parameters, in their order.
pub remove_param-RemoveOutcome :
    (content param : Text)
    → RemoveOutcome param (parse_cmdline content) (remove_param content param)
unfolding remove_param
remove_param-RemoveOutcome content param = elim (has_param_cases param (parse_cmdline content)) [
  | inl (h, n) ↦ rw h (
    n,
    rw
        (parse_cmdline-serialize_cmdline _
          (without_param-IsWord param _ (parse_cmdline-IsWord content)))
        (without_param-Removed param (parse_cmdline content)),
  )
  | inr (h, a) ↦ rw h (refl, a)
]
