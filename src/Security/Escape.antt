-- ===== src/Security/Escape.antt =====
-- crates/core/src/security.rs: `escape_control_chars`.
use boot_control.Prelude.{
  ℕ, ◌≤◌, ◌⊎◌, ◌↔◌, zero, suc, ◌/◌, ◌%◌, ◌<◌, Bool, true, false, [], ◌∷◌, ◌++◌, ◌≡◌, refl, arith,
  All, All-append, Bool-cases, inl, inr, ◌==◌, if◌then◌else◌,
}
use boot_control.Text.{Text}
use boot_control.Text.Numbers.{digits_from}
use boot_control.Security.{
  needs_escaping, lower_hex_digit, escape_debug, any_char, escape_onto, escape_control_chars,
}

-- A tab, or a character that is neither below the space nor from DEL to 159, which are the control
-- ranges of ISO 6429.
abbrev pub IsShown : ℕ → Type 0
IsShown c = ((b' ' ≤ c) × (c < 127)) ⊎ ((160 ≤ c) ⊎ (c ≡ b'\t'))

abbrev NotEscaped : ℕ → Type 0
NotEscaped c = needs_escaping c ≡ false

hex_digit-NotEscaped : (d : ℕ) → d < 16 → NotEscaped (lower_hex_digit d)
unfolding needs_escaping
hex_digit-NotEscaped d h = ground arith

digits_from-NotEscaped :
    (fuel n : ℕ) (acc : Text)
    → All NotEscaped acc
    → All NotEscaped (digits_from 16 lower_hex_digit fuel n acc)
unfolding digits_from
digits_from-NotEscaped zero n acc h = h
digits_from-NotEscaped (suc fuel) n acc h = elim (Bool-cases (n / 16 == 0)) [
  | inl small ↦ rw small (hex_digit-NotEscaped (n % 16) (omega arith), h)
  | inr large ↦
      rw large
        (digits_from-NotEscaped fuel (n / 16) _ (hex_digit-NotEscaped (n % 16) (omega arith), h))
]

marks-NotEscaped :
    NotEscaped b'\\'
    × NotEscaped b'0'
    × NotEscaped b'n'
    × NotEscaped b'r'
    × NotEscaped b'u'
    × NotEscaped b'{'
    × NotEscaped b'}'
unfolding needs_escaping
marks-NotEscaped = (refl, refl, refl, refl, refl, refl, refl)

if-NotEscaped :
    (b : Bool) (x y : Text)
    → All NotEscaped x
    → All NotEscaped y
    → All NotEscaped (if b then x else y)
if-NotEscaped true x y hx hy = hx
if-NotEscaped false x y hx hy = hy

escape_debug-NotEscaped : (c : ℕ) → All NotEscaped (escape_debug c)
unfolding escape_debug
escape_debug-NotEscaped c =
    let m = marks-NotEscaped in
    if-NotEscaped (c == 0) _ _ (m.0, (m.1, tt))
      (if-NotEscaped (c == b'\n') _ _ (m.0, (m.2, tt))
        (if-NotEscaped (c == b'\r') _ _ (m.0, (m.3, tt))
          (
            m.0,
            (
              m.4,
              (
                m.5,
                All-append NotEscaped _ (b'}' ∷ []) (digits_from-NotEscaped (suc c) c [] tt)
                    (m.6, tt),
              ),
            ),
          )))

escape_one-NotEscaped :
    (c : ℕ) → All NotEscaped (if needs_escaping c then escape_debug c else c ∷ [])
escape_one-NotEscaped c = elim (Bool-cases (needs_escaping c)) [
  | inl bad ↦ rw bad (escape_debug-NotEscaped c)
  | inr good ↦ rw good (good, tt)
]

escape_onto-NotEscaped : (out s : Text) → All NotEscaped out → All NotEscaped (escape_onto out s)
unfolding escape_onto
escape_onto-NotEscaped out [] h = h
escape_onto-NotEscaped out (c ∷ cs) h =
    escape_onto-NotEscaped (out ++ (if needs_escaping c then escape_debug c else c ∷ [])) cs
      (All-append NotEscaped out _ h (escape_one-NotEscaped c))

any_char-NotEscaped : (s : Text) → any_char needs_escaping s ≡ false → All NotEscaped s
unfolding any_char
any_char-NotEscaped [] h = tt
any_char-NotEscaped (c ∷ cs) h = (ground arith, any_char-NotEscaped cs (ground arith))

shown-any_char : (s : Text) → All NotEscaped s → any_char needs_escaping s ≡ false
unfolding any_char
shown-any_char [] h = refl
shown-any_char (c ∷ cs) h = ground (arith, shown-any_char cs h.1)

escape_control_chars-NotEscaped :
    (s : Text)
    → All NotEscaped (escape_control_chars s) × (All NotEscaped s → escape_control_chars s ≡ s)
unfolding escape_control_chars
escape_control_chars-NotEscaped s = elim (Bool-cases (any_char needs_escaping s)) [
  | inl some' ↦ (rw some' (escape_onto-NotEscaped [] s tt), λ h. ground (arith, shown-any_char s h))
  | inr none' ↦ (rw none' (any_char-NotEscaped s none'), λ h. rw none' refl)
]

IsShown-iff : (c : ℕ) → (needs_escaping c ≡ false) ↔ IsShown c
unfolding needs_escaping
IsShown-iff c = (λ h. ground arith, λ h. ground arith)

All-IsShown_iff : (s : Text) → All NotEscaped s ↔ All IsShown s
All-IsShown_iff [] = (λ h. h, λ h. h)
All-IsShown_iff (c ∷ cs) = (
  λ h. ((IsShown-iff c).0 h.0, (All-IsShown_iff cs).0 h.1),
  λ h. ((IsShown-iff c).1 h.0, (All-IsShown_iff cs).1 h.1),
)

-- The result holds no control character but tabs, and a text with none is left as it is.
pub escape_control_chars-IsShown :
    (s : Text) → All IsShown (escape_control_chars s) × (All IsShown s → escape_control_chars s ≡ s)
escape_control_chars-IsShown s =
    let out = escape_control_chars-NotEscaped s in
    ((All-IsShown_iff (escape_control_chars s)).0 out.0, λ h. out.1 ((All-IsShown_iff s).1 h))
