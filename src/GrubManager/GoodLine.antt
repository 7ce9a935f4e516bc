-- ===== src/GrubManager/GoodLine.antt =====
-- crates/daemon/src/grub_manager.rs, step 6: the lines of a file stay such that
-- writing and reading them gives them back.
use boot_control.Prelude.{
  ℕ, zero, suc, Option, none, some, List, [], ◌∷◌, ◌++◌, ◌≡◌, ◌≢◌, refl, ap, arith, All, All-append,
  Bool-cases, inl, inr, ◌||◌,
}
use boot_control.Text.{Text, last?, contains, is_empty}
use boot_control.Text.Lines.{NoNewline, chomp}
use boot_control.Text.Trim.{last?-append}
use boot_control.Grub.Lines.{IsShellName, IsNameChar, IsSafeLine, parse_line-IsSafeLine}
use boot_control.GrubManager.Line.{IsPlainValue, parse_line-build_assignment_line}
use boot_control.GrubManager.{set_line, place_line, apply_change, build_assignment_line}

-- A line of a file that is read as it was written: safe, whole, and with no carriage return to lose.
pub record IsGoodLine (l : Text) : Type 0 where
  pub safe : IsSafeLine l
  pub one_line : NoNewline l
  pub kept : chomp l ≡ l

chomp-last : (l : Text) → last? l ≢ some b'\r' → chomp l ≡ l
chomp-last [] h = refl
chomp-last (c ∷ []) h = ground arith
chomp-last (c ∷ d ∷ cs) h = ap (◌∷◌ c) (chomp-last (d ∷ cs) h)

name-NoNewline : (key : Text) → IsShellName key → NoNewline key
name-NoNewline [] h = tt
name-NoNewline (c ∷ cs) h = (ground arith, chars cs h.1)
  where
    chars : (cs : Text) → All IsNameChar cs → NoNewline cs
    chars [] h = tt
    chars (c ∷ cs) h = (ground arith, chars cs h.1)

pub built-NoNewline :
    (key value : Text)
    → IsShellName key
    → NoNewline value
    → NoNewline (build_assignment_line key value)
unfolding build_assignment_line
built-NoNewline key value name whole =
    elim (Bool-cases
      (contains (b' ' ∷ []) value || contains (b'\t' ∷ []) value || is_empty value)) [
        | inl spaces ↦ rw spaces (
            All-append _ key _ (name-NoNewline key name)
              (ground arith, (ground arith, All-append _ value (b'"' ∷ []) whole (ground arith))))
        | inr bare ↦ rw bare (All-append _ key _ (name-NoNewline key name) (ground arith, whole))
      ]

bare-last :
    (key value : Text) → last? value ≢ some b'\r' → last? (key ++ (b'=' ∷ value)) ≢ some b'\r'
bare-last key [] end e = ground (arith, last?-append key b'=' [])
bare-last key (c ∷ cs) end e = ground (arith, last?-append key b'=' (c ∷ cs), end)

built-last :
    (key value : Text)
    → last? value ≢ some b'\r'
    → last? (build_assignment_line key value) ≢ some b'\r'
unfolding build_assignment_line
built-last key value end =
    elim (Bool-cases
      (contains (b' ' ∷ []) value || contains (b'\t' ∷ []) value || is_empty value)) [
        | inl spaces ↦ rw spaces λ e. ground (
          arith,
          last?-append key b'=' (b'"' ∷ (value ++ (b'"' ∷ []))),
          last?-append (b'=' ∷ b'"' ∷ value) b'"' [],
        )
        | inr bare ↦ rw bare (bare-last key value end)
      ]

pub built-kept :
    (key value : Text)
    → last? value ≢ some b'\r'
    → chomp (build_assignment_line key value) ≡ build_assignment_line key value
built-kept key value end = chomp-last _ (built-last key value end)

pub built-IsGoodLine :
    (key value : Text)
    → IsShellName key
    → IsPlainValue value
    → IsGoodLine (build_assignment_line key value)
built-IsGoodLine key value name plain = record {
  safe = parse_line-IsSafeLine _ (rw (parse_line-build_assignment_line key value name plain) tt);
  one_line = built-NoNewline key value name plain.one_line;
  kept = built-kept key value plain.no_return;
}

set_line-All :
    (P : Text → Type 0) (ls : List Text) (i : ℕ) (new : Text)
    → All P ls
    → P new
    → All P (set_line ls i new)
unfolding set_line
set_line-All P [] i new h n = tt
set_line-All P (l ∷ ls) zero new h n = (n, h.1)
set_line-All P (l ∷ ls) (suc i) new h n = (h.0, set_line-All P ls i new h.1 n)

pub place_line-All :
    (P : Text → Type 0) (ls : List Text) (new : Text) (o : Option ℕ)
    → All P ls
    → P new
    → All P (place_line ls new o)
unfolding apply_change
place_line-All P ls new none h n = All-append P ls (new ∷ []) h (n, tt)
place_line-All P ls new (some i) h n = set_line-All P ls i new h n
