-- ===== src/Text/Lines.antt =====
-- `str::lines` reads back what joining lines writes.
use boot_control.Prelude.{
  ℕ, List, [], ◌∷◌, ◌++◌, map, ◌≡◌, ◌≢◌, refl, ap, arith, All, ◌==◌, if◌then◌else◌, append_assoc,
}
use boot_control.Text.{Text, lines, join}

abbrev pub NoNewline : Text → Type 0
NoNewline = All (λ (c : ℕ). c ≢ b'\n')

-- One carriage return at the end of a line is lost when the line is read.
abbrev pub chomp : Text → Text
chomp [] = []
chomp (c ∷ []) = if c == b'\r' then [] else c ∷ []
chomp (c ∷ d ∷ cs) = c ∷ chomp (d ∷ cs)

pub lines-newline :
    (l rest : Text) → NoNewline l → lines (l ++ (b'\n' ∷ rest)) ≡ chomp l ∷ lines rest
unfolding lines
lines-newline [] rest h = refl
lines-newline (c ∷ []) rest h = ground arith
lines-newline (c ∷ d ∷ cs) rest (hc, h) = ground (arith, lines-newline (d ∷ cs) rest h)

-- The text that `lines.join("\n") + "\n"` writes is read as the same lines.
pub lines-join :
    (l : Text) (ls : List Text)
    → All NoNewline (l ∷ ls)
    → lines (join (b'\n' ∷ []) (l ∷ ls) ++ (b'\n' ∷ [])) ≡ map chomp (l ∷ ls)
unfolding join
lines-join l [] h = rw (lines-newline l [] h.0) (unfold lines in refl)
lines-join l (k ∷ ls) h =
    rw append_assoc (rw (lines-newline l _ h.0) (ap (◌∷◌ (chomp l)) (lines-join k ls h.1)))

push-NoNewline : (s : Text) → All NoNewline (lines s)
unfolding lines
push-NoNewline [] = tt
push-NoNewline (c ∷ s) = ground (arith, push-NoNewline s)

-- No line holds a newline.
pub lines-NoNewline : (s : Text) → All NoNewline (lines s)
lines-NoNewline s = push-NoNewline s
