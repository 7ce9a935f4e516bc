-- ===== src/Text.antt =====
-- Rust's `str` and `String` as lists of Unicode scalar values, with the operations of the standard
-- library that the program uses: `trim`, `starts_with`, `contains`, `find`, `lines`, `join`.
pub mod Equality
pub mod Search
pub mod Trim
pub mod Lines
pub mod Numbers
pub mod Words
pub mod Order
pub mod Tokens
use Prim.Native.Char.{code}
use boot_control.Prelude.{
  ℕ, String, Bool, true, false, ◌&&◌, ◌||◌, Option, none, some, List, [], ◌∷◌, ◌++◌, leb, ltb, zero,
  suc, ◌==◌, if◌then◌else◌, ◌+◌,
}

abbrev pub Text : Type 0
Text = List ℕ

-- A literal. It stays shut in proofs, and is opened in tests.
unfoldable pub codes : String → Text
codes String.[] = []
codes (String.◌∷◌ c s) = code c ∷ codes s

-- `char::is_whitespace`: the Unicode property White_Space.
unfoldable pub is_whitespace : ℕ → Bool
is_whitespace c =
    leb 0x9 c && leb c 0xd
    || c == 0x20
    || c == 0x85
    || c == 0xa0
    || c == 0x1680
    || leb 0x2000 c && leb c 0x200a
    || c == 0x2028
    || c == 0x2029
    || c == 0x202f
    || c == 0x205f
    || c == 0x3000

-- `str::trim_start_matches` with a predicate.
unfoldable pub trim_start_by : (ℕ → Bool) → Text → Text
trim_start_by p [] = []
trim_start_by p (c ∷ cs) = if p c then trim_start_by p cs else c ∷ cs

abbrev keep_unless : Bool → ℕ → Text → Text
keep_unless true c [] = []
keep_unless _ c cs = c ∷ cs

-- `str::trim_end_matches` with a predicate.
unfoldable pub trim_end_by : (ℕ → Bool) → Text → Text
trim_end_by p [] = []
trim_end_by p (c ∷ cs) = keep_unless (p c) c (trim_end_by p cs)

abbrev pub trim_start : Text → Text
trim_start = trim_start_by is_whitespace

abbrev pub trim_end : Text → Text
trim_end = trim_end_by is_whitespace

abbrev pub trim : Text → Text
trim s = trim_end (trim_start s)

-- `trim_end_matches(c)` for one character.
abbrev pub trim_end_matches : ℕ → Text → Text
trim_end_matches c = trim_end_by (λ x. x == c)

abbrev pub trim_start_matches : ℕ → Text → Text
trim_start_matches c = trim_start_by (λ x. x == c)

abbrev pub is_empty : Text → Bool
is_empty [] = true
is_empty (_ ∷ _) = false

unfoldable pub text_eq : Text → Text → Bool
text_eq [] [] = true
text_eq (x ∷ xs) (y ∷ ys) = x == y && text_eq xs ys
text_eq _ _ = false

-- `s.strip_prefix(prefix)`
unfoldable pub strip_prefix : Text → Text → Option Text
strip_prefix [] s = some s
strip_prefix (p ∷ ps) [] = none
strip_prefix (p ∷ ps) (c ∷ cs) = if p == c then strip_prefix ps cs else none

unfoldable pub starts_with : Text → Text → Bool
starts_with [] s = true
starts_with (p ∷ ps) [] = false
starts_with (p ∷ ps) (c ∷ cs) = p == c && starts_with ps cs

-- `s.contains(needle)`
unfoldable pub contains : Text → Text → Bool
contains needle [] = starts_with needle []
contains needle (c ∷ cs) = starts_with needle (c ∷ cs) || contains needle cs

abbrev pub last? : Text → Option ℕ
last? [] = none
last? (c ∷ []) = some c
last? (c ∷ d ∷ cs) = last? (d ∷ cs)

abbrev push_front : ℕ → Option (Text × Text) → Option (Text × Text)
push_front c none = none
push_front c (some (before, after)) = some (c ∷ before, after)

-- `s.find(c)`, as the slices before and after the first `c`.
unfoldable pub split_once : ℕ → Text → Option (Text × Text)
split_once sep [] = none
split_once sep (c ∷ cs) =
    let rest = split_once sep cs in if c == sep then some ([], cs) else push_front c rest

abbrev at_newline : Text → Bool
at_newline [] = false
at_newline (c ∷ _) = c == b'\n'

abbrev push_line : ℕ → List Text → List Text
push_line c [] = (c ∷ []) ∷ []
push_line c (l ∷ ls) = (c ∷ l) ∷ ls

-- `str::lines`: lines end at `\n`, and one `\r` in front of it goes with it.
unfoldable pub lines : Text → List Text
lines [] = []
lines (c ∷ cs) =
    let rest = lines cs in
    if c == b'\n' then [] ∷ rest else if c == b'\r' && at_newline cs then rest else push_line c rest

-- `lines.join(separator)`
unfoldable pub join : Text → List Text → Text
join separator [] = []
join separator (x ∷ []) = x
join separator (x ∷ y ∷ ys) = x ++ (separator ++ join separator (y ∷ ys))

abbrev pub flush_word : Text → List Text → List Text
flush_word [] ws = ws
flush_word (c ∷ cs) ws = (c ∷ cs) ∷ ws

-- The words of a text whose first word begins with `word`.
unfoldable pub words_from : Text → Text → List Text
words_from word [] = flush_word word []
words_from word (c ∷ cs) = elim (is_whitespace c) [
  | true ↦ flush_word word (words_from [] cs)
  | false ↦ words_from (word ++ (c ∷ [])) cs
]

-- `str::split_whitespace`
abbrev pub split_whitespace : Text → List Text
split_whitespace = words_from []

-- `s.replace(c, with)` for one character.
unfoldable pub replace_char : ℕ → Text → Text → Text
replace_char c with [] = []
replace_char c with (d ∷ ds) = (if d == c then with else d ∷ []) ++ replace_char c with ds

-- `s.split(c)` for one character: the pieces between its occurrences.
unfoldable pub split_on : ℕ → Text → List Text
split_on c [] = [] ∷ []
split_on c (d ∷ ds) = let rest = split_on c ds in if d == c then [] ∷ rest else push_line d rest

-- `&s[..n]` on a text of one byte per character.
unfoldable pub take : ℕ → Text → Text
take zero s = []
take (suc n) [] = []
take (suc n) (c ∷ cs) = c ∷ take n cs

-- `s.contains(c)` for one character
unfoldable pub has_char : ℕ → Text → Bool
has_char c [] = false
has_char c (d ∷ ds) = d == c || has_char c ds

-- `a < b`: the order of the scalar values, which is the order of the UTF-8 bytes.
unfoldable pub text_lt : Text → Text → Bool
text_lt [] [] = false
text_lt [] (y ∷ ys) = true
text_lt (x ∷ xs) [] = false
text_lt (x ∷ xs) (y ∷ ys) =
    let rest = text_lt xs ys in if ltb x y then true else if x == y then rest else false

-- `s.splitn(2, p)`: what is in front of the first character of the kind, and what is behind it.
unfoldable pub splitn_2 : (ℕ → Bool) → Text → Text × Option Text
splitn_2 p [] = ([], none)
splitn_2 p (c ∷ cs) =
    let (before, after) = splitn_2 p cs in if p c then ([], some cs) else (c ∷ before, after)

abbrev cons_some : ℕ → Option Text → Option Text
cons_some c none = none
cons_some c (some s) = some (c ∷ s)

-- `s.strip_suffix(suffix)`
unfoldable pub strip_suffix : Text → Text → Option Text
strip_suffix suffix [] = if is_empty suffix then some [] else none
strip_suffix suffix (c ∷ cs) =
    let rest = strip_suffix suffix cs in
    if text_eq suffix (c ∷ cs) then some [] else cons_some c rest

unfoldable pub is_ascii : Text → Bool
is_ascii [] = true
is_ascii (c ∷ cs) = ltb c 128 && is_ascii cs

unfoldable pub ascii_lower : Text → Text
ascii_lower [] = []
ascii_lower (c ∷ cs) = (if leb b'A' c && leb c b'Z' then c + 32 else c) ∷ ascii_lower cs

-- `s.to_lowercase()`. Unicode's tables are the argument, for a text that is not ASCII.
unfoldable pub to_lowercase : (Text → Text) → Text → Text
to_lowercase unicode s = if is_ascii s then ascii_lower s else unicode s
