-- ===== src/GrubMenu/Tokens.antt =====
-- crates/core/src/grub_cfg.rs, one line: its tokens, the parts of a menu line, and its braces. A `\`
-- is a mode of its own, in which the next character is taken as it stands.
use boot_control.Prelude.{
  ℕ, ◌+◌, ◌-◌, Bool, true, false, not, ◌&&◌, ◌||◌, Option, none, some, List, [], ◌∷◌, ◌++◌, ◌==◌,
  if◌then◌else◌,
}
use boot_control.Text.{Text, codes, is_whitespace, text_eq}
use boot_control.Error.{BootControlError, malformed_value, Result, ok, err, ◌>>=◌}

pub record MenuLineParts : Type 0 where
  pub title : Text
  pub id : Option Text
  pub body_depth : ℕ

pub data Token : Type 0 where
  word : Text → Bool → Token  -- its text, and whether any part of it was quoted
  brace_open brace_close : Token

unfoldable pub malformed : Text → BootControlError
malformed reason = malformed_value (codes "grub.cfg") reason

pub data Mode : Type 0 where
  unquoted escape single double : Mode

pub record Scanner : Type 0 where
  pub mode : Mode
  pub word : Option (Text × Bool)
  pub tokens : List Token

flush_onto : List Token → Option (Text × Bool) → List Token
flush_onto tokens none = tokens
flush_onto tokens (some (text, quoted)) = tokens ++ (word text quoted ∷ [])

unfoldable pub flush : Scanner → Scanner
unfolding flush_onto
flush s = record s { word = none; tokens = flush_onto s.tokens s.word }

abbrev current : Option (Text × Bool) → Text × Bool
current none = ([], false)
current (some w) = w

-- `current(&mut word).0.push(c)`
unfoldable pub push : Scanner → ℕ → Scanner
push s c = record s { word = some ((current s.word).0 ++ (c ∷ []), (current s.word).1) }

-- `current(&mut word).1 = true`
unfoldable pub mark_quoted : Scanner → Mode → Scanner
mark_quoted s mode = record s { mode = mode; word = some ((current s.word).0, true) }

abbrev emit : Scanner → Token → Scanner
emit s t = record s { tokens = s.tokens ++ (t ∷ []) }

-- One character, in each mode.
unfoldable pub scan_in : Mode → Scanner → ℕ → Scanner
unfolding flush push mark_quoted
scan_in unquoted s c =
    if c == b'\''
    then mark_quoted s single
    else if c == b'"'
    then mark_quoted s double
    else if c == b'\\'
    then record s { mode = escape }
    else if c == b'{'
    then emit (flush s) brace_open
    else if c == b'}'
    then emit (flush s) brace_close
    else if is_whitespace c
    then flush s
    else push s c
scan_in escape s c = record (push s c) { mode = unquoted }
scan_in single s c = if c == b'\'' then record s { mode = unquoted } else push s c
scan_in double s c = if c == b'"' then record s { mode = unquoted } else push s c

unfoldable pub scan : Scanner → Text → Scanner
scan s [] = s
scan s (c ∷ cs) = scan (scan_in s.mode s c) cs

abbrev pub start : Scanner
start = record { mode = unquoted; word = none; tokens = [] }

finish : Text → Mode → Scanner → Result (List Token)
finish line unquoted s = ok (flush s).tokens
finish line escape s = ok (flush s).tokens
finish line _ s = err (malformed (codes "unterminated quote: " ++ line))

unfoldable pub tokenize_menu_line : Text → Result (List Token)
unfolding finish flush scan
tokenize_menu_line line = let s = scan start line in finish line s.mode s

-- The variables of the loop of `parse_menu_line`; `expect_id` says that the token before was
-- `$menuentry_id_option`.
pub record PartsState : Type 0 where
  pub title : Option Text
  pub id : Option Text
  pub saw_open : Bool
  pub body_depth : ℕ
  pub expect_id : Bool

abbrev is_none : Option Text → Bool
is_none none = true
is_none (some _) = false

read_word : PartsState → Text → Bool → PartsState
read_word p text quoted =
    if p.saw_open
    then p
    else if quoted && is_none p.title
    then record p { title = some text }
    else if not quoted && text_eq text (codes "$menuentry_id_option")
    then record p { expect_id = true }
    else p

unfoldable pub read_token : PartsState → Token → PartsState
unfolding read_word
read_token p (word text quoted) =
    if p.expect_id then record p { id = some text; expect_id = false } else read_word p text quoted
read_token p brace_open = record p {
  saw_open = true;
  body_depth = p.body_depth + 1;
  expect_id = false;
}
read_token p brace_close = record p { body_depth = p.body_depth - 1; expect_id = false }

unfoldable pub read_tokens : PartsState → List Token → PartsState
read_tokens p [] = p
read_tokens p (t ∷ ts) = read_tokens (read_token p t) ts

abbrev no_parts : PartsState
no_parts = record { title = none; id = none; saw_open = false; body_depth = 0; expect_id = false }

-- token 0 is the keyword
abbrev options : List Token → List Token
options [] = []
options (_ ∷ ts) = ts

with_title : Text → PartsState → Option Text → Result MenuLineParts
with_title line p none = err (malformed (codes "menu item line has no quoted title: " ++ line))
with_title line p (some title) = ok (record { title = title; id = p.id; body_depth = p.body_depth })

unfoldable pub parts_of : Text → PartsState → Result MenuLineParts
unfolding with_title
parts_of line p =
    if not p.saw_open
    then err (malformed (codes "menu item line has no opening '{' on the same line: " ++ line))
    else with_title line p p.title

unfoldable pub parse_menu_line : Text → Result MenuLineParts
unfolding read_tokens parts_of
parse_menu_line line = do
  tokens ← tokenize_menu_line line
  parts_of line (read_tokens no_parts (options tokens))

-- One character of `unquoted_braces`: the next mode.
brace_mode : Mode → ℕ → Mode
brace_mode unquoted c =
    if c == b'\''
    then single
    else if c == b'"'
    then double
    else if c == b'\\'
    then escape
    else unquoted
brace_mode escape c = unquoted
brace_mode single c = if c == b'\'' then unquoted else single
brace_mode double c = if c == b'"' then unquoted else double

abbrev is_brace : Mode → ℕ → Bool
is_brace unquoted c = c == b'{' || c == b'}'
is_brace _ c = false

unfoldable pub braces_from : Mode → Text → List ℕ
unfolding brace_mode
braces_from mode [] = []
braces_from mode (c ∷ cs) =
    let rest = braces_from (brace_mode mode c) cs in if is_brace mode c then c ∷ rest else rest

-- `unquoted_braces`
unfoldable pub unquoted_braces : Text → List ℕ
unfolding braces_from
unquoted_braces line = braces_from unquoted line
