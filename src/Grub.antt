-- ===== src/Grub.antt =====
-- crates/core/src/grub.rs: the strict-subset parser of /etc/default/grub.
pub mod Lines
pub mod Assignments
pub mod Safety
pub mod Config
use boot_control.Prelude.{
  ℕ, Bool, true, false, not, ◌&&◌, ◌||◌, Option, none, some, List, [], ◌∷◌, ◌++◌, leb, ◌==◌,
  if◌then◌else◌,
}
use boot_control.Text.{
  Text, codes, trim, trim_start, trim_end, trim_end_matches, is_empty, text_eq, starts_with,
  contains, last?, split_once, lines,
}
use boot_control.Error.{key_not_found, complex_bash_detected, Result, ok, err, ◌>>=◌, ok_or}
use boot_control.Map.{TextMap, lookup, insert}

-- `BASH_TRIGGERS`: a needle and its description.
abbrev pub bash_triggers : List (Text × Text)
bash_triggers =
    (codes "$(", codes "subshell: $(...)")
    ∷ (codes "`", codes "backtick subshell")
    ∷ (codes "<<", codes "here-document")
    ∷ (codes "|", codes "pipe operator")
    ∷ (codes "{", codes "compound command block")
    ∷ []

abbrev pub ubuntu_os_release_distributor : Text
ubuntu_os_release_distributor = codes "`( . /etc/os-release && echo ${NAME} )`"

-- `BASH_KEYWORD_PREFIXES`
abbrev pub bash_keyword_prefixes : List (Text × Text)
bash_keyword_prefixes =
    (codes "if ", codes "if-statement")
    ∷ (codes "if[", codes "if-statement (bracket)")
    ∷ (codes "for ", codes "for-loop")
    ∷ (codes "while ", codes "while-loop")
    ∷ (codes "until ", codes "until-loop")
    ∷ (codes "case ", codes "case-statement")
    ∷ (codes "fi", codes "fi (end of if-statement)")
    ∷ (codes "done", codes "done (end of loop)")
    ∷ (codes "esac", codes "esac (end of case)")
    ∷ (codes "do ", codes "do-keyword")
    ∷ (codes "then", codes "then-keyword")
    ∷ (codes "else", codes "else-keyword")
    ∷ (codes "elif ", codes "elif-keyword")
    ∷ (codes "function ", codes "function-definition")
    ∷ (codes "export ", codes "export-keyword")
    ∷ (codes "source ", codes "source-keyword")
    ∷ (codes ". ", codes "source-dot operator")
    ∷ (codes "local ", codes "local-keyword")
    ∷ (codes "unset ", codes "unset-keyword")
    ∷ (codes "declare ", codes "declare-keyword")
    ∷ (codes "typeset ", codes "typeset-keyword")
    ∷ (codes "readonly ", codes "readonly-keyword")
    ∷ (codes "return ", codes "return-keyword")
    ∷ (codes "trap ", codes "trap-keyword")
    ∷ (codes "eval ", codes "eval-keyword")
    ∷ []

-- The loop over the triggers: the description of the first whose needle occurs.
unfoldable pub first_trigger : List (Text × Text) → Text → Option Text
first_trigger [] value = none
first_trigger ((needle, desc) ∷ ts) value =
    if contains needle value then some desc else first_trigger ts value

-- The loop over the keywords, on the line without its indentation.
unfoldable pub first_keyword : List (Text × Text) → Text → Option Text
first_keyword [] trimmed = none
first_keyword ((prefix, desc) ∷ ks) trimmed =
    if starts_with prefix trimmed || text_eq trimmed (trim_end prefix)
    then some desc
    else first_keyword ks trimmed

or_else : Option Text → Option Text → Option Text
or_else none later = later
or_else (some desc) later = some desc

unfoldable pub find_bash_construct : Text → Option Text
unfolding or_else first_trigger first_keyword
find_bash_construct line =
    or_else (first_trigger bash_triggers line)
      (first_keyword bash_keyword_prefixes (trim_start line))

-- What `parse_line` makes of a line.
pub data LineKind : Type 0 where
  blank comment : LineKind
  assignment : Text → Text → LineKind
  bash_construct : Text → LineKind

abbrev pub is_ascii_alphabetic : ℕ → Bool
is_ascii_alphabetic c = leb b'a' c && leb c b'z' || leb b'A' c && leb c b'Z'

abbrev pub is_ascii_digit : ℕ → Bool
is_ascii_digit c = leb b'0' c && leb c b'9'

abbrev pub is_ascii_alphanumeric : ℕ → Bool
is_ascii_alphanumeric c = is_ascii_alphabetic c || is_ascii_digit c

unfoldable pub all_chars : (ℕ → Bool) → Text → Bool
all_chars p [] = true
all_chars p (c ∷ cs) = p c && all_chars p cs

unfoldable pub is_valid_key : Text → Bool
unfolding all_chars
is_valid_key [] = false
is_valid_key (first ∷ chars) =
    if not (is_ascii_alphabetic first) && not (first == b'_')
    then false
    else all_chars (λ c. is_ascii_alphanumeric c || c == b'_') chars

unfoldable pub detect_dangerous_value : Text → Option Text
unfolding first_trigger
detect_dangerous_value value = first_trigger bash_triggers value

-- `s[1..s.len() - 1]`, on a text whose last character is one byte long
unfoldable pub drop_last : Text → Text
drop_last [] = []
drop_last (c ∷ []) = []
drop_last (c ∷ d ∷ cs) = c ∷ drop_last (d ∷ cs)

abbrev pub ends_with_char : ℕ → Text → Bool
ends_with_char c s = elim (last? s) [ some d ↦ d == c | none ↦ false ]

-- `starts_with('"') && ends_with('"') && len() >= 2`: the two quotes are different characters.
unfoldable pub unquote : Text → Text
unfolding drop_last
unquote [] = []
unquote (c ∷ []) = c ∷ []
unquote (c ∷ d ∷ cs) =
    if c == b'"' && ends_with_char b'"' (d ∷ cs) then drop_last (d ∷ cs) else c ∷ d ∷ cs

unfoldable pub extract_value : Text → Text
unfolding unquote
extract_value raw = unquote (trim_end_matches b'\r' (trim_end_matches b'\n' raw))

unfoldable pub unwrap_or : Text → Option Text → Text
unwrap_or default none = default
unwrap_or default (some t) = t

-- The end of `parse_line`: the line is no assignment.
unfoldable pub not_assignment : Text → LineKind
unfolding unwrap_or
not_assignment line =
    bash_construct
      (unwrap_or (codes "unrecognised non-assignment statement") (find_bash_construct line))

accept_value : Text → Text → Option Text → LineKind
accept_value key_part value_part (some offender) = bash_construct offender
accept_value key_part value_part none = assignment key_part (extract_value value_part)

-- A line with an `=`, split at the first one.
pub parse_split : Text → Option (Text × Text) → LineKind
unfolding accept_value
parse_split line none = not_assignment line
parse_split line (some (key_part, value_part)) =
    if is_valid_key key_part
    then (if text_eq key_part (codes "GRUB_DISTRIBUTOR")
          && text_eq value_part ubuntu_os_release_distributor
        then assignment key_part value_part
        else accept_value key_part value_part (detect_dangerous_value value_part))
    else not_assignment line

unfoldable pub parse_line : Text → LineKind
unfolding parse_split
parse_line line =
    if is_empty (trim line)
    then blank
    else if starts_with (b'#' ∷ []) (trim_start line)
    then comment
    else parse_split line (split_once b'=' line)

pub record GrubConfig : Type 0 where
  pub lines : List Text
  pub map : TextMap Text

-- `GrubConfig::get`
unfoldable pub get : GrubConfig → Text → Result Text
get config key = ok_or (key_not_found key) (lookup key config.map)

abbrev is_some : Option Text → Bool
is_some none = false
is_some (some _) = true

-- `GrubConfig::contains_key`
unfoldable pub contains_key : GrubConfig → Text → Bool
contains_key config key = is_some (lookup key config.map)

-- The body of the loop of `parse_grub_config`, on a line that `parse_line` has classified.
unfoldable pub record_line : GrubConfig → LineKind → Result GrubConfig
record_line config blank = ok config
record_line config comment = ok config
record_line config (assignment key value) = ok (record config { map = insert key value config.map })
record_line config (bash_construct offender) = err (complex_bash_detected offender)

unfoldable pub parse_lines : GrubConfig → List Text → Result GrubConfig
parse_lines config [] = ok config
parse_lines config (l ∷ ls) =
    record_line (record config { lines = config.lines ++ (l ∷ []) }) (parse_line l) >>= λ config'.
    parse_lines config' ls

abbrev pub empty_config : GrubConfig
empty_config = record { lines = []; map = [] }

unfoldable pub parse_grub_config : Text → Result GrubConfig
unfolding parse_lines record_line
parse_grub_config input = parse_lines empty_config (lines input)

unfoldable pub get_value : Text → Text → Result Text
unfolding get
get_value input key = do config ← parse_grub_config input; get config key
