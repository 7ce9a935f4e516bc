-- ===== src/Grub/Config.antt =====
-- crates/core/src/grub.rs, the loop: `parse_grub_config` and `get_value` against a specification by
-- the first offending line and the last assignment of a key.
use boot_control.Prelude.{
  Option, none, some, List, [], ◌∷◌, ◌++◌, ◌≡◌, refl, ◌∙◌, arith, if◌then◌else◌, append_assoc,
  append-nil,
}
use boot_control.Text.{Text, text_eq, lines}
use boot_control.Error.{key_not_found, complex_bash_detected, Result, ok, err, ◌>>=◌}
use boot_control.Map.{lookup, insert, lookup-insert, lookup-nil}
use boot_control.Grub.{
  LineKind, blank, comment, assignment, bash_construct, parse_line, GrubConfig, record_line,
  parse_lines, empty_config, parse_grub_config, get_value,
}

-- The description of the first line that is not accepted.
abbrev pub offender : LineKind → Option Text
offender (bash_construct o) = some o
offender _ = none

abbrev pub or_later {ℓ} : {A : Type ℓ} → Option A → Option A → Option A
or_later (some a) later = some a
or_later none later = later

unfoldable pub first_offender : List Text → Option Text
first_offender [] = none
first_offender (l ∷ ls) = or_later (offender (parse_line l)) (first_offender ls)

-- The value that the last assignment of `key` gives it.
abbrev pub assigned : Text → LineKind → Option Text
assigned key (assignment k v) = if text_eq k key then some v else none
assigned key _ = none

unfoldable pub effective : Text → List Text → Option Text
effective key [] = none
effective key (l ∷ ls) = or_later (effective key ls) (assigned key (parse_line l))

-- What the loop returns for these lines.
abbrev pub Parses : GrubConfig → List Text → Option Text → Result GrubConfig → Type 0
Parses before ls (some o) r = r ≡ err (complex_bash_detected o)
Parses before ls none r =
    (after : GrubConfig) × (r ≡ ok after)
    × (after.lines ≡ before.lines ++ ls)
    × ((key : Text) → lookup key after.map ≡ or_later (effective key ls) (lookup key before.map))

pushed : GrubConfig → Text → GrubConfig
pushed config l = record config { lines = config.lines ++ (l ∷ []) }

-- A line that assigns nothing adds itself to the lines.
Parses-skip :
    (before : GrubConfig) (l : Text) (ls : List Text) (o : Option Text) (r : Result GrubConfig)
    → ((key : Text) → assigned key (parse_line l) ≡ none)
    → Parses (pushed before l) ls o r
    → Parses before (l ∷ ls) o r
unfolding pushed effective
Parses-skip before l ls (some o) r e h = h
Parses-skip before l ls none r e (after, is_ok, same, looked) = (
  after,
  is_ok,
  same ∙ append_assoc before.lines (l ∷ []) ls,
  λ key. ground (arith, looked key, e key),
)

Parses-assign :
    (before : GrubConfig) (l k v : Text) (ls : List Text) (o : Option Text) (r : Result GrubConfig)
    → parse_line l ≡ assignment k v
    → Parses (record (pushed before l) { map = insert k v before.map }) ls o r
    → Parses before (l ∷ ls) o r
unfolding pushed effective
Parses-assign before l k v ls (some o) r e h = h
Parses-assign before l k v ls none r e (after, is_ok, same, looked) = (
  after,
  is_ok,
  same ∙ append_assoc before.lines (l ∷ []) ls,
  λ key. ground (arith, looked key, lookup-insert k key v before.map),
)

Parses-line :
    (kind : LineKind) (before : GrubConfig) (l : Text) (ls : List Text)
    → parse_line l ≡ kind
    → ((b : GrubConfig) → Parses b ls (first_offender ls) (parse_lines b ls))
    → Parses before
        (l ∷ ls)
        (or_later (offender kind) (first_offender ls))
        (record_line (pushed before l) kind >>= λ c. parse_lines c ls)
unfolding record_line pushed
Parses-line blank before l ls e ih =
    Parses-skip before l ls _ _ (λ key. rw e) (ih (pushed before l))
Parses-line comment before l ls e ih =
    Parses-skip before l ls _ _ (λ key. rw e) (ih (pushed before l))
Parses-line (assignment k v) before l ls e ih =
    Parses-assign before l k v ls _ _ e
      (ih (record (pushed before l) { map = insert k v before.map }))
Parses-line (bash_construct o) before l ls e ih = refl

parse_lines-Parses :
    (ls : List Text) (before : GrubConfig)
    → Parses before ls (first_offender ls) (parse_lines before ls)
unfolding parse_lines first_offender pushed
parse_lines-Parses [] before = (before, refl, rw append-nil, λ key. unfold effective in refl)
parse_lines-Parses (l ∷ ls) before =
    Parses-line (parse_line l) before l ls refl (parse_lines-Parses ls)

-- `parse_grub_config` fails with the description of the first offending line, whatever comes
-- before it; with no such line it succeeds, keeps every line as it stands, and maps a key to the
-- value of its last assignment.
pub parse_grub_config-Parses :
    (input : Text)
    → Parses empty_config (lines input) (first_offender (lines input)) (parse_grub_config input)
unfolding parse_grub_config
parse_grub_config-Parses input = parse_lines-Parses (lines input) empty_config

-- What `get_value` returns, by the offenders and the assignments of the lines.
abbrev pub value_or_error : Text → List Text → Option Text → Result Text
value_or_error key ls (some o) = err (complex_bash_detected o)
value_or_error key ls none = elim (effective key ls) [
  | some v ↦ ok v
  | none ↦ err (key_not_found key)
]

get_value-Parses :
    (input key : Text) (o : Option Text)
    → Parses empty_config (lines input) o (parse_grub_config input)
    → get_value input key ≡ value_or_error key (lines input) o
unfolding get_value
get_value-Parses input key (some o) h = rw h
get_value-Parses input key none (after, is_ok, same, looked) =
    rw is_ok (ground (arith, looked key, lookup-nil {0} {V = Text} key))

-- `get_value` on every branch: the first offending line makes it fail, and otherwise the last
-- assignment of the key decides, with `KeyNotFound` if there is none.
pub get_value_lem :
    (input key : Text)
    → get_value input key ≡ value_or_error key (lines input) (first_offender (lines input))
get_value_lem input key = get_value-Parses input key _ (parse_grub_config-Parses input)
