-- ===== src/GrubManager/ReadBack.antt =====
-- crates/daemon/src/grub_manager.rs with crates/core/src/grub.rs: what is written is read back.
use boot_control.Store.{Io, World}
use boot_control.GrubManager.Atomic.{IsReplaced}
use boot_control.Prelude.{
  none, some, Option, List, [], ◌∷◌, ◌≡◌, ◌≢◌, refl, sym, ap, ◌∙◌, arith, All, map,
}
use boot_control.Text.{Text, lines}
use boot_control.Text.Lines.{NoNewline, chomp, lines-join, lines-NoNewline}
use boot_control.Error.{ok}
use boot_control.Map.{lookup, lookup-nil}
use boot_control.Grub.{GrubConfig, empty_config, parse_grub_config}
use boot_control.Grub.Lines.{IsSafeLine}
use boot_control.Grub.Safety.{parse_grub_config_accepts, IsSafeLine-no_offender}
use boot_control.Grub.Config.{effective, or_later, Parses, parse_grub_config-Parses}
use boot_control.GrubManager.GoodLine.{IsGoodLine}
use boot_control.GrubManager.Change.{
  IsPlainChange, value_of, apply_changes-good, effective-apply_changes, apply_changes-ne,
  apply_change-ne,
}
use boot_control.GrubManager.{apply_changes, new_content, apply_change, LockedGrubState}

-- The parser's result on a file, by the effective values of its lines.
pub record Reads (input : Text) (ls : List Text) : Type 0 where
  pub config : GrubConfig
  pub parsed : parse_grub_config input ≡ ok config
  pub same_lines : config.lines ≡ ls
  pub values : (j : Text) → lookup j config.map ≡ effective j ls

Parses-Reads :
    (input : Text) (o : Option Text)
    → o ≡ none
    → Parses empty_config (lines input) o (parse_grub_config input)
    → Reads input (lines input)
Parses-Reads input (some o) e p = absurd (cc e)
Parses-Reads input none e (config, parsed, same, looked) = record {
  config = config;
  parsed = parsed;
  same_lines = same;
  values = λ j. ground (arith, looked j, lookup-nil {0} {V = Text} j);
}

safe-Reads : (input : Text) → All IsSafeLine (lines input) → Reads input (lines input)
safe-Reads input safe =
    Parses-Reads input _ (IsSafeLine-no_offender (lines input) safe)
      (parse_grub_config-Parses input)

good-safe : (ls : List Text) → All IsGoodLine ls → All IsSafeLine ls
good-safe [] h = tt
good-safe (l ∷ ls) h = (h.0.safe, good-safe ls h.1)

good-lines : (ls : List Text) → All IsGoodLine ls → All NoNewline ls × (map chomp ls ≡ ls)
good-lines [] h = (tt, refl)
good-lines (l ∷ ls) h =
    ((h.0.one_line, (good-lines ls h.1).0), ground (arith, (good-lines ls h.1).1, h.0.kept))

new_content-lines : (ls : List Text) → ls ≢ [] → All IsGoodLine ls → lines (new_content ls) ≡ ls
unfolding new_content
new_content-lines [] ne h = absurd (ne refl)
new_content-lines (l ∷ ls) ne h =
    let (whole, same) = good-lines (l ∷ ls) h in lines-join l ls whole ∙ same

new_content-Reads : (ls : List Text) → ls ≢ [] → All IsGoodLine ls → Reads (new_content ls) ls
new_content-Reads ls ne h =
    let e = new_content-lines ls ne h in
    rw e at (safe-Reads (new_content ls) (rw e (good-safe ls h)))

-- No line of the file ends in a carriage return that writing it back would lose.
abbrev pub IsUnix : Text → Type 0
IsUnix content = All (λ (l : Text). chomp l ≡ l) (lines content)

good_lines_of :
    (ls : List Text)
    → All IsSafeLine ls
    → All NoNewline ls
    → All (λ (l : Text). chomp l ≡ l) ls
    → All IsGoodLine ls
good_lines_of [] s n k = tt
good_lines_of (l ∷ ls) s n k =
    (record { safe = s.0; one_line = n.0; kept = k.0 }, good_lines_of ls s.1 n.1 k.1)

changed-ne :
    (ls : List Text) (changes : List (Text × Text)) → changes ≢ [] → apply_changes ls changes ≢ []
unfolding apply_changes
changed-ne ls [] h = absurd (h refl)
changed-ne ls (c ∷ cs) h = apply_changes-ne (apply_change ls c) cs (apply_change-ne ls c)

pub reads_config :
    (content : Text) (config : GrubConfig)
    → parse_grub_config content ≡ ok config
    → (config.lines ≡ lines content)
      × ((j : Text) → lookup j config.map ≡ effective j (lines content))
reads_config content config parsed =
    let r = safe-Reads content ((parse_grub_config_accepts content).0 (config, parsed)) in
    let e : r.config ≡ config = cc (r.parsed) in
    (
      ap (λ (c : GrubConfig). c.lines) (sym e) ∙ r.same_lines,
      λ j. ap (λ (c : GrubConfig). lookup j c.map) (sym e) ∙ r.values j,
    )

-- Where the parser accepts a file none of whose lines ends in a carriage return, the lines changed
-- by at least one change, each of a shell name to a plain value, make a file that the parser accepts
-- as well; each changed key has its last new value, and every other key the value that it had.
pub apply_changes-read_back :
    (content : Text) (config : GrubConfig) (changes : List (Text × Text))
    → parse_grub_config content ≡ ok config
    → IsUnix content
    → All IsPlainChange changes
    → changes ≢ []
    → (config' : GrubConfig) × (parse_grub_config (new_content (apply_changes config.lines changes))
        ≡ ok config')
      × ((j : Text) → lookup j config'.map ≡ or_later (value_of j changes) (lookup j config.map))
apply_changes-read_back content config changes parsed unix plain ne =
    let safe = (parse_grub_config_accepts content).0 (config, parsed) in
    let good = good_lines_of (lines content) safe (lines-NoNewline content) unix in
    let (same, looked) = reads_config content config parsed in
    let r =
      new_content-Reads (apply_changes (lines content) changes)
        (changed-ne (lines content) changes ne)
        (apply_changes-good (lines content) changes good plain) in
    (
      r.config,
      ap (λ (ls : List Text). parse_grub_config (new_content (apply_changes ls changes))) same
          ∙ r.parsed,
      λ j.
          ground
            (arith, r.values j, effective-apply_changes j (lines content) changes plain, looked j),
    )

-- The same of `set_grub_values`, through the file system: after a change that succeeded the file
-- is accepted, and gives the new values of the changed keys and the old ones of the others.
module _ (digest : Text → Text) (changes : List (Text × Text)) (etag : Text)
    (prewrite : LockedGrubState → Io (Unit {0})) (w : World) (old now : Option Text)
    (plain : All IsPlainChange changes) (ne : changes ≢ []) where
  pub IsReplaced-read_back :
      (r : IsReplaced digest changes etag prewrite w old now)
      → IsUnix r.content
      → (content' : Text) × (config' : GrubConfig) × (now ≡ some content')
        × (parse_grub_config content' ≡ ok config')
        × ((j : Text)
            → lookup j config'.map ≡ or_later (value_of j changes) (lookup j r.config.map))
  IsReplaced-read_back r unix =
      let (config', parsed, looked) =
        apply_changes-read_back r.content r.config changes r.checked.parsed unix plain ne in
      (new_content (apply_changes r.config.lines changes), config', r.written, parsed, looked)
