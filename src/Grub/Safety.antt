-- ===== src/Grub/Safety.antt =====
-- crates/core/src/grub.rs: which files `parse_grub_config` accepts.
use boot_control.Prelude.{none, some, Option, List, [], ◌∷◌, ◌≡◌, ◌↔◌, refl, arith, All}
use boot_control.Text.{Text, lines}
use boot_control.Error.{ok}
use boot_control.Grub.{
  LineKind, blank, comment, assignment, bash_construct, parse_line, GrubConfig, empty_config,
  parse_grub_config,
}
use boot_control.Grub.Lines.{IsSafeLine, IsAccepted, parse_line-IsSafeLine, IsSafeLine-parse_line}
use boot_control.Grub.Config.{offender, first_offender, Parses, parse_grub_config-Parses}

IsAccepted-offender : (kind : LineKind) → (IsAccepted kind) ↔ (offender kind ≡ none)
IsAccepted-offender blank = (λ _. refl, λ _. tt)
IsAccepted-offender comment = (λ _. refl, λ _. tt)
IsAccepted-offender (assignment k v) = (λ _. refl, λ _. tt)
IsAccepted-offender (bash_construct o) = (λ h. absurd h, λ e. cc)

no_offender : (ls : List Text) → first_offender ls ≡ none → All IsSafeLine ls
unfolding first_offender
no_offender [] e = tt
no_offender (l ∷ ls) e =
    let here : offender (parse_line l) ≡ none = ground arith in
    let later : first_offender ls ≡ none = ground arith in
    (parse_line-IsSafeLine l ((IsAccepted-offender (parse_line l)).1 here), no_offender ls later)

pub IsSafeLine-no_offender : (ls : List Text) → All IsSafeLine ls → first_offender ls ≡ none
unfolding first_offender
IsSafeLine-no_offender [] h = refl
IsSafeLine-no_offender (l ∷ ls) h = ground (
  arith,
  (IsAccepted-offender (parse_line l)).0 (IsSafeLine-parse_line l h.0),
  IsSafeLine-no_offender ls h.1,
)

accepted-no_offender :
    (input : Text) (config : GrubConfig) (o : Option Text)
    → Parses empty_config (lines input) o (parse_grub_config input)
    → parse_grub_config input ≡ ok config
    → o ≡ none
accepted-no_offender input config none p e = refl
accepted-no_offender input config (some o) p e = cc

safe-accepted :
    (input : Text) (o : Option Text)
    → Parses empty_config (lines input) o (parse_grub_config input)
    → o ≡ none
    → (config : GrubConfig) × (parse_grub_config input ≡ ok config)
safe-accepted input none p e = (p.0, p.1)
safe-accepted input (some o) p e = cc

-- The parser accepts a file exactly when each of its lines is blank, a comment, or an assignment
-- of a shell name to a value in which no trigger occurs, with Ubuntu's own `GRUB_DISTRIBUTOR` line as
-- the one exception.
pub parse_grub_config_accepts :
    (input : Text)
    → ((config : GrubConfig) × (parse_grub_config input ≡ ok config)) ↔ All IsSafeLine (lines input)
parse_grub_config_accepts input = (
  λ (config, e).
      no_offender (lines input)
        (accepted-no_offender input config _ (parse_grub_config-Parses input) e),
  λ safe.
      safe-accepted input _ (parse_grub_config-Parses input)
        (IsSafeLine-no_offender (lines input) safe),
)
