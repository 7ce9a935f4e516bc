-- ===== src/SystemdBootManager/SetDefault.antt =====
-- crates/daemon/src/systemd_boot_manager.rs: what setting the default entry leaves in loader.conf.
use boot_control.Prelude.{
  Option, none, some, List, [], ◌∷◌, ◌++◌, ◌≡◌, ◌≢◌, refl, ◌∙◌, arith, Bool-cases, inl, inr, subst,
  sym,
}
use boot_control.Text.{Text, codes, lines, join}
use boot_control.Error.{Result, ok, err, ok-injective}
use boot_control.Store.{FilePath, World, read_to_string}
use boot_control.Store.Trees.{path_exists}
use boot_control.Store.Observes.{
  Observes, Observes-lift, Observes-read, bind-ok, bind-observed, read_to_string-ok,
}
use boot_control.SystemdBootManager.{
  validate_entry_id, default_in, has_key, update_lines, update_or_append_key, default_content,
  set_loader_default,
}
use boot_control.SystemdBootManager.Told.{Tells, has_key_iff}
use boot_control.SystemdBootManager.Writes.{
  IsFresh, WriteOutcome, atomic_write_with_etag-WriteOutcome,
}
use boot_control.SystemdBootManager.Defaults.{
  IsSetting, default_key, default_line, default_in-update_or_append_key, default_in-new,
}

-- The first line that tells the key is replaced, or the new line is put at the end; all others stay.
pub data Edited (unicode : Text → Text) (key new_line : Text) : List Text → List Text → Type 0 where
  appended : Edited unicode key new_line [] (new_line ∷ [])
  replaced :
      {l : Text} {ls : List Text}
      → Tells unicode key l
      → Edited unicode key new_line (l ∷ ls) (new_line ∷ ls)
  kept :
      {l : Text} {ls ls' : List Text}
      → ¬ Tells unicode key l
      → Edited unicode key new_line ls ls'
      → Edited unicode key new_line (l ∷ ls) (l ∷ ls')

update_lines-Edited :
    (unicode : Text → Text) (key new_line : Text)
    → key ≢ []
    → (ls : List Text) → Edited unicode key new_line ls (update_lines unicode key new_line ls)
unfolding update_lines
update_lines-Edited unicode key new_line ne [] = Edited.appended
update_lines-Edited unicode key new_line ne (l ∷ ls) = elim (Bool-cases (has_key unicode key l)) [
  | inl found ↦ rw found (Edited.replaced ((has_key_iff unicode key ne l).0 found))
  | inr other ↦ rw other (
      Edited.kept (λ t. cc (other, (has_key_iff unicode key ne l).1 t))
        (update_lines-Edited unicode key new_line ne ls))
]

default_key-ne : default_key ≢ []
unfolding codes
default_key-ne e = cc

-- The text of loader.conf with the default: alone in a new file, or edited into the old lines.
abbrev pub IsDefaultText : (Text → Text) → Text → Option Text → Text → Type 0
IsDefaultText unicode id none new = new ≡ default_line id ++ (b'\n' ∷ [])
IsDefaultText unicode id (some content) new =
    (ls : List Text) × Edited unicode default_key (default_line id) (lines content) ls
    × (new ≡ join (b'\n' ∷ []) ls ++ (b'\n' ∷ []))

new_file : (id : Text) → codes "default " ++ (id ++ (b'\n' ∷ [])) ≡ default_line id ++ (b'\n' ∷ [])
unfolding codes
new_file id = refl

module _ (unicode digest debug : Text → Text) (path : FilePath) (id etag : Text) where
  -- loader.conf tells the new default, or it is as it was.
  abbrev pub DefaultOutcome : World → Result (Unit {0}) × World → Type 0
  DefaultOutcome w (ok _, w') =
      (new : Text) × (w'.files path ≡ some new)
      × (default_in unicode (lines new) ≡ id)
      × IsDefaultText unicode id (w.files path) new
      × IsFresh digest etag (w.files path)
  DefaultOutcome w (err _, w') = w'.files path ≡ w.files path

  default_content-Observes : Observes (default_content unicode digest debug path id)
  unfolding default_content read_to_string
  default_content-Observes = record { same = λ w. ground arith }

  new_default :
      (w : World) (new : Text)
      → IsSetting id
      → (default_content unicode digest debug path id w).0 ≡ ok new
      → (default_in unicode (lines new) ≡ id) × IsDefaultText unicode id (w.files path) new
  unfolding default_content update_or_append_key
  new_default w new is h = elim (Bool-cases (path_exists w path)) [
    | inl there ↦
        let (content, got, made) = bind-ok _ _ w (Observes-read _ path) (rw there at h) in
        let e : update_or_append_key unicode content (codes "default") id ≡ new = ground arith in
        rw (read_to_string-ok _ path w content got) (
          subst (λ (t : Text). default_in unicode (lines t) ≡ id) e
              (default_in-update_or_append_key unicode content id is),
          (
            update_lines unicode default_key (default_line id) (lines content),
            update_lines-Edited unicode default_key (default_line id) default_key-ne
                (lines content),
            sym e,
          ),
        )
    | inr missing ↦
        let absent : w.files path ≡ none = ground arith in
        let e : default_line id ++ (b'\n' ∷ []) ≡ new =
          sym (new_file id) ∙ ok-injective (rw missing at h) in
        rw absent (
          subst (λ (t : Text). default_in unicode (lines t) ≡ id) e (default_in-new unicode id is),
          sym e,
        )
  ]

  -- Whichever call fails, setting an entry whose name stands on one line and has no white space at
  -- its ends as the default succeeds, and then the default that is read is that entry, loader.conf
  -- has its old lines but for the first that told a default, and it had the ETag, if one was given;
  -- or it fails, and loader.conf is as it was.
  pub set_loader_default-DefaultOutcome :
      (w : World)
      → IsSetting id
      → DefaultOutcome w (set_loader_default unicode digest debug path id etag w)
  unfolding set_loader_default
  set_loader_default-DefaultOutcome w is =
      bind-observed (DefaultOutcome w) _ _ w (Observes-lift (validate_entry_id id)) (λ e _. refl)
        λ _ _.
          bind-observed (DefaultOutcome w) _ _ w default_content-Observes (λ e _. refl)
            λ new made.
              written w new _ (new_default w new is made)
                (atomic_write_with_etag-WriteOutcome unicode digest debug path etag new w)
    where
      written :
          (w : World) (new : Text) (out : Result (Unit {0}) × World)
          → (default_in unicode (lines new) ≡ id) × IsDefaultText unicode id (w.files path) new
          → WriteOutcome digest etag path new w out
          → DefaultOutcome w out
      written w new (ok _, w') told done = (new, done.1, told.0, told.1, done.0)
      written w new (err _, w') told same = same
