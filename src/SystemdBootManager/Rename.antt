-- ===== src/SystemdBootManager/Rename.antt =====
-- crates/daemon/src/systemd_boot_manager.rs: what renaming an entry leaves in its file.
use mathlib.Core.List.{Memᴰ}
use boot_control.Prelude.{ℕ, Option, some, List, [], ◌∷◌, ◌++◌, ◌≡◌, ◌≢◌, ◌↔◌, All}
use boot_control.Text.{Text, codes, join}
use boot_control.Text.Search.{Occurs}
use boot_control.Error.{Result, ok, err}
use boot_control.Store.{FilePath, World}
use boot_control.SystemdBoot.{LoaderEntry, parse_loader_entry}
use boot_control.SystemdBootManager.Shown.{TellsField}
use boot_control.SystemdBootManager.{entry_path}
use boot_control.SystemdBootManager.Writes.{IsFresh}

-- The text is lines with a final newline, and its lines are those that tell a field of the entry.
pub record IsPrint (entry : LoaderEntry) (now : Text) : Type 0 where
  pub ls : List Text
  pub ended : now ≡ join (b'\n' ∷ []) ls ++ (b'\n' ∷ [])
  pub told : (l : Text) → Memᴰ l ls ↔ TellsField entry l

-- An id that stays within its directory.
pub record IsSafeId (id : Text) : Type 0 where
  pub filled : id ≢ []
  pub no_slash : All (λ (c : ℕ). c ≢ b'/') id
  pub no_backslash : All (λ (c : ℕ). c ≢ b'\\') id
  pub no_dots : ¬ Occurs (codes "..") id

-- The file held an entry, and holds the same entry with another title.
pub record IsRenamed (unicode : Text → Text) (id title : Text) (old now : Option Text)
    : Type 0 where
  pub content : Text
  pub entry : LoaderEntry
  pub renamed : Text
  pub read : old ≡ some content
  pub parsed : parse_loader_entry unicode content ≡ ok entry
  pub written : now ≡ some renamed
  pub printed : IsPrint (record entry { title = some title }) renamed
  pub safe_id : IsSafeId id

module _ (unicode digest debug : Text → Text) (entries_dir : FilePath) (id title etag : Text) where
  abbrev path : FilePath
  path = entry_path entries_dir id

  abbrev pub RenameOutcome : World → Result (Unit {0}) × World → Type 0
  RenameOutcome w (ok _, w') =
      IsRenamed unicode id title (w.files path) (w'.files path) × IsFresh digest etag (w.files path)
  RenameOutcome w (err _, w') = w'.files path ≡ w.files path
