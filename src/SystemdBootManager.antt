-- ===== src/SystemdBootManager.antt =====
-- crates/daemon/src/systemd_boot_manager.rs: the loader entries and loader.conf on the disk. What a
-- listing of the entries gives is the argument `listing`, and `debug` is the format `{:?}`.
pub mod Writes
pub mod Defaults
pub mod Told
pub mod Shown
pub mod SetDefault
pub mod Rename
use boot_control.Prelude.{
  ℕ, suc, zero, Bool, not, ◌||◌, ◌&&◌, Option, none, some, List, [], ◌∷◌, ◌++◌, length,
  if◌then◌else◌,
}
use boot_control.Text.{
  Text, codes, trim, trim_start, is_empty, is_whitespace, lines, join, starts_with, text_eq,
  text_lt, has_char, contains, splitn_2, strip_suffix, to_lowercase,
}
use boot_control.Error.{
  BootControlError, esp_scan_failed, malformed_value, state_mismatch, ResultOf, Result, ok, err,
}
use boot_control.Hash.{compute_etag, verify_etag}
use boot_control.Store.{
  FilePath, World, parent, file_name, display_path, open_rw, sync, Io, ◌>>=◌, ◌>>◌, pure, lift,
  attempt, read_to_string, create_file, write_all, rename_file,
}
use boot_control.Store.Paths.{join_name}
use boot_control.Store.Trees.{path_exists}
use boot_control.Failsafe.{or_default}
use boot_control.GrubManager.{take_lock}
use boot_control.SystemdBoot.{LoaderEntry, parse_loader_entry, serialize_loader_entry}

pub record EntryRecord : Type 0 where
  pub id : Text
  pub title : Option Text
  pub linux : Option Text
  pub initrd : Option Text
  pub options : Option Text
  pub machine_id : Option Text
  pub etag : Text
  pub is_default : Bool

abbrev failed : Text → Text → BootControlError
failed context e = esp_scan_failed (context ++ e)

unfoldable pub entry_path : FilePath → Text → FilePath
entry_path entries_dir id = join_name entries_dir (id ++ codes ".conf")

unfoldable pub validate_entry_id : Text → Result (Unit {0})
validate_entry_id id =
    if is_empty id || has_char b'/' id || has_char b'\\' id || contains (codes "..") id
    then err (malformed_value (codes "id") (codes "invalid entry id: '" ++ (id ++ codes "'")))
    else ok tt

abbrev strip_more : Text → Text → Option Text → (Text → Text) → Text
strip_more suffix s none again = s
strip_more suffix s (some rest) again = again rest

-- `s.trim_end_matches(suffix)`. Each round takes a suffix away, so the fuel `length s` is enough.
unfoldable pub trim_suffixes : ℕ → Text → Text → Text
trim_suffixes zero suffix s = s
trim_suffixes (suc fuel) suffix s =
    strip_more suffix s (strip_suffix suffix s) (λ rest. trim_suffixes fuel suffix rest)

unfoldable pub is_entry_default : Text → Text → Bool
is_entry_default entry_id loader_conf_default =
    let default = trim loader_conf_default in
    text_eq default entry_id
    || text_eq default (entry_id ++ codes ".conf")
    || text_eq (trim_suffixes (length default) (codes ".conf") default) entry_id

abbrev or_empty : Option Text → Text
or_empty none = []
or_empty (some value) = value

module _ (unicode : Text → Text) where
  -- The loop over the lines of loader.conf.
  unfoldable pub default_in : List Text → Text
  default_in [] = []
  default_in (line ∷ ls) =
      let rest = default_in ls in
      let trimmed = trim line in
      let (key, value) = splitn_2 is_whitespace trimmed in
      if starts_with (codes "#") trimmed || is_empty trimmed
      then rest
      else if text_eq (to_lowercase unicode key) (codes "default")
      then trim_start (or_empty value)
      else rest

  unfoldable pub read_loader_conf_default : FilePath → Io Text
  read_loader_conf_default loader_conf_path = do
    content ← read_to_string (failed (codes "cannot read loader.conf: ")) loader_conf_path
    pure (default_in (lines content))

  -- Whether the loop of `update_or_append_key` stops at the line.
  unfoldable pub has_key : Text → Text → Bool
  has_key key line =
      let trimmed = trim_start line in
      not (starts_with (codes "#") trimmed)
      && not (is_empty trimmed)
      && text_eq (to_lowercase unicode (splitn_2 is_whitespace trimmed).0) key

  -- The first line with the key is replaced, or the new line is put at the end.
  unfoldable pub update_lines : Text → Text → List Text → List Text
  update_lines key new_line [] = new_line ∷ []
  update_lines key new_line (line ∷ ls) =
      let rest = update_lines key new_line ls in
      if has_key key line then new_line ∷ ls else line ∷ rest

  unfoldable pub update_or_append_key : Text → Text → Text → Text
  update_or_append_key content key value =
      join (b'\n' ∷ []) (update_lines key (key ++ (b' ' ∷ value)) (lines content)) ++ (b'\n' ∷ [])

unfoldable pub build_tmp_path : FilePath → FilePath
build_tmp_path target =
    join_name (or_default (codes "boot" ∷ codes "loader" ∷ []) (parent target))
      (or_default (codes "entry") (file_name target) ++ codes ".bootcontrol.tmp")

unfoldable pub write_atomically : FilePath → FilePath → Text → Io (Unit {0})
write_atomically tmp_path target content = do
  create_file (failed (codes "create tmp file failed: ")) tmp_path
  write_all (failed (codes "write tmp file failed: ")) tmp_path content
  attempt (failed (codes "fsync failed: ")) (sync tmp_path)
  rename_file (failed (codes "atomic rename failed: ")) tmp_path target

module _ (unicode digest debug : Text → Text) where
  unfoldable pub check_etag : Text → Text → Result (Unit {0})
  check_etag expected_etag content =
      if not (is_empty expected_etag) && not (verify_etag digest expected_etag content)
      then err (state_mismatch expected_etag (compute_etag digest content))
      else ok tt

  -- The check of a file that exists, under its lock.
  unfoldable pub check_existing : FilePath → Text → Io (Unit {0})
  check_existing path expected_etag = do
    attempt
        (λ e.
          esp_scan_failed (
            codes "cannot open '" ++ (debug (display_path path) ++ (codes "' for locking: " ++ e))))
        (open_rw path)
    take_lock path
    content ← read_to_string (failed (codes "read error: ")) path
    lift (check_etag expected_etag content)

  unfoldable pub atomic_write_with_etag : FilePath → Text → Text → Io (Unit {0})
  atomic_write_with_etag path new_content expected_etag = do
    λ w. if path_exists w path then check_existing path expected_etag w else (ok tt, w)
    write_atomically (build_tmp_path path) path new_content

  unfoldable pub fetch_loader_conf_etag : FilePath → Io Text
  fetch_loader_conf_etag loader_conf_path = do
    content ← read_to_string (failed (codes "cannot read loader.conf for ETag: ")) loader_conf_path
    pure (compute_etag digest content)

  abbrev read_entry_text : FilePath → Text → Io Text
  read_entry_text path id =
      read_to_string (failed (codes "cannot read entry '" ++ (id ++ codes "': "))) path

  unfoldable pub read_entry : FilePath → Text → Io (LoaderEntry × Text)
  read_entry entries_dir id = do
    lift (validate_entry_id id)
    content ← read_entry_text (entry_path entries_dir id) id
    entry ← lift (parse_loader_entry unicode content)
    pure (entry, compute_etag digest content)

  unfoldable pub write_loader_entry : FilePath → Text → LoaderEntry → Text → Io (Unit {0})
  write_loader_entry entries_dir id entry expected_etag = do
    lift (validate_entry_id id)
    atomic_write_with_etag (entry_path entries_dir id) (serialize_loader_entry entry) expected_etag

  unfoldable pub validate_title : Text → Result (Unit {0})
  validate_title new_title =
      if is_empty new_title || has_char b'\n' new_title || has_char b'\r' new_title
      then err (
          malformed_value (codes "title")
            (codes "loader entry title must be a non-empty single line; got: " ++ debug new_title))
      else ok tt

  unfoldable pub rename_loader_entry : FilePath → Text → Text → Text → Io (Unit {0})
  rename_loader_entry entries_dir id new_title expected_etag = do
    lift (validate_entry_id id)
    lift (validate_title new_title)
    let path = entry_path entries_dir id
    content ← read_entry_text path id
    entry ← lift (parse_loader_entry unicode content)
    let renamed = record entry { title = some new_title }
    atomic_write_with_etag path (serialize_loader_entry renamed) expected_etag

  -- The new content of loader.conf, from what it holds before the lock is taken.
  unfoldable pub default_content : FilePath → Text → Io Text
  default_content loader_conf_path id w =
      if path_exists w loader_conf_path
      then (do
        content ← read_to_string (failed (codes "cannot read loader.conf: ")) loader_conf_path
        pure (update_or_append_key unicode content (codes "default") id))
          w
      else (ok (codes "default " ++ (id ++ (b'\n' ∷ []))), w)

  unfoldable pub set_loader_default : FilePath → Text → Text → Io (Unit {0})
  set_loader_default loader_conf_path id expected_etag = do
    lift (validate_entry_id id)
    new_content ← default_content loader_conf_path id
    atomic_write_with_etag loader_conf_path new_content expected_etag

  module _ (listing : FilePath → World → ResultOf Text (List Text)) where
    unfoldable pub record_of : Text → Text → Text → LoaderEntry → EntryRecord
    record_of current_default id content entry = record {
      id = id;
      title = entry.title;
      linux = entry.linux;
      initrd = entry.initrd;
      options = entry.options;
      machine_id = entry.machine_id;
      etag = compute_etag digest content;
      is_default = is_entry_default id current_default;
    }

    abbrev ok_record : Text → Text → Text → Result LoaderEntry → List EntryRecord
    ok_record current_default id content (ok entry) =
        record_of current_default id content entry ∷ []
    ok_record current_default id content (err _) = []

    abbrev ok_records : Text → Text → Result Text → List EntryRecord
    ok_records current_default id (ok content) =
        ok_record current_default id content (parse_loader_entry unicode content)
    ok_records current_default id (err _) = []

    -- The body of the loop: a name without `.conf`, or a file that cannot be read, is passed over.
    unfoldable pub entry_record : World → FilePath → Text → Text → List EntryRecord
    entry_record w entries_dir current_default name = elim (strip_suffix (codes ".conf") name) [
      | none ↦ []
      | some [] ↦ []
      | some (c ∷ cs) ↦
          ok_records current_default (c ∷ cs)
            (read_to_string esp_scan_failed (join_name entries_dir name) w).0
    ]

    unfoldable pub entry_records : World → FilePath → Text → List Text → List EntryRecord
    entry_records w entries_dir current_default [] = []
    entry_records w entries_dir current_default (name ∷ names) =
        entry_record w entries_dir current_default name
        ++ entry_records w entries_dir current_default names

    unfoldable pub insert_record : EntryRecord → List EntryRecord → List EntryRecord
    insert_record a [] = a ∷ []
    insert_record a (b ∷ bs) =
        let rest = insert_record a bs in if text_lt b.id a.id then b ∷ rest else a ∷ b ∷ bs

    unfoldable pub sort_records : List EntryRecord → List EntryRecord
    sort_records [] = []
    sort_records (a ∷ rest) = insert_record a (sort_records rest)

    abbrev ok_or_empty : Result Text → Text
    ok_or_empty (ok value) = value
    ok_or_empty (err _) = []

    abbrev listed : World → FilePath → Text → ResultOf Text (List Text) → Result (List EntryRecord)
    listed w entries_dir current_default (err e) =
        err (esp_scan_failed (codes "cannot read entries dir: " ++ e))
    listed w entries_dir current_default (ok names) =
        ok (sort_records (entry_records w entries_dir current_default names))

    unfoldable pub read_all_entries : FilePath → FilePath → Io (List EntryRecord)
    read_all_entries entries_dir loader_conf_path w =
        let current_default = ok_or_empty (read_loader_conf_default unicode loader_conf_path w).0 in
        (listed w entries_dir current_default (listing entries_dir w), w)
