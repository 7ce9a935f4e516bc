-- ===== src/Store.antt =====
-- The operating system as the daemon sees it: files, locks and tools, and the calls that may fail.
-- A call's failure is decided by `fault`, which carries the message of the system's error.
pub mod Paths
pub mod Keeps
pub mod Calm
pub mod Observes
pub mod Trees
pub mod Components
pub mod ShownPaths
pub mod Beneath
use boot_control.Prelude.{
  ℕ, ℤ, Bool, true, false, Option, none, some, List, [], ◌∷◌, ◌++◌, ◌≡◌, refl, if◌then◌else◌,
}
use boot_control.Text.{Text, codes, text_eq}
use boot_control.Audit.{AuditEvent}
use boot_control.Error.{BootControlError, ResultOf, ok, err}

-- An absolute path, by its components.
abbrev pub FilePath : Type 0
FilePath = List Text

unfoldable pub path_eq : FilePath → FilePath → Bool
path_eq [] [] = true
path_eq (x ∷ xs) (y ∷ ys) = if text_eq x y then path_eq xs ys else false
path_eq _ _ = false

-- `path.display()`
unfoldable pub display_path : FilePath → Text
display_path [] = []
display_path (x ∷ xs) = b'/' ∷ (x ++ display_path xs)

-- `Path::file_name`
unfoldable pub file_name : FilePath → Option Text
file_name [] = none
file_name (x ∷ []) = some x
file_name (x ∷ y ∷ ys) = file_name (y ∷ ys)

abbrev cons_parent : Text → Option FilePath → Option FilePath
cons_parent x none = none
cons_parent x (some p) = some (x ∷ p)

-- `Path::parent`
unfoldable pub parent : FilePath → Option FilePath
parent [] = none
parent (x ∷ []) = some []
parent (x ∷ y ∷ ys) = cons_parent x (parent (y ∷ ys))

pub data Call : Type 0 where
  open_rw read metadata create write sync create_dir set_mode remove : FilePath → Call
  seek lstat list_dir remove_dir : FilePath → Call
  lock rename : FilePath → Call

-- How a command that was started ended: its exit code (none after a signal), its stdout and stderr.
pub record Output : Type 0 where
  pub code : Option ℕ
  pub stdout : Text
  pub stderr : Text

pub data Spawned : Type 0 where
  spawn_failed : Text → Spawned
  exited : Output → Spawned

-- An entry of /boot: its name, and its modification time where the system tells it.
pub record BootFile : Type 0 where
  pub name : Text
  pub mtime : Option ℕ

pub record World : Type 0 where
  pub files : FilePath → Option Text
  pub mode : FilePath → ℕ  -- where no file is: the mode that creating one gives it
  pub busy : FilePath → Bool  -- another process holds the lock
  pub fault : Call → Option Text
  pub torn : Text → Text  -- what a failed write leaves of a content
  pub clock : Text  -- the time, in RFC 3339
  pub exists : Text → Bool  -- `Path::exists`, for the kernel and initrd images
  pub boot_dir : Option (List BootFile)  -- the listing of /boot
  pub by_uuid : Option (List (Text × Option Text))  -- /dev/disk/by-uuid: a name and its device
  pub dirs : List FilePath  -- the directories, in the order that listing them gives
  pub symlink : FilePath → Bool
  pub now : Text  -- the time, in UTC and RFC 3339 with whole seconds
  pub days_before : ℤ → Option Text  -- the time so many days before, if there is such a time
  pub journal : List AuditEvent  -- the audit trail, the oldest event first
  pub shared : Option Text  -- the variable that a method shares with its closure
  pub spared : FilePath → Bool  -- what a failed removal of a directory leaves

-- What is outside of the repository: SHA-256 in hexadecimal, the search of `$PATH`, and the tools
-- that are run, which may change any file.
pub record System : Type 0 where
  pub digest : Text → Text
  pub which : Text → Option Text
  pub spawn : Text → List Text → World → Spawned × World

abbrev pub IoOf : Type 0 → Type 0 → Type 0
IoOf E A = World → ResultOf E A × World

abbrev pub Io : Type 0 → Type 0
Io A = IoOf BootControlError A

abbrev pub continue : {E A B : Type 0} → ResultOf E A → (A → IoOf E B) → IoOf E B
continue (ok a) f w = f a w
continue (err e) f w = (err e, w)

infixl 5 ◌>>=◌ ◌>>◌
abbrev pub ◌>>=◌ : {E A B : Type 0} → IoOf E A → (A → IoOf E B) → IoOf E B
◌>>=◌ m f w = continue (m w).0 f (m w).1

abbrev pub ◌>>◌ : {E B : Type 0} → IoOf E (Unit {0}) → IoOf E B → IoOf E B
m >> k = m >>= λ _. k

abbrev pub pure : {E A : Type 0} → A → IoOf E A
pure a w = (ok a, w)

abbrev pub lift : {E A : Type 0} → ResultOf E A → IoOf E A
lift r w = (r, w)

abbrev pub update : (FilePath → Option Text) → FilePath → Option Text → FilePath → Option Text
update files p content q = if path_eq p q then content else files q

abbrev pub fail_if : {E A : Type 0} → (Text → E) → Option Text → IoOf E A → IoOf E A
fail_if wrap none m w = m w
fail_if wrap (some e) m w = (err (wrap e), w)

abbrev pub no_such_file : Text
no_such_file = codes "No such file or directory (os error 2)"

abbrev found_or : {E : Type 0} → (Text → E) → Option Text → ResultOf E Text
found_or wrap none = err (wrap no_such_file)
found_or wrap (some content) = ok content

-- A call that succeeds unless the system refuses it, and changes no content.
unfoldable pub attempt : {E : Type 0} → (Text → E) → Call → IoOf E (Unit {0})
attempt wrap call w = fail_if wrap (w.fault call) (pure tt) w

-- `fs::read_to_string(path).map_err(wrap)`
unfoldable pub read_to_string : {E : Type 0} → (Text → E) → FilePath → IoOf E Text
read_to_string wrap path w =
    fail_if wrap (w.fault (read path)) (lift (found_or wrap (w.files path))) w

-- `File::create`: the file is there and empty.
unfoldable pub create_file : {E : Type 0} → (Text → E) → FilePath → IoOf E (Unit {0})
create_file wrap path w =
    fail_if wrap (w.fault (create path))
      (λ v. (ok tt, record v { files = update v.files path (some []) })) w

-- `write_all`; a write that fails may have written some of the content.
unfoldable pub write_all : {E : Type 0} → (Text → E) → FilePath → Text → IoOf E (Unit {0})
write_all wrap path content w = elim (w.fault (write path)) [
  | none ↦ (ok tt, record w { files = update w.files path (some content) })
  | some e ↦ (err (wrap e), record w { files = update w.files path (some (w.torn content)) })
]

abbrev pub update_mode : (FilePath → ℕ) → FilePath → ℕ → FilePath → ℕ
update_mode mode p m q = if path_eq p q then m else mode q

-- `File::set_permissions`
unfoldable pub set_permissions : {E : Type 0} → (Text → E) → FilePath → ℕ → IoOf E (Unit {0})
set_permissions wrap path m w =
    fail_if wrap (w.fault (set_mode path))
      (λ v. (ok tt, record v { mode = update_mode v.mode path m })) w

-- `fs::rename`: the target has the whole content of the source at once, and its mode.
unfoldable pub rename_file : {E : Type 0} → (Text → E) → FilePath → FilePath → IoOf E (Unit {0})
rename_file wrap source target w =
    fail_if wrap (w.fault (rename source))
      (λ v. (
        ok tt,
        record v {
          files = update (update v.files target (v.files source)) source none;
          mode = update_mode v.mode target (v.mode source);
        },
      ))
      w
