-- ===== src/Store/Trees.antt =====
-- Directories: `create_dir`, `create_dir_all`, `remove_dir_all` and `File::create_new` of the standard
-- library.
use boot_control.Prelude.{
  Bool, true, false, not, ◌&&◌, ◌||◌, Option, none, some, List, [], ◌∷◌, if◌then◌else◌, ◌++◌,
}
use boot_control.Text.{Text, codes, text_eq}
use boot_control.Error.{ok, err}
use boot_control.Store.{
  FilePath, path_eq, create, create_dir, remove, remove_dir, World, IoOf, ◌>>◌, fail_if, update,
  create_file, write_all,
}

unfoldable pub contains_path : FilePath → List FilePath → Bool
contains_path p [] = false
contains_path p (q ∷ qs) = path_eq q p || contains_path p qs

abbrev pub is_some : {A : Type 0} → Option A → Bool
is_some none = false
is_some (some _) = true

-- `Path::is_file`, `Path::is_dir` and `Path::exists`
abbrev pub is_file : World → FilePath → Bool
is_file w p = is_some (w.files p)

abbrev pub is_dir : World → FilePath → Bool
is_dir w p = contains_path p w.dirs

abbrev pub path_exists : World → FilePath → Bool
path_exists w p = is_file w p || is_dir w p

-- `path.starts_with(base)`, component by component.
unfoldable pub path_starts_with : FilePath → FilePath → Bool
path_starts_with p [] = true
path_starts_with [] (b ∷ bs) = false
path_starts_with (x ∷ xs) (b ∷ bs) = text_eq b x && path_starts_with xs bs

abbrev pub file_exists : Text
file_exists = codes "File exists (os error 17)"

abbrev with_dir : FilePath → World → World
with_dir p w = record w { dirs = p ∷ w.dirs }

-- `fs::create_dir`
unfoldable pub make_dir : {E : Type 0} → (Text → E) → FilePath → IoOf E (Unit {0})
make_dir wrap p w =
    fail_if wrap (w.fault (create_dir p))
      (λ v. if path_exists v p then (err (wrap file_exists), v) else (ok tt, with_dir p v)) w

-- `path.ancestors()`, without the root: the path, its parent, and so on.
unfoldable pub ancestors_on : FilePath → FilePath → List FilePath
ancestors_on done [] = []
ancestors_on done (x ∷ xs) = ancestors_on (done ++ (x ∷ [])) xs ++ ((done ++ (x ∷ [])) ∷ [])

abbrev pub ancestors : FilePath → List FilePath
ancestors = ancestors_on []

unfoldable pub add_missing : List FilePath → List FilePath → List FilePath
add_missing [] dirs = dirs
add_missing (p ∷ ps) dirs =
    let rest = add_missing ps dirs in if contains_path p dirs then rest else p ∷ rest

-- `fs::create_dir_all`
unfoldable pub create_dir_all : {E : Type 0} → (Text → E) → FilePath → IoOf E (Unit {0})
create_dir_all wrap p w =
    fail_if wrap (w.fault (create_dir p))
      (λ v.
        if is_file v p
        then (err (wrap file_exists), v)
        else (ok tt, record v { dirs = add_missing (ancestors p) v.dirs }))
      w

-- `OpenOptions::new().write(true).create_new(true)`
unfoldable pub create_new : {E : Type 0} → (Text → E) → FilePath → IoOf E (Unit {0})
create_new wrap p w =
    fail_if wrap (w.fault (create p))
      (λ v.
        if path_exists v p || v.symlink p
        then (err (wrap file_exists), v)
        else (ok tt, record v { files = update v.files p (some []) }))
      w

-- `fs::write`
unfoldable pub write_file : {E : Type 0} → (Text → E) → FilePath → Text → IoOf E (Unit {0})
write_file wrap p content = create_file wrap p >> write_all wrap p content

-- `let _ = fs::remove_file(path)`
unfoldable pub remove_file : FilePath → World → World
remove_file p w = elim (w.fault (remove p)) [
  | none ↦ record w { files = update w.files p none }
  | some e ↦ w
]

unfoldable pub keep_dirs : (FilePath → Bool) → List FilePath → List FilePath
keep_dirs keep [] = []
keep_dirs keep (d ∷ ds) = let rest = keep_dirs keep ds in if keep d then d ∷ rest else rest

abbrev kept_of : {A : Type 0} → Bool → Option A → Option A
kept_of keep a = if keep then a else none

-- Only the paths to keep are left.
unfoldable pub prune : (FilePath → Bool) → World → World
prune keep w = record w { files = λ p. kept_of (keep p) (w.files p); dirs = keep_dirs keep w.dirs }

-- `fs::remove_dir_all`; when it fails, a part of the directory may be gone.
unfoldable pub remove_dir_all : {E : Type 0} → (Text → E) → FilePath → IoOf E (Unit {0})
remove_dir_all wrap d w = elim (w.fault (remove_dir d)) [
  | none ↦ (ok tt, prune (λ p. not (path_starts_with p d)) w)
  | some e ↦ (err (wrap e), prune (λ p. not (path_starts_with p d) || w.spared p) w)
]
