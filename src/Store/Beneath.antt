-- ===== src/Store/Beneath.antt =====
-- Files beneath a directory, and the calls that write there.
use boot_control.Prelude.{true, false, ◌≡◌, ◌≢◌, arith, [], ◌∷◌, ap}
use boot_control.Text.{Text}
use boot_control.Store.{FilePath}
use boot_control.Store.Keeps.{KeepsAt, KeepsAt-bind, KeepsAt-create, KeepsAt-write}
use boot_control.Store.Paths.{join_name}
use boot_control.Store.Trees.{path_starts_with, create_dir_all, make_dir, write_file}

pub path_starts_with-longer :
    (p base : FilePath) (name : Text)
    → path_starts_with p base ≡ true
    → path_starts_with (join_name p name) base ≡ true
unfolding path_starts_with
path_starts_with-longer p [] name h = ground arith
path_starts_with-longer [] (b ∷ bs) name h = cc
path_starts_with-longer (x ∷ xs) (b ∷ bs) name h =
    ground (arith, path_starts_with-longer xs bs name)

pub beneath-ne :
    (q p base : FilePath) → path_starts_with q base ≡ true → path_starts_with p base ≡ false → q ≢ p
beneath-ne q p base inside outside e = cc (ap (λ r. path_starts_with r base) e)

module _ {E : Type 0} (p : FilePath) (wrap : Text → E) where
  pub KeepsAt-create_dir_all : (d : FilePath) → KeepsAt p (create_dir_all wrap d)
  unfolding create_dir_all
  KeepsAt-create_dir_all d = record { at = λ w. ground arith }

  pub KeepsAt-make_dir : (d : FilePath) → KeepsAt p (make_dir wrap d)
  unfolding make_dir
  KeepsAt-make_dir d = record { at = λ w. ground arith }

  pub KeepsAt-write_file :
      (q : FilePath) (content : Text) → q ≢ p → KeepsAt p (write_file wrap q content)
  unfolding write_file
  KeepsAt-write_file q content ne =
      KeepsAt-bind p _ _ (KeepsAt-create p wrap q ne) λ _. KeepsAt-write p wrap q content ne
