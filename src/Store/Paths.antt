-- ===== src/Store/Paths.antt =====
-- Equality of paths, and a file beside another.
use boot_control.Prelude.{true, false, some, [], ◌∷◌, ◌++◌, ◌≡◌, ◌↔◌, ◌≢◌, refl, arith}
use boot_control.Text.{Text}
use boot_control.Text.Equality.{text_eq_iff}
use boot_control.Store.{FilePath, path_eq, file_name}

pub path_eq_iff : (p q : FilePath) → (path_eq p q ≡ true) ↔ (p ≡ q)
unfolding path_eq
path_eq_iff (x ∷ p) (y ∷ q) = ground (arith, text_eq_iff x y, path_eq_iff p q)
path_eq_iff _ _ = ground arith

pub path_eq_refl : (p : FilePath) → path_eq p p ≡ true
path_eq_refl p = (path_eq_iff p p).1 refl

pub path_eq_ne : (p q : FilePath) → p ≢ q → path_eq p q ≡ false
path_eq_ne p q ne = ground (arith, path_eq_iff p q)

-- `path.join(name)` for one component.
abbrev pub join_name : FilePath → Text → FilePath
join_name p name = p ++ (name ∷ [])

pub file_name-join : (p : FilePath) (name : Text) → file_name (join_name p name) ≡ some name
unfolding file_name
file_name-join [] name = refl
file_name-join (x ∷ []) name = refl
file_name-join (x ∷ y ∷ p) name = file_name-join (y ∷ p) name
