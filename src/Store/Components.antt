-- ===== src/Store/Components.antt =====
-- `Path::components` on a text, for Unix.
use boot_control.Prelude.{Bool, true, false, ◌||◌, List, [], ◌∷◌, if◌then◌else◌, ◌==◌}
use boot_control.Text.{Text, codes, text_eq, split_on, is_empty}
use boot_control.Store.{FilePath}

pub data Component : Type 0 where
  root_dir cur_dir parent_dir : Component
  normal : Text → Component

-- Empty pieces and dots are passed over.
unfoldable pub pieces : List Text → List Component
pieces [] = []
pieces (x ∷ xs) =
    let rest = pieces xs in
    if is_empty x || text_eq x (codes ".")
    then rest
    else if text_eq x (codes "..")
    then parent_dir ∷ rest
    else normal x ∷ rest

-- A dot counts where it begins a relative path.
unfoldable pub first_piece : List Text → List Component
unfolding pieces
first_piece [] = []
first_piece (x ∷ xs) = if text_eq x (codes ".") then cur_dir ∷ pieces xs else pieces (x ∷ xs)

unfoldable pub components : Text → List Component
unfolding first_piece pieces split_on
components [] = []
components (c ∷ cs) =
    if c == b'/' then root_dir ∷ pieces (split_on b'/' cs) else first_piece (split_on b'/' (c ∷ cs))

-- `path.is_absolute()`
abbrev pub is_absolute : List Component → Bool
is_absolute (root_dir ∷ _) = true
is_absolute _ = false

-- `components().any(|c| matches!(c, ParentDir | CurDir))`
unfoldable pub has_dots : List Component → Bool
has_dots [] = false
has_dots (parent_dir ∷ cs) = true
has_dots (cur_dir ∷ cs) = true
has_dots (_ ∷ cs) = has_dots cs

-- An absolute path without dots, as a `FilePath`.
unfoldable pub normals : List Component → FilePath
normals [] = []
normals (normal x ∷ cs) = x ∷ normals cs
normals (_ ∷ cs) = normals cs
