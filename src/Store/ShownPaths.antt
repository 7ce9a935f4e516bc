-- ===== src/Store/ShownPaths.antt =====
-- A path of names that is shown as a text and read again.
use boot_control.Prelude.{
  ℕ, ◌≡◌, ◌≢◌, List, [], ◌∷◌, ◌++◌, map, false, refl, All, arith, ◌∙◌, ap, append-nil,
}
use boot_control.Text.{Text, codes, split_on}
use boot_control.Text.Equality.{text_eq_iff}
use boot_control.Store.{FilePath, display_path}
use boot_control.Store.Components.{components, pieces, normal, root_dir, normals, has_dots}

-- A name of a file: not empty, no dot and no double dot, and without a slash.
pub record IsName (x : Text) : Type 0 where
  pub filled : x ≢ []
  pub dot : x ≢ codes "."
  pub dots : x ≢ codes ".."
  pub whole : All (λ (c : ℕ). c ≢ b'/') x

split_on-whole : (x : Text) → All (λ (c : ℕ). c ≢ b'/') x → split_on b'/' x ≡ x ∷ []
unfolding split_on
split_on-whole [] h = refl
split_on-whole (c ∷ x) h = ground (arith, split_on-whole x h.1)

split_on-append :
    (x rest : Text)
    → All (λ (c : ℕ). c ≢ b'/') x
    → split_on b'/' (x ++ (b'/' ∷ rest)) ≡ x ∷ split_on b'/' rest
unfolding split_on
split_on-append [] rest h = ground arith
split_on-append (c ∷ x) rest h = ground (arith, split_on-append x rest h.1)

pieces-names : (p : FilePath) → All IsName p → pieces p ≡ map normal p
unfolding pieces
pieces-names [] h = refl
pieces-names (x ∷ p) h = ground (
  arith,
  pieces-names p h.1,
  h.0.filled,
  h.0.dot,
  h.0.dots,
  text_eq_iff x (codes "."),
  text_eq_iff x (codes ".."),
)

split_on-display :
    (x : Text) (p : FilePath) → All IsName (x ∷ p) → split_on b'/' (x ++ display_path p) ≡ x ∷ p
unfolding display_path
split_on-display x [] h = rw append-nil (split_on-whole x h.0.whole)
split_on-display x (y ∷ p) h =
    split_on-append x _ h.0.whole ∙ ap (λ (l : List Text). x ∷ l) (split_on-display y p h.1)

-- A path that is shown is read as the same path.
pub components-display :
    (x : Text) (p : FilePath)
    → All IsName (x ∷ p)
    → components (display_path (x ∷ p)) ≡ root_dir ∷ map normal (x ∷ p)
unfolding components display_path
components-display x p h =
    ap (λ l. root_dir ∷ l) (ap pieces (split_on-display x p h) ∙ pieces-names (x ∷ p) h)

pub normals-map : (p : FilePath) → normals (map normal p) ≡ p
unfolding normals
normals-map [] = refl
normals-map (x ∷ p) = ap (λ (q : FilePath). x ∷ q) (normals-map p)

pub has_dots-map : (p : FilePath) → has_dots (map normal p) ≡ false
unfolding has_dots
has_dots-map [] = refl
has_dots-map (x ∷ p) = has_dots-map p
