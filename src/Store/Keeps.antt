-- ===== src/Store/Keeps.antt =====
-- Calls and programs that leave the content of one file alone.
use boot_control.Prelude.{Option, ◌≡◌, ◌≢◌, refl, ◌∙◌, arith}
use boot_control.Text.{Text}
use boot_control.Error.{ResultOf, ok, err}
use boot_control.Store.{
  FilePath, Call, World, IoOf, ◌>>=◌, continue, attempt, read_to_string, create_file, write_all,
  rename_file, lift,
}
use boot_control.Store.Paths.{path_eq_ne}

-- Whatever `m` returns, the file at `p` is as it was.
pub record KeepsAt {E A : Type 0} (p : FilePath) (m : IoOf E A) : Type 0 where
  pub at : (w : World) → (m w).1.files p ≡ w.files p

module _ {E A : Type 0} (p : FilePath) where
  pub KeepsAt-lift : (r : ResultOf E A) → KeepsAt p (lift r)
  KeepsAt-lift r = record { at = λ w. refl }

module _ {E : Type 0} (p : FilePath) (wrap : Text → E) where
  pub KeepsAt-attempt : (call : Call) → KeepsAt p (attempt wrap call)
  unfolding attempt
  KeepsAt-attempt call = record { at = λ w. ground arith }

  pub KeepsAt-read : (q : FilePath) → KeepsAt p (read_to_string wrap q)
  unfolding read_to_string
  KeepsAt-read q = record { at = λ w. ground arith }

  pub KeepsAt-create : (q : FilePath) → q ≢ p → KeepsAt p (create_file wrap q)
  unfolding create_file
  KeepsAt-create q ne = record { at = λ w. ground (arith, path_eq_ne q p ne) }

  pub KeepsAt-write : (q : FilePath) (content : Text) → q ≢ p → KeepsAt p (write_all wrap q content)
  unfolding write_all
  KeepsAt-write q content ne = record { at = λ w. ground (arith, path_eq_ne q p ne) }

  pub KeepsAt-rename :
      (source target : FilePath)
      → source ≢ p
      → target ≢ p
      → KeepsAt p (rename_file wrap source target)
  unfolding rename_file
  KeepsAt-rename source target s t = record {
    at = λ w. ground (arith, path_eq_ne source p s, path_eq_ne target p t);
  }

continue-KeepsAt :
    {E A B : Type 0} (p : FilePath) (r : ResultOf E A) (f : A → IoOf E B) (w : World)
    → ((a : A) → KeepsAt p (f a))
    → (continue r f w).1.files p ≡ w.files p
continue-KeepsAt p (ok a) f w k = (k a).at w
continue-KeepsAt p (err e) f w k = refl

module _ {E A B : Type 0} (p : FilePath) where
  pub KeepsAt-bind :
      (m : IoOf E A) (f : A → IoOf E B)
      → KeepsAt p m
      → ((a : A) → KeepsAt p (f a))
      → KeepsAt p (m >>= f)
  KeepsAt-bind m f km kf = record { at = λ w. continue-KeepsAt p (m w).0 f (m w).1 kf ∙ km.at w }

-- What holds of the result and the file at `p`, when a part that leaves the file alone runs first.
module _ {E A B : Type 0} (p : FilePath) (P : ResultOf E B → Option Text → Type 0) where
  continue-result :
      (r : ResultOf E A) (f : A → IoOf E B) (w : World)
      → ((e : E) → P (err e) (w.files p))
      → ((a : A) → r ≡ ok a → P (f a w).0 ((f a w).1.files p))
      → P (continue r f w).0 ((continue r f w).1.files p)
  continue-result (ok a) f w failed rest = rest a refl
  continue-result (err e) f w failed rest = failed e

  pub bind-result :
      (m : IoOf E A) (f : A → IoOf E B) (w : World)
      → KeepsAt p m
      → ((e : E) → P (err e) (w.files p))
      → ((a : A) (w' : World)
          → (m w).0 ≡ ok a
          → w'.files p ≡ w.files p
          → P (f a w').0 ((f a w').1.files p))
      → P ((m >>= f) w).0 (((m >>= f) w).1.files p)
  bind-result m f w km failed rest =
      continue-result (m w).0 f (m w).1 (λ e. rw (km.at w) (failed e))
        (λ a is_ok. rest a (m w).1 is_ok (km.at w))
