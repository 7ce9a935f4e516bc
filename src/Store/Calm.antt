-- ===== src/Store/Calm.antt =====
-- Programs that succeed wherever no call fails.
use boot_control.Prelude.{none, ◌≡◌, refl, arith}
use boot_control.Text.{Text}
use boot_control.Error.{ResultOf, ok, err}
use boot_control.Store.{
  FilePath, Call, World, IoOf, ◌>>=◌, continue, attempt, create_file, write_all, rename_file, pure,
}

-- No call fails.
abbrev pub Calm : World → Type 0
Calm w = (call : Call) → w.fault call ≡ none

-- In a calm world the program returns `a`, and the world stays calm.
pub record Returns {E A : Type 0} (m : IoOf E A) (a : A) : Type 0 where
  pub run : (w : World) → Calm w → ((m w).0 ≡ ok a) × Calm (m w).1

continue-Returns :
    {E A B : Type 0} (r : ResultOf E A) (f : A → IoOf E B) (a : A) (b : B) (w : World)
    → r ≡ ok a
    → Calm w
    → Returns (f a) b
    → ((continue r f w).0 ≡ ok b) × Calm (continue r f w).1
continue-Returns (ok x) f a b w e calm k = let same : x ≡ a = ground arith in rw same (k.run w calm)
continue-Returns (err x) f a b w e calm k = cc

module _ {E A B : Type 0} where
  pub Returns-bind :
      (m : IoOf E A) (f : A → IoOf E B) (a : A) (b : B)
      → Returns m a
      → Returns (f a) b
      → Returns (m >>= f) b
  Returns-bind m f a b km kf = record {
    run = λ w calm.
        let (e, still) = km.run w calm in continue-Returns (m w).0 f a b (m w).1 e still kf;
  }

pub Returns-pure : {E A : Type 0} (a : A) → Returns {E = E} (pure a) a
Returns-pure a = record { run = λ w calm. (refl, calm) }

module _ {E : Type 0} (wrap : Text → E) where
  pub Returns-attempt : (call : Call) → Returns (attempt wrap call) tt
  unfolding attempt
  Returns-attempt call = record { run = λ w calm. rw (calm call) (refl, calm) }

  pub Returns-create : (path : FilePath) → Returns (create_file wrap path) tt
  unfolding create_file
  Returns-create path = record { run = λ w calm. rw (calm (Call.create path)) (refl, calm) }

  pub Returns-write : (path : FilePath) (content : Text) → Returns (write_all wrap path content) tt
  unfolding write_all
  Returns-write path content = record {
    run = λ w calm. rw (write_all, calm (Call.write path)) (refl, calm);
  }

  pub Returns-rename : (source target : FilePath) → Returns (rename_file wrap source target) tt
  unfolding rename_file
  Returns-rename source target = record {
    run = λ w calm. rw (calm (Call.rename source)) (refl, calm);
  }
