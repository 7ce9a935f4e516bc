-- ===== src/Store/Observes.antt =====
-- Programs that change nothing in the world.
use boot_control.Prelude.{◌≡◌, refl, arith, subst, some}
use boot_control.Text.{Text}
use boot_control.Error.{ResultOf, ok, err}
use boot_control.Store.{FilePath, Call, World, IoOf, ◌>>=◌, continue, attempt, read_to_string, lift}

-- Whatever `m` returns, the world is as it was.
pub record Observes {E A : Type 0} (m : IoOf E A) : Type 0 where
  pub same : (w : World) → (m w).1 ≡ w

pub Observes-lift : {E A : Type 0} (r : ResultOf E A) → Observes (lift r)
Observes-lift r = record { same = λ w. refl }

module _ {E : Type 0} (wrap : Text → E) where
  pub Observes-attempt : (call : Call) → Observes (attempt wrap call)
  unfolding attempt
  Observes-attempt call = record { same = λ w. ground arith }

  pub Observes-read : (path : FilePath) → Observes (read_to_string wrap path)
  unfolding read_to_string
  Observes-read path = record { same = λ w. ground arith }

-- What holds of the result and the world, when a part that changes nothing runs first.
module _ {E A B : Type 0} (P : ResultOf E B × World → Type 0) where
  continue-observed :
      (r : ResultOf E A) (v : World) (f : A → IoOf E B)
      → ((e : E) → r ≡ err e → P (err e, v))
      → ((a : A) → r ≡ ok a → P (f a v))
      → P (continue r f v)
  continue-observed (ok a) v f failed rest = rest a refl
  continue-observed (err e) v f failed rest = failed e refl

  pub bind-observed :
      (m : IoOf E A) (f : A → IoOf E B) (w : World)
      → Observes m
      → ((e : E) → (m w).0 ≡ err e → P (err e, w))
      → ((a : A) → (m w).0 ≡ ok a → P (f a w))
      → P ((m >>= f) w)
  bind-observed m f w o failed rest = rw (o.same w) (continue-observed (m w).0 w f failed rest)

-- What holds of the result and the world, by the result of the first step.
module _ {E A B : Type 0} (P : ResultOf E B × World → Type 0) where
  continue-cases :
      (r : ResultOf E A) (v : World) (f : A → IoOf E B)
      → ((e : E) → r ≡ err e → P (err e, v))
      → ((a : A) → r ≡ ok a → P (f a v))
      → P (continue r f v)
  continue-cases (ok a) v f failed rest = rest a refl
  continue-cases (err e) v f failed rest = failed e refl

  pub bind-cases :
      (m : IoOf E A) (f : A → IoOf E B) (w : World)
      → ((e : E) → (m w).0 ≡ err e → P (err e, (m w).1))
      → ((a : A) → (m w).0 ≡ ok a → P (f a (m w).1))
      → P ((m >>= f) w)
  bind-cases m f w failed rest = continue-cases (m w).0 (m w).1 f failed rest

module _ {E A B : Type 0} where
  continue-same :
      (r : ResultOf E A) (f : A → IoOf E B) (w : World)
      → ((a : A) → Observes (f a))
      → (continue r f w).1 ≡ w
  continue-same (ok a) f w o = (o a).same w
  continue-same (err e) f w o = refl

  pub Observes-bind :
      (m : IoOf E A) (f : A → IoOf E B)
      → Observes m
      → ((a : A) → Observes (f a))
      → Observes (m >>= f)
  Observes-bind m f om of = record { same = λ w. rw (om.same w) (continue-same (m w).0 f w of) }

module _ {E A B : Type 0} where
  continue-ok :
      (r : ResultOf E A) (f : A → IoOf E B) (w : World) (b : B)
      → (continue r f w).0 ≡ ok b
      → (a : A) × (r ≡ ok a) × ((f a w).0 ≡ ok b)
  continue-ok (ok a) f w b e = (a, refl, e)
  continue-ok (err _) f w b e = cc

  -- A program that succeeds after a part that changes nothing: the part succeeded.
  pub bind-ok :
      (m : IoOf E A) (f : A → IoOf E B) (w : World) {b : B}
      → Observes m
      → ((m >>= f) w).0 ≡ ok b
      → (a : A) × ((m w).0 ≡ ok a) × ((f a w).0 ≡ ok b)
  bind-ok m f w {b} o e =
      continue-ok (m w).0 f w b
        (subst (λ (v : World). (continue (m w).0 f v).0 ≡ ok b) (o.same w) e)

pub read_to_string-ok :
    {E : Type 0} (wrap : Text → E) (path : FilePath) (w : World) (content : Text)
    → (read_to_string wrap path w).0 ≡ ok content
    → w.files path ≡ some content
unfolding read_to_string
read_to_string-ok wrap path w content h = ground arith
