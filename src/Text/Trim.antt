-- ===== src/Text/Trim.antt =====
-- Where trimming changes nothing.
use boot_control.Prelude.{ℕ, Bool, false, some, [], ◌∷◌, ◌++◌, ◌≡◌, ◌≢◌, refl, arith, All, ◌==◌}
use boot_control.Text.{Text, trim_start_by, trim_end_by, last?}

pub trim_start_by-cons :
    (p : ℕ → Bool) (c : ℕ) (cs : Text) → p c ≡ false → trim_start_by p (c ∷ cs) ≡ c ∷ cs
unfolding trim_start_by
trim_start_by-cons p c cs h = rw h refl

-- The last character is kept, so all are.
pub trim_end_by-last :
    (p : ℕ → Bool) (s : Text) → ((c : ℕ) → last? s ≡ some c → p c ≡ false) → trim_end_by p s ≡ s
unfolding trim_end_by
trim_end_by-last p [] h = refl
trim_end_by-last p (c ∷ []) h = rw (h c refl) refl
trim_end_by-last p (c ∷ d ∷ cs) h = ground (arith, trim_end_by-last p (d ∷ cs) h)

pub last?-concat : (s : Text) (c : ℕ) → last? (s ++ (c ∷ [])) ≡ some c
last?-concat [] c = refl
last?-concat (d ∷ []) c = refl
last?-concat (d ∷ e ∷ s) c = last?-concat (e ∷ s) c

pub last?-All : (k : ℕ) (s : Text) → All (λ (c : ℕ). c ≢ k) s → last? s ≢ some k
last?-All k [] h e = cc
last?-All k (c ∷ []) h e = ground (arith, h.0)
last?-All k (c ∷ d ∷ cs) h e = last?-All k (d ∷ cs) h.1 e

-- `trim_end_matches(k)` on a text that does not end with `k`.
pub trim_end_matches-last :
    (k : ℕ) (s : Text) → last? s ≢ some k → trim_end_by (λ (x : ℕ). x == k) s ≡ s
trim_end_matches-last k s h = trim_end_by-last (λ (x : ℕ). x == k) s λ c e. ground arith

pub last?-append : (s : Text) (c : ℕ) (t : Text) → last? (s ++ (c ∷ t)) ≡ last? (c ∷ t)
last?-append [] c t = refl
last?-append (d ∷ []) c t = refl
last?-append (d ∷ e ∷ s) c t = last?-append (e ∷ s) c t
