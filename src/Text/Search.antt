-- ===== src/Text/Search.antt =====
-- What `starts_with`, `contains` and `split_once` find, said by concatenation.
use boot_control.Prelude.{
  ℕ, true, false, [], ◌∷◌, ◌++◌, ◌≡◌, ◌≢◌, inl, inr, refl, ap, arith, some, Bool-cases,
  Option-cases, All, subst₂, ◌==◌, ◌||◌,
}
use boot_control.Text.{Text, starts_with, contains, split_once}

-- `needle` occurs in `s`.
pub record Occurs (needle s : Text) : Type 0 where
  pub before : Text
  pub after : Text
  pub splits : s ≡ before ++ (needle ++ after)

pub starts_with-append : (p s : Text) → starts_with p (p ++ s) ≡ true
unfolding starts_with
starts_with-append [] s = refl
starts_with-append (c ∷ p) s = ground (arith, starts_with-append p s)

pub starts_with_splits : (p s : Text) → starts_with p s ≡ true → (rest : Text) × (s ≡ p ++ rest)
unfolding starts_with
starts_with_splits [] s h = (s, refl)
starts_with_splits (c ∷ p) [] h = cc
starts_with_splits (c ∷ p) (d ∷ s) h =
    let (rest, e) = starts_with_splits p s (ground arith) in (rest, ground arith)

contains_here : (p s : Text) → starts_with p s ≡ true → contains p s ≡ true
unfolding contains
contains_here p [] h = h
contains_here p (c ∷ s) h = ground arith

contains-before : (p before s : Text) → contains p s ≡ true → contains p (before ++ s) ≡ true
unfolding contains
contains-before p [] s h = h
contains-before p (c ∷ before) s h = ground (arith, contains-before p before s h)

pub Occurs-contains : {p s : Text} → Occurs p s → contains p s ≡ true
Occurs-contains {p} o =
    rw o.splits (contains-before p o.before _ (contains_here p _ (starts_with-append p o.after)))

pub contains-Occurs : (p s : Text) → contains p s ≡ true → Occurs p s
unfolding contains
contains-Occurs p [] h =
    let (rest, e) = starts_with_splits p [] h in record { before = []; after = rest; splits = e }
contains-Occurs p (c ∷ s) h = elim (Bool-cases (starts_with p (c ∷ s))) [
  | inl here ↦
      let (rest, e) = starts_with_splits p (c ∷ s) here in
      record { before = []; after = rest; splits = e }
  | inr later ↦
      let o = contains-Occurs p s (ground arith) in
      record { before = c ∷ o.before; after = o.after; splits = ap (◌∷◌ c) o.splits }
]

pub contains_cons :
    (n : Text) (c : ℕ) (s : Text) → contains n (c ∷ s) ≡ (starts_with n (c ∷ s) || contains n s)
unfolding contains
contains_cons n c s = refl

pub contains-false : {p s : Text} → contains p s ≡ false → ¬ Occurs p s
contains-false h o = ground (arith, Occurs-contains o)

-- The slices at the first `sep` rebuild the text, and `sep` is not in the first of them.
pub record IsFirstSplit (sep : ℕ) (s before after : Text) : Type 0 where
  pub splits : s ≡ before ++ (sep ∷ after)
  pub first : All (λ (c : ℕ). c ≢ sep) before

push-IsFirstSplit :
    (sep c : ℕ) (s before after : Text)
    → (c == sep) ≡ false
    → IsFirstSplit sep s before after
    → IsFirstSplit sep (c ∷ s) (c ∷ before) after
push-IsFirstSplit sep c s before after ne f = record {
  splits = ap (◌∷◌ c) f.splits;
  first = (ground arith, f.first);
}

pub split_once-IsFirstSplit :
    (sep : ℕ) (s before after : Text)
    → split_once sep s ≡ some (before, after)
    → IsFirstSplit sep s before after
unfolding split_once
split_once-IsFirstSplit sep [] before after h = cc
split_once-IsFirstSplit sep (c ∷ s) before after h = elim (Bool-cases (c == sep)) [
  | inl here ↦ ground arith
  | inr ne ↦ elim (Option-cases (split_once sep s)) [
    | inl nothing ↦ ground arith
    | inr ((b, a), found) ↦
        let f = push-IsFirstSplit sep c s b a ne (split_once-IsFirstSplit sep s b a found) in
        let e : (c ∷ b ≡ before) × (a ≡ after) = ground arith in
        subst₂ (IsFirstSplit sep (c ∷ s)) e.0 e.1 f
  ]
]

pub split_once-append :
    (sep : ℕ) (before after : Text)
    → All (λ (c : ℕ). c ≢ sep) before
    → split_once sep (before ++ (sep ∷ after)) ≡ some (before, after)
unfolding split_once
split_once-append sep [] after h = ground arith
split_once-append sep (c ∷ before) after h = ground (arith, split_once-append sep before after h.1)
