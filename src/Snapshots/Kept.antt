-- ===== src/Snapshots/Kept.antt =====
-- crates/daemon/src/snapshot.rs: which snapshots `reap` removes.
use mathlib.Core.List.{Memᴰ}
use mathlib.Core.List.Memᴰ
use boot_control.Prelude.{
  ℕ, ◌+◌, ◌≤◌, suc, zero, ◌≡◌, inl, inr, List, [], ◌∷◌, true, false, some, refl, All, arith, ap,
  sym, Bool-cases, length, get_elem?, leb, ◌&&◌, ◌<◌,
}
use boot_control.Text.{Text, text_lt}
use boot_control.Text.Order.{text_lt_asymm, text_lt_between}
use boot_control.Snapshots.{SnapshotInfo, Json}
use boot_control.Snapshots.Retention.{insert_info, newest_first, to_delete}

-- No snapshot is newer than one in front of it.
unfoldable pub IsNewestFirst : List SnapshotInfo → Type 0
IsNewestFirst [] = Unit
IsNewestFirst (a ∷ rest) =
    All (λ (b : SnapshotInfo). text_lt a.ts b.ts ≡ false) rest × IsNewestFirst rest

module _ (json : Json) where
  insert_info-All :
      (P : SnapshotInfo → Type 0) (a : SnapshotInfo) (bs : List SnapshotInfo)
      → P a
      → All P bs
      → All P (insert_info json a bs)
  unfolding insert_info
  insert_info-All P a [] h hs = (h, tt)
  insert_info-All P a (b ∷ bs) h hs = elim (Bool-cases (text_lt a.ts b.ts)) [
    | inl older ↦ rw older (hs.0, insert_info-All P a bs h hs.1)
    | inr newer ↦ rw newer (h, hs)
  ]

  -- Where `a` is not older than `b`, it is not older than what `b` is not older than.
  not_older :
      (a b : SnapshotInfo) (bs : List SnapshotInfo)
      → text_lt a.ts b.ts ≡ false
      → All (λ (c : SnapshotInfo). text_lt b.ts c.ts ≡ false) bs
      → All (λ (c : SnapshotInfo). text_lt a.ts c.ts ≡ false) bs
  not_older a b [] h hs = tt
  not_older a b (c ∷ bs) h hs =
      (ground (arith, text_lt_between a.ts b.ts c.ts, hs.0), not_older a b bs h hs.1)

  insert_info-IsNewestFirst :
      (a : SnapshotInfo) (bs : List SnapshotInfo)
      → IsNewestFirst bs
      → IsNewestFirst (insert_info json a bs)
  unfolding insert_info IsNewestFirst
  insert_info-IsNewestFirst a [] h = (tt, tt)
  insert_info-IsNewestFirst a (b ∷ bs) h = elim (Bool-cases (text_lt a.ts b.ts)) [
    | inl older ↦ rw older (
      insert_info-All _ a bs (text_lt_asymm a.ts b.ts older) h.0,
      insert_info-IsNewestFirst a bs h.1,
    )
    | inr newer ↦ rw newer ((newer, not_older a b bs newer h.0), h)
  ]

  pub newest_first-IsNewestFirst :
      (infos : List SnapshotInfo) → IsNewestFirst (newest_first json infos)
  unfolding newest_first IsNewestFirst
  newest_first-IsNewestFirst [] = tt
  newest_first-IsNewestFirst (a ∷ rest) =
      insert_info-IsNewestFirst a (newest_first json rest) (newest_first-IsNewestFirst rest)

get_elem?-lt :
    (infos : List SnapshotInfo) (i : ℕ) {s : SnapshotInfo}
    → get_elem? infos i ≡ some s
    → i < length infos
get_elem?-lt [] i h = cc
get_elem?-lt (a ∷ infos) zero h = omega arith
get_elem?-lt (a ∷ infos) (suc i) h = omega (arith, get_elem?-lt infos i h)

-- A snapshot that is not among the first `keep_count` and older than the cutoff.
pub record IsExpired (keep_count : ℕ) (cutoff : Text) (infos : List SnapshotInfo) (id : Text)
    : Type 0 where
  pub index : ℕ
  pub info : SnapshotInfo
  pub listed : get_elem? infos index ≡ some info
  pub beyond_count : keep_count ≤ index
  pub beyond_days : text_lt info.ts cutoff ≡ true
  pub named : info.id ≡ id

module _ (keep_count : ℕ) (cutoff : Text) where
  -- The ids collected from position `i` on.
  to_delete-from :
      (i : ℕ) (infos : List SnapshotInfo) (id : Text)
      → Memᴰ id (to_delete keep_count cutoff i infos)
      → (j : ℕ) × (s : SnapshotInfo) × (get_elem? infos j ≡ some s)
        × (keep_count ≤ i + j)
        × (text_lt s.ts cutoff ≡ true)
        × (s.id ≡ id)
  unfolding to_delete
  to_delete-from i [] id m = absurd (Memᴰ.not-nil m)
  to_delete-from i (s ∷ infos) id m = elim (Bool-cases (leb keep_count i && text_lt s.ts cutoff)) [
    | inl expired ↦ elim (Memᴰ.cases_cons (rw expired at m)) [
      | inl here ↦ (0, s, refl, ground arith, ground arith, sym here)
      | inr later ↦ next s (to_delete-from (suc i) infos id later)
    ]
    | inr kept ↦ next s (to_delete-from (suc i) infos id (rw kept at m))
  ]
    where
      next :
          (s : SnapshotInfo)
          → ((j : ℕ) × (t : SnapshotInfo) × (get_elem? infos j ≡ some t)
              × (keep_count ≤ suc i + j)
              × (text_lt t.ts cutoff ≡ true)
              × (t.id ≡ id))
          → (j : ℕ) × (t : SnapshotInfo) × (get_elem? (s ∷ infos) j ≡ some t)
            × (keep_count ≤ i + j)
            × (text_lt t.ts cutoff ≡ true)
            × (t.id ≡ id)
      next s (j, t, at_j, count, days, named) = (suc j, t, at_j, omega (arith, count), days, named)

  pub to_delete-IsExpired :
      (infos : List SnapshotInfo) (id : Text)
      → Memᴰ id (to_delete keep_count cutoff 0 infos)
      → IsExpired keep_count cutoff infos id
  to_delete-IsExpired infos id m =
      let (j, s, listed, count, days, named) = to_delete-from 0 infos id m in
      record {
        index = j;
        info = s;
        listed = listed;
        beyond_count = omega (arith, count);
        beyond_days = days;
        named = named;
      }

  to_delete-covers :
      (i j : ℕ) (infos : List SnapshotInfo) (s : SnapshotInfo)
      → get_elem? infos j ≡ some s
      → keep_count ≤ i + j
      → text_lt s.ts cutoff ≡ true
      → Memᴰ s.id (to_delete keep_count cutoff i infos)
  unfolding to_delete
  to_delete-covers i j [] s h count days = cc
  to_delete-covers i zero (t ∷ infos) s h count days =
      let e : t ≡ s = ground arith in
      let expired : (leb keep_count i && text_lt t.ts cutoff) ≡ true = ground (arith, days) in
      rw expired (Memᴰ.head (ap (λ (x : SnapshotInfo). x.id) (sym e)))
  to_delete-covers i (suc j) (t ∷ infos) s h count days =
      let below = to_delete-covers (suc i) j infos s h (omega (arith, count)) days in
      elim (Bool-cases (leb keep_count i && text_lt t.ts cutoff)) [
        | inl expired ↦ rw expired (Memᴰ.tail below)
        | inr kept ↦ rw kept below
      ]

  pub IsExpired-to_delete :
      {infos : List SnapshotInfo} {id : Text}
      → IsExpired keep_count cutoff infos id
      → Memᴰ id (to_delete keep_count cutoff 0 infos)
  IsExpired-to_delete {infos} x = Memᴰ.cast (sym x.named) (
      to_delete-covers 0 x.index infos x.info x.listed (omega (arith, x.beyond_count))
        x.beyond_days)

  -- Nothing is beyond the count where there are no more.
  pub few-not-IsExpired :
      (infos : List SnapshotInfo) (id : Text)
      → length infos ≤ keep_count
      → ¬ IsExpired keep_count cutoff infos id
  few-not-IsExpired infos id few x =
      omega (arith, few, x.beyond_count, get_elem?-lt infos x.index x.listed)
