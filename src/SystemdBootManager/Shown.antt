-- ===== src/SystemdBootManager/Shown.antt =====
-- crates/core/src/backends/systemd_boot.rs: the lines that serialising a loader entry writes.
use mathlib.Core.List.{Memᴰ}
use mathlib.Core.List.Memᴰ
use boot_control.Prelude.{
  ℕ, zero, suc, ◌≡◌, refl, ◌∙◌, ap, ◌⊎◌, inl, inr, Option, none, some, List, [], ◌∷◌, ◌++◌,
}
use boot_control.Text.{Text, codes}
use boot_control.SystemdBoot.{
  LoaderEntry, field_line, extra_lines, insert_line, reinsert, field_lines,
}

-- A field that is set, after its key.
abbrev IsKeyed : Text → Option Text → Text → Type 0
IsKeyed key value l = (v : Text) × (value ≡ some v) × (l ≡ key ++ v)

abbrev IsExtra : List (Text × Text) → Text → Type 0
IsExtra extra l = (k : Text) × (v : Text) × Memᴰ (k, v) extra × (l ≡ k ++ (b' ' ∷ v))

abbrev IsPreserved : List (ℕ × Text) → Text → Type 0
IsPreserved preserved l = (idx : ℕ) × Memᴰ (idx, l) preserved

-- A line that tells something of the entry.
pub data TellsField (entry : LoaderEntry) (l : Text) : Type 0 where
  a_title : IsKeyed (codes "title   ") entry.title l → TellsField entry l
  a_linux : IsKeyed (codes "linux   ") entry.linux l → TellsField entry l
  an_initrd : IsKeyed (codes "initrd  ") entry.initrd l → TellsField entry l
  an_options : IsKeyed (codes "options ") entry.options l → TellsField entry l
  a_machine_id : IsKeyed (codes "machine-id ") entry.machine_id l → TellsField entry l
  an_extra : IsExtra entry.extra l → TellsField entry l
  a_preserved : IsPreserved entry.preserved_lines l → TellsField entry l

module _ (l : Text) where
  field_line-from : (key : Text) (o : Option Text) → Memᴰ l (field_line key o) → IsKeyed key o l
  field_line-from key none m = absurd (Memᴰ.not-nil m)
  field_line-from key (some v) m = (v, refl, Memᴰ.eq_of_singleton m)

  field_line-to : (key : Text) (o : Option Text) → IsKeyed key o l → Memᴰ l (field_line key o)
  field_line-to key o (v, e, at) = rw e (Memᴰ.head at)

  extra_lines-from : (extra : List (Text × Text)) → Memᴰ l (extra_lines extra) → IsExtra extra l
  unfolding extra_lines
  extra_lines-from [] m = absurd (Memᴰ.not-nil m)
  extra_lines-from ((k, v) ∷ extra) m = elim (Memᴰ.cases_cons m) [
    | inl e ↦ (k, v, Memᴰ.head refl, e)
    | inr later ↦ let (k', v', at, e) = extra_lines-from extra later in (k', v', Memᴰ.tail at, e)
  ]

  extra_lines-to : (extra : List (Text × Text)) → IsExtra extra l → Memᴰ l (extra_lines extra)
  unfolding extra_lines
  extra_lines-to [] (k, v, at, e) = absurd (Memᴰ.not-nil at)
  extra_lines-to ((k', v') ∷ extra) (k, v, at, e) = elim (Memᴰ.cases_cons at) [
    | inl same ↦ Memᴰ.head (e ∙ ap (λ (kv : Text × Text). kv.0 ++ (b' ' ∷ kv.1)) same)
    | inr later ↦ Memᴰ.tail (extra_lines-to extra (k, v, later, e))
  ]

  insert_line-from :
      (idx : ℕ) (raw : Text) (ls : List Text)
      → Memᴰ l (insert_line idx raw ls)
      → (l ≡ raw) ⊎ Memᴰ l ls
  unfolding insert_line
  insert_line-from zero raw ls m = Memᴰ.cases_cons m
  insert_line-from (suc idx) raw [] m = Memᴰ.cases_cons m
  insert_line-from (suc idx) raw (x ∷ ls) m = elim (Memᴰ.cases_cons m) [
    | inl e ↦ inr (Memᴰ.head e)
    | inr later ↦ elim (insert_line-from idx raw ls later) [
      | inl e ↦ inl e
      | inr there ↦ inr (Memᴰ.tail there)
    ]
  ]

  insert_line-to :
      (idx : ℕ) (raw : Text) (ls : List Text)
      → (l ≡ raw) ⊎ Memᴰ l ls
      → Memᴰ l (insert_line idx raw ls)
  unfolding insert_line
  insert_line-to zero raw ls (inl e) = Memᴰ.head e
  insert_line-to zero raw ls (inr m) = Memᴰ.tail m
  insert_line-to (suc idx) raw [] (inl e) = Memᴰ.head e
  insert_line-to (suc idx) raw [] (inr m) = absurd (Memᴰ.not-nil m)
  insert_line-to (suc idx) raw (x ∷ ls) (inl e) = Memᴰ.tail (insert_line-to idx raw ls (inl e))
  insert_line-to (suc idx) raw (x ∷ ls) (inr m) = elim (Memᴰ.cases_cons m) [
    | inl e ↦ Memᴰ.head e
    | inr later ↦ Memᴰ.tail (insert_line-to idx raw ls (inr later))
  ]

  reinsert-from :
      (preserved : List (ℕ × Text)) (ls : List Text)
      → Memᴰ l (reinsert preserved ls)
      → IsPreserved preserved l ⊎ Memᴰ l ls
  unfolding reinsert
  reinsert-from [] ls m = inr m
  reinsert-from ((idx, raw) ∷ preserved) ls m =
      elim (reinsert-from preserved (insert_line idx raw ls) m) [
        | inl (i, at) ↦ inl (i, Memᴰ.tail at)
        | inr here ↦ elim (insert_line-from idx raw ls here) [
          | inl e ↦ inl (idx, Memᴰ.head (ap (λ (t : Text). (idx, t)) e))
          | inr there ↦ inr there
        ]
      ]

  reinsert-to :
      (preserved : List (ℕ × Text)) (ls : List Text)
      → IsPreserved preserved l ⊎ Memᴰ l ls
      → Memᴰ l (reinsert preserved ls)
  unfolding reinsert
  reinsert-to [] ls (inl (i, at)) = absurd (Memᴰ.not-nil at)
  reinsert-to [] ls (inr m) = m
  reinsert-to ((idx, raw) ∷ preserved) ls (inl (i, at)) = elim (Memᴰ.cases_cons at) [
    | inl e ↦
        reinsert-to preserved (insert_line idx raw ls)
          (inr (insert_line-to idx raw ls (inl (ap (λ (p : ℕ × Text). p.1) e))))
    | inr later ↦ reinsert-to preserved (insert_line idx raw ls) (inl (i, later))
  ]
  reinsert-to ((idx, raw) ∷ preserved) ls (inr m) =
      reinsert-to preserved (insert_line idx raw ls) (inr (insert_line-to idx raw ls (inr m)))

module _ (entry : LoaderEntry) (l : Text) where
  field_lines-from : Memᴰ l (field_lines entry) → TellsField entry l
  unfolding field_lines
  field_lines-from m0 = elim (Memᴰ.append_cases (field_line _ entry.title) m0) [
    | inl m ↦ a_title (field_line-from l _ _ m)
    | inr m1 ↦ elim (Memᴰ.append_cases (field_line _ entry.linux) m1) [
      | inl m ↦ a_linux (field_line-from l _ _ m)
      | inr m2 ↦ elim (Memᴰ.append_cases (field_line _ entry.initrd) m2) [
        | inl m ↦ an_initrd (field_line-from l _ _ m)
        | inr m3 ↦ elim (Memᴰ.append_cases (field_line _ entry.options) m3) [
          | inl m ↦ an_options (field_line-from l _ _ m)
          | inr m4 ↦ elim (Memᴰ.append_cases (field_line _ entry.machine_id) m4) [
            | inl m ↦ a_machine_id (field_line-from l _ _ m)
            | inr m ↦ an_extra (extra_lines-from l _ m)
          ]
        ]
      ]
    ]
  ]

  pub reinsert-TellsField :
      Memᴰ l (reinsert entry.preserved_lines (field_lines entry)) → TellsField entry l
  reinsert-TellsField m = elim (reinsert-from l entry.preserved_lines (field_lines entry) m) [
    | inl kept ↦ a_preserved kept
    | inr written ↦ field_lines-from written
  ]

  written_line :
      Memᴰ l (field_lines entry) → Memᴰ l (reinsert entry.preserved_lines (field_lines entry))
  written_line m = reinsert-to l entry.preserved_lines (field_lines entry) (inr m)

  pub TellsField-reinsert :
      TellsField entry l → Memᴰ l (reinsert entry.preserved_lines (field_lines entry))
  unfolding field_lines
  TellsField-reinsert (a_title h) =
      written_line (Memᴰ.append_left _ (field_line-to l _ entry.title h))
  TellsField-reinsert (a_linux h) = written_line (
      Memᴰ.append_right (field_line _ entry.title)
        (Memᴰ.append_left _ (field_line-to l _ entry.linux h)))
  TellsField-reinsert (an_initrd h) = written_line (
      Memᴰ.append_right (field_line _ entry.title) (
        Memᴰ.append_right (field_line _ entry.linux)
          (Memᴰ.append_left _ (field_line-to l _ entry.initrd h))))
  TellsField-reinsert (an_options h) = written_line (
      Memᴰ.append_right (field_line _ entry.title) (
        Memᴰ.append_right (field_line _ entry.linux) (
          Memᴰ.append_right (field_line _ entry.initrd)
            (Memᴰ.append_left _ (field_line-to l _ entry.options h)))))
  TellsField-reinsert (a_machine_id h) = written_line (
      Memᴰ.append_right (field_line _ entry.title) (
        Memᴰ.append_right (field_line _ entry.linux) (
          Memᴰ.append_right (field_line _ entry.initrd) (
            Memᴰ.append_right (field_line _ entry.options)
              (Memᴰ.append_left _ (field_line-to l _ entry.machine_id h))))))
  TellsField-reinsert (an_extra h) = written_line (
      Memᴰ.append_right (field_line _ entry.title) (
        Memᴰ.append_right (field_line _ entry.linux) (
          Memᴰ.append_right (field_line _ entry.initrd) (
            Memᴰ.append_right (field_line _ entry.options)
              (Memᴰ.append_right (field_line _ entry.machine_id) (extra_lines-to l _ h))))))
  TellsField-reinsert (a_preserved kept) =
      reinsert-to l entry.preserved_lines (field_lines entry) (inl kept)
