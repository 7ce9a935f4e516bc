-- ===== src/Snapshots/Checks.antt =====
-- crates/daemon/src/snapshot.rs: what the checks of `restore` have established once they pass. None
-- of them changes anything.
use mathlib.Core.List.{Memᴰ}
use mathlib.Core.List.Memᴰ
use boot_control.Prelude.{
  true, ◌≡◌, List, [], ◌∷◌, refl, All, arith, inl, inr, some, ◌∙◌, sym, ap, subst,
}
use boot_control.Text.{Text, text_eq}
use boot_control.Text.Equality.{text_eq_iff}
use boot_control.Error.{ok}
use boot_control.Hash.{compute_etag}
use boot_control.Store.{FilePath, World, attempt, read_to_string}
use boot_control.Store.Paths.{join_name}
use boot_control.Store.Observes.{
  Observes, Observes-lift, Observes-attempt, Observes-read, Observes-bind, bind-ok,
  read_to_string-ok,
}
use boot_control.Snapshots.{io, ManifestFile, Json, flatten_path}
use boot_control.Snapshots.Restore.{
  target_of, open_target, lock_target, lock_targets, check_primary, Replacement, replacement_of,
  replacements_of, read_manifest, verified,
}
use boot_control.Snapshots.Managed.{IsManaged}

open_target-Observes : (p : FilePath) → Observes (open_target p)
unfolding open_target
open_target-Observes p = record { same = λ w. ground arith }

lock_target-Observes : (p : FilePath) → Observes (lock_target p)
unfolding lock_target attempt
lock_target-Observes p = record { same = λ w. ground arith }

pub lock_targets-Observes : (ps : List FilePath) → Observes (lock_targets ps)
unfolding lock_targets
lock_targets-Observes [] = Observes-lift (ok tt)
lock_targets-Observes (p ∷ ps) =
    Observes-bind _ _ (open_target-Observes p)
      λ _. Observes-bind _ _ (lock_target-Observes p) λ _. lock_targets-Observes ps

pub read_manifest-Observes :
    (json : Json) (id : Text) (path : FilePath) → Observes (read_manifest json id path)
unfolding read_manifest read_to_string
read_manifest-Observes json id path = record { same = λ w. ground arith }

module _ (digest : Text → Text) (dir : FilePath) (w : World) where
  -- The bytes are those of the captured file, which has the digest that the manifest tells.
  pub record IsVerified (f : ManifestFile) (r : Replacement) : Type 0 where
    pub target : r.target ≡ target_of f
    pub captured : w.files (join_name dir (flatten_path f.path)) ≡ some r.bytes
    pub sha : compute_etag digest r.bytes ≡ f.sha256

  -- A replacement of a managed target, made from an entry of the manifest.
  pub record IsReplacement (allowed : List FilePath) (files : List ManifestFile) (r : Replacement)
      : Type 0 where
    pub file : ManifestFile
    pub listed : Memᴰ file files
    pub managed : IsManaged allowed w file.path
    pub verified : IsVerified file r

module _ (digest debug : Text → Text) where
  pub check_primary-Observes :
      (primary : FilePath) (locked : List FilePath) (etag : Text)
      → Observes (check_primary digest debug primary locked etag)
  unfolding check_primary
  check_primary-Observes primary locked etag = Observes-bind _ _ (Observes-lift _) λ _.
      Observes-bind _ _ (Observes-attempt io _)
        λ _. Observes-bind _ _ (Observes-read io primary) λ _. Observes-lift _

  replacement_of-Observes :
      (dir : FilePath) (f : ManifestFile) → Observes (replacement_of digest debug dir f)
  unfolding replacement_of read_to_string
  replacement_of-Observes dir f = record { same = λ w. ground arith }

  pub replacements_of-Observes :
      (dir : FilePath) (files : List ManifestFile)
      → Observes (replacements_of digest debug dir files)
  unfolding replacements_of
  replacements_of-Observes dir [] = Observes-lift (ok [])
  replacements_of-Observes dir (f ∷ files) =
      Observes-bind _ _ (replacement_of-Observes dir f)
        λ _. Observes-bind _ _ (replacements_of-Observes dir files) λ _. Observes-lift _

  verified-sha :
      (captured : FilePath) (f : ManifestFile) (bytes : Text) {r : Replacement}
      → verified digest debug captured f bytes ≡ ok r
      → (r.target ≡ target_of f) × (r.bytes ≡ bytes) × (compute_etag digest bytes ≡ f.sha256)
  unfolding verified
  verified-sha captured f bytes {r} h =
      let same : text_eq (compute_etag digest bytes) f.sha256 ≡ true = ground arith in
      (ground arith, ground arith, (text_eq_iff _ _).0 same)

  replacement_of-IsVerified :
      (dir : FilePath) (f : ManifestFile) (w : World) {r : Replacement}
      → (replacement_of digest debug dir f w).0 ≡ ok r
      → IsVerified digest dir w f r
  unfolding replacement_of
  replacement_of-IsVerified dir f w {r} h =
      let path = join_name dir (flatten_path f.path) in
      let (bytes, got, made) = bind-ok _ _ w (Observes-read io path) h in
      let v = verified-sha path f bytes made in
      record {
        target = v.0;
        captured = read_to_string-ok io path w bytes got ∙ ap some (sym v.1);
        sha = ap (compute_etag digest) v.1 ∙ v.2;
      }

  replacements_of-from :
      (allowed : List FilePath) (dir : FilePath) (w : World) (all files : List ManifestFile)
      → ((f : ManifestFile) → Memᴰ f files → Memᴰ f all)
      → All (λ (f : ManifestFile). IsManaged allowed w f.path) files
      → {rs : List Replacement} → (replacements_of digest debug dir files w).0 ≡ ok rs
      → All (IsReplacement digest dir w allowed all) rs
  unfolding replacements_of
  replacements_of-from allowed dir w all [] sub managed {rs} h =
      let e : [] ≡ rs = ground arith in subst (All (IsReplacement digest dir w allowed all)) e tt
  replacements_of-from allowed dir w all (f ∷ files) sub managed {rs} h =
      let (r, made, rest) = bind-ok _ _ w (replacement_of-Observes dir f) h in
      let (rs', more, done) = bind-ok _ _ w (replacements_of-Observes dir files) rest in
      let e : r ∷ rs' ≡ rs = ground arith in
      subst (All (IsReplacement digest dir w allowed all)) e (
        record {
          file = f;
          listed = sub f (Memᴰ.head refl);
          managed = managed.0;
          verified = replacement_of-IsVerified dir f w made;
        },
        replacements_of-from allowed dir w all files (λ g m. sub g (Memᴰ.tail m)) managed.1 more,
      )

  pub replacements_of-IsReplacement :
      (allowed : List FilePath) (dir : FilePath) (w : World) (files : List ManifestFile)
      → All (λ (f : ManifestFile). IsManaged allowed w f.path) files
      → {rs : List Replacement} → (replacements_of digest debug dir files w).0 ≡ ok rs
      → All (IsReplacement digest dir w allowed files) rs
  replacements_of-IsReplacement allowed dir w files managed h =
      replacements_of-from allowed dir w files files (λ f m. m) managed h

  -- Every entry of the manifest has its replacement.
  pub replacements_of-covers :
      (dir : FilePath) (w : World) (files : List ManifestFile) {rs : List Replacement}
      → (replacements_of digest debug dir files w).0 ≡ ok rs
      → (f : ManifestFile) → Memᴰ f files
      → (r : Replacement) × Memᴰ r rs × (r.target ≡ target_of f)
  unfolding replacements_of
  replacements_of-covers dir w [] h f m = absurd (Memᴰ.not-nil m)
  replacements_of-covers dir w (g ∷ files) {rs} h f m =
      let (r, made, rest) = bind-ok _ _ w (replacement_of-Observes dir g) h in
      let (rs', more, done) = bind-ok _ _ w (replacements_of-Observes dir files) rest in
      let e : r ∷ rs' ≡ rs = ground arith in
      subst (λ (l : List Replacement). (s : Replacement) × Memᴰ s l × (s.target ≡ target_of f)) e
        (elim (Memᴰ.cases_cons m) [
          | inl here ↦ (
            r,
            Memᴰ.head refl,
            (replacement_of-IsVerified dir g w made).target ∙ ap target_of (sym here),
          )
          | inr later ↦
              let (s, ms, t) = replacements_of-covers dir w files more f later in
              (s, Memᴰ.tail ms, t)
        ])
