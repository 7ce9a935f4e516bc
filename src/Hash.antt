-- ===== src/Hash.antt =====
-- crates/core/src/hash.rs: ETags. SHA-256 and its hexadecimal form are not in the repository: they
-- are the argument `digest`. Texts stand for their UTF-8 bytes, which determine them.
use boot_control.Prelude.{Bool, true, ◌&&◌, ◌∷◌, ◌≡◌, ◌↔◌, arith, ◌==◌, length}
use boot_control.Text.{Text}

unfoldable pub compute_etag : (Text → Text) → Text → Text
compute_etag digest content = digest content

-- `zip(..).all(|(a, b)| a == b)`: stops at the end of the shorter one.
unfoldable pub zip_all_eq : Text → Text → Bool
zip_all_eq (a ∷ s) (b ∷ t) = a == b && zip_all_eq s t
zip_all_eq _ _ = true

unfoldable pub verify_etag : (Text → Text) → Text → Text → Bool
unfolding zip_all_eq compute_etag
verify_etag digest claimed_etag current_content =
    let actual = compute_etag digest current_content in
    length claimed_etag == length actual && zip_all_eq claimed_etag actual

zip_all_eq_iff : (s t : Text) → ((length s == length t && zip_all_eq s t) ≡ true) ↔ (s ≡ t)
unfolding zip_all_eq
zip_all_eq_iff (a ∷ s) (b ∷ t) =
    (λ h. ground (arith, zip_all_eq_iff s t), λ h. ground (arith, zip_all_eq_iff s t))
zip_all_eq_iff _ _ = (λ h. ground arith, λ h. ground arith)

-- A claimed ETag is accepted exactly when it is the ETag of the current content.
pub verify_etag_iff :
    (digest : Text → Text) (claimed content : Text)
    → (verify_etag digest claimed content ≡ true) ↔ (claimed ≡ compute_etag digest content)
unfolding verify_etag compute_etag
verify_etag_iff digest claimed content = zip_all_eq_iff claimed (digest content)
