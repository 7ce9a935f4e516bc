-- ===== src/Error.antt =====
-- crates/core/src/error.rs: the error type that every layer returns, and Rust's `Result`.
use boot_control.Prelude.{◌++◌, Option, none, some, ◌≡◌, ◌⊎◌, inl, inr, refl}
use boot_control.Text.{Text, codes}

pub data BootControlError : Type 0 where
  state_mismatch : Text → Text → BootControlError
  key_not_found : Text → BootControlError
  malformed_value : Text → Text → BootControlError
  complex_bash_detected : Text → BootControlError
  polkit_denied : BootControlError
  esp_scan_failed : Text → BootControlError
  security_policy_violation : Text → BootControlError
  concurrent_modification : Text → BootControlError
  tool_not_found : Text → BootControlError
  nvram_backup_failed : Text → BootControlError
  mok_key_not_found : Text → BootControlError
  signing_failed : Text → BootControlError
  key_generation_failed : Text → BootControlError
  nvram_write_failed : Text → BootControlError
  immutable_distro_detected : Text → BootControlError

-- `Display for BootControlError`
unfoldable pub display_error : BootControlError → Text
display_error (state_mismatch expected actual) =
    codes "ETag mismatch: the file was modified externally. Expected "
    ++ (expected ++ (codes ", found " ++ (actual ++ codes ". Re-read the file and retry.")))
display_error (key_not_found key) = codes "Key not found in configuration: " ++ key
display_error (malformed_value key reason) =
    codes "Malformed value for key '" ++ (key ++ (codes "': " ++ reason))
display_error (complex_bash_detected offender) =
    codes
      "Configuration file contains complex Bash logic that BootControl cannot safely parse or modify ("
    ++ (offender ++ codes "). Simplify the file manually before using BootControl.")
display_error polkit_denied = codes "Authorization denied by Polkit policy or user"
display_error (esp_scan_failed reason) = codes "EFI System Partition scan failed: " ++ reason
display_error (security_policy_violation reason) = codes "Security policy violation: " ++ reason
display_error (concurrent_modification path) =
    codes "Cannot acquire exclusive lock on '"
    ++ (path
        ++ codes
            "': another process holds the file. Retry after the package manager or other tool finishes.")
display_error (tool_not_found tool) =
    codes "Required tool '"
    ++ (tool
        ++ (codes "' was not found on $PATH. Install the package that provides '"
            ++ (tool ++ codes "' and retry.")))
display_error (nvram_backup_failed reason) = codes "EFI NVRAM backup failed: " ++ reason
display_error (mok_key_not_found path) =
    codes "MOK key or certificate not found at '"
    ++ (path ++ codes "'. Ensure the MOK key and certificate are present before signing.")
display_error (signing_failed reason) = codes "Signing or enrollment operation failed: " ++ reason
display_error (key_generation_failed reason) = codes "Key generation failed: " ++ reason
display_error (nvram_write_failed reason) = codes "EFI NVRAM write failed: " ++ reason
display_error (immutable_distro_detected distro) =
    codes "Host is an immutable / atomic distro ("
    ++ (distro
        ++ codes
            "). BootControl will not modify the bootloader directly — use `rpm-ostree kargs` (Fedora atomic variants) or your distro's documented kernel-cmdline tool. The naive write would either fail on a read-only mount or be discarded on the next rebase.")

-- `Result<A, E>`, and `Result<A, BootControlError>`
pub data ResultOf {ℓ} (E : Type 0) (A : Type ℓ) : Type ℓ where
  err : E → ResultOf E A
  ok : A → ResultOf E A

abbrev pub Result {ℓ} : Type ℓ → Type ℓ
Result A = ResultOf BootControlError A

pub Result-cases {ℓ} :
    {E : Type 0} {T : Type ℓ} (reply : ResultOf E T)
    → ((t : T) × (reply ≡ ok t)) ⊎ ((why : E) × (reply ≡ err why))
Result-cases (err why) = inr (why, refl)
Result-cases (ok t) = inl (t, refl)

-- `Option::ok_or_else`
abbrev pub ok_or {ℓ} : {E : Type 0} {T : Type ℓ} → E → Option T → ResultOf E T
ok_or why none = err why
ok_or why (some t) = ok t

-- `?`, and `?` on a unit
infixl 5 ◌>>=◌ ◌>>◌
abbrev pub ◌>>=◌ {ℓ ℓ'} :
    {E : Type 0} {T : Type ℓ} {U : Type ℓ'} → ResultOf E T → (T → ResultOf E U) → ResultOf E U
err why >>= next = err why
ok t >>= next = next t

abbrev pub ◌>>◌ {ℓ} :
    {E : Type 0} {U : Type ℓ} → ResultOf E (Unit {0}) → ResultOf E U → ResultOf E U
err why >> next = err why
ok _ >> next = next

-- A chain succeeds when its first step and the rest on that step's result do.
pub bind-eq-ok {ℓ ℓ'} :
    {E : Type 0} {T : Type ℓ} {U : Type ℓ'} (reply : ResultOf E T) (next : T → ResultOf E U) {u : U}
    → (reply >>= next) ≡ ok u
    → (t : T) × (reply ≡ ok t) × (next t ≡ ok u)
bind-eq-ok (err why) next e = cc
bind-eq-ok (ok t) next e = (t, refl, e)

pub ok-injective : {E A : Type 0} {a b : A} → ◌≡◌ {A = ResultOf E A} (ok a) (ok b) → a ≡ b
ok-injective e = cc
