-- ===== src/Uefi/Payloads.antt =====
-- crates/core/src/uefi_vars.rs: the encoders and the parsers are inverse.
use boot_control.Prelude.{
  ℕ, ◌+◌, ◌*◌, ◌/◌, ◌%◌, ◌<◌, ◌≡◌, ◌↔◌, refl, ap, Bool, true, false, List, [], ◌∷◌, arith, All,
  length, sym, ◌∙◌, ◌==◌, subst, if◌then◌else◌, ◌&&◌, ==_iff, not,
}
use boot_control.Text.{Text}
use boot_control.Error.{ok}
use boot_control.Uefi.{
  Bytes, EfiAttributes, has_bit, from_u32, to_u32, bit_or, u16_from_le_bytes, u16_to_le_bytes,
  decode_chunks, parse_boot_order, encode_boot_order, parse_single_u16_var, encode_single_u16_var,
}

abbrev pub IsByte : ℕ → Type 0
IsByte b = b < 256

abbrev pub IsU16 : ℕ → Type 0
IsU16 n = n < 65536

u16_round : (n : ℕ) → IsU16 n → u16_from_le_bytes (n % 256) (n / 256 % 256) ≡ n
unfolding u16_from_le_bytes
u16_round n h = omega arith

decode-encode : (order : List ℕ) → All IsU16 order → decode_chunks (encode_boot_order order) ≡ order
unfolding encode_boot_order decode_chunks u16_to_le_bytes
decode-encode [] h = refl
decode-encode (n ∷ order) h = rw (u16_round n h.0, decode-encode order h.1) refl

encode-even : (order : List ℕ) → length (encode_boot_order order) ≡ 2 * length order
unfolding encode_boot_order u16_to_le_bytes
encode-even [] = omega arith
encode-even (n ∷ order) = omega (arith, encode-even order)

pub parse-encode_boot_order :
    (order : List ℕ) → All IsU16 order → parse_boot_order (encode_boot_order order) ≡ ok order
unfolding parse_boot_order
parse-encode_boot_order order h =
    let even : length (encode_boot_order order) % 2 ≡ 0 = omega (arith, encode-even order) in
    rw (even, decode-encode order h) refl

encode-decode :
    (payload : Bytes)
    → All IsByte payload
    → length payload % 2 ≡ 0
    → encode_boot_order (decode_chunks payload) ≡ payload
unfolding encode_boot_order decode_chunks u16_to_le_bytes u16_from_le_bytes
encode-decode [] h e = refl
encode-decode (a ∷ []) h e = absurd (omega (arith, e))
encode-decode (a ∷ b ∷ bytes) h e =
    let low : (a + 256 * b) % 256 ≡ a = omega (arith, h.0, h.1.0) in
    let high : (a + 256 * b) / 256 % 256 ≡ b = omega (arith, h.0, h.1.0) in
    rw (low, high, encode-decode bytes h.1.1 (omega (arith, e))) refl

decode-IsU16 : (payload : Bytes) → All IsByte payload → All IsU16 (decode_chunks payload)
unfolding decode_chunks u16_from_le_bytes
decode-IsU16 [] h = tt
decode-IsU16 (a ∷ []) h = tt
decode-IsU16 (a ∷ b ∷ bytes) h = (omega (arith, h.0, h.1.0), decode-IsU16 bytes h.1.1)

-- A payload of bytes parses to an order exactly when the order is of 16-bit indices and the payload
-- is its encoding.
pub parse_boot_order_iff :
    (payload : Bytes) (order : List ℕ)
    → All IsByte payload
    → (parse_boot_order payload ≡ ok order)
      ↔ (All IsU16 order × (payload ≡ encode_boot_order order))
unfolding parse_boot_order
parse_boot_order_iff payload order h = (
  λ e.
      let facts : (length payload % 2 ≡ 0) × (decode_chunks payload ≡ order) = ground arith in
      (
        subst (All IsU16) facts.1 (decode-IsU16 payload h),
        sym (encode-decode payload h facts.0) ∙ ap encode_boot_order facts.1,
      ),
  λ f. rw f.1 (parse-encode_boot_order order f.0),
)

-- A 16-bit index that is encoded for BootNext or BootCurrent is read back.
pub parse-encode_single_u16_var :
    (name : Text) (index : ℕ)
    → IsU16 index
    → parse_single_u16_var name (encode_single_u16_var index) ≡ ok index
unfolding parse_single_u16_var encode_single_u16_var u16_to_le_bytes
parse-encode_single_u16_var name index h = ap ok (u16_round index h)

abbrev bit_value : ℕ → Bool → ℕ
bit_value w b = if b then w else 0

abbrev all_bools : (Bool → Bool) → Bool
all_bools f = f true && f false

all_bools_lem : (f : Bool → Bool) → all_bools f ≡ true → (b : Bool) → f b ≡ true
all_bools_lem f h true = ground arith
all_bools_lem f h false = ground arith

abbrev flags : Bool → Bool → Bool → Bool → Bool → Bool → Bool → EfiAttributes
flags a b c d e f g = record {
  non_volatile = a;
  bootservice_access = b;
  runtime_access = c;
  hardware_error_record = d;
  authenticated_write_access = e;
  time_based_authenticated_write_access = f;
  append_write = g;
}

abbrev weights : EfiAttributes → ℕ
weights attrs =
    bit_value 1 attrs.non_volatile
    + bit_value 2 attrs.bootservice_access
    + bit_value 4 attrs.runtime_access
    + bit_value 8 attrs.hardware_error_record
    + bit_value 16 attrs.authenticated_write_access
    + bit_value 32 attrs.time_based_authenticated_write_access
    + bit_value 64 attrs.append_write

abbrev all_flags : (EfiAttributes → Bool) → Bool
all_flags p = all_bools (λ a. all_bools (λ b. all_bools (λ c.
    all_bools (λ d. all_bools (λ e. all_bools (λ f. all_bools (λ g. p (flags a b c d e f g))))))))

-- A test of the attributes that passes for the 128 values passes for every value.
all_flags_lem :
    (p : EfiAttributes → Bool) → all_flags p ≡ true → (attrs : EfiAttributes) → p attrs ≡ true
all_flags_lem p h attrs =
    let h0 =
      all_bools_lem
        (λ a. all_bools (λ b. all_bools (λ c.
          all_bools
            (λ d. all_bools (λ e. all_bools (λ f. all_bools (λ g. p (flags a b c d e f g))))))))
        h attrs.non_volatile in
    let h1 =
      all_bools_lem
        (λ b. all_bools (λ c. all_bools (λ d.
          all_bools
            (λ e. all_bools (λ f. all_bools (λ g. p (flags attrs.non_volatile b c d e f g)))))))
        h0 attrs.bootservice_access in
    let h2 =
      all_bools_lem
        (λ c. all_bools (λ d. all_bools (λ e.
          all_bools (λ f.
            all_bools (λ g. p (flags attrs.non_volatile attrs.bootservice_access c d e f g))))))
        h1 attrs.runtime_access in
    let h3 =
      all_bools_lem
        (λ d. all_bools (λ e. all_bools (λ f. all_bools (λ g.
          p (flags attrs.non_volatile attrs.bootservice_access attrs.runtime_access d e f g)))))
        h2 attrs.hardware_error_record in
    let h4 =
      all_bools_lem
        (λ e. all_bools (λ f. all_bools (λ g. p (
          flags attrs.non_volatile attrs.bootservice_access attrs.runtime_access
            attrs.hardware_error_record e f g))))
        h3 attrs.authenticated_write_access in
    let h5 =
      all_bools_lem
        (λ f. all_bools (λ g. p (
          flags attrs.non_volatile attrs.bootservice_access attrs.runtime_access
            attrs.hardware_error_record attrs.authenticated_write_access f g)))
        h4 attrs.time_based_authenticated_write_access in
    all_bools_lem
      (λ g. p (
        flags attrs.non_volatile attrs.bootservice_access attrs.runtime_access
          attrs.hardware_error_record attrs.authenticated_write_access
          attrs.time_based_authenticated_write_access g))
      h5 attrs.append_write

abbrev weights_fit : EfiAttributes → Bool
weights_fit attrs = to_u32 attrs == weights attrs

all_weights_fit : all_flags weights_fit ≡ true
unfolding to_u32 bit_or
all_weights_fit = refl

to_u32-weights : (attrs : EfiAttributes) → to_u32 attrs ≡ weights attrs
to_u32-weights attrs = (==_iff _ _).0 (all_flags_lem weights_fit all_weights_fit attrs)

bit_value-has_bit :
    (raw : ℕ)
    → (bit_value 1 (has_bit raw 1) ≡ raw % 2)
      × ((bit_value 2 (has_bit raw 2) + raw % 2 ≡ raw % 4)
          × ((bit_value 4 (has_bit raw 4) + raw % 4 ≡ raw % 8)
              × ((bit_value 8 (has_bit raw 8) + raw % 8 ≡ raw % 16)
                  × ((bit_value 16 (has_bit raw 16) + raw % 16 ≡ raw % 32)
                      × ((bit_value 32 (has_bit raw 32) + raw % 32 ≡ raw % 64)
                          × (bit_value 64 (has_bit raw 64) + raw % 64 ≡ raw % 128))))))
unfolding has_bit
bit_value-has_bit raw = (
  ground arith,
  (ground arith, (ground arith, (ground arith, (ground arith, (ground arith, ground arith))))),
)

-- The attributes decoded from a 32-bit word encode to its low seven bits.
pub to_u32-from_u32 : (raw : ℕ) → to_u32 (from_u32 raw) ≡ raw % 128
unfolding from_u32
to_u32-from_u32 raw = omega (arith, to_u32-weights (from_u32 raw), bit_value-has_bit raw)

abbrev same : Bool → Bool → Bool
same true b = b
same false b = not b

same_lem : (a b : Bool) → same a b ≡ true → a ≡ b
same_lem true b h = sym h
same_lem false b h = ground arith

abbrev same_attributes : EfiAttributes → EfiAttributes → Bool
same_attributes a b =
    same a.non_volatile b.non_volatile
    && same a.bootservice_access b.bootservice_access
    && same a.runtime_access b.runtime_access
    && same a.hardware_error_record b.hardware_error_record
    && same a.authenticated_write_access b.authenticated_write_access
    && same a.time_based_authenticated_write_access b.time_based_authenticated_write_access
    && same a.append_write b.append_write

same_attributes_lem : (a b : EfiAttributes) → same_attributes a b ≡ true → a ≡ b
same_attributes_lem a b h = grind (arith, same_lem)

all_same : all_flags (λ attrs. same_attributes (from_u32 (to_u32 attrs)) attrs) ≡ true
unfolding to_u32 from_u32 bit_or has_bit
all_same = refl

-- Attributes are read back from the word that they encode to, and a word that is decoded encodes to
-- its low seven bits.
pub attributes-round_trip :
    (attrs : EfiAttributes) (raw : ℕ)
    → (from_u32 (to_u32 attrs) ≡ attrs) × (to_u32 (from_u32 raw) ≡ raw % 128)
attributes-round_trip attrs raw = (
  same_attributes_lem _ attrs
      (all_flags_lem (λ a. same_attributes (from_u32 (to_u32 a)) a) all_same attrs),
  to_u32-from_u32 raw,
)
