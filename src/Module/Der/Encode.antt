-- ===== src/Module/Der/Encode.antt =====
-- The encoder's header, in closed form.
use xdg_desktop_portal_certi.Base.{
  ℕ, ◌+◌, ◌*◌, ◌/◌, ◌%◌, ◌^◌, ◌<◌, ◌≤◌, ◌≡◌, ◌∷◌, ◌++◌, arith, ltb, ◌==◌, if◌then◌else◌, length,
  take-length, Bytes, [], ltb_refuted, Bool-cases, inl, inr, ◌∙◌,
}
use xdg_desktop_portal_certi.Base.Bits.{bit_or_mark}
use xdg_desktop_portal_certi.Module.Der.{byte_count, length_bytes, length_header, der_encode}

-- What the shift loop counts, for a length that four bytes hold.
pub byte_count_four :
    (n : ℕ)
    → n < 2 ^ 32
    → byte_count 8 n ≡ (
        if n == 0
        then 0
        else if ltb n 256
        then 1
        else if ltb n (2 ^ 16)
        then 2
        else if ltb n (2 ^ 24)
        then 3
        else 4)
unfolding byte_count
byte_count_four n h = ground arith

-- Eight rounds use up every 64-bit size, so the loop ends by its test.
pub byte_count_done : (n : ℕ) → n < 2 ^ 64 → n / 2 ^ (8 * byte_count 8 n) ≡ 0
unfolding byte_count
byte_count_done n h = ground arith

-- The length octets that DER allows for a length below 2 ^ 32: the short form below 128, else the
-- count of the digits and the digits to the base 256, with no leading zero.
pub data IsHeader : Bytes → ℕ → Type 0 where
  short : (n : ℕ) → n < 128 → IsHeader (n ∷ []) n
  long_one : (a : ℕ) → 128 ≤ a → a < 256 → IsHeader (129 ∷ a ∷ []) a
  long_two : (a b : ℕ) → 0 < a → a < 256 → b < 256 → IsHeader (130 ∷ a ∷ b ∷ []) (a * 256 + b)
  long_three :
      (a b c : ℕ)
      → 0 < a
      → a < 256
      → b < 256
      → c < 256
      → IsHeader (131 ∷ a ∷ b ∷ c ∷ []) ((a * 256 + b) * 256 + c)
  long_four :
      (a b c d : ℕ)
      → 0 < a
      → a < 256
      → b < 256
      → c < 256
      → d < 256
      → IsHeader (132 ∷ a ∷ b ∷ c ∷ d ∷ []) (((a * 256 + b) * 256 + c) * 256 + d)

-- The long form, once the number of length bytes is known.
length_header_long :
    (n k : ℕ)
    → 128 ≤ n
    → k < 9
    → byte_count 8 n ≡ k
    → length_header n ≡ (128 + k) ∷ length_bytes k n
unfolding length_header
length_header_long n k h hk e =
    let m : (128 + k) % 256 ≡ 128 + k = omega arith in
    rw (ltb_refuted n 128 h, e, bit_or_mark k (omega arith), m)

-- Each header is the one that the encoder writes: a length has one header.
pub length_header-IsHeader : {h : Bytes} {n : ℕ} → IsHeader h n → length_header n ≡ h
unfolding length_header length_bytes
length_header-IsHeader (short n lt) = ground arith
length_header-IsHeader (long_one a lo hi) =
    length_header_long a 1 lo (omega arith) (byte_count_four a (omega arith) ∙ ground arith)
    ∙ ground arith
length_header-IsHeader (long_two a b pos ha hb) =
    let n = a * 256 + b in
    length_header_long n 2 (omega arith) (omega arith)
      (byte_count_four n (omega arith) ∙ ground arith)
    ∙ ground arith
length_header-IsHeader (long_three a b c pos ha hb hc) =
    let n = (a * 256 + b) * 256 + c in
    length_header_long n 3 (omega arith) (omega arith)
      (byte_count_four n (omega arith) ∙ ground arith)
    ∙ ground arith
length_header-IsHeader (long_four a b c d pos ha hb hc hd) =
    let n = ((a * 256 + b) * 256 + c) * 256 + d in
    length_header_long n 4 (omega arith) (omega arith)
      (byte_count_four n (omega arith) ∙ ground arith)
    ∙ ground arith

abbrev low : ℕ → ℕ
low n = n % 256

-- Every length that four bytes hold has a header.
four_bytes_suffice : (n : ℕ) → n < 2 ^ 32 → (h : Bytes) × IsHeader h n
four_bytes_suffice n lt = elim (Bool-cases (ltb n 128)) [
  | inl small ↦ (n ∷ [], short n (ground arith))
  | inr big ↦ elim (Bool-cases (ltb n 256)) [
    | inl one ↦ (129 ∷ n ∷ [], long_one n (ground arith) (ground arith))
    | inr more ↦ elim (Bool-cases (ltb n (2 ^ 16))) [
      | inl two ↦
          let e : n / 256 * 256 + low n ≡ n = omega arith in
          (
            130 ∷ (n / 256) ∷ low n ∷ [],
            rw e at (long_two (n / 256) (low n) (ground arith) (ground arith) (omega arith)),
          )
      | inr more ↦ elim (Bool-cases (ltb n (2 ^ 24))) [
        | inl three ↦
            let e : (n / 65536 * 256 + low (n / 256)) * 256 + low n ≡ n = omega arith in
            (
              131 ∷ (n / 65536) ∷ low (n / 256) ∷ low n ∷ [],
              rw e at (
                  long_three (n / 65536) (low (n / 256)) (low n) (ground arith) (ground arith)
                    (omega arith) (omega arith)),
            )
        | inr more ↦
            let e : ((n / 16777216 * 256 + low (n / 65536)) * 256 + low (n / 256)) * 256 + low n
                ≡ n =
              omega arith in
            (
              132 ∷ (n / 16777216) ∷ low (n / 65536) ∷ low (n / 256) ∷ low n ∷ [],
              rw e at (
                  long_four (n / 16777216) (low (n / 65536)) (low (n / 256)) (low n) (ground arith)
                    (ground arith) (omega arith) (omega arith) (omega arith)),
            )
      ]
    ]
  ]
]

pub length_header_is : (n : ℕ) → n < 2 ^ 32 → IsHeader (length_header n) n
length_header_is n lt = let (h, is) = four_bytes_suffice n lt in rw (length_header-IsHeader is) is

pub der_encode_eq :
    (tag : ℕ) (value : Bytes)
    → length value < 2 ^ 32
    → der_encode tag value ≡ tag ∷ (length_header (length value) ++ value)
unfolding der_encode
der_encode_eq tag value h =
    let e : length value % 2 ^ 32 ≡ length value = omega arith in rw (e, take-length value)

-- A value below 128 bytes has a header of two.
pub encode_short :
    (tag n : ℕ) (value : Bytes)
    → n < 128
    → length value ≡ n
    → der_encode tag value ≡ tag ∷ n ∷ value
encode_short tag n value lt e =
    der_encode_eq tag value (omega arith) ∙ rw (e, length_header-IsHeader (short n lt))
