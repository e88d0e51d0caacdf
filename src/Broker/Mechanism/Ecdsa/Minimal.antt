-- ===== src/Broker/Mechanism/Ecdsa/Minimal.antt =====
-- The contents of an INTEGER: the value's bytes with no needless zero and a clear sign bit.
use xdg_desktop_portal_certi.Base.{
  ℕ, ◌+◌, ◌*◌, ◌%◌, ◌≤◌, ◌<◌, ◌≡◌, refl, sym, inl, inr, [], ◌∷◌, arith, ◌==◌, ==_iff, if◌then◌else◌,
  Bool-cases, bit_and, length, Bytes, AllBytes,
}
use xdg_desktop_portal_certi.Base.Bits.{bit_and_high}
use xdg_desktop_portal_certi.Broker.Mechanism.Ecdsa.{strip_zeros, high_bit, der_integer}
use xdg_desktop_portal_certi.Module.Der.{der_encode}
use xdg_desktop_portal_certi.Module.Der.Encode.{encode_short}

-- The number that bytes write, highest first, behind a number already read.
unfoldable pub big_endian : ℕ → Bytes → ℕ
big_endian acc [] = acc
big_endian acc (b ∷ bs) = big_endian (acc * 256 + b) bs

-- The contents of a DER INTEGER that is not negative: at least one byte, the sign bit clear, and no
-- leading zero that could be left out.
abbrev pub IsInteger : Bytes → Type 0
IsInteger [] = ⊥
IsInteger (x ∷ []) = x < 128
IsInteger (x ∷ y ∷ r) = (x < 128) × (x ≡ 0 → 128 ≤ y)

pub contents : Bytes → Bytes
contents value = let v = strip_zeros value in if high_bit v then 0x00 ∷ v else v

strip_zeros-big_endian : (v : Bytes) → big_endian 0 (strip_zeros v) ≡ big_endian 0 v
unfolding strip_zeros big_endian
strip_zeros-big_endian [] = refl
strip_zeros-big_endian (x ∷ []) = refl
strip_zeros-big_endian (x ∷ y ∷ r) = elim (Bool-cases (x == 0)) [
  | inl e ↦
      let zero_head : x ≡ 0 = (==_iff x 0).0 e in rw (e, zero_head) (strip_zeros-big_endian (y ∷ r))
  | inr e ↦ rw e refl
]

pub length-strip_zeros : (v : Bytes) → length (strip_zeros v) ≤ length v
unfolding strip_zeros
length-strip_zeros [] = omega arith
length-strip_zeros (x ∷ []) = omega arith
length-strip_zeros (x ∷ y ∷ r) = ground (arith, length-strip_zeros (y ∷ r))

pub contents-IsInteger : (v : Bytes) → 0 < length v → AllBytes v → IsInteger (contents v)
unfolding contents strip_zeros high_bit
contents-IsInteger [] h bytes = absurd (omega arith)
contents-IsInteger (x ∷ []) h bytes = elim (Bool-cases (bit_and x 0x80 == 0)) [
  | inl e ↦ rw e (ground (arith, bit_and_high x bytes.0))
  | inr e ↦ rw e ((omega arith), (λ _. ground (arith, bit_and_high x bytes.0)))
]
contents-IsInteger (x ∷ y ∷ r) h bytes = elim (Bool-cases (x == 0)) [
  | inl e ↦ rw e (contents-IsInteger (y ∷ r) (omega arith) bytes.1)
  | inr e ↦ elim (Bool-cases (bit_and x 0x80 == 0)) [
    | inl e' ↦ rw (e, e') (ground (arith, bit_and_high x bytes.0), λ z. absurd (ground arith))
    | inr e' ↦ rw (e, e') (omega arith, λ _. ground (arith, bit_and_high x bytes.0))
  ]
]

pub contents-big_endian : (v : Bytes) → big_endian 0 (contents v) ≡ big_endian 0 v
unfolding contents big_endian
contents-big_endian v = elim (Bool-cases (high_bit (strip_zeros v))) [
  | inl e ↦ rw e (strip_zeros-big_endian v)
  | inr e ↦ rw e (strip_zeros-big_endian v)
]

pub length-contents : (v : Bytes) → length (contents v) ≤ length v + 1
unfolding contents
length-contents v = ground (arith, length-strip_zeros v)

-- The integer appended is the encoding of the contents, up to the single length byte.
pub der_integer-contents :
    (v : Bytes) → length v < 127 → der_integer v ≡ der_encode 0x02 (contents v)
unfolding der_integer contents
der_integer-contents v lt = elim (Bool-cases (high_bit (strip_zeros v))) [
  | inl e ↦
      let m : (length (strip_zeros v) + 1) % 256 ≡ length (strip_zeros v) + 1 =
        omega (arith, length-strip_zeros v) in
      rw (e, m)
        (sym (
          encode_short 0x02 (length (strip_zeros v) + 1) (0x00 ∷ strip_zeros v)
            (omega (arith, length-strip_zeros v)) (omega arith)))
  | inr e ↦
      let m : length (strip_zeros v) % 256 ≡ length (strip_zeros v) =
        omega (arith, length-strip_zeros v) in
      rw (e, m)
        (sym (
          encode_short 0x02 (length (strip_zeros v)) (strip_zeros v)
            (omega (arith, length-strip_zeros v)) refl))
]
