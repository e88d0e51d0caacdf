-- ===== src/Module/Der/RoundTrip.antt =====
-- Reading what the encoder wrote.
use xdg_desktop_portal_certi.Base.{
  ℕ, ◌+◌, ◌*◌, ◌%◌, ◌^◌, ◌<◌, ◌≡◌, ◌≢◌, false, ◌∷◌, ◌++◌, some, arith, ltb, ◌==◌, length,
  length-append, take-length-append, append_assoc, Bytes, bit_and, refl, ◌∙◌,
}
use xdg_desktop_portal_certi.Base.Bits.{bit_and_high, bit_and_tag}
use xdg_desktop_portal_certi.Module.Der.{
  DerTlv, length_header, der_encode, der_read, read_value, read_long,
}
use xdg_desktop_portal_certi.Module.Der.Encode.{
  IsHeader, short, long_one, long_two, long_three, long_four, der_encode_eq, length_header_is,
}
use xdg_desktop_portal_certi.Module.Der.Length.{
  read_length_one, read_length_two, read_length_three, read_length_four,
}

-- A one-byte tag: five low bits of ones announce a longer one.
abbrev pub IsTag : ℕ → Type 0
IsTag tag = (tag < 256) × (tag % 32 ≢ 31)

-- What the reader reports for a value behind `header` bytes.
abbrev pub tlv : ℕ → Bytes → ℕ → DerTlv
tlv tag value header = record {
  tag = tag;
  value = value;
  length_of = length value;
  consumed = header + length value;
}

read_value-append :
    (tag : ℕ) (value rest : Bytes) (n offset : ℕ)
    → length value ≡ n
    → read_value tag (value ++ rest) n offset ≡ some (tlv tag value offset)
unfolding read_value
read_value-append tag value rest n offset e =
    let room : ltb (length (value ++ rest)) (length value) ≡ false =
      ground (arith, length-append value rest) in
    rw (← e) (rw room (rw (take-length-append value rest)))

one_byte_tag : (tag : ℕ) → IsTag tag → (bit_and tag 0x1f == 0x1f) ≡ false
one_byte_tag tag (lt, ne) = ground (arith, bit_and_tag tag lt)

-- A value behind any of its headers is read back, whatever follows it.
pub der_read-IsHeader :
    {h : Bytes} {n : ℕ} (tag : ℕ) (value rest : Bytes)
    → IsHeader h n
    → IsTag tag
    → length value ≡ n
    → der_read (tag ∷ (h ++ (value ++ rest))) ≡ some (tlv tag value (1 + length h))
unfolding der_read read_long
der_read-IsHeader tag value rest (short n lt) t e =
    rw (one_byte_tag tag t) (ground (arith, bit_and_high n, read_value-append tag value rest n 2 e))
der_read-IsHeader tag value rest (long_one a lo hi) t e = rw (one_byte_tag tag t) (
    ground (
      arith,
      read_length_one a hi,
      length-append value rest,
      read_value-append tag value rest a 3 e,
    ))
der_read-IsHeader tag value rest (long_two a b pos ha hb) t e = rw (one_byte_tag tag t) (
    ground (
      arith,
      read_length_two a ha b hb,
      length-append value rest,
      read_value-append tag value rest (a * 256 + b) 4 e,
    ))
der_read-IsHeader tag value rest (long_three a b c pos ha hb hc) t e = rw (one_byte_tag tag t) (
    ground (
      arith,
      read_length_three a ha b c hb hc,
      length-append value rest,
      read_value-append tag value rest ((a * 256 + b) * 256 + c) 5 e,
    ))
der_read-IsHeader tag value rest (long_four a b c d pos ha hb hc hd) t e = rw (one_byte_tag tag t) (
    ground (
      arith,
      read_length_four a ha b c d hb hc hd,
      length-append value rest,
      read_value-append tag value rest (((a * 256 + b) * 256 + c) * 256 + d) 6 e,
    ))

-- Reading the encoding of a value, with anything behind it, gives back the tag and the value,
-- and consumes exactly the encoding.
pub der_read-encode :
    (tag : ℕ) (value rest : Bytes)
    → IsTag tag
    → length value < 2 ^ 32
    → der_read (der_encode tag value ++ rest)
      ≡ some (record {
        tag = tag;
        value = value;
        length_of = length value;
        consumed = length (der_encode tag value);
      })
der_read-encode tag value rest t lt =
    rw
      (der_encode_eq tag value lt, append_assoc, length-append (length_header (length value)) value)
      (der_read-IsHeader tag value rest (length_header_is (length value) lt) t refl ∙ ground arith)
