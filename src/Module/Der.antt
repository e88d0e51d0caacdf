-- ===== src/Module/Der.antt =====
-- src/module/der.c: the strict reader and the encoder of definite-length DER values.
-- An array is a list of bytes, and a pointer into one with the bytes behind it the rest of the
-- list. A NULL pointer is the empty list, which the first guard refuses in the same way.
mod Length
pub mod Encode
pub mod Read
pub mod RoundTrip
use xdg_desktop_portal_certi.Base.{
  ℕ, zero, suc, ◌+◌, ◌-◌, ◌*◌, ◌/◌, ◌%◌, ◌^◌, bit_and, bit_or, List, [], ◌∷◌, ◌++◌, ◌||◌, Option,
  none, some, ltb, ◌==◌, if◌then◌else◌, length, take, drop, Bytes,
}

-- `PortalDerTlv`. The value is the `length` bytes that the source's pointer begins.
pub record DerTlv : Type 0 where
  pub tag : ℕ
  pub value : Bytes
  pub length_of : ℕ
  pub consumed : ℕ

-- The common end: `length > size - offset`, then the result.
unfoldable pub read_value : ℕ → Bytes → ℕ → ℕ → Option DerTlv
read_value tag body len offset =
    if ltb (length body) len
    then none
    else some
        (record { tag = tag; value = take len body; length_of = len; consumed = offset + len })

-- `length = (length << 8) | data[2 + i]`, on a 64-bit `gsize`.
unfoldable pub read_length : ℕ → Bytes → ℕ
read_length len [] = len
read_length len (b ∷ bs) = read_length (bit_or (len * 256 % 2 ^ 64) b) bs

-- The long form: `rest` is `data + 2`.
unfoldable pub read_long : ℕ → Bytes → ℕ → Option DerTlv
read_long tag [] count = none
read_long tag (b ∷ bs) count =
    let rest = b ∷ bs in
    let len = read_length 0 (take count rest) in
    if count == 0 || ltb 4 count || ltb (2 + length rest) (2 + count)
    then none
    else if b == 0
    then none
    else if ltb len 0x80
    then none
    else read_value tag (drop count rest) len (2 + count)

unfoldable pub der_read : Bytes → Option DerTlv
der_read [] = none
der_read (tag ∷ []) = none
der_read (tag ∷ first ∷ rest) =
    if bit_and tag 0x1f == 0x1f
    then none
    else if bit_and first 0x80 == 0
    then read_value tag rest first 2
    else read_long tag rest (bit_and first 0x7f)

unfoldable pub with_tag : ℕ → Option DerTlv → Option DerTlv
with_tag tag none = none
with_tag tag (some t) = if t.tag == tag then some t else none

unfoldable pub der_read_tag : Bytes → ℕ → Option DerTlv
unfolding with_tag
der_read_tag input tag = with_tag tag (der_read input)

-- `while (remaining != 0) { count++; remaining >>= 8; }`: a `gsize` is gone after eight rounds.
unfoldable pub byte_count : ℕ → ℕ → ℕ
byte_count zero remaining = 0
byte_count (suc fuel) remaining =
    let rest = byte_count fuel (remaining / 256) in if remaining == 0 then 0 else suc rest

-- The `count` low bytes of `size`, highest first.
unfoldable pub length_bytes : ℕ → ℕ → Bytes
length_bytes zero size = []
length_bytes (suc k) size = (size / 2 ^ (8 * k) % 256) ∷ length_bytes k size

unfoldable pub length_header : ℕ → Bytes
unfolding byte_count length_bytes
length_header size =
    let count = byte_count 8 size in
    if ltb size 0x80 then size ∷ [] else (bit_or 0x80 count % 256) ∷ length_bytes count size

-- `g_byte_array_append` takes a 32-bit length.
unfoldable pub der_encode : ℕ → Bytes → Bytes
unfolding length_header
der_encode tag value = tag ∷ (length_header (length value) ++ take (length value % 2 ^ 32) value)
