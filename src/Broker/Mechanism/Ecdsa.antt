-- ===== src/Broker/Mechanism/Ecdsa.antt =====
-- `certificate_ecdsa_raw_to_der` of src/broker/mechanism.c: a raw signature r ‖ s as a DER SEQUENCE of
-- two INTEGERs.
pub mod Minimal
pub mod Sequence
use xdg_desktop_portal_certi.Base.{
  ℕ, ◌+◌, ◌/◌, ◌%◌, Bool, true, false, not, ◌||◌, [], ◌∷◌, ◌++◌, ◌==◌, ltb, leb, if◌then◌else◌,
  bit_and, length, take, drop, Bytes,
}
use xdg_desktop_portal_certi.Base.Result.{Result, ok, err, invalid_data}

-- `while (start + 1 < length && value[start] == 0) start++`: what `value + start` points to.
unfoldable pub strip_zeros : Bytes → Bytes
strip_zeros [] = []
strip_zeros (x ∷ []) = x ∷ []
strip_zeros (x ∷ y ∷ r) = let rest = strip_zeros (y ∷ r) in if x == 0 then rest else x ∷ y ∷ r

-- `value[start] & 0x80`.
unfoldable pub high_bit : Bytes → Bool
high_bit [] = false
high_bit (x ∷ r) = not (bit_and x 0x80 == 0)

-- What `append_der_integer` appends. The length is one byte.
unfoldable pub der_integer : Bytes → Bytes
der_integer value =
    let v = strip_zeros value in
    0x02 ∷ (if high_bit v then ((length v + 1) % 256) ∷ 0x00 ∷ v else (length v % 256) ∷ v)

-- The length bytes of the sequence.
unfoldable pub sequence_header : ℕ → Bytes
sequence_header n =
    if ltb n 0x80
    then (n % 256) ∷ []
    else if leb n 0xff
    then 0x81 ∷ (n % 256) ∷ []
    else 0x82 ∷ (n / 256 % 256) ∷ (n % 256) ∷ []

unfoldable pub raw_to_der : Bytes → Result Bytes
raw_to_der signature =
    let half = length signature / 2 in
    let body = der_integer (take half signature) ++ der_integer (take half (drop half signature)) in
    if length signature == 0 || not (length signature % 2 == 0)
    then err invalid_data
    else ok (0x30 ∷ (sequence_header (length body) ++ body))
