-- ===== src/Tests/DerRuns.antt =====
-- The DER reader and encoder at concrete inputs.
use xdg_desktop_portal_certi.Base.{◌≡◌, refl, [], ◌∷◌, ◌++◌, none, some, arith, length, Bytes}
use xdg_desktop_portal_certi.Module.Der.{
  DerTlv, der_encode, der_read, read_value, read_long, read_length,
}
use xdg_desktop_portal_certi.Module.Der.Read.{Reads, der_read-Reads}
use xdg_desktop_portal_certi.Module.Der.RoundTrip.{der_read-encode}

abbrev two_bytes : Bytes
two_bytes = 0x04 ∷ 0x02 ∷ 0x07 ∷ 0x09 ∷ 0xff ∷ []

abbrev two_bytes_tlv : DerTlv
two_bytes_tlv = record { tag = 0x04; value = 0x07 ∷ 0x09 ∷ []; length_of = 2; consumed = 4 }

read_two_bytes : der_read two_bytes ≡ some two_bytes_tlv
unfolding der_read read_value
read_two_bytes = refl

-- A long form that the short form could hold, and one with a leading zero.
refuses_padding :
    (der_read (0x04 ∷ 0x81 ∷ 0x01 ∷ 0x07 ∷ []) ≡ none)
    × (der_read (0x04 ∷ 0x82 ∷ 0x00 ∷ 0x01 ∷ 0x07 ∷ []) ≡ none)
unfolding der_read read_long read_length
refuses_padding = (refl, refl)

der_read-Reads_example : Reads two_bytes two_bytes_tlv
der_read-Reads_example = der_read-Reads two_bytes two_bytes_tlv (omega arith) read_two_bytes

der_read-encode_example :
    der_read (der_encode 0x04 (0x07 ∷ 0x09 ∷ []) ++ 0xff ∷ [])
    ≡ some (record {
      tag = 0x04;
      value = 0x07 ∷ 0x09 ∷ [];
      length_of = 2;
      consumed = length (der_encode 0x04 (0x07 ∷ 0x09 ∷ []));
    })
der_read-encode_example =
    der_read-encode 0x04 (0x07 ∷ 0x09 ∷ []) (0xff ∷ []) (omega arith) (omega arith)
