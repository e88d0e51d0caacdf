-- ===== src/Module/Mechanism/DigestInfo/Parses.antt =====
-- The parser of a DigestInfo reads every encoding of the specification.
use xdg_desktop_portal_certi.Base.{
  ℕ, ◌+◌, ◌^◌, ◌<◌, ◌≡◌, refl, ap, inl, inr, [], ◌∷◌, ◌++◌, append-nil, some, arith, find, length,
  length-append, drop-length-append, Bytes,
}
use xdg_desktop_portal_certi.Module.Der.{
  DerTlv, length_header, der_encode, der_read, read_value, der_read_tag, with_tag,
}
use xdg_desktop_portal_certi.Module.Der.Encode.{der_encode_eq, length_header-IsHeader, short}
use xdg_desktop_portal_certi.Module.Der.RoundTrip.{IsTag, der_read-encode}
use xdg_desktop_portal_certi.Module.Mechanism.{
  HashEntry, oid_entry, null_parameters, digestinfo_parse,
}
use xdg_desktop_portal_certi.Module.Mechanism.DigestInfo.{IsNull, digest_info, IsDigestInfo}

-- Reading an encoding at its own tag, with anything behind it.
der_read_tag-encode :
    (tag : ℕ) (value rest : Bytes)
    → IsTag tag
    → length value < 2 ^ 32
    → der_read_tag (der_encode tag value ++ rest) tag
      ≡ some (record {
        tag = tag;
        value = value;
        length_of = length value;
        consumed = length (der_encode tag value);
      })
unfolding der_read_tag with_tag
der_read_tag-encode tag value rest is lt = rw (der_read-encode tag value rest is lt) (ground arith)

der_read_tag-encode_only :
    (tag : ℕ) (value : Bytes)
    → IsTag tag
    → length value < 2 ^ 32
    → der_read_tag (der_encode tag value) tag
      ≡ some (record {
        tag = tag;
        value = value;
        length_of = length value;
        consumed = length (der_encode tag value);
      })
der_read_tag-encode_only tag value is lt = rw append-nil at (der_read_tag-encode tag value [] is lt)

abbrev read_back : ℕ → Bytes → DerTlv
read_back tag value = record {
  tag = tag;
  value = value;
  length_of = length value;
  consumed = length (der_encode tag value);
}

-- A value below 128 bytes takes two bytes more.
length-der_encode :
    (tag : ℕ) (value : Bytes)
    → length value < 128
    → length (der_encode tag value) ≡ 2 + length value
length-der_encode tag value lt =
    let e = der_encode_eq tag value (omega arith) in
    let h = length_header-IsHeader (short (length value) lt) in
    omega (arith, ap length e, ap length h, length-append (length_header (length value)) value)

entry_sizes :
    (oid : Bytes) (entry : HashEntry)
    → oid_entry oid ≡ some entry
    → (length entry.oid < 10) × (entry.hash_size < 65)
unfolding oid_entry find
entry_sizes oid entry h = (ground arith, ground arith)

read_null : der_read_tag (0x05 ∷ 0x00 ∷ []) 0x05 ≡ some (read_back 0x05 [])
unfolding der_read_tag with_tag der_read read_value der_encode
read_null = refl

IsNull-length : (ps : Bytes) → IsNull ps → length ps < 3
IsNull-length ps (inl e) = rw e (omega arith)
IsNull-length ps (inr e) = rw e (omega arith)

module _ (entry : HashEntry) (ps digest : Bytes) (listed : oid_entry entry.oid ≡ some entry)
    (null : IsNull ps) (sized : length digest ≡ entry.hash_size) where
  abbrev oid_part : Bytes
  oid_part = der_encode 0x06 entry.oid

  abbrev algorithm_part : Bytes
  algorithm_part = der_encode 0x30 (oid_part ++ ps)

  abbrev digest_part : Bytes
  digest_part = der_encode 0x04 digest

  oid_length : length oid_part < 12
  oid_length =
      let s = entry_sizes entry.oid entry listed in
      omega (arith, length-der_encode 0x06 entry.oid (omega arith))

  parameters_length : length (oid_part ++ ps) < 15
  parameters_length = omega (arith, length-append oid_part ps, oid_length, IsNull-length ps null)

  algorithm_length : length algorithm_part < 17
  algorithm_length = omega (
    arith,
    length-der_encode 0x30 (oid_part ++ ps) (omega (arith, parameters_length)),
    parameters_length,
  )

  digest_length : length digest_part < 67
  digest_length =
      let s = entry_sizes entry.oid entry listed in
      omega (arith, length-der_encode 0x04 digest (omega arith))

  body_length : length (algorithm_part ++ digest_part) < 84
  body_length =
      omega (arith, length-append algorithm_part digest_part, algorithm_length, digest_length)

  parameters_accepted :
      null_parameters (read_back 0x30 (oid_part ++ ps)) (read_back 0x06 entry.oid) ≡ some tt
  unfolding null_parameters
  parameters_accepted = elim null [
    | inl e ↦ rw (e, append-nil oid_part) (ground arith)
    | inr e ↦ rw e (
        ground (
          arith,
          drop-length-append oid_part (0x05 ∷ 0x00 ∷ []),
          read_null,
          length-der_encode 0x05 [] (omega arith),
          length-append oid_part (0x05 ∷ 0x00 ∷ []),
        ))
  ]

  complete :
      digestinfo_parse (digest_info entry.oid ps digest) ≡ some (entry.name, digest, length digest)
  unfolding digestinfo_parse
  complete = ground (
    arith,
    length-der_encode 0x30 (algorithm_part ++ digest_part) (omega (arith, body_length)),
    der_read_tag-encode_only 0x30 (algorithm_part ++ digest_part) (omega arith)
        (omega (arith, body_length)),
    der_read_tag-encode 0x30 (oid_part ++ ps) digest_part (omega arith)
        (omega (arith, parameters_length)),
    der_read_tag-encode 0x06 entry.oid ps (omega arith)
        (omega (arith, entry_sizes entry.oid entry listed)),
    parameters_accepted,
    listed,
    drop-length-append algorithm_part digest_part,
    der_read_tag-encode_only 0x04 digest (omega arith)
        (omega (arith, entry_sizes entry.oid entry listed)),
    length-append algorithm_part digest_part,
    sized,
  )

-- Every encoding of the specification is read, with the hash's name, the digest and its length.
pub digestinfo_parse_complete :
    (input name digest : Bytes)
    → IsDigestInfo input name digest
    → digestinfo_parse input ≡ some (name, digest, length digest)
digestinfo_parse_complete input name digest d =
    rw (d.encoded, d.name_is) (complete d.entry d.ps digest d.listed d.null d.length_is)
