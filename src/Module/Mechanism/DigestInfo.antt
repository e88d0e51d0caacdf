-- ===== src/Module/Mechanism/DigestInfo.antt =====
-- What `portal_digestinfo_parse` of src/module/mechanism.c is to accept.
pub mod Accepts
pub mod Parses
use xdg_desktop_portal_certi.Base.{
  ℕ, zero, suc, ◌+◌, ◌-◌, ◌%◌, ◌^◌, ◌≤◌, ◌<◌, ◌≡◌, ◌≢◌, refl, sym, ap, ◌∙◌, ◌⊎◌, inl, inr, Bool,
  true, false, not, List, [], ◌∷◌, ◌++◌, append-nil, Option, none, some, arith, ◌==◌, ==_iff,
  ==_refl, if◌then◌else◌, ◌>>=◌, ◌>>◌, guard, >>=-eq-some, guard-eq-some, find, find-holds,
  Bool-cases, Option-cases, length, length-append, drop, drop-length, length-drop, nil_of_length,
  drop-length-append, take, Bytes, AllBytes, All-drop, bytes_eq, bytes_eq_iff, codes, subst,
}
use xdg_desktop_portal_certi.Module.Der.{
  DerTlv, length_header, der_encode, der_read, der_read_tag, with_tag,
}
use xdg_desktop_portal_certi.Module.Der.Encode.{der_encode_eq, length_header-IsHeader, short}
use xdg_desktop_portal_certi.Module.Der.Read.{
  Reads, Reads-AllBytes, Reads-whole, der_read_tag-Reads,
}
use xdg_desktop_portal_certi.Module.Der.RoundTrip.{IsTag, der_read-encode}
use xdg_desktop_portal_certi.Module.Mechanism.{
  HashEntry, hash_table, oid_entry, null_parameters, digestinfo_parse,
}

-- The AlgorithmIdentifier's parameters: left out, or NULL.
abbrev pub IsNull : Bytes → Type 0
IsNull ps = (ps ≡ []) ⊎ (ps ≡ 0x05 ∷ 0x00 ∷ [])

abbrev algorithm_of : Bytes → Bytes → Bytes
algorithm_of oid ps = der_encode 0x30 (der_encode 0x06 oid ++ ps)

-- DigestInfo ::= SEQUENCE { SEQUENCE { OID, parameters }, OCTET STRING }.
abbrev pub digest_info : Bytes → Bytes → Bytes → Bytes
digest_info oid ps digest = der_encode 0x30 (algorithm_of oid ps ++ der_encode 0x04 digest)

-- A DigestInfo that the program knows: a listed object identifier and a digest of its length.
pub record IsDigestInfo (input name digest : Bytes) : Type 0 where
  pub entry : HashEntry
  pub ps : Bytes
  pub listed : oid_entry entry.oid ≡ some entry
  pub name_is : name ≡ entry.name
  pub length_is : length digest ≡ entry.hash_size
  pub null : IsNull ps
  pub encoded : input ≡ digest_info entry.oid ps digest
