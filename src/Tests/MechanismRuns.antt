-- ===== src/Tests/MechanismRuns.antt =====
-- The client module's mechanisms at concrete inputs.
use xdg_desktop_portal_certi.Base.{
  ℕ, ◌≡◌, refl, inr, true, false, not, ◌↔◌, [], ◌∷◌, ◌++◌, none, some, arith, length, replicate,
  Bytes, codes, find, bytes_eq,
}
use xdg_desktop_portal_certi.Ck.{rsa_pkcs_oaep, same_ck, ecdsa}
use xdg_desktop_portal_certi.Module.Der.{der_read, der_read_tag, with_tag, read_value}
use xdg_desktop_portal_certi.Module.Mechanism.{
  sha256_entry, PortalMechanism, hash_entry, mechanism_lookup, mechanism_available, mechanism_list,
  hash_length, hash_for_length, hash_ck_digest, hash_from_ck_digest, mgf_hash, mgf_name, oid_entry,
  null_parameters, digestinfo_parse,
}
use xdg_desktop_portal_certi.Module.Mechanism.DigestInfo.{IsDigestInfo, digest_info}
use xdg_desktop_portal_certi.Module.Mechanism.DigestInfo.Accepts.{digestinfo_parse_sound}
use xdg_desktop_portal_certi.Module.Mechanism.DigestInfo.Parses.{digestinfo_parse_complete}
use xdg_desktop_portal_certi.Module.Mechanism.Tables.{
  listed, listed-mechanism_list, hash_tables_agree, mechanism_lookup-decrypts,
}

abbrev digest : Bytes
digest = replicate 32 0x5a

abbrev wrapped : Bytes
wrapped =
    0x30 ∷ 0x31 ∷ 0x30 ∷ 0x0d ∷ 0x06 ∷ 0x09 ∷ 0x60 ∷ 0x86 ∷ 0x48 ∷ 0x01 ∷ 0x65 ∷ 0x03 ∷ 0x04 ∷ 0x02
    ∷ 0x01 ∷ 0x05 ∷ 0x00 ∷ 0x04 ∷ 0x20 ∷ digest

parse_wrapped : digestinfo_parse wrapped ≡ some (codes "SHA256", digest, 32)
unfolding digestinfo_parse der_read der_read_tag with_tag read_value null_parameters oid_entry find
    bytes_eq
parse_wrapped = refl

-- A byte behind the structure is refused.
parse_trailing : digestinfo_parse (wrapped ++ 0x00 ∷ []) ≡ none
unfolding digestinfo_parse der_read der_read_tag with_tag read_value
parse_trailing = refl

digestinfo_parse_sound_example :
    IsDigestInfo wrapped (codes "SHA256") digest × (◌≡◌ {A = ℕ} 32 (length digest))
digestinfo_parse_sound_example =
    digestinfo_parse_sound wrapped (codes "SHA256") digest 32 (omega arith) parse_wrapped

wrapped-IsDigestInfo :
    IsDigestInfo (digest_info sha256_entry.oid (0x05 ∷ 0x00 ∷ []) digest) (codes "SHA256") digest
unfolding oid_entry find bytes_eq
wrapped-IsDigestInfo = record {
  entry = sha256_entry;
  ps = 0x05 ∷ 0x00 ∷ [];
  listed = refl;
  name_is = refl;
  length_is = refl;
  null = inr refl;
  encoded = refl;
}

digestinfo_parse_complete_example :
    digestinfo_parse (digest_info sha256_entry.oid (0x05 ∷ 0x00 ∷ []) digest)
    ≡ some (codes "SHA256", digest, 32)
digestinfo_parse_complete_example =
    digestinfo_parse_complete (digest_info sha256_entry.oid (0x05 ∷ 0x00 ∷ []) digest)
      (codes "SHA256") digest wrapped-IsDigestInfo

listed-mechanism_list_example :
    listed ecdsa (mechanism_list (some (codes "ECDSA" ∷ [])))
    ≡ mechanism_available (mechanism_lookup ecdsa) (some (codes "ECDSA" ∷ []))
listed-mechanism_list_example = listed-mechanism_list ecdsa (some (codes "ECDSA" ∷ []))

entry_sha256 : hash_entry (some (codes "SHA256")) ≡ some sha256_entry
unfolding hash_entry find bytes_eq
entry_sha256 = refl

hash_tables_agree_example :
    (hash_from_ck_digest (hash_ck_digest (some (codes "SHA256"))) ≡ some (codes "SHA256"))
    × (hash_for_length (hash_length (some (codes "SHA256"))) ≡ some (codes "SHA256"))
    × (mgf_hash sha256_entry.mgf ≡ some (codes "SHA256"))
    × (mgf_name sha256_entry.mgf ≡ some (codes "MGF1-SHA256"))
hash_tables_agree_example = hash_tables_agree (codes "SHA256") sha256_entry entry_sha256

abbrev oaep_row : PortalMechanism
oaep_row = record {
  type_of = rsa_pkcs_oaep;
  portal_mechanism = codes "RSA_OAEP";
  hash_name = none;
  hash_locally = false;
  digest_info = false;
  infer_hash = false;
  pss = false;
  can_sign = false;
  can_decrypt = true;
}

lookup_oaep : mechanism_lookup rsa_pkcs_oaep ≡ some oaep_row
unfolding mechanism_lookup find same_ck
lookup_oaep = refl

mechanism_lookup-decrypts_example :
    (oaep_row.type_of ≡ rsa_pkcs_oaep)
    × (oaep_row.can_decrypt ≡ not oaep_row.can_sign)
    × ((oaep_row.can_decrypt ≡ true) ↔ (rsa_pkcs_oaep ≡ rsa_pkcs_oaep))
mechanism_lookup-decrypts_example = mechanism_lookup-decrypts rsa_pkcs_oaep oaep_row lookup_oaep
