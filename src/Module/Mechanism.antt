-- ===== src/Module/Mechanism.antt =====
-- src/module/mechanism.c: the tables of hashes and mechanisms, and the parser of a DigestInfo.
-- A name is a byte string, and a NULL name or array is `none`.
pub mod DigestInfo
pub mod Tables
use xdg_desktop_portal_certi.Base.{
  ℕ, ◌+◌, Bool, true, false, not, List, [], ◌∷◌, Option, none, some, ◌==◌, if◌then◌else◌, ◌>>=◌,
  ◌>>◌, guard, find, length, drop, Bytes, bytes_eq, codes, contains, map,
}
use xdg_desktop_portal_certi.Ck.{
  CkMechanism, rsa_pkcs, sha1_rsa_pkcs, sha224_rsa_pkcs, sha256_rsa_pkcs, sha384_rsa_pkcs,
  sha512_rsa_pkcs, rsa_pkcs_pss, sha1_rsa_pkcs_pss, sha224_rsa_pkcs_pss, sha256_rsa_pkcs_pss,
  sha384_rsa_pkcs_pss, sha512_rsa_pkcs_pss, ecdsa, ecdsa_sha1, ecdsa_sha224, ecdsa_sha256,
  ecdsa_sha384, ecdsa_sha512, rsa_pkcs_oaep, sha_1, sha224, sha256, sha384, sha512, CkMgf,
  mgf1_sha1, mgf1_sha224, mgf1_sha256, mgf1_sha384, mgf1_sha512, GnutlsDigest, dig_sha1, dig_sha224,
  dig_sha256, dig_sha384, dig_sha512, dig_unknown, same_ck, same_mgf, unlisted,
}
use xdg_desktop_portal_certi.Module.Der.{DerTlv, der_read_tag}

pub record HashEntry : Type 0 where
  pub name : Bytes
  pub hash_size : ℕ
  pub gnutls_digest : GnutlsDigest
  pub ck_digest : CkMechanism
  pub mgf : CkMgf
  pub oid : Bytes

abbrev oid_sha1 : Bytes
oid_sha1 = 0x2b ∷ 0x0e ∷ 0x03 ∷ 0x02 ∷ 0x1a ∷ []

-- The four object identifiers of SHA-2 differ in their last byte.
abbrev oid_sha2 : ℕ → Bytes
oid_sha2 last = 0x60 ∷ 0x86 ∷ 0x48 ∷ 0x01 ∷ 0x65 ∷ 0x03 ∷ 0x04 ∷ 0x02 ∷ last ∷ []

abbrev hash : Bytes → ℕ → GnutlsDigest → CkMechanism → CkMgf → Bytes → HashEntry
hash name size dig ck mgf oid = record {
  name = name;
  hash_size = size;
  gnutls_digest = dig;
  ck_digest = ck;
  mgf = mgf;
  oid = oid;
}

abbrev pub sha1_entry : HashEntry
sha1_entry = hash (codes "SHA1") 20 dig_sha1 sha_1 mgf1_sha1 oid_sha1

abbrev pub sha224_entry : HashEntry
sha224_entry = hash (codes "SHA224") 28 dig_sha224 sha224 mgf1_sha224 (oid_sha2 0x04)

abbrev pub sha256_entry : HashEntry
sha256_entry = hash (codes "SHA256") 32 dig_sha256 sha256 mgf1_sha256 (oid_sha2 0x01)

abbrev pub sha384_entry : HashEntry
sha384_entry = hash (codes "SHA384") 48 dig_sha384 sha384 mgf1_sha384 (oid_sha2 0x02)

abbrev pub sha512_entry : HashEntry
sha512_entry = hash (codes "SHA512") 64 dig_sha512 sha512 mgf1_sha512 (oid_sha2 0x03)

abbrev pub hash_table : List HashEntry
hash_table = sha1_entry ∷ sha224_entry ∷ sha256_entry ∷ sha384_entry ∷ sha512_entry ∷ []

-- `PortalMechanism`.
pub record PortalMechanism : Type 0 where
  pub type_of : CkMechanism
  pub portal_mechanism : Bytes
  pub hash_name : Option Bytes
  pub hash_locally : Bool
  pub digest_info : Bool
  pub infer_hash : Bool
  pub pss : Bool
  pub can_sign : Bool
  pub can_decrypt : Bool

abbrev row :
    CkMechanism → Bytes → Option Bytes → Bool → Bool → Bool → Bool → Bool → Bool → PortalMechanism
row ty name hash locally info infer pss sign decrypt = record {
  type_of = ty;
  portal_mechanism = name;
  hash_name = hash;
  hash_locally = locally;
  digest_info = info;
  infer_hash = infer;
  pss = pss;
  can_sign = sign;
  can_decrypt = decrypt;
}

abbrev v15_hashed : CkMechanism → Bytes → PortalMechanism
v15_hashed ty hash = row ty (codes "RSA_PKCS1_V1_5") (some hash) true false false false true false

abbrev pss_hashed : CkMechanism → Bytes → PortalMechanism
pss_hashed ty hash = row ty (codes "RSA_PSS") (some hash) true false false true true false

abbrev ecdsa_hashed : CkMechanism → Bytes → PortalMechanism
ecdsa_hashed ty hash = row ty (codes "ECDSA") (some hash) true false false false true false

abbrev pub mechanism_table : List PortalMechanism
mechanism_table =
    row rsa_pkcs (codes "RSA_PKCS1_V1_5") none false true false false true false
    ∷ v15_hashed sha1_rsa_pkcs (codes "SHA1")
    ∷ v15_hashed sha224_rsa_pkcs (codes "SHA224")
    ∷ v15_hashed sha256_rsa_pkcs (codes "SHA256")
    ∷ v15_hashed sha384_rsa_pkcs (codes "SHA384")
    ∷ v15_hashed sha512_rsa_pkcs (codes "SHA512")
    ∷ row rsa_pkcs_pss (codes "RSA_PSS") none false false false true true false
    ∷ pss_hashed sha1_rsa_pkcs_pss (codes "SHA1")
    ∷ pss_hashed sha224_rsa_pkcs_pss (codes "SHA224")
    ∷ pss_hashed sha256_rsa_pkcs_pss (codes "SHA256")
    ∷ pss_hashed sha384_rsa_pkcs_pss (codes "SHA384")
    ∷ pss_hashed sha512_rsa_pkcs_pss (codes "SHA512")
    ∷ row ecdsa (codes "ECDSA") none false false true false true false
    ∷ ecdsa_hashed ecdsa_sha1 (codes "SHA1")
    ∷ ecdsa_hashed ecdsa_sha224 (codes "SHA224")
    ∷ ecdsa_hashed ecdsa_sha256 (codes "SHA256")
    ∷ ecdsa_hashed ecdsa_sha384 (codes "SHA384")
    ∷ ecdsa_hashed ecdsa_sha512 (codes "SHA512")
    ∷ row rsa_pkcs_oaep (codes "RSA_OAEP") none false false false false false true
    ∷ []

unfoldable pub hash_entry : Option Bytes → Option HashEntry
hash_entry none = none
hash_entry (some name) = find (λ e. bytes_eq e.name name) hash_table

unfoldable pub mechanism_lookup : CkMechanism → Option PortalMechanism
mechanism_lookup ty = find (λ m. same_ck m.type_of ty) mechanism_table

unfoldable pub mechanism_available : Option PortalMechanism → Option (List Bytes) → Bool
mechanism_available none names = false
mechanism_available (some m) none = false
mechanism_available (some m) (some names) = contains names m.portal_mechanism

-- The loop of `portal_mechanism_list`.
unfoldable pub list_from : List PortalMechanism → Option (List Bytes) → List CkMechanism
list_from [] names = []
list_from (m ∷ ms) names =
    let rest = list_from ms names in
    if mechanism_available (some m) names then m.type_of ∷ rest else rest

unfoldable pub mechanism_list : Option (List Bytes) → List CkMechanism
mechanism_list = list_from mechanism_table

unfoldable pub hash_length : Option Bytes → ℕ
hash_length name = elim (hash_entry name) [ none ↦ 0 | some e ↦ e.hash_size ]

unfoldable pub hash_for_length : ℕ → Option Bytes
hash_for_length size = do e ← find (λ e. e.hash_size == size) hash_table; some e.name

unfoldable pub hash_gnutls : Option Bytes → GnutlsDigest
hash_gnutls name = elim (hash_entry name) [ none ↦ dig_unknown | some e ↦ e.gnutls_digest ]

-- An unknown hash has the digest type 0, which is no digest mechanism.
unfoldable pub hash_ck_digest : Option Bytes → CkMechanism
hash_ck_digest name = elim (hash_entry name) [ none ↦ unlisted 0 | some e ↦ e.ck_digest ]

unfoldable pub hash_from_ck_digest : CkMechanism → Option Bytes
hash_from_ck_digest digest = do e ← find (λ e. same_ck e.ck_digest digest) hash_table; some e.name

unfoldable pub mgf_hash : CkMgf → Option Bytes
mgf_hash mgf = do e ← find (λ e. same_mgf e.mgf mgf) hash_table; some e.name

abbrev pub mgf_names : List Bytes
mgf_names =
    codes "MGF1-SHA1"
    ∷ codes "MGF1-SHA224"
    ∷ codes "MGF1-SHA256"
    ∷ codes "MGF1-SHA384"
    ∷ codes "MGF1-SHA512"
    ∷ []

-- The loop of `portal_mgf_name` walks the hash table and the names side by side.
unfoldable pub mgf_name_from : List HashEntry → List Bytes → CkMgf → Option Bytes
mgf_name_from (e ∷ es) (name ∷ names) mgf =
    if same_mgf e.mgf mgf then some name else mgf_name_from es names mgf
mgf_name_from _ _ mgf = none

unfoldable pub mgf_name : CkMgf → Option Bytes
mgf_name = mgf_name_from hash_table mgf_names

-- The parameters of the AlgorithmIdentifier are absent or NULL.
unfoldable pub null_parameters : DerTlv → DerTlv → Option (Unit {0})
null_parameters algorithm oid = if oid.consumed == algorithm.length_of then some tt else do
  parameters ← der_read_tag (drop oid.consumed algorithm.value) 0x05
  guard (parameters.length_of == 0)
  guard (oid.consumed + parameters.consumed == algorithm.length_of)

-- The loop over the table's object identifiers.
unfoldable pub oid_entry : Bytes → Option HashEntry
oid_entry oid = find (λ e. bytes_eq oid e.oid) hash_table

-- `portal_digestinfo_parse`: the hash's name, the digest and its length.
unfoldable pub digestinfo_parse : Bytes → Option (Bytes × Bytes × ℕ)
digestinfo_parse input = do
  guard (not (length input == 0))
  outer ← der_read_tag input 0x30
  guard (outer.consumed == length input)
  algorithm ← der_read_tag outer.value 0x30
  oid ← der_read_tag algorithm.value 0x06
  null_parameters algorithm oid
  entry ← oid_entry oid.value
  value ← der_read_tag (drop algorithm.consumed outer.value) 0x04
  guard (algorithm.consumed + value.consumed == outer.length_of)
  guard (value.length_of == entry.hash_size)
  some (entry.name, value.value, value.length_of)
