-- ===== src/Broker/Mechanism.antt =====
-- src/broker/mechanism.c and mechanism.h: the hashes, a mechanism's record, and what is sent to the
-- token. `Parse` has the parser of a request's mechanism and `Ecdsa` the signature's encoding.
pub mod Parse
pub mod Ecdsa
pub mod Hashes
pub mod Wrapped
use xdg_desktop_portal_certi.Base.{
  ℕ, ◌+◌, Bool, true, false, not, ◌&&◌, ◌||◌, List, [], ◌∷◌, ◌++◌, Option, none, some, ◌==◌,
  if◌then◌else◌, find, length, take, drop, Bytes, codes,
}
use xdg_desktop_portal_certi.Base.Result.{Result, ok, err, invalid_argument}
use xdg_desktop_portal_certi.Ck.{
  CkMechanism, sha_1, sha224, sha256, sha384, sha512, unlisted, CkMgf, mgf1_sha1, mgf1_sha224,
  mgf1_sha256, mgf1_sha384, mgf1_sha512, unlisted_mgf, CkSource, unlisted_source,
}
use xdg_desktop_portal_certi.Glib.{AsciiCase}

-- `CertificateHash`.
pub data Hash : Type 0 where
  hash_none hash_sha1 hash_sha224 hash_sha256 hash_sha384 hash_sha512 : Hash

pub record HashEntry : Type 0 where
  pub name : Bytes
  pub hash : Hash
  pub size : ℕ
  pub ck_hash : CkMechanism
  pub mgf : CkMgf
  pub digest_info : Bytes

abbrev digest_info_sha1 : Bytes
digest_info_sha1 =
    0x30 ∷ 0x21 ∷ 0x30 ∷ 0x09 ∷ 0x06 ∷ 0x05 ∷ 0x2b ∷ 0x0e ∷ 0x03 ∷ 0x02 ∷ 0x1a ∷ 0x05 ∷ 0x00 ∷ 0x04
    ∷ 0x14 ∷ []

-- The four prefixes of SHA-2 differ in three bytes.
abbrev digest_info_sha2 : ℕ → ℕ → ℕ → Bytes
digest_info_sha2 total last size =
    0x30 ∷ total ∷ 0x30 ∷ 0x0d ∷ 0x06 ∷ 0x09 ∷ 0x60 ∷ 0x86 ∷ 0x48 ∷ 0x01 ∷ 0x65 ∷ 0x03 ∷ 0x04 ∷ 0x02
    ∷ last ∷ 0x05 ∷ 0x00 ∷ 0x04 ∷ size ∷ []

abbrev hash_row : Bytes → Hash → ℕ → CkMechanism → CkMgf → Bytes → HashEntry
hash_row name hash size ck mgf info = record {
  name = name;
  hash = hash;
  size = size;
  ck_hash = ck;
  mgf = mgf;
  digest_info = info;
}

abbrev pub hash_table : List HashEntry
hash_table =
    hash_row (codes "SHA1") hash_sha1 20 sha_1 mgf1_sha1 digest_info_sha1
    ∷ hash_row (codes "SHA224") hash_sha224 28 sha224 mgf1_sha224 (digest_info_sha2 0x2d 0x04 0x1c)
    ∷ hash_row (codes "SHA256") hash_sha256 32 sha256 mgf1_sha256 (digest_info_sha2 0x31 0x01 0x20)
    ∷ hash_row (codes "SHA384") hash_sha384 48 sha384 mgf1_sha384 (digest_info_sha2 0x41 0x02 0x30)
    ∷ hash_row (codes "SHA512") hash_sha512 64 sha512 mgf1_sha512 (digest_info_sha2 0x51 0x03 0x40)
    ∷ []

unfoldable pub same_hash : Hash → Hash → Bool
same_hash hash_none hash_none = true
same_hash hash_sha1 hash_sha1 = true
same_hash hash_sha224 hash_sha224 = true
same_hash hash_sha256 hash_sha256 = true
same_hash hash_sha384 hash_sha384 = true
same_hash hash_sha512 hash_sha512 = true
same_hash _ _ = false

unfoldable pub hash_entry : Hash → Option HashEntry
hash_entry h = find (λ e. same_hash e.hash h) hash_table

-- A name is accepted with and without the dash, in any case.
unfoldable pub names_hash : AsciiCase → Bytes → HashEntry → Bool
names_hash ascii name e =
    ascii.casecmp name e.name || ascii.casecmp name (codes "SHA-" ++ drop 3 e.name)

-- `certificate_hash_parse`, `none` for FALSE.
unfoldable pub hash_parse : AsciiCase → Option Bytes → Option Hash
hash_parse ascii none = none
hash_parse ascii (some name) = elim (find (names_hash ascii name) hash_table) [
  | none ↦ none
  | some e ↦ some e.hash
]

unfoldable pub hash_to_string : Hash → Bytes
hash_to_string h = elim (hash_entry h) [ none ↦ codes "NONE" | some e ↦ e.name ]

unfoldable pub hash_length : Hash → ℕ
hash_length h = elim (hash_entry h) [ none ↦ 0 | some e ↦ e.size ]

pub data Encoding : Type 0 where
  raw der : Encoding

-- `CK_RSA_PKCS_PSS_PARAMS`.
pub record Pss : Type 0 where
  pub hash_alg : CkMechanism
  pub mgf : CkMgf
  pub salt : ℕ

-- `CK_RSA_PKCS_OAEP_PARAMS`. The source data is the mechanism's own label.
pub record Oaep : Type 0 where
  pub hash_alg : CkMechanism
  pub mgf : CkMgf
  pub source : CkSource
  pub source_data : Option Bytes
  pub source_len : ℕ

-- `CertificateMechanism`.
pub record Mechanism : Type 0 where
  pub name : Option Bytes
  pub type_of : CkMechanism
  pub hash : Hash
  pub encoding : Encoding
  pub pss : Pss
  pub has_pss : Bool
  pub oaep : Oaep
  pub has_oaep : Bool
  pub label : Option Bytes
  pub label_length : ℕ
  pub expected_input : ℕ
  pub digest_info : Option Bytes
  pub digest_info_length : ℕ

abbrev pub no_pss : Pss
no_pss = record { hash_alg = unlisted 0; mgf = unlisted_mgf 0; salt = 0 }

abbrev pub no_oaep : Oaep
no_oaep = record {
  hash_alg = unlisted 0;
  mgf = unlisted_mgf 0;
  source = unlisted_source 0;
  source_data = none;
  source_len = 0;
}

-- `memset (out, 0, sizeof (*out))`.
abbrev pub zeroed : Mechanism
zeroed = record {
  name = none;
  type_of = unlisted 0;
  hash = hash_none;
  encoding = raw;
  pss = no_pss;
  has_pss = false;
  oaep = no_oaep;
  has_oaep = false;
  label = none;
  label_length = 0;
  expected_input = 0;
  digest_info = none;
  digest_info_length = 0;
}

-- `certificate_mechanism_clear`. The type, the hash and the encoding keep their values.
unfoldable pub mechanism_clear : Mechanism → Mechanism
mechanism_clear m = record m {
  name = none;
  pss = no_pss;
  has_pss = false;
  oaep = no_oaep;
  has_oaep = false;
  label = none;
  label_length = 0;
  expected_input = 0;
  digest_info = none;
  digest_info_length = 0;
}

-- The parameter of a `CK_MECHANISM`, with the length that goes with it.
pub data CkParameter : Type 0 where
  pss_parameter : Pss → CkParameter
  oaep_parameter : Oaep → CkParameter
  no_parameter : CkParameter

unfoldable pub mechanism_to_ck : Mechanism → CkMechanism × CkParameter
mechanism_to_ck m = (
  m.type_of,
  if m.has_pss
      then pss_parameter m.pss
      else if m.has_oaep
      then oaep_parameter m.oaep
      else no_parameter,
)

-- `certificate_mechanism_prepare`.
unfoldable pub mechanism_prepare : Mechanism → Bytes → Result Bytes
mechanism_prepare m input =
    if not (m.expected_input == 0) && not (length input == m.expected_input)
    then err invalid_argument
    else elim m.digest_info [
      | none ↦ ok input
      | some info ↦ ok (take m.digest_info_length info ++ input)
    ]
