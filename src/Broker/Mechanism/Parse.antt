-- ===== src/Broker/Mechanism/Parse.antt =====
-- `certificate_mechanism_parse` of src/broker/mechanism.c: a request's mechanism and parameters,
-- held against the key. A failed call is its error; what it left in the record is cleared by the caller.
pub mod Decrypt
pub mod Sign
pub mod Checked
pub mod Total
use xdg_desktop_portal_certi.Base.{
  ℕ, ◌+◌, ◌-◌, ◌*◌, ◌/◌, ◌%◌, ◌^◌, Bool, true, false, not, ◌&&◌, ◌||◌, List, [], ◌∷◌, ◌++◌, Option,
  none, some, ◌==◌, ltb, if◌then◌else◌, length, drop, Bytes, bytes_eq, codes, contains,
}
use xdg_desktop_portal_certi.Base.Result.{
  Result, ok, err, invalid_argument, not_supported, aborted, ◌>>=◌, ◌>>◌, require, present,
}
use xdg_desktop_portal_certi.Ck.{rsa_pkcs, rsa_pkcs_pss, rsa_pkcs_oaep, ecdsa, data_specified}
use xdg_desktop_portal_certi.Glib.{
  Variant, string, uint32, byte_array, byte_arrays, strings, vardict, other_type, Dict,
  lookup_value, lookup_text, keys, is_text, AsciiCase,
}
use xdg_desktop_portal_certi.Broker.Mechanism.{
  Hash, HashEntry, hash_entry, hash_parse, hash_length, same_hash, Encoding, raw, der, Mechanism,
  zeroed,
}

abbrev max_label_size : ℕ
max_label_size = 256

abbrev string_or_fail : Variant → Result (Option Bytes)
string_or_fail (string s) = ok (some s)
string_or_fail _ = err invalid_argument

unfoldable pub lookup_string : Option Dict → Bytes → Result (Option Bytes)
lookup_string none key = ok none
lookup_string (some d) key = elim (lookup_value d key) [
  | none ↦ ok none
  | some v ↦ string_or_fail v
]

abbrev encoding_of : Option Bytes → Result Encoding
encoding_of none = ok raw
encoding_of (some text) =
    if bytes_eq text (codes "raw")
    then ok raw
    else if bytes_eq text (codes "der")
    then ok der
    else err invalid_argument

unfoldable pub parse_encoding : Option Dict → Result Encoding
parse_encoding parameters = do
  text ← lookup_string parameters (codes "signature_encoding")
  encoding_of text

unfoldable pub parse_hash : AsciiCase → Option Dict → Result Hash
parse_hash ascii none = err invalid_argument
parse_hash ascii (some d) = do
  text ← present (lookup_text d (codes "hash")) invalid_argument
  present (hash_parse ascii (some text)) invalid_argument

abbrev sign_keys : List Bytes
sign_keys = codes "hash" ∷ codes "mgf" ∷ codes "salt_length" ∷ codes "signature_encoding" ∷ []

abbrev decrypt_keys : List Bytes
decrypt_keys = codes "hash" ∷ codes "mgf1_hash" ∷ codes "label" ∷ []

-- The loop over the keys: the first unknown one fails.
unfoldable pub all_known : List Bytes → List Bytes → Bool
all_known known [] = true
all_known known (k ∷ ks) = contains known k && all_known known ks

unfoldable pub parameters_are_known : Option Dict → Bool → Bool
parameters_are_known none for_decrypt = true
parameters_are_known (some d) for_decrypt =
    all_known (if for_decrypt then decrypt_keys else sign_keys) (keys d)

-- A given `mgf1_hash` names the hash of the request.
unfoldable pub check_mgf1 : AsciiCase → Hash → Option Bytes → Result (Unit {0})
check_mgf1 ascii hash none = ok tt
check_mgf1 ascii hash (some name) = do
  mgf1_hash ← present (hash_parse ascii (some name)) invalid_argument
  require (same_hash mgf1_hash hash) invalid_argument

abbrev label_or_fail : Variant → Result (Option Bytes)
label_or_fail (byte_array label) =
    if ltb max_label_size (length label) then err invalid_argument else ok (some label)
label_or_fail _ = err invalid_argument

unfoldable pub parse_label : Option Dict → Result (Option Bytes)
parse_label none = ok none
parse_label (some d) = elim (lookup_value d (codes "label")) [
  | none ↦ ok none
  | some v ↦ label_or_fail v
]

-- An empty label is as none.
abbrev pub set_label : Option Bytes → Mechanism → Mechanism
set_label none m = m
set_label (some []) m = m
set_label (some (b ∷ bs)) m = record m {
  label = some (b ∷ bs);
  label_length = length (b ∷ bs);
  oaep = record (m.oaep) { source_data = some (b ∷ bs); source_len = length (b ∷ bs) };
}

-- The record that decryption fills, before its label.
abbrev pub oaep_mechanism : Bytes → Hash → HashEntry → ℕ → Mechanism
oaep_mechanism name hash entry key_size = record zeroed {
  name = some name;
  type_of = rsa_pkcs_oaep;
  hash = hash;
  has_oaep = true;
  expected_input = key_size / 8;
  oaep = record {
    hash_alg = entry.ck_hash;
    mgf = entry.mgf;
    source = data_specified;
    source_data = none;
    source_len = 0;
  };
}

module _ (ascii : AsciiCase) (name : Bytes) (parameters : Option Dict) (key_type : Option Bytes)
    (key_size : ℕ) where
  unfoldable pub parse_decrypt : Result Mechanism
  parse_decrypt = do
    require (bytes_eq name (codes "RSA_OAEP")) not_supported
    require (is_text key_type (codes "RSA")) not_supported
    hash ← parse_hash ascii parameters
    entry ← present (hash_entry hash) aborted
    mgf1_name ← lookup_string parameters (codes "mgf1_hash")
    check_mgf1 ascii hash mgf1_name
    label ← parse_label parameters
    require (not (ltb (key_size / 8) (2 * entry.size + 2))) invalid_argument
    ok (set_label label (oaep_mechanism name hash entry key_size))

  unfoldable pub parse_pkcs1 : Encoding → Result Mechanism
  parse_pkcs1 encoding = do
    require (is_text key_type (codes "RSA")) not_supported
    hash ← parse_hash ascii parameters
    entry ← present (hash_entry hash) aborted
    require (not (ltb (key_size / 8) (length entry.digest_info + entry.size + 11))) invalid_argument
    ok (record zeroed {
      name = some name;
      type_of = rsa_pkcs;
      hash = hash;
      encoding = encoding;
      expected_input = entry.size;
      digest_info = some entry.digest_info;
      digest_info_length = length entry.digest_info;
    })

module _ (ascii : AsciiCase) (name : Bytes) (parameters : Option Dict)
    (key_type : Option Bytes) where
  unfoldable pub parse_ecdsa : Encoding → Result Mechanism
  parse_ecdsa encoding = do
    require (is_text key_type (codes "EC")) not_supported
    hash ← parse_hash ascii parameters
    ok (record zeroed {
      name = some name;
      type_of = ecdsa;
      hash = hash;
      encoding = encoding;
      expected_input = hash_length hash;
    })

-- The name of the hash behind `MGF1-`, or the request's hash for `MGF1` alone.
unfoldable pub mgf_rest : AsciiCase → HashEntry → Bytes → Option Bytes
mgf_rest ascii entry mgf_name =
    if ascii.ncasecmp mgf_name (codes "MGF1-") 5
    then some (drop 5 mgf_name)
    else if ascii.casecmp mgf_name (codes "MGF1")
    then some entry.name
    else none

unfoldable pub parse_mgf : AsciiCase → Hash → HashEntry → Option Bytes → Result Hash
parse_mgf ascii hash entry none = ok hash
parse_mgf ascii hash entry (some mgf_name) =
    present (hash_parse ascii (mgf_rest ascii entry mgf_name)) invalid_argument

abbrev uint32_or_fail : Variant → Result ℕ
uint32_or_fail (uint32 n) = ok n
uint32_or_fail _ = err invalid_argument

unfoldable pub parse_salt : ℕ → Option Dict → Result ℕ
parse_salt size none = ok size
parse_salt size (some d) = elim (lookup_value d (codes "salt_length")) [
  | none ↦ ok size
  | some v ↦ uint32_or_fail v
]

-- `(key_size - 1 + 7) / 8` on a 32-bit `guint`.
unfoldable pub em_length : ℕ → ℕ
em_length key_size = ((key_size + 2 ^ 32 - 1) % 2 ^ 32 + 7) % 2 ^ 32 / 8

module _ (ascii : AsciiCase) (name : Bytes) (parameters : Option Dict) (key_type : Option Bytes)
    (key_size : ℕ) where
  unfoldable pub parse_pss : Encoding → Result Mechanism
  parse_pss encoding = do
    require (is_text key_type (codes "RSA")) not_supported
    hash ← parse_hash ascii parameters
    entry ← present (hash_entry hash) aborted
    mgf_name ← lookup_string parameters (codes "mgf")
    mgf_hash ← parse_mgf ascii hash entry mgf_name
    salt ← parse_salt entry.size parameters
    require (not (ltb (em_length key_size) (entry.size + salt + 2))) invalid_argument
    mgf_entry ← present (hash_entry mgf_hash) aborted
    ok (record zeroed {
      name = some name;
      type_of = rsa_pkcs_pss;
      hash = hash;
      encoding = encoding;
      expected_input = entry.size;
      has_pss = true;
      pss = record { hash_alg = entry.ck_hash; mgf = mgf_entry.mgf; salt = salt };
    })

  -- The chain of tests on the name.
  unfoldable pub parse_named : Encoding → Result Mechanism
  parse_named encoding =
      if bytes_eq name (codes "RSA_PKCS1_V1_5")
      then parse_pkcs1 ascii name parameters key_type key_size encoding
      else if bytes_eq name (codes "RSA_PSS")
      then parse_pss encoding
      else if bytes_eq name (codes "ECDSA")
      then parse_ecdsa ascii name parameters key_type encoding
      else err not_supported

  unfoldable pub parse_sign : Result Mechanism
  parse_sign = do encoding ← parse_encoding parameters; parse_named encoding

-- `certificate_mechanism_parse`.
unfoldable pub mechanism_parse :
    AsciiCase → Option Bytes → Option Dict → Option Bytes → ℕ → Bool → Result Mechanism
mechanism_parse ascii none parameters key_type key_size for_decrypt = err invalid_argument
mechanism_parse ascii (some name) parameters key_type key_size for_decrypt = do
  require (parameters_are_known parameters for_decrypt) invalid_argument
  (if for_decrypt
      then parse_decrypt ascii name parameters key_type key_size
      else parse_sign ascii name parameters key_type key_size)
