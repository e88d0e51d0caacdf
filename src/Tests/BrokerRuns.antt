-- ===== src/Tests/BrokerRuns.antt =====
-- The broker's mechanisms at concrete requests.
use xdg_desktop_portal_certi.Base.{
  ◌+◌, ◌/◌, ◌≤◌, ◌≡◌, ◌≢◌, refl, true, false, [], ◌∷◌, ◌++◌, Option, none, some, arith, length,
  replicate, Bytes, codes, find, bytes_eq, contains,
}
use xdg_desktop_portal_certi.Base.Result.{ok, err, aborted}
use xdg_desktop_portal_certi.Ck.{rsa_pkcs, rsa_pkcs_oaep, sha256, mgf1_sha256, data_specified}
use xdg_desktop_portal_certi.Glib.{
  Dict, empty, entry, string, lookup_value, lookup_text, keys, is_text,
}
use xdg_desktop_portal_certi.Tests.Ascii.{ascii}
use xdg_desktop_portal_certi.Broker.Mechanism.{
  Mechanism, hash_sha256, zeroed, hash_entry, hash_parse, hash_to_string, hash_length, same_hash,
  names_hash, mechanism_prepare,
}
use xdg_desktop_portal_certi.Broker.Mechanism.Parse.{
  mechanism_parse, parameters_are_known, all_known, parse_decrypt, parse_sign, parse_named,
  parse_pkcs1, parse_hash, parse_encoding, parse_label, check_mgf1, lookup_string,
}
use xdg_desktop_portal_certi.Broker.Mechanism.Parse.Checked.{
  mechanism_parse-decrypt, mechanism_parse-sign,
}
use xdg_desktop_portal_certi.Broker.Mechanism.Parse.Decrypt.{IsOaep, IsAsked}
use xdg_desktop_portal_certi.Broker.Mechanism.Parse.Sign.{IsSigning}
use xdg_desktop_portal_certi.Broker.Mechanism.Parse.Total.{mechanism_parse-Returns}
use xdg_desktop_portal_certi.Broker.Mechanism.Wrapped.{prepare-digestinfo_parse}
use xdg_desktop_portal_certi.Broker.Mechanism.Ecdsa.{raw_to_der}
use xdg_desktop_portal_certi.Broker.Mechanism.Ecdsa.Sequence.{IsSignature, raw_to_der-IsSignature}
use xdg_desktop_portal_certi.Module.Mechanism.{digestinfo_parse}

abbrev request : Option Dict
request = some (entry (codes "hash") (string (codes "sha-256")) empty)

-- The same with the hash for the mask given.
abbrev oaep_request : Option Dict
oaep_request = some (
    entry (codes "hash") (string (codes "sha-256"))
      (entry (codes "mgf1_hash") (string (codes "sha-256")) empty))

abbrev rsa : Option Bytes
rsa = some (codes "RSA")

abbrev prefix : Bytes
prefix =
    0x30 ∷ 0x31 ∷ 0x30 ∷ 0x0d ∷ 0x06 ∷ 0x09 ∷ 0x60 ∷ 0x86 ∷ 0x48 ∷ 0x01 ∷ 0x65 ∷ 0x03 ∷ 0x04 ∷ 0x02
    ∷ 0x01 ∷ 0x05 ∷ 0x00 ∷ 0x04 ∷ 0x20 ∷ []

abbrev pkcs1 : Mechanism
pkcs1 = record zeroed {
  name = some (codes "RSA_PKCS1_V1_5");
  type_of = rsa_pkcs;
  hash = hash_sha256;
  expected_input = 32;
  digest_info = some prefix;
  digest_info_length = 19;
}

abbrev oaep : Mechanism
oaep = record zeroed {
  name = some (codes "RSA_OAEP");
  type_of = rsa_pkcs_oaep;
  hash = hash_sha256;
  has_oaep = true;
  expected_input = 256;
  oaep = record {
    hash_alg = sha256;
    mgf = mgf1_sha256;
    source = data_specified;
    source_data = none;
    source_len = 0;
  };
}

abbrev digest : Bytes
digest = replicate 32 0x5a

parsed_pkcs1 :
    mechanism_parse ascii (some (codes "RSA_PKCS1_V1_5")) request rsa 2048 false ≡ ok pkcs1
unfolding mechanism_parse parameters_are_known all_known keys contains parse_sign parse_named
    parse_pkcs1 parse_hash parse_encoding lookup_string lookup_text lookup_value is_text hash_parse
    names_hash hash_entry same_hash find bytes_eq
parsed_pkcs1 = refl

parsed_oaep : mechanism_parse ascii (some (codes "RSA_OAEP")) oaep_request rsa 2048 true ≡ ok oaep
unfolding mechanism_parse parameters_are_known all_known keys contains parse_decrypt parse_hash
    parse_label check_mgf1 lookup_string lookup_text lookup_value is_text hash_parse names_hash
    hash_entry same_hash find bytes_eq
parsed_oaep = refl

-- Decryption with another padding, and a parameter of signing, are refused.
refused_decrypt :
    mechanism_parse ascii (some (codes "RSA_PKCS1_V1_5")) request rsa 2048 true ≢ ok pkcs1
unfolding mechanism_parse parameters_are_known all_known keys contains parse_decrypt bytes_eq
refused_decrypt h = ground arith

prepared : mechanism_prepare pkcs1 digest ≡ ok (prefix ++ digest)
unfolding mechanism_prepare
prepared = refl

prepare-digestinfo_parse_example :
    (digestinfo_parse (prefix ++ digest) ≡ some (hash_to_string hash_sha256, digest, length digest))
    × (length digest ≡ hash_length hash_sha256)
    × (length (prefix ++ digest) + 11 ≤ 2048 / 8)
prepare-digestinfo_parse_example =
    prepare-digestinfo_parse ascii request rsa 2048 pkcs1 digest (prefix ++ digest) parsed_pkcs1
      prepared

mechanism_parse-decrypt_example :
    (n : Bytes) × (some (codes "RSA_OAEP") ≡ some n)
    × (parameters_are_known oaep_request true ≡ true)
    × IsOaep n rsa 2048 oaep
    × IsAsked ascii oaep_request oaep
mechanism_parse-decrypt_example =
    mechanism_parse-decrypt ascii (some (codes "RSA_OAEP")) oaep_request rsa 2048 oaep parsed_oaep

mechanism_parse-sign_example :
    (n : Bytes) × (some (codes "RSA_PKCS1_V1_5") ≡ some n)
    × (parameters_are_known request false ≡ true)
    × IsSigning n rsa 2048 pkcs1
mechanism_parse-sign_example =
    mechanism_parse-sign ascii (some (codes "RSA_PKCS1_V1_5")) request rsa 2048 pkcs1 parsed_pkcs1

mechanism_parse-Returns_example :
    mechanism_parse ascii (some (codes "RSA_PSS")) request rsa 1024 false ≢ err aborted
mechanism_parse-Returns_example =
    mechanism_parse-Returns ascii (some (codes "RSA_PSS")) request rsa 1024 false

abbrev signature : Bytes
signature = 0x00 ∷ 0x85 ∷ 0x11 ∷ 0x22 ∷ []

raw_to_der-IsSignature_example :
    (out : Bytes) × (raw_to_der signature ≡ ok out) × IsSignature signature out 2
raw_to_der-IsSignature_example =
    raw_to_der-IsSignature signature 2 refl (omega arith) (omega arith) (omega arith)
