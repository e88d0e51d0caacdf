-- ===== src/Broker/Mechanism/Parse/Sign.antt =====
-- What a successful parse for signing has checked.
use xdg_desktop_portal_certi.Base.{
  ℕ, ◌+◌, ◌/◌, ◌≤◌, ◌≡◌, ◌⊎◌, inl, inr, true, false, Option, none, some, arith, Bool-cases, length,
  Bytes, bytes_eq, bytes_eq_iff, codes,
}
use xdg_desktop_portal_certi.Base.Result.{ok, Result-cases}
use xdg_desktop_portal_certi.Ck.{rsa_pkcs, rsa_pkcs_pss, ecdsa}
use xdg_desktop_portal_certi.Glib.{Dict, AsciiCase}
use xdg_desktop_portal_certi.Broker.Mechanism.{
  HashEntry, hash_entry, hash_length, Mechanism, Encoding,
}
use xdg_desktop_portal_certi.Broker.Mechanism.Hashes.{parse_hash-entry}
use xdg_desktop_portal_certi.Broker.Mechanism.Parse.{
  parse_encoding, parse_hash, parse_pkcs1, parse_ecdsa, parse_pss, em_length, parse_named,
  parse_sign,
}
use xdg_desktop_portal_certi.Broker.Mechanism.Parse.Decrypt.{is_text-eq}

-- RSA PKCS#1 v1.5: the DigestInfo prefix of the hash goes before the digest, and eleven bytes are left.
pub record IsPkcs1 (name : Bytes) (key_type : Option Bytes) (key_size : ℕ) (entry : HashEntry)
    (m : Mechanism) : Type 0 where
  pub name_is : name ≡ codes "RSA_PKCS1_V1_5"
  pub key_is : key_type ≡ some (codes "RSA")
  pub type_is : m.type_of ≡ rsa_pkcs
  pub has_pss : m.has_pss ≡ false
  pub prefix_is : m.digest_info ≡ some entry.digest_info
  pub prefix_length : m.digest_info_length ≡ length entry.digest_info
  pub room : length entry.digest_info + entry.size + 11 ≤ key_size / 8

-- RSA-PSS: the digest, the salt and two bytes fit the encoded message.
pub record IsPss (name : Bytes) (key_type : Option Bytes) (key_size : ℕ) (entry : HashEntry)
    (m : Mechanism) : Type 0 where
  pub name_is : name ≡ codes "RSA_PSS"
  pub key_is : key_type ≡ some (codes "RSA")
  pub type_is : m.type_of ≡ rsa_pkcs_pss
  pub has_pss : m.has_pss ≡ true
  pub no_prefix : m.digest_info ≡ none
  pub hash_is : m.pss.hash_alg ≡ entry.ck_hash
  pub room : entry.size + m.pss.salt + 2 ≤ em_length key_size

pub record IsEcdsa (name : Bytes) (key_type : Option Bytes) (m : Mechanism) : Type 0 where
  pub name_is : name ≡ codes "ECDSA"
  pub key_is : key_type ≡ some (codes "EC")
  pub type_is : m.type_of ≡ ecdsa
  pub has_pss : m.has_pss ≡ false
  pub no_prefix : m.digest_info ≡ none

-- A mechanism for signing: one of three types, on a key of its own type, whose input is a digest of the
-- request's hash, and an RSA modulus with room for the padding.
pub record IsSigning (name : Bytes) (key_type : Option Bytes) (key_size : ℕ) (m : Mechanism)
    : Type 0 where
  pub entry : HashEntry
  pub found : hash_entry m.hash ≡ some entry
  pub no_oaep : m.has_oaep ≡ false
  pub input_is : m.expected_input ≡ entry.size
  pub kind :
      IsPkcs1 name key_type key_size entry m
      ⊎ (IsPss name key_type key_size entry m ⊎ IsEcdsa name key_type m)

module _ (ascii : AsciiCase) (name : Bytes) (d : Option Dict) (kt : Option Bytes) (ks : ℕ)
    (encoding : Encoding) (m : Mechanism) where
  parse_pkcs1-IsSigning :
      name ≡ codes "RSA_PKCS1_V1_5"
      → parse_pkcs1 ascii name d kt ks encoding ≡ ok m
      → IsSigning name kt ks m
  unfolding parse_pkcs1
  parse_pkcs1-IsSigning named h = elim (Result-cases (parse_hash ascii d)) [
    | inr (e, eq) ↦ absurd (ground arith)
    | inl (hash, eq) ↦
        let (entry, found) = parse_hash-entry ascii d hash eq in
        record {
          entry = entry;
          found = ground arith;
          no_oaep = ground arith;
          input_is = ground arith;
          kind = inl (record {
            name_is = named;
            key_is = ground (arith, is_text-eq kt (codes "RSA"));
            type_is = ground arith;
            has_pss = ground arith;
            prefix_is = ground arith;
            prefix_length = ground arith;
            room = ground arith;
          });
        }
  ]

  parse_pss-IsSigning :
      name ≡ codes "RSA_PSS" → parse_pss ascii name d kt ks encoding ≡ ok m → IsSigning name kt ks m
  unfolding parse_pss
  parse_pss-IsSigning named h = elim (Result-cases (parse_hash ascii d)) [
    | inr (e, eq) ↦ absurd (ground arith)
    | inl (hash, eq) ↦
        let (entry, found) = parse_hash-entry ascii d hash eq in
        record {
          entry = entry;
          found = ground arith;
          no_oaep = ground arith;
          input_is = ground arith;
          kind = inr (
              inl (record {
                name_is = named;
                key_is = ground (arith, is_text-eq kt (codes "RSA"));
                type_is = ground arith;
                has_pss = ground arith;
                no_prefix = ground arith;
                hash_is = ground arith;
                room = ground arith;
              }));
        }
  ]

  parse_ecdsa-IsSigning :
      name ≡ codes "ECDSA" → parse_ecdsa ascii name d kt encoding ≡ ok m → IsSigning name kt ks m
  unfolding parse_ecdsa hash_length
  parse_ecdsa-IsSigning named h = elim (Result-cases (parse_hash ascii d)) [
    | inr (e, eq) ↦ absurd (ground arith)
    | inl (hash, eq) ↦
        let (entry, found) = parse_hash-entry ascii d hash eq in
        record {
          entry = entry;
          found = ground arith;
          no_oaep = ground arith;
          input_is = ground arith;
          kind = inr (
              inr (record {
                name_is = named;
                key_is = ground (arith, is_text-eq kt (codes "EC"));
                type_is = ground arith;
                has_pss = ground arith;
                no_prefix = ground arith;
              }));
        }
  ]

  parse_named-IsSigning : parse_named ascii name d kt ks encoding ≡ ok m → IsSigning name kt ks m
  unfolding parse_named
  parse_named-IsSigning h = elim (Bool-cases (bytes_eq name (codes "RSA_PKCS1_V1_5"))) [
    | inl e ↦
        parse_pkcs1-IsSigning ((bytes_eq_iff name (codes "RSA_PKCS1_V1_5")).0 e) (ground arith)
    | inr e ↦ elim (Bool-cases (bytes_eq name (codes "RSA_PSS"))) [
      | inl e' ↦ parse_pss-IsSigning ((bytes_eq_iff name (codes "RSA_PSS")).0 e') (ground arith)
      | inr e' ↦ elim (Bool-cases (bytes_eq name (codes "ECDSA"))) [
        | inl e'' ↦ parse_ecdsa-IsSigning ((bytes_eq_iff name (codes "ECDSA")).0 e'') (ground arith)
        | inr e'' ↦ absurd (ground arith)
      ]
    ]
  ]

module _ (ascii : AsciiCase) (name : Bytes) (d : Option Dict) (kt : Option Bytes) (ks : ℕ)
    (m : Mechanism) where
  pub parse_sign-IsSigning : parse_sign ascii name d kt ks ≡ ok m → IsSigning name kt ks m
  unfolding parse_sign
  parse_sign-IsSigning h = elim (Result-cases (parse_encoding d)) [
    | inr (e, eq) ↦ absurd (ground arith)
    | inl (encoding, eq) ↦ parse_named-IsSigning ascii name d kt ks encoding m (ground arith)
  ]
