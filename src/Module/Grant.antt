-- ===== src/Module/Grant.antt =====
-- src/module/grant.h and the certificate library's part that src/module calls. `Gnutls` is that library:
-- each function gives what a call on the certificate's DER returns, none where the call fails, and the
-- hash functions whether they succeed, on the bytes that a running hash has taken.
use xdg_desktop_portal_certi.Base.{ℕ, Bool, List, Option, ◌≡◌, length, Bytes, codes}
use xdg_desktop_portal_certi.Ck.{
  GnutlsDigest, dig_sha1, dig_sha224, dig_sha256, dig_sha384, dig_sha512, dig_unknown,
}

-- `PortalGrant`. A list of mechanisms that is NULL is `none`.
pub record Grant : Type 0 where
  pub session_handle : Option Bytes
  pub owner : Option Bytes
  pub owner_generation : ℕ
  pub certificate_der : Bytes
  pub key_type : Option Bytes
  pub key_size : ℕ
  pub key_curve : Option Bytes
  pub supported_mechanisms : Option (List Bytes)
  pub may_sign : Bool
  pub may_decrypt : Bool
  pub expires_at : ℕ

-- The lengths of the digests, as the standards of the hashes give them.
abbrev pub digest_size : GnutlsDigest → ℕ
digest_size dig_sha1 = 20
digest_size dig_sha224 = 28
digest_size dig_sha256 = 32
digest_size dig_sha384 = 48
digest_size dig_sha512 = 64
digest_size dig_unknown = 0

pub record Gnutls : Type 0 where
  pub crt_import : Bytes → Bool
  pub pubkey_import : Bytes → Bool
  pub pubkey_export : Bytes → Option Bytes
  pub sha1 : Bytes → Option Bytes
  pub raw_dn : Bytes → Option Bytes
  pub raw_issuer_dn : Bytes → Option Bytes
  pub serial : Bytes → Option Bytes
  pub export_rsa_raw : Bytes → Option (Bytes × Bytes)
  pub hash_init : GnutlsDigest → Bool
  pub hash_update : GnutlsDigest → Bytes → Bytes → Bool
  pub hash_output : GnutlsDigest → Bytes → Bytes
  pub length-hash_output :
      (d : GnutlsDigest) (fed : Bytes) → length (hash_output d fed) ≡ digest_size d

-- `XDG_PORTAL_CERTIFICATE_OBJECT_LABEL` of src/module/portal-token.h.
abbrev pub object_label : Bytes
object_label = codes "Portal Certificate"
