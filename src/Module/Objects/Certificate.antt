-- ===== src/Module/Objects/Certificate.antt =====
-- The objects of a grant: `parse_certificate`, `spki_split` and `portal_objects_new`.
use xdg_desktop_portal_certi.Base.{
  ℕ, ◌*◌, Bool, true, false, not, List, [], ◌∷◌, ◌++◌, Option, none, some, ◌>>=◌, ◌>>◌, guard, ◌==◌,
  ltb, if◌then◌else◌, length, drop, Bytes, codes,
}
use xdg_desktop_portal_certi.Glib.{is_text}
use xdg_desktop_portal_certi.Module.Der.{DerTlv, der_read_tag, der_encode}
use xdg_desktop_portal_certi.Module.Grant.{Grant, Gnutls, object_label}
use xdg_desktop_portal_certi.Module.Rv
use xdg_desktop_portal_certi.Module.Rv.{Abi, CkAttribute}
use xdg_desktop_portal_certi.Module.Objects.{Attribute, Object, Objects, object_handle}

-- `ParsedCertificate`.
pub record Parsed : Type 0 where
  pub der : Bytes
  pub spki : Bytes
  pub identifier : Bytes
  pub subject : Bytes
  pub issuer : Bytes
  pub serial : Bytes

abbrev or_empty : Option Bytes → Bytes
or_empty none = []
or_empty (some bs) = bs

abbrev encoded_serial : Option Bytes → Bytes
encoded_serial none = []
encoded_serial (some n) = der_encode 0x02 n

-- `parse_certificate`.
unfoldable pub parse_certificate : Gnutls → Bytes → Option Parsed
parse_certificate lib der = do
  guard (lib.crt_import der)
  guard (lib.pubkey_import der)
  spki ← lib.pubkey_export der
  identifier ← lib.sha1 spki
  some record {
    der = der;
    spki = spki;
    identifier = identifier;
    subject = or_empty (lib.raw_dn der);
    issuer = or_empty (lib.raw_issuer_dn der);
    serial = encoded_serial (lib.serial der);
  }

abbrev first_is_zero : Bytes → Bool
first_is_zero [] = false
first_is_zero (b ∷ bs) = b == 0

abbrev some_parameters : DerTlv → DerTlv → Option Bytes
some_parameters algorithm oid =
    if ltb oid.consumed algorithm.length_of then some (drop oid.consumed algorithm.value) else none

-- `spki_split`: the parameters of the algorithm, and the key behind the count of unused bits.
unfoldable pub spki_split : Bytes → Option (Option Bytes × Bytes)
spki_split spki = do
  outer ← der_read_tag spki 0x30
  algorithm ← der_read_tag outer.value 0x30
  oid ← der_read_tag algorithm.value 0x06
  bits ← der_read_tag (drop algorithm.consumed outer.value) 0x03
  guard (first_is_zero bits.value)
  some (some_parameters algorithm oid, drop 1 bits.value)

-- `strip_leading_zeros`.
unfoldable pub strip_leading_zeros : Bytes → Bytes
strip_leading_zeros [] = []
strip_leading_zeros (b ∷ []) = b ∷ []
strip_leading_zeros (b ∷ c ∷ bs) =
    let rest = strip_leading_zeros (c ∷ bs) in if b == 0 then rest else b ∷ c ∷ bs

abbrev pub add_bytes : CkAttribute → Bytes → Attribute
add_bytes ty v = record { type_of = ty; value = some v; sensitive = false }

abbrev pub add_sensitive : CkAttribute → Attribute
add_sensitive ty = record { type_of = ty; value = none; sensitive = true }

abbrev pub add_bool : Abi → CkAttribute → Bool → Attribute
add_bool abi ty v = add_bytes ty ((if v then abi.ck_true else abi.ck_false) ∷ [])

abbrev pub add_ulong : Abi → CkAttribute → ℕ → Attribute
add_ulong abi ty n = add_bytes ty (abi.ulong n)

abbrev pub rsa_parts : Abi → Option (Bytes × Bytes) → List Attribute
rsa_parts abi none = []
rsa_parts abi (some (modulus, exponent)) =
    add_bytes Rv.modulus (strip_leading_zeros modulus)
    ∷ add_ulong abi Rv.modulus_bits (length (strip_leading_zeros modulus) * 8)
    ∷ add_bytes Rv.public_exponent (strip_leading_zeros exponent)
    ∷ []

abbrev pub curve_parts : Option (Option Bytes × Bytes) → List Attribute
curve_parts none = []
curve_parts (some (none, key)) = add_bytes Rv.ec_point (der_encode 0x04 key) ∷ []
curve_parts (some (some parameters, key)) =
    add_bytes Rv.ec_params parameters ∷ add_bytes Rv.ec_point (der_encode 0x04 key) ∷ []

-- `add_key_public_parts`.
unfoldable pub key_public_parts : Gnutls → Abi → Parsed → Bool → List Attribute
key_public_parts lib abi parsed is_rsa =
    if is_rsa
    then rsa_parts abi (lib.export_rsa_raw parsed.der)
    else curve_parts (spki_split parsed.spki)

unfoldable pub certificate_attributes : Abi → Grant → Parsed → List Attribute
certificate_attributes abi grant parsed =
    add_ulong abi Rv.class abi.cko_certificate
    ∷ add_bool abi Rv.token true
    ∷ add_bool abi Rv.private_object false
    ∷ add_bool abi Rv.modifiable false
    ∷ add_bool abi Rv.destroyable false
    ∷ add_bool abi Rv.trusted false
    ∷ add_ulong abi Rv.certificate_type abi.ckc_x_509
    ∷ add_ulong abi Rv.certificate_category abi.category_token_user
    ∷ add_bytes Rv.label object_label
    ∷ add_bytes Rv.id parsed.identifier
    ∷ add_bytes Rv.subject parsed.subject
    ∷ add_bytes Rv.issuer parsed.issuer
    ∷ add_bytes Rv.serial_number parsed.serial
    ∷ add_bytes Rv.value grant.certificate_der
    ∷ []

abbrev key_type_of : Abi → Bool → ℕ
key_type_of abi is_rsa = if is_rsa then abi.ckk_rsa else abi.ckk_ec

unfoldable pub public_attributes : Gnutls → Abi → Grant → Parsed → Bool → List Attribute
public_attributes lib abi grant parsed is_rsa =
    (add_ulong abi Rv.class abi.cko_public_key
      ∷ add_bool abi Rv.token true
      ∷ add_bool abi Rv.private_object false
      ∷ add_bool abi Rv.modifiable false
      ∷ add_bool abi Rv.destroyable false
      ∷ add_bool abi Rv.local false
      ∷ add_ulong abi Rv.key_type (key_type_of abi is_rsa)
      ∷ add_bytes Rv.label object_label
      ∷ add_bytes Rv.id parsed.identifier
      ∷ add_bytes Rv.subject parsed.subject
      ∷ add_bool abi Rv.verify true
      ∷ add_bool abi Rv.verify_recover false
      ∷ add_bool abi Rv.encrypt grant.may_decrypt
      ∷ add_bool abi Rv.wrap false
      ∷ add_bool abi Rv.derive false
      ∷ [])
    ++ key_public_parts lib abi parsed is_rsa

unfoldable pub private_attributes : Abi → Grant → Parsed → Bool → List Attribute
private_attributes abi grant parsed is_rsa =
    add_ulong abi Rv.class abi.cko_private_key
    ∷ add_bool abi Rv.token true
    ∷ add_bool abi Rv.private_object true
    ∷ add_bool abi Rv.modifiable false
    ∷ add_bool abi Rv.destroyable false
    ∷ add_bool abi Rv.local false
    ∷ add_ulong abi Rv.key_type (key_type_of abi is_rsa)
    ∷ add_bytes Rv.label object_label
    ∷ add_bytes Rv.id parsed.identifier
    ∷ add_bytes Rv.subject parsed.subject
    ∷ add_bool abi Rv.sign grant.may_sign
    ∷ add_bool abi Rv.sign_recover false
    ∷ add_bool abi Rv.decrypt grant.may_decrypt
    ∷ add_bool abi Rv.unwrap false
    ∷ add_bool abi Rv.derive false
    ∷ add_bool abi Rv.sensitive true
    ∷ add_bool abi Rv.always_sensitive true
    ∷ add_bool abi Rv.extractable false
    ∷ add_bool abi Rv.never_extractable true
    ∷ add_bool abi Rv.always_authenticate false
    ∷ []

-- The attributes of the private key that are never given out.
unfoldable pub secret_attributes : Bool → List Attribute
secret_attributes is_rsa =
    add_sensitive Rv.value
    ∷ (if is_rsa
        then add_sensitive Rv.private_exponent
          ∷ add_sensitive Rv.prime_1
          ∷ add_sensitive Rv.prime_2
          ∷ add_sensitive Rv.exponent_1
          ∷ add_sensitive Rv.exponent_2
          ∷ add_sensitive Rv.coefficient
          ∷ []
        else [])

abbrev pub private_object_attributes : Gnutls → Abi → Grant → Parsed → Bool → List Attribute
private_object_attributes lib abi grant parsed is_rsa =
    private_attributes abi grant parsed is_rsa
    ++ (key_public_parts lib abi parsed is_rsa ++ secret_attributes is_rsa)

abbrev pub object_list : Gnutls → Abi → Grant → Parsed → Bool → ℕ → List Object
object_list lib abi grant parsed is_rsa generation =
    record {
      handle = object_handle generation 1;
      object_class = abi.cko_certificate;
      attributes = certificate_attributes abi grant parsed;
    }
    ∷ record {
      handle = object_handle generation 2;
      object_class = abi.cko_public_key;
      attributes = public_attributes lib abi grant parsed is_rsa;
    }
    ∷ record {
      handle = object_handle generation 3;
      object_class = abi.cko_private_key;
      attributes = private_object_attributes lib abi grant parsed is_rsa;
    }
    ∷ []

-- `portal_objects_new`.
unfoldable pub objects_new : Gnutls → Abi → Grant → ℕ → Option Objects
objects_new lib abi grant generation = do
  parsed ← parse_certificate lib grant.certificate_der
  let is_rsa = not (is_text grant.key_type (codes "EC"))
  some record {
    objects = object_list lib abi grant parsed is_rsa generation;
    identifier = parsed.identifier;
  }
