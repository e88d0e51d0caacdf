-- ===== src/Tests/Parts.antt =====
-- Small instances of the parameters: memory of one cell for a number, and a certificate library that
-- knows one certificate.
use xdg_desktop_portal_certi.Base.{
  ℕ, ◌≡◌, ◌≢◌, refl, true, false, [], ◌∷◌, none, some, length, replicate, Bytes, codes, arith,
}
use xdg_desktop_portal_certi.Ck.{
  GnutlsDigest, dig_sha1, dig_sha224, dig_sha256, dig_sha384, dig_sha512, dig_unknown,
}
use xdg_desktop_portal_certi.Module.Grant.{Grant, Gnutls, digest_size}
use xdg_desktop_portal_certi.Module.Rv.{Abi}
use xdg_desktop_portal_certi.Module.Objects.{Objects}
use xdg_desktop_portal_certi.Module.Objects.Certificate.{Parsed, object_list}
use xdg_desktop_portal_certi.Module.Cryptoki.{Client}

abbrev pub the_three : ℕ
the_three = 3

abbrev read_cell : Bytes → ℕ
read_cell [] = 0
read_cell (n ∷ ns) = n

pub three_not_one : the_three ≢ 1
three_not_one h = ground (arith, h)

pub three_not_two : the_three ≢ 2
three_not_two h = ground (arith, h)

abbrev pub one_cell : Abi
one_cell = record {
  ulong = λ n. n ∷ [];
  read_ulong = read_cell;
  ulong_size = 1;
  unavailable = 1000;
  pss_params_size = 3;
  oaep_params_size = 5;
  ck_true = 1;
  ck_false = 0;
  cko_certificate = 1;
  cko_public_key = 2;
  cko_private_key = 3;
  ckk_rsa = 0;
  ckk_ec = 3;
  ckc_x_509 = 0;
  category_token_user = 1;
  read_ulong-ulong = λ n. refl;
  length-ulong = λ n. refl;
  private_not_certificate = three_not_one;
  private_not_public = three_not_two;
}

abbrev pub zeros : ℕ → Bytes
zeros n = replicate n 0

pub length-zeros : (d : GnutlsDigest) → length (zeros (digest_size d)) ≡ digest_size d
length-zeros dig_sha1 = refl
length-zeros dig_sha224 = refl
length-zeros dig_sha256 = refl
length-zeros dig_sha384 = refl
length-zeros dig_sha512 = refl
length-zeros dig_unknown = refl

abbrev pub one_certificate : Gnutls
one_certificate = record {
  crt_import = λ der. true;
  pubkey_import = λ der. true;
  pubkey_export = λ der. some (0x30 ∷ 0x00 ∷ []);
  sha1 = λ spki. some (7 ∷ 7 ∷ []);
  raw_dn = λ der. some (1 ∷ []);
  raw_issuer_dn = λ der. some (2 ∷ []);
  serial = λ der. some (3 ∷ []);
  export_rsa_raw = λ der. some (0 ∷ 9 ∷ [], 1 ∷ []);
  hash_init = λ d. true;
  hash_update = λ d fed new. true;
  hash_output = λ d fed. zeros (digest_size d);
  length-hash_output = λ d fed. length-zeros d;
}

abbrev pub rsa_grant : Grant
rsa_grant = record {
  session_handle = some (codes "/s");
  owner = some (codes ":1");
  owner_generation = 1;
  certificate_der = 0x30 ∷ 0x00 ∷ [];
  key_type = some (codes "RSA");
  key_size = 2048;
  key_curve = none;
  supported_mechanisms = some (codes "RSA_PKCS1_V1_5" ∷ []);
  may_sign = true;
  may_decrypt = false;
  expires_at = 0;
}

abbrev pub rsa_parsed : Parsed
rsa_parsed = record {
  der = 0x30 ∷ 0x00 ∷ [];
  spki = 0x30 ∷ 0x00 ∷ [];
  identifier = 7 ∷ 7 ∷ [];
  subject = 1 ∷ [];
  issuer = 2 ∷ [];
  serial = 0x02 ∷ 0x01 ∷ 3 ∷ [];
}

abbrev pub rsa_objects : Objects
rsa_objects = record {
  objects = object_list one_certificate one_cell rsa_grant rsa_parsed true 5;
  identifier = 7 ∷ 7 ∷ [];
}

abbrev pub connected : Client
connected = record {
  identity = 4;
  is_connected = true;
  owner = some (codes ":1");
  owner_generation = 1;
  invalidated = [];
  available = true;
  mechanisms = codes "RSA_PKCS1_V1_5" ∷ [];
}
