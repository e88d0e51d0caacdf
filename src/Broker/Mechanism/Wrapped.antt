-- ===== src/Broker/Mechanism/Wrapped.antt =====
-- The PKCS#1 v1.5 input that the broker prepares is a DigestInfo that the client module reads.
use xdg_desktop_portal_certi.Base.{
  ℕ, ◌+◌, ◌/◌, ◌≤◌, ◌<◌, ◌≡◌, refl, sym, ap, ◌∙◌, inl, inr, false, Option, some, arith, All, find,
  find-All, length, take-length, [], ◌∷◌, ◌++◌, length-append, Bytes, bytes_eq, codes,
}
use xdg_desktop_portal_certi.Base.Result.{ok}
use xdg_desktop_portal_certi.Module.Der.{der_encode}
use xdg_desktop_portal_certi.Module.Der.Encode.{encode_short}
use xdg_desktop_portal_certi.Module.Mechanism.{
  digestinfo_parse, oid_entry, sha1_entry, sha224_entry, sha256_entry, sha384_entry, sha512_entry,
}
use xdg_desktop_portal_certi.Module.Mechanism as Listed
use xdg_desktop_portal_certi.Module.Mechanism.DigestInfo.{IsDigestInfo, digest_info}
use xdg_desktop_portal_certi.Module.Mechanism.DigestInfo.Parses.{digestinfo_parse_complete}
use xdg_desktop_portal_certi.Glib.{AsciiCase, Dict}
use xdg_desktop_portal_certi.Broker.Mechanism.Parse.{mechanism_parse}
use xdg_desktop_portal_certi.Broker.Mechanism.Parse.Checked.{mechanism_parse-sign}
use xdg_desktop_portal_certi.Broker.Mechanism.Parse.Sign.{IsSigning, IsPkcs1}
use xdg_desktop_portal_certi.Broker.Mechanism.{
  Hash, HashEntry, hash_length, Mechanism, hash_table, hash_entry, same_hash, mechanism_prepare,
  hash_to_string,
}

-- The prefix of an entry is what stands before the digest in its DigestInfo.
abbrev Wraps : HashEntry → Type 0
Wraps e =
    (digest : Bytes) → length digest ≡ e.size → IsDigestInfo (e.digest_info ++ digest) e.name digest

-- A DigestInfo with NULL parameters, once its AlgorithmIdentifier is known.
wrapped :
    (oid algorithm digest : Bytes) (n : ℕ)
    → der_encode 0x30 (der_encode 0x06 oid ++ (0x05 ∷ 0x00 ∷ [])) ≡ algorithm
    → length digest ≡ n
    → length algorithm + n < 120
    → digest_info oid (0x05 ∷ 0x00 ∷ []) digest
      ≡ 0x30 ∷ (length algorithm + (2 + n)) ∷ (algorithm ++ (0x04 ∷ n ∷ digest))
wrapped oid algorithm digest n is sized room =
    rw (is, encode_short 0x04 n digest (omega arith) sized)
      (encode_short 0x30 (length algorithm + (2 + n)) (algorithm ++ (0x04 ∷ n ∷ digest))
        (omega arith) (omega (arith, length-append algorithm (0x04 ∷ n ∷ digest))))

-- The prefix of a listed hash.
row-Wraps :
    (entry : Listed.HashEntry) (algorithm digest : Bytes)
    → oid_entry entry.oid ≡ some entry
    → der_encode 0x30 (der_encode 0x06 entry.oid ++ (0x05 ∷ 0x00 ∷ [])) ≡ algorithm
    → length algorithm + entry.hash_size < 120
    → length digest ≡ entry.hash_size
    → IsDigestInfo
        (0x30
          ∷ (length algorithm + (2 + entry.hash_size))
          ∷ (algorithm ++ (0x04 ∷ entry.hash_size ∷ digest)))
        entry.name
        digest
row-Wraps entry algorithm digest listed is room sized = record {
  entry = entry;
  ps = 0x05 ∷ 0x00 ∷ [];
  listed = listed;
  name_is = refl;
  length_is = sized;
  null = inr refl;
  encoded = sym (wrapped entry.oid algorithm digest entry.hash_size is sized room);
}

abbrev sha1_algorithm : Bytes
sha1_algorithm = 0x30 ∷ 0x09 ∷ 0x06 ∷ 0x05 ∷ 0x2b ∷ 0x0e ∷ 0x03 ∷ 0x02 ∷ 0x1a ∷ 0x05 ∷ 0x00 ∷ []

abbrev sha2_algorithm : ℕ → Bytes
sha2_algorithm last =
    0x30 ∷ 0x0d ∷ 0x06 ∷ 0x09 ∷ 0x60 ∷ 0x86 ∷ 0x48 ∷ 0x01 ∷ 0x65 ∷ 0x03 ∷ 0x04 ∷ 0x02 ∷ last ∷ 0x05
    ∷ 0x00 ∷ []

hash_table-Wraps : All Wraps hash_table
unfolding der_encode oid_entry find bytes_eq
hash_table-Wraps = (
  (λ digest. row-Wraps sha1_entry sha1_algorithm digest refl refl (omega arith)),
  (
    (λ digest. row-Wraps sha224_entry (sha2_algorithm 0x04) digest refl refl (omega arith)),
    (
      (λ digest. row-Wraps sha256_entry (sha2_algorithm 0x01) digest refl refl (omega arith)),
      (
        (λ digest. row-Wraps sha384_entry (sha2_algorithm 0x02) digest refl refl (omega arith)),
        (
          (λ digest. row-Wraps sha512_entry (sha2_algorithm 0x03) digest refl refl (omega arith)),
          tt,
        ),
      ),
    ),
  ),
)

entry-Wraps : (h : Hash) (e : HashEntry) → hash_entry h ≡ some e → Wraps e
unfolding hash_entry
entry-Wraps h e found = find-All Wraps (λ e. same_hash e.hash h) hash_table hash_table-Wraps found

abbrev IsSized : HashEntry → Type 0
IsSized e = 0 < e.size

entry-IsSized : (h : Hash) (e : HashEntry) → hash_entry h ≡ some e → 0 < e.size
unfolding hash_entry
entry-IsSized h e found = find-All IsSized (λ e. same_hash e.hash h) hash_table (omega arith) found

-- What a PKCS#1 v1.5 mechanism makes of an input.
prepared :
    (m : Mechanism) (e : HashEntry) (digest out : Bytes)
    → 0 < e.size
    → m.expected_input ≡ e.size
    → m.digest_info ≡ some e.digest_info
    → m.digest_info_length ≡ length e.digest_info
    → mechanism_prepare m digest ≡ ok out
    → (length digest ≡ e.size) × (out ≡ e.digest_info ++ digest)
unfolding mechanism_prepare
prepared m e digest out pos input prefix len h =
    (ground arith, ground (arith, take-length e.digest_info))

named :
    (h : Hash) (e : HashEntry)
    → hash_entry h ≡ some e
    → (hash_to_string h ≡ e.name) × (hash_length h ≡ e.size)
unfolding hash_to_string hash_length
named h e found = ground arith

-- The name of the request decides the kind.
IsSigning-IsPkcs1 :
    (n : Bytes) (kt : Option Bytes) (ks : ℕ) (m : Mechanism) (s : IsSigning n kt ks m)
    → n ≡ codes "RSA_PKCS1_V1_5"
    → IsPkcs1 n kt ks s.entry m
IsSigning-IsPkcs1 n kt ks m s e = elim s.kind [
  | inl p ↦ p
  | inr (inl p) ↦ absurd (differs (sym e ∙ p.name_is))
  | inr (inr p) ↦ absurd (differs' (sym e ∙ p.name_is))
]
  where
    differs : codes "RSA_PKCS1_V1_5" ≡ codes "RSA_PSS" → ⊥
    differs h = ground arith

    differs' : codes "RSA_PKCS1_V1_5" ≡ codes "ECDSA" → ⊥
    differs' h = ground arith

-- An RSA PKCS#1 v1.5 mechanism that was accepted turns a digest into a DigestInfo which the client
-- module's parser reads back as that hash and that digest, and which leaves the eleven bytes of the
-- padding in the modulus. A digest that is accepted has the hash's length.
pub prepare-digestinfo_parse :
    (ascii : AsciiCase) (d : Option Dict) (kt : Option Bytes) (ks : ℕ) (m : Mechanism)
    (digest out : Bytes)
    → mechanism_parse ascii (some (codes "RSA_PKCS1_V1_5")) d kt ks false ≡ ok m
    → mechanism_prepare m digest ≡ ok out
    → (digestinfo_parse out ≡ some (hash_to_string m.hash, digest, length digest))
      × (length digest ≡ hash_length m.hash)
      × (length out + 11 ≤ ks / 8)
prepare-digestinfo_parse ascii d kt ks m digest out parsed prep =
    let (n, n_is, _, s) =
      mechanism_parse-sign ascii (some (codes "RSA_PKCS1_V1_5")) d kt ks m parsed in
    let p = IsSigning-IsPkcs1 n kt ks m s (ground arith) in
    let (sized, built) =
      prepared m s.entry digest out (entry-IsSized m.hash s.entry s.found) s.input_is p.prefix_is
        p.prefix_length prep in
    let (name_is, size_is) = named m.hash s.entry s.found in
    (
      rw (name_is, built)
          (digestinfo_parse_complete (s.entry.digest_info ++ digest) s.entry.name digest
            (entry-Wraps m.hash s.entry s.found digest sized)),
      sized ∙ sym size_is,
      omega (arith, ap length built, length-append s.entry.digest_info digest, sized, p.room),
    )
