-- ===== src/Module/Cryptoki/Sent.antt =====
-- What the module asks the portal to sign.
use xdg_desktop_portal_certi.Base.{
  ℕ, ◌≡◌, ◌⊎◌, inl, inr, refl, sym, subst, true, false, Option, none, some, length, take,
  take-length, ap, ◌∙◌, false, Bool-cases, Bytes, AllBytes, ◌==◌, arith,
}
use xdg_desktop_portal_certi.Ck.{GnutlsDigest}
use xdg_desktop_portal_certi.Module.Grant.{Grant, Gnutls}
use xdg_desktop_portal_certi.Module.Mechanism.{
  HashEntry, hash_entry, PortalMechanism, hash_length, hash_for_length, digestinfo_parse,
}
use xdg_desktop_portal_certi.Module.Cryptoki.{PortalSession}
use xdg_desktop_portal_certi.Module.Cryptoki.Perform.{
  digest_of, named_input, info_input, inferred_input, buffer_input, hashed_input, sign_input,
}
use xdg_desktop_portal_certi.Module.Cryptoki.Invariant.{IsHashing, IsBuffering, IsSound}
use xdg_desktop_portal_certi.Module.Cryptoki.Digest.{
  IsDigest, Carries, known_size, known_output, input-Carries,
}

-- Where the input of a signature comes from: the whole output of the hash on what the session was fed, for
-- a mechanism that hashes here; the digest of the DigestInfo in the session's buffer, with the hash that
-- it names; or the session's buffer itself, with the hash of its length or the session's hash.
pub data IsFrom (lib : Gnutls) (row : PortalMechanism) (sign_hash : Option Bytes)
    (sign_digest : Option (GnutlsDigest × Bytes)) (sign_buffer : Option Bytes) (hash input : Bytes)
    : Type 0 where
  hashed :
      (entry : HashEntry) (fed : Bytes)
      → row.hash_locally ≡ true
      → row.hash_name ≡ some hash
      → hash_entry (some hash) ≡ some entry
      → sign_digest ≡ some (entry.gnutls_digest, fed)
      → input ≡ lib.hash_output entry.gnutls_digest fed
      → IsFrom lib row sign_hash sign_digest sign_buffer hash input
  wrapped :
      (buffer : Bytes) (size : ℕ)
      → row.hash_locally ≡ false
      → row.digest_info ≡ true
      → sign_buffer ≡ some buffer
      → digestinfo_parse buffer ≡ some (hash, input, size)
      → IsFrom lib row sign_hash sign_digest sign_buffer hash input
  given :
      row.hash_locally ≡ false
      → row.digest_info ≡ false
      → sign_buffer ≡ some input
      → (hash_for_length (length input) ≡ some hash) ⊎ (sign_hash ≡ some hash)
      → IsFrom lib row sign_hash sign_digest sign_buffer hash input

named-digest_of :
    (o : Option Bytes) (b hash input : Bytes)
    → named_input o b ≡ digest_of hash input
    → (o ≡ some hash) × (b ≡ input)
named-digest_of none b hash input e = absurd (ground (arith, e))
named-digest_of (some name) b hash input e = (ground (arith, e), ground (arith, e))

hashed_input-IsFrom :
    (lib : Gnutls) (row : PortalMechanism) (sign_hash : Option Bytes)
    (digest : Option (GnutlsDigest × Bytes)) (buffer : Option Bytes) (hash input : Bytes)
    → row.hash_locally ≡ true
    → IsHashing row sign_hash digest
    → hashed_input lib row sign_hash digest ≡ digest_of hash input
    → IsFrom lib row sign_hash digest buffer hash input
hashed_input-IsFrom lib row sign_hash digest buffer hash input local i e =
    let entry = i.hash.entry in
    let out = lib.hash_output entry.gnutls_digest i.fed in
    let running : hashed_input lib row sign_hash (some (entry.gnutls_digest, i.fed))
        ≡ digest_of hash input =
      ap (hashed_input lib row sign_hash) (sym i.is_running) ∙ e in
    let (is_hash, is_input) =
      named-digest_of sign_hash (take (hash_length row.hash_name) out) hash input running in
    let named : row.hash_name ≡ some hash = sym i.same_hash ∙ is_hash in
    let whole : hash_length row.hash_name ≡ length out = omega (
      arith,
      lib.length-hash_output entry.gnutls_digest i.fed,
      known_size row.hash_name i.hash,
      known_output row.hash_name i.hash,
    ) in
    hashed entry i.fed local named (ap hash_entry (sym named ∙ i.hash.is_named) ∙ i.hash.is_entry)
      i.is_running (sym is_input ∙ ap (λ n. take n out) whole ∙ take-length out)

info_input-digest_of :
    (buffer : Bytes) (o : Option (Bytes × Bytes × ℕ)) (hash input : Bytes)
    → info_input buffer o ≡ digest_of hash input
    → (size : ℕ) × (o ≡ some (hash, input, size))
info_input-digest_of buffer none hash input e = absurd (ground (arith, e))
info_input-digest_of buffer (some (h, d, size)) hash input e = (size, ground (arith, e))

inferred_input-digest_of :
    (buffer : Bytes) (o : Option Bytes) (hash input : Bytes)
    → inferred_input buffer o ≡ digest_of hash input
    → (o ≡ some hash) × (buffer ≡ input)
inferred_input-digest_of buffer none hash input e = absurd (ground (arith, e))
inferred_input-digest_of buffer (some h) hash input e = (ground (arith, e), ground (arith, e))

buffer_input-IsFrom :
    (lib : Gnutls) (row : PortalMechanism) (sign_hash : Option Bytes)
    (digest : Option (GnutlsDigest × Bytes)) (o : Option Bytes) (hash input : Bytes)
    → row.hash_locally ≡ false
    → buffer_input row sign_hash o ≡ digest_of hash input
    → IsFrom lib row sign_hash digest o hash input
buffer_input-IsFrom lib row sign_hash digest none hash input remote e = absurd (ground (arith, e))
buffer_input-IsFrom lib row sign_hash digest (some buffer) hash input remote e =
    elim (Bool-cases row.digest_info) [
      | inl info ↦
          let (size, parsed) =
            info_input-digest_of buffer (digestinfo_parse buffer) hash input
              (ground (arith, e, info)) in
          wrapped buffer size remote info refl parsed
      | inr plain ↦
          let inferred =
            inferred_input-digest_of buffer (hash_for_length (length buffer)) hash input in
          let named = named-digest_of sign_hash buffer hash input in
          elim (Bool-cases row.infer_hash) [
            | inl y ↦
                let (e', same) = inferred (ground (arith, e, plain, y)) in
                given remote plain (ap some same)
                  (inl (ap (λ b. hash_for_length (length b)) (sym same) ∙ e'))
            | inr n ↦ elim (Bool-cases (length buffer == hash_length sign_hash)) [
              | inl l ↦
                  let (e', same) = named (ground (arith, e, plain, n, l)) in
                  given remote plain (ap some same) (inr e')
              | inr l ↦ absurd (ground (arith, e, plain, n, l))
            ]
          ]
    ]

input-IsFrom :
    (lib : Gnutls) (row : PortalMechanism) (x : PortalSession) (hash input : Bytes)
    → ((row.hash_locally ≡ true) × IsHashing row x.sign_hash x.sign_digest)
      ⊎ ((row.hash_locally ≡ false) × IsBuffering row x.sign_hash x.sign_digest x.sign_buffer)
    → sign_input lib row x ≡ digest_of hash input
    → IsFrom lib row x.sign_hash x.sign_digest x.sign_buffer hash input
unfolding sign_input
input-IsFrom lib row x hash input (inl (local, i)) e =
    hashed_input-IsFrom lib row x.sign_hash x.sign_digest x.sign_buffer hash input local i
      (ground (arith, local, e))
input-IsFrom lib row x hash input (inr (remote, i)) e =
    buffer_input-IsFrom lib row x.sign_hash x.sign_digest x.sign_buffer hash input remote
      (ground (arith, remote, e))

-- A signature that a sound session asks the portal for has an input of the length of the hash that the
-- request names, which is, by its mechanism, the hash of all that the session was fed, the digest of the
-- DigestInfo in its buffer, or the buffer. The buffered input is of bytes.
pub sign_input-IsDigest :
    (lib : Gnutls) (grant : Option Grant) (x : PortalSession) (row : PortalMechanism)
    (hash input : Bytes)
    → IsSound grant x
    → x.sign_active ≡ true
    → x.sign_mechanism ≡ some row
    → ((b : Bytes) → x.sign_buffer ≡ some b → AllBytes b)
    → sign_input lib row x ≡ digest_of hash input
    → IsDigest hash input × IsFrom lib row x.sign_hash x.sign_digest x.sign_buffer hash input
sign_input-IsDigest lib grant x row hash input sound active has bytes e =
    let signs = sound.signing active in
    let same : signs.row ≡ row = ground (arith, has, signs.has_row) in
    let has_input =
      subst
        (λ r.
          ((r.hash_locally ≡ true) × IsHashing r x.sign_hash x.sign_digest)
          ⊎ ((r.hash_locally ≡ false) × IsBuffering r x.sign_hash x.sign_digest x.sign_buffer))
        same signs.input in
    (
      subst Carries e (input-Carries lib row x bytes has_input),
      input-IsFrom lib row x hash input has_input e,
    )
