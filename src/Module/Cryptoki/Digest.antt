-- ===== src/Module/Cryptoki/Digest.antt =====
-- The input of a signature has the length of its hash.
use xdg_desktop_portal_certi.Base.{
  ℕ, ◌≡◌, ◌⊎◌, inl, inr, refl, sym, subst, true, false, Option, none, some, All, find, find-All,
  find-holds, length, take, length-take, false, Bool-cases, Option-cases, Bytes, AllBytes, bytes_eq,
  ◌==◌, arith,
}
use xdg_desktop_portal_certi.Ck.{GnutlsDigest}
use xdg_desktop_portal_certi.Module.Grant.{Gnutls, digest_size}
use xdg_desktop_portal_certi.Module.Mechanism.{
  HashEntry, hash_table, hash_entry, PortalMechanism, hash_length, hash_for_length, oid_entry,
  digestinfo_parse,
}
use xdg_desktop_portal_certi.Module.Mechanism.DigestInfo.Accepts.{digestinfo_parse_sound}
use xdg_desktop_portal_certi.Module.Cryptoki.{PortalSession}
use xdg_desktop_portal_certi.Module.Cryptoki.Perform.{
  Input, digest_of, bad_input, null_input, named_input, info_input, inferred_input, buffer_input,
  hashed_input, sign_input,
}
use xdg_desktop_portal_certi.Module.Cryptoki.Invariant.{IsKnown, IsHashing, IsBuffering}
use xdg_desktop_portal_certi.Module.Cryptoki.Invariant.Sign.{IsFound, hash_table-IsFound}

-- A hash of the table, and a digest of its length.
pub record IsDigest (hash input : Bytes) : Type 0 where
  pub entry : HashEntry
  pub is_entry : hash_entry (some hash) ≡ some entry
  pub length_is : length input ≡ entry.hash_size

-- A request, where there is one, has a digest of its hash.
abbrev pub Carries : Input → Type 0
Carries null_input = Unit {0}
Carries (bad_input rv) = Unit {0}
Carries (digest_of hash input) = IsDigest hash input

known_digest :
    (hash : Option Bytes) (input : Bytes) (k : IsKnown hash)
    → length input ≡ k.entry.hash_size
    → Carries (named_input hash input)
known_digest none input k e = tt
known_digest (some hash) input k e =
    let named : hash ≡ k.name = ground (arith, k.is_named) in
    record { entry = k.entry; is_entry = rw named k.is_entry; length_is = e }

abbrev SizeIsOutput : HashEntry → Type 0
SizeIsOutput e = digest_size e.gnutls_digest ≡ e.hash_size

hash_table-SizeIsOutput : All SizeIsOutput hash_table
hash_table-SizeIsOutput = (refl, (refl, (refl, (refl, (refl, tt)))))

pub known_size : (hash : Option Bytes) (k : IsKnown hash) → hash_length hash ≡ k.entry.hash_size
unfolding hash_length
known_size hash k = rw (k.is_named, hash_length, k.is_entry) refl

pub known_output :
    (hash : Option Bytes) (k : IsKnown hash) → digest_size k.entry.gnutls_digest ≡ k.entry.hash_size
unfolding hash_entry
known_output hash k =
    find-All SizeIsOutput (λ (e : HashEntry). bytes_eq e.name k.name) hash_table
      hash_table-SizeIsOutput k.is_entry

hashed_input-Carries :
    (lib : Gnutls) (row : PortalMechanism) (hash : Option Bytes)
    (digest : Option (GnutlsDigest × Bytes))
    → IsHashing row hash digest
    → Carries (hashed_input lib row hash digest)
hashed_input-Carries lib row hash digest i =
    let known : IsKnown hash = subst IsKnown (sym i.same_hash) i.hash in
    let out = lib.hash_output i.hash.entry.gnutls_digest i.fed in
    let size : length (take (hash_length row.hash_name) out) ≡ i.hash.entry.hash_size = omega (
      arith,
      length-take (hash_length row.hash_name) out,
      lib.length-hash_output i.hash.entry.gnutls_digest i.fed,
      known_size row.hash_name i.hash,
      known_output row.hash_name i.hash,
    ) in
    subst (λ d. Carries (hashed_input lib row hash d)) (sym i.is_running)
      (subst (λ h. Carries (named_input h (take (hash_length row.hash_name) out))) (sym i.same_hash)
        (known_digest row.hash_name _ i.hash size))

info_input-Carries :
    (buffer : Bytes) (o : Option (Bytes × Bytes × ℕ))
    → AllBytes buffer
    → digestinfo_parse buffer ≡ o
    → Carries (info_input buffer o)
unfolding oid_entry
info_input-Carries buffer none bytes e = tt
info_input-Carries buffer (some (hash, digest, n)) bytes e =
    let (is, _) = digestinfo_parse_sound buffer hash digest n bytes e in
    let found =
      find-All IsFound (λ (e : HashEntry). bytes_eq is.entry.oid e.oid) hash_table
        hash_table-IsFound is.listed in
    record { entry = is.entry; is_entry = rw is.name_is found; length_is = is.length_is }

inferred_input-Carries :
    (buffer : Bytes) (o : Option Bytes)
    → hash_for_length (length buffer) ≡ o
    → Carries (inferred_input buffer o)
unfolding hash_for_length
inferred_input-Carries buffer none e = tt
inferred_input-Carries buffer (some hash) e =
    elim (Option-cases (find (λ (e : HashEntry). e.hash_size == length buffer) hash_table)) [
      | inl n ↦ absurd (ground (arith))
      | inr (entry, f) ↦
          let named : entry.name ≡ hash = ground (arith) in
          let size = find-holds (λ (e : HashEntry). e.hash_size == length buffer) hash_table f in
          let found =
            find-All IsFound (λ (e : HashEntry). e.hash_size == length buffer) hash_table
              hash_table-IsFound f in
          record { entry = entry; is_entry = rw (← named) found; length_is = ground (arith) }
    ]

buffer_input-Carries :
    (row : PortalMechanism) (hash : Option Bytes) (buffer : Bytes)
    → AllBytes buffer
    → (row.digest_info ≡ true) ⊎ ((row.infer_hash ≡ true) ⊎ IsKnown hash)
    → Carries (buffer_input row hash (some buffer))
buffer_input-Carries row hash buffer bytes (inl i) =
    ground (arith, i, info_input-Carries buffer (digestinfo_parse buffer) bytes refl)
buffer_input-Carries row hash buffer bytes (inr (inl i)) = ground (
  arith,
  i,
  info_input-Carries buffer (digestinfo_parse buffer) bytes refl,
  inferred_input-Carries buffer (hash_for_length (length buffer)) refl,
)
buffer_input-Carries row hash buffer bytes (inr (inr k)) =
    elim (Bool-cases (length buffer == hash_length hash)) [
      | inr n ↦ ground (
        arith,
        n,
        info_input-Carries buffer (digestinfo_parse buffer) bytes refl,
        inferred_input-Carries buffer (hash_for_length (length buffer)) refl,
      )
      | inl y ↦
          let size : length buffer ≡ k.entry.hash_size = ground (arith, y, known_size hash k) in
          ground (
            arith,
            y,
            info_input-Carries buffer (digestinfo_parse buffer) bytes refl,
            inferred_input-Carries buffer (hash_for_length (length buffer)) refl,
            known_digest hash buffer k size,
          )
    ]

pub input-Carries :
    (lib : Gnutls) (row : PortalMechanism) (x : PortalSession)
    → ((b : Bytes) → x.sign_buffer ≡ some b → AllBytes b)
    → ((row.hash_locally ≡ true) × IsHashing row x.sign_hash x.sign_digest)
      ⊎ ((row.hash_locally ≡ false) × IsBuffering row x.sign_hash x.sign_digest x.sign_buffer)
    → Carries (sign_input lib row x)
unfolding sign_input
input-Carries lib row x bytes (inl (local, i)) =
    ground (arith, local, hashed_input-Carries lib row x.sign_hash x.sign_digest i)
input-Carries lib row x bytes (inr (remote, i)) =
    let h : Carries (buffer_input row x.sign_hash x.sign_buffer) =
      subst (λ b. Carries (buffer_input row x.sign_hash b)) (sym i.is_buffer)
        (buffer_input-Carries row x.sign_hash i.buffer (bytes i.buffer i.is_buffer) i.hash) in
    ground (arith, remote, h)
