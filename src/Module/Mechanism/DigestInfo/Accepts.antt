-- ===== src/Module/Mechanism/DigestInfo/Accepts.antt =====
-- The parser of a DigestInfo accepts nothing but the encodings of the specification.
use xdg_desktop_portal_certi.Base.{
  ℕ, ◌+◌, ◌≡◌, ◌∙◌, inl, inr, [], ◌∷◌, ◌++◌, some, arith, ◌==◌, find-holds, Bool-cases,
  Option-cases, length, drop, drop-length, length-drop, nil_of_length, Bytes, AllBytes, All-drop,
  bytes_eq, bytes_eq_iff, subst,
}
use xdg_desktop_portal_certi.Module.Der.{DerTlv, der_encode, der_read_tag}
use xdg_desktop_portal_certi.Module.Der.Read.{
  Reads, Reads-AllBytes, Reads-whole, der_read_tag-Reads,
}
use xdg_desktop_portal_certi.Module.Mechanism.{
  HashEntry, hash_table, oid_entry, null_parameters, digestinfo_parse,
}
use xdg_desktop_portal_certi.Module.Mechanism.DigestInfo.{IsNull, digest_info, IsDigestInfo}

-- The steps of a successful parse.
record Parsed (input name digest : Bytes) (n : ℕ) : Type 0 where
  outer : DerTlv
  algorithm : DerTlv
  oid : DerTlv
  entry : HashEntry
  value : DerTlv
  read_outer : der_read_tag input 0x30 ≡ some outer
  whole : outer.consumed ≡ length input
  read_algorithm : der_read_tag outer.value 0x30 ≡ some algorithm
  read_oid : der_read_tag algorithm.value 0x06 ≡ some oid
  parameters : null_parameters algorithm oid ≡ some tt
  listed : oid_entry oid.value ≡ some entry
  read_value : der_read_tag (drop algorithm.consumed outer.value) 0x04 ≡ some value
  filled : algorithm.consumed + value.consumed ≡ outer.length_of
  size : value.length_of ≡ entry.hash_size
  name_is : name ≡ entry.name
  digest_is : digest ≡ value.value
  n_is : n ≡ value.length_of

parsed :
    (input name digest : Bytes) (n : ℕ)
    → digestinfo_parse input ≡ some (name, digest, n)
    → Parsed input name digest n
unfolding digestinfo_parse
parsed input name digest n h = elim (Option-cases (der_read_tag input 0x30)) [
  | inl e ↦ absurd (ground arith)
  | inr (outer, e1) ↦ elim (Option-cases (der_read_tag outer.value 0x30)) [
    | inl e ↦ absurd (ground arith)
    | inr (algorithm, e2) ↦ elim (Option-cases (der_read_tag algorithm.value 0x06)) [
      | inl e ↦ absurd (ground arith)
      | inr (oid, e3) ↦ elim (Option-cases (oid_entry oid.value)) [
        | inl e ↦ absurd (ground arith)
        | inr (entry, e4) ↦
            elim (Option-cases (der_read_tag (drop algorithm.consumed outer.value) 0x04)) [
              | inl e ↦ absurd (ground arith)
              | inr (value, e5) ↦ record {
                outer = outer;
                algorithm = algorithm;
                oid = oid;
                entry = entry;
                value = value;
                read_outer = e1;
                whole = ground arith;
                read_algorithm = e2;
                read_oid = e3;
                parameters = ground arith;
                listed = e4;
                read_value = e5;
                filled = ground arith;
                size = ground arith;
                name_is = ground arith;
                digest_is = ground arith;
                n_is = ground arith;
              }
            ]
      ]
    ]
  ]
]

-- The last value of a sequence is all that is left of it.
last_value :
    (input : Bytes) (k : ℕ) (t : DerTlv)
    → Reads (drop k input) t
    → k + t.consumed ≡ length input
    → drop k input ≡ der_encode t.tag t.value
last_value input k t r filled = Reads-whole (drop k input) t r (omega (arith, length-drop k input))

encode_null : (value : Bytes) → length value ≡ 0 → der_encode 0x05 value ≡ 0x05 ∷ 0x00 ∷ []
unfolding der_encode
encode_null value empty = rw (nil_of_length value empty)

null_parameters-IsNull :
    (algorithm oid : DerTlv)
    → AllBytes algorithm.value
    → algorithm.length_of ≡ length algorithm.value
    → null_parameters algorithm oid ≡ some tt
    → IsNull (drop oid.consumed algorithm.value)
unfolding null_parameters
null_parameters-IsNull algorithm oid bytes len h =
    let rest = drop oid.consumed algorithm.value in
    elim (Bool-cases (oid.consumed == algorithm.length_of)) [
      | inl e ↦
          let all : oid.consumed ≡ length algorithm.value = ground arith in
          inl (rw all (drop-length algorithm.value))
      | inr e ↦ elim (Option-cases (der_read_tag rest 0x05)) [
        | inl e' ↦ absurd (ground arith)
        | inr (p, e') ↦
            let (r, tag) =
              der_read_tag-Reads rest 0x05 p (All-drop _ oid.consumed algorithm.value bytes) e' in
            let empty : length p.value ≡ 0 = ground arith in
            let filled : oid.consumed + p.consumed ≡ length algorithm.value = ground arith in
            inr (
              last_value algorithm.value oid.consumed p r filled
              ∙ rw tag (encode_null p.value empty))
      ]
    ]

listed_oid : (oid : Bytes) (entry : HashEntry) → oid_entry oid ≡ some entry → oid ≡ entry.oid
unfolding oid_entry
listed_oid oid entry h =
    (bytes_eq_iff oid entry.oid).0 (find-holds (λ e. bytes_eq oid e.oid) hash_table h)

assemble :
    (input outer algorithm rest oid oid' ps value digest : Bytes) (a b c d : ℕ)
    → input ≡ der_encode a outer
    → a ≡ 0x30
    → outer ≡ der_encode b algorithm ++ rest
    → b ≡ 0x30
    → algorithm ≡ der_encode c oid ++ ps
    → c ≡ 0x06
    → oid ≡ oid'
    → rest ≡ der_encode d value
    → d ≡ 0x04
    → digest ≡ value
    → input ≡ digest_info oid' ps digest
assemble input outer algorithm rest oid oid' ps value digest a b c d e1 ta e2 tb e3 tc eo e4 td ed =
    cc

-- What the parser accepts is the DER encoding of a listed hash, with NULL parameters or none, and of
-- a digest of that hash's length, and nothing behind it; it reports that hash and that digest.
pub digestinfo_parse_sound :
    (input name digest : Bytes) (n : ℕ)
    → AllBytes input
    → digestinfo_parse input ≡ some (name, digest, n)
    → IsDigestInfo input name digest × (n ≡ length digest)
digestinfo_parse_sound input name digest n bytes h =
    let p = parsed input name digest n h in
    let (r1, t1) = der_read_tag-Reads input 0x30 p.outer bytes p.read_outer in
    let b1 = Reads-AllBytes input p.outer bytes r1 in
    let (r2, t2) = der_read_tag-Reads p.outer.value 0x30 p.algorithm b1 p.read_algorithm in
    let b2 = Reads-AllBytes p.outer.value p.algorithm b1 r2 in
    let (r3, t3) = der_read_tag-Reads p.algorithm.value 0x06 p.oid b2 p.read_oid in
    let rest = drop p.algorithm.consumed p.outer.value in
    let (r4, t4) =
      der_read_tag-Reads rest 0x04 p.value (All-drop _ p.algorithm.consumed p.outer.value b1)
        p.read_value in
    let named = listed_oid p.oid.value p.entry p.listed in
    (
      record {
        entry = p.entry;
        ps = drop p.oid.consumed p.algorithm.value;
        listed = subst (λ o. oid_entry o ≡ some p.entry) named p.listed;
        name_is = p.name_is;
        length_is = rw p.digest_is (omega (arith, p.size, r4.length_is));
        null = null_parameters-IsNull p.algorithm p.oid b2 r2.length_is p.parameters;
        encoded =
            assemble input p.outer.value p.algorithm.value rest p.oid.value p.entry.oid
              (drop p.oid.consumed p.algorithm.value) p.value.value digest p.outer.tag
              p.algorithm.tag p.oid.tag p.value.tag (Reads-whole input p.outer r1 p.whole) t1
              r2.splits t2 r3.splits t3 named
              (last_value p.outer.value p.algorithm.consumed p.value r4 (p.filled ∙ r1.length_is))
              t4 p.digest_is;
      },
      rw (p.digest_is, p.n_is) r4.length_is,
    )
