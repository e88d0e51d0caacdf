-- ===== src/Broker/Mechanism/Parse/Decrypt.antt =====
-- What a successful parse for decryption has checked.
use xdg_desktop_portal_certi.Base.{
  ℕ, ◌+◌, ◌*◌, ◌/◌, ◌≤◌, ◌≡◌, refl, inl, inr, true, false, Option, none, some, arith, subst, ◌∷◌,
  [], length, Bytes, bytes_eq, bytes_eq_iff, codes, Option-cases, sym, ap, ◌∙◌,
}
use xdg_desktop_portal_certi.Base.Result.{ok, Result-cases}
use xdg_desktop_portal_certi.Ck.{rsa_pkcs_oaep, data_specified}
use xdg_desktop_portal_certi.Glib.{Dict, is_text, AsciiCase}
use xdg_desktop_portal_certi.Broker.Mechanism.{
  Hash, HashEntry, hash_entry, hash_parse, same_hash, Mechanism,
}
use xdg_desktop_portal_certi.Broker.Mechanism.Hashes.{parse_hash-entry}
use xdg_desktop_portal_certi.Broker.Mechanism.Parse.{
  parse_hash, parse_label, lookup_string, check_mgf1, set_label, oaep_mechanism, parse_decrypt,
}

pub is_text-eq : (o : Option Bytes) (b : Bytes) → is_text o b ≡ true → o ≡ some b
unfolding is_text
is_text-eq none b h = absurd (ground arith)
is_text-eq (some a) b h = ground (arith, bytes_eq_iff a b)

parse_label-length : (d : Option Dict) (l : Bytes) → parse_label d ≡ ok (some l) → length l ≤ 256
unfolding parse_label
parse_label-length d l h = ground arith

-- A mechanism for decryption: RSA-OAEP on an RSA key, with one hash for both of its uses, a label of
-- at most 256 bytes, and a modulus with room for the padding.
pub record IsOaep (name : Bytes) (key_type : Option Bytes) (key_size : ℕ) (m : Mechanism)
    : Type 0 where
  pub entry : HashEntry
  pub found : hash_entry m.hash ≡ some entry
  pub name_is : name ≡ codes "RSA_OAEP"
  pub key_is : key_type ≡ some (codes "RSA")
  pub type_is : m.type_of ≡ rsa_pkcs_oaep
  pub has_oaep : m.has_oaep ≡ true
  pub has_pss : m.has_pss ≡ false
  pub hash_is : m.oaep.hash_alg ≡ entry.ck_hash
  pub mgf_is : m.oaep.mgf ≡ entry.mgf
  pub source_is : m.oaep.source ≡ data_specified
  pub source_fits : m.oaep.source_len ≤ 256
  pub input_is : m.expected_input ≡ key_size / 8
  pub room : 2 * entry.size + 2 ≤ m.expected_input

-- The steps of a parse that succeeds.
record OaepSteps (ascii : AsciiCase) (name : Bytes) (d : Option Dict) (kt : Option Bytes) (ks : ℕ)
    (m : Mechanism) : Type 0 where
  hash : Hash
  entry : HashEntry
  label : Option Bytes
  found : hash_entry hash ≡ some entry
  label_is : parse_label d ≡ ok label
  name_ok : bytes_eq name (codes "RSA_OAEP") ≡ true
  key_ok : is_text kt (codes "RSA") ≡ true
  room : 2 * entry.size + 2 ≤ ks / 8
  built : set_label label (oaep_mechanism name hash entry ks) ≡ m

parse_decrypt-steps :
    (ascii : AsciiCase) (name : Bytes) (d : Option Dict) (kt : Option Bytes) (ks : ℕ)
    (m : Mechanism)
    → parse_decrypt ascii name d kt ks ≡ ok m
    → OaepSteps ascii name d kt ks m
unfolding parse_decrypt
parse_decrypt-steps ascii name d kt ks m h = elim (Result-cases (parse_hash ascii d)) [
  | inr (e, eq) ↦ absurd (ground arith)
  | inl (hash, eq) ↦ elim (Result-cases (parse_label d)) [
    | inr (e, eq') ↦ absurd (ground arith)
    | inl (label, eq') ↦
        let (entry, found) = parse_hash-entry ascii d hash eq in
        record {
          hash = hash;
          entry = entry;
          label = label;
          found = found;
          label_is = eq';
          name_ok = ground arith;
          key_ok = ground arith;
          room = ground arith;
          built = ground arith;
        }
  ]
]

labelled-IsOaep :
    (name : Bytes) (kt : Option Bytes) (ks : ℕ) (hash : Hash) (entry : HashEntry) (d : Option Dict)
    (label : Option Bytes)
    → hash_entry hash ≡ some entry
    → parse_label d ≡ ok label
    → name ≡ codes "RSA_OAEP"
    → kt ≡ some (codes "RSA")
    → 2 * entry.size + 2 ≤ ks / 8
    → IsOaep name kt ks (set_label label (oaep_mechanism name hash entry ks))
labelled-IsOaep name kt ks hash entry d none found l n k room = record {
  entry = entry;
  found = found;
  name_is = n;
  key_is = k;
  type_is = refl;
  has_oaep = refl;
  has_pss = refl;
  hash_is = refl;
  mgf_is = refl;
  source_is = refl;
  source_fits = omega arith;
  input_is = refl;
  room = room;
}
labelled-IsOaep name kt ks hash entry d (some []) found l n k room = record {
  entry = entry;
  found = found;
  name_is = n;
  key_is = k;
  type_is = refl;
  has_oaep = refl;
  has_pss = refl;
  hash_is = refl;
  mgf_is = refl;
  source_is = refl;
  source_fits = omega arith;
  input_is = refl;
  room = room;
}
labelled-IsOaep name kt ks hash entry d (some (b ∷ bs)) found l n k room = record {
  entry = entry;
  found = found;
  name_is = n;
  key_is = k;
  type_is = refl;
  has_oaep = refl;
  has_pss = refl;
  hash_is = refl;
  mgf_is = refl;
  source_is = refl;
  source_fits = parse_label-length d (b ∷ bs) l;
  input_is = refl;
  room = room;
}

pub parse_decrypt-IsOaep :
    (ascii : AsciiCase) (name : Bytes) (d : Option Dict) (kt : Option Bytes) (ks : ℕ)
    (m : Mechanism)
    → parse_decrypt ascii name d kt ks ≡ ok m
    → IsOaep name kt ks m
parse_decrypt-IsOaep ascii name d kt ks m h =
    let s = parse_decrypt-steps ascii name d kt ks m h in
    subst (IsOaep name kt ks) s.built (
      labelled-IsOaep name kt ks s.hash s.entry d s.label s.found s.label_is
        ((bytes_eq_iff name (codes "RSA_OAEP")).0 s.name_ok) (is_text-eq kt (codes "RSA") s.key_ok)
        s.room)

-- The hashes that the request asks for: the mechanism's hash is the request's, and a `mgf1_hash` that is
-- given names the same one.
pub record IsAsked (ascii : AsciiCase) (d : Option Dict) (m : Mechanism) : Type 0 where
  pub hash_asked : parse_hash ascii d ≡ ok m.hash
  pub mgf1 : Option Bytes
  pub mgf1_asked : lookup_string d (codes "mgf1_hash") ≡ ok mgf1
  pub same_asked : (given : Bytes) → mgf1 ≡ some given → hash_parse ascii (some given) ≡ some m.hash

same_hash-eq : (a b : Hash) → same_hash a b ≡ true → a ≡ b
unfolding same_hash
same_hash-eq a b h = ground (arith, h)

check_mgf1-given :
    (ascii : AsciiCase) (hash : Hash) (given : Bytes)
    → check_mgf1 ascii hash (some given) ≡ ok tt
    → hash_parse ascii (some given) ≡ some hash
unfolding check_mgf1
check_mgf1-given ascii hash given h = elim (Option-cases (hash_parse ascii (some given))) [
  | inl e ↦ absurd (ground (arith, e, h))
  | inr (found, e) ↦ ground (arith, e, h, same_hash-eq found hash)
]

labelled-hash :
    (label : Option Bytes) (name : Bytes) (hash : Hash) (entry : HashEntry) (ks : ℕ)
    → (set_label label (oaep_mechanism name hash entry ks)).hash ≡ hash
labelled-hash none name hash entry ks = refl
labelled-hash (some []) name hash entry ks = refl
labelled-hash (some (b ∷ bs)) name hash entry ks = refl

pub parse_decrypt-IsAsked :
    (ascii : AsciiCase) (name : Bytes) (d : Option Dict) (kt : Option Bytes) (ks : ℕ)
    (m : Mechanism)
    → parse_decrypt ascii name d kt ks ≡ ok m
    → IsAsked ascii d m
unfolding parse_decrypt
parse_decrypt-IsAsked ascii name d kt ks m h = elim (Result-cases (parse_hash ascii d)) [
  | inr (e, eq) ↦ absurd (ground arith)
  | inl (hash, eq) ↦ elim (Result-cases (lookup_string d (codes "mgf1_hash"))) [
    | inr (e, eq') ↦ absurd (ground arith)
    | inl (mgf1, eq') ↦
        let (entry, found) = parse_hash-entry ascii d hash eq in
        let checked : check_mgf1 ascii hash mgf1 ≡ ok tt =
          elim (Result-cases (check_mgf1 ascii hash mgf1)) [
            | inr (e, c) ↦ absurd (ground arith)
            | inl (_, c) ↦ c
          ] in
        let same : m.hash ≡ hash = elim (Result-cases (parse_label d)) [
          | inr (e, l) ↦ absurd (ground arith)
          | inl (label, l) ↦
              let built : set_label label (oaep_mechanism name hash entry ks) ≡ m = ground arith in
              ap (λ x. x.hash) (sym built) ∙ labelled-hash label name hash entry ks
        ] in
        record {
          hash_asked = eq ∙ ap ok (sym same);
          mgf1 = mgf1;
          mgf1_asked = eq';
          same_asked = λ given e.
              check_mgf1-given ascii hash given (ap (check_mgf1 ascii hash) (sym e) ∙ checked)
              ∙ ap some (sym same);
        }
  ]
]
