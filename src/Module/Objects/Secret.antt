-- ===== src/Module/Objects/Secret.antt =====
-- The private key's secret attributes are never given out.
use xdg_desktop_portal_certi.Base.{
  ℕ, ◌+◌, ◌*◌, ◌%◌, ◌^◌, ◌<◌, ◌≡◌, ◌≢◌, refl, ◌∙◌, ap, inl, inr, Bool, true, false, not, List, [],
  ◌∷◌, Option, none, some, ◌==◌, find, find-append_none, All, All-map, ==_refl, map, Bytes, codes,
  Option-cases, arith,
}
use xdg_desktop_portal_certi.Base.Bits.{bit_or_nibble}
use xdg_desktop_portal_certi.Glib.{is_text}
use xdg_desktop_portal_certi.Module.Grant.{Grant, Gnutls}
use xdg_desktop_portal_certi.Module.Rv
use xdg_desktop_portal_certi.Module.Rv.{
  Rv, ckr_attribute_sensitive, CkAttribute, Abi, same_attribute, same_attribute_iff,
}
use xdg_desktop_portal_certi.Module.Objects.{
  Attribute, Object, Objects, Template, Flags, find_attribute, unavailable_entry, answer_one,
  answer_all, no_flags, get_attributes, object_handle, objects_lookup,
}
use xdg_desktop_portal_certi.Module.Objects.Certificate.{
  Parsed, add_sensitive, rsa_parts, curve_parts, key_public_parts, private_attributes,
  secret_attributes, private_object_attributes, object_list, objects_new, parse_certificate,
  spki_split,
}

-- The types of the key's secret: for an RSA key all its private numbers, for an EC key its value.
pub data IsSecret : Bool → CkAttribute → Type 0 where
  its_value : {is_rsa : Bool} → IsSecret is_rsa Rv.value
  its_private_exponent : IsSecret true Rv.private_exponent
  its_prime_1 : IsSecret true Rv.prime_1
  its_prime_2 : IsSecret true Rv.prime_2
  its_exponent_1 : IsSecret true Rv.exponent_1
  its_exponent_2 : IsSecret true Rv.exponent_2
  its_coefficient : IsSecret true Rv.coefficient

abbrev names : CkAttribute → Attribute → Bool
names ty a = same_attribute a.type_of ty

abbrev NotPublic : CkAttribute → Type 0
NotPublic ty =
    (same_attribute Rv.modulus ty ≡ false)
    × (same_attribute Rv.modulus_bits ty ≡ false)
    × (same_attribute Rv.public_exponent ty ≡ false)
    × (same_attribute Rv.ec_params ty ≡ false)
    × (same_attribute Rv.ec_point ty ≡ false)

IsSecret-NotPublic : {is_rsa : Bool} {ty : CkAttribute} → IsSecret is_rsa ty → NotPublic ty
unfolding same_attribute
IsSecret-NotPublic its_value = (refl, refl, refl, refl, refl)
IsSecret-NotPublic its_private_exponent = (refl, refl, refl, refl, refl)
IsSecret-NotPublic its_prime_1 = (refl, refl, refl, refl, refl)
IsSecret-NotPublic its_prime_2 = (refl, refl, refl, refl, refl)
IsSecret-NotPublic its_exponent_1 = (refl, refl, refl, refl, refl)
IsSecret-NotPublic its_exponent_2 = (refl, refl, refl, refl, refl)
IsSecret-NotPublic its_coefficient = (refl, refl, refl, refl, refl)

sensitive_of :
    {is_rsa : Bool} {ty : CkAttribute}
    → IsSecret is_rsa ty
    → find (names ty) (secret_attributes is_rsa) ≡ some (add_sensitive ty)
unfolding find secret_attributes same_attribute
sensitive_of its_value = refl
sensitive_of its_private_exponent = refl
sensitive_of its_prime_1 = refl
sensitive_of its_prime_2 = refl
sensitive_of its_exponent_1 = refl
sensitive_of its_exponent_2 = refl
sensitive_of its_coefficient = refl

rsa_none :
    (abi : Abi) (ty : CkAttribute)
    → NotPublic ty
    → (x : Option (Bytes × Bytes)) → find (names ty) (rsa_parts abi x) ≡ none
unfolding find
rsa_none abi ty (a, b, c, d, e) none = refl
rsa_none abi ty (a, b, c, d, e) (some (m, x)) = rw (a, b, c) refl

curve_none :
    (ty : CkAttribute)
    → NotPublic ty
    → (x : Option (Option Bytes × Bytes)) → find (names ty) (curve_parts x) ≡ none
unfolding find
curve_none ty (a, b, c, d, e) none = refl
curve_none ty (a, b, c, d, e) (some (none, k)) = rw e refl
curve_none ty (a, b, c, d, e) (some (some ps, k)) = rw (d, e) refl

module _ (lib : Gnutls) (abi : Abi) (grant : Grant) (parsed : Parsed) where
  not_private :
      {is_rsa : Bool} {ty : CkAttribute}
      → IsSecret is_rsa ty
      → find (names ty) (private_attributes abi grant parsed is_rsa) ≡ none
  unfolding find private_attributes same_attribute
  not_private its_value = refl
  not_private its_private_exponent = refl
  not_private its_prime_1 = refl
  not_private its_prime_2 = refl
  not_private its_exponent_1 = refl
  not_private its_exponent_2 = refl
  not_private its_coefficient = refl

  not_public :
      (is_rsa : Bool) (ty : CkAttribute)
      → NotPublic ty
      → find (names ty) (key_public_parts lib abi parsed is_rsa) ≡ none
  unfolding key_public_parts
  not_public true ty h = rsa_none abi ty h (lib.export_rsa_raw parsed.der)
  not_public false ty h = curve_none ty h (spki_split parsed.spki)

  private_key-find :
      {is_rsa : Bool} {ty : CkAttribute}
      → IsSecret is_rsa ty
      → find (names ty) (private_object_attributes lib abi grant parsed is_rsa)
        ≡ some (add_sensitive ty)
  private_key-find {is_rsa} {ty} h =
      find-append_none (names ty) (private_attributes abi grant parsed is_rsa) _ (not_private h)
      ∙ find-append_none (names ty) (key_public_parts lib abi parsed is_rsa) _
          (not_public is_rsa ty (IsSecret-NotPublic h))
      ∙ sensitive_of h

abbrev sensitive_flags : Flags → Flags
sensitive_flags f = record f { is_sensitive = true }

-- Of a sensitive attribute only the flag is left.
answer_one-sensitive :
    (abi : Abi) (o : Object) (t : Template) (f : Flags)
    → find_attribute o t.type_of ≡ some (add_sensitive t.type_of)
    → answer_one abi o t f ≡ (unavailable_entry abi t, sensitive_flags f)
unfolding answer_one
answer_one-sensitive abi o t f h = rw h refl

answer_all-sensitive :
    (abi : Abi) (o : Object) (ts : List Template) (f : Flags)
    → All (λ t. find_attribute o t.type_of ≡ some (add_sensitive t.type_of)) ts
    → f.is_sensitive ≡ true
    → ((answer_all abi o ts f).0 ≡ map (unavailable_entry abi) ts)
      × ((answer_all abi o ts f).1.is_sensitive ≡ true)
unfolding answer_all
answer_all-sensitive abi o [] f all h = (refl, h)
answer_all-sensitive abi o (t ∷ ts) f (one, all) h =
    let (rest, flag) = answer_all-sensitive abi o ts (sensitive_flags f) all refl in
    let e = answer_one-sensitive abi o t f one in
    (rw e (ap (λ r. unavailable_entry abi t ∷ r) rest), rw e flag)

-- The handles of one generation are distinct, and name their objects.
pub nibble : (g i : ℕ) → i < 16 → object_handle g i ≡ g * 16 % 2 ^ 32 + i
unfolding object_handle
nibble g i h =
    let e : g * 16 % 2 ^ 32 ≡ g % 2 ^ 28 * 16 = omega arith in rw e (bit_or_nibble (g % 2 ^ 28) i h)

pub apart : (g i j : ℕ) → i < 16 → j < 16 → i ≢ j → (object_handle g i == object_handle g j) ≡ false
apart g i j hi hj ne = ground (arith, nibble g i hi, nibble g j hj, ne)

module _ (lib : Gnutls) (abi : Abi) (grant : Grant) (parsed : Parsed) (is_rsa : Bool) (g : ℕ) where
  abbrev pub key_object : Object
  key_object = record {
    handle = object_handle g 3;
    object_class = abi.cko_private_key;
    attributes = private_object_attributes lib abi grant parsed is_rsa;
  }

  pub third :
      find (λ o. o.handle == object_handle g 3) (object_list lib abi grant parsed is_rsa g)
      ≡ some key_object
  unfolding find
  third =
      rw
        (
          apart g 1 3 (omega arith) (omega arith) (omega arith),
          apart g 2 3 (omega arith) (omega arith) (omega arith),
          ==_refl (object_handle g 3),
        )
        refl

  key_object-sensitive :
      (ts : List Template)
      → All (λ t. IsSecret is_rsa t.type_of) ts
      → All (λ t. find_attribute key_object t.type_of ≡ some (add_sensitive t.type_of)) ts
  unfolding find_attribute
  key_object-sensitive ts all = All-map (λ t h. private_key-find lib abi grant parsed h) ts all

  key_object-get :
      (t : Template) (ts : List Template)
      → All (λ t. IsSecret is_rsa t.type_of) (t ∷ ts)
      → get_attributes abi key_object (t ∷ ts)
        ≡ (ckr_attribute_sensitive, map (unavailable_entry abi) (t ∷ ts))
  unfolding get_attributes answer_all
  key_object-get t ts all =
      let (one, rest) = key_object-sensitive (t ∷ ts) all in
      let (entries, flag) =
        answer_all-sensitive abi key_object ts (sensitive_flags no_flags) rest refl in
      rw (answer_one-sensitive abi key_object t no_flags one, entries, flag) refl

abbrev pub is_rsa_grant : Grant → Bool
is_rsa_grant grant = not (is_text grant.key_type (codes "EC"))

-- The objects of a grant have a private key under its handle, and a request for any of the key's secret
-- attributes, alone or with others, writes no byte: each entry is marked as unavailable, and the call
-- returns CKR_ATTRIBUTE_SENSITIVE.
pub objects_new-secret :
    (lib : Gnutls) (abi : Abi) (grant : Grant) (g : ℕ) (os : Objects)
    → objects_new lib abi grant g ≡ some os
    → (t : Template) (ts : List Template)
    → All (λ t. IsSecret (is_rsa_grant grant) t.type_of) (t ∷ ts)
    → (key : Object) × (objects_lookup (some os) (object_handle g 3) ≡ some key)
      × (key.object_class ≡ abi.cko_private_key)
      × (get_attributes abi key (t ∷ ts)
          ≡ (ckr_attribute_sensitive, map (unavailable_entry abi) (t ∷ ts)))
unfolding objects_new objects_lookup
objects_new-secret lib abi grant g os h t ts all =
    elim (Option-cases (parse_certificate lib grant.certificate_der)) [
      | inl e ↦ absurd (ground (arith, h, e))
      | inr (parsed, e) ↦
          let is_rsa = is_rsa_grant grant in
          let built : os ≡ record {
            objects = object_list lib abi grant parsed is_rsa g;
            identifier = parsed.identifier;
          } =
            ground (arith, h, e) in
          (
            key_object lib abi grant parsed is_rsa g,
            rw built (third lib abi grant parsed is_rsa g),
            refl,
            key_object-get lib abi grant parsed is_rsa g t ts all,
          )
    ]
