-- ===== src/Tokens/Filter.antt =====
-- src/tokens/filter.c and filter.h: which candidates a request may be offered, and in what order.
-- A NULL array or string is `none`. The times and the tests on them are those of src/tokens/discovery.c;
-- a time that is not positive is 0, since both tests ask for a positive one.
pub mod Parse
pub mod Operations
pub mod Order
pub mod Kept
use xdg_desktop_portal_certi.Base.{
  ℕ, Bool, true, false, not, ◌&&◌, ◌||◌, List, [], ◌∷◌, ◌++◌, Option, none, some, ltb, ◌==◌,
  if◌then◌else◌, bit_and, bit_or, length, Bytes, bytes_eq, codes, contains,
}
use xdg_desktop_portal_certi.Glib.{AsciiCase, is_text}

-- The one field of `CertificateToken` that a filter reads.
pub record Token : Type 0 where
  pub label : Option Bytes

-- The fields of `CertificateCandidate` that a filter reads. Discovery always sets the key's type.
pub record Candidate : Type 0 where
  pub token : Option Token
  pub issuer_der : Option Bytes
  pub not_before : ℕ
  pub not_after : ℕ
  pub eku_oids : Option (List Bytes)
  pub key_usage : Option (List Bytes)
  pub piv_slot : Option Bytes
  pub key_type : Bytes
  pub can_sign : Bool
  pub can_decrypt : Bool
  pub supported_mechanisms : Option (List Bytes)

-- `CertificatePurpose`: the four purposes, and any other value of the enumeration's type.
pub data Purpose : Type 0 where
  client_auth signing email ssh : Purpose
  other_purpose : ℕ → Purpose

-- `CertificateOperations` is a set of bits.
abbrev pub operation_none : ℕ
operation_none = 0

abbrev pub operation_sign : ℕ
operation_sign = 1

abbrev pub operation_decrypt : ℕ
operation_decrypt = 2

-- `CertificateFilter`.
pub record Filter : Type 0 where
  pub purpose : Purpose
  pub operations : ℕ
  pub issuers : Option (List Bytes)
  pub key_usage : Option (List Bytes)
  pub eku_oids : Option (List Bytes)
  pub key_algorithms : Option (List Bytes)
  pub token_label : Option Bytes
  pub piv_slot : Option Bytes

abbrev pub eku_any : Bytes
eku_any = codes "2.5.29.37.0"

abbrev pub eku_client_auth : Bytes
eku_client_auth = codes "1.3.6.1.5.5.7.3.2"

abbrev pub eku_code_signing : Bytes
eku_code_signing = codes "1.3.6.1.5.5.7.3.3"

abbrev pub eku_email_protection : Bytes
eku_email_protection = codes "1.3.6.1.5.5.7.3.4"

abbrev pub eku_smartcard_logon : Bytes
eku_smartcard_logon = codes "1.3.6.1.4.1.311.20.2.2"

unfoldable pub is_expired : Candidate → ℕ → Bool
is_expired c now = ltb 0 c.not_after && ltb c.not_after now

unfoldable pub is_not_yet_valid : Candidate → ℕ → Bool
is_not_yet_valid c now = ltb 0 c.not_before && ltb now c.not_before

unfoldable pub strv_has : Option (List Bytes) → Bytes → Bool
strv_has none needle = false
strv_has (some strv) needle = contains strv needle

unfoldable pub any_casecmp : AsciiCase → List Bytes → Bytes → Bool
any_casecmp ascii [] needle = false
any_casecmp ascii (s ∷ strv) needle = ascii.casecmp s needle || any_casecmp ascii strv needle

unfoldable pub strv_has_ci : AsciiCase → Option (List Bytes) → Bytes → Bool
strv_has_ci ascii none needle = false
strv_has_ci ascii (some strv) needle = any_casecmp ascii strv needle

unfoldable pub eku_unrestricted : Candidate → Bool
eku_unrestricted c = elim c.eku_oids [ none ↦ true | some oids ↦ false ]

unfoldable pub eku_allows : Candidate → Bytes → Bool
eku_allows c oid = eku_unrestricted c || (strv_has c.eku_oids eku_any || strv_has c.eku_oids oid)

unfoldable pub key_usage_allows_signing : Candidate → Bool
key_usage_allows_signing c = elim c.key_usage [
  | none ↦ true
  | some usage ↦
      contains usage (codes "digital_signature") || contains usage (codes "content_commitment")
]

unfoldable pub key_usage_allows_decryption : Candidate → Bool
key_usage_allows_decryption c = elim c.key_usage [
  | none ↦ true
  | some usage ↦
      contains usage (codes "key_encipherment") || contains usage (codes "data_encipherment")
]

unfoldable pub candidate_signs : Candidate → Bool
candidate_signs c = c.can_sign && key_usage_allows_signing c

unfoldable pub candidate_decrypts : Candidate → Bool
candidate_decrypts c = c.can_decrypt && key_usage_allows_decryption c

-- `certificate_purpose_operations`.
unfoldable pub purpose_operations : Candidate → Purpose → ℕ
purpose_operations c client_auth =
    if not (candidate_signs c)
    then operation_none
    else if eku_unrestricted c
        || (eku_allows c eku_client_auth || strv_has c.eku_oids eku_smartcard_logon)
    then operation_sign
    else operation_none
purpose_operations c signing =
    if not (candidate_signs c)
    then operation_none
    else if eku_unrestricted c
    then operation_sign
    else if strv_has c.eku_oids eku_any
        || (strv_has c.eku_oids eku_code_signing
            || (strv_has c.eku_oids eku_email_protection
                || (strv_has c.eku_oids eku_client_auth
                    || strv_has c.eku_oids eku_smartcard_logon)))
    then operation_sign
    else operation_none
purpose_operations c email =
    if not (eku_allows c eku_email_protection)
    then operation_none
    else let signs =
        if candidate_signs c then bit_or operation_none operation_sign else operation_none in
      if candidate_decrypts c then bit_or signs operation_decrypt else signs
purpose_operations c ssh =
    if not c.can_sign
    then operation_none
    else if bytes_eq c.key_type (codes "RSA") || bytes_eq c.key_type (codes "EC")
    then operation_sign
    else operation_none
purpose_operations c (other_purpose n) = operation_none

unfoldable pub purpose_matches : Candidate → Purpose → ℕ → Bool
purpose_matches c p permitted = not (bit_and (purpose_operations c p) permitted == 0)

unfoldable pub issuer_matches : Candidate → Option (List Bytes) → Bool
issuer_matches c none = true
issuer_matches c (some []) = true
issuer_matches c (some (i ∷ is)) = elim c.issuer_der [
  | none ↦ false
  | some issuer ↦ contains (i ∷ is) issuer
]

-- One algorithm that the caller supports.
unfoldable pub algorithm_matches : AsciiCase → Candidate → Bytes → Bool
algorithm_matches ascii c wanted =
    ascii.casecmp wanted c.key_type
    || (strv_has_ci ascii c.supported_mechanisms wanted
        || ((ascii.ncasecmp wanted (codes "rsa") 3 && bytes_eq c.key_type (codes "RSA"))
            || ((ascii.ncasecmp wanted (codes "ecdsa") 5 || ascii.ncasecmp wanted (codes "ec") 2)
                && bytes_eq c.key_type (codes "EC"))))

unfoldable pub any_algorithm : AsciiCase → Candidate → List Bytes → Bool
any_algorithm ascii c [] = false
any_algorithm ascii c (w ∷ ws) = algorithm_matches ascii c w || any_algorithm ascii c ws

unfoldable pub key_algorithm_matches : AsciiCase → Candidate → Option (List Bytes) → Bool
key_algorithm_matches ascii c none = true
key_algorithm_matches ascii c (some []) = true
key_algorithm_matches ascii c (some (w ∷ ws)) = any_algorithm ascii c (w ∷ ws)

-- The loop over the wanted key usages.
unfoldable pub has_usages : AsciiCase → Candidate → List Bytes → Bool
has_usages ascii c [] = true
has_usages ascii c (u ∷ us) = strv_has_ci ascii c.key_usage u && has_usages ascii c us

unfoldable pub key_usage_matches : AsciiCase → Candidate → Option (List Bytes) → Bool
key_usage_matches ascii c none = true
key_usage_matches ascii c (some us) = has_usages ascii c us

-- The loop over the wanted extended key usages.
unfoldable pub allows_ekus : Candidate → List Bytes → Bool
allows_ekus c [] = true
allows_ekus c (o ∷ os) = eku_allows c o && allows_ekus c os

unfoldable pub eku_matches : Candidate → Option (List Bytes) → Bool
eku_matches c none = true
eku_matches c (some os) = allows_ekus c os

unfoldable pub token_matches : Candidate → Option Bytes → Bool
token_matches c none = true
token_matches c (some []) = true
token_matches c (some (b ∷ bs)) = elim c.token [ none ↦ false | some t ↦ is_text t.label (b ∷ bs) ]

unfoldable pub slot_matches : Candidate → Option Bytes → Bool
slot_matches c none = true
slot_matches c (some []) = true
slot_matches c (some (b ∷ bs)) = is_text c.piv_slot (b ∷ bs)

-- `certificate_filter_matches`: each test that fails returns FALSE.
unfoldable pub filter_matches : AsciiCase → Candidate → Filter → Bool
filter_matches ascii c f =
    if not (purpose_matches c f.purpose f.operations)
    then false
    else if not (issuer_matches c f.issuers)
    then false
    else if not (key_usage_matches ascii c f.key_usage)
    then false
    else if not (eku_matches c f.eku_oids)
    then false
    else if not (key_algorithm_matches ascii c f.key_algorithms)
    then false
    else if not (token_matches c f.token_label)
    then false
    else slot_matches c f.piv_slot

-- The loop of `certificate_filter_apply`, with its two arrays, and the copy behind it.
unfoldable pub apply_loop :
    AsciiCase → Filter → ℕ → List Candidate → List Candidate → List Candidate → List Candidate
apply_loop ascii f now [] usable unusable = usable ++ unusable
apply_loop ascii f now (c ∷ cs) usable unusable =
    let skipped = apply_loop ascii f now cs usable unusable in
    let late = apply_loop ascii f now cs usable (unusable ++ c ∷ []) in
    let added = apply_loop ascii f now cs (usable ++ c ∷ []) unusable in
    if not (filter_matches ascii c f)
    then skipped
    else if is_expired c now || is_not_yet_valid c now
    then late
    else added

-- `certificate_filter_apply` at the time `now`, in seconds.
unfoldable pub filter_apply : AsciiCase → ℕ → List Candidate → Filter → List Candidate
filter_apply ascii now candidates f = apply_loop ascii f now candidates [] []
