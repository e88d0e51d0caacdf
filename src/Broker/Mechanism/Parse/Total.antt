-- ===== src/Broker/Mechanism/Parse/Total.antt =====
-- No assertion of `certificate_mechanism_parse` fails and no entry that it reads is NULL.
use xdg_desktop_portal_certi.Base.{
  ℕ, ◌≡◌, ◌≢◌, refl, Bool, true, false, Option, none, some, arith, Bytes, bytes_eq, codes,
}
use xdg_desktop_portal_certi.Base.Result.{
  Result, ok, err, IoError, aborted, invalid_argument, not_supported, ◌>>=◌, ◌>>◌, require, present,
}
use xdg_desktop_portal_certi.Glib.{Dict, is_text, AsciiCase}
use xdg_desktop_portal_certi.Broker.Mechanism.{Hash, HashEntry, hash_entry, Encoding}
use xdg_desktop_portal_certi.Broker.Mechanism.Hashes.{parse_hash-entry, parse_mgf-entry}
use xdg_desktop_portal_certi.Broker.Mechanism.Parse.{
  lookup_string, parse_encoding, parse_hash, check_mgf1, parse_label, parse_decrypt, parse_pkcs1,
  parse_ecdsa, parse_pss, parse_mgf, parse_salt, encoding_of, parse_named, parse_sign,
  mechanism_parse,
}

abbrev Returns {ℓ} : {A : Type ℓ} → Result A → Type ℓ
Returns r = r ≢ err aborted

>>=-Returns {ℓ κ} :
    {A : Type ℓ} {B : Type κ} (m : Result A) (f : A → Result B)
    → Returns m
    → ((a : A) → m ≡ ok a → Returns (f a))
    → Returns (m >>= f)
>>=-Returns (ok a) f hm hf = hf a refl
>>=-Returns (err e) f hm hf = λ h. hm (ground arith)

require-Returns : (t : Bool) (e : IoError) → e ≢ aborted → Returns (require t e)
require-Returns t e ne h = ground arith

present-Returns {ℓ} : {A : Type ℓ} (o : Option A) → Returns (present o invalid_argument)
present-Returns none h = ground arith
present-Returns (some a) h = ground arith

found-Returns : (o : Option HashEntry) (e : HashEntry) → o ≡ some e → Returns (present o aborted)
found-Returns o e found h = ground arith

lookup_string-Returns : (d : Option Dict) (key : Bytes) → Returns (lookup_string d key)
unfolding lookup_string
lookup_string-Returns none key h = ground arith
lookup_string-Returns (some d) key h = ground arith

parse_hash-Returns : (ascii : AsciiCase) (d : Option Dict) → Returns (parse_hash ascii d)
unfolding parse_hash
parse_hash-Returns ascii none h = ground arith
parse_hash-Returns ascii (some d) h = ground arith

check_mgf1-Returns :
    (ascii : AsciiCase) (hash : Hash) (o : Option Bytes) → Returns (check_mgf1 ascii hash o)
unfolding check_mgf1
check_mgf1-Returns ascii hash none h = ground arith
check_mgf1-Returns ascii hash (some n) h = ground arith

parse_label-Returns : (d : Option Dict) → Returns (parse_label d)
unfolding parse_label
parse_label-Returns none h = ground arith
parse_label-Returns (some d) h = ground arith

parse_mgf-Returns :
    (ascii : AsciiCase) (hash : Hash) (e : HashEntry) (o : Option Bytes)
    → Returns (parse_mgf ascii hash e o)
unfolding parse_mgf
parse_mgf-Returns ascii hash e none h = ground arith
parse_mgf-Returns ascii hash e (some n) h = ground arith

parse_salt-Returns : (n : ℕ) (d : Option Dict) → Returns (parse_salt n d)
unfolding parse_salt
parse_salt-Returns n none h = ground arith
parse_salt-Returns n (some d) h = ground arith

parse_encoding-Returns : (d : Option Dict) → Returns (parse_encoding d)
unfolding parse_encoding
parse_encoding-Returns d =
    >>=-Returns (lookup_string d (codes "signature_encoding")) _
      (lookup_string-Returns d (codes "signature_encoding")) (λ o e h. text o h)
  where
    text : (o : Option Bytes) → Returns (encoding_of o)
    text none h = ground arith
    text (some t) h = ground arith

-- A refusal by a test returns.
guarded {ℓ} :
    {B : Type ℓ} (t : Bool) (e : IoError) (k : Result B)
    → e ≢ aborted
    → Returns k
    → Returns (require t e >> k)
guarded true e k ne hk h = hk h
guarded false e k ne hk h = ground arith

checked {ℓ} :
    {B : Type ℓ} (t : Bool) (e : IoError) (b : B) → e ≢ aborted → Returns (require t e >> ok b)
checked t e b ne = guarded t e (ok b) ne (λ h. ground arith)

module _ (ascii : AsciiCase) (name : Bytes) (d : Option Dict) (kt : Option Bytes) (ks : ℕ) where
  parse_decrypt-Returns : Returns (parse_decrypt ascii name d kt ks)
  unfolding parse_decrypt
  parse_decrypt-Returns =
      guarded (bytes_eq name (codes "RSA_OAEP")) not_supported _ (ground arith) (
        guarded (is_text kt (codes "RSA")) not_supported _ (ground arith) (
          >>=-Returns (parse_hash ascii d) _ (parse_hash-Returns ascii d) λ hash e.
            let (entry, found) = parse_hash-entry ascii d hash e in
            >>=-Returns (present (hash_entry hash) aborted) _ (found-Returns _ entry found)
              λ entry' e'.
                >>=-Returns (lookup_string d (codes "mgf1_hash")) _
                  (lookup_string-Returns d (codes "mgf1_hash"))
                  λ mgf1 e''.
                    >>=-Returns (check_mgf1 ascii hash mgf1) _ (check_mgf1-Returns ascii hash mgf1)
                      λ _ _.
                        >>=-Returns (parse_label d) _ (parse_label-Returns d)
                          λ label _. checked _ invalid_argument _ (ground arith)))

  parse_pkcs1-Returns : (encoding : Encoding) → Returns (parse_pkcs1 ascii name d kt ks encoding)
  unfolding parse_pkcs1
  parse_pkcs1-Returns encoding = guarded (is_text kt (codes "RSA")) not_supported _ (ground arith) (
      >>=-Returns (parse_hash ascii d) _ (parse_hash-Returns ascii d) λ hash e.
        let (entry, found) = parse_hash-entry ascii d hash e in
        >>=-Returns (present (hash_entry hash) aborted) _ (found-Returns _ entry found)
          λ entry' e'. checked _ invalid_argument _ (ground arith))

  parse_pss-Returns : (encoding : Encoding) → Returns (parse_pss ascii name d kt ks encoding)
  unfolding parse_pss
  parse_pss-Returns encoding = guarded (is_text kt (codes "RSA")) not_supported _ (ground arith) (
      >>=-Returns (parse_hash ascii d) _ (parse_hash-Returns ascii d) λ hash e.
        let (entry, found) = parse_hash-entry ascii d hash e in
        >>=-Returns (present (hash_entry hash) aborted) _ (found-Returns _ entry found) λ entry' e'.
          >>=-Returns (lookup_string d (codes "mgf")) _ (lookup_string-Returns d (codes "mgf"))
            λ mgf _.
              >>=-Returns (parse_mgf ascii hash entry' mgf) _
                (parse_mgf-Returns ascii hash entry' mgf)
                λ mgf_hash em.
                  >>=-Returns (parse_salt entry'.size d) _ (parse_salt-Returns entry'.size d)
                    λ salt _. guarded _ invalid_argument _ (ground arith) (
                      let (mgf_entry, found') =
                        parse_mgf-entry ascii hash mgf_hash entry' mgf (ground arith) em in
                      >>=-Returns (present (hash_entry mgf_hash) aborted) _
                        (found-Returns _ mgf_entry found') λ _ _ h. ground arith))

  parse_ecdsa-Returns : (encoding : Encoding) → Returns (parse_ecdsa ascii name d kt encoding)
  unfolding parse_ecdsa
  parse_ecdsa-Returns encoding =
      guarded (is_text kt (codes "EC")) not_supported _ (ground arith)
        (>>=-Returns (parse_hash ascii d) _ (parse_hash-Returns ascii d) λ hash e h. ground arith)

  parse_sign-Returns : Returns (parse_sign ascii name d kt ks)
  unfolding parse_sign
  parse_sign-Returns =
      >>=-Returns (parse_encoding d) _ (parse_encoding-Returns d) λ encoding _. named encoding
    where
      named : (encoding : Encoding) → Returns (parse_named ascii name d kt ks encoding)
      named encoding h =
          unfold parse_named in
          ground (
            arith,
            parse_pkcs1-Returns encoding,
            parse_pss-Returns encoding,
            parse_ecdsa-Returns encoding,
          )

-- A parse ends with a mechanism or with an error that it reports, whatever the request: every hash
-- that it accepts has an entry.
pub mechanism_parse-Returns :
    (ascii : AsciiCase) (name : Option Bytes) (d : Option Dict) (kt : Option Bytes) (ks : ℕ)
    (for_decrypt : Bool)
    → mechanism_parse ascii name d kt ks for_decrypt ≢ err aborted
unfolding mechanism_parse
mechanism_parse-Returns ascii none d kt ks f h = ground arith
mechanism_parse-Returns ascii (some n) d kt ks true h =
    guarded _ invalid_argument _ (ground arith) (parse_decrypt-Returns ascii n d kt ks) h
mechanism_parse-Returns ascii (some n) d kt ks false h =
    guarded _ invalid_argument _ (ground arith) (parse_sign-Returns ascii n d kt ks) h
