-- ===== src/Tests/FilterRuns.antt =====
-- Runs of the certificate filter.
use xdg_desktop_portal_certi.Base.{
  ◌≡◌, refl, true, false, not, ◌&&◌, List, [], ◌∷◌, ◌++◌, none, some, All, codes, bytes_eq,
  contains,
}
use xdg_desktop_portal_certi.Base.Result.{ok}
use xdg_desktop_portal_certi.Glib.{
  Dict, empty, entry, string, strings, vardict, lookup_value, lookup_text, keys,
}
use xdg_desktop_portal_certi.Tokens.Filter.{
  Candidate, Filter, email, ssh, operation_sign, operation_decrypt, filter_matches, filter_apply,
  apply_loop, purpose_matches, purpose_operations, candidate_signs, candidate_decrypts,
  key_usage_allows_signing, key_usage_allows_decryption, eku_allows, eku_unrestricted,
  issuer_matches, key_usage_matches, eku_matches, key_algorithm_matches, token_matches,
  slot_matches, is_expired, is_not_yet_valid,
}
use xdg_desktop_portal_certi.Tokens.Filter.Parse.{
  filter_parse, parse_constraints, parse_issuers, parse_token_label, parse_piv_slot,
  strv_from_variant, keys_are_known,
}
use xdg_desktop_portal_certi.Tokens.Filter.Order.{select, is_current, filter_apply-select}
use xdg_desktop_portal_certi.Tokens.Filter.Operations.{
  Decrypts, Signs, filter_apply-Decrypts, filter_apply-Signs,
}
use xdg_desktop_portal_certi.Tokens.Filter.Kept.{Keeps, filter_parse-Keeps}
use xdg_desktop_portal_certi.Tests.Ascii.{ascii}

abbrev card : Candidate
card = record {
  token = none;
  issuer_der = none;
  not_before = 10;
  not_after = 20;
  eku_oids = none;
  key_usage = none;
  piv_slot = none;
  key_type = codes "RSA";
  can_sign = true;
  can_decrypt = true;
  supported_mechanisms = none;
}

abbrev expired : Candidate
expired = record card { not_before = 1; not_after = 5 }

abbrev sign_only : Candidate
sign_only = record card { can_decrypt = false }

abbrev decrypting : Filter
decrypting = record {
  purpose = email;
  operations = operation_decrypt;
  issuers = none;
  key_usage = none;
  eku_oids = none;
  key_algorithms = none;
  token_label = none;
  piv_slot = none;
}

abbrev signing_filter : Filter
signing_filter = record decrypting { purpose = ssh; operations = operation_sign }

abbrev candidates : List Candidate
candidates = expired ∷ sign_only ∷ card ∷ []

offered : filter_apply ascii 15 candidates decrypting ≡ card ∷ expired ∷ []
unfolding filter_apply apply_loop filter_matches purpose_matches purpose_operations candidate_signs
    candidate_decrypts key_usage_allows_signing key_usage_allows_decryption eku_allows
    eku_unrestricted issuer_matches key_usage_matches eku_matches key_algorithm_matches
    token_matches slot_matches is_expired is_not_yet_valid
offered = refl

abbrev constraints : Dict
constraints =
    entry (codes "piv_slot") (string (codes "signature"))
      (entry (codes "eku") (strings (codes "1.2.3" ∷ [])) empty)

abbrev options : Dict
options = entry (codes "certificate_filter") (vardict constraints) empty

abbrev constrained : Filter
constrained = record decrypting {
  eku_oids = some (codes "1.2.3" ∷ []);
  piv_slot = some (codes "signature");
}

parsed : filter_parse (some options) email operation_decrypt ≡ ok constrained
unfolding filter_parse parse_constraints parse_issuers parse_token_label parse_piv_slot
    strv_from_variant keys_are_known keys lookup_text lookup_value contains bytes_eq
parsed = refl

given : lookup_value options (codes "certificate_filter") ≡ some (vardict constraints)
unfolding lookup_value bytes_eq
given = refl

filter_apply-select_example :
    filter_apply ascii 15 candidates decrypting
    ≡ select (λ c. filter_matches ascii c decrypting && is_current c 15) candidates
      ++ select (λ c. filter_matches ascii c decrypting && not (is_current c 15)) candidates
filter_apply-select_example = filter_apply-select ascii decrypting 15 candidates

filter_apply-Decrypts_example :
    All (λ c. (email ≡ email) × Decrypts c) (filter_apply ascii 15 candidates decrypting)
filter_apply-Decrypts_example = filter_apply-Decrypts ascii decrypting 15 candidates refl

filter_apply-Signs_example :
    All (λ c. Signs c ssh) (filter_apply ascii 15 candidates signing_filter)
filter_apply-Signs_example = filter_apply-Signs ascii signing_filter 15 candidates refl

filter_parse-Keeps_example :
    (email ≡ email) × (operation_decrypt ≡ operation_decrypt) × Keeps constraints constrained
filter_parse-Keeps_example =
    filter_parse-Keeps options constraints email operation_decrypt constrained given parsed
