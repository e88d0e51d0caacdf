-- ===== src/Tokens/Filter/Parse.antt =====
-- `certificate_filter_parse` of src/tokens/filter.c. The record that a failed call leaves is cleared by
-- the call itself or by its caller.
use xdg_desktop_portal_certi.Base.{
  ℕ, Bool, true, ◌&&◌, List, [], ◌∷◌, Option, none, some, if◌then◌else◌, Bytes, codes, contains,
}
use xdg_desktop_portal_certi.Base.Result.{Result, ok, err, invalid_argument, ◌>>=◌, ◌>>◌, require}
use xdg_desktop_portal_certi.Glib.{
  Variant, byte_arrays, strings, vardict, Dict, lookup_value, lookup_text, keys,
}
use xdg_desktop_portal_certi.Tokens.Filter.{Filter, Purpose}

abbrev pub strings_or_fail : Variant → Result (Option (List Bytes))
strings_or_fail (strings ss) = ok (some ss)
strings_or_fail _ = err invalid_argument

unfoldable pub strv_from_variant : Dict → Bytes → Result (Option (List Bytes))
strv_from_variant dict key = elim (lookup_value dict key) [
  | none ↦ ok none
  | some v ↦ strings_or_fail v
]

abbrev pub known : List Bytes
known =
    codes "issuers"
    ∷ codes "key_usage"
    ∷ codes "eku"
    ∷ codes "key_algorithms"
    ∷ codes "token_label"
    ∷ codes "piv_slot"
    ∷ []

abbrev pub slots : List Bytes
slots =
    codes "authentication"
    ∷ codes "signature"
    ∷ codes "key_management"
    ∷ codes "card_authentication"
    ∷ []

-- The loop over the keys of the filter: the first unknown one fails.
unfoldable pub keys_are_known : List Bytes → Bool
keys_are_known [] = true
keys_are_known (k ∷ ks) = contains known k && keys_are_known ks

abbrev pub issuers_or_fail : Variant → Result (Option (List Bytes))
issuers_or_fail (byte_arrays is) = ok (some is)
issuers_or_fail _ = err invalid_argument

unfoldable pub parse_issuers : Dict → Result (Option (List Bytes))
parse_issuers filter = elim (lookup_value filter (codes "issuers")) [
  | none ↦ ok none
  | some v ↦ issuers_or_fail v
]

-- A present value that is no string fails.
abbrev pub absent_or_fail : Option Variant → Result (Option Bytes)
absent_or_fail none = ok none
absent_or_fail (some mistyped) = err invalid_argument

unfoldable pub parse_token_label : Dict → Result (Option Bytes)
parse_token_label filter = elim (lookup_text filter (codes "token_label")) [
  | none ↦ absent_or_fail (lookup_value filter (codes "token_label"))
  | some text ↦ ok (some text)
]

unfoldable pub parse_piv_slot : Dict → Result (Option Bytes)
parse_piv_slot filter = elim (lookup_text filter (codes "piv_slot")) [
  | none ↦ absent_or_fail (lookup_value filter (codes "piv_slot"))
  | some text ↦ if contains slots text then ok (some text) else err invalid_argument
]

-- The record after `memset`, with the two arguments.
abbrev no_constraints : Purpose → ℕ → Filter
no_constraints purpose operations = record {
  purpose = purpose;
  operations = operations;
  issuers = none;
  key_usage = none;
  eku_oids = none;
  key_algorithms = none;
  token_label = none;
  piv_slot = none;
}

-- The part behind the test that `certificate_filter` is a vardict.
unfoldable pub parse_constraints : Dict → Purpose → ℕ → Result Filter
parse_constraints filter purpose operations = do
  require (keys_are_known (keys filter)) invalid_argument
  issuers ← parse_issuers filter
  key_usage ← strv_from_variant filter (codes "key_usage")
  eku_oids ← strv_from_variant filter (codes "eku")
  key_algorithms ← strv_from_variant filter (codes "key_algorithms")
  token_label ← parse_token_label filter
  piv_slot ← parse_piv_slot filter
  ok record {
    purpose = purpose;
    operations = operations;
    issuers = issuers;
    key_usage = key_usage;
    eku_oids = eku_oids;
    key_algorithms = key_algorithms;
    token_label = token_label;
    piv_slot = piv_slot;
  }

abbrev pub filter_or_fail : Variant → Purpose → ℕ → Result Filter
filter_or_fail (vardict filter) purpose operations = parse_constraints filter purpose operations
filter_or_fail _ purpose operations = err invalid_argument

-- `certificate_filter_parse`.
unfoldable pub filter_parse : Option Dict → Purpose → ℕ → Result Filter
filter_parse none purpose operations = ok (no_constraints purpose operations)
filter_parse (some options) purpose operations =
    elim (lookup_value options (codes "certificate_filter")) [
      | none ↦ ok (no_constraints purpose operations)
      | some filter ↦ filter_or_fail filter purpose operations
    ]
