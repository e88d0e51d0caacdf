-- ===== src/Tokens/Filter/Kept.antt =====
-- No constraint of a request is lost when its filter is parsed.
use mathlib.Core.Option
use xdg_desktop_portal_certi.Base.{
  ℕ, ◌≡◌, ◌⊎◌, inl, inr, true, Option, none, some, arith, Bool-cases, Option-cases, Bytes, codes,
  contains, List,
}
use xdg_desktop_portal_certi.Base.Result.{ok, Result-cases}
use xdg_desktop_portal_certi.Glib.{
  Variant, string, uint32, byte_array, byte_arrays, strings, vardict, other_type, Dict,
  lookup_value, lookup_text, keys, as_string,
}
use xdg_desktop_portal_certi.Tokens.Filter.{Filter, Purpose}
use xdg_desktop_portal_certi.Tokens.Filter.Parse.{
  strings_or_fail, issuers_or_fail, strv_from_variant, keys_are_known, slots, parse_issuers,
  parse_token_label, parse_piv_slot, parse_constraints, filter_parse,
}

strings_or_fail-ok :
    (v : Variant) (o : Option (List Bytes))
    → strings_or_fail v ≡ ok o
    → some v ≡ Option.map strings o
strings_or_fail-ok (strings ss) (some ts) h = ground arith
strings_or_fail-ok (strings ss) none h = absurd (ground arith)
strings_or_fail-ok (string s) o h = absurd (ground arith)
strings_or_fail-ok (uint32 n) o h = absurd (ground arith)
strings_or_fail-ok (byte_array s) o h = absurd (ground arith)
strings_or_fail-ok (byte_arrays s) o h = absurd (ground arith)
strings_or_fail-ok (vardict d) o h = absurd (ground arith)
strings_or_fail-ok other_type o h = absurd (ground arith)

issuers_or_fail-ok :
    (v : Variant) (o : Option (List Bytes))
    → issuers_or_fail v ≡ ok o
    → some v ≡ Option.map byte_arrays o
issuers_or_fail-ok (byte_arrays ss) (some ts) h = ground arith
issuers_or_fail-ok (byte_arrays ss) none h = absurd (ground arith)
issuers_or_fail-ok (string s) o h = absurd (ground arith)
issuers_or_fail-ok (uint32 n) o h = absurd (ground arith)
issuers_or_fail-ok (byte_array s) o h = absurd (ground arith)
issuers_or_fail-ok (strings s) o h = absurd (ground arith)
issuers_or_fail-ok (vardict d) o h = absurd (ground arith)
issuers_or_fail-ok other_type o h = absurd (ground arith)

as_string-some : (v : Variant) (s : Bytes) → as_string v ≡ some s → v ≡ string s
as_string-some (string t) s h = ground arith
as_string-some (uint32 n) s h = absurd (ground arith)
as_string-some (byte_array t) s h = absurd (ground arith)
as_string-some (byte_arrays ts) s h = absurd (ground arith)
as_string-some (strings ts) s h = absurd (ground arith)
as_string-some (vardict d) s h = absurd (ground arith)
as_string-some other_type s h = absurd (ground arith)

lookup_text-some :
    (d : Dict) (key s : Bytes) → lookup_text d key ≡ some s → lookup_value d key ≡ some (string s)
unfolding lookup_text
lookup_text-some d key s h = elim (Option-cases (lookup_value d key)) [
  | inl e ↦ absurd (ground arith)
  | inr (v, e) ↦ ground (arith, as_string-some v s)
]

module _ (d : Dict) where
  strv_from_variant-map :
      (key : Bytes) (o : Option (List Bytes))
      → strv_from_variant d key ≡ ok o
      → lookup_value d key ≡ Option.map strings o
  unfolding strv_from_variant
  strv_from_variant-map key o h = elim (Option-cases (lookup_value d key)) [
    | inl e ↦ ground arith
    | inr (v, e) ↦ ground (arith, strings_or_fail-ok v o)
  ]

  parse_issuers-map :
      (o : Option (List Bytes))
      → parse_issuers d ≡ ok o
      → lookup_value d (codes "issuers") ≡ Option.map byte_arrays o
  unfolding parse_issuers
  parse_issuers-map o h = elim (Option-cases (lookup_value d (codes "issuers"))) [
    | inl e ↦ ground arith
    | inr (v, e) ↦ ground (arith, issuers_or_fail-ok v o)
  ]

  parse_token_label-map :
      (o : Option Bytes)
      → parse_token_label d ≡ ok o
      → lookup_value d (codes "token_label") ≡ Option.map string o
  unfolding parse_token_label
  parse_token_label-map o h = elim (Option-cases (lookup_text d (codes "token_label"))) [
    | inl e ↦ elim (Option-cases (lookup_value d (codes "token_label"))) [
      | inl e' ↦ ground arith
      | inr (v, e') ↦ absurd (ground arith)
    ]
    | inr (s, e) ↦ ground (arith, lookup_text-some d (codes "token_label") s e)
  ]

  parse_piv_slot-map :
      (o : Option Bytes)
      → parse_piv_slot d ≡ ok o
      → (lookup_value d (codes "piv_slot") ≡ Option.map string o)
        × ((o ≡ none) ⊎ ((s : Bytes) × (o ≡ some s) × (contains slots s ≡ true)))
  unfolding parse_piv_slot
  parse_piv_slot-map o h = elim (Option-cases (lookup_text d (codes "piv_slot"))) [
    | inl e ↦ elim (Option-cases (lookup_value d (codes "piv_slot"))) [
      | inl e' ↦ (ground arith, inl (ground arith))
      | inr (v, e') ↦ absurd (ground arith)
    ]
    | inr (s, e) ↦ elim (Bool-cases (contains slots s)) [
      | inl m ↦
          let same : o ≡ some s = ground arith in
          (ground (arith, lookup_text-some d (codes "piv_slot") s e), inr (s, same, m))
      | inr m ↦ absurd (ground arith)
    ]
  ]

  -- What the filter record holds of the constraints in `d`.
  unfoldable pub Keeps : Filter → Type 0
  Keeps f =
      (keys_are_known (keys d) ≡ true)
      × (lookup_value d (codes "issuers") ≡ Option.map byte_arrays f.issuers)
      × (lookup_value d (codes "key_usage") ≡ Option.map strings f.key_usage)
      × (lookup_value d (codes "eku") ≡ Option.map strings f.eku_oids)
      × (lookup_value d (codes "key_algorithms") ≡ Option.map strings f.key_algorithms)
      × (lookup_value d (codes "token_label") ≡ Option.map string f.token_label)
      × (lookup_value d (codes "piv_slot") ≡ Option.map string f.piv_slot)
      × ((f.piv_slot ≡ none) ⊎ ((s : Bytes) × (f.piv_slot ≡ some s) × (contains slots s ≡ true)))

  parse_constraints-Keeps :
      (p : Purpose) (ops : ℕ) (f : Filter)
      → parse_constraints d p ops ≡ ok f
      → (f.purpose ≡ p) × (f.operations ≡ ops) × Keeps f
  unfolding parse_constraints Keeps
  parse_constraints-Keeps p ops f h = elim (Bool-cases (keys_are_known (keys d))) [
    | inr e ↦ absurd (ground arith)
    | inl e ↦ elim (Result-cases (parse_issuers d)) [
      | inr (x, e1) ↦ absurd (ground arith)
      | inl (i, e1) ↦ elim (Result-cases (strv_from_variant d (codes "key_usage"))) [
        | inr (x, e2) ↦ absurd (ground arith)
        | inl (u, e2) ↦ elim (Result-cases (strv_from_variant d (codes "eku"))) [
          | inr (x, e3) ↦ absurd (ground arith)
          | inl (o, e3) ↦ elim (Result-cases (strv_from_variant d (codes "key_algorithms"))) [
            | inr (x, e4) ↦ absurd (ground arith)
            | inl (a, e4) ↦ elim (Result-cases (parse_token_label d)) [
              | inr (x, e5) ↦ absurd (ground arith)
              | inl (l, e5) ↦ elim (Result-cases (parse_piv_slot d)) [
                | inr (x, e6) ↦ absurd (ground arith)
                | inl (s, e6) ↦
                    let (slot, listed) = parse_piv_slot-map f.piv_slot (ground arith) in
                    (
                      ground arith,
                      ground arith,
                      (
                        e,
                        parse_issuers-map f.issuers (ground arith),
                        strv_from_variant-map (codes "key_usage") f.key_usage (ground arith),
                        strv_from_variant-map (codes "eku") f.eku_oids (ground arith),
                        strv_from_variant-map (codes "key_algorithms") f.key_algorithms
                            (ground arith),
                        parse_token_label-map f.token_label (ground arith),
                        slot,
                        listed,
                      ),
                    )
              ]
            ]
          ]
        ]
      ]
    ]
  ]

-- A filter that is accepted has every constraint of the request, as it was given, and no other, for the
-- purpose and the operations of the call: each key is a known one, each field holds the value of its
-- key and is none only if the key is absent, and a slot is one of the four PIV slots. So a constraint
-- of another type, or an unknown one, is refused and never ignored.
pub filter_parse-Keeps :
    (options d : Dict) (p : Purpose) (ops : ℕ) (f : Filter)
    → lookup_value options (codes "certificate_filter") ≡ some (vardict d)
    → filter_parse (some options) p ops ≡ ok f
    → (f.purpose ≡ p) × (f.operations ≡ ops) × Keeps d f
unfolding filter_parse
filter_parse-Keeps options d p ops f given h =
    parse_constraints-Keeps d p ops f (rw (given, filter_parse) at h)
