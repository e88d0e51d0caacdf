-- ===== src/Broker/Mechanism/Hashes.antt =====
-- The hash table of src/broker/mechanism.c: a hash that was parsed has an entry.
use xdg_desktop_portal_certi.Base.{
  ◌≡◌, refl, All, Option, none, some, arith, find, find-All, Bytes, Option-cases, codes, inl, inr,
  subst,
}
use xdg_desktop_portal_certi.Base.Result.{ok, invalid_argument, present-eq-ok}
use xdg_desktop_portal_certi.Glib.{AsciiCase, Dict, lookup_text}
use xdg_desktop_portal_certi.Broker.Mechanism.{
  Hash, HashEntry, hash_table, hash_entry, hash_parse, same_hash, names_hash,
}
use xdg_desktop_portal_certi.Broker.Mechanism.Parse.{parse_hash, mgf_rest, parse_mgf}

abbrev IsFound : HashEntry → Type 0
IsFound e = hash_entry e.hash ≡ some e

hash_table-IsFound : All IsFound hash_table
unfolding hash_entry same_hash find
hash_table-IsFound = (refl, (refl, (refl, (refl, (refl, tt)))))

-- A parsed name is that of an entry, which its hash leads to.
pub hash_parse-entry :
    (ascii : AsciiCase) (name : Option Bytes) (h : Hash)
    → hash_parse ascii name ≡ some h
    → (e : HashEntry) × (hash_entry h ≡ some e)
unfolding hash_parse
hash_parse-entry ascii none h eq = absurd (ground arith)
hash_parse-entry ascii (some name) h eq =
    elim (Option-cases (find (names_hash ascii name) hash_table)) [
      | inl none_found ↦ absurd (ground arith)
      | inr (e, found) ↦
          let same : e.hash ≡ h = ground arith in
          (
            e,
            subst (λ k. hash_entry k ≡ some e) same
                (find-All IsFound (names_hash ascii name) hash_table hash_table-IsFound found),
          )
    ]

pub parse_hash-entry :
    (ascii : AsciiCase) (d : Option Dict) (h : Hash)
    → parse_hash ascii d ≡ ok h
    → (e : HashEntry) × (hash_entry h ≡ some e)
unfolding parse_hash
parse_hash-entry ascii none h eq = absurd (ground arith)
parse_hash-entry ascii (some d) h eq = elim (Option-cases (lookup_text d (codes "hash"))) [
  | inl e ↦ absurd (ground arith)
  | inr (text, e) ↦ hash_parse-entry ascii (some text) h (ground arith)
]

pub parse_mgf-entry :
    (ascii : AsciiCase) (hash h : Hash) (entry : HashEntry) (mgf_name : Option Bytes)
    → hash_entry hash ≡ some entry
    → parse_mgf ascii hash entry mgf_name ≡ ok h
    → (e : HashEntry) × (hash_entry h ≡ some e)
unfolding parse_mgf
parse_mgf-entry ascii hash h entry none found eq = (entry, ground arith)
parse_mgf-entry ascii hash h entry (some mgf_name) found eq =
    let rest = mgf_rest ascii entry mgf_name in
    hash_parse-entry ascii rest h (present-eq-ok (hash_parse ascii rest) invalid_argument eq)
