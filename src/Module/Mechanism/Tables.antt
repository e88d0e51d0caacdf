-- ===== src/Module/Mechanism/Tables.antt =====
-- The tables of src/module/mechanism.c agree with one another.
use xdg_desktop_portal_certi.Base.{
  ◌≡◌, refl, sym, ◌∙◌, Bool, true, false, not, ◌&&◌, ◌||◌, List, [], ◌∷◌, Option, some, arith, find,
  find-holds, find-All, All, ◌++◌, ◌↔◌, subst, Bytes, bytes_eq, bytes_eq_iff, codes,
}
use xdg_desktop_portal_certi.Ck.{CkMechanism, rsa_pkcs_oaep, same_ck, same_ck_iff, same_mgf}
use xdg_desktop_portal_certi.Module.Mechanism.{
  HashEntry, hash_table, PortalMechanism, mechanism_table, hash_entry, mechanism_lookup,
  mechanism_available, list_from, mechanism_list, hash_length, hash_for_length, hash_ck_digest,
  hash_from_ck_digest, mgf_hash, mgf_name, mgf_name_from,
}

-- A mechanism type is in a list.
pub listed : CkMechanism → List CkMechanism → Bool
listed ty [] = false
listed ty (x ∷ xs) = same_ck x ty || listed ty xs

-- No later row has the type.
fresh : CkMechanism → List PortalMechanism → Bool
fresh ty [] = true
fresh ty (m ∷ ms) = not (same_ck m.type_of ty) && fresh ty ms

distinct : List PortalMechanism → Bool
unfolding fresh
distinct [] = true
distinct (m ∷ ms) = fresh m.type_of ms && distinct ms

distinct-mechanism_table : distinct mechanism_table ≡ true
unfolding distinct same_ck
distinct-mechanism_table = refl

fresh-list_from :
    (ty : CkMechanism) (ms : List PortalMechanism) (names : Option (List Bytes))
    → fresh ty ms ≡ true
    → listed ty (list_from ms names) ≡ false
unfolding fresh listed list_from
fresh-list_from ty [] names h = refl
fresh-list_from ty (m ∷ ms) names h = ground (arith, fresh-list_from ty ms names)

listed-list_from :
    (ty : CkMechanism) (ms : List PortalMechanism) (names : Option (List Bytes))
    → distinct ms ≡ true
    → listed ty (list_from ms names)
      ≡ mechanism_available (find (λ m. same_ck m.type_of ty) ms) names
unfolding distinct listed list_from find mechanism_available
listed-list_from ty [] names h = refl
listed-list_from ty (m ∷ ms) names h = ground (
  arith,
  same_ck_iff m.type_of ty,
  fresh-list_from m.type_of ms names,
  listed-list_from ty ms names,
)

-- The list that the module reports holds exactly the types that it looks up and finds available.
pub listed-mechanism_list :
    (ty : CkMechanism) (names : Option (List Bytes))
    → listed ty (mechanism_list names) ≡ mechanism_available (mechanism_lookup ty) names
unfolding mechanism_list mechanism_lookup
listed-mechanism_list ty names = listed-list_from ty mechanism_table names distinct-mechanism_table

-- A hash's digest type, length and mask generation function lead back to it.
abbrev LeadsBack : HashEntry → Type 0
LeadsBack e =
    (hash_from_ck_digest e.ck_digest ≡ some e.name)
    × (hash_for_length e.hash_size ≡ some e.name)
    × (mgf_hash e.mgf ≡ some e.name)
    × (mgf_name e.mgf ≡ some (codes "MGF1-" ++ e.name))

hash_table-LeadsBack : All LeadsBack hash_table
unfolding hash_from_ck_digest hash_for_length mgf_hash mgf_name mgf_name_from find same_ck same_mgf
hash_table-LeadsBack = (
  (refl, refl, refl, refl),
  (
    (refl, refl, refl, refl),
    ((refl, refl, refl, refl), ((refl, refl, refl, refl), ((refl, refl, refl, refl), tt))),
  ),
)

-- For a hash that the table has, its digest type, its length and its mask generation function each
-- lead back to its name, and the name of that function is the name behind `MGF1-`.
pub hash_tables_agree :
    (name : Bytes) (e : HashEntry)
    → hash_entry (some name) ≡ some e
    → (hash_from_ck_digest (hash_ck_digest (some name)) ≡ some name)
      × (hash_for_length (hash_length (some name)) ≡ some name)
      × (mgf_hash e.mgf ≡ some name)
      × (mgf_name e.mgf ≡ some (codes "MGF1-" ++ name))
unfolding hash_entry hash_ck_digest hash_length
hash_tables_agree name e h =
    let named : e.name ≡ name =
      (bytes_eq_iff e.name name).0 (find-holds (λ e. bytes_eq e.name name) hash_table h) in
    let back = find-All LeadsBack (λ e. bytes_eq e.name name) hash_table hash_table-LeadsBack h in
    rw (h, hash_ck_digest, hash_length)
      (subst
        (λ n.
          (hash_from_ck_digest e.ck_digest ≡ some n)
          × (hash_for_length e.hash_size ≡ some n)
          × (mgf_hash e.mgf ≡ some n)
          × (mgf_name e.mgf ≡ some (codes "MGF1-" ++ n)))
        named back)

abbrev SignsOrDecrypts : PortalMechanism → Type 0
SignsOrDecrypts m =
    (m.can_decrypt ≡ not m.can_sign) × (m.can_decrypt ≡ same_ck m.type_of rsa_pkcs_oaep)

mechanism_table-SignsOrDecrypts : All SignsOrDecrypts mechanism_table
unfolding same_ck
mechanism_table-SignsOrDecrypts = ground arith

-- The row found for a type is of that type; it either signs or decrypts, and it decrypts exactly
-- when the type is RSA-OAEP.
pub mechanism_lookup-decrypts :
    (ty : CkMechanism) (m : PortalMechanism)
    → mechanism_lookup ty ≡ some m
    → (m.type_of ≡ ty)
      × (m.can_decrypt ≡ not m.can_sign)
      × ((m.can_decrypt ≡ true) ↔ (ty ≡ rsa_pkcs_oaep))
unfolding mechanism_lookup
mechanism_lookup-decrypts ty m h =
    let same =
      (same_ck_iff m.type_of ty).0 (find-holds (λ m. same_ck m.type_of ty) mechanism_table h) in
    let row =
      find-All SignsOrDecrypts (λ m. same_ck m.type_of ty) mechanism_table
        mechanism_table-SignsOrDecrypts h in
    let oaep = same_ck_iff m.type_of rsa_pkcs_oaep in
    (same, row.0, ((λ e. sym same ∙ oaep.0 (sym row.1 ∙ e)), (λ e. row.1 ∙ oaep.1 (same ∙ e))))
