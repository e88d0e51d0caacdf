-- ===== src/Module/Objects/Intent/Justified.antt =====
-- A search that counts as one for the granted credential.
use xdg_desktop_portal_certi.Base.{
  ℕ, true, false, ◌≡◌, ◌⊎◌, inl, inr, List, [], ◌∷◌, Option, some, All, Bytes, Option-cases, arith,
}
use xdg_desktop_portal_certi.Module.Rv
use xdg_desktop_portal_certi.Module.Rv.{Abi, CkAttribute, same_attribute, same_attribute_iff}
use xdg_desktop_portal_certi.Module.Objects.{Template}
use xdg_desktop_portal_certi.Module.Objects.Intent.{
  names_credential, names_our_label, Search, no_search, class_of, known_id, read_entry,
  is_key_shaped, is_skipped, search_round, search_loop, conclusion, template_intent,
  wants_credential,
}

-- Some entry of a template has the property.
pub data Some (P : Template → Type 0) : List Template → Type 0 where
  here : (t : Template) (ts : List Template) → P t → Some P (t ∷ ts)
  there : (t : Template) (ts : List Template) → Some P ts → Some P (t ∷ ts)

module _ (abi : Abi) (ids : Option (List Bytes)) where
  -- An entry for CKA_LABEL that holds the label of the module's objects.
  pub NamesLabel : Template → Type 0
  NamesLabel t = (same_attribute t.type_of Rv.label ≡ true) × (names_our_label abi t ≡ true)

  -- An entry for CKA_ID that holds an identifier that the module has issued.
  pub NamesId : Template → Type 0
  NamesId t = (same_attribute t.type_of Rv.id ≡ true) × (known_id abi ids t ≡ true)

  -- An entry for CKA_CLASS that asks for private keys.
  pub AsksPrivate : Template → Type 0
  AsksPrivate t =
      (same_attribute t.type_of Rv.class ≡ true) × (class_of abi t ≡ some abi.cko_private_key)

  -- An entry that a search for a private key may have.
  pub KeyShaped : Template → Type 0
  KeyShaped t = (is_skipped abi t ≡ true) ⊎ (is_key_shaped t ≡ true)

  label_round :
      (s s' : Search) (t : Template)
      → search_round abi ids s t ≡ some s'
      → s'.label_is_ours ≡ true
      → (s.label_is_ours ≡ true) ⊎ NamesLabel t
  unfolding search_round read_entry NamesLabel
  label_round s s' t h l = ground (arith)

  id_round :
      (s s' : Search) (t : Template)
      → search_round abi ids s t ≡ some s'
      → s'.have_identifier ≡ true
      → (s.have_identifier ≡ true) ⊎ NamesId t
  unfolding search_round read_entry NamesId
  id_round s s' t h l = ground (arith)

  shaped_round :
      (s s' : Search) (t : Template)
      → search_round abi ids s t ≡ some s'
      → s'.key_shaped ≡ true
      → (s.key_shaped ≡ true) × KeyShaped t
  unfolding search_round read_entry KeyShaped
  shaped_round s s' t h l = ground (arith)

  class_round :
      (s s' : Search) (t : Template)
      → search_round abi ids s t ≡ some s'
      → s'.have_class ≡ true
      → s'.object_class ≡ abi.cko_private_key
      → ((s.have_class ≡ true) × (s.object_class ≡ abi.cko_private_key)) ⊎ AsksPrivate t
  unfolding search_round read_entry AsksPrivate
  class_round s s' t h l c = ground (arith)

  label_loop :
      (s s' : Search) (ts : List Template)
      → search_loop abi ids s ts ≡ some s'
      → s'.label_is_ours ≡ true
      → (s.label_is_ours ≡ true) ⊎ Some NamesLabel ts
  unfolding search_loop
  label_loop s s' [] h l = inl (ground (arith))
  label_loop s s' (t ∷ ts) h l = elim (Option-cases (search_round abi ids s t)) [
    | inl e ↦ absurd (ground (arith))
    | inr (m, e) ↦ elim (label_loop m s' ts (rw e at h) l) [
      | inr later ↦ inr (there t ts later)
      | inl before ↦ elim (label_round s m t e before) [
        | inl earlier ↦ inl earlier
        | inr now ↦ inr (here t ts now)
      ]
    ]
  ]

  id_loop :
      (s s' : Search) (ts : List Template)
      → search_loop abi ids s ts ≡ some s'
      → s'.have_identifier ≡ true
      → (s.have_identifier ≡ true) ⊎ Some NamesId ts
  unfolding search_loop
  id_loop s s' [] h l = inl (ground (arith))
  id_loop s s' (t ∷ ts) h l = elim (Option-cases (search_round abi ids s t)) [
    | inl e ↦ absurd (ground (arith))
    | inr (m, e) ↦ elim (id_loop m s' ts (rw e at h) l) [
      | inr later ↦ inr (there t ts later)
      | inl before ↦ elim (id_round s m t e before) [
        | inl earlier ↦ inl earlier
        | inr now ↦ inr (here t ts now)
      ]
    ]
  ]

  shaped_loop :
      (s s' : Search) (ts : List Template)
      → search_loop abi ids s ts ≡ some s'
      → s'.key_shaped ≡ true
      → (s.key_shaped ≡ true) × All KeyShaped ts
  unfolding search_loop
  shaped_loop s s' [] h l = (ground (arith), tt)
  shaped_loop s s' (t ∷ ts) h l = elim (Option-cases (search_round abi ids s t)) [
    | inl e ↦ absurd (ground (arith))
    | inr (m, e) ↦
        let (before, later) = shaped_loop m s' ts (rw e at h) l in
        let (earlier, now) = shaped_round s m t e before in (earlier, (now, later))
  ]

  class_loop :
      (s s' : Search) (ts : List Template)
      → search_loop abi ids s ts ≡ some s'
      → s'.have_class ≡ true
      → s'.object_class ≡ abi.cko_private_key
      → ((s.have_class ≡ true) × (s.object_class ≡ abi.cko_private_key)) ⊎ Some AsksPrivate ts
  unfolding search_loop
  class_loop s s' [] h l c = inl (ground (arith))
  class_loop s s' (t ∷ ts) h l c = elim (Option-cases (search_round abi ids s t)) [
    | inl e ↦ absurd (ground (arith))
    | inr (m, e) ↦ elim (class_loop m s' ts (rw e at h) l c) [
      | inr later ↦ inr (there t ts later)
      | inl (had, was) ↦ elim (class_round s m t e had was) [
        | inl earlier ↦ inl earlier
        | inr now ↦ inr (here t ts now)
      ]
    ]
  ]

  -- What a template must have for its search to count as one for the granted credential.
  pub IsJustified : List Template → Type 0
  IsJustified ts = Some NamesLabel ts ⊎ (Some NamesId ts ⊎ (Some AsksPrivate ts × All KeyShaped ts))

  conclusion_cases :
      (s : Search)
      → conclusion abi s ≡ names_credential
      → (s.label_is_ours ≡ true)
        ⊎ ((s.have_identifier ≡ true)
            ⊎ ((s.have_class ≡ true)
                × (s.object_class ≡ abi.cko_private_key)
                × (s.key_shaped ≡ true)))
  unfolding conclusion
  conclusion_cases s h = ground (arith)

  justified :
      (s : Search) (ts : List Template)
      → search_loop abi ids no_search ts ≡ some s
      → conclusion abi s ≡ names_credential
      → IsJustified ts
  unfolding IsJustified
  justified s ts h c = elim (conclusion_cases s c) [
    | inl l ↦ elim (label_loop no_search s ts h l) [
      | inl e ↦ absurd (ground (arith))
      | inr some_label ↦ inl some_label
    ]
    | inr (inl i) ↦ elim (id_loop no_search s ts h i) [
      | inl e ↦ absurd (ground (arith))
      | inr some_id ↦ inr (inl some_id)
    ]
    | inr (inr (k, p, q)) ↦ elim (class_loop no_search s ts h k p) [
      | inl (e, _) ↦ absurd (ground (arith))
      | inr some_class ↦ inr (inr (some_class, (shaped_loop no_search s ts h q).1))
    ]
  ]

wants_credential-eq-true :
    (abi : Abi) (ids : Option (List Bytes)) (ts : Option (List Template)) (count : ℕ)
    → wants_credential abi ts count ids false false ≡ true
    → template_intent abi ts count ids ≡ names_credential
unfolding wants_credential
wants_credential-eq-true abi ids ts count h = ground (arith)

intent-IsJustified :
    (abi : Abi) (ids : Option (List Bytes)) (ts : List Template) (count : ℕ)
    → template_intent abi (some ts) count ids ≡ names_credential
    → IsJustified abi ids ts
unfolding template_intent
intent-IsJustified abi ids [] count h = absurd (ground (arith))
intent-IsJustified abi ids (t ∷ ts) count h =
    elim (Option-cases (search_loop abi ids no_search (t ∷ ts))) [
      | inl e ↦ absurd (ground (arith))
      | inr (s, e) ↦ justified abi ids s (t ∷ ts) e (ground (arith))
    ]

-- A search wants the chooser without the opt-in only when its template names the label of the
-- module's objects, or the identifier of an object that the module has issued, or when it asks for
-- private keys and has no entry but its class, CKA_SIGN and CKA_DECRYPT, besides CKA_TOKEN as true.
pub wants_credential-IsJustified :
    (abi : Abi) (ids : Option (List Bytes)) (ts : List Template) (count : ℕ)
    → wants_credential abi (some ts) count ids false false ≡ true
    → IsJustified abi ids ts
wants_credential-IsJustified abi ids ts count h =
    intent-IsJustified abi ids ts count (wants_credential-eq-true abi ids (some ts) count h)
