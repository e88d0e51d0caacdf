-- ===== src/Tests/ObjectsRuns.antt =====
-- The objects of a grant at concrete inputs.
use xdg_desktop_portal_certi.Base.{
  ◌≢◌, ◌≡◌, ◌⊎◌, inr, refl, true, false, [], ◌∷◌, none, some, arith, All, All2, map, codes,
  bytes_eq,
}
use xdg_desktop_portal_certi.Glib.{is_text}
use xdg_desktop_portal_certi.Module.Rv
use xdg_desktop_portal_certi.Module.Rv.{ckr_attribute_sensitive, ckr_ok, same_attribute}
use xdg_desktop_portal_certi.Module.Der.{der_encode}
use xdg_desktop_portal_certi.Module.Objects.{
  Object, Objects, Template, object_handle, objects_lookup, object_matches, objects_find,
  get_attributes, unavailable_entry,
}
use xdg_desktop_portal_certi.Module.Objects.Certificate.{
  parse_certificate, object_list, objects_new,
}
use xdg_desktop_portal_certi.Module.Objects.Attributes.{
  Given, Withheld, SameRoom, get_attributes-Given, get_attributes-SameRoom,
}
use xdg_desktop_portal_certi.Module.Objects.Find.{objects_lookup-objects_find, objects_find-matches}
use xdg_desktop_portal_certi.Module.Objects.Secret.{IsSecret, objects_new-secret}
use xdg_desktop_portal_certi.Module.Objects.Intent.{
  wants_credential, template_intent, search_loop, search_round, read_entry, is_skipped,
  is_key_shaped, class_of, conclusion, says_token_object,
}
use xdg_desktop_portal_certi.Module.Objects.Intent.Justified.{
  IsJustified, wants_credential-IsJustified,
}
use xdg_desktop_portal_certi.Tests.Parts.{
  one_cell, one_certificate, rsa_grant, rsa_objects, rsa_parsed,
}

abbrev modulus_query : Template
modulus_query = record { type_of = Rv.private_exponent; p_value = some (0 ∷ 0 ∷ []); value_len = 2 }

built : objects_new one_certificate one_cell rsa_grant 5 ≡ some rsa_objects
unfolding objects_new parse_certificate der_encode is_text bytes_eq
built = refl

objects_new-secret_example :
    (key : Object) × (objects_lookup (some rsa_objects) (object_handle 5 3) ≡ some key)
    × (key.object_class ≡ 3)
    × (get_attributes one_cell key (modulus_query ∷ [])
        ≡ (ckr_attribute_sensitive, map (unavailable_entry one_cell) (modulus_query ∷ [])))
unfolding is_text bytes_eq
objects_new-secret_example =
    objects_new-secret one_certificate one_cell rsa_grant 5 rsa_objects built modulus_query []
      (IsSecret.its_private_exponent, tt)

abbrev label_query : Template
label_query = record {
  type_of = Rv.label;
  p_value = some (codes "Portal Certificate");
  value_len = 18;
}

objects_find-matches_example :
    All
      (λ h.
        (o : Object) × (objects_lookup (some rsa_objects) h ≡ some o)
        × (object_matches one_cell o (some (label_query ∷ [])) 1 ≡ true))
      (objects_find one_cell (some rsa_objects) (some (label_query ∷ [])) 1)
objects_find-matches_example =
    objects_find-matches one_certificate one_cell rsa_grant 5 rsa_objects built
      (some (label_query ∷ [])) 1

-- The objects of the same certificate, two generations later.
abbrev later_objects : Objects
later_objects = record {
  objects = object_list one_certificate one_cell rsa_grant rsa_parsed true 7;
  identifier = 7 ∷ 7 ∷ [];
}

built_later : objects_new one_certificate one_cell rsa_grant 7 ≡ some later_objects
unfolding objects_new parse_certificate der_encode is_text bytes_eq
built_later = refl

objects_lookup-objects_find_example :
    All
      (λ h. objects_lookup (some later_objects) h ≡ none)
      (objects_find one_cell (some rsa_objects) (some (label_query ∷ [])) 1)
objects_lookup-objects_find_example =
    objects_lookup-objects_find one_certificate one_cell rsa_grant rsa_grant 5 7 rsa_objects
      later_objects (omega arith) built built_later (some (label_query ∷ [])) 1

abbrev one_object : Object
one_object = record {
  handle = 81;
  object_class = 1;
  attributes = record { type_of = Rv.id; value = some (7 ∷ 8 ∷ []); sensitive = false } ∷ [];
}

abbrev id_query : Template
id_query = record { type_of = Rv.id; p_value = some (0 ∷ 0 ∷ 5 ∷ []); value_len = 3 }

get_attributes-Given_example :
    All2
      (λ t t'. Given one_object t t' ⊎ Withheld one_cell t t')
      (id_query ∷ [])
      (get_attributes one_cell one_object (id_query ∷ [])).1
    × (((get_attributes one_cell one_object (id_query ∷ [])).0 ≢ ckr_ok)
        ⊎ All2
            (Given one_object)
            (id_query ∷ [])
            (get_attributes one_cell one_object (id_query ∷ [])).1)
get_attributes-Given_example = get_attributes-Given one_cell one_object (id_query ∷ [])

get_attributes-SameRoom_example :
    All2 SameRoom (id_query ∷ []) (get_attributes one_cell one_object (id_query ∷ [])).1
get_attributes-SameRoom_example =
    get_attributes-SameRoom one_cell one_object (id_query ∷ []) (inr (_, refl, omega arith), tt)

abbrev class_query : Template
class_query = record { type_of = Rv.class; p_value = some (3 ∷ []); value_len = 1 }

wanted : wants_credential one_cell (some (class_query ∷ [])) 1 none false false ≡ true
unfolding wants_credential template_intent search_loop search_round read_entry is_skipped
    is_key_shaped class_of conclusion says_token_object same_attribute
wanted = refl

wants_credential-IsJustified_example : IsJustified one_cell none (class_query ∷ [])
wants_credential-IsJustified_example =
    wants_credential-IsJustified one_cell none (class_query ∷ []) 1 wanted
