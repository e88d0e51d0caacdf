-- ===== src/Module/Objects/Find.antt =====
-- Handles of the objects, and what a search gives.
use xdg_desktop_portal_certi.Base.{
  ℕ, ◌^◌, ◌<◌, ◌%◌, ◌==◌, ◌≢◌, none, false, ◌≡◌, refl, true, List, [], ◌∷◌, Option, some, ==_refl,
  find, All, Bool-cases, Option-cases, inl, inr, arith,
}
use xdg_desktop_portal_certi.Module.Grant.{Grant, Gnutls}
use xdg_desktop_portal_certi.Module.Rv.{Abi}
use xdg_desktop_portal_certi.Module.Objects.{
  Object, Objects, Template, object_handle, objects_lookup, object_matches, handles_of,
  objects_find,
}
use xdg_desktop_portal_certi.Module.Objects.Certificate.{
  parse_certificate, object_list, objects_new,
}
use xdg_desktop_portal_certi.Module.Objects.Secret.{nibble, apart, third, key_object, is_rsa_grant}

handles_of-All {κ} :
    (abi : Abi) (P : ℕ → Type κ) (templ : Option (List Template)) (n : ℕ) (os : List Object)
    → All (λ o. object_matches abi o templ n ≡ true → P o.handle) os
    → All P (handles_of abi os templ n)
unfolding handles_of
handles_of-All abi P templ n [] all = tt
handles_of-All abi P templ n (o ∷ os) (one, all) =
    elim (Bool-cases (object_matches abi o templ n)) [
      | inl e ↦ rw e (one e, handles_of-All abi P templ n os all)
      | inr e ↦ rw e (handles_of-All abi P templ n os all)
    ]

-- Every handle that a search of a grant's objects gives is the handle of an object that matches the
-- template.
pub objects_find-matches :
    (lib : Gnutls) (abi : Abi) (grant : Grant) (g : ℕ) (os : Objects)
    → objects_new lib abi grant g ≡ some os
    → (templ : Option (List Template)) (n : ℕ)
    → All
        (λ h.
          (o : Object) × (objects_lookup (some os) h ≡ some o)
          × (object_matches abi o templ n ≡ true))
        (objects_find abi (some os) templ n)
unfolding objects_new objects_lookup objects_find find
objects_find-matches lib abi grant g os h templ n =
    elim (Option-cases (parse_certificate lib grant.certificate_der)) [
      | inl e ↦ absurd (ground (arith, h, e))
      | inr (parsed, e) ↦
          let is_rsa = is_rsa_grant grant in
          let built : os ≡ record {
            objects = object_list lib abi grant parsed is_rsa g;
            identifier = parsed.identifier;
          } =
            ground (arith, h, e) in
          rw built (
            handles_of-All abi _ templ n (object_list lib abi grant parsed is_rsa g) (
              (λ m. (_, rw (==_refl (object_handle g 1)) refl, m)),
              (
                (λ m. (
                  _,
                  rw
                      (
                        apart g 1 2 (omega arith) (omega arith) (omega arith),
                        ==_refl (object_handle g 2),
                      )
                      refl,
                  m,
                )),
                (
                  (λ m. (
                    key_object lib abi grant parsed is_rsa g,
                    third lib abi grant parsed is_rsa g,
                    m,
                  )),
                  tt,
                ),
              ),
            ))
    ]

across :
    (g g' i j : ℕ)
    → g % 2 ^ 28 ≢ g' % 2 ^ 28
    → i < 16
    → j < 16
    → (object_handle g' j == object_handle g i) ≡ false
across g g' i j ne hi hj = ground (arith, nibble g i hi, nibble g' j hj, ne)

-- The objects of another generation have no object of a handle of this one.
lookup-across :
    (lib : Gnutls) (abi : Abi) (grant : Grant) (g g' i : ℕ) (os : Objects)
    → g % 2 ^ 28 ≢ g' % 2 ^ 28
    → i < 16
    → objects_new lib abi grant g' ≡ some os
    → objects_lookup (some os) (object_handle g i) ≡ none
unfolding objects_new objects_lookup find
lookup-across lib abi grant g g' i os ne hi h =
    elim (Option-cases (parse_certificate lib grant.certificate_der)) [
      | inl e ↦ absurd (ground (arith, h, e))
      | inr (parsed, e) ↦
          let built : os ≡ record {
            objects = object_list lib abi grant parsed (is_rsa_grant grant) g';
            identifier = parsed.identifier;
          } =
            ground (arith, h, e) in
          rw
            (
              built,
              across g g' i 1 ne hi (omega arith),
              across g g' i 2 ne hi (omega arith),
              across g g' i 3 ne hi (omega arith),
            )
            refl
    ]

-- No handle that a search of one grant's objects gives names an object of another grant, as long as the
-- generations of the two differ modulo 2^28.
pub objects_lookup-objects_find :
    (lib : Gnutls) (abi : Abi) (grant grant' : Grant) (g g' : ℕ) (os os' : Objects)
    → g % 2 ^ 28 ≢ g' % 2 ^ 28
    → objects_new lib abi grant g ≡ some os
    → objects_new lib abi grant' g' ≡ some os'
    → (templ : Option (List Template)) (n : ℕ)
    → All (λ h. objects_lookup (some os') h ≡ none) (objects_find abi (some os) templ n)
unfolding objects_new objects_find
objects_lookup-objects_find lib abi grant grant' g g' os os' ne h h' templ n =
    elim (Option-cases (parse_certificate lib grant.certificate_der)) [
      | inl e ↦ absurd (ground (arith, h, e))
      | inr (parsed, e) ↦
          let is_rsa = is_rsa_grant grant in
          let built : os ≡ record {
            objects = object_list lib abi grant parsed is_rsa g;
            identifier = parsed.identifier;
          } =
            ground (arith, h, e) in
          rw built (
            handles_of-All abi _ templ n (object_list lib abi grant parsed is_rsa g) (
              (λ _. lookup-across lib abi grant' g g' 1 os' ne (omega arith) h'),
              (
                (λ _. lookup-across lib abi grant' g g' 2 os' ne (omega arith) h'),
                ((λ _. lookup-across lib abi grant' g g' 3 os' ne (omega arith) h'), tt),
              ),
            ))
    ]
