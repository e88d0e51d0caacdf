-- ===== src/Module/Cryptoki/Invariant/Sign.antt =====
-- Starting a signature and feeding it keep the session sound.
use xdg_desktop_portal_certi.Base.{
  ℕ, ◌≡◌, ◌⊎◌, inl, inr, refl, sym, ap, ◌∙◌, ◌%◌, ◌^◌, subst, Bool, true, false, ◌&&◌, Option, none,
  some, [], All, find, find-All, Bool-cases, Option-cases, Bytes, bytes_eq, bytes_eq_iff, codes,
  arith,
}
use xdg_desktop_portal_certi.Ck.{CkMechanism, same_ck}
use xdg_desktop_portal_certi.Glib.{is_text}
use xdg_desktop_portal_certi.Broker.Mechanism.{Pss}
use xdg_desktop_portal_certi.Module.Grant.{Grant, Gnutls}
use xdg_desktop_portal_certi.Module.Mechanism.{
  HashEntry, sha1_entry, sha224_entry, sha256_entry, sha384_entry, sha512_entry, hash_table,
  hash_entry, PortalMechanism, mechanism_table, mechanism_lookup, mechanism_available, hash_gnutls,
  hash_from_ck_digest, mgf_hash, mgf_name,
}
use xdg_desktop_portal_certi.Module.Rv.{Rv, Abi}
use xdg_desktop_portal_certi.Module.Cryptoki.{PortalSession, Cryptoki}
use xdg_desktop_portal_certi.Module.Cryptoki.Sign.{
  Memory, MechanismArg, set_pss, hash_agrees, pss_in, sign_parameters, activate, start_input,
  setup_row, sign_setup, after_setup, init_granted, sign_init_in, c_sign_init,
}
use xdg_desktop_portal_certi.Module.Cryptoki.Invariant.{
  IsKnown, IsSound, Inv, Safe, Found, reset_sign-IsSound, with_session-Inv, session_lookup-Found,
}

known_entry : (e : HashEntry) → hash_entry (some e.name) ≡ some e → IsKnown (some e.name)
known_entry e h = record { name = e.name; entry = e; is_named = refl; is_entry = h }

abbrev pub IsFound : HashEntry → Type 0
IsFound e = hash_entry (some e.name) ≡ some e

pub hash_table-IsFound : All IsFound hash_table
unfolding hash_entry find bytes_eq
hash_table-IsFound = (refl, (refl, (refl, (refl, (refl, tt)))))

-- The hash of a digest mechanism is in the table.
pub hash_from_ck_digest-IsKnown :
    (digest : CkMechanism) (hash : Bytes)
    → hash_from_ck_digest digest ≡ some hash
    → IsKnown (some hash)
unfolding hash_from_ck_digest
hash_from_ck_digest-IsKnown digest hash h =
    elim (Option-cases (find (λ (e : HashEntry). same_ck e.ck_digest digest) hash_table)) [
      | inl e ↦ absurd (ground (arith))
      | inr (entry, e) ↦
          let named : entry.name ≡ hash = ground (arith) in
          subst (λ n. IsKnown (some n)) named
            (known_entry entry (
              find-All IsFound (λ (e : HashEntry). same_ck e.ck_digest digest) hash_table
                hash_table-IsFound e))
    ]

-- A mechanism that signs either hashes here with a known hash, or says where the hash comes from.
abbrev pub RowIsUsable : PortalMechanism → Type 0
RowIsUsable m =
    ((m.hash_locally ≡ true) × IsKnown m.hash_name)
    ⊎ ((m.hash_locally ≡ false)
        × ((m.digest_info ≡ true)
            ⊎ ((m.infer_hash ≡ true) ⊎ ((m.pss ≡ true) ⊎ (m.can_sign ≡ false)))))

sha1_known : IsKnown (some (codes "SHA1"))
sha1_known = known_entry sha1_entry hash_table-IsFound.0

sha224_known : IsKnown (some (codes "SHA224"))
sha224_known = known_entry sha224_entry hash_table-IsFound.1.0

sha256_known : IsKnown (some (codes "SHA256"))
sha256_known = known_entry sha256_entry hash_table-IsFound.1.1.0

sha384_known : IsKnown (some (codes "SHA384"))
sha384_known = known_entry sha384_entry hash_table-IsFound.1.1.1.0

sha512_known : IsKnown (some (codes "SHA512"))
sha512_known = known_entry sha512_entry hash_table-IsFound.1.1.1.1.0

mechanism_table-RowIsUsable : All RowIsUsable mechanism_table
mechanism_table-RowIsUsable = (
  inr (refl, inl refl),
  (
    inl (refl, sha1_known),
    (
      inl (refl, sha224_known),
      (
        inl (refl, sha256_known),
        (
          inl (refl, sha384_known),
          (
            inl (refl, sha512_known),
            (
              inr (refl, inr (inr (inl refl))),
              (
                inl (refl, sha1_known),
                (
                  inl (refl, sha224_known),
                  (
                    inl (refl, sha256_known),
                    (
                      inl (refl, sha384_known),
                      (
                        inl (refl, sha512_known),
                        (
                          inr (refl, inr (inl refl)),
                          (
                            inl (refl, sha1_known),
                            (
                              inl (refl, sha224_known),
                              (
                                inl (refl, sha256_known),
                                (
                                  inl (refl, sha384_known),
                                  (
                                    inl (refl, sha512_known),
                                    (inr (refl, inr (inr (inr refl))), tt),
                                  ),
                                ),
                              ),
                            ),
                          ),
                        ),
                      ),
                    ),
                  ),
                ),
              ),
            ),
          ),
        ),
      ),
    ),
  ),
)

pub mechanism_lookup-RowIsUsable :
    (ty : CkMechanism) {row : PortalMechanism} → mechanism_lookup ty ≡ some row → RowIsUsable row
unfolding mechanism_lookup
mechanism_lookup-RowIsUsable ty h =
    find-All RowIsUsable (λ (m : PortalMechanism). same_ck m.type_of ty) mechanism_table
      mechanism_table-RowIsUsable h

-- Where the hash of a session that starts to sign comes from.
abbrev HashIsFor : PortalMechanism → Option Bytes → Type 0
HashIsFor row hash =
    ((row.pss ≡ false) × (hash ≡ row.hash_name))
    ⊎ (IsKnown hash × ((own : Bytes) → row.hash_name ≡ some own → hash ≡ some own))

-- The parameters of a mechanism change a session's hash, mask generation and salt only.
record IsStarted (row : PortalMechanism) (x x' : PortalSession) : Type 0 where
  hash : Option Bytes
  mgf : Option Bytes
  have_salt : Bool
  salt : ℕ
  is_for : HashIsFor row hash
  same :
      x'
      ≡ record x { sign_hash = hash; sign_mgf = mgf; sign_have_salt = have_salt; sign_salt = salt }

set_pss-eq-some :
    (p : Pss) (hash mgf : Option Bytes) (x : PortalSession) {x' : PortalSession}
    → set_pss p hash mgf x ≡ some x'
    → (name : Bytes) × (hash ≡ some name)
      × (x' ≡ record x {
        sign_hash = some name;
        sign_mgf = mgf_name p.mgf;
        sign_have_salt = true;
        sign_salt = p.salt % 2 ^ 32;
      })
set_pss-eq-some p none mgf x h = absurd (ground (arith))
set_pss-eq-some p (some hash) none x h = absurd (ground (arith))
set_pss-eq-some p (some hash) (some mgf) x h = (hash, refl, ground (arith))

hash_agrees-eq :
    (own : Option Bytes) (hash : Option Bytes)
    → hash_agrees own hash ≡ true
    → (name : Bytes) → own ≡ some name
    → hash ≡ some name
unfolding is_text
hash_agrees-eq none hash h name e = absurd (ground (arith))
hash_agrees-eq (some own) none h name e = absurd (ground (arith))
hash_agrees-eq (some own) (some hash) h name e = ground (arith, (bytes_eq_iff hash own).0 h)

pss_in-IsStarted :
    (abi : Abi) (row : PortalMechanism) (arg : MechanismArg) (x : PortalSession) (m : Option Memory)
    {x' : PortalSession}
    → pss_in abi row arg x m ≡ some x'
    → IsStarted row x x'
pss_in-IsStarted abi row arg x none h = absurd (ground (arith))
pss_in-IsStarted abi row arg x (some memory) {x'} h =
    let hash = hash_from_ck_digest memory.as_pss.hash_alg in
    let agrees : hash_agrees row.hash_name hash ≡ true = ground (arith) in
    let set : set_pss memory.as_pss hash (mgf_hash memory.as_pss.mgf) x ≡ some x' =
      ground (arith) in
    let (name, named, same) =
      set_pss-eq-some memory.as_pss hash (mgf_hash memory.as_pss.mgf) x set in
    record {
      hash = some name;
      mgf = mgf_name memory.as_pss.mgf;
      have_salt = true;
      salt = memory.as_pss.salt % 2 ^ 32;
      is_for = inr (
        hash_from_ck_digest-IsKnown memory.as_pss.hash_alg name named,
        λ own e. sym named ∙ hash_agrees-eq row.hash_name hash agrees own e,
      );
      same = same;
    }

sign_parameters-IsStarted :
    (abi : Abi) (row : PortalMechanism) (arg : MechanismArg) (x : PortalSession)
    {x' : PortalSession}
    → sign_parameters abi row arg x ≡ some x'
    → IsStarted row x x'
unfolding sign_parameters
sign_parameters-IsStarted abi row arg x {x'} h = elim (Bool-cases row.pss) [
  | inl e ↦
      let plain : PortalSession = record x {
        sign_hash = row.hash_name;
        sign_mgf = none;
        sign_have_salt = false;
      } in
      let p = pss_in-IsStarted abi row arg plain arg.parameter (ground (arith)) in
      record {
        hash = p.hash;
        mgf = p.mgf;
        have_salt = p.have_salt;
        salt = p.salt;
        is_for = p.is_for;
        same = p.same;
      }
  | inr e ↦ record {
    hash = row.hash_name;
    mgf = none;
    have_salt = false;
    salt = x.sign_salt;
    is_for = inl (e, refl);
    same = ground (arith);
  }
]

buffering_hash :
    (row : PortalMechanism) (hash : Option Bytes)
    → row.can_sign ≡ true
    → (row.digest_info ≡ true)
      ⊎ ((row.infer_hash ≡ true) ⊎ ((row.pss ≡ true) ⊎ (row.can_sign ≡ false)))
    → HashIsFor row hash
    → (row.digest_info ≡ true) ⊎ ((row.infer_hash ≡ true) ⊎ IsKnown hash)
buffering_hash row hash signs (inl i) f = inl i
buffering_hash row hash signs (inr (inl i)) f = inr (inl i)
buffering_hash row hash signs (inr (inr (inl p))) (inl (n, e)) = absurd (ground (arith))
buffering_hash row hash signs (inr (inr (inl p))) (inr (k, a)) = inr (inr k)
buffering_hash row hash signs (inr (inr (inr n))) f = absurd (ground (arith))

hashing_hash :
    (row : PortalMechanism) (hash : Option Bytes)
    → IsKnown row.hash_name
    → HashIsFor row hash
    → hash ≡ row.hash_name
hashing_hash row hash known (inl (n, e)) = e
hashing_hash row hash known (inr (k, a)) = a known.name known.is_named ∙ sym known.is_named

hash_gnutls-known :
    (name : Option Bytes) (known : IsKnown name) → hash_gnutls name ≡ known.entry.gnutls_digest
unfolding hash_gnutls
hash_gnutls-known name known = rw (known.is_named, hash_gnutls, known.is_entry) refl

-- A step that starts a signature gives a session that is sound, where it gives one.
abbrev Setup : Option Grant → Rv × Option PortalSession → Type 0
Setup grant (rv, none) = Unit {0}
Setup grant (rv, some x) = IsSound grant x

module _ (grant : Grant) (row : PortalMechanism) (x : PortalSession) (idle : x.sign_active ≡ false)
    (sound : IsSound (some grant) x) (allowed : grant.may_sign ≡ true) (signs : row.can_sign ≡ true)
    (there : mechanism_available (some row) grant.supported_mechanisms ≡ true)
    (usable : RowIsUsable row) where
  buffer_session :
      (x' : PortalSession)
      → IsStarted row x x'
      → row.hash_locally ≡ false
      → IsSound (some grant) (activate row (record x' { sign_buffer = some [] }))
  buffer_session x' started remote =
      subst
        (λ (y : PortalSession).
          IsSound (some grant) (activate row (record y { sign_buffer = some [] })))
        (sym started.same)
        (record {
          signing = λ _. record {
            granted = grant;
            has_grant = refl;
            is_allowed = allowed;
            row = row;
            has_row = refl;
            can_sign = signs;
            is_available = there;
            input = elim usable [
              | inl (local, _) ↦ absurd (ground (arith))
              | inr (_, from) ↦ inr (
                remote,
                record {
                  no_digest = (sound.not_signing idle).0;
                  buffer = [];
                  is_buffer = refl;
                  is_bounded = omega arith;
                  hash = buffering_hash row started.hash signs from started.is_for;
                },
              )
            ];
          };
          not_signing = λ h. absurd (ground (arith));
          decrypting = sound.decrypting;
          not_decrypting = sound.not_decrypting;
          finding = sound.finding;
        })

  digest_session :
      (x' : PortalSession)
      → IsStarted row x x'
      → row.hash_locally ≡ true
      → IsSound
          (some grant)
          (activate row (record x' { sign_digest = some (hash_gnutls row.hash_name, []) }))
  digest_session x' started local =
      subst
        (λ (y : PortalSession).
          IsSound (some grant)
            (activate row (record y { sign_digest = some (hash_gnutls row.hash_name, []) })))
        (sym started.same)
        (record {
          signing = λ _. record {
            granted = grant;
            has_grant = refl;
            is_allowed = allowed;
            row = row;
            has_row = refl;
            can_sign = signs;
            is_available = there;
            input = elim usable [
              | inr (remote, _) ↦ absurd (ground (arith))
              | inl (_, known) ↦ inl (
                local,
                record {
                  hash = known;
                  same_hash = hashing_hash row started.hash known started.is_for;
                  fed = [];
                  is_running = ap (λ d. some (d, [])) (hash_gnutls-known row.hash_name known);
                },
              )
            ];
          };
          not_signing = λ h. absurd (ground (arith));
          decrypting = sound.decrypting;
          not_decrypting = sound.not_decrypting;
          finding = sound.finding;
        })

  start_input-Setup :
      (lib : Gnutls) (o : Option PortalSession)
      → ((x' : PortalSession) → o ≡ some x' → IsStarted row x x')
      → Setup (some grant) (start_input lib row o)
  start_input-Setup lib none started = tt
  start_input-Setup lib (some x') started = elim (Bool-cases row.hash_locally) [
    | inr e ↦ ground (arith, e, buffer_session x' (started x' refl) e)
    | inl e ↦ ground (arith, e, digest_session x' (started x' refl) e)
  ]

module _ (lib : Gnutls) (abi : Abi) (grant : Grant) (arg : MechanismArg) (x : PortalSession)
    (idle : x.sign_active ≡ false) (sound : IsSound (some grant) x)
    (allowed : grant.may_sign ≡ true) where
  setup_row-Setup :
      (o : Option PortalMechanism)
      → mechanism_lookup arg.mechanism ≡ o
      → Setup (some grant) (setup_row lib abi grant arg x o)
  setup_row-Setup none e = tt
  setup_row-Setup (some row) e =
      elim (Bool-cases
        (row.can_sign && mechanism_available (some row) grant.supported_mechanisms)) [
          | inr n ↦ ground (arith, n)
          | inl y ↦
              let start =
                start_input-Setup grant row x idle sound allowed (ground (arith)) (ground (arith))
                  (mechanism_lookup-RowIsUsable arg.mechanism e) lib (sign_parameters abi row arg x)
                  (λ x' h. sign_parameters-IsStarted abi row arg x h) in
              ground (arith, start)
        ]

  sign_setup-Setup : Setup (some grant) (sign_setup lib abi grant arg x)
  unfolding sign_setup
  sign_setup-Setup = setup_row-Setup (mechanism_lookup arg.mechanism) refl

after_setup-Safe :
    (x : PortalSession) (s : Cryptoki) (r : Rv × Option PortalSession)
    → Inv s
    → IsSound s.grant x
    → Setup s.grant r
    → Safe (after_setup x s r)
after_setup-Safe x s (rv, none) inv sound setup =
    with_session-Inv _ s (reset_sign-IsSound s.grant x sound) inv
after_setup-Safe x s (rv, some x') inv sound setup = with_session-Inv x' s setup inv

init_granted-Safe :
    (lib : Gnutls) (abi : Abi) (arg : MechanismArg) (key : ℕ) (x : PortalSession) (s : Cryptoki)
    (g : Option Grant)
    → x.sign_active ≡ false
    → s.grant ≡ g
    → Inv s
    → IsSound s.grant x
    → Safe (init_granted lib abi arg key x s g)
init_granted-Safe lib abi arg key x s none idle e inv sound = inv
init_granted-Safe lib abi arg key x s (some grant) idle e inv sound =
    elim (Bool-cases grant.may_sign) [
      | inr n ↦ ground (arith, n, inv)
      | inl allowed ↦
          let setup : Setup s.grant (sign_setup lib abi grant arg x) =
            subst (λ g. Setup g (sign_setup lib abi grant arg x)) (sym e)
              (sign_setup-Setup lib abi grant arg x idle (subst (λ g. IsSound g x) e sound)
                allowed) in
          ground (arith, inv, after_setup-Safe x s (sign_setup lib abi grant arg x) inv sound setup)
    ]

sign_init_in-Safe :
    (lib : Gnutls) (abi : Abi) (arg : MechanismArg) (key : ℕ) (p : Option PortalSession × Cryptoki)
    → Found p
    → Safe (sign_init_in lib abi arg key p)
sign_init_in-Safe lib abi arg key (none, s) f = f
sign_init_in-Safe lib abi arg key (some x, s) (inv, sound) = elim (Bool-cases x.sign_active) [
  | inl e ↦ ground (arith, e, inv)
  | inr e ↦ ground (arith, e, init_granted-Safe lib abi arg key x s s.grant e refl inv sound)
]

pub c_sign_init-Safe :
    (checked : Bool) (lib : Gnutls) (abi : Abi) (now handle : ℕ) (m : Option MechanismArg) (key : ℕ)
    (s : Cryptoki)
    → Inv s
    → Safe (c_sign_init checked lib abi now handle m key s)
unfolding c_sign_init
c_sign_init-Safe checked lib abi now handle none key s inv = ground (arith, inv)
c_sign_init-Safe checked lib abi now handle (some arg) key s inv =
    ground (arith, inv, sign_init_in-Safe lib abi arg key _ (session_lookup-Found now s handle inv))
