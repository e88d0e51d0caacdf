-- ===== src/Module/Cryptoki/Invariant/Decrypt.antt =====
-- Decryption keeps the state sound, and reads through no NULL pointer.
use xdg_desktop_portal_certi.Base.{
  ℕ, ◌≡◌, inl, inr, refl, sym, subst, Bool, true, Option, none, some, Bool-cases, Bytes, arith,
}
use xdg_desktop_portal_certi.Ck.{rsa_pkcs_oaep}
use xdg_desktop_portal_certi.Broker.Mechanism.{Oaep}
use xdg_desktop_portal_certi.Module.Grant.{Grant}
use xdg_desktop_portal_certi.Module.Mechanism.{
  mechanism_lookup, mechanism_available, hash_from_ck_digest, mgf_hash,
}
use xdg_desktop_portal_certi.Module.Rv.{Abi}
use xdg_desktop_portal_certi.Module.Cryptoki.{
  PortalSession, Cryptoki, reset_decrypt, operation_session_lookup,
}
use xdg_desktop_portal_certi.Module.Cryptoki.Sign.{Memory, MechanismArg}
use xdg_desktop_portal_certi.Module.Cryptoki.Perform.{
  Service, Answer, gives, fails, operation, Looked, with_client,
}
use xdg_desktop_portal_certi.Module.Cryptoki.Decrypt.{
  label_of, set_decrypt, set_hashes, parameters_in, decrypt_setup, after_setup, init_granted,
  decrypt_init_in, c_decrypt_init, decrypt_wire, decrypt_answer, decrypt_perform, decrypt_given,
  decrypt_in, c_decrypt,
}
use xdg_desktop_portal_certi.Module.Cryptoki.Invariant.{
  IsDecrypting, IsSound, Inv, Safe, Found, FoundRv, with_session-Inv, session_lookup-Found,
  operation_session_lookup-Found,
}
use xdg_desktop_portal_certi.Module.Cryptoki.Invariant.Perform.{with_client-Inv}

reset_decrypt-IsSound :
    (grant : Option Grant) (x : PortalSession) → IsSound grant x → IsSound grant (reset_decrypt x)
unfolding reset_decrypt
reset_decrypt-IsSound grant x sound = record {
  signing = sound.signing;
  not_signing = sound.not_signing;
  decrypting = λ h. absurd (ground (arith));
  not_decrypting = λ h. refl;
  finding = sound.finding;
}

-- A session that starts to decrypt, where one does.
abbrev Setup : Option Grant → Option PortalSession → Type 0
Setup grant none = Unit {0}
Setup grant (some x) = IsSound grant x

module _ (grant : Grant) (x : PortalSession) (sound : IsSound (some grant) x)
    (allowed : grant.may_decrypt ≡ true)
    (available : mechanism_available (mechanism_lookup rsa_pkcs_oaep) grant.supported_mechanisms
      ≡ true) where
  set_decrypt-Setup :
      (hash mgf : Bytes) (l : Option (Option Bytes)) → Setup (some grant) (set_decrypt x hash mgf l)
  set_decrypt-Setup hash mgf none = tt
  set_decrypt-Setup hash mgf (some label) = record {
    signing = sound.signing;
    not_signing = sound.not_signing;
    decrypting = λ _. record {
      granted = grant;
      has_grant = refl;
      is_allowed = allowed;
      is_available = available;
      hash = hash;
      has_hash = refl;
    };
    not_decrypting = λ h. absurd (ground (arith));
    finding = sound.finding;
  }

  set_hashes-Setup :
      (p : Oaep) (hash mgf : Option Bytes) → Setup (some grant) (set_hashes x p hash mgf)
  set_hashes-Setup p none mgf = tt
  set_hashes-Setup p (some hash) none = tt
  set_hashes-Setup p (some hash) (some mgf) =
      ground (arith, set_decrypt-Setup hash mgf (label_of p))

  parameters_in-Setup :
      (abi : Abi) (arg : MechanismArg) (m : Option Memory)
      → Setup (some grant) (parameters_in abi arg x m)
  parameters_in-Setup abi arg none = tt
  parameters_in-Setup abi arg (some memory) =
      let p = memory.as_oaep in
      ground (arith, set_hashes-Setup p (hash_from_ck_digest p.hash_alg) (mgf_hash p.mgf))

  decrypt_setup-Setup :
      (abi : Abi) (arg : MechanismArg) → Setup (some grant) (decrypt_setup abi arg x)
  unfolding decrypt_setup
  decrypt_setup-Setup abi arg = parameters_in-Setup abi arg arg.parameter

after_setup-Safe :
    (s : Cryptoki) (o : Option PortalSession) → Inv s → Setup s.grant o → Safe (after_setup s o)
after_setup-Safe s none inv setup = inv
after_setup-Safe s (some x) inv setup = with_session-Inv x s setup inv

init_granted-Safe :
    (abi : Abi) (arg : MechanismArg) (key : ℕ) (x : PortalSession) (s : Cryptoki) (g : Option Grant)
    → s.grant ≡ g
    → Inv s
    → IsSound s.grant x
    → Safe (init_granted abi arg key x s g)
init_granted-Safe abi arg key x s none e inv sound = inv
init_granted-Safe abi arg key x s (some grant) e inv sound =
    let has = mechanism_available (mechanism_lookup rsa_pkcs_oaep) grant.supported_mechanisms in
    elim (Bool-cases grant.may_decrypt) [
      | inr n ↦ ground (arith, n, inv)
      | inl allowed ↦ elim (Bool-cases has) [
        | inr n ↦ ground (arith, allowed, n, inv)
        | inl available ↦
            let setup : Setup s.grant (decrypt_setup abi arg x) =
              subst (λ g. Setup g (decrypt_setup abi arg x)) (sym e)
                (decrypt_setup-Setup grant x (subst (λ g. IsSound g x) e sound) allowed available
                  abi arg) in
            ground (
              arith,
              inv,
              allowed,
              available,
              after_setup-Safe s (decrypt_setup abi arg x) inv setup,
            )
      ]
    ]

decrypt_init_in-Safe :
    (abi : Abi) (arg : MechanismArg) (key : ℕ) (p : Option PortalSession × Cryptoki)
    → Found p
    → Safe (decrypt_init_in abi arg key p)
decrypt_init_in-Safe abi arg key (none, s) f = f
decrypt_init_in-Safe abi arg key (some x, s) (inv, sound) =
    ground (arith, inv, init_granted-Safe abi arg key x s s.grant refl inv sound)

pub c_decrypt_init-Safe :
    (checked : Bool) (abi : Abi) (now handle : ℕ) (m : Option MechanismArg) (key : ℕ) (s : Cryptoki)
    → Inv s
    → Safe (c_decrypt_init checked abi now handle m key s)
unfolding c_decrypt_init
c_decrypt_init-Safe checked abi now handle none key s inv = ground (arith, inv)
c_decrypt_init-Safe checked abi now handle (some arg) key s inv =
    ground (arith, inv, decrypt_init_in-Safe abi arg key _ (session_lookup-Found now s handle inv))

module _ (service : Service) (x : PortalSession) (room : ℕ) (s : Cryptoki) (inv : Inv s)
    (sound : IsSound s.grant x) where
  decrypt_answer-Safe : (a : Answer) → Safe (decrypt_answer x room s a)
  decrypt_answer-Safe (fails e client) =
      with_session-Inv _ (with_client client s) (reset_decrypt-IsSound s.grant x sound)
        (with_client-Inv client s inv)
  decrypt_answer-Safe (gives bytes client) = ground (
    arith,
    with_client-Inv client s inv,
    with_session-Inv _ (with_client client s) (reset_decrypt-IsSound s.grant x sound)
        (with_client-Inv client s inv),
  )

  decrypt_given-Safe :
      (c : Option Bytes)
      → IsDecrypting s.grant x.decrypt_hash
      → Safe (decrypt_given service x c room s)
  unfolding decrypt_perform
  decrypt_given-Safe none d = with_session-Inv _ s (reset_decrypt-IsSound s.grant x sound) inv
  decrypt_given-Safe (some ciphertext) d =
      subst (λ g. Safe (decrypt_perform service x ciphertext room s g x.decrypt_hash))
        (sym d.has_grant)
        (subst (λ h. Safe (decrypt_perform service x ciphertext room s (some d.granted) h))
          (sym d.has_hash)
          (decrypt_answer-Safe
            (operation service s.client d.granted (decrypt_wire d.granted d.hash x ciphertext))))

decrypt_in-Safe :
    (service : Service) (c : Option Bytes) (has_out : Bool) (room : ℕ) (r : Looked)
    → FoundRv r
    → Safe (decrypt_in service c has_out room r)
decrypt_in-Safe service c has_out room (rv, none, s) f = f
decrypt_in-Safe service c has_out room (rv, some x, s) (inv, sound) =
    elim (Bool-cases x.decrypt_active) [
      | inr e ↦ ground (arith, e, inv)
      | inl e ↦
          ground
            (arith, e, inv, decrypt_given-Safe service x room s inv sound c (sound.decrypting e))
    ]

pub c_decrypt-Safe :
    (checked : Bool) (service : Service) (now handle : ℕ) (c : Option Bytes) (has_out : Bool)
    (room : Option ℕ) (s : Cryptoki)
    → Inv s
    → Safe (c_decrypt checked service now handle c has_out room s)
unfolding c_decrypt
c_decrypt-Safe checked service now handle c has_out none s inv = ground (arith, inv)
c_decrypt-Safe checked service now handle c has_out (some room) s inv = ground (
  arith,
  inv,
  decrypt_in-Safe service c has_out room (operation_session_lookup now s handle)
      (operation_session_lookup-Found now s handle inv),
)
