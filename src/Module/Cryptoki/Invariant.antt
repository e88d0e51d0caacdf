-- ===== src/Module/Cryptoki/Invariant.antt =====
-- What holds of the module's state between calls.
pub mod Sessions
pub mod Slots
pub mod Search
pub mod Sign
pub mod Perform
pub mod Decrypt
pub mod Reachable
use xdg_desktop_portal_certi.Base.{
  ℕ, ◌≤◌, ◌<◌, ◌≡◌, ◌⊎◌, inl, inr, refl, Bool, true, false, not, List, [], ◌∷◌, Option, none, some,
  ◌==◌, length, All, All-map, map, find-All, Bytes, Bool-cases, Option-cases, if-cases,
  if◌then◌else◌, arith,
}
use xdg_desktop_portal_certi.Ck.{GnutlsDigest, rsa_pkcs_oaep}
use xdg_desktop_portal_certi.Module.Grant.{Grant}
use xdg_desktop_portal_certi.Module.Mechanism.{
  HashEntry, PortalMechanism, hash_entry, mechanism_lookup, mechanism_available,
}
use xdg_desktop_portal_certi.Module.Cryptoki.{
  PortalSession, Cryptoki, Done, returns, waits, crashes, reset_sign, reset_decrypt, drop_objects,
  release_grant, grant_ended, grant_still_good, session_key, find_session, table_lookup,
  session_lookup, session_revalidate, operation_session_lookup, map_table, empty_table, store,
  store_table, with_session, refuse, module_check, still_good_with, same_serial, handle_rv,
  lookup_in,
}
use xdg_desktop_portal_certi.Module.Rv.{Rv}

-- A hash that the table has.
pub record IsKnown (hash : Option Bytes) : Type 0 where
  pub name : Bytes
  pub entry : HashEntry
  pub is_named : hash ≡ some name
  pub is_entry : hash_entry (some name) ≡ some entry

-- The hash of a mechanism that hashes here, running on a session's digest.
pub record IsHashing (row : PortalMechanism) (sign_hash : Option Bytes)
    (sign_digest : Option (GnutlsDigest × Bytes)) : Type 0 where
  pub hash : IsKnown row.hash_name
  pub same_hash : sign_hash ≡ row.hash_name
  pub fed : Bytes
  pub is_running : sign_digest ≡ some (hash.entry.gnutls_digest, fed)

-- The buffer of a mechanism that takes a digest, within its bound, and where its hash comes from.
pub record IsBuffering (row : PortalMechanism) (sign_hash : Option Bytes)
    (sign_digest : Option (GnutlsDigest × Bytes)) (sign_buffer : Option Bytes) : Type 0 where
  pub no_digest : sign_digest ≡ none
  pub buffer : Bytes
  pub is_buffer : sign_buffer ≡ some buffer
  pub is_bounded : length buffer ≤ 512
  pub hash : (row.digest_info ≡ true) ⊎ ((row.infer_hash ≡ true) ⊎ IsKnown sign_hash)

-- A session that signs: the grant allows it and has the mechanism, and the input is there.
pub record IsSigning (grant : Option Grant) (sign_mechanism : Option PortalMechanism)
    (sign_hash : Option Bytes) (sign_digest : Option (GnutlsDigest × Bytes))
    (sign_buffer : Option Bytes) : Type 0 where
  pub granted : Grant
  pub has_grant : grant ≡ some granted
  pub is_allowed : granted.may_sign ≡ true
  pub row : PortalMechanism
  pub has_row : sign_mechanism ≡ some row
  pub can_sign : row.can_sign ≡ true
  pub is_available : mechanism_available (some row) granted.supported_mechanisms ≡ true
  pub input :
      ((row.hash_locally ≡ true) × IsHashing row sign_hash sign_digest)
      ⊎ ((row.hash_locally ≡ false) × IsBuffering row sign_hash sign_digest sign_buffer)

-- A session that decrypts: the grant allows it and has RSA-OAEP, and a hash is set.
pub record IsDecrypting (grant : Option Grant) (decrypt_hash : Option Bytes) : Type 0 where
  pub granted : Grant
  pub has_grant : grant ≡ some granted
  pub is_allowed : granted.may_decrypt ≡ true
  pub is_available :
      mechanism_available (mechanism_lookup rsa_pkcs_oaep) granted.supported_mechanisms ≡ true
  pub hash : Bytes
  pub has_hash : decrypt_hash ≡ some hash

abbrev pub Signing : Option Grant → PortalSession → Type 0
Signing grant x = IsSigning grant x.sign_mechanism x.sign_hash x.sign_digest x.sign_buffer

-- A session's flags tell what it holds, and what it does not run holds no memory.
pub record IsSound (grant : Option Grant) (x : PortalSession) : Type 0 where
  pub signing : x.sign_active ≡ true → Signing grant x
  pub not_signing : x.sign_active ≡ false → (x.sign_digest ≡ none) × (x.sign_buffer ≡ none)
  pub decrypting : x.decrypt_active ≡ true → IsDecrypting grant x.decrypt_hash
  pub not_decrypting : x.decrypt_active ≡ false → x.decrypt_label ≡ none
  pub finding : x.find_active ≡ true → (rs : List ℕ) × (x.find_results ≡ some rs)

abbrev pub AllIn : (PortalSession → Type 0) → Option (List PortalSession) → Type 0
AllIn P none = Unit {0}
AllIn P (some ss) = All P ss

-- Every session is sound for the grant that is held, and without a grant there are no objects.
pub record Inv (s : Cryptoki) : Type 0 where
  pub sound : AllIn (IsSound s.grant) s.sessions
  pub objects : s.grant ≡ none → s.objects ≡ none

-- A call ends or sleeps in such a state, and reads through no NULL pointer.
abbrev pub Safe {ℓ} : {A : Type ℓ} → Done A → Type 0
Safe (returns rv out s) = Inv s
Safe (waits p s) = Inv s
Safe crashes = ⊥

abbrev pub Found : Option PortalSession × Cryptoki → Type 0
Found (none, s) = Inv s
Found (some x, s) = Inv s × IsSound s.grant x

reset_both-IsSound :
    (grant : Option Grant) (x : PortalSession)
    → IsSound grant x
    → IsSound none (reset_decrypt (reset_sign x))
unfolding reset_decrypt reset_sign
reset_both-IsSound grant x sound = record {
  signing = λ h. absurd (ground (arith));
  not_signing = λ h. (refl, refl);
  decrypting = λ h. absurd (ground (arith));
  not_decrypting = λ h. refl;
  finding = sound.finding;
}

-- A session that is no longer signing, or decrypting, is sound for what grant there is.
pub reset_sign-IsSound :
    (grant : Option Grant) (x : PortalSession) → IsSound grant x → IsSound grant (reset_sign x)
unfolding reset_sign
reset_sign-IsSound grant x sound = record {
  signing = λ h. absurd (ground (arith));
  not_signing = λ h. (refl, refl);
  decrypting = sound.decrypting;
  not_decrypting = sound.not_decrypting;
  finding = sound.finding;
}

map-IsSound :
    (grant : Option Grant) (ss : List PortalSession)
    → All (IsSound grant) ss
    → All (IsSound none) (map (λ x. reset_decrypt (reset_sign x)) ss)
map-IsSound grant [] all = tt
map-IsSound grant (x ∷ xs) (one, all) = (reset_both-IsSound grant x one, map-IsSound grant xs all)

table-IsSound :
    (grant : Option Grant) (t : Option (List PortalSession))
    → AllIn (IsSound grant) t
    → AllIn (IsSound none) (map_table (λ x. reset_decrypt (reset_sign x)) t)
table-IsSound grant none all = tt
table-IsSound grant (some ss) all = map-IsSound grant ss all

pub drop_objects-Inv : (s : Cryptoki) → Inv s → Inv (drop_objects s)
unfolding drop_objects
drop_objects-Inv s inv = record {
  sound = table-IsSound s.grant s.sessions inv.sound;
  objects = λ h. refl;
}

pub release_grant-Inv : (s : Cryptoki) → Inv s → Inv (release_grant s)
unfolding release_grant
release_grant-Inv s inv = drop_objects-Inv _ (record { sound = inv.sound; objects = inv.objects })

empty-IsSound :
    (P : PortalSession → Type 0) (t : Option (List PortalSession)) → AllIn P (empty_table t)
empty-IsSound P none = tt
empty-IsSound P (some ss) = tt

grant_ended-Inv : (s : Cryptoki) → Inv s → Inv (grant_ended s)
grant_ended-Inv s inv = record {
  sound = empty-IsSound _ _;
  objects = (release_grant-Inv s inv).objects;
}

pub grant_still_good-Inv : (now : ℕ) (s : Cryptoki) → Inv s → Inv (grant_still_good now s).1
unfolding grant_still_good
grant_still_good-Inv now s inv = go s.grant
  where
    go : (g : Option Grant) → Inv (still_good_with now s g).1
    go none = inv
    go (some grant) =
        if-cases (λ (p : Bool × Cryptoki). Inv p.1) _ (λ _. inv) (λ _. grant_ended-Inv s inv)

find_session-All :
    (P : PortalSession → Type 0) (t : Option (List PortalSession)) (handle : ℕ) {x : PortalSession}
    → AllIn P t
    → table_lookup t handle ≡ some x
    → P x
find_session-All P none handle all h = absurd (ground (arith))
find_session-All P (some ss) handle all h =
    find-All P (λ x. session_key x.handle == session_key handle) ss all h

looked-Found :
    (s : Cryptoki) (handle : ℕ) (o : Option PortalSession)
    → table_lookup s.sessions handle ≡ o
    → Inv s
    → Found (o, s)
looked-Found s handle none e inv = inv
looked-Found s handle (some x) e inv =
    (inv, find_session-All (IsSound s.grant) s.sessions handle inv.sound e)

lookup_in-Found :
    (now : ℕ) (s : Cryptoki) (handle : ℕ) (t : Option (List PortalSession))
    → Inv s
    → Found (lookup_in now s handle t)
lookup_in-Found now s handle none inv = inv
lookup_in-Found now s handle (some ss) inv =
    looked-Found (grant_still_good now s).1 handle _ refl (grant_still_good-Inv now s inv)

-- What a lookup finds is sound for the grant that the lookup leaves.
pub session_lookup-Found :
    (now : ℕ) (s : Cryptoki) (handle : ℕ) → Inv s → Found (session_lookup now s handle)
unfolding session_lookup
session_lookup-Found now s handle inv = lookup_in-Found now s handle s.sessions inv

same_serial-Found :
    (serial : ℕ) (p : Option PortalSession × Cryptoki)
    → Found p
    → Found (same_serial serial p.0, p.1)
same_serial-Found serial (none, s) f = f
same_serial-Found serial (some x, s) (inv, sound) = ground (arith, inv, sound)

pub session_revalidate-Found :
    (now : ℕ) (s : Cryptoki) (handle lifecycle serial : ℕ)
    → Inv s
    → Found (session_revalidate now s handle lifecycle serial)
unfolding session_revalidate
session_revalidate-Found now s handle lifecycle serial inv = ground (
  arith,
  inv,
  same_serial-Found serial (session_lookup now s handle) (session_lookup-Found now s handle inv),
)

abbrev pub FoundRv : Rv × Option PortalSession × Cryptoki → Type 0
FoundRv (rv, o, s) = Found (o, s)

handle_rv-Found : (p : Option PortalSession × Cryptoki) → Found p → FoundRv (handle_rv p)
handle_rv-Found (none, s) f = f
handle_rv-Found (some x, s) f = f

pub operation_session_lookup-Found :
    (now : ℕ) (s : Cryptoki) (handle : ℕ) → Inv s → FoundRv (operation_session_lookup now s handle)
unfolding operation_session_lookup
operation_session_lookup-Found now s handle inv = ground (
  arith,
  grant_still_good-Inv now s inv,
  handle_rv-Found _ (session_lookup-Found now s handle inv),
)

store-All :
    (P : PortalSession → Type 0) (x : PortalSession) (ss : List PortalSession)
    → P x
    → All P ss
    → All P (store x ss)
unfolding store
store-All P x [] one all = tt
store-All P x (y ∷ ys) one (first, all) = ground (arith, one, all, first, store-All P x ys one all)

table-All :
    (P : PortalSession → Type 0) (x : PortalSession) (t : Option (List PortalSession))
    → P x
    → AllIn P t
    → AllIn P (store_table x t)
table-All P x none one all = tt
table-All P x (some ss) one all = store-All P x ss one all

-- Writing to one session keeps the others.
pub with_session-Inv :
    (x : PortalSession) (s : Cryptoki) → IsSound s.grant x → Inv s → Inv (with_session x s)
with_session-Inv x s one inv = record {
  sound = table-All (IsSound s.grant) x s.sessions one inv.sound;
  objects = inv.objects;
}

-- A call that goes on only where a flag is set.
pub guarded-Safe {ℓ} :
    {A : Type ℓ} (b : Bool) (off on : Done A)
    → (b ≡ false → Safe off)
    → (b ≡ true → Safe on)
    → Safe (if not b then off else on)
guarded-Safe true off on p q = q refl
guarded-Safe false off on p q = p refl
