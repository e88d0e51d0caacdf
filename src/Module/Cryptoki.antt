-- ===== src/Module/Cryptoki.antt =====
-- src/module/module.c: the state that its statics keep, the sessions, and what every entry point does
-- first. The client of src/module/portal.c is here by the fields that the module's decisions read.
-- A call holds `module_lock`: it sees one snapshot of the client, and signals come between calls.
pub mod Lifecycle
pub mod Sessions
pub mod Slots
pub mod Search
pub mod Sign
pub mod Perform
pub mod Decrypt
pub mod Invariant
pub mod Digest
pub mod Sent
pub mod Grants
use xdg_desktop_portal_certi.Base.{
  ℕ, suc, ◌+◌, ◌%◌, ◌/◌, ◌^◌, ◌<◌, ◌≡◌, Bool, true, false, not, ◌&&◌, ◌||◌, List, [], ◌∷◌, Option,
  none, some, ◌==◌, ltb, if◌then◌else◌, find, map, Bytes, contains,
}
use xdg_desktop_portal_certi.Ck.{GnutlsDigest}
use xdg_desktop_portal_certi.Module.Grant.{Grant}
use xdg_desktop_portal_certi.Module.Mechanism.{PortalMechanism}
use xdg_desktop_portal_certi.Module.Objects.{Objects}
use xdg_desktop_portal_certi.Module.Rv.{
  Rv, ckr_ok, ckr_arguments_bad, ckr_cryptoki_not_initialized, ckr_device_error, ckr_device_removed,
  ckr_function_canceled, ckr_function_failed, ckr_pin_locked, ckr_session_handle_invalid,
  ckr_token_not_present, ckr_user_not_logged_in,
}

-- `CK_FLAGS` of a session, by the two bits that the module tests.
pub record SessionFlags : Type 0 where
  pub serial_session : Bool
  pub rw_session : Bool
  pub other_bits : ℕ

-- `PortalSession`. The state of a running hash is its algorithm and the bytes that it has taken.
pub record PortalSession : Type 0 where
  pub handle : ℕ
  pub serial : ℕ
  pub flags : SessionFlags
  pub find_active : Bool
  pub find_results : Option (List ℕ)
  pub find_position : ℕ
  pub sign_active : Bool
  pub sign_mechanism : Option PortalMechanism
  pub sign_hash : Option Bytes
  pub sign_mgf : Option Bytes
  pub sign_have_salt : Bool
  pub sign_salt : ℕ
  pub sign_digest : Option (GnutlsDigest × Bytes)
  pub sign_buffer : Option Bytes
  pub decrypt_active : Bool
  pub decrypt_hash : Option Bytes
  pub decrypt_mgf1_hash : Option Bytes
  pub decrypt_label : Option Bytes

-- `PortalClient`, by the fields that grants and availability depend on. `identity` is its address;
-- `available` and `mechanisms` are what the last probe of the portal has left.
pub record Client : Type 0 where
  pub identity : ℕ
  pub is_connected : Bool
  pub owner : Option Bytes
  pub owner_generation : ℕ
  pub invalidated : List Bytes
  pub available : Bool
  pub mechanisms : List Bytes

-- The statics of the file, and the grants that it has given back by `portal_client_release`.
pub record Cryptoki : Type 0 where
  pub initialized : Bool
  pub finalizing : Bool
  pub acquiring : Bool
  pub lifecycle : ℕ
  pub session_serial : ℕ
  pub client : Option Client
  pub grant : Option Grant
  pub objects : Option Objects
  pub generation : ℕ
  pub sessions : Option (List PortalSession)
  pub next_session : ℕ
  pub logged_in : Bool
  pub slot_events : ℕ
  pub enumerate : Bool
  pub issued_ids : Option (List Bytes)
  pub refusal_time : ℕ
  pub released : List Grant

-- The statics of a library that was just loaded.
abbrev pub unloaded : Cryptoki
unloaded = record {
  initialized = false;
  finalizing = false;
  acquiring = false;
  lifecycle = 0;
  session_serial = 0;
  client = none;
  grant = none;
  objects = none;
  generation = 0;
  sessions = none;
  next_session = 0;
  logged_in = false;
  slot_events = 0;
  enumerate = false;
  issued_ids = none;
  refusal_time = 0;
  released = [];
}

-- `PKCS11_PORTAL_ERROR_…`, and a `GError` that is NULL, of another domain, or of this one.
pub data PortalError : Type 0 where
  failed cancelled unavailable invalidated_grant timeout pin_locked device : PortalError
  login_required invalid_request : PortalError

pub data GError : Type 0 where
  no_error other_domain : GError
  portal_error : PortalError → GError

-- Where a call has released `module_lock`, and what it keeps of its locals: a search that sleeps while
-- another acquires (lifecycle and serial), a search that acquires (its client's address, the
-- generation, lifecycle and serial), and C_Finalize while a search acquires.
pub data Pending : Type 0 where
  until_acquired : ℕ → ℕ → Pending
  in_acquire : ℕ → ℕ → ℕ → ℕ → Pending
  until_idle : Pending

-- How a call goes: it returns, with what it writes through its pointer and the state it leaves, it
-- releases the lock and goes on later, or it reads through a NULL pointer.
pub data Done {ℓ} (A : Type ℓ) : Type ℓ where
  returns : Rv → Option A → Cryptoki → Done A
  waits : Pending → Cryptoki → Done A
  crashes : Done A

abbrev pub refuse {ℓ} : {A : Type ℓ} → Rv → Cryptoki → Done A
refuse rv s = returns rv none s

-- `MODULE_CHECK`, which reads `module_initialized` before `module_lock` is taken: `checked` is what it has
-- read, and the rest of the call runs on the state under the lock, which may be another one by then.
abbrev pub module_check {ℓ} : {A : Type ℓ} → Bool → Cryptoki → Done A → Done A
module_check checked s rest = if checked then rest else refuse ckr_cryptoki_not_initialized s

unfoldable pub error_to_rv : GError → Rv
error_to_rv no_error = ckr_function_failed
error_to_rv other_domain = ckr_function_failed
error_to_rv (portal_error cancelled) = ckr_function_canceled
error_to_rv (portal_error invalidated_grant) = ckr_device_removed
error_to_rv (portal_error unavailable) = ckr_token_not_present
error_to_rv (portal_error pin_locked) = ckr_pin_locked
error_to_rv (portal_error device) = ckr_device_error
error_to_rv (portal_error login_required) = ckr_user_not_logged_in
error_to_rv (portal_error invalid_request) = ckr_arguments_bad
error_to_rv (portal_error _) = ckr_function_failed

-- `session_reset_sign`.
unfoldable pub reset_sign : PortalSession → PortalSession
reset_sign session = record session {
  sign_active = false;
  sign_mechanism = none;
  sign_hash = none;
  sign_mgf = none;
  sign_have_salt = false;
  sign_salt = 0;
  sign_digest = none;
  sign_buffer = none;
}

-- `session_reset_decrypt`.
unfoldable pub reset_decrypt : PortalSession → PortalSession
reset_decrypt session = record session {
  decrypt_active = false;
  decrypt_hash = none;
  decrypt_mgf1_hash = none;
  decrypt_label = none;
}

abbrev gone_from : Client → Grant → Option Bytes → Option Bytes → Bool
gone_from client grant none owner = true
gone_from client grant (some handle) none = true
gone_from client grant (some handle) (some owner) =
    not (client.owner_generation == grant.owner_generation) || contains client.invalidated handle

-- `portal_client_grant_gone`.
unfoldable pub grant_gone : Option Client → Option Grant → Bool
grant_gone none grant = true
grant_gone (some client) none = true
grant_gone (some client) (some grant) = gone_from client grant grant.session_handle client.owner

-- `portal_client_available`, after its probe.
unfoldable pub client_available : Option Client → Bool
client_available none = false
client_available (some client) = client.is_connected && client.available

-- The sessions are in a hash table whose key is `GUINT_TO_POINTER (handle)`, the handle's low 32 bits.
abbrev pub session_key : ℕ → ℕ
session_key handle = handle % 2 ^ 32

abbrev pub find_session : List PortalSession → ℕ → Option PortalSession
find_session ss handle = find (λ x. session_key x.handle == session_key handle) ss

abbrev pub table_lookup : Option (List PortalSession) → ℕ → Option PortalSession
table_lookup none handle = none
table_lookup (some ss) handle = find_session ss handle

abbrev pub map_table :
    (PortalSession → PortalSession) → Option (List PortalSession) → Option (List PortalSession)
map_table f none = none
map_table f (some ss) = some (map f ss)

abbrev pub empty_table : Option (List PortalSession) → Option (List PortalSession)
empty_table none = none
empty_table (some ss) = some []

-- A write through the pointer to a session of the table.
unfoldable pub store : PortalSession → List PortalSession → List PortalSession
store x [] = []
store x (y ∷ ys) =
    let rest = store x ys in
    if session_key y.handle == session_key x.handle then x ∷ ys else y ∷ rest

abbrev pub store_table : PortalSession → Option (List PortalSession) → Option (List PortalSession)
store_table x none = none
store_table x (some ss) = some (store x ss)

abbrev pub with_session : PortalSession → Cryptoki → Cryptoki
with_session x s = record s { sessions = store_table x s.sessions }

unfoldable pub drop_objects : Cryptoki → Cryptoki
drop_objects s = record s {
  sessions = map_table (λ x. reset_decrypt (reset_sign x)) s.sessions;
  objects = none;
  grant = none;
}

-- What `portal_client_release` is called with.
abbrev release_live : Option Client → Option Grant → List Grant → List Grant
release_live client none rs = rs
release_live client (some grant) rs =
    if not (grant_gone client (some grant)) then grant ∷ rs else rs

unfoldable pub release_grant : Cryptoki → Cryptoki
release_grant s = drop_objects (record s {
  generation = suc s.generation % 2 ^ 32;
  released = release_live s.client s.grant s.released;
})

-- `g_get_real_time () / G_USEC_PER_SEC < expires_at`, and 0 for no expiry.
abbrev pub is_fresh : ℕ → Grant → Bool
is_fresh real_time grant = grant.expires_at == 0 || ltb (real_time / 1000000) grant.expires_at

-- What `grant_still_good` does when the grant has ended.
abbrev pub grant_ended : Cryptoki → Cryptoki
grant_ended s =
    let s' = release_grant s in
    record s' {
      sessions = empty_table s'.sessions;
      logged_in = false;
      slot_events = suc s'.slot_events % 2 ^ 32;
    }

abbrev pub still_good_with : ℕ → Cryptoki → Option Grant → Bool × Cryptoki
still_good_with real_time s none = (false, s)
still_good_with real_time s (some grant) =
    if not (grant_gone s.client (some grant)) && is_fresh real_time grant
    then (true, s)
    else (false, grant_ended s)

unfoldable pub grant_still_good : ℕ → Cryptoki → Bool × Cryptoki
grant_still_good real_time s = still_good_with real_time s s.grant

abbrev lookup_after : Cryptoki → ℕ → Option PortalSession × Cryptoki
lookup_after s handle = (table_lookup s.sessions handle, s)

abbrev pub lookup_in :
    ℕ → Cryptoki → ℕ → Option (List PortalSession) → Option PortalSession × Cryptoki
lookup_in real_time s handle none = (none, s)
lookup_in real_time s handle (some ss) = lookup_after (grant_still_good real_time s).1 handle

-- `session_lookup`, which ends a grant that is gone first.
unfoldable pub session_lookup : ℕ → Cryptoki → ℕ → Option PortalSession × Cryptoki
session_lookup real_time s handle = lookup_in real_time s handle s.sessions

abbrev pub same_serial : ℕ → Option PortalSession → Option PortalSession
same_serial serial none = none
same_serial serial (some x) = if x.serial == serial then some x else none

-- `session_revalidate`.
unfoldable pub session_revalidate : ℕ → Cryptoki → ℕ → ℕ → ℕ → Option PortalSession × Cryptoki
session_revalidate real_time s handle lifecycle serial =
    if s.finalizing || (not s.initialized || not (s.lifecycle == lifecycle))
    then (none, s)
    else let (found, s') = session_lookup real_time s handle in (same_serial serial found, s')

abbrev is_present {ℓ} : {A : Type ℓ} → Option A → Bool
is_present none = false
is_present (some a) = true

abbrev pub handle_rv : Option PortalSession × Cryptoki → Rv × Option PortalSession × Cryptoki
handle_rv (none, s) = (ckr_session_handle_invalid, none, s)
handle_rv (some x, s) = (ckr_ok, some x, s)

-- `operation_session_lookup`: the code, the session if it is CKR_OK, and the state.
unfoldable pub operation_session_lookup : ℕ → Cryptoki → ℕ → Rv × Option PortalSession × Cryptoki
operation_session_lookup real_time s handle =
    if is_present s.grant
      && (is_present (table_lookup s.sessions handle) && grant_gone s.client s.grant)
    then (ckr_device_removed, none, (grant_still_good real_time s).1)
    else handle_rv (session_lookup real_time s handle)
