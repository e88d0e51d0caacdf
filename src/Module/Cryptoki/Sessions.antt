-- ===== src/Module/Cryptoki/Sessions.antt =====
-- src/module/module.c: opening and closing sessions, logging in and out.
use xdg_desktop_portal_certi.Base.{
  ℕ, suc, ◌%◌, ◌^◌, Bool, true, false, not, List, [], ◌∷◌, Option, none, some, ◌==◌, if◌then◌else◌,
}
use xdg_desktop_portal_certi.Module.Rv.{
  ckr_ok, ckr_arguments_bad, ckr_cryptoki_not_initialized, ckr_session_handle_invalid,
  ckr_session_parallel_not_supported, ckr_slot_id_invalid, ckr_token_not_present,
  ckr_token_write_protected, ckr_user_already_logged_in, ckr_user_not_logged_in,
  ckr_user_type_invalid,
}
use xdg_desktop_portal_certi.Module.Cryptoki.{
  SessionFlags, PortalSession, Cryptoki, Done, returns, refuse, module_check, client_available,
  session_key, session_lookup, find_session, grant_still_good, release_grant,
}

-- `PORTAL_SLOT_ID`.
abbrev pub portal_slot_id : ℕ
portal_slot_id = 1

-- `g_new0 (PortalSession, 1)` with the three fields that are set.
abbrev pub fresh_session : ℕ → ℕ → SessionFlags → PortalSession
fresh_session handle serial flags = record {
  handle = handle;
  serial = serial;
  flags = flags;
  find_active = false;
  find_results = none;
  find_position = 0;
  sign_active = false;
  sign_mechanism = none;
  sign_hash = none;
  sign_mgf = none;
  sign_have_salt = false;
  sign_salt = 0;
  sign_digest = none;
  sign_buffer = none;
  decrypt_active = false;
  decrypt_hash = none;
  decrypt_mgf1_hash = none;
  decrypt_label = none;
}

unfoldable pub without_session : ℕ → List PortalSession → List PortalSession
without_session handle [] = []
without_session handle (x ∷ xs) =
    let rest = without_session handle xs in
    if session_key x.handle == session_key handle then rest else x ∷ rest

-- `g_hash_table_insert`, which replaces what has the same key.
abbrev pub insert_table : PortalSession → Option (List PortalSession) → Option (List PortalSession)
insert_table x none = none
insert_table x (some ss) = some (x ∷ without_session x.handle ss)

-- The new session, on the state that `grant_still_good` has left. Handles are `CK_ULONG`s of 64 bits.
unfoldable pub open_in : SessionFlags → Cryptoki → Done ℕ
open_in flags s =
    let serial = suc s.session_serial % 2 ^ 32 in
    returns ckr_ok (some s.next_session) (record s {
      next_session = suc s.next_session % 2 ^ 64;
      session_serial = serial;
      sessions = insert_table (fresh_session s.next_session serial flags) s.sessions;
    })

-- `C_OpenSession`, with whether its pointer is set.
unfoldable pub c_open_session : Bool → ℕ → ℕ → SessionFlags → Bool → Cryptoki → Done ℕ
c_open_session checked real_time slot flags has_pointer s = module_check checked s (
    if not has_pointer
    then refuse ckr_arguments_bad s
    else if not (slot == portal_slot_id)
    then refuse ckr_slot_id_invalid s
    else if not flags.serial_session
    then refuse ckr_session_parallel_not_supported s
    else if flags.rw_session
    then refuse ckr_token_write_protected s
    else if s.finalizing
    then refuse ckr_cryptoki_not_initialized s
    else if not (client_available s.client)
    then refuse ckr_token_not_present s
    else open_in flags (grant_still_good real_time s).1)

abbrev still_logged_in : List PortalSession → Bool → Bool
still_logged_in [] logged_in = false
still_logged_in (x ∷ xs) logged_in = logged_in

abbrev pub close_found : List PortalSession → ℕ → Cryptoki → Option PortalSession → Done (Unit {0})
close_found ss handle s none = refuse ckr_session_handle_invalid s
close_found ss handle s (some x) =
    let rest = without_session handle ss in
    returns ckr_ok none
      (record s { sessions = some rest; logged_in = still_logged_in rest s.logged_in })

abbrev pub close_in : ℕ → Cryptoki → Option (List PortalSession) → Done (Unit {0})
close_in handle s none = refuse ckr_session_handle_invalid s
close_in handle s (some ss) = close_found ss handle s (find_session ss handle)

-- `C_CloseSession`: the grant outlives its sessions.
unfoldable pub c_close_session : Bool → ℕ → Cryptoki → Done (Unit {0})
c_close_session checked handle s = module_check checked s (close_in handle s s.sessions)

abbrev pub removed_all : Option (List PortalSession) → Option (List PortalSession)
removed_all none = none
removed_all (some ss) = some []

-- `C_CloseAllSessions`.
unfoldable pub c_close_all_sessions : Bool → ℕ → Cryptoki → Done (Unit {0})
c_close_all_sessions checked slot s = module_check checked s (
    if not (slot == portal_slot_id)
    then refuse ckr_slot_id_invalid s
    else returns ckr_ok none
        (record (release_grant (record s { sessions = removed_all s.sessions })) {
          logged_in = false;
        }))

-- `CK_SESSION_INFO`, with whether the state is CKS_RO_USER_FUNCTIONS.
pub record SessionInfo : Type 0 where
  pub slot : ℕ
  pub is_user_functions : Bool
  pub session_flags : SessionFlags

abbrev pub session_info : Option PortalSession × Cryptoki → Done SessionInfo
session_info (none, s) = refuse ckr_session_handle_invalid s
session_info (some x, s) =
    returns ckr_ok
      (some (record {
        slot = portal_slot_id;
        is_user_functions = s.logged_in;
        session_flags = x.flags;
      }))
      s

-- `C_GetSessionInfo`.
unfoldable pub c_get_session_info : Bool → ℕ → ℕ → Bool → Cryptoki → Done SessionInfo
c_get_session_info checked real_time handle has_pointer s = module_check checked s (
    if not has_pointer
    then refuse ckr_arguments_bad s
    else session_info (session_lookup real_time s handle))

abbrev pub login_in : Option PortalSession × Cryptoki → Done (Unit {0})
login_in (none, s) = refuse ckr_session_handle_invalid s
login_in (some x, s) =
    if s.logged_in
    then refuse ckr_user_already_logged_in s
    else returns ckr_ok none (record s { logged_in = true })

-- `C_Login`, on whether the user type is CKU_USER. The PIN's pointer and length are not read.
unfoldable pub c_login : Bool → ℕ → ℕ → Bool → Cryptoki → Done (Unit {0})
c_login checked real_time handle is_user s = module_check checked s (
    if not is_user
    then refuse ckr_user_type_invalid s
    else login_in (session_lookup real_time s handle))

abbrev pub logout_in : Option PortalSession × Cryptoki → Done (Unit {0})
logout_in (none, s) = refuse ckr_session_handle_invalid s
logout_in (some x, s) =
    returns (if s.logged_in then ckr_ok else ckr_user_not_logged_in) none
      (release_grant (record s { logged_in = false }))

-- `C_Logout`.
unfoldable pub c_logout : Bool → ℕ → ℕ → Cryptoki → Done (Unit {0})
c_logout checked real_time handle s =
    module_check checked s (logout_in (session_lookup real_time s handle))
