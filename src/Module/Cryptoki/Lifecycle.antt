-- ===== src/Module/Cryptoki/Lifecycle.antt =====
-- src/module/module.c: C_Initialize and C_Finalize.
use xdg_desktop_portal_certi.Base.{
  suc, ◌%◌, ◌^◌, Bool, true, false, not, ◌&&◌, ◌||◌, [], Option, none, some, if◌then◌else◌, Bytes,
  bytes_eq, codes,
}
use xdg_desktop_portal_certi.Module.Rv.{
  ckr_ok, ckr_arguments_bad, ckr_cant_lock, ckr_cryptoki_already_initialized,
  ckr_cryptoki_not_initialized,
}
use xdg_desktop_portal_certi.Module.Cryptoki.{
  Client, Cryptoki, Done, returns, waits, until_idle, refuse, release_grant,
}

-- `CK_C_INITIALIZE_ARGS`: which of the four functions are set, the reserved string and
-- CKF_OS_LOCKING_OK.
pub record InitArgs : Type 0 where
  pub create_mutex : Bool
  pub destroy_mutex : Bool
  pub lock_mutex : Bool
  pub unlock_mutex : Bool
  pub reserved : Option Bytes
  pub os_locking_ok : Bool

abbrev reserved_ok : Option Bytes → Bool
reserved_ok none = true
reserved_ok (some text) = bytes_eq text (codes "enumerate=1") || bytes_eq text (codes "enumerate=0")

abbrev any_mutex : InitArgs → Bool
any_mutex a = a.create_mutex || (a.destroy_mutex || (a.lock_mutex || a.unlock_mutex))

abbrev all_mutex : InitArgs → Bool
all_mutex a = a.create_mutex && (a.destroy_mutex && (a.lock_mutex && a.unlock_mutex))

abbrev pub wants_enumeration : Option Bytes → Bool
wants_enumeration none = false
wants_enumeration (some text) = bytes_eq text (codes "enumerate=1")

-- The statics after a successful call, on the client that `portal_client_new` gives or none where the
-- process is excluded.
unfoldable pub started : Option Client → Bool → Cryptoki → Cryptoki
started client enumerate s = record s {
  enumerate = enumerate;
  issued_ids = some [];
  sessions = some [];
  next_session = 1;
  lifecycle = suc s.lifecycle % 2 ^ 32;
  finalizing = false;
  logged_in = false;
  refusal_time = 0;
  slot_events = 0;
  client = client;
  initialized = true;
}

-- The module keeps the client that it had where the process is excluded.
abbrev pub chosen_client : Bool → Option Client → Cryptoki → Option Client
chosen_client self_excluded new_client s = if self_excluded then s.client else new_client

-- `C_Initialize`.
unfoldable pub c_initialize : Bool → Option Client → Option InitArgs → Cryptoki → Done (Unit {0})
c_initialize self_excluded new_client none s =
    if s.initialized
    then refuse ckr_cryptoki_already_initialized s
    else returns ckr_ok none (started (chosen_client self_excluded new_client s) false s)
c_initialize self_excluded new_client (some args) s =
    if s.initialized
    then refuse ckr_cryptoki_already_initialized s
    else if not (reserved_ok args.reserved)
    then refuse ckr_arguments_bad s
    else if any_mutex args && not (all_mutex args)
    then refuse ckr_arguments_bad s
    else if all_mutex args && not args.os_locking_ok
    then refuse ckr_cant_lock s
    else returns ckr_ok none
        (started (chosen_client self_excluded new_client s) (wants_enumeration args.reserved) s)

-- What `C_Finalize` does under its first lock, when the module is initialized; it waits while
-- `acquiring` is set, and cancels the client's acquisition.
unfoldable pub finalize_begin : Cryptoki → Cryptoki
finalize_begin s = record s { finalizing = true }

-- What it does once no acquisition runs.
unfoldable pub finalize_end : Cryptoki → Cryptoki
finalize_end s = record (release_grant s) {
  sessions = none;
  issued_ids = none;
  client = none;
  logged_in = false;
  finalizing = false;
  initialized = false;
}

-- `C_Finalize`, whose argument must be NULL. Where an acquisition runs the call sleeps, and `finalize_end`
-- is a step of its own.
unfoldable pub c_finalize : Bool → Cryptoki → Done (Unit {0})
c_finalize is_null s =
    if not is_null
    then refuse ckr_arguments_bad s
    else if not s.initialized
    then refuse ckr_cryptoki_not_initialized s
    else if s.acquiring
    then waits until_idle (finalize_begin s)
    else returns ckr_ok none (finalize_end (finalize_begin s))
