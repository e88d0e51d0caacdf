-- ===== src/Core/Session.antt =====
-- src/core/session.c: the session of a grant, on the coordinator's thread: its grant and expiry, closing
-- and invalidation with the requests that they cancel, and the check of the caller.
pub mod Create
pub mod Caller
pub mod Once
pub mod Cancels
pub mod Principals
use xdg_desktop_portal_certi.Base.{
  ℕ, suc, ◌+◌, ◌/◌, ◌≤◌, ◌<◌, ◌≡◌, Bool, true, false, not, ◌&&◌, ◌||◌, List, [], ◌∷◌, Option, none,
  some, ◌==◌, ltb, leb, if◌then◌else◌, map, Bytes, bytes_eq, codes, contains,
}
use xdg_desktop_portal_certi.Tokens.Filter.{Purpose, client_auth}

-- `XccErrorCode`, by the codes that the file sets.
pub data ErrorCode : Type 0 where
  xcc_ok no_such_session invalid_request device token_removed backend_gone : ErrorCode
  other_code : ℕ → ErrorCode

-- `XccCancelReason`. A `cancel_intent` of 0 is none, and it is 1 more than its reason otherwise.
pub data CancelReason : Type 0 where
  cancel_session_closed cancel_token_removed cancel_backend_gone cancel_device : CancelReason
  cancel_user cancel_owner_gone : CancelReason

-- `CERTIFICATE_IDENTITY_UNKNOWN`, the weakest of the three levels.
abbrev pub identity_unknown : ℕ
identity_unknown = 2

-- `XccRequest`, with the number of its session and whether its cancellable is cancelled.
pub record Request : Type 0 where
  pub session : ℕ
  pub answered : Bool
  pub cancel_intent : Option CancelReason
  pub cancelled_code : ErrorCode
  pub cancelled : Bool

-- `XccContext`, by the fields that a session uses.
pub record Context : Type 0 where
  pub requests : List Request
  pub sessions : List ℕ
  pub stopping : Bool
  pub generation : ℕ

-- `XccSession`. `number` is its address. `notices` are the reasons that went to the adapter, posted or in
-- a direct call, the last one first, and `releases` the releases of the device that were started.
pub record Session : Type 0 where
  pub number : ℕ
  pub context : Option Context
  pub owner_generation : ℕ
  pub app_id : Bytes
  pub identity_level : ℕ
  pub identity_seen : Bool
  pub closed : Bool
  pub invalidating : Bool
  pub has_callback : Bool
  pub granted : Bool
  pub candidate : Option ℕ
  pub purpose : Purpose
  pub may_sign : Bool
  pub may_decrypt : Bool
  pub decrypt_count : ℕ
  pub lifetime : ℕ
  pub expires_at : ℕ
  pub has_expiry_source : Bool
  pub device_open : Bool
  pub releases : ℕ
  pub notices : List Bytes

-- `xcc_session_grant`, on the monotonic clock in microseconds. A candidate is its address.
unfoldable pub grant : ℕ → ℕ → Purpose → Bool → Bool → ℕ → Session → Session
grant monotonic chosen purpose sign decrypt lifetime s = record s {
  candidate = some chosen;
  purpose = purpose;
  may_sign = sign;
  may_decrypt = decrypt;
  decrypt_count = 0;
  lifetime = lifetime;
  expires_at = monotonic / 1000000 + lifetime;
  granted = true;
  has_expiry_source = true;
}

-- `xcc_session_is_expired`.
unfoldable pub is_expired : ℕ → Session → Bool
is_expired monotonic s = if not s.granted then false else leb s.expires_at (monotonic / 1000000)

-- `xcc_session_release_device_async`: `locked` tells whether a worker holds the device's lock.
unfoldable pub release_device_async : Bool → Session → Session
release_device_async locked s =
    if not locked && not s.device_open then s else record s { releases = suc s.releases }

-- `g_atomic_int_compare_and_exchange (&cancel_intent, 0, reason + 1)`.
abbrev pub first_intent : Option CancelReason → CancelReason → Option CancelReason
first_intent none reason = some reason
first_intent (some old) reason = some old

abbrev pub first_code : ErrorCode → ErrorCode → ErrorCode
first_code xcc_ok code = code
first_code old code = old

-- One round of the loop of `xcc_session_close_internal`.
unfoldable pub close_request : ℕ → Request → Request
close_request number r =
    if not (r.session == number)
    then r
    else if r.answered
    then record r { cancel_intent = first_intent r.cancel_intent cancel_session_closed }
    else record r {
      cancel_intent = first_intent r.cancel_intent cancel_session_closed;
      cancelled_code = first_code r.cancelled_code no_such_session;
      cancelled = true;
    }

-- `g_ptr_array_remove`, which removes the first occurrence.
unfoldable pub without_first : ℕ → List ℕ → List ℕ
without_first number [] = []
without_first number (n ∷ ns) =
    let rest = without_first number ns in if n == number then ns else n ∷ rest

abbrev pub close_requests : ℕ → Option Context → Option Context
close_requests number none = none
close_requests number (some c) =
    some (record c { requests = map (close_request number) c.requests })

abbrev pub leave : ℕ → Option Context → Option Context
leave number none = none
leave number (some c) = some (record c { sessions = without_first number c.sessions })

abbrev pub end_session : Session → Session
end_session s = record s { context = leave s.number s.context }

abbrev pub closing : Session → Session
closing s = record s {
  closed = true;
  context = close_requests s.number s.context;
  has_expiry_source = false;
}

-- `xcc_session_close_internal`.
unfoldable pub close_internal : Bool → Session → Session
close_internal locked s =
    if s.closed then s else end_session (release_device_async locked (closing s))

abbrev pub session_reasons : List Bytes
session_reasons =
    codes "expired"
    ∷ codes "token_removed"
    ∷ codes "policy"
    ∷ codes "backend_gone"
    ∷ codes "error"
    ∷ []

abbrev reason_or_error : Option Bytes → Bytes
reason_or_error none = codes "error"
reason_or_error (some reason) = if contains session_reasons reason then reason else codes "error"

unfoldable pub checked_reason : Option Bytes → Bytes
checked_reason reason = reason_or_error reason

abbrev pub code_for : Bytes → ErrorCode
code_for reason =
    if bytes_eq reason (codes "token_removed")
    then token_removed
    else if bytes_eq reason (codes "backend_gone")
    then backend_gone
    else device

abbrev pub cancel_for : ErrorCode → CancelReason
cancel_for token_removed = cancel_token_removed
cancel_for backend_gone = cancel_backend_gone
cancel_for _ = cancel_device

-- One round of the loop of `xcc_session_invalidate_internal`.
unfoldable pub invalidate_request : ℕ → ErrorCode → Request → Request
invalidate_request number code r =
    if not (r.session == number)
    then r
    else if r.answered
    then record r { cancel_intent = first_intent r.cancel_intent (cancel_for code) }
    else record r {
      cancel_intent = first_intent r.cancel_intent (cancel_for code);
      cancelled_code = first_code r.cancelled_code code;
    }

abbrev pub invalidate_requests : ℕ → ErrorCode → Option Context → Option Context
invalidate_requests number code none = none
invalidate_requests number code (some c) =
    some (record c { requests = map (invalidate_request number code) c.requests })

abbrev pub noted : Bytes → Session → Session
noted reason s = record s { notices = reason ∷ s.notices }

abbrev pub dispatch_in : (Session → Session) → Bytes → Session → Option Context → Session
dispatch_in direct reason s none = if s.has_callback then direct (noted reason s) else s
dispatch_in direct reason s (some c) = noted reason s

-- `xcc_session_dispatch_invalidated`: a call where there is no context, and else a post to the adapter.
-- `direct` is what that call makes of the session.
unfoldable pub dispatch_invalidated : (Session → Session) → Bytes → Session → Session
dispatch_invalidated direct reason s = dispatch_in direct reason s s.context

abbrev pub marked : Bytes → Session → Session
marked reason s = record s {
  invalidating = true;
  context = invalidate_requests s.number (code_for reason) s.context;
}

-- `xcc_session_invalidate_internal`, with a callback that makes `direct` of the session.
unfoldable pub invalidate_with : Bool → (Session → Session) → Option Bytes → Session → Session
invalidate_with locked direct reason s =
    if s.closed || s.invalidating
    then s
    else let checked = checked_reason reason in
      close_internal locked (dispatch_invalidated direct checked (marked checked s))

-- What a direct callback does before it returns: nothing, or a call of xcc_session_close or
-- xcc_session_invalidate, and then the rest. The second callback of `invalidates` is what it does if it
-- is called for that in turn. On a closed session both calls do nothing, as their inner functions do.
pub data Callback : Type 0 where
  leaves : Callback
  closes : Callback → Callback
  invalidates : Option Bytes → Callback → Callback → Callback

unfoldable pub call_back : Bool → Callback → Session → Session
call_back locked leaves s = s
call_back locked (closes rest) s = call_back locked rest (close_internal locked s)
call_back locked (invalidates reason inner rest) s =
    call_back locked rest (invalidate_with locked (call_back locked inner) reason s)

-- `xcc_session_invalidate_internal`.
abbrev pub invalidate_internal : Bool → Callback → Option Bytes → Session → Session
invalidate_internal locked callback reason s =
    invalidate_with locked (call_back locked callback) reason s

-- `on_lifetime_expired`.
unfoldable pub on_lifetime_expired : Bool → Callback → Session → Session
on_lifetime_expired locked callback s =
    invalidate_internal locked callback (some (codes "expired"))
      (record s { has_expiry_source = false })
