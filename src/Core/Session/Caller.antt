-- ===== src/Core/Session/Caller.antt =====
-- src/core/session.c: the check of a caller's principal against a session.
use xdg_desktop_portal_certi.Base.{
  ℕ, Bool, true, false, not, ◌&&◌, ◌||◌, Option, none, some, ◌==◌, ltb, if◌then◌else◌, Bytes,
  bytes_eq,
}
use xdg_desktop_portal_certi.Core.Session.{
  ErrorCode, xcc_ok, no_such_session, invalid_request, Context, Session, identity_unknown,
}

-- `XccPrincipal`, with whether its size and version are right.
pub record Principal : Type 0 where
  pub is_current : Bool
  pub owner_generation : ℕ
  pub app_id : Option Bytes
  pub identity_present : Bool
  pub identity_level : ℕ

abbrev pub same_app : Bytes → Option Bytes → Bool
same_app own none = false
same_app own (some given) = bytes_eq own given

abbrev pub check_identity : Principal → Session → ErrorCode × Session
check_identity p s =
    if not p.identity_present
    then (xcc_ok, s)
    else if ltb identity_unknown p.identity_level
    then (invalid_request, s)
    else if s.identity_seen && ltb p.identity_level s.identity_level
    then (no_such_session, s)
    else (xcc_ok, record s { identity_level = p.identity_level; identity_seen = true })

abbrev pub check_in : Principal → Session → Option Context → ErrorCode × Session
check_in p s none = (invalid_request, s)
check_in p s (some c) =
    if not p.is_current
    then (invalid_request, s)
    else if s.closed
    then (no_such_session, s)
    else if not (s.owner_generation == c.generation)
        || not (p.owner_generation == s.owner_generation)
    then (no_such_session, s)
    else if not (same_app s.app_id p.app_id)
    then (no_such_session, s)
    else check_identity p s

-- `xcc_session_check_principal`, with `principal_check`.
unfoldable pub check_principal : Principal → Session → ErrorCode × Session
check_principal p s = check_in p s s.context
