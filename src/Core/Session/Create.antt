-- ===== src/Core/Session/Create.antt =====
-- src/core/session.c: the making of a session, and its registration with the context.
use xdg_desktop_portal_certi.Base.{
  ℕ, Bool, true, false, not, ◌&&◌, [], ◌∷◌, ◌++◌, Option, none, some, ◌==◌, ltb, if◌then◌else◌,
  Bytes,
}
use xdg_desktop_portal_certi.Tokens.Filter.{client_auth}
use xdg_desktop_portal_certi.Core.Session.{
  ErrorCode, xcc_ok, no_such_session, invalid_request, Context, Session, identity_unknown,
}

abbrev pub register_in : ℕ → ℕ → Context → Bool × Context
register_in number owner_generation c =
    if not c.stopping && owner_generation == c.generation
    then (true, record c { sessions = c.sessions ++ number ∷ [] })
    else (false, c)

-- `session_new_register`, on the session that `xcc_session_new` has made.
unfoldable pub session_new_register : Session → Context → Bool × Session
session_new_register s c =
    let (valid, c') = register_in s.number s.owner_generation c in
    (valid, record s { context = some c' })

-- `XccSessionSpec`, with whether its size and version are right.
pub record SessionSpec : Type 0 where
  pub is_current : Bool
  pub owner_generation : ℕ
  pub app_id : Option Bytes
  pub identity_present : Bool
  pub identity_level : ℕ

-- The session that `xcc_session_new` registers, at an address.
abbrev pub fresh_session : ℕ → Bytes → SessionSpec → Session
fresh_session number app_id spec = record {
  number = number;
  context = none;
  owner_generation = spec.owner_generation;
  app_id = app_id;
  identity_level = spec.identity_level;
  identity_seen = spec.identity_present;
  closed = false;
  invalidating = false;
  has_callback = false;
  granted = false;
  candidate = none;
  purpose = client_auth;
  may_sign = false;
  may_decrypt = false;
  decrypt_count = 0;
  lifetime = 0;
  expires_at = 0;
  has_expiry_source = false;
  device_open = false;
  releases = 0;
  notices = [];
}

abbrev pub registered : Bool × Session → ErrorCode × Option Session
registered (true, s) = (xcc_ok, some s)
registered (false, s) = (no_such_session, none)

abbrev pub spec_session :
    Bool → ℕ → SessionSpec → Context → Option Bytes → ErrorCode × Option Session
spec_session posted number spec c none = (invalid_request, none)
spec_session posted number spec c (some app_id) =
    if not spec.is_current
    then (invalid_request, none)
    else if spec.identity_present && ltb identity_unknown spec.identity_level
    then (invalid_request, none)
    else if not posted
    then (no_such_session, none)
    else registered (session_new_register (fresh_session number app_id spec) c)

-- `xcc_session_new`: `posted` tells whether the registration reaches the coordinator.
unfoldable pub session_new :
    Bool → ℕ → Option Context → Option SessionSpec → ErrorCode × Option Session
session_new posted number (some c) (some spec) = spec_session posted number spec c spec.app_id
session_new posted number _ _ = (invalid_request, none)
