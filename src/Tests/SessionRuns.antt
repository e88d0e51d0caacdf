-- ===== src/Tests/SessionRuns.antt =====
-- A session of the coordinator at concrete inputs.
use xdg_desktop_portal_certi.Base.{
  ◌≤◌, ◌≡◌, inl, refl, true, false, [], ◌∷◌, none, some, codes, contains, bytes_eq, All2,
}
use xdg_desktop_portal_certi.Tokens.Filter.{signing}
use xdg_desktop_portal_certi.Core.Session.{
  Callback, leaves, closes, invalidates, cancel_session_closed, cancel_for, Request, Context,
  Session, xcc_ok, no_such_session, close_internal, invalidate_with, dispatch_invalidated,
  call_back, release_device_async, invalidate_internal, checked_reason, code_for, without_first,
  is_expired, grant,
}
use xdg_desktop_portal_certi.Core.Session.Create.{
  session_new_register, session_new, SessionSpec, fresh_session,
}
use xdg_desktop_portal_certi.Core.Session.Caller.{Principal, check_principal}
use xdg_desktop_portal_certi.Core.Session.Once.{
  IsOnce, closed, invalidated, checked, run_event, start, step, Run-IsOnce,
}
use xdg_desktop_portal_certi.Core.Session.Cancels.{
  IsEnded, close_internal-IsEnded, invalidate_internal-IsEnded,
}
use xdg_desktop_portal_certi.Core.Session.Principals.{
  IsAccepted, check_principal-IsAccepted, Run-identity_level,
}

-- A callback that invalidates the session again and then closes it.
abbrev a_callback : Callback
a_callback = invalidates (some (codes "error")) leaves (closes leaves)

abbrev waiting : Request
waiting = record {
  session = 7;
  answered = false;
  cancel_intent = none;
  cancelled_code = xcc_ok;
  cancelled = false;
}

abbrev others : Request
others = record waiting { session = 8 }

abbrev two_requests : Context
two_requests = record {
  requests = waiting ∷ others ∷ [];
  sessions = 8 ∷ 7 ∷ [];
  stopping = false;
  generation = 1;
}

abbrev a_spec : SessionSpec
a_spec = record {
  is_current = true;
  owner_generation = 1;
  app_id = some (codes "org.app");
  identity_present = false;
  identity_level = 0;
}

abbrev open_session : Session
open_session = record (fresh_session 7 (codes "org.app") a_spec) {
  context = some two_requests;
  has_callback = true;
  device_open = true;
}

abbrev a_caller : Principal
a_caller = record {
  is_current = true;
  owner_generation = 1;
  app_id = some (codes "org.app");
  identity_present = true;
  identity_level = 1;
}

-- A caller of another application gets XCC_ERROR_NO_SUCH_SESSION.
other_caller :
    (check_principal (record a_caller { app_id = some (codes "org.other") }) open_session).0
    ≡ no_such_session
unfolding check_principal bytes_eq
other_caller = refl

-- A grant for 60 seconds at second 5 has expired at second 65 and not at second 64.
expires_then : is_expired 65000000 (grant 5000000 3 signing true false 60 open_session) ≡ true
unfolding is_expired grant
expires_then = refl

not_yet : is_expired 64999999 (grant 5000000 3 signing true false 60 open_session) ≡ false
unfolding is_expired grant
not_yet = refl

-- An unknown reason goes to the adapter as "error".
unknown_reason : checked_reason (some (codes "bored")) ≡ codes "error"
unfolding checked_reason contains bytes_eq
unknown_reason = refl

-- A session of an older generation of its context is not registered.
stale_owner :
    session_new true 7 (some two_requests) (some (record a_spec { owner_generation = 0 }))
    ≡ (no_such_session, none)
unfolding session_new session_new_register
stale_owner = refl

-- A session without a context, whose callback is called directly.
abbrev direct_session : Session
direct_session = record open_session { context = none }

-- The callback is called once, though it invalidates the session again.
told_once :
    (invalidate_internal false a_callback (some (codes "token_removed")) direct_session).notices
    ≡ codes "token_removed" ∷ []
unfolding invalidate_with close_internal dispatch_invalidated call_back release_device_async
    checked_reason contains bytes_eq
told_once = refl

abbrev twice_ended : Session
twice_ended =
    run_event (closed false)
      (run_event (invalidated false a_callback (some (codes "token_removed"))) direct_session)

direct_session-IsOnce : IsOnce direct_session
direct_session-IsOnce = record { quiet = λ _. (refl, refl); told = inl refl }

Run-IsOnce_example : IsOnce twice_ended
Run-IsOnce_example = Run-IsOnce direct_session twice_ended direct_session-IsOnce (
    step (closed false)
      (run_event (invalidated false a_callback (some (codes "token_removed"))) direct_session)
      (step (invalidated false a_callback (some (codes "token_removed"))) direct_session start))

close_internal-IsEnded_example :
    (c' : Context) × ((close_internal false open_session).context ≡ some c')
    × All2 (IsEnded 7 no_such_session cancel_session_closed) (waiting ∷ others ∷ []) c'.requests
    × (c'.sessions ≡ without_first 7 (8 ∷ 7 ∷ []))
close_internal-IsEnded_example = close_internal-IsEnded false open_session two_requests refl refl

invalidate_internal-IsEnded_example :
    (c' : Context) × ((invalidate_internal false a_callback
        (some (codes "token_removed"))
        open_session).context
      ≡ some c')
    × ((invalidate_internal false a_callback (some (codes "token_removed")) open_session).notices
        ≡ checked_reason (some (codes "token_removed")) ∷ [])
    × ((invalidate_internal false a_callback (some (codes "token_removed")) open_session).closed
        ≡ true)
    × All2
        (IsEnded 7
          (code_for (checked_reason (some (codes "token_removed"))))
          (cancel_for (code_for (checked_reason (some (codes "token_removed"))))))
        (waiting ∷ others ∷ [])
        c'.requests
    × (c'.sessions ≡ without_first 7 (8 ∷ 7 ∷ []))
invalidate_internal-IsEnded_example =
    invalidate_internal-IsEnded false a_callback (some (codes "token_removed")) open_session
      two_requests refl refl refl

check_principal-IsAccepted_example :
    IsAccepted a_caller open_session (check_principal a_caller open_session).1
unfolding check_principal bytes_eq
check_principal-IsAccepted_example = check_principal-IsAccepted a_caller open_session refl

abbrev known_session : Session
known_session = record open_session { identity_seen = true; identity_level = 1 }

Run-identity_level_example :
    ((run_event (checked (record a_caller { identity_level = 0 })) known_session).identity_seen
      ≡ true)
    × (1
        ≤ (run_event
            (checked (record a_caller { identity_level = 0 }))
            known_session).identity_level)
Run-identity_level_example =
    Run-identity_level known_session
      (run_event (checked (record a_caller { identity_level = 0 })) known_session)
      (step (checked (record a_caller { identity_level = 0 })) known_session start) refl
