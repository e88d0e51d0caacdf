-- ===== src/Core/Session/Principals.antt =====
-- Who may use a session, and what a session remembers of its caller's identity.
use xdg_desktop_portal_certi.Base.{
  suc, ◌≤◌, ◌≡◌, refl, ◌∙◌, Bool, true, false, Option, none, some, Bytes, codes, bytes_eq_iff,
  arith,
}
use xdg_desktop_portal_certi.Core.Session.{
  xcc_ok, Context, Session, grant, release_device_async, closing, end_session, close_internal,
  checked_reason, noted, dispatch_in, dispatch_invalidated, marked, invalidate_with, Callback,
  leaves, closes, invalidates, call_back, invalidate_internal, on_lifetime_expired,
}
use xdg_desktop_portal_certi.Core.Session.Caller.{Principal, same_app, check_in, check_principal}
use xdg_desktop_portal_certi.Core.Session.Once.{
  Event, granted, closed, invalidated, expired, checked, run_event, Run, start, step,
}

same_app-eq : (own : Bytes) (given : Option Bytes) → same_app own given ≡ true → given ≡ some own
same_app-eq own none h = absurd (ground (arith))
same_app-eq own (some given) h = ground (arith, (bytes_eq_iff own given).0 h)

-- What an accepted caller has shown: the session is open, of this generation of the context and of the
-- caller's, the application is the session's, and the identity that the caller states is no stronger than
-- one that was stated before, and is remembered.
pub record IsAccepted (p : Principal) (s s' : Session) : Type 0 where
  pub is_open : s.closed ≡ false
  pub in_context : (c : Context) × (s.context ≡ some c) × (s.owner_generation ≡ c.generation)
  pub same_owner : p.owner_generation ≡ s.owner_generation
  pub same_application : p.app_id ≡ some s.app_id
  pub no_stronger :
      p.identity_present ≡ true → s.identity_seen ≡ true → s.identity_level ≤ p.identity_level
  pub is_level : p.identity_present ≡ true → p.identity_level ≤ 2
  pub remembered :
      p.identity_present ≡ true → (s'.identity_seen ≡ true) × (s'.identity_level ≡ p.identity_level)
  pub kept : p.identity_present ≡ false → s' ≡ s

check_in-IsAccepted :
    (p : Principal) (s : Session) (o : Option Context)
    → s.context ≡ o
    → (check_in p s o).0 ≡ xcc_ok
    → IsAccepted p s (check_in p s o).1
check_in-IsAccepted p s none e h = absurd (ground (arith))
check_in-IsAccepted p s (some c) e h = record {
  is_open = ground (arith, h);
  in_context = (c, e, ground (arith, h));
  same_owner = ground (arith, h);
  same_application = same_app-eq s.app_id p.app_id (ground (arith, h));
  no_stronger = λ present seen. ground (arith, h, present, seen);
  is_level = λ present. ground (arith, h, present);
  remembered = λ present. ground (arith, h, present);
  kept = λ absent. ground (arith, h, absent);
}

-- A caller that is accepted has shown that it may use the session.
pub check_principal-IsAccepted :
    (p : Principal) (s : Session)
    → (check_principal p s).0 ≡ xcc_ok
    → IsAccepted p s (check_principal p s).1
unfolding check_principal
check_principal-IsAccepted p s h = check_in-IsAccepted p s s.context refl h

-- The identity that a session remembers stays.
record SameIdentity (s s' : Session) : Type 0 where
  same_seen : s'.identity_seen ≡ s.identity_seen
  same_level : s'.identity_level ≡ s.identity_level

same : (s : Session) → SameIdentity s s
same s = record { same_seen = refl; same_level = refl }

SameIdentity-trans : (a b c : Session) → SameIdentity a b → SameIdentity b c → SameIdentity a c
SameIdentity-trans a b c x y = record {
  same_seen = y.same_seen ∙ x.same_seen;
  same_level = y.same_level ∙ x.same_level;
}

release-SameIdentity :
    (locked : Bool) (s : Session) → SameIdentity s (release_device_async locked s)
unfolding release_device_async
release-SameIdentity locked s =
    let one_more : SameIdentity s (record s { releases = suc s.releases }) = record {
      same_seen = refl;
      same_level = refl;
    } in
    ground (arith, same s, one_more)

close-SameIdentity : (locked : Bool) (s : Session) → SameIdentity s (close_internal locked s)
unfolding close_internal
close-SameIdentity locked s =
    let r = release-SameIdentity locked (closing s) in
    let ended : SameIdentity s (end_session (release_device_async locked (closing s))) = record {
      same_seen = r.same_seen;
      same_level = r.same_level;
    } in
    ground (arith, same s, ended)

dispatch-SameIdentity :
    (direct : Session → Session)
    → ((s : Session) → SameIdentity s (direct s))
    → (reason : Bytes) (s : Session) (c : Option Context)
    → SameIdentity s (dispatch_in direct reason s c)
dispatch-SameIdentity direct keeps reason s (some c) = record {
  same_seen = refl;
  same_level = refl;
}
dispatch-SameIdentity direct keeps reason s none =
    let k = keeps (noted reason s) in
    let d : SameIdentity s (direct (noted reason s)) = record {
      same_seen = k.same_seen;
      same_level = k.same_level;
    } in
    ground (arith, same s, d)

invalidate_with-SameIdentity :
    (locked : Bool) (direct : Session → Session)
    → ((s : Session) → SameIdentity s (direct s))
    → (reason : Option Bytes) (s : Session)
    → SameIdentity s (invalidate_with locked direct reason s)
unfolding invalidate_with dispatch_invalidated
invalidate_with-SameIdentity locked direct keeps reason s =
    let word = checked_reason reason in
    let m = marked word s in
    let d = dispatch_in direct word m m.context in
    let x = dispatch-SameIdentity direct keeps word m m.context in
    let y = close-SameIdentity locked d in
    let ended : SameIdentity s (close_internal locked d) = record {
      same_seen = y.same_seen ∙ x.same_seen;
      same_level = y.same_level ∙ x.same_level;
    } in
    ground (arith, same s, ended)

call_back-SameIdentity :
    (locked : Bool) (callback : Callback) (s : Session)
    → SameIdentity s (call_back locked callback s)
unfolding call_back
call_back-SameIdentity locked leaves s = same s
call_back-SameIdentity locked (closes rest) s =
    let ended = close_internal locked s in
    let x = close-SameIdentity locked s in
    let y = call_back-SameIdentity locked rest ended in
    record { same_seen = y.same_seen ∙ x.same_seen; same_level = y.same_level ∙ x.same_level }
call_back-SameIdentity locked (invalidates reason inner rest) s =
    let direct = call_back locked inner in
    let ended = invalidate_with locked direct reason s in
    let x =
      invalidate_with-SameIdentity locked direct (call_back-SameIdentity locked inner) reason s in
    let y = call_back-SameIdentity locked rest ended in
    record { same_seen = y.same_seen ∙ x.same_seen; same_level = y.same_level ∙ x.same_level }

invalidate-SameIdentity :
    (locked : Bool) (callback : Callback) (reason : Option Bytes) (s : Session)
    → SameIdentity s (invalidate_internal locked callback reason s)
invalidate-SameIdentity locked callback reason s =
    invalidate_with-SameIdentity locked (call_back locked callback)
      (call_back-SameIdentity locked callback) reason s

-- A remembered identity is kept or weakened.
abbrev Weakens : Session → Session → Type 0
Weakens s s' =
    s.identity_seen ≡ true → (s'.identity_seen ≡ true) × (s.identity_level ≤ s'.identity_level)

SameIdentity-Weakens : (s s' : Session) → SameIdentity s s' → Weakens s s'
SameIdentity-Weakens s s' e seen = (e.same_seen ∙ seen, omega (arith, e.same_level))

check_in-Weakens : (p : Principal) (s : Session) (c : Option Context) → Weakens s (check_in p s c).1
check_in-Weakens p s none seen = (seen, omega arith)
check_in-Weakens p s (some c) seen = ground (arith, seen)

run_event-Weakens : (e : Event) (s : Session) → Weakens s (run_event e s)
unfolding run_event grant on_lifetime_expired check_principal
run_event-Weakens (granted a b c d e f) s seen = (seen, omega arith)
run_event-Weakens (closed locked) s seen =
    SameIdentity-Weakens s _ (close-SameIdentity locked s) seen
run_event-Weakens (invalidated locked callback reason) s seen =
    SameIdentity-Weakens s _ (invalidate-SameIdentity locked callback reason s) seen
run_event-Weakens (expired locked callback) s seen =
    let x =
      invalidate-SameIdentity locked callback (some (codes "expired"))
        (record s { has_expiry_source = false }) in
    let later =
      invalidate_internal locked callback (some (codes "expired"))
        (record s { has_expiry_source = false }) in
    SameIdentity-Weakens s later (record { same_seen = x.same_seen; same_level = x.same_level })
      seen
run_event-Weakens (checked p) s seen = check_in-Weakens p s s.context seen

-- However a session's calls follow on one another, an identity that was stated once is remembered, and a
-- later one never makes it stronger.
pub Run-identity_level :
    (s s' : Session)
    → Run s s'
    → s.identity_seen ≡ true
    → (s'.identity_seen ≡ true) × (s.identity_level ≤ s'.identity_level)
Run-identity_level s _ start seen = (seen, omega arith)
Run-identity_level s _ (step e m r) seen =
    let (seen', le) = Run-identity_level s m r seen in
    let (seen'', le') = run_event-Weakens e m seen' in (seen'', omega (arith, le, le'))
