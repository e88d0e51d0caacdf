-- ===== src/Core/Session/Once.antt =====
-- src/core/session.c: what a session tells its adapter of its end, over sequences of its calls.
use xdg_desktop_portal_certi.Base.{
  ℕ, suc, ◌≡◌, ◌⊎◌, inl, inr, refl, sym, ◌∙◌, ap, Bool, true, false, ◌||◌, [], ◌∷◌, Option, none,
  some, Bytes, bytes_eq, codes, contains, Bool-cases, if-cases, arith, subst,
}
use xdg_desktop_portal_certi.Tokens.Filter.{Purpose}
use xdg_desktop_portal_certi.Core.Session.{
  Context, Session, grant, release_device_async, closing, close_internal, session_reasons,
  checked_reason, noted, dispatch_in, dispatch_invalidated, marked, invalidate_with, Callback,
  leaves, closes, invalidates, call_back, invalidate_internal, on_lifetime_expired,
}
use xdg_desktop_portal_certi.Core.Session.Caller.{
  Principal, check_identity, check_in, check_principal,
}

-- What happens to a session on its coordinator.
pub data Event : Type 0 where
  granted : ℕ → ℕ → Purpose → Bool → Bool → ℕ → Event
  closed : Bool → Event
  invalidated : Bool → Callback → Option Bytes → Event
  expired : Bool → Callback → Event
  checked : Principal → Event

unfoldable pub run_event : Event → Session → Session
run_event (granted monotonic chosen purpose sign decrypt lifetime) s =
    grant monotonic chosen purpose sign decrypt lifetime s
run_event (closed locked) s = close_internal locked s
run_event (invalidated locked callback reason) s = invalidate_internal locked callback reason s
run_event (expired locked callback) s = on_lifetime_expired locked callback s
run_event (checked p) s = (check_principal p s).1

pub data Run (s : Session) : Session → Type 0 where
  start : Run s s
  step : (e : Event) (m : Session) → Run s m → Run s (run_event e m)

-- An open session has told nothing, and a session has told nothing or one reason of the vocabulary.
pub record IsOnce (s : Session) : Type 0 where
  pub quiet : s.closed ≡ false → (s.invalidating ≡ false) × (s.notices ≡ [])
  pub told :
      (s.notices ≡ []) ⊎ ((r : Bytes) × (s.notices ≡ r ∷ []) × (contains session_reasons r ≡ true))

-- The part of a session that is told at its end.
record SameEnd (s s' : Session) : Type 0 where
  same_closed : s'.closed ≡ s.closed
  same_invalidating : s'.invalidating ≡ s.invalidating
  same_notices : s'.notices ≡ s.notices

SameEnd-IsOnce : (s s' : Session) → SameEnd s s' → IsOnce s → IsOnce s'
SameEnd-IsOnce s s' e once = record {
  quiet = λ h.
      let (i, n) = once.quiet (sym e.same_closed ∙ h) in
      (e.same_invalidating ∙ i, e.same_notices ∙ n);
  told = elim once.told [
    | inl n ↦ inl (e.same_notices ∙ n)
    | inr (r, n, v) ↦ inr (r, e.same_notices ∙ n, v)
  ];
}

release-SameEnd : (locked : Bool) (s : Session) → SameEnd s (release_device_async locked s)
unfolding release_device_async
release-SameEnd locked s =
    let same : SameEnd s s = record {
      same_closed = refl;
      same_invalidating = refl;
      same_notices = refl;
    } in
    let one_more : SameEnd s (record s { releases = suc s.releases }) = record {
      same_closed = refl;
      same_invalidating = refl;
      same_notices = refl;
    } in
    ground (arith, same, one_more)

pub close_internal-closed : (locked : Bool) (s : Session) → (close_internal locked s).closed ≡ true
unfolding close_internal
close_internal-closed locked s = ground (arith, (release-SameEnd locked (closing s)).same_closed)

pub close_internal-notices :
    (locked : Bool) (s : Session) → (close_internal locked s).notices ≡ s.notices
unfolding close_internal
close_internal-notices locked s = ground (arith, (release-SameEnd locked (closing s)).same_notices)

close_internal-IsOnce : (locked : Bool) (s : Session) → IsOnce s → IsOnce (close_internal locked s)
close_internal-IsOnce locked s once = record {
  quiet = λ h. absurd (ground (arith, h, close_internal-closed locked s));
  told = elim once.told [
    | inl n ↦ inl (close_internal-notices locked s ∙ n)
    | inr (r, n, v) ↦ inr (r, close_internal-notices locked s ∙ n, v)
  ];
}

error_is_reason : contains session_reasons (codes "error") ≡ true
unfolding contains bytes_eq
error_is_reason = refl

checked_reason-session_reasons :
    (reason : Option Bytes) → contains session_reasons (checked_reason reason) ≡ true
unfolding checked_reason
checked_reason-session_reasons none = error_is_reason
checked_reason-session_reasons (some reason) =
    if-cases (λ word. contains session_reasons word ≡ true) (contains session_reasons reason)
      (λ e. e) (λ _. error_is_reason)

-- While a session is being invalidated, nothing that a callback does adds a notice.
record IsMuted (s s' : Session) : Type 0 where
  still : s'.invalidating ≡ true
  same_notices : s'.notices ≡ s.notices

close_internal-invalidating :
    (locked : Bool) (s : Session) → (close_internal locked s).invalidating ≡ s.invalidating
unfolding close_internal
close_internal-invalidating locked s =
    ground (arith, (release-SameEnd locked (closing s)).same_invalidating)

call_back-IsMuted :
    (locked : Bool) (callback : Callback) (s : Session)
    → s.invalidating ≡ true
    → IsMuted s (call_back locked callback s)
unfolding call_back invalidate_with
call_back-IsMuted locked leaves s busy = record { still = busy; same_notices = refl }
call_back-IsMuted locked (closes rest) s busy =
    let ended = close_internal locked s in
    let m = call_back-IsMuted locked rest ended (close_internal-invalidating locked s ∙ busy) in
    record { still = m.still; same_notices = m.same_notices ∙ close_internal-notices locked s }
call_back-IsMuted locked (invalidates reason inner rest) s busy =
    let refused : invalidate_with locked (call_back locked inner) reason s ≡ s =
      ground (arith, busy) in
    subst (λ t. IsMuted s (call_back locked rest t)) (sym refused)
      (call_back-IsMuted locked rest s busy)

-- The notices after a dispatch: one more, or the same where a session without context has no callback.
dispatch-notices :
    (locked : Bool) (callback : Callback) (reason : Bytes) (s : Session) (c : Option Context)
    → s.invalidating ≡ true
    → ((dispatch_in (call_back locked callback) reason s c).notices ≡ s.notices)
      ⊎ ((dispatch_in (call_back locked callback) reason s c).notices ≡ reason ∷ s.notices)
dispatch-notices locked callback reason s (some c) busy = inr refl
dispatch-notices locked callback reason s none busy =
    ground (arith, (call_back-IsMuted locked callback (noted reason s) busy).same_notices)

invalidate_internal-IsOnce :
    (locked : Bool) (callback : Callback) (reason : Option Bytes) (s : Session)
    → IsOnce s
    → IsOnce (invalidate_internal locked callback reason s)
unfolding invalidate_with dispatch_invalidated
invalidate_internal-IsOnce locked callback reason s once =
    elim (Bool-cases (s.closed || s.invalidating)) [
      | inl e ↦ ground (arith, e, once)
      | inr e ↦
          let word = checked_reason reason in
          let m = marked word s in
          let d = dispatch_in (call_back locked callback) word m m.context in
          let none_before : s.notices ≡ [] = (once.quiet (ground (arith, e))).1 in
          let ended : IsOnce (close_internal locked d) = record {
            quiet = λ h. absurd (ground (arith, h, close_internal-closed locked d));
            told = elim (dispatch-notices locked callback word m m.context refl) [
              | inl n ↦ inl (close_internal-notices locked d ∙ n ∙ none_before)
              | inr n ↦ inr (
                word,
                close_internal-notices locked d ∙ n ∙ ap (λ ns. word ∷ ns) none_before,
                checked_reason-session_reasons reason,
              )
            ];
          } in
          ground (arith, e, ended)
    ]

check_identity-SameEnd : (p : Principal) (s : Session) → SameEnd s (check_identity p s).1
check_identity-SameEnd p s =
    let same : SameEnd s s = record {
      same_closed = refl;
      same_invalidating = refl;
      same_notices = refl;
    } in
    let seen : SameEnd s (record s { identity_level = p.identity_level; identity_seen = true }) =
      record { same_closed = refl; same_invalidating = refl; same_notices = refl } in
    ground (arith, same, seen)

check_in-SameEnd : (p : Principal) (s : Session) (c : Option Context) → SameEnd s (check_in p s c).1
check_in-SameEnd p s none = record {
  same_closed = refl;
  same_invalidating = refl;
  same_notices = refl;
}
check_in-SameEnd p s (some c) =
    let same : SameEnd s s = record {
      same_closed = refl;
      same_invalidating = refl;
      same_notices = refl;
    } in
    ground (arith, same, check_identity-SameEnd p s)

run_event-IsOnce : (e : Event) (s : Session) → IsOnce s → IsOnce (run_event e s)
unfolding run_event grant on_lifetime_expired check_principal
run_event-IsOnce (granted _ _ _ _ _ _) s once = record { quiet = once.quiet; told = once.told }
run_event-IsOnce (closed locked) s once = close_internal-IsOnce locked s once
run_event-IsOnce (invalidated locked callback reason) s once =
    invalidate_internal-IsOnce locked callback reason s once
run_event-IsOnce (expired locked callback) s once =
    invalidate_internal-IsOnce locked callback _ _ (record { quiet = once.quiet; told = once.told })
run_event-IsOnce (checked p) s once = SameEnd-IsOnce s _ (check_in-SameEnd p s s.context) once

-- However grants, closing, invalidation, expiry and checks of a caller follow on one another, and whatever
-- a callback closes or invalidates before it returns, if an open session has told its adapter nothing,
-- and any session nothing or one reason of the wire's vocabulary, then that holds after them as well: the
-- adapter hears of a session's end at most once.
pub Run-IsOnce : (s s' : Session) → IsOnce s → Run s s' → IsOnce s'
Run-IsOnce s _ once start = once
Run-IsOnce s _ once (step e m r) = run_event-IsOnce e m (Run-IsOnce s m once r)
