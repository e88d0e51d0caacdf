-- ===== src/Core/Session/Cancels.antt =====
-- A session that ends cancels its requests and no others.
use xdg_desktop_portal_certi.Base.{
  ℕ, ◌≡◌, ◌≢◌, inl, inr, refl, ap, ◌∙◌, Bool, true, false, List, [], ◌∷◌, Option, none, some, Bytes,
  ◌==◌, All2, map, Bool-cases, arith,
}
use xdg_desktop_portal_certi.Core.Session.Once.{close_internal-closed, close_internal-notices}
use xdg_desktop_portal_certi.Core.Session.{
  Callback, call_back, ErrorCode, xcc_ok, no_such_session, invalid_request, device, token_removed,
  backend_gone, other_code, CancelReason, cancel_session_closed, Request, Context, Session,
  release_device_async, first_intent, first_code, close_request, closing, close_requests, leave,
  without_first, close_internal, checked_reason, code_for, cancel_for, invalidate_request,
  invalidate_requests, noted, marked, dispatch_in, dispatch_invalidated, invalidate_with,
  invalidate_internal,
}

-- The first reason to cancel a request stays.
pub data IsFirst (reason : CancelReason) : Option CancelReason → Option CancelReason → Type 0 where
  was_none : IsFirst reason none (some reason)
  had_one : (earlier : CancelReason) → IsFirst reason (some earlier) (some earlier)

-- The first error of a request stays.
pub data IsFirstError (code : ErrorCode) : ErrorCode → ErrorCode → Type 0 where
  was_ok : IsFirstError code xcc_ok code
  had_error : (earlier : ErrorCode) → earlier ≢ xcc_ok → IsFirstError code earlier earlier

-- What the end of a session with a number, with a code and a reason, makes of a request: nothing where
-- it is another session's; the reason as its cancel intent, unless it has an earlier one, where it is
-- answered; and else it is cancelled as well, with the code unless it has an earlier one.
pub data IsEnded (number : ℕ) (code : ErrorCode) (reason : CancelReason) (r r' : Request)
    : Type 0 where
  of_another : (r.session == number) ≡ false → r' ≡ r → IsEnded number code reason r r'
  was_answered :
      (intent : Option CancelReason)
      → (r.session == number) ≡ true
      → r.answered ≡ true
      → IsFirst reason r.cancel_intent intent
      → r' ≡ record r { cancel_intent = intent }
      → IsEnded number code reason r r'
  is_cancelled :
      (intent : Option CancelReason) (error : ErrorCode)
      → (r.session == number) ≡ true
      → r.answered ≡ false
      → IsFirst reason r.cancel_intent intent
      → IsFirstError code r.cancelled_code error
      → r' ≡ record r { cancel_intent = intent; cancelled_code = error; cancelled = true }
      → IsEnded number code reason r r'

first_intent-IsFirst :
    (o : Option CancelReason) (reason : CancelReason) → IsFirst reason o (first_intent o reason)
first_intent-IsFirst none reason = was_none
first_intent-IsFirst (some earlier) reason = had_one earlier

first_code-IsFirstError : (old code : ErrorCode) → IsFirstError code old (first_code old code)
first_code-IsFirstError xcc_ok code = was_ok
first_code-IsFirstError no_such_session code = had_error no_such_session (λ h. ground (arith, h))
first_code-IsFirstError invalid_request code = had_error invalid_request (λ h. ground (arith, h))
first_code-IsFirstError device code = had_error device (λ h. ground (arith, h))
first_code-IsFirstError token_removed code = had_error token_removed (λ h. ground (arith, h))
first_code-IsFirstError backend_gone code = had_error backend_gone (λ h. ground (arith, h))
first_code-IsFirstError (other_code n) code = had_error (other_code n) (λ h. ground (arith, h))

first_intent-stays :
    (o : Option CancelReason) (reason later : CancelReason)
    → first_intent (first_intent o reason) later ≡ first_intent o reason
first_intent-stays none reason later = refl
first_intent-stays (some earlier) reason later = refl

close_request-IsEnded :
    (number : ℕ) (r : Request)
    → IsEnded number no_such_session cancel_session_closed r (close_request number r)
unfolding close_request
close_request-IsEnded number r =
    let first = first_intent-IsFirst r.cancel_intent cancel_session_closed in
    let error = first_code-IsFirstError r.cancelled_code no_such_session in
    elim (Bool-cases (r.session == number)) [
      | inr n ↦ of_another n (ground (arith, n))
      | inl y ↦ elim (Bool-cases r.answered) [
        | inl a ↦ was_answered _ y a first (ground (arith, y, a))
        | inr a ↦ is_cancelled _ _ y a first error (ground (arith, y, a))
      ]
    ]

code_for-error : (reason : Bytes) → code_for reason ≢ xcc_ok
code_for-error reason h = ground (arith, h)

first_code-stays :
    (old code later : ErrorCode)
    → code ≢ xcc_ok
    → first_code (first_code old code) later ≡ first_code old code
first_code-stays old code later n = ground (arith, n)

both_rounds :
    (number : ℕ) (code : ErrorCode) (r : Request)
    → code ≢ xcc_ok
    → IsEnded number code
        (cancel_for code)
        r
        (close_request number (invalidate_request number code r))
unfolding close_request invalidate_request
both_rounds number code r n =
    let first = first_intent-IsFirst r.cancel_intent (cancel_for code) in
    let error = first_code-IsFirstError r.cancelled_code code in
    let kept = first_code-stays r.cancelled_code code no_such_session n in
    let same = first_intent-stays r.cancel_intent (cancel_for code) cancel_session_closed in
    elim (Bool-cases (r.session == number)) [
      | inr other ↦ of_another other (ground (arith, other))
      | inl y ↦ elim (Bool-cases r.answered) [
        | inl a ↦ was_answered _ y a first (ground (arith, y, a, same))
        | inr a ↦ is_cancelled _ _ y a first error (ground (arith, y, a, same, kept))
      ]
    ]

all-IsEnded :
    (number : ℕ) (code : ErrorCode) (rs : List Request)
    → code ≢ xcc_ok
    → All2
        (IsEnded number code (cancel_for code))
        rs
        (map (close_request number) (map (invalidate_request number code) rs))
all-IsEnded number code [] n = tt
all-IsEnded number code (r ∷ rs) n = (both_rounds number code r n, all-IsEnded number code rs n)

all_closed :
    (number : ℕ) (rs : List Request)
    → All2 (IsEnded number no_such_session cancel_session_closed) rs (map (close_request number) rs)
all_closed number [] = tt
all_closed number (r ∷ rs) = (close_request-IsEnded number r, all_closed number rs)

release-context :
    (locked : Bool) (s : Session) → (release_device_async locked s).context ≡ s.context
unfolding release_device_async
release-context locked s = ground (arith)

release-number : (locked : Bool) (s : Session) → (release_device_async locked s).number ≡ s.number
unfolding release_device_async
release-number locked s = ground (arith)

close_internal-context :
    (locked : Bool) (s : Session)
    → s.closed ≡ false
    → (close_internal locked s).context ≡ leave s.number (close_requests s.number s.context)
unfolding close_internal
close_internal-context locked s open_yet =
    let r = release_device_async locked (closing s) in
    let same : leave r.number r.context ≡ leave s.number (close_requests s.number s.context) =
      rw (release-number locked (closing s), release-context locked (closing s)) refl in
    ground (arith, open_yet, same)

-- A session that is closed while it is open leaves its context's list and ends its requests: each of
-- them has its first cancel intent, which is XCC_CANCEL_SESSION_CLOSED if it had none, and one that is
-- not answered is cancelled, with its first error, which is XCC_ERROR_NO_SUCH_SESSION if it had none.
-- Other sessions' requests stay as they are.
pub close_internal-IsEnded :
    (locked : Bool) (s : Session) (c : Context)
    → s.closed ≡ false
    → s.context ≡ some c
    → (c' : Context) × ((close_internal locked s).context ≡ some c')
      × All2 (IsEnded s.number no_such_session cancel_session_closed) c.requests c'.requests
      × (c'.sessions ≡ without_first s.number c.sessions)
close_internal-IsEnded locked s c open_yet has = (
  record c {
    requests = map (close_request s.number) c.requests;
    sessions = without_first s.number c.sessions;
  },
  close_internal-context locked s open_yet
      ∙ ap (λ x. leave s.number (close_requests s.number x)) has,
  all_closed s.number c.requests,
  refl,
)

-- A session that is invalidated while it is open does the same with the code of the reason, which is
-- XCC_ERROR_TOKEN_REMOVED, XCC_ERROR_BACKEND_GONE or XCC_ERROR_DEVICE, and the reason goes to the adapter
-- first.
pub invalidate_internal-IsEnded :
    (locked : Bool) (callback : Callback) (reason : Option Bytes) (s : Session) (c : Context)
    → s.closed ≡ false
    → s.invalidating ≡ false
    → s.context ≡ some c
    → (c' : Context) × ((invalidate_internal locked callback reason s).context ≡ some c')
      × ((invalidate_internal locked callback reason s).notices ≡ checked_reason reason ∷ s.notices)
      × ((invalidate_internal locked callback reason s).closed ≡ true)
      × All2
          (IsEnded s.number
            (code_for (checked_reason reason))
            (cancel_for (code_for (checked_reason reason))))
          c.requests
          c'.requests
      × (c'.sessions ≡ without_first s.number c.sessions)
unfolding invalidate_with dispatch_invalidated
invalidate_internal-IsEnded locked callback reason s c open_yet fresh has =
    let word = checked_reason reason in
    let code = code_for word in
    let m = marked word s in
    let d = noted word m in
    let asked : m.context
        ≡ some (record c { requests = map (invalidate_request s.number code) c.requests }) =
      ap (invalidate_requests s.number code) has in
    let sent : dispatch_in (call_back locked callback) word m m.context ≡ d =
      ap (dispatch_in (call_back locked callback) word m) asked in
    let run : invalidate_internal locked callback reason s ≡ close_internal locked d =
      ground (arith, open_yet, fresh, ap (close_internal locked) sent) in
    (
      record c {
        requests = map (close_request s.number) (map (invalidate_request s.number code) c.requests);
        sessions = without_first s.number c.sessions;
      },
      ap (λ x. x.context) run
          ∙ close_internal-context locked d open_yet
          ∙ ap (λ x. leave s.number (close_requests s.number x)) asked,
      ap (λ x. x.notices) run ∙ close_internal-notices locked d,
      ap (λ x. x.closed) run ∙ close_internal-closed locked d,
      all-IsEnded s.number code c.requests (code_for-error word),
      refl,
    )
