-- ===== src/Core/Pin/Limit.antt =====
-- The submission of a PIN and the return of its login keep the count of attempts bounded.
use xdg_desktop_portal_certi.Base.{
  ℕ, suc, ◌≤◌, ◌≡◌, refl, inl, inr, Bool, true, false, not, ◌&&◌, ◌||◌, Option, none, some, ◌==◌,
  ==_refl, leb, ltb, arith, Option-cases, if-cases,
}
use xdg_desktop_portal_certi.Core.Secret.{Secret, secret_length}
use xdg_desktop_portal_certi.Core.Pin.{
  Outcome, pin_ok, incorrect, locked, cancelled, device_error, token_removed, Login, login_ok,
  login_cancelled, login_incorrect, login_locked, login_removed, login_failed, Prompt, World,
  max_attempts, put, set_busy,
}
use xdg_desktop_portal_certi.Core.Pin.Queue.{answer, next_of}
use xdg_desktop_portal_certi.Core.Pin.Steps.{
  arm_timeout, send, submit, warning_reply, refused, login_outcome, succeeded, on_login_done, sized,
  hold, ready,
}
use xdg_desktop_portal_certi.Core.Pin.Runs.{IsShown}
use xdg_desktop_portal_certi.Core.Pin.Attempts.{
  Weak, Counted, IsBounded, Others, put-IsBounded, answer_with-IsBounded, start_head-IsBounded,
}

pub answer-IsBounded : (w : World) (i : ℕ) (o : Outcome) → IsBounded w → IsBounded (answer w i o)
answer-IsBounded w i o bounded =
    answer_with-IsBounded (next_of w) (start_head-IsBounded _) w i o (λ j _. bounded j)
      (bounded i).0 (inl (bounded i).1)

-- A change of one prompt that leaves its count and its flight as they were.
pub keep :
    (w : World) (i : ℕ) (p : Prompt)
    → IsBounded w
    → Weak w.active i p
    → Counted p
    → IsBounded (put w i p)
keep w i p bounded = put-IsBounded w i p (λ j _. bounded j)

arm-IsBounded : (w : World) (i : ℕ) → IsBounded w → IsBounded (arm_timeout w i)
arm-IsBounded w i bounded =
    if-cases IsBounded (ltb 0 w.timeout_seconds)
      (λ _.
        keep w i (record (w.prompts i) { login_timeout = true }) bounded (bounded i).0
          (bounded i).1)
      (λ _. bounded)

busy-IsBounded : (w : World) (i : ℕ) (b : Bool) → IsBounded w → IsBounded (set_busy w i b)
busy-IsBounded w i b bounded =
    keep w i (record (w.prompts i) { busy = b }) bounded (bounded i).0 (bounded i).1

send-IsBounded :
    (w : World) (i : ℕ)
    → IsBounded w
    → IsShown w i
    → (w.prompts i).ui_context ≡ false
    → (w.prompts i).finished ≡ false
    → (w.prompts i).login_in_flight ≡ false
    → IsBounded (send w i)
send-IsBounded w i bounded shown own unfinished free =
    let p = w.prompts i in
    let sent = record p { secret = none; attempts = suc p.attempts; login_in_flight = true } in
    let counted = (bounded i).1 in
    let few : suc p.attempts ≤ 3 = ground (arith, counted, unfinished, free) in
    arm-IsBounded (set_busy (put w i sent) i true) i (
      busy-IsBounded (put w i sent) i true
        (keep w i sent bounded (few, inr (shown.0, shown.1, own)) (ground arith)))

pub submit-IsBounded : (w : World) (i : ℕ) → IsBounded w → IsShown w i → IsBounded (submit w i)
unfolding submit
submit-IsBounded w i bounded shown =
    let p = w.prompts i in
    let weak = (bounded i).0 in
    let counted = (bounded i).1 in
    if-cases IsBounded p.ui_context
      (λ _.
        if-cases IsBounded (p.finished || p.busy) (λ _. bounded)
          (λ _. keep w i (record p { secret = none }) bounded weak counted))
      (λ own.
        if-cases IsBounded (p.busy || (p.finished || p.login_in_flight)) (λ _. bounded)
          (λ free.
            if-cases IsBounded
              (p.protected_path
                && ((w.tokens p.token).pin_final_try && not p.protected_path_confirmed))
              (λ _.
                if-cases IsBounded (not p.warning_pending)
                  (λ _. keep w i (record p { warning_pending = true }) bounded weak counted)
                  (λ _. bounded))
              (λ _.
                if-cases IsBounded (not p.protected_path && secret_length p.secret == 0)
                  (λ _. bounded)
                  (λ _. send-IsBounded w i bounded shown own (ground arith) (ground arith)))))

pub warning_reply-IsBounded :
    (w : World) (i : ℕ) (accepted : Bool)
    → IsBounded w
    → IsShown w i
    → IsBounded (warning_reply w i accepted)
unfolding warning_reply
warning_reply-IsBounded w i accepted bounded shown =
    let p = w.prompts i in
    let weak = (bounded i).0 in
    let counted = (bounded i).1 in
    let q = record p { warning_pending = false } in
    let q' = record p { warning_pending = false; protected_path_confirmed = true } in
    if-cases IsBounded p.ui_context (λ _. bounded)
      (λ _.
        if-cases IsBounded
          (not p.protected_path || (p.finished || (p.login_in_flight || not p.warning_pending)))
          (λ _. bounded)
          (λ _.
            if-cases IsBounded (not accepted)
              (λ _. answer-IsBounded (put w i q) i cancelled (keep w i q bounded weak counted))
              (λ _.
                submit-IsBounded (put w i q') i (keep w i q' bounded weak counted)
                  (shown.0, rw (==_refl i) shown.1))))

pub ready-IsBounded : (w : World) (i : ℕ) → IsBounded w → IsShown w i → IsBounded (ready w i)
unfolding ready
ready-IsBounded w i bounded shown =
    let p = w.prompts i in
    if-cases IsBounded p.finished (λ _. bounded)
      (λ _.
        if-cases IsBounded p.ui_context (λ _. bounded)
          (λ _.
            if-cases IsBounded p.protected_path (λ _. submit-IsBounded w i bounded shown)
              (λ _. bounded)))

pub hold-IsBounded :
    (w : World) (i : ℕ) (s : Option Secret) (n : ℕ) → IsBounded w → IsBounded (hold w i s n)
unfolding hold
hold-IsBounded w i s n bounded =
    let p = w.prompts i in
    let kept = λ (q : Option Secret).
      keep w i (record p { secret = q }) bounded (bounded i).0 (bounded i).1 in
    if-cases IsBounded (p.finished || p.login_in_flight) (λ _. bounded)
      (λ _. elim (Option-cases (sized s n)) [
        | inl e ↦ rw e (kept none)
        | inr (t, e) ↦ rw e (kept (some t))
      ])

-- A prompt whose login has just returned: it may have used its three attempts.
abbrev Landed : World → ℕ → Type 0
Landed w i =
    Others w i
    × Weak w.active i (w.prompts i)
    × ((w.prompts i).ui_context ≡ false)
    × ((w.prompts i).refresh_in_flight ≡ false)

put-Landed :
    (w : World) (i : ℕ) (q : Prompt)
    → Others w i
    → Weak w.active i q
    → q.ui_context ≡ false
    → q.refresh_in_flight ≡ false
    → Landed (put w i q) i
put-Landed w i q others weak own done =
    ((λ j e. rw e (others j e)), rw (==_refl i) weak, rw (==_refl i) own, rw (==_refl i) done)

busy-Landed : (w : World) (i : ℕ) (b : Bool) → Landed w i → Landed (set_busy w i b) i
busy-Landed w i b (others, weak, own, done) =
    put-Landed w i (record (w.prompts i) { busy = b }) others weak own done

answer-Landed : (w : World) (i : ℕ) (o : Outcome) → Landed w i → IsBounded (answer w i o)
answer-Landed w i o (others, weak, own, done) =
    answer_with-IsBounded (next_of w) (start_head-IsBounded _) w i o others weak (inr (own, done))

refused-Landed : (w : World) (i : ℕ) → Landed w i → IsBounded (refused w i)
refused-Landed w i landed =
    let p = w.prompts i in
    if-cases IsBounded (w.tokens p.token).pin_locked (λ _. answer-Landed w i locked landed)
      (λ _.
        if-cases IsBounded (p.protected_path || leb max_attempts p.attempts)
          (λ _. answer-Landed w i incorrect landed)
          (λ few. put-IsBounded w i (record p { secret = none }) landed.0 landed.1 (ground arith)))

outcome-Landed : (r : Login) (w : World) (i : ℕ) → Landed w i → IsBounded (login_outcome r w i)
outcome-Landed login_ok w i l = answer-Landed w i pin_ok l
outcome-Landed login_cancelled w i l =
    answer-Landed (set_busy w i false) i cancelled (busy-Landed w i false l)
outcome-Landed login_incorrect w i l =
    refused-Landed (set_busy w i false) i (busy-Landed w i false l)
outcome-Landed login_locked w i l =
    answer-Landed (set_busy w i false) i locked (busy-Landed w i false l)
outcome-Landed login_removed w i l =
    answer-Landed (set_busy w i false) i token_removed (busy-Landed w i false l)
outcome-Landed login_failed w i l =
    answer-Landed (set_busy w i false) i device_error (busy-Landed w i false l)

pub login_done-IsBounded :
    (w : World) (i : ℕ) (r : Login)
    → IsBounded w
    → (w.prompts i).login_in_flight ≡ true
    → IsBounded (on_login_done w i r)
unfolding on_login_done
login_done-IsBounded w i r bounded flies =
    let p = w.prompts i in
    let back = record p {
      login_in_flight = false;
      login_timeout = false;
      login_succeeded = p.login_succeeded || succeeded r;
    } in
    let back' = record back { cancel_deferred = false } in
    let few = (bounded i).0.0 in
    elim ((bounded i).0.1) [
      | inl e ↦ absurd (ground (arith, e, flies))
      | inr (turn, done, own) ↦
          if-cases IsBounded p.cancel_deferred
            (λ _.
              answer-Landed (put w i back') i p.deferred_outcome
                (put-Landed w i back' (λ j _. bounded j) (few, inl refl) own done))
            (λ _.
              if-cases IsBounded p.finished
                (λ over. keep w i back bounded (few, inl refl) (rw over refl))
                (λ _.
                  outcome-Landed r (put w i back) i
                    (put-Landed w i back (λ j _. bounded j) (few, inl refl) own done)))
    ]
