-- ===== src/Core/Pin/Done.antt =====
-- Each prompt's `done` is called once, and when the prompt finishes.
use xdg_desktop_portal_certi.Base.{
  ℕ, suc, ◌≡◌, refl, ◌∙◌, inl, inr, Bool, true, false, not, ◌&&◌, ◌||◌, [], ◌∷◌, ◌++◌, Option, none,
  some, ◌==◌, leb, ltb, if◌then◌else◌, arith, Option-cases,
}
use xdg_desktop_portal_certi.Core.Secret.{Secret, secret_length}
use xdg_desktop_portal_certi.Core.Pin.{
  Outcome, pin_ok, incorrect, locked, cancelled, device_error, token_removed, timed_out, Login,
  login_ok, login_cancelled, login_incorrect, login_locked, login_removed, login_failed, World,
  max_attempts, put, set_busy,
}
use xdg_desktop_portal_certi.Core.Pin.Queue.{answer, next_of, show, start}
use xdg_desktop_portal_certi.Core.Pin.Steps.{
  arm_timeout, send, submit, warning_reply, refused, login_outcome, succeeded, on_login_done,
  on_login_timeout, sized, hold, ready, on_cancelled, on_cancelled_idle, on_refresh_done,
  login_full,
}
use xdg_desktop_portal_certi.Core.Pin.Runs.{
  Step, Run, logs_in, refreshed, held, submitted, presented, replied, answered, returned, late,
  cancels, idle, written, here, next, cancel,
}
use xdg_desktop_portal_certi.Core.Pin.Once.{
  times, credit, if-credit, credit-put, answer_with-credit, show_with-credit, start_with-credit,
  start_head-credit,
}

answer-credit : (w : World) (i : ℕ) (o : Outcome) (j : ℕ) → credit (answer w i o) j ≡ credit w j
answer-credit w = answer_with-credit (next_of w) (start_head-credit _) w

show-credit : (w : World) (i j : ℕ) → credit (show w i) j ≡ credit w j
show-credit w = show_with-credit (next_of w) (start_head-credit _) w

start-credit : (w : World) (i j : ℕ) → credit (start w i) j ≡ credit w j
start-credit w = start_with-credit (next_of w) (start_head-credit _) w

busy-credit : (w : World) (i : ℕ) (b : Bool) (j : ℕ) → credit (set_busy w i b) j ≡ credit w j
unfolding credit times
busy-credit w i b j = credit-put w i (record (w.prompts i) { busy = b }) refl j

arm-credit : (w : World) (i j : ℕ) → credit (arm_timeout w i) j ≡ credit w j
arm-credit w i j =
    if-credit w j (ltb 0 w.timeout_seconds) _ _
      (λ _. credit-put w i (record (w.prompts i) { login_timeout = true }) refl j) (λ _. refl)

send-credit : (w : World) (i j : ℕ) → credit (send w i) j ≡ credit w j
unfolding credit times
send-credit w i j =
    let p = w.prompts i in
    let sent = record p { secret = none; attempts = suc p.attempts; login_in_flight = true } in
    arm-credit (set_busy (put w i sent) i true) i j
    ∙ busy-credit (put w i sent) i true j
    ∙ credit-put w i sent refl j

submit-credit : (w : World) (i j : ℕ) → credit (submit w i) j ≡ credit w j
unfolding submit credit times
submit-credit w i j =
    let p = w.prompts i in
    if-credit w j p.ui_context _ _
      (λ _.
        if-credit w j (p.finished || p.busy) _ _ (λ _. refl)
          (λ _. credit-put w i (record p { secret = none }) refl j))
      (λ _.
        if-credit w j (p.busy || (p.finished || p.login_in_flight)) _ _ (λ _. refl)
          (λ _.
            if-credit w j
              (p.protected_path
                && ((w.tokens p.token).pin_final_try && not p.protected_path_confirmed))
              _ _
              (λ _.
                if-credit w j (not p.warning_pending) _ _
                  (λ _. credit-put w i (record p { warning_pending = true }) refl j) (λ _. refl))
              (λ _.
                if-credit w j (not p.protected_path && secret_length p.secret == 0) _ _ (λ _. refl)
                  (λ _. send-credit w i j))))

warning_reply-credit :
    (w : World) (i : ℕ) (a : Bool) (j : ℕ) → credit (warning_reply w i a) j ≡ credit w j
unfolding warning_reply credit times
warning_reply-credit w i a j =
    let p = w.prompts i in
    if-credit w j p.ui_context _ _ (λ _. refl)
      (λ _.
        if-credit w j
          (not p.protected_path || (p.finished || (p.login_in_flight || not p.warning_pending))) _ _
          (λ _. refl)
          (λ _.
            if-credit w j (not a) _ _
              (λ _.
                answer-credit _ i cancelled j
                ∙ credit-put w i (record p { warning_pending = false }) refl j)
              (λ _.
                submit-credit _ i j
                ∙ credit-put w i
                    (record p { warning_pending = false; protected_path_confirmed = true }) refl
                    j)))

refused-credit : (w : World) (i j : ℕ) → credit (refused w i) j ≡ credit w j
unfolding credit times
refused-credit w i j =
    let p = w.prompts i in
    if-credit w j (w.tokens p.token).pin_locked _ _ (λ _. answer-credit w i locked j)
      (λ _.
        if-credit w j (p.protected_path || leb max_attempts p.attempts) _ _
          (λ _. answer-credit w i incorrect j)
          (λ _. credit-put w i (record p { secret = none }) refl j))

outcome-credit : (r : Login) (w : World) (i j : ℕ) → credit (login_outcome r w i) j ≡ credit w j
outcome-credit login_ok w i j = answer-credit w i pin_ok j
outcome-credit login_cancelled w i j = answer-credit _ i cancelled j ∙ busy-credit w i false j
outcome-credit login_incorrect w i j = refused-credit _ i j ∙ busy-credit w i false j
outcome-credit login_locked w i j = answer-credit _ i locked j ∙ busy-credit w i false j
outcome-credit login_removed w i j = answer-credit _ i token_removed j ∙ busy-credit w i false j
outcome-credit login_failed w i j = answer-credit _ i device_error j ∙ busy-credit w i false j

login_done-credit :
    (w : World) (i : ℕ) (r : Login) (j : ℕ) → credit (on_login_done w i r) j ≡ credit w j
unfolding on_login_done
login_done-credit w i r j =
    let p = w.prompts i in
    let back = record p {
      login_in_flight = false;
      login_timeout = false;
      login_succeeded = p.login_succeeded || succeeded r;
    } in
    let kept = credit-put w i back refl j in
    if-credit w j p.cancel_deferred _ _
      (λ _.
        answer-credit _ i p.deferred_outcome j
        ∙ credit-put w i (record back { cancel_deferred = false }) refl j)
      (λ _. if-credit w j p.finished _ _ (λ _. kept) (λ _. outcome-credit r _ i j ∙ kept))

timeout-credit : (w : World) (i j : ℕ) → credit (on_login_timeout w i) j ≡ credit w j
unfolding on_login_timeout
timeout-credit w i j =
    let kept = credit-put w i (record (w.prompts i) { login_timeout = false }) refl j in
    if-credit w j (not (w.prompts i).login_in_flight) _ _ (λ _. kept)
      (λ _. answer-credit _ i timed_out j ∙ kept)

hold-credit :
    (w : World) (i : ℕ) (s : Option Secret) (n j : ℕ) → credit (hold w i s n) j ≡ credit w j
unfolding hold credit times
hold-credit w i s n j =
    let p = w.prompts i in
    if-credit w j (p.finished || p.login_in_flight) _ _ (λ _. refl)
      (λ _. elim (Option-cases (sized s n)) [
        | inl e ↦ rw e (credit-put w i (record p { secret = none }) refl j)
        | inr (t, e) ↦ rw e (credit-put w i (record p { secret = some t }) refl j)
      ])

ready-credit : (w : World) (i j : ℕ) → credit (ready w i) j ≡ credit w j
unfolding ready credit times
ready-credit w i j =
    let p = w.prompts i in
    if-credit w j p.finished _ _ (λ _. refl)
      (λ _.
        if-credit w j p.ui_context _ _ (λ _. refl)
          (λ _. if-credit w j p.protected_path _ _ (λ _. submit-credit w i j) (λ _. refl)))

cancelled-credit : (w : World) (i j : ℕ) → credit (on_cancelled w i) j ≡ credit w j
unfolding on_cancelled
cancelled-credit w i j = credit-put w i (record (w.prompts i) { cancel_idle = true }) refl j

idle-credit : (w : World) (i j : ℕ) → credit (on_cancelled_idle w i) j ≡ credit w j
unfolding on_cancelled_idle
idle-credit w i j =
    answer-credit _ i cancelled j
    ∙ credit-put w i (record (w.prompts i) { cancel_idle = false }) refl j

refresh_done-credit : (w : World) (i j : ℕ) → credit (on_refresh_done w i) j ≡ credit w j
unfolding on_refresh_done
refresh_done-credit w i j =
    let p = w.prompts i in
    let kept = credit-put w i (record p { refresh_in_flight = false }) refl j in
    if-credit w j p.cancel_deferred _ _
      (λ _.
        answer-credit _ i p.deferred_outcome j
        ∙ credit-put w i (record p { refresh_in_flight = false; cancel_deferred = false }) refl j)
      (λ _.
        if-credit w j p.is_cancelled _ _ (λ _. answer-credit _ i cancelled j ∙ kept)
          (λ _. if-credit w j (not p.finished) _ _ (λ _. show-credit _ i j ∙ kept) (λ _. kept)))

queued-credit :
    (w : World) (i j : ℕ) (o : Option ℕ)
    → credit (elim o [ none ↦ start w i | some k ↦ record w { queue = w.queue ++ i ∷ [] } ]) j
      ≡ credit w j
unfolding credit
queued-credit w i j none = start-credit w i j
queued-credit w i j (some k) = refl

login_full-credit : (w : World) (i j : ℕ) → credit (login_full w i) j ≡ credit w j
unfolding login_full
login_full-credit w i j =
    queued-credit _ i j _
    ∙ if-credit w j (w.prompts i).is_cancelled _ _ (λ _. cancelled-credit w i j) (λ _. refl)

cancel-credit : (w : World) (i j : ℕ) → credit (cancel w i) j ≡ credit w j
cancel-credit w i j =
    let kept = credit-put w i (record (w.prompts i) { is_cancelled = true }) refl j in
    if-credit w j (w.prompts i).connected _ _ (λ _. cancelled-credit _ i j ∙ kept) (λ _. kept)

Step-credit : {w v : World} → Step w v → (j : ℕ) → credit v j ≡ credit w j
Step-credit {w} (logs_in i) j = login_full-credit w i j
Step-credit {w} (refreshed i h) j = refresh_done-credit w i j
Step-credit {w} (held i s n h) j = hold-credit w i s n j
Step-credit {w} (submitted i h) j = submit-credit w i j
Step-credit {w} (presented i h) j = ready-credit w i j
Step-credit {w} (replied i a h) j = warning_reply-credit w i a j
Step-credit {w} (answered i o h) j = answer-credit w i o j
Step-credit {w} (returned i r h) j = login_done-credit w i r j
Step-credit {w} (late i h) j = timeout-credit w i j
Step-credit {w} (cancels i) j = cancel-credit w i j
Step-credit {w} (idle i h) j = idle-credit w i j
Step-credit {w} (written t f) j = unfold credit in refl

Run-credit : {w v : World} → Run w v → (j : ℕ) → credit v j ≡ credit w j
Run-credit here j = refl
Run-credit (next r s) j = Step-credit s j ∙ Run-credit r j

-- However the calls interleave, a prompt that was set up unanswered has had its `done` called exactly
-- once if it is finished and not at all before: cancellation, a timeout, a late worker and the turns
-- of the queue never answer a caller twice and never finish a prompt without an answer.
pub Run-done_once :
    (w v : World)
    → Run w v
    → (i : ℕ) → (w.prompts i).finished ≡ false
    → times i w.events ≡ 0
    → times i v.events ≡ (if (v.prompts i).finished then 1 else 0)
unfolding credit
Run-done_once w v run i fresh none_yet = let kept = Run-credit run i in ground (arith, kept)
