-- ===== src/Core/Pin/Tries.antt =====
-- A prompt starts at most three logins, and only the active prompt has one in flight.
use xdg_desktop_portal_certi.Base.{
  ℕ, ◌≤◌, ◌≡◌, refl, ◌⊎◌, inl, inr, true, false, not, [], ◌∷◌, ◌++◌, Option, none, some, arith,
  if-cases,
}
use xdg_desktop_portal_certi.Core.Pin.{cancelled, timed_out, World, put}
use xdg_desktop_portal_certi.Core.Pin.Queue.{next_of, start}
use xdg_desktop_portal_certi.Core.Pin.Steps.{
  on_login_timeout, on_cancelled, on_cancelled_idle, on_refresh_done, login_full,
}
use xdg_desktop_portal_certi.Core.Pin.Runs.{
  Step, Run, logs_in, refreshed, held, submitted, presented, replied, answered, returned, late,
  cancels, idle, written, here, next, cancel,
}
use xdg_desktop_portal_certi.Core.Pin.Attempts.{
  IsBounded, show_with-IsBounded, start_with-IsBounded, start_head-IsBounded, no_login,
}
use xdg_desktop_portal_certi.Core.Pin.Limit.{
  answer-IsBounded, keep, submit-IsBounded, warning_reply-IsBounded, ready-IsBounded,
  hold-IsBounded, login_done-IsBounded,
}

timeout-IsBounded : (w : World) (i : ℕ) → IsBounded w → IsBounded (on_login_timeout w i)
unfolding on_login_timeout
timeout-IsBounded w i bounded =
    let q = record (w.prompts i) { login_timeout = false } in
    let kept = keep w i q bounded (bounded i).0 (bounded i).1 in
    if-cases IsBounded (not (w.prompts i).login_in_flight) (λ _. kept)
      (λ _. answer-IsBounded (put w i q) i timed_out kept)

cancelled-IsBounded : (w : World) (i : ℕ) → IsBounded w → IsBounded (on_cancelled w i)
unfolding on_cancelled
cancelled-IsBounded w i bounded =
    keep w i (record (w.prompts i) { cancel_idle = true }) bounded (bounded i).0 (bounded i).1

idle-IsBounded : (w : World) (i : ℕ) → IsBounded w → IsBounded (on_cancelled_idle w i)
unfolding on_cancelled_idle
idle-IsBounded w i bounded =
    let q = record (w.prompts i) { cancel_idle = false } in
    answer-IsBounded (put w i q) i cancelled (keep w i q bounded (bounded i).0 (bounded i).1)

cancel-IsBounded : (w : World) (i : ℕ) → IsBounded w → IsBounded (cancel w i)
cancel-IsBounded w i bounded =
    let q = record (w.prompts i) { is_cancelled = true } in
    let kept = keep w i q bounded (bounded i).0 (bounded i).1 in
    if-cases IsBounded (w.prompts i).connected (λ _. cancelled-IsBounded (put w i q) i kept)
      (λ _. kept)

refresh_done-IsBounded :
    (w : World) (i : ℕ)
    → IsBounded w
    → (w.prompts i).refresh_in_flight ≡ true
    → IsBounded (on_refresh_done w i)
unfolding on_refresh_done
refresh_done-IsBounded w i bounded flies =
    let p = w.prompts i in
    let q = record p { refresh_in_flight = false } in
    let q' = record q { cancel_deferred = false } in
    let few = (bounded i).0.0 in
    let counted = (bounded i).1 in
    elim ((bounded i).0.1) [
      | inr (turn, done, own) ↦ absurd (ground (arith, done, flies))
      | inl free ↦
          let kept = keep w i q bounded (few, inl free) counted in
          if-cases IsBounded p.cancel_deferred
            (λ _.
              answer-IsBounded (put w i q') i p.deferred_outcome
                (keep w i q' bounded (few, inl free) counted))
            (λ _.
              if-cases IsBounded p.is_cancelled (λ _. answer-IsBounded (put w i q) i cancelled kept)
                (λ _.
                  if-cases IsBounded (not p.finished)
                    (λ _.
                      show_with-IsBounded (next_of (put w i q)) (start_head-IsBounded _) (put w i q)
                        i kept)
                    (λ _. kept)))
    ]

queued-IsBounded :
    (w : World) (i : ℕ) (o : Option ℕ)
    → w.active ≡ o
    → IsBounded w
    → IsBounded (elim o [ none ↦ start w i | some k ↦ record w { queue = w.queue ++ i ∷ [] } ])
queued-IsBounded w i none turn bounded =
    start_with-IsBounded (next_of w) (start_head-IsBounded _) w i bounded (no_login w bounded turn)
queued-IsBounded w i (some k) turn bounded = bounded

login_full-IsBounded : (w : World) (i : ℕ) → IsBounded w → IsBounded (login_full w i)
unfolding login_full
login_full-IsBounded w i bounded = queued-IsBounded _ i _ refl (
    if-cases IsBounded (w.prompts i).is_cancelled (λ _. cancelled-IsBounded w i bounded)
      (λ _. bounded))

Step-IsBounded : {w v : World} → Step w v → IsBounded w → IsBounded v
Step-IsBounded {w} (logs_in i) b = login_full-IsBounded w i b
Step-IsBounded {w} (refreshed i h) b = refresh_done-IsBounded w i b h
Step-IsBounded {w} (held i s n h) b = hold-IsBounded w i s n b
Step-IsBounded {w} (submitted i h) b = submit-IsBounded w i b h
Step-IsBounded {w} (presented i h) b = ready-IsBounded w i b h
Step-IsBounded {w} (replied i a h) b = warning_reply-IsBounded w i a b h
Step-IsBounded {w} (answered i o h) b = answer-IsBounded w i o b
Step-IsBounded {w} (returned i r h) b = login_done-IsBounded w i r b h
Step-IsBounded {w} (late i h) b = timeout-IsBounded w i b
Step-IsBounded {w} (cancels i) b = cancel-IsBounded w i b
Step-IsBounded {w} (idle i h) b = idle-IsBounded w i b
Step-IsBounded {w} (written t f) b = b

Run-IsBounded : {w v : World} → Run w v → IsBounded w → IsBounded v
Run-IsBounded here b = b
Run-IsBounded (next r s) b = Step-IsBounded s (Run-IsBounded r b)

-- In every run from prompts that have not tried a login, no prompt ever has more than three attempts,
-- and a login is in flight only for the active prompt, behind the refresh of its token: two prompts
-- never log in at once, and a wrong PIN is never tried without end.
pub Run-attempts_le :
    (w v : World)
    → ((j : ℕ) → ((w.prompts j).attempts ≡ 0) × ((w.prompts j).login_in_flight ≡ false))
    → Run w v
    → (i : ℕ)
    → ((v.prompts i).attempts ≤ 3)
      × (((v.prompts i).login_in_flight ≡ false)
          ⊎ ((v.active ≡ some i) × ((v.prompts i).refresh_in_flight ≡ false)))
Run-attempts_le w v untried run i =
    let bounded : IsBounded w =
      λ j. ((ground (arith, untried j), inl (untried j).1), ground (arith, untried j)) in
    let (few, flight) = (Run-IsBounded run bounded i).0 in
    (few, elim flight [ inl e ↦ inl e | inr (turn, done, own) ↦ inr (turn, done) ])
