-- ===== src/Core/Pin/Steps.antt =====
-- The handlers of src/core/pin.c, and the steps of a run: each is one call of a handler by the main
-- loop, the UI, a worker that returns, or the caller.
use xdg_desktop_portal_certi.Base.{
  ℕ, suc, Bool, true, false, not, ◌&&◌, ◌||◌, [], ◌∷◌, ◌++◌, Option, none, some, ◌==◌, leb, ltb,
  if◌then◌else◌,
}
use xdg_desktop_portal_certi.Core.Secret.{Secret, set_length, secret_length}
use xdg_desktop_portal_certi.Core.Pin.{
  pin_ok, incorrect, locked, cancelled, device_error, token_removed, timed_out, Status,
  status_incorrect, status_required, status_too_long, status_memory_unavailable, Login, login_ok,
  login_cancelled, login_incorrect, login_locked, login_removed, login_failed, World, warned,
  context_ready, context_submit, context_warning, started_login, max_attempts, put, emit,
  pin_update, set_busy,
}
use xdg_desktop_portal_certi.Core.Pin.Queue.{answer, show, start}

-- The source of the login's timeout, unless it is disabled.
abbrev pub arm_timeout : World → ℕ → World
arm_timeout w i =
    if ltb 0 w.timeout_seconds then put w i (record (w.prompts i) { login_timeout = true }) else w

-- The end of `certificate_pin_prompt_submit`: the secret goes to a worker.
abbrev pub send : World → ℕ → World
send w i =
    let p = w.prompts i in
    let sent = record p { secret = none; attempts = suc p.attempts; login_in_flight = true } in
    emit (arm_timeout (set_busy (put w i sent) i true) i) (started_login i)

-- `certificate_pin_prompt_submit`.
unfoldable pub submit : World → ℕ → World
submit w i =
    let p = w.prompts i in
    let owned = emit (put w i (record p { secret = none })) (context_submit i) in
    let waiting = emit (put w i (record p { warning_pending = true })) (warned i) in
    if p.ui_context
    then (if p.finished || p.busy then w else owned)
    else if p.busy || (p.finished || p.login_in_flight)
    then w
    else if p.protected_path && ((w.tokens p.token).pin_final_try && not p.protected_path_confirmed)
    then (if not p.warning_pending then waiting else w)
    else if not p.protected_path && secret_length p.secret == 0
    then pin_update w i status_required
    else send w i

-- `certificate_pin_prompt_warning_reply`. `warning_id` of a context's prompt is left out.
unfoldable pub warning_reply : World → ℕ → Bool → World
warning_reply w i accepted =
    let p = w.prompts i in
    let w1 = put w i (record p { warning_pending = false }) in
    let w2 = put w i (record p { warning_pending = false; protected_path_confirmed = true }) in
    if p.ui_context
    then emit w (context_warning i accepted)
    else if not p.protected_path || (p.finished || (p.login_in_flight || not p.warning_pending))
    then w
    else if not accepted
    then answer w1 i cancelled
    else submit w2 i

-- A wrong PIN: the prompt ends, or its entry is cleared for another try.
abbrev pub refused : World → ℕ → World
refused w i =
    let p = w.prompts i in
    if (w.tokens p.token).pin_locked
    then answer w i locked
    else if p.protected_path || leb max_attempts p.attempts
    then answer w i incorrect
    else pin_update (put w i (record p { secret = none })) i status_incorrect

-- What follows the return of a login whose prompt is neither cancelled nor finished.
abbrev pub login_outcome : Login → World → ℕ → World
login_outcome login_ok w i = answer w i pin_ok
login_outcome login_cancelled w i = answer (set_busy w i false) i cancelled
login_outcome login_incorrect w i = refused (set_busy w i false) i
login_outcome login_locked w i = answer (set_busy w i false) i locked
login_outcome login_removed w i = answer (set_busy w i false) i token_removed
login_outcome login_failed w i = answer (set_busy w i false) i device_error

abbrev pub succeeded : Login → Bool
succeeded login_ok = true
succeeded _ = false

-- `on_login_done`.
unfoldable pub on_login_done : World → ℕ → Login → World
on_login_done w i result =
    let p = w.prompts i in
    let back = record p {
      login_in_flight = false;
      login_timeout = false;
      login_succeeded = p.login_succeeded || succeeded result;
    } in
    let w1 = put w i back in
    let w2 = put w i (record back { cancel_deferred = false }) in
    if p.cancel_deferred
    then answer w2 i p.deferred_outcome
    else if p.finished
    then w1
    else login_outcome result w1 i

-- `on_login_timeout`.
unfoldable pub on_login_timeout : World → ℕ → World
on_login_timeout w i =
    let p = w.prompts i in
    let w1 = put w i (record p { login_timeout = false }) in
    if not p.login_in_flight then w1 else answer w1 i timed_out

abbrev pub refusal : Option Secret → ℕ → Status
refusal none length = status_memory_unavailable
refusal (some s) length = if length == 0 then status_required else status_too_long

-- The secret with its length set, if both succeed.
abbrev pub sized : Option Secret → ℕ → Option Secret
sized none length = none
sized (some s) length = if (set_length s length).0 then some (set_length s length).1 else none

-- `certificate_pin_prompt_hold`: the result is left out, it tells whether the secret was kept.
unfoldable pub hold : World → ℕ → Option Secret → ℕ → World
hold w i secret length =
    let p = w.prompts i in
    let w1 = put w i (record p { secret = none }) in
    if p.finished || p.login_in_flight then w else elim (sized secret length) [
      | none ↦ pin_update w1 i (refusal secret length)
      | some s ↦ put w i (record p { secret = some s })
    ]

-- `certificate_pin_prompt_ready`.
unfoldable pub ready : World → ℕ → World
ready w i =
    let p = w.prompts i in
    if p.finished
    then w
    else if p.ui_context
    then emit w (context_ready i)
    else if p.protected_path
    then submit w i
    else w

-- `on_cancelled`, behind the change of the cancellable.
unfoldable pub on_cancelled : World → ℕ → World
on_cancelled w i = put w i (record (w.prompts i) { cancel_idle = true })

-- `on_cancelled_idle`.
unfoldable pub on_cancelled_idle : World → ℕ → World
on_cancelled_idle w i = answer (put w i (record (w.prompts i) { cancel_idle = false })) i cancelled

-- `on_refresh_done`.
unfoldable pub on_refresh_done : World → ℕ → World
on_refresh_done w i =
    let p = w.prompts i in
    let w1 = put w i (record p { refresh_in_flight = false }) in
    let w2 = put w i (record p { refresh_in_flight = false; cancel_deferred = false }) in
    if p.cancel_deferred
    then answer w2 i p.deferred_outcome
    else if p.is_cancelled
    then answer w1 i cancelled
    else if not p.finished
    then show w1 i
    else w1

-- `certificate_pin_login_full_kind` behind its test for a provider and a display: the prompt that it
-- has set up is `i`. A cancellable that is cancelled already calls `on_cancelled` as it is connected.
unfoldable pub login_full : World → ℕ → World
login_full w i =
    let w1 = if (w.prompts i).is_cancelled then on_cancelled w i else w in
    let queued = record w1 { queue = w1.queue ++ i ∷ [] } in
    elim w1.active [ none ↦ start w1 i | some j ↦ queued ]
