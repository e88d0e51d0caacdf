-- ===== src/Core/Pin/Queue.antt =====
-- `certificate_pin_prompt_answer`, and `pin_prompt_start`, which an answer calls for the next prompt
-- of the queue. Either may call the other, once for each prompt that waits, so the depth of the queue
-- bounds the calls.
use xdg_desktop_portal_certi.Base.{
  ℕ, zero, suc, Bool, true, false, not, ◌&&◌, ◌||◌, List, [], ◌∷◌, Option, none, some, ◌==◌,
  if◌then◌else◌, length,
}
use xdg_desktop_portal_certi.Core.Pin.{
  Outcome, pin_ok, locked, cancelled, no_display, Prompt, World, Event, shown, hidden, closed,
  abandoned, context_cancel, context_device_error, context_no_display, done, put, emit,
}

abbrev pub is_ok : Outcome → Bool
is_ok pin_ok = true
is_ok _ = false

-- `g_queue_remove`: the first occurrence.
unfoldable pub queue_remove : ℕ → List ℕ → List ℕ
queue_remove i [] = []
queue_remove i (j ∷ js) = if j == i then js else j ∷ queue_remove i js

abbrev pub is_active : Option ℕ → ℕ → Bool
is_active none i = false
is_active (some j) i = j == i

-- The call of the context that owns the prompt.
abbrev pub context_event : Outcome → ℕ → Event
context_event cancelled i = context_cancel i
context_event no_display i = context_no_display i
context_event _ i = context_device_error i

-- The prompt that finishes: its sources are removed and its secret is wiped.
abbrev pub finish : Prompt → Prompt
finish p = record p {
  finished = true;
  connected = false;
  cancel_idle = false;
  login_timeout = false;
  secret = none;
}

-- A worker still has the prompt's data: the first outcome is kept for its return.
abbrev pub defer : World → ℕ → Outcome → World
defer w i outcome =
    let p = w.prompts i in
    let w1 = put w i (record p { cancel_deferred = true; deferred_outcome = outcome }) in
    if p.cancel_deferred then w else if not p.refresh_in_flight then emit w1 (hidden i) else w1

-- The next prompt's turn, or the prompt leaves the queue.
unfoldable pub release : (World → World) → World → ℕ → World
release next w i =
    if is_active w.active i
    then next (record w { active = none })
    else record w { queue = queue_remove i w.queue }

abbrev pub conclude : (World → World) → World → ℕ → Outcome → World
conclude next w i outcome =
    let p = w.prompts i in
    let w1 = emit (put w i (finish p)) (closed i) in
    let w2 = emit (release next w1 i) (done i outcome) in
    if p.login_succeeded && (not (is_ok outcome) && p.has_abandon)
    then emit w2 (abandoned i)
    else w2

-- `certificate_pin_prompt_answer`, where `next` starts the head of the queue.
unfoldable pub answer_with : (World → World) → World → ℕ → Outcome → World
answer_with next w i outcome =
    let p = w.prompts i in
    if p.ui_context
    then (if p.finished then w else emit w (context_event outcome i))
    else if p.finished
    then w
    else if p.refresh_in_flight || p.login_in_flight
    then defer w i outcome
    else conclude next w i outcome

-- `pin_prompt_show`.
unfoldable pub show_with : (World → World) → World → ℕ → World
show_with next w i =
    if (w.tokens (w.prompts i).token).pin_locked
    then answer_with next w i locked
    else emit w (shown i)

-- `pin_prompt_start`.
unfoldable pub start_with : (World → World) → World → ℕ → World
start_with next w i =
    let w1 = record w { active = some i } in
    let p = w.prompts i in
    if p.is_cancelled
    then answer_with next w1 i cancelled
    else if not p.has_refresh
    then show_with next w1 i
    else put w1 i (record p { refresh_in_flight = true })

-- Start the head of the queue, if there is one. The number bounds how many prompts that concludes.
unfoldable pub start_head : ℕ → World → World
start_head zero w = w
start_head (suc n) w = elim w.queue [
  | [] ↦ w
  | q ∷ qs ↦ start_with (start_head n) (record w { queue = qs }) q
]

abbrev pub next_of : World → World → World
next_of w = start_head (length w.queue)

abbrev pub answer : World → ℕ → Outcome → World
answer w = answer_with (next_of w) w

abbrev pub show : World → ℕ → World
show w = show_with (next_of w) w

abbrev pub start : World → ℕ → World
start w = start_with (next_of w) w
