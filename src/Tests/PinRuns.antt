-- ===== src/Tests/PinRuns.antt =====
-- Runs of the PIN prompts.
use xdg_desktop_portal_certi.Base.{
  ◌≤◌, ◌⊎◌, ◌≡◌, refl, true, false, [], ◌∷◌, none, some, if◌then◌else◌, arith, length,
}
use xdg_desktop_portal_certi.Core.Pin.{cancelled, pin_ok, Prompt, World, shown, closed, done}
use xdg_desktop_portal_certi.Core.Pin.Queue.{
  answer, answer_with, release, start_head, start_with, show_with,
}
use xdg_desktop_portal_certi.Core.Pin.Steps.{login_full}
use xdg_desktop_portal_certi.Core.Pin.Runs.{here, next, logs_in, answered}
use xdg_desktop_portal_certi.Core.Pin.Once.{times}
use xdg_desktop_portal_certi.Core.Pin.Done.{Run-done_once}
use xdg_desktop_portal_certi.Core.Pin.Tries.{Run-attempts_le}
use xdg_desktop_portal_certi.Core.Pin.Turns.{start_head-agree}

abbrev prompt : Prompt
prompt = record {
  ui_context = false;
  token = 0;
  has_refresh = false;
  has_abandon = true;
  is_cancelled = false;
  connected = true;
  protected_path = false;
  finished = false;
  busy = false;
  refresh_in_flight = false;
  login_in_flight = false;
  cancel_deferred = false;
  deferred_outcome = pin_ok;
  login_succeeded = false;
  secret = none;
  cancel_idle = false;
  login_timeout = false;
  attempts = 0;
  protected_path_confirmed = false;
  warning_pending = false;
}

abbrev idle_world : World
idle_world = record {
  prompts = λ j. prompt;
  tokens = λ t. record { pin_locked = false; pin_final_try = false };
  active = none;
  queue = [];
  timeout_seconds = 60;
  events = [];
}

-- Two prompts: the first one is shown, the second one waits.
abbrev two_prompts : World
two_prompts = login_full (login_full idle_world 0) 1

shown_first : two_prompts.active ≡ some 0
unfolding login_full start_with show_with
shown_first = refl

waiting_second : two_prompts.queue ≡ 1 ∷ []
unfolding login_full start_with show_with
waiting_second = refl

-- The second prompt is shown before the first one's caller gets its answer.
cancelled_first :
    (answer two_prompts 0 cancelled).events ≡ done 0 cancelled ∷ shown 1 ∷ closed 0 ∷ shown 0 ∷ []
unfolding login_full start_with show_with start_head answer_with release
cancelled_first = refl

refreshed_first : (two_prompts.prompts 0).refresh_in_flight ≡ false
unfolding login_full start_with show_with
refreshed_first = refl

none_yet : times 0 [] ≡ 0
unfolding times
none_yet = refl

one_waits : length two_prompts.queue ≤ 1
unfolding login_full start_with show_with
one_waits = omega arith

at_most_five : length two_prompts.queue ≤ 5
unfolding login_full start_with show_with
at_most_five = omega arith

Run-done_once_example :
    times 0 (answer two_prompts 0 cancelled).events
    ≡ (if ((answer two_prompts 0 cancelled).prompts 0).finished then 1 else 0)
Run-done_once_example =
    Run-done_once idle_world (answer two_prompts 0 cancelled)
      (next (next (next here (logs_in 0)) (logs_in 1))
        (answered 0 cancelled (shown_first, refreshed_first)))
      0 refl none_yet

start_head-agree_example : start_head 1 two_prompts ≡ start_head 5 two_prompts
start_head-agree_example = start_head-agree 1 5 two_prompts one_waits at_most_five

Run-attempts_le_example :
    (((answer two_prompts 0 cancelled).prompts 1).attempts ≤ 3)
    × ((((answer two_prompts 0 cancelled).prompts 1).login_in_flight ≡ false)
        ⊎ (((answer two_prompts 0 cancelled).active ≡ some 1)
            × (((answer two_prompts 0 cancelled).prompts 1).refresh_in_flight ≡ false)))
Run-attempts_le_example =
    Run-attempts_le idle_world (answer two_prompts 0 cancelled) (λ j. (refl, refl))
      (next (next (next here (logs_in 0)) (logs_in 1))
        (answered 0 cancelled (shown_first, refreshed_first)))
      1
