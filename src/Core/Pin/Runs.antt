-- ===== src/Core/Pin/Runs.antt =====
-- The runs of the prompts of src/core/pin.c: which call may come when. A worker returns only if it is in
-- flight, a source runs only while it is set, and a UI has only the prompt that is shown to call about.
use xdg_desktop_portal_certi.Base.{ℕ, ◌≡◌, Bool, true, false, Option, some, ◌==◌, if◌then◌else◌}
use xdg_desktop_portal_certi.Core.Secret.{Secret}
use xdg_desktop_portal_certi.Core.Pin.{Outcome, Login, Token, World, put}
use xdg_desktop_portal_certi.Core.Pin.Queue.{answer}
use xdg_desktop_portal_certi.Core.Pin.Steps.{
  submit, warning_reply, on_login_done, on_login_timeout, hold, ready, on_cancelled,
  on_cancelled_idle, on_refresh_done, login_full,
}

-- The prompt has its turn and its token has been refreshed.
abbrev pub IsShown : World → ℕ → Type 0
IsShown w i = (w.active ≡ some i) × ((w.prompts i).refresh_in_flight ≡ false)

-- The cancellable of a prompt is cancelled, by any thread.
abbrev pub cancel : World → ℕ → World
cancel w i =
    let w1 = put w i (record (w.prompts i) { is_cancelled = true }) in
    if (w.prompts i).connected then on_cancelled w1 i else w1

-- A worker writes the flags of a token.
abbrev pub write_token : World → ℕ → Token → World
write_token w t flags = record w { tokens = λ u. if u == t then flags else w.tokens u }

pub data Step (w : World) : World → Type 0 where
  logs_in : (i : ℕ) → Step w (login_full w i)
  refreshed : (i : ℕ) → (w.prompts i).refresh_in_flight ≡ true → Step w (on_refresh_done w i)
  held : (i : ℕ) (s : Option Secret) (n : ℕ) → IsShown w i → Step w (hold w i s n)
  submitted : (i : ℕ) → IsShown w i → Step w (submit w i)
  presented : (i : ℕ) → IsShown w i → Step w (ready w i)
  replied : (i : ℕ) (accepted : Bool) → IsShown w i → Step w (warning_reply w i accepted)
  answered : (i : ℕ) (outcome : Outcome) → IsShown w i → Step w (answer w i outcome)
  returned :
      (i : ℕ) (result : Login)
      → (w.prompts i).login_in_flight ≡ true
      → Step w (on_login_done w i result)
  late : (i : ℕ) → (w.prompts i).login_timeout ≡ true → Step w (on_login_timeout w i)
  cancels : (i : ℕ) → Step w (cancel w i)
  idle : (i : ℕ) → (w.prompts i).cancel_idle ≡ true → Step w (on_cancelled_idle w i)
  written : (t : ℕ) (flags : Token) → Step w (write_token w t flags)

pub data Run (w : World) : World → Type 0 where
  here : Run w w
  next : {u v : World} → Run w u → Step u v → Run w v
