-- ===== src/Core/Pin.antt =====
-- src/core/pin.c: the prompts for a PIN. A prompt is a number and its record stands in a store, as the
-- queue, the active prompt and the workers share it. Calls of the UI provider and of the caller's
-- callbacks are events; what they call back is a step of its own. Reference counts, log lines and the
-- texts of a view are left out.
pub mod Queue
pub mod Steps
pub mod Once
pub mod Runs
pub mod Done
pub mod Turns
pub mod Attempts
pub mod Limit
pub mod Tries
use xdg_desktop_portal_certi.Base.{ℕ, Bool, List, ◌∷◌, Option, none, some, ◌==◌, if◌then◌else◌}
use xdg_desktop_portal_certi.Core.Secret.{Secret}

-- `CertificatePinOutcome`, with the prefix `CERTIFICATE_PIN_` left off.
pub data Outcome : Type 0 where
  pin_ok incorrect locked cancelled device_error token_removed no_display timed_out : Outcome

-- `XccPinStatus`.
pub data Status : Type 0 where
  status_none status_incorrect status_required status_too_long status_memory_unavailable : Status

-- What the worker's `C_Login` returns: success, or a code of `CERTIFICATE_PKCS11_ERROR`.
pub data Login : Type 0 where
  login_ok login_cancelled login_incorrect login_locked login_removed login_failed : Login

-- The token's flags that a prompt reads. A refresh writes them.
pub record Token : Type 0 where
  pub pin_locked : Bool
  pub pin_final_try : Bool

-- `PinPrompt`. A source or a connection that is set is true.
pub record Prompt : Type 0 where
  pub ui_context : Bool
  pub token : ℕ
  pub has_refresh : Bool
  pub has_abandon : Bool
  pub is_cancelled : Bool
  pub connected : Bool
  pub protected_path : Bool
  pub finished : Bool
  pub busy : Bool
  pub refresh_in_flight : Bool
  pub login_in_flight : Bool
  pub cancel_deferred : Bool
  pub deferred_outcome : Outcome
  pub login_succeeded : Bool
  pub secret : Option Secret
  pub cancel_idle : Bool
  pub login_timeout : Bool
  pub attempts : ℕ
  pub protected_path_confirmed : Bool
  pub warning_pending : Bool

-- The calls that leave the code: those of the provider, of the owning context, and the caller's
-- `done` and `abandon`.
pub data Event : Type 0 where
  shown hidden closed warned abandoned context_cancel context_device_error : ℕ → Event
  context_no_display context_ready context_submit started_login : ℕ → Event
  context_warning : ℕ → Bool → Event
  updated : ℕ → Status → Event
  done : ℕ → Outcome → Event

-- The store, `pin_active`, `pin_queue`, `pin_login_timeout_seconds`, and the events, the latest first.
pub record World : Type 0 where
  pub prompts : ℕ → Prompt
  pub tokens : ℕ → Token
  pub active : Option ℕ
  pub queue : List ℕ
  pub timeout_seconds : ℕ
  pub events : List Event

abbrev pub max_attempts : ℕ
max_attempts = 3

abbrev pub put : World → ℕ → Prompt → World
put w i p = record w { prompts = λ j. if j == i then p else w.prompts j }

abbrev pub emit : World → Event → World
emit w e = record w { events = e ∷ w.events }

-- `pin_update`.
abbrev pub pin_update : World → ℕ → Status → World
pin_update w i s = emit w (updated i s)

-- `set_busy`.
abbrev pub set_busy : World → ℕ → Bool → World
set_busy w i b = pin_update (put w i (record (w.prompts i) { busy = b })) i status_none
