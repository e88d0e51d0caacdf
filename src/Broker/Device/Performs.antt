-- ===== src/Broker/Device/Performs.antt =====
-- src/broker/device.c: sequences of the calls of a device, and the key that they leave it with.
use xdg_desktop_portal_certi.Base.{
  ◌≡◌, refl, sym, Bool, true, false, Option, none, some, Bytes, arith, subst,
}
use xdg_desktop_portal_certi.Broker.Mechanism.{Mechanism, mechanism_to_ck}
use xdg_desktop_portal_certi.Broker.Device.{
  Candidate, CardRv, ckr_ok, ckr_user_already_logged_in, other_rv, read_always_authenticate, init,
  ask_length, run, Card, Device, Answer, done, fails, note, refresh_login, device_close,
  device_open, device_login, device_login_context, with_output, with_length, perform_run,
  Authenticate, after_ask, ask, with_init, device_perform,
}
use xdg_desktop_portal_certi.Broker.Device.Keys.{
  HasKey, device_open-HasKey, device_login-HasKey, device_login_context-HasKey, device_close-HasKey,
  refresh_login-HasKey, noted-HasKey,
}

with_output-same : (d : Device) (a : CardRv × Bytes) → (with_output d a).1 ≡ d
with_output-same d (ckr_ok, b) = refl
with_output-same d (ckr_user_already_logged_in, b) = refl
with_output-same d (other_rv n, b) = refl

with_length-HasKey :
    (card : Card) (decrypt : Bool) (payload : Bytes) (d : Device) (rv : CardRv)
    → HasKey card d
    → HasKey card (with_length card decrypt payload d rv).1
with_length-HasKey card decrypt payload d ckr_ok has =
    let asked = note (run decrypt d.session payload) d in
    subst (HasKey card) (sym (with_output-same asked (card.output_of asked.calls)))
      (noted-HasKey card (run decrypt d.session payload) d has)
with_length-HasKey card decrypt payload d ckr_user_already_logged_in has = has
with_length-HasKey card decrypt payload d (other_rv n) has = has

perform_run-HasKey :
    (card : Card) (decrypt : Bool) (payload : Bytes) (d : Device)
    → HasKey card d
    → HasKey card (perform_run card decrypt payload d).1
perform_run-HasKey card decrypt payload d has =
    let asked = note (ask_length decrypt d.session payload) d in
    let noted = noted-HasKey card (ask_length decrypt d.session payload) d has in
    let measured =
      with_length-HasKey card decrypt payload asked (card.length_of asked.calls) noted in
    ground (arith, has, measured)

after_ask-HasKey :
    (card : Card) (decrypt : Bool) (payload : Bytes) (r : Answer (Unit {0}) × Device)
    → HasKey card r.1
    → HasKey card (after_ask card decrypt payload r).1
after_ask-HasKey card decrypt payload (done _, d) has =
    perform_run-HasKey card decrypt payload d has
after_ask-HasKey card decrypt payload (fails e, d) has = device_close-HasKey card d has

-- The authentication that a caller gives: none, or one that logs in for the operation with a PIN or on
-- the token's protected path.
abbrev pub authentication : Card → Option (Option Bytes) → Option Authenticate
authentication card none = none
authentication card (some pin) = some (device_login_context card pin)

ask-HasKey :
    (card : Card) (decrypt : Bool) (payload : Bytes) (way : Option (Option Bytes)) (d : Device)
    → HasKey card d
    → HasKey card (ask card decrypt payload (authentication card way) d).1
ask-HasKey card decrypt payload none d has = device_close-HasKey card d has
ask-HasKey card decrypt payload (some pin) d has =
    after_ask-HasKey card decrypt payload (device_login_context card pin d)
      (device_login_context-HasKey card pin d has)

with_init-HasKey :
    (card : Card) (decrypt : Bool) (payload : Bytes) (way : Option (Option Bytes)) (always : Bool)
    (d : Device) (rv : CardRv)
    → HasKey card d
    → HasKey card (with_init card decrypt payload (authentication card way) always d rv).1
with_init-HasKey card decrypt payload way true d ckr_ok has =
    ask-HasKey card decrypt payload way d has
with_init-HasKey card decrypt payload way false d ckr_ok has =
    perform_run-HasKey card decrypt payload d has
with_init-HasKey card decrypt payload way always d ckr_user_already_logged_in has = has
with_init-HasKey card decrypt payload way always d (other_rv n) has = has

device_perform-HasKey :
    (card : Card) (decrypt : Bool) (mechanism : Mechanism) (payload : Bytes)
    (way : Option (Option Bytes)) (d : Device)
    → HasKey card d
    → HasKey card (device_perform card decrypt mechanism payload (authentication card way) d).1
unfolding device_perform
device_perform-HasKey card decrypt mechanism payload way d has =
    let asking = read_always_authenticate d.session d.private_key in
    let read = note asking d in
    let beginning = init decrypt d.session d.private_key (mechanism_to_ck mechanism) in
    let begun = note beginning read in
    let rest =
      with_init-HasKey card decrypt payload way (card.always_of read.calls) begun
        (card.init_of begun.calls)
        (noted-HasKey card beginning read (noted-HasKey card asking d has)) in
    ground (arith, has, rest)

-- A call on a device. A login is for the device's candidate.
pub data Step (card : Card) (d : Device) : Device → Type 0 where
  opened : (c : Candidate) → Step card d (device_open card c d).1
  refreshed : Step card d (refresh_login card d).1
  logged_in :
      (c : Candidate) (pin : Option Bytes)
      → d.candidate ≡ some c
      → Step card d (device_login card c pin d).1
  performed :
      (decrypt : Bool) (mechanism : Mechanism) (payload : Bytes) (way : Option (Option Bytes))
      → Step card d (device_perform card decrypt mechanism payload (authentication card way) d).1
  closed : Step card d (device_close d)

pub data Run (card : Card) (d : Device) : Device → Type 0 where
  start : Run card d d
  next : (m e : Device) → Run card d m → Step card m e → Run card d e

Step-HasKey : (card : Card) (d e : Device) → Step card d e → HasKey card d → HasKey card e
Step-HasKey card d _ (opened c) has = device_open-HasKey card c d has
Step-HasKey card d _ refreshed has = refresh_login-HasKey card d has
Step-HasKey card d _ (logged_in c pin e) has = device_login-HasKey card c pin d e has
Step-HasKey card d _ (performed decrypt mechanism payload way) has =
    device_perform-HasKey card decrypt mechanism payload way d has
Step-HasKey card d _ closed has = device_close-HasKey card d has

-- If the key of a device is none or the first that the token named, in the device's session, for the
-- CKA_ID of the device's candidate, and none without a module, then that holds after every sequence of
-- opens, refreshes, logins for the device's candidate, operations and closes.
pub Run-HasKey : (card : Card) (d e : Device) → HasKey card d → Run card d e → HasKey card e
Run-HasKey card d _ has start = has
Run-HasKey card d _ has (next m e r s) = Step-HasKey card m e s (Run-HasKey card d m has r)
