-- ===== src/Broker/Device/Authenticated.antt =====
-- When an operation of a device gives bytes: authentication comes first where the key asks for it.
use xdg_desktop_portal_certi.Base.{
  ◌≡◌, ◌≢◌, refl, Bool, true, false, ◌∷◌, Option, none, some, Bytes, arith,
}
use xdg_desktop_portal_certi.Broker.Mechanism.{Mechanism, mechanism_to_ck}
use xdg_desktop_portal_certi.Broker.Device.{
  CardRv, ckr_ok, ckr_user_already_logged_in, other_rv, read_always_authenticate, init, ask_length,
  run, Card, Device, Answer, done, fails, note, is_set, perform_run, Authenticate, after_ask,
  with_init, device_perform,
}

-- What an operation that gives bytes has done from the state where the token was asked to begin it: the
-- token began it; where the key needs authentication each time, the caller's authentication passed; and
-- the last two calls ask for the length and the bytes, on the session of the state behind that.
pub record IsPerformed (card : Card) (decrypt : Bool) (payload : Bytes) (begun : Device)
    (always : Bool) (authenticate : Option Authenticate) (d' : Device) : Type 0 where
  pub began : card.init_of begun.calls ≡ ckr_ok
  pub passed :
      always ≡ true → (f : Authenticate) × (authenticate ≡ some f) × ((f begun).0 ≡ done tt)
  pub made :
      (m : Device) × (d'.calls
        ≡ run decrypt m.session payload ∷ ask_length decrypt m.session payload ∷ m.calls)
      × (always ≡ false → m ≡ begun)
      × (always ≡ true → (f : Authenticate) × (authenticate ≡ some f) × (m ≡ (f begun).1))

perform_run-made :
    (card : Card) (decrypt : Bool) (payload : Bytes) (d : Device) (out : Bytes)
    → (perform_run card decrypt payload d).0 ≡ done out
    → (perform_run card decrypt payload d).1.calls
      ≡ run decrypt d.session payload ∷ ask_length decrypt d.session payload ∷ d.calls
perform_run-made card decrypt payload d out h = ground (arith, h)

after_ask-passed :
    (card : Card) (decrypt : Bool) (payload : Bytes) (r : Answer (Unit {0}) × Device) (out : Bytes)
    → (after_ask card decrypt payload r).0 ≡ done out
    → (r.0 ≡ done tt)
      × ((after_ask card decrypt payload r).1.calls
          ≡ run decrypt r.1.session payload ∷ ask_length decrypt r.1.session payload ∷ r.1.calls)
after_ask-passed card decrypt payload (done tt, d) out h =
    (refl, perform_run-made card decrypt payload d out h)
after_ask-passed card decrypt payload (fails e, d) out h = absurd (ground (arith, h))

with_init-IsPerformed :
    (card : Card) (decrypt : Bool) (payload : Bytes) (o : Option Authenticate) (always : Bool)
    (begun : Device) (rv : CardRv) (out : Bytes)
    → card.init_of begun.calls ≡ rv
    → (with_init card decrypt payload o always begun rv).0 ≡ done out
    → IsPerformed card decrypt payload begun always o
        (with_init card decrypt payload o always begun rv).1
with_init-IsPerformed card decrypt payload (some f) true begun ckr_ok out e h =
    let (passed, made) = after_ask-passed card decrypt payload (f begun) out h in
    record {
      began = e;
      passed = λ _. (f, refl, passed);
      made = ((f begun).1, made, (λ n. absurd (ground (arith, n))), λ _. (f, refl, refl));
    }
with_init-IsPerformed card decrypt payload none true begun ckr_ok out e h =
    absurd (ground (arith, h))
with_init-IsPerformed card decrypt payload o false begun ckr_ok out e h = record {
  began = e;
  passed = λ n. absurd (ground (arith, n));
  made = (
    begun,
    perform_run-made card decrypt payload begun out h,
    (λ _. refl),
    λ n. absurd (ground (arith, n)),
  );
}
with_init-IsPerformed card decrypt payload o always begun ckr_user_already_logged_in out e h =
    absurd (ground (arith, h))
with_init-IsPerformed card decrypt payload o always begun (other_rv n) out e h =
    absurd (ground (arith, h))

-- The state in which the token is asked whether the key needs authentication each time.
abbrev pub asked_always : Device → Device
asked_always d = note (read_always_authenticate d.session d.private_key) d

-- The state in which the token begins an operation with the device's key.
abbrev pub begun_with : Bool → Mechanism → Device → Device
begun_with decrypt mechanism d =
    note (init decrypt d.session d.private_key (mechanism_to_ck mechanism)) (asked_always d)

-- An operation that gives bytes had a module and a key, began with that key, and did what an operation
-- has to do: no bytes come from a key that needs authentication each time unless the caller's
-- authentication has passed after the beginning.
pub device_perform-IsPerformed :
    (card : Card) (decrypt : Bool) (mechanism : Mechanism) (payload : Bytes)
    (authenticate : Option Authenticate) (d : Device) (out : Bytes)
    → (device_perform card decrypt mechanism payload authenticate d).0 ≡ done out
    → (is_set d.token_module ≡ true)
      × (d.private_key ≢ 0)
      × IsPerformed card decrypt payload
          (begun_with decrypt mechanism d)
          (card.always_of (asked_always d).calls)
          authenticate
          (device_perform card decrypt mechanism payload authenticate d).1
unfolding device_perform
device_perform-IsPerformed card decrypt mechanism payload authenticate d out h =
    let read = asked_always d in
    let begun = begun_with decrypt mechanism d in
    let on : is_set d.token_module ≡ true = ground (arith, h) in
    let key : d.private_key ≢ 0 = λ z. absurd (ground (arith, h, z)) in
    let rest : (with_init card decrypt payload authenticate (card.always_of read.calls) begun
          (card.init_of begun.calls)).0
        ≡ done out =
      ground (arith, h, on, key) in
    let performed =
      with_init-IsPerformed card decrypt payload authenticate (card.always_of read.calls) begun
        (card.init_of begun.calls) out refl rest in
    (on, key, ground (arith, on, key, performed))
