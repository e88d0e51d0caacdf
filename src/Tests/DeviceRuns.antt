-- ===== src/Tests/DeviceRuns.antt =====
-- A device of the broker at concrete inputs, with a token that always answers the same.
use xdg_desktop_portal_certi.Base.{◌≡◌, ◌≢◌, inl, refl, true, false, [], ◌∷◌, none, some, codes}
use xdg_desktop_portal_certi.Ck.{ecdsa}
use xdg_desktop_portal_certi.Broker.Mechanism.{Mechanism, zeroed}
use xdg_desktop_portal_certi.Broker.Device.{
  Token, Candidate, ckr_ok, Card, Device, fails, failed, device_open, refresh_login,
  find_private_key, device_login_context, device_perform, is_set,
}
use xdg_desktop_portal_certi.Broker.Device.Keys.{Named, HasKey}
use xdg_desktop_portal_certi.Broker.Device.Performs.{
  authentication, start, next, opened, performed, Run-HasKey,
}
use xdg_desktop_portal_certi.Broker.Device.Authenticated.{
  IsPerformed, begun_with, device_perform-IsPerformed,
}

abbrev a_mechanism : Mechanism
a_mechanism = record zeroed { type_of = ecdsa }

abbrev a_token : Token
a_token = record { serial = some (codes "1"); label = none; model = none; manufacturer = none }

abbrev a_candidate : Candidate
a_candidate = record { certificate_id = some (codes "c"); token = some a_token; cka_id = 5 ∷ [] }

abbrev a_card : Card
a_card = record {
  session_of = λ _. some (1, 2);
  state_of = λ _. (ckr_ok, true);
  keys_of = λ _. some (9 ∷ []);
  login_of = λ _. ckr_ok;
  always_of = λ _. true;
  init_of = λ _. ckr_ok;
  length_of = λ _. ckr_ok;
  output_of = λ _. (ckr_ok, 4 ∷ 2 ∷ []);
}

abbrev no_device : Device
no_device = record {
  token_module = none;
  session = 0;
  private_key = 0;
  logged_in = false;
  candidate = none;
  calls = [];
}

abbrev an_open : Device
an_open = (device_open a_card a_candidate no_device).1

-- Opening finds the key of the candidate.
open_key : an_open.private_key ≡ 9
unfolding device_open refresh_login find_private_key
open_key = refl

-- Without a caller's authentication, the operation fails and the device is closed.
not_asked : (device_perform a_card false a_mechanism [] none an_open).0 ≡ fails failed
unfolding device_perform device_open refresh_login find_private_key
not_asked = refl

no_device-HasKey : HasKey a_card no_device
unfolding Named
no_device-HasKey = record { quiet = λ _. refl; named = inl refl }

Run-HasKey_example :
    HasKey a_card
      (device_perform a_card false a_mechanism [] (authentication a_card (some none)) an_open).1
Run-HasKey_example =
    Run-HasKey a_card no_device
      (device_perform a_card false a_mechanism [] (authentication a_card (some none)) an_open).1
      no_device-HasKey
      (next an_open
        (device_perform a_card false a_mechanism [] (authentication a_card (some none)) an_open).1
        (next no_device an_open start (opened a_candidate))
        (performed false a_mechanism [] (some none)))

device_perform-IsPerformed_example :
    (is_set an_open.token_module ≡ true)
    × (an_open.private_key ≢ 0)
    × IsPerformed a_card false []
        (begun_with false a_mechanism an_open)
        true
        (authentication a_card (some none))
        (device_perform a_card false a_mechanism [] (authentication a_card (some none)) an_open).1
unfolding device_perform device_open refresh_login find_private_key device_login_context
device_perform-IsPerformed_example =
    device_perform-IsPerformed a_card false a_mechanism [] (authentication a_card (some none))
      an_open (4 ∷ 2 ∷ []) refl
