-- ===== src/Broker/Device.antt =====
-- src/broker/device.c: the device that a grant drives, which is a session on the token with the handle of
-- the private key, and the calls of PKCS#11 that its operations make.
pub mod Keys
pub mod Performs
pub mod Authenticated
use xdg_desktop_portal_certi.Base.{
  ℕ, ◌≡◌, Bool, true, false, not, ◌&&◌, ◌||◌, List, [], ◌∷◌, Option, none, some, Bytes, bytes_eq,
  ◌==◌, if◌then◌else◌,
}
use xdg_desktop_portal_certi.Ck.{CkMechanism}
use xdg_desktop_portal_certi.Broker.Mechanism.{Mechanism, CkParameter, mechanism_to_ck}

-- `CertificateToken`, by the fields that `certificate_token_same` compares.
pub record Token : Type 0 where
  pub serial : Option Bytes
  pub label : Option Bytes
  pub model : Option Bytes
  pub manufacturer : Option Bytes

-- `CertificateCandidate`, by the fields that the device reads.
pub record Candidate : Type 0 where
  pub certificate_id : Option Bytes
  pub token : Option Token
  pub cka_id : Bytes

-- `g_strcmp0 (a, b) == 0`.
abbrev pub same_text : Option Bytes → Option Bytes → Bool
same_text none none = true
same_text (some a) (some b) = bytes_eq a b
same_text _ _ = false

abbrev pub no_serial : Option Bytes → Bool
no_serial none = true
no_serial (some []) = true
no_serial (some (_ ∷ _)) = false

-- `certificate_token_same`.
unfoldable pub token_same : Option Token → Option Token → Bool
token_same (some a) (some b) =
    if no_serial a.serial
    then false
    else same_text a.serial b.serial
      && same_text a.label b.label
      && same_text a.model b.model
      && same_text a.manufacturer b.manufacturer
token_same _ _ = false

-- `CK_RV`, by the values that the file compares with.
pub data CardRv : Type 0 where
  ckr_ok ckr_user_already_logged_in : CardRv
  other_rv : ℕ → CardRv

-- The errors that the file sets; `of_rv` is what certificate_pkcs11_set_error makes of a value.
-- `no_session` is an error of certificate_tokens_open_session, `aborted` a call through NULL.
pub data DeviceError : Type 0 where
  token_removed no_private_key failed no_session aborted : DeviceError
  of_rv : CardRv → DeviceError
  of_caller : ℕ → DeviceError

-- The calls that leave the file. A PIN that is `none` is the token's protected path.
pub data Call : Type 0 where
  open_session : Option Token → Call
  close_session : ℕ → Call
  session_info : ℕ → Call
  find_private_keys : ℕ → Bytes → Call
  login : ℕ → Bool → Option Bytes → Call
  read_always_authenticate : ℕ → ℕ → Call
  init : Bool → ℕ → ℕ → CkMechanism × CkParameter → Call
  ask_length : Bool → ℕ → Bytes → Call
  run : Bool → ℕ → Bytes → Call

-- What the token answers to the last of the calls. A session is its module and its handle, and a state
-- is whether a user is logged in.
pub record Card : Type 0 where
  pub session_of : List Call → Option (ℕ × ℕ)
  pub state_of : List Call → CardRv × Bool
  pub keys_of : List Call → Option (List ℕ)
  pub login_of : List Call → CardRv
  pub always_of : List Call → Bool
  pub init_of : List Call → CardRv
  pub length_of : List Call → CardRv
  pub output_of : List Call → CardRv × Bytes

-- `CertificateDevice`, and the calls that were made, the last one first. An invalid handle is 0.
pub record Device : Type 0 where
  pub token_module : Option ℕ
  pub session : ℕ
  pub private_key : ℕ
  pub logged_in : Bool
  pub candidate : Option Candidate
  pub calls : List Call

-- The outcome of a call with a `GError**`.
pub data Answer {ℓ} (A : Type ℓ) : Type ℓ where
  done : A → Answer A
  fails : DeviceError → Answer A

abbrev pub note : Call → Device → Device
note c d = record d { calls = c ∷ d.calls }

abbrev pub first_key : Option (List ℕ) → ℕ → ℕ
first_key (some (k ∷ _)) old = k
first_key _ old = old

-- `find_private_key`; the device's candidate is set where it is called.
unfoldable pub find_private_key : Card → Option Candidate → Device → Device
find_private_key card none d = d
find_private_key card (some c) d =
    let asked = note (find_private_keys d.session c.cka_id) d in
    record asked { private_key = first_key (card.keys_of asked.calls) d.private_key }

unfoldable pub bound_to : Option Candidate → Option Candidate → Bool
bound_to (some a) (some b) =
    same_text a.certificate_id b.certificate_id && token_same a.token b.token
bound_to _ _ = false

abbrev pub is_set : Option ℕ → Bool
is_set none = false
is_set (some _) = true

abbrev pub lost : Device → Bool
lost d = not (is_set d.token_module) || d.session == 0

abbrev pub refind : Card → Device → Device
refind card d = if d.logged_in && d.private_key == 0 then find_private_key card d.candidate d else d

abbrev pub with_state : Card → Device → CardRv × Bool → Answer (Unit {0}) × Device
with_state card d (ckr_ok, now) =
    let key = if d.logged_in && not now then 0 else d.private_key in
    (done tt, refind card (record d { private_key = key; logged_in = now }))
with_state card d (rv, now) = (fails (of_rv rv), d)

-- `certificate_device_refresh_login`.
unfoldable pub refresh_login : Card → Device → Answer (Unit {0}) × Device
refresh_login card d =
    if lost d
    then (fails token_removed, d)
    else let asked = note (session_info d.session) d in
      with_state card asked (card.state_of asked.calls)

abbrev pub close_open : Device → Device
close_open d = if d.session == 0 then d else note (close_session d.session) d

-- `certificate_device_close`.
unfoldable pub device_close : Device → Device
device_close d =
    if not (is_set d.token_module) then record d { candidate = none } else record (close_open d) {
      candidate = none;
      token_module = none;
      session = 0;
      private_key = 0;
      logged_in = false;
    }

abbrev pub with_session : Card → Candidate → Device → Option (ℕ × ℕ) → Answer (Unit {0}) × Device
with_session card c d none = (fails no_session, record d { token_module = none })
with_session card c d (some (lib, session)) = refresh_login card (
    find_private_key card (some c) (record d {
      token_module = some lib;
      session = session;
      logged_in = false;
      candidate = some c;
    }))

abbrev pub open_fresh : Card → Candidate → Device → Answer (Unit {0}) × Device
open_fresh card c d =
    let asked = note (open_session c.token) (record d { private_key = 0; session = 0 }) in
    with_session card c asked (card.session_of asked.calls)

-- `certificate_device_open`.
unfoldable pub device_open : Card → Candidate → Device → Answer (Unit {0}) × Device
device_open card c d =
    if not (is_set d.token_module)
    then open_fresh card c d
    else if bound_to d.candidate (some c)
    then refresh_login card d
    else open_fresh card c (device_close d)

abbrev pub logged : Card → Candidate → Device → CardRv → Answer (Unit {0}) × Device
logged card c d (other_rv n) = (fails (of_rv (other_rv n)), d)
logged card c d _ =
    let d' = record d { logged_in = true } in
    (done tt, if d.private_key == 0 then find_private_key card (some c) d' else d')

-- `certificate_device_login`.
unfoldable pub device_login : Card → Candidate → Option Bytes → Device → Answer (Unit {0}) × Device
device_login card c pin d =
    if lost d
    then (fails token_removed, d)
    else let asked = note (login d.session false pin) d in
      logged card c asked (card.login_of asked.calls)

abbrev pub logged_context : Device → CardRv → Answer (Unit {0}) × Device
logged_context d ckr_ok = (done tt, d)
logged_context d rv = (fails (of_rv rv), d)

-- `certificate_device_login_context`.
unfoldable pub device_login_context : Card → Option Bytes → Device → Answer (Unit {0}) × Device
device_login_context card pin d =
    if lost d
    then (fails token_removed, d)
    else let asked = note (login d.session true pin) d in
      logged_context asked (card.login_of asked.calls)

-- The rest of an operation, from the token's answers on.
abbrev pub with_output : Device → CardRv × Bytes → Answer Bytes × Device
with_output d (ckr_ok, bytes) = (done bytes, d)
with_output d (rv, _) = (fails (of_rv rv), d)

abbrev pub with_length : Card → Bool → Bytes → Device → CardRv → Answer Bytes × Device
with_length card decrypt payload d ckr_ok =
    let asked = note (run decrypt d.session payload) d in
    with_output asked (card.output_of asked.calls)
with_length card decrypt payload d rv = (fails (of_rv rv), d)

abbrev pub perform_run : Card → Bool → Bytes → Device → Answer Bytes × Device
perform_run card decrypt payload d =
    if not (is_set d.token_module)
    then (fails aborted, d)
    else let asked = note (ask_length decrypt d.session payload) d in
      with_length card decrypt payload asked (card.length_of asked.calls)

-- `CertificateDeviceAuthenticate`: what it answers, and what it makes of the device.
abbrev pub Authenticate : Type 0
Authenticate = Device → Answer (Unit {0}) × Device

abbrev pub after_ask : Card → Bool → Bytes → Answer (Unit {0}) × Device → Answer Bytes × Device
after_ask card decrypt payload (done _, d) = perform_run card decrypt payload d
after_ask card decrypt payload (fails e, d) = (fails e, device_close d)

abbrev pub ask : Card → Bool → Bytes → Option Authenticate → Device → Answer Bytes × Device
ask card decrypt payload none d = (fails failed, device_close d)
ask card decrypt payload (some authenticate) d = after_ask card decrypt payload (authenticate d)

abbrev pub with_init :
    Card → Bool → Bytes → Option Authenticate → Bool → Device → CardRv → Answer Bytes × Device
with_init card decrypt payload authenticate always d ckr_ok =
    if always then ask card decrypt payload authenticate d else perform_run card decrypt payload d
with_init card decrypt payload authenticate always d rv = (fails (of_rv rv), d)

-- `certificate_device_perform`.
unfoldable pub device_perform :
    Card → Bool → Mechanism → Bytes → Option Authenticate → Device → Answer Bytes × Device
device_perform card decrypt mechanism payload authenticate d =
    if not (is_set d.token_module)
    then (fails token_removed, d)
    else if d.private_key == 0
    then (fails no_private_key, d)
    else let read = note (read_always_authenticate d.session d.private_key) d in
      let begun = note (init decrypt d.session d.private_key (mechanism_to_ck mechanism)) read in
      with_init card decrypt payload authenticate (card.always_of read.calls) begun
        (card.init_of begun.calls)
