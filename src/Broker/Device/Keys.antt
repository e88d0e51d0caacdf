-- ===== src/Broker/Device/Keys.antt =====
-- Which key a device holds, over sequences of its calls.
use xdg_desktop_portal_certi.Base.{
  ℕ, ◌≡◌, ◌⊎◌, inl, inr, refl, sym, ap, ◌∙◌, Bool, true, false, not, ◌&&◌, List, ◌∷◌, Option, none,
  some, Bytes, ◌==◌, arith, if◌then◌else◌, Bool-cases, subst,
}
use xdg_desktop_portal_certi.Broker.Device.{
  Candidate, CardRv, ckr_ok, ckr_user_already_logged_in, other_rv, Call, open_session, login,
  session_info, find_private_keys, Card, Device, note, first_key, find_private_key, is_set, refind,
  with_state, refresh_login, close_open, device_close, with_session, open_fresh, device_open,
  logged, device_login, logged_context, device_login_context,
}

-- A key is none, or the first that the token named when it was asked, in the session, for the private
-- keys with the CKA_ID of the candidate.
unfoldable pub Named : Card → ℕ → ℕ → Option Candidate → Type 0
Named card key session candidate =
    (key ≡ 0)
    ⊎ ((c : Candidate) × (candidate ≡ some c)
        × (w : List Call) × (first_key (card.keys_of (find_private_keys session c.cka_id ∷ w)) 0
            ≡ key))

-- A device without a module has no key, and its key is its candidate's.
pub record HasKey (card : Card) (d : Device) : Type 0 where
  pub quiet : is_set d.token_module ≡ false → d.private_key ≡ 0
  pub named : Named card d.private_key d.session d.candidate

find-HasKey :
    (card : Card) (c : Candidate) (d : Device)
    → d.private_key ≡ 0
    → d.candidate ≡ some c
    → is_set d.token_module ≡ true
    → HasKey card (find_private_key card (some c) d)
unfolding find_private_key Named
find-HasKey card c d zero e set = record {
  quiet = λ h. absurd (ground (arith, h, set));
  named = inr (
    c,
    e,
    d.calls,
    ap (first_key (card.keys_of (find_private_keys d.session c.cka_id ∷ d.calls))) (sym zero),
  );
}

find_own-HasKey :
    (card : Card) (d : Device) (o : Option Candidate)
    → d.private_key ≡ 0
    → d.candidate ≡ o
    → is_set d.token_module ≡ true
    → HasKey card d
    → HasKey card (find_private_key card o d)
unfolding find_private_key
find_own-HasKey card d none zero e set has = has
find_own-HasKey card d (some c) zero e set has = find-HasKey card c d zero e set

refind-HasKey :
    (card : Card) (d : Device)
    → is_set d.token_module ≡ true
    → HasKey card d
    → HasKey card (refind card d)
refind-HasKey card d set has =
    let found : d.private_key ≡ 0 → HasKey card (find_private_key card d.candidate d) =
      λ zero. find_own-HasKey card d d.candidate zero refl set has in
    ground (arith, has, found)

with_key :
    (card : Card) (now : Bool) (key : ℕ) (d : Device)
    → (key ≡ 0) ⊎ (key ≡ d.private_key)
    → HasKey card d
    → HasKey card (record d { private_key = key; logged_in = now })
unfolding Named
with_key card now key d (inl e) has = record { quiet = λ _. e; named = inl e }
with_key card now key d (inr e) has = record {
  quiet = λ h. e ∙ has.quiet h;
  named = elim has.named [ inl z ↦ inl (e ∙ z) | inr (c, h, w, n) ↦ inr (c, h, w, n ∙ sym e) ];
}

kept_or_zero : (b : Bool) (key : ℕ) → ((if b then 0 else key) ≡ 0) ⊎ ((if b then 0 else key) ≡ key)
kept_or_zero true key = inl refl
kept_or_zero false key = inr refl

with_state-HasKey :
    (card : Card) (d : Device) (answer : CardRv × Bool)
    → is_set d.token_module ≡ true
    → HasKey card d
    → HasKey card (with_state card d answer).1
with_state-HasKey card d (ckr_ok, now) set has =
    let key = if d.logged_in && not now then 0 else d.private_key in
    refind-HasKey card (record d { private_key = key; logged_in = now }) set
      (with_key card now key d (kept_or_zero (d.logged_in && not now) d.private_key) has)
with_state-HasKey card d (ckr_user_already_logged_in, now) set has = has
with_state-HasKey card d (other_rv n, now) set has = has

pub noted-HasKey : (card : Card) (c : Call) (d : Device) → HasKey card d → HasKey card (note c d)
noted-HasKey card c d has = record { quiet = has.quiet; named = has.named }

pub refresh_login-HasKey :
    (card : Card) (d : Device) → HasKey card d → HasKey card (refresh_login card d).1
unfolding refresh_login
refresh_login-HasKey card d has =
    let asked = note (session_info d.session) d in
    let noted = noted-HasKey card (session_info d.session) d has in
    let stated : is_set d.token_module ≡ true
        → HasKey card (with_state card asked (card.state_of asked.calls)).1 =
      λ set. with_state-HasKey card asked (card.state_of asked.calls) set noted in
    ground (arith, has, stated)

pub device_close-HasKey : (card : Card) (d : Device) → HasKey card d → HasKey card (device_close d)
unfolding device_close Named
device_close-HasKey card d has = elim (Bool-cases (is_set d.token_module)) [
  | inr off ↦
      let empty : HasKey card (record d { candidate = none }) = record {
        quiet = λ _. has.quiet off;
        named = inl (has.quiet off);
      } in
      ground (arith, off, empty)
  | inl on ↦
      let empty : HasKey card (record (close_open d) {
        candidate = none;
        token_module = none;
        session = 0;
        private_key = 0;
        logged_in = false;
      }) =
        record { quiet = λ _. refl; named = inl refl } in
      ground (arith, on, empty)
]

with_session-HasKey :
    (card : Card) (c : Candidate) (d : Device) (o : Option (ℕ × ℕ))
    → d.private_key ≡ 0
    → HasKey card (with_session card c d o).1
unfolding Named
with_session-HasKey card c d none zero = record { quiet = λ _. zero; named = inl zero }
with_session-HasKey card c d (some (lib, session)) zero =
    let d' = record d {
      token_module = some lib;
      session = session;
      logged_in = false;
      candidate = some c;
    } in
    refresh_login-HasKey card (find_private_key card (some c) d')
      (find-HasKey card c d' zero refl refl)

open_fresh-HasKey : (card : Card) (c : Candidate) (d : Device) → HasKey card (open_fresh card c d).1
open_fresh-HasKey card c d =
    let asked = note (open_session c.token) (record d { private_key = 0; session = 0 }) in
    with_session-HasKey card c asked (card.session_of asked.calls) refl

pub device_open-HasKey :
    (card : Card) (c : Candidate) (d : Device)
    → HasKey card d
    → HasKey card (device_open card c d).1
unfolding device_open
device_open-HasKey card c d has = ground (
  arith,
  open_fresh-HasKey card c d,
  refresh_login-HasKey card d has,
  open_fresh-HasKey card c (device_close d),
)

logged_in-HasKey :
    (card : Card) (c : Candidate) (d : Device)
    → d.candidate ≡ some c
    → is_set d.token_module ≡ true
    → HasKey card d
    → HasKey card (
        if d.private_key == 0
        then find_private_key card (some c) (record d { logged_in = true })
        else record d { logged_in = true })
logged_in-HasKey card c d e set has =
    let d' = record d { logged_in = true } in
    let found : d.private_key ≡ 0 → HasKey card (find_private_key card (some c) d') =
      λ zero. find-HasKey card c d' zero e set in
    let same : HasKey card d' = record { quiet = has.quiet; named = has.named } in
    ground (arith, found, same)

logged-HasKey :
    (card : Card) (c : Candidate) (d : Device) (rv : CardRv)
    → d.candidate ≡ some c
    → is_set d.token_module ≡ true
    → HasKey card d
    → HasKey card (logged card c d rv).1
logged-HasKey card c d ckr_ok e set has = logged_in-HasKey card c d e set has
logged-HasKey card c d ckr_user_already_logged_in e set has = logged_in-HasKey card c d e set has
logged-HasKey card c d (other_rv n) e set has = has

pub device_login-HasKey :
    (card : Card) (c : Candidate) (pin : Option Bytes) (d : Device)
    → d.candidate ≡ some c
    → HasKey card d
    → HasKey card (device_login card c pin d).1
unfolding device_login
device_login-HasKey card c pin d e has =
    let asked = note (login d.session false pin) d in
    let noted = noted-HasKey card (login d.session false pin) d has in
    let answered : is_set d.token_module ≡ true
        → HasKey card (logged card c asked (card.login_of asked.calls)).1 =
      λ set. logged-HasKey card c asked (card.login_of asked.calls) e set noted in
    ground (arith, has, answered)

logged_context-same : (d : Device) (rv : CardRv) → (logged_context d rv).1 ≡ d
logged_context-same d ckr_ok = refl
logged_context-same d ckr_user_already_logged_in = refl
logged_context-same d (other_rv n) = refl

pub device_login_context-HasKey :
    (card : Card) (pin : Option Bytes) (d : Device)
    → HasKey card d
    → HasKey card (device_login_context card pin d).1
unfolding device_login_context
device_login_context-HasKey card pin d has =
    let asked = note (login d.session true pin) d in
    let noted = noted-HasKey card (login d.session true pin) d has in
    let answered : HasKey card (logged_context asked (card.login_of asked.calls)).1 =
      subst (HasKey card) (sym (logged_context-same asked (card.login_of asked.calls))) noted in
    ground (arith, has, answered)
