-- ===== src/Module/Cryptoki/Invariant/Reachable.antt =====
-- The states that calls, signals and the clock lead to.
use xdg_desktop_portal_certi.Base.{
  ℕ, ◌≡◌, refl, Bool, false, Option, none, some, List, subst, Bytes, arith,
}
use xdg_desktop_portal_certi.Ck.{CkMechanism}
use xdg_desktop_portal_certi.Module.Grant.{Gnutls}
use xdg_desktop_portal_certi.Module.Objects.{Template}
use xdg_desktop_portal_certi.Module.Rv.{Abi}
use xdg_desktop_portal_certi.Module.Cryptoki.{
  SessionFlags, Client, Cryptoki, unloaded, Done, returns, waits, crashes,
}
use xdg_desktop_portal_certi.Module.Cryptoki.Lifecycle.{
  InitArgs, c_initialize, c_finalize, finalize_end,
}
use xdg_desktop_portal_certi.Module.Cryptoki.Sessions.{
  c_open_session, c_close_session, c_close_all_sessions, c_get_session_info, c_login, c_logout,
}
use xdg_desktop_portal_certi.Module.Cryptoki.Slots.{
  c_get_slot_list, c_get_slot_info, c_get_mechanism_list, c_get_mechanism_info,
  c_wait_for_slot_event,
}
use xdg_desktop_portal_certi.Module.Cryptoki.Search.{
  Outside, Request, Acquired, ensure_grant, c_find_objects_init, search_acquired, c_find_objects,
  c_find_objects_final, c_get_attribute_value,
}
use xdg_desktop_portal_certi.Module.Cryptoki.Sign.{MechanismArg, c_sign_init}
use xdg_desktop_portal_certi.Module.Cryptoki.Perform.{Service, c_sign, c_sign_update, c_sign_final}
use xdg_desktop_portal_certi.Module.Cryptoki.Decrypt.{c_decrypt_init, c_decrypt}
use xdg_desktop_portal_certi.Module.Cryptoki.Invariant.{Inv, Safe}
use xdg_desktop_portal_certi.Module.Cryptoki.Invariant.Sessions.{
  c_initialize-Safe, finalize_end-Inv, c_finalize-Safe, c_open_session-Safe, c_close_session-Safe,
  c_close_all_sessions-Safe, c_get_session_info-Safe, c_login-Safe, c_logout-Safe,
}
use xdg_desktop_portal_certi.Module.Cryptoki.Invariant.Slots.{
  c_get_slot_list-Safe, c_get_slot_info-Safe, c_get_mechanism_list-Safe, c_get_mechanism_info-Safe,
  c_wait_for_slot_event-Safe,
}
use xdg_desktop_portal_certi.Module.Cryptoki.Invariant.Search.{
  ensure_grant-Safe, c_find_objects_init-Safe, search_acquired-Safe, c_find_objects-Safe,
  c_find_objects_final-Safe, c_get_attribute_value-Safe,
}
use xdg_desktop_portal_certi.Module.Cryptoki.Invariant.Sign.{c_sign_init-Safe}
use xdg_desktop_portal_certi.Module.Cryptoki.Invariant.Perform.{
  with_client-Inv, c_sign-Safe, c_sign_update-Safe, c_sign_final-Safe,
}
use xdg_desktop_portal_certi.Module.Cryptoki.Invariant.Decrypt.{c_decrypt_init-Safe, c_decrypt-Safe}

-- An entry point with its arguments, or the rest of a call that has released the lock.
pub data Call : Type 0 where
  initialize : Bool → Option Client → Option InitArgs → Call
  finalize : Bool → Call
  open_session : ℕ → ℕ → SessionFlags → Bool → Call
  close_session : ℕ → Call
  close_all_sessions : ℕ → Call
  get_session_info : ℕ → ℕ → Bool → Call
  login : ℕ → ℕ → Bool → Call
  logout : ℕ → ℕ → Call
  get_slot_list : Bool → Option ℕ → Call
  get_slot_info : ℕ → ℕ → Bool → Call
  get_mechanism_list : ℕ → Bool → Option ℕ → Call
  get_mechanism_info : ℕ → CkMechanism → Bool → Call
  wait_for_slot_event : ℕ → Bool → Bool → Bool → Bool → Call
  find_objects_init : Outside → ℕ → Option (List Template) → ℕ → Call
  find_objects_woken : Outside → Request → Call
  find_objects_acquired : Outside → Request → ℕ → ℕ → Acquired → Call
  find_objects : ℕ → ℕ → Bool → Bool → ℕ → Call
  find_objects_final : ℕ → ℕ → Call
  get_attribute_value : ℕ → ℕ → ℕ → List Template → Call
  sign_init : ℕ → ℕ → Option MechanismArg → ℕ → Call
  sign : ℕ → ℕ → Option Bytes → ℕ → Bool → Option ℕ → Call
  sign_update : ℕ → ℕ → Option Bytes → ℕ → Call
  sign_final : ℕ → ℕ → Bool → Option ℕ → Call
  decrypt_init : ℕ → ℕ → Option MechanismArg → ℕ → Call
  decrypt : ℕ → ℕ → Option Bytes → Bool → Option ℕ → Call

-- What a call leaves, none where it reads through a NULL pointer.
abbrev pub after {ℓ} : {A : Type ℓ} → Done A → Option Cryptoki
after (returns rv out s) = some s
after (waits p s) = some s
after crashes = none

after-Inv {ℓ} : {A : Type ℓ} (d : Done A) → Safe d → (s : Cryptoki) × (after d ≡ some s) × Inv s
after-Inv (returns rv out s) safe = (s, refl, safe)
after-Inv (waits p s) safe = (s, refl, safe)
after-Inv crashes safe = absurd safe

module _ (lib : Gnutls) (abi : Abi) (service : Service) where
  -- `checked` is what MODULE_CHECK has read, in a call that has it.
  unfoldable pub run_call : Bool → Call → Cryptoki → Option Cryptoki
  run_call checked (initialize excluded client args) s = after (c_initialize excluded client args s)
  run_call checked (finalize is_null) s = after (c_finalize is_null s)
  run_call checked (open_session now slot flags pointer) s =
      after (c_open_session checked now slot flags pointer s)
  run_call checked (close_session handle) s = after (c_close_session checked handle s)
  run_call checked (close_all_sessions slot) s = after (c_close_all_sessions checked slot s)
  run_call checked (get_session_info now handle pointer) s =
      after (c_get_session_info checked now handle pointer s)
  run_call checked (login now handle is_user) s = after (c_login checked now handle is_user s)
  run_call checked (logout now handle) s = after (c_logout checked now handle s)
  run_call checked (get_slot_list count room) s = after (c_get_slot_list checked count room s)
  run_call checked (get_slot_info now slot info) s = after (c_get_slot_info checked now slot info s)
  run_call checked (get_mechanism_list slot count room) s =
      after (c_get_mechanism_list checked slot count room s)
  run_call checked (get_mechanism_info slot ty info) s =
      after (c_get_mechanism_info checked slot ty info s)
  run_call checked (wait_for_slot_event now slot null dont_block other) s =
      after (c_wait_for_slot_event checked now slot null dont_block other s)
  run_call checked (find_objects_init o handle templ count) s =
      after (c_find_objects_init checked abi o handle templ count s)
  run_call checked (find_objects_woken o q) s = after (ensure_grant abi o q s)
  run_call checked (find_objects_acquired o q client generation r) s =
      after (search_acquired lib abi o q client generation r s)
  run_call checked (find_objects now handle count memory room) s =
      after (c_find_objects checked now handle count memory room s)
  run_call checked (find_objects_final now handle) s =
      after (c_find_objects_final checked now handle s)
  run_call checked (get_attribute_value now handle object ts) s =
      after (c_get_attribute_value checked abi now handle object ts s)
  run_call checked (sign_init now handle m key) s =
      after (c_sign_init checked lib abi now handle m key s)
  run_call checked (sign now handle memory size out room) s =
      after (c_sign checked lib service now handle memory size out room s)
  run_call checked (sign_update now handle memory size) s =
      after (c_sign_update checked lib now handle memory size s)
  run_call checked (sign_final now handle out room) s =
      after (c_sign_final checked lib service now handle out room s)
  run_call checked (decrypt_init now handle m key) s =
      after (c_decrypt_init checked abi now handle m key s)
  run_call checked (decrypt now handle c out room) s =
      after (c_decrypt checked service now handle c out room s)

  -- The states between calls: the one that the library is loaded in, what a call leaves, what a signal
  -- makes of the client, and what C_Finalize leaves when it wakes.
  pub data IsReachable : Cryptoki → Type 0 where
    loaded : IsReachable unloaded
    called :
        (checked : Bool) (c : Call) (s s' : Cryptoki)
        → IsReachable s
        → run_call checked c s ≡ some s'
        → IsReachable s'
    signalled :
        (client : Option Client) (s : Cryptoki)
        → IsReachable s
        → IsReachable (record s { client = client })
    idled : (s : Cryptoki) → IsReachable s → s.acquiring ≡ false → IsReachable (finalize_end s)

  run_call-Inv :
      (checked : Bool) (c : Call) (s : Cryptoki)
      → Inv s
      → (s' : Cryptoki) × (run_call checked c s ≡ some s') × Inv s'
  unfolding run_call
  run_call-Inv checked (initialize a b c) s inv = after-Inv _ (c_initialize-Safe a b c s inv)
  run_call-Inv checked (finalize a) s inv = after-Inv _ (c_finalize-Safe a s inv)
  run_call-Inv checked (open_session a b c d) s inv =
      after-Inv _ (c_open_session-Safe checked a b c d s inv)
  run_call-Inv checked (close_session a) s inv = after-Inv _ (c_close_session-Safe checked a s inv)
  run_call-Inv checked (close_all_sessions a) s inv =
      after-Inv _ (c_close_all_sessions-Safe checked a s inv)
  run_call-Inv checked (get_session_info a b c) s inv =
      after-Inv _ (c_get_session_info-Safe checked a b c s inv)
  run_call-Inv checked (login a b c) s inv = after-Inv _ (c_login-Safe checked a b c s inv)
  run_call-Inv checked (logout a b) s inv = after-Inv _ (c_logout-Safe checked a b s inv)
  run_call-Inv checked (get_slot_list a b) s inv =
      after-Inv _ (c_get_slot_list-Safe checked a b s inv)
  run_call-Inv checked (get_slot_info a b c) s inv =
      after-Inv _ (c_get_slot_info-Safe checked a b c s inv)
  run_call-Inv checked (get_mechanism_list a b c) s inv =
      after-Inv _ (c_get_mechanism_list-Safe checked a b c s inv)
  run_call-Inv checked (get_mechanism_info a b c) s inv =
      after-Inv _ (c_get_mechanism_info-Safe checked a b c s inv)
  run_call-Inv checked (wait_for_slot_event a b c d e) s inv =
      after-Inv _ (c_wait_for_slot_event-Safe checked a b c d e s inv)
  run_call-Inv checked (find_objects_init o h t n) s inv =
      after-Inv _ (c_find_objects_init-Safe abi o t n h checked s inv)
  run_call-Inv checked (find_objects_woken o q) s inv =
      after-Inv _ (ensure_grant-Safe abi q o s inv)
  run_call-Inv checked (find_objects_acquired o q c g r) s inv =
      after-Inv _ (search_acquired-Safe lib abi o q c g r s inv)
  run_call-Inv checked (find_objects a b c d e) s inv =
      after-Inv _ (c_find_objects-Safe checked a b c d e s inv)
  run_call-Inv checked (find_objects_final a b) s inv =
      after-Inv _ (c_find_objects_final-Safe checked a b s inv)
  run_call-Inv checked (get_attribute_value a b c d) s inv =
      after-Inv _ (c_get_attribute_value-Safe checked abi a b c d s inv)
  run_call-Inv checked (sign_init a b c d) s inv =
      after-Inv _ (c_sign_init-Safe checked lib abi a b c d s inv)
  run_call-Inv checked (sign a b c d e f) s inv =
      after-Inv _ (c_sign-Safe checked lib service a b c d e f s inv)
  run_call-Inv checked (sign_update a b c d) s inv =
      after-Inv _ (c_sign_update-Safe checked lib a b c d s inv)
  run_call-Inv checked (sign_final a b c d) s inv =
      after-Inv _ (c_sign_final-Safe checked lib service a b c d s inv)
  run_call-Inv checked (decrypt_init a b c d) s inv =
      after-Inv _ (c_decrypt_init-Safe checked abi a b c d s inv)
  run_call-Inv checked (decrypt a b c d e) s inv =
      after-Inv _ (c_decrypt-Safe checked service a b c d e s inv)

  -- In every state between calls each session is sound for the grant that is held: one that signs or
  -- decrypts does so by that grant, which allows it and has the mechanism; one that signs has its input
  -- present, with a buffer of at most 512 bytes, and one that decrypts has its hash; one that does not
  -- sign holds no input, and one that does not decrypt no label. Without a grant there are no objects.
  pub IsReachable-Inv : (s : Cryptoki) → IsReachable s → Inv s
  IsReachable-Inv s loaded = record { sound = tt; objects = λ _. refl }
  IsReachable-Inv _ (called checked c s s' r e) =
      let (s'', e', inv) = run_call-Inv checked c s (IsReachable-Inv s r) in
      let same : s'' ≡ s' = ground (arith, e, e') in subst Inv same inv
  IsReachable-Inv _ (signalled client s r) = with_client-Inv client s (IsReachable-Inv s r)
  IsReachable-Inv _ (idled s r e) = finalize_end-Inv s (IsReachable-Inv s r)
