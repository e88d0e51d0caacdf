-- ===== src/Module/Cryptoki/Slots.antt =====
-- src/module/module.c: the slot, the token and the mechanisms.
use xdg_desktop_portal_certi.Base.{
  ℕ, ◌-◌, min, Bool, not, ◌||◌, List, [], ◌∷◌, ◌++◌, Option, none, some, ◌==◌, ltb, if◌then◌else◌,
  length, take, replicate, Bytes, bytes_eq, codes,
}
use xdg_desktop_portal_certi.Ck.{CkMechanism}
use xdg_desktop_portal_certi.Module.Rv.{
  ckr_ok, ckr_arguments_bad, ckr_buffer_too_small, ckr_function_not_supported,
  ckr_mechanism_invalid, ckr_no_event, ckr_slot_id_invalid, ckr_token_not_present,
}
use xdg_desktop_portal_certi.Module.Mechanism.{
  PortalMechanism, mechanism_lookup, mechanism_available, mechanism_list,
}
use xdg_desktop_portal_certi.Module.Cryptoki.{
  Client, Cryptoki, Done, returns, refuse, module_check, client_available, grant_still_good,
}
use xdg_desktop_portal_certi.Module.Cryptoki.Sessions.{portal_slot_id}

-- `pad_field`: a C string in a field of fixed size, cut or filled with spaces.
unfoldable pub pad_field : ℕ → Bytes → Bytes
pad_field size value = let n = min (length value) size in take n value ++ replicate (size - n) 32

-- What a call with a buffer and its size gives: the size, and what it writes into the buffer.
abbrev pub Listed : Type 0 → Type 0
Listed A = ℕ × List A

-- A list that the caller asks for by its size first: NULL, too small, or large enough.
unfoldable pub give_list : {A : Type 0} → List A → Option ℕ → Cryptoki → Done (Listed A)
give_list list none s = returns ckr_ok (some (length list, [])) s
give_list list (some room) s =
    if ltb room (length list)
    then returns ckr_buffer_too_small (some (length list, [])) s
    else returns ckr_ok (some (length list, list)) s

-- `C_GetSlotList`, with whether `count` is set, and the room of the caller's list or none where it is
-- NULL.
unfoldable pub c_get_slot_list : Bool → Bool → Option ℕ → Cryptoki → Done (Listed ℕ)
c_get_slot_list checked has_count room s = module_check checked s (
    if not has_count
    then refuse ckr_arguments_bad s
    else if not (client_available s.client)
    then returns ckr_ok (some (0, [])) s
    else give_list (portal_slot_id ∷ []) room s)

-- `CK_SLOT_INFO`, with whether CKF_TOKEN_PRESENT is set beside CKF_REMOVABLE_DEVICE.
pub record SlotInfo : Type 0 where
  pub slot_description : Bytes
  pub slot_manufacturer : Bytes
  pub is_token_present : Bool

abbrev slot_info : Cryptoki → Done SlotInfo
slot_info s =
    returns ckr_ok
      (some (record {
        slot_description = pad_field 64 (codes "Certificate portal");
        slot_manufacturer = pad_field 32 (codes "freedesktop.org");
        is_token_present = client_available s.client;
      }))
      s

-- `C_GetSlotInfo`.
unfoldable pub c_get_slot_info : Bool → ℕ → ℕ → Bool → Cryptoki → Done SlotInfo
c_get_slot_info checked real_time slot has_info s = module_check checked s (
    if not has_info
    then refuse ckr_arguments_bad s
    else if not (slot == portal_slot_id)
    then refuse ckr_slot_id_invalid s
    else slot_info (grant_still_good real_time s).1)

abbrev pub list_mechanisms : Option Client → Option ℕ → Cryptoki → Done (Listed CkMechanism)
list_mechanisms none room s = refuse ckr_token_not_present s
list_mechanisms (some client) room s =
    if client_available (some client)
    then give_list (mechanism_list (some client.mechanisms)) room s
    else refuse ckr_token_not_present s

-- `C_GetMechanismList`, with `portal_client_dup_mechanisms`.
unfoldable pub c_get_mechanism_list :
    Bool → ℕ → Bool → Option ℕ → Cryptoki → Done (Listed CkMechanism)
c_get_mechanism_list checked slot has_count room s = module_check checked s (
    if not has_count
    then refuse ckr_arguments_bad s
    else if not (slot == portal_slot_id)
    then refuse ckr_slot_id_invalid s
    else list_mechanisms s.client room s)

-- `CK_MECHANISM_INFO`, with whether its flag is CKF_SIGN or else CKF_DECRYPT.
pub record MechanismInfo : Type 0 where
  pub min_key_size : ℕ
  pub max_key_size : ℕ
  pub is_sign : Bool

abbrev pub mechanism_info : Option PortalMechanism → Cryptoki → Done MechanismInfo
mechanism_info none s = refuse ckr_mechanism_invalid s
mechanism_info (some m) s =
    let is_ecdsa = bytes_eq m.portal_mechanism (codes "ECDSA") in
    returns ckr_ok
      (some (record {
        min_key_size = if is_ecdsa then 256 else 1024;
        max_key_size = if is_ecdsa then 521 else 8192;
        is_sign = m.can_sign;
      }))
      s

abbrev pub known_mechanism : Option Client → Option PortalMechanism → Cryptoki → Done MechanismInfo
known_mechanism none m s = refuse ckr_token_not_present s
known_mechanism (some client) m s =
    if not (client_available (some client))
    then refuse ckr_token_not_present s
    else if not (mechanism_available m (some client.mechanisms))
    then refuse ckr_mechanism_invalid s
    else mechanism_info m s

-- `C_GetMechanismInfo`.
unfoldable pub c_get_mechanism_info : Bool → ℕ → CkMechanism → Bool → Cryptoki → Done MechanismInfo
c_get_mechanism_info checked slot ty has_info s = module_check checked s (
    if not has_info
    then refuse ckr_arguments_bad s
    else if not (slot == portal_slot_id)
    then refuse ckr_slot_id_invalid s
    else known_mechanism s.client (mechanism_lookup ty) s)

abbrev pub take_event : Cryptoki → Done ℕ
take_event s =
    if ltb 0 s.slot_events
    then returns ckr_ok (some portal_slot_id) (record s { slot_events = s.slot_events - 1 })
    else refuse ckr_no_event s

-- `C_WaitForSlotEvent`: whether the slot's pointer is set, the reserved one is NULL, CKF_DONT_BLOCK is
-- set, and any other flag is.
unfoldable pub c_wait_for_slot_event : Bool → ℕ → Bool → Bool → Bool → Bool → Cryptoki → Done ℕ
c_wait_for_slot_event checked real_time has_slot is_null dont_block other s =
    module_check checked s (
      if not has_slot || (not is_null || other)
      then refuse ckr_arguments_bad s
      else if not dont_block
      then refuse ckr_function_not_supported s
      else take_event (grant_still_good real_time s).1)
