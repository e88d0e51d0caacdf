-- ===== src/Module/Cryptoki/Invariant/Slots.antt =====
-- The calls about the slot, the token and the mechanisms keep the state sound.
use xdg_desktop_portal_certi.Base.{ℕ, ◌-◌, [], ◌∷◌, Bool, Option, none, some, List, arith}
use xdg_desktop_portal_certi.Ck.{CkMechanism}
use xdg_desktop_portal_certi.Module.Mechanism.{PortalMechanism, mechanism_lookup, mechanism_list}
use xdg_desktop_portal_certi.Module.Cryptoki.{Client, Cryptoki}
use xdg_desktop_portal_certi.Module.Cryptoki.Sessions.{portal_slot_id}
use xdg_desktop_portal_certi.Module.Cryptoki.Slots.{
  give_list, c_get_slot_list, c_get_slot_info, c_get_mechanism_list, c_get_mechanism_info,
  known_mechanism, mechanism_info, list_mechanisms, c_wait_for_slot_event, take_event,
}
use xdg_desktop_portal_certi.Module.Cryptoki.Invariant.{Inv, Safe, grant_still_good-Inv}

give_list-Safe :
    {A : Type 0} (l : List A) (room : Option ℕ) (s : Cryptoki) → Inv s → Safe (give_list l room s)
unfolding give_list
give_list-Safe l none s inv = inv
give_list-Safe l (some room) s inv = ground (arith, inv)

pub c_get_slot_list-Safe :
    (checked : Bool) (has_count : Bool) (room : Option ℕ) (s : Cryptoki)
    → Inv s
    → Safe (c_get_slot_list checked has_count room s)
unfolding c_get_slot_list
c_get_slot_list-Safe checked has_count room s inv =
    ground (arith, inv, give_list-Safe (portal_slot_id ∷ []) room s inv)

pub c_get_slot_info-Safe :
    (checked : Bool) (now slot : ℕ) (has_info : Bool) (s : Cryptoki)
    → Inv s
    → Safe (c_get_slot_info checked now slot has_info s)
unfolding c_get_slot_info
c_get_slot_info-Safe checked now slot has_info s inv =
    ground (arith, inv, grant_still_good-Inv now s inv)

list_mechanisms-Safe :
    (c : Option Client) (room : Option ℕ) (s : Cryptoki) → Inv s → Safe (list_mechanisms c room s)
list_mechanisms-Safe none room s inv = inv
list_mechanisms-Safe (some client) room s inv =
    ground (arith, inv, give_list-Safe (mechanism_list (some client.mechanisms)) room s inv)

pub c_get_mechanism_list-Safe :
    (checked : Bool) (slot : ℕ) (has_count : Bool) (room : Option ℕ) (s : Cryptoki)
    → Inv s
    → Safe (c_get_mechanism_list checked slot has_count room s)
unfolding c_get_mechanism_list
c_get_mechanism_list-Safe checked slot has_count room s inv =
    ground (arith, inv, list_mechanisms-Safe s.client room s inv)

mechanism_info-Safe :
    (m : Option PortalMechanism) (s : Cryptoki) → Inv s → Safe (mechanism_info m s)
mechanism_info-Safe none s inv = inv
mechanism_info-Safe (some m) s inv = inv

known_mechanism-Safe :
    (c : Option Client) (m : Option PortalMechanism) (s : Cryptoki)
    → Inv s
    → Safe (known_mechanism c m s)
known_mechanism-Safe none m s inv = inv
known_mechanism-Safe (some client) m s inv = ground (arith, inv, mechanism_info-Safe m s inv)

pub c_get_mechanism_info-Safe :
    (checked : Bool) (slot : ℕ) (ty : CkMechanism) (has_info : Bool) (s : Cryptoki)
    → Inv s
    → Safe (c_get_mechanism_info checked slot ty has_info s)
unfolding c_get_mechanism_info
c_get_mechanism_info-Safe checked slot ty has_info s inv =
    ground (arith, inv, known_mechanism-Safe s.client (mechanism_lookup ty) s inv)

take_event-Safe : (s : Cryptoki) → Inv s → Safe (take_event s)
take_event-Safe s inv =
    let less : Inv (record s { slot_events = s.slot_events - 1 }) = record {
      sound = inv.sound;
      objects = inv.objects;
    } in
    ground (arith, inv, less)

pub c_wait_for_slot_event-Safe :
    (checked : Bool) (now : ℕ) (has_slot is_null dont_block other : Bool) (s : Cryptoki)
    → Inv s
    → Safe (c_wait_for_slot_event checked now has_slot is_null dont_block other s)
unfolding c_wait_for_slot_event
c_wait_for_slot_event-Safe checked now has_slot is_null dont_block other s inv =
    ground (arith, inv, take_event-Safe _ (grant_still_good-Inv now s inv))
