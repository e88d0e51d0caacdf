-- ===== src/Module/Cryptoki/Invariant/Sessions.antt =====
-- The calls that start and stop the module and its sessions keep the state sound.
use xdg_desktop_portal_certi.Base.{
  ℕ, Bool, true, false, refl, Option, none, some, List, [], ◌∷◌, All, arith,
}
use xdg_desktop_portal_certi.Module.Cryptoki.{
  SessionFlags, PortalSession, Client, Cryptoki, find_session, release_grant,
}
use xdg_desktop_portal_certi.Module.Cryptoki.Lifecycle.{
  InitArgs, started, chosen_client, wants_enumeration, c_initialize, c_finalize, finalize_begin,
  finalize_end,
}
use xdg_desktop_portal_certi.Module.Cryptoki.Sessions.{
  fresh_session, without_session, insert_table, open_in, c_open_session, close_found, close_in,
  c_close_session, removed_all, c_close_all_sessions, session_info, c_get_session_info, login_in,
  c_login, logout_in, c_logout,
}
use xdg_desktop_portal_certi.Module.Cryptoki.Invariant.{
  AllIn, IsSound, Inv, Safe, Found, release_grant-Inv, grant_still_good-Inv, session_lookup-Found,
}

started-Inv : (c : Option Client) (e : Bool) (s : Cryptoki) → Inv s → Inv (started c e s)
unfolding started
started-Inv c e s inv = record { sound = tt; objects = inv.objects }

pub c_initialize-Safe :
    (excluded : Bool) (c : Option Client) (args : Option InitArgs) (s : Cryptoki)
    → Inv s
    → Safe (c_initialize excluded c args s)
unfolding c_initialize
c_initialize-Safe excluded c none s inv =
    ground (arith, inv, started-Inv (chosen_client excluded c s) false s inv)
c_initialize-Safe excluded c (some args) s inv =
    ground
      (arith, inv, started-Inv (chosen_client excluded c s) (wants_enumeration args.reserved) s inv)

pub finalize_end-Inv : (s : Cryptoki) → Inv s → Inv (finalize_end s)
unfolding finalize_end
finalize_end-Inv s inv = record { sound = tt; objects = (release_grant-Inv s inv).objects }

finalize_begin-Inv : (s : Cryptoki) → Inv s → Inv (finalize_begin s)
unfolding finalize_begin
finalize_begin-Inv s inv = record { sound = inv.sound; objects = inv.objects }

pub c_finalize-Safe : (is_null : Bool) (s : Cryptoki) → Inv s → Safe (c_finalize is_null s)
unfolding c_finalize
c_finalize-Safe is_null s inv =
    let begun = finalize_begin-Inv s inv in ground (arith, inv, begun, finalize_end-Inv _ begun)

without_session-All :
    (P : PortalSession → Type 0) (handle : ℕ) (ss : List PortalSession)
    → All P ss
    → All P (without_session handle ss)
unfolding without_session
without_session-All P handle [] all = tt
without_session-All P handle (x ∷ xs) (one, all) =
    ground (arith, one, without_session-All P handle xs all)

insert_table-All :
    (P : PortalSession → Type 0) (x : PortalSession) (t : Option (List PortalSession))
    → P x
    → AllIn P t
    → AllIn P (insert_table x t)
insert_table-All P x none one all = tt
insert_table-All P x (some ss) one all = (one, without_session-All P x.handle ss all)

fresh_session-IsSound :
    (grant : _) (handle serial : ℕ) (flags : SessionFlags)
    → IsSound grant (fresh_session handle serial flags)
fresh_session-IsSound grant handle serial flags = record {
  signing = λ h. absurd (ground (arith));
  not_signing = λ h. (refl, refl);
  decrypting = λ h. absurd (ground (arith));
  not_decrypting = λ h. refl;
  finding = λ h. absurd (ground (arith));
}

open_in-Safe : (flags : SessionFlags) (s : Cryptoki) → Inv s → Safe (open_in flags s)
unfolding open_in
open_in-Safe flags s inv = record {
  sound =
      insert_table-All (IsSound s.grant) _ s.sessions (fresh_session-IsSound s.grant _ _ flags)
        inv.sound;
  objects = inv.objects;
}

pub c_open_session-Safe :
    (checked : Bool) (now slot : ℕ) (flags : SessionFlags) (has_pointer : Bool) (s : Cryptoki)
    → Inv s
    → Safe (c_open_session checked now slot flags has_pointer s)
unfolding c_open_session
c_open_session-Safe checked now slot flags has_pointer s inv =
    ground (arith, inv, open_in-Safe flags _ (grant_still_good-Inv now s inv))

close_found-Safe :
    (ss : List PortalSession) (handle : ℕ) (s : Cryptoki) (o : Option PortalSession)
    → Inv s
    → All (IsSound s.grant) ss
    → Safe (close_found ss handle s o)
close_found-Safe ss handle s none inv all = inv
close_found-Safe ss handle s (some x) inv all = record {
  sound = without_session-All (IsSound s.grant) handle ss all;
  objects = inv.objects;
}

close_in-Safe :
    (handle : ℕ) (s : Cryptoki) (t : Option (List PortalSession))
    → Inv s
    → AllIn (IsSound s.grant) t
    → Safe (close_in handle s t)
close_in-Safe handle s none inv all = inv
close_in-Safe handle s (some ss) inv all =
    close_found-Safe ss handle s (find_session ss handle) inv all

pub c_close_session-Safe :
    (checked : Bool) (handle : ℕ) (s : Cryptoki) → Inv s → Safe (c_close_session checked handle s)
unfolding c_close_session
c_close_session-Safe checked handle s inv =
    ground (arith, inv, close_in-Safe handle s s.sessions inv inv.sound)

removed_all-All :
    (P : PortalSession → Type 0) (t : Option (List PortalSession)) → AllIn P (removed_all t)
removed_all-All P none = tt
removed_all-All P (some ss) = tt

pub c_close_all_sessions-Safe :
    (checked : Bool) (slot : ℕ) (s : Cryptoki) → Inv s → Safe (c_close_all_sessions checked slot s)
unfolding c_close_all_sessions
c_close_all_sessions-Safe checked slot s inv =
    let s' : Cryptoki = record s { sessions = removed_all s.sessions } in
    let emptied : Inv s' = record { sound = removed_all-All _ s.sessions; objects = inv.objects } in
    let gone = release_grant-Inv s' emptied in
    let ended : Inv (record (release_grant s') { logged_in = false }) = record {
      sound = gone.sound;
      objects = gone.objects;
    } in
    ground (arith, inv, ended)

session_info-Safe : (p : Option PortalSession × Cryptoki) → Found p → Safe (session_info p)
session_info-Safe (none, s) f = f
session_info-Safe (some x, s) (inv, sound) = inv

pub c_get_session_info-Safe :
    (checked : Bool) (now handle : ℕ) (has_pointer : Bool) (s : Cryptoki)
    → Inv s
    → Safe (c_get_session_info checked now handle has_pointer s)
unfolding c_get_session_info
c_get_session_info-Safe checked now handle has_pointer s inv =
    ground (arith, inv, session_info-Safe _ (session_lookup-Found now s handle inv))

login_in-Safe : (p : Option PortalSession × Cryptoki) → Found p → Safe (login_in p)
login_in-Safe (none, s) f = f
login_in-Safe (some x, s) (inv, sound) =
    let logged : Inv (record s { logged_in = true }) = record {
      sound = inv.sound;
      objects = inv.objects;
    } in
    ground (arith, inv, logged)

pub c_login-Safe :
    (checked : Bool) (now handle : ℕ) (is_user : Bool) (s : Cryptoki)
    → Inv s
    → Safe (c_login checked now handle is_user s)
unfolding c_login
c_login-Safe checked now handle is_user s inv =
    ground (arith, inv, login_in-Safe _ (session_lookup-Found now s handle inv))

logout_in-Safe : (p : Option PortalSession × Cryptoki) → Found p → Safe (logout_in p)
logout_in-Safe (none, s) f = f
logout_in-Safe (some x, s) (inv, sound) =
    release_grant-Inv _ (record { sound = inv.sound; objects = inv.objects })

pub c_logout-Safe :
    (checked : Bool) (now handle : ℕ) (s : Cryptoki) → Inv s → Safe (c_logout checked now handle s)
unfolding c_logout
c_logout-Safe checked now handle s inv =
    ground (arith, inv, logout_in-Safe _ (session_lookup-Found now s handle inv))
