-- ===== src/Module/Cryptoki/Invariant/Search.antt =====
-- Searches, and the acquisitions that they start, keep the state sound.
use xdg_desktop_portal_certi.Base.{
  ℕ, suc, ◌%◌, ◌^◌, ◌≡◌, Bool, true, false, refl, Option, none, some, List, All-map, subst, arith,
}
use xdg_desktop_portal_certi.Module.Grant.{Grant, Gnutls}
use xdg_desktop_portal_certi.Module.Objects.{Object, Objects, Template, objects_lookup}
use xdg_desktop_portal_certi.Module.Objects.Certificate.{objects_new}
use xdg_desktop_portal_certi.Module.Rv.{Abi}
use xdg_desktop_portal_certi.Module.Cryptoki.{
  PortalSession, GError, Cryptoki, portal_error, failed, cancelled, unavailable, invalidated_grant,
  timeout, pin_locked, device, login_required, invalid_request, no_error, other_domain,
}
use xdg_desktop_portal_certi.Module.Cryptoki.Search.{
  Outside, Request, request_for, results_of, search_in, finish_search, without_grant, with_grant,
  woken_in, ensure_grant, init_in, c_find_objects_init, Acquired, granted, not_granted, give_back,
  installed, install, keep_or_install, revalidated, acquire_end, search_acquired, next_objects,
  objects_in, c_find_objects, final_in, c_find_objects_final, value_of, values_in,
  c_get_attribute_value,
}
use xdg_desktop_portal_certi.Module.Cryptoki.Invariant.{
  AllIn, IsSound, Inv, Safe, Found, with_session-Inv, release_grant-Inv, grant_still_good-Inv,
  session_lookup-Found, session_revalidate-Found, guarded-Safe,
}

-- A session is as sound as another with the same signing and decryption and with results where it
-- searches.
search-IsSound :
    (grant : Option Grant) (x : PortalSession) (active : Bool) (rs : Option (List ℕ)) (position : ℕ)
    → (active ≡ true → (l : List ℕ) × (rs ≡ some l))
    → IsSound grant x
    → IsSound grant (record x { find_active = active; find_results = rs; find_position = position })
search-IsSound grant x active rs position has sound = record {
  signing = sound.signing;
  not_signing = sound.not_signing;
  decrypting = sound.decrypting;
  not_decrypting = sound.not_decrypting;
  finding = has;
}

module _ (abi : Abi) (q : Request) where
  search_in-Safe :
      (acquired : Bool) (p : Option PortalSession × Cryptoki)
      → Found p
      → Safe (search_in abi q acquired p)
  search_in-Safe acquired (none, s) f = f
  search_in-Safe acquired (some x, s) (inv, sound) =
      let found =
        search-IsSound s.grant x true (some (results_of abi q acquired s)) 0 (λ _. (_, refl))
          sound in
      ground (arith, inv, with_session-Inv _ s found inv)

  finish_search-Safe :
      (now : ℕ) (acquired : Bool) (s : Cryptoki) → Inv s → Safe (finish_search abi now q acquired s)
  unfolding finish_search
  finish_search-Safe now acquired s inv =
      search_in-Safe acquired _
        (session_revalidate-Found now s q.session_handle q.at_lifecycle q.at_serial inv)

  without_grant-Safe :
      (o : Outside) (p : Option PortalSession × Cryptoki) → Found p → Safe (without_grant abi o q p)
  without_grant-Safe o (none, s) f = finish_search-Safe o.real_time false s f
  without_grant-Safe o (some x, s) (inv, sound) =
      let started : Inv (record s { refusal_time = 0; acquiring = true }) = record {
        sound = inv.sound;
        objects = inv.objects;
      } in
      ground (arith, inv, started, finish_search-Safe o.real_time false s inv)

  with_grant-Safe : (o : Outside) (p : Bool × Cryptoki) → Inv p.1 → Safe (with_grant abi o q p)
  with_grant-Safe o (true, s) inv = finish_search-Safe o.real_time true s inv
  with_grant-Safe o (false, s) inv =
      without_grant-Safe o _
        (session_revalidate-Found o.real_time s q.session_handle q.at_lifecycle q.at_serial inv)

  woken_in-Safe :
      (o : Outside) (p : Option PortalSession × Cryptoki) → Found p → Safe (woken_in abi o q p)
  woken_in-Safe o (none, s) f = finish_search-Safe o.real_time false s f
  woken_in-Safe o (some x, s) (inv, sound) =
      with_grant-Safe o _ (grant_still_good-Inv o.real_time s inv)

  pub ensure_grant-Safe : (o : Outside) (s : Cryptoki) → Inv s → Safe (ensure_grant abi o q s)
  unfolding ensure_grant
  ensure_grant-Safe o s inv = ground (
    arith,
    inv,
    finish_search-Safe o.real_time false s inv,
    woken_in-Safe o _
        (session_revalidate-Found o.real_time s q.session_handle q.at_lifecycle q.at_serial inv),
  )

module _ (abi : Abi) (o : Outside) (templ : Option (List Template)) (count handle : ℕ) where
  init_in-Safe :
      (p : Option PortalSession × Cryptoki) → Found p → Safe (init_in abi o templ count handle p)
  init_in-Safe (none, s) f = f
  init_in-Safe (some x, s) (inv, sound) =
      ground (arith, inv, ensure_grant-Safe abi (request_for templ count handle x s) o s inv)

  pub c_find_objects_init-Safe :
      (checked : Bool) (s : Cryptoki)
      → Inv s
      → Safe (c_find_objects_init checked abi o handle templ count s)
  unfolding c_find_objects_init
  c_find_objects_init-Safe checked s inv =
      ground (arith, inv, init_in-Safe _ (session_lookup-Found o.real_time s handle inv))

give_back-Inv : (g : Grant) (s : Cryptoki) → Inv s → Inv (give_back g s)
give_back-Inv g s inv = record { sound = inv.sound; objects = inv.objects }

-- Without a grant no session signs or decrypts, so a session is sound for any grant.
ungranted-IsSound : (grant : Option Grant) (x : PortalSession) → IsSound none x → IsSound grant x
ungranted-IsSound grant x sound = record {
  signing = λ h. absurd (ground (arith, (sound.signing h).has_grant));
  not_signing = sound.not_signing;
  decrypting = λ h. absurd (ground (arith, (sound.decrypting h).has_grant));
  not_decrypting = sound.not_decrypting;
  finding = sound.finding;
}

ungranted-All :
    (grant : Option Grant) (t : Option (List PortalSession))
    → AllIn (IsSound none) t
    → AllIn (IsSound grant) t
ungranted-All grant none all = tt
ungranted-All grant (some ss) all = All-map (ungranted-IsSound grant) ss all

installed-Inv :
    (o : Option Objects) (s : Cryptoki)
    → Inv s
    → (g : Grant) → s.grant ≡ some g
    → Inv (installed o s).1
installed-Inv none s inv g e = release_grant-Inv s inv
installed-Inv (some os) s inv g e = record {
  sound = inv.sound;
  objects = λ h. absurd (ground (arith, h, e));
}

install-Inv :
    (lib : Gnutls) (abi : Abi) (g : Grant) (s : Cryptoki)
    → Inv s
    → s.grant ≡ none
    → Inv (install lib abi g s).1
install-Inv lib abi g s inv e =
    let all : AllIn (IsSound none) s.sessions =
      subst (λ x. AllIn (IsSound x) s.sessions) e inv.sound in
    let g' = suc s.generation % 2 ^ 32 in
    let s' : Cryptoki = record s { grant = some g; generation = g'; objects = none } in
    let granted : Inv s' = record {
      sound = ungranted-All (some g) s.sessions all;
      objects = λ h. refl;
    } in
    installed-Inv (objects_new lib abi g g') s' granted g refl

keep_or_install-Inv :
    (lib : Gnutls) (abi : Abi) (now : ℕ) (g : Grant) (s : Cryptoki) (held : Option Grant)
    → s.grant ≡ held
    → Inv s
    → Inv (keep_or_install lib abi now g s held).1
keep_or_install-Inv lib abi now g s none e inv = install-Inv lib abi g s inv e
keep_or_install-Inv lib abi now g s (some old) e inv =
    grant_still_good-Inv now _ (give_back-Inv g s inv)

revalidated-Inv :
    (lib : Gnutls) (abi : Abi) (now : ℕ) (g : Grant) (p : Option PortalSession × Cryptoki)
    → Found p
    → Inv (revalidated lib abi now g p).1
revalidated-Inv lib abi now g (none, s) f = give_back-Inv g s f
revalidated-Inv lib abi now g (some x, s) (inv, sound) =
    keep_or_install-Inv lib abi now g s s.grant refl inv

module _ (lib : Gnutls) (abi : Abi) (o : Outside) (q : Request) (client generation : ℕ) where
  refused-Inv :
      (e : GError) (s : Cryptoki)
      → Inv s
      → Inv (acquire_end lib abi o q client generation (not_granted e) s).1
  unfolding acquire_end
  refused-Inv (portal_error cancelled) s inv = record { sound = inv.sound; objects = inv.objects }
  refused-Inv no_error s inv = inv
  refused-Inv other_domain s inv = inv
  refused-Inv (portal_error failed) s inv = inv
  refused-Inv (portal_error unavailable) s inv = inv
  refused-Inv (portal_error invalidated_grant) s inv = inv
  refused-Inv (portal_error timeout) s inv = inv
  refused-Inv (portal_error pin_locked) s inv = inv
  refused-Inv (portal_error device) s inv = inv
  refused-Inv (portal_error login_required) s inv = inv
  refused-Inv (portal_error invalid_request) s inv = inv

  acquire_end-Inv :
      (r : Acquired) (s : Cryptoki) → Inv s → Inv (acquire_end lib abi o q client generation r s).1
  unfolding acquire_end
  acquire_end-Inv (not_granted e) s inv = refused-Inv e s inv
  acquire_end-Inv (granted g) s inv = ground (
    arith,
    give_back-Inv g s inv,
    revalidated-Inv lib abi o.real_time g _
        (session_revalidate-Found o.real_time s q.session_handle q.at_lifecycle q.at_serial inv),
  )

  pub search_acquired-Safe :
      (r : Acquired) (s : Cryptoki)
      → Inv s
      → Safe (search_acquired lib abi o q client generation r s)
  unfolding search_acquired
  search_acquired-Safe r s inv =
      let idle : Inv (record s { acquiring = false }) = record {
        sound = inv.sound;
        objects = inv.objects;
      } in
      finish_search-Safe abi q o.real_time _ _ (acquire_end-Inv r _ idle)

next_objects-Safe :
    (room : ℕ) (x : PortalSession) (s : Cryptoki) (t : Option (List ℕ))
    → x.find_active ≡ true
    → x.find_results ≡ t
    → Inv s
    → IsSound s.grant x
    → Safe (next_objects room x s t)
next_objects-Safe room x s none active e inv sound =
    absurd (ground (arith, e, (sound.finding active).1))
next_objects-Safe room x s (some rs) active e inv sound =
    with_session-Inv _ s
      (search-IsSound s.grant x x.find_active x.find_results _ sound.finding sound) inv

objects_in-Safe :
    (room : ℕ) (p : Option PortalSession × Cryptoki) → Found p → Safe (objects_in room p)
objects_in-Safe room (none, s) f = f
objects_in-Safe room (some x, s) (inv, sound) =
    guarded-Safe x.find_active _ _ (λ _. inv)
      (λ e. next_objects-Safe room x s x.find_results e refl inv sound)

pub c_find_objects-Safe :
    (checked : Bool) (now handle : ℕ) (has_count has_memory : Bool) (room : ℕ) (s : Cryptoki)
    → Inv s
    → Safe (c_find_objects checked now handle has_count has_memory room s)
unfolding c_find_objects
c_find_objects-Safe checked now handle has_count has_memory room s inv =
    ground (arith, inv, objects_in-Safe room _ (session_lookup-Found now s handle inv))

final_in-Safe : (p : Option PortalSession × Cryptoki) → Found p → Safe (final_in p)
final_in-Safe (none, s) f = f
final_in-Safe (some x, s) (inv, sound) =
    let idle = search-IsSound s.grant x false none 0 (λ h. absurd (ground (arith))) sound in
    ground (arith, inv, with_session-Inv _ s idle inv)

pub c_find_objects_final-Safe :
    (checked : Bool) (now handle : ℕ) (s : Cryptoki)
    → Inv s
    → Safe (c_find_objects_final checked now handle s)
unfolding c_find_objects_final
c_find_objects_final-Safe checked now handle s inv =
    ground (arith, inv, final_in-Safe _ (session_lookup-Found now s handle inv))

value_of-Safe :
    (abi : Abi) (ts : List Template) (s : Cryptoki) (o : Option Object)
    → Inv s
    → Safe (value_of abi ts s o)
value_of-Safe abi ts s none inv = inv
value_of-Safe abi ts s (some object) inv = inv

values_in-Safe :
    (abi : Abi) (object : ℕ) (ts : List Template) (p : Option PortalSession × Cryptoki)
    → Found p
    → Safe (values_in abi object ts p)
values_in-Safe abi object ts (none, s) f = f
values_in-Safe abi object ts (some x, s) (inv, sound) =
    value_of-Safe abi ts s (objects_lookup s.objects object) inv

pub c_get_attribute_value-Safe :
    (checked : Bool) (abi : Abi) (now handle object : ℕ) (ts : List Template) (s : Cryptoki)
    → Inv s
    → Safe (c_get_attribute_value checked abi now handle object ts s)
unfolding c_get_attribute_value
c_get_attribute_value-Safe checked abi now handle object ts s inv =
    ground (arith, inv, values_in-Safe abi object ts _ (session_lookup-Found now s handle inv))
