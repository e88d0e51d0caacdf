-- ===== src/Module/Cryptoki/Grants.antt =====
-- src/module/module.c: what becomes of a grant, and which session a search goes on with.
use xdg_desktop_portal_certi.Base.{
  ℕ, suc, ◌%◌, ◌^◌, ◌≡◌, ◌≢◌, inl, inr, refl, Bool, true, false, Option, none, some, List, ◌∷◌,
  Bool-cases, arith,
}
use xdg_desktop_portal_certi.Module.Grant.{Grant, Gnutls}
use xdg_desktop_portal_certi.Module.Objects.{Objects}
use xdg_desktop_portal_certi.Module.Objects.Certificate.{objects_new}
use xdg_desktop_portal_certi.Module.Rv.{Abi, ckr_ok}
use xdg_desktop_portal_certi.Module.Cryptoki.{
  PortalSession, Cryptoki, Client, returns, grant_gone, drop_objects, release_grant, release_live,
  still_good_with, grant_still_good, session_lookup, session_revalidate, same_serial,
}
use xdg_desktop_portal_certi.Module.Cryptoki.Search.{
  Outside, Request, granted, give_back, installed, keep_or_install, revalidated, acquire_end,
  search_in, finish_search,
}

-- A grant was given back.
pub data IsIn (grant : Grant) : List Grant → Type 0 where
  first : (gs : List Grant) → IsIn grant (grant ∷ gs)
  later : (g : Grant) (gs : List Grant) → IsIn grant gs → IsIn grant (g ∷ gs)

-- What became of a grant: the module holds it with its objects and says so, it went back to the portal,
-- or the portal has ended it and the module does not hold it.
pub data Fate (grant : Grant) (acquired : Bool) (s : Cryptoki) : Type 0 where
  is_held : s.grant ≡ some grant → s.objects ≢ none → acquired ≡ true → Fate grant acquired s
  is_released : IsIn grant s.released → Fate grant acquired s
  is_gone : grant_gone s.client (some grant) ≡ true → s.grant ≡ none → Fate grant acquired s

abbrev Accounted : Grant → Bool × Cryptoki → Type 0
Accounted grant (acquired, s) = Fate grant acquired s

released_live :
    (client : Option Client) (held : Option Grant) (grant : Grant) (gs : List Grant)
    → IsIn grant gs
    → IsIn grant (release_live client held gs)
released_live client none grant gs i = i
released_live client (some old) grant gs i = ground (arith, i, later old gs i)

still_good-IsIn :
    (now : ℕ) (grant : Grant) (s : Cryptoki) (held : Option Grant)
    → IsIn grant s.released
    → IsIn grant (still_good_with now s held).1.released
unfolding release_grant drop_objects
still_good-IsIn now grant s none i = i
still_good-IsIn now grant s (some old) i =
    ground (arith, i, released_live s.client s.grant grant s.released i)

installed-Accounted :
    (grant : Grant) (o : Option Objects) (s : Cryptoki)
    → s.grant ≡ some grant
    → Accounted grant (installed o s)
unfolding release_grant drop_objects
installed-Accounted grant (some os) s e = is_held e (λ h. absurd (ground (arith))) refl
installed-Accounted grant none s e = elim (Bool-cases (grant_gone s.client (some grant))) [
  | inl gone ↦ is_gone gone refl
  | inr live ↦
      let newest : IsIn grant (grant ∷ s.released) = first s.released in
      is_released (ground (arith, e, live, newest))
]

keep_or_install-Accounted :
    (lib : Gnutls) (abi : Abi) (now : ℕ) (grant : Grant) (s : Cryptoki) (held : Option Grant)
    → Accounted grant (keep_or_install lib abi now grant s held)
unfolding grant_still_good
keep_or_install-Accounted lib abi now grant s none =
    let g = suc s.generation % 2 ^ 32 in
    installed-Accounted grant (objects_new lib abi grant g)
      (record s { grant = some grant; generation = g; objects = none }) refl
keep_or_install-Accounted lib abi now grant s (some old) =
    let s' = give_back grant s in
    is_released (still_good-IsIn now grant s' s'.grant (first s.released))

revalidated-Accounted :
    (lib : Gnutls) (abi : Abi) (now : ℕ) (grant : Grant) (p : Option PortalSession × Cryptoki)
    → Accounted grant (revalidated lib abi now grant p)
revalidated-Accounted lib abi now grant (none, s) = is_released (first s.released)
revalidated-Accounted lib abi now grant (some x, s) =
    keep_or_install-Accounted lib abi now grant s s.grant

-- A grant that the portal gives is never lost, whatever happened while the lock was released: the
-- module holds it with its objects, or has given it back, or the portal has ended it.
pub acquire_end-Fate :
    (lib : Gnutls) (abi : Abi) (o : Outside) (q : Request) (client generation : ℕ) (grant : Grant)
    (s : Cryptoki)
    → Fate grant
        (acquire_end lib abi o q client generation (granted grant) s).0
        (acquire_end lib abi o q client generation (granted grant) s).1
unfolding acquire_end
acquire_end-Fate lib abi o q client generation grant s =
    let late : Fate grant false (give_back grant s) = is_released (first s.released) in
    ground (
      arith,
      late,
      revalidated-Accounted lib abi o.real_time grant
          (session_revalidate o.real_time s q.session_handle q.at_lifecycle q.at_serial),
    )

search_in-found :
    (abi : Abi) (q : Request) (acquired : Bool) (p : Option PortalSession × Cryptoki)
    (s' : Cryptoki)
    → search_in abi q acquired p ≡ returns ckr_ok none s'
    → (x : PortalSession) × (p.0 ≡ some x) × (x.find_active ≡ false)
search_in-found abi q acquired (none, s) s' h = absurd (ground (arith))
search_in-found abi q acquired (some x, s) s' h = (x, refl, ground (arith))

same_serial-eq-some :
    (serial : ℕ) (o : Option PortalSession) {x : PortalSession}
    → same_serial serial o ≡ some x
    → (o ≡ some x) × (x.serial ≡ serial)
same_serial-eq-some serial none h = absurd (ground (arith))
same_serial-eq-some serial (some y) h = ground (arith, h)

-- A search that returns CKR_OK after the lock was released works on the session that it began with:
-- the module is in the same lifecycle and not finalizing, the session that now has the handle has the
-- serial that the search noted, and no other search runs in it.
pub finish_search-same_session :
    (abi : Abi) (now : ℕ) (q : Request) (acquired : Bool) (s s' : Cryptoki)
    → finish_search abi now q acquired s ≡ returns ckr_ok none s'
    → (s.initialized ≡ true)
      × (s.finalizing ≡ false)
      × (s.lifecycle ≡ q.at_lifecycle)
      × (x : PortalSession) × ((session_lookup now s q.session_handle).0 ≡ some x)
      × (x.serial ≡ q.at_serial)
      × (x.find_active ≡ false)
unfolding finish_search session_revalidate
finish_search-same_session abi now q acquired s s' h =
    let (x, e, idle) =
      search_in-found abi q acquired
        (session_revalidate now s q.session_handle q.at_lifecycle q.at_serial) s' h in
    let kept : (same_serial q.at_serial (session_lookup now s q.session_handle).0 ≡ some x) =
      ground (arith, e) in
    let (found, serial) =
      same_serial-eq-some q.at_serial (session_lookup now s q.session_handle).0 kept in
    (ground (arith, e), ground (arith, e), ground (arith, e), x, found, serial, idle)
