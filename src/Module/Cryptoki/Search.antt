-- ===== src/Module/Cryptoki/Search.antt =====
-- src/module/module.c: searches, and the acquisition of a grant that a search may start.
use xdg_desktop_portal_certi.Base.{
  ℕ, suc, ◌+◌, ◌-◌, ◌*◌, ◌%◌, ◌^◌, Bool, true, false, not, ◌&&◌, ◌||◌, List, [], ◌∷◌, Option, none,
  some, ◌==◌, ltb, if◌then◌else◌, length, take, drop, Bytes, contains,
}
use xdg_desktop_portal_certi.Module.Grant.{Grant, Gnutls}
use xdg_desktop_portal_certi.Module.Objects.{
  Object, Objects, Template, objects_lookup, objects_find, get_attributes,
}
use xdg_desktop_portal_certi.Module.Objects.Certificate.{objects_new}
use xdg_desktop_portal_certi.Module.Objects.Intent.{wants_credential}
use xdg_desktop_portal_certi.Module.Rv.{
  ckr_ok, ckr_arguments_bad, ckr_cryptoki_not_initialized, ckr_object_handle_invalid,
  ckr_operation_active, ckr_operation_not_initialized, ckr_session_handle_invalid, Abi,
}
use xdg_desktop_portal_certi.Module.Cryptoki.{
  PortalSession, Client, Cryptoki, GError, portal_error, cancelled, Done, returns, waits, crashes,
  until_acquired, in_acquire, refuse, module_check, client_available, session_lookup,
  session_revalidate, grant_still_good, release_grant, with_session,
}

-- What a search sees of the world: the two clocks in microseconds, and whether the environment asks
-- for enumeration.
pub record Outside : Type 0 where
  pub real_time : ℕ
  pub monotonic : ℕ
  pub environment : Bool

-- The search's arguments and the locals that identify its session.
pub record Request : Type 0 where
  pub templ : Option (List Template)
  pub count : ℕ
  pub session_handle : ℕ
  pub at_lifecycle : ℕ
  pub at_serial : ℕ

abbrev pub results_of : Abi → Request → Bool → Cryptoki → List ℕ
results_of abi q acquired s = if acquired then objects_find abi s.objects q.templ q.count else []

abbrev pub search_in : Abi → Request → Bool → Option PortalSession × Cryptoki → Done (Unit {0})
search_in abi q acquired (none, s) = refuse ckr_session_handle_invalid s
search_in abi q acquired (some x, s) =
    if x.find_active
    then refuse ckr_operation_active s
    else returns ckr_ok none (
        with_session
          (record x {
            find_results = some (results_of abi q acquired s);
            find_position = 0;
            find_active = true;
          })
          s)

-- The end of `C_FindObjectsInit`, on what `ensure_grant` returned.
unfoldable pub finish_search : Abi → ℕ → Request → Bool → Cryptoki → Done (Unit {0})
finish_search abi real_time q acquired s =
    search_in abi q acquired
      (session_revalidate real_time s q.session_handle q.at_lifecycle q.at_serial)

-- A refusal that is still remembered, and the state with one that has aged forgotten. The clock's
-- difference is of `gint64`s: a clock behind the refusal gives an age below the limit.
unfoldable pub in_grace : ℕ → Cryptoki → Bool
in_grace monotonic s = not (s.refusal_time == 0) && ltb (monotonic - s.refusal_time) (10 * 1000000)

abbrev pub client_id : Option Client → ℕ
client_id none = 0
client_id (some client) = client.identity

abbrev pub start_acquire : Request → Cryptoki → Done (Unit {0})
start_acquire q s =
    waits (in_acquire (client_id s.client) s.generation q.at_lifecycle q.at_serial)
      (record s { refusal_time = 0; acquiring = true })

abbrev pub without_grant :
    Abi → Outside → Request → Option PortalSession × Cryptoki → Done (Unit {0})
without_grant abi o q (none, s) = finish_search abi o.real_time q false s
without_grant abi o q (some x, s) =
    if not (client_available s.client)
    then finish_search abi o.real_time q false s
    else if not (wants_credential abi q.templ q.count s.issued_ids s.enumerate o.environment)
    then finish_search abi o.real_time q false s
    else if in_grace o.monotonic s
    then finish_search abi o.real_time q false s
    else start_acquire q s

abbrev pub with_grant : Abi → Outside → Request → Bool × Cryptoki → Done (Unit {0})
with_grant abi o q (true, s) = finish_search abi o.real_time q true s
with_grant abi o q (false, s) =
    without_grant abi o q
      (session_revalidate o.real_time s q.session_handle q.at_lifecycle q.at_serial)

abbrev pub woken_in : Abi → Outside → Request → Option PortalSession × Cryptoki → Done (Unit {0})
woken_in abi o q (none, s) = finish_search abi o.real_time q false s
woken_in abi o q (some x, s) = with_grant abi o q (grant_still_good o.real_time s)

-- `ensure_grant` from its loop on: the search sleeps while another acquires, unless C_Finalize runs.
unfoldable pub ensure_grant : Abi → Outside → Request → Cryptoki → Done (Unit {0})
ensure_grant abi o q s =
    if s.acquiring && not s.finalizing
    then waits (until_acquired q.at_lifecycle q.at_serial) s
    else if s.acquiring
    then finish_search abi o.real_time q false s
    else woken_in abi o q
        (session_revalidate o.real_time s q.session_handle q.at_lifecycle q.at_serial)

-- The arguments of a search that starts on a session.
abbrev pub request_for : Option (List Template) → ℕ → ℕ → PortalSession → Cryptoki → Request
request_for templ count handle x s = record {
  templ = templ;
  count = count;
  session_handle = handle;
  at_lifecycle = s.lifecycle;
  at_serial = x.serial;
}

abbrev pub init_in :
    Abi
    → Outside
    → Option (List Template)
    → ℕ
    → ℕ
    → Option PortalSession × Cryptoki
    → Done (Unit {0})
init_in abi o templ count handle (none, s) = refuse ckr_session_handle_invalid s
init_in abi o templ count handle (some x, s) =
    if x.find_active
    then refuse ckr_operation_active s
    else ensure_grant abi o (request_for templ count handle x s) s

abbrev pub is_null_list : Option (List Template) → Bool
is_null_list none = true
is_null_list (some ts) = false

-- `C_FindObjectsInit`, up to its return or its first wait.
unfoldable pub c_find_objects_init :
    Bool → Abi → Outside → ℕ → Option (List Template) → ℕ → Cryptoki → Done (Unit {0})
c_find_objects_init checked abi o handle templ count s = module_check checked s (
    if is_null_list templ && ltb 0 count
    then refuse ckr_arguments_bad s
    else if s.finalizing
    then refuse ckr_cryptoki_not_initialized s
    else init_in abi o templ count handle (session_lookup o.real_time s handle))

-- What `portal_client_acquire` gives.
pub data Acquired : Type 0 where
  granted : Grant → Acquired
  not_granted : GError → Acquired

-- A grant that came too late goes back to the portal.
abbrev pub give_back : Grant → Cryptoki → Cryptoki
give_back grant s = record s { released = grant ∷ s.released }

abbrev pub same_client : ℕ → Option Client → Bool
same_client wanted none = false
same_client wanted (some client) = client.identity == wanted

abbrev pub add_id : Bytes → Option (List Bytes) → Option (List Bytes)
add_id identifier none = none
add_id identifier (some ids) = some (if contains ids identifier then ids else identifier ∷ ids)

-- The objects of the new grant, or the grant dropped where they cannot be made.
abbrev pub installed : Option Objects → Cryptoki → Bool × Cryptoki
installed none s = (false, release_grant s)
installed (some os) s =
    (true, record s { objects = some os; issued_ids = add_id os.identifier s.issued_ids })

abbrev pub install : Gnutls → Abi → Grant → Cryptoki → Bool × Cryptoki
install lib abi grant s =
    let g = suc s.generation % 2 ^ 32 in
    installed (objects_new lib abi grant g)
      (record s { grant = some grant; generation = g; objects = none })

abbrev pub keep_or_install : Gnutls → Abi → ℕ → Grant → Cryptoki → Option Grant → Bool × Cryptoki
keep_or_install lib abi real_time grant s none = install lib abi grant s
keep_or_install lib abi real_time grant s (some old) =
    grant_still_good real_time (give_back grant s)

abbrev pub revalidated :
    Gnutls → Abi → ℕ → Grant → Option PortalSession × Cryptoki → Bool × Cryptoki
revalidated lib abi real_time grant (none, s) = (false, give_back grant s)
revalidated lib abi real_time grant (some x, s) = keep_or_install lib abi real_time grant s s.grant

-- `ensure_grant` after `portal_client_acquire`, with `acquiring` set back.
unfoldable pub acquire_end :
    Gnutls → Abi → Outside → Request → ℕ → ℕ → Acquired → Cryptoki → Bool × Cryptoki
acquire_end lib abi o q client generation (not_granted (portal_error cancelled)) s =
    (false, record s { refusal_time = o.monotonic })
acquire_end lib abi o q client generation (not_granted _) s = (false, s)
acquire_end lib abi o q client generation (granted grant) s =
    if not (same_client client s.client) || not (s.generation == generation)
    then (false, give_back grant s)
    else revalidated lib abi o.real_time grant
        (session_revalidate o.real_time s q.session_handle q.at_lifecycle q.at_serial)

abbrev pub finish_pair : Abi → ℕ → Request → Bool × Cryptoki → Done (Unit {0})
finish_pair abi real_time q (acquired, s) = finish_search abi real_time q acquired s

-- The rest of the search that acquired.
unfoldable pub search_acquired :
    Gnutls → Abi → Outside → Request → ℕ → ℕ → Acquired → Cryptoki → Done (Unit {0})
search_acquired lib abi o q client generation result s =
    finish_pair abi o.real_time q
      (acquire_end lib abi o q client generation result (record s { acquiring = false }))

abbrev pub next_objects : ℕ → PortalSession → Cryptoki → Option (List ℕ) → Done (List ℕ)
next_objects room x s none = crashes
next_objects room x s (some rs) =
    let produced = take room (drop x.find_position rs) in
    returns ckr_ok (some produced)
      (with_session (record x { find_position = x.find_position + length produced }) s)

abbrev pub objects_in : ℕ → Option PortalSession × Cryptoki → Done (List ℕ)
objects_in room (none, s) = refuse ckr_session_handle_invalid s
objects_in room (some x, s) =
    if not x.find_active
    then refuse ckr_operation_not_initialized s
    else next_objects room x s x.find_results

-- `C_FindObjects`, with whether `count` is set and whether the room has memory.
unfoldable pub c_find_objects : Bool → ℕ → ℕ → Bool → Bool → ℕ → Cryptoki → Done (List ℕ)
c_find_objects checked real_time handle has_count has_memory room s = module_check checked s (
    if not has_count || (not has_memory && ltb 0 room)
    then refuse ckr_arguments_bad s
    else objects_in room (session_lookup real_time s handle))

abbrev pub final_in : Option PortalSession × Cryptoki → Done (Unit {0})
final_in (none, s) = refuse ckr_session_handle_invalid s
final_in (some x, s) =
    if not x.find_active
    then refuse ckr_operation_not_initialized s
    else returns ckr_ok none
        (with_session (record x { find_active = false; find_position = 0; find_results = none }) s)

-- `C_FindObjectsFinal`.
unfoldable pub c_find_objects_final : Bool → ℕ → ℕ → Cryptoki → Done (Unit {0})
c_find_objects_final checked real_time handle s =
    module_check checked s (final_in (session_lookup real_time s handle))

abbrev pub value_of : Abi → List Template → Cryptoki → Option Object → Done (List Template)
value_of abi ts s none = refuse ckr_object_handle_invalid s
value_of abi ts s (some object) =
    let (rv, ts') = get_attributes abi object ts in returns rv (some ts') s

abbrev pub values_in :
    Abi → ℕ → List Template → Option PortalSession × Cryptoki → Done (List Template)
values_in abi object ts (none, s) = refuse ckr_session_handle_invalid s
values_in abi object ts (some x, s) = value_of abi ts s (objects_lookup s.objects object)

-- `C_GetAttributeValue`, on a template that is not NULL.
unfoldable pub c_get_attribute_value :
    Bool → Abi → ℕ → ℕ → ℕ → List Template → Cryptoki → Done (List Template)
c_get_attribute_value checked abi real_time handle object ts s =
    module_check checked s (values_in abi object ts (session_lookup real_time s handle))
