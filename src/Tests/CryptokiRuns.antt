-- ===== src/Tests/CryptokiRuns.antt =====
-- The module's entry points at concrete inputs.
use xdg_desktop_portal_certi.Base.{
  ◌≡◌, inl, inr, refl, true, false, [], ◌∷◌, none, some, arith, find, Bytes, AllBytes, replicate,
  codes, subst, contains, bytes_eq,
}
use xdg_desktop_portal_certi.Ck.{ecdsa}
use xdg_desktop_portal_certi.Module.Grant.{Grant}
use xdg_desktop_portal_certi.Module.Mechanism.{
  PortalMechanism, hash_for_length, mechanism_available,
}
use xdg_desktop_portal_certi.Module.Rv.{ckr_ok}
use xdg_desktop_portal_certi.Module.Cryptoki.{
  SessionFlags, PortalSession, Cryptoki, unloaded, returns, no_error, grant_still_good,
  session_lookup, session_revalidate, store,
}
use xdg_desktop_portal_certi.Module.Cryptoki.Lifecycle.{
  c_initialize, started, c_finalize, finalize_begin, finalize_end,
}
use xdg_desktop_portal_certi.Module.Cryptoki.Sessions.{fresh_session}
use xdg_desktop_portal_certi.Module.Cryptoki.Search.{
  Outside, Request, granted, acquire_end, finish_search,
}
use xdg_desktop_portal_certi.Module.Cryptoki.Perform.{Service, refused, sign_input, digest_of}
use xdg_desktop_portal_certi.Module.Cryptoki.Grants.{
  Fate, acquire_end-Fate, finish_search-same_session,
}
use xdg_desktop_portal_certi.Module.Cryptoki.Invariant.{Inv, IsSound}
use xdg_desktop_portal_certi.Module.Cryptoki.Invariant.Reachable.{
  initialize, run_call, IsReachable, loaded, called, IsReachable-Inv,
}
use xdg_desktop_portal_certi.Module.Cryptoki.Digest.{IsDigest}
use xdg_desktop_portal_certi.Module.Cryptoki.Sent.{IsFrom, sign_input-IsDigest}
use xdg_desktop_portal_certi.Tests.Parts.{one_cell, one_certificate, rsa_grant, connected}

abbrev silent : Service
silent w = record { meanwhile = λ c. c; reply = refused no_error }

abbrev open_flags : SessionFlags
open_flags = record { serial_session = true; rw_session = false; other_bits = 0 }

abbrev first_state : Cryptoki
first_state = record unloaded {
  initialized = true;
  lifecycle = 1;
  next_session = 1;
  sessions = some [];
  issued_ids = some [];
  client = some connected;
}

initialized_state :
    run_call one_certificate one_cell silent true (initialize false (some connected) none) unloaded
    ≡ some first_state
unfolding run_call c_initialize started
initialized_state = refl

abbrev second_state : Cryptoki
second_state = record first_state {
  next_session = 2;
  session_serial = 1;
  sessions = some (fresh_session 1 1 open_flags ∷ []);
}

reached : IsReachable one_certificate one_cell silent first_state
reached =
    called true (initialize false (some connected) none) unloaded first_state loaded
      initialized_state

IsReachable-Inv_example : Inv first_state
IsReachable-Inv_example = IsReachable-Inv one_certificate one_cell silent first_state reached

abbrev outside : Outside
outside = record { real_time = 5; monotonic = 6; environment = false }

abbrev request : Request
request = record { templ = some []; count = 0; session_handle = 1; at_lifecycle = 1; at_serial = 1 }

acquire_end-Fate_example :
    Fate rsa_grant
      (acquire_end one_certificate one_cell outside request 4 0 (granted rsa_grant) second_state).0
      (acquire_end one_certificate one_cell outside request 4 0 (granted rsa_grant) second_state).1
acquire_end-Fate_example =
    acquire_end-Fate one_certificate one_cell outside request 4 0 rsa_grant second_state

abbrev granted_state : Cryptoki
granted_state = record second_state { grant = some rsa_grant }

cleared :
    c_finalize true granted_state
    ≡ returns ckr_ok none (finalize_end (finalize_begin granted_state))
unfolding c_finalize
cleared = refl

abbrev searching : PortalSession
searching = record (fresh_session 1 1 open_flags) { find_active = true; find_results = some [] }

abbrev searched_state : Cryptoki
searched_state = record second_state { sessions = some (searching ∷ []) }

searched : finish_search one_cell 0 request false second_state ≡ returns ckr_ok none searched_state
unfolding finish_search session_revalidate session_lookup grant_still_good find store
searched = refl

finish_search-same_session_example :
    (second_state.initialized ≡ true)
    × (second_state.finalizing ≡ false)
    × (second_state.lifecycle ≡ 1)
    × (x : PortalSession) × ((session_lookup 0 second_state 1).0 ≡ some x)
    × (x.serial ≡ 1)
    × (x.find_active ≡ false)
finish_search-same_session_example =
    finish_search-same_session one_cell 0 request false second_state searched_state searched

abbrev ecdsa_row : PortalMechanism
ecdsa_row = record {
  type_of = ecdsa;
  portal_mechanism = codes "ECDSA";
  hash_name = none;
  hash_locally = false;
  digest_info = false;
  infer_hash = true;
  pss = false;
  can_sign = true;
  can_decrypt = false;
}

abbrev ec_grant : Grant
ec_grant = record rsa_grant {
  key_type = some (codes "EC");
  key_size = 256;
  supported_mechanisms = some (codes "ECDSA" ∷ []);
}

abbrev digest : Bytes
digest = replicate 32 0x5a

abbrev signing_session : PortalSession
signing_session = record (fresh_session 1 1 open_flags) {
  sign_active = true;
  sign_mechanism = some ecdsa_row;
  sign_buffer = some digest;
}

has_ecdsa : mechanism_available (some ecdsa_row) ec_grant.supported_mechanisms ≡ true
unfolding mechanism_available contains bytes_eq
has_ecdsa = refl

signing_session-IsSound : IsSound (some ec_grant) signing_session
signing_session-IsSound = record {
  signing = λ _. record {
    granted = ec_grant;
    has_grant = refl;
    is_allowed = refl;
    row = ecdsa_row;
    has_row = refl;
    can_sign = refl;
    is_available = has_ecdsa;
    input = inr (
      refl,
      record {
        no_digest = refl;
        buffer = digest;
        is_buffer = refl;
        is_bounded = omega arith;
        hash = inr (inl refl);
      },
    );
  };
  not_signing = λ h. absurd (ground (arith));
  decrypting = λ h. absurd (ground (arith));
  not_decrypting = λ h. refl;
  finding = λ h. absurd (ground (arith));
}

carried : sign_input one_certificate ecdsa_row signing_session ≡ digest_of (codes "SHA256") digest
unfolding sign_input hash_for_length find
carried = refl

digest-AllBytes : AllBytes digest
digest-AllBytes = ground (arith)

sign_input-IsDigest_example :
    IsDigest (codes "SHA256") digest
    × IsFrom one_certificate ecdsa_row signing_session.sign_hash signing_session.sign_digest
        signing_session.sign_buffer
        (codes "SHA256")
        digest
sign_input-IsDigest_example =
    sign_input-IsDigest one_certificate (some ec_grant) signing_session ecdsa_row (codes "SHA256")
      digest signing_session-IsSound refl refl
      (λ b h. let same : digest ≡ b = ground (arith, h) in subst AllBytes same digest-AllBytes)
      carried
