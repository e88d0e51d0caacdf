-- ===== src/Module/Cryptoki/Perform.antt =====
-- src/module/module.c: what a signature is asked for with, and the calls that ask for it, through
-- `portal_client_sign` and `operation` of src/module/portal.c.
use xdg_desktop_portal_certi.Base.{
  ℕ, Bool, true, not, Option, none, some, ◌==◌, ltb, if◌then◌else◌, length, take, Bytes, codes,
}
use xdg_desktop_portal_certi.Ck.{GnutlsDigest}
use xdg_desktop_portal_certi.Glib.{Dict, empty, entry, string, uint32}
use xdg_desktop_portal_certi.Module.Grant.{Grant, Gnutls}
use xdg_desktop_portal_certi.Module.Mechanism.{
  PortalMechanism, hash_length, hash_for_length, digestinfo_parse,
}
use xdg_desktop_portal_certi.Module.Rv.{
  Rv, ckr_ok, ckr_arguments_bad, ckr_buffer_too_small, ckr_data_invalid, ckr_data_len_range,
  ckr_function_failed, ckr_mechanism_invalid, ckr_operation_not_initialized,
}
use xdg_desktop_portal_certi.Module.Cryptoki.{
  PortalSession, Client, Cryptoki, GError, portal_error, failed, invalidated_grant, Done, returns,
  crashes, refuse, module_check, error_to_rv, reset_sign, grant_gone, operation_session_lookup,
  with_session,
}
use xdg_desktop_portal_certi.Module.Cryptoki.Sign.{
  tls10_md5_sha1_length, signature_length, sign_feed,
}

-- What `operation` puts on the bus: the grant's session, the method and its options.
pub record Wire : Type 0 where
  pub session_path : Option Bytes
  pub method : Bytes
  pub mechanism : Bytes
  pub parameters : Dict
  pub data_key : Bytes
  pub input : Bytes

-- What comes back: an error, or results, with the bytes under the key that is asked for.
pub data Reply : Type 0 where
  refused : GError → Reply
  results : Option Bytes → Reply

-- The portal's answer, and what signals do to the client while the request is out.
pub record Exchange : Type 0 where
  pub meanwhile : Client → Client
  pub reply : Reply

abbrev pub Service : Type 0
Service = Wire → Exchange

abbrev pub client_after : (Client → Client) → Option Client → Option Client
client_after f none = none
client_after f (some client) = some (f client)

-- An answer and the client after it.
pub data Answer : Type 0 where
  gives : Bytes → Option Client → Answer
  fails : GError → Option Client → Answer

abbrev pub take_reply : Option Client → Grant → Reply → Answer
take_reply client grant (refused e) = fails e client
take_reply client grant (results value) =
    if grant_gone client (some grant)
    then fails (portal_error invalidated_grant) client
    else elim value [ none ↦ fails (portal_error failed) client | some bytes ↦ gives bytes client ]

-- `operation`.
unfoldable pub operation : Service → Option Client → Grant → Wire → Answer
operation service client grant wire =
    if grant_gone client (some grant)
    then fails (portal_error invalidated_grant) client
    else take_reply (client_after (service wire).meanwhile client) grant (service wire).reply

abbrev pub add_mgf : Option Bytes → Dict → Dict
add_mgf none d = d
add_mgf (some mgf) d = entry (codes "mgf") (string mgf) d

abbrev pub add_salt : Bool → ℕ → Dict → Dict
add_salt have salt d = if have then entry (codes "salt_length") (uint32 salt) d else d

-- The parameters that `portal_client_sign` builds.
unfoldable pub sign_options : Bytes → Option Bytes → Bool → ℕ → Dict
sign_options hash mgf have_salt salt =
    entry (codes "hash") (string hash) (add_mgf mgf (add_salt have_salt salt empty))

-- What `portal_client_sign` sends.
unfoldable pub sign_wire : Grant → Bytes → Bytes → PortalSession → Bytes → Wire
sign_wire grant mechanism hash x input = record {
  session_path = grant.session_handle;
  method = codes "Sign";
  mechanism = mechanism;
  parameters = sign_options hash x.sign_mgf x.sign_have_salt x.sign_salt;
  data_key = codes "data";
  input = input;
}

-- The hash and the digest that a signature is asked for with, a code, or a read through NULL.
pub data Input : Type 0 where
  digest_of : Bytes → Bytes → Input
  bad_input : Rv → Input
  null_input : Input

abbrev pub named_input : Option Bytes → Bytes → Input
named_input none input = null_input
named_input (some hash) input = digest_of hash input

abbrev pub info_input : Bytes → Option (Bytes × Bytes × ℕ) → Input
info_input buffer none =
    bad_input
      (if length buffer == tls10_md5_sha1_length then ckr_mechanism_invalid else ckr_data_invalid)
info_input buffer (some (hash, digest, size)) = digest_of hash digest

abbrev pub inferred_input : Bytes → Option Bytes → Input
inferred_input buffer none = bad_input ckr_data_len_range
inferred_input buffer (some hash) = digest_of hash buffer

abbrev pub buffer_input : PortalMechanism → Option Bytes → Option Bytes → Input
buffer_input row hash none = null_input
buffer_input row hash (some buffer) =
    if row.digest_info
    then info_input buffer (digestinfo_parse buffer)
    else if row.infer_hash
    then inferred_input buffer (hash_for_length (length buffer))
    else if not (length buffer == hash_length hash)
    then bad_input ckr_data_len_range
    else named_input hash buffer

abbrev pub hashed_input :
    Gnutls → PortalMechanism → Option Bytes → Option (GnutlsDigest × Bytes) → Input
hashed_input lib row hash none = null_input
hashed_input lib row hash (some (digest, fed)) =
    named_input hash (take (hash_length row.hash_name) (lib.hash_output digest fed))

-- `sign_perform` up to its request.
unfoldable pub sign_input : Gnutls → PortalMechanism → PortalSession → Input
sign_input lib row x =
    if row.hash_locally
    then hashed_input lib row x.sign_hash x.sign_digest
    else buffer_input row x.sign_hash x.sign_buffer

-- What a call writes: bytes into its buffer, and the length.
abbrev pub Written : Type 0
Written = Option Bytes × ℕ

abbrev pub with_client : Option Client → Cryptoki → Cryptoki
with_client client s = record s { client = client }

abbrev pub finish_answer : PortalSession → ℕ → Cryptoki → Answer → Done Written
finish_answer x room s (fails e client) =
    returns (error_to_rv e) none (with_session (reset_sign x) (with_client client s))
finish_answer x room s (gives bytes client) =
    let s' = with_session (reset_sign x) (with_client client s) in
    if ltb room (length bytes)
    then returns ckr_function_failed none s'
    else returns ckr_ok (some (some bytes, length bytes)) s'

abbrev pub request_in :
    Service → PortalMechanism → PortalSession → ℕ → Cryptoki → Grant → Input → Done Written
request_in service row x room s grant null_input = crashes
request_in service row x room s grant (bad_input rv) =
    returns rv none (with_session (reset_sign x) s)
request_in service row x room s grant (digest_of hash input) =
    finish_answer x room s
      (operation service s.client grant (sign_wire grant row.portal_mechanism hash x input))

-- The rest of `sign_finish`: `sign_perform`, then the copy into the caller's buffer.
unfoldable pub sign_perform :
    Gnutls
    → Service
    → PortalSession
    → ℕ
    → Cryptoki
    → Option Grant
    → Option PortalMechanism
    → Done Written
sign_perform lib service x room s none row = crashes
sign_perform lib service x room s (some grant) none = crashes
sign_perform lib service x room s (some grant) (some row) =
    request_in service row x room s grant (sign_input lib row x)

-- `sign_finish`: `room` is `*out_len`, with whether `out` is set.
unfoldable pub sign_finish : Gnutls → Service → PortalSession → Bool → ℕ → Cryptoki → Done Written
sign_finish lib service x has_out room s =
    let expected = signature_length s.grant in
    if not has_out
    then returns ckr_ok (some (none, expected)) (with_session x s)
    else if ltb room expected
    then returns ckr_buffer_too_small (some (none, expected)) (with_session x s)
    else sign_perform lib service x room s s.grant x.sign_mechanism

abbrev pub after_feed :
    Gnutls → Service → PortalSession → ℕ → Cryptoki → Option (Rv × PortalSession) → Done Written
after_feed lib service x room s none = crashes
after_feed lib service x room s (some (ckr_ok, x')) = sign_finish lib service x' true room s
after_feed lib service x room s (some (rv, x')) = returns rv none (with_session (reset_sign x') s)

abbrev pub Looked : Type 0
Looked = Rv × Option PortalSession × Cryptoki

abbrev pub sign_in : Gnutls → Service → Option Bytes → ℕ → Bool → ℕ → Looked → Done Written
sign_in lib service memory size has_out room (rv, none, s) = refuse rv s
sign_in lib service memory size has_out room (rv, some x, s) =
    let expected = signature_length s.grant in
    if not x.sign_active
    then refuse ckr_operation_not_initialized s
    else if not has_out
    then returns ckr_ok (some (none, expected)) s
    else if ltb room expected
    then returns ckr_buffer_too_small (some (none, expected)) s
    else after_feed lib service x room s (sign_feed lib x memory size)

-- `C_Sign`: the data and its size, whether `signature` is set, and `*signature_len` or none where that
-- pointer is NULL.
unfoldable pub c_sign :
    Bool → Gnutls → Service → ℕ → ℕ → Option Bytes → ℕ → Bool → Option ℕ → Cryptoki → Done Written
c_sign checked lib service real_time handle memory size has_out none s =
    module_check checked s (refuse ckr_arguments_bad s)
c_sign checked lib service real_time handle memory size has_out (some room) s =
    module_check checked s
      (sign_in lib service memory size has_out room (operation_session_lookup real_time s handle))

abbrev pub update_fed : Cryptoki → Option (Rv × PortalSession) → Done (Unit {0})
update_fed s none = crashes
update_fed s (some (ckr_ok, x')) = returns ckr_ok none (with_session x' s)
update_fed s (some (rv, x')) = returns rv none (with_session (reset_sign x') s)

abbrev pub update_in : Gnutls → Option Bytes → ℕ → Looked → Done (Unit {0})
update_in lib memory size (rv, none, s) = refuse rv s
update_in lib memory size (rv, some x, s) =
    if not x.sign_active
    then refuse ckr_operation_not_initialized s
    else update_fed s (sign_feed lib x memory size)

-- `C_SignUpdate`.
unfoldable pub c_sign_update : Bool → Gnutls → ℕ → ℕ → Option Bytes → ℕ → Cryptoki → Done (Unit {0})
c_sign_update checked lib real_time handle memory size s =
    module_check checked s (update_in lib memory size (operation_session_lookup real_time s handle))

abbrev pub final_in : Gnutls → Service → Bool → ℕ → Looked → Done Written
final_in lib service has_out room (rv, none, s) = refuse rv s
final_in lib service has_out room (rv, some x, s) =
    if not x.sign_active
    then refuse ckr_operation_not_initialized s
    else sign_finish lib service x has_out room s

-- `C_SignFinal`.
unfoldable pub c_sign_final :
    Bool → Gnutls → Service → ℕ → ℕ → Bool → Option ℕ → Cryptoki → Done Written
c_sign_final checked lib service real_time handle has_out none s =
    module_check checked s (refuse ckr_arguments_bad s)
c_sign_final checked lib service real_time handle has_out (some room) s =
    module_check checked s
      (final_in lib service has_out room (operation_session_lookup real_time s handle))
