-- ===== src/Module/Cryptoki/Sign.antt =====
-- src/module/module.c: signing, with `portal_client_sign` and `operation` of src/module/portal.c. What the
-- portal answers to a request, and the signals that come meanwhile, are a parameter.
use xdg_desktop_portal_certi.Base.{
  ℕ, ◌+◌, ◌-◌, ◌*◌, ◌/◌, ◌%◌, ◌^◌, Bool, true, false, not, ◌&&◌, ◌||◌, [], ◌∷◌, ◌++◌, Option, none,
  some, ◌==◌, ltb, if◌then◌else◌, length, Bytes, bytes_eq, codes,
}
use xdg_desktop_portal_certi.Ck.{CkMechanism, GnutlsDigest}
use xdg_desktop_portal_certi.Glib.{is_text}
use xdg_desktop_portal_certi.Broker.Mechanism.{Pss, Oaep}
use xdg_desktop_portal_certi.Module.Grant.{Grant, Gnutls}
use xdg_desktop_portal_certi.Module.Mechanism.{
  PortalMechanism, mechanism_lookup, mechanism_available, hash_gnutls, hash_from_ck_digest,
  mgf_hash, mgf_name,
}
use xdg_desktop_portal_certi.Module.Objects.{Object, objects_lookup}
use xdg_desktop_portal_certi.Module.Rv.{
  Rv, ckr_ok, ckr_arguments_bad, ckr_data_len_range, ckr_function_failed,
  ckr_key_function_not_permitted, ckr_key_handle_invalid, ckr_key_type_inconsistent,
  ckr_mechanism_invalid, ckr_mechanism_param_invalid, ckr_operation_active,
  ckr_session_handle_invalid, Abi,
}
use xdg_desktop_portal_certi.Module.Cryptoki.{
  PortalSession, Cryptoki, Done, returns, refuse, module_check, reset_sign, session_lookup,
  with_session,
}

-- `CK_MECHANISM`: the memory at `pParameter`, NULL as `none`, as the two structures that the code reads
-- it as, and its length.
pub record Memory : Type 0 where
  pub as_pss : Pss
  pub as_oaep : Oaep

pub record MechanismArg : Type 0 where
  pub mechanism : CkMechanism
  pub parameter : Option Memory
  pub parameter_len : ℕ

-- `PRE_HASHED_LIMIT` and `TLS10_MD5_SHA1_LENGTH`.
abbrev pub pre_hashed_limit : ℕ
pre_hashed_limit = 512

abbrev pub tls10_md5_sha1_length : ℕ
tls10_md5_sha1_length = 36

abbrev pub length_for : Grant → ℕ
length_for grant =
    if grant.key_size == 0
    then 0
    else if is_text grant.key_type (codes "EC")
    then 2 * ((grant.key_size + 7) / 8)
    else (grant.key_size + 7) / 8

-- `signature_length`.
unfoldable pub signature_length : Option Grant → ℕ
signature_length none = 0
signature_length (some grant) = length_for grant

-- A hash and a mask generation function of the parameters, which must name one hash.
abbrev pub set_pss : Pss → Option Bytes → Option Bytes → PortalSession → Option PortalSession
set_pss p none mgf x = none
set_pss p (some hash) none x = none
set_pss p (some hash) (some mgf) x =
    if not (bytes_eq mgf hash)
    then none
    else if not (p.salt == p.salt % 2 ^ 32)
    then none
    else some (record x {
      sign_hash = some hash;
      sign_mgf = mgf_name p.mgf;
      sign_have_salt = true;
      sign_salt = p.salt % 2 ^ 32;
    })

-- The hash of the parameters is the mechanism's, where the mechanism has one.
abbrev pub hash_agrees : Option Bytes → Option Bytes → Bool
hash_agrees none hash = true
hash_agrees (some own) hash = is_text hash own

abbrev pub pss_in :
    Abi → PortalMechanism → MechanismArg → PortalSession → Option Memory → Option PortalSession
pss_in abi row arg x none = none
pss_in abi row arg x (some memory) =
    let hash = hash_from_ck_digest memory.as_pss.hash_alg in
    if not (arg.parameter_len == abi.pss_params_size)
    then none
    else if not (hash_agrees row.hash_name hash)
    then none
    else set_pss memory.as_pss hash (mgf_hash memory.as_pss.mgf) x

abbrev pub no_parameter : MechanismArg → Option Memory → Bool
no_parameter arg none = arg.parameter_len == 0
no_parameter arg (some memory) = false

-- The parameters of a mechanism, none where they are wrong.
unfoldable pub sign_parameters :
    Abi → PortalMechanism → MechanismArg → PortalSession → Option PortalSession
sign_parameters abi row arg x =
    let plain = record x { sign_hash = row.hash_name; sign_mgf = none; sign_have_salt = false } in
    if row.pss
    then pss_in abi row arg plain arg.parameter
    else if no_parameter arg arg.parameter
    then some plain
    else none

abbrev pub activate : PortalMechanism → PortalSession → PortalSession
activate row x = record x { sign_mechanism = some row; sign_active = true }

abbrev pub start_input : Gnutls → PortalMechanism → Option PortalSession → Rv × Option PortalSession
start_input lib row none = (ckr_mechanism_param_invalid, none)
start_input lib row (some x) =
    if not row.hash_locally
    then (ckr_ok, some (activate row (record x { sign_buffer = some [] })))
    else if lib.hash_init (hash_gnutls row.hash_name)
    then (
      ckr_ok,
      some (activate row (record x { sign_digest = some (hash_gnutls row.hash_name, []) })),
    )
    else (ckr_function_failed, none)

abbrev pub setup_row :
    Gnutls
    → Abi
    → Grant
    → MechanismArg
    → PortalSession
    → Option PortalMechanism
    → Rv × Option PortalSession
setup_row lib abi grant arg x none = (ckr_mechanism_invalid, none)
setup_row lib abi grant arg x (some row) =
    if not row.can_sign
    then (ckr_mechanism_invalid, none)
    else if not (mechanism_available (some row) grant.supported_mechanisms)
    then (ckr_mechanism_invalid, none)
    else if bytes_eq row.portal_mechanism (codes "ECDSA")
        && not (is_text grant.key_type (codes "EC"))
    then (ckr_key_type_inconsistent, none)
    else if not (bytes_eq row.portal_mechanism (codes "ECDSA"))
        && is_text grant.key_type (codes "EC")
    then (ckr_key_type_inconsistent, none)
    else start_input lib row (sign_parameters abi row arg x)

-- `sign_setup`: the session that CKR_OK leaves. Any other code is followed by `session_reset_sign`.
unfoldable pub sign_setup :
    Gnutls → Abi → Grant → MechanismArg → PortalSession → Rv × Option PortalSession
sign_setup lib abi grant arg x = setup_row lib abi grant arg x (mechanism_lookup arg.mechanism)

abbrev pub after_setup : PortalSession → Cryptoki → Rv × Option PortalSession → Done (Unit {0})
after_setup x s (rv, none) = returns rv none (with_session (reset_sign x) s)
after_setup x s (rv, some x') = returns rv none (with_session x' s)

abbrev pub is_private : Abi → Option Object → Bool
is_private abi none = false
is_private abi (some object) = object.object_class == abi.cko_private_key

abbrev pub init_granted :
    Gnutls → Abi → MechanismArg → ℕ → PortalSession → Cryptoki → Option Grant → Done (Unit {0})
init_granted lib abi arg key x s none = refuse ckr_key_handle_invalid s
init_granted lib abi arg key x s (some grant) =
    if not (is_private abi (objects_lookup s.objects key))
    then refuse ckr_key_handle_invalid s
    else if not grant.may_sign
    then refuse ckr_key_function_not_permitted s
    else after_setup x s (sign_setup lib abi grant arg x)

abbrev pub sign_init_in :
    Gnutls → Abi → MechanismArg → ℕ → Option PortalSession × Cryptoki → Done (Unit {0})
sign_init_in lib abi arg key (none, s) = refuse ckr_session_handle_invalid s
sign_init_in lib abi arg key (some x, s) =
    if x.sign_active
    then refuse ckr_operation_active s
    else init_granted lib abi arg key x s s.grant

-- `C_SignInit`, on a mechanism or NULL.
unfoldable pub c_sign_init :
    Bool → Gnutls → Abi → ℕ → ℕ → Option MechanismArg → ℕ → Cryptoki → Done (Unit {0})
c_sign_init checked lib abi real_time handle none key s =
    module_check checked s (refuse ckr_arguments_bad s)
c_sign_init checked lib abi real_time handle (some arg) key s =
    module_check checked s (sign_init_in lib abi arg key (session_lookup real_time s handle))

abbrev pub feed_buffer : PortalSession → Bytes → Option Bytes → Option (Rv × PortalSession)
feed_buffer x new none = none
feed_buffer x new (some buffer) =
    if ltb pre_hashed_limit (length buffer) || ltb (pre_hashed_limit - length buffer) (length new)
    then some (ckr_data_len_range, x)
    else some (ckr_ok, record x { sign_buffer = some (buffer ++ new) })

abbrev pub feed_input :
    Gnutls → PortalSession → Bytes → Option (GnutlsDigest × Bytes) → Option (Rv × PortalSession)
feed_input lib x new none = feed_buffer x new x.sign_buffer
feed_input lib x new (some (digest, fed)) =
    if lib.hash_update digest fed new
    then some (ckr_ok, record x { sign_digest = some (digest, fed ++ new) })
    else some (ckr_function_failed, x)

-- `sign_feed`, on the bytes that the caller's pointer and size name, NULL as `none` with its size. None
-- where the buffer is read through NULL.
unfoldable pub sign_feed : Gnutls → PortalSession → Option Bytes → ℕ → Option (Rv × PortalSession)
sign_feed lib x none size = some ((if size == 0 then ckr_ok else ckr_arguments_bad), x)
sign_feed lib x (some []) size = some (ckr_ok, x)
sign_feed lib x (some (b ∷ bs)) size = feed_input lib x (b ∷ bs) x.sign_digest
