-- ===== src/Module/Cryptoki/Decrypt.antt =====
-- src/module/module.c: decryption, with `portal_client_decrypt` of src/module/portal.c.
use xdg_desktop_portal_certi.Base.{
  ℕ, Bool, true, false, not, ◌||◌, Option, none, some, ◌==◌, ltb, if◌then◌else◌, length, take,
  Bytes, bytes_eq, codes,
}
use xdg_desktop_portal_certi.Ck.{CkSource, data_specified, rsa_pkcs_oaep, same_ck}
use xdg_desktop_portal_certi.Glib.{Dict, empty, entry, string, byte_array}
use xdg_desktop_portal_certi.Broker.Mechanism.{Oaep}
use xdg_desktop_portal_certi.Module.Grant.{Grant}
use xdg_desktop_portal_certi.Module.Mechanism.{
  mechanism_lookup, mechanism_available, hash_from_ck_digest, mgf_hash,
}
use xdg_desktop_portal_certi.Module.Objects.{objects_lookup}
use xdg_desktop_portal_certi.Module.Rv.{
  ckr_ok, ckr_arguments_bad, ckr_buffer_too_small, ckr_key_function_not_permitted,
  ckr_key_handle_invalid, ckr_mechanism_invalid, ckr_mechanism_param_invalid, ckr_operation_active,
  ckr_operation_not_initialized, ckr_session_handle_invalid, Abi,
}
use xdg_desktop_portal_certi.Module.Cryptoki.{
  PortalSession, Cryptoki, Done, returns, crashes, refuse, module_check, error_to_rv, reset_decrypt,
  session_lookup, operation_session_lookup, with_session,
}
use xdg_desktop_portal_certi.Module.Cryptoki.Sign.{
  Memory, MechanismArg, signature_length, is_private,
}
use xdg_desktop_portal_certi.Module.Cryptoki.Perform.{
  Wire, Service, Answer, gives, fails, operation, Written, with_client, Looked,
}

-- `PKCS11_PORTAL_REASON_MAX`.
abbrev pub reason_max : ℕ
reason_max = 256

abbrev pub is_specified : CkSource → Bool
is_specified data_specified = true
is_specified _ = false

abbrev pub specified_label : Oaep → Option Bytes → Option (Option Bytes)
specified_label p none = none
specified_label p (some memory) =
    if not (is_specified p.source) || ltb reason_max p.source_len
    then none
    else some (some (take p.source_len memory))

-- The label of the parameters, if it is one: none where the code refuses the parameters.
unfoldable pub label_of : Oaep → Option (Option Bytes)
label_of p = if p.source_len == 0 then some none else specified_label p p.source_data

abbrev pub set_decrypt :
    PortalSession → Bytes → Bytes → Option (Option Bytes) → Option PortalSession
set_decrypt x hash mgf none = none
set_decrypt x hash mgf (some label) = some (record x {
  decrypt_label = label;
  decrypt_hash = some hash;
  decrypt_mgf1_hash = some mgf;
  decrypt_active = true;
})

abbrev pub set_hashes : PortalSession → Oaep → Option Bytes → Option Bytes → Option PortalSession
set_hashes x p none mgf = none
set_hashes x p (some hash) none = none
set_hashes x p (some hash) (some mgf) =
    if bytes_eq hash mgf then set_decrypt x hash mgf (label_of p) else none

abbrev pub parameters_in : Abi → MechanismArg → PortalSession → Option Memory → Option PortalSession
parameters_in abi arg x none = none
parameters_in abi arg x (some memory) =
    let p = memory.as_oaep in
    if not (arg.parameter_len == abi.oaep_params_size)
    then none
    else set_hashes x p (hash_from_ck_digest p.hash_alg) (mgf_hash p.mgf)

-- The session that the parameters of RSA-OAEP start a decryption on.
unfoldable pub decrypt_setup : Abi → MechanismArg → PortalSession → Option PortalSession
decrypt_setup abi arg x = parameters_in abi arg x arg.parameter

abbrev pub after_setup : Cryptoki → Option PortalSession → Done (Unit {0})
after_setup s none = refuse ckr_mechanism_param_invalid s
after_setup s (some x) = returns ckr_ok none (with_session x s)

abbrev pub init_granted :
    Abi → MechanismArg → ℕ → PortalSession → Cryptoki → Option Grant → Done (Unit {0})
init_granted abi arg key x s none = refuse ckr_key_handle_invalid s
init_granted abi arg key x s (some grant) =
    if not (is_private abi (objects_lookup s.objects key))
    then refuse ckr_key_handle_invalid s
    else if not grant.may_decrypt
    then refuse ckr_key_function_not_permitted s
    else if not (mechanism_available (mechanism_lookup rsa_pkcs_oaep) grant.supported_mechanisms)
    then refuse ckr_mechanism_invalid s
    else after_setup s (decrypt_setup abi arg x)

abbrev pub decrypt_init_in :
    Abi → MechanismArg → ℕ → Option PortalSession × Cryptoki → Done (Unit {0})
decrypt_init_in abi arg key (none, s) = refuse ckr_session_handle_invalid s
decrypt_init_in abi arg key (some x, s) =
    if x.decrypt_active then refuse ckr_operation_active s else init_granted abi arg key x s s.grant

-- `C_DecryptInit`.
unfoldable pub c_decrypt_init :
    Bool → Abi → ℕ → ℕ → Option MechanismArg → ℕ → Cryptoki → Done (Unit {0})
c_decrypt_init checked abi real_time handle none key s =
    module_check checked s (refuse ckr_arguments_bad s)
c_decrypt_init checked abi real_time handle (some arg) key s = module_check checked s (
    if not (same_ck arg.mechanism rsa_pkcs_oaep)
    then refuse ckr_mechanism_invalid s
    else decrypt_init_in abi arg key (session_lookup real_time s handle))

abbrev pub add_mgf1 : Option Bytes → Dict → Dict
add_mgf1 none d = d
add_mgf1 (some hash) d = entry (codes "mgf1_hash") (string hash) d

abbrev pub add_label : Option Bytes → Dict → Dict
add_label none d = d
add_label (some label) d = entry (codes "label") (byte_array label) d

-- The parameters that `portal_client_decrypt` builds.
unfoldable pub decrypt_options : Bytes → Option Bytes → Option Bytes → Dict
decrypt_options hash mgf1_hash label =
    entry (codes "hash") (string hash) (add_mgf1 mgf1_hash (add_label label empty))

-- What `portal_client_decrypt` sends.
unfoldable pub decrypt_wire : Grant → Bytes → PortalSession → Bytes → Wire
decrypt_wire grant hash x ciphertext = record {
  session_path = grant.session_handle;
  method = codes "Decrypt";
  mechanism = codes "RSA_OAEP";
  parameters = decrypt_options hash x.decrypt_mgf1_hash x.decrypt_label;
  data_key = codes "ciphertext";
  input = ciphertext;
}

abbrev pub decrypt_answer : PortalSession → ℕ → Cryptoki → Answer → Done Written
decrypt_answer x room s (fails e client) =
    returns (error_to_rv e) none (with_session (reset_decrypt x) (with_client client s))
decrypt_answer x room s (gives bytes client) =
    if ltb room (length bytes)
    then returns ckr_buffer_too_small (some (none, length bytes)) (with_client client s)
    else returns ckr_ok (some (some bytes, length bytes))
        (with_session (reset_decrypt x) (with_client client s))

-- `portal_client_decrypt` and what follows it: a grant or a hash that is NULL is read through.
unfoldable pub decrypt_perform :
    Service → PortalSession → Bytes → ℕ → Cryptoki → Option Grant → Option Bytes → Done Written
decrypt_perform service x ciphertext room s none hash = crashes
decrypt_perform service x ciphertext room s (some grant) none = crashes
decrypt_perform service x ciphertext room s (some grant) (some hash) =
    decrypt_answer x room s
      (operation service s.client grant (decrypt_wire grant hash x ciphertext))

abbrev pub decrypt_given : Service → PortalSession → Option Bytes → ℕ → Cryptoki → Done Written
decrypt_given service x none room s =
    returns ckr_arguments_bad none (with_session (reset_decrypt x) s)
decrypt_given service x (some ciphertext) room s =
    decrypt_perform service x ciphertext room s s.grant x.decrypt_hash

abbrev pub decrypt_in : Service → Option Bytes → Bool → ℕ → Looked → Done Written
decrypt_in service ciphertext has_out room (rv, none, s) = refuse rv s
decrypt_in service ciphertext has_out room (rv, some x, s) =
    if not x.decrypt_active
    then refuse ckr_operation_not_initialized s
    else if not has_out
    then returns ckr_ok (some (none, signature_length s.grant)) s
    else decrypt_given service x ciphertext room s

-- `C_Decrypt`: the ciphertext or NULL, whether `plaintext` is set, and `*plaintext_len`.
unfoldable pub c_decrypt :
    Bool → Service → ℕ → ℕ → Option Bytes → Bool → Option ℕ → Cryptoki → Done Written
c_decrypt checked service real_time handle ciphertext has_out none s =
    module_check checked s (refuse ckr_arguments_bad s)
c_decrypt checked service real_time handle ciphertext has_out (some room) s =
    module_check checked s
      (decrypt_in service ciphertext has_out room (operation_session_lookup real_time s handle))
