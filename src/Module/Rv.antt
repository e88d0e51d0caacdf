-- ===== src/Module/Rv.antt =====
-- `CK_RV` and the other PKCS#11 names of src/module/objects.c and src/module/module.c, with the standard's
-- values left open: a constant that only names itself is a constructor, one that is stored in memory is a
-- field of `Abi`, with what the code relies on.
use native.Mathlib.Decide.{ℕ_discrete}
use xdg_desktop_portal_certi.Base.{ℕ, ◌≡◌, ◌≢◌, ◌↔◌, Bool, true, Bytes, length}
use xdg_desktop_portal_certi.Ck.{holds, holds_iff}

-- `CK_RV`, with the prefix `CKR_` kept.
pub data Rv : Type 0 where
  ckr_ok ckr_arguments_bad ckr_attribute_sensitive ckr_attribute_type_invalid : Rv
  ckr_buffer_too_small ckr_cant_lock ckr_cryptoki_already_initialized : Rv
  ckr_cryptoki_not_initialized ckr_data_invalid ckr_data_len_range ckr_device_error : Rv
  ckr_device_removed ckr_function_canceled ckr_function_failed ckr_function_not_supported : Rv
  ckr_key_function_not_permitted ckr_key_handle_invalid ckr_key_type_inconsistent : Rv
  ckr_mechanism_invalid ckr_mechanism_param_invalid ckr_no_event : Rv
  ckr_object_handle_invalid ckr_operation_active ckr_operation_not_initialized : Rv
  ckr_pin_locked ckr_session_handle_invalid ckr_session_parallel_not_supported : Rv
  ckr_slot_id_invalid ckr_token_not_present ckr_token_write_protected : Rv
  ckr_user_already_logged_in ckr_user_not_logged_in ckr_user_type_invalid : Rv

-- `CK_ATTRIBUTE_TYPE`, with the prefix `CKA_` left off.
pub data CkAttribute : Type 0 where
  class token private_object modifiable destroyable trusted certificate_type : CkAttribute
  certificate_category label id subject issuer serial_number value local key_type : CkAttribute
  verify verify_recover encrypt wrap derive sign sign_recover decrypt unwrap sensitive : CkAttribute
  always_sensitive extractable never_extractable always_authenticate modulus : CkAttribute
  modulus_bits public_exponent ec_params ec_point private_exponent prime_1 prime_2 : CkAttribute
  exponent_1 exponent_2 coefficient : CkAttribute
  unlisted_attribute : ℕ → CkAttribute

CkAttribute-discrete : Discrete CkAttribute
CkAttribute-discrete = hlevel ℕ_discrete

unfoldable pub same_attribute : CkAttribute → CkAttribute → Bool
unfolding CkAttribute-discrete
same_attribute a b = holds (CkAttribute-discrete a b)

pub same_attribute_iff : (a b : CkAttribute) → (same_attribute a b ≡ true) ↔ (a ≡ b)
unfolding same_attribute
same_attribute_iff a b = holds_iff (CkAttribute-discrete a b)

-- The memory of a `CK_ULONG`, and the constants that attributes store. Of them the code relies on this:
-- a number that was stored is read back, and the three classes are distinct.
pub record Abi : Type 0 where
  pub ulong : ℕ → Bytes
  pub read_ulong : Bytes → ℕ
  pub ulong_size : ℕ
  pub unavailable : ℕ
  pub pss_params_size : ℕ
  pub oaep_params_size : ℕ
  pub ck_true : ℕ
  pub ck_false : ℕ
  pub cko_certificate : ℕ
  pub cko_public_key : ℕ
  pub cko_private_key : ℕ
  pub ckk_rsa : ℕ
  pub ckk_ec : ℕ
  pub ckc_x_509 : ℕ
  pub category_token_user : ℕ
  pub read_ulong-ulong : (n : ℕ) → read_ulong (ulong n) ≡ n
  pub length-ulong : (n : ℕ) → length (ulong n) ≡ ulong_size
  pub private_not_certificate : cko_private_key ≢ cko_certificate
  pub private_not_public : cko_private_key ≢ cko_public_key
