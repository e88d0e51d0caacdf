-- ===== src/Ck.antt =====
-- The PKCS#11 and GnuTLS constants that src/broker and src/module name. Their headers are not part
-- of the repository: a constant is a constructor, so two names stand for two values, and any value
-- that the program does not name is `unlisted`.
use xdg_desktop_portal_certi.Base.{ℕ, ◌≡◌, ◌↔◌, Bool, true, false, refl, arith}
use native.Mathlib.Decide.{ℕ_discrete}

-- `CK_MECHANISM_TYPE`, with the prefix `CKM_` left off.
pub data CkMechanism : Type 0 where
  rsa_pkcs sha1_rsa_pkcs sha224_rsa_pkcs sha256_rsa_pkcs sha384_rsa_pkcs : CkMechanism
  sha512_rsa_pkcs rsa_pkcs_pss sha1_rsa_pkcs_pss sha224_rsa_pkcs_pss : CkMechanism
  sha256_rsa_pkcs_pss sha384_rsa_pkcs_pss sha512_rsa_pkcs_pss ecdsa ecdsa_sha1 : CkMechanism
  ecdsa_sha224 ecdsa_sha256 ecdsa_sha384 ecdsa_sha512 rsa_pkcs_oaep : CkMechanism
  sha_1 sha224 sha256 sha384 sha512 : CkMechanism
  unlisted : ℕ → CkMechanism

-- `CK_RSA_PKCS_MGF_TYPE`, with the prefix `CKG_` left off.
pub data CkMgf : Type 0 where
  mgf1_sha1 mgf1_sha224 mgf1_sha256 mgf1_sha384 mgf1_sha512 : CkMgf
  unlisted_mgf : ℕ → CkMgf

-- `gnutls_digest_algorithm_t`, with the prefix `GNUTLS_` left off.
pub data GnutlsDigest : Type 0 where
  dig_sha1 dig_sha224 dig_sha256 dig_sha384 dig_sha512 dig_unknown : GnutlsDigest

CkMechanism-discrete : Discrete CkMechanism
CkMechanism-discrete = hlevel ℕ_discrete

CkMgf-discrete : Discrete CkMgf
CkMgf-discrete = hlevel ℕ_discrete

-- The test that a decision makes.
abbrev pub holds {ℓ} : {A : Type ℓ} → Dec A → Bool
holds (yes _) = true
holds (no _) = false

pub holds_iff {ℓ} : {A : Type ℓ} (d : Dec A) → (holds d ≡ true) ↔ A
holds_iff (yes a) = ((λ _. a), (λ _. refl))
holds_iff (no n) = ((λ h. absurd (ground arith)), (λ a. absurd (n a)))

unfoldable pub same_ck : CkMechanism → CkMechanism → Bool
unfolding CkMechanism-discrete
same_ck a b = holds (CkMechanism-discrete a b)

pub same_ck_iff : (a b : CkMechanism) → (same_ck a b ≡ true) ↔ (a ≡ b)
unfolding same_ck
same_ck_iff a b = holds_iff (CkMechanism-discrete a b)

unfoldable pub same_mgf : CkMgf → CkMgf → Bool
unfolding CkMgf-discrete
same_mgf a b = holds (CkMgf-discrete a b)

-- `CK_RSA_PKCS_OAEP_SOURCE_TYPE`, with the prefix `CKZ_` left off.
pub data CkSource : Type 0 where
  data_specified : CkSource
  unlisted_source : ℕ → CkSource
