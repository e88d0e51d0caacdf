-- ===== src/Tokens/Filter/Operations.antt =====
-- What a purpose lets a candidate do: the bits of `certificate_purpose_operations`, and through them
-- the candidates that a filter offers for one operation.
use xdg_desktop_portal_certi.Base.{
  ℕ, ◌≡◌, refl, ◌⊎◌, inl, inr, true, Bool-cases, List, arith, All, All-map, bytes_eq, bytes_eq_iff,
  codes,
}
use xdg_desktop_portal_certi.Glib.{AsciiCase}
use xdg_desktop_portal_certi.Tokens.Filter.{
  Candidate, Filter, Purpose, client_auth, signing, email, ssh, other_purpose, operation_sign,
  operation_decrypt, candidate_signs, candidate_decrypts, key_usage_allows_signing,
  key_usage_allows_decryption, eku_allows, eku_email_protection, purpose_operations,
  purpose_matches, filter_matches, filter_apply,
}
use xdg_desktop_portal_certi.Tokens.Filter.Order.{filter_apply-All}

-- What a candidate that is offered for decryption has.
unfoldable pub Decrypts : Candidate → Type 0
Decrypts c =
    (c.can_decrypt ≡ true)
    × (key_usage_allows_decryption c ≡ true)
    × (eku_allows c eku_email_protection ≡ true)

-- What a candidate that is offered for signing has.
unfoldable pub Signs : Candidate → Purpose → Type 0
Signs c p =
    (c.can_sign ≡ true)
    × ((key_usage_allows_signing c ≡ true)
        ⊎ ((p ≡ ssh) × ((c.key_type ≡ codes "RSA") ⊎ (c.key_type ≡ codes "EC"))))

matches-Decrypts :
    (c : Candidate) (p : Purpose)
    → purpose_matches c p operation_decrypt ≡ true
    → (p ≡ email) × Decrypts c
unfolding purpose_matches purpose_operations candidate_signs candidate_decrypts Decrypts
matches-Decrypts c client_auth h = absurd (ground arith)
matches-Decrypts c signing h = absurd (ground arith)
matches-Decrypts c email h = (refl, ground arith)
matches-Decrypts c ssh h = absurd (ground arith)
matches-Decrypts c (other_purpose n) h = absurd (ground arith)

matches-Signs :
    (c : Candidate) (p : Purpose) → purpose_matches c p operation_sign ≡ true → Signs c p
unfolding purpose_matches purpose_operations candidate_signs candidate_decrypts Signs
matches-Signs c client_auth h = (ground arith, inl (ground arith))
matches-Signs c signing h = (ground arith, inl (ground arith))
matches-Signs c email h = (ground arith, inl (ground arith))
matches-Signs c ssh h = elim (Bool-cases (bytes_eq c.key_type (codes "RSA"))) [
  | inl e ↦ (ground arith, inr (refl, inl ((bytes_eq_iff c.key_type (codes "RSA")).0 e)))
  | inr e ↦
      (ground arith, inr (refl, inr ((bytes_eq_iff c.key_type (codes "EC")).0 (ground arith))))
]
matches-Signs c (other_purpose n) h = absurd (ground arith)

module _ (ascii : AsciiCase) (f : Filter) (now : ℕ) (cs : List Candidate) where
  filter_matches-purpose :
      (c : Candidate)
      → filter_matches ascii c f ≡ true
      → purpose_matches c f.purpose f.operations ≡ true
  unfolding filter_matches
  filter_matches-purpose c h = ground arith

  -- A filter for decryption offers only certificates whose key can decrypt, whose key usage and
  -- extended key usage allow it, and none at all unless the purpose is email.
  pub filter_apply-Decrypts :
      f.operations ≡ operation_decrypt
      → All (λ c. (f.purpose ≡ email) × Decrypts c) (filter_apply ascii now cs f)
  filter_apply-Decrypts h =
      All-map (λ c m. matches-Decrypts c f.purpose (rw h at (filter_matches-purpose c m)))
        (filter_apply ascii now cs f) (filter_apply-All ascii f now cs)

  -- A filter for signing offers only certificates whose key can sign and whose key usage allows it, or,
  -- for SSH, where key usage is not asked for, whose key is an RSA or an EC key.
  pub filter_apply-Signs :
      f.operations ≡ operation_sign → All (λ c. Signs c f.purpose) (filter_apply ascii now cs f)
  filter_apply-Signs h =
      All-map (λ c m. matches-Signs c f.purpose (rw h at (filter_matches-purpose c m)))
        (filter_apply ascii now cs f) (filter_apply-All ascii f now cs)
