-- ===== src/Broker/Mechanism/Parse/Checked.antt =====
-- What a successful parse has checked, and that a parse does not run into a failed assertion.
use xdg_desktop_portal_certi.Base.{ℕ, ◌≡◌, refl, true, false, Option, none, some, arith, Bytes}
use xdg_desktop_portal_certi.Base.Result.{ok}
use xdg_desktop_portal_certi.Glib.{Dict, AsciiCase}
use xdg_desktop_portal_certi.Broker.Mechanism.{Mechanism}
use xdg_desktop_portal_certi.Broker.Mechanism.Parse.{
  parameters_are_known, parse_decrypt, mechanism_parse,
}
use xdg_desktop_portal_certi.Broker.Mechanism.Parse.Decrypt.{
  IsOaep, IsAsked, parse_decrypt-IsOaep, parse_decrypt-IsAsked,
}
use xdg_desktop_portal_certi.Broker.Mechanism.Parse.Sign.{IsSigning, parse_sign-IsSigning}

module _ (ascii : AsciiCase) (name : Option Bytes) (d : Option Dict) (kt : Option Bytes)
    (ks : ℕ) where
  -- A mechanism that is accepted for decryption was named, has only the parameters that decryption
  -- knows, and is RSA-OAEP on an RSA key: with the hash that the request asks for, which a `mgf1_hash`
  -- that is given names as well, in both of its uses, a label of at most 256 bytes, a ciphertext of the
  -- modulus's length, and a modulus with room for the padding.
  pub mechanism_parse-decrypt :
      (m : Mechanism)
      → mechanism_parse ascii name d kt ks true ≡ ok m
      → (n : Bytes) × (name ≡ some n)
        × (parameters_are_known d true ≡ true)
        × IsOaep n kt ks m
        × IsAsked ascii d m
  mechanism_parse-decrypt m h = go name h
    where
      go :
          (o : Option Bytes)
          → mechanism_parse ascii o d kt ks true ≡ ok m
          → (n : Bytes) × (o ≡ some n)
            × (parameters_are_known d true ≡ true)
            × IsOaep n kt ks m
            × IsAsked ascii d m
      go none h = absurd (unfold mechanism_parse in ground arith)
      go (some n) h =
          let parsed : parse_decrypt ascii n d kt ks ≡ ok m =
            unfold mechanism_parse in ground arith in
          (
            n,
            refl,
            unfold mechanism_parse in ground arith,
            parse_decrypt-IsOaep ascii n d kt ks m parsed,
            parse_decrypt-IsAsked ascii n d kt ks m parsed,
          )

  -- A mechanism that is accepted for signing was named, has only the parameters that signing knows, and
  -- is of one of three kinds, each on a key of its type: PKCS#1 v1.5 with its hash's DigestInfo prefix,
  -- PSS, or ECDSA. Its input is a digest of its hash's length, and an RSA modulus has room for the padding.
  pub mechanism_parse-sign :
      (m : Mechanism)
      → mechanism_parse ascii name d kt ks false ≡ ok m
      → (n : Bytes) × (name ≡ some n) × (parameters_are_known d false ≡ true) × IsSigning n kt ks m
  mechanism_parse-sign m h = go name h
    where
      go :
          (o : Option Bytes)
          → mechanism_parse ascii o d kt ks false ≡ ok m
          → (n : Bytes) × (o ≡ some n) × (parameters_are_known d false ≡ true) × IsSigning n kt ks m
      go none h = absurd (unfold mechanism_parse in ground arith)
      go (some n) h = (
        n,
        refl,
        unfold mechanism_parse in ground arith,
        parse_sign-IsSigning ascii n d kt ks m (unfold mechanism_parse in ground arith),
      )
