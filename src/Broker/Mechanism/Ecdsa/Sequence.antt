-- ===== src/Broker/Mechanism/Ecdsa/Sequence.antt =====
-- A raw signature becomes the DER encoding of its two numbers.
use xdg_desktop_portal_certi.Base.{
  ℕ, ◌+◌, ◌*◌, ◌/◌, ◌%◌, ◌^◌, ◌<◌, ◌≡◌, refl, sym, ap, false, not, ◌||◌, ◌++◌, arith, ◌==◌, ltb,
  leb, Bool-cases, inl, inr, length, length-append, length-take, length-drop, take, drop,
  take-length, Bytes, AllBytes, All-take, All-drop,
}
use xdg_desktop_portal_certi.Base.{subst}
use xdg_desktop_portal_certi.Base.Result.{ok}
use xdg_desktop_portal_certi.Broker.Mechanism.Ecdsa.{sequence_header, raw_to_der}
use xdg_desktop_portal_certi.Broker.Mechanism.Ecdsa.Minimal.{
  big_endian, IsInteger, contents, contents-IsInteger, contents-big_endian, length-contents,
  der_integer-contents,
}
use xdg_desktop_portal_certi.Module.Der.{der_encode, length_header}
use xdg_desktop_portal_certi.Module.Der.Encode.{
  der_encode_eq, encode_short, length_header-IsHeader, short, long_one, long_two,
}

-- The header that the broker writes is the one that the client module's encoder writes.
sequence_header_lem : (n : ℕ) → n < 2 ^ 16 → sequence_header n ≡ length_header n
unfolding sequence_header
sequence_header_lem n lt = elim (Bool-cases (ltb n 0x80)) [
  | inl e ↦ rw e (ground (arith, length_header-IsHeader (short n (ground arith))))
  | inr e ↦ elim (Bool-cases (leb n 0xff)) [
    | inl e' ↦
        rw (e, e')
          (ground (arith, length_header-IsHeader (long_one n (ground arith) (ground arith))))
    | inr e' ↦
        let split : n / 256 * 256 + n % 256 ≡ n = omega arith in
        let hi : n / 256 % 256 ≡ n / 256 = omega arith in
        rw (e, e', hi)
          (sym (
            rw split at (
              length_header-IsHeader
                (long_two (n / 256) (n % 256) (ground arith) (omega arith) (omega arith)))))
  ]
]

-- What a raw signature of two halves stands for.
pub record IsSignature (signature out : Bytes) (half : ℕ) : Type 0 where
  pub r : Bytes
  pub s : Bytes
  pub encoded : out ≡ der_encode 0x30 (der_encode 0x02 r ++ der_encode 0x02 s)
  pub r_is : big_endian 0 r ≡ big_endian 0 (take half signature)
  pub s_is : big_endian 0 s ≡ big_endian 0 (drop half signature)
  pub r_integer : IsInteger r
  pub s_integer : IsInteger s

module _ (signature : Bytes) (half : ℕ) (sized : length signature ≡ 2 * half) (pos : 0 < half)
    (lt : half < 127) (bytes : AllBytes signature) where
  first : length (take half signature) ≡ half
  first = omega (arith, length-take half signature)

  second : length (drop half signature) ≡ half
  second = omega (arith, length-drop half signature)

  second_whole : take half (drop half signature) ≡ drop half signature
  second_whole =
      subst (λ k. take k (drop half signature) ≡ drop half signature) second
        (take-length (drop half signature))

  body : Bytes
  body =
      der_encode 0x02 (contents (take half signature))
      ++ der_encode 0x02 (contents (drop half signature))

  length-der_encode_le :
      (value : Bytes) → length value < 128 → length (der_encode 0x02 value) ≡ 2 + length value
  length-der_encode_le value h = rw (encode_short 0x02 (length value) value h refl) (omega arith)

  body_length : length body < 259
  unfolding body
  body_length =
      let r = contents (take half signature) in
      let s = contents (drop half signature) in
      omega (
        arith,
        length-append (der_encode 0x02 r) (der_encode 0x02 s),
        length-der_encode_le r (omega (arith, length-contents (take half signature), first)),
        length-der_encode_le s (omega (arith, length-contents (drop half signature), second)),
        length-contents (take half signature),
        length-contents (drop half signature),
        first,
        second,
      )

  raw_to_der_eq : raw_to_der signature ≡ ok (der_encode 0x30 body)
  unfolding raw_to_der body
  raw_to_der_eq =
      let halves : length signature / 2 ≡ half = omega arith in
      let even : (length signature == 0 || not (length signature % 2 == 0)) ≡ false =
        ground arith in
      rw
        (
          even,
          halves,
          second_whole,
          der_integer-contents (take half signature) (omega (arith, first)),
          der_integer-contents (drop half signature) (omega (arith, second)),
          sequence_header_lem (length body) (omega (arith, body_length)),
        )
        (ap ok (sym (der_encode_eq 0x30 body (omega (arith, body_length)))))

  -- Up to 126 bytes a number, a raw signature becomes the DER encoding of a SEQUENCE of two minimal
  -- INTEGERs that have the values of its halves.
  pub raw_to_der-IsSignature :
      (out : Bytes) × (raw_to_der signature ≡ ok out) × IsSignature signature out half
  unfolding body
  raw_to_der-IsSignature = (
    der_encode 0x30 body,
    raw_to_der_eq,
    record {
      r = contents (take half signature);
      s = contents (drop half signature);
      encoded = refl;
      r_is = contents-big_endian (take half signature);
      s_is = contents-big_endian (drop half signature);
      r_integer =
          contents-IsInteger (take half signature) (omega (arith, first))
            (All-take _ half signature bytes);
      s_integer =
          contents-IsInteger (drop half signature) (omega (arith, second))
            (All-drop _ half signature bytes);
    },
  )
