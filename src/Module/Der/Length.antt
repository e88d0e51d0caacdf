-- ===== src/Module/Der/Length.antt =====
-- The long form's length bytes as a number: the accumulator `(length << 8) | b` in arithmetic.
use xdg_desktop_portal_certi.Base.{ℕ, ◌+◌, ◌*◌, ◌%◌, ◌^◌, ◌<◌, ◌≡◌, ◌∙◌, [], ◌∷◌, arith, Bytes}
use xdg_desktop_portal_certi.Base.Bits.{bit_or_byte}
use xdg_desktop_portal_certi.Module.Der.{read_length}

read_length-cons :
    (len b : ℕ) (bs : Bytes)
    → len < 2 ^ 32
    → b < 256
    → read_length len (b ∷ bs) ≡ read_length (len * 256 + b) bs
unfolding read_length
read_length-cons len b bs hl hb =
    let e : len * 256 % 2 ^ 64 ≡ len * 256 = omega arith in rw (e, bit_or_byte len b hb)

read_length-last : (len b : ℕ) → len < 2 ^ 32 → b < 256 → read_length len (b ∷ []) ≡ len * 256 + b
unfolding read_length
read_length-last len b hl hb =
    let e : len * 256 % 2 ^ 64 ≡ len * 256 = omega arith in rw (e, bit_or_byte len b hb)

module _ (a : ℕ) (ha : a < 256) where
  pub read_length_one : read_length 0 (a ∷ []) ≡ a
  read_length_one = read_length-last 0 a (omega arith) ha ∙ omega arith

  pub read_length_two : (b : ℕ) → b < 256 → read_length 0 (a ∷ b ∷ []) ≡ a * 256 + b
  read_length_two b hb =
      read_length-cons 0 a (b ∷ []) (omega arith) ha
      ∙ read_length-last (0 * 256 + a) b (omega arith) hb
      ∙ omega arith

  pub read_length_three :
      (b c : ℕ) → b < 256 → c < 256 → read_length 0 (a ∷ b ∷ c ∷ []) ≡ (a * 256 + b) * 256 + c
  read_length_three b c hb hc =
      read_length-cons 0 a (b ∷ c ∷ []) (omega arith) ha
      ∙ read_length-cons (0 * 256 + a) b (c ∷ []) (omega arith) hb
      ∙ read_length-last ((0 * 256 + a) * 256 + b) c (omega arith) hc
      ∙ omega arith

  pub read_length_four :
      (b c d : ℕ)
      → b < 256
      → c < 256
      → d < 256
      → read_length 0 (a ∷ b ∷ c ∷ d ∷ []) ≡ ((a * 256 + b) * 256 + c) * 256 + d
  read_length_four b c d hb hc hd =
      read_length-cons 0 a (b ∷ c ∷ d ∷ []) (omega arith) ha
      ∙ read_length-cons (0 * 256 + a) b (c ∷ d ∷ []) (omega arith) hb
      ∙ read_length-cons ((0 * 256 + a) * 256 + b) c (d ∷ []) (omega arith) hc
      ∙ read_length-last (((0 * 256 + a) * 256 + b) * 256 + c) d (omega arith) hd
      ∙ omega arith
