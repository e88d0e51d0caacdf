-- ===== src/Module/Der/Read.antt =====
-- What the reader accepts: exactly the encoder's output, with anything behind it.
use xdg_desktop_portal_certi.Base.{
  ℕ, zero, suc, ◌+◌, ◌*◌, ◌^◌, ◌≤◌, ◌<◌, ◌≡◌, inl, inr, [], ◌∷◌, ◌++◌, some, arith, ◌==◌, length,
  length-append, take, drop, take-append-drop, length-take, drop-length-append_add, append_assoc,
  Bytes, AllBytes, bit_and, refl, ◌∙◌, sym, ap, Bool-cases, Option-cases, All-append_left,
  All-append_right, drop-length, append-nil, subst,
}
use xdg_desktop_portal_certi.Base.Bits.{bit_and_high, bit_and_low, bit_and_tag}
use xdg_desktop_portal_certi.Module.Der.{
  DerTlv, length_header, der_encode, der_read, der_read_tag, read_value, read_long,
}
use xdg_desktop_portal_certi.Module.Der.Encode.{
  IsHeader, short, long_one, long_two, long_three, long_four, der_encode_eq, length_header-IsHeader,
}
use xdg_desktop_portal_certi.Module.Der.Length.{
  read_length_one, read_length_two, read_length_three, read_length_four,
}
use xdg_desktop_portal_certi.Module.Der.RoundTrip.{IsTag}

-- A value that was read: its header, and the body that held it.
record Found (tag : ℕ) (after_tag : Bytes) (t : DerTlv) : Type 0 where
  header : Bytes
  size : ℕ
  body : Bytes
  splits : after_tag ≡ header ++ body
  is_header : IsHeader header size
  value_read : read_value tag body size (1 + length header) ≡ some t

read_long-Found :
    (tag : ℕ) (rest : Bytes) (count : ℕ) {t : DerTlv}
    → AllBytes rest
    → read_long tag rest count ≡ some t
    → Found tag ((128 + count) ∷ rest) t
unfolding read_long
read_long-Found tag [] count bytes h = absurd (ground arith)
read_long-Found tag (a ∷ bs) zero bytes h = absurd (ground arith)
read_long-Found tag (a ∷ bs) (suc zero) bytes h = record {
  header = 129 ∷ a ∷ [];
  size = a;
  body = bs;
  splits = refl;
  is_header = long_one a (ground (arith, read_length_one a bytes.0)) (bytes.0);
  value_read = ground (arith, read_length_one a bytes.0);
}
read_long-Found tag (a ∷ []) (suc (suc zero)) bytes h = absurd (ground arith)
read_long-Found tag (a ∷ b ∷ bs) (suc (suc zero)) bytes h = record {
  header = 130 ∷ a ∷ b ∷ [];
  size = a * 256 + b;
  body = bs;
  splits = refl;
  is_header = long_two a b (ground arith) (bytes.0) (bytes.1.0);
  value_read = ground (arith, read_length_two a bytes.0 b bytes.1.0);
}
read_long-Found tag (a ∷ []) (suc (suc (suc zero))) bytes h = absurd (ground arith)
read_long-Found tag (a ∷ b ∷ []) (suc (suc (suc zero))) bytes h = absurd (ground arith)
read_long-Found tag (a ∷ b ∷ c ∷ bs) (suc (suc (suc zero))) bytes h = record {
  header = 131 ∷ a ∷ b ∷ c ∷ [];
  size = (a * 256 + b) * 256 + c;
  body = bs;
  splits = refl;
  is_header = long_three a b c (ground arith) (bytes.0) (bytes.1.0) (bytes.1.1.0);
  value_read = ground (arith, read_length_three a bytes.0 b c bytes.1.0 bytes.1.1.0);
}
read_long-Found tag (a ∷ []) (suc (suc (suc (suc zero)))) bytes h = absurd (ground arith)
read_long-Found tag (a ∷ b ∷ []) (suc (suc (suc (suc zero)))) bytes h = absurd (ground arith)
read_long-Found tag (a ∷ b ∷ c ∷ []) (suc (suc (suc (suc zero)))) bytes h = absurd (ground arith)
read_long-Found tag (a ∷ b ∷ c ∷ d ∷ bs) (suc (suc (suc (suc zero)))) bytes h = record {
  header = 132 ∷ a ∷ b ∷ c ∷ d ∷ [];
  size = ((a * 256 + b) * 256 + c) * 256 + d;
  body = bs;
  splits = refl;
  is_header = long_four a b c d (ground arith) (bytes.0) (bytes.1.0) (bytes.1.1.0) (bytes.1.1.1.0);
  value_read = ground (arith, read_length_four a bytes.0 b c d bytes.1.0 bytes.1.1.0 bytes.1.1.1.0);
}
read_long-Found tag (a ∷ bs) (suc (suc (suc (suc (suc k))))) bytes h = absurd (ground arith)

read_value_inv :
    (tag : ℕ) (body : Bytes) (n offset : ℕ) {t : DerTlv}
    → read_value tag body n offset ≡ some t
    → (t ≡ record { tag = tag; value = take n body; length_of = n; consumed = offset + n })
      × (n ≤ length body)
unfolding read_value
read_value_inv tag body n offset h = ground arith

-- What the reader reports of a value, and where it stood.
pub record Reads (input : Bytes) (t : DerTlv) : Type 0 where
  pub is_tag : IsTag t.tag
  pub fits : length t.value < 2 ^ 32
  pub length_is : t.length_of ≡ length t.value
  pub consumed_is : t.consumed ≡ length (der_encode t.tag t.value)
  pub splits : input ≡ der_encode t.tag t.value ++ drop t.consumed input

IsHeader-lt : {h : Bytes} {n : ℕ} → IsHeader h n → n < 2 ^ 32
IsHeader-lt (short n lt) = omega arith
IsHeader-lt (long_one a lo hi) = omega arith
IsHeader-lt (long_two a b pos ha hb) = omega arith
IsHeader-lt (long_three a b c pos ha hb hc) = omega arith
IsHeader-lt (long_four a b c d pos ha hb hc hd) = omega arith

-- A header and the body's first bytes are the encoding of those bytes.
module _ {h : Bytes} {n : ℕ} (tag : ℕ) (body : Bytes) (is : IsHeader h n)
    (room : n ≤ length body) where
  length-value : length (take n body) ≡ n
  length-value = omega (arith, length-take n body)

  encode-value : der_encode tag (take n body) ≡ tag ∷ (h ++ take n body)
  encode-value =
      der_encode_eq tag (take n body) (omega (arith, IsHeader-lt is, length-value))
      ∙ rw (length-value, length_header-IsHeader is)

  dropped : drop (1 + length h + n) (tag ∷ (h ++ body)) ≡ drop n body
  dropped =
      let e : 1 + length h + n ≡ suc (length h + n) = omega arith in
      rw e (drop-length-append_add h body n)

  after_header : h ++ body ≡ (h ++ take n body) ++ drop (1 + length h + n) (tag ∷ (h ++ body))
  after_header = rw (dropped, append_assoc) (ap (λ r. h ++ r) (sym (take-append-drop n body)))

  value-Reads :
      IsTag tag
      → Reads
          (tag ∷ (h ++ body))
          (record { tag = tag; value = take n body; length_of = n; consumed = 1 + length h + n })
  value-Reads is_tag = record {
    is_tag = is_tag;
    fits = omega (arith, IsHeader-lt is, length-value);
    length_is = sym length-value;
    consumed_is =
        omega (arith, ap length encode-value, length-append h (take n body), length-value);
    splits = rw encode-value (ap (◌∷◌ tag) after_header);
  }

Found-Reads :
    (tag : ℕ) (after_tag : Bytes) (t : DerTlv)
    → IsTag tag
    → Found tag after_tag t
    → Reads (tag ∷ after_tag) t
Found-Reads tag after_tag t is f =
    let (e, room) = read_value_inv tag f.body f.size (1 + length f.header) f.value_read in
    rw (e, f.splits) (value-Reads tag f.body f.is_header room is)

der_read-Found :
    (tag first : ℕ) (rest : Bytes) {t : DerTlv}
    → AllBytes (tag ∷ first ∷ rest)
    → der_read (tag ∷ first ∷ rest) ≡ some t
    → IsTag tag × Found tag (first ∷ rest) t
unfolding der_read
der_read-Found tag first rest {t} bytes h = elim (Bool-cases (bit_and tag 0x1f == 0x1f)) [
  | inl long ↦ absurd (ground arith)
  | inr one ↦ elim (Bool-cases (bit_and first 0x80 == 0)) [
    | inl low ↦ (
      (bytes.0, ground (arith, bit_and_tag tag bytes.0)),
      record {
        header = first ∷ [];
        size = first;
        body = rest;
        splits = refl;
        is_header = short first (ground (arith, bit_and_high first bytes.1.0));
        value_read = ground arith;
      },
    )
    | inr high ↦ (
      (bytes.0, ground (arith, bit_and_tag tag bytes.0)),
      let e : 128 + bit_and first 0x7f ≡ first =
            ground (arith, bit_and_high first bytes.1.0, bit_and_low first bytes.1.0) in
          rw e at (read_long-Found tag rest (bit_and first 0x7f) {t = t} bytes.1.1 (ground arith)),
    )
  ]
]

-- Whatever the reader accepts is an encoding by the encoder, with the rest of the input behind it:
-- no second encoding of a value is read.
pub der_read-Reads :
    (input : Bytes) (t : DerTlv) → AllBytes input → der_read input ≡ some t → Reads input t
unfolding der_read
der_read-Reads [] t bytes h = absurd (ground arith)
der_read-Reads (tag ∷ []) t bytes h = absurd (ground arith)
der_read-Reads (tag ∷ first ∷ rest) t bytes h =
    let (is, f) = der_read-Found tag first rest bytes h in Found-Reads tag (first ∷ rest) t is f

-- The value's bytes stand in the input.
pub Reads-AllBytes :
    (input : Bytes) (t : DerTlv) → AllBytes input → Reads input t → AllBytes t.value
Reads-AllBytes input t bytes r =
    let byte = λ (b : ℕ). b < 256 in
    let all : AllBytes (der_encode t.tag t.value ++ drop t.consumed input) =
      subst AllBytes r.splits bytes in
    let encoded : AllBytes (t.tag ∷ (length_header (length t.value) ++ t.value)) =
      subst AllBytes (der_encode_eq t.tag t.value r.fits)
        (All-append_left byte (der_encode t.tag t.value) (drop t.consumed input) all) in
    All-append_right byte (length_header (length t.value)) t.value encoded.1

-- A value that uses up the input is the whole input.
pub Reads-whole :
    (input : Bytes) (t : DerTlv)
    → Reads input t
    → t.consumed ≡ length input
    → input ≡ der_encode t.tag t.value
Reads-whole input t r whole =
    r.splits ∙ rw (whole, drop-length input) (append-nil (der_encode t.tag t.value))

pub der_read_tag-Reads :
    (input : Bytes) (tag : ℕ) (t : DerTlv)
    → AllBytes input
    → der_read_tag input tag ≡ some t
    → Reads input t × (t.tag ≡ tag)
unfolding der_read_tag
der_read_tag-Reads input tag t bytes h = elim (Option-cases (der_read input)) [
  | inl e ↦ absurd (ground arith)
  | inr (u, e) ↦
      let same : u ≡ t = ground arith in
      (der_read-Reads input t bytes (e ∙ ap some same), ground arith)
]
