-- ===== src/Core/Secret.antt =====
-- src/core/secret.c: the buffer that holds a PIN. Its memory's locking has no effect on what it holds.
pub mod View
use xdg_desktop_portal_certi.Base.{
  ℕ, suc, Bool, true, false, ◌||◌, [], ◌∷◌, ◌++◌, Option, none, some, ltb, leb, ◌==◌, if◌then◌else◌,
  length, take, drop, replicate, Bytes,
}

-- `XccSecret`: the memory, whose size is the capacity, and the length of the text in it.
pub record Secret : Type 0 where
  pub memory : Bytes
  pub length_of : ℕ

abbrev pub max_length : ℕ
max_length = 511

-- `memchr (data, '\0', length) != NULL`.
unfoldable pub has_zero : Bytes → Bool
has_zero [] = false
has_zero (b ∷ bs) = b == 0 || has_zero bs

abbrev pub put_byte : ℕ → ℕ → Bytes → Bytes
put_byte at b bs = take at bs ++ b ∷ drop (suc at) bs

-- `xcc_secret_set_length`: whether it succeeds, and the buffer behind it.
unfoldable pub set_length : Secret → ℕ → Bool × Secret
set_length s n =
    if n == 0 || (ltb max_length n || (leb (length s.memory) n || has_zero (take n s.memory)))
    then (false, record { memory = replicate (length s.memory) 0; length_of = 0 })
    else (true, record { memory = put_byte n 0 s.memory; length_of = n })

unfoldable pub secret_view : Option Secret → Option Bytes
secret_view none = none
secret_view (some s) = if ltb 0 s.length_of then some (take s.length_of s.memory) else none

unfoldable pub secret_length : Option Secret → ℕ
secret_length none = 0
secret_length (some s) = s.length_of
