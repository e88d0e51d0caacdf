-- ===== src/Base/Bits.antt =====
-- `&` and `|` on bytes: masks as tables over the 256 values, and a byte joined below a shifted word.
use Prim.Native.Nat.{
  ℕ, zero, suc, ◌+◌, ◌*◌, ◌/◌, ◌%◌, ◌^◌, ◌≤◌, ◌<◌, max, bit_and, bit_or, digits, bit_or-bitwise,
}
use mathlib.Core.Path.{◌≡◌, refl, ap}
use mathlib.Core.Bool.{Bool, true, ◌&&◌}
use native.Mathlib.Nat.{pow-suc}
use native.Mathlib.Omega.{arith}
use xdg_desktop_portal_certi.Base.Tests.{◌==◌, ==_iff}

-- A test that every number of a small range passes, found by evaluation.
passes : (ℕ → Bool) → ℕ → Bool
passes test zero = true
passes test (suc n) = passes test n && test n

passes_below :
    (test : ℕ → Bool) (bound k : ℕ) → passes test bound ≡ true → k < bound → test k ≡ true
unfolding passes
passes_below test zero k _ under = absurd (omega arith)
passes_below test (suc n) k all under = ground (arith, passes_below test n k)

-- `b & 0x7f` drops the top bit.
low_table : passes (λ b. bit_and b 0x7f == b % 128) 256 ≡ true
unfolding passes
low_table = refl

pub bit_and_low : (b : ℕ) → b < 256 → bit_and b 0x7f ≡ b % 128
bit_and_low b h = (==_iff _ _).0 (passes_below _ 256 _ low_table h)

-- `b & 0x80` tests it.
high_table : passes (λ b. bit_and b 0x80 == b / 128 * 128) 256 ≡ true
unfolding passes
high_table = refl

pub bit_and_high : (b : ℕ) → b < 256 → bit_and b 0x80 ≡ b / 128 * 128
bit_and_high b h = (==_iff _ _).0 (passes_below _ 256 _ high_table h)

-- `b & 0x1f` keeps five bits.
tag_table : passes (λ b. bit_and b 0x1f == b % 32) 256 ≡ true
unfolding passes
tag_table = refl

pub bit_and_tag : (b : ℕ) → b < 256 → bit_and b 0x1f ≡ b % 32
bit_and_tag b h = (==_iff _ _).0 (passes_below _ 256 _ tag_table h)

-- `0x80 | n` sets the top bit of a number below 128.
mark_table : passes (λ n. bit_or 0x80 n == 128 + n) 128 ≡ true
unfolding passes
mark_table = refl

pub bit_or_mark : (n : ℕ) → n < 128 → bit_or 0x80 n ≡ 128 + n
bit_or_mark n h = (==_iff _ _).0 (passes_below _ 128 _ mark_table h)

-- The law for the lowest digit, from the digits that the native operation stands for.
abbrev or_digits : ℕ → ℕ → ℕ → ℕ
or_digits n a b = digits (λ b. b) max n a b

or_digits_fuel : (n m a b : ℕ) → a ≤ n → a ≤ m → or_digits n a b ≡ or_digits m a b
or_digits_fuel zero zero a b p q = refl
or_digits_fuel zero (suc m) zero b p q = refl
or_digits_fuel zero (suc m) (suc a) b p q = absurd (omega arith)
or_digits_fuel (suc n) zero zero b p q = refl
or_digits_fuel (suc n) zero (suc a) b p q = absurd (omega arith)
or_digits_fuel (suc n) (suc m) zero b p q = refl
or_digits_fuel (suc n) (suc m) (suc a) b p q =
    omega (arith, or_digits_fuel n m (suc a / 2) (b / 2) (omega arith) (omega arith))

zero-bit_or : (b : ℕ) → bit_or 0 b ≡ b
zero-bit_or b = bit_or-bitwise 0 b

or_step : (a b : ℕ) → bit_or a b ≡ bit_or (a / 2) (b / 2) * 2 + max (a % 2) (b % 2)
or_step zero b = omega (arith, zero-bit_or b, zero-bit_or (b / 2))
or_step (suc a) b = omega (
  arith,
  bit_or-bitwise (suc a) b,
  bit_or-bitwise (suc a / 2) (b / 2),
  or_digits_fuel a (suc a / 2) (suc a / 2) (b / 2) (omega arith) (omega arith),
)

or-zero_fuel : (n a : ℕ) → a ≤ n → bit_or a 0 ≡ a
or-zero_fuel n zero h = refl
or-zero_fuel zero (suc a) h = absurd (omega arith)
or-zero_fuel (suc n) (suc a) h =
    omega (arith, or_step (suc a) 0, or-zero_fuel n (suc a / 2) (omega arith))

-- A number below `2 ^ k` beside a multiple of `2 ^ k`, one bit at a time.
or_fields : (k q r : ℕ) → r < 2 ^ k → bit_or (q * 2 ^ k) r ≡ q * 2 ^ k + r
or_fields zero q r h = ground (arith, or-zero_fuel q q)
or_fields (suc k) q r h = ground (
  arith,
  or_step (q * 2 ^ suc k) r,
  ap (λ (t : ℕ). q * t) (pow-suc 2 k),
  pow-suc 2 k,
  or_fields k q (r / 2),
)

-- `(word << 8) | b` is a sum when `b` is a byte.
pub bit_or_byte : (q b : ℕ) → b < 256 → bit_or (q * 256) b ≡ q * 256 + b
bit_or_byte q b h = or_fields 8 q b h

-- `(word << 4) | b` is a sum when `b` is below 16.
pub bit_or_nibble : (q b : ℕ) → b < 16 → bit_or (q * 16) b ≡ q * 16 + b
bit_or_nibble q b h = or_fields 4 q b h
