-- ===== src/Base/Int.antt =====
-- Signed integers over the native numbers, and what C does with them: a machine integer of `w` bits
-- is kept as the integer it stands for, and a conversion to a type wraps.
use Prim.Native.Nat.{ℕ, suc, ◌+◌, ◌-◌, ◌*◌, ◌/◌, ◌%◌, ◌^◌, ◌≤◌, bit_xor}
use mathlib.Core.Path.{◌≡◌}
use mathlib.Core.Bool.{Bool}
use native.Mathlib.Omega.{arith}
use backplane_flight_compute.Base.Tests.{ltb, leb, if◌then◌else◌}

-- `negsuc n` is -(n + 1).
pub data ℤ : Type 0 where
  pos : ℕ → ℤ
  negsuc : ℕ → ℤ

abbrev pub pos_part : ℤ → ℕ
pos_part (pos n) = n
pos_part (negsuc n) = 0

abbrev pub neg_part : ℤ → ℕ
neg_part (pos n) = 0
neg_part (negsuc n) = suc n

-- a - b, as an integer.
abbrev pub sub_ℕ : ℕ → ℕ → ℤ
sub_ℕ a b = if leb b a then pos (a - b) else negsuc (b - a - 1)

infixl 65 ◌+ℤ◌ ◌-ℤ◌
infixl 70 ◌*ℤ◌
infix 50 ◌≤ℤ◌
unfoldable pub ◌+ℤ◌ : ℤ → ℤ → ℤ
a +ℤ b = sub_ℕ (pos_part a + pos_part b) (neg_part a + neg_part b)

unfoldable pub ◌-ℤ◌ : ℤ → ℤ → ℤ
a -ℤ b = sub_ℕ (pos_part a + neg_part b) (neg_part a + pos_part b)

unfoldable pub ◌*ℤ◌ : ℤ → ℤ → ℤ
a *ℤ b =
    sub_ℕ (pos_part a * pos_part b + neg_part a * neg_part b)
      (pos_part a * neg_part b + neg_part a * pos_part b)

abbrev pub ◌≤ℤ◌ : ℤ → ℤ → Type 0
a ≤ℤ b = pos_part a + neg_part b ≤ pos_part b + neg_part a

abbrev pub ltb_ℤ : ℤ → ℤ → Bool
ltb_ℤ a b = ltb (pos_part a + neg_part b) (pos_part b + neg_part a)

-- `/` of C, which rounds towards 0, by a positive number.
unfoldable pub quot_ℤ : ℤ → ℕ → ℤ
quot_ℤ (pos n) k = pos (n / k)
quot_ℤ (negsuc n) k = sub_ℕ 0 (suc n / k)

-- `>>` of a signed integer, which rounds down.
unfoldable pub shr_ℤ : ℤ → ℕ → ℤ
shr_ℤ (pos n) k = pos (n / 2 ^ k)
shr_ℤ (negsuc n) k = negsuc (n / 2 ^ k)

-- The two's complement pattern of `w` bits: the conversion to an unsigned type.
unfoldable pub unsigned : ℕ → ℤ → ℕ
unsigned w (pos n) = n % 2 ^ w
unsigned w (negsuc n) = 2 ^ w - 1 - n % 2 ^ w

-- The integer that a pattern of `w` bits stands for.
unfoldable pub signed : ℕ → ℕ → ℤ
signed w p = if ltb p (2 ^ (w - 1)) then pos p else negsuc (2 ^ w - p - 1)

-- The conversions to `int16_t`, `int32_t` and `int64_t`.
unfoldable pub int16 : ℕ → ℤ
unfolding signed
int16 p = signed 16 (p % 2 ^ 16)

unfoldable pub int32 : ℤ → ℤ
unfolding signed unsigned
int32 a = signed 32 (unsigned 32 a)

unfoldable pub int64 : ℤ → ℤ
unfolding signed unsigned
int64 a = signed 64 (unsigned 64 a)

-- `^` on `int32_t`: bitwise exclusive or.
unfoldable pub xor_int32 : ℤ → ℕ → ℤ
unfolding signed unsigned
xor_int32 a k = signed 32 (bit_xor (unsigned 32 a) k)

-- An integer that fits 32 bits is left alone by the conversion.
pub int32_of_fits : (a : ℤ) → negsuc (2 ^ 31 - 1) ≤ℤ a → a ≤ℤ pos (2 ^ 31 - 1) → int32 a ≡ a
unfolding int32
int32_of_fits (pos n) lo hi = ground arith
int32_of_fits (negsuc n) lo hi = ground arith
