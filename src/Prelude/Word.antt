-- ===== src/Prelude/Word.antt =====
-- int16 and int32: the range, the bit pattern, and the cast that keeps the low bits. A signed
-- overflow of the source wraps in two's complement, as the compiled code does.
use Prim.Native.Nat.{ℕ, ◌-◌, ◌%◌, ◌^◌, ◌≤◌, ◌<◌, bit_and, bit_xor}
use mathlib.Core.Path.{◌≡◌}
use native.Mathlib.Omega.{arith}
use talk2text.Prelude.Tests.{ltb, if◌then◌else◌}
use talk2text.Prelude.Int.{ℤ, pos, negsuc, pos_part, neg_part, scale, ltb_ℤ}

abbrev pub IsInt16 : ℤ → Type 0
IsInt16 z = (pos_part z < 2 ^ 15) × (neg_part z ≤ 2 ^ 15)

abbrev pub IsInt32 : ℤ → Type 0
IsInt32 z = (pos_part z < 2 ^ 31) × (neg_part z ≤ 2 ^ 31)

abbrev pub pattern16 : ℤ → ℕ
pattern16 (pos n) = n % 2 ^ 16
pattern16 (negsuc n) = 2 ^ 16 - 1 - n % 2 ^ 16

abbrev pub signed16 : ℕ → ℤ
signed16 p = if ltb p (2 ^ 15) then pos p else negsuc (2 ^ 16 - 1 - p)

-- (int16) z
unfoldable pub to_int16 : ℤ → ℤ
to_int16 z = signed16 (pattern16 z)

abbrev pub pattern32 : ℤ → ℕ
pattern32 (pos n) = n % 2 ^ 32
pattern32 (negsuc n) = 2 ^ 32 - 1 - n % 2 ^ 32

abbrev pub signed32 : ℕ → ℤ
signed32 p = if ltb p (2 ^ 31) then pos p else negsuc (2 ^ 32 - 1 - p)

-- (int32) z
unfoldable pub to_int32 : ℤ → ℤ
to_int32 z = signed32 (pattern32 z)

-- a << k, a ^ b and a & b at 32 bits.
unfoldable pub shl32 : ℤ → ℕ → ℤ
unfolding to_int32
shl32 a k = to_int32 (scale a k)

unfoldable pub xor32 : ℤ → ℤ → ℤ
xor32 a b = signed32 (bit_xor (pattern32 a) (pattern32 b))

unfoldable pub and32 : ℤ → ℤ → ℤ
and32 a b = signed32 (bit_and (pattern32 a) (pattern32 b))

abbrev pub max_16 : ℤ
max_16 = pos 0x7fff

abbrev pub min_16 : ℤ
min_16 = negsuc 0x7fff

abbrev pub max_32 : ℤ
max_32 = pos 0x7fff_ffff

abbrev pub min_32 : ℤ
min_32 = negsuc 0x7fff_ffff

-- The nearest integer of the width.
abbrev pub sat16 : ℤ → ℤ
sat16 z = if ltb_ℤ z min_16 then min_16 else if ltb_ℤ max_16 z then max_16 else z

abbrev pub sat32 : ℤ → ℤ
sat32 z = if ltb_ℤ z min_32 then min_32 else if ltb_ℤ max_32 z then max_32 else z

pub to_int16_id : (z : ℤ) → IsInt16 z → to_int16 z ≡ z
unfolding to_int16
to_int16_id (pos n) h = ground arith
to_int16_id (negsuc n) h = ground arith

pub to_int32_id : (z : ℤ) → IsInt32 z → to_int32 z ≡ z
unfolding to_int32
to_int32_id (pos n) h = ground arith
to_int32_id (negsuc n) h = ground arith

pub to_int16-IsInt16 : (z : ℤ) → IsInt16 (to_int16 z)
unfolding to_int16
to_int16-IsInt16 (pos n) = ground arith
to_int16-IsInt16 (negsuc n) = ground arith
