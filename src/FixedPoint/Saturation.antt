-- ===== src/FixedPoint/Saturation.antt =====
-- The saturating operations against exact arithmetic.
use talk2text.Prelude.{
  ℕ, suc, ◌+◌, ◌*◌, ◌/◌, ◌%◌, ◌^◌, ◌≤◌, ◌<◌, bit_xor, ◌≡◌, Bool, true, false, if◌then◌else◌, ℤ, pos,
  negsuc, pos_part, neg_part, ◌+ℤ◌, ◌-ℤ◌, ◌*ℤ◌, shr, eqb_ℤ, ltb_ℤ, pattern32, and32, xor32,
  to_int16, IsInt16, IsInt32, sat16, max_16, min_16, max_32, min_32, signed32, arith,
}
use talk2text.Prelude.Bits.{bit_and_bit, bit_xor-div, bit_xor-lt}
use talk2text.FixedPoint.{add_int16, sub_int16, mult_int16}

-- An int32 shifted right by 31 is 0 or -1, and `^` with that keeps or inverts a pattern.
sign_mask16 :
    (z : ℤ) → IsInt32 z → xor32 (shr z 31) max_16 ≡ (if ltb_ℤ z (pos 0) then min_16 else max_16)
unfolding xor32
sign_mask16 (pos n) h = let e : n / 2 ^ 31 ≡ 0 = omega arith in rw e (ground arith)
sign_mask16 (negsuc n) h = let e : n / 2 ^ 31 ≡ 0 = omega arith in rw e (ground arith)

pub sign_mask32 :
    (z : ℤ) → IsInt32 z → xor32 (shr z 31) max_32 ≡ (if ltb_ℤ z (pos 0) then min_32 else max_32)
unfolding xor32
sign_mask32 (pos n) h = let e : n / 2 ^ 31 ≡ 0 = omega arith in rw e (ground arith)
sign_mask32 (negsuc n) h = let e : n / 2 ^ 31 ≡ 0 = omega arith in rw e (ground arith)

-- The int16 that two operations saturate to, written as both do.
abbrev pub cut : ℤ → ℤ
cut z = to_int16 (if eqb_ℤ (shr z 15) (shr z 31) then z else xor32 (shr z 31) max_16)

pub cut-sat16 : (z : ℤ) → IsInt32 z → cut z ≡ sat16 z
unfolding to_int16
cut-sat16 (pos n) h = ground (arith, sign_mask16 (pos n) h)
cut-sat16 (negsuc n) h = ground (arith, sign_mask16 (negsuc n) h)

+ℤ-IsInt32 : (a b : ℤ) → IsInt16 a → IsInt16 b → IsInt32 (a +ℤ b) × IsInt32 (a -ℤ b)
unfolding ◌+ℤ◌ ◌-ℤ◌
+ℤ-IsInt32 a b p q = ground arith

-- On int16 arguments `add_int16` is the sum, saturated to int16.
pub add_int16-sat16 : (a b : ℤ) → IsInt16 a → IsInt16 b → add_int16 a b ≡ sat16 (a +ℤ b)
unfolding add_int16
add_int16-sat16 a b p q = cut-sat16 (a +ℤ b) (+ℤ-IsInt32 a b p q).0

-- On int16 arguments `sub_int16` is the difference, saturated to int16.
pub sub_int16-sat16 : (a b : ℤ) → IsInt16 a → IsInt16 b → sub_int16 a b ≡ sat16 (a -ℤ b)
unfolding sub_int16
sub_int16-sat16 a b p q = cut-sat16 (a -ℤ b) (+ℤ-IsInt32 a b p q).1

mul_bound : (m n : ℕ) → m ≤ 2 ^ 15 → n ≤ 2 ^ 15 → m * n ≤ 2 ^ 30
mul_bound m n p q = grind arith

-- The product of two int16 lies between -2^30 + 2^15 and 2^30.
pub *ℤ-bound :
    (a b : ℤ) → IsInt16 a → IsInt16 b → (pos_part (a *ℤ b) ≤ 2 ^ 30) × (neg_part (a *ℤ b) ≤ 2 ^ 30)
unfolding ◌*ℤ◌
*ℤ-bound (pos m) (pos n) p q = ground (arith, mul_bound m n)
*ℤ-bound (pos m) (negsuc n) p q = ground (arith, mul_bound m (suc n))
*ℤ-bound (negsuc m) (pos n) p q = ground (arith, mul_bound (suc m) n)
*ℤ-bound (negsuc m) (negsuc n) p q = ground (arith, mul_bound (suc m) (suc n))

shr-IsInt32 : (z : ℤ) → IsInt32 z → (k : ℕ) → IsInt32 (shr z 15)
shr-IsInt32 (pos n) h k = ground arith
shr-IsInt32 (negsuc n) h k = ground arith

-- On int16 arguments `mult_int16` is the product divided by 2 ^ 15, rounded down and saturated to
-- int16.
pub mult_int16-sat16 : (a b : ℤ) → IsInt16 a → IsInt16 b → mult_int16 a b ≡ sat16 (shr (a *ℤ b) 15)
unfolding mult_int16
mult_int16-sat16 a b p q =
    cut-sat16 (shr (a *ℤ b) 15) (shr-IsInt32 (a *ℤ b) (omega (arith, *ℤ-bound a b p q)) 15)

abbrev pub same_sign : ℤ → ℤ → Bool
same_sign (pos m) (pos n) = true
same_sign (pos m) (negsuc n) = false
same_sign (negsuc m) (pos n) = false
same_sign (negsuc m) (negsuc n) = true

sign_bit : ℤ → ℕ
sign_bit z = pattern32 z / 2 ^ 31 % 2

pattern32-lt : (z : ℤ) → pattern32 z < 2 ^ 32
pattern32-lt (pos n) = omega arith
pattern32-lt (negsuc n) = omega arith

pattern32-signed32 : (x : ℕ) → x < 2 ^ 32 → pattern32 (signed32 x) ≡ x
pattern32-signed32 x h = ground arith

-- `((a ^ b) & MIN_32) == 0` asks whether the signs agree.
pub sign_test :
    (a b : ℤ) → IsInt32 a → IsInt32 b → eqb_ℤ (and32 (xor32 a b) min_32) (pos 0) ≡ same_sign a b
unfolding and32 xor32
sign_test a b p q =
    rw
      (
        pattern32-signed32 (bit_xor (pattern32 a) (pattern32 b))
            (bit_xor-lt _ _ (pattern32-lt a) (pattern32-lt b)),
        bit_and_bit 31 (bit_xor (pattern32 a) (pattern32 b)),
        bit_xor-div 31 (pattern32 a) (pattern32 b),
      )
      (signs a b p q)
  where
    signs :
        (a b : ℤ)
        → IsInt32 a
        → IsInt32 b
        → eqb_ℤ (signed32 ((pattern32 a / 2 ^ 31 + pattern32 b / 2 ^ 31) % 2 * 2 ^ 31)) (pos 0)
          ≡ same_sign a b
    signs (pos m) (pos n) p q = ground arith
    signs (pos m) (negsuc n) p q = ground arith
    signs (negsuc m) (pos n) p q = ground arith
    signs (negsuc m) (negsuc n) p q = ground arith
