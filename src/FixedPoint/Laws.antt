-- ===== src/FixedPoint/Laws.antt =====
-- The operations against exact arithmetic that is then saturated, width by width.
use talk2text.Prelude.{
  ℕ, ◌<◌, ◌≡◌, suc, ℤ, pos, negsuc, neg, ◌+ℤ◌, ◌-ℤ◌, ◌*ℤ◌, shr, scale, sat16, sat32, IsInt16,
  IsInt32,
}
use talk2text.FixedPoint.{
  add_int16, sub_int16, mult_int16, negate_int16, add_int32, sub_int32, mul_16by16_to_int32,
  mac_16by16_to_int32, msu_16by16_from_int32, shl_int16,
}
use talk2text.FixedPoint.Saturation.{add_int16-sat16, sub_int16-sat16, mult_int16-sat16}
use talk2text.FixedPoint.Rounding.{negate_int16-sat16}
use talk2text.FixedPoint.Wide.{
  add_int32-sat32, sub_int32-sat32, mul_16by16_to_int32-sat32, mac_16by16-add_int32,
  msu_16by16-sub_int32,
}
use talk2text.FixedPoint.Shifts.{shl_int16-sat16, shl_int16-shr}

-- On int16 arguments `add_int16`, `sub_int16` and `negate_int16` are the sum, the difference and
-- the negation, and `mult_int16` is the product divided by 2 ^ 15 and rounded down, each saturated
-- to int16.
pub int16_ops-sat16 :
    (a b : ℤ)
    → IsInt16 a
    → IsInt16 b
    → (add_int16 a b ≡ sat16 (a +ℤ b))
      × (sub_int16 a b ≡ sat16 (a -ℤ b))
      × (mult_int16 a b ≡ sat16 (shr (a *ℤ b) 15))
      × (negate_int16 a ≡ sat16 (neg a))
int16_ops-sat16 a b p q = (
  add_int16-sat16 a b p q,
  sub_int16-sat16 a b p q,
  mult_int16-sat16 a b p q,
  negate_int16-sat16 a p,
)

-- On int32 arguments `add_int32` and `sub_int32` are the sum and the difference, on int16
-- arguments `mul_16by16_to_int32` is twice the product, and `mac_16by16_to_int32` and
-- `msu_16by16_from_int32` add it to an int32 and subtract it; each result, also the one between,
-- is saturated to int32.
pub int32_ops-sat32 :
    (l m a b : ℤ)
    → IsInt32 l
    → IsInt32 m
    → IsInt16 a
    → IsInt16 b
    → (add_int32 l m ≡ sat32 (l +ℤ m))
      × (sub_int32 l m ≡ sat32 (l -ℤ m))
      × (mul_16by16_to_int32 a b ≡ sat32 (a *ℤ b +ℤ a *ℤ b))
      × (mac_16by16_to_int32 l a b ≡ sat32 (l +ℤ sat32 (a *ℤ b +ℤ a *ℤ b)))
      × (msu_16by16_from_int32 l a b ≡ sat32 (l -ℤ sat32 (a *ℤ b +ℤ a *ℤ b)))
int32_ops-sat32 l m a b r s p q = (
  add_int32-sat32 l m r s,
  sub_int32-sat32 l m r s,
  mul_16by16_to_int32-sat32 a b p q,
  mac_16by16-add_int32 l a b r p q,
  msu_16by16-sub_int32 l a b r p q,
)

-- On an int16, `shl_int16` by a count from 0 to 15 is the product by 2 to the power of the count,
-- saturated to int16, and by a count from -15 to -1 the arithmetic shift to the right by the
-- count's absolute value.
pub shl_int16_lem :
    (a : ℤ) (k n : ℕ)
    → IsInt16 a
    → k < 16
    → n < 15
    → (shl_int16 a (pos k) ≡ sat16 (scale a k)) × (shl_int16 a (negsuc n) ≡ shr a (suc n))
shl_int16_lem a k n h p q = (shl_int16-sat16 a k h p, shl_int16-shr a n q)
