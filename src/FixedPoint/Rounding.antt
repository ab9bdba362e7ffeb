-- ===== src/FixedPoint/Rounding.antt =====
-- Rounding to 16 bits, negation, and where the rounding wraps.
use talk2text.Prelude.{
  ℕ, ◌≤◌, ◌<◌, ◌≡◌, ◌⊎◌, ℤ, pos, negsuc, pos_part, ◌+ℤ◌, neg, shr, to_int16, to_int32, shl32,
  IsInt16, IsInt32, sat16, sat32, max_16, min_16, max_32, arith,
}
use talk2text.FixedPoint.Saturation.{sign_mask32}
use talk2text.FixedPoint.{amr_wb_round, amr_wb_shl1_round, negate_int16, shl_int32}

-- The documented rounding: the upper half of the saturated sum with half a unit.
abbrev pub rounded : ℤ → ℤ
rounded l = shr (sat32 (l +ℤ pos 0x8000)) 16

-- On an int32 below 0x7fff8000, or equal to MAX_32, `amr_wb_round` is the upper half of the
-- saturated sum with 0x8000.
pub amr_wb_round-rounded :
    (l : ℤ) → IsInt32 l → (pos_part l < 0x7fff_8000) ⊎ (l ≡ max_32) → amr_wb_round l ≡ rounded l
unfolding amr_wb_round to_int16 to_int32 ◌+ℤ◌
amr_wb_round-rounded (pos n) h c = ground arith
amr_wb_round-rounded (negsuc n) h c = ground arith

-- On every int32 from 0x7fff8000 to below MAX_32 `amr_wb_round` is -32768, where the upper half of
-- the saturated sum is 32767.
pub amr_wb_round_wraps :
    (n : ℕ)
    → 0x7fff_8000 ≤ n
    → n < 0x7fff_ffff
    → (amr_wb_round (pos n) ≡ min_16) × (rounded (pos n) ≡ max_16)
unfolding amr_wb_round to_int16 to_int32 ◌+ℤ◌
amr_wb_round_wraps n lo hi = (ground arith, ground arith)

-- On every int32 `amr_wb_shl1_round` is `amr_wb_round` of the value that `shl_int32` shifts by
-- one.
pub amr_wb_shl1_round-amr_wb_round :
    (l : ℤ) → IsInt32 l → amr_wb_shl1_round l ≡ amr_wb_round (shl_int32 l (pos 1))
unfolding amr_wb_shl1_round amr_wb_round shl_int32 shl32 to_int16 to_int32 ◌+ℤ◌
amr_wb_shl1_round-amr_wb_round (pos n) h = ground (arith, sign_mask32 (pos n) h)
amr_wb_shl1_round-amr_wb_round (negsuc n) h = ground (arith, sign_mask32 (negsuc n) h)

-- On an int16 `negate_int16` is the negation, saturated to int16.
pub negate_int16-sat16 : (z : ℤ) → IsInt16 z → negate_int16 z ≡ sat16 (neg z)
unfolding negate_int16 to_int16
negate_int16-sat16 (pos n) h = ground arith
negate_int16-sat16 (negsuc n) h = ground arith
