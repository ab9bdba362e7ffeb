-- ===== src/Examples.antt =====
-- Runs of the theorems on concrete inputs.
mod Frames
mod Pulses
mod Streams
mod Daemons
mod Lags
mod Services
mod Mathematics
mod Gains
use talk2text.Prelude.{
  ℕ, ◌+◌, ◌*◌, ◌^◌, ◌/◌, ◌%◌, ◌≤◌, ◌<◌, ◌≡◌, refl, Bool, true, false, not, if◌then◌else◌, leb,
  Option, some, none, List, [], ◌∷◌, replicate, ℤ, pos, negsuc, ◌+ℤ◌, ◌-ℤ◌, ◌*ℤ◌, shr, scale, neg,
  sat16, sat32, max_32, min_16, max_16, take, drop, inl, inr, arith,
}
use talk2text.FixedPoint.{
  add_int16, sub_int16, mult_int16, add_int32, sub_int32, mul_16by16_to_int32, mac_16by16_to_int32,
  msu_16by16_from_int32, amr_wb_round, amr_wb_shl1_round, negate_int16, shl_int16, shl_int32,
  normalize_amr_wb,
}
use talk2text.FixedPoint.Laws.{int16_ops-sat16, int32_ops-sat32, shl_int16_lem}
use talk2text.FixedPoint.Saturation.{add_int16-sat16, sub_int16-sat16, mult_int16-sat16}
use talk2text.FixedPoint.Wide.{
  add_int32-sat32, sub_int32-sat32, mul_16by16_to_int32-sat32, mac_16by16-add_int32,
  msu_16by16-sub_int32,
}
use talk2text.FixedPoint.Rounding.{
  rounded, amr_wb_round-rounded, amr_wb_round_wraps, amr_wb_shl1_round-amr_wb_round,
  negate_int16-sat16,
}
use talk2text.FixedPoint.Shifts.{shl_int16-sat16, shl_int16-shr}
use talk2text.FixedPoint.Norm.{normalize_amr_wb_lem}
use talk2text.Serial.{serial_parm, serial_parm_1bit}
use talk2text.Serial.Laws.{
  number, serial_parm-number, serial_parm_bound, serial_parm_1bit-serial_parm,
}

-- Fixed point.
amr_wb_round_wraps_example :
    (amr_wb_round (pos 0x7fff_9000) ≡ min_16) × (rounded (pos 0x7fff_9000) ≡ max_16)
amr_wb_round_wraps_example = amr_wb_round_wraps 0x7fff_9000 (omega arith) (omega arith)

int16_ops-sat16_example :
    (add_int16 min_16 min_16 ≡ sat16 (min_16 +ℤ min_16))
    × (sub_int16 min_16 min_16 ≡ sat16 (min_16 -ℤ min_16))
    × (mult_int16 min_16 min_16 ≡ sat16 (shr (min_16 *ℤ min_16) 15))
    × (negate_int16 min_16 ≡ sat16 (neg min_16))
int16_ops-sat16_example = int16_ops-sat16 min_16 min_16 (omega arith) (omega arith)

int32_ops-sat32_example :
    (add_int32 max_32 max_32 ≡ sat32 (max_32 +ℤ max_32))
    × (sub_int32 max_32 max_32 ≡ sat32 (max_32 -ℤ max_32))
    × (mul_16by16_to_int32 min_16 min_16 ≡ sat32 (min_16 *ℤ min_16 +ℤ min_16 *ℤ min_16))
    × (mac_16by16_to_int32 max_32 min_16 min_16
        ≡ sat32 (max_32 +ℤ sat32 (min_16 *ℤ min_16 +ℤ min_16 *ℤ min_16)))
    × (msu_16by16_from_int32 max_32 min_16 min_16
        ≡ sat32 (max_32 -ℤ sat32 (min_16 *ℤ min_16 +ℤ min_16 *ℤ min_16)))
int32_ops-sat32_example =
    int32_ops-sat32 max_32 max_32 min_16 min_16 (omega arith) (omega arith) (omega arith)
      (omega arith)

-- Parameters: the bits 1, 0 and 1.
abbrev bits_101 : List ℕ
bits_101 = 127 ∷ 0 ∷ 127 ∷ 0 ∷ []

serial_parm_bound_example :
    (serial_parm 3 bits_101 ≡ some (number 0 (take 3 bits_101), drop 3 bits_101))
    × (number 0 (take 3 bits_101) < 2 ^ 3)
serial_parm_bound_example = serial_parm_bound 3 bits_101 (omega arith) (omega arith)
