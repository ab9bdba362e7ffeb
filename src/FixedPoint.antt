-- ===== src/FixedPoint.antt =====
-- pvamrwbdecoder_basic_op.h and pvamrwbdecoder_basic_op_cequivalent.h: the saturating 16-bit and
-- 32-bit operations of the AMR-WB decoder, and norm_l of normalize_amr_wb.c.
pub mod Saturation
pub mod Wide
pub mod Norm
pub mod Rounding
pub mod Shifts
pub mod Laws
use talk2text.Prelude.{
  ℕ, zero, suc, ◌+◌, ◌-◌, ◌≤◌, ◌<◌, bit_and, Bool, ◌||◌, pos_part, if◌then◌else◌, ltb, ◌==◌, ℤ, pos,
  negsuc, ◌+ℤ◌, ◌-ℤ◌, ◌*ℤ◌, neg, shr, scale, ltb_ℤ, eqb_ℤ, to_int16, to_int32, shl32, xor32, and32,
  pattern32, max_16, min_16, max_32, min_32,
}

-- (int16) (l_sum, replaced by the nearer end of the range when it does not fit).
unfoldable pub add_int16 : ℤ → ℤ → ℤ
add_int16 var1 var2 =
    let l_sum = var1 +ℤ var2 in
    to_int16 (if eqb_ℤ (shr l_sum 15) (shr l_sum 31) then l_sum else xor32 (shr l_sum 31) max_16)

unfoldable pub sub_int16 : ℤ → ℤ → ℤ
sub_int16 var1 var2 =
    let l_diff = var1 -ℤ var2 in
    to_int16
      (if eqb_ℤ (shr l_diff 15) (shr l_diff 31) then l_diff else xor32 (shr l_diff 31) max_16)

unfoldable pub mult_int16 : ℤ → ℤ → ℤ
mult_int16 var1 var2 =
    let l_product = shr (var1 *ℤ var2) 15 in
    to_int16 (
      if eqb_ℤ (shr l_product 15) (shr l_product 31)
      then l_product
      else xor32 (shr l_product 31) max_16)

unfoldable pub add_int32 : ℤ → ℤ → ℤ
add_int32 l_var1 l_var2 =
    let l_var_out = to_int32 (l_var1 +ℤ l_var2) in
    if eqb_ℤ (and32 (xor32 l_var1 l_var2) min_32) (pos 0)
    then if eqb_ℤ (and32 (xor32 l_var_out l_var1) min_32) (pos 0)
      then l_var_out
      else xor32 (shr l_var1 31) max_32
    else l_var_out

unfoldable pub sub_int32 : ℤ → ℤ → ℤ
sub_int32 l_var1 l_var2 =
    let l_var_out = to_int32 (l_var1 -ℤ l_var2) in
    if eqb_ℤ (and32 (xor32 l_var1 l_var2) min_32) (pos 0)
    then l_var_out
    else if eqb_ℤ (and32 (xor32 l_var_out l_var1) min_32) (pos 0)
    then l_var_out
    else xor32 (shr l_var1 31) max_32

-- var1 * var2 doubled, with the one overflow of that cut to the largest int32.
unfoldable pub mul_16by16_to_int32 : ℤ → ℤ → ℤ
mul_16by16_to_int32 var1 var2 =
    let l_mul = var1 *ℤ var2 in if eqb_ℤ l_mul (pos 0x4000_0000) then max_32 else shl32 l_mul 1

unfoldable pub mac_16by16_to_int32 : ℤ → ℤ → ℤ → ℤ
mac_16by16_to_int32 l_var3 var1 var2 =
    let l_prod = var1 *ℤ var2 in
    let l_mul = if eqb_ℤ l_prod (pos 0x4000_0000) then max_32 else shl32 l_prod 1 in
    let l_var_out = to_int32 (l_var3 +ℤ l_mul) in
    if eqb_ℤ (and32 (xor32 l_mul l_var3) min_32) (pos 0)
    then if eqb_ℤ (and32 (xor32 l_var_out l_var3) min_32) (pos 0)
      then l_var_out
      else xor32 (shr l_var3 31) max_32
    else l_var_out

unfoldable pub msu_16by16_from_int32 : ℤ → ℤ → ℤ → ℤ
msu_16by16_from_int32 l_var3 var1 var2 =
    let l_prod = var1 *ℤ var2 in
    let l_mul = if eqb_ℤ l_prod (pos 0x4000_0000) then max_32 else shl32 l_prod 1 in
    let l_var_out = to_int32 (l_var3 -ℤ l_mul) in
    if eqb_ℤ (and32 (xor32 l_mul l_var3) min_32) (pos 0)
    then l_var_out
    else if eqb_ℤ (and32 (xor32 l_var_out l_var3) min_32) (pos 0)
    then l_var_out
    else xor32 (shr l_var3 31) max_32

unfoldable pub amr_wb_round : ℤ → ℤ
amr_wb_round l_var1 =
    to_int16 (shr (if eqb_ℤ l_var1 max_32 then l_var1 else to_int32 (l_var1 +ℤ pos 0x8000)) 16)

unfoldable pub amr_wb_shl1_round : ℤ → ℤ
amr_wb_shl1_round l_var1 =
    if eqb_ℤ (shr (shl32 l_var1 1) 1) l_var1
    then to_int16 (shr (to_int32 (l_var1 +ℤ pos 0x4000)) 15)
    else to_int16 (shr (xor32 (shr l_var1 31) max_32) 16)

unfoldable pub negate_int16 : ℤ → ℤ
negate_int16 var1 = if eqb_ℤ var1 min_16 then max_16 else to_int16 (neg var1)

-- A shift count is cut to its low four or five bits; `-` on a count wraps in an int16.
unfoldable pub shl_int16 : ℤ → ℤ → ℤ
shl_int16 var1 var2 =
    if ltb_ℤ var2 (pos 0)
    then shr var1 (bit_and (pattern32 (neg var2)) 0xf)
    else let count = bit_and (pattern32 var2) 0xf in
      let var_out = to_int16 (scale var1 count) in
      if eqb_ℤ (shr var_out count) var1 then var_out else to_int16 (xor32 (shr var1 15) max_16)

-- A count of 32 or more has no meaning in C; the callers' counts are smaller.
unfoldable pub shl_int32 : ℤ → ℤ → ℤ
shl_int32 l_var1 var2 =
    let count = pos_part var2 in
    let l_var_out = shl32 l_var1 count in
    if ltb_ℤ (pos 0) var2
    then if eqb_ℤ (shr l_var_out count) l_var1 then l_var_out else xor32 (shr l_var1 31) max_32
    else shr l_var1 (bit_and (pattern32 (neg var2)) 0xf)

unfoldable pub shr_int32 : ℤ → ℤ → ℤ
shr_int32 l_var1 var2 =
    let count = bit_and (pattern32 (to_int16 (neg var2))) 0x1f in
    let l_var_out = shl32 l_var1 count in
    if ltb_ℤ var2 (pos 0)
    then if eqb_ℤ (shr l_var_out count) l_var1 then l_var_out else xor32 (shr l_var1 31) max_32
    else shr l_var1 (bit_and (pattern32 var2) 0x1f)

-- The first guess of the shift, from the size of `x`.
unfoldable pub normalize_guess : ℤ → ℕ
normalize_guess x =
    if ltb_ℤ (pos 0x0FFF_FFFF) x
    then 0
    else if ltb_ℤ (pos 0x00FF_FFFF) x
    then 3
    else if ltb_ℤ (pos 0x0000_FFFF) x
    then if ltb_ℤ (pos 0x000F_FFFF) x then 7 else 11
    else if ltb_ℤ (pos 0x0000_00FF) x
    then if ltb_ℤ (pos 0x0000_0FFF) x then 15 else 19
    else if ltb_ℤ (pos 0x0000_000F) x
    then 23
    else 27

-- The `switch`, on the bits 27 to 30 of the shifted number.
unfoldable pub normalize_adjust : ℤ → ℕ → ℕ
normalize_adjust bits i =
    if eqb_ℤ bits (pos 0x0800_0000)
    then i + 3
    else if eqb_ℤ bits (pos 0x1800_0000) || eqb_ℤ bits (pos 0x1000_0000)
    then i + 2
    else if eqb_ℤ bits (pos 0x2800_0000)
        || eqb_ℤ bits (pos 0x2000_0000)
        || eqb_ℤ bits (pos 0x3800_0000)
        || eqb_ℤ bits (pos 0x3000_0000)
    then i + 1
    else i

unfoldable pub normalize_amr_wb : ℤ → ℕ
normalize_amr_wb x =
    let i = normalize_guess x in normalize_adjust (and32 (shl32 x i) (pos 0x7800_0000)) i
