-- ===== src/Mathematics.antt =====
-- pvamrwb_math_op.c: rounding products and shifts, the division of fractions, and the functions that
-- interpolate in a table. `none` is an access outside the table, or a shift by a count that C does not
-- define.
pub mod Division
pub mod Power
pub mod SquareRoot
pub mod Inverse
pub mod Logarithm
pub mod Products
use talk2text.Prelude.{
  ℕ, zero, suc, ◌+◌, ◌-◌, ◌*◌, ◌/◌, ◌%◌, ◌^◌, bit_and, bit_or, Bool, true, false, ◌||◌,
  if◌then◌else◌, ltb, ◌==◌, Option, none, some, List, [], ◌∷◌, get_elem?, ℤ, pos, negsuc, pos_part,
  ◌+ℤ◌, ◌-ℤ◌, ◌*ℤ◌, neg, shr, scale, ltb_ℤ, eqb_ℤ, to_int16, to_int32, shl32, xor32, and32,
  pattern16, pattern32, max_16, max_32,
}
use talk2text.FixedPoint.{
  negate_int16, shl_int32, msu_16by16_from_int32, mac_16by16_to_int32, normalize_amr_wb,
}

infixl 5 ◌>>=◌
abbrev pub ◌>>=◌ {ℓ κ} : {A : Type ℓ} {B : Type κ} → Option A → (A → Option B) → Option B
none >>= f = none
some a >>= f = f a

unfoldable pub mult_int16_r : ℤ → ℤ → ℤ
mult_int16_r var1 var2 =
    let l_product = shr (var1 *ℤ var2 +ℤ pos 0x4000) 15 in
    to_int16 (
      if eqb_ℤ (shr l_product 15) (shr l_product 31)
      then l_product
      else xor32 (shr l_product 31) max_16)

-- One comparison of the loop: the multiple of the denominator, and the bit that it stands for.
unfoldable pub take_off : ℕ → ℕ → ℕ × ℕ → ℕ × ℕ
take_off l_multiple bit (var_out, l_num) =
    if ltb l_num l_multiple then (var_out, l_num) else (bit_or var_out bit, l_num - l_multiple)

-- A pass of the loop gives three bits of the quotient; the numbers are not negative there.
unfoldable pub div_pass : ℕ → ℕ × ℕ → ℕ × ℕ
div_pass l_denom (var_out, l_num) =
    take_off l_denom 1
      (take_off (l_denom * 2) 2 (take_off (l_denom * 2 ^ 2) 4 (var_out * 2 ^ 3, l_num * 2 ^ 3)))

unfoldable pub div_loop : ℕ → ℕ → ℕ × ℕ → ℕ × ℕ
div_loop zero l_denom v = v
div_loop (suc iteration) l_denom v = div_loop iteration l_denom (div_pass l_denom v)

unfoldable pub div_16by16 : ℤ → ℤ → ℤ
div_16by16 var1 var2 =
    if ltb_ℤ var2 var1 || ltb_ℤ var1 (pos 0)
    then pos 0
    else if eqb_ℤ var1 (pos 0)
    then pos 0
    else if eqb_ℤ var1 var2
    then max_16
    else pos (div_loop 5 (pos_part var2) (0, pos_part var1)).0

abbrev pub table_isqrt : List ℕ
table_isqrt =
    32767 ∷ 31790 ∷ 30894 ∷ 30070 ∷ 29309 ∷ 28602 ∷ 27945 ∷ 27330 ∷ 26755 ∷ 26214 ∷ 25705 ∷ 25225
    ∷ 24770 ∷ 24339 ∷ 23930 ∷ 23541 ∷ 23170 ∷ 22817 ∷ 22479 ∷ 22155 ∷ 21845 ∷ 21548 ∷ 21263 ∷ 20988
    ∷ 20724 ∷ 20470 ∷ 20225 ∷ 19988 ∷ 19760 ∷ 19539 ∷ 19326 ∷ 19119 ∷ 18919 ∷ 18725 ∷ 18536 ∷ 18354
    ∷ 18176 ∷ 18004 ∷ 17837 ∷ 17674 ∷ 17515 ∷ 17361 ∷ 17211 ∷ 17064 ∷ 16921 ∷ 16782 ∷ 16646 ∷ 16514
    ∷ 16384 ∷ []

abbrev pub table_pow2 : List ℕ
table_pow2 =
    16384 ∷ 16743 ∷ 17109 ∷ 17484 ∷ 17867 ∷ 18258 ∷ 18658 ∷ 19066 ∷ 19484 ∷ 19911 ∷ 20347 ∷ 20792
    ∷ 21247 ∷ 21713 ∷ 22188 ∷ 22674 ∷ 23170 ∷ 23678 ∷ 24196 ∷ 24726 ∷ 25268 ∷ 25821 ∷ 26386 ∷ 26964
    ∷ 27554 ∷ 28158 ∷ 28774 ∷ 29405 ∷ 30048 ∷ 30706 ∷ 31379 ∷ 32066 ∷ 32767 ∷ []

-- An entry of a table, at a signed index.
abbrev pub at : List ℕ → ℤ → Option ℕ
at table (pos i) = get_elem? table i
at table (negsuc i) = none

-- The fraction and the exponent, where the fraction is greater than zero.
unfoldable pub one_ov_sqrt_norm : ℤ → ℤ → Option (ℤ × ℤ)
one_ov_sqrt_norm frac exp =
    if ltb_ℤ (pos 0) frac
    then (do
      let odd_frac = if bit_and (pattern16 exp) 1 == 1 then shr frac 1 else frac
      let exp' = negate_int16 (to_int16 (shr (exp -ℤ pos 1) 1))
      let high = shr odd_frac 9
      let i = to_int16 (to_int16 (shr high 16) -ℤ pos 16)
      let a = bit_and (pattern16 (shr high 1)) 0x7fff
      t ← at table_isqrt i
      t' ← at table_isqrt (i +ℤ pos 1)
      let tmp = to_int16 (pos t -ℤ pos t')
      some (msu_16by16_from_int32 (shl32 (pos t) 16) tmp (pos a), exp'))
    else some (max_32, pos 0)

unfoldable pub one_ov_sqrt : ℤ → Option ℤ
one_ov_sqrt l_x =
    let exp = normalize_amr_wb l_x in
    one_ov_sqrt_norm (shl32 l_x exp) (to_int16 (pos 31 -ℤ pos exp)) >>= λ (frac, exp').
    some (shl_int32 frac exp')

-- A shift to the right by a count that C defines.
abbrev pub shr_defined : ℤ → ℤ → Option ℤ
shr_defined l_x (pos count) = if ltb count 32 then some (shr l_x count) else none
shr_defined l_x (negsuc count) = none

-- The shift with rounding of the end; none where the count is zero.
unfoldable pub shr_rounded : ℤ → ℤ → Option ℤ
shr_rounded l_x exp =
    if eqb_ℤ exp (pos 0)
    then some l_x
    else (shr_defined l_x exp >>= λ whole.
        shr_defined l_x (exp -ℤ pos 1) >>= λ half. some (to_int32 (whole +ℤ and32 half (pos 1))))

unfoldable pub power_of_2 : ℤ → ℤ → Option ℤ
power_of_2 exponant fraction = do
  let i = shr fraction 10
  let a = bit_and (pattern16 (scale fraction 5)) 0x7fff
  t ← at table_pow2 i
  t' ← at table_pow2 (i +ℤ pos 1)
  let tmp = to_int16 (pos t -ℤ pos t')
  let l_x = to_int32 (shl32 (pos t) 15 -ℤ tmp *ℤ pos a)
  shr_rounded l_x (to_int16 (pos 29 -ℤ exponant))

abbrev pub log2_norm_table : List ℕ
log2_norm_table =
    0 ∷ 1455 ∷ 2866 ∷ 4236 ∷ 5568 ∷ 6863 ∷ 8124 ∷ 9352 ∷ 10549 ∷ 11716 ∷ 12855 ∷ 13967 ∷ 15054
    ∷ 16117 ∷ 17156 ∷ 18172 ∷ 19167 ∷ 20142 ∷ 21097 ∷ 22033 ∷ 22951 ∷ 23852 ∷ 24735 ∷ 25603 ∷ 26455
    ∷ 27291 ∷ 28113 ∷ 28922 ∷ 29716 ∷ 30497 ∷ 31266 ∷ 32023 ∷ 32767 ∷ []

-- The exponent and the fraction.
unfoldable pub lg2_normalized : ℤ → ℕ → Option (ℤ × ℤ)
lg2_normalized l_x exp =
    if ltb_ℤ (pos 0) l_x
    then (do
      let exponent = to_int16 (pos 30 -ℤ pos exp)
      let high = shr l_x 9
      let i = to_int16 (to_int16 (shr high 16) -ℤ pos 32)
      let a = bit_and (pattern16 (shr high 1)) 0x7fff
      t ← at log2_norm_table i
      t' ← at log2_norm_table (i +ℤ pos 1)
      let tmp = to_int16 (pos t -ℤ pos t')
      let l_y = msu_16by16_from_int32 (shl32 (pos t) 16) tmp (pos a)
      some (exponent, to_int16 (shr l_y 16)))
    else some (pos 0, pos 0)

unfoldable pub amrwb_log_2 : ℤ → Option (ℤ × ℤ)
amrwb_log_2 l_x = let exp = normalize_amr_wb l_x in lg2_normalized (shl_int32 l_x (pos exp)) exp

-- The products of the loop, which its body has eight times.
unfoldable pub accumulate : ℕ → List ℤ → List ℤ → ℤ → Option ℤ
accumulate zero xs ys l_sum = some l_sum
accumulate (suc i) (x ∷ xs) (y ∷ ys) l_sum = accumulate i xs ys (mac_16by16_to_int32 l_sum x y)
accumulate (suc i) _ _ l_sum = none

-- The sum and its exponent.
unfoldable pub dot_product12 : List ℤ → List ℤ → ℕ → Option (ℤ × ℤ)
dot_product12 x y lg = accumulate (lg / 2 ^ 3 * 8) x y (pos 1) >>= λ l_sum.
    let sft = normalize_amr_wb l_sum in some (shl32 l_sum sft, to_int16 (pos 30 -ℤ pos sft))

-- The upper and the lower half.
unfoldable pub int32_to_dpf : ℤ → ℤ × ℤ
int32_to_dpf l_32 =
    let hi = to_int16 (shr l_32 16) in (hi, to_int16 (shr (to_int32 (l_32 -ℤ shl32 hi 16)) 1))
