-- ===== src/Mathematics/SquareRoot.antt =====
-- one_ov_sqrt_norm and one_ov_sqrt of pvamrwb_math_op.c: they stay in their table.
use talk2text.Prelude.{
  ℕ, ◌+◌, ◌-◌, ◌*◌, ◌/◌, ◌%◌, ◌^◌, ◌≤◌, ◌<◌, bit_and, ◌≡◌, refl, ◌∙◌, Bool, true, ◌&&◌, leb, ◌==◌,
  all_below, all_below_sound, Option, some, get_or, ℤ, pos, negsuc, ◌+ℤ◌, ◌-ℤ◌, ◌*ℤ◌, shr, neg,
  neg_part, to_int16, to_int16_id, to_int32, shl32, pattern16, ltb_ℤ, IsInt16, IsInt32, sat32,
  sat16, arith, Bool-cases, inl, inr,
}
use talk2text.Prelude.Bits.{bit_and_mask}
use talk2text.FixedPoint.{negate_int16, msu_16by16_from_int32}
use talk2text.FixedPoint.Rounding.{negate_int16-sat16}
use talk2text.FixedPoint.Wide.{msu_16by16-sub_int32}
use talk2text.Mathematics.{table_isqrt, one_ov_sqrt_norm, at, ◌>>=◌}
use talk2text.Mathematics.Power.{get_elem?-get_or}

-- The entries fall, from 2 ^ 15 - 1 to 2 ^ 14.
falls : ℕ → Bool
falls i =
    leb 16384 (get_or table_isqrt (i + 1) 0)
    && leb (get_or table_isqrt (i + 1) 0) (get_or table_isqrt i 0)
    && leb (get_or table_isqrt i 0) 32767

table-falls : all_below 48 falls ≡ true
unfolding all_below falls
table-falls = refl

from_test :
    (t t' : ℕ)
    → (leb 16384 t' && leb t' t && leb t 32767) ≡ true
    → (16384 ≤ t') × (t' ≤ t) × (t ≤ 32767)
from_test t t' h = ground arith

step_up : (t t' : ℕ) → t' ≤ t → t ≤ 32767 → to_int16 (pos t -ℤ pos t') ≡ pos (t - t')
unfolding to_int16 ◌-ℤ◌
step_up t t' q r = ground arith

interpolate_bound :
    (t t' a : ℕ)
    → 16384 ≤ t'
    → t' ≤ t
    → t ≤ 32767
    → a < 2 ^ 15
    → (t' * 2 ^ 16 ≤ t * 2 ^ 16 - 2 * ((t - t') * a)) × (2 * ((t - t') * a) ≤ t * 2 ^ 16)
interpolate_bound t t' a p q r s =
    let m : (t - t') * a ≤ (t - t') * 2 ^ 15 = grind arith in (omega arith, omega arith)

pub shifted : (t : ℕ) → t < 2 ^ 15 → IsInt32 (shl32 (pos t) 16)
unfolding shl32 to_int32
shifted t p = ground arith

doubled : (d a : ℕ) → pos d *ℤ pos a +ℤ pos d *ℤ pos a ≡ pos (2 * (d * a))
unfolding ◌+ℤ◌ ◌*ℤ◌
doubled d a = ground arith

subtracted : (x y : ℕ) → y ≤ x → pos x -ℤ pos y ≡ pos (x - y)
unfolding ◌-ℤ◌
subtracted x y h = ground arith

in_range : (x : ℕ) → x < 2 ^ 31 → sat32 (pos x) ≡ pos x
in_range x h = ground arith

pub shl_exact : (t : ℕ) → t < 2 ^ 15 → shl32 (pos t) 16 ≡ pos (t * 2 ^ 16)
unfolding shl32 to_int32
shl_exact t p = ground arith

-- Nothing of this saturates.
exact_lem :
    (t x d a : ℕ)
    → d * a ≡ x
    → t < 2 ^ 15
    → 2 * x ≤ t * 2 ^ 16
    → sat32 (shl32 (pos t) 16 -ℤ sat32 (pos d *ℤ pos a +ℤ pos d *ℤ pos a))
      ≡ pos (t * 2 ^ 16 - 2 * x)
exact_lem t x d a e p q =
    rw
      (
        doubled d a,
        e,
        in_range (2 * x) (omega arith),
        shl_exact t p,
        subtracted (t * 2 ^ 16) (2 * x) q,
        in_range (t * 2 ^ 16 - 2 * x) (omega arith),
      )
      refl

interpolate :
    (t t' a : ℕ)
    → 16384 ≤ t'
    → t' ≤ t
    → t ≤ 32767
    → a < 2 ^ 15
    → msu_16by16_from_int32 (shl32 (pos t) 16) (to_int16 (pos t -ℤ pos t')) (pos a)
      ≡ pos (t * 2 ^ 16 - 2 * ((t - t') * a))
interpolate t t' a p q r s = rw (step_up t t' q r) (
    msu_16by16-sub_int32 (shl32 (pos t) 16) (pos (t - t')) (pos a) (shifted t (omega arith))
      (omega arith, omega arith) (omega arith, omega arith)
    ∙ exact_lem t ((t - t') * a) (t - t') a refl (omega arith) (interpolate_bound t t' a p q r s).1)

pred_small : (exp : ℤ) → IsInt16 exp → IsInt16 (shr (exp -ℤ pos 1) 1)
unfolding ◌-ℤ◌
pred_small exp h = ground arith

pred_smaller : (exp : ℤ) → IsInt16 exp → neg_part (shr (exp -ℤ pos 1) 1) < 2 ^ 15
unfolding ◌-ℤ◌
pred_smaller exp h = ground arith

not_saturated : (z : ℤ) → IsInt16 z → neg_part z < 2 ^ 15 → sat16 (neg z) ≡ neg z
not_saturated (pos n) i h = ground arith
not_saturated (negsuc n) i h = ground arith

exponent_lem :
    (exp : ℤ)
    → IsInt16 exp
    → negate_int16 (to_int16 (shr (exp -ℤ pos 1) 1)) ≡ neg (shr (exp -ℤ pos 1) 1)
exponent_lem exp h =
    let small = pred_small exp h in
    rw (to_int16_id (shr (exp -ℤ pos 1) 1) small)
      (negate_int16-sat16 _ small ∙ not_saturated _ small (pred_smaller exp h))

high_bits :
    (f : ℕ)
    → f < 2 ^ 22
    → to_int16 (to_int16 (shr (pos f) 16) -ℤ pos 16) ≡ (pos (f / 2 ^ 16) -ℤ pos 16)
unfolding to_int16 ◌-ℤ◌
high_bits f h = ground arith

pub low_bits : (f : ℕ) → bit_and (pattern16 (shr (pos f) 1)) 0x7fff ≡ f / 2 % 2 ^ 15
low_bits f = ground (arith, bit_and_mask 15 (f / 2 % 2 ^ 16))

index_lem :
    (i : ℕ) → 16 ≤ i → (pos i -ℤ pos 16 ≡ pos (i - 16)) × (pos (i - 16) +ℤ pos 1 ≡ pos (i - 16 + 1))
unfolding ◌-ℤ◌ ◌+ℤ◌
index_lem i h = (ground arith, ground arith)

-- The part of `one_ov_sqrt_norm` behind the shift of the fraction.
read_table : ℤ → ℤ → Option (ℤ × ℤ)
read_table frac exp' = do
  let high = shr frac 9
  let i = to_int16 (to_int16 (shr high 16) -ℤ pos 16)
  let a = bit_and (pattern16 (shr high 1)) 0x7fff
  t ← at table_isqrt i
  t' ← at table_isqrt (i +ℤ pos 1)
  let tmp = to_int16 (pos t -ℤ pos t')
  some (msu_16by16_from_int32 (shl32 (pos t) 16) tmp (pos a), exp')

read_table-returns :
    (f : ℕ) (exp' : ℤ)
    → 2 ^ 29 ≤ f
    → f < 2 ^ 31
    → (l : ℕ) × (read_table (pos f) exp' ≡ some (pos l, exp')) × (2 ^ 30 ≤ l) × (l < 2 ^ 31)
unfolding read_table falls
read_table-returns f exp' p q =
    let j = f / 2 ^ 9 / 2 ^ 16 - 16 in
    let t = get_or table_isqrt j 0 in
    let t' = get_or table_isqrt (j + 1) 0 in
    let a = f / 2 ^ 9 / 2 % 2 ^ 15 in
    let (low, down, high) = from_test t t' (all_below_sound 48 falls j table-falls (omega arith)) in
    let (least, fits) = interpolate_bound t t' a low down high (omega arith) in
    let (here, next) = index_lem (f / 2 ^ 9 / 2 ^ 16) (omega arith) in
    (
      t * 2 ^ 16 - 2 * ((t - t') * a),
      rw
          (
            high_bits (f / 2 ^ 9) (omega arith),
            here,
            next,
            get_elem?-get_or table_isqrt j (omega arith),
            get_elem?-get_or table_isqrt (j + 1) (omega arith),
            low_bits (f / 2 ^ 9),
            interpolate t t' a low down high (omega arith),
          )
          refl,
      omega arith,
      omega arith,
    )

-- On a fraction from 2 ^ 30 to below 2 ^ 31 `one_ov_sqrt_norm` returns one of the same range, and the
-- exponent halved and negated.
pub one_ov_sqrt_norm-returns :
    (f : ℕ) (exp : ℤ)
    → 2 ^ 30 ≤ f
    → f < 2 ^ 31
    → IsInt16 exp
    → (l : ℕ) × (one_ov_sqrt_norm (pos f) exp ≡ some (pos l, neg (shr (exp -ℤ pos 1) 1)))
      × (2 ^ 30 ≤ l)
      × (l < 2 ^ 31)
unfolding one_ov_sqrt_norm read_table
one_ov_sqrt_norm-returns f exp p q h =
    let positive : ltb_ℤ (pos 0) (pos f) ≡ true = ground arith in
    elim (Bool-cases (bit_and (pattern16 exp) 1 == 1)) [
      | inl odd ↦
          let (l, e, least, fits) =
            read_table-returns (f / 2) (neg (shr (exp -ℤ pos 1) 1)) (omega arith) (omega arith) in
          (l, rw (positive, odd, exponent_lem exp h) e, least, fits)
      | inr even ↦
          let (l, e, least, fits) =
            read_table-returns f (neg (shr (exp -ℤ pos 1) 1)) (omega arith) (omega arith) in
          (l, rw (positive, even, exponent_lem exp h) e, least, fits)
    ]
