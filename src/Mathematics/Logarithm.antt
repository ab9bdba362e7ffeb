-- ===== src/Mathematics/Logarithm.antt =====
-- Lg2_normalized and amrwb_log_2 of pvamrwb_math_op.c.
use talk2text.Prelude.{
  ℕ, zero, suc, ◌+◌, ◌-◌, ◌*◌, ◌/◌, ◌%◌, ◌^◌, ◌≤◌, ◌<◌, ◌≡◌, refl, sym, ap, ◌∙◌, Bool, true, ◌&&◌,
  leb, all_below, all_below_sound, some, get_or, pos, ◌+ℤ◌, ◌-ℤ◌, ◌*ℤ◌, shr, to_int16, to_int32,
  shl32, eqb_ℤ, ltb_ℤ, IsInt16, sat32, arith,
}
use native.Mathlib.Nat.{one-le-pow, mul-div_cancel}
use talk2text.FixedPoint.{msu_16by16_from_int32, normalize_amr_wb, shl_int32}
use talk2text.FixedPoint.Norm.{normalize_amr_wb_lem}
use talk2text.FixedPoint.Wide.{msu_16by16-sub_int32}
use talk2text.Mathematics.{log2_norm_table, lg2_normalized, amrwb_log_2}
use talk2text.Mathematics.Power.{get_elem?-get_or, two_pow-add}
use talk2text.Mathematics.SquareRoot.{low_bits, shl_exact, shifted}
use talk2text.Mathematics.Inverse.{norm-le, cancel, cancel_lt, whole_30, whole_31}

-- The entries grow, up to 2 ^ 15 - 1.
grows : ℕ → Bool
grows i =
    leb (get_or log2_norm_table i 0) (get_or log2_norm_table (i + 1) 0)
    && leb (get_or log2_norm_table (i + 1) 0) 32767

table-grows : all_below 32 grows ≡ true
unfolding all_below grows
table-grows = refl

from_test : (t t' : ℕ) → (leb t t' && leb t' 32767) ≡ true → (t ≤ t') × (t' ≤ 32767)
from_test t t' h = ground arith

step_down : (t t' : ℕ) → t ≤ t' → t' ≤ 32767 → to_int16 (pos t -ℤ pos t') ≡ pos 0 -ℤ pos (t' - t)
unfolding to_int16 ◌-ℤ◌
step_down t t' q r = ground arith

minus_twice :
    (d a : ℕ) → (pos 0 -ℤ pos d) *ℤ pos a +ℤ (pos 0 -ℤ pos d) *ℤ pos a ≡ pos 0 -ℤ pos (2 * (d * a))
unfolding ◌+ℤ◌ ◌*ℤ◌ ◌-ℤ◌
minus_twice zero a = ground arith
minus_twice (suc d) a = ground arith

minus_in_range : (y : ℕ) → y ≤ 2 ^ 31 → sat32 (pos 0 -ℤ pos y) ≡ pos 0 -ℤ pos y
unfolding ◌-ℤ◌
minus_in_range y h = ground arith

minus_minus : (x y : ℕ) → pos x -ℤ (pos 0 -ℤ pos y) ≡ pos (x + y)
unfolding ◌-ℤ◌
minus_minus x y = ground arith

in_range : (x : ℕ) → x < 2 ^ 31 → sat32 (pos x) ≡ pos x
in_range x h = ground arith

minus-IsInt16 : (d : ℕ) → d < 2 ^ 15 → IsInt16 (pos 0 -ℤ pos d)
unfolding ◌-ℤ◌
minus-IsInt16 d h = ground arith

interpolate_bound :
    (t t' a : ℕ) → t ≤ t' → t' ≤ 32767 → a < 2 ^ 15 → t * 2 ^ 16 + 2 * ((t' - t) * a) ≤ t' * 2 ^ 16
interpolate_bound t t' a q r s =
    let m : (t' - t) * a ≤ (t' - t) * 2 ^ 15 = grind arith in omega arith

interpolate :
    (t t' a : ℕ)
    → t ≤ t'
    → t' ≤ 32767
    → a < 2 ^ 15
    → msu_16by16_from_int32 (shl32 (pos t) 16) (to_int16 (pos t -ℤ pos t')) (pos a)
      ≡ pos (t * 2 ^ 16 + 2 * ((t' - t) * a))
interpolate t t' a q r s =
    let bound = interpolate_bound t t' a q r s in
    let msu =
      msu_16by16-sub_int32 (shl32 (pos t) 16) (pos 0 -ℤ pos (t' - t)) (pos a)
        (shifted t (omega arith)) (minus-IsInt16 (t' - t) (omega arith))
        (omega arith, omega arith) in
    rw
      (
        step_down t t' q r,
        msu,
        minus_twice (t' - t) a,
        minus_in_range (2 * ((t' - t) * a)) (omega arith),
        shl_exact t (omega arith),
        minus_minus (t * 2 ^ 16) (2 * ((t' - t) * a)),
        in_range (t * 2 ^ 16 + 2 * ((t' - t) * a)) (omega arith),
      )
      refl

high_bits :
    (f : ℕ)
    → f < 2 ^ 22
    → 2 ^ 21 ≤ f
    → to_int16 (to_int16 (shr (pos f) 16) -ℤ pos 32) ≡ pos (f / 2 ^ 16 - 32)
unfolding to_int16 ◌-ℤ◌
high_bits f h p = ground arith

fraction_bits : (y : ℕ) → y < 2 ^ 31 → to_int16 (shr (pos y) 16) ≡ pos (y / 2 ^ 16)
unfolding to_int16
fraction_bits y h = ground arith

exponent_lem : (k : ℕ) → k ≤ 30 → to_int16 (pos 30 -ℤ pos k) ≡ pos (30 - k)
unfolding to_int16 ◌-ℤ◌
exponent_lem k h = ground arith

lg2_normalized-returns :
    (f k : ℕ)
    → 2 ^ 30 ≤ f
    → f < 2 ^ 31
    → k ≤ 30
    → (fraction : ℕ) × (lg2_normalized (pos f) k ≡ some (pos (30 - k), pos fraction))
      × (fraction < 2 ^ 15)
unfolding lg2_normalized grows ◌+ℤ◌
lg2_normalized-returns f k p q h =
    let positive : ltb_ℤ (pos 0) (pos f) ≡ true = ground arith in
    let j = f / 2 ^ 9 / 2 ^ 16 - 32 in
    let t = get_or log2_norm_table j 0 in
    let t' = get_or log2_norm_table (j + 1) 0 in
    let a = f / 2 ^ 9 / 2 % 2 ^ 15 in
    let (up, high) = from_test t t' (all_below_sound 32 grows j table-grows (omega arith)) in
    let bound = interpolate_bound t t' a up high (omega arith) in
    let y = t * 2 ^ 16 + 2 * ((t' - t) * a) in
    let next : pos j +ℤ pos 1 ≡ pos (j + 1) = ground arith in
    (
      y / 2 ^ 16,
      rw
          (
            positive,
            exponent_lem k h,
            high_bits (f / 2 ^ 9) (omega arith) (omega arith),
            next,
            get_elem?-get_or log2_norm_table j (omega arith),
            get_elem?-get_or log2_norm_table (j + 1) (omega arith),
            low_bits (f / 2 ^ 9),
            interpolate t t' a up high (omega arith),
            fraction_bits y (omega arith),
          )
          refl,
      omega arith,
    )

-- The normalizing shift does not saturate.
shl_pow : (n k : ℕ) → n * 2 ^ k < 2 ^ 31 → shl32 (pos n) k ≡ pos (n * 2 ^ k)
unfolding shl32 to_int32
shl_pow n k h = ground arith

shift_exact : (n k : ℕ) → n * 2 ^ k < 2 ^ 31 → shl_int32 (pos n) (pos k) ≡ pos (n * 2 ^ k)
unfolding shl_int32
shift_exact n zero h = ground arith
shift_exact n (suc k) h =
    let back : n * 2 ^ suc k / 2 ^ suc k ≡ n =
      mul-div_cancel n (one-le-pow (suc k) 2 (omega arith)) in
    let same : eqb_ℤ (pos n) (pos n) ≡ true = ground arith in
    let left : ltb_ℤ (pos 0) (pos (suc k)) ≡ true = ground arith in
    rw (shl_pow n (suc k) h, left, back, same) refl

-- For every positive int32 `n`, `amrwb_log_2` returns, so it reads nothing outside its table, the
-- exponent is the greatest `e` with 2 ^ e at most `n`, and the fraction is from 0 to below 2 ^ 15.
pub amrwb_log_2-floor :
    (n : ℕ)
    → 0 < n
    → n < 2 ^ 31
    → (e : ℕ) × (fraction : ℕ) × (amrwb_log_2 (pos n) ≡ some (pos e, pos fraction))
      × (2 ^ e ≤ n)
      × (n < 2 ^ (e + 1))
      × (fraction < 2 ^ 15)
unfolding amrwb_log_2
amrwb_log_2-floor n p h =
    let k = normalize_amr_wb (pos n) in
    let (least, fits) = normalize_amr_wb_lem n p h in
    let small = norm-le n k p fits in
    let (fraction, e, below) = lg2_normalized-returns (n * 2 ^ k) k least fits small in
    let e_30 : 2 ^ (30 - k) * 2 ^ k ≡ 2 ^ 30 =
      sym (two_pow-add (30 - k) k) ∙ ap (λ n. 2 ^ n) (whole_30 k small) in
    let one_more : 30 - k + 1 ≡ 31 - k = omega arith in
    let e_31 : 2 ^ (31 - k) * 2 ^ k ≡ 2 ^ 31 =
      sym (two_pow-add (31 - k) k) ∙ ap (λ n. 2 ^ n) (whole_31 k small) in
    (
      30 - k,
      fraction,
      rw (shift_exact n k fits) e,
      cancel (2 ^ (30 - k)) n (2 ^ k) (rw e_30 least) (one-le-pow k 2 (omega arith)),
      rw one_more (cancel_lt n (2 ^ (31 - k)) (2 ^ k) (rw e_31 fits)),
      below,
    )
