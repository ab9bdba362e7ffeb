-- ===== src/Mathematics/Inverse.antt =====
-- one_ov_sqrt of pvamrwb_math_op.c, within a factor of two of the real number.
use talk2text.Prelude.{
  ℕ, zero, suc, ◌+◌, ◌-◌, ◌*◌, ◌/◌, ◌^◌, ◌≤◌, ◌<◌, ◌≡◌, refl, sym, ap, ◌∙◌, some, pos, ◌-ℤ◌, shr,
  neg, to_int16, to_int32, shl32, arith, Bool-cases, inl, inr, leb,
}
use native.Mathlib.Nat.{le-div_iff_mul-le, div-lt_iff_lt-mul, one-le-pow, le_refl}
use talk2text.Prelude.Bits.{bit_and_mask}
use talk2text.FixedPoint.{normalize_amr_wb, shl_int32}
use talk2text.FixedPoint.Norm.{normalize_amr_wb_lem}
use talk2text.Mathematics.{one_ov_sqrt}
use talk2text.Mathematics.Power.{two_pow-add}
use talk2text.Mathematics.SquareRoot.{one_ov_sqrt_norm-returns}

shl_exact : (n k : ℕ) → n * 2 ^ k < 2 ^ 31 → shl32 (pos n) k ≡ pos (n * 2 ^ k)
unfolding shl32 to_int32
shl_exact n k h = ground arith

-- The exponent is not positive here, so the last shift goes to the right.
pub shift_back : (l m : ℕ) → m < 16 → shl_int32 (pos l) (neg (pos m)) ≡ pos (l / 2 ^ m)
unfolding shl_int32
shift_back l zero h = refl
shift_back l (suc m) h = ground (arith, bit_and_mask 4 (suc m))

exponent_lem :
    (k : ℕ)
    → k ≤ 30
    → (to_int16 (pos 31 -ℤ pos k) ≡ pos (31 - k))
      × (shr (pos (31 - k) -ℤ pos 1) 1 ≡ pos ((30 - k) / 2))
unfolding ◌-ℤ◌ to_int16
exponent_lem k h = (ground arith, ground arith)

mul_mono : (a b c d : ℕ) → a ≤ c → b ≤ d → a * b ≤ c * d
mul_mono a b c d h k = grind arith

overflow : (x y z : ℕ) → x < 2 ^ 31 → 1 * y ≤ x → y ≡ 2 ^ 31 * z → 1 ≤ z → ⊥
overflow x y z h k e p = absurd (omega arith)

pub norm-le : (n k : ℕ) → 0 < n → n * 2 ^ k < 2 ^ 31 → k ≤ 30
norm-le n k p h = elim (Bool-cases (leb k 30)) [
  | inl small ↦ ground arith
  | inr big ↦
      let whole : 31 + (k - 31) ≡ k = ground arith in
      let e = two_pow-add 31 (k - 31) ∙ refl in
      let some_pow = one-le-pow (k - 31) 2 (omega arith) in
      let m = mul_mono 1 (2 ^ k) n (2 ^ k) p (le_refl _) in
      absurd (overflow (n * 2 ^ k) (2 ^ k) (2 ^ (k - 31)) h m (rw whole at e) some_pow)
]

quotient_range :
    (e m l : ℕ)
    → e + m ≡ 30
    → 2 ^ 30 ≤ l
    → l < 2 ^ 31
    → (2 ^ e ≤ l / 2 ^ m) × (l / 2 ^ m < 2 ^ (e + 1))
quotient_range e m l h p q =
    let at_30 : 2 ^ e * 2 ^ m ≡ 2 ^ 30 = sym (two_pow-add e m) ∙ ap (λ n. 2 ^ n) h in
    let h' : e + 1 + m ≡ 31 = omega arith in
    let at_31 : 2 ^ (e + 1) * 2 ^ m ≡ 2 ^ 31 = sym (two_pow-add (e + 1) m) ∙ ap (λ n. 2 ^ n) h' in
    (
      (le-div_iff_mul-le (one-le-pow m 2 (omega arith))).1 (rw at_30 p),
      (div-lt_iff_lt-mul (one-le-pow m 2 (omega arith))).1 (rw at_31 q),
    )

product : (a b c : ℕ) → 2 ^ a * 2 ^ b * 2 ^ c ≡ 2 ^ (a + b + c)
product a b c = rw (two_pow-add (a + b) c, two_pow-add a b) refl

pub whole_30 : (k : ℕ) → k ≤ 30 → 30 - k + k ≡ 30
whole_30 k h = omega arith

pub whole_31 : (k : ℕ) → k ≤ 30 → 31 - k + k ≡ 31
whole_31 k h = omega arith

pub cancel : (a b c : ℕ) → a * c ≤ b * c → 1 ≤ c → a ≤ b
cancel a b c h p = grind arith

pub cancel_lt : (a b c : ℕ) → a * c < b * c → a < b
cancel_lt a b c h = grind arith

strict : (x y z w v : ℕ) → x ≤ y → z ≡ y + w → 1 * 1 ≤ w → z ≤ v → x < v
strict x y z w v h e p q = omega arith

mul_strict : (r s n m : ℕ) → r < s → n < m → r * r * n < s * s * m
mul_strict r s n m h k =
    let squares =
      mul_mono (r * r) n (s * s) n (mul_mono r r s s (omega arith) (omega arith)) (le_refl _) in
    let one_more = mul_mono (s * s) (n + 1) (s * s) m (le_refl _) (omega arith) in
    let some_square = mul_mono 1 1 s s (omega arith) (omega arith) in
    let split : s * s * (n + 1) ≡ s * s * n + s * s = grind arith in
    strict (r * r * n) (s * s * n) (s * s * (n + 1)) (s * s) (s * s * m) squares split some_square
      one_more

pow_le_two : (d : ℕ) → d ≤ 1 → 2 ^ d ≤ 2
pow_le_two zero h = omega arith
pow_le_two (suc zero) h = omega arith
pow_le_two (suc (suc d)) h = absurd (omega arith)

between : (x y : ℕ) → 1 ≤ y → y ≤ 2 → 2 ^ 60 * y ≤ x → x < 2 ^ 63 * y → (2 ^ 60 ≤ x) × (x < 2 ^ 64)
between x y p q low high = (omega arith, omega arith)

-- The square of the result, times the argument.
square_bounds :
    (n k e m r : ℕ)
    → k ≤ 30
    → m ≡ (30 - k) / 2
    → e + m ≡ 30
    → 2 ^ 30 ≤ n * 2 ^ k
    → n * 2 ^ k < 2 ^ 31
    → 2 ^ e ≤ r
    → r < 2 ^ (e + 1)
    → (2 ^ 60 ≤ r * r * n) × (r * r * n < 2 ^ 64)
square_bounds n k e m r small em h p q low high =
    let d = 30 - k - 2 * m in
    let e_30 : 2 ^ (30 - k) * 2 ^ k ≡ 2 ^ 30 =
      sym (two_pow-add (30 - k) k) ∙ ap (λ n. 2 ^ n) (whole_30 k small) in
    let e_31 : 2 ^ (31 - k) * 2 ^ k ≡ 2 ^ 31 =
      sym (two_pow-add (31 - k) k) ∙ ap (λ n. 2 ^ n) (whole_31 k small) in
    let least : 2 ^ (30 - k) ≤ n =
      cancel (2 ^ (30 - k)) n (2 ^ k) (rw e_30 p) (one-le-pow k 2 (omega arith)) in
    let most : n < 2 ^ (31 - k) = cancel_lt n (2 ^ (31 - k)) (2 ^ k) (rw e_31 q) in
    let low_2 = mul_mono _ _ _ _ (mul_mono _ _ _ _ low low) least in
    let high_2 = mul_strict r (2 ^ (e + 1)) n (2 ^ (31 - k)) high most in
    let sum_60 : e + e + (30 - k) ≡ 60 + d = omega arith in
    let sum_63 : e + 1 + (e + 1) + (31 - k) ≡ 63 + d = omega arith in
    let under : 2 ^ e * 2 ^ e * 2 ^ (30 - k) ≡ 2 ^ 60 * 2 ^ d =
      product e e (30 - k) ∙ ap (λ n. 2 ^ n) sum_60 ∙ two_pow-add 60 d in
    let over : 2 ^ (e + 1) * 2 ^ (e + 1) * 2 ^ (31 - k) ≡ 2 ^ 63 * 2 ^ d =
      product (e + 1) (e + 1) (31 - k) ∙ ap (λ n. 2 ^ n) sum_63 ∙ two_pow-add 63 d in
    between (r * r * n) (2 ^ d) (one-le-pow d 2 (omega arith)) (pow_le_two d (omega arith))
      (rw under at low_2) (rw over at high_2)

-- For every positive int32 `n`, `one_ov_sqrt` returns, so it reads nothing outside its table, and
-- its result `r` has r * r * n from 2 ^ 60 to below 2 ^ 64, so it is between the half and the
-- double of 2 ^ 31 divided by the square root of `n`.
pub one_ov_sqrt-bounds :
    (n : ℕ)
    → 0 < n
    → n < 2 ^ 31
    → (r : ℕ) × (one_ov_sqrt (pos n) ≡ some (pos r)) × (2 ^ 60 ≤ r * r * n) × (r * r * n < 2 ^ 64)
unfolding one_ov_sqrt
one_ov_sqrt-bounds n p h =
    let k = normalize_amr_wb (pos n) in
    let (least, fits) = normalize_amr_wb_lem n p h in
    let small = norm-le n k p fits in
    let m = (30 - k) / 2 in
    let (start, half) = exponent_lem k small in
    let (l, e, low, high) =
      one_ov_sqrt_norm-returns (n * 2 ^ k) (pos (31 - k)) least fits (omega arith, omega arith) in
    let (from, upto) = quotient_range (30 - m) m l (omega arith) low high in
    let (under, over) =
      square_bounds n k (30 - m) m (l / 2 ^ m) small refl (omega arith) least fits from upto in
    (
      l / 2 ^ m,
      rw (shl_exact n k fits, start, e, half, shift_back l m (omega arith)) refl,
      under,
      over,
    )
