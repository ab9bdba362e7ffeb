-- ===== src/Mathematics/Division.antt =====
-- mult_int16_r and div_16by16 of pvamrwb_math_op.c against exact arithmetic.
use talk2text.Prelude.{
  ℕ, zero, suc, ◌+◌, ◌*◌, ◌/◌, ◌^◌, ◌≤◌, ◌<◌, bit_or, ◌≡◌, refl, ap, ◌⊎◌, true, false, ltb, ℤ, pos,
  negsuc, pos_part, neg_part, IsInt16, IsInt32, sat16, shr, ◌*ℤ◌, ◌+ℤ◌, eqb_ℤ, ◌==◌, arith,
  Bool-cases, inl, inr,
}
use native.Mathlib.Nat.{pow-suc, mul-add-div_right, div-eq_of_lt, div-lt_iff_lt-mul}
use talk2text.Prelude.Bits.{bit_or_step, bit_or-zero}
use talk2text.FixedPoint.Saturation.{cut-sat16, *ℤ-bound}
use talk2text.Mathematics.{take_off, div_pass, div_loop, div_16by16, mult_int16_r}

-- An `|` of low bits that are free.
or_4 : (q : ℕ) → bit_or (8 * q) 4 ≡ 8 * q + 4
or_4 q = ground (
  arith,
  bit_or_step (8 * q) 4,
  bit_or_step (8 * q / 2) 2,
  bit_or_step (8 * q / 2 / 2) 1,
  bit_or-zero (8 * q / 2 / 2 / 2),
)

or_2 : (q : ℕ) → bit_or (4 * q) 2 ≡ 4 * q + 2
or_2 q =
    ground (arith, bit_or_step (4 * q) 2, bit_or_step (4 * q / 2) 1, bit_or-zero (4 * q / 2 / 2))

or_1 : (q : ℕ) → bit_or (2 * q) 1 ≡ 2 * q + 1
or_1 q = ground (arith, bit_or_step (2 * q) 1, bit_or-zero (2 * q / 2))

or_twos : (q x : ℕ) → x ≡ 4 * q → bit_or x 2 ≡ x + 2
or_twos q x e = rw e (or_2 q)

or_ones : (q x : ℕ) → x ≡ 2 * q → bit_or x 1 ≡ x + 1
or_ones q x e = rw e (or_1 q)

even_first : (out x : ℕ) → (x ≡ out * 8) ⊎ (x ≡ out * 8 + 4) → (q : ℕ) × (x ≡ 2 * q)
even_first out x (inl e) = (4 * out, omega arith)
even_first out x (inr e) = (4 * out + 2, omega arith)

-- So far the quotient of `n` by `d`, with what is left of it.
abbrev Divides : ℕ → ℕ → ℕ → ℕ × ℕ → Type 0
Divides n d bound (var_out, l_num) = (var_out * d + l_num ≡ n) × (l_num < bound)

take_off-Divides :
    (n d k m out num : ℕ)
    → m ≡ k * d
    → bit_or out k ≡ out + k
    → Divides n d (2 * m) (out, num)
    → Divides n d m (take_off m k (out, num))
      × (((take_off m k (out, num)).0 ≡ out) ⊎ ((take_off m k (out, num)).0 ≡ out + k))
unfolding take_off
take_off-Divides n d k m out num e o h = elim (Bool-cases (ltb num m)) [
  | inl less ↦ rw less ((h.0, ground arith), inl refl)
  | inr more ↦
      let s : (out + k) * d ≡ out * d + k * d = grind arith in
      rw (more, o) ((ground arith, ground arith), inr refl)
]

-- A number that is `a`, or `b`, has what both have.
either {ℓ} : (P : ℕ → Type ℓ) (x a b : ℕ) → (x ≡ a) ⊎ (x ≡ b) → P a → P b → P x
either P x a b (inl e) p q = rw e p
either P x a b (inr e) p q = rw e q

div_pass-Divides :
    (n d out num : ℕ) → Divides n d d (out, num) → Divides (n * 8) d d (div_pass d (out, num))
unfolding div_pass
div_pass-Divides n d out num h =
    let grown : out * 8 * d ≡ 8 * (out * d) = grind arith in
    let as_even : out * 8 ≡ 8 * out = omega arith in
    let (first, p) =
      take_off-Divides (n * 8) d 4 (d * 4) (out * 8) (num * 8) (omega arith) (rw as_even (or_4 out))
        (omega arith, omega arith) in
    let v = take_off (d * 4) 4 (out * 8, num * 8) in
    let fits_2 : bit_or v.0 2 ≡ v.0 + 2 =
      either (λ x. bit_or x 2 ≡ x + 2) v.0 (out * 8) (out * 8 + 4) p
        (or_twos (2 * out) (out * 8) (omega arith))
        (or_twos (2 * out + 1) (out * 8 + 4) (omega arith)) in
    let (second, p2) =
      take_off-Divides (n * 8) d 2 (d * 2) v.0 v.1 (omega arith) fits_2 (first.0, omega arith) in
    let w = take_off (d * 2) 2 v in
    let fits_1 : bit_or w.0 1 ≡ w.0 + 1 =
      let (q, v_even) = even_first out v.0 p in
      either (λ x. bit_or x 1 ≡ x + 1) w.0 v.0 (v.0 + 2) p2 (or_ones q v.0 v_even)
        (or_ones (q + 1) (v.0 + 2) (omega arith)) in
    (take_off-Divides (n * 8) d 1 d w.0 w.1 (omega arith) fits_1 (second.0, omega arith)).0

div_loop-Divides :
    (i n d : ℕ) (v : ℕ × ℕ) → Divides n d d v → Divides (n * 8 ^ i) d d (div_loop i d v)
unfolding div_loop
div_loop-Divides zero n d v h = (omega (arith, h.0), h.1)
div_loop-Divides (suc i) n d (out, num) h =
    let rest =
      div_loop-Divides i (n * 8) d (div_pass d (out, num)) (div_pass-Divides n d out num h) in
    let e : n * 8 * 8 ^ i ≡ n * 8 ^ suc i = grind (arith, ap (λ (t : ℕ). n * t) (pow-suc 8 i)) in
    rw e at rest

quotient_lem : (n d : ℕ) (v : ℕ × ℕ) → 0 < d → Divides n d d v → v.0 ≡ n / d
quotient_lem n d v p h = rw (← h.0, mul-add-div_right p v.0 v.1, div-eq_of_lt h.1) (omega arith)

below_one : (m n : ℕ) → m < n → m * 2 ^ 15 / n < 2 ^ 15
below_one m n h = (div-lt_iff_lt-mul (omega arith)).1 (omega arith)

-- The three branches of equal, smaller and no numerators.
whole_lem : (n : ℕ) → 0 < n → n < 2 ^ 15 → div_16by16 (pos n) (pos n) ≡ sat16 (pos (n * 2 ^ 15 / n))
unfolding div_16by16
whole_lem n p small =
    let q = quotient_lem (n * 2 ^ 15) n (2 ^ 15, 0) p (omega arith, p) in
    let in_range : ltb n n ≡ false = ground arith in
    let some_left : eqb_ℤ (pos n) (pos 0) ≡ false = ground arith in
    let same : eqb_ℤ (pos n) (pos n) ≡ true = ground arith in rw (← q) ground arith

part_lem :
    (m n : ℕ)
    → 0 < m
    → m < n
    → n < 2 ^ 15
    → div_16by16 (pos m) (pos n) ≡ sat16 (pos (m * 2 ^ 15 / n))
unfolding div_16by16
part_lem m n p less small =
    let d = div_loop-Divides 5 m n (0, m) (omega arith, less) in
    let q = quotient_lem (m * 2 ^ 15) n _ (omega arith) d in
    let b = below_one m n less in rw (← q) (ground (arith, q))

none_lem : (n : ℕ) → 0 < n → div_16by16 (pos 0) (pos n) ≡ sat16 (pos (0 * 2 ^ 15 / n))
unfolding div_16by16
none_lem n p = let e : 0 / n ≡ 0 = div-eq_of_lt p in rw e (ground arith)

-- For a numerator that is at most the denominator, which is positive and below 2 ^ 15,
-- `div_16by16` is the whole part of the quotient times 2 ^ 15, saturated to int16.
pub div_16by16-quotient :
    (m n : ℕ)
    → m ≤ n
    → 0 < n
    → n < 2 ^ 15
    → div_16by16 (pos m) (pos n) ≡ sat16 (pos (m * 2 ^ 15 / n))
div_16by16-quotient m n h p small = elim (Bool-cases (m == 0)) [
  | inl none_left ↦ let e : m ≡ 0 = ground arith in rw e (none_lem n p)
  | inr some_left ↦ elim (Bool-cases (m == n)) [
    | inl same ↦ let e : m ≡ n = ground arith in rw e (whole_lem n p small)
    | inr less ↦ part_lem m n (ground arith) (ground arith) small
  ]
]

rounded-IsInt32 :
    (z : ℤ) → pos_part z ≤ 2 ^ 30 → neg_part z ≤ 2 ^ 30 → IsInt32 (shr (z +ℤ pos 0x4000) 15)
unfolding ◌+ℤ◌
rounded-IsInt32 (pos n) p q = ground arith
rounded-IsInt32 (negsuc n) p q = ground arith

-- On int16 arguments `mult_int16_r` is the product divided by 2 ^ 15, rounded to the nearest and
-- saturated to int16.
pub mult_int16_r-sat16 :
    (a b : ℤ) → IsInt16 a → IsInt16 b → mult_int16_r a b ≡ sat16 (shr (a *ℤ b +ℤ pos (2 ^ 14)) 15)
unfolding mult_int16_r
mult_int16_r-sat16 a b p q =
    let (low, high) = *ℤ-bound a b p q in
    cut-sat16 (shr (a *ℤ b +ℤ pos 0x4000) 15) (rounded-IsInt32 (a *ℤ b) low high)
