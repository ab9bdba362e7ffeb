-- ===== src/FixedPoint/Shifts.antt =====
-- The saturating shifts for every count.
use talk2text.Prelude.{
  ℕ, suc, ◌-◌, ◌*◌, ◌/◌, ◌%◌, ◌^◌, ◌≤◌, ◌<◌, bit_and, ◌≡◌, inl, inr, ap, refl, Bool-cases, true,
  false, if◌then◌else◌, ltb, ℤ, pos, negsuc, neg, shr, eqb_ℤ, ltb_ℤ, xor32, to_int16, IsInt16,
  sat16, max_16, scale, pattern32, arith,
}
use talk2text.Prelude.Bits.{bit_and_mask}
use talk2text.FixedPoint.{shl_int16}
use native.Mathlib.Nat.{
  one-le-pow, pow-le-pow_right, div-mul-le_self, mul-div_cancel, div-eq_of_lt-le, mul_comm,
}

-- A number that wrapped does not come back: below, `t` stands for 2 ^ k.
back_pos : (n t w : ℕ) → w / t ≡ n → n * t ≤ w
back_pos n t w e = omega (arith, ap (λ (q : ℕ). q * t) e, div-mul-le_self w t)

left16_pos :
    (n k t : ℕ)
    → 2 ^ k ≡ t
    → n < 2 ^ 15
    → 0 < t
    → t ≤ 2 ^ 15
    → (if eqb_ℤ (shr (to_int16 (pos (n * 2 ^ k))) k) (pos n)
        then to_int16 (pos (n * 2 ^ k))
        else to_int16 (xor32 (shr (pos n) 15) max_16))
      ≡ sat16 (pos (n * 2 ^ k))
unfolding to_int16 xor32
left16_pos n k t e h lo hi = rw e (elim (Bool-cases (ltb (n * t) (2 ^ 15))) [
  | inl fits ↦ ground (arith, mul-div_cancel n lo)
  | inr wide ↦ ground (arith, back_pos n t (n * t % 2 ^ 16))
])

floor_neg : (n t : ℕ) → 0 < t → (suc n * t - 1) / t ≡ n
floor_neg n t lo = div-eq_of_lt-le t (omega (arith, mul_comm t n)) (omega (arith, mul_comm t n))

left16_neg :
    (n k t : ℕ)
    → 2 ^ k ≡ t
    → n < 2 ^ 15
    → 0 < t
    → t ≤ 2 ^ 15
    → (if eqb_ℤ (shr (to_int16 (negsuc (suc n * 2 ^ k - 1))) k) (negsuc n)
        then to_int16 (negsuc (suc n * 2 ^ k - 1))
        else to_int16 (xor32 (shr (negsuc n) 15) max_16))
      ≡ sat16 (negsuc (suc n * 2 ^ k - 1))
unfolding to_int16 xor32
left16_neg n k t e h lo hi = rw e (elim (Bool-cases (ltb (suc n * t - 1) (2 ^ 15))) [
  | inl fits ↦ ground (arith, floor_neg n t lo)
  | inr wide ↦ ground (arith, back_pos n t ((suc n * t - 1) % 2 ^ 16))
])

two_pow-le : (k m : ℕ) → k ≤ m → (0 < 2 ^ k) × (2 ^ k ≤ 2 ^ m)
two_pow-le k m h = (one-le-pow k 2 (omega arith), pow-le-pow_right (omega arith) h)

count16 : (k : ℕ) → k < 16 → bit_and (pattern32 (pos k)) 0xf ≡ k
count16 k h = rw (bit_and_mask 4 (k % 2 ^ 32)) (omega arith)

not_negative : (k : ℕ) → ltb_ℤ (pos k) (pos 0) ≡ false
not_negative k = ground arith

negative : (k : ℕ) → ltb_ℤ (negsuc k) (pos 0) ≡ true
negative k = ground arith

-- On an int16 and a count from 0 to 15 `shl_int16` is the product by 2 to the power of the count,
-- saturated to int16.
pub shl_int16-sat16 : (a : ℤ) (k : ℕ) → IsInt16 a → k < 16 → shl_int16 a (pos k) ≡ sat16 (scale a k)
unfolding shl_int16
shl_int16-sat16 (pos n) k h hk =
    let (lo, hi) = two_pow-le k 15 (omega arith) in
    rw (not_negative k, count16 k hk) (left16_pos n k (2 ^ k) refl (omega arith) lo hi)
shl_int16-sat16 (negsuc n) k h hk =
    let (lo, hi) = two_pow-le k 15 (omega arith) in
    rw (not_negative k, count16 k hk) (left16_neg n k (2 ^ k) refl (omega arith) lo hi)

-- With a count from -15 to -1 `shl_int16` is the arithmetic shift to the right by the count's
-- absolute value.
pub shl_int16-shr : (a : ℤ) (k : ℕ) → k < 15 → shl_int16 a (negsuc k) ≡ shr a (suc k)
unfolding shl_int16
shl_int16-shr a k hk =
    let e : neg (negsuc k) ≡ pos (suc k) = ground arith in
    rw (negative k, e, count16 (suc k) (omega arith))
