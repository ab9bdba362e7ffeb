-- ===== src/FixedPoint/Norm.antt =====
-- `normalize_amr_wb` against the definition of norm_l.
use talk2text.Prelude.{
  ℕ, zero, suc, ◌+◌, ◌*◌, ◌/◌, ◌%◌, ◌^◌, ◌≤◌, ◌<◌, ◌≡◌, ℤ, pos, and32, shl32, to_int32, arith,
}
use talk2text.Prelude.Bits.{bit_and_mask, bit_and_shifted}
use talk2text.FixedPoint.{normalize_guess, normalize_adjust, normalize_amr_wb}
use native.Mathlib.Nat.{pow-suc, mul_assoc}

-- The guess brings a positive number to 2^27 at least, and not out of the range.
guess_bounds :
    (n : ℕ)
    → 0 < n
    → n < 2 ^ 31
    → (2 ^ 27 ≤ n * 2 ^ normalize_guess (pos n)) × (n * 2 ^ normalize_guess (pos n) < 2 ^ 31)
unfolding normalize_guess
guess_bounds n p h = ground arith

pow-add : (a b : ℕ) → 2 ^ (a + b) ≡ 2 ^ a * 2 ^ b
pow-add a zero = ground arith
pow-add a (suc b) =
    let e : a + suc b ≡ suc (a + b) = omega arith in
    rw (e, pow-suc 2 (a + b), pow-suc 2 b, pow-add a b, mul_assoc)

adjust_bounds :
    (y : ℕ)
    → 2 ^ 27 ≤ y
    → y < 2 ^ 31
    → let d = normalize_adjust (pos (y / 2 ^ 27 % 16 * 2 ^ 27)) 0 in
      (2 ^ 30 ≤ y * 2 ^ d) × (y * 2 ^ d < 2 ^ 31)
unfolding normalize_adjust
adjust_bounds y p h = ground arith

adjust-add : (bits : ℤ) (i : ℕ) → normalize_adjust bits i ≡ i + normalize_adjust bits 0
unfolding normalize_adjust
adjust-add bits i = ground arith

-- The four bits that the `switch` looks at.
masked : (y : ℕ) → y < 2 ^ 31 → and32 (pos y) (pos 0x7800_0000) ≡ pos (y / 2 ^ 27 % 16 * 2 ^ 27)
unfolding and32
masked y h =
    let e : y % 2 ^ 32 ≡ y = omega arith in
    rw (e, bit_and_shifted 27 y 15, bit_and_mask 4 (y / 2 ^ 27)) (ground arith)

unshifted : (n i : ℕ) → n * 2 ^ i < 2 ^ 31 → shl32 (pos n) i ≡ pos (n * 2 ^ i)
unfolding shl32 to_int32
unshifted n i h = ground arith

-- A positive int32 multiplied by 2 to the power that `normalize_amr_wb` gives lies from 2 ^ 30 to
-- below 2 ^ 31.
pub normalize_amr_wb_lem :
    (n : ℕ)
    → 0 < n
    → n < 2 ^ 31
    → (2 ^ 30 ≤ n * 2 ^ normalize_amr_wb (pos n)) × (n * 2 ^ normalize_amr_wb (pos n) < 2 ^ 31)
unfolding normalize_amr_wb
normalize_amr_wb_lem n p h =
    let i = normalize_guess (pos n) in
    let y = n * 2 ^ i in
    let (lo, hi) = guess_bounds n p h in
    let bits = pos (y / 2 ^ 27 % 16 * 2 ^ 27) in
    rw
      (
        unshifted n i hi,
        masked y hi,
        adjust-add bits i,
        pow-add i (normalize_adjust bits 0),
        ← mul_assoc n (2 ^ i) (2 ^ normalize_adjust bits 0),
      )
      (adjust_bounds y lo hi)
