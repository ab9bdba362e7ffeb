-- ===== src/Prelude/Bits.antt =====
-- `&`, `|` and `^` one binary digit at a time, and the consequences for masks and signs.
use Prim.Native.Nat.{
  ℕ, zero, suc, ◌+◌, ◌-◌, ◌*◌, ◌/◌, ◌%◌, ◌^◌, ◌≤◌, ◌<◌, min, max, digits, bitwise, bit_and, bit_or,
  bit_xor, bit_and-bitwise, bit_or-bitwise, bit_xor-bitwise, differ,
}
use mathlib.Core.Path.{◌≡◌, refl, ap}
use mathlib.Core.Logic.{◌⊎◌, inl, inr}
use native.Mathlib.Omega.{arith}
use native.Mathlib.Nat.{div-add-mod, pow-suc, pow-succ', one-le-pow, le_refl, div-div-eq-div-mul}

-- `low` is what is left of `b` when the digits of `a` are used up.
module _ (low : ℕ → ℕ) (join : ℕ → ℕ → ℕ) where
  -- Fuel above the first number changes nothing.
  settled :
      (bound fuel a b : ℕ)
      → a ≤ fuel
      → fuel ≤ bound
      → digits low join fuel a b ≡ digits low join a a b
  settled bound (suc fuel) zero b h g = refl
  settled bound zero zero b h g = refl
  settled bound zero (suc a) b h g = absurd (omega arith)
  settled zero (suc fuel) (suc a) b h g = absurd (omega arith)
  settled (suc bound) (suc fuel) (suc a) b h g =
      let left = settled bound fuel (suc a / 2) (b / 2) (omega arith) (omega arith) in
      let right = settled bound a (suc a / 2) (b / 2) (omega arith) (omega arith) in
      rw (left, right) refl

  bitwise_step :
      (b a : ℕ)
      → 0 < a
      → bitwise low join a b ≡ join (a % 2) (b % 2) + 2 * bitwise low join (a / 2) (b / 2)
  bitwise_step b zero h = absurd (omega arith)
  bitwise_step b (suc a) h =
      let e = settled a a (suc a / 2) (b / 2) (omega arith) (omega arith) in omega arith

pub bit_and_step : (a b : ℕ) → bit_and a b ≡ min (a % 2) (b % 2) + 2 * bit_and (a / 2) (b / 2)
bit_and_step (suc a) b = simp bit_and-bitwise (bitwise_step (λ y. 0) min b (suc a) (omega arith))
bit_and_step zero b = simp bit_and-bitwise (omega arith)

pub bit_or_step : (a b : ℕ) → bit_or a b ≡ max (a % 2) (b % 2) + 2 * bit_or (a / 2) (b / 2)
bit_or_step (suc a) b = simp bit_or-bitwise (bitwise_step (λ y. y) max b (suc a) (omega arith))
bit_or_step zero b = simp bit_or-bitwise (omega arith)

differ_lem : (x y : ℕ) → x < 2 → y < 2 → differ x y ≡ (x + y) % 2
differ_lem zero y p q = omega arith
differ_lem (suc zero) zero p q = refl
differ_lem (suc zero) (suc zero) p q = refl
differ_lem (suc zero) (suc (suc y)) p q = absurd (omega arith)
differ_lem (suc (suc x)) y p q = absurd (omega arith)

pub bit_xor_step : (a b : ℕ) → bit_xor a b ≡ bit_xor (a / 2) (b / 2) * 2 + (a % 2 + b % 2) % 2
bit_xor_step zero b = simp bit_xor-bitwise (omega arith)
bit_xor_step (suc a) b = simp bit_xor-bitwise (
    omega (
      arith,
      bitwise_step (λ y. y) differ b (suc a) (omega arith),
      differ_lem (suc a % 2) (b % 2) (omega arith) (omega arith),
    ))

-- Halving falls below every bound, so `bound` rounds clear a number of at most `bound`.
no_digits : (bound a : ℕ) → a ≤ bound → (bit_and a 0 ≡ 0) × (bit_or a 0 ≡ a)
no_digits zero a h = let e : a ≡ 0 = omega arith in rw e (refl, refl)
no_digits (suc bound) a h = elim (nothing a) [
  | inl e ↦ rw e (refl, refl)
  | inr p ↦
      let (c, d) = no_digits bound (a / 2) (omega arith) in
      (omega (arith, c, bit_and_step a 0), omega (arith, d, bit_or_step a 0))
]
  where
    nothing : (x : ℕ) → (x ≡ 0) ⊎ (0 < x)
    nothing zero = inl refl
    nothing (suc x) = inr (omega arith)

pub bit_and-zero : (a : ℕ) → bit_and a 0 ≡ 0
bit_and-zero a = (no_digits a a (le_refl _)).0

pub bit_or-zero : (a : ℕ) → bit_or a 0 ≡ a
bit_or-zero a = (no_digits a a (le_refl _)).1

div-two_pow : (a k : ℕ) → a / 2 ^ suc k ≡ a / 2 / 2 ^ k
div-two_pow a k = rw (pow-succ', ← div-div-eq-div-mul) refl

mod-two_pow : (a k : ℕ) → a % 2 ^ suc k ≡ a / 2 % 2 ^ k * 2 + a % 2
mod-two_pow a k = ground (
  arith,
  div-add-mod a (2 ^ suc k),
  div-add-mod (a / 2) (2 ^ k),
  div-two_pow a k,
  ap (λ (t : ℕ). t * (a / 2 / 2 ^ k)) (pow-suc 2 k),
)

-- A mask of the one bit `k` keeps that bit.
pub bit_and_bit : (k a : ℕ) → bit_and a (2 ^ k) ≡ a / 2 ^ k % 2 * 2 ^ k
bit_and_bit zero a = omega (arith, bit_and_step a 1, bit_and-zero (a / 2))
bit_and_bit (suc k) a = ground (
  arith,
  bit_and_step a (2 ^ suc k),
  pow-suc 2 k,
  div-two_pow a k,
  bit_and_bit k (a / 2),
  ap (λ (t : ℕ). a / 2 / 2 ^ k % 2 * t) (pow-suc 2 k),
)

-- A mask of the `k` low bits is the remainder by 2 ^ k.
pub bit_and_mask : (k a : ℕ) → bit_and a (2 ^ k - 1) ≡ a % 2 ^ k
bit_and_mask zero a = omega (arith, bit_and-zero a)
bit_and_mask (suc k) a = ground (
  arith,
  one-le-pow k 2,
  bit_and_step a (2 ^ suc k - 1),
  pow-suc 2 k,
  mod-two_pow a k,
  bit_and_mask k (a / 2),
)

-- The sign bit of `a ^ b` says whether the two sign bits differ.
pub bit_xor-div : (k a b : ℕ) → bit_xor a b / 2 ^ k % 2 ≡ (a / 2 ^ k + b / 2 ^ k) % 2
bit_xor-div zero a b = omega (arith, bit_xor_step a b)
bit_xor-div (suc k) a b = ground (
  arith,
  div-two_pow (bit_xor a b) k,
  div-two_pow a k,
  div-two_pow b k,
  bit_xor_step a b,
  bit_xor-div k (a / 2) (b / 2),
)

-- A mask shifted to the left by `k` looks at the bits from `k` on.
pub bit_and_shifted : (k a m : ℕ) → bit_and a (m * 2 ^ k) ≡ bit_and (a / 2 ^ k) m * 2 ^ k
bit_and_shifted zero a m = ground (arith)
bit_and_shifted (suc k) a m = ground (
  arith,
  bit_and_step a (m * 2 ^ suc k),
  div-two_pow a k,
  ap (λ (t : ℕ). m * t) (pow-suc 2 k),
  ap (λ (t : ℕ). bit_and (a / 2 / 2 ^ k) m * t) (pow-suc 2 k),
  bit_and_shifted k (a / 2) m,
)

bit_xor-div_two_pow : (k a b : ℕ) → bit_xor a b / 2 ^ k ≡ bit_xor (a / 2 ^ k) (b / 2 ^ k)
bit_xor-div_two_pow zero a b = ground arith
bit_xor-div_two_pow (suc k) a b = ground (
  arith,
  div-two_pow (bit_xor a b) k,
  div-two_pow a k,
  div-two_pow b k,
  bit_xor_step a b,
  bit_xor-div_two_pow k (a / 2) (b / 2),
)

pub bit_xor-lt : (a b : ℕ) → a < 2 ^ 32 → b < 2 ^ 32 → bit_xor a b < 2 ^ 32
bit_xor-lt a b p q =
    let ea : a / 2 ^ 32 ≡ 0 = omega arith in
    let eb : b / 2 ^ 32 ≡ 0 = omega arith in ground (arith, bit_xor-div_two_pow 32 a b)
