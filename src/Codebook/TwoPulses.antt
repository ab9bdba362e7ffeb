-- ===== src/Codebook/TwoPulses.antt =====
-- The excitation of the lowest mode: which two places hold a pulse, and its sign.
use talk2text.Prelude.{
  ℕ, zero, suc, ◌+◌, ◌*◌, ◌/◌, ◌%◌, ◌^◌, ◌<◌, bit_and, ◌≡◌, refl, if◌then◌else◌, ◌==◌, ℤ, pos,
  negsuc, some, List, [], ◌∷◌, get_elem?, set, replicate, length, length-set, arith,
}
use talk2text.Prelude.Bits.{bit_and_bit, bit_and_mask, bit_and_shifted}
use talk2text.Codebook.{dec_acelp_2p_in_64}

-- 512 in Q9 is one; a set bit makes the pulse negative.
abbrev pub pulse : ℕ → ℤ
pulse sign = if sign == 0 then pos 512 else negsuc 511

abbrev pub two_pulses : ℕ → ℕ → ℤ
two_pulses index p =
    if p == 2 * (index % 32) + 1
    then pulse (index / 32 % 2)
    else if p == 2 * (index / 64 % 32)
    then pulse (index / 2048 % 2)
    else pos 0

zero_at : (n p : ℕ) → p < n → get_elem? (replicate n (pos 0)) p ≡ some (pos 0)
zero_at zero p h = absurd (omega arith)
zero_at (suc n) zero h = refl
zero_at (suc n) (suc p) h = zero_at n p (omega arith)

get_elem?-set {ℓ} :
    {A : Type ℓ} (xs : List A) (i j : ℕ) (v : A)
    → i < length xs
    → get_elem? (set xs i v) j ≡ (if j == i then some v else get_elem? xs j)
get_elem?-set [] i j v h = absurd (omega arith)
get_elem?-set (x ∷ xs) zero zero v h = refl
get_elem?-set (x ∷ xs) zero (suc j) v h = ground arith
get_elem?-set (x ∷ xs) (suc i) zero v h = ground arith
get_elem?-set (x ∷ xs) (suc i) (suc j) v h =
    let e : (suc j == suc i) ≡ (j == i) = ground arith in
    rw e (get_elem?-set xs i j v (omega arith))

-- At each place below 64 the vector of `dec_acelp_2p_in_64` holds the pulse of the odd track if
-- the place is twice bits 0 to 4 of the index plus 1, the pulse of the even track if it is twice
-- bits 6 to 10, and 0 otherwise; a pulse is 512, or -512 if bit 5 of the index for the odd track,
-- bit 11 for the even one, is set.
pub dec_acelp_2p_in_64-two_pulses :
    (index p : ℕ) → p < 64 → get_elem? (dec_acelp_2p_in_64 index) p ≡ some (two_pulses index p)
unfolding dec_acelp_2p_in_64
dec_acelp_2p_in_64-two_pulses index p h =
    let code = replicate 64 (pos 0) in
    let even_place : bit_and (index / 2 ^ 5) 0x3e ≡ 2 * (index / 64 % 32) =
      omega (arith, bit_and_shifted 1 (index / 2 ^ 5) 31, bit_and_mask 5 (index / 2 ^ 5 / 2 ^ 1)) in
    let odd_place : bit_and index 0x1f * 2 + 1 ≡ 2 * (index % 32) + 1 =
      omega (arith, bit_and_mask 5 index) in
    let even_sign : (bit_and (index / 2 ^ 6) 32 == 0) ≡ (index / 2048 % 2 == 0) =
      ground (arith, bit_and_bit 5 (index / 2 ^ 6)) in
    let odd_sign : (bit_and index 32 == 0) ≡ (index / 32 % 2 == 0) =
      ground (arith, bit_and_bit 5 index) in
    rw
      (
        even_place,
        odd_place,
        even_sign,
        odd_sign,
        get_elem?-set (set code (2 * (index / 64 % 32)) (pulse (index / 2048 % 2)))
            (2 * (index % 32) + 1) p (pulse (index / 32 % 2))
            (omega (arith, length-set code (2 * (index / 64 % 32)) (pulse (index / 2048 % 2)))),
        get_elem?-set code (2 * (index / 64 % 32)) p (pulse (index / 2048 % 2)) (omega arith),
        zero_at 64 p h,
      )
      (ground arith)
