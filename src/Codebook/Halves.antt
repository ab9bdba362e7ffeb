-- ===== src/Codebook/Halves.antt =====
-- The decoders that split a track in two halves.
use talk2text.Prelude.{ℕ, ◌+◌, ◌-◌, ◌*◌, ◌/◌, ◌^◌, ◌≤◌, ◌<◌, ◌≡◌, refl, List, ◌++◌, arith}
use Prim.Native.Nat.{min}
use talk2text.Codebook.{dec_2p_2n1, dec_3p_3n1, dec_4p_4n, dec_5p_5n}
use talk2text.Codebook.Positions.{
  ArePulses, ArePulses-append, All-widen, if_ArePulses, double, dec_1p_n1-ArePulses,
  dec_2p_2n1-ArePulses, dec_3p_3n1-ArePulses, dec_4p_4n1-ArePulses,
}

-- Offsets of the lower and of the upper half of the track from `offset` on.
module _ (n offset : ℕ) (wide : 1 < n) (h : offset + 2 ^ n ≤ 16) where
  -- Pulses on one half are pulses on the track.
  one_half :
      (k a : ℕ) (xs : List ℕ)
      → offset ≤ a
      → a ≤ offset + 2 ^ (n - 1)
      → ArePulses k a (a + 2 ^ (n - 1)) xs
      → ArePulses k offset (offset + 2 ^ n) xs
  one_half k a xs lo hi p = record {
    count = p.count;
    each =
        All-widen a (a + 2 ^ (n - 1)) offset (offset + 2 ^ n) xs lo (omega (arith, double n))
          p.each;
  }

  pub two_halves :
      (k m t a b : ℕ) (xs ys : List ℕ)
      → k + m ≡ t
      → offset ≤ a
      → a ≤ offset + 2 ^ (n - 1)
      → offset ≤ b
      → b ≤ offset + 2 ^ (n - 1)
      → ArePulses k a (a + 2 ^ (n - 1)) xs
      → ArePulses m b (b + 2 ^ (n - 1)) ys
      → ArePulses t offset (offset + 2 ^ n) (xs ++ ys)
  two_halves k m t a b xs ys e la ha lb hb p q =
      ArePulses-append t offset (offset + 2 ^ n) p q e la (omega (arith, double n)) lb
        (omega (arith, double n))

  fits_low : offset + 2 ^ (n - 1) ≤ 16
  fits_low = omega (arith, double n)

  fits_high : offset + 2 ^ (n - 1) + 2 ^ (n - 1) ≤ 16
  fits_high = omega (arith, double n)

  -- For every index, and every `n` above 1 and offset with offset + 2 ^ n at most 16, `dec_4p_4n`
  -- gives exactly 4 positions, each with its low four bits from the offset to below offset + 2 ^
  -- n, and below 32 with its sign.
  pub dec_4p_4n-ArePulses :
      (index : ℕ) → ArePulses 4 offset (offset + 2 ^ n) (dec_4p_4n index n offset)
  unfolding dec_4p_4n
  dec_4p_4n-ArePulses index =
      let m = n - 1 in
      let j = offset + 2 ^ m in
      if_ArePulses _ _ _
        (if_ArePulses _ _ _
          (one_half 4 offset _ (omega arith) (omega arith)
            (dec_4p_4n1-ArePulses index m offset (omega arith) fits_low))
          (one_half 4 j _ (omega arith) (omega arith)
            (dec_4p_4n1-ArePulses index m j (omega arith) fits_high)))
        (if_ArePulses _ _ _
          (two_halves 1 3 4 offset j _ _ refl (omega arith) (omega arith) (omega arith)
            (omega arith) (dec_1p_n1-ArePulses (index / 2 ^ (3 * m + 1)) m offset fits_low)
            (dec_3p_3n1-ArePulses index m j (omega arith) fits_high))
          (if_ArePulses _ _ _
            (two_halves 2 2 4 offset j _ _ refl (omega arith) (omega arith) (omega arith)
              (omega arith) (dec_2p_2n1-ArePulses (index / 2 ^ (2 * m + 1)) m offset fits_low)
              (dec_2p_2n1-ArePulses index m j fits_high))
            (two_halves 3 1 4 offset j _ _ refl (omega arith) (omega arith) (omega arith)
              (omega arith)
              (dec_3p_3n1-ArePulses (index / 2 ^ (m + 1)) m offset (omega arith) fits_low)
              (dec_1p_n1-ArePulses index m j fits_high))))

  -- Three pulses on a half, and two anywhere on the track.
  three_and_two :
      (index idx a : ℕ)
      → offset ≤ a
      → a ≤ offset + 2 ^ (n - 1)
      → ArePulses 5 offset (offset + 2 ^ n) (dec_3p_3n1 idx (n - 1) a ++ dec_2p_2n1 index n offset)
  three_and_two index idx a lo hi =
      ArePulses-append 5 offset (offset + 2 ^ n)
        (dec_3p_3n1-ArePulses idx (n - 1) a (omega arith) (omega (arith, double n)))
        (dec_2p_2n1-ArePulses index n offset h) refl lo (omega (arith, double n)) (omega arith)
        (omega arith)

  -- For every index, and every `n` above 1 and offset with offset + 2 ^ n at most 16, `dec_5p_5n`
  -- gives exactly 5 positions, each with its low four bits from the offset to below offset + 2 ^
  -- n, and below 32 with its sign.
  pub dec_5p_5n-ArePulses :
      (index : ℕ) → ArePulses 5 offset (offset + 2 ^ n) (dec_5p_5n index n offset)
  unfolding dec_5p_5n
  dec_5p_5n-ArePulses index =
      let idx = index / 2 ^ (2 * n + 1) in
      if_ArePulses _ _ _ (three_and_two index idx offset (omega arith) (omega arith)) (
        three_and_two index idx (min (offset + 2 ^ (n - 1)) 0x7fff) (omega (arith, fits_low))
          (omega arith))
