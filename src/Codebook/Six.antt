-- ===== src/Codebook/Six.antt =====
-- Six pulses on a track.
use talk2text.Prelude.{
  ℕ, ◌+◌, ◌-◌, ◌*◌, ◌/◌, ◌^◌, ◌≤◌, ◌<◌, bit_and, refl, Bool, true, false, if◌then◌else◌, ◌==◌, ◌++◌,
  arith,
}
use talk2text.Codebook.{dec_1p_n1, dec_2p_2n1, dec_3p_3n1, dec_4p_4n, dec_5p_5n, dec_6p_6n_2}
use talk2text.Codebook.Positions.{
  ArePulses, if_ArePulses, double, dec_1p_n1-ArePulses, dec_2p_2n1-ArePulses, dec_3p_3n1-ArePulses,
}
use talk2text.Codebook.Halves.{two_halves, dec_4p_4n-ArePulses, dec_5p_5n-ArePulses}

module _ (n offset : ℕ) (wide : 2 < n) (h : offset + 2 ^ n ≤ 16) where
  -- All but the last case divide the pulses over a chosen half and the same or the other one.
  chosen :
      (index a b : ℕ)
      → offset ≤ a
      → a ≤ offset + 2 ^ (n - 1)
      → offset ≤ b
      → b ≤ offset + 2 ^ (n - 1)
      → ArePulses 6 offset (offset + 2 ^ n) (
          let m = n - 1 in
          let choice = bit_and (index / 2 ^ (6 * n - 4)) 3 in
          if choice == 0
          then dec_5p_5n (index / 2 ^ n) m a ++ dec_1p_n1 index m a
          else if choice == 1
          then dec_5p_5n (index / 2 ^ n) m a ++ dec_1p_n1 index m b
          else if choice == 2
          then dec_4p_4n (index / 2 ^ (2 * m + 1)) m a ++ dec_2p_2n1 index m b
          else dec_3p_3n1 (index / 2 ^ (3 * m + 1)) m offset ++ dec_3p_3n1 index m (offset + 2 ^ m))
  chosen index a b la ha lb hb =
      let m = n - 1 in
      let j = offset + 2 ^ m in
      let d = double n (omega arith) in
      let halves = two_halves n offset (omega arith) h in
      let five = dec_5p_5n-ArePulses m a (omega arith) (omega (arith, d)) (index / 2 ^ n) in
      if_ArePulses _ _ _
        (halves 5 1 6 a a _ _ refl la ha la ha five
          (dec_1p_n1-ArePulses index m a (omega (arith, d))))
        (if_ArePulses _ _ _
          (halves 5 1 6 a b _ _ refl la ha lb hb five
            (dec_1p_n1-ArePulses index m b (omega (arith, d))))
          (if_ArePulses _ _ _
            (halves 4 2 6 a b _ _ refl la ha lb hb
              (dec_4p_4n-ArePulses m a (omega arith) (omega (arith, d)) (index / 2 ^ (2 * m + 1)))
              (dec_2p_2n1-ArePulses index m b (omega (arith, d))))
            (halves 3 3 6 offset j _ _ refl (omega arith) (omega arith) (omega arith) (omega arith)
              (dec_3p_3n1-ArePulses (index / 2 ^ (3 * m + 1)) m offset (omega arith)
                (omega (arith, d)))
              (dec_3p_3n1-ArePulses index m j (omega arith) (omega (arith, d))))))

  either : (b : Bool) (x y : ℕ) (P : ℕ → Type 0) → P x → P y → P (if b then x else y)
  either true x y P p q = p
  either false x y P p q = q

  -- For every index, and every `n` above 2 and offset with offset + 2 ^ n at most 16,
  -- `dec_6p_6n_2` gives exactly 6 positions, each with its low four bits from the offset to below
  -- offset + 2 ^ n, and below 32 with its sign.
  pub dec_6p_6n_2-ArePulses :
      (index : ℕ) → ArePulses 6 offset (offset + 2 ^ n) (dec_6p_6n_2 index n offset)
  unfolding dec_6p_6n_2
  dec_6p_6n_2-ArePulses index =
      let low = bit_and (index / 2 ^ (6 * n - 5)) 1 == 0 in
      let j = offset + 2 ^ (n - 1) in
      let In : ℕ → Type 0 = λ x. (offset ≤ x) × (x ≤ j) in
      let (la, ha) = either low offset j In (omega arith, omega arith) (omega arith, omega arith) in
      let (lb, hb) = either low j offset In (omega arith, omega arith) (omega arith, omega arith) in
      chosen index (if low then offset else j) (if low then j else offset) la ha lb hb
