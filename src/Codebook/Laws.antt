-- ===== src/Codebook/Laws.antt =====
-- The pulses that every decoder of dec_alg_codebook.c gives.
use talk2text.Prelude.{ℕ, ◌+◌, ◌^◌, ◌≤◌, ◌<◌, arith}
use talk2text.Codebook.{dec_1p_n1, dec_2p_2n1, dec_3p_3n1, dec_4p_4n, dec_5p_5n, dec_6p_6n_2}
use talk2text.Codebook.Positions.{
  ArePulses, dec_1p_n1-ArePulses, dec_2p_2n1-ArePulses, dec_3p_3n1-ArePulses,
}
use talk2text.Codebook.Halves.{dec_4p_4n-ArePulses, dec_5p_5n-ArePulses}
use talk2text.Codebook.Six.{dec_6p_6n_2-ArePulses}

-- For every index, and every `n` above 2 and offset with offset + 2 ^ n at most 16, the decoders
-- of 1, 2, 3, 4, 5 and 6 pulses give exactly that many positions, each with its low four bits from
-- the offset to below offset + 2 ^ n, and below 32 with its sign.
pub positions-ArePulses :
    (index n offset : ℕ)
    → 2 < n
    → offset + 2 ^ n ≤ 16
    → ArePulses 1 offset (offset + 2 ^ n) (dec_1p_n1 index n offset)
      × ArePulses 2 offset (offset + 2 ^ n) (dec_2p_2n1 index n offset)
      × ArePulses 3 offset (offset + 2 ^ n) (dec_3p_3n1 index n offset)
      × ArePulses 4 offset (offset + 2 ^ n) (dec_4p_4n index n offset)
      × ArePulses 5 offset (offset + 2 ^ n) (dec_5p_5n index n offset)
      × ArePulses 6 offset (offset + 2 ^ n) (dec_6p_6n_2 index n offset)
positions-ArePulses index n offset p h = (
  dec_1p_n1-ArePulses index n offset h,
  dec_2p_2n1-ArePulses index n offset h,
  dec_3p_3n1-ArePulses index n offset (omega arith) h,
  dec_4p_4n-ArePulses n offset (omega arith) h index,
  dec_5p_5n-ArePulses n offset (omega arith) h index,
  dec_6p_6n_2-ArePulses n offset (omega arith) h index,
)
