-- ===== src/Examples/Pulses.antt =====
-- Runs of the codebook and of the homing test.
use talk2text.Prelude.{
  ℕ, ◌*◌, ◌≤◌, ◌≡◌, refl, true, some, List, [], ◌∷◌, to_int16, get_elem?, length, replicate, arith,
}
use talk2text.Codebook.Laws.{positions-ArePulses}
use talk2text.Codebook.{
  dec_1p_n1, dec_2p_2n1, dec_3p_3n1, dec_4p_4n, dec_5p_5n, dec_6p_6n_2, dec_acelp_4p_in_64,
  dec_acelp_2p_in_64,
}
use talk2text.Codebook.TwoPulses.{two_pulses, dec_acelp_2p_in_64-two_pulses}
use talk2text.Homing.{dhf, dhf_test, read_params, read_words, full_words, compare_params, last_test}
use talk2text.Serial.{serial_parm, serial_pairs, serial_odd}
use talk2text.FixedPoint.{shl_int16}
use talk2text.Homing.Tables.{dfh_m7k}
use talk2text.Homing.Laws.{word_at, dhf_test-word_at}
use talk2text.Codebook.Positions.{ArePulses}
use talk2text.Codebook.Excitation.{IsMade, dec_acelp_4p_in_64-IsMade}

-- The codebook.
positions-ArePulses_example :
    ArePulses 1 0 16 (dec_1p_n1 0x29_abcd 4 0)
    × ArePulses 2 0 16 (dec_2p_2n1 0x29_abcd 4 0)
    × ArePulses 3 0 16 (dec_3p_3n1 0x29_abcd 4 0)
    × ArePulses 4 0 16 (dec_4p_4n 0x29_abcd 4 0)
    × ArePulses 5 0 16 (dec_5p_5n 0x29_abcd 4 0)
    × ArePulses 6 0 16 (dec_6p_6n_2 0x29_abcd 4 0)
positions-ArePulses_example = positions-ArePulses 0x29_abcd 4 0 (omega arith) (omega arith)

dec_acelp_4p_in_64-IsMade_example :
    IsMade 18 (dec_acelp_4p_in_64 (1000 ∷ 2 ∷ 77 ∷ 3 ∷ 5 ∷ 1023 ∷ 16383 ∷ 9 ∷ []) 72)
dec_acelp_4p_in_64-IsMade_example =
    dec_acelp_4p_in_64-IsMade (1000 ∷ 2 ∷ 77 ∷ 3 ∷ 5 ∷ 1023 ∷ 16383 ∷ 9 ∷ []) 72 (omega arith)

dec_acelp_2p_in_64-two_pulses_example :
    get_elem? (dec_acelp_2p_in_64 0x8a5) 11 ≡ some (two_pulses 0x8a5 11)
dec_acelp_2p_in_64-two_pulses_example = dec_acelp_2p_in_64-two_pulses 0x8a5 11 (omega arith)

-- Twenty bits of the homing frame of mode 0.
abbrev homed : List ℕ
homed =
    0 ∷ 0 ∷ 0 ∷ 127 ∷ 127 ∷ 0 ∷ 0 ∷ 0 ∷ 127 ∷ 127 ∷ 0 ∷ 0 ∷ 0 ∷ 0 ∷ 0 ∷ 127 ∷ 127 ∷ 127 ∷ 0 ∷ 127
    ∷ []

homing_table : get_elem? dhf 0 ≡ some dfh_m7k
unfolding dhf
homing_table = refl

homed_run : dhf_test homed 0 20 ≡ some true
unfolding dhf_test read_params read_words full_words serial_parm serial_pairs serial_odd dhf
    compare_params dfh_m7k last_test shl_int16 to_int16
homed_run = refl

dhf_test-word_at_example : get_elem? dfh_m7k 0 ≡ some (word_at 0 homed)
dhf_test-word_at_example =
    dhf_test-word_at homed dfh_m7k 0 20 0 (omega arith) (omega arith) (omega arith) homing_table
      homed_run (omega arith)

homing_table_room : 20 ≤ 15 * length dfh_m7k
unfolding dfh_m7k
homing_table_room = omega arith

abbrev silent : List ℕ
silent = replicate 477 0
