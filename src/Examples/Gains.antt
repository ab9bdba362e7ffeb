-- ===== src/Examples/Gains.antt =====
-- Runs of the gains of lost subframes.
use talk2text.Prelude.{ℕ, ◌^◌, ◌≤◌, ◌<◌, ◌≡◌, true, some, [], ◌∷◌, replicate, pos, arith}
use talk2text.Gains.{LostSubframe, dec_gain2_amr_wb_init, find_gcode_inov}
use talk2text.Gains.Runs.{Conceals, conceal_all-Conceals, dec_gain2_amr_wb_init-IsGainMemory}
use talk2text.Gains.Innovation.{find_gcode_inov-returns}

-- Two subframes of the first lost frame.
abbrev lost : LostSubframe
lost = record { state = 1; unusable_frame = true; vad_hist = 0; gcode_inov = pos 4096 }

conceal_all-Conceals_example : Conceals (lost ∷ lost ∷ []) dec_gain2_amr_wb_init
conceal_all-Conceals_example =
    conceal_all-Conceals (lost ∷ lost ∷ []) dec_gain2_amr_wb_init (omega arith, (omega arith, tt))
      dec_gain2_amr_wb_init-IsGainMemory

find_gcode_inov-returns_example :
    (g : ℕ) × (find_gcode_inov (replicate 8 (pos 512)) 8 ≡ some (pos g))
    × (2 ^ 9 ≤ g)
    × (g < 2 ^ 15)
find_gcode_inov-returns_example =
    find_gcode_inov-returns (replicate 8 (pos 512)) 8 (omega arith) (ground arith)
