-- ===== src/Examples/Mathematics.antt =====
-- Runs of the fixed-point functions.
use talk2text.Prelude.{◌+◌, ℕ, ◌*◌, ◌/◌, ◌^◌, ◌≤◌, ◌<◌, ◌≡◌, none, some, pos, sat16, arith}
use talk2text.Mathematics.Logarithm.{amrwb_log_2-floor}
use talk2text.Mathematics.{amrwb_log_2, div_16by16, power_of_2, one_ov_sqrt}
use talk2text.Mathematics.Division.{div_16by16-quotient}
use talk2text.Mathematics.Power.{power_of_2-range}
use talk2text.Mathematics.Inverse.{one_ov_sqrt-bounds}

div_16by16-quotient_example : div_16by16 (pos 1000) (pos 3000) ≡ sat16 (pos (1000 * 2 ^ 15 / 3000))
div_16by16-quotient_example =
    div_16by16-quotient 1000 3000 (omega arith) (omega arith) (omega arith)

power_of_2-range_example :
    (l : ℕ) × (power_of_2 (pos 14) (pos 20000) ≡ some (pos l))
    × (2 ^ 14 ≤ l)
    × (l ≤ 2 ^ 15)
    × (power_of_2 (pos 30) (pos 20000) ≡ none)
power_of_2-range_example = power_of_2-range 14 20000 (omega arith) (omega arith)

one_ov_sqrt-bounds_example :
    (r : ℕ) × (one_ov_sqrt (pos 12345) ≡ some (pos r))
    × (2 ^ 60 ≤ r * r * 12345)
    × (r * r * 12345 < 2 ^ 64)
one_ov_sqrt-bounds_example = one_ov_sqrt-bounds 12345 (omega arith) (omega arith)

amrwb_log_2-floor_example :
    (e : ℕ) × (fraction : ℕ) × (amrwb_log_2 (pos 1500) ≡ some (pos e, pos fraction))
    × (2 ^ e ≤ 1500)
    × (1500 < 2 ^ (e + 1))
    × (fraction < 2 ^ 15)
amrwb_log_2-floor_example = amrwb_log_2-floor 1500 (omega arith) (omega arith)
