-- ===== src/Gains.antt =====
-- dec_gain2_amr_wb.c: the memory of the gain decoder, its start, and the gains of a lost subframe.
-- `none` is an access outside a table or a buffer.
pub mod Erasure
pub mod Runs
pub mod Innovation
use talk2text.Prelude.{
  ℕ, ◌+◌, ◌≤◌, Bool, true, false, if◌then◌else◌, ltb, Option, none, some, List, [], ◌∷◌, ◌++◌,
  get_elem?, drop, replicate, ℤ, pos, negsuc, ◌+ℤ◌, ◌-ℤ◌, shr, ltb_ℤ, to_int16,
}
use talk2text.FixedPoint.{mult_int16, shl_int32, mul_16by16_to_int32}
use talk2text.Median.{median5}
use talk2text.Mathematics.{dot_product12, one_ov_sqrt_norm, ◌>>=◌}

abbrev pub pdown_unusable : List ℕ
pdown_unusable = 32767 ∷ 31130 ∷ 29491 ∷ 24576 ∷ 7537 ∷ 1638 ∷ 328 ∷ []

abbrev pub cdown_unusable : List ℕ
cdown_unusable = 32767 ∷ 16384 ∷ 8192 ∷ 8192 ∷ 8192 ∷ 4915 ∷ 3277 ∷ []

abbrev pub pdown_usable : List ℕ
pdown_usable = 32767 ∷ 32113 ∷ 31457 ∷ 24576 ∷ 7537 ∷ 1638 ∷ 328 ∷ []

abbrev pub cdown_usable : List ℕ
cdown_usable = 32767 ∷ 32113 ∷ 32113 ∷ 32113 ∷ 32113 ∷ 32113 ∷ 22938 ∷ []

-- The static memory `mem` up to its entry 21: `past_qua_en`, the past gains, and the histories.
pub record GainMemory : Type 0 where
  pub past_qua_en_0 : ℤ
  pub past_qua_en_1 : ℤ
  pub past_qua_en_2 : ℤ
  pub past_qua_en_3 : ℤ
  pub past_gain_pit : ℤ
  pub past_gain_code : ℤ
  pub prev_gc : ℤ
  pub pbuf : List ℤ
  pub gbuf : List ℤ
  pub pbuf2 : List ℤ

-- -14 in Q10.
abbrev pub lowest_energy : ℤ
lowest_energy = negsuc 14335

unfoldable pub dec_gain2_amr_wb_init : GainMemory
dec_gain2_amr_wb_init = record {
  past_qua_en_0 = lowest_energy;
  past_qua_en_1 = lowest_energy;
  past_qua_en_2 = lowest_energy;
  past_qua_en_3 = lowest_energy;
  past_gain_pit = pos 0;
  past_gain_code = pos 0;
  prev_gc = pos 0;
  pbuf = replicate 5 (pos 0);
  gbuf = replicate 5 (pos 0);
  pbuf2 = replicate 5 (pos 0);
}

-- `median5(&buf[2])`, on the five entries.
abbrev pub median_of : List ℤ → Option ℤ
median_of (x1 ∷ x2 ∷ x3 ∷ x4 ∷ x5 ∷ []) = some (median5 x1 x2 x3 x4 x5)
median_of _ = none

-- What the decoder says of a lost subframe, and the energy of its code vector.
pub record LostSubframe : Type 0 where
  pub state : ℕ
  pub unusable_frame : Bool
  pub vad_hist : ℕ
  pub gcode_inov : ℤ

-- The past gain that is not above 0.95 in Q14.
abbrev pub limited : ℤ → ℤ
limited gain = if ltb_ℤ (pos 15565) gain then pos 15565 else gain

-- The new energy, from the sum of the four.
unfoldable pub lost_energy : GainMemory → ℤ
lost_energy mem =
    let l_tmp = mem.past_qua_en_3 +ℤ mem.past_qua_en_2 +ℤ mem.past_qua_en_1 +ℤ mem.past_qua_en_0 in
    let qua_ener = to_int16 (to_int16 (shr l_tmp 3) -ℤ pos 3072) in
    if ltb_ℤ qua_ener lowest_energy then lowest_energy else qua_ener

-- The pitch gain, the code gain and the memory after the subframe.
unfoldable pub conceal_gains : LostSubframe → GainMemory → Option (ℤ × ℤ × GainMemory)
conceal_gains f mem = do
  pitch ← median_of mem.pbuf
  let past_gain_pit = limited pitch
  p ← get_elem? (if f.unusable_frame then pdown_unusable else pdown_usable) f.state
  let gain_pit = mult_int16 (pos p) past_gain_pit
  code ← median_of mem.gbuf
  c ← get_elem? (if f.unusable_frame then cdown_unusable else cdown_usable) f.state
  let past_gain_code = if ltb 2 f.vad_hist then code else mult_int16 (pos c) code
  some (
    gain_pit,
    mul_16by16_to_int32 past_gain_code f.gcode_inov,
    record mem {
      past_qua_en_0 = lost_energy mem;
      past_qua_en_1 = mem.past_qua_en_0;
      past_qua_en_2 = mem.past_qua_en_1;
      past_gain_pit = past_gain_pit;
      past_gain_code = past_gain_code;
      pbuf = drop 1 mem.pbuf ++ past_gain_pit ∷ [];
      gbuf = drop 1 mem.gbuf ++ past_gain_code ∷ [];
    },
  )

-- `gcode_inov`, from the energy of the code vector.
unfoldable pub find_gcode_inov : List ℤ → ℕ → Option ℤ
find_gcode_inov code l_subfr = do
  (l_tmp, exp) ← dot_product12 code code l_subfr
  (l_inverse, exp') ← one_ov_sqrt_norm l_tmp (to_int16 (exp -ℤ pos 24))
  some (to_int16 (shr (shl_int32 l_inverse (to_int16 (exp' -ℤ pos 3))) 16))
