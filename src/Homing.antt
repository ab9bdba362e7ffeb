-- ===== src/Homing.antt =====
-- homing_amr_wb_dec.c: whether the unpacked bits are those of the mode's decoder homing frame.
-- Words of 15 bits are numbers; `none` is a read past the bits or past a table.
pub mod Tables
pub mod Laws
pub mod High
pub mod Modes
use talk2text.Prelude.{
  ℕ, zero, suc, ◌+◌, ◌-◌, ◌*◌, ◌/◌, ◌^◌, bit_and, bit_or, bit_xor, Bool, true, false, if◌then◌else◌,
  ltb, ◌==◌, pos, pattern16, Option, none, some, List, [], ◌∷◌, ◌++◌, get_elem?,
}
use talk2text.FixedPoint.{shl_int16}
use talk2text.Mime.{◌>>=◌}
use talk2text.Serial.{serial_parm}
use Tables.{dfh_m7k, dfh_m9k, dfh_m12k, dfh_m14k, dfh_m16k, dfh_m18k, dfh_m20k, dfh_m23k, dfh_m24k}

-- AMR_WB_COMPRESSED: the bits of a frame.
abbrev pub amr_wb_compressed : List ℕ
amr_wb_compressed = 132 ∷ 177 ∷ 253 ∷ 285 ∷ 317 ∷ 365 ∷ 397 ∷ 461 ∷ 477 ∷ 35 ∷ []

-- The bits up to the end of the first subframe.
abbrev pub prmnofsf : List ℕ
prmnofsf = 63 ∷ 81 ∷ 100 ∷ 108 ∷ 116 ∷ 128 ∷ 136 ∷ 152 ∷ 156 ∷ []

-- The array `dhf`.
unfoldable pub dhf : List (List ℕ)
dhf =
    dfh_m7k ∷ dfh_m9k ∷ dfh_m12k ∷ dfh_m14k ∷ dfh_m16k ∷ dfh_m18k ∷ dfh_m20k ∷ dfh_m23k ∷ dfh_m24k
    ∷ dfh_m24k ∷ []

-- `param[i] = Serial_parm(15, &prms)`, `n` times.
unfoldable pub read_words : ℕ → List ℕ → Option (List ℕ × List ℕ)
read_words zero prms = some ([], prms)
read_words (suc n) prms = do
  (word, prms') ← serial_parm 15 prms
  (words, rest) ← read_words n prms'
  some (word ∷ words, rest)

-- The rounds of `while (tmp > j)`, where `tmp` is `nparms - 15` and `j` grows by 15: on fuel.
unfoldable pub full_words : ℕ → ℕ → ℕ → ℕ
full_words zero nparms j = 0
full_words (suc fuel) nparms j =
    let rest = full_words fuel nparms (j + 15) in if ltb (j + 15) nparms then suc rest else 0

-- The words before the last one, the last one, and its shift.
abbrev pub Params : Type 0
Params = List ℕ × ℕ × ℕ

unfoldable pub read_params : ℕ → List ℕ → Option Params
read_params nparms prms = do
  let i = full_words nparms nparms 0
  (words, prms') ← read_words i prms
  let tmp = nparms - 15 * i
  (last, _) ← serial_parm tmp prms'
  some (words, pattern16 (shl_int16 (pos last) (pos (15 - tmp))), 15 - tmp)

-- In mode 23.85 the bits of the high band energy are masked out.
unfoldable pub read_params_24k : List ℕ → Option Params
read_params_24k prms = do
  (words0, prms0) ← read_words 10 prms
  (word10, prms1) ← serial_parm 15 prms0
  (words11, prms2) ← read_words 6 prms1
  (word17, prms3) ← serial_parm 15 prms2
  (words18, prms4) ← read_words 6 prms3
  (word24, prms5) ← serial_parm 15 prms4
  (words25, prms6) ← read_words 6 prms5
  (last, _) ← serial_parm 8 prms6
  some (
    words0
        ++ bit_and word10 0x61ff ∷ words11
        ++ bit_and word17 0xe0ff ∷ words18
        ++ bit_and word24 0x7f0f ∷ words25,
    pattern16 (shl_int16 (pos last) (pos 7)),
    0,
  )

-- `!(j | (param[i] ^ (dhf[mode][i] & tmp)))`
unfoldable pub last_test : ℕ → ℕ → ℕ → ℕ → Bool
last_test shift j word entry =
    let tmp = pattern16 (shl_int16 (pos (0x7fff / 2 ^ shift)) (pos shift)) in
    bit_or j (bit_xor word (bit_and entry tmp)) == 0

-- The loop over the words stops at the first that differs, and the last test is done there.
unfoldable pub compare_params : List ℕ → ℕ → ℕ → List ℕ → Option Bool
compare_params words last shift [] = none
compare_params [] last shift (entry ∷ table) = some (last_test shift 0 last entry)
compare_params (word ∷ words) last shift (entry ∷ table) =
    let rest = compare_params words last shift table in
    let j = bit_xor word entry in if j == 0 then rest else some (last_test shift j word entry)

unfoldable pub dhf_test : List ℕ → ℕ → ℕ → Option Bool
dhf_test input_frame mode nparms = if mode == 9 then some false else do
  (words, last, shift) ←
      if mode == 8 then read_params_24k input_frame else read_params nparms input_frame
  table ← get_elem? dhf mode
  compare_params words last shift table

unfoldable pub homing_frame_test : List ℕ → ℕ → Option Bool
homing_frame_test input_frame mode = do
  nparms ← get_elem? amr_wb_compressed mode
  dhf_test input_frame mode nparms

unfoldable pub homing_frame_test_first : List ℕ → ℕ → Option Bool
homing_frame_test_first input_frame mode = do
  nparms ← get_elem? prmnofsf mode
  dhf_test input_frame mode nparms
