-- ===== src/Homing/Modes.antt =====
-- The two homing tests on the decoder's buffer, in every speech mode.
use talk2text.Prelude.{
  ℕ, zero, suc, ◌*◌, ◌≤◌, ◌<◌, ◌≡◌, refl, Bool, some, List, get_elem?, length, arith,
}
use native.Mathlib.Decide.{dec_lt}
use talk2text.Homing.{dhf, amr_wb_compressed, prmnofsf, homing_frame_test, homing_frame_test_first}
use talk2text.Homing.Tables.{
  dfh_m7k, dfh_m9k, dfh_m12k, dfh_m14k, dfh_m16k, dfh_m18k, dfh_m20k, dfh_m23k,
}
use talk2text.Homing.Laws.{dhf_test-returns}
use talk2text.Homing.High.{dhf_test_24k-returns}

-- What the tables hold for a mode: its homing frame, and the two numbers of bits.
record ModeTables (mode : ℕ) : Type 0 where
  table : List ℕ
  whole : ℕ
  first : ℕ
  homing : get_elem? dhf mode ≡ some table
  compressed : get_elem? amr_wb_compressed mode ≡ some whole
  first_subframe : get_elem? prmnofsf mode ≡ some first
  positive : 0 < first
  smaller : first ≤ whole
  small : whole ≤ 477
  wide : whole ≤ 15 * length table

mode_tables : (mode : ℕ) → mode < 8 → ModeTables mode
unfolding dhf dfh_m7k dfh_m9k dfh_m12k dfh_m14k dfh_m16k dfh_m18k dfh_m20k dfh_m23k
mode_tables zero h = record {
  table = dfh_m7k;
  whole = 132;
  first = 63;
  homing = refl;
  compressed = refl;
  first_subframe = refl;
  positive = omega arith;
  smaller = omega arith;
  small = omega arith;
  wide = omega arith;
}
mode_tables (suc zero) h = record {
  table = dfh_m9k;
  whole = 177;
  first = 81;
  homing = refl;
  compressed = refl;
  first_subframe = refl;
  positive = omega arith;
  smaller = omega arith;
  small = omega arith;
  wide = omega arith;
}
mode_tables (suc (suc zero)) h = record {
  table = dfh_m12k;
  whole = 253;
  first = 100;
  homing = refl;
  compressed = refl;
  first_subframe = refl;
  positive = omega arith;
  smaller = omega arith;
  small = omega arith;
  wide = omega arith;
}
mode_tables (suc (suc (suc zero))) h = record {
  table = dfh_m14k;
  whole = 285;
  first = 108;
  homing = refl;
  compressed = refl;
  first_subframe = refl;
  positive = omega arith;
  smaller = omega arith;
  small = omega arith;
  wide = omega arith;
}
mode_tables (suc (suc (suc (suc zero)))) h = record {
  table = dfh_m16k;
  whole = 317;
  first = 116;
  homing = refl;
  compressed = refl;
  first_subframe = refl;
  positive = omega arith;
  smaller = omega arith;
  small = omega arith;
  wide = omega arith;
}
mode_tables (suc (suc (suc (suc (suc zero))))) h = record {
  table = dfh_m18k;
  whole = 365;
  first = 128;
  homing = refl;
  compressed = refl;
  first_subframe = refl;
  positive = omega arith;
  smaller = omega arith;
  small = omega arith;
  wide = omega arith;
}
mode_tables (suc (suc (suc (suc (suc (suc zero)))))) h = record {
  table = dfh_m20k;
  whole = 397;
  first = 136;
  homing = refl;
  compressed = refl;
  first_subframe = refl;
  positive = omega arith;
  smaller = omega arith;
  small = omega arith;
  wide = omega arith;
}
mode_tables (suc (suc (suc (suc (suc (suc (suc zero))))))) h = record {
  table = dfh_m23k;
  whole = 461;
  first = 152;
  homing = refl;
  compressed = refl;
  first_subframe = refl;
  positive = omega arith;
  smaller = omega arith;
  small = omega arith;
  wide = omega arith;
}
mode_tables (suc (suc (suc (suc (suc (suc (suc (suc mode)))))))) h = absurd (omega arith)

-- In each of the modes 0 to 8 and on every frame of at least 477 bits both `homing_frame_test` and
-- `homing_frame_test_first` return, and so read nothing out of range.
pub homing_frame_test-returns :
    (frame : List ℕ) (mode : ℕ)
    → mode ≤ 8
    → 477 ≤ length frame
    → ((b : Bool) × (homing_frame_test frame mode ≡ some b))
      × ((b : Bool) × (homing_frame_test_first frame mode ≡ some b))
unfolding homing_frame_test homing_frame_test_first
homing_frame_test-returns frame mode h room = elim (dec_lt mode 8) [
  | yes low ↦
      let t = mode_tables mode low in
      let (b, e) =
        dhf_test-returns frame t.table mode t.whole low (omega arith) (omega arith) t.wide
          t.homing in
      let (c, f) =
        dhf_test-returns frame t.table mode t.first low t.positive (omega arith) (omega arith)
          t.homing in
      ((b, rw t.compressed e), (c, rw t.first_subframe f))
  | no high ↦
      let top : mode ≡ 8 = omega arith in
      let (b, e) = dhf_test_24k-returns frame 477 (omega arith) in
      let (c, f) = dhf_test_24k-returns frame 156 (omega arith) in ((b, rw top e), (c, rw top f))
]
