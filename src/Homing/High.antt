-- ===== src/Homing/High.antt =====
-- The homing test in the mode 23.85, which masks out the bits of the high band energy.
use talk2text.Prelude.{
  ℕ, ◌≤◌, ◌≡◌, refl, Bool, some, List, ◌∷◌, ◌++◌, length, length-append, drop, take, length-drop,
  arith, bit_and, pos, pattern16, get_elem?,
}
use talk2text.FixedPoint.{shl_int16}
use talk2text.Serial.Laws.{number, serial_parm_bound}
use talk2text.Homing.{read_params_24k, dhf_test, dhf}
use talk2text.Homing.Tables.{dfh_m24k}
use talk2text.Homing.Laws.{read_words-AreWords, compare_params-returns}

length_parts :
    (a b c d : List ℕ) (x y z : ℕ)
    → length a ≡ 10
    → length b ≡ 6
    → length c ≡ 6
    → length d ≡ 6
    → length (a ++ x ∷ b ++ y ∷ c ++ z ∷ d) ≡ 31
length_parts a b c d x y z p q r s = simp length-append (omega arith)

-- The words are read, and the words before the last one are 31.
read_params_24k-returns :
    (frame : List ℕ)
    → 473 ≤ length frame
    → (words : List ℕ) × (last : ℕ) × (read_params_24k frame ≡ some (words, last, 0))
      × (length words ≡ 31)
unfolding read_params_24k
read_params_24k-returns frame h =
    let f1 = drop 150 frame in
    let f2 = drop 15 f1 in
    let f3 = drop 90 f2 in
    let f4 = drop 15 f3 in
    let f5 = drop 90 f4 in
    let f6 = drop 15 f5 in
    let f7 = drop 90 f6 in
    let d1 = length-drop 150 frame in
    let d2 = length-drop 15 f1 in
    let d3 = length-drop 90 f2 in
    let d4 = length-drop 15 f3 in
    let d5 = length-drop 90 f4 in
    let d6 = length-drop 15 f5 in
    let d7 = length-drop 90 f6 in
    let (w0, e0, l0, _) = read_words-AreWords 10 frame (omega arith) in
    let (e1, _) = serial_parm_bound 15 f1 (omega arith) (omega arith) in
    let (w2, e2, l2, _) = read_words-AreWords 6 f2 (omega arith) in
    let (e3, _) = serial_parm_bound 15 f3 (omega arith) (omega arith) in
    let (w4, e4, l4, _) = read_words-AreWords 6 f4 (omega arith) in
    let (e5, _) = serial_parm_bound 15 f5 (omega arith) (omega arith) in
    let (w6, e6, l6, _) = read_words-AreWords 6 f6 (omega arith) in
    let (e7, _) = serial_parm_bound 8 f7 (omega arith) (omega arith) in
    let v1 = bit_and (number 0 (take 15 f1)) 0x61ff in
    let v3 = bit_and (number 0 (take 15 f3)) 0xe0ff in
    let v5 = bit_and (number 0 (take 15 f5)) 0x7f0f in
    (
      w0 ++ v1 ∷ w2 ++ v3 ∷ w4 ++ v5 ∷ w6,
      pattern16 (shl_int16 (pos (number 0 (take 8 f7))) (pos 7)),
      rw (e0, e1, e2, e3, e4, e5, e6, e7) refl,
      length_parts w0 w2 w4 w6 v1 v3 v5 l0 l2 l4 l6,
    )

table_24k : (get_elem? dhf 8 ≡ some dfh_m24k) × (length dfh_m24k ≡ 32)
unfolding dhf dfh_m24k
table_24k = (refl, refl)

-- In mode 8 `dhf_test` returns, and so reads nothing out of range, on every frame of at least 473
-- bits.
pub dhf_test_24k-returns :
    (frame : List ℕ) (n : ℕ) → 473 ≤ length frame → (b : Bool) × (dhf_test frame 8 n ≡ some b)
unfolding dhf_test
dhf_test_24k-returns frame n h =
    let (words, last, read, l) = read_params_24k-returns frame h in
    let (et, wide) = table_24k in
    let (b, e) = compare_params-returns words last 0 dfh_m24k (omega arith) in (b, rw (read, et) e)
