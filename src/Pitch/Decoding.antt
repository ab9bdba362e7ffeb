-- ===== src/Pitch/Decoding.antt =====
-- pvamrwbdecoder.c: the bits of a lag, and the range PIT_MIN to PIT_MAX.
use talk2text.Prelude.{
  ℕ, ◌+◌, ◌/◌, ◌^◌, ◌≤◌, ◌<◌, ◌≡◌, refl, Bool, true, false, ◌&&◌, ◌||◌, if◌then◌else◌, ltb, leb,
  all_below, all_below_sound, Bool-cases, ◌⊎◌, inl, inr, Option, some, List, length, take, ℤ, pos,
  negsuc, neg_part, pos_part, ◌+ℤ◌, ◌-ℤ◌, to_int16, to_int16_id, arith,
}
use talk2text.FixedPoint.{add_int16, sub_int16, shl_int16}
use talk2text.Serial.Laws.{number, serial_parm_bound}
use talk2text.Lag.Bounds.{Between}
use talk2text.Pitch.{
  PitchLag, absolute_8, absolute_9, window, relative_5, relative_6, is_absolute, decode_lag,
  nbbits_9k,
}

abbrev leb_ℤ : ℤ → ℤ → Bool
leb_ℤ a b = leb (pos_part a + neg_part b) (pos_part b + neg_part a)

abbrev between_test : ℕ → ℕ → ℤ → Bool
between_test lo hi z = leb_ℤ (pos lo) z && leb_ℤ z (pos hi)

abbrev lag_test : PitchLag → Bool
lag_test lag = between_test 34 231 lag.t0 && between_test 0 3 lag.t0_frac

-- A lag that the prediction can use: its samples are in the excitation that is kept.
pub record IsLag (lag : PitchLag) : Type 0 where
  pub whole : Between (pos 34) (pos 231) lag.t0
  pub quarters : Between (pos 0) (pos 3) lag.t0_frac

lag_test-IsLag : (lag : PitchLag) → lag_test lag ≡ true → IsLag lag
lag_test-IsLag lag e = record { whole = ground arith; quarters = ground arith }

all_8 : all_below 256 (λ index. lag_test (absolute_8 index)) ≡ true
unfolding all_below absolute_8 add_int16 sub_int16 shl_int16 to_int16 ◌+ℤ◌ ◌-ℤ◌
all_8 = refl

all_9 : all_below 512 (λ index. lag_test (absolute_9 index)) ≡ true
unfolding all_below absolute_9 add_int16 sub_int16 shl_int16 to_int16 ◌+ℤ◌ ◌-ℤ◌
all_9 = refl

absolute_8-IsLag : (index : ℕ) → index < 256 → IsLag (absolute_8 index)
absolute_8-IsLag index h =
    lag_test-IsLag (absolute_8 index)
      (all_below_sound 256 (λ i. lag_test (absolute_8 i)) index all_8 h)

absolute_9-IsLag : (index : ℕ) → index < 512 → IsLag (absolute_9 index)
absolute_9-IsLag index h =
    lag_test-IsLag (absolute_9 index)
      (all_below_sound 512 (λ i. lag_test (absolute_9 i)) index all_9 h)

-- Where the lags of the next subframe start.
abbrev pub IsStart : ℤ → Type 0
IsStart t0_min = Between (pos 34) (pos 216) t0_min

all_windows : all_below 232 (λ n. ltb n 34 || between_test 34 216 (window (pos n))) ≡ true
unfolding all_below window to_int16 ◌+ℤ◌ ◌-ℤ◌
all_windows = refl

window-IsStart : (t0 : ℤ) → Between (pos 34) (pos 231) t0 → IsStart (window t0)
window-IsStart (pos n) b =
    let e =
      all_below_sound 232 (λ m. ltb m 34 || between_test 34 216 (window (pos m))) n all_windows
        (omega (arith, b.1)) in
    ground arith
window-IsStart (negsuc n) b = absurd (omega (arith, b.0))

pos_add : (n k : ℕ) → pos n +ℤ pos k ≡ pos (n + k)
unfolding ◌+ℤ◌
pos_add n k = ground arith

pos_sub : (n k : ℕ) → pos (n + k) -ℤ pos n ≡ pos k
unfolding ◌-ℤ◌
pos_sub n k = ground arith

step_back :
    (t0_min : ℤ) (k : ℕ)
    → IsStart t0_min
    → k < 16
    → (to_int16 (t0_min +ℤ pos k) ≡ t0_min +ℤ pos k)
      × (to_int16 (t0_min +ℤ pos k -ℤ t0_min) ≡ pos k)
step_back (pos n) k s h =
    let up = pos_add n k in
    let back = pos_sub n k in
    (
      rw up (to_int16_id (pos (n + k)) (omega (arith, s.1), omega arith)),
      rw (up, back) (to_int16_id (pos k) (omega arith, omega arith)),
    )
step_back (negsuc n) k s h = absurd (omega (arith, s.0))

fractions_5 :
    all_below 32 (λ i.
      between_test 0 3 (shl_int16 (sub_int16 (pos i) (shl_int16 (pos (i / 2)) (pos 1))) (pos 1)))
    ≡ true
unfolding all_below sub_int16 shl_int16 to_int16 ◌+ℤ◌ ◌-ℤ◌
fractions_5 = refl

fractions_6 :
    all_below 64 (λ i. between_test 0 3 (sub_int16 (pos i) (shl_int16 (pos (i / 2 ^ 2)) (pos 2))))
    ≡ true
unfolding all_below sub_int16 shl_int16 to_int16 ◌+ℤ◌ ◌-ℤ◌
fractions_6 = refl

shifted-Between :
    (t0_min : ℤ) (k : ℕ) → IsStart t0_min → k < 16 → Between (pos 34) (pos 231) (t0_min +ℤ pos k)
shifted-Between (pos n) k s h = rw (pos_add n k) (omega (arith, s.0), omega (arith, s.1))
shifted-Between (negsuc n) k s h = absurd (omega (arith, s.0))

relative_5-IsLag :
    (t0_min : ℤ) (index : ℕ) → IsStart t0_min → index < 32 → IsLag (relative_5 t0_min index)
unfolding relative_5
relative_5-IsLag t0_min index s h =
    let k : index / 2 < 16 = omega arith in
    let (there, back) = step_back t0_min (index / 2) s k in
    let e =
      all_below_sound 32
        (λ i.
          between_test 0 3
            (shl_int16 (sub_int16 (pos i) (shl_int16 (pos (i / 2)) (pos 1))) (pos 1)))
        index fractions_5 h in
    rw (there, back)
      (record { whole = shifted-Between t0_min (index / 2) s k; quarters = ground arith })

relative_6-IsLag :
    (t0_min : ℤ) (index : ℕ) → IsStart t0_min → index < 64 → IsLag (relative_6 t0_min index)
unfolding relative_6
relative_6-IsLag t0_min index s h =
    let k : index / 2 ^ 2 < 16 = omega arith in
    let (there, back) = step_back t0_min (index / 2 ^ 2) s k in
    let e =
      all_below_sound 64
        (λ i. between_test 0 3 (sub_int16 (pos i) (shl_int16 (pos (i / 2 ^ 2)) (pos 2)))) index
        fractions_6 h in
    rw (there, back)
      (record { whole = shifted-Between t0_min (index / 2 ^ 2) s k; quarters = ground arith })

-- The bits give a lag, and where the next ones start.
pub record Decoded (r : Option (PitchLag × ℤ)) : Type 0 where
  pub lag : PitchLag
  pub start : ℤ
  pub returns : r ≡ some (lag, start)
  pub usable : IsLag lag
  pub inside : IsStart start

decoded : (lag : PitchLag) (start : ℤ) → IsLag lag → IsStart start → Decoded (some (lag, start))
decoded lag start l s = record { lag = lag; start = start; returns = refl; usable = l; inside = s }

chosen-IsLag :
    (b : Bool) (x y : PitchLag)
    → (b ≡ true → IsLag x)
    → (b ≡ false → IsLag y)
    → IsLag (if b then x else y)
chosen-IsLag true x y p q = p refl
chosen-IsLag false x y p q = q refl

otherwise : {A : Type 0} (b : Bool) → (b ≡ true) ⊎ A → b ≡ false → A
otherwise b (inl on) off = cc
otherwise b (inr a) off = a

pub decode_lag-Decoded :
    (nb_bits n : ℕ) (t0_min : ℤ) (prms : List ℕ)
    → 9 ≤ length prms
    → (is_absolute nb_bits n ≡ true) ⊎ IsStart t0_min
    → Decoded (decode_lag nb_bits n t0_min prms)
unfolding decode_lag
decode_lag-Decoded nb_bits n t0_min prms room start = elim (Bool-cases (is_absolute nb_bits n)) [
  | inl absolute ↦ elim (Bool-cases (leb nb_bits nbbits_9k)) [
    | inl low ↦
        let (e, small) = serial_parm_bound 8 prms (omega arith) (omega arith) in
        let lag = absolute_8-IsLag (number 0 (take 8 prms)) small in
        rw (absolute, low, e) (decoded _ _ lag (window-IsStart _ lag.whole))
    | inr high ↦
        let (e, small) = serial_parm_bound 9 prms (omega arith) (omega arith) in
        let lag = absolute_9-IsLag (number 0 (take 9 prms)) small in
        rw (absolute, high, e) (decoded _ _ lag (window-IsStart _ lag.whole))
  ]
  | inr follows ↦
      let s : IsStart t0_min = otherwise (is_absolute nb_bits n) start follows in
      elim (Bool-cases (leb nb_bits nbbits_9k)) [
        | inl low ↦
            let (e, small) = serial_parm_bound 5 prms (omega arith) (omega arith) in
            rw (follows, low, e)
              (decoded _ _ (relative_5-IsLag t0_min (number 0 (take 5 prms)) s small) s)
        | inr high ↦
            let (e, small) = serial_parm_bound 6 prms (omega arith) (omega arith) in
            rw (follows, high, e)
              (decoded _ _ (relative_6-IsLag t0_min (number 0 (take 6 prms)) s small) s)
      ]
]
