-- ===== src/Pitch.antt =====
-- pvamrwbdecoder.c: the pitch lags of a frame, subframe by subframe, with their concealment. The
-- bits from which a subframe's lag is read, and the pitch gains that the subframes before have left,
-- are arguments.
pub mod Decoding
pub mod Frames
pub mod Sequences
use talk2text.Prelude.{
  ℕ, zero, suc, ◌+◌, ◌-◌, ◌*◌, ◌/◌, ◌%◌, ◌^◌, Bool, true, false, ◌&&◌, ◌||◌, not, if◌then◌else◌,
  ltb, leb, ◌==◌, Option, none, some, List, [], ◌∷◌, get_elem?, ℤ, pos, negsuc, ◌+ℤ◌, ◌-ℤ◌, ltb_ℤ,
  to_int16,
}
use talk2text.Mime.{FrameType, ◌>>=◌}
use talk2text.Dtx.{frame_is}
use talk2text.FixedPoint.{add_int16, sub_int16, shl_int16}
use talk2text.Serial.{serial_parm}
use talk2text.Lag.{store, init_lagconc, lagconceal}

-- PIT_MIN, PIT_FR2, PIT_FR1_9b, PIT_FR1_8b, PIT_MAX, L_SUBFR, NBBITS_7k and NBBITS_9k.
abbrev pub pit_min : ℕ
pit_min = 34

abbrev pub pit_fr2 : ℕ
pit_fr2 = 128

abbrev pub pit_fr1_9b : ℕ
pit_fr1_9b = 160

abbrev pub pit_fr1_8b : ℕ
pit_fr1_8b = 92

abbrev pub pit_max : ℕ
pit_max = 231

abbrev pub l_subfr : ℕ
l_subfr = 64

abbrev pub nbbits_7k : ℕ
nbbits_7k = 132

abbrev pub nbbits_9k : ℕ
nbbits_9k = 177

-- `T0` and `T0_frac`.
pub record PitchLag : Type 0 where
  pub t0 : ℤ
  pub t0_frac : ℤ

-- `T0_frac` of a lag that is `t0 - base` steps of `2 ^ k` into its range.
abbrev pub fraction : ℤ → ℤ → ℤ → ℕ → ℤ
fraction index t0 base k = sub_int16 index (shl_int16 (to_int16 (t0 -ℤ base)) (pos k))

-- The first lag of a half frame, from 8 bits.
unfoldable pub absolute_8 : ℕ → PitchLag
absolute_8 index =
    let t0 = to_int16 (pos (pit_min + index / 2)) in
    if ltb index ((pit_fr1_8b - pit_min) * 2)
    then record { t0 = t0; t0_frac = shl_int16 (fraction (pos index) t0 (pos pit_min) 1) (pos 1) }
    else record {
      t0 = add_int16 (pos index) (pos pit_fr1_8b -ℤ pos ((pit_fr1_8b - pit_min) * 2));
      t0_frac = pos 0;
    }

-- The first lag of a half frame, from 9 bits.
unfoldable pub absolute_9 : ℕ → PitchLag
absolute_9 index =
    let quarters = (pit_fr2 - pit_min) * 4 in
    let halves = (pit_fr1_9b - pit_fr2) * 2 in
    let t0 = to_int16 (pos (pit_min + index / 2 ^ 2)) in
    let above = index - quarters in
    let t0' = to_int16 (pos (pit_fr2 + above / 2)) in
    if ltb index quarters
    then record { t0 = t0; t0_frac = fraction (pos index) t0 (pos pit_min) 2 }
    else if ltb index (quarters + halves)
    then record { t0 = t0'; t0_frac = shl_int16 (fraction (pos above) t0' (pos pit_fr2) 1) (pos 1) }
    else record {
      t0 = add_int16 (pos index) (pos pit_fr1_9b -ℤ pos quarters -ℤ pos halves);
      t0_frac = pos 0;
    }

-- `T0_min` for the lags that follow.
unfoldable pub window : ℤ → ℤ
window t0 =
    let low = to_int16 (t0 -ℤ pos 8) in
    let t0_min = if ltb_ℤ low (pos pit_min) then pos pit_min else low in
    let t0_max = to_int16 (t0_min +ℤ pos 15) in
    if ltb_ℤ (pos pit_max) t0_max then pos (pit_max - 15) else t0_min

-- The lags of the subframes 2 and 4, from 5 and from 6 bits.
unfoldable pub relative_5 : ℤ → ℕ → PitchLag
relative_5 t0_min index =
    let t0 = to_int16 (t0_min +ℤ pos (index / 2)) in
    record { t0 = t0; t0_frac = shl_int16 (fraction (pos index) t0 t0_min 1) (pos 1) }

unfoldable pub relative_6 : ℤ → ℕ → PitchLag
relative_6 t0_min index =
    let t0 = to_int16 (t0_min +ℤ pos (index / 2 ^ 2)) in
    record { t0 = t0; t0_frac = fraction (pos index) t0 t0_min 2 }

-- Whether the lag of the subframe `n` stands for itself: `pit_flag == 0`.
unfoldable pub is_absolute : ℕ → ℕ → Bool
is_absolute nb_bits n =
    let i_subfr = n * l_subfr in i_subfr == 0 || i_subfr == 2 * l_subfr && ltb nbbits_7k nb_bits

-- The lag of the subframe `n`, and `T0_min`.
unfoldable pub decode_lag : ℕ → ℕ → ℤ → List ℕ → Option (PitchLag × ℤ)
decode_lag nb_bits n t0_min prms =
    let first = do
      (index, prms') ← serial_parm (if leb nb_bits nbbits_9k then 8 else 9) prms
      let lag = if leb nb_bits nbbits_9k then absolute_8 index else absolute_9 index
      some (lag, window lag.t0)
    in let next = do
      (index, prms') ← serial_parm (if leb nb_bits nbbits_9k then 5 else 6) prms
      some (
        if leb nb_bits nbbits_9k then relative_5 t0_min index else relative_6 t0_min index,
        t0_min,
      )
      in if is_absolute nb_bits n then first else next

-- What the decoder's state keeps of the lags.
pub record LagState : Type 0 where
  pub lag_hist : List ℤ
  pub old_t0 : ℤ
  pub seed3 : ℤ

-- `bfi` and `unusable_frame` of a frame.
unfoldable pub erasure : FrameType → Bool × Bool
unfolding frame_is
erasure frame_type =
    if frame_is frame_type FrameType.rx_speech_bad
      || frame_is frame_type FrameType.rx_speech_probably_degraded
    then (true, false)
    else if frame_is frame_type FrameType.rx_no_data || frame_is frame_type FrameType.rx_speech_lost
    then (true, true)
    else (false, false)

-- The loop of the history's update, and its last store.
unfoldable pub shift_history : List ℤ → ℕ → Option (List ℤ)
shift_history lag_hist zero = some lag_hist
shift_history lag_hist (suc i) = do
  lag ← get_elem? lag_hist i
  lag_hist' ← store lag_hist (suc i) lag
  shift_history lag_hist' i

unfoldable pub keep_lag : ℤ → LagState → Option LagState
unfolding shift_history
keep_lag t0 st = do
  shifted ← shift_history st.lag_hist 4
  lag_hist ← store shifted 0 t0
  some (record st { lag_hist = lag_hist; old_t0 = t0 })

-- A subframe: the lag that the prediction uses, `T0_min`, and the state.
unfoldable pub subframe :
    ℕ → FrameType → ℕ → ℤ → List ℕ → List ℤ → LagState → Option (PitchLag × ℤ × LagState)
unfolding decode_lag erasure
subframe nb_bits frame_type n t0_min prms gain_hist st = do
  (lag, t0_min') ← decode_lag nb_bits n t0_min prms
  let conceal = do
    (t0, seed3) ← lagconceal gain_hist st.lag_hist lag.t0 st.old_t0 st.seed3 (erasure frame_type).1
    some (record { t0 = t0; t0_frac = pos 0 }, t0_min', record st { seed3 = seed3 })
  let received = do st' ← keep_lag lag.t0 st; some (lag, t0_min', st')
  if (erasure frame_type).0 then conceal else received

-- The subframes from `n` on: each with its bits and gains.
unfoldable pub subframes :
    ℕ → FrameType → ℕ → ℤ → List (List ℕ × List ℤ) → LagState → Option (List PitchLag × LagState)
subframes nb_bits frame_type n t0_min [] st = some ([], st)
subframes nb_bits frame_type n t0_min ((prms, gain_hist) ∷ rest) st = do
  (lag, t0_min', st') ← subframe nb_bits frame_type n t0_min prms gain_hist st
  (lags, st'') ← subframes nb_bits frame_type (n + 1) t0_min' rest st'
  some (lag ∷ lags, st'')

-- What `pvDecoder_AmrWb_Reset` sets of the state, all of it or the start of a new sequence.
unfoldable pub lag_reset : Bool → LagState → LagState
lag_reset reset_all st =
    if reset_all
    then record { lag_hist = init_lagconc; old_t0 = pos 64; seed3 = pos 21845 }
    else record st { old_t0 = pos 64 }
