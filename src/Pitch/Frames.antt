-- ===== src/Pitch/Frames.antt =====
-- pvamrwbdecoder.c: the lags of a frame, received or concealed.
use talk2text.Prelude.{
  ℕ, suc, ◌+◌, ◌≤◌, ◌≡◌, refl, ap, true, false, ◌⊎◌, Bool-cases, inl, inr, Option, some, List, [],
  ◌∷◌, length, ℤ, pos, arith,
}
use talk2text.Mime.{FrameType, ◌>>=◌}
use talk2text.Mime.Reference.{All}
use talk2text.Lag.{store, init_lagconc}
use talk2text.Lag.Bounds.{Between, AreLags, lagconceal-Conceals}
use talk2text.Pitch.{
  PitchLag, LagState, is_absolute, erasure, shift_history, keep_lag, subframe, subframes, lag_reset,
}
use talk2text.Pitch.Decoding.{IsLag, IsStart, decode_lag-Decoded}

-- The lags that the state keeps are lags of the prediction.
pub record IsLagState (st : LagState) : Type 0 where
  pub history : AreLags (pos 34) (pos 231) st.lag_hist
  pub old : Between (pos 34) (pos 231) st.old_t0

pub lag_reset-IsLagState : (st : LagState) → IsLagState (lag_reset true st)
unfolding lag_reset init_lagconc
lag_reset-IsLagState st =
    let b : Between (pos 34) (pos 231) (pos 64) = (omega arith, omega arith) in
    record { history = record { five = refl; each = (b, (b, (b, (b, (b, tt))))) }; old = b }

-- The reset after a frame of comfort noise: the history stays.
pub lag_reset-keeps-IsLagState : (st : LagState) → IsLagState st → IsLagState (lag_reset false st)
unfolding lag_reset
lag_reset-keeps-IsLagState st v = record { history = v.history; old = (omega arith, omega arith) }

shifted :
    (lag_hist : List ℤ) (t0 lo hi : ℤ)
    → AreLags lo hi lag_hist
    → Between lo hi t0
    → (xs : List ℤ) × (out : List ℤ) × (shift_history lag_hist 4 ≡ some xs)
      × (store xs 0 t0 ≡ some out)
      × AreLags lo hi out
unfolding shift_history
shifted (a ∷ b ∷ c ∷ d ∷ e ∷ []) t0 lo hi v s =
    let (va, (vb, (vc, (vd, _)))) = v.each in
    (
      a ∷ a ∷ b ∷ c ∷ d ∷ [],
      t0 ∷ a ∷ b ∷ c ∷ d ∷ [],
      refl,
      refl,
      record { five = refl; each = (s, (va, (vb, (vc, (vd, tt))))) },
    )
shifted [] t0 lo hi v s = absurd (omega (arith, v.five))
shifted (a ∷ []) t0 lo hi v s = absurd (omega (arith, v.five))
shifted (a ∷ b ∷ []) t0 lo hi v s = absurd (omega (arith, v.five))
shifted (a ∷ b ∷ c ∷ []) t0 lo hi v s = absurd (omega (arith, v.five))
shifted (a ∷ b ∷ c ∷ d ∷ []) t0 lo hi v s = absurd (omega (arith, v.five))
shifted (a ∷ b ∷ c ∷ d ∷ e ∷ f ∷ xs) t0 lo hi v s = absurd (omega (arith, v.five))

keep_lag-IsLagState :
    (t0 : ℤ) (st : LagState)
    → IsLagState st
    → Between (pos 34) (pos 231) t0
    → (st' : LagState) × (keep_lag t0 st ≡ some st') × IsLagState st'
unfolding keep_lag
keep_lag-IsLagState t0 st v b =
    let (xs, out, e, f, w) = shifted st.lag_hist t0 (pos 34) (pos 231) v.history b in
    (record st { lag_hist = out; old_t0 = t0 }, rw (e, f) refl, record { history = w; old = b })

-- A subframe gives a lag of the prediction.
record Predicts (r : Option (PitchLag × ℤ × LagState)) : Type 0 where
  lag : PitchLag
  start : ℤ
  state : LagState
  returns : r ≡ some (lag, start, state)
  usable : IsLag lag
  inside : IsStart start
  valid : IsLagState state

predicts :
    (lag : PitchLag) (start : ℤ) (state : LagState)
    → IsLag lag
    → IsStart start
    → IsLagState state
    → Predicts (some (lag, start, state))
predicts lag start state l s v = record {
  lag = lag;
  start = start;
  state = state;
  returns = refl;
  usable = l;
  inside = s;
  valid = v;
}

subframe-Predicts :
    (nb_bits : ℕ) (frame_type : FrameType) (n : ℕ) (t0_min : ℤ) (prms : List ℕ) (gain_hist : List ℤ)
    (st : LagState)
    → IsLagState st
    → 9 ≤ length prms
    → length gain_hist ≡ 5
    → (is_absolute nb_bits n ≡ true) ⊎ IsStart t0_min
    → Predicts (subframe nb_bits frame_type n t0_min prms gain_hist st)
unfolding subframe keep_lag
subframe-Predicts nb_bits frame_type n t0_min prms gain_hist st v room gains start =
    let d = decode_lag-Decoded nb_bits n t0_min prms room start in
    elim (Bool-cases (erasure frame_type).0) [
      | inl erased ↦
          let c =
            lagconceal-Conceals gain_hist st.lag_hist (pos 34) (pos 231) d.lag.t0 st.old_t0 st.seed3
              (erasure frame_type).1 gains v.history d.usable.whole in
          rw (d.returns, erased, c.returns)
            (predicts _ _ _ (record { whole = c.between; quarters = (omega arith, omega arith) })
              d.inside (record { history = v.history; old = v.old }))
      | inr received ↦
          let (st', e, w) = keep_lag-IsLagState d.lag.t0 st v d.usable.whole in
          rw (d.returns, received, e) (predicts d.lag d.start st' d.usable d.inside w)
    ]

-- Enough bits, and five gains.
abbrev pub IsInput : List ℕ × List ℤ → Type 0
IsInput input = (9 ≤ length input.0) × (length input.1 ≡ 5)

-- The lags of the subframes, all of them lags of the prediction.
pub record AreDecoded (count : ℕ) (r : Option (List PitchLag × LagState)) : Type 0 where
  pub lags : List PitchLag
  pub state : LagState
  pub returns : r ≡ some (lags, state)
  pub as_many : length lags ≡ count
  pub usable : All IsLag lags
  pub valid : IsLagState state

prepended :
    {count : ℕ} {r : Option (List PitchLag × LagState)} (lag : PitchLag)
    → IsLag lag
    → AreDecoded count r
    → AreDecoded (suc count) (r >>= λ (lags, state). some (lag ∷ lags, state))
prepended lag l d = rw d.returns (record {
  lags = lag ∷ d.lags;
  state = d.state;
  returns = refl;
  as_many = ap suc d.as_many;
  usable = (l, d.usable);
  valid = d.valid;
})

subframes_from :
    (nb_bits : ℕ) (frame_type : FrameType) (n : ℕ) (t0_min : ℤ) (inputs : List (List ℕ × List ℤ))
    (st : LagState)
    → IsLagState st
    → All IsInput inputs
    → (is_absolute nb_bits n ≡ true) ⊎ IsStart t0_min
    → AreDecoded (length inputs) (subframes nb_bits frame_type n t0_min inputs st)
unfolding subframes
subframes_from nb_bits frame_type n t0_min [] st v w start = record {
  lags = [];
  state = st;
  returns = refl;
  as_many = refl;
  usable = tt;
  valid = v;
}
subframes_from nb_bits frame_type n t0_min ((prms, gain_hist) ∷ rest) st v w start =
    let p = subframe-Predicts nb_bits frame_type n t0_min prms gain_hist st v w.0.0 w.0.1 start in
    rw p.returns (
      prepended p.lag p.usable
        (subframes_from nb_bits frame_type (n + 1) p.start rest p.state p.valid w.1 (inr p.inside)))

-- From a state whose five last lags and whose old lag lie between 34 and 231, for every number of
-- bits, frame type and list of subframes, each with at least 9 bits and with 5 gains, the loop
-- over the subframes returns; each of its lags lies between 34 and 231 with a fraction from 0 to
-- 3, received or concealed, and the state after it has the same property.
pub subframes-AreDecoded :
    (nb_bits : ℕ) (frame_type : FrameType) (t0_min : ℤ) (inputs : List (List ℕ × List ℤ))
    (st : LagState)
    → IsLagState st
    → All IsInput inputs
    → AreDecoded (length inputs) (subframes nb_bits frame_type 0 t0_min inputs st)
subframes-AreDecoded nb_bits frame_type t0_min inputs st v w =
    subframes_from nb_bits frame_type 0 t0_min inputs st v w (inl first)
  where
    first : is_absolute nb_bits 0 ≡ true
    first = unfold is_absolute in refl
