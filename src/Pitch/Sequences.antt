-- ===== src/Pitch/Sequences.antt =====
-- pvamrwbdecoder.c: the lags of a sequence of frames, from the reset on.
use talk2text.Prelude.{
  ℕ, ◌≡◌, refl, true, false, not, if◌then◌else◌, Bool-cases, inl, inr, Option, some, List, [], ◌∷◌,
  ◌++◌, ℤ,
}
use talk2text.Dtx.{speech, state_is, DtxDecState, rx_amr_wb_dtx_handler}
use talk2text.Mime.{FrameType, ◌>>=◌}
use talk2text.Mime.Reference.{All}
use talk2text.Pitch.{PitchLag, LagState, subframes, lag_reset}
use talk2text.Pitch.Decoding.{IsLag}
use talk2text.Pitch.Frames.{
  IsLagState, IsInput, lag_reset-IsLagState, lag_reset-keeps-IsLagState, subframes-AreDecoded,
}

-- A frame: its number of bits and type, the state of the DTX handler when it comes, what the
-- variable `T0_min` holds before it is set, and the bits and gains of each subframe.
pub record LagFrame : Type 0 where
  pub nb_bits : ℕ
  pub frame_type : FrameType
  pub dtx_state : DtxDecState
  pub t0_min : ℤ
  pub inputs : List (List ℕ × List ℤ)

-- What the interface does to the decoder: a full reset at a homing frame, or a frame.
pub data LagStep : Type 0 where
  resets : LagStep
  decodes : LagFrame → LagStep

-- `pvDecoder_AmrWb`: a frame of comfort noise resets the memories of speech and has no lag.
unfoldable pub frame_lags : LagFrame → LagState → Option (List PitchLag × LagState)
frame_lags f st =
    let new_dtx_state = (rx_amr_wb_dtx_handler f.dtx_state f.frame_type).1 in
    if not (state_is new_dtx_state speech)
    then some ([], lag_reset false st)
    else subframes f.nb_bits f.frame_type 0 f.t0_min f.inputs st

-- The calls, one after the other, each on the state that the one before has left.
unfoldable pub lag_frames : List LagStep → LagState → Option (List PitchLag × LagState)
lag_frames [] st = some ([], st)
lag_frames (resets ∷ rest) st = lag_frames rest (lag_reset true st)
lag_frames (decodes f ∷ rest) st = do
  (lags, st') ← frame_lags f st
  (more, st'') ← lag_frames rest st'
  some (lags ++ more, st'')

-- Each subframe has enough bits, and five gains.
abbrev pub HasInputs : LagStep → Type 0
HasInputs resets = Unit
HasInputs (decodes f) = All IsInput f.inputs

-- Every lag of the sequence is one that the prediction can use.
pub record AllUsable (r : Option (List PitchLag × LagState)) : Type 0 where
  pub lags : List PitchLag
  pub state : LagState
  pub returns : r ≡ some (lags, state)
  pub usable : All IsLag lags
  pub valid : IsLagState state

All-append :
    (P : PitchLag → Type 0) (xs ys : List PitchLag) → All P xs → All P ys → All P (xs ++ ys)
All-append P [] ys a b = b
All-append P (x ∷ xs) ys a b = (a.0, All-append P xs ys a.1 b)

frame_lags-AllUsable :
    (f : LagFrame) (st : LagState)
    → IsLagState st
    → All IsInput f.inputs
    → AllUsable (frame_lags f st)
unfolding frame_lags
frame_lags-AllUsable f st v w =
    let noise = not (state_is (rx_amr_wb_dtx_handler f.dtx_state f.frame_type).1 speech) in
    elim (Bool-cases noise) [
      | inl muted ↦ rw muted (record {
        lags = [];
        state = lag_reset false st;
        returns = refl;
        usable = tt;
        valid = lag_reset-keeps-IsLagState st v;
      })
      | inr spoken ↦
          let d = subframes-AreDecoded f.nb_bits f.frame_type f.t0_min f.inputs st v w in
          rw spoken (record {
            lags = d.lags;
            state = d.state;
            returns = d.returns;
            usable = d.usable;
            valid = d.valid;
          })
    ]

lag_frames_from :
    (steps : List LagStep) (st : LagState)
    → IsLagState st
    → All HasInputs steps
    → AllUsable (lag_frames steps st)
unfolding lag_frames
lag_frames_from [] st v w = record { lags = []; state = st; returns = refl; usable = tt; valid = v }
lag_frames_from (resets ∷ rest) st v w =
    lag_frames_from rest (lag_reset true st) (lag_reset-IsLagState st) w.1
lag_frames_from (decodes f ∷ rest) st v w =
    let d = frame_lags-AllUsable f st v w.0 in
    let r = lag_frames_from rest d.state d.valid w.1 in
    rw (d.returns, r.returns)
      (record {
        lags = d.lags ++ r.lags;
        state = r.state;
        returns = refl;
        usable = All-append IsLag d.lags r.lags d.usable r.usable;
        valid = r.valid;
      })

-- From the reset of a decoder, for every sequence of full resets and frames, each frame of any
-- type and number of bits and with any state of the DTX handler, and each of its subframes with at
-- least 9 bits and with 5 gains, all calls return, every lag that is used, received or concealed,
-- lies between 34 and 231 with a fraction from 0 to 3, and the lags that the state keeps lie
-- between 34 and 231, also after frames of comfort noise, which have no lag and reset the memories
-- of speech.
pub lag_frames-AllUsable :
    (steps : List LagStep) (st : LagState)
    → All HasInputs steps
    → AllUsable (lag_frames steps (lag_reset true st))
lag_frames-AllUsable steps st w =
    lag_frames_from steps (lag_reset true st) (lag_reset-IsLagState st) w
