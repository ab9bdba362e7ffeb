-- ===== src/Dtx/Counters.antt =====
-- The counters and flags that the handler keeps.
use talk2text.Prelude.{
  ℕ, ◌≤◌, ◌≡◌, true, false, ℤ, pos, pos_part, neg_part, eqb_ℤ, to_int16, ◌-ℤ◌, ◌+ℤ◌, arith, List,
}
use talk2text.FixedPoint.{add_int16}
use talk2text.FixedPoint.Saturation.{add_int16-sat16}
use talk2text.Mime.{FrameType}
use talk2text.Dtx.{DtxDecState, rx_amr_wb_dtx_handler, dtx_dec_amr_wb_reset}

-- A counter between 0 and `k`.
abbrev pub IsCount : ℕ → ℤ → Type 0
IsCount k z = (neg_part z ≡ 0) × (pos_part z ≤ k)

-- What holds of the decoder's state between two frames.
pub record IsDtxDecState (st : DtxDecState) : Type 0 where
  pub since : IsCount 32767 st.since_last_sid
  pub elapsed : IsCount 32767 st.dec_ana_elapsed_count
  pub hangover : IsCount 7 st.dtx_hangover_count
  pub valid : st.valid_data ≡ true → st.sid_frame ≡ true

add_one-IsCount : (z : ℤ) → IsCount 32767 z → IsCount 32767 (add_int16 z (pos 1))
unfolding ◌+ℤ◌
add_one-IsCount z h = ground (arith, add_int16-sat16 z (pos 1))

minus_one-IsCount :
    (z : ℤ) → IsCount 7 z → eqb_ℤ z (pos 0) ≡ false → IsCount 7 (to_int16 (z -ℤ pos 1))
unfolding to_int16 ◌-ℤ◌
minus_one-IsCount z h e = ground arith

-- Whatever the state before and the initial vector, after `dtx_dec_amr_wb_reset` the two frame
-- counters lie between 0 and 32767, the hangover count between 0 and 7, and `valid_data` implies
-- `sid_frame`.
pub dtx_dec_amr_wb_reset-IsDtxDecState :
    (st : DtxDecState) (isf_init : List ℤ) → IsDtxDecState (dtx_dec_amr_wb_reset st isf_init)
unfolding dtx_dec_amr_wb_reset
dtx_dec_amr_wb_reset-IsDtxDecState st isf_init = ground arith

module _ (st : DtxDecState) (frame_type : FrameType) (v : IsDtxDecState st) where
  after : DtxDecState
  after = (rx_amr_wb_dtx_handler st frame_type).0

  since_after : IsCount 32767 after.since_last_sid
  unfolding after rx_amr_wb_dtx_handler
  since_after = ground (arith, add_one-IsCount st.since_last_sid v.since)

  elapsed_after : IsCount 32767 after.dec_ana_elapsed_count
  unfolding after rx_amr_wb_dtx_handler
  elapsed_after = ground (
    arith,
    add_one-IsCount st.dec_ana_elapsed_count v.elapsed,
    add_one-IsCount (pos 0) (omega arith),
  )

  hangover_after : IsCount 7 after.dtx_hangover_count
  unfolding after rx_amr_wb_dtx_handler
  hangover_after = ground (arith, minus_one-IsCount st.dtx_hangover_count v.hangover)

  valid_after : after.valid_data ≡ true → after.sid_frame ≡ true
  unfolding after rx_amr_wb_dtx_handler
  valid_after e = ground (arith, v.valid)

  -- From a decoder state in which the two frame counters lie between 0 and 32767, the hangover
  -- count between 0 and 7, and `valid_data` implies `sid_frame`, the state after
  -- `rx_amr_wb_dtx_handler` has the same properties, for every frame type.
  pub rx_amr_wb_dtx_handler-IsDtxDecState : IsDtxDecState (rx_amr_wb_dtx_handler st frame_type).0
  unfolding after
  rx_amr_wb_dtx_handler-IsDtxDecState = record {
    since = since_after;
    elapsed = elapsed_after;
    hangover = hangover_after;
    valid = valid_after;
  }
