-- ===== src/Dtx/Handler.antt =====
-- The handler against a table of states, and against the table in the source's comment.
use talk2text.Prelude.{
  ℕ, ◌+◌, ◌^◌, ltb, leb, ◌<◌, ◌≡◌, ◌∙◌, refl, Bool, true, false, not, if◌then◌else◌, pos, ◌+ℤ◌,
  arith,
}
use talk2text.FixedPoint.{add_int16}
use talk2text.FixedPoint.Saturation.{add_int16-sat16}
use talk2text.Mime.{FrameType}
use talk2text.Dtx.{
  SynthesisState, speech, dtx, dtx_mute, DtxDecState, rx_amr_wb_dtx_handler, state_is,
}

-- The state after a frame, by the frame type, the state before it, and whether more than
-- fifty frames passed without new noise parameters.
unfoldable pub next_state : FrameType → SynthesisState → Bool → SynthesisState
next_state FrameType.rx_speech_good before expired = speech
next_state FrameType.rx_speech_probably_degraded before expired = speech
next_state FrameType.rx_speech_lost speech expired = speech
next_state FrameType.rx_speech_lost dtx expired = if expired then dtx_mute else dtx
next_state FrameType.rx_speech_lost dtx_mute expired = dtx_mute
next_state FrameType.rx_speech_bad speech expired = speech
next_state FrameType.rx_speech_bad _ expired = if expired then dtx_mute else dtx
next_state FrameType.rx_sid_first dtx_mute expired = dtx_mute
next_state FrameType.rx_sid_first _ expired = if expired then dtx_mute else dtx
next_state FrameType.rx_sid_update before expired = if expired then dtx_mute else dtx
next_state FrameType.rx_sid_bad dtx_mute expired = dtx_mute
next_state FrameType.rx_sid_bad _ expired = if expired then dtx_mute else dtx
next_state FrameType.rx_no_data speech expired = speech
next_state FrameType.rx_no_data dtx expired = if expired then dtx_mute else dtx
next_state FrameType.rx_no_data dtx_mute expired = dtx_mute

count_one :
    (n : ℕ)
    → n < 2 ^ 15
    → add_int16 (pos n) (pos 1) ≡ (if ltb n 32767 then pos (n + 1) else pos 32767)
unfolding ◌+ℤ◌
count_one n h = add_int16-sat16 (pos n) (pos 1) (omega arith) (omega arith) ∙ ground arith

-- For every frame type and decoder state whose count of frames since the last noise parameters is
-- an `n` below 2 ^ 15, `rx_amr_wb_dtx_handler` returns the state that the transition table
-- `next_state` gives for the frame type, the state before, and whether `n` is at least 50.
pub rx_amr_wb_dtx_handler-next_state :
    (st : DtxDecState) (frame_type : FrameType) (n : ℕ)
    → st.since_last_sid ≡ pos n
    → n < 2 ^ 15
    → (rx_amr_wb_dtx_handler st frame_type).1 ≡ next_state frame_type st.dtx_global_state (leb 50 n)
unfolding rx_amr_wb_dtx_handler next_state
rx_amr_wb_dtx_handler-next_state st FrameType.rx_speech_good n e h = ground arith
rx_amr_wb_dtx_handler-next_state st frame_type n e h = ground (arith, count_one n h)

-- The table of the source's comment, as the states that it allows; it has no row for lost speech.
unfoldable pub documented : FrameType → SynthesisState → SynthesisState → Bool
documented FrameType.rx_speech_good before after = state_is after speech
documented FrameType.rx_speech_probably_degraded before after = state_is after speech
documented FrameType.rx_speech_lost before after = true
documented FrameType.rx_speech_bad before after = state_is after before
documented FrameType.rx_sid_first speech after = state_is after dtx
documented FrameType.rx_sid_first dtx after = not (state_is after speech)
documented FrameType.rx_sid_first dtx_mute after = state_is after dtx_mute
documented FrameType.rx_sid_update before after = state_is after dtx
documented FrameType.rx_sid_bad speech after = state_is after dtx
documented FrameType.rx_sid_bad dtx after = not (state_is after speech)
documented FrameType.rx_sid_bad dtx_mute after = state_is after dtx_mute
documented FrameType.rx_no_data speech after = state_is after speech
documented FrameType.rx_no_data dtx after = not (state_is after speech)
documented FrameType.rx_no_data dtx_mute after = state_is after dtx_mute

-- Where the code leaves that table.
unfoldable pub departs : FrameType → SynthesisState → Bool → Bool
departs FrameType.rx_speech_bad dtx expired = expired
departs FrameType.rx_speech_bad dtx_mute expired = not expired
departs FrameType.rx_sid_first speech expired = expired
departs FrameType.rx_sid_bad speech expired = expired
departs FrameType.rx_sid_update before expired = expired
departs _ before expired = false

next_state-documented :
    (frame_type : FrameType) (before : SynthesisState) (expired : Bool)
    → documented frame_type before (next_state frame_type before expired)
      ≡ not (departs frame_type before expired)
unfolding documented departs next_state state_is
next_state-documented FrameType.rx_speech_good speech true = refl
next_state-documented frame_type before expired = ground arith

-- For every frame type and decoder state whose count of frames since the last noise parameters is
-- an `n` below 2 ^ 15, the state that `rx_amr_wb_dtx_handler` returns is one that the source's
-- table allows exactly if `departs` is false of the frame type, the state before, and whether `n`
-- is at least 50.
pub rx_amr_wb_dtx_handler-documented :
    (st : DtxDecState) (frame_type : FrameType) (n : ℕ)
    → st.since_last_sid ≡ pos n
    → n < 2 ^ 15
    → documented frame_type st.dtx_global_state (rx_amr_wb_dtx_handler st frame_type).1
      ≡ not (departs frame_type st.dtx_global_state (leb 50 n))
rx_amr_wb_dtx_handler-documented st frame_type n e h =
    rw (rx_amr_wb_dtx_handler-next_state st frame_type n e h)
      (next_state-documented frame_type st.dtx_global_state (leb 50 n))
