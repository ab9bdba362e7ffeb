-- ===== src/Dtx.antt =====
-- dtx_decoder_amr_wb.c: the receiver's side of discontinuous transmission. `rx_amr_wb_dtx_handler`
-- decides from each frame type whether speech, comfort noise or muted comfort noise is synthesised.
pub mod Handler
pub mod Counters
use talk2text.Prelude.{
  ℕ, zero, suc, ◌+◌, Bool, true, false, ◌&&◌, ◌||◌, not, if◌then◌else◌, ◌==◌, ℤ, pos, negsuc, ltb_ℤ,
  eqb_ℤ, to_int16, ◌-ℤ◌, List, [], ◌∷◌, ◌++◌, replicate,
}
use talk2text.FixedPoint.{add_int16}
use talk2text.Mime.{FrameType}

-- The constants of dtx.h and pvamrwbdecoder_cnst.h.
abbrev pub dtx_max_empty_thresh : ℤ
dtx_max_empty_thresh = pos 50

abbrev pub dtx_hist_size : ℕ
dtx_hist_size = 8

abbrev pub dtx_elapsed_frames_thresh : ℤ
dtx_elapsed_frames_thresh = pos 30

abbrev pub dtx_hang_const : ℤ
dtx_hang_const = pos 7

abbrev pub random_initseed : ℤ
random_initseed = pos 21845

-- SPEECH, DTX and DTX_MUTE.
pub data SynthesisState : Type 0 where
  speech dtx dtx_mute : SynthesisState

unfoldable pub state_code : SynthesisState → ℕ
state_code speech = 0
state_code dtx = 1
state_code dtx_mute = 2

unfoldable pub state_is : SynthesisState → SynthesisState → Bool
unfolding state_code
state_is a b = state_code a == state_code b

unfoldable pub frame_code : FrameType → ℕ
frame_code FrameType.rx_speech_good = 0
frame_code FrameType.rx_speech_probably_degraded = 1
frame_code FrameType.rx_speech_lost = 2
frame_code FrameType.rx_speech_bad = 3
frame_code FrameType.rx_sid_first = 4
frame_code FrameType.rx_sid_update = 5
frame_code FrameType.rx_sid_bad = 6
frame_code FrameType.rx_no_data = 7

-- dtx_decState; the fields that hold 0 or 1 are Booleans.
pub record DtxDecState : Type 0 where
  pub since_last_sid : ℤ
  pub true_sid_period_inv : ℤ
  pub log_en : ℤ
  pub old_log_en : ℤ
  pub level : ℤ
  pub isf : List ℤ
  pub isf_old : List ℤ
  pub cng_seed : ℤ
  pub isf_hist : List ℤ
  pub log_en_hist : List ℤ
  pub hist_ptr : ℤ
  pub dtx_hangover_count : ℤ
  pub dec_ana_elapsed_count : ℤ
  pub sid_frame : Bool
  pub valid_data : Bool
  pub dtx_hangover_added : Bool
  pub dtx_global_state : SynthesisState
  pub data_updated : Bool
  pub dither_seed : ℤ
  pub cn_dith : ℤ

-- `n` copies of a list, one behind the other.
abbrev pub copies : ℕ → List ℤ → List ℤ
copies zero xs = []
copies (suc n) xs = xs ++ copies n xs

-- The call with a state; a null pointer returns -1 and does nothing. `level` keeps its value.
unfoldable pub dtx_dec_amr_wb_reset : DtxDecState → List ℤ → DtxDecState
dtx_dec_amr_wb_reset st isf_init = record {
  since_last_sid = pos 0;
  true_sid_period_inv = pos 8192;
  log_en = pos 3500;
  old_log_en = pos 3500;
  level = st.level;
  isf = isf_init;
  isf_old = isf_init;
  cng_seed = random_initseed;
  isf_hist = copies dtx_hist_size isf_init;
  log_en_hist = replicate dtx_hist_size (pos 3500);
  hist_ptr = pos 0;
  dtx_hangover_count = dtx_hang_const;
  dec_ana_elapsed_count = pos 32767;
  sid_frame = false;
  valid_data = false;
  dtx_hangover_added = false;
  dtx_global_state = speech;
  data_updated = false;
  dither_seed = random_initseed;
  cn_dith = pos 0;
}

unfoldable pub frame_is : FrameType → FrameType → Bool
unfolding frame_code
frame_is a b = frame_code a == frame_code b

-- SID frames, and with them the frames for which the encoder is in DTX.
unfoldable pub is_sid : FrameType → Bool
unfolding frame_is
is_sid frame_type =
    frame_is frame_type FrameType.rx_sid_first
    || frame_is frame_type FrameType.rx_sid_update
    || frame_is frame_type FrameType.rx_sid_bad

unfoldable pub rx_amr_wb_dtx_handler : DtxDecState → FrameType → DtxDecState × SynthesisState
unfolding frame_is state_is is_sid
rx_amr_wb_dtx_handler st frame_type =
    let in_dtx =
      is_sid frame_type
      || (state_is st.dtx_global_state dtx || state_is st.dtx_global_state dtx_mute)
        && (frame_is frame_type FrameType.rx_no_data
            || frame_is frame_type FrameType.rx_speech_bad
            || frame_is frame_type FrameType.rx_speech_lost) in
    let stay_mute =
      state_is st.dtx_global_state dtx_mute
      && (frame_is frame_type FrameType.rx_sid_bad
          || frame_is frame_type FrameType.rx_sid_first
          || frame_is frame_type FrameType.rx_speech_lost
          || frame_is frame_type FrameType.rx_no_data) in
    let since = if in_dtx then add_int16 st.since_last_sid (pos 1) else pos 0 in
    let new_state =
      if in_dtx
      then if ltb_ℤ dtx_max_empty_thresh since
        then dtx_mute
        else if stay_mute
        then dtx_mute
        else dtx
      else speech in
    let reset_elapsed = not st.data_updated && frame_is frame_type FrameType.rx_sid_update in
    let elapsed = add_int16 (if reset_elapsed then pos 0 else st.dec_ana_elapsed_count) (pos 1) in
    let enc_in_dtx = is_sid frame_type || frame_is frame_type FrameType.rx_no_data in
    let long_ago = ltb_ℤ dtx_elapsed_frames_thresh elapsed in
    let over = eqb_ℤ st.dtx_hangover_count (pos 0) in
    let added = enc_in_dtx && long_ago in
    let in_cn = not (state_is new_state speech) in
    (
      record st {
        since_last_sid = since;
        dtx_hangover_count =
            if not enc_in_dtx
            then dtx_hang_const
            else if long_ago
            then pos 0
            else if over
            then st.dtx_hangover_count
            else to_int16 (st.dtx_hangover_count -ℤ pos 1);
        dec_ana_elapsed_count =
            if not enc_in_dtx
            then elapsed
            else if long_ago
            then pos 0
            else if over
            then pos 0
            else elapsed;
        sid_frame = if in_cn then is_sid frame_type else st.sid_frame;
        valid_data = if in_cn then frame_is frame_type FrameType.rx_sid_update else st.valid_data;
        dtx_hangover_added =
            if in_cn && frame_is frame_type FrameType.rx_sid_bad then false else added;
      },
      new_state,
    )
