-- ===== src/Interface.antt =====
-- wrapper.c: the decoder behind `D_IF_init` and `D_IF_decode`. What pvamrwbdecoder.c does for a frame,
-- `pvDecoder_AmrWb` and `pvDecoder_AmrWb_Reset`, is the parameter `core`. The input is what is left
-- of the stream from the frame on, since the code gets a pointer and no length; `none` is a read
-- past its end or an access outside a buffer.
pub mod Frames
pub mod Erasure
use talk2text.Prelude.{
  ℕ, ◌-◌, ◌/◌, ◌^◌, bit_and, ◌≡◌, Bool, true, false, ◌&&◌, ◌||◌, not, if◌then◌else◌, ◌==◌, Option,
  none, some, List, [], ◌∷◌, map, get_elem?, length, replicate, drop, ℤ, pos, pattern16, signed16,
}
use talk2text.Mime.{RxState, FrameType, Unsorted, ◌>>=◌, mime_unsorting}
use talk2text.Dtx.{frame_is}
use talk2text.Homing.{homing_frame_test, homing_frame_test_first}

-- AMR_WB_PCM_FRAME and EHF_MASK.
abbrev pub amr_wb_pcm_frame : ℕ
amr_wb_pcm_frame = 320

abbrev pub ehf_mask : ℤ
ehf_mask = pos 8

-- The core decoder. It writes one frame of samples.
pub record Core : Type 1 where
  pub State : Type 0
  pub init : State
  pub reset : State → State
  pub decode : ℕ → List ℕ → State → FrameType → State × List ℤ
  pub samples :
      (mode : ℕ) (prms : List ℕ) (st : State) (frame_type : FrameType)
      → length (decode mode prms st frame_type).1 ≡ amr_wb_pcm_frame

-- `struct state`; the memory for the core's state, and `status`, which is never read, are left out,
-- and `mode` and `frame_type`, which each call sets before it reads them, are local to the call.
pub record DecoderState (core : Core) : Type 0 where
  pub st : core.State
  pub input_sample_buf : List ℕ
  pub mode_old : ℕ
  pub reset_flag : Bool
  pub reset_flag_old : Bool
  pub rx_state : RxState

-- `RX_SPEECH_GOOD` is the number 0. The buffer is as `malloc` left it.
unfoldable pub d_if_init : (core : Core) → List ℕ → DecoderState core
d_if_init core memory = record {
  st = core.init;
  input_sample_buf = memory;
  mode_old = 0;
  reset_flag = false;
  reset_flag_old = true;
  rx_state = record { prev_ft = 0; prev_mode = 0 };
}

-- `out[i] &= 0xfffC` on an int16.
abbrev pub clear_two_bits : ℤ → ℤ
clear_two_bits x = signed16 (bit_and (pattern16 x) 0xfffc)

-- A frame that carries nothing, by its type.
unfoldable pub is_erased : FrameType → Bool
unfolding frame_is
is_erased frame_type =
    frame_is frame_type FrameType.rx_no_data || frame_is frame_type FrameType.rx_speech_lost

module _ (core : Core) where
  -- The mode, the mode kept for the next frame, and the flag after the test on the first subframe.
  unfoldable pub select_mode : DecoderState core → Unsorted → Option (ℕ × ℕ × Bool)
  unfolding is_erased
  select_mode s u = if is_erased u.frame_type then some (s.mode_old, s.mode_old, false) else do
    flag ← if s.reset_flag_old then homing_frame_test_first u.sorted u.mode else some s.reset_flag
    some (u.mode, u.mode, flag)

  -- The samples: the encoder's homing frame, or those of the core.
  unfoldable pub synthesize : DecoderState core → Unsorted → ℕ → Bool → core.State × List ℤ
  synthesize s u mode flag =
      if flag && s.reset_flag_old
      then (s.st, replicate amr_wb_pcm_frame ehf_mask)
      else core.decode mode u.sorted s.st u.frame_type

  unfoldable pub d_if_decode :
      DecoderState core → List ℕ → Bool → Option (DecoderState core × List ℤ)
  unfolding select_mode synthesize
  d_if_decode s input bfi = do
    header ← get_elem? input 0
    let mode = if bfi then 15 else bit_and (header / 2 ^ 3) 0x0f
    u ← mime_unsorting (drop 1 input) s.input_sample_buf mode 1 s.rx_state
    (mode', mode_old, flag) ← select_mode s u
    let synthesized = synthesize s u mode' flag
    reset_flag ← if s.reset_flag_old then some flag else homing_frame_test u.sorted mode'
    some (
      record {
        st = if reset_flag then core.reset synthesized.0 else synthesized.0;
        input_sample_buf = u.sorted;
        mode_old = mode_old;
        reset_flag = reset_flag;
        reset_flag_old = reset_flag;
        rx_state = u.st;
      },
      map clear_two_bits synthesized.1,
    )
