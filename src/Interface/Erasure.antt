-- ===== src/Interface/Erasure.antt =====
-- Frames that are marked bad: what the core is asked for, and the homing test on the old bits.
use talk2text.Prelude.{
  ℕ, ◌≡◌, refl, Bool, true, false, if◌then◌else◌, leb, Option, some, List, ◌∷◌, map, length, ℤ,
  arith,
}
use talk2text.Mime.{
  RxState, FrameType, mime_unsorting, amr_wb_sorting_tables, clear, unsort_bytes, unsort_bits,
  set_frame_type,
}
use talk2text.Homing.{homing_frame_test}
use talk2text.Interface.{Core, DecoderState, clear_two_bits, select_mode, synthesize, d_if_decode}

-- Mode 15 has no bits: the buffer stays as it was.
mime_unsorting_none :
    (b : ℕ) (bs buffer : List ℕ) (st : RxState)
    → mime_unsorting (b ∷ bs) buffer 15 1 st
      ≡ some (record {
        sorted = buffer;
        frame_type = FrameType.rx_no_data;
        mode = st.prev_mode;
        st = record { prev_ft = st.prev_ft; prev_mode = st.prev_mode };
      })
unfolding mime_unsorting amr_wb_sorting_tables clear unsort_bytes unsort_bits set_frame_type
mime_unsorting_none b bs buffer st =
    let fits : leb 0 (length buffer) ≡ true = ground arith in rw fits refl

module _ (core : Core) (s : DecoderState core) where
  -- The core's answer to a frame with no data, in the mode of the frames before.
  abbrev pub erased : core.State × List ℤ
  erased = core.decode s.mode_old s.input_sample_buf s.st FrameType.rx_no_data

  -- The state that a bad frame leaves, by the outcome of the homing test.
  abbrev pub after_erasure : Bool → DecoderState core
  after_erasure homing = record {
    st = if homing then core.reset erased.0 else erased.0;
    input_sample_buf = s.input_sample_buf;
    mode_old = s.mode_old;
    reset_flag = homing;
    reset_flag_old = homing;
    rx_state = record { prev_ft = s.rx_state.prev_ft; prev_mode = s.rx_state.prev_mode };
  }

  -- The homing test of the call: none if the frame before was a homing frame, and otherwise one of
  -- the bits that the frames before left in the buffer.
  abbrev pub stale_test : Option Bool
  stale_test =
      if s.reset_flag_old then some false else homing_frame_test s.input_sample_buf s.mode_old

  -- On a bad frame with at least one byte of payload, where the homing test of the bits that the
  -- frames before left in the buffer answers `homing`, or no test is made and it is false because
  -- the frame before was a homing frame, `d_if_decode` returns the core's samples for a frame
  -- without data in the mode before, cut to 14 bits, leaves the buffer and the mode, and resets
  -- the core exactly if `homing` is true.
  pub d_if_decode-erasure :
      (header b : ℕ) (payload : List ℕ) (homing : Bool)
      → stale_test ≡ some homing
      → d_if_decode core s (header ∷ b ∷ payload) true
        ≡ some (after_erasure homing, map clear_two_bits erased.1)
  unfolding d_if_decode select_mode synthesize
  d_if_decode-erasure header b payload homing tested =
      rw (mime_unsorting_none b payload s.input_sample_buf s.rx_state, tested) refl
