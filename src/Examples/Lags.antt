-- ===== src/Examples/Lags.antt =====
-- Runs of the pitch lags.
use talk2text.Prelude.{ℕ, refl, true, false, List, [], ◌∷◌, replicate, ℤ, pos, negsuc, arith}
use talk2text.Mime.{FrameType}
use talk2text.Lag.Sorted.{Sorts, insertion_sort-Sorts}
use talk2text.Lag.Bounds.{AreLags}
use talk2text.Median.{median5}
use talk2text.Median.Laws.{IsMedian, median5-IsMedian}
use talk2text.Dtx.{speech, DtxDecState, dtx_dec_amr_wb_reset}
use talk2text.Pitch.{LagState, lag_reset}
use talk2text.Pitch.Sequences.{
  LagFrame, LagStep, resets, decodes, lag_frames, AllUsable, lag_frames-AllUsable,
}

insertion_sort-Sorts_example : Sorts 3 (pos 70 ∷ negsuc 3 ∷ pos 50 ∷ pos 1 ∷ [])
insertion_sort-Sorts_example =
    insertion_sort-Sorts (pos 70 ∷ negsuc 3 ∷ pos 50 ∷ pos 1 ∷ []) 3 (omega arith)

abbrev history : List ℤ
history = pos 60 ∷ pos 120 ∷ pos 61 ∷ pos 200 ∷ pos 90 ∷ []

abbrev gains : List ℤ
gains = pos 9000 ∷ pos 100 ∷ pos 9000 ∷ pos 300 ∷ pos 200 ∷ []

history-AreLags : AreLags (pos 60) (pos 200) history
history-AreLags = record { five = refl; each = ground arith }

abbrev initial : LagState
initial = lag_reset true (record { lag_hist = []; old_t0 = pos 0; seed3 = pos 0 })

-- Four subframes, each with the same bits and gains.
abbrev inputs : List (List ℕ × List ℤ)
inputs = replicate 4 (127 ∷ 0 ∷ 127 ∷ 127 ∷ 0 ∷ 0 ∷ 127 ∷ 0 ∷ 127 ∷ [], gains)

abbrev dtx_state : DtxDecState
dtx_state =
    dtx_dec_amr_wb_reset
      (record {
        since_last_sid = pos 0;
        true_sid_period_inv = pos 0;
        log_en = pos 0;
        old_log_en = pos 0;
        level = pos 0;
        isf = [];
        isf_old = [];
        cng_seed = pos 0;
        isf_hist = [];
        log_en_hist = [];
        hist_ptr = pos 0;
        dtx_hangover_count = pos 0;
        dec_ana_elapsed_count = pos 0;
        sid_frame = false;
        valid_data = false;
        dtx_hangover_added = false;
        dtx_global_state = speech;
        data_updated = false;
        dither_seed = pos 0;
        cn_dith = pos 0;
      })
      (replicate 16 (pos 0))

abbrev frame : FrameType → LagFrame
frame frame_type = record {
  nb_bits = 253;
  frame_type = frame_type;
  dtx_state = dtx_state;
  t0_min = pos 0;
  inputs = inputs;
}

-- Speech, a lost frame, comfort noise, a reset, and speech again.
abbrev steps : List LagStep
steps =
    decodes (frame FrameType.rx_speech_good)
    ∷ decodes (frame FrameType.rx_speech_lost)
    ∷ decodes (frame FrameType.rx_sid_update)
    ∷ resets
    ∷ decodes (frame FrameType.rx_speech_good)
    ∷ []

lag_frames-AllUsable_example : AllUsable (lag_frames steps initial)
lag_frames-AllUsable_example =
    lag_frames-AllUsable steps (record { lag_hist = []; old_t0 = pos 0; seed3 = pos 0 })
      (ground arith)

median5-IsMedian_example :
    IsMedian
      (median5 (pos 9) (negsuc 4) (pos 7) (pos 7) (pos 1))
      (pos 9 ∷ negsuc 4 ∷ pos 7 ∷ pos 7 ∷ pos 1 ∷ [])
median5-IsMedian_example = median5-IsMedian (pos 9) (negsuc 4) (pos 7) (pos 7) (pos 1)
