-- ===== src/Examples/Frames.antt =====
-- Runs on whole frames: unpacking and the frame handler.
use talk2text.Prelude.{
  ℕ, ◌≡◌, refl, true, false, not, some, List, [], ◌∷◌, replicate, pos, get_elem?, arith,
}
use talk2text.Mime.{
  clear, unsort_bytes, unsort_byte, moves, nibble_moves, move, write, unsort_bits, set_frame_type,
  RxState, Unsorted, FrameType, mime_unsorting, amr_wb_sorting_tables,
}
use talk2text.Mime.Reference.{bits_of, byte_bits}
use talk2text.Mime.Frame.{IsFrame}
use talk2text.Mime.Tables.Low.{sort_sid}
use talk2text.Mime.Laws.{IsUnpacked, mime_unsorting-IsUnpacked}
use talk2text.Mime.Types.{mime_unsorting_injective}
use talk2text.Dtx.{DtxDecState, dtx, rx_amr_wb_dtx_handler}
use talk2text.Dtx.Handler.{
  next_state, rx_amr_wb_dtx_handler-next_state, documented, departs,
  rx_amr_wb_dtx_handler-documented,
}
use talk2text.Dtx.Counters.{IsDtxDecState, rx_amr_wb_dtx_handler-IsDtxDecState}

-- A SID frame of five bytes.
abbrev sid_bytes : List ℕ
sid_bytes = 0x8f ∷ 0x3c ∷ 0 ∷ 0xff ∷ 0x53 ∷ []

abbrev buffer : List ℕ
buffer = replicate 35 9

abbrev rx : RxState
rx = record { prev_ft = 0; prev_mode = 2 }

sid_table : get_elem? amr_wb_sorting_tables 9 ≡ some sort_sid
unfolding amr_wb_sorting_tables
sid_table = refl

no_table : get_elem? amr_wb_sorting_tables 15 ≡ some []
unfolding amr_wb_sorting_tables
no_table = refl

-- The same frame with other bits behind the 35 of the mode.
abbrev sid_bytes' : List ℕ
sid_bytes' = 0x8f ∷ 0x3c ∷ 0 ∷ 0xff ∷ 0x40 ∷ []

abbrev sid_sorted : List ℕ
sid_sorted =
    127 ∷ 0 ∷ 0 ∷ 0 ∷ 127 ∷ 127 ∷ 127 ∷ 127 ∷ 0 ∷ 0 ∷ 127 ∷ 127 ∷ 127 ∷ 127 ∷ 0 ∷ 0 ∷ 0 ∷ 0 ∷ 0 ∷ 0
    ∷ 0 ∷ 0 ∷ 0 ∷ 0 ∷ 127 ∷ 127 ∷ 127 ∷ 127 ∷ 127 ∷ 127 ∷ 127 ∷ 127 ∷ 0 ∷ 127 ∷ 0 ∷ []

abbrev sid_unsorted : FrameType → Unsorted
sid_unsorted frame_type = record {
  sorted = sid_sorted;
  frame_type = frame_type;
  mode = 2;
  st = record { prev_ft = 0; prev_mode = 2 };
}

abbrev update : Unsorted
update = sid_unsorted FrameType.rx_sid_update

sid_run : mime_unsorting sid_bytes buffer 9 1 rx ≡ some (sid_unsorted FrameType.rx_sid_update)
unfolding mime_unsorting amr_wb_sorting_tables clear unsort_bytes unsort_byte moves nibble_moves
    move sort_sid write unsort_bits set_frame_type
sid_run = refl

sid_run' : mime_unsorting sid_bytes' buffer 9 1 rx ≡ some (sid_unsorted FrameType.rx_sid_first)
unfolding mime_unsorting amr_wb_sorting_tables clear unsort_bytes unsort_byte moves nibble_moves
    move sort_sid write unsort_bits set_frame_type
sid_run' = refl

bit_35 : get_elem? (bits_of sid_bytes) 35 ≡ some true
unfolding bits_of byte_bits
bit_35 = refl

bit_4 : get_elem? (bits_of sid_bytes) 4 ≡ some true
unfolding bits_of byte_bits
bit_4 = refl

bit_4' : get_elem? (bits_of sid_bytes') 4 ≡ some true
unfolding bits_of byte_bits
bit_4' = refl

sid_IsFrame : IsFrame sid_bytes
sid_IsFrame = (omega arith, (omega arith, (omega arith, (omega arith, (omega arith, tt)))))

sid_IsFrame' : IsFrame sid_bytes'
sid_IsFrame' = (omega arith, (omega arith, (omega arith, (omega arith, (omega arith, tt)))))

mime_unsorting_injective_example : true ≡ true
mime_unsorting_injective_example =
    mime_unsorting_injective 9 1 1 35 4 sort_sid sid_bytes sid_bytes' buffer buffer rx rx
      (sid_unsorted FrameType.rx_sid_update) (sid_unsorted FrameType.rx_sid_first) true true
      sid_table refl sid_IsFrame sid_IsFrame' (omega arith) (omega arith) (omega arith)
      (omega arith) sid_run sid_run' refl (omega arith) bit_4 bit_4'

mime_unsorting-IsUnpacked_example :
    (u : Unsorted) × (mime_unsorting sid_bytes buffer 9 1 rx ≡ some u)
    × IsUnpacked sort_sid 35 sid_bytes buffer u
mime_unsorting-IsUnpacked_example =
    mime_unsorting-IsUnpacked sid_bytes buffer 9 1 rx sort_sid 35 sid_table refl sid_IsFrame
      (omega arith) (omega arith)

-- A decoder state in comfort noise, fifty frames after the last parameters.
abbrev noise : DtxDecState
noise = record {
  since_last_sid = pos 50;
  true_sid_period_inv = pos 8192;
  log_en = pos 3500;
  old_log_en = pos 3500;
  level = pos 0;
  isf = [];
  isf_old = [];
  cng_seed = pos 21845;
  isf_hist = [];
  log_en_hist = [];
  hist_ptr = pos 0;
  dtx_hangover_count = pos 7;
  dec_ana_elapsed_count = pos 12;
  sid_frame = true;
  valid_data = true;
  dtx_hangover_added = false;
  dtx_global_state = dtx;
  data_updated = false;
  dither_seed = pos 21845;
  cn_dith = pos 0;
}

noise-IsDtxDecState : IsDtxDecState noise
noise-IsDtxDecState = record {
  since = (refl, omega arith);
  elapsed = (refl, omega arith);
  hangover = (refl, omega arith);
  valid = λ h. h;
}

rx_amr_wb_dtx_handler-next_state_example :
    (rx_amr_wb_dtx_handler noise FrameType.rx_no_data).1 ≡ next_state FrameType.rx_no_data dtx true
rx_amr_wb_dtx_handler-next_state_example =
    rx_amr_wb_dtx_handler-next_state noise FrameType.rx_no_data 50 refl (omega arith)

rx_amr_wb_dtx_handler-documented_example :
    documented FrameType.rx_sid_update dtx (rx_amr_wb_dtx_handler noise FrameType.rx_sid_update).1
    ≡ not (departs FrameType.rx_sid_update dtx true)
rx_amr_wb_dtx_handler-documented_example =
    rx_amr_wb_dtx_handler-documented noise FrameType.rx_sid_update 50 refl (omega arith)

rx_amr_wb_dtx_handler-IsDtxDecState_example :
    IsDtxDecState (rx_amr_wb_dtx_handler noise FrameType.rx_sid_bad).0
rx_amr_wb_dtx_handler-IsDtxDecState_example =
    rx_amr_wb_dtx_handler-IsDtxDecState noise FrameType.rx_sid_bad noise-IsDtxDecState
