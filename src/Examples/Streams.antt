-- ===== src/Examples/Streams.antt =====
-- Runs of the decoder over storage frames, with a core that puts out silence.
use talk2text.Prelude.{
  ℕ, ◌+◌, ◌*◌, ◌≡◌, refl, Bool, true, false, some, List, [], ◌∷◌, ◌++◌, length, replicate, map, pos,
  to_int16, ◌↔◌, ◌≤◌, arith,
}
use talk2text.Homing.{homing_frame_test, homing_frame_test_first}
use talk2text.Homing.Modes.{homing_frame_test-returns}
use talk2text.Interface.{Core, DecoderState, d_if_init, d_if_decode, clear_two_bits}
use talk2text.Interface.Frames.{Decodes, d_if_decode-Decodes, d_if_init-IsDecoderState}
use talk2text.Interface.Erasure.{erased, after_erasure, d_if_decode-erasure}
use talk2text.Storage.{decode, ok, err, fault, magic, validate_frames}
use talk2text.Homing.Tables.{dfh_m7k}
use talk2text.FixedPoint.{shl_int16}
use talk2text.Homing.{dhf, dhf_test, read_params, read_words, full_words, compare_params, last_test}
use talk2text.Serial.{serial_parm, serial_pairs, serial_odd}
use talk2text.Storage.{frame_size}
use talk2text.Storage.Frames.{IsStorageFrame, IsStream, concat, join, validate_frames-IsStream}
use talk2text.Stream.{native_of, decode-whole_stream, decode-past_end}

-- The state counts the frames.
abbrev pub silent : Core
silent = record {
  State = ℕ;
  init = 0;
  reset = λ st. 0;
  decode = λ mode prms st frame_type. (st + 1, replicate 320 (pos 0));
  samples = λ mode prms st frame_type. refl;
}

abbrev pub memory : List ℕ
memory = replicate 477 7

-- A comfort noise frame.
abbrev noise : List ℕ
noise = 0x4c ∷ 1 ∷ 2 ∷ 3 ∷ 4 ∷ 5 ∷ []

noise-whole : IsStorageFrame noise
unfolding frame_size
noise-whole = refl

-- The header of a frame that was lost.
lost-whole : IsStorageFrame (0x7c ∷ [])
unfolding frame_size
lost-whole = refl

d_if_decode-Decodes_example :
    Decodes silent (d_if_decode silent (d_if_init silent memory) noise false)
d_if_decode-Decodes_example =
    d_if_decode-Decodes silent (d_if_init silent memory) 0x4c (1 ∷ 2 ∷ 3 ∷ 4 ∷ 5 ∷ []) false
      (d_if_init-IsDecoderState silent memory refl) (ground arith) (omega arith)

-- A bad frame right after the start, and one after a frame whose bits stay in the buffer.
abbrev later : DecoderState silent
later = record {
  st = 5;
  input_sample_buf = replicate 477 0;
  mode_old = 0;
  reset_flag = false;
  reset_flag_old = false;
  rx_state = record { prev_ft = 0; prev_mode = 0 };
}

stale : homing_frame_test (replicate 477 0) 0 ≡ some false
unfolding homing_frame_test dhf_test read_params read_words full_words compare_params last_test
    serial_parm serial_pairs serial_odd dhf dfh_m7k shl_int16 to_int16
stale = refl

d_if_decode-erasure_example :
    d_if_decode silent later (0x04 ∷ 9 ∷ []) true
    ≡ some (after_erasure silent later false, map clear_two_bits (erased silent later).1)
d_if_decode-erasure_example = d_if_decode-erasure silent later 0x04 9 [] false stale

validate_frames-IsStream_example :
    (validate_frames (noise ++ noise) 5 ≡ ok 2) ↔ ((2 ≤ 5) × IsStream 2 (noise ++ noise))
validate_frames-IsStream_example = validate_frames-IsStream (noise ++ noise) 5 2

decode-whole_stream_example :
    (out : List ℕ) × (decode (native_of silent memory) (magic ++ concat (noise ∷ noise ∷ [])) 5
      ≡ ok out)
    × (length out ≡ 640 * 2)
decode-whole_stream_example =
    decode-whole_stream silent memory refl (noise ∷ noise ∷ []) 5 (noise-whole, (noise-whole, tt))
      (ground arith) (omega arith) (omega arith) (omega arith)

decode-past_end_example :
    decode (native_of silent memory) (magic ++ join (noise ∷ []) (0x7c ∷ [])) 5 ≡ err fault
decode-past_end_example =
    decode-past_end silent memory refl (noise ∷ []) 0x7c 5 (noise-whole, tt) lost-whole
      (ground arith) (omega arith) (omega arith)

homing_frame_test-returns_example :
    ((b : Bool) × (homing_frame_test memory 8 ≡ some b))
    × ((b : Bool) × (homing_frame_test_first memory 8 ≡ some b))
homing_frame_test-returns_example = homing_frame_test-returns memory 8 (omega arith) (omega arith)
