-- ===== src/Lib.antt =====
-- A verification library of talk2text: the AMR-WB decoder, from a storage stream in internal/amrwb
-- down to the C code in internal/amrwb/native that the program compiles in, and the daemon in
-- internal/daemon: the capture of clips, uploads, and what becomes of transcripts.
--
-- The decoder. A recording is a sequence of storage frames: a header byte with the frame type, and
-- the packed bits. For each frame the decoder interface calls `mime_unsorting`, which unpacks the
-- bits into an array of one element each, in the decoder's order, and classifies the frame; then
-- the homing test, which compares the bits with a fixed frame that resets the decoder; then the
-- core decoder. There the frame type goes through the state machine of discontinuous transmission,
-- the parameters are read from the array by `Serial_parm`, and the codebook indices among them
-- become the excitation vector. All of it computes with saturating 16- and 32-bit operations.
--
-- The daemon. Requests start and stop a recording, one at a time, each for the session that asks.
-- Timers end a clip after a stop and let the microphone go, the audio library hands over blocks of
-- samples, and a manager opens and closes the stream as the state asks. All of them share the
-- state under one lock, so the daemon is a sequence of steps, in any order.
--
-- An upload is an HTTP request with a storage stream. The handler tests it against limits that it
-- computes from the longest clip, decodes it, and hands it on as a clip of its own. Few requests are
-- admitted at a time, and the transcription of an upload is only started when no other is going on:
-- two counters and a signal arrange that. A transcript is a file that an output command reads; when one is released,
-- those outside a window are pruned, and a map keeps the ones in use.
--
-- The files.
--   Prelude, Prelude/*: shared names, Boolean tests, lists, bitwise operations digit by digit,
--     the integers, and the widths int16 and int32.
--   FixedPoint, FixedPoint/*: pvamrwbdecoder_basic_op_cequivalent.h, pvamrwbdecoder_basic_op.h
--     and normalize_amr_wb.c. The functions have the names of the source.
--   Mime, Mime/*: mime_io.c. `nibble_moves` is the switch on four bits, `unsort_byte` the two
--     rounds of a byte, `unsort_bytes` and `unsort_bits` the two loops, `set_frame_type` the
--     classification, and `mime_unsorting` the whole call. Mime/Tables/* are the sorting tables.
--     Mime/Reference has the description of unpacking that the code is compared with.
--   Dtx, Dtx/*: rx_amr_wb_dtx_handler and dtx_dec_amr_wb_reset of dtx_decoder_amr_wb.c, with the
--     constants and the state of dtx.h.
--   Serial, Serial/Laws: get_amr_wb_bits.c.
--   Codebook, Codebook/*: dec_alg_codebook.c, dec_acelp_4p_in_64.c and dec_acelp_2p_in_64.c.
--     `tracks` is the loop over the tracks that the cases of the switch share, `add_pulse` a
--     round of `add_pulses`.
--   Homing, Homing/*: homing_amr_wb_dec.c.
--   Interface, Interface/*: wrapper.c. `select_mode` and `synthesize` are parts of
--     `D_IF_decode`.
--   Storage, Storage/*: internal/amrwb/decoder.go and native/cgo.go. `validate_from` and
--     `decode_from` are the two loops. Stream puts them on top of Interface.
--   Lag, Lag/*: lagconceal.c and noise_gen_amrwb.c. Lag/Sorting and Lag/Sorted are about
--     `insertion_sort`, Lag/Bounds about the whole call.
--   Median, Median/Laws: median5.c.
--   Gains, Gains/*: dec_gain2_amr_wb.c. `conceal_gains` is the branch of a lost subframe,
--     `find_gcode_inov` what is before it.
--   Pitch, Pitch/*: the lags in pvamrwbdecoder.c. `absolute_8` to `relative_6` are the branches
--     of the decoding, `window` is `T0_min`, `subframe` a round of the loop, and `frame_lags` a
--     call of `pvDecoder_AmrWb`: the loop, or the return after comfort noise. `lag_frames` is the
--     calls and full resets of wrapper.c.
--   Daemon, Daemon/*: internal/daemon/daemon.go, internal/daemon/session/session.go, and, in
--     Daemon/Manager, internal/daemon/stream.go. A function `f_with` is `f` on the active
--     session. Daemon/System is the step of each event; Daemon/Invariant is about the state when
--     the lock is free; Daemon/Ownership is the abstract recorder; Daemon/Progress is what
--     follows a request, and Daemon/Following what a round of the manager does.
--   Mathematics, Mathematics/*: pvamrwb_math_op.c. `div_pass` is a round of the loop of
--     `div_16by16`, `take_off` one of its comparisons; `shr_rounded` is the end of `power_of_2`,
--     `accumulate` the loop of `Dot_product12`.
--   Upload, Upload/*: internal/daemon/http.go, and NewRecordedSession of session.go. `admit` and
--     `handle_admitted` are the parts of `handleHTTP` from the environment on, and behind the
--     admission; `settle` is its deferred function, `accept_audio` what follows the decoding.
--   Slots, Slots/*: the counters of http.go and internal/daemon/transcribe.go, and the signal.
--     An event is one atomic operation of `handleHTTP`, `transcribeHTTP`,
--     `waitForLocalTranscriptions` or `processLongSession`.
--   Retention, Retention/*: internal/daemon/retention.go, the calls of it in transcribe.go, and
--     `visited`, ProcessTranscriptFiles of internal/runtimedir/transcripts.go.
--   Wav, Wav/Fields: internal/whisper/wav.go.
--   Examples, Examples/*: runs on concrete inputs.
--
-- Conventions. An int16 or int32 that can be negative is an integer in two's complement, and a
-- signed operation that overflows wraps, as on the machines that the program runs on. A value that
-- is never negative (an index, a position, a bit, a byte) is a natural number, with its
-- wrap-around written out. An array that is read or written is a list, and an access outside it,
-- which C leaves undefined, is `none`. A pointer that only moves forward is the list of what is
-- left. The unpacked bits have no width here: the code stores 0 and 127 and compares with 127.
--
-- The core decoder, pvDecoder_AmrWb, is a parameter, the record `Core`: a function on a state of
-- its own that writes 320 samples and is taken to stay within its own memory. The memory that
-- `malloc` returns is a parameter too. `D_IF_decode` gets a pointer without a length, so its input
-- is the stream from the frame on. An error of the Go code is a value with the numbers of its
-- text. A panic of the daemon is `none`. Its timers and the manager may come at any time, also
-- late or for an old clip, which includes what the runtime can do; texts that are only compared
-- are numbers, and durations are nanoseconds with no bound. Goroutines have no names: the state of
-- the slots has their number at each point of the code, and the counters do not wrap. A transcript
-- file is its clip number. The directory has none at the start, since the daemon cleans it, and each
-- clip's transcript begins once, since numbers are given out once. A listed file may be removed at
-- any later time, or never; a transcript may be discarded by its output command at any time, also
-- while it is in use; and an error may end the reading of the directory after any of its files. A
-- frame meets the handler of discontinuous transmission in any state, where the lags are concerned. What the handler of an upload reads from the request is a record.
--
-- Bounds and fuel. Loops are recursion on a count or a list. The loop of `dhf_test` over the words
-- is on fuel, the number of bits: each round takes 15 of them, so the fuel is not used up, which
-- the lemma `full_words-bounds` shows. The loops over a storage stream are on fuel, its length:
-- each frame takes at least one byte. The lags of 8 and 9 bits are checked for each index.
--
-- Not modelled. In the core decoder everything but the pitch lags, the gains of lost subframes, the
-- state machine of discontinuous transmission, the parameter reader and the codebook: the spectral
-- envelope, the gains of received subframes, the synthesis and its filters, and the noise of
-- dtx_dec_amr_wb. Around it: sockets, the parsing of HTTP, notifications, the transcription engine
-- and the audio library. Inline assembly for single machines is left out: the C versions of the same
-- operations are modelled. Memory allocation, and the null-pointer check of dtx_dec_amr_wb_reset,
-- have no counterpart.
pub mod Prelude
pub mod FixedPoint
pub mod Mime
pub mod Dtx
pub mod Serial
pub mod Codebook
pub mod Homing
pub mod Examples
pub mod Interface
pub mod Storage
pub mod Stream
pub mod Daemon
pub mod Lag
pub mod Pitch
pub mod Median
pub mod Slots
pub mod Retention
pub mod Gains
pub mod Mathematics
pub mod Upload
pub mod Wav
