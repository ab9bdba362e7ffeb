-- ===== src/Examples/Services.antt =====
-- Runs of the transcription slots, the transcripts, the header of samples and the uploads.
use talk2text.Prelude.{
  ℕ, ◌^◌, ◌≡◌, inl, refl, true, false, none, some, List, [], ◌∷◌, ◌++◌, length, replicate, pos,
  arith, ◌≢◌, sym, ap, some-injective,
}
use talk2text.Slots.{
  Slots, empty, Event, request, accept, long, local_start, compare_and_swap, step, run,
}
use talk2text.Slots.Invariant.{IsSlots, run-IsSlots}
use talk2text.Slots.Progress.{Drains, waiting-Drains}
use talk2text.Retention.{
  Transcripts, no_transcripts, Action, begins, writes, releases, discards, perform, act,
  release_transcript, without, protect_transcript, get_transcript_names_to_prune, old_names,
  visited,
}
use talk2text.Retention.Invariant.{IsClip}
use talk2text.Retention.Runs.{perform-IsTranscripts, Lists, release_transcript-Lists}
use talk2text.Wav.{write_wav_header}
use talk2text.Wav.Fields.{Reads, write_wav_header-Reads}
use talk2text.Storage.{Native, magic, frame_size}
use talk2text.Storage.Bound.{Fills}
use talk2text.Storage.Frames.{IsStorageFrame, concat}
use talk2text.Stream.{native_of}
use talk2text.Upload.{Request, Server, accepted, handle_http}
use talk2text.Upload.Accepts.{IsUpload, clip_of, handle_http-accepts}
use talk2text.Upload.Settled.{IsSettled, handle_http-IsSettled}
use talk2text.Examples.Streams.{silent, memory}

-- An upload has to wait for a clip of the microphone.
abbrev meanwhile : List Event
meanwhile = request ∷ accept ∷ long ∷ local_start ∷ compare_and_swap ∷ []

abbrev queued : Slots
queued = record {
  http_admitted = 1;
  ongoing = 1;
  idle = false;
  cancelled = false;
  rejecting = 0;
  handling = 0;
  accepted = 0;
  checking = 0;
  waiting = 1;
  leaving = 0;
  reserved = 0;
  http_running = 0;
  local_running = 1;
  signalling = 0;
}

meanwhile-queued : run meanwhile empty ≡ some queued
unfolding run step empty
meanwhile-queued = refl

run-IsSlots_example : IsSlots queued
run-IsSlots_example = run-IsSlots meanwhile queued meanwhile-queued

waiting-Drains_example : Drains queued
waiting-Drains_example = waiting-Drains meanwhile queued meanwhile-queued

-- With a window of one clip, clip 3 is done while clip 2 is in use, whose output command has
-- removed its file; clip 1 is listed, since only its file was inspected before an error.
abbrev busy_day : List Action
busy_day =
    begins 1
    ∷ begins 2
    ∷ writes 1
    ∷ writes 2
    ∷ releases 1 none
    ∷ discards 2
    ∷ begins 3
    ∷ writes 3
    ∷ releases 3 (some (1 ∷ []))
    ∷ []

abbrev evening : Transcripts
evening = record {
  high_watermark = 3;
  protected = 2 ∷ [];
  files = 3 ∷ 1 ∷ [];
  listed = 1 ∷ [];
  begun = 3 ∷ 2 ∷ 1 ∷ [];
  protecting = [];
  in_use = 2 ∷ [];
  discarded = 2 ∷ [];
}

busy_day-evening : perform 1 busy_day no_transcripts ≡ some evening
unfolding perform act no_transcripts protect_transcript release_transcript
    get_transcript_names_to_prune old_names visited without
busy_day-evening = refl

perform-IsTranscripts_example : IsClip 1 evening 2
perform-IsTranscripts_example = perform-IsTranscripts 1 busy_day evening busy_day-evening 2

one-nonzero : ◌≢◌ {A = ℕ} 1 0
one-nonzero = λ e. absurd (omega (arith, e))

release_transcript-Lists_example :
    Lists 1 3 (some (3 ∷ [])) evening (release_transcript 1 3 (some (3 ∷ [])) evening) 1
release_transcript-Lists_example =
    release_transcript-Lists 1 3 1 (some (3 ∷ [])) evening one-nonzero (omega arith)

-- Half a second of samples.
write_wav_header-Reads_example :
    (header : List ℕ) × (write_wav_header 16000 ≡ some header) × Reads 16000 header
write_wav_header-Reads_example = write_wav_header-Reads 16000 (omega arith)

-- A comfort noise frame, sent to a daemon with one request, and with the limit of a second.
abbrev noise : List ℕ
noise = 0x4c ∷ 1 ∷ 2 ∷ 3 ∷ 4 ∷ 5 ∷ []

noise-whole : IsStorageFrame noise
unfolding frame_size
noise-whole = refl

abbrev upload : Request
upload = record {
  is_transcribe = true;
  is_post = true;
  environment = some 7;
  is_amr_wb = true;
  content_length = none;
  body = magic ++ concat (noise ∷ noise ∷ []);
  arrives = true;
}

abbrev server : Server
server = record { http_admitted = 1; next_clip = 5 }

upload-IsUpload : IsUpload 7 (magic ++ concat (noise ∷ noise ∷ [])) upload
upload-IsUpload = record {
  path = refl;
  method = refl;
  from = refl;
  kind = refl;
  honest = inl refl;
  same = refl;
  whole = refl;
}

handle_http-accepts_example :
    handle_http (native_of silent memory) (10 ^ 9) upload false false server
    ≡ (accepted (clip_of 5 7 2), record { http_admitted = 2; next_clip = 6 })
handle_http-accepts_example =
    handle_http-accepts silent memory (10 ^ 9) 7 (noise ∷ noise ∷ []) upload server refl
      (omega arith) upload-IsUpload (noise-whole, (noise-whole, tt)) (ground arith) (omega arith)
      (omega arith) (omega arith)

-- A decoder that puts out silence.
abbrev still : Native
still = record {
  State = Unit;
  d_if_init = tt;
  d_if_decode = λ st memory bad. some (st, replicate 320 (pos 0));
}

still-Fills : Fills still
still-Fills = λ st memory bad st' out e. sym (ap (λ p. length p.1) (some-injective _ _ e))

handle_http-IsSettled_example :
    IsSettled still
      (10 ^ 9)
      upload
      false
      false
      server
      (handle_http still (10 ^ 9) upload false false server)
handle_http-IsSettled_example =
    handle_http-IsSettled still still-Fills (10 ^ 9) (omega arith) upload false false server
