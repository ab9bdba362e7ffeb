-- ===== src/Upload.antt =====
-- internal/daemon/http.go: the handler of an HTTP request, over internal/amrwb/decoder.go and
-- session.NewRecordedSession. Durations are in nanoseconds.
pub mod Limits
pub mod Accepts
pub mod Served
pub mod Settled
use talk2text.Prelude.{
  ℕ, ◌+◌, ◌-◌, ◌*◌, ◌/◌, ◌^◌, Bool, true, false, not, if◌then◌else◌, ltb, Option, none, some, List,
  length,
}
use talk2text.Storage.{
  DecodeError, invalid_header, fault, invalid_frame_size, too_large, reserved_frame_type, truncated,
  too_long, Result, ok, err, magic, max_int, Native, decode,
}
use talk2text.Daemon.{Session, pcm_duration}
use talk2text.Slots.{max_http_admitted}

-- amrwbFrameDuration and amrwbMaxEncodedFrameSize.
abbrev pub amrwb_frame_duration : ℕ
amrwb_frame_duration = 20 * 10 ^ 6

abbrev pub amrwb_max_encoded_frame_size : ℕ
amrwb_max_encoded_frame_size = 61

-- The smaller of two numbers.
abbrev pub min : ℕ → ℕ → ℕ
min a b = if ltb b a then b else a

-- The numbers are those of int64, below 2 ^ 63 for each duration.
unfoldable pub http_audio_limits : ℕ → ℕ × ℕ
http_audio_limits max_duration =
    let frame_count = min (max_duration / amrwb_frame_duration) max_int in
    (frame_count, length magic + frame_count * amrwb_max_encoded_frame_size)

-- What the handler sees: whether the path and the method are those it serves; the origin of the
-- environment, `none` if its header is refused; whether the content type parses and is audio/amr-wb;
-- the length that is declared, if one is; the bytes that arrive, and whether their end does.
pub record Request : Type 0 where
  pub is_transcribe : Bool
  pub is_post : Bool
  pub environment : Option ℕ
  pub is_amr_wb : Bool
  pub content_length : Option ℕ
  pub body : List ℕ
  pub arrives : Bool

pub record Server : Type 0 where
  pub http_admitted : ℕ
  pub next_clip : ℕ

-- A refusal has its status; `accepted` is status 202, and the clip that `transcribeHTTP` gets.
-- `undefined` is no answer: the C decoder accesses memory that it may not.
pub data Outcome : Type 0 where
  refused : ℕ → Outcome
  accepted : Session → Outcome
  undefined : Outcome

-- The statuses of the errors of `amrwb.Decode`, with what each of them wraps.
unfoldable pub decode_refusal : DecodeError → Outcome
decode_refusal invalid_header = refused 400
decode_refusal fault = undefined
decode_refusal invalid_frame_size = refused 400
decode_refusal too_large = refused 413
decode_refusal (reserved_frame_type offset) = refused 400
decode_refusal (truncated offset size have) = refused 400
decode_refusal (too_long max_frames) = refused 413

-- NewRecordedSession
unfoldable pub new_recorded_session : ℕ → ℕ → ℕ → Option Session
new_recorded_session id origin pcm_len = elim (pcm_duration pcm_len) [
  | none ↦ none
  | some duration ↦
      some (record { id = id; origin_id = origin; buffer = pcm_len; duration = duration })
]

abbrev pub is_over : Option ℕ → ℕ → Bool
is_over none limit = false
is_over (some declared) limit = ltb limit declared

-- From the decoded audio on; `stopped` is what the second test of the context sees.
unfoldable pub accept_audio : Bool → ℕ → ℕ → Result (List ℕ) → Outcome × ℕ
accept_audio stopped origin next_clip (err e) = (decode_refusal e, next_clip)
accept_audio stopped origin next_clip (ok pcm) =
    if stopped
    then (refused 503, next_clip)
    else elim (new_recorded_session next_clip origin (length pcm)) [
      | none ↦ (refused 500, next_clip + 1)
      | some s ↦ (accepted s, next_clip + 1)
    ]

-- The deferred `Add(-1)` of a handler that keeps its slot.
unfoldable pub settle : Outcome × ℕ → Server → Outcome × Server
settle (refused status, next_clip) s =
    (refused status, record { http_admitted = s.http_admitted - 1; next_clip = next_clip })
settle (accepted clip, next_clip) s = (accepted clip, record s { next_clip = next_clip })
settle (undefined, next_clip) s = (undefined, record s { next_clip = next_clip })

module _ (native : Native) (max_duration : ℕ) where
  -- The part of `handleHTTP` behind the admission.
  unfoldable pub handle_admitted : Request → Bool → ℕ → ℕ → Outcome × ℕ
  handle_admitted r stopped origin next_clip =
      let limits = http_audio_limits max_duration in
      if not r.is_amr_wb
      then (refused 415, next_clip)
      else if is_over r.content_length limits.1
      then (refused 413, next_clip)
      else if ltb limits.1 (length r.body)
      then (refused 413, next_clip)
      else if not r.arrives
      then (refused 400, next_clip)
      else accept_audio stopped origin next_clip (decode native r.body limits.0)

  -- From the environment on, with its header's origin.
  unfoldable pub admit : Option ℕ → Request → Bool → Server → Outcome × Server
  admit none r stopped s = (refused 400, s)
  admit (some origin) r stopped s =
      let s' = record s { http_admitted = s.http_admitted + 1 } in
      if ltb max_http_admitted s'.http_admitted
      then (refused 503, record s' { http_admitted = s'.http_admitted - 1 })
      else settle (handle_admitted r stopped origin s'.next_clip) s'

  -- `handleHTTP`; the Booleans are what its two tests of the context see.
  unfoldable pub handle_http : Request → Bool → Bool → Server → Outcome × Server
  handle_http r stopped stopped_later s =
      if not r.is_transcribe
      then (refused 404, s)
      else if not r.is_post
      then (refused 405, s)
      else if stopped
      then (refused 503, s)
      else admit r.environment r stopped_later s
