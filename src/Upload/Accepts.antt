-- ===== src/Upload/Accepts.antt =====
-- http.go over decoder.go, session.go and the C code: an upload within the limits is accepted.
use talk2text.Prelude.{
  ℕ, ◌+◌, ◌*◌, ◌/◌, ◌^◌, ◌≤◌, ◌<◌, ◌≡◌, refl, true, false, ltb, Option, none, some, List, ◌++◌,
  length, length-append, arith, ◌⊎◌, inl, inr,
}
use talk2text.Mime.Reference.{All}
use talk2text.Mime.Frame.{IsFrame}
use talk2text.Interface.{Core}
use talk2text.Storage.{Native, ok, magic, decode}
use talk2text.Storage.Frames.{IsStorageFrame, concat}
use talk2text.Stream.{native_of, LastCarries, decode-whole_stream}
use talk2text.Slots.{max_http_admitted}
use talk2text.Daemon.{Session}
use talk2text.Upload.{
  Request, Server, accepted, is_over, new_recorded_session, accept_audio, handle_admitted,
  handle_http, admit, settle,
}
use talk2text.Upload.Limits.{concat-le, http_audio_limits_lem, pcm_duration_lem}

-- A request for a transcription of this body: the right path, method and content type, an
-- environment of this origin, and no other length declared than the one that arrives.
pub record IsUpload (origin : ℕ) (body : List ℕ) (r : Request) : Type 0 where
  pub path : r.is_transcribe ≡ true
  pub method : r.is_post ≡ true
  pub from : r.environment ≡ some origin
  pub kind : r.is_amr_wb ≡ true
  pub honest : (r.content_length ≡ none) ⊎ (r.content_length ≡ some (length body))
  pub same : r.body ≡ body
  pub whole : r.arrives ≡ true

-- The clip of `n` frames.
abbrev pub clip_of : ℕ → ℕ → ℕ → Session
clip_of id origin n = record {
  id = id;
  origin_id = origin;
  buffer = 640 * n;
  duration = n * (20 * 10 ^ 6);
}

pub new_recorded_session-frames :
    (id origin n : ℕ) → new_recorded_session id origin (640 * n) ≡ some (clip_of id origin n)
unfolding new_recorded_session
new_recorded_session-frames id origin n = rw (new_recorded_session, pcm_duration_lem n) refl

is_over-honest :
    (declared : Option ℕ) (len limit : ℕ)
    → (declared ≡ none) ⊎ (declared ≡ some len)
    → len ≤ limit
    → is_over declared limit ≡ false
is_over-honest declared len limit (inl e) h = rw e refl
is_over-honest declared len limit (inr e) h = rw e (ground arith)

short_enough : (n m len : ℕ) → n ≤ m → len ≤ 9 + 61 * n → len ≤ 9 + 61 * m
short_enough n m len h k = omega arith

handle_admitted-accepts :
    (native : Native) (max_duration origin next_clip n : ℕ) (body out : List ℕ) (r : Request)
    → max_duration < 2 ^ 63
    → IsUpload origin body r
    → length body ≤ 9 + 61 * n
    → n ≤ max_duration / (20 * 10 ^ 6)
    → decode native body (max_duration / (20 * 10 ^ 6)) ≡ ok out
    → length out ≡ 640 * n
    → handle_admitted native max_duration r false origin next_clip
      ≡ (accepted (clip_of next_clip origin n), next_clip + 1)
unfolding handle_admitted accept_audio
handle_admitted-accepts native max_duration origin next_clip n body out r small u short few e l =
    let room = short_enough n (max_duration / (20 * 10 ^ 6)) (length body) few short in
    let fits : ltb (9 + 61 * (max_duration / (20 * 10 ^ 6))) (length body) ≡ false = ground arith in
    rw
      (
        http_audio_limits_lem max_duration small,
        u.kind,
        is_over-honest r.content_length (length body) _ u.honest room,
        u.same,
        fits,
        u.whole,
        e,
        l,
        new_recorded_session-frames next_clip origin n,
      )
      refl

-- With a core that writes 320 samples a frame, a buffer of 477 entries and a limit below 2 ^ 63
-- ns: if a free slot is left, the daemon is not stopping, and a well-formed request brings the
-- file signature and whole storage frames of bytes, the last of them with a payload, that last no
-- longer than the limit, then `handle_http` accepts it with the next clip number, the origin of
-- its environment, 640 bytes and 20 ms for each frame, and keeps one slot.
pub handle_http-accepts :
    (core : Core) (memory : List ℕ) (max_duration origin : ℕ) (frames : List (List ℕ)) (r : Request)
    (s : Server)
    → length memory ≡ 477
    → max_duration < 2 ^ 63
    → IsUpload origin (magic ++ concat frames) r
    → All IsStorageFrame frames
    → IsFrame (concat frames)
    → LastCarries frames
    → length frames * (20 * 10 ^ 6) ≤ max_duration
    → s.http_admitted < max_http_admitted
    → handle_http (native_of core memory) max_duration r false false s ≡ (
      accepted (clip_of s.next_clip origin (length frames)),
      record { http_admitted = s.http_admitted + 1; next_clip = s.next_clip + 1 },
    )
unfolding handle_http admit settle handle_admitted
handle_http-accepts core memory max_duration origin frames r s room small u w b l few free =
    let (out, e, long) =
      decode-whole_stream core memory room frames (max_duration / (20 * 10 ^ 6)) w b l (omega arith)
        (omega arith) in
    let bytes = concat-le frames w in
    let sum = length-append magic (concat frames) in
    let open_slot : ltb 2 (s.http_admitted + 1) ≡ false = ground arith in
    let a =
      handle_admitted-accepts (native_of core memory) max_duration origin s.next_clip
        (length frames) (magic ++ concat frames) out r small u (omega arith) (omega arith) e long in
    rw (u.path, u.method, u.from, open_slot, a) refl
