-- ===== src/Upload/Limits.antt =====
-- The limits of an upload: the bytes of frames, and their duration.
use talk2text.Prelude.{
  ℕ, ◌+◌, ◌*◌, ◌/◌, ◌%◌, ◌^◌, ◌≤◌, ◌<◌, ◌≡◌, refl, suc, ap, leb, all_below, all_below_sound, true,
  List, [], ◌∷◌, get_or, length, length-append, false, ltb, ◌==◌, arith, some,
}
use talk2text.Mime.Reference.{All}
use talk2text.Interface.Frames.{mode_of, mode_of-lt}
use talk2text.Storage.{frame_bytes, frame_size, max_int}
use talk2text.Storage.Frames.{IsStorageFrame, concat}
use talk2text.Daemon.{pcm_duration}
use talk2text.Upload.{http_audio_limits}

frame_bytes-le : all_below 16 (λ mode. leb (get_or frame_bytes mode 0) 61) ≡ true
unfolding all_below
frame_bytes-le = refl

leb→le : (a b : ℕ) → leb a b ≡ true → a ≤ b
leb→le a b h = ground arith

frame-le : (f : List ℕ) → IsStorageFrame f → length f ≤ 61
unfolding frame_size
frame-le [] w = absurd w
frame-le (header ∷ payload) w =
    let t = all_below_sound 16 _ (mode_of header false) frame_bytes-le (mode_of-lt header false) in
    let e : get_or frame_bytes (mode_of header false) 0 ≡ suc (length payload) = ap (λ p. p.0) w in
    let small = leb→le _ 61 t in omega arith

pub concat-le :
    (frames : List (List ℕ))
    → All IsStorageFrame frames
    → length (concat frames) ≤ 61 * length frames
concat-le [] w = omega arith
concat-le (f ∷ fs) w =
    let one = frame-le f w.0 in
    let rest = concat-le fs w.1 in let l = length-append f (concat fs) in omega arith

pub http_audio_limits_lem :
    (max_duration : ℕ)
    → max_duration < 2 ^ 63
    → http_audio_limits max_duration
      ≡ (max_duration / (20 * 10 ^ 6), 9 + 61 * (max_duration / (20 * 10 ^ 6)))
unfolding http_audio_limits
http_audio_limits_lem max_duration h =
    let small : ltb max_int (max_duration / (20 * 10 ^ 6)) ≡ false = ground arith in
    let e : max_duration / (20 * 10 ^ 6) * 61 ≡ 61 * (max_duration / (20 * 10 ^ 6)) = omega arith in
    rw (small, e) refl

pub pcm_duration_lem : (n : ℕ) → pcm_duration (640 * n) ≡ some (n * (20 * 10 ^ 6))
unfolding pcm_duration
pcm_duration_lem n =
    let even : (640 * n % 2 == 0) ≡ true = ground arith in
    let e : 640 * n / 2 * 10 ^ 9 / 16000 ≡ n * (20 * 10 ^ 6) = omega arith in rw (even, e) refl
