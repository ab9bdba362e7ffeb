-- ===== src/Upload/Served.antt =====
-- http.go: what the handler does behind the admission.
use talk2text.Prelude.{
  ℕ, ◌+◌, ◌*◌, ◌/◌, ◌^◌, ◌≤◌, ◌<◌, ◌≡◌, refl, sym, Bool, true, false, not, ltb, Option, none, some,
  List, length, if◌then◌else◌, arith,
}
use mathlib.Core.Path.{subst}
use talk2text.Daemon.{Session}
use talk2text.Storage.{
  Native, Result, ok, err, fault, decode, invalid_header, invalid_frame_size, too_large,
  reserved_frame_type, truncated, too_long,
}
use talk2text.Storage.Bound.{Fills, decode-ok}
use talk2text.Upload.{
  Request, Outcome, refused, accepted, undefined, decode_refusal, new_recorded_session,
  accept_audio, handle_admitted, http_audio_limits, is_over,
}
use talk2text.Upload.Limits.{http_audio_limits_lem}
use talk2text.Upload.Accepts.{new_recorded_session-frames}

pub if-lem {ℓ κ} :
    {A : Type ℓ} (P : A → Type κ) (b : Bool) (x y : A)
    → (b ≡ true → P x)
    → (b ≡ false → P y)
    → P (if b then x else y)
if-lem P true x y h k = h refl
if-lem P false x y h k = k refl

pub not-false : (b : Bool) → not b ≡ false → b ≡ true
not-false true e = refl
not-false false e = cc

ltb-false : (a b : ℕ) → ltb a b ≡ false → b ≤ a
ltb-false a b e = ground arith

-- A length that the request declares is within the limit.
abbrev pub IsWithin : ℕ → Option ℕ → Type 0
IsWithin limit none = Unit
IsWithin limit (some declared) = declared ≤ limit

is_over-false :
    (limit : ℕ) (declared : Option ℕ) → is_over declared limit ≡ false → IsWithin limit declared
is_over-false limit none e = tt
is_over-false limit (some declared) e = ltb-false limit declared e

-- The audio is of the right type, by its declared and its real length within the limit, and whole.
abbrev pub IsHeard : ℕ → Request → Type 0
IsHeard limit r =
    (r.is_amr_wb ≡ true)
    × IsWithin limit r.content_length
    × (length r.body ≤ limit)
    × (r.arrives ≡ true)

-- The audio decodes, to as many bytes as the clip has.
abbrev pub IsClipOf : Native → ℕ → Request → Session → Type 0
IsClipOf native max_duration r clip =
    (pcm : List ℕ) × (decode native r.body (http_audio_limits max_duration).0 ≡ ok pcm)
    × (clip.buffer ≡ length pcm)

-- What the part behind the admission does: a refusal has the status of an error and takes no clip
-- number; the clip of an acceptance has the next one, the request's origin and audio, and a
-- duration within the limit; no answer is a fault of the decoder.
abbrev pub IsServed : Native → ℕ → Request → Bool → ℕ → ℕ → Outcome × ℕ → Type 0
IsServed native max_duration r stopped origin next_clip (refused status, next) =
    (400 ≤ status) × (status < 600) × (next ≡ next_clip)
IsServed native max_duration r stopped origin next_clip (accepted clip, next) =
    (next ≡ next_clip + 1)
    × (clip.id ≡ next_clip)
    × (clip.origin_id ≡ origin)
    × (clip.duration ≤ max_duration)
    × (stopped ≡ false)
    × IsHeard (http_audio_limits max_duration).1 r
    × IsClipOf native max_duration r clip
IsServed native max_duration r stopped origin next_clip (undefined, next) =
    decode native r.body (http_audio_limits max_duration).0 ≡ err fault

module _ (native : Native) (fills : Fills native) (max_duration : ℕ) (small : max_duration < 2 ^ 63)
    (r : Request) (origin next_clip : ℕ) where
  accept_audio-IsServed :
      (stopped : Bool) (audio : Result (List ℕ))
      → IsHeard (http_audio_limits max_duration).1 r
      → decode native r.body (http_audio_limits max_duration).0 ≡ audio
      → IsServed native max_duration r stopped origin next_clip
          (accept_audio stopped origin next_clip audio)
  unfolding accept_audio decode_refusal
  accept_audio-IsServed stopped (err invalid_header) h e = (omega arith, omega arith, refl)
  accept_audio-IsServed stopped (err invalid_frame_size) h e = (omega arith, omega arith, refl)
  accept_audio-IsServed stopped (err too_large) h e = (omega arith, omega arith, refl)
  accept_audio-IsServed stopped (err (reserved_frame_type _)) h e = (omega arith, omega arith, refl)
  accept_audio-IsServed stopped (err (truncated _ _ _)) h e = (omega arith, omega arith, refl)
  accept_audio-IsServed stopped (err (too_long _)) h e = (omega arith, omega arith, refl)
  accept_audio-IsServed stopped (err fault) h e = e
  accept_audio-IsServed true (ok pcm) h e = (omega arith, omega arith, refl)
  accept_audio-IsServed false (ok pcm) h e =
      let (n, few, l) = decode-ok native fills r.body _ pcm e in
      let limits = http_audio_limits_lem max_duration small in
      let bound : n ≤ max_duration / (20 * 10 ^ 6) = rw limits at few in
      let made = new_recorded_session-frames next_clip origin n in
      subst
        (λ size.
          IsServed native max_duration r false origin next_clip
            (elim (new_recorded_session next_clip origin size) [
              | none ↦ (refused 500, next_clip + 1)
              | some s ↦ (accepted s, next_clip + 1)
            ]))
        (sym l) (rw made (refl, refl, refl, omega arith, refl, h, (pcm, e, sym l)))

  pub handle_admitted-IsServed :
      (stopped : Bool)
      → IsServed native max_duration r stopped origin next_clip
          (handle_admitted native max_duration r stopped origin next_clip)
  unfolding handle_admitted
  handle_admitted-IsServed stopped =
      let limits = http_audio_limits max_duration in
      let P = IsServed native max_duration r stopped origin next_clip in
      if-lem P (not r.is_amr_wb) _ _ (λ e. (omega arith, omega arith, refl))
        (λ kind.
          if-lem P (is_over r.content_length limits.1) _ _ (λ e. (omega arith, omega arith, refl))
            (λ declared.
              if-lem P (ltb limits.1 (length r.body)) _ _ (λ e. (omega arith, omega arith, refl))
                (λ fits.
                  if-lem P (not r.arrives) _ _ (λ e. (omega arith, omega arith, refl))
                    (λ whole.
                      accept_audio-IsServed stopped _
                        (
                          not-false _ kind,
                          is_over-false _ _ declared,
                          ltb-false _ _ fits,
                          not-false _ whole,
                        )
                        refl))))
