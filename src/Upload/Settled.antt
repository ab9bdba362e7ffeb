-- ===== src/Upload/Settled.antt =====
-- http.go: what each outcome of the handler does to the daemon.
use talk2text.Prelude.{
  ℕ, ◌+◌, ◌-◌, ◌^◌, ◌≤◌, ◌<◌, ◌≡◌, refl, Bool, true, false, not, ltb, Option, none, some, arith,
}
use talk2text.Storage.{Native, err, fault, decode}
use talk2text.Storage.Bound.{Fills}
use talk2text.Slots.{max_http_admitted}
use talk2text.Upload.{
  Request, Server, Outcome, refused, accepted, undefined, handle_http, admit, settle,
  http_audio_limits,
}
use talk2text.Upload.Served.{
  if-lem, not-false, IsHeard, IsClipOf, IsServed, handle_admitted-IsServed,
}

same_server :
    (s : Server) (next : ℕ)
    → next ≡ s.next_clip
    → Path Server (record { http_admitted = s.http_admitted + 1 - 1; next_clip = next }) s
same_server s next h =
    let e : s.http_admitted + 1 - 1 ≡ s.http_admitted = omega arith in rw (e, h) refl

has_room :
    (s : Server)
    → ltb max_http_admitted (s.http_admitted + 1) ≡ false
    → s.http_admitted < max_http_admitted
has_room s h = ground arith

-- The same of the whole handler: a refusal leaves the daemon as it was, an acceptance keeps one of
-- the slots and is of a request that passes every test.
abbrev pub IsSettled : Native → ℕ → Request → Bool → Bool → Server → Outcome × Server → Type 0
IsSettled native max_duration r stopped stopped_later s (refused status, s') =
    (400 ≤ status) × (status < 600) × (s' ≡ s)
IsSettled native max_duration r stopped stopped_later s (accepted clip, s') =
    (s'.http_admitted ≡ s.http_admitted + 1)
    × (s'.http_admitted ≤ max_http_admitted)
    × (s'.next_clip ≡ s.next_clip + 1)
    × (clip.id ≡ s.next_clip)
    × (clip.duration ≤ max_duration)
    × (r.is_transcribe ≡ true)
    × (r.is_post ≡ true)
    × (r.environment ≡ some clip.origin_id)
    × (stopped ≡ false)
    × (stopped_later ≡ false)
    × IsHeard (http_audio_limits max_duration).1 r
    × IsClipOf native max_duration r clip
IsSettled native max_duration r stopped stopped_later s (undefined, s') =
    decode native r.body (http_audio_limits max_duration).0 ≡ err fault

module _ (native : Native) (fills : Fills native) (max_duration : ℕ)
    (small : max_duration < 2 ^ 63) where
  settle-IsSettled :
      (r : Request) (stopped_later : Bool) (origin : ℕ) (s : Server) (o : Outcome × ℕ)
      → r.is_transcribe ≡ true
      → r.is_post ≡ true
      → r.environment ≡ some origin
      → s.http_admitted < max_http_admitted
      → IsServed native max_duration r stopped_later origin s.next_clip o
      → IsSettled native max_duration r false stopped_later s
          (settle o (record s { http_admitted = s.http_admitted + 1 }))
  unfolding settle
  settle-IsSettled r stopped_later origin s (refused status, next) path method from room
        (low, high, taken) =
      (low, high, same_server s next taken)
  settle-IsSettled r stopped_later origin s (accepted clip, next) path method from room
        (taken, id, owner, short, going, heard, clip_of) =
      (
        refl,
        omega arith,
        taken,
        id,
        short,
        path,
        method,
        rw owner from,
        refl,
        going,
        heard,
        clip_of,
      )
  settle-IsSettled r stopped_later origin s (undefined, next) path method from room h = h

  admit-IsSettled :
      (r : Request) (stopped : Bool) (s : Server) (environment : Option ℕ)
      → r.environment ≡ environment
      → r.is_transcribe ≡ true
      → r.is_post ≡ true
      → IsSettled native max_duration r false stopped s
          (admit native max_duration environment r stopped s)
  unfolding admit
  admit-IsSettled r stopped s none from path method = (omega arith, omega arith, refl)
  admit-IsSettled r stopped s (some origin) from path method =
      if-lem (IsSettled native max_duration r false stopped s)
        (ltb max_http_admitted (s.http_admitted + 1)) _ _
        (λ full. (omega arith, omega arith, same_server s s.next_clip refl))
        (λ free.
          settle-IsSettled r stopped origin s _ path method from (has_room s free)
            (handle_admitted-IsServed native fills max_duration small r origin s.next_clip stopped))

  -- With a decoder that returns 320 samples whenever it returns, and a limit below 2 ^ 63 ns, for
  -- every request: if `handle_http` refuses it, the status is an error's and the slots and the
  -- clip numbers are as before; if it accepts it, path, method, content type and environment are
  -- right, both tests of the context saw no stop, a declared length and the real one are within
  -- the limit, the body arrived whole and decodes; then at most two slots are taken, one more than
  -- before, and its clip has the next number, the origin of the environment, as many bytes as were
  -- decoded, and does not last longer than the limit; if it gives no answer, the decoder accessed
  -- memory that it may not.
  pub handle_http-IsSettled :
      (r : Request) (stopped stopped_later : Bool) (s : Server)
      → IsSettled native max_duration r stopped stopped_later s
          (handle_http native max_duration r stopped stopped_later s)
  unfolding handle_http
  handle_http-IsSettled r stopped stopped_later s =
      let P = IsSettled native max_duration r stopped stopped_later s in
      if-lem P (not r.is_transcribe) _ _ (λ e. (omega arith, omega arith, refl))
        (λ path.
          if-lem P (not r.is_post) _ _ (λ e. (omega arith, omega arith, refl))
            (λ method.
              if-lem P stopped _ _ (λ e. (omega arith, omega arith, refl))
                (λ goes_on. rw goes_on (
                  admit-IsSettled r stopped_later s r.environment refl (not-false _ path)
                    (not-false _ method)))))
