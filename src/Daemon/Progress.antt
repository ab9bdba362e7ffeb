-- ===== src/Daemon/Progress.antt =====
-- internal/daemon/daemon.go and stream.go: the end of a clip, and a clip that is too long.
use talk2text.Prelude.{
  ℕ, ◌+◌, ◌*◌, ◌/◌, ◌%◌, ◌^◌, ◌≤◌, ◌≡◌, ◌≢◌, refl, sym, true, false, not, ◌||◌, leb, Bool-cases,
  inl, inr, ◌==◌, Option, none, some, ◌∷◌, arith,
}
use mathlib.Core.Path.{subst}
use talk2text.Daemon.{
  Config, Session, warm, Daemon, new_session, on_pcm, pcm_duration, begin, owns,
  cancel_pending_stop, start_with, start, stop_active_session, stop_with, stop, stop_fires_with,
  stop_fires, end_clip, on_audio_with, on_audio,
}

-- A clip has ended: nothing is recorded, and it was handed on.
pub record HasEnded (clip : ℕ) (before d : Daemon) : Type 0 where
  pub idle : d.active ≡ none
  pub handed_on : d.transcribed ≡ clip ∷ before.transcribed

module _ (cfg : Config) (d : Daemon) (s : Session) where
  stop_active_session-HasEnded : HasEnded s.id d (stop_active_session cfg s d)
  unfolding stop_active_session cancel_pending_stop
  stop_active_session-HasEnded = record { idle = refl; handed_on = refl }

  stop_active_session-idle : (stop_active_session cfg s d).active ≡ none
  unfolding stop_active_session cancel_pending_stop
  stop_active_session-idle = refl

  late_timer : (clip : ℕ) → HasEnded s.id d (stop_fires cfg clip (stop_active_session cfg s d))
  unfolding stop_fires stop_fires_with
  late_timer clip = rw stop_active_session-idle stop_active_session-HasEnded

  pending_timer :
      (pending : ℕ) (timer : Option ℕ)
      → d.active ≡ some s
      → pending ≡ s.id
      → HasEnded s.id d
          (stop_fires cfg s.id (record d { pending_stop_clip = pending; stop_timer = timer }))
  unfolding stop_fires stop_fires_with stop_active_session cancel_pending_stop
  pending_timer pending timer e p =
      let meant : (not (s.id == s.id) || not (pending == s.id)) ≡ false = ground arith in
      rw (e, meant) (record { idle = refl; handed_on = refl })

  stop_with-ends :
      (origin : ℕ)
      → d.active ≡ some s
      → origin ≢ 0
      → s.origin_id ≡ origin
      → HasEnded s.id d (stop_fires cfg s.id (stop_with cfg (some s) origin d))
  unfolding stop_with owns
  stop_with-ends origin e named mine =
      let admitted : (origin == 0 || not (s.origin_id == origin)) ≡ false = ground arith in
      rw admitted (elim (Bool-cases (cfg.stop_delay == 0)) [
        | inl now ↦ rw now (late_timer s.id)
        | inr later ↦ elim (Bool-cases (d.pending_stop_clip == s.id)) [
          | inl again ↦
              rw (later, again) (pending_timer d.pending_stop_clip d.stop_timer e (ground arith))
          | inr first ↦ elim (Bool-cases (d.pending_stop_clip == 0)) [
            | inl free ↦ rw (later, first, free) (pending_timer s.id (some s.id) e refl)
            | inr taken ↦ rw (later, first, taken) (late_timer s.id)
          ]
        ]
      ])

  -- If a clip is active and its owner asks to stop, then, once the timer that belongs to the clip
  -- has fired, no clip is active and the clip was handed on exactly once more, with and without a
  -- stop delay, and when a stop was pending before.
  pub stop-ends :
      (origin : ℕ)
      → d.active ≡ some s
      → origin ≢ 0
      → s.origin_id ≡ origin
      → HasEnded s.id d (stop_fires cfg s.id (stop cfg origin d))
  unfolding stop
  stop-ends origin e named mine =
      subst (λ active. HasEnded s.id d (stop_fires cfg s.id (stop_with cfg active origin d)))
        (sym e) (stop_with-ends origin e named mine)

-- The clip has ended at the limit: it was handed on, and the microphone stays open with no timer
-- that would close it.
pub record StaysOpen (clip : ℕ) (before d : Daemon) : Type 0 where
  pub ended : HasEnded clip before d
  pub kept_warm : d.desired ≡ warm
  pub untimed : d.warm_timer ≡ false

started :
    (d : Daemon) (active : Option Session) (origin : ℕ)
    → active ≡ none
    → (start_with active origin d).0 ≡ begin origin none d
unfolding start_with
started d none origin e = refl
started d (some s) origin e = cc

at_limit :
    (cfg : Config) (d : Daemon) (origin l : ℕ)
    → cfg.max_duration ≢ 0
    → l % 2 ≡ 0
    → cfg.max_duration ≤ l / 2 * 10 ^ 9 / 16000
    → StaysOpen d.next_clip d
        (on_audio_with cfg (begin origin none d).active l (begin origin none d))
unfolding on_audio_with begin new_session cancel_pending_stop on_pcm pcm_duration end_clip
at_limit cfg d origin l limited even long =
    let whole : (l % 2 == 0) ≡ true = ground arith in
    let set : (cfg.max_duration == 0) ≡ false = ground arith in
    let reached : leb cfg.max_duration (0 + l / 2 * 10 ^ 9 / 16000) ≡ true = ground arith in
    rw (on_audio_with, on_pcm, pcm_duration, whole, set, reached)
      (record {
        ended = record { idle = refl; handed_on = refl };
        kept_warm = refl;
        untimed = refl;
      })

heard_any : (l m : ℕ) → m ≢ 0 → m ≤ l / 2 * 10 ^ 9 / 16000 → (l == 0) ≡ false
heard_any l m p q = grind arith

-- If no clip is active and a maximal duration is set, then after a start request with a name and a
-- block of whole samples that lasts at least this duration, no clip is active and the clip was
-- handed on, but the stream is asked to stay warm while the warm timer is not running.
pub on_audio-StaysOpen :
    (cfg : Config) (d : Daemon) (origin l : ℕ)
    → d.active ≡ none
    → origin ≢ 0
    → cfg.max_duration ≢ 0
    → l % 2 ≡ 0
    → cfg.max_duration ≤ l / 2 * 10 ^ 9 / 16000
    → StaysOpen d.next_clip d (on_audio cfg l (start origin d).0)
unfolding on_audio
on_audio-StaysOpen cfg d origin l e named limited even long =
    let has_name : (origin == 0) ≡ false = ground arith in
    let accepted : (start origin d).0 ≡ begin origin none d =
      unfold start in rw has_name (started d d.active origin e) in
    let heard = heard_any l cfg.max_duration limited long in
    rw (accepted, heard) (at_limit cfg d origin l limited even long)
