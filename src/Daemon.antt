-- ===== src/Daemon.antt =====
-- internal/daemon/daemon.go, stream.go and session/session.go: which clip is recorded, for whom, and
-- what the microphone stream is asked to do. A text that is only compared, the session identifier
-- of a request, is a number, 0 the empty one. A duration is its nanoseconds, and a setting of 0 or
-- less is 0. Notifications, and the environments that only they use, are left out.
pub mod Invariant
pub mod Manager
pub mod System
pub mod Ownership
pub mod Progress
pub mod Following
use talk2text.Prelude.{
  ℕ, zero, suc, ◌+◌, ◌*◌, ◌/◌, ◌%◌, ◌^◌, Bool, true, false, ◌&&◌, ◌||◌, not, if◌then◌else◌, ltb,
  leb, ◌==◌, Option, none, some, List, [], ◌∷◌,
}

pub record Config : Type 0 where
  pub max_duration : ℕ
  pub stop_delay : ℕ
  pub warm_retention : ℕ

-- session.Session: the buffer is its length.
pub record Session : Type 0 where
  pub id : ℕ
  pub origin_id : ℕ
  pub buffer : ℕ
  pub duration : ℕ

pub data StreamState : Type 0 where
  off warm recording : StreamState

abbrev pub state_code : StreamState → ℕ
state_code off = 0
state_code warm = 1
state_code recording = 2

infix 50 ◌is◌
abbrev pub ◌is◌ : StreamState → StreamState → Bool
a is b = state_code a == state_code b

-- The fields under `muCapture`. `stop_timer` is the clip of the timer that `stop` has started, and
-- `warm_timer` says that the timer of the warm stream was started, each if it was not stopped
-- since. `transcribed` records the clips that were handed to `transcribe`, the last one first.
pub record Daemon : Type 0 where
  pub active : Option Session
  pub next_clip : ℕ
  pub pending_stop_clip : ℕ
  pub stop_timer : Option ℕ
  pub warm_timer : Bool
  pub desired : StreamState
  pub transcribed : List ℕ

-- `Run`: the daemon before the first request.
unfoldable pub init : Daemon
init = record {
  active = none;
  next_clip = 1;
  pending_stop_clip = 0;
  stop_timer = none;
  warm_timer = false;
  desired = off;
  transcribed = [];
}

unfoldable pub new_session : ℕ → ℕ → Session
new_session id origin = record { id = id; origin_id = origin; buffer = 0; duration = 0 }

-- `pcmDuration` of a number of bytes; `none` is its error.
abbrev pub sample_rate_hz : ℕ
sample_rate_hz = 16000

unfoldable pub pcm_duration : ℕ → Option ℕ
pcm_duration l = if l % 2 == 0 then some (l / 2 * 10 ^ 9 / sample_rate_hz) else none

-- `OnPCM`; on an error the session is cleared, and it is not used again.
unfoldable pub on_pcm : ℕ → Session → Option Session
unfolding pcm_duration
on_pcm l s = elim (pcm_duration l) [
  | none ↦ none
  | some delta ↦ some (record s { buffer = s.buffer + l; duration = s.duration + delta })
]

unfoldable pub cancel_pending_stop : Daemon → Daemon
cancel_pending_stop d = record d { stop_timer = none; pending_stop_clip = 0 }

abbrev pub transcribe : ℕ → Daemon → Daemon
transcribe clip d = record d { transcribed = clip ∷ d.transcribed }

-- Who asks is the owner of the active session.
unfoldable pub owns : ℕ → Session → Bool
owns origin s = s.origin_id == origin

pub data StartError : Type 0 where
  no_session_identifier recording_busy : StartError

-- `start` on the active session, once the request is accepted.
unfoldable pub begin : ℕ → Option ℕ → Daemon → Daemon
unfolding cancel_pending_stop new_session
begin origin stopped d =
    let d' = record (cancel_pending_stop d) {
      warm_timer = false;
      next_clip = d.next_clip + 1;
      active = some (new_session d.next_clip origin);
      desired = recording;
    } in
    elim stopped [ none ↦ d' | some clip ↦ transcribe clip d' ]

unfoldable pub start_with : Option Session → ℕ → Daemon → Daemon × Option StartError
unfolding begin owns
start_with none origin d = (begin origin none d, none)
start_with (some s) origin d =
    if not (owns origin s)
    then (d, some recording_busy)
    else (begin origin (if s.id == d.pending_stop_clip then some s.id else none) d, none)

unfoldable pub start : ℕ → Daemon → Daemon × Option StartError
unfolding start_with
start origin d =
    if origin == 0 then (d, some no_session_identifier) else start_with d.active origin d

-- The callback of the warm timer, whenever it gets the lock.
unfoldable pub warm_fires_with : Option Session → Daemon → Daemon
warm_fires_with none d = record d { desired = off }
warm_fires_with (some s) d = d

unfoldable pub warm_fires : Daemon → Daemon
unfolding warm_fires_with
warm_fires d = warm_fires_with d.active d

-- The end of the clip in `onAudio`; the warm timer is not started.
unfoldable pub end_clip : Daemon → Daemon
unfolding cancel_pending_stop
end_clip d = record (cancel_pending_stop d) { active = none; desired = warm }

module _ (cfg : Config) where
  -- `stopActiveSession` and `processStoppedSession`: without warm retention the warm timer's
  -- `Start` turns the stream off at once.
  unfoldable pub stop_active_session : Session → Daemon → Daemon
  unfolding cancel_pending_stop
  stop_active_session s d = transcribe s.id (record (cancel_pending_stop d) {
    active = none;
    desired = if cfg.warm_retention == 0 then off else warm;
    warm_timer = not (cfg.warm_retention == 0);
  })

  unfoldable pub stop_with : Option Session → ℕ → Daemon → Daemon
  unfolding stop_active_session owns
  stop_with none origin d = d
  stop_with (some s) origin d =
      if origin == 0 || not (owns origin s)
      then d
      else if cfg.stop_delay == 0
      then stop_active_session s d
      else if d.pending_stop_clip == s.id
      then d
      else if d.pending_stop_clip == 0
      then record d { pending_stop_clip = s.id; stop_timer = some s.id }
      else stop_active_session s d

  unfoldable pub stop : ℕ → Daemon → Daemon
  unfolding stop_with
  stop origin d = stop_with d.active origin d

  -- The callback of the stop timer that was started for `clip`, whenever it gets the lock.
  unfoldable pub stop_fires_with : Option Session → ℕ → Daemon → Daemon
  unfolding stop_active_session
  stop_fires_with none clip d = d
  stop_fires_with (some s) clip d =
      if not (s.id == clip) || not (d.pending_stop_clip == clip) then d else stop_active_session s d

  unfoldable pub stop_fires : ℕ → Daemon → Daemon
  unfolding stop_fires_with
  stop_fires clip d = stop_fires_with d.active clip d

  unfoldable pub on_audio_with : Option Session → ℕ → Daemon → Daemon
  unfolding end_clip on_pcm
  on_audio_with none l d = d
  on_audio_with (some s) l d = elim (on_pcm l s) [
    | none ↦ end_clip d
    | some s' ↦
        if not (cfg.max_duration == 0) && leb cfg.max_duration s'.duration
        then transcribe s'.id (end_clip d)
        else record d { active = some s' }
  ]

  unfoldable pub on_audio : ℕ → Daemon → Daemon
  unfolding on_audio_with
  on_audio l d = if l == 0 then d else on_audio_with d.active l d

-- The HTTP handler takes the next clip, which another part transcribes.
unfoldable pub take_clip : Daemon → Daemon
take_clip d = record d { next_clip = d.next_clip + 1 }

unfoldable pub shutdown : Daemon → Daemon
unfolding cancel_pending_stop
shutdown d = record (cancel_pending_stop d) { warm_timer = false; active = none; desired = off }
