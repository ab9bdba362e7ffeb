-- ===== src/Daemon/Ownership.antt =====
-- Who may start, stop and end a recording: internal/daemon/daemon.go against an owner or none.
pub mod Requests
pub mod Rounds
pub mod Runs
use talk2text.Prelude.{
  ℕ, zero, suc, ◌≡◌, ◌≢◌, refl, sym, ap, ◌∙◌, Bool, true, false, not, ◌||◌, ◌&&◌, leb, Bool-cases,
  inl, inr, if◌then◌else◌, ◌==◌, Option, none, some, some-injective, List, [], ◌∷◌, arith,
}
use talk2text.Daemon.{
  Config, Session, StreamState, off, warm, recording, ◌is◌, Daemon, StartError, recording_busy,
  new_session, on_pcm, pcm_duration, begin, owns, cancel_pending_stop, start_with, start,
  stop_active_session, stop_with, stop, stop_fires_with, stop_fires, end_clip, transcribe,
  on_audio_with, on_audio, warm_fires_with, warm_fires, take_clip, shutdown,
}
use talk2text.Daemon.Manager.{
  Stream, Outcome, open_stream, fail_warm, fail_recording_with, fail_recording, manage_open,
  manage_closed, manage,
}
use talk2text.Daemon.System.{
  Machine, Event, start_request, stop_request, stop_timer, audio, warm_timer, http_request,
  manager_reads, shut_down, manager_acts, step, run,
}

abbrev pub owner_of : Option Session → Option ℕ
owner_of none = none
owner_of (some s) = some s.origin_id

abbrev pub owner : Daemon → Option ℕ
owner d = owner_of d.active

-- What an event may do to the ownership. Only who is named by a request can be given the
-- recorder, and only its owner can give it back; a timer, audio, the manager and the shutdown can
-- end the clip.
pub data Transfer : Event → Option ℕ → Option ℕ → Type 0 where
  keeps : {e : Event} {o : Option ℕ} → Transfer e o o
  granted : {origin : ℕ} → origin ≢ 0 → Transfer (start_request origin) none (some origin)
  returned : {origin : ℕ} → Transfer (stop_request origin) (some origin) none
  timed_out : {clip : ℕ} {o : Option ℕ} → Transfer (stop_timer clip) o none
  limited : {l : ℕ} {o : Option ℕ} → Transfer (audio l) o none
  failed : {outcome : Outcome} {o : Option ℕ} → Transfer (manager_acts outcome) o none
  shut : {o : Option ℕ} → Transfer shut_down o none

pub data Transfers : List Event → Option ℕ → Option ℕ → Type 0 where
  done : {o : Option ℕ} → Transfers [] o o
  after :
      {e : Event} {es : List Event} {o o' o'' : Option ℕ}
      → Transfer e o o'
      → Transfers es o' o''
      → Transfers (e ∷ es) o o''
