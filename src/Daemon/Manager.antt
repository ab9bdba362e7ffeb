-- ===== src/Daemon/Manager.antt =====
-- internal/daemon/stream.go: the manager that makes the microphone stream follow the desired state.
use talk2text.Prelude.{Bool, true, false, if◌then◌else◌, Option, none, some}
use talk2text.Daemon.{Session, StreamState, off, warm, recording, ◌is◌, Daemon, cancel_pending_stop}

-- The stream of the manager: closed, or open and started or not.
abbrev pub Stream : Type 0
Stream = Option Bool

-- What the audio library answers: whether a stream opens, and whether it then starts or stops.
pub record Outcome : Type 0 where
  pub opens : Bool
  pub works : Bool

-- `openStream`: a stream that is open stays as it is, and a closed one is the error.
unfoldable pub open_stream : Bool → Stream → Stream
open_stream opens (some started) = some started
open_stream opens none = if opens then some false else none

-- The manager gives up to stay warm.
unfoldable pub fail_warm : Daemon → Daemon
fail_warm d = if d.desired is warm then record d { desired = off } else d

-- The manager gives up to record: `none` is a use of the session where there is none, a panic.
unfoldable pub fail_recording_with : Option Session → Daemon → Option Daemon
unfolding cancel_pending_stop
fail_recording_with none d = none
fail_recording_with (some s) d =
    some (record (cancel_pending_stop d) { active = none; desired = off })

unfoldable pub fail_recording : Daemon → Option Daemon
unfolding fail_recording_with
fail_recording d = if d.desired is recording then fail_recording_with d.active d else some d

-- A round of `streamManager` for the state `desired` that it has read before; other requests may
-- have been served since. A failed `Stop` or `Start` closes the stream unless the desired state
-- has changed.
unfoldable pub manage_open : StreamState → Bool → Bool → Daemon → Option (Daemon × Stream)
unfolding fail_warm fail_recording
manage_open off works started d = some (d, none)
manage_open warm true started d = some (d, some false)
manage_open warm false started d =
    some (fail_warm d, if d.desired is warm then none else some started)
manage_open recording true started d = some (d, some true)
manage_open recording false started d = elim (fail_recording d) [
  | none ↦ none
  | some d' ↦ some (d', if d.desired is recording then none else some started)
]

unfoldable pub manage_closed : StreamState → Daemon → Option (Daemon × Stream)
unfolding fail_warm fail_recording
manage_closed off d = some (d, none)
manage_closed warm d = some (fail_warm d, none)
manage_closed recording d = elim (fail_recording d) [ none ↦ none | some d' ↦ some (d', none) ]

unfoldable pub manage : StreamState → Outcome → Daemon → Stream → Option (Daemon × Stream)
unfolding open_stream manage_open manage_closed
manage off outcome d stream = some (d, none)
manage desired outcome d stream = elim (open_stream outcome.opens stream) [
  | none ↦ manage_closed desired d
  | some started ↦ manage_open desired outcome.works started d
]
