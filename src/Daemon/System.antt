-- ===== src/Daemon/System.antt =====
-- The daemon as a system of steps: requests, timers, audio and the stream manager, in any order.
use talk2text.Prelude.{
  ℕ, ◌≡◌, refl, sym, ◌∙◌, Bool, true, false, Bool-cases, inl, inr, Option, none, some, List, [],
  ◌∷◌,
}
use talk2text.Daemon.{
  Config, Session, StreamState, off, warm, recording, ◌is◌, Daemon, init, cancel_pending_stop,
  start, stop, stop_fires, warm_fires, on_audio, take_clip, shutdown,
}
use talk2text.Daemon.Manager.{
  Stream, Outcome, open_stream, fail_warm, fail_recording_with, fail_recording, manage_open,
  manage_closed, manage,
}
use talk2text.Daemon.Invariant.{IsDaemon, is_some, handed, end_with, init-IsDaemon, start-IsDaemon}
use talk2text.Daemon.Invariant.Steps.{
  stop-IsDaemon, stop_fires-IsDaemon, warm_fires-IsDaemon, on_audio-IsDaemon, take_clip-IsDaemon,
  shutdown-IsDaemon,
}

-- The daemon, its stream, and what the manager works on: a state that it has read, or nothing.
pub record Machine : Type 0 where
  pub daemon : Daemon
  pub stream : Stream
  pub reading : Option StreamState

-- A callback may come long after its timer was stopped, and for any clip. The manager may look
-- at the desired state at any time, also with no signal.
pub data Event : Type 0 where
  start_request stop_request stop_timer audio : ℕ → Event
  warm_timer http_request manager_reads shut_down : Event
  manager_acts : Outcome → Event

-- `none` is a panic.
unfoldable pub step : Config → Event → Machine → Option Machine
step cfg (start_request origin) m = some (record m { daemon = (start origin m.daemon).0 })
step cfg (stop_request origin) m = some (record m { daemon = stop cfg origin m.daemon })
step cfg (stop_timer clip) m = some (record m { daemon = stop_fires cfg clip m.daemon })
step cfg (audio l) m = some (record m { daemon = on_audio cfg l m.daemon })
step cfg warm_timer m = some (record m { daemon = warm_fires m.daemon })
step cfg http_request m = some (record m { daemon = take_clip m.daemon })
step cfg shut_down m = some (record m { daemon = shutdown m.daemon })
step cfg manager_reads m = some (record m { reading = some m.daemon.desired })
step cfg (manager_acts outcome) m = elim m.reading [
  | none ↦ some m
  | some desired ↦ elim (manage desired outcome m.daemon m.stream) [
    | none ↦ none
    | some (d, stream) ↦ some (record { daemon = d; stream = stream; reading = none })
  ]
]

unfoldable pub run : Config → List Event → Machine → Option Machine
run cfg [] m = some m
run cfg (e ∷ es) m = elim (step cfg e m) [ none ↦ none | some m' ↦ run cfg es m' ]

unfoldable pub boot : Machine
boot = record { daemon = init; stream = none; reading = none }

idle : (state : StreamState) → (state is warm) ≡ true → (state is recording) ≡ false
idle off e = refl
idle warm e = refl
idle recording e = sym e

fail_warm-IsDaemon : (d : Daemon) → IsDaemon d → IsDaemon (fail_warm d)
unfolding fail_warm
fail_warm-IsDaemon d v = elim (Bool-cases (d.desired is warm)) [
  | inr other ↦ rw other v
  | inl still ↦ rw still (record {
    positive = v.positive;
    current = v.current;
    records = sym (idle d.desired still) ∙ v.records;
    timer = v.timer;
    below = v.below;
    once = v.once;
  })
]

-- The step returned a daemon that is still in order.
abbrev Fine : Option Daemon → Type 0
Fine r = (d : Daemon) × (r ≡ some d) × IsDaemon d

fail_recording_with-Fine :
    (d : Daemon) (active : Option Session)
    → IsDaemon d
    → is_some active ≡ true
    → Fine (fail_recording_with active d)
unfolding fail_recording_with cancel_pending_stop
fail_recording_with-Fine d none v e = cc
fail_recording_with-Fine d (some s) v e =
    (_, refl, end_with d off d.warm_timer d.transcribed v.positive refl (handed d v))

fail_recording-Fine : (d : Daemon) → IsDaemon d → Fine (fail_recording d)
unfolding fail_recording
fail_recording-Fine d v = elim (Bool-cases (d.desired is recording)) [
  | inr other ↦ rw other (d, refl, v)
  | inl still ↦ rw still (fail_recording_with-Fine d d.active v (sym v.records ∙ still))
]

-- A round of the manager ends, with the daemon in order.
pub record Managed (r : Option (Daemon × Stream)) : Type 0 where
  pub after : Daemon
  pub stream : Stream
  pub returns : r ≡ some (after, stream)
  pub valid : IsDaemon after

managed : {d : Daemon} {stream : Stream} → IsDaemon d → Managed (some (d, stream))
managed {d} {stream} v = record { after = d; stream = stream; returns = refl; valid = v }

after_fail :
    (r : Option Daemon) (stream : Stream)
    → Fine r
    → Managed (elim r [ none ↦ none | some d' ↦ some (d', stream) ])
after_fail r stream (d, e, v) = rw e (managed v)

module _ (d : Daemon) (v : IsDaemon d) where
  manage_closed-Managed : (desired : StreamState) → Managed (manage_closed desired d)
  unfolding manage_closed
  manage_closed-Managed off = managed v
  manage_closed-Managed warm = managed (fail_warm-IsDaemon d v)
  manage_closed-Managed recording = after_fail _ _ (fail_recording-Fine d v)

  manage_open-Managed :
      (desired : StreamState) (works started : Bool) → Managed (manage_open desired works started d)
  unfolding manage_open
  manage_open-Managed off works started = managed v
  manage_open-Managed warm true started = managed v
  manage_open-Managed warm false started = managed (fail_warm-IsDaemon d v)
  manage_open-Managed recording true started = managed v
  manage_open-Managed recording false started = after_fail _ _ (fail_recording-Fine d v)

  manage_with-Managed :
      (desired : StreamState) (works : Bool) (opened : Stream)
      → Managed (elim opened [
        | none ↦ manage_closed desired d
        | some started ↦ manage_open desired works started d
      ])
  manage_with-Managed desired works none = manage_closed-Managed desired
  manage_with-Managed desired works (some started) = manage_open-Managed desired works started

  manage-Managed :
      (desired : StreamState) (outcome : Outcome) (stream : Stream)
      → Managed (manage desired outcome d stream)
  unfolding manage
  manage-Managed off outcome stream = managed v
  manage-Managed warm outcome stream =
      manage_with-Managed warm outcome.works (open_stream outcome.opens stream)
  manage-Managed recording outcome stream =
      manage_with-Managed recording outcome.works (open_stream outcome.opens stream)

-- The machine goes on, with the daemon in order.
pub record GoesOn (r : Option Machine) : Type 0 where
  pub after : Machine
  pub returns : r ≡ some after
  pub valid : IsDaemon after.daemon

goes_on : {m : Machine} → IsDaemon m.daemon → GoesOn (some m)
goes_on {m} v = record { after = m; returns = refl; valid = v }

acts :
    (m : Machine) (outcome : Outcome) (reading : Option StreamState)
    → IsDaemon m.daemon
    → GoesOn (elim reading [
      | none ↦ some m
      | some desired ↦ elim (manage desired outcome m.daemon m.stream) [
        | none ↦ none
        | some (d, stream) ↦ some (record { daemon = d; stream = stream; reading = none })
      ]
    ])
acts m outcome none v = goes_on v
acts m outcome (some desired) v =
    let r = manage-Managed m.daemon v desired outcome m.stream in rw r.returns (goes_on r.valid)

pub step-GoesOn :
    (cfg : Config) (e : Event) (m : Machine) → IsDaemon m.daemon → GoesOn (step cfg e m)
unfolding step
step-GoesOn cfg (start_request origin) m v = goes_on (start-IsDaemon m.daemon origin v)
step-GoesOn cfg (stop_request origin) m v = goes_on (stop-IsDaemon cfg m.daemon v origin)
step-GoesOn cfg (stop_timer clip) m v = goes_on (stop_fires-IsDaemon cfg m.daemon v clip)
step-GoesOn cfg (audio l) m v = goes_on (on_audio-IsDaemon cfg m.daemon v l)
step-GoesOn cfg warm_timer m v = goes_on (warm_fires-IsDaemon cfg m.daemon v)
step-GoesOn cfg http_request m v = goes_on (take_clip-IsDaemon cfg m.daemon v)
step-GoesOn cfg shut_down m v = goes_on (shutdown-IsDaemon cfg m.daemon v)
step-GoesOn cfg manager_reads m v = goes_on v
step-GoesOn cfg (manager_acts outcome) m v = acts m outcome m.reading v

run_from :
    (cfg : Config) (es : List Event) (m : Machine) → IsDaemon m.daemon → GoesOn (run cfg es m)
unfolding run
run_from cfg [] m v = goes_on v
run_from cfg (e ∷ es) m v =
    let next = step-GoesOn cfg e m v in
    rw (next.returns, run) (run_from cfg es next.after next.valid)

-- For every configuration and every list of requests, timers, audio blocks and rounds of the
-- stream manager with any outcome, a run from the start has no panic; at its end the stream is
-- asked to record exactly if a clip is active, the stop timer is the one of the pending stop, an
-- active clip was not handed on and a pending stop is for it, and no clip was handed on twice.
pub run-GoesOn : (cfg : Config) (es : List Event) → GoesOn (run cfg es boot)
unfolding boot
run-GoesOn cfg es = run_from cfg es boot init-IsDaemon
