-- ===== src/Examples/Daemons.antt =====
-- Runs of the daemon's capture.
use talk2text.Prelude.{◌≡◌, refl, true, false, none, some, List, [], ◌∷◌, arith}
use talk2text.Daemon.{Config, Session, recording, Daemon, init, start, stop, stop_fires, on_audio}
use talk2text.Daemon.System.{
  Machine, Event, start_request, stop_request, stop_timer, manager_reads, manager_acts, shut_down,
  step, run, boot, GoesOn, run-GoesOn,
}
use talk2text.Daemon.Ownership.{owner, Transfers}
use talk2text.Daemon.Ownership.Runs.{run-Transfers}
use talk2text.Daemon.Following.{Follows, run-Follows}
use talk2text.Daemon.Progress.{HasEnded, stop-ends, StaysOpen, on_audio-StaysOpen}

-- The defaults of the configuration: 100 s, 250 ms and 15 s.
abbrev defaults : Config
defaults = record {
  max_duration = 100_000_000_000;
  stop_delay = 250_000_000;
  warm_retention = 15_000_000_000;
}

-- Someone records, stops, starts again within the delay, and then the first clip's timer fires.
abbrev day : List Event
day =
    start_request 7
    ∷ manager_reads
    ∷ start_request 8
    ∷ stop_request 7
    ∷ start_request 7
    ∷ stop_timer 1
    ∷ manager_acts (record { opens = false; works = false })
    ∷ shut_down
    ∷ []

run-GoesOn_example : GoesOn (run defaults day boot)
run-GoesOn_example = run-GoesOn defaults day

abbrev session : Session
session = record { id = 1; origin_id = 7; buffer = 320; duration = 10_000_000 }

abbrev busy : Daemon
busy = record {
  active = some session;
  next_clip = 2;
  pending_stop_clip = 0;
  stop_timer = none;
  warm_timer = false;
  desired = recording;
  transcribed = [];
}

abbrev recorder : Machine
recorder = record { daemon = busy; stream = some true; reading = none }

stop-ends_example : HasEnded 1 busy (stop_fires defaults 1 (stop defaults 7 busy))
stop-ends_example = stop-ends defaults busy session 7 refl (λ e. omega arith) refl

-- One request and its answer.
abbrev recorded : Machine
recorded = record { daemon = (start 7 init).0; stream = none; reading = none }

one_start : run defaults (start_request 7 ∷ []) boot ≡ some recorded
unfolding run step boot
one_start = refl

run-Follows_example : Follows defaults recorded (record { opens = true; works = false })
run-Follows_example =
    run-Follows defaults (start_request 7 ∷ []) recorded (record { opens = true; works = false })
      one_start

run-Transfers_example : Transfers (start_request 7 ∷ []) (owner boot.daemon) (owner recorded.daemon)
run-Transfers_example = run-Transfers defaults (start_request 7 ∷ []) boot recorded one_start

-- 100 s of audio in one piece.
on_audio-StaysOpen_example :
    StaysOpen 2
      (record busy { active = none })
      (on_audio defaults 3_200_000 (start 7 (record busy { active = none })).0)
on_audio-StaysOpen_example =
    on_audio-StaysOpen defaults (record busy { active = none }) 7 3_200_000 refl (λ e. omega arith)
      (λ e. omega arith) refl (omega arith)
