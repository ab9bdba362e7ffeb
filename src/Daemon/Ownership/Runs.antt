-- ===== src/Daemon/Ownership/Runs.antt =====
-- The owner across any sequence of events.
use talk2text.Prelude.{◌≡◌, refl, Option, none, some, some-injective, List, [], ◌∷◌}
use talk2text.Daemon.{
  Config, cancel_pending_stop, stop, stop_fires, warm_fires, take_clip, shutdown,
}
use talk2text.Daemon.System.{
  Machine, Event, start_request, stop_request, stop_timer, audio, warm_timer, http_request,
  manager_reads, shut_down, manager_acts, step, run,
}
use talk2text.Daemon.Ownership.{owner, Transfer, keeps, shut, Transfers, done, after}
use talk2text.Daemon.Ownership.Requests.{
  start-Transfer, stop_with-Transfer, stop_fires_with-Transfer, on_audio-Transfer,
  warm_fires_with-owner,
}
use talk2text.Daemon.Ownership.Rounds.{acts-Transfer}

pub step-Transfer :
    (cfg : Config) (e : Event) (m m' : Machine)
    → step cfg e m ≡ some m'
    → Transfer e (owner m.daemon) (owner m'.daemon)
unfolding step
step-Transfer cfg (start_request origin) m m' f =
    rw (← some-injective _ _ f) (start-Transfer origin m.daemon)
step-Transfer cfg (stop_request origin) m m' f =
    rw (← some-injective _ _ f)
      (unfold stop in stop_with-Transfer cfg m.daemon.active origin m.daemon refl)
step-Transfer cfg (stop_timer clip) m m' f =
    rw (← some-injective _ _ f)
      (unfold stop_fires in stop_fires_with-Transfer cfg m.daemon.active clip m.daemon refl)
step-Transfer cfg (audio l) m m' f = rw (← some-injective _ _ f) (on_audio-Transfer cfg l m.daemon)
step-Transfer cfg warm_timer m m' f =
    rw (← some-injective _ _ f)
      (unfold warm_fires in rw (warm_fires_with-owner m.daemon.active m.daemon) keeps)
step-Transfer cfg http_request m m' f = rw (← some-injective _ _ f) (unfold take_clip in keeps)
step-Transfer cfg shut_down m m' f =
    rw (← some-injective _ _ f) (unfold shutdown cancel_pending_stop in shut)
step-Transfer cfg manager_reads m m' f = rw (← some-injective _ _ f) keeps
step-Transfer cfg (manager_acts outcome) m m' f = acts-Transfer m m' outcome m.reading f

-- Each run of the daemon over a list of events is a run of the abstract recorder with an owner or
-- none: a start request gives a free recorder to who asks, never without a name, a stop request
-- takes it only from who asks, a stop timer, audio, the manager and the shutdown can only free it,
-- and every other step keeps the owner.
pub run-Transfers :
    (cfg : Config) (es : List Event) (m m' : Machine)
    → run cfg es m ≡ some m'
    → Transfers es (owner m.daemon) (owner m'.daemon)
unfolding run
run-Transfers cfg [] m m' f = rw (← some-injective _ _ f) done
run-Transfers cfg (e ∷ es) m m' f =
    from_step (step cfg e m) refl (λ next. run-Transfers cfg es next m') f
  where
    from_step :
        (r : Option Machine)
        → step cfg e m ≡ r
        → ((next : Machine)
            → run cfg es next ≡ some m'
            → Transfers es (owner next.daemon) (owner m'.daemon))
        → elim r [ none ↦ none | some next ↦ run cfg es next ] ≡ some m'
        → Transfers (e ∷ es) (owner m.daemon) (owner m'.daemon)
    from_step none g rest h = cc
    from_step (some next) g rest h = after (step-Transfer cfg e m next g) (rest next h)
