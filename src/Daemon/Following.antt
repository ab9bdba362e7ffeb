-- ===== src/Daemon/Following.antt =====
-- internal/daemon/stream.go: the manager's loop brings the stream to the state that is desired, or
-- gives this state up.
use talk2text.Prelude.{
  ◌≡◌, refl, sym, ◌∙◌, ap, Bool, some-injective, true, false, ◌&&◌, ◌⊎◌, inl, inr, if◌then◌else◌,
  Option, none, some, List, [], ◌∷◌,
}
use mathlib.Core.Path.{subst}
use talk2text.Daemon.{
  Config, Session, StreamState, off, warm, recording, ◌is◌, Daemon, cancel_pending_stop,
}
use talk2text.Daemon.Manager.{
  Stream, Outcome, open_stream, fail_warm, fail_recording_with, fail_recording, manage_open,
  manage_closed, manage,
}
use talk2text.Daemon.Invariant.{IsDaemon, is_some}
use talk2text.Daemon.System.{
  Machine, Event, manager_reads, manager_acts, step, run, boot, GoesOn, run-GoesOn,
}

-- What the microphone's stream is for a desired state: closed, open, or open and started.
unfoldable pub wanted : StreamState → Stream
wanted off = none
wanted warm = some false
wanted recording = some true

-- The daemon is as before, or the audio library has failed and the daemon is idle.
pub record HasTried (outcome : Outcome) (before d : Daemon) (stream : Stream) : Type 0 where
  pub agrees : stream ≡ wanted d.desired
  pub given_up :
      (d ≡ before)
      ⊎ ((outcome.opens && outcome.works ≡ false) × (d.desired ≡ off) × (d.active ≡ none))
  pub not_handed_on : d.transcribed ≡ before.transcribed

-- A round of the manager.
record Tries (outcome : Outcome) (d : Daemon) (r : Option (Daemon × Stream)) : Type 0 where
  after : Daemon
  stream : Stream
  returns : r ≡ some (after, stream)
  tried : HasTried outcome d after stream

inactive : (active : Option Session) → is_some active ≡ false → active ≡ none
inactive none e = refl
inactive (some s) e = cc

the_active : (active : Option Session) → is_some active ≡ true → (s : Session) × (active ≡ some s)
the_active none e = cc
the_active (some s) e = (s, refl)

unworking : (opens works : Bool) → works ≡ false → opens && works ≡ false
unworking true works e = e
unworking false works e = refl

module _ (d : Daemon) (v : IsDaemon d) (outcome : Outcome) where
  obeyed :
      (desired : StreamState) → d.desired ≡ desired → Tries outcome d (some (d, wanted desired))
  obeyed desired e = record {
    after = d;
    stream = wanted desired;
    returns = refl;
    tried = record { agrees = sym (ap wanted e); given_up = inl refl; not_handed_on = refl };
  }

  fail_warm-Tries :
      d.desired ≡ warm
      → outcome.opens && outcome.works ≡ false
      → Tries outcome d (some (fail_warm d, none))
  unfolding fail_warm wanted
  fail_warm-Tries e failed =
      let quiet : is_some d.active ≡ false = sym v.records ∙ ap (λ s. s is recording) e in
      rw e (record {
        after = record d { desired = off };
        stream = none;
        returns = refl;
        tried = record {
          agrees = refl;
          given_up = inr (failed, refl, inactive d.active quiet);
          not_handed_on = refl;
        };
      })

  fail_recording-Tries :
      d.desired ≡ recording
      → outcome.opens && outcome.works ≡ false
      → Tries outcome d (elim (fail_recording d) [ none ↦ none | some d' ↦ some (d', none) ])
  unfolding fail_recording fail_recording_with wanted cancel_pending_stop
  fail_recording-Tries e failed =
      let (s, there) = the_active d.active (sym v.records ∙ ap (λ s. s is recording) e) in
      rw (e, there)
        (record {
          after = record (cancel_pending_stop d) { active = none; desired = off };
          stream = none;
          returns = refl;
          tried = record {
            agrees = refl;
            given_up = inr (failed, refl, refl);
            not_handed_on = refl;
          };
        })

  manage_open-Tries :
      (desired : StreamState) (works started : Bool)
      → d.desired ≡ desired
      → outcome.works ≡ works
      → Tries outcome d (manage_open desired works started d)
  unfolding manage_open wanted
  manage_open-Tries off works started e w = obeyed off e
  manage_open-Tries warm true started e w = obeyed warm e
  manage_open-Tries warm false started e w =
      let still : (d.desired is warm) ≡ true = ap (λ s. s is warm) e in
      subst (λ b. Tries outcome d (some (fail_warm d, if b then none else some started)))
        (sym still) (fail_warm-Tries e (unworking outcome.opens outcome.works w))
  manage_open-Tries recording true started e w = obeyed recording e
  manage_open-Tries recording false started e w =
      let still : (d.desired is recording) ≡ true = ap (λ s. s is recording) e in
      subst
        (λ b. Tries outcome d (elim (fail_recording d) [
          | none ↦ none
          | some d' ↦ some (d', if b then none else some started)
        ]))
        (sym still) (fail_recording-Tries e (unworking outcome.opens outcome.works w))

  manage_closed-Tries :
      (desired : StreamState)
      → d.desired ≡ desired
      → outcome.opens ≡ false
      → Tries outcome d (manage_closed desired d)
  unfolding manage_closed wanted
  manage_closed-Tries off e w = obeyed off e
  manage_closed-Tries warm e w = fail_warm-Tries e (rw w refl)
  manage_closed-Tries recording e w = fail_recording-Tries e (rw w refl)

  manage_with-Tries :
      (desired : StreamState) (opens : Bool) (stream : Stream)
      → d.desired ≡ desired
      → outcome.opens ≡ opens
      → Tries outcome d (elim (open_stream opens stream) [
        | none ↦ manage_closed desired d
        | some started ↦ manage_open desired outcome.works started d
      ])
  unfolding open_stream
  manage_with-Tries desired opens (some started) e w =
      manage_open-Tries desired outcome.works started e refl
  manage_with-Tries desired true none e w = manage_open-Tries desired outcome.works false e refl
  manage_with-Tries desired false none e w = manage_closed-Tries desired e w

  manage-Tries :
      (desired : StreamState) (stream : Stream)
      → d.desired ≡ desired
      → Tries outcome d (manage desired outcome d stream)
  unfolding manage wanted
  manage-Tries off stream e = obeyed off e
  manage-Tries warm stream e = manage_with-Tries warm outcome.opens stream e refl
  manage-Tries recording stream e = manage_with-Tries recording outcome.opens stream e refl

-- The manager reads the desired state of a machine and then acts on it.
pub record Follows (cfg : Config) (m : Machine) (outcome : Outcome) : Type 0 where
  pub after : Machine
  pub returns : run cfg (manager_reads ∷ manager_acts outcome ∷ []) m ≡ some after
  pub tried : HasTried outcome m.daemon after.daemon after.stream

follows :
    (cfg : Config) (m : Machine) (outcome : Outcome) → IsDaemon m.daemon → Follows cfg m outcome
unfolding run step
follows cfg m outcome v =
    let t = manage-Tries m.daemon v outcome m.daemon.desired m.stream refl in
    record {
      after = record { daemon = t.after; stream = t.stream; reading = none };
      returns = rw (run, t.returns) refl;
      tried = t.tried;
    }

same_end : (r : Option Machine) (m : Machine) (g : GoesOn r) → r ≡ some m → IsDaemon m.daemon
same_end r m g e = rw (← some-injective _ _ (sym g.returns ∙ e)) g.valid

-- From every machine that a run of the daemon reaches, when the manager reads the desired state
-- and then acts on it with no other step between, there is no panic for any answer of the audio
-- library, and afterwards the stream is closed, open or started as the state that is then desired
-- asks; the daemon is as before, or the library refused to open a stream, to start or to stop it,
-- and then the daemon is idle, with no active clip and the microphone off; no clip is handed on.
pub run-Follows :
    (cfg : Config) (es : List Event) (m : Machine) (outcome : Outcome)
    → run cfg es boot ≡ some m
    → Follows cfg m outcome
run-Follows cfg es m outcome e = follows cfg m outcome (same_end _ m (run-GoesOn cfg es) e)
