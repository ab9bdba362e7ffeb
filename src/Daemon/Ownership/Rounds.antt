-- ===== src/Daemon/Ownership/Rounds.antt =====
-- The owner across a round of the stream manager: internal/daemon/stream.go.
use talk2text.Prelude.{
  ℕ, ◌≡◌, refl, ap, Bool, true, false, Bool-cases, inl, inr, Option, none, some, some-injective,
}
use talk2text.Daemon.{Session, StreamState, off, warm, recording, ◌is◌, Daemon, cancel_pending_stop}
use talk2text.Daemon.Manager.{
  Stream, Outcome, open_stream, fail_warm, fail_recording_with, fail_recording, manage_open,
  manage_closed, manage,
}
use talk2text.Daemon.System.{Machine, manager_acts}
use talk2text.Daemon.Ownership.{owner, Transfer, keeps, failed}

-- The manager keeps the owner, or ends the clip.
data KeepsOrEnds (o : Option ℕ) : Option ℕ → Type 0 where
  kept : KeepsOrEnds o o
  ended : KeepsOrEnds o none

fail_warm-KeepsOrEnds : (d : Daemon) → KeepsOrEnds (owner d) (owner (fail_warm d))
unfolding fail_warm
fail_warm-KeepsOrEnds d = elim (Bool-cases (d.desired is warm)) [
  | inl still ↦ rw still kept
  | inr other ↦ rw other kept
]

fail_recording_with-KeepsOrEnds :
    (active : Option Session) (d d' : Daemon)
    → fail_recording_with active d ≡ some d'
    → KeepsOrEnds (owner d) (owner d')
unfolding fail_recording_with cancel_pending_stop
fail_recording_with-KeepsOrEnds none d d' e = cc
fail_recording_with-KeepsOrEnds (some s) d d' e = rw (← some-injective _ _ e) ended

fail_recording-KeepsOrEnds :
    (d d' : Daemon) → fail_recording d ≡ some d' → KeepsOrEnds (owner d) (owner d')
unfolding fail_recording
fail_recording-KeepsOrEnds d d' e = elim (Bool-cases (d.desired is recording)) [
  | inl still ↦ fail_recording_with-KeepsOrEnds d.active d d' (rw still at e)
  | inr other ↦ rw (← some-injective _ _ (rw other at e)) kept
]

-- What a round of the manager may do to the owner.
RoundKeepsOrEnds : Daemon → Option (Daemon × Stream) → Type 0
RoundKeepsOrEnds d r =
    (d' : Daemon) (stream : Stream) → r ≡ some (d', stream) → KeepsOrEnds (owner d) (owner d')

round :
    (d d' : Daemon) (stream : Stream)
    → KeepsOrEnds (owner d) (owner d')
    → RoundKeepsOrEnds d (some (d', stream))
unfolding RoundKeepsOrEnds
round d d' stream k d'' stream' e = rw (← ap (λ r. r.0) (some-injective _ _ e)) k

failed_round :
    (d : Daemon) (stream : Stream) (r : Option Daemon)
    → fail_recording d ≡ r
    → RoundKeepsOrEnds d (elim r [ none ↦ none | some d' ↦ some (d', stream) ])
unfolding RoundKeepsOrEnds
failed_round d stream none e = λ d' stream' f. cc
failed_round d stream (some d') e = round d d' stream (fail_recording-KeepsOrEnds d d' e)

module _ (d : Daemon) where
  manage_closed-KeepsOrEnds : (desired : StreamState) → RoundKeepsOrEnds d (manage_closed desired d)
  unfolding manage_closed
  manage_closed-KeepsOrEnds off = round d d none kept
  manage_closed-KeepsOrEnds warm = round d (fail_warm d) none (fail_warm-KeepsOrEnds d)
  manage_closed-KeepsOrEnds recording = failed_round d none (fail_recording d) refl

  manage_open-KeepsOrEnds :
      (desired : StreamState) (works started : Bool)
      → RoundKeepsOrEnds d (manage_open desired works started d)
  unfolding manage_open
  manage_open-KeepsOrEnds off works started = round d d none kept
  manage_open-KeepsOrEnds warm true started = round d d (some false) kept
  manage_open-KeepsOrEnds warm false started = round d (fail_warm d) _ (fail_warm-KeepsOrEnds d)
  manage_open-KeepsOrEnds recording true started = round d d (some true) kept
  manage_open-KeepsOrEnds recording false started = failed_round d _ (fail_recording d) refl

  manage_with-KeepsOrEnds :
      (desired : StreamState) (works : Bool) (opened : Stream)
      → RoundKeepsOrEnds d (elim opened [
        | none ↦ manage_closed desired d
        | some started ↦ manage_open desired works started d
      ])
  manage_with-KeepsOrEnds desired works none = manage_closed-KeepsOrEnds desired
  manage_with-KeepsOrEnds desired works (some started) =
      manage_open-KeepsOrEnds desired works started

  manage-KeepsOrEnds :
      (desired : StreamState) (outcome : Outcome) (stream : Stream)
      → RoundKeepsOrEnds d (manage desired outcome d stream)
  unfolding manage
  manage-KeepsOrEnds off outcome stream = round d d none kept
  manage-KeepsOrEnds warm outcome stream =
      manage_with-KeepsOrEnds warm outcome.works (open_stream outcome.opens stream)
  manage-KeepsOrEnds recording outcome stream =
      manage_with-KeepsOrEnds recording outcome.works (open_stream outcome.opens stream)

manager_may :
    (outcome : Outcome) (o o' : Option ℕ) → KeepsOrEnds o o' → Transfer (manager_acts outcome) o o'
manager_may outcome o _ kept = keeps
manager_may outcome o _ ended = failed

pub acts-Transfer :
    (m m' : Machine) (outcome : Outcome) (reading : Option StreamState)
    → elim reading [
      | none ↦ some m
      | some desired ↦ elim (manage desired outcome m.daemon m.stream) [
        | none ↦ none
        | some (d, stream) ↦ some (record { daemon = d; stream = stream; reading = none })
      ]
    ]
      ≡ some m'
    → Transfer (manager_acts outcome) (owner m.daemon) (owner m'.daemon)
unfolding RoundKeepsOrEnds
acts-Transfer m m' outcome none e = rw (← some-injective _ _ e) keeps
acts-Transfer m m' outcome (some desired) e =
    managed (manage desired outcome m.daemon m.stream) e
      (manage-KeepsOrEnds m.daemon desired outcome m.stream)
  where
    managed :
        (r : Option (Daemon × Stream))
        → elim r [
          | none ↦ none
          | some (d, stream) ↦ some (record { daemon = d; stream = stream; reading = none })
        ]
          ≡ some m'
        → RoundKeepsOrEnds m.daemon r
        → Transfer (manager_acts outcome) (owner m.daemon) (owner m'.daemon)
    managed none f k = cc
    managed (some (d, stream)) f k =
        rw (← some-injective _ _ f) (manager_may outcome _ _ (k d stream refl))
