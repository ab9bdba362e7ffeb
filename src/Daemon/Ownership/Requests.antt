-- ===== src/Daemon/Ownership/Requests.antt =====
-- The owner across requests, timers and audio: internal/daemon/daemon.go.
use talk2text.Prelude.{
  ℕ, ◌≡◌, ◌≢◌, refl, true, not, ◌||◌, ◌&&◌, leb, Bool-cases, inl, inr, if◌then◌else◌, ◌==◌, Option,
  none, some, arith,
}
use talk2text.Daemon.{
  Config, Session, Daemon, new_session, on_pcm, pcm_duration, begin, owns, cancel_pending_stop,
  start_with, start, stop_active_session, stop_with, stop_fires_with, end_clip, transcribe,
  on_audio_with, on_audio, warm_fires_with,
}
use talk2text.Daemon.System.{start_request, stop_request, stop_timer, audio}
use talk2text.Daemon.Ownership.{
  owner_of, owner, Transfer, keeps, granted, returned, timed_out, limited,
}

owns-origin : (origin : ℕ) (s : Session) → owns origin s ≡ true → s.origin_id ≡ origin
unfolding owns
owns-origin origin s e = ground arith

begin-owner :
    (origin : ℕ) (stopped : Option ℕ) (d : Daemon) → owner (begin origin stopped d) ≡ some origin
unfolding begin new_session cancel_pending_stop
begin-owner origin none d = refl
begin-owner origin (some clip) d = refl

start_with-Transfer :
    (active : Option Session) (origin : ℕ) (d : Daemon)
    → d.active ≡ active
    → origin ≢ 0
    → Transfer (start_request origin) (owner_of active) (owner (start_with active origin d).0)
unfolding start_with
start_with-Transfer none origin d e named = rw (begin-owner origin none d) (granted named)
start_with-Transfer (some s) origin d e named = elim (Bool-cases (owns origin s)) [
  | inr other ↦ rw (other, e) keeps
  | inl mine ↦
      let stopped = if s.id == d.pending_stop_clip then some s.id else none in
      rw (mine, begin-owner origin stopped d, owns-origin origin s mine) keeps
]

pub start-Transfer :
    (origin : ℕ) (d : Daemon) → Transfer (start_request origin) (owner d) (owner (start origin d).0)
unfolding start
start-Transfer origin d = elim (Bool-cases (origin == 0)) [
  | inl nameless ↦ rw nameless keeps
  | inr named ↦ rw named (start_with-Transfer d.active origin d refl (ground arith))
]

module _ (cfg : Config) where
  pub stop_with-Transfer :
      (active : Option Session) (origin : ℕ) (d : Daemon)
      → d.active ≡ active
      → Transfer (stop_request origin) (owner_of active) (owner (stop_with cfg active origin d))
  unfolding stop_with stop_active_session cancel_pending_stop
  stop_with-Transfer none origin d e = rw e keeps
  stop_with-Transfer (some s) origin d e = elim (Bool-cases (origin == 0 || not (owns origin s))) [
    | inl other ↦ rw (other, e) keeps
    | inr mine ↦
        let same : s.origin_id ≡ origin = owns-origin origin s (ground arith) in
        elim (Bool-cases (cfg.stop_delay == 0)) [
          | inl now ↦ rw (mine, now, same) returned
          | inr later ↦ elim (Bool-cases (d.pending_stop_clip == s.id)) [
            | inl again ↦ rw (mine, later, again, e) keeps
            | inr first ↦ elim (Bool-cases (d.pending_stop_clip == 0)) [
              | inl free ↦ rw (mine, later, first, free, e) keeps
              | inr taken ↦ rw (mine, later, first, taken, same) returned
            ]
          ]
        ]
  ]

  pub stop_fires_with-Transfer :
      (active : Option Session) (clip : ℕ) (d : Daemon)
      → d.active ≡ active
      → Transfer (stop_timer clip) (owner_of active) (owner (stop_fires_with cfg active clip d))
  unfolding stop_fires_with stop_active_session cancel_pending_stop
  stop_fires_with-Transfer none clip d e = rw e keeps
  stop_fires_with-Transfer (some s) clip d e =
      elim (Bool-cases (not (s.id == clip) || not (d.pending_stop_clip == clip))) [
        | inl stale ↦ rw (stale, e) keeps
        | inr meant ↦ rw meant timed_out
      ]

  heard_origin : (l : ℕ) (s s' : Session) → on_pcm l s ≡ some s' → s'.origin_id ≡ s.origin_id
  unfolding on_pcm pcm_duration
  heard_origin l s s' e = ground arith

  on_audio_result-Transfer :
      (l : ℕ) (s : Session) (d : Daemon) (r : Option Session)
      → on_pcm l s ≡ r
      → Transfer (audio l) (some s.origin_id) (
          owner (elim r [
            | none ↦ end_clip d
            | some s' ↦
                if not (cfg.max_duration == 0) && leb cfg.max_duration s'.duration
                then transcribe s'.id (end_clip d)
                else record d { active = some s' }
          ]))
  unfolding end_clip cancel_pending_stop
  on_audio_result-Transfer l s d none e = limited
  on_audio_result-Transfer l s d (some s') e =
      elim (Bool-cases (not (cfg.max_duration == 0) && leb cfg.max_duration s'.duration)) [
        | inl long ↦ rw long limited
        | inr short ↦ rw (short, heard_origin l s s' e) keeps
      ]

  on_audio_with-Transfer :
      (active : Option Session) (l : ℕ) (d : Daemon)
      → d.active ≡ active
      → Transfer (audio l) (owner_of active) (owner (on_audio_with cfg active l d))
  unfolding on_audio_with
  on_audio_with-Transfer none l d e = rw e keeps
  on_audio_with-Transfer (some s) l d e = on_audio_result-Transfer l s d (on_pcm l s) refl

  pub on_audio-Transfer :
      (l : ℕ) (d : Daemon) → Transfer (audio l) (owner d) (owner (on_audio cfg l d))
  unfolding on_audio
  on_audio-Transfer l d = elim (Bool-cases (l == 0)) [
    | inl silent ↦ rw silent keeps
    | inr heard ↦ rw heard (on_audio_with-Transfer d.active l d refl)
  ]

pub warm_fires_with-owner :
    (active : Option Session) (d : Daemon) → owner (warm_fires_with active d) ≡ owner d
unfolding warm_fires_with
warm_fires_with-owner none d = refl
warm_fires_with-owner (some s) d = refl
