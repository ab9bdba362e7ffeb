-- ===== src/Daemon/Invariant/Steps.antt =====
-- internal/daemon/daemon.go: the operations that stop, time out, receive audio or shut down, and the
-- invariant.
use talk2text.Prelude.{
  ℕ, ◌+◌, ◌≡◌, refl, false, not, inl, inr, leb, ◌&&◌, ◌||◌, Bool-cases, if◌then◌else◌, ◌==◌, Option,
  none, some, ◌∷◌, arith,
}
use talk2text.Daemon.{
  Config, Session, off, warm, recording, ◌is◌, Daemon, on_pcm, pcm_duration, cancel_pending_stop,
  owns, stop_active_session, stop_with, stop, stop_fires_with, stop_fires, warm_fires_with,
  warm_fires, end_clip, on_audio_with, on_audio, transcribe, take_clip, shutdown,
}
use talk2text.Daemon.Invariant.{IsActive, IsDaemon, All-below, hand_over, end_with, handed}

module _ (cfg : Config) (d : Daemon) (v : IsDaemon d) where
  quiet : ((if cfg.warm_retention == 0 then off else warm) is recording) ≡ false
  quiet = ground arith

  stop_active_session-IsDaemon :
      (s : Session) → IsActive d (some s) → IsDaemon (stop_active_session cfg s d)
  unfolding stop_active_session
  stop_active_session-IsDaemon s a =
      end_with d (if cfg.warm_retention == 0 then off else warm) (not (cfg.warm_retention == 0))
        (s.id ∷ d.transcribed) v.positive quiet (hand_over d s v a)

  stop_with-IsDaemon :
      (active : Option Session) (origin : ℕ)
      → d.active ≡ active
      → IsActive d active
      → IsDaemon (stop_with cfg active origin d)
  unfolding stop_with
  stop_with-IsDaemon none origin e a = v
  stop_with-IsDaemon (some s) origin e a =
      let stopped = stop_active_session-IsDaemon s a in
      let wait : IsDaemon (record d { pending_stop_clip = s.id; stop_timer = some s.id }) = record {
        positive = v.positive;
        current = rw e (a.0, a.1, a.2, inr refl);
        records = v.records;
        timer = ground arith;
        below = v.below;
        once = v.once;
      } in
      elim (Bool-cases (origin == 0 || not (owns origin s))) [
        | inl other ↦ rw other v
        | inr owner ↦ elim (Bool-cases (cfg.stop_delay == 0)) [
          | inl now ↦ rw (owner, now) stopped
          | inr later ↦ elim (Bool-cases (d.pending_stop_clip == s.id)) [
            | inl again ↦ rw (owner, later, again) v
            | inr first ↦ elim (Bool-cases (d.pending_stop_clip == 0)) [
              | inl free ↦ rw (owner, later, first, free) wait
              | inr taken ↦ rw (owner, later, first, taken) stopped
            ]
          ]
        ]
      ]

  pub stop-IsDaemon : (origin : ℕ) → IsDaemon (stop cfg origin d)
  unfolding stop
  stop-IsDaemon origin = stop_with-IsDaemon d.active origin refl v.current

  stop_fires_with-IsDaemon :
      (active : Option Session) (clip : ℕ)
      → IsActive d active
      → IsDaemon (stop_fires_with cfg active clip d)
  unfolding stop_fires_with
  stop_fires_with-IsDaemon none clip a = v
  stop_fires_with-IsDaemon (some s) clip a =
      elim (Bool-cases (not (s.id == clip) || not (d.pending_stop_clip == clip))) [
        | inl stale ↦ rw stale v
        | inr meant ↦ rw meant (stop_active_session-IsDaemon s a)
      ]

  pub stop_fires-IsDaemon : (clip : ℕ) → IsDaemon (stop_fires cfg clip d)
  unfolding stop_fires
  stop_fires-IsDaemon clip = stop_fires_with-IsDaemon d.active clip v.current

  warm_fires_with-IsDaemon :
      (active : Option Session) → d.active ≡ active → IsDaemon (warm_fires_with active d)
  unfolding warm_fires_with
  warm_fires_with-IsDaemon none e = record {
    positive = v.positive;
    current = v.current;
    records = rw e refl;
    timer = v.timer;
    below = v.below;
    once = v.once;
  }
  warm_fires_with-IsDaemon (some s) e = v

  pub warm_fires-IsDaemon : IsDaemon (warm_fires d)
  unfolding warm_fires
  warm_fires-IsDaemon = warm_fires_with-IsDaemon d.active refl

  -- More audio changes neither the number nor the owner of the session.
  heard :
      (l : ℕ) (s s' : Session)
      → on_pcm l s ≡ some s'
      → (s'.id ≡ s.id) × (s'.origin_id ≡ s.origin_id)
  unfolding on_pcm pcm_duration
  heard l s s' e = ground arith

  end_clip-IsDaemon : IsDaemon (end_clip d)
  unfolding end_clip cancel_pending_stop
  end_clip-IsDaemon = end_with d warm d.warm_timer d.transcribed v.positive refl (handed d v)

  on_audio_result :
      (l : ℕ) (s : Session) (r : Option Session)
      → d.active ≡ some s
      → IsActive d (some s)
      → on_pcm l s ≡ r
      → IsDaemon (elim r [
        | none ↦ end_clip d
        | some s' ↦
            if not (cfg.max_duration == 0) && leb cfg.max_duration s'.duration
            then transcribe s'.id (end_clip d)
            else record d { active = some s' }
      ])
  on_audio_result l s none e a r = end_clip-IsDaemon
  on_audio_result l s (some s') e a r =
      let same = (heard l s s' r).0 in
      let still : IsActive d (some s') = rw same a in
      elim (Bool-cases (not (cfg.max_duration == 0) && leb cfg.max_duration s'.duration)) [
        | inl long ↦ rw long (
            unfold end_clip in
            end_with d warm d.warm_timer (s'.id ∷ d.transcribed) v.positive refl
              (hand_over d s' v still))
        | inr short ↦ rw short (record {
          positive = v.positive;
          current = still;
          records = rw e at v.records;
          timer = v.timer;
          below = v.below;
          once = v.once;
        })
      ]

  on_audio_with-IsDaemon :
      (active : Option Session) (l : ℕ)
      → d.active ≡ active
      → IsActive d active
      → IsDaemon (on_audio_with cfg active l d)
  unfolding on_audio_with
  on_audio_with-IsDaemon none l e a = v
  on_audio_with-IsDaemon (some s) l e a = on_audio_result l s (on_pcm l s) e a refl

  pub on_audio-IsDaemon : (l : ℕ) → IsDaemon (on_audio cfg l d)
  unfolding on_audio
  on_audio-IsDaemon l = elim (Bool-cases (l == 0)) [
    | inl silent ↦ rw silent v
    | inr heard ↦ rw heard (on_audio_with-IsDaemon d.active l refl v.current)
  ]

  pub take_clip-IsDaemon : IsDaemon (take_clip d)
  unfolding take_clip
  take_clip-IsDaemon = record {
    positive = omega (arith, v.positive);
    current = later d.active v.current;
    records = v.records;
    timer = v.timer;
    below = All-below d.next_clip (d.next_clip + 1) d.transcribed (omega arith) v.below;
    once = v.once;
  }
    where
      later :
          (active : Option Session)
          → IsActive d active
          → IsActive (record d { next_clip = d.next_clip + 1 }) active
      later none a = a
      later (some s) a = (a.0, omega (arith, a.1), a.2, a.3)

  pub shutdown-IsDaemon : IsDaemon (shutdown d)
  unfolding shutdown cancel_pending_stop
  shutdown-IsDaemon = end_with d off false d.transcribed v.positive refl (handed d v)
