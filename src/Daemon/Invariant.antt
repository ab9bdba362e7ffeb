-- ===== src/Daemon/Invariant.antt =====
-- internal/daemon/daemon.go: what is to hold of the daemon whenever its lock is free.
pub mod Steps
use talk2text.Prelude.{
  ℕ, zero, suc, ◌+◌, ◌≤◌, ◌<◌, ◌≡◌, ◌≢◌, refl, Bool, true, false, not, ◌⊎◌, inl, inr, leb, ◌&&◌,
  ◌||◌, Bool-cases, if◌then◌else◌, ltb, ◌==◌, Option, none, some, List, [], ◌∷◌, arith,
}
use talk2text.Mime.Reference.{All, Absent, Distinct}
use talk2text.Daemon.{
  Config, Session, StreamState, off, warm, recording, ◌is◌, Daemon, init, begin, new_session,
  on_pcm, pcm_duration, cancel_pending_stop, owns, start_with, start, stop_active_session,
  stop_with, stop, stop_fires_with, stop_fires, warm_fires_with, warm_fires, end_clip,
  on_audio_with, on_audio, transcribe, take_clip, shutdown,
}

abbrev pub is_some {ℓ} : {A : Type ℓ} → Option A → Bool
is_some none = false
is_some (some a) = true

-- The active clip was taken, was not handed on, and is the one that a pending stop is for.
abbrev pub IsActive : Daemon → Option Session → Type 0
IsActive d none = d.pending_stop_clip ≡ 0
IsActive d (some s) =
    (0 < s.id)
    × (s.id < d.next_clip)
    × Absent s.id d.transcribed
    × ((d.pending_stop_clip ≡ 0) ⊎ (d.pending_stop_clip ≡ s.id))

pub record IsDaemon (d : Daemon) : Type 0 where
  pub positive : 0 < d.next_clip
  pub current : IsActive d d.active
  pub records : (d.desired is recording) ≡ is_some d.active
  pub timer : d.stop_timer ≡ (if d.pending_stop_clip == 0 then none else some d.pending_stop_clip)
  pub below : All (λ clip. clip < d.next_clip) d.transcribed
  pub once : Distinct d.transcribed

pub init-IsDaemon : IsDaemon init
unfolding init
init-IsDaemon = record {
  positive = omega arith;
  current = refl;
  records = refl;
  timer = refl;
  below = tt;
  once = tt;
}

pub All-below :
    (m n : ℕ) (clips : List ℕ) → m ≤ n → All (λ clip. clip < m) clips → All (λ clip. clip < n) clips
All-below m n [] h w = tt
All-below m n (c ∷ cs) h w = (omega arith, All-below m n cs h w.1)

below-Absent : (n : ℕ) (clips : List ℕ) → All (λ clip. clip < n) clips → Absent n clips
below-Absent n [] w = tt
below-Absent n (c ∷ cs) w = (λ e. omega arith, below-Absent n cs w.1)

-- The clips handed on, once `s` is handed on too.
pub record AreHanded (n : ℕ) (clips : List ℕ) : Type 0 where
  pub small : All (λ clip. clip < n) clips
  pub distinct : Distinct clips

pub hand_over :
    (d : Daemon) (s : Session)
    → IsDaemon d
    → IsActive d (some s)
    → AreHanded d.next_clip (s.id ∷ d.transcribed)
hand_over d s v a = record { small = (a.1, v.below); distinct = (a.2, v.once) }

-- A new session, after the clips `clips`.
begin_with :
    (d : Daemon) (origin : ℕ) (clips : List ℕ)
    → 0 < d.next_clip
    → AreHanded d.next_clip clips
    → IsDaemon (record (cancel_pending_stop d) {
      warm_timer = false;
      next_clip = d.next_clip + 1;
      active = some (new_session d.next_clip origin);
      desired = recording;
      transcribed = clips;
    })
unfolding cancel_pending_stop new_session
begin_with d origin clips p h = record {
  positive = omega arith;
  current = (p, omega arith, below-Absent d.next_clip clips h.small, inl refl);
  records = refl;
  timer = refl;
  below = All-below d.next_clip (d.next_clip + 1) clips (omega arith) h.small;
  once = h.distinct;
}

-- No session, after the clips `clips`.
pub end_with :
    (d : Daemon) (state : StreamState) (warm_timer : Bool) (clips : List ℕ)
    → 0 < d.next_clip
    → (state is recording) ≡ false
    → AreHanded d.next_clip clips
    → IsDaemon (record (cancel_pending_stop d) {
      warm_timer = warm_timer;
      active = none;
      desired = state;
      transcribed = clips;
    })
unfolding cancel_pending_stop
end_with d state warm_timer clips p e h = record {
  positive = p;
  current = refl;
  records = e;
  timer = refl;
  below = h.small;
  once = h.distinct;
}

pub handed : (d : Daemon) → IsDaemon d → AreHanded d.next_clip d.transcribed
handed d v = record { small = v.below; distinct = v.once }

start_with-IsDaemon :
    (d : Daemon) (active : Option Session) (origin : ℕ)
    → IsDaemon d
    → IsActive d active
    → IsDaemon (start_with active origin d).0
unfolding start_with begin
start_with-IsDaemon d none origin v a = begin_with d origin d.transcribed v.positive (handed d v)
start_with-IsDaemon d (some s) origin v a = elim (Bool-cases (owns origin s)) [
  | inr other ↦ rw other v
  | inl owner ↦ elim (Bool-cases (s.id == d.pending_stop_clip)) [
    | inl stopping ↦
        rw (owner, stopping)
          (begin_with d origin (s.id ∷ d.transcribed) v.positive (hand_over d s v a))
    | inr going ↦ rw (owner, going) (begin_with d origin d.transcribed v.positive (handed d v))
  ]
]

pub start-IsDaemon : (d : Daemon) (origin : ℕ) → IsDaemon d → IsDaemon (start origin d).0
unfolding start
start-IsDaemon d origin v = elim (Bool-cases (origin == 0)) [
  | inl nameless ↦ rw nameless v
  | inr named ↦ rw named (start_with-IsDaemon d d.active origin v v.current)
]
