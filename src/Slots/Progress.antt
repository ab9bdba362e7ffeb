-- ===== src/Slots/Progress.antt =====
-- internal/daemon/http.go and transcribe.go: the requests that wait for a transcription.
use talk2text.Prelude.{
  ℕ, zero, suc, ◌+◌, ◌*◌, ◌≤◌, ◌<◌, ◌≡◌, refl, Bool, true, false, ◌⊎◌, inl, inr, Bool-cases, ltb,
  ◌==◌, some, List, [], ◌∷◌, arith,
}
use talk2text.Mime.Reference.{All}
use talk2text.Slots.{
  Slots, empty, Event, compare_and_swap, receive, release, http_done, local_done, signal, one_of,
  finish, step, run,
}
use talk2text.Slots.Invariant.{IsSlots, step-IsSlots, run-IsSlots}

-- The steps of the transcriptions that were started, and of the requests that wait for one.
abbrev pub is_ours : Event → Bool
is_ours compare_and_swap = true
is_ours receive = true
is_ours release = true
is_ours http_done = true
is_ours local_done = true
is_ours signal = true
is_ours _ = false

-- A run of these steps after which no request waits and nothing is transcribed.
pub record Drains (s : Slots) : Type 0 where
  pub events : List Event
  pub after : Slots
  pub returns : run events s ≡ some after
  pub ours : All (λ e. is_ours e ≡ true) events
  pub served : (after.checking ≡ 0) × (after.waiting ≡ 0) × (after.ongoing ≡ 0)

abbrev work : Slots → ℕ
work s =
    5 * s.waiting
    + 4 * s.checking
    + 3 * s.reserved
    + 2 * (s.http_running + s.local_running)
    + s.signalling

-- A step of these that leaves less work.
record Works (s : Slots) : Type 0 where
  event : Event
  next : Slots
  returns : step event s ≡ some next
  ours : is_ours event ≡ true
  less : work next < work s

one_of-some :
    (n : ℕ) (next : ℕ → Slots) → 0 < n → (m : ℕ) × (n ≡ suc m) × (one_of n next ≡ some (next m))
one_of-some zero next h = absurd (omega arith)
one_of-some (suc n) next h = (n, refl, refl)

released : (s : Slots) → 0 < s.reserved → Works s
unfolding step
released s h =
    let (m, e, r) = one_of-some s.reserved _ h in
    record { event = release; next = _; returns = r; ours = refl; less = omega (arith, e) }

work-finish : (s : Slots) → work (finish s) ≤ work s + 1
unfolding finish
work-finish s = ground arith

http_finished : (s : Slots) → 0 < s.http_running → Works s
unfolding step
http_finished s h =
    let (m, e, r) = one_of-some s.http_running _ h in
    record {
      event = http_done;
      next = _;
      returns = r;
      ours = refl;
      less = omega (arith, e, work-finish (record s { http_running = m }));
    }

local_finished : (s : Slots) → 0 < s.local_running → Works s
unfolding step
local_finished s h =
    let (m, e, r) = one_of-some s.local_running _ h in
    record {
      event = local_done;
      next = _;
      returns = r;
      ours = refl;
      less = omega (arith, e, work-finish (record s { local_running = m }));
    }

swapped : (s : Slots) → 0 < s.checking → (s.ongoing == 0) ≡ true → Works s
unfolding step
swapped s h free =
    let (m, e, r) =
      one_of-some s.checking
        (λ n. record s { checking = n; ongoing = 1; reserved = s.reserved + 1 }) h in
    record {
      event = compare_and_swap;
      next = record s { checking = m; ongoing = 1; reserved = s.reserved + 1 };
      returns = rw free r;
      ours = refl;
      less = omega (arith, e);
    }

received : (s : Slots) → 0 < s.waiting → s.idle ≡ true → Works s
unfolding step
received s h full =
    let (m, e, r) =
      one_of-some s.waiting (λ n. record s { waiting = n; idle = false; checking = s.checking + 1 })
        h in
    record {
      event = receive;
      next = record s { waiting = m; idle = false; checking = s.checking + 1 };
      returns = rw full r;
      ours = refl;
      less = omega (arith, e);
    }

signalled : (s : Slots) → 0 < s.signalling → Works s
unfolding step
signalled s h =
    let (m, e, r) = one_of-some s.signalling _ h in
    record { event = signal; next = _; returns = r; ours = refl; less = omega (arith, e) }

-- Nothing waits any more, or there is a step to do.
next_work :
    (s : Slots) → IsSlots s → Works s ⊎ ((s.checking ≡ 0) × (s.waiting ≡ 0) × (s.ongoing ≡ 0))
next_work s v = elim (Bool-cases (ltb 0 s.reserved)) [
  | inl a ↦ inl (released s (ground arith))
  | inr no_reserved ↦ elim (Bool-cases (ltb 0 s.http_running)) [
    | inl a ↦ inl (http_finished s (ground arith))
    | inr no_http ↦ elim (Bool-cases (ltb 0 s.local_running)) [
      | inl a ↦ inl (local_finished s (ground arith))
      | inr no_local ↦
          let none_runs : s.ongoing ≡ 0 = ground (arith, v.busy) in
          elim (Bool-cases (ltb 0 s.checking)) [
            | inl a ↦ inl (swapped s (ground arith) (ground arith))
            | inr no_checking ↦ elim (Bool-cases (ltb 0 s.waiting)) [
              | inr no_waiting ↦ inr (ground arith, ground arith, none_runs)
              | inl a ↦ elim (v.awake (ground arith) none_runs) [
                | inl full ↦ inl (received s (ground arith) full)
                | inr (inl b) ↦ inl (swapped s b (ground arith))
                | inr (inr c) ↦ inl (signalled s c)
              ]
            ]
          ]
    ]
  ]
]

first_then : (s : Slots) (w : Works s) → Drains w.next → Drains s
unfolding run
first_then s w d = record {
  events = w.event ∷ d.events;
  after = d.after;
  returns = rw (w.returns, run) d.returns;
  ours = (w.ours, d.ours);
  served = d.served;
}

drain : (fuel : ℕ) (s : Slots) → IsSlots s → work s < fuel → Drains s
unfolding run
drain zero s v h = absurd (omega arith)
drain (suc fuel) s v h = elim (next_work s v) [
  | inr over ↦ record { events = []; after = s; returns = refl; ours = tt; served = over }
  | inl w ↦
      first_then s w
        (drain fuel w.next (step-IsSlots w.event s v w.next w.returns) (omega (arith, w.less)))
]

-- From each state that a run of the slots reaches, steps of the requests that wait, and of the
-- transcriptions that are counted, alone lead to a state in which no request waits for a slot and
-- no transcription is counted.
pub waiting-Drains : (es : List Event) (s : Slots) → run es empty ≡ some s → Drains s
waiting-Drains es s e = drain (suc (work s)) s (run-IsSlots es s e) (omega arith)
