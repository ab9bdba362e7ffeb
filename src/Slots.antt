-- ===== src/Slots.antt =====
-- internal/daemon/http.go and transcribe.go: the slots of HTTP requests and of transcriptions. The
-- goroutines have no identity, so the state counts those at each point of the code; each step is one
-- atomic operation of one of them.
pub mod Invariant
pub mod Progress
use talk2text.Prelude.{
  ℕ, zero, suc, ◌+◌, ◌-◌, Bool, true, false, if◌then◌else◌, ltb, leb, ◌==◌, Option, none, some,
  List, [], ◌∷◌,
}

abbrev pub max_http_admitted : ℕ
max_http_admitted = 2

-- `httpAdmitted`, `ongoingTranscriptions`, whether `transcriptionIdle` holds its signal, and whether
-- the context is done. Then the goroutines: a request that was counted and is one too many; one that
-- is handled; one whose clip was accepted; one before its compare-and-swap; one in the `select`; one
-- that has left it since the context is done; one that has reserved the transcription; and those in
-- `processLongSession`, of HTTP and local clips, before their `Add(-1)`, and before their signal.
pub record Slots : Type 0 where
  pub http_admitted : ℕ
  pub ongoing : ℕ
  pub idle : Bool
  pub cancelled : Bool
  pub rejecting : ℕ
  pub handling : ℕ
  pub accepted : ℕ
  pub checking : ℕ
  pub waiting : ℕ
  pub leaving : ℕ
  pub reserved : ℕ
  pub http_running : ℕ
  pub local_running : ℕ
  pub signalling : ℕ

unfoldable pub empty : Slots
empty = record {
  http_admitted = 0;
  ongoing = 0;
  idle = false;
  cancelled = false;
  rejecting = 0;
  handling = 0;
  accepted = 0;
  checking = 0;
  waiting = 0;
  leaving = 0;
  reserved = 0;
  http_running = 0;
  local_running = 0;
  signalling = 0;
}

pub data Event : Type 0 where
  request reject fail accept short long compare_and_swap receive give_up leave release : Event
  http_done local_start local_done signal cancel : Event

-- One goroutine leaves a point where there are `n`.
abbrev pub one_of : ℕ → (ℕ → Slots) → Option Slots
one_of zero next = none
one_of (suc n) next = some (next n)

-- `Add(-1) <= 0` of the transcriptions, and the signal that is to follow.
unfoldable pub finish : Slots → Slots
finish s =
    let ongoing = s.ongoing - 1 in
    record s {
      ongoing = ongoing;
      signalling = if ongoing == 0 then s.signalling + 1 else s.signalling;
    }

unfoldable pub step : Event → Slots → Option Slots
unfolding finish
step request s =
    let admitted = s.http_admitted + 1 in
    some (
      if ltb max_http_admitted admitted
      then record s { http_admitted = admitted; rejecting = s.rejecting + 1 }
      else record s { http_admitted = admitted; handling = s.handling + 1 })
step reject s =
    one_of s.rejecting (λ n. record s { rejecting = n; http_admitted = s.http_admitted - 1 })
step fail s =
    one_of s.handling (λ n. record s { handling = n; http_admitted = s.http_admitted - 1 })
step accept s = one_of s.handling (λ n. record s { handling = n; accepted = s.accepted + 1 })
step short s =
    one_of s.accepted (λ n. record s { accepted = n; http_admitted = s.http_admitted - 1 })
step long s = one_of s.accepted (λ n. record s { accepted = n; checking = s.checking + 1 })
step compare_and_swap s = one_of s.checking (λ n.
    if s.ongoing == 0
    then record s { checking = n; ongoing = 1; reserved = s.reserved + 1 }
    else record s { checking = n; waiting = s.waiting + 1 })
step receive s =
    if s.idle
    then one_of s.waiting (λ n. record s { waiting = n; idle = false; checking = s.checking + 1 })
    else none
step give_up s =
    if s.cancelled
    then one_of s.waiting (λ n. record s { waiting = n; leaving = s.leaving + 1 })
    else none
step leave s = one_of s.leaving (λ n. record s { leaving = n; http_admitted = s.http_admitted - 1 })
step release s = one_of s.reserved (λ n. record s {
  reserved = n;
  http_admitted = s.http_admitted - 1;
  http_running = s.http_running + 1;
})
step http_done s = one_of s.http_running (λ n. finish (record s { http_running = n }))
step local_start s =
    some (record s { ongoing = s.ongoing + 1; local_running = s.local_running + 1 })
step local_done s = one_of s.local_running (λ n. finish (record s { local_running = n }))
step signal s = one_of s.signalling (λ n. record s { signalling = n; idle = true })
step cancel s = some (record s { cancelled = true })

unfoldable pub run : List Event → Slots → Option Slots
run [] s = some s
run (e ∷ es) s = elim (step e s) [ none ↦ none | some s' ↦ run es s' ]
