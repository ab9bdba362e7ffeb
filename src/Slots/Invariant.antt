-- ===== src/Slots/Invariant.antt =====
-- internal/daemon/http.go and transcribe.go: what is to hold of the slots between two steps.
use talk2text.Prelude.{
  ℕ, zero, suc, ◌+◌, ◌≤◌, ◌<◌, ◌≡◌, refl, Bool, true, false, ◌⊎◌, inl, inr, if◌then◌else◌, ltb,
  ◌==◌, Option, none, some, some-injective, List, [], ◌∷◌, arith,
}
use talk2text.Slots.{
  Slots, empty, Event, request, reject, fail, accept, short, long, compare_and_swap, receive,
  give_up, leave, release, http_done, local_start, local_done, signal, cancel, one_of, finish, step,
  run, max_http_admitted,
}

-- The goroutines that hold one of the HTTP slots.
abbrev pub holders : Slots → ℕ
holders s = s.handling + s.accepted + s.checking + s.waiting + s.leaving + s.reserved

pub record IsSlots (s : Slots) : Type 0 where
  pub counted : s.http_admitted ≡ s.rejecting + holders s
  pub few : holders s ≤ max_http_admitted
  pub busy : s.ongoing ≡ s.local_running + s.http_running + s.reserved
  pub alone : s.http_running + s.reserved ≤ 1
  pub awake :
      0 < s.waiting → s.ongoing ≡ 0 → (s.idle ≡ true) ⊎ ((0 < s.checking) ⊎ (0 < s.signalling))

pub empty-IsSlots : IsSlots empty
unfolding empty
empty-IsSlots = record {
  counted = refl;
  few = omega arith;
  busy = refl;
  alone = omega arith;
  awake = λ w e. absurd (omega (arith, w));
}

-- Whatever comes out is in order.
abbrev Keeps : Option Slots → Type 0
Keeps r = (s' : Slots) → r ≡ some s' → IsSlots s'

kept : (s : Slots) → IsSlots s → Keeps (some s)
kept s v s' e = rw (← some-injective _ _ e) v

one_of-Keeps :
    (n : ℕ) (next : ℕ → Slots) → ((m : ℕ) → n ≡ suc m → IsSlots (next m)) → Keeps (one_of n next)
one_of-Keeps zero next f s' e = cc
one_of-Keeps (suc n) next f s' e = rw (← some-injective _ _ e) (f n refl)

-- The two ways of a test.
if-IsSlots :
    (b : Bool) (x y : Slots)
    → (b ≡ true → IsSlots x)
    → (b ≡ false → IsSlots y)
    → IsSlots (if b then x else y)
if-IsSlots true x y p q = p refl
if-IsSlots false x y p q = q refl

if-Keeps : (b : Bool) (r : Option Slots) → (b ≡ true → Keeps r) → Keeps (if b then r else none)
if-Keeps true r k = k refl
if-Keeps false r k = λ s' e. cc

-- A goroutine that ends keeps the rest, and signals if it was the last one.
finish-IsSlots :
    (s : Slots)
    → s.http_admitted ≡ s.rejecting + holders s
    → holders s ≤ max_http_admitted
    → s.ongoing ≡ suc (s.local_running + s.http_running + s.reserved)
    → s.http_running + s.reserved ≤ 1
    → IsSlots (finish s)
unfolding finish
finish-IsSlots s c f b a = record {
  counted = c;
  few = f;
  busy = omega (arith, b);
  alone = a;
  awake = λ w e. inr (inr (ground arith));
}

pub step-IsSlots : (e : Event) (s : Slots) → IsSlots s → Keeps (step e s)
unfolding step
step-IsSlots request s v = kept _ (
    if-IsSlots (ltb max_http_admitted (s.http_admitted + 1)) _ _
      (λ e. record {
        counted = omega (arith, v.counted);
        few = v.few;
        busy = v.busy;
        alone = v.alone;
        awake = v.awake;
      })
      (λ e. record {
        counted = omega (arith, v.counted);
        few = ground (arith, v.counted);
        busy = v.busy;
        alone = v.alone;
        awake = v.awake;
      }))
step-IsSlots reject s v = one_of-Keeps s.rejecting _ (λ m e. record {
  counted = omega (arith, v.counted, e);
  few = v.few;
  busy = v.busy;
  alone = v.alone;
  awake = v.awake;
})
step-IsSlots fail s v = one_of-Keeps s.handling _ (λ m e. record {
  counted = omega (arith, v.counted, e);
  few = omega (arith, v.few, e);
  busy = v.busy;
  alone = v.alone;
  awake = v.awake;
})
step-IsSlots accept s v = one_of-Keeps s.handling _ (λ m e. record {
  counted = omega (arith, v.counted, e);
  few = omega (arith, v.few, e);
  busy = v.busy;
  alone = v.alone;
  awake = v.awake;
})
step-IsSlots short s v = one_of-Keeps s.accepted _ (λ m e. record {
  counted = omega (arith, v.counted, e);
  few = omega (arith, v.few, e);
  busy = v.busy;
  alone = v.alone;
  awake = v.awake;
})
step-IsSlots long s v = one_of-Keeps s.accepted _ (λ m e. record {
  counted = omega (arith, v.counted, e);
  few = omega (arith, v.few, e);
  busy = v.busy;
  alone = v.alone;
  awake = λ w z. inr (inl (omega arith));
})
step-IsSlots compare_and_swap s v = one_of-Keeps s.checking _ (λ m e.
    if-IsSlots (s.ongoing == 0) _ _
      (λ free. record {
        counted = omega (arith, v.counted, e);
        few = omega (arith, v.few, e);
        busy = ground (arith, v.busy);
        alone = ground (arith, v.busy);
        awake = λ w z. absurd (omega (arith, z));
      })
      (λ taken. record {
        counted = omega (arith, v.counted, e);
        few = omega (arith, v.few, e);
        busy = v.busy;
        alone = v.alone;
        awake = λ w z. ground arith;
      }))
step-IsSlots receive s v = if-Keeps s.idle _ (λ full. one_of-Keeps s.waiting _ (λ m e. record {
  counted = omega (arith, v.counted, e);
  few = omega (arith, v.few, e);
  busy = v.busy;
  alone = v.alone;
  awake = λ w z. inr (inl (omega arith));
}))
step-IsSlots give_up s v = if-Keeps s.cancelled _ (λ over. one_of-Keeps s.waiting _ (λ m e. record {
  counted = omega (arith, v.counted, e);
  few = omega (arith, v.few, e);
  busy = v.busy;
  alone = v.alone;
  awake = λ w z. v.awake (omega (arith, e)) z;
}))
step-IsSlots leave s v = one_of-Keeps s.leaving _ (λ m e. record {
  counted = omega (arith, v.counted, e);
  few = omega (arith, v.few, e);
  busy = v.busy;
  alone = v.alone;
  awake = v.awake;
})
step-IsSlots release s v = one_of-Keeps s.reserved _ (λ m e. record {
  counted = omega (arith, v.counted, e);
  few = omega (arith, v.few, e);
  busy = omega (arith, v.busy, e);
  alone = omega (arith, v.alone, e);
  awake = v.awake;
})
step-IsSlots http_done s v = one_of-Keeps s.http_running _ (λ m e.
    finish-IsSlots (record s { http_running = m }) v.counted v.few (omega (arith, v.busy, e))
      (omega (arith, v.alone, e)))
step-IsSlots local_start s v = kept _ (record {
  counted = v.counted;
  few = v.few;
  busy = omega (arith, v.busy);
  alone = v.alone;
  awake = λ w z. absurd (omega (arith, z));
})
step-IsSlots local_done s v = one_of-Keeps s.local_running _ (λ m e.
    finish-IsSlots (record s { local_running = m }) v.counted v.few (omega (arith, v.busy, e))
      v.alone)
step-IsSlots signal s v = one_of-Keeps s.signalling _ (λ m e. record {
  counted = v.counted;
  few = v.few;
  busy = v.busy;
  alone = v.alone;
  awake = λ w z. inl refl;
})
step-IsSlots cancel s v =
    kept _
      (record { counted = v.counted; few = v.few; busy = v.busy; alone = v.alone; awake = v.awake })

run-Keeps : (es : List Event) (s : Slots) → IsSlots s → Keeps (run es s)
unfolding run
run-Keeps [] s v = kept s v
run-Keeps (e ∷ es) s v =
    λ s' f. after s' (step e s) (step-IsSlots e s v) (λ t w. run-Keeps es t w s') f
  where
    after :
        (s' : Slots) (r : Option Slots)
        → Keeps r
        → ((t : Slots) → IsSlots t → run es t ≡ some s' → IsSlots s')
        → elim r [ none ↦ none | some t ↦ run es t ] ≡ some s'
        → IsSlots s'
    after s' none k rest g = cc
    after s' (some t) k rest g = rest t (k t refl) g

-- In each run of the slots from their start at most two requests are admitted beside those that
-- are being refused, each counter is the number of goroutines that it counts, at most one
-- transcription of an upload is reserved or runs, and if a request waits while no transcription is
-- counted, the signal is set, or will be, or another request is about to test the counter.
pub run-IsSlots : (es : List Event) (s : Slots) → run es empty ≡ some s → IsSlots s
run-IsSlots es s e = run-Keeps es empty empty-IsSlots s e
