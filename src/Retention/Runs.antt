-- ===== src/Retention/Runs.antt =====
-- internal/daemon/retention.go and transcribe.go: the transcripts of any sequence of clips.
use talk2text.Prelude.{
  ℕ, ◌+◌, ◌≤◌, ◌≡◌, ◌≢◌, refl, Bool, true, false, if◌then◌else◌, Option, none, some, some-injective,
  ◌==◌, leb, ◌&&◌, ◌||◌, not, List, [], ◌∷◌, arith,
}
use talk2text.Retention.{
  has, without, later_of, Transcripts, no_transcripts, Action, begins, writes, releases, removes,
  discards, write_fails, get_transcript_names_to_prune, release_transcript, act, perform,
}
use talk2text.Retention.Invariant.{
  IsClip, IsTranscripts, begins-IsClip, writes-IsClip, write_fails-IsClip, removes-IsClip,
  discards-IsClip, has-visited, was_seen, releases-IsClip, has-names_to_prune, has-append,
  has-without, later_of-le,
}

module _ (window : ℕ) where
  -- Whatever comes out is in order.
  Keeps : Option Transcripts → Type 0
  Keeps r = (t' : Transcripts) → r ≡ some t' → IsTranscripts window t'

  if-Keeps :
      (b : Bool) (t : Transcripts)
      → (b ≡ true → IsTranscripts window t)
      → Keeps (if b then some t else none)
  unfolding Keeps
  if-Keeps true t f t' e = rw (← some-injective _ _ e) (f refl)
  if-Keeps false t f t' e = cc

  unless-Keeps :
      (b : Bool) (t : Transcripts)
      → (b ≡ false → IsTranscripts window t)
      → Keeps (if b then none else some t)
  unfolding Keeps
  unless-Keeps true t f t' e = cc
  unless-Keeps false t f t' e = rw (← some-injective _ _ e) (f refl)

  act-IsTranscripts :
      (a : Action) (t : Transcripts) → IsTranscripts window t → Keeps (act window a t)
  unfolding act IsTranscripts
  act-IsTranscripts (begins d) t v =
      unless-Keeps (has d t.begun) _ (λ e c. begins-IsClip window t d c (v c) e)
  act-IsTranscripts (writes d) t v =
      if-Keeps (has d t.protecting) _ (λ e c. writes-IsClip window t d c (v c) e)
  act-IsTranscripts (write_fails d created) t v =
      if-Keeps (has d t.protecting) _ (λ e c. write_fails-IsClip window t d c created (v c) e)
  act-IsTranscripts (releases d read) t v =
      if-Keeps (has d t.in_use) _ (λ e c. releases-IsClip window t d c read (v c) e)
  act-IsTranscripts (discards d) t v =
      if-Keeps (has d t.files) _ (λ e c. discards-IsClip window t d c (v c))
  act-IsTranscripts (removes d) t v =
      if-Keeps (has d t.listed) _ (λ e c. removes-IsClip window t d c (v c) e (v d))

  no_transcripts-IsTranscripts : IsTranscripts window no_transcripts
  unfolding IsTranscripts no_transcripts
  no_transcripts-IsTranscripts c = record {
    exists = λ h. cc;
    kept = λ h. cc;
    known = λ h. cc;
    apart = λ h. refl;
    gone = λ h. cc;
  }

  perform-Keeps :
      (rest : List Action) (t : Transcripts)
      → IsTranscripts window t
      → Keeps (perform window rest t)
  unfolding perform Keeps
  perform-Keeps [] t v = λ t' e. rw (← some-injective _ _ e) v
  perform-Keeps (a ∷ rest) t v = λ t' e.
      after t' (act window a t) (act-IsTranscripts a t v) (λ u w. perform-Keeps rest u w t') e
    where
      after :
          (t' : Transcripts) (r : Option Transcripts)
          → Keeps r
          → ((u : Transcripts)
              → IsTranscripts window u
              → perform window rest u ≡ some t'
              → IsTranscripts window t')
          → elim r [ none ↦ none | some next ↦ perform window rest next ] ≡ some t'
          → IsTranscripts window t'
      after t' none k go e = cc
      after t' (some u) k go e = go u (k u refl) e

  -- After every sequence of transcripts that begin, are written or not, are released, are pruned,
  -- and are discarded by their output command at any time, for each clip: if its transcript is in
  -- use, it is a file or was discarded, so that the daemon did not remove it; if it is in use or
  -- being written, the clip is protected or there is no window; it is not both; whatever is in
  -- use, being written or a file was begun; and what is listed to be removed was begun, is neither
  -- in use nor being written, and is at least the window older than the newest clip that was
  -- released.
  pub perform-IsTranscripts :
      (actions : List Action) (t : Transcripts)
      → perform window actions no_transcripts ≡ some t
      → (c : ℕ) → IsClip window t c
  unfolding IsTranscripts Keeps
  perform-IsTranscripts actions t e =
      perform-Keeps actions no_transcripts no_transcripts-IsTranscripts t e

-- The release of clip `d` from `t` to `after`, as far as it is about clip `c`.
pub record Lists (window d : ℕ) (read : Option (List ℕ)) (t after : Transcripts) (c : ℕ)
    : Type 0 where
  pub listed : has c after.listed ≡ (
      has c t.listed
      || (has c t.files && was_seen read c)
        && (leb (c + window) after.high_watermark && not (has c after.protected)))
  pub newest : (d ≤ after.high_watermark) × (t.high_watermark ≤ after.high_watermark)
  pub released : has c after.protected ≡ (has c t.protected && not (c == d))
  pub unremoved : after.files ≡ t.files

-- With a window, for every positive clip number, whether the directory is read to its end, in part
-- or not at all: after `release_transcript` the clip is listed to be removed exactly if it was
-- listed before, or its file was inspected, is at least the window older than the newest released
-- clip, and is not protected; the newest clip is at least the released one and never goes back,
-- the released clip and no other loses its protection, and no file is gone yet.
pub release_transcript-Lists :
    (window d c : ℕ) (read : Option (List ℕ)) (t : Transcripts)
    → window ≢ 0
    → 1 ≤ c
    → Lists window d read t (release_transcript window d read t) c
unfolding release_transcript
release_transcript-Lists window d c read t on first =
    let high = later_of d t.high_watermark in
    let names = get_transcript_names_to_prune window read high (without d t.protected) t.files in
    let pruned = has-names_to_prune window read high c (without d t.protected) t.files in
    let set : (window == 0) ≡ false = ground arith in
    rw set (record {
      listed = ground (arith, has-append c names t.listed, pruned, has-visited c read t.files);
      newest = later_of-le d t.high_watermark;
      released = has-without c d t.protected;
      unremoved = refl;
    })
