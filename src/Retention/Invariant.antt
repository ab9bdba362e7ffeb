-- ===== src/Retention/Invariant.antt =====
-- internal/daemon/retention.go and transcribe.go: which files exist, and which may be pruned.
use talk2text.Prelude.{
  ℕ, ◌+◌, ◌-◌, ◌≤◌, ◌≡◌, refl, Bool, true, false, ◌&&◌, ◌||◌, not, ◌⊎◌, inl, inr, Bool-cases,
  if◌then◌else◌, ltb, ◌==◌, Option, none, some, List, [], ◌∷◌, ◌++◌, arith,
}
use talk2text.Retention.{
  has, without, visited, later_of, Transcripts, protect_transcript, unprotect_transcript, old_names,
  get_transcript_names_to_prune, release_transcript,
}

pub has-without : (c d : ℕ) (xs : List ℕ) → has c (without d xs) ≡ (has c xs && not (c == d))
unfolding without
has-without c d [] = refl
has-without c d (x ∷ xs) = ground (arith, has-without c d xs)

pub has-append : (c : ℕ) (xs ys : List ℕ) → has c (xs ++ ys) ≡ (has c xs || has c ys)
has-append c [] ys = refl
has-append c (x ∷ xs) ys = ground (arith, has-append c xs ys)

pub later_of-le : (a b : ℕ) → (a ≤ later_of a b) × (b ≤ later_of a b)
later_of-le a b = ground arith

has-old_names :
    (window cutoff c : ℕ) (protected files : List ℕ)
    → has c (old_names window cutoff protected files)
      ≡ (has c files && (not (ltb cutoff c) && not (has c protected)))
unfolding old_names
has-old_names window cutoff c protected [] = refl
has-old_names window cutoff c protected (d ∷ ds) =
    ground (arith, has-old_names window cutoff c protected ds)

-- Inspected, if it was there: without an error all files are.
abbrev pub was_seen : Option (List ℕ) → ℕ → Bool
was_seen none c = true
was_seen (some seen) c = has c seen

pub has-visited :
    (c : ℕ) (read : Option (List ℕ)) (files : List ℕ)
    → has c (visited read files) ≡ (has c files && was_seen read c)
unfolding visited
has-visited c none [] = refl
has-visited c (some seen) [] = refl
has-visited c none (d ∷ ds) = ground (arith, has-visited c none ds)
has-visited c (some seen) (d ∷ ds) = elim (Bool-cases (c == d)) [
  | inl same ↦
      let e : d ≡ c = ground arith in rw (same, e) (ground (arith, has-visited c (some seen) ds))
  | inr other ↦ rw other (ground (arith, has-visited c (some seen) ds))
]

module _ (window : ℕ) where
  -- What holds of the clip `c`.
  pub record IsClip (t : Transcripts) (c : ℕ) : Type 0 where
    pub exists : has c t.in_use ≡ true → (has c t.files ≡ true) ⊎ (has c t.discarded ≡ true)
    pub kept :
        (has c t.in_use || has c t.protecting) ≡ true → (window ≡ 0) ⊎ (has c t.protected ≡ true)
    pub known :
        (has c t.in_use || (has c t.protecting || has c t.files)) ≡ true → has c t.begun ≡ true
    pub apart : has c t.protecting ≡ true → has c t.in_use ≡ false
    pub gone :
        has c t.listed ≡ true
        → (has c t.begun ≡ true)
          × (has c t.in_use ≡ false)
          × (has c t.protecting ≡ false)
          × (c + window ≤ t.high_watermark)

  unfoldable pub IsTranscripts : Transcripts → Type 0
  IsTranscripts t = (c : ℕ) → IsClip t c

  pub begins-IsClip :
      (t : Transcripts) (d c : ℕ)
      → IsClip t c
      → has d t.begun ≡ false
      → IsClip
          (record t {
            begun = d ∷ t.begun;
            protecting = d ∷ t.protecting;
            protected = protect_transcript window d t.protected;
          })
          c
  unfolding protect_transcript
  begins-IsClip t d c v new = record {
    exists = v.exists;
    kept = λ h. ground (arith, v.kept);
    known = λ h. ground (arith, v.known);
    apart = λ h. ground (arith, v.apart, v.known);
    gone = λ h. let (a, b, e, f) = v.gone h in ground arith;
  }

  pub writes-IsClip :
      (t : Transcripts) (d c : ℕ)
      → IsClip t c
      → has d t.protecting ≡ true
      → IsClip
          (record t {
            protecting = without d t.protecting;
            files = d ∷ without d t.files;
            in_use = d ∷ t.in_use;
          })
          c
  writes-IsClip t d c v ready = record {
    exists = λ h. ground (arith, v.exists, has-without c d t.files);
    kept = λ h. ground (arith, v.kept, has-without c d t.protecting);
    known = λ h. ground (arith, v.known, has-without c d t.protecting, has-without c d t.files);
    apart = λ h. ground (arith, v.apart, has-without c d t.protecting);
    gone = λ h. let (a, b, e, f) = v.gone h in ground (arith, has-without c d t.protecting);
  }

  pub write_fails-IsClip :
      (t : Transcripts) (d c : ℕ) (created : Bool)
      → IsClip t c
      → has d t.protecting ≡ true
      → IsClip
          (record t {
            protecting = without d t.protecting;
            protected = unprotect_transcript window d t.protected;
            files = if created then d ∷ without d t.files else t.files;
          })
          c
  unfolding unprotect_transcript
  write_fails-IsClip t d c created v ready = record {
    exists = λ h. ground (arith, v.exists h, has-without c d t.files);
    kept = λ h.
        ground (arith, v.kept, v.apart, has-without c d t.protecting, has-without c d t.protected);
    known = λ h. ground (arith, v.known, has-without c d t.protecting, has-without c d t.files);
    apart = λ h. ground (arith, v.apart, has-without c d t.protecting);
    gone = λ h. let (a, b, e, f) = v.gone h in ground (arith, has-without c d t.protecting);
  }

  pub discards-IsClip :
      (t : Transcripts) (d c : ℕ)
      → IsClip t c
      → IsClip (record t { files = without d t.files; discarded = d ∷ t.discarded }) c
  discards-IsClip t d c v = record {
    exists = λ h. ground (arith, v.exists h, has-without c d t.files);
    kept = v.kept;
    known = λ h. ground (arith, v.known, has-without c d t.files);
    apart = v.apart;
    gone = v.gone;
  }

  pub removes-IsClip :
      (t : Transcripts) (d c : ℕ)
      → IsClip t c
      → has d t.listed ≡ true
      → IsClip t d
      → IsClip (record t { files = without d t.files; listed = without d t.listed }) c
  removes-IsClip t d c v ready w = record {
    exists =
        λ h. let (a, b, e, f) = w.gone ready in ground (arith, v.exists h, has-without c d t.files);
    kept = v.kept;
    known = λ h. ground (arith, v.known, has-without c d t.files);
    apart = v.apart;
    gone = λ h. v.gone (ground (arith, has-without c d t.listed));
  }

  -- The new list of a release, clip by clip.
  pub has-names_to_prune :
      (read : Option (List ℕ)) (high c : ℕ) (protected files : List ℕ)
      → has c (get_transcript_names_to_prune window read high protected files) ≡ (
          not (ltb (high - window) 1)
          && (has c (visited read files) && (not (ltb (high - window) c) && not (has c protected))))
  unfolding get_transcript_names_to_prune
  has-names_to_prune read high c protected files =
      ground (arith, has-old_names window (high - window) c protected (visited read files))

  listed_by :
      (t : Transcripts) (read : Option (List ℕ)) (c : ℕ) (protected : List ℕ) (high : ℕ)
      → has c (get_transcript_names_to_prune window read high protected t.files) ≡ true
      → (has c t.files ≡ true) × (has c protected ≡ false) × (c + window ≤ high)
  listed_by t read c protected high h =
      ground (arith, has-names_to_prune read high c protected t.files, has-visited c read t.files)

  pub releases-IsClip :
      (t : Transcripts) (d c : ℕ) (read : Option (List ℕ))
      → IsClip t c
      → has d t.in_use ≡ true
      → IsClip (release_transcript window d read (record t { in_use = without d t.in_use })) c
  unfolding release_transcript
  releases-IsClip t d c read v ready =
      let high = later_of d t.high_watermark in
      let names = get_transcript_names_to_prune window read high (without d t.protected) t.files in
      elim (Bool-cases (window == 0)) [
        | inl off ↦ rw off (record {
          exists = λ h. ground (arith, v.exists, has-without c d t.in_use);
          kept = λ h. inl (ground arith);
          known = λ h. ground (arith, v.known, has-without c d t.in_use);
          apart = λ h. ground (arith, v.apart h, has-without c d t.in_use);
          gone = λ h. let (a, b, e, f) = v.gone h in ground (arith, has-without c d t.in_use);
        })
        | inr on ↦ rw on (record {
          exists = λ h. ground (arith, v.exists, has-without c d t.in_use);
          kept = λ h.
              ground
                (arith, v.kept, v.apart, has-without c d t.in_use, has-without c d t.protected);
          known = λ h. ground (arith, v.known, has-without c d t.in_use);
          apart = λ h. ground (arith, v.apart h, has-without c d t.in_use);
          gone = λ h. elim (Bool-cases (has c names)) [
            | inl new ↦
                let (f, p, b) = listed_by t read c (without d t.protected) high new in
                (
                  ground (arith, v.known),
                  ground (arith, v.kept, has-without c d t.in_use, has-without c d t.protected),
                  ground (arith, v.kept, v.apart, has-without c d t.protected),
                  b,
                )
            | inr old ↦
                let (a, b, e, f) = v.gone (ground (arith, has-append c names t.listed)) in
                (
                  a,
                  ground (arith, has-without c d t.in_use),
                  e,
                  omega (arith, later_of-le d t.high_watermark),
                )
          ];
        })
      ]
