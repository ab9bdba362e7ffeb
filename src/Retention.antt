-- ===== src/Retention.antt =====
-- internal/daemon/retention.go, and when transcribe.go calls it: the transcript files, and which of
-- them are pruned. A file is its clip number; files with other names are left alone. The map
-- `protectedTranscripts` is the list of its keys.
pub mod Invariant
pub mod Runs
use talk2text.Prelude.{
  ℕ, zero, suc, ◌+◌, ◌-◌, ◌≤◌, Bool, true, false, ◌&&◌, ◌||◌, not, if◌then◌else◌, ltb, leb, ◌==◌,
  Option, none, some, List, [], ◌∷◌, ◌++◌,
}

abbrev pub has : ℕ → List ℕ → Bool
has c [] = false
has c (d ∷ ds) = c == d || has c ds

unfoldable pub without : ℕ → List ℕ → List ℕ
without c [] = []
without c (d ∷ ds) = let rest = without c ds in if c == d then rest else d ∷ rest

-- The bigger of two clip numbers.
abbrev pub later_of : ℕ → ℕ → ℕ
later_of a b = if ltb a b then b else a

-- The files that `ProcessTranscriptFiles` hands to its callback. A directory that cannot be read,
-- or a file that cannot be inspected, ends it early: then only the files of `seen` come before.
unfoldable pub visited : Option (List ℕ) → List ℕ → List ℕ
visited read [] = []
visited none (c ∷ cs) = c ∷ visited none cs
visited (some seen) (c ∷ cs) =
    let rest = visited (some seen) cs in if has c seen then c ∷ rest else rest

-- `high_watermark` and `protected` under `muTranscripts`; the files of the directory; those that a
-- release has listed and not removed yet. `begun` are the clips whose transcript was begun,
-- `protecting` those of them that are not written yet, and `in_use` those that are and not released;
-- `discarded` are those whose file somebody else has removed.
pub record Transcripts : Type 0 where
  pub high_watermark : ℕ
  pub protected : List ℕ
  pub files : List ℕ
  pub listed : List ℕ
  pub begun : List ℕ
  pub protecting : List ℕ
  pub in_use : List ℕ
  pub discarded : List ℕ

unfoldable pub no_transcripts : Transcripts
no_transcripts = record {
  high_watermark = 0;
  protected = [];
  files = [];
  listed = [];
  begun = [];
  protecting = [];
  in_use = [];
  discarded = [];
}

-- A clip is begun once. `write_fails` says whether the file was created all the same, and
-- `releases` what was inspected before an error. The output command, or whoever it passes the
-- path to, `discards` a file: before or after its release.
pub data Action : Type 0 where
  begins writes removes discards : ℕ → Action
  write_fails : ℕ → Bool → Action
  releases : ℕ → Option (List ℕ) → Action

module _ (window : ℕ) where
  -- The map is nil without a window.
  unfoldable pub protect_transcript : ℕ → List ℕ → List ℕ
  protect_transcript c protected = if window == 0 then protected else c ∷ protected

  unfoldable pub unprotect_transcript : ℕ → List ℕ → List ℕ
  unfolding without
  unprotect_transcript c protected = if window == 0 then protected else without c protected

  unfoldable pub old_names : ℕ → List ℕ → List ℕ → List ℕ
  old_names cutoff protected [] = []
  old_names cutoff protected (c ∷ cs) =
      let rest = old_names cutoff protected cs in
      if ltb cutoff c then rest else if has c protected then rest else c ∷ rest

  unfoldable pub get_transcript_names_to_prune : Option (List ℕ) → ℕ → List ℕ → List ℕ → List ℕ
  unfolding old_names visited
  get_transcript_names_to_prune read high_watermark protected files =
      let cutoff = high_watermark - window in
      if ltb cutoff 1 then [] else old_names cutoff protected (visited read files)

  unfoldable pub release_transcript : ℕ → Option (List ℕ) → Transcripts → Transcripts
  unfolding get_transcript_names_to_prune without
  release_transcript c read t =
      let protected = without c t.protected in
      let high_watermark = later_of c t.high_watermark in
      if window == 0 then t else record t {
        protected = protected;
        high_watermark = high_watermark;
        listed = get_transcript_names_to_prune read high_watermark protected t.files ++ t.listed;
      }

  -- The clips of `processTranscript`, in any order: none where the action cannot happen.
  unfoldable pub act : Action → Transcripts → Option Transcripts
  unfolding protect_transcript unprotect_transcript release_transcript without
  act (begins c) t =
      if has c t.begun
      then none
      else some (record t {
        begun = c ∷ t.begun;
        protecting = c ∷ t.protecting;
        protected = protect_transcript c t.protected;
      })
  act (writes c) t =
      if has c t.protecting
      then some (record t {
        protecting = without c t.protecting;
        files = c ∷ without c t.files;
        in_use = c ∷ t.in_use;
      })
      else none
  act (write_fails c created) t =
      if has c t.protecting
      then some (record t {
        protecting = without c t.protecting;
        protected = unprotect_transcript c t.protected;
        files = if created then c ∷ without c t.files else t.files;
      })
      else none
  act (releases c read) t =
      if has c t.in_use
      then some (release_transcript c read (record t { in_use = without c t.in_use }))
      else none
  act (removes c) t =
      if has c t.listed
      then some (record t { files = without c t.files; listed = without c t.listed })
      else none
  act (discards c) t =
      if has c t.files
      then some (record t { files = without c t.files; discarded = c ∷ t.discarded })
      else none

  unfoldable pub perform : List Action → Transcripts → Option Transcripts
  perform [] t = some t
  perform (a ∷ rest) t = elim (act a t) [ none ↦ none | some next ↦ perform rest next ]
