-- ===== src/Storage/Output.antt =====
-- `Decode` over a decoder that keeps an invariant: when it succeeds, and how much it returns.
use talk2text.Prelude.{
  ℕ, zero, suc, ◌+◌, ◌*◌, ◌/◌, ◌%◌, ◌^◌, ◌≤◌, ◌<◌, bit_and, ◌≡◌, refl, ap, ◌∙◌, Bool, true, false,
  ltb, ◌==◌, none, some, List, [], ◌∷◌, ◌++◌, length, length-append, take, ℤ, pattern16, arith,
}
use mathlib.Core.List.{append-nil}
use talk2text.Mime.Reference.{All}
use talk2text.Storage.{
  ok, err, or_fault, fault, Native, append_samples, decode_frame, decode_from, decode,
  validate_from, validate_frames, has_prefix, magic, samples_per_frame, pcm_bytes_per_frame,
  max_int,
}
use talk2text.Storage.Frames.{IsStorageFrame, concat, join, drop-append, validate_frames-IsStream}

pub length-append_samples :
    (pcm : List ℕ) (samples : List ℤ)
    → length (append_samples pcm samples) ≡ length pcm + 2 * length samples
unfolding append_samples
length-append_samples pcm [] = omega arith
length-append_samples pcm (sample ∷ samples) =
    let v = pattern16 sample in
    omega (
      arith,
      length-append_samples (pcm ++ v % 2 ^ 8 ∷ v / 2 ^ 8 ∷ []) samples,
      length-append pcm (v % 2 ^ 8 ∷ v / 2 ^ 8 ∷ []),
    )

take-append {ℓ} : {A : Type ℓ} (xs ys : List A) → take (length xs) (xs ++ ys) ≡ xs
take-append [] ys = refl
take-append (x ∷ xs) ys = ap (◌∷◌ x) (take-append xs ys)

-- A good frame has bit 2 of its header set.
abbrev pub bad_frame : ℕ → Bool
bad_frame header = bit_and header 0x04 == 0

join-snoc : (frames : List (List ℕ)) (f : List ℕ) → concat (frames ++ f ∷ []) ≡ join frames f
join-snoc [] f = append-nil f
join-snoc (xs ∷ frames) f = ap (λ ys. xs ++ ys) (join-snoc frames f)

All-snoc :
    (frames : List (List ℕ)) (f : List ℕ)
    → All IsStorageFrame frames
    → IsStorageFrame f
    → All IsStorageFrame (frames ++ f ∷ [])
All-snoc [] f w h = (h, tt)
All-snoc (xs ∷ frames) f w h = (w.0, All-snoc frames f w.1 h)

-- Every frame may be read, given what follows it.
abbrev pub AllRead : (List ℕ → List ℕ → Type 0) → List (List ℕ) → List ℕ → Type 0
AllRead Reads [] tail = Unit
AllRead Reads (f ∷ fs) tail = Reads f (join fs tail) × AllRead Reads fs tail

module _ (native : Native) where
  -- The decoder keeps `Inv` and gives a frame of samples on each whole frame, as long as the memory
  -- behind the frame satisfies `Reads`.
  pub record Serves (Inv : native.State → Type 0) (Reads : List ℕ → List ℕ → Type 0) : Type 0 where
    pub start : Inv native.d_if_init
    pub step :
        (st : native.State) (header : ℕ) (payload rest : List ℕ)
        → Inv st
        → IsStorageFrame (header ∷ payload)
        → Reads (header ∷ payload) rest
        → (st' : native.State) × (out : List ℤ) × (native.d_if_decode st
              (header ∷ (payload ++ rest))
              (bad_frame header)
            ≡ some (st', out))
          × Inv st'
          × (length out ≡ samples_per_frame)

  -- A whole frame passes the checks of `Decoder.Decode`.
  pub decode_frame_lem :
      (st : native.State) (header : ℕ) (payload rest : List ℕ) (bad : Bool)
      → IsStorageFrame (header ∷ payload)
      → decode_frame native st (header ∷ (payload ++ rest)) (suc (length payload)) bad
        ≡ or_fault (native.d_if_decode st (header ∷ (payload ++ rest)) bad)
  unfolding decode_frame
  decode_frame_lem st header payload rest bad w =
      let whole = take-append payload rest in
      let same : (suc (length payload) == suc (length payload)) ≡ true = ground arith in
      let some_bytes : (suc (length payload) == 0) ≡ false = ground arith in
      rw (whole, some_bytes, w, same) refl

  decode_from-nil :
      (fuel : ℕ) (st : native.State) (pcm : List ℕ) → decode_from native fuel st [] pcm ≡ ok pcm
  unfolding decode_from
  decode_from-nil fuel st pcm = refl

  decode_from-fault :
      (fuel : ℕ) (st : native.State) (header : ℕ) (pcm : List ℕ)
      → 1 ≤ fuel
      → IsStorageFrame (header ∷ [])
      → native.d_if_decode st (header ∷ []) (bad_frame header) ≡ none
      → decode_from native fuel st (header ∷ []) pcm ≡ err fault
  unfolding decode_from
  decode_from-fault zero st header pcm h w e = absurd (omega arith)
  decode_from-fault (suc fuel) st header pcm h w e =
      rw (w, decode_frame_lem st header [] [] (bad_frame header) w, e) refl

  module _ (Inv : native.State → Type 0) (Reads : List ℕ → List ℕ → Type 0)
      (serves : Serves Inv Reads) where
    -- The state after the frames, where the loop goes on with the bytes behind them.
    record Continues (fuel : ℕ) (st : native.State) (frames : List (List ℕ)) (tail pcm : List ℕ)
        : Type 0 where
      fuel' : ℕ
      st' : native.State
      pcm' : List ℕ
      goes_on :
          decode_from native fuel st (join frames tail) pcm ≡ decode_from native fuel' st' tail pcm'
      enough : length tail ≤ fuel'
      inv : Inv st'
      longer : length pcm' ≡ length pcm + 640 * length frames

    decode_from-join :
        (fuel : ℕ) (st : native.State) (frames : List (List ℕ)) (tail pcm : List ℕ)
        → Inv st
        → All IsStorageFrame frames
        → AllRead Reads frames tail
        → length (join frames tail) ≤ fuel
        → Continues fuel st frames tail pcm
    unfolding decode_from
    decode_from-join fuel st [] tail pcm v w r f = record {
      fuel' = fuel;
      st' = st;
      pcm' = pcm;
      goes_on = refl;
      enough = f;
      inv = v;
      longer = omega arith;
    }
    decode_from-join fuel st ([] ∷ frames) tail pcm v w r f = absurd w.0
    decode_from-join zero st ((header ∷ payload) ∷ frames) tail pcm v w r f = absurd (omega arith)
    decode_from-join (suc fuel) st ((header ∷ payload) ∷ frames) tail pcm v w r f =
        let after = join frames tail in
        let long = length-append payload after in
        let (st', out, e, v', l) = serves.step st header payload after v w.0 r.0 in
        let c =
          decode_from-join fuel st' frames tail (append_samples pcm out) v' w.1 r.1 (omega arith) in
        let one = decode_frame_lem st header payload after (bad_frame header) w.0 in
        record {
          fuel' = c.fuel';
          st' = c.st';
          pcm' = c.pcm';
          goes_on = rw (w.0, one, e, drop-append payload after) c.goes_on;
          enough = c.enough;
          inv = c.inv;
          longer = omega (arith, c.longer, length-append_samples pcm out);
        }

    -- The steps of `Decode` before the loop, on whole frames.
    decode-frames :
        (frames : List (List ℕ)) (max_frames : ℕ)
        → All IsStorageFrame frames
        → 0 < length frames
        → length frames ≤ max_frames
        → length frames ≤ max_int / pcm_bytes_per_frame
        → decode native (magic ++ concat frames) max_frames
          ≡ decode_from native (length (concat frames)) native.d_if_init (concat frames) []
    unfolding decode has_prefix
    decode-frames frames max_frames w some_frame few small =
        let accepted =
          (validate_frames-IsStream (concat frames) max_frames (length frames)).1
            (few, record { frames = frames; joined = refl; whole = w; count = refl }) in
        let fits : ltb (max_int / pcm_bytes_per_frame) (length frames) ≡ false = ground arith in
        let more : (length frames == 0) ≡ false = ground arith in rw (accepted, more, fits) refl

    decode-empty : (max_frames : ℕ) → decode native magic max_frames ≡ ok []
    unfolding decode has_prefix validate_frames validate_from
    decode-empty max_frames = refl

    pub decode-length :
        (frames : List (List ℕ)) (max_frames : ℕ)
        → All IsStorageFrame frames
        → AllRead Reads frames []
        → length frames ≤ max_frames
        → length frames ≤ max_int / pcm_bytes_per_frame
        → (out : List ℕ) × (decode native (magic ++ concat frames) max_frames ≡ ok out)
          × (length out ≡ 640 * length frames)
    decode-length [] max_frames w r few small = ([], decode-empty max_frames, omega arith)
    decode-length (f ∷ fs) max_frames w r few small =
        let frames = f ∷ fs in
        let c =
          decode_from-join (length (concat frames)) native.d_if_init frames [] [] serves.start w r
            (omega arith) in
        (
          c.pcm',
          decode-frames frames max_frames w (omega arith) few small
              ∙ c.goes_on
              ∙ decode_from-nil c.fuel' c.st' c.pcm',
          omega (arith, c.longer),
        )

    -- If the last frame is a header and the decoder faults on it, so does the whole call.
    pub decode-fault :
        (frames : List (List ℕ)) (header max_frames : ℕ)
        → All IsStorageFrame frames
        → IsStorageFrame (header ∷ [])
        → AllRead Reads frames (header ∷ [])
        → ((st : native.State) → native.d_if_decode st (header ∷ []) (bad_frame header) ≡ none)
        → length frames < max_frames
        → length frames < max_int / pcm_bytes_per_frame
        → decode native (magic ++ join frames (header ∷ [])) max_frames ≡ err fault
    decode-fault frames header max_frames w last r faults few small =
        let all = frames ++ (header ∷ []) ∷ [] in
        let long = length-append frames ((header ∷ []) ∷ []) in
        let bytes = join-snoc frames (header ∷ []) in
        let begins =
          decode-frames all max_frames (All-snoc frames (header ∷ []) w last) (omega arith)
            (omega arith) (omega arith) in
        let c =
          decode_from-join (length (join frames (header ∷ []))) native.d_if_init frames
            (header ∷ []) [] serves.start w r (omega arith) in
        (rw bytes at begins)
        ∙ c.goes_on
        ∙ decode_from-fault c.fuel' c.st' header c.pcm' c.enough last (faults c.st')
