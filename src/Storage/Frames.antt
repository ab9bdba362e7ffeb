-- ===== src/Storage/Frames.antt =====
-- `validateFrames` against a description of the streams: a sequence of whole frames.
use talk2text.Prelude.{
  ℕ, zero, suc, ◌+◌, ◌-◌, ◌≤◌, ◌<◌, ◌≡◌, ◌↔◌, refl, ap, true, false, ltb, List, [], ◌∷◌, ◌++◌,
  length, length-append, length-take, length-drop, take, drop, take-append-drop, arith,
}
use talk2text.Mime.Reference.{All}
use talk2text.Storage.{ok, frame_size, validate_from, validate_frames}

-- A header of a type that is not reserved, and the bytes that the type has behind it.
abbrev pub IsStorageFrame : List ℕ → Type 0
IsStorageFrame [] = ⊥
IsStorageFrame (header ∷ payload) = frame_size header ≡ (length (header ∷ payload), true)

-- The frames, and then the bytes `tail`.
abbrev pub join : List (List ℕ) → List ℕ → List ℕ
join [] tail = tail
join (xs ∷ xss) tail = xs ++ join xss tail

abbrev pub concat : List (List ℕ) → List ℕ
concat frames = join frames []

-- The bytes are those of `n` whole frames, one behind the other.
pub record IsStream (n : ℕ) (bytes : List ℕ) : Type 0 where
  pub frames : List (List ℕ)
  pub joined : concat frames ≡ bytes
  pub whole : All IsStorageFrame frames
  pub count : length frames ≡ n

pub frame_size_positive : (header : ℕ) → (frame_size header).1 ≡ true → 0 < (frame_size header).0
unfolding frame_size
frame_size_positive header h = ground arith

drop_shorter :
    (n : ℕ) (header : ℕ) (bytes : List ℕ) → 0 < n → length (drop n (header ∷ bytes)) ≤ length bytes
drop_shorter n header bytes h = omega (arith, length-drop n (header ∷ bytes))

-- The first frame of what a round accepts.
first_frame :
    (header : ℕ) (bytes : List ℕ) (n : ℕ)
    → frame_size header ≡ (n, true)
    → 0 < n
    → n ≤ length (header ∷ bytes)
    → IsStorageFrame (take n (header ∷ bytes))
first_frame header bytes zero e p h = absurd (omega arith)
first_frame header bytes (suc n) e p h =
    let l : suc (length (take n bytes)) ≡ suc n = omega (arith, length-take n bytes) in rw l e

-- What a round of the loop has checked when it goes on.
record Round (max_frames fuel header : ℕ) (bytes : List ℕ) (offset count n : ℕ) : Type 0 where
  valid : (frame_size header).1 ≡ true
  fits : (frame_size header).0 ≤ length (header ∷ bytes)
  few : count + 1 ≤ max_frames
  rest :
      validate_from max_frames fuel
        (drop (frame_size header).0 (header ∷ bytes))
        (offset + (frame_size header).0)
        (count + 1)
      ≡ ok n

round :
    (max_frames fuel header : ℕ) (bytes : List ℕ) (offset count n : ℕ)
    → validate_from max_frames (suc fuel) (header ∷ bytes) offset count ≡ ok n
    → Round max_frames fuel header bytes offset count n
unfolding validate_from
round max_frames fuel header bytes offset count n e = ground arith

validate_from-IsStream :
    (max_frames fuel : ℕ) (bytes : List ℕ) (offset count n : ℕ)
    → count ≤ max_frames
    → validate_from max_frames fuel bytes offset count ≡ ok n
    → (count ≤ n) × (n ≤ max_frames) × IsStream (n - count) bytes
unfolding validate_from
validate_from-IsStream max_frames fuel [] offset count n h e =
    let same : count ≡ n = ground arith in
    (
      omega arith,
      omega arith,
      record { frames = []; joined = refl; whole = tt; count = omega arith },
    )
validate_from-IsStream max_frames zero (header ∷ bytes) offset count n h e = cc
validate_from-IsStream max_frames (suc fuel) (header ∷ bytes) offset count n h e =
    let r = round max_frames fuel header bytes offset count n e in
    let size = (frame_size header).0 in
    let (lo, hi, s) =
      validate_from-IsStream max_frames fuel (drop size (header ∷ bytes)) (offset + size)
        (count + 1) n r.few r.rest in
    (
      omega arith,
      hi,
      record {
        frames = take size (header ∷ bytes) ∷ s.frames;
        joined = rw s.joined (take-append-drop size (header ∷ bytes));
        whole = (
          first_frame header bytes size (λ i. (size, r.valid i))
              (frame_size_positive header r.valid) r.fits,
          s.whole,
        );
        count = omega (arith, s.count);
      },
    )

pub drop-append {ℓ} : {A : Type ℓ} (xs ys : List A) → drop (length xs) (xs ++ ys) ≡ ys
drop-append [] ys = refl
drop-append (x ∷ xs) ys = drop-append xs ys

validate_from-concat :
    (max_frames fuel : ℕ) (frames : List (List ℕ)) (offset count : ℕ)
    → All IsStorageFrame frames
    → length (concat frames) ≤ fuel
    → count + length frames ≤ max_frames
    → validate_from max_frames fuel (concat frames) offset count ≡ ok (count + length frames)
unfolding validate_from
validate_from-concat max_frames fuel [] offset count w f h =
    let e : count + 0 ≡ count = omega arith in rw e refl
validate_from-concat max_frames fuel ([] ∷ frames) offset count w f h = absurd w.0
validate_from-concat max_frames zero ((header ∷ payload) ∷ frames) offset count w f h =
    absurd (omega arith)
validate_from-concat max_frames (suc fuel) ((header ∷ payload) ∷ frames) offset count w f h =
    let size = suc (length payload) in
    let long = length-append payload (concat frames) in
    let rest : drop size (header ∷ (payload ++ concat frames)) ≡ concat frames =
      drop-append payload (concat frames) in
    let fits : ltb (suc (length (payload ++ concat frames))) size ≡ false = ground (arith, long) in
    let few : ltb max_frames (count + 1) ≡ false = ground arith in
    let shift : count + suc (length frames) ≡ count + 1 + length frames = omega arith in
    rw (w.0, fits, few, rest, shift)
      (validate_from-concat max_frames fuel frames (offset + size) (count + 1) w.1 (omega arith)
        (omega arith))

-- `validate_frames` accepts the bytes with the count `n` exactly if they are `n` storage frames
-- one behind the other, each with the size of its type, and `n` is at most `max_frames`.
pub validate_frames-IsStream :
    (bytes : List ℕ) (max_frames n : ℕ)
    → (validate_frames bytes max_frames ≡ ok n) ↔ ((n ≤ max_frames) × IsStream n bytes)
unfolding validate_frames
validate_frames-IsStream bytes max_frames n = (
  λ e.
      let (_, hi, s) =
        validate_from-IsStream max_frames (length bytes) bytes 0 0 n (omega arith) e in
      let same : n - 0 ≡ n = omega arith in (hi, rw same at s),
  λ s.
      let same : 0 + length s.1.frames ≡ n = omega (arith, s.1.count) in
      let e =
        validate_from-concat max_frames (length bytes) s.1.frames 0 0 s.1.whole
          (omega (arith, ap length s.1.joined)) (omega arith) in
      rw (s.1.joined, same) at e,
)
