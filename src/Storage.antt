-- ===== src/Storage.antt =====
-- internal/amrwb/decoder.go and internal/amrwb/native/cgo.go: a storage stream is checked frame by
-- frame, and each frame is handed to the decoder. A slice that is cut off at the front is what is
-- left of the list. Numbers of bytes are below 2 ^ 63, as the machine's int.
pub mod Frames
pub mod Output
pub mod Bound
use talk2text.Prelude.{
  ℕ, zero, suc, ◌+◌, ◌-◌, ◌*◌, ◌/◌, ◌%◌, ◌^◌, bit_and, Bool, true, false, not, if◌then◌else◌, ltb,
  ◌==◌, Option, none, some, List, [], ◌∷◌, ◌++◌, get_elem?, get_or, length, take, drop, ℤ,
  pattern16,
}

-- The errors of the package, with the values that their texts carry. `fault` is no error of the code:
-- the C decoder accesses memory that it may not.
pub data DecodeError : Type 0 where
  invalid_header fault invalid_frame_size too_large : DecodeError
  reserved_frame_type : ℕ → DecodeError
  truncated : ℕ → ℕ → ℕ → DecodeError
  too_long : ℕ → DecodeError

pub data Result {ℓ} (A : Type ℓ) : Type ℓ where
  ok : A → Result A
  err : DecodeError → Result A

infixl 5 ◌>>=◌
abbrev pub ◌>>=◌ {ℓ κ} : {A : Type ℓ} {B : Type κ} → Result A → (A → Result B) → Result B
ok a >>= f = f a
err e >>= f = err e

abbrev pub or_fault {ℓ} : {A : Type ℓ} → Option A → Result A
or_fault none = err fault
or_fault (some a) = ok a

-- "#!AMR-WB\n"
abbrev pub magic : List ℕ
magic = b'#' ∷ b'!' ∷ b'A' ∷ b'M' ∷ b'R' ∷ b'-' ∷ b'W' ∷ b'B' ∷ 10 ∷ []

abbrev pub frame_bytes : List ℕ
frame_bytes = 18 ∷ 24 ∷ 33 ∷ 37 ∷ 41 ∷ 47 ∷ 51 ∷ 59 ∷ 61 ∷ 6 ∷ 0 ∷ 0 ∷ 0 ∷ 0 ∷ 1 ∷ 1 ∷ []

unfoldable pub frame_size : ℕ → ℕ × Bool
frame_size header =
    let size = get_or frame_bytes (bit_and (header / 2 ^ 3) 0x0f) 0 in (size, not (size == 0))

-- bytes.HasPrefix
unfoldable pub has_prefix : List ℕ → List ℕ → Bool
has_prefix xs [] = true
has_prefix [] (p ∷ ps) = false
has_prefix (x ∷ xs) (p ∷ ps) = let rest = has_prefix xs ps in if x == p then rest else false

-- The loop of `validateFrames`, on fuel: `frames` is `frames[offset:]`.
unfoldable pub validate_from : ℕ → ℕ → List ℕ → ℕ → ℕ → Result ℕ
validate_from max_frames fuel [] offset count = ok count
validate_from max_frames zero (header ∷ frames) offset count = err fault
validate_from max_frames (suc fuel) (header ∷ frames) offset count =
    let size = (frame_size header).0 in
    let rest =
      validate_from max_frames fuel (drop size (header ∷ frames)) (offset + size) (count + 1) in
    if not (frame_size header).1
    then err (reserved_frame_type (length magic + offset))
    else if ltb (length (header ∷ frames)) size
    then err (truncated (length magic + offset) size (length (header ∷ frames)))
    else if ltb max_frames (count + 1)
    then err (too_long max_frames)
    else rest

unfoldable pub validate_frames : List ℕ → ℕ → Result ℕ
validate_frames frames max_frames = validate_from max_frames (length frames) frames 0 0

-- SamplesPerFrame, pcmBytesPerFrame and math.MaxInt.
abbrev pub samples_per_frame : ℕ
samples_per_frame = 320

abbrev pub pcm_bytes_per_frame : ℕ
pcm_bytes_per_frame = samples_per_frame * 2

abbrev pub max_int : ℕ
max_int = 2 ^ 63 - 1

-- binary.LittleEndian.AppendUint16 of uint16(sample), for each sample.
unfoldable pub append_samples : List ℕ → List ℤ → List ℕ
append_samples pcm [] = pcm
append_samples pcm (sample ∷ samples) =
    let v = pattern16 sample in append_samples (pcm ++ v % 2 ^ 8 ∷ v / 2 ^ 8 ∷ []) samples

-- The decoder of the C code: its state, and `D_IF_decode`, which gets the memory from the frame's
-- first byte on, and may read more of it than the frame.
pub record Native : Type 1 where
  pub State : Type 0
  pub d_if_init : State
  pub d_if_decode : State → List ℕ → Bool → Option (State × List ℤ)

module _ (native : Native) where
  -- `Decoder.Decode` of an open decoder, on the first `size` bytes of the memory.
  unfoldable pub decode_frame : native.State → List ℕ → ℕ → Bool → Result (native.State × List ℤ)
  decode_frame st memory size bad_frame =
      let frame = take size memory in
      if length frame == 0
      then err invalid_frame_size
      else let want = frame_size (get_or frame 0 0) in
        if not want.1
        then err invalid_frame_size
        else if length frame == want.0
        then or_fault (native.d_if_decode st memory bad_frame)
        else err invalid_frame_size

  -- The loop of `Decode` over the checked frames, on fuel.
  unfoldable pub decode_from : ℕ → native.State → List ℕ → List ℕ → Result (List ℕ)
  decode_from fuel st [] pcm = ok pcm
  decode_from zero st (header ∷ frames) pcm = err fault
  decode_from (suc fuel) st (header ∷ frames) pcm = do
    let size = (frame_size header).0
    (st', samples) ← decode_frame st (header ∷ frames) size (bit_and header 0x04 == 0)
    decode_from fuel st' (drop size (header ∷ frames)) (append_samples pcm samples)

  unfoldable pub decode : List ℕ → ℕ → Result (List ℕ)
  decode stream max_frames =
      if not (has_prefix stream magic)
      then err invalid_header
      else let frames = drop (length magic) stream in
        validate_frames frames max_frames >>= λ frame_count.
        if frame_count == 0
        then ok []
        else if ltb (max_int / pcm_bytes_per_frame) frame_count
        then err too_large
        else decode_from (length frames) native.d_if_init frames []
