-- ===== src/Stream.antt =====
-- A storage stream through both layers: `Decode` of internal/amrwb/decoder.go over `D_IF_decode` of
-- wrapper.c, down to the unpacking of each frame.
use talk2text.Prelude.{
  ℕ, suc, ◌+◌, ◌*◌, ◌/◌, ◌≤◌, ◌<◌, ◌≡◌, refl, ap, Bool, true, false, ◌&&◌, ◌||◌, ltb, leb, ◌==◌,
  all_below, all_below_sound, ◌⊎◌, inl, inr, none, List, [], ◌∷◌, ◌++◌, get_or, length,
  length-append, arith,
}
use talk2text.Mime.{unpacked_size}
use talk2text.Mime.Reference.{All}
use talk2text.Mime.Frame.{IsFrame}
use talk2text.Mime.Types.{mime_unsorting_reads_past}
use talk2text.Interface.{Core, DecoderState, d_if_init, d_if_decode}
use talk2text.Interface.Frames.{
  mode_of, mode_of-lt, whole_bytes, size_of, IsDecoderState, d_if_init-IsDecoderState,
  d_if_decode-Decodes,
}
use talk2text.Storage.{
  Native, frame_bytes, frame_size, magic, decode, ok, err, fault, max_int, pcm_bytes_per_frame,
}
use talk2text.Storage.Frames.{IsStorageFrame, join, concat}
use talk2text.Storage.Output.{Serves, AllRead, bad_frame, decode-length, decode-fault}

-- The decoder of the C code; `memory` is the buffer as `malloc` left it.
abbrev pub native_of : Core → List ℕ → Native
native_of core memory = record {
  State = DecoderState core;
  d_if_init = d_if_init core memory;
  d_if_decode = d_if_decode core;
}

-- A frame with a payload, or one that is not the last.
abbrev pub Reads : List ℕ → List ℕ → Type 0
Reads f rest = IsFrame (f ++ rest) × ((1 < length f) ⊎ (0 < length rest))

-- The last frame, if there is one, has a payload.
abbrev pub LastCarries : List (List ℕ) → Type 0
LastCarries [] = Unit
LastCarries (f ∷ []) = 1 < length f
LastCarries (f ∷ g ∷ fs) = LastCarries (g ∷ fs)

-- The sizes of decoder.go leave a byte behind the whole bytes of the frames that carry bits.
sizes_table :
    all_below 16 (λ mode.
      let size = get_or frame_bytes mode 0 in
      let bits = get_or unpacked_size mode 0 in leb size 1 && bits == 0 || ltb (bits / 8 + 1) size)
    ≡ true
unfolding all_below
sizes_table = refl

room_lem :
    (size bits payload rest : ℕ)
    → (leb size 1 && bits == 0 || ltb (bits / 8 + 1) size) ≡ true
    → size ≡ suc payload
    → (1 < suc payload) ⊎ (0 < rest)
    → bits / 8 < payload + rest
room_lem size bits payload rest t e carries = ground arith

no_bits :
    (size bits : ℕ)
    → (leb size 1 && bits == 0 || ltb (bits / 8 + 1) size) ≡ true
    → size ≡ 1
    → bits ≡ 0
no_bits size bits t e = ground arith

whole_bytes-lt :
    (header : ℕ) (payload rest : List ℕ) (bfi : Bool)
    → IsStorageFrame (header ∷ payload)
    → (1 < length (header ∷ payload)) ⊎ (0 < length rest)
    → whole_bytes header bfi < length (payload ++ rest)
unfolding frame_size
whole_bytes-lt header payload rest true w carries = ground (arith, length-append payload rest)
whole_bytes-lt header payload rest false w carries =
    let mode = mode_of header false in
    let t = all_below_sound 16 _ mode sizes_table (mode_of-lt header false) in
    let e : get_or frame_bytes mode 0 ≡ suc (length payload) = ap (λ p. p.0) w in
    rw (length-append payload rest) (
      room_lem (get_or frame_bytes mode 0) (get_or unpacked_size mode 0) (length payload)
        (length rest) t e carries)

header_bits :
    (header : ℕ) (bfi : Bool)
    → IsStorageFrame (header ∷ [])
    → get_or unpacked_size (mode_of header bfi) 0 ≡ 0
unfolding frame_size
header_bits header true w = refl
header_bits header false w =
    let mode = mode_of header false in
    no_bits (get_or frame_bytes mode 0) (get_or unpacked_size mode 0)
      (all_below_sound 16 _ mode sizes_table (mode_of-lt header false)) (ap (λ p. p.0) w)

-- A frame of one byte is read past its end where nothing follows it.
d_if_decode-none :
    (core : Core) (st : DecoderState core) (header : ℕ) (bfi : Bool)
    → IsStorageFrame (header ∷ [])
    → d_if_decode core st (header ∷ []) bfi ≡ none
unfolding d_if_decode
d_if_decode-none core st header bfi w =
    let mode = mode_of header bfi in
    let (table, et, es, _) = size_of mode (mode_of-lt header bfi) in
    let none_carried = header_bits header bfi w in
    let e =
      mime_unsorting_reads_past [] st.input_sample_buf mode 1 st.rx_state table _ et es
        (omega arith) (omega arith) in
    rw e refl

All-right {ℓ} : {A : Type 0} (P : A → Type ℓ) (xs ys : List A) → All P (xs ++ ys) → All P ys
All-right P [] ys h = h
All-right P (x ∷ xs) ys h = All-right P xs ys h.1

longer : (f tail : List ℕ) → IsStorageFrame f → 0 < length (f ++ tail)
longer [] tail w = absurd w
longer (header ∷ payload) tail w = omega arith

-- The bytes of each frame and of what is behind it may be read, if the last frame has a payload or
-- more follows.
AllRead_lem :
    (frames : List (List ℕ)) (tail : List ℕ)
    → All IsStorageFrame frames
    → IsFrame (join frames tail)
    → LastCarries frames ⊎ (0 < length tail)
    → AllRead Reads frames tail
AllRead_lem [] tail w b l = tt
AllRead_lem (f ∷ []) tail w b l = ((b, l), tt)
AllRead_lem (f ∷ g ∷ fs) tail w b l = (
  (b, inr (longer g (join fs tail) w.1.0)),
  AllRead_lem (g ∷ fs) tail w.1 (All-right (λ x. x < 256) f (join (g ∷ fs) tail) b) l,
)

module _ (core : Core) (memory : List ℕ) (room : length memory ≡ 477) where
  serves : Serves (native_of core memory) (IsDecoderState core) Reads
  serves = record {
    start = d_if_init-IsDecoderState core memory room;
    step = λ st header payload rest v w r.
        let d =
          d_if_decode-Decodes core st header (payload ++ rest) (bad_frame header) v r.0.1
            (whole_bytes-lt header payload rest (bad_frame header) w r.1) in
        (d.next, d.out, d.returns, d.state, d.samples.frame_long);
  }

  -- With a core that writes 320 samples a frame and a buffer of 477 entries: on the file signature
  -- and any whole storage frames of bytes, the last of them with a payload, and not more than
  -- `max_frames` and than the 640th part of the biggest number of the machine, `decode` succeeds,
  -- so outside the core no read leaves the input, and gives 640 bytes for each frame.
  pub decode-whole_stream :
      (frames : List (List ℕ)) (max_frames : ℕ)
      → All IsStorageFrame frames
      → IsFrame (concat frames)
      → LastCarries frames
      → length frames ≤ max_frames
      → length frames ≤ max_int / pcm_bytes_per_frame
      → (out : List ℕ) × (decode (native_of core memory) (magic ++ concat frames) max_frames
          ≡ ok out)
        × (length out ≡ 640 * length frames)
  decode-whole_stream frames max_frames w b l =
      decode-length (native_of core memory) (IsDecoderState core) Reads serves frames max_frames w
        (AllRead_lem frames [] w b (inl l))

  -- With a core that writes 320 samples a frame and a buffer of 477 entries: on any whole storage
  -- frames of bytes and behind them a frame of one byte, fewer than `max_frames` and the 640th
  -- part of the biggest number of the machine before the last, `decode` reads out of range,
  -- although each frame is valid.
  pub decode-past_end :
      (frames : List (List ℕ)) (header max_frames : ℕ)
      → All IsStorageFrame frames
      → IsStorageFrame (header ∷ [])
      → IsFrame (join frames (header ∷ []))
      → length frames < max_frames
      → length frames < max_int / pcm_bytes_per_frame
      → decode (native_of core memory) (magic ++ join frames (header ∷ [])) max_frames ≡ err fault
  decode-past_end frames header max_frames w last b =
      decode-fault (native_of core memory) (IsDecoderState core) Reads serves frames header
        max_frames w last (AllRead_lem frames (header ∷ []) w b (inr (omega arith)))
        (λ st. d_if_decode-none core st header (bad_frame header) last)
