-- ===== src/Interface/Frames.antt =====
-- One call of `D_IF_decode`: when it returns, what it keeps of the state, and its samples.
use talk2text.Prelude.{
  ℕ, zero, suc, ◌/◌, ◌%◌, ◌^◌, ◌≤◌, ◌<◌, bit_and, ◌≡◌, refl, Bool, true, false, ◌&&◌, if◌then◌else◌,
  Bool-cases, inl, inr, Option, some, List, [], ◌∷◌, map, get_elem?, get_or, length, length-map,
  length-replicate, ℤ, pos_part, neg_part, pattern16, arith,
}
use talk2text.Prelude.Bits.{bit_and_mask, bit_and_shifted}
use talk2text.Mime.{Unsorted, unpacked_size, amr_wb_sorting_tables}
use talk2text.Mime.Reference.{All}
use talk2text.Mime.Frame.{IsFrame}
use talk2text.Mime.Laws.{mime_unsorting-IsUnpacked}
use talk2text.Mime.Tables.Sound.{tables-IsSorting}
use talk2text.Mime.Types.{mime_unsorting_mode}
use talk2text.Homing.{homing_frame_test}
use talk2text.Homing.Modes.{homing_frame_test-returns}
use talk2text.Interface.{
  Core, DecoderState, amr_wb_pcm_frame, ehf_mask, clear_two_bits, is_erased, select_mode,
  synthesize, d_if_init, d_if_decode,
}

-- The mode of a call, and the whole bytes behind the header that it reads.
abbrev pub mode_of : ℕ → Bool → ℕ
mode_of header bfi = if bfi then 15 else bit_and (header / 2 ^ 3) 0x0f

abbrev pub whole_bytes : ℕ → Bool → ℕ
whole_bytes header bfi = get_or unpacked_size (mode_of header bfi) 0 / 8

abbrev pub IsSample : ℤ → Type 0
IsSample x =
    (pos_part x % 4 ≡ 0) × (neg_part x % 4 ≡ 0) × (pos_part x < 2 ^ 15) × (neg_part x ≤ 2 ^ 15)

pub record AreSamples (out : List ℤ) : Type 0 where
  pub frame_long : length out ≡ amr_wb_pcm_frame
  pub each : All IsSample out

clear_two_bits-IsSample : (x : ℤ) → IsSample (clear_two_bits x)
clear_two_bits-IsSample x =
    let p = pattern16 x in ground (arith, bit_and_shifted 2 p 0x3fff, bit_and_mask 14 (p / 2 ^ 2))

All-clear_two_bits : (xs : List ℤ) → All IsSample (map clear_two_bits xs)
All-clear_two_bits [] = tt
All-clear_two_bits (x ∷ xs) = (clear_two_bits-IsSample x, All-clear_two_bits xs)

get_or-get_elem? {ℓ} :
    {A : Type ℓ} (xs : List A) (i : ℕ) (d : A)
    → i < length xs
    → get_elem? xs i ≡ some (get_or xs i d)
get_or-get_elem? [] i d h = absurd (omega arith)
get_or-get_elem? (x ∷ xs) zero d h = refl
get_or-get_elem? (x ∷ xs) (suc i) d h = get_or-get_elem? xs i d (omega arith)

-- Every value of the mode field has its size and its table.
pub size_of :
    (mode : ℕ)
    → mode < 16
    → (table : List ℕ) × (get_elem? amr_wb_sorting_tables mode ≡ some table)
      × (get_elem? unpacked_size mode ≡ some (get_or unpacked_size mode 0))
      × (get_or unpacked_size mode 0 ≤ 477)
unfolding amr_wb_sorting_tables
size_of mode h =
    let et = get_or-get_elem? amr_wb_sorting_tables mode [] (omega arith) in
    let es = get_or-get_elem? unpacked_size mode 0 (omega arith) in
    (_, et, es, (tables-IsSorting mode _ _ et es).small)

pub mode_of-lt : (header : ℕ) (bfi : Bool) → mode_of header bfi < 16
mode_of-lt header bfi = ground (arith, bit_and_mask 4 (header / 2 ^ 3))

module _ (core : Core) where
  -- What holds of the decoder between two frames.
  pub record IsDecoderState (s : DecoderState core) : Type 0 where
    pub room : length s.input_sample_buf ≡ 477
    pub old_mode : s.mode_old ≤ 8
    pub previous_mode : s.rx_state.prev_mode ≤ 8

  pub d_if_init-IsDecoderState :
      (memory : List ℕ) → length memory ≡ 477 → IsDecoderState (d_if_init core memory)
  unfolding d_if_init
  d_if_init-IsDecoderState memory h = ground arith

  select_mode-returns :
      (s : DecoderState core) (u : Unsorted)
      → s.mode_old ≤ 8
      → u.mode ≤ 8
      → 477 ≤ length u.sorted
      → (mode : ℕ) × (mode_old : ℕ) × (flag : Bool) × (select_mode core s u
          ≡ some (mode, mode_old, flag))
        × (mode ≤ 8)
        × (mode_old ≤ 8)
  unfolding select_mode
  select_mode-returns s u h g room = elim (Bool-cases (is_erased u.frame_type)) [
    | inl erased ↦ (s.mode_old, s.mode_old, false, rw erased refl, h, h)
    | inr carried ↦
        let (_, (flag, e)) = homing_frame_test-returns u.sorted u.mode g room in
        elim (Bool-cases s.reset_flag_old) [
          | inl homed ↦ (u.mode, u.mode, flag, rw (carried, homed, e) refl, g, g)
          | inr away ↦ (u.mode, u.mode, s.reset_flag, rw (carried, away) refl, g, g)
        ]
  ]

  synthesize-samples :
      (s : DecoderState core) (u : Unsorted) (mode : ℕ) (flag : Bool)
      → length (synthesize core s u mode flag).1 ≡ amr_wb_pcm_frame
  unfolding synthesize
  synthesize-samples s u mode flag = elim (Bool-cases (flag && s.reset_flag_old)) [
    | inl homing ↦ rw homing (length-replicate amr_wb_pcm_frame ehf_mask)
    | inr other ↦ rw other (core.samples mode u.sorted s.st u.frame_type)
  ]

  whole_test :
      (away : Bool) (flag : Bool) (sorted : List ℕ) (mode : ℕ)
      → mode ≤ 8
      → 477 ≤ length sorted
      → (b : Bool) × ((if away then some flag else homing_frame_test sorted mode) ≡ some b)
  whole_test true flag sorted mode h room = (flag, refl)
  whole_test false flag sorted mode h room = (homing_frame_test-returns sorted mode h room).0

  -- The call returns the next state and a frame of samples.
  pub record Decodes (result : Option (DecoderState core × List ℤ)) : Type 0 where
    pub next : DecoderState core
    pub out : List ℤ
    pub returns : result ≡ some (next, out)
    pub state : IsDecoderState next
    pub samples : AreSamples out

  -- If the bit buffer has its 477 entries and the mode before and the mode of the receiver's state
  -- are at most 8, then on every header, on every payload of bytes that is longer than the whole
  -- bytes of the frame's mode, and with every core that writes 320 samples, `d_if_decode` returns,
  -- so outside the core it reads nothing out of range; it puts out 320 samples of 16 bits, each a
  -- multiple of 4, and the state after it has the same properties.
  pub d_if_decode-Decodes :
      (s : DecoderState core) (header : ℕ) (payload : List ℕ) (bfi : Bool)
      → IsDecoderState s
      → IsFrame payload
      → whole_bytes header bfi < length payload
      → Decodes (d_if_decode core s (header ∷ payload) bfi)
  unfolding d_if_decode
  d_if_decode-Decodes s header payload bfi v frame enough =
      let mode = mode_of header bfi in
      let (table, et, es, small) = size_of mode (mode_of-lt header bfi) in
      let (u, unsorted, unpacked) =
        mime_unsorting-IsUnpacked payload s.input_sample_buf mode 1 s.rx_state table _ et es frame
          enough (omega (arith, v.room)) in
      let (low, kept, _, _) =
        mime_unsorting_mode payload s.input_sample_buf mode 1 s.rx_state u unsorted
          v.previous_mode in
      let same = unpacked.same_length in
      let (mode', mode_old, flag, selected, lo, lo') =
        select_mode-returns s u v.old_mode low (omega (arith, v.room)) in
      let (reset_flag, tested) =
        whole_test s.reset_flag_old flag u.sorted mode' lo (omega (arith, v.room)) in
      let synthesized = synthesize core s u mode' flag in
      record {
        next = record {
          st = if reset_flag then core.reset synthesized.0 else synthesized.0;
          input_sample_buf = u.sorted;
          mode_old = mode_old;
          reset_flag = reset_flag;
          reset_flag_old = reset_flag;
          rx_state = u.st;
        };
        out = map clear_two_bits synthesized.1;
        returns = rw (unsorted, selected, tested) refl;
        state = record {
          room = omega (arith, v.room);
          old_mode = lo';
          previous_mode = omega arith;
        };
        samples = record {
          frame_long =
              omega
                (arith, length-map synthesized.1 clear_two_bits, synthesize-samples s u mode' flag);
          each = All-clear_two_bits synthesized.1;
        };
      }
