-- ===== src/Mime/Types.antt =====
-- The frame type and mode that `mime_unsorting` sets, when it faults, and two frames compared.
use talk2text.Prelude.{
  ℕ, zero, suc, ◌/◌, ◌≤◌, ◌<◌, bit_and, ◌≡◌, refl, ap, sym, ◌∙◌, Bool, true, false, not,
  if◌then◌else◌, leb, ◌==◌, Option, none, some, some-injective, List, [], ◌∷◌, get_elem?, length,
  drop, arith,
}
use talk2text.Mime.{
  Unsorted, RxState, ◌>>=◌, Cursor, unsort_byte, unsort_bytes, unpacked_size, amr_wb_sorting_tables,
  clear, mime_unsorting, set_frame_type, FrameType, bit_1,
}
use talk2text.Mime.Reference.{bit, byte_bits, bits_of}
use talk2text.Prelude.{all_below, all_below_sound}
use talk2text.Mime.Unsorting.{last_temp}
use talk2text.Mime.Frame.{IsFrame, mime_unsorting-place}
use talk2text.Mime.Tables.Low.{sort_sid}
use talk2text.Mime.Laws.{IsUnpacked, mime_unsorting-IsUnpacked}
use talk2text.Mime.Tables.Sound.{tables-IsSorting}

-- If the mode of the frames before is at most 8 and `mime_unsorting` returns, the mode that comes
-- out is at most 8, it is kept as the mode before, a mode of at most 8 that goes in comes out
-- unchanged, and any other gives the mode before.
pub mime_unsorting_mode :
    (bytes buffer : List ℕ) (mode quality : ℕ) (st : RxState) (u : Unsorted)
    → mime_unsorting bytes buffer mode quality st ≡ some u
    → st.prev_mode ≤ 8
    → (u.mode ≤ 8)
      × (u.st.prev_mode ≡ u.mode)
      × ((mode ≤ 8) → u.mode ≡ mode)
      × ((9 ≤ mode) → u.mode ≡ st.prev_mode)
unfolding mime_unsorting set_frame_type
mime_unsorting_mode bytes buffer mode quality st u e h =
    (ground arith, ground arith, λ p. ground arith, λ p. ground arith)

-- The bit that `temp & 0x80` sees after three shifts, for every byte.
sti_table :
    all_below 256
      (λ b. (if bit_and (last_temp 3 b) 0x80 == 0 then 0 else 1) == (if bit b 4 then 1 else 0))
    ≡ true
unfolding all_below last_temp
sti_table = refl

sti : (b : ℕ) → b < 256 → (bit_and (last_temp 3 b) 0x80 == 0) ≡ not (bit b 4)
sti b h = ground (arith, all_below_sound 256 _ b sti_table h)

fifth_byte :
    (bytes : List ℕ) (b : Bool)
    → IsFrame bytes
    → 4 < length bytes
    → get_elem? (bits_of bytes) 35 ≡ some b
    → (last : ℕ) × (get_elem? (drop 4 bytes) 0 ≡ some last)
      × ((bit_and (last_temp 3 last) 0x80 == 0) ≡ not b)
unfolding bits_of byte_bits
fifth_byte [] b w h e = absurd (omega arith)
fifth_byte (b0 ∷ []) b w h e = absurd (omega arith)
fifth_byte (b0 ∷ b1 ∷ []) b w h e = absurd (omega arith)
fifth_byte (b0 ∷ b1 ∷ b2 ∷ []) b w h e = absurd (omega arith)
fifth_byte (b0 ∷ b1 ∷ b2 ∷ b3 ∷ []) b w h e = absurd (omega arith)
fifth_byte (b0 ∷ b1 ∷ b2 ∷ b3 ∷ b4 ∷ bs) b w h e = (b4, refl, cc (sti b4 w.1.1.1.1.0))

sid_type :
    (b : Bool) (x quality : ℕ)
    → 0 < quality
    → (x == 0) ≡ not b
    → (if quality == 0
        then FrameType.rx_sid_bad
        else if x == 0
        then FrameType.rx_sid_first
        else FrameType.rx_sid_update)
      ≡ (if b then FrameType.rx_sid_update else FrameType.rx_sid_first)
sid_type true x quality h e = ground arith
sid_type false x quality h e = ground arith

-- On a SID frame of at least five bytes, with a buffer of at least 35 entries and a quality that
-- is not 0, `mime_unsorting` returns, the frame type is an update if bit 35 of the frame is set
-- and a first SID frame if not, and the mode is the one of the frames before.
pub mime_unsorting_sid :
    (bytes buffer : List ℕ) (quality : ℕ) (st : RxState) (b : Bool)
    → IsFrame bytes
    → 4 < length bytes
    → 35 ≤ length buffer
    → 0 < quality
    → get_elem? (bits_of bytes) 35 ≡ some b
    → (u : Unsorted) × (mime_unsorting bytes buffer 9 quality st ≡ some u)
      × (u.frame_type ≡ (if b then FrameType.rx_sid_update else FrameType.rx_sid_first))
      × (u.mode ≡ st.prev_mode)
unfolding set_frame_type
mime_unsorting_sid bytes buffer quality st b w h room good e =
    let (last, el, eb) = fifth_byte bytes b w h e in
    (
      _,
      mime_unsorting-place bytes buffer 9 quality st sort_sid 35 last
          (unfold amr_wb_sorting_tables in refl) refl w h room el,
      sid_type b (bit_and (last_temp 3 last) 0x80) quality good eb,
      refl,
    )

-- With no byte behind the whole ones the next read is out of range, whatever would follow it.
no_next_byte {ℓ} :
    {A : Type ℓ} (n : ℕ) (bytes : List ℕ) (c : Cursor) (k : ℕ → Cursor → Option A)
    → length bytes ≤ n
    → (unsort_bytes n bytes c >>= λ r. get_elem? r.0 0 >>= λ last. k last r.1) ≡ none
unfolding unsort_bytes
no_next_byte zero [] c k h = refl
no_next_byte zero (b ∷ bs) c k h = absurd (omega arith)
no_next_byte (suc n) [] c k h = refl
no_next_byte {A} (suc n) (b ∷ bs) c k h =
    after (λ c'. no_next_byte n bs c' k (omega arith)) (unsort_byte b c)
  where
    after :
        ((c' : Cursor)
          → (unsort_bytes n bs c' >>= λ r. get_elem? r.0 0 >>= λ last. k last r.1) ≡ none)
        → (r : Option Cursor)
        → ((r >>= λ c'. unsort_bytes n bs c') >>= λ r. get_elem? r.0 0 >>= λ last. k last r.1)
          ≡ none
    after ih none = refl
    after ih (some c') = ih c'

-- For every mode with its table and size and a buffer of at least that size, `mime_unsorting`
-- faults with a read out of range on a frame that has no byte behind its whole bytes; this
-- includes the modes 10 to 15, whose frames have no bits, on a frame with no payload.
pub mime_unsorting_reads_past :
    (bytes buffer : List ℕ) (mode quality : ℕ) (st : RxState) (table : List ℕ) (size : ℕ)
    → get_elem? amr_wb_sorting_tables mode ≡ some table
    → get_elem? unpacked_size mode ≡ some size
    → size ≤ length buffer
    → length bytes ≤ size / 8
    → mime_unsorting bytes buffer mode quality st ≡ none
unfolding mime_unsorting clear
mime_unsorting_reads_past bytes buffer mode quality st table size et es room short =
    let fits : leb size (length buffer) ≡ true = ground arith in
    rw (et, es, fits) (no_next_byte (size / 8) bytes _ _ short)

place_of : (table : List ℕ) (i : ℕ) → i < length table → (p : ℕ) × (get_elem? table i ≡ some p)
place_of [] i h = absurd (omega arith)
place_of (t ∷ ts) zero h = (t, refl)
place_of (t ∷ ts) (suc i) h = place_of ts i (omega arith)

same_bit : (a b : Bool) → some (if a then bit_1 else 0) ≡ some (if b then bit_1 else 0) → a ≡ b
same_bit true true e = refl
same_bit true false e = ground arith
same_bit false true e = ground arith
same_bit false false e = refl

same_bits :
    (table : List ℕ) (size i : ℕ) (xs ys buffer buffer' : List ℕ) (u v : Unsorted) (a b : Bool)
    → IsUnpacked table size xs buffer u
    → IsUnpacked table size ys buffer' v
    → u.sorted ≡ v.sorted
    → i < length table
    → get_elem? (bits_of xs) i ≡ some a
    → get_elem? (bits_of ys) i ≡ some b
    → a ≡ b
same_bits table size i xs ys buffer buffer' u v a b hu hv e h ea eb =
    let (p, ep) = place_of table i h in
    same_bit a b (sym (hu.bits i p a ep ea) ∙ ap (λ s. get_elem? s p) e ∙ hv.bits i p b ep eb)

-- What a call returned is the frame unpacked.
returned :
    (bytes buffer : List ℕ) (mode quality : ℕ) (st : RxState) (table : List ℕ) (size : ℕ)
    (u : Unsorted)
    → get_elem? amr_wb_sorting_tables mode ≡ some table
    → get_elem? unpacked_size mode ≡ some size
    → IsFrame bytes
    → size / 8 < length bytes
    → size ≤ length buffer
    → mime_unsorting bytes buffer mode quality st ≡ some u
    → IsUnpacked table size bytes buffer u
returned bytes buffer mode quality st table size u et es frame enough room e =
    let (w, f, unpacked) =
      mime_unsorting-IsUnpacked bytes buffer mode quality st table size et es frame enough room in
    let same : w ≡ u = some-injective _ _ (sym f ∙ e) in rw (← same) unpacked

-- If two frames of bytes, each with a byte behind its whole bytes, are unpacked in the same mode
-- into buffers of at least the mode's size, and the buffers come out equal, then the frames' bits
-- below the mode's size are equal, bit by bit, whatever the buffers held before.
pub mime_unsorting_injective :
    (mode quality quality' size i : ℕ) (table xs ys buffer buffer' : List ℕ) (st st' : RxState)
    (u v : Unsorted) (a b : Bool)
    → get_elem? amr_wb_sorting_tables mode ≡ some table
    → get_elem? unpacked_size mode ≡ some size
    → IsFrame xs
    → IsFrame ys
    → size / 8 < length xs
    → size / 8 < length ys
    → size ≤ length buffer
    → size ≤ length buffer'
    → mime_unsorting xs buffer mode quality st ≡ some u
    → mime_unsorting ys buffer' mode quality' st' ≡ some v
    → u.sorted ≡ v.sorted
    → i < size
    → get_elem? (bits_of xs) i ≡ some a
    → get_elem? (bits_of ys) i ≡ some b
    → a ≡ b
mime_unsorting_injective mode quality quality' size i table xs ys buffer buffer' st st' u v a b et
      es fx fy lx ly rx ry ex ey e h ea eb =
    let sorting = tables-IsSorting mode table size et es in
    same_bits table size i xs ys buffer buffer' u v a b
      (returned xs buffer mode quality st table size u et es fx lx rx ex)
      (returned ys buffer' mode quality' st' table size v et es fy ly ry ey) e
      (omega (arith, sorting.long)) ea eb
