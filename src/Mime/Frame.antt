-- ===== src/Mime/Frame.antt =====
-- What `mime_unsorting` returns on a frame that is long enough, on every mode.
use talk2text.Prelude.{
  ℕ, zero, suc, ◌*◌, ◌/◌, ◌%◌, ◌≤◌, ◌<◌, ◌≡◌, ap, ◌∙◌, Bool, true, if◌then◌else◌, ltb, leb, some,
  List, [], ◌∷◌, ◌++◌, get_elem?, length, take, drop, arith, replicate, length-append,
  length-replicate, length-drop, length-take,
}
use talk2text.Mime.{
  Cursor, RxState, unsort_bytes, unsort_bits, unpacked_size, amr_wb_sorting_tables, clear,
  mime_unsorting, set_frame_type,
}
use talk2text.Mime.Reference.{byte_bits, bits_of, place, All, length-place}
use talk2text.Mime.Unsorting.{
  moves-place, unsort_bytes-moves, unsort_bits-take, last_temp, length-byte_bits,
}
use talk2text.Mime.Unpack.{
  whole_and_rest, length-bits_of, place-append, place-take, next_byte-lt, All-drop,
}
use talk2text.Mime.Tables.Sound.{IsSorting, tables-IsSorting}

abbrev pub IsFrame : List ℕ → Type 0
IsFrame bytes = All (λ b. b < 256) bytes

-- The buffer before the bits are put: the mode's places cleared.
abbrev pub cleared : ℕ → List ℕ → List ℕ
cleared size buffer = replicate size 0 ++ drop size buffer

pub length-cleared :
    (size : ℕ) (buffer : List ℕ)
    → size ≤ length buffer
    → length (cleared size buffer) ≡ length buffer
length-cleared size buffer h = omega (
  arith,
  length-append (replicate size 0) (drop size buffer),
  length-replicate {0} size (let z : ℕ = 0 in z),
  length-drop size buffer,
)

pub All-mono : (n m : ℕ) (xs : List ℕ) → n ≤ m → All (λ t. t < n) xs → All (λ t. t < m) xs
All-mono n m [] h w = tt
All-mono n m (x ∷ xs) h w = (omega arith, All-mono n m xs h w.1)

module _ (table : List ℕ) (size : ℕ) (ok : IsSorting table size) (bytes : List ℕ)
    (frame : IsFrame bytes) (enough : size / 8 < length bytes) (start : List ℕ)
    (room : size ≤ length start) where
  inside : All (λ t. t < length start) table
  inside = All-mono size (length start) table room ok.inside

  whole : List Bool
  whole = bits_of (take (size / 8) bytes)

  length-whole : length whole ≡ 8 * (size / 8)
  unfolding whole
  length-whole = omega (arith, length-bits_of (take (size / 8) bytes), length-take (size / 8) bytes)

  after_whole : Cursor
  after_whole = record { table = drop (length whole) table; sorted = place table whole start }

  bytes_part :
      unsort_bytes (size / 8) bytes (record { table = table; sorted = start })
      ≡ some (drop (size / 8) bytes, after_whole)
  unfolding after_whole whole
  bytes_part = rw (
    unsort_bytes-moves (size / 8) bytes (record { table = table; sorted = start }) (omega arith)
        frame,
    moves-place (bits_of (take (size / 8) bytes)) table start (omega (arith, length-whole, ok.long))
        inside,
  )

  -- The two parts of the bits together.
  all_placed :
      (last : ℕ)
      → get_elem? (drop (size / 8) bytes) 0 ≡ some last
      → place
          (drop (length whole) table)
          (take (size % 8) (byte_bits last))
          (place table whole start)
        ≡ place table (bits_of bytes) start
  unfolding whole
  all_placed last e =
      place-append table whole (take (size % 8) (byte_bits last)) start
        (omega (arith, length-whole, ok.long))
      ∙ ap (λ bits. place table bits start)
          (whole_and_rest (size / 8) (size % 8) (length table) bytes last (omega arith)
            (omega (arith, ok.long)) e)
      ∙ place-take table (bits_of bytes) start

  bits_part :
      (last : ℕ)
      → get_elem? (drop (size / 8) bytes) 0 ≡ some last
      → unsort_bits (size % 8) last after_whole
        ≡ some (
          last_temp (size % 8) last,
          record {
            table = drop (length (take (size % 8) (byte_bits last))) (drop (length whole) table);
            sorted = place table (bits_of bytes) start;
          },
        )
  unfolding after_whole
  bits_part last e = rw (
    unsort_bits-take (size % 8) last after_whole (omega arith)
        (next_byte-lt (size / 8) bytes last frame e),
    moves-place (take (size % 8) (byte_bits last)) (drop (length whole) table)
        (place table whole start)
        (omega (
          arith,
          length-take (size % 8) (byte_bits last),
          length-byte_bits last,
          length-drop (length whole) table,
          length-whole,
          ok.long,
        ))
        (rw (length-place table whole start) (All-drop _ (length whole) table inside)),
    all_placed last e,
  )

-- Everything that the call returns, for a mode with this table and size.
pub mime_unsorting-place :
    (bytes buffer : List ℕ) (mode quality : ℕ) (st : RxState) (table : List ℕ) (size last : ℕ)
    → get_elem? amr_wb_sorting_tables mode ≡ some table
    → get_elem? unpacked_size mode ≡ some size
    → IsFrame bytes
    → size / 8 < length bytes
    → size ≤ length buffer
    → get_elem? (drop (size / 8) bytes) 0 ≡ some last
    → let typed = set_frame_type mode (last_temp (size % 8) last) quality st.prev_mode in
      mime_unsorting bytes buffer mode quality st
      ≡ some (record {
        sorted = place table (bits_of bytes) (cleared size buffer);
        frame_type = typed.0;
        mode = typed.1;
        st = record { prev_ft = st.prev_ft; prev_mode = typed.1 };
      })
unfolding mime_unsorting clear
mime_unsorting-place bytes buffer mode quality st table size last et es frame enough room e =
    let ok = tables-IsSorting mode table size et es in
    let start = cleared size buffer in
    let wide : size ≤ length start = omega (arith, length-cleared size buffer room) in
    let fits : leb size (length buffer) ≡ true = ground arith in
    rw (
      et,
      es,
      fits,
      bytes_part table size ok bytes frame enough start wide,
      e,
      bits_part table size ok bytes frame enough start wide last e,
    )

pub get_elem?-cleared :
    (size : ℕ) (buffer : List ℕ) (p : ℕ)
    → size ≤ length buffer
    → get_elem? (cleared size buffer) p ≡ (if ltb p size then some 0 else get_elem? buffer p)
get_elem?-cleared zero buffer p h = ground arith
get_elem?-cleared (suc n) [] p h = absurd (omega arith)
get_elem?-cleared (suc n) (x ∷ xs) zero h = ground arith
get_elem?-cleared (suc n) (x ∷ xs) (suc p) h = get_elem?-cleared n xs p (omega arith) ∙ ground arith
