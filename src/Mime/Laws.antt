-- ===== src/Mime/Laws.antt =====
-- `mime_unsorting` place by place.
use talk2text.Prelude.{
  ℕ, zero, suc, ◌/◌, ◌≤◌, ◌<◌, ◌≡◌, refl, ◌∙◌, Bool, true, false, if◌then◌else◌, Option, some, List,
  [], ◌∷◌, get_elem?, length, arith,
}
use talk2text.Mime.{Unsorted, RxState, unpacked_size, amr_wb_sorting_tables, mime_unsorting, bit_1}
use talk2text.Mime.Reference.{bits_of, place, All, place_bit, place-Absent, length-place, Absent}
use talk2text.Mime.Unpack.{next_byte}
use talk2text.Mime.Frame.{
  IsFrame, cleared, length-cleared, get_elem?-cleared, mime_unsorting-place, All-mono,
}
use talk2text.Mime.Tables.Sound.{IsSorting, tables-IsSorting}

-- `u` holds the frame's bits at the places of the table, and the old buffer behind the frame's size.
pub record IsUnpacked (table : List ℕ) (size : ℕ) (bytes buffer : List ℕ) (u : Unsorted)
    : Type 0 where
  pub bits :
      (i p : ℕ) (b : Bool)
      → get_elem? table i ≡ some p
      → get_elem? (bits_of bytes) i ≡ some b
      → get_elem? u.sorted p ≡ some (if b then bit_1 else 0)
  pub rest : (p : ℕ) → size ≤ p → get_elem? u.sorted p ≡ get_elem? buffer p
  pub same_length : length u.sorted ≡ length buffer

inside_get : (n : ℕ) (xs : List ℕ) (i p : ℕ) → All (λ t. t < n) xs → get_elem? xs i ≡ some p → p < n
inside_get n [] i p w e = cc
inside_get n (x ∷ xs) zero p w e = ground arith
inside_get n (x ∷ xs) (suc i) p w e = inside_get n xs i p w.1 e

outside-Absent : (n p : ℕ) (xs : List ℕ) → n ≤ p → All (λ t. t < n) xs → Absent p xs
outside-Absent n p [] h w = tt
outside-Absent n p (x ∷ xs) h w = (omega arith, outside-Absent n p xs h w.1)

cleared_bit :
    (b : Bool) (o : Option ℕ)
    → o ≡ some 0
    → (if b then some bit_1 else o) ≡ some (if b then bit_1 else 0)
cleared_bit true o e = refl
cleared_bit false o e = e

place-IsUnpacked :
    (table : List ℕ) (size : ℕ) (bytes buffer : List ℕ) (u : Unsorted)
    → IsSorting table size
    → size ≤ length buffer
    → u.sorted ≡ place table (bits_of bytes) (cleared size buffer)
    → IsUnpacked table size bytes buffer u
place-IsUnpacked table size bytes buffer u ok room e =
    let wide = All-mono size _ table (omega (arith, length-cleared size buffer room)) ok.inside in
    record {
      bits = λ i p b et eb. rw e (
          place_bit table (bits_of bytes) (cleared size buffer) i p b ok.distinct wide et eb
          ∙ cleared_bit b _ (zero_at p (inside_get size table i p ok.inside et)));
      rest = λ p h. rw e (
          place-Absent table (bits_of bytes) (cleared size buffer) p
            (outside-Absent size p table h ok.inside)
          ∙ old_at p h);
      same_length = rw e (
          length-place table (bits_of bytes) (cleared size buffer)
          ∙ length-cleared size buffer room);
    }
  where
    zero_at : (p : ℕ) → p < size → get_elem? (cleared size buffer) p ≡ some 0
    zero_at p h = ground (arith, get_elem?-cleared size buffer p)

    old_at : (p : ℕ) → size ≤ p → get_elem? (cleared size buffer) p ≡ get_elem? buffer p
    old_at p h = ground (arith, get_elem?-cleared size buffer p)

-- For every mode with its table and size: on a frame of bytes that has a byte behind its whole
-- bytes, and with a buffer of at least the mode's size, `mime_unsorting` returns, so it reads and
-- writes nothing out of range; bit `i` of the frame is then at the place that entry `i` of the
-- table names, as 127 or 0, and the buffer behind the mode's size, and its length, are unchanged.
pub mime_unsorting-IsUnpacked :
    (bytes buffer : List ℕ) (mode quality : ℕ) (st : RxState) (table : List ℕ) (size : ℕ)
    → get_elem? amr_wb_sorting_tables mode ≡ some table
    → get_elem? unpacked_size mode ≡ some size
    → IsFrame bytes
    → size / 8 < length bytes
    → size ≤ length buffer
    → (u : Unsorted) × (mime_unsorting bytes buffer mode quality st ≡ some u)
      × IsUnpacked table size bytes buffer u
mime_unsorting-IsUnpacked bytes buffer mode quality st table size et es frame enough room =
    let (last, e) = next_byte (size / 8) bytes enough in
    (
      _,
      mime_unsorting-place bytes buffer mode quality st table size last et es frame enough room e,
      place-IsUnpacked table size bytes buffer _ (tables-IsSorting mode table size et es) room refl,
    )
