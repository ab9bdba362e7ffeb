-- ===== src/Mime.antt =====
-- mime_io.c: a storage frame's bytes are unpacked, and their bits put in the decoder's order.
-- `none` is an access outside an array, which C leaves undefined.
pub mod Tables
pub mod Reference
pub mod Unsorting
pub mod Unpack
pub mod Frame
pub mod Laws
pub mod Types
use talk2text.Prelude.{
  ℕ, zero, suc, ◌+◌, ◌*◌, ◌/◌, ◌%◌, ◌^◌, ◌≤◌, bit_and, Bool, true, false, if◌then◌else◌, ltb, leb,
  ◌==◌, Option, none, some, List, [], ◌∷◌, ◌++◌, get_elem?, set, length, replicate, drop,
}
use Tables.Low.{sort_660, sort_885, sort_1265, sort_1425, sort_1585, sort_sid}
use Tables.High.{sort_1825, sort_1985, sort_2305, sort_2385}

infixl 5 ◌>>=◌
abbrev pub ◌>>=◌ {ℓ κ} : {A : Type ℓ} {B : Type κ} → Option A → (A → Option B) → Option B
none >>= f = none
some a >>= f = f a

-- The bit values in the decoder's buffer.
abbrev pub bit_1 : ℕ
bit_1 = 127

-- The bits of a frame, for each of the 16 values of the mode field.
abbrev pub unpacked_size : List ℕ
unpacked_size =
    132 ∷ 177 ∷ 253 ∷ 285 ∷ 317 ∷ 365 ∷ 397 ∷ 461 ∷ 477 ∷ 35 ∷ 0 ∷ 0 ∷ 0 ∷ 0 ∷ 0 ∷ 0 ∷ []

-- A null pointer of the source is an empty table here: every access to it faults.
unfoldable pub amr_wb_sorting_tables : List (List ℕ)
amr_wb_sorting_tables =
    sort_660 ∷ sort_885 ∷ sort_1265 ∷ sort_1425 ∷ sort_1585 ∷ sort_1825 ∷ sort_1985 ∷ sort_2305
    ∷ sort_2385 ∷ sort_sid ∷ [] ∷ [] ∷ [] ∷ [] ∷ [] ∷ [] ∷ []

-- RX_State; `prev_ft` is written once and never read.
pub record RxState : Type 0 where
  pub prev_ft : ℕ
  pub prev_mode : ℕ

-- The pointer into the sorting table, as what is left of it, and the buffer.
pub record Cursor : Type 0 where
  pub table : List ℕ
  pub sorted : List ℕ

pub data Move : Type 0 where
  put skip : Move

unfoldable pub write : List ℕ → ℕ → ℕ → Option (List ℕ)
write xs i v = if ltb i (length xs) then some (set xs i v) else none

-- `sorted_bits_into_int16[*(pt_AmrWbSortingTables++)] = BIT_1`, and the increment alone.
unfoldable pub move : Move → List ℕ → List ℕ → Option Cursor
move m [] sorted = none
move put (t ∷ ts) sorted = do
  sorted' ← write sorted t bit_1
  some (record { table = ts; sorted = sorted' })
move skip (t ∷ ts) sorted = some (record { table = ts; sorted = sorted })

unfoldable pub moves : List Move → Cursor → Option Cursor
moves [] c = some c
moves (m ∷ ms) c = do c' ← move m c.table c.sorted; moves ms c'

-- The `switch` on the upper four bits of `temp`.
unfoldable pub nibble_moves : ℕ → List Move
nibble_moves bits =
    if bits == 0xf0
    then put ∷ put ∷ put ∷ put ∷ []
    else if bits == 0xe0
    then put ∷ put ∷ put ∷ skip ∷ []
    else if bits == 0xd0
    then put ∷ put ∷ skip ∷ put ∷ []
    else if bits == 0xc0
    then put ∷ put ∷ skip ∷ skip ∷ []
    else if bits == 0xb0
    then put ∷ skip ∷ put ∷ put ∷ []
    else if bits == 0xa0
    then put ∷ skip ∷ put ∷ skip ∷ []
    else if bits == 0x90
    then put ∷ skip ∷ skip ∷ put ∷ []
    else if bits == 0x80
    then put ∷ skip ∷ skip ∷ skip ∷ []
    else if bits == 0x70
    then skip ∷ put ∷ put ∷ put ∷ []
    else if bits == 0x60
    then skip ∷ put ∷ put ∷ skip ∷ []
    else if bits == 0x50
    then skip ∷ put ∷ skip ∷ put ∷ []
    else if bits == 0x40
    then skip ∷ put ∷ skip ∷ skip ∷ []
    else if bits == 0x30
    then skip ∷ skip ∷ put ∷ put ∷ []
    else if bits == 0x20
    then skip ∷ skip ∷ put ∷ skip ∷ []
    else if bits == 0x10
    then skip ∷ skip ∷ skip ∷ put ∷ []
    else skip ∷ skip ∷ skip ∷ skip ∷ []

-- `temp` loses its upper bits in a uint8.
unfoldable pub unsort_byte : ℕ → Cursor → Option Cursor
unsort_byte temp c = do
  c' ← moves (nibble_moves (bit_and temp 0xf0)) c
  moves (nibble_moves (bit_and (temp * 2 ^ 4 % 2 ^ 8) 0xf0)) c'

-- The whole bytes; what is left of the input is returned for the last bits.
unfoldable pub unsort_bytes : ℕ → List ℕ → Cursor → Option (List ℕ × Cursor)
unsort_bytes zero bytes c = some (bytes, c)
unsort_bytes (suc i) [] c = none
unsort_bytes (suc i) (temp ∷ bytes) c = do c' ← unsort_byte temp c; unsort_bytes i bytes c'

-- The remaining 0 to 7 bits; `temp` is returned for the frame type.
unfoldable pub unsort_bits : ℕ → ℕ → Cursor → Option (ℕ × Cursor)
unsort_bits zero temp c = some (temp, c)
unsort_bits (suc i) temp c = do
  c' ← move (if bit_and temp 0x80 == 0 then skip else put) c.table c.sorted
  unsort_bits i (temp * 2 % 2 ^ 8) c'

-- RX frame types of dtx.h.
pub data FrameType : Type 0 where
  rx_speech_good rx_speech_probably_degraded rx_speech_lost rx_speech_bad : FrameType
  rx_sid_first rx_sid_update rx_sid_bad rx_no_data : FrameType

unfoldable pub set_frame_type : ℕ → ℕ → ℕ → ℕ → FrameType × ℕ
set_frame_type mode temp quality prev_mode =
    if leb mode 8
    then (if quality == 0 then FrameType.rx_speech_bad else FrameType.rx_speech_good, mode)
    else if mode == 9
    then (
      if quality == 0
          then FrameType.rx_sid_bad
          else if bit_and temp 0x80 == 0
          then FrameType.rx_sid_first
          else FrameType.rx_sid_update,
      prev_mode,
    )
    else if mode == 14
    then (FrameType.rx_speech_lost, prev_mode)
    else (FrameType.rx_no_data, prev_mode)

-- What the function leaves in its output arguments.
pub record Unsorted : Type 0 where
  pub sorted : List ℕ
  pub frame_type : FrameType
  pub mode : ℕ
  pub st : RxState

-- `pv_memset` of the first `n` elements.
unfoldable pub clear : ℕ → List ℕ → Option (List ℕ)
clear n xs = if leb n (length xs) then some (replicate n 0 ++ drop n xs) else none

unfoldable pub mime_unsorting : List ℕ → List ℕ → ℕ → ℕ → RxState → Option Unsorted
mime_unsorting unsorted_bits sorted_bits mode quality st = do
  table ← get_elem? amr_wb_sorting_tables mode
  size ← get_elem? unpacked_size mode
  cleared ← clear size sorted_bits
  (bytes, c) ← unsort_bytes (size / 8) unsorted_bits (record { table = table; sorted = cleared })
  last ← get_elem? bytes 0
  (temp, c') ← unsort_bits (size % 8) last c
  let typed = set_frame_type mode temp quality st.prev_mode
  some (record {
    sorted = c'.sorted;
    frame_type = typed.0;
    mode = typed.1;
    st = record { prev_ft = st.prev_ft; prev_mode = typed.1 };
  })
