-- ===== src/Mime/Unsorting.antt =====
-- The nibble switch and the loops of `mime_unsorting` against the bit-by-bit reference.
use talk2text.Prelude.{
  ℕ, zero, suc, ◌*◌, ◌%◌, ◌^◌, ◌≤◌, ◌<◌, bit_and, ◌≡◌, refl, ap, ◌∙◌, Bool, true, false, ◌&&◌,
  if◌then◌else◌, ◌==◌, Option, none, some, not, List, [], ◌∷◌, ◌++◌, map, set, length, length-set,
  take, drop, arith,
}
use talk2text.Prelude.{all_below, all_below_sound}
use talk2text.Mime.{
  Move, put, skip, Cursor, ◌>>=◌, write, move, moves, nibble_moves, unsort_byte, unsort_bytes,
  unsort_bits, bit_1,
}
use mathlib.Core.List.{map-append}
use talk2text.Mime.Reference.{byte_bits, bits_of, place, All}

abbrev pub as_move : Bool → Move
as_move b = if b then put else skip

same_move : Move → Move → Bool
same_move put put = true
same_move skip skip = true
same_move _ _ = false

same_moves : List Move → List Move → Bool
same_moves [] [] = true
same_moves (x ∷ xs) (y ∷ ys) = same_move x y && same_moves xs ys
same_moves _ _ = false

same_moves_sound : (xs ys : List Move) → same_moves xs ys ≡ true → xs ≡ ys
unfolding same_moves same_move
same_moves_sound [] [] h = refl
same_moves_sound [] (y ∷ ys) h = cc
same_moves_sound (x ∷ xs) [] h = cc
same_moves_sound (put ∷ xs) (put ∷ ys) h = ap (◌∷◌ put) (same_moves_sound xs ys h)
same_moves_sound (put ∷ xs) (skip ∷ ys) h = cc
same_moves_sound (skip ∷ xs) (put ∷ ys) h = cc
same_moves_sound (skip ∷ xs) (skip ∷ ys) h = ap (◌∷◌ skip) (same_moves_sound xs ys h)

-- All 256 bytes, through both halves of the `switch`.
switch_table :
    all_below 256 (λ b.
      same_moves
        (nibble_moves (bit_and b 0xf0) ++ nibble_moves (bit_and (b * 2 ^ 4 % 2 ^ 8) 0xf0))
        (map as_move (byte_bits b)))
    ≡ true
unfolding all_below same_moves same_move nibble_moves byte_bits
switch_table = refl

pub moves-append : (xs ys : List Move) (c : Cursor) → (moves xs c >>= moves ys) ≡ moves (xs ++ ys) c
unfolding moves
moves-append [] ys c = refl
moves-append (x ∷ xs) ys c = after (moves-append xs ys) (move x c.table c.sorted)
  where
    after :
        ((c' : Cursor) → (moves xs c' >>= moves ys) ≡ moves (xs ++ ys) c')
        → (r : Option Cursor) → ((r >>= moves xs) >>= moves ys) ≡ (r >>= moves (xs ++ ys))
    after ih none = refl
    after ih (some c') = ih c'

unsort_byte-moves :
    (b : ℕ) (c : Cursor) → b < 256 → unsort_byte b c ≡ moves (map as_move (byte_bits b)) c
unfolding unsort_byte
unsort_byte-moves b c h =
    moves-append (nibble_moves (bit_and b 0xf0)) (nibble_moves (bit_and (b * 2 ^ 4 % 2 ^ 8) 0xf0)) c
    ∙ ap (λ ms. moves ms c) (same_moves_sound _ _ (all_below_sound 256 _ b switch_table h))

-- Putting and skipping along the table is the reference, as long as the table lasts.
pub moves-place :
    (bits : List Bool) (table sorted : List ℕ)
    → length bits ≤ length table
    → All (λ t. t < length sorted) table
    → moves (map as_move bits) (record { table = table; sorted = sorted })
      ≡ some (record { table = drop (length bits) table; sorted = place table bits sorted })
unfolding moves move write place
moves-place [] [] sorted h w = refl
moves-place [] (t ∷ ts) sorted h w = refl
moves-place (b ∷ bs) [] sorted h w = absurd (omega arith)
moves-place (true ∷ bs) (t ∷ ts) sorted h w = ground (
  arith,
  moves-place bs ts (set sorted t bit_1) (omega arith) (rw (length-set sorted t bit_1) w.1),
)
moves-place (false ∷ bs) (t ∷ ts) sorted h w = moves-place bs ts sorted (omega arith) w.1

pub length-byte_bits : (b : ℕ) → length (byte_bits b) ≡ 8
unfolding byte_bits
length-byte_bits b = refl

-- The last bits of a byte, one at a time, against the same list.
loop_bits : ℕ → ℕ → List Bool
loop_bits zero temp = []
loop_bits (suc i) temp = not (bit_and temp 0x80 == 0) ∷ loop_bits i (temp * 2 % 2 ^ 8)

unfoldable pub last_temp : ℕ → ℕ → ℕ
last_temp zero temp = temp
last_temp (suc i) temp = last_temp i (temp * 2 % 2 ^ 8)

as_move-not : (b : Bool) → (if b then skip else put) ≡ as_move (not b)
as_move-not true = refl
as_move-not false = refl

unsort_bits-moves :
    (i temp : ℕ) (c : Cursor)
    → unsort_bits i temp c
      ≡ (moves (map as_move (loop_bits i temp)) c >>= λ c'. some (last_temp i temp, c'))
unfolding unsort_bits moves loop_bits last_temp
unsort_bits-moves zero temp c = refl
unsort_bits-moves (suc i) temp c = rw (as_move-not (bit_and temp 0x80 == 0)) (
    after (unsort_bits-moves i (temp * 2 % 2 ^ 8))
      (move (as_move (not (bit_and temp 0x80 == 0))) c.table c.sorted))
  where
    after :
        ((c' : Cursor)
          → unsort_bits i (temp * 2 % 2 ^ 8) c' ≡ (
              moves (map as_move (loop_bits i (temp * 2 % 2 ^ 8))) c' >>= λ c''.
              some (last_temp i (temp * 2 % 2 ^ 8), c'')))
        → (r : Option Cursor)
        → (r >>= unsort_bits i (temp * 2 % 2 ^ 8)) ≡ (
            (r >>= moves (map as_move (loop_bits i (temp * 2 % 2 ^ 8)))) >>= λ c''.
            some (last_temp i (temp * 2 % 2 ^ 8), c''))
    after ih none = refl
    after ih (some c') = ih c'

pub unsort_bytes-moves :
    (n : ℕ) (bytes : List ℕ) (c : Cursor)
    → n ≤ length bytes
    → All (λ b. b < 256) bytes
    → unsort_bytes n bytes c
      ≡ (moves (map as_move (bits_of (take n bytes))) c >>= λ c'. some (drop n bytes, c'))
unfolding unsort_bytes bits_of
unsort_bytes-moves zero bytes c h w = unfold moves in refl
unsort_bytes-moves (suc n) [] c h w = absurd (omega arith)
unsort_bytes-moves (suc n) (b ∷ bs) c h w =
    rw
      (
        map-append as_move (byte_bits b) (bits_of (take n bs)),
        ← moves-append (map as_move (byte_bits b)) (map as_move (bits_of (take n bs))) c,
        unsort_byte-moves b c w.0,
      )
      (after (λ c'. unsort_bytes-moves n bs c' (omega arith) w.1)
        (moves (map as_move (byte_bits b)) c))
  where
    after :
        ((c' : Cursor)
          → unsort_bytes n bs c'
            ≡ (moves (map as_move (bits_of (take n bs))) c' >>= λ c''. some (drop n bs, c'')))
        → (r : Option Cursor)
        → (r >>= λ c'. unsort_bytes n bs c')
          ≡ ((r >>= moves (map as_move (bits_of (take n bs)))) >>= λ c''. some (drop n bs, c''))
    after ih none = refl
    after ih (some c') = ih c'

-- All bytes, for each count of remaining bits.
loop_table :
    all_below 8 (λ i.
      all_below 256
        (λ b. same_moves (map as_move (loop_bits i b)) (map as_move (take i (byte_bits b)))))
    ≡ true
unfolding all_below same_moves same_move loop_bits byte_bits
loop_table = refl

pub unsort_bits-take :
    (i temp : ℕ) (c : Cursor)
    → i < 8
    → temp < 256
    → unsort_bits i temp c
      ≡ (moves (map as_move (take i (byte_bits temp))) c >>= λ c'. some (last_temp i temp, c'))
unsort_bits-take i temp c hi ht =
    let row = all_below_sound 8 _ i loop_table hi in
    rw (← same_moves_sound _ _ (all_below_sound 256 _ temp row ht)) (unsort_bits-moves i temp c)
