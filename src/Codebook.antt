-- ===== src/Codebook.antt =====
-- dec_alg_codebook.c, dec_acelp_4p_in_64.c and dec_acelp_2p_in_64.c: the pulse positions of the
-- algebraic codebook, unpacked from an index, and the excitation that they make. Indices, positions
-- and offsets are never negative, so an int16 or int32 is written as its number; the positions
-- that a function writes from a pointer on are the list that it returns.
pub mod Positions
pub mod Halves
pub mod Six
pub mod Excitation
pub mod TwoPulses
pub mod Laws
use talk2text.Prelude.{
  ℕ, zero, suc, ◌+◌, ◌-◌, ◌*◌, ◌/◌, ◌%◌, ◌^◌, bit_and, Bool, if◌then◌else◌, ltb, ◌==◌, ℤ, pos,
  negsuc, ◌+ℤ◌, ◌-ℤ◌, to_int16, Option, none, some, List, [], ◌∷◌, ◌++◌, get_elem?, set, replicate,
  length,
}
use talk2text.Mime.{◌>>=◌}
use Prim.Native.Nat.{min}

-- Bit 4 of a position is the pulse's sign.
abbrev pub nb_pos : ℕ
nb_pos = 16

-- (1 << n) - 1
abbrev pub mask : ℕ → ℕ
mask n = 2 ^ n - 1

-- add_int16 and add_int32 of numbers that are not negative.
abbrev pub add_sat16 : ℕ → ℕ → ℕ
add_sat16 a b = min (a + b) 0x7fff

abbrev pub add_sat32 : ℕ → ℕ → ℕ
add_sat32 a b = min (a + b) 0x7fff_ffff

unfoldable pub dec_1p_n1 : ℕ → ℕ → ℕ → List ℕ
dec_1p_n1 index n offset =
    let pos1 = (bit_and index (mask n) + offset) % 2 ^ 16 in
    (if bit_and (index / 2 ^ n) 1 == 1 then (pos1 + nb_pos) % 2 ^ 16 else pos1) ∷ []

-- Two positions whose order carries a sign.
unfoldable pub signed_pair : ℕ → ℕ → ℕ → List ℕ
signed_pair pos1 pos2 i =
    if ltb pos2 pos1
    then if i == 1
      then (pos1 + nb_pos) % 2 ^ 16 ∷ pos2 ∷ []
      else pos1 ∷ (pos2 + nb_pos) % 2 ^ 16 ∷ []
    else if i == 1
    then (pos1 + nb_pos) % 2 ^ 16 ∷ (pos2 + nb_pos) % 2 ^ 16 ∷ []
    else pos1 ∷ pos2 ∷ []

unfoldable pub dec_2p_2n1 : ℕ → ℕ → ℕ → List ℕ
dec_2p_2n1 index n offset =
    signed_pair (add_sat32 (bit_and (index / 2 ^ n) (mask n)) offset % 2 ^ 16)
      (add_sat16 (bit_and index (mask n) % 2 ^ 16) offset) (bit_and (index / 2 ^ (2 * n)) 1)

-- The half of the track that bit 2n - 1 chooses.
abbrev pub half : ℕ → ℕ → ℕ → ℕ
half index n offset =
    if bit_and (index / 2 ^ (2 * n - 1)) 1 == 0 then offset else offset + 2 ^ (n - 1)

unfoldable pub dec_3p_3n1 : ℕ → ℕ → ℕ → List ℕ
dec_3p_3n1 index n offset =
    dec_2p_2n1 (bit_and index (mask (2 * n - 1))) (n - 1) (half index n offset)
    ++ dec_1p_n1 (bit_and (index / 2 ^ (2 * n)) (mask (n + 1))) n offset

unfoldable pub dec_4p_4n1 : ℕ → ℕ → ℕ → List ℕ
dec_4p_4n1 index n offset =
    dec_2p_2n1 (bit_and index (mask (2 * n - 1))) (n - 1) (half index n offset)
    ++ dec_2p_2n1 (bit_and (index / 2 ^ (2 * n)) (mask (2 * n + 1))) n offset

unfoldable pub dec_4p_4n : ℕ → ℕ → ℕ → List ℕ
dec_4p_4n index n offset =
    let n_1 = n - 1 in
    let j = offset + 2 ^ n_1 in
    let choice = bit_and (index / 2 ^ (4 * n - 2)) 3 in
    if choice == 0
    then if bit_and (index / 2 ^ (4 * n_1 + 1)) 1 == 0
      then dec_4p_4n1 index n_1 offset
      else dec_4p_4n1 index n_1 j
    else if choice == 1
    then dec_1p_n1 (index / 2 ^ (3 * n_1 + 1)) n_1 offset ++ dec_3p_3n1 index n_1 j
    else if choice == 2
    then dec_2p_2n1 (index / 2 ^ (2 * n_1 + 1)) n_1 offset ++ dec_2p_2n1 index n_1 j
    else dec_3p_3n1 (index / 2 ^ (n_1 + 1)) n_1 offset ++ dec_1p_n1 index n_1 j

unfoldable pub dec_5p_5n : ℕ → ℕ → ℕ → List ℕ
dec_5p_5n index n offset =
    let n_1 = n - 1 in
    let j = add_sat16 offset (2 ^ n_1) in
    let idx = index / 2 ^ (2 * n + 1) in
    if bit_and (index / 2 ^ (5 * n - 1)) 1 == 0
    then dec_3p_3n1 idx n_1 offset ++ dec_2p_2n1 index n offset
    else dec_3p_3n1 idx n_1 j ++ dec_2p_2n1 index n offset

unfoldable pub dec_6p_6n_2 : ℕ → ℕ → ℕ → List ℕ
dec_6p_6n_2 index n offset =
    let n_1 = n - 1 in
    let j = offset + 2 ^ n_1 in
    let low = bit_and (index / 2 ^ (6 * n - 5)) 1 == 0 in
    let offset_a = if low then offset else j in
    let offset_b = if low then j else offset in
    let choice = bit_and (index / 2 ^ (6 * n - 4)) 3 in
    if choice == 0
    then dec_5p_5n (index / 2 ^ n) n_1 offset_a ++ dec_1p_n1 index n_1 offset_a
    else if choice == 1
    then dec_5p_5n (index / 2 ^ n) n_1 offset_a ++ dec_1p_n1 index n_1 offset_b
    else if choice == 2
    then dec_4p_4n (index / 2 ^ (2 * n_1 + 1)) n_1 offset_a ++ dec_2p_2n1 index n_1 offset_b
    else dec_3p_3n1 (index / 2 ^ (3 * n_1 + 1)) n_1 offset ++ dec_3p_3n1 index n_1 j

-- `none` is a write outside the code vector.
unfoldable pub add_pulse : ℕ → ℕ → List ℤ → Option (List ℤ)
add_pulse p track code =
    let i = bit_and p (nb_pos - 1) * 2 ^ 2 + track in
    do
      old ← get_elem? code i
      some
          (set code i (to_int16 (if bit_and p nb_pos == 0 then old +ℤ pos 512 else old -ℤ pos 512)))

unfoldable pub add_pulses : List ℕ → ℕ → List ℤ → Option (List ℤ)
add_pulses [] track code = some code
add_pulses (p ∷ ps) track code = do code' ← add_pulse p track code; add_pulses ps track code'

-- A decoder of `n` tracks from track `k` on; `upper` is what is added to the bits of a second word.
unfoldable pub tracks : (ℕ → ℕ → ℕ → List ℕ) → Option ℕ → ℕ → ℕ → List ℕ → List ℤ → Option (List ℤ)
tracks dec upper zero k index code = some code
tracks dec upper (suc n) k index code = do
  word ← get_elem? index k
  l_index ← elim upper [
    | none ↦ some word
    | some bits ↦ do second ← get_elem? index (k + 4); some (word * 2 ^ bits + second)
  ]
  code' ← add_pulses (dec l_index 4 0) k code
  tracks dec upper n (k + 1) index code'

unfoldable pub dec_acelp_4p_in_64 : List ℕ → ℕ → Option (List ℤ)
dec_acelp_4p_in_64 index nbbits =
    let code = replicate 64 (pos 0) in
    if nbbits == 20
    then tracks dec_1p_n1 none 4 0 index code
    else if nbbits == 36
    then tracks dec_2p_2n1 none 4 0 index code
    else if nbbits == 44
    then tracks dec_3p_3n1 none 2 0 index code >>= tracks dec_2p_2n1 none 2 2 index
    else if nbbits == 52
    then tracks dec_3p_3n1 none 4 0 index code
    else if nbbits == 64
    then tracks dec_4p_4n (some 14) 4 0 index code
    else if nbbits == 72
    then tracks dec_5p_5n (some 10) 2 0 index code >>= tracks dec_4p_4n (some 14) 2 2 index
    else if nbbits == 88
    then tracks dec_6p_6n_2 (some 11) 4 0 index code
    else some code

-- dec_acelp_2p_in_64: one pulse on the even and one on the odd positions.
unfoldable pub dec_acelp_2p_in_64 : ℕ → List ℤ
dec_acelp_2p_in_64 index =
    let even = bit_and (index / 2 ^ 5) 0x3e in
    let odd = bit_and index 0x1f * 2 + 1 in
    let code = replicate 64 (pos 0) in
    let code' = set code even (if bit_and (index / 2 ^ 6) 32 == 0 then pos 512 else negsuc 511) in
    set code' odd (if bit_and index 32 == 0 then pos 512 else negsuc 511)
