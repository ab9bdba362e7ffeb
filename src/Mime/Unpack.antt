-- ===== src/Mime/Unpack.antt =====
-- `mime_unsorting` against the reference: the buffer it returns, on every mode.
use talk2text.Prelude.{
  ℕ, zero, suc, ◌+◌, ◌*◌, ◌≤◌, ◌<◌, ◌≡◌, refl, ap, Bool, if◌then◌else◌, some, List, [], ◌∷◌, ◌++◌,
  get_elem?, set, length, take, drop, arith, length-append,
}
use talk2text.Mime.Reference.{byte_bits, bits_of, place, All}
use talk2text.Mime.Unsorting.{length-byte_bits}
use mathlib.Core.List.{append_assoc}

module _ {ℓ} {A : Type ℓ} where
  take-append_le : (n : ℕ) (xs ys : List A) → n ≤ length xs → take n (xs ++ ys) ≡ take n xs
  take-append_le zero xs ys h = refl
  take-append_le (suc n) [] ys h = absurd (omega arith)
  take-append_le (suc n) (x ∷ xs) ys h = ap (◌∷◌ x) (take-append_le n xs ys (omega arith))

  take-append_ge :
      (n m : ℕ) (xs ys : List A) → n ≡ length xs + m → take n (xs ++ ys) ≡ xs ++ take m ys
  take-append_ge n m [] ys e = let e' : n ≡ m = omega arith in rw e'
  take-append_ge zero m (x ∷ xs) ys e = absurd (omega arith)
  take-append_ge (suc n) m (x ∷ xs) ys e = ap (◌∷◌ x) (take-append_ge n m xs ys (omega arith))

-- The whole bytes and the first bits of the next one are the first bits of the frame.
pub whole_and_rest :
    (q r n : ℕ) (bytes : List ℕ) (last : ℕ)
    → r ≤ 8
    → n ≡ 8 * q + r
    → get_elem? (drop q bytes) 0 ≡ some last
    → bits_of (take q bytes) ++ take r (byte_bits last) ≡ take n (bits_of bytes)
unfolding bits_of
whole_and_rest zero r n [] last h e f = cc
whole_and_rest zero r n (b ∷ bs) last h e f =
    let same : n ≡ r = omega arith in
    rw (same, take-append_le r (byte_bits b) (bits_of bs) (rw (length-byte_bits b) h)) (cc)
whole_and_rest (suc q) r n [] last h e f = cc
whole_and_rest (suc q) r n (b ∷ bs) last h e f =
    rw
      (
        take-append_ge n (8 * q + r) (byte_bits b) (bits_of bs)
            (rw (length-byte_bits b) (omega arith)),
        ← whole_and_rest q r (8 * q + r) bs last h refl f,
      )
      (append_assoc (byte_bits b) (bits_of (take q bs)) (take r (byte_bits last)))

pub length-bits_of : (bytes : List ℕ) → length (bits_of bytes) ≡ 8 * length bytes
unfolding bits_of
length-bits_of [] = refl
length-bits_of (b ∷ bs) =
    omega (arith, length-append (byte_bits b) (bits_of bs), length-byte_bits b, length-bits_of bs)

pub place-append :
    (table : List ℕ) (xs ys : List Bool) (sorted : List ℕ)
    → length xs ≤ length table
    → place (drop (length xs) table) ys (place table xs sorted) ≡ place table (xs ++ ys) sorted
unfolding place
place-append table [] ys sorted h = unfold place in go table
  where
    go : (table : List ℕ) → place table ys (place table [] sorted) ≡ place table ys sorted
    go [] = refl
    go (t ∷ ts) = refl
place-append [] (x ∷ xs) ys sorted h = absurd (omega arith)
place-append (t ∷ ts) (x ∷ xs) ys sorted h =
    place-append ts xs ys (if x then set sorted t 127 else sorted) (omega arith)

-- The reference reads no more bits than the table has entries.
pub place-take :
    (table : List ℕ) (bits : List Bool) (sorted : List ℕ)
    → place table (take (length table) bits) sorted ≡ place table bits sorted
unfolding place
place-take [] bits sorted = refl
place-take (t ∷ ts) [] sorted = refl
place-take (t ∷ ts) (b ∷ bs) sorted = place-take ts bs (if b then set sorted t 127 else sorted)

pub All-drop {ℓ} : (P : ℕ → Type ℓ) (n : ℕ) (xs : List ℕ) → All P xs → All P (drop n xs)
All-drop P zero xs h = h
All-drop P (suc n) [] h = tt
All-drop P (suc n) (x ∷ xs) h = All-drop P n xs h.1

pub next_byte :
    (n : ℕ) (bytes : List ℕ) → n < length bytes → (b : ℕ) × (get_elem? (drop n bytes) 0 ≡ some b)
next_byte n [] h = absurd (omega arith)
next_byte zero (b ∷ bs) h = (b, refl)
next_byte (suc n) (b ∷ bs) h = next_byte n bs (omega arith)

pub next_byte-lt :
    (n : ℕ) (bytes : List ℕ) (b : ℕ)
    → All (λ x. x < 256) bytes
    → get_elem? (drop n bytes) 0 ≡ some b
    → b < 256
next_byte-lt zero [] b w e = cc
next_byte-lt (suc n) [] b w e = cc
next_byte-lt zero (x ∷ xs) b w e = ground arith
next_byte-lt (suc n) (x ∷ xs) b w e = next_byte-lt n xs b w.1 e
