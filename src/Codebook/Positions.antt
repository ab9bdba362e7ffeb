-- ===== src/Codebook/Positions.antt =====
-- The number of the positions that an index gives, and the part of the track that they lie on.
use talk2text.Prelude.{
  ℕ, zero, suc, ◌+◌, ◌-◌, ◌*◌, ◌/◌, ◌%◌, ◌^◌, ◌≤◌, ◌<◌, bit_and, ◌≡◌, refl, Bool, true, false,
  if◌then◌else◌, List, [], ◌∷◌, ◌++◌, length, length-append, arith,
}
use talk2text.Prelude.Bits.{bit_and_mask}
use talk2text.Mime.Reference.{All}
use talk2text.Codebook.{mask, half, signed_pair, dec_1p_n1, dec_2p_2n1, dec_3p_3n1, dec_4p_4n1}
use native.Mathlib.Nat.{mod-lt, one-le-pow, pow-suc}

-- `k` positions, each with its place from `lo` to below `hi` and a sign bit above.
abbrev pub IsPulse : ℕ → ℕ → ℕ → Type 0
IsPulse lo hi p = (lo ≤ p % 16) × (p % 16 < hi) × (p < 32)

pub record ArePulses (k lo hi : ℕ) (ps : List ℕ) : Type 0 where
  pub count : length ps ≡ k
  pub each : All (IsPulse lo hi) ps

All-append {ℓ} : (P : ℕ → Type ℓ) (xs ys : List ℕ) → All P xs → All P ys → All P (xs ++ ys)
All-append P [] ys h k = k
All-append P (x ∷ xs) ys h k = (h.0, All-append P xs ys h.1 k)

pub All-widen :
    (a b c d : ℕ) (ps : List ℕ) → c ≤ a → b ≤ d → All (IsPulse a b) ps → All (IsPulse c d) ps
All-widen a b c d [] p q h = tt
All-widen a b c d (x ∷ xs) p q h =
    ((omega arith, omega arith, omega arith), All-widen a b c d xs p q h.1)

-- Pulses on two parts of a track are pulses on the track.
pub ArePulses-append :
    {k m a b c d : ℕ} (n lo hi : ℕ) {xs ys : List ℕ}
    → ArePulses k a b xs
    → ArePulses m c d ys
    → k + m ≡ n
    → lo ≤ a
    → b ≤ hi
    → lo ≤ c
    → d ≤ hi
    → ArePulses n lo hi (xs ++ ys)
ArePulses-append {a} {b} {c} {d} n lo hi {xs} {ys} h g e p q r s = record {
  count = omega (arith, length-append xs ys, h.count, g.count);
  each =
      All-append (IsPulse lo hi) xs ys (All-widen a b lo hi xs p q h.each)
        (All-widen c d lo hi ys r s g.each);
}

masked : (n x : ℕ) → bit_and x (mask n) < 2 ^ n
masked n x = rw (bit_and_mask n x) (mod-lt x (one-le-pow n 2 (omega arith)))

pub dec_1p_n1-ArePulses :
    (index n offset : ℕ)
    → offset + 2 ^ n ≤ 16
    → ArePulses 1 offset (offset + 2 ^ n) (dec_1p_n1 index n offset)
unfolding dec_1p_n1
dec_1p_n1-ArePulses index n offset h = ground (arith, masked n index)

pair-ArePulses :
    (p q i lo hi : ℕ)
    → lo ≤ p
    → p < hi
    → lo ≤ q
    → q < hi
    → hi ≤ 16
    → ArePulses 2 lo hi (signed_pair p q i)
unfolding signed_pair
pair-ArePulses p q i lo hi a b c d e = ground arith

pub dec_2p_2n1-ArePulses :
    (index n offset : ℕ)
    → offset + 2 ^ n ≤ 16
    → ArePulses 2 offset (offset + 2 ^ n) (dec_2p_2n1 index n offset)
unfolding dec_2p_2n1
dec_2p_2n1-ArePulses index n offset h =
    let lo = masked n index in
    let hi = masked n (index / 2 ^ n) in
    pair-ArePulses _ _ _ offset (offset + 2 ^ n) (omega arith) (omega arith) (omega arith)
      (omega arith) h

pub double : (n : ℕ) → 0 < n → 2 ^ (n - 1) + 2 ^ (n - 1) ≡ 2 ^ n
double zero h = elim h [ ]
double (suc n) h = let e : suc n - 1 ≡ n = omega arith in rw (e, pow-suc 2 n) (omega arith)

-- The chosen half lies within the track.
half_bounds :
    (index n offset : ℕ)
    → 0 < n
    → (offset ≤ half index n offset) × (half index n offset + 2 ^ (n - 1) ≤ offset + 2 ^ n)
half_bounds index n offset h = ground (arith, double n h)

pub dec_3p_3n1-ArePulses :
    (index n offset : ℕ)
    → 0 < n
    → offset + 2 ^ n ≤ 16
    → ArePulses 3 offset (offset + 2 ^ n) (dec_3p_3n1 index n offset)
unfolding dec_3p_3n1
dec_3p_3n1-ArePulses index n offset p h =
    let (lo, hi) = half_bounds index n offset p in
    ArePulses-append 3 offset (offset + 2 ^ n)
      (dec_2p_2n1-ArePulses (bit_and index (mask (2 * n - 1))) (n - 1) (half index n offset)
        (omega arith))
      (dec_1p_n1-ArePulses (bit_and (index / 2 ^ (2 * n)) (mask (n + 1))) n offset h) refl lo hi
      (omega arith) (omega arith)

pub dec_4p_4n1-ArePulses :
    (index n offset : ℕ)
    → 0 < n
    → offset + 2 ^ n ≤ 16
    → ArePulses 4 offset (offset + 2 ^ n) (dec_4p_4n1 index n offset)
unfolding dec_4p_4n1
dec_4p_4n1-ArePulses index n offset p h =
    let (lo, hi) = half_bounds index n offset p in
    ArePulses-append 4 offset (offset + 2 ^ n)
      (dec_2p_2n1-ArePulses (bit_and index (mask (2 * n - 1))) (n - 1) (half index n offset)
        (omega arith))
      (dec_2p_2n1-ArePulses (bit_and (index / 2 ^ (2 * n)) (mask (2 * n + 1))) n offset h) refl lo
      hi (omega arith) (omega arith)

pub if_ArePulses :
    {k lo hi : ℕ} (b : Bool) (xs ys : List ℕ)
    → ArePulses k lo hi xs
    → ArePulses k lo hi ys
    → ArePulses k lo hi (if b then xs else ys)
if_ArePulses true xs ys h g = h
if_ArePulses false xs ys h g = g
