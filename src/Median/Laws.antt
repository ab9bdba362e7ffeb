-- ===== src/Median/Laws.antt =====
-- median5.c: the value against a description of the median.
use talk2text.Prelude.{◌+◌, ◌≡◌, List, [], ◌∷◌, ℤ, ◌≤ℤ◌, arith}
use talk2text.Lag.Sorted.{occurrences}
use talk2text.Median.{smaller, larger, median5}

-- Two of the other values are not above `r`, and two are not below it.
pub record IsMedian (r : ℤ) (xs : List ℤ) : Type 0 where
  pub low_a : ℤ
  pub low_b : ℤ
  pub high_a : ℤ
  pub high_b : ℤ
  pub below : (low_a ≤ℤ r) × (low_b ≤ℤ r)
  pub above : (r ≤ℤ high_a) × (r ≤ℤ high_b)
  pub same : (v : ℤ) → occurrences v (low_a ∷ low_b ∷ r ∷ high_a ∷ high_b ∷ []) ≡ occurrences v xs

module _ (a b : ℤ) where
  ordered : (smaller a b ≤ℤ larger a b) × (smaller a b ≤ℤ a) × (smaller a b ≤ℤ b)
  ordered = ground arith

  -- A lower bound of both stays one.
  bounded : (m : ℤ) → m ≤ℤ a → m ≤ℤ b → (m ≤ℤ smaller a b) × (m ≤ℤ larger a b)
  bounded m p q = ground arith

  exchanged :
      (v : ℤ)
      → occurrences v (smaller a b ∷ []) + occurrences v (larger a b ∷ [])
        ≡ occurrences v (a ∷ []) + occurrences v (b ∷ [])
  exchanged v = ground arith

bounded_min : (m a b : ℤ) → m ≤ℤ a → m ≤ℤ b → m ≤ℤ smaller a b
bounded_min m a b p q = (bounded a b m p q).0

-- For every five values `median5` gives one of them such that two of the others are not above it
-- and the other two not below it.
pub median5-IsMedian :
    (x1 x2 x3 x4 x5 : ℤ) → IsMedian (median5 x1 x2 x3 x4 x5) (x1 ∷ x2 ∷ x3 ∷ x4 ∷ x5 ∷ [])
unfolding median5
median5-IsMedian x1 x2 x3 x4 x5 =
    let y1 = smaller x1 x2 in
    let y2 = larger x1 x2 in
    let z1 = smaller y1 x3 in
    let y3 = larger y1 x3 in
    let w1 = smaller z1 x4 in
    let y4 = larger z1 x4 in
    let m = smaller w1 x5 in
    let y5 = larger w1 x5 in
    let z2 = smaller y2 y3 in
    let z3 = larger y2 y3 in
    let w2 = smaller z2 y4 in
    let z4 = larger z2 y4 in
    let n = smaller w2 y5 in
    let z5 = larger w2 y5 in
    let w3 = smaller z3 z4 in
    let r = smaller w3 z5 in
    let m_y2 : m ≤ℤ y2 =
      omega (arith, ordered x1 x2, ordered y1 x3, ordered z1 x4, ordered w1 x5) in
    let m_y3 : m ≤ℤ y3 = omega (arith, ordered y1 x3, ordered z1 x4, ordered w1 x5) in
    let m_y4 : m ≤ℤ y4 = omega (arith, ordered z1 x4, ordered w1 x5) in
    let m_y5 : m ≤ℤ y5 = (ordered w1 x5).0 in
    let (m_z2, m_z3) = bounded y2 y3 m m_y2 m_y3 in
    let (m_w2, m_z4) = bounded z2 y4 m m_z2 m_y4 in
    let m_z5 = (bounded w2 y5 m m_w2 m_y5).1 in
    let n_z3 : n ≤ℤ z3 = omega (arith, ordered y2 y3, ordered z2 y4, ordered w2 y5) in
    let n_z4 : n ≤ℤ z4 = omega (arith, ordered z2 y4, ordered w2 y5) in
    let n_z5 : n ≤ℤ z5 = (ordered w2 y5).0 in
    record {
      low_a = m;
      low_b = n;
      high_a = larger z3 z4;
      high_b = larger w3 z5;
      below = (
        bounded_min m w3 z5 (bounded_min m z3 z4 m_z3 m_z4) m_z5,
        bounded_min n w3 z5 (bounded_min n z3 z4 n_z3 n_z4) n_z5,
      );
      above = (omega (arith, ordered z3 z4, ordered w3 z5), (ordered w3 z5).0);
      same = λ v. omega (
        arith,
        exchanged x1 x2 v,
        exchanged y1 x3 v,
        exchanged z1 x4 v,
        exchanged w1 x5 v,
        exchanged y2 y3 v,
        exchanged z2 y4 v,
        exchanged w2 y5 v,
        exchanged z3 z4 v,
        exchanged w3 z5 v,
      );
    }
