-- ===== src/Median.antt =====
-- median5.c: the middle one of five values, `x[-2]` to `x[2]`.
pub mod Laws
use talk2text.Prelude.{if◌then◌else◌, ℤ, ltb_ℤ}

-- `if (b < a)`, with the two values swapped: what `a` and what `b` are afterwards.
abbrev pub smaller : ℤ → ℤ → ℤ
smaller a b = if ltb_ℤ b a then b else a

abbrev pub larger : ℤ → ℤ → ℤ
larger a b = if ltb_ℤ b a then a else b

-- `y` is the value after a round from the first, `z` after one from the second, and so on; a value
-- that is not read again is not kept.
unfoldable pub median5 : ℤ → ℤ → ℤ → ℤ → ℤ → ℤ
median5 x1 x2 x3 x4 x5 =
    let y1 = smaller x1 x2 in
    let y2 = larger x1 x2 in
    let z1 = smaller y1 x3 in
    let y3 = larger y1 x3 in
    let y4 = larger z1 x4 in
    let y5 = larger (smaller z1 x4) x5 in
    let z2 = smaller y2 y3 in
    let z3 = larger y2 y3 in
    let z4 = larger z2 y4 in let z5 = larger (smaller z2 y4) y5 in smaller (smaller z3 z4) z5
