-- ===== src/Mathematics/Products.antt =====
-- Dot_product12 and int32_to_dpf of pvamrwb_math_op.c.
use talk2text.Prelude.{
  ℕ, zero, suc, ◌+◌, ◌-◌, ◌*◌, ◌/◌, ◌%◌, ◌^◌, ◌≤◌, ◌<◌, ◌≡◌, refl, ap, ◌∙◌, some, List, [], ◌∷◌,
  length, ℤ, pos, negsuc, ◌+ℤ◌, ◌-ℤ◌, ◌*ℤ◌, shr, scale, to_int16, to_int32, shl32, IsInt16, IsInt32,
  sat32, arith, ltb, Bool-cases, inl, inr,
}
use talk2text.Mime.Reference.{All}
use talk2text.FixedPoint.{mac_16by16_to_int32, normalize_amr_wb}
use talk2text.FixedPoint.Norm.{normalize_amr_wb_lem}
use talk2text.FixedPoint.Wide.{mac_16by16-add_int32}
use talk2text.Mathematics.{accumulate, dot_product12, int32_to_dpf}
use talk2text.Mathematics.Inverse.{norm-le}

-- An int32 that is greater than zero.
abbrev IsPositive : ℤ → Type 0
IsPositive z = (n : ℕ) × (z ≡ pos n) × (0 < n) × (n < 2 ^ 31)

square : (x : ℤ) → (n : ℕ) × (x *ℤ x +ℤ x *ℤ x ≡ pos n)
unfolding ◌*ℤ◌ ◌+ℤ◌
square (pos m) = (2 * (m * m), ground arith)
square (negsuc m) = (2 * (suc m * suc m), ground arith)

sat32_pos : (n : ℕ) → (m : ℕ) × (sat32 (pos n) ≡ pos m) × (m < 2 ^ 31) × (1 ≤ n → 1 ≤ m)
sat32_pos n = elim (Bool-cases (ltb n (2 ^ 31))) [
  | inl small ↦ (n, ground arith, ground arith, λ h. h)
  | inr big ↦ (2 ^ 31 - 1, ground arith, omega arith, λ h. omega arith)
]

sum_pos : (m n : ℕ) → pos m +ℤ pos n ≡ pos (m + n)
unfolding ◌+ℤ◌
sum_pos m n = ground arith

mac-IsPositive : (l x : ℤ) → IsPositive l → IsInt16 x → IsPositive (mac_16by16_to_int32 l x x)
mac-IsPositive l x (n, e, p, q) h =
    let (w, sq) = square x in
    let (v, e1, small, _) = sat32_pos w in
    let (u, e2, fits, most) = sat32_pos (n + v) in
    (
      u,
      rw e (mac_16by16-add_int32 (pos n) x x (q, omega arith) h h)
          ∙ ap (λ z. sat32 (pos n +ℤ sat32 z)) sq
          ∙ ap (λ z. sat32 (pos n +ℤ z)) e1
          ∙ ap sat32 (sum_pos n v)
          ∙ e2,
      most (omega arith),
      fits,
    )

accumulate-IsPositive :
    (i : ℕ) (xs : List ℤ) (l : ℤ)
    → i ≤ length xs
    → All IsInt16 xs
    → IsPositive l
    → (s : ℤ) × (accumulate i xs xs l ≡ some s) × IsPositive s
unfolding accumulate
accumulate-IsPositive zero xs l h w p = (l, refl, p)
accumulate-IsPositive (suc i) [] l h w p = absurd (omega arith)
accumulate-IsPositive (suc i) (x ∷ xs) l h w p =
    accumulate-IsPositive i xs (mac_16by16_to_int32 l x x) (omega arith) w.1
      (mac-IsPositive l x p w.0)

shl_exact : (n k : ℕ) → n * 2 ^ k < 2 ^ 31 → shl32 (pos n) k ≡ pos (n * 2 ^ k)
unfolding shl32 to_int32
shl_exact n k h = ground arith

exponent_lem : (k : ℕ) → k ≤ 30 → to_int16 (pos 30 -ℤ pos k) ≡ pos (30 - k)
unfolding to_int16 ◌-ℤ◌
exponent_lem k h = ground arith

-- For a vector of int16 with at least `lg` entries `dot_product12` of it with itself returns a number
-- from 2 ^ 30 to below 2 ^ 31, and an exponent of at most 30.
pub dot_product12-normalized :
    (x : List ℤ) (lg : ℕ)
    → lg ≤ length x
    → All IsInt16 x
    → (l : ℕ) × (exp : ℕ) × (dot_product12 x x lg ≡ some (pos l, pos exp))
      × (2 ^ 30 ≤ l)
      × (l < 2 ^ 31)
      × (exp ≤ 30)
unfolding dot_product12
dot_product12-normalized x lg h w =
    let (s, e, (n, en, p, q)) =
      accumulate-IsPositive (lg / 2 ^ 3 * 8) x (pos 1) (omega arith) w
        (1, refl, omega arith, omega arith) in
    let k = normalize_amr_wb (pos n) in
    let (least, fits) = normalize_amr_wb_lem n p q in
    let small = norm-le n k p fits in
    (
      n * 2 ^ k,
      30 - k,
      rw (e, en, shl_exact n k fits, exponent_lem k small) refl,
      least,
      fits,
      omega arith,
    )

-- On an int32 the two halves give the number back without its lowest bit: the lower half is from 0
-- to below 2 ^ 15, and the upper one counts 2 ^ 16.
pub int32_to_dpf-halves :
    (z : ℤ)
    → IsInt32 z
    → (lo : ℕ) × ((int32_to_dpf z).1 ≡ pos lo)
      × (lo < 2 ^ 15)
      × (scale (shr z 1) 1 ≡ scale (int32_to_dpf z).0 16 +ℤ pos (2 * lo))
unfolding int32_to_dpf to_int16 to_int32 shl32 ◌-ℤ◌ ◌+ℤ◌
int32_to_dpf-halves (pos n) h = (n % 2 ^ 16 / 2, ground arith, omega arith, ground arith)
int32_to_dpf-halves (negsuc n) h =
    ((2 ^ 16 - 1 - n % 2 ^ 16) / 2, ground arith, omega arith, ground arith)
