-- ===== src/Gains/Innovation.antt =====
-- The gain that the code vector has of itself.
use talk2text.Prelude.{
  ℕ, zero, suc, ◌-◌, ◌*◌, ◌/◌, ◌%◌, ◌^◌, ◌≤◌, ◌<◌, ◌≡◌, ap, ◌∙◌, true, false, Bool-cases, inl, inr,
  ◌⊎◌, some, List, length, ℤ, pos, ◌-ℤ◌, neg, shr, to_int16, to_int32, shl32, eqb_ℤ, ltb_ℤ, max_32,
  IsInt16, leb, arith,
}
use native.Mathlib.Nat.{one-le-pow, pow-suc, mul-le-mul_left, div-mul-le_self}
use talk2text.Mime.Reference.{All}
use talk2text.FixedPoint.{shl_int32}
use talk2text.FixedPoint.Saturation.{sign_mask32}
use talk2text.Mathematics.Products.{dot_product12-normalized}
use talk2text.Mathematics.SquareRoot.{one_ov_sqrt_norm-returns}
use talk2text.Mathematics.Inverse.{shift_back}
use talk2text.Gains.{find_gcode_inov}

halved : (x k : ℕ) → x / 2 ^ suc k * 2 ≤ x
halved x k =
    let two : 2 ≤ 2 ^ suc k = omega (arith, pow-suc 2 k, one-le-pow k 2 (omega arith)) in
    let more : x / 2 ^ suc k * 2 ≤ x / 2 ^ suc k * 2 ^ suc k =
      mul-le-mul_left (x / 2 ^ suc k) two in
    omega (arith, more, div-mul-le_self x (2 ^ suc k))

-- A normalized number that is shifted to the left is the biggest.
wrapped : (k w l : ℕ) → 1 ≤ k → 2 ^ 30 ≤ l → eqb_ℤ (shr (to_int32 (pos w)) k) (pos l) ≡ false
unfolding to_int32
wrapped zero w l h p = absurd (omega arith)
wrapped (suc k) w l h p = ground (arith, halved (w % 2 ^ 32) k)

left : (l k : ℕ) → 2 ^ 30 ≤ l → l < 2 ^ 31 → shl_int32 (pos l) (pos (suc k)) ≡ max_32
unfolding shl_int32 shl32
left l k p q =
    let goes_left : ltb_ℤ (pos 0) (pos (suc k)) ≡ true = ground arith in
    rw (goes_left, wrapped (suc k) (l * 2 ^ suc k) l (omega arith) p)
      (sign_mask32 (pos l) (q, omega arith) ∙ ground arith)

upper_half : (x : ℕ) → x < 2 ^ 31 → to_int16 (shr (pos x) 16) ≡ pos (x / 2 ^ 16)
unfolding to_int16
upper_half x h = ground arith

quotient_bounds :
    (l m : ℕ) → 2 ^ 30 ≤ l → l < 2 ^ 31 → m ≤ 5 → (2 ^ 25 ≤ l / 2 ^ m) × (l / 2 ^ m < 2 ^ 31)
quotient_bounds l zero p q h = (omega arith, omega arith)
quotient_bounds l (suc zero) p q h = (omega arith, omega arith)
quotient_bounds l (suc (suc zero)) p q h = (omega arith, omega arith)
quotient_bounds l (suc (suc (suc zero))) p q h = (omega arith, omega arith)
quotient_bounds l (suc (suc (suc (suc zero)))) p q h = (omega arith, omega arith)
quotient_bounds l (suc (suc (suc (suc (suc zero))))) p q h = (omega arith, omega arith)
quotient_bounds l (suc (suc (suc (suc (suc (suc m)))))) p q h = absurd (omega arith)

-- The last count, to the left or to the right.
count_of : ℕ → ℤ
count_of exp = to_int16 (neg (shr (to_int16 (pos exp -ℤ pos 24) -ℤ pos 1) 1) -ℤ pos 3)

count_lem :
    (exp : ℕ)
    → exp ≤ 30
    → ((k : ℕ) × (count_of exp ≡ pos (suc k))) ⊎ ((m : ℕ) × (m ≤ 5) × (count_of exp ≡ neg (pos m)))
unfolding count_of to_int16 ◌-ℤ◌
count_lem exp h = elim (Bool-cases (leb exp 18)) [
  | inl low ↦ inl ((20 - exp) / 2 - 1, ground arith)
  | inr high ↦ elim (Bool-cases (leb exp 24)) [
    | inl middle ↦ inr ((exp - 19) / 2, ground arith, ground arith)
    | inr top ↦ inr ((exp - 19) / 2, ground arith, ground arith)
  ]
]

start-IsInt16 : (exp : ℕ) → exp ≤ 30 → IsInt16 (to_int16 (pos exp -ℤ pos 24))
unfolding to_int16 ◌-ℤ◌
start-IsInt16 exp h = ground arith

shifted-bounds :
    (l : ℕ) (c : ℤ)
    → 2 ^ 30 ≤ l
    → l < 2 ^ 31
    → ((k : ℕ) × (c ≡ pos (suc k))) ⊎ ((m : ℕ) × (m ≤ 5) × (c ≡ neg (pos m)))
    → (g : ℕ) × (to_int16 (shr (shl_int32 (pos l) c) 16) ≡ pos g) × (2 ^ 9 ≤ g) × (g < 2 ^ 15)
shifted-bounds l c p q (inl (k, e)) = (
  2 ^ 15 - 1,
  rw (e, left l k p q) (upper_half (2 ^ 31 - 1) (omega arith)),
  omega arith,
  omega arith,
)
shifted-bounds l c p q (inr (m, h, e)) =
    let (low, high) = quotient_bounds l m p q h in
    (
      l / 2 ^ m / 2 ^ 16,
      rw (e, shift_back l m (omega arith)) (upper_half (l / 2 ^ m) high),
      omega arith,
      omega arith,
    )

-- For every code vector of int16 with at least as many entries as the subframe, `find_gcode_inov`
-- returns, so the product and the table of the square root read nothing out of range, and the gain
-- is from 512 to below 2 ^ 15.
pub find_gcode_inov-returns :
    (code : List ℤ) (l_subfr : ℕ)
    → l_subfr ≤ length code
    → All IsInt16 code
    → (g : ℕ) × (find_gcode_inov code l_subfr ≡ some (pos g)) × (2 ^ 9 ≤ g) × (g < 2 ^ 15)
unfolding find_gcode_inov count_of
find_gcode_inov-returns code l_subfr h w =
    let (l, exp, e1, low, high, few) = dot_product12-normalized code l_subfr h w in
    let (l', e2, low', high') = one_ov_sqrt_norm-returns l _ low high (start-IsInt16 exp few) in
    let (g, e3, least, most) = shifted-bounds l' (count_of exp) low' high' (count_lem exp few) in
    (g, rw (e1, e2) (ap some e3), least, most)
