-- ===== src/Mathematics/Power.antt =====
-- power_of_2 of pvamrwb_math_op.c: it stays in its tables, and between two powers.
use talk2text.Prelude.{
  ℕ, zero, suc, ◌+◌, ◌-◌, ◌*◌, ◌/◌, ◌%◌, ◌^◌, ◌≤◌, ◌<◌, bit_and, ◌≡◌, refl, sym, ap, ◌∙◌, Bool,
  true, false, ◌&&◌, ltb, leb, all_below, all_below_sound, none, some, List, [], ◌∷◌, length,
  get_or, get_elem?, pos, ◌+ℤ◌, ◌-ℤ◌, ◌*ℤ◌, scale, to_int16, to_int32, shl32, and32, pattern16,
  eqb_ℤ, arith,
}
use talk2text.Prelude.Bits.{bit_and_mask}
use native.Mathlib.Nat.{pow-suc, le-div_iff_mul-le, div-le_self, div-lt_iff_lt-mul, one-le-pow}
use talk2text.Mathematics.{table_pow2, power_of_2, shr_rounded}

-- The entries grow, from 2 ^ 14 to 2 ^ 15 - 1.
grows : ℕ → Bool
grows i =
    leb 16384 (get_or table_pow2 i 0)
    && leb (get_or table_pow2 i 0) (get_or table_pow2 (i + 1) 0)
    && leb (get_or table_pow2 (i + 1) 0) 32767

table-grows : all_below 32 grows ≡ true
unfolding all_below grows
table-grows = refl

from_test :
    (t t' : ℕ)
    → (leb 16384 t && leb t t' && leb t' 32767) ≡ true
    → (16384 ≤ t) × (t ≤ t') × (t' ≤ 32767)
from_test t t' h = ground arith

interpolate_bound :
    (t t' a : ℕ)
    → 16384 ≤ t
    → t ≤ t'
    → t' ≤ 32767
    → a < 2 ^ 15
    → t * 2 ^ 15 + (t' - t) * a ≤ t' * 2 ^ 15
interpolate_bound t t' a p q r s =
    let m : (t' - t) * a ≤ (t' - t) * 2 ^ 15 = grind arith in omega arith

step_down : (t t' : ℕ) → t ≤ t' → t' ≤ 32767 → to_int16 (pos t -ℤ pos t') ≡ pos t -ℤ pos t'
unfolding to_int16 ◌-ℤ◌
step_down t t' q r = ground arith

-- The interpolated value.
interpolate :
    (t t' a : ℕ)
    → 16384 ≤ t
    → t ≤ t'
    → t' ≤ 32767
    → a < 2 ^ 15
    → to_int32 (shl32 (pos t) 15 -ℤ to_int16 (pos t -ℤ pos t') *ℤ pos a)
      ≡ pos (t * 2 ^ 15 + (t' - t) * a)
unfolding to_int32 shl32 ◌-ℤ◌ ◌*ℤ◌
interpolate t t' a p q r s =
    rw (step_down t t' q r) (ground (arith, interpolate_bound t t' a p q r s))

pub get_elem?-get_or : (xs : List ℕ) (i : ℕ) → i < length xs → get_elem? xs i ≡ some (get_or xs i 0)
get_elem?-get_or [] i h = absurd (omega arith)
get_elem?-get_or (x ∷ xs) zero h = refl
get_elem?-get_or (x ∷ xs) (suc i) h = get_elem?-get_or xs i (omega arith)

-- The last bit before those that are shifted out.
odd_lem : (x : ℕ) → x < 2 ^ 31 → and32 (pos x) (pos 1) ≡ pos (x % 2)
unfolding and32
odd_lem x h = ground (arith, bit_and_mask 1 x)

fraction_bits : (n : ℕ) → bit_and (pattern16 (scale (pos n) 5)) 0x7fff ≡ n * 32 % 2 ^ 15
fraction_bits n = ground (arith, bit_and_mask 15 (n * 32 % 2 ^ 16))

count_lem : (e k : ℕ) → e + k ≡ 29 → to_int16 (pos 29 -ℤ pos e) ≡ pos k
unfolding to_int16 ◌-ℤ◌
count_lem e k h = ground arith

pub two_pow-add : (e k : ℕ) → 2 ^ (e + k) ≡ 2 ^ e * 2 ^ k
two_pow-add zero k = grind arith
two_pow-add (suc e) k = grind (arith, two_pow-add e k, pow-suc 2 (e + k), pow-suc 2 e)

sum_lem : (x y : ℕ) → x + y < 2 ^ 31 → to_int32 (pos x +ℤ pos y) ≡ pos (x + y)
unfolding to_int32 ◌+ℤ◌
sum_lem x y h = ground arith

one_less : (k : ℕ) → pos (suc k) -ℤ pos 1 ≡ pos k
unfolding ◌-ℤ◌
one_less k = ground arith

-- A number of [2 ^ 29, 2 ^ 30) without its last `k` bits.
pub quotient_range :
    (e k v : ℕ)
    → e + k ≡ 29
    → 2 ^ 29 ≤ v
    → v < 2 ^ 30
    → (2 ^ e ≤ v / 2 ^ k) × (v / 2 ^ k < 2 ^ (e + 1))
quotient_range e k v h p q =
    let at_29 : 2 ^ e * 2 ^ k ≡ 2 ^ 29 = sym (two_pow-add e k) ∙ ap (λ n. 2 ^ n) h in
    let at_30 : 2 ^ (e + 1) * 2 ^ k ≡ 2 ^ 30 =
      let h' : e + 1 + k ≡ 30 = omega arith in sym (two_pow-add (e + 1) k) ∙ ap (λ n. 2 ^ n) h' in
    (
      (le-div_iff_mul-le (one-le-pow k 2 (omega arith))).1 (rw at_29 p),
      (div-lt_iff_lt-mul (one-le-pow k 2 (omega arith))).1 (rw at_30 q),
    )

shr_rounded-range :
    (e k v : ℕ)
    → e + k ≡ 29
    → 2 ^ 29 ≤ v
    → v < 2 ^ 30
    → (l : ℕ) × (shr_rounded (pos v) (pos k) ≡ some (pos l)) × (2 ^ e ≤ l) × (l ≤ 2 ^ (e + 1))
unfolding shr_rounded
shr_rounded-range e zero v h p q =
    let e_29 : e ≡ 29 = omega arith in (v, refl, rw e_29 p, rw e_29 (omega arith))
shr_rounded-range e (suc k) v h p q =
    let (low, high) = quotient_range e (suc k) v h p q in
    let small = div-le_self v (2 ^ k) in
    let smaller = div-le_self v (2 ^ suc k) in
    let counts : ltb (suc k) 32 ≡ true = ground arith in
    let counts' : ltb k 32 ≡ true = ground arith in
    let counted : eqb_ℤ (pos (suc k)) (pos 0) ≡ false = ground arith in
    let odd = odd_lem (v / 2 ^ k) (omega arith) in
    (
      v / 2 ^ suc k + v / 2 ^ k % 2,
      rw
          (
            counted,
            counts,
            one_less k,
            counts',
            odd,
            sum_lem (v / 2 ^ suc k) (v / 2 ^ k % 2) (omega arith),
          )
          refl,
      omega arith,
      omega arith,
    )

-- For an exponent below 30 and a fraction below 2 ^ 15 `power_of_2` returns, so it reads nothing
-- outside its table and shifts by counts that C defines, and its result lies from 2 to the
-- exponent to 2 to the next exponent; for the exponent 30 it shifts by a negative count.
pub power_of_2-range :
    (e f : ℕ)
    → e < 30
    → f < 2 ^ 15
    → (l : ℕ) × (power_of_2 (pos e) (pos f) ≡ some (pos l))
      × (2 ^ e ≤ l)
      × (l ≤ 2 ^ (e + 1))
      × (power_of_2 (pos 30) (pos f) ≡ none)
unfolding power_of_2 ◌+ℤ◌ grows shr_rounded to_int16 ◌-ℤ◌
power_of_2-range e f h small =
    let i = f / 2 ^ 10 in
    let t = get_or table_pow2 i 0 in
    let t' = get_or table_pow2 (i + 1) 0 in
    let a = f * 32 % 2 ^ 15 in
    let (low, up, high) = from_test t t' (all_below_sound 32 grows i table-grows (omega arith)) in
    let v = t * 2 ^ 15 + (t' - t) * a in
    let top = interpolate_bound t t' a low up high (omega arith) in
    let (l, e_l, from, upto) =
      shr_rounded-range e (29 - e) v (omega arith) (omega arith) (omega arith) in
    let next : pos i +ℤ pos 1 ≡ pos (i + 1) = ground arith in
    (
      l,
      rw
          (
            get_elem?-get_or table_pow2 i (omega arith),
            next,
            get_elem?-get_or table_pow2 (i + 1) (omega arith),
            fraction_bits f,
            interpolate t t' a low up high (omega arith),
            count_lem e (29 - e) (omega arith),
          )
          e_l,
      from,
      upto,
      rw
          (
            get_elem?-get_or table_pow2 i (omega arith),
            next,
            get_elem?-get_or table_pow2 (i + 1) (omega arith),
          )
          refl,
    )
