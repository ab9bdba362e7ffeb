-- ===== src/Gains/Erasure.antt =====
-- The gains of lost subframes: they return, they are bounded, and what the energies do.
use talk2text.Prelude.{
  ℕ, suc, ◌*◌, ◌/◌, ◌^◌, ◌≤◌, ◌<◌, ◌≡◌, refl, ap, ◌∙◌, Bool, true, false, if◌then◌else◌, some, List,
  [], ◌∷◌, ◌++◌, length, length-append, get_elem?, get_or, drop, ℤ, pos, negsuc, pos_part, neg_part,
  ◌+ℤ◌, ◌-ℤ◌, ◌*ℤ◌, shr, ltb_ℤ, to_int16, sat16, arith, leb, all_below, all_below_sound, Bool-cases,
  inl, inr,
}
use talk2text.Mime.Reference.{All}
use talk2text.FixedPoint.{mult_int16}
use talk2text.FixedPoint.Saturation.{mult_int16-sat16}
use talk2text.Median.{smaller, larger, median5}
use talk2text.Mathematics.Power.{get_elem?-get_or}
use talk2text.Gains.{
  pdown_unusable, pdown_usable, cdown_unusable, cdown_usable, GainMemory, lowest_energy, median_of,
  limited, lost_energy,
}

-- A gain of the history, and an energy.
abbrev pub IsGain : ℤ → Type 0
IsGain z = (neg_part z ≡ 0) × (pos_part z < 2 ^ 15)

abbrev pub IsEnergy : ℤ → Type 0
IsEnergy z = (neg_part z ≤ 14336) × (pos_part z < 2 ^ 14)

pub record IsGainMemory (mem : GainMemory) : Type 0 where
  pub pitches : All IsGain mem.pbuf × (length mem.pbuf ≡ 5)
  pub codes : All IsGain mem.gbuf × (length mem.gbuf ≡ 5)
  pub energies :
      IsEnergy mem.past_qua_en_0
      × IsEnergy mem.past_qua_en_1
      × IsEnergy mem.past_qua_en_2
      × IsEnergy mem.past_qua_en_3

-- Of two values both results are one of them.
ordered {ℓ} : (P : ℤ → Type ℓ) (a b : ℤ) → P a → P b → P (smaller a b) × P (larger a b)
ordered P a b p q = elim (Bool-cases (ltb_ℤ b a)) [
  | inl e ↦ (rw e q, rw e p)
  | inr e ↦ (rw e p, rw e q)
]

median5-keeps {ℓ} :
    (P : ℤ → Type ℓ) (x1 x2 x3 x4 x5 : ℤ)
    → P x1
    → P x2
    → P x3
    → P x4
    → P x5
    → P (median5 x1 x2 x3 x4 x5)
unfolding median5
median5-keeps P x1 x2 x3 x4 x5 p1 p2 p3 p4 p5 =
    let (y1, y2) = ordered P x1 x2 p1 p2 in
    let (z1, y3) = ordered P _ x3 y1 p3 in
    let (w1, y4) = ordered P _ x4 z1 p4 in
    let (v1, y5) = ordered P _ x5 w1 p5 in
    let (z2, z3) = ordered P _ _ y2 y3 in
    let (w2, z4) = ordered P _ _ z2 y4 in
    let (v2, z5) = ordered P _ _ w2 y5 in
    let (w3, w4) = ordered P _ _ z3 z4 in (ordered P _ _ w3 z5).0

pub median_of-returns :
    (xs : List ℤ) → All IsGain xs → length xs ≡ 5 → (m : ℤ) × (median_of xs ≡ some m) × IsGain m
median_of-returns [] p l = absurd (omega (arith, l))
median_of-returns (x1 ∷ []) p l = absurd (omega (arith, l))
median_of-returns (x1 ∷ x2 ∷ []) p l = absurd (omega (arith, l))
median_of-returns (x1 ∷ x2 ∷ x3 ∷ []) p l = absurd (omega (arith, l))
median_of-returns (x1 ∷ x2 ∷ x3 ∷ x4 ∷ []) p l = absurd (omega (arith, l))
median_of-returns (x1 ∷ x2 ∷ x3 ∷ x4 ∷ x5 ∷ []) (p1, (p2, (p3, (p4, (p5, _))))) l =
    (median5 x1 x2 x3 x4 x5, refl, median5-keeps IsGain x1 x2 x3 x4 x5 p1 p2 p3 p4 p5)
median_of-returns (x1 ∷ x2 ∷ x3 ∷ x4 ∷ x5 ∷ x6 ∷ xs) p l = absurd (omega (arith, l))

product-le : (m n : ℕ) → m < 2 ^ 15 → m * n / 2 ^ 15 ≤ n
product-le m n h = let e : m * n ≤ 2 ^ 15 * n = grind arith in omega arith

leb-lt : (n m : ℕ) → leb n m ≡ true → n < suc m
leb-lt n m h = ground arith

not_below : (z : ℤ) → neg_part z ≤ 10240 → ltb_ℤ z lowest_energy ≡ false
not_below (pos n) h = ground arith
not_below (negsuc n) h = ground arith

All-snoc : (xs : List ℤ) (z : ℤ) → All IsGain xs → IsGain z → All IsGain (xs ++ z ∷ [])
All-snoc [] z p g = (g, tt)
All-snoc (x ∷ xs) z p g = (p.0, All-snoc xs z p.1 g)

multiplied : (m n : ℕ) → pos m *ℤ pos n ≡ pos (m * n)
unfolding ◌*ℤ◌
multiplied m n = ground arith

in_range : (n : ℕ) → n < 2 ^ 15 → sat16 (pos n) ≡ pos n
in_range n h = ground arith

-- A gain that is multiplied by a factor below one.
pub scaled :
    (m : ℕ) (z : ℤ)
    → m < 2 ^ 15
    → IsGain z
    → IsGain (mult_int16 (pos m) z) × (pos_part (mult_int16 (pos m) z) ≤ pos_part z)
scaled m (negsuc n) h g = absurd (omega (arith, g.0))
scaled m (pos n) h g =
    let small = product-le m n h in
    let e : mult_int16 (pos m) (pos n) ≡ pos (m * n / 2 ^ 15) =
      mult_int16-sat16 (pos m) (pos n) (h, omega arith) (g.1, omega arith)
      ∙ ap (λ z. sat16 (shr z 15)) (multiplied m n)
      ∙ in_range (m * n / 2 ^ 15) (omega (arith, g.1)) in
    rw e ((refl, omega (arith, g.1)), small)

sum_bounds :
    (a b c d : ℤ)
    → IsEnergy a
    → IsEnergy b
    → IsEnergy c
    → IsEnergy d
    → (neg_part (a +ℤ b +ℤ c +ℤ d) ≤ 57344) × (pos_part (a +ℤ b +ℤ c +ℤ d) < 2 ^ 16)
unfolding ◌+ℤ◌
sum_bounds a b c d p q r s = ground arith

-- The smallest new energy is -10 in Q10, so the limit of -14 is never reached.
energy_of :
    (z : ℤ)
    → neg_part z ≤ 57344
    → pos_part z < 2 ^ 16
    → let q = to_int16 (to_int16 (shr z 3) -ℤ pos 3072) in
      (neg_part q ≤ 10240) × (pos_part q < 2 ^ 14)
unfolding to_int16 ◌-ℤ◌
energy_of (pos n) p q = ground arith
energy_of (negsuc n) p q = ground arith

pub lost_energy-bounds :
    (mem : GainMemory)
    → IsGainMemory mem
    → (neg_part (lost_energy mem) ≤ 10240) × (pos_part (lost_energy mem) < 2 ^ 14)
unfolding lost_energy
lost_energy-bounds mem v =
    let (e0, e1, e2, e3) = v.energies in
    let (low, high) = sum_bounds _ _ _ _ e3 e2 e1 e0 in
    let (least, most) = energy_of _ low high in
    let free = not_below _ least in rw free (least, most)

factor :
    (table : List ℕ) (state : ℕ)
    → length table ≡ 7
    → all_below 7 (λ i. leb (get_or table i 0) 32767) ≡ true
    → state ≤ 6
    → (p : ℕ) × (get_elem? table state ≡ some p) × (p < 2 ^ 15)
factor table state l t h = (
  get_or table state 0,
  get_elem?-get_or table state (omega (arith, l)),
  leb-lt _ 32767 (all_below_sound 7 _ state t (omega arith)),
)

pub pitch_factor :
    (unusable : Bool) (state : ℕ)
    → state ≤ 6
    → (p : ℕ) × (get_elem? (if unusable then pdown_unusable else pdown_usable) state ≡ some p)
      × (p < 2 ^ 15)
unfolding all_below
pitch_factor true state h = factor pdown_unusable state refl refl h
pitch_factor false state h = factor pdown_usable state refl refl h

pub code_factor :
    (unusable : Bool) (state : ℕ)
    → state ≤ 6
    → (p : ℕ) × (get_elem? (if unusable then cdown_unusable else cdown_usable) state ≡ some p)
      × (p < 2 ^ 15)
unfolding all_below
code_factor true state h = factor cdown_unusable state refl refl h
code_factor false state h = factor cdown_usable state refl refl h

pub limited-IsGain : (z : ℤ) → IsGain z → IsGain (limited z) × (pos_part (limited z) ≤ 15565)
limited-IsGain (pos n) g = ground (arith, g.1)
limited-IsGain (negsuc n) g = absurd (omega (arith, g.0))

pub moved-IsGain :
    (xs : List ℤ) (z : ℤ)
    → All IsGain xs × (length xs ≡ 5)
    → IsGain z
    → All IsGain (drop 1 xs ++ z ∷ []) × (length (drop 1 xs ++ z ∷ []) ≡ 5)
moved-IsGain [] z p g = absurd (omega (arith, p.1))
moved-IsGain (x ∷ xs) z p g = (All-snoc xs z p.0.1 g, omega (arith, p.1, length-append xs (z ∷ [])))
