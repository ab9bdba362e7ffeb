-- ===== src/Serial/Laws.antt =====
-- The parameters read against the binary numbers of their bits.
use talk2text.Prelude.{
  ℕ, zero, suc, ◌+◌, ◌*◌, ◌/◌, ◌%◌, ◌^◌, ◌≤◌, ◌<◌, bit_or, ◌≡◌, refl, ap, if◌then◌else◌, ◌==◌, some,
  List, [], ◌∷◌, take, drop, length, length-drop, length-take, arith,
}
use talk2text.Prelude.Bits.{bit_or_step, bit_or-zero}
use native.Mathlib.Nat.{pow-suc, pow-le-pow_right}
use talk2text.Mime.{bit_1}
use talk2text.Serial.{serial_pairs, serial_odd, serial_parm, serial_parm_1bit}

abbrev pub digit : ℕ → ℕ
digit p = if p == bit_1 then 1 else 0

-- The number whose binary digits, after those of `acc`, are the bits.
unfoldable pub number : ℕ → List ℕ → ℕ
number acc [] = acc
number acc (p ∷ ps) = number (2 * acc + digit p) ps

or_two : (x : ℕ) → bit_or (4 * x) 2 ≡ 4 * x + 2
or_two x = ground (arith, bit_or_step (4 * x) 2, bit_or_step (2 * x) 1, bit_or-zero x)

or_one : (x : ℕ) → bit_or (2 * x) 1 ≡ 2 * x + 1
or_one x = ground (arith, bit_or_step (2 * x) 1, bit_or-zero x)

number_mod :
    (acc acc' : ℕ) (ps : List ℕ)
    → acc % 2 ^ 16 ≡ acc' % 2 ^ 16
    → number acc ps % 2 ^ 16 ≡ number acc' ps % 2 ^ 16
unfolding number
number_mod acc acc' [] e = e
number_mod acc acc' (p ∷ ps) e =
    number_mod (2 * acc + digit p) (2 * acc' + digit p) ps (ground arith)

mul_mono : (a b c : ℕ) → a ≤ b → a * c ≤ b * c
mul_mono a b c h = grind arith

-- One round takes two digits.
pair_value :
    (value first second : ℕ)
    → let shifted = value * 2 ^ 2 % 2 ^ 16 in
      let upper = if first == bit_1 then bit_or shifted 2 else shifted in
      (if second == bit_1 then bit_or upper 1 else upper)
      ≡ (2 * (2 * value + digit first) + digit second) % 2 ^ 16
pair_value value first second =
    let x = value % 2 ^ 14 in
    let e : value * 2 ^ 2 % 2 ^ 16 ≡ 4 * x = omega arith in
    rw e (ground (arith, or_two x, or_one (2 * x), or_one (2 * x + 1)))

serial_pairs-number :
    (i value : ℕ) (prms : List ℕ)
    → 2 * i ≤ length prms
    → value < 2 ^ 16
    → serial_pairs i value prms
      ≡ some (number value (take (2 * i) prms) % 2 ^ 16, drop (2 * i) prms)
unfolding serial_pairs number
serial_pairs-number zero value prms h v = ground arith
serial_pairs-number (suc i) value [] h v = absurd (omega arith)
serial_pairs-number (suc i) value (p ∷ []) h v = absurd (omega arith)
serial_pairs-number (suc i) value (p ∷ q ∷ ps) h v =
    let e : 2 * suc i ≡ suc (suc (2 * i)) = omega arith in
    rw
      (
        e,
        pair_value value p q,
        serial_pairs-number i ((2 * (2 * value + digit p) + digit q) % 2 ^ 16) ps (omega arith)
            (omega arith),
      )
      (ap (λ (t : ℕ). some (t, drop (2 * i) ps))
        (number_mod ((2 * (2 * value + digit p) + digit q) % 2 ^ 16)
          (2 * (2 * value + digit p) + digit q) (take (2 * i) ps) (omega arith)))

odd_value :
    (value last : ℕ)
    → let shifted = value * 2 % 2 ^ 16 in
      (if last == bit_1 then bit_or shifted 1 else shifted) ≡ (2 * value + digit last) % 2 ^ 16
odd_value value last =
    let x = value % 2 ^ 15 in
    let e : value * 2 % 2 ^ 16 ≡ 2 * x = omega arith in rw e (ground (arith, or_one x))

serial_odd-number :
    (r value : ℕ) (prms : List ℕ)
    → r ≤ 1
    → r ≤ length prms
    → value < 2 ^ 16
    → serial_odd r value prms ≡ some (number value (take r prms) % 2 ^ 16, drop r prms)
unfolding serial_odd number
serial_odd-number zero value prms h l v = ground arith
serial_odd-number (suc zero) value [] h l v = absurd (omega arith)
serial_odd-number (suc zero) value (p ∷ ps) h l v = rw (odd_value value p) refl
serial_odd-number (suc (suc r)) value prms h l v = absurd (omega arith)

number-split :
    (a r acc : ℕ) (ps : List ℕ)
    → number (number acc (take a ps)) (take r (drop a ps)) ≡ number acc (take (a + r) ps)
unfolding number
number-split zero r acc ps = let e : 0 + r ≡ r = omega arith in rw e
number-split (suc a) zero acc [] = let e : suc a + 0 ≡ suc (a + 0) = omega arith in rw e
number-split (suc a) (suc r) acc [] = let e : suc a + suc r ≡ suc (a + suc r) = omega arith in rw e
number-split (suc a) r acc (p ∷ ps) =
    let e : suc a + r ≡ suc (a + r) = omega arith in rw e (number-split a r (2 * acc + digit p) ps)

drop-drop : (a r : ℕ) (ps : List ℕ) → drop r (drop a ps) ≡ drop (a + r) ps
drop-drop zero r ps = let e : 0 + r ≡ r = omega arith in rw e
drop-drop (suc a) zero [] = let e : suc a + 0 ≡ suc (a + 0) = omega arith in rw e
drop-drop (suc a) (suc r) [] = let e : suc a + suc r ≡ suc (a + suc r) = omega arith in rw e
drop-drop (suc a) r (p ∷ ps) =
    let e : suc a + r ≡ suc (a + r) = omega arith in rw e (drop-drop a r ps)

-- If at least `n` bits are left, `serial_parm` returns the binary number of the next `n` bits, cut
-- to 16 bits, and the bits behind them.
pub serial_parm-number :
    (n : ℕ) (prms : List ℕ)
    → n ≤ length prms
    → serial_parm n prms ≡ some (number 0 (take n prms) % 2 ^ 16, drop n prms)
unfolding serial_parm
serial_parm-number n prms h =
    let a = 2 * (n / 2) in
    let r = n % 2 in
    let e : a + r ≡ n = omega arith in
    rw (
      serial_pairs-number (n / 2) 0 prms (omega arith) (omega arith),
      serial_odd-number r (number 0 (take a prms) % 2 ^ 16) (drop a prms) (omega arith)
          (omega (arith, length-drop a prms)) (omega arith),
      number_mod (number 0 (take a prms) % 2 ^ 16) (number 0 (take a prms)) (take r (drop a prms))
          (omega arith),
      number-split a r 0 prms,
      drop-drop a r prms,
      e,
    )

number-lt : (acc : ℕ) (ps : List ℕ) → number acc ps < (acc + 1) * 2 ^ length ps
unfolding number
number-lt acc [] = omega arith
number-lt acc (p ∷ ps) =
    let d : digit p ≤ 1 = ground arith in
    ground (
      arith,
      number-lt (2 * acc + digit p) ps,
      mul_mono (2 * acc + digit p + 1) (2 * acc + 2) (2 ^ length ps) (omega arith),
      ap (λ (t : ℕ). (acc + 1) * t) (pow-suc 2 (length ps)),
    )

-- If at least `n` bits are left and `n` is at most 16, `serial_parm` returns the binary number of
-- the next `n` bits and the bits behind them, and the number is below 2 ^ n.
pub serial_parm_bound :
    (n : ℕ) (prms : List ℕ)
    → n ≤ length prms
    → n ≤ 16
    → (serial_parm n prms ≡ some (number 0 (take n prms), drop n prms))
      × (number 0 (take n prms) < 2 ^ n)
serial_parm_bound n prms h k =
    let len : length (take n prms) ≡ n = omega (arith, length-take n prms) in
    let small : number 0 (take n prms) < 2 ^ n =
      ground (arith, number-lt 0 (take n prms), ap (λ (t : ℕ). 2 ^ t) len) in
    let wide : 2 ^ n ≤ 2 ^ 16 = pow-le-pow_right (omega arith) k in
    let e : number 0 (take n prms) % 2 ^ 16 ≡ number 0 (take n prms) = omega arith in
    (rw e at (serial_parm-number n prms h), small)

-- On every list of bits, the empty one included, `serial_parm_1bit` gives what `serial_parm` gives
-- for one bit.
pub serial_parm_1bit-serial_parm : (prms : List ℕ) → serial_parm_1bit prms ≡ serial_parm 1 prms
unfolding serial_parm_1bit serial_parm serial_pairs serial_odd
serial_parm_1bit-serial_parm [] = refl
serial_parm_1bit-serial_parm (p ∷ ps) = ground arith
