-- ===== src/Homing/Laws.antt =====
-- The homing test against the words of the mode's homing frame, and when it returns.
use talk2text.Prelude.{
  ℕ, zero, suc, ◌+◌, ◌-◌, ◌*◌, ◌/◌, ◌^◌, ◌≤◌, ◌<◌, bit_and, bit_or, bit_xor, Bool, true, false,
  if◌then◌else◌, ◌==◌, ◌≡◌, refl, sym, ◌∙◌, Option, some, List, [], ◌∷◌, get_elem?, length, take,
  drop, length-drop, arith, pos, pattern16,
}
use talk2text.Mime.{◌>>=◌}
use talk2text.Prelude.Bits.{bit_or_step, bit_xor_step}
use talk2text.FixedPoint.{shl_int16}
use talk2text.Serial.Laws.{number, serial_parm_bound}
use talk2text.Homing.{read_words, full_words, read_params, last_test, compare_params, dhf_test, dhf}

bit_xor-eq_fuel : (n a b : ℕ) → a ≤ n → b ≤ n → bit_xor a b ≡ 0 → a ≡ b
bit_xor-eq_fuel zero a b p q e = omega arith
bit_xor-eq_fuel (suc n) a b p q e =
    let s = bit_xor_step a b in
    let half = bit_xor-eq_fuel n (a / 2) (b / 2) (omega arith) (omega arith) (omega arith) in
    omega arith

bit_xor-eq : (a b : ℕ) → bit_xor a b ≡ 0 → a ≡ b
bit_xor-eq a b e = bit_xor-eq_fuel (a + b) a b (omega arith) (omega arith) e

bit_or-zero_left_fuel : (n a b : ℕ) → a ≤ n → bit_or a b ≡ 0 → a ≡ 0
bit_or-zero_left_fuel zero a b p e = omega arith
bit_or-zero_left_fuel (suc n) a b p e =
    let s = bit_or_step a b in
    let half = bit_or-zero_left_fuel n (a / 2) (b / 2) (omega arith) (omega arith) in omega arith

bit_or-zero_left : (a b : ℕ) → bit_or a b ≡ 0 → a ≡ 0
bit_or-zero_left a b e = bit_or-zero_left_fuel a a b (omega arith) e

-- Word `i` of a frame's bits.
abbrev pub word_at : ℕ → List ℕ → ℕ
word_at i frame = number 0 (take 15 (drop (15 * i) frame))

abbrev AreWords : ℕ → List ℕ → List ℕ → Type 0
AreWords k words frame = (i : ℕ) → i < k → get_elem? words i ≡ some (word_at i frame)

drop-drop {ℓ} : {A : Type ℓ} (n m : ℕ) (xs : List A) → drop m (drop n xs) ≡ drop (n + m) xs
drop-drop zero m xs = let e : 0 + m ≡ m = omega arith in rw e
drop-drop (suc n) zero [] = let e : suc n + 0 ≡ suc n = omega arith in rw e refl
drop-drop (suc n) (suc m) [] = let e : suc n + suc m ≡ suc (n + suc m) = omega arith in rw e
drop-drop (suc n) m (x ∷ xs) =
    let e : suc n + m ≡ suc (n + m) = omega arith in rw e (drop-drop n m xs)

cons-AreWords :
    (k : ℕ) (words frame : List ℕ)
    → AreWords k words (drop 15 frame)
    → AreWords (suc k) (word_at 0 frame ∷ words) frame
cons-AreWords k words frame h zero p = refl
cons-AreWords k words frame h (suc i) p =
    let e : 15 * suc i ≡ 15 + 15 * i = omega arith in
    rw (e, ← drop-drop 15 (15 * i) frame) (h i (omega arith))

pub read_words-AreWords :
    (k : ℕ) (frame : List ℕ)
    → 15 * k ≤ length frame
    → (words : List ℕ) × (read_words k frame ≡ some (words, drop (15 * k) frame))
      × (length words ≡ k)
      × AreWords k words frame
unfolding read_words
read_words-AreWords zero frame h = ([], refl, refl, λ i p. absurd (omega arith))
read_words-AreWords (suc k) frame h =
    let (read, _) = serial_parm_bound 15 frame (omega arith) (omega arith) in
    let (words, e, l, w) =
      read_words-AreWords k (drop 15 frame) (omega (arith, length-drop 15 frame)) in
    let next : 15 * suc k ≡ 15 + 15 * k = omega arith in
    (
      word_at 0 frame ∷ words,
      rw (read, e, next, drop-drop 15 (15 * k) frame) refl,
      omega arith,
      cons-AreWords k words frame w,
    )

-- The fuel is enough: the words before the last one are those whose end lies below `n`.
full_words-bounds :
    (fuel n j : ℕ)
    → j < n
    → n ≤ fuel + j
    → (j + 15 * full_words fuel n j < n) × (n ≤ j + 15 * full_words fuel n j + 15)
unfolding full_words
full_words-bounds zero n j h f = absurd (omega arith)
full_words-bounds (suc fuel) n j h f = ground (arith, full_words-bounds fuel n (j + 15))

-- A difference before fails the last test.
last_test-differs : (shift j word entry : ℕ) → 0 < j → last_test shift j word entry ≡ false
unfolding last_test
last_test-differs shift j word entry h =
    let tmp = pattern16 (shl_int16 (pos (0x7fff / 2 ^ shift)) (pos shift)) in
    ground (arith, bit_or-zero_left j (bit_xor word (bit_and entry tmp)))

compare_params-agree :
    (word last shift entry : ℕ) (words table : List ℕ)
    → compare_params (word ∷ words) last shift (entry ∷ table) ≡ some true
    → (word ≡ entry) × (compare_params words last shift table ≡ some true)
unfolding compare_params
compare_params-agree word last shift entry words table e =
    ground (arith, bit_xor-eq word entry, last_test-differs shift (bit_xor word entry) word entry)

compare_params-AreWords :
    (words : List ℕ) (last shift : ℕ) (table : List ℕ)
    → compare_params words last shift table ≡ some true
    → (i w : ℕ) → get_elem? words i ≡ some w
    → get_elem? table i ≡ some w
unfolding compare_params
compare_params-AreWords [] last shift table e i w g = cc
compare_params-AreWords (word ∷ words) last shift [] e i w g = cc
compare_params-AreWords (word ∷ words) last shift (entry ∷ table) e zero w g =
    let agree = compare_params-agree word last shift entry words table e in cc
compare_params-AreWords (word ∷ words) last shift (entry ∷ table) e (suc i) w g =
    compare_params-AreWords words last shift table
      (compare_params-agree word last shift entry words table e).1 i w g

dhf_test-read_params :
    (frame table : List ℕ) (mode n : ℕ)
    → mode < 8
    → get_elem? dhf mode ≡ some table
    → dhf_test frame mode n ≡ (read_params n frame >>= λ p. compare_params p.0 p.1 p.2 table)
unfolding dhf_test
dhf_test-read_params frame table mode n h e =
    let a : (mode == 9) ≡ false = ground arith in
    let b : (mode == 8) ≡ false = ground arith in rw (a, b, e) refl

-- The parameters are read, the words before the last one as they stand in the frame.
read_params-AreWords :
    (n : ℕ) (frame : List ℕ)
    → 0 < n
    → n ≤ length frame
    → (words : List ℕ) × (last : ℕ) × (shift : ℕ) × (read_params n frame
        ≡ some (words, last, shift))
      × (15 * length words < n)
      × (n ≤ 15 * length words + 15)
      × AreWords (length words) words frame
unfolding read_params
read_params-AreWords n frame h room =
    let k = full_words n n 0 in
    let (lo, hi) = full_words-bounds n n 0 h (omega arith) in
    let (words, e, l, w) = read_words-AreWords k frame (omega arith) in
    let (read, _) =
      serial_parm_bound (n - 15 * k) (drop (15 * k) frame)
        (omega (arith, length-drop (15 * k) frame)) (omega arith) in
    let last = number 0 (take (n - 15 * k) (drop (15 * k) frame)) in
    let shift = 15 - (n - 15 * k) in
    (
      words,
      pattern16 (shl_int16 (pos last) (pos shift)),
      shift,
      rw (e, read) refl,
      omega arith,
      omega arith,
      rw l w,
    )

-- In the modes 0 to 7, if `dhf_test` accepts a frame on its first `n` bits, `n` being positive and
-- at most the bits of the frame, then each word of 15 bits of the frame that ends before bit `n`
-- is the word at the same place of the mode's homing frame.
pub dhf_test-word_at :
    (frame table : List ℕ) (mode n i : ℕ)
    → mode < 8
    → 0 < n
    → n ≤ length frame
    → get_elem? dhf mode ≡ some table
    → dhf_test frame mode n ≡ some true
    → 15 * i + 15 < n
    → get_elem? table i ≡ some (word_at i frame)
dhf_test-word_at frame table mode n i m h room et e inside =
    let (words, last, shift, read, lo, hi, w) = read_params-AreWords n frame h room in
    let run = dhf_test-read_params frame table mode n m et in
    let accepted : compare_params words last shift table ≡ some true =
      sym (run ∙ rw read refl) ∙ e in
    compare_params-AreWords words last shift table accepted i (word_at i frame) (w i (omega arith))

pub compare_params-returns :
    (words : List ℕ) (last shift : ℕ) (table : List ℕ)
    → length words < length table
    → (b : Bool) × (compare_params words last shift table ≡ some b)
unfolding compare_params
compare_params-returns words last shift [] h = absurd (omega arith)
compare_params-returns [] last shift (entry ∷ table) h = (_, refl)
compare_params-returns (word ∷ words) last shift (entry ∷ table) h =
    either (bit_xor word entry == 0) _ (compare_params-returns words last shift table (omega arith))
  where
    either :
        {r : Option Bool} (b c : Bool)
        → ((d : Bool) × (r ≡ some d))
        → (d : Bool) × ((if b then r else some c) ≡ some d)
    either true c h = h
    either false c h = (c, refl)

-- In the modes 0 to 7, `dhf_test` on `n` bits returns, and so reads nothing out of range, when `n`
-- is positive, at most the bits of the frame, and at most 15 for each word of the mode's table.
pub dhf_test-returns :
    (frame table : List ℕ) (mode n : ℕ)
    → mode < 8
    → 0 < n
    → n ≤ length frame
    → n ≤ 15 * length table
    → get_elem? dhf mode ≡ some table
    → (b : Bool) × (dhf_test frame mode n ≡ some b)
dhf_test-returns frame table mode n m h room wide et =
    let (words, last, shift, read, lo, hi, w) = read_params-AreWords n frame h room in
    let (b, e) = compare_params-returns words last shift table (omega arith) in
    (b, dhf_test-read_params frame table mode n m et ∙ rw read e)
