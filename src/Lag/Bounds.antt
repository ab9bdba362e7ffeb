-- ===== src/Lag/Bounds.antt =====
-- lagconceal.c: `lagconceal` and the bounds of the history.
use talk2text.Prelude.{
  ℕ, zero, suc, ◌+◌, ◌≤◌, ◌<◌, ◌≡◌, refl, Bool, true, false, if◌then◌else◌, Bool-cases, inl, inr,
  Option, some, List, [], ◌∷◌, ◌++◌, get_elem?, length, drop, ℤ, pos, ltb_ℤ, ◌≤ℤ◌, arith,
}
use talk2text.Mime.{◌>>=◌}
use talk2text.Mime.Reference.{All}
use talk2text.Lag.{
  smallest_from, biggest_from, sum_from, guess_lag, clamp, Histories, read_histories, replace_lost,
  is_plausible, is_steady, is_voiced, replace_bad, lagconceal,
}
use talk2text.Lag.Sorted.{insertion_sort-Sorts}

abbrev pub Between : ℤ → ℤ → ℤ → Type 0
Between lo hi x = (lo ≤ℤ x) × (x ≤ℤ hi)

get_lem : (xs ys : List ℤ) (i : ℕ) → i < length xs → (x : ℤ) × (get_elem? (xs ++ ys) i ≡ some x)
get_lem [] ys i h = absurd (omega arith)
get_lem (x ∷ xs) ys zero h = (x, refl)
get_lem (x ∷ xs) ys (suc i) h = get_lem xs ys i (omega arith)

abbrev Answers : Option (ℤ × ℤ) → Type 0
Answers r = (t : ℤ) × (seed : ℤ) × (r ≡ some (t, seed))

answer : (a : ℤ × ℤ) → Answers (some a)
answer (t, seed) = (t, seed, refl)

guess_lag-Answers :
    (lag_hist : List ℤ) (seed : ℤ) → length lag_hist ≡ 5 → Answers (guess_lag lag_hist seed)
unfolding guess_lag
guess_lag-Answers lag_hist seed h =
    let s = insertion_sort-Sorts lag_hist 5 (omega arith) in
    let (l2, e2) = get_lem s.sorted (drop 5 lag_hist) 2 (omega (arith, s.as_many)) in
    let (l3, e3) = get_lem s.sorted (drop 5 lag_hist) 3 (omega (arith, s.as_many)) in
    let (l4, e4) = get_lem s.sorted (drop 5 lag_hist) 4 (omega (arith, s.as_many)) in
    rw (s.returns, e2, e3, e4) (answer _)

clamp-Between :
    (lo hi min_lag max_lag t : ℤ)
    → Between lo hi min_lag
    → Between lo hi max_lag
    → Between lo hi (clamp min_lag max_lag t)
unfolding clamp
clamp-Between lo hi min_lag max_lag t p q = elim (Bool-cases (ltb_ℤ max_lag t)) [
  | inl above ↦ rw above (elim (Bool-cases (ltb_ℤ max_lag min_lag)) [
    | inl crossed ↦ rw crossed p
    | inr fine ↦ rw fine q
  ])
  | inr within ↦ rw within (elim (Bool-cases (ltb_ℤ t min_lag)) [
    | inl under ↦ rw under p
    | inr fine ↦ rw fine (ground arith)
  ])
]

module _ (P : ℤ → Type 0) where
  get_each :
      (xs : List ℤ) (i : ℕ) → All P xs → i < length xs → (x : ℤ) × (get_elem? xs i ≡ some x) × P x
  get_each [] i a h = absurd (omega arith)
  get_each (x ∷ xs) zero a h = (x, refl, a.0)
  get_each (x ∷ xs) (suc i) a h = get_each xs i a.1 (omega arith)

  picked : (b : Bool) (x m : ℤ) → P x → P m → P (if b then x else m)
  picked true x m p q = p
  picked false x m p q = q

  module _ (xs : List ℤ) (a : All P xs) where
    smallest_from-returns :
        (i left : ℕ) (m : ℤ)
        → i + left ≤ length xs
        → P m
        → (x : ℤ) × (smallest_from xs i left m ≡ some x) × P x
    unfolding smallest_from
    smallest_from-returns i zero m h p = (m, refl, p)
    smallest_from-returns i (suc left) m h p =
        let (x, e, q) = get_each xs i a (omega arith) in
        rw e (smallest_from-returns (suc i) left _ (omega arith) (picked (ltb_ℤ x m) x m q p))

    biggest_from-returns :
        (i left : ℕ) (m : ℤ)
        → i + left ≤ length xs
        → P m
        → (x : ℤ) × (biggest_from xs i left m ≡ some x) × P x
    unfolding biggest_from
    biggest_from-returns i zero m h p = (m, refl, p)
    biggest_from-returns i (suc left) m h p =
        let (x, e, q) = get_each xs i a (omega arith) in
        rw e (biggest_from-returns (suc i) left _ (omega arith) (picked (ltb_ℤ m x) x m q p))

    sum_from-returns :
        (i left : ℕ) (m : ℤ) → i + left ≤ length xs → (x : ℤ) × (sum_from xs i left m ≡ some x)
    unfolding sum_from
    sum_from-returns i zero m h = (m, refl)
    sum_from-returns i (suc left) m h =
        let (x, e, q) = get_each xs i a (omega arith) in
        rw e (sum_from-returns (suc i) left _ (omega arith))

-- The histories were read, and their bounds lie between `lo` and `hi`.
record ReadBetween (lo hi : ℤ) (r : Option Histories) : Type 0 where
  histories : Histories
  returns : r ≡ some histories
  last : Between lo hi histories.last_lag
  least : Between lo hi histories.min_lag
  most : Between lo hi histories.max_lag

read_between :
    {lo hi : ℤ} (h : Histories)
    → Between lo hi h.last_lag
    → Between lo hi h.min_lag
    → Between lo hi h.max_lag
    → ReadBetween lo hi (some h)
read_between h a b c = record { histories = h; returns = refl; last = a; least = b; most = c }

-- Five lags between `lo` and `hi`.
pub record AreLags (lo hi : ℤ) (lags : List ℤ) : Type 0 where
  pub five : length lags ≡ 5
  pub each : All (Between lo hi) lags

anything : (xs : List ℤ) → All (λ x. Unit {0}) xs
anything [] = tt
anything (x ∷ xs) = (tt, anything xs)

read_histories-ReadBetween :
    (gain_hist lag_hist : List ℤ) (lo hi : ℤ)
    → length gain_hist ≡ 5
    → AreLags lo hi lag_hist
    → ReadBetween lo hi (read_histories gain_hist lag_hist)
unfolding read_histories
read_histories-ReadBetween gain_hist lag_hist lo hi l v =
    let P = Between lo hi in
    let Any : ℤ → Type 0 = λ x. Unit in
    let w = anything gain_hist in
    let (g4, e4, _) = get_each Any gain_hist 4 w (omega (arith, l)) in
    let (g3, e3, _) = get_each Any gain_hist 3 w (omega (arith, l)) in
    let (g0, e0, _) = get_each Any gain_hist 0 w (omega (arith, l)) in
    let (h0, f0, p0) = get_each P lag_hist 0 v.each (omega (arith, v.five)) in
    let (lo_lag, fs, ps) =
      smallest_from-returns P lag_hist v.each 1 4 h0 (omega (arith, v.five)) p0 in
    let (hi_lag, fb, pb) =
      biggest_from-returns P lag_hist v.each 1 4 h0 (omega (arith, v.five)) p0 in
    let (lo_gain, fg, _) = smallest_from-returns Any gain_hist w 1 4 g0 (omega (arith, l)) tt in
    let (sum, ft) = sum_from-returns P lag_hist v.each 0 5 (pos 0) (omega (arith, v.five)) in
    rw (ft, f0, fs, fb, e0, fg, e4, e3) (read_between _ p0 ps pb)

-- A lag between `lo` and `hi` comes out.
pub record Conceals (lo hi : ℤ) (r : Option (ℤ × ℤ)) : Type 0 where
  pub t0 : ℤ
  pub seed : ℤ
  pub returns : r ≡ some (t0, seed)
  pub between : Between lo hi t0

conceals : {lo hi : ℤ} (t0 seed : ℤ) → Between lo hi t0 → Conceals lo hi (some (t0, seed))
conceals t0 seed b = record { t0 = t0; seed = seed; returns = refl; between = b }

if_Answers :
    (b : Bool) (x y : Option (ℤ × ℤ)) → Answers x → Answers y → Answers (if b then x else y)
if_Answers true x y p q = p
if_Answers false x y p q = q

if_Conceals :
    (lo hi : ℤ) (b : Bool) (x y : Option (ℤ × ℤ))
    → Conceals lo hi x
    → Conceals lo hi y
    → Conceals lo hi (if b then x else y)
if_Conceals lo hi true x y p q = p
if_Conceals lo hi false x y p q = q

module _ (lo hi : ℤ) (h : Histories) (lag_hist : List ℤ) (five : length lag_hist ≡ 5)
    (least : Between lo hi h.min_lag) (most : Between lo hi h.max_lag) where
  clamped :
      (r : Option (ℤ × ℤ))
      → Answers r
      → Conceals lo hi (r >>= λ (t, seed). some (clamp h.min_lag h.max_lag t, seed))
  clamped r (t, seed, e) =
      rw e (conceals _ _ (clamp-Between lo hi h.min_lag h.max_lag t least most))

  replace_lost-Answers : (old_t0 seed : ℤ) → Answers (replace_lost h lag_hist old_t0 seed)
  unfolding replace_lost
  replace_lost-Answers old_t0 seed = if_Answers (is_steady h) _ _ (answer (old_t0, seed)) (
      if_Answers (is_voiced h) _ _ (answer (h.last_lag, seed))
        (guess_lag-Answers lag_hist seed five))

  replace_bad-Answers : (seed : ℤ) → Answers (replace_bad h lag_hist seed)
  unfolding replace_bad
  replace_bad-Answers seed = if_Answers (is_steady h) _ _ (answer (h.last_lag, seed)) (
      if_Answers (is_voiced h) _ _ (answer (h.last_lag, seed))
        (guess_lag-Answers lag_hist seed five))

-- If the five lags of the history and the received lag lie between two bounds, and there are five
-- gains, `lagconceal` returns a lag between the bounds, for a lost and for a bad frame, and for
-- every seed and old lag.
pub lagconceal-Conceals :
    (gain_hist lag_hist : List ℤ) (lo hi t0 old_t0 seed : ℤ) (unusable_frame : Bool)
    → length gain_hist ≡ 5
    → AreLags lo hi lag_hist
    → Between lo hi t0
    → Conceals lo hi (lagconceal gain_hist lag_hist t0 old_t0 seed unusable_frame)
unfolding lagconceal
lagconceal-Conceals gain_hist lag_hist lo hi t0 old_t0 seed unusable_frame g l b =
    let r = read_histories-ReadBetween gain_hist lag_hist lo hi g l in
    let h = r.histories in
    let lost =
      clamped lo hi h lag_hist l.five r.least r.most _
        (replace_lost-Answers lo hi h lag_hist l.five r.least r.most old_t0 seed) in
    let bad =
      clamped lo hi h lag_hist l.five r.least r.most _
        (replace_bad-Answers lo hi h lag_hist l.five r.least r.most seed) in
    rw r.returns (
      if_Conceals lo hi unusable_frame _ _ lost
        (if_Conceals lo hi (is_plausible h t0) _ _ (conceals t0 seed b) bad))
