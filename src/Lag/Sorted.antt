-- ===== src/Lag/Sorted.antt =====
-- lagconceal.c: `insertion_sort` as a whole.
use talk2text.Prelude.{
  ℕ, ◌+◌, ◌≤◌, ◌≡◌, refl, if◌then◌else◌, Bool-cases, inl, inr, some, List, [], ◌∷◌, ◌++◌, length,
  length-take, take-append-drop, take, drop, ℤ, ltb_ℤ, ◌≤ℤ◌, eqb_ℤ, arith,
}
use talk2text.Mime.Reference.{All}
use talk2text.Lag.{sort_from, insertion_sort}
use talk2text.Lag.Sorting.{
  rev_onto, rev_onto-append, length-rev_onto, put_in, put_all, sort_from-put_all, length-put_in,
  IsSorted, put_all-IsFalling, rev_onto-IsSorted,
}

-- How often a value occurs.
abbrev pub occurrences : ℤ → List ℤ → ℕ
occurrences v [] = 0
occurrences v (x ∷ xs) = (if eqb_ℤ v x then 1 else 0) + occurrences v xs

occurrences-put_in : (v x : ℤ) (rs : List ℤ) → occurrences v (put_in x rs) ≡ occurrences v (x ∷ rs)
unfolding put_in
occurrences-put_in v x [] = refl
occurrences-put_in v x (r ∷ rs) = elim (Bool-cases (ltb_ℤ x r)) [
  | inl below ↦ rw below (omega (arith, occurrences-put_in v x rs))
  | inr above ↦ rw above refl
]

occurrences-put_all :
    (v : ℤ) (ys rs : List ℤ) → occurrences v (put_all ys rs) ≡ occurrences v ys + occurrences v rs
unfolding put_all
occurrences-put_all v [] rs = omega arith
occurrences-put_all v (y ∷ ys) rs =
    omega (arith, occurrences-put_all v ys (put_in y rs), occurrences-put_in v y rs)

occurrences-rev_onto :
    (v : ℤ) (rs ys : List ℤ) → occurrences v (rev_onto rs ys) ≡ occurrences v rs + occurrences v ys
unfolding rev_onto
occurrences-rev_onto v [] ys = omega arith
occurrences-rev_onto v (r ∷ rs) ys = omega (arith, occurrences-rev_onto v rs (r ∷ ys))

length-put_all : (ys rs : List ℤ) → length (put_all ys rs) ≡ length ys + length rs
unfolding put_all
length-put_all [] rs = omega arith
length-put_all (y ∷ ys) rs = omega (arith, length-put_all ys (put_in y rs), length-put_in y rs)

nothing_behind : (rs : List ℤ) → All (λ r. All (λ y. r ≤ℤ y) []) rs
nothing_behind [] = tt
nothing_behind (r ∷ rs) = (tt, nothing_behind rs)

-- The first `n` entries are sorted, and the others are as they were.
pub record Sorts (n : ℕ) (array : List ℤ) : Type 0 where
  pub sorted : List ℤ
  pub returns : insertion_sort array n ≡ some (sorted ++ drop n array)
  pub order : IsSorted sorted
  pub as_many : length sorted ≡ n
  pub same : (v : ℤ) → occurrences v sorted ≡ occurrences v (take n array)

-- For every array and every `n` up to its length `insertion_sort` returns; the first `n` entries
-- are then sorted, each value occurs among them as often as before, and the entries behind them
-- are unchanged.
pub insertion_sort-Sorts : (array : List ℤ) (n : ℕ) → n ≤ length array → Sorts n array
unfolding insertion_sort rev_onto
insertion_sort-Sorts array n h =
    let front = take n array in
    let rs = put_all front [] in
    let long : length front ≡ n = omega (arith, length-take n array) in
    let run = sort_from-put_all [] front (drop n array) in
    let whole : sort_from array 0 n ≡ some (rev_onto rs (drop n array)) =
      rw (take-append-drop n array, long) at run in
    record {
      sorted = rev_onto rs [];
      returns = rw (← rev_onto-append rs [] (drop n array)) whole;
      order = rev_onto-IsSorted rs [] (put_all-IsFalling front [] tt) tt (nothing_behind rs);
      as_many = omega (arith, length-rev_onto rs [], length-put_all front [], long);
      same = λ v. omega (arith, occurrences-rev_onto v rs [], occurrences-put_all v front []);
    }
