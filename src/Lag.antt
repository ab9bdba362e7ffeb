-- ===== src/Lag.antt =====
-- lagconceal.c and noise_gen_amrwb.c: a pitch lag in place of one that was lost. An array is a list,
-- and an access outside it is `none`.
pub mod Sorting
pub mod Sorted
pub mod Bounds
use talk2text.Prelude.{
  ℕ, zero, suc, ◌+◌, Bool, true, false, ◌&&◌, ◌||◌, not, if◌then◌else◌, ltb, Option, none, some,
  List, [], ◌∷◌, get_elem?, set, length, replicate, ℤ, pos, negsuc, ◌+ℤ◌, ◌-ℤ◌, ◌*ℤ◌, ltb_ℤ, eqb_ℤ,
  shr, to_int16,
}
use talk2text.Mime.{◌>>=◌}
use talk2text.FixedPoint.{add_int16, sub_int16, mult_int16}

-- L_LTPHIST, ONE_PER_3 and ONE_PER_LTPHIST.
abbrev pub l_ltphist : ℕ
l_ltphist = 5

abbrev pub one_per_3 : ℤ
one_per_3 = pos 10923

abbrev pub one_per_ltphist : ℤ
one_per_ltphist = pos 6554

-- `array[i] = x`
abbrev pub store : List ℤ → ℕ → ℤ → Option (List ℤ)
store array i x = if ltb i (length array) then some (set array i x) else none

-- The loop of `insert`, with `i + 1` for the source's `i`: it ends below 0, or at an entry that is
-- not above `x`.
unfoldable pub insert : List ℤ → ℕ → ℤ → Option (List ℤ)
insert array zero x = store array 0 x
insert array (suc i) x = do
  a ← get_elem? array i
  let moved = store array (suc i) a >>= λ array'. insert array' i x
  if ltb_ℤ x a then moved else store array (suc i) x

unfoldable pub sort_from : List ℤ → ℕ → ℕ → Option (List ℤ)
sort_from array i zero = some array
sort_from array i (suc left) = do
  x ← get_elem? array i
  array' ← insert array i x
  sort_from array' (suc i) left

unfoldable pub insertion_sort : List ℤ → ℕ → Option (List ℤ)
insertion_sort array n = sort_from array 0 n

unfoldable pub init_lagconc : List ℤ
init_lagconc = replicate l_ltphist (pos 64)

unfoldable pub noise_gen_amrwb : ℤ → ℤ
noise_gen_amrwb seed = to_int16 (seed *ℤ pos 31821 +ℤ pos 13849)

-- The loops over the histories, from entry `i` on.
unfoldable pub smallest_from : List ℤ → ℕ → ℕ → ℤ → Option ℤ
smallest_from xs i zero m = some m
smallest_from xs i (suc left) m = do
  x ← get_elem? xs i
  smallest_from xs (suc i) left (if ltb_ℤ x m then x else m)

unfoldable pub biggest_from : List ℤ → ℕ → ℕ → ℤ → Option ℤ
biggest_from xs i zero m = some m
biggest_from xs i (suc left) m = do
  x ← get_elem? xs i
  biggest_from xs (suc i) left (if ltb_ℤ m x then x else m)

unfoldable pub sum_from : List ℤ → ℕ → ℕ → ℤ → Option ℤ
sum_from xs i zero m = some m
sum_from xs i (suc left) m = do x ← get_elem? xs i; sum_from xs (suc i) left (add_int16 m x)

-- What both parts of `lagconceal` do when the history says nothing better: the mean of the three
-- biggest lags, and noise.
unfoldable pub guess_lag : List ℤ → ℤ → Option (ℤ × ℤ)
guess_lag lag_hist seed = do
  lag_hist2 ← insertion_sort lag_hist l_ltphist
  l2 ← get_elem? lag_hist2 2
  l3 ← get_elem? lag_hist2 3
  l4 ← get_elem? lag_hist2 4
  let dif = sub_int16 l4 l2
  let lag_dif = if ltb_ℤ (pos 40) dif then pos 40 else dif
  let d = noise_gen_amrwb seed
  let d2 = mult_int16 (shr lag_dif 1) d
  let sum = add_int16 (add_int16 l2 l3) l4
  some (add_int16 (mult_int16 sum one_per_3) d2, d)

-- The new lag is not allowed to be bigger or smaller than the last ones.
unfoldable pub clamp : ℤ → ℤ → ℤ → ℤ
clamp min_lag max_lag t0 =
    let t = if ltb_ℤ max_lag t0 then max_lag else t0 in if ltb_ℤ t min_lag then min_lag else t

-- What `lagconceal` reads from the histories.
pub record Histories : Type 0 where
  pub last_gain : ℤ
  pub sec_last_gain : ℤ
  pub last_lag : ℤ
  pub min_lag : ℤ
  pub max_lag : ℤ
  pub min_gain : ℤ
  pub mean_lag : ℤ

unfoldable pub read_histories : List ℤ → List ℤ → Option Histories
unfolding smallest_from biggest_from sum_from
read_histories gain_hist lag_hist = do
  last_gain ← get_elem? gain_hist 4
  sec_last_gain ← get_elem? gain_hist 3
  last_lag ← get_elem? lag_hist 0
  min_lag ← smallest_from lag_hist 1 4 last_lag
  max_lag ← biggest_from lag_hist 1 4 last_lag
  first_gain ← get_elem? gain_hist 0
  min_gain ← smallest_from gain_hist 1 4 first_gain
  sum ← sum_from lag_hist 0 l_ltphist (pos 0)
  some (record {
    last_gain = last_gain;
    sec_last_gain = sec_last_gain;
    last_lag = last_lag;
    min_lag = min_lag;
    max_lag = max_lag;
    min_gain = min_gain;
    mean_lag = mult_int16 sum one_per_ltphist;
  })

-- The gains were high and the lags close together; the last two gains were high.
abbrev pub is_steady : Histories → Bool
is_steady h = ltb_ℤ (pos 8192) h.min_gain && ltb_ℤ (sub_int16 h.max_lag h.min_lag) (pos 10)

abbrev pub is_voiced : Histories → Bool
is_voiced h = ltb_ℤ (pos 8192) h.last_gain && ltb_ℤ (pos 8192) h.sec_last_gain

-- RX_SPEECH_LOST: the lag of the frames before, or a guess.
unfoldable pub replace_lost : Histories → List ℤ → ℤ → ℤ → Option (ℤ × ℤ)
replace_lost h lag_hist old_t0 seed =
    let guessed = guess_lag lag_hist seed in
    if is_steady h
    then some (old_t0, seed)
    else if is_voiced h
    then some (h.last_lag, seed)
    else guessed

-- RX_BAD_FRAME: whether the lag that was received is kept.
unfoldable pub is_plausible : Histories → ℤ → Bool
is_plausible h t0 =
    let lag_dif = sub_int16 h.max_lag h.min_lag in
    let tmp = to_int16 (t0 -ℤ h.max_lag) in
    let tmp2 = to_int16 (t0 -ℤ h.last_lag) in
    ltb_ℤ lag_dif (pos 10) && ltb_ℤ (h.min_lag -ℤ pos 5) t0 && ltb_ℤ tmp (pos 5)
    || (is_voiced h && (ltb_ℤ (pos 0) (tmp2 +ℤ pos 10) && ltb_ℤ tmp2 (pos 10)))
    || (ltb_ℤ h.min_gain (pos 6554)
        && eqb_ℤ h.last_gain h.min_gain
        && (ltb_ℤ h.min_lag t0 && ltb_ℤ t0 h.max_lag))
    || (ltb_ℤ lag_dif (pos 70) && ltb_ℤ h.min_lag t0 && ltb_ℤ t0 h.max_lag)
    || (ltb_ℤ h.mean_lag t0 && ltb_ℤ t0 h.max_lag)

unfoldable pub replace_bad : Histories → List ℤ → ℤ → Option (ℤ × ℤ)
replace_bad h lag_hist seed =
    let guessed = guess_lag lag_hist seed in
    if is_steady h
    then some (h.last_lag, seed)
    else if is_voiced h
    then some (h.last_lag, seed)
    else guessed

-- The lag and the seed that `lagconceal` leaves.
unfoldable pub lagconceal : List ℤ → List ℤ → ℤ → ℤ → ℤ → Bool → Option (ℤ × ℤ)
unfolding read_histories replace_lost is_plausible replace_bad clamp
lagconceal gain_hist lag_hist t0 old_t0 seed unusable_frame = do
  h ← read_histories gain_hist lag_hist
  let lost = do
    (t, seed') ← replace_lost h lag_hist old_t0 seed
    some (clamp h.min_lag h.max_lag t, seed')
  let bad = do (t, seed') ← replace_bad h lag_hist seed; some (clamp h.min_lag h.max_lag t, seed')
  if unusable_frame then lost else if is_plausible h t0 then some (t0, seed) else bad
