-- ===== src/Mime/Tables/Sound.antt =====
-- The sorting tables as permutations of the places of their frames.
use talk2text.Prelude.{
  ℕ, zero, suc, ◌≤◌, ◌<◌, ◌≡◌, refl, Bool, true, ◌&&◌, not, ltb, leb, ◌==◌, some, List, [], ◌∷◌,
  get_elem?, length, arith,
}
use talk2text.Mime.{amr_wb_sorting_tables, unpacked_size}
use talk2text.Mime.Reference.{All, Absent, Distinct}
use talk2text.Mime.Tables.Low.{sort_660, sort_885, sort_1265, sort_1425, sort_1585, sort_sid}
use talk2text.Mime.Tables.High.{sort_1825, sort_1985, sort_2305, sort_2385}

pub record IsSorting (table : List ℕ) (size : ℕ) : Type 0 where
  pub long : length table ≡ size
  pub inside : All (λ t. t < size) table
  pub distinct : Distinct table
  pub small : size ≤ 477

below : ℕ → List ℕ → Bool
below n [] = true
below n (t ∷ ts) = ltb t n && below n ts

absent : ℕ → List ℕ → Bool
absent t [] = true
absent t (u ∷ us) = not (u == t) && absent t us

distinct : List ℕ → Bool
distinct [] = true
distinct (t ∷ ts) = absent t ts && distinct ts

below_sound : (n : ℕ) (ts : List ℕ) → below n ts ≡ true → All (λ t. t < n) ts
unfolding below
below_sound n [] h = tt
below_sound n (t ∷ ts) h = (ground arith, below_sound n ts (ground arith))

absent_sound : (t : ℕ) (us : List ℕ) → absent t us ≡ true → Absent t us
unfolding absent
absent_sound t [] h = tt
absent_sound t (u ∷ us) h = (λ e. ground arith, absent_sound t us (ground arith))

distinct_sound : (ts : List ℕ) → distinct ts ≡ true → Distinct ts
unfolding distinct
distinct_sound [] h = tt
distinct_sound (t ∷ ts) h = (absent_sound t ts (ground arith), distinct_sound ts (ground arith))

sorting : List ℕ → ℕ → Bool
sorting ts n = (length ts == n && leb n 477) && (below n ts && distinct ts)

sorting_sound : (ts : List ℕ) (n : ℕ) → sorting ts n ≡ true → IsSorting ts n
unfolding sorting
sorting_sound ts n h = record {
  long = ground arith;
  inside = below_sound n ts (ground arith);
  distinct = distinct_sound ts (ground arith);
  small = ground arith;
}

all_sorting : List (List ℕ) → List ℕ → Bool
all_sorting (t ∷ ts) (n ∷ ns) = sorting t n && all_sorting ts ns
all_sorting _ _ = true

all_sorting_sound :
    (tables : List (List ℕ)) (sizes : List ℕ) (i : ℕ) (t : List ℕ) (n : ℕ)
    → all_sorting tables sizes ≡ true
    → get_elem? tables i ≡ some t
    → get_elem? sizes i ≡ some n
    → sorting t n ≡ true
unfolding all_sorting
all_sorting_sound [] sizes i t n h e f = cc
all_sorting_sound (x ∷ xs) [] i t n h e f = cc
all_sorting_sound (x ∷ xs) (m ∷ ms) zero t n h e f = ground arith
all_sorting_sound (x ∷ xs) (m ∷ ms) (suc i) t n h e f =
    all_sorting_sound xs ms i t n (ground arith) e f

tables_pass : all_sorting amr_wb_sorting_tables unpacked_size ≡ true
unfolding all_sorting sorting below absent distinct amr_wb_sorting_tables sort_660 sort_885
    sort_1265 sort_1425 sort_1585 sort_sid sort_1825 sort_1985 sort_2305 sort_2385
tables_pass = refl

-- The sorting table of every mode has exactly as many entries as the mode has bits, each entry is
-- below that number, no entry occurs twice, and the number is at most 477.
pub tables-IsSorting :
    (mode : ℕ) (table : List ℕ) (size : ℕ)
    → get_elem? amr_wb_sorting_tables mode ≡ some table
    → get_elem? unpacked_size mode ≡ some size
    → IsSorting table size
tables-IsSorting mode table size e f =
    sorting_sound table size
      (all_sorting_sound amr_wb_sorting_tables unpacked_size mode table size tables_pass e f)
