-- ===== src/Mime/Reference.antt =====
-- A bit-by-bit reference of the unpacking, and what it does to each place of the buffer.
use talk2text.Prelude.{
  ℕ, zero, suc, ◌/◌, ◌%◌, ◌^◌, ◌<◌, ◌≡◌, ◌≢◌, refl, sym, ◌∙◌, Bool, true, false, if◌then◌else◌,
  ◌==◌, some, List, [], ◌∷◌, ◌++◌, get_elem?, set, length, get_elem?-set_self, get_elem?-set_ne,
  length-set,
}
use talk2text.Mime.{bit_1}

-- The bits of a byte and of a frame, highest first.
abbrev pub bit : ℕ → ℕ → Bool
bit b k = b / 2 ^ k % 2 == 1

unfoldable pub byte_bits : ℕ → List Bool
byte_bits b = bit b 7 ∷ bit b 6 ∷ bit b 5 ∷ bit b 4 ∷ bit b 3 ∷ bit b 2 ∷ bit b 1 ∷ bit b 0 ∷ []

unfoldable pub bits_of : List ℕ → List Bool
bits_of [] = []
bits_of (b ∷ bs) = byte_bits b ++ bits_of bs

-- Bit `i` goes to the place that entry `i` of the table names, if it is set.
unfoldable pub place : List ℕ → List Bool → List ℕ → List ℕ
place [] bits sorted = sorted
place (t ∷ ts) [] sorted = sorted
place (t ∷ ts) (b ∷ bs) sorted = place ts bs (if b then set sorted t bit_1 else sorted)

abbrev pub All {ℓ κ} : {A : Type ℓ} → (A → Type κ) → List A → Type κ
All P [] = Unit
All P (x ∷ xs) = P x × All P xs

-- `t` is none of the places.
abbrev pub Absent : ℕ → List ℕ → Type 0
Absent t ts = All (λ u. u ≢ t) ts

abbrev pub Distinct : List ℕ → Type 0
Distinct [] = Unit
Distinct (t ∷ ts) = Absent t ts × Distinct ts

pub length-place :
    (table : List ℕ) (bits : List Bool) (sorted : List ℕ)
    → length (place table bits sorted) ≡ length sorted
unfolding place
length-place [] bits sorted = refl
length-place (t ∷ ts) [] sorted = refl
length-place (t ∷ ts) (true ∷ bs) sorted =
    length-place ts bs (set sorted t bit_1) ∙ length-set sorted t bit_1
length-place (t ∷ ts) (false ∷ bs) sorted = length-place ts bs sorted

-- A place that the table does not name is left alone.
pub place-Absent :
    (table : List ℕ) (bits : List Bool) (sorted : List ℕ) (p : ℕ)
    → Absent p table
    → get_elem? (place table bits sorted) p ≡ get_elem? sorted p
unfolding place
place-Absent [] bits sorted p a = refl
place-Absent (t ∷ ts) [] sorted p a = refl
place-Absent (t ∷ ts) (true ∷ bs) sorted p a =
    place-Absent ts bs (set sorted t bit_1) p a.1 ∙ get_elem?-set_ne sorted bit_1 a.0
place-Absent (t ∷ ts) (false ∷ bs) sorted p a = place-Absent ts bs sorted p a.1

Absent-get : (ts : List ℕ) (t i p : ℕ) → Absent t ts → get_elem? ts i ≡ some p → p ≢ t
Absent-get [] t i p a e q = cc
Absent-get (u ∷ ts) t zero p a e q = a.0 (cc)
Absent-get (u ∷ ts) t (suc i) p a e q = Absent-get ts t i p a.1 e q

place_head :
    (ts : List ℕ) (bs : List Bool) (sorted : List ℕ) (t : ℕ) (x : Bool)
    → Absent t ts
    → t < length sorted
    → get_elem? (place ts bs (if x then set sorted t bit_1 else sorted)) t
      ≡ (if x then some bit_1 else get_elem? sorted t)
place_head ts bs sorted t true a h =
    place-Absent ts bs (set sorted t bit_1) t a ∙ get_elem?-set_self sorted t bit_1 h
place_head ts bs sorted t false a h = place-Absent ts bs sorted t a

get_elem?-place_set :
    (ts : List ℕ) (sorted : List ℕ) (t i p : ℕ) (b : Bool)
    → Absent t ts
    → get_elem? ts i ≡ some p
    → (if b then some bit_1 else get_elem? (set sorted t bit_1) p)
      ≡ (if b then some bit_1 else get_elem? sorted p)
get_elem?-place_set ts sorted t i p true a e = refl
get_elem?-place_set ts sorted t i p false a e =
    get_elem?-set_ne sorted bit_1 (λ q. Absent-get ts t i p a e (sym q))

-- Each place that the table names has its own bit in the end.
pub place_bit :
    (table : List ℕ) (bits : List Bool) (sorted : List ℕ) (i p : ℕ) (b : Bool)
    → Distinct table
    → All (λ t. t < length sorted) table
    → get_elem? table i ≡ some p
    → get_elem? bits i ≡ some b
    → get_elem? (place table bits sorted) p ≡ (if b then some bit_1 else get_elem? sorted p)
unfolding place
place_bit [] bits sorted i p b d w e f = cc
place_bit (t ∷ ts) [] sorted i p b d w e f = cc
place_bit (t ∷ ts) (x ∷ bs) sorted zero p b d w e f = cc (place_head ts bs sorted t x d.0 w.0)
place_bit (t ∷ ts) (true ∷ bs) sorted (suc i) p b d w e f =
    place_bit ts bs (set sorted t bit_1) i p b d.1 (rw (length-set sorted t bit_1) w.1) e f
    ∙ get_elem?-place_set ts sorted t i p b d.0 e
place_bit (t ∷ ts) (false ∷ bs) sorted (suc i) p b d w e f =
    place_bit ts bs sorted i p b d.1 w.1 e f
