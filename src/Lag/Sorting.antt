-- ===== src/Lag/Sorting.antt =====
-- lagconceal.c: the rounds of `insertion_sort`. The entries that they have passed are a list, the
-- last one first.
use talk2text.Prelude.{
  ℕ, suc, ◌+◌, ◌<◌, ◌≡◌, refl, sym, ap, true, if◌then◌else◌, ltb, Bool-cases, inl, inr, some, List,
  [], ◌∷◌, ◌++◌, get_elem?, set, length, ℤ, ltb_ℤ, ◌≤ℤ◌, arith,
}
use talk2text.Mime.Reference.{All}
use talk2text.Lag.{store, insert, sort_from}

-- The list behind the entries of `rs`, the last one first.
unfoldable pub rev_onto {ℓ} : {A : Type ℓ} → List A → List A → List A
rev_onto [] ys = ys
rev_onto (r ∷ rs) ys = rev_onto rs (r ∷ ys)

module _ {ℓ} {A : Type ℓ} where
  rev_onto-get :
      (rs ys : List A) (i j : ℕ) → i ≡ length rs + j → get_elem? (rev_onto rs ys) i ≡ get_elem? ys j
  unfolding rev_onto
  rev_onto-get [] ys i j e = let same : i ≡ j = omega (arith, e) in rw same refl
  rev_onto-get (r ∷ rs) ys i j e = rev_onto-get rs (r ∷ ys) i (suc j) (omega (arith, e))

  rev_onto-set :
      (rs ys : List A) (i j : ℕ) (v : A)
      → i ≡ length rs + j
      → set (rev_onto rs ys) i v ≡ rev_onto rs (set ys j v)
  unfolding rev_onto
  rev_onto-set [] ys i j v e = let same : i ≡ j = omega (arith, e) in rw same refl
  rev_onto-set (r ∷ rs) ys i j v e = rev_onto-set rs (r ∷ ys) i (suc j) v (omega (arith, e))

  pub length-rev_onto : (rs ys : List A) → length (rev_onto rs ys) ≡ length rs + length ys
  unfolding rev_onto
  length-rev_onto [] ys = omega arith
  length-rev_onto (r ∷ rs) ys = omega (arith, length-rev_onto rs (r ∷ ys))

  pub rev_onto-append : (rs ys zs : List A) → rev_onto rs (ys ++ zs) ≡ rev_onto rs ys ++ zs
  unfolding rev_onto
  rev_onto-append [] ys zs = refl
  rev_onto-append (r ∷ rs) ys zs = rev_onto-append rs (r ∷ ys) zs

-- `x` in the entries `rs` that fall, which is where `insert` puts it.
unfoldable pub put_in : ℤ → List ℤ → List ℤ
put_in x [] = x ∷ []
put_in x (r ∷ rs) = let rest = put_in x rs in if ltb_ℤ x r then r ∷ rest else x ∷ r ∷ rs

store-rev_onto :
    (rs ys : List ℤ) (i j : ℕ) (x : ℤ)
    → i ≡ length rs + j
    → j < length ys
    → store (rev_onto rs ys) i x ≡ some (rev_onto rs (set ys j x))
store-rev_onto rs ys i j x e h =
    let inside : ltb i (length (rev_onto rs ys)) ≡ true = ground (arith, length-rev_onto rs ys) in
    rw (inside, rev_onto-set rs ys i j x e) refl

insert-put_in :
    (rs ys : List ℤ) (y x : ℤ)
    → insert (rev_onto rs (y ∷ ys)) (length rs) x ≡ some (rev_onto (put_in x rs) ys)
unfolding insert put_in rev_onto
insert-put_in [] ys y x = store-rev_onto [] (y ∷ ys) 0 0 x (omega arith) (omega arith)
insert-put_in (r ∷ rs) ys y x =
    let got = rev_onto-get rs (r ∷ y ∷ ys) (length rs) 0 (omega arith) in
    let last = store-rev_onto rs (r ∷ y ∷ ys) (suc (length rs)) 1 in
    elim (Bool-cases (ltb_ℤ x r)) [
      | inl below ↦
          rw (got, last r (omega arith) (omega arith), below) (insert-put_in rs (r ∷ ys) r x)
      | inr above ↦ rw (got, above, last x (omega arith) (omega arith)) refl
    ]

-- The entries `ys`, one after the other.
unfoldable pub put_all : List ℤ → List ℤ → List ℤ
put_all [] rs = rs
put_all (y ∷ ys) rs = put_all ys (put_in y rs)

pub length-put_in : (x : ℤ) (rs : List ℤ) → length (put_in x rs) ≡ suc (length rs)
unfolding put_in
length-put_in x [] = refl
length-put_in x (r ∷ rs) = elim (Bool-cases (ltb_ℤ x r)) [
  | inl below ↦ rw below (ap suc (length-put_in x rs))
  | inr above ↦ rw above refl
]

pub sort_from-put_all :
    (rs ys zs : List ℤ)
    → sort_from (rev_onto rs (ys ++ zs)) (length rs) (length ys)
      ≡ some (rev_onto (put_all ys rs) zs)
unfolding sort_from put_all
sort_from-put_all rs [] zs = refl
sort_from-put_all rs (y ∷ ys) zs =
    let got = rev_onto-get rs (y ∷ ys ++ zs) (length rs) 0 (omega arith) in
    rw (got, insert-put_in rs (ys ++ zs) y y, sym (length-put_in y rs))
      (sort_from-put_all (put_in y rs) ys zs)

-- A list whose entries do not fall, and one whose entries do not rise.
abbrev pub IsSorted : List ℤ → Type 0
IsSorted [] = Unit
IsSorted (x ∷ xs) = All (λ y. x ≤ℤ y) xs × IsSorted xs

abbrev pub IsFalling : List ℤ → Type 0
IsFalling [] = Unit
IsFalling (r ∷ rs) = All (λ u. u ≤ℤ r) rs × IsFalling rs

pub All-mono : (P Q : ℤ → Type 0) (xs : List ℤ) → ((x : ℤ) → P x → Q x) → All P xs → All Q xs
All-mono P Q [] f a = tt
All-mono P Q (x ∷ xs) f a = (f x a.0, All-mono P Q xs f a.1)

pub All-put_in : (P : ℤ → Type 0) (x : ℤ) (rs : List ℤ) → P x → All P rs → All P (put_in x rs)
unfolding put_in
All-put_in P x [] p a = (p, tt)
All-put_in P x (r ∷ rs) p a = elim (Bool-cases (ltb_ℤ x r)) [
  | inl below ↦ rw below (a.0, All-put_in P x rs p a.1)
  | inr above ↦ rw above (p, a)
]

put_in-IsFalling : (x : ℤ) (rs : List ℤ) → IsFalling rs → IsFalling (put_in x rs)
unfolding put_in
put_in-IsFalling x [] f = (tt, tt)
put_in-IsFalling x (r ∷ rs) f = elim (Bool-cases (ltb_ℤ x r)) [
  | inl below ↦
      rw below (All-put_in (λ u. u ≤ℤ r) x rs (ground arith) f.0, put_in-IsFalling x rs f.1)
  | inr above ↦
      let most : r ≤ℤ x = ground arith in
      rw above ((most, All-mono (λ u. u ≤ℤ r) (λ u. u ≤ℤ x) rs (λ u h. omega arith) f.0), f)
]

pub put_all-IsFalling : (ys rs : List ℤ) → IsFalling rs → IsFalling (put_all ys rs)
unfolding put_all
put_all-IsFalling [] rs f = f
put_all-IsFalling (y ∷ ys) rs f = put_all-IsFalling ys (put_in y rs) (put_in-IsFalling y rs f)

pub rev_onto-IsSorted :
    (rs ys : List ℤ)
    → IsFalling rs
    → IsSorted ys
    → All (λ r. All (λ y. r ≤ℤ y) ys) rs
    → IsSorted (rev_onto rs ys)
unfolding rev_onto
rev_onto-IsSorted [] ys f s a = s
rev_onto-IsSorted (r ∷ rs) ys f s a = rev_onto-IsSorted rs (r ∷ ys) f.1 (a.0, s) (both rs f.0 a.1)
  where
    both :
        (us : List ℤ)
        → All (λ u. u ≤ℤ r) us
        → All (λ u. All (λ y. u ≤ℤ y) ys) us
        → All (λ u. All (λ y. u ≤ℤ y) (r ∷ ys)) us
    both [] b c = tt
    both (u ∷ us) b c = ((b.0, c.0), both us b.1 c.1)
