-- ===== src/Constraints/Graphs/Tally.antt =====
-- Counting over a range, for the gates of `isomorphic`: permutations as tables of truth values.
use phd_thesis_src.Prelude.{
  ℕ, zero, suc, ◌+◌, ◌<◌, ◌≤◌, ◌==◌, ltb, ◌≡◌, ◌≢◌, inl, inr, refl, sym, ap, ap₂, ◌∙◌, Bool, true,
  false, ◌||◌, List, [], ◌∷◌, ◌++◌, arith, any, length, length-append, if◌then◌else◌, Bool-cases,
}
use phd_thesis_src.Constraints.Ints.Single.{ones}

-- How many of a k, ..., a (k + m - 1) are true.
abbrev pub tally : (ℕ → Bool) → ℕ → ℕ → ℕ
tally a k zero = 0
tally a k (suc m) = (if a k then 1 else 0) + tally a (suc k) m

tally_one : (a : ℕ → Bool) (k m i : ℕ) → k ≤ i → i < k + m → a i ≡ true → 1 ≤ tally a k m
tally_one a k zero i p q h = absurd (omega arith)
tally_one a k (suc m) i p q h = elim (Bool-cases (i == k)) [
  | inl e ↦
      let same : i ≡ k = ground arith in
      let here : a k ≡ true = ap a (sym same) ∙ h in rw here (omega arith)
  | inr e ↦
      let later : k < i = ground arith in
      omega (arith, tally_one a (suc k) m i (omega arith) (omega arith) h)
]

tally_two :
    (a : ℕ → Bool) (k m i j : ℕ)
    → k ≤ i
    → i < j
    → j < k + m
    → a i ≡ true
    → a j ≡ true
    → 2 ≤ tally a k m
tally_two a k zero i j p lt q h g = absurd (omega arith)
tally_two a k (suc m) i j p lt q h g = elim (Bool-cases (i == k)) [
  | inl e ↦
      let same : i ≡ k = ground arith in
      let here : a k ≡ true = ap a (sym same) ∙ h in
      rw here (omega (arith, tally_one a (suc k) m j (omega arith) (omega arith) g))
  | inr e ↦
      let later : k < i = ground arith in
      omega (arith, tally_two a (suc k) m i j (omega arith) lt (omega arith) h g)
]

-- Where one is true, it is found, and it is the only one.
pub tally_found :
    (a : ℕ → Bool) (k m : ℕ) → 0 < tally a k m → (i : ℕ) × (k ≤ i) × (i < k + m) × (a i ≡ true)
tally_found a k zero h = absurd (omega arith)
tally_found a k (suc m) h = elim (Bool-cases (a k)) [
  | inl e ↦ (k, omega arith, omega arith, e)
  | inr e ↦
      let rest : 0 < tally a (suc k) m = ground arith in
      let (i, p, q, g) = tally_found a (suc k) m rest in (i, omega arith, omega arith, g)
]

pub tally_unique :
    (a : ℕ → Bool) (n i j : ℕ) → tally a 0 n ≡ 1 → i < n → j < n → a i ≡ true → a j ≡ true → i ≡ j
tally_unique a n i j one p q h g = elim (Bool-cases (ltb i j)) [
  | inl e ↦
      let lt : i < j = ground arith in
      absurd (omega (arith, tally_two a 0 n i j (omega arith) lt (omega arith) h g))
  | inr e ↦ elim (Bool-cases (ltb j i)) [
    | inl e' ↦
        let lt : j < i = ground arith in
        absurd (omega (arith, tally_two a 0 n j i (omega arith) lt (omega arith) g h))
    | inr e' ↦ ground arith
  ]
]

-- A permutation of the numbers below `n`, as the table of "k goes to i".
pub record IsPerm (n : ℕ) (p : ℕ → ℕ → Bool) : Type 0 where
  pub rows : (k : ℕ) → k < n → tally (p k) 0 n ≡ 1
  pub columns : (i : ℕ) → i < n → tally (λ k. p k i) 0 n ≡ 1

-- The entries off the diagonal, in the order of the loops over `l` and over `k`.
abbrev pub off_row : (ℕ → ℕ → Bool) → ℕ → ℕ → ℕ → List Bool
off_row f k l zero = []
off_row f k l (suc m) = if k == l then off_row f k (suc l) m else f k l ∷ off_row f k (suc l) m

abbrev pub off_rows : (ℕ → ℕ → Bool) → ℕ → ℕ → ℕ → List Bool
off_rows f n k zero = []
off_rows f n k (suc m) = off_row f k 0 n ++ off_rows f n (suc k) m

abbrev pub some_true : List Bool → Bool
some_true xs = any (λ x. x) xs

some_true-append : (xs ys : List Bool) → some_true (xs ++ ys) ≡ (some_true xs || some_true ys)
some_true-append [] ys = refl
some_true-append (x ∷ xs) ys = ground (arith, some_true-append xs ys)

pub ones-append : (xs ys : List Bool) → ones (xs ++ ys) ≡ ones xs + ones ys
ones-append [] ys = omega arith
ones-append (x ∷ xs) ys = omega (arith, ones-append xs ys)

off_row-true :
    (f : ℕ → ℕ → Bool) (k l m j : ℕ)
    → l ≤ j
    → j < l + m
    → k ≢ j
    → f k j ≡ true
    → some_true (off_row f k l m) ≡ true
off_row-true f k l zero j p q ne h = absurd (omega arith)
off_row-true f k l (suc m) j p q ne h = elim (Bool-cases (l == j)) [
  | inl e ↦
      let same : l ≡ j = ground arith in
      let here : f k l ≡ true = ap (f k) same ∙ h in
      let off : (k == l) ≡ false = ground arith in rw (off, here) refl
  | inr e ↦
      let later : l < j = ground arith in
      ground (arith, off_row-true f k (suc l) m j (omega arith) (omega arith) ne h)
]

pub off_rows-true :
    (f : ℕ → ℕ → Bool) (n k m i j : ℕ)
    → k ≤ i
    → i < k + m
    → j < n
    → i ≢ j
    → f i j ≡ true
    → some_true (off_rows f n k m) ≡ true
off_rows-true f n k zero i j p q lt ne h = absurd (omega arith)
off_rows-true f n k (suc m) i j p q lt ne h =
    let split = some_true-append (off_row f k 0 n) (off_rows f n (suc k) m) in
    elim (Bool-cases (k == i)) [
      | inl e ↦
          let same : k ≡ i = ground arith in
          let here : some_true (off_row f k 0 n) ≡ true =
            off_row-true f k 0 n j (omega arith) (omega arith) (λ w. ne (sym same ∙ w))
              (ap (λ c. f c j) same ∙ h) in
          ground (arith, split)
      | inr e ↦
          let later : k < i = ground arith in
          ground (arith, split, off_rows-true f n (suc k) m i j (omega arith) (omega arith) lt ne h)
    ]

off_row-found :
    (f : ℕ → ℕ → Bool) (k l m : ℕ)
    → some_true (off_row f k l m) ≡ true
    → (j : ℕ) × (j < l + m) × (k ≢ j) × (f k j ≡ true)
off_row-found f k l zero h = absurd (cc h)
off_row-found f k l (suc m) h = elim (Bool-cases (k == l)) [
  | inl e ↦
      let rest : some_true (off_row f k (suc l) m) ≡ true = ground arith in
      let (j, q, ne, g) = off_row-found f k (suc l) m rest in (j, omega arith, ne, g)
  | inr e ↦ elim (Bool-cases (f k l)) [
    | inl e' ↦ (l, omega arith, ground arith, e')
    | inr e' ↦
        let rest : some_true (off_row f k (suc l) m) ≡ true = ground arith in
        let (j, q, ne, g) = off_row-found f k (suc l) m rest in (j, omega arith, ne, g)
  ]
]

pub off_rows-found :
    (f : ℕ → ℕ → Bool) (n k m : ℕ)
    → some_true (off_rows f n k m) ≡ true
    → (i : ℕ) × (j : ℕ) × (i < k + m) × (j < n) × (i ≢ j) × (f i j ≡ true)
off_rows-found f n k zero h = absurd (cc h)
off_rows-found f n k (suc m) h =
    let split = some_true-append (off_row f k 0 n) (off_rows f n (suc k) m) in
    elim (Bool-cases (some_true (off_row f k 0 n))) [
      | inl e ↦
          let (j, q, ne, g) = off_row-found f k 0 n e in (k, j, omega arith, omega arith, ne, g)
      | inr e ↦
          let rest : some_true (off_rows f n (suc k) m) ≡ true = ground (arith, split) in
          let (i, j, p, q, ne, g) = off_rows-found f n (suc k) m rest in
          (i, j, omega arith, q, ne, g)
    ]

module _ (f g : ℕ → ℕ → Bool) (n : ℕ) (same : (k l : ℕ) → k < n → l < n → f k l ≡ g k l) where
  off_row_congr : (k l m : ℕ) → k < n → l + m ≤ n → off_row f k l m ≡ off_row g k l m
  off_row_congr k l zero lk lm = refl
  off_row_congr k l (suc m) lk lm = elim (Bool-cases (k == l)) [
    | inl e ↦ rw e (off_row_congr k (suc l) m lk (omega arith))
    | inr e ↦ rw e (
        ap₂ (λ a b. a ∷ b) (same k l lk (omega arith)) (off_row_congr k (suc l) m lk (omega arith)))
  ]

  pub off_rows_congr : (k m : ℕ) → k + m ≤ n → off_rows f n k m ≡ off_rows g n k m
  off_rows_congr k zero lm = refl
  off_rows_congr k (suc m) lm =
      ap₂ (λ a b. a ++ b) (off_row_congr k 0 n (omega arith) (omega arith))
        (off_rows_congr (suc k) m (omega arith))

-- There are two entries off the diagonal where there are two rows.
pub length-off_rows : (f : ℕ → ℕ → Bool) (n : ℕ) → 2 ≤ n → 2 ≤ length (off_rows f n 0 n)
length-off_rows f zero h = absurd (omega arith)
length-off_rows f (suc zero) h = absurd (omega arith)
length-off_rows f (suc (suc n)) h = omega (
  arith,
  length-append (off_row f 0 2 n) (off_row f 1 0 (suc (suc n)) ++ off_rows f (suc (suc n)) 2 n),
  length-append (off_row f 1 2 n) (off_rows f (suc (suc n)) 2 n),
)

tally_congr :
    (a b : ℕ → Bool) (k m n : ℕ)
    → k + m ≤ n
    → ((i : ℕ) → i < n → a i ≡ b i)
    → tally a k m ≡ tally b k m
tally_congr a b k zero n lm same = refl
tally_congr a b k (suc m) n lm same =
    ap₂ (λ c d. (if c then 1 else 0) + d) (same k (omega arith))
      (tally_congr a b (suc k) m n (omega arith) same)

pub IsPerm-congr :
    (n : ℕ) (p q : ℕ → ℕ → Bool)
    → ((k i : ℕ) → k < n → i < n → p k i ≡ q k i)
    → IsPerm n p
    → IsPerm n q
IsPerm-congr n p q same h = record {
  rows = λ k lt.
      sym (tally_congr (p k) (q k) 0 n n (omega arith) (λ i li. same k i lt li)) ∙ h.rows k lt;
  columns = λ i lt.
      sym (tally_congr (λ k. p k i) (λ k. q k i) 0 n n (omega arith) (λ k lk. same k i lk lt))
      ∙ h.columns i lt;
}
