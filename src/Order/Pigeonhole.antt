-- ===== src/Order/Pigeonhole.antt =====
-- A map of the numbers below n to themselves that sends no two to one number meets each of them.
use phd_thesis_src.Prelude.{
  ℕ, zero, suc, ◌+◌, ◌*◌, ◌<◌, ◌≤◌, ◌==◌, ltb, ◌≡◌, refl, sym, ◌∙◌, Bool, true, arith, Bool-cases,
  inl, inr,
}
use phd_thesis_src.Order.Sums.{sum, sum-congr, sum-swap, sum_pick, sum-tally, one}
use phd_thesis_src.Constraints.Graphs.Tally.{tally, tally_found}

tally_unique-le :
    (a : ℕ → Bool) (k m : ℕ)
    → ((i j : ℕ) → k ≤ i → i < k + m → k ≤ j → j < k + m → a i ≡ true → a j ≡ true → i ≡ j)
    → tally a k m ≤ 1
tally_unique-le a k zero h = omega arith
tally_unique-le a k (suc m) h = elim (Bool-cases (ltb 0 (tally a (suc k) m))) [
  | inl more ↦
      let (i, p, q, e) = tally_found a (suc k) m (ground arith) in
      elim (Bool-cases (a k)) [
        | inl here ↦
            absurd (
              omega
                (arith, h k i (omega arith) (omega arith) (omega arith) (omega arith) here e, p))
        | inr other ↦
            let rest =
              tally_unique-le a (suc k) m
                (λ i j p q p' q'. h i j (omega arith) (omega arith) (omega arith) (omega arith)) in
            rw other (omega (arith, rest))
      ]
  | inr none ↦ let rest : tally a (suc k) m ≡ 0 = ground arith in ground (arith, rest)
]

sum-le : (f : ℕ → ℕ) (k m : ℕ) → ((i : ℕ) → k ≤ i → i < k + m → f i ≤ 1) → sum f k m ≤ m
sum-le f k zero h = omega arith
sum-le f k (suc m) h = omega (
  arith,
  h k (omega arith) (omega arith),
  sum-le f (suc k) m (λ i p q. h i (omega arith) (omega arith)),
)

sum_whole :
    (f : ℕ → ℕ) (k m : ℕ)
    → ((i : ℕ) → k ≤ i → i < k + m → f i ≤ 1)
    → sum f k m ≡ m
    → (i : ℕ) → k ≤ i
    → i < k + m
    → f i ≡ 1
sum_whole f k zero h e i p q = absurd (omega arith)
sum_whole f k (suc m) h e i p q =
    let rest = λ (i : ℕ) (p : suc k ≤ i) (q : i < suc k + m). h i (omega arith) (omega arith) in
    let first = h k (omega arith) (omega arith) in
    let bound = sum-le f (suc k) m rest in
    elim (Bool-cases (k == i)) [
      | inl same ↦
          let at : k ≡ i = ground arith in
          let here : f k ≡ 1 = omega (arith, first, bound, e) in rw (sym at) here
      | inr other ↦
          let later : k < i = ground arith in
          sum_whole f (suc k) m rest (omega (arith, first, bound, e)) i (omega arith) (omega arith)
    ]

sum_ones : (k m : ℕ) → sum (λ i. 1) k m ≡ m
sum_ones k zero = refl
sum_ones k (suc m) = omega (arith, sum_ones (suc k) m)

pub injective-onto :
    (g : ℕ → ℕ) (n : ℕ)
    → ((i : ℕ) → i < n → g i < n)
    → ((i j : ℕ) → i < n → j < n → g i ≡ g j → i ≡ j)
    → (j : ℕ) → j < n
    → tally (λ i. g i == j) 0 n ≡ 1
injective-onto g n maps inj j lt =
    sum_whole (λ j. tally (λ i. g i == j) 0 n) 0 n
      (λ j p q.
        tally_unique-le (λ i. g i == j) 0 n
          (λ i i' p q p' q' e e'.
            let at : g i ≡ j = ground arith in
            let at' : g i' ≡ j = ground arith in
            inj i i' (omega arith) (omega arith) (at ∙ sym at')))
      (sum-congr (λ j. tally (λ i. g i == j) 0 n) (λ j. sum (λ i. one (g i == j) * 1) 0 n) 0 n
          (λ j p q. omega (arith, sum-tally (λ i. g i == j) 1 0 n))
        ∙ sym (sum-swap (λ i j. one (g i == j) * 1) 0 n 0 n)
        ∙ sum-congr (λ i. sum (λ j. one (g i == j) * 1) 0 n) (λ i. 1) 0 n
            (λ i p q.
              sum_pick (λ j. 1) (g i) 0 n (omega arith) (omega (arith, maps i (omega arith))))
        ∙ sum_ones 0 n)
      j (omega arith) (omega arith)

pub image-once : (n x : ℕ) → x < n → tally (λ i. x == i) 0 n ≡ 1
image-once n x lt =
    omega
      (arith, sum-tally (λ i. x == i) 1 0 n, sum_pick (λ j. 1) x 0 n (omega arith) (omega arith))
