-- ===== src/Order/Sums.antt =====
-- Finite sums, for counting the edges of a graph.
use phd_thesis_src.Prelude.{
  ℕ, zero, suc, ◌+◌, ◌*◌, ◌<◌, ◌≤◌, ◌==◌, ◌≡◌, refl, sym, ap, ap₂, ◌∙◌, Bool, false, arith,
  if◌then◌else◌, Bool-cases, inl, inr,
}
use phd_thesis_src.Constraints.Graphs.Tally.{tally}

-- f k + ... + f (k + m - 1)
abbrev pub sum : (ℕ → ℕ) → ℕ → ℕ → ℕ
sum f k zero = 0
sum f k (suc m) = f k + sum f (suc k) m

pub sum-congr :
    (f g : ℕ → ℕ) (k m : ℕ) → ((i : ℕ) → k ≤ i → i < k + m → f i ≡ g i) → sum f k m ≡ sum g k m
sum-congr f g k zero h = refl
sum-congr f g k (suc m) h =
    ap₂ (λ a b. a + b) (h k (omega arith) (omega arith))
      (sum-congr f g (suc k) m (λ i p q. h i (omega arith) (omega arith)))

sum_zero : (k m : ℕ) → sum (λ i. 0) k m ≡ 0
sum_zero k zero = refl
sum_zero k (suc m) = omega (arith, sum_zero (suc k) m)

pub sum-add : (f g : ℕ → ℕ) (k m : ℕ) → sum (λ i. f i + g i) k m ≡ sum f k m + sum g k m
sum-add f g k zero = omega arith
sum-add f g k (suc m) = omega (arith, sum-add f g (suc k) m)

pub sum_split : (f : ℕ → ℕ) (k a b : ℕ) → sum f k (a + b) ≡ sum f k a + sum f (k + a) b
sum_split f k zero b =
    let e : zero + b ≡ b = omega arith in
    let e' : k + zero ≡ k = omega arith in rw (e, e') (omega arith)
sum_split f k (suc a) b =
    let e : suc a + b ≡ suc (a + b) = omega arith in
    let e' : k + suc a ≡ suc k + a = omega arith in
    rw (e, e') (omega (arith, sum_split f (suc k) a b))

pub sum_last : (f : ℕ → ℕ) (k m : ℕ) → sum f k (suc m) ≡ sum f k m + f (k + m)
sum_last f k m =
    let e : suc m ≡ m + 1 = omega arith in
    ap (sum f k) e ∙ sum_split f k m 1 ∙ ap (λ t. sum f k m + t) (omega arith)

-- The order of two sums.
pub sum-swap :
    (f : ℕ → ℕ → ℕ) (k m l n : ℕ)
    → sum (λ i. sum (f i) l n) k m ≡ sum (λ j. sum (λ i. f i j) k m) l n
sum-swap f k zero l n = sym (sum_zero l n)
sum-swap f k (suc m) l n =
    ap (λ t. sum (f k) l n + t) (sum-swap f (suc k) m l n)
    ∙ sym (sum-add (f k) (λ j. sum (λ i. f i j) (suc k) m) l n)

abbrev pub one : Bool → ℕ
one b = if b then 1 else 0

-- A sum with one term that counts.
sum_skip : (f : ℕ → ℕ) (x k m : ℕ) → x < k → sum (λ j. one (x == j) * f j) k m ≡ 0
sum_skip f x k zero h = refl
sum_skip f x k (suc m) h =
    let other : (x == k) ≡ false = ground arith in
    rw other (omega (arith, sum_skip f x (suc k) m (omega arith)))

pub sum_pick : (f : ℕ → ℕ) (x k m : ℕ) → k ≤ x → x < k + m → sum (λ j. one (x == j) * f j) k m ≡ f x
sum_pick f x k zero p q = absurd (omega arith)
sum_pick f x k (suc m) p q = elim (Bool-cases (x == k)) [
  | inl e ↦
      let here : x ≡ k = ground arith in
      rw e (omega (arith, ap f here, sum_skip f x (suc k) m (omega arith)))
  | inr e ↦
      let later : k < x = ground arith in
      rw e (omega (arith, sum_pick f x (suc k) m (omega arith) (omega arith)))
]

pub sum-tally : (a : ℕ → Bool) (c k m : ℕ) → sum (λ i. one (a i) * c) k m ≡ tally a k m * c
sum-tally a c k zero = omega arith
sum-tally a c k (suc m) = grind (arith, sum-tally a c (suc k) m)

-- A sum over the images of the numbers below `n`, when each number is the image of one.
pub sum_reindex :
    (g : ℕ → ℕ) (n : ℕ)
    → ((i : ℕ) → i < n → g i < n)
    → ((j : ℕ) → j < n → tally (λ i. g i == j) 0 n ≡ 1)
    → (f : ℕ → ℕ) → sum (λ i. f (g i)) 0 n ≡ sum f 0 n
sum_reindex g n maps once f =
    sum-congr (λ i. f (g i)) (λ i. sum (λ j. one (g i == j) * f j) 0 n) 0 n
      (λ i p q. sym (sum_pick f (g i) 0 n (omega arith) (omega (arith, maps i (omega arith)))))
    ∙ sum-swap (λ i j. one (g i == j) * f j) 0 n 0 n
    ∙ sum-congr (λ j. sum (λ i. one (g i == j) * f j) 0 n) f 0 n
        (λ j p q.
          sum-tally (λ i. g i == j) (f j) 0 n
          ∙ ap (λ t. t * f j) (once j (omega arith))
          ∙ omega arith)
