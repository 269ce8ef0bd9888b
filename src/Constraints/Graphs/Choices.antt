-- ===== src/Constraints/Graphs/Choices.antt =====
-- The matrix of truth values of a permutation.
use phd_thesis_src.Prelude.{
  ℕ, zero, suc, ◌+◌, ◌<◌, ◌≤◌, ◌≡◌, refl, ap, ap₂, ◌∙◌, Bool, false, List, [], ◌∷◌, arith, All,
  length, get_or,
}
use phd_thesis_src.Constraints.Ints.Single.{ones, OneHot}
use phd_thesis_src.Constraints.Ints.Permutations.{IsPermMatrix, ColumnsHot, column_of}
use phd_thesis_src.Constraints.Graphs.Tally.{tally, IsPerm}
use phd_thesis_src.Constraints.Graphs.Tables.{cell_of}

-- f j, ..., f (j + m - 1).
abbrev tabulate {ℓ} : {A : Type ℓ} → (ℕ → A) → ℕ → ℕ → List A
tabulate f j zero = []
tabulate f j (suc m) = f j ∷ tabulate f (suc j) m

abbrev pub matrix_of : ℕ → (ℕ → ℕ → Bool) → List (List Bool)
matrix_of n p = tabulate (λ k. tabulate (p k) 0 n) 0 n

length-tabulate {ℓ} : {A : Type ℓ} (f : ℕ → A) (j m : ℕ) → length (tabulate f j m) ≡ m
length-tabulate f j zero = refl
length-tabulate f j (suc m) = ap suc (length-tabulate f (suc j) m)

ones-tabulate : (a : ℕ → Bool) (j m : ℕ) → ones (tabulate a j m) ≡ tally a j m
ones-tabulate a j zero = refl
ones-tabulate a j (suc m) = omega (arith, ones-tabulate a (suc j) m)

get_or-tabulate {ℓ} :
    {A : Type ℓ} (f : ℕ → A) (j m i : ℕ) (d : A) → i < m → get_or (tabulate f j m) i d ≡ f (j + i)
get_or-tabulate f j zero i d lt = absurd (omega arith)
get_or-tabulate f j (suc m) zero d lt = ap f (omega arith)
get_or-tabulate f j (suc m) (suc i) d lt =
    get_or-tabulate f (suc j) m i d (omega arith) ∙ ap f (omega arith)

tabulate-All {ℓ κ} :
    {A : Type ℓ} (P : A → Type κ) (f : ℕ → A) (j m : ℕ)
    → ((i : ℕ) → j ≤ i → i < j + m → P (f i))
    → All P (tabulate f j m)
tabulate-All P f j zero h = tt
tabulate-All P f j (suc m) h = (
  h j (omega arith) (omega arith),
  tabulate-All P f (suc j) m (λ i p q. h i (omega arith) (omega arith)),
)

column_of-tabulate :
    (n i : ℕ) (p : ℕ → ℕ → Bool) (j m : ℕ)
    → i < n
    → column_of i (tabulate (λ k. tabulate (p k) 0 n) j m) ≡ tabulate (λ k. p k i) j m
column_of-tabulate n i p j zero lt = refl
column_of-tabulate n i p j (suc m) lt =
    ap₂ (λ a b. a ∷ b) (get_or-tabulate (p j) 0 n i false lt ∙ ap (p j) (omega arith))
      (column_of-tabulate n i p (suc j) m lt)

ColumnsHot-each :
    (num m : ℕ) (xs : List (List Bool))
    → ((i : ℕ) → i < num + m → ones (column_of i xs) ≡ 1)
    → ColumnsHot num m xs
ColumnsHot-each num zero xs h = tt
ColumnsHot-each num (suc m) xs h =
    (h num (omega arith), ColumnsHot-each (suc num) m xs (λ i lt. h i (omega arith)))

pub IsPermMatrix-matrix_of :
    (n : ℕ) (p : ℕ → ℕ → Bool) → IsPerm n p → IsPermMatrix n (matrix_of n p)
IsPermMatrix-matrix_of n p perm = (
  (
    length-tabulate (λ k. tabulate (p k) 0 n) 0 n,
    tabulate-All (OneHot n) (λ k. tabulate (p k) 0 n) 0 n
        (λ k _ lt.
          (length-tabulate (p k) 0 n, ones-tabulate (p k) 0 n ∙ perm.rows k (omega arith))),
  ),
  ColumnsHot-each 0 n (matrix_of n p) (λ i lt.
      ap ones (column_of-tabulate n i p 0 n (omega arith))
      ∙ ones-tabulate (λ k. p k i) 0 n
      ∙ perm.columns i (omega arith)),
)

pub cell_of-matrix_of :
    (n : ℕ) (p : ℕ → ℕ → Bool) (k i : ℕ) → k < n → i < n → cell_of (matrix_of n p) k i ≡ p k i
cell_of-matrix_of n p k i lk li =
    ap (λ b. get_or b i false) (get_or-tabulate (λ k. tabulate (p k) 0 n) 0 n k [] lk)
    ∙ get_or-tabulate (p (0 + k)) 0 n i false li
    ∙ ap₂ p (omega arith) (omega arith)
