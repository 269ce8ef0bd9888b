-- ===== src/Canonizing/Edges.antt =====
-- The strings of a graph and of a permuted graph have equally many ones.
use phd_thesis_src.Prelude.{
  ℕ, zero, suc, ◌+◌, ◌-◌, ◌*◌, ◌<◌, ◌≡◌, refl, sym, ap, ap₂, ◌∙◌, arith, List,
}
use phd_thesis_src.Order.{Graph, IsGraph}
use phd_thesis_src.Order.Sums.{sum, sum-congr, sum-add, sum_split, sum_last, sum_reindex, one}
use phd_thesis_src.Matrix.{image}
use phd_thesis_src.Matrix.Ones.{row, ones-upper_cells, ones-lower_cells}
use phd_thesis_src.Matrix.Permute.{image-lt}
use phd_thesis_src.Matrix.Strings.{permuted}
use phd_thesis_src.Constraints.Ints.Single.{ones}
use phd_thesis_src.Canonizing.{CanonicalIndexing, upper_triangle_rows, upper_triangle_cols}
use phd_thesis_src.Canonizing.Impose.{string}
use phd_thesis_src.Canonizing.Done.{IsPermutation}

module _ (e : Graph) where
  abbrev above : ℕ → ℕ
  above n = sum (λ a. row e a (suc a) (n - suc a)) 0 n

  abbrev below : ℕ → ℕ
  below n = sum (λ a. row e a 0 a) 0 n

  -- Each edge is counted from both of its ends.
  abbrev total : ℕ → ℕ
  total n = sum (λ a. row e a 0 n) 0 n

  above-suc : (n : ℕ) → above (suc n) ≡ above n + sum (λ a. one (e a n)) 0 n
  above-suc n =
      let e' : suc n - suc n ≡ 0 = omega arith in
      sum_last (λ a. row e a (suc a) (suc n - suc a)) 0 n
      ∙ ap₂ (λ a b. a + b)
          (sum-congr (λ a. row e a (suc a) (suc n - suc a))
              (λ a. row e a (suc a) (n - suc a) + one (e a n)) 0 n
              (λ a p q.
                let more : suc n - suc a ≡ suc (n - suc a) = omega arith in
                let at : suc a + (n - suc a) ≡ n = omega arith in
                ap (row e a (suc a)) more
                ∙ sum_last (λ b. one (e a b)) (suc a) (n - suc a)
                ∙ ap (λ b. row e a (suc a) (n - suc a) + one (e a b)) at)
            ∙ sum-add (λ a. row e a (suc a) (n - suc a)) (λ a. one (e a n)) 0 n)
          (ap (row e (0 + n) (suc (0 + n))) {x = suc n - suc (0 + n)} {y = 0} (omega arith))
      ∙ omega arith

  below-above : (n : ℕ) → ((i j : ℕ) → i < n → j < n → e i j ≡ e j i) → below n ≡ above n
  below-above zero h = refl
  below-above (suc n) h =
      let at : 0 + n ≡ n = omega arith in
      sum_last (λ a. row e a 0 a) 0 n
      ∙ ap₂ (λ a b. a + b) (below-above n (λ i j p q. h i j (omega arith) (omega arith)))
          (ap (λ a. row e a 0 a) at
            ∙ sum-congr (λ b. one (e n b)) (λ b. one (e b n)) 0 n
                (λ b p q. ap one (h n b (omega arith) (omega arith))))
      ∙ sym (above-suc n)

  total-above : (n : ℕ) → IsGraph n e → total n ≡ 2 * above n
  total-above n g =
      sum-congr (λ a. row e a 0 n) (λ a. row e a 0 a + row e a (suc a) (n - suc a)) 0 n
        (λ a p q.
          let size : n ≡ a + suc (n - suc a) = omega arith in
          let at : 0 + a ≡ a = omega arith in
          let none : one (e a a) ≡ 0 = ap one (g.no_loops a (omega arith)) in
          ap (row e a 0) size
          ∙ sum_split (λ b. one (e a b)) 0 a (suc (n - suc a))
          ∙ ap (λ k. row e a 0 a + row e a k (suc (n - suc a))) at
          ∙ omega (arith, none))
      ∙ sum-add (λ a. row e a 0 a) (λ a. row e a (suc a) (n - suc a)) 0 n
      ∙ omega (arith, below-above n g.symmetric)

  -- Both indexings count each edge once.
  total-string :
      (index : CanonicalIndexing) (n : ℕ) → IsGraph n e → total n ≡ 2 * ones (string index n e)
  total-string upper_triangle_rows n g =
      total-above n g ∙ ap (λ t. 2 * t) (sym (ones-upper_cells e n 0 n))
  total-string upper_triangle_cols n g =
      total-above n g
      ∙ ap (λ t. 2 * t) (sym (below-above n g.symmetric) ∙ sym (ones-lower_cells e 0 n))

total-permuted :
    (n : ℕ) (e : Graph) (perm : List ℕ)
    → IsPermutation n perm
    → total (permuted perm e) n ≡ total e n
total-permuted n e perm (maps, bij) =
    let inside = λ (i : ℕ) (p : i < n). image-lt n i perm maps p in
    sum-congr (λ a. row (permuted perm e) a 0 n) (λ a. row e (image perm a) 0 n) 0 n
      (λ a p q. sum_reindex (image perm) n inside bij.columns (λ b. one (e (image perm a) b)))
    ∙ sum_reindex (image perm) n inside bij.columns (λ a. row e a 0 n)

pub ones-permuted :
    (index : CanonicalIndexing) (n : ℕ) (e : Graph) (perm : List ℕ)
    → IsGraph n e
    → IsGraph n (permuted perm e)
    → IsPermutation n perm
    → ones (string index n e) ≡ ones (string index n (permuted perm e))
ones-permuted index n e perm g g' p = omega (
  arith,
  total-string e index n g,
  total-string (permuted perm e) index n g',
  total-permuted n e perm p,
)
